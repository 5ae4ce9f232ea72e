-- ===== src/Proxy/Context.antt =====
-- The proxy's TEE resources: a context with a session, and two buffers.
use capstone_2025_team.Base.{ℕ, Bool, false, Option, some, [], ◌>>=◌}
use capstone_2025_team.Memory.{of_list}
use capstone_2025_team.Proxy.{Board}
use capstone_2025_team.Ta.{Params}
use capstone_2025_team.Ta.Command.{command_configure_heap, heap_kinds}

module _ (b : Board) where
  -- `tee_ctx`. The device stands for `ctx` and `sess`, and each buffer for whether it is there;
  -- the output buffer is only handed on to WAMR, and nothing uses the other.
  pub record TeeCtx : Type 0 where
    pub device : b.Device
    pub output_buffer : Bool
    pub output_buffer_size : ℕ
    pub benchmark_buffer : Bool
    pub benchmark_buffer_size : ℕ

  -- `prepare_tee_session`: without a context or a session the process exits (`none`).
  unfoldable pub prepare_tee_session : TeeCtx → Option TeeCtx
  prepare_tee_session ctx = do
    made ← b.initialize_context ctx.device
    opened ← b.open_session made
    some (record ctx { device = opened })

  abbrev pub heap_params : ℕ → Params
  heap_params size = record { size_value = size; wasm = []; request = 0; shared = of_list 0 [] }

  -- `configure_heap_size`: a failure is only printed.
  unfoldable pub configure_heap_size : TeeCtx → ℕ → TeeCtx
  configure_heap_size ctx size = record ctx {
    device = (b.invoke ctx.device command_configure_heap heap_kinds (heap_params size)).1;
  }

  -- `allocate_buffers`: what malloc gave is not looked at.
  unfoldable pub allocate_buffers : TeeCtx → ℕ → TeeCtx
  allocate_buffers ctx size = record ctx {
    output_buffer = b.malloc size;
    output_buffer_size = size;
    benchmark_buffer = b.malloc size;
    benchmark_buffer_size = size;
  }

  -- `terminate_tee_session`
  unfoldable pub terminate_tee_session : TeeCtx → TeeCtx
  terminate_tee_session ctx = record ctx {
    device = b.finalize_context (b.close_session ctx.device);
  }

  -- `free_buffers`
  unfoldable pub free_buffers : TeeCtx → TeeCtx
  free_buffers ctx = record ctx {
    output_buffer = false;
    output_buffer_size = 0;
    benchmark_buffer = false;
    benchmark_buffer_size = 0;
  }
