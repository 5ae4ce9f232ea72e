-- ===== src/Proxy.antt =====
-- The gRPC server on the board (fixed-proxy/main.cpp), which runs a chaincode in the TA and
-- forwards its requests to the chaincode wrapper. Timestamps and printing are left out.
pub mod Arguments
pub mod Answer
pub mod Loop
pub mod Context
pub mod Server
pub mod Main
pub mod Uuid
use capstone_2025_team.Base.{ℕ, Bool, Option, List, Bytes}
use capstone_2025_team.Message.{WrapperMessage, ProxyMessage}
use capstone_2025_team.Ta.{Kinds, Params}

-- The rest of the board. `invoke` is `TEEC_InvokeCommand`: whether it returned TEEC_SUCCESS, and
-- what it left. A context that cannot be made, or a session that cannot be opened, is `none`.
pub record Board : Type 1 where
  pub Device : Type 0
  pub invoke : Device → ℕ → Kinds → Params → Bool × Device × Params
  pub initialize_context : Device → Option Device
  pub open_session : Device → Option Device
  pub close_session : Device → Device
  pub finalize_context : Device → Device
  -- The contents of a file.
  pub open_file : Bytes → Option Bytes
  -- malloc(n) != NULL and calloc(1, n) != NULL
  pub malloc : ℕ → Bool
  pub calloc : ℕ → Bool

-- A bidirectional stream: the messages that will still arrive, how many writes will still
-- succeed before the stream breaks, and what was sent, newest first.
pub record Stream : Type 0 where
  pub incoming : List WrapperMessage
  pub writable : ℕ
  pub sent : List ProxyMessage
