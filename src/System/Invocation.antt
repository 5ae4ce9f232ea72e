-- ===== src/System/Invocation.antt =====
-- The way of the invocation's arguments from the wrapper's message, over the proxy and the TA, to
-- the chaincode's memory.
use capstone_2025_team.Base.{
  ℕ, ◌+◌, ◌-◌, ◌≤◌, ◌<◌, ◌^◌, ◌≡◌, ap, ◌∙◌, some, List, Bytes, pos, arith, length, take, until_nul,
}
use mathlib.Core.Path.{subst}
use capstone_2025_team.Memory.{Buffer, moved}
use capstone_2025_team.Memory.Copies.{bytes_ext}
use capstone_2025_team.Session.{Mailbox, IsWellFormed, RowsEnd, args_number, arguments_size, row_at}
use capstone_2025_team.Native.{world}
use capstone_2025_team.Native.Read.{cc_get_arg}
use capstone_2025_team.Native.Read.Laws.{Holds, row_string, cc_get_arg-Holds}
use capstone_2025_team.Ta.{Engine}
use capstone_2025_team.Ta.Command.{receive_arguments}
use capstone_2025_team.Proxy.Arguments.{write_arguments}
use capstone_2025_team.Proxy.Arguments.Laws.{Written, meant, write_arguments_lem}

-- The session with the arguments of the shared buffer.
abbrev pub called_with : Mailbox → Buffer → Mailbox
called_with sess written = record sess { args = moved sess.args 0 written 0 arguments_size }

module _ (sess : Mailbox) (valid : IsWellFormed sess) (written : Buffer) where
  pub called_with-IsWellFormed : IsWellFormed (called_with sess written)
  unfolding moved
  called_with-IsWellFormed = record {
    args_sized = valid.args_sized;
    key_sized = valid.key_sized;
    value_sized = valid.value_sized;
    response_sized = valid.response_sized;
    key_ends = valid.key_ends;
    value_ends = valid.value_ends;
    response_ends = valid.response_ends;
    pending_known = valid.pending_known;
    out_int = valid.out_int;
    out_open = valid.out_open;
  }

  byte-called_with :
      (k : ℕ) → k < arguments_size → (called_with sess written).args.byte k ≡ written.byte k
  unfolding moved
  byte-called_with k h = ground arith

  module _ (rows : ℕ → Bytes) (is : Written written rows) where
    pub called_with-RowsEnd : RowsEnd (called_with sess written)
    called_with-RowsEnd i h = byte-called_with (row_at i + 63) (omega (arith, h)) ∙ is.2 i h

    pub row_string-called_with :
        (i n : ℕ)
        → i < args_number
        → row_string (called_with sess written) i n ≡ take (n - 1) (rows i)
    row_string-called_with i n h =
        ap (λ s. take (n - 1) (until_nul s))
          (bytes_ext (called_with sess written).args written (row_at i) (row_at i) 63
            (λ k lt. byte-called_with (row_at i + k) (omega (arith, h, lt))))
        ∙ ap (take (n - 1)) (is.1 i h)

module _ (e : Engine) (sess : Mailbox) (valid : IsWellFormed sess) (shared : Buffer)
    (sized : shared.size ≡ arguments_size) (function : Bytes) (args : List Bytes) (m : Buffer)
    (out n : ℕ) (some_len : 0 < n) (int : n < 2 ^ 31) (some_out : 0 < out)
    (inside : out + n ≤ m.size) where
  receive_arguments_lem :
      (written : Buffer)
      → written.size ≡ arguments_size
      → receive_arguments e sess.args written ≡ some (called_with sess written).args
  unfolding receive_arguments
  receive_arguments_lem written size =
      ground (arith, valid.args_sized, e.mem_move_lem sess.args 0 written 0 arguments_size)

  -- For a well-formed session, a shared buffer of the size of `struct arguments`, and an output
  -- buffer of n > 0 bytes, below 2 ^ 31, that lies in the memory and not at 0: the proxy writes
  -- the arguments and the TA takes them in, without a fault. `cc_get_arg` with an index i below
  -- 9 then hands out argument i as the proxy meant it, cut to n - 1 bytes, returns its length,
  -- and changes no other byte of the memory.
  pub write_arguments-taken :
      (i : ℕ)
      → i < 9
      → (written : Buffer) × (received : Buffer) × (m' : Buffer) × (write_arguments shared function
            args
          ≡ some written)
        × (receive_arguments e sess.args written ≡ some received)
        × (cc_get_arg e.platform (world m (record sess { args = received })) (pos i) out (pos n)
            ≡ some (
              pos (length (take (n - 1) (meant function args (i + 1)))),
              world m' (record sess { args = received }),
            ))
        × Holds m out n m' (take (n - 1) (meant function args (i + 1)))
  write_arguments-taken i h =
      let (written, made, is) = write_arguments_lem shared function args sized in
      let sess' = called_with sess written in
      let row =
        row_string-called_with sess valid written (meant function args) is (i + 1) n
          (omega arith) in
      let (m', run, holds) =
        cc_get_arg-Holds e.platform m sess' (called_with-IsWellFormed sess valid written)
          (called_with-RowsEnd sess valid written (meant function args) is) out n i h some_len int
          some_out inside in
      (
        written,
        sess'.args,
        m',
        made,
        receive_arguments_lem written is.0,
        run ∙ ap (λ s. some (pos (length s), world m' sess')) row,
        subst (Holds m out n m') row holds,
      )
