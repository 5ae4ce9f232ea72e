-- ===== src/Native/Safety/Read.antt =====
-- Reading the arguments is safe, but for index 9.
use capstone_2025_team.Base.{
  ℕ, ◌+◌, ◌-◌, ◌<◌, ◌≤◌, ◌≢◌, refl, some, [], ℤ, pos, negsuc, to_u32, ltb, arith, IsInt32, length,
  take, inl, inr, Option-cases, Bool-cases,
}
use capstone_2025_team.Memory.{Buffer, c_string, of_list}
use capstone_2025_team.Platform.{Platform}
use capstone_2025_team.Session.{Mailbox, IsWellFormed, RowsEnd, row_at, args_number}
use capstone_2025_team.Native.{world, to_native, hand_out}
use capstone_2025_team.Native.Copying.{size-copied_in, hand_out_lem, to_native_sound}
use capstone_2025_team.Native.Read.{arg_row, cc_get_function, cc_get_arg}
use capstone_2025_team.Native.Read.Laws.{given-Holds, hand_out-row}
use capstone_2025_team.Native.Safety.{Safe, unchanged}

module _ (p : Platform) (m : Buffer) (sess : Mailbox) (valid : IsWellFormed sess) where
  pub row-Safe :
      RowsEnd sess
      → (i q n : ℕ) → i < args_number
      → 0 < n
      → q + n ≤ m.size
      → Safe m sess (hand_out p (world m sess) q n sess.args (row_at i))
  row-Safe ends i q n h h' h'' =
      rw (hand_out-row p m sess valid ends q n i h h' h'')
        ((given-Holds p m sess valid ends q n i h').2, valid, refl)

  pub get_function-Safe :
      RowsEnd sess
      → (out : ℕ) (n : ℤ) → IsInt32 n
      → Safe m sess (cc_get_function p (world m sess) out n)
  unfolding cc_get_function
  get_function-Safe ends out (negsuc n) int = unchanged m sess valid (pos 0)
  get_function-Safe ends out (pos n) int = elim (Option-cases (p.addr_app_to_native (some m) out)) [
    | inl null ↦ ground (arith, unchanged m sess valid (pos 0))
    | inr (q, e) ↦ ground (
      arith,
      unchanged m sess valid (pos 0),
      p.validate_sound m out n,
      p.native_sound m out q,
      row-Safe ends 0 q n,
    )
  ]

  -- The literal "" is handed out as the empty string.
  pub empty-Safe :
      (q n : ℕ)
      → 0 < n
      → q + n ≤ m.size
      → Safe m sess (hand_out p (world m sess) q n (of_list 1 []) 0)
  unfolding of_list
  empty-Safe q n h h' =
      let len = length (take (n - 1) (c_string (of_list 1 []) 0 0)) in
      rw (hand_out_lem p (world m sess) m q n (of_list 1 []) 0 0 refl h h' (omega arith) refl)
        (size-copied_in m q n (of_list 1 []) 0 len, valid, refl)

  pub selected-Safe :
      RowsEnd sess
      → (idx : ℤ) (q n : ℕ) → idx ≢ pos 9
      → 0 < n
      → q + n ≤ m.size
      → let row = arg_row (some sess) idx in Safe m sess (hand_out p (world m sess) q n row.0 row.1)
  unfolding arg_row
  selected-Safe ends (negsuc i) q n ne h h' = empty-Safe q n h h'
  selected-Safe ends (pos i) q n ne h h' = elim (Bool-cases (ltb i args_number)) [
    | inl e ↦ rw e (row-Safe ends (i + 1) q n (ground (arith, ne)) h h')
    | inr e ↦ rw e (empty-Safe q n h h')
  ]

  pub get_arg-Safe :
      RowsEnd sess
      → (idx : ℤ) (out : ℕ) (n : ℤ) → IsInt32 n
      → idx ≢ pos 9
      → Safe m sess (cc_get_arg p (world m sess) idx out n)
  unfolding cc_get_arg
  get_arg-Safe ends idx out (negsuc n) int ne = ground (arith, unchanged m sess valid (pos 0))
  get_arg-Safe ends idx out (pos n) int ne =
      elim (Option-cases (to_native p (some m) out (to_u32 (pos n)))) [
        | inl null ↦ ground (arith, unchanged m sess valid (pos 0))
        | inr (q, e) ↦ ground (
          arith,
          unchanged m sess valid (pos 0),
          to_native_sound p m out n q,
          selected-Safe ends idx q n ne,
        )
      ]
