-- ===== src/Chaincode/Follows/Taken.antt =====
-- A string that the chaincode names by pointer and length arrives in the session.
use capstone_2025_team.Base.{
  ℕ, suc, ◌%◌, ◌^◌, ◌<◌, ◌≤◌, ◌≡◌, sym, ap, ◌∙◌, Bytes, Option, none, some, [], ◌∷◌, arith, length,
  until_nul, pos, cap_at,
}
use capstone_2025_team.Memory.{Buffer, c_string, bytes}
use capstone_2025_team.Memory.Copies.{bytes_ext}
use capstone_2025_team.Memory.Strings.{c_string_ended}
use capstone_2025_team.Platform.{Platform}
use capstone_2025_team.Native.Copying.{
  taken, source, c_string-taken, c_string-zeroed, taken_ends, to_native_complete,
}
use capstone_2025_team.Native.Reply.Laws.{ended}
use capstone_2025_team.Chaincode.Text.Stands.{Stands, Stands-ends}

cap_at-fits : (n k : ℕ) → n ≤ k → cap_at (pos n) k ≡ pos n
cap_at-fits n k h = ground arith

module _ (p : Platform) (dst m : Buffer) (size q k : ℕ) (small : m.size < 2 ^ 31)
    (some_pointer : 0 < q) where
  source_lem :
      (c : ℕ) (s : Bytes) → Stands m q k (c ∷ s) → source p m q (pos (length (c ∷ s))) ≡ some q
  source_lem c s (is, short, inside) =
      let n = length (c ∷ s) in
      let kept : n % 2 ^ 32 ≡ n = omega (arith, short, inside, small) in
      rw kept (to_native_complete p m q n some_pointer (omega arith) (omega (arith, short, inside)))

  -- Taken in whole, into more than its length.
  whole :
      (s : Bytes)
      → Stands m q k s
      → length s ≤ size
      → c_string
          (taken dst (suc size) m (source p m q (pos (length s))) (pos (length s)))
          0
          (suc size)
        ≡ s
  whole [] stands fits = zeroed (source p m q (pos 0))
    where
      zeroed : (src : Option ℕ) → c_string (taken dst (suc size) m src (pos 0)) 0 (suc size) ≡ []
      zeroed none = c_string-zeroed dst (suc size)
      zeroed (some at) = c_string-zeroed dst (suc size)
  whole (c ∷ s) stands fits =
      ap
        (λ (src : Option ℕ).
          c_string (taken dst (suc size) m src (pos (length (c ∷ s)))) 0 (suc size))
        (source_lem c s stands)
      ∙ (c_string-taken dst (suc size) m q (pos (length (c ∷ s))) (omega (arith, fits)))
      ∙ (Stands-ends m q k (c ∷ s) stands).2

  pub taken-Stands :
      (s : Bytes)
      → Stands m q k s
      → length s ≤ size
      → c_string
          (taken dst (suc size) m (source p m q (pos (length s))) (cap_at (pos (length s)) size))
          0
          size
        ≡ s
  taken-Stands s stands fits =
      let src = source p m q (pos (length s)) in
      rw (cap_at-fits (length s) size fits) (
        sym (
          c_string_ended (taken dst (suc size) m src (pos (length s))) 0 size (suc size)
            (ground (arith, taken_ends dst (suc size) m src (pos (length s)) size fits))
            (omega arith))
        ∙ whole s stands fits)

  -- A response, which the TA ends with a NUL of its own.
  pub response-Stands :
      (s : Bytes)
      → Stands m q k s
      → length s ≤ size
      → c_string
          (ended
            (taken dst (suc size) m (source p m q (pos (length s))) (pos (length s)))
            (length s))
          0
          size
        ≡ s
  response-Stands s stands fits =
      let src = source p m q (pos (length s)) in
      let b = taken dst (suc size) m src (pos (length s)) in
      let ends = taken_ends dst (suc size) m src (pos (length s)) in
      let same : bytes (ended b (length s)) 0 size ≡ bytes b 0 size =
        bytes_ext (ended b (length s)) b 0 0 size (λ i lt. ground (arith, ends i)) in
      ap until_nul same
      ∙ sym (c_string_ended b 0 size (suc size) (ground (arith, ends size fits)) (omega arith))
      ∙ whole s stands fits
