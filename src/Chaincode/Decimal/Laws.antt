-- ===== src/Chaincode/Decimal/Laws.antt =====
-- Printing and reading back.
use capstone_2025_team.Base.{
  ℕ, zero, suc, ◌+◌, ◌-◌, ◌/◌, ◌%◌, ◌^◌, ◌<◌, ◌≤◌, ◌≡◌, refl, ◌∙◌, [], ◌∷◌, Bytes, arith, length,
  take-of-le, inl, inr, Bool-cases, ◌==◌,
}
use capstone_2025_team.Chaincode.Decimal.{ulong_mod, s_atoul_from, s_atoul, digits, s_ultoa_text}

-- With enough rounds, what the digits of v read as behind 0 is what `out` reads as behind v.
atoul-digits :
    (left v : ℕ) (out : Bytes)
    → v < ulong_mod
    → v < 10 ^ left
    → s_atoul_from 0 (digits left v out) ≡ s_atoul_from v out
unfolding digits s_atoul_from
atoul-digits zero v out h h' = ground arith
atoul-digits (suc left) v out h h' =
    ground (arith, atoul-digits left (v / 10) ((b'0' + v % 10) ∷ out))

pub length-digits :
    (left k v : ℕ) (out : Bytes) → v < 10 ^ k → length (digits left v out) ≤ k + length out
unfolding digits
length-digits zero k v out h = ground arith
length-digits (suc left) zero v out h = ground arith
length-digits (suc left) (suc k) v out h =
    ground (arith, length-digits left k (v / 10) ((b'0' + v % 10) ∷ out))

-- Every v below 2 ^ 32 is read back by `s_atoul` from the text that `s_ultoa` prints for it, if
-- the output has more than ten bytes.
pub atoul-ultoa :
    (v out_len : ℕ) → v < ulong_mod → 10 < out_len → s_atoul (s_ultoa_text v out_len) ≡ v
unfolding s_atoul s_ultoa_text
atoul-ultoa v out_len h room = elim (Bool-cases (v == 0)) [
  | inl zero_value ↦ rw zero_value (unfold s_atoul_from in ground arith)
  | inr positive ↦
      rw
        (
          positive,
          take-of-le (out_len - 1) (digits 32 v [])
              (omega (arith, length-digits 32 10 v [] (omega arith))),
        )
        (atoul-digits 32 v [] h (omega arith) ∙ unfold s_atoul_from in refl)
]
