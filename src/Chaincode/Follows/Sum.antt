-- ===== src/Chaincode/Follows/Sum.antt =====
-- The sum of the stored count and the argument, printed to g_tmp.
use capstone_2025_team.Base.{
  >>=-some, ℕ, zero, suc, ◌+◌, ◌-◌, ◌/◌, ◌%◌, ◌≤◌, ◌≡◌, ◌∙◌, Bytes, some, [], ◌∷◌, arith, length,
  ◌==◌, Bool-cases, inl, inr, NulFree, take-NulFree,
}
use capstone_2025_team.Memory.{Buffer}
use capstone_2025_team.Platform.{Platform}
use capstone_2025_team.Session.{Mailbox}
use capstone_2025_team.Chaincode.Text.Stands.{
  Stands, Stands-apart, Stands-wider, SameOutside-trans, s_memset-Filled, s_atoul-Stands,
  put_text-Stands,
}
use capstone_2025_team.Chaincode.Decimal.{ulong_mod, digits, s_ultoa_text, s_atoul}
use capstone_2025_team.Chaincode.Decimal.Stored.{length-s_ultoa_text, s_ultoa_lem}
use capstone_2025_team.Chaincode.Machine.{Layout, Op, add_up, val_max}
use capstone_2025_team.Chaincode.Plan.{sum_text}
use capstone_2025_team.Chaincode.Follows.{Placed, Image}
use capstone_2025_team.Chaincode.Follows.Calls.{chain_at}
use capstone_2025_team.Chaincode.Follows.Begin.{Image-kept}

digits-NulFree : (left v : ℕ) (buf : Bytes) → NulFree buf → NulFree (digits left v buf)
unfolding digits
digits-NulFree zero v buf free = free
digits-NulFree (suc left) v buf free = elim (Bool-cases (v == 0)) [
  | inl done ↦ rw done free
  | inr more ↦ rw more (digits-NulFree left (v / 10) ((b'0' + v % 10) ∷ buf) (omega arith, free))
]

pub s_ultoa_text-NulFree : (v out_len : ℕ) → NulFree (s_ultoa_text v out_len)
unfolding s_ultoa_text
s_ultoa_text-NulFree v out_len = elim (Bool-cases (v == 0)) [
  | inl none ↦ rw none (omega arith)
  | inr some_value ↦
      rw some_value (take-NulFree (out_len - 1) (digits 32 v []) (digits-NulFree 32 v [] tt))
]

module _ (p : Platform) (l : Layout) (size : ℕ) (placed : Placed l size) (m : Buffer)
    (image : Image l size m) (sess : Mailbox) (state exit : ℕ) (op : Op) where
  pub add_up_lem :
      (person value count : Bytes)
      → Stands m l.g_person 64 person
      → Stands m l.g_cur_val 256 value
      → Stands m l.g_arg1 64 count
      → (m' : Buffer) × (add_up p l (chain_at m sess state op exit)
          ≡ some (chain_at m' sess state op exit))
        × Image l size m'
        × Stands m' l.g_person 64 person
        × Stands m' l.g_tmp 256 (sum_text value count)
  unfolding add_up
  add_up_lem person value count named valued counted =
      let sum = (s_atoul value + s_atoul count) % ulong_mod in
      let text = sum_text value count in
      let inside : l.g_tmp + 256 ≤ m.size = omega (arith, image.sized, placed.tmp_inside) in
      let short = length-s_ultoa_text sum 256 (omega arith) in
      let (m1, cleared, (size1, same1, zeros)) = s_memset-Filled m l.g_tmp 0 val_max inside in
      let (m2, printed, size2, same2, stands) =
        put_text-Stands text m1 l.g_tmp (s_ultoa_text-NulFree sum 256)
          (omega (arith, inside, size1, short)) in
      let size' : m2.size ≡ m.size = size2 ∙ size1 in
      let same' =
        SameOutside-trans m m1 m2 l.g_tmp (suc (length text)) 256 (omega (arith, short)) same2
          same1 in
      (
        m2,
        >>=-some _ _ _ (s_atoul-Stands m l.g_cur_val 256 value valued placed.cur_val_inside.0)
            ∙ >>=-some _ _ _ (s_atoul-Stands m l.g_arg1 64 count counted placed.arg1_inside.0)
            ∙ >>=-some _ _ _ cleared
            ∙ >>=-some _ _ _
                (s_ultoa_lem m1 sum l.g_tmp 256 placed.tmp_inside.0 (omega arith) ∙ printed),
        Image-kept l size placed m m2 l.g_tmp 256 size' same' placed.tmp_texts image,
        Stands-apart m m2 l.g_tmp 256 l.g_person 64 person size' same' placed.tmp_person named,
        Stands-wider m2 l.g_tmp (suc (length text)) 256 text (omega (arith, short))
            (omega (arith, inside, size')) stands,
      )
