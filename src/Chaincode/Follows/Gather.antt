-- ===== src/Chaincode/Follows/Gather.antt =====
-- The arguments of an operation, gathered into its buffers.
use capstone_2025_team.Base.{>>=-some, ℕ, ◌≡◌, ◌∙◌, Option, [], arith, ◌>>=◌}
use capstone_2025_team.Memory.{Buffer}
use capstone_2025_team.Memory.Copies.{Apart}
use capstone_2025_team.Platform.{Platform}
use capstone_2025_team.Session.{Mailbox, IsWellFormed, RowsEnd}
use capstone_2025_team.Native.Read.Laws.{row_string}
use capstone_2025_team.Chaincode.Text.Stands.{Stands, Stands-apart}
use capstone_2025_team.Chaincode.Machine.{
  Layout, Op, Chain, clear, get_arg_into, key_max, arg_max, val_max,
}
use capstone_2025_team.Chaincode.Follows.{Placed, Image}
use capstone_2025_team.Chaincode.Follows.Calls.{chain_at}
use capstone_2025_team.Chaincode.Follows.Begin.{cleared, fetched}

pub Apart-swap : (q n p k : ℕ) → Apart q n p k → Apart p k q n
Apart-swap q n p k apart = ground (arith, apart)

module _ (p : Platform) (l : Layout) (size : ℕ) (placed : Placed l size) (sess : Mailbox)
    (valid : IsWellFormed sess) (ends : RowsEnd sess) (state exit : ℕ) (op : Op) where
  -- The person is there, and no value of the ledger yet.
  pub record Named (m : Buffer) : Type 0 where
    pub image : Image l size m
    pub person : Stands m l.g_person 64 (row_string sess 1 64)
    pub no_value : Stands m l.g_cur_val 256 []

  -- The count is there as well.
  pub record Counted (m : Buffer) : Type 0 where
    pub named : Named m
    pub count : Stands m l.g_arg1 64 (row_string sess 2 64)

  pub gather_person :
      {B : Type 0} (m : Buffer) (f : Chain → Option B)
      → Image l size m
      → (m' : Buffer) × Named m'
        × ((clear p l l.g_person key_max (chain_at m sess state op exit) >>= λ ch1.
              (clear p l l.g_cur_val val_max ch1 >>= λ ch2.
              (get_arg_into p l 0 l.g_person key_max ch2 >>= f)))
            ≡ f (chain_at m' sess state op exit))
  gather_person m f image =
      let (m1, run1, image1, e1, size1, same1) =
        cleared p l size placed sess valid ends state m op exit l.g_person 64 image (omega arith)
          placed.person_inside.1 placed.person_texts in
      let (m2, run2, image2, value2, size2, same2) =
        cleared p l size placed sess valid ends state m1 op exit l.g_cur_val 256 image1
          (omega arith) placed.cur_val_inside.1 placed.cur_val_texts in
      let (m3, run3, image3, person3, size3, same3) =
        fetched p l size placed sess valid ends state m2 op exit 0 l.g_person image2 (omega arith)
          placed.person_inside placed.person_texts in
      (
        m3,
        record {
          image = image3;
          person = person3;
          no_value =
              Stands-apart m2 m3 l.g_person 64 l.g_cur_val 256 [] size3 same3 placed.person_cur_val
                value2;
        },
        >>=-some _ _ _ run1 ∙ >>=-some _ _ _ run2 ∙ >>=-some _ _ _ run3,
      )

  pub gather_count :
      {B : Type 0} (m : Buffer) (f : Chain → Option B)
      → Image l size m
      → (m' : Buffer) × Counted m'
        × ((clear p l l.g_person key_max (chain_at m sess state op exit) >>= λ ch1.
              (clear p l l.g_arg1 arg_max ch1 >>= λ ch2.
              (clear p l l.g_cur_val val_max ch2 >>= λ ch3.
              (get_arg_into p l 0 l.g_person key_max ch3 >>= λ ch4.
              (get_arg_into p l 1 l.g_arg1 arg_max ch4 >>= f)))))
            ≡ f (chain_at m' sess state op exit))
  gather_count m f image =
      let (m1, run1, image1, e1, size1, same1) =
        cleared p l size placed sess valid ends state m op exit l.g_person 64 image (omega arith)
          placed.person_inside.1 placed.person_texts in
      let (m2, run2, image2, e2, size2, same2) =
        cleared p l size placed sess valid ends state m1 op exit l.g_arg1 64 image1 (omega arith)
          placed.arg1_inside.1 placed.arg1_texts in
      let (m3, run3, image3, value3, size3, same3) =
        cleared p l size placed sess valid ends state m2 op exit l.g_cur_val 256 image2
          (omega arith) placed.cur_val_inside.1 placed.cur_val_texts in
      let (m4, run4, image4, person4, size4, same4) =
        fetched p l size placed sess valid ends state m3 op exit 0 l.g_person image3 (omega arith)
          placed.person_inside placed.person_texts in
      let (m5, run5, image5, count5, size5, same5) =
        fetched p l size placed sess valid ends state m4 op exit 1 l.g_arg1 image4 (omega arith)
          placed.arg1_inside placed.arg1_texts in
      let value4 =
        Stands-apart m3 m4 l.g_person 64 l.g_cur_val 256 [] size4 same4 placed.person_cur_val
          value3 in
      (
        m5,
        record {
          named = record {
            image = image5;
            person =
                Stands-apart m4 m5 l.g_arg1 64 l.g_person 64 (row_string sess 1 64) size5 same5
                  (Apart-swap l.g_person 64 l.g_arg1 64 placed.person_arg1) person4;
            no_value =
                Stands-apart m4 m5 l.g_arg1 64 l.g_cur_val 256 [] size5 same5 placed.arg1_cur_val
                  value4;
          };
          count = count5;
        },
        >>=-some _ _ _ run1
            ∙ >>=-some _ _ _ run2
            ∙ >>=-some _ _ _ run3
            ∙ >>=-some _ _ _ run4
            ∙ >>=-some _ _ _ run5,
      )
