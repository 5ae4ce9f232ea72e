-- ===== src/Chaincode/Follows/Create.antt =====
-- The creation: one read, and a write of the count or EXIST.
use capstone_2025_team.Base.{
  >>=-some, ℕ, ◌≡◌, ◌≢◌, refl, ◌∙◌, Bytes, some, [], ◌∷◌, arith, length, codes, if◌then◌else◌,
  false, le_zero, cap_at, pos,
}
use capstone_2025_team.Memory.{Buffer}
use capstone_2025_team.Platform.{Platform}
use capstone_2025_team.Session.{Mailbox}
use capstone_2025_team.Native.Read.Laws.{row_string}
use capstone_2025_team.Ta.Sandbox.{Sound}
use capstone_2025_team.System.Ledger.{answered_session}
use capstone_2025_team.Chaincode.Text.Stands.{Stands, Stands-apart}
use capstone_2025_team.Chaincode.Machine.{
  Layout, op_none, op_create, Chain, step_resume, select, go_on, cc_do_create_init,
  cc_do_create_resume, create_after_get, create_after_put, idle,
}
use capstone_2025_team.Chaincode.Plan.{answer, put, on_value, create_plan}
use capstone_2025_team.Chaincode.Follows.{Placed, Image, Follows}
use capstone_2025_team.Chaincode.Follows.Calls.{
  chain_at, asking, asking-Sound, putting, putting-Sound, ask_state_lem, store_state_lem, reply_lem,
  first_byte-empty, first_byte-cons,
}
use capstone_2025_team.Chaincode.Follows.Begin.{Image-kept}
use capstone_2025_team.Chaincode.Follows.Gather.{Apart-swap, gather_count}
use capstone_2025_team.Chaincode.Follows.Pauses.{
  ask-Follows, put-Follows, answer-Follows, answered-Sound, acknowledged-Sound,
}

-- A key with a byte in it is no error.
open_key : (c : ℕ) (s : Bytes) → le_zero (cap_at (pos (length (c ∷ s))) 63) ≡ false
open_key c s = ground arith

module _ (p : Platform) (l : Layout) (size : ℕ) (placed : Placed l size) where
  -- The step after the write.
  put_answered :
      (m : Buffer) (sess : Mailbox) (exit : ℕ)
      → Image l size m
      → Sound sess
      → sess.pending_type ≡ 0
      → Follows p l (answer (codes "OK")) (chain_at m sess create_after_put op_create exit)
  unfolding step_resume select go_on cc_do_create_resume
  put_answered m sess exit image sound nothing =
      answer-Follows p l size placed sess sound (chain_at m sess create_after_put op_create exit) m
        image idle 0 op_none l.ok_text 3 _ _ nothing
        (omega (arith, placed.some_texts, placed.ok_in)) image.ok (omega arith)
        (reply_lem p l m sess create_after_put op_create 0 sound.0 sound.1 placed.linked l.ok_text 2
          (omega arith))

  -- The step after the read.
  create_resumed :
      (m : Buffer) (sess : Mailbox) (exit : ℕ) (person count value : Bytes)
      → Image l size m
      → Sound sess
      → sess.pending_type ≡ 0
      → Stands m l.g_person 64 person
      → Stands m l.g_arg1 64 count
      → Stands m l.g_cur_val 256 value
      → Follows p l
          (on_value (put person count (answer (codes "OK"))) (λ _. answer (codes "EXIST")) value)
          (chain_at m sess create_after_get op_create exit)
  unfolding step_resume select go_on cc_do_create_resume
  create_resumed m sess exit person count [] image sound nothing named counted stands =
      let putted : Mailbox = putting p m sess l.g_person (length person) l.g_arg1 (length count) in
      put-Follows p l size placed sess sound (chain_at m sess create_after_get op_create exit) m
        image create_after_put 0 op_create l.g_arg1 64 person count (answer (codes "OK"))
        placed.arg1_inside.0 named counted (omega (arith, counted.1))
        (>>=-some _ _ _
            (first_byte-empty p l m sess create_after_get op_create 0 l.g_cur_val 256 stands)
          ∙ >>=-some _ _ _ (
              store_state_lem p l m sess create_after_get op_create 0 sound.0 sound.1 placed.linked
                l.g_arg1 64 person count named counted placed.person_inside.0 placed.arg1_inside.0
                (omega arith)))
        (put_answered m (record putted { pending_type = 0 }) 0 image
          (acknowledged-Sound putted (
            putting-Sound p l m sess create_after_get op_create 0 sound.0 sound.1 (length person)
              l.g_arg1 (length count)))
          refl)
  create_resumed m sess exit person count (c ∷ value) image sound nothing named counted stands =
      let (first, some_byte) =
        first_byte-cons p l m sess create_after_get op_create 0 l.g_cur_val 256 c value stands in
      answer-Follows p l size placed sess sound (chain_at m sess create_after_get op_create exit) m
        image idle 0 op_none l.exist_text 6 _ _ nothing
        (omega (arith, placed.some_texts, placed.exist_in)) image.exist (omega arith)
        (>>=-some _ _ _ first
          ∙ rw some_byte (
              reply_lem p l m sess create_after_get op_create 0 sound.0 sound.1 placed.linked
                l.exist_text 5 (omega arith)))

  pub create-Follows :
      (m : Buffer) (sess : Mailbox) (ch : Chain) (state : ℕ)
      → Image l size m
      → Sound sess
      → row_string sess 1 64 ≢ []
      → step_resume p l ch ≡ cc_do_create_init p l (chain_at m sess state op_create 0)
      → Follows p l (create_plan (row_string sess 1 64) (row_string sess 2 64)) ch
  unfolding cc_do_create_init
  create-Follows m sess ch state image sound somebody run =
      let person = row_string sess 1 64 in
      let count = row_string sess 2 64 in
      let (m', counted, gathered) =
        gather_count p l size placed sess sound.0 sound.1 state 0 op_create m _ image in
      let asked_session : Mailbox = asking p m' sess l.g_person (length person) l.g_cur_val in
      let asked =
        ask_state_lem p l m' sess state op_create 0 sound.0 sound.1 placed.linked person
          counted.named.person placed.person_inside.0 placed.cur_val_inside.0
          (omega (arith, placed.cur_val_inside, counted.named.image.sized)) in
      ask-Follows p l size placed sess sound ch m' counted.named.image create_after_get 1 op_create
        person (on_value (put person count (answer (codes "OK"))) (λ _. answer (codes "EXIST")))
        counted.named.person counted.named.no_value
        (run ∙ gathered ∙ >>=-some _ _ _ asked ∙ advanced person _ _ somebody)
        (λ m2 value outside stands same.
          create_resumed m2 (answered_session asked_session) 1 person count value
            (Image-kept l size placed m' m2 l.g_cur_val 256 same outside placed.cur_val_texts
              counted.named.image)
            (answered-Sound asked_session
              (asking-Sound p l m' sess state op_create 0 sound.0 sound.1 (length person)))
            refl
            (Stands-apart m' m2 l.g_cur_val 256 l.g_person 64 person same outside
              (Apart-swap l.g_person 64 l.g_cur_val 256 placed.person_cur_val) counted.named.person)
            (Stands-apart m' m2 l.g_cur_val 256 l.g_arg1 64 count same outside
              (Apart-swap l.g_arg1 64 l.g_cur_val 256 placed.arg1_cur_val) counted.count)
            stands)
    where
      advanced :
          (person : Bytes) (x y : Chain)
          → person ≢ []
          → some (if le_zero (cap_at (pos (length person)) 63) then x else y) ≡ some y
      advanced [] x y somebody = absurd (somebody refl)
      advanced (c ∷ s) x y somebody = rw (open_key c s) refl
