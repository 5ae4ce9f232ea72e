-- ===== src/Chaincode/Follows/Add.antt =====
-- The addition: one read, and a write of the sum or EMPTY.
use capstone_2025_team.Base.{>>=-some, ℕ, ◌≡◌, refl, ◌∙◌, Bytes, [], ◌∷◌, arith, length, codes}
use capstone_2025_team.Memory.{Buffer}
use capstone_2025_team.Platform.{Platform}
use capstone_2025_team.Session.{Mailbox}
use capstone_2025_team.Native.Read.Laws.{row_string}
use capstone_2025_team.Ta.Sandbox.{Sound}
use capstone_2025_team.System.Ledger.{answered_session}
use capstone_2025_team.Chaincode.Text.Stands.{Stands, Stands-apart}
use capstone_2025_team.Chaincode.Machine.{
  Layout, op_none, op_add, Chain, step_resume, select, go_on, cc_do_add_init, cc_do_add_resume,
  add_after_get, add_after_put, idle,
}
use capstone_2025_team.Chaincode.Plan.{answer, put, on_value, add_plan, sum_text}
use capstone_2025_team.Chaincode.Follows.{Placed, Image, Follows}
use capstone_2025_team.Chaincode.Follows.Calls.{
  chain_at, asking, asking-Sound, putting, putting-Sound, ask_state_lem, store_state_lem, reply_lem,
  first_byte-empty, first_byte-cons,
}
use capstone_2025_team.Chaincode.Follows.Begin.{Image-kept}
use capstone_2025_team.Chaincode.Follows.Sum.{add_up_lem}
use capstone_2025_team.Chaincode.Follows.Gather.{Apart-swap, gather_count}
use capstone_2025_team.Chaincode.Follows.Pauses.{
  ask-Follows, put-Follows, answer-Follows, answered-Sound, acknowledged-Sound,
}

module _ (p : Platform) (l : Layout) (size : ℕ) (placed : Placed l size) where
  -- The step after the write.
  sum_answered :
      (m : Buffer) (sess : Mailbox) (exit : ℕ)
      → Image l size m
      → Sound sess
      → sess.pending_type ≡ 0
      → Follows p l (answer (codes "OK")) (chain_at m sess add_after_put op_add exit)
  unfolding step_resume select go_on cc_do_add_resume
  sum_answered m sess exit image sound nothing =
      answer-Follows p l size placed sess sound (chain_at m sess add_after_put op_add exit) m image
        idle 0 op_none l.ok_text 3 _ _ nothing (omega (arith, placed.some_texts, placed.ok_in))
        image.ok (omega arith)
        (reply_lem p l m sess add_after_put op_add 0 sound.0 sound.1 placed.linked l.ok_text 2
          (omega arith))

  -- The step after the read.
  add_resumed :
      (m : Buffer) (sess : Mailbox) (exit : ℕ) (person count value : Bytes)
      → Image l size m
      → Sound sess
      → sess.pending_type ≡ 0
      → Stands m l.g_person 64 person
      → Stands m l.g_arg1 64 count
      → Stands m l.g_cur_val 256 value
      → Follows p l
          (on_value
            (answer (codes "EMPTY"))
            (λ value. put person (sum_text value count) (answer (codes "OK")))
            value)
          (chain_at m sess add_after_get op_add exit)
  unfolding step_resume select go_on cc_do_add_resume
  add_resumed m sess exit person count [] image sound nothing named counted stands =
      answer-Follows p l size placed sess sound (chain_at m sess add_after_get op_add exit) m image
        idle 0 op_none l.empty_text 6 _ _ nothing
        (omega (arith, placed.some_texts, placed.empty_in)) image.empty (omega arith)
        (>>=-some _ _ _ (first_byte-empty p l m sess add_after_get op_add 0 l.g_cur_val 256 stands)
          ∙ reply_lem p l m sess add_after_get op_add 0 sound.0 sound.1 placed.linked l.empty_text 5
              (omega arith))
  add_resumed m sess exit person count (c ∷ value) image sound nothing named counted stands =
      let (first, some_byte) =
        first_byte-cons p l m sess add_after_get op_add 0 l.g_cur_val 256 c value stands in
      let (m', added, image', named', printed) =
        add_up_lem p l size placed m image sess add_after_get 0 op_add person (c ∷ value) count
          named stands counted in
      let sum = sum_text (c ∷ value) count in
      let putted : Mailbox = putting p m' sess l.g_person (length person) l.g_tmp (length sum) in
      put-Follows p l size placed sess sound (chain_at m sess add_after_get op_add exit) m' image'
        add_after_put 0 op_add l.g_tmp 256 person sum (answer (codes "OK")) placed.tmp_inside.0
        named' printed (omega (arith, printed.1))
        (>>=-some _ _ _ first
          ∙ rw some_byte (
              >>=-some _ _ _ added
              ∙ >>=-some _ _ _ (
                  store_state_lem p l m' sess add_after_get op_add 0 sound.0 sound.1 placed.linked
                    l.g_tmp 256 person sum named' printed placed.person_inside.0 placed.tmp_inside.0
                    (omega arith))))
        (sum_answered m' (record putted { pending_type = 0 }) 0 image'
          (acknowledged-Sound putted (
            putting-Sound p l m' sess add_after_get op_add 0 sound.0 sound.1 (length person) l.g_tmp
              (length sum)))
          refl)

  pub add-Follows :
      (m : Buffer) (sess : Mailbox) (ch : Chain) (state : ℕ)
      → Image l size m
      → Sound sess
      → step_resume p l ch ≡ cc_do_add_init p l (chain_at m sess state op_add 0)
      → Follows p l (add_plan (row_string sess 1 64) (row_string sess 2 64)) ch
  unfolding cc_do_add_init
  add-Follows m sess ch state image sound run =
      let person = row_string sess 1 64 in
      let count = row_string sess 2 64 in
      let (m', counted, gathered) =
        gather_count p l size placed sess sound.0 sound.1 state 0 op_add m _ image in
      let asked_session : Mailbox = asking p m' sess l.g_person (length person) l.g_cur_val in
      let asked =
        ask_state_lem p l m' sess state op_add 0 sound.0 sound.1 placed.linked person
          counted.named.person placed.person_inside.0 placed.cur_val_inside.0
          (omega (arith, placed.cur_val_inside, counted.named.image.sized)) in
      ask-Follows p l size placed sess sound ch m' counted.named.image add_after_get 0 op_add person
        (on_value (answer (codes "EMPTY"))
          (λ value. put person (sum_text value count) (answer (codes "OK"))))
        counted.named.person counted.named.no_value (run ∙ gathered ∙ >>=-some _ _ _ asked)
        (λ m2 value outside stands same.
          add_resumed m2 (answered_session asked_session) 0 person count value
            (Image-kept l size placed m' m2 l.g_cur_val 256 same outside placed.cur_val_texts
              counted.named.image)
            (answered-Sound asked_session
              (asking-Sound p l m' sess state op_add 0 sound.0 sound.1 (length person)))
            refl
            (Stands-apart m' m2 l.g_cur_val 256 l.g_person 64 person same outside
              (Apart-swap l.g_person 64 l.g_cur_val 256 placed.person_cur_val) counted.named.person)
            (Stands-apart m' m2 l.g_cur_val 256 l.g_arg1 64 count same outside
              (Apart-swap l.g_arg1 64 l.g_cur_val 256 placed.arg1_cur_val) counted.count)
            stands)
