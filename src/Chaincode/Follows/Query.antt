-- ===== src/Chaincode/Follows/Query.antt =====
-- The query: one read, and the value or NOTFOUND.
use capstone_2025_team.Base.{>>=-some, ℕ, ◌≤◌, ◌≡◌, refl, ◌∙◌, Bytes, [], ◌∷◌, arith, length, codes}
use capstone_2025_team.Memory.{Buffer}
use capstone_2025_team.Platform.{Platform}
use capstone_2025_team.Session.{Mailbox}
use capstone_2025_team.Native.Read.Laws.{row_string}
use capstone_2025_team.Ta.Sandbox.{Sound}
use capstone_2025_team.System.Ledger.{answered_session}
use capstone_2025_team.Chaincode.Text.Stands.{Stands}
use capstone_2025_team.Chaincode.Machine.{
  Layout, op_none, op_query, Chain, step_resume, select, go_on, cc_do_query_init,
  cc_do_query_resume, query_after_get, idle,
}
use capstone_2025_team.Chaincode.Plan.{answer, on_value, query_plan}
use capstone_2025_team.Chaincode.Follows.{Placed, Image, Follows}
use capstone_2025_team.Chaincode.Follows.Calls.{
  chain_at, asking, asking-Sound, ask_state_lem, reply_lem, strlen-Stands, first_byte-empty,
  first_byte-cons,
}
use capstone_2025_team.Chaincode.Follows.Begin.{Image-kept}
use capstone_2025_team.Chaincode.Follows.Gather.{gather_person}
use capstone_2025_team.Chaincode.Follows.Pauses.{ask-Follows, answer-Follows, answered-Sound}

module _ (p : Platform) (l : Layout) (size : ℕ) (placed : Placed l size) where
  -- The step after the read.
  query_resumed :
      (m : Buffer) (sess : Mailbox) (exit : ℕ) (value : Bytes)
      → Image l size m
      → Sound sess
      → sess.pending_type ≡ 0
      → Stands m l.g_cur_val 256 value
      → Follows p l
          (on_value (answer (codes "NOTFOUND")) answer value)
          (chain_at m sess query_after_get op_query exit)
  unfolding step_resume select go_on cc_do_query_resume
  query_resumed m sess exit [] image sound nothing stands =
      answer-Follows p l size placed sess sound (chain_at m sess query_after_get op_query exit) m
        image idle 0 op_none l.notfound_text 9 _ _ nothing
        (omega (arith, placed.some_texts, placed.notfound_in)) image.notfound (omega arith)
        (>>=-some _ _ _
            (first_byte-empty p l m sess query_after_get op_query 0 l.g_cur_val 256 stands)
          ∙ reply_lem p l m sess query_after_get op_query 0 sound.0 sound.1 placed.linked
              l.notfound_text 8 (omega arith))
  query_resumed m sess exit (c ∷ value) image sound nothing stands =
      let short : length (c ∷ value) ≤ 255 = omega (arith, stands.1) in
      let (first, some_byte) =
        first_byte-cons p l m sess query_after_get op_query 0 l.g_cur_val 256 c value stands in
      answer-Follows p l size placed sess sound (chain_at m sess query_after_get op_query exit) m
        image idle 0 op_none l.g_cur_val 256 c value nothing placed.cur_val_inside.0 stands short
        (>>=-some _ _ _ first
          ∙ rw some_byte (
              >>=-some _ _ _ (
                strlen-Stands p l m sess query_after_get op_query 0 l.g_cur_val 256 (c ∷ value)
                  stands placed.cur_val_inside.0)
              ∙ reply_lem p l m sess query_after_get op_query 0 sound.0 sound.1 placed.linked
                  l.g_cur_val (length (c ∷ value)) short))

  pub query-Follows :
      (m : Buffer) (sess : Mailbox) (ch : Chain) (state : ℕ)
      → Image l size m
      → Sound sess
      → step_resume p l ch ≡ cc_do_query_init p l (chain_at m sess state op_query 0)
      → Follows p l (query_plan (row_string sess 1 64)) ch
  unfolding cc_do_query_init
  query-Follows m sess ch state image sound run =
      let (m', named, gathered) =
        gather_person p l size placed sess sound.0 sound.1 state 0 op_query m _ image in
      let asked_session : Mailbox =
        asking p m' sess l.g_person (length (row_string sess 1 64)) l.g_cur_val in
      let asked =
        ask_state_lem p l m' sess state op_query 0 sound.0 sound.1 placed.linked
          (row_string sess 1 64) named.person placed.person_inside.0 placed.cur_val_inside.0
          (omega (arith, placed.cur_val_inside, named.image.sized)) in
      ask-Follows p l size placed sess sound ch m' named.image query_after_get 0 op_query
        (row_string sess 1 64) (on_value (answer (codes "NOTFOUND")) answer) named.person
        named.no_value (run ∙ gathered ∙ >>=-some _ _ _ asked)
        (λ m2 value outside stands same.
          query_resumed m2 (answered_session asked_session) 0 value
            (Image-kept l size placed m' m2 l.g_cur_val 256 same outside placed.cur_val_texts
              named.image)
            (answered-Sound asked_session (
              asking-Sound p l m' sess state op_query 0 sound.0 sound.1
                (length (row_string sess 1 64))))
            refl stands)
