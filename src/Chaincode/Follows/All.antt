-- ===== src/Chaincode/Follows/All.antt =====
-- The chaincode follows its plan.
use capstone_2025_team.Base.{
  ℕ, ◌≡◌, ◌≢◌, ◌∙◌, [], arith, codes, true, same_bytes, Bool-cases, inl, inr,
}
use capstone_2025_team.Memory.{Buffer}
use capstone_2025_team.Platform.{Platform}
use capstone_2025_team.Session.{Mailbox}
use capstone_2025_team.Native.Read.Laws.{row_string}
use capstone_2025_team.Ta.Sandbox.{Sound}
use capstone_2025_team.Chaincode.Text.Stands.{Stands}
use capstone_2025_team.Chaincode.Machine.{Layout, op_none, Chain, step_resume, fail}
use capstone_2025_team.Chaincode.Plan.{answer, coffee_plan}
use capstone_2025_team.Chaincode.Follows.{Placed, Image, Follows}
use capstone_2025_team.Chaincode.Follows.Calls.{chain_at, fail_lem}
use capstone_2025_team.Chaincode.Follows.Begin.{step_resume-chosen}
use capstone_2025_team.Chaincode.Follows.Query.{query-Follows}
use capstone_2025_team.Chaincode.Follows.Create.{create-Follows}
use capstone_2025_team.Chaincode.Follows.Add.{add-Follows}
use capstone_2025_team.Chaincode.Follows.Pauses.{answer-Follows}

module _ (p : Platform) (l : Layout) (size : ℕ) (placed : Placed l size) where
  failed-Follows :
      (m : Buffer) (sess : Mailbox) (ch : Chain) (state : ℕ)
      → Image l size m
      → Sound sess
      → sess.pending_type ≡ 0
      → step_resume p l ch ≡ fail p l (chain_at m sess state op_none 0)
      → Follows p l (answer (codes "ERROR")) ch
  failed-Follows m sess ch state image sound nothing run =
      answer-Follows p l size placed sess sound ch m image state 0 op_none l.error_text 6 _ _
        nothing (omega (arith, placed.some_texts, placed.error_in)) image.error (omega arith)
        (run ∙ fail_lem p l m sess state op_none 0 sound.0 sound.1 placed.linked)

  pub coffee-Follows :
      (m : Buffer) (sess : Mailbox) (state exit : ℕ)
      → Image l size m
      → Stands m l.g_function 64 []
      → Sound sess
      → sess.pending_type ≡ 0
      → (same_bytes (row_string sess 0 64) (codes "create") ≡ true → row_string sess 1 64 ≢ [])
      → Follows p l
          (coffee_plan (row_string sess 0 64) (row_string sess 1 64) (row_string sess 2 64))
          (chain_at m sess state op_none exit)
  coffee-Follows m sess state exit image unnamed sound nothing somebody =
      let ch : Chain = chain_at m sess state op_none exit in
      let (m', image', run) =
        step_resume-chosen p l size placed sess sound.0 sound.1 state m exit image unnamed in
      elim (Bool-cases (same_bytes (row_string sess 0 64) (codes "create"))) [
        | inl create ↦ rw create (
            create-Follows p l size placed m' sess ch state image' sound (somebody create)
              (rw create at run))
        | inr not_create ↦ elim (Bool-cases (same_bytes (row_string sess 0 64) (codes "add"))) [
          | inl add ↦
              rw (not_create, add)
                (add-Follows p l size placed m' sess ch state image' sound
                  (rw (not_create, add) at run))
          | inr not_add ↦ elim (Bool-cases (same_bytes (row_string sess 0 64) (codes "query"))) [
            | inl query ↦
                rw (not_create, not_add, query)
                  (query-Follows p l size placed m' sess ch state image' sound
                    (rw (not_create, not_add, query) at run))
            | inr unknown ↦
                rw (not_create, not_add, unknown)
                  (failed-Follows m' sess ch state image' sound nothing
                    (rw (not_create, not_add, unknown) at run))
          ]
        ]
      ]
