-- ===== src/Wrapper/Laws.antt =====
-- The wrapper's part of a plan: it serves the requests from the ledger.
use capstone_2025_team.Base.{
  some, Option, ℕ, suc, ◌≡◌, ◌≢◌, refl, sym, ap, ◌∙◌, Option, Bytes, List, [], ◌∷◌, ◌++◌,
  append_assoc, append-nil, codes,
}
use capstone_2025_team.Message.{
  WrapperMessage, ProxyMessage, get_state_response, put_state_response, get_state, put_state,
}
use capstone_2025_team.Wrapper.{fine, Shim, success, value_string, arrived, serve_requests}
use capstone_2025_team.Chaincode.Plan.{Plan, answer, ask, put}
use capstone_2025_team.System.Exchange.Dialogue.{
  Ledger, value_seen, replies, spoken, onto, room_for, answer_of, puts_of,
}

-- Fabric's promise: a read gives the committed state, which the transaction's own writes do not
-- change; a write under a key that is not empty joins the write set, in order.
pub record Fabric (s : Shim) : Type 0 where
  pub state : s.Stub → Ledger
  pub write_set : s.Stub → List (Bytes × Bytes)
  pub reads :
      (stub : s.Stub) (key : Bytes)
      → (value : Option Bytes) × (s.stub_get_state stub key ≡ fine value)
        × (value_string value ≡ state stub key)
  pub puts :
      (stub : s.Stub) (key value : Bytes)
      → key ≢ []
      → (stub' : s.Stub) × (s.stub_put_state stub key value ≡ fine stub')
        × (state stub' ≡ state stub)
        × (write_set stub' ≡ write_set stub ++ ((key, value) ∷ []))

-- Every write of a plan has a key.
abbrev pub Keyed : Plan → Type 0
Keyed (answer text) = Unit
Keyed (ask key next) = (value : Bytes) → Keyed (next value)
Keyed (put key value rest) = (key ≢ []) × Keyed rest

module _ (s : Shim) (fabric : Fabric s) where
  get_lem :
      (stub : s.Stub) (n : ℕ) (sent : List WrapperMessage) (key : Bytes)
      (rest : List (Option ProxyMessage)) (ledger : Ledger)
      → fabric.state stub ≡ ledger
      → serve_requests s stub (suc n) sent (some (get_state key) ∷ rest)
        ≡ serve_requests s stub n (get_state_response (ledger key) ∷ sent) rest
  unfolding serve_requests
  get_lem stub n sent key rest ledger same =
      let (value, run, shows) = fabric.reads stub key in
      simp (serve_requests, run)
        (ap (λ (v : Bytes). serve_requests s stub n (get_state_response v ∷ sent) rest)
          (shows ∙ ap (λ (f : Ledger). f key) same))

  put_lem :
      (stub stub' : s.Stub) (n : ℕ) (sent : List WrapperMessage) (key value : Bytes)
      (rest : List (Option ProxyMessage))
      → s.stub_put_state stub key value ≡ fine stub'
      → serve_requests s stub (suc n) sent (some (put_state key value) ∷ rest)
        ≡ serve_requests s stub' n (put_state_response (codes "OK") ∷ sent) rest
  unfolding serve_requests
  put_lem stub stub' n sent key value rest run = simp (serve_requests, run)

  -- For a Fabric whose reads give the ledger, a plan whose writes have keys that are not empty,
  -- and a stream that takes the replies: if the proxy's messages are those of the plan, then the
  -- wrapper succeeds with the plan's answer, has sent exactly the ledger's replies, in order,
  -- and its write set has grown by the writes of the plan, in order.
  pub serve_requests-follows :
      (plan : Plan) (ledger : Ledger) (stub : s.Stub) (n : ℕ) (sent : List WrapperMessage)
      → fabric.state stub ≡ ledger
      → Keyed plan
      → (stub' : s.Stub) × (serve_requests s stub
            (room_for (replies plan ledger) n)
            sent
            (arrived (spoken plan ledger))
          ≡ (success (answer_of plan ledger), stub', onto (replies plan ledger) sent))
        × (fabric.write_set stub' ≡ fabric.write_set stub ++ puts_of plan ledger)
  unfolding serve_requests
  serve_requests-follows (answer text) ledger stub n sent same keyed =
      (stub, refl, sym (append-nil (fabric.write_set stub)))
  serve_requests-follows (ask key next) ledger stub n sent same keyed =
      let value = value_seen ledger key in
      let (stub', run, written) =
        serve_requests-follows (next value) ledger stub n (get_state_response (ledger key) ∷ sent)
          same (keyed value) in
      (
        stub',
        get_lem stub (room_for (replies (next value) ledger) n) sent key
              (arrived (spoken (next value) ledger)) ledger same
            ∙ run,
        written,
      )
  serve_requests-follows (put key value rest) ledger stub n sent same keyed =
      let (stub1, put_run, state, joined) = fabric.puts stub key value keyed.0 in
      let (stub', run, written) =
        serve_requests-follows rest ledger stub1 n (put_state_response (codes "OK") ∷ sent)
          (state ∙ same) keyed.1 in
      (
        stub',
        put_lem stub stub1 (room_for (replies rest ledger) n) sent key value
              (arrived (spoken rest ledger)) put_run
            ∙ run,
        written
            ∙ ap (λ (w : List (Bytes × Bytes)). w ++ puts_of rest ledger) joined
            ∙ append_assoc (fabric.write_set stub) ((key, value) ∷ []) (puts_of rest ledger),
      )
