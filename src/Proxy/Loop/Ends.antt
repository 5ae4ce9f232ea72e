-- ===== src/Proxy/Loop/Ends.antt =====
-- The loop of `execute_wasm_with_grpc_proxy` comes to an end, whatever arrives.
use capstone_2025_team.Base.{
  ℕ, ◌≡◌, refl, Bool, true, false, none, some, List, [], ◌∷◌, arith, Bool-cases, inl, inr,
}
use capstone_2025_team.Memory.{Buffer}
use capstone_2025_team.Message.{
  WrapperMessage, ProxyMessage, response, get_state, put_state, value_of, acknowledgement_of,
}
use capstone_2025_team.Session.{arguments_size, val_size, ack_size, value_at}
use capstone_2025_team.Ta.{Params, Kinds}
use capstone_2025_team.Ta.Command.{command_resume_wasm, resume_kinds}
use capstone_2025_team.Proxy.{Board}
use capstone_2025_team.Proxy.Answer.{answer_get, answer_put}
use capstone_2025_team.Proxy.Answer.Laws.{put_text-Pasted}
use capstone_2025_team.Proxy.Loop.{answered, Ending, ending, Turn, stops, waits, turn, resume, loop}
use capstone_2025_team.Proxy.Loop.Laws.{IsRequest, Sends, turn-Sends}

-- The answer to a request can be written to a shared buffer of its size, which keeps the size.
pub answered-fits :
    (request : ProxyMessage) (msg : WrapperMessage) (shared : Buffer)
    → IsRequest request
    → shared.size ≡ arguments_size
    → (s : Buffer) × (answered request msg shared ≡ some s) × (s.size ≡ arguments_size)
unfolding answered answer_get answer_put
answered-fits (response text) msg shared is sized = absurd is
answered-fits (get_state key) msg shared is sized =
    let (s, made, (kept, _, _)) =
      put_text-Pasted shared value_at (value_of msg) val_size (omega arith) sized (omega arith) in
    (s, made, kept)
answered-fits (put_state key value) msg shared is sized =
    let (s, made, (kept, _, _)) =
      put_text-Pasted shared 0 (acknowledgement_of msg) ack_size (omega arith) sized
        (omega arith) in
    (s, made, kept)

-- A command does not change the size of the shared buffer.
abbrev pub KeepsSize : Board → Type 0
KeepsSize b =
    (device : b.Device) (command : ℕ) (kinds : Kinds) (ps : Params)
    → ps.shared.size ≡ arguments_size
    → (b.invoke device command kinds ps).2.shared.size ≡ arguments_size

module _ (b : Board) (keeps : KeepsSize b) where
  resume-returns :
      (device : b.Device) (ps : Params) (request : ProxyMessage) (msg : WrapperMessage)
      → IsRequest request
      → ps.shared.size ≡ arguments_size
      → (ok : Bool) × (device' : b.Device) × (ps' : Params) × (resume b device ps request msg
          ≡ some (ok, device', ps'))
        × (ps'.shared.size ≡ arguments_size)
  unfolding resume
  resume-returns device ps request msg is sized =
      let (s, made, kept) = answered-fits request msg ps.shared is sized in
      let r = b.invoke device command_resume_wasm resume_kinds (record ps { shared = s }) in
      (
        r.0,
        r.1,
        r.2,
        rw (made, resume) refl,
        keeps device command_resume_wasm resume_kinds (record ps { shared = s }) kept,
      )

  -- If no command changes the size of a shared buffer of the size of `struct arguments`, and the
  -- loop starts with one of that size, then it returns, with no write outside the buffer,
  -- whatever messages arrive and wherever the stream breaks.
  pub loop-returns :
      (device : b.Device) (ps : Params) (n : ℕ) (sent : List ProxyMessage)
      (incoming : List WrapperMessage)
      → ps.shared.size ≡ arguments_size
      → (e : Ending b) × (loop b device ps n sent incoming ≡ some e)
  unfolding loop
  loop-returns device ps n sent [] sized = last_round (turn b ps n sent)
    where
      last_round :
          (t : Turn b)
          → (e : Ending b) × (elim t [
            | stops ok n' sent' ↦ some (ending b ok device [] n' sent')
            | waits request n' sent' ↦ some (ending b false device [] n' sent')
          ]
              ≡ some e)
      last_round (stops ok n' sent') = (ending b ok device [] n' sent', refl)
      last_round (waits request n' sent') = (ending b false device [] n' sent', refl)
  loop-returns device ps n sent (msg ∷ rest) sized =
      round (turn b ps n sent) (turn-Sends b ps n sent)
        (λ device' ps' n' sent'. loop-returns device' ps' n' sent' rest)
    where
      round :
          (t : Turn b)
          → Sends b sent t
          → ((device' : b.Device) (ps' : Params) (n' : ℕ) (sent' : List ProxyMessage)
              → ps'.shared.size ≡ arguments_size
              → (e : Ending b) × (loop b device' ps' n' sent' rest ≡ some e))
          → (e : Ending b) × (elim t [
            | stops ok n' sent' ↦ some (ending b ok device (msg ∷ rest) n' sent')
            | waits request n' sent' ↦ elim (resume b device ps request msg) [
              | none ↦ none
              | some (ok, device', ps') ↦ elim ok [
                | false ↦ some (ending b false device' rest n' sent')
                | true ↦ loop b device' ps' n' sent' rest
              ]
            ]
          ]
              ≡ some e)
      round (stops ok n' sent') sends next = (ending b ok device (msg ∷ rest) n' sent', refl)
      round (waits request n' sent') (before, is) next =
          let (ok, device', ps', made, kept) = resume-returns device ps request msg is sized in
          let (e, run) = next device' ps' n' sent' kept in
          elim (Bool-cases ok) [
            | inl fine ↦ (e, rw (made, fine) run)
            | inr not_fine ↦ (ending b false device' rest n' sent', rw (made, not_fine) refl)
          ]
