-- ===== src/System/Exchange/Plans.antt =====
-- The loop of the proxy, against a wrapper that answers from the ledger.
use capstone_2025_team.Base.{
  ℕ, suc, ◌≡◌, refl, ap, ◌∙◌, true, some, Bytes, List, [], ◌∷◌, ◌++◌, codes,
}
use capstone_2025_team.Memory.{Buffer}
use capstone_2025_team.Platform.{Platform}
use capstone_2025_team.Session.{Mailbox, arguments_size}
use capstone_2025_team.Message.{
  WrapperMessage, ProxyMessage, get_state, put_state, response, get_state_response,
  put_state_response, request_message,
}
use capstone_2025_team.Ta.{Context, Params, success, State, Session}
use capstone_2025_team.Ta.Flow.{process_hostcall_flow}
use capstone_2025_team.Ta.Command.{take_answer}
use capstone_2025_team.Ta.Sandbox.Answers.{put_answer_lem}
use capstone_2025_team.Proxy.{Board}
use capstone_2025_team.Proxy.Loop.{
  loop, turn, turn_of, forwarded, write, resume, ending, answered, waits,
}
use capstone_2025_team.Proxy.Loop.Laws.{IsRequest}
use capstone_2025_team.Proxy.Loop.Ends.{answered-fits}
use capstone_2025_team.Chaincode.Machine.{Layout}
use capstone_2025_team.Chaincode.Plan.{Plan, answer, ask, put}
use capstone_2025_team.Chaincode.Follows.{Follows}
use capstone_2025_team.System.{coffee_engine, Coffee, enter, coffee_of, Host, board}
use capstone_2025_team.System.Ledger.{answered_session}
use capstone_2025_team.System.Exchange.Step.{instance_of, stepped_context, flow_lem}
use capstone_2025_team.System.Exchange.Dialogue.{Ledger, value_seen, replies, transcript, writes}
use capstone_2025_team.System.Exchange.Resume.{running, get_taken, invoke_device_lem}

module _ (b : Board) (device : b.Device) (ps : Params) (n : ℕ) (sent : List ProxyMessage) where
  -- The final response ends the loop.
  pub loop-response :
      (text : Bytes) (rest : List WrapperMessage)
      → request_message ps.request ps.shared ≡ some (response text)
      → loop b device ps (suc n) sent rest
        ≡ some (ending b true device rest n (response text ∷ sent))
  unfolding loop turn turn_of forwarded write
  loop-response text [] is = simp (loop, turn, is)
  loop-response text (msg ∷ rest) is = simp (loop, turn, is)

  turn-request :
      (request : ProxyMessage)
      → IsRequest request
      → request_message ps.request ps.shared ≡ some request
      → turn b ps (suc n) sent ≡ waits request n (request ∷ sent)
  unfolding turn turn_of forwarded write
  turn-request (response text) no_request is = absurd no_request
  turn-request (get_state key) asks is = rw is refl
  turn-request (put_state key value) asks is = rw is refl

  -- A request is answered, and the loop goes on.
  pub loop-request :
      (request : ProxyMessage) (msg : WrapperMessage) (rest : List WrapperMessage)
      (device' : b.Device) (ps' : Params)
      → IsRequest request
      → request_message ps.request ps.shared ≡ some request
      → resume b device ps request msg ≡ some (true, device', ps')
      → loop b device ps (suc n) sent (msg ∷ rest) ≡ loop b device' ps' n (request ∷ sent) rest
  unfolding loop
  loop-request request msg rest device' ps' asks is resumed =
      simp (loop, turn-request request asks is, resumed)

module _ (p : Platform) (l : Layout) (host : Host) where
  -- The TA as the proxy's device.
  unfoldable pub device_of : State (coffee_engine p l) → (board p l host).Device
  unfolding board
  device_of st = st

  -- A resumption that the TA answers with success.
  resume_lem :
      (heap : ℕ) (sc : Session) (mail mail1 mail2 : Mailbox)
      (ctx ctx1 ctx2 : Context (coffee_engine p l)) (ps ps2 : Params) (written : Buffer)
      (request : ProxyMessage) (msg : WrapperMessage)
      → answered request msg ps.shared ≡ some written
      → take_answer (coffee_engine p l) ctx mail written ≡ some (ctx1, mail1)
      → process_hostcall_flow (coffee_engine p l) ctx1 mail1 (record ps { shared = written })
        ≡ some (success, ctx2, mail2, ps2)
      → resume (board p l host) (device_of (running p l heap sc mail ctx)) ps request msg
        ≡ some (true, device_of (running p l heap sc mail2 ctx2), ps2)
  unfolding resume board device_of
  resume_lem heap sc mail mail1 mail2 ctx ctx1 ctx2 ps ps2 written request msg made taken flowed =
      simp (
        resume,
        made,
        invoke_device_lem p l heap sc mail mail1 mail2 ctx ctx1 ctx2
            (record ps { shared = written }) ps2 taken flowed,
      )

  -- The loop from a step of the chaincode on.
  unfoldable pub Finishes :
      Plan
      → Ledger
      → ℕ
      → Session
      → Context (coffee_engine p l)
      → Mailbox
      → Params
      → ℕ
      → List ProxyMessage
      → List WrapperMessage
      → Type 0
  Finishes plan ledger heap sc ctx mail ps n sent rest =
      (ctx' : Context (coffee_engine p l)) × (mail' : Mailbox) × (ps' : Params) × (last : State
        (coffee_engine p l))
      × (process_hostcall_flow (coffee_engine p l) ctx mail ps ≡ some (success, ctx', mail', ps'))
      × (loop (board p l host) (device_of (running p l heap sc mail' ctx')) ps'
            (writes plan ledger n) sent (replies plan ledger ++ rest)
          ≡ some
              (ending (board p l host) true (device_of last) rest n (transcript plan ledger sent)))

  pub finishes :
      (room : (n : ℕ) → l.runtime.allocates n ≡ true) (plan : Plan) (ledger : Ledger) (heap : ℕ)
      (sc : Session) (ctx : Context (coffee_engine p l)) (c : Coffee) (mail : Mailbox) (ps : Params)
      (n : ℕ) (sent : List ProxyMessage) (rest : List WrapperMessage)
      → Follows p l plan (enter p l c mail)
      → ctx.module_inst ≡ some (instance_of p l c)
      → ps.shared.size ≡ arguments_size
      → Finishes plan ledger heap sc ctx mail ps n sent rest
  unfolding Finishes
  finishes room (answer text) ledger heap sc ctx c mail ps n sent rest (step, idle, asks) loaded
        sized =
      let (ps', run, is, size) = flow_lem p l room ctx c mail ps step loaded sized in
      let ctx' = stepped_context p l c mail step ctx in
      let state = running p l heap sc step.session ctx' in
      (
        ctx',
        step.session,
        ps',
        state,
        run,
        loop-response (board p l host) (device_of state) ps' n sent text rest (is ∙ ap some asks),
      )
  finishes room (ask key next) ledger heap sc ctx c mail ps n sent rest
        (step, pending, asks, out, open_out, go_on) loaded sized =
      let (ps', run, is, size) = flow_lem p l room ctx c mail ps step loaded sized in
      let ctx' = stepped_context p l c mail step ctx in
      let c' = coffee_of p l step.memory step.chain in
      let msg = get_state_response (ledger key) in
      let (written, m, made, written_size, taken, outside, stands, kept) =
        get_taken p l c' step.session out ctx' ps'.shared msg open_out refl pending size in
      let c2 : Coffee = record c' { memory = m } in
      let ctx1 : Context (coffee_engine p l) = record ctx' {
        module_inst = some (instance_of p l c2);
      } in
      let (ctx2, mail2, ps2, last, flowed, looped) =
        finishes room (next (value_seen ledger key)) ledger heap sc ctx1 c2
          (answered_session step.session) (record ps' { shared = written }) n (get_state key ∷ sent)
          rest (go_on m (value_seen ledger key) outside stands kept) refl written_size in
      (
        ctx',
        step.session,
        ps',
        last,
        run,
        loop-request (board p l host) (device_of (running p l heap sc step.session ctx')) ps'
              (writes (next (value_seen ledger key)) ledger n) sent (get_state key) msg
              (replies (next (value_seen ledger key)) ledger ++ rest)
              (device_of (running p l heap sc mail2 ctx2)) ps2 tt (is ∙ ap some asks)
              (resume_lem heap sc step.session (answered_session step.session) mail2 ctx' ctx1 ctx2
                ps' ps2 written (get_state key) msg (unfold answered in made) taken flowed)
            ∙ looped,
      )
  finishes room (put key value later) ledger heap sc ctx c mail ps n sent rest
        (step, pending, asks, go_on) loaded sized =
      let (ps', run, is, size) = flow_lem p l room ctx c mail ps step loaded sized in
      let ctx' = stepped_context p l c mail step ctx in
      let c' = coffee_of p l step.memory step.chain in
      let msg = put_state_response (codes "OK") in
      let (written, made, written_size) =
        answered-fits (put_state key value) msg ps'.shared tt size in
      let mail1 : Mailbox = record step.session { pending_type = 0 } in
      let (ctx2, mail2, ps2, last, flowed, looped) =
        finishes room later ledger heap sc ctx' c' mail1 (record ps' { shared = written }) n
          (put_state key value ∷ sent) rest go_on refl written_size in
      (
        ctx',
        step.session,
        ps',
        last,
        run,
        loop-request (board p l host) (device_of (running p l heap sc step.session ctx')) ps'
              (writes later ledger n) sent (put_state key value) msg (replies later ledger ++ rest)
              (device_of (running p l heap sc mail2 ctx2)) ps2 tt (is ∙ ap some asks)
              (resume_lem heap sc step.session mail1 mail2 ctx' ctx' ctx2 ps' ps2 written
                (put_state key value) msg made
                (put_answer_lem (coffee_engine p l) ctx' (instance_of p l c') refl step.session
                  written pending)
                flowed)
            ∙ looped,
      )
