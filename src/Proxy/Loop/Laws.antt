-- ===== src/Proxy/Loop/Laws.antt =====
-- The protocol of the loop: what it sends, what it reads, and that it ends.
use capstone_2025_team.Base.{
  ℕ, zero, suc, ◌+◌, ◌≡◌, refl, ap, sym, ◌∙◌, Bool, true, false, Option, some, none, List, [], ◌∷◌,
  ◌++◌, Bytes, length, arith, append_assoc, length-append,
}
use capstone_2025_team.Message.{
  WrapperMessage, ProxyMessage, response, get_state, put_state, request_message,
}
use capstone_2025_team.Ta.{Params}
use capstone_2025_team.Proxy.{Board}
use capstone_2025_team.Proxy.Loop.{
  write, Ending, ending, Turn, stops, waits, forwarded, turn_of, turn, resume, loop,
}

abbrev pub IsRequest : ProxyMessage → Type 0
IsRequest (response text) = ⊥
IsRequest _ = Unit

abbrev pub Requests : List ProxyMessage → Type 0
Requests [] = Unit
Requests (msg ∷ msgs) = IsRequest msg × Requests msgs

module _ (b : Board) where
  -- A round that goes on has sent one request; one that ends well has sent the final response.
  abbrev pub Sends : List ProxyMessage → Turn b → Type 0
  Sends sent (stops true n sent') = (text : Bytes) × (sent' ≡ response text ∷ sent)
  Sends sent (stops false n sent') = Unit
  Sends sent (waits msg n sent') = (sent' ≡ msg ∷ sent) × IsRequest msg

  forwarded-Sends :
      (msg : ProxyMessage) (n : ℕ) (sent : List ProxyMessage)
      → Sends sent (forwarded b msg (write msg n sent))
  unfolding forwarded write
  forwarded-Sends (response text) zero sent = tt
  forwarded-Sends (response text) (suc n) sent = (text, refl)
  forwarded-Sends (get_state key) zero sent = tt
  forwarded-Sends (get_state key) (suc n) sent = (refl, tt)
  forwarded-Sends (put_state key value) zero sent = tt
  forwarded-Sends (put_state key value) (suc n) sent = (refl, tt)

  turn_of-Sends :
      (r : Option ProxyMessage) (n : ℕ) (sent : List ProxyMessage) → Sends sent (turn_of b r n sent)
  unfolding turn_of
  turn_of-Sends none n sent = tt
  turn_of-Sends (some msg) n sent = forwarded-Sends msg n sent

  pub turn-Sends : (ps : Params) (n : ℕ) (sent : List ProxyMessage) → Sends sent (turn b ps n sent)
  unfolding turn
  turn-Sends ps n sent = turn_of-Sends (request_message ps.request ps.shared) n sent

  -- The messages that the loop sent, newest first: a final response, and the requests before it,
  -- one for each message that was read.
  abbrev pub Exchanged : List ProxyMessage → List WrapperMessage → Ending b → Type 0
  Exchanged sent incoming e =
      (text : Bytes) × (requests : List ProxyMessage) × (e.stream.sent
        ≡ response text ∷ (requests ++ sent))
      × Requests requests
      × (length requests + length e.stream.incoming ≡ length incoming)

  -- One more request before what was exchanged.
  Exchanged-cons :
      (request : ProxyMessage) (msg : WrapperMessage) (sent sent' : List ProxyMessage)
      (rest : List WrapperMessage) (e : Ending b)
      → sent' ≡ request ∷ sent
      → IsRequest request
      → Exchanged sent' rest e
      → Exchanged sent (msg ∷ rest) e
  Exchanged-cons request msg sent sent' rest e before is (text, requests, seen, all, count) = (
    text,
    requests ++ request ∷ [],
    seen
        ∙ ap (response text ∷◌)
            (ap (requests ++◌) before ∙ sym (append_assoc requests (request ∷ []) sent)),
    Requests-append requests all is,
    omega (arith, length-append requests (request ∷ []), count),
  )
    where
      Requests-append :
          (rs : List ProxyMessage) → Requests rs → IsRequest request → Requests (rs ++ request ∷ [])
      Requests-append [] h is' = (is', tt)
      Requests-append (r ∷ rs) (h, hs) is' = (h, Requests-append rs hs is')

  abbrev unwrapped : Ending b → Option (Ending b) → Ending b
  unwrapped d none = d
  unwrapped d (some x) = x

  -- A loop that is over has exchanged no further message.
  over :
      (ok : Bool) (device : b.Device) (n : ℕ) (sent' : List ProxyMessage) (sent : List ProxyMessage)
      (incoming : List WrapperMessage) (e : Ending b)
      → Sends sent (stops ok n sent')
      → some (ending b ok device incoming n sent') ≡ some e
      → e.ok ≡ true
      → Exchanged sent incoming e
  over true device n sent' sent incoming e (text, seen) run fine = (
    text,
    [],
    sym (ap (λ x. x.stream.sent) same) ∙ seen,
    tt,
    omega (arith, ap (λ x. length x.stream.incoming) same),
  )
    where
      same : ending b true device incoming n sent' ≡ e
      same = ap (unwrapped e) run
  over false device n sent' sent incoming e sends run fine =
      is_true (ap (λ x. x.ok) (ap (unwrapped e) run) ∙ fine)
    where
      is_true : {A : Type 0} → false ≡ true → A
      is_true h = absurd (ground arith)

  broken :
      (device : b.Device) (n : ℕ) (sent' : List ProxyMessage) (sent : List ProxyMessage)
      (incoming : List WrapperMessage) (e : Ending b)
      → some (ending b false device incoming n sent') ≡ some e
      → e.ok ≡ true
      → Exchanged sent incoming e
  broken device n sent' sent incoming e = over false device n sent' sent incoming e tt

  -- If the loop returns and ends well, then it has sent one final response, as its last message,
  -- and before it one get or put request for each message that it read, and nothing else.
  pub loop-Exchanged :
      (device : b.Device) (ps : Params) (n : ℕ) (sent : List ProxyMessage)
      (incoming : List WrapperMessage) (e : Ending b)
      → loop b device ps n sent incoming ≡ some e
      → e.ok ≡ true
      → Exchanged sent incoming e
  unfolding loop
  loop-Exchanged device ps n sent [] e = last_round (turn b ps n sent) (turn-Sends ps n sent)
    where
      last_round :
          (t : Turn b)
          → Sends sent t
          → elim t [
            | stops ok n' sent' ↦ some (ending b ok device [] n' sent')
            | waits request n' sent' ↦ some (ending b false device [] n' sent')
          ]
            ≡ some e
          → e.ok ≡ true
          → Exchanged sent [] e
      last_round (stops ok n' sent') = over ok device n' sent' sent [] e
      last_round (waits request n' sent') = λ sends. broken device n' sent' sent [] e
  loop-Exchanged device ps n sent (msg ∷ rest) e =
      round (turn b ps n sent) (turn-Sends ps n sent)
        (λ device' ps' n' sent'. loop-Exchanged device' ps' n' sent' rest e)
    where
      resumed :
          (request : ProxyMessage) (n' : ℕ) (sent' : List ProxyMessage)
          (r : Option (Bool × b.Device × Params))
          → sent' ≡ request ∷ sent
          → IsRequest request
          → ((device' : b.Device) (ps' : Params) (n' : ℕ) (sent' : List ProxyMessage)
              → loop b device' ps' n' sent' rest ≡ some e
              → e.ok ≡ true
              → Exchanged sent' rest e)
          → elim r [
            | none ↦ none
            | some (ok, device', ps') ↦ elim ok [
              | false ↦ some (ending b false device' rest n' sent')
              | true ↦ loop b device' ps' n' sent' rest
            ]
          ]
            ≡ some e
          → e.ok ≡ true
          → Exchanged sent (msg ∷ rest) e
      resumed request n' sent' none before is next run fine = absurd (ground arith)
      resumed request n' sent' (some (true, device', ps')) before is next run fine =
          Exchanged-cons request msg sent sent' rest e before is
            (next device' ps' n' sent' run fine)
      resumed request n' sent' (some (false, device', ps')) before is next run fine =
          Exchanged-cons request msg sent sent' rest e before is
            (broken device' n' sent' sent' rest e run fine)

      round :
          (t : Turn b)
          → Sends sent t
          → ((device' : b.Device) (ps' : Params) (n' : ℕ) (sent' : List ProxyMessage)
              → loop b device' ps' n' sent' rest ≡ some e
              → e.ok ≡ true
              → Exchanged sent' rest e)
          → elim t [
            | stops ok n' sent' ↦ some (ending b ok device (msg ∷ rest) n' sent')
            | waits request n' sent' ↦ elim (resume b device ps request msg) [
              | none ↦ none
              | some (ok, device', ps') ↦ elim ok [
                | false ↦ some (ending b false device' rest n' sent')
                | true ↦ loop b device' ps' n' sent' rest
              ]
            ]
          ]
            ≡ some e
          → e.ok ≡ true
          → Exchanged sent (msg ∷ rest) e
      round (stops ok n' sent') sends next = over ok device n' sent' sent (msg ∷ rest) e sends
      round (waits request n' sent') (before, is) next =
          resumed request n' sent' (resume b device ps request msg) before is next
