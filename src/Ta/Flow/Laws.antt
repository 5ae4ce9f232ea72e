-- ===== src/Ta/Flow/Laws.antt =====
-- What the proxy reads in the shared buffer is what the chaincode asked for.
use capstone_2025_team.Base.{
  ℕ, suc, ◌+◌, ◌-◌, ◌≤◌, ◌<◌, ◌≡◌, ap, until_nul, ◌∙◌, Option, none, some, codes, length, ltb, ◌==◌,
  if◌then◌else◌, arith, inl, inr, Bool-cases,
}
use capstone_2025_team.Memory.{Buffer, c_string, filled, moved, of_list}
use capstone_2025_team.Memory.Copies.{
  Apart, bytes-moved, bytes-moved_outside, byte-moved_outside, byte-filled, size-filled, size-moved,
}
use capstone_2025_team.Memory.Strings.{
  safe_strlen_lem, length-c_string, c_string_whole, c_string_ended,
}
use capstone_2025_team.Session.{
  Mailbox, IsWellFormed, response_size, key_value_size, value_at, get_state_request,
  put_state_request, arguments_size,
}
use capstone_2025_team.Message.{
  ProxyMessage, response, get_state, put_state, text_at, request_message,
}
use capstone_2025_team.Ta.{Engine, Params}
use capstone_2025_team.Ta.Flow.{literal, respond, ask_get, ask_put, finish, forward}

-- The final response: the chaincode's, or a word for a missing or an empty one.
unfoldable pub final : Mailbox → ProxyMessage
final sc =
    if sc.has_response == 0
    then response (codes "NO_RESPONSE")
    else if ltb 0 (length (c_string sc.response 0 255))
    then response (c_string sc.response 0 255)
    else response (codes "EMPTY_RESPONSE")

-- What the session asks for: a ledger read or write, or nothing more, with the final response.
unfoldable pub asked : Mailbox → ProxyMessage
asked sc =
    if sc.pending_type == get_state_request
    then get_state (c_string sc.key 0 63)
    else if sc.pending_type == put_state_request
    then put_state (c_string sc.key 0 63) (c_string sc.value 0 255)
    else final sc

text_at_lem :
    (b : Buffer) (p k : ℕ) → b.byte (p + k) ≡ 0 → p + k < b.size → text_at b p ≡ c_string b p k
text_at_lem b p k e h = c_string_ended b p k (b.size - p) e (omega arith)

-- A string copied in front of a zero, and one that a copy leaves alone.
text-moved :
    (d : Buffer) (at : ℕ) (s : Buffer) (q k : ℕ)
    → d.byte (at + k) ≡ 0
    → at + k < d.size
    → text_at (moved d at s q k) at ≡ c_string s q k
text-moved d at s q k e h =
    text_at_lem (moved d at s q k) at k (unfold moved in ground arith) (unfold moved in h)
    ∙ ap until_nul (bytes-moved d at s q k)

text-moved_outside :
    (d : Buffer) (at : ℕ) (s : Buffer) (q k p j : ℕ)
    → d.byte (p + j) ≡ 0
    → p + j < d.size
    → Apart at k p (suc j)
    → text_at (moved d at s q k) p ≡ c_string d p j
text-moved_outside d at s q k p j e h apart =
    text_at_lem (moved d at s q k) p j (unfold moved in ground arith) (unfold moved in h)
    ∙ ap until_nul (bytes-moved_outside d at s q k p j (ground arith))

-- The message that the parameters hold, and the size of their buffer.
abbrev pub Asks : Option Params → ProxyMessage → Type 0
Asks none msg = ⊥
Asks (some ps) msg =
    (request_message ps.request ps.shared ≡ some msg) × (ps.shared.size ≡ arguments_size)

module _ (e : Engine) (ps : Params) (sized : ps.shared.size ≡ arguments_size) where
  -- The first n bytes, zeroed.
  cleared : ℕ → Buffer
  cleared n = filled ps.shared 0 0 n

  fill : (n : ℕ) → n ≤ arguments_size → e.mem_fill ps.shared 0 0 n ≡ some (cleared n)
  unfolding cleared
  fill n h = e.mem_fill_lem ps.shared 0 0 n (omega arith)

  size-cleared : (n : ℕ) → (cleared n).size ≡ arguments_size
  unfolding cleared
  size-cleared n = size-filled ps.shared 0 0 n ∙ sized

  byte-cleared : (n i : ℕ) → i < n → (cleared n).byte i ≡ 0
  unfolding cleared
  byte-cleared n i h = byte-filled ps.shared 0 0 n i (omega arith) (omega arith)

  pub respond-Asks :
      (text : Buffer) (n : ℕ)
      → n ≤ 255
      → n ≤ text.size
      → Asks (respond e ps text n) (response (c_string text 0 n))
  unfolding respond request_message
  respond-Asks text n h h' =
      let d = cleared response_size in
      ground (
        arith,
        fill response_size (omega arith),
        e.mem_move_lem d 0 text 0 n,
        size-cleared response_size,
        byte-cleared response_size n,
        text-moved d 0 text 0 n,
        size-moved d 0 text 0 n,
      )

  module _ (sc : Mailbox) (valid : IsWellFormed sc) where
    ask_get-Asks : Asks (ask_get e sc ps) (get_state (c_string sc.key 0 63))
    unfolding ask_get request_message
    ask_get-Asks =
        let d = cleared key_value_size in
        let n = length (c_string sc.key 0 63) in
        ground (
          arith,
          fill key_value_size (omega arith),
          safe_strlen_lem sc.key 0 63 (omega (arith, valid.key_sized)),
          length-c_string sc.key 0 63,
          valid.key_sized,
          e.mem_move_lem d 0 sc.key 0 n,
          size-cleared key_value_size,
          byte-cleared key_value_size n,
          text-moved d 0 sc.key 0 n,
          c_string_whole sc.key 0 63,
          size-moved d 0 sc.key 0 n,
        )

    ask_put-Asks :
        Asks (ask_put e sc ps) (put_state (c_string sc.key 0 63) (c_string sc.value 0 255))
    unfolding ask_put request_message
    ask_put-Asks =
        let d = cleared key_value_size in
        let n = length (c_string sc.key 0 63) in
        let k = length (c_string sc.value 0 255) in
        let keyed = moved d 0 sc.key 0 n in
        ground (
          arith,
          fill key_value_size (omega arith),
          safe_strlen_lem sc.key 0 63 (omega (arith, valid.key_sized)),
          safe_strlen_lem sc.value 0 255 (omega (arith, valid.value_sized)),
          length-c_string sc.key 0 63,
          length-c_string sc.value 0 255,
          valid.key_sized,
          valid.value_sized,
          e.mem_move_lem d 0 sc.key 0 n,
          e.mem_move_lem keyed value_at sc.value 0 k,
          size-cleared key_value_size,
          size-moved d 0 sc.key 0 n,
          size-moved keyed value_at sc.value 0 k,
          byte-cleared key_value_size n,
          byte-cleared key_value_size (value_at + k),
          byte-moved_outside d 0 sc.key 0 n n,
          byte-moved_outside d 0 sc.key 0 n (value_at + k),
          text-moved keyed value_at sc.value 0 k,
          text-moved_outside keyed value_at sc.value 0 k 0 n,
          unmoved,
          c_string_whole sc.key 0 63,
          c_string_whole sc.value 0 255,
        )
      where
        unmoved :
            c_string
              (moved (cleared key_value_size) 0 sc.key 0 (length (c_string sc.key 0 63)))
              0
              (length (c_string sc.key 0 63))
            ≡ c_string sc.key 0 (length (c_string sc.key 0 63))
        unmoved =
            ap until_nul
              (bytes-moved (cleared key_value_size) 0 sc.key 0 (length (c_string sc.key 0 63)))

    no_response-Asks :
        Asks (respond e ps (literal (codes "NO_RESPONSE")) 11) (response (codes "NO_RESPONSE"))
    unfolding of_list
    no_response-Asks = respond-Asks (literal (codes "NO_RESPONSE")) 11 (omega arith) (omega arith)

    empty_response-Asks :
        Asks
          (respond e ps (literal (codes "EMPTY_RESPONSE")) 14)
          (response (codes "EMPTY_RESPONSE"))
    unfolding of_list
    empty_response-Asks =
        respond-Asks (literal (codes "EMPTY_RESPONSE")) 14 (omega arith) (omega arith)

    whole-Asks :
        Asks
          (respond e ps sc.response (length (c_string sc.response 0 255)))
          (response (c_string sc.response 0 255))
    whole-Asks = rw (c_string_whole sc.response 0 255) at (
        respond-Asks sc.response (length (c_string sc.response 0 255))
          (length-c_string sc.response 0 255)
          (omega (arith, length-c_string sc.response 0 255, valid.response_sized)))

    finish-Asks : Asks (finish e sc ps) (final sc)
    unfolding finish final
    finish-Asks = elim (Bool-cases (sc.has_response == 0)) [
      | inl absent ↦ rw absent no_response-Asks
      | inr present ↦
          rw (present, safe_strlen_lem sc.response 0 255 (omega (arith, valid.response_sized)))
            (elim (Bool-cases (ltb 0 (length (c_string sc.response 0 255)))) [
              | inl some_text ↦ rw some_text whole-Asks
              | inr no_text ↦ rw no_text empty_response-Asks
            ])
    ]

    -- For a well-formed session and a shared buffer of the size of `struct arguments`: the TA
    -- does not fault, the buffer keeps its size, and the message that the proxy reads from the
    -- request type and the buffer is what the session asks for.
    pub forward-Asks : Asks (forward e sc ps) (asked sc)
    unfolding forward asked
    forward-Asks = elim (Bool-cases (sc.pending_type == get_state_request)) [
      | inl get ↦ rw get ask_get-Asks
      | inr not_get ↦ rw not_get (elim (Bool-cases (sc.pending_type == put_state_request)) [
        | inl put ↦ rw put ask_put-Asks
        | inr not_put ↦ rw not_put finish-Asks
      ])
    ]
