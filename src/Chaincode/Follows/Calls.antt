-- ===== src/Chaincode/Follows/Calls.antt =====
-- The machine's helpers and imports on a memory and a session that are there.
use capstone_2025_team.Base.{
  ℕ, ◌+◌, ◌^◌, ◌<◌, ◌≤◌, ◌≡◌, refl, ap, true, false, Bytes, some, [], ◌∷◌, arith, length, ℤ, pos,
  cap_at, if◌then◌else◌, ◌==◌, ltb,
}
use mathlib.Core.Path.{ap₂}
use capstone_2025_team.Memory.{Buffer}
use capstone_2025_team.Platform.{Platform}
use capstone_2025_team.Session.{Mailbox, IsWellFormed, RowsEnd}
use capstone_2025_team.Message.{response, get_state, put_state}
use capstone_2025_team.Native.{world, to_native}
use capstone_2025_team.Native.Copying.{source, to_native_complete}
use capstone_2025_team.Native.Read.Laws.{Holds, row_string, cc_get_arg-Holds, cc_get_function-Holds}
use capstone_2025_team.Native.State.Laws.{get_left, put_left, cc_get_state_lem, cc_put_state_lem}
use capstone_2025_team.Native.Reply.Laws.{response_left, cc_return_response_lem}
use capstone_2025_team.Native.Safety.Requests.{
  get-IsWellFormed, put-IsWellFormed, response-IsWellFormed,
}
use capstone_2025_team.Native.Table.{
  Call, dispatch, get_function, get_arg, get_state, put_state, return_response,
}
use capstone_2025_team.Ta.Flow.Laws.{asked, final}
use capstone_2025_team.Ta.Sandbox.{Sound}
use capstone_2025_team.Chaincode.Text.Stands.{
  Stands, Filled, s_strlen-Stands, read-empty, read-cons, s_memset-Filled,
}
use capstone_2025_team.Chaincode.Machine.{
  Layout, Op, op_none, Chain, import, clear, strlen, first_byte, get_arg_into, ask_state,
  store_state, reply, fail, val_max, idle,
}
use capstone_2025_team.Chaincode.Follows.Taken.{taken-Stands, response-Stands}

some_length : (c : ℕ) (s : Bytes) → ltb 0 (length (c ∷ s)) ≡ true
some_length c s = ground arith

-- The machine on a memory and a session.
abbrev pub chain_at : Buffer → Mailbox → ℕ → Op → ℕ → Chain
chain_at m sess state op exit = record {
  world = world m sess;
  fsm_state = state;
  current_op = op;
  should_exit = exit;
}

module _ (p : Platform) (m : Buffer) (sess : Mailbox) where
  -- The session after a GET of the n bytes of a person, with `out` for the value.
  abbrev pub asking : ℕ → ℕ → ℕ → Mailbox
  asking person n out = get_left m sess (source p m person (pos n)) (pos n) out (pos val_max)

  -- The session after a PUT of k bytes at `val` for the person.
  abbrev pub putting : ℕ → ℕ → ℕ → ℕ → Mailbox
  putting person n val k =
      put_left m sess (source p m person (pos n)) (pos n) (source p m val (pos k)) (pos k)

  -- The session after a response.
  abbrev pub replying : ℕ → ℕ → Mailbox
  replying msg n = response_left m sess (source p m msg (pos n)) n

module _ (p : Platform) (l : Layout) (m : Buffer) (sess : Mailbox) (state : ℕ) (op : Op)
    (exit : ℕ) where
  pub clear-Filled :
      (ptr n : ℕ)
      → ptr + n ≤ m.size
      → (m' : Buffer) × (clear p l ptr n (chain_at m sess state op exit)
          ≡ some (chain_at m' sess state op exit))
        × Filled m ptr 0 n m'
  unfolding clear
  clear-Filled ptr n h =
      let (m', run, filled) = s_memset-Filled m ptr 0 n h in (m', rw run refl, filled)

  pub strlen-Stands :
      (ptr k : ℕ) (s : Bytes)
      → Stands m ptr k s
      → 0 < ptr
      → strlen p l ptr (chain_at m sess state op exit) ≡ some (length s)
  unfolding strlen
  strlen-Stands ptr k s stands some_ptr = s_strlen-Stands m ptr k s stands some_ptr

  pub first_byte-empty :
      (ptr k : ℕ) → Stands m ptr k [] → first_byte p l ptr (chain_at m sess state op exit) ≡ some 0
  unfolding first_byte
  first_byte-empty ptr k stands = read-empty m ptr k stands

  pub first_byte-cons :
      (ptr k c : ℕ) (s : Bytes)
      → Stands m ptr k (c ∷ s)
      → (first_byte p l ptr (chain_at m sess state op exit) ≡ some c) × ((c == 0) ≡ false)
  unfolding first_byte
  first_byte-cons ptr k c s stands = read-cons m ptr k c s stands

  module _ (valid : IsWellFormed sess) (ends : RowsEnd sess) where
    pub get_arg_into-Holds :
        (linked : (c : Call) → l.runtime.linked c ≡ true) (i ptr n : ℕ)
        → i < 9
        → 0 < n
        → n < 2 ^ 31
        → 0 < ptr
        → ptr + n ≤ m.size
        → (m' : Buffer) × (get_arg_into p l i ptr n (chain_at m sess state op exit)
            ≡ some (chain_at m' sess state op exit))
          × Holds m ptr n m' (row_string sess (i + 1) n)
    unfolding get_arg_into import dispatch
    get_arg_into-Holds linked i ptr n k h h' h'' h''' =
        let (m', run, holds) = cc_get_arg-Holds p m sess valid ends ptr n i k h h' h'' h''' in
        (m', rw (linked (get_arg (pos i) ptr (pos n)), run) refl, holds)

    pub get_function-Holds :
        (linked : (c : Call) → l.runtime.linked c ≡ true) (ptr n : ℕ)
        → 0 < n
        → n < 2 ^ 31
        → 0 < ptr
        → ptr + n ≤ m.size
        → (m' : Buffer) × (z : ℤ) × (import p l
              (get_function ptr (pos n))
              (chain_at m sess state op exit)
            ≡ some (z, chain_at m' sess state op exit))
          × Holds m ptr n m' (row_string sess 0 n)
    unfolding import dispatch
    get_function-Holds linked ptr n h h' h'' h''' =
        let (m', run, holds) = cc_get_function-Holds p m sess valid ends ptr n h h' h'' h''' in
        (
          m',
          pos (length (row_string sess 0 n)),
          rw (linked (get_function ptr (pos n)), run) refl,
          holds,
        )

    pub ask_state_lem :
        (linked : (c : Call) → l.runtime.linked c ≡ true) (s : Bytes)
        → Stands m l.g_person 64 s
        → 0 < l.g_person
        → 0 < l.g_cur_val
        → l.g_cur_val + 256 ≤ m.size
        → ask_state p l (chain_at m sess state op exit)
          ≡ some (
            cap_at (pos (length s)) 63,
            chain_at m (asking p m sess l.g_person (length s) l.g_cur_val) state op exit,
          )
    unfolding ask_state import dispatch
    ask_state_lem linked s stands some_person some_out inside =
        let open_out : to_native p (some m) l.g_cur_val 256 ≡ some l.g_cur_val =
          to_native_complete p m l.g_cur_val 256 some_out (omega arith) inside in
        let run = rw open_out at (
          cc_get_state_lem p m sess valid l.g_person (pos (length s)) l.g_cur_val (pos 256)
            (omega (arith, stands.1))) in
        rw
          (
            strlen-Stands l.g_person 64 s stands some_person,
            linked (get_state l.g_person (pos (length s)) l.g_cur_val (pos val_max)),
            run,
          )
          refl

    pub asking-Sound : (n : ℕ) → Sound (asking p m sess l.g_person n l.g_cur_val)
    asking-Sound n = (
      get-IsWellFormed p m sess valid (source p m l.g_person (pos n)) (pos n) l.g_cur_val
          (pos val_max) (omega arith) refl,
      ends,
    )

    pub asked-asking :
        (s : Bytes)
        → m.size < 2 ^ 31
        → 0 < l.g_person
        → Stands m l.g_person 64 s
        → asked (asking p m sess l.g_person (length s) l.g_cur_val) ≡ get_state s
    unfolding asked
    asked-asking s small some_person stands = ap get_state (
        taken-Stands p sess.key m 63 l.g_person 64 small some_person s stands
          (omega (arith, stands.1)))

    pub store_state_lem :
        (linked : (c : Call) → l.runtime.linked c ≡ true) (val k : ℕ) (s t : Bytes)
        → Stands m l.g_person 64 s
        → Stands m val k t
        → 0 < l.g_person
        → 0 < val
        → k < 2 ^ 31
        → store_state p l val (chain_at m sess state op exit)
          ≡ some (chain_at m (putting p m sess l.g_person (length s) val (length t)) state op exit)
    unfolding store_state import dispatch
    store_state_lem linked val k s t person stands some_person some_val small =
        let run =
          cc_put_state_lem p m sess valid l.g_person (pos (length s)) val (pos (length t))
            (omega (arith, person.1)) (omega (arith, stands.1, small)) in
        rw
          (
            strlen-Stands l.g_person 64 s person some_person,
            strlen-Stands val k t stands some_val,
            linked (put_state l.g_person (pos (length s)) val (pos (length t))),
            run,
          )
          refl

    pub putting-Sound : (n val k : ℕ) → Sound (putting p m sess l.g_person n val k)
    putting-Sound n val k = (
      put-IsWellFormed p m sess valid (source p m l.g_person (pos n)) (pos n)
          (source p m val (pos k)) (pos k),
      ends,
    )

    pub asked-putting :
        (val k : ℕ) (s t : Bytes)
        → m.size < 2 ^ 31
        → 0 < l.g_person
        → 0 < val
        → Stands m l.g_person 64 s
        → Stands m val k t
        → length t ≤ 255
        → asked (putting p m sess l.g_person (length s) val (length t)) ≡ put_state s t
    unfolding asked
    asked-putting val k s t small some_person some_val person stands short =
        ap₂ put_state
          (taken-Stands p sess.key m 63 l.g_person 64 small some_person s person
            (omega (arith, person.1)))
          (taken-Stands p sess.value m 255 val k small some_val t stands short)

    respond_lem :
        (msg n : ℕ)
        → n ≤ 255
        → dispatch p (world m sess) (return_response msg (pos n))
          ≡ some (pos n, world m (replying p m sess msg n))
    unfolding dispatch
    respond_lem msg n h =
        let cut : (if ltb n 255 then n else 255) ≡ n = ground arith in
        rw cut at (cc_return_response_lem p m sess valid msg n (omega (arith, h)))

    pub reply_lem :
        (linked : (c : Call) → l.runtime.linked c ≡ true) (msg n : ℕ)
        → n ≤ 255
        → reply p l msg n (chain_at m sess state op exit)
          ≡ some (chain_at m (replying p m sess msg n) idle op_none exit)
    unfolding reply import
    reply_lem linked msg n h = rw (linked (return_response msg (pos n)), respond_lem msg n h) refl

    pub fail_lem :
        (linked : (c : Call) → l.runtime.linked c ≡ true)
        → fail p l (chain_at m sess state op exit)
          ≡ some (chain_at m (replying p m sess l.error_text 5) state op exit)
    unfolding fail import
    fail_lem linked =
        rw (linked (return_response l.error_text (pos 5)), respond_lem l.error_text 5 (omega arith))
          refl

    pub replying-Sound : (msg n : ℕ) → n ≤ 255 → Sound (replying p m sess msg n)
    replying-Sound msg n h =
        (response-IsWellFormed p m sess valid (source p m msg (pos n)) n h, ends)

    pub asked-replying :
        (msg k c : ℕ) (s : Bytes)
        → m.size < 2 ^ 31
        → sess.pending_type ≡ 0
        → 0 < msg
        → Stands m msg k (c ∷ s)
        → length (c ∷ s) ≤ 255
        → asked (replying p m sess msg (length (c ∷ s))) ≡ response (c ∷ s)
    unfolding asked final
    asked-replying msg k c s small pending some_msg stands short =
        let text =
          response-Stands p sess.response m 255 msg k small some_msg (c ∷ s) stands short in
        simp (asked, final, pending, text, some_length c s)
