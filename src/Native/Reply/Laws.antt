-- ===== src/Native/Reply/Laws.antt =====
-- What a response leaves in the session.
use capstone_2025_team.Base.{
  ℕ, ◌^◌, ◌<◌, ◌≡◌, Option, none, pos, negsuc, ltb, ◌==◌, if◌then◌else◌, arith,
}
use capstone_2025_team.Memory.{Buffer, store}
use capstone_2025_team.Platform.{Platform}
use capstone_2025_team.Session.{Mailbox, IsWellFormed, response_size}
use capstone_2025_team.Native.{world, return}
use capstone_2025_team.Native.Copying.{size-taken, taken, source, take_in-source}
use capstone_2025_team.Native.Reply.{cc_return_response}

-- The response after n bytes were copied and position n was zeroed.
abbrev pub ended : Buffer → ℕ → Buffer
ended b n = record { size = b.size; byte = λ a. if a == n then 0 else b.byte a }

module _ (m : Buffer) (sess : Mailbox) where
  abbrev pub response_left : Option ℕ → ℕ → Mailbox
  response_left src n = record sess {
    response = ended (taken sess.response response_size m src (pos n)) n;
    has_response = 1;
  }

module _ (p : Platform) (m : Buffer) (sess : Mailbox) (valid : IsWellFormed sess) where
  pub cc_return_response_lem :
      (msg_ptr n : ℕ)
      → n < 2 ^ 31
      → let len = (if ltb n 255 then n else 255) in
        cc_return_response p (world m sess) msg_ptr (pos n)
        ≡ return (pos len) (world m (response_left m sess (source p m msg_ptr (pos n)) len))
  unfolding cc_return_response store
  cc_return_response_lem msg_ptr n int = ground (
    arith,
    valid.response_sized,
    take_in-source p m sess.response response_size 255 msg_ptr (pos n) valid.response_sized
        (omega arith) int,
    size-taken sess.response response_size m (source p m msg_ptr (pos n)) (pos n),
    size-taken sess.response response_size m (source p m msg_ptr (pos n)) (pos 255),
  )

  -- For a well-formed session: `cc_return_response` with a negative length of 32 bits faults,
  -- since it writes in front of the response.
  pub cc_return_response_underrun :
      (msg_ptr n : ℕ) → n < 2 ^ 31 → cc_return_response p (world m sess) msg_ptr (negsuc n) ≡ none
  unfolding cc_return_response
  cc_return_response_underrun msg_ptr n int = ground (
    arith,
    take_in-source p m sess.response response_size 255 msg_ptr (negsuc n) valid.response_sized
        (omega arith) int,
  )
