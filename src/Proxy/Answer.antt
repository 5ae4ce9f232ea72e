-- ===== src/Proxy/Answer.antt =====
-- The wrapper's answer, written to the shared buffer. An answer that does not fit its field is
-- left out, and the field stays empty.
pub mod Laws
use capstone_2025_team.Base.{ℕ, Option, some, length, ltb, ◌-◌, if◌then◌else◌, ◌>>=◌, none, Bytes}
use capstone_2025_team.Memory.{Buffer, memset, strncpy}
use capstone_2025_team.Message.{WrapperMessage, value_of, acknowledgement_of}
use capstone_2025_team.Session.{arguments_size, val_size, ack_size, value_at}

-- A text goes to the field of `size` bytes at p, if it fits.
unfoldable pub put_text : Buffer → ℕ → Bytes → ℕ → Option Buffer
unfolding memset strncpy
put_text shared p text size = do
  zeroed ← memset shared 0 0 arguments_size
  if ltb (length text) size then strncpy zeroed p text (size - 1) else some zeroed

unfoldable pub answer_get : Buffer → WrapperMessage → Option Buffer
unfolding put_text
answer_get shared msg = put_text shared value_at (value_of msg) val_size

unfoldable pub answer_put : Buffer → WrapperMessage → Option Buffer
unfolding put_text
answer_put shared msg = put_text shared 0 (acknowledgement_of msg) ack_size
