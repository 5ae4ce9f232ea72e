-- ===== src/Ta/Debug.antt =====
-- The debugging aids of the TA: the trace line of logging.h, and the hex dump of wasm.c, which is
-- there when messages of level TRACE_DEBUG are.
pub mod Overrun
use capstone_2025_team.Base.{
  ℕ, zero, suc, ◌+◌, ◌-◌, ◌*◌, ◌/◌, ◌%◌, Bool, not, Option, none, some, List, [], ◌∷◌, ◌++◌, Bytes,
  codes, length, take, ltb, leb, ◌==◌, if◌then◌else◌, ◌>>=◌,
}
use capstone_2025_team.Memory.{Buffer, of_list, memcpy, store}

-- `trace_printf_helper`: the text in front of every message.
abbrev pub trace_line : Bytes → Bytes
trace_line message = codes "[ATTESTER] " ++ message

-- TRACE_DEBUG, and whether DEBUG_MESSAGE is defined.
abbrev pub debug_message : ℕ → Bool
debug_message trace_level = not (ltb trace_level 3)

abbrev hex_digit : ℕ → ℕ
hex_digit d = if ltb d 10 then b'0' + d else b'a' + (d - 10)

-- The text of "%02x " for a byte.
abbrev pub hex_text : ℕ → Bytes
hex_text c = hex_digit (c / 16 % 16) ∷ hex_digit (c % 16) ∷ b' ' ∷ []

-- snprintf(b + p, n, "%02x ", c) writes at most n - 1 of the three characters, and a NUL; it
-- returns 3 however many it wrote.
unfoldable pub snprintf_hex : Buffer → ℕ → ℕ → ℕ → Option (ℕ × Buffer)
unfolding memcpy of_list
snprintf_hex b p n c =
    let text = take (n - 1) (hex_text c) ++ (0 ∷ []) in
    if n == 0
    then some (3, b)
    else (do b' ← memcpy b p (of_list (length text) text) 0 (length text); some (3, b'))

-- The loop over the bytes; `cursor` is `buffer_cursor`.
unfoldable pub print_bytes : Buffer → ℕ → ℕ → Bytes → Option (ℕ × Buffer)
unfolding snprintf_hex
print_bytes buffer buffer_len cursor [] = some (cursor, buffer)
print_bytes buffer buffer_len cursor (c ∷ cs) = do
  (n, buffer') ← snprintf_hex buffer cursor (buffer_len - cursor) c
  print_bytes buffer' buffer_len (cursor + n) cs

-- UINT8_DIGIT_MAX_SIZE
abbrev pub uint8_digit_max_size : ℕ
uint8_digit_max_size = 2

-- `utils_print_byte_array`, with what TEE_Malloc gave (`none`: NULL). The buffer is freed at the
-- end, and the dump is not printed.
unfoldable pub print_byte_array : (ℕ → Option Buffer) → Bytes → Option Buffer
unfolding print_bytes store
print_byte_array malloc byte_array = do
  let buffer_len = uint8_digit_max_size * length byte_array + length byte_array
  buffer ← malloc buffer_len
  (cursor, printed) ← print_bytes buffer buffer_len 0 byte_array
  store printed cursor 0
