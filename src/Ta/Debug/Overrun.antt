-- ===== src/Ta/Debug/Overrun.antt =====
-- The hex dump writes its last NUL behind its buffer.
use capstone_2025_team.Base.{
  ℕ, zero, suc, ap, ◌+◌, ◌-◌, ◌*◌, ◌≤◌, ◌≡◌, refl, ◌∙◌, Option, none, some, [], ◌∷◌, ◌++◌, take,
  take-of-le, Bytes, length, arith,
}
use capstone_2025_team.Memory.{Buffer, of_list, memcpy, moved, store}
use capstone_2025_team.Ta.Debug.{hex_text, snprintf_hex, print_bytes, print_byte_array}

-- What malloc gives has the size that was asked for.
abbrev pub Allocates : (ℕ → Option Buffer) → Type 0
Allocates malloc = (n : ℕ) (b : Buffer) → malloc n ≡ some b → b.size ≡ n

-- Two digits and a NUL.
abbrev hex_start : ℕ → Bytes
hex_start c = take 2 (hex_text c) ++ (0 ∷ [])

-- With room for one more byte of the dump, snprintf writes inside the buffer.
snprintf_hex-runs :
    (b : Buffer) (p n c : ℕ)
    → 3 ≤ n
    → p + n ≤ b.size
    → (b' : Buffer) × (snprintf_hex b p n c ≡ some (3, b')) × (b'.size ≡ b.size)
unfolding snprintf_hex memcpy moved of_list
snprintf_hex-runs b p zero c some_room h = absurd (omega (arith, some_room))
snprintf_hex-runs b p (suc zero) c some_room h = absurd (omega (arith, some_room))
snprintf_hex-runs b p (suc (suc zero)) c some_room h = absurd (omega (arith, some_room))
snprintf_hex-runs b p (suc (suc (suc zero))) c some_room h =
    (moved b p (of_list 3 (hex_start c)) 0 3, ground arith, refl)
snprintf_hex-runs b p (suc (suc (suc (suc n)))) c some_room h = (
  moved b p (of_list 4 (hex_text c ++ (0 ∷ []))) 0 4,
  rw (take-of-le (suc (suc (suc (suc n))) - 1) (hex_text c) (omega arith)) (ground arith),
  refl,
)

-- The loop ends behind the last byte of a buffer that the dump fills.
print_bytes-runs :
    (b : Buffer) (cursor : ℕ) (cs : Bytes)
    → cursor + 3 * length cs ≡ b.size
    → (b' : Buffer) × (print_bytes b b.size cursor cs ≡ some (b.size, b')) × (b'.size ≡ b.size)
unfolding print_bytes
print_bytes-runs b cursor [] ends = (b, ap (λ (e : ℕ). some (e, b)) (omega (arith, ends)), refl)
print_bytes-runs b cursor (c ∷ cs) ends =
    let (b1, wrote, kept) =
      snprintf_hex-runs b cursor (b.size - cursor) c (omega (arith, ends)) (omega (arith, ends)) in
    let (b2, run, kept2) = print_bytes-runs b1 (cursor + 3) cs (omega (arith, ends, kept)) in
    (b2, rw wrote (rw kept at run), kept2 ∙ kept)

store_outside : (b : Buffer) (i : ℕ) → b.size ≤ i → store b i 0 ≡ none
unfolding store
store_outside b i h = ground arith

-- For a malloc that gives buffers of the size that was asked for, and gives one here: the loop
-- of the hex dump writes inside the buffer and ends with its cursor behind the last byte, and
-- the store of the last NUL there is out of bounds, so that the dump faults.
pub print_byte_array-overrun :
    (malloc : ℕ → Option Buffer) (byte_array : Bytes) (buffer : Buffer)
    → Allocates malloc
    → malloc (2 * length byte_array + length byte_array) ≡ some buffer
    → (printed : Buffer) × (print_bytes buffer buffer.size 0 byte_array
        ≡ some (buffer.size, printed))
      × (store printed buffer.size 0 ≡ none)
      × (print_byte_array malloc byte_array ≡ none)
unfolding print_byte_array
print_byte_array-overrun malloc byte_array buffer sized given =
    let n = 2 * length byte_array + length byte_array in
    let size : buffer.size ≡ n = sized n buffer given in
    let (printed, run, kept) = print_bytes-runs buffer 0 byte_array (omega (arith, size)) in
    let past : store printed buffer.size 0 ≡ none =
      store_outside printed buffer.size (omega (arith, kept)) in
    (printed, run, past, rw (given, ← size, run) past)
