-- ===== src/Proxy/Answer/Laws.antt =====
-- The TA reads in the shared buffer the value that the wrapper sent, if it is shorter than its
-- field, and an empty one if not.
use capstone_2025_team.Base.{
  ℕ, ◌+◌, ◌-◌, ◌≤◌, ◌<◌, ◌≡◌, ap, ◌∙◌, false, some, [], Bytes, length, take, until_nul, ltb,
  if◌then◌else◌, arith, inl, inr, Bool-cases, take-of-le, ltb→lt, length-until_nul,
  until_nul-NulFree, until_nul_of_NulFree, le→leb, lt→ltb, until_nul-zeros,
}
use capstone_2025_team.Memory.{Buffer, c_string, filled, moved, of_list, strncpy}
use capstone_2025_team.Memory.Copies.{
  size-filled, size-moved, byte-filled, byte-filled_outside, byte-moved_outside, bytes-of_list,
  memset_lem, bytes-filled_inside,
}
use capstone_2025_team.Memory.Strings.{c_string-moved-filled}
use capstone_2025_team.Message.{WrapperMessage, value_of}
use capstone_2025_team.Session.{arguments_size, val_size, value_at}
use capstone_2025_team.Proxy.Answer.{put_text, answer_get}

-- What of a text fits a field.
abbrev pub fitting : Bytes → ℕ → Bytes
fitting text size = if ltb (length text) size then until_nul text else []

module _ (b : Buffer) (p : ℕ) (text : Bytes) (size : ℕ) (some_size : 0 < size) where
  abbrev pasted : Buffer
  pasted =
      let s = until_nul text in
      moved (filled b p 0 (size - 1)) p (of_list (length s) s) 0 (length s)

  strncpy_lem : length text < size → p + size ≤ b.size → strncpy b p text (size - 1) ≡ some pasted
  unfolding strncpy
  strncpy_lem h room =
      let whole : take (size - 1) (until_nul text) ≡ until_nul text =
        take-of-le (size - 1) (until_nul text) (omega (arith, length-until_nul text)) in
      rw (whole, le→leb (p + (size - 1)) b.size (omega arith))

  text-pasted : length text < size → c_string pasted p (size - 1) ≡ until_nul text
  text-pasted h =
      let s = until_nul text in
      c_string-moved-filled b p (size - 1) (of_list (length s) s) 0 (length s)
        (omega (arith, length-until_nul text))
      ∙ ap until_nul (bytes-of_list (length s) s (length s) (omega arith))
      ∙ ap until_nul (take-of-le (length s) s (omega arith))
      ∙ until_nul_of_NulFree s (until_nul-NulFree text)

-- The buffer has the size that it had to have, the field shows the text, and a NUL ends it.
abbrev pub Pasted : Buffer → ℕ → Bytes → ℕ → Type 0
Pasted b p text size =
    (b.size ≡ arguments_size)
    × (c_string b p (size - 1) ≡ fitting text size)
    × (b.byte (p + (size - 1)) ≡ 0)

module _ (shared : Buffer) (p : ℕ) (text : Bytes) (size : ℕ) (some_size : 0 < size)
    (sized : shared.size ≡ arguments_size) (room : p + size ≤ arguments_size) where
  abbrev zeroed : Buffer
  zeroed = filled shared 0 0 arguments_size

  zeroed_at : (i : ℕ) → i < arguments_size → zeroed.byte i ≡ 0
  zeroed_at i h = byte-filled shared 0 0 arguments_size i (omega arith) (omega arith)

  size-zeroed : zeroed.size ≡ arguments_size
  size-zeroed = size-filled shared 0 0 arguments_size ∙ sized

  pasted-Pasted : length text < size → Pasted (pasted zeroed p text size some_size) p text size
  pasted-Pasted h = (
    size-moved (filled zeroed p 0 (size - 1)) p (of_list (length (until_nul text)) (until_nul text))
          0 (length (until_nul text))
        ∙ size-filled zeroed p 0 (size - 1)
        ∙ size-zeroed,
    rw (lt→ltb (length text) size h) (text-pasted zeroed p text size some_size h),
    last,
  )
    where
      last : (pasted zeroed p text size some_size).byte (p + (size - 1)) ≡ 0
      last =
          byte-moved_outside (filled zeroed p 0 (size - 1)) p
            (of_list (length (until_nul text)) (until_nul text)) 0 (length (until_nul text))
            (p + (size - 1)) (inl (omega (arith, length-until_nul text)))
          ∙ byte-filled_outside zeroed p 0 (size - 1) (p + (size - 1)) (inl (omega arith))
          ∙ zeroed_at (p + (size - 1)) (omega arith)

  zeroed-Pasted : ltb (length text) size ≡ false → Pasted zeroed p text size
  zeroed-Pasted h = (
    size-zeroed,
    rw h (
        ap until_nul
          (bytes-filled_inside shared 0 0 arguments_size p (size - 1) (omega arith) (omega arith))
        ∙ until_nul-zeros [] (size - 1)),
    zeroed_at (p + (size - 1)) (omega arith),
  )

  pub put_text-Pasted : (b : Buffer) × (put_text shared p text size ≡ some b) × Pasted b p text size
  unfolding put_text
  put_text-Pasted = elim (Bool-cases (ltb (length text) size)) [
    | inl short ↦
        let h = ltb→lt (length text) size short in
        (
          pasted zeroed p text size some_size,
          rw (memset_lem shared 0 0 arguments_size (omega arith), short)
              (strncpy_lem zeroed p text size some_size h (rw size-zeroed room)),
          pasted-Pasted h,
        )
    | inr long ↦
        (zeroed, rw (memset_lem shared 0 0 arguments_size (omega arith), long), zeroed-Pasted long)
  ]

-- In a shared buffer of the size of `struct arguments` the answer to a read is written without a
-- fault, and the size stays. The value field then shows the value up to its first NUL, or
-- nothing if the value has 256 bytes or more, and its last byte is a NUL.
pub answer_get-Pasted :
    (shared : Buffer) (msg : WrapperMessage)
    → shared.size ≡ arguments_size
    → (b : Buffer) × (answer_get shared msg ≡ some b) × Pasted b value_at (value_of msg) val_size
unfolding answer_get
answer_get-Pasted shared msg sized =
    put_text-Pasted shared value_at (value_of msg) val_size (omega arith) sized (omega arith)
