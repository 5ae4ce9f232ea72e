-- ===== src/Proxy/Arguments/Laws.antt =====
-- Each row holds its text, cut at its first NUL or at 63 bytes, and a NUL.
use capstone_2025_team.Base.{
  ℕ, suc, ◌+◌, ◌-◌, ◌≤◌, ◌<◌, ◌≡◌, ◌≢◌, refl, ap, ◌∙◌, ◌&&◌, some, List, [], ◌∷◌, Bytes, length,
  take, until_nul, get_or, leb, ltb, ◌==◌, if◌then◌else◌, arith, inl, inr, Bool-cases, length-take,
  ltb→lt, get_or-beyond, ◌⊎◌,
}
use capstone_2025_team.Memory.{Buffer, bytes, c_string, filled, moved, of_list}
use capstone_2025_team.Memory.Copies.{
  bytes_ext, bytes-moved, bytes-of_list, bytes-filled_inside, size-filled, byte-filled, memset_lem,
}
use capstone_2025_team.Memory.Strings.{c_string_ended}
use capstone_2025_team.Session.{args_number, arguments_size, row_at}
use capstone_2025_team.Proxy.Arguments.{row_length, put_row, put_rows, write_arguments}

-- What a row shows of a text.
abbrev pub row_text : Bytes → Bytes
row_text text = until_nul (take (row_length text) text)

pub row_length_bounds : (text : Bytes) → (row_length text ≤ 63) × (row_length text ≤ length text)
unfolding row_length
row_length_bounds text = ground arith

module _ (b : Buffer) (i : ℕ) (text : Bytes) where
  copied : Buffer
  copied = moved b (row_at i) (of_list (suc (length text)) text) 0 (row_length text)

  rowed : Buffer
  rowed = record {
    size = b.size;
    byte = λ a. if a == row_at i + row_length text then 0 else copied.byte a;
  }

  put_row_lem : b.size ≡ arguments_size → i < args_number → put_row b i text ≡ some rowed
  unfolding put_row rowed copied row_length
  put_row_lem h h' = ground arith

  nul-rowed : rowed.byte (row_at i + row_length text) ≡ 0
  unfolding rowed
  nul-rowed = ground arith

  bytes-copied :
      bytes copied (row_at i) (row_length text)
      ≡ bytes (of_list (suc (length text)) text) 0 (row_length text)
  unfolding copied
  bytes-copied = bytes-moved b (row_at i) (of_list (suc (length text)) text) 0 (row_length text)

  front-rowed : c_string rowed (row_at i) (row_length text) ≡ row_text text
  unfolding rowed
  front-rowed = ap until_nul (
      bytes_ext rowed copied (row_at i) (row_at i) (row_length text) (λ k lt. ground arith)
      ∙ bytes-copied
      ∙ bytes-of_list (suc (length text)) text (row_length text) (row_length_bounds text).1)

  text-rowed : c_string rowed (row_at i) 63 ≡ row_text text
  text-rowed = elim (Bool-cases (ltb (row_length text) 63)) [
    | inl short ↦
        c_string_ended rowed (row_at i) (row_length text) 63 nul-rowed (ltb→lt _ _ short)
        ∙ front-rowed
    | inr full ↦
        let cut : 63 ≡ row_length text = ground (arith, row_length_bounds text) in
        ap (c_string rowed (row_at i)) cut ∙ front-rowed
  ]

  other-rowed : (j : ℕ) → j ≢ i → c_string rowed (row_at j) 63 ≡ c_string b (row_at j) 63
  unfolding rowed copied moved
  other-rowed j h =
      ap until_nul (
        bytes_ext rowed b (row_at j) (row_at j) 63 (λ k lt. ground (arith, row_length_bounds text)))

  ends-rowed : (j : ℕ) → b.byte (row_at j + 63) ≡ 0 → rowed.byte (row_at j + 63) ≡ 0
  unfolding rowed copied moved
  ends-rowed j h = ground (arith, row_length_bounds text)

-- What the rows hold behind the rows from i on were written.
abbrev expected : Buffer → ℕ → List Bytes → ℕ → Bytes
expected b i texts j =
    if leb i j && ltb j (i + length texts)
    then row_text (get_or texts (j - i) [])
    else c_string b (row_at j) 63

-- The rows are the expected ones, and each ends in a NUL.
abbrev pub Written : Buffer → (ℕ → Bytes) → Type 0
Written b rows =
    (b.size ≡ arguments_size)
    × ((j : ℕ) → j < args_number → c_string b (row_at j) 63 ≡ rows j)
    × ((j : ℕ) → j < args_number → b.byte (row_at j + 63) ≡ 0)

expected-here :
    (b : Buffer) (i : ℕ) (text : Bytes) (texts : List Bytes)
    → expected (rowed b i text) (suc i) texts i ≡ expected b i (text ∷ texts) i
expected-here b i text texts =
    let first : i - i ≡ 0 = omega arith in
    let held = text-rowed b i text in rw first (ground (arith, held))

expected-later :
    (b : Buffer) (i : ℕ) (text : Bytes) (texts : List Bytes) (j : ℕ)
    → i < j
    → expected (rowed b i text) (suc i) texts j ≡ expected b i (text ∷ texts) j
expected-later b i text texts j h =
    let next : j - i ≡ suc (j - suc i) = omega arith in
    rw next (ground (arith, other-rowed b i text j))

expected-before :
    (b : Buffer) (i : ℕ) (text : Bytes) (texts : List Bytes) (j : ℕ)
    → j < i
    → expected (rowed b i text) (suc i) texts j ≡ expected b i (text ∷ texts) j
expected-before b i text texts j h = ground (arith, other-rowed b i text j)

expected-rowed :
    (b : Buffer) (i : ℕ) (text : Bytes) (texts : List Bytes) (j : ℕ)
    → expected (rowed b i text) (suc i) texts j ≡ expected b i (text ∷ texts) j
expected-rowed b i text texts j = elim (trichotomy i j) [
  | inl same ↦ rw (← same) (expected-here b i text texts)
  | inr (inl h) ↦ expected-later b i text texts j h
  | inr (inr h) ↦ expected-before b i text texts j h
]
  where
    trichotomy : (a c : ℕ) → (a ≡ c) ⊎ ((a < c) ⊎ (c < a))
    trichotomy a c = grind arith

put_rows_lem :
    (b : Buffer) (i : ℕ) (texts : List Bytes)
    → b.size ≡ arguments_size
    → ((j : ℕ) → j < args_number → b.byte (row_at j + 63) ≡ 0)
    → i + length texts ≤ args_number
    → (b' : Buffer) × (put_rows b i texts ≡ some b') × Written b' (expected b i texts)
unfolding put_rows
put_rows_lem b i [] size ends room = (b, refl, (size, λ j lt. ground arith, ends))
put_rows_lem b i (text ∷ texts) size ends room =
    let (b', run, (size', rows, ends')) =
      put_rows_lem (rowed b i text) (suc i) texts (unfold rowed in size)
        (λ j h. ends-rowed b i text j (ends j h)) (omega arith) in
    (
      b',
      rw (put_row_lem b i text size (omega arith)) run,
      (size', λ j lt. rows j lt ∙ expected-rowed b i text texts j, ends'),
    )

-- What the proxy means row j to hold: the function, then at most nine arguments.
abbrev pub meant : Bytes → List Bytes → ℕ → Bytes
meant function args j = row_text (get_or (function ∷ take (args_number - 1) args) j [])

zeroed_row :
    (b : Buffer) (j : ℕ)
    → j < args_number
    → c_string (filled b 0 0 arguments_size) (row_at j) 63 ≡ []
zeroed_row b j h =
    ap until_nul
      (bytes-filled_inside b 0 0 arguments_size (row_at j) 63 (omega arith) (omega arith))

row_text-nil : row_text [] ≡ []
unfolding row_length
row_text-nil = refl

expected-zeroed :
    (b : Buffer) (texts : List Bytes) (j : ℕ)
    → j < args_number
    → expected (filled b 0 0 arguments_size) 0 texts j ≡ row_text (get_or texts j [])
expected-zeroed b texts j h =
    let same : j - 0 ≡ j = omega arith in
    rw same (ground (arith, get_or-beyond texts j [], zeroed_row b j h, row_text-nil))

-- In a buffer of the size of `struct arguments`, `write_arguments` makes no write outside. Row 0
-- then shows the function's name and the rows behind it the first nine arguments, each cut at 63
-- bytes and at its first NUL; the other rows are empty, every row ends in a NUL, and the size
-- stays.
pub write_arguments_lem :
    (b : Buffer) (function : Bytes) (args : List Bytes)
    → b.size ≡ arguments_size
    → (b' : Buffer) × (write_arguments b function args ≡ some b') × Written b' (meant function args)
unfolding write_arguments put_rows
write_arguments_lem b function args size =
    let zeroed = filled b 0 0 arguments_size in
    let short : 0 + length (function ∷ take 9 args) ≤ 10 = omega (arith, length-take 9 args) in
    let (b', run, (size', rows, ends)) =
      put_rows_lem zeroed 0 (function ∷ take 9 args) (size-filled b 0 0 arguments_size ∙ size)
        (λ j h. byte-filled b 0 0 arguments_size (row_at j + 63) (omega arith) (omega arith))
        short in
    (
      b',
      rw (memset_lem b 0 0 arguments_size (omega arith)) run,
      (size', λ j h. rows j h ∙ expected-zeroed b (function ∷ take 9 args) j h, ends),
    )
