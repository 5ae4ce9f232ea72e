-- ===== src/Memory/Copies.antt =====
-- What a fill or a copy leaves at a range of bytes.
use capstone_2025_team.Base.{
  ℕ, zero, suc, [], some, le→leb, Bytes, get_or, ◌+◌, ◌-◌, ◌≤◌, ◌<◌, ◌≡◌, ◌⊎◌, inl, refl, ap, ◌∙◌,
  ◌∷◌, ◌++◌, arith, length, replicate, take,
}
use capstone_2025_team.Memory.{Buffer, bytes, filled, moved, of_list, memset, SameOutside}
use mathlib.Core.Path.{ap₂}

-- Ranges that hold the same bytes, position by position.
pub bytes_ext :
    (b c : Buffer) (p q n : ℕ)
    → ((i : ℕ) → i < n → b.byte (p + i) ≡ c.byte (q + i))
    → bytes b p n ≡ bytes c q n
bytes_ext b c p q zero h = refl
bytes_ext b c p q (suc n) h =
    ap₂ ◌∷◌ (ground (arith, h 0))
      (bytes_ext b c (suc p) (suc q) n (λ i lt. ground (arith, h (suc i))))

pub bytes-append : (b : Buffer) (p m n : ℕ) → bytes b p (m + n) ≡ bytes b p m ++ bytes b (p + m) n
bytes-append b p zero n =
    let none : p + 0 ≡ p = omega arith in let all : 0 + n ≡ n = omega arith in rw (none, all)
bytes-append b p (suc m) n =
    let shift : p + suc m ≡ suc p + m = omega arith in
    let count : suc m + n ≡ suc (m + n) = omega arith in
    rw (count, shift) (ap (λ t. b.byte p ∷ t) (bytes-append b (suc p) m n))

pub length-bytes : (b : Buffer) (p n : ℕ) → length (bytes b p n) ≡ n
length-bytes b p zero = refl
length-bytes b p (suc n) = ap suc (length-bytes b (suc p) n)

pub take-bytes : (k : ℕ) (b : Buffer) (p n : ℕ) → k ≤ n → take k (bytes b p n) ≡ bytes b p k
take-bytes zero b p n h = refl
take-bytes (suc k) b p zero h = absurd (omega arith)
take-bytes (suc k) b p (suc n) h = ap (λ t. b.byte p ∷ t) (take-bytes k b (suc p) n (omega arith))

bytes_const :
    (b : Buffer) (p c n : ℕ) → ((i : ℕ) → i < n → b.byte (p + i) ≡ c) → bytes b p n ≡ replicate n c
bytes_const b p c zero h = refl
bytes_const b p c (suc n) h =
    ap₂ ◌∷◌ (ground (arith, h 0)) (bytes_const b (suc p) c n (λ i lt. ground (arith, h (suc i))))

-- Ranges apart from one another.
abbrev pub Apart : ℕ → ℕ → ℕ → ℕ → Type 0
Apart p m q n = (p + m ≤ q) ⊎ (q + n ≤ p)

pub bytes-filled : (b : Buffer) (p c n : ℕ) → bytes (filled b p c n) p n ≡ replicate n c
unfolding filled
bytes-filled b p c n = bytes_const (filled b p c n) p c n (λ i lt. ground arith)

-- A part of the filled range.
pub bytes-filled_inside :
    (b : Buffer) (p c n q k : ℕ)
    → p ≤ q
    → q + k ≤ p + n
    → bytes (filled b p c n) q k ≡ replicate k c
unfolding filled
bytes-filled_inside b p c n q k h h' = bytes_const (filled b p c n) q c k (λ i lt. ground arith)

pub bytes-filled_outside :
    (b : Buffer) (p c n q k : ℕ) → Apart p n q k → bytes (filled b p c n) q k ≡ bytes b q k
unfolding filled
bytes-filled_outside b p c n q k h = bytes_ext (filled b p c n) b q q k (λ i lt. ground arith)

pub bytes-moved :
    (d : Buffer) (p : ℕ) (s : Buffer) (q n : ℕ) → bytes (moved d p s q n) p n ≡ bytes s q n
unfolding moved
bytes-moved d p s q n = bytes_ext (moved d p s q n) s p q n (λ i lt. ground arith)

pub bytes-moved_outside :
    (d : Buffer) (p : ℕ) (s : Buffer) (q n r k : ℕ)
    → Apart p n r k
    → bytes (moved d p s q n) r k ≡ bytes d r k
unfolding moved
bytes-moved_outside d p s q n r k h = bytes_ext (moved d p s q n) d r r k (λ i lt. ground arith)

-- Zeroing n bytes and copying the first k of them over: the copied bytes, and zeros.
pub bytes-moved-filled :
    (d : Buffer) (p n : ℕ) (s : Buffer) (q k : ℕ)
    → k ≤ n
    → bytes (moved (filled d p 0 n) p s q k) p n ≡ bytes s q k ++ replicate (n - k) 0
bytes-moved-filled d p n s q k h =
    let e : n ≡ k + (n - k) = omega arith in
    ap (bytes (moved (filled d p 0 n) p s q k) p) e
    ∙ bytes-append (moved (filled d p 0 n) p s q k) p k (n - k)
    ∙ ap₂ ◌++◌ (bytes-moved (filled d p 0 n) p s q k) (
        bytes-moved_outside (filled d p 0 n) p s q k (p + k) (n - k) (inl (omega arith))
        ∙ bytes-filled_inside d p 0 n (p + k) (n - k) (omega arith) (omega arith))

pub size-filled : (b : Buffer) (p c n : ℕ) → (filled b p c n).size ≡ b.size
unfolding filled
size-filled b p c n = refl

pub size-moved : (d : Buffer) (p : ℕ) (s : Buffer) (q n : ℕ) → (moved d p s q n).size ≡ d.size
unfolding moved
size-moved d p s q n = refl

pub byte-filled : (b : Buffer) (p c n i : ℕ) → p ≤ i → i < p + n → (filled b p c n).byte i ≡ c
unfolding filled
byte-filled b p c n i h h' = ground arith

pub byte-moved_outside :
    (d : Buffer) (p : ℕ) (s : Buffer) (q n i : ℕ)
    → Apart p n i 1
    → (moved d p s q n).byte i ≡ d.byte i
unfolding moved
byte-moved_outside d p s q n i h = ground arith

pub moved-filled-SameOutside :
    (d : Buffer) (p n : ℕ) (s : Buffer) (q k : ℕ)
    → k ≤ n
    → SameOutside p n (moved (filled d p 0 n) p s q k) d
unfolding moved filled
moved-filled-SameOutside d p n s q k h a = ground arith

bytes-of_list_shift :
    (k x : ℕ) (s : Bytes) (p n : ℕ) → bytes (of_list k (x ∷ s)) (suc p) n ≡ bytes (of_list k s) p n
unfolding of_list
bytes-of_list_shift k x s p zero = refl
bytes-of_list_shift k x s p (suc n) =
    ap (λ t. get_or s p 0 ∷ t) (bytes-of_list_shift k x s (suc p) n)

-- The bytes of an array made of a list.
pub bytes-of_list : (k : ℕ) (s : Bytes) (n : ℕ) → n ≤ length s → bytes (of_list k s) 0 n ≡ take n s
bytes-of_list k [] zero h = refl
bytes-of_list k (x ∷ s) zero h = refl
bytes-of_list k [] (suc n) h = absurd (omega arith)
bytes-of_list k (x ∷ s) (suc n) h =
    ap₂ ◌∷◌ (unfold of_list in refl)
      (bytes-of_list_shift k x s 0 n ∙ bytes-of_list k s n (omega arith))

pub memset_lem : (b : Buffer) (p c n : ℕ) → p + n ≤ b.size → memset b p c n ≡ some (filled b p c n)
unfolding memset
memset_lem b p c n h = rw (le→leb (p + n) b.size h)

pub byte-filled_outside :
    (b : Buffer) (p c n i : ℕ) → Apart p n i 1 → (filled b p c n).byte i ≡ b.byte i
unfolding filled
byte-filled_outside b p c n i h = ground arith
