-- ===== src/Native/Copying.antt =====
-- The two ways in which the native functions copy: a string out to the chaincode's memory, and
-- bytes of that memory into the session. Nothing leaves its array, and what is copied.
use capstone_2025_team.Base.{
  ℕ, zero, suc, ◌+◌, ◌-◌, ◌≤◌, ◌<◌, ◌≡◌, refl, ap, ◌∙◌, false, Option, none, some, ℤ, pos, negsuc,
  le_zero, pos_part, cap_at, ltb, ◌==◌, if◌then◌else◌, arith, length, take, to_u32, IsInt32, ◌%◌,
  ◌^◌, until_nul, until_nul-zeros, [],
}
use capstone_2025_team.Memory.{Buffer, bytes, c_string, filled, moved, SameOutside}
use capstone_2025_team.Memory.Copies.{bytes_ext, bytes-filled}
use capstone_2025_team.Memory.Strings.{
  safe_strlen_terminated, c_string-moved-filled, length-take-c_string,
}
use capstone_2025_team.Platform.{Platform}
use capstone_2025_team.Native.{World, to_native, fill_copy, hand_out, take_in}

-- Zeroed, then k bytes of s copied in; for k = 0 there is no copy.
abbrev pub copied_in : Buffer → ℕ → ℕ → Buffer → ℕ → ℕ → Buffer
copied_in d at n s q k = if ltb 0 k then moved (filled d at 0 n) at s q k else filled d at 0 n

module _ (d : Buffer) (at n : ℕ) (s : Buffer) (q k : ℕ) where
  pub size-copied_in : (copied_in d at n s q k).size ≡ d.size
  unfolding moved filled
  size-copied_in = ground arith

  -- With no copy the zeroed array is the one with an empty copy, byte by byte.
  bytes-copied_in-moved :
      (r j : ℕ) → bytes (copied_in d at n s q k) r j ≡ bytes (moved (filled d at 0 n) at s q k) r j
  unfolding moved filled
  bytes-copied_in-moved r j =
      bytes_ext (copied_in d at n s q k) (moved (filled d at 0 n) at s q k) r r j
        (λ i lt. ground arith)

  pub c_string-copied_in : k ≤ n → c_string (copied_in d at n s q k) at n ≡ c_string s q k
  c_string-copied_in h =
      ap until_nul (bytes-copied_in-moved at n) ∙ c_string-moved-filled d at n s q k h

  -- The bytes outside the n at `at` stay.
  pub copied_in-SameOutside : k ≤ n → SameOutside at n (copied_in d at n s q k) d
  unfolding moved filled
  copied_in-SameOutside h a = ground arith

module _ (p : Platform) where
  pub fill_copy_lem :
      (d : Buffer) (at n : ℕ) (s : Buffer) (q k : ℕ)
      → at + n ≤ d.size
      → k ≤ n
      → q + k ≤ s.size
      → fill_copy p d at n s q k ≡ some (copied_in d at n s q k)
  unfolding fill_copy filled
  fill_copy_lem d at n s q k h h' h'' =
      ground (arith, p.mem_fill_lem d at 0 n, p.mem_move_lem (filled d at 0 n) at s q k)

  -- A pointer that `to_native` returns for a positive size points at that many bytes.
  pub to_native_sound :
      (m : Buffer) (off n q : ℕ)
      → to_native p (some m) off n ≡ some q
      → 0 < n
      → (q ≡ off) × (off + n ≤ m.size)
  unfolding to_native
  to_native_sound m off n q e h = ground (arith, p.validate_sound m off n, p.native_sound m off q)

  pub to_native_complete :
      (m : Buffer) (off n : ℕ)
      → 0 < off
      → 0 < n
      → off + n ≤ m.size
      → to_native p (some m) off n ≡ some off
  unfolding to_native
  to_native_complete m off n h h' h'' =
      ground (arith, p.validate_complete m off n, p.native_complete m off)

  -- A terminated string is handed out whole or cut at n - 1 bytes.
  pub hand_out_lem :
      (w : World) (m : Buffer) (out n : ℕ) (s : Buffer) (q k : ℕ)
      → w.memory ≡ some m
      → 0 < n
      → out + n ≤ m.size
      → q + k < s.size
      → s.byte (q + k) ≡ 0
      → let len = length (take (n - 1) (c_string s q k)) in
        hand_out p w out n s q
        ≡ some (pos len, record w { memory = some (copied_in m out n s q len) })
  unfolding hand_out
  hand_out_lem w m out n s q k e h h' h'' end =
      let len = length (take (n - 1) (c_string s q k)) in
      ground (
        arith,
        safe_strlen_terminated s q k (n - 1) h'' end,
        length-take-c_string s q k (n - 1),
        fill_copy_lem m out n s q len,
      )

-- Zeroed, then the bytes at q copied in, if there is a source and a positive length.
abbrev pub taken : Buffer → ℕ → Buffer → Option ℕ → ℤ → Buffer
taken dst size m none len = filled dst 0 0 size
taken dst size m (some q) len =
    if le_zero len then filled dst 0 0 size else moved (filled dst 0 0 size) 0 m q (pos_part len)

pub c_string-zeroed : (b : Buffer) (n : ℕ) → c_string (filled b 0 0 n) 0 n ≡ []
c_string-zeroed b n = ap until_nul (bytes-filled b 0 0 n) ∙ until_nul-zeros [] n

-- What was taken in reads as the string in the bytes that were named.
pub c_string-taken :
    (dst : Buffer) (size : ℕ) (m : Buffer) (q : ℕ) (len : ℤ)
    → pos_part len ≤ size
    → c_string (taken dst size m (some q) len) 0 size ≡ c_string m q (pos_part len)
c_string-taken dst size m q (pos zero) h = c_string-zeroed dst size
c_string-taken dst size m q (pos (suc n)) h =
    let some_bytes : (suc n == 0) ≡ false = ground arith in
    rw some_bytes (c_string-moved-filled dst 0 size m q (suc n) h)
c_string-taken dst size m q (negsuc n) h = c_string-zeroed dst size

pub pos_part-cap_at : (z : ℤ) (k : ℕ) → pos_part (cap_at z k) ≤ k
pos_part-cap_at (pos i) k = ground arith
pos_part-cap_at (negsuc i) k = omega arith

pub size-taken :
    (dst : Buffer) (size : ℕ) (m : Buffer) (src : Option ℕ) (len : ℤ)
    → (taken dst size m src len).size ≡ dst.size
unfolding filled moved
size-taken dst size m none len = refl
size-taken dst size m (some q) len = ground arith

-- Behind what was taken in there are zeros.
pub taken_ends :
    (dst : Buffer) (size : ℕ) (m : Buffer) (src : Option ℕ) (len : ℤ) (i : ℕ)
    → pos_part len ≤ i
    → i < size
    → (taken dst size m src len).byte i ≡ 0
unfolding filled moved
taken_ends dst size m none len i h h' = ground arith
taken_ends dst size m (some q) len i h h' = ground arith

module _ (p : Platform) (m : Buffer) where
  take_in_lem :
      (dst : Buffer) (size : ℕ) (src : Option ℕ) (len : ℤ)
      → dst.size ≡ size
      → pos_part len ≤ size
      → ((q : ℕ) → src ≡ some q → le_zero len ≡ false → q + pos_part len ≤ m.size)
      → take_in p dst size (some m) src len ≡ some (taken dst size m src len)
  unfolding take_in filled
  take_in_lem dst size none len e h inside = ground (arith, p.mem_fill_lem dst 0 0 size)
  take_in_lem dst size (some q) len e h inside = ground (
    arith,
    p.mem_fill_lem dst 0 0 size,
    p.mem_move_lem (filled dst 0 0 size) 0 m q (pos_part len),
    inside q,
  )

  -- The bytes that a call names by pointer and length.
  abbrev pub source : ℕ → ℤ → Option ℕ
  source ptr len = to_native p (some m) ptr (to_u32 (pos (pos_part len)))

  source_inside :
      (ptr : ℕ) (len : ℤ) (k : ℕ)
      → IsInt32 len
      → (q : ℕ) → source ptr len ≡ some q
      → le_zero (cap_at len k) ≡ false
      → q + pos_part (cap_at len k) ≤ m.size
  source_inside ptr (pos n) k h q e e' = ground (arith, to_native_sound p m ptr (n % 2 ^ 32) q e)
  source_inside ptr (negsuc n) k h q e e' = cc

  -- What a call names is taken in without a fault, cut at k bytes.
  pub take_in-source :
      (dst : Buffer) (size k : ℕ) (ptr : ℕ) (len : ℤ)
      → dst.size ≡ size
      → k ≤ size
      → IsInt32 len
      → take_in p dst size (some m) (source ptr len) (cap_at len k)
        ≡ some (taken dst size m (source ptr len) (cap_at len k))
  take_in-source dst size k ptr len e h int =
      take_in_lem dst size (source ptr len) (cap_at len k) e (omega (arith, pos_part-cap_at len k))
        (source_inside ptr len k int)
