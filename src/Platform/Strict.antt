-- ===== src/Platform/Strict.antt =====
-- A platform that does what is documented and nothing more: it faults outside the arrays.
use capstone_2025_team.Base.{
  ℕ, ◌+◌, ◌≤◌, ◌<◌, ◌≡◌, ◌&&◌, Bool, true, false, Option, none, some, leb, ltb, if◌then◌else◌,
  arith,
}
use capstone_2025_team.Memory.{Buffer, filled, moved}
use capstone_2025_team.Platform.{Platform}

unfoldable pub fill : Buffer → ℕ → ℕ → ℕ → Option Buffer
fill b p c n = if leb (p + n) b.size then some (filled b p c n) else none

unfoldable pub move : Buffer → ℕ → Buffer → ℕ → ℕ → Option Buffer
move d p s q n = if leb (p + n) d.size && leb (q + n) s.size then some (moved d p s q n) else none

validate : Option Buffer → ℕ → ℕ → Bool
validate none p n = false
validate (some m) p n = leb (p + n) m.size

native : Option Buffer → ℕ → Option ℕ
native none p = none
native (some m) p = if ltb p m.size then some p else none

fill_lem : (b : Buffer) (p c n : ℕ) → p + n ≤ b.size → fill b p c n ≡ some (filled b p c n)
unfolding fill
fill_lem b p c n h = ground arith

move_lem :
    (d : Buffer) (p : ℕ) (s : Buffer) (q n : ℕ)
    → p + n ≤ d.size
    → q + n ≤ s.size
    → move d p s q n ≡ some (moved d p s q n)
unfolding move
move_lem d p s q n h h' = ground arith

validate_sound_lem : (m : Buffer) (p n : ℕ) → validate (some m) p n ≡ true → p + n ≤ m.size
unfolding validate
validate_sound_lem m p n h = ground arith

validate_complete_lem : (m : Buffer) (p n : ℕ) → p + n ≤ m.size → validate (some m) p n ≡ true
unfolding validate
validate_complete_lem m p n h = ground arith

native_sound_lem : (m : Buffer) (p q : ℕ) → native (some m) p ≡ some q → (q ≡ p) × (p < m.size)
unfolding native
native_sound_lem m p q h = ground arith

native_complete_lem : (m : Buffer) (p : ℕ) → 0 < p → p < m.size → native (some m) p ≡ some p
unfolding native
native_complete_lem m p h h' = ground arith

unfoldable pub strict : Platform
unfolding fill move validate native fill_lem move_lem validate_sound_lem validate_complete_lem
    native_sound_lem native_complete_lem
strict = record {
  mem_fill = fill;
  mem_move = move;
  validate_app_addr = validate;
  addr_app_to_native = native;
  mem_fill_lem = fill_lem;
  mem_move_lem = move_lem;
  validate_sound = validate_sound_lem;
  validate_complete = validate_complete_lem;
  native_sound = native_sound_lem;
  native_complete = native_complete_lem;
}
