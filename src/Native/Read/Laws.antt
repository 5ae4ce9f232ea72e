-- ===== src/Native/Read/Laws.antt =====
-- What the chaincode gets for the invocation's function name and arguments.
use capstone_2025_team.Base.{
  ℕ, Bytes, ◌+◌, ◌-◌, ◌^◌, ◌<◌, ◌≤◌, ◌≡◌, refl, none, some, pos, arith, length, take, ◌∙◌,
}
use capstone_2025_team.Memory.{SameOutside, Buffer, c_string}
use capstone_2025_team.Memory.Strings.{c_string_prefix, length-take-c_string, safe_strlen_outside}
use capstone_2025_team.Platform.{Platform}
use capstone_2025_team.Session.{Mailbox, IsWellFormed, RowsEnd, row_at, args_number}
use capstone_2025_team.Native.{world, hand_out}
use capstone_2025_team.Native.Copying.{
  copied_in, c_string-copied_in, copied_in-SameOutside, size-copied_in, hand_out_lem,
}
use capstone_2025_team.Native.Read.{cc_get_function, cc_get_arg}

-- The string of a row, cut to what n bytes can hold.
abbrev pub row_string : Mailbox → ℕ → ℕ → Bytes
row_string sess i n = take (n - 1) (c_string sess.args (row_at i) 63)

-- The string stands in the n bytes at `out`, and no other byte of the memory changed.
abbrev pub Holds : Buffer → ℕ → ℕ → Buffer → Bytes → Type 0
Holds m out n m' str = (c_string m' out n ≡ str) × SameOutside out n m' m × (m'.size ≡ m.size)

module _ (p : Platform) (m : Buffer) (sess : Mailbox) (valid : IsWellFormed sess)
    (ends : RowsEnd sess) (out n : ℕ) where
  pub given : ℕ → Buffer
  given i = copied_in m out n sess.args (row_at i) (length (row_string sess i n))

  pub given-Holds : (i : ℕ) → 0 < n → Holds m out n (given i) (row_string sess i n)
  unfolding given
  given-Holds i h =
      let len = length (row_string sess i n) in
      let fits : len ≤ n = omega (arith, length-take-c_string sess.args (row_at i) 63 (n - 1)) in
      (
        c_string-copied_in m out n sess.args (row_at i) len fits
            ∙ c_string_prefix sess.args (row_at i) 63 (n - 1),
        copied_in-SameOutside m out n sess.args (row_at i) len fits,
        size-copied_in m out n sess.args (row_at i) len,
      )

  pub hand_out-row :
      (i : ℕ)
      → i < args_number
      → 0 < n
      → out + n ≤ m.size
      → hand_out p (world m sess) out n sess.args (row_at i)
        ≡ some (pos (length (row_string sess i n)), world (given i) sess)
  unfolding given
  hand_out-row i h h' h'' =
      hand_out_lem p (world m sess) m out n sess.args (row_at i) 63 refl h' h''
        (omega (arith, valid.args_sized)) (ends i h)

  cc_get_function_lem :
      0 < n
      → n < 2 ^ 31
      → 0 < out
      → out + n ≤ m.size
      → cc_get_function p (world m sess) out (pos n)
        ≡ some (pos (length (row_string sess 0 n)), world (given 0) sess)
  unfolding cc_get_function
  cc_get_function_lem h h' h'' h''' =
      ground (arith, p.validate_complete m out n, p.native_complete m out, hand_out-row 0)

  -- For a well-formed session whose rows end in NULs and an output buffer of n > 0 bytes, below
  -- 2 ^ 31, that lies in the memory and not at 0: `cc_get_function` puts the string of row 0,
  -- cut to n - 1 bytes, into the buffer, returns its length, and changes no other byte and not
  -- the session.
  pub cc_get_function-Holds :
      0 < n
      → n < 2 ^ 31
      → 0 < out
      → out + n ≤ m.size
      → (m' : Buffer) × (cc_get_function p (world m sess) out (pos n)
          ≡ some (pos (length (row_string sess 0 n)), world m' sess))
        × Holds m out n m' (row_string sess 0 n)
  cc_get_function-Holds h h' h'' h''' =
      (given 0, cc_get_function_lem h h' h'' h''', given-Holds 0 h)

  cc_get_arg_lem :
      (i : ℕ)
      → i < 9
      → 0 < n
      → n < 2 ^ 31
      → 0 < out
      → out + n ≤ m.size
      → cc_get_arg p (world m sess) (pos i) out (pos n)
        ≡ some (pos (length (row_string sess (i + 1) n)), world (given (i + 1)) sess)
  unfolding cc_get_arg
  cc_get_arg_lem i k h h' h'' h''' =
      ground (arith, p.validate_complete m out n, p.native_complete m out, hand_out-row (i + 1))

  -- For a well-formed session whose rows end in NULs and an output buffer of n > 0 bytes, below
  -- 2 ^ 31, that lies in the memory and not at 0: `cc_get_arg` with an index i below 9 puts the
  -- string of row i + 1, cut to n - 1 bytes, into the buffer, returns its length, and changes no
  -- other byte and not the session.
  pub cc_get_arg-Holds :
      (i : ℕ)
      → i < 9
      → 0 < n
      → n < 2 ^ 31
      → 0 < out
      → out + n ≤ m.size
      → (m' : Buffer) × (cc_get_arg p (world m sess) (pos i) out (pos n)
          ≡ some (pos (length (row_string sess (i + 1) n)), world m' sess))
        × Holds m out n m' (row_string sess (i + 1) n)
  cc_get_arg-Holds i k h h' h'' h''' =
      (given (i + 1), cc_get_arg_lem i k h h' h'' h''', given-Holds (i + 1) h)

  -- For a well-formed session whose rows end in NULs and an output buffer of n > 1 bytes, below
  -- 2 ^ 31, that lies in the memory and not at 0: the guard of `cc_get_arg` lets index 9
  -- through, whose row 10 is past the array, and the read faults.
  pub cc_get_arg_overrun :
      1 < n
      → n < 2 ^ 31
      → 0 < out
      → out + n ≤ m.size
      → cc_get_arg p (world m sess) (pos 9) out (pos n) ≡ none
  unfolding cc_get_arg
  cc_get_arg_overrun h h' h'' h''' = ground (
    arith,
    valid.args_sized,
    p.validate_complete m out n,
    p.native_complete m out,
    safe_strlen_outside sess.args (row_at 10) (n - 1),
  )
