-- ===== src/Chaincode/Follows/Begin.antt =====
-- The first step of a transaction: the function's name is fetched and compared, and the operation's
-- buffers are cleared and filled with its arguments.
use capstone_2025_team.Base.{
  >>=-some, ℕ, ◌*◌, ◌+◌, ◌-◌, ◌<◌, ◌≤◌, ◌≡◌, refl, ap, ◌∙◌, Bytes, Option, some, [], ◌∷◌, arith,
  ◌>>=◌, if◌then◌else◌, ◌==◌, codes, same_bytes, not,
}
use mathlib.Core.Path.{subst}
use capstone_2025_team.Memory.{Buffer, SameOutside}
use capstone_2025_team.Memory.Copies.{Apart}
use capstone_2025_team.Memory.Strings.{length-take-c_string}
use capstone_2025_team.Platform.{Platform}
use capstone_2025_team.Session.{Mailbox, IsWellFormed, RowsEnd}
use capstone_2025_team.Native.Read.Laws.{Holds, row_string}
use capstone_2025_team.Chaincode.Text.Stands.{Stands, Stands-apart, Filled-empty, s_streq-Stands}
use capstone_2025_team.Chaincode.Machine.{
  Layout, Op, op_none, op_create, op_add, op_query, Chain, clear, first_byte, get_arg_into, begin,
  fail, fetch_function, select, step_resume, cc_do_create_init, cc_do_add_init, cc_do_query_init,
}
use capstone_2025_team.Chaincode.Follows.{Placed, Image}
use capstone_2025_team.Chaincode.Follows.Calls.{
  chain_at, clear-Filled, first_byte-empty, first_byte-cons, get_arg_into-Holds, get_function-Holds,
}

-- A write apart from the literals leaves them.
pub Image-kept :
    (l : Layout) (size : ℕ) (placed : Placed l size) (m m' : Buffer) (q n : ℕ)
    → m'.size ≡ m.size
    → SameOutside q n m' m
    → Apart q n placed.texts placed.texts_size
    → Image l size m
    → Image l size m'
Image-kept l size placed m m' q n same outside apart image = record {
  sized = same ∙ image.sized;
  exist =
      Stands-apart m m' q n l.exist_text 6 (codes "EXIST") same outside
        (within l.exist_text 6 placed.exist_in) image.exist;
  ok =
      Stands-apart m m' q n l.ok_text 3 (codes "OK") same outside (within l.ok_text 3 placed.ok_in)
        image.ok;
  empty =
      Stands-apart m m' q n l.empty_text 6 (codes "EMPTY") same outside
        (within l.empty_text 6 placed.empty_in) image.empty;
  notfound =
      Stands-apart m m' q n l.notfound_text 9 (codes "NOTFOUND") same outside
        (within l.notfound_text 9 placed.notfound_in) image.notfound;
  error =
      Stands-apart m m' q n l.error_text 6 (codes "ERROR") same outside
        (within l.error_text 6 placed.error_in) image.error;
}
  where
    within :
        (at k : ℕ)
        → (placed.texts ≤ at) × (at + k ≤ placed.texts + placed.texts_size)
        → Apart q n at k
    within at k inside = ground (arith, apart)

-- A row of the arguments, cut to n bytes, stands in them.
pub Holds-Stands :
    (m m' : Buffer) (sess : Mailbox) (i out n : ℕ)
    → 0 < n
    → out + n ≤ m.size
    → Holds m out n m' (row_string sess i n)
    → Stands m' out n (row_string sess i n)
Holds-Stands m m' sess i out n h inside (is, outside, size) =
    (is, omega (arith, h, length-take-c_string sess.args (i * 64) 63 (n - 1)), rw size inside)

module _ (p : Platform) (l : Layout) (size : ℕ) (placed : Placed l size) (sess : Mailbox)
    (valid : IsWellFormed sess) (ends : RowsEnd sess) (state exit : ℕ) (m : Buffer)
    (image : Image l size m) where
  -- What the operations read as the function's name, the person and the count.
  abbrev pub function_name : Bytes
  function_name = row_string sess 0 64

  abbrev pub person : Bytes
  person = row_string sess 1 64

  abbrev pub count : Bytes
  count = row_string sess 2 64

  pub begin_lem :
      Stands m l.g_function 64 function_name
      → begin p l (chain_at m sess state op_none exit) ≡ (
          if same_bytes function_name (codes "create")
          then cc_do_create_init p l (chain_at m sess state op_create exit)
          else if same_bytes function_name (codes "add")
          then cc_do_add_init p l (chain_at m sess state op_add exit)
          else if same_bytes function_name (codes "query")
          then cc_do_query_init p l (chain_at m sess state op_query exit)
          else fail p l (chain_at m sess state op_none exit))
  unfolding begin
  begin_lem stands =
      let is = λ (t : Bytes). s_streq-Stands m l.g_function 64 function_name t stands in
      >>=-some _ _ _ (is (codes "create") (omega arith))
      ∙ ap
          (λ (r : Option Chain).
            if same_bytes function_name (codes "create")
            then cc_do_create_init p l (chain_at m sess state op_create exit)
            else r)
          (>>=-some _ _ _ (is (codes "add") (omega arith))
            ∙ ap
                (λ (r : Option Chain).
                  if same_bytes function_name (codes "add")
                  then cc_do_add_init p l (chain_at m sess state op_add exit)
                  else r)
                (>>=-some _ _ _ (is (codes "query") (omega arith))))

module _ (p : Platform) (l : Layout) (size : ℕ) (placed : Placed l size) (sess : Mailbox)
    (valid : IsWellFormed sess) (ends : RowsEnd sess) (state : ℕ) where
  -- The step that an unused machine makes, by the function's name.
  abbrev pub chosen : Buffer → Option Chain
  chosen m =
      if same_bytes (row_string sess 0 64) (codes "create")
      then cc_do_create_init p l (chain_at m sess state op_create 0)
      else if same_bytes (row_string sess 0 64) (codes "add")
      then cc_do_add_init p l (chain_at m sess state op_add 0)
      else if same_bytes (row_string sess 0 64) (codes "query")
      then cc_do_query_init p l (chain_at m sess state op_query 0)
      else fail p l (chain_at m sess state op_none 0)

  -- With the name in place.
  named :
      (m : Buffer) (name : Bytes)
      → Image l size m
      → name ≡ row_string sess 0 64
      → Stands m l.g_function 64 name
      → (first_byte p l l.g_function (chain_at m sess state op_none 0) >>= λ c.
          if not (c == 0)
          then begin p l (chain_at m sess state op_none 0)
          else fail p l (chain_at m sess state op_none 0))
        ≡ chosen m
  named m [] image is stands =
      >>=-some _ _ _ (first_byte-empty p l m sess state op_none 0 l.g_function 64 stands)
      ∙ rw⁻¹ is refl
  named m (c ∷ s) image is stands =
      let (first, some_byte) =
        first_byte-cons p l m sess state op_none 0 l.g_function 64 c s stands in
      >>=-some _ _ _ first
      ∙ ap
          (λ b.
            if not b
            then begin p l (chain_at m sess state op_none 0)
            else fail p l (chain_at m sess state op_none 0))
          some_byte
      ∙ begin_lem p l size placed sess valid ends state 0 m image
          (subst (Stands m l.g_function 64) is stands)

  pub step_resume-chosen :
      (m : Buffer) (exit : ℕ)
      → Image l size m
      → Stands m l.g_function 64 []
      → (m' : Buffer) × Image l size m'
        × (step_resume p l (chain_at m sess state op_none exit) ≡ chosen m')
  unfolding step_resume select fetch_function
  step_resume-chosen m exit image stands =
      let inside : l.g_function + 64 ≤ m.size =
        omega (arith, image.sized, placed.function_inside) in
      let (m', z, run, holds) =
        get_function-Holds p l m sess state op_none 0 valid ends placed.linked l.g_function 64
          (omega arith) (omega arith) placed.function_inside.0 inside in
      let fetched : fetch_function p l (chain_at m sess state op_none 0)
          ≡ some (chain_at m' sess state op_none 0) =
        >>=-some _ _ _ (first_byte-empty p l m sess state op_none 0 l.g_function 64 stands)
        ∙ >>=-some _ _ _ run in
      let image' =
        Image-kept l size placed m m' l.g_function 64 holds.2 holds.1 placed.function_texts image in
      (
        m',
        image',
        >>=-some _ _ _ fetched
            ∙ named m' (row_string sess 0 64) image' refl
                (Holds-Stands m m' sess 0 l.g_function 64 (omega arith) inside holds),
      )

  -- A buffer cleared: its string is empty, the literals and the strings apart from it stay.
  pub cleared :
      (m : Buffer) (op : Op) (exit ptr n : ℕ)
      → Image l size m
      → 0 < n
      → ptr + n ≤ size
      → Apart ptr n placed.texts placed.texts_size
      → (m' : Buffer) × (clear p l ptr n (chain_at m sess state op exit)
          ≡ some (chain_at m' sess state op exit))
        × Image l size m'
        × Stands m' ptr n []
        × (m'.size ≡ m.size)
        × SameOutside ptr n m' m
  cleared m op exit ptr n image some_len inside apart =
      let inside' : ptr + n ≤ m.size = omega (arith, inside, image.sized) in
      let (m', run, filled) = clear-Filled p l m sess state op exit ptr n inside' in
      (
        m',
        run,
        Image-kept l size placed m m' ptr n filled.0 filled.1 apart image,
        Filled-empty m m' ptr n inside' some_len filled,
        filled.0,
        filled.1,
      )

  -- An argument fetched, likewise.
  pub fetched :
      (m : Buffer) (op : Op) (exit i ptr : ℕ)
      → Image l size m
      → i < 9
      → (0 < ptr) × (ptr + 64 ≤ size)
      → Apart ptr 64 placed.texts placed.texts_size
      → (m' : Buffer) × (get_arg_into p l i ptr 64 (chain_at m sess state op exit)
          ≡ some (chain_at m' sess state op exit))
        × Image l size m'
        × Stands m' ptr 64 (row_string sess (i + 1) 64)
        × (m'.size ≡ m.size)
        × SameOutside ptr 64 m' m
  fetched m op exit i ptr image row inside apart =
      let inside' : ptr + 64 ≤ m.size = omega (arith, inside, image.sized) in
      let (m', run, holds) =
        get_arg_into-Holds p l m sess state op exit valid ends placed.linked i ptr 64 row
          (omega arith) (omega arith) inside.0 inside' in
      (
        m',
        run,
        Image-kept l size placed m m' ptr 64 holds.2 holds.1 apart image,
        Holds-Stands m m' sess (i + 1) ptr 64 (omega arith) inside' holds,
        holds.2,
        holds.1,
      )
