-- ===== src/Proxy/Arguments.antt =====
-- The function's name and its arguments, written to the shared buffer as rows.
pub mod Laws
use capstone_2025_team.Base.{
  ℕ, suc, ◌+◌, ◌-◌, Option, none, some, List, [], ◌∷◌, Bytes, length, take, leb, if◌then◌else◌,
  ◌>>=◌,
}
use capstone_2025_team.Memory.{Buffer, of_list, memset, memcpy, store}
use capstone_2025_team.Session.{arg_size, args_number, arguments_size, row_at}

-- A text is cut at ARG_SIZE - 1 bytes.
unfoldable pub row_length : Bytes → ℕ
row_length text = if leb arg_size (length text) then arg_size - 1 else length text

-- memcpy of the text to row i, and its NUL.
unfoldable pub put_row : Buffer → ℕ → Bytes → Option Buffer
unfolding row_length memcpy store of_list
put_row shared i text = do
  pasted ← memcpy shared (row_at i) (of_list (suc (length text)) text) 0 (row_length text)
  store pasted (row_at i + row_length text) 0

-- The rows from i on.
unfoldable pub put_rows : Buffer → ℕ → List Bytes → Option Buffer
unfolding put_row
put_rows shared i [] = some shared
put_rows shared i (text ∷ texts) = do next ← put_row shared i text; put_rows next (suc i) texts

-- Row 0 is the function, and at most ARGS_NUMBER - 1 arguments follow.
unfoldable pub write_arguments : Buffer → Bytes → List Bytes → Option Buffer
unfolding put_rows memset
write_arguments shared function args = do
  zeroed ← memset shared 0 0 arguments_size
  named ← put_row zeroed 0 function
  put_rows named 1 (take (args_number - 1) args)
