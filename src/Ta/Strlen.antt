-- ===== src/Ta/Strlen.antt =====
-- main.c's own copy of `safe_strlen`, which also takes NULL (`none`).
use capstone_2025_team.Base.{ℕ, Option, none, some}
use capstone_2025_team.Memory
use capstone_2025_team.Memory.{Buffer}

abbrev pub safe_strlen : Buffer → Option ℕ → ℕ → Option ℕ
safe_strlen b none max_len = some 0
safe_strlen b (some s) max_len = Memory.safe_strlen b s max_len
