-- ===== src/Ta/Sandbox/Life.antt =====
-- The whole life of the TA: sequences of the TEE's calls.
use capstone_2025_team.Base.{
  ℕ, ◌*◌, ◌+◌, ◌<◌, ◌≡◌, refl, Bool, false, ◌||◌, List, [], ◌∷◌, arith, ◌==◌,
}
use capstone_2025_team.Memory.{of_list}
use capstone_2025_team.Session.{arguments_size, value_at, zeroed}
use capstone_2025_team.Ta.{Engine, Params, State, Session}
use capstone_2025_team.Ta.Command.{command_run_wasm, command_resume_wasm}
use capstone_2025_team.Ta.Entry.{Entry, create, destroy, open_with, close, invoke_with}
use capstone_2025_team.Ta.Sandbox.{Sandboxed, Sound}
use capstone_2025_team.Ta.Sandbox.Kept.{Kept, Unstarted}

-- What the caller passes, when the first command has come already or not: a shared buffer of the
-- size of `struct arguments`, in which the rows end for the first command and the value for the
-- others.
abbrev pub Suits : Bool → ℕ → Params → Type 0
Suits started cmd ps =
    (ps.shared.size ≡ arguments_size)
    × (cmd ≡ command_run_wasm
        → (started ≡ false) × ((i : ℕ) → i < 10 → ps.shared.byte (i * 64 + 63) ≡ 0))
    × (cmd ≡ command_resume_wasm → ps.shared.byte (value_at + 255) ≡ 0)

-- Calls of a caller that sends the first command once.
abbrev pub Suit : Bool → List Entry → Type 0
Suit started [] = Unit
Suit started (create ∷ cs) = Suit started cs
Suit started (destroy ∷ cs) = Suit started cs
Suit started (open_with kinds ∷ cs) = Suit started cs
Suit started (close ∷ cs) = Suit started cs
Suit started (invoke_with cmd kinds ps ∷ cs) =
    Suits started cmd ps × Suit (started || cmd == command_run_wasm) cs

pub zeroed-Sound : Sound zeroed
unfolding of_list
zeroed-Sound = (
  record {
    args_sized = refl;
    key_sized = refl;
    value_sized = refl;
    response_sized = refl;
    key_ends = refl;
    value_ends = refl;
    response_ends = refl;
    pending_known = omega arith;
    out_int = omega arith;
    out_open = λ h. absurd (omega (arith, h));
  },
  λ i h. refl,
)

module _ (e : Engine) (sandboxed : Sandboxed e) where
  -- In order, and without a runtime as long as the first command has not come.
  abbrev pub Alive : Bool → State e → Type 0
  Alive started st = Kept e st × (started ≡ false → Unstarted st.sess)
