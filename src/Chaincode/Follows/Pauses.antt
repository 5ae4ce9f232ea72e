-- ===== src/Chaincode/Follows/Pauses.antt =====
-- A step that ends in an import's request follows the plan up to there.
use capstone_2025_team.Base.{ℕ, ◌<◌, ◌≤◌, ◌≡◌, refl, Bytes, some, [], ◌∷◌, arith, length}
use capstone_2025_team.Memory.{Buffer, SameOutside}
use capstone_2025_team.Platform.{Platform}
use capstone_2025_team.Session.{Mailbox}
use capstone_2025_team.Ta.Sandbox.{Sound}
use capstone_2025_team.Ta.Sandbox.Answers.{settled-IsWellFormed, acknowledged-IsWellFormed}
use capstone_2025_team.System.Ledger.{answered_session}
use capstone_2025_team.Chaincode.Text.Stands.{Stands}
use capstone_2025_team.Chaincode.Machine.{Layout, Op, Chain, step_resume}
use capstone_2025_team.Chaincode.Plan.{Plan, answer, ask, put}
use capstone_2025_team.Chaincode.Follows.{Placed, Image, Follows}
use capstone_2025_team.Chaincode.Follows.Calls.{
  chain_at, asking, putting, replying, asking-Sound, putting-Sound, replying-Sound, asked-asking,
  asked-putting, asked-replying,
}

pub answered-Sound : (sess : Mailbox) → Sound sess → Sound (answered_session sess)
answered-Sound sess (valid, ends) = (settled-IsWellFormed sess valid, ends)

pub acknowledged-Sound : (sess : Mailbox) → Sound sess → Sound (record sess { pending_type = 0 })
acknowledged-Sound sess (valid, ends) = (acknowledged-IsWellFormed sess valid, ends)

module _ (p : Platform) (l : Layout) (size : ℕ) (placed : Placed l size) (sess : Mailbox)
    (sound : Sound sess) (ch : Chain) (m : Buffer) (image : Image l size m) (state exit : ℕ)
    (op : Op) where
  pub ask-Follows :
      (person : Bytes) (next : Bytes → Plan)
      → Stands m l.g_person 64 person
      → Stands m l.g_cur_val 256 []
      → step_resume p l ch
        ≡ some (chain_at m (asking p m sess l.g_person (length person) l.g_cur_val) state op exit)
      → ((m' : Buffer) (value : Bytes)
          → SameOutside l.g_cur_val 256 m' m
          → Stands m' l.g_cur_val 256 value
          → m'.size ≡ m.size
          → Follows p l (next value) (
              chain_at m'
                (answered_session (asking p m sess l.g_person (length person) l.g_cur_val))
                state
                op
                exit))
      → Follows p l (ask person next) ch
  ask-Follows person next stands no_value run go_on =
      let n = length person in
      (
        record {
          memory = m;
          session = asking p m sess l.g_person n l.g_cur_val;
          chain = chain_at m (asking p m sess l.g_person n l.g_cur_val) state op exit;
          run = run;
          world_is = refl;
          sound = asking-Sound p l m sess state op exit sound.0 sound.1 n;
        },
        refl,
        asked-asking p l m sess state op exit sound.0 sound.1 person
            (omega (arith, image.sized, placed.small)) placed.person_inside.0 stands,
        l.g_cur_val,
        (refl, refl, placed.cur_val_inside.0, no_value),
        go_on,
      )

  pub put-Follows :
      (val k : ℕ) (person value : Bytes) (rest : Plan)
      → 0 < val
      → Stands m l.g_person 64 person
      → Stands m val k value
      → length value ≤ 255
      → step_resume p l ch
        ≡ some (
            chain_at m
              (putting p m sess l.g_person (length person) val (length value))
              state
              op
              exit)
      → Follows p l rest (
          chain_at m
            (record (putting p m sess l.g_person (length person) val (length value)) {
              pending_type = 0;
            })
            state
            op
            exit)
      → Follows p l (put person value rest) ch
  put-Follows val k person value rest some_val stands text short run go_on =
      let sess' = putting p m sess l.g_person (length person) val (length value) in
      (
        record {
          memory = m;
          session = sess';
          chain = chain_at m sess' state op exit;
          run = run;
          world_is = refl;
          sound =
              putting-Sound p l m sess state op exit sound.0 sound.1 (length person) val
                (length value);
        },
        refl,
        asked-putting p l m sess state op exit sound.0 sound.1 val k person value
            (omega (arith, image.sized, placed.small)) placed.person_inside.0 some_val stands text
            short,
        go_on,
      )

  pub answer-Follows :
      (msg k c : ℕ) (text : Bytes)
      → sess.pending_type ≡ 0
      → 0 < msg
      → Stands m msg k (c ∷ text)
      → length (c ∷ text) ≤ 255
      → step_resume p l ch
        ≡ some (chain_at m (replying p m sess msg (length (c ∷ text))) state op exit)
      → Follows p l (answer (c ∷ text)) ch
  answer-Follows msg k c text nothing some_msg stands short run =
      let sess' = replying p m sess msg (length (c ∷ text)) in
      (
        record {
          memory = m;
          session = sess';
          chain = chain_at m sess' state op exit;
          run = run;
          world_is = refl;
          sound =
              replying-Sound p l m sess state op exit sound.0 sound.1 msg (length (c ∷ text)) short;
        },
        nothing,
        asked-replying p l m sess state op exit sound.0 sound.1 msg k c text
            (omega (arith, image.sized, placed.small)) nothing some_msg stands short,
      )
