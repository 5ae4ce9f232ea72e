-- ===== src/Ta/Sandbox.antt =====
-- What WAMR promises of a run of the chaincode: it changes its own memory, calls the native
-- functions of the symbol table, and ends.
pub mod Steps
pub mod Answers
pub mod Kept
pub mod Commands
pub mod Life
use capstone_2025_team.Base.{
  ◌*◌, ◌+◌, ℤ, ◌≡◌, ◌∙◌, refl, ap, sym, Bool, true, false, some, Bytes, Option, none,
}
use capstone_2025_team.Memory.{Buffer}
use capstone_2025_team.Platform.{Platform}
use capstone_2025_team.Session.{Mailbox, IsWellFormed, RowsEnd}
use capstone_2025_team.Native.{world}
use capstone_2025_team.Native.Table.{Call, dispatch}
use capstone_2025_team.Native.Safety.{Allowed, Safe}
use capstone_2025_team.Native.Safety.All.{dispatch-Safe}
use capstone_2025_team.Ta.{Engine}

-- How a memory and a session can have become others in a run. The calls that the guards of the
-- native functions miss are left out.
pub data Reaches (p : Platform) : Buffer → Mailbox → Buffer → Mailbox → Type 0 where
  done : {m : Buffer} {s : Mailbox} → Reaches p m s m s
  stores :
      {m : Buffer} {s : Mailbox} {m' : Buffer} {s' : Mailbox} (between : Buffer)
      → Reaches p between s m' s'
      → Reaches p m s m' s'
  calls :
      {m : Buffer} {s : Mailbox} {m' : Buffer} {s' : Mailbox} (c : Call) (z : ℤ) (m1 : Buffer)
      (s1 : Mailbox)
      → Allowed c
      → dispatch p (world m s) c ≡ some (z, world m1 s1)
      → Reaches p m1 s1 m' s'
      → Reaches p m s m' s'

-- The session is well formed, and so are its arguments.
abbrev pub Sound : Mailbox → Type 0
Sound mail = IsWellFormed mail × RowsEnd mail

-- A call of an exported function on a sound session ends, and what it leaves was reached so.
abbrev pub Sandboxed : Engine → Type 0
Sandboxed e =
    (inst : e.Instance) (name : Bytes) (mail : Mailbox)
    → Sound mail
    → (ok : Bool) × (inst' : e.Instance) × (mail' : Mailbox) × (e.call_wasm inst name mail
        ≡ some (ok, inst', mail'))
      × Reaches e.platform (e.memory inst) mail (e.memory inst') mail'

call-Sound :
    (p : Platform) (m : Buffer) (s : Mailbox) (c : Call) (z : ℤ) (m1 : Buffer) (s1 : Mailbox)
    → Sound s
    → Allowed c
    → dispatch p (world m s) c ≡ some (z, world m1 s1)
    → Sound s1
call-Sound p m s c z m1 s1 (valid, ends) allowed run =
    let (size, valid1, same) = rw run at (dispatch-Safe p m s valid ends c allowed) in
    (valid1, λ i h. ap (λ (args : Buffer). args.byte (i * 64 + 63)) same ∙ ends i h)

pub Reaches-Sound :
    (p : Platform) (m : Buffer) (s : Mailbox) (m' : Buffer) (s' : Mailbox)
    → Reaches p m s m' s'
    → Sound s
    → Sound s'
Reaches-Sound p m s m' s' done sound = sound
Reaches-Sound p m s m' s' (stores between rest) sound = Reaches-Sound p between s m' s' rest sound
Reaches-Sound p m s m' s' (calls c z m1 s1 allowed run rest) sound =
    Reaches-Sound p m1 s1 m' s' rest (call-Sound p m s c z m1 s1 sound allowed run)
