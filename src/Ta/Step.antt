-- ===== src/Ta/Step.antt =====
-- `call_step`: a run of one exported function of the chaincode.
use capstone_2025_team.Base.{
  Bool, true, false, not, ◌&&◌, ◌||◌, Option, none, some, [], ◌∷◌, Bytes, codes, ◌==◌,
  if◌then◌else◌, ◌>>=◌, ◌*◌,
}
use capstone_2025_team.Session.{Mailbox}
use capstone_2025_team.Ta.{Engine, Context}

-- strstr(s, t) != NULL
unfoldable pub starts : Bytes → Bytes → Bool
starts s [] = true
starts [] (c ∷ t) = false
starts (a ∷ s) (c ∷ t) = a == c && starts s t

unfoldable pub strstr : Bytes → Bytes → Bool
unfolding starts
strstr [] t = starts [] t
strstr (a ∷ s) t = starts (a ∷ s) t || strstr s t

-- The exceptions that a step may end in: they count as success.
unfoldable pub is_intended : Bytes → Bool
unfolding strstr
is_intended ex = strstr ex (codes "out of bounds") || strstr ex (codes "null pointer")

module _ (e : Engine) where
  -- The result of the call, corrected by the exception.
  unfoldable pub outcome : Bool → Option Bytes → Bool
  outcome ok none = ok
  outcome ok (some ex) = if is_intended ex then true else ok

  unfoldable pub cleared : e.Instance → e.Instance
  cleared inst = elim (e.get_exception inst) [ none ↦ inst | some _ ↦ e.clear_exception inst ]

  -- From the call on: the exec env is destroyed after a success.
  unfoldable pub run_step :
      Context e → e.Instance → Bytes → Mailbox → Option (Bool × Context e × Mailbox)
  unfolding outcome cleared
  run_step ctx inst name mail = do
    (called, inst', mail') ← e.call_wasm inst name mail
    let ok = outcome called (e.get_exception inst')
    some (ok, record ctx { module_inst = some (cleared inst'); exec_env = not ok }, mail')

  unfoldable pub call_step : Context e → Bytes → Mailbox → Option (Bool × Context e × Mailbox)
  unfolding run_step cleared
  call_step ctx name mail = elim ctx.module_inst [
    | none ↦ none
    | some inst ↦
        if not (e.lookup_function inst name)
        then some (false, ctx, mail)
        else let ready = cleared inst in
          if not ctx.exec_env && not (e.create_exec_env ready (256 * 1024))
          then some (false, record ctx { module_inst = some ready }, mail)
          else run_step ctx (e.clear_exception ready) name mail
  ]
