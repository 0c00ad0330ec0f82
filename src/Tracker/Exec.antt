-- ===== src/Tracker/Exec.antt =====
-- Methods that call the platform and may raise: the calls made and the transitions logged stay
-- there when an exception is raised.
use revue.Prelude.{ℕ, Bool, Option, none, some, List, [], ◌∷◌, ◌++◌, if◌then◌else◌}
use revue.Prelude.Text.{Text}
use revue.Tracker.States.{HunkState, legal, is_terminal}

pub data Fault : Type 0 where
  invalid_transition value_error platform_error : Fault

pub data Result {ℓ} (A : Type ℓ) : Type ℓ where
  ok : A → Result A
  raised : Fault → Result A

pub data Call : Type 0 where
  resolve_inline_comment reply_to_comment : (pr_id : ℕ) (comment_id reply_body : Text) → Call

pub record Log : Type 0 where
  pub calls : List Call
  pub path : List (HunkState × HunkState)

abbrev pub Exec {ℓ} : Type ℓ → Type ℓ
Exec A = Log → Result A × Log

abbrev pub pure {ℓ} : {A : Type ℓ} → A → Exec A
pure a log = (ok a, log)

abbrev pub raise {ℓ} : {A : Type ℓ} → Fault → Exec A
raise f log = (raised f, log)

abbrev pub continue {ℓ κ} : {A : Type ℓ} {B : Type κ} → Result A → (A → Exec B) → Exec B
continue (ok a) f log = f a log
continue (raised e) f log = (raised e, log)

infixl 5 ◌>>=◌ ◌>>◌
abbrev pub ◌>>=◌ {ℓ κ} : {A : Type ℓ} {B : Type κ} → Exec A → (A → Exec B) → Exec B
◌>>=◌ m f log = let (r, after) = m log in continue r f after

abbrev pub ◌>>◌ {ℓ} : {B : Type ℓ} → Exec (Unit {0}) → Exec B → Exec B
m >> k = m >>= λ _. k

-- `_transition`, whose debug line is the entry of `path`
unfoldable pub transition : HunkState → HunkState → Exec (Unit {0})
transition from_state to_state log =
    let logged = record log { path = log.path ++ (from_state, to_state) ∷ [] } in
    if is_terminal from_state
    then (raised invalid_transition, logged)
    else if legal from_state to_state
    then (ok tt, logged)
    else (raised invalid_transition, logged)

-- a call of the platform's adapter, which may raise (`none`)
unfoldable pub call : Call → Option Bool → Exec Bool
call c none log = (raised platform_error, record log { calls = log.calls ++ c ∷ [] })
call c (some answer) log = (ok answer, record log { calls = log.calls ++ c ∷ [] })
