-- ===== src/Tracker/Legality.antt =====
-- The runs of the tracker against the transition table.
use revue.Prelude.{◌≡◌, ◌≢◌, refl, true, ◌||◌, List, [], ◌∷◌, arith, ◌⊎◌, inl, inr, Bool-cases}
use revue.Prelude.Text.{Text, codes, same}
use revue.Tracker.States.{HunkState, initial, follow_up_posted, legal, is_terminal}
use revue.Tracker.Exec.{Result, ok, raised, Log, invalid_transition}
use revue.Tracker.Run.{World, PriorEntry, prior_state_of, check_diff, resolution_status}

-- a sequence of legal transitions that lead from one state to another
abbrev pub IsLegalPath : HunkState → List (HunkState × HunkState) → HunkState → Type 0
IsLegalPath a [] b = a ≡ b
IsLegalPath a ((from_state, to_state) ∷ path) b =
    (a ≡ from_state) × (legal from_state to_state ≡ true) × IsLegalPath to_state path b

abbrev pub no_log : Log
no_log = record { calls = []; path = [] }

-- what is said of one run that begins in `a`
abbrev pub EndsLegally : HunkState → Result HunkState × Log → Type 0
EndsLegally a (ok s, log) = IsLegalPath a log.path s
EndsLegally a (raised f, log) = f ≢ invalid_transition

check_diff-EndsLegally :
    (w : World) (fingerprint : Text) (e : PriorEntry) (new_diff : Text) (a : HunkState)
    → (a ≡ initial) ⊎ (a ≡ follow_up_posted)
    → EndsLegally a (check_diff w a fingerprint e new_diff no_log)
unfolding check_diff legal is_terminal
check_diff-EndsLegally w fingerprint e new_diff a h = ground arith

-- Whatever the platform, the strategy and the clock answer, a run of `resolution_status` raises no
-- invalid transition; if it returns a state, then the transitions that it made are a legal path to
-- that state, from INITIAL or from FOLLOW_UP_POSTED.
pub resolution_status-EndsLegally :
    (w : World) (fingerprint : Text) (e : PriorEntry) (new_diff : Text)
    → (a : HunkState) × ((a ≡ initial) ⊎ (a ≡ follow_up_posted))
      × EndsLegally a (resolution_status w fingerprint e new_diff no_log)
unfolding resolution_status prior_state_of legal is_terminal
resolution_status-EndsLegally w fingerprint e new_diff =
    elim (Bool-cases (e.resolved || same e.sentinel_state (codes "auto_resolved"))) [
      | inl done ↦ (initial, inl refl, ground arith)
      | inr more ↦
          let a = prior_state_of e.sentinel_state in
          let from : (a ≡ initial) ⊎ (a ≡ follow_up_posted) = ground arith in
          (a, from, ground (arith, check_diff-EndsLegally w fingerprint e new_diff a from))
    ]
