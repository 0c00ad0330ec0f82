-- ===== src/Tracker/Calls.antt =====
-- What a run of the tracker does to the platform.
use revue.Prelude.{
  ◌≡◌, ◌≢◌, refl, true, false, ◌||◌, List, [], ◌∷◌, none, some, arith, ◌⊎◌, inl, inr, Bool-cases,
  Option-cases,
}
use revue.Prelude.Text.{Text, codes, same}
use revue.Position.Resolver.{line_in_diff}
use revue.Tracker.States.{HunkState, ResolutionVerdict, fully, partial, unresolved}
use revue.Tracker.Exec.{Call, resolve_inline_comment, reply_to_comment}
use revue.Tracker.Run.{
  World, PriorEntry, ResolutionResult, check_diff, resolution_status, prior_state_of,
}
use revue.Tracker.Legality.{no_log}

pub verdict-cases : (v : ResolutionVerdict) → (v ≡ fully) ⊎ ((v ≡ partial) ⊎ (v ≡ unresolved))
verdict-cases fully = inl refl
verdict-cases partial = inr (inl refl)
verdict-cases unresolved = inr (inr refl)

module _ (w : World) (fingerprint : Text) (e : PriorEntry) (new_diff : Text) where
  -- the verdict that the strategy gives for the finding
  abbrev pub Answers : ResolutionResult → Type 0
  Answers r = w.resolve e.comment_body e.snippet new_diff e.prior_follow_up_body ≡ some r

  abbrev pub IsOpen : Type 0
  IsOpen = (e.resolved ≡ false) × (same e.sentinel_state (codes "auto_resolved") ≡ false)

  -- Why a call may be made: a thread is resolved if its line is gone or the strategy says that it is
  -- fully addressed, and gets a follow-up if the line is there and the strategy says that it is not.
  abbrev pub IsJustified : List Call → Type 0
  IsJustified [] = Unit
  IsJustified (resolve_inline_comment pr_id comment_id body ∷ []) =
      (pr_id ≡ e.pr_num)
      × (comment_id ≡ e.platform_comment_id)
      × IsOpen
      × ((line_in_diff e.line_number new_diff ≡ false)
          ⊎ ((r : ResolutionResult) × Answers r × (r.verdict ≡ fully)))
  IsJustified (reply_to_comment pr_id comment_id body ∷ []) =
      (pr_id ≡ e.pr_num)
      × (comment_id ≡ e.platform_comment_id)
      × IsOpen
      × (line_in_diff e.line_number new_diff ≡ true)
      × ((r : ResolutionResult) × Answers r × (r.verdict ≢ fully))
  IsJustified (c ∷ d ∷ calls) = ⊥

  removed-calls :
      (a : HunkState)
      → IsOpen
      → line_in_diff e.line_number new_diff ≡ false
      → IsJustified (check_diff w a fingerprint e new_diff no_log).1.calls
  unfolding check_diff
  removed-calls a still gone = ground arith

  failed-calls :
      (a : HunkState)
      → IsOpen
      → line_in_diff e.line_number new_diff ≡ true
      → w.resolve e.comment_body e.snippet new_diff e.prior_follow_up_body ≡ none
      → IsJustified (check_diff w a fingerprint e new_diff no_log).1.calls
  unfolding check_diff
  failed-calls a still there fails = ground arith

  addressed-calls :
      (a : HunkState) (r : ResolutionResult)
      → IsOpen
      → line_in_diff e.line_number new_diff ≡ true
      → Answers r
      → r.verdict ≡ fully
      → IsJustified (check_diff w a fingerprint e new_diff no_log).1.calls
  unfolding check_diff
  addressed-calls a r still there ans v = ground arith

  partial-calls :
      (a : HunkState) (r : ResolutionResult)
      → IsOpen
      → line_in_diff e.line_number new_diff ≡ true
      → Answers r
      → r.verdict ≡ partial
      → r.verdict ≢ fully
      → IsJustified (check_diff w a fingerprint e new_diff no_log).1.calls
  unfolding check_diff
  partial-calls a r still there ans v less = ground (arith) steps 10000000

  unresolved-calls :
      (a : HunkState) (r : ResolutionResult)
      → IsOpen
      → line_in_diff e.line_number new_diff ≡ true
      → Answers r
      → r.verdict ≡ unresolved
      → r.verdict ≢ fully
      → IsJustified (check_diff w a fingerprint e new_diff no_log).1.calls
  unfolding check_diff
  unresolved-calls a r still there ans v less = ground (arith) steps 10000000

  changed-calls :
      (a : HunkState)
      → IsOpen
      → line_in_diff e.line_number new_diff ≡ true
      → IsJustified (check_diff w a fingerprint e new_diff no_log).1.calls
  changed-calls a still there =
      elim (Option-cases (w.resolve e.comment_body e.snippet new_diff e.prior_follow_up_body)) [
        | inl fails ↦ failed-calls a still there fails
        | inr (r, ans) ↦ elim (verdict-cases r.verdict) [
          | inl v ↦ addressed-calls a r still there ans v
          | inr (inl v) ↦ partial-calls a r still there ans v (rw v (λ p. cc))
          | inr (inr v) ↦ unresolved-calls a r still there ans v (rw v (λ p. cc))
        ]
      ]

  check_diff-calls :
      (a : HunkState) → IsOpen → IsJustified (check_diff w a fingerprint e new_diff no_log).1.calls
  check_diff-calls a still = elim (Bool-cases (line_in_diff e.line_number new_diff)) [
    | inl there ↦ changed-calls a still there
    | inr gone ↦ removed-calls a still gone
  ]

  -- A run makes at most one call of the platform. It resolves a thread only if the finding's line is
  -- not among the lines of the diff's new side, or the strategy says that it is fully addressed; it
  -- posts a follow-up only if the line is there and the strategy says that it is not; and in both
  -- cases the thread is the entry's own, and was resolved neither on the platform nor by Revue.
  pub resolution_status-calls :
      IsJustified (resolution_status w fingerprint e new_diff no_log).1.calls
  unfolding resolution_status
  resolution_status-calls =
      elim (Bool-cases (e.resolved || same e.sentinel_state (codes "auto_resolved"))) [
        | inl done ↦ ground arith
        | inr more ↦
            let still : IsOpen = ground arith in
            let rest = check_diff-calls (prior_state_of e.sentinel_state) still in
            simp (still.0, still.1) rest
      ]
