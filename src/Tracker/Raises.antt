-- ===== src/Tracker/Raises.antt =====
-- The exception of `_make_sentinel` in `resolution_status`.
use revue.Prelude.{
  ◌≡◌, ◌∷◌, ◌++◌, refl, Bool, true, false, not, ◌&&◌, ◌||◌, [], Option, none, some, arith, ◌==◌,
  Bool-cases, Option-cases, inl, inr,
}
use revue.Prelude.Text.{Text, codes, same}
use revue.Position.Resolver.{line_in_diff}
use revue.Tracker.States.{
  HunkState, untouched, code_removed, reply_failed, changed, nova_called, legal, is_terminal,
}
use revue.Tracker.Sentinel.{make_sentinel, is_fingerprint}
use revue.Tracker.Exec.{Result, Log, raised, value_error}
use revue.Tracker.Run.{
  World, PriorEntry, ResolutionResult, truthy, prior_state_of, act_on, call_nova, check_diff,
  resolution_status,
}
use revue.Tracker.Legality.{no_log}
use revue.Tracker.Calls.{verdict-cases}

make_sentinel-none :
    (ts state fp : Text) → is_fingerprint fp ≡ false → make_sentinel ts state fp ≡ none
unfolding make_sentinel
make_sentinel-none ts state fp h = rw h

abbrev pub is_value_error : Result HunkState → Bool
is_value_error (raised value_error) = true
is_value_error _ = false

-- the strategy gives an answer
abbrev pub is_answered : Option ResolutionResult → Bool
is_answered none = false
is_answered (some r) = true

-- A reply is due to a thread: the entry is not resolved yet, has a line and a comment id, and the
-- (non-empty) diff has the line no more, or the strategy gives an answer for it.
abbrev pub reply_is_due : World → PriorEntry → Text → Bool
reply_is_due w e new_diff =
    not e.resolved
    && not (same e.sentinel_state (codes "auto_resolved"))
    && truthy new_diff
    && not (e.line_number == 0)
    && truthy e.platform_comment_id
    && (not (line_in_diff e.line_number new_diff)
        || is_answered (w.resolve e.comment_body e.snippet new_diff e.prior_follow_up_body))

module _ (w : World) (fingerprint : Text) (e : PriorEntry) (new_diff : Text)
    (bad : is_fingerprint fingerprint ≡ false) where
  abbrev Raises : Bool → Result HunkState × Log → Type 0
  Raises due run = (is_value_error run.0 ≡ due) × (run.1.calls ≡ [])

  act_on-Raises :
      (r : ResolutionResult) (log : Log)
      → log.calls ≡ []
      → Raises
          (truthy e.platform_comment_id)
          (act_on w e.platform_comment_id e.pr_num fingerprint r log)
  unfolding act_on legal is_terminal
  act_on-Raises r log none_yet = elim (verdict-cases r.verdict) [
    | inl v ↦ ground (arith, make_sentinel-none w.now (codes "auto_resolved") fingerprint bad)
    | inr (inl v) ↦
        ground (arith, make_sentinel-none w.now (codes "follow_up_posted") fingerprint bad)
    | inr (inr v) ↦
        ground (arith, make_sentinel-none w.now (codes "follow_up_posted") fingerprint bad)
  ]

  abbrev answer : Option ResolutionResult
  answer = w.resolve e.comment_body e.snippet new_diff e.prior_follow_up_body

  call_nova-Raises :
      (log : Log)
      → log.calls ≡ []
      → Raises
          (truthy e.platform_comment_id && is_answered answer)
          (call_nova w e.platform_comment_id e.pr_num fingerprint e new_diff changed log)
  unfolding call_nova legal is_terminal
  call_nova-Raises log none_yet = elim (Option-cases answer) [
    | inl a ↦ rw (a, call_nova) (ground arith)
    | inr (r, a) ↦
        let logged = record log { path = log.path ++ (changed, nova_called) ∷ [] } in
        let acted = act_on-Raises r logged none_yet in rw (a, call_nova) (ground (arith, acted))
  ]

  check_diff-Raises :
      (a : HunkState) (log : Log)
      → (is_terminal a ≡ false)
        × (legal a untouched ≡ true)
        × (legal a code_removed ≡ true)
        × (legal a changed ≡ true)
      → log.calls ≡ []
      → Raises
          (truthy new_diff
            && not (e.line_number == 0)
            && truthy e.platform_comment_id
            && (not (line_in_diff e.line_number new_diff) || is_answered answer))
          (check_diff w a fingerprint e new_diff log)
  unfolding check_diff
  check_diff-Raises a log start none_yet =
      let removed : is_terminal code_removed ≡ false = unfold is_terminal in refl in
      let fails : legal code_removed reply_failed ≡ true = unfold legal in refl in
      let looked =
        call_nova-Raises (record log { path = log.path ++ (a, changed) ∷ [] }) none_yet in
      elim (Bool-cases (line_in_diff e.line_number new_diff)) [
        | inr gone ↦ ground (
          arith,
          make_sentinel-none w.now (codes "auto_resolved") fingerprint bad,
          start,
          removed,
          fails,
        )
        | inl there ↦ ground (arith, looked, start)
      ]

  prior_state_of-starts :
      (s : Text)
      → (is_terminal (prior_state_of s) ≡ false)
        × (legal (prior_state_of s) untouched ≡ true)
        × (legal (prior_state_of s) code_removed ≡ true)
        × (legal (prior_state_of s) changed ≡ true)
  unfolding prior_state_of legal is_terminal
  prior_state_of-starts s = ground arith

  -- For a fingerprint that the pattern of `_make_sentinel` refuses (it takes 16 of the digits
  -- 0-9 and a-f, with or without a line feed after them), `resolution_status` never calls the
  -- platform, whatever the entry, the diff and the strategy, and it raises the ValueError of
  -- `_make_sentinel` exactly when a reply is due: for an entry that is not resolved yet and has
  -- a line and a comment id, and a diff that is not empty and either has the line no more or
  -- gets an answer of the strategy.
  pub resolution_status-raises :
      (is_value_error (resolution_status w fingerprint e new_diff no_log).0
        ≡ reply_is_due w e new_diff)
      × ((resolution_status w fingerprint e new_diff no_log).1.calls ≡ [])
  unfolding resolution_status legal is_terminal
  resolution_status-raises =
      let checked =
        check_diff-Raises (prior_state_of e.sentinel_state) no_log
          (prior_state_of-starts e.sentinel_state) refl in
      ground (arith, checked)
