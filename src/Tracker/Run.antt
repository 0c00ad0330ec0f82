-- ===== src/Tracker/Run.antt =====
-- `resolution_status` and its helpers, of `HunkTracker` and `NullHunkTracker`. Log lines other than
-- those of `_transition` are left out.
use revue.Prelude.{
  ℕ, Bool, true, false, not, ◌||◌, Option, none, some, [], ◌∷◌, ◌++◌, ◌==◌, if◌then◌else◌,
}
use revue.Prelude.Text.{Text, codes, same}
use revue.Position.Resolver.{line_in_diff}
use revue.Tracker.States.{
  HunkState, initial, untouched, code_removed, changed, nova_called, fully_addressed,
  not_fully_addressed, nova_error, reply_failed, follow_up_posted, resolve_reply_posted,
  auto_resolved, platform_resolved, ResolutionVerdict, fully,
}
use revue.Tracker.Sentinel.{make_sentinel}
use revue.Tracker.Exec.{
  Exec, resolve_inline_comment, reply_to_comment, value_error, pure, raise, ◌>>=◌, ◌>>◌, transition,
  call,
}

pub record ResolutionResult : Type 0 where
  pub verdict : ResolutionVerdict
  pub guidance : Text

-- What the tracker is given: the adapter's answers (`none` is an exception), whether the adapter has
-- `reply_to_comment`, the resolution strategy (`none` is an exception) and the clock.
pub record World : Type 0 where
  pub resolve_answer : ℕ → Text → Text → Option Bool
  pub reply_answer : Option (ℕ → Text → Text → Option Bool)
  pub resolve : Text → Text → Text → Option Text → Option ResolutionResult
  pub now : Text

-- One entry of `build_prior()`; a missing key has its default.
pub record PriorEntry : Type 0 where
  pub platform_comment_id : Text
  pub line_number : ℕ
  pub pr_num : ℕ
  pub resolved : Bool
  pub sentinel_state : Text
  pub comment_body : Text
  pub snippet : Text
  pub prior_follow_up_body : Option Text

-- bool(s)
unfoldable pub truthy : Text → Bool
truthy [] = false
truthy (c ∷ s) = true

unfoldable pub resolve_reply : Text → Text → Text
resolve_reply message sentinel = codes "✅ " ++ (message ++ 10 ∷ 10 ∷ sentinel)

-- The first two characters are the warning sign and its variation selector.
unfoldable pub follow_up_reply : Text → Text → Text
follow_up_reply guidance sentinel =
    9888 ∷ 65039 ∷ codes " This finding is not yet fully resolved."
    ++ 10 ∷ 10 ∷ (guidance ++ 10 ∷ 10 ∷ sentinel)

abbrev pub removed_message : Text
removed_message = codes "The code containing this finding has been removed."

abbrev pub resolved_message : Text
resolved_message = codes "The code change resolves this issue."

-- the answer of the platform decides between a posted reply and a failure
unfoldable pub settle : HunkState → HunkState → Bool → Exec HunkState
unfolding transition
settle from_state posted answer =
    if answer
    then (do transition from_state posted; pure posted)
    else (do transition from_state reply_failed; pure reply_failed)

unfoldable pub prior_state_of : Text → HunkState
prior_state_of sentinel_state =
    if same sentinel_state (codes "follow_up_posted") then follow_up_posted else initial

module _ (w : World) where
  -- self._make_sentinel(state, fp), or its ValueError
  unfoldable pub sentinel_or_raise : Text → Text → Exec Text
  sentinel_or_raise state fp = elim (make_sentinel w.now state fp) [
    | none ↦ raise value_error
    | some s ↦ pure s
  ]

  unfoldable pub post_resolve : ℕ → Text → Text → Exec Bool
  unfolding call
  post_resolve pr_num comment_id reply_body =
      call (resolve_inline_comment pr_num comment_id reply_body)
        (w.resolve_answer pr_num comment_id reply_body)

  -- the end of `_auto_resolve` and `_post_full_resolution`, from the state that each begins in
  unfoldable pub close_thread : HunkState → Text → ℕ → Text → Text → Exec HunkState
  unfolding sentinel_or_raise post_resolve settle transition
  close_thread from_state comment_id pr_num fingerprint message =
      if not (truthy comment_id)
      then (do transition from_state reply_failed; pure reply_failed)
      else do
        sentinel ← sentinel_or_raise (codes "auto_resolved") fingerprint
        answer ← post_resolve pr_num comment_id (resolve_reply message sentinel)
        settle from_state resolve_reply_posted answer

  unfoldable pub auto_resolve : Text → ℕ → Text → Text → Exec HunkState
  unfolding close_thread
  auto_resolve = close_thread code_removed

  unfoldable pub post_full_resolution : Text → ℕ → Text → Exec HunkState
  unfolding close_thread
  post_full_resolution comment_id pr_num fingerprint =
      close_thread fully_addressed comment_id pr_num fingerprint resolved_message

  -- `reply_fn`, if it is callable; a reply id that is falsy counts as no reply
  unfoldable pub post_reply : ℕ → Text → Text → Exec Bool
  unfolding call
  post_reply pr_num comment_id reply_body = elim w.reply_answer [
    | none ↦ pure false
    | some reply_fn ↦
        call (reply_to_comment pr_num comment_id reply_body) (reply_fn pr_num comment_id reply_body)
  ]

  unfoldable pub post_follow_up : Text → ℕ → Text → Text → Exec HunkState
  unfolding sentinel_or_raise post_reply settle transition
  post_follow_up comment_id pr_num fingerprint guidance =
      if not (truthy comment_id)
      then (do transition not_fully_addressed reply_failed; pure reply_failed)
      else do
        sentinel ← sentinel_or_raise (codes "follow_up_posted") fingerprint
        reply_id ← post_reply pr_num comment_id (follow_up_reply guidance sentinel)
        settle not_fully_addressed follow_up_posted reply_id

  unfoldable pub act_on : Text → ℕ → Text → ResolutionResult → Exec HunkState
  unfolding post_full_resolution post_follow_up transition
  act_on comment_id pr_num fingerprint result = elim result.verdict [
    | fully ↦ (do
      transition nova_called fully_addressed
      post_full_resolution comment_id pr_num fingerprint)
    | _ ↦ (do
      transition nova_called not_fully_addressed
      post_follow_up comment_id pr_num fingerprint result.guidance)
  ]

  unfoldable pub call_nova : Text → ℕ → Text → PriorEntry → Text → HunkState → Exec HunkState
  unfolding act_on transition
  call_nova comment_id pr_num fingerprint prior_entry new_diff prior_state = do
    transition prior_state nova_called
    elim (w.resolve prior_entry.comment_body prior_entry.snippet new_diff
        prior_entry.prior_follow_up_body) [
          | none ↦ (do transition nova_called nova_error; pure nova_error)
          | some result ↦ act_on comment_id pr_num fingerprint result
        ]

  -- the three-way diff check
  unfoldable pub check_diff : HunkState → Text → PriorEntry → Text → Exec HunkState
  unfolding auto_resolve call_nova transition truthy
  check_diff prior_state fingerprint e new_diff =
      if not (truthy new_diff)
      then (do transition prior_state untouched; pure untouched)
      else if e.line_number == 0
      then (do transition prior_state untouched; pure untouched)
      else if not (line_in_diff e.line_number new_diff)
      then (do
        transition prior_state code_removed
        auto_resolve e.platform_comment_id e.pr_num fingerprint removed_message)
      else do
        transition prior_state changed
        call_nova e.platform_comment_id e.pr_num fingerprint e new_diff changed

  unfoldable pub resolution_status : Text → PriorEntry → Text → Exec HunkState
  unfolding transition
  resolution_status fingerprint e new_diff =
      if e.resolved
      then (do transition initial platform_resolved; pure platform_resolved)
      else if same e.sentinel_state (codes "auto_resolved")
      then (do transition initial auto_resolved; pure auto_resolved)
      else check_diff (prior_state_of e.sentinel_state) fingerprint e new_diff

  -- `NullHunkTracker.resolution_status`
  unfoldable pub null_resolution_status : Text → PriorEntry → Text → Exec HunkState
  unfolding post_resolve truthy
  null_resolution_status fingerprint e new_diff =
      if not (truthy e.platform_comment_id) || e.pr_num == 0 then pure untouched else do
        answer ←
            post_resolve e.pr_num e.platform_comment_id
              (codes "✅ Issue appears to be resolved in latest commit.")
        if answer then pure resolve_reply_posted else pure untouched
