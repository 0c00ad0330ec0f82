-- ===== src/Poster/Repost.antt =====
-- A finding with a comment is not posted again by the next run.
use revue.Prelude.{
  all, ◌≡◌, ◌≢◌, refl, ap, ◌∙◌, sym, subst, true, false, Option, none, some, List, [], ◌∷◌, any,
  if◌then◌else◌, arith, Bool-cases, Option-cases, inl, inr,
}
use revue.Prelude.Int.{ℤ}
use revue.Prelude.Text.{Text, same, same-eq}
use revue.Prelude.Dict.{get}
use revue.Tracker.Prior.{Prior}
use revue.Poster.Fingerprint.{fingerprint}
use revue.Poster.Fields.{Finding}
use revue.Poster.Store.{Files}
use revue.Poster.World.{ReviewResult, Tracked, World, State, Group}
use revue.Poster.Collect.{diff_of, Collected, collect}
use revue.Poster.Run.{
  matched_entry, skip_group, sink_group, Place, post_at, count_group, record_post, post_group,
  post_with_params_or_evict_and_retry, place, unanchored, stuck, at_lines,
}
use revue.Poster.Review.{
  start, do_matched, do_group, do_groups, apply_status, close_entry, auto_resolve, merged_prior,
  run_from, post_review,
}
use revue.Poster.Attempts.{made, asks_for, Asks-post_with_params}
use revue.Poster.Seen.{AreSeenIfAny, AreSeen-collect}
use revue.Poster.Kept.{Kept-do_groups, Kept-auto_resolve}
use revue.Poster.Opened.{has, is_open, has-merged_prior}

-- a run from a prior that has the fingerprint does not ask for a comment with it
module _ (w : World) (fp : Text) where
  abbrev NotAsked : State → Type 0
  NotAsked s = any (asks_for fp) s.log ≡ false

  NotAsked-record_post :
      (path : Text) (line : ℤ) (k body : Text) (r : State × Option Text)
      → NotAsked r.0
      → NotAsked (record_post w path line k body r)
  unfolding record_post
  NotAsked-record_post path line k body (s, none) h = h
  NotAsked-record_post path line k body (s, some id) h = h

  NotAsked-post_at :
      (path : Text) (line : ℤ) (items : List Finding) (k body : Text) (s : State) (p : Place)
      → same k fp ≡ false
      → NotAsked s
      → NotAsked (post_at w path line items k body s p)
  unfolding post_at sink_group
  NotAsked-post_at path line items k body s stuck other h = h
  NotAsked-post_at path line items k body s unanchored other h =
      elim (Bool-cases (all (w.sinks path line) items)) [
        | inl e ↦ rw (e, sink_group) h
        | inr e ↦ rw (e, sink_group) h
      ]
  NotAsked-post_at path line items k body s (at_lines params n) other h =
      NotAsked-record_post path line k body
        (post_with_params_or_evict_and_retry w k params body n s)
        (Asks-post_with_params w fp k params body n other s ∙ h)

  NotAsked-post_group :
      (path : Text) (line : ℤ) (items : List Finding) (k : Text) (s : State)
      → same k fp ≡ false
      → NotAsked s
      → NotAsked (post_group w path line items k s)
  unfolding post_group count_group
  NotAsked-post_group path line items k s other h = elim (Option-cases (w.body path line items k)) [
    | inl e ↦ rw (e, post_group) h
    | inr ((body, lines), e) ↦
        rw (e, post_group)
          (NotAsked-post_at path line items k body (count_group items s) (place w path line lines)
            other h)
  ]

  NotAsked-do_matched :
      (path : Text) (line : ℤ) (items : List Finding) (k : Text) (s : State)
      (matched : Option (Prior Tracked))
      → (same k fp ≡ true → matched ≢ none)
      → NotAsked s
      → NotAsked (do_matched w path line items k s matched)
  unfolding do_matched
  NotAsked-do_matched path line items k s none found h =
      NotAsked-post_group path line items k s
        (elim (Bool-cases (same k fp)) [ inl e ↦ absurd (found e refl) | inr e ↦ e ]) h
  NotAsked-do_matched path line items k s (some prior) found h =
      elim (Bool-cases prior.metadata.resolved) [
        | inl e ↦ rw (e, skip_group) h
        | inr e ↦ rw (e, skip_group) h
      ]

  matched_entry-found :
      (prior : List (Text × Prior Tracked)) (path : Text) (line : ℤ) (k : Text)
      → has k prior ≡ true
      → matched_entry w prior path line k ≢ none
  unfolding matched_entry
  matched_entry-found prior path line k h e = elim (Option-cases (get k prior)) [
    | inl f ↦ absurd (cc)
    | inr (entry, f) ↦ absurd (cc)
  ]

  NotAsked-do_groups :
      (prior : List (Text × Prior Tracked)) (groups : List Group) (s : State)
      → has fp prior ≡ true
      → NotAsked s
      → NotAsked (do_groups w prior groups s)
  unfolding do_groups do_group
  NotAsked-do_groups prior [] s known h = h
  NotAsked-do_groups prior (((path, line), items) ∷ groups) s known h =
      let k = fingerprint w.hash w.str path line (diff_of w path) in
      let matched = matched_entry w prior path line k in
      NotAsked-do_groups prior groups (do_group w prior ((path, line), items) s) known
        (elim s.stopped
          as (λ b. NotAsked (if b then s else do_matched w path line items k s matched)) [
            | true ↦ h
            | false ↦
                NotAsked-do_matched path line items k s matched
                  (λ e.
                    matched_entry-found prior path line k
                      (subst (λ j. has j prior ≡ true) (sym (same-eq k fp e)) known))
                  h
          ])

  auto_resolve-log :
      (results : List ReviewResult) (seen : List Text) (prior : List (Text × Prior Tracked))
      (s : State)
      → (auto_resolve w results seen prior s).log ≡ s.log
  unfolding auto_resolve close_entry apply_status
  auto_resolve-log results seen [] s = refl
  auto_resolve-log results seen ((k, entry) ∷ prior) s =
      auto_resolve-log results seen prior _ ∙ ground arith

  NotAsked-run_from :
      (results : List ReviewResult) (prior : List (Text × Prior Tracked)) (c : Option Collected)
      (s : State)
      → has fp prior ≡ true
      → NotAsked s
      → NotAsked (run_from w results prior c s)
  unfolding run_from
  NotAsked-run_from results prior none s known h = h
  NotAsked-run_from results prior (some (groups, seen)) s known h =
      ap (any (asks_for fp)) (auto_resolve-log results seen prior (do_groups w prior groups s))
      ∙ NotAsked-do_groups prior groups s known h

run_from-opens :
    (w : World) (fp : Text) (results : List ReviewResult) (prior : List (Text × Prior Tracked))
    (c : Option Collected) (s : State)
    → AreSeenIfAny w c
    → any (made fp) s.log ≡ false
    → any (made fp) (run_from w results prior c s).log ≡ true
    → is_open fp (run_from w results prior c s).files ≡ true
unfolding run_from
run_from-opens w fp results prior none s h clear m = absurd (cc)
run_from-opens w fp results prior (some (groups, seen)) s h clear m =
    (Kept-auto_resolve w fp seen results prior (do_groups w prior groups s)
      (Kept-do_groups w fp seen prior groups s h (λ k. absurd (cc))) m).0

-- Whatever a run has made a comment for is open in its store: when the next run starts from that
-- store, it asks for no comment with that fingerprint, whatever its findings, its diffs and the
-- entries that it reads from the platform.
pub post_review-posts_once :
    (w w' : World) (results results' : List ReviewResult)
    (api_fps api_fps' : List (Text × Prior Tracked)) (files : Files) (fp : Text)
    → any (made fp) (post_review w results api_fps files).log ≡ true
    → (is_open fp (post_review w results api_fps files).files ≡ true)
      × (any
            (asks_for fp)
            (post_review w' results' api_fps' (post_review w results api_fps files).files).log
          ≡ false)
unfolding post_review start
post_review-posts_once w w' results results' api_fps api_fps' files fp m =
    let kept : is_open fp (post_review w results api_fps files).files ≡ true =
      run_from-opens w fp results (merged_prior api_fps files) (collect w results ([], []))
        (start files) (AreSeen-collect w results ([], []) tt) refl m in
    let files' = (post_review w results api_fps files).files in
    (
      kept,
      NotAsked-run_from w' fp results' (merged_prior api_fps' files') (collect w' results' ([], []))
          (start files') (has-merged_prior fp api_fps' files' kept) refl,
    )
