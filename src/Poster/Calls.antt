-- ===== src/Poster/Calls.antt =====
-- How often a run calls the platform.
use revue.Prelude.{
  all, ℕ, suc, ◌+◌, ◌≤◌, ◌≡◌, refl, ap, ◌∙◌, Bool, true, false, not, ◌||◌, ◌==◌, Option, none, some,
  List, [], ◌∷◌, ◌&&◌, any, count, if◌then◌else◌, arith, Bool-cases, Option-cases, inl, inr,
}
use revue.Prelude.Int.{ℤ}
use revue.Prelude.Text.{Text, same}
use revue.Position.Adapter.{ApiParams}
use revue.Tracker.States.{HunkState}
use revue.Tracker.Prior.{Prior}
use revue.Poster.Fingerprint.{fingerprint}
use revue.Poster.Fields.{Finding}
use revue.Poster.Store.{Files}
use revue.Poster.World.{ReviewResult, Tracked, Call, post, evict, World, State, Group}
use revue.Poster.Collect.{diff_of, Collected, collect}
use revue.Poster.Run.{
  matched_entry, skip_group, sink_group, Place, post_at, count_group, call_post, evict_and_retry,
  retry, record_post, post_group, post_with_params_or_evict_and_retry, place, unanchored, stuck,
  at_lines,
}
use revue.Poster.Review.{
  start, do_matched, do_group, do_groups, is_closed, is_touched, apply_status, close_entry,
  auto_resolve, merged_prior, run_from, post_review,
}

right_false : (a b : Bool) → (a || b) ≡ false → b ≡ false
right_false true b h = absurd (cc)
right_false false b h = h

abbrev pub is_post : Call → Bool
is_post (post k params body lines id) = true
is_post evict = false

abbrev pub is_evict : Call → Bool
is_evict (post k params body lines id) = false
is_evict evict = true

abbrev pub is_made : Call → Bool
is_made (post k params body lines none) = false
is_made (post k params body lines (some id)) = true
is_made evict = false

-- the counters of a state agree with its calls
abbrev Counted : State → Type 0
Counted s =
    (count is_made s.log ≡ s.posted)
    × (count is_post s.log ≤ s.posted + s.failed + count is_evict s.log)
    × (count is_evict s.log ≡ (if s.evicted then 1 else 0))

-- one attempt, before it is recorded
abbrev Tried : State → Option Text → Type 0
Tried s id =
    (count is_made s.log ≡ (elim id [ none ↦ 0 | some t ↦ 1 ]) + s.posted)
    × (count is_post s.log ≤ suc (s.posted + s.failed + count is_evict s.log))
    × (count is_evict s.log ≡ (if s.evicted then 1 else 0))

module _ (w : World) where
  Tried-call_post :
      (k : Text) (params : ApiParams) (body : Text) (lines : ℕ) (s : State)
      → (count is_made s.log ≡ s.posted)
      → (count is_post s.log ≤ s.posted + s.failed + count is_evict s.log)
      → (count is_evict s.log ≡ (if s.evicted then 1 else 0))
      → Tried (call_post w k params body lines s).0 (call_post w k params body lines s).1
  unfolding call_post
  Tried-call_post k params body lines s a b c =
      elim (Option-cases (w.post_answer s.log params body)) [
        | inl e ↦ rw e (omega (arith, a), omega (arith, b), c)
        | inr (id, e) ↦ rw e (omega (arith, a), omega (arith, b), c)
      ]

  Tried-retry :
      (k : Text) (params : ApiParams) (body : Text) (lines : ℕ) (s : State) (id : Option Text)
      → Tried s id
      → Tried (retry w k params body lines (s, id)).0 (retry w k params body lines (s, id)).1
  unfolding retry evict_and_retry
  Tried-retry k params body lines s (some id) h = h
  Tried-retry k params body lines s none h =
      elim (Bool-cases (not (w.limit_reached s.log) || s.evicted)) [
        | inl e ↦ rw (e, retry) h
        | inr e ↦
            let fresh : count is_evict s.log ≡ 0 =
              h.2 ∙ ap (λ b. if b then 1 else 0) (right_false _ s.evicted e) in
            rw (e, retry)
              (elim (Bool-cases (w.evict_answer s.log == 0)) [
                | inl f ↦ rw (f, evict_and_retry) (h.0, omega (arith, h.1), ap suc fresh)
                | inr f ↦
                    rw (f, evict_and_retry)
                      (Tried-call_post k params body lines
                        (record s { evicted = true; log = evict ∷ s.log }) (omega (arith, h.0))
                        (omega (arith, h.1)) (ap suc fresh))
              ])
      ]

  Counted-record_post :
      (path : Text) (line : ℤ) (k body : Text) (s : State) (id : Option Text)
      → Tried s id
      → Counted (record_post w path line k body (s, id))
  unfolding record_post
  Counted-record_post path line k body s none h = (omega (arith, h.0), omega (arith, h.1), h.2)
  Counted-record_post path line k body s (some id) h = (omega (arith, h.0), omega (arith, h.1), h.2)

  Counted-post_at :
      (path : Text) (line : ℤ) (items : List Finding) (k body : Text) (s : State) (p : Place)
      → Counted s
      → Counted (post_at w path line items k body s p)
  unfolding post_at sink_group post_with_params_or_evict_and_retry
  Counted-post_at path line items k body s stuck h = h
  Counted-post_at path line items k body s unanchored h =
      elim (Bool-cases (all (w.sinks path line) items)) [
        | inl e ↦ rw (e, sink_group) h
        | inr e ↦ rw (e, sink_group) h
      ]
  Counted-post_at path line items k body s (at_lines params n) h =
      let r = call_post w k params body n s in
      let r' = retry w k params body n r in
      Counted-record_post path line k body r'.0 r'.1
        (Tried-retry k params body n r.0 r.1 (Tried-call_post k params body n s h.0 h.1 h.2))

  Counted-do_matched :
      (path : Text) (line : ℤ) (items : List Finding) (k : Text) (s : State)
      (matched : Option (Prior Tracked))
      → Counted s
      → Counted (do_matched w path line items k s matched)
  unfolding do_matched post_group count_group
  Counted-do_matched path line items k s none h = elim (Option-cases (w.body path line items k)) [
    | inl e ↦ rw (e, post_group) h
    | inr ((body, lines), e) ↦
        rw (e, post_group)
          (Counted-post_at path line items k body (count_group items s) (place w path line lines) h)
  ]
  Counted-do_matched path line items k s (some prior) h =
      elim (Bool-cases prior.metadata.resolved) [
        | inl e ↦ rw (e, skip_group) h
        | inr e ↦ rw (e, skip_group) h
      ]

  Counted-do_groups :
      (prior : List (Text × Prior Tracked)) (groups : List Group) (s : State)
      → Counted s
      → Counted (do_groups w prior groups s)
  unfolding do_groups do_group
  Counted-do_groups prior [] s h = h
  Counted-do_groups prior (((path, line), items) ∷ groups) s h =
      let k = fingerprint w.hash w.str path line (diff_of w path) in
      let matched = matched_entry w prior path line k in
      Counted-do_groups prior groups (do_group w prior ((path, line), items) s)
        (elim s.stopped
          as (λ b. Counted (if b then s else do_matched w path line items k s matched)) [
            | true ↦ h
            | false ↦ Counted-do_matched path line items k s matched h
          ])

  Counted-apply_status :
      (path k : Text) (s : State) (status : Option HunkState)
      → Counted s
      → Counted (apply_status w path k s status)
  unfolding apply_status
  Counted-apply_status path k s none h = h
  Counted-apply_status path k s (some state) h = elim (Bool-cases (is_closed state)) [
    | inl e ↦ rw (e, apply_status) h
    | inr e ↦ rw (e, apply_status) h
  ]

  Counted-auto_resolve :
      (results : List ReviewResult) (seen : List Text) (prior : List (Text × Prior Tracked))
      (s : State)
      → Counted s
      → Counted (auto_resolve w results seen prior s)
  unfolding auto_resolve close_entry
  Counted-auto_resolve results seen [] s h = h
  Counted-auto_resolve results seen ((k, entry) ∷ prior) s h =
      let path = entry.metadata.file_path in
      let s' = apply_status w path k s (w.status k entry (diff_of w path)) in
      let passed_over =
        (not (same path []) && not (is_touched w results path))
        || same entry.metadata.platform_comment_id [] in
      Counted-auto_resolve results seen prior
        (if s.stopped || any (same k) seen then s else close_entry w results k entry s)
        (elim (s.stopped || any (same k) seen)
          as (λ b. Counted (if b then s else (if passed_over then s else s'))) [
            | true ↦ h
            | false ↦ elim passed_over as (λ b. Counted (if b then s else s')) [
              | true ↦ h
              | false ↦ Counted-apply_status path k s (w.status k entry (diff_of w path)) h
            ]
          ])

  Counted-run_from :
      (results : List ReviewResult) (prior : List (Text × Prior Tracked)) (c : Option Collected)
      (s : State)
      → Counted s
      → Counted (run_from w results prior c s)
  unfolding run_from
  Counted-run_from results prior none s h = h
  Counted-run_from results prior (some (groups, seen)) s h =
      Counted-auto_resolve results seen prior (do_groups w prior groups s)
        (Counted-do_groups prior groups s h)

-- The calls of a run, whatever the platform answers: the comments that it has made are as many as
-- it counts as posted, it asks for at most one more than it counts as posted or failed, and it
-- removes resolved comments at most once.
pub post_review-calls :
    (w : World) (results : List ReviewResult) (api_fps : List (Text × Prior Tracked))
    (files : Files)
    → (count is_made (post_review w results api_fps files).log
        ≡ (post_review w results api_fps files).posted)
      × (count is_post (post_review w results api_fps files).log
          ≤ (post_review w results api_fps files).posted
            + (post_review w results api_fps files).failed
            + 1)
      × (count is_evict (post_review w results api_fps files).log ≤ 1)
unfolding post_review start
post_review-calls w results api_fps files =
    let s = post_review w results api_fps files in
    let h : Counted s =
      Counted-run_from w results (merged_prior api_fps files) (collect w results ([], []))
        (start files) (refl, omega arith, refl) in
    let once : count is_evict s.log ≤ 1 = elim (Bool-cases s.evicted) [
      | inl e ↦ omega (arith, h.2 ∙ ap (λ b. if b then 1 else 0) e)
      | inr e ↦ omega (arith, h.2 ∙ ap (λ b. if b then 1 else 0) e)
    ] in
    (h.0, omega (arith, h.1, once), once)
