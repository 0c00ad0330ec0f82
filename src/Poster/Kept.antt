-- ===== src/Poster/Kept.antt =====
-- A run leaves the fingerprints that it has made comments for open in the store.
use revue.Prelude.{
  all, ℕ, ◌≡◌, ap, ◌∙◌, sym, subst, true, false, not, ◌&&◌, ◌||◌, Option, none, some, List, [], ◌∷◌,
  any, if◌then◌else◌, arith, Bool-cases, Option-cases, inl, inr, All,
}
use revue.Prelude.Int.{ℤ}
use revue.Prelude.Text.{Text, codes, same, same-eq}
use revue.Position.Adapter.{ApiParams}
use revue.StateStore.Operations.{CommentState}
use revue.Tracker.States.{HunkState}
use revue.Tracker.Prior.{Prior}
use revue.Poster.Fingerprint.{fingerprint}
use revue.Poster.Fields.{Finding}
use revue.Poster.Store.{save_finding}
use revue.Poster.World.{ReviewResult, Tracked, World, State, Group}
use revue.Poster.Collect.{diff_of}
use revue.Poster.Run.{
  matched_entry, skip_group, sink_group, Place, post_at, count_group, record_post, post_group,
  place, unanchored, stuck, at_lines,
}
use revue.Poster.Review.{
  do_matched, do_group, do_groups, is_closed, is_touched, apply_status, close_entry, auto_resolve,
}
use revue.Poster.Attempts.{made, Adds, Adds-post_with_params}
use revue.Poster.Seen.{IsSeen}
use revue.Poster.Opened.{is_open, save_finding-opens, save_finding-keeps, mark_resolved-keeps}

-- a fingerprint that the run has made a comment for is open, and is one that was seen
abbrev pub Kept : Text → List Text → State → Type 0
Kept fp seen s =
    any (made fp) s.log ≡ true → (is_open fp s.files ≡ true) × (any (same fp) seen ≡ true)

not_seen :
    (k fp : Text) (seen : List Text)
    → any (same k) seen ≡ false
    → any (same fp) seen ≡ true
    → same k fp ≡ false
not_seen k fp seen unseen listed = elim (Bool-cases (same k fp)) [
  | inr e ↦ e
  | inl e ↦
      let one : any (same k) seen ≡ true =
        subst (λ j. any (same j) seen ≡ true) (sym (same-eq k fp e)) listed in
      absurd (cc)
]

module _ (w : World) (fp : Text) (seen : List Text) where
  Kept-record_post :
      (path : Text) (line : ℤ) (k body : Text) (s : State) (r : State × Option Text)
      (params : ApiParams) (lines : ℕ)
      → Adds w fp k params body lines s r
      → any (same k) seen ≡ true
      → Kept fp seen s
      → Kept fp seen (record_post w path line k body r)
  unfolding record_post
  Kept-record_post path line k body s (s', none) params lines h listed kept m =
      let old = kept (sym h.1 ∙ m) in (ap (is_open fp) h.0 ∙ old.0, old.1)
  Kept-record_post path line k body s (s', some id) params lines h listed kept m =
      elim (Bool-cases (same k fp)) [
        | inl e ↦
            let one = same-eq k fp e in
            (
              subst (λ j. is_open j (save_finding w.now path k id line body none s'.files) ≡ true)
                  one (save_finding-opens w.now path k id line body none s'.files),
              subst (λ j. any (same j) seen ≡ true) one listed,
            )
        | inr e ↦
            let old = kept (sym (h.1 ∙ ap (λ b. b || any (made fp) s.log) e) ∙ m) in
            (
              save_finding-keeps w.now path k id line body none s'.files fp
                  (ap (is_open fp) h.0 ∙ old.0),
              old.1,
            )
      ]

  Kept-post_at :
      (path : Text) (line : ℤ) (items : List Finding) (k body : Text) (s : State) (p : Place)
      → any (same k) seen ≡ true
      → Kept fp seen s
      → Kept fp seen (post_at w path line items k body s p)
  unfolding post_at
  Kept-post_at path line items k body s stuck listed kept = kept
  Kept-post_at path line items k body s unanchored listed kept =
      elim (Bool-cases (all (w.sinks path line) items)) [
        | inl e ↦ rw (e, sink_group) kept
        | inr e ↦ rw (e, sink_group) kept
      ]
  Kept-post_at path line items k body s (at_lines params n) listed kept =
      Kept-record_post path line k body s _ params n (Adds-post_with_params w fp k params body n s)
        listed kept

  Kept-post_group :
      (path : Text) (line : ℤ) (items : List Finding) (k : Text) (s : State)
      → any (same k) seen ≡ true
      → Kept fp seen s
      → Kept fp seen (post_group w path line items k s)
  unfolding post_group count_group
  Kept-post_group path line items k s listed kept = elim (Option-cases (w.body path line items k)) [
    | inl e ↦ rw (e, post_group) kept
    | inr ((body, lines), e) ↦
        rw (e, post_group)
          (Kept-post_at path line items k body (count_group items s) (place w path line lines)
            listed kept)
  ]

  Kept-do_matched :
      (path : Text) (line : ℤ) (items : List Finding) (k : Text) (s : State)
      (matched : Option (Prior Tracked))
      → any (same k) seen ≡ true
      → Kept fp seen s
      → Kept fp seen (do_matched w path line items k s matched)
  unfolding do_matched skip_group
  Kept-do_matched path line items k s none listed kept =
      Kept-post_group path line items k s listed kept
  Kept-do_matched path line items k s (some prior) listed kept =
      elim (Bool-cases prior.metadata.resolved) [
        | inl e ↦ rw (e, skip_group) kept
        | inr e ↦ rw (e, skip_group) kept
      ]

  Kept-do_group :
      (prior : List (Text × Prior Tracked)) (path : Text) (line : ℤ) (items : List Finding)
      (s : State)
      → any (same (fingerprint w.hash w.str path line (diff_of w path))) seen ≡ true
      → Kept fp seen s
      → Kept fp seen (do_group w prior ((path, line), items) s)
  unfolding do_group
  Kept-do_group prior path line items s listed kept =
      let k = fingerprint w.hash w.str path line (diff_of w path) in
      let matched = matched_entry w prior path line k in
      elim s.stopped
        as (λ b. Kept fp seen (if b then s else do_matched w path line items k s matched)) [
          | true ↦ kept
          | false ↦ Kept-do_matched path line items k s matched listed kept
        ]

  pub Kept-do_groups :
      (prior : List (Text × Prior Tracked)) (groups : List Group) (s : State)
      → All (IsSeen w seen) groups
      → Kept fp seen s
      → Kept fp seen (do_groups w prior groups s)
  unfolding do_groups
  Kept-do_groups prior [] s h kept = kept
  Kept-do_groups prior (((path, line), items) ∷ groups) s h kept =
      Kept-do_groups prior groups (do_group w prior ((path, line), items) s) h.1
        (Kept-do_group prior path line items s h.0 kept)

  Kept-apply_status :
      (path k : Text) (s : State) (status : Option HunkState)
      → any (same k) seen ≡ false
      → Kept fp seen s
      → Kept fp seen (apply_status w path k s status)
  unfolding apply_status
  Kept-apply_status path k s none unseen kept = kept
  Kept-apply_status path k s (some state) unseen kept = elim (Bool-cases (is_closed state)) [
    | inr e ↦ rw (e, apply_status) kept
    | inl e ↦
        rw (e, apply_status)
          (λ m.
            let old = kept m in
            (
              mark_resolved-keeps w.now path k CommentState.auto_resolved
                  (some (codes "auto-resolved-hunktracker")) s.files fp
                  (not_seen k fp seen unseen old.1) old.0,
              old.1,
            ))
  ]

  Kept-close_entry :
      (results : List ReviewResult) (k : Text) (entry : Prior Tracked) (s : State)
      → any (same k) seen ≡ false
      → Kept fp seen s
      → Kept fp seen (close_entry w results k entry s)
  unfolding close_entry
  Kept-close_entry results k entry s unseen kept =
      let path = entry.metadata.file_path in
      elim ((not (same path []) && not (is_touched w results path))
          || same entry.metadata.platform_comment_id [])
        as (λ b.
          Kept fp seen
            (if b then s else apply_status w path k s (w.status k entry (diff_of w path)))) [
              | true ↦ kept
              | false ↦ Kept-apply_status path k s (w.status k entry (diff_of w path)) unseen kept
            ]

  pub Kept-auto_resolve :
      (results : List ReviewResult) (prior : List (Text × Prior Tracked)) (s : State)
      → Kept fp seen s
      → Kept fp seen (auto_resolve w results seen prior s)
  unfolding auto_resolve
  Kept-auto_resolve results [] s kept = kept
  Kept-auto_resolve results ((k, entry) ∷ prior) s kept =
      elim (Bool-cases (s.stopped || any (same k) seen)) [
        | inl e ↦ rw (e, auto_resolve) (Kept-auto_resolve results prior s kept)
        | inr e ↦
            rw (e, auto_resolve)
              (Kept-auto_resolve results prior (close_entry w results k entry s)
                (Kept-close_entry results k entry s (ground arith) kept))
      ]
