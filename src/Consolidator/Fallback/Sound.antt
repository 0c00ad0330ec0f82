-- ===== src/Consolidator/Fallback/Sound.antt =====
-- The fallback on a valid group.
use revue.Prelude.{
  ◌≡◌, ◌≢◌, ◌⊎◌, refl, ap, ◌∙◌, ◌≤◌, ◌<◌, ℕ, Bool, true, ◌||◌, some, List, [], ◌∷◌, ◌++◌, String,
  if◌then◌else◌, ltb, All, arith, Option-cases, inl, inr,
}
use revue.Prelude.Text.{Text, same, same_refl}
use revue.Consolidator.Findings.{
  Attribution, AgentFinding, SynthesisGroup, ConsolidatedFinding, is_some_text, is_some_list,
  valid_finding, valid_group, valid_consolidated,
}
use revue.Consolidator.Vote.{vote, lines_of, majority_vote_line, reconcile_anchor_line}
use revue.Consolidator.Vote.Majority.{votes, vote-votes}
use revue.Consolidator.Fallback.{
  severity_order, best_severity, seen, see, attribute, or_nova, max_confidence, fallback_of,
  fallback_on, deterministic_fallback,
}

seen-append :
    (name : Text) (a : Attribution) (xs : List Attribution)
    → seen name (xs ++ a ∷ []) ≡ (seen name xs || same name a.agent_name)
unfolding seen
seen-append name a [] = ground arith
seen-append name a (x ∷ xs) = ground (arith, seen-append name a xs)

or_nova-some : (category : Text) (xs : List Attribution) → is_some_list (or_nova category xs) ≡ true
unfolding or_nova
or_nova-some category [] = refl
or_nova-some category (x ∷ xs) = refl

seen-or_nova :
    (name category : Text) (xs : List Attribution)
    → seen name xs ≡ true
    → seen name (or_nova category xs) ≡ true
unfolding or_nova seen
seen-or_nova name category [] h = ground arith
seen-or_nova name category (x ∷ xs) h = h

-- a vote is for one of the lines
voted_line : (x : ℕ) (lines : List ℕ) → All (λ l. 0 < l) lines → 0 < votes x lines → 0 < x
voted_line x [] h v = absurd (omega (arith, v))
voted_line x (line ∷ lines) h v = ground (arith, voted_line x lines h.1)

vote-positive : (x : ℕ) (lines : List ℕ) → All (λ l. 0 < l) lines → vote lines ≡ some x → 0 < x
unfolding vote
vote-positive x [] h e = ground arith
vote-positive x (line ∷ []) h e = ground arith
vote-positive x (line ∷ other ∷ lines) h e =
    let won = (vote-votes x (line ∷ other ∷ lines) (omega arith)).0 e in
    voted_line x (line ∷ other ∷ lines) h (ground arith)

module _ {Float : Type 0} where
  seen-see :
      (name : Text) (xs : List Attribution) (f : AgentFinding Float)
      → seen name xs ≡ true
      → seen name (see xs f) ≡ true
  unfolding see
  seen-see name xs f h =
      ground
        (arith, seen-append name (record { agent_name = f.agent_name; category = f.category }) xs)

  see-name :
      (xs : List Attribution) (f : AgentFinding Float)
      → is_some_text f.agent_name ≡ true
      → seen f.agent_name (see xs f) ≡ true
  unfolding see
  see-name xs f h = ground (
    arith,
    same_refl f.agent_name,
    seen-append f.agent_name (record { agent_name = f.agent_name; category = f.category }) xs,
  )

  seen-attribute :
      (name : Text) (xs : List Attribution) (fs : List (AgentFinding Float))
      → seen name xs ≡ true
      → seen name (attribute xs fs) ≡ true
  unfolding attribute
  seen-attribute name xs [] h = h
  seen-attribute name xs (f ∷ fs) h = seen-attribute name (see xs f) fs (seen-see name xs f h)

  attribute-All :
      (xs : List Attribution) (fs : List (AgentFinding Float))
      → All (λ f. is_some_text f.agent_name ≡ true) fs
      → All (λ f. seen f.agent_name (attribute xs fs) ≡ true) fs
  unfolding attribute
  attribute-All xs [] h = tt
  attribute-All xs (f ∷ fs) h = (
    seen-attribute f.agent_name (see xs f) fs (see-name xs f h.0),
    attribute-All (see xs f) fs h.1,
  )

  abbrev pub IsNotBelow : String → AgentFinding Float → Type 0
  IsNotBelow s f = severity_order s ≤ severity_order f.severity

  best_severity-least :
      (s : String) (fs : List (AgentFinding Float))
      → (severity_order (best_severity s fs) ≤ severity_order s)
        × All (IsNotBelow (best_severity s fs)) fs
  unfolding best_severity
  best_severity-least s [] = (omega arith, tt)
  best_severity-least s (f ∷ fs) =
      let next = if ltb (severity_order f.severity) (severity_order s) then f.severity else s in
      let (first, others) = best_severity-least next fs in
      let small : (severity_order next ≤ severity_order s)
          × (severity_order next ≤ severity_order f.severity) =
        ground arith in
      (omega (arith, first, small.0), (omega (arith, first, small.1), others))

  lines_of-positive :
      (in_unit : Float → Bool) (fs : List (AgentFinding Float))
      → All (λ f. valid_finding in_unit f ≡ true) fs
      → All (λ l. 0 < l) (lines_of fs)
  unfolding valid_finding
  lines_of-positive in_unit [] h = tt
  lines_of-positive in_unit (f ∷ fs) h = (ground (arith, h.0), lines_of-positive in_unit fs h.1)

  anchor-positive :
      (in_unit : Float → Bool) (g : SynthesisGroup Float)
      → All (λ f. valid_finding in_unit f ≡ true) g.findings
      → 0 < g.line_range.0
      → 0 < reconcile_anchor_line g g.line_range.0
  unfolding reconcile_anchor_line majority_vote_line
  anchor-positive in_unit g h some_line = elim (Option-cases (vote (lines_of g.findings))) [
    | inl none_won ↦ rw (none_won, reconcile_anchor_line) some_line
    | inr (x, e) ↦
        let positive : 0 < x =
          vote-positive x (lines_of g.findings) (lines_of-positive in_unit g.findings h) e in
        rw (e, reconcile_anchor_line) (ground (arith, positive, some_line))
  ]

  named :
      (in_unit : Float → Bool) (fs : List (AgentFinding Float))
      → All (λ f. valid_finding in_unit f ≡ true) fs
      → All (λ f. is_some_text f.agent_name ≡ true) fs
  unfolding valid_finding
  named in_unit [] h = tt
  named in_unit (f ∷ fs) h = (ground (arith, h.0), named in_unit fs h.1)

  All-seen-or_nova :
      (category : Text) (xs : List Attribution) (fs : List (AgentFinding Float))
      → All (λ f. seen f.agent_name xs ≡ true) fs
      → All (λ f. seen f.agent_name (or_nova category xs) ≡ true) fs
  All-seen-or_nova category xs [] h = tt
  All-seen-or_nova category xs (f ∷ fs) h =
      (seen-or_nova f.agent_name category xs h.0, All-seen-or_nova category xs fs h.1)

  list-cases :
      (fs : List (AgentFinding Float))
      → (fs ≡ [])
        ⊎ ((f : AgentFinding Float) × (rest : List (AgentFinding Float)) × (fs ≡ f ∷ rest))
  list-cases [] = inl refl
  list-cases (f ∷ rest) = inr (f, rest, refl)

  empty_group : (g : SynthesisGroup Float) → valid_group g ≡ true → g.findings ≢ []
  unfolding valid_group
  empty_group g ok e = ground (arith, ok, e)

  module _ (lt_float : Float → Float → Bool) (in_unit : Float → Bool) where
    max_confidence-in_unit :
        (best : Float) (fs : List (AgentFinding Float))
        → in_unit best ≡ true
        → All (λ f. valid_finding in_unit f ≡ true) fs
        → in_unit (max_confidence lt_float in_unit best fs) ≡ true
    unfolding max_confidence valid_finding
    max_confidence-in_unit best [] b h = b
    max_confidence-in_unit best (f ∷ fs) b h =
        let next = if lt_float best f.confidence then f.confidence else best in
        max_confidence-in_unit next fs (ground (arith, b, h.0)) h.1

    -- what is promised of the finding `c` that stands for the group
    pub record IsSound (g : SynthesisGroup Float) (c : ConsolidatedFinding Float) : Type 0 where
      pub valid : valid_consolidated in_unit c ≡ true
      pub placed : c.file_path ≡ g.file_path
      pub severest : All (IsNotBelow c.severity) g.findings
      pub attributed : All (λ f. seen f.agent_name c.attribution ≡ true) g.findings

    fallback_of-valid :
        (g : SynthesisGroup Float) (f : AgentFinding Float) (fs : List (AgentFinding Float))
        → valid_group g ≡ true
        → All (λ f. valid_finding in_unit f ≡ true) g.findings
        → All (λ f. valid_finding in_unit f ≡ true) (f ∷ fs)
        → valid_consolidated in_unit (fallback_of lt_float in_unit g f fs) ≡ true
    unfolding fallback_of valid_group valid_consolidated valid_finding
    fallback_of-valid g f fs ok h hs =
        let line = anchor-positive in_unit g h (ground (arith, ok)) in
        let confident = max_confidence-in_unit f.confidence fs (ground (arith, hs.0)) hs.1 in
        let some_agent = or_nova-some f.category (attribute [] (f ∷ fs)) in
        rw (some_agent, confident) (ground (arith, ok, line))

    fallback_of-IsSound :
        (g : SynthesisGroup Float) (f : AgentFinding Float) (fs : List (AgentFinding Float))
        → g.findings ≡ f ∷ fs
        → valid_group g ≡ true
        → All (λ f. valid_finding in_unit f ≡ true) g.findings
        → IsSound g (fallback_of lt_float in_unit g f fs)
    unfolding fallback_of
    fallback_of-IsSound g f fs e ok h =
        let hs : All (λ f. valid_finding in_unit f ≡ true) (f ∷ fs) = rw e at h in
        let (first, others) = best_severity-least f.severity fs in
        let attributed =
          All-seen-or_nova f.category (attribute [] (f ∷ fs)) (f ∷ fs)
            (attribute-All [] (f ∷ fs) (named in_unit (f ∷ fs) hs)) in
        record {
          valid = fallback_of-valid g f fs ok h hs;
          placed = refl;
          severest = rw e (first, others);
          attributed = rw e attributed;
        }

    fallback_on-valid :
        (g : SynthesisGroup Float) (f : AgentFinding Float) (fs : List (AgentFinding Float))
        → valid_consolidated in_unit (fallback_of lt_float in_unit g f fs) ≡ true
        → fallback_on lt_float in_unit g (f ∷ fs) ≡ some (fallback_of lt_float in_unit g f fs)
    unfolding fallback_on
    fallback_on-valid g f fs ok = ground (arith, ok)

    -- For a valid group of valid findings, the fallback raises nothing: it returns a valid finding in
    -- the group's file, at least as severe as each finding of the group, which attributes it to the
    -- agent of each of them.
    pub deterministic_fallback-IsSound :
        (g : SynthesisGroup Float)
        → valid_group g ≡ true
        → All (λ f. valid_finding in_unit f ≡ true) g.findings
        → (c : ConsolidatedFinding Float) × (deterministic_fallback lt_float in_unit g ≡ some c)
          × IsSound g c
    unfolding deterministic_fallback
    deterministic_fallback-IsSound g ok h = elim (list-cases g.findings) [
      | inl e ↦ absurd (empty_group g ok e)
      | inr (f, fs, e) ↦
          let sound = fallback_of-IsSound g f fs e ok h in
          (
            fallback_of lt_float in_unit g f fs,
            ap (fallback_on lt_float in_unit g) e ∙ fallback_on-valid g f fs sound.valid,
            sound,
          )
    ]
