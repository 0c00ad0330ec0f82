-- ===== src/Noise/Applied.antt =====
-- What `apply_noise_filters` keeps and suppresses.
use revue.Prelude.{
  map, not, sym, ap, ◌∙◌, ◌≡◌, refl, Bool, true, false, Option, none, some, List, [], ◌∷◌, ◌++◌,
  String, str_eq, eq_iff, ◌&&◌, any, All, arith, Bool-cases, Option-cases, inl, inr,
}
use mathlib.Core.List.{append_assoc, append-nil}
use revue.Router.Signal.{filter}
use revue.Prelude.Text.{Text}
use revue.Noise.{
  AiReview, NoiseFilter, FilterResult, holds, enabled, build_filters, low_confidence_filter,
  test_file_filter, generated_file_filter, empty_issue_filter, suppressed_by, named, file_review,
  filter_from, apply_noise_filters,
}

abbrev pub is_listed : List String → String → Bool
is_listed names name = any (λ n. str_eq n name) names

All-append {ℓ κ} :
    {A : Type ℓ} (P : A → Type κ) (xs : List A) (x : A) → All P xs → P x → All P (xs ++ x ∷ [])
All-append P [] x h p = (p, tt)
All-append P (y ∷ ys) x h p = (h.0, All-append P ys x h.1 p)

module _ {Float : Type 0} where
  -- a filter says yes; one that raises (`none`) does not
  abbrev pub suppresses : AiReview Float → NoiseFilter Float → Bool
  suppresses review f = elim (f.should_suppress review) [
    | some yes_or_no ↦ yes_or_no
    | none ↦ false
  ]

  abbrev pub decision : AiReview Float → List (NoiseFilter Float) → Option String
  decision review active = named (suppressed_by review active)

  module _ (active : List (NoiseFilter Float)) (S : AiReview Float × String → Type 0)
      (drops : (review : AiReview Float) (name : String)
        → decision review active ≡ some name
        → S (review, name)) where
    filter_from-All :
        (r : FilterResult Float) (findings : List (AiReview Float))
        → All S r.suppressed
        → All S (filter_from active r findings).suppressed
    unfolding filter_from file_review
    filter_from-All r [] s = s
    filter_from-All r (review ∷ findings) s = elim (Option-cases (decision review active)) [
      | inl e ↦
          rw (e, filter_from)
            (filter_from-All (record r { kept = r.kept ++ review ∷ [] }) findings s)
      | inr (name, e) ↦
          rw (e, filter_from)
            (filter_from-All (record r { suppressed = r.suppressed ++ (review, name) ∷ [] })
              findings (All-append S r.suppressed (review, name) s (drops review name e)))
    ]

  abbrev pub HasName : NoiseFilter Float → Type 0
  HasName f = str_eq f.name "" ≡ false

  decision-none :
      (review : AiReview Float) (active : List (NoiseFilter Float))
      → All HasName active
      → decision review active ≡ none
      → any (suppresses review) active ≡ false
  unfolding named suppressed_by holds
  decision-none review [] h e = refl
  decision-none review (f ∷ active) h e = ground (arith, decision-none review active h.1, h.0)

  -- a filter of this name that suppresses the finding
  abbrev pub suppresses_as : AiReview Float → String → NoiseFilter Float → Bool
  suppresses_as review name f = str_eq f.name name && suppresses review f

  decision-some :
      (review : AiReview Float) (active : List (NoiseFilter Float)) (name : String)
      → decision review active ≡ some name
      → any (suppresses_as review name) active ≡ true
  unfolding named suppressed_by holds
  decision-some review [] name e = ground arith
  decision-some review (f ∷ active) name e =
      ground (arith, decision-some review active name, eq_iff f.name name)

  any-suppresses :
      (review : AiReview Float) (active : List (NoiseFilter Float)) (name : String)
      → decision review active ≡ some name
      → any (suppresses review) active ≡ true
  unfolding named suppressed_by holds
  any-suppresses review [] name e = ground arith
  any-suppresses review (f ∷ active) name e = ground (arith, any-suppresses review active name)

  abbrev pub reviews_of : List (AiReview Float × String) → List (AiReview Float)
  reviews_of entries = map (λ entry. entry.0) entries

  reviews_of-append :
      (entries : List (AiReview Float × String)) (entry : AiReview Float × String)
      → reviews_of (entries ++ entry ∷ []) ≡ reviews_of entries ++ entry.0 ∷ []
  reviews_of-append [] entry = refl
  reviews_of-append (x ∷ entries) entry = ap (λ l. x.0 ∷ l) (reviews_of-append entries entry)

  -- the two results after the findings
  abbrev Splits : List (NoiseFilter Float) → FilterResult Float → List (AiReview Float) → Type 0
  Splits active r findings =
      ((filter_from active r findings).kept
        ≡ r.kept ++ filter (λ review. not (any (suppresses review) active)) findings)
      × (reviews_of (filter_from active r findings).suppressed
          ≡ reviews_of r.suppressed ++ filter (λ review. any (suppresses review) active) findings)

  filter_from-Splits :
      (active : List (NoiseFilter Float)) (r : FilterResult Float)
      (findings : List (AiReview Float))
      → All HasName active
      → Splits active r findings
  unfolding filter_from file_review filter
  filter_from-Splits active r [] h =
      (sym (append-nil r.kept), sym (append-nil (reviews_of r.suppressed)))
  filter_from-Splits active r (review ∷ findings) h = elim (Option-cases (decision review active)) [
    | inl e ↦
        let passes = decision-none review active h e in
        let rest =
          filter_from-Splits active (record r { kept = r.kept ++ review ∷ [] }) findings h in
        rw (e, filter_from) (rw passes (rest.0 ∙ append_assoc r.kept (review ∷ []) _, rest.1))
    | inr (name, e) ↦
        let caught = any-suppresses review active name e in
        let rest =
          filter_from-Splits active (record r { suppressed = r.suppressed ++ (review, name) ∷ [] })
            findings h in
        rw (e, filter_from)
          (rw caught (
            rest.0,
            rest.1
                ∙ ap (λ l. l ++ filter (λ x. any (suppresses x) active) findings)
                    (reviews_of-append r.suppressed (review, name))
                ∙ append_assoc (reviews_of r.suppressed) (review ∷ []) _,
          ))
  ]

  -- If all filters have names, then `apply_noise_filters` keeps exactly the findings that no filter
  -- suppresses and suppresses exactly the others, both in their order, and lists each suppressed
  -- finding with the name of a filter that suppresses it. A filter that raises suppresses nothing.
  pub apply_noise_filters-decided :
      (findings : List (AiReview Float)) (active : List (NoiseFilter Float))
      → All HasName active
      → ((apply_noise_filters findings active).kept
          ≡ filter (λ review. not (any (suppresses review) active)) findings)
        × (reviews_of (apply_noise_filters findings active).suppressed
            ≡ filter (λ review. any (suppresses review) active) findings)
        × All
            (λ entry. any (suppresses_as entry.0 entry.1) active ≡ true)
            (apply_noise_filters findings active).suppressed
  unfolding apply_noise_filters
  apply_noise_filters-decided findings active h =
      let nothing : FilterResult Float = record { kept = []; suppressed = [] } in
      let split = filter_from-Splits active nothing findings h in
      (
        split.0,
        split.1,
        filter_from-All active (λ entry. any (suppresses_as entry.0 entry.1) active ≡ true)
            (λ review name e. decision-some review active name e) nothing findings tt,
      )

  abbrev IsEnabled : List String → NoiseFilter Float → Type 0
  IsEnabled disabled f = is_listed disabled f.name ≡ false

  enabled-IsEnabled :
      (disabled : List String) (filters : List (NoiseFilter Float))
      → All (IsEnabled disabled) (enabled disabled filters)
  unfolding enabled
  enabled-IsEnabled disabled [] = tt
  enabled-IsEnabled disabled (f ∷ filters) = elim (Bool-cases (is_listed disabled f.name)) [
    | inl listed ↦ rw (listed, enabled) (enabled-IsEnabled disabled filters)
    | inr active ↦ rw (active, enabled) (active, enabled-IsEnabled disabled filters)
  ]

  decision-enabled :
      (disabled : List String) (review : AiReview Float) (active : List (NoiseFilter Float))
      (name : String)
      → All (IsEnabled disabled) active
      → decision review active ≡ some name
      → is_listed disabled name ≡ false
  unfolding named suppressed_by holds
  decision-enabled disabled review [] name h e = ground arith
  decision-enabled disabled review (f ∷ active) name h e =
      ground (arith, decision-enabled disabled review active name h.1, h.0)

  -- A filter whose name is disabled in the configuration suppresses no finding.
  apply_noise_filters-build_filters :
      (lt_float : Float → Float → Bool) (lower : Text → Text)
      (pattern_filters : List (NoiseFilter Float)) (disabled : List String) (threshold : Float)
      (findings : List (AiReview Float))
      → All
          (λ entry. is_listed disabled entry.1 ≡ false)
          (apply_noise_filters findings
            (build_filters lt_float lower pattern_filters disabled threshold)).suppressed
  unfolding apply_noise_filters build_filters
  apply_noise_filters-build_filters lt_float lower pattern_filters disabled threshold findings =
      let active = build_filters lt_float lower pattern_filters disabled threshold in
      let all_enabled : All (IsEnabled disabled) active = enabled-IsEnabled disabled (
        low_confidence_filter lt_float lower threshold
        ∷ test_file_filter lt_float lower
        ∷ generated_file_filter lt_float lower
        ∷ empty_issue_filter lt_float lower
        ∷ pattern_filters) in
      filter_from-All active (λ entry. is_listed disabled entry.1 ≡ false)
        (λ review name e. decision-enabled disabled review active name all_enabled e)
        (record { kept = []; suppressed = [] }) findings tt
