-- ===== src/Tracker/Merged.antt =====
-- What `build_prior` has for each fingerprint.
use revue.Prelude.{
  ◌≡◌, refl, ◌∙◌, ap, subst, not, ◌&&◌, ◌||◌, Option, none, some, List, [], ◌∷◌, if◌then◌else◌,
  Bool-cases, inl, inr,
}
use revue.Prelude.Text.{Text, same, same-eq}
use revue.Prelude.Dict.{get, put, get-put}
use revue.Tracker.Sentinel.{text_gt}
use revue.Tracker.Prior.{
  Prior, or_blank, is_given, set_default, merge_entry, merged_entry, merge_all, build_prior,
}

-- the code's test on two time stamps is whether the first is later
is_later : (s t : Text) → (is_given s && (not (is_given t) || text_gt s t)) ≡ text_gt s t
unfolding text_gt is_given
is_later [] t = refl
is_later (c ∷ s) [] = refl
is_later (c ∷ s) (d ∷ t) = refl

module _ {M : Type 0} where
  -- no key stands twice
  abbrev pub IsDict : List (Text × Prior M) → Type 0
  IsDict [] = Unit
  IsDict ((k, entry) ∷ d) = (get k d ≡ none) × IsDict d

  -- what is expected of a fingerprint, by its two entries
  abbrev pub expected_entry : Option (Prior M) → Option (Prior M) → Option (Prior M)
  expected_entry api none = api
  expected_entry api (some local) = some (merged_entry api local)

  get-merge_all :
      (fp : Text) (merged local : List (Text × Prior M))
      → IsDict local
      → get fp (merge_all merged local) ≡ expected_entry (get fp merged) (get fp local)
  unfolding merge_all get
  get-merge_all fp merged [] h = refl
  get-merge_all fp merged ((k, entry) ∷ local) h =
      let entry' = merged_entry (get k merged) entry in
      let later = get-merge_all fp (put k entry' merged) local h.1 in
      let written = get-put fp k entry' merged in
      elim (Bool-cases (same k fp)) [
        | inl e ↦
            let one = same-eq k fp e in
            let absent : get fp local ≡ none = subst (λ j. get j local ≡ none) one h.0 in
            let there : get fp (put k entry' merged) ≡ some entry' = written ∙ rw e refl in
            rw e (
              later
              ∙ ap (expected_entry (get fp (put k entry' merged))) absent
              ∙ there
              ∙ ap (λ j. some (merged_entry (get j merged) entry)) one)
        | inr e ↦ rw e (later ∙ ap (λ o. expected_entry o (get fp local)) (written ∙ rw e refl))
      ]

  abbrev pub newest_state : Prior M → Prior M → Text
  newest_state api local =
      if text_gt (or_blank api.sentinel_ts) (or_blank local.sentinel_ts)
      then or_blank api.sentinel_state
      else if is_given (or_blank local.sentinel_ts)
      then or_blank (set_default local.sentinel_state (or_blank api.sentinel_state))
      else or_blank local.sentinel_state

  merge_entry-newest :
      (api local : Prior M)
      → ((merge_entry api local).metadata ≡ local.metadata)
        × (or_blank (merge_entry api local).sentinel_ts ≡ (
            if text_gt (or_blank api.sentinel_ts) (or_blank local.sentinel_ts)
            then or_blank api.sentinel_ts
            else or_blank local.sentinel_ts))
        × (or_blank (merge_entry api local).sentinel_state ≡ newest_state api local)
  unfolding merge_entry or_blank
  merge_entry-newest api local =
      let api_ts = or_blank api.sentinel_ts in
      let local_ts = or_blank local.sentinel_ts in
      elim (Bool-cases (text_gt api_ts local_ts)) [
        | inl e ↦
            let later = is_later api_ts local_ts ∙ e in
            rw (later, e, merge_entry) (refl, refl, refl)
        | inr e ↦
            let no_later = is_later api_ts local_ts ∙ e in
            elim (Bool-cases (is_given local_ts)) [
              | inl f ↦ rw (no_later, e, f, merge_entry) (refl, refl, refl)
              | inr f ↦ rw (no_later, e, f, merge_entry) (refl, refl, refl)
            ]
      ]

  -- For a fingerprint that the local store (a dict, whose keys do not repeat) and the platform both
  -- have, `build_prior` takes the other fields from the local entry, the later of the two time
  -- stamps, and the state that goes with it: the platform's if its time stamp is later, and else the
  -- local one, which the platform's replaces only where it is missing beside a time stamp.
  pub build_prior-newest :
      (prior_unresolved api_fps : List (Text × Prior M)) (fp : Text) (local api : Prior M)
      → IsDict prior_unresolved
      → get fp prior_unresolved ≡ some local
      → get fp api_fps ≡ some api
      → (entry : Prior M) × (get fp (build_prior prior_unresolved api_fps) ≡ some entry)
        × (entry.metadata ≡ local.metadata)
        × (or_blank entry.sentinel_ts ≡ (
            if text_gt (or_blank api.sentinel_ts) (or_blank local.sentinel_ts)
            then or_blank api.sentinel_ts
            else or_blank local.sentinel_ts))
        × (or_blank entry.sentinel_state ≡ newest_state api local)
  unfolding build_prior merged_entry
  build_prior-newest prior_unresolved api_fps fp local api h in_local in_api =
      let newest = merge_entry-newest api local in
      (
        merge_entry api local,
        get-merge_all fp api_fps prior_unresolved h ∙ rw (in_local, in_api) refl,
        newest.0,
        newest.1,
        newest.2,
      )
