-- ===== src/Router/Security.antt =====
-- The security agent under the security override.
use revue.Prelude.{
  ◌≡◌, refl, ◌∙◌, Bool, true, false, not, ◌&&◌, ◌||◌, Option, List, [], ◌∷◌, ◌++◌, ltb, arith,
  Bool-cases, Option-cases, inl, inr,
}
use revue.Prelude.Text.{Text, codes, same, same-eq, same_refl}
use revue.Router.Triggers.{FileChange, is_empty, listed, detect_primary_language}
use revue.Router.Teams.{
  Shared, TeamSelection, SelectReason, small_diff, large_diff, language_team, default_review,
  set_by_config, quick_threshold_lines, full_review_threshold_lines, total_lines, team_agents,
  team_or, default_team, security_agent_name, needs_security_override, with_security, explicit_team,
  select_by_size, selection, language_preset, select_team,
}
use revue.Router.Signal.{
  Agent, filter, is_reviewer, is_selected, triggered, algorithm, suggested, refine, signal_of,
  apply_ai_routing_signal, matches_suggestion, names_of, route,
}
use revue.Router.Floor.{algorithm-is_selected}

listed-append :
    (name other : Text) (names : List Text)
    → listed name (names ++ other ∷ []) ≡ (listed name names || same other name)
unfolding listed
listed-append name other [] = ground arith
listed-append name other (n ∷ names) = ground (arith, listed-append name other names)

with_security-listed :
    (agents : List Text) → listed security_agent_name (with_security true agents) ≡ true
unfolding with_security
with_security-listed agents = ground (
  arith,
  listed-append security_agent_name security_agent_name agents,
  same_refl security_agent_name,
)

filter_unlisted :
    (p : Agent → Bool) (xs : List Agent)
    → ((a : Agent) → same a.name security_agent_name ≡ true → p a ≡ false)
    → listed security_agent_name (names_of (filter p xs)) ≡ false
unfolding filter names_of listed
filter_unlisted p [] h = refl
filter_unlisted p (a ∷ xs) h = ground (arith, filter_unlisted p xs h, h a)

listed-names_of_append :
    (name : Text) (xs ys : List Agent)
    → listed name (names_of (xs ++ ys)) ≡ (listed name (names_of xs) || listed name (names_of ys))
unfolding names_of listed
listed-names_of_append name [] ys = refl
listed-names_of_append name (a ∷ xs) ys = ground (arith, listed-names_of_append name xs ys)

security-is_reviewer : (a : Agent) → same a.name security_agent_name ≡ true → is_reviewer a ≡ true
unfolding is_reviewer listed same
security-is_reviewer a h = rw (same-eq a.name security_agent_name h, is_reviewer)

module _ (lower : Text → Text) (fnmatch : Text → Text → Bool)
    (registry : List (Text × List Text)) where
  unnamed_agent :
      (suggestions : List Text) (a : Agent)
      → matches_suggestion lower security_agent_name suggestions ≡ false
      → same a.name security_agent_name ≡ true
      → matches_suggestion lower a.name suggestions ≡ false
  unnamed_agent suggestions a unnamed h = rw (same-eq a.name security_agent_name h) unnamed

  suggested_unlisted :
      (suggestions : List Text) (changes : List FileChange) (available filtered : List Agent)
      → matches_suggestion lower security_agent_name suggestions ≡ false
      → listed security_agent_name
          (names_of (suggested lower fnmatch suggestions changes available filtered))
        ≡ false
  unfolding suggested
  suggested_unlisted suggestions changes available filtered unnamed =
      let of_filtered =
        filter_unlisted (λ a. is_reviewer a && matches_suggestion lower a.name suggestions) filtered
          (λ a h. ground (arith, unnamed_agent suggestions a unnamed h)) in
      let of_others =
        filter_unlisted
          (λ a.
            is_reviewer a
            && matches_suggestion lower a.name suggestions
            && not (listed a.name (names_of filtered))
            && triggered lower fnmatch changes a)
          available (λ a h. ground (arith, unnamed_agent suggestions a unnamed h)) in
      ground (
        arith,
        of_filtered,
        of_others,
        listed-names_of_append security_agent_name
            (filter (λ a. is_reviewer a && matches_suggestion lower a.name suggestions) filtered)
            (filter
              (λ a.
                is_reviewer a
                && matches_suggestion lower a.name suggestions
                && not (listed a.name (names_of filtered))
                && triggered lower fnmatch changes a)
              available),
      )

  -- what is promised of a selection
  record IsSecure (override : Bool) (s : TeamSelection) : Type 0 where
    flag : s.security_override ≡ override
    agent : override ≡ true → listed security_agent_name s.agents ≡ true

  selection-IsSecure :
      (team : Text) (agents : List Text) (override : Bool) (reason : SelectReason)
      → IsSecure override (selection team (with_security override agents) override reason)
  unfolding selection
  selection-IsSecure team agents true reason = record {
    flag = refl;
    agent = λ h. with_security-listed agents;
  }
  selection-IsSecure team agents false reason = record { flag = refl; agent = λ h. cc }

  quick-IsSecure :
      (team : Text) (agents : List Text) (override : Bool) (reason : SelectReason)
      → override ≡ false
      → IsSecure override (selection team agents false reason)
  unfolding selection
  quick-IsSecure team agents true reason h = cc
  quick-IsSecure team agents false reason h = record { flag = refl; agent = λ h. cc }

  select_by_size-IsSecure :
      (changes : List FileChange) (override : Bool)
      → IsSecure override (select_by_size lower fnmatch registry changes override)
  unfolding select_by_size
  select_by_size-IsSecure changes override =
      elim (Bool-cases (ltb (total_lines changes) quick_threshold_lines && not override)) [
        | inl quick ↦
            rw (quick, select_by_size)
              (quick-IsSecure (codes "team-quick") (team_agents registry (codes "team-quick"))
                override (small_diff (total_lines changes)) (ground (arith, quick)))
        | inr slow ↦ elim (Bool-cases (ltb full_review_threshold_lines (total_lines changes))) [
          | inl large ↦
              rw (slow, large, select_by_size)
                (selection-IsSecure default_team (team_agents registry default_team) override
                  (large_diff (total_lines changes)))
          | inr medium ↦ elim (Option-cases (language_preset (detect_primary_language changes))) [
            | inl e ↦
                rw (slow, medium, e, select_by_size)
                  (selection-IsSecure default_team (team_agents registry default_team) override
                    default_review)
            | inr (team, e) ↦
                rw (slow, medium, e, select_by_size)
                  (selection-IsSecure team (team_agents registry team) override
                    (language_team (detect_primary_language changes)))
          ]
        ]
      ]

  module _ (changes : List FileChange) (shared : Option Shared) (agents_team : Option Text) where
    select_team-IsSecure :
        IsSecure
          (needs_security_override lower fnmatch registry changes shared)
          (select_team lower fnmatch registry changes shared agents_team)
    unfolding select_team
    select_team-IsSecure =
        let override = needs_security_override lower fnmatch registry changes shared in
        elim (Option-cases (explicit_team agents_team)) [
          | inl e ↦ rw (e, select_team) (select_by_size-IsSecure changes override)
          | inr (team, e) ↦
              rw (e, select_team)
                (selection-IsSecure team (team_or registry team (team_or registry default_team []))
                  override (set_by_config team))
        ]

    -- what route's algorithm does for the available security agent
    chosen_listed :
        (s : TeamSelection) (available : List Agent)
        → s.security_override ≡ true
        → listed security_agent_name s.agents ≡ true
        → listed security_agent_name (names_of available) ≡ true
        → listed security_agent_name
            (names_of (filter (is_selected lower fnmatch s changes) available))
          ≡ true
    unfolding filter is_selected names_of listed
    chosen_listed s [] flag team h = h
    chosen_listed s (a ∷ available) flag team h =
        elim (Bool-cases (same a.name security_agent_name)) [
          | inl e ↦
              let one = same-eq a.name security_agent_name e in
              let member : listed a.name s.agents ≡ true = rw one team in
              ground (arith, e, flag, member)
          | inr e ↦ ground (arith, e, chosen_listed s available flag team)
        ]

    -- Under the security override (a risk area that is critical, or a file whose name has a security
    -- pattern), the selection of `route` carries the override, its team has the security agent, and if
    -- that agent is available, then the algorithm runs it.
    pub route-security_override :
        (available : List Agent)
        → needs_security_override lower fnmatch registry changes shared ≡ true
        → listed security_agent_name (names_of available) ≡ true
        → ((route lower fnmatch registry changes available shared agents_team).0.security_override
            ≡ true)
          × (listed security_agent_name
                (route lower fnmatch registry changes available shared agents_team).0.agents
              ≡ true)
          × (listed security_agent_name
                (route lower fnmatch registry changes available shared
                  agents_team).0.algorithm_filtered_agents
              ≡ true)
    unfolding route
    route-security_override available needed there =
        let s = select_team lower fnmatch registry changes shared agents_team in
        let flag = select_team-IsSecure.flag ∙ needed in
        let team = select_team-IsSecure.agent needed in
        let chosen : listed security_agent_name
              (names_of (algorithm lower fnmatch s changes available))
            ≡ true =
          rw (algorithm-is_selected lower fnmatch s changes available)
            (chosen_listed s available flag team there) in
        (flag, team, chosen)

    -- The model's suggestions can take the security agent away under the override: if they do not name
    -- it, but name a reviewer that the algorithm selects, then `route` does not return it.
    pub route-drops_security :
        (available : List Agent)
        → matches_suggestion lower security_agent_name (signal_of shared) ≡ false
        → is_empty (
            suggested lower fnmatch (signal_of shared) changes available (
              algorithm lower fnmatch
                (select_team lower fnmatch registry changes shared agents_team)
                changes
                available))
          ≡ false
        → is_empty (signal_of shared) ≡ false
        → listed security_agent_name
            (names_of (route lower fnmatch registry changes available shared agents_team).1)
          ≡ false
    unfolding route apply_ai_routing_signal refine
    route-drops_security available unnamed some_named some_signal =
        let filtered =
          algorithm lower fnmatch (select_team lower fnmatch registry changes shared agents_team)
            changes available in
        let suggestions = signal_of shared in
        let named_only =
          listed-names_of_append security_agent_name (filter (λ a. not (is_reviewer a)) filtered)
            (suggested lower fnmatch suggestions changes available filtered) in
        let no_infra =
          filter_unlisted (λ a. not (is_reviewer a)) filtered
            (λ a h. ground (arith, security-is_reviewer a h)) in
        let no_suggested = suggested_unlisted suggestions changes available filtered unnamed in
        rw (some_signal, apply_ai_routing_signal)
          (rw (some_named, refine) (ground (arith, named_only, no_infra, no_suggested)))
