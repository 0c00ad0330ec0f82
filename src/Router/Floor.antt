-- ===== src/Router/Floor.antt =====
-- The guarantee rule of `route`, and the reviewers that remain.
use revue.Prelude.{
  ◌≡◌, refl, ap, ◌∙◌, Bool, true, not, ◌&&◌, Option, List, [], ◌∷◌, ◌++◌, any, any-append, arith,
  Bool-cases, inl, inr,
}
use revue.Prelude.Text.{Text}
use revue.Router.Triggers.{FileChange, is_empty, listed}
use revue.Router.Teams.{Shared, TeamSelection, select_team}
use revue.Router.Signal.{
  Agent, filter, is_reviewer, triggered, is_selected, with_reviewers, algorithm, suggested, refine,
  signal_of, apply_ai_routing_signal, route, matches_suggestion, names_of,
}

append_nil : (xs : List Agent) → xs ++ [] ≡ xs
append_nil [] = refl
append_nil (x ∷ xs) = ap (λ ys. x ∷ ys) (append_nil xs)

none_left :
    (p q r : Agent → Bool) (xs : List Agent)
    → ((a : Agent) → r a ≡ true → (p a && q a) ≡ true)
    → is_empty (filter q (filter p xs)) ≡ true
    → filter r xs ≡ []
unfolding filter is_empty
none_left p q r [] h e = refl
none_left p q r (x ∷ xs) h e = ground (arith, none_left p q r xs h, h x)

any-filter_some :
    (p : Agent → Bool) (xs : List Agent)
    → ((a : Agent) → p a ≡ true → is_reviewer a ≡ true)
    → any is_reviewer (filter p xs) ≡ not (is_empty (filter p xs))
unfolding filter is_empty
any-filter_some p [] h = refl
any-filter_some p (x ∷ xs) h = ground (arith, any-filter_some p xs h, h x)

any-append_some :
    (xs ys : List Agent)
    → any is_reviewer xs ≡ not (is_empty xs)
    → any is_reviewer ys ≡ not (is_empty ys)
    → any is_reviewer (xs ++ ys) ≡ not (is_empty (xs ++ ys))
unfolding is_empty
any-append_some [] ys h k = k
any-append_some (x ∷ xs) ys h k = ground (arith, h, any-append is_reviewer (x ∷ xs) ys)

any-filter_and :
    (p q : Agent → Bool) (xs : List Agent) → any q (filter p xs) ≡ any (λ a. p a && q a) xs
unfolding filter
any-filter_and p q [] = refl
any-filter_and p q (x ∷ xs) = ground (arith, any-filter_and p q xs)

module _ (lower : Text → Text) (fnmatch : Text → Text → Bool) where
  again-selected :
      (s : TeamSelection) (changes : List FileChange) (a : Agent)
      → (is_reviewer a && listed a.name s.agents && triggered lower fnmatch changes a) ≡ true
      → (is_selected lower fnmatch s changes a && is_reviewer a) ≡ true
  unfolding is_selected
  again-selected s changes a h = ground arith

  -- The guarantee rule of `route` adds no agent: whenever the first loop leaves no reviewer, none of
  -- the available agents meets the rule's own conditions, so that the algorithm runs exactly the agents
  -- that the first loop selects.
  pub algorithm-is_selected :
      (s : TeamSelection) (changes : List FileChange) (available : List Agent)
      → algorithm lower fnmatch s changes available
        ≡ filter (is_selected lower fnmatch s changes) available
  unfolding algorithm with_reviewers
  algorithm-is_selected s changes available =
      let chosen = filter (is_selected lower fnmatch s changes) available in
      elim (Bool-cases (is_empty (filter is_reviewer chosen))) [
        | inr some_left ↦ rw (some_left, with_reviewers)
        | inl empty ↦
            let nothing =
              none_left (is_selected lower fnmatch s changes) is_reviewer
                (λ a. is_reviewer a && listed a.name s.agents && triggered lower fnmatch changes a)
                available (again-selected s changes) empty in
            rw (empty, nothing, with_reviewers) (append_nil chosen)
      ]

  suggested-reviewers :
      (suggestions : List Text) (changes : List FileChange) (available filtered : List Agent)
      → any is_reviewer (suggested lower fnmatch suggestions changes available filtered)
        ≡ not (is_empty (suggested lower fnmatch suggestions changes available filtered))
  unfolding suggested
  suggested-reviewers suggestions changes available filtered =
      any-append_some
        (filter (λ a. is_reviewer a && matches_suggestion lower a.name suggestions) filtered)
        (filter
          (λ a.
            is_reviewer a
            && matches_suggestion lower a.name suggestions
            && not (listed a.name (names_of filtered))
            && triggered lower fnmatch changes a)
          available)
        (any-filter_some (λ a. is_reviewer a && matches_suggestion lower a.name suggestions)
          filtered (λ a h. ground (arith, h)))
        (any-filter_some
          (λ a.
            is_reviewer a
            && matches_suggestion lower a.name suggestions
            && not (listed a.name (names_of filtered))
            && triggered lower fnmatch changes a)
          available (λ a h. ground (arith, h)))

  refine-reviewers :
      (suggestions : List Text) (changes : List FileChange) (available filtered : List Agent)
      → any is_reviewer filtered ≡ true
      → any is_reviewer (refine lower fnmatch suggestions changes available filtered) ≡ true
  unfolding refine
  refine-reviewers suggestions changes available filtered h = ground (
    arith,
    h,
    suggested-reviewers suggestions changes available filtered,
    any-append is_reviewer (filter (λ a. not (is_reviewer a)) filtered)
        (suggested lower fnmatch suggestions changes available filtered),
  )

  signal-reviewers :
      (shared : Option Shared) (changes : List FileChange) (available filtered : List Agent)
      → any is_reviewer filtered ≡ true
      → any is_reviewer (apply_ai_routing_signal lower fnmatch shared changes available filtered)
        ≡ true
  unfolding apply_ai_routing_signal
  signal-reviewers shared changes available filtered h =
      ground (arith, h, refine-reviewers (signal_of shared) changes available filtered)

  module _ (registry : List (Text × List Text)) (changes : List FileChange) (available : List Agent)
      (shared : Option Shared) (agents_team : Option Text) where
    -- If the team that `select_team` chooses has an available reviewer (an agent that is not
    -- infrastructure) whose triggers match, or that is the security agent under the security override,
    -- then `route` returns a reviewer, whatever the model suggests.
    route-reviewers :
        any
            (λ a.
              is_selected lower fnmatch
                (select_team lower fnmatch registry changes shared agents_team)
                changes
                a
              && is_reviewer a)
            available
          ≡ true
        → any is_reviewer (route lower fnmatch registry changes available shared agents_team).1
          ≡ true
    unfolding route
    route-reviewers h =
        let s = select_team lower fnmatch registry changes shared agents_team in
        let chosen : any is_reviewer (algorithm lower fnmatch s changes available) ≡ true =
          rw (algorithm-is_selected s changes available)
            (any-filter_and (is_selected lower fnmatch s changes) is_reviewer available ∙ h) in
        signal-reviewers shared changes available (algorithm lower fnmatch s changes available)
          chosen
