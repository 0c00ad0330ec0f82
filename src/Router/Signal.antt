-- ===== src/Router/Signal.antt =====
-- `route`, its guarantee rule and `_apply_ai_routing_signal`.
use revue.Prelude.{
  Bool, true, false, not, ◌&&◌, ◌||◌, Option, none, some, List, [], ◌∷◌, ◌++◌, if◌then◌else◌,
}
use revue.Prelude.Text.{Text, same, occurs}
use revue.Router.Triggers.{FileChange, AgentDef, listed, is_empty, evaluate_triggers}
use revue.Router.Teams.{
  Shared, TeamSelection, infrastructure_agents, security_agent_name, select_team,
}

-- An agent, with the `trigger_patterns` of its definition if it has one.
pub record Agent : Type 0 where
  pub name : Text
  pub definition : Option (List Text)

-- [x for x in xs if p(x)]
unfoldable pub filter {ℓ} : {A : Type ℓ} → (A → Bool) → List A → List A
filter p [] = []
filter p (x ∷ xs) = let rest = filter p xs in if p x then x ∷ rest else rest

unfoldable pub names_of : List Agent → List Text
names_of [] = []
names_of (a ∷ agents) = a.name ∷ names_of agents

-- agent.name not in _INFRASTRUCTURE_AGENTS
unfoldable pub is_reviewer : Agent → Bool
unfolding listed
is_reviewer a = not (listed a.name infrastructure_agents)

-- `_extract_agent_def`
unfoldable pub extract_agent_def : Agent → AgentDef
extract_agent_def a = elim a.definition [
  | none ↦ record { file_patterns = []; languages = []; trigger_patterns = [] }
  | some patterns ↦ record { file_patterns = []; languages = []; trigger_patterns = patterns }
]

-- the suggestions, unless the shared analysis is missing, failed or has none
unfoldable pub signal_of : Option Shared → List Text
signal_of none = []
signal_of (some shared) =
    if shared.error then [] else (elim shared.selected_agents [ none ↦ [] | some names ↦ names ])

-- `_agent_matches_ai_suggestion`
unfoldable pub matches_suggestion : (Text → Text) → Text → List Text → Bool
matches_suggestion lower agent_name [] = false
matches_suggestion lower agent_name (suggestion ∷ suggestions) =
    let rest = matches_suggestion lower agent_name suggestions in
    if same (lower agent_name) (lower suggestion)
      || occurs (lower agent_name) (lower suggestion)
      || occurs (lower suggestion) (lower agent_name)
    then true
    else rest

module _ (lower : Text → Text) (fnmatch : Text → Text → Bool) where
  unfoldable pub triggered : List FileChange → Agent → Bool
  unfolding extract_agent_def
  triggered changes a = evaluate_triggers lower fnmatch changes (extract_agent_def a)

  -- the test of the first loop
  unfoldable pub is_selected : TeamSelection → List FileChange → Agent → Bool
  unfolding triggered
  is_selected s changes a =
      listed a.name s.agents
      && ((s.security_override && same a.name security_agent_name) || triggered changes a)

  -- the guarantee rule
  unfoldable pub with_reviewers :
      TeamSelection → List FileChange → List Agent → List Agent → List Agent
  unfolding filter is_reviewer triggered
  with_reviewers s changes available filtered =
      if is_empty (filter is_reviewer filtered)
      then filtered
        ++ filter (λ a. is_reviewer a && listed a.name s.agents && triggered changes a) available
      else filtered

  -- the agents that the suggestions name, of the algorithm's and of the others
  unfoldable pub suggested : List Text → List FileChange → List Agent → List Agent → List Agent
  unfolding filter is_reviewer matches_suggestion names_of triggered
  suggested suggestions changes available filtered =
      filter (λ a. is_reviewer a && matches_suggestion lower a.name suggestions) filtered
      ++ filter
          (λ a.
            is_reviewer a
            && matches_suggestion lower a.name suggestions
            && not (listed a.name (names_of filtered))
            && triggered changes a)
          available

  unfoldable pub refine : List Text → List FileChange → List Agent → List Agent → List Agent
  unfolding suggested
  refine suggestions changes available filtered =
      if is_empty (suggested suggestions changes available filtered)
      then filtered
      else filter (λ a. not (is_reviewer a)) filtered
        ++ suggested suggestions changes available filtered

  unfoldable pub apply_ai_routing_signal :
      Option Shared → List FileChange → List Agent → List Agent → List Agent
  unfolding refine signal_of
  apply_ai_routing_signal shared changes available filtered =
      if is_empty (signal_of shared)
      then filtered
      else refine (signal_of shared) changes available filtered

  -- the agents that the algorithm runs
  unfoldable pub algorithm : TeamSelection → List FileChange → List Agent → List Agent
  unfolding with_reviewers is_selected
  algorithm s changes available =
      with_reviewers s changes available (filter (is_selected s changes) available)

  module _ (registry : List (Text × List Text)) where
    unfoldable pub route :
        List FileChange → List Agent → Option Shared → Option Text → TeamSelection × List Agent
    unfolding algorithm names_of apply_ai_routing_signal
    route changes available shared agents_team =
        let s = select_team lower fnmatch registry changes shared agents_team in
        let filtered = algorithm s changes available in
        (
          record s { algorithm_filtered_agents = names_of filtered },
          apply_ai_routing_signal shared changes available filtered,
        )
