-- ===== src/Router/Examples.antt =====
-- The theorems about the routing at a concrete change.
use mathlib.Core.List.{Perm}
use revue.Prelude.{◌≡◌, refl, true, false, none, some, List, [], ◌∷◌}
use revue.Prelude.Text.{Text, codes, same, occurs, starts_with}
use revue.Router.Triggers.{FileChange, evaluate_triggers, assign_files_to_agents, is_empty, listed}
use revue.Router.Teams.{Shared, build_team_registry, select_team, needs_security_override}
use revue.Router.Signal.{
  Agent, algorithm, filter, is_selected, names_of, route, suggested, signal_of, matches_suggestion,
}
use revue.Router.Assigned.{all_files, assign_files_to_agents-perm}
use revue.Router.Floor.{algorithm-is_selected}
use revue.Router.Security.{route-security_override, route-drops_security}

abbrev lower : Text → Text
lower s = s

abbrev registry : List (Text × List Text)
registry = build_team_registry none

abbrev changed : Text → FileChange
changed path = record {
  file_path = path;
  change_type = codes "modified";
  additions = 60;
  deletions = 2;
  diff = [];
  language = codes "python";
}

abbrev changes : List FileChange
changes = changed (codes "a.py") ∷ changed (codes "b.py") ∷ changed (codes "c.py") ∷ []

abbrev agent : Text → Agent
agent name = record { name = name; definition = none }

abbrev available : List Agent
available = agent (codes "zara") ∷ agent (codes "kai") ∷ agent (codes "nova") ∷ []

abbrev shared : Shared
shared = record {
  risk_areas = codes "injection" ∷ [];
  error = false;
  selected_agents = some (codes "kai" ∷ []);
}

assign_files_to_agents-perm_example :
    Perm
      (all_files (assign_files_to_agents (codes "zara" ∷ codes "kai" ∷ []) changes))
      (codes "a.py" ∷ codes "b.py" ∷ codes "c.py" ∷ [])
assign_files_to_agents-perm_example =
    assign_files_to_agents-perm (codes "zara") (codes "kai" ∷ []) changes

algorithm-is_selected_example :
    algorithm lower same (select_team lower same registry changes none none) changes available
    ≡ filter
        (is_selected lower same (select_team lower same registry changes none none) changes)
        available
algorithm-is_selected_example =
    algorithm-is_selected lower same (select_team lower same registry changes none none) changes
      available

route-security_override_example :
    ((route lower same registry changes available (some shared) none).0.security_override ≡ true)
    × (listed
          (codes "zara")
          (route lower same registry changes available (some shared) none).0.agents
        ≡ true)
    × (listed
          (codes "zara")
          (route lower same registry changes available
            (some shared)
            none).0.algorithm_filtered_agents
        ≡ true)
unfolding needs_security_override listed names_of same
route-security_override_example =
    route-security_override lower same registry changes (some shared) none available refl refl

route-drops_security_example :
    listed
      (codes "zara")
      (names_of (route lower same registry changes available (some shared) none).1)
    ≡ false
unfolding matches_suggestion signal_of is_empty suggested algorithm select_team
    needs_security_override build_team_registry same occurs starts_with evaluate_triggers
route-drops_security_example =
    route-drops_security lower same registry changes (some shared) none available refl refl refl
