-- ===== src/Router/Teams.antt =====
-- The team registry and `select_team`. A reason is a constructor with what is formatted into it.
use revue.Prelude.{
  ℕ, ◌+◌, Bool, false, not, ◌&&◌, ◌||◌, Option, none, some, List, [], ◌∷◌, ◌++◌, ltb, any,
  if◌then◌else◌,
}
use revue.Prelude.Text.{Text, codes, same}
use revue.Prelude.Dict.{get, update}
use revue.Router.Triggers.{FileChange, listed, after_last, detect_primary_language}

abbrev pub quick_threshold_lines : ℕ
quick_threshold_lines = 50

abbrev pub full_review_threshold_lines : ℕ
full_review_threshold_lines = 500

abbrev pub security_agent_name : Text
security_agent_name = codes "zara"

abbrev pub default_team : Text
default_team = codes "team-full-review"

abbrev pub infrastructure_agents : List Text
infrastructure_agents = codes "cleo" ∷ codes "nova" ∷ codes "vex" ∷ []

abbrev pub security_file_patterns : List Text
security_file_patterns =
    codes "*.sql"
    ∷ codes "*.env"
    ∷ codes "*secret*"
    ∷ codes "*password*"
    ∷ codes "*token*"
    ∷ codes "*auth*"
    ∷ codes "*.pem"
    ∷ codes "*.key"
    ∷ codes "*.cert"
    ∷ []

abbrev pub security_risk_areas : List Text
security_risk_areas =
    codes "authentication"
    ∷ codes "authorisation"
    ∷ codes "authorization"
    ∷ codes "injection"
    ∷ codes "cryptographic"
    ∷ codes "secrets"
    ∷ codes "credentials"
    ∷ []

abbrev pub lang_to_team : List (Text × Text)
lang_to_team =
    (codes "swift", codes "team-swift-ios") ∷ (codes "kotlin", codes "team-swift-ios") ∷ []

abbrev pub team_presets : List (Text × List Text)
team_presets =
    (
      codes "team-full-review",
      codes "cleo"
          ∷ codes "zara"
          ∷ codes "kai"
          ∷ codes "maya"
          ∷ codes "leo"
          ∷ codes "nova"
          ∷ codes "vex"
          ∷ [],
    )
    ∷ (codes "team-quick", codes "maya" ∷ codes "nova" ∷ codes "vex" ∷ [])
    ∷ (codes "team-lean", codes "cleo" ∷ codes "zara" ∷ codes "nova" ∷ codes "vex" ∷ [])
    ∷ (
      codes "team-swift-ios",
      codes "cleo" ∷ codes "zara" ∷ codes "maya" ∷ codes "nova" ∷ codes "vex" ∷ [],
    )
    ∷ (codes "team-security-focus", codes "cleo" ∷ codes "zara" ∷ codes "nova" ∷ codes "vex" ∷ [])
    ∷ []

-- `_build_team_registry`; `none` is an exception of `load_all_teams`
unfoldable pub build_team_registry : Option (List (Text × List Text)) → List (Text × List Text)
unfolding update
build_team_registry none = team_presets
build_team_registry (some yaml_teams) = update team_presets yaml_teams

-- the parts of `SharedAnalysisResult` that routing reads; `error` is its truth, and
-- `selected_agents` the names in `orchestrator_response`
pub record Shared : Type 0 where
  pub risk_areas : List Text
  pub error : Bool
  pub selected_agents : Option (List Text)

pub data SelectReason : Type 0 where
  set_by_config : Text → SelectReason
  small_diff large_diff : ℕ → SelectReason
  language_team : Text → SelectReason
  default_review : SelectReason

pub record TeamSelection : Type 0 where
  pub team_name : Text
  pub agents : List Text
  pub security_override : Bool
  pub reason : SelectReason
  pub algorithm_filtered_agents : List Text

abbrev pub risk_areas_of : Option Shared → List Text
risk_areas_of none = []
risk_areas_of (some shared) = shared.risk_areas

-- sum(fc.additions + fc.deletions for fc in file_changes)
unfoldable pub total_lines : List FileChange → ℕ
total_lines [] = 0
total_lines (fc ∷ changes) = fc.additions + fc.deletions + total_lines changes

-- registry.get(team, default)
unfoldable pub team_or : List (Text × List Text) → Text → List Text → List Text
unfolding get
team_or registry team default = elim (get team registry) [ none ↦ default | some agents ↦ agents ]

-- the agents of a preset team
unfoldable pub team_agents : List (Text × List Text) → Text → List Text
unfolding team_or
team_agents registry team = team_or registry team (team_or team_presets team [])

-- agents, with the security agent under the override
unfoldable pub with_security : Bool → List Text → List Text
unfolding listed
with_security override agents =
    if override && not (listed security_agent_name agents)
    then agents ++ security_agent_name ∷ []
    else agents

unfoldable pub selection : Text → List Text → Bool → SelectReason → TeamSelection
selection team agents override reason = record {
  team_name = team;
  agents = agents;
  security_override = override;
  reason = reason;
  algorithm_filtered_agents = [];
}

-- config.agents_team, where it is set to another team than the default
unfoldable pub explicit_team : Option Text → Option Text
explicit_team none = none
explicit_team (some []) = none
explicit_team (some (c ∷ team)) = if same (c ∷ team) default_team then none else some (c ∷ team)

-- lang_team, if it is a preset
unfoldable pub language_preset : Text → Option Text
unfolding get
language_preset lang = elim (get lang lang_to_team) [
  | none ↦ none
  | some team ↦ elim (get team team_presets) [ none ↦ none | some agents ↦ some team ]
]

module _ (lower : Text → Text) (fnmatch : Text → Text → Bool)
    (registry : List (Text × List Text)) where
  -- `_needs_security_override`
  unfoldable pub needs_security_override : List FileChange → Option Shared → Bool
  unfolding after_last
  needs_security_override changes shared =
      any (λ area. listed (lower area) security_risk_areas) (risk_areas_of shared)
      || any
          (λ (fc : FileChange).
            any (fnmatch (lower (after_last b'/' fc.file_path))) security_file_patterns)
          changes

  -- the choice by size and by language
  unfoldable pub select_by_size : List FileChange → Bool → TeamSelection
  unfolding selection with_security team_agents total_lines detect_primary_language language_preset
  select_by_size changes override =
      if ltb (total_lines changes) quick_threshold_lines && not override
      then selection (codes "team-quick") (team_agents registry (codes "team-quick")) false
          (small_diff (total_lines changes))
      else if ltb full_review_threshold_lines (total_lines changes)
      then selection default_team (with_security override (team_agents registry default_team))
          override (large_diff (total_lines changes))
      else (elim (language_preset (detect_primary_language changes)) [
        | some team ↦
            selection team (with_security override (team_agents registry team)) override
              (language_team (detect_primary_language changes))
        | none ↦
            selection default_team (with_security override (team_agents registry default_team))
              override default_review
      ])

  unfoldable pub select_team : List FileChange → Option Shared → Option Text → TeamSelection
  unfolding select_by_size needs_security_override explicit_team
  select_team changes shared agents_team =
      let override = needs_security_override changes shared in
      elim (explicit_team agents_team) [
        | some team ↦
            selection team
              (with_security override (team_or registry team (team_or registry default_team [])))
              override (set_by_config team)
        | none ↦ select_by_size changes override
      ]
