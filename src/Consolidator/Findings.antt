-- ===== src/Consolidator/Findings.antt =====
-- `AgentFinding`, `Attribution`, `SynthesisGroup` and `ConsolidatedFinding` of comments/models.py, with
-- the checks of their `__post_init__`. `Float` is the type of a confidence.
use revue.Prelude.{
  ℕ, Bool, true, false, ◌&&◌, ◌||◌, Option, List, [], ◌∷◌, String, str_eq, leb, ltb,
}
use revue.Prelude.Text.{Text}

pub record Attribution : Type 0 where
  pub agent_name : Text
  pub category : Text

pub record AgentFinding (Float : Type 0) : Type 0 where
  pub file_path : Text
  pub line_number : ℕ
  pub severity : String
  pub issue : Text
  pub suggestion : Text
  pub confidence : Float
  pub category : Text
  pub agent_name : Text
  pub code_replacement : Option (List Text)
  pub replacement_line_count : ℕ
  pub snippet : Text
  pub language : String

pub data GroupType : Type 0 where
  singleton proximity same_line : GroupType

pub record SynthesisGroup (Float : Type 0) : Type 0 where
  pub findings : List (AgentFinding Float)
  pub file_path : Text
  pub line_range : ℕ × ℕ
  pub group_type : GroupType

pub record ConsolidatedFinding (Float : Type 0) : Type 0 where
  pub file_path : Text
  pub line_number : ℕ
  pub severity : String
  pub issue : Text
  pub suggestion : Text
  pub confidence : Float
  pub category : Text
  pub attribution : List Attribution
  pub code_replacement : Option (List Text)
  pub replacement_line_count : ℕ
  pub snippet : Text
  pub group_type : GroupType

abbrev pub is_some_text : Text → Bool
is_some_text [] = false
is_some_text (c ∷ s) = true

abbrev pub is_some_list {ℓ} : {A : Type ℓ} → List A → Bool
is_some_list [] = false
is_some_list (x ∷ xs) = true

-- severity in _VALID_SEVERITIES
abbrev pub is_severity : String → Bool
is_severity s = str_eq s "high" || str_eq s "medium" || str_eq s "low" || str_eq s "info"

-- `AgentFinding.__post_init__` raises nothing; `in_unit` is 0.0 <= confidence <= 1.0.
unfoldable pub valid_finding : {Float : Type 0} → (Float → Bool) → AgentFinding Float → Bool
valid_finding in_unit f =
    is_some_text f.file_path
    && ltb 0 f.line_number
    && in_unit f.confidence
    && is_severity f.severity
    && is_some_text f.agent_name

-- `SynthesisGroup.__post_init__` raises nothing; the type of `group_type` makes its check.
unfoldable pub valid_group : {Float : Type 0} → SynthesisGroup Float → Bool
valid_group g =
    is_some_text g.file_path
    && is_some_list g.findings
    && ltb 0 g.line_range.0
    && ltb 0 g.line_range.1
    && leb g.line_range.0 g.line_range.1

-- `ConsolidatedFinding.__post_init__` raises nothing.
unfoldable pub valid_consolidated :
    {Float : Type 0} → (Float → Bool) → ConsolidatedFinding Float → Bool
valid_consolidated in_unit f =
    is_some_text f.file_path
    && ltb 0 f.line_number
    && is_some_list f.attribution
    && in_unit f.confidence
