-- ===== src/Consolidator/Fallback.antt =====
-- `NovaSingleShotStrategy._deterministic_fallback`.
pub mod Sound
use revue.Prelude.{
  ℕ, not, ◌&&◌, Bool, true, false, Option, none, some, List, [], ◌∷◌, ◌++◌, String, str_eq, ltb,
  if◌then◌else◌,
}
use revue.Prelude.Text.{Text, codes, same}
use revue.Consolidator.Findings.{
  Attribution, AgentFinding, SynthesisGroup, ConsolidatedFinding, is_some_text, is_some_list,
  valid_consolidated,
}
use revue.Consolidator.Vote.{reconcile_anchor_line}

-- _SEVERITY_ORDER.get(severity, 99)
unfoldable pub severity_order : String → ℕ
severity_order s =
    if str_eq s "high"
    then 0
    else if str_eq s "medium"
    then 1
    else if str_eq s "low"
    then 2
    else if str_eq s "info"
    then 3
    else 99

-- "\n".join(lines)
unfoldable pub join_lines : List Text → Text
join_lines [] = []
join_lines (line ∷ []) = line
join_lines (line ∷ next ∷ lines) = line ++ 10 ∷ join_lines (next ∷ lines)

-- `name in seen_agents`, in the order in which the names were seen
unfoldable pub seen : Text → List Attribution → Bool
seen name [] = false
seen name (a ∷ attribution) =
    let rest = seen name attribution in if same name a.agent_name then true else rest

-- `if not attribution`
unfoldable pub or_nova : Text → List Attribution → List Attribution
or_nova category [] = record { agent_name = codes "nova"; category = category } ∷ []
or_nova category (a ∷ attribution) = a ∷ attribution

module _ {Float : Type 0} where
  -- f"[{f.agent_name}] {text}" for the findings that name their agent
  unfoldable pub headed : (AgentFinding Float → Text) → List (AgentFinding Float) → List Text
  headed text [] = []
  headed text (f ∷ findings) =
      let rest = headed text findings in
      if is_some_text f.agent_name
      then (codes "[" ++ (f.agent_name ++ (codes "] " ++ text f))) ∷ rest
      else rest

  -- min(severities, key=_SEVERITY_ORDER), with the best so far
  unfoldable pub best_severity : String → List (AgentFinding Float) → String
  best_severity best [] = best
  best_severity best (f ∷ findings) =
      best_severity
        (if ltb (severity_order f.severity) (severity_order best) then f.severity else best)
        findings

  -- `seen_agents` after one more finding
  unfoldable pub see : List Attribution → AgentFinding Float → List Attribution
  unfolding seen
  see seen_agents f =
      if is_some_text f.agent_name && not (seen f.agent_name seen_agents)
      then seen_agents ++ record { agent_name = f.agent_name; category = f.category } ∷ []
      else seen_agents

  unfoldable pub attribute : List Attribution → List (AgentFinding Float) → List Attribution
  unfolding see
  attribute seen_agents [] = seen_agents
  attribute seen_agents (f ∷ findings) = attribute (see seen_agents f) findings

  -- the truth of `f.code_replacement`
  unfoldable pub has_replacement : AgentFinding Float → Bool
  has_replacement f = elim f.code_replacement [ none ↦ false | some lines ↦ is_some_list lines ]

  module _ (lt_float : Float → Float → Bool) (in_unit : Float → Bool) where
    -- max(confidences), with the best so far
    unfoldable pub max_confidence : Float → List (AgentFinding Float) → Float
    max_confidence best [] = best
    max_confidence best (f ∷ findings) =
        max_confidence (if lt_float best f.confidence then f.confidence else best) findings

    -- max((f for f in findings if f.code_replacement), key=confidence, default=None)
    unfoldable pub better_source :
        Option (AgentFinding Float) → AgentFinding Float → Option (AgentFinding Float)
    better_source none f = some f
    better_source (some best) f =
        if lt_float best.confidence f.confidence then some f else some best

    unfoldable pub best_source :
        Option (AgentFinding Float) → List (AgentFinding Float) → Option (AgentFinding Float)
    unfolding has_replacement
    best_source best [] = best
    best_source best (f ∷ findings) =
        best_source (if has_replacement f then better_source best f else best) findings

    -- the arguments of `ConsolidatedFinding`
    unfoldable pub fallback_of :
        SynthesisGroup Float
        → AgentFinding Float
        → List (AgentFinding Float)
        → ConsolidatedFinding Float
    fallback_of g first rest =
        let source = best_source none (first ∷ rest) in
        record {
          file_path = g.file_path;
          line_number = reconcile_anchor_line g g.line_range.0;
          severity = best_severity first.severity rest;
          issue = join_lines (headed (λ f. f.issue) (first ∷ rest));
          suggestion = join_lines (headed (λ f. f.suggestion) (first ∷ rest));
          confidence = max_confidence first.confidence rest;
          category = first.category;
          attribution = or_nova first.category (attribute [] (first ∷ rest));
          code_replacement = elim source [ none ↦ none | some f ↦ f.code_replacement ];
          replacement_line_count = elim source [ none ↦ 1 | some f ↦ f.replacement_line_count ];
          snippet = first.snippet;
          group_type = g.group_type;
        }

    -- `none` is the ValueError of `ConsolidatedFinding`, or of `min` on a group without findings
    unfoldable pub fallback_on :
        SynthesisGroup Float → List (AgentFinding Float) → Option (ConsolidatedFinding Float)
    unfolding fallback_of
    fallback_on g [] = none
    fallback_on g (first ∷ rest) =
        if valid_consolidated in_unit (fallback_of g first rest)
        then some (fallback_of g first rest)
        else none

    unfoldable pub deterministic_fallback :
        SynthesisGroup Float → Option (ConsolidatedFinding Float)
    unfolding fallback_on
    deterministic_fallback g = fallback_on g g.findings
