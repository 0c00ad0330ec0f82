-- ===== src/Consolidator/Examples.antt =====
-- The theorems about the consolidation at concrete findings, with confidences in per cent.
use mathlib.Core.List.{Perm}
use revue.Prelude.{
  ◌+◌, ◌≡◌, ◌↔◌, refl, ℕ, ◌≤◌, Bool, true, false, none, some, Option, List, [], ◌∷◌, ltb, leb,
  arith,
}
use revue.Prelude.Text.{Text, codes}
use revue.Prelude.Sort.{sorted}
use revue.Consolidator.Findings.{
  AgentFinding, SynthesisGroup, ConsolidatedFinding, valid_finding, valid_group,
}
use revue.Consolidator.Grouping.{before, make_group, group}
use revue.Consolidator.Grouping.Partition.{members, members-group}
use revue.Consolidator.Vote.{vote}
use revue.Consolidator.Vote.Majority.{missing, votes, vote-votes}
use revue.Consolidator.Fallback.{deterministic_fallback}
use revue.Consolidator.Fallback.Sound.{IsSound, deterministic_fallback-IsSound}

abbrev at_line : Text → ℕ → AgentFinding ℕ
at_line agent line = record {
  file_path = codes "a.py";
  line_number = line;
  severity = "medium";
  issue = codes "bad";
  suggestion = codes "mend";
  confidence = line;
  category = codes "style";
  agent_name = agent;
  code_replacement = none;
  replacement_line_count = 1;
  snippet = [];
  language = "python";
}

abbrev findings : List (AgentFinding ℕ)
findings = at_line (codes "sage") 12 ∷ at_line (codes "vex") 10 ∷ at_line (codes "cleo") 40 ∷ []

abbrev pair : SynthesisGroup ℕ
pair = make_group (at_line (codes "vex") 10) (at_line (codes "sage") 12 ∷ [])

abbrev per_cent : ℕ → Bool
per_cent n = leb n 100

abbrev fallback : SynthesisGroup ℕ → Option (ConsolidatedFinding ℕ)
fallback g = deterministic_fallback ltb per_cent g

ltb-asymmetric : (x y : ℕ) → ltb x y ≡ true → ltb y x ≡ false
ltb-asymmetric x y h = ground arith

members-group_example :
    (members (group 3 3 findings) ≡ sorted before findings)
    × Perm (members (group 3 3 findings)) findings
members-group_example = members-group 3 3 findings

vote-votes_example : (vote (7 ∷ 9 ∷ 7 ∷ []) ≡ some 7) ↔ (3 ≤ votes 7 (7 ∷ 9 ∷ 7 ∷ []) + missing 3)
vote-votes_example = vote-votes 7 (7 ∷ 9 ∷ 7 ∷ []) (omega arith)

deterministic_fallback-IsSound_example :
    (c : ConsolidatedFinding ℕ) × (deterministic_fallback ltb per_cent pair ≡ some c)
    × IsSound ltb per_cent pair c
unfolding valid_group valid_finding make_group
deterministic_fallback-IsSound_example =
    deterministic_fallback-IsSound ltb per_cent pair refl (refl, (refl, tt))
