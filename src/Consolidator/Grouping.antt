-- ===== src/Consolidator/Grouping.antt =====
-- Pass A, `ProximityAndCountGroupingStrategy`.
pub mod Partition
pub mod Limits
use Prim.Native.Nat.{min, max}
use revue.Prelude.{
  ℕ, suc, ◌+◌, ◌-◌, Bool, true, false, ◌&&◌, List, [], ◌∷◌, ◌++◌, ◌==◌, leb, ltb, if◌then◌else◌,
  length,
}
use revue.Prelude.Text.{Text, same}
use revue.Prelude.Sort.{sorted}
use revue.Consolidator.Findings.{
  AgentFinding, GroupType, singleton, proximity, same_line, SynthesisGroup,
}

-- s < t for strings
unfoldable pub text_lt : Text → Text → Bool
text_lt s [] = false
text_lt [] (d ∷ t) = true
text_lt (c ∷ s) (d ∷ t) =
    let rest = text_lt s t in if ltb c d then true else if c == d then rest else false

module _ {Float : Type 0} where
  -- (f.file_path, f.line_number) < (g.file_path, g.line_number)
  unfoldable pub before : AgentFinding Float → AgentFinding Float → Bool
  before f g =
      if same f.file_path g.file_path
      then ltb f.line_number g.line_number
      else text_lt f.file_path g.file_path

  -- min and max of the lines of a non-empty list
  unfoldable pub min_line : AgentFinding Float → List (AgentFinding Float) → ℕ
  min_line f [] = f.line_number
  min_line f (g ∷ rest) = min f.line_number (min_line g rest)

  unfoldable pub max_line : AgentFinding Float → List (AgentFinding Float) → ℕ
  max_line f [] = f.line_number
  max_line f (g ∷ rest) = max f.line_number (max_line g rest)

  -- findings[-1]
  unfoldable pub last_of : AgentFinding Float → List (AgentFinding Float) → AgentFinding Float
  last_of f [] = f
  last_of f (g ∷ rest) = last_of g rest

  unfoldable pub type_of : AgentFinding Float → List (AgentFinding Float) → GroupType
  unfolding last_of
  type_of first [] = singleton
  type_of first (g ∷ rest) =
      if first.line_number == (last_of g rest).line_number then same_line else proximity

  -- `_make_group`, of a list that is not empty
  unfoldable pub make_group : AgentFinding Float → List (AgentFinding Float) → SynthesisGroup Float
  unfolding min_line max_line type_of
  make_group first rest = record {
    findings = first ∷ rest;
    file_path = first.file_path;
    line_range = (min_line first rest, max_line first rest);
    group_type = type_of first rest;
  }

  module _ (n k : ℕ) where
    -- same_file and within_distance and within_count, for a group of `size` findings
    unfoldable pub joins : AgentFinding Float → ℕ → AgentFinding Float → Bool
    joins last size finding =
        same finding.file_path last.file_path
        && leb (finding.line_number - last.line_number) n
        && ltb size k

    -- the loop, with the current group as its first finding and the others
    unfoldable pub clusters :
        AgentFinding Float
        → List (AgentFinding Float)
        → List (AgentFinding Float)
        → List (SynthesisGroup Float)
    clusters first rest [] = make_group first rest ∷ []
    clusters first rest (finding ∷ findings) =
        let joined = clusters first (rest ++ finding ∷ []) findings in
        let cut = make_group first rest ∷ clusters finding [] findings in
        if joins (last_of first rest) (suc (length rest)) finding then joined else cut

    unfoldable pub clusters_of : List (AgentFinding Float) → List (SynthesisGroup Float)
    clusters_of [] = []
    clusters_of (finding ∷ findings) = clusters finding [] findings

    unfoldable pub group : List (AgentFinding Float) → List (SynthesisGroup Float)
    group findings = clusters_of (sorted before findings)
