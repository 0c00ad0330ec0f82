-- ===== src/Consolidator/Vote.antt =====
-- `_majority_vote_line` and `_reconcile_anchor_line`.
pub mod Majority
use revue.Prelude.{
  ℕ, zero, suc, ◌+◌, ◌-◌, Bool, true, false, Option, none, some, List, [], ◌∷◌, ◌==◌, leb, ltb,
  if◌then◌else◌, length, map,
}
use revue.Consolidator.Findings.{AgentFinding, SynthesisGroup}

-- Counter(lines): the counts, in the order of first appearance
unfoldable pub tally_line : ℕ → List (ℕ × ℕ) → List (ℕ × ℕ)
tally_line line [] = (line, 1) ∷ []
tally_line line ((l, c) ∷ counts) =
    let rest = tally_line line counts in if l == line then (l, c + 1) ∷ counts else (l, c) ∷ rest

unfoldable pub counter : List (ℕ × ℕ) → List ℕ → List (ℕ × ℕ)
counter counts [] = counts
counter counts (line ∷ lines) = counter (tally_line line counts) lines

-- counts.most_common(1)[0]: the first of the largest counts
unfoldable pub most_common : ℕ × ℕ → List (ℕ × ℕ) → ℕ × ℕ
most_common best [] = best
most_common best (entry ∷ counts) = most_common (if ltb best.1 entry.1 then entry else best) counts

-- n if n == 2 else n - 1
abbrev pub threshold : ℕ → ℕ
threshold n = if n == 2 then n else n - 1

unfoldable pub decide_vote : ℕ → List (ℕ × ℕ) → Option ℕ
unfolding most_common
decide_vote n [] = none
decide_vote n (entry ∷ counts) =
    let best = most_common entry counts in if leb (threshold n) best.1 then some best.0 else none

unfoldable pub vote : List ℕ → Option ℕ
vote [] = none
vote (line ∷ []) = some line
vote (line ∷ other ∷ lines) =
    decide_vote (length (line ∷ other ∷ lines)) (counter [] (line ∷ other ∷ lines))

module _ {Float : Type 0} where
  abbrev pub lines_of : List (AgentFinding Float) → List ℕ
  lines_of [] = []
  lines_of (f ∷ findings) = f.line_number ∷ lines_of findings

  unfoldable pub majority_vote_line : SynthesisGroup Float → Option ℕ
  majority_vote_line g = vote (lines_of g.findings)

  unfoldable pub reconcile_anchor_line : SynthesisGroup Float → ℕ → ℕ
  reconcile_anchor_line g tentative_line = elim (majority_vote_line g) [
    | none ↦ tentative_line
    | some majority ↦ if majority == tentative_line then tentative_line else majority
  ]
