-- ===== src/Consolidator/Grouping/Partition.antt =====
-- The findings of all groups together.
use mathlib.Core.List.{Perm, append_assoc}
use revue.Prelude.{◌≡◌, refl, ap, ◌∙◌, ℕ, suc, List, [], ◌∷◌, ◌++◌, length, Bool-cases, inl, inr}
use revue.Prelude.Sort.{sorted, sorted-perm}
use revue.Consolidator.Findings.{AgentFinding, SynthesisGroup}
use revue.Consolidator.Grouping.{before, last_of, make_group, joins, clusters, clusters_of, group}

module _ {Float : Type 0} where
  -- the findings of all groups, in order
  abbrev pub members : List (SynthesisGroup Float) → List (AgentFinding Float)
  members [] = []
  members (g ∷ groups) = g.findings ++ members groups

  module _ (n k : ℕ) where
    members-clusters :
        (first : AgentFinding Float) (rest findings : List (AgentFinding Float))
        → members (clusters n k first rest findings) ≡ first ∷ (rest ++ findings)
    unfolding clusters make_group
    members-clusters first rest [] = refl
    members-clusters first rest (finding ∷ findings) =
        elim (Bool-cases (joins n k (last_of first rest) (suc (length rest)) finding)) [
          | inl joined ↦
              rw (joined, clusters)
                (members-clusters first (rest ++ finding ∷ []) findings
                  ∙ ap (λ fs. first ∷ fs) (append_assoc rest (finding ∷ []) findings))
          | inr cut ↦
              rw (cut, clusters)
                (ap (λ fs. first ∷ (rest ++ fs)) (members-clusters finding [] findings))
        ]

    members-clusters_of :
        (findings : List (AgentFinding Float)) → members (clusters_of n k findings) ≡ findings
    unfolding clusters_of
    members-clusters_of [] = refl
    members-clusters_of (finding ∷ findings) = members-clusters finding [] findings

    -- The groups, one after the other, are the findings sorted by file and line: a permutation of
    -- the findings given.
    pub members-group :
        (findings : List (AgentFinding Float))
        → (members (group n k findings) ≡ sorted before findings)
          × Perm (members (group n k findings)) findings
    unfolding group
    members-group findings =
        let e = members-clusters_of (sorted before findings) in
        (e, rw e (sorted-perm before findings))
