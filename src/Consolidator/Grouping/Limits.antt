-- ===== src/Consolidator/Grouping/Limits.antt =====
-- What holds of each group: its size, its file, its distances and its range.
use revue.Prelude.{
  ◌≡◌, refl, ◌∙◌, ◌≤◌, ◌<◌, ◌+◌, ℕ, suc, true, List, [], ◌∷◌, ◌++◌, length, length-append, All,
  Bool-cases, inl, inr, arith,
}
use revue.Prelude.Text.{Text, same-eq}
use revue.Prelude.Sort.{sorted}
use revue.Consolidator.Findings.{AgentFinding, SynthesisGroup}
use revue.Consolidator.Grouping.{
  before, min_line, max_line, last_of, make_group, joins, clusters, clusters_of, group,
}

module _ {Float : Type 0} where
  -- each finding is in the file of the one before it, and at most n lines below it
  abbrev pub IsNear : ℕ → AgentFinding Float → List (AgentFinding Float) → Type 0
  IsNear n f [] = Unit
  IsNear n f (g ∷ rest) =
      (g.file_path ≡ f.file_path) × (g.line_number ≤ f.line_number + n) × IsNear n g rest

  -- `list_IsNear` of a list that is not empty
  abbrev pub IsNearList : ℕ → List (AgentFinding Float) → Type 0
  IsNearList n [] = ⊥
  IsNearList n (f ∷ rest) = IsNear n f rest

  abbrev pub IsWithin : ℕ × ℕ → AgentFinding Float → Type 0
  IsWithin range f = (range.0 ≤ f.line_number) × (f.line_number ≤ range.1)

  pub record IsCluster (n k : ℕ) (g : SynthesisGroup Float) : Type 0 where
    pub count : length g.findings ≤ k
    pub near : IsNearList n g.findings
    pub one_file : All (λ f. f.file_path ≡ g.file_path) g.findings
    pub within : All (IsWithin g.line_range) g.findings

  near-one_file :
      (n : ℕ) (f : AgentFinding Float) (rest : List (AgentFinding Float)) (path : Text)
      → f.file_path ≡ path
      → IsNear n f rest
      → All (λ (g : AgentFinding Float). g.file_path ≡ path) (f ∷ rest)
  near-one_file n f [] path e h = (e, tt)
  near-one_file n f (g ∷ rest) path e h = (e, near-one_file n g rest path (h.0 ∙ e) h.2)

  widen :
      (lo hi lo' hi' : ℕ) (fs : List (AgentFinding Float))
      → lo' ≤ lo
      → hi ≤ hi'
      → All (IsWithin (lo, hi)) fs
      → All (IsWithin (lo', hi')) fs
  widen lo hi lo' hi' [] a b h = tt
  widen lo hi lo' hi' (f ∷ fs) a b h =
      ((omega (arith, h.0.0), omega (arith, h.0.1)), widen lo hi lo' hi' fs a b h.1)

  range-IsWithin :
      (f : AgentFinding Float) (rest : List (AgentFinding Float))
      → All (IsWithin (min_line f rest, max_line f rest)) (f ∷ rest)
  unfolding min_line max_line
  range-IsWithin f [] = ((omega arith, omega arith), tt)
  range-IsWithin f (g ∷ rest) = (
    (omega arith, omega arith),
    widen (min_line g rest) (max_line g rest) (min_line f (g ∷ rest)) (max_line f (g ∷ rest))
        (g ∷ rest) (omega arith) (omega arith) (range-IsWithin g rest),
  )

  make_group-IsCluster :
      (n k : ℕ) (f : AgentFinding Float) (rest : List (AgentFinding Float))
      → suc (length rest) ≤ k
      → IsNear n f rest
      → IsCluster n k (make_group f rest)
  unfolding make_group
  make_group-IsCluster n k f rest count near = record {
    count = count;
    near = near;
    one_file = near-one_file n f rest f.file_path refl near;
    within = range-IsWithin f rest;
  }

  joins-near :
      (n k size : ℕ) (last f : AgentFinding Float)
      → joins n k last size f ≡ true
      → (f.file_path ≡ last.file_path) × (f.line_number ≤ last.line_number + n) × (size < k)
  unfolding joins
  joins-near n k size last f h =
      (same-eq f.file_path last.file_path (ground arith), ground arith, ground arith)

  IsNear-append :
      (n : ℕ) (f : AgentFinding Float) (rest : List (AgentFinding Float)) (g : AgentFinding Float)
      → IsNear n f rest
      → g.file_path ≡ (last_of f rest).file_path
      → g.line_number ≤ (last_of f rest).line_number + n
      → IsNear n f (rest ++ g ∷ [])
  unfolding last_of
  IsNear-append n f [] g h e l = (e, l, tt)
  IsNear-append n f (f' ∷ rest) g h e l = (h.0, h.1, IsNear-append n f' rest g h.2 e l)

  module _ (n k : ℕ) (some_count : 0 < k) where
    clusters-IsCluster :
        (first : AgentFinding Float) (rest findings : List (AgentFinding Float))
        → suc (length rest) ≤ k
        → IsNear n first rest
        → All (IsCluster n k) (clusters n k first rest findings)
    unfolding clusters
    clusters-IsCluster first rest [] count near =
        (make_group-IsCluster n k first rest count near, tt)
    clusters-IsCluster first rest (finding ∷ findings) count near =
        elim (Bool-cases (joins n k (last_of first rest) (suc (length rest)) finding)) [
          | inl joined ↦
              let (file, line, size) =
                joins-near n k (suc (length rest)) (last_of first rest) finding joined in
              rw (joined, clusters)
                (clusters-IsCluster first (rest ++ finding ∷ []) findings
                  (omega (arith, length-append rest (finding ∷ [])))
                  (IsNear-append n first rest finding near file line))
          | inr cut ↦
              rw (cut, clusters)
                (
                  make_group-IsCluster n k first rest count near,
                  clusters-IsCluster finding [] findings (omega arith) tt,
                )
        ]

    clusters_of-IsCluster :
        (findings : List (AgentFinding Float)) → All (IsCluster n k) (clusters_of n k findings)
    unfolding clusters_of
    clusters_of-IsCluster [] = tt
    clusters_of-IsCluster (finding ∷ findings) =
        clusters-IsCluster finding [] findings (omega arith) tt

    -- If k is 1 or more, then each group has at most k findings, all of them in the group's file and
    -- in its range of lines, each at most n lines below the one before it.
    group-IsCluster :
        (findings : List (AgentFinding Float)) → All (IsCluster n k) (group n k findings)
    unfolding group
    group-IsCluster findings = clusters_of-IsCluster (sorted before findings)
