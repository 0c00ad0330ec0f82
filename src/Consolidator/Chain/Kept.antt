-- ===== src/Consolidator/Chain/Kept.antt =====
-- What becomes of the findings in the chain that the pipeline sets up.
use mathlib.Core.List.{Perm}
use revue.Prelude.{◌≡◌, refl, ap, ◌∙◌, Bool, List, [], ◌∷◌, map, Option, some}
use revue.Prelude.Sort.{sorted-perm}
use revue.Consolidator.Findings.{AgentFinding, SynthesisGroup, ConsolidatedFinding}
use revue.Consolidator.Chain.{
  keep, process_or_keep, run_processor, run_processors, key_lt, consolidate, consolidate_some,
  drop_noop, noop_dropper, unanchored_extractor,
}

module _ {Float : Type 0} where
  keep-process :
      (change : ConsolidatedFinding Float → ConsolidatedFinding Float)
      (fs : List (ConsolidatedFinding Float))
      → keep (map (process_or_keep (λ f. some (some (change f)))) fs) ≡ map change fs
  unfolding keep process_or_keep
  keep-process change [] = refl
  keep-process change (f ∷ fs) = ap (λ gs. change f ∷ gs) (keep-process change fs)

  map-same : (fs : List (ConsolidatedFinding Float)) → map (λ f. f) fs ≡ fs
  map-same [] = refl
  map-same (f ∷ fs) = ap (λ gs. f ∷ gs) (map-same fs)

  chain-drop_noop :
      (fs : List (ConsolidatedFinding Float))
      → run_processors (noop_dropper ∷ unanchored_extractor ∷ []) fs ≡ map drop_noop fs
  unfolding run_processors run_processor noop_dropper unanchored_extractor
  chain-drop_noop fs =
      keep-process (λ f. f) (keep (map (process_or_keep (λ f. some (some (drop_noop f)))) fs))
      ∙ map-same (keep (map (process_or_keep (λ f. some (some (drop_noop f)))) fs))
      ∙ keep-process drop_noop fs

  -- With the post-processors `NoOpSuggestionDropper` and `UnanchoredFindingExtractor`, `consolidate`
  -- of at least one finding returns one finding for each group whose synthesis did not raise, with a
  -- replacement that changes nothing taken off, and no other: the result is a permutation of these.
  consolidate-perm :
      (lt_float : Float → Float → Bool)
      (grouping : List (AgentFinding Float) → List (SynthesisGroup Float))
      (synthesise : SynthesisGroup Float → Option (ConsolidatedFinding Float))
      (f : AgentFinding Float) (findings : List (AgentFinding Float))
      → Perm
          (consolidate lt_float grouping synthesise
            (noop_dropper ∷ unanchored_extractor ∷ [])
            (f ∷ findings))
          (map drop_noop (keep (map synthesise (grouping (f ∷ findings)))))
  unfolding consolidate
  consolidate-perm lt_float grouping synthesise f findings =
      let outs = keep (map synthesise (grouping (f ∷ findings))) in
      rw (consolidate_some, chain-drop_noop outs)
        (sorted-perm (key_lt lt_float) (map drop_noop outs))
