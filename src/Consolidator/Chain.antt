-- ===== src/Consolidator/Chain.antt =====
-- `Consolidator.consolidate` and the post-processors that it is given. The thread pool is its result:
-- the syntheses in the order of the groups. Log lines are left out.
pub mod Ordered
pub mod Kept
use revue.Prelude.{
  ℕ, Bool, true, false, ◌||◌, ◌&&◌, Option, none, some, List, [], ◌∷◌, map, ◌==◌, ltb,
  if◌then◌else◌,
}
use revue.Prelude.Text.{Text, splitlines, same}
use revue.Prelude.Sort.{sorted}
use revue.Consolidator.Findings.{AgentFinding, SynthesisGroup, ConsolidatedFinding, is_some_list}
use revue.Consolidator.Fallback.{severity_order, join_lines}

-- `process_all`, or `process`; an exception is `none`, and so is a finding that is dropped
pub data Processor (Float : Type 0) : Type 0 where
  process_all :
      (List (ConsolidatedFinding Float) → Option (List (Option (ConsolidatedFinding Float))))
      → Processor Float
  process :
      (ConsolidatedFinding Float → Option (Option (ConsolidatedFinding Float))) → Processor Float

-- [x for x in xs if x is not None]
unfoldable pub keep {ℓ} : {A : Type ℓ} → List (Option A) → List A
keep [] = []
keep (none ∷ xs) = keep xs
keep (some x ∷ xs) = x ∷ keep xs

unfoldable pub same_lines : List Text → List Text → Bool
same_lines [] [] = true
same_lines [] (t ∷ ts) = false
same_lines (s ∷ ss) [] = false
same_lines (s ∷ ss) (t ∷ ts) = same s t && same_lines ss ts

-- `_strip_sigils`
unfoldable pub strip_sigils : Text → Text
strip_sigils [] = []
strip_sigils (c ∷ line) = if c == b'+' || c == b'-' || c == b' ' then line else c ∷ line

-- the three ways to match
unfoldable pub is_noop : List Text → Text → Bool
is_noop replacement snippet =
    same_lines replacement (splitlines snippet)
    || same_lines (map strip_sigils replacement) (splitlines snippet)
    || same (join_lines (map strip_sigils replacement)) snippet

module _ {Float : Type 0} where
  -- out = processor.process(finding), or the finding itself if that raises
  unfoldable pub process_or_keep :
      (ConsolidatedFinding Float → Option (Option (ConsolidatedFinding Float)))
      → ConsolidatedFinding Float
      → Option (ConsolidatedFinding Float)
  process_or_keep p f = elim (p f) [ none ↦ some f | some out ↦ out ]

  unfoldable pub run_processor :
      Processor Float → List (ConsolidatedFinding Float) → List (ConsolidatedFinding Float)
  unfolding keep process_or_keep
  run_processor (process_all batch_fn) consolidated = elim (batch_fn consolidated) [
    | none ↦ consolidated
    | some outs ↦ keep outs
  ]
  run_processor (process p) consolidated = keep (map (process_or_keep p) consolidated)

  unfoldable pub run_processors :
      List (Processor Float) → List (ConsolidatedFinding Float) → List (ConsolidatedFinding Float)
  run_processors [] consolidated = consolidated
  run_processors (processor ∷ processors) consolidated =
      run_processors processors (run_processor processor consolidated)

  -- (_SEVERITY_ORDER[severity], -confidence) of f is less than that of g
  unfoldable pub key_lt :
      (Float → Float → Bool) → ConsolidatedFinding Float → ConsolidatedFinding Float → Bool
  key_lt lt_float f g =
      ltb (severity_order f.severity) (severity_order g.severity)
      || (severity_order f.severity == severity_order g.severity
          && lt_float g.confidence f.confidence)

  module _ (lt_float : Float → Float → Bool)
      (grouping : List (AgentFinding Float) → List (SynthesisGroup Float))
      (synthesise : SynthesisGroup Float → Option (ConsolidatedFinding Float))
      (post_processors : List (Processor Float)) where
    unfoldable pub consolidate_some : List (AgentFinding Float) → List (ConsolidatedFinding Float)
    consolidate_some findings =
        sorted (key_lt lt_float)
          (run_processors post_processors (keep (map synthesise (grouping findings))))

    unfoldable pub consolidate : List (AgentFinding Float) → List (ConsolidatedFinding Float)
    unfolding consolidate_some
    consolidate [] = []
    consolidate (f ∷ findings) = consolidate_some (f ∷ findings)

  -- `NoOpSuggestionDropper.process`
  unfoldable pub drop_noop : ConsolidatedFinding Float → ConsolidatedFinding Float
  drop_noop f = elim f.code_replacement [
    | none ↦ f
    | some replacement ↦
        if is_some_list replacement && is_noop replacement f.snippet
        then record f { code_replacement = none }
        else f
  ]

  -- `NoOpSuggestionDropper` and `UnanchoredFindingExtractor`, which neither raise nor drop
  unfoldable pub noop_dropper : Processor Float
  noop_dropper = process (λ f. some (some (drop_noop f)))

  unfoldable pub unanchored_extractor : Processor Float
  unanchored_extractor = process (λ f. some (some f))
