-- ===== src/Consolidator/Chain/Ordered.antt =====
-- The order of the findings that `consolidate` returns.
use revue.Prelude.{◌≡◌, Bool, true, false, List, [], ◌∷◌, map, Option, arith}
use revue.Prelude.Sort.{IsOrdered, sorted-IsOrdered}
use revue.Consolidator.Findings.{AgentFinding, SynthesisGroup, ConsolidatedFinding}
use revue.Consolidator.Chain.{
  Processor, run_processors, keep, key_lt, consolidate, consolidate_some,
}

module _ {Float : Type 0} (lt_float : Float → Float → Bool) where
  key_lt-asymmetric :
      ((x y : Float) → lt_float x y ≡ true → lt_float y x ≡ false)
      → (f g : ConsolidatedFinding Float) → key_lt lt_float f g ≡ true
      → key_lt lt_float g f ≡ false
  unfolding key_lt
  key_lt-asymmetric asymmetric f g h = ground (arith, asymmetric g.confidence f.confidence)

  -- Whatever the grouping, the synthesis and the post-processors do, `consolidate` returns its
  -- findings by severity, from high to low, and by falling confidence within a severity. The order
  -- of the confidences is asymmetric.
  consolidate-IsOrdered :
      (grouping : List (AgentFinding Float) → List (SynthesisGroup Float))
      (synthesise : SynthesisGroup Float → Option (ConsolidatedFinding Float))
      (post_processors : List (Processor Float)) (findings : List (AgentFinding Float))
      → ((x y : Float) → lt_float x y ≡ true → lt_float y x ≡ false)
      → IsOrdered
          (key_lt lt_float)
          (consolidate lt_float grouping synthesise post_processors findings)
  unfolding consolidate consolidate_some
  consolidate-IsOrdered grouping synthesise post_processors [] asymmetric = tt
  consolidate-IsOrdered grouping synthesise post_processors (f ∷ findings) asymmetric =
      sorted-IsOrdered (key_lt lt_float) (key_lt-asymmetric asymmetric)
        (run_processors post_processors (keep (map synthesise (grouping (f ∷ findings)))))
