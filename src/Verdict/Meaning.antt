-- ===== src/Verdict/Meaning.antt =====
-- What each verdict says of the statuses.
use revue.Prelude.{
  ℕ, ◌*◌, ◌≤◌, ◌<◌, ◌≡◌, refl, true, false, not, ◌&&◌, ◌||◌, List, [], ◌∷◌, String, str_eq, eq_iff,
  ◌==◌, leb, ltb, if◌then◌else◌, count, length, all, any, All, all-count, any-count,
  count-le-length, arith,
}
use revue.Verdict.{AgentStatus, has_status, verdict_name, compute_run_verdict, total_agents}

other_literal : (s a b : String) → str_eq a b ≡ false → str_eq s a ≡ true → str_eq s b ≡ false
other_literal s a b apart h = rw ((eq_iff s a).0 h) apart

verdict_name_lem :
    (total errors findings cleans : ℕ)
    → errors ≤ total
    → verdict_name total errors findings cleans ≡ (
        if errors == total
        then "failed"
        else if leb total (errors * 2)
        then "degraded"
        else if ltb 0 findings
        then "findings"
        else if cleans == total
        then "clean"
        else "failed")
unfolding verdict_name
verdict_name_lem total errors findings cleans h = ground arith

module _ {Float : Type 0} where
  -- a status of the closed set
  abbrev pub IsKnown : AgentStatus Float → Type 0
  IsKnown s = (has_status "findings" s || has_status "clean" s || has_status "error" s) ≡ true

  -- exactly one of the three tests holds
  one_status :
      (s : AgentStatus Float)
      → IsKnown s
      → (has_status "clean" s ≡ not (has_status "findings" s || has_status "error" s))
        × ((has_status "findings" s && has_status "error" s) ≡ false)
  one_status s h = ground (
    arith,
    other_literal s.status "clean" "findings" refl,
    other_literal s.status "clean" "error" refl,
    other_literal s.status "findings" "error" refl,
  )

  -- The three counts of the verdict add up to the number of agents, if each status is "findings",
  -- "clean" or "error".
  total_agents-compute_run_verdict :
      (statuses : List (AgentStatus Float))
      → All IsKnown statuses
      → total_agents (compute_run_verdict statuses) ≡ length statuses
  unfolding total_agents compute_run_verdict
  total_agents-compute_run_verdict [] h = refl
  total_agents-compute_run_verdict (s ∷ statuses) h =
      ground (arith, one_status s h.0, total_agents-compute_run_verdict statuses h.1)

  -- The verdict is "failed" if all agents erred (or there are none), else "degraded" if at least half
  -- of them erred, else "findings" if some agent has findings, else "clean" if all agents are clean;
  -- and it is "failed" in the case that is left.
  pub verdict-compute_run_verdict :
      (statuses : List (AgentStatus Float))
      → (compute_run_verdict statuses).verdict ≡ (
          if all (has_status "error") statuses
          then "failed"
          else if leb (length statuses) (count (has_status "error") statuses * 2)
          then "degraded"
          else if any (has_status "findings") statuses
          then "findings"
          else if all (has_status "clean") statuses
          then "clean"
          else "failed")
  unfolding compute_run_verdict
  verdict-compute_run_verdict statuses =
      rw
        (
          all-count (has_status "error") statuses,
          all-count (has_status "clean") statuses,
          any-count (has_status "findings") statuses,
        )
        (verdict_name_lem (length statuses) (count (has_status "error") statuses)
          (count (has_status "findings") statuses) (count (has_status "clean") statuses)
          (count-le-length (has_status "error") statuses))

  no_findings :
      (statuses : List (AgentStatus Float))
      → all (λ s. has_status "error" s || has_status "clean" s) statuses ≡ true
      → any (has_status "findings") statuses ≡ false
  no_findings [] h = refl
  no_findings (s ∷ statuses) h = ground (
    arith,
    other_literal s.status "error" "findings" refl,
    other_literal s.status "clean" "findings" refl,
    no_findings statuses,
  )

  some_not_clean :
      (statuses : List (AgentStatus Float))
      → any (has_status "error") statuses ≡ true
      → all (has_status "clean") statuses ≡ false
  some_not_clean [] h = cc
  some_not_clean (s ∷ statuses) h =
      ground (arith, other_literal s.status "error" "clean" refl, some_not_clean statuses)

  -- If some agent erred but fewer than half did, and all the others are clean, then the verdict is
  -- "failed", and not "clean".
  minority_errors_failed :
      (statuses : List (AgentStatus Float))
      → any (has_status "error") statuses ≡ true
      → count (has_status "error") statuses * 2 < length statuses
      → all (λ s. has_status "error" s || has_status "clean" s) statuses ≡ true
      → (compute_run_verdict statuses).verdict ≡ "failed"
  minority_errors_failed statuses some_error few others =
      let finds = no_findings statuses others in
      let unclean = some_not_clean statuses some_error in
      rw (verdict-compute_run_verdict statuses, finds, unclean)
        (ground (arith, all-count (has_status "error") statuses))
