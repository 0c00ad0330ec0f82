-- ===== src/Runner/Degraded.antt =====
-- What a run with failed agents is called.
use mathlib.Core.List.{Perm}
use revue.Prelude.{
  ℕ, suc, ◌+◌, ◌*◌, ◌≤◌, ◌≡◌, refl, ◌∙◌, Bool, true, false, not, List, [], ◌∷◌, ◌++◌, all, All,
  count, length, leb, String, str_eq, eq_iff, arith, ◌⊎◌, Bool-cases, inl, inr,
}
use revue.Router.Signal.{filter}
use revue.Verdict.{AgentStatus, has_status, compute_run_verdict}
use revue.Verdict.Meaning.{verdict-compute_run_verdict}
use revue.Runner.{
  Analysed, verdict, findings_list, raised, AgentRunResult, result_of, timed_out_result, status_of,
  agent_statuses, run_one, collect_results, has_completed, mark_timed_out, run_agents_parallel,
}
use revue.Runner.Complete.{run_agents_parallel-parts}

-- an error verdict, or an exception
abbrev pub fails : {Float F : Type 0} → Analysed Float F → Bool
fails (verdict v) = str_eq v.status "error"
fails (findings_list fs) = false
fails (raised kind message) = true

no_status : (s : String) → str_eq s "" ≡ true → str_eq s "error" ≡ false
no_status s h = rw ((eq_iff s "").0 h) refl

module _ {Float F : Type 0} where
  status-result_of :
      (n : String) (o : Analysed Float F) → has_status "error" (status_of (result_of n o)) ≡ fails o
  unfolding status_of result_of
  status-result_of n (verdict v) = elim (Bool-cases (str_eq v.status "")) [
    | inl e ↦ rw (e, no_status v.status e) refl
    | inr e ↦ rw e refl
  ]
  status-result_of n (findings_list fs) = refl
  status-result_of n (raised kind message) = refl

  count-result_of :
      (n : String) (o : Analysed Float F) (statuses : List (AgentStatus Float)) (k : ℕ)
      → count (has_status "error") statuses ≡ k
      → count (has_status "error") (status_of (result_of n o) ∷ statuses)
        ≡ (elim (fails o) [ true ↦ suc k | false ↦ k ])
  count-result_of n o statuses k h = ground (arith, status-result_of n o, h)

  count-append :
      (p : AgentStatus Float → Bool) (xs ys : List (AgentRunResult Float F))
      → count p (agent_statuses (xs ++ ys))
        ≡ count p (agent_statuses xs) + count p (agent_statuses ys)
  unfolding agent_statuses
  count-append p [] ys = omega arith
  count-append p (x ∷ xs) ys = ground (arith, count-append p xs ys)

  length-agent_statuses :
      (xs ys : List (AgentRunResult Float F))
      → length (agent_statuses (xs ++ ys)) ≡ length xs + length ys
  unfolding agent_statuses
  length-agent_statuses [] [] = refl
  length-agent_statuses [] (y ∷ ys) = omega (arith, length-agent_statuses [] ys)
  length-agent_statuses (x ∷ xs) ys = omega (arith, length-agent_statuses xs ys)

  module _ {A : Type 0} (name : A → String) (analyse : A → Analysed Float F) where
    errors-collect_results :
        (xs : List A)
        → count (has_status "error") (agent_statuses (collect_results name analyse xs))
          ≡ count (λ a. fails (analyse a)) xs
    unfolding agent_statuses collect_results run_one
    errors-collect_results [] = refl
    errors-collect_results (x ∷ xs) =
        count-result_of (name x) (analyse x) (agent_statuses (collect_results name analyse xs))
          (count (λ a. fails (analyse a)) xs) (errors-collect_results xs)

    errors-mark_timed_out :
        (xs : List A)
        → count (has_status "error") (agent_statuses (mark_timed_out name analyse xs)) ≡ length xs
    unfolding agent_statuses mark_timed_out timed_out_result status_of
    errors-mark_timed_out [] = refl
    errors-mark_timed_out (x ∷ xs) = omega (arith, errors-mark_timed_out xs)

    length-collect_results : (xs : List A) → length (collect_results name analyse xs) ≡ length xs
    unfolding collect_results
    length-collect_results [] = refl
    length-collect_results (x ∷ xs) = omega (arith, length-collect_results xs)

    length-mark_timed_out : (xs : List A) → length (mark_timed_out name analyse xs) ≡ length xs
    unfolding mark_timed_out
    length-mark_timed_out [] = refl
    length-mark_timed_out (x ∷ xs) = omega (arith, length-mark_timed_out xs)

failed_or_degraded :
    {Float : Type 0} (statuses : List (AgentStatus Float))
    → length statuses ≤ count (has_status "error") statuses * 2
    → ((compute_run_verdict statuses).verdict ≡ "failed")
      ⊎ ((compute_run_verdict statuses).verdict ≡ "degraded")
failed_or_degraded statuses h =
    let half : leb (length statuses) (count (has_status "error") statuses * 2) ≡ true =
      ground arith in
    elim (Bool-cases (all (has_status "error") statuses)) [
      | inl e ↦ inl (verdict-compute_run_verdict statuses ∙ rw e refl)
      | inr e ↦ inr (verdict-compute_run_verdict statuses ∙ rw (e, half) refl)
    ]

-- If at least half of the results of a parallel run are agents that have raised, have returned an
-- error verdict or have not finished in time, then the verdict on the run's statuses is "failed" or
-- "degraded", and never "clean" or "findings"; its error count is their number. As for the order: the
-- completed agents are those that have finished, no other agent has the name of one of them, and
-- `as_completed` raises TimeoutError just when some agent has not finished.
pub run_agents_parallel-degraded :
    {Float F A : Type 0} (name : A → String) (analyse : A → Analysed Float F) (finished : A → Bool)
    (agents completed : List A) (is_timeout : Bool)
    → Perm completed (filter finished agents)
    → All (λ a. has_completed name analyse completed a ≡ finished a) agents
    → all finished agents ≡ not is_timeout
    → (length completed + length (filter (λ a. not (finished a)) agents)
        ≤ (count (λ a. fails (analyse a)) completed
            + length (filter (λ a. not (finished a)) agents))
          * 2)
    → ((compute_run_verdict (
          agent_statuses
            (run_agents_parallel name analyse agents completed is_timeout))).error_count
        ≡ count (λ a. fails (analyse a)) completed + length (filter (λ a. not (finished a)) agents))
      × (((compute_run_verdict (
              agent_statuses
                (run_agents_parallel name analyse agents completed is_timeout))).verdict
            ≡ "failed")
          ⊎ ((compute_run_verdict (
                agent_statuses
                  (run_agents_parallel name analyse agents completed is_timeout))).verdict
              ≡ "degraded"))
unfolding compute_run_verdict
run_agents_parallel-degraded name analyse finished agents completed is_timeout order named over
      half =
    let others = filter (λ a. not (finished a)) agents in
    let xs = collect_results name analyse completed in
    let ys = mark_timed_out name analyse others in
    let statuses = agent_statuses (xs ++ ys) in
    let errors : count (has_status "error") statuses
        ≡ count (λ a. fails (analyse a)) completed + length others =
      omega (
        arith,
        count-append (has_status "error") xs ys,
        errors-collect_results name analyse completed,
        errors-mark_timed_out name analyse others,
      ) in
    let total : length statuses ≡ length completed + length others = omega (
      arith,
      length-agent_statuses xs ys,
      length-collect_results name analyse completed,
      length-mark_timed_out name analyse others,
    ) in
    rw
      (run_agents_parallel-parts name analyse finished agents completed is_timeout order named over)
      (errors, failed_or_degraded statuses (omega (arith, half, errors, total)))
