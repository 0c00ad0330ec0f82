-- ===== src/Runner/Examples.antt =====
-- A run of three agents: one raises, one is clean, and one does not finish in time.
use mathlib.Core.List.{Perm}
use mathlib.Core.List.Perm
use revue.Prelude.{
  ℕ, ◌+◌, ◌≡◌, refl, Bool, true, not, none, List, [], ◌∷◌, map, count, length, String, str_eq,
  arith, ◌⊎◌, if◌then◌else◌,
}
use revue.Router.Signal.{filter}
use revue.Verdict.{compute_run_verdict}
use revue.Runner.{
  Analysed, verdict, raised, AgentRunResult, agent_statuses, has_completed, run_agents_parallel,
}
use revue.Runner.Complete.{run_agents_parallel-perm}
use revue.Runner.Degraded.{fails, run_agents_parallel-degraded}

abbrev analyse : String → Analysed ℕ ℕ
analyse n =
    if str_eq n "maya"
    then raised "ValueError" "bad"
    else verdict (record {
      status = "clean";
      findings = [];
      error_code = none;
      error_message = none;
      summary = none;
      confidence = none;
    })

abbrev itself : String → String
itself n = n

abbrev finished : String → Bool
finished n = not (str_eq n "kai")

abbrev team : List String
team = "zara" ∷ "maya" ∷ "kai" ∷ []

abbrev in_order : List String
in_order = "maya" ∷ "zara" ∷ []

in_order-perm : Perm in_order (filter finished team)
unfolding filter
in_order-perm = Perm.swap "zara" "maya" []

run_agents_parallel-perm_example :
    Perm
      (map
        (λ (r : AgentRunResult ℕ ℕ). r.agent_name)
        (run_agents_parallel itself analyse team in_order true))
      (map itself team)
unfolding has_completed
run_agents_parallel-perm_example =
    run_agents_parallel-perm itself analyse finished team in_order true in_order-perm
      (refl, (refl, (refl, tt))) refl

run_agents_parallel-degraded_example :
    ((compute_run_verdict
        (agent_statuses (run_agents_parallel itself analyse team in_order true))).error_count
      ≡ count (λ a. fails (analyse a)) in_order + length (filter (λ a. not (finished a)) team))
    × (((compute_run_verdict
            (agent_statuses (run_agents_parallel itself analyse team in_order true))).verdict
          ≡ "failed")
        ⊎ ((compute_run_verdict
              (agent_statuses (run_agents_parallel itself analyse team in_order true))).verdict
            ≡ "degraded"))
unfolding has_completed filter
run_agents_parallel-degraded_example =
    run_agents_parallel-degraded itself analyse finished team in_order true in_order-perm
      (refl, (refl, (refl, tt))) refl (omega arith)
