-- ===== src/Verdict/Examples.antt =====
-- The theorems about the verdict at concrete runs.
use revue.Prelude.{◌≡◌, none, some, List, [], ◌∷◌, String, if◌then◌else◌, str_eq}
use revue.Verdict.{AgentStatus, compute_run_verdict}
use revue.Verdict.Meaning.{verdict-compute_run_verdict}

-- no confidence is given
abbrev status_of : String → String → AgentStatus (Unit {0})
status_of name status = record {
  agent_name = name;
  status = status;
  finding_count = 0;
  error_code = if str_eq status "error" then some "timeout" else none;
  confidence = none;
  summary = none;
}

abbrev run : List (AgentStatus (Unit {0}))
run = status_of "sage" "clean" ∷ status_of "vex" "error" ∷ status_of "cleo" "clean" ∷ []

abbrev swapped : List (AgentStatus (Unit {0}))
swapped = status_of "vex" "error" ∷ status_of "sage" "clean" ∷ status_of "cleo" "clean" ∷ []

verdict-compute_run_verdict_example : (compute_run_verdict run).verdict ≡ "failed"
verdict-compute_run_verdict_example = verdict-compute_run_verdict run
