-- ===== src/Runner.antt =====
-- The parallel run of the agents: packaging/revue_core/src/revue_core/core/agent_runner.py, and the
-- statuses that core/pipeline.py makes of its results.
pub mod Complete
pub mod Degraded
mod Examples
use revue.Prelude.{
  ℕ, Bool, true, false, not, ◌&&◌, Option, none, some, List, [], ◌∷◌, ◌++◌, map, any, length,
  String, str_eq, if◌then◌else◌,
}
use revue.Router.Signal.{filter}
use revue.Verdict.{AgentStatus}

-- what `analyse` returns: an `AgentVerdict`, or a list of findings
pub record AgentVerdict (Float F : Type 0) : Type 0 where
  pub status : String
  pub findings : List F
  pub error_code : Option String
  pub error_message : Option String
  pub summary : Option String
  pub confidence : Option Float

-- A call of `analyse`; an exception has its type and its message.
pub data Analysed (Float F : Type 0) : Type 0 where
  verdict : AgentVerdict Float F → Analysed Float F
  findings_list : List F → Analysed Float F
  raised : String → String → Analysed Float F

pub record AgentRunResult (Float F : Type 0) : Type 0 where
  pub agent_name : String
  pub findings : List F
  pub timed_out : Bool
  pub error : String
  pub error_type : String
  pub status : String
  pub error_code : Option String
  pub summary : Option String
  pub confidence : Option Float

unfoldable pub text_or_empty : Option String → String
text_or_empty none = ""
text_or_empty (some s) = s

module _ {Float F : Type 0} where
  -- `AgentRunResult.success`
  unfoldable pub success : AgentRunResult Float F → Bool
  success r = not r.timed_out && str_eq r.error ""

  -- the result of an agent by its name
  unfoldable pub result_of : String → Analysed Float F → AgentRunResult Float F
  unfolding text_or_empty
  result_of name (verdict v) = record {
    agent_name = name;
    findings = v.findings;
    timed_out = false;
    error = if str_eq v.status "error" then text_or_empty v.error_message else "";
    error_type = if str_eq v.status "error" then "AgentVerdictError" else "";
    status = v.status;
    error_code = v.error_code;
    summary = v.summary;
    confidence = v.confidence;
  }
  result_of name (findings_list fs) = record {
    agent_name = name;
    findings = fs;
    timed_out = false;
    error = "";
    error_type = "";
    status = "findings";
    error_code = none;
    summary = none;
    confidence = none;
  }
  result_of name (raised kind message) = record {
    agent_name = name;
    findings = [];
    timed_out = false;
    error = message;
    error_type = kind;
    status = "error";
    error_code = some "internal_error";
    summary = none;
    confidence = none;
  }

  -- an agent that has not completed
  unfoldable pub timed_out_result : String → AgentRunResult Float F
  timed_out_result name = record {
    agent_name = name;
    findings = [];
    timed_out = true;
    error = "";
    error_type = "";
    status = "findings";
    error_code = none;
    summary = none;
    confidence = none;
  }

  -- a result in the snapshot of core/pipeline.py
  unfoldable pub status_of : AgentRunResult Float F → AgentStatus Float
  status_of r =
      if r.timed_out
      then record {
        agent_name = r.agent_name;
        status = "error";
        finding_count = 0;
        error_code = some "internal_error";
        confidence = none;
        summary = none;
      }
      else record {
        agent_name = r.agent_name;
        status = if str_eq r.status "" then "findings" else r.status;
        finding_count = length r.findings;
        error_code = r.error_code;
        confidence = r.confidence;
        summary = r.summary;
      }

  unfoldable pub agent_statuses : List (AgentRunResult Float F) → List (AgentStatus Float)
  unfolding status_of
  agent_statuses [] = []
  agent_statuses (r ∷ results) = status_of r ∷ agent_statuses results

  module _ {A : Type 0} (name : A → String) (analyse : A → Analysed Float F) where
    unfoldable pub run_one : A → AgentRunResult Float F
    unfolding result_of
    run_one agent = result_of (name agent) (analyse agent)

    -- the results of the futures, in the order in which they complete
    unfoldable pub collect_results : List A → List (AgentRunResult Float F)
    unfolding run_one
    collect_results [] = []
    collect_results (agent ∷ agents) = run_one agent ∷ collect_results agents

    -- `completed_names`, and the agents that are not in it
    unfoldable pub has_completed : List A → A → Bool
    has_completed completed agent = any (λ a. str_eq (name a) (name agent)) completed

    unfoldable pub mark_timed_out : List A → List (AgentRunResult Float F)
    unfolding timed_out_result
    mark_timed_out [] = []
    mark_timed_out (agent ∷ agents) = timed_out_result (name agent) ∷ mark_timed_out agents

    -- `completed` are the agents whose futures have completed in time, in their order, and
    -- `is_timeout` is whether `as_completed` raises TimeoutError
    unfoldable pub run_agents_parallel : List A → List A → Bool → List (AgentRunResult Float F)
    unfolding collect_results has_completed mark_timed_out filter
    run_agents_parallel [] completed is_timeout = []
    run_agents_parallel (agent ∷ agents) completed is_timeout =
        if is_timeout
        then collect_results completed
          ++ mark_timed_out (filter (λ a. not (has_completed completed a)) (agent ∷ agents))
        else collect_results completed
