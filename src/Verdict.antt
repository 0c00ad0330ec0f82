-- ===== src/Verdict.antt =====
-- The verdict of a run: packaging/revue_core/src/revue_core/core/run_verdict.py.
pub mod Meaning
pub mod Codes
pub mod Order
mod Examples
use revue.Prelude.{
  ℕ, suc, ◌+◌, ◌*◌, Bool, true, false, ◌&&◌, ◌||◌, Option, none, some, List, [], ◌∷◌, String,
  str_eq, ◌==◌, leb, ltb, if◌then◌else◌, count, length,
}

-- `Float` is the type of the confidence, which the aggregation carries along.
pub record AgentStatus (Float : Type 0) : Type 0 where
  pub agent_name : String
  pub status : String
  pub finding_count : ℕ
  pub error_code : Option String
  pub confidence : Option Float
  pub summary : Option String

pub record RunVerdict (Float : Type 0) : Type 0 where
  pub verdict : String
  pub clean_count : ℕ
  pub finding_count : ℕ
  pub error_count : ℕ
  pub errors_by_code : List (String × ℕ)
  pub breakdown : List (AgentStatus Float)

unfoldable pub total_agents : {Float : Type 0} → RunVerdict Float → ℕ
total_agents v = v.clean_count + v.finding_count + v.error_count

unfoldable pub rule_failed : ℕ → ℕ → ℕ → ℕ → Bool
rule_failed total errors findings cleans = total == 0 || errors == total

unfoldable pub rule_degraded : ℕ → ℕ → ℕ → ℕ → Bool
rule_degraded total errors findings cleans = ltb 0 total && leb total (errors * 2)

unfoldable pub rule_findings : ℕ → ℕ → ℕ → ℕ → Bool
rule_findings total errors findings cleans = ltb 0 findings

unfoldable pub rule_clean : ℕ → ℕ → ℕ → ℕ → Bool
rule_clean total errors findings cleans = cleans == total && ltb 0 total

unfoldable pub verdict_rules : List (String × (ℕ → ℕ → ℕ → ℕ → Bool))
verdict_rules =
    ("failed", rule_failed)
    ∷ ("degraded", rule_degraded)
    ∷ ("findings", rule_findings)
    ∷ ("clean", rule_clean)
    ∷ []

-- the loop over the rules, with the name so far
unfoldable pub first_rule : String → ℕ → ℕ → ℕ → ℕ → List (String × (ℕ → ℕ → ℕ → ℕ → Bool)) → String
first_rule name total errors findings cleans [] = name
first_rule name total errors findings cleans ((rule, predicate) ∷ rules) =
    let rest = first_rule name total errors findings cleans rules in
    if predicate total errors findings cleans then rule else rest

unfoldable pub verdict_name : ℕ → ℕ → ℕ → ℕ → String
unfolding first_rule verdict_rules rule_failed rule_degraded rule_findings rule_clean
verdict_name total errors findings cleans =
    first_rule "failed" total errors findings cleans verdict_rules

-- errors_by_code[code] = errors_by_code.get(code, 0) + 1
unfoldable pub bump : String → List (String × ℕ) → List (String × ℕ)
bump code [] = (code, 1) ∷ []
bump code ((k, n) ∷ counts) =
    let rest = bump code counts in if str_eq k code then (k, n + 1) ∷ counts else (k, n) ∷ rest

unfoldable pub count_code : Option String → List (String × ℕ) → List (String × ℕ)
count_code none counts = counts
count_code (some code) counts = bump code counts

module _ {Float : Type 0} where
  abbrev pub has_status : String → AgentStatus Float → Bool
  has_status name s = str_eq s.status name

  -- s.error_code, if it is not None and not ""
  unfoldable pub code_of : AgentStatus Float → Option String
  code_of s =
      if str_eq s.status "error"
      then (elim s.error_code [
        | none ↦ none
        | some code ↦ if str_eq code "" then none else some code
      ])
      else none

  unfoldable pub count_codes : List (String × ℕ) → List (AgentStatus Float) → List (String × ℕ)
  count_codes counts [] = counts
  count_codes counts (s ∷ statuses) = count_codes (count_code (code_of s) counts) statuses

  unfoldable pub compute_run_verdict : List (AgentStatus Float) → RunVerdict Float
  compute_run_verdict statuses =
      let clean_count = count (has_status "clean") statuses in
      let finding_count = count (has_status "findings") statuses in
      let error_count = count (has_status "error") statuses in
      record {
        verdict = verdict_name (length statuses) error_count finding_count clean_count;
        clean_count = clean_count;
        finding_count = finding_count;
        error_count = error_count;
        errors_by_code = count_codes [] statuses;
        breakdown = statuses;
      }
