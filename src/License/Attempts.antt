-- ===== src/License/Attempts.antt =====
-- How often the licence service is called, and which of its answers decides.
use revue.Prelude.{ℕ, suc, ◌+◌, ◌≤◌, ◌≡◌, ◌≢◌, List, [], ◌∷◌, length, arith}
use revue.License.Retry.{
  Reply, Step, accept, reject_invalid, reject_revoked, unreachable, transient, Outcome, validated,
  license_error_invalid, license_error_revoked, api_unreachable, raised_none, call_api, step_of,
  slept, compute_backoff, retry, call_api_with_retry,
}

-- the first answer that is not transient decides
abbrev pub first_final : List Step → Outcome
first_final [] = api_unreachable
first_final (accept body ∷ steps) = validated body
first_final (reject_invalid ∷ steps) = license_error_invalid
first_final (reject_revoked ∷ steps) = license_error_revoked
first_final (unreachable ∷ steps) = api_unreachable
first_final (transient ∷ steps) = first_final steps

abbrev pub sum : List ℕ → ℕ
sum [] = 0
sum (n ∷ ns) = n + sum ns

-- the attempts that are made, each after the first preceded by a sleep
abbrev pub tries : List Step → ℕ
tries [] = 0
tries (transient ∷ steps) = suc (tries steps)
tries (step ∷ steps) = 1

module _ (client : ℕ → Reply) where
  abbrev pub step_at : ℕ → Step
  step_at attempt = step_of (call_api (client attempt))

  abbrev pub three_steps : List Step
  three_steps = step_at 1 ∷ step_at 2 ∷ step_at 3 ∷ []

  -- The outcome of the retry loop is that of the first of three answers that is not transient, and
  -- unreachable if all three are transient; the loop never falls through to its last line.
  pub call_api_with_retry-first_final :
      ((call_api_with_retry client).0 ≡ first_final three_steps)
      × ((call_api_with_retry client).0 ≢ raised_none)
  unfolding call_api_with_retry retry
  call_api_with_retry-first_final = ground arith

  -- The loop calls the service once for each answer up to the deciding one, at most three times;
  -- it sleeps once between two calls, and for 1.5 seconds (3 half seconds) in all at most.
  call_api_with_retry-bounds :
      ((call_api_with_retry client).1.posts ≡ tries three_steps)
      × ((call_api_with_retry client).1.posts ≤ 3)
      × (length (call_api_with_retry client).1.sleeps + 1 ≡ (call_api_with_retry client).1.posts)
      × (sum (call_api_with_retry client).1.sleeps ≤ 3)
  unfolding call_api_with_retry retry slept compute_backoff
  call_api_with_retry-bounds = ground arith
