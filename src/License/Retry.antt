-- ===== src/License/Retry.antt =====
-- `_call_api`, `_compute_backoff` and `_call_api_with_retry`. The HTTP client is a parameter: its
-- answer to each attempt. Time is counted in half seconds, so that the base of the backoff is 1.
use Prim.Native.Nat.{min}
use revue.Prelude.{
  ℕ, zero, suc, ◌+◌, ◌-◌, ◌*◌, ◌^◌, Bool, ◌||◌, Option, none, some, List, [], ◌∷◌, ◌++◌, String,
  ◌==◌, leb, ltb, if◌then◌else◌,
}
use revue.Prelude.Int.{ℤ}

-- The keys of the response that are read; `valid` is the truth of data.get("valid").
pub record Body : Type 0 where
  pub valid : Bool
  pub tier : Option String
  pub agents_allowed : Option (List String)
  pub reviews_left : Option ℤ
  pub expires_at : Option String

-- one POST: a network error, or a status with the JSON of the answer if it has any
pub data Reply : Type 0 where
  network_error : Reply
  response : (status_code : ℕ) (json : Option Body) → Reply

-- `error` is left out: only messages use it.
pub record ValidationResult : Type 0 where
  pub status_code : Option ℕ
  pub body : Option Body

unfoldable pub call_api : Reply → ValidationResult
call_api network_error = record { status_code = none; body = none }
call_api (response status_code json) = record { status_code = some status_code; body = json }

abbrev pub max_validation_attempts : ℕ
max_validation_attempts = 3

abbrev pub retry_backoff_base : ℕ
retry_backoff_base = 1

abbrev pub retry_backoff_cap : ℕ
retry_backoff_cap = 8

unfoldable pub compute_backoff : ℕ → ℕ
compute_backoff attempt = min (retry_backoff_base * 2 ^ (attempt - 1)) retry_backoff_cap

-- What one attempt leads to. The two rejections are `LicenseError`.
pub data Step : Type 0 where
  accept : Body → Step
  reject_invalid reject_revoked : Step
  unreachable : Step
  transient : Step

-- the branches of the loop's body but the test on the number of attempts; `is_success` is a status of
-- 200 with a body
on_status : Option ℕ → Step
on_status none = transient
on_status (some code) =
    if code == 401 || code == 403
    then reject_revoked
    else if leb 500 code
    then transient
    else unreachable

on_result : Option ℕ → Option Body → Step
unfolding on_status
on_result (some code) (some body) =
    if code == 200
    then (if body.valid then accept body else reject_invalid)
    else on_status (some code)
on_result status_code _ = on_status status_code

unfoldable pub step_of : ValidationResult → Step
unfolding on_result
step_of result = on_result result.status_code result.body

pub data Outcome : Type 0 where
  validated : Body → Outcome
  license_error_invalid license_error_revoked api_unreachable : Outcome
  raised_none : Outcome

-- the POSTs made and the sleeps taken
pub record Trace : Type 0 where
  pub posts : ℕ
  pub sleeps : List ℕ

unfoldable pub slept : ℕ → Trace → Trace
slept attempt t = record t { sleeps = t.sleeps ++ compute_backoff attempt ∷ [] }

module _ (client : ℕ → Reply) where
  -- the loop from `attempt` on, with the attempts that are left; `raised_none` is the last line,
  -- which raises `last_unreachable` when that is still None
  unfoldable pub retry : ℕ → ℕ → Trace → Outcome × Trace
  unfolding call_api
  retry zero attempt t = (raised_none, t)
  retry (suc left) attempt t =
      let posted = record t { posts = t.posts + 1 } in
      let again = retry left (attempt + 1) (slept attempt posted) in
      elim (step_of (call_api (client attempt))) [
        | accept body ↦ (validated body, posted)
        | reject_invalid ↦ (license_error_invalid, posted)
        | reject_revoked ↦ (license_error_revoked, posted)
        | unreachable ↦ (api_unreachable, posted)
        | transient ↦
            if ltb attempt max_validation_attempts then again else (api_unreachable, posted)
      ]

  unfoldable pub call_api_with_retry : Outcome × Trace
  call_api_with_retry = retry max_validation_attempts 1 (record { posts = 0; sleeps = [] })
