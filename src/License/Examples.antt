-- ===== src/License/Examples.antt =====
-- The theorems about the license at concrete answers of the service.
use revue.Prelude.{◌≡◌, ◌*◌, ◌-◌, ◌⊎◌, ℕ, refl, true, none, some, String, ltb, leb, if◌then◌else◌}
use revue.License.Retry.{
  Body, Reply, network_error, response, validated, license_error_revoked, api_unreachable,
  call_api_with_retry, retry, call_api, step_of,
}
use revue.License.Validate.{
  Env, licensed, failed, grace_expired, build_license_info, override_active, key_of, validate,
  settle,
}
use revue.License.Grace.{IsProduction, IsOnline, IsOffline, validate-licensed, validate_offline}

abbrev answer : Body
answer = record {
  valid = true;
  tier = some "pro";
  agents_allowed = none;
  reviews_left = none;
  expires_at = none;
}

-- unavailable twice, then an answer
abbrev slow_client : ℕ → Reply
slow_client attempt = if leb 3 attempt then response 200 (some answer) else response 503 none

abbrev no_client : ℕ → Reply
no_client attempt = network_error

abbrev revoking_client : ℕ → Reply
revoking_client attempt = response 403 none

abbrev env : Env
env = record {
  is_compiled = true;
  app_env = "production";
  tier_override = "";
  env_key = "k1";
  cache = none;
  cache_writable = true;
  now = 1000;
}

abbrev hash : String → String
hash key = key

slow_test : (call_api_with_retry slow_client).0 ≡ validated answer
unfolding call_api_with_retry retry call_api step_of
slow_test = refl

offline_test : (call_api_with_retry no_client).0 ≡ api_unreachable
unfolding call_api_with_retry retry call_api step_of
offline_test = refl

revoked_test : (call_api_with_retry revoking_client).0 ≡ license_error_revoked
unfolding call_api_with_retry retry call_api step_of
revoked_test = refl

env-IsProduction : IsProduction none env
unfolding override_active key_of
env-IsProduction = record { no_override = refl; some_key = refl }

licensed_test : (validate hash none slow_client env).0 ≡ licensed (build_license_info "k1" answer)
unfolding validate override_active key_of settle call_api_with_retry retry call_api step_of
licensed_test = refl

validate-licensed_example :
    IsOnline hash none slow_client env (build_license_info "k1" answer)
    ⊎ IsOffline hash none slow_client env (build_license_info "k1" answer)
validate-licensed_example =
    validate-licensed hash none slow_client env (build_license_info "k1" answer)
      env-IsProduction.no_override licensed_test

validate_offline_example :
    (validate hash none no_client (record (validate hash none slow_client env).1 { now = 5000 })).0
    ≡ (if ltb (72 * 3600) (5000 - 1000)
        then failed grace_expired
        else (validate hash none slow_client env).0)
validate_offline_example =
    validate_offline hash none slow_client no_client env 5000 answer env-IsProduction refl slow_test
      offline_test
