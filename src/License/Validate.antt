-- ===== src/License/Validate.antt =====
-- `validate`, `_build_license_info` and the cache. `key_hash` is SHA-256. Time is counted in seconds.
use revue.Prelude.{
  ℕ, ◌-◌, ◌*◌, Bool, true, false, not, ◌&&◌, ◌||◌, Option, none, some, List, [], ◌∷◌, String,
  str_eq, ltb, if◌then◌else◌,
}
use revue.Prelude.Int.{ℤ}
use revue.License.Retry.{
  Body, Reply, Outcome, validated, license_error_invalid, license_error_revoked, api_unreachable,
  raised_none, call_api_with_retry,
}

abbrev pub tier_all_agents : List String
tier_all_agents =
    "orchestrator" ∷ "code-quality-expert" ∷ "security-expert" ∷ "performance-expert"
    ∷ "architecture-expert" ∷ "consolidator" ∷ "sage" ∷ "cleo" ∷ "nova" ∷ "vex" ∷ []

abbrev pub free_agents : List String
free_agents = "orchestrator" ∷ "code-quality-expert" ∷ "consolidator" ∷ []

-- AGENTS_BY_TIER.get(tier)
unfoldable pub agents_by_tier : String → Option (List String)
agents_by_tier tier =
    if str_eq tier "free"
    then some free_agents
    else if str_eq tier "indie"
        || str_eq tier "pro"
        || str_eq tier "enterprise_starter"
        || str_eq tier "enterprise_growth"
        || str_eq tier "enterprise_plus"
    then some tier_all_agents
    else none

abbrev or_else {ℓ} : {A : Type ℓ} → Option A → A → A
or_else none d = d
or_else (some a) d = a

pub record LicenseInfo : Type 0 where
  pub valid : Bool
  pub tier : String
  pub agents_allowed : List String
  pub reviews_left : Option ℤ
  pub expires_at : String
  pub key : String

unfoldable pub build_license_info : String → Body → LicenseInfo
build_license_info key body =
    let tier = or_else body.tier "free" in
    record {
      valid = true;
      tier = tier;
      agents_allowed = or_else body.agents_allowed (or_else (agents_by_tier tier) free_agents);
      reviews_left = body.reviews_left;
      expires_at = or_else body.expires_at "";
      key = key;
    }

pub record Cache : Type 0 where
  pub key_hash : String
  pub response : Body
  pub cached_at : ℕ

-- The process's environment: `app_env` and `tier_override` are lower case already, `env_key` is
-- REVUE_LICENSE_KEY or "", `cache` is the parsed cache file (`none` where it cannot be read).
pub record Env : Type 0 where
  pub is_compiled : Bool
  pub app_env : String
  pub tier_override : String
  pub env_key : String
  pub cache : Option Cache
  pub cache_writable : Bool
  pub now : ℕ

pub data LicenseFailure : Type 0 where
  no_key rejected no_cache grace_expired internal : LicenseFailure

pub data Result : Type 0 where
  licensed : LicenseInfo → Result
  failed : LicenseFailure → Result

unfoldable pub override_active : Env → Bool
override_active env =
    not env.is_compiled
    && (str_eq env.app_env "development" || str_eq env.app_env "staging")
    && (elim (agents_by_tier env.tier_override) [ none ↦ false | some agents ↦ true ])

unfoldable pub override_info : Env → LicenseInfo
override_info env = record {
  valid = true;
  tier = env.tier_override;
  agents_allowed = or_else (agents_by_tier env.tier_override) [];
  reviews_left = none;
  expires_at = "9999-12-31T00:00:00Z";
  key = "tier-override";
}

-- license_key or os.environ.get("REVUE_LICENSE_KEY", "")
unfoldable pub key_of : Option String → Env → String
key_of none env = env.env_key
key_of (some license_key) env = if str_eq license_key "" then env.env_key else license_key

module _ (key_hash : String → String) where
  unfoldable pub write_cache : String → Body → Env → Env
  write_cache key body env =
      if env.cache_writable
      then record env {
        cache = some (record { key_hash = key_hash key; response = body; cached_at = env.now });
      }
      else env

  unfoldable pub matching : String → Option Cache → Option Cache
  matching key none = none
  matching key (some raw) = if str_eq raw.key_hash (key_hash key) then some raw else none

  unfoldable pub read_cache : String → Env → Option Cache
  unfolding matching
  read_cache key env = matching key env.cache

  -- (time.time() - cached["cached_at"]) / 3600 > 72
  unfoldable pub is_expired : Env → Cache → Bool
  is_expired env c = ltb (72 * 3600) (env.now - c.cached_at)

  unfoldable pub from_cache : String → Env → Option Cache → Result
  from_cache key env none = failed no_cache
  from_cache key env (some c) =
      if is_expired env c
      then failed grace_expired
      else licensed (build_license_info key c.response)

  unfoldable pub settle : String → Env → Outcome → Result × Env
  unfolding write_cache read_cache from_cache is_expired
  settle key env (validated body) =
      (licensed (build_license_info key body), write_cache key body env)
  settle key env license_error_invalid = (failed rejected, env)
  settle key env license_error_revoked = (failed rejected, env)
  settle key env raised_none = (failed internal, env)
  settle key env api_unreachable = (from_cache key env (read_cache key env), env)

  unfoldable pub validate : Option String → (ℕ → Reply) → Env → Result × Env
  unfolding settle
  validate license_key client env =
      if override_active env
      then (licensed (override_info env), env)
      else (let key = key_of license_key env in
          if str_eq key ""
          then (failed no_key, env)
          else settle key env (call_api_with_retry client).0)
