-- ===== src/License/Grace.antt =====
-- What makes a license valid, online and offline.
use text.Mathlib.TextPositions.{eq_refl}
use revue.Prelude.{
  ℕ, ◌+◌, ◌-◌, ◌*◌, ◌≤◌, ◌≡◌, refl, true, false, Option, none, some, String, str_eq, eq_iff, ltb,
  if◌then◌else◌, arith, ◌⊎◌, Option-cases, inl, inr, Bool-cases,
}
use revue.License.Retry.{
  Body, Reply, response, Outcome, validated, license_error_invalid, license_error_revoked,
  api_unreachable, raised_none, call_api_with_retry,
}
use revue.License.Answers.{deciding, is_no_answer, Says-call_api_with_retry}
use revue.License.Validate.{
  LicenseInfo, Cache, Env, rejected, grace_expired, licensed, failed, build_license_info,
  override_active, key_of, settle, validate,
}

-- The environment has no test override, and there is a key.
pub record IsProduction (license_key : Option String) (env : Env) : Type 0 where
  pub no_override : override_active env ≡ false
  pub some_key : str_eq (key_of license_key env) "" ≡ false

module _ (key_hash : String → String) where
  validate-settle :
      (license_key : Option String) (client : ℕ → Reply) (env : Env)
      → IsProduction license_key env
      → validate key_hash license_key client env
        ≡ settle key_hash (key_of license_key env) env (call_api_with_retry client).0
  unfolding validate
  validate-settle license_key client env p = ground (arith, p.no_override, p.some_key)

  -- a cache that grants the key at this time
  pub record Grants (key : String) (env : Env) (c : Cache) : Type 0 where
    pub stored : env.cache ≡ some c
    pub same_key : c.key_hash ≡ key_hash key
    pub recent : env.now ≤ c.cached_at + 72 * 3600

  abbrev pub IsOnline : Option String → (ℕ → Reply) → Env → LicenseInfo → Type 0
  IsOnline license_key client env info =
      (body : Body) × (client (deciding client) ≡ response 200 (some body))
      × (body.valid ≡ true)
      × (info ≡ build_license_info (key_of license_key env) body)

  abbrev pub IsOffline : Option String → (ℕ → Reply) → Env → LicenseInfo → Type 0
  IsOffline license_key client env info =
      (c : Cache) × (is_no_answer (client (deciding client)) ≡ true)
      × Grants (key_of license_key env) env c
      × (info ≡ build_license_info (key_of license_key env) c.response)

  settle-licensed :
      (license_key : Option String) (client : ℕ → Reply) (env : Env) (info : LicenseInfo)
      (o : Outcome)
      → (call_api_with_retry client).0 ≡ o
      → (settle key_hash (key_of license_key env) env o).0 ≡ licensed info
      → IsOnline license_key client env info ⊎ IsOffline license_key client env info
  unfolding settle
  settle-licensed lk client env info (validated body) e h =
      let said = Says-call_api_with_retry client (validated body) e in
      inl (body, said.0, said.1, ground arith)
  settle-licensed lk client env info license_error_invalid e h = cc
  settle-licensed lk client env info license_error_revoked e h = cc
  settle-licensed lk client env info raised_none e h = cc
  settle-licensed lk client env info api_unreachable e h = elim (Option-cases env.cache) [
    | inl empty ↦ ground arith
    | inr (c, stored) ↦ inr (
      c,
      Says-call_api_with_retry client api_unreachable e,
      ground (arith, eq_iff c.key_hash (key_hash (key_of lk env))),
      ground (arith),
    )
  ]

  -- Of the three attempts, let the deciding one be the first that is neither a network error nor a
  -- status of 500 or more, else the third. Without a test override, a license is granted only if the
  -- deciding answer has the status 200 and a body that says that the key is valid, or if it is no
  -- answer (a network error, or a status other than 401 and 403 that is not 200 with a body) and the
  -- cache holds a body for the same key hash, at most 72 hours old; and the license is built from
  -- that body.
  pub validate-licensed :
      (license_key : Option String) (client : ℕ → Reply) (env : Env) (info : LicenseInfo)
      → override_active env ≡ false
      → (validate key_hash license_key client env).0 ≡ licensed info
      → IsOnline license_key client env info ⊎ IsOffline license_key client env info
  unfolding validate
  validate-licensed license_key client env info plain h =
      elim (Bool-cases (str_eq (key_of license_key env) "")) [
        | inl empty ↦ absurd (ground (arith, plain, empty))
        | inr some_key ↦
            settle-licensed license_key client env info (call_api_with_retry client).0 refl
              (ground (arith, plain, some_key))
      ]

  abbrev cached : String → Body → Env → ℕ → Env
  cached key body env later = record env {
    cache = some (record { key_hash = key_hash key; response = body; cached_at = env.now });
    now = later;
  }

  key_of-cached :
      (license_key : Option String) (key : String) (body : Body) (env : Env) (later : ℕ)
      → key_of license_key (cached key body env later) ≡ key_of license_key env
  unfolding key_of
  key_of-cached none key body env later = refl
  key_of-cached (some license_key) key body env later = refl

  cached-IsProduction :
      (license_key : Option String) (key : String) (body : Body) (env : Env) (later : ℕ)
      → IsProduction license_key env
      → IsProduction license_key (cached key body env later)
  unfolding override_active
  cached-IsProduction license_key key body env later p = record {
    no_override = p.no_override;
    some_key = rw key_of-cached p.some_key;
  }

  settle-cached :
      (key : String) (body : Body) (env : Env) (later : ℕ)
      → (settle key_hash key (cached key body env later) api_unreachable).0 ≡ (
          if ltb (72 * 3600) (later - env.now)
          then failed grace_expired
          else licensed (build_license_info key body))
  unfolding settle
  settle-cached key body env later = rw (eq_refl (key_hash key))

  settle-validated :
      (key : String) (body : Body) (env : Env)
      → env.cache_writable ≡ true
      → settle key_hash key env (validated body)
        ≡ (licensed (build_license_info key body), cached key body env env.now)
  unfolding settle
  settle-validated key body env writable = ground (arith, writable)

  -- With a key and without a test override: after a run in which the service validated the key, and the cache could be written, a run that
  -- does not reach the service grants the same license for 72 hours, and fails afterwards.
  pub validate_offline :
      (license_key : Option String) (online offline : ℕ → Reply) (env : Env) (later : ℕ)
      (body : Body)
      → IsProduction license_key env
      → env.cache_writable ≡ true
      → (call_api_with_retry online).0 ≡ validated body
      → (call_api_with_retry offline).0 ≡ api_unreachable
      → (validate key_hash license_key offline
          (record (validate key_hash license_key online env).1 { now = later })).0
        ≡ (if ltb (72 * 3600) (later - env.now)
            then failed grace_expired
            else (validate key_hash license_key online env).0)
  validate_offline license_key online offline env later body p writable on off =
      let key = key_of license_key env in
      let first = validate-settle license_key online env p in
      let env' = cached key body env later in
      let second =
        validate-settle license_key offline env'
          (cached-IsProduction license_key key body env later p) in
      rw (first, on, settle-validated key body env writable, second, off, key_of-cached)
        (settle-cached key body env later)

  -- Without a test override, a key that the service rejects is rejected, whatever the cache holds, and the cache is kept. The
  -- internal failure of a loop that ended without a result is never reached.
  validate-rejected :
      (license_key : Option String) (client : ℕ → Reply) (env : Env)
      → IsProduction license_key env
      → ((call_api_with_retry client).0 ≡ license_error_invalid)
        ⊎ ((call_api_with_retry client).0 ≡ license_error_revoked)
      → validate key_hash license_key client env ≡ (failed rejected, env)
  unfolding settle
  validate-rejected license_key client env p (inl e) =
      rw (validate-settle license_key client env p, e)
  validate-rejected license_key client env p (inr e) =
      rw (validate-settle license_key client env p, e)
