-- ===== src/Auth/LoginSecurity.antt =====
-- app/utils/login_security.py, and the limits of app/api/auth_utils.py, over a Redis.
pub mod Spent
pub mod SingleUse
pub mod Passes
pub mod Attempts
pub mod LockedOut
pub mod Failures
use sole_backend.Prelude.{
  ℕ, ◌-◌, ◌*◌, ◌/◌, Bool, true, false, Option, none, some, List, [], ◌∷◌, ◌++◌, ltb, leb, ◌==◌, max,
  if◌then◌else◌, Text, codes, Result, ok, err, raise_if,
}
use sole_backend.Auth.Redis.{Redis, redis_key}

-- The settings that these functions read.
pub record SecuritySettings : Type 0 where
  pub redis_key_prefix : Text
  pub rate_limit_per_minute : ℕ
  pub login_attempt_limit : ℕ
  pub login_lockout_minutes : ℕ

-- The exceptions, by status and reason.
pub data HttpError : Type 0 where
  -- 429
  rate_limit_exceeded too_many_attempts locked_now too_many_codes refreshed_recently : HttpError
  -- 503
  unavailable : HttpError
  -- 401
  invalid_credentials : HttpError
  -- 500: `scalar_one_or_none` on several rows.
  multiple_rows : HttpError

-- `_ttl`
abbrev pub ttl_of : ℕ → ℕ
ttl_of seconds = max 1 seconds

abbrev pub Handled : Type 0 → Type 0 → Type 0
Handled S A = S × Result HttpError A

-- A failed command ends the handler.
abbrev pub answered : {S A B : Type 0} → S × Option A → (A → S → Handled S B) → Handled S B
answered (s, none) next = (s, err unavailable)
answered (s, some a) next = next a s

-- A handler that calls another.
abbrev pub then_do : {S A B : Type 0} → Handled S A → (A → S → Handled S B) → Handled S B
then_do (s, err e) next = (s, err e)
then_do (s, ok a) next = next a s

module _ {S : Type 0} (redis : Redis S) (settings : SecuritySettings) where
  abbrev pub key_of : Text → Text → Text
  key_of = redis_key settings.redis_key_prefix

  unfoldable pub rate_limit : ℕ → Text → ℕ → ℕ → S → Handled S (Unit {0})
  rate_limit now key limit window_seconds s =
      answered (redis.incr_expire now window_seconds (key_of (codes "rate_limit") key) s)
        (λ count s1. (s1, raise_if (ltb limit count) rate_limit_exceeded))

  unfoldable pub check_lockout : ℕ → Text → S → Handled S (Unit {0})
  check_lockout now identifier s =
      answered (redis.get now (key_of (codes "lock") identifier) s)
        (λ locked s1. (s1, raise_if locked too_many_attempts))

  unfoldable pub forget_attempts : ℕ → Text → S → Handled S (Unit {0})
  forget_attempts now identifier s =
      answered (redis.delete now (key_of (codes "fail") identifier) s) (λ _ s1.
        answered (redis.delete now (key_of (codes "lock") identifier) s1) (λ _ s2. (s2, ok tt)))

  unfoldable pub lock_out : ℕ → Text → S → Handled S (Unit {0})
  lock_out now identifier s =
      answered
        (redis.setex now (ttl_of (settings.login_lockout_minutes * 60))
          (key_of (codes "lock") identifier) s)
        (λ _ s1.
          answered (redis.delete now (key_of (codes "fail") identifier) s1)
            (λ _ s2. (s2, err locked_now)))

  unfoldable pub register_login_attempt : ℕ → Text → Bool → S → Handled S (Unit {0})
  register_login_attempt now identifier true s = forget_attempts now identifier s
  register_login_attempt now identifier false s =
      answered (redis.incr now (key_of (codes "fail") identifier) s) (λ attempts s1.
        answered
          (redis.expire now (ttl_of (settings.login_lockout_minutes * 60))
            (key_of (codes "fail") identifier) s1)
          (λ _ s2.
            let locked = lock_out now identifier s2 in
            if leb settings.login_attempt_limit attempts then locked else (s2, ok tt)))

  -- The time of expiry is in seconds; what is left is cut to whole seconds.
  unfoldable pub mark_refresh_used_atomic : ℕ → Text → ℕ → S → Handled S Bool
  mark_refresh_used_atomic now jti expires_at s =
      let ttl = (1000 * expires_at - now) / 1000 in
      let marked =
        answered (redis.set_nx now ttl (key_of (codes "refresh_used") jti) s)
          (λ first s1. (s1, ok first)) in
      if ttl == 0 then (s, ok false) else marked

  unfoldable pub enforce_mfa_rate_limit : ℕ → Text → S → Handled S (Unit {0})
  enforce_mfa_rate_limit now mfa_token s =
      answered (redis.incr_expire now 300 (key_of (codes "mfa_attempt") mfa_token) s)
        (λ count s1. (s1, raise_if (ltb 5 count) too_many_codes))

  -- The time to live is read for the message; it is a second look at the key.
  unfoldable pub check_pbgc_refresh_cooldown : ℕ → Text → S → Handled S (Unit {0})
  check_pbgc_refresh_cooldown now org_id s =
      answered (redis.get now (key_of (codes "pbgc_refresh") org_id) s) (λ found s1.
        let refused =
          answered (redis.get now (key_of (codes "pbgc_refresh") org_id) s1)
            (λ _ s2. (s2, err refreshed_recently)) in
        if found then refused else (s1, ok tt))

  -- A failure is not critical here.
  unfoldable pub record_pbgc_refresh : ℕ → Text → S → S
  record_pbgc_refresh now org_id s =
      (redis.setex now (24 * 60 * 60) (key_of (codes "pbgc_refresh") org_id) s).0

  -- `enforce_login_limits` of app/api/auth_utils.py.
  unfoldable pub enforce_login_limits : ℕ → Text → Text → S → Handled S (Unit {0})
  enforce_login_limits now ip email s =
      then_do (rate_limit now (codes "ip:" ++ ip) settings.rate_limit_per_minute 60 s) (λ _ s1.
        then_do (rate_limit now (codes "email:" ++ email) settings.rate_limit_per_minute 60 s1)
          (λ _ s2. check_lockout now email s2))
