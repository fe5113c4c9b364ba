-- ===== src/Auth/LoginSecurity/Attempts.antt =====
-- What failed attempts leave (`register_login_attempt` and `check_lockout` of
-- app/utils/login_security.py).
use sole_backend.Prelude.{
  ℕ, ◌<◌, ◌≡◌, refl, inl, inr, Bool, true, false, Option, none, some, ◌++◌, ltb, Text, codes,
  eq_text, Result, ok, err, raise_if,
}
use sole_backend.Auth.Redis.{
  Entry, Keyspace, live, is_there, Obeys, Redis, strip_colon, lstrip_colon,
}
use sole_backend.Auth.Redis.Keys.{families_differ}
use sole_backend.Auth.Redis.Counters.{Lasts, lasting_live}
use sole_backend.Auth.LoginSecurity.{
  SecuritySettings, HttpError, too_many_attempts, Handled, answered, then_do, key_of, rate_limit,
  check_lockout, enforce_login_limits,
}
use sole_backend.Auth.LoginSecurity.Passes.{has_passed}

-- A command keeps what its effect keeps, whether it fails or not.
pub obeys-keeps :
    {A : Type 0} (P : Option Entry → Type 0) (keys later after : Keyspace) (reply : Option A)
    (answer : A) (key : Text)
    → Obeys keys later reply after answer
    → (P (keys key) → P (after key))
    → P (keys key)
    → P (later key)
obeys-keeps P keys later after reply answer key (inl (same, _)) step p = rw (same key) (step p)
obeys-keeps P keys later after reply answer key (inr (_, inl same)) step p = rw (same key) (step p)
obeys-keeps P keys later after reply answer key (inr (_, inr same)) step p = rw (same key) p

-- A lock that is there until a time.
abbrev pub Locked : Option Entry → ℕ → Type 0
Locked entry until = (e : Entry) × (entry ≡ some e) × Lasts until e.deadline

module _ {S : Type 0} (redis : Redis S) (settings : SecuritySettings) where
  abbrev pub fail_key : Text → Text
  fail_key = key_of redis settings (codes "fail")

  abbrev pub lock_key : Text → Text
  lock_key = key_of redis settings (codes "lock")

  abbrev rate_key : Text → Text
  rate_key = key_of redis settings (codes "rate_limit")

  pub fail_lock : (a b : Text) → eq_text (fail_key a) (lock_key b) ≡ false
  unfolding strip_colon lstrip_colon
  fail_lock a b =
      families_differ settings.redis_key_prefix (codes "fail") (codes "lock") a b b'f' b'l' _ _ refl
        refl refl

  pub lock_fail : (a b : Text) → eq_text (lock_key a) (fail_key b) ≡ false
  unfolding strip_colon lstrip_colon
  lock_fail a b =
      families_differ settings.redis_key_prefix (codes "lock") (codes "fail") a b b'l' b'f' _ _ refl
        refl refl

  fail_rate : (a b : Text) → eq_text (fail_key a) (rate_key b) ≡ false
  unfolding strip_colon lstrip_colon
  fail_rate a b =
      families_differ settings.redis_key_prefix (codes "fail") (codes "rate_limit") a b b'f' b'r' _
        _ refl refl refl

  lock_rate : (a b : Text) → eq_text (lock_key a) (rate_key b) ≡ false
  unfolding strip_colon lstrip_colon
  lock_rate a b =
      families_differ settings.redis_key_prefix (codes "lock") (codes "rate_limit") a b b'l' b'r' _
        _ refl refl refl

  answered-state :
      {A B : Type 0} (reply : S × Option A) (f : A → Result HttpError B)
      → (answered reply (λ a s1. (s1, f a))).0 ≡ reply.0
  answered-state (s, none) f = refl
  answered-state (s, some a) f = refl

  -- A rate limit changes its own keys only.
  rate_limit-keeps :
      (P : Option Entry → Type 0) (s : S) (now : ℕ) (name : Text) (limit window : ℕ) (key : Text)
      → eq_text key (rate_key name) ≡ false
      → P (redis.keys s key)
      → P (redis.keys (rate_limit redis settings now name limit window s).0 key)
  unfolding rate_limit
  rate_limit-keeps P s now name limit window key differ p =
      let reply = redis.incr_expire now window (rate_key name) s in
      rw (answered-state reply (λ count. raise_if (ltb limit count) HttpError.rate_limit_exceeded))
        (obeys-keeps P (redis.keys s) (redis.keys reply.0) _ reply.1 _ key
          (redis.incr_expire_obeys now window (rate_key name) s) (λ q. rw differ q) p)

  check_lockout-keeps :
      (P : Option Entry → Type 0) (s : S) (now : ℕ) (name key : Text)
      → P (redis.keys s key)
      → P (redis.keys (check_lockout redis settings now name s).0 key)
  unfolding check_lockout
  check_lockout-keeps P s now name key p =
      let reply = redis.get now (lock_key name) s in
      rw (answered-state reply (λ locked. raise_if locked too_many_attempts)) (
        obeys-keeps P (redis.keys s) (redis.keys reply.0) _ reply.1 _ key
          (redis.get_obeys now (lock_key name) s) (λ q. q) p)

  pub then-keeps :
      {A B : Type 0} (P : S → Type 0) (h : Handled S A) (next : A → S → Handled S B)
      → P h.0
      → ((a : A) (s : S) → P s → P (next a s).0)
      → P (then_do h next).0
  then-keeps P (s, err e) next p step = p
  then-keeps P (s, ok a) next p step = step a s p

  then-refuses :
      {A : Type 0} (P : S → Type 0) (h : Handled S A) (next : A → S → Handled S (Unit {0}))
      → P h.0
      → ((a : A) (s : S) → P s → has_passed (next a s).1 ≡ false)
      → has_passed (then_do h next).1 ≡ false
  then-refuses P (s, err e) next p step = refl
  then-refuses P (s, ok a) next p step = step a s p

  abbrev ip_limit : ℕ → Text → S → Handled S (Unit {0})
  ip_limit now ip =
      rate_limit redis settings now (codes "ip:" ++ ip) settings.rate_limit_per_minute 60

  abbrev email_limit : ℕ → Text → S → Handled S (Unit {0})
  email_limit now email =
      rate_limit redis settings now (codes "email:" ++ email) settings.rate_limit_per_minute 60

  abbrev check : ℕ → Text → S → Handled S (Unit {0})
  check = check_lockout redis settings

  -- The limits of a login leave attempts and locks alone.
  pub limits-keep :
      (P : Option Entry → Type 0) (s : S) (now : ℕ) (ip email key : Text)
      → ((name : Text) → eq_text key (rate_key name) ≡ false)
      → P (redis.keys s key)
      → P (redis.keys (enforce_login_limits redis settings now ip email s).0 key)
  unfolding enforce_login_limits
  limits-keep P s now ip email key differ p =
      then-keeps {A = Unit {0}} {B = Unit {0}} (λ st. P (redis.keys st key)) (ip_limit now ip s)
        (λ _ s1. then_do (email_limit now email s1) (λ _ s2. check now email s2))
        (rate_limit-keeps P s now _ settings.rate_limit_per_minute 60 key (differ _) p)
        (λ _ s1 p1.
          then-keeps {A = Unit {0}} {B = Unit {0}} (λ st. P (redis.keys st key))
            (email_limit now email s1) (λ _ s2. check now email s2)
            (rate_limit-keeps P s1 now _ settings.rate_limit_per_minute 60 key (differ _) p1)
            (λ _ s2 p2. check_lockout-keeps P s2 now email key p2))

  pub fail_differs : (email name : Text) → eq_text (fail_key email) (rate_key name) ≡ false
  fail_differs email name = fail_rate email name

  pub lock_differs : (email name : Text) → eq_text (lock_key email) (rate_key name) ≡ false
  lock_differs email name = lock_rate email name

  is_there-Locked :
      (entry : Option Entry) (until now : ℕ)
      → Locked entry until
      → now < until
      → is_there (live now entry) ≡ true
  is_there-Locked entry until now (e, is_e, lasts) early =
      rw (is_e, lasting_live e until now lasts early) refl

  check_refuses :
      (keys later : Keyspace) (after : Keyspace) (r : S × Option Bool) (there : Bool)
      → Obeys keys later r.1 after there
      → there ≡ true
      → has_passed (answered r (λ locked s1. (s1, raise_if locked too_many_attempts))).1 ≡ false
  check_refuses keys later after (s, none) there obeys is_true = refl
  check_refuses keys later after (s, some true) there obeys is_true = refl
  check_refuses keys later after (s, some false) there (inl (_, said)) is_true =
      let wrong = rw is_true at said in cc
  check_refuses keys later after (s, some false) there (inr (failed, _)) is_true = cc

  -- While an account is locked, the limits of a login let nobody pass.
  pub limits-Locked :
      (s : S) (now until : ℕ) (ip email : Text)
      → Locked (redis.keys s (lock_key email)) until
      → now < until
      → has_passed (enforce_login_limits redis settings now ip email s).1 ≡ false
  unfolding enforce_login_limits check_lockout
  limits-Locked s now until ip email locked early =
      let P : S → Type 0 = λ st. Locked (redis.keys st (lock_key email)) until in
      let keep_locked : Option Entry → Type 0 = λ entry. Locked entry until in
      then-refuses {A = Unit {0}} P (ip_limit now ip s)
        (λ _ s1. then_do (email_limit now email s1) (λ _ s2. check now email s2))
        (rate_limit-keeps keep_locked s now _ settings.rate_limit_per_minute 60 (lock_key email)
          (lock_rate email _) locked)
        (λ _ s1 l1.
          then-refuses {A = Unit {0}} P (email_limit now email s1) (λ _ s2. check now email s2)
            (rate_limit-keeps keep_locked s1 now _ settings.rate_limit_per_minute 60
              (lock_key email) (lock_rate email _) l1)
            (λ _ s2 l2.
              check_refuses (redis.keys s2) _ _ (redis.get now (lock_key email) s2) _
                (redis.get_obeys now (lock_key email) s2)
                (is_there-Locked (redis.keys s2 (lock_key email)) until now l2 early)))
