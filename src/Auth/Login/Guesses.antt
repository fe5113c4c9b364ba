-- ===== src/Auth/Login/Guesses.antt =====
-- How many passwords can be tried (`login` of app/api/v1/routers/auth.py).
use sole_backend.Prelude.{
  ℕ, ◌+◌, ◌-◌, ◌*◌, ◌≤◌, ◌<◌, ◌≡◌, refl, inl, inr, Bool, true, false, Option, none, some, List, [],
  ◌∷◌, ◌++◌, ltb, leb, if◌then◌else◌, All, Text, codes, Result, ok, err, raise_if, arith,
}
use sole_backend.Auth.Redis.{Redis}
use sole_backend.Auth.Redis.Counters.{Reached}
use sole_backend.Auth.LoginSecurity.{
  SecuritySettings, HttpError, invalid_credentials, locked_now, too_many_attempts,
  rate_limit_exceeded, Handled, answered, then_do, rate_limit, check_lockout, lock_out,
  register_login_attempt, enforce_login_limits,
}
use sole_backend.Auth.LoginSecurity.Passes.{has_passed, one_if}
use sole_backend.Auth.LoginSecurity.Attempts.{
  Locked, fail_key, lock_key, limits-keep, fail_differs, lock_differs, limits-Locked,
}
use sole_backend.Auth.LoginSecurity.LockedOut.{window, GuardedIn}
use sole_backend.Auth.LoginSecurity.Failures.{failure-Counted, IsGuarded-zero}
use sole_backend.Auth.Login.{Identity, LoginResponse, check_credentials, finish_login, login}

-- The answer of 401: the password is wrong.
abbrev is_wrong_error : HttpError → Bool
is_wrong_error invalid_credentials = true
is_wrong_error _ = false

abbrev pub is_wrong : {A : Type 0} → Result HttpError A → Bool
is_wrong (err e) = is_wrong_error e
is_wrong (ok a) = false

answered-honest :
    {S A B : Type 0} (reply : S × Option A) (next : A → S → Handled S B)
    → ((a : A) (s : S) → is_wrong (next a s).1 ≡ false)
    → is_wrong (answered reply next).1 ≡ false
answered-honest (s, none) next honest = refl
answered-honest (s, some a) next honest = honest a s

raised_honest :
    (b : Bool) (e : HttpError) → is_wrong_error e ≡ false → is_wrong (raise_if b e) ≡ false
raised_honest true e h = h
raised_honest false e h = refl

then-honest :
    {S A B : Type 0} (h : Handled S A) (next : A → S → Handled S B)
    → is_wrong h.1 ≡ false
    → ((a : A) (s : S) → is_wrong (next a s).1 ≡ false)
    → is_wrong (then_do h next).1 ≡ false
then-honest (s, err e) next first honest = first
then-honest (s, ok a) next first honest = honest a s

-- One attempt to log in.
pub record Attempt : Type 0 where
  pub now : ℕ
  pub ip : Text
  pub password : Text
  pub identities : List Identity

module _ {S : Type 0} (redis : Redis S) (settings : SecuritySettings) where
  rate-honest :
      (now : ℕ) (name : Text) (limit seconds : ℕ) (s : S)
      → is_wrong (rate_limit redis settings now name limit seconds s).1 ≡ false
  unfolding rate_limit
  rate-honest now name limit seconds s =
      answered-honest _ (λ count s1. (s1, raise_if (ltb limit count) rate_limit_exceeded))
        (λ count s1. raised_honest (ltb limit count) rate_limit_exceeded refl)

  limits-honest :
      (now : ℕ) (ip email : Text) (s : S)
      → is_wrong (enforce_login_limits redis settings now ip email s).1 ≡ false
  unfolding enforce_login_limits check_lockout
  limits-honest now ip email s =
      then-honest {A = Unit {0}} {B = Unit {0}}
        (rate_limit redis settings now (codes "ip:" ++ ip) settings.rate_limit_per_minute 60 s) _
        (rate-honest now _ _ _ s)
        (λ _ s1.
          then-honest {A = Unit {0}} {B = Unit {0}}
            (rate_limit redis settings now (codes "email:" ++ email) settings.rate_limit_per_minute
              60 s1)
            _ (rate-honest now _ _ _ s1)
            (λ _ s2.
              answered-honest _ (λ locked s3. (s3, raise_if locked too_many_attempts))
                (λ locked s3. raised_honest locked too_many_attempts refl)))

  lock_out-honest :
      (now : ℕ) (email : Text) (s : S) → is_wrong (lock_out redis settings now email s).1 ≡ false
  unfolding lock_out
  lock_out-honest now email s =
      answered-honest {B = Unit {0}}
        (redis.setex now (window redis settings) (lock_key redis settings email) s)
        (λ _ s1.
          answered (redis.delete now (fail_key redis settings email) s1)
            (λ _ s2. (s2, err locked_now)))
        (λ _ s1.
          answered-honest {B = Unit {0}} (redis.delete now (fail_key redis settings email) s1)
            (λ _ s2. (s2, err locked_now)) (λ _ s2. refl))

  finish-honest :
      (b : Bool) (now : ℕ) (email : Text) (s : S)
      → is_wrong (if b then lock_out redis settings now email s else (s, ok tt)).1 ≡ false
  finish-honest true now email s = lock_out-honest now email s
  finish-honest false now email s = refl

  failure-honest :
      (now : ℕ) (email : Text) (s : S)
      → is_wrong (register_login_attempt redis settings now email false s).1 ≡ false
  unfolding register_login_attempt
  failure-honest now email s =
      answered-honest {B = Unit {0}} (redis.incr now (fail_key redis settings email) s)
        (λ attempts s1.
          answered (redis.expire now (window redis settings) (fail_key redis settings email) s1)
            (λ _ s2.
              if leb settings.login_attempt_limit attempts
              then lock_out redis settings now email s2
              else (s2, ok tt)))
        (λ attempts s1.
          answered-honest {B = Unit {0}}
            (redis.expire now (window redis settings) (fail_key redis settings email) s1)
            (λ _ s2.
              if leb settings.login_attempt_limit attempts
              then lock_out redis settings now email s2
              else (s2, ok tt))
            (λ _ s2. finish-honest (leb settings.login_attempt_limit attempts) now email s2))

  stopped :
      {B : Type 0} (h : Handled S (Unit {0})) (next : Unit {0} → S → Handled S B)
      → has_passed h.1 ≡ false
      → is_wrong h.1 ≡ false
      → ((then_do h next).0 ≡ h.0) × (is_wrong (then_do h next).1 ≡ false)
  stopped (s, err e) next refused honest = (refl, honest)
  stopped (s, ok a) next refused honest = cc

  wrong-passed :
      (h : Handled S (Unit {0}))
      → is_wrong h.1 ≡ false
      → ((then_do {B = LoginResponse} h (λ _ s1. (s1, err invalid_credentials))).0 ≡ h.0)
        × (is_wrong (then_do {B = LoginResponse} h (λ _ s1. (s1, err invalid_credentials))).1
            ≡ has_passed h.1)
  wrong-passed (s, err e) honest = (refl, honest)
  wrong-passed (s, ok u) honest = (refl, refl)

  abbrev until_of : ℕ → ℕ
  until_of start = start + 1000 * window redis settings

  abbrev most : ℕ
  most = settings.login_attempt_limit - 1

  -- What one more attempt makes of what was reached.
  abbrev Advanced : Handled S LoginResponse → Text → ℕ → ℕ → Type 0
  Advanced h email until n =
      GuardedIn redis settings h.0 email until (n + one_if (is_wrong h.1))
      × (n + one_if (is_wrong h.1) ≤ most)

  stay-Advanced :
      (h : Handled S LoginResponse) (s : S) (email : Text) (until n : ℕ)
      → h.0 ≡ s
      → is_wrong h.1 ≡ false
      → n ≤ most
      → GuardedIn redis settings s email until n
      → Advanced h email until n
  stay-Advanced h s email until n same honest le guarded =
      rw (same, honest) (IsGuarded-zero redis settings _ _ until n guarded, omega (arith, le))

  wrong-Advanced :
      (create_pre_org_token : ℕ → Text) (verify_password : Text → Text → Bool)
      (h : Handled S (Unit {0})) (email : Text) (start now n : ℕ)
      → start ≤ now
      → now < until_of start
      → n ≤ most
      → is_wrong h.1 ≡ false
      → Reached (redis.keys h.0 (fail_key redis settings email)) (until_of start) n
      → Advanced
          (then_do h (λ _ s1.
            finish_login verify_password redis settings create_pre_org_token now email
              (ok none)
              s1))
          email
          (until_of start)
          n
  wrong-Advanced token verify (s, err e) email start now n from early le honest reached =
      stay-Advanced (s, err e) s email (until_of start) n refl honest le (inr reached)
  wrong-Advanced token verify (s, ok u) email start now n from early le honest reached =
      let failed = register_login_attempt redis settings now email false s in
      let same = wrong-passed failed (failure-honest now email s) in
      rw (same.0, same.1) (failure-Counted redis settings s email start now n from early le reached)

  module _ (verify_password : Text → Text → Bool) (create_pre_org_token : ℕ → Text)
      (email : Text) where
    abbrev pub attempt : Attempt → S → Handled S LoginResponse
    attempt a =
        login verify_password redis settings create_pre_org_token a.now a.ip a.identities email
          a.password

    attempt-Advanced :
        (a : Attempt) (s : S) (start n : ℕ)
        → start ≤ a.now
        → a.now < until_of start
        → check_credentials verify_password a.identities email a.password ≡ ok none
        → n ≤ most
        → GuardedIn redis settings s email (until_of start) n
        → Advanced (attempt a s) email (until_of start) n
    unfolding login
    attempt-Advanced a s start n from early bad le (inl locked) =
        let limits = enforce_login_limits redis settings a.now a.ip email s in
        let over =
          stopped limits
            (λ _ s1.
              finish_login verify_password redis settings create_pre_org_token a.now email
                (check_credentials verify_password a.identities email a.password) s1)
            (limits-Locked redis settings s a.now (until_of start) a.ip email locked early)
            (limits-honest a.now a.ip email s) in
        stay-Advanced _ limits.0 email (until_of start) n over.0 over.1 le (
          inl (
            limits-keep redis settings (λ e. Locked e (until_of start)) s a.now a.ip email
              (lock_key redis settings email) (lock_differs redis settings email) locked))
    attempt-Advanced a s start n from early bad le (inr reached) = rw bad (
        wrong-Advanced create_pre_org_token verify_password
          (enforce_login_limits redis settings a.now a.ip email s) email start a.now n from early le
          (limits-honest a.now a.ip email s)
          (limits-keep redis settings (λ e. Reached e (until_of start) n) s a.now a.ip email
            (fail_key redis settings email) (fail_differs redis settings email) reached))

    -- How many of the attempts are answered as wrong passwords.
    abbrev pub guesses : List Attempt → S → ℕ
    guesses [] s = 0
    guesses (a ∷ attempts) s = one_if (is_wrong (attempt a s).1) + guesses attempts (attempt a s).0

    guesses_bounded :
        (attempts : List Attempt) (s : S) (start n : ℕ)
        → All
            (λ a.
              (start ≤ a.now)
              × (a.now < until_of start)
              × (check_credentials verify_password a.identities email a.password ≡ ok none))
            attempts
        → n ≤ most
        → GuardedIn redis settings s email (until_of start) n
        → guesses attempts s + n ≤ most
    guesses_bounded [] s start n bad le guarded = omega (arith, le)
    guesses_bounded (a ∷ attempts) s start n bad le guarded =
        let (from, early, wrong) = bad.0 in
        let next = attempt-Advanced a s start n from early wrong le guarded in
        omega (
          arith,
          guesses_bounded attempts (attempt a s).0 start (n + one_if (is_wrong (attempt a s).1))
              bad.1 next.1 next.0,
        )

    -- Of attempts on one e-mail address that follow one another within the time of a lockout, all with
    -- wrong passwords and with no other attempt for the address in between, whatever addresses they
    -- come from and whichever commands of Redis fail, fewer are answered as wrong than the limit of
    -- attempts.
    pub few_guesses :
        (attempts : List Attempt) (s : S) (start : ℕ)
        → All
            (λ a.
              (start ≤ a.now)
              × (a.now < until_of start)
              × (check_credentials verify_password a.identities email a.password ≡ ok none))
            attempts
        → guesses attempts s ≤ settings.login_attempt_limit - 1
    few_guesses attempts s start bad =
        omega (arith, guesses_bounded attempts s start 0 bad (omega arith) (inr (inl refl)))
