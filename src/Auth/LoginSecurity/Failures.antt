-- ===== src/Auth/LoginSecurity/Failures.antt =====
-- A failed attempt (`register_login_attempt` of app/utils/login_security.py).
use sole_backend.Prelude.{
  ℕ, suc, ◌+◌, ◌-◌, ◌*◌, ◌≤◌, ◌<◌, ◌≡◌, refl, ap, ◌∙◌, inl, inr, Bool, false, Option, none, some,
  leb, if◌then◌else◌, Text, eq_text_refl, ok, err, Bool-cases, arith,
}
use sole_backend.Auth.Redis.{Entry, Keyspace, live, counted, after_incr, after_expire, Obeys, Redis}
use sole_backend.Auth.Redis.Counters.{Reached, Reached-mono, counted_more, bumped}
use sole_backend.Auth.LoginSecurity.{
  SecuritySettings, HttpError, Handled, answered, lock_out, register_login_attempt,
}
use sole_backend.Auth.LoginSecurity.Passes.{has_passed, one_if}
use sole_backend.Auth.LoginSecurity.Attempts.{obeys-keeps, fail_key}
use sole_backend.Auth.LoginSecurity.LockedOut.{
  IsGuarded, window, GuardedIn, Stopped, lock_out-Stopped, incr-Reached, expire-Reached,
}

some_injective : {A : Type 0} {a b : A} → ◌≡◌ {A = Option A} (some a) (some b) → a ≡ b
some_injective {a} h = ap (λ o. elim o [ none ↦ a | some x ↦ x ]) h

module _ {S : Type 0} (redis : Redis S) (settings : SecuritySettings) where
  -- An attempt that is answered as a wrong password counts; there are fewer than the limit.
  abbrev pub Counted : Handled S (Unit {0}) → Text → ℕ → ℕ → Type 0
  Counted h email until n =
      GuardedIn redis settings h.0 email until (n + one_if (has_passed h.1))
      × (n + one_if (has_passed h.1) ≤ settings.login_attempt_limit - 1)

  pub IsGuarded-zero :
      (lock fail : Option Entry) (until n : ℕ)
      → IsGuarded lock fail until n
      → IsGuarded lock fail until (n + 0)
  IsGuarded-zero lock fail until n (inl locked) = inl locked
  IsGuarded-zero lock fail until n (inr reached) =
      inr (Reached-mono fail until (n + 0) n (omega arith) reached)

  Stopped-Counted :
      (h : Handled S (Unit {0})) (email : Text) (until n : ℕ)
      → n ≤ settings.login_attempt_limit - 1
      → Stopped redis settings h email until n
      → Counted h email until n
  Stopped-Counted h email until n le (guarded, refused) =
      rw refused (IsGuarded-zero _ _ until n guarded, omega (arith, le))

  -- After the deadline is set, the account is locked or the attempt is answered.
  finish :
      (email : Text) (start now n attempts : ℕ) (s : S)
      → start ≤ now
      → n ≤ settings.login_attempt_limit - 1
      → suc n ≤ attempts
      → Reached
          (redis.keys s (fail_key redis settings email))
          (start + 1000 * window redis settings)
          (suc n)
      → Counted
          (if leb settings.login_attempt_limit attempts
            then lock_out redis settings now email s
            else (s, ok tt))
          email
          (start + 1000 * window redis settings)
          n
  finish email start now n attempts s from le count reached =
      elim (Bool-cases (leb settings.login_attempt_limit attempts)) [
        | inl over ↦ rw over (
            Stopped-Counted (lock_out redis settings now email s) email
              (start + 1000 * window redis settings) n le
              (lock_out-Stopped redis settings s email start now n from
                (Reached-mono _ _ n (suc n) (omega arith) reached)))
        | inr fits ↦ rw fits (
          inr (Reached-mono _ _ (n + 1) (suc n) (omega arith) reached),
          ground (arith, count, fits),
        )
      ]

  expired :
      (keys : Keyspace) (email : Text) (start now n : ℕ) (entry : Option Entry)
      → start ≤ now
      → now < start + 1000 * window redis settings
      → keys (fail_key redis settings email) ≡ some (bumped now entry)
      → Reached entry (start + 1000 * window redis settings) n
      → Reached
          (after_expire now
            (window redis settings)
            (fail_key redis settings email)
            keys
            (fail_key redis settings email))
          (start + 1000 * window redis settings)
          (suc n)
  expired keys email start now n entry from early here reached =
      rw (eq_text_refl (fail_key redis settings email), here)
        (expire-Reached entry start (window redis settings) now n from early reached)

  expire_then :
      (email : Text) (start now n attempts : ℕ) (entry : Option Entry) (keys : Keyspace)
      (reply : S × Option Bool) (answer : Bool)
      → start ≤ now
      → now < start + 1000 * window redis settings
      → n ≤ settings.login_attempt_limit - 1
      → suc n ≤ attempts
      → keys (fail_key redis settings email) ≡ some (bumped now entry)
      → Reached entry (start + 1000 * window redis settings) n
      → Obeys keys
          (redis.keys reply.0)
          reply.1
          (after_expire now (window redis settings) (fail_key redis settings email) keys)
          answer
      → Counted
          (answered reply (λ _ s2.
            let locked = lock_out redis settings now email s2 in
            if leb settings.login_attempt_limit attempts then locked else (s2, ok tt)))
          email
          (start + 1000 * window redis settings)
          n
  expire_then email start now n attempts entry keys (s, none) answer from early le count here
        reached obeys =
      Stopped-Counted (s, err HttpError.unavailable) email (start + 1000 * window redis settings) n
        le
        (
          inr (
              obeys-keeps (λ e. Reached e (start + 1000 * window redis settings) n) keys
                (redis.keys s) _ none answer (fail_key redis settings email) obeys
                (λ _.
                  Reached-mono _ _ n (suc n) (omega arith)
                    (expired keys email start now n entry from early here reached))
                (rw here
                  (incr-Reached entry (start + 1000 * window redis settings) now n early reached))),
          refl,
        )
  expire_then email start now n attempts entry keys (s, some a) answer from early le count here
        reached (inr (failed, _)) =
      cc
  expire_then email start now n attempts entry keys (s, some a) answer from early le count here
        reached (inl (same, _)) =
      finish email start now n attempts s from le count (
        rw (same (fail_key redis settings email))
          (expired keys email start now n entry from early here reached))

  incr_then :
      (email : Text) (start now n : ℕ) (keys : Keyspace) (reply : S × Option ℕ)
      → start ≤ now
      → now < start + 1000 * window redis settings
      → n ≤ settings.login_attempt_limit - 1
      → Reached (keys (fail_key redis settings email)) (start + 1000 * window redis settings) n
      → Obeys keys
          (redis.keys reply.0)
          reply.1
          (after_incr now (fail_key redis settings email) keys)
          (counted (live now (keys (fail_key redis settings email))))
      → Counted
          (answered reply (λ attempts s1.
            answered
              (redis.expire now (window redis settings) (fail_key redis settings email) s1)
              (λ _ s2.
                let locked = lock_out redis settings now email s2 in
                if leb settings.login_attempt_limit attempts then locked else (s2, ok tt))))
          email
          (start + 1000 * window redis settings)
          n
  incr_then email start now n keys (s, none) from early le reached obeys =
      Stopped-Counted (s, err HttpError.unavailable) email (start + 1000 * window redis settings) n
        le
        (
          inr (
              obeys-keeps (λ e. Reached e (start + 1000 * window redis settings) n) keys
                (redis.keys s) _ none _ (fail_key redis settings email) obeys
                (λ r.
                  rw (eq_text_refl (fail_key redis settings email))
                    (incr-Reached _ (start + 1000 * window redis settings) now n early r))
                reached),
          refl,
        )
  incr_then email start now n keys (s, some a) from early le reached (inr (failed, _)) = cc
  incr_then email start now n keys (s, some a) from early le reached (inl (same, said)) =
      let entry = keys (fail_key redis settings email) in
      let here : redis.keys s (fail_key redis settings email) ≡ some (bumped now entry) =
        same (fail_key redis settings email)
        ∙ (rw (eq_text_refl (fail_key redis settings email)) refl) in
      expire_then email start now n a entry (redis.keys s)
        (redis.expire now (window redis settings) (fail_key redis settings email) s) _ from early le
        (rw (some_injective said)
          (counted_more entry (start + 1000 * window redis settings) now n reached early))
        here reached
        (redis.expire_obeys now (window redis settings) (fail_key redis settings email) s)

  -- A failed attempt that is answered as such counts, and nothing else lets one go on.
  pub failure-Counted :
      (s : S) (email : Text) (start now n : ℕ)
      → start ≤ now
      → now < start + 1000 * window redis settings
      → n ≤ settings.login_attempt_limit - 1
      → Reached
          (redis.keys s (fail_key redis settings email))
          (start + 1000 * window redis settings)
          n
      → Counted
          (register_login_attempt redis settings now email false s)
          email
          (start + 1000 * window redis settings)
          n
  unfolding register_login_attempt
  failure-Counted s email start now n from early le reached =
      incr_then email start now n (redis.keys s) (redis.incr now (fail_key redis settings email) s)
        from early le reached (redis.incr_obeys now (fail_key redis settings email) s)
