-- ===== src/Auth/LoginSecurity/LockedOut.antt =====
-- What locks an account out (`register_login_attempt` of app/utils/login_security.py).
use sole_backend.Prelude.{
  ℕ, suc, ◌+◌, ◌*◌, ◌≤◌, ◌<◌, ◌≡◌, ◌⊎◌, refl, ◌∙◌, inl, inr, Bool, true, false, Option, none, some,
  Text, eq_text_refl, err, arith,
}
use sole_backend.Auth.Redis.{
  Entry, Keyspace, live, with_deadline, lasting, after_setex, Same, Obeys, Redis,
}
use sole_backend.Auth.Redis.Counters.{Reached, counted_more, bumped, live-bumped, lasting_live}
use sole_backend.Auth.LoginSecurity.{
  SecuritySettings, locked_now, Handled, answered, ttl_of, lock_out,
}
use sole_backend.Auth.LoginSecurity.Passes.{has_passed}
use sole_backend.Auth.LoginSecurity.Attempts.{obeys-keeps, Locked, fail_key, lock_key, lock_fail}

-- An account is locked, or its counter has reached n.
abbrev pub IsGuarded : Option Entry → Option Entry → ℕ → ℕ → Type 0
IsGuarded lock fail until n = Locked lock until ⊎ Reached fail until n

-- Counting keeps what was reached.
pub incr-Reached :
    (entry : Option Entry) (until now n : ℕ)
    → now < until
    → Reached entry until n
    → Reached (some (bumped now entry)) until n
incr-Reached entry until now n early (inl none_yet) = inl none_yet
incr-Reached entry until now n early (inr (e, is_e, enough, lasts)) =
    rw (is_e, lasting_live e until now lasts early)
      (inr (record e { value = suc e.value }, refl, omega (arith, enough), lasts))

-- With its new deadline, the counter has reached one more.
pub expire-Reached :
    (entry : Option Entry) (start window now n : ℕ)
    → start ≤ now
    → now < start + 1000 * window
    → Reached entry (start + 1000 * window) n
    → Reached
        (with_deadline now window (live now (some (bumped now entry))))
        (start + 1000 * window)
        (suc n)
expire-Reached entry start window now n from early reached = rw (live-bumped now entry) (
    inr (
      record (bumped now entry) { deadline = some (now + 1000 * window) },
      refl,
      counted_more entry (start + 1000 * window) now n reached early,
      omega (arith, from),
    ))

module _ {S : Type 0} (redis : Redis S) (settings : SecuritySettings) where
  abbrev pub window : ℕ
  window = ttl_of (settings.login_lockout_minutes * 60)

  abbrev pub GuardedIn : S → Text → ℕ → ℕ → Type 0
  GuardedIn s email until n =
      IsGuarded (redis.keys s (lock_key redis settings email))
        (redis.keys s (fail_key redis settings email)) until n

  -- Nobody is let go on, and the account stays guarded.
  abbrev pub Stopped : Handled S (Unit {0}) → Text → ℕ → ℕ → Type 0
  Stopped h email until n = GuardedIn h.0 email until n × (has_passed h.1 ≡ false)

  delete-Locked :
      (email : Text) (until n : ℕ) (reply : S × Option Bool) (after : Keyspace) (keys : Keyspace)
      (answer : Bool)
      → Obeys keys (redis.keys reply.0) reply.1 after answer
      → (Locked (keys (lock_key redis settings email)) until
          → Locked (after (lock_key redis settings email)) until)
      → Locked (keys (lock_key redis settings email)) until
      → Stopped (answered reply (λ _ s2. (s2, err locked_now))) email until n
  delete-Locked email until n (s, none) after keys answer obeys step locked = (
    inl (
        obeys-keeps (λ entry. Locked entry until) keys (redis.keys s) after none answer _ obeys step
          locked),
    refl,
  )
  delete-Locked email until n (s, some a) after keys answer obeys step locked = (
    inl (
        obeys-keeps (λ entry. Locked entry until) keys (redis.keys s) after (some a) answer _ obeys
          step locked),
    refl,
  )

  set_lock :
      (email : Text) (start now : ℕ) (keys : Keyspace) (s : S)
      → start ≤ now
      → Same (redis.keys s) (after_setex now window (lock_key redis settings email) keys)
      → Locked (redis.keys s (lock_key redis settings email)) (start + 1000 * window)
  set_lock email start now keys s from same = (
    lasting now window,
    same (lock_key redis settings email) ∙ (rw (eq_text_refl (lock_key redis settings email)) refl),
    omega (arith, from),
  )

  setex_then :
      (email : Text) (start now n : ℕ) (keys : Keyspace) (reply : S × Option Bool)
      → start ≤ now
      → Obeys keys
          (redis.keys reply.0)
          reply.1
          (after_setex now window (lock_key redis settings email) keys)
          true
      → Reached (keys (fail_key redis settings email)) (start + 1000 * window) n
      → Stopped
          (answered reply (λ _ s1.
            answered
              (redis.delete now (fail_key redis settings email) s1)
              (λ _ s2. (s2, err locked_now))))
          email
          (start + 1000 * window)
          n
  setex_then email start now n keys (s, none) from (inl (same, said)) reached = cc
  setex_then email start now n keys (s, none) from (inr (_, inl same)) reached =
      (inl (set_lock email start now keys s from same), refl)
  setex_then email start now n keys (s, none) from (inr (_, inr same)) reached =
      (inr (rw (same (fail_key redis settings email)) reached), refl)
  setex_then email start now n keys (s, some a) from (inr (failed, _)) reached = cc
  setex_then email start now n keys (s, some a) from (inl (same, _)) reached =
      delete-Locked email (start + 1000 * window) n
        (redis.delete now (fail_key redis settings email) s) _ (redis.keys s) _
        (redis.delete_obeys now (fail_key redis settings email) s)
        (λ locked. rw (lock_fail redis settings email email) locked)
        (set_lock email start now keys s from same)

  pub lock_out-Stopped :
      (s : S) (email : Text) (start now n : ℕ)
      → start ≤ now
      → Reached (redis.keys s (fail_key redis settings email)) (start + 1000 * window) n
      → Stopped (lock_out redis settings now email s) email (start + 1000 * window) n
  unfolding lock_out
  lock_out-Stopped s email start now n from reached =
      setex_then email start now n (redis.keys s)
        (redis.setex now window (lock_key redis settings email) s) from
        (redis.setex_obeys now window (lock_key redis settings email) s) reached
