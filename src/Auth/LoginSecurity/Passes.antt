-- ===== src/Auth/LoginSecurity/Passes.antt =====
-- How many calls a counter lets pass: `rate_limit` and `enforce_mfa_rate_limit` of
-- app/utils/login_security.py.
use sole_backend.Prelude.{
  ℕ, suc, ◌+◌, ◌*◌, ◌≤◌, ◌<◌, ◌≡◌, refl, subst, inl, inr, Bool, true, false, not, ◌&&◌, Option,
  none, some, List, [], ◌∷◌, ltb, if◌then◌else◌, All, Text, codes, eq_text, eq_text→eq, Result, ok,
  err, raise_if, Bool-cases, arith,
}
use sole_backend.Auth.Redis.{Entry, Keyspace, live, counted, Obeys, Redis}
use sole_backend.Auth.Redis.Counters.{Reached, Reached-mono, counted_more, after_both, step-Reached}
use sole_backend.Auth.LoginSecurity.{
  SecuritySettings, HttpError, rate_limit_exceeded, too_many_codes, Handled, answered, key_of,
  rate_limit, enforce_mfa_rate_limit,
}

abbrev pub has_passed : Result HttpError (Unit {0}) → Bool
has_passed (ok u) = true
has_passed (err e) = false

within : ℕ → Option ℕ → Bool
within limit none = false
within limit (some count) = not (ltb limit count)

answered-within :
    {S : Type 0} (limit : ℕ) (e : HttpError) (reply : S × Option ℕ)
    → ((answered reply (λ count s1. (s1, raise_if (ltb limit count) e))).0 ≡ reply.0)
      × (has_passed (answered reply (λ count s1. (s1, raise_if (ltb limit count) e))).1
          ≡ within limit reply.1)
unfolding within
answered-within limit e (s, none) = (refl, refl)
answered-within limit e (s, some count) = elim (Bool-cases (ltb limit count)) [
  | inl h ↦ rw h (refl, refl)
  | inr h ↦ rw h (refl, refl)
]

abbrev pub one_if : Bool → ℕ
one_if true = 1
one_if false = 0

-- Where nothing has passed, nothing is added.
unpassed :
    (entry : Option Entry) (until n limit : ℕ) (b : Bool)
    → Reached entry until n
    → n ≤ limit
    → Reached entry until (n + one_if (b && false)) × (n + one_if (b && false) ≤ limit)
unpassed entry until n limit true reached le =
    (Reached-mono entry until (n + 0) n (omega arith) reached, omega (arith, le))
unpassed entry until n limit false reached le =
    (Reached-mono entry until (n + 0) n (omega arith) reached, omega (arith, le))

grown : (b : Bool) (n : ℕ) → n ≤ (if b then suc n else n)
grown true n = omega arith
grown false n = omega arith

later-Reached :
    (keys later : Keyspace) (reply : Option ℕ) (limit : ℕ) (key other : Text)
    (start window now n : ℕ)
    → Obeys keys later reply (after_both now window other keys) (counted (live now (keys other)))
    → start ≤ now
    → now < start + 1000 * window
    → n ≤ limit
    → Reached (keys key) (start + 1000 * window) n
    → Reached
        (later key)
        (start + 1000 * window)
        (n + one_if (eq_text key other && within limit reply))
      × (n + one_if (eq_text key other && within limit reply) ≤ limit)
unfolding within
later-Reached keys later reply limit key other start window now n (inr (failed, inr same)) from
      early le reached =
    rw (failed, same key) (unpassed (keys key) _ n limit (eq_text key other) reached le)
later-Reached keys later reply limit key other start window now n (inr (failed, inl same)) from
      early le reached =
    let more = step-Reached keys key other start window now n from early reached in
    rw (failed, same key)
      (unpassed (after_both now window other keys key) _ n limit (eq_text key other)
        (Reached-mono _ _ n _ (grown (eq_text key other) n) more) le)
later-Reached keys later reply limit key other start window now n (inl (same, said)) from early le
      reached =
    let more = step-Reached keys key other start window now n from early reached in
    elim (Bool-cases (eq_text key other)) [
      | inl e ↦ elim (Bool-cases (ltb limit (counted (live now (keys other))))) [
        | inl over ↦
            rw (said, e, over, same key)
              (unpassed _ _ n limit false (Reached-mono _ _ n (suc n) (omega arith) (rw e at more))
                le)
        | inr fits ↦
            let eq = eq_text→eq key other e in
            let count =
              subst (λ k. suc n ≤ counted (live now (keys k))) eq
                (counted_more (keys key) (start + 1000 * window) now n reached early) in
            rw (said, e, fits, same key)
              (
                subst (Reached (after_both now window other keys key) (start + 1000 * window))
                    (omega arith) (rw e at more),
                ground (arith, count, fits),
              )
      ]
      | inr e ↦ rw (e, same key) (unpassed _ _ n limit false (rw e at more) le)
    ]

-- A call of a limit, on its key, at a time.
pub record Call : Type 0 where
  pub now : ℕ
  pub name : Text

-- The calls of one window.
abbrev pub InWindow : ℕ → ℕ → List Call → Type 0
InWindow start window = All (λ c. (start ≤ c.now) × (c.now < start + 1000 * window))

module _ {S : Type 0} (redis : Redis S) where
  -- What the limits share: a counter with a lifetime, and a test of its value.
  abbrev gate : ℕ → ℕ → Text → ℕ → HttpError → S → Handled S (Unit {0})
  gate now window key limit e s =
      answered (redis.incr_expire now window key s) (λ count s1. (s1, raise_if (ltb limit count) e))

  gate-Reached :
      (s : S) (limit : ℕ) (e : HttpError) (key other : Text) (start window now n : ℕ)
      → start ≤ now
      → now < start + 1000 * window
      → n ≤ limit
      → Reached (redis.keys s key) (start + 1000 * window) n
      → Reached
          (redis.keys (gate now window other limit e s).0 key)
          (start + 1000 * window)
          (n + one_if (eq_text key other && has_passed (gate now window other limit e s).1))
        × (n + one_if (eq_text key other && has_passed (gate now window other limit e s).1) ≤ limit)
  unfolding after_both
  gate-Reached s limit e key other start window now n from early le reached =
      let reply = redis.incr_expire now window other s in
      rw ((answered-within limit e reply).0, (answered-within limit e reply).1)
        (later-Reached (redis.keys s) (redis.keys reply.0) reply.1 limit key other start window now
          n (redis.incr_expire_obeys now window other s) from early le reached)

  abbrev pub passes_of :
      (Call → S → Handled S (Unit {0})) → (Text → Text) → Text → List Call → S → ℕ
  passes_of check key name [] s = 0
  passes_of check key name (c ∷ calls) s =
      one_if (eq_text (key name) (key c.name) && has_passed (check c s).1)
      + passes_of check key name calls (check c s).0

  gate_passes :
      (key : Text → Text) (limit : ℕ) (e : HttpError) (name : Text) (start window : ℕ)
      (calls : List Call) (s : S) (n : ℕ)
      → InWindow start window calls
      → n ≤ limit
      → Reached (redis.keys s (key name)) (start + 1000 * window) n
      → passes_of (λ c. gate c.now window (key c.name) limit e) key name calls s + n ≤ limit
  gate_passes key limit e name start window [] s n times le reached = omega (arith, le)
  gate_passes key limit e name start window (c ∷ calls) s n times le reached =
      let next =
        gate-Reached s limit e (key name) (key c.name) start window c.now n times.0.0 times.0.1 le
          reached in
      omega (
        arith,
        gate_passes key limit e name start window calls (gate c.now window (key c.name) limit e s).0
            _ times.1 next.1 next.0,
      )

  -- In any window, whatever other names are used in between and whichever commands of Redis fail, at
  -- most five calls with one token of the second factor pass.
  pub mfa_passes :
      (settings : SecuritySettings) (token : Text) (start : ℕ) (calls : List Call) (s : S)
      → InWindow start 300 calls
      → passes_of
          (λ c. enforce_mfa_rate_limit redis settings c.now c.name)
          (key_of redis settings (codes "mfa_attempt"))
          token
          calls
          s
        ≤ 5
  unfolding enforce_mfa_rate_limit
  mfa_passes settings token start calls s times = omega (
    arith,
    gate_passes (key_of redis settings (codes "mfa_attempt")) 5 too_many_codes token start 300 calls
        s 0 times (omega arith) (inl refl),
  )

  -- In any window of a rate limit at most as many calls with one key pass as the limit says,
  -- whatever other keys are used in between and whichever commands of Redis fail.
  pub rate_limit_passes :
      (settings : SecuritySettings) (name : Text) (limit window start : ℕ) (calls : List Call)
      (s : S)
      → InWindow start window calls
      → passes_of
          (λ c. rate_limit redis settings c.now c.name limit window)
          (key_of redis settings (codes "rate_limit"))
          name
          calls
          s
        ≤ limit
  unfolding rate_limit
  rate_limit_passes settings name limit window start calls s times = omega (
    arith,
    gate_passes (key_of redis settings (codes "rate_limit")) limit rate_limit_exceeded name start
        window calls s 0 times (omega arith) (inl refl),
  )
