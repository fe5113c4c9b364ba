-- ===== src/Auth/LoginSecurity/SingleUse.antt =====
-- A refresh token is accepted once (`mark_refresh_used_atomic` of app/utils/login_security.py).
use sole_backend.Prelude.{
  ℕ, ◌+◌, ◌-◌, ◌*◌, ◌/◌, ◌≤◌, ◌<◌, ◌≡◌, refl, sym, subst, ◌∙◌, inl, inr, Bool, true, false, ◌&&◌,
  List, [], ◌∷◌, ◌==◌, if◌then◌else◌, Text, codes, eq_text, eq_text→eq, Bool-cases, arith,
}
use sole_backend.Auth.Redis.{Keyspace, Redis}
use sole_backend.Auth.LoginSecurity.{SecuritySettings, key_of, mark_refresh_used_atomic}
use sole_backend.Auth.LoginSecurity.Spent.{
  is_first, IsSpent, set_nx-IsSpent, later-IsSpent, taken-refused, first-IsSpent, answered-first,
}

-- One presentation of a refresh token.
pub record Use : Type 0 where
  pub now : ℕ
  pub jti : Text

-- The clock does not go back.
abbrev pub Rising : ℕ → List Use → Type 0
Rising start [] = Unit
Rising start (use_now ∷ uses) = (start ≤ use_now.now) × Rising use_now.now uses

-- What is left of a token's time, cut to seconds, ends in its last second.
rest_covers : (now until : ℕ) → until < now + 1000 * ((until - now) / 1000) + 1000
rest_covers now until = omega arith

and_both : (a b : Bool) → (a && b) ≡ true → (a ≡ true) × (b ≡ true)
and_both a b h = ground arith

module _ {S : Type 0} (redis : Redis S) (settings : SecuritySettings) where
  abbrev used : Text → Text
  used = key_of redis settings (codes "refresh_used")

  mark-IsSpent :
      (s : S) (now : ℕ) (jti : Text) (expires_at : ℕ) (key : Text) (until : ℕ)
      → IsSpent (redis.keys s) key until now
      → IsSpent
          (redis.keys (mark_refresh_used_atomic redis settings now jti expires_at s).0)
          key
          until
          now
  unfolding mark_refresh_used_atomic
  mark-IsSpent s now jti expires_at key until spent =
      let ttl = (1000 * expires_at - now) / 1000 in
      let reply = redis.set_nx now ttl (used jti) s in
      elim (Bool-cases (ttl == 0)) [
        | inl e ↦ rw e spent
        | inr e ↦
            rw (e, (answered-first reply).0)
              (later-IsSpent (redis.keys s) (redis.keys reply.0) _ reply.1 _ key until now
                (redis.set_nx_obeys now ttl (used jti) s)
                (set_nx-IsSpent (redis.keys s) key (used jti) until ttl now) spent)
      ]

  mark-refused :
      (s : S) (now : ℕ) (jti : Text) (expires_at : ℕ)
      → IsSpent (redis.keys s) (used jti) (1000 * expires_at) now
      → is_first (mark_refresh_used_atomic redis settings now jti expires_at s).1 ≡ false
  unfolding mark_refresh_used_atomic
  mark-refused s now jti expires_at spent =
      let ttl = (1000 * expires_at - now) / 1000 in
      let reply = redis.set_nx now ttl (used jti) s in
      elim (Bool-cases (ttl == 0)) [
        | inl e ↦ rw e refl
        | inr e ↦
            rw (e, (answered-first reply).1)
              (taken-refused (redis.keys s) (redis.keys reply.0) _ reply.1 (used jti)
                (1000 * expires_at) now (redis.set_nx_obeys now ttl (used jti) s) (ground arith)
                spent)
      ]

  mark-spends :
      (s : S) (now : ℕ) (jti : Text) (expires_at : ℕ)
      → is_first (mark_refresh_used_atomic redis settings now jti expires_at s).1 ≡ true
      → IsSpent
          (redis.keys (mark_refresh_used_atomic redis settings now jti expires_at s).0)
          (used jti)
          (1000 * expires_at)
          now
  unfolding mark_refresh_used_atomic
  mark-spends s now jti expires_at h =
      let ttl = (1000 * expires_at - now) / 1000 in
      let reply = redis.set_nx now ttl (used jti) s in
      elim (Bool-cases (ttl == 0)) [
        | inl e ↦ rw e (inl (ground arith))
        | inr e ↦
            rw (e, (answered-first reply).0)
              (first-IsSpent (redis.keys s) (redis.keys reply.0) reply.1 (used jti)
                (1000 * expires_at) ttl now (redis.set_nx_obeys now ttl (used jti) s)
                (rest_covers now (1000 * expires_at)) (sym (answered-first reply).1 ∙ (rw e at h)))
      ]

  -- How often a token is accepted, when the tokens of a list are presented one after the other.
  abbrev pub accepted : (Text → ℕ) → Text → List Use → S → ℕ
  accepted expiry jti [] s = 0
  accepted expiry jti (u ∷ uses) s =
      let marked = mark_refresh_used_atomic redis settings u.now u.jti (expiry u.jti) s in
      (if eq_text jti u.jti && is_first marked.1 then 1 else 0) + accepted expiry jti uses marked.0

  IsSpent-later :
      (keys : Keyspace) (key : Text) (until start now : ℕ)
      → start ≤ now
      → IsSpent keys key until start
      → IsSpent keys key until now
  IsSpent-later keys key until start now le (inl late) = inl (omega (arith, le, late))
  IsSpent-later keys key until start now le (inr held) = inr held

  same_jti :
      (expiry : Text → ℕ) (s : S) (now : ℕ) (jti other : Text)
      → IsSpent (redis.keys s) (used jti) (1000 * expiry jti) now
      → (eq_text jti other
          && is_first (mark_refresh_used_atomic redis settings now other (expiry other) s).1)
        ≡ false
  same_jti expiry s now jti other spent = elim (Bool-cases (eq_text jti other)) [
    | inl same ↦
        let eq = eq_text→eq jti other same in
        rw
          (
            same,
            subst
                (λ x.
                  is_first (mark_refresh_used_atomic redis settings now x (expiry x) s).1 ≡ false)
                eq (mark-refused s now jti (expiry jti) spent),
          )
          refl
    | inr differ ↦ rw differ refl
  ]

  spent_never :
      (expiry : Text → ℕ) (jti : Text) (start : ℕ) (uses : List Use) (s : S)
      → IsSpent (redis.keys s) (used jti) (1000 * expiry jti) start
      → Rising start uses
      → accepted expiry jti uses s ≡ 0
  spent_never expiry jti start [] s spent rising = refl
  spent_never expiry jti start (u ∷ uses) s spent rising =
      let now_spent = IsSpent-later (redis.keys s) (used jti) _ start u.now rising.0 spent in
      rw (same_jti expiry s u.now jti u.jti now_spent) (
        omega (
          arith,
          spent_never expiry jti u.now uses _
              (mark-IsSpent s u.now u.jti (expiry u.jti) (used jti) (1000 * expiry jti) now_spent)
              rising.1,
        ))

  -- However often the tokens of a list are presented, each with its own expiry, in the order of the
  -- clock, and whichever commands of Redis fail, no token is accepted twice.
  pub accepted_once :
      (expiry : Text → ℕ) (jti : Text) (start : ℕ) (uses : List Use) (s : S)
      → Rising start uses
      → accepted expiry jti uses s ≤ 1
  accepted_once expiry jti start [] s rising = omega arith
  accepted_once expiry jti start (u ∷ uses) s rising =
      let marked = mark_refresh_used_atomic redis settings u.now u.jti (expiry u.jti) s in
      elim (Bool-cases (eq_text jti u.jti && is_first marked.1)) [
        | inl hit ↦
            let both = and_both (eq_text jti u.jti) (is_first marked.1) hit in
            let eq = eq_text→eq jti u.jti both.0 in
            let spent =
              subst (λ x. IsSpent (redis.keys marked.0) (used x) (1000 * expiry x) u.now) (sym eq)
                (mark-spends s u.now u.jti (expiry u.jti) both.1) in
            rw hit (omega (arith, spent_never expiry jti u.now uses marked.0 spent rising.1))
        | inr miss ↦ rw miss (omega (arith, accepted_once expiry jti u.now uses marked.0 rising.1))
      ]
