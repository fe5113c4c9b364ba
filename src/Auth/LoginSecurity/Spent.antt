-- ===== src/Auth/LoginSecurity/Spent.antt =====
-- A refresh token that is marked (`mark_refresh_used_atomic` of app/utils/login_security.py).
use sole_backend.Prelude.{
  ℕ, ◌+◌, ◌*◌, ◌≤◌, ◌<◌, ◌≡◌, ◌⊎◌, refl, subst, ◌∙◌, inl, inr, Bool, true, false, Option, none,
  some, ltb, Text, eq_text, eq_text_refl, eq_text→eq, Result, ok, err, Bool-cases, Option-cases,
  arith,
}
use sole_backend.Auth.Redis.{Entry, Keyspace, live, lasting, is_absent, after_set_nx, Same, Obeys}
use sole_backend.Auth.LoginSecurity.{HttpError, answered}

abbrev pub is_first : Result HttpError Bool → Bool
is_first (ok first) = first
is_first (err e) = false

-- The key is taken until the last second before a time has begun.
unfoldable pub HeldUntil : Option Entry → ℕ → Type 0
HeldUntil entry until =
    (e : Entry) × (d : ℕ) × (entry ≡ some e) × (e.deadline ≡ some d) × (until < d + 1000)

-- Either the last second has begun, or the key is held until then.
abbrev pub IsSpent : Keyspace → Text → ℕ → ℕ → Type 0
IsSpent keys key until now = (until < now + 1000) ⊎ HeldUntil (keys key) until

held_live :
    (entry : Option Entry) (until now : ℕ)
    → HeldUntil entry until
    → (until < now + 1000) ⊎ ((e : Entry) × (entry ≡ some e) × (live now entry ≡ some e))
unfolding HeldUntil
held_live entry until now (e, d, is_e, is_d, le) = elim (Bool-cases (ltb now d)) [
  | inl h ↦ inr (e, is_e, rw (is_e, is_d, h) refl)
  | inr h ↦ inl (ground arith)
]

pub set_nx-IsSpent :
    (keys : Keyspace) (key other : Text) (until ttl now : ℕ)
    → IsSpent keys key until now
    → IsSpent (after_set_nx now ttl other keys) key until now
set_nx-IsSpent keys key other until ttl now (inl late) = inl late
set_nx-IsSpent keys key other until ttl now (inr held) =
    elim (held_live (keys key) until now held) [
      | inl late ↦ inl late
      | inr (e, is_e, alive) ↦ elim (Bool-cases (eq_text key other)) [
        | inl same ↦
            let eq : key ≡ other = eq_text→eq key other same in
            let alive_there : live now (keys other) ≡ some e =
              subst (λ k. live now (keys k) ≡ some e) eq alive in
            inr (rw (same, alive_there) (rw is_e at held))
        | inr differ ↦ inr (rw differ held)
      ]
    ]

Same-IsSpent :
    (keys later : Keyspace) (key : Text) (until now : ℕ)
    → Same later keys
    → IsSpent keys key until now
    → IsSpent later key until now
Same-IsSpent keys later key until now same spent = rw (same key) spent

unfoldable pub first_of : Option Bool → Bool
first_of none = false
first_of (some first) = first

pub answered-first :
    {S : Type 0} (reply : S × Option Bool)
    → ((answered reply (λ first s1. (s1, ok first))).0 ≡ reply.0)
      × (is_first (answered reply (λ first s1. (s1, ok first))).1 ≡ first_of reply.1)
unfolding first_of
answered-first (s, none) = (refl, refl)
answered-first (s, some first) = (refl, refl)

pub later-IsSpent :
    {A : Type 0} (keys later after : Keyspace) (reply : Option A) (answer : A) (key : Text)
    (until now : ℕ)
    → Obeys keys later reply after answer
    → (IsSpent keys key until now → IsSpent after key until now)
    → IsSpent keys key until now
    → IsSpent later key until now
later-IsSpent keys later after reply answer key until now (inl (same, _)) step spent =
    Same-IsSpent after later key until now same (step spent)
later-IsSpent keys later after reply answer key until now (inr (_, inl same)) step spent =
    Same-IsSpent after later key until now same (step spent)
later-IsSpent keys later after reply answer key until now (inr (_, inr same)) step spent =
    Same-IsSpent keys later key until now same spent

-- A key that is taken is not taken again before the last second.
pub taken-refused :
    (keys later after : Keyspace) (reply : Option Bool) (key : Text) (until now : ℕ)
    → Obeys keys later reply after (is_absent (live now (keys key)))
    → now + 1000 ≤ until
    → IsSpent keys key until now
    → first_of reply ≡ false
unfolding first_of
taken-refused keys later after reply key until now obeys early (inl late) =
    absurd (omega (arith, early, late))
taken-refused keys later after reply key until now (inr (failed, _)) early (inr held) =
    rw failed refl
taken-refused keys later after reply key until now (inl (_, said)) early (inr held) =
    elim (held_live (keys key) until now held) [
      | inl late ↦ absurd (omega (arith, early, late))
      | inr (e, is_e, alive) ↦ rw (said, alive) refl
    ]

first_none : (reply : Option Bool) → reply ≡ none → first_of reply ≡ true → ⊥
unfolding first_of
first_none none failed h = cc
first_none (some b) failed h = cc

not_first :
    (reply : Option Bool) (old : Option Entry) (e : Entry)
    → old ≡ some e
    → reply ≡ some (is_absent old)
    → first_of reply ≡ true
    → ⊥
unfolding first_of
not_first reply old e there said h = let one = rw there at said in let two = rw one at h in cc

-- The first use takes the key.
pub first-IsSpent :
    (keys later : Keyspace) (reply : Option Bool) (key : Text) (until ttl now : ℕ)
    → Obeys keys later reply (after_set_nx now ttl key keys) (is_absent (live now (keys key)))
    → until < now + 1000 * ttl + 1000
    → first_of reply ≡ true
    → IsSpent later key until now
unfolding first_of HeldUntil
first-IsSpent keys later reply key until ttl now (inr (failed, _)) long h =
    absurd (first_none reply failed h)
first-IsSpent keys later reply key until ttl now (inl (same, said)) long h =
    elim (Option-cases (live now (keys key))) [
      | inl gone ↦ inr (
        lasting now ttl,
        now + 1000 * ttl,
        same key ∙ (rw (eq_text_refl key, gone) refl),
        refl,
        long,
      )
      | inr (e, there) ↦ absurd (not_first reply (live now (keys key)) e there said h)
    ]
