-- ===== src/Auth/Redis/Counters.antt =====
-- Counters of Redis that expire, as app/utils/login_security.py uses them.
use sole_backend.Prelude.{
  ℕ, suc, ◌+◌, ◌*◌, ◌≤◌, ◌<◌, ◌≡◌, ◌⊎◌, refl, subst, inl, inr, true, false, Option, none, some,
  if◌then◌else◌, Text, eq_text, eq_text_refl, eq_text→eq, Bool-cases, arith,
}
use sole_backend.Auth.Redis.{
  Entry, Keyspace, before, live, counted, deadline_of, after_incr, after_expire,
}

abbrev pub Lasts : ℕ → Option ℕ → Type 0
Lasts until none = Unit
Lasts until (some d) = until ≤ d

-- A counter that has reached n and is there until a time.
abbrev pub Reached : Option Entry → ℕ → ℕ → Type 0
Reached entry until n =
    (n ≡ 0) ⊎ ((e : Entry) × (entry ≡ some e) × (n ≤ e.value) × Lasts until e.deadline)

pub lasting_before :
    (deadline : Option ℕ) (until now : ℕ)
    → Lasts until deadline
    → now < until
    → before now deadline ≡ true
lasting_before none until now lasts early = refl
lasting_before (some d) until now lasts early = ground (arith, lasts, early)

pub lasting_live :
    (e : Entry) (until now : ℕ)
    → Lasts until e.deadline
    → now < until
    → before now e.deadline ≡ true
lasting_live e until now lasts early = lasting_before e.deadline until now lasts early

counted_pos : (entry : Option Entry) → 1 ≤ counted entry
counted_pos none = omega arith
counted_pos (some e) = omega arith

-- A call counts one more.
pub counted_more :
    (entry : Option Entry) (until now n : ℕ)
    → Reached entry until n
    → now < until
    → suc n ≤ counted (live now entry)
counted_more entry until now n (inl none_yet) early =
    omega (arith, none_yet, counted_pos (live now entry))
counted_more entry until now n (inr (e, is_e, enough, lasts)) early =
    rw (is_e, lasting_live e until now lasts early) (omega (arith, enough))

-- The counter that `INCR` leaves.
abbrev pub bumped : ℕ → Option Entry → Entry
bumped now entry = record {
  value = counted (live now entry);
  deadline = deadline_of (live now entry);
}

-- It is there.
pub live-bumped :
    (now : ℕ) (entry : Option Entry) → live now (some (bumped now entry)) ≡ some (bumped now entry)
live-bumped now none = refl
live-bumped now (some e) = elim (Bool-cases (before now e.deadline)) [
  | inl h ↦ rw (h, h) refl
  | inr h ↦ rw h refl
]

unfoldable pub after_both : ℕ → ℕ → Text → Keyspace → Keyspace
after_both now window key keys = after_expire now window key (after_incr now key keys)

-- The counter is set, with a new deadline.
pub after_own :
    (now window : ℕ) (key : Text) (keys : Keyspace)
    → after_both now window key keys key
      ≡ some
          (record { value = counted (live now (keys key)); deadline = some (now + 1000 * window) })
unfolding after_both
after_own now window key keys = rw (eq_text_refl key, live-bumped now (keys key)) refl

pub after_other :
    (now window : ℕ) (key other : Text) (keys : Keyspace)
    → eq_text key other ≡ false
    → after_both now window other keys key ≡ keys key
unfolding after_both
after_other now window key other keys differ = rw differ refl

-- A call on any key keeps what a counter has reached, and one on its own key adds one.
pub step-Reached :
    (keys : Keyspace) (key other : Text) (start window now n : ℕ)
    → start ≤ now
    → now < start + 1000 * window
    → Reached (keys key) (start + 1000 * window) n
    → Reached
        (after_both now window other keys key)
        (start + 1000 * window)
        (if eq_text key other then suc n else n)
step-Reached keys key other start window now n from early reached =
    elim (Bool-cases (eq_text key other)) [
      | inl same ↦
          let eq = eq_text→eq key other same in
          let more = counted_more (keys key) (start + 1000 * window) now n reached early in
          rw same (
            subst (λ k. Reached (after_both now window k keys key) (start + 1000 * window) (suc n))
              eq (inr (_, after_own now window key keys, more, omega (arith, from))))
      | inr differ ↦ rw (differ, after_other now window key other keys differ) reached
    ]

pub Reached-mono :
    (entry : Option Entry) (until n m : ℕ) → n ≤ m → Reached entry until m → Reached entry until n
Reached-mono entry until n m le (inl none_yet) = inl (omega (arith, le, none_yet))
Reached-mono entry until n m le (inr (e, is_e, enough, lasts)) =
    inr (e, is_e, omega (arith, le, enough), lasts)
