-- ===== src/Stock/Grants/Accepted.antt =====
-- Which events the rules of app/services/stock_grants.py accept, and what that means for vesting.
use sole_backend.Prelude.{
  ℕ, ◌≤◌, ◌≡◌, ◌≢◌, ◌↔◌, inl, inr, refl, sym, subst, Bool, true, false, not, Option, none, some,
  List, [], ◌∷◌, ltb, ◌==◌, Text, upper, any, elem, ◌||◌, All, Bool-cases, Result, ok, ◌>>◌,
  raise_if, arith, codes, eq_text,
}
use sole_backend.Stock.Vesting
use sole_backend.Stock.Vesting.{
  EmployeeStockGrant, VestingEvent, NextVestingEvent, event_shares, vested_events, is_immediate,
  compute_grant_vesting,
}
use sole_backend.Stock.Grants.Rules.{
  GrantError, is_immediate_strategy, immediate_events, has_same_date, scheduled_events,
  build_vesting_events, check_immediate, check_scheduled, validate_existing_events,
  normalize_strategy,
}

-- The events of a schedule are all on or after the grant date.
abbrev pub NotBefore : ℕ → List VestingEvent → Type 0
NotBefore grant_date = All (λ event. grant_date ≤ event.vest_date)

abbrev HasNoDate : List ℕ → ℕ → Type 0
HasNoDate seen day = All (λ d. d ≢ day) seen

-- No date twice, nor one of those already seen.
abbrev pub FreshDates : List ℕ → List VestingEvent → Type 0
FreshDates seen [] = Unit
FreshDates seen (event ∷ events) =
    HasNoDate seen event.vest_date × FreshDates (event.vest_date ∷ seen) events

-- The schedule that a grant must have: some events, one a day, none before the grant date, and
-- together exactly the total.
pub record IsSchedule (grant_date total_shares : ℕ) (events : List VestingEvent) : Type 0 where
  pub some_event : events ≢ []
  pub fresh : FreshDates [] events
  pub not_before : NotBefore grant_date events
  pub shares : event_shares events ≡ total_shares

elem-false : (a : ℕ) (xs : List ℕ) → (elem a xs ≡ false) ↔ HasNoDate xs a
elem-false a [] = (λ _. tt, λ _. refl)
elem-false a (x ∷ xs) =
    let ih = elem-false a xs in
    (λ h. (λ e. ground arith, ih.0 (ground arith)), λ h. ground (arith, ih.1 h.1, h.0))

has_same_date-false :
    (seen : List ℕ) (events : List VestingEvent)
    → (has_same_date seen events ≡ false) ↔ FreshDates seen events
unfolding has_same_date
has_same_date-false seen [] = (λ _. tt, λ _. refl)
has_same_date-false seen (event ∷ events) =
    let ih = has_same_date-false (event.vest_date ∷ seen) events in
    let here = elem-false event.vest_date seen in
    (λ h. (here.0 (ground arith), ih.0 (ground arith)), λ h. ground (arith, here.1 h.0, ih.1 h.1))

pub any_before_false :
    (grant_date : ℕ) (events : List VestingEvent)
    → (any (λ e. ltb e.vest_date grant_date) events ≡ false) ↔ NotBefore grant_date events
any_before_false grant_date [] = (λ _. tt, λ _. refl)
any_before_false grant_date (event ∷ events) =
    let ih = any_before_false grant_date events in
    (λ h. (ground arith, ih.0 (ground arith)), λ h. ground (arith, ih.1 h.1, h.0))

pub raise_if_ok :
    (b : Bool) (e : GrantError) {A : Type 0} {r : Result GrantError A} {a : A}
    → (raise_if b e >> r) ≡ ok a
    → (b ≡ false) × (r ≡ ok a)
raise_if_ok true e h = cc
raise_if_ok false e h = (refl, h)

pub scheduled_sound :
    (grant_date total_shares : ℕ) (events accepted : List VestingEvent)
    → scheduled_events grant_date total_shares events ≡ ok accepted
    → IsSchedule grant_date total_shares events × (accepted ≡ events)
unfolding scheduled_events
scheduled_sound grant_date total_shares [] accepted h = cc
scheduled_sound grant_date total_shares (event ∷ rest) accepted h =
    let a = raise_if_ok (has_same_date [] (event ∷ rest)) GrantError.same_date h in
    let b =
      raise_if_ok (any (λ e. ltb e.vest_date grant_date) (event ∷ rest)) GrantError.before_grant
        a.1 in
    let c =
      raise_if_ok (not (event_shares (event ∷ rest) == total_shares)) GrantError.sum_mismatch b.1 in
    (
      record {
        some_event = λ e. cc;
        fresh = (has_same_date-false [] (event ∷ rest)).0 a.0;
        not_before = (any_before_false grant_date (event ∷ rest)).0 b.0;
        shares = ground arith;
      },
      ground arith,
    )

scheduled_complete :
    (grant_date total_shares : ℕ) (events : List VestingEvent)
    → IsSchedule grant_date total_shares events
    → scheduled_events grant_date total_shares events ≡ ok events
unfolding scheduled_events
scheduled_complete grant_date total_shares [] s = absurd (s.some_event refl)
scheduled_complete grant_date total_shares (event ∷ rest) s = ground (
  arith,
  (has_same_date-false [] (event ∷ rest)).1 s.fresh,
  (any_before_false grant_date (event ∷ rest)).1 s.not_before,
  s.shares,
)

-- For a strategy that is not immediate, `_build_vesting_events` accepts a list of events exactly
-- when it is such a schedule.
pub build_scheduled_iff :
    (strategy : Option Text) (grant_date total_shares : ℕ) (events : List VestingEvent)
    → is_immediate_strategy strategy ≡ false
    → (build_vesting_events strategy grant_date total_shares events ≡ ok events)
      ↔ IsSchedule grant_date total_shares events
unfolding build_vesting_events
build_scheduled_iff strategy grant_date total_shares events i = rw i (
  λ h. (scheduled_sound grant_date total_shares events events h).0,
  scheduled_complete grant_date total_shares events,
)

-- What both rules leave of a list of events, for either strategy.
pub record AreShared (at_once : Bool) (grant_date total_shares : ℕ) (events : List VestingEvent)
    : Type 0 where
  pub shares : event_shares events ≡ total_shares
  pub not_before : NotBefore grant_date events
  pub on_grant_date : at_once ≡ true → All (λ event. event.vest_date ≡ grant_date) events

-- An accepted value in place of the variable that stands for it.
pub accepted_in {ℓ} :
    (P : List VestingEvent → Type ℓ) {a b : List VestingEvent}
    → ◌≡◌ {A = Result GrantError (List VestingEvent)} (ok a) (ok b)
    → P a
    → P b
accepted_in P h p = subst P (ground arith) p

immediate-AreShared :
    (grant_date total_shares : ℕ) (events accepted : List VestingEvent)
    → immediate_events grant_date total_shares events ≡ ok accepted
    → AreShared true grant_date total_shares accepted
unfolding immediate_events
immediate-AreShared grant_date total_shares [] accepted h =
    accepted_in (AreShared true grant_date total_shares) h
      (record { shares = omega arith; not_before = omega arith; on_grant_date = λ _. (refl, tt) })
immediate-AreShared grant_date total_shares (event ∷ []) accepted h =
    let a = raise_if_ok (not (event.shares == total_shares)) GrantError.immediate_total h in
    let b = raise_if_ok (not (event.vest_date == grant_date)) GrantError.immediate_date a.1 in
    accepted_in (AreShared true grant_date total_shares) b.1 (record {
      shares = ground arith;
      not_before = (ground arith, tt);
      on_grant_date = λ _. (ground arith, tt);
    })
immediate-AreShared grant_date total_shares (event ∷ other ∷ events) accepted h = cc

-- Whatever `_build_vesting_events` returns adds up to the total and starts on the grant date or
-- later; for an immediate strategy it all vests on the grant date.
pub build-AreShared :
    (strategy : Option Text) (grant_date total_shares : ℕ) (events accepted : List VestingEvent)
    → build_vesting_events strategy grant_date total_shares events ≡ ok accepted
    → AreShared (is_immediate_strategy strategy) grant_date total_shares accepted
unfolding build_vesting_events
build-AreShared strategy grant_date total_shares events accepted h =
    elim (Bool-cases (is_immediate_strategy strategy)) [
      | inl i ↦ rw i (immediate-AreShared grant_date total_shares events accepted (ground arith))
      | inr i ↦ rw i (
          let s = scheduled_sound grant_date total_shares events accepted (ground arith) in
          subst (AreShared false grant_date total_shares) (sym s.1)
            (record { shares = s.0.shares; not_before = s.0.not_before; on_grant_date = λ e. cc }))
    ]

check_immediate-AreShared :
    (grant_date total_shares : ℕ) (events accepted : List VestingEvent)
    → check_immediate grant_date total_shares events ≡ ok accepted
    → AreShared true grant_date total_shares accepted
unfolding check_immediate
check_immediate-AreShared grant_date total_shares [] accepted h = cc
check_immediate-AreShared grant_date total_shares (event ∷ []) accepted h =
    let a =
      raise_if_ok (not (event.shares == total_shares) || not (event.vest_date == grant_date))
        GrantError.immediate_mismatch h in
    accepted_in (AreShared true grant_date total_shares) a.1 (record {
      shares = ground arith;
      not_before = (ground arith, tt);
      on_grant_date = λ _. (ground arith, tt);
    })
check_immediate-AreShared grant_date total_shares (event ∷ other ∷ events) accepted h = cc

check_scheduled-AreShared :
    (grant_date total_shares : ℕ) (events accepted : List VestingEvent)
    → check_scheduled grant_date total_shares events ≡ ok accepted
    → AreShared false grant_date total_shares accepted
unfolding check_scheduled
check_scheduled-AreShared grant_date total_shares [] accepted h = cc
check_scheduled-AreShared grant_date total_shares (event ∷ rest) accepted h =
    let a =
      raise_if_ok (any (λ e. ltb e.vest_date grant_date) (event ∷ rest)) GrantError.before_grant
        h in
    let b =
      raise_if_ok (not (event_shares (event ∷ rest) == total_shares)) GrantError.sum_mismatch a.1 in
    accepted_in (AreShared false grant_date total_shares) b.1 (record {
      shares = ground arith;
      not_before = (any_before_false grant_date (event ∷ rest)).0 a.0;
      on_grant_date = λ e. cc;
    })

pub validate-AreShared :
    (events : List VestingEvent) (strategy : Option Text) (grant_date total_shares : ℕ)
    (accepted : List VestingEvent)
    → validate_existing_events events strategy grant_date total_shares ≡ ok accepted
    → AreShared (is_immediate_strategy strategy) grant_date total_shares accepted
unfolding validate_existing_events
validate-AreShared events strategy grant_date total_shares accepted h =
    elim (Bool-cases (is_immediate_strategy strategy)) [
      | inl i ↦
          rw i (check_immediate-AreShared grant_date total_shares events accepted (ground arith))
      | inr i ↦
          rw i (check_scheduled-AreShared grant_date total_shares events accepted (ground arith))
    ]

upper_idem : (s : Text) → upper (upper s) ≡ upper s
unfolding upper
upper_idem [] = refl
upper_idem (c ∷ s) = ground (arith, upper_idem s)

-- Both services read a stored strategy alike, as they write it and as it may stand in the column.
pub is_immediate-strategy :
    (grant : EmployeeStockGrant) → is_immediate grant ≡ is_immediate_strategy grant.vesting_strategy
unfolding is_immediate_strategy eq_text normalize_strategy Vesting.normalize_strategy upper
    is_immediate
is_immediate-strategy grant = of_strategy grant.vesting_strategy
  where
    of_strategy :
        (o : Option Text)
        → eq_text (Vesting.normalize_strategy o) (codes "IMMEDIATE") ≡ is_immediate_strategy o
    of_strategy none = refl
    of_strategy (some []) = refl
    of_strategy (some (c ∷ s)) = refl

pub is_immediate_strategy-stored :
    (o : Option Text)
    → is_immediate_strategy (some (normalize_strategy o)) ≡ is_immediate_strategy o
unfolding is_immediate_strategy normalize_strategy
is_immediate_strategy-stored none = unfold upper in refl
is_immediate_strategy-stored (some s) = rw upper_idem

-- A stored grant whose events obey the rules of its own strategy.
abbrev pub IsWellFormed : EmployeeStockGrant → Type 0
IsWellFormed grant =
    AreShared (is_immediate grant) grant.grant_date grant.total_shares grant.vesting_events
