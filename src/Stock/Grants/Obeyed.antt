-- ===== src/Stock/Grants/Obeyed.antt =====
-- The events of the grants that app/services/stock_grants.py writes, against its rules.
use sole_backend.Prelude.{
  ℕ, ◌≡◌, ◌≢◌, inl, inr, refl, sym, subst, Bool, true, false, not, Option, List, [], ◌∷◌, ltb, ◌==◌,
  Text, any, ◌||◌, Bool-cases, ok, arith,
}
use sole_backend.Stock.Vesting.{VestingEvent, event_shares}
use sole_backend.Stock.Grants.Rules.{
  GrantError, is_immediate_strategy, immediate_events, build_vesting_events, check_immediate,
  check_scheduled, validate_existing_events,
}
use sole_backend.Stock.Grants.Accepted.{
  NotBefore, FreshDates, IsSchedule, raise_if_ok, scheduled_sound, accepted_in, any_before_false,
}

-- The events that a grant must have: at once, the one event of the whole grant on its date; else a
-- schedule.
abbrev pub ObeysRules : Bool → ℕ → ℕ → List VestingEvent → Type 0
ObeysRules true grant_date total_shares events =
    events ≡ record { vest_date = grant_date; shares = total_shares } ∷ []
ObeysRules false grant_date total_shares events = IsSchedule grant_date total_shares events

whole_event :
    (event : VestingEvent) (grant_date total_shares : ℕ)
    → event.shares ≡ total_shares
    → event.vest_date ≡ grant_date
    → ObeysRules true grant_date total_shares (event ∷ [])
whole_event event grant_date total_shares s d = rw (sym s, sym d) refl

immediate-ObeysRules :
    (grant_date total_shares : ℕ) (events accepted : List VestingEvent)
    → immediate_events grant_date total_shares events ≡ ok accepted
    → ObeysRules true grant_date total_shares accepted
unfolding immediate_events
immediate-ObeysRules grant_date total_shares [] accepted h =
    accepted_in (ObeysRules true grant_date total_shares) h refl
immediate-ObeysRules grant_date total_shares (event ∷ []) accepted h =
    let a = raise_if_ok (not (event.shares == total_shares)) GrantError.immediate_total h in
    let b = raise_if_ok (not (event.vest_date == grant_date)) GrantError.immediate_date a.1 in
    accepted_in (ObeysRules true grant_date total_shares) b.1
      (whole_event event grant_date total_shares (ground arith) (ground arith))
immediate-ObeysRules grant_date total_shares (event ∷ other ∷ events) accepted h = cc

-- Whatever `_build_vesting_events` returns obeys the rules of the strategy.
pub build-ObeysRules :
    (strategy : Option Text) (grant_date total_shares : ℕ) (events accepted : List VestingEvent)
    → build_vesting_events strategy grant_date total_shares events ≡ ok accepted
    → ObeysRules (is_immediate_strategy strategy) grant_date total_shares accepted
unfolding build_vesting_events
build-ObeysRules strategy grant_date total_shares events accepted h =
    elim (Bool-cases (is_immediate_strategy strategy)) [
      | inl i ↦ rw i (immediate-ObeysRules grant_date total_shares events accepted (ground arith))
      | inr i ↦ rw i (
          let s = scheduled_sound grant_date total_shares events accepted (ground arith) in
          subst (IsSchedule grant_date total_shares) (sym s.1) s.0)
    ]

-- The same but for dates that may occur twice, which an update that keeps the events of a grant does
-- not check again.
abbrev pub ObeysKept : Bool → ℕ → ℕ → List VestingEvent → Type 0
ObeysKept true grant_date total_shares events =
    events ≡ record { vest_date = grant_date; shares = total_shares } ∷ []
ObeysKept false grant_date total_shares events =
    (events ≢ []) × NotBefore grant_date events × (event_shares events ≡ total_shares)

pub build-ObeysKept :
    (at_once : Bool) (grant_date total_shares : ℕ) (events : List VestingEvent)
    → ObeysRules at_once grant_date total_shares events
    → ObeysKept at_once grant_date total_shares events × FreshDates [] events
build-ObeysKept true grant_date total_shares events h = (h, rw h (tt, tt))
build-ObeysKept false grant_date total_shares events h =
    ((h.some_event, h.not_before, h.shares), h.fresh)

check_immediate-ObeysKept :
    (grant_date total_shares : ℕ) (events accepted : List VestingEvent)
    → check_immediate grant_date total_shares events ≡ ok accepted
    → ObeysKept true grant_date total_shares accepted × (accepted ≡ events)
unfolding check_immediate
check_immediate-ObeysKept grant_date total_shares [] accepted h = cc
check_immediate-ObeysKept grant_date total_shares (event ∷ []) accepted h =
    let a =
      raise_if_ok (not (event.shares == total_shares) || not (event.vest_date == grant_date))
        GrantError.immediate_mismatch h in
    accepted_in (λ es. ObeysKept true grant_date total_shares es × (es ≡ event ∷ [])) a.1
      (whole_event event grant_date total_shares (ground arith) (ground arith), refl)
check_immediate-ObeysKept grant_date total_shares (event ∷ other ∷ events) accepted h = cc

check_scheduled-ObeysKept :
    (grant_date total_shares : ℕ) (events accepted : List VestingEvent)
    → check_scheduled grant_date total_shares events ≡ ok accepted
    → ObeysKept false grant_date total_shares accepted × (accepted ≡ events)
unfolding check_scheduled
check_scheduled-ObeysKept grant_date total_shares [] accepted h = cc
check_scheduled-ObeysKept grant_date total_shares (event ∷ rest) accepted h =
    let a =
      raise_if_ok (any (λ e. ltb e.vest_date grant_date) (event ∷ rest)) GrantError.before_grant
        h in
    let b =
      raise_if_ok (not (event_shares (event ∷ rest) == total_shares)) GrantError.sum_mismatch a.1 in
    accepted_in (λ es. ObeysKept false grant_date total_shares es × (es ≡ event ∷ rest)) b.1
      ((λ e. cc, (any_before_false grant_date (event ∷ rest)).0 a.0, ground arith), refl)

-- What passes `_validate_existing_events` is unchanged and obeys the rules, but for dates.
pub validate-ObeysKept :
    (events : List VestingEvent) (strategy : Option Text) (grant_date total_shares : ℕ)
    (accepted : List VestingEvent)
    → validate_existing_events events strategy grant_date total_shares ≡ ok accepted
    → ObeysKept (is_immediate_strategy strategy) grant_date total_shares accepted
      × (accepted ≡ events)
unfolding validate_existing_events
validate-ObeysKept events strategy grant_date total_shares accepted h =
    elim (Bool-cases (is_immediate_strategy strategy)) [
      | inl i ↦
          rw i (check_immediate-ObeysKept grant_date total_shares events accepted (ground arith))
      | inr i ↦
          rw i (check_scheduled-ObeysKept grant_date total_shares events accepted (ground arith))
    ]
