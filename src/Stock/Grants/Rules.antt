-- ===== src/Stock/Grants/Rules.antt =====
-- The rules on vesting events in app/services/stock_grants.py: `_build_vesting_events`,
-- `_validate_existing_events`, and the next event of one grant.
use sole_backend.Prelude.{
  ℕ, Bool, false, not, Option, none, some, List, [], ◌∷◌, ltb, leb, ◌==◌, if◌then◌else◌, Text,
  codes, eq_text, upper, keep, any, elem, ◌||◌, Result, ok, err, ◌>>◌, raise_if,
}
use sole_backend.Stock.Vesting.{VestingEvent, NextVestingEvent, event_shares}

pub data GrantError : Type 0 where
  membership_not_found membership_inactive : GrantError
  immediate_single immediate_total immediate_date immediate_mismatch : GrantError
  scheduled_empty same_date before_grant sum_mismatch : GrantError

-- `str(value).upper()`; the column may hold no text.
unfoldable pub normalize_strategy : Option Text → Text
normalize_strategy none = upper (codes "None")
normalize_strategy (some s) = upper s

unfoldable pub is_immediate_strategy : Option Text → Bool
is_immediate_strategy strategy = eq_text (normalize_strategy strategy) (codes "IMMEDIATE")

-- The single event of a grant that vests at once, or the one that is made for it.
unfoldable pub immediate_events : ℕ → ℕ → List VestingEvent → Result GrantError (List VestingEvent)
immediate_events grant_date total_shares [] =
    ok (record { vest_date = grant_date; shares = total_shares } ∷ [])
immediate_events grant_date total_shares (event ∷ []) = do
  raise_if (not (event.shares == total_shares)) immediate_total
  raise_if (not (event.vest_date == grant_date)) immediate_date
  ok (event ∷ [])
immediate_events grant_date total_shares (event ∷ other ∷ events) = err immediate_single

-- The loop over `seen_dates`.
unfoldable pub has_same_date : List ℕ → List VestingEvent → Bool
has_same_date seen [] = false
has_same_date seen (event ∷ events) =
    elem event.vest_date seen || has_same_date (event.vest_date ∷ seen) events

unfoldable pub scheduled_events : ℕ → ℕ → List VestingEvent → Result GrantError (List VestingEvent)
scheduled_events grant_date total_shares [] = err scheduled_empty
scheduled_events grant_date total_shares (event ∷ rest) = do
  let events = event ∷ rest
  raise_if (has_same_date [] events) same_date
  raise_if (any (λ e. ltb e.vest_date grant_date) events) before_grant
  raise_if (not (event_shares events == total_shares)) sum_mismatch
  ok events

unfoldable pub build_vesting_events :
    Option Text → ℕ → ℕ → List VestingEvent → Result GrantError (List VestingEvent)
build_vesting_events strategy grant_date total_shares events =
    if is_immediate_strategy strategy
    then immediate_events grant_date total_shares events
    else scheduled_events grant_date total_shares events

unfoldable pub check_immediate : ℕ → ℕ → List VestingEvent → Result GrantError (List VestingEvent)
check_immediate grant_date total_shares [] = err immediate_single
check_immediate grant_date total_shares (event ∷ []) = do
  raise_if (not (event.shares == total_shares) || not (event.vest_date == grant_date))
      immediate_mismatch
  ok (event ∷ [])
check_immediate grant_date total_shares (event ∷ other ∷ events) = err immediate_single

unfoldable pub check_scheduled : ℕ → ℕ → List VestingEvent → Result GrantError (List VestingEvent)
check_scheduled grant_date total_shares [] = err scheduled_empty
check_scheduled grant_date total_shares (event ∷ rest) = do
  let events = event ∷ rest
  raise_if (any (λ e. ltb e.vest_date grant_date) events) before_grant
  raise_if (not (event_shares events == total_shares)) sum_mismatch
  ok events

-- Returns the events that it was given; the source returns nothing.
unfoldable pub validate_existing_events :
    List VestingEvent → Option Text → ℕ → ℕ → Result GrantError (List VestingEvent)
validate_existing_events events strategy grant_date total_shares =
    if is_immediate_strategy strategy
    then check_immediate grant_date total_shares events
    else check_scheduled grant_date total_shares events

-- `min(upcoming, key=lambda event: event.vest_date)`, the first of the earliest.
unfoldable pub earliest : List VestingEvent → Option NextVestingEvent
earliest [] = none
earliest (event ∷ events) = elim (earliest events) [
  | none ↦ some (record { vest_date = event.vest_date; shares = event.shares })
  | some other ↦ some (
      if leb event.vest_date other.vest_date
      then record { vest_date = event.vest_date; shares = event.shares }
      else other)
]

-- `_next_vesting_event` and `_next_preview_event`, which differ in what they take apart.
unfoldable pub next_event : Option Text → ℕ → ℕ → List VestingEvent → ℕ → Option NextVestingEvent
next_event strategy grant_date total_shares events as_of_date =
    if is_immediate_strategy strategy
    then (if ltb as_of_date grant_date
        then some (record { vest_date = grant_date; shares = total_shares })
        else none)
    else earliest (keep (λ event. ltb as_of_date event.vest_date) events)
