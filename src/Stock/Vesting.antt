-- ===== src/Stock/Vesting.antt =====
-- app/services/vesting_engine.py and the columns of app/models/employee_stock_grant.py and
-- app/models/vesting_event.py that it reads. A `date` is its ordinal number; share counts are
-- non-negative (check constraints of the two tables).
pub mod Dates
pub mod Totals
pub mod Upcoming
use sole_backend.Prelude.{
  ℕ, ◌+◌, ◌-◌, min, Bool, ◌&&◌, Option, none, some, List, [], ◌∷◌, ltb, leb, ◌==◌, if◌then◌else◌,
  Text, codes, eq_text, upper, length, take, keep, sum_of, head?, map,
}
use sole_backend.Prelude.Int.{ℤ, pos_part}
use Dates.{Dict, get, put, min_key, sorted_items}

pub record VestingEvent : Type 0 where
  pub vest_date : ℕ
  pub shares : ℕ

pub record EmployeeStockGrant : Type 0 where
  pub id : ℕ
  pub org_id : ℕ
  pub org_membership_id : ℕ
  pub grant_date : ℕ
  pub total_shares : ℕ
  -- In millionths, the scale of the column.
  pub exercise_price : ℕ
  pub status : Text
  pub vesting_strategy : Option Text
  pub vesting_events : List VestingEvent

pub record NextVestingEvent : Type 0 where
  pub vest_date : ℕ
  pub shares : ℕ

pub record VestingTotals : Type 0 where
  pub total_granted_shares : ℕ
  pub total_vested_shares : ℕ
  pub total_unvested_shares : ℕ
  pub next_vesting_event : Option NextVestingEvent

pub record GrantVestingSummary : Type 0 where
  pub grant_id : ℕ
  pub grant_date : ℕ
  pub total_shares : ℕ
  pub vested_shares : ℕ
  pub unvested_shares : ℕ
  pub exercise_price : ℕ

-- `(value or "SCHEDULED").upper()`: an empty text is false too.
unfoldable pub normalize_strategy : Option Text → Text
normalize_strategy none = upper (codes "SCHEDULED")
normalize_strategy (some []) = upper (codes "SCHEDULED")
normalize_strategy (some (c ∷ s)) = upper (c ∷ s)

unfoldable pub is_immediate : EmployeeStockGrant → Bool
is_immediate grant = eq_text (normalize_strategy grant.vesting_strategy) (codes "IMMEDIATE")

-- The events of a list that have vested by a date, and those that have not.
abbrev pub vested_events : ℕ → List VestingEvent → List VestingEvent
vested_events as_of = keep (λ event. leb event.vest_date as_of)

abbrev pub event_shares : List VestingEvent → ℕ
event_shares = sum_of (λ event. event.shares)

-- The vested and the unvested shares of a grant.
unfoldable pub compute_grant_vesting : EmployeeStockGrant → ℕ → ℕ × ℕ
compute_grant_vesting grant as_of =
    let total = grant.total_shares in
    let accrued =
      if is_immediate grant
      then (if leb grant.grant_date as_of then total else 0)
      else event_shares (vested_events as_of grant.vesting_events) in
    let vested = min accrued total in (vested, total - vested)

-- `upcoming[day] = upcoming.get(day, 0) + shares`
abbrev pub add_upcoming : ℕ → ℕ → Dict → Dict
add_upcoming day shares upcoming = put day (get day upcoming + shares) upcoming

unfoldable pub collect_events : ℕ → List VestingEvent → Dict → Dict
collect_events as_of [] upcoming = upcoming
collect_events as_of (event ∷ events) upcoming = collect_events as_of events (
    if ltb as_of event.vest_date
    then add_upcoming event.vest_date event.shares upcoming
    else upcoming)

unfoldable pub collect_grant : ℕ → EmployeeStockGrant → Dict → Dict
collect_grant as_of grant upcoming =
    if is_immediate grant
    then (if ltb as_of grant.grant_date
        then add_upcoming grant.grant_date grant.total_shares upcoming
        else upcoming)
    else collect_events as_of grant.vesting_events upcoming

-- The loop that both functions below start with.
unfoldable pub collect_upcoming : ℕ → List EmployeeStockGrant → Dict → Dict
collect_upcoming as_of [] upcoming = upcoming
collect_upcoming as_of (grant ∷ grants) upcoming =
    collect_upcoming as_of grants (collect_grant as_of grant upcoming)

unfoldable pub next_vesting_event : List EmployeeStockGrant → ℕ → Option NextVestingEvent
next_vesting_event grants as_of =
    let upcoming = collect_upcoming as_of grants [] in
    elim (min_key upcoming) [
      | none ↦ none
      | some day ↦ some (record { vest_date = day; shares = get day upcoming })
    ]

abbrev pub to_event : ℕ × ℕ → NextVestingEvent
to_event (day, shares) = record { vest_date = day; shares = shares }

unfoldable pub upcoming_vesting_events : List EmployeeStockGrant → ℕ → ℤ → List NextVestingEvent
upcoming_vesting_events grants as_of limit =
    take (pos_part limit) (map to_event (sorted_items (collect_upcoming as_of grants [])))

unfoldable pub build_grant_summary : EmployeeStockGrant → ℕ → GrantVestingSummary
unfolding compute_grant_vesting
build_grant_summary grant as_of = record {
  grant_id = grant.id;
  grant_date = grant.grant_date;
  total_shares = grant.total_shares;
  vested_shares = (compute_grant_vesting grant as_of).0;
  unvested_shares = (compute_grant_vesting grant as_of).1;
  exercise_price = grant.exercise_price;
}

unfoldable pub build_grant_summaries : List EmployeeStockGrant → ℕ → List GrantVestingSummary
build_grant_summaries [] as_of = []
build_grant_summaries (grant ∷ grants) as_of =
    build_grant_summary grant as_of ∷ build_grant_summaries grants as_of

unfoldable pub aggregate_vesting : List EmployeeStockGrant → ℕ → VestingTotals
aggregate_vesting grants as_of = record {
  total_granted_shares = sum_of (λ grant. grant.total_shares) grants;
  total_vested_shares = sum_of (λ grant. (compute_grant_vesting grant as_of).0) grants;
  total_unvested_shares = sum_of (λ grant. (compute_grant_vesting grant as_of).1) grants;
  next_vesting_event = next_vesting_event grants as_of;
}

-- The rows that the query of `load_active_grants` selects; the database orders them by grant date,
-- latest first, which `rows` already is.
unfoldable pub load_active_grants : List EmployeeStockGrant → ℕ → ℕ → List EmployeeStockGrant
load_active_grants rows org_id membership_id =
    keep
      (λ grant.
        (grant.org_id == org_id)
        && (grant.org_membership_id == membership_id)
        && eq_text grant.status (codes "ACTIVE"))
      rows
