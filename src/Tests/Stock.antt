-- ===== src/Tests/Stock.antt =====
-- The stock programme at concrete inputs.
use sole_backend.Prelude.{
  ℕ, ◌≤◌, ◌≡◌, ◌↔◌, refl, inl, inr, true, false, none, some, List, [], ◌∷◌, codes, head?, length,
  sum_of, eq_text, upper, ok, arith,
}
use sole_backend.Prelude.Int.{pos}
use sole_backend.Decimal.{digits_below, digits, half_even, fix, div, less}
use sole_backend.Stock.Membership.{OrgMembership, is_active_text, membership_active}
use sole_backend.Stock.Vesting.Dates.{get, put, insert_item, sorted_items}
use sole_backend.Stock.Vesting.{
  EmployeeStockGrant, VestingEvent, is_immediate, compute_grant_vesting, aggregate_vesting,
  next_vesting_event, upcoming_vesting_events, collect_upcoming, normalize_strategy, collect_events,
  collect_grant,
}
use sole_backend.Stock.Vesting.Totals.{aggregate_mono}
use sole_backend.Stock.Vesting.Upcoming.{next-eq-head, upcoming_sorted, upcoming_total, RisingAfter}
use sole_backend.Stock.Grants
use sole_backend.Stock.Grants.{
  Store, GrantPayload, GrantUpdate, create_grant, update_grant, make_grant, apply_vesting_summary,
  ensure_membership_active, get_membership, invalidate_stock_caches, updated_events, apply_update,
}
use sole_backend.Stock.Grants.Rules
use sole_backend.Stock.Grants.Rules.{
  build_vesting_events, is_immediate_strategy, scheduled_events, has_same_date, immediate_events,
  validate_existing_events, check_scheduled,
}
use sole_backend.Stock.Grants.Accepted.{IsWellFormed, IsSchedule, build_scheduled_iff}
use sole_backend.Stock.Grants.Written.{
  IsCreated, IsUpdated, create_grant-Wrote, update_grant-Wrote, apply_vesting_summary-agrees,
  vests_in_full,
}
use sole_backend.Stock.Eligibility.{StockPolicy, evaluate_eligibility_from_totals, service_short}
use sole_backend.Stock.Eligibility.Reasons.{eligible_iff, ReadsActive, Served, HasVested}

abbrev pub event : ℕ → ℕ → VestingEvent
event day n = record { vest_date = day; shares = n }

abbrev pub scheduled : EmployeeStockGrant
scheduled = record {
  id = 1;
  org_id = 7;
  org_membership_id = 3;
  grant_date = 50;
  total_shares = 30;
  exercise_price = 1250000;
  status = codes "ACTIVE";
  vesting_strategy = some (codes "SCHEDULED");
  vesting_events = event 200 20 ∷ event 100 10 ∷ [];
}

abbrev pub at_once : EmployeeStockGrant
at_once = record {
  id = 2;
  org_id = 7;
  org_membership_id = 3;
  grant_date = 200;
  total_shares = 5;
  exercise_price = 2000000;
  status = codes "ACTIVE";
  vesting_strategy = some (codes "immediate");
  vesting_events = event 200 5 ∷ [];
}

abbrev pub portfolio : List EmployeeStockGrant
portfolio = scheduled ∷ at_once ∷ []

upcoming_run :
    upcoming_vesting_events portfolio 60 (pos 3)
    ≡ record { vest_date = 100; shares = 10 } ∷ record { vest_date = 200; shares = 25 } ∷ []
unfolding upcoming_vesting_events collect_upcoming collect_grant collect_events sorted_items
    insert_item get put is_immediate normalize_strategy eq_text upper
upcoming_run = refl

aggregate_mono_example :
    ((aggregate_vesting portfolio 60).total_vested_shares
      ≤ (aggregate_vesting portfolio 150).total_vested_shares)
    × ((aggregate_vesting portfolio 150).total_unvested_shares
        ≤ (aggregate_vesting portfolio 60).total_unvested_shares)
aggregate_mono_example = aggregate_mono portfolio 60 150 (omega arith)

next-eq-head_example :
    next_vesting_event portfolio 60 ≡ head? (upcoming_vesting_events portfolio 60 (pos 3))
next-eq-head_example = next-eq-head portfolio 60 2

upcoming_sorted_example :
    RisingAfter 60 (upcoming_vesting_events portfolio 60 (pos 3))
    × (length (upcoming_vesting_events portfolio 60 (pos 3)) ≤ 3)
upcoming_sorted_example = upcoming_sorted portfolio 60 (pos 3)

upcoming_total_example :
    sum_of (λ e. e.shares) (upcoming_vesting_events portfolio 60 (pos 2))
    ≡ (aggregate_vesting portfolio 60).total_unvested_shares
unfolding is_immediate normalize_strategy eq_text upper collect_upcoming collect_grant
    collect_events get put
upcoming_total_example = upcoming_total portfolio 60 2 (inr refl, (inl refl, tt)) (omega arith)

abbrev pub employee : OrgMembership
employee = record {
  id = 3;
  org_id = 7;
  user_id = 9;
  employment_start_date = some 10;
  employment_status = some (codes "active");
  platform_status = some (codes "ACTIVE");
}

abbrev store : Store
store = record {
  memberships = employee ∷ [];
  grants = scheduled ∷ [];
  audit = [];
  summary_cache = record { org_id = 7; membership_id = 3; as_of_date = 60 } ∷ [];
  dashboard_cache = 7 ∷ 8 ∷ [];
  redis_up = true;
}

abbrev payload : GrantPayload
payload = record {
  grant_date = 60;
  total_shares = 8;
  exercise_price = 1000000;
  vesting_strategy = codes "SCHEDULED";
  vesting_events = event 90 3 ∷ event 120 5 ∷ [];
}

abbrev new_grant : EmployeeStockGrant
new_grant = record {
  id = 4;
  org_id = 7;
  org_membership_id = 3;
  grant_date = 60;
  total_shares = 8;
  exercise_price = 1000000;
  status = codes "ACTIVE";
  vesting_strategy = some (codes "SCHEDULED");
  vesting_events = event 90 3 ∷ event 120 5 ∷ [];
}

abbrev after_create : Store
after_create = record {
  memberships = employee ∷ [];
  grants = scheduled ∷ new_grant ∷ [];
  audit =
      record { actor_id = 1; action = Grants.created; old_value = none; new_value = new_grant }
      ∷ [];
  summary_cache = [];
  dashboard_cache = 8 ∷ [];
  redis_up = true;
}

create_run : create_grant store 7 1 4 3 payload ≡ ok (new_grant, after_create)
unfolding create_grant ensure_membership_active get_membership membership_active is_active_text
    build_vesting_events is_immediate_strategy scheduled_events has_same_date make_grant
    Rules.normalize_strategy invalidate_stock_caches eq_text upper
create_run = refl

create_grant-Wrote_example : IsCreated store 7 1 4 3 payload (new_grant, after_create)
create_grant-Wrote_example =
    create_grant-Wrote store 7 1 4 3 payload new_grant after_create create_run

abbrev shift : GrantUpdate
shift = record {
  grant_date = some 40;
  total_shares = none;
  exercise_price = none;
  status = none;
  vesting_strategy = none;
  vesting_events = none;
}

abbrev moved : EmployeeStockGrant
moved = record scheduled { grant_date = 40 }

abbrev after_update : Store
after_update = record {
  memberships = employee ∷ [];
  grants = moved ∷ [];
  audit =
      record {
        actor_id = 1;
        action = Grants.updated;
        old_value = some scheduled;
        new_value = moved;
      }
      ∷ [];
  summary_cache = [];
  dashboard_cache = 8 ∷ [];
  redis_up = true;
}

update_run : update_grant store 7 1 scheduled shift ≡ ok (moved, after_update)
unfolding update_grant ensure_membership_active get_membership membership_active is_active_text
    updated_events validate_existing_events check_scheduled is_immediate_strategy apply_update
    Rules.normalize_strategy invalidate_stock_caches eq_text upper
update_run = refl

update_grant-Wrote_example : IsUpdated store 7 1 scheduled shift (moved, after_update)
update_grant-Wrote_example =
    update_grant-Wrote store 7 1 scheduled shift moved after_update update_run

scheduled-IsWellFormed : IsWellFormed scheduled
unfolding is_immediate normalize_strategy eq_text upper
scheduled-IsWellFormed = record { shares = refl; not_before = omega arith; on_grant_date = λ e. cc }

apply_vesting_summary-agrees_example :
    ((apply_vesting_summary scheduled 150).vested_shares ≡ (compute_grant_vesting scheduled 150).0)
    × ((apply_vesting_summary scheduled 150).unvested_shares
        ≡ (compute_grant_vesting scheduled 150).1)
apply_vesting_summary-agrees_example =
    apply_vesting_summary-agrees scheduled 150 scheduled-IsWellFormed

vests_in_full_example : compute_grant_vesting scheduled 200 ≡ (30, 0)
vests_in_full_example =
    vests_in_full scheduled 200 scheduled-IsWellFormed (omega arith) (omega arith)

build_scheduled_iff_example :
    (build_vesting_events (some (codes "SCHEDULED")) 60 8 payload.vesting_events
      ≡ ok payload.vesting_events)
    ↔ IsSchedule 60 8 payload.vesting_events
unfolding is_immediate_strategy Rules.normalize_strategy eq_text upper
build_scheduled_iff_example =
    build_scheduled_iff (some (codes "SCHEDULED")) 60 8 payload.vesting_events refl

abbrev pub policy : StockPolicy
policy = record {
  enforce_service_duration_rule = true;
  min_service_duration_years = some 100;
  enforce_min_vested_to_exercise = true;
  min_vested_shares_to_exercise = some 10;
}

-- One year of 365.25 days takes 366 days.
service_run : (service_short (pos 365) 100 ≡ true) × (service_short (pos 366) 100 ≡ false)
unfolding service_short less div fix digits digits_below half_even
service_run = (refl, refl)

eligible_iff_example :
    ((evaluate_eligibility_from_totals employee policy
        (aggregate_vesting portfolio 150)
        400).eligible_to_exercise
      ≡ true)
    ↔ ((ReadsActive employee.employment_status × ReadsActive employee.platform_status)
        × Served employee policy 400
        × HasVested policy (aggregate_vesting portfolio 150))
eligible_iff_example = eligible_iff employee policy (aggregate_vesting portfolio 150) 400
