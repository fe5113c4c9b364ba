-- ===== src/Stock/Grants.antt =====
-- app/services/stock_grants.py. The tables are lists of rows; a new identifier (`uuid4`) and
-- today's date are arguments. In a payload, `none` is a field that was not set. The events of a
-- returned grant stand in the order of the payload; the source reads them back ordered by date,
-- which nothing that is modelled depends on.
pub mod Rules
pub mod Accepted
pub mod Obeyed
pub mod Written
use sole_backend.Prelude.{
  ℕ, ◌+◌, ◌-◌, Bool, true, false, ◌&&◌, not, Option, none, some, List, [], ◌∷◌, ◌++◌, ltb, leb,
  ◌==◌, if◌then◌else◌, Text, codes, eq_text, upper, keep, any, elem, find_first, map, length,
  Result, ok, err, ◌>>=◌, ◌>>◌, raise_if, or_raise,
}
use sole_backend.Stock.Membership.{OrgMembership, membership_active}
use sole_backend.Stock.Vesting.{
  EmployeeStockGrant, VestingEvent, NextVestingEvent, vested_events, event_shares,
}
use Rules.{
  GrantError, build_vesting_events, validate_existing_events, next_event, normalize_strategy,
}

pub record GrantPayload : Type 0 where
  pub grant_date : ℕ
  pub total_shares : ℕ
  pub exercise_price : ℕ
  pub vesting_strategy : Text
  pub vesting_events : List VestingEvent

pub record GrantUpdate : Type 0 where
  pub grant_date : Option ℕ
  pub total_shares : Option ℕ
  pub exercise_price : Option ℕ
  pub status : Option Text
  pub vesting_strategy : Option Text
  pub vesting_events : Option (List VestingEvent)

pub data Action : Type 0 where
  created updated : Action

-- An entry of the audit log: the action, the grant as it was, and as it is.
pub record AuditEntry : Type 0 where
  pub actor_id : ℕ
  pub action : Action
  pub old_value : Option EmployeeStockGrant
  pub new_value : EmployeeStockGrant

-- A key of the stock summary cache: organisation, membership and date.
pub record CacheKey : Type 0 where
  pub org_id : ℕ
  pub membership_id : ℕ
  pub as_of_date : ℕ

pub record Store : Type 0 where
  pub memberships : List OrgMembership
  pub grants : List EmployeeStockGrant
  pub audit : List AuditEntry
  pub summary_cache : List CacheKey
  -- The organisations whose dashboard is cached.
  pub dashboard_cache : List ℕ
  -- Whether Redis answers; where it does not, the caches are left as they are.
  pub redis_up : Bool

unfoldable pub get_membership : Store → ℕ → ℕ → Option OrgMembership
get_membership db org_id membership_id =
    find_first (λ m. (m.id == membership_id) && (m.org_id == org_id)) db.memberships

abbrev pub is_summary_of : ℕ → ℕ → CacheKey → Bool
is_summary_of org_id membership_id key =
    (key.org_id == org_id) && (key.membership_id == membership_id)

-- The summaries of one membership and the dashboard of its organisation are dropped. A Redis error
-- is logged and ignored.
unfoldable pub invalidate_stock_caches : Store → ℕ → ℕ → Store
invalidate_stock_caches db org_id membership_id =
    if db.redis_up
    then record db {
      summary_cache = keep (λ key. not (is_summary_of org_id membership_id key)) db.summary_cache;
      dashboard_cache = keep (λ org. not (org == org_id)) db.dashboard_cache;
    }
    else db

unfoldable pub ensure_membership_active : Store → ℕ → ℕ → Result GrantError OrgMembership
ensure_membership_active db org_id membership_id = do
  membership ← or_raise (get_membership db org_id membership_id) GrantError.membership_not_found
  raise_if (not (membership_active membership)) GrantError.membership_inactive
  ok membership

unfoldable pub make_grant : ℕ → ℕ → ℕ → GrantPayload → List VestingEvent → EmployeeStockGrant
make_grant new_id org_id membership_id payload events = record {
  id = new_id;
  org_id = org_id;
  org_membership_id = membership_id;
  grant_date = payload.grant_date;
  total_shares = payload.total_shares;
  exercise_price = payload.exercise_price;
  status = codes "ACTIVE";
  vesting_strategy = some (normalize_strategy (some payload.vesting_strategy));
  vesting_events = events;
}

-- The stored grant, and the store with its row, its audit entry and the caches dropped.
unfoldable pub create_grant :
    Store → ℕ → ℕ → ℕ → ℕ → GrantPayload → Result GrantError (EmployeeStockGrant × Store)
create_grant db org_id actor_id new_id membership_id payload = do
  _ ← ensure_membership_active db org_id membership_id
  events ←
      build_vesting_events (some payload.vesting_strategy) payload.grant_date payload.total_shares
        payload.vesting_events
  let grant = make_grant new_id org_id membership_id payload events
  let entry : AuditEntry = record {
    actor_id = actor_id;
    action = created;
    old_value = none;
    new_value = grant;
  }
  let written = record db { grants = db.grants ++ grant ∷ []; audit = db.audit ++ entry ∷ [] }
  ok (grant, invalidate_stock_caches written org_id membership_id)

abbrev pub or_old {ℓ} : {A : Type ℓ} → Option A → A → A
or_old none old = old
or_old (some new) old = new

abbrev updated_strategy : GrantUpdate → EmployeeStockGrant → Option Text
updated_strategy payload grant = elim payload.vesting_strategy [
  | none ↦ grant.vesting_strategy
  | some s ↦ some s
]

-- The events after the update: new ones that pass the rules, or the old ones, checked again.
unfoldable pub updated_events :
    EmployeeStockGrant → GrantUpdate → Result GrantError (List VestingEvent)
updated_events grant payload =
    let strategy = updated_strategy payload grant in
    let grant_date = or_old payload.grant_date grant.grant_date in
    let total_shares = or_old payload.total_shares grant.total_shares in
    elim payload.vesting_events [
      | some events ↦ build_vesting_events strategy grant_date total_shares events
      | none ↦ validate_existing_events grant.vesting_events strategy grant_date total_shares
    ]

abbrev stored_strategy : GrantUpdate → EmployeeStockGrant → Option Text
stored_strategy payload grant = elim payload.vesting_strategy [
  | none ↦ grant.vesting_strategy
  | some s ↦ some (normalize_strategy (some s))
]

unfoldable pub apply_update :
    EmployeeStockGrant → GrantUpdate → List VestingEvent → EmployeeStockGrant
apply_update grant payload events = record grant {
  grant_date = or_old payload.grant_date grant.grant_date;
  total_shares = or_old payload.total_shares grant.total_shares;
  exercise_price = or_old payload.exercise_price grant.exercise_price;
  status = or_old payload.status grant.status;
  vesting_strategy = stored_strategy payload grant;
  vesting_events = events;
}

abbrev replace_grant : EmployeeStockGrant → List EmployeeStockGrant → List EmployeeStockGrant
replace_grant grant = map (λ row. if row.id == grant.id then grant else row)

unfoldable pub update_grant :
    Store
    → ℕ
    → ℕ
    → EmployeeStockGrant
    → GrantUpdate
    → Result GrantError (EmployeeStockGrant × Store)
update_grant db org_id actor_id grant payload = do
  _ ← ensure_membership_active db org_id grant.org_membership_id
  events ← updated_events grant payload
  let new = apply_update grant payload events
  let entry : AuditEntry = record {
    actor_id = actor_id;
    action = updated;
    old_value = some grant;
    new_value = new;
  }
  let written = record db { grants = replace_grant new db.grants; audit = db.audit ++ entry ∷ [] }
  ok (new, invalidate_stock_caches written org_id grant.org_membership_id)

-- The figures that `_apply_vesting_summary` hangs on a grant: vested, unvested, next event.
pub record VestingSummary : Type 0 where
  pub vested_shares : ℕ
  pub unvested_shares : ℕ
  pub next_vesting_event : Option NextVestingEvent

unfoldable pub apply_vesting_summary : EmployeeStockGrant → ℕ → VestingSummary
apply_vesting_summary grant as_of_date =
    let vested = event_shares (vested_events as_of_date grant.vesting_events) in
    record {
      vested_shares = vested;
      unvested_shares = grant.total_shares - vested;
      next_vesting_event =
          next_event grant.vesting_strategy grant.grant_date grant.total_shares grant.vesting_events
            as_of_date;
    }

-- `preview_grant`: the checked events and the next one to vest.
unfoldable pub preview_grant :
    GrantPayload → ℕ → Result GrantError (List VestingEvent × Option NextVestingEvent)
preview_grant payload as_of_date = do
  events ←
      build_vesting_events (some payload.vesting_strategy) payload.grant_date payload.total_shares
        payload.vesting_events
  ok (
    events,
    next_event (some payload.vesting_strategy) payload.grant_date payload.total_shares events
        as_of_date,
  )
