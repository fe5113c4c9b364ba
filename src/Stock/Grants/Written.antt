-- ===== src/Stock/Grants/Written.antt =====
-- What `create_grant` and `update_grant` of app/services/stock_grants.py leave in the store, and
-- what the vesting engine makes of the grants that they write.
use sole_backend.Prelude.{
  ℕ, ◌≤◌, ◌≡◌, ◌⊎◌, inl, inr, refl, subst, Bool, true, false, not, none, some, List, [], ◌∷◌, ◌++◌,
  leb, ◌==◌, if◌then◌else◌, keep, any, elem, All, Bool-cases, Option-cases, ok, arith, passes,
  ok-injective,
}
use sole_backend.Stock.Membership.{OrgMembership, membership_active}
use sole_backend.Stock.Vesting.{
  EmployeeStockGrant, VestingEvent, event_shares, vested_events, is_immediate,
  compute_grant_vesting,
}
use sole_backend.Stock.Vesting.Totals.{event_shares-split}
use sole_backend.Stock.Grants.Rules.{is_immediate_strategy, build_vesting_events}
use sole_backend.Stock.Grants.Accepted.{
  FreshDates, IsWellFormed, build-AreShared, validate-AreShared, is_immediate-strategy,
  is_immediate_strategy-stored,
}
use sole_backend.Stock.Grants.Obeyed.{
  ObeysRules, ObeysKept, build-ObeysRules, build-ObeysKept, validate-ObeysKept,
}
use sole_backend.Stock.Grants.{
  Store, GrantPayload, GrantUpdate, AuditEntry, ensure_membership_active, get_membership,
  make_grant, create_grant, updated_events, apply_update, update_grant, invalidate_stock_caches,
  is_summary_of, apply_vesting_summary, stored_strategy, updated_strategy, or_old, created, updated,
  replace_grant,
}

-- The events of the grant are those that its own strategy, date and total call for.
abbrev pub Obeys : EmployeeStockGrant → Type 0
Obeys grant =
    ObeysRules (is_immediate grant) grant.grant_date grant.total_shares grant.vesting_events

-- The same but for dates that occur twice: either none does, or the events were kept from the old
-- grant and no new ones given.
abbrev pub ObeysAfter : EmployeeStockGrant → GrantUpdate → EmployeeStockGrant → Type 0
ObeysAfter old payload grant =
    ObeysKept (is_immediate grant) grant.grant_date grant.total_shares grant.vesting_events
    × (FreshDates [] grant.vesting_events
        ⊎ ((payload.vesting_events ≡ none) × (grant.vesting_events ≡ old.vesting_events)))

make_grant-ObeysRules :
    (new_id org_id membership_id : ℕ) (payload : GrantPayload) (events : List VestingEvent)
    → build_vesting_events
        (some payload.vesting_strategy)
        payload.grant_date
        payload.total_shares
        payload.vesting_events
      ≡ ok events
    → Obeys (make_grant new_id org_id membership_id payload events)
unfolding make_grant
make_grant-ObeysRules new_id org_id membership_id payload events h =
    let grant = make_grant new_id org_id membership_id payload events in
    rw (is_immediate-strategy grant, is_immediate_strategy-stored (some payload.vesting_strategy))
      (build-ObeysRules (some payload.vesting_strategy) payload.grant_date payload.total_shares
        payload.vesting_events events h)

make_grant-IsWellFormed :
    (new_id org_id membership_id : ℕ) (payload : GrantPayload) (events : List VestingEvent)
    → build_vesting_events
        (some payload.vesting_strategy)
        payload.grant_date
        payload.total_shares
        payload.vesting_events
      ≡ ok events
    → IsWellFormed (make_grant new_id org_id membership_id payload events)
unfolding make_grant
make_grant-IsWellFormed new_id org_id membership_id payload events h =
    let grant = make_grant new_id org_id membership_id payload events in
    rw (is_immediate-strategy grant, is_immediate_strategy-stored (some payload.vesting_strategy))
      (build-AreShared (some payload.vesting_strategy) payload.grant_date payload.total_shares
        payload.vesting_events events h)

stored-updated :
    (payload : GrantUpdate) (grant : EmployeeStockGrant)
    → is_immediate_strategy (stored_strategy payload grant)
      ≡ is_immediate_strategy (updated_strategy payload grant)
stored-updated payload grant = elim (Option-cases payload.vesting_strategy) [
  | inl e ↦ rw e
  | inr (s, e) ↦ rw e (is_immediate_strategy-stored (some s))
]

apply_update-IsWellFormed :
    (grant : EmployeeStockGrant) (payload : GrantUpdate) (events : List VestingEvent)
    → updated_events grant payload ≡ ok events
    → IsWellFormed (apply_update grant payload events)
unfolding apply_update updated_events
apply_update-IsWellFormed grant payload events h =
    rw (is_immediate-strategy (apply_update grant payload events), stored-updated payload grant)
      (elim (Option-cases payload.vesting_events) [
        | inl e ↦
            validate-AreShared grant.vesting_events (updated_strategy payload grant)
              (or_old payload.grant_date grant.grant_date)
              (or_old payload.total_shares grant.total_shares) events (rw (e, updated_events) at h)
        | inr (given, e) ↦
            build-AreShared (updated_strategy payload grant)
              (or_old payload.grant_date grant.grant_date)
              (or_old payload.total_shares grant.total_shares) given events
              (rw (e, updated_events) at h)
      ])

apply_update-ObeysAfter :
    (grant : EmployeeStockGrant) (payload : GrantUpdate) (events : List VestingEvent)
    → updated_events grant payload ≡ ok events
    → ObeysAfter grant payload (apply_update grant payload events)
unfolding apply_update updated_events
apply_update-ObeysAfter grant payload events h =
    rw (is_immediate-strategy (apply_update grant payload events), stored-updated payload grant)
      (elim (Option-cases payload.vesting_events) [
        | inl e ↦
            let kept =
              validate-ObeysKept grant.vesting_events (updated_strategy payload grant)
                (or_old payload.grant_date grant.grant_date)
                (or_old payload.total_shares grant.total_shares) events
                (rw (e, updated_events) at h) in
            (kept.0, inr (e, kept.1))
        | inr (given, e) ↦
            let both =
              build-ObeysKept (is_immediate_strategy (updated_strategy payload grant))
                (or_old payload.grant_date grant.grant_date)
                (or_old payload.total_shares grant.total_shares) events
                (build-ObeysRules (updated_strategy payload grant)
                  (or_old payload.grant_date grant.grant_date)
                  (or_old payload.total_shares grant.total_shares) given events
                  (rw (e, updated_events) at h)) in
            (both.0, inl both.1)
      ])

-- What a call of either service leaves: the rows it is to leave, one more audit entry, the other
-- tables, and no cached summary of the membership if Redis answers.
pub record Wrote (db db' : Store) (org_id membership_id : ℕ) (rows : List EmployeeStockGrant)
    (entry : AuditEntry) : Type 0 where
  pub grants : db'.grants ≡ rows
  pub audit : db'.audit ≡ db.audit ++ entry ∷ []
  pub memberships : db'.memberships ≡ db.memberships
  pub no_summary :
      db.redis_up ≡ true → any (is_summary_of org_id membership_id) db'.summary_cache ≡ false
  pub no_dashboard : db.redis_up ≡ true → elem org_id db'.dashboard_cache ≡ false

any-keep-not {ℓ} :
    {A : Type ℓ} (p : A → Bool) (xs : List A) → any p (keep (λ x. not (p x)) xs) ≡ false
any-keep-not p [] = refl
any-keep-not p (x ∷ xs) = elim (Bool-cases (p x)) [
  | inl e ↦ rw e (any-keep-not p xs)
  | inr e ↦ rw e (rw e (any-keep-not p xs))
]

invalidate-Wrote :
    (db : Store) (org_id membership_id : ℕ) (rows : List EmployeeStockGrant) (entry : AuditEntry)
    → Wrote db
        (invalidate_stock_caches
          (record db { grants = rows; audit = db.audit ++ entry ∷ [] })
          org_id
          membership_id)
        org_id
        membership_id
        rows
        entry
unfolding invalidate_stock_caches
invalidate-Wrote db org_id membership_id rows entry =
    let summaries = any-keep-not (is_summary_of org_id membership_id) db.summary_cache in
    let dashboards = any-keep-not (λ org. org == org_id) db.dashboard_cache in
    elim (Bool-cases db.redis_up) [
      | inl e ↦ rw e (record {
        grants = refl;
        audit = refl;
        memberships = refl;
        no_summary = λ _. summaries;
        no_dashboard = λ _. dashboards;
      })
      | inr e ↦ rw e (record {
        grants = refl;
        audit = refl;
        memberships = refl;
        no_summary = λ u. cc;
        no_dashboard = λ u. cc;
      })
    ]

ensure-active :
    (db : Store) (org_id membership_id : ℕ) (m : OrgMembership)
    → ensure_membership_active db org_id membership_id ≡ ok m
    → (get_membership db org_id membership_id ≡ some m) × (membership_active m ≡ true)
unfolding ensure_membership_active
ensure-active db org_id membership_id m h =
    elim (Option-cases (get_membership db org_id membership_id)) [
      | inl e ↦ cc (h, e)
      | inr (x, e) ↦ ground arith
    ]

-- The columns of a grant that its payload and its call name.
abbrev pub HasColumns : ℕ → ℕ → ℕ → GrantPayload → EmployeeStockGrant → Type 0
HasColumns org_id new_id membership_id payload grant =
    (grant.id ≡ new_id)
    × (grant.org_id ≡ org_id)
    × (grant.org_membership_id ≡ membership_id)
    × (grant.grant_date ≡ payload.grant_date)
    × (grant.total_shares ≡ payload.total_shares)
    × (grant.exercise_price ≡ payload.exercise_price)

abbrev pub IsCreated : Store → ℕ → ℕ → ℕ → ℕ → GrantPayload → EmployeeStockGrant × Store → Type 0
IsCreated db org_id actor_id new_id membership_id payload (grant, db') =
    (IsWellFormed grant × Obeys grant)
    × HasColumns org_id new_id membership_id payload grant
    × Wrote db db' org_id membership_id (db.grants ++ grant ∷ [])
        (record { actor_id = actor_id; action = created; old_value = none; new_value = grant })
    × ((m : OrgMembership) × (get_membership db org_id membership_id ≡ some m)
        × (membership_active m ≡ true))

-- A grant that `create_grant` returns is new at the end of the table, with the identifier,
-- organisation, membership, date, total and price of the call; the membership is an active one of
-- the organisation. Its events obey the rules: an immediate grant has one event with the total on
-- its date, any other some events on different dates, none before its date, which add up to the
-- total. The grant is in the audit log once more; with Redis up, no summary of the membership and no
-- dashboard of the organisation stays cached.
pub create_grant-Wrote :
    (db : Store) (org_id actor_id new_id membership_id : ℕ) (payload : GrantPayload)
    → (grant : EmployeeStockGrant) (db' : Store)
    → create_grant db org_id actor_id new_id membership_id payload ≡ ok (grant, db')
    → IsCreated db org_id actor_id new_id membership_id payload (grant, db')
unfolding create_grant
create_grant-Wrote db org_id actor_id new_id membership_id payload grant db' h =
    let (m, active, h1) = passes (ensure_membership_active db org_id membership_id) _ h in
    let (events, built, h2) =
      passes
        (build_vesting_events (some payload.vesting_strategy) payload.grant_date
          payload.total_shares payload.vesting_events)
        _ h1 in
    let member = ensure-active db org_id membership_id m active in
    subst (IsCreated db org_id actor_id new_id membership_id payload) (ok-injective h2) (
      (
        make_grant-IsWellFormed new_id org_id membership_id payload events built,
        make_grant-ObeysRules new_id org_id membership_id payload events built,
      ),
      unfold make_grant in (refl, refl, refl, refl, refl, refl),
      invalidate-Wrote db org_id membership_id _ _,
      (m, member.0, member.1),
    )

abbrev pub IsUpdated :
    Store → ℕ → ℕ → EmployeeStockGrant → GrantUpdate → EmployeeStockGrant × Store → Type 0
IsUpdated db org_id actor_id old payload (grant, db') =
    (IsWellFormed grant × ObeysAfter old payload grant)
    × (grant.id ≡ old.id)
    × (grant.org_membership_id ≡ old.org_membership_id)
    × Wrote db db' org_id old.org_membership_id (replace_grant grant db.grants)
        (record { actor_id = actor_id; action = updated; old_value = some old; new_value = grant })

-- A grant that `update_grant` returns has the events that its new strategy, date and total call for,
-- whatever the old grant was and whichever fields were set: at once, one event with the total on its
-- date; else some events, none before its date, which add up to the total. Their dates differ, or
-- no events were given and they are those of the old grant. The grant keeps its identifier and its
-- membership, and takes the place of the old row. The audit log has both versions, and the caches
-- are dropped as on creation.
pub update_grant-Wrote :
    (db : Store) (org_id actor_id : ℕ) (old : EmployeeStockGrant) (payload : GrantUpdate)
    → (grant : EmployeeStockGrant) (db' : Store)
    → update_grant db org_id actor_id old payload ≡ ok (grant, db')
    → IsUpdated db org_id actor_id old payload (grant, db')
unfolding update_grant
update_grant-Wrote db org_id actor_id old payload grant db' h =
    let (m, active, h1) = passes (ensure_membership_active db org_id old.org_membership_id) _ h in
    let (events, built, h2) = passes (updated_events old payload) _ h1 in
    subst (IsUpdated db org_id actor_id old payload) (ok-injective h2) (
      (
        apply_update-IsWellFormed old payload events built,
        apply_update-ObeysAfter old payload events built,
      ),
      unfold apply_update in refl,
      unfold apply_update in refl,
      invalidate-Wrote db org_id old.org_membership_id _ _,
    )

vested_events_past :
    (as_of : ℕ) (events : List VestingEvent)
    → All (λ event. event.vest_date ≤ as_of) events
    → event_shares (vested_events as_of events) ≡ event_shares events
vested_events_past as_of [] h = refl
vested_events_past as_of (event ∷ events) h = ground (arith, vested_events_past as_of events h.1)

on_date :
    (as_of grant_date : ℕ) (events : List VestingEvent)
    → All (λ event. event.vest_date ≡ grant_date) events
    → event_shares (vested_events as_of events)
      ≡ (if leb grant_date as_of then event_shares events else 0)
on_date as_of grant_date [] h = ground arith
on_date as_of grant_date (event ∷ events) h = ground (arith, on_date as_of grant_date events h.1)

-- For a grant that obeys its rules, the figures that the grant service shows are those of the
-- vesting engine, on every date.
pub apply_vesting_summary-agrees :
    (grant : EmployeeStockGrant) (as_of : ℕ)
    → IsWellFormed grant
    → ((apply_vesting_summary grant as_of).vested_shares ≡ (compute_grant_vesting grant as_of).0)
      × ((apply_vesting_summary grant as_of).unvested_shares
          ≡ (compute_grant_vesting grant as_of).1)
unfolding apply_vesting_summary compute_grant_vesting
apply_vesting_summary-agrees grant as_of w =
    let split = event_shares-split as_of grant.vesting_events in
    elim (Bool-cases (is_immediate grant)) [
      | inl i ↦
          let once = on_date as_of grant.grant_date grant.vesting_events (w.on_grant_date i) in
          rw i (ground arith, ground arith)
      | inr i ↦ rw i (ground arith, ground arith)
    ]

-- Once the last event's date has come, a grant that obeys its rules has vested in full.
pub vests_in_full :
    (grant : EmployeeStockGrant) (as_of : ℕ)
    → IsWellFormed grant
    → grant.grant_date ≤ as_of
    → All (λ event. event.vest_date ≤ as_of) grant.vesting_events
    → compute_grant_vesting grant as_of ≡ (grant.total_shares, 0)
unfolding compute_grant_vesting
vests_in_full grant as_of w started past =
    let every = vested_events_past as_of grant.vesting_events past in ground arith
