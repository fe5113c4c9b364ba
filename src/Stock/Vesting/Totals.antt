-- ===== src/Stock/Vesting/Totals.antt =====
-- The sums of app/services/vesting_engine.py: `aggregate_vesting` and `build_grant_summaries`.
use sole_backend.Prelude.{
  ℕ, ◌+◌, ◌≤◌, ◌≡◌, refl, List, [], ◌∷◌, ltb, keep, sum_of, arith, Bool-cases, inl, inr,
}
use sole_backend.Stock.Vesting.{
  VestingEvent, EmployeeStockGrant, vested_events, event_shares, is_immediate,
  compute_grant_vesting, build_grant_summary, build_grant_summaries, aggregate_vesting,
}

-- Events that have not vested by a date.
abbrev pub pending_events : ℕ → List VestingEvent → List VestingEvent
pending_events as_of = keep (λ event. ltb as_of event.vest_date)

pub event_shares-split :
    (as_of : ℕ) (events : List VestingEvent)
    → event_shares events
      ≡ event_shares (vested_events as_of events) + event_shares (pending_events as_of events)
event_shares-split as_of [] = refl
event_shares-split as_of (event ∷ events) = ground (arith, event_shares-split as_of events)

event_shares_mono :
    (as_of later : ℕ) (events : List VestingEvent)
    → as_of ≤ later
    → event_shares (vested_events as_of events) ≤ event_shares (vested_events later events)
event_shares_mono as_of later [] h = omega arith
event_shares_mono as_of later (event ∷ events) h =
    ground (arith, event_shares_mono as_of later events h)

pub compute_grant_vesting-split :
    (grant : EmployeeStockGrant) (as_of : ℕ)
    → (compute_grant_vesting grant as_of).0 + (compute_grant_vesting grant as_of).1
      ≡ grant.total_shares
unfolding compute_grant_vesting
compute_grant_vesting-split grant as_of = omega arith

compute_grant_vesting_mono :
    (grant : EmployeeStockGrant) (as_of later : ℕ)
    → as_of ≤ later
    → (compute_grant_vesting grant as_of).0 ≤ (compute_grant_vesting grant later).0
unfolding compute_grant_vesting
compute_grant_vesting_mono grant as_of later h = elim (Bool-cases (is_immediate grant)) [
  | inl e ↦ rw e (ground arith)
  | inr e ↦ rw e (omega (arith, event_shares_mono as_of later grant.vesting_events h))
]

-- Every granted share is counted once, as vested or as unvested, whatever the grants and the date.
pub aggregate_split :
    (grants : List EmployeeStockGrant) (as_of : ℕ)
    → (aggregate_vesting grants as_of).total_vested_shares
        + (aggregate_vesting grants as_of).total_unvested_shares
      ≡ (aggregate_vesting grants as_of).total_granted_shares
unfolding aggregate_vesting
aggregate_split [] as_of = refl
aggregate_split (grant ∷ grants) as_of =
    omega (arith, compute_grant_vesting-split grant as_of, aggregate_split grants as_of)

-- Vested shares never fall as the date moves on, and unvested shares never rise.
pub aggregate_mono :
    (grants : List EmployeeStockGrant) (as_of later : ℕ)
    → as_of ≤ later
    → ((aggregate_vesting grants as_of).total_vested_shares
        ≤ (aggregate_vesting grants later).total_vested_shares)
      × ((aggregate_vesting grants later).total_unvested_shares
          ≤ (aggregate_vesting grants as_of).total_unvested_shares)
unfolding aggregate_vesting
aggregate_mono [] as_of later h = (omega arith, omega arith)
aggregate_mono (grant ∷ grants) as_of later h =
    let rest = aggregate_mono grants as_of later h in
    let step = compute_grant_vesting_mono grant as_of later h in
    let now = compute_grant_vesting-split grant as_of in
    let then_ = compute_grant_vesting-split grant later in (omega arith, omega arith)

-- The summaries of the grants add up to the totals that `aggregate_vesting` reports.
pub summaries_total :
    (grants : List EmployeeStockGrant) (as_of : ℕ)
    → (sum_of (λ summary. summary.vested_shares) (build_grant_summaries grants as_of)
        ≡ (aggregate_vesting grants as_of).total_vested_shares)
      × (sum_of (λ summary. summary.unvested_shares) (build_grant_summaries grants as_of)
          ≡ (aggregate_vesting grants as_of).total_unvested_shares)
unfolding aggregate_vesting build_grant_summaries build_grant_summary
summaries_total [] as_of = (refl, refl)
summaries_total (grant ∷ grants) as_of =
    let rest = summaries_total grants as_of in (omega arith, omega arith)
