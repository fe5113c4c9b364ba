-- ===== src/Stock/Vesting/Upcoming.antt =====
-- What `next_vesting_event` and `upcoming_vesting_events` of app/services/vesting_engine.py promise.
use sole_backend.Prelude.{
  ℕ, zero, suc, ◌+◌, ◌≤◌, ◌<◌, ◌≡◌, refl, ap, ◌∙◌, ◌⊎◌, true, inl, inr, Option, none, some, List,
  [], ◌∷◌, ltb, Bool-cases, All, length, take, take-all, head?, map, sum_of, arith,
}
use sole_backend.Prelude.Int.{ℤ, pos, pos_part}
use sole_backend.Stock.Vesting.Dates.{
  Dict, total, AtLeast, Distinct, Rising, least, put-Distinct, put-AtLeast, total-put, sorted_items,
  sorted_items-AtLeast, sorted_items-Rising, total-sorted_items, length-sorted_items, least-head,
}
use sole_backend.Stock.Vesting.Totals.{pending_events, event_shares-split}
use sole_backend.Stock.Vesting.{
  VestingEvent, EmployeeStockGrant, NextVestingEvent, is_immediate, event_shares,
  compute_grant_vesting, collect_events, collect_grant, collect_upcoming, add_upcoming, to_event,
  next_vesting_event, upcoming_vesting_events, aggregate_vesting,
}

-- What the loops keep: no day twice, and every day later than the date.
abbrev IsUpcoming : ℕ → Dict → Type 0
IsUpcoming as_of dict = Distinct dict × AtLeast (suc as_of) dict

add-IsUpcoming :
    (as_of day shares : ℕ) (dict : Dict)
    → as_of < day
    → IsUpcoming as_of dict
    → IsUpcoming as_of (add_upcoming day shares dict)
add-IsUpcoming as_of day shares dict h inv =
    (put-Distinct day _ dict inv.0, put-AtLeast (suc as_of) day _ dict h inv.1)

collect_events-IsUpcoming :
    (as_of : ℕ) (events : List VestingEvent) (dict : Dict)
    → IsUpcoming as_of dict
    → IsUpcoming as_of (collect_events as_of events dict)
unfolding collect_events
collect_events-IsUpcoming as_of [] dict inv = inv
collect_events-IsUpcoming as_of (event ∷ events) dict inv =
    elim (Bool-cases (ltb as_of event.vest_date)) [
      | inl e ↦ rw e (
          collect_events-IsUpcoming as_of events _
            (add-IsUpcoming as_of event.vest_date event.shares dict (ground arith) inv))
      | inr e ↦ rw e (collect_events-IsUpcoming as_of events dict inv)
    ]

collect_grant-IsUpcoming :
    (as_of : ℕ) (grant : EmployeeStockGrant) (dict : Dict)
    → IsUpcoming as_of dict
    → IsUpcoming as_of (collect_grant as_of grant dict)
unfolding collect_grant
collect_grant-IsUpcoming as_of grant dict inv = elim (Bool-cases (is_immediate grant)) [
  | inl i ↦ rw i (elim (Bool-cases (ltb as_of grant.grant_date)) [
    | inl e ↦
        rw e (add-IsUpcoming as_of grant.grant_date grant.total_shares dict (ground arith) inv)
    | inr e ↦ rw e inv
  ])
  | inr i ↦ rw i (collect_events-IsUpcoming as_of grant.vesting_events dict inv)
]

collect_upcoming-IsUpcoming :
    (as_of : ℕ) (grants : List EmployeeStockGrant) (dict : Dict)
    → IsUpcoming as_of dict
    → IsUpcoming as_of (collect_upcoming as_of grants dict)
unfolding collect_upcoming
collect_upcoming-IsUpcoming as_of [] dict inv = inv
collect_upcoming-IsUpcoming as_of (grant ∷ grants) dict inv =
    collect_upcoming-IsUpcoming as_of grants _ (collect_grant-IsUpcoming as_of grant dict inv)

collect_upcoming_all-IsUpcoming :
    (as_of : ℕ) (grants : List EmployeeStockGrant)
    → IsUpcoming as_of (collect_upcoming as_of grants [])
collect_upcoming_all-IsUpcoming as_of grants = collect_upcoming-IsUpcoming as_of grants [] (tt, tt)

abbrev to_next : Option (ℕ × ℕ) → Option NextVestingEvent
to_next none = none
to_next (some item) = some (to_event item)

next-least :
    (grants : List EmployeeStockGrant) (as_of : ℕ)
    → next_vesting_event grants as_of ≡ to_next (least (collect_upcoming as_of grants []))
unfolding next_vesting_event
next-least grants as_of = ground arith

head-take-map :
    (n : ℕ) (dict : Dict) → to_next (head? dict) ≡ head? (take (suc n) (map to_event dict))
head-take-map n [] = refl
head-take-map n (item ∷ dict) = refl

-- The next event is the first of the upcoming ones, for every positive limit.
pub next-eq-head :
    (grants : List EmployeeStockGrant) (as_of n : ℕ)
    → next_vesting_event grants as_of ≡ head? (upcoming_vesting_events grants as_of (pos (suc n)))
unfolding upcoming_vesting_events
next-eq-head grants as_of n =
    let dict = collect_upcoming as_of grants [] in
    next-least grants as_of
    ∙ ap to_next (least-head dict (collect_upcoming_all-IsUpcoming as_of grants).0)
    ∙ head-take-map n (sorted_items dict)

-- Strictly rising dates, all after `bound`.
abbrev pub RisingAfter : ℕ → List NextVestingEvent → Type 0
RisingAfter bound [] = Unit
RisingAfter bound (event ∷ events) = (bound < event.vest_date) × RisingAfter event.vest_date events

RisingAfter-take :
    (n bound : ℕ) (dict : Dict)
    → AtLeast (suc bound) dict
    → Rising dict
    → RisingAfter bound (take n (map to_event dict))
RisingAfter-take zero bound dict h r = tt
RisingAfter-take (suc n) bound [] h r = tt
RisingAfter-take (suc n) bound ((d, m) ∷ dict) h r = (h.0, RisingAfter-take n d dict r.0 r.1)

length-take-le {ℓ} : {A : Type ℓ} (n : ℕ) (xs : List A) → length (take n xs) ≤ n
length-take-le zero xs = omega arith
length-take-le (suc n) [] = omega arith
length-take-le (suc n) (x ∷ xs) = omega (arith, length-take-le n xs)

-- At most `limit` events are listed (none for a negative limit), one for a day, in the order of
-- their dates, and each after the date that is asked about.
pub upcoming_sorted :
    (grants : List EmployeeStockGrant) (as_of : ℕ) (limit : ℤ)
    → RisingAfter as_of (upcoming_vesting_events grants as_of limit)
      × (length (upcoming_vesting_events grants as_of limit) ≤ pos_part limit)
unfolding upcoming_vesting_events
upcoming_sorted grants as_of limit =
    let dict = collect_upcoming as_of grants [] in
    let inv = collect_upcoming_all-IsUpcoming as_of grants in
    (
      RisingAfter-take (pos_part limit) as_of (sorted_items dict)
          (sorted_items-AtLeast (suc as_of) dict inv.1) (sorted_items-Rising dict inv.0),
      length-take-le (pos_part limit) (map to_event (sorted_items dict)),
    )

-- A scheduled grant whose events share out exactly its total, or a grant that vests at once.
abbrev pub IsShared : EmployeeStockGrant → Type 0
IsShared grant =
    (is_immediate grant ≡ true) ⊎ (event_shares grant.vesting_events ≡ grant.total_shares)

total-collect_events :
    (as_of : ℕ) (events : List VestingEvent) (dict : Dict)
    → total (collect_events as_of events dict)
      ≡ total dict + event_shares (pending_events as_of events)
unfolding collect_events
total-collect_events as_of [] dict = omega arith
total-collect_events as_of (event ∷ events) dict = elim (Bool-cases (ltb as_of event.vest_date)) [
  | inl e ↦ rw e (
      omega (
        arith,
        total-collect_events as_of events (add_upcoming event.vest_date event.shares dict),
        total-put event.vest_date event.shares dict,
      ))
  | inr e ↦ rw e (total-collect_events as_of events dict)
]

total-collect_grant :
    (as_of : ℕ) (grant : EmployeeStockGrant) (dict : Dict)
    → IsShared grant
    → total (collect_grant as_of grant dict) ≡ total dict + (compute_grant_vesting grant as_of).1
unfolding collect_grant compute_grant_vesting
total-collect_grant as_of grant dict shared =
    let split = event_shares-split as_of grant.vesting_events in
    let collected = total-collect_events as_of grant.vesting_events dict in
    ground (arith, total-put grant.grant_date grant.total_shares dict)

total-collect_upcoming :
    (as_of : ℕ) (grants : List EmployeeStockGrant) (dict : Dict)
    → All IsShared grants
    → total (collect_upcoming as_of grants dict)
      ≡ total dict + (aggregate_vesting grants as_of).total_unvested_shares
unfolding collect_upcoming aggregate_vesting
total-collect_upcoming as_of [] dict shared = omega arith
total-collect_upcoming as_of (grant ∷ grants) dict shared = omega (
  arith,
  total-collect_upcoming as_of grants (collect_grant as_of grant dict) shared.1,
  total-collect_grant as_of grant dict shared.0,
)

length-map {ℓ κ} :
    {A : Type ℓ} {B : Type κ} (f : A → B) (xs : List A) → length (map f xs) ≡ length xs
length-map f [] = refl
length-map f (x ∷ xs) = ap suc (length-map f xs)

sum_of-to_event : (dict : Dict) → sum_of (λ event. event.shares) (map to_event dict) ≡ total dict
sum_of-to_event [] = refl
sum_of-to_event (item ∷ dict) = omega (arith, sum_of-to_event dict)

-- Where every scheduled grant shares out exactly its total, a list that the limit does not cut
-- holds all unvested shares: nothing that is still to vest is missing from the calendar.
pub upcoming_total :
    (grants : List EmployeeStockGrant) (as_of n : ℕ)
    → All IsShared grants
    → length (collect_upcoming as_of grants []) ≤ n
    → sum_of (λ event. event.shares) (upcoming_vesting_events grants as_of (pos n))
      ≡ (aggregate_vesting grants as_of).total_unvested_shares
unfolding upcoming_vesting_events
upcoming_total grants as_of n shared room =
    let dict = collect_upcoming as_of grants [] in
    let whole =
      take-all n (map to_event (sorted_items dict))
        (omega (arith, length-map to_event (sorted_items dict), length-sorted_items dict)) in
    rw whole (
      omega (
        arith,
        sum_of-to_event (sorted_items dict),
        total-sorted_items dict,
        total-collect_upcoming as_of grants [] shared,
      ))
