-- ===== src/Loan/Reservations/Bounded.antt =====
-- The bound that `_reserve_shares_for_application` of app/services/loan_applications.py keeps.
use sole_backend.Prelude.{
  ℕ, ◌+◌, ◌≤◌, ◌≡◌, sym, ap, ◌∙◌, subst, inl, inr, true, some, List, [], ◌∷◌, ◌++◌, map, ◌==◌, keep,
  find_first, All, Bool-cases, ok, arith, passes, ok-injective, or_raise, or_raise-found, raise_if,
  ltb,
}
use mathlib.Core.Option.{get_or}
use sole_backend.Stock.Vesting.Dates.{Dict, get}
use sole_backend.Stock.Vesting.{EmployeeStockGrant, compute_grant_vesting}
use sole_backend.Loan.Allocation.{LoanShareAllocation}
use sole_backend.Loan.Store.{LoanApplication, Store}
use sole_backend.Loan.Reservations.{
  ReserveError, is_reservation_of, reserve_shares_for_application, counts,
  get_active_reservations_by_grant, grants_for, check_item, check_items, reservation_for,
  allocated_ids, reserve_new, grant_not_found,
}
use sole_backend.Loan.Reservations.Counted.{
  same_id, get-active, AreDistinct, taken, reserved_shares, reserved-added, All-and, taken-own,
  All-elem,
}

-- A grant of the membership that has enough vested shares for what is reserved of it.
abbrev pub IsCovered : List EmployeeStockGrant → ℕ → ℕ → ℕ → Type 0
IsCovered grants as_of_date grant_id shares =
    (grant : EmployeeStockGrant) × (find_first (λ g. g.id == grant_id) grants ≡ some grant)
    × (shares ≤ (compute_grant_vesting grant as_of_date).0)

found-id :
    (grant_id : ℕ) (grants : List EmployeeStockGrant) (grant : EmployeeStockGrant)
    → find_first (λ g. g.id == grant_id) grants ≡ some grant
    → grant.id ≡ grant_id
found-id grant_id [] grant h = cc
found-id grant_id (g ∷ grants) grant h = elim (Bool-cases (g.id == grant_id)) [
  | inl e ↦ sym (ap (λ o. (get_or o g).id) (rw e at h)) ∙ same_id g.id grant_id e
  | inr e ↦ found-id grant_id grants grant (rw e at h)
]

enough_left :
    (vested asked : ℕ) (e : ReserveError) (u : Unit {0})
    → raise_if (ltb vested asked) e ≡ ok u
    → asked ≤ vested
enough_left vested asked e u h = ground arith

check_item-IsCovered :
    (grants : List EmployeeStockGrant) (reserved : Dict) (as_of_date : ℕ)
    (item : LoanShareAllocation) (u : Unit {0})
    → check_item grants reserved as_of_date item ≡ ok u
    → IsCovered grants as_of_date item.grant_id (item.shares + get item.grant_id reserved)
unfolding check_item
check_item-IsCovered grants reserved as_of_date item u h =
    let (grant, found, h1) =
      passes
        (or_raise (find_first (λ g. g.id == item.grant_id) grants) (grant_not_found item.grant_id))
        _ h in
    let found' =
      or_raise-found (find_first (λ g. g.id == item.grant_id) grants)
        (grant_not_found item.grant_id) grant found in
    let own = found-id item.grant_id grants grant found' in
    (grant, found', enough_left _ _ _ u (rw own at h1))

check_items-AreCovered :
    (grants : List EmployeeStockGrant) (reserved : Dict) (as_of_date : ℕ)
    (items : List LoanShareAllocation) (u : Unit {0})
    → check_items grants reserved as_of_date items ≡ ok u
    → All
        (λ item.
          IsCovered grants as_of_date item.grant_id (item.shares + get item.grant_id reserved))
        items
unfolding check_items
check_items-AreCovered grants reserved as_of_date [] u h = tt
check_items-AreCovered grants reserved as_of_date (item ∷ items) u h =
    let (v, here, h1) = passes (check_item grants reserved as_of_date item) _ h in
    (
      check_item-IsCovered grants reserved as_of_date item v here,
      check_items-AreCovered grants reserved as_of_date items u h1,
    )

-- What the reservations of an allocation leave: a vested share for each one reserved, on every grant
-- of the allocation, and as many more reserved shares on each grant as the allocation takes of it.
pub record AreReserved (db db' : Store) (grants : List EmployeeStockGrant)
    (org_id membership_id as_of_date : ℕ) (items : List LoanShareAllocation) : Type 0 where
  pub covered :
      All
        (λ item.
          IsCovered
            (grants_for grants org_id membership_id (allocated_ids items))
            as_of_date
            item.grant_id
            (reserved_shares db' org_id membership_id item.grant_id))
        items
  pub added :
      (grant_id : ℕ)
      → reserved_shares db' org_id membership_id grant_id
        ≡ reserved_shares db org_id membership_id grant_id + taken grant_id items

-- The amount that was compared with the vested shares is what stands reserved afterwards.
compared :
    (db db' : Store) (org_id membership_id : ℕ) (items : List LoanShareAllocation)
    → AreDistinct items
    → ((grant_id : ℕ)
        → reserved_shares db' org_id membership_id grant_id
          ≡ reserved_shares db org_id membership_id grant_id + taken grant_id items)
    → All
        (λ item.
          item.shares
            + get item.grant_id
                (get_active_reservations_by_grant db org_id membership_id (allocated_ids items))
          ≡ reserved_shares db' org_id membership_id item.grant_id)
        items
compared db db' org_id membership_id items distinct added =
    All-and items
      (λ item own listed.
        let before =
          get-active db org_id membership_id item.grant_id (allocated_ids items) listed in
        omega (arith, added item.grant_id, own, before))
      (taken-own items distinct) (All-elem items)

reserve_new-AreReserved :
    (db db' : Store) (grants : List EmployeeStockGrant) (org_id membership_id : ℕ)
    (application : LoanApplication) (items : List LoanShareAllocation) (as_of_date : ℕ)
    → counts application.status ≡ true
    → AreDistinct items
    → reserve_new db grants org_id membership_id application items as_of_date ≡ ok db'
    → AreReserved db db' grants org_id membership_id as_of_date items
unfolding reserve_new
reserve_new-AreReserved db db' grants org_id membership_id application items as_of_date counted
      distinct h =
    let ids = allocated_ids items in
    let mine = grants_for grants org_id membership_id ids in
    let reserved = get_active_reservations_by_grant db org_id membership_id ids in
    let last = record db {
      reservations =
          db.reservations ++ map (reservation_for org_id membership_id application) items;
    } in
    let (u, checked, h1) = passes (check_items mine reserved as_of_date items) _ h in
    subst (λ d. AreReserved db d grants org_id membership_id as_of_date items) (ok-injective h1)
      (record {
        covered =
            All-and items
              (λ item enough eq. subst (IsCovered mine as_of_date item.grant_id) eq enough)
              (check_items-AreCovered mine reserved as_of_date items u checked)
              (compared db last org_id membership_id items distinct
                (λ g. reserved-added db org_id membership_id g application items counted));
        added = λ g. reserved-added db org_id membership_id g application items counted;
      })

-- Where shares are reserved for an application that has none reserved, in a status that counts and
-- with no grant in its allocation twice, then afterwards, on every grant of the allocation, all
-- active reservations of the membership together are at most the vested shares; each grant has just
-- the shares of the allocation more.
pub reserve_shares-AreReserved :
    (db db' : Store) (grants : List EmployeeStockGrant) (org_id membership_id : ℕ)
    (application : LoanApplication) (items : List LoanShareAllocation) (as_of_date : ℕ)
    → counts application.status ≡ true
    → AreDistinct items
    → keep (is_reservation_of org_id application.id) db.reservations ≡ []
    → reserve_shares_for_application db grants org_id membership_id application items as_of_date
      ≡ ok db'
    → AreReserved db db' grants org_id membership_id as_of_date items
unfolding reserve_shares_for_application
reserve_shares-AreReserved db db' grants org_id membership_id application [] as_of_date counted
      distinct fresh h =
    subst (λ last. AreReserved db last grants org_id membership_id as_of_date []) (ok-injective h)
      (record { covered = tt; added = λ grant_id. omega arith })
reserve_shares-AreReserved db db' grants org_id membership_id application (item ∷ items) as_of_date
      counted distinct fresh h =
    reserve_new-AreReserved db db' grants org_id membership_id application (item ∷ items) as_of_date
      counted distinct (rw (reserve_shares_for_application, fresh) at h)
