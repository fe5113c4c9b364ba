-- ===== src/Loan/Reservations.antt =====
-- app/services/stock_reservations.py, and `_reserve_shares_for_application` of
-- app/services/loan_applications.py.
pub mod Counted
pub mod Bounded
use sole_backend.Prelude.{
  ℕ, ◌+◌, ◌-◌, Bool, true, false, not, ◌&&◌, ◌||◌, Option, none, some, List, [], ◌∷◌, ◌++◌, map,
  ltb, ◌==◌, if◌then◌else◌, keep, any, elem, find_first, Result, ok, err, ◌>>=◌, ◌>>◌, raise_if,
  or_raise, codes, eq_text, sum_of,
}
use sole_backend.Stock.Vesting.Dates.{Dict, get, put}
use sole_backend.Stock.Vesting.{EmployeeStockGrant, compute_grant_vesting}
use sole_backend.Loan.Allocation.{LoanShareAllocation}
use sole_backend.Loan.Store.{
  LoanStatus, submitted, in_review, active, StockGrantReservation, LoanApplication, Store,
  same_status,
}

-- The statuses that count, `ACTIVE_RESERVATION_STATUSES`.
abbrev pub counts : LoanStatus → Bool
counts submitted = true
counts in_review = true
counts active = true
counts _ = false

abbrev pub is_active_for : ℕ → ℕ → StockGrantReservation → Bool
is_active_for org_id membership_id r =
    (r.org_id == org_id) && (r.org_membership_id == membership_id) && counts r.status

-- `group_by(grant_id)` with the sum of the shares.
unfoldable pub sum_by_grant : List StockGrantReservation → Dict
sum_by_grant [] = []
sum_by_grant (r ∷ rest) =
    let sums = sum_by_grant rest in put r.grant_id (get r.grant_id sums + r.shares_reserved) sums

-- An empty list of grants asks for all of them.
unfoldable pub get_active_reservations_by_grant : Store → ℕ → ℕ → List ℕ → Dict
get_active_reservations_by_grant db org_id membership_id grant_ids = sum_by_grant (
    keep
      (λ r.
        is_active_for org_id membership_id r
        && (elem r.grant_id grant_ids || elim grant_ids [ [] ↦ true | g ∷ gs ↦ false ]))
      db.reservations)

unfoldable pub get_active_reservations_by_grant_for_org : Store → ℕ → List ℕ → Dict
get_active_reservations_by_grant_for_org db org_id grant_ids = sum_by_grant (
    keep
      (λ r.
        (r.org_id == org_id)
        && counts r.status
        && (elem r.grant_id grant_ids || elim grant_ids [ [] ↦ true | g ∷ gs ↦ false ]))
      db.reservations)

unfoldable pub list_active_reservations : Store → ℕ → ℕ → List StockGrantReservation
list_active_reservations db org_id membership_id =
    keep (is_active_for org_id membership_id) db.reservations

abbrev pub is_reservation_of : ℕ → ℕ → StockGrantReservation → Bool
is_reservation_of org_id application_id r =
    (r.org_id == org_id) && (r.loan_application_id == application_id)

unfoldable pub set_reservation_status_for_application : Store → ℕ → ℕ → LoanStatus → Store
set_reservation_status_for_application db org_id application_id status = record db {
  reservations =
      map
        (λ r. if is_reservation_of org_id application_id r then record r { status = status } else r)
        db.reservations;
}

unfoldable pub delete_reservations_for_application : Store → ℕ → ℕ → Store
delete_reservations_for_application db org_id application_id = record db {
  reservations = keep (λ r. not (is_reservation_of org_id application_id r)) db.reservations;
}

pub data ReserveError : Type 0 where
  grant_not_found insufficient_available_shares : ℕ → ReserveError
  -- `scalar_one_or_none` finds several rows.
  multiple_rows : ReserveError

-- The active grants of the membership that an allocation names.
abbrev pub grants_for : List EmployeeStockGrant → ℕ → ℕ → List ℕ → List EmployeeStockGrant
grants_for grants org_id membership_id grant_ids =
    keep
      (λ g.
        (g.org_id == org_id)
        && (g.org_membership_id == membership_id)
        && elem g.id grant_ids
        && eq_text g.status (codes "ACTIVE"))
      grants

-- `available = vested - reserved`, which may be negative in the source.
unfoldable pub check_item :
    List EmployeeStockGrant → Dict → ℕ → LoanShareAllocation → Result ReserveError (Unit {0})
check_item grants reserved as_of_date item = do
  grant ← or_raise (find_first (λ g. g.id == item.grant_id) grants) (grant_not_found item.grant_id)
  raise_if (ltb (compute_grant_vesting grant as_of_date).0 (item.shares + get grant.id reserved))
      (insufficient_available_shares item.grant_id)

unfoldable pub check_items :
    List EmployeeStockGrant → Dict → ℕ → List LoanShareAllocation → Result ReserveError (Unit {0})
check_items grants reserved as_of_date [] = ok tt
check_items grants reserved as_of_date (item ∷ items) = do
  check_item grants reserved as_of_date item
  check_items grants reserved as_of_date items

unfoldable pub reservation_for :
    ℕ → ℕ → LoanApplication → LoanShareAllocation → StockGrantReservation
reservation_for org_id membership_id application item = record {
  org_id = org_id;
  org_membership_id = membership_id;
  grant_id = item.grant_id;
  loan_application_id = application.id;
  shares_reserved = item.shares;
  status = application.status;
}

abbrev pub allocated_ids : List LoanShareAllocation → List ℕ
allocated_ids = map (λ item. item.grant_id)

-- Nothing is written unless every item passes.
unfoldable pub reserve_new :
    Store
    → List EmployeeStockGrant
    → ℕ
    → ℕ
    → LoanApplication
    → List LoanShareAllocation
    → ℕ
    → Result ReserveError Store
reserve_new db grants org_id membership_id application allocation as_of_date = do
  let ids = allocated_ids allocation
  let reserved = get_active_reservations_by_grant db org_id membership_id ids
  check_items (grants_for grants org_id membership_id ids) reserved as_of_date allocation
  ok (record db {
    reservations =
        db.reservations ++ map (reservation_for org_id membership_id application) allocation;
  })

-- An empty allocation, and an application that has a reservation already, change nothing.
unfoldable pub reserve_shares_for_application :
    Store
    → List EmployeeStockGrant
    → ℕ
    → ℕ
    → LoanApplication
    → List LoanShareAllocation
    → ℕ
    → Result ReserveError Store
reserve_shares_for_application db grants org_id membership_id application [] as_of_date = ok db
reserve_shares_for_application db grants org_id membership_id application (item ∷ items)
      as_of_date =
    elim (keep (is_reservation_of org_id application.id) db.reservations) [
      | [] ↦ reserve_new db grants org_id membership_id application (item ∷ items) as_of_date
      | r ∷ [] ↦ ok db
      | r ∷ s ∷ rest ↦ err multiple_rows
    ]
