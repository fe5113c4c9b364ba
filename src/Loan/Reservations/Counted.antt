-- ===== src/Loan/Reservations/Counted.antt =====
-- What app/services/stock_reservations.py counts, before and after rows are added.
use sole_backend.Prelude.{
  ℕ, ◌+◌, ◌≡◌, ◌≢◌, refl, sym, ap, ◌∙◌, inl, inr, Bool, true, false, ◌&&◌, ◌||◌, List, [], ◌∷◌,
  ◌++◌, map, ◌==◌, if◌then◌else◌, keep, keep-append, elem, sum_of, sum_of-append, All, Bool-cases,
  arith,
}
use sole_backend.Stock.Vesting.Dates.{Dict, get, put}
use sole_backend.Loan.Allocation.{LoanShareAllocation}
use sole_backend.Loan.Store.{StockGrantReservation, LoanApplication, Store}
use sole_backend.Loan.Reservations.{
  counts, is_active_for, sum_by_grant, get_active_reservations_by_grant, reservation_for,
  allocated_ids,
}

get-put :
    (key day n : ℕ) (dict : Dict)
    → get key (put day n dict) ≡ (if day == key then n else get key dict)
unfolding get put
get-put key day n [] = refl
get-put key day n ((d, m) ∷ dict) = ground (arith, get-put key day n dict)

pub same_true : (a : ℕ) → (a == a) ≡ true
same_true a = ground arith

pub different : (a b : ℕ) → b ≢ a → (a == b) ≡ false
different a b h = ground arith

pub same_id : (a b : ℕ) → (a == b) ≡ true → a ≡ b
same_id a b h = ground arith

-- The shares of the rows on a grant.
abbrev pub shares_on : ℕ → List StockGrantReservation → ℕ
shares_on grant_id rows = sum_of (λ r. r.shares_reserved) (keep (λ r. r.grant_id == grant_id) rows)

-- The sums by grant are those of the rows on the grant.
pub get-sum_by_grant :
    (grant_id : ℕ) (rows : List StockGrantReservation)
    → get grant_id (sum_by_grant rows) ≡ shares_on grant_id rows
unfolding sum_by_grant get
get-sum_by_grant grant_id [] = refl
get-sum_by_grant grant_id (r ∷ rows) =
    let sums = sum_by_grant rows in
    rw (get-put grant_id r.grant_id (get r.grant_id sums + r.shares_reserved) sums)
      (elim (Bool-cases (r.grant_id == grant_id)) [
        | inl e ↦ rw e (
            omega (
              arith,
              ap (λ k. get k sums) (same_id r.grant_id grant_id e),
              get-sum_by_grant grant_id rows,
            ))
        | inr e ↦ rw e (get-sum_by_grant grant_id rows)
      ])

-- The active reservations of a membership on a grant.
abbrev pub reserved_shares : Store → ℕ → ℕ → ℕ → ℕ
reserved_shares db org_id membership_id grant_id =
    shares_on grant_id (keep (is_active_for org_id membership_id) db.reservations)

shares_on-skip :
    (grant_id : ℕ) (r : StockGrantReservation) (rows : List StockGrantReservation) (b : Bool)
    → (r.grant_id == grant_id) ≡ false
    → shares_on grant_id (if b then r ∷ rows else rows) ≡ shares_on grant_id rows
shares_on-skip grant_id r rows true e = rw e refl
shares_on-skip grant_id r rows false e = refl

-- Restricting the rows to a list of grants leaves out no row of a grant on the list.
shares_on-restricted :
    (p : StockGrantReservation → Bool) (b : Bool) (ids : List ℕ) (grant_id : ℕ)
    (rows : List StockGrantReservation)
    → elem grant_id ids ≡ true
    → shares_on grant_id (keep (λ r. p r && (elem r.grant_id ids || b)) rows)
      ≡ shares_on grant_id (keep p rows)
shares_on-restricted p b ids grant_id [] h = refl
shares_on-restricted p b ids grant_id (r ∷ rows) h =
    let rest = shares_on-restricted p b ids grant_id rows h in
    elim (Bool-cases (r.grant_id == grant_id)) [
      | inl e ↦
          let here : elem r.grant_id ids ≡ true =
            ap (λ k. elem k ids) (same_id r.grant_id grant_id e) ∙ h in
          elim (Bool-cases (p r)) [
            | inl f ↦ rw (here, f, e) (ap (λ n. r.shares_reserved + n) rest)
            | inr f ↦ rw f rest
          ]
      | inr e ↦
          shares_on-skip grant_id r _ (p r && (elem r.grant_id ids || b)) e
          ∙ rest
          ∙ sym (shares_on-skip grant_id r _ (p r) e)
    ]

pub get-active :
    (db : Store) (org_id membership_id grant_id : ℕ) (ids : List ℕ)
    → elem grant_id ids ≡ true
    → get grant_id (get_active_reservations_by_grant db org_id membership_id ids)
      ≡ reserved_shares db org_id membership_id grant_id
unfolding get_active_reservations_by_grant
get-active db org_id membership_id grant_id ids h =
    get-sum_by_grant grant_id _
    ∙ shares_on-restricted (is_active_for org_id membership_id) _ ids grant_id db.reservations h

-- The shares that an allocation takes of a grant.
abbrev pub taken : ℕ → List LoanShareAllocation → ℕ
taken grant_id items = sum_of (λ item. item.shares) (keep (λ item. item.grant_id == grant_id) items)

-- No grant stands in an allocation twice.
abbrev pub AreDistinct : List LoanShareAllocation → Type 0
AreDistinct [] = Unit
AreDistinct (item ∷ items) = All (λ other. other.grant_id ≢ item.grant_id) items × AreDistinct items

taken-other :
    (grant_id : ℕ) (items : List LoanShareAllocation)
    → All (λ other. other.grant_id ≢ grant_id) items
    → taken grant_id items ≡ 0
taken-other grant_id [] h = refl
taken-other grant_id (item ∷ items) h = ground (arith, taken-other grant_id items h.1)

-- The rows that are written for an allocation, counted by grant.
reservations-taken :
    (org_id membership_id grant_id : ℕ) (application : LoanApplication)
    (items : List LoanShareAllocation)
    → counts application.status ≡ true
    → shares_on grant_id (
        keep
          (is_active_for org_id membership_id)
          (map (reservation_for org_id membership_id application) items))
      ≡ taken grant_id items
unfolding reservation_for
reservations-taken org_id membership_id grant_id application [] h = refl
reservations-taken org_id membership_id grant_id application (item ∷ items) h =
    let rest = reservations-taken org_id membership_id grant_id application items h in
    rw (same_true org_id, same_true membership_id, h)
      (elim (Bool-cases (item.grant_id == grant_id)) [
        | inl e ↦ rw e (ap (λ n. item.shares + n) rest)
        | inr e ↦ rw e rest
      ])

-- What stands reserved after the rows were added.
pub reserved-added :
    (db : Store) (org_id membership_id grant_id : ℕ) (application : LoanApplication)
    (items : List LoanShareAllocation)
    → counts application.status ≡ true
    → reserved_shares
        (record db {
          reservations =
              db.reservations ++ map (reservation_for org_id membership_id application) items;
        })
        org_id
        membership_id
        grant_id
      ≡ reserved_shares db org_id membership_id grant_id + taken grant_id items
reserved-added db org_id membership_id grant_id application items h =
    let new = map (reservation_for org_id membership_id application) items in
    let p = is_active_for org_id membership_id in
    rw
      (
        keep-append p db.reservations new,
        keep-append (λ r. r.grant_id == grant_id) (keep p db.reservations) (keep p new),
        sum_of-append (λ r. r.shares_reserved)
            (keep (λ r. r.grant_id == grant_id) (keep p db.reservations))
            (keep (λ r. r.grant_id == grant_id) (keep p new)),
      )
      (ap (λ n. reserved_shares db org_id membership_id grant_id + n)
        (reservations-taken org_id membership_id grant_id application items h))

pub All-and {ℓ κ μ ν} :
    {A : Type ℓ} {P : A → Type κ} {Q : A → Type μ} {R : A → Type ν} (xs : List A)
    → ((x : A) → P x → Q x → R x)
    → All P xs
    → All Q xs
    → All R xs
All-and [] f p q = tt
All-and (x ∷ xs) f p q = (f x p.0 q.0, All-and xs f p.1 q.1)

-- Each item takes all that the allocation takes of its grant.
pub taken-own :
    (items : List LoanShareAllocation)
    → AreDistinct items
    → All (λ item. taken item.grant_id items ≡ item.shares) items
taken-own [] h = tt
taken-own (item ∷ items) h =
    let none_left = taken-other item.grant_id items h.0 in
    (
      rw (same_true item.grant_id) (omega (arith, none_left)),
      All-and items (λ other ne own. rw (different item.grant_id other.grant_id ne) own) h.0
          (taken-own items h.1),
    )

All-elem_more :
    (a : ℕ) (ids : List ℕ) (items : List LoanShareAllocation)
    → All (λ item. elem item.grant_id ids ≡ true) items
    → All (λ item. elem item.grant_id (a ∷ ids) ≡ true) items
All-elem_more a ids [] h = tt
All-elem_more a ids (item ∷ items) h = (ground (arith, h.0), All-elem_more a ids items h.1)

pub All-elem :
    (items : List LoanShareAllocation)
    → All (λ item. elem item.grant_id (allocated_ids items) ≡ true) items
All-elem [] = tt
All-elem (item ∷ items) = (
  rw (same_true item.grant_id) refl,
  All-elem_more item.grant_id (allocated_ids items) items (All-elem items),
)
