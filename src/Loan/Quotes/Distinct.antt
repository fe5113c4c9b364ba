-- ===== src/Loan/Quotes/Distinct.antt =====
-- A quote of app/services/loan_quotes.py takes no grant twice.
use sole_backend.Prelude.{
  ℕ, ◌-◌, ◌≢◌, sym, inl, inr, Bool, List, [], ◌∷◌, map, min, leb, ◌==◌, keep, All, Bool-cases,
}
use sole_backend.Stock.Vesting.{EmployeeStockGrant, GrantVestingSummary, load_active_grants}
use sole_backend.Loan.Allocation.{
  insert_by_date, sort_by_date, allocation_of, allocate, allocate_shares_oldest_first,
}
use sole_backend.Loan.Reservations.Counted.{AreDistinct}
use sole_backend.Loan.Quotes.{LoanQuoteResponse, adjust}
use sole_backend.Loan.Quotes.Covered.{
  IsCovered, NotIn, DistinctIds, DistinctGrants, summaries-DistinctIds,
}

insert-NotIn :
    (id : ℕ) (s : GrantVestingSummary) (rest : List GrantVestingSummary)
    → s.grant_id ≢ id
    → NotIn id rest
    → NotIn id (insert_by_date s rest)
unfolding insert_by_date
insert-NotIn id s [] ne h = (ne, tt)
insert-NotIn id s (t ∷ rest) ne h = elim (Bool-cases (leb s.grant_date t.grant_date)) [
  | inl e ↦ rw e (ne, h)
  | inr e ↦ rw e (h.0, insert-NotIn id s rest ne h.1)
]

insert-DistinctIds :
    (s : GrantVestingSummary) (rest : List GrantVestingSummary)
    → NotIn s.grant_id rest
    → DistinctIds rest
    → DistinctIds (insert_by_date s rest)
unfolding insert_by_date
insert-DistinctIds s [] new h = (tt, tt)
insert-DistinctIds s (t ∷ rest) new h = elim (Bool-cases (leb s.grant_date t.grant_date)) [
  | inl e ↦ rw e (new, h)
  | inr e ↦
      rw e (
        insert-NotIn t.grant_id s rest (λ p. new.0 (sym p)) h.0,
        insert-DistinctIds s rest new.1 h.1,
      )
]

sort-NotIn :
    (id : ℕ) (summaries : List GrantVestingSummary)
    → NotIn id summaries
    → NotIn id (sort_by_date summaries)
unfolding sort_by_date
sort-NotIn id [] h = tt
sort-NotIn id (s ∷ rest) h = insert-NotIn id s (sort_by_date rest) h.0 (sort-NotIn id rest h.1)

sort-DistinctIds :
    (summaries : List GrantVestingSummary)
    → DistinctIds summaries
    → DistinctIds (sort_by_date summaries)
unfolding sort_by_date
sort-DistinctIds [] h = tt
sort-DistinctIds (s ∷ rest) h =
    insert-DistinctIds s (sort_by_date rest) (sort-NotIn s.grant_id rest h.0)
      (sort-DistinctIds rest h.1)

adjust-NotIn :
    (id : ℕ) (reserved : List (ℕ × ℕ)) (summaries : List GrantVestingSummary)
    → NotIn id summaries
    → NotIn id (map (adjust reserved) summaries)
unfolding adjust
adjust-NotIn id reserved [] h = tt
adjust-NotIn id reserved (s ∷ rest) h = (h.0, adjust-NotIn id reserved rest h.1)

adjust-DistinctIds :
    (reserved : List (ℕ × ℕ)) (summaries : List GrantVestingSummary)
    → DistinctIds summaries
    → DistinctIds (map (adjust reserved) summaries)
unfolding adjust
adjust-DistinctIds reserved [] h = tt
adjust-DistinctIds reserved (s ∷ rest) h =
    (adjust-NotIn s.grant_id reserved rest h.0, adjust-DistinctIds reserved rest h.1)

allocate-other :
    (id n : ℕ) (summaries : List GrantVestingSummary)
    → NotIn id summaries
    → All (λ item. item.grant_id ≢ id) (allocate n summaries)
unfolding allocate allocation_of
allocate-other id n [] h = tt
allocate-other id n (s ∷ rest) h =
    let later = allocate-other id (n - min s.vested_shares n) rest h.1 in
    elim (Bool-cases (n == 0)) [
      | inl e ↦ rw e tt
      | inr e ↦ elim (Bool-cases (s.vested_shares == 0)) [
        | inl f ↦ rw (e, f) later
        | inr f ↦ rw (e, f) (h.0, later)
      ]
    ]

allocate-AreDistinct :
    (n : ℕ) (summaries : List GrantVestingSummary)
    → DistinctIds summaries
    → AreDistinct (allocate n summaries)
unfolding allocate allocation_of
allocate-AreDistinct n [] h = tt
allocate-AreDistinct n (s ∷ rest) h =
    let left = n - min s.vested_shares n in
    let later = allocate-AreDistinct left rest h.1 in
    elim (Bool-cases (n == 0)) [
      | inl e ↦ rw e tt
      | inr e ↦ elim (Bool-cases (s.vested_shares == 0)) [
        | inl f ↦ rw (e, f) later
        | inr f ↦ rw (e, f) (allocate-other s.grant_id left rest h.0, later)
      ]
    ]

pub quote-AreDistinct :
    (grants : List EmployeeStockGrant) (as_of : ℕ) (reserved : List (ℕ × ℕ)) (q : LoanQuoteResponse)
    → DistinctGrants grants
    → IsCovered grants as_of reserved q
    → AreDistinct q.allocation
unfolding allocate_shares_oldest_first
quote-AreDistinct grants as_of reserved q distinct covered = rw covered.oldest_first (
    allocate-AreDistinct q.shares_to_exercise _ (
      sort-DistinctIds _
        (adjust-DistinctIds reserved _ (summaries-DistinctIds as_of grants distinct))))

keep-other :
    (p : EmployeeStockGrant → Bool) (id : ℕ) (grants : List EmployeeStockGrant)
    → All (λ g. g.id ≢ id) grants
    → All (λ g. g.id ≢ id) (keep p grants)
keep-other p id [] h = tt
keep-other p id (g ∷ rest) h = elim (Bool-cases (p g)) [
  | inl e ↦ rw e (h.0, keep-other p id rest h.1)
  | inr e ↦ rw e (keep-other p id rest h.1)
]

keep-DistinctGrants :
    (p : EmployeeStockGrant → Bool) (grants : List EmployeeStockGrant)
    → DistinctGrants grants
    → DistinctGrants (keep p grants)
keep-DistinctGrants p [] h = tt
keep-DistinctGrants p (g ∷ rest) h = elim (Bool-cases (p g)) [
  | inl e ↦ rw e (keep-other p g.id rest h.0, keep-DistinctGrants p rest h.1)
  | inr e ↦ rw e (keep-DistinctGrants p rest h.1)
]

pub load_active_grants-DistinctGrants :
    (grants : List EmployeeStockGrant) (org_id membership_id : ℕ)
    → DistinctGrants grants
    → DistinctGrants (load_active_grants grants org_id membership_id)
unfolding load_active_grants
load_active_grants-DistinctGrants grants org_id membership_id = keep-DistinctGrants _ grants
