-- ===== src/Loan/Allocation/Greedy.antt =====
-- What the allocation of app/services/loan_quotes.py gives to whom.
use sole_backend.Prelude.{
  ℕ, ◌+◌, ◌-◌, ◌≤◌, ◌≡◌, refl, subst, ap, ◌∙◌, min, inl, inr, List, [], ◌∷◌, ◌++◌, leb, ◌==◌,
  if◌then◌else◌, sum_of, All, arith, Bool-cases,
}
use sole_backend.Stock.Vesting.{GrantVestingSummary}
use sole_backend.Loan.Allocation.{
  LoanShareAllocation, insert_by_date, sort_by_date, allocation_of, allocate, shares_of,
  allocate_shares_oldest_first,
}

abbrev pub vested_of : List GrantVestingSummary → ℕ
vested_of = sum_of (λ summary. summary.vested_shares)

shares_of-allocate :
    (n : ℕ) (summaries : List GrantVestingSummary)
    → shares_of (allocate n summaries) ≡ min n (vested_of summaries)
unfolding allocate allocation_of
shares_of-allocate n [] = omega arith
shares_of-allocate n (s ∷ rest) =
    let ih = shares_of-allocate (n - min s.vested_shares n) rest in ground arith

vested_of-insert :
    (s : GrantVestingSummary) (rest : List GrantVestingSummary)
    → vested_of (insert_by_date s rest) ≡ s.vested_shares + vested_of rest
unfolding insert_by_date
vested_of-insert s [] = refl
vested_of-insert s (other ∷ rest) = ground (arith, vested_of-insert s rest)

vested_of-sort :
    (summaries : List GrantVestingSummary)
    → vested_of (sort_by_date summaries) ≡ vested_of summaries
unfolding sort_by_date
vested_of-sort [] = refl
vested_of-sort (s ∷ rest) =
    omega (arith, vested_of-insert s (sort_by_date rest), vested_of-sort rest)

-- The allocations take as many shares as are asked for, or all there are if these are fewer.
pub allocated_shares :
    (summaries : List GrantVestingSummary) (n : ℕ)
    → shares_of (allocate_shares_oldest_first summaries n).1 ≡ min n (vested_of summaries)
unfolding allocate_shares_oldest_first
allocated_shares summaries n =
    omega (arith, shares_of-allocate n (sort_by_date summaries), vested_of-sort summaries)

allocate-none : (summaries : List GrantVestingSummary) → allocate 0 summaries ≡ []
unfolding allocate
allocate-none [] = refl
allocate-none (s ∷ rest) = refl

-- Greedy: what a run takes from a first part of the sorted grants is what it would take if there
-- were no others, and only what is left over goes to the rest.
allocate-append :
    (n : ℕ) (older younger : List GrantVestingSummary)
    → allocate n (older ++ younger) ≡ allocate n older ++ allocate (n - vested_of older) younger
unfolding allocate
allocate-append n [] younger = rw (sub_zero n)
  where
    sub_zero : (m : ℕ) → m - 0 ≡ m
    sub_zero m = omega arith
allocate-append n (s ∷ older) younger =
    let m = n - min s.vested_shares n in
    let ih = allocate-append m older younger in ground (arith, allocate-none younger)

-- Grant dates that never fall.
abbrev FromDate : ℕ → List GrantVestingSummary → Type 0
FromDate day = All (λ s. day ≤ s.grant_date)

abbrev pub IsByDate : List GrantVestingSummary → Type 0
IsByDate [] = Unit
IsByDate (s ∷ rest) = FromDate s.grant_date rest × IsByDate rest

FromDate-le :
    (b c : ℕ) (rest : List GrantVestingSummary) → b ≤ c → FromDate c rest → FromDate b rest
FromDate-le b c [] le h = tt
FromDate-le b c (s ∷ rest) le h = (omega arith, FromDate-le b c rest le h.1)

insert-FromDate :
    (b : ℕ) (s : GrantVestingSummary) (rest : List GrantVestingSummary)
    → b ≤ s.grant_date
    → FromDate b rest
    → FromDate b (insert_by_date s rest)
unfolding insert_by_date
insert-FromDate b s [] le h = (le, tt)
insert-FromDate b s (other ∷ rest) le h = ground (arith, insert-FromDate b s rest le h.1)

insert-IsByDate :
    (s : GrantVestingSummary) (rest : List GrantVestingSummary)
    → IsByDate rest
    → IsByDate (insert_by_date s rest)
unfolding insert_by_date
insert-IsByDate s [] h = (tt, tt)
insert-IsByDate s (other ∷ rest) h = elim (Bool-cases (leb s.grant_date other.grant_date)) [
  | inl e ↦
      rw e ((ground arith, FromDate-le s.grant_date other.grant_date rest (ground arith) h.0), h)
  | inr e ↦
      rw e (insert-FromDate other.grant_date s rest (ground arith) h.0, insert-IsByDate s rest h.1)
]

sort-IsByDate : (summaries : List GrantVestingSummary) → IsByDate (sort_by_date summaries)
unfolding sort_by_date
sort-IsByDate [] = tt
sort-IsByDate (s ∷ rest) = insert-IsByDate s (sort_by_date rest) (sort-IsByDate rest)

FromDate-right :
    (b : ℕ) (older younger : List GrantVestingSummary)
    → FromDate b (older ++ younger)
    → FromDate b younger
FromDate-right b [] younger h = h
FromDate-right b (s ∷ older) younger h = FromDate-right b older younger h.1

older-first :
    (older younger : List GrantVestingSummary)
    → IsByDate (older ++ younger)
    → All (λ s. FromDate s.grant_date younger) older
older-first [] younger h = tt
older-first (s ∷ older) younger h =
    (FromDate-right s.grant_date older younger h.0, older-first older younger h.1)

-- Wherever the grants, sorted by date, are cut in two: none of the first part is younger than one of
-- the second; the first part gives all that is asked for or all that it has; and the second part
-- gives only what is still missing then.
pub oldest_first :
    (summaries : List GrantVestingSummary) (n : ℕ) (older younger : List GrantVestingSummary)
    → sort_by_date summaries ≡ older ++ younger
    → All (λ s. FromDate s.grant_date younger) older
      × (shares_of (allocate n older) ≡ min n (vested_of older))
      × ((allocate_shares_oldest_first summaries n).1
          ≡ allocate n older ++ allocate (n - vested_of older) younger)
unfolding allocate_shares_oldest_first
oldest_first summaries n older younger e = (
  older-first older younger (subst IsByDate e (sort-IsByDate summaries)),
  shares_of-allocate n older,
  ap (allocate n) e ∙ allocate-append n older younger,
)

-- The shares that go to one grant, and those that one grant has.
abbrev pub shares_for : ℕ → List LoanShareAllocation → ℕ
shares_for id = sum_of (λ allocation. if allocation.grant_id == id then allocation.shares else 0)

abbrev pub vested_for : ℕ → List GrantVestingSummary → ℕ
vested_for id = sum_of (λ summary. if summary.grant_id == id then summary.vested_shares else 0)

allocate-within :
    (id n : ℕ) (summaries : List GrantVestingSummary)
    → shares_for id (allocate n summaries) ≤ vested_for id summaries
unfolding allocate allocation_of
allocate-within id n [] = omega arith
allocate-within id n (s ∷ rest) =
    let ih = allocate-within id (n - min s.vested_shares n) rest in ground arith

vested_for-insert :
    (id : ℕ) (s : GrantVestingSummary) (rest : List GrantVestingSummary)
    → vested_for id (insert_by_date s rest)
      ≡ (if s.grant_id == id then s.vested_shares else 0) + vested_for id rest
unfolding insert_by_date
vested_for-insert id s [] = refl
vested_for-insert id s (other ∷ rest) = ground (arith, vested_for-insert id s rest)

vested_for-sort :
    (id : ℕ) (summaries : List GrantVestingSummary)
    → vested_for id (sort_by_date summaries) ≡ vested_for id summaries
unfolding sort_by_date
vested_for-sort id [] = refl
vested_for-sort id (s ∷ rest) =
    omega (arith, vested_for-insert id s (sort_by_date rest), vested_for-sort id rest)

-- No grant gives more shares than it has vested, whatever is asked for.
pub allocated_within :
    (summaries : List GrantVestingSummary) (n id : ℕ)
    → shares_for id (allocate_shares_oldest_first summaries n).1 ≤ vested_for id summaries
unfolding allocate_shares_oldest_first
allocated_within summaries n id =
    omega (arith, allocate-within id n (sort_by_date summaries), vested_for-sort id summaries)
