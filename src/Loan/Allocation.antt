-- ===== src/Loan/Allocation.antt =====
-- `_allocate_shares_oldest_first` of app/services/loan_quotes.py.
pub mod Greedy
use sole_backend.Prelude.{
  ℕ, ◌+◌, ◌-◌, min, Bool, List, [], ◌∷◌, ◌++◌, leb, ◌==◌, if◌then◌else◌, sum_of,
}
use sole_backend.Stock.Vesting.{GrantVestingSummary}
use sole_backend.Decimal.{decimal, mul, quantize}

-- Prices in cents.
pub record LoanShareAllocation : Type 0 where
  pub grant_id : ℕ
  pub grant_date : ℕ
  pub shares : ℕ
  pub exercise_price : ℕ
  pub purchase_price : ℕ

-- `sorted(grant_summaries, key=lambda item: item.grant_date)`, a stable sort.
unfoldable pub insert_by_date :
    GrantVestingSummary → List GrantVestingSummary → List GrantVestingSummary
insert_by_date summary [] = summary ∷ []
insert_by_date summary (other ∷ rest) =
    if leb summary.grant_date other.grant_date
    then summary ∷ other ∷ rest
    else other ∷ insert_by_date summary rest

unfoldable pub sort_by_date : List GrantVestingSummary → List GrantVestingSummary
sort_by_date [] = []
sort_by_date (summary ∷ rest) = insert_by_date summary (sort_by_date rest)

unfoldable pub allocation_of : GrantVestingSummary → ℕ → LoanShareAllocation
allocation_of summary taken = record {
  grant_id = summary.grant_id;
  grant_date = summary.grant_date;
  shares = taken;
  exercise_price = quantize (decimal summary.exercise_price 6);
  purchase_price = quantize (mul (decimal summary.exercise_price 6) (decimal taken 0));
}

-- The loop: it ends when nothing remains to be taken, and passes over a grant with no shares.
unfoldable pub allocate : ℕ → List GrantVestingSummary → List LoanShareAllocation
allocate remaining [] = []
allocate remaining (summary ∷ rest) =
    let taken = min summary.vested_shares remaining in
    let later = allocate (remaining - taken) rest in
    if remaining == 0
    then []
    else if summary.vested_shares == 0
    then later
    else allocation_of summary taken ∷ later

abbrev pub price_of : List LoanShareAllocation → ℕ
price_of = sum_of (λ allocation. allocation.purchase_price)

abbrev pub shares_of : List LoanShareAllocation → ℕ
shares_of = sum_of (λ allocation. allocation.shares)

-- The price in cents, and the allocations.
unfoldable pub allocate_shares_oldest_first :
    List GrantVestingSummary → ℕ → ℕ × List LoanShareAllocation
allocate_shares_oldest_first grant_summaries shares_to_exercise =
    let allocations = allocate shares_to_exercise (sort_by_date grant_summaries) in
    (price_of allocations, allocations)
