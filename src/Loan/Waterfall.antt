-- ===== src/Loan/Waterfall.antt =====
-- How payments meet the instalments: the loops of `_apply_repayments` in
-- app/services/loan_schedules.py and of `compute_payment_status` in
-- app/services/loan_payment_status.py, which are the same code.
pub mod Laws
use sole_backend.Prelude.{ℕ, Bool, ◌&&◌, ◌||◌, List, [], ◌∷◌, ltb, leb, ◌==◌, if◌then◌else◌, map}
use sole_backend.Prelude.Int.{ℤ, pos, ◌-ℤ◌, leb_ℤ}
use sole_backend.Loan.Schedule.{LoanScheduleEntry}

-- A row of app/models/loan_repayment.py; dates and times are ordinal numbers, amounts cents.
pub record LoanRepayment : Type 0 where
  pub payment_date : ℕ
  pub created_at : ℕ
  pub amount : ℤ
  pub principal_amount : ℤ
  pub interest_amount : ℤ

-- The order of the keys `(payment_date, created_at)`.
abbrev pub comes_by : LoanRepayment → LoanRepayment → Bool
comes_by a b =
    ltb a.payment_date b.payment_date
    || a.payment_date == b.payment_date && leb a.created_at b.created_at

unfoldable pub insert_repayment : LoanRepayment → List LoanRepayment → List LoanRepayment
insert_repayment r [] = r ∷ []
insert_repayment r (other ∷ rest) =
    if comes_by r other then r ∷ other ∷ rest else other ∷ insert_repayment r rest

unfoldable pub sort_repayments : List LoanRepayment → List LoanRepayment
sort_repayments [] = []
sort_repayments (r ∷ rest) = insert_repayment r (sort_repayments rest)

abbrev pub min_ℤ : ℤ → ℤ → ℤ
min_ℤ a b = if leb_ℤ a b then a else b

-- One payment against what remains of each instalment, first to last.
unfoldable pub apply_payment : ℤ → List ℤ → List ℤ
apply_payment payment [] = []
apply_payment payment (remaining ∷ rest) =
    let applied = min_ℤ payment remaining in
    let skipped = remaining ∷ apply_payment payment rest in
    let paid = (remaining -ℤ applied) ∷ apply_payment (payment -ℤ applied) rest in
    if leb_ℤ payment (pos 0)
    then remaining ∷ rest
    else if leb_ℤ remaining (pos 0)
    then skipped
    else paid

unfoldable pub apply_payments : List ℤ → List ℤ → List ℤ
apply_payments [] remaining = remaining
apply_payments (payment ∷ payments) remaining =
    apply_payments payments (apply_payment payment remaining)

-- What remains of the principal and of the interest of each instalment.
unfoldable pub apply_repayments : List LoanScheduleEntry → List LoanRepayment → List ℤ × List ℤ
apply_repayments entries repayments =
    let sorted = sort_repayments repayments in
    (
      apply_payments (map (λ r. r.principal_amount) sorted)
          (map (λ entry. entry.principal) entries),
      apply_payments (map (λ r. r.interest_amount) sorted) (map (λ entry. entry.interest) entries),
    )
