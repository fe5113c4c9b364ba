-- ===== src/Loan/PaymentStatus.antt =====
-- app/services/loan_payment_status.py: what is next due, what was missed, what remains.
pub mod Settled
use sole_backend.Prelude.{
  ℕ, Bool, true, false, Option, none, some, List, [], ◌∷◌, if◌then◌else◌, length, Result, ok, err,
  ◌>>=◌,
}
use sole_backend.Prelude.Int.{ℤ, pos, ◌+ℤ◌, leb_ℤ, sum_ℤ}
use sole_backend.Decimal.{Decimal}
use sole_backend.Loan.Calendar.{CalendarDate, before}
use sole_backend.Loan.Schedule.{
  LoanScheduleEntry, LoanScheduleResponse, LoanTerms, ScheduleError, build_schedule,
}
use sole_backend.Loan.Waterfall.{LoanRepayment, apply_repayments}

pub record NextPayment : Type 0 where
  pub date : CalendarDate
  pub amount : ℤ
  pub principal_due : ℤ
  pub interest_due : ℤ

-- The four `next_` fields of the source are set together.
pub record LoanPaymentStatus : Type 0 where
  pub next_payment : Option NextPayment
  pub missed_payment_count : ℕ
  pub missed_payment_amount_total : ℤ
  pub missed_payment_dates : List CalendarDate
  pub principal_remaining : ℤ
  pub interest_remaining : ℤ
  pub total_remaining : ℤ

-- A row of the schedule with what remains of its principal and its interest.
pub record Due : Type 0 where
  pub entry : LoanScheduleEntry
  pub principal_due : ℤ
  pub interest_due : ℤ

-- `zip(entries, remaining_principal, remaining_interest)`
unfoldable pub zip_dues : List LoanScheduleEntry → List ℤ → List ℤ → List Due
zip_dues [] ps is = []
zip_dues (e ∷ es) [] is = []
zip_dues (e ∷ es) (p ∷ ps) [] = []
zip_dues (e ∷ es) (p ∷ ps) (i ∷ is) =
    record { entry = e; principal_due = p; interest_due = i } ∷ zip_dues es ps is

abbrev pub due_total : Due → ℤ
due_total due = due.principal_due +ℤ due.interest_due

abbrev pub is_settled : Due → Bool
is_settled due = leb_ℤ (due_total due) (pos 0)

-- The first row with something left.
unfoldable pub next_due : List Due → Option NextPayment
next_due [] = none
next_due (due ∷ dues) =
    if is_settled due
    then next_due dues
    else some (record {
      date = due.entry.due_date;
      amount = due_total due;
      principal_due = due.principal_due;
      interest_due = due.interest_due;
    })

-- The rows with something left that were due before a date.
unfoldable pub missed_dues : CalendarDate → List Due → List Due
missed_dues as_of [] = []
missed_dues as_of (due ∷ dues) =
    let rest = missed_dues as_of dues in
    if is_settled due then rest else if before due.entry.due_date as_of then due ∷ rest else rest

unfoldable pub due_dates : List Due → List CalendarDate
due_dates [] = []
due_dates (due ∷ dues) = due.entry.due_date ∷ due_dates dues

unfoldable pub status_of :
    List LoanScheduleEntry → List LoanRepayment → CalendarDate → LoanPaymentStatus
status_of entries repayments as_of_date =
    let left = apply_repayments entries repayments in
    let dues = zip_dues entries left.0 left.1 in
    let missed = missed_dues as_of_date dues in
    let principal = sum_ℤ (λ a. a) left.0 in
    let interest = sum_ℤ (λ a. a) left.1 in
    record {
      next_payment = next_due dues;
      missed_payment_count = length (due_dates missed);
      missed_payment_amount_total = sum_ℤ due_total missed;
      missed_payment_dates = due_dates missed;
      principal_remaining = principal;
      interest_remaining = interest;
      total_remaining = principal +ℤ interest;
    }

unfoldable pub compute_payment_status :
    (Decimal → ℕ → Decimal)
    → LoanTerms
    → List LoanRepayment
    → CalendarDate
    → Result ScheduleError LoanPaymentStatus
compute_payment_status power terms repayments as_of_date = do
  schedule ← build_schedule power terms
  ok (status_of schedule.entries repayments as_of_date)
