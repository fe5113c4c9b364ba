-- ===== src/Loan/Schedule.antt =====
-- app/services/loan_schedules.py: the schedule of a loan from its terms. Amounts are whole cents,
-- so that `quantize` changes no sum or difference of them.
pub mod Rows
use sole_backend.Prelude.{
  ℕ, zero, suc, ◌+◌, Option, none, some, List, [], ◌∷◌, ◌==◌, if◌then◌else◌, Result, ok, err, ◌>>=◌,
  ◌>>◌, raise_if, or_raise,
}
use sole_backend.Prelude.Int.{ℤ, pos, ◌+ℤ◌, ◌-ℤ◌}
use sole_backend.Decimal.{Decimal, decimal}
use sole_backend.Loan.Calendar.{CalendarDate, add_months}
use sole_backend.Loan.Payment.{payment_interest_only, payment_principal_and_interest}
use sole_backend.Loan.Terms.{LoanRepaymentMethod, balloon, principal_and_interest}

pub record LoanScheduleEntry : Type 0 where
  pub period : ℕ
  pub due_date : CalendarDate
  pub payment : ℤ
  pub principal : ℤ
  pub interest : ℤ
  pub remaining_balance : ℤ

pub record LoanScheduleResponse : Type 0 where
  pub as_of_date : CalendarDate
  pub repayment_method : LoanRepaymentMethod
  pub term_months : ℕ
  pub principal : ℤ
  pub annual_rate_percent : Decimal
  pub estimated_monthly_payment : ℤ
  pub entries : List LoanScheduleEntry

pub data ScheduleError : Type 0 where
  term_too_short : ScheduleError
  -- The ValueError of a due date past the last year, and the ZeroDivisionError of the payment.
  no_due_date division_by_zero : ScheduleError

pub record LoanTerms : Type 0 where
  pub loan_principal : ℤ
  -- In ten-thousandths, the scale of the column.
  pub nominal_annual_rate_percent : ℕ
  pub term_months : ℕ
  pub repayment_method : LoanRepaymentMethod
  pub activation_date : Option CalendarDate
  pub as_of_date : CalendarDate

unfoldable pub start_date : LoanTerms → CalendarDate
start_date terms = elim terms.activation_date [ none ↦ terms.as_of_date | some day ↦ day ]

-- The rounds that are left, the number of the next period, and the balance before it. The first due
-- date that does not exist ends the loop.
unfoldable pub amortised_rows :
    ℤ → Decimal → CalendarDate → ℕ → ℕ → ℕ → ℤ → Result ScheduleError (List LoanScheduleEntry)
amortised_rows monthly_payment annual_rate start term zero period balance = ok []
amortised_rows monthly_payment annual_rate start term (suc left) period balance = do
  let interest = payment_interest_only balance annual_rate
  let principal_payment = if period == term then balance else monthly_payment -ℤ interest
  let payment = if period == term then principal_payment +ℤ interest else monthly_payment
  let next = balance -ℤ principal_payment
  due_date ← or_raise (add_months start period) no_due_date
  rest ← amortised_rows monthly_payment annual_rate start term left (suc period) next
  ok (
      record {
        period = period;
        due_date = due_date;
        payment = payment;
        principal = principal_payment;
        interest = interest;
        remaining_balance = next;
      }
      ∷ rest)

unfoldable pub balloon_rows :
    ℤ → CalendarDate → ℕ → ℕ → ℕ → ℤ → Result ScheduleError (List LoanScheduleEntry)
balloon_rows monthly_interest start term zero period balance = ok []
balloon_rows monthly_interest start term (suc left) period balance = do
  let principal_payment = if period == term then balance else pos 0
  let payment = if period == term then monthly_interest +ℤ principal_payment else monthly_interest
  let next = balance -ℤ principal_payment
  due_date ← or_raise (add_months start period) no_due_date
  rest ← balloon_rows monthly_interest start term left (suc period) next
  ok (
      record {
        period = period;
        due_date = due_date;
        payment = payment;
        principal = principal_payment;
        interest = monthly_interest;
        remaining_balance = next;
      }
      ∷ rest)

module _ (power : Decimal → ℕ → Decimal) where
  unfoldable pub estimate_monthly_payment :
      ℤ → Decimal → ℕ → LoanRepaymentMethod → Result ScheduleError ℤ
  estimate_monthly_payment principal annual_rate term principal_and_interest =
      or_raise (payment_principal_and_interest power principal annual_rate term) division_by_zero
  estimate_monthly_payment principal annual_rate term balloon =
      ok (payment_interest_only principal annual_rate)

  unfoldable pub schedule_rows :
      ℤ
      → Decimal
      → ℕ
      → LoanRepaymentMethod
      → CalendarDate
      → Result ScheduleError (List LoanScheduleEntry)
  schedule_rows principal annual_rate term principal_and_interest start = do
    monthly_payment ←
        or_raise (payment_principal_and_interest power principal annual_rate term) division_by_zero
    amortised_rows monthly_payment annual_rate start term term 1 principal
  schedule_rows principal annual_rate term balloon start =
      balloon_rows (payment_interest_only principal annual_rate) start term term 1 principal

  -- `_build_schedule_from_terms`
  unfoldable pub build_schedule_from_terms :
      ℤ
      → Decimal
      → ℕ
      → LoanRepaymentMethod
      → CalendarDate
      → Result ScheduleError LoanScheduleResponse
  build_schedule_from_terms principal annual_rate term method start = do
    raise_if (term == 0) term_too_short
    entries ← schedule_rows principal annual_rate term method start
    estimate ← estimate_monthly_payment principal annual_rate term method
    ok (record {
      as_of_date = start;
      repayment_method = method;
      term_months = term;
      principal = principal;
      annual_rate_percent = annual_rate;
      estimated_monthly_payment = estimate;
      entries = entries;
    })

  -- The columns of an application that its schedule is made from. `activation_date` is the date of
  -- the time stamp.
  unfoldable pub build_schedule : LoanTerms → Result ScheduleError LoanScheduleResponse
  unfolding build_schedule_from_terms
  build_schedule terms =
      build_schedule_from_terms terms.loan_principal (decimal terms.nominal_annual_rate_percent 4)
        terms.term_months terms.repayment_method (start_date terms)
