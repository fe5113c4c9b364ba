-- ===== src/Tests/Loan.antt =====
-- Loans at concrete inputs.
use sole_backend.Prelude.{
  ℕ, zero, suc, ◌-◌, ◌≤◌, ◌≡◌, ◌↔◌, refl, min, true, none, some, err, Result, List, [], ◌∷◌, ◌++◌,
  map, All, ok, arith,
}
use sole_backend.Prelude.Int.{ℤ, pos, ◌+ℤ◌, ◌-ℤ◌, ◌≤ℤ◌}
use sole_backend.Decimal.{
  Decimal, decimal, mul, digits_below, digits, half_even, fix, div, quantize, signed, one_plus,
  minus_one,
}
use sole_backend.Stock.Vesting.{GrantVestingSummary}
use sole_backend.Loan.Terms.{balloon, principal_and_interest}
use sole_backend.Loan.Payment.{
  monthly_rate, payment_interest_only, amortised_payment, payment_principal_and_interest,
}
use sole_backend.Loan.Allocation.{
  allocate, insert_by_date, sort_by_date, allocate_shares_oldest_first, shares_of,
}
use sole_backend.Loan.Allocation.Greedy.{oldest_first, vested_of}
use sole_backend.Loan.Calendar.{
  CalendarDate, IsDate, is_leap, days_in_month, add_months, add_months-IsDate, add_months-before,
  AddsMonths, before,
}
use sole_backend.Loan.Schedule.{
  LoanScheduleEntry, schedule_rows, amortised_rows, balloon_rows, ScheduleError, no_due_date,
  division_by_zero,
}
use sole_backend.Loan.Waterfall.{LoanRepayment, apply_repayments}
use sole_backend.Loan.Waterfall.Laws.{
  owed, principals, interests, AreDues, owed-apply_repayments, apply_repayments-AreDues,
  earlier_first,
}
use sole_backend.Loan.PaymentStatus.{status_of}
use sole_backend.Loan.PaymentStatus.Settled.{next_payment_none_iff, paid_in_full}

-- A power by repeated products in the context.
abbrev pub power : Decimal → ℕ → Decimal
power base zero = decimal 1 0
power base (suc n) = mul base (power base n)

abbrev day : ℕ → ℕ → ℕ → CalendarDate
day y m d = record { year = y; month = m; day = d }

january-IsDate : IsDate (day 2024 1 28)
unfolding days_in_month is_leap
january-IsDate = omega arith

abbrev payments_of : Result ScheduleError (List LoanScheduleEntry) → List ℤ
payments_of (ok rows) = map (λ row. row.payment) rows
payments_of (err e) = []

-- 1000.00 at 6 % over 3 months.
schedule_run :
    payments_of
      (schedule_rows power (pos 100000) (decimal 60000 4) 3 principal_and_interest (day 2024 1 31))
    ≡ pos 33667 ∷ pos 33667 ∷ pos 33668 ∷ []
unfolding schedule_rows amortised_rows payment_principal_and_interest amortised_payment add_months
    days_in_month is_leap payment_interest_only monthly_rate signed div mul fix digits digits_below
    half_even quantize one_plus minus_one ◌+ℤ◌ ◌-ℤ◌
schedule_run = refl

-- A rate of 1E-26 over a year is lost in the 28 digits, and the payment divides by zero.
tiny_rate_run :
    schedule_rows power (pos 100000) (decimal 1 26) 12 principal_and_interest (day 2024 1 31)
    ≡ err division_by_zero
unfolding schedule_rows payment_principal_and_interest amortised_payment monthly_rate signed div mul
    fix digits digits_below half_even quantize one_plus minus_one
tiny_rate_run = refl

late_run :
    schedule_rows power (pos 100000) (decimal 60000 4) 2 balloon (day 9999 11 30) ≡ err no_due_date
unfolding schedule_rows balloon_rows add_months days_in_month is_leap payment_interest_only
    monthly_rate signed div mul fix digits digits_below half_even quantize
late_run = refl

leap_run : add_months (day 2024 1 31) 1 ≡ some (day 2024 2 29)
unfolding add_months days_in_month is_leap
leap_run = refl

add_months-IsDate_example : AddsMonths (day 2024 1 28) 13 (add_months (day 2024 1 28) 13)
add_months-IsDate_example = add_months-IsDate (day 2024 1 28) 13 january-IsDate

month_run :
    (add_months (day 2024 1 28) 1 ≡ some (day 2024 2 28))
    × (add_months (day 2024 1 28) 2 ≡ some (day 2024 3 28))
unfolding add_months days_in_month is_leap
month_run = (refl, refl)

add_months-before_example : before (day 2024 2 28) (day 2024 3 28) ≡ true
add_months-before_example =
    add_months-before (day 2024 1 28) 1 2 (day 2024 2 28) (day 2024 3 28) january-IsDate
      (omega arith) month_run.0 month_run.1

abbrev summary : ℕ → ℕ → ℕ → GrantVestingSummary
summary id granted n = record {
  grant_id = id;
  grant_date = granted;
  total_shares = n;
  vested_shares = n;
  unvested_shares = 0;
  exercise_price = 1500000;
}

abbrev summaries : List GrantVestingSummary
summaries = summary 1 300 10 ∷ summary 2 100 4 ∷ []

oldest_first_example :
    All (λ s. All (λ t. s.grant_date ≤ t.grant_date) (summary 1 300 10 ∷ [])) (summary 2 100 4 ∷ [])
    × (shares_of (allocate 6 (summary 2 100 4 ∷ [])) ≡ min 6 (vested_of (summary 2 100 4 ∷ [])))
    × ((allocate_shares_oldest_first summaries 6).1
        ≡ allocate 6 (summary 2 100 4 ∷ [])
          ++ allocate (6 - vested_of (summary 2 100 4 ∷ [])) (summary 1 300 10 ∷ []))
unfolding sort_by_date insert_by_date
oldest_first_example = oldest_first summaries 6 (summary 2 100 4 ∷ []) (summary 1 300 10 ∷ []) refl

abbrev row : ℕ → ℤ → ℤ → LoanScheduleEntry
row n p i = record {
  period = n;
  due_date = day 2024 n 28;
  payment = p +ℤ i;
  principal = p;
  interest = i;
  remaining_balance = pos 0;
}

abbrev rows : List LoanScheduleEntry
rows = row 1 (pos 100) (pos 10) ∷ row 2 (pos 100) (pos 5) ∷ []

abbrev repayment : ℕ → ℤ → ℤ → LoanRepayment
repayment date p i = record {
  payment_date = date;
  created_at = date;
  amount = p +ℤ i;
  principal_amount = p;
  interest_amount = i;
}

abbrev repayments : List LoanRepayment
repayments = repayment 9 (pos 150) (pos 10) ∷ repayment 4 (pos 50) (pos 5) ∷ []

owed-apply_repayments_example :
    (owed (apply_repayments rows repayments).0
      ≡ owed (principals rows) - owed (map (λ r. r.principal_amount) repayments))
    × (owed (apply_repayments rows repayments).1
        ≡ owed (interests rows) - owed (map (λ r. r.interest_amount) repayments))
owed-apply_repayments_example = owed-apply_repayments rows repayments

earlier_first_example :
    ((apply_repayments (rows ++ rows) repayments).0
      ≡ (apply_repayments rows repayments).0 ++ principals rows)
    × ((apply_repayments (rows ++ rows) repayments).1
        ≡ (apply_repayments rows repayments).1 ++ interests rows)
earlier_first_example = earlier_first rows rows repayments (omega arith) (omega arith)

apply_repayments-AreDues_example :
    AreDues (apply_repayments rows repayments).0 × AreDues (apply_repayments rows repayments).1
apply_repayments-AreDues_example =
    apply_repayments-AreDues rows repayments (omega arith) (omega arith)

next_payment_none_iff_example :
    ((status_of rows repayments (day 2024 3 1)).next_payment ≡ none
      ↔ (status_of rows repayments (day 2024 3 1)).total_remaining ≡ pos 0)
    × ((status_of rows repayments (day 2024 3 1)).missed_payment_amount_total
        ≤ℤ (status_of rows repayments (day 2024 3 1)).total_remaining)
next_payment_none_iff_example =
    next_payment_none_iff rows repayments (day 2024 3 1) (omega arith) (omega arith)

paid_in_full_example :
    ((status_of rows repayments (day 2024 3 1)).total_remaining ≡ pos 0)
    × ((status_of rows repayments (day 2024 3 1)).next_payment ≡ none)
    × ((status_of rows repayments (day 2024 3 1)).missed_payment_count ≡ 0)
paid_in_full_example =
    paid_in_full rows repayments (day 2024 3 1) (omega arith) (omega arith) (omega arith)
      (omega arith)
