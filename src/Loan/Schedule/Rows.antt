-- ===== src/Loan/Schedule/Rows.antt =====
-- The rows of a schedule of app/services/loan_schedules.py: they pay the loan off.
use sole_backend.Prelude.{ℕ, suc, ◌≡◌, List, [], ◌∷◌, length, ok, ◌⊎◌, ◌≢◌, some, Result}
use sole_backend.Prelude.Int.{ℤ, pos, ◌+ℤ◌, ◌-ℤ◌, sum_ℤ}
use sole_backend.Decimal.{Decimal, one_plus, minus_one}
use sole_backend.Loan.Calendar.{CalendarDate, add_months}
use sole_backend.Loan.Payment.{monthly_rate}
use sole_backend.Loan.Terms.{LoanRepaymentMethod, balloon, principal_and_interest}
use sole_backend.Loan.Schedule.{LoanScheduleEntry, LoanScheduleResponse, ScheduleError}

-- Rows from a period and a balance on: the periods follow one another, each falls due its number of
-- months after the start, a payment is principal and interest, a row's balance is the balance
-- before it less its principal, and after the last row nothing is owed.
abbrev pub PaysOff : CalendarDate → ℕ → ℤ → List LoanScheduleEntry → Type 0
PaysOff start period balance [] = balance ≡ pos 0
PaysOff start period balance (row ∷ rows) =
    (row.period ≡ period)
    × (add_months start period ≡ some row.due_date)
    × (row.payment ≡ row.principal +ℤ row.interest)
    × (row.remaining_balance ≡ balance -ℤ row.principal)
    × PaysOff start (suc period) row.remaining_balance rows

-- Rows that were made, and that pay off a balance, one for each round.
abbrev MadeRows : Result ScheduleError (List LoanScheduleEntry) → CalendarDate → ℕ → ℤ → ℕ → Type 0
MadeRows made start period balance n =
    (rows : List LoanScheduleEntry) × (made ≡ ok rows)
    × PaysOff start period balance rows
    × (length rows ≡ n)

-- The payment formula divides by no zero: the rate is zero, or the growth over the term is seen in
-- the digits of a decimal.
abbrev pub Divides : (Decimal → ℕ → Decimal) → Decimal → ℕ → LoanRepaymentMethod → Type 0
Divides power rate term balloon = Unit
Divides power rate term principal_and_interest =
    ((monthly_rate rate).coefficient ≡ 0)
    ⊎ ((minus_one (power (one_plus (monthly_rate rate)) term)).coefficient ≢ 0)

abbrev pub IsPaidOff : ℤ → ℕ → CalendarDate → LoanScheduleResponse → Type 0
IsPaidOff principal term start schedule =
    PaysOff start 1 principal schedule.entries
    × (length schedule.entries ≡ term)
    × (sum_ℤ (λ row. row.principal) schedule.entries ≡ principal)
    × (sum_ℤ (λ row. row.payment) schedule.entries
        ≡ principal +ℤ sum_ℤ (λ row. row.interest) schedule.entries)
