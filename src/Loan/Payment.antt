-- ===== src/Loan/Payment.antt =====
-- The payment of one period: `_monthly_rate`, `_payment_principal_and_interest` and
-- `_payment_interest_only` of app/services/loan_quotes.py, which app/services/loan_schedules.py has
-- again. Amounts are whole cents. The power of a `Decimal` is a parameter: its last digit is not
-- documented.
use sole_backend.Prelude.{ℕ, Option, none, some, ◌==◌, if◌then◌else◌}
use sole_backend.Prelude.Int.{ℤ, pos}
use sole_backend.Decimal.{Decimal, decimal, cents, mul, div, one_plus, minus_one, quantize, signed}

unfoldable pub monthly_rate : Decimal → Decimal
monthly_rate annual_rate_percent = div annual_rate_percent (decimal 1200 0)

-- `(principal * rate).quantize(...)`
unfoldable pub payment_interest_only : ℤ → Decimal → ℤ
payment_interest_only principal annual_rate_percent =
    signed (λ p. quantize (mul (cents p) (monthly_rate annual_rate_percent))) principal

module _ (power : Decimal → ℕ → Decimal) where
  -- `(1 + rate) ** term_months`
  abbrev pub growth_factor : Decimal → ℕ → Decimal
  growth_factor rate term_months = power (one_plus rate) term_months

  -- None where the factor less one is zero: the division then raises DivisionByZero, or
  -- InvalidOperation if the principal is zero too.
  unfoldable pub amortised_payment : Decimal → ℕ → ℤ → Option ℤ
  amortised_payment rate term_months principal =
      let factor = growth_factor rate term_months in
      let divisor = minus_one factor in
      if divisor.coefficient == 0
      then none
      else some (signed (λ p. quantize (div (mul (mul (cents p) rate) factor) divisor)) principal)

  unfoldable pub payment_principal_and_interest : ℤ → Decimal → ℕ → Option ℤ
  payment_principal_and_interest principal annual_rate_percent term_months =
      let rate = monthly_rate annual_rate_percent in
      if term_months == 0
      then some (pos 0)
      else if rate.coefficient == 0
      then some (signed (λ p. quantize (div (cents p) (decimal term_months 0))) principal)
      else amortised_payment rate term_months principal
