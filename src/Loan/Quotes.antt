-- ===== src/Loan/Quotes.antt =====
-- app/services/loan_quotes.py. Amounts are whole cents, rates and selected values are decimals that
-- are not negative (`LoanQuoteRequest` and the columns of app/models/org_settings.py).
pub mod Covered
pub mod Distinct
use sole_backend.Prelude.{
  ℕ, zero, suc, ◌+◌, ◌-◌, ◌*◌, ◌/◌, ◌%◌, ◌^◌, Bool, true, false, not, ◌||◌, ◌&&◌, Option, none,
  some, List, [], ◌∷◌, ◌++◌, map, ltb, leb, ◌==◌, if◌then◌else◌, any, sum_of, Result, ok, err,
  ◌>>=◌, ◌>>◌, raise_if, or_raise,
}
use sole_backend.Prelude.Int.{ℤ, pos, negsuc, sub_ℕ, ◌+ℤ◌, ◌-ℤ◌}
use sole_backend.Decimal.{Decimal, decimal, cents, mul, div, add, quantize, signed}
use sole_backend.Stock.Membership.{OrgMembership}
use sole_backend.Stock.Vesting.{
  EmployeeStockGrant, GrantVestingSummary, VestingTotals, aggregate_vesting, build_grant_summaries,
}
use sole_backend.Stock.Eligibility.{
  StockPolicy, EligibilityReason, EligibilityResult, evaluate_eligibility_from_totals, or_zero,
}
use sole_backend.Loan.Terms.{
  LoanInterestType, fixed, variable, LoanRepaymentMethod, balloon, principal_and_interest,
  LoanSelectionMode, percent, shares, same_interest, same_method,
}
use sole_backend.Loan.Payment.{payment_interest_only, payment_principal_and_interest}
use sole_backend.Loan.Allocation.{LoanShareAllocation, allocate_shares_oldest_first}

pub data LoanQuoteError : Type 0 where
  exercise_ineligible : List EligibilityReason → LoanQuoteError
  no_exercisable_shares : LoanQuoteError
  invalid_percent invalid_shares not_whole zero_shares : LoanQuoteError
  shares_exceed_eligibility : LoanQuoteError
  interest_type_not_allowed repayment_method_not_allowed : LoanQuoteError
  invalid_term : LoanQuoteError
  variable_rate_missing : LoanQuoteError
  no_quote_options : LoanQuoteError
  -- The ZeroDivisionError of the payment formula, which no code here catches.
  division_by_zero : LoanQuoteError

pub record LoanQuoteRequest : Type 0 where
  pub selection_mode : LoanSelectionMode
  pub selection_value : Decimal
  pub desired_interest_type : Option LoanInterestType
  pub desired_repayment_method : Option LoanRepaymentMethod
  pub desired_term_months : Option ℕ

-- Percentages are in hundredths (the down payment) or ten-thousandths (the rates), as in the table.
pub record OrgSettings : Type 0 where
  pub stock_policy : StockPolicy
  pub allowed_repayment_methods : List LoanRepaymentMethod
  pub allowed_interest_types : List LoanInterestType
  pub min_loan_term_months : ℕ
  pub max_loan_term_months : ℕ
  pub fixed_interest_rate_annual_percent : ℕ
  pub variable_margin_annual_percent : Option ℕ
  pub require_down_payment : Bool
  pub down_payment_percent : Option ℕ
  pub policy_version : Option ℕ

pub record LoanQuoteOption : Type 0 where
  pub interest_type : LoanInterestType
  pub repayment_method : LoanRepaymentMethod
  pub term_months : ℕ
  pub nominal_annual_rate : ℕ
  pub estimated_monthly_payment : ℤ
  pub total_payable : ℤ
  pub total_interest : ℤ

pub record LoanQuoteResponse : Type 0 where
  pub as_of_date : ℕ
  pub total_exercisable_shares : ℕ
  pub shares_to_exercise : ℕ
  pub purchase_price : ℕ
  pub down_payment_amount : ℕ
  pub loan_principal : ℤ
  pub options : List LoanQuoteOption
  pub eligibility_result : EligibilityResult
  pub allocation : List LoanShareAllocation

-- `reserved_by_grant.get(grant_id, 0)` on the rows of the dictionary, whose keys are distinct.
unfoldable pub reserved_for : ℕ → List (ℕ × ℕ) → ℕ
reserved_for id [] = 0
reserved_for id ((grant_id, n) ∷ rest) = if grant_id == id then n else reserved_for id rest

unfoldable pub floor_of : Decimal → ℕ
floor_of d = d.coefficient / 10 ^ d.scale

unfoldable pub selected_shares : LoanSelectionMode → Decimal → ℕ → Result LoanQuoteError ℕ
selected_shares percent value total = do
  raise_if (value.coefficient == 0 || ltb (100 * 10 ^ value.scale) value.coefficient)
      invalid_percent
  ok (floor_of (div (mul (decimal total 0) value) (decimal 100 0)))
selected_shares shares value total = do
  raise_if (value.coefficient == 0) invalid_shares
  raise_if (not (value.coefficient % 10 ^ value.scale == 0)) not_whole
  ok (floor_of value)

unfoldable pub resolve_shares_to_exercise :
    LoanSelectionMode → Decimal → ℕ → Result LoanQuoteError ℕ
resolve_shares_to_exercise mode value total_exercisable_shares = do
  raise_if (total_exercisable_shares == 0) no_exercisable_shares
  count ← selected_shares mode value total_exercisable_shares
  raise_if (count == 0) zero_shares
  raise_if (ltb total_exercisable_shares count) shares_exceed_eligibility
  ok count

-- A summary with the shares that are not reserved in place of the vested ones.
unfoldable pub adjust : List (ℕ × ℕ) → GrantVestingSummary → GrantVestingSummary
adjust reserved summary = record summary {
  vested_shares = summary.vested_shares - reserved_for summary.grant_id reserved;
}

unfoldable pub down_payment : OrgSettings → ℕ → ℕ
down_payment settings purchase_price =
    if settings.require_down_payment
    then quantize (
        div (mul (cents purchase_price) (decimal (or_zero settings.down_payment_percent) 2))
          (decimal 100 0))
    else 0

-- `desired not in allowed`, where one is desired.
abbrev pub is_refused {ℓ} : {A : Type ℓ} → (A → A → Bool) → Option A → List A → Bool
is_refused same none allowed = false
is_refused same (some desired) allowed = not (any (same desired) allowed)

abbrev pub choices {ℓ} : {A : Type ℓ} → Option A → List A → List A
choices none allowed = allowed
choices (some desired) allowed = desired ∷ []

-- `request.desired_term_months or min_term`
abbrev pub desired_term : Option ℕ → ℕ → ℕ
desired_term none min_term = min_term
desired_term (some zero) min_term = min_term
desired_term (some (suc n)) min_term = suc n

-- That term, inside the bounds of the policy.
unfoldable pub resolve_term : Option ℕ → ℕ → ℕ → Result LoanQuoteError ℕ
resolve_term desired min_term max_term = do
  let term = desired_term desired min_term
  raise_if (ltb term min_term || ltb max_term term) invalid_term
  ok term

unfoldable pub annual_rate_for :
    OrgSettings → Option Decimal → LoanInterestType → Result LoanQuoteError Decimal
annual_rate_for settings base fixed = ok (decimal settings.fixed_interest_rate_annual_percent 4)
annual_rate_for settings none variable = err variable_rate_missing
annual_rate_for settings (some base) variable = elim settings.variable_margin_annual_percent [
  | none ↦ err variable_rate_missing
  | some margin ↦ ok (add base (decimal margin 4))
]

abbrev pub has_no_option : List LoanQuoteOption → Bool
has_no_option [] = true
has_no_option (option ∷ options) = false

-- n times an amount.
unfoldable pub times : ℕ → ℤ → ℤ
times zero a = pos 0
times (suc n) a = a +ℤ times n a

-- The option whose monthly payment is known.
unfoldable pub quote_option :
    LoanInterestType → LoanRepaymentMethod → ℕ → Decimal → ℤ → ℤ → LoanQuoteOption
quote_option interest_type repayment_method term_months annual_rate principal monthly_payment =
    let paid = times term_months monthly_payment in
    let total_payable : ℤ = elim repayment_method [
      | principal_and_interest ↦ paid
      | balloon ↦ paid +ℤ principal
    ] in
    record {
      interest_type = interest_type;
      repayment_method = repayment_method;
      term_months = term_months;
      nominal_annual_rate = quantize annual_rate;
      estimated_monthly_payment = monthly_payment;
      total_payable = total_payable;
      total_interest = total_payable -ℤ principal;
    }

module _ (power : Decimal → ℕ → Decimal) where
  unfoldable pub monthly_payment_of :
      LoanRepaymentMethod → ℕ → Decimal → ℤ → Result LoanQuoteError ℤ
  monthly_payment_of principal_and_interest term_months annual_rate principal =
      or_raise (payment_principal_and_interest power principal annual_rate term_months)
        division_by_zero
  monthly_payment_of balloon term_months annual_rate principal =
      ok (payment_interest_only principal annual_rate)

  unfoldable pub loan_quote_option :
      LoanInterestType
      → LoanRepaymentMethod
      → ℕ
      → Decimal
      → ℤ
      → Result LoanQuoteError LoanQuoteOption
  loan_quote_option interest_type repayment_method term_months annual_rate principal = do
    monthly_payment ← monthly_payment_of repayment_method term_months annual_rate principal
    ok (
        quote_option interest_type repayment_method term_months annual_rate principal
          monthly_payment)

  -- The loop over the repayment methods.
  unfoldable pub options_of_type :
      LoanInterestType
      → ℕ
      → Decimal
      → ℤ
      → List LoanRepaymentMethod
      → Result LoanQuoteError (List LoanQuoteOption)
  options_of_type interest_type term annual_rate principal [] = ok []
  options_of_type interest_type term annual_rate principal (method ∷ methods) = do
    option ← loan_quote_option interest_type method term annual_rate principal
    rest ← options_of_type interest_type term annual_rate principal methods
    ok (option ∷ rest)

  -- The loop over the interest types; the first rate that is missing, or payment
  -- that cannot be computed, ends it.
  unfoldable pub build_options :
      OrgSettings
      → Option Decimal
      → ℕ
      → ℤ
      → List LoanRepaymentMethod
      → List LoanInterestType
      → Result LoanQuoteError (List LoanQuoteOption)
  build_options settings base term principal methods [] = ok []
  build_options settings base term principal methods (interest_type ∷ types) = do
    annual_rate ← annual_rate_for settings base interest_type
    options ← options_of_type interest_type term annual_rate principal methods
    rest ← build_options settings base term principal methods types
    ok (options ++ rest)

  unfoldable pub build_loan_quote_from_data :
      OrgMembership
      → OrgSettings
      → List EmployeeStockGrant
      → LoanQuoteRequest
      → ℕ
      → List (ℕ × ℕ)
      → Option Decimal
      → Result LoanQuoteError LoanQuoteResponse
  build_loan_quote_from_data membership settings grants request as_of_date reserved base = do
    let totals = aggregate_vesting grants as_of_date
    let available = totals.total_vested_shares - sum_of (λ row. row.1) reserved
    let eligibility =
        evaluate_eligibility_from_totals membership settings.stock_policy totals as_of_date
    raise_if (not eligibility.eligible_to_exercise) (exercise_ineligible eligibility.reasons)
    count ← resolve_shares_to_exercise request.selection_mode request.selection_value available
    let summaries = map (adjust reserved) (build_grant_summaries grants as_of_date)
    let allocated = allocate_shares_oldest_first summaries count
    let down = down_payment settings allocated.0
    let principal = sub_ℕ allocated.0 down
    raise_if
        (is_refused same_interest request.desired_interest_type settings.allowed_interest_types)
        interest_type_not_allowed
    raise_if
        (is_refused same_method request.desired_repayment_method settings.allowed_repayment_methods)
        repayment_method_not_allowed
    term ←
        resolve_term request.desired_term_months settings.min_loan_term_months
          settings.max_loan_term_months
    options ←
        build_options settings base term principal
          (choices request.desired_repayment_method settings.allowed_repayment_methods)
          (choices request.desired_interest_type settings.allowed_interest_types)
    raise_if (has_no_option options) no_quote_options
    ok (record {
      as_of_date = as_of_date;
      total_exercisable_shares = available;
      shares_to_exercise = count;
      purchase_price = allocated.0;
      down_payment_amount = down;
      loan_principal = principal;
      options = options;
      eligibility_result = eligibility;
      allocation = allocated.1;
    })
