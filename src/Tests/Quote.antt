-- ===== src/Tests/Quote.antt =====
-- A quote at a concrete input.
use sole_backend.Prelude.{
  ℕ, ◌≡◌, refl, true, false, arith, none, some, List, [], ◌∷◌, ok, eq_text, upper,
}
use sole_backend.Prelude.Int.{pos, ◌+ℤ◌, ◌-ℤ◌}
use sole_backend.Decimal.{
  decimal, mul, digits_below, digits, half_even, fix, div, quantize, signed, less,
}
use sole_backend.Stock.Membership.{is_active_text, membership_active}
use sole_backend.Stock.Vesting.Dates.{get, put, min_key}
use sole_backend.Stock.Vesting.{
  is_immediate, compute_grant_vesting, aggregate_vesting, next_vesting_event, collect_upcoming,
  normalize_strategy, collect_events, collect_grant, build_grant_summaries, build_grant_summary,
}
use sole_backend.Stock.Eligibility.{
  evaluate_eligibility_from_totals, service_short, membership_reasons, service_reasons,
  vested_reasons,
}
use sole_backend.Loan.Terms.{balloon, principal_and_interest, fixed, variable, shares}
use sole_backend.Loan.Payment.{monthly_rate, payment_interest_only}
use sole_backend.Loan.Allocation.{
  allocate, allocation_of, insert_by_date, sort_by_date, allocate_shares_oldest_first,
}
use sole_backend.Loan.Quotes.{
  LoanQuoteRequest, LoanQuoteResponse, OrgSettings, build_loan_quote_from_data,
  resolve_shares_to_exercise, selected_shares, floor_of, adjust, reserved_for, down_payment,
  resolve_term, annual_rate_for, times, loan_quote_option, quote_option, monthly_payment_of,
  options_of_type, build_options,
}
use sole_backend.Loan.Quotes.Covered.{IsCovered, quote-IsCovered}
use sole_backend.Tests.Stock.{portfolio, employee, policy}
use sole_backend.Tests.Loan.{power}

abbrev pub settings : OrgSettings
settings = record {
  stock_policy = policy;
  allowed_repayment_methods = balloon ∷ principal_and_interest ∷ [];
  allowed_interest_types = fixed ∷ variable ∷ [];
  min_loan_term_months = 6;
  max_loan_term_months = 60;
  fixed_interest_rate_annual_percent = 60000;
  variable_margin_annual_percent = none;
  require_down_payment = false;
  down_payment_percent = none;
  policy_version = some 2;
}

abbrev pub request : LoanQuoteRequest
request = record {
  selection_mode = shares;
  selection_value = decimal 60 1;
  desired_interest_type = some fixed;
  desired_repayment_method = some balloon;
  desired_term_months = some 12;
}

abbrev reserved : List (ℕ × ℕ)
reserved = (1, 28) ∷ []

abbrev pub quote : LoanQuoteResponse
quote = record {
  as_of_date = 400;
  total_exercisable_shares = 7;
  shares_to_exercise = 6;
  purchase_price = 1050;
  down_payment_amount = 0;
  loan_principal = pos 1050;
  options =
      record {
        interest_type = fixed;
        repayment_method = balloon;
        term_months = 12;
        nominal_annual_rate = 600;
        estimated_monthly_payment = pos 5;
        total_payable = pos 1110;
        total_interest = pos 60;
      }
      ∷ [];
  eligibility_result = record {
    eligible_to_exercise = true;
    total_granted_shares = 35;
    total_vested_shares = 35;
    total_unvested_shares = 0;
    reasons = [];
  };
  allocation =
      record {
        grant_id = 1;
        grant_date = 50;
        shares = 2;
        exercise_price = 125;
        purchase_price = 250;
      }
      ∷ record {
        grant_id = 2;
        grant_date = 200;
        shares = 4;
        exercise_price = 200;
        purchase_price = 800;
      }
      ∷ [];
}

quote_run :
    build_loan_quote_from_data power employee settings portfolio request 400 reserved none
    ≡ ok quote
unfolding build_loan_quote_from_data resolve_shares_to_exercise selected_shares floor_of adjust
    reserved_for down_payment resolve_term annual_rate_for times loan_quote_option quote_option
    monthly_payment_of options_of_type build_options allocate allocation_of insert_by_date
    sort_by_date allocate_shares_oldest_first monthly_rate payment_interest_only signed div mul fix
    digits digits_below half_even quantize less ◌+ℤ◌ ◌-ℤ◌ evaluate_eligibility_from_totals
    service_short membership_reasons service_reasons vested_reasons membership_active is_active_text
    eq_text upper is_immediate normalize_strategy compute_grant_vesting aggregate_vesting
    next_vesting_event collect_upcoming collect_grant collect_events build_grant_summaries
    build_grant_summary get put min_key
quote_run = refl

quote-IsCovered_example : IsCovered portfolio 400 reserved quote
quote-IsCovered_example =
    quote-IsCovered power employee settings portfolio request 400 reserved none quote
      (((λ e. ground arith), tt), (tt, tt)) quote_run
