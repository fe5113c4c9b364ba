-- ===== src/Tests/Submission.antt =====
-- A draft and its submission at concrete inputs.
use sole_backend.Prelude.{
  ◌≡◌, refl, arith, none, some, [], ◌∷◌, ok, err, codes, eq_text, upper, strip, lstrip,
}
use sole_backend.Prelude.Int.{◌+ℤ◌, ◌-ℤ◌}
use sole_backend.Decimal.{
  decimal, mul, digits_below, digits, half_even, fix, div, quantize, signed, less,
}
use sole_backend.Stock.Membership.{is_active_text, membership_active}
use sole_backend.Stock.Vesting.Dates.{get, put, min_key}
use sole_backend.Stock.Vesting.{
  is_immediate, compute_grant_vesting, aggregate_vesting, next_vesting_event, collect_upcoming,
  normalize_strategy, collect_events, collect_grant, build_grant_summaries, build_grant_summary,
  load_active_grants,
}
use sole_backend.Stock.Eligibility.{
  evaluate_eligibility_from_totals, service_short, membership_reasons, service_reasons,
  vested_reasons,
}
use sole_backend.Loan.Payment.{monthly_rate, payment_interest_only}
use sole_backend.Loan.Allocation.{
  allocate, allocation_of, insert_by_date, sort_by_date, allocate_shares_oldest_first,
}
use sole_backend.Loan.Quotes.{
  build_loan_quote_from_data, resolve_shares_to_exercise, selected_shares, floor_of, adjust,
  reserved_for, down_payment, resolve_term, annual_rate_for, times, loan_quote_option, quote_option,
  monthly_payment_of, options_of_type, build_options,
}
use sole_backend.Loan.Marital.{names, named, known_status, normalize_marital_status}
use sole_backend.Loan.Store.{
  draft, submitted, active, hr_review, finance_processing, legal_execution, hr, finance, legal,
  LoanApplication, StockGrantReservation, Store, submitted_loan, created_draft,
}
use sole_backend.Loan.Reservations.{
  reserve_shares_for_application, reserve_new, check_items, check_item, reservation_for,
  get_active_reservations_by_grant, sum_by_grant,
}
use sole_backend.Loan.Reservations.Bounded.{AreReserved}
use sole_backend.Loan.Workflow.{new_stage}
use sole_backend.Loan.Drafts.{
  invalid_status, Market, DraftCreate, new_draft, new_draft_application, create_draft_application,
  validate_idempotency_key, current_policy_version, policy_version_mismatch,
  selection_value_from_application, terms_of, apply_quote, calculate_loan_quote, quoted_terms,
}
use sole_backend.Loan.Drafts.Created.{create_draft_application-replayed}
use sole_backend.Loan.Submission.{
  requires_spouse_info, missing_spouse_fields, check_spouse, check_marital,
  ensure_core_workflow_stages, submit_request, submitted_row, submit_draft, submit_with,
  submit_application,
}
use sole_backend.Loan.Submission.Submitted.{IsSubmitted, submit_application-IsSubmitted}
use sole_backend.Loan.Submission.Reserved.{submit_application-AreReserved}
use sole_backend.Loan.Submission.RoundTrip.{AreKept, submit_application-AreKept}
use sole_backend.Loan.Submission.Replayed.{
  submit_application-replayed, submit_application-other_key,
}
use sole_backend.Tests.Stock.{portfolio, employee}
use sole_backend.Tests.Loan.{power}
use sole_backend.Tests.Quote.{settings, quote, request}
use sole_backend.Tests.Lifecycle.{application, old_terms, nobody}

abbrev pub market : Market
market = record { settings = settings; variable_base_rate = none; grants = portfolio; today = 400 }

abbrev my_draft : LoanApplication
my_draft = record application { status = draft; marital_status_snapshot = some (codes " single ") }

-- Another loan of the employee holds the first grant, but for two shares.
abbrev pub held : StockGrantReservation
held = record {
  org_id = 7;
  org_membership_id = 3;
  grant_id = 1;
  loan_application_id = 5;
  shares_reserved = 28;
  status = active;
}

abbrev before : Store
before = record {
  applications = my_draft ∷ [];
  stages = [];
  reservations = held ∷ [];
  documents = [];
  repayments = [];
  audit = [];
}

abbrev pub made_row : LoanApplication
made_row = record my_draft {
  status = submitted;
  submit_idempotency_key = some (codes "key");
  terms = record old_terms {
    total_exercisable_shares_snapshot = 7;
    allocation_snapshot = quote.allocation;
  };
}

abbrev after : Store
after = record {
  applications = made_row ∷ [];
  stages =
      new_stage 7 7 hr_review hr
      ∷ new_stage 7 7 finance_processing finance
      ∷ new_stage 7 7 legal_execution legal
      ∷ [];
  reservations =
      held
      ∷ record held { loan_application_id = 7; shares_reserved = 2; status = submitted }
      ∷ record held {
        grant_id = 2;
        loan_application_id = 7;
        shares_reserved = 4;
        status = submitted;
      }
      ∷ [];
  documents = [];
  repayments = [];
  audit = record { actor_id = some 9; action = submitted_loan; loan_application_id = 7 } ∷ [];
}

submit_run :
    submit_application power before 7 employee
      (some (codes "Single"))
      market
      my_draft
      (some (codes " key"))
      (some 9)
    ≡ ok (after, made_row)
unfolding submit_application submit_with submit_draft submitted_row submit_request
    ensure_core_workflow_stages check_marital check_spouse missing_spouse_fields
    requires_spouse_info quoted_terms calculate_loan_quote apply_quote terms_of
    selection_value_from_application policy_version_mismatch current_policy_version
    validate_idempotency_key strip lstrip names named known_status normalize_marital_status
    reserve_shares_for_application reserve_new check_items check_item reservation_for
    get_active_reservations_by_grant sum_by_grant load_active_grants build_loan_quote_from_data
    resolve_shares_to_exercise selected_shares floor_of adjust reserved_for down_payment
    resolve_term annual_rate_for times loan_quote_option quote_option monthly_payment_of
    options_of_type build_options allocate allocation_of insert_by_date sort_by_date
    allocate_shares_oldest_first monthly_rate payment_interest_only signed div mul fix digits
    digits_below half_even quantize less ◌+ℤ◌ ◌-ℤ◌ evaluate_eligibility_from_totals service_short
    membership_reasons service_reasons vested_reasons membership_active is_active_text eq_text upper
    is_immediate normalize_strategy compute_grant_vesting aggregate_vesting next_vesting_event
    collect_upcoming collect_grant collect_events build_grant_summaries build_grant_summary get put
    min_key
submit_run = refl

key_valid : validate_idempotency_key (some (codes " key")) ≡ ok (some (codes "key"))
unfolding validate_idempotency_key strip lstrip
key_valid = refl

submit_application-IsSubmitted_example : IsSubmitted before after 7 market my_draft made_row
submit_application-IsSubmitted_example =
    submit_application-IsSubmitted power before 7 employee (some (codes "Single")) market my_draft
      (some (codes " key")) (some 9) after made_row (((λ e. ground arith), tt), (tt, tt)) refl
      submit_run

submit_application-AreReserved_example :
    AreReserved before after portfolio 7 3 400 made_row.terms.allocation_snapshot
submit_application-AreReserved_example =
    submit_application-AreReserved power before 7 employee (some (codes "Single")) market my_draft
      (some (codes " key")) (some 9) after made_row (((λ e. ground arith), tt), (tt, tt)) refl refl
      submit_run

submit_application-AreKept_example : AreKept old_terms made_row.terms
submit_application-AreKept_example =
    submit_application-AreKept power before 7 employee (some (codes "Single")) market my_draft
      (some (codes " key")) (some 9) after made_row 11 refl refl refl submit_run

-- The row as an edit left it.
abbrev edited_since : LoanApplication
edited_since = record made_row { decision_reason = some (codes "late") }

submit_application-replayed_example :
    submit_application power after 7 employee none market edited_since (some (codes " key")) none
    ≡ ok (after, edited_since)
submit_application-replayed_example =
    submit_application-replayed power before 7 employee (some (codes "Single")) market my_draft
      (some (codes " key")) (codes "key") (some 9) after made_row after employee none market
      edited_since none key_valid submit_run refl refl
      (record { review = refl; processing = refl; execution = refl })

-- The row once it is active.
abbrev launched : LoanApplication
launched = record made_row { status = active }

submit_application-other_key_example :
    submit_application power after 7 employee none market launched none none
    ≡ err (invalid_status active)
unfolding validate_idempotency_key
submit_application-other_key_example =
    submit_application-other_key power before 7 employee (some (codes "Single")) market my_draft
      (some (codes " key")) (codes "key") (some 9) after made_row after employee none market
      launched none none none key_valid submit_run refl refl refl (λ e. cc)

abbrev payload : DraftCreate
payload = record {
  request = request;
  as_of_date = none;
  marital_status_snapshot = none;
  spouse = nobody;
}

abbrev created : LoanApplication
created =
    new_draft 8 7 3 (some (codes "key")) payload
      (record made_row.terms { selection_value_snapshot = decimal 60 1 })

abbrev after_create : Store
after_create = record before {
  applications = my_draft ∷ created ∷ [];
  audit = record { actor_id = some 9; action = created_draft; loan_application_id = 8 } ∷ [];
}

create_run :
    create_draft_application power before 8 7 employee market payload (some (codes " key")) (some 9)
    ≡ ok (after_create, created)
unfolding create_draft_application new_draft_application new_draft quoted_terms calculate_loan_quote
    terms_of current_policy_version validate_idempotency_key strip lstrip
    get_active_reservations_by_grant sum_by_grant load_active_grants build_loan_quote_from_data
    resolve_shares_to_exercise selected_shares floor_of adjust reserved_for down_payment
    resolve_term annual_rate_for times loan_quote_option quote_option monthly_payment_of
    options_of_type build_options allocate allocation_of insert_by_date sort_by_date
    allocate_shares_oldest_first monthly_rate payment_interest_only signed div mul fix digits
    digits_below half_even quantize less ◌+ℤ◌ ◌-ℤ◌ evaluate_eligibility_from_totals service_short
    membership_reasons service_reasons vested_reasons membership_active is_active_text eq_text upper
    is_immediate normalize_strategy compute_grant_vesting aggregate_vesting next_vesting_event
    collect_upcoming collect_grant collect_events build_grant_summaries build_grant_summary get put
    min_key
create_run = refl

create_draft_application-replayed_example :
    create_draft_application power after_create 9 7 employee market payload
      (some (codes " key"))
      none
    ≡ ok (after_create, created)
create_draft_application-replayed_example =
    create_draft_application-replayed power before 8 7 employee market payload (some (codes " key"))
      (codes "key") (some 9) after_create created 9 market payload none key_valid create_run
