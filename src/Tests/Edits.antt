-- ===== src/Tests/Edits.antt =====
-- An edit by an administrator at a concrete input.
use sole_backend.Prelude.{◌≡◌, refl, arith, true, none, some, [], ◌∷◌, ok, eq_text, upper}
use sole_backend.Prelude.Int.{pos, ◌+ℤ◌, ◌-ℤ◌}
use sole_backend.Decimal.{
  decimal, mul, digits_below, digits, half_even, fix, div, quantize, signed, less,
}
use sole_backend.Stock.Membership.{is_active_text, membership_active}
use sole_backend.Stock.Vesting.Dates.{get, put, min_key}
use sole_backend.Stock.Vesting.{
  is_immediate, compute_grant_vesting, aggregate_vesting, next_vesting_event, collect_upcoming,
  normalize_strategy, collect_events, collect_grant, build_grant_summaries, build_grant_summary,
  load_active_grants,
}
use sole_backend.Stock.Eligibility.{
  evaluate_eligibility_from_totals, service_short, membership_reasons, service_reasons,
  vested_reasons,
}
use sole_backend.Loan.Payment.{monthly_rate, payment_interest_only}
use sole_backend.Loan.Allocation.{
  allocate, allocation_of, insert_by_date, sort_by_date, allocate_shares_oldest_first,
}
use sole_backend.Loan.Quotes.{
  build_loan_quote_from_data, resolve_shares_to_exercise, selected_shares, floor_of, adjust,
  reserved_for, down_payment, resolve_term, annual_rate_for, times, loan_quote_option, quote_option,
  monthly_payment_of, options_of_type, build_options,
}
use sole_backend.Loan.Store.{
  submitted, in_review, hr_review, finance_processing, legal_execution, hr, finance, legal,
  LoanApplication, Store, admin_edit,
}
use sole_backend.Loan.Reservations.{
  delete_reservations_for_application, reserve_shares_for_application, reserve_new, check_items,
  check_item, reservation_for, get_active_reservations_by_grant, sum_by_grant,
}
use sole_backend.Loan.Reservations.Bounded.{AreReserved}
use sole_backend.Loan.Workflow.{new_stage}
use sole_backend.Loan.Drafts.{
  current_policy_version, selection_value_from_application, terms_of, apply_quote,
  calculate_loan_quote, quoted_terms, merge_spouse, merged, request_for,
}
use sole_backend.Loan.Submission.{ensure_core_workflow_stages}
use sole_backend.Loan.Edits.{
  AdminEdit, delete_loan_documents, reset_workflow_stages, clear_loan, edited_row,
  replace_reservations, requote_application, update_admin_application_fields,
}
use sole_backend.Loan.Edits.Replaced.{update_admin_application_fields-AreReserved}
use sole_backend.Tests.Stock.{portfolio, employee}
use sole_backend.Tests.Loan.{power}
use sole_backend.Tests.Lifecycle.{nobody}
use sole_backend.Tests.Submission.{market, held, made_row}

-- The application of seven holds one share of the first grant.
abbrev before : Store
before = record {
  applications = made_row ∷ [];
  stages = [];
  reservations =
      held ∷ record held { loan_application_id = 7; shares_reserved = 1; status = submitted } ∷ [];
  documents = [];
  repayments = [];
  audit = [];
}

-- Five shares are asked for, and the workflow starts anew.
abbrev edit : AdminEdit
edit = record {
  selection = record {
    selection_mode = none;
    selection_value = some (decimal 5 0);
    as_of_date = none;
    desired_interest_type = none;
    desired_repayment_method = none;
    desired_term_months = none;
  };
  marital_status_snapshot = none;
  spouse = nobody;
  reset_workflow = true;
  delete_documents = true;
}

abbrev edited : LoanApplication
edited = record made_row {
  status = in_review;
  total_payable_amount = 985;
  terms = record made_row.terms {
    selection_value_snapshot = decimal 5 0;
    shares_to_exercise = 5;
    total_exercisable_shares_snapshot = 6;
    purchase_price = 925;
    loan_principal = pos 925;
    estimated_monthly_payment = pos 5;
    total_payable = pos 985;
    total_interest = pos 60;
    allocation_snapshot =
        record {
          grant_id = 1;
          grant_date = 50;
          shares = 1;
          exercise_price = 125;
          purchase_price = 125;
        }
        ∷ record {
          grant_id = 2;
          grant_date = 200;
          shares = 4;
          exercise_price = 200;
          purchase_price = 800;
        }
        ∷ [];
  };
}

abbrev after : Store
after = record {
  applications = edited ∷ [];
  stages =
      new_stage 7 7 hr_review hr
      ∷ new_stage 7 7 finance_processing finance
      ∷ new_stage 7 7 legal_execution legal
      ∷ [];
  reservations =
      held
      ∷ record held { loan_application_id = 7; shares_reserved = 1; status = in_review }
      ∷ record held {
        grant_id = 2;
        loan_application_id = 7;
        shares_reserved = 4;
        status = in_review;
      }
      ∷ [];
  documents = [];
  repayments = [];
  audit =
      record {
        actor_id = some 9;
        action = admin_edit submitted in_review true 0;
        loan_application_id = 7;
      }
      ∷ [];
}

edit_run :
    update_admin_application_fields power before 7 (some employee) market made_row edit 9
    ≡ ok (after, edited)
unfolding update_admin_application_fields requote_application replace_reservations edited_row
    clear_loan reset_workflow_stages delete_loan_documents delete_reservations_for_application
    ensure_core_workflow_stages request_for merge_spouse merged quoted_terms calculate_loan_quote
    apply_quote terms_of selection_value_from_application current_policy_version
    reserve_shares_for_application reserve_new check_items check_item reservation_for
    get_active_reservations_by_grant sum_by_grant load_active_grants build_loan_quote_from_data
    resolve_shares_to_exercise selected_shares floor_of adjust reserved_for down_payment
    resolve_term annual_rate_for times loan_quote_option quote_option monthly_payment_of
    options_of_type build_options allocate allocation_of insert_by_date sort_by_date
    allocate_shares_oldest_first monthly_rate payment_interest_only signed div mul fix digits
    digits_below half_even quantize less ◌+ℤ◌ ◌-ℤ◌ evaluate_eligibility_from_totals service_short
    membership_reasons service_reasons vested_reasons membership_active is_active_text eq_text upper
    is_immediate normalize_strategy compute_grant_vesting aggregate_vesting next_vesting_event
    collect_upcoming collect_grant collect_events build_grant_summaries build_grant_summary get put
    min_key
edit_run = refl

update_admin_application_fields-AreReserved_example :
    AreReserved
      (delete_reservations_for_application before 7 7)
      after
      portfolio
      7
      3
      400
      edited.terms.allocation_snapshot
update_admin_application_fields-AreReserved_example =
    update_admin_application_fields-AreReserved power before 7 (some employee) market made_row edit
      9 after edited employee (((λ e. ground arith), tt), (tt, tt)) refl refl refl edit_run
