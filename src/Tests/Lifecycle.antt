-- ===== src/Tests/Lifecycle.antt =====
-- The workflow of an application at concrete inputs.
use sole_backend.Prelude.{
  ◌⊎◌, All, ◌≡◌, refl, true, none, some, List, [], ◌∷◌, map, ok, err, Result, arith, eq_text, upper,
}
use sole_backend.Stock.Vesting.Dates.{get, put}
use sole_backend.Stock.Vesting.{compute_grant_vesting, is_immediate, normalize_strategy}
use sole_backend.Loan.Allocation.{LoanShareAllocation}
use sole_backend.Prelude.Int.{pos}
use sole_backend.Decimal.{decimal}
use sole_backend.Loan.Terms.{shares, fixed, balloon}
use sole_backend.Loan.Store.{
  Spouse, QuoteTerms, submitted, active, StageType, hr_review, finance_processing, legal_execution,
  StageStatus, in_progress, done, legal, DocumentType, stock_option_exercise_and_loan_agreement,
  secured_promissory_note, stock_power_and_assignment, investment_representation_statement,
  LoanWorkflowStage, LoanDocument, LoanApplication, Store,
}
use sole_backend.Loan.Reservations.{
  reserve_shares_for_application, reserve_new, check_items, check_item,
  get_active_reservations_by_grant, sum_by_grant, set_reservation_status_for_application,
  reservation_for,
}
use sole_backend.Loan.Reservations.Bounded.{AreReserved, reserve_shares-AreReserved}
use sole_backend.Loan.Workflow.{
  try_activate_loan, activate, all_completed, status_at, ensure_post_activation_stages,
}
use sole_backend.Loan.Workflow.Stages.{
  StageUpdate, update_legal_stage, update_stage, check_completion, check_documents,
  get_stage_or_404, get_application_or_404,
}
use sole_backend.Loan.Lifecycle.{RepaymentPayload, record_repayment, settle}
use sole_backend.Loan.Lifecycle.Launched.{AreLaunched, is_launched}
use sole_backend.Loan.Lifecycle.Gated.{WasLaunched}
use sole_backend.Loan.Lifecycle.Done.{AllDone}
use sole_backend.Loan.Lifecycle.Activation.{Step-AllDone}
use sole_backend.Loan.Lifecycle.Steps.{legal_step, repayment_step, stay, go, Steps-AreLaunched}
use sole_backend.Loan.Lifecycle.Repaid.{IsRecorded, record_repayment-IsRecorded}
use sole_backend.Tests.Stock.{portfolio}

abbrev stage : StageType → StageStatus → LoanWorkflowStage
stage stage_type status = record {
  org_id = 7;
  loan_application_id = 7;
  stage_type = stage_type;
  status = status;
  assigned_role_hint = legal;
  notes = none;
  completed_at = none;
  completed_by_user_id = none;
}

abbrev document : DocumentType → LoanDocument
document document_type = record {
  org_id = 7;
  loan_application_id = 7;
  stage_type = legal_execution;
  document_type = document_type;
}

abbrev pub nobody : Spouse
nobody = record {
  first_name = none;
  middle_name = none;
  last_name = none;
  email = none;
  phone = none;
  address = none;
}

abbrev pub old_terms : QuoteTerms
old_terms = record {
  as_of_date = 400;
  selection_mode = shares;
  selection_value_snapshot = decimal 6 0;
  shares_to_exercise = 6;
  total_exercisable_shares_snapshot = 35;
  purchase_price = 1050;
  down_payment_amount = 0;
  loan_principal = pos 1050;
  policy_version_snapshot = some 2;
  interest_type = fixed;
  repayment_method = balloon;
  term_months = 12;
  nominal_annual_rate = 600;
  estimated_monthly_payment = pos 5;
  total_payable = pos 1110;
  total_interest = pos 60;
  allocation_snapshot = [];
}

abbrev pub application : LoanApplication
application = record {
  id = 7;
  org_id = 7;
  org_membership_id = 3;
  status = submitted;
  decision_reason = none;
  total_payable_amount = 1110;
  activation_date = none;
  election_83b_due_date = none;
  create_idempotency_key = none;
  submit_idempotency_key = none;
  marital_status_snapshot = none;
  spouse = nobody;
  terms = old_terms;
}

abbrev before_legal : Store
before_legal = record {
  applications = application ∷ [];
  stages =
      stage hr_review done ∷ stage finance_processing done ∷ stage legal_execution in_progress ∷ [];
  reservations = [];
  documents =
      document stock_option_exercise_and_loan_agreement
      ∷ document secured_promissory_note
      ∷ document stock_power_and_assignment
      ∷ document investment_representation_statement
      ∷ [];
  repayments = [];
  audit = [];
}

abbrev store_or {ℓ} : {E : Type ℓ} → Store → Result E Store → Store
store_or db (ok last) = last
store_or db (err e) = db

abbrev all_done : StageUpdate
all_done = record { status = done; notes = none }

abbrev running : Store
running = store_or before_legal (update_legal_stage before_legal 7 7 all_done true 5 1000000)

abbrev running_loan : LoanApplication
running_loan = record application {
  status = active;
  activation_date = some 1000000;
  election_83b_due_date = some 41;
}

legal_run : update_legal_stage before_legal 7 7 all_done true 5 1000000 ≡ ok running
unfolding update_legal_stage update_stage check_completion check_documents get_stage_or_404
    get_application_or_404 try_activate_loan activate all_completed status_at
    ensure_post_activation_stages set_reservation_status_for_application
legal_run = refl

running_run : get_application_or_404 running 7 7 ≡ ok running_loan
unfolding update_legal_stage update_stage check_completion check_documents get_stage_or_404
    get_application_or_404 try_activate_loan activate all_completed status_at
    ensure_post_activation_stages set_reservation_status_for_application
running_run = refl

abbrev payment : RepaymentPayload
payment = record {
  amount = 1110;
  principal_amount = 1050;
  interest_amount = 61;
  payment_date = 700;
}

abbrev settled : Store
settled = store_or running (record_repayment running 7 running_loan payment 5)

payment_run : record_repayment running 7 running_loan payment 5 ≡ ok settled
unfolding record_repayment settle
payment_run = refl

Steps-AreLaunched_example : AreLaunched settled
Steps-AreLaunched_example =
    Steps-AreLaunched 7 before_legal settled
      (go before_legal running settled
        (legal_step before_legal running 7 all_done true 5 1000000 legal_run)
        (go running settled settled
          (repayment_step running settled 7 running_loan payment 5 running_run payment_run)
          (stay settled)))
      ((λ h. absurd (ground arith)), tt)

Step-AllDone_example :
    All
      (λ row.
        is_launched row.status ≡ true
        → WasLaunched before_legal.applications row.org_id row.id
          ⊎ AllDone running row.org_id row.id)
      running.applications
Step-AllDone_example =
    Step-AllDone 7 before_legal running
      (legal_step before_legal running 7 all_done true 5 1000000 legal_run)

record_repayment-IsRecorded_example : IsRecorded running settled 7 running_loan payment 5
record_repayment-IsRecorded_example =
    record_repayment-IsRecorded running settled 7 running_loan payment 5 payment_run

abbrev allocation : List LoanShareAllocation
allocation =
    record { grant_id = 1; grant_date = 50; shares = 2; exercise_price = 125; purchase_price = 250 }
    ∷ record {
      grant_id = 2;
      grant_date = 200;
      shares = 4;
      exercise_price = 200;
      purchase_price = 800;
    }
    ∷ []

abbrev reserved_store : Store
reserved_store = record before_legal {
  reservations = map (reservation_for 7 3 application) allocation;
}

reserve_run :
    reserve_shares_for_application before_legal portfolio 7 3 application allocation 400
    ≡ ok reserved_store
unfolding reserve_shares_for_application reserve_new check_items check_item
    get_active_reservations_by_grant sum_by_grant get put compute_grant_vesting is_immediate
    normalize_strategy eq_text upper
reserve_run = refl

reserve_shares-AreReserved_example :
    AreReserved before_legal reserved_store portfolio 7 3 400 allocation
reserve_shares-AreReserved_example =
    reserve_shares-AreReserved before_legal reserved_store portfolio 7 3 application allocation 400
      refl (((λ p. absurd (omega (arith, p))), tt), (tt, tt)) refl reserve_run
