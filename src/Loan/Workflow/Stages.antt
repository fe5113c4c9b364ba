-- ===== src/Loan/Workflow/Stages.antt =====
-- The handlers `update_hr_stage`, `update_finance_stage` and `update_legal_stage` of
-- app/api/v1/routers/loan_admin.py.
use sole_backend.Prelude.{
  ℕ, Bool, true, false, not, ◌&&◌, Option, none, some, List, [], ◌∷◌, ◌==◌, keep, any, all,
  find_first, Text, Result, ok, ◌>>=◌, ◌>>◌, raise_if, or_raise,
}
use sole_backend.Loan.Store.{
  StageType, hr_review, finance_processing, legal_execution, StageStatus, waiting, in_progress,
  done, DocumentType, notice_of_stock_option_grant, spouse_partner_consent, payment_instructions,
  stock_option_exercise_and_loan_agreement, secured_promissory_note, stock_power_and_assignment,
  investment_representation_statement, LoanWorkflowStage, LoanDocument, LoanApplication,
  stage_updated, Store, same_stage, same_document,
}
use sole_backend.Loan.Workflow.{
  WorkflowError, stage_not_found, loan_not_found, invalid_stage_status, mfa_required,
  document_required, scalar_one_or_none, is_row_of, log, complete_row, change_stage,
  try_activate_loan,
}

-- `LoanWorkflowStageUpdateRequest`.
pub record StageUpdate : Type 0 where
  pub status : StageStatus
  pub notes : Option Text

abbrev pub is_document_of : ℕ → ℕ → StageType → DocumentType → LoanDocument → Bool
is_document_of org_id loan_id stage_type document_type d =
    (d.org_id == org_id)
    && (d.loan_application_id == loan_id)
    && same_stage d.stage_type stage_type
    && same_document d.document_type document_type

-- What HR and legal need before they are done.
abbrev pub required_types : StageType → List DocumentType
required_types hr_review = notice_of_stock_option_grant ∷ spouse_partner_consent ∷ []
required_types legal_execution =
    stock_option_exercise_and_loan_agreement ∷ secured_promissory_note ∷ stock_power_and_assignment
    ∷ investment_representation_statement ∷ []
required_types _ = []

unfoldable pub check_documents : Store → ℕ → ℕ → StageType → Result WorkflowError (Unit {0})
check_documents db org_id loan_id stage_type =
    raise_if
      (not (
        all
          (λ document_type.
            any (is_document_of org_id loan_id stage_type document_type) db.documents)
          (required_types stage_type)))
      document_required

-- Finance looks for its one document with `scalar_one_or_none`.
unfoldable pub check_finance_documents : Store → ℕ → ℕ → Result WorkflowError (Unit {0})
check_finance_documents db org_id loan_id = do
  document ←
      scalar_one_or_none
        (keep (is_document_of org_id loan_id finance_processing payment_instructions) db.documents)
  _ ← or_raise document document_required
  ok tt

abbrev pub check_stage_documents : Store → ℕ → ℕ → StageType → Result WorkflowError (Unit {0})
check_stage_documents db org_id loan_id finance_processing =
    check_finance_documents db org_id loan_id
check_stage_documents db org_id loan_id stage_type = check_documents db org_id loan_id stage_type

-- The second factor and the documents are asked for only when the stage is to be completed.
unfoldable pub check_completion :
    Store → ℕ → ℕ → StageType → StageStatus → Bool → Result WorkflowError (Unit {0})
check_completion db org_id loan_id stage_type done mfa_ok = do
  raise_if (not mfa_ok) mfa_required
  check_stage_documents db org_id loan_id stage_type
check_completion db org_id loan_id stage_type status mfa_ok = ok tt

abbrev pub is_accepted : StageStatus → Bool
is_accepted waiting = false
is_accepted in_progress = true
is_accepted done = true

-- The row of the stage as the handler leaves it.
abbrev pub updated_row : StageStatus → Option Text → ℕ → ℕ → LoanWorkflowStage → LoanWorkflowStage
updated_row done notes user_id now stage = record (complete_row now (some user_id) stage) {
  notes = notes;
}
updated_row status notes user_id now stage = record stage {
  status = status;
  notes = notes;
  completed_at = none;
  completed_by_user_id = none;
}

unfoldable pub get_stage_or_404 : Store → ℕ → ℕ → StageType → Result WorkflowError LoanWorkflowStage
get_stage_or_404 db org_id loan_id stage_type = do
  stage ← scalar_one_or_none (keep (is_row_of org_id loan_id stage_type) db.stages)
  or_raise stage stage_not_found

unfoldable pub get_application_or_404 : Store → ℕ → ℕ → Result WorkflowError LoanApplication
get_application_or_404 db org_id loan_id =
    or_raise (find_first (λ row. (row.org_id == org_id) && (row.id == loan_id)) db.applications)
      loan_not_found

-- The body that the three handlers share; `mfa_ok` is the outcome of `require_mfa_for_action`.
unfoldable pub update_stage :
    Store → ℕ → ℕ → StageType → StageUpdate → Bool → ℕ → ℕ → Result WorkflowError Store
update_stage db org_id loan_id stage_type payload mfa_ok user_id now = do
  stage ← get_stage_or_404 db org_id loan_id stage_type
  application ← get_application_or_404 db org_id loan_id
  raise_if (not (is_accepted payload.status)) invalid_stage_status
  check_completion db org_id loan_id stage_type payload.status mfa_ok
  let changed =
      change_stage org_id loan_id stage_type (updated_row payload.status payload.notes user_id now)
        db
  ok (
      log (try_activate_loan changed org_id application (some user_id) now).0 (record {
        actor_id = some user_id;
        action = stage_updated stage_type stage.status payload.status;
        loan_application_id = loan_id;
      }))

unfoldable pub update_hr_stage :
    Store → ℕ → ℕ → StageUpdate → Bool → ℕ → ℕ → Result WorkflowError Store
update_hr_stage db org_id loan_id = update_stage db org_id loan_id hr_review

unfoldable pub update_finance_stage :
    Store → ℕ → ℕ → StageUpdate → Bool → ℕ → ℕ → Result WorkflowError Store
update_finance_stage db org_id loan_id = update_stage db org_id loan_id finance_processing

unfoldable pub update_legal_stage :
    Store → ℕ → ℕ → StageUpdate → Bool → ℕ → ℕ → Result WorkflowError Store
update_legal_stage db org_id loan_id = update_stage db org_id loan_id legal_execution
