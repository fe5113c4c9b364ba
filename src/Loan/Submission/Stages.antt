-- ===== src/Loan/Submission/Stages.antt =====
-- What `_ensure_core_workflow_stages` of app/services/loan_applications.py leaves.
use sole_backend.Prelude.{ℕ, ◌≡◌, ap, ◌∙◌, List, [], ◌++◌}
use sole_backend.Loan.Store.{
  hr_review, finance_processing, legal_execution, hr, finance, legal, LoanWorkflowStage, Store,
}
use sole_backend.Loan.Workflow.{is_row_of, ensure_stage}
use sole_backend.Loan.Lifecycle.Launched.{Has, Grows, any-append_left, ensured}
use sole_backend.Loan.Submission.{ensure_core_workflow_stages}
use mathlib.Core.List.{append-nil}

-- An application has each stage of the core workflow.
pub record HasCore (stages : List LoanWorkflowStage) (org_id loan_id : ℕ) : Type 0 where
  pub review : Has stages org_id loan_id hr_review
  pub processing : Has stages org_id loan_id finance_processing
  pub execution : Has stages org_id loan_id legal_execution

pub ensure_core-Grows :
    (db : Store) (org_id loan_id : ℕ)
    → Grows db.stages (ensure_core_workflow_stages db org_id loan_id).stages
unfolding ensure_core_workflow_stages
ensure_core-Grows db org_id loan_id o l stage_type h =
    let p = is_row_of o l stage_type in
    let one = ensure_stage org_id loan_id db.stages hr_review hr in
    let two = ensure_stage org_id loan_id db.stages finance_processing finance in
    let three = ensure_stage org_id loan_id db.stages legal_execution legal in
    any-append_left p (db.stages ++ one ++ two) three
      (any-append_left p (db.stages ++ one) two (any-append_left p db.stages one h))

pub ensure_core-HasCore :
    (db : Store) (org_id loan_id : ℕ)
    → HasCore (ensure_core_workflow_stages db org_id loan_id).stages org_id loan_id
unfolding ensure_core_workflow_stages
ensure_core-HasCore db org_id loan_id =
    let one = ensure_stage org_id loan_id db.stages hr_review hr in
    let two = ensure_stage org_id loan_id db.stages finance_processing finance in
    let three = ensure_stage org_id loan_id db.stages legal_execution legal in
    record {
      review =
          any-append_left (is_row_of org_id loan_id hr_review) (db.stages ++ one ++ two) three (
            any-append_left (is_row_of org_id loan_id hr_review) (db.stages ++ one) two
              (ensured org_id loan_id db.stages db.stages hr_review hr (λ h. h)));
      processing =
          any-append_left (is_row_of org_id loan_id finance_processing) (db.stages ++ one ++ two)
            three
            (ensured org_id loan_id db.stages (db.stages ++ one) finance_processing finance
              (any-append_left (is_row_of org_id loan_id finance_processing) db.stages one));
      execution =
          ensured org_id loan_id db.stages (db.stages ++ one ++ two) legal_execution legal (λ h.
            any-append_left (is_row_of org_id loan_id legal_execution) (db.stages ++ one) two
              (any-append_left (is_row_of org_id loan_id legal_execution) db.stages one h));
    }

-- A second time, nothing is added.
pub ensure_core-same :
    (db : Store) (org_id loan_id : ℕ)
    → HasCore db.stages org_id loan_id
    → ensure_core_workflow_stages db org_id loan_id ≡ db
unfolding ensure_core_workflow_stages
ensure_core-same db org_id loan_id has =
    rw (has.review, has.processing, has.execution)
      (ap (λ stages. record db { stages = stages })
        (append-nil (db.stages ++ [] ++ []) ∙ append-nil (db.stages ++ []) ∙ append-nil db.stages))
