-- ===== src/Loan/Lifecycle/Steps.antt =====
-- The steps that the handlers of the workflow make, and what every sequence of them keeps.
use sole_backend.Prelude.{ℕ, ◌≡◌, Bool, Option, Text, ok}
use sole_backend.Loan.Store.{
  LoanStatus, hr_review, finance_processing, legal_execution, LoanApplication, Store,
}
use sole_backend.Decimal.{Decimal}
use sole_backend.Stock.Membership.{OrgMembership}
use sole_backend.Loan.Drafts.{
  Market, DraftCreate, DraftUpdate, create_draft_application, update_draft_application,
}
use sole_backend.Loan.Submission.{submit_application}
use sole_backend.Loan.Lifecycle.Drafting.{
  drafting-AreLaunched, create-IsDrafting, update-IsDrafting, submit-IsDrafting,
}
use sole_backend.Loan.Workflow.{Backlog, activate_backlog}
use sole_backend.Loan.Workflow.Stages.{
  StageUpdate, get_application_or_404, update_hr_stage, update_finance_stage, update_legal_stage,
}
use sole_backend.Loan.Lifecycle.{
  cancel_draft_application, RepaymentPayload, update_admin_application, record_repayment,
}
use sole_backend.Loan.Lifecycle.Launched.{Fits, AreLaunched}
use sole_backend.Loan.Lifecycle.Handled.{
  cancel-AreLaunched, get_application-All, update_stage-AreLaunched, decision-AreLaunched,
  repayment-AreLaunched,
}
use sole_backend.Loan.Lifecycle.BacklogRuns.{activate_backlog-AreLaunched}

-- One handled request of an organisation. A status is decided, and a repayment recorded, for an
-- application that `_get_application_or_404` found.
pub data Step (org_id : ℕ) : Store → Store → Type 0 where
  hr_step :
      (db db' : Store) (loan_id : ℕ) (payload : StageUpdate) (mfa_ok : Bool) (user_id now : ℕ)
      → update_hr_stage db org_id loan_id payload mfa_ok user_id now ≡ ok db'
      → Step org_id db db'
  finance_step :
      (db db' : Store) (loan_id : ℕ) (payload : StageUpdate) (mfa_ok : Bool) (user_id now : ℕ)
      → update_finance_stage db org_id loan_id payload mfa_ok user_id now ≡ ok db'
      → Step org_id db db'
  legal_step :
      (db db' : Store) (loan_id : ℕ) (payload : StageUpdate) (mfa_ok : Bool) (user_id now : ℕ)
      → update_legal_stage db org_id loan_id payload mfa_ok user_id now ≡ ok db'
      → Step org_id db db'
  backlog_step :
      (db : Store) (loan_id limit : Option ℕ) (offset : ℕ) (actor_id : Option ℕ) (now : ℕ)
      (backlog : Backlog)
      → activate_backlog db org_id loan_id limit offset actor_id now ≡ ok backlog
      → Step org_id db backlog.store
  decision_step :
      (db db' : Store) (loan_id : ℕ) (application : LoanApplication) (next : LoanStatus)
      (decision_reason : Option Text) (actor_id : ℕ)
      → get_application_or_404 db org_id loan_id ≡ ok application
      → update_admin_application db org_id application next decision_reason actor_id ≡ ok db'
      → Step org_id db db'
  repayment_step :
      (db db' : Store) (loan_id : ℕ) (application : LoanApplication) (payload : RepaymentPayload)
      (actor_id : ℕ)
      → get_application_or_404 db org_id loan_id ≡ ok application
      → record_repayment db org_id application payload actor_id ≡ ok db'
      → Step org_id db db'
  cancel_step :
      (db db' : Store) (loan_id : ℕ) (application : LoanApplication) (actor_id : Option ℕ)
      → get_application_or_404 db org_id loan_id ≡ ok application
      → cancel_draft_application db application actor_id ≡ ok db'
      → Step org_id db db'
  create_step :
      (power : Decimal → ℕ → Decimal) (db : Store) (new_id : ℕ) (membership : OrgMembership)
      (market : Market) (payload : DraftCreate) (given : Option Text) (actor_id : Option ℕ)
      (made : Store × LoanApplication)
      → create_draft_application power db new_id org_id membership market payload given actor_id
        ≡ ok made
      → Step org_id db made.0
  update_step :
      (power : Decimal → ℕ → Decimal) (db : Store) (membership : OrgMembership) (market : Market)
      (loan_id : ℕ) (application : LoanApplication) (payload : DraftUpdate) (actor_id : Option ℕ)
      (made : Store × LoanApplication)
      → get_application_or_404 db org_id loan_id ≡ ok application
      → update_draft_application power db org_id membership market application payload actor_id
        ≡ ok made
      → Step org_id db made.0
  submit_step :
      (power : Decimal → ℕ → Decimal) (db : Store) (membership : OrgMembership)
      (profile : Option Text) (market : Market) (loan_id : ℕ) (application : LoanApplication)
      (given : Option Text) (actor_id : Option ℕ) (made : Store × LoanApplication)
      → get_application_or_404 db org_id loan_id ≡ ok application
      → submit_application power db org_id membership profile market application given actor_id
        ≡ ok made
      → Step org_id db made.0

pub data Steps (org_id : ℕ) : Store → Store → Type 0 where
  stay : (db : Store) → Steps org_id db db
  go : (db db' db'' : Store) → Step org_id db db' → Steps org_id db' db'' → Steps org_id db db''

Step-AreLaunched :
    (org_id : ℕ) (db db' : Store) → Step org_id db db' → AreLaunched db → AreLaunched db'
unfolding update_hr_stage update_finance_stage update_legal_stage
Step-AreLaunched org_id _ _ (hr_step db db' loan_id payload mfa_ok user_id now h) fits =
    update_stage-AreLaunched db db' org_id loan_id hr_review payload mfa_ok user_id now h fits
Step-AreLaunched org_id _ _ (finance_step db db' loan_id payload mfa_ok user_id now h) fits =
    update_stage-AreLaunched db db' org_id loan_id finance_processing payload mfa_ok user_id now h
      fits
Step-AreLaunched org_id _ _ (legal_step db db' loan_id payload mfa_ok user_id now h) fits =
    update_stage-AreLaunched db db' org_id loan_id legal_execution payload mfa_ok user_id now h fits
Step-AreLaunched org_id _ _ (backlog_step db loan_id limit offset actor_id now backlog h) fits =
    activate_backlog-AreLaunched db org_id loan_id limit offset actor_id now backlog h fits
Step-AreLaunched org_id _ _
      (decision_step db db' loan_id application next decision_reason actor_id found h) fits =
    let known = get_application-All (Fits db.stages) db org_id loan_id application found fits in
    decision-AreLaunched db db' org_id application next decision_reason actor_id h known.1 fits
Step-AreLaunched org_id _ _ (repayment_step db db' loan_id application payload actor_id found h)
      fits =
    let known = get_application-All (Fits db.stages) db org_id loan_id application found fits in
    repayment-AreLaunched db db' org_id application payload actor_id h known.1 fits
Step-AreLaunched org_id _ _ (cancel_step db db' loan_id application actor_id found h) fits =
    cancel-AreLaunched db db' application actor_id h fits
Step-AreLaunched org_id _ _
      (create_step power db new_id membership market payload given actor_id (db', row) h) fits =
    drafting-AreLaunched db db'
      (create-IsDrafting power db new_id org_id membership market payload given actor_id db' row h)
      fits
Step-AreLaunched org_id _ _
      (update_step power db membership market loan_id application payload actor_id
        (db', row)
        found
        h)
      fits =
    drafting-AreLaunched db db'
      (update-IsDrafting power db org_id membership market application payload actor_id db' row h)
      fits
Step-AreLaunched org_id _ _
      (submit_step power db membership profile market loan_id application given actor_id
        (db', row)
        found
        h)
      fits =
    drafting-AreLaunched db db'
      (submit-IsDrafting power db org_id membership profile market application given actor_id db'
        row h)
      fits

-- Whatever the handlers do and in which order, every active or completed loan has the date of its
-- activation, an election due on the day 30 days later, and both stages that follow activation, if
-- that was so at the start.
pub Steps-AreLaunched :
    (org_id : ℕ) (db db' : Store) → Steps org_id db db' → AreLaunched db → AreLaunched db'
Steps-AreLaunched org_id _ _ (stay db) fits = fits
Steps-AreLaunched org_id _ _ (go db db' db'' step steps) fits =
    Steps-AreLaunched org_id db' db'' steps (Step-AreLaunched org_id db db' step fits)
