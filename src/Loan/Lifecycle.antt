-- ===== src/Loan/Lifecycle.antt =====
-- What moves an application on after its submission: decisions of an administrator
-- (app/services/loan_applications.py), repayments (app/services/loan_repayments.py), and, with the
-- stages, the steps from one state of the rows to the next.
pub mod Launched
pub mod Handled
pub mod BacklogRuns
pub mod Drafting
pub mod Steps
pub mod Repaid
pub mod Core
pub mod Gated
pub mod Done
pub mod Activation
use sole_backend.Prelude.{
  ℕ, ◌+◌, ◌-◌, ◌≡◌, Bool, true, false, not, ◌&&◌, ◌||◌, Option, none, some, List, map, ltb, leb,
  ◌==◌, if◌then◌else◌, keep, sum_of, ◌++◌, ◌∷◌, [], Text, Result, ok, err, ◌>>=◌, ◌>>◌, raise_if,
}
use sole_backend.Loan.Store.{
  draft, cancelled, cancelled_draft, LoanStatus, submitted, in_review, active, completed, rejected,
  LoanApplication, RepaymentRow, admin_update, completed_loan, repayment_recorded, Store,
  same_status, save_application, StageType,
}
use sole_backend.Loan.Reservations.{set_reservation_status_for_application}
use sole_backend.Loan.Workflow.{WorkflowError, log, activate_backlog, Backlog}
use sole_backend.Loan.Workflow.Stages.{
  StageUpdate, get_application_or_404, update_hr_stage, update_finance_stage, update_legal_stage,
}

pub data LifecycleError : Type 0 where
  only_submitted_to_review only_open_to_rejected unsupported_status : LifecycleError
  not_draft not_active_or_completed parts_differ : LifecycleError

abbrev pub is_open : LoanStatus → Bool
is_open submitted = true
is_open in_review = true
is_open _ = false

unfoldable pub validate_admin_status_transition :
    LoanStatus → LoanStatus → Result LifecycleError (Unit {0})
validate_admin_status_transition current next =
    if same_status next current
    then ok tt
    else if same_status next in_review
    then raise_if (not (is_open current)) only_submitted_to_review
    else if same_status next rejected
    then raise_if (not (is_open current)) only_open_to_rejected
    else err unsupported_status

abbrev pub moves_reservations : LoanStatus → Bool
moves_reservations in_review = true
moves_reservations rejected = true
moves_reservations _ = false

abbrev pub or_kept : Option Text → Option Text → Option Text
or_kept none old = old
or_kept (some given) old = some given

unfoldable pub decide : LoanApplication → LoanStatus → Option Text → LoanApplication
decide application next decision_reason = record application {
  status = next;
  decision_reason = or_kept decision_reason application.decision_reason;
}

-- The caches that a rejection drops are not among the rows.
unfoldable pub update_admin_application :
    Store → ℕ → LoanApplication → LoanStatus → Option Text → ℕ → Result LifecycleError Store
update_admin_application db org_id application next decision_reason actor_id = do
  validate_admin_status_transition application.status next
  let saved = record db {
    applications = save_application (decide application next decision_reason) db.applications;
  }
  let moved =
      if moves_reservations next
      then set_reservation_status_for_application saved org_id application.id next
      else saved
  ok (
      log moved (record {
        actor_id = some actor_id;
        action = admin_update application.status next;
        loan_application_id = application.id;
      }))

unfoldable pub cancel : LoanApplication → LoanApplication
cancel application = record application { status = cancelled }

-- A draft has no reservations and no stages to undo.
unfoldable pub cancel_draft_application :
    Store → LoanApplication → Option ℕ → Result LifecycleError Store
cancel_draft_application db application actor_id = do
  raise_if (not (same_status application.status draft)) not_draft
  ok (
      log (record db { applications = save_application (cancel application) db.applications })
        (record {
          actor_id = actor_id;
          action = cancelled_draft;
          loan_application_id = application.id;
        }))

-- Amounts in cents, after `quantize`; they are not negative (`Field(ge=0)`).
pub record RepaymentPayload : Type 0 where
  pub amount : ℕ
  pub principal_amount : ℕ
  pub interest_amount : ℕ
  pub payment_date : ℕ

abbrev pub is_repayable : LoanStatus → Bool
is_repayable active = true
is_repayable completed = true
is_repayable _ = false

-- `(principal + interest - amount).copy_abs()`, in cents.
abbrev pub difference : RepaymentPayload → ℕ
difference p =
    (p.principal_amount + p.interest_amount - p.amount)
    + (p.amount - (p.principal_amount + p.interest_amount))

abbrev pub repayment_of : ℕ → ℕ → RepaymentPayload → ℕ → RepaymentRow
repayment_of org_id loan_id payload actor_id = record {
  org_id = org_id;
  loan_application_id = loan_id;
  amount = payload.amount;
  principal_amount = payload.principal_amount;
  interest_amount = payload.interest_amount;
  payment_date = payload.payment_date;
  recorded_by_user_id = actor_id;
}

abbrev pub total_paid : ℕ → ℕ → List RepaymentRow → ℕ
total_paid org_id loan_id rows =
    sum_of (λ row. row.amount)
      (keep (λ row. (row.org_id == org_id) && (row.loan_application_id == loan_id)) rows)

unfoldable pub complete : LoanApplication → LoanApplication
complete application = record application { status = completed }

unfoldable pub settle : Store → ℕ → LoanApplication → ℕ → Store
settle db org_id application actor_id =
    if not (same_status application.status completed)
      && leb application.total_payable_amount (total_paid org_id application.id db.repayments)
    then log (record db { applications = save_application (complete application) db.applications })
        (record {
          actor_id = some actor_id;
          action = completed_loan application.status;
          loan_application_id = application.id;
        })
    else db

unfoldable pub record_repayment :
    Store → ℕ → LoanApplication → RepaymentPayload → ℕ → Result LifecycleError Store
record_repayment db org_id application payload actor_id = do
  raise_if (not (is_repayable application.status)) not_active_or_completed
  raise_if (ltb 1 (difference payload)) parts_differ
  let added = record db {
    repayments = db.repayments ++ repayment_of org_id application.id payload actor_id ∷ [];
  }
  ok (
      log (settle added org_id application actor_id) (record {
        actor_id = some actor_id;
        action = repayment_recorded payload.amount;
        loan_application_id = application.id;
      }))
