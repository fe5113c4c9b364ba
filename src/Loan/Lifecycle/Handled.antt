-- ===== src/Loan/Lifecycle/Handled.antt =====
-- The stage handlers, the decisions of an administrator and the repayments keep what activation
-- wrote (app/api/v1/routers/loan_admin.py, app/services/loan_applications.py and
-- app/services/loan_repayments.py).
use sole_backend.Prelude.{
  ℕ, ◌≡◌, refl, ap, ◌∙◌, subst, inl, inr, Bool, true, not, ◌&&◌, Option, some, List, [], ◌∷◌, ◌++◌,
  ◌==◌, All, Text, ok, Bool-cases, Option-cases, arith, passes, ok-injective, find_first, leb, ltb,
  raise_if, raise_if-not,
}
use mathlib.Core.Option.{get_or}
use sole_backend.Loan.Store.{
  draft, LoanStatus, completed, StageType, StageStatus, waiting, in_progress, done,
  LoanWorkflowStage, LoanApplication, Store, same_status,
}
use sole_backend.Loan.Reservations.{set_reservation_status_for_application}
use sole_backend.Loan.Workflow.{invalid_stage_status, is_row_of, change_stage}
use sole_backend.Loan.Workflow.Stages.{
  StageUpdate, is_accepted, check_completion, get_stage_or_404, updated_row, update_stage,
  get_application_or_404,
}
use sole_backend.Loan.Lifecycle.{
  cancel, cancel_draft_application, not_draft, RepaymentPayload, decide,
  validate_admin_status_transition, update_admin_application, record_repayment, settle, complete,
  moves_reservations, is_repayable, difference, not_active_or_completed, parts_differ, repayment_of,
  total_paid,
}
use sole_backend.Loan.Lifecycle.Launched.{
  is_launched, Fits, AreLaunched, save_application-All, change_stage-AreLaunched,
  try_activate_loan-AreLaunched,
}

own_row : (a b org_id loan_id : ℕ) → ((a == org_id) && (b == loan_id)) ≡ true → a ≡ org_id
own_row a b org_id loan_id h = ground arith

-- The application that was found is one of the organisation, and what all rows have, it has.
found-All :
    (P : LoanApplication → Type 0) (org_id loan_id : ℕ) (rows : List LoanApplication)
    (application : LoanApplication)
    → find_first (λ row. (row.org_id == org_id) && (row.id == loan_id)) rows ≡ some application
    → All P rows
    → (application.org_id ≡ org_id) × P application
found-All P org_id loan_id [] application h fits = cc
found-All P org_id loan_id (row ∷ rows) application h fits =
    elim (Bool-cases ((row.org_id == org_id) && (row.id == loan_id))) [
      | inl e ↦
          subst (λ a. (a.org_id ≡ org_id) × P a) (ap (λ o. get_or o row) (rw e at h))
            (own_row row.org_id row.id org_id loan_id e, fits.0)
      | inr e ↦ found-All P org_id loan_id rows application (rw e at h) fits.1
    ]

pub get_application-All :
    (P : LoanApplication → Type 0) (db : Store) (org_id loan_id : ℕ) (application : LoanApplication)
    → get_application_or_404 db org_id loan_id ≡ ok application
    → All P db.applications
    → (application.org_id ≡ org_id) × P application
unfolding get_application_or_404
get_application-All P db org_id loan_id application h fits =
    elim (Option-cases
      (find_first (λ row. (row.org_id == org_id) && (row.id == loan_id)) db.applications)) [
        | inl e ↦ cc (h, e)
        | inr (a, e) ↦
            found-All P org_id loan_id db.applications application
              (e ∙ ap some (ok-injective (rw (get_application_or_404, e) at h))) fits
      ]

updated_row-same :
    (status : StageStatus) (notes : Option Text) (user_id now o l : ℕ) (t : StageType)
    (row : LoanWorkflowStage)
    → is_row_of o l t (updated_row status notes user_id now row) ≡ is_row_of o l t row
updated_row-same waiting notes user_id now o l t row = refl
updated_row-same in_progress notes user_id now o l t row = refl
updated_row-same done notes user_id now o l t row = refl

pub update_stage-AreLaunched :
    (db db' : Store) (org_id loan_id : ℕ) (stage_type : StageType) (payload : StageUpdate)
    (mfa_ok : Bool) (user_id now : ℕ)
    → update_stage db org_id loan_id stage_type payload mfa_ok user_id now ≡ ok db'
    → AreLaunched db
    → AreLaunched db'
unfolding update_stage
update_stage-AreLaunched db db' org_id loan_id stage_type payload mfa_ok user_id now h fits =
    let (stage, _, h1) = passes (get_stage_or_404 db org_id loan_id stage_type) _ h in
    let (application, found, h2) = passes (get_application_or_404 db org_id loan_id) _ h1 in
    let (_, _, h3) =
      passes (raise_if (not (is_accepted payload.status)) invalid_stage_status) _ h2 in
    let (_, _, h4) =
      passes (check_completion db org_id loan_id stage_type payload.status mfa_ok) _ h3 in
    let change = updated_row payload.status payload.notes user_id now in
    let changed = change_stage org_id loan_id stage_type change db in
    subst AreLaunched (ok-injective h4) (
      try_activate_loan-AreLaunched changed org_id application (some user_id) now
        (get_application-All (Fits db.stages) db org_id loan_id application found fits).0
        (change_stage-AreLaunched org_id loan_id stage_type change db
          (updated_row-same payload.status payload.notes user_id now) fits))

-- A transition that is allowed leads to no active or completed loan but from one.
pub launched_before :
    (current next : LoanStatus)
    → validate_admin_status_transition current next ≡ ok tt
    → is_launched next ≡ true
    → is_launched current ≡ true
unfolding validate_admin_status_transition
launched_before current next h l = ground arith

pub repayable_launched :
    (status : LoanStatus) → is_repayable status ≡ true → is_launched status ≡ true
repayable_launched status h = ground arith

-- A row that keeps what activation wrote.
same-Fits :
    (stages : List LoanWorkflowStage) (old new : LoanApplication)
    → (is_launched new.status ≡ true → is_launched old.status ≡ true)
    → new.activation_date ≡ old.activation_date
    → new.election_83b_due_date ≡ old.election_83b_due_date
    → new.org_id ≡ old.org_id
    → new.id ≡ old.id
    → Fits stages old
    → Fits stages new
same-Fits stages old new back dated due org i fits h =
    let was = fits (back h) in
    record {
      now = was.now;
      dated = dated ∙ was.dated;
      due = due ∙ was.due;
      issuance = rw (org, i) was.issuance;
      election = rw (org, i) was.election;
    }

decide-Fits :
    (stages : List LoanWorkflowStage) (application : LoanApplication) (next : LoanStatus)
    (decision_reason : Option Text)
    → (is_launched next ≡ true → is_launched application.status ≡ true)
    → Fits stages application
    → Fits stages (decide application next decision_reason)
unfolding decide
decide-Fits stages application next decision_reason back =
    same-Fits stages application (decide application next decision_reason) back refl refl refl refl

complete-Fits :
    (stages : List LoanWorkflowStage) (application : LoanApplication)
    → is_repayable application.status ≡ true
    → Fits stages application
    → Fits stages (complete application)
unfolding complete
complete-Fits stages application repayable =
    same-Fits stages application (complete application)
      (λ _. repayable_launched application.status repayable) refl refl refl refl

pub decision-AreLaunched :
    (db db' : Store) (org_id : ℕ) (application : LoanApplication) (next : LoanStatus)
    (decision_reason : Option Text) (actor_id : ℕ)
    → update_admin_application db org_id application next decision_reason actor_id ≡ ok db'
    → Fits db.stages application
    → AreLaunched db
    → AreLaunched db'
unfolding update_admin_application set_reservation_status_for_application
decision-AreLaunched db db' org_id application next decision_reason actor_id h fits all =
    let (_, allowed, h1) = passes (validate_admin_status_transition application.status next) _ h in
    let changed = decide application next decision_reason in
    let saved =
      save_application-All (Fits db.stages) changed db.applications
        (decide-Fits db.stages application next decision_reason
          (launched_before application.status next allowed) fits)
        all in
    subst AreLaunched (ok-injective h1)
      (elim (Bool-cases (moves_reservations next)) [ inl e ↦ rw e saved | inr e ↦ rw e saved ])

settle-AreLaunched :
    (db : Store) (org_id : ℕ) (application : LoanApplication) (actor_id : ℕ)
    → is_repayable application.status ≡ true
    → Fits db.stages application
    → AreLaunched db
    → AreLaunched (settle db org_id application actor_id)
unfolding settle
settle-AreLaunched db org_id application actor_id repayable fits all =
    elim (Bool-cases (
      not (same_status application.status completed)
      && leb application.total_payable_amount (total_paid org_id application.id db.repayments))) [
        | inl e ↦ rw e (
            save_application-All (Fits db.stages) (complete application) db.applications
              (complete-Fits db.stages application repayable fits) all)
        | inr e ↦ rw e all
      ]

pub cancel-AreLaunched :
    (db db' : Store) (application : LoanApplication) (actor_id : Option ℕ)
    → cancel_draft_application db application actor_id ≡ ok db'
    → AreLaunched db
    → AreLaunched db'
unfolding cancel_draft_application cancel
cancel-AreLaunched db db' application actor_id h all =
    let (_, _, h1) = passes (raise_if (not (same_status application.status draft)) not_draft) _ h in
    subst AreLaunched (ok-injective h1) (
      save_application-All (Fits db.stages) (cancel application) db.applications
        (λ launched. absurd (ground arith)) all)

pub repayment-AreLaunched :
    (db db' : Store) (org_id : ℕ) (application : LoanApplication) (payload : RepaymentPayload)
    (actor_id : ℕ)
    → record_repayment db org_id application payload actor_id ≡ ok db'
    → Fits db.stages application
    → AreLaunched db
    → AreLaunched db'
unfolding record_repayment
repayment-AreLaunched db db' org_id application payload actor_id h fits all =
    let (_, repayable, h1) =
      passes (raise_if (not (is_repayable application.status)) not_active_or_completed) _ h in
    let (_, _, h2) = passes (raise_if (ltb 1 (difference payload)) parts_differ) _ h1 in
    let added = record db {
      repayments = db.repayments ++ repayment_of org_id application.id payload actor_id ∷ [];
    } in
    subst AreLaunched (ok-injective h2) (
      settle-AreLaunched added org_id application actor_id
        (raise_if-not (is_repayable application.status) not_active_or_completed tt repayable) fits
        all)
