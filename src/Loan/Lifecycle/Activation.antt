-- ===== src/Loan/Lifecycle/Activation.antt =====
-- No step makes a loan active but with its core stages completed.
use sole_backend.Prelude.{
  arith, ℕ, ◌≡◌, ◌⊎◌, refl, ◌∙◌, subst, inl, inr, Bool, true, not, ◌&&◌, Option, some, List, [],
  ◌∷◌, ◌++◌, All, ok, Bool-cases, passes, ok-injective, leb, ltb, raise_if, raise_if-not, Text,
}
use sole_backend.Loan.Store.{
  draft, hr_review, finance_processing, legal_execution, LoanStatus, completed, StageType,
  LoanApplication, Store, same_status,
}
use sole_backend.Loan.Reservations.{set_reservation_status_for_application}
use sole_backend.Loan.Workflow.{
  Backlog, invalid_stage_status, change_stage, backfill_post_issuance_stage, try_activate_loan,
  run_backlog, activate_backlog,
}
use sole_backend.Loan.Lifecycle.Launched.{is_launched, save_application-All}
use sole_backend.Loan.Workflow.Stages.{
  StageUpdate, is_accepted, check_completion, get_stage_or_404, updated_row, update_stage,
  get_application_or_404, update_hr_stage, update_finance_stage, update_legal_stage,
}
use sole_backend.Loan.Lifecycle.{
  cancel, cancel_draft_application, not_draft, RepaymentPayload, decide,
  validate_admin_status_transition, update_admin_application, record_repayment, settle, complete,
  moves_reservations, is_repayable, difference, not_active_or_completed, parts_differ, repayment_of,
  total_paid,
}
use sole_backend.Loan.Lifecycle.Handled.{get_application-All, launched_before, repayable_launched}
use sole_backend.Loan.Lifecycle.BacklogRuns.{select_backlog-All}
use sole_backend.Loan.Lifecycle.Core.{SameCore, try_activate_loan-SameCore, backfill-Beside}
use sole_backend.Loan.Lifecycle.Gated.{
  WasLaunched, Passed, All-imp, IsGated, own_rows, unchanged-IsGated, own-Passed,
  try_activate_loan-IsGated, IsGated-trans,
}
use sole_backend.Loan.Lifecycle.Done.{AllDone, all_completed-AllDone}
use sole_backend.Loan.Lifecycle.Drafting.{
  drafting-IsGated, create-IsDrafting, update-IsDrafting, submit-IsDrafting,
}
use sole_backend.Loan.Lifecycle.Steps.{
  create_step, update_step, submit_step, cancel_step, Step, hr_step, finance_step, legal_step,
  backlog_step, decision_step, repayment_step,
}

update_stage-IsGated :
    (db db' : Store) (org_id loan_id : ℕ) (stage_type : StageType) (payload : StageUpdate)
    (mfa_ok : Bool) (user_id now : ℕ)
    → update_stage db org_id loan_id stage_type payload mfa_ok user_id now ≡ ok db'
    → IsGated db db'
unfolding update_stage
update_stage-IsGated db db' org_id loan_id stage_type payload mfa_ok user_id now h =
    let (stage, _, h1) = passes (get_stage_or_404 db org_id loan_id stage_type) _ h in
    let (application, found, h2) = passes (get_application_or_404 db org_id loan_id) _ h1 in
    let (_, _, h3) =
      passes (raise_if (not (is_accepted payload.status)) invalid_stage_status) _ h2 in
    let (_, _, h4) =
      passes (check_completion db org_id loan_id stage_type payload.status mfa_ok) _ h3 in
    let change = updated_row payload.status payload.notes user_id now in
    let changed = change_stage org_id loan_id stage_type change db in
    let own =
      get_application-All _ db org_id loan_id application found (own_rows db.applications) in
    subst (IsGated db) (ok-injective h4)
      (try_activate_loan-IsGated changed org_id application (some user_id) now own.0)

run_backlog-IsGated :
    (org_id : ℕ) (actor_id : Option ℕ) (now : ℕ) (rows : List LoanApplication)
    (state last : Backlog)
    → run_backlog org_id actor_id now rows state ≡ ok last
    → All (λ row. row.org_id ≡ org_id) rows
    → IsGated state.store last.store × SameCore state.store.stages last.store.stages
unfolding run_backlog
run_backlog-IsGated org_id actor_id now [] state last h own =
    subst (λ b. IsGated state.store b.store × SameCore state.store.stages b.store.stages)
      (ok-injective h) (own-Passed state.store state.store, λ o l. refl)
run_backlog-IsGated org_id actor_id now (row ∷ rows) state last h own =
    let tried = try_activate_loan state.store org_id row actor_id now in
    let (filled, backfilled, h1) =
      passes (backfill_post_issuance_stage tried.0 org_id row.id actor_id now) _ h in
    let beside = backfill-Beside tried.0 org_id row.id actor_id now filled backfilled in
    let rest = run_backlog-IsGated org_id actor_id now rows _ last h1 own.1 in
    let core = try_activate_loan-SameCore state.store org_id row actor_id now in
    let gated = try_activate_loan-IsGated state.store org_id row actor_id now own.0 in
    let filled_gated =
      IsGated-trans state.store tried.0 filled.0 gated (unchanged-IsGated tried.0 filled.0 beside.0)
        beside.1 in
    (
      IsGated-trans state.store filled.0 last.store filled_gated rest.0 rest.1,
      λ o l. rest.1 o l ∙ beside.1 o l ∙ core o l,
    )

decision-IsGated :
    (db db' : Store) (org_id : ℕ) (application : LoanApplication) (next : LoanStatus)
    (decision_reason : Option Text) (actor_id : ℕ)
    → update_admin_application db org_id application next decision_reason actor_id ≡ ok db'
    → (is_launched application.status ≡ true
        → WasLaunched db.applications application.org_id application.id)
    → IsGated db db'
unfolding update_admin_application set_reservation_status_for_application decide
decision-IsGated db db' org_id application next decision_reason actor_id h was =
    let (_, allowed, h1) = passes (validate_admin_status_transition application.status next) _ h in
    let saved =
      save_application-All (Passed db.applications db) (decide application next decision_reason)
        db.applications (λ l. inl (was (launched_before application.status next allowed l)))
        (own-Passed db db) in
    subst (IsGated db) (ok-injective h1)
      (elim (Bool-cases (moves_reservations next)) [ inl e ↦ rw e saved | inr e ↦ rw e saved ])

settle-IsGated :
    (db : Store) (org_id : ℕ) (application : LoanApplication) (actor_id : ℕ)
    → is_repayable application.status ≡ true
    → (is_launched application.status ≡ true
        → WasLaunched db.applications application.org_id application.id)
    → IsGated db (settle db org_id application actor_id)
unfolding settle complete
settle-IsGated db org_id application actor_id repayable was =
    elim (Bool-cases (
      not (same_status application.status completed)
      && leb application.total_payable_amount (total_paid org_id application.id db.repayments))) [
        | inl e ↦ rw e (
            save_application-All (Passed db.applications db) (complete application) db.applications
              (λ _. inl (was (repayable_launched application.status repayable))) (own-Passed db db))
        | inr e ↦ rw e (own-Passed db db)
      ]

cancel-IsGated :
    (db db' : Store) (application : LoanApplication) (actor_id : Option ℕ)
    → cancel_draft_application db application actor_id ≡ ok db'
    → IsGated db db'
unfolding cancel_draft_application cancel
cancel-IsGated db db' application actor_id h =
    let (_, _, h1) = passes (raise_if (not (same_status application.status draft)) not_draft) _ h in
    subst (IsGated db) (ok-injective h1) (
      save_application-All (Passed db.applications db) (cancel application) db.applications
        (λ launched. absurd (ground arith)) (own-Passed db db))

repayment-IsGated :
    (db db' : Store) (org_id : ℕ) (application : LoanApplication) (payload : RepaymentPayload)
    (actor_id : ℕ)
    → record_repayment db org_id application payload actor_id ≡ ok db'
    → (is_launched application.status ≡ true
        → WasLaunched db.applications application.org_id application.id)
    → IsGated db db'
unfolding record_repayment
repayment-IsGated db db' org_id application payload actor_id h was =
    let (u, guarded, h1) =
      passes (raise_if (not (is_repayable application.status)) not_active_or_completed) _ h in
    let (_, _, h2) = passes (raise_if (ltb 1 (difference payload)) parts_differ) _ h1 in
    let added = record db {
      repayments = db.repayments ++ repayment_of org_id application.id payload actor_id ∷ [];
    } in
    subst (IsGated db) (ok-injective h2) (
      settle-IsGated added org_id application actor_id
        (raise_if-not (is_repayable application.status) not_active_or_completed u guarded) was)

Step-IsGated : (org_id : ℕ) (db db' : Store) → Step org_id db db' → IsGated db db'
unfolding update_hr_stage update_finance_stage update_legal_stage activate_backlog
Step-IsGated org_id _ _ (hr_step db db' loan_id payload mfa_ok user_id now h) =
    update_stage-IsGated db db' org_id loan_id hr_review payload mfa_ok user_id now h
Step-IsGated org_id _ _ (finance_step db db' loan_id payload mfa_ok user_id now h) =
    update_stage-IsGated db db' org_id loan_id finance_processing payload mfa_ok user_id now h
Step-IsGated org_id _ _ (legal_step db db' loan_id payload mfa_ok user_id now h) =
    update_stage-IsGated db db' org_id loan_id legal_execution payload mfa_ok user_id now h
Step-IsGated org_id _ _ (backlog_step db loan_id limit offset actor_id now backlog h) =
    (run_backlog-IsGated org_id actor_id now _ _ backlog h
      (select_backlog-All db org_id loan_id limit offset)).0
Step-IsGated org_id _ _
      (decision_step db db' loan_id application next decision_reason actor_id found h) =
    let own =
      get_application-All _ db org_id loan_id application found (own_rows db.applications) in
    decision-IsGated db db' org_id application next decision_reason actor_id h own.1
Step-IsGated org_id _ _ (repayment_step db db' loan_id application payload actor_id found h) =
    let own =
      get_application-All _ db org_id loan_id application found (own_rows db.applications) in
    repayment-IsGated db db' org_id application payload actor_id h own.1
Step-IsGated org_id _ _ (cancel_step db db' loan_id application actor_id found h) =
    cancel-IsGated db db' application actor_id h
Step-IsGated org_id _ _
      (create_step power db new_id membership market payload given actor_id (db', row) h) =
    drafting-IsGated db db'
      (create-IsDrafting power db new_id org_id membership market payload given actor_id db' row h)
Step-IsGated org_id _ _
      (update_step power db membership market loan_id application payload actor_id
        (db', row)
        found
        h) =
    drafting-IsGated db db'
      (update-IsDrafting power db org_id membership market application payload actor_id db' row h)
Step-IsGated org_id _ _
      (submit_step power db membership profile market loan_id application given actor_id
        (db', row)
        found
        h) =
    drafting-IsGated db db' (
      submit-IsDrafting power db org_id membership profile market application given actor_id db' row
        h)

-- Whichever handler runs, a loan that is active or completed afterwards was so before, or then has a
-- completed row for each core stage: review by HR, processing by finance, execution by legal.
pub Step-AllDone :
    (org_id : ℕ) (db db' : Store)
    → Step org_id db db'
    → All
        (λ row.
          is_launched row.status ≡ true
          → WasLaunched db.applications row.org_id row.id ⊎ AllDone db' row.org_id row.id)
        db'.applications
Step-AllDone org_id db db' step =
    All-imp db'.applications
      (λ row passed h. elim (passed h) [
        | inl was ↦ inl was
        | inr ready ↦ inr (all_completed-AllDone db' row.org_id row.id ready)
      ])
      (Step-IsGated org_id db db' step)
