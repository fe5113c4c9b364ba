-- ===== src/Loan/Workflow.antt =====
-- app/services/loan_workflow.py: the stages of an application and its activation.
pub mod Stages
use sole_backend.Prelude.{
  ℕ, zero, suc, ◌+◌, ◌*◌, ◌/◌, Bool, true, false, ◌&&◌, ◌||◌, Option, none, some, List, [], ◌∷◌,
  ◌++◌, map, ◌==◌, if◌then◌else◌, keep, any, take, Result, ok, err, ◌>>=◌, ◌>>◌,
}
use sole_backend.Loan.Store.{
  LoanStatus, submitted, in_review, active, pending, StageType, hr_review, finance_processing,
  legal_execution, legal_post_issuance, borrower_83b_election, StageStatus, waiting, done, RoleHint,
  legal, borrower, share_certificate, LoanDocument, LoanWorkflowStage, LoanApplication, activated,
  stage_updated, AuditLog, Store, same_stage, same_status, same_document, is_done, is_stage_of,
  save_application,
}
use sole_backend.Loan.Reservations.{set_reservation_status_for_application}

-- An error of the handlers, and that of `scalar_one_or_none` on several rows.
pub data WorkflowError : Type 0 where
  stage_not_found loan_not_found invalid_stage_status mfa_required document_required : WorkflowError
  multiple_rows : WorkflowError

abbrev pub scalar_one_or_none {ℓ} : {A : Type ℓ} → List A → Result WorkflowError (Option A)
scalar_one_or_none [] = ok none
scalar_one_or_none (row ∷ []) = ok (some row)
scalar_one_or_none (row ∷ other ∷ rest) = err multiple_rows

abbrev pub is_row_of : ℕ → ℕ → StageType → LoanWorkflowStage → Bool
is_row_of org_id loan_id stage_type stage =
    is_stage_of org_id loan_id stage && same_stage stage.stage_type stage_type

-- `CORE_STAGE_TYPES`
abbrev pub is_core : StageType → Bool
is_core hr_review = true
is_core finance_processing = true
is_core legal_execution = true
is_core _ = false

-- `statuses.get(stage_type)`, where a later row of the same type hides an earlier one.
unfoldable pub status_at : StageType → List LoanWorkflowStage → Option StageStatus
status_at stage_type [] = none
status_at stage_type (stage ∷ stages) = elim (status_at stage_type stages) [
  | some status ↦ some status
  | none ↦ if same_stage stage.stage_type stage_type then some stage.status else none
]

abbrev pub is_completed : Option StageStatus → Bool
is_completed none = false
is_completed (some status) = is_done status

unfoldable pub all_completed : List LoanWorkflowStage → Bool
all_completed [] = false
all_completed (stage ∷ stages) =
    is_completed (status_at hr_review (stage ∷ stages))
    && is_completed (status_at finance_processing (stage ∷ stages))
    && is_completed (status_at legal_execution (stage ∷ stages))

abbrev pub core_stages : Store → ℕ → ℕ → List LoanWorkflowStage
core_stages db org_id loan_id =
    keep (λ stage. is_stage_of org_id loan_id stage && is_core stage.stage_type) db.stages

-- The statuses that `try_activate_loan` goes on with; `ACTIVE` is not among them.
abbrev pub may_activate : LoanStatus → Bool
may_activate submitted = true
may_activate in_review = true
may_activate pending = true
may_activate _ = false

abbrev pub new_stage : ℕ → ℕ → StageType → RoleHint → LoanWorkflowStage
new_stage org_id loan_id stage_type role_hint = record {
  org_id = org_id;
  loan_application_id = loan_id;
  stage_type = stage_type;
  status = waiting;
  assigned_role_hint = role_hint;
  notes = none;
  completed_at = none;
  completed_by_user_id = none;
}

-- One round of the loop of `_ensure_post_activation_stages`.
abbrev pub ensure_stage :
    ℕ → ℕ → List LoanWorkflowStage → StageType → RoleHint → List LoanWorkflowStage
ensure_stage org_id loan_id existing stage_type role_hint =
    if any (is_row_of org_id loan_id stage_type) existing
    then []
    else new_stage org_id loan_id stage_type role_hint ∷ []

unfoldable pub ensure_post_activation_stages : Store → ℕ → ℕ → Store
ensure_post_activation_stages db org_id loan_id = record db {
  stages =
      db.stages
      ++ ensure_stage org_id loan_id db.stages legal_post_issuance legal
      ++ ensure_stage org_id loan_id db.stages borrower_83b_election borrower;
}

abbrev pub log : Store → AuditLog → Store
log db entry = record db { audit = db.audit ++ entry ∷ [] }

-- The day, 30 days from now, by which the election is due.
abbrev pub due_day : ℕ → ℕ
due_day now = (now + 30 * 86400) / 86400

unfoldable pub activate : LoanApplication → ℕ → LoanApplication
activate application now = record application {
  status = active;
  activation_date = some now;
  election_83b_due_date = some (due_day now);
}

unfoldable pub try_activate_loan : Store → ℕ → LoanApplication → Option ℕ → ℕ → Store × Bool
try_activate_loan db org_id application actor_id now =
    let saved = record db {
      applications = save_application (activate application now) db.applications;
    } in
    let reserved = set_reservation_status_for_application saved org_id application.id active in
    let logged = log reserved (record {
      actor_id = actor_id;
      action = activated application.status;
      loan_application_id = application.id;
    }) in
    if may_activate application.status && all_completed (core_stages db org_id application.id)
    then (ensure_post_activation_stages logged org_id application.id, true)
    else (db, false)

-- The row of a stage with its new status, and who completed it.
abbrev pub complete_row : ℕ → Option ℕ → LoanWorkflowStage → LoanWorkflowStage
complete_row now actor_id stage = record stage {
  status = done;
  completed_at = some now;
  completed_by_user_id = actor_id;
}

abbrev pub change_stage :
    ℕ → ℕ → StageType → (LoanWorkflowStage → LoanWorkflowStage) → Store → Store
change_stage org_id loan_id stage_type change db = record db {
  stages =
      map (λ stage. if is_row_of org_id loan_id stage_type stage then change stage else stage)
        db.stages;
}

abbrev pub complete_post_issuance : Store → ℕ → ℕ → StageStatus → Option ℕ → ℕ → Store
complete_post_issuance db org_id loan_id status actor_id now =
    log (change_stage org_id loan_id legal_post_issuance (complete_row now actor_id) db) (record {
      actor_id = actor_id;
      action = stage_updated legal_post_issuance status done;
      loan_application_id = loan_id;
    })

-- A stage that is not there is made first; one that is done stays as it is.
abbrev pub close_outcome : Store → ℕ → ℕ → Option ℕ → ℕ → Option LoanWorkflowStage → Store × Bool
close_outcome db org_id loan_id actor_id now none =
    let fresh = new_stage org_id loan_id legal_post_issuance legal in
    let made = record db { stages = db.stages ++ fresh ∷ [] } in
    (complete_post_issuance made org_id loan_id waiting actor_id now, true)
close_outcome db org_id loan_id actor_id now (some row) =
    if is_done row.status
    then (db, false)
    else (complete_post_issuance db org_id loan_id row.status actor_id now, true)

-- The second half of `_backfill_post_issuance_stage`.
unfoldable pub close_post_issuance :
    Store → ℕ → ℕ → Option ℕ → ℕ → Result WorkflowError (Store × Bool)
close_post_issuance db org_id loan_id actor_id now = do
  stage ← scalar_one_or_none (keep (is_row_of org_id loan_id legal_post_issuance) db.stages)
  ok (close_outcome db org_id loan_id actor_id now stage)

abbrev pub certificates : Store → ℕ → ℕ → List LoanDocument
certificates db org_id loan_id =
    keep
      (λ d.
        (d.org_id == org_id)
        && (d.loan_application_id == loan_id)
        && same_document d.document_type share_certificate)
      db.documents

-- Without the certificate nothing is done.
unfoldable pub backfill_post_issuance_stage :
    Store → ℕ → ℕ → Option ℕ → ℕ → Result WorkflowError (Store × Bool)
backfill_post_issuance_stage db org_id loan_id actor_id now = do
  document ← scalar_one_or_none (certificates db org_id loan_id)
  elim document [
    | none ↦ ok (db, false)
    | some d ↦ close_post_issuance db org_id loan_id actor_id now
  ]

abbrev pub in_backlog : LoanStatus → Bool
in_backlog status = may_activate status || same_status status active

abbrev pub drop {ℓ} : {A : Type ℓ} → ℕ → List A → List A
drop zero xs = xs
drop (suc n) [] = []
drop (suc n) (x ∷ xs) = drop n xs

abbrev pub limited {ℓ} : {A : Type ℓ} → Option ℕ → List A → List A
limited none xs = xs
limited (some n) xs = take n xs

-- The rows stand in the order of their creation.
unfoldable pub select_backlog : Store → ℕ → Option ℕ → Option ℕ → ℕ → List LoanApplication
select_backlog db org_id loan_id limit offset = limited limit (
    drop offset (
      keep
        (λ row.
          (row.org_id == org_id)
          && elim loan_id [ some i ↦ row.id == i | none ↦ in_backlog row.status ])
        db.applications))

-- What a run leaves: the store, the activated loans, and those whose certificate stage it closed.
pub record Backlog : Type 0 where
  pub store : Store
  pub activated_ids : List ℕ
  pub post_issuance_completed_ids : List ℕ

abbrev pub id_if : Bool → ℕ → List ℕ → List ℕ
id_if true i ids = ids ++ i ∷ []
id_if false i ids = ids

unfoldable pub run_backlog :
    ℕ → Option ℕ → ℕ → List LoanApplication → Backlog → Result WorkflowError Backlog
run_backlog org_id actor_id now [] state = ok state
run_backlog org_id actor_id now (application ∷ applications) state = do
  let tried = try_activate_loan state.store org_id application actor_id now
  filled ← backfill_post_issuance_stage tried.0 org_id application.id actor_id now
  run_backlog org_id actor_id now applications (record {
    store = filled.0;
    activated_ids = id_if tried.1 application.id state.activated_ids;
    post_issuance_completed_ids = id_if filled.1 application.id state.post_issuance_completed_ids;
  })

unfoldable pub activate_backlog :
    Store → ℕ → Option ℕ → Option ℕ → ℕ → Option ℕ → ℕ → Result WorkflowError Backlog
activate_backlog db org_id loan_id limit offset actor_id now =
    run_backlog org_id actor_id now (select_backlog db org_id loan_id limit offset)
      (record { store = db; activated_ids = []; post_issuance_completed_ids = [] })
