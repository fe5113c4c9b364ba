-- ===== src/Loan/Lifecycle/Core.antt =====
-- The core stages of applications, which activation and the closing of the stage for certificates
-- leave as they are (app/services/loan_workflow.py).
use sole_backend.Prelude.{
  ℕ, ◌≡◌, refl, ap, ◌∙◌, subst, inl, inr, Bool, true, false, ◌&&◌, Option, none, some, List, [],
  ◌∷◌, ◌++◌, map, ◌==◌, if◌then◌else◌, keep, keep-append, any, ok, Bool-cases, Option-cases, arith,
  passes, ok-injective,
}
use mathlib.Core.List.{append-nil}
use sole_backend.Loan.Store.{
  legal_post_issuance, borrower_83b_election, StageStatus, legal, borrower, StageType, RoleHint,
  LoanWorkflowStage, LoanApplication, Store, is_done, is_stage_of, same_stage,
}
use sole_backend.Loan.Reservations.{set_reservation_status_for_application}
use sole_backend.Loan.Workflow.{
  is_row_of, is_core, core_stages, all_completed, may_activate, complete_row,
  complete_post_issuance, close_outcome, close_post_issuance, certificates,
  backfill_post_issuance_stage, ensure_stage, ensure_post_activation_stages, try_activate_loan,
  new_stage, scalar_one_or_none,
}

abbrev core_of : ℕ → ℕ → List LoanWorkflowStage → List LoanWorkflowStage
core_of org_id loan_id =
    keep (λ stage. is_stage_of org_id loan_id stage && is_core stage.stage_type)

-- Two tables of stages with the same core.
abbrev pub SameCore : List LoanWorkflowStage → List LoanWorkflowStage → Type 0
SameCore stages more = (o l : ℕ) → core_of o l more ≡ core_of o l stages

core-append :
    (o l : ℕ) (stages more : List LoanWorkflowStage)
    → core_of o l more ≡ []
    → core_of o l (stages ++ more) ≡ core_of o l stages
core-append o l stages more h =
    keep-append (λ stage. is_stage_of o l stage && is_core stage.stage_type) stages more
    ∙ rw h (append-nil (core_of o l stages))

and_false : (b : Bool) → (b && false) ≡ false
and_false true = refl
and_false false = refl

-- A stage that is not among the core ones.
core-new :
    (o l org_id loan_id : ℕ) (existing : List LoanWorkflowStage) (stage_type : StageType)
    (role : RoleHint)
    → is_core stage_type ≡ false
    → core_of o l (ensure_stage org_id loan_id existing stage_type role) ≡ []
core-new o l org_id loan_id existing stage_type role h =
    elim (Bool-cases (any (is_row_of org_id loan_id stage_type) existing)) [
      | inl e ↦ rw e refl
      | inr e ↦ rw (e, h, and_false ((org_id == o) && (loan_id == l))) refl
    ]

pub ensure-SameCore :
    (db : Store) (org_id loan_id : ℕ)
    → SameCore db.stages (ensure_post_activation_stages db org_id loan_id).stages
unfolding ensure_post_activation_stages
ensure-SameCore db org_id loan_id o l =
    let first = ensure_stage org_id loan_id db.stages legal_post_issuance legal in
    core-append o l (db.stages ++ first) _
      (core-new o l org_id loan_id db.stages borrower_83b_election borrower refl)
    ∙ core-append o l db.stages first
        (core-new o l org_id loan_id db.stages legal_post_issuance legal refl)

pub try_activate_loan-SameCore :
    (db : Store) (org_id : ℕ) (application : LoanApplication) (actor_id : Option ℕ) (now : ℕ)
    → SameCore db.stages (try_activate_loan db org_id application actor_id now).0.stages
unfolding try_activate_loan set_reservation_status_for_application ensure_post_activation_stages
try_activate_loan-SameCore db org_id application actor_id now =
    elim (Bool-cases
      (may_activate application.status && all_completed (core_stages db org_id application.id))) [
        | inl e ↦ rw e (ensure-SameCore db org_id application.id)
        | inr e ↦ rw e (λ o l. refl)
      ]

pub and_true : (a b : Bool) → (a && b) ≡ true → b ≡ true
and_true true b h = h
and_true false b h = cc

issuance_outside :
    (stage_type : StageType)
    → same_stage stage_type legal_post_issuance ≡ true
    → is_core stage_type ≡ false
issuance_outside stage_type h = ground arith

-- A store with the same applications and the same core stages.
abbrev pub Beside : Store → Store → Type 0
Beside db db' = (db'.applications ≡ db.applications) × SameCore db.stages db'.stages

core_complete :
    (o l org_id loan_id : ℕ) (actor_id : Option ℕ) (now : ℕ) (stages : List LoanWorkflowStage)
    → core_of o l (
        map
          (λ stage.
            if is_row_of org_id loan_id legal_post_issuance stage
            then complete_row now actor_id stage
            else stage)
          stages)
      ≡ core_of o l stages
core_complete o l org_id loan_id actor_id now [] = refl
core_complete o l org_id loan_id actor_id now (stage ∷ stages) =
    let rest = core_complete o l org_id loan_id actor_id now stages in
    elim (Bool-cases (is_row_of org_id loan_id legal_post_issuance stage)) [
      | inl e ↦
          let outside =
            issuance_outside stage.stage_type (and_true (is_stage_of org_id loan_id stage) _ e) in
          rw (e, outside, and_false (is_stage_of o l stage)) rest
      | inr e ↦ rw e (
          ap (λ r. if is_stage_of o l stage && is_core stage.stage_type then stage ∷ r else r) rest)
    ]

complete-Beside :
    (db : Store) (org_id loan_id : ℕ) (status : StageStatus) (actor_id : Option ℕ) (now : ℕ)
    → Beside db (complete_post_issuance db org_id loan_id status actor_id now)
complete-Beside db org_id loan_id status actor_id now =
    (refl, λ o l. core_complete o l org_id loan_id actor_id now db.stages)

closed-Beside :
    (db : Store) (org_id loan_id : ℕ) (actor_id : Option ℕ) (now : ℕ)
    (stage : Option LoanWorkflowStage)
    → Beside db (close_outcome db org_id loan_id actor_id now stage).0
closed-Beside db org_id loan_id actor_id now none =
    let fresh = new_stage org_id loan_id legal_post_issuance legal in
    let made : Store = record db { stages = db.stages ++ fresh ∷ [] } in
    (
      refl,
      λ o l.
          core_complete o l org_id loan_id actor_id now made.stages
          ∙ core-append o l db.stages (fresh ∷ [])
              (rw (and_false ((org_id == o) && (loan_id == l))) refl),
    )
closed-Beside db org_id loan_id actor_id now (some row) = elim (Bool-cases (is_done row.status)) [
  | inl e ↦ rw e (refl, λ o l. refl)
  | inr e ↦ rw e (complete-Beside db org_id loan_id row.status actor_id now)
]

pub backfill-Beside :
    (db : Store) (org_id loan_id : ℕ) (actor_id : Option ℕ) (now : ℕ) (last : Store × Bool)
    → backfill_post_issuance_stage db org_id loan_id actor_id now ≡ ok last
    → Beside db last.0
unfolding backfill_post_issuance_stage close_post_issuance
backfill-Beside db org_id loan_id actor_id now last h =
    let (document, _, h1) = passes (scalar_one_or_none (certificates db org_id loan_id)) _ h in
    elim (Option-cases document) [
      | inl e ↦ subst (λ r. Beside db r.0) (ok-injective (rw e at h1)) (refl, λ o l. refl)
      | inr (d, e) ↦
          let (stage, _, h2) =
            passes
              (scalar_one_or_none (keep (is_row_of org_id loan_id legal_post_issuance) db.stages)) _
              (rw (e, close_post_issuance) at h1) in
          subst (λ r. Beside db r.0) (ok-injective h2)
            (closed-Beside db org_id loan_id actor_id now stage)
    ]
