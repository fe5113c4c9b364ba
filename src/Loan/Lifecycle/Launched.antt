-- ===== src/Loan/Lifecycle/Launched.antt =====
-- What the steps of the workflow (app/services/loan_workflow.py, loan_repayments.py,
-- loan_applications.py and app/api/v1/routers/loan_admin.py) keep of active and completed loans.
use sole_backend.Prelude.{
  ℕ, ◌≡◌, refl, inl, inr, ◌∙◌, Bool, true, false, ◌&&◌, Option, some, List, [], ◌∷◌, ◌++◌, map,
  ◌==◌, if◌then◌else◌, any, All, Bool-cases, arith,
}
use sole_backend.Loan.Store.{
  LoanStatus, active, completed, StageType, hr_review, finance_processing, legal_execution,
  same_stage, legal_post_issuance, borrower_83b_election, LoanWorkflowStage, LoanApplication, Store,
  legal, borrower, RoleHint, save_application,
}
use sole_backend.Loan.Reservations.{set_reservation_status_for_application}
use sole_backend.Loan.Workflow.{
  is_row_of, due_day, activate, try_activate_loan, ensure_post_activation_stages, ensure_stage,
  new_stage, all_completed, core_stages, may_activate, change_stage,
}

abbrev pub is_launched : LoanStatus → Bool
is_launched active = true
is_launched completed = true
is_launched _ = false

same_stage_refl : (stage_type : StageType) → same_stage stage_type stage_type ≡ true
same_stage_refl hr_review = refl
same_stage_refl finance_processing = refl
same_stage_refl legal_execution = refl
same_stage_refl legal_post_issuance = refl
same_stage_refl borrower_83b_election = refl

abbrev pub Has : List LoanWorkflowStage → ℕ → ℕ → StageType → Type 0
Has stages org_id loan_id stage_type = any (is_row_of org_id loan_id stage_type) stages ≡ true

-- A loan that runs or ran has the date of its activation, the day by which the election is due, and
-- both of the stages that follow activation.
pub record IsLaunched (stages : List LoanWorkflowStage) (application : LoanApplication)
    : Type 0 where
  pub now : ℕ
  pub dated : application.activation_date ≡ some now
  pub due : application.election_83b_due_date ≡ some (due_day now)
  pub issuance : Has stages application.org_id application.id legal_post_issuance
  pub election : Has stages application.org_id application.id borrower_83b_election

abbrev pub Fits : List LoanWorkflowStage → LoanApplication → Type 0
Fits stages application = is_launched application.status ≡ true → IsLaunched stages application

abbrev pub AreLaunched : Store → Type 0
AreLaunched db = All (Fits db.stages) db.applications

-- No stage of an application goes away.
abbrev pub Grows : List LoanWorkflowStage → List LoanWorkflowStage → Type 0
Grows stages more =
    (org_id loan_id : ℕ) (stage_type : StageType)
    → Has stages org_id loan_id stage_type
    → Has more org_id loan_id stage_type

Fits-Grows :
    (stages more : List LoanWorkflowStage) (application : LoanApplication)
    → Grows stages more
    → Fits stages application
    → Fits more application
Fits-Grows stages more application grows fits h =
    let old = fits h in
    record {
      now = old.now;
      dated = old.dated;
      due = old.due;
      issuance = grows application.org_id application.id legal_post_issuance old.issuance;
      election = grows application.org_id application.id borrower_83b_election old.election;
    }

pub All-Grows :
    (stages more : List LoanWorkflowStage) (rows : List LoanApplication)
    → Grows stages more
    → All (Fits stages) rows
    → All (Fits more) rows
All-Grows stages more [] grows h = tt
All-Grows stages more (row ∷ rows) grows h =
    (Fits-Grows stages more row grows h.0, All-Grows stages more rows grows h.1)

pub save_application-All :
    (P : LoanApplication → Type 0) (application : LoanApplication) (rows : List LoanApplication)
    → P application
    → All P rows
    → All P (save_application application rows)
save_application-All P application [] p h = tt
save_application-All P application (row ∷ rows) p h =
    let rest = save_application-All P application rows p h.1 in
    elim (Bool-cases (row.id == application.id)) [
      | inl e ↦ rw e (p, rest)
      | inr e ↦ rw e (h.0, rest)
    ]

pub any-append_left {ℓ} :
    {A : Type ℓ} (p : A → Bool) (xs ys : List A) → any p xs ≡ true → any p (xs ++ ys) ≡ true
any-append_left p [] ys h = cc
any-append_left p (x ∷ xs) ys h = elim (Bool-cases (p x)) [
  | inl e ↦ rw e refl
  | inr e ↦ rw e (any-append_left p xs ys (rw e at h))
]

pub any-append_right {ℓ} :
    {A : Type ℓ} (p : A → Bool) (xs ys : List A) → any p ys ≡ true → any p (xs ++ ys) ≡ true
any-append_right p [] ys h = h
any-append_right p (x ∷ xs) ys h = elim (Bool-cases (p x)) [
  | inl e ↦ rw e refl
  | inr e ↦ rw e (any-append_right p xs ys h)
]

row_of-new :
    (org_id loan_id : ℕ) (stage_type : StageType) (role : RoleHint)
    → is_row_of org_id loan_id stage_type (new_stage org_id loan_id stage_type role) ≡ true
row_of-new org_id loan_id stage_type role = ground (arith, same_stage_refl stage_type)

pub ensured :
    (org_id loan_id : ℕ) (existing stages : List LoanWorkflowStage) (stage_type : StageType)
    (role : RoleHint)
    → (Has existing org_id loan_id stage_type → Has stages org_id loan_id stage_type)
    → Has (stages ++ ensure_stage org_id loan_id existing stage_type role) org_id loan_id stage_type
ensured org_id loan_id existing stages stage_type role kept =
    let p = is_row_of org_id loan_id stage_type in
    let added = ensure_stage org_id loan_id existing stage_type role in
    elim (Bool-cases (any p existing)) [
      | inl e ↦ any-append_left p stages added (kept e)
      | inr e ↦
          any-append_right p stages added (rw (e, row_of-new org_id loan_id stage_type role) refl)
    ]

ensure-issuance :
    (db : Store) (org_id loan_id : ℕ)
    → Has
        (ensure_post_activation_stages db org_id loan_id).stages
        org_id
        loan_id
        legal_post_issuance
unfolding ensure_post_activation_stages
ensure-issuance db org_id loan_id =
    any-append_left (is_row_of org_id loan_id legal_post_issuance)
      (db.stages ++ ensure_stage org_id loan_id db.stages legal_post_issuance legal)
      (ensure_stage org_id loan_id db.stages borrower_83b_election borrower)
      (ensured org_id loan_id db.stages db.stages legal_post_issuance legal (λ h. h))

ensure-election :
    (db : Store) (org_id loan_id : ℕ)
    → Has
        (ensure_post_activation_stages db org_id loan_id).stages
        org_id
        loan_id
        borrower_83b_election
unfolding ensure_post_activation_stages
ensure-election db org_id loan_id =
    ensured org_id loan_id db.stages
      (db.stages ++ ensure_stage org_id loan_id db.stages legal_post_issuance legal)
      borrower_83b_election borrower
      (any-append_left (is_row_of org_id loan_id borrower_83b_election) db.stages
        (ensure_stage org_id loan_id db.stages legal_post_issuance legal))

ensure-Grows :
    (db : Store) (org_id loan_id : ℕ)
    → Grows db.stages (ensure_post_activation_stages db org_id loan_id).stages
unfolding ensure_post_activation_stages
ensure-Grows db org_id loan_id o l t h =
    let first = ensure_stage org_id loan_id db.stages legal_post_issuance legal in
    let second = ensure_stage org_id loan_id db.stages borrower_83b_election borrower in
    any-append_left (is_row_of o l t) (db.stages ++ first) second
      (any-append_left (is_row_of o l t) db.stages first h)

activate-Fits :
    (db : Store) (org_id : ℕ) (application : LoanApplication) (now : ℕ)
    → application.org_id ≡ org_id
    → Fits
        (ensure_post_activation_stages db org_id application.id).stages
        (activate application now)
unfolding activate
activate-Fits db org_id application now same _ = record {
  now = now;
  dated = refl;
  due = refl;
  issuance = rw same (ensure-issuance db org_id application.id);
  election = rw same (ensure-election db org_id application.id);
}

pub try_activate_loan-AreLaunched :
    (db : Store) (org_id : ℕ) (application : LoanApplication) (actor_id : Option ℕ) (now : ℕ)
    → application.org_id ≡ org_id
    → AreLaunched db
    → AreLaunched (try_activate_loan db org_id application actor_id now).0
unfolding try_activate_loan set_reservation_status_for_application ensure_post_activation_stages
try_activate_loan-AreLaunched db org_id application actor_id now same h =
    let stages = (ensure_post_activation_stages db org_id application.id).stages in
    elim (Bool-cases
      (may_activate application.status && all_completed (core_stages db org_id application.id))) [
        | inl e ↦ rw e (
            save_application-All (Fits stages) (activate application now) db.applications
              (activate-Fits db org_id application now same)
              (All-Grows db.stages stages db.applications (ensure-Grows db org_id application.id)
                h))
        | inr e ↦ rw e h
      ]

any-map {ℓ} :
    {A : Type ℓ} (p : A → Bool) (f : A → A) (xs : List A)
    → ((x : A) → p (f x) ≡ p x)
    → any p (map f xs) ≡ any p xs
any-map p f [] same = refl
any-map p f (x ∷ xs) same = rw (same x, any-map p f xs same) refl

-- A change of a stage that keeps what identifies it.
pub change_stage-Grows :
    (org_id loan_id : ℕ) (stage_type : StageType) (change : LoanWorkflowStage → LoanWorkflowStage)
    (db : Store)
    → ((o l : ℕ) (t : StageType) (row : LoanWorkflowStage)
        → is_row_of o l t (change row) ≡ is_row_of o l t row)
    → Grows db.stages (change_stage org_id loan_id stage_type change db).stages
change_stage-Grows org_id loan_id stage_type change db same o l t h =
    any-map (is_row_of o l t)
      (λ stage. if is_row_of org_id loan_id stage_type stage then change stage else stage) db.stages
      (λ row. elim (Bool-cases (is_row_of org_id loan_id stage_type row)) [
        | inl e ↦ rw e (same o l t row)
        | inr e ↦ rw e refl
      ])
    ∙ h

pub change_stage-AreLaunched :
    (org_id loan_id : ℕ) (stage_type : StageType) (change : LoanWorkflowStage → LoanWorkflowStage)
    (db : Store)
    → ((o l : ℕ) (t : StageType) (row : LoanWorkflowStage)
        → is_row_of o l t (change row) ≡ is_row_of o l t row)
    → AreLaunched db
    → AreLaunched (change_stage org_id loan_id stage_type change db)
change_stage-AreLaunched org_id loan_id stage_type change db same =
    All-Grows db.stages (change_stage org_id loan_id stage_type change db).stages db.applications
      (change_stage-Grows org_id loan_id stage_type change db same)
