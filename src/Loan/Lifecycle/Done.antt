-- ===== src/Loan/Lifecycle/Done.antt =====
-- What the test of `try_activate_loan` on the core stages says of the rows
-- (app/services/loan_workflow.py).
use sole_backend.Prelude.{
  ℕ, ◌≡◌, refl, inl, inr, Bool, true, false, ◌&&◌, ◌||◌, none, List, [], ◌∷◌, keep, any, Bool-cases,
  Option-cases, arith,
}
use sole_backend.Loan.Store.{
  StageType, hr_review, finance_processing, legal_execution, LoanWorkflowStage, Store, is_done,
  is_stage_of, same_stage,
}
use sole_backend.Loan.Workflow.{is_row_of, status_at, is_completed, all_completed, core_stages}

-- The application has a completed row for the stage.
abbrev pub HasDone : Store → ℕ → ℕ → StageType → Type 0
HasDone db org_id loan_id stage_type =
    any (λ stage. is_row_of org_id loan_id stage_type stage && is_done stage.status) db.stages
    ≡ true

-- Every core stage is completed.
abbrev pub AllDone : Store → ℕ → ℕ → Type 0
AllDone db org_id loan_id =
    HasDone db org_id loan_id hr_review
    × HasDone db org_id loan_id finance_processing
    × HasDone db org_id loan_id legal_execution

or_right : (a b : Bool) → b ≡ true → (a || b) ≡ true
or_right true b h = refl
or_right false b h = h

not_completed : is_completed none ≡ true → ⊥
not_completed h = ground arith

status_at-any :
    (stage_type : StageType) (stages : List LoanWorkflowStage)
    → is_completed (status_at stage_type stages) ≡ true
    → any (λ stage. same_stage stage.stage_type stage_type && is_done stage.status) stages ≡ true
unfolding status_at
status_at-any stage_type [] h = h
status_at-any stage_type (stage ∷ stages) h = elim (Option-cases (status_at stage_type stages)) [
  | inl e ↦ elim (Bool-cases (same_stage stage.stage_type stage_type)) [
    | inl f ↦
        let finished : is_done stage.status ≡ true = rw (status_at, e, f) at h in
        rw (f, finished) refl
    | inr f ↦ absurd (not_completed (rw (status_at, e, f) at h))
  ]
  | inr (status, e) ↦ or_right _ _ (status_at-any stage_type stages (rw e (rw (status_at, e) at h)))
]

any-keep :
    (p q r : LoanWorkflowStage → Bool) (stages : List LoanWorkflowStage)
    → ((stage : LoanWorkflowStage) → p stage ≡ true → q stage ≡ true → r stage ≡ true)
    → any q (keep p stages) ≡ true
    → any r stages ≡ true
any-keep p q r [] imp h = h
any-keep p q r (stage ∷ stages) imp h = elim (Bool-cases (p stage)) [
  | inl e ↦ elim (Bool-cases (q stage)) [
    | inl f ↦ rw (imp stage e f) refl
    | inr f ↦ or_right (r stage) _ (any-keep p q r stages imp (rw (e, f) at h))
  ]
  | inr e ↦ or_right (r stage) _ (any-keep p q r stages imp (rw e at h))
]

and_each : (a b c : Bool) → (a && b && c) ≡ true → (a ≡ true) × (b ≡ true) × (c ≡ true)
and_each a b c h = ground arith

completed_each :
    (stages : List LoanWorkflowStage)
    → all_completed stages ≡ true
    → (is_completed (status_at hr_review stages) ≡ true)
      × (is_completed (status_at finance_processing stages) ≡ true)
      × (is_completed (status_at legal_execution stages) ≡ true)
unfolding all_completed
completed_each [] h = cc
completed_each (stage ∷ stages) h = and_each _ _ _ h

in_row : (a b c d : Bool) → (a && b) ≡ true → (c && d) ≡ true → (a && c && d) ≡ true
in_row a b c d h k = ground arith

done_row :
    (db : Store) (org_id loan_id : ℕ) (stage_type : StageType)
    → is_completed (status_at stage_type (core_stages db org_id loan_id)) ≡ true
    → HasDone db org_id loan_id stage_type
done_row db org_id loan_id stage_type h =
    any-keep _ _ (λ stage. is_row_of org_id loan_id stage_type stage && is_done stage.status)
      db.stages (λ stage mine done. in_row (is_stage_of org_id loan_id stage) _ _ _ mine done)
      (status_at-any stage_type (core_stages db org_id loan_id) h)

pub all_completed-AllDone :
    (db : Store) (org_id loan_id : ℕ)
    → all_completed (core_stages db org_id loan_id) ≡ true
    → AllDone db org_id loan_id
all_completed-AllDone db org_id loan_id h =
    let each = completed_each (core_stages db org_id loan_id) h in
    (
      done_row db org_id loan_id hr_review each.0,
      done_row db org_id loan_id finance_processing each.1,
      done_row db org_id loan_id legal_execution each.2,
    )
