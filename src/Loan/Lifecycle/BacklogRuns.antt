-- ===== src/Loan/Lifecycle/BacklogRuns.antt =====
-- A run of `activate_backlog` (app/services/loan_workflow.py) keeps what activation wrote.
use sole_backend.Prelude.{
  ℕ, zero, suc, take, ◌≡◌, refl, subst, inl, inr, Bool, true, ◌&&◌, Option, none, some, List, [],
  ◌∷◌, ◌++◌, ◌==◌, keep, All, ok, Bool-cases, Option-cases, arith, passes, ok-injective,
}
use sole_backend.Loan.Store.{
  StageType, legal_post_issuance, StageStatus, waiting, LoanWorkflowStage, LoanApplication, legal,
  Store, is_done,
}
use sole_backend.Loan.Workflow.{
  Backlog, is_row_of, complete_row, complete_post_issuance, close_post_issuance,
  backfill_post_issuance_stage, run_backlog, select_backlog, activate_backlog, try_activate_loan,
  drop, limited, new_stage, scalar_one_or_none, close_outcome, certificates,
}
use sole_backend.Loan.Lifecycle.Launched.{
  AreLaunched, All-Grows, any-append_left, change_stage-AreLaunched, try_activate_loan-AreLaunched,
}

complete_row-same :
    (now : ℕ) (actor_id : Option ℕ) (o l : ℕ) (t : StageType) (row : LoanWorkflowStage)
    → is_row_of o l t (complete_row now actor_id row) ≡ is_row_of o l t row
complete_row-same now actor_id o l t row = refl

complete_post_issuance-AreLaunched :
    (db : Store) (org_id loan_id : ℕ) (status : StageStatus) (actor_id : Option ℕ) (now : ℕ)
    → AreLaunched db
    → AreLaunched (complete_post_issuance db org_id loan_id status actor_id now)
complete_post_issuance-AreLaunched db org_id loan_id status actor_id now =
    change_stage-AreLaunched org_id loan_id legal_post_issuance (complete_row now actor_id) db
      (complete_row-same now actor_id)

-- What both outcomes of the closing of a stage have, given the row that was found, if any.
closed :
    (db : Store) (org_id loan_id : ℕ) (actor_id : Option ℕ) (now : ℕ)
    (stage : Option LoanWorkflowStage)
    → AreLaunched db
    → AreLaunched (close_outcome db org_id loan_id actor_id now stage).0
closed db org_id loan_id actor_id now none fits =
    let fresh = new_stage org_id loan_id legal_post_issuance legal in
    let made = record db { stages = db.stages ++ fresh ∷ [] } in
    complete_post_issuance-AreLaunched made org_id loan_id waiting actor_id now (
      All-Grows db.stages made.stages db.applications
        (λ o l t h. any-append_left (is_row_of o l t) db.stages (fresh ∷ []) h) fits)
closed db org_id loan_id actor_id now (some row) fits = elim (Bool-cases (is_done row.status)) [
  | inl e ↦ rw e fits
  | inr e ↦ rw e (complete_post_issuance-AreLaunched db org_id loan_id row.status actor_id now fits)
]

close-AreLaunched :
    (db : Store) (org_id loan_id : ℕ) (actor_id : Option ℕ) (now : ℕ) (last : Store × Bool)
    → close_post_issuance db org_id loan_id actor_id now ≡ ok last
    → AreLaunched db
    → AreLaunched last.0
unfolding close_post_issuance
close-AreLaunched db org_id loan_id actor_id now last h fits =
    let (stage, _, h1) =
      passes (scalar_one_or_none (keep (is_row_of org_id loan_id legal_post_issuance) db.stages)) _
        h in
    subst (λ r. AreLaunched r.0) (ok-injective h1)
      (closed db org_id loan_id actor_id now stage fits)

backfill-AreLaunched :
    (db : Store) (org_id loan_id : ℕ) (actor_id : Option ℕ) (now : ℕ) (last : Store × Bool)
    → backfill_post_issuance_stage db org_id loan_id actor_id now ≡ ok last
    → AreLaunched db
    → AreLaunched last.0
unfolding backfill_post_issuance_stage
backfill-AreLaunched db org_id loan_id actor_id now last h fits =
    let (document, _, h1) = passes (scalar_one_or_none (certificates db org_id loan_id)) _ h in
    elim (Option-cases document) [
      | inl e ↦ subst (λ r. AreLaunched r.0) (ok-injective (rw e at h1)) fits
      | inr (d, e) ↦ close-AreLaunched db org_id loan_id actor_id now last (rw e at h1) fits
    ]

run_backlog-AreLaunched :
    (org_id : ℕ) (actor_id : Option ℕ) (now : ℕ) (rows : List LoanApplication)
    (state last : Backlog)
    → run_backlog org_id actor_id now rows state ≡ ok last
    → All (λ row. row.org_id ≡ org_id) rows
    → AreLaunched state.store
    → AreLaunched last.store
unfolding run_backlog
run_backlog-AreLaunched org_id actor_id now [] state last h own fits =
    subst (λ b. AreLaunched b.store) (ok-injective h) fits
run_backlog-AreLaunched org_id actor_id now (row ∷ rows) state last h own fits =
    let tried = try_activate_loan state.store org_id row actor_id now in
    let (filled, backfilled, h1) =
      passes (backfill_post_issuance_stage tried.0 org_id row.id actor_id now) _ h in
    run_backlog-AreLaunched org_id actor_id now rows _ last h1 own.1 (
      backfill-AreLaunched tried.0 org_id row.id actor_id now filled backfilled
        (try_activate_loan-AreLaunched state.store org_id row actor_id now own.0 fits))

keep-All {ℓ κ} :
    {A : Type ℓ} (P : A → Type κ) (p : A → Bool) (xs : List A)
    → ((x : A) → p x ≡ true → P x)
    → All P (keep p xs)
keep-All P p [] h = tt
keep-All P p (x ∷ xs) h = elim (Bool-cases (p x)) [
  | inl e ↦ rw e (h x e, keep-All P p xs h)
  | inr e ↦ rw e (keep-All P p xs h)
]

drop-All {ℓ κ} : {A : Type ℓ} (P : A → Type κ) (n : ℕ) (xs : List A) → All P xs → All P (drop n xs)
drop-All P zero xs h = h
drop-All P (suc n) [] h = tt
drop-All P (suc n) (x ∷ xs) h = drop-All P n xs h.1

take-All {ℓ κ} : {A : Type ℓ} (P : A → Type κ) (n : ℕ) (xs : List A) → All P xs → All P (take n xs)
take-All P zero xs h = tt
take-All P (suc n) [] h = tt
take-All P (suc n) (x ∷ xs) h = (h.0, take-All P n xs h.1)

limited-All {ℓ κ} :
    {A : Type ℓ} (P : A → Type κ) (limit : Option ℕ) (xs : List A)
    → All P xs
    → All P (limited limit xs)
limited-All P none xs h = h
limited-All P (some n) xs h = take-All P n xs h

and_left : (a org_id : ℕ) (b : Bool) → ((a == org_id) && b) ≡ true → a ≡ org_id
and_left a org_id b h = ground arith

pub select_backlog-All :
    (db : Store) (org_id : ℕ) (loan_id limit : Option ℕ) (offset : ℕ)
    → All (λ row. row.org_id ≡ org_id) (select_backlog db org_id loan_id limit offset)
unfolding select_backlog
select_backlog-All db org_id loan_id limit offset = limited-All _ limit _ (
    drop-All _ offset _ (
      keep-All (λ row. row.org_id ≡ org_id) _ db.applications
        (λ row h. and_left row.org_id org_id _ h)))

pub activate_backlog-AreLaunched :
    (db : Store) (org_id : ℕ) (loan_id limit : Option ℕ) (offset : ℕ) (actor_id : Option ℕ)
    (now : ℕ) (last : Backlog)
    → activate_backlog db org_id loan_id limit offset actor_id now ≡ ok last
    → AreLaunched db
    → AreLaunched last.store
unfolding activate_backlog
activate_backlog-AreLaunched db org_id loan_id limit offset actor_id now last h =
    run_backlog-AreLaunched org_id actor_id now _ _ last h
      (select_backlog-All db org_id loan_id limit offset)
