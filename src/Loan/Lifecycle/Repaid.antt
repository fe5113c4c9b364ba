-- ===== src/Loan/Lifecycle/Repaid.antt =====
-- What `record_repayment` of app/services/loan_repayments.py leaves.
use sole_backend.Prelude.{
  ℕ, ◌+◌, ◌≤◌, ◌<◌, ◌≡◌, refl, subst, inl, inr, true, false, not, [], ◌∷◌, ◌++◌, leb, ltb, ok,
  Bool-cases, arith, passes, ok-injective, raise_if, raise_if-not,
}
use sole_backend.Loan.Store.{
  active, completed, same_status, LoanApplication, Store, save_application,
}
use sole_backend.Loan.Lifecycle.{
  RepaymentPayload, record_repayment, settle, complete, is_repayable, difference,
  not_active_or_completed, parts_differ, repayment_of, total_paid,
}

-- The repayment is the last of the rows; its parts and its amount differ by a cent at most; an
-- active loan is completed if the repayments then reach what is payable, and stays as it is if not.
pub record IsRecorded (db db' : Store) (org_id : ℕ) (application : LoanApplication)
    (payload : RepaymentPayload) (actor_id : ℕ) : Type 0 where
  pub repayable : is_repayable application.status ≡ true
  pub upper : payload.principal_amount + payload.interest_amount ≤ payload.amount + 1
  pub lower : payload.amount ≤ payload.principal_amount + payload.interest_amount + 1
  pub rows :
      db'.repayments ≡ db.repayments ++ repayment_of org_id application.id payload actor_id ∷ []
  pub reached :
      application.status ≡ active
      → application.total_payable_amount ≤ total_paid org_id application.id db'.repayments
      → db'.applications ≡ save_application (complete application) db.applications
  pub open_still :
      total_paid org_id application.id db'.repayments < application.total_payable_amount
      → db'.applications ≡ db.applications

leb-le : (a b : ℕ) → a ≤ b → leb a b ≡ true
leb-le a b h = ground arith

leb-gt : (a b : ℕ) → b < a → leb a b ≡ false
leb-gt a b h = ground arith

settle-repayments :
    (db : Store) (org_id : ℕ) (application : LoanApplication) (actor_id : ℕ)
    → (settle db org_id application actor_id).repayments ≡ db.repayments
unfolding settle
settle-repayments db org_id application actor_id = ground arith

settle-reached :
    (db : Store) (org_id : ℕ) (application : LoanApplication) (actor_id : ℕ)
    → application.status ≡ active
    → application.total_payable_amount ≤ total_paid org_id application.id db.repayments
    → (settle db org_id application actor_id).applications
      ≡ save_application (complete application) db.applications
unfolding settle
settle-reached db org_id application actor_id is_active enough =
    rw (is_active, leb-le application.total_payable_amount _ enough) refl

settle-open :
    (db : Store) (org_id : ℕ) (application : LoanApplication) (actor_id : ℕ)
    → total_paid org_id application.id db.repayments < application.total_payable_amount
    → (settle db org_id application actor_id).applications ≡ db.applications
unfolding settle
settle-open db org_id application actor_id short =
    elim (Bool-cases (not (same_status application.status completed))) [
      | inl e ↦ rw (e, leb-gt application.total_payable_amount _ short) refl
      | inr e ↦ rw e refl
    ]

-- A repayment is recorded only for an active or completed loan and with parts that make up its
-- amount to the cent or one beside it. It becomes the last of the rows, and completes an active loan
-- if the repayments then reach what is payable; while they do not, no application changes.
pub record_repayment-IsRecorded :
    (db db' : Store) (org_id : ℕ) (application : LoanApplication) (payload : RepaymentPayload)
    (actor_id : ℕ)
    → record_repayment db org_id application payload actor_id ≡ ok db'
    → IsRecorded db db' org_id application payload actor_id
unfolding record_repayment
record_repayment-IsRecorded db db' org_id application payload actor_id h =
    let (u, guarded, h1) =
      passes (raise_if (not (is_repayable application.status)) not_active_or_completed) _ h in
    let (v, close, h2) = passes (raise_if (ltb 1 (difference payload)) parts_differ) _ h1 in
    let added = record db {
      repayments = db.repayments ++ repayment_of org_id application.id payload actor_id ∷ [];
    } in
    let kept = settle-repayments added org_id application actor_id in
    subst (λ last. IsRecorded db last org_id application payload actor_id) (ok-injective h2)
      (record {
        repayable =
            raise_if-not (is_repayable application.status) not_active_or_completed u guarded;
        upper = ground arith;
        lower = ground arith;
        rows = kept;
        reached = λ is_active enough.
            settle-reached added org_id application actor_id is_active (rw kept at enough);
        open_still = λ short. settle-open added org_id application actor_id (rw kept at short);
      })
