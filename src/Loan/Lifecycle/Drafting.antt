-- ===== src/Loan/Lifecycle/Drafting.antt =====
-- Handlers of drafts (app/services/loan_applications.py) beside the loans that run.
use sole_backend.Prelude.{
  ℕ, ◌≡◌, refl, sym, ap, subst, inl, inr, false, not, Option, List, [], ◌∷◌, ◌++◌, All, Text,
  Result, ok, err, ◌∙◌, Option-cases, passes, ok-injective, raise_if-passed, Bool-cases, arith,
}
use sole_backend.Decimal.{Decimal}
use sole_backend.Stock.Membership.{OrgMembership}
use sole_backend.Loan.Store.{
  LoanStatus, draft, LoanApplication, Store, same_status, save_application,
}
use sole_backend.Loan.Drafts.{
  LoanError, invalid_status, integrity_error, validate_idempotency_key, Market, DraftCreate,
  DraftUpdate, Selection, asks_recalc, request_for, policy_out_of_date, policy_version_mismatch,
  current_policy_version, violates_checks, existing_draft, quoted_terms, new_draft, merged,
  apply_quote, requoted, new_draft_application, create_draft_application, update_draft_application,
}
use sole_backend.Loan.Submission.{
  is_replay, submitted_row, submit_with, submit_application, ensure_core_workflow_stages,
}
use sole_backend.Loan.Submission.Stages.{ensure_core-Grows}
use sole_backend.Loan.Submission.Parts.{Parts, submit_draft-Parts}
use sole_backend.Loan.Submission.Submitted.{reserve-rest}
use sole_backend.Loan.Lifecycle.Launched.{
  is_launched, Fits, AreLaunched, Grows, All-Grows, save_application-All,
}
use sole_backend.Loan.Lifecycle.Gated.{IsGated, Passed, own-Passed}

-- Rows are only replaced by, or joined by, applications that are not launched, and stages are only
-- added.
pub record IsDrafting (db db' : Store) : Type 1 where
  pub rows :
      (P : LoanApplication → Type 0)
      → ((row : LoanApplication) → is_launched row.status ≡ false → P row)
      → All P db.applications
      → All P db'.applications
  pub grows : Grows db.stages db'.stages

pub drafting-AreLaunched : (db db' : Store) → IsDrafting db db' → AreLaunched db → AreLaunched db'
drafting-AreLaunched db db' drafting fits =
    drafting.rows (Fits db'.stages) (λ row h launched. absurd (ground (arith, h, launched)))
      (All-Grows db.stages db'.stages db.applications drafting.grows fits)

pub drafting-IsGated : (db db' : Store) → IsDrafting db db' → IsGated db db'
drafting-IsGated db db' drafting =
    drafting.rows (Passed db.applications db')
      (λ row h launched. absurd (ground (arith, h, launched))) (own-Passed db db')

All-append :
    (P : LoanApplication → Type 0) (rows : List LoanApplication) (row : LoanApplication)
    → P row
    → All P rows
    → All P (rows ++ row ∷ [])
All-append P [] row p all = (p, tt)
All-append P (r ∷ rows) row p all = (all.0, All-append P rows row p all.1)

submit_draft-IsDrafting :
    (power : Decimal → ℕ → Decimal) (db : Store) (org_id : ℕ) (membership : OrgMembership)
    (profile : Option Text) (market : Market) (application : LoanApplication) (key : Option Text)
    (actor_id : Option ℕ) (db' : Store) (row : LoanApplication)
    → Parts power db org_id membership profile market application key actor_id db' row
    → IsDrafting db db'
unfolding submitted_row ensure_core_workflow_stages
submit_draft-IsDrafting power db org_id membership profile market application key actor_id db' row
      parts =
    let new = submitted_row parts.checked parts.terms key in
    let saved = record db { applications = save_application new db.applications } in
    let (reservations, rest) =
      reserve-rest saved parts.reserved market org_id membership.id new parts.quote.allocation
        parts.was_reserved in
    rw (parts.stored, rest)
      (record {
        rows = λ P unlaunched all.
            save_application-All P new db.applications (unlaunched new refl) all;
        grows = ensure_core-Grows db org_id application.id;
      })

ok-not-err {ℓ} :
    {P : Type ℓ} {A : Type 0} {a : A} {e : LoanError}
    → ◌≡◌ {A = Result LoanError A} (err e) (ok a)
    → P
ok-not-err h = cc

pub submit-IsDrafting :
    (power : Decimal → ℕ → Decimal) (db : Store) (org_id : ℕ) (membership : OrgMembership)
    (profile : Option Text) (market : Market) (application : LoanApplication) (given : Option Text)
    (actor_id : Option ℕ) (db' : Store) (row : LoanApplication)
    → submit_application power db org_id membership profile market application given actor_id
      ≡ ok (db', row)
    → IsDrafting db db'
unfolding submit_application submit_with ensure_core_workflow_stages
submit-IsDrafting power db org_id membership profile market application given actor_id db' row h =
    let (key, v, h1) = passes (validate_idempotency_key given) _ h in
    elim (Bool-cases (same_status application.status draft)) [
      | inl e ↦
          submit_draft-IsDrafting power db org_id membership profile market application key actor_id
            db' row
            (submit_draft-Parts power db org_id membership profile market application key actor_id
              db' row (rw (submit_with, e) at h1))
      | inr e ↦ elim (Bool-cases (is_replay application key)) [
        | inl r ↦
            let same = ap (λ p. p.0) (ok-injective (rw (submit_with, e, r) at h1)) in
            subst (IsDrafting db) same
              (record { rows = λ P u all. all; grows = ensure_core-Grows db org_id application.id })
        | inr r ↦ ok-not-err (rw (submit_with, e, r) at h1)
      ]
    ]

pub create-IsDrafting :
    (power : Decimal → ℕ → Decimal) (db : Store) (new_id org_id : ℕ) (membership : OrgMembership)
    (market : Market) (payload : DraftCreate) (given : Option Text) (actor_id : Option ℕ)
    (db' : Store) (row : LoanApplication)
    → create_draft_application power db new_id org_id membership market payload given actor_id
      ≡ ok (db', row)
    → IsDrafting db db'
unfolding create_draft_application new_draft_application new_draft
create-IsDrafting power db new_id org_id membership market payload given actor_id db' row h =
    let (key, v, h1) = passes (validate_idempotency_key given) _ h in
    let (existing, e, h2) = passes (existing_draft db org_id membership.id key) _ h1 in
    elim (Option-cases existing) [
      | inl new_one ↦
          let (quoted, q, h3) =
            passes
              (quoted_terms power db org_id membership market payload.request payload.as_of_date) _
              (rw (new_draft_application, new_one) at h2) in
          let h4 = raise_if-passed (violates_checks quoted.1) integrity_error _ h3 in
          let new = new_draft new_id org_id membership.id key payload quoted.1 in
          subst (IsDrafting db) (ap (λ p. p.0) (ok-injective h4.1)) (record {
            rows = λ P unlaunched all. All-append P db.applications new (unlaunched new refl) all;
            grows = λ o l stage_type has. has;
          })
      | inr (old, there) ↦
          subst (IsDrafting db) (ap (λ p. p.0) (ok-injective (rw there at h2)))
            (record { rows = λ P u all. all; grows = λ o l stage_type has. has })
    ]

was_draft : (status : LoanStatus) → not (same_status status draft) ≡ false → status ≡ draft
was_draft status h = ground arith

requoted-status :
    (power : Decimal → ℕ → Decimal) (db : Store) (org_id : ℕ) (membership : OrgMembership)
    (market : Market) (application fresh : LoanApplication) (selection : Selection)
    → requoted power db org_id membership market application selection ≡ ok fresh
    → application.status ≡ draft
    → fresh.status ≡ draft
unfolding requoted apply_quote
requoted-status power db org_id membership market application fresh selection h is_draft =
    elim (Bool-cases (asks_recalc selection)) [
      | inl e ↦
          let (request, r, h1) =
            passes (request_for application.terms selection) _ (rw (requoted, e) at h) in
          let (quoted, q, h2) =
            passes (quoted_terms power db org_id membership market request _) _ h1 in
          sym (ap (λ a. a.status) (ok-injective h2))
      | inr e ↦
          let h1 =
            raise_if-passed
              (policy_version_mismatch application.terms (current_policy_version market.settings))
              policy_out_of_date _ (rw (requoted, e) at h) in
          sym (ap (λ a. a.status) (ok-injective h1.1)) ∙ is_draft
    ]

pub update-IsDrafting :
    (power : Decimal → ℕ → Decimal) (db : Store) (org_id : ℕ) (membership : OrgMembership)
    (market : Market) (application : LoanApplication) (payload : DraftUpdate) (actor_id : Option ℕ)
    (db' : Store) (row : LoanApplication)
    → update_draft_application power db org_id membership market application payload actor_id
      ≡ ok (db', row)
    → IsDrafting db db'
unfolding update_draft_application merged
update-IsDrafting power db org_id membership market application payload actor_id db' row h =
    let h0 =
      raise_if-passed (not (same_status application.status draft))
        (invalid_status application.status) _ h in
    let (fresh, f, h1) =
      passes (requoted power db org_id membership market application payload.selection) _ h0.1 in
    let updated = merged fresh payload.marital_status_snapshot payload.spouse in
    let h2 = raise_if-passed (violates_checks updated.terms) integrity_error _ h1 in
    let status =
      requoted-status power db org_id membership market application fresh payload.selection f
        (was_draft application.status h0.0) in
    subst (IsDrafting db) (ap (λ p. p.0) (ok-injective h2.1)) (record {
      rows = λ P unlaunched all.
          save_application-All P updated db.applications (unlaunched updated (rw status refl)) all;
      grows = λ o l stage_type has. has;
    })
