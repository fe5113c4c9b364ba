-- ===== src/Loan/Edits/Replaced.antt =====
-- What an edit makes of the reservations (app/services/loan_applications.py).
use sole_backend.Prelude.{
  ℕ, ◌≡◌, refl, sym, ap, subst, ◌∙◌, inl, inr, Bool, true, false, not, ◌||◌, Option, some, List, [],
  ◌∷◌, if◌then◌else◌, keep, ok, or_raise, or_raise-found, passes, ok-injective, raise_if-passed,
  Bool-cases, arith,
}
use sole_backend.Decimal.{Decimal}
use sole_backend.Stock.Membership.{OrgMembership}
use sole_backend.Loan.Quotes.{LoanQuoteResponse}
use sole_backend.Loan.Quotes.Covered.{DistinctGrants}
use sole_backend.Loan.Quotes.Distinct.{quote-AreDistinct, load_active_grants-DistinctGrants}
use sole_backend.Loan.Store.{LoanStatus, LoanApplication, Store, save_application, admin_edit}
use sole_backend.Loan.Reservations.{
  counts, is_reservation_of, delete_reservations_for_application, reserve_shares_for_application,
}
use sole_backend.Loan.Reservations.Counted.{AreDistinct}
use sole_backend.Loan.Reservations.Bounded.{AreReserved, reserve_shares-AreReserved}
use sole_backend.Loan.Workflow.{log}
use sole_backend.Loan.Drafts.{
  reserve_error, invalid_status, membership_not_found, integrity_error, with_error, Market,
  asks_recalc, violates_checks, or_kept, quoted_terms, request_for,
}
use sole_backend.Loan.Submission.{ensure_core_workflow_stages}
use sole_backend.Loan.Submission.Parts.{with_error-ok}
use sole_backend.Loan.Submission.Submitted.{terms-AreQuoted, calculate-IsCovered}
use sole_backend.Loan.Edits.{
  AdminEdit, is_editable, is_under_way, delete_loan_documents, reset_workflow_stages, clear_loan,
  target_status, edited_row, replace_reservations, requote_application, amend_application,
  update_admin_application_fields,
}

keep-not {ℓ} : {A : Type ℓ} (p : A → Bool) (xs : List A) → keep p (keep (λ x. not (p x)) xs) ≡ []
keep-not p [] = refl
keep-not p (x ∷ xs) = elim (Bool-cases (p x)) [
  | inl e ↦ rw e (keep-not p xs)
  | inr e ↦ rw (e, e) (keep-not p xs)
]

cleared_with :
    (documents stages : Bool) (db : Store) (org_id loan_id : ℕ)
    → (if stages
        then reset_workflow_stages
            (if documents then delete_loan_documents db org_id loan_id else (db, 0)).0
            org_id
            loan_id
        else (if documents
            then delete_loan_documents db org_id loan_id
            else (db, 0)).0).reservations
      ≡ db.reservations
unfolding delete_loan_documents reset_workflow_stages ensure_core_workflow_stages
cleared_with true true db org_id loan_id = refl
cleared_with true false db org_id loan_id = refl
cleared_with false true db org_id loan_id = refl
cleared_with false false db org_id loan_id = refl

clear-reservations :
    (db : Store) (org_id loan_id : ℕ) (payload : AdminEdit)
    → (clear_loan db org_id loan_id payload).0.reservations ≡ db.reservations
unfolding clear_loan delete_loan_documents reset_workflow_stages ensure_core_workflow_stages
clear-reservations db org_id loan_id payload =
    cleared_with payload.delete_documents payload.reset_workflow db org_id loan_id

counts-target :
    (status : LoanStatus) (reset : Bool)
    → is_under_way status ≡ true
    → counts (target_status status reset) ≡ true
counts-target status reset h = ground arith

replace-AreReserved :
    (db : Store) (org_id membership_id : ℕ) (market : Market) (row : LoanApplication)
    (quote : LoanQuoteResponse) (payload : AdminEdit) (db' : Store) (deleted : ℕ)
    → counts row.status ≡ true
    → AreDistinct quote.allocation
    → replace_reservations db org_id membership_id market row quote payload ≡ ok (db', deleted)
    → AreReserved
        (delete_reservations_for_application db org_id row.id)
        db'
        market.grants
        org_id
        membership_id
        market.today
        quote.allocation
unfolding replace_reservations delete_reservations_for_application
replace-AreReserved db org_id membership_id market row quote payload db' deleted counted distinct
      h =
    let freed = delete_reservations_for_application db org_id row.id in
    let cleared = clear_loan freed org_id row.id payload in
    let saved = record cleared.0 { applications = save_application row cleared.0.applications } in
    let kept = clear-reservations freed org_id row.id payload in
    let (reserved, r, h1) =
      passes
        (with_error reserve_error (
          reserve_shares_for_application saved market.grants org_id membership_id row
            quote.allocation market.today))
        _ h in
    let fresh =
      ap (keep (is_reservation_of org_id row.id)) kept
      ∙ keep-not (is_reservation_of org_id row.id) db.reservations in
    let done =
      reserve_shares-AreReserved saved reserved market.grants org_id membership_id row
        quote.allocation market.today counted distinct fresh (with_error-ok reserve_error _ r) in
    let from_saved : AreReserved (record freed { reservations = cleared.0.reservations }) reserved
        market.grants org_id membership_id market.today quote.allocation =
      record { covered = done.covered; added = done.added } in
    subst
      (λ d. AreReserved freed d market.grants org_id membership_id market.today quote.allocation)
      (ap (λ p. p.0) (ok-injective h1))
      (subst
        (λ rows.
          AreReserved (record freed { reservations = rows }) reserved market.grants org_id
            membership_id market.today quote.allocation)
        kept from_saved)

-- A choice whose test is known.
chosen {ℓ} : {A : Type ℓ} (t e : A) (b : Bool) → b ≡ true → elim b [ true ↦ t | false ↦ e ] ≡ t
chosen t e true h = refl
chosen t e false h = cc

under_way_or : (a b : Bool) → a ≡ true → (a || b) ≡ true
under_way_or a b h = rw h refl

requote-AreReserved :
    (power : Decimal → ℕ → Decimal) (db : Store) (org_id : ℕ) (membership : OrgMembership)
    (market : Market) (application : LoanApplication) (payload : AdminEdit) (db' : Store)
    (row : LoanApplication) (deleted : ℕ)
    → DistinctGrants market.grants
    → is_under_way application.status ≡ true
    → requote_application power db org_id membership market application payload
      ≡ ok (db', (row, deleted))
    → AreReserved
        (delete_reservations_for_application db org_id application.id)
        db'
        market.grants
        org_id
        membership.id
        market.today
        row.terms.allocation_snapshot
unfolding requote_application edited_row
requote-AreReserved power db org_id membership market application payload db' row deleted distinct
      under_way h =
    let (request, q, h1) = passes (request_for application.terms payload.selection) _ h in
    let day = some (or_kept payload.selection.as_of_date application.terms.as_of_date) in
    let ((quote, terms), t, h2) =
      passes (quoted_terms power db org_id membership market request day) _ h1 in
    let (quoted, calculated) =
      terms-AreQuoted power db org_id membership market request day quote terms t in
    let covered =
      calculate-IsCovered power db org_id membership market request day quote distinct calculated in
    let once =
      quote-AreDistinct _ _ _ quote
        (load_active_grants-DistinctGrants market.grants org_id membership.id distinct) covered in
    let new = edited_row application terms payload in
    let (valid, h3) = raise_if-passed (violates_checks terms) integrity_error _ h2 in
    let ((store, gone), r, h4) =
      passes
        (elim (is_under_way application.status || payload.reset_workflow) [
          | true ↦ replace_reservations db org_id membership.id market new quote payload
          | false ↦ ok (record db { applications = save_application new db.applications }, 0)
        ])
        _ h3 in
    let replaced = sym (chosen _ _ _ (under_way_or _ payload.reset_workflow under_way)) ∙ r in
    let done =
      replace-AreReserved db org_id membership.id market new quote payload store gone
        (counts-target application.status payload.reset_workflow under_way) once replaced in
    let same = ok-injective h4 in
    subst
      (λ p.
        AreReserved (delete_reservations_for_application db org_id application.id) p.0 market.grants
          org_id membership.id market.today p.1.0.terms.allocation_snapshot)
      same (rw quoted.allocation done)

-- Where an administrator edits an application that is submitted or in review and asks for a new
-- quote, for grants with different identifiers, then on every grant of the new allocation all
-- active reservations of the employee together are at most the shares that have vested by that day,
-- and each grant has just the shares of the new allocation more reserved than without this
-- application's own reservations.
pub update_admin_application_fields-AreReserved :
    (power : Decimal → ℕ → Decimal) (db : Store) (org_id : ℕ) (found : Option OrgMembership)
    (market : Market) (application : LoanApplication) (payload : AdminEdit) (actor_id : ℕ)
    (db' : Store) (row : LoanApplication) (membership : OrgMembership)
    → DistinctGrants market.grants
    → found ≡ some membership
    → is_under_way application.status ≡ true
    → asks_recalc payload.selection ≡ true
    → update_admin_application_fields power db org_id found market application payload actor_id
      ≡ ok (db', row)
    → AreReserved
        (delete_reservations_for_application db org_id application.id)
        db'
        market.grants
        org_id
        membership.id
        market.today
        row.terms.allocation_snapshot
unfolding update_admin_application_fields
update_admin_application_fields-AreReserved power db org_id found market application payload
      actor_id db' row membership distinct is_found under_way recalc h =
    let (editable, h1) =
      raise_if-passed (not (is_editable application.status)) (invalid_status application.status) _
        h in
    let (member, m, h2) = passes (or_raise found membership_not_found) _ h1 in
    let is_member = or_raise-found found membership_not_found member m in
    let same_member : member ≡ membership = cc in
    let ((store, (edited, deleted)), e, h3) =
      passes
        (elim (asks_recalc payload.selection) [
          | true ↦ requote_application power db org_id member market application payload
          | false ↦ amend_application power db org_id market application payload
        ])
        _ h2 in
    let done =
      requote-AreReserved power db org_id member market application payload store edited deleted
        distinct under_way (sym (chosen _ _ _ recalc) ∙ e) in
    let last = log store (record {
      actor_id = some actor_id;
      action = admin_edit application.status edited.status payload.reset_workflow deleted;
      loan_application_id = application.id;
    }) in
    let freed = delete_reservations_for_application db org_id application.id in
    let whole : AreReserved freed last market.grants org_id member.id market.today
        edited.terms.allocation_snapshot =
      record { covered = done.covered; added = done.added } in
    subst
      (λ p.
        AreReserved freed p.0 market.grants org_id membership.id market.today
          p.1.terms.allocation_snapshot)
      (ok-injective h3)
      (subst
        (λ who.
          AreReserved freed last market.grants org_id who.id market.today
            edited.terms.allocation_snapshot)
        same_member whole)
