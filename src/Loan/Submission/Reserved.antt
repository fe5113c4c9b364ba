-- ===== src/Loan/Submission/Reserved.antt =====
-- The shares that a submission (app/services/loan_applications.py) reserves.
use sole_backend.Prelude.{ℕ, ◌≡◌, refl, ap, ◌∙◌, Option, some, [], keep, Text, ok}
use sole_backend.Decimal.{Decimal}
use sole_backend.Stock.Membership.{OrgMembership}
use sole_backend.Loan.Quotes.Covered.{DistinctGrants}
use sole_backend.Loan.Quotes.Distinct.{quote-AreDistinct, load_active_grants-DistinctGrants}
use sole_backend.Loan.Store.{draft, LoanApplication, Store, save_application, submitted_loan}
use sole_backend.Loan.Reservations.{is_reservation_of}
use sole_backend.Loan.Reservations.Bounded.{AreReserved, reserve_shares-AreReserved}
use sole_backend.Loan.Workflow.{log}
use sole_backend.Loan.Drafts.{Market}
use sole_backend.Loan.Submission.{submitted_row, ensure_core_workflow_stages, submit_application}
use sole_backend.Loan.Submission.Parts.{Parts}
use sole_backend.Loan.Submission.Submitted.{terms-AreQuoted, calculate-IsCovered, row-id, drafted}

Parts-AreReserved :
    (power : Decimal → ℕ → Decimal) (db : Store) (org_id : ℕ) (membership : OrgMembership)
    (profile : Option Text) (market : Market) (application : LoanApplication) (key : Option Text)
    (actor_id : Option ℕ) (db' : Store) (row : LoanApplication)
    → DistinctGrants market.grants
    → keep (is_reservation_of org_id application.id) db.reservations ≡ []
    → Parts power db org_id membership profile market application key actor_id db' row
    → AreReserved db db' market.grants org_id membership.id market.today
        row.terms.allocation_snapshot
unfolding submitted_row ensure_core_workflow_stages
Parts-AreReserved power db org_id membership profile market application key actor_id db' row
      distinct fresh parts =
    let day = some parts.checked.terms.as_of_date in
    let (quoted, calculated) =
      terms-AreQuoted power db org_id membership market parts.request day parts.quote parts.terms
        parts.was_quoted in
    let covered =
      calculate-IsCovered power db org_id membership market parts.request day parts.quote distinct
        calculated in
    let once =
      quote-AreDistinct _ _ _ parts.quote
        (load_active_grants-DistinctGrants market.grants org_id membership.id distinct) covered in
    let new = submitted_row parts.checked parts.terms key in
    let saved = record db { applications = save_application new db.applications } in
    let same = row-id profile application parts.checked parts.was_checked in
    let done =
      reserve_shares-AreReserved saved parts.reserved market.grants org_id membership.id new
        parts.quote.allocation market.today refl once
        (ap (λ id. keep (is_reservation_of org_id id) db.reservations) same ∙ fresh)
        parts.was_reserved in
    let last = log (ensure_core_workflow_stages parts.reserved org_id application.id) (record {
      actor_id = actor_id;
      action = submitted_loan;
      loan_application_id = application.id;
    }) in
    let whole : AreReserved db last market.grants org_id membership.id market.today
        parts.quote.allocation =
      record { covered = done.covered; added = done.added } in
    rw (parts.made, parts.stored, quoted.allocation) whole

-- Where a draft without reservations is submitted, for grants with different identifiers, then on
-- every grant of its new allocation all active reservations of the employee together are at most
-- the shares that have vested by the day of the submission, and each grant has just the shares of
-- the allocation more reserved than before.
pub submit_application-AreReserved :
    (power : Decimal → ℕ → Decimal) (db : Store) (org_id : ℕ) (membership : OrgMembership)
    (profile : Option Text) (market : Market) (application : LoanApplication) (given : Option Text)
    (actor_id : Option ℕ) (db' : Store) (row : LoanApplication)
    → DistinctGrants market.grants
    → keep (is_reservation_of org_id application.id) db.reservations ≡ []
    → application.status ≡ draft
    → submit_application power db org_id membership profile market application given actor_id
      ≡ ok (db', row)
    → AreReserved db db' market.grants org_id membership.id market.today
        row.terms.allocation_snapshot
submit_application-AreReserved power db org_id membership profile market application given actor_id
      db' row distinct fresh is_draft h =
    let (key, parts) =
      drafted power db org_id membership profile market application given actor_id db' row is_draft
        h in
    Parts-AreReserved power db org_id membership profile market application key actor_id db' row
      distinct fresh parts
