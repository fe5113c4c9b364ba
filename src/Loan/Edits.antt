-- ===== src/Loan/Edits.antt =====
-- Edits of an application by an administrator: `update_admin_application_fields` of
-- app/services/loan_applications.py, with `_delete_loan_documents` and `_reset_workflow_stages`. The
-- stored objects of the documents are left aside.
pub mod Replaced
use sole_backend.Prelude.{
  ℕ, Bool, true, false, not, ◌&&◌, ◌||◌, Option, none, some, List, [], ◌∷◌, ◌++◌, ◌==◌,
  if◌then◌else◌, keep, length, Text, Result, ok, err, ◌>>=◌, ◌>>◌, raise_if, or_raise,
}
use sole_backend.Decimal.{Decimal}
use sole_backend.Stock.Membership.{OrgMembership}
use sole_backend.Loan.Quotes.{LoanQuoteResponse}
use sole_backend.Loan.Store.{
  LoanStatus, draft, submitted, in_review, LoanDocument, LoanApplication, QuoteTerms, Spouse,
  admin_edit, Store, same_status, is_stage_of, save_application,
}
use sole_backend.Loan.Reservations.{
  delete_reservations_for_application, reserve_shares_for_application,
}
use sole_backend.Loan.Workflow.{log}
use sole_backend.Loan.Drafts.{
  LoanError, reserve_error, invalid_status, policy_out_of_date, membership_not_found,
  integrity_error, with_error, current_policy_version, policy_version_mismatch, Market, Selection,
  asks_recalc, or_kept, apply_quote, violates_checks, merged, quoted_terms, request_for,
}
use sole_backend.Loan.Submission.{ensure_core_workflow_stages}

-- `LoanAdminEditRequest`
pub record AdminEdit : Type 0 where
  pub selection : Selection
  pub marital_status_snapshot : Option Text
  pub spouse : Spouse
  pub reset_workflow : Bool
  pub delete_documents : Bool

abbrev pub is_editable : LoanStatus → Bool
is_editable draft = true
is_editable submitted = true
is_editable in_review = true
is_editable _ = false

abbrev pub is_under_way : LoanStatus → Bool
is_under_way submitted = true
is_under_way in_review = true
is_under_way _ = false

abbrev pub is_document_of_loan : ℕ → ℕ → LoanDocument → Bool
is_document_of_loan org_id loan_id d = (d.org_id == org_id) && (d.loan_application_id == loan_id)

unfoldable pub delete_loan_documents : Store → ℕ → ℕ → Store × ℕ
delete_loan_documents db org_id loan_id = (
  record db { documents = keep (λ d. not (is_document_of_loan org_id loan_id d)) db.documents },
  length (keep (is_document_of_loan org_id loan_id) db.documents),
)

unfoldable pub reset_workflow_stages : Store → ℕ → ℕ → Store
reset_workflow_stages db org_id loan_id =
    ensure_core_workflow_stages
      (record db { stages = keep (λ stage. not (is_stage_of org_id loan_id stage)) db.stages })
      org_id loan_id

unfoldable pub clear_loan : Store → ℕ → ℕ → AdminEdit → Store × ℕ
clear_loan db org_id loan_id payload =
    let cleared =
      if payload.delete_documents then delete_loan_documents db org_id loan_id else (db, 0) in
    (
      if payload.reset_workflow then reset_workflow_stages cleared.0 org_id loan_id else cleared.0,
      cleared.1,
    )

abbrev pub target_status : LoanStatus → Bool → LoanStatus
target_status status reset = if reset && not (same_status status draft) then in_review else status

unfoldable pub edited_row : LoanApplication → QuoteTerms → AdminEdit → LoanApplication
unfolding apply_quote merged
edited_row application terms payload =
    merged
      (record (apply_quote application terms) {
        status = target_status application.status payload.reset_workflow;
      })
      payload.marital_status_snapshot payload.spouse

unfoldable pub kept_row : LoanApplication → AdminEdit → LoanApplication
unfolding merged
kept_row application payload =
    merged (record application { status = target_status application.status payload.reset_workflow })
      payload.marital_status_snapshot payload.spouse

-- The store, the row, and how many documents were deleted.
abbrev pub Edited : Type 0
Edited = Store × (LoanApplication × ℕ)

-- The reservations of the application are made anew from the quote.
unfoldable pub replace_reservations :
    Store
    → ℕ
    → ℕ
    → Market
    → LoanApplication
    → LoanQuoteResponse
    → AdminEdit
    → Result LoanError (Store × ℕ)
replace_reservations db org_id membership_id market row quote payload = do
  let freed = delete_reservations_for_application db org_id row.id
  let cleared = clear_loan freed org_id row.id payload
  let saved = record cleared.0 { applications = save_application row cleared.0.applications }
  reserved ← with_error reserve_error (
      reserve_shares_for_application saved market.grants org_id membership_id row quote.allocation
        market.today)
  ok (reserved, cleared.1)

module _ (power : Decimal → ℕ → Decimal) where
  -- With a new quote.
  unfoldable pub requote_application :
      Store → ℕ → OrgMembership → Market → LoanApplication → AdminEdit → Result LoanError Edited
  requote_application db org_id membership market application payload = do
    request ← request_for application.terms payload.selection
    let day = some (or_kept payload.selection.as_of_date application.terms.as_of_date)
    (quote, terms) ← quoted_terms power db org_id membership market request day
    let row = edited_row application terms payload
    raise_if (violates_checks terms) integrity_error
    let saved = record db { applications = save_application row db.applications }
    (store, deleted) ← elim (is_under_way application.status || payload.reset_workflow) [
      | true ↦ replace_reservations db org_id membership.id market row quote payload
      | false ↦ ok (saved, 0)
    ]
    ok (store, (row, deleted))

  -- Without one.
  unfoldable pub amend_application :
      Store → ℕ → Market → LoanApplication → AdminEdit → Result LoanError Edited
  amend_application db org_id market application payload = do
    raise_if (policy_version_mismatch application.terms (current_policy_version market.settings))
        policy_out_of_date
    let cleared = clear_loan db org_id application.id payload
    let row = kept_row application payload
    ok (
      record cleared.0 { applications = save_application row cleared.0.applications },
      (row, cleared.1),
    )

  unfoldable pub update_admin_application_fields :
      Store
      → ℕ
      → Option OrgMembership
      → Market
      → LoanApplication
      → AdminEdit
      → ℕ
      → Result LoanError (Store × LoanApplication)
  update_admin_application_fields db org_id found market application payload actor_id = do
    raise_if (not (is_editable application.status)) (invalid_status application.status)
    membership ← or_raise found membership_not_found
    (store, (row, deleted)) ← elim (asks_recalc payload.selection) [
      | true ↦ requote_application db org_id membership market application payload
      | false ↦ amend_application db org_id market application payload
    ]
    ok (
      log store (record {
        actor_id = some actor_id;
        action = admin_edit application.status row.status payload.reset_workflow deleted;
        loan_application_id = application.id;
      }),
      row,
    )
