-- ===== src/Loan/Submission.antt =====
-- `submit_application` of app/services/loan_applications.py.
pub mod Stages
pub mod Parts
pub mod Kept
pub mod RoundTrip
pub mod Reserved
pub mod Submitted
pub mod Replayed
use sole_backend.Prelude.{
  ℕ, Bool, true, false, not, ◌&&◌, ◌||◌, Option, none, some, List, [], ◌∷◌, ◌++◌, if◌then◌else◌,
  any, Text, eq_text, strip, Result, ok, err, ◌>>=◌, ◌>>◌, raise_if,
}
use sole_backend.Decimal.{Decimal}
use sole_backend.Stock.Membership.{OrgMembership}
use sole_backend.Loan.Quotes.{LoanQuoteRequest}
use sole_backend.Loan.Marital.{
  MaritalStatus, married, domestic_partner, same_marital, InvalidMarital, normalize_marital_status,
}
use sole_backend.Loan.Store.{
  draft, submitted, hr_review, finance_processing, legal_execution, hr, finance, legal, Spouse,
  QuoteTerms, LoanApplication, submitted_loan, Store, same_status, save_application,
}
use sole_backend.Loan.Reservations.{reserve_shares_for_application}
use sole_backend.Loan.Workflow.{ensure_stage, log}
use sole_backend.Loan.Drafts.{
  SpouseField, first_name, last_name, email, phone, address, LoanError, reserve_error,
  idempotency_conflict, invalid_status, invalid_marital_status, marital_status_mismatch,
  spouse_info_required, policy_out_of_date, integrity_error, with_error, validate_idempotency_key,
  same_text, current_policy_version, policy_version_mismatch, selection_value_from_application,
  Market, apply_quote, violates_checks, quoted_terms,
}

abbrev pub invalid : InvalidMarital → LoanError
invalid _ = invalid_marital_status

abbrev pub needs_spouse : Option MaritalStatus → Bool
needs_spouse none = false
needs_spouse (some status) = same_marital status married || same_marital status domestic_partner

unfoldable pub requires_spouse_info : Option Text → Result LoanError Bool
requires_spouse_info marital_status = do
  normalized ← with_error invalid (normalize_marital_status marital_status)
  ok (needs_spouse normalized)

-- `not (value or "").strip()`
abbrev pub is_blank : Option Text → Bool
is_blank none = true
is_blank (some value) = elim (strip value) [ [] ↦ true | c ∷ s ↦ false ]

abbrev pub field_if : Bool → SpouseField → List SpouseField
field_if true field = field ∷ []
field_if false field = []

unfoldable pub missing_spouse_fields : Spouse → List SpouseField
missing_spouse_fields spouse =
    field_if (is_blank spouse.first_name) first_name
    ++ field_if (is_blank spouse.last_name) last_name
    ++ field_if (is_blank spouse.email) email
    ++ field_if (is_blank spouse.phone) phone
    ++ field_if (is_blank spouse.address) address

abbrev pub check_fields : Bool → List SpouseField → Result LoanError (Unit {0})
check_fields false missing = ok tt
check_fields true [] = ok tt
check_fields true (field ∷ missing) = err (spouse_info_required (field ∷ missing))

unfoldable pub check_spouse : LoanApplication → Result LoanError (Unit {0})
check_spouse application = do
  required ← requires_spouse_info application.marital_status_snapshot
  check_fields required (missing_spouse_fields application.spouse)

abbrev pub differ : Option MaritalStatus → Option MaritalStatus → Bool
differ (some current) (some given) = not (same_marital current given)
differ _ _ = false

-- The snapshot, filled from the profile where the draft has none.
abbrev pub filled_marital :
    Option MaritalStatus → Option MaritalStatus → Option Text → Option Text → Option Text
filled_marital (some current) none profile snapshot = profile
filled_marital _ _ profile snapshot = snapshot

unfoldable pub check_marital : Option Text → LoanApplication → Result LoanError LoanApplication
check_marital profile application = do
  current ← with_error invalid (normalize_marital_status profile)
  given ← with_error invalid (normalize_marital_status application.marital_status_snapshot)
  raise_if (differ current given) marital_status_mismatch
  let filled = record application {
    marital_status_snapshot =
        filled_marital current given profile application.marital_status_snapshot;
  }
  check_spouse filled
  ok filled

-- `_ensure_core_workflow_stages`
unfoldable pub ensure_core_workflow_stages : Store → ℕ → ℕ → Store
ensure_core_workflow_stages db org_id loan_id = record db {
  stages =
      db.stages
      ++ ensure_stage org_id loan_id db.stages hr_review hr
      ++ ensure_stage org_id loan_id db.stages finance_processing finance
      ++ ensure_stage org_id loan_id db.stages legal_execution legal;
}

abbrev pub conflicts : Option Text → Option Text → Bool
conflicts (some key) (some earlier) = not (eq_text earlier key)
conflicts _ _ = false

abbrev pub or_earlier : Option Text → Option Text → Option Text
or_earlier none earlier = earlier
or_earlier (some key) earlier = some key

-- The request that a submission makes of the terms of the draft.
unfoldable pub submit_request : QuoteTerms → Result LoanError LoanQuoteRequest
submit_request terms = do
  value ← selection_value_from_application terms
  ok (record {
    selection_mode = terms.selection_mode;
    selection_value = value;
    desired_interest_type = some terms.interest_type;
    desired_repayment_method = some terms.repayment_method;
    desired_term_months = some terms.term_months;
  })

abbrev pub is_replay : LoanApplication → Option Text → Bool
is_replay application none = false
is_replay application (some key) =
    same_status application.status submitted && same_text application.submit_idempotency_key key

unfoldable pub submitted_row : LoanApplication → QuoteTerms → Option Text → LoanApplication
unfolding apply_quote
submitted_row application terms key = record (apply_quote application terms) {
  status = submitted;
  submit_idempotency_key = or_earlier key application.submit_idempotency_key;
}

module _ (power : Decimal → ℕ → Decimal) where
  -- A draft that is submitted for the first time. `profile` is the marital status of the profile.
  unfoldable pub submit_draft :
      Store
      → ℕ
      → OrgMembership
      → Option Text
      → Market
      → LoanApplication
      → Option Text
      → Option ℕ
      → Result LoanError (Store × LoanApplication)
  submit_draft db org_id membership profile market application key actor_id = do
    raise_if (conflicts key application.submit_idempotency_key) idempotency_conflict
    checked ← check_marital profile application
    request ← submit_request checked.terms
    raise_if (policy_version_mismatch checked.terms (current_policy_version market.settings))
        policy_out_of_date
    (quote, terms) ←
        quoted_terms power db org_id membership market request (some checked.terms.as_of_date)
    let row = submitted_row checked terms key
    let saved = record db { applications = save_application row db.applications }
    reserved ← with_error reserve_error (
        reserve_shares_for_application saved market.grants org_id membership.id row quote.allocation
          market.today)
    raise_if (violates_checks terms) integrity_error
    ok (
      log (ensure_core_workflow_stages reserved org_id application.id) (record {
        actor_id = actor_id;
        action = submitted_loan;
        loan_application_id = application.id;
      }),
      row,
    )

  -- A submission with the key that it was made with is answered again.
  unfoldable pub submit_with :
      Store
      → ℕ
      → OrgMembership
      → Option Text
      → Market
      → LoanApplication
      → Option Text
      → Option ℕ
      → Result LoanError (Store × LoanApplication)
  submit_with db org_id membership profile market application key actor_id =
      elim (same_status application.status draft) [
        | true ↦ submit_draft db org_id membership profile market application key actor_id
        | false ↦ elim (is_replay application key) [
          | true ↦ ok (ensure_core_workflow_stages db org_id application.id, application)
          | false ↦ err (invalid_status application.status)
        ]
      ]

  unfoldable pub submit_application :
      Store
      → ℕ
      → OrgMembership
      → Option Text
      → Market
      → LoanApplication
      → Option Text
      → Option ℕ
      → Result LoanError (Store × LoanApplication)
  submit_application db org_id membership profile market application idempotency_key actor_id = do
    key ← validate_idempotency_key idempotency_key
    submit_with db org_id membership profile market application key actor_id
