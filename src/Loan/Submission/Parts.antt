-- ===== src/Loan/Submission/Parts.antt =====
-- A submission of a draft (app/services/loan_applications.py) that returns, step by step.
use sole_backend.Prelude.{
  ℕ, ◌≡◌, sym, ap, false, Option, some, Text, Result, ok, err, passes, ok-injective,
  raise_if-passed,
}
use sole_backend.Decimal.{Decimal}
use sole_backend.Stock.Membership.{OrgMembership}
use sole_backend.Loan.Quotes.{LoanQuoteRequest, LoanQuoteResponse}
use sole_backend.Loan.Marital.{normalize_marital_status}
use sole_backend.Loan.Store.{QuoteTerms, LoanApplication, submitted_loan, Store, save_application}
use sole_backend.Loan.Reservations.{reserve_shares_for_application}
use sole_backend.Loan.Workflow.{log}
use sole_backend.Loan.Drafts.{
  reserve_error, idempotency_conflict, marital_status_mismatch, policy_out_of_date, integrity_error,
  with_error, current_policy_version, policy_version_mismatch, Market, violates_checks,
  quoted_terms,
}
use sole_backend.Loan.Submission.{
  invalid, differ, filled_marital, check_spouse, check_marital, conflicts, submit_request,
  submitted_row, ensure_core_workflow_stages, submit_draft,
}

pub with_error-ok {ℓ κ μ} :
    {E : Type ℓ} {F : Type κ} {A : Type μ} {a : A} (f : E → F) (r : Result E A)
    → with_error f r ≡ ok a
    → r ≡ ok a
with_error-ok f (ok b) h = ap ok (ok-injective h)
with_error-ok f (err e) h = cc

-- The checks change the snapshot of the marital status at most.
pub check_marital-keeps :
    (profile : Option Text) (application checked : LoanApplication)
    → check_marital profile application ≡ ok checked
    → (snapshot : Option Text) × (checked
        ≡ record application { marital_status_snapshot = snapshot })
unfolding check_marital
check_marital-keeps profile application checked h =
    let (current, c, h1) = passes (with_error invalid (normalize_marital_status profile)) _ h in
    let (given, g, h2) =
      passes (with_error invalid (normalize_marital_status application.marital_status_snapshot)) _
        h1 in
    let h3 = raise_if-passed (differ current given) marital_status_mismatch _ h2 in
    let snapshot = filled_marital current given profile application.marital_status_snapshot in
    let (u, s, h4) =
      passes (check_spouse (record application { marital_status_snapshot = snapshot })) _ h3.1 in
    (snapshot, sym (ok-injective h4))

pub record Parts (power : Decimal → ℕ → Decimal) (db : Store) (org_id : ℕ)
    (membership : OrgMembership) (profile : Option Text) (market : Market)
    (application : LoanApplication) (key : Option Text) (actor_id : Option ℕ) (db' : Store)
    (row : LoanApplication) : Type 0 where
  pub checked : LoanApplication
  pub was_checked : check_marital profile application ≡ ok checked
  pub request : LoanQuoteRequest
  pub was_requested : submit_request checked.terms ≡ ok request
  pub up_to_date :
      policy_version_mismatch checked.terms (current_policy_version market.settings) ≡ false
  pub quote : LoanQuoteResponse
  pub terms : QuoteTerms
  pub was_quoted :
      quoted_terms power db org_id membership market request (some checked.terms.as_of_date)
      ≡ ok (quote, terms)
  pub reserved : Store
  pub was_reserved :
      reserve_shares_for_application
        (record db {
          applications = save_application (submitted_row checked terms key) db.applications;
        })
        market.grants
        org_id
        membership.id
        (submitted_row checked terms key)
        quote.allocation
        market.today
      ≡ ok reserved
  pub made : row ≡ submitted_row checked terms key
  pub stored :
      db'
      ≡ log (ensure_core_workflow_stages reserved org_id application.id) (record {
        actor_id = actor_id;
        action = submitted_loan;
        loan_application_id = application.id;
      })

pub submit_draft-Parts :
    (power : Decimal → ℕ → Decimal) (db : Store) (org_id : ℕ) (membership : OrgMembership)
    (profile : Option Text) (market : Market) (application : LoanApplication) (key : Option Text)
    (actor_id : Option ℕ) (db' : Store) (row : LoanApplication)
    → submit_draft power db org_id membership profile market application key actor_id
      ≡ ok (db', row)
    → Parts power db org_id membership profile market application key actor_id db' row
unfolding submit_draft
submit_draft-Parts power db org_id membership profile market application key actor_id db' row h =
    let h0 =
      raise_if-passed (conflicts key application.submit_idempotency_key) idempotency_conflict _ h in
    let (checked, c, h1) = passes (check_marital profile application) _ h0.1 in
    let (request, r, h2) = passes (submit_request checked.terms) _ h1 in
    let h3 =
      raise_if-passed
        (policy_version_mismatch checked.terms (current_policy_version market.settings))
        policy_out_of_date _ h2 in
    let day = some checked.terms.as_of_date in
    let (quoted, q, h4) =
      passes (quoted_terms power db org_id membership market request day) _ h3.1 in
    let (quote, terms) = quoted in
    let new = submitted_row checked terms key in
    let saved = record db { applications = save_application new db.applications } in
    let (reserved, s, h5) =
      passes
        (with_error reserve_error (
          reserve_shares_for_application saved market.grants org_id membership.id new
            quote.allocation market.today))
        _ h4 in
    let h6 = raise_if-passed (violates_checks terms) integrity_error _ h5 in
    let last = ok-injective h6.1 in
    record {
      checked = checked;
      was_checked = c;
      request = request;
      was_requested = r;
      up_to_date = h3.0;
      quote = quote;
      terms = terms;
      was_quoted = q;
      reserved = reserved;
      was_reserved = with_error-ok reserve_error _ s;
      made = sym (ap (λ p. p.1) last);
      stored = sym (ap (λ p. p.0) last);
    }
