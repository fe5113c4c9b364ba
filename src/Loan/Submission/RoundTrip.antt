-- ===== src/Loan/Submission/RoundTrip.antt =====
-- A submission (app/services/loan_applications.py) quotes the draft again for what the draft says.
use sole_backend.Prelude.{
  ℕ, suc, ◌≡◌, refl, sym, ap, subst, ◌∙◌, Option, some, List, [], ◌∷◌, head?, Text, ok, passes,
  ok-injective, or_raise, or_raise-found,
}
use sole_backend.Decimal.{Decimal, decimal}
use sole_backend.Stock.Membership.{OrgMembership}
use sole_backend.Loan.Terms.{shares}
use sole_backend.Loan.Quotes.{LoanQuoteRequest, LoanQuoteResponse, LoanQuoteOption, quote_option}
use sole_backend.Loan.Store.{draft, QuoteTerms, LoanApplication, Store}
use sole_backend.Loan.Drafts.{
  quote_error, index_error, selection_value_from_application, Market, terms_of, or_kept,
  calculate_loan_quote, quoted_terms,
}
use sole_backend.Loan.Submission.{submit_request, submitted_row, submit_application}
use sole_backend.Loan.Submission.Parts.{with_error-ok, check_marital-keeps}
use sole_backend.Loan.Submission.Kept.{quote-Answers, resolve-shares}
use sole_backend.Loan.Submission.Submitted.{drafted}

-- The part of the terms that the employee chose.
pub record AreKept (old new : QuoteTerms) : Type 0 where
  pub day : new.as_of_date ≡ old.as_of_date
  pub mode : new.selection_mode ≡ old.selection_mode
  pub count : new.shares_to_exercise ≡ old.shares_to_exercise
  pub type : new.interest_type ≡ old.interest_type
  pub method : new.repayment_method ≡ old.repayment_method
  pub months : new.term_months ≡ old.term_months

-- The request that a draft in shares makes.
abbrev request_of : QuoteTerms → LoanQuoteRequest
request_of terms = record {
  selection_mode = terms.selection_mode;
  selection_value = decimal terms.shares_to_exercise 0;
  desired_interest_type = some terms.interest_type;
  desired_repayment_method = some terms.repayment_method;
  desired_term_months = some terms.term_months;
}

request-shares :
    (terms : QuoteTerms) (request : LoanQuoteRequest)
    → terms.selection_mode ≡ shares
    → submit_request terms ≡ ok request
    → request ≡ request_of terms
unfolding submit_request selection_value_from_application
request-shares terms request in_shares h =
    let (value, v, h1) = passes (selection_value_from_application terms) _ h in
    let value_is : decimal terms.shares_to_exercise 0 ≡ value =
      ok-injective (rw (selection_value_from_application, in_shares) at v) in
    sym (ok-injective h1)
    ∙ ap (λ v. record (request_of terms) { selection_value = v }) (sym value_is)

only-head :
    (options : List LoanQuoteOption) (x y : LoanQuoteOption)
    → options ≡ x ∷ []
    → head? options ≡ some y
    → y ≡ x
only-head options x y e h = sym (ap (λ o. or_kept o x) (rw e at h))

requoted-AreKept :
    (power : Decimal → ℕ → Decimal) (db : Store) (org_id : ℕ) (membership : OrgMembership)
    (market : Market) (old : QuoteTerms) (q : LoanQuoteResponse) (new : QuoteTerms) (n : ℕ)
    → old.selection_mode ≡ shares
    → old.term_months ≡ suc n
    → quoted_terms power db org_id membership market (request_of old) (some old.as_of_date)
      ≡ ok (q, new)
    → AreKept old new
unfolding quoted_terms calculate_loan_quote terms_of quote_option
requoted-AreKept power db org_id membership market old q new n in_shares months h =
    let request = request_of old in
    let day = some old.as_of_date in
    let (quote, c, h1) =
      passes (calculate_loan_quote power db org_id membership market request day) _ h in
    let (option, o, h2) = passes (or_raise (head? quote.options) index_error) _ h1 in
    let answers =
      quote-Answers power membership market.settings _ request old.as_of_date _
        market.variable_base_rate quote old.interest_type old.repayment_method n refl refl
        (ap some months) (with_error-ok quote_error _ c) in
    let resolved =
      resolve-shares old.shares_to_exercise quote.total_exercisable_shares quote.shares_to_exercise
        (rw in_shares at answers.resolved) in
    let same =
      only-head quote.options _ option answers.only
        (or_raise-found (head? quote.options) index_error option o) in
    subst (λ p. AreKept old p.1) (ok-injective h2)
      (record {
        day = answers.day;
        mode = refl;
        count = resolved;
        type = ap (λ x. x.interest_type) same;
        method = ap (λ x. x.repayment_method) same;
        months = ap (λ x. x.term_months) same ∙ sym months;
      })

-- Where a draft that is made out in a number of shares, with a term, is submitted, its row has the
-- day, the kind of selection, the number of shares, the interest type, the repayment method and the
-- term of the draft.
pub submit_application-AreKept :
    (power : Decimal → ℕ → Decimal) (db : Store) (org_id : ℕ) (membership : OrgMembership)
    (profile : Option Text) (market : Market) (application : LoanApplication) (given : Option Text)
    (actor_id : Option ℕ) (db' : Store) (row : LoanApplication) (n : ℕ)
    → application.status ≡ draft
    → application.terms.selection_mode ≡ shares
    → application.terms.term_months ≡ suc n
    → submit_application power db org_id membership profile market application given actor_id
      ≡ ok (db', row)
    → AreKept application.terms row.terms
unfolding submitted_row
submit_application-AreKept power db org_id membership profile market application given actor_id db'
      row n is_draft in_shares months h =
    let (key, parts) =
      drafted power db org_id membership profile market application given actor_id db' row is_draft
        h in
    let same : parts.checked.terms ≡ application.terms =
      ap (λ a. a.terms)
        (check_marital-keeps profile application parts.checked parts.was_checked).1 in
    let asked =
      request-shares parts.checked.terms parts.request (ap (λ t. t.selection_mode) same ∙ in_shares)
        parts.was_requested in
    let kept =
      requoted-AreKept power db org_id membership market parts.checked.terms parts.quote parts.terms
        n (ap (λ t. t.selection_mode) same ∙ in_shares) (ap (λ t. t.term_months) same ∙ months)
        (subst
          (λ request.
            quoted_terms power db org_id membership market request
              (some parts.checked.terms.as_of_date)
            ≡ ok (parts.quote, parts.terms))
          asked parts.was_quoted) in
    rw parts.made (subst (λ t. AreKept t parts.terms) same kept)
