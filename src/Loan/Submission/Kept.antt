-- ===== src/Loan/Submission/Kept.antt =====
-- What a new quote keeps of the terms that it is asked for (app/services/loan_quotes.py).
use sole_backend.Prelude.{
  ◌++◌, ℕ, suc, ◌%◌, ◌≡◌, refl, sym, ap, subst, ◌∙◌, not, ◌||◌, Option, some, List, [], ◌∷◌, ltb,
  ◌==◌, ok, passes, ok-injective, raise_if-passed, arith,
}
use sole_backend.Prelude.Int.{ℤ}
use sole_backend.Decimal.{Decimal, decimal}
use sole_backend.Stock.Membership.{OrgMembership}
use sole_backend.Stock.Vesting.{EmployeeStockGrant, aggregate_vesting}
use sole_backend.Stock.Eligibility.{evaluate_eligibility_from_totals}
use sole_backend.Loan.Terms.{
  LoanInterestType, LoanRepaymentMethod, shares, same_interest, same_method,
}
use sole_backend.Loan.Quotes.{
  LoanQuoteError, LoanQuoteRequest, LoanQuoteResponse, LoanQuoteOption, OrgSettings, floor_of,
  selected_shares, resolve_shares_to_exercise, is_refused, choices, desired_term, resolve_term,
  annual_rate_for, loan_quote_option, quote_option, options_of_type, monthly_payment_of,
  build_options, has_no_option, build_loan_quote_from_data,
}

whole : (n : ℕ) → floor_of (decimal n 0) ≡ n
unfolding floor_of
whole n = omega arith

-- A number of shares that is asked for is the number that is quoted.
pub resolve-shares :
    (n total count : ℕ)
    → resolve_shares_to_exercise shares (decimal n 0) total ≡ ok count
    → count ≡ n
unfolding resolve_shares_to_exercise selected_shares
resolve-shares n total count h =
    let h1 = raise_if-passed (total == 0) LoanQuoteError.no_exercisable_shares _ h in
    let (chosen, s, h2) = passes (selected_shares shares (decimal n 0) total) _ h1.1 in
    let s1 = raise_if-passed (n == 0) LoanQuoteError.invalid_shares _ s in
    let s2 = raise_if-passed (not (n % 1 == 0)) LoanQuoteError.not_whole _ s1.1 in
    let h3 = raise_if-passed (chosen == 0) LoanQuoteError.zero_shares _ h2 in
    let h4 = raise_if-passed (ltb total chosen) LoanQuoteError.shares_exceed_eligibility _ h3.1 in
    let floor : floor_of (decimal n 0) ≡ chosen = ok-injective s2.1 in
    omega (arith, sym (ok-injective h4.1), sym (whole n) ∙ floor)

wanted_term :
    (desired : Option ℕ) (min_term max_term term n : ℕ)
    → desired ≡ some (suc n)
    → resolve_term desired min_term max_term ≡ ok term
    → term ≡ suc n
unfolding resolve_term
wanted_term desired min_term max_term term n dn h =
    let term' = desired_term desired min_term in
    let h1 =
      raise_if-passed (ltb term' min_term || ltb max_term term') LoanQuoteError.invalid_term _ h in
    sym (ok-injective h1.1) ∙ ap (λ d. desired_term d min_term) dn

module _ (power : Decimal → ℕ → Decimal) where
  -- With one type and one method there is one option.
  one_option :
      (settings : OrgSettings) (base : Option Decimal) (term : ℕ) (principal : ℤ)
      (method : Option LoanRepaymentMethod) (methods : List LoanRepaymentMethod)
      (type : Option LoanInterestType) (types : List LoanInterestType) (m : LoanRepaymentMethod)
      (i : LoanInterestType) (n : ℕ) (options : List LoanQuoteOption)
      → term ≡ n
      → method ≡ some m
      → type ≡ some i
      → build_options power settings base term principal
          (choices method methods)
          (choices type types)
        ≡ ok options
      → (rate : Decimal) × (paid : ℤ) × (options ≡ quote_option i m n rate principal paid ∷ [])
  unfolding build_options options_of_type loan_quote_option
  one_option settings base term principal method methods type types m i n options dn dm di h =
      let (rate, r, h1) = passes (annual_rate_for settings base i) _ (rw (dm, di) at h) in
      let (one, o, h2) = passes (options_of_type power i term rate principal (m ∷ [])) _ h1 in
      let (option, p, h3) = passes (loan_quote_option power i m term rate principal) _ o in
      let (paid, p2, h4) = passes (monthly_payment_of power m term rate principal) _ p in
      (
        rate,
        paid,
        subst (λ t. options ≡ quote_option i m t rate principal paid ∷ []) dn
            (sym (ok-injective h2)
              ∙ sym (ap (λ os. os ++ []) (ok-injective h3))
              ∙ sym (ap (λ o. o ∷ []) (ok-injective h4))),
      )

  -- What a quote takes over from its request.
  pub record Answers (request : LoanQuoteRequest) (as_of : ℕ) (i : LoanInterestType)
      (m : LoanRepaymentMethod) (term : ℕ) (q : LoanQuoteResponse) : Type 0 where
    pub day : q.as_of_date ≡ as_of
    pub resolved :
        resolve_shares_to_exercise request.selection_mode request.selection_value
          q.total_exercisable_shares
        ≡ ok q.shares_to_exercise
    pub rate : Decimal
    pub paid : ℤ
    pub only : q.options ≡ quote_option i m term rate q.loan_principal paid ∷ []

  pub quote-Answers :
      (membership : OrgMembership) (settings : OrgSettings) (grants : List EmployeeStockGrant)
      (request : LoanQuoteRequest) (as_of : ℕ) (reserved : List (ℕ × ℕ)) (base : Option Decimal)
      (q : LoanQuoteResponse) (i : LoanInterestType) (m : LoanRepaymentMethod) (n : ℕ)
      → request.desired_interest_type ≡ some i
      → request.desired_repayment_method ≡ some m
      → request.desired_term_months ≡ some (suc n)
      → build_loan_quote_from_data power membership settings grants request as_of reserved base
        ≡ ok q
      → Answers request as_of i m (suc n) q
  unfolding build_loan_quote_from_data resolve_term
  quote-Answers membership settings grants request as_of reserved base q i m n di dm dn h =
      let totals = aggregate_vesting grants as_of in
      let eligibility =
        evaluate_eligibility_from_totals membership settings.stock_policy totals as_of in
      let h0 = raise_if-passed (not eligibility.eligible_to_exercise) _ _ h in
      let (count, resolved, h1) =
        passes (resolve_shares_to_exercise request.selection_mode request.selection_value _) _
          h0.1 in
      let types = settings.allowed_interest_types in
      let methods = settings.allowed_repayment_methods in
      let h2 =
        raise_if-passed (is_refused same_interest request.desired_interest_type types) _ _ h1 in
      let h3 =
        raise_if-passed (is_refused same_method request.desired_repayment_method methods) _ _
          h2.1 in
      let (term, termed, h4) =
        passes
          (resolve_term request.desired_term_months settings.min_loan_term_months
            settings.max_loan_term_months)
          _ h3.1 in
      let (options, optioned, h5) =
        passes
          (build_options power settings base term _
            (choices request.desired_repayment_method methods)
            (choices request.desired_interest_type types))
          _ h4 in
      let h6 = raise_if-passed (has_no_option options) _ _ h5 in
      let counted =
        wanted_term request.desired_term_months settings.min_loan_term_months
          settings.max_loan_term_months term n dn termed in
      let (rate, paid, only) =
        one_option settings base term _ request.desired_repayment_method methods
          request.desired_interest_type types m i (suc n) options counted dm di optioned in
      subst (Answers request as_of i m (suc n)) (ok-injective h6.1)
        (record { day = refl; resolved = resolved; rate = rate; paid = paid; only = only })
