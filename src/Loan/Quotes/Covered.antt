-- ===== src/Loan/Quotes/Covered.antt =====
-- What a quote of app/services/loan_quotes.py promises about shares and money.
use sole_backend.Prelude.{
  ℕ, ◌+◌, ◌-◌, ◌≤◌, ◌≡◌, ◌≢◌, refl, subst, Bool, true, false, not, Option, inl, inr, List, [], ◌∷◌,
  map, ltb, ◌==◌, sum_of, All, arith, Bool-cases, Result, ok, ◌>>◌, raise_if, passes, ok-injective,
}
use sole_backend.Prelude.Int.{sub_ℕ}
use sole_backend.Decimal.{Decimal}
use sole_backend.Stock.Membership.{OrgMembership}
use sole_backend.Stock.Vesting.{
  EmployeeStockGrant, GrantVestingSummary, aggregate_vesting, build_grant_summaries,
  build_grant_summary,
}
use sole_backend.Stock.Vesting.Totals.{summaries_total}
use sole_backend.Stock.Eligibility.{evaluate_eligibility_from_totals}
use sole_backend.Loan.Allocation.{shares_of, price_of, allocate_shares_oldest_first}
use sole_backend.Loan.Allocation.Greedy.{
  vested_of, allocated_shares, shares_for, vested_for, allocated_within,
}
use sole_backend.Loan.Terms.{LoanSelectionMode, same_interest, same_method}
use sole_backend.Loan.Quotes.{
  LoanQuoteError, LoanQuoteRequest, LoanQuoteResponse, OrgSettings, reserved_for, adjust,
  selected_shares, resolve_shares_to_exercise, build_loan_quote_from_data, is_refused, resolve_term,
  build_options, choices, has_no_option,
}

raise_if_ok :
    (b : Bool) (e : LoanQuoteError) {A : Type 0} {r : Result LoanQuoteError A} {a : A}
    → (raise_if b e >> r) ≡ ok a
    → (b ≡ false) × (r ≡ ok a)
raise_if_ok true e h = cc
raise_if_ok false e h = (refl, h)

-- A resolved selection is at least one share and at most the shares that can be exercised.
pub resolve_bounds :
    (mode : LoanSelectionMode) (value : Decimal) (total n : ℕ)
    → resolve_shares_to_exercise mode value total ≡ ok n
    → (1 ≤ n) × (n ≤ total)
unfolding resolve_shares_to_exercise
resolve_bounds mode value total n h =
    let a = raise_if_ok (total == 0) LoanQuoteError.no_exercisable_shares h in
    let (count, chosen, rest) = passes (selected_shares mode value total) _ a.1 in
    let b = raise_if_ok (count == 0) LoanQuoteError.zero_shares rest in
    let c = raise_if_ok (ltb total count) LoanQuoteError.shares_exceed_eligibility b.1 in
    let same : count ≡ n = ok-injective c.1 in (ground arith, ground arith)

abbrev pub NotIn : ℕ → List GrantVestingSummary → Type 0
NotIn id = All (λ s. s.grant_id ≢ id)

abbrev pub DistinctIds : List GrantVestingSummary → Type 0
DistinctIds [] = Unit
DistinctIds (s ∷ rest) = NotIn s.grant_id rest × DistinctIds rest

abbrev reserved_of : List (ℕ × ℕ) → List GrantVestingSummary → ℕ
reserved_of reserved = sum_of (λ s. reserved_for s.grant_id reserved)

reserved-NotIn :
    (id n : ℕ) (reserved : List (ℕ × ℕ)) (summaries : List GrantVestingSummary)
    → NotIn id summaries
    → reserved_of ((id, n) ∷ reserved) summaries ≡ reserved_of reserved summaries
unfolding reserved_for
reserved-NotIn id n reserved [] h = refl
reserved-NotIn id n reserved (s ∷ rest) h = ground (arith, reserved-NotIn id n reserved rest h.1)

reserved-cons :
    (id n : ℕ) (reserved : List (ℕ × ℕ)) (summaries : List GrantVestingSummary)
    → DistinctIds summaries
    → reserved_of ((id, n) ∷ reserved) summaries ≤ n + reserved_of reserved summaries
unfolding reserved_for
reserved-cons id n reserved [] h = omega arith
reserved-cons id n reserved (s ∷ rest) h = elim (Bool-cases (id == s.grant_id)) [
  | inl e ↦ rw e (
      omega
        (arith, reserved-NotIn id n reserved rest (subst (λ x. NotIn x rest) (ground arith) h.0)))
  | inr e ↦ rw e (omega (arith, reserved-cons id n reserved rest h.1))
]

reserved-nil : (summaries : List GrantVestingSummary) → reserved_of [] summaries ≡ 0
unfolding reserved_for
reserved-nil [] = refl
reserved-nil (s ∷ rest) = omega (arith, reserved-nil rest)

reserved-le :
    (reserved : List (ℕ × ℕ)) (summaries : List GrantVestingSummary)
    → DistinctIds summaries
    → reserved_of reserved summaries ≤ sum_of (λ row. row.1) reserved
reserved-le [] summaries h = omega (arith, reserved-nil summaries)
reserved-le ((id, n) ∷ reserved) summaries h =
    omega (arith, reserved-cons id n reserved summaries h, reserved-le reserved summaries h)

vested-adjust :
    (reserved : List (ℕ × ℕ)) (summaries : List GrantVestingSummary)
    → vested_of summaries
      ≤ vested_of (map (adjust reserved) summaries) + reserved_of reserved summaries
unfolding adjust
vested-adjust reserved [] = omega arith
vested-adjust reserved (s ∷ rest) = omega (arith, vested-adjust reserved rest)

-- Grants with different identifiers, as the primary key of the table has it.
abbrev pub DistinctGrants : List EmployeeStockGrant → Type 0
DistinctGrants [] = Unit
DistinctGrants (g ∷ rest) = All (λ other. other.id ≢ g.id) rest × DistinctGrants rest

summaries-NotIn :
    (id as_of : ℕ) (grants : List EmployeeStockGrant)
    → All (λ other. other.id ≢ id) grants
    → NotIn id (build_grant_summaries grants as_of)
unfolding build_grant_summaries build_grant_summary
summaries-NotIn id as_of [] h = tt
summaries-NotIn id as_of (g ∷ rest) h = (h.0, summaries-NotIn id as_of rest h.1)

pub summaries-DistinctIds :
    (as_of : ℕ) (grants : List EmployeeStockGrant)
    → DistinctGrants grants
    → DistinctIds (build_grant_summaries grants as_of)
unfolding build_grant_summaries build_grant_summary
summaries-DistinctIds as_of [] h = tt
summaries-DistinctIds as_of (g ∷ rest) h =
    (summaries-NotIn g.id as_of rest h.0, summaries-DistinctIds as_of rest h.1)

-- The shares of the grants that are not reserved are at least those that the quote offers.
available-le :
    (grants : List EmployeeStockGrant) (as_of : ℕ) (reserved : List (ℕ × ℕ))
    → DistinctGrants grants
    → (aggregate_vesting grants as_of).total_vested_shares - sum_of (λ row. row.1) reserved
      ≤ vested_of (map (adjust reserved) (build_grant_summaries grants as_of))
available-le grants as_of reserved distinct =
    let summaries = build_grant_summaries grants as_of in
    omega (
      arith,
      vested-adjust reserved summaries,
      reserved-le reserved summaries (summaries-DistinctIds as_of grants distinct),
      (summaries_total grants as_of).0,
    )

-- The shares and the money of a quote fit together.
pub record IsCovered (grants : List EmployeeStockGrant) (as_of : ℕ) (reserved : List (ℕ × ℕ))
    (q : LoanQuoteResponse) : Type 0 where
  pub offered :
      q.total_exercisable_shares
      ≡ (aggregate_vesting grants as_of).total_vested_shares - sum_of (λ row. row.1) reserved
  pub positive : 1 ≤ q.shares_to_exercise
  pub bounded : q.shares_to_exercise ≤ q.total_exercisable_shares
  pub allocated : shares_of q.allocation ≡ q.shares_to_exercise
  pub within :
      (id : ℕ)
      → shares_for id q.allocation
        ≤ vested_for id (map (adjust reserved) (build_grant_summaries grants as_of))
  pub oldest_first :
      q.allocation
      ≡ (allocate_shares_oldest_first
          (map (adjust reserved) (build_grant_summaries grants as_of))
          q.shares_to_exercise).1
  pub price : price_of q.allocation ≡ q.purchase_price
  pub financed : q.loan_principal ≡ sub_ℕ q.purchase_price q.down_payment_amount
  pub has_option : q.options ≢ []
  pub eligible : q.eligibility_result.eligible_to_exercise ≡ true

price-allocated :
    (summaries : List GrantVestingSummary) (n : ℕ)
    → price_of (allocate_shares_oldest_first summaries n).1
      ≡ (allocate_shares_oldest_first summaries n).0
unfolding allocate_shares_oldest_first
price-allocated summaries n = refl

-- Where a quote is given, for grants with different identifiers, its allocation holds exactly the
-- shares to exercise. These are at least one and at most the vested shares less all reservations,
-- and no grant gives more than its own vested shares less its own reservation. The purchase price is
-- the sum over the allocation, the principal is the price less the down payment, the employee is
-- eligible, and there is an option to choose.
pub quote-IsCovered :
    (power : Decimal → ℕ → Decimal) (m : OrgMembership) (settings : OrgSettings)
    (grants : List EmployeeStockGrant) (request : LoanQuoteRequest) (as_of : ℕ)
    (reserved : List (ℕ × ℕ)) (base : Option Decimal) (q : LoanQuoteResponse)
    → DistinctGrants grants
    → build_loan_quote_from_data power m settings grants request as_of reserved base ≡ ok q
    → IsCovered grants as_of reserved q
unfolding build_loan_quote_from_data
quote-IsCovered power m settings grants request as_of reserved base q distinct h =
    let totals = aggregate_vesting grants as_of in
    let eligibility = evaluate_eligibility_from_totals m settings.stock_policy totals as_of in
    let eligible = raise_if_ok (not eligibility.eligible_to_exercise) _ h in
    let (count, resolved, h1) =
      passes (resolve_shares_to_exercise request.selection_mode request.selection_value _) _
        eligible.1 in
    let bounds = resolve_bounds request.selection_mode request.selection_value _ count resolved in
    let types = settings.allowed_interest_types in
    let methods = settings.allowed_repayment_methods in
    let h2 = raise_if_ok (is_refused same_interest request.desired_interest_type types) _ h1 in
    let h3 = raise_if_ok (is_refused same_method request.desired_repayment_method methods) _ h2.1 in
    let (term, termed, h4) =
      passes
        (resolve_term request.desired_term_months settings.min_loan_term_months
          settings.max_loan_term_months)
        _ h3.1 in
    let (options, optioned, h5) =
      passes
        (build_options power settings base term _ (choices request.desired_repayment_method methods)
          (choices request.desired_interest_type types))
        _ h4 in
    let h6 = raise_if_ok (has_no_option options) _ h5 in
    let summaries = map (adjust reserved) (build_grant_summaries grants as_of) in
    subst (IsCovered grants as_of reserved) (ok-injective h6.1) (record {
      offered = refl;
      positive = bounds.0;
      bounded = bounds.1;
      allocated = omega (
        arith,
        allocated_shares summaries count,
        available-le grants as_of reserved distinct,
        bounds.1,
      );
      within = allocated_within summaries count;
      oldest_first = refl;
      price = price-allocated summaries count;
      financed = refl;
      has_option = λ e. ground (arith, h6.0);
      eligible = ground (arith, eligible.0);
    })
