-- ===== src/Loan/Submission/Submitted.antt =====
-- What a submission of a draft (app/services/loan_applications.py) leaves behind.
use sole_backend.Prelude.{
  ℕ, ◌≤◌, ◌≡◌, refl, sym, ap, subst, Option, some, List, [], ◌∷◌, ◌++◌, map, keep, head?, Text, ok,
  passes, ok-injective, or_raise,
}
use sole_backend.Prelude.Int.{sub_ℕ}
use sole_backend.Decimal.{Decimal}
use sole_backend.Stock.Membership.{OrgMembership}
use sole_backend.Stock.Vesting.{load_active_grants}
use sole_backend.Loan.Allocation.{LoanShareAllocation, shares_of, price_of}
use sole_backend.Loan.Quotes.{LoanQuoteRequest, LoanQuoteResponse}
use sole_backend.Loan.Quotes.Covered.{IsCovered, DistinctGrants, quote-IsCovered}
use sole_backend.Loan.Quotes.Distinct.{load_active_grants-DistinctGrants}
use sole_backend.Loan.Store.{
  draft, submitted, QuoteTerms, LoanApplication, StockGrantReservation, Store, save_application,
}
use sole_backend.Loan.Reservations.{
  is_reservation_of, reserve_shares_for_application, get_active_reservations_by_grant,
  allocated_ids, grants_for, check_items, reservation_for, reserve_new,
}
use sole_backend.Loan.Drafts.{
  quote_error, index_error, validate_idempotency_key, or_today, current_policy_version, Market,
  terms_of, calculate_loan_quote, quoted_terms,
}
use sole_backend.Loan.Submission.{
  check_marital, submitted_row, submit_with, submit_application, ensure_core_workflow_stages,
}
use sole_backend.Loan.Submission.Stages.{HasCore, ensure_core-HasCore}
use sole_backend.Loan.Submission.Parts.{
  Parts, with_error-ok, check_marital-keeps, submit_draft-Parts,
}

-- The terms of an application come from a quote for the shares that they name.
pub record AreQuoted (q : LoanQuoteResponse) (terms : QuoteTerms) (version : ℕ) : Type 0 where
  pub shares : terms.shares_to_exercise ≡ q.shares_to_exercise
  pub offered : terms.total_exercisable_shares_snapshot ≡ q.total_exercisable_shares
  pub allocation : terms.allocation_snapshot ≡ q.allocation
  pub price : terms.purchase_price ≡ q.purchase_price
  pub down : terms.down_payment_amount ≡ q.down_payment_amount
  pub principal : terms.loan_principal ≡ q.loan_principal
  pub current : terms.policy_version_snapshot ≡ some version

pub terms-AreQuoted :
    (power : Decimal → ℕ → Decimal) (db : Store) (org_id : ℕ) (membership : OrgMembership)
    (market : Market) (request : LoanQuoteRequest) (day : Option ℕ) (q : LoanQuoteResponse)
    (terms : QuoteTerms)
    → quoted_terms power db org_id membership market request day ≡ ok (q, terms)
    → AreQuoted q terms (current_policy_version market.settings)
      × (calculate_loan_quote power db org_id membership market request day ≡ ok q)
unfolding quoted_terms terms_of
terms-AreQuoted power db org_id membership market request day q terms h =
    let (quote, c, h1) =
      passes (calculate_loan_quote power db org_id membership market request day) _ h in
    let (option, o, h2) = passes (or_raise (head? quote.options) index_error) _ h1 in
    let same = ok-injective h2 in
    (
      subst (λ p. AreQuoted p.0 p.1 (current_policy_version market.settings)) same
          (record {
            shares = refl;
            offered = refl;
            allocation = refl;
            price = refl;
            down = refl;
            principal = refl;
            current = refl;
          }),
      subst (λ p. calculate_loan_quote power db org_id membership market request day ≡ ok p.0) same
          c,
    )

-- The reservations that a quote of a membership takes into account.
abbrev pub reservations_of : Store → ℕ → OrgMembership → Market → List (ℕ × ℕ)
reservations_of db org_id membership market =
    get_active_reservations_by_grant db org_id membership.id
      (map (λ g. g.id) (load_active_grants market.grants org_id membership.id))

pub calculate-IsCovered :
    (power : Decimal → ℕ → Decimal) (db : Store) (org_id : ℕ) (membership : OrgMembership)
    (market : Market) (request : LoanQuoteRequest) (day : Option ℕ) (q : LoanQuoteResponse)
    → DistinctGrants market.grants
    → calculate_loan_quote power db org_id membership market request day ≡ ok q
    → IsCovered
        (load_active_grants market.grants org_id membership.id)
        (or_today day market.today)
        (reservations_of db org_id membership market)
        q
unfolding calculate_loan_quote
calculate-IsCovered power db org_id membership market request day q distinct h =
    quote-IsCovered power membership market.settings _ request _ _ market.variable_base_rate q
      (load_active_grants-DistinctGrants market.grants org_id membership.id distinct)
      (with_error-ok quote_error _ h)

reserve_new-rest :
    (db db' : Store) (market : Market) (org_id membership_id : ℕ) (row : LoanApplication)
    (items : List LoanShareAllocation)
    → reserve_new db market.grants org_id membership_id row items market.today ≡ ok db'
    → (rows : List StockGrantReservation) × (db' ≡ record db { reservations = rows })
unfolding reserve_new
reserve_new-rest db db' market org_id membership_id row items h =
    let ids = allocated_ids items in
    let mine = grants_for market.grants org_id membership_id ids in
    let reserved = get_active_reservations_by_grant db org_id membership_id ids in
    let (u, c, h1) = passes (check_items mine reserved market.today items) _ h in
    (db.reservations ++ map (reservation_for org_id membership_id row) items, sym (ok-injective h1))

reserve_cases-rest :
    (db db' : Store) (market : Market) (org_id membership_id : ℕ) (row : LoanApplication)
    (items : List LoanShareAllocation) (old : List StockGrantReservation)
    → keep (is_reservation_of org_id row.id) db.reservations ≡ old
    → reserve_shares_for_application db market.grants org_id membership_id row items market.today
      ≡ ok db'
    → (rows : List StockGrantReservation) × (db' ≡ record db { reservations = rows })
unfolding reserve_shares_for_application
reserve_cases-rest db db' market org_id membership_id row [] old e h =
    (db.reservations, sym (ok-injective h))
reserve_cases-rest db db' market org_id membership_id row (item ∷ items) [] e h =
    reserve_new-rest db db' market org_id membership_id row (item ∷ items)
      (rw (reserve_shares_for_application, e) at h)
reserve_cases-rest db db' market org_id membership_id row (item ∷ items) (r ∷ []) e h =
    (db.reservations, sym (ok-injective (rw (reserve_shares_for_application, e) at h)))
reserve_cases-rest db db' market org_id membership_id row (item ∷ items) (r ∷ t ∷ rest) e h =
    let h1 = rw (reserve_shares_for_application, e) at h in cc

-- Reserving shares changes nothing but reservations.
pub reserve-rest :
    (db db' : Store) (market : Market) (org_id membership_id : ℕ) (row : LoanApplication)
    (items : List LoanShareAllocation)
    → reserve_shares_for_application db market.grants org_id membership_id row items market.today
      ≡ ok db'
    → (rows : List StockGrantReservation) × (db' ≡ record db { reservations = rows })
reserve-rest db db' market org_id membership_id row items h =
    reserve_cases-rest db db' market org_id membership_id row items _ refl h

-- A draft that was submitted. Its row has the status, the terms of a new quote under the policy of
-- the moment, and takes the place of the draft; all stages of the core workflow are there.
pub record IsSubmitted (db db' : Store) (org_id : ℕ) (market : Market)
    (application row : LoanApplication) : Type 0 where
  pub status : row.status ≡ submitted
  pub id : row.id ≡ application.id
  pub stored : db'.applications ≡ save_application row db.applications
  pub core : HasCore db'.stages org_id row.id
  pub current : row.terms.policy_version_snapshot ≡ some (current_policy_version market.settings)
  pub positive : 1 ≤ row.terms.shares_to_exercise
  pub offered : row.terms.shares_to_exercise ≤ row.terms.total_exercisable_shares_snapshot
  pub allocated : shares_of row.terms.allocation_snapshot ≡ row.terms.shares_to_exercise
  pub priced : price_of row.terms.allocation_snapshot ≡ row.terms.purchase_price
  pub financed :
      row.terms.loan_principal ≡ sub_ℕ row.terms.purchase_price row.terms.down_payment_amount

pub row-id :
    (profile : Option Text) (application checked : LoanApplication)
    → check_marital profile application ≡ ok checked
    → checked.id ≡ application.id
row-id profile application checked h =
    ap (λ a. a.id) (check_marital-keeps profile application checked h).1

Parts-IsSubmitted :
    (power : Decimal → ℕ → Decimal) (db : Store) (org_id : ℕ) (membership : OrgMembership)
    (profile : Option Text) (market : Market) (application : LoanApplication) (key : Option Text)
    (actor_id : Option ℕ) (db' : Store) (row : LoanApplication)
    → DistinctGrants market.grants
    → Parts power db org_id membership profile market application key actor_id db' row
    → IsSubmitted db db' org_id market application row
unfolding submitted_row ensure_core_workflow_stages
Parts-IsSubmitted power db org_id membership profile market application key actor_id db' row
      distinct parts =
    let day = some parts.checked.terms.as_of_date in
    let (quoted, calculated) =
      terms-AreQuoted power db org_id membership market parts.request day parts.quote parts.terms
        parts.was_quoted in
    let covered =
      calculate-IsCovered power db org_id membership market parts.request day parts.quote distinct
        calculated in
    let same = row-id profile application parts.checked parts.was_checked in
    let new = submitted_row parts.checked parts.terms key in
    let saved = record db { applications = save_application new db.applications } in
    subst (λ r. IsSubmitted db db' org_id market application r) (sym parts.made)
      (subst (λ d. IsSubmitted db d org_id market application new) (sym parts.stored)
        (record {
          status = refl;
          id = same;
          stored =
              ap (λ d. d.applications)
                (reserve-rest saved parts.reserved market org_id membership.id new
                  parts.quote.allocation parts.was_reserved).1;
          core =
              subst
                (λ id.
                  HasCore (ensure_core_workflow_stages parts.reserved org_id application.id).stages
                    org_id id)
                (sym same) (ensure_core-HasCore parts.reserved org_id application.id);
          current = quoted.current;
          positive = rw quoted.shares covered.positive;
          offered = rw (quoted.shares, quoted.offered) covered.bounded;
          allocated = rw (quoted.allocation, quoted.shares) covered.allocated;
          priced = rw (quoted.allocation, quoted.price) covered.price;
          financed = rw (quoted.principal, quoted.price, quoted.down) covered.financed;
        }))

-- A submission of a draft, behind its key.
pub drafted :
    (power : Decimal → ℕ → Decimal) (db : Store) (org_id : ℕ) (membership : OrgMembership)
    (profile : Option Text) (market : Market) (application : LoanApplication) (given : Option Text)
    (actor_id : Option ℕ) (db' : Store) (row : LoanApplication)
    → application.status ≡ draft
    → submit_application power db org_id membership profile market application given actor_id
      ≡ ok (db', row)
    → (key : Option Text) × Parts power db org_id membership profile market application key actor_id
        db' row
unfolding submit_application submit_with
drafted power db org_id membership profile market application given actor_id db' row is_draft h =
    let (key, v, h1) = passes (validate_idempotency_key given) _ h in
    (
      key,
      submit_draft-Parts power db org_id membership profile market application key actor_id db' row
          (rw (submit_with, is_draft) at h1),
    )

-- Where a draft is submitted, for grants with different identifiers, its row is submitted, with the
-- identifier of the draft, and takes the place of the draft; the three stages of the core workflow
-- exist; the terms carry the current version of the policy; the shares to exercise are at least one,
-- at most those on offer, and the sum over the allocation, whose price is the purchase price; and
-- the principal is the price less the down payment.
pub submit_application-IsSubmitted :
    (power : Decimal → ℕ → Decimal) (db : Store) (org_id : ℕ) (membership : OrgMembership)
    (profile : Option Text) (market : Market) (application : LoanApplication) (given : Option Text)
    (actor_id : Option ℕ) (db' : Store) (row : LoanApplication)
    → DistinctGrants market.grants
    → application.status ≡ draft
    → submit_application power db org_id membership profile market application given actor_id
      ≡ ok (db', row)
    → IsSubmitted db db' org_id market application row
submit_application-IsSubmitted power db org_id membership profile market application given actor_id
      db' row distinct is_draft h =
    let (key, parts) =
      drafted power db org_id membership profile market application given actor_id db' row is_draft
        h in
    Parts-IsSubmitted power db org_id membership profile market application key actor_id db' row
      distinct parts
