-- ===== src/Loan/Drafts.antt =====
-- Drafts of app/services/loan_applications.py: `create_draft_application` and
-- `update_draft_application`, and what they share with submission and edits.
pub mod Created
use sole_backend.Prelude.{
  ℕ, zero, suc, Bool, true, false, not, ◌&&◌, ◌||◌, Option, none, some, List, [], ◌∷◌, ◌++◌, map,
  ltb, ◌==◌, if◌then◌else◌, keep, any, length, head?, Text, eq_text, strip, Result, ok, err, ◌>>=◌,
  ◌>>◌, raise_if, or_raise,
}
use sole_backend.Prelude.Int.{ℤ, pos, pos_part, ltb_ℤ}
use sole_backend.Decimal.{Decimal, decimal, mul, div}
use sole_backend.Stock.Membership.{OrgMembership}
use sole_backend.Stock.Vesting.{EmployeeStockGrant, load_active_grants}
use sole_backend.Loan.Terms.{
  LoanInterestType, LoanRepaymentMethod, LoanSelectionMode, percent, shares,
}
use sole_backend.Loan.Quotes.{
  LoanQuoteError, LoanQuoteRequest, LoanQuoteResponse, LoanQuoteOption, OrgSettings,
  build_loan_quote_from_data,
}
use sole_backend.Loan.Store.{
  LoanStatus, draft, QuoteTerms, Spouse, LoanApplication, AuditLog, created_draft, updated_draft,
  Store, same_status, save_application,
}
use sole_backend.Loan.Reservations.{ReserveError, get_active_reservations_by_grant}
use sole_backend.Loan.Workflow.{log}

pub data SpouseField : Type 0 where
  first_name last_name email phone address : SpouseField

-- The codes of the `LoanQuoteError` that this service raises, and the errors of other layers.
pub data LoanError : Type 0 where
  quote_error : LoanQuoteError → LoanError
  reserve_error : ReserveError → LoanError
  invalid_idempotency_key idempotency_conflict : LoanError
  invalid_status : LoanStatus → LoanError
  invalid_marital_status marital_status_mismatch : LoanError
  spouse_info_required : List SpouseField → LoanError
  invalid_selection policy_out_of_date membership_not_found : LoanError
  -- `scalar_one_or_none` on several rows, an index out of range, and a check of the table.
  multiple_rows index_error integrity_error : LoanError

abbrev pub with_error {ℓ κ μ} :
    {E : Type ℓ} {F : Type κ} {A : Type μ} → (E → F) → Result E A → Result F A
with_error f (ok a) = ok a
with_error f (err e) = err (f e)

-- An empty key counts as none.
abbrev pub cleaned_key : Text → Result LoanError (Option Text)
cleaned_key [] = ok none
cleaned_key (c ∷ key) =
    if ltb 100 (length (c ∷ key)) then err invalid_idempotency_key else ok (some (c ∷ key))

unfoldable pub validate_idempotency_key : Option Text → Result LoanError (Option Text)
validate_idempotency_key none = ok none
validate_idempotency_key (some value) = cleaned_key (strip value)

abbrev pub same_text : Option Text → Text → Bool
same_text none key = false
same_text (some value) key = eq_text value key

-- `int(org_settings.policy_version or 1)`
unfoldable pub current_policy_version : OrgSettings → ℕ
current_policy_version settings = elim settings.policy_version [
  | none ↦ 1
  | some version ↦ if version == 0 then 1 else version
]

unfoldable pub policy_version_mismatch : QuoteTerms → ℕ → Bool
policy_version_mismatch terms current = elim terms.policy_version_snapshot [
  | none ↦ true
  | some version ↦ not (version == current)
]

-- The share count, or the percentage that it is of the exercisable shares.
unfoldable pub selection_value_from_application : QuoteTerms → Result LoanError Decimal
selection_value_from_application terms = elim terms.selection_mode [
  | shares ↦ ok (decimal terms.shares_to_exercise 0)
  | percent ↦
      if terms.total_exercisable_shares_snapshot == 0
      then err invalid_selection
      else ok (
          div (mul (decimal terms.shares_to_exercise 0) (decimal 100 0))
            (decimal terms.total_exercisable_shares_snapshot 0))
]

-- What the rows and the settings of the moment give a quote: the settings and the latest rate that
-- the services load, the grants of the table, and the day.
pub record Market : Type 0 where
  pub settings : OrgSettings
  pub variable_base_rate : Option Decimal
  pub grants : List EmployeeStockGrant
  pub today : ℕ

abbrev pub or_today : Option ℕ → ℕ → ℕ
or_today none today = today
or_today (some day) today = day

-- The fields of a payload that ask for a new quote; each may be left out.
pub record Selection : Type 0 where
  pub selection_mode : Option LoanSelectionMode
  pub selection_value : Option Decimal
  pub as_of_date : Option ℕ
  pub desired_interest_type : Option LoanInterestType
  pub desired_repayment_method : Option LoanRepaymentMethod
  pub desired_term_months : Option ℕ

abbrev pub is_given {ℓ} : {A : Type ℓ} → Option A → Bool
is_given none = false
is_given (some a) = true

abbrev pub asks_recalc : Selection → Bool
asks_recalc s =
    is_given s.selection_mode
    || is_given s.selection_value
    || is_given s.as_of_date
    || is_given s.desired_interest_type
    || is_given s.desired_repayment_method
    || is_given s.desired_term_months

abbrev pub or_kept {ℓ} : {A : Type ℓ} → Option A → A → A
or_kept none kept = kept
or_kept (some given) kept = given

-- `payload.desired_term_months or application.term_months`
abbrev pub or_term : Option ℕ → ℕ → ℕ
or_term none kept = kept
or_term (some zero) kept = kept
or_term (some (suc n)) kept = suc n

-- `if value is not None: setattr(application, field, value)`
abbrev pub or_old_text : Option Text → Option Text → Option Text
or_old_text none old = old
or_old_text (some given) old = some given

unfoldable pub merge_spouse : Spouse → Spouse → Spouse
merge_spouse given old = record {
  first_name = or_old_text given.first_name old.first_name;
  middle_name = or_old_text given.middle_name old.middle_name;
  last_name = or_old_text given.last_name old.last_name;
  email = or_old_text given.email old.email;
  phone = or_old_text given.phone old.phone;
  address = or_old_text given.address old.address;
}

-- `_apply_quote`, with the first option; the status becomes that of a draft.
unfoldable pub terms_of :
    LoanQuoteResponse → LoanQuoteOption → LoanQuoteRequest → OrgSettings → QuoteTerms
terms_of quote option request settings = record {
  as_of_date = quote.as_of_date;
  selection_mode = request.selection_mode;
  selection_value_snapshot = request.selection_value;
  shares_to_exercise = quote.shares_to_exercise;
  total_exercisable_shares_snapshot = quote.total_exercisable_shares;
  purchase_price = quote.purchase_price;
  down_payment_amount = quote.down_payment_amount;
  loan_principal = quote.loan_principal;
  policy_version_snapshot = some (current_policy_version settings);
  interest_type = option.interest_type;
  repayment_method = option.repayment_method;
  term_months = option.term_months;
  nominal_annual_rate = option.nominal_annual_rate;
  estimated_monthly_payment = option.estimated_monthly_payment;
  total_payable = option.total_payable;
  total_interest = option.total_interest;
  allocation_snapshot = quote.allocation;
}

unfoldable pub apply_quote : LoanApplication → QuoteTerms → LoanApplication
apply_quote application terms = record application {
  status = draft;
  terms = terms;
  total_payable_amount = pos_part terms.total_payable;
}

-- The checks of the table on amounts, at the flush.
abbrev pub violates_checks : QuoteTerms → Bool
violates_checks terms =
    ltb_ℤ terms.loan_principal (pos 0)
    || ltb_ℤ terms.estimated_monthly_payment (pos 0)
    || ltb_ℤ terms.total_payable (pos 0)
    || ltb_ℤ terms.total_interest (pos 0)

abbrev pub find_by_create_key : Store → ℕ → ℕ → Text → List LoanApplication
find_by_create_key db org_id membership_id key =
    keep
      (λ row.
        (row.org_id == org_id)
        && (row.org_membership_id == membership_id)
        && same_text row.create_idempotency_key key)
      db.applications

abbrev pub one_or_none {ℓ} : {A : Type ℓ} → List A → Result LoanError (Option A)
one_or_none [] = ok none
one_or_none (row ∷ []) = ok (some row)
one_or_none (row ∷ other ∷ rest) = err multiple_rows

abbrev pub existing_draft : Store → ℕ → ℕ → Option Text → Result LoanError (Option LoanApplication)
existing_draft db org_id membership_id none = ok none
existing_draft db org_id membership_id (some key) =
    one_or_none (find_by_create_key db org_id membership_id key)

-- `LoanApplicationDraftCreate`, with the selection that it requires.
pub record DraftCreate : Type 0 where
  pub request : LoanQuoteRequest
  pub as_of_date : Option ℕ
  pub marital_status_snapshot : Option Text
  pub spouse : Spouse

unfoldable pub new_draft : ℕ → ℕ → ℕ → Option Text → DraftCreate → QuoteTerms → LoanApplication
new_draft new_id org_id membership_id key payload terms = record {
  id = new_id;
  org_id = org_id;
  org_membership_id = membership_id;
  status = draft;
  decision_reason = none;
  total_payable_amount = pos_part terms.total_payable;
  activation_date = none;
  election_83b_due_date = none;
  create_idempotency_key = key;
  submit_idempotency_key = none;
  marital_status_snapshot = payload.marital_status_snapshot;
  spouse = payload.spouse;
  terms = terms;
}

-- `LoanApplicationDraftUpdate`.
pub record DraftUpdate : Type 0 where
  pub selection : Selection
  pub marital_status_snapshot : Option Text
  pub spouse : Spouse

unfoldable pub merged : LoanApplication → Option Text → Spouse → LoanApplication
merged application marital spouse = record application {
  marital_status_snapshot = or_old_text marital application.marital_status_snapshot;
  spouse = merge_spouse spouse application.spouse;
}

-- The request of an update or an edit: what it gives, and else what the application has.
unfoldable pub request_for : QuoteTerms → Selection → Result LoanError LoanQuoteRequest
request_for terms s = do
  value ← elim s.selection_value [
    | some given ↦ ok given
    | none ↦ selection_value_from_application terms
  ]
  ok (record {
    selection_mode = or_kept s.selection_mode terms.selection_mode;
    selection_value = value;
    desired_interest_type = some (or_kept s.desired_interest_type terms.interest_type);
    desired_repayment_method = some (or_kept s.desired_repayment_method terms.repayment_method);
    desired_term_months = some (or_term s.desired_term_months terms.term_months);
  })

module _ (power : Decimal → ℕ → Decimal) where
  -- `calculate_loan_quote` of app/services/loan_quotes.py.
  unfoldable pub calculate_loan_quote :
      Store
      → ℕ
      → OrgMembership
      → Market
      → LoanQuoteRequest
      → Option ℕ
      → Result LoanError LoanQuoteResponse
  calculate_loan_quote db org_id membership market request as_of_date =
      let grants = load_active_grants market.grants org_id membership.id in
      let ids = map (λ g. g.id) grants in
      let reserved = get_active_reservations_by_grant db org_id membership.id ids in
      with_error quote_error (
        build_loan_quote_from_data power membership market.settings grants request
          (or_today as_of_date market.today) reserved market.variable_base_rate)

  -- The quote and the terms that it leaves on an application.
  unfoldable pub quoted_terms :
      Store
      → ℕ
      → OrgMembership
      → Market
      → LoanQuoteRequest
      → Option ℕ
      → Result LoanError (LoanQuoteResponse × QuoteTerms)
  quoted_terms db org_id membership market request as_of_date = do
    quote ← calculate_loan_quote db org_id membership market request as_of_date
    option ← or_raise (head? quote.options) index_error
    ok (quote, terms_of quote option request market.settings)

  unfoldable pub new_draft_application :
      Store
      → ℕ
      → ℕ
      → OrgMembership
      → Market
      → DraftCreate
      → Option Text
      → Option ℕ
      → Result LoanError (Store × LoanApplication)
  new_draft_application db new_id org_id membership market payload key actor_id = do
    (quote, terms) ← quoted_terms db org_id membership market payload.request payload.as_of_date
    raise_if (violates_checks terms) integrity_error
    let application = new_draft new_id org_id membership.id key payload terms
    ok (
      log (record db { applications = db.applications ++ application ∷ [] })
          (record { actor_id = actor_id; action = created_draft; loan_application_id = new_id }),
      application,
    )

  -- A key that was used already gives the application that was created with it.
  unfoldable pub create_draft_application :
      Store
      → ℕ
      → ℕ
      → OrgMembership
      → Market
      → DraftCreate
      → Option Text
      → Option ℕ
      → Result LoanError (Store × LoanApplication)
  create_draft_application db new_id org_id membership market payload idempotency_key actor_id = do
    key ← validate_idempotency_key idempotency_key
    existing ← existing_draft db org_id membership.id key
    elim existing [
      | some row ↦ ok (db, row)
      | none ↦ new_draft_application db new_id org_id membership market payload key actor_id
    ]

  -- The application with a new quote, if one is asked for; without, the policy must not have changed.
  unfoldable pub requoted :
      Store
      → ℕ
      → OrgMembership
      → Market
      → LoanApplication
      → Selection
      → Result LoanError LoanApplication
  requoted db org_id membership market application selection = elim (asks_recalc selection) [
    | false ↦ do
      raise_if (policy_version_mismatch application.terms (current_policy_version market.settings))
          policy_out_of_date
      ok application
    | true ↦ do
      request ← request_for application.terms selection
      let day = some (or_kept selection.as_of_date application.terms.as_of_date)
      (quote, terms) ← quoted_terms db org_id membership market request day
      ok (apply_quote application terms)
  ]

  unfoldable pub update_draft_application :
      Store
      → ℕ
      → OrgMembership
      → Market
      → LoanApplication
      → DraftUpdate
      → Option ℕ
      → Result LoanError (Store × LoanApplication)
  update_draft_application db org_id membership market application payload actor_id = do
    raise_if (not (same_status application.status draft)) (invalid_status application.status)
    fresh ← requoted db org_id membership market application payload.selection
    let updated = merged fresh payload.marital_status_snapshot payload.spouse
    raise_if (violates_checks updated.terms) integrity_error
    ok (
      log (record db { applications = save_application updated db.applications })
          (record {
            actor_id = actor_id;
            action = updated_draft;
            loan_application_id = application.id;
          }),
      updated,
    )
