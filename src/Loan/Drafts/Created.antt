-- ===== src/Loan/Drafts/Created.antt =====
-- Creating a draft again (`create_draft_application` of app/services/loan_applications.py).
use sole_backend.Prelude.{
  ℕ, ◌≡◌, refl, sym, ap, subst, ◌∙◌, inl, inr, Bool, true, Option, none, some, List, [], ◌∷◌, ◌++◌,
  keep, Text, eq_text_refl, ok, passes, ok-injective, raise_if-passed, Bool-cases, arith,
  Option-cases,
}
use sole_backend.Decimal.{Decimal}
use sole_backend.Stock.Membership.{OrgMembership}
use sole_backend.Loan.Store.{LoanApplication, Store}
use sole_backend.Loan.Drafts.{
  integrity_error, validate_idempotency_key, Market, DraftCreate, violates_checks,
  find_by_create_key, one_or_none, existing_draft, quoted_terms, new_draft, new_draft_application,
  create_draft_application,
}

listed {ℓ} : {A : Type ℓ} → Option A → List A
listed none = []
listed (some a) = a ∷ []

-- What a query for at most one row found.
one_or_none-listed {ℓ} :
    {A : Type ℓ} (rows : List A) (o : Option A) → one_or_none rows ≡ ok o → rows ≡ listed o
unfolding listed
one_or_none-listed [] o h = ap listed (ok-injective h)
one_or_none-listed (r ∷ []) o h = ap listed (ok-injective h)
one_or_none-listed (r ∷ s ∷ rest) o h = cc

keep-last {ℓ} :
    {A : Type ℓ} (p : A → Bool) (xs : List A) (x : A)
    → p x ≡ true
    → keep p (xs ++ x ∷ []) ≡ keep p xs ++ x ∷ []
keep-last p [] x e = rw e refl
keep-last p (y ∷ xs) x e = elim (Bool-cases (p y)) [
  | inl f ↦ rw (f, keep-last p xs x e) refl
  | inr f ↦ rw (f, keep-last p xs x e) refl
]

new_draft-found :
    (power : Decimal → ℕ → Decimal) (db : Store) (new_id org_id : ℕ) (membership : OrgMembership)
    (market : Market) (payload : DraftCreate) (k : Text) (actor_id : Option ℕ) (db' : Store)
    (row : LoanApplication)
    → find_by_create_key db org_id membership.id k ≡ []
    → new_draft_application power db new_id org_id membership market payload (some k) actor_id
      ≡ ok (db', row)
    → find_by_create_key db' org_id membership.id k ≡ row ∷ []
unfolding new_draft_application new_draft
new_draft-found power db new_id org_id membership market payload k actor_id db' row fresh h =
    let (quoted, q, h1) =
      passes (quoted_terms power db org_id membership market payload.request payload.as_of_date) _
        h in
    let (quote, terms) = quoted in
    let h2 = raise_if-passed (violates_checks terms) integrity_error _ h1 in
    let new = new_draft new_id org_id membership.id (some k) payload terms in
    subst (λ p. find_by_create_key p.0 org_id membership.id k ≡ p.1 ∷ []) (ok-injective h2.1)
      (keep-last _ db.applications new (ground (arith, eq_text_refl k))
        ∙ ap (λ rows. rows ++ new ∷ []) fresh)

created-found :
    (power : Decimal → ℕ → Decimal) (db : Store) (new_id org_id : ℕ) (membership : OrgMembership)
    (market : Market) (payload : DraftCreate) (given : Option Text) (k : Text) (actor_id : Option ℕ)
    (db' : Store) (row : LoanApplication)
    → validate_idempotency_key given ≡ ok (some k)
    → create_draft_application power db new_id org_id membership market payload given actor_id
      ≡ ok (db', row)
    → find_by_create_key db' org_id membership.id k ≡ row ∷ []
unfolding create_draft_application listed
created-found power db new_id org_id membership market payload given k actor_id db' row valid h =
    let (key, v, h1) = passes (validate_idempotency_key given) _ h in
    let is_k : key ≡ some k = ok-injective (sym v ∙ valid) in
    let (existing, e, h2) = passes (existing_draft db org_id membership.id key) _ h1 in
    let found = one_or_none-listed _ existing (rw is_k at e) in
    elim (Option-cases existing) [
      | inl none_yet ↦
          new_draft-found power db new_id org_id membership market payload k actor_id db' row
            (found ∙ ap listed none_yet) (rw (none_yet, is_k) at h2)
      | inr (old, there) ↦
          subst (λ p. find_by_create_key p.0 org_id membership.id k ≡ p.1 ∷ [])
            (ok-injective (rw there at h2)) (found ∙ ap listed there)
    ]

-- Once a draft is created with a key, creating one with that key for the same employee, whatever
-- is asked for and whoever asks, returns the first draft and changes nothing.
pub create_draft_application-replayed :
    (power : Decimal → ℕ → Decimal) (db : Store) (new_id org_id : ℕ) (membership : OrgMembership)
    (market : Market) (payload : DraftCreate) (given : Option Text) (k : Text) (actor_id : Option ℕ)
    (db' : Store) (row : LoanApplication) (id_later : ℕ) (market_later : Market)
    (payload_later : DraftCreate) (other : Option ℕ)
    → validate_idempotency_key given ≡ ok (some k)
    → create_draft_application power db new_id org_id membership market payload given actor_id
      ≡ ok (db', row)
    → create_draft_application power db' id_later org_id membership market_later payload_later given
        other
      ≡ ok (db', row)
unfolding create_draft_application
create_draft_application-replayed power db new_id org_id membership market payload given k actor_id
      db' row id_later market_later payload_later other valid h =
    rw
      (
        valid,
        created-found power db new_id org_id membership market payload given k actor_id db' row
            valid h,
      )
      refl
