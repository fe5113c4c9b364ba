-- ===== src/Loan/Submission/Replayed.antt =====
-- Submitting again (`submit_application` of app/services/loan_applications.py).
use sole_backend.Prelude.{
  ℕ, ◌≡◌, ◌≢◌, refl, sym, ap, subst, ◌∙◌, inl, inr, Bool, true, false, ◌&&◌, Option, none, some,
  Text, eq_text, eq_text_refl, eq_text→eq, Result, ok, err, ok-injective, Bool-cases, arith,
}
use sole_backend.Decimal.{Decimal}
use sole_backend.Stock.Membership.{OrgMembership}
use sole_backend.Loan.Store.{LoanStatus, draft, submitted, LoanApplication, Store, same_status}
use sole_backend.Loan.Drafts.{
  LoanError, invalid_status, validate_idempotency_key, same_text, Market,
}
use sole_backend.Loan.Submission.{is_replay, submitted_row, submit_with, submit_application}
use sole_backend.Loan.Submission.Stages.{HasCore, ensure_core-same}
use sole_backend.Loan.Submission.Parts.{submit_draft-Parts}

-- The application that was submitted, under its key.
abbrev pub IsSubmittedAs : LoanApplication → Option Text → Type 0
IsSubmittedAs row key = (row.status ≡ submitted) × (row.submit_idempotency_key ≡ key)

status-submitted : (status : LoanStatus) → same_status status submitted ≡ true → status ≡ submitted
status-submitted status h = ground arith

and-both : (a b : Bool) → (a && b) ≡ true → (a ≡ true) × (b ≡ true)
and-both a b h = ground arith

same_text→some : (key : Option Text) (k : Text) → same_text key k ≡ true → key ≡ some k
same_text→some none k h = cc
same_text→some (some earlier) k h = ap some (eq_text→eq earlier k h)

replay-IsSubmittedAs :
    (row : LoanApplication) (k : Text) → is_replay row (some k) ≡ true → IsSubmittedAs row (some k)
replay-IsSubmittedAs row k h =
    let both =
      and-both (same_status row.status submitted) (same_text row.submit_idempotency_key k) h in
    (status-submitted row.status both.0, same_text→some row.submit_idempotency_key k both.1)

refused-ok {ℓ} :
    {P : Type ℓ} {A : Type 0} {a : A} {e : LoanError}
    → ◌≡◌ {A = Result LoanError A} (err e) (ok a)
    → P
refused-ok h = cc

not_draft : (status : LoanStatus) → status ≡ submitted → same_status status draft ≡ false
not_draft status h = rw h refl

submit-IsSubmittedAs :
    (power : Decimal → ℕ → Decimal) (db : Store) (org_id : ℕ) (membership : OrgMembership)
    (profile : Option Text) (market : Market) (application : LoanApplication) (k : Text)
    (actor_id : Option ℕ) (db' : Store) (row : LoanApplication)
    → submit_with power db org_id membership profile market application (some k) actor_id
      ≡ ok (db', row)
    → IsSubmittedAs row (some k)
unfolding submit_with submitted_row
submit-IsSubmittedAs power db org_id membership profile market application k actor_id db' row h =
    elim (Bool-cases (same_status application.status draft)) [
      | inl e ↦
          let parts =
            submit_draft-Parts power db org_id membership profile market application (some k)
              actor_id db' row (rw (submit_with, e) at h) in
          rw parts.made (refl, refl)
      | inr e ↦ elim (Bool-cases (is_replay application (some k))) [
        | inl r ↦
            subst (λ other. IsSubmittedAs other (some k))
              (ap (λ p. p.1) (ok-injective (rw (submit_with, e, r) at h)))
              (replay-IsSubmittedAs application k r)
        | inr r ↦ refused-ok (rw (submit_with, e, r) at h)
      ]
    ]

replays :
    (row : LoanApplication) (k : Text) → IsSubmittedAs row (some k) → is_replay row (some k) ≡ true
replays row k (s, t) = rw (s, t, eq_text_refl k) refl

-- A submitted application that is submitted with its key is returned, and the store is not changed.
replay-returns :
    (power : Decimal → ℕ → Decimal) (db : Store) (org_id : ℕ) (membership : OrgMembership)
    (profile : Option Text) (market : Market) (row : LoanApplication) (k : Text)
    (actor_id : Option ℕ)
    → IsSubmittedAs row (some k)
    → HasCore db.stages org_id row.id
    → submit_with power db org_id membership profile market row (some k) actor_id ≡ ok (db, row)
unfolding submit_with
replay-returns power db org_id membership profile market row k actor_id as_key has =
    rw
      (
        submit_with,
        not_draft row.status as_key.0,
        replays row k as_key,
        ensure_core-same db org_id row.id has,
      )
      refl

-- Once an application is submitted with a key, another submission with it returns the row as it then
-- is and changes nothing, at any later time at which the row is still submitted and has its key and
-- the stages of the core workflow are there, whatever else of the row, the employee, the profile and
-- the market has changed by then.
pub submit_application-replayed :
    (power : Decimal → ℕ → Decimal) (db : Store) (org_id : ℕ) (membership : OrgMembership)
    (profile : Option Text) (market : Market) (application : LoanApplication) (given : Option Text)
    (k : Text) (actor_id : Option ℕ) (db' : Store) (row : LoanApplication) (later : Store)
    (member_later : OrgMembership) (profile_later : Option Text) (market_later : Market)
    (current : LoanApplication) (other : Option ℕ)
    → validate_idempotency_key given ≡ ok (some k)
    → submit_application power db org_id membership profile market application given actor_id
      ≡ ok (db', row)
    → current.submit_idempotency_key ≡ row.submit_idempotency_key
    → current.status ≡ submitted
    → HasCore later.stages org_id current.id
    → submit_application power later org_id member_later profile_later market_later current given
        other
      ≡ ok (later, current)
unfolding submit_application
submit_application-replayed power db org_id membership profile market application given k actor_id
      db' row later member_later profile_later market_later current other valid h kept waits has =
    rw valid (
      replay-returns power later org_id member_later profile_later market_later current k other
        (
          waits,
          kept
              ∙ (submit-IsSubmittedAs power db org_id membership profile market application k
                  actor_id db' row (rw valid at h)).1,
        )
        has)

other_key :
    (earlier : Option Text) (k : Text) (key : Text)
    → earlier ≡ some k
    → some key ≢ some k
    → same_text earlier key ≡ false
other_key earlier k key t ne = elim (Bool-cases (eq_text k key)) [
  | inl e ↦ absurd (ne (ap some (sym (eq_text→eq k key e))))
  | inr e ↦ rw (t, e) refl
]

and_false : (a b : Bool) → b ≡ false → (a && b) ≡ false
and_false a b h = ground arith

-- Another key than the application's, or none, is no replay.
fresh_key :
    (row : LoanApplication) (k : Text) (key : Option Text)
    → row.submit_idempotency_key ≡ some k
    → key ≢ some k
    → is_replay row key ≡ false
fresh_key row k none t ne = refl
fresh_key row k (some key) t ne =
    and_false (same_status row.status submitted) _ (other_key row.submit_idempotency_key k key t ne)

-- Once an application is submitted with a key, a submission of it with another valid key, or with
-- none, is refused at any time at which the row is no draft and has its key, and the error names
-- the status that the row then has.
pub submit_application-other_key :
    (power : Decimal → ℕ → Decimal) (db : Store) (org_id : ℕ) (membership : OrgMembership)
    (profile : Option Text) (market : Market) (application : LoanApplication) (given : Option Text)
    (k : Text) (actor_id : Option ℕ) (db' : Store) (row : LoanApplication) (later : Store)
    (member_later : OrgMembership) (profile_later : Option Text) (market_later : Market)
    (current : LoanApplication) (given_later key_later : Option Text) (other : Option ℕ)
    → validate_idempotency_key given ≡ ok (some k)
    → submit_application power db org_id membership profile market application given actor_id
      ≡ ok (db', row)
    → current.submit_idempotency_key ≡ row.submit_idempotency_key
    → same_status current.status draft ≡ false
    → validate_idempotency_key given_later ≡ ok key_later
    → key_later ≢ some k
    → submit_application power later org_id member_later profile_later market_later current
        given_later other
      ≡ err (invalid_status current.status)
unfolding submit_application submit_with
submit_application-other_key power db org_id membership profile market application given k actor_id
      db' row later member_later profile_later market_later current given_later key_later other
      valid h kept no_draft valid_later ne =
    let as_key =
      submit-IsSubmittedAs power db org_id membership profile market application k actor_id db' row
        (rw valid at h) in
    rw (valid_later, submit_with, no_draft, fresh_key current k key_later (kept ∙ as_key.1) ne) refl
