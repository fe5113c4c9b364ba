-- ===== src/Loan/Lifecycle/Gated.antt =====
-- No loan becomes active but through its core stages (app/services/loan_workflow.py).
use sole_backend.Prelude.{
  ℕ, ◌≡◌, ◌⊎◌, inl, inr, Bool, true, ◌&&◌, Option, List, [], ◌∷◌, ◌==◌, any, All, Bool-cases, arith,
}
use sole_backend.Loan.Store.{LoanApplication, Store}
use sole_backend.Loan.Reservations.{set_reservation_status_for_application}
use sole_backend.Loan.Workflow.{
  core_stages, all_completed, may_activate, activate, ensure_post_activation_stages,
  try_activate_loan,
}
use sole_backend.Loan.Lifecycle.Launched.{is_launched, save_application-All}
use sole_backend.Loan.Lifecycle.Core.{SameCore, ensure-SameCore, and_true}

-- Whether an application of the rows was launched before.
abbrev pub WasLaunched : List LoanApplication → ℕ → ℕ → Type 0
WasLaunched rows org_id loan_id =
    any (λ row. (row.org_id == org_id) && (row.id == loan_id) && is_launched row.status) rows ≡ true

-- Whether all core stages of an application are completed.
abbrev pub IsReady : Store → ℕ → ℕ → Type 0
IsReady db org_id loan_id = all_completed (core_stages db org_id loan_id) ≡ true

abbrev pub Passed : List LoanApplication → Store → LoanApplication → Type 0
Passed rows db row =
    is_launched row.status ≡ true
    → WasLaunched rows row.org_id row.id ⊎ IsReady db row.org_id row.id

-- Every active or completed loan of the later store was one before, or has all its core stages
-- completed.
abbrev pub IsGated : Store → Store → Type 0
IsGated db db' = All (Passed db.applications db') db'.applications

self_row :
    (row : LoanApplication) (rows : List LoanApplication)
    → is_launched row.status ≡ true
    → WasLaunched (row ∷ rows) row.org_id row.id
self_row row rows h = rw h (ground arith)

any_more :
    (row : LoanApplication) (rows : List LoanApplication) (org_id loan_id : ℕ)
    → WasLaunched rows org_id loan_id
    → WasLaunched (row ∷ rows) org_id loan_id
any_more row rows org_id loan_id h = ground (arith, h)

pub All-imp {ℓ κ μ} :
    {A : Type ℓ} {P : A → Type κ} {Q : A → Type μ} (xs : List A)
    → ((x : A) → P x → Q x)
    → All P xs
    → All Q xs
All-imp [] f h = tt
All-imp (x ∷ xs) f h = (f x h.0, All-imp xs f h.1)

-- Every launched row was launched in its own table.
pub own_rows :
    (rows : List LoanApplication)
    → All (λ row. is_launched row.status ≡ true → WasLaunched rows row.org_id row.id) rows
own_rows [] = tt
own_rows (row ∷ rows) = (
  self_row row rows,
  All-imp rows (λ other was h. any_more row rows other.org_id other.id (was h)) (own_rows rows),
)

pub unchanged-IsGated : (db db' : Store) → db'.applications ≡ db.applications → IsGated db db'
unchanged-IsGated db db' same =
    rw same (All-imp db.applications (λ row was h. inl (was h)) (own_rows db.applications))

ready-activate :
    (db : Store) (org_id : ℕ) (application : LoanApplication) (now : ℕ)
    → application.org_id ≡ org_id
    → IsReady db org_id application.id
    → Passed db.applications
        (ensure_post_activation_stages db org_id application.id)
        (activate application now)
unfolding activate
ready-activate db org_id application now same ready _ =
    inr (rw (same, ensure-SameCore db org_id application.id org_id application.id) ready)

pub own-Passed : (db db' : Store) → All (Passed db.applications db') db.applications
own-Passed db db' = All-imp db.applications (λ row was h. inl (was h)) (own_rows db.applications)

-- An application that is activated has all its core stages completed, then and afterwards.
pub try_activate_loan-IsGated :
    (db : Store) (org_id : ℕ) (application : LoanApplication) (actor_id : Option ℕ) (now : ℕ)
    → application.org_id ≡ org_id
    → IsGated db (try_activate_loan db org_id application actor_id now).0
unfolding try_activate_loan set_reservation_status_for_application ensure_post_activation_stages
try_activate_loan-IsGated db org_id application actor_id now same =
    let last = ensure_post_activation_stages db org_id application.id in
    elim (Bool-cases
      (may_activate application.status && all_completed (core_stages db org_id application.id))) [
        | inl e ↦ rw e (
            save_application-All (Passed db.applications last) (activate application now)
              db.applications
              (ready-activate db org_id application now same
                (and_true (may_activate application.status) _ e))
              (own-Passed db last))
        | inr e ↦ rw e (own-Passed db db)
      ]

-- Along two stores, where the second part changes no core stage.
picked {ℓ κ μ} :
    {A : Type ℓ} (P : A → Type κ) (R : Type μ) (test : A → Bool) (xs : List A)
    → All P xs
    → any test xs ≡ true
    → ((x : A) → P x → test x ≡ true → R)
    → R
picked P R test [] all h use_it = cc
picked P R test (x ∷ xs) all h use_it = elim (Bool-cases (test x)) [
  | inl e ↦ use_it x all.0 e
  | inr e ↦ picked P R test xs all.1 (rw e at h) use_it
]

same_key :
    (a b org_id loan_id : ℕ) (launched : Bool)
    → ((a == org_id) && (b == loan_id) && launched) ≡ true
    → (a ≡ org_id) × (b ≡ loan_id) × (launched ≡ true)
same_key a b org_id loan_id launched h = ground arith

pub IsGated-trans :
    (db mid db' : Store)
    → IsGated db mid
    → IsGated mid db'
    → SameCore mid.stages db'.stages
    → IsGated db db'
IsGated-trans db mid db' first second core =
    All-imp db'.applications
      (λ row passed h. elim (passed h) [
        | inr ready ↦ inr ready
        | inl was ↦
            picked (Passed db.applications mid)
              (WasLaunched db.applications row.org_id row.id ⊎ IsReady db' row.org_id row.id) _
              mid.applications first was
              (λ old earlier e.
                let (o, i, launched) = same_key old.org_id old.id row.org_id row.id _ e in
                elim (earlier launched) [
                  | inl before ↦ inl (rw (o, i) at before)
                  | inr ready ↦ inr (rw (core row.org_id row.id) (rw (o, i) at ready))
                ])
      ])
      second
