-- ===== src/Loan/Waterfall/Laws.antt =====
-- What payments leave: amounts are conserved, early instalments are met first, the order in which
-- the payments come does not matter for the totals.
use sole_backend.Prelude.{
  map-append, ℕ, ◌+◌, ◌-◌, ◌≤◌, ◌≡◌, refl, ap, ◌∙◌, false, inl, inr, List, [], ◌∷◌, ◌++◌, map,
  sum_of, min, All, Bool-cases, arith,
}
use sole_backend.Prelude.Int.{
  ℤ, pos, pos_part, neg_part, ◌-ℤ◌, leb_ℤ, -ℤ_pos_part, -ℤ_neg_part, not_above, above,
}
use sole_backend.Loan.Schedule.{LoanScheduleEntry}
use sole_backend.Loan.Waterfall.{
  LoanRepayment, insert_repayment, sort_repayments, min_ℤ, apply_payment, apply_payments,
  apply_repayments, comes_by,
}

-- What is owed, and what is paid: amounts below zero count for nothing.
abbrev pub owed : List ℤ → ℕ
owed = sum_of pos_part

-- The amount that a positive payment puts on a positive instalment.
applied_parts :
    (p r : ℤ)
    → leb_ℤ p (pos 0) ≡ false
    → leb_ℤ r (pos 0) ≡ false
    → (pos_part (min_ℤ p r) ≡ min (pos_part p) (pos_part r)) × (neg_part (min_ℤ p r) ≡ 0)
applied_parts p r hp hr = let a = above p hp in let b = above r hr in (ground arith, ground arith)

-- What is left of both after it.
rest_parts :
    (p r : ℤ)
    → leb_ℤ p (pos 0) ≡ false
    → leb_ℤ r (pos 0) ≡ false
    → (pos_part (r -ℤ min_ℤ p r) ≡ pos_part r - pos_part p)
      × (pos_part (p -ℤ min_ℤ p r) ≡ pos_part p - pos_part r)
rest_parts p r hp hr =
    let a = above p hp in
    let b = above r hr in
    let m = applied_parts p r hp hr in
    (
      omega (arith, -ℤ_pos_part r (min_ℤ p r), m.0, m.1, a.1, b.1),
      omega (arith, -ℤ_pos_part p (min_ℤ p r), m.0, m.1, a.1, b.1),
    )

owed-apply :
    (payment : ℤ) (remaining : List ℤ)
    → owed (apply_payment payment remaining) ≡ owed remaining - pos_part payment
unfolding apply_payment
owed-apply payment [] = omega arith
owed-apply payment (r ∷ rest) = elim (Bool-cases (leb_ℤ payment (pos 0))) [
  | inl e ↦ rw e (omega (arith, not_above payment e))
  | inr e ↦ rw e (elim (Bool-cases (leb_ℤ r (pos 0))) [
    | inl f ↦ rw f (omega (arith, owed-apply payment rest, not_above r f))
    | inr f ↦ rw f (
        let parts = rest_parts payment r e f in
        omega (arith, owed-apply (payment -ℤ min_ℤ payment r) rest, parts.0, parts.1))
  ])
]

owed-payments :
    (payments remaining : List ℤ)
    → owed (apply_payments payments remaining) ≡ owed remaining - owed payments
unfolding apply_payments
owed-payments [] remaining = omega arith
owed-payments (p ∷ payments) remaining =
    omega (arith, owed-payments payments (apply_payment p remaining), owed-apply p remaining)

owed-insert :
    (f : LoanRepayment → ℤ) (r : LoanRepayment) (rest : List LoanRepayment)
    → owed (map f (insert_repayment r rest)) ≡ pos_part (f r) + owed (map f rest)
unfolding insert_repayment
owed-insert f r [] = refl
owed-insert f r (other ∷ rest) = elim (Bool-cases (comes_by r other)) [
  | inl e ↦ rw e refl
  | inr e ↦ rw e (omega (arith, owed-insert f r rest))
]

owed-sort :
    (f : LoanRepayment → ℤ) (repayments : List LoanRepayment)
    → owed (map f (sort_repayments repayments)) ≡ owed (map f repayments)
unfolding sort_repayments
owed-sort f [] = refl
owed-sort f (r ∷ rest) = omega (arith, owed-insert f r (sort_repayments rest), owed-sort f rest)

abbrev pub principals : List LoanScheduleEntry → List ℤ
principals = map (λ entry. entry.principal)

abbrev pub interests : List LoanScheduleEntry → List ℤ
interests = map (λ entry. entry.interest)

-- Nothing is lost: all instalments together, principal and interest each by itself, owe what they
-- owed before less all that was paid, and nothing once as much was paid. The order of the payments
-- plays no part.
pub owed-apply_repayments :
    (entries : List LoanScheduleEntry) (repayments : List LoanRepayment)
    → (owed (apply_repayments entries repayments).0
        ≡ owed (principals entries) - owed (map (λ r. r.principal_amount) repayments))
      × (owed (apply_repayments entries repayments).1
          ≡ owed (interests entries) - owed (map (λ r. r.interest_amount) repayments))
unfolding apply_repayments
owed-apply_repayments entries repayments =
    let sorted = sort_repayments repayments in
    (
      omega (
        arith,
        owed-payments (map (λ r. r.principal_amount) sorted) (principals entries),
        owed-sort (λ r. r.principal_amount) repayments,
      ),
      omega (
        arith,
        owed-payments (map (λ r. r.interest_amount) sorted) (interests entries),
        owed-sort (λ r. r.interest_amount) repayments,
      ),
    )

apply-first :
    (payment : ℤ) (first later : List ℤ)
    → pos_part payment ≤ owed first
    → apply_payment payment (first ++ later) ≡ apply_payment payment first ++ later
unfolding apply_payment
apply-first payment [] [] h = refl
apply-first payment [] (r ∷ later) h = elim (Bool-cases (leb_ℤ payment (pos 0))) [
  | inl e ↦ rw e refl
  | inr e ↦ absurd (omega (arith, h, (above payment e).0))
]
apply-first payment (r ∷ first) later h = elim (Bool-cases (leb_ℤ payment (pos 0))) [
  | inl e ↦ rw e refl
  | inr e ↦ rw e (elim (Bool-cases (leb_ℤ r (pos 0))) [
    | inl f ↦ rw f (ap (◌∷◌ r) (apply-first payment first later (omega (arith, not_above r f))))
    | inr f ↦ rw f (
        let parts = rest_parts payment r e f in
        ap (◌∷◌ (r -ℤ min_ℤ payment r))
          (apply-first (payment -ℤ min_ℤ payment r) first later (omega (arith, parts.1))))
  ])
]

payments-first :
    (payments first later : List ℤ)
    → owed payments ≤ owed first
    → apply_payments payments (first ++ later) ≡ apply_payments payments first ++ later
unfolding apply_payments
payments-first [] first later h = refl
payments-first (p ∷ payments) first later h =
    ap (apply_payments payments) (apply-first p first later (omega (arith, h)))
    ∙ payments-first payments (apply_payment p first) later (omega (arith, h, owed-apply p first))

-- Where the instalments of the first entries can take up all repayments whole, of the principal and
-- of the interest, these settle the first entries as if there were no later ones, and every later
-- instalment is left as it is.
pub earlier_first :
    (first later : List LoanScheduleEntry) (repayments : List LoanRepayment)
    → owed (map (λ r. r.principal_amount) repayments) ≤ owed (principals first)
    → owed (map (λ r. r.interest_amount) repayments) ≤ owed (interests first)
    → ((apply_repayments (first ++ later) repayments).0
        ≡ (apply_repayments first repayments).0 ++ principals later)
      × ((apply_repayments (first ++ later) repayments).1
          ≡ (apply_repayments first repayments).1 ++ interests later)
unfolding apply_repayments
earlier_first first later repayments hp hi =
    let sorted = sort_repayments repayments in
    let ps = map (λ r. r.principal_amount) sorted in
    let is = map (λ r. r.interest_amount) sorted in
    (
      ap (apply_payments ps) (map-append (λ entry. entry.principal) first later)
          ∙ payments-first ps (principals first) (principals later)
              (omega (arith, hp, owed-sort (λ r. r.principal_amount) repayments)),
      ap (apply_payments is) (map-append (λ entry. entry.interest) first later)
          ∙ payments-first is (interests first) (interests later)
              (omega (arith, hi, owed-sort (λ r. r.interest_amount) repayments)),
    )

-- Amounts that are not below zero.
abbrev pub AreDues : List ℤ → Type 0
AreDues = All (λ a. neg_part a ≡ 0)

apply-AreDues :
    (payment : ℤ) (remaining : List ℤ)
    → AreDues remaining
    → AreDues (apply_payment payment remaining)
unfolding apply_payment
apply-AreDues payment [] h = tt
apply-AreDues payment (r ∷ rest) h = elim (Bool-cases (leb_ℤ payment (pos 0))) [
  | inl e ↦ rw e h
  | inr e ↦ rw e (elim (Bool-cases (leb_ℤ r (pos 0))) [
    | inl f ↦ rw f (h.0, apply-AreDues payment rest h.1)
    | inr f ↦ rw f (
        let m = applied_parts payment r e f in
        (
          omega (arith, -ℤ_neg_part r (min_ℤ payment r), m.0, m.1, h.0),
          apply-AreDues (payment -ℤ min_ℤ payment r) rest h.1,
        ))
  ])
]

apply_payments-AreDues :
    (payments remaining : List ℤ) → AreDues remaining → AreDues (apply_payments payments remaining)
unfolding apply_payments
apply_payments-AreDues [] remaining h = h
apply_payments-AreDues (p ∷ payments) remaining h =
    apply_payments-AreDues payments (apply_payment p remaining) (apply-AreDues p remaining h)

-- Instalments that are not below zero stay so: none is paid more than it owes.
pub apply_repayments-AreDues :
    (entries : List LoanScheduleEntry) (repayments : List LoanRepayment)
    → AreDues (principals entries)
    → AreDues (interests entries)
    → AreDues (apply_repayments entries repayments).0
      × AreDues (apply_repayments entries repayments).1
unfolding apply_repayments
apply_repayments-AreDues entries repayments p i = (
  apply_payments-AreDues _ (principals entries) p,
  apply_payments-AreDues _ (interests entries) i,
)
