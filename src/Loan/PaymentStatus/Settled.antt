-- ===== src/Loan/PaymentStatus/Settled.antt =====
-- What the status of app/services/loan_payment_status.py says of a loan whose instalments are not
-- below zero.
use sole_backend.Prelude.{
  ℕ, suc, ◌+◌, ◌≤◌, ◌≡◌, ◌↔◌, refl, ap, ◌∙◌, true, false, inl, inr, none, List, [], ◌∷◌, map,
  length, All, Bool-cases, arith,
}
use sole_backend.Prelude.Int.{
  ℤ, pos, pos_part, neg_part, ◌-ℤ◌, ◌≤ℤ◌, leb_ℤ, sum_ℤ, +ℤ_nonneg, eq_of_parts, not_above, above,
}
use sole_backend.Loan.Calendar.{CalendarDate, before}
use sole_backend.Loan.Schedule.{LoanScheduleEntry}
use sole_backend.Loan.Waterfall.{
  LoanRepayment, apply_payment, apply_payments, apply_repayments, min_ℤ,
}
use sole_backend.Loan.Waterfall.Laws.{
  owed, principals, interests, AreDues, owed-apply_repayments, apply_repayments-AreDues,
}
use sole_backend.Loan.PaymentStatus.{
  Due, zip_dues, due_total, is_settled, next_due, missed_dues, due_dates, status_of,
}

length-apply :
    (payment : ℤ) (remaining : List ℤ) → length (apply_payment payment remaining) ≡ length remaining
unfolding apply_payment
length-apply payment [] = refl
length-apply payment (r ∷ rest) = elim (Bool-cases (leb_ℤ payment (pos 0))) [
  | inl e ↦ rw e refl
  | inr e ↦ rw e (elim (Bool-cases (leb_ℤ r (pos 0))) [
    | inl f ↦ rw f (ap suc (length-apply payment rest))
    | inr f ↦ rw f (ap suc (length-apply (payment -ℤ min_ℤ payment r) rest))
  ])
]

length-payments :
    (payments remaining : List ℤ) → length (apply_payments payments remaining) ≡ length remaining
unfolding apply_payments
length-payments [] remaining = refl
length-payments (p ∷ payments) remaining =
    length-payments payments (apply_payment p remaining) ∙ length-apply p remaining

length-map {ℓ κ} :
    {A : Type ℓ} {B : Type κ} (f : A → B) (xs : List A) → length (map f xs) ≡ length xs
length-map f [] = refl
length-map f (x ∷ xs) = ap suc (length-map f xs)

length-repayments :
    (entries : List LoanScheduleEntry) (repayments : List LoanRepayment)
    → (length (apply_repayments entries repayments).0 ≡ length entries)
      × (length (apply_repayments entries repayments).1 ≡ length entries)
unfolding apply_repayments
length-repayments entries repayments = (
  length-payments _ (principals entries) ∙ length-map _ entries,
  length-payments _ (interests entries) ∙ length-map _ entries,
)

-- The sum of amounts that are not below zero is what is owed.
sum_ℤ-owed :
    (xs : List ℤ)
    → AreDues xs
    → (pos_part (sum_ℤ (λ a. a) xs) ≡ owed xs) × (neg_part (sum_ℤ (λ a. a) xs) ≡ 0)
unfolding sum_ℤ
sum_ℤ-owed [] h = (refl, refl)
sum_ℤ-owed (a ∷ xs) h =
    let ih = sum_ℤ-owed xs h.1 in
    let step = +ℤ_nonneg a (sum_ℤ (λ x. x) xs) h.0 ih.1 in (omega arith, step.1)

abbrev due_owed : Due → ℕ
due_owed due = pos_part due.principal_due + pos_part due.interest_due

abbrev IsDue : Due → Type 0
IsDue due = (neg_part due.principal_due ≡ 0) × (neg_part due.interest_due ≡ 0)

-- The money of a list of rows, as a number.
abbrev Owes : List Due → ℕ → Type 0
Owes dues n = (pos_part (sum_ℤ due_total dues) ≡ n) × (neg_part (sum_ℤ due_total dues) ≡ 0)

abbrev dues_owed : List Due → ℕ
dues_owed [] = 0
dues_owed (due ∷ dues) = due_owed due + dues_owed dues

sum-dues : (dues : List Due) → All IsDue dues → Owes dues (dues_owed dues)
unfolding sum_ℤ
sum-dues [] h = (refl, refl)
sum-dues (due ∷ dues) h =
    let ih = sum-dues dues h.1 in
    let total = +ℤ_nonneg due.principal_due due.interest_due h.0.0 h.0.1 in
    let step = +ℤ_nonneg (due_total due) (sum_ℤ due_total dues) total.1 ih.1 in
    (omega arith, step.1)

zip-IsDue :
    (es : List LoanScheduleEntry) (ps is : List ℤ)
    → AreDues ps
    → AreDues is
    → All IsDue (zip_dues es ps is)
unfolding zip_dues
zip-IsDue [] ps is hp hi = tt
zip-IsDue (e ∷ es) [] is hp hi = tt
zip-IsDue (e ∷ es) (p ∷ ps) [] hp hi = tt
zip-IsDue (e ∷ es) (p ∷ ps) (i ∷ is) hp hi = ((hp.0, hi.0), zip-IsDue es ps is hp.1 hi.1)

zip-owed :
    (es : List LoanScheduleEntry) (ps is : List ℤ)
    → length ps ≡ length es
    → length is ≡ length es
    → dues_owed (zip_dues es ps is) ≡ owed ps + owed is
unfolding zip_dues
zip-owed [] [] [] hp hi = refl
zip-owed [] [] (i ∷ is) hp hi = absurd (omega arith)
zip-owed [] (p ∷ ps) is hp hi = absurd (omega arith)
zip-owed (e ∷ es) [] is hp hi = absurd (omega arith)
zip-owed (e ∷ es) (p ∷ ps) [] hp hi = absurd (omega arith)
zip-owed (e ∷ es) (p ∷ ps) (i ∷ is) hp hi =
    omega (arith, zip-owed es ps is (omega arith) (omega arith))

settled-owed : (due : Due) → IsDue due → is_settled due ≡ true → due_owed due ≡ 0
settled-owed due h e =
    omega (arith, +ℤ_nonneg due.principal_due due.interest_due h.0 h.1, not_above (due_total due) e)

unsettled-owed : (due : Due) → IsDue due → is_settled due ≡ false → 1 ≤ due_owed due
unsettled-owed due h e =
    omega (arith, +ℤ_nonneg due.principal_due due.interest_due h.0 h.1, above (due_total due) e)

next_due-none : (dues : List Due) → All IsDue dues → (next_due dues ≡ none) ↔ (dues_owed dues ≡ 0)
unfolding next_due
next_due-none [] h = (λ _. refl, λ _. refl)
next_due-none (due ∷ dues) h = elim (Bool-cases (is_settled due)) [
  | inl e ↦
      let ih = next_due-none dues h.1 in
      let here = settled-owed due h.0 e in
      rw e (λ n. omega (arith, ih.0 n), λ n. ih.1 (omega arith))
  | inr e ↦ let here = unsettled-owed due h.0 e in rw e (λ n. cc, λ n. absurd (omega arith))
]

missed-le :
    (as_of : CalendarDate) (dues : List Due)
    → All IsDue dues
    → All IsDue (missed_dues as_of dues) × (dues_owed (missed_dues as_of dues) ≤ dues_owed dues)
unfolding missed_dues
missed-le as_of [] h = (tt, omega arith)
missed-le as_of (due ∷ dues) h =
    let ih = missed-le as_of dues h.1 in
    elim (Bool-cases (is_settled due)) [
      | inl e ↦ rw e (ih.0, omega (arith, ih.1))
      | inr e ↦ rw e (elim (Bool-cases (before due.entry.due_date as_of)) [
        | inl b ↦ rw b ((h.0, ih.0), omega (arith, ih.1))
        | inr b ↦ rw b (ih.0, omega (arith, ih.1))
      ])
    ]

missed-none :
    (as_of : CalendarDate) (dues : List Due)
    → All IsDue dues
    → dues_owed dues ≡ 0
    → length (due_dates (missed_dues as_of dues)) ≡ 0
unfolding missed_dues due_dates
missed-none as_of [] h z = refl
missed-none as_of (due ∷ dues) h z = elim (Bool-cases (is_settled due)) [
  | inl e ↦ rw e (missed-none as_of dues h.1 (omega arith))
  | inr e ↦ absurd (omega (arith, unsettled-owed due h.0 e, z))
]

abbrev dues_of : List LoanScheduleEntry → List LoanRepayment → List Due
dues_of entries repayments =
    zip_dues entries (apply_repayments entries repayments).0 (apply_repayments entries repayments).1

module _ (entries : List LoanScheduleEntry) (repayments : List LoanRepayment) (as_of : CalendarDate)
    (hp : AreDues (principals entries)) (hi : AreDues (interests entries)) where
  dues_of-IsDue : All IsDue (dues_of entries repayments)
  dues_of-IsDue =
      let kept = apply_repayments-AreDues entries repayments hp hi in
      zip-IsDue entries (apply_repayments entries repayments).0
        (apply_repayments entries repayments).1 kept.0 kept.1

  -- What remains in all is what the rows owe.
  total_owed :
      (pos_part (status_of entries repayments as_of).total_remaining
        ≡ dues_owed (dues_of entries repayments))
      × (neg_part (status_of entries repayments as_of).total_remaining ≡ 0)
      × (dues_owed (dues_of entries repayments)
          ≡ owed (apply_repayments entries repayments).0
            + owed (apply_repayments entries repayments).1)
  unfolding status_of
  total_owed =
      let left = apply_repayments entries repayments in
      let kept = apply_repayments-AreDues entries repayments hp hi in
      let ps = sum_ℤ-owed left.0 kept.0 in
      let is = sum_ℤ-owed left.1 kept.1 in
      let both = +ℤ_nonneg (sum_ℤ (λ a. a) left.0) (sum_ℤ (λ a. a) left.1) ps.1 is.1 in
      let lengths = length-repayments entries repayments in
      let rows = zip-owed entries left.0 left.1 lengths.0 lengths.1 in (omega arith, both.1, rows)

  -- For instalments that are not below zero, no payment is next due exactly when nothing remains, and
  -- the amount that was missed is never more than what remains.
  pub next_payment_none_iff :
      ((status_of entries repayments as_of).next_payment ≡ none
        ↔ (status_of entries repayments as_of).total_remaining ≡ pos 0)
      × ((status_of entries repayments as_of).missed_payment_amount_total
          ≤ℤ (status_of entries repayments as_of).total_remaining)
  unfolding status_of
  next_payment_none_iff =
      let dues = dues_of entries repayments in
      let none_iff = next_due-none dues dues_of-IsDue in
      let missed = missed-le as_of dues dues_of-IsDue in
      let in_missed = sum-dues (missed_dues as_of dues) missed.0 in
      let remaining = (status_of entries repayments as_of).total_remaining in
      (
        (
          λ h. eq_of_parts remaining (pos 0) (omega (arith, none_iff.0 h, total_owed)),
          λ h. none_iff.1 (omega (arith, ap pos_part h, total_owed)),
        ),
        omega (arith, missed.1, in_missed, total_owed),
      )

  -- Once the principal and the interest that were paid reach those of the schedule, whatever their
  -- dates and order, nothing remains: no payment is next due, and none counts as missed.
  pub paid_in_full :
      owed (principals entries) ≤ owed (map (λ r. r.principal_amount) repayments)
      → owed (interests entries) ≤ owed (map (λ r. r.interest_amount) repayments)
      → ((status_of entries repayments as_of).total_remaining ≡ pos 0)
        × ((status_of entries repayments as_of).next_payment ≡ none)
        × ((status_of entries repayments as_of).missed_payment_count ≡ 0)
  unfolding status_of
  paid_in_full enough_p enough_i =
      let dues = dues_of entries repayments in
      let left = owed-apply_repayments entries repayments in
      let nothing : dues_owed dues ≡ 0 = omega (arith, left, total_owed) in
      let remaining = (status_of entries repayments as_of).total_remaining in
      (
        eq_of_parts remaining (pos 0) (omega (arith, total_owed)),
        (next_due-none dues dues_of-IsDue).1 nothing,
        missed-none as_of dues dues_of-IsDue nothing,
      )
