-- ===== src/Stock/Eligibility/Reasons.antt =====
-- When app/services/eligibility.py finds an employee eligible.
use sole_backend.Prelude.{
  ℕ, ◌≤◌, ◌<◌, ◌≡◌, ◌↔◌, ◌⊎◌, inl, inr, refl, false, some, List, [], ◌∷◌, ◌++◌, Bool-cases,
  Option-cases, arith, Option, none, Bool, true, ◌&&◌, ◌∙◌, ap, sym, subst, ◌-◌, leb, Text, codes,
  upper, eq_text, eq_text→eq, eq_text_refl,
}
use sole_backend.Prelude.Int.{sub_ℕ}
use sole_backend.Decimal.{decimal, div, less}
use sole_backend.Stock.Membership.{OrgMembership, is_active_text, membership_active}
use sole_backend.Stock.Vesting.{VestingTotals}
use sole_backend.Stock.Eligibility.{
  StockPolicy, service_short, membership_reasons, service_reasons, vested_reasons, or_zero,
  is_empty, evaluate_eligibility_from_totals,
}

-- A status that is there and reads ACTIVE, in whichever capitals.
abbrev pub ReadsActive : Option Text → Type 0
ReadsActive status = (s : Text) × (status ≡ some s) × (upper s ≡ codes "ACTIVE")

-- The service rule is met: it is off, or the start date is known, not after the date, and the days
-- between them, divided by 365.25, are not fewer years than the minimum.
abbrev pub Served : OrgMembership → StockPolicy → ℕ → Type 0
Served membership policy as_of_date =
    (policy.enforce_service_duration_rule ≡ false)
    ⊎ ((start : ℕ) × (membership.employment_start_date ≡ some start)
        × (start ≤ as_of_date)
        × (less (div (decimal (as_of_date - start) 0) (decimal 36525 2))
              (decimal (or_zero policy.min_service_duration_years) 2)
            ≡ false))

-- Enough shares have vested: the minimum where it is enforced, or one share where it is not.
abbrev pub HasVested : StockPolicy → VestingTotals → Type 0
HasVested policy totals =
    (policy.enforce_min_vested_to_exercise ≡ true
      → or_zero policy.min_vested_shares_to_exercise ≤ totals.total_vested_shares)
    × (policy.enforce_min_vested_to_exercise ≡ false → 0 < totals.total_vested_shares)

is_empty-append {ℓ} :
    {A : Type ℓ} (xs ys : List A)
    → (is_empty (xs ++ ys) ≡ true) ↔ ((is_empty xs ≡ true) × (is_empty ys ≡ true))
is_empty-append [] ys = (λ h. (refl, h), λ h. h.1)
is_empty-append (x ∷ xs) ys = (λ h. cc, λ h. cc (h.0))

silent : is_active_text none ≡ false
unfolding is_active_text eq_text upper
silent = refl

reads_active : (status : Option Text) → (is_active_text status ≡ true) ↔ ReadsActive status
unfolding is_active_text
reads_active none = (λ h. cc (silent, h), λ (s, e, u). cc)
reads_active (some s) = (
  λ h. (s, refl, eq_text→eq (upper s) (codes "ACTIVE") h),
  λ (t, e, u).
      let same : s ≡ t = cc in
      subst (λ x. eq_text x (codes "ACTIVE") ≡ true) (sym (ap upper same ∙ u))
        (eq_text_refl (codes "ACTIVE")),
)

both_true : (a b : Bool) → ((a && b) ≡ true) ↔ ((a ≡ true) × (b ≡ true))
both_true a b = (λ h. (ground arith, ground arith), λ h. ground arith)

membership_clear :
    (m : OrgMembership)
    → (is_empty (membership_reasons m) ≡ true)
      ↔ (ReadsActive m.employment_status × ReadsActive m.platform_status)
unfolding membership_reasons membership_active
membership_clear m =
    let both = both_true (is_active_text m.employment_status) (is_active_text m.platform_status) in
    let employed = reads_active m.employment_status in
    let enabled = reads_active m.platform_status in
    (
      λ h. let active = both.0 (ground arith) in (employed.0 active.0, enabled.0 active.1),
      λ h. let active = both.1 (employed.1 h.0, enabled.1 h.1) in ground arith,
    )

vested_clear :
    (policy : StockPolicy) (totals : VestingTotals)
    → (is_empty (vested_reasons policy totals) ≡ true) ↔ HasVested policy totals
unfolding vested_reasons
vested_clear policy totals = elim (Bool-cases policy.enforce_min_vested_to_exercise) [
  | inl e ↦ rw e (λ h. (λ _. ground arith, λ x. cc), λ h. ground (arith, h.0 refl))
  | inr e ↦ rw e (λ h. (λ x. cc, λ _. ground arith), λ h. ground (arith, h.1 refl))
]

long_enough :
    (as_of_date start required : ℕ)
    → (service_short (sub_ℕ as_of_date start) required ≡ false) ↔ (
        (start ≤ as_of_date)
        × (less (div (decimal (as_of_date - start) 0) (decimal 36525 2)) (decimal required 2)
            ≡ false))
unfolding service_short
long_enough as_of_date start required = elim (Bool-cases (leb start as_of_date)) [
  | inl e ↦ rw e (λ h. (ground arith, h), λ h. h.1)
  | inr e ↦ rw e (λ h. cc, λ h. ground arith)
]

service_clear :
    (m : OrgMembership) (policy : StockPolicy) (as_of_date : ℕ)
    → (is_empty (service_reasons m policy as_of_date) ≡ true) ↔ Served m policy as_of_date
unfolding service_reasons
service_clear m policy as_of_date = elim (Bool-cases policy.enforce_service_duration_rule) [
  | inr e ↦ (λ _. inl e, λ _. rw e refl)
  | inl e ↦ elim (Option-cases m.employment_start_date) [
    | inl n ↦ (λ h. cc (rw (e, n, service_reasons) at h), λ h. ground arith)
    | inr (start, n) ↦
        let long = long_enough as_of_date start (or_zero policy.min_service_duration_years) in
        (
          λ h. let served = long.0 (ground arith) in inr (start, n, served.0, served.1),
          λ h. elim h [
            | inl off ↦ cc
            | inr (other, o, begun, enough) ↦
                let same : other ≡ start = cc in
                let short = long.1 (
                  subst
                    (λ s.
                      (s ≤ as_of_date)
                      × (less (div (decimal (as_of_date - s) 0) (decimal 36525 2))
                            (decimal (or_zero policy.min_service_duration_years) 2)
                          ≡ false))
                    same (begun, enough)) in
                ground arith
          ],
        )
  ]
]

-- An employee may exercise exactly when employment and platform status both read ACTIVE, the service
-- rule is off or the employment began by that date and long enough ago for it, and enough shares
-- have vested: the minimum where it is enforced, one share where it is not.
pub eligible_iff :
    (m : OrgMembership) (policy : StockPolicy) (totals : VestingTotals) (as_of_date : ℕ)
    → ((evaluate_eligibility_from_totals m policy totals as_of_date).eligible_to_exercise ≡ true)
      ↔ ((ReadsActive m.employment_status × ReadsActive m.platform_status)
          × Served m policy as_of_date
          × HasVested policy totals)
unfolding evaluate_eligibility_from_totals
eligible_iff m policy totals as_of_date =
    let outer =
      is_empty-append (membership_reasons m)
        (service_reasons m policy as_of_date ++ vested_reasons policy totals) in
    let inner =
      is_empty-append (service_reasons m policy as_of_date) (vested_reasons policy totals) in
    let mc = membership_clear m in
    let sc = service_clear m policy as_of_date in
    let vc = vested_clear policy totals in
    (
      λ h. (mc.0 (outer.0 h).0, sc.0 (inner.0 (outer.0 h).1).0, vc.0 (inner.0 (outer.0 h).1).1),
      λ h. outer.1 (mc.1 h.0, inner.1 (sc.1 h.1, vc.1 h.2)),
    )
