-- ===== src/Stock/Eligibility.antt =====
-- app/services/eligibility.py, with the columns of app/models/org_settings.py that it reads.
pub mod Reasons
use sole_backend.Prelude.{
  ℕ, ◌-◌, Bool, true, false, not, Option, none, some, List, [], ◌∷◌, ◌++◌, ltb, leb, if◌then◌else◌,
}
use sole_backend.Prelude.Int.{ℤ, pos, negsuc, sub_ℕ}
use sole_backend.Decimal.{decimal, div, less}
use sole_backend.Stock.Membership.{OrgMembership, membership_active}
use sole_backend.Stock.Vesting.{
  VestingTotals, EmployeeStockGrant, load_active_grants, aggregate_vesting,
}

-- The required service is in hundredths of a year, the scale of its column.
pub record StockPolicy : Type 0 where
  pub enforce_service_duration_rule : Bool
  pub min_service_duration_years : Option ℕ
  pub enforce_min_vested_to_exercise : Bool
  pub min_vested_shares_to_exercise : Option ℕ

-- A reason's code, with the figure that its message names.
pub data EligibilityReason : Type 0 where
  employment_inactive : EligibilityReason
  start_date_missing : EligibilityReason
  insufficient_service_duration : ℕ → EligibilityReason
  below_min_vested_threshold : ℕ → EligibilityReason
  no_vested_shares : EligibilityReason

pub record EligibilityResult : Type 0 where
  pub eligible_to_exercise : Bool
  pub total_granted_shares : ℕ
  pub total_vested_shares : ℕ
  pub total_unvested_shares : ℕ
  pub reasons : List EligibilityReason

abbrev pub or_zero : Option ℕ → ℕ
or_zero none = 0
or_zero (some n) = n

-- `Decimal(days) / Decimal("365.25") < required`; a negative number of days is below any
-- requirement, which is not negative.
unfoldable pub service_short : ℤ → ℕ → Bool
service_short (pos days) required =
    less (div (decimal days 0) (decimal 36525 2)) (decimal required 2)
service_short (negsuc days) required = true

unfoldable pub membership_reasons : OrgMembership → List EligibilityReason
membership_reasons membership =
    if membership_active membership then [] else employment_inactive ∷ []

unfoldable pub service_reasons : OrgMembership → StockPolicy → ℕ → List EligibilityReason
service_reasons membership policy as_of_date =
    if policy.enforce_service_duration_rule
    then elim membership.employment_start_date [
      | none ↦ start_date_missing ∷ []
      | some start ↦
          let required = or_zero policy.min_service_duration_years in
          if service_short (sub_ℕ as_of_date start) required
          then insufficient_service_duration required ∷ []
          else []
    ]
    else []

unfoldable pub vested_reasons : StockPolicy → VestingTotals → List EligibilityReason
vested_reasons policy totals =
    if policy.enforce_min_vested_to_exercise
    then (let minimum = or_zero policy.min_vested_shares_to_exercise in
        if ltb totals.total_vested_shares minimum
        then below_min_vested_threshold minimum ∷ []
        else [])
    else (if leb totals.total_vested_shares 0 then no_vested_shares ∷ [] else [])

abbrev pub is_empty {ℓ} : {A : Type ℓ} → List A → Bool
is_empty [] = true
is_empty (x ∷ xs) = false

unfoldable pub evaluate_eligibility_from_totals :
    OrgMembership → StockPolicy → VestingTotals → ℕ → EligibilityResult
evaluate_eligibility_from_totals membership policy totals as_of_date =
    let reasons =
      membership_reasons membership
      ++ (service_reasons membership policy as_of_date ++ vested_reasons policy totals) in
    record {
      eligible_to_exercise = is_empty reasons;
      total_granted_shares = totals.total_granted_shares;
      total_vested_shares = totals.total_vested_shares;
      total_unvested_shares = totals.total_unvested_shares;
      reasons = reasons;
    }

-- With the settings of the organisation and the rows of the grants table.
unfoldable pub evaluate_exercise_eligibility :
    List EmployeeStockGrant → StockPolicy → ℕ → OrgMembership → ℕ → EligibilityResult
evaluate_exercise_eligibility rows policy org_id membership as_of_date =
    evaluate_eligibility_from_totals membership policy
      (aggregate_vesting (load_active_grants rows org_id membership.id) as_of_date) as_of_date
