-- ===== src/Loan/Marital.antt =====
-- `MaritalStatus` and `normalize_marital_status` of app/schemas/common.py.
use sole_backend.Prelude.{
  ℕ, Bool, true, false, Option, none, some, List, [], ◌∷◌, map, ◌==◌, if◌then◌else◌, Text, codes,
  eq_text, upper, strip, Result, ok, err,
}

pub data MaritalStatus : Type 0 where
  single married domestic_partner divorced separated widowed unknown : MaritalStatus

abbrev pub same_marital : MaritalStatus → MaritalStatus → Bool
same_marital single single = true
same_marital married married = true
same_marital domestic_partner domestic_partner = true
same_marital divorced divorced = true
same_marital separated separated = true
same_marital widowed widowed = true
same_marital unknown unknown = true
same_marital _ _ = false

-- `.replace("-", "_").replace(" ", "_")`
abbrev pub underscored : ℕ → ℕ
underscored c = if c == b'-' then b'_' else if c == b' ' then b'_' else c

-- The aliases, then the values of the enumeration.
unfoldable pub names : List (Text × MaritalStatus)
names =
    (codes "DOMESTICPARTNER", domestic_partner)
    ∷ (codes "DOMESTIC_PARTNERSHIP", domestic_partner)
    ∷ (codes "PARTNER", domestic_partner)
    ∷ (codes "UNSPECIFIED", unknown)
    ∷ (codes "N/A", unknown)
    ∷ (codes "NA", unknown)
    ∷ (codes "NONE", unknown)
    ∷ (codes "SINGLE", single)
    ∷ (codes "MARRIED", married)
    ∷ (codes "DOMESTIC_PARTNER", domestic_partner)
    ∷ (codes "DIVORCED", divorced)
    ∷ (codes "SEPARATED", separated)
    ∷ (codes "WIDOWED", widowed)
    ∷ (codes "UNKNOWN", unknown)
    ∷ []

unfoldable pub named : Text → List (Text × MaritalStatus) → Option MaritalStatus
named value [] = none
named value ((name, status) ∷ rest) = if eq_text name value then some status else named value rest

-- `ValueError("Invalid marital_status value")`
pub data InvalidMarital : Type 0 where
  invalid_marital : InvalidMarital

unfoldable pub known_status : Text → Result InvalidMarital (Option MaritalStatus)
unfolding names named
known_status [] = ok none
known_status (c ∷ cleaned) = elim (named (map underscored (upper (c ∷ cleaned))) names) [
  | none ↦ err invalid_marital
  | some status ↦ ok (some status)
]

unfoldable pub normalize_marital_status : Option Text → Result InvalidMarital (Option MaritalStatus)
unfolding known_status strip
normalize_marital_status none = ok none
normalize_marital_status (some value) = known_status (strip value)
