-- ===== src/Stock/Membership.antt =====
-- The columns of app/models/org_membership.py that the services read, and the test that
-- app/services/eligibility.py and app/services/stock_grants.py both make of them.
use sole_backend.Prelude.{ℕ, Bool, ◌&&◌, Option, none, some, Text, [], codes, eq_text, upper}

pub record OrgMembership : Type 0 where
  pub id : ℕ
  pub org_id : ℕ
  pub user_id : ℕ
  pub employment_start_date : Option ℕ
  pub employment_status : Option Text
  pub platform_status : Option Text

-- `(value or "").upper() == "ACTIVE"`
unfoldable pub is_active_text : Option Text → Bool
is_active_text none = eq_text (upper []) (codes "ACTIVE")
is_active_text (some s) = eq_text (upper s) (codes "ACTIVE")

unfoldable pub membership_active : OrgMembership → Bool
membership_active membership =
    is_active_text membership.employment_status && is_active_text membership.platform_status
