-- ===== src/Tests/Auth.antt =====
-- Permissions at concrete inputs.
use sole_backend.Prelude.{
  ◌≡◌, refl, ◌&&◌, ◌||◌, not, true, false, none, some, [], ◌∷◌, Text, codes, eq_text,
}
use sole_backend.Auth.PermissionCodes.{list_all}
use sole_backend.Auth.Permissions.{
  User, Tables, mem, is_code, gather, direct_row, load_permissions_from_db, load_acl_permissions,
  check_permission,
}
use sole_backend.Auth.Permissions.Effective.{
  role_says, direct_says, acl_says, load_permissions-mem, check_permission-says,
}

abbrev view : Text
view = codes "loan.view_own"

abbrev contract : Text
contract = codes "7"

abbrev tables : Tables
tables = record {
  user_roles = record { user_id = 5; org_id = 7; role_id = 1 } ∷ [];
  roles = record { id = 1; org_id = 7; permissions = view ∷ [] } ∷ [];
  user_permissions = [];
  acls =
      record {
        org_id = 7;
        user_id = 5;
        resource_type = codes "loan";
        resource_id = contract;
        permissions = view ∷ [];
        effect = codes "deny";
        expires_at = some 100;
      }
      ∷ [];
}

abbrev clerk : User
clerk = record { id = 5; is_superuser = false }

-- The entry of the access list denies what the role gives, until it expires.
denied_run : check_permission tables clerk 7 view none (some (codes "loan", contract)) 99 ≡ false
unfolding check_permission load_permissions_from_db load_acl_permissions gather is_code list_all
    eq_text
denied_run = refl

expired_run : check_permission tables clerk 7 view none (some (codes "loan", contract)) 100 ≡ true
unfolding check_permission load_permissions_from_db load_acl_permissions gather is_code list_all
    eq_text
expired_run = refl

load_permissions-mem_example : mem view (load_permissions_from_db tables 5 7 99) ≡ (
    (role_says tables 5 7 view || direct_says false (direct_row tables 5 7) view 99)
    && not (direct_says true (direct_row tables 5 7) view 99))
load_permissions-mem_example = load_permissions-mem tables 5 7 99 view

check_permission-says_example :
    check_permission tables clerk 7 view (some (view ∷ [])) (some (codes "loan", contract)) 99 ≡ (
      false
      || (not (acl_says tables 5 7 (codes "loan") contract 99 true view)
          && (mem view (view ∷ []) || acl_says tables 5 7 (codes "loan") contract 99 false view)))
check_permission-says_example =
    check_permission-says tables clerk 7 view (some (view ∷ [])) (codes "loan") contract 99
