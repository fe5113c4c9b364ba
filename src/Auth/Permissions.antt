-- ===== src/Auth/Permissions.antt =====
-- app/services/authz.py: the permissions of a user from roles, direct grants and access lists.
pub mod Effective
use sole_backend.Prelude.{
  ℕ, Bool, true, false, not, ◌&&◌, Option, none, some, List, [], ◌∷◌, ◌++◌, ltb, ◌==◌,
  if◌then◌else◌, keep, any, find_first, Text, codes, eq_text,
}
use sole_backend.Auth.PermissionCodes.{list_all}

-- A Python set of texts is a list that is only asked for its members.
abbrev pub mem : Text → List Text → Bool
mem target values = any (λ value. eq_text value target) values

-- `difference_update`
abbrev pub difference : List Text → List Text → List Text
difference values removed = keep (λ value. not (mem value removed)) values

-- `PermissionCode(value)` raises for a text that is no code; the loops pass over such a text.
unfoldable pub is_code : Text → Bool
is_code value = mem value list_all

abbrev pub valid : List Text → List Text
valid = keep is_code

pub record UserRole : Type 0 where
  pub user_id : ℕ
  pub org_id : ℕ
  pub role_id : ℕ

pub record Role : Type 0 where
  pub id : ℕ
  pub org_id : ℕ
  pub permissions : List Text

pub record UserPermission : Type 0 where
  pub org_id : ℕ
  pub user_id : ℕ
  pub permissions : List Text
  pub effect : Text
  pub expires_at : Option ℕ

pub record AccessControlList : Type 0 where
  pub org_id : ℕ
  pub user_id : ℕ
  pub resource_type : Text
  pub resource_id : Text
  pub permissions : List Text
  pub effect : Text
  pub expires_at : Option ℕ

pub record Tables : Type 0 where
  pub user_roles : List UserRole
  pub roles : List Role
  pub user_permissions : List UserPermission
  pub acls : List AccessControlList

-- Still in force at a time.
abbrev pub is_live : Option ℕ → ℕ → Bool
is_live none now = true
is_live (some expires_at) now = ltb now expires_at

abbrev pub is_deny : Text → Bool
is_deny effect = eq_text effect (codes "deny")

-- The role is one of the organisation and the user has it there.
abbrev pub holds : Tables → ℕ → ℕ → Role → Bool
holds db user_id org_id role =
    (role.org_id == org_id)
    && any
        (λ held. (held.user_id == user_id) && (held.org_id == org_id) && (held.role_id == role.id))
        db.user_roles

unfoldable pub gather {ℓ} : {A : Type ℓ} → (A → List Text) → List A → List Text
gather f [] = []
gather f (row ∷ rows) = valid (f row) ++ gather f rows

abbrev pub role_permissions : Tables → ℕ → ℕ → List Text
role_permissions db user_id org_id =
    gather (λ role. role.permissions) (keep (holds db user_id org_id) db.roles)

abbrev pub direct_row : Tables → ℕ → ℕ → Option UserPermission
direct_row db user_id org_id =
    find_first (λ row. (row.org_id == org_id) && (row.user_id == user_id)) db.user_permissions

abbrev pub adjusted : List Text → Option UserPermission → ℕ → List Text
adjusted permissions none now = permissions
adjusted permissions (some row) now =
    if is_live row.expires_at now
    then (if is_deny row.effect
        then difference permissions (valid row.permissions)
        else permissions ++ valid row.permissions)
    else permissions

unfoldable pub load_permissions_from_db : Tables → ℕ → ℕ → ℕ → List Text
load_permissions_from_db db user_id org_id now =
    adjusted (role_permissions db user_id org_id) (direct_row db user_id org_id) now

-- The entries of a user for a resource that are in force, of one effect.
abbrev pub is_entry : ℕ → ℕ → Text → Text → ℕ → Bool → AccessControlList → Bool
is_entry user_id org_id resource_type resource_id now deny row =
    (row.org_id == org_id)
    && (row.user_id == user_id)
    && eq_text row.resource_type resource_type
    && eq_text row.resource_id resource_id
    && is_live row.expires_at now
    && (if deny then is_deny row.effect else not (is_deny row.effect))

-- The allowed and the denied permissions.
unfoldable pub load_acl_permissions : Tables → ℕ → ℕ → Text → Text → ℕ → List Text × List Text
load_acl_permissions db user_id org_id resource_type resource_id now = (
  gather (λ row. row.permissions)
      (keep (is_entry user_id org_id resource_type resource_id now false) db.acls),
  gather (λ row. row.permissions)
      (keep (is_entry user_id org_id resource_type resource_id now true) db.acls),
)

pub record User : Type 0 where
  pub id : ℕ
  pub is_superuser : Bool

abbrev pub or_load : Option (List Text) → List Text → List Text
or_load none loaded = loaded
or_load (some cached) loaded = cached

-- `cached` is what the read of the cache gave, `none` on a miss and on an error; a resource is given
-- by its type and identifier together.
unfoldable pub check_permission :
    Tables → User → ℕ → Text → Option (List Text) → Option (Text × Text) → ℕ → Bool
check_permission db user org_id target cached resource now =
    let permissions = or_load cached (load_permissions_from_db db user.id org_id now) in
    if user.is_superuser then true else elim resource [
      | none ↦ mem target permissions
      | some (resource_type, resource_id) ↦
          let acl = load_acl_permissions db user.id org_id resource_type resource_id now in
          mem target (difference (permissions ++ acl.0) acl.1)
    ]
