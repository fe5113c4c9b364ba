-- ===== src/Auth/Permissions/Effective.antt =====
-- Who has a permission, said of the rows one by one (app/services/authz.py).
use sole_backend.Prelude.{
  ℕ, ◌≡◌, refl, sym, ap, ◌∙◌, inl, inr, Bool, true, false, not, ◌&&◌, ◌||◌, Option, none, some,
  List, [], ◌∷◌, ◌++◌, if◌then◌else◌, keep, any, Text, eq_text, eq_text→eq, Bool-cases,
}
use sole_backend.Auth.Permissions.{
  mem, difference, is_code, valid, gather, UserPermission, Tables, User, is_live, is_deny, holds,
  role_permissions, direct_row, adjusted, load_permissions_from_db, is_entry, load_acl_permissions,
  or_load, check_permission,
}

or_assoc : (a b c : Bool) → (a || (b || c)) ≡ ((a || b) || c)
or_assoc true b c = refl
or_assoc false b c = refl

and_false : (a : Bool) → false ≡ (a && false)
and_false true = refl
and_false false = refl

and_or : (a b c : Bool) → ((a && b) || (a && c)) ≡ (a && (b || c))
and_or true b c = refl
and_or false b c = refl

mem-append :
    (target : Text) (xs ys : List Text) → mem target (xs ++ ys) ≡ (mem target xs || mem target ys)
mem-append target [] ys = refl
mem-append target (x ∷ xs) ys = rw (mem-append target xs ys) (or_assoc (eq_text x target) _ _)

-- Filtering by a test on texts.
mem-keep :
    (p : Text → Bool) (target : Text) (xs : List Text)
    → mem target (keep p xs) ≡ (p target && mem target xs)
mem-keep p target [] = and_false (p target)
mem-keep p target (x ∷ xs) =
    let rest = mem-keep p target xs in
    elim (Bool-cases (eq_text x target)) [
      | inl f ↦
          let same : p target ≡ p x = sym (ap p (eq_text→eq x target f)) in
          elim (Bool-cases (p x)) [
            | inl e ↦ rw (e, f, same, e) refl
            | inr e ↦ rw (e, same, e) (rw (same, e) at rest)
          ]
      | inr f ↦ elim (Bool-cases (p x)) [ inl e ↦ rw (e, f) rest | inr e ↦ rw (e, f) rest ]
    ]

mem-gather {ℓ} :
    {A : Type ℓ} (f : A → List Text) (p : A → Bool) (target : Text) (rows : List A)
    → mem target (gather f (keep p rows))
      ≡ (is_code target && any (λ row. p row && mem target (f row)) rows)
unfolding gather
mem-gather f p target [] = and_false (is_code target)
mem-gather f p target (row ∷ rows) =
    let rest = mem-gather f p target rows in
    elim (Bool-cases (p row)) [
      | inl e ↦ rw e (
          mem-append target (valid (f row)) (gather f (keep p rows))
          ∙ rw (mem-keep is_code target (f row), rest) (and_or (is_code target) _ _))
      | inr e ↦ rw e rest
    ]

-- What the direct row of a user says of a permission, with one of the two effects.
abbrev pub direct_says : Bool → Option UserPermission → Text → ℕ → Bool
direct_says deny none target now = false
direct_says deny (some row) target now =
    is_live row.expires_at now
    && (if deny then is_deny row.effect else not (is_deny row.effect))
    && is_code target
    && mem target row.permissions

-- A role of the user in the organisation has the permission.
abbrev pub role_says : Tables → ℕ → ℕ → Text → Bool
role_says db user_id org_id target =
    is_code target
    && any (λ role. holds db user_id org_id role && mem target role.permissions) db.roles

mem-difference :
    (target : Text) (xs ys : List Text)
    → mem target (difference xs ys) ≡ (not (mem target ys) && mem target xs)
mem-difference target xs ys = mem-keep (λ value. not (mem value ys)) target xs

without : (a b : Bool) → (not b && a) ≡ ((a || false) && not b)
without true true = refl
without true false = refl
without false true = refl
without false false = refl

and_right_true : (a : Bool) → a ≡ (a && true)
and_right_true true = refl
and_right_true false = refl

plain : (a : Bool) → a ≡ ((a || false) && true)
plain true = refl
plain false = refl

adjusted-mem :
    (target : Text) (permissions : List Text) (row : Option UserPermission) (now : ℕ)
    → mem target (adjusted permissions row now) ≡ (
        (mem target permissions || direct_says false row target now)
        && not (direct_says true row target now))
adjusted-mem target permissions none now = plain (mem target permissions)
adjusted-mem target permissions (some row) now = elim (Bool-cases (is_live row.expires_at now)) [
  | inl e ↦ elim (Bool-cases (is_deny row.effect)) [
    | inl d ↦
        rw (e, d)
          (mem-difference target permissions (valid row.permissions)
            ∙ rw (mem-keep is_code target row.permissions) (without (mem target permissions) _))
    | inr d ↦
        rw (e, d)
          (mem-append target permissions (valid row.permissions)
            ∙ rw (mem-keep is_code target row.permissions) (and_right_true _))
  ]
  | inr e ↦ rw e (plain (mem target permissions))
]

-- A permission is loaded for a user exactly if a role of the user gives it or the direct row allows
-- it, and the direct row, if in force, does not deny it.
pub load_permissions-mem :
    (db : Tables) (user_id org_id now : ℕ) (target : Text)
    → mem target (load_permissions_from_db db user_id org_id now) ≡ (
        (role_says db user_id org_id target
          || direct_says false (direct_row db user_id org_id) target now)
        && not (direct_says true (direct_row db user_id org_id) target now))
unfolding load_permissions_from_db
load_permissions-mem db user_id org_id now target =
    adjusted-mem target (role_permissions db user_id org_id) (direct_row db user_id org_id) now
    ∙ rw (mem-gather (λ role. role.permissions) (holds db user_id org_id) target db.roles) refl

-- An entry in force for the resource, with one of the two effects, names the permission.
abbrev pub acl_says : Tables → ℕ → ℕ → Text → Text → ℕ → Bool → Text → Bool
acl_says db user_id org_id resource_type resource_id now deny target =
    is_code target
    && any
        (λ row.
          is_entry user_id org_id resource_type resource_id now deny row
          && mem target row.permissions)
        db.acls

-- For a resource, a user may act exactly if a superuser, or if no entry in force denies the
-- permission and the general permissions or an entry in force give it; a denial wins over all others.
pub check_permission-says :
    (db : Tables) (user : User) (org_id : ℕ) (target : Text) (cached : Option (List Text))
    (resource_type resource_id : Text) (now : ℕ)
    → check_permission db user org_id target cached (some (resource_type, resource_id)) now ≡ (
        user.is_superuser
        || (not (acl_says db user.id org_id resource_type resource_id now true target)
            && (mem target (or_load cached (load_permissions_from_db db user.id org_id now))
                || acl_says db user.id org_id resource_type resource_id now false target)))
unfolding check_permission load_acl_permissions
check_permission-says db user org_id target cached resource_type resource_id now =
    let base = or_load cached (load_permissions_from_db db user.id org_id now) in
    let entry = is_entry user.id org_id resource_type resource_id now in
    let acl = load_acl_permissions db user.id org_id resource_type resource_id now in
    elim (Bool-cases user.is_superuser) [
      | inl e ↦ rw e refl
      | inr e ↦ rw e (
          mem-difference target (base ++ acl.0) acl.1
          ∙ rw
              (
                mem-append target base acl.0,
                mem-gather (λ row. row.permissions) (entry false) target db.acls,
                mem-gather (λ row. row.permissions) (entry true) target db.acls,
              )
              refl)
    ]
