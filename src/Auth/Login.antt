-- ===== src/Auth/Login.antt =====
-- The handler `login` of app/api/v1/routers/auth.py, and `constant_time_verify` of
-- app/api/auth_utils.py.
pub mod Guesses
use sole_backend.Prelude.{
  ℕ, Bool, true, false, ◌&&◌, Option, none, some, List, [], ◌∷◌, if◌then◌else◌, keep, Text, eq_text,
  Result, ok, err,
}
use sole_backend.Auth.Redis.{Redis}
use sole_backend.Auth.LoginSecurity.{
  SecuritySettings, HttpError, invalid_credentials, multiple_rows, Handled, then_do,
  enforce_login_limits, register_login_attempt,
}

-- app/models/identity.py
pub record Identity : Type 0 where
  pub id : ℕ
  pub email : Text
  pub hashed_password : Text
  pub is_active : Bool
  pub must_change_password : Bool

pub record LoginResponse : Type 0 where
  pub pre_org_token : Text
  pub must_change_password : Bool

-- The comparison of a password with a hash, and the token, are calls of libraries.
module _ (verify_password : Text → Text → Bool) where
  unfoldable pub constant_time_verify : Text → Text → Bool
  constant_time_verify [] password = false
  constant_time_verify (c ∷ hash) password = verify_password password (c ∷ hash)

  abbrev pub admitted : Text → List Identity → Result HttpError (Option Identity)
  admitted password [] = ok none
  admitted password (identity ∷ []) = ok (
      if identity.is_active && constant_time_verify identity.hashed_password password
      then some identity
      else none)
  admitted password (identity ∷ other ∷ rest) = err multiple_rows

  -- The identity with an address, if it may log in with a password.
  unfoldable pub check_credentials :
      List Identity → Text → Text → Result HttpError (Option Identity)
  check_credentials identities email password =
      admitted password (keep (λ i. eq_text i.email email) identities)

  module _ {S : Type 0} (redis : Redis S) (settings : SecuritySettings)
      (create_pre_org_token : ℕ → Text) where
    abbrev pub finish_login :
        ℕ → Text → Result HttpError (Option Identity) → S → Handled S LoginResponse
    finish_login now email (err e) s = (s, err e)
    finish_login now email (ok none) s =
        then_do (register_login_attempt redis settings now email false s)
          (λ _ s1. (s1, err invalid_credentials))
    finish_login now email (ok (some identity)) s =
        then_do (register_login_attempt redis settings now email true s) (λ _ s1. (
          s1,
          ok (record {
            pre_org_token = create_pre_org_token identity.id;
            must_change_password = identity.must_change_password;
          }),
        ))

    unfoldable pub login : ℕ → Text → List Identity → Text → Text → S → Handled S LoginResponse
    login now ip identities email password s =
        then_do (enforce_login_limits redis settings now ip email s)
          (λ _ s1. finish_login now email (check_credentials identities email password) s1)
