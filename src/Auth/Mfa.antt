-- ===== src/Auth/Mfa.antt =====
-- app/services/mfa.py: recovery codes and remembered devices. SHA-256 and the drawing of random
-- characters are calls of libraries, and arguments here.
pub mod Codes
pub mod Devices
use sole_backend.Prelude.{
  ℕ, zero, suc, Bool, true, false, not, ◌&&◌, Option, none, some, List, [], ◌∷◌, ◌++◌, map, ◌==◌,
  leb, length, if◌then◌else◌, keep, take, Text, eq_text, upper, Result, ok, err,
}

-- app/models/user_mfa_recovery_code.py
pub record RecoveryCode : Type 0 where
  pub id : ℕ
  pub identity_id : ℕ
  pub code_hash : Text
  pub used_at : Option ℕ

-- app/models/user_mfa_device.py; times are seconds.
pub record MfaDevice : Type 0 where
  pub id : ℕ
  pub org_id : ℕ
  pub user_id : ℕ
  pub token_hash : Text
  pub expires_at : ℕ
  pub last_used_at : Option ℕ

-- The columns of app/models/identity.py on the second factor.
pub record MfaIdentity : Type 0 where
  pub id : ℕ
  pub mfa_enabled : Bool
  pub mfa_secret_encrypted : Option Text
  pub mfa_method : Option Text
  pub mfa_confirmed_at : Option ℕ

-- `scalar_one_or_none` finds several rows.
pub data MfaError : Type 0 where
  multiple_rows : MfaError

-- `.upper().replace("-", "")`
unfoldable pub normalized : Text → Text
normalized code = keep (λ c. not (c == b'-')) (upper code)

abbrev pub skip : ℕ → Text → Text
skip zero s = s
skip (suc n) [] = []
skip (suc n) (c ∷ s) = skip n s

-- `_generate_recovery_code`, of the characters that were drawn.
unfoldable pub recovery_code : Text → Text
recovery_code drawn = take 4 drawn ++ b'-' ∷ skip 4 drawn

abbrev pub is_unused : Option ℕ → Bool
is_unused none = true
is_unused (some time) = false

abbrev pub mark_used : ℕ → ℕ → RecoveryCode → RecoveryCode
mark_used now id row = if row.id == id then record row { used_at = some now } else row

-- The characters of one code, and the identifier of its row.
pub record Drawn : Type 0 where
  pub id : ℕ
  pub characters : Text

module _ (sha256 : Text → Text) where
  unfoldable pub hash_recovery_code : Text → Text
  hash_recovery_code code = sha256 (normalized code)

  abbrev pub row_of : ℕ → Drawn → RecoveryCode
  row_of identity_id drawn = record {
    id = drawn.id;
    identity_id = identity_id;
    code_hash = hash_recovery_code (recovery_code drawn.characters);
    used_at = none;
  }

  unfoldable pub delete_user_recovery_codes : List RecoveryCode → ℕ → List RecoveryCode
  delete_user_recovery_codes rows identity_id =
      keep (λ row. not (row.identity_id == identity_id)) rows

  -- The new rows, and the codes for the user.
  unfoldable pub generate_recovery_codes :
      List RecoveryCode → ℕ → List Drawn → List RecoveryCode × List Text
  generate_recovery_codes rows identity_id drawn = (
    delete_user_recovery_codes rows identity_id ++ map (row_of identity_id) drawn,
    map (λ d. recovery_code d.characters) drawn,
  )

  abbrev pub is_open_code : ℕ → Text → RecoveryCode → Bool
  is_open_code identity_id code_hash row =
      (row.identity_id == identity_id) && eq_text row.code_hash code_hash && is_unused row.used_at

  abbrev pub consume :
      ℕ → List RecoveryCode → List RecoveryCode → Result MfaError (List RecoveryCode × Bool)
  consume now rows [] = ok (rows, false)
  consume now rows (row ∷ []) = ok (map (mark_used now row.id) rows, true)
  consume now rows (row ∷ other ∷ rest) = err multiple_rows

  unfoldable pub verify_recovery_code :
      ℕ → List RecoveryCode → ℕ → Text → Result MfaError (List RecoveryCode × Bool)
  verify_recovery_code now rows identity_id code =
      consume now rows (keep (is_open_code identity_id (hash_recovery_code code)) rows)

  unfoldable pub get_remaining_recovery_codes_count : List RecoveryCode → ℕ → ℕ
  get_remaining_recovery_codes_count rows identity_id =
      length (keep (λ row. (row.identity_id == identity_id) && is_unused row.used_at) rows)

  unfoldable pub create_remember_device :
      ℕ → List MfaDevice → ℕ → ℕ → ℕ → ℕ → Text → List MfaDevice × Text
  create_remember_device now devices new_id org_id user_id expires_at raw_token = (
    devices
        ++ record {
          id = new_id;
          org_id = org_id;
          user_id = user_id;
          token_hash = sha256 raw_token;
          expires_at = expires_at;
          last_used_at = some now;
        }
          ∷ [],
    raw_token,
  )

  abbrev pub is_device_of : ℕ → ℕ → Text → MfaDevice → Bool
  is_device_of org_id user_id token_hash device =
      (device.org_id == org_id)
      && (device.user_id == user_id)
      && eq_text device.token_hash token_hash

  abbrev pub touched : ℕ → MfaDevice → MfaDevice
  touched now device = record device { last_used_at = some now }

  abbrev pub use_device :
      ℕ → List MfaDevice → List MfaDevice → Result MfaError (List MfaDevice × Option MfaDevice)
  use_device now devices [] = ok (devices, none)
  use_device now devices (device ∷ []) =
      if leb device.expires_at now
      then ok (devices, none)
      else ok (
        map (λ other. if other.id == device.id then touched now other else other) devices,
        some (touched now device),
      )
  use_device now devices (device ∷ other ∷ rest) = err multiple_rows

  unfoldable pub find_valid_device :
      ℕ → List MfaDevice → ℕ → ℕ → Text → Result MfaError (List MfaDevice × Option MfaDevice)
  find_valid_device now devices org_id user_id remember_token =
      use_device now devices (keep (is_device_of org_id user_id (sha256 remember_token)) devices)

  unfoldable pub delete_org_devices : List MfaDevice → ℕ → List MfaDevice
  delete_org_devices devices org_id = keep (λ d. not (d.org_id == org_id)) devices

  unfoldable pub delete_user_devices : List MfaDevice → ℕ → ℕ → List MfaDevice
  delete_user_devices devices org_id user_id =
      keep (λ d. not ((d.org_id == org_id) && (d.user_id == user_id))) devices

  unfoldable pub clear_user_mfa :
      MfaIdentity
      → List MfaDevice
      → List RecoveryCode
      → ℕ
      → ℕ
      → MfaIdentity × (List MfaDevice × List RecoveryCode)
  clear_user_mfa identity devices rows org_id user_id = (
    record identity {
      mfa_enabled = false;
      mfa_secret_encrypted = none;
      mfa_method = none;
      mfa_confirmed_at = none;
    },
    (delete_user_devices devices org_id user_id, delete_user_recovery_codes rows identity.id),
  )
