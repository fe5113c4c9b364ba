-- ===== src/Auth/Mfa/Devices.antt =====
-- A device is remembered until its time is over (app/services/mfa.py).
use sole_backend.Prelude.{
  ℕ, ◌≡◌, refl, true, ◌&&◌, none, some, List, [], ◌∷◌, map, leb, ◌==◌, if◌then◌else◌, keep, Text,
  eq_text, eq_text_refl, ok, arith,
}
use sole_backend.Auth.Mfa.{
  MfaDevice, touched, is_device_of, create_remember_device, find_valid_device,
}
use sole_backend.Auth.Mfa.Codes.{keep-append}

own_device :
    (org_id user_id : ℕ) (hash : Text)
    → ((org_id == org_id) && (user_id == user_id) && eq_text hash hash) ≡ true
own_device org_id user_id hash = ground (arith, eq_text_refl hash)

module _ (sha256 : Text → Text) where
  abbrev pub device_of : ℕ → ℕ → ℕ → ℕ → Text → ℕ → MfaDevice
  device_of new_id org_id user_id expires_at token now = record {
    id = new_id;
    org_id = org_id;
    user_id = user_id;
    token_hash = sha256 token;
    expires_at = expires_at;
    last_used_at = some now;
  }

  -- A device that is remembered with a token that no other device of the user has is found by that
  -- token before the time of its expiry, and then counts as just used; from that time on it is not
  -- found.
  pub device_remembered :
      (now later : ℕ) (devices : List MfaDevice) (new_id org_id user_id expires_at : ℕ)
      (token : Text)
      → keep (is_device_of sha256 org_id user_id (sha256 token)) devices ≡ []
      → let made =
          (create_remember_device sha256 now devices new_id org_id user_id expires_at token).0 in
        find_valid_device sha256 later made org_id user_id token ≡ (
          if leb expires_at later
          then ok (made, none)
          else ok (
            map (λ other. if other.id == new_id then touched sha256 later other else other) made,
            some (touched sha256 later (device_of new_id org_id user_id expires_at token now)),
          ))
  unfolding create_remember_device find_valid_device
  device_remembered now later devices new_id org_id user_id expires_at token alone =
      let p = is_device_of sha256 org_id user_id (sha256 token) in
      let new = device_of new_id org_id user_id expires_at token now in
      rw (keep-append p devices (new ∷ []), alone, own_device org_id user_id (sha256 token)) refl
