-- ===== src/Tests/Sessions.antt =====
-- The refresh of a token at concrete inputs.
use sole_backend.Prelude.{
  ◌≡◌, refl, true, false, none, some, Option, [], ◌∷◌, if◌then◌else◌, Text, codes, eq_text, upper,
  ok,
}
use sole_backend.Auth.Redis.{Keyspace, redis_key, strip_colon, lstrip_colon}
use sole_backend.Auth.LoginSecurity.{mark_refresh_used_atomic}
use sole_backend.Auth.Sessions.{
  SessionUser, SessionIdentity, SessionStore, SessionSettings, Claims, Required, RefreshRequest,
  presented_token, required_claims, authenticate, check_membership, membership_allows_auth,
  enforce_inactivity,
}
use sole_backend.Auth.Refresh.{check_refresh, refresh_tokens}
use sole_backend.Auth.Refresh.Revoked.{is_issued, refresh_tokens-revokes}
use sole_backend.Tests.Security.{table, settings, nothing}

abbrev times : SessionSettings
times = record {
  auth_refresh_cookie_enabled = true;
  session_timeout_minutes = 30;
  impersonation_max_minutes = 60;
  access_token_expire_minutes = 10;
}

abbrev user : SessionUser
user = record { id = 9; identity_id = 1; is_active = true; is_superuser = false }

abbrev identity : SessionIdentity
identity = record { id = 1; is_active = true; token_version = 3; last_active_at = some 2000 }

abbrev sessions : SessionStore
sessions = record {
  users = user ∷ [];
  identities = identity ∷ [];
  memberships =
      record {
        user_id = 9;
        org_id = 7;
        employment_status = none;
        platform_status = some (codes "active");
        invitation_status = some (codes "ACCEPTED");
      }
      ∷ [];
}

abbrev claims : Claims
claims = record {
  sub = some 9;
  tv = some 3;
  jti = some (codes "j");
  exp = some 100;
  org = some 7;
  iid = some 1;
  su = false;
  mfa = true;
  mfa_method = none;
  imp = none;
  imp_iid = none;
  imp_started = none;
}

abbrev decode : Text → Option Claims
decode token = if eq_text token (codes "old") then some claims else none

abbrev request : RefreshRequest
request = record {
  refresh_token = some (codes "old");
  refresh_cookie = none;
  csrf_header = none;
  csrf_cookie = none;
}

abbrev required : Required
required = record { user_id = 9; token_version = 3; jti = codes "j"; exp = 100 }

-- The token was used once.
abbrev used_once : Keyspace
used_once = (mark_refresh_used_atomic table settings 4000 (codes "j") 100 nothing).0

presented_run : presented_token times request ≡ ok (codes "old")
unfolding presented_token
presented_run = refl

decode_run : decode (codes "old") ≡ some claims
unfolding eq_text
decode_run = refl

check_run :
    check_refresh decode times sessions 7 request 5000 ≡ ok (claims, (required, (user, identity)))
unfolding check_refresh presented_token required_claims authenticate check_membership
    membership_allows_auth enforce_inactivity eq_text upper
check_run = refl

mark_run : (mark_refresh_used_atomic table settings 5000 (codes "j") 100 used_once).1 ≡ ok false
unfolding mark_refresh_used_atomic redis_key strip_colon lstrip_colon eq_text
mark_run = refl

refresh_tokens-revokes_example :
    is_issued
      (refresh_tokens decode times table settings
        (refresh_tokens decode times table settings sessions used_once 7 request 5000).0.0
        nothing
        7
        request
        6000).1
    ≡ false
refresh_tokens-revokes_example =
    refresh_tokens-revokes decode times table settings sessions used_once nothing 7 7 5000 6000
      request request (codes "old") (codes "old") claims claims required user identity presented_run
      decode_run check_run mark_run presented_run decode_run
      (record { same_user = refl; same_identity = refl; same_version = refl })
