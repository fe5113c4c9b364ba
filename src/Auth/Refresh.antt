-- ===== src/Auth/Refresh.antt =====
-- The handler `refresh_tokens` of app/api/v1/routers/auth.py.
pub mod Revoked
use sole_backend.Prelude.{
  ℕ, suc, ◌+◌, ◌-◌, ◌*◌, ◌≤◌, Bool, true, false, not, ◌&&◌, ◌||◌, Option, none, some, List, [], ◌∷◌,
  map, ltb, leb, min, ◌==◌, if◌then◌else◌, keep, find_first, Text, codes, eq_text, upper, Result,
  ok, err, ◌>>=◌, ◌>>◌, raise_if, or_raise,
}
use sole_backend.Auth.Redis.{Redis}
use sole_backend.Auth.LoginSecurity.{SecuritySettings, HttpError, mark_refresh_used_atomic}
use sole_backend.Auth.Sessions.{
  SessionUser, SessionIdentity, SessionStore, SessionSettings, Claims, RefreshRequest, RefreshError,
  undecodable, reuse_detected, http_error, Issued, Required, presented_token, required_claims,
  authenticate, save_identity, issue,
}

abbrev pub active_at : SessionIdentity → ℕ → SessionIdentity
active_at identity now = record identity { last_active_at = some now }

-- After the token is marked: a token that was used before revokes all tokens of its version.
abbrev pub after_mark :
    SessionSettings
    → ℕ
    → Claims
    → ℕ
    → SessionUser
    → SessionIdentity
    → SessionStore
    → Result HttpError Bool
    → SessionStore × Result RefreshError Issued
after_mark settings now claims org_id user identity db (err e) = (db, err (http_error e))
after_mark settings now claims org_id user identity db (ok true) =
    (db, issue settings now claims org_id user identity)
after_mark settings now claims org_id user identity db (ok false) = (
  save_identity (record identity { token_version = suc identity.token_version }) db,
  err reuse_detected,
)

abbrev pub Ready : Type 0
Ready = Claims × (Required × (SessionUser × SessionIdentity))

-- Tokens are decoded by a library; a token that is not valid gives nothing.
module _ (decode_token : Text → Option Claims) (settings : SessionSettings) where
  unfoldable pub check_refresh : SessionStore → ℕ → RefreshRequest → ℕ → Result RefreshError Ready
  check_refresh db org_id request now = do
    token ← presented_token settings request
    claims ← or_raise (decode_token token) undecodable
    required ← required_claims claims org_id
    found ← authenticate settings db claims required org_id now
    ok (claims, (required, found))

  module _ {S : Type 0} (redis : Redis S) (security : SecuritySettings) where
    abbrev pub finish_refresh :
        SessionStore
        → S
        → ℕ
        → ℕ
        → Result RefreshError Ready
        → (SessionStore × S) × Result RefreshError Issued
    finish_refresh db s org_id now (err e) = ((db, s), err e)
    finish_refresh db s org_id now (ok (claims, (required, (user, identity)))) =
        let marked = mark_refresh_used_atomic redis security now required.jti required.exp s in
        let active = active_at identity now in
        let done =
          after_mark settings now claims org_id user active (save_identity active db) marked.1 in
        ((done.0, marked.0), done.1)

    unfoldable pub refresh_tokens :
        SessionStore → S → ℕ → RefreshRequest → ℕ → (SessionStore × S) × Result RefreshError Issued
    refresh_tokens db s org_id request now =
        finish_refresh db s org_id now (check_refresh db org_id request now)
