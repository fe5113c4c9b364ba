-- ===== src/Auth/Sessions.antt =====
-- What a refresh of tokens checks (`refresh_tokens` of app/api/v1/routers/auth.py, with
-- `enforce_inactivity` and `membership_allows_auth` of app/api/deps.py). Times are milliseconds, claims
-- are in seconds.
use sole_backend.Prelude.{
  ℕ, ◌+◌, ◌-◌, ◌*◌, Bool, true, false, not, ◌&&◌, ◌||◌, Option, none, some, List, [], ◌∷◌, map, ltb,
  leb, min, ◌==◌, if◌then◌else◌, keep, find_first, Text, codes, eq_text, upper, Result, ok, err,
  ◌>>=◌, ◌>>◌, raise_if, or_raise,
}
use sole_backend.Auth.LoginSecurity.{HttpError}

-- The columns of app/models/user.py, identity.py and org_membership.py that are read.
pub record SessionUser : Type 0 where
  pub id : ℕ
  pub identity_id : ℕ
  pub is_active : Bool
  pub is_superuser : Bool

pub record SessionIdentity : Type 0 where
  pub id : ℕ
  pub is_active : Bool
  pub token_version : ℕ
  pub last_active_at : Option ℕ

pub record SessionMembership : Type 0 where
  pub user_id : ℕ
  pub org_id : ℕ
  pub employment_status : Option Text
  pub platform_status : Option Text
  pub invitation_status : Option Text

pub record SessionStore : Type 0 where
  pub users : List SessionUser
  pub identities : List SessionIdentity
  pub memberships : List SessionMembership

-- The payload of a refresh token.
pub record Claims : Type 0 where
  pub sub : Option ℕ
  pub tv : Option ℕ
  pub jti : Option Text
  pub exp : Option ℕ
  pub org : Option ℕ
  pub iid : Option ℕ
  pub su : Bool
  pub mfa : Bool
  pub mfa_method : Option Text
  pub imp : Option ℕ
  pub imp_iid : Option ℕ
  pub imp_started : Option ℕ

-- The token of the body, the cookies and the header of a request.
pub record RefreshRequest : Type 0 where
  pub refresh_token : Option Text
  pub refresh_cookie : Option Text
  pub csrf_header : Option Text
  pub csrf_cookie : Option Text

pub record SessionSettings : Type 0 where
  pub auth_refresh_cookie_enabled : Bool
  pub session_timeout_minutes : ℕ
  pub impersonation_max_minutes : ℕ
  pub access_token_expire_minutes : ℕ

pub data RefreshError : Type 0 where
  token_required csrf_failed undecodable invalid_token org_missing : RefreshError
  tenant_mismatch user_not_found identity_inactive token_revoked : RefreshError
  not_a_member membership_inactive session_expired reuse_detected : RefreshError
  impersonation_unstarted impersonation_expired multiple_rows : RefreshError
  http_error : HttpError → RefreshError

-- What the new tokens are made of; lifetimes are milliseconds, none is the usual one.
pub record Issued : Type 0 where
  pub user_id : ℕ
  pub identity_id : ℕ
  pub org_id : ℕ
  pub token_version : ℕ
  pub mfa : Bool
  pub mfa_method : Option Text
  pub imp : Option ℕ
  pub imp_iid : Option ℕ
  pub access_lifetime : Option ℕ
  pub refresh_lifetime : Option ℕ

-- An empty text counts as none.
abbrev pub given : Option Text → Option Text
given none = none
given (some []) = none
given (some (c ∷ s)) = some (c ∷ s)

abbrev pub same_given : Option Text → Option Text → Bool
same_given (some a) (some b) = eq_text a b
same_given _ _ = false

-- The token, and whether it is that of the cookie.
abbrev pub token_from : Option Text → Option Text → Option (Text × Bool)
token_from (some token) cookie = some (token, false)
token_from none (some token) = some (token, true)
token_from none none = none

unfoldable pub presented_token : SessionSettings → RefreshRequest → Result RefreshError Text
presented_token settings request = do
  (token, used_cookie) ←
      or_raise (token_from (given request.refresh_token) (given request.refresh_cookie))
        token_required
  raise_if
      (used_cookie
        && settings.auth_refresh_cookie_enabled
        && not (same_given (given request.csrf_header) (given request.csrf_cookie)))
      csrf_failed
  ok token

abbrev pub status_text : Option Text → Text
status_text none = []
status_text (some status) = upper status

abbrev pub employed : Text → Bool
employed [] = true
employed (c ∷ s) = eq_text (c ∷ s) (codes "ACTIVE")

unfoldable pub membership_allows_auth : SessionMembership → Bool → Bool
membership_allows_auth m allow_pending =
    let platform = status_text m.platform_status in
    let invitation = status_text m.invitation_status in
    employed (status_text m.employment_status)
    && (if allow_pending
        then (eq_text platform (codes "ACTIVE") || eq_text platform (codes "INVITED"))
          && (eq_text invitation (codes "PENDING") || eq_text invitation (codes "ACCEPTED"))
        else eq_text platform (codes "ACTIVE") && eq_text invitation (codes "ACCEPTED"))

unfoldable pub enforce_inactivity : SessionSettings → Option ℕ → ℕ → Result RefreshError (Unit {0})
enforce_inactivity settings none now = ok tt
enforce_inactivity settings (some last_active_at) now =
    raise_if (ltb (settings.session_timeout_minutes * 60000) (now - last_active_at)) session_expired

abbrev pub one_membership : List SessionMembership → Result RefreshError (Option SessionMembership)
one_membership [] = ok none
one_membership (m ∷ []) = ok (some m)
one_membership (m ∷ other ∷ rest) = err multiple_rows

unfoldable pub check_membership : SessionStore → SessionUser → ℕ → Result RefreshError (Unit {0})
check_membership db user org_id = elim user.is_superuser [
  | true ↦ ok tt
  | false ↦ do
    found ←
        one_membership (keep (λ m. (m.org_id == org_id) && (m.user_id == user.id)) db.memberships)
    membership ← or_raise found not_a_member
    raise_if (not (membership_allows_auth membership true)) membership_inactive
]

abbrev pub identity_with : SessionStore → ℕ → Option SessionIdentity
identity_with db id = find_first (λ i. i.id == id) db.identities

-- `db.get` by the claim; where there is none, the identity of the user.
abbrev pub or_identity : Option SessionIdentity → Option SessionIdentity → Option SessionIdentity
or_identity none other = other
or_identity (some identity) other = some identity

abbrev pub identity_for : SessionStore → Option ℕ → SessionUser → Option SessionIdentity
identity_for db none user = identity_with db user.identity_id
identity_for db (some iid) user =
    or_identity (identity_with db iid) (identity_with db user.identity_id)

-- The claims that a token cannot do without.
pub record Required : Type 0 where
  pub user_id : ℕ
  pub token_version : ℕ
  pub jti : Text
  pub exp : ℕ

unfoldable pub required_claims : Claims → ℕ → Result RefreshError Required
required_claims claims org_id = do
  user_id ← or_raise claims.sub invalid_token
  token_version ← or_raise claims.tv invalid_token
  jti ← or_raise (given claims.jti) invalid_token
  exp ← or_raise claims.exp invalid_token
  raise_if (exp == 0) invalid_token
  org ← or_raise claims.org org_missing
  raise_if (not (org == org_id) && not claims.su) tenant_mismatch
  ok (record { user_id = user_id; token_version = token_version; jti = jti; exp = exp })

-- The user and the identity of a token that may be refreshed.
unfoldable pub authenticate :
    SessionSettings
    → SessionStore
    → Claims
    → Required
    → ℕ
    → ℕ
    → Result RefreshError (SessionUser × SessionIdentity)
authenticate settings db claims required org_id now = do
  user ← or_raise (find_first (λ u. u.id == required.user_id) db.users) user_not_found
  raise_if (not user.is_active) user_not_found
  identity ← or_raise (identity_for db claims.iid user) identity_inactive
  raise_if (not identity.is_active) identity_inactive
  raise_if (not (identity.token_version == required.token_version)) token_revoked
  check_membership db user org_id
  enforce_inactivity settings identity.last_active_at now
  ok (user, identity)

abbrev pub save_identity : SessionIdentity → SessionStore → SessionStore
save_identity identity db = record db {
  identities = map (λ row. if row.id == identity.id then identity else row) db.identities;
}

-- What is left of an impersonation, which ends a fixed time after its start.
unfoldable pub remaining_lifetime : SessionSettings → ℕ → Claims → Result RefreshError (Option ℕ)
remaining_lifetime settings now claims = elim claims.imp [
  | none ↦ ok none
  | some impersonator ↦ do
    started_at ← or_raise claims.imp_started impersonation_unstarted
    let end = 1000 * started_at + settings.impersonation_max_minutes * 60000
    raise_if (leb end now) impersonation_expired
    ok (some (end - now))
]

abbrev pub capped : SessionSettings → Option ℕ → Option ℕ
capped settings none = none
capped settings (some remaining) =
    some (min remaining (settings.access_token_expire_minutes * 60000))

unfoldable pub issue :
    SessionSettings → ℕ → Claims → ℕ → SessionUser → SessionIdentity → Result RefreshError Issued
issue settings now claims org_id user identity = do
  remaining ← remaining_lifetime settings now claims
  ok (record {
    user_id = user.id;
    identity_id = identity.id;
    org_id = org_id;
    token_version = identity.token_version;
    mfa = claims.mfa;
    mfa_method = claims.mfa_method;
    imp = claims.imp;
    imp_iid = claims.imp_iid;
    access_lifetime = capped settings remaining;
    refresh_lifetime = remaining;
  })
