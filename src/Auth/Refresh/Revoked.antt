-- ===== src/Auth/Refresh/Revoked.antt =====
-- After the reuse of a token is detected (`refresh_tokens` of app/api/v1/routers/auth.py).
use sole_backend.Prelude.{
  ℕ, suc, ◌≡◌, refl, sym, ap, subst, ◌∙◌, inl, inr, Bool, true, false, not, Option, none, some,
  List, [], ◌∷◌, map, ◌==◌, if◌then◌else◌, find_first, Text, Result, ok, err, or_raise,
  or_raise-found, passes, ok-injective, raise_if-passed, Bool-cases, ◌&&◌, arith,
}
use sole_backend.Auth.Redis.{Redis}
use sole_backend.Auth.LoginSecurity.{SecuritySettings, mark_refresh_used_atomic}
use sole_backend.Auth.Sessions.{
  SessionUser, SessionIdentity, SessionStore, Claims, RefreshRequest, SessionSettings, RefreshError,
  token_revoked, Issued, Required, given, or_identity, authenticate, required_claims, identity_for,
  identity_with, save_identity, presented_token, check_membership, enforce_inactivity,
}
use sole_backend.Auth.Refresh.{Ready, active_at, check_refresh, finish_refresh, refresh_tokens}

abbrev saved_row : SessionIdentity → SessionIdentity → SessionIdentity
saved_row identity row = if row.id == identity.id then identity else row

abbrev saved_in : SessionIdentity → Option SessionIdentity → Option SessionIdentity
saved_in identity none = none
saved_in identity (some row) = some (saved_row identity row)

saved_id : (identity row : SessionIdentity) → (saved_row identity row).id ≡ row.id
saved_id identity row = elim (Bool-cases (row.id == identity.id)) [
  | inl e ↦ rw e (ground (arith, e))
  | inr e ↦ rw e refl
]

-- What is found after a row is saved.
find-saved :
    (identity : SessionIdentity) (id : ℕ) (rows : List SessionIdentity)
    → find_first (λ i. i.id == id) (map (saved_row identity) rows)
      ≡ saved_in identity (find_first (λ i. i.id == id) rows)
find-saved identity id [] = refl
find-saved identity id (row ∷ rows) = elim (Bool-cases (row.id == id)) [
  | inl e ↦ rw (saved_id identity row, e) refl
  | inr e ↦ rw (saved_id identity row, e) (find-saved identity id rows)
]

saved_in-or :
    (identity : SessionIdentity) (a b : Option SessionIdentity)
    → saved_in identity (or_identity a b) ≡ or_identity (saved_in identity a) (saved_in identity b)
saved_in-or identity none b = refl
saved_in-or identity (some row) b = refl

-- The identity of a token, after one is saved.
identity_for-saved :
    (identity : SessionIdentity) (db : SessionStore) (iid : Option ℕ) (user : SessionUser)
    → identity_for (save_identity identity db) iid user
      ≡ saved_in identity (identity_for db iid user)
identity_for-saved identity db none user = find-saved identity user.identity_id db.identities
identity_for-saved identity db (some iid) user =
    ap (λ o. or_identity o (identity_with (save_identity identity db) user.identity_id))
      (find-saved identity iid db.identities)
    ∙ ap (or_identity (saved_in identity (identity_with db iid)))
        (find-saved identity user.identity_id db.identities)
    ∙ sym (saved_in-or identity (identity_with db iid) (identity_with db user.identity_id))

own_row :
    (identity row : SessionIdentity) → row.id ≡ identity.id → saved_row identity row ≡ identity
own_row identity row same = elim (Bool-cases (row.id == identity.id)) [
  | inl e ↦ rw e refl
  | inr e ↦ absurd (ground (arith, same, e))
]

-- The claims that are required are those of the token.
required-claims :
    (claims : Claims) (org_id : ℕ) (r : Required)
    → required_claims claims org_id ≡ ok r
    → (claims.sub ≡ some r.user_id) × (claims.tv ≡ some r.token_version)
unfolding required_claims
required-claims claims org_id r h =
    let (user_id, u, h1) = passes (or_raise claims.sub RefreshError.invalid_token) _ h in
    let (token_version, t, h2) = passes (or_raise claims.tv RefreshError.invalid_token) _ h1 in
    let (jti, j, h3) = passes (or_raise (given claims.jti) RefreshError.invalid_token) _ h2 in
    let (exp, x, h4) = passes (or_raise claims.exp RefreshError.invalid_token) _ h3 in
    let h5 = raise_if-passed (exp == 0) RefreshError.invalid_token _ h4 in
    let (org, o, h6) = passes (or_raise claims.org RefreshError.org_missing) _ h5.1 in
    let h7 =
      raise_if-passed (not (org == org_id) && not claims.su) RefreshError.tenant_mismatch _ h6 in
    let same = ok-injective h7.1 in
    (
      or_raise-found _ _ _ u ∙ ap (λ q. some q.user_id) same,
      or_raise-found _ _ _ t ∙ ap (λ q. some q.token_version) same,
    )

-- What lets a token through.
pub record IsAuthentic (db : SessionStore) (claims : Claims) (required : Required)
    (user : SessionUser) (identity : SessionIdentity) : Type 0 where
  pub user_found : find_first (λ u. u.id == required.user_id) db.users ≡ some user
  pub identity_found : identity_for db claims.iid user ≡ some identity
  pub current : identity.token_version ≡ required.token_version

authenticate-IsAuthentic :
    (settings : SessionSettings) (db : SessionStore) (claims : Claims) (required : Required)
    (org_id now : ℕ) (user : SessionUser) (identity : SessionIdentity)
    → authenticate settings db claims required org_id now ≡ ok (user, identity)
    → IsAuthentic db claims required user identity
unfolding authenticate
authenticate-IsAuthentic settings db claims required org_id now user identity h =
    let (u, found, h1) =
      passes
        (or_raise (find_first (λ u. u.id == required.user_id) db.users) RefreshError.user_not_found)
        _ h in
    let h2 = raise_if-passed (not u.is_active) RefreshError.user_not_found _ h1 in
    let (i, there, h3) =
      passes (or_raise (identity_for db claims.iid u) RefreshError.identity_inactive) _ h2.1 in
    let h4 = raise_if-passed (not i.is_active) RefreshError.identity_inactive _ h3 in
    let h5 =
      raise_if-passed (not (i.token_version == required.token_version)) token_revoked _ h4.1 in
    let (a, m, h6) = passes (check_membership db u org_id) _ h5.1 in
    let (b, e, h7) = passes (enforce_inactivity settings i.last_active_at now) _ h6 in
    subst (λ p. IsAuthentic db claims required p.0 p.1) (ok-injective h7)
      (record {
        user_found = or_raise-found _ _ _ found;
        identity_found = or_raise-found _ _ _ there;
        current = ground (arith, h5.0);
      })

abbrev pub is_issued : Result RefreshError Issued → Bool
is_issued (ok issued) = true
is_issued (err e) = false

-- Tokens of one user and identity, of one version.
pub record AreAlike (claims other : Claims) : Type 0 where
  pub same_user : other.sub ≡ claims.sub
  pub same_identity : other.iid ≡ claims.iid
  pub same_version : other.tv ≡ claims.tv

-- What a store is left with when the reuse of a token is detected.
abbrev revoked_in : SessionIdentity → ℕ → SessionStore → SessionStore
revoked_in identity now db =
    save_identity (record (active_at identity now) { token_version = suc identity.token_version })
      (save_identity (active_at identity now) db)

revoked-found :
    (db : SessionStore) (iid : Option ℕ) (user : SessionUser) (identity : SessionIdentity) (now : ℕ)
    → identity_for db iid user ≡ some identity
    → identity_for (revoked_in identity now db) iid user
      ≡ some (record (active_at identity now) { token_version = suc identity.token_version })
revoked-found db iid user identity now found =
    let active = active_at identity now in
    let bumped = record active { token_version = suc identity.token_version } in
    identity_for-saved bumped (save_identity active db) iid user
    ∙ ap (saved_in bumped) (identity_for-saved active db iid user)
    ∙ ap (λ o. saved_in bumped (saved_in active o)) found
    ∙ ap (λ row. some (saved_row bumped row)) (own_row active identity refl)
    ∙ ap some (own_row bumped active refl)

some_injective : {A : Type 0} {a b : A} → ◌≡◌ {A = Option A} (some a) (some b) → a ≡ b
some_injective {a} h = ap (λ o. elim o [ none ↦ a | some x ↦ x ]) h

-- No token of the version is authentic any more.
none_authentic :
    (db : SessionStore) (claims other : Claims) (required required' : Required)
    (user user' : SessionUser) (identity identity' : SessionIdentity) (now : ℕ)
    → AreAlike claims other
    → (claims.sub ≡ some required.user_id) × (claims.tv ≡ some required.token_version)
    → (other.sub ≡ some required'.user_id) × (other.tv ≡ some required'.token_version)
    → IsAuthentic db claims required user identity
    → IsAuthentic (revoked_in identity now db) other required' user' identity'
    → ⊥
none_authentic db claims other required required' user user' identity identity' now alike of_claims
      of_other first again =
    let ids : required'.user_id ≡ required.user_id =
      some_injective (sym of_other.0 ∙ alike.same_user ∙ of_claims.0) in
    let versions : required'.token_version ≡ required.token_version =
      some_injective (sym of_other.1 ∙ alike.same_version ∙ of_claims.1) in
    let users : user' ≡ user = some_injective (
      sym again.user_found
      ∙ ap (λ id. find_first (λ u. u.id == id) db.users) ids
      ∙ first.user_found) in
    let found = revoked-found db claims.iid user identity now first.identity_found in
    let again_found : identity_for (revoked_in identity now db) claims.iid user ≡ some identity' =
      ap (λ iid. identity_for (revoked_in identity now db) iid user) (sym alike.same_identity)
      ∙ ap (identity_for (revoked_in identity now db) other.iid) (sym users)
      ∙ again.identity_found in
    let bumped : suc identity.token_version ≡ identity'.token_version =
      ap (λ i. i.token_version) (some_injective (sym found ∙ again_found)) in
    absurd (omega (arith, bumped, again.current, versions, first.current))

module _ (decode_token : Text → Option Claims) (settings : SessionSettings) where
  -- A request that passes all checks has an authentic token.
  checked-IsAuthentic :
      (db : SessionStore) (org_id : ℕ) (request : RefreshRequest) (now : ℕ) (token : Text)
      (claims : Claims) (ready : Ready)
      → presented_token settings request ≡ ok token
      → decode_token token ≡ some claims
      → check_refresh decode_token settings db org_id request now ≡ ok ready
      → ((claims.sub ≡ some ready.1.0.user_id) × (claims.tv ≡ some ready.1.0.token_version))
        × IsAuthentic db claims ready.1.0 ready.1.1.0 ready.1.1.1
        × (ready.0 ≡ claims)
  unfolding check_refresh
  checked-IsAuthentic db org_id request now token claims ready presented decoded h =
      let (t, p, h1) = passes (presented_token settings request) _ h in
      let (c, d, h2) = passes (or_raise (decode_token t) RefreshError.undecodable) _ h1 in
      let (required, r, h3) = passes (required_claims c org_id) _ h2 in
      let (found, a, h4) = passes (authenticate settings db c required org_id now) _ h3 in
      let token_is : t ≡ token = ok-injective (sym p ∙ presented) in
      let claims_are : c ≡ claims =
        some_injective (sym (or_raise-found _ _ _ d) ∙ ap decode_token token_is ∙ decoded) in
      let authentic =
        authenticate-IsAuthentic settings db c required org_id now found.0 found.1 a in
      subst
        (λ q.
          ((claims.sub ≡ some q.1.0.user_id) × (claims.tv ≡ some q.1.0.token_version))
          × IsAuthentic db claims q.1.0 q.1.1.0 q.1.1.1
          × (q.0 ≡ claims))
        (ok-injective h4)
        (
          subst (λ x. (x.sub ≡ some required.user_id) × (x.tv ≡ some required.token_version))
              claims_are (required-claims c org_id required r),
          subst (λ x. IsAuthentic db x required found.0 found.1) claims_are authentic,
          claims_are,
        )

  module _ {S : Type 0} (redis : Redis S) (security : SecuritySettings) where
    unchecked :
        (db : SessionStore) (s : S) (org_id now : ℕ) (result : Result RefreshError Ready)
        → ((ready : Ready) → result ≡ ok ready → ⊥)
        → is_issued (finish_refresh decode_token settings redis security db s org_id now result).1
          ≡ false
    unchecked db s org_id now (err e) never = refl
    unchecked db s org_id now (ok ready) never = absurd (never ready refl)

    -- Where a token passes all checks but was used before, then from the store that its refresh
    -- leaves no token for the same user and identity and of the same version is refreshed, that one
    -- included, at any time, in any organisation and whatever Redis says.
    pub refresh_tokens-revokes :
        (db : SessionStore) (s s' : S) (org_id org_id' now later : ℕ)
        (request request' : RefreshRequest) (token token' : Text) (claims other : Claims)
        (required : Required) (user : SessionUser) (identity : SessionIdentity)
        → presented_token settings request ≡ ok token
        → decode_token token ≡ some claims
        → check_refresh decode_token settings db org_id request now
          ≡ ok (claims, (required, (user, identity)))
        → (mark_refresh_used_atomic redis security now required.jti required.exp s).1 ≡ ok false
        → presented_token settings request' ≡ ok token'
        → decode_token token' ≡ some other
        → AreAlike claims other
        → let after =
            (refresh_tokens decode_token settings redis security db s org_id request now).0.0 in
          is_issued
            (refresh_tokens decode_token settings redis security after s' org_id' request' later).1
          ≡ false
    unfolding refresh_tokens
    refresh_tokens-revokes db s s' org_id org_id' now later request request' token token' claims
          other required user identity presented decoded passed reused presented' decoded' alike =
        let first =
          checked-IsAuthentic db org_id request now token claims _ presented decoded passed in
        rw (passed, reused)
          (unchecked (revoked_in identity now db) s' org_id' later _ (λ ready again.
            let second =
              checked-IsAuthentic (revoked_in identity now db) org_id' request' later token' other
                ready presented' decoded' again in
            none_authentic db claims other required ready.1.0 user ready.1.1.0 identity ready.1.1.1
              now alike first.0 second.0 first.1 second.1))
