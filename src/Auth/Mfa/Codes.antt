-- ===== src/Auth/Mfa/Codes.antt =====
-- Recovery codes work, and work once (app/services/mfa.py).
use sole_backend.Prelude.{
  map-append, ℕ, ◌≡◌, refl, sym, ap, subst, inl, inr, Bool, true, false, ◌&&◌, List, [], ◌∷◌, ◌++◌,
  map, ◌==◌, keep, All, Text, eq_text, eq_text_refl, ok, ok-injective, Bool-cases, arith,
}
use sole_backend.Auth.Mfa.{
  RecoveryCode, Drawn, normalized, recovery_code, mark_used, hash_recovery_code, row_of,
  delete_user_recovery_codes, generate_recovery_codes, is_open_code, consume, verify_recovery_code,
}

pub keep-append {ℓ} :
    {A : Type ℓ} (p : A → Bool) (xs ys : List A) → keep p (xs ++ ys) ≡ keep p xs ++ keep p ys
keep-append p [] ys = refl
keep-append p (x ∷ xs) ys = elim (Bool-cases (p x)) [
  | inl e ↦ rw (e, keep-append p xs ys) refl
  | inr e ↦ rw (e, keep-append p xs ys) refl
]

both_ways {ℓ} : {P : Type ℓ} (b : Bool) → b ≡ true → b ≡ false → P
both_ways b holds fails = cc

used_closed : (a b : Bool) → (a && b && false) ≡ false
used_closed a b = ground arith

-- What holds of all entries that are kept.
kept-All {ℓ κ} :
    {A : Type ℓ} (P : A → Type κ) (p : A → Bool) (xs : List A)
    → All P (keep p xs)
    → All (λ x. p x ≡ true → P x) xs
kept-All P p [] h = tt
kept-All P p (x ∷ xs) h = elim (Bool-cases (p x)) [
  | inl e ↦ let kept = rw e at h in ((λ _. kept.0), kept-All P p xs kept.1)
  | inr e ↦ ((λ holds. both_ways (p x) holds e), kept-All P p xs (rw e at h))
]

matches : (id : ℕ) (hash : Text) → ((id == id) && eq_text hash hash && true) ≡ true
matches id hash = ground (arith, eq_text_refl hash)

no_match : (a c : Bool) {b : Bool} → b ≡ false → (a && b && c) ≡ false
no_match a c h = ground (arith, h)

module _ (sha256 : Text → Text) where
  -- Once the rows that match are used, none matches.
  used_up :
      (now id identity_id : ℕ) (code_hash : Text) (rows : List RecoveryCode)
      → All
          (λ row. is_open_code sha256 identity_id code_hash row ≡ true → (row.id == id) ≡ true)
          rows
      → keep (is_open_code sha256 identity_id code_hash) (map (mark_used now id) rows) ≡ []
  used_up now id identity_id code_hash [] h = refl
  used_up now id identity_id code_hash (row ∷ rows) h =
      let rest = used_up now id identity_id code_hash rows h.1 in
      elim (Bool-cases (row.id == id)) [
        | inl e ↦
            rw (e, used_closed (row.identity_id == identity_id) (eq_text row.code_hash code_hash))
              rest
        | inr e ↦ elim (Bool-cases (is_open_code sha256 identity_id code_hash row)) [
          | inl fits ↦ both_ways (row.id == id) (h.0 fits) e
          | inr closed ↦ rw (e, closed) rest
        ]
      ]

  consume-once :
      (now identity_id : ℕ) (code_hash : Text) (rows found : List RecoveryCode)
      (after : List RecoveryCode)
      → keep (is_open_code sha256 identity_id code_hash) rows ≡ found
      → consume sha256 now rows found ≡ ok (after, true)
      → keep (is_open_code sha256 identity_id code_hash) after ≡ []
  consume-once now identity_id code_hash rows [] after e h =
      let never : false ≡ true = ap (λ p. p.1) (ok-injective h) in cc
  consume-once now identity_id code_hash rows (row ∷ []) after e h =
      subst (λ p. keep (is_open_code sha256 identity_id code_hash) p.0 ≡ []) (ok-injective h)
        (used_up now row.id identity_id code_hash rows (
          kept-All (λ r. (r.id == row.id) ≡ true) (is_open_code sha256 identity_id code_hash) rows
            (subst (All (λ r. (r.id == row.id) ≡ true)) (sym e) (ground arith, tt))))
  consume-once now identity_id code_hash rows (row ∷ other ∷ rest) after e h = cc

  -- A recovery code that was accepted is not accepted again, at any time, in whichever spelling of
  -- capitals and dashes.
  pub verify_recovery_code-once :
      (now later : ℕ) (rows after : List RecoveryCode) (identity_id : ℕ) (code again : Text)
      → verify_recovery_code sha256 now rows identity_id code ≡ ok (after, true)
      → normalized again ≡ normalized code
      → verify_recovery_code sha256 later after identity_id again ≡ ok (after, false)
  unfolding verify_recovery_code hash_recovery_code
  verify_recovery_code-once now later rows after identity_id code again h same =
      rw (same, consume-once now identity_id (sha256 (normalized code)) rows _ after refl h) refl

  -- A code that no other code of the list has the hash of.
  abbrev pub IsApart : Drawn → List Drawn → Type 0
  IsApart d = All (λ other.
      eq_text (hash_recovery_code sha256 (recovery_code other.characters))
        (hash_recovery_code sha256 (recovery_code d.characters))
      ≡ false)

  none_apart :
      (identity_id : ℕ) (d : Drawn) (others : List Drawn)
      → IsApart d others
      → keep
          (is_open_code sha256 identity_id (hash_recovery_code sha256 (recovery_code d.characters)))
          (map (row_of sha256 identity_id) others)
        ≡ []
  none_apart identity_id d [] apart = refl
  none_apart identity_id d (other ∷ others) apart =
      let rest = none_apart identity_id d others apart.1 in
      rw (no_match (identity_id == identity_id) true apart.0) rest

  none_deleted :
      (identity_id : ℕ) (code_hash : Text) (rows : List RecoveryCode)
      → keep
          (is_open_code sha256 identity_id code_hash)
          (delete_user_recovery_codes sha256 rows identity_id)
        ≡ []
  unfolding delete_user_recovery_codes
  none_deleted identity_id code_hash [] = refl
  none_deleted identity_id code_hash (row ∷ rows) =
      let rest = none_deleted identity_id code_hash rows in
      elim (Bool-cases (row.identity_id == identity_id)) [
        | inl e ↦ rw e rest
        | inr e ↦ rw (e, e) rest
      ]

  the_one :
      (rows : List RecoveryCode) (identity_id : ℕ) (before : List Drawn) (d : Drawn)
      (after : List Drawn)
      → IsApart d before
      → IsApart d after
      → keep
          (is_open_code sha256 identity_id (hash_recovery_code sha256 (recovery_code d.characters)))
          (delete_user_recovery_codes sha256 rows identity_id
            ++ map (row_of sha256 identity_id) (before ++ d ∷ after))
        ≡ row_of sha256 identity_id d ∷ []
  the_one rows identity_id before d after apart_before apart_after =
      let hash = hash_recovery_code sha256 (recovery_code d.characters) in
      let p = is_open_code sha256 identity_id hash in
      let f = row_of sha256 identity_id in
      rw
        (
          keep-append p (delete_user_recovery_codes sha256 rows identity_id)
              (map f (before ++ d ∷ after)),
          none_deleted identity_id hash rows,
          map-append f before (d ∷ after),
          keep-append p (map f before) (map f (d ∷ after)),
          none_apart identity_id d before apart_before,
          matches identity_id hash,
          none_apart identity_id d after apart_after,
        )
        refl

  -- Of the codes that are made for a user, each whose hash no other has is accepted, in whichever
  -- spelling of capitals and dashes it is typed, whatever codes there were before.
  pub generated_accepted :
      (now : ℕ) (rows : List RecoveryCode) (identity_id : ℕ) (before : List Drawn) (d : Drawn)
      (after : List Drawn) (typed : Text)
      → IsApart d before
      → IsApart d after
      → normalized typed ≡ normalized (recovery_code d.characters)
      → let made = (generate_recovery_codes sha256 rows identity_id (before ++ d ∷ after)).0 in
        verify_recovery_code sha256 now made identity_id typed
        ≡ ok (map (mark_used now d.id) made, true)
  unfolding generate_recovery_codes verify_recovery_code hash_recovery_code
  generated_accepted now rows identity_id before d after typed apart_before apart_after same =
      rw (same, the_one rows identity_id before d after apart_before apart_after) refl
