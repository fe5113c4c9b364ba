-- ===== src/Tests/Security.antt =====
-- Logins and the second factor at concrete inputs, with a Redis that never fails.
use sole_backend.Prelude.{
  ℕ, Bool, ◌≤◌, ◌≡◌, refl, inl, true, false, some, none, List, [], ◌∷◌, map, Text, codes, eq_text,
  upper, ok, arith, if◌then◌else◌, ◌==◌,
}
use sole_backend.Auth.Redis.{
  Keyspace, live, counted, is_there, is_absent, after_incr, after_expire, after_setex, after_set_nx,
  after_delete, Redis,
}
use sole_backend.Auth.LoginSecurity.{SecuritySettings}
use sole_backend.Auth.LoginSecurity.SingleUse.{Use, accepted, accepted_once}
use sole_backend.Auth.LoginSecurity.Passes.{Call, passes_of, mfa_passes}
use sole_backend.Auth.LoginSecurity.{key_of, enforce_mfa_rate_limit}
use sole_backend.Auth.Login.{Identity, check_credentials, constant_time_verify}
use sole_backend.Auth.Login.Guesses.{Attempt, guesses, few_guesses}
use sole_backend.Auth.Mfa.{
  RecoveryCode, Drawn, MfaDevice, normalized, recovery_code, hash_recovery_code, mark_used,
  generate_recovery_codes, verify_recovery_code, create_remember_device, find_valid_device, touched,
}
use sole_backend.Auth.Mfa.Codes.{verify_recovery_code-once, generated_accepted}
use sole_backend.Auth.Mfa.Devices.{device_remembered, device_of}

abbrev pub table : Redis Keyspace
table = record {
  keys = λ s. s;
  incr = λ now key s. (after_incr now key s, some (counted (live now (s key))));
  incr_expire = λ now ttl key s.
      (after_expire now ttl key (after_incr now key s), some (counted (live now (s key))));
  expire = λ now ttl key s. (after_expire now ttl key s, some (is_there (live now (s key))));
  setex = λ now ttl key s. (after_setex now ttl key s, some true);
  set_nx = λ now ttl key s. (after_set_nx now ttl key s, some (is_absent (live now (s key))));
  get = λ now key s. (s, some (is_there (live now (s key))));
  delete = λ now key s. (after_delete key s, some (is_there (live now (s key))));
  incr_obeys = λ now key s. inl ((λ k. refl), refl);
  incr_expire_obeys = λ now ttl key s. inl ((λ k. refl), refl);
  expire_obeys = λ now ttl key s. inl ((λ k. refl), refl);
  setex_obeys = λ now ttl key s. inl ((λ k. refl), refl);
  set_nx_obeys = λ now ttl key s. inl ((λ k. refl), refl);
  get_obeys = λ now key s. inl ((λ k. refl), refl);
  delete_obeys = λ now key s. inl ((λ k. refl), refl);
}

abbrev pub settings : SecuritySettings
settings = record {
  redis_key_prefix = codes "sole";
  rate_limit_per_minute = 10;
  login_attempt_limit = 3;
  login_lockout_minutes = 15;
}

abbrev pub nothing : Keyspace
nothing key = none

abbrev expiry : Text → ℕ
expiry jti = 100

abbrev token_uses : List Use
token_uses =
    record { now = 5000; jti = codes "a" }
    ∷ record { now = 5000; jti = codes "b" }
    ∷ record { now = 9000; jti = codes "a" }
    ∷ []

accepted_once_example : accepted table settings expiry (codes "a") token_uses nothing ≤ 1
accepted_once_example =
    accepted_once table settings expiry (codes "a") 0 token_uses nothing
      (omega arith, (omega arith, (omega arith, tt)))

abbrev calls : List Call
calls = record { now = 1000; name = codes "t" } ∷ record { now = 2000; name = codes "t" } ∷ []

mfa_passes_example :
    passes_of table
      (λ c. enforce_mfa_rate_limit table settings c.now c.name)
      (key_of table settings (codes "mfa_attempt"))
      (codes "t")
      calls
      nothing
    ≤ 5
mfa_passes_example =
    mfa_passes table settings (codes "t") 0 calls nothing
      ((omega arith, omega arith), ((omega arith, omega arith), tt))

abbrev is_password : Text → Text → Bool
is_password password hash = eq_text password hash

abbrev someone : Identity
someone = record {
  id = 1;
  email = codes "a@b.c";
  hashed_password = codes "secret";
  is_active = true;
  must_change_password = false;
}

abbrev wrong_try : ℕ → Attempt
wrong_try now = record {
  now = now;
  ip = codes "::1";
  password = codes "guess";
  identities = someone ∷ [];
}

abbrev token : ℕ → Text
token id = codes "token"

abbrev tries : List Attempt
tries = wrong_try 1000 ∷ wrong_try 2000 ∷ wrong_try 3000 ∷ []

wrong_password :
    check_credentials is_password (someone ∷ []) (codes "a@b.c") (codes "guess") ≡ ok none
unfolding check_credentials constant_time_verify eq_text
wrong_password = refl

few_guesses_example : guesses table settings is_password token (codes "a@b.c") tries nothing ≤ 2
few_guesses_example = few_guesses table settings is_password token (codes "a@b.c") tries nothing 0 (
  (omega arith, omega arith, wrong_password),
  ((omega arith, omega arith, wrong_password), ((omega arith, omega arith, wrong_password), tt)),
)

-- A stand-in for SHA-256.
abbrev digest : Text → Text
digest s = s

abbrev one_code : RecoveryCode
one_code = record { id = 4; identity_id = 1; code_hash = codes "AB2"; used_at = none }

abbrev spent_code : RecoveryCode
spent_code = record one_code { used_at = some 50 }

code_run :
    verify_recovery_code digest 50 (one_code ∷ []) 1 (codes "ab-2") ≡ ok (spent_code ∷ [], true)
unfolding verify_recovery_code hash_recovery_code normalized upper eq_text
code_run = refl

verify_recovery_code-once_example :
    verify_recovery_code digest 60 (spent_code ∷ []) 1 (codes "AB2") ≡ ok (spent_code ∷ [], false)
unfolding normalized upper
verify_recovery_code-once_example =
    verify_recovery_code-once digest 50 60 (one_code ∷ []) (spent_code ∷ []) 1 (codes "ab-2")
      (codes "AB2") code_run refl

abbrev drawn : ℕ → Text → Drawn
drawn id characters = record { id = id; characters = characters }

abbrev first_drawn : Drawn
first_drawn = drawn 8 (codes "AAAABBBB")

abbrev second_drawn : Drawn
second_drawn = drawn 9 (codes "CCCCDDDD")

abbrev made_codes : List RecoveryCode
made_codes = (generate_recovery_codes digest (one_code ∷ []) 1 (first_drawn ∷ second_drawn ∷ [])).0

generated_accepted_example :
    verify_recovery_code digest 70 made_codes 1 (codes "ccccdddd")
    ≡ ok (map (mark_used 70 9) made_codes, true)
unfolding normalized upper recovery_code hash_recovery_code eq_text
generated_accepted_example =
    generated_accepted digest 70 (one_code ∷ []) 1 (first_drawn ∷ []) second_drawn []
      (codes "ccccdddd") (refl, tt) tt refl

abbrev phone : MfaDevice
phone = device_of digest 3 7 9 500 (codes "raw") 100

device_remembered_example :
    find_valid_device digest 200
      (create_remember_device digest 100 [] 3 7 9 500 (codes "raw")).0
      7
      9
      (codes "raw")
    ≡ ok (
      map
          (λ other. if other.id == 3 then touched digest 200 other else other)
          (create_remember_device digest 100 [] 3 7 9 500 (codes "raw")).0,
      some (touched digest 200 phone),
    )
device_remembered_example = device_remembered digest 100 200 [] 3 7 9 500 (codes "raw") refl
