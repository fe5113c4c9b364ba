-- ===== src/Auth/Redis.antt =====
-- What the services rely on of Redis, and the names of its keys (app/utils/redis_client.py). Times
-- are milliseconds, lifetimes seconds.
pub mod Keys
pub mod Counters
use mathlib.Core.List.{reverse}
use sole_backend.Prelude.{
  ℕ, suc, ◌+◌, ◌*◌, ◌≡◌, ◌⊎◌, Bool, true, false, not, Option, none, some, List, [], ◌∷◌, ◌++◌, ltb,
  ◌==◌, if◌then◌else◌, keep, Text, eq_text,
}

-- A value, and the time from which it is gone.
pub record Entry : Type 0 where
  pub value : ℕ
  pub deadline : Option ℕ

abbrev pub Keyspace : Type 0
Keyspace = Text → Option Entry

abbrev pub before : ℕ → Option ℕ → Bool
before now none = true
before now (some deadline) = ltb now deadline

-- What is under a key at a time.
abbrev pub live : ℕ → Option Entry → Option Entry
live now none = none
live now (some entry) = if before now entry.deadline then some entry else none

abbrev pub put : Text → Option Entry → Keyspace → Keyspace
put key entry keys other = if eq_text other key then entry else keys other

abbrev pub lasting : ℕ → ℕ → Entry
lasting now ttl = record { value = 1; deadline = some (now + 1000 * ttl) }

abbrev pub counted : Option Entry → ℕ
counted none = 1
counted (some entry) = suc entry.value

abbrev pub deadline_of : Option Entry → Option ℕ
deadline_of none = none
deadline_of (some entry) = entry.deadline

abbrev pub is_there : Option Entry → Bool
is_there none = false
is_there (some entry) = true

abbrev pub is_absent : Option Entry → Bool
is_absent entry = not (is_there entry)

-- `INCR`
abbrev pub after_incr : ℕ → Text → Keyspace → Keyspace
after_incr now key keys =
    let old = live now (keys key) in
    put key (some (record { value = counted old; deadline = deadline_of old })) keys

abbrev pub with_deadline : ℕ → ℕ → Option Entry → Option Entry
with_deadline now ttl none = none
with_deadline now ttl (some entry) = some (record entry { deadline = some (now + 1000 * ttl) })

-- `EXPIRE`
abbrev pub after_expire : ℕ → ℕ → Text → Keyspace → Keyspace
after_expire now ttl key keys = put key (with_deadline now ttl (live now (keys key))) keys

-- `SETEX` with the value 1
abbrev pub after_setex : ℕ → ℕ → Text → Keyspace → Keyspace
after_setex now ttl key = put key (some (lasting now ttl))

-- `SET` with `NX` and `EX`
abbrev pub after_set_nx : ℕ → ℕ → Text → Keyspace → Keyspace
after_set_nx now ttl key keys =
    put key (elim (live now (keys key)) [ none ↦ some (lasting now ttl) | some entry ↦ some entry ])
      keys

-- `DELETE`
abbrev pub after_delete : Text → Keyspace → Keyspace
after_delete key = put key none

abbrev pub Same : Keyspace → Keyspace → Type 0
Same keys others = (key : Text) → keys key ≡ others key

-- A command is carried out and answered; or it fails (`RedisError`), and it is unknown whether it
-- was carried out.
abbrev pub Obeys : {A : Type 0} → Keyspace → Keyspace → Option A → Keyspace → A → Type 0
Obeys keys later reply after answer =
    (Same later after × (reply ≡ some answer))
    ⊎ ((reply ≡ none) × (Same later after ⊎ Same later keys))

-- The commands on a server's state, with what is documented of each.
pub record Redis (S : Type 0) : Type 0 where
  pub keys : S → Keyspace
  pub incr : ℕ → Text → S → S × Option ℕ
  -- `INCR` and `EXPIRE` as one transaction.
  pub incr_expire : ℕ → ℕ → Text → S → S × Option ℕ
  pub expire : ℕ → ℕ → Text → S → S × Option Bool
  pub setex : ℕ → ℕ → Text → S → S × Option Bool
  pub set_nx : ℕ → ℕ → Text → S → S × Option Bool
  pub get : ℕ → Text → S → S × Option Bool
  pub delete : ℕ → Text → S → S × Option Bool
  pub incr_obeys :
      (now : ℕ) (key : Text) (s : S)
      → Obeys
          (keys s)
          (keys (incr now key s).0)
          (incr now key s).1
          (after_incr now key (keys s))
          (counted (live now (keys s key)))
  pub incr_expire_obeys :
      (now ttl : ℕ) (key : Text) (s : S)
      → Obeys
          (keys s)
          (keys (incr_expire now ttl key s).0)
          (incr_expire now ttl key s).1
          (after_expire now ttl key (after_incr now key (keys s)))
          (counted (live now (keys s key)))
  pub expire_obeys :
      (now ttl : ℕ) (key : Text) (s : S)
      → Obeys
          (keys s)
          (keys (expire now ttl key s).0)
          (expire now ttl key s).1
          (after_expire now ttl key (keys s))
          (is_there (live now (keys s key)))
  pub setex_obeys :
      (now ttl : ℕ) (key : Text) (s : S)
      → Obeys
          (keys s)
          (keys (setex now ttl key s).0)
          (setex now ttl key s).1
          (after_setex now ttl key (keys s))
          true
  pub set_nx_obeys :
      (now ttl : ℕ) (key : Text) (s : S)
      → Obeys
          (keys s)
          (keys (set_nx now ttl key s).0)
          (set_nx now ttl key s).1
          (after_set_nx now ttl key (keys s))
          (is_absent (live now (keys s key)))
  pub get_obeys :
      (now : ℕ) (key : Text) (s : S)
      → Obeys
          (keys s)
          (keys (get now key s).0)
          (get now key s).1
          (keys s)
          (is_there (live now (keys s key)))
  pub delete_obeys :
      (now : ℕ) (key : Text) (s : S)
      → Obeys
          (keys s)
          (keys (delete now key s).0)
          (delete now key s).1
          (after_delete key (keys s))
          (is_there (live now (keys s key)))

-- `str.strip(":")`
unfoldable pub lstrip_colon : Text → Text
lstrip_colon [] = []
lstrip_colon (c ∷ s) = if c == b':' then lstrip_colon s else c ∷ s

unfoldable pub strip_colon : Text → Text
strip_colon s = reverse (lstrip_colon (reverse (lstrip_colon s)))

abbrev pub is_blank : Text → Bool
is_blank [] = true
is_blank (c ∷ s) = false

abbrev pub join_colon : List Text → Text
join_colon [] = []
join_colon (part ∷ []) = part
join_colon (part ∷ next ∷ rest) = part ++ b':' ∷ join_colon (next ∷ rest)

abbrev pub under : Text → Text → Text
under [] body = body
under (c ∷ prefix) body = (c ∷ prefix) ++ b':' ∷ body

-- `redis_key`, of two parts.
unfoldable pub redis_key : Text → Text → Text → Text
redis_key key_prefix family name =
    let prefix = strip_colon key_prefix in
    elim (keep (λ part. not (is_blank part)) (strip_colon family ∷ strip_colon name ∷ [])) [
      | [] ↦ prefix
      | part ∷ parts ↦ under prefix (join_colon (part ∷ parts))
    ]
