-- ===== src/Auth/Redis/Keys.antt =====
-- Keys of different families are different (`redis_key` of app/utils/redis_client.py).
use sole_backend.Prelude.{
  ℕ, ◌≡◌, refl, ◌∙◌, inl, inr, Bool, false, ◌&&◌, [], ◌∷◌, ◌++◌, ◌==◌, Text, eq_text, Bool-cases,
  arith,
}
use sole_backend.Auth.Redis.{is_blank, under, strip_colon, redis_key}

same_head : (c : ℕ) (b : Bool) → ((c == c) && b) ≡ b
same_head c b = ground arith

eq_text-append : (prefix s t : Text) → eq_text (prefix ++ s) (prefix ++ t) ≡ eq_text s t
unfolding eq_text
eq_text-append [] s t = refl
eq_text-append (c ∷ prefix) s t = same_head c _ ∙ eq_text-append prefix s t

-- A key is what stands under the prefix, and begins with its family.
begins :
    (key_prefix family name : Text) (c : ℕ) (rest : Text)
    → strip_colon family ≡ c ∷ rest
    → (w : Text) × (redis_key key_prefix family name ≡ under (strip_colon key_prefix) (c ∷ w))
unfolding redis_key
begins key_prefix family name c rest e = elim (Bool-cases (is_blank (strip_colon name))) [
  | inl blank ↦ (rest, rw (redis_key, e, blank) refl)
  | inr named ↦ (rest ++ b':' ∷ strip_colon name, rw (redis_key, e, named) refl)
]

under_differ :
    (prefix s t : Text) (c d : ℕ)
    → (c == d) ≡ false
    → eq_text (under prefix (c ∷ s)) (under prefix (d ∷ t)) ≡ false
unfolding eq_text
under_differ [] s t c d ne = rw ne refl
under_differ (p ∷ prefix) s t c d ne =
    eq_text-append (p ∷ prefix) (b':' ∷ c ∷ s) (b':' ∷ d ∷ t) ∙ (rw ne refl)

pub families_differ :
    (key_prefix family other name other_name : Text) (c d : ℕ) (rest other_rest : Text)
    → strip_colon family ≡ c ∷ rest
    → strip_colon other ≡ d ∷ other_rest
    → (c == d) ≡ false
    → eq_text (redis_key key_prefix family name) (redis_key key_prefix other other_name) ≡ false
families_differ key_prefix family other name other_name c d rest other_rest e f ne =
    let (w, is_w) = begins key_prefix family name c rest e in
    let (v, is_v) = begins key_prefix other other_name d other_rest f in
    rw (is_w, is_v) (under_differ (strip_colon key_prefix) w v c d ne)
