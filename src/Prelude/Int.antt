-- ===== src/Prelude/Int.antt =====
-- Signed integers over the native numbers, under the library's names.
use Prim.Native.Nat.{ℕ, suc, ◌+◌, ◌-◌, ◌≤◌, ◌<◌}
use mathlib.Core.Path.{◌≡◌, refl, ap}
use mathlib.Core.Bool.{Bool, true, false}
use mathlib.Core.List.{List, [], ◌∷◌, ◌++◌}
use native.Mathlib.Omega.{arith}
use sole_backend.Prelude.Tests.{ltb, leb, if◌then◌else◌}

-- `negsuc n` is -(n + 1).
pub data ℤ : Type 0 where
  pos : ℕ → ℤ
  negsuc : ℕ → ℤ

abbrev pub pos_part : ℤ → ℕ
pos_part (pos n) = n
pos_part (negsuc n) = 0

abbrev pub neg_part : ℤ → ℕ
neg_part (pos n) = 0
neg_part (negsuc n) = suc n

-- a - b, as an integer.
abbrev pub sub_ℕ : ℕ → ℕ → ℤ
sub_ℕ a b = if leb b a then pos (a - b) else negsuc (b - a - 1)

infixl 65 ◌+ℤ◌ ◌-ℤ◌
infix 50 ◌≤ℤ◌ ◌<ℤ◌
unfoldable pub ◌+ℤ◌ : ℤ → ℤ → ℤ
a +ℤ b = sub_ℕ (pos_part a + pos_part b) (neg_part a + neg_part b)

unfoldable pub ◌-ℤ◌ : ℤ → ℤ → ℤ
a -ℤ b = sub_ℕ (pos_part a + neg_part b) (neg_part a + pos_part b)

abbrev pub ◌≤ℤ◌ : ℤ → ℤ → Type 0
a ≤ℤ b = pos_part a + neg_part b ≤ pos_part b + neg_part a

abbrev pub ◌<ℤ◌ : ℤ → ℤ → Type 0
a <ℤ b = pos_part a + neg_part b < pos_part b + neg_part a

abbrev pub ltb_ℤ : ℤ → ℤ → Bool
ltb_ℤ a b = ltb (pos_part a + neg_part b) (pos_part b + neg_part a)

abbrev pub leb_ℤ : ℤ → ℤ → Bool
leb_ℤ a b = leb (pos_part a + neg_part b) (pos_part b + neg_part a)

-- One lemma for each operation lets `omega` work with the operations shut, at any depth.
pub +ℤ_parts :
    (a b : ℤ)
    → pos_part (a +ℤ b) + neg_part a + neg_part b ≡ neg_part (a +ℤ b) + pos_part a + pos_part b
unfolding ◌+ℤ◌
+ℤ_parts a b = ground arith

pub -ℤ_parts :
    (a b : ℤ)
    → pos_part (a -ℤ b) + neg_part a + pos_part b ≡ neg_part (a -ℤ b) + pos_part a + neg_part b
unfolding ◌-ℤ◌
-ℤ_parts a b = ground arith

-- Each part of a difference by itself.
pub -ℤ_pos_part :
    (a b : ℤ) → pos_part (a -ℤ b) ≡ pos_part a + neg_part b - (neg_part a + pos_part b)
unfolding ◌-ℤ◌
-ℤ_pos_part a b = ground arith

pub -ℤ_neg_part :
    (a b : ℤ) → neg_part (a -ℤ b) ≡ neg_part a + pos_part b - (pos_part a + neg_part b)
unfolding ◌-ℤ◌
-ℤ_neg_part a b = ground arith

-- Sums of integers that are not below zero.
pub +ℤ_nonneg :
    (a b : ℤ)
    → neg_part a ≡ 0
    → neg_part b ≡ 0
    → (pos_part (a +ℤ b) ≡ pos_part a + pos_part b) × (neg_part (a +ℤ b) ≡ 0)
unfolding ◌+ℤ◌
+ℤ_nonneg a b ha hb = ground arith

-- An integer that is not above zero, and one that is.
pub not_above : (a : ℤ) → leb_ℤ a (pos 0) ≡ true → pos_part a ≡ 0
not_above (pos n) h = ground arith
not_above (negsuc n) h = refl

pub above : (a : ℤ) → leb_ℤ a (pos 0) ≡ false → (0 < pos_part a) × (neg_part a ≡ 0)
above (pos n) h = (ground arith, refl)
above (negsuc n) h = absurd (ground arith)

pub eq_of_parts : (a b : ℤ) → pos_part a + neg_part b ≡ pos_part b + neg_part a → a ≡ b
eq_of_parts a b h = ground arith

pub ruleset int_laws = (arith, +ℤ_parts, -ℤ_parts, eq_of_parts)

-- `sum(values, Decimal("0"))` of a measure.
unfoldable pub sum_ℤ {ℓ} : {A : Type ℓ} → (A → ℤ) → List A → ℤ
sum_ℤ f [] = pos 0
sum_ℤ f (x ∷ xs) = f x +ℤ sum_ℤ f xs

pub sum_ℤ-append {ℓ} :
    {A : Type ℓ} (f : A → ℤ) (xs ys : List A) → sum_ℤ f (xs ++ ys) ≡ sum_ℤ f xs +ℤ sum_ℤ f ys
unfolding sum_ℤ
sum_ℤ-append f [] ys = omega int_laws
sum_ℤ-append f (x ∷ xs) ys =
    let rest = sum_ℤ-append f xs ys in omega (int_laws, ap pos_part rest, ap neg_part rest)
