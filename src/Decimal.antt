-- ===== src/Decimal.antt =====
-- Python's `decimal.Decimal` in its default context, as the services use it: 28 significant digits,
-- rounded half to even. A value without its sign is a coefficient and a number of decimal places;
-- the exponent of a result is not kept where its value does not need it. Amounts of money are whole
-- cents, as integers: below 10 ^ 26 their sums and differences are exact in the context, and the
-- columns of the database hold less than 10 ^ 12 units.
use sole_backend.Prelude.{
  ℕ, zero, suc, ◌+◌, ◌-◌, ◌*◌, ◌/◌, ◌%◌, ◌^◌, Bool, true, false, not, ◌&&◌, ltb, leb, ◌==◌,
  if◌then◌else◌,
}
use sole_backend.Prelude.Int.{ℤ, pos, negsuc, sub_ℕ}

pub record Decimal : Type 0 where
  pub coefficient : ℕ
  pub scale : ℕ

abbrev pub decimal : ℕ → ℕ → Decimal
decimal c s = record { coefficient = c; scale = s }

-- The number of decimal digits, at least 1; a number is fuel enough for its own digits.
unfoldable pub digits_below : ℕ → ℕ → ℕ
digits_below zero n = 1
digits_below (suc f) n = elim (ltb n 10) [ true ↦ 1 | false ↦ suc (digits_below f (n / 10)) ]

unfoldable pub digits : ℕ → ℕ
unfolding digits_below
digits n = digits_below n n

-- n / m, to the nearest, a tie to the even neighbour.
unfoldable pub half_even : ℕ → ℕ → ℕ
half_even n m =
    let q = n / m in
    let r = n % m in if ltb (2 * r) m then q else if ltb m (2 * r) then q + 1 else q + q % 2

-- A result in the context.
unfoldable pub fix : Decimal → Decimal
unfolding digits half_even
fix d =
    let k = digits d.coefficient - 28 in
    if k == 0
    then d
    else let q = half_even d.coefficient (10 ^ k) in
      if leb k d.scale then decimal q (d.scale - k) else decimal (q * 10 ^ (k - d.scale)) 0

unfoldable pub mul : Decimal → Decimal → Decimal
unfolding fix
mul a b = fix (decimal (a.coefficient * b.coefficient) (a.scale + b.scale))

-- Enough digits for the rounding, the last of them marked where the division is not exact.
unfoldable pub div : Decimal → Decimal → Decimal
unfolding fix
div a b =
    let k = digits b.coefficient + 29 + b.scale in
    let n = a.coefficient * 10 ^ k in
    let q = n / b.coefficient in
    let r = n % b.coefficient in
    fix (decimal (if not (r == 0) && q % 5 == 0 then q + 1 else q) (a.scale + k - b.scale))

unfoldable pub one_plus : Decimal → Decimal
unfolding fix
one_plus a = fix (decimal (10 ^ a.scale + a.coefficient) a.scale)

-- a - 1, for a value of at least 1.
unfoldable pub minus_one : Decimal → Decimal
unfolding fix
minus_one a = fix (decimal (a.coefficient - 10 ^ a.scale) a.scale)

unfoldable pub less : Decimal → Decimal → Bool
less a b = ltb (a.coefficient * 10 ^ b.scale) (b.coefficient * 10 ^ a.scale)

abbrev pub cents : ℕ → Decimal
cents n = decimal n 2

-- `quantize(Decimal("0.01"), rounding=ROUND_HALF_UP)`, in cents.
unfoldable pub quantize : Decimal → ℕ
quantize a =
    if leb a.scale 2
    then a.coefficient * 10 ^ (2 - a.scale)
    else (a.coefficient + 10 ^ (a.scale - 2) / 2) / 10 ^ (a.scale - 2)

-- The operations treat both signs alike.
unfoldable pub signed : (ℕ → ℕ) → ℤ → ℤ
signed f (pos n) = pos (f n)
signed f (negsuc n) = sub_ℕ 0 (f (suc n))

unfoldable pub add : Decimal → Decimal → Decimal
unfolding fix
add a b =
    fix (decimal (a.coefficient * 10 ^ b.scale + b.coefficient * 10 ^ a.scale) (a.scale + b.scale))
