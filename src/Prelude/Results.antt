-- ===== src/Prelude/Results.antt =====
-- Results of code that raises: a value, or the error that was raised.
use mathlib.Core.Path.{◌≡◌, refl, ap}
use mathlib.Core.Bool.{Bool, true, false, not}
use mathlib.Core.Option.{Option, none, some}

pub data Result {ℓ κ} (E : Type ℓ) (A : Type κ) : Type (ℓ ⊔ κ) where
  ok : A → Result E A
  err : E → Result E A

infixl 5 ◌>>=◌ ◌>>◌
abbrev pub ◌>>=◌ {ℓ κ μ} :
    {E : Type ℓ} {A : Type κ} {B : Type μ} → Result E A → (A → Result E B) → Result E B
ok a >>= f = f a
err e >>= f = err e

abbrev pub ◌>>◌ {ℓ κ} : {E : Type ℓ} {B : Type κ} → Result E (Unit {0}) → Result E B → Result E B
m >> k = m >>= λ _. k

-- `if test: raise error`
abbrev pub raise_if {ℓ} : {E : Type ℓ} → Bool → E → Result E (Unit {0})
raise_if true e = err e
raise_if false e = ok tt

abbrev pub or_raise {ℓ κ} : {E : Type ℓ} {A : Type κ} → Option A → E → Result E A
or_raise none e = err e
or_raise (some a) e = ok a

-- A chain that returns went through its first step.
pub passes {ℓ κ μ} :
    {E : Type ℓ} {A : Type κ} {B : Type μ} {last : B} (step : Result E A) (next : A → Result E B)
    → (step >>= next) ≡ ok last
    → (value : A) × (step ≡ ok value) × (next value ≡ ok last)
passes (err e) next h = cc
passes (ok value) next h = (value, refl, h)

or_value {ℓ κ} : {E : Type ℓ} {A : Type κ} → A → Result E A → A
or_value a (ok b) = b
or_value a (err e) = a

pub ok-injective {ℓ κ} :
    {E : Type ℓ} {A : Type κ} {a b : A} → ◌≡◌ {A = Result E A} (ok a) (ok b) → a ≡ b
unfolding or_value
ok-injective {a} h = ap (or_value a) h

-- A guard that was passed holds.
pub raise_if-not {ℓ} :
    {E : Type ℓ} (test : Bool) (e : E) (u : Unit {0}) → raise_if (not test) e ≡ ok u → test ≡ true
raise_if-not true e u h = refl
raise_if-not false e u h = cc

-- A value that was not missing.
pub or_raise-found {ℓ κ} :
    {E : Type ℓ} {A : Type κ} (o : Option A) (e : E) (a : A) → or_raise o e ≡ ok a → o ≡ some a
or_raise-found none e a h = cc
or_raise-found (some b) e a h = ap some (ok-injective h)

-- A guard that lets a chain pass.
pub raise_if-passed {ℓ κ} :
    {E : Type ℓ} {A : Type κ} {a : A} (test : Bool) (e : E) (rest : Result E A)
    → (raise_if test e >> rest) ≡ ok a
    → (test ≡ false) × (rest ≡ ok a)
raise_if-passed true e rest h = cc
raise_if-passed false e rest h = (refl, h)
