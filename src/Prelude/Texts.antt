-- ===== src/Prelude/Texts.antt =====
-- Python's `str`, as the list of its code points; the texts that the program compares are ASCII.
use Prim.Native.Nat.{ℕ, ◌-◌}
use Prim.Native.Char.{code}
use Prim.Native.String.{String}
use mathlib.Core.Path.{◌≡◌, refl}
use mathlib.Core.Bool.{Bool, true, false, ◌&&◌, ◌||◌}
use mathlib.Core.List.{List, [], ◌∷◌, reverse}
use native.Mathlib.Omega.{arith}
use sole_backend.Prelude.Tests.{leb, ◌==◌, if◌then◌else◌}

abbrev pub Text : Type 0
Text = List ℕ

-- The code points of a literal.
abbrev pub codes : String → Text
codes String.[] = []
codes (String.◌∷◌ c s) = code c ∷ codes s

unfoldable pub eq_text : Text → Text → Bool
eq_text [] [] = true
eq_text (a ∷ s) (b ∷ t) = (a == b) && eq_text s t
eq_text _ _ = false

-- `str.upper` on ASCII.
unfoldable pub upper : Text → Text
upper [] = []
upper (c ∷ s) = (if leb b'a' c && leb c b'z' then c - 32 else c) ∷ upper s

-- `str.strip` on ASCII.
abbrev is_space : ℕ → Bool
is_space c = c == 32 || leb 9 c && leb c 13 || leb 28 c && leb c 31

unfoldable pub lstrip : Text → Text
lstrip [] = []
lstrip (c ∷ s) = if is_space c then lstrip s else c ∷ s

unfoldable pub strip : Text → Text
unfolding lstrip
strip s = reverse (lstrip (reverse (lstrip s)))

pub eq_text_refl : (s : Text) → eq_text s s ≡ true
unfolding eq_text
eq_text_refl [] = refl
eq_text_refl (c ∷ s) = ground (arith, eq_text_refl s)

pub eq_text→eq : (s t : Text) → eq_text s t ≡ true → s ≡ t
unfolding eq_text
eq_text→eq [] [] h = refl
eq_text→eq [] (b ∷ t) h = cc
eq_text→eq (a ∷ s) [] h = cc
eq_text→eq (a ∷ s) (b ∷ t) h = ground (arith, eq_text→eq s t)
