-- ===== src/Text.antt =====
-- The strings of the program (`std::string`, `std::wstring`, `char *`) as lists of code units, and
-- the tests and conversions of the C++ library that the sources use: `==`, `<<` of a number into a
-- string stream, and `atoi`.
pub mod Concat
pub mod Decimal
pub mod Quote
pub mod Replace
use Prim.Native.Char.{code}
use Prim.Native.String.{String}
use v6chat.Base.{ℕ, ◌≡◌, refl, ◌↔◌, Bool, true, false, ◌&&◌, List, [], ◌∷◌, arith, ◌==◌, ==_iff}

abbrev pub Text : Type 0
Text = List ℕ

-- A literal as its code units.
abbrev pub codes : String → Text
codes String.[] = []
codes (String.◌∷◌ c s) = code c ∷ codes s

unfoldable pub text_eq : Text → Text → Bool
text_eq [] [] = true
text_eq [] (y ∷ ys) = false
text_eq (x ∷ xs) [] = false
text_eq (x ∷ xs) (y ∷ ys) = (x == y) && text_eq xs ys

pub text_eq_iff : (xs ys : Text) → (text_eq xs ys ≡ true) ↔ (xs ≡ ys)
unfolding text_eq
text_eq_iff [] [] = ground arith
text_eq_iff [] (y ∷ ys) = ground arith
text_eq_iff (x ∷ xs) [] = ground arith
text_eq_iff (x ∷ xs) (y ∷ ys) = ground (arith, text_eq_iff xs ys, ==_iff x y)

pub text_eq_refl : (xs : Text) → text_eq xs xs ≡ true
text_eq_refl xs = (text_eq_iff xs xs).1 refl
