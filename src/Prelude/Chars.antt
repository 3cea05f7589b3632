-- ===== src/Prelude/Chars.antt =====
-- Texts as lists of characters: the conversions, spaces and decimal digits.
use Prim.Native.Char.{Char, code}
use Prim.Native.Nat.{ℕ, ◌+◌, ◌-◌, ◌*◌}
use Prim.Native.String.{String}
use mathlib.Core.Path.{◌≡◌}
use mathlib.Core.Bool.{Bool, true, not, ◌&&◌, ◌||◌}
use mathlib.Core.List.{List, [], ◌∷◌, ◌++◌}
use native.Mathlib.Omega.{arith}
use coflo.Prelude.Tests.{ltb, ◌==◌, if◌then◌else◌}

abbrev pub chars : String → List Char
chars String.[] = []
chars (String.◌∷◌ c s) = c ∷ chars s

abbrev pub to_string : List Char → String
to_string [] = String.[]
to_string (c ∷ s) = String.◌∷◌ c (to_string s)

abbrev pub is_digit : Char → Bool
is_digit c = not (ltb (code c) 48) && ltb (code c) 58

-- std::isspace in the C locale.
abbrev pub is_space : Char → Bool
is_space c = (code c == 32) || (not (ltb (code c) 9) && ltb (code c) 14)

-- The digits that a text begins with, and the rest.
abbrev pub take_digits : List Char → List Char × List Char
take_digits [] = ([], [])
take_digits (c ∷ s) =
    let (ds, rest) = take_digits s in if is_digit c then (c ∷ ds, rest) else ([], c ∷ s)

-- The number that the digits write, behind `n`.
abbrev pub value_from : ℕ → List Char → ℕ
value_from n [] = n
value_from n (c ∷ ds) = value_from (10 * n + (code c - 48)) ds

abbrev pub is_numeral : List Char → Bool
is_numeral [] = true
is_numeral (c ∷ ds) = is_digit c && is_numeral ds

pub take_digits-numeral :
    (ds rest : List Char)
    → is_numeral ds ≡ true
    → take_digits rest ≡ ([], rest)
    → take_digits (ds ++ rest) ≡ (ds, rest)
take_digits-numeral [] rest p q = q
take_digits-numeral (c ∷ ds) rest p q =
    rw (take_digits-numeral ds rest (ground (arith, p)) q) (ground (arith, p))
