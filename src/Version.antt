-- ===== src/Version.antt =====
-- The comparisons of VersionNumber, and ToolCompiler's use of them: src/libexttools/VersionNumber.cpp
-- and ToolCompiler.cpp. The digits are those that the constructor read from the text.
pub mod Order
pub mod Text
use coflo.Prelude.{ℕ, String, Bool, true, false, List, [], ◌∷◌, Option, none, some, if◌then◌else◌}
use coflo.Prelude.Int.{ℤ, pos, negsuc, ltb_ℤ, eqb_ℤ}

pub record VersionNumber : Type 0 where
  pub version_string : String
  pub version_digits : List ℤ

-- std::equal with two iterators into the left operand and one into the right: `none` is a read past
-- the right one's end.
equal_digits : List ℤ → List ℤ → Option Bool
equal_digits [] ys = some true
equal_digits (x ∷ xs) [] = none
equal_digits (x ∷ xs) (y ∷ ys) =
    let rest = equal_digits xs ys in if eqb_ℤ x y then rest else some false

-- std::lexicographical_compare
less_digits : List ℤ → List ℤ → Bool
less_digits [] [] = false
less_digits [] (y ∷ ys) = true
less_digits (x ∷ xs) [] = false
less_digits (x ∷ xs) (y ∷ ys) =
    let rest = less_digits xs ys in if ltb_ℤ x y then true else if ltb_ℤ y x then false else rest

-- operator==
unfoldable pub equals : VersionNumber → VersionNumber → Option Bool
unfolding equal_digits
equals v w = equal_digits v.version_digits w.version_digits

-- operator<
pub less : VersionNumber → VersionNumber → Bool
unfolding less_digits
less v w = less_digits v.version_digits w.version_digits

-- The version 4.5.0, below which the compiler has no "-fdump-tree-gimple".
abbrev pub first_usable : VersionNumber
first_usable = record { version_string = "4.5.0"; version_digits = pos 4 ∷ pos 5 ∷ pos 0 ∷ [] }

-- ToolCompiler::CheckIfVersionIsUsable, on the version that the tool reports.
unfoldable pub check_if_version_is_usable : VersionNumber → String × Bool
unfolding less
check_if_version_is_usable v =
    if less v first_usable
    then ("CoFlo requires a GCC version greater than 4.5.0", false)
    else ("Ok", true)
