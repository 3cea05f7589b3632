-- ===== src/Version/Text.antt =====
-- VersionNumber::Set: src/libexttools/VersionNumber.cpp. A text is the list of its characters. The
-- extraction of an `int` from a stream is that of the standard library, with an `int` of 32 bits: a
-- failed one stores 0, or the nearest `int` if the number is out of range, and one that finds only
-- spaces stores nothing.
pub mod Dotted
use Prim.Native.Char.{Char, code}
use coflo.Prelude.{
  ℕ, zero, suc, ◌+◌, ◌-◌, ◌*◌, ◌^◌, ℕ, Bool, true, false, not, ◌&&◌, ◌||◌, List, [], ◌∷◌, ◌++◌,
  Option, none, some, if◌then◌else◌, ◌==◌, ltb, length, ◌>>=◌, take_digits, value_from, is_space,
}
use coflo.Prelude.Int.{ℤ, pos, negsuc}

pub skip_spaces : List Char → List Char
skip_spaces [] = []
skip_spaces (c ∷ s) = let rest = skip_spaces s in if is_space c then rest else c ∷ s

-- The variable `digit` after an extraction, what is left of the text, and whether the stream is still
-- good: neither failed nor at its end.
pub record Extraction : Type 0 where
  pub digit : Option ℤ
  pub rest : List Char
  pub good : Bool

abbrev negate : ℕ → ℤ
negate zero = pos 0
negate (suc n) = negsuc n

-- The stored value, and whether it is in range.
pub clamp : Bool → ℕ → ℤ × Bool
clamp false n = if ltb n (2 ^ 31) then (pos n, true) else (pos (2 ^ 31 - 1), false)
clamp true n = if ltb (2 ^ 31) n then (negate (2 ^ 31), false) else (negate n, true)

-- Behind the sign.
pub store : Bool → List Char × List Char → Extraction
unfolding clamp
store minus ([], rest) = record { digit = some (pos 0); rest = rest; good = false }
store minus (c ∷ ds, rest) =
    let (x, fits) = clamp minus (value_from 0 (c ∷ ds)) in
    record { digit = some x; rest = rest; good = fits && (elim rest [ [] ↦ false | _ ∷ _ ↦ true ]) }

pub extract_from : Option ℤ → List Char → Extraction
unfolding store
extract_from digit [] = record { digit = digit; rest = []; good = false }
extract_from digit (c ∷ s) =
    if code c == 45
    then store true (take_digits s)
    else if code c == 43
    then store false (take_digits s)
    else store false (take_digits (c ∷ s))

-- `parser >> digit`
pub extract : Option ℤ → List Char → Extraction
unfolding extract_from skip_spaces
extract digit s = extract_from digit (skip_spaces s)

-- `parser.get()`
abbrev pub skip_one : List Char → List Char
skip_one [] = []
skip_one (c ∷ s) = s

-- The loop of Set; `none` is the reading of `digit` before anything is stored in it, or too little fuel.
pub read_digits : ℕ → Option ℤ → List Char → List ℤ → Option (List ℤ)
unfolding extract
read_digits zero digit s version_digits = none
read_digits (suc n) digit s version_digits =
    let x = extract digit s in
    do
      d ← x.digit
      let all = version_digits ++ d ∷ []
      let rest = read_digits n (some d) (skip_one x.rest) all
      if x.good then rest else some all

-- m_version_digits after VersionNumber::Set, from the digits that there were; m_version_string is the text. Each round of its loop that is not the last
-- takes a digit of the text.
pub set_digits : List Char → List ℤ → Option (List ℤ)
unfolding read_digits
set_digits version_string version_digits =
    read_digits (suc (length version_string)) none version_string version_digits
