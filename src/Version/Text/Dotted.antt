-- ===== src/Version/Text/Dotted.antt =====
-- VersionNumber::Set on numbers with periods between them: src/libexttools/VersionNumber.cpp.
use Prim.Native.Char.{Char, code}
use mathlib.Core.List.{append_assoc, append-nil}
use coflo.Prelude.{
  ℕ, zero, suc, ◌^◌, ◌≤◌, ◌<◌, ◌≡◌, ◌≢◌, refl, ap, sym, ◌∙◌, true, false, List, [], ◌∷◌, ◌++◌,
  Option, none, some, ◌==◌, ltb, length, length-append, All, arith, map, is_digit, is_numeral,
  value_from, take_digits, take_digits-numeral,
}
use coflo.Prelude.Int.{ℤ, pos}
use coflo.Version.Text.{skip_spaces, clamp, store, extract_from, extract, read_digits, set_digits}

-- A number of decimal digits that an `int` holds.
pub record IsNumber (ds : List Char) : Type 0 where
  pub digits : is_numeral ds ≡ true
  pub some_digit : ds ≢ []
  pub in_range : value_from 0 ds < 2 ^ 31

-- The numbers with a period behind each but the last.
abbrev pub dotted : List Char → List (List Char) → List Char
dotted ds [] = ds
dotted ds (es ∷ ts) = ds ++ "." ∷ dotted es ts

abbrev pub value : List Char → ℤ
value ds = pos (value_from 0 ds)

skip_spaces-digit : (c : Char) (s : List Char) → is_digit c ≡ true → skip_spaces (c ∷ s) ≡ c ∷ s
unfolding skip_spaces
skip_spaces-digit c s p = ground (arith, p)

extract_from-digit :
    (d : Option ℤ) (c : Char) (s : List Char)
    → is_digit c ≡ true
    → extract_from d (c ∷ s) ≡ store false (take_digits (c ∷ s))
unfolding extract_from
extract_from-digit d c s p =
    let no_minus : (code c == 45) ≡ false = ground (arith, p) in
    let no_plus : (code c == 43) ≡ false = ground (arith, p) in rw (no_minus, no_plus) refl

store-in_range :
    (c : Char) (ds rest : List Char)
    → value_from 0 (c ∷ ds) < 2 ^ 31
    → store false (c ∷ ds, rest) ≡ record {
      digit = some (value (c ∷ ds));
      rest = rest;
      good = elim rest [ [] ↦ false | _ ∷ _ ↦ true ];
    }
unfolding store clamp
store-in_range c ds rest p =
    let fits : ltb (value_from 0 (c ∷ ds)) (2 ^ 31) ≡ true = ground (arith, p) in rw fits refl

-- An extraction at the beginning of a number.
extract-number :
    (d : Option ℤ) (c : Char) (ds rest : List Char)
    → IsNumber (c ∷ ds)
    → take_digits rest ≡ ([], rest)
    → extract d ((c ∷ ds) ++ rest) ≡ record {
      digit = some (value (c ∷ ds));
      rest = rest;
      good = elim rest [ [] ↦ false | _ ∷ _ ↦ true ];
    }
unfolding extract
extract-number d c ds rest n q =
    let first : is_digit c ≡ true = ground (arith, n.digits) in
    ap (extract_from d) (skip_spaces-digit c (ds ++ rest) first)
    ∙ extract_from-digit d c (ds ++ rest) first
    ∙ ap (store false) (take_digits-numeral (c ∷ ds) rest n.digits q)
    ∙ store-in_range c ds rest n.in_range

read_digits-dotted :
    (n : ℕ) (d : Option ℤ) (ds : List Char) (ts : List (List Char)) (vs : List ℤ)
    → length (dotted ds ts) ≤ n
    → IsNumber ds
    → All IsNumber ts
    → read_digits (suc n) d (dotted ds ts) vs ≡ some (vs ++ value ds ∷ map value ts)
unfolding read_digits
read_digits-dotted n d [] ts vs enough number numbers = absurd (number.some_digit refl)
read_digits-dotted n d (c ∷ ds) [] vs enough number numbers =
    rw (ap (extract d) (sym (append-nil (c ∷ ds))) ∙ extract-number d c ds [] number refl) refl
read_digits-dotted zero d (c ∷ ds) (es ∷ ts) vs enough number numbers =
    absurd (omega (arith, enough))
read_digits-dotted (suc n) d (c ∷ ds) (es ∷ ts) vs enough number numbers =
    rw (extract-number d c ds ("." ∷ dotted es ts) number refl) (
      read_digits-dotted n (some (value (c ∷ ds))) es ts (vs ++ value (c ∷ ds) ∷ [])
        (omega (arith, enough, length-append ds ("." ∷ dotted es ts))) numbers.0 numbers.1
      ∙ ap some (append_assoc vs (value (c ∷ ds) ∷ []) (value es ∷ map value ts)))

-- Set appends to the digits that there were, in order, the numbers of a text that has a period behind each
-- but the last, if each is written as decimal digits, one at least, and an `int` holds it.
pub set_digits-dotted :
    (ds : List Char) (ts : List (List Char)) (vs : List ℤ)
    → IsNumber ds
    → All IsNumber ts
    → set_digits (dotted ds ts) vs ≡ some (vs ++ value ds ∷ map value ts)
unfolding set_digits
set_digits-dotted ds ts vs number numbers =
    read_digits-dotted (length (dotted ds ts)) none ds ts vs (omega arith) number numbers
