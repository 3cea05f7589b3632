-- ===== src/Location/Texts.antt =====
-- Locations in the compiler's form, "[file : line : column]": src/Location.cpp.
use Prim.Native.Char.{Char, code}
use coflo.Prelude.{
  ℕ, ◌^◌, ◌<◌, ◌≡◌, refl, Bool, true, false, not, ◌&&◌, List, [], ◌∷◌, ◌++◌, Option, none, some,
  ◌==◌, ltb, to_string, is_space, take_digits, take_digits-numeral, arith, Bool-cases, inl, inr,
}
use coflo.Prelude.Decimal.{decimal, value-decimal, numeral-decimal, decimal-cons}
use coflo.Statement.{Location}
use coflo.Location.{
  located, behind, behind_space, some_digits, closes, match_column, match_end, match_numbers,
  match_path, match_location, atoi, column_of, set_members, construct, location,
}

-- No closing bracket, and no colon behind a space.
abbrev pub is_path : List Char → Bool
is_path [] = true
is_path (c ∷ s) =
    not (code c == 93)
    && not (is_space c && (elim s [ [] ↦ false | d ∷ _ ↦ code d == 58 ]))
    && is_path s

abbrev pub end_text : Option ℕ → List Char
end_text none = "]" ∷ []
end_text (some column) = " " ∷ ":" ∷ " " ∷ decimal column ++ "]" ∷ []

abbrev pub numbers_text : ℕ → Option ℕ → List Char
numbers_text line column = " " ∷ ":" ∷ " " ∷ decimal line ++ end_text column

-- The compiler's form.
abbrev pub location_text : List Char → ℕ → Option ℕ → List Char
location_text path line column = "[" ∷ path ++ numbers_text line column

digits-decimal :
    (n : ℕ) (rest : List Char)
    → take_digits rest ≡ ([], rest)
    → some_digits (take_digits (decimal n ++ rest)) ≡ some (decimal n, rest)
unfolding some_digits
digits-decimal n rest q =
    let (c, ds, is) = decimal-cons n in
    rw (take_digits-numeral (decimal n) rest (numeral-decimal n) q, is) refl

-- What the texts capture.
abbrev captured : Option ℕ → Option (List Char)
captured none = none
captured (some n) = some (decimal n)

match_column-text : (column : ℕ) → match_column (end_text (some column)) ≡ some (decimal column)
unfolding match_column behind closes
match_column-text column = rw (digits-decimal column ("]" ∷ []) refl) refl

match_end-text : (column : Option ℕ) → match_end (end_text column) ≡ some (captured column)
unfolding match_end match_column closes behind
match_end-text none = refl
match_end-text (some n) = rw (match_end, match_column-text n) refl

match_numbers-text :
    (line : ℕ) (column : Option ℕ)
    → match_numbers (numbers_text line column) ≡ some (decimal line, captured column)
unfolding match_numbers behind behind_space match_end match_column closes
match_numbers-text line none = rw (digits-decimal line (end_text none) refl) refl
match_numbers-text line (some n) =
    rw (digits-decimal line (end_text (some n)) refl, match_end-text (some n)) refl

-- No numbers can match from inside of the path on.
match_numbers-path :
    (c : Char) (path : List Char) (line : ℕ) (column : Option ℕ)
    → is_path (c ∷ path) ≡ true
    → match_numbers (c ∷ path ++ numbers_text line column) ≡ none
unfolding match_numbers behind behind_space
match_numbers-path c [] line column p = elim (Bool-cases (is_space c)) [
  | inl space ↦ rw space refl
  | inr other ↦ rw other refl
]
match_numbers-path c (d ∷ path) line column p = elim (Bool-cases (is_space c)) [
  | inl space ↦
      let no_colon : (code d == 58) ≡ false = ground (arith, p, space) in rw (space, no_colon) refl
  | inr other ↦ rw other refl
]

match_path-text :
    (path : List Char) (line : ℕ) (column : Option ℕ)
    → is_path path ≡ true
    → match_path (path ++ numbers_text line column) ≡ some (path, decimal line, captured column)
unfolding match_path
match_path-text [] line column p = rw (match_path, match_numbers-text line column) refl
match_path-text (c ∷ path) line column p =
    let open_bracket : (code c == 93) ≡ false = ground (arith, p) in
    rw
      (
        match_path,
        match_numbers-path c path line column p,
        open_bracket,
        match_path-text path line column (ground (arith, p)),
      )
      refl

-- The location that the members say.
abbrev pub location_at : List Char → ℕ → Option ℕ → Location
location_at path line column = record {
  passed_file_path = to_string path;
  absolute_file_path = to_string path;
  line_number = line;
  column = column;
}

atoi-decimal : (n : ℕ) → n < 2 ^ 31 → atoi (decimal n) ≡ some n
unfolding atoi
atoi-decimal n p =
    let fits : ltb n (2 ^ 31) ≡ true = ground (arith, p) in rw (value-decimal n, fits) refl

abbrev pub Fits : Option ℕ → Type 0
Fits none = Unit
Fits (some n) = n < 2 ^ 31

column_of-captured : (column : Option ℕ) → Fits column → column_of (captured column) ≡ some column
unfolding column_of
column_of-captured none p = refl
column_of-captured (some n) p = rw (atoi-decimal n p) refl

-- A location in the compiler's form is read back: from a path without a closing bracket and without a
-- colon behind a space, a line number, and a column number or none, if an `int` holds the numbers.
pub location-location_text :
    (path : List Char) (line : ℕ) (column : Option ℕ)
    → is_path path ≡ true
    → line < 2 ^ 31
    → Fits column
    → location (location_text path line column) ≡ located (location_at path line column)
unfolding location construct match_location behind set_members
location-location_text path line column p q r =
    rw (match_path-text path line column p, atoi-decimal line q, column_of-captured column r) refl
