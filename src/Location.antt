-- ===== src/Location.antt =====
-- The texts of a location: src/Location.cpp. The regular expression is written as a recogniser; of its parts
-- only the path has more than one way to match, and the shortest that works is taken. `atoi` is
-- undefined for a number that is no `int` of 32 bits.
pub mod Texts
use Prim.Native.Char.{Char, code}
use coflo.Prelude.{
  ℕ, suc, ◌^◌, ◌-◌, ◌+◌, ◌*◌, Bool, true, false, List, [], ◌∷◌, ◌++◌, Option, none, some,
  if◌then◌else◌, ◌==◌, ltb, ◌>>=◌, chars, to_string, is_space, take_digits, value_from,
}
use coflo.Prelude.Decimal.{decimal}
use coflo.Statement.{Location}

-- What the constructor from a text leaves: the members, or members that are not set behind a
-- warning, or undefined behaviour.
pub data Construction : Type 0 where
  located : Location → Construction
  unparsable undefined : Construction

-- `[[:space:]]?`
abbrev skip_space : List Char → List Char
skip_space [] = []
skip_space (c ∷ s) = if is_space c then s else c ∷ s

-- What is behind a character with this code.
behind : ℕ → List Char → Option (List Char)
behind a [] = none
behind a (c ∷ s) = if code c == a then some s else none

behind_space : List Char → Option (List Char)
behind_space [] = none
behind_space (c ∷ s) = if is_space c then some s else none

-- `[[:digit:]]+`
some_digits : List Char × List Char → Option (List Char × List Char)
some_digits ([], rest) = none
some_digits (c ∷ ds, rest) = some (c ∷ ds, rest)

-- `\]` at the end
closes : List Char → Option (Unit {0})
closes [] = none
closes (c ∷ []) = if code c == 93 then some tt else none
closes (c ∷ d ∷ s) = none

-- `[[:space:]]?\:[[:space:]]?([[:digit:]]+)\]`
match_column : List Char → Option (List Char)
unfolding behind some_digits closes
match_column s = do
  s₁ ← behind 58 (skip_space s)
  (ds, s₂) ← some_digits (take_digits (skip_space s₁))
  end ← closes s₂
  some ds

-- The column, if there is one; `none` if nothing matches.
match_end : List Char → Option (Option (List Char))
unfolding match_column closes
match_end s = elim (match_column s) [
  | some ds ↦ some (some ds)
  | none ↦ do end ← closes s; some none
]

-- Behind the path: the line and the column.
pub match_numbers : List Char → Option (List Char × Option (List Char))
unfolding behind behind_space some_digits match_end
match_numbers s = do
  s₁ ← behind_space s
  s₂ ← behind 58 s₁
  s₃ ← behind_space s₂
  (line, s₄) ← some_digits (take_digits s₃)
  column ← match_end s₄
  some (line, column)

-- `[^\]]*?`, and what is behind it: the shortest path that works.
pub match_path : List Char → Option (List Char × List Char × Option (List Char))
unfolding match_numbers
match_path [] = none
match_path (c ∷ s) = elim (match_numbers (c ∷ s)) [
  | some (line, column) ↦ some ([], line, column)
  | none ↦
      let rest = match_path s in
      if code c == 93 then none else do (path, line, column) ← rest; some (c ∷ path, line, column)
]

-- The captures of f_location_expression.
match_location : List Char → Option (List Char × List Char × Option (List Char))
unfolding behind match_path
match_location s = do s₁ ← behind 91 s; match_path s₁

-- `none` is undefined.
atoi : List Char → Option ℕ
atoi ds = if ltb (value_from 0 ds) (2 ^ 31) then some (value_from 0 ds) else none

column_of : Option (List Char) → Option (Option ℕ)
unfolding atoi
column_of none = some none
column_of (some ds) = do n ← atoi ds; some (some n)

set_members : List Char → Option ℕ → Option (Option ℕ) → Construction
set_members path (some line) (some column) = located (record {
  passed_file_path = to_string path;
  absolute_file_path = to_string path;
  line_number = line;
  column = column;
})
set_members path _ _ = undefined

construct : Option (List Char × List Char × Option (List Char)) → Construction
unfolding set_members atoi column_of
construct none = unparsable
construct (some (path, line, column)) = set_members path (atoi line) (column_of column)

-- Location::Location(const std::string &)
unfoldable pub location : List Char → Construction
unfolding construct match_location
location location_string = construct (match_location location_string)

-- Location::asLineColumn
pub as_line_column : Location → List Char
as_line_column l =
    decimal l.line_number ++ (elim l.column [ none ↦ [] | some column ↦ ":" ∷ decimal column ])

-- Location::asGNUCompilerMessageLocation
unfoldable pub as_gnu_compiler_message_location : Location → List Char
unfolding as_line_column
as_gnu_compiler_message_location l = chars l.passed_file_path ++ ":" ∷ as_line_column l
