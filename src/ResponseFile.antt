-- ===== src/ResponseFile.antt =====
-- ResponseFileParser: src/ResponseFileParser.cpp. A line is the list of its characters. The tokenizer of
-- boost, here with quotes and without an escape character, is an argument: the tokens of a line.
pub mod Lines
use Prim.Native.Char.{Char, code}
use coflo.Prelude.{
  ℕ, Bool, true, false, not, ◌||◌, List, [], ◌∷◌, ◌++◌, Option, none, some, if◌then◌else◌, ◌==◌,
}

-- The characters of "\t \r\n".
abbrev pub is_space : Char → Bool
is_space c = (code c == 9) || (code c == 32) || (code c == 13) || (code c == 10)

-- The first character that is not of "\t \r\n".
abbrev pub find_first_not_of_space : List Char → Option Char
find_first_not_of_space [] = none
find_first_not_of_space (c ∷ s) =
    let rest = find_first_not_of_space s in if is_space c then rest else some c

-- The character `c` stands before what std::getline reads next.
abbrev pub put_before : Char → List (List Char) → List (List Char)
put_before c [] = (c ∷ []) ∷ []
put_before c (l ∷ ls) = (c ∷ l) ∷ ls

-- What std::getline reads of a stream, line by line.
pub lines_of : List Char → List (List Char)
lines_of [] = []
lines_of (c ∷ s) = let rest = lines_of s in if code c == 10 then [] ∷ rest else put_before c rest

-- Neither a blank line nor a comment.
abbrev pub is_option_line : List Char → Bool
is_option_line l = elim (find_first_not_of_space l) [ none ↦ false | some c ↦ not (code c == 35) ]

-- The loop of LoadFileIntoVectorOfStrings.
pub load_lines : List (List Char) → List (List Char) → List (List Char)
load_lines [] vec_of_str = vec_of_str
load_lines (l ∷ ls) vec_of_str =
    load_lines ls (if is_option_line l then vec_of_str ++ l ∷ [] else vec_of_str)

pub load_file_into_vector_of_strings : List Char → List (List Char) → List (List Char)
unfolding lines_of load_lines
load_file_into_vector_of_strings ifs vec_of_str = load_lines (lines_of ifs) vec_of_str

abbrev pub is_all_space : List Char → Bool
is_all_space t = elim (find_first_not_of_space t) [ none ↦ true | some c ↦ false ]

-- The inner loop of Parse.
pub push_tokens : List (List Char) → List (List Char) → List (List Char)
push_tokens [] args = args
push_tokens (t ∷ ts) args = push_tokens ts (if is_all_space t then args else args ++ t ∷ [])

module _ (tokens_of : List Char → List (List Char)) where
  -- The outer loop of Parse.
  pub push_lines : List (List Char) → List (List Char) → List (List Char)
  unfolding push_tokens
  push_lines [] args = args
  push_lines (l ∷ ls) args = push_lines ls (push_tokens (tokens_of l) args)

  -- ResponseFileParser::Parse; `none` is a file that cannot be opened.
  unfoldable pub parse_response_file : Option (List Char) → List (List Char) → List (List Char)
  unfolding load_file_into_vector_of_strings push_lines
  parse_response_file none args = args
  parse_response_file (some ifs) args = push_lines (load_file_into_vector_of_strings ifs []) args
