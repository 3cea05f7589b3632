-- ===== src/ResponseFile/Lines.antt =====
-- The arguments that a response file adds, line by line: src/ResponseFileParser.cpp.
use Prim.Native.Char.{Char, code}
use mathlib.Core.List.{append_assoc, append-nil}
use coflo.Prelude.{
  ◌≡◌, refl, arith, sym, ap, ◌∙◌, Bool, true, false, not, ◌||◌, ◌&&◌, List, [], ◌∷◌, ◌++◌, ◌⊎◌,
  none, some, if◌then◌else◌, ◌==◌, All, Bool-cases, inl, inr,
}
use coflo.ResponseFile.{
  is_space, find_first_not_of_space, lines_of, is_option_line, load_lines,
  load_file_into_vector_of_strings, is_all_space, push_tokens, push_lines, parse_response_file,
}

-- The lines as a text, each with its newline.
abbrev pub unlines : List (List Char) → List Char
unlines [] = []
unlines (l ∷ ls) = l ++ "\n" ∷ unlines ls

abbrev pub has_newline : List Char → Bool
has_newline [] = false
has_newline (c ∷ s) = (code c == 10) || has_newline s

-- Blanks, tabs and the ends of lines.
abbrev pub is_blank_char : Char → Bool
is_blank_char c = code c == 32 || code c == 9 || code c == 10 || code c == 13

abbrev pub is_blank : List Char → Bool
is_blank [] = true
is_blank (c ∷ s) = is_blank_char c && is_blank s

-- The first character that is not blank is "#".
abbrev pub is_comment : List Char → Bool
is_comment [] = false
is_comment (c ∷ s) = let rest = is_comment s in if is_blank_char c then rest else code c == 35

-- The lines that are options.
abbrev options : List (List Char) → List (List Char)
options [] = []
options (l ∷ ls) = let rest = options ls in if is_blank l || is_comment l then rest else l ∷ rest

-- The tokens that are not blank.
abbrev pub words : List (List Char) → List (List Char)
words [] = []
words (t ∷ ts) = let rest = words ts in if is_blank t then rest else t ∷ rest

-- The arguments that the lines stand for.
abbrev pub arguments_of : (List Char → List (List Char)) → List (List Char) → List (List Char)
arguments_of tokens_of [] = []
arguments_of tokens_of (l ∷ ls) =
    let rest = arguments_of tokens_of ls in
    if is_blank l || is_comment l then rest else words (tokens_of l) ++ rest

first_lem :
    (s : List Char)
    → (is_blank s ≡ true) × (find_first_not_of_space s ≡ none)
      ⊎ (is_blank s ≡ false)
        × (c : Char) × (find_first_not_of_space s ≡ some c)
        × (is_comment s ≡ (code c == 35))
first_lem [] = inl (refl, refl)
first_lem (c ∷ s) = elim (Bool-cases (is_space c)) [
  | inl space ↦
      let blank : is_blank_char c ≡ true = ground (arith, space) in
      elim (first_lem s) [
        | inl (p, q) ↦ inl (rw blank p, rw space q)
        | inr (p, d, q, r) ↦ inr (rw blank p, d, rw space q, rw blank r)
      ]
  | inr other ↦
      let solid : is_blank_char c ≡ false = ground (arith, other) in
      inr (rw solid refl, c, rw other refl, rw solid refl)
]

is_option_line_lem : (l : List Char) → is_option_line l ≡ not (is_blank l || is_comment l)
is_option_line_lem l = elim (first_lem l) [
  | inl (p, q) ↦ rw (is_option_line, p, q) refl
  | inr (p, c, q, r) ↦ rw (is_option_line, p, q, r) refl
]

is_all_space_lem : (t : List Char) → is_all_space t ≡ is_blank t
is_all_space_lem t = elim (first_lem t) [
  | inl (p, q) ↦ rw (is_all_space, p, q) refl
  | inr (p, c, q, r) ↦ rw (is_all_space, p, q) refl
]

lines_of-line :
    (l s : List Char) → has_newline l ≡ false → lines_of (l ++ "\n" ∷ s) ≡ l ∷ lines_of s
unfolding lines_of
lines_of-line [] s p = refl
lines_of-line (c ∷ l) s p = elim (Bool-cases (code c == 10)) [
  | inl newline ↦ cc (rw newline at p)
  | inr other ↦ rw (other, lines_of-line l s (rw other at p)) refl
]

lines_of-unlines :
    (ls : List (List Char)) → All (λ l. has_newline l ≡ false) ls → lines_of (unlines ls) ≡ ls
unfolding lines_of
lines_of-unlines [] p = refl
lines_of-unlines (l ∷ ls) p =
    lines_of-line l (unlines ls) p.0 ∙ ap (λ x. l ∷ x) (lines_of-unlines ls p.1)

load_lines_lem : (ls vs : List (List Char)) → load_lines ls vs ≡ vs ++ options ls
unfolding load_lines
load_lines_lem [] vs = sym (append-nil vs)
load_lines_lem (l ∷ ls) vs = elim (Bool-cases (is_blank l || is_comment l)) [
  | inl left_out ↦ rw (is_option_line_lem l, left_out) (load_lines_lem ls vs)
  | inr kept ↦
      rw (is_option_line_lem l, kept)
        (load_lines_lem ls (vs ++ l ∷ []) ∙ append_assoc vs (l ∷ []) (options ls))
]

push_tokens_lem : (ts args : List (List Char)) → push_tokens ts args ≡ args ++ words ts
unfolding push_tokens
push_tokens_lem [] args = sym (append-nil args)
push_tokens_lem (t ∷ ts) args = elim (Bool-cases (is_blank t)) [
  | inl blank ↦ rw (is_all_space_lem t, blank) (push_tokens_lem ts args)
  | inr word ↦
      rw (is_all_space_lem t, word)
        (push_tokens_lem ts (args ++ t ∷ []) ∙ append_assoc args (t ∷ []) (words ts))
]

module _ (tokens_of : List Char → List (List Char)) where
  push_lines_lem :
      (ls args : List (List Char))
      → push_lines tokens_of (options ls) args ≡ args ++ arguments_of tokens_of ls
  unfolding push_lines
  push_lines_lem [] args = sym (append-nil args)
  push_lines_lem (l ∷ ls) args = elim (Bool-cases (is_blank l || is_comment l)) [
    | inr kept ↦ rw kept (
        push_lines_lem ls (push_tokens (tokens_of l) args)
        ∙ ap (λ a. a ++ arguments_of tokens_of ls) (push_tokens_lem (tokens_of l) args)
        ∙ append_assoc args (words (tokens_of l)) (arguments_of tokens_of ls))
    | inl left_out ↦ rw left_out (push_lines_lem ls args)
  ]

  -- Whatever the tokenizer does: of a file of lines, each with its newline at the end and none inside,
  -- Parse adds to the arguments, in order, the tokens that are not blank of the lines that are neither
  -- blank nor have "#" as their first character that is not blank, and nothing else. Blank are spaces,
  -- tabs and the ends of lines.
  pub parse_response_file-unlines :
      (ls args : List (List Char))
      → All (λ l. has_newline l ≡ false) ls
      → parse_response_file tokens_of (some (unlines ls)) args ≡ args ++ arguments_of tokens_of ls
  unfolding parse_response_file load_file_into_vector_of_strings
  parse_response_file-unlines ls args p =
      rw (lines_of-unlines ls p, load_lines_lem ls []) (push_lines_lem ls args)
