-- ===== src/Analyzer/Constraint.antt =====
-- The constraints that are understood: f_fxf_regex of src/controlflowgraph/analysis/Analyzer.cpp.
use Prim.Native.Char.{Char, code}
use text.Mathlib.TextEquality.{Char-path}
use coflo.Prelude.{
  chars, ◌≡◌, ◌↔◌, refl, sym, ap, ◌∙◌, Bool, true, false, ◌&&◌, List, [], ◌∷◌, ◌++◌, some, ◌==◌,
  ==_iff, Bool-cases, inl, inr, Option-cases, some_of_bind, eq_of_some, ◌>>=◌,
}
use coflo.Analyzer.{
  begins_name, continues_name, take_name, at_least_one, match_name, match_literal, match_end,
  match_constraint,
}

abbrev all_continue : List Char → Bool
all_continue [] = true
all_continue (c ∷ s) = continues_name c && all_continue s

-- A name that the regular expression accepts: a letter or an underscore, then at least one letter,
-- digit or underscore.
abbrev pub is_name : List Char → Bool
is_name [] = false
is_name (c ∷ []) = false
is_name (c ∷ d ∷ s) = begins_name c && all_continue (d ∷ s)

take_name-append :
    (xs : List Char) (c : Char) (ys : List Char)
    → all_continue xs ≡ true
    → continues_name c ≡ false
    → take_name (xs ++ c ∷ ys) ≡ (xs, c ∷ ys)
unfolding take_name
take_name-append [] c ys all stop = rw stop refl
take_name-append (x ∷ xs) c ys all stop = elim (Bool-cases (continues_name x)) [
  | inl goes ↦ rw (goes, take_name-append xs c ys (rw goes at all) stop) refl
  | inr ends ↦ cc (rw ends at all)
]

take_name_sound :
    (s : List Char)
    → (s ≡ (take_name s).0 ++ (take_name s).1) × (all_continue (take_name s).0 ≡ true)
unfolding take_name
take_name_sound [] = (refl, refl)
take_name_sound (c ∷ s) = elim (Bool-cases (continues_name c)) [
  | inl goes ↦
      let (eq, all) = take_name_sound s in rw (take_name, goes) (ap (λ t. c ∷ t) eq, rw goes all)
  | inr ends ↦ rw (take_name, ends) (refl, refl)
]

match_name-append :
    (f : List Char) (c : Char) (ys : List Char)
    → is_name f ≡ true
    → continues_name c ≡ false
    → match_name (f ++ c ∷ ys) ≡ some (f, c ∷ ys)
unfolding match_name at_least_one
match_name-append [] c ys name stop = cc
match_name-append (a ∷ []) c ys name stop = cc
match_name-append (a ∷ b ∷ f) c ys name stop = elim (Bool-cases (begins_name a)) [
  | inl begins ↦ rw (begins, take_name-append (b ∷ f) c ys (rw begins at name) stop) refl
  | inr other ↦ cc (rw other at name)
]

at_least_one_sound :
    (c : Char) (x : List Char × List Char) (f r : List Char)
    → begins_name c ≡ true
    → all_continue x.0 ≡ true
    → at_least_one c x ≡ some (f, r)
    → (is_name f ≡ true) × (c ∷ (x.0 ++ x.1) ≡ f ++ r)
unfolding at_least_one
at_least_one_sound c ([], s) f r begins all eq = cc
at_least_one_sound c (d ∷ name, s) f r begins all eq =
    let pair = eq_of_some eq in
    (ap (λ p. is_name p.0) (sym pair) ∙ rw begins all, ap (λ p. p.0 ++ p.1) pair)

match_name_sound :
    (s f r : List Char) → match_name s ≡ some (f, r) → (is_name f ≡ true) × (s ≡ f ++ r)
unfolding match_name
match_name_sound [] f r eq = cc
match_name_sound (c ∷ s) f r eq = elim (Bool-cases (begins_name c)) [
  | inl begins ↦
      let (whole, all) = take_name_sound s in
      let (name, eq') = at_least_one_sound c (take_name s) f r begins all (rw begins at eq) in
      (name, ap (λ t. c ∷ t) whole ∙ eq')
  | inr other ↦ cc (rw other at eq)
]

match_literal_sound : (p s r : List Char) → match_literal p s ≡ some r → s ≡ p ++ r
unfolding match_literal
match_literal_sound [] s r eq = eq_of_some eq
match_literal_sound (c ∷ p) [] r eq = cc
match_literal_sound (c ∷ p) (d ∷ s) r eq = elim (Bool-cases (code c == code d)) [
  | inl same ↦
      let first = Char-path d c (sym ((==_iff (code c) (code d)).0 same)) in
      let rest = match_literal_sound p s r (rw same at eq) in cc
  | inr other ↦ cc (rw other at eq)
]

-- The text of a constraint "f() -x g()".
abbrev pub constraint_text : List Char → List Char → List Char
constraint_text f g = f ++ (chars "() -x " ++ (g ++ chars "()"))

match_constraint-text :
    (f g : List Char)
    → is_name f ≡ true
    → is_name g ≡ true
    → match_constraint (constraint_text f g) ≡ some (f, g)
unfolding match_constraint match_end
match_constraint-text f g name_f name_g =
    rw
      (
        match_name-append f "(" (chars ") -x " ++ (g ++ chars "()")) name_f refl,
        match_name-append g "(" (chars ")") name_g refl,
      )
      refl

match_end_sound :
    (f g r f' g' : List Char) → match_end f g r ≡ some (f', g') → (r ≡ []) × (f ≡ f') × (g ≡ g')
unfolding match_end
match_end_sound f g [] f' g' eq =
    (refl, ap (λ p. p.0) (eq_of_some eq), ap (λ p. p.1) (eq_of_some eq))
match_end_sound f g (c ∷ r) f' g' eq = cc

text_of_parts :
    (s f r g t : List Char) (after_f after_g : List Char)
    → s ≡ f ++ after_f
    → after_f ≡ chars "() -x " ++ r
    → r ≡ g ++ after_g
    → after_g ≡ chars "()" ++ t
    → t ≡ []
    → s ≡ constraint_text f g
text_of_parts s f r g t after_f after_g e₁ e₂ e₃ e₄ e₅ =
    let tail : after_g ≡ chars "()" = e₄ ∙ ap (λ x. chars "()" ++ x) e₅ in
    let middle : r ≡ g ++ chars "()" = e₃ ∙ ap (λ x. g ++ x) tail in
    e₁ ∙ ap (λ x. f ++ x) (e₂ ∙ ap (λ x. chars "() -x " ++ x) middle)

match_closing :
    (f g : List Char) (y : List Char × List Char) (f' : List Char)
    → (match_literal (chars "()") y.1 >>= match_end f' y.0) ≡ some (f, g)
    → (f' ≡ f) × (y.0 ≡ g) × (y.1 ≡ chars "()")
match_closing f g y f' eq =
    let (r, closing, ended) =
      some_of_bind (match_literal (chars "()") y.1) (match_end f' y.0) (f, g) eq in
    let (end, same_f, same_g) = match_end_sound f' y.0 r f g ended in
    (same_f, same_g, match_literal_sound (chars "()") y.1 r closing ∙ ap (λ x. chars "()" ++ x) end)

match_constraint_sound :
    (s f g : List Char)
    → match_constraint s ≡ some (f, g)
    → (is_name f ≡ true) × (is_name g ≡ true) × (s ≡ constraint_text f g)
unfolding match_constraint
match_constraint_sound s f g eq = elim (Option-cases (match_name s)) [
  | inl bad ↦ cc (rw (match_constraint, bad) at eq)
  | inr (x, named) ↦ elim (Option-cases (match_literal (chars "() -x ") x.1)) [
    | inl bad ↦ cc (rw (match_constraint, named, bad) at eq)
    | inr (r, between) ↦ elim (Option-cases (match_name r)) [
      | inl bad ↦ cc (rw (match_constraint, named, between, bad) at eq)
      | inr (y, named') ↦
          let (same_f, same_g, closing) =
            match_closing f g y x.0 (rw (match_constraint, named, between, named') at eq) in
          let (name_f, whole) = match_name_sound s x.0 x.1 named in
          let (name_g, whole') = match_name_sound r y.0 y.1 named' in
          let first = match_literal_sound (chars "() -x ") x.1 r between in
          let text = text_of_parts s x.0 r y.0 [] x.1 y.1 whole first whole' closing refl in
          (
            ap is_name (sym same_f) ∙ name_f,
            ap is_name (sym same_g) ∙ name_g,
            text ∙ ap (λ z. constraint_text z y.0) same_f ∙ ap (constraint_text f) same_g,
          )
    ]
  ]
]

-- A constraint is parsed exactly if it is "f() -x g()" for two names of at least two characters each,
-- and the captures are the names.
pub match_constraint_lem :
    (s f g : List Char)
    → (match_constraint s ≡ some (f, g))
      ↔ ((is_name f ≡ true) × (is_name g ≡ true) × (s ≡ constraint_text f g))
match_constraint_lem s f g = (
  match_constraint_sound s f g,
  λ (name_f, name_g, eq). rw eq (match_constraint-text f g name_f name_g),
)
