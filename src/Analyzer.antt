-- ===== src/Analyzer.antt =====
-- Analyzer: src/controlflowgraph/analysis/Analyzer.cpp. A text is the list of its characters, none of
-- which is the one that ends a C string.
pub mod Constraint
pub mod Paths
use Prim.Native.Char.{Char, code}
use coflo.Prelude.{
  chars, to_string, ℕ, String, Bool, true, false, not, ◌&&◌, ◌||◌, List, [], ◌∷◌, ◌++◌, map, Option,
  none, some, if◌then◌else◌, ◌==◌, ltb, ◌>>=◌,
}
use coflo.Link.{Functions}
use coflo.Graph.{Heap}
use coflo.Program.{Program, lookup_function}
use coflo.Traversal.Reach.{Verdict, run_rule}

-- `[[:alpha:]]`, in the C locale.
abbrev is_alpha : ℕ → Bool
is_alpha c = (not (ltb c 65) && ltb c 91) || (not (ltb c 97) && ltb c 123)

-- `[[:alpha:]_]`
abbrev pub begins_name : Char → Bool
begins_name c = is_alpha (code c) || (code c == 95)

-- `[[:alnum:]_]`
abbrev pub continues_name : Char → Bool
continues_name c = begins_name c || (not (ltb (code c) 48) && ltb (code c) 58)

-- The longest part that continues a name, and what is left. No character of a name can begin what
-- follows a name, so that no shorter part can match.
take_name : List Char → List Char × List Char
take_name [] = ([], [])
take_name (c ∷ s) =
    let (name, rest) = take_name s in if continues_name c then (c ∷ name, rest) else ([], c ∷ s)

at_least_one : Char → List Char × List Char → Option (List Char × List Char)
at_least_one c ([], s) = none
at_least_one c (d ∷ name, s) = some (c ∷ d ∷ name, s)

-- `[[:alpha:]_][[:alnum:]_]+`
match_name : List Char → Option (List Char × List Char)
unfolding take_name at_least_one
match_name [] = none
match_name (c ∷ s) = if begins_name c then at_least_one c (take_name s) else none

-- What follows a literal part of the regular expression.
match_literal : List Char → List Char → Option (List Char)
match_literal [] s = some s
match_literal (c ∷ p) [] = none
match_literal (c ∷ p) (d ∷ s) =
    let rest = match_literal p s in if code c == code d then rest else none

match_end : List Char → List Char → List Char → Option (List Char × List Char)
match_end f g [] = some (f, g)
match_end f g (c ∷ s) = none

-- regex_match with f_fxf_regex: the two captures.
unfoldable pub match_constraint : List Char → Option (List Char × List Char)
unfolding match_name match_literal match_end
match_constraint s = do
  (f, after_f) ← match_name s
  after_x ← match_literal (chars "() -x ") after_f
  (g, after_g) ← match_name after_x
  rest ← match_literal (chars "()") after_g
  match_end f g rest

-- RuleReachability, by the functions that it was made with.
pub record Rule : Type 0 where
  pub source : ℕ
  pub sink : ℕ

-- What AddConstraints says of a constraint.
pub data Notice : Type 0 where
  cannot_find : List Char → Notice
  adding_constraint : ℕ → ℕ → Notice
  cannot_parse : List Char → Notice

-- The members of Analyzer, with what it said, the last first.
pub record Analyzer : Type 0 where
  pub constraints : List Rule
  pub notices : List Notice

say : Notice → Analyzer → Analyzer
say n a = record a { notices = n ∷ a.notices }

add_found : List Char → List Char → Option ℕ → Option ℕ → Analyzer → Analyzer
unfolding say
add_found f g none g? a = say (cannot_find f) a
add_found f g (some x) none a = say (cannot_find g) a
add_found f g (some x) (some y) a =
    say (adding_constraint x y)
      (record a { constraints = a.constraints ++ record { source = x; sink = y } ∷ [] })

look_up_captures : Program → List Char → Option (List Char × List Char) → Analyzer → Analyzer
unfolding say add_found lookup_function
look_up_captures p s none a = say (cannot_parse s) a
look_up_captures p s (some (f, g)) a =
    add_found f g (lookup_function (to_string f) p) (lookup_function (to_string g) p) a

-- Analyzer::AddConstraints
unfoldable pub add_constraints : Program → List (List Char) → Analyzer → Analyzer
unfolding match_constraint look_up_captures
add_constraints p [] a = a
add_constraints p (s ∷ ss) a = add_constraints p ss (look_up_captures p s (match_constraint s) a)

-- Analyzer::Analyze: it runs each rule, with `n` rounds of its traversal; `self_edge` is
-- m_entry_vertex_self_edge of each function. The answer is always true.
unfoldable pub analyze :
    Functions → (ℕ → ℕ) → Heap → ℕ → List Rule → List (Rule × Option Verdict) × Bool
unfolding run_rule
analyze fs self_edge h n rules = (
  map
      (λ r. (
        r,
        run_rule h (fs.entry_vertex_desc r.source) (self_edge r.source)
            (fs.entry_vertex_desc r.sink) n,
      ))
      rules,
  true,
)
