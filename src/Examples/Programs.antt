-- ===== src/Examples/Programs.antt =====
-- Small programs: linking, and constraints on them.
use mathlib.Core.List.Memᴰ.{Memᴰ, head}
use Prim.Native.Char.{Char, code}
use coflo.Prelude.{
  chars, ◌≡◌, ◌↔◌, refl, true, List, [], ◌∷◌, ◌++◌, none, some, if◌then◌else◌, ◌==◌,
}
use coflo.Graph.{add_new_edge, new_vertex}
use coflo.Program.{Program}
use coflo.Traversal.Reach.{violation}
use coflo.Traversal.Reach.Path.{IsTaken}
use coflo.Traversal.Dfs.Path.{Trail}
use coflo.Analyzer.{Analyzer, Rule, match_constraint, add_constraints, analyze}
use coflo.Analyzer.Constraint.{is_name, constraint_text, match_constraint_lem}
use coflo.Analyzer.Paths.{IsAsked, analyze-Trail}
use coflo.ResponseFile.{put_before, parse_response_file}
use coflo.ResponseFile.Lines.{unlines, arguments_of, parse_response_file-unlines}
use coflo.Examples.{owned_chain, owned_chain-IsLinked, linker, reported_path}

match_constraint_lem_example :
    (match_constraint (chars "main() -x exit_now()") ≡ some (chars "main", chars "exit_now")) ↔ (
      (is_name (chars "main") ≡ true)
      × (is_name (chars "exit_now") ≡ true)
      × (chars "main() -x exit_now()" ≡ constraint_text (chars "main") (chars "exit_now")))
match_constraint_lem_example =
    match_constraint_lem (chars "main() -x exit_now()") (chars "main") (chars "exit_now")

-- A function with a name of one letter is not understood.
rejects_short_name : match_constraint (chars "f() -x exit_now()") ≡ none
unfolding match_constraint
rejects_short_name = refl

-- The functions 0 and 2, whose entries are the vertices 0 and 2 of the chain.
abbrev chain_program : Program
chain_program = record {
  functions = record {
    function_map = ("f0", 0) ∷ ("f2", 2) ∷ [];
    entry_vertex_desc = λ f. f;
    exit_vertex_desc = λ f. f;
  };
  linker = linker;
  function_defs = λ tu. [];
  next_function = 3;
}

abbrev new_analyzer : Analyzer
new_analyzer = record { constraints = []; notices = [] }

abbrev texts : List (List Char)
texts = chars "f0() -x f2()" ∷ []

abbrev asked_rule : Rule
asked_rule = record { source = 0; sink = 2 }

adds_rule : (add_constraints chain_program texts new_analyzer).constraints ≡ asked_rule ∷ []
unfolding add_constraints
adds_rule = refl

finds_violation :
    Memᴰ
      (asked_rule, some (violation reported_path))
      (analyze chain_program.functions
        (λ f. 9)
        owned_chain.heap
        2
        (add_constraints chain_program texts new_analyzer).constraints).0
unfolding analyze add_constraints add_new_edge new_vertex
finds_violation = head refl

analyze-Trail_example :
    IsAsked chain_program texts asked_rule
    × Trail owned_chain.heap (IsTaken owned_chain.heap) 0 2 reported_path
analyze-Trail_example =
    analyze-Trail chain_program texts new_analyzer (λ f. 9) owned_chain.heap 2 asked_rule
      reported_path owned_chain-IsLinked refl finds_violation

-- A tokenizer that knows no quotes.
abbrev split_at_spaces : List Char → List (List Char)
split_at_spaces [] = [] ∷ []
split_at_spaces (c ∷ s) =
    let rest = split_at_spaces s in if code c == 32 then [] ∷ rest else put_before c rest

abbrev response_lines : List (List Char)
response_lines = chars "# The report." ∷ [] ∷ chars " --report  out" ∷ chars "a.c" ∷ []

abbrev earlier_arguments : List (List Char)
earlier_arguments = chars "-v" ∷ []

parses_response_file :
    parse_response_file split_at_spaces (some (unlines response_lines)) earlier_arguments
    ≡ chars "-v" ∷ chars "--report" ∷ chars "out" ∷ chars "a.c" ∷ []
unfolding parse_response_file
parses_response_file = refl

parse_response_file-unlines_example :
    parse_response_file split_at_spaces (some (unlines response_lines)) earlier_arguments
    ≡ earlier_arguments ++ arguments_of split_at_spaces response_lines
parse_response_file-unlines_example =
    parse_response_file-unlines split_at_spaces response_lines earlier_arguments
      (refl, (refl, (refl, (refl, tt))))
