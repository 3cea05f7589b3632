-- ===== src/Examples/Files.antt =====
-- The parsing of a file, and the commands for it, at concrete inputs.
use Prim.Native.Char.{Char}
use coflo.Prelude.{
  Bool, true, subst, eq_of_some, All, ℕ, ◌≡◌, ◌++◌, refl, List, [], ◌∷◌, Option, none, some, arith,
  chars,
}
use coflo.Statement.{no_op, unknown_location}
use coflo.Graph.{Heap, empty_graph, new_vertex}
use coflo.Build.Whole.Start.{IsWhole-new_vertex}
use coflo.Location.{location}
use coflo.Location.Texts.{location_at}
use coflo.Program.{Program, parse_files, parse}
use coflo.Program.Links.{IsProgram}
use coflo.Program.Files.{parse_unit, parse_lem}
use coflo.TranslationUnit.{FunctionInfo, compile_parameters, definition_location, parse_file}
use coflo.TranslationUnit.Ready.{IsBuilt, IsAllocated, Switchless}
use coflo.TranslationUnit.Total.{IsParser, NoSwitch, answer, new_defs, infos, parse_file_total}
use coflo.Examples.{program, program-IsLinked}
use coflo.Examples.Creation.{program-IsWhole, first_event, events-IsSearch}

abbrev empty_program : Program
empty_program = record {
  functions = record { function_map = []; entry_vertex_desc = λ f. 0; exit_vertex_desc = λ f. 0 };
  linker = record {
    heap = program.heap;
    cfg_of = λ f. empty_graph;
    unresolved_function_calls = [];
  };
  function_defs = λ tu. [];
  next_function = 0;
}

empty_program-IsBuilt : IsBuilt empty_program
unfolding new_vertex
empty_program-IsBuilt = record {
  ready = record {
    links = program-IsLinked;
    ends = λ g. (omega arith, omega arith);
    below = λ g. tt;
  };
  decided = program-IsWhole.decided;
}

-- A parser that finds a function of one statement in every file.
abbrev found_heap : Heap → Heap
found_heap h = (new_vertex no_op unknown_location h).1

abbrev parse_gimple : List Char → Heap → Heap × Option (List FunctionInfo)
parse_gimple text h =
    (found_heap h, some (record { identifier = "main"; statement_list = h.next_vertex ∷ [] } ∷ []))

abbrev generate_cfg : List Char → List Char → ℕ
generate_cfg params file_path = 0

abbrev path_of : ℕ → List Char
path_of tu = chars "main.c"

abbrev gimple_file : ℕ → Option (List Char)
gimple_file tu = some (chars "main ()\r\n")

parse_gimple-IsParser : IsParser parse_gimple
unfolding new_vertex
parse_gimple-IsParser text h links decided =
    let w =
      IsWhole-new_vertex no_op unknown_location (record { heap = h; graph = empty_graph }) refl
        (record { links = links; inside = λ v h. cc; decided = decided }) in
    (
      w.links,
      w.decided,
      omega arith,
      λ fil found.
          subst (All (λ (fi : FunctionInfo). IsAllocated (found_heap h) fi.statement_list))
            (eq_of_some found) (((refl, tt), λ v mem. ground (arith, mem)), tt),
    )

parse_gimple-NoSwitch : (tu : ℕ) (h : Heap) → NoSwitch parse_gimple (gimple_file tu) h
unfolding new_vertex
parse_gimple-NoSwitch tu h fil found =
    subst (All (λ (fi : FunctionInfo). Switchless (found_heap h) fi.statement_list))
      (eq_of_some found) ((λ v mem. ground (arith, mem)), tt)

parse_file_total_example :
    (q : Program) × (parse_file first_event unknown_location path_of generate_cfg gimple_file
        parse_gimple [] [] 4 empty_program
      ≡ some (answer (gimple_file 4), q))
    × IsBuilt q
    × (q.function_defs 4
        ≡ empty_program.function_defs 4
          ++ new_defs empty_program.next_function
              (infos parse_gimple (gimple_file 4) empty_program.linker.heap))
parse_file_total_example =
    parse_file_total first_event unknown_location path_of
      (λ h v linked. events-IsSearch h v (h.vertex v).out_edges linked refl) generate_cfg
      gimple_file parse_gimple [] [] 4 empty_program parse_gimple-IsParser
      (parse_gimple-NoSwitch 4 empty_program.linker.heap) refl empty_program-IsBuilt

abbrev parse_main : ℕ → Program → Option (Bool × Program)
parse_main =
    parse_unit first_event unknown_location path_of generate_cfg gimple_file parse_gimple [] []

parse_lem_example :
    (q : Program) × (parse_files parse_main (4 ∷ 5 ∷ []) empty_program ≡ some (true, q))
    × IsBuilt q
    × ((y : Bool × Program)
        → parse parse_main (4 ∷ 5 ∷ []) empty_program ≡ some y
        → (y.0 ≡ true) × IsProgram y.1)
parse_lem_example =
    parse_lem first_event unknown_location path_of generate_cfg gimple_file parse_gimple [] []
      (λ h v linked. events-IsSearch h v (h.vertex v).out_edges linked refl) parse_gimple-IsParser
      parse_gimple-NoSwitch (λ tu. refl) (4 ∷ 5 ∷ []) empty_program empty_program-IsBuilt

finds_parameters :
    compile_parameters (chars "A=1" ∷ chars "B" ∷ []) (chars "include" ∷ [])
    ≡ chars " -D \"A=1\" -D \"B\" -I \"include\""
unfolding compile_parameters
finds_parameters = refl

finds_location :
    definition_location unknown_location (chars "main.c") ≡ location_at (chars "main.c") 0 none
unfolding definition_location location
finds_location = refl
