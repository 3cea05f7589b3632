-- ===== src/TranslationUnit.antt =====
-- TranslationUnit::ParseFile and the functions that it calls: src/TranslationUnit.cpp. The commands that the
-- compiler tool runs, the files and the generated parser are arguments. `none` is the exit of the process,
-- an exception or undefined behaviour.
pub mod Ready
pub mod Total
use Prim.Native.Char.{Char, code}
use text.Mathlib.Text.{◌==◌ as str_eq}
use coflo.Prelude.{
  ℕ, suc, ◌+◌, String, Bool, true, false, List, [], ◌∷◌, ◌++◌, Option, none, some, ◌>>=◌,
  if◌then◌else◌, ◌==◌, update, chars,
}
use coflo.Statement.{Location}
use coflo.Graph.{Heap, Cfg, empty_graph}
use coflo.Location.{Construction, located, unparsable, undefined, location}
use coflo.Build.BackEdges.{DfsEvent}
use coflo.Build.Whole.{Built, create_control_flow_graph}
use coflo.Link.{Linker, Functions}
use coflo.Program.{Program}

-- What the parser finds of a function.
pub record FunctionInfo : Type 0 where
  pub identifier : String
  pub statement_list : List ℕ

-- The removal of carriage returns.
pub strip_crs : List Char → List Char
strip_crs [] = []
strip_crs (c ∷ s) = let rest = strip_crs s in if code c == 13 then rest else c ∷ rest

add_options : List Char → List (List Char) → List Char → List Char
add_options option [] params = params
add_options option (d ∷ ds) params = add_options option ds (params ++ option ++ d ++ "\"" ∷ [])

-- The parameters of the compile command.
unfoldable pub compile_parameters : List (List Char) → List (List Char) → List Char
unfolding add_options
compile_parameters defines include_paths =
    add_options (chars " -I \"") include_paths (add_options (chars " -D \"") defines [])

-- `(*function_map)[k] = f`
pub put_function : String → ℕ → List (String × ℕ) → List (String × ℕ)
put_function k f [] = (k, f) ∷ []
put_function k f ((j, g) ∷ m) = if str_eq j k then (j, f) ∷ m else (j, g) ∷ put_function k f m

-- The location of ENTRY and EXIT in a file; `unset` are the members where the constructor sets none.
unfoldable pub definition_location : Location → List Char → Location
definition_location unset path = elim (location ("[" ∷ path ++ chars " : 0]")) [
  | located l ↦ l
  | unparsable ↦ unset
  | undefined ↦ unset
]

-- A new function with this control flow graph.
pub add_function : ℕ → String → Built → Program → Program
unfolding put_function
add_function tu identifier b p =
    let f = p.next_function in
    record {
      functions = record {
        function_map = put_function identifier f p.functions.function_map;
        entry_vertex_desc = update p.functions.entry_vertex_desc f b.entry_vertex_desc;
        exit_vertex_desc = update p.functions.exit_vertex_desc f b.exit_vertex_desc;
      };
      linker = record (p.linker) {
        heap = b.cfg.heap;
        cfg_of = update p.linker.cfg_of f b.cfg.graph;
      };
      function_defs = update p.function_defs tu (p.function_defs tu ++ f ∷ []);
      next_function = suc f;
    }

-- The heap with the graph of a new function.
abbrev pub new_graph : Program → Cfg
new_graph p = record { heap = p.linker.heap; graph = empty_graph }

module _ (search : Heap → ℕ → List DfsEvent) (unset : Location) (path_of : ℕ → List Char) where
  pub build_function : ℕ → FunctionInfo → Program → Option Program
  unfolding add_function create_control_flow_graph definition_location
  build_function tu fi p = do
    b ←
        create_control_flow_graph search p.next_function (definition_location unset (path_of tu))
          fi.statement_list (new_graph p)
    some (add_function tu fi.identifier b p)

  -- TranslationUnit::BuildFunctionsFromThreeAddressFormStatementLists
  pub build_functions : ℕ → List FunctionInfo → Program → Option Program
  unfolding build_function
  build_functions tu [] p = some p
  build_functions tu (fi ∷ function_info_list) p = do
    q ← build_function tu fi p
    build_functions tu function_info_list q

  module _ (generate_cfg : List Char → List Char → ℕ) (gimple_file : ℕ → Option (List Char))
      (parse_gimple : List Char → Heap → Heap × Option (List FunctionInfo))
      (defines include_paths : List (List Char)) where
    -- TranslationUnit::CompileSourceFile, which exits if the command's return value is not 0.
    pub compile_source_file : List Char → Option (Unit {0})
    unfolding compile_parameters
    compile_source_file file_path =
        if generate_cfg (compile_parameters defines include_paths) file_path == 0
        then some tt
        else none

    -- The functions that the parser finds are built; where it finds no tree or syntax errors, none are.
    pub build_tree : ℕ → Option (List FunctionInfo) → Program → Option (Bool × Program)
    unfolding build_functions
    build_tree tu none p = some (true, p)
    build_tree tu (some fil) p = do q ← build_functions tu fil p; some (true, q)

    pub parse_text : ℕ → Option (List Char) → Program → Option (Bool × Program)
    unfolding build_tree strip_crs
    parse_text tu none p = some (false, p)
    parse_text tu (some text) p =
        let (h, tree) = parse_gimple (strip_crs text) p.linker.heap in
        build_tree tu tree (record p { linker = record (p.linker) { heap = h } })

    -- TranslationUnit::ParseFile
    pub parse_file : ℕ → Program → Option (Bool × Program)
    unfolding parse_text compile_source_file
    parse_file tu p = do
      compiled ← compile_source_file (path_of tu)
      parse_text tu (gimple_file tu) p
