-- ===== src/TranslationUnit/Total.antt =====
-- That ParseFile returns: src/TranslationUnit.cpp.
use Prim.Native.Char.{Char}
use mathlib.Core.List.{append_assoc, append-nil}
use coflo.Prelude.{
  ℕ, suc, ◌≤◌, ◌<◌, ◌≡◌, refl, ap, sym, ◌∙◌, Bool, true, false, List, [], ◌∷◌, ◌++◌, Option, none,
  some, arith, All, All-map,
}
use coflo.Statement.{Location}
use coflo.Graph.{Heap, empty_graph}
use coflo.Graph.Links.{IsLinked}
use coflo.Build.Grows.{Decided}
use coflo.Build.BackEdges.{DfsEvent}
use coflo.Build.BackEdges.Total.{IsSearch}
use coflo.Build.Whole.Start.{All-both}
use coflo.Build.Whole.Total.{create_control_flow_graph_total}
use coflo.Program.{Program}
use coflo.TranslationUnit.{
  FunctionInfo, add_function, new_graph, definition_location, build_function, build_functions,
  build_tree, parse_text, parse_file, strip_crs, compile_source_file, compile_parameters,
}
use coflo.TranslationUnit.Ready.{
  IsBuilt, IsAllocated, Switchless, AreStatements, addresses, allocated-IsStatements,
  new_graph-IsWhole, IsStatements-IsList, IsStatements-Keeps, add_function-IsBuilt,
  add_function-defs,
}

module _ (parse_gimple : List Char → Heap → Heap × Option (List FunctionInfo)) where
  -- The parser allocates statements, keeps the links consistent, and finds statements that are allocated,
  -- none of them twice in a function.
  abbrev pub IsParser : Type 0
  IsParser =
      (text : List Char) (h : Heap)
      → IsLinked h
      → Decided (record { heap = h; graph = empty_graph })
      → IsLinked (parse_gimple text h).0
        × Decided (record { heap = (parse_gimple text h).0; graph = empty_graph })
        × (h.next_vertex ≤ (parse_gimple text h).0.next_vertex)
        × ((fil : List FunctionInfo)
            → (parse_gimple text h).1 ≡ some fil
            → All (λ (fi : FunctionInfo). IsAllocated (parse_gimple text h).0 fi.statement_list)
                fil)

  -- What is found in a file.
  abbrev pub infos : Option (List Char) → Heap → Option (List FunctionInfo)
  infos none h = none
  infos (some text) h = (parse_gimple (strip_crs text) h).1

  -- None of the statements that are found is a switch.
  abbrev pub NoSwitch : Option (List Char) → Heap → Type 0
  NoSwitch none h = Unit
  NoSwitch (some text) h =
      (fil : List FunctionInfo)
      → (parse_gimple (strip_crs text) h).1 ≡ some fil
      → All
          (λ (fi : FunctionInfo). Switchless (parse_gimple (strip_crs text) h).0 fi.statement_list)
          fil

-- What ParseFile answers, and the functions that it adds, none where there is no tree.
abbrev pub answer : Option (List Char) → Bool
answer none = false
answer (some text) = true

abbrev pub new_defs : ℕ → Option (List FunctionInfo) → List ℕ
new_defs f none = []
new_defs f (some fil) = addresses f fil

module _ (search : Heap → ℕ → List DfsEvent) (unset : Location) (path_of : ℕ → List Char)
    (searches : (h : Heap) (v : ℕ) → IsLinked h → IsSearch h [] (search h v)) where
  -- One more function: its address, and the statements that wait.
  build_function_total :
      (tu : ℕ) (fi : FunctionInfo) (fil : List FunctionInfo) (p : Program)
      → IsBuilt p
      → AreStatements p.linker.heap (fi ∷ fil)
      → (q : Program) × (build_function search unset path_of tu fi p ≡ some q)
        × IsBuilt q
        × AreStatements q.linker.heap fil
        × (q.function_defs tu ≡ p.function_defs tu ++ p.next_function ∷ [])
        × (q.next_function ≡ suc p.next_function)
  unfolding build_function add_function
  build_function_total tu fi fil p built s =
      let (b, returns, c) =
        create_control_flow_graph_total search p.next_function
          (definition_location unset (path_of tu)) fi.statement_list (new_graph p) searches
          (new_graph-IsWhole p built) (IsStatements-IsList p fi.statement_list s.0) in
      (
        add_function tu fi.identifier b p,
        rw (build_function, returns) refl,
        add_function-IsBuilt tu fi p b built c,
        All-map _ _ fil
            (λ fi'.
              IsStatements-Keeps (new_graph p) b.cfg fi'.statement_list (omega (arith, c.grown))
                c.keeps)
            s.1,
        add_function-defs tu fi p b,
        refl,
      )

  -- The functions of a file are built.
  build_functions_total :
      (tu : ℕ) (fil : List FunctionInfo) (p : Program)
      → IsBuilt p
      → AreStatements p.linker.heap fil
      → (q : Program) × (build_functions search unset path_of tu fil p ≡ some q)
        × IsBuilt q
        × (q.function_defs tu ≡ p.function_defs tu ++ addresses p.next_function fil)
  unfolding build_functions
  build_functions_total tu [] p built s = (p, refl, built, sym (append-nil (p.function_defs tu)))
  build_functions_total tu (fi ∷ fil) p built s =
      let (q, first, built₁, s₁, defs₁, next) = build_function_total tu fi fil p built s in
      let (r, rest, built₂, defs₂) = build_functions_total tu fil q built₁ s₁ in
      (
        r,
        rw (build_functions, first) rest,
        built₂,
        defs₂
            ∙ ap (λ (xs : List ℕ). xs ++ addresses q.next_function fil) defs₁
            ∙ ap (λ (f : ℕ). (p.function_defs tu ++ p.next_function ∷ []) ++ addresses f fil) next
            ∙ append_assoc (p.function_defs tu) (p.next_function ∷ [])
                (addresses (suc p.next_function) fil),
      )

  module _ (generate_cfg : List Char → List Char → ℕ) (gimple_file : ℕ → Option (List Char))
      (parse_gimple : List Char → Heap → Heap × Option (List FunctionInfo))
      (defines include_paths : List (List Char)) where
    build_tree_total :
        (tu : ℕ) (tree : Option (List FunctionInfo)) (p : Program)
        → IsBuilt p
        → ((fil : List FunctionInfo) → tree ≡ some fil → AreStatements p.linker.heap fil)
        → (q : Program) × (build_tree search unset path_of generate_cfg gimple_file parse_gimple
              defines include_paths tu tree p
            ≡ some (true, q))
          × IsBuilt q
          × (q.function_defs tu ≡ p.function_defs tu ++ new_defs p.next_function tree)
    unfolding build_tree
    build_tree_total tu none p built s = (p, refl, built, sym (append-nil (p.function_defs tu)))
    build_tree_total tu (some fil) p built s =
        let (q, all, built', defs) = build_functions_total tu fil p built (s fil refl) in
        (q, rw (build_tree, all) refl, built', defs)

    parse_text_total :
        (tu : ℕ) (text : Option (List Char)) (p : Program)
        → IsParser parse_gimple
        → NoSwitch parse_gimple text p.linker.heap
        → IsBuilt p
        → (q : Program) × (parse_text search unset path_of generate_cfg gimple_file parse_gimple
              defines include_paths tu text p
            ≡ some (answer text, q))
          × IsBuilt q
          × (q.function_defs tu
              ≡ p.function_defs tu
                ++ new_defs p.next_function (infos parse_gimple text p.linker.heap))
    unfolding parse_text
    parse_text_total tu none p parser plain built =
        (p, refl, built, sym (append-nil (p.function_defs tu)))
    parse_text_total tu (some text) p parser plain built =
        let (links, decided, le, s) =
          parser (strip_crs text) p.linker.heap built.ready.links built.decided in
        let (h, tree) = parse_gimple (strip_crs text) p.linker.heap in
        let p' : Program = record p { linker = record (p.linker) { heap = h } } in
        build_tree_total tu tree p'
          (record {
            ready = record {
              links = links;
              ends = λ g. (
                omega (arith, (built.ready.ends g).0, le),
                omega (arith, (built.ready.ends g).1, le),
              );
              below = λ g.
                  All-map (λ (v : ℕ). v < p.linker.heap.next_vertex) _ (p.linker.cfg_of g).vertices
                    (λ v lt. omega (arith, lt, le)) (built.ready.below g);
            };
            decided = decided;
          })
          (λ fil found.
            All-map _ _ fil (λ fi x. allocated-IsStatements h fi.statement_list x.0 x.1)
              (All-both _ _ fil (s fil found) (plain fil found)))

    -- With a search that reports what a depth-first search of a graph does, and a parser that keeps links
    -- consistent and gives lists of statements that are allocated, none of them twice in a list: if the
    -- compiler's command returns 0 and the parser finds no switch in the file, ParseFile returns on a
    -- program that is ready, and leaves it ready, with a function for each that the parser finds behind
    -- the unit's functions. It answers that the parse succeeded wherever the file can be opened, also where
    -- the parser finds no tree, and then adds no function.
    pub parse_file_total :
        (tu : ℕ) (p : Program)
        → IsParser parse_gimple
        → NoSwitch parse_gimple (gimple_file tu) p.linker.heap
        → generate_cfg (compile_parameters defines include_paths) (path_of tu) ≡ 0
        → IsBuilt p
        → (q : Program) × (parse_file search unset path_of generate_cfg gimple_file parse_gimple
              defines include_paths tu p
            ≡ some (answer (gimple_file tu), q))
          × IsBuilt q
          × (q.function_defs tu
              ≡ p.function_defs tu
                ++ new_defs p.next_function (infos parse_gimple (gimple_file tu) p.linker.heap))
    unfolding parse_file compile_source_file
    parse_file_total tu p parser plain compiled built =
        let (q, parsed, built', defs) = parse_text_total tu (gimple_file tu) p parser plain built in
        (q, rw (parse_file, compiled) parsed, built', defs)
