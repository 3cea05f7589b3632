-- ===== src/Examples.antt =====
-- Small control flow graphs: tests of the definitions, and the theorems applied to them.
pub mod Visits
pub mod Chains
pub mod Creation
pub mod Files
pub mod Programs
use coflo.Prelude.{
  ◌||◌, ◌&&◌, not, map, All, ℕ, suc, ◌≡◌, ◌≤◌, ◌++◌, ◌<◌, length, inl, inr, ◌≢◌, refl, true, false,
  List, [], ◌∷◌, Option, none, some, arith, ◌==◌, if◌then◌else◌, contains, is_null,
}
use coflo.Statement.{
  Statement, entry, exit, function_call_unresolved, no_op, label, goto_unlinked, fallthrough,
  unknown_location,
}
use coflo.Graph.{
  Vertex, Edge, Heap, Cfg, empty_graph, new_vertex, add_new_edge, add_vertex, replace_vertex,
  remove_edge, change_target, find_edge,
}
use coflo.Graph.Links.{
  IsLinked, IsDetached, IsBare, add_new_edge-IsLinked, remove_edge-IsLinked, change_target-IsLinked,
}
use coflo.Graph.Counts.{new_vertex-IsLinked}
use coflo.Graph.Ends.{Cut, remove_edge-Cut}
use coflo.Graph.Find.{find_edge_correct}
use coflo.Graph.Index.{IsIndexed, add_vertex-IsIndexed, replace_vertex-IsIndexed}
use coflo.Graph.Replace.{TakesOver, replace_vertex-TakesOver, replace_vertex_duplicate}
use coflo.Build.Resolve.{LabelMap, find_label, resolve_links}
use coflo.Build.Resolve.Links.{Resolved}
use coflo.Build.Resolve.Edges.{IsExtended, Replaces, targets, resolve_links_lem}
use coflo.Build.Create.{BasicBlockLeaderInfo, add_impossible_edges, check_for_no_in_edges}
use coflo.Build.Create.{set_owning_function}
use coflo.Build.Create.Links.{Holds, owned-IsLinked}
use coflo.Build.Create.Leaders.{leaders_of, check-add_impossible_edges}
use coflo.Build.BackEdges.{
  PredecessorMap, predecessor, find_forward_target, out_of_fuel, tree_edge, back_edge,
  fixup_back_edges,
}
use coflo.Build.BackEdges.Links.{fixup_back_edges-Holds}
use coflo.Build.Redundant.Bypass.{Bypassed, bypass-Bypassed}
use coflo.Build.Redundant.{bypass, remove_redundant_nodes}
use coflo.Build.Redundant.Links.{remove_redundant_nodes_correct}
use coflo.Build.Whole.{Built, create_control_flow_graph}
use coflo.Build.Whole.Links.{create_control_flow_graph-IsLinked}
use coflo.Link.{Linker, Functions, collect, link}
use coflo.Link.Collect.{IsCall, missing, found, calls_of, collect_lem}
use coflo.Build.BackEdges.Ascent.{find_forward_target_ends}
use coflo.Link.Links.{link-IsLinked}
use coflo.Degrees.{filtered_in_degree}
use coflo.Degrees.Counts.{kept, through_call, not_returns, filtered_in_degree_lem}
use coflo.Traversal.{gray, put, get}
use coflo.Traversal.Colors.{get-put}
use coflo.Traversal.Dfs.{fault, traverse}
use coflo.Traversal.Dfs.Path.{Trail}
use coflo.Traversal.Reach.{reachability_visitor, violation, no_violation, run_rule}
use coflo.Traversal.Reach.Path.{
  IsTaken, run_rule-Trail, traverse-reachability_visitor, run_rule_self,
}

abbrev blank_vertex : Vertex
blank_vertex = record {
  statement = no_op;
  location = unknown_location;
  owning_function = none;
  out_edges = [];
  in_edges = [];
  vertex_index = 0;
}

abbrev blank_edge : Edge
blank_edge = record { edge_type = fallthrough; source = none; target = none; is_back_edge = false }

abbrev pub empty_heap : Heap
empty_heap = record {
  vertex = λ v. blank_vertex;
  edge = λ e. blank_edge;
  next_vertex = 0;
  next_edge = 0;
  deleted = [];
}

empty_heap-IsLinked : IsLinked empty_heap
empty_heap-IsLinked = record {
  out_links = λ e u. refl;
  in_links = λ e u. refl;
  paired = λ e. refl;
  fresh_edge = λ e p. (refl, refl);
  fresh_vertex = λ v p. (refl, refl);
}

-- Three statements: a jump to the label, a statement that only the impossible edge reaches, the label.
abbrev pub allocate : Statement → Heap → Heap
allocate s h = (new_vertex s unknown_location h).1

abbrev pub program : Cfg
program = record {
  heap = allocate (label "out") (allocate no_op (allocate (goto_unlinked "out") empty_heap));
  graph = empty_graph;
}

pub program-IsLinked : IsLinked program.heap
program-IsLinked =
    let one =
      new_vertex-IsLinked (goto_unlinked "out") unknown_location empty_heap empty_heap-IsLinked in
    let two =
      new_vertex-IsLinked no_op unknown_location (allocate (goto_unlinked "out") empty_heap)
        one.0 in
    (new_vertex-IsLinked (label "out") unknown_location
      (allocate no_op (allocate (goto_unlinked "out") empty_heap)) two.0).0

module _ {A : Type 0} where
  value_of : (o : Option A) → is_null o ≡ false → (b : A) × (o ≡ some b)
  value_of none e = cc
  value_of (some b) e = (b, refl)

abbrev run : Option Built
run = create_control_flow_graph (λ h v. []) 7 unknown_location (0 ∷ 1 ∷ 2 ∷ []) program

returns : is_null run ≡ false
unfolding create_control_flow_graph new_vertex find_label
returns = refl

abbrev built : (b : Built) × (run ≡ some b)
built = value_of run returns

create_control_flow_graph-IsLinked_example : IsLinked built.0.cfg.heap × (built.0.warned ≡ [])
unfolding new_vertex
create_control_flow_graph-IsLinked_example =
    create_control_flow_graph-IsLinked (λ h v. []) 7 unknown_location (0 ∷ 1 ∷ 2 ∷ []) program
      built.0 program-IsLinked (omega arith, (omega arith, (omega arith, tt))) built.1

-- The vertices 0, 1 and 2 in a graph with the edges 0 from 0 to 1 and 1 from 1 to 2.
abbrev bare : Cfg
bare = record (program) {
  graph = record { vertices = 0 ∷ 1 ∷ []; edges = []; vertex_id_state = 0 };
}

abbrev first_edge : Cfg
first_edge = add_new_edge 0 1 fallthrough bare

abbrev chain : Cfg
chain = add_new_edge 1 2 fallthrough first_edge

-- The edge 1 leads back from 1 to 0.
abbrev pub loop : Cfg
loop = add_new_edge 1 0 fallthrough first_edge

first_edge-IsLinked : IsLinked first_edge.heap
unfolding new_vertex
first_edge-IsLinked =
    add_new_edge-IsLinked bare program-IsLinked 0 1 fallthrough (omega arith) (omega arith)

add_new_edge-IsLinked_example : IsLinked first_edge.heap
unfolding new_vertex
add_new_edge-IsLinked_example =
    add_new_edge-IsLinked bare program-IsLinked 0 1 fallthrough (omega arith) (omega arith)

chain-IsLinked : IsLinked chain.heap
unfolding new_vertex add_new_edge
chain-IsLinked =
    add_new_edge-IsLinked first_edge first_edge-IsLinked 1 2 fallthrough (omega arith) (omega arith)

pub loop-IsLinked : IsLinked loop.heap
unfolding new_vertex add_new_edge
loop-IsLinked =
    add_new_edge-IsLinked first_edge first_edge-IsLinked 1 0 fallthrough (omega arith) (omega arith)

-- The function 7 owns the vertex 0.
abbrev pub owned_chain : Cfg
owned_chain = set_owning_function 7 0 chain

pub owned_chain-IsLinked : IsLinked owned_chain.heap
owned_chain-IsLinked = owned-IsLinked 7 0 chain chain-IsLinked

abbrev cut : (c : Cfg) × (remove_edge 0 chain ≡ some c)
unfolding remove_edge add_new_edge new_vertex
cut = value_of (remove_edge 0 chain) refl

remove_edge-IsLinked_example : IsLinked cut.0.heap × IsDetached cut.0.heap 0
remove_edge-IsLinked_example = remove_edge-IsLinked chain chain-IsLinked 0 cut.0 cut.1

remove_edge-Cut_example : (d : Cfg) × (remove_edge 0 chain ≡ some d) × Cut 0 chain d
unfolding add_new_edge new_vertex
remove_edge-Cut_example = remove_edge-Cut 0 0 1 chain refl refl

-- Vertex 2, which has no edge yet, takes the place of vertex 0.
replace_vertex-TakesOver_example :
    ((replace_vertex 0 2 first_edge).1 ≡ true)
    × TakesOver 0 2 first_edge (replace_vertex 0 2 first_edge).0
unfolding add_new_edge new_vertex
replace_vertex-TakesOver_example =
    replace_vertex-TakesOver 0 2 first_edge first_edge-IsLinked (refl, refl) (λ e. omega arith)
      (omega arith) refl

replace_vertex_duplicate_example :
    ((replace_vertex 0 1 chain).1 ≡ false)
    × IsLinked (replace_vertex 0 1 chain).0.heap
    × ((replace_vertex 0 1 chain).0.graph.vertices ≡ chain.graph.vertices)
unfolding add_new_edge new_vertex
replace_vertex_duplicate_example = replace_vertex_duplicate 0 1 chain chain-IsLinked refl

find_edge_correct_example :
    ((e : ℕ)
      → find_edge 0 1 chain ≡ some e
      → ((chain.heap.edge e).source ≡ some 0) × ((chain.heap.edge e).target ≡ some 1))
    × (find_edge 0 1 chain ≡ none
        → (e : ℕ) → (chain.heap.edge e).source ≡ some 0
        → (chain.heap.edge e).target ≢ some 1)
find_edge_correct_example = find_edge_correct 0 1 chain chain-IsLinked

empty_program-IsIndexed : IsIndexed program
empty_program-IsIndexed = record { below = λ v p. cc; distinct = λ v w p q e. cc }

abbrev indexed_program : Cfg
indexed_program = (add_vertex 1 (add_vertex 0 program).0).0

add_vertex-IsIndexed_example : IsIndexed (add_vertex 0 program).0
add_vertex-IsIndexed_example = add_vertex-IsIndexed 0 program empty_program-IsIndexed

replace_vertex-IsIndexed_example : IsIndexed (replace_vertex 0 2 indexed_program).0
replace_vertex-IsIndexed_example = replace_vertex-IsIndexed 0 2 indexed_program (
    add_vertex-IsIndexed 1 (add_vertex 0 program).0
      (add_vertex-IsIndexed 0 program empty_program-IsIndexed))

-- The path that the rule reports: the edges 1 and 0 over the self edge 9.
abbrev reported_path : List ℕ
reported_path = 1 ∷ 0 ∷ 9 ∷ []

finds_path : run_rule owned_chain.heap 0 9 2 2 ≡ some (violation reported_path)
unfolding run_rule add_new_edge new_vertex
finds_path = refl

finds_none : run_rule (set_owning_function 7 0 first_edge).heap 0 9 2 4 ≡ some no_violation
unfolding run_rule add_new_edge new_vertex
finds_none = refl

run_rule-Trail_example : Trail owned_chain.heap (IsTaken owned_chain.heap) 0 2 reported_path
run_rule-Trail_example =
    run_rule-Trail owned_chain.heap 0 9 2 2 reported_path owned_chain-IsLinked finds_path

run_rule_self_example : run_rule owned_chain.heap 0 9 0 (suc 4) ≡ some no_violation
run_rule_self_example = run_rule_self owned_chain.heap 0 9 7 4 refl

traverse-reachability_visitor_example :
    traverse owned_chain.heap (reachability_visitor owned_chain.heap (λ v. v == 2)) 0 (9 ∷ []) 3
    ≢ fault
traverse-reachability_visitor_example =
    traverse-reachability_visitor owned_chain.heap (λ v. v == 2) 0 9 7 3 owned_chain-IsLinked refl

get-put_example :
    ((get 4 (put 3 gray [])).0 ≡ (if 3 == 4 then gray else (get 4 []).0))
    × ((get 4 (get 3 []).1).0 ≡ (get 4 []).0)
get-put_example = get-put 3 4 gray []

abbrev leaders : List BasicBlockLeaderInfo
leaders = record { leader = 2; immediate_predecessor = 0 } ∷ []

check-add_impossible_edges_example :
    check_for_no_in_edges (leaders_of leaders) (add_impossible_edges leaders first_edge).heap
    ≡ ([], false)
check-add_impossible_edges_example = check-add_impossible_edges leaders first_edge

remove_redundant_nodes_correct_example :
    (d : Cfg) × (remove_redundant_nodes chain ≡ some d)
    × Holds chain.heap.next_vertex d
    × ((v : ℕ) → contains v d.graph.vertices ≡ true → contains v chain.graph.vertices ≡ true)
    × ((v : ℕ)
        → contains v chain.graph.vertices ≡ true
        → contains v d.graph.vertices ≡ false
        → IsBare d.heap v)
    × ((v : ℕ)
        → contains v d.heap.deleted ≡ (
            contains v chain.heap.deleted
            || (contains v chain.graph.vertices && not (contains v d.graph.vertices))))
remove_redundant_nodes_correct_example = remove_redundant_nodes_correct chain chain-IsLinked

abbrev labels : LabelMap
labels = ("out", 2) ∷ []

resolve_links_lem_example :
    Resolved 0 bare (resolve_links 0 labels bare)
    × IsExtended 0 bare
        (resolve_links 0 labels bare).0
        (targets (bare.heap.vertex 0).statement labels)
    × Replaces 0 bare
        (bare.heap.vertex 0).statement
        (targets (bare.heap.vertex 0).statement labels)
        (resolve_links 0 labels bare)
unfolding new_vertex
resolve_links_lem_example =
    resolve_links_lem 0 labels bare program-IsLinked (omega arith) (omega arith, tt)

-- The vertex 0 calls the function 1, whose entry and exit are the vertices 1 and 2; a fallthrough leads
-- from 0 to 2.
abbrev caller : Cfg
caller = record {
  heap = allocate exit (allocate entry (allocate (function_call_unresolved "g" "()") empty_heap));
  graph = record { vertices = 0 ∷ []; edges = []; vertex_id_state = 1 };
}

abbrev calling : Cfg
calling = add_new_edge 0 2 fallthrough caller

calling-IsLinked : IsLinked calling.heap
unfolding new_vertex
calling-IsLinked =
    let one =
      new_vertex-IsLinked (function_call_unresolved "g" "()") unknown_location empty_heap
        empty_heap-IsLinked in
    let h = allocate (function_call_unresolved "g" "()") empty_heap in
    let two = new_vertex-IsLinked entry unknown_location h one.0 in
    add_new_edge-IsLinked caller
      (new_vertex-IsLinked exit unknown_location (allocate entry h) two.0).0 0 2 fallthrough
      (omega arith) (omega arith)

abbrev functions : Functions
functions = record {
  function_map = ("g", 1) ∷ [];
  entry_vertex_desc = λ f. 1;
  exit_vertex_desc = λ f. 2;
}

abbrev linker : Linker
linker = record { heap = calling.heap; cfg_of = λ f. calling.graph; unresolved_function_calls = [] }

links : is_null (link functions 0 linker) ≡ false
unfolding link add_new_edge new_vertex
links = refl

abbrev linked_program : (s : Linker) × (link functions 0 linker ≡ some s)
linked_program = value_of (link functions 0 linker) links

link-IsLinked_example :
    IsLinked linked_program.0.heap
    × (linker.heap.next_vertex ≤ linked_program.0.heap.next_vertex)
    × ((v : ℕ)
        → contains v linked_program.0.heap.deleted ≡ (
            contains v
              (map (λ (x : ℕ × ℕ). x.0) (found functions linker.heap (linker.cfg_of 0).vertices))
            || contains v linker.heap.deleted))
unfolding add_new_edge new_vertex
link-IsLinked_example =
    link-IsLinked functions 0 linker linked_program.0 calling-IsLinked
      (λ g. (omega arith, omega arith)) (omega arith, tt) linked_program.1

collect_lem_example :
    ((collect functions (0 ∷ []) (linker, [])).0.unresolved_function_calls
      ≡ linker.unresolved_function_calls ++ missing functions linker.heap (0 ∷ []))
    × (calls_of (collect functions (0 ∷ []) (linker, [])).1 ≡ found functions linker.heap (0 ∷ []))
    × All
        (IsCall functions linker.heap (collect functions (0 ∷ []) (linker, [])).0.heap)
        (collect functions (0 ∷ []) (linker, [])).1
    × ((w : ℕ)
        → w < linker.heap.next_vertex
        → (collect functions (0 ∷ []) (linker, [])).0.heap.vertex w ≡ linker.heap.vertex w)
unfolding add_new_edge new_vertex
collect_lem_example = collect_lem functions (0 ∷ []) linker (omega arith, tt)

-- The search tree of the graph `loop` has the edge 0 from its root 0 to 1.
abbrev tree : PredecessorMap
tree = (1, 0) ∷ []

find_forward_target_ends_example :
    find_forward_target (suc (length tree)) tree loop.heap 0 1 ≢ out_of_fuel
unfolding add_new_edge new_vertex predecessor
find_forward_target_ends_example =
    find_forward_target_ends 0 0 1 loop.heap tree ((λ e. omega arith), refl, 0, refl, inl refl, tt)
      (inr (0, refl))

one_in : (chain.heap.vertex 1).in_edges ≡ 0 ∷ []
unfolding add_new_edge new_vertex
one_in = refl

one_out : (chain.heap.vertex 1).out_edges ≡ 1 ∷ []
unfolding add_new_edge new_vertex
one_out = refl

-- The vertex 1 of the chain is bypassed.
bypass-Bypassed_example :
    (d : Cfg) × (bypass 0 1 chain ≡ some d)
    × Bypassed 1 0 1 chain chain-IsLinked one_in one_out 2 d
    × Holds chain.heap.next_vertex d
    × (d.graph.vertices ≡ chain.graph.vertices)
unfolding add_new_edge new_vertex
bypass-Bypassed_example = bypass-Bypassed 1 0 1 chain chain-IsLinked one_in one_out 2 refl

filtered_in_degree_lem_example :
    filtered_in_degree chain.heap 1 false
    ≡ length (
        not_returns chain.heap
          (through_call chain.heap (kept chain.heap false (chain.heap.vertex 1).in_edges)))
filtered_in_degree_lem_example = filtered_in_degree_lem chain.heap 1 false
