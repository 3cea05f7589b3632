-- ===== src/Examples/Visits.antt =====
-- Visits of small graphs.
use coflo.Prelude.{
  ℕ, ◌≡◌, ◌↔◌, refl, Bool, true, false, List, [], ◌∷◌, ◌++◌, none, some, arith, ap, sym, ◌∙◌,
  eq_of_some, update, if_keeps, contains, if◌then◌else◌, ◌==◌, is_null,
}
use coflo.Prelude.Int.{pos}
use coflo.Statement.{entry, exit}
use coflo.Statement.Text.{escapeify_for_use_in_dot_label, unescape, unescape-escapeify}
use coflo.Graph.{Vertex, Heap, add_new_edge, new_vertex}
use coflo.Visit.{Visitor, EdgeAnswer, terminate_branch, finished, ok, improved_depth_first_visit}
use coflo.Visit.Reach.{Reachable, IsPlain, IsDistinct}
use coflo.Visit.Rounds.{improved_depth_first_visit_lem}
use coflo.Graphviz
use coflo.Graphviz.{is_ignored, print_control_flow_graph_dot}
use coflo.Graphviz.Lines.{vertex_lines, print_control_flow_graph_dot_lem}
use coflo.Degrees
use coflo.Printing
use coflo.Printing.{Printer, print_control_flow_graph}
use coflo.Printing.FirstFrame.{IsFirst, print_control_flow_graph-IsFirst}
use coflo.Printing.InDegree.{filtered_in_degree-agree}
use coflo.Topological
use coflo.Topological.{State, topological_visit_kahn}
use coflo.Topological.Order.{left, IsOrdered}
use coflo.Topological.Order.Removals.{IsLogging}
use coflo.Topological.Order.Rounds.{topological_visit_kahn-IsOrdered}
use coflo.Version.{VersionNumber, equals, less, check_if_version_is_usable, first_usable}
use coflo.Version.Order.{IsBefore, less_order, equals_lem}
use coflo.Examples.{
  owned_chain, owned_chain-IsLinked, loop, loop-IsLinked, chain, chain-IsLinked, blank_vertex,
  blank_edge, value_of,
}

-- A visitor that notes the vertices that it discovers.
abbrev noting : Visitor (List ℕ)
noting = record {
  start_vertex = λ v w. some w;
  discover_vertex = λ v w. (ok, v ∷ w);
  examine_edge = λ e w. (ok, w);
  tree_edge = λ e w. (ok, w);
  back_edge = λ e w. w;
  forward_or_cross_edge = λ e w. w;
  finish_vertex = λ v w. w;
}

noting-IsPlain : IsPlain noting (λ e. false) (λ w. w)
noting-IsPlain = record {
  discovers = λ v w. (v ∷ w, refl, refl);
  examines = λ e w. (w, refl, refl);
  trees = λ e w. (w, refl, refl);
  backs = λ e w. refl;
  crosses = λ e w. refl;
  finishes = λ v w. refl;
}

visits_chain : improved_depth_first_visit chain.heap noting 0 [] 5 ≡ finished (2 ∷ 1 ∷ 0 ∷ [])
unfolding improved_depth_first_visit add_new_edge new_vertex
visits_chain = refl

improved_depth_first_visit_lem_example :
    (w' : List ℕ) × (improved_depth_first_visit chain.heap noting 0 [] 5 ≡ finished w')
    × IsDistinct w'
    × ((v : ℕ) → (contains v w' ≡ true) ↔ Reachable chain.heap (λ e. false) 0 v)
unfolding add_new_edge new_vertex
improved_depth_first_visit_lem_example =
    improved_depth_first_visit_lem chain.heap noting (λ e. false) (λ w. w) chain-IsLinked
      noting-IsPlain 0 [] [] 5 refl refl (omega arith) (omega arith)

print_control_flow_graph_dot_lem_example :
    (out : List Graphviz.Line) × (print_control_flow_graph_dot (λ f. "f") owned_chain.heap 0 5
      ≡ finished out)
    × IsDistinct (vertex_lines out)
    × ((v : ℕ)
        → (contains v (vertex_lines out) ≡ true)
          ↔ Reachable owned_chain.heap (is_ignored (λ f. "f") owned_chain.heap) 0 v)
unfolding add_new_edge new_vertex
print_control_flow_graph_dot_lem_example =
    print_control_flow_graph_dot_lem (λ f. "f") owned_chain.heap 0 7 5 owned_chain-IsLinked refl
      (omega arith) (omega arith)

unescape-escapeify_example :
    unescape (escapeify_for_use_in_dot_label "say \"hi\\n\"") ≡ "say \"hi\\n\""
unescape-escapeify_example = unescape-escapeify "say \"hi\\n\""

-- A function that is only its ENTRY, with the self edge 0.
abbrev lone_entry : Heap
lone_entry = record {
  vertex = λ v. record (blank_vertex) {
    statement = entry;
    owning_function = some 7;
    out_edges = 0 ∷ [];
    in_edges = 0 ∷ [];
  };
  edge = λ e. record (blank_edge) { source = some 0; target = some 0 };
  next_vertex = 1;
  next_edge = 1;
  deleted = [];
}

abbrev printed :
    (s : State Printer) × (print_control_flow_graph lone_entry (λ f. "f") 1 true false 0 2 ≡ some s)
unfolding print_control_flow_graph
printed = value_of (print_control_flow_graph lone_entry (λ f. "f") 1 true false 0 2) refl

print_control_flow_graph-IsFirst_example : IsFirst printed.0.visitor
print_control_flow_graph-IsFirst_example =
    print_control_flow_graph-IsFirst lone_entry (λ f. "f") 1 true false (λ v. refl) 0 2 printed.0
      printed.1

-- An ENTRY 0 with the self edge 0, and a fallthrough, the edge 1, to the EXIT 1.
abbrev empty_function : Heap
empty_function = record {
  vertex = λ v.
      if v == 0
      then record (blank_vertex) {
        statement = entry;
        owning_function = some 7;
        out_edges = 0 ∷ 1 ∷ [];
        in_edges = 0 ∷ [];
      }
      else record (blank_vertex) { statement = exit; owning_function = some 7; in_edges = 1 ∷ [] };
  edge = λ e. record (blank_edge) { source = some 0; target = if e == 0 then some 0 else some 1 };
  next_vertex = 2;
  next_edge = 2;
  deleted = [];
}

prints_entry : is_null (print_control_flow_graph empty_function (λ f. "f") 1 true false 0 1) ≡ false
unfolding print_control_flow_graph
prints_entry = refl

-- The end of the function is undefined behaviour.
faults_at_exit : print_control_flow_graph empty_function (λ f. "f") 1 true false 0 2 ≡ none
unfolding print_control_flow_graph
faults_at_exit = refl

filtered_in_degree-agree_example :
    Printing.filtered_in_degree chain.heap 1 ≡ Degrees.filtered_in_degree chain.heap 1 false
filtered_in_degree-agree_example = filtered_in_degree-agree chain.heap 1

-- The versions 4.5 and 4.5.2.
abbrev short_version : VersionNumber
short_version = record { version_string = "4.5"; version_digits = pos 4 ∷ pos 5 ∷ [] }

abbrev long_version : VersionNumber
long_version = record { version_string = "4.5.2"; version_digits = pos 4 ∷ pos 5 ∷ pos 2 ∷ [] }

accepts_first : check_if_version_is_usable first_usable ≡ ("Ok", true)
unfolding check_if_version_is_usable
accepts_first = refl

equals_prefix : equals short_version long_version ≡ some true
unfolding equals
equals_prefix = refl

less_order_example :
    ((less short_version first_usable ≡ true)
      ↔ IsBefore short_version.version_digits first_usable.version_digits)
    × (less first_usable first_usable ≡ false)
    × (less short_version first_usable ≡ true
        → less first_usable long_version ≡ true
        → less short_version long_version ≡ true)
    × (less short_version first_usable ≡ false
        → less first_usable short_version ≡ false
        → short_version.version_digits ≡ first_usable.version_digits)
less_order_example = less_order short_version first_usable long_version

equals_lem_example :
    ((equals short_version long_version ≡ some true)
      ↔ ((zs : List _) × (long_version.version_digits ≡ short_version.version_digits ++ zs)))
    × ((z : _) (zs : List _)
        → short_version.version_digits ≡ long_version.version_digits ++ z ∷ zs
        → equals short_version long_version ≡ none)
equals_lem_example = equals_lem short_version long_version

-- A visitor that notes the vertices that it discovers, and leaves the edge back.
abbrev noting_topological : Topological.Visitor (List ℕ)
noting_topological = record {
  start_vertex = λ e w. some w;
  discover_vertex = λ u e w. some (ok, u ∷ w);
  examine_edge = λ e w. some ((if e == 1 then terminate_branch else EdgeAnswer.ok), w);
  tree_edge = λ e w. w;
  vertex_visit_complete = λ u n e w. some w;
}

abbrev is_edge_back : ℕ → Bool
is_edge_back e = e == 1

noting_topological-IsLogging : IsLogging noting_topological is_edge_back (λ w. w)
noting_topological-IsLogging = record {
  starts = λ e w w' p. cc;
  discovers = λ u e w x p. cc;
  examines = λ e w x p. (
    sym (ap (λ y. y.1) (eq_of_some p)),
    λ back. sym (ap (λ y. y.0) (eq_of_some p)) ∙ rw back refl,
  );
  trees = λ e w. refl;
  completes = λ u n e w w' p. cc;
}

abbrev visited :
    (s : State (List ℕ)) × (topological_visit_kahn loop.heap noting_topological
        (left loop.heap is_edge_back [])
        1
        []
        []
        3
      ≡ some s)
unfolding topological_visit_kahn add_new_edge new_vertex
visited =
    value_of
      (topological_visit_kahn loop.heap noting_topological (left loop.heap is_edge_back []) 1 [] []
        3)
      refl

abbrev IsSimple : Vertex → Type 0
IsSimple x = IsDistinct x.in_edges × IsDistinct x.out_edges

IsSimple-update :
    (f : ℕ → Vertex) (p : ℕ) (x : Vertex)
    → IsSimple x
    → ((v : ℕ) → IsSimple (f v))
    → (v : ℕ) → IsSimple (update f p x v)
IsSimple-update f p x here others v = if_keeps IsSimple (p == v) x (f v) here (others v)

loop-IsSimple : (v : ℕ) → IsSimple (loop.heap.vertex v)
unfolding add_new_edge new_vertex
loop-IsSimple =
    let none_yet : Unit × Unit = (tt, tt) in
    let created =
      IsSimple-update _ 2 _ none_yet
        (IsSimple-update _ 1 _ none_yet (IsSimple-update _ 0 _ none_yet (λ v. none_yet))) in
    let first =
      IsSimple-update _ 1 _ ((refl, tt), tt) (IsSimple-update _ 0 _ (tt, (refl, tt)) created) in
    IsSimple-update _ 0 _ ((refl, tt), (refl, tt))
      (IsSimple-update _ 1 _ ((refl, tt), (refl, tt)) first)

topological_visit_kahn-IsOrdered_example :
    IsDistinct (visited.0.visitor) × IsOrdered loop.heap is_edge_back (visited.0.visitor)
unfolding add_new_edge new_vertex
topological_visit_kahn-IsOrdered_example =
    topological_visit_kahn-IsOrdered loop.heap noting_topological (left loop.heap is_edge_back [])
      is_edge_back (λ w. w) noting_topological-IsLogging loop-IsLinked (λ v. (loop-IsSimple v).0)
      (λ v. (loop-IsSimple v).1) 1 0 [] 3 visited.0 (λ v. refl) refl refl refl visited.1
