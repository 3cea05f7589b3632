-- ===== src/Graphviz/Lines.antt =====
-- The lines of the Graphviz file: src/controlflowgraph/visitors/WriteGraphvizDotFileVisitor.cpp.
use coflo.Prelude.{some, ℕ, ◌≤◌, ◌<◌, ◌≡◌, ◌↔◌, refl, ap, String, true, List, [], ◌∷◌, contains}
use coflo.Graph.{Heap}
use coflo.Graph.Links.{IsLinked}
use coflo.Visit.{finished}
use coflo.Visit.Reach.{Reachable, IsPlain, IsDistinct, work}
use coflo.Visit.Rounds.{improved_depth_first_visit_lem}
use coflo.Graphviz.{
  graph_header, start_vertex, Line, graph_line, vertex_line, edge_line, is_ignored,
  write_graphviz_dot_file_visitor, closing, print_control_flow_graph_dot,
}

-- The vertices that have a line, the last first.
abbrev pub vertex_lines : List Line → List ℕ
vertex_lines [] = []
vertex_lines (graph_line ts ∷ out) = vertex_lines out
vertex_lines (vertex_line v ts ∷ out) = v ∷ vertex_lines out
vertex_lines (edge_line e ts ∷ out) = vertex_lines out

module _ (identifier : ℕ → String) (h : Heap) where
  visitor-IsPlain :
      IsPlain (write_graphviz_dot_file_visitor identifier h) (is_ignored identifier h) vertex_lines
  unfolding write_graphviz_dot_file_visitor
  visitor-IsPlain = record {
    discovers = λ v w. (_, refl, refl);
    examines = λ e w. (_, refl, refl);
    trees = λ e w. (_, refl, refl);
    backs = λ e w. refl;
    crosses = λ e w. refl;
    finishes = λ v w. refl;
  }

  start_vertex-owned :
      (u f : ℕ)
      → (h.vertex u).owning_function ≡ some f
      → (out : List Line) × (start_vertex identifier h u [] ≡ some out) × (vertex_lines out ≡ [])
  unfolding start_vertex graph_header
  start_vertex-owned u f owner =
      (graph_header identifier h (identifier f) ∷ [], rw owner refl, refl)

  -- On consistent links, from an allocated vertex with an owning function, PrintControlFlowGraphDot is done after one round for
  -- each out edge and one for each vertex: the file has one line for each vertex that a path of edges
  -- that are not ignored reaches from the entry, and no other vertex line.
  pub print_control_flow_graph_dot_lem :
      (entry_vertex f n : ℕ)
      → IsLinked h
      → (h.vertex entry_vertex).owning_function ≡ some f
      → entry_vertex < h.next_vertex
      → work h h.next_vertex [] ≤ n
      → (out : List Line) × (print_control_flow_graph_dot identifier h entry_vertex n
          ≡ finished out)
        × IsDistinct (vertex_lines out)
        × ((v : ℕ)
            → (contains v (vertex_lines out) ≡ true)
              ↔ Reachable h (is_ignored identifier h) entry_vertex v)
  unfolding print_control_flow_graph_dot closing write_graphviz_dot_file_visitor
  print_control_flow_graph_dot_lem entry_vertex f n linked owner old le =
      let (header, starts, silent) = start_vertex-owned entry_vertex f owner in
      let (out, eq, distinct, all) =
        improved_depth_first_visit_lem h (write_graphviz_dot_file_visitor identifier h)
          (is_ignored identifier h) vertex_lines linked visitor-IsPlain entry_vertex [] header n
          starts silent old le in
      (_, ap closing eq, distinct, all)
