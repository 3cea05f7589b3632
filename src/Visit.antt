-- ===== src/Visit.antt =====
-- improved_depth_first_visit: src/controlflowgraph/algorithms/depth_first_traversal.hpp. The heap is the
-- one at the start, which the visitors of this model only read. A round is one turn of a loop: an out
-- edge of the current vertex, or its end.
pub mod Reach
pub mod Explored
pub mod Rounds
use coflo.Prelude.{
  ℕ, zero, suc, Bool, true, false, List, [], ◌∷◌, Option, none, some, if◌then◌else◌, ◌==◌,
}
use coflo.Graph.{Heap}
use coflo.Traversal.{Color, white, gray, black, ColorMap, find_entry, assign_entry}

-- vertex_return_value_t
pub data VertexAnswer : Type 0 where
  ok terminate_branch terminate_search : VertexAnswer

-- edge_return_value_t
pub data EdgeAnswer : Type 0 where
  ok terminate_branch terminate_search push_color_context pop_color_context : EdgeAnswer

-- ImprovedDFSVisitorBase: the calls on the visitor's own state; the answers that are dropped are left
-- out. `none` is undefined behaviour of start_vertex.
pub record Visitor (W : Type 0) : Type 0 where
  pub start_vertex : ℕ → W → Option W
  pub discover_vertex : ℕ → W → VertexAnswer × W
  pub examine_edge : ℕ → W → EdgeAnswer × W
  pub tree_edge : ℕ → W → EdgeAnswer × W
  pub back_edge : ℕ → W → W
  pub forward_or_cross_edge : ℕ → W → W
  pub finish_vertex : ℕ → W → W

-- The local variables; the tops of both stacks come first.
pub record State (W : Type 0) : Type 0 where
  pub color_map_stack : List ColorMap
  pub dfs_stack : List (ℕ × List ℕ)
  pub u : ℕ
  pub out_edges : List ℕ
  pub visitor : W

-- `fault` is the top of an empty stack of colour maps, an edge with no target, or undefined behaviour of
-- the visitor.
pub data Outcome (W : Type 0) : Type 0 where
  running : State W → Outcome W
  finished : W → Outcome W
  fault : Outcome W

-- What an edge's answer does to the colour contexts.
switch_context : EdgeAnswer → List ColorMap → Option (List ColorMap)
switch_context push_color_context ms = some ([] ∷ ms)
switch_context pop_color_context [] = none
switch_context pop_color_context (m ∷ ms) = some ms
switch_context _ ms = some ms

paint_top : ℕ → Color → List ColorMap → Option (List ColorMap)
paint_top v x [] = none
paint_top v x (m ∷ ms) = some (assign_entry v x m ∷ ms)

-- A vertex without an entry is given one.
pub look_up : ℕ → ColorMap → Color × ColorMap
look_up v m = elim (find_entry v m) [ none ↦ (white, assign_entry v white m) | some x ↦ (x, m) ]

-- The edges that are followed from a vertex that was just discovered.
edges_after : VertexAnswer → List ℕ → List ℕ
edges_after ok es = es
edges_after terminate_branch es = []
edges_after terminate_search es = []

enter :
    {W : Type 0} → Heap → Visitor W → ℕ → List (ℕ × List ℕ) → W → Option (List ColorMap) → Outcome W
unfolding edges_after
enter h vis v st w none = fault
enter h vis v st w (some ms) =
    let (a, w') = vis.discover_vertex v w in
    running (record {
      color_map_stack = ms;
      dfs_stack = st;
      u = v;
      out_edges = edges_after a (h.vertex v).out_edges;
      visitor = w';
    })

descend :
    {W : Type 0} → Heap → Visitor W → ℕ → List (ℕ × List ℕ) → W → Option (List ColorMap) → Outcome W
unfolding enter paint_top
descend h vis v st w none = fault
descend h vis v st w (some ms) = enter h vis v st w (paint_top v gray ms)

-- What is done with an edge to `v`, by the colour of `v`; `ms` are the maps after looking it up.
by_color :
    {W : Type 0} → Heap → Visitor W → ℕ → ℕ → List ℕ → State W → Color → List ColorMap → Outcome W
unfolding descend switch_context
by_color h vis e v es s white ms =
    let (a, w) = vis.tree_edge e s.visitor in
    descend h vis v ((s.u, es) ∷ s.dfs_stack) w (switch_context a ms)
by_color h vis e v es s gray ms =
    running (record s { color_map_stack = ms; out_edges = es; visitor = vis.back_edge e s.visitor })
by_color h vis e v es s black ms = running (record s {
  color_map_stack = ms;
  out_edges = es;
  visitor = vis.forward_or_cross_edge e s.visitor;
})

follow :
    {W : Type 0}
    → Heap
    → Visitor W
    → ℕ
    → List ℕ
    → State W
    → Option ℕ
    → Option (List ColorMap)
    → Outcome W
unfolding by_color look_up
follow h vis e es s none ms = fault
follow h vis e es s (some v) none = fault
follow h vis e es s (some v) (some []) = fault
follow h vis e es s (some v) (some (m ∷ ms)) =
    let (x, m') = look_up v m in by_color h vis e v es s x (m' ∷ ms)

examined : {W : Type 0} → Heap → Visitor W → ℕ → List ℕ → State W → EdgeAnswer × W → Outcome W
unfolding follow switch_context
examined h vis e es s (terminate_branch, w) = running (record s { out_edges = es; visitor = w })
examined h vis e es s (a, w) =
    follow h vis e es (record s { visitor = w }) (h.edge e).target
      (switch_context a s.color_map_stack)

-- The next context of the stack.
resume : {W : Type 0} → List (ℕ × List ℕ) → W → List ColorMap → Outcome W
resume [] w ms = finished w
resume ((v, es) ∷ st) w ms =
    running (record { color_map_stack = ms; dfs_stack = st; u = v; out_edges = es; visitor = w })

close_vertex : {W : Type 0} → Visitor W → State W → Option (List ColorMap) → Outcome W
unfolding resume
close_vertex vis s none = fault
close_vertex vis s (some ms) = resume s.dfs_stack (vis.finish_vertex s.u s.visitor) ms

round_from : {W : Type 0} → Heap → Visitor W → State W → List ℕ → Outcome W
unfolding examined close_vertex paint_top
round_from h vis s [] = close_vertex vis s (paint_top s.u black s.color_map_stack)
round_from h vis s (e ∷ es) = examined h vis e es s (vis.examine_edge e s.visitor)

round : {W : Type 0} → Heap → Visitor W → Outcome W → Outcome W
unfolding round_from
round h vis (running s) = round_from h vis s s.out_edges
round h vis o = o

rounds : {W : Type 0} → Heap → Visitor W → ℕ → Outcome W → Outcome W
unfolding round
rounds h vis zero o = o
rounds h vis (suc n) o = rounds h vis n (round h vis o)

-- Before the loops.
started : {W : Type 0} → Heap → Visitor W → ℕ → Option W → Outcome W
unfolding enter paint_top
started h vis source none = fault
started h vis source (some w) = enter h vis source [] w (paint_top source gray ([] ∷ []))

-- improved_depth_first_visit after `n` rounds, from the visitor's state `w`.
unfoldable pub improved_depth_first_visit : {W : Type 0} → Heap → Visitor W → ℕ → W → ℕ → Outcome W
unfolding rounds started
improved_depth_first_visit h vis source w n =
    rounds h vis n (started h vis source (vis.start_vertex source w))
