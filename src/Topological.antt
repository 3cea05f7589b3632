-- ===== src/Topological.antt =====
-- topological_visit_kahn: src/controlflowgraph/algorithms/topological_visit_kahn.h, with a
-- SparsePropertyMap (src/controlflowgraph/SparsePropertyMap.h) of counts. A round is one turn of the
-- outer loop: a vertex that has no in edge left, with all its out edges. The heap is only read.
pub mod Invariant
pub mod Remaining
pub mod Order
use coflo.Prelude.{
  ℕ, zero, suc, ◌+◌, Bool, true, false, List, [], ◌∷◌, Option, none, some, if◌then◌else◌, ◌==◌,
  ◌>>=◌,
}
use coflo.Prelude.Int.{ℤ, pos, negsuc, dec, eqb_ℤ}
use coflo.Graph.{Heap}
use coflo.Visit.{
  VertexAnswer, EdgeAnswer, ok, terminate_branch, terminate_search, push_color_context,
  pop_color_context,
}

-- SparsePropertyMap<vertex_descriptor, degree_size_type, 0, DefaultValueFunctor>: the entries of the
-- underlying map.
abbrev pub InDegreeMap : Type 0
InDegreeMap = List (ℕ × ℤ)

abbrev pub find_count : ℕ → InDegreeMap → Option ℤ
find_count v [] = none
find_count v ((w, x) ∷ m) = if v == w then some x else find_count v m

abbrev pub erase_count : ℕ → InDegreeMap → InDegreeMap
erase_count v [] = []
erase_count v ((w, x) ∷ m) = let rest = erase_count v m in if v == w then rest else (w, x) ∷ rest

-- A count of 0 needs no entry.
pub put_count : ℕ → ℤ → InDegreeMap → InDegreeMap
put_count v x m = if eqb_ℤ x (pos 0) then erase_count v m else (v, x) ∷ erase_count v m

-- A vertex without an entry is given its in degree.
pub get_count : (ℕ → ℕ) → ℕ → InDegreeMap → ℤ × InDegreeMap
get_count in_degree v m = elim (find_count v m) [
  | none ↦ (pos (in_degree v), (v, pos (in_degree v)) ∷ erase_count v m)
  | some x ↦ (x, m)
]

-- The visitor's calls on its own state; `none` is undefined behaviour. The answers that are dropped
-- are left out.
pub record Visitor (W : Type 0) : Type 0 where
  pub start_vertex : ℕ → W → Option W
  pub discover_vertex : ℕ → ℕ → W → Option (VertexAnswer × W)
  pub examine_edge : ℕ → W → Option (EdgeAnswer × W)
  pub tree_edge : ℕ → W → W
  pub vertex_visit_complete : ℕ → ℕ → Option ℕ → W → Option W

-- The local variables and the two arguments that change; the top of the stack of edges comes first.
pub record State (W : Type 0) : Type 0 where
  pub no_remaining_in_edges_set : List ℕ
  pub in_degree_map : InDegreeMap
  pub visitor : W

-- The variables of the inner loop. Before the first push the descriptor `first_edge_pushed` is unset.
pub record Removal (W : Type 0) : Type 0 where
  pub state : State W
  pub num_vertices_pushed : ℕ
  pub first_edge_pushed : Option ℕ

module _ {W : Type 0} (h : Heap) (vis : Visitor W) (in_degree : ℕ → ℕ) where
  -- The edge `e` to `v` is removed, and its target pushed if it was the last one.
  pub count_down : ℕ → Removal W → ℤ × InDegreeMap → ℕ → Removal W
  unfolding put_count
  count_down e r (id, m) v =
      let s = r.state in
      let m' = put_count v (dec id) m in
      if eqb_ℤ (dec id) (pos 0)
      then record {
        state = record {
          no_remaining_in_edges_set = e ∷ s.no_remaining_in_edges_set;
          in_degree_map = m';
          visitor = vis.tree_edge e s.visitor;
        };
        num_vertices_pushed = suc r.num_vertices_pushed;
        first_edge_pushed = some e;
      }
      else record r { state = record s { in_degree_map = m' } }

  pub follow_edge : ℕ → Removal W → Option ℕ → Option (Removal W)
  unfolding count_down get_count
  follow_edge e r none = none
  follow_edge e r (some v) = some (count_down e r (get_count in_degree v r.state.in_degree_map) v)

  pub with_visitor : W → Removal W → Removal W
  with_visitor w r = record r { state = record (r.state) { visitor = w } }

  pub examined : ℕ → Removal W → EdgeAnswer × W → Option (Removal W)
  unfolding follow_edge with_visitor
  examined e r (terminate_branch, w) = some (with_visitor w r)
  examined e r (a, w) = follow_edge e (with_visitor w r) (h.edge e).target

  -- The loop over the out edges.
  pub remove_edges : List ℕ → Removal W → Option (Removal W)
  unfolding examined
  remove_edges [] r = some r
  remove_edges (e ∷ es) r = do
    x ← vis.examine_edge e r.state.visitor
    r' ← examined e r x
    remove_edges es r'

  pub complete : ℕ → Removal W → Option (State W)
  complete u r = do
    w ← vis.vertex_visit_complete u r.num_vertices_pushed r.first_edge_pushed r.state.visitor
    some (record (r.state) { visitor = w })

  pub visit_out_edges : ℕ → State W → VertexAnswer → Option (State W)
  unfolding remove_edges complete
  visit_out_edges u s terminate_branch = some s
  visit_out_edges u s a = do
    r ←
        remove_edges (h.vertex u).out_edges
          (record { state = s; num_vertices_pushed = 0; first_edge_pushed = none })
    complete u r

  -- The edge `e` was popped.
  visit_target : ℕ → State W → Option ℕ → Option (State W)
  unfolding visit_out_edges
  visit_target e s none = none
  visit_target e s (some u) = do
    (a, w) ← vis.discover_vertex u e s.visitor
    visit_out_edges u (record s { visitor = w }) a

  -- A round, if an edge is left.
  pub round_on : State W → List ℕ → Option (State W)
  unfolding visit_target
  round_on s [] = some s
  round_on s (e ∷ es) =
      visit_target e (record s { no_remaining_in_edges_set = es }) (h.edge e).target

  pub rounds : ℕ → State W → Option (State W)
  unfolding round_on
  rounds zero s = some s
  rounds (suc n) s = do s' ← round_on s s.no_remaining_in_edges_set; rounds n s'

  -- topological_visit_kahn after `n` rounds; it has ended if no edge is left.
  unfoldable pub topological_visit_kahn : ℕ → W → InDegreeMap → ℕ → Option (State W)
  unfolding rounds
  topological_visit_kahn source w m n = do
    w' ← vis.start_vertex source w
    rounds n (record { no_remaining_in_edges_set = source ∷ []; in_degree_map = m; visitor = w' })
