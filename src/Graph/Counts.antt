-- ===== src/Graph/Counts.antt =====
-- The operations of Graph.cpp that allocate no vertex, and the two that allocate: what they do to the
-- heap's links and to the next free address of a vertex.
use coflo.Prelude.{ℕ, ◌+◌, ◌<◌, ◌≡◌, ◌≢◌, refl, arith, contains, Bool-cases, inl, inr}
use coflo.Statement.{Statement, Location, EdgeType}
use coflo.Graph.{Heap, Cfg, add_vertex, replace_vertex, new_vertex, add_new_edge}
use coflo.Graph.Links.{IsLinked, IsBare}
use coflo.Graph.Replace.{replace_vertex-TakesOver, replace_vertex_duplicate, vertex_count-transfer}

pub vertex_count-add_new_edge :
    (u v : ℕ) (t : EdgeType) (c : Cfg)
    → (add_new_edge u v t c).heap.next_vertex ≡ c.heap.next_vertex
unfolding add_new_edge
vertex_count-add_new_edge u v t c = refl

pub vertex_count-add_vertex :
    (v : ℕ) (c : Cfg) → (add_vertex v c).0.heap.next_vertex ≡ c.heap.next_vertex
unfolding add_vertex
vertex_count-add_vertex v c = ground arith

pub vertex_count-replace_vertex :
    (u v : ℕ) (c : Cfg) → (replace_vertex u v c).0.heap.next_vertex ≡ c.heap.next_vertex
unfolding replace_vertex
vertex_count-replace_vertex u v c =
    ground (arith, vertex_count-transfer u v (add_vertex v c).0.heap)

pub add_vertex-IsLinked : (v : ℕ) (c : Cfg) → IsLinked c.heap → IsLinked (add_vertex v c).0.heap
unfolding add_vertex
add_vertex-IsLinked v c linked = record {
  out_links = λ x w. ground (arith, linked.out_links x w);
  in_links = λ x w. ground (arith, linked.in_links x w);
  paired = λ x. ground (arith, linked.paired x);
  fresh_edge = λ x p. ground (arith, linked.fresh_edge x);
  fresh_vertex = λ x p. ground (arith, linked.fresh_vertex x);
}

-- Replacing by a bare vertex keeps the links consistent on either outcome.
pub replace_vertex-IsLinked :
    (old new : ℕ) (c : Cfg)
    → IsLinked c.heap
    → IsBare c.heap new
    → old ≢ new
    → new < c.heap.next_vertex
    → IsLinked (replace_vertex old new c).0.heap
replace_vertex-IsLinked old new c linked bare ne hn =
    elim (Bool-cases (contains new c.graph.vertices)) [
      | inl present ↦ (replace_vertex_duplicate old new c linked present).1
      | inr absent ↦ (replace_vertex-TakesOver old new c linked bare ne hn absent).1.0
    ]

-- A new vertex is bare and lies behind every vertex there was.
pub new_vertex-IsLinked :
    (s : Statement) (l : Location) (h : Heap)
    → IsLinked h
    → IsLinked (new_vertex s l h).1
      × IsBare (new_vertex s l h).1 (new_vertex s l h).0
      × ((new_vertex s l h).0 ≡ h.next_vertex)
      × ((new_vertex s l h).1.next_vertex ≡ h.next_vertex + 1)
unfolding new_vertex
new_vertex-IsLinked s l h linked = (
  record {
    out_links = λ x w. ground (arith, linked.out_links x w, linked.fresh_vertex w);
    in_links = λ x w. ground (arith, linked.in_links x w, linked.fresh_vertex w);
    paired = λ x. ground (arith, linked.paired x);
    fresh_edge = λ x p. linked.fresh_edge x p;
    fresh_vertex = λ x p. ground (arith, linked.fresh_vertex x);
  },
  (ground arith, ground arith),
  refl,
  refl,
)
