-- ===== src/Graph/Degrees.antt =====
-- In and out degrees under Graph::AddEdge with a new edge: src/controlflowgraph/Graph.cpp.
use coflo.Prelude.{ℕ, ◌≤◌, ◌<◌, List, [], ◌∷◌, arith, length, insert}
use coflo.Statement.{EdgeType}
use coflo.Graph.{Cfg, in_degree, out_degree, add_new_edge}

length-insert :
    (a : ℕ) (xs : List ℕ) → (length xs ≤ length (insert a xs)) × (0 < length (insert a xs))
length-insert a [] = omega arith
length-insert a (x ∷ xs) = ground arith

pub in_degree-add_new_edge :
    (u v w : ℕ) (t : EdgeType) (c : Cfg)
    → (in_degree c.heap w ≤ in_degree (add_new_edge u v t c).heap w)
      × (0 < in_degree (add_new_edge u v t c).heap v)
unfolding add_new_edge in_degree
in_degree-add_new_edge u v w t c = (
  ground (arith, length-insert c.heap.next_edge (c.heap.vertex v).in_edges),
  ground (arith, length-insert c.heap.next_edge (c.heap.vertex v).in_edges),
)

pub out_degree-add_new_edge :
    (u v w : ℕ) (t : EdgeType) (c : Cfg)
    → (out_degree c.heap w ≤ out_degree (add_new_edge u v t c).heap w)
      × (0 < out_degree (add_new_edge u v t c).heap u)
unfolding add_new_edge out_degree
out_degree-add_new_edge u v w t c = (
  ground (arith, length-insert c.heap.next_edge (c.heap.vertex u).out_edges),
  ground (arith, length-insert c.heap.next_edge (c.heap.vertex u).out_edges),
)
