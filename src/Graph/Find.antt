-- ===== src/Graph/Find.antt =====
-- Graph::FindEdge and Vertex::FindOutEdgePointingToVertex.
use coflo.Prelude.{
  ℕ, ◌≡◌, ◌≢◌, true, false, List, [], ◌∷◌, Option, none, some, arith, points_to, contains, ==_iff,
}
use coflo.Graph.{Heap, Cfg, find_pointing_to, find_edge}
use coflo.Graph.Links.{IsLinked}

find_pointing_to-some :
    (h : Heap) (v e : ℕ) (es : List ℕ)
    → find_pointing_to h v es ≡ some e
    → (contains e es ≡ true) × (points_to (h.edge e).target v ≡ true)
unfolding find_pointing_to
find_pointing_to-some h v e [] p = cc
find_pointing_to-some h v e (x ∷ es) p = ground (arith, find_pointing_to-some h v e es)

find_pointing_to-none :
    (h : Heap) (v e : ℕ) (es : List ℕ)
    → find_pointing_to h v es ≡ none
    → contains e es ≡ true
    → points_to (h.edge e).target v ≡ false
unfolding find_pointing_to
find_pointing_to-none h v e [] p q = cc
find_pointing_to-none h v e (x ∷ es) p q = ground (arith, find_pointing_to-none h v e es)

points_to-eq : (o : Option ℕ) (a : ℕ) → points_to o a ≡ true → o ≡ some a
points_to-eq none a h = cc
points_to-eq (some b) a h = ground (arith, ==_iff b a)

-- On consistent links, an edge that FindEdge returns leads from the first vertex to the second,
-- and it returns null only if there is no such edge.
pub find_edge_correct :
    (u v : ℕ) (c : Cfg)
    → IsLinked c.heap
    → ((e : ℕ)
        → find_edge u v c ≡ some e
        → ((c.heap.edge e).source ≡ some u) × ((c.heap.edge e).target ≡ some v))
      × (find_edge u v c ≡ none
          → (e : ℕ) → (c.heap.edge e).source ≡ some u
          → (c.heap.edge e).target ≢ some v)
unfolding find_edge
find_edge_correct u v c linked = (
  λ e p.
      let (inside, pointing) = find_pointing_to-some c.heap v e (c.heap.vertex u).out_edges p in
      (points_to-eq _ u (ground (arith, linked.out_links e u)), points_to-eq _ v pointing),
  λ p e s t.
      ground (
        arith,
        linked.out_links e u,
        find_pointing_to-none c.heap v e (c.heap.vertex u).out_edges p,
      ),
)
