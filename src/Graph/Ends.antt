-- ===== src/Graph/Ends.antt =====
-- The ends of each edge after Edge::ChangeTarget, Graph::RemoveEdge and Graph::AddEdge.
use coflo.Prelude.{
  ℕ, ◌≡◌, refl, inl, inr, none, some, arith, ◌==◌, if◌then◌else◌, Option-cases, erase,
}
use coflo.Graph.{
  Heap, Cfg, change_target, remove_edge, clear_source_and_target, remove_in_edge, remove_out_edge,
}

pub change_target_ends :
    (e u : ℕ) (h : Heap)
    → ((x : ℕ) → ((change_target e u h).edge x).source ≡ (h.edge x).source)
      × ((x : ℕ)
          → ((change_target e u h).edge x).target ≡ (if e == x then some u else (h.edge x).target))
      × ((change_target e u h).next_vertex ≡ h.next_vertex)
unfolding change_target
change_target_ends e u h = elim (Option-cases (h.edge e).target) [
  | inl null ↦ (λ x. ground arith, λ x. ground arith, ground arith)
  | inr (t, old) ↦ (λ x. ground arith, λ x. ground arith, ground arith)
]

abbrev pub Cut : ℕ → Cfg → Cfg → Type 0
Cut e c d =
    ((x : ℕ) → (d.heap.edge x).source ≡ (if e == x then none else (c.heap.edge x).source))
    × ((x : ℕ) → (d.heap.edge x).target ≡ (if e == x then none else (c.heap.edge x).target))
    × (d.heap.next_vertex ≡ c.heap.next_vertex)
    × (d.graph.vertices ≡ c.graph.vertices)

-- An edge with both ends can be removed; the removal clears the ends of that edge alone, and
-- leaves the graph's vertices and the allocated ones.
pub remove_edge-Cut :
    (e u v : ℕ) (c : Cfg)
    → (c.heap.edge e).source ≡ some u
    → (c.heap.edge e).target ≡ some v
    → (d : Cfg) × (remove_edge e c ≡ some d) × Cut e c d
unfolding remove_edge
remove_edge-Cut e u v c s t =
    (after, rw (s, t) refl, (λ x. ground arith, λ x. ground arith, refl, refl))
  where
    after : Cfg
    after = record {
      heap = clear_source_and_target e (remove_in_edge v e (remove_out_edge u e c.heap));
      graph = record (c.graph) { edges = erase e c.graph.edges };
    }
