-- ===== src/Graph/Spares.antt =====
-- What Edge::ChangeTarget and Graph::RemoveEdge leave of the vertices: src/controlflowgraph/Edge.cpp and
-- Graph.cpp.
use coflo.Prelude.{ℕ, ◌≡◌, ◌≢◌, refl, ◌∙◌, inl, inr, some, arith, Option-cases, eq_of_some, subst}
use coflo.Graph.{Cfg, change_target, remove_edge}

-- The step from `c` to `d` keeps the statements, and the out edges of every vertex but `v`.
pub record Spares (v : ℕ) (c d : Cfg) : Type 0 where
  pub statements : (w : ℕ) → (d.heap.vertex w).statement ≡ (c.heap.vertex w).statement
  pub edges : (w : ℕ) → w ≢ v → (d.heap.vertex w).out_edges ≡ (c.heap.vertex w).out_edges
  pub count : d.heap.next_vertex ≡ c.heap.next_vertex

pub Spares-change_target :
    (v e t : ℕ) (c : Cfg) → Spares v c (record c { heap = change_target e t c.heap })
unfolding change_target
Spares-change_target v e t c = elim (Option-cases (c.heap.edge e).target) [
  | inl null ↦ record {
    statements = λ w. ground arith;
    edges = λ w ne. ground arith;
    count = ground arith;
  }
  | inr (x, to) ↦ record {
    statements = λ w. ground arith;
    edges = λ w ne. ground arith;
    count = ground arith;
  }
]

pub Spares-remove_edge :
    (v e : ℕ) (c d : Cfg)
    → (c.heap.edge e).source ≡ some v
    → remove_edge e c ≡ some d
    → Spares v c d
unfolding remove_edge
Spares-remove_edge v e c d from is = elim (Option-cases (c.heap.edge e).target) [
  | inl null ↦ cc (rw (from, null) at is)
  | inr (t, to) ↦
      let same = eq_of_some (rw (from, to) at is) in
      subst (Spares v c) same (record {
        statements = λ w. ground arith;
        edges = λ w ne. ground (arith, ne);
        count = refl;
      })
]

pub Spares-trans : (v : ℕ) (c d k : Cfg) → Spares v c d → Spares v d k → Spares v c k
Spares-trans v c d k p q = record {
  statements = λ w. q.statements w ∙ p.statements w;
  edges = λ w ne. q.edges w ne ∙ p.edges w ne;
  count = q.count ∙ p.count;
}
