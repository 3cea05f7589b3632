-- ===== src/Build/Grows.antt =====
-- What the steps that build a graph add to it: src/Function.cpp and
-- src/controlflowgraph/statements/ParseHelpers.cpp. The members of the graph stay, the vertices that there
-- were keep their statements, and no out edge goes.
use coflo.Prelude.{ℕ, suc, ◌≤◌, ◌<◌, ◌≡◌, ◌≢◌, refl, ap, sym, ◌∙◌, true, arith, contains}
use coflo.Statement.{Statement, EdgeType, Location, is_decision_statement}
use coflo.Graph.{Heap, Cfg, new_vertex, add_new_edge, new_edge, add_edge}
use coflo.Graph.Counts.{vertex_count-add_new_edge}

pub record Grows (c d : Cfg) : Type 0 where
  pub members : d.graph.vertices ≡ c.graph.vertices
  pub statements :
      (w : ℕ) → w < c.heap.next_vertex → (d.heap.vertex w).statement ≡ (c.heap.vertex w).statement
  pub edges :
      (e w : ℕ)
      → w < c.heap.next_vertex
      → contains e (c.heap.vertex w).out_edges ≡ true
      → contains e (d.heap.vertex w).out_edges ≡ true
  pub grown : c.heap.next_vertex ≤ d.heap.next_vertex

pub Grows-refl : (c : Cfg) → Grows c c
Grows-refl c = record {
  members = refl;
  statements = λ w p. refl;
  edges = λ e w p q. q;
  grown = omega arith;
}

pub Grows-trans : (c d k : Cfg) → Grows c d → Grows d k → Grows c k
Grows-trans c d k p q = record {
  members = q.members ∙ p.members;
  statements = λ w lt. q.statements w (omega (arith, lt, p.grown)) ∙ p.statements w lt;
  edges = λ e w lt h. q.edges e w (omega (arith, lt, p.grown)) (p.edges e w lt h);
  grown = omega (arith, p.grown, q.grown);
}

pub Grows-add_new_edge : (u v : ℕ) (t : EdgeType) (c : Cfg) → Grows c (add_new_edge u v t c)
unfolding add_new_edge add_edge new_edge
Grows-add_new_edge u v t c = record {
  members = refl;
  statements = λ w lt. ground arith;
  edges = λ e w lt h. ground (arith, h);
  grown = omega arith;
}

pub Grows-new_vertex :
    (s : Statement) (l : Location) (c : Cfg)
    → Grows c (record c { heap = (new_vertex s l c.heap).1 })
unfolding new_vertex
Grows-new_vertex s l c = record {
  members = refl;
  statements = λ w lt. ground (arith, lt);
  edges = λ e w lt h. ground (arith, lt, h);
  grown = omega arith;
}

-- Two different out edges.
abbrev pub Two : Heap → ℕ → Type 0
Two h w =
    (a b : ℕ) × (a ≢ b)
    × (contains a (h.vertex w).out_edges ≡ true)
    × (contains b (h.vertex w).out_edges ≡ true)

-- Every decision statement has two out edges.
abbrev pub Decided : Cfg → Type 0
Decided c =
    (w : ℕ)
    → w < c.heap.next_vertex
    → is_decision_statement (c.heap.vertex w).statement ≡ true
    → Two c.heap w

pub Two-Grows :
    (c d : Cfg) (w : ℕ) → w < c.heap.next_vertex → Grows c d → Two c.heap w → Two d.heap w
Two-Grows c d w lt g (a, b, ne, p, q) = (a, b, ne, g.edges a w lt p, g.edges b w lt q)

-- Where no vertex is new, no decision is.
pub Decided-Grows :
    (c d : Cfg) → Grows c d → d.heap.next_vertex ≡ c.heap.next_vertex → Decided c → Decided d
Decided-Grows c d g same all w lt is =
    let old : w < c.heap.next_vertex = omega (arith, lt, same) in
    Two-Grows c d w old g (all w old (sym (ap is_decision_statement (g.statements w old)) ∙ is))

pub Decided-add_new_edge :
    (u v : ℕ) (t : EdgeType) (c : Cfg) → Decided c → Decided (add_new_edge u v t c)
Decided-add_new_edge u v t c all =
    Decided-Grows c (add_new_edge u v t c) (Grows-add_new_edge u v t c)
      (vertex_count-add_new_edge u v t c) all

-- The new edge is an out edge of its source.
pub added_edge :
    (u v : ℕ) (t : EdgeType) (c : Cfg)
    → (contains c.heap.next_edge ((add_new_edge u v t c).heap.vertex u).out_edges ≡ true)
      × ((add_new_edge u v t c).heap.next_edge ≡ suc c.heap.next_edge)
unfolding add_new_edge add_edge new_edge
added_edge u v t c = (ground arith, omega arith)
