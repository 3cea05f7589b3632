-- ===== src/Graph/Links.antt =====
-- The links between vertices and edges under the operations of src/controlflowgraph/Graph.cpp,
-- Vertex.cpp and Edge.cpp.
use coflo.Prelude.{
  ℕ, ◌≤◌, ◌<◌, ◌≡◌, ◌≢◌, refl, false, [], Option, none, some, arith, points_to, is_null, contains,
  erase, contains-insert, contains-erase, eq-nil_of_contains, ◌∙◌,
}
use coflo.Statement.{EdgeType}
use coflo.Graph.{
  Heap, Cfg, remove_in_edge, remove_out_edge, clear_source_and_target, change_source, change_target,
  add_edge, remove_edge, detach, new_edge, add_new_edge,
}

-- An edge stands among the out edges of exactly its source, and among the in edges of exactly its
-- target; it has both ends or none; no object that is not yet allocated has a link.
pub record IsLinked (h : Heap) : Type 0 where
  pub out_links : (e u : ℕ) → contains e (h.vertex u).out_edges ≡ points_to (h.edge e).source u
  pub in_links : (e u : ℕ) → contains e (h.vertex u).in_edges ≡ points_to (h.edge e).target u
  pub paired : (e : ℕ) → is_null (h.edge e).source ≡ is_null (h.edge e).target
  pub fresh_edge :
      (e : ℕ) → h.next_edge ≤ e → ((h.edge e).source ≡ none) × ((h.edge e).target ≡ none)
  pub fresh_vertex :
      (v : ℕ) → h.next_vertex ≤ v → ((h.vertex v).out_edges ≡ []) × ((h.vertex v).in_edges ≡ [])

abbrev pub IsDetached : Heap → ℕ → Type 0
IsDetached h e = ((h.edge e).source ≡ none) × ((h.edge e).target ≡ none)

abbrev pub IsBare : Heap → ℕ → Type 0
IsBare h v = ((h.vertex v).out_edges ≡ []) × ((h.vertex v).in_edges ≡ [])

module _ (u v e : ℕ) (c : Cfg) (linked : IsLinked c.heap) where
  add_edge-out :
      IsDetached c.heap e
      → (x w : ℕ)
      → contains x ((add_edge u v e c).heap.vertex w).out_edges
        ≡ points_to ((add_edge u v e c).heap.edge x).source w
  unfolding add_edge
  add_edge-out free x w = ground (
    arith,
    linked.out_links x w,
    linked.out_links x u,
    contains-insert x e (c.heap.vertex u).out_edges,
  )

  add_edge-in :
      IsDetached c.heap e
      → (x w : ℕ)
      → contains x ((add_edge u v e c).heap.vertex w).in_edges
        ≡ points_to ((add_edge u v e c).heap.edge x).target w
  unfolding add_edge
  add_edge-in free x w = ground (
    arith,
    linked.in_links x w,
    linked.in_links x v,
    contains-insert x e (c.heap.vertex v).in_edges,
  )

  add_edge-IsLinked :
      IsDetached c.heap e
      → e < c.heap.next_edge
      → u < c.heap.next_vertex
      → v < c.heap.next_vertex
      → IsLinked (add_edge u v e c).heap
  unfolding add_edge
  add_edge-IsLinked free old hu hv = record {
    out_links = add_edge-out free;
    in_links = add_edge-in free;
    paired = λ x. ground (arith, linked.paired x);
    fresh_edge = λ x h. ground (arith, linked.fresh_edge x h);
    fresh_vertex = λ x h. ground (arith, linked.fresh_vertex x h);
  }

module _ (c : Cfg) (linked : IsLinked c.heap) where
  -- On consistent links, adding a new edge between two allocated vertices keeps the links
  -- consistent.
  pub add_new_edge-IsLinked :
      (u v : ℕ) (t : EdgeType)
      → u < c.heap.next_vertex
      → v < c.heap.next_vertex
      → IsLinked (add_new_edge u v t c).heap
  unfolding add_new_edge new_edge
  add_new_edge-IsLinked u v t hu hv =
      let (e, h) = new_edge t c.heap in
      let linked' : IsLinked h = record {
        out_links = λ x w. ground (arith, linked.out_links x w, linked.fresh_edge x);
        in_links = λ x w. ground (arith, linked.in_links x w, linked.fresh_edge x);
        paired = λ x. ground (arith, linked.paired x);
        fresh_edge = λ x p. ground (arith, linked.fresh_edge x);
        fresh_vertex = λ x p. linked.fresh_vertex x p;
      } in
      add_edge-IsLinked u v e (record c { heap = h }) linked' (ground arith) (omega arith) hu hv

  remove_edge-eq-some :
      (e : ℕ) (c' : Cfg)
      → remove_edge e c ≡ some c'
      → (u : ℕ) × (v : ℕ) × ((c.heap.edge e).source ≡ some u)
        × ((c.heap.edge e).target ≡ some v)
        × (c' ≡ record {
          heap = clear_source_and_target e (remove_in_edge v e (remove_out_edge u e c.heap));
          graph = record (c.graph) { edges = erase e c.graph.edges };
        })
  unfolding remove_edge
  remove_edge-eq-some e c' h = go (c.heap.edge e).source (c.heap.edge e).target refl refl h
    where
      go :
          (s t : Option ℕ)
          → (c.heap.edge e).source ≡ s
          → (c.heap.edge e).target ≡ t
          → detach s t e c ≡ some c'
          → (u : ℕ) × (v : ℕ) × ((c.heap.edge e).source ≡ some u)
            × ((c.heap.edge e).target ≡ some v)
            × (c' ≡ record {
              heap = clear_source_and_target e (remove_in_edge v e (remove_out_edge u e c.heap));
              graph = record (c.graph) { edges = erase e c.graph.edges };
            })
      go none t hs ht p = cc
      go (some u) none hs ht p = cc
      go (some u) (some v) hs ht p = (u, v, hs, ht, cc)

  detached-IsLinked :
      (e u v : ℕ)
      → (c.heap.edge e).source ≡ some u
      → (c.heap.edge e).target ≡ some v
      → IsLinked (clear_source_and_target e (remove_in_edge v e (remove_out_edge u e c.heap)))
  unfolding clear_source_and_target remove_in_edge remove_out_edge
  detached-IsLinked e u v hs ht = record {
    out_links =
        λ x w. ground (arith, linked.out_links x w, contains-erase x e (c.heap.vertex w).out_edges);
    in_links =
        λ x w. ground (arith, linked.in_links x w, contains-erase x e (c.heap.vertex w).in_edges);
    paired = λ x. ground (arith, linked.paired x);
    fresh_edge = λ x p. ground (arith, linked.fresh_edge x p);
    fresh_vertex = λ x p. ground (arith, linked.fresh_vertex x p);
  }

  -- On consistent links, a removal of an edge that returns keeps the links consistent and leaves
  -- the edge with neither end.
  pub remove_edge-IsLinked :
      (e : ℕ) (c' : Cfg) → remove_edge e c ≡ some c' → IsLinked c'.heap × IsDetached c'.heap e
  unfolding clear_source_and_target remove_in_edge remove_out_edge
  remove_edge-IsLinked e c' h =
      let (u, v, hs, ht, eq) = remove_edge-eq-some e c' h in
      rw eq (detached-IsLinked e u v hs ht, ground arith)

  -- On consistent links, pointing an allocated edge that has a source to another allocated vertex
  -- keeps the links consistent.
  pub change_target-IsLinked :
      (e u : ℕ)
      → e < c.heap.next_edge
      → u < c.heap.next_vertex
      → (c.heap.edge e).source ≢ none
      → IsLinked (change_target e u c.heap)
  unfolding change_target
  change_target-IsLinked e u he hu attached = record {
    out_links = λ x w. ground (arith, linked.out_links x w);
    in_links = λ x w. ground (
      arith,
      linked.in_links x w,
      linked.in_links x u,
      contains-erase x e (c.heap.vertex w).in_edges,
      contains-insert x e (c.heap.vertex u).in_edges,
      contains-insert x e (erase e (c.heap.vertex u).in_edges),
    );
    paired = λ x. ground (arith, linked.paired x);
    fresh_edge = λ x p. ground (arith, linked.fresh_edge x);
    fresh_vertex = λ x p. ground (arith, linked.fresh_vertex x);
  }

  pub change_source-IsLinked :
      (e u : ℕ)
      → e < c.heap.next_edge
      → u < c.heap.next_vertex
      → (c.heap.edge e).target ≢ none
      → IsLinked (change_source e u c.heap)
  unfolding change_source
  change_source-IsLinked e u he hu attached = record {
    in_links = λ x w. ground (arith, linked.in_links x w);
    out_links = λ x w. ground (
      arith,
      linked.out_links x w,
      linked.out_links x u,
      contains-erase x e (c.heap.vertex w).out_edges,
      contains-insert x e (c.heap.vertex u).out_edges,
      contains-insert x e (erase e (c.heap.vertex u).out_edges),
    );
    paired = λ x. ground (arith, linked.paired x);
    fresh_edge = λ x p. ground (arith, linked.fresh_edge x);
    fresh_vertex = λ x p. ground (arith, linked.fresh_vertex x);
  }

-- The ends of an edge are allocated vertices, and an edge with an end is allocated.
pub source-lt :
    (h : Heap) (e u : ℕ)
    → IsLinked h
    → (h.edge e).source ≡ some u
    → (u < h.next_vertex) × (e < h.next_edge)
source-lt h e u linked s = (
  ground (arith, linked.out_links e u, linked.fresh_vertex u),
  ground (arith, linked.fresh_edge e),
)

pub target-lt :
    (h : Heap) (e u : ℕ)
    → IsLinked h
    → (h.edge e).target ≡ some u
    → (u < h.next_vertex) × (e < h.next_edge)
target-lt h e u linked s = (
  ground (arith, linked.in_links e u, linked.fresh_vertex u),
  ground (arith, linked.fresh_edge e),
)

-- A vertex that no edge starts from or leads to is bare.
pub IsBare_of_ends :
    (h : Heap) (v : ℕ)
    → IsLinked h
    → ((e : ℕ) → points_to (h.edge e).source v ≡ false)
    → ((e : ℕ) → points_to (h.edge e).target v ≡ false)
    → IsBare h v
IsBare_of_ends h v linked s t = (
  eq-nil_of_contains (h.vertex v).out_edges (λ e. linked.out_links e v ∙ s e),
  eq-nil_of_contains (h.vertex v).in_edges (λ e. linked.in_links e v ∙ t e),
)
