-- ===== src/Graph/Replace.antt =====
-- Graph::ReplaceVertex with Vertex::TransferOwnedResourcesTo: src/controlflowgraph/Graph.cpp and
-- Vertex.cpp.
use coflo.Prelude.{
  ℕ, ◌<◌, ◌≡◌, ◌≢◌, ◌∙◌, refl, true, false, not, ◌&&◌, ◌||◌, List, [], ◌∷◌, Option, some, arith,
  ◌==◌, if◌then◌else◌, points_to, update, contains, insert, contains-insert, contains-erase,
  Bool-cases, inl, inr,
}
use coflo.Graph.{
  Heap, Cfg, set_source, set_target, set_targets, set_sources, transfer_owned_resources_to,
  replace_vertex,
}
use coflo.Graph.Links.{IsLinked, IsBare}

target-set_targets :
    (u : Option ℕ) (es : List ℕ) (h : Heap) (x : ℕ)
    → ((set_targets u es h).edge x).target ≡ (if contains x es then u else (h.edge x).target)
unfolding set_targets
target-set_targets u [] h x = refl
target-set_targets u (e ∷ es) h x = ground (arith, target-set_targets u es (set_target u e h) x)

source-set_sources :
    (u : Option ℕ) (es : List ℕ) (h : Heap) (x : ℕ)
    → ((set_sources u es h).edge x).source ≡ (if contains x es then u else (h.edge x).source)
unfolding set_sources
source-set_sources u [] h x = refl
source-set_sources u (e ∷ es) h x = ground (arith, source-set_sources u es (set_source u e h) x)

-- What pointing the edges elsewhere leaves alone.
record SameButTargets (h k : Heap) : Type 0 where
  vertices : k.vertex ≡ h.vertex
  sources : (x : ℕ) → (k.edge x).source ≡ (h.edge x).source
  edge_count : k.next_edge ≡ h.next_edge
  vertex_count : k.next_vertex ≡ h.next_vertex

record SameButSources (h k : Heap) : Type 0 where
  vertices : k.vertex ≡ h.vertex
  targets : (x : ℕ) → (k.edge x).target ≡ (h.edge x).target
  edge_count : k.next_edge ≡ h.next_edge
  vertex_count : k.next_vertex ≡ h.next_vertex

set_targets-SameButTargets :
    (u : Option ℕ) (es : List ℕ) (h : Heap) → SameButTargets h (set_targets u es h)
unfolding set_targets
set_targets-SameButTargets u [] h = record {
  vertices = refl;
  sources = λ x. refl;
  edge_count = refl;
  vertex_count = refl;
}
set_targets-SameButTargets u (e ∷ es) h =
    let rest = set_targets-SameButTargets u es (set_target u e h) in
    record {
      vertices = rest.vertices;
      sources = λ x. ground (arith, rest.sources x);
      edge_count = rest.edge_count;
      vertex_count = rest.vertex_count;
    }

set_sources-SameButSources :
    (u : Option ℕ) (es : List ℕ) (h : Heap) → SameButSources h (set_sources u es h)
unfolding set_sources
set_sources-SameButSources u [] h = record {
  vertices = refl;
  targets = λ x. refl;
  edge_count = refl;
  vertex_count = refl;
}
set_sources-SameButSources u (e ∷ es) h =
    let rest = set_sources-SameButSources u es (set_source u e h) in
    record {
      vertices = rest.vertices;
      targets = λ x. ground (arith, rest.targets x);
      edge_count = rest.edge_count;
      vertex_count = rest.vertex_count;
    }

-- The links after the transfer, edge by edge.
record Transferred (u v : ℕ) (h k : Heap) : Type 0 where
  source :
      (x : ℕ)
      → (k.edge x).source
        ≡ (if contains x (h.vertex u).out_edges then some v else (h.edge x).source)
  target :
      (x : ℕ)
      → (k.edge x).target ≡ (if contains x (h.vertex u).in_edges then some v else (h.edge x).target)
  statements : (w : ℕ) → (k.vertex w).statement ≡ (h.vertex w).statement
  out_edges :
      (w : ℕ)
      → (k.vertex w).out_edges ≡ (
          if u == w
          then (h.vertex v).out_edges
          else if v == w
          then (h.vertex u).out_edges
          else (h.vertex w).out_edges)
  in_edges :
      (w : ℕ)
      → (k.vertex w).in_edges ≡ (
          if u == w
          then (h.vertex v).in_edges
          else if v == w
          then (h.vertex u).in_edges
          else (h.vertex w).in_edges)
  edge_count : k.next_edge ≡ h.next_edge
  vertex_count : k.next_vertex ≡ h.next_vertex

transfer-Transferred : (u v : ℕ) (h : Heap) → Transferred u v h (transfer_owned_resources_to u v h)
unfolding transfer_owned_resources_to
transfer-Transferred u v h =
    let es = (h.vertex u).in_edges in
    let os = (h.vertex u).out_edges in
    let h₁ = set_targets (some v) es h in
    let a = set_targets-SameButTargets (some v) es h in
    let b = set_sources-SameButSources (some v) os h₁ in
    record {
      source = λ x. ground (arith, source-set_sources (some v) os h₁ x, a.sources x);
      target = λ x. ground (arith, target-set_targets (some v) es h x, b.targets x);
      statements = λ w. ground (arith, a.vertices, b.vertices);
      out_edges = λ w. ground (arith, a.vertices, b.vertices);
      in_edges = λ w. ground (arith, a.vertices, b.vertices);
      edge_count = b.edge_count ∙ a.edge_count;
      vertex_count = b.vertex_count ∙ a.vertex_count;
    }

module _ (old new : ℕ) (h : Heap) (linked : IsLinked h) (bare : IsBare h new) (ne : old ≢ new) where
  transfer-out_links :
      (x w : ℕ)
      → contains x ((transfer_owned_resources_to old new h).vertex w).out_edges
        ≡ points_to ((transfer_owned_resources_to old new h).edge x).source w
  transfer-out_links x w =
      let t = transfer-Transferred old new h in
      rw (t.out_edges w, t.source x)
        (ground (arith, linked.out_links x w, linked.out_links x old, linked.out_links x new))

  transfer-in_links :
      (x w : ℕ)
      → contains x ((transfer_owned_resources_to old new h).vertex w).in_edges
        ≡ points_to ((transfer_owned_resources_to old new h).edge x).target w
  transfer-in_links x w =
      let t = transfer-Transferred old new h in
      rw (t.in_edges w, t.target x)
        (ground (arith, linked.in_links x w, linked.in_links x old, linked.in_links x new))

  pub transfer-IsLinked : new < h.next_vertex → IsLinked (transfer_owned_resources_to old new h)
  transfer-IsLinked hn =
      let t = transfer-Transferred old new h in
      record {
        out_links = transfer-out_links;
        in_links = transfer-in_links;
        paired = λ x. ground (
          arith,
          linked.paired x,
          t.source x,
          t.target x,
          linked.out_links x old,
          linked.in_links x old,
        );
        fresh_edge = λ e p. ground (
          arith,
          t.edge_count,
          t.source e,
          t.target e,
          linked.fresh_edge e,
          linked.out_links e old,
          linked.in_links e old,
        );
        fresh_vertex = λ v p.
            ground (arith, t.vertex_count, t.out_edges v, t.in_edges v, linked.fresh_vertex v);
      }

abbrev pub TakesOver : ℕ → ℕ → Cfg → Cfg → Type 0
TakesOver old new c d =
    IsLinked d.heap
    × ((d.heap.vertex new).out_edges ≡ (c.heap.vertex old).out_edges)
    × ((d.heap.vertex new).in_edges ≡ (c.heap.vertex old).in_edges)
    × IsBare d.heap old
    × ((w : ℕ)
        → contains w d.graph.vertices
          ≡ (not (old == w) && ((new == w) || contains w c.graph.vertices)))

indexed : ℕ → Cfg → Heap
indexed v c = record (c.heap) {
  vertex =
      update c.heap.vertex v (record (c.heap.vertex v) { vertex_index = c.graph.vertex_id_state });
}

indexed-IsLinked : (v : ℕ) (c : Cfg) → IsLinked c.heap → IsLinked (indexed v c)
unfolding indexed
indexed-IsLinked v c linked = record {
  out_links = λ x w. ground (arith, linked.out_links x w);
  in_links = λ x w. ground (arith, linked.in_links x w);
  paired = λ x. ground (arith, linked.paired x);
  fresh_edge = λ e p. linked.fresh_edge e p;
  fresh_vertex = λ w p. ground (arith, linked.fresh_vertex w p);
}

-- On consistent links, replacing a vertex by another that has no edge, is allocated and is not in
-- the graph succeeds: the new vertex has exactly the edges of the old one and its place in the
-- graph, the old one is left with no edge, and the links stay consistent.
pub replace_vertex-TakesOver :
    (old new : ℕ) (c : Cfg)
    → IsLinked c.heap
    → IsBare c.heap new
    → old ≢ new
    → new < c.heap.next_vertex
    → contains new c.graph.vertices ≡ false
    → ((replace_vertex old new c).1 ≡ true) × TakesOver old new c (replace_vertex old new c).0
unfolding replace_vertex indexed
replace_vertex-TakesOver old new c linked bare ne hn absent =
    let h = indexed new c in
    let t = transfer-Transferred old new h in
    let all = transfer-IsLinked old new h (indexed-IsLinked new c linked) (ground arith) ne hn in
    rw absent (
      refl,
      (
        all,
        ground (arith, t.out_edges new),
        ground (arith, t.in_edges new),
        (ground (arith, t.out_edges old), ground (arith, t.in_edges old)),
        λ w. ground (
          arith,
          contains-erase w old (insert new c.graph.vertices),
          contains-insert w new c.graph.vertices,
        ),
      ),
    )

-- On consistent links, replacing a vertex by one that is in the graph throws: the links stay
-- consistent and the graph has the vertices it had.
pub replace_vertex_duplicate :
    (old new : ℕ) (c : Cfg)
    → IsLinked c.heap
    → contains new c.graph.vertices ≡ true
    → ((replace_vertex old new c).1 ≡ false)
      × IsLinked (replace_vertex old new c).0.heap
      × ((replace_vertex old new c).0.graph.vertices ≡ c.graph.vertices)
unfolding replace_vertex indexed
replace_vertex_duplicate old new c linked present =
    rw present (refl, indexed-IsLinked new c linked, refl)

pub vertex_count-transfer :
    (old new : ℕ) (h : Heap) → (transfer_owned_resources_to old new h).next_vertex ≡ h.next_vertex
vertex_count-transfer old new h = (transfer-Transferred old new h).vertex_count

-- The edges of a third vertex are as before.
pub replace_vertex_others :
    (old new w : ℕ) (c : Cfg)
    → w ≢ old
    → w ≢ new
    → IsBare c.heap w
    → IsBare (replace_vertex old new c).0.heap w
unfolding replace_vertex indexed
replace_vertex_others old new w c ho hn bare =
    let t = transfer-Transferred old new (indexed new c) in
    elim (Bool-cases (contains new c.graph.vertices)) [
      | inl present ↦ rw present (ground arith, ground arith)
      | inr absent ↦ rw absent (ground (arith, t.out_edges w), ground (arith, t.in_edges w))
    ]

-- The statements are as before, and the out edges of a third vertex.
pub replace_vertex_kept :
    (old new w : ℕ) (c : Cfg)
    → (((replace_vertex old new c).0.heap.vertex w).statement ≡ (c.heap.vertex w).statement)
      × (w ≢ old
          → w ≢ new
          → ((replace_vertex old new c).0.heap.vertex w).out_edges ≡ (c.heap.vertex w).out_edges)
unfolding replace_vertex indexed
replace_vertex_kept old new w c =
    let t = transfer-Transferred old new (indexed new c) in
    elim (Bool-cases (contains new c.graph.vertices)) [
      | inl present ↦ rw present (ground arith, λ ho hn. ground arith)
      | inr absent ↦
          rw absent (ground (arith, t.statements w), λ ho hn. ground (arith, t.out_edges w))
    ]
