-- ===== src/Graph/Index.antt =====
-- The vertex indices that Graph::AddVertex hands out (the documentation of Vertex::GetIndex: "The
-- index is guaranteed to be unique to the containing Graph").
use coflo.Prelude.{
  ℕ, ◌<◌, ◌≡◌, refl, inl, inr, true, List, [], ◌∷◌, Option, some, arith, contains, contains-insert,
  contains-erase, Bool-cases,
}
use coflo.Graph.{
  Heap, Cfg, set_source, set_target, set_targets, set_sources, transfer_owned_resources_to,
  add_vertex, remove_vertex, replace_vertex,
}

pub record IsIndexed (c : Cfg) : Type 0 where
  pub below :
      (v : ℕ)
      → contains v c.graph.vertices ≡ true
      → (c.heap.vertex v).vertex_index < c.graph.vertex_id_state
  pub distinct :
      (v w : ℕ)
      → contains v c.graph.vertices ≡ true
      → contains w c.graph.vertices ≡ true
      → (c.heap.vertex v).vertex_index ≡ (c.heap.vertex w).vertex_index
      → v ≡ w

-- If the vertices of a graph have distinct indices below the next one, they still do after
-- AddVertex, also where it throws.
pub add_vertex-IsIndexed : (v : ℕ) (c : Cfg) → IsIndexed c → IsIndexed (add_vertex v c).0
unfolding add_vertex
add_vertex-IsIndexed v c i = record {
  below = λ x. ground (arith, i.below x, contains-insert x v c.graph.vertices);
  distinct = λ x y. ground (
    arith,
    i.below x,
    i.below y,
    i.distinct x y,
    contains-insert x v c.graph.vertices,
    contains-insert y v c.graph.vertices,
  );
}

pub remove_vertex-IsIndexed : (v : ℕ) (c : Cfg) → IsIndexed c → IsIndexed (remove_vertex v c)
unfolding remove_vertex
remove_vertex-IsIndexed v c i = record {
  below = λ x. ground (arith, i.below x, contains-erase x v c.graph.vertices);
  distinct = λ x y. ground (
    arith,
    i.distinct x y,
    contains-erase x v c.graph.vertices,
    contains-erase y v c.graph.vertices,
  );
}

index-set_targets : (u : Option ℕ) (es : List ℕ) (h : Heap) → (set_targets u es h).vertex ≡ h.vertex
unfolding set_targets
index-set_targets u [] h = refl
index-set_targets u (e ∷ es) h = index-set_targets u es (set_target u e h)

index-set_sources : (u : Option ℕ) (es : List ℕ) (h : Heap) → (set_sources u es h).vertex ≡ h.vertex
unfolding set_sources
index-set_sources u [] h = refl
index-set_sources u (e ∷ es) h = index-set_sources u es (set_source u e h)

index-transfer :
    (u v x : ℕ) (h : Heap)
    → ((transfer_owned_resources_to u v h).vertex x).vertex_index ≡ (h.vertex x).vertex_index
unfolding transfer_owned_resources_to
index-transfer u v x h =
    let h' = set_targets (some v) (h.vertex u).in_edges h in
    ground (
      arith,
      index-set_targets (some v) (h.vertex u).in_edges h,
      index-set_sources (some v) (h.vertex u).out_edges h',
    )

-- If the vertices of a graph have distinct indices below the next one, they still do after
-- ReplaceVertex, also where it throws.
pub replace_vertex-IsIndexed :
    (old new : ℕ) (c : Cfg) → IsIndexed c → IsIndexed (replace_vertex old new c).0
unfolding replace_vertex
replace_vertex-IsIndexed old new c i = elim (Bool-cases (add_vertex new c).1) [
  | inl done ↦ rw done (
      remove_vertex-IsIndexed old
        (record ((add_vertex new c).0) {
          heap = transfer_owned_resources_to old new (add_vertex new c).0.heap;
        })
        moved)
  | inr thrown ↦ rw thrown (add_vertex-IsIndexed new c i)
]
  where
    added : IsIndexed (add_vertex new c).0
    added = add_vertex-IsIndexed new c i

    moved : IsIndexed (record ((add_vertex new c).0) {
      heap = transfer_owned_resources_to old new (add_vertex new c).0.heap;
    })
    moved = record {
      below =
          λ x. ground (arith, added.below x, index-transfer old new x (add_vertex new c).0.heap);
      distinct = λ x y. ground (
        arith,
        added.distinct x y,
        index-transfer old new x (add_vertex new c).0.heap,
        index-transfer old new y (add_vertex new c).0.heap,
      );
    }
