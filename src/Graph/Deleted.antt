-- ===== src/Graph/Deleted.antt =====
-- ReplaceVertex gives no vertex to `delete`: src/controlflowgraph/Graph.cpp.
use coflo.Prelude.{ℕ, ◌≡◌, refl, ◌∙◌, arith, List, [], ◌∷◌, Option, some}
use coflo.Graph.{
  Heap, Cfg, set_target, set_source, set_targets, set_sources, swap_edges,
  transfer_owned_resources_to, add_vertex, remove_vertex, replace_vertex,
}

set_targets-deleted :
    (u : Option ℕ) (es : List ℕ) (h : Heap) → (set_targets u es h).deleted ≡ h.deleted
unfolding set_targets set_target
set_targets-deleted u [] h = refl
set_targets-deleted u (e ∷ es) h = set_targets-deleted u es (set_target u e h)

set_sources-deleted :
    (u : Option ℕ) (es : List ℕ) (h : Heap) → (set_sources u es h).deleted ≡ h.deleted
unfolding set_sources set_source
set_sources-deleted u [] h = refl
set_sources-deleted u (e ∷ es) h = set_sources-deleted u es (set_source u e h)

transfer-deleted : (u v : ℕ) (h : Heap) → (transfer_owned_resources_to u v h).deleted ≡ h.deleted
unfolding transfer_owned_resources_to swap_edges
transfer-deleted u v h =
    set_sources-deleted (some v) (h.vertex u).out_edges
      (set_targets (some v) (h.vertex u).in_edges h)
    ∙ set_targets-deleted (some v) (h.vertex u).in_edges h

pub deleted-replace_vertex :
    (u v : ℕ) (c : Cfg) → (replace_vertex u v c).0.heap.deleted ≡ c.heap.deleted
unfolding replace_vertex add_vertex remove_vertex
deleted-replace_vertex u v c = ground (arith, transfer-deleted u v (add_vertex v c).0.heap)
