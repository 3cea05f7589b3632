-- ===== src/Build/BackEdges/Links.antt =====
-- The links under FixupBackEdges.
use coflo.Prelude.{
  ℕ, zero, suc, ◌<◌, ◌≡◌, refl, inl, inr, Bool, true, false, List, [], ◌∷◌, Option, none, some,
  arith, ◌==◌, if◌then◌else◌, Bool-cases, Option-cases, All, All-concat, eq_of_some, subst, length,
}
use coflo.Statement.{impossible, is_decision_statement}
use coflo.Graph.{Heap, Cfg, add_new_edge, out_degree}
use coflo.Graph.Links.{IsLinked, add_new_edge-IsLinked, source-lt, target-lt}
use coflo.Graph.Counts.{vertex_count-add_new_edge}
use coflo.Build.Create.Links.{Holds}
use coflo.Build.BackEdges.{
  DfsEvent, tree_edge, back_edge, BackEdgeFixupInfo, PredecessorMap, predecessor,
  find_different_out_edge, Walk, found, null_vertex, fault, out_of_fuel, leave_by, way_out,
  find_forward_target, Finder, record_back_edge, visit_back_edge, visit_tree_edge, visit_event,
  find_back_edges, mark_as_back_edge, fixup_back_edge, fixup_all, fixup_back_edges,
}

-- A vertex that the walk found is allocated.
abbrev FoundBelow : ℕ → Walk → Type 0
FoundBelow n (found t) = t < n
FoundBelow n null_vertex = Unit
FoundBelow n fault = Unit
FoundBelow n out_of_fuel = Unit

leave_by-FoundBelow :
    (n : ℕ) (o : Option ℕ) → ((t : ℕ) → o ≡ some t → t < n) → FoundBelow n (leave_by o)
unfolding leave_by
leave_by-FoundBelow n none h = tt
leave_by-FoundBelow n (some t) h = h t refl

module _ (h : Heap) (linked : IsLinked h) where
  way_out-FoundBelow : (e : ℕ) → FoundBelow h.next_vertex (way_out e h)
  unfolding way_out
  way_out-FoundBelow e = elim (Option-cases (find_different_out_edge e h)) [
    | inl nothing ↦ rw (nothing, way_out) tt
    | inr (other, eq) ↦
        rw (eq, way_out)
          (leave_by-FoundBelow _ (h.edge other).target (λ t p. (target-lt h other t linked p).0))
  ]

  walk-FoundBelow :
      (fuel : ℕ) (m : PredecessorMap) (v u : ℕ)
      → FoundBelow h.next_vertex (find_forward_target fuel m h v u)
  unfolding find_forward_target
  walk-FoundBelow zero m v u = tt
  walk-FoundBelow (suc fuel) m v u = elim (Option-cases (predecessor u m)) [
    | inl nothing ↦ rw (nothing, find_forward_target) tt
    | inr (e, eq) ↦ elim (Option-cases (h.edge e).source) [
      | inl null ↦ rw (eq, find_forward_target, null) tt
      | inr (w, up) ↦ elim (Bool-cases (is_decision_statement (h.vertex w).statement)) [
        | inl decides ↦ rw (eq, find_forward_target, up, decides) (way_out-FoundBelow e)
        | inr plain ↦ elim (Bool-cases (w == v)) [
          | inl top ↦ rw (eq, find_forward_target, up, plain, top) tt
          | inr more ↦ rw (eq, find_forward_target, up, plain, more) (walk-FoundBelow fuel m v w)
        ]
      ]
    ]
  ]

abbrev InfoBelow : ℕ → BackEdgeFixupInfo → Type 0
InfoBelow n i = (t : ℕ) → i.impossible_target_vertex ≡ some t → t < n

abbrev FinderBelow : ℕ → Finder → Type 0
FinderBelow n s = All (InfoBelow n) s.back_edges

record_back_edge-Below :
    (n e : ℕ) (w : Walk) (s s' : Finder)
    → FoundBelow n w
    → FinderBelow n s
    → record_back_edge e w s ≡ some s'
    → FinderBelow n s'
unfolding record_back_edge
record_back_edge-Below n e (found t) s s' h b eq =
    subst (FinderBelow n) (eq_of_some eq)
      (All-concat (InfoBelow n) s.back_edges _ b (λ x p. subst (λ y. y < n) (eq_of_some p) h))
record_back_edge-Below n e null_vertex s s' h b eq =
    subst (FinderBelow n) (eq_of_some eq) (All-concat (InfoBelow n) s.back_edges _ b (λ x p. cc))
record_back_edge-Below n e fault s s' h b eq = cc
record_back_edge-Below n e out_of_fuel s s' h b eq = cc

module _ (h : Heap) (linked : IsLinked h) where
  visit_back_edge-Below :
      (e : ℕ) (a b : Option ℕ) (s s' : Finder)
      → FinderBelow h.next_vertex s
      → visit_back_edge e a b h s ≡ some s'
      → FinderBelow h.next_vertex s'
  unfolding visit_back_edge
  visit_back_edge-Below e none b s s' below eq = cc
  visit_back_edge-Below e (some u) none s s' below eq = cc
  visit_back_edge-Below e (some u) (some v) s s' below eq = elim (Bool-cases (u == v)) [
    | inl self ↦ record_back_edge-Below _ e null_vertex s s' tt below (rw self at eq)
    | inr other ↦
        record_back_edge-Below _ e
          (find_forward_target (suc (length s.predecessor_map)) s.predecessor_map h v u) s s'
          (walk-FoundBelow h linked (suc (length s.predecessor_map)) s.predecessor_map v u) below
          (rw other at eq)
  ]

  visit_tree_edge-Below :
      (e : ℕ) (t : Option ℕ) (s s' : Finder)
      → FinderBelow h.next_vertex s
      → visit_tree_edge e t s ≡ some s'
      → FinderBelow h.next_vertex s'
  unfolding visit_tree_edge
  visit_tree_edge-Below e none s s' below eq = cc
  visit_tree_edge-Below e (some v) s s' below eq =
      subst (FinderBelow h.next_vertex) (eq_of_some eq) below

  visit_event-Below :
      (ev : DfsEvent) (s s' : Finder)
      → FinderBelow h.next_vertex s
      → visit_event h ev s ≡ some s'
      → FinderBelow h.next_vertex s'
  unfolding visit_event
  visit_event-Below (tree_edge e) s s' below eq =
      visit_tree_edge-Below e (h.edge e).target s s' below eq
  visit_event-Below (back_edge e) s s' below eq =
      visit_back_edge-Below e (h.edge e).source (h.edge e).target s s' below eq

  find_back_edges-Below :
      (evs : List DfsEvent) (s s' : Finder)
      → FinderBelow h.next_vertex s
      → find_back_edges h evs s ≡ some s'
      → FinderBelow h.next_vertex s'
  unfolding find_back_edges
  find_back_edges-Below [] s s' below eq = subst (FinderBelow h.next_vertex) (eq_of_some eq) below
  find_back_edges-Below (ev ∷ evs) s s' below eq = elim (Option-cases (visit_event h ev s)) [
    | inl null ↦ cc (rw (null, find_back_edges) at eq)
    | inr (s₁, step) ↦
        find_back_edges-Below evs s₁ s' (visit_event-Below ev s s₁ below step)
          (rw (step, find_back_edges) at eq)
  ]

mark-IsLinked : (e : ℕ) (h : Heap) → IsLinked h → IsLinked (mark_as_back_edge e h)
unfolding mark_as_back_edge
mark-IsLinked e h linked = record {
  out_links = λ x w. ground (arith, linked.out_links x w);
  in_links = λ x w. ground (arith, linked.in_links x w);
  paired = λ x. ground (arith, linked.paired x);
  fresh_edge = λ x p. ground (arith, linked.fresh_edge x);
  fresh_vertex = λ x p. linked.fresh_vertex x p;
}

mark-next_vertex : (e : ℕ) (h : Heap) → (mark_as_back_edge e h).next_vertex ≡ h.next_vertex
unfolding mark_as_back_edge
mark-next_vertex e h = refl

-- The impossible edge from a vertex of out degree 1, on either outcome of the test.
detour-Holds :
    (n src t : ℕ) (b : Bool) (c : Cfg)
    → Holds n c
    → src < c.heap.next_vertex
    → t < n
    → Holds n (if b then add_new_edge src t impossible c else c)
detour-Holds n src t true c holds hs ht = (
  add_new_edge-IsLinked c holds.0 src t impossible hs (omega arith),
  omega (arith, vertex_count-add_new_edge src t impossible c),
)
detour-Holds n src t false c holds hs ht = holds

fixup_back_edge-Holds :
    (n : ℕ) (i : BackEdgeFixupInfo) (c : Cfg)
    → Holds n c
    → InfoBelow n i
    → Holds n (fixup_back_edge i c)
unfolding fixup_back_edge
fixup_back_edge-Holds n i c holds below = go i.impossible_target_vertex refl
  where
    marked : Cfg
    marked = record c { heap = mark_as_back_edge i.back_edge c.heap }

    still : Holds n marked
    still = (
      mark-IsLinked i.back_edge c.heap holds.0,
      omega (arith, mark-next_vertex i.back_edge c.heap),
    )

    go : (o : Option ℕ) → i.impossible_target_vertex ≡ o → Holds n (fixup_back_edge i c)
    go none e = rw (e, fixup_back_edge) still
    go (some t) e = elim (Option-cases (marked.heap.edge i.back_edge).source) [
      | inl null ↦ rw (e, fixup_back_edge, null) still
      | inr (src, s) ↦
          rw (e, fixup_back_edge, s)
            (detour-Holds n src t (out_degree marked.heap src == 1) marked still
              (source-lt marked.heap i.back_edge src still.0 s).0 (below t e))
    ]

fixup_all-Holds :
    (n : ℕ) (is : List BackEdgeFixupInfo) (c : Cfg)
    → Holds n c
    → All (InfoBelow n) is
    → Holds n (fixup_all is c)
unfolding fixup_all
fixup_all-Holds n [] c holds below = holds
fixup_all-Holds n (i ∷ is) c holds below =
    fixup_all-Holds n is (fixup_back_edge i c) (fixup_back_edge-Holds n i c holds below.0) below.1

-- On consistent links, a run of FixupBackEdges that returns, on whatever events of the search,
-- keeps the links consistent and every allocated vertex.
pub fixup_back_edges-Holds :
    (evs : List DfsEvent) (c d : Cfg)
    → IsLinked c.heap
    → fixup_back_edges evs c ≡ some d
    → Holds c.heap.next_vertex d
unfolding fixup_back_edges
fixup_back_edges-Holds evs c d linked e =
    let s₀ : Finder = record { back_edges = []; predecessor_map = [] } in
    elim (Option-cases (find_back_edges c.heap evs s₀)) [
      | inl null ↦ cc (rw (null, fixup_back_edges) at e)
      | inr (s, eq) ↦
          subst (Holds c.heap.next_vertex) (eq_of_some (rw (eq, fixup_back_edges) at e)) (
            fixup_all-Holds _ s.back_edges c (linked, omega arith)
              (find_back_edges-Below c.heap linked evs s₀ s tt eq))
    ]
