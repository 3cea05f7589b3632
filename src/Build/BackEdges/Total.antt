-- ===== src/Build/BackEdges/Total.antt =====
-- That BackEdgeFixupVisitor returns on the calls of a depth-first search:
-- src/controlflowgraph/visitors/BackEdgeFixupVisitor.h.
use coflo.Prelude.{
  ℕ, zero, suc, ◌<◌, ◌≡◌, ◌≢◌, refl, sym, subst, ◌∙◌, ◌⊎◌, inl, inr, true, List, [], ◌∷◌, none,
  some, arith, contains, Bool-cases, Option-cases, ◌==◌, length, ==_iff, if_keeps,
}
use coflo.Statement.{is_decision_statement, impossible}
use coflo.Graph.{Heap, Cfg, add_new_edge, out_degree}
use coflo.Graph.Counts.{vertex_count-add_new_edge}
use coflo.Graph.Links.{IsLinked, source-lt}
use coflo.Topological.Order.{target_is}
use coflo.Build.Grows.{Two, Decided, Grows, Grows-refl, Grows-trans, Grows-add_new_edge}
use coflo.Build.BackEdges.{
  DfsEvent, tree_edge, back_edge, PredecessorMap, predecessor, first_other, find_different_out_edge,
  Walk, found, null_vertex, leave_by, way_out, find_forward_target, Finder, record_back_edge,
  visit_back_edge, visit_tree_edge, visit_event, find_back_edges, BackEdgeFixupInfo,
  mark_as_back_edge, fixup_back_edge, fixup_all, fixup_back_edges,
}
use coflo.Build.BackEdges.Ascent.{Agrees, Agrees-cons}

-- `u` is `v` or below it in the tree, whose newest entry is the first.
abbrev pub Above : Heap → PredecessorMap → ℕ → ℕ → Type 0
Above h [] v u = u ≡ v
Above h ((k, e) ∷ m) v u =
    (u ≡ v)
    ⊎ ((k ≡ u) × (w : ℕ) × ((h.edge e).source ≡ some w) × Above h m v w)
    ⊎ ((k ≢ u) × Above h m v u)

-- The calls of a depth-first search: a tree edge leads to a vertex that no tree edge has led to, a back edge
-- to its source or to a vertex above it in the tree.
abbrev pub IsSearch : Heap → PredecessorMap → List DfsEvent → Type 0
IsSearch h m [] = Unit
IsSearch h m (tree_edge e ∷ evs) =
    (v : ℕ) × ((h.edge e).target ≡ some v) × (predecessor v m ≡ none) × IsSearch h ((v, e) ∷ m) evs
IsSearch h m (back_edge e ∷ evs) =
    (u v : ℕ) × ((h.edge e).source ≡ some u)
    × ((h.edge e).target ≡ some v)
    × Above h m v u
    × IsSearch h m evs

abbrev Keyed : PredecessorMap → Type 0
Keyed [] = Unit
Keyed ((v, e) ∷ m) = (predecessor v m ≡ none) × Keyed m

Agrees-Keyed : (m : PredecessorMap) → Keyed m → Agrees m m
unfolding predecessor
Agrees-Keyed [] k = tt
Agrees-Keyed ((v, e) ∷ m) (fresh, k) = (ground arith, Agrees-cons v e m m fresh (Agrees-Keyed m k))

first_other_found :
    (e x : ℕ) (xs : List ℕ)
    → contains x xs ≡ true
    → x ≢ e
    → (o : ℕ) × (first_other e xs ≡ some o) × (contains o xs ≡ true)
unfolding first_other
first_other_found e x [] mem ne = cc
first_other_found e x (y ∷ xs) mem ne = elim (Bool-cases (y == e)) [
  | inl same ↦
      let (o, is, in_xs) = first_other_found e x xs (ground (arith, mem, ne, same)) ne in
      (o, rw (first_other, same) is, ground (arith, in_xs))
  | inr other ↦ (y, rw (first_other, other) refl, ground arith)
]

-- The visitor goes on after the walk.
abbrev Returns : ℕ → Walk → Type 0
Returns e w =
    (s : Finder)
    → (s' : Finder) × (record_back_edge e w s ≡ some s') × (s'.predecessor_map ≡ s.predecessor_map)

found-Returns : (e t : ℕ) → Returns e (found t)
unfolding record_back_edge
found-Returns e t s = (_, refl, refl)

null-Returns : (e : ℕ) → Returns e null_vertex
unfolding record_back_edge
null-Returns e s = (_, refl, refl)

module _ (h : Heap) (linked : IsLinked h) where
  -- A decision vertex has another out edge, and that a target.
  way_out-Returns : (b e w : ℕ) → (h.edge e).source ≡ some w → Two h w → Returns b (way_out e h)
  unfolding way_out find_different_out_edge leave_by
  way_out-Returns b e w from (a₁, a₂, ne, p, q) =
      let outs = (h.vertex w).out_edges in
      let (o, is, mem) : (o : ℕ) × (first_other e outs ≡ some o) × (contains o outs ≡ true) =
        elim (Bool-cases (a₁ == e)) [
          | inl same ↦ first_other_found e a₂ outs q (λ r. ne ((==_iff a₁ e).0 same ∙ sym r))
          | inr other ↦ first_other_found e a₁ outs p (λ r. ground (arith, other, r))
        ] in
      let source = target_is (h.edge o).source w (sym (linked.out_links o w) ∙ mem) in
      elim (Option-cases (h.edge o).target) [
        | inl null ↦ cc (rw (source, null) at (linked.paired o))
        | inr (t, to) ↦ rw (way_out, find_different_out_edge, from, is, to) (found-Returns b t)
      ]

  module _
      (decided : (w : ℕ)
        → w < h.next_vertex
        → is_decision_statement (h.vertex w).statement ≡ true
        → Two h w)
      (all : PredecessorMap) (b v : ℕ) where
    climbs :
        (m : PredecessorMap) (fuel u : ℕ)
        → Agrees m all
        → Above h m v u
        → u ≢ v
        → length m < fuel
        → Returns b (find_forward_target fuel all h v u)
    unfolding find_forward_target
    climbs [] fuel u a top ne lt = absurd (ne top)
    climbs ((k, x) ∷ m) fuel u a (inl top) ne lt = absurd (ne top)
    climbs ((k, x) ∷ m) fuel u a (inr (inr (ne', above))) ne lt =
        climbs m fuel u a.1 above ne (omega (arith, lt))
    climbs ((k, x) ∷ m) zero u a (inr (inl (here, w, from, above))) ne lt =
        absurd (omega (arith, lt))
    climbs ((k, x) ∷ m) (suc fuel) u a (inr (inl (here, w, from, above))) ne lt =
        let at_u : predecessor u all ≡ some x = subst (λ y. predecessor y all ≡ some x) here a.0 in
        elim (Bool-cases (is_decision_statement (h.vertex w).statement)) [
          | inl d ↦
              rw (find_forward_target, at_u, from, d)
                (way_out-Returns b x w from (decided w (source-lt h x w linked from).0 d))
          | inr d ↦ elim (Bool-cases (w == v)) [
            | inl q ↦ rw (find_forward_target, at_u, from, d, q) (null-Returns b)
            | inr q ↦
                rw (find_forward_target, at_u, from, d, q)
                  (climbs m fuel w a.1 above (λ r. ground (arith, q, r)) (omega (arith, lt)))
          ]
        ]

  module _
      (decided : (w : ℕ)
        → w < h.next_vertex
        → is_decision_statement (h.vertex w).statement ≡ true
        → Two h w) where
    visit_back_edge_total :
        (e u v : ℕ) (s : Finder)
        → Keyed s.predecessor_map
        → Above h s.predecessor_map v u
        → (s' : Finder) × (visit_back_edge e (some u) (some v) h s ≡ some s')
          × (s'.predecessor_map ≡ s.predecessor_map)
    unfolding visit_back_edge
    visit_back_edge_total e u v s keyed above = elim (Bool-cases (u == v)) [
      | inl self ↦ rw (visit_back_edge, self) (null-Returns e s)
      | inr other ↦
          let m = s.predecessor_map in
          rw (visit_back_edge, other)
            (climbs decided m e v m (suc (length m)) u (Agrees-Keyed m keyed) above
              (λ r. ground (arith, other, r)) (omega arith) s)
    ]

    -- On consistent links where each decision statement has two out edges, the visitor gets through all the
    -- calls of a depth-first search.
    pub find_back_edges_total :
        (evs : List DfsEvent) (s : Finder)
        → Keyed s.predecessor_map
        → IsSearch h s.predecessor_map evs
        → (s' : Finder) × (find_back_edges h evs s ≡ some s')
    unfolding find_back_edges visit_event visit_tree_edge
    find_back_edges_total [] s keyed dfs = (s, refl)
    find_back_edges_total (tree_edge e ∷ evs) s keyed (v, to, fresh, dfs) =
        let (s', rest) =
          find_back_edges_total evs (record s { predecessor_map = (v, e) ∷ s.predecessor_map })
            (fresh, keyed) dfs in
        (s', rw (find_back_edges, to) rest)
    find_back_edges_total (back_edge e ∷ evs) s keyed (u, v, from, to, above, dfs) =
        let (s₁, step, same) = visit_back_edge_total e u v s keyed above in
        let (s', rest) =
          find_back_edges_total evs s₁ (subst Keyed (sym same) keyed)
            (subst (λ m. IsSearch h m evs) (sym same) dfs) in
        (s', rw (find_back_edges, from, to, step) rest)

mark-Grows : (e : ℕ) (c : Cfg) → Grows c (record c { heap = mark_as_back_edge e c.heap })
unfolding mark_as_back_edge
mark-Grows e c = record {
  members = refl;
  statements = λ w lt. refl;
  edges = λ x w lt p. p;
  grown = omega arith;
}

-- What FixupBackEdges adds, without a new vertex.
abbrev Adds : Cfg → Cfg → Type 0
Adds c d = Grows c d × (d.heap.next_vertex ≡ c.heap.next_vertex)

fixup_back_edge-Adds : (i : BackEdgeFixupInfo) (c : Cfg) → Adds c (fixup_back_edge i c)
unfolding fixup_back_edge mark_as_back_edge
fixup_back_edge-Adds i c =
    let c' : Cfg = record c { heap = mark_as_back_edge i.back_edge c.heap } in
    let marked : Adds c c' = (mark-Grows i.back_edge c, refl) in
    elim (Option-cases i.impossible_target_vertex) [
      | inl null ↦ rw (fixup_back_edge, null) marked
      | inr (t, is) ↦ elim (Option-cases (c'.heap.edge i.back_edge).source) [
        | inl null ↦ rw (fixup_back_edge, is, null) marked
        | inr (src, from) ↦
            rw (fixup_back_edge, is, from)
              (if_keeps (Adds c) (out_degree c'.heap src == 1) (add_new_edge src t impossible c') c'
                (
                  Grows-trans c c' (add_new_edge src t impossible c') marked.0
                      (Grows-add_new_edge src t impossible c'),
                  vertex_count-add_new_edge src t impossible c',
                )
                marked)
      ]
    ]

fixup_all-Adds : (is : List BackEdgeFixupInfo) (c : Cfg) → Adds c (fixup_all is c)
unfolding fixup_all
fixup_all-Adds [] c = (Grows-refl c, refl)
fixup_all-Adds (i ∷ is) c =
    let (g, same) = fixup_back_edge-Adds i c in
    let (g', same') = fixup_all-Adds is (fixup_back_edge i c) in
    (Grows-trans c (fixup_back_edge i c) (fixup_all is (fixup_back_edge i c)) g g', same' ∙ same)

-- So does FixupBackEdges, which keeps the members of the graph, the statements and the out edges that there
-- are, and allocates no vertex.
pub fixup_back_edges_total :
    (evs : List DfsEvent) (c : Cfg)
    → IsLinked c.heap
    → Decided c
    → IsSearch c.heap [] evs
    → (d : Cfg) × (fixup_back_edges evs c ≡ some d)
      × Grows c d
      × (d.heap.next_vertex ≡ c.heap.next_vertex)
unfolding fixup_back_edges
fixup_back_edges_total evs c linked decided dfs =
    let (s, all_found) =
      find_back_edges_total c.heap linked decided evs
        (record { back_edges = []; predecessor_map = [] }) tt dfs in
    let (g, same) = fixup_all-Adds s.back_edges c in
    (fixup_all s.back_edges c, rw (fixup_back_edges, all_found) refl, g, same)
