-- ===== src/Build/Redundant/Links.antt =====
-- The links, and the members of the graph, under RemoveRedundantNodes.
use coflo.Prelude.{
  ℕ, ◌≡◌, refl, inl, inr, Bool, true, false, List, [], ◌∷◌, ◌++◌, some, arith, ◌==◌, Bool-cases,
  All, All-map, All-concat, subst, length, contains, contains-erase, not, ◌||◌, ap, ==_iff, ◌&&◌,
  ◌∙◌,
}
use coflo.Graph.{Vertex, Heap, Cfg, remove_vertex, in_degree, out_degree}
use coflo.Graph.Links.{IsLinked, IsBare}
use coflo.Build.Create.Links.{Holds}
use coflo.Build.Redundant.Bypass.{bypass-Bypassed, bypass-IsBare, bypass-IsBare_other, out_target}
use coflo.Build.Redundant.Deleted.{prune_vertices-Schedules, remove_scheduled-deleted}
use coflo.Build.Redundant.{
  is_candidate, Pruned, schedule, bypass_first, prune_vertex, prune_vertices, remove_scheduled,
  remove_redundant_nodes,
}

in_degree_lem : (h : Heap) (v : ℕ) → in_degree h v ≡ length (h.vertex v).in_edges
unfolding in_degree
in_degree_lem h v = refl

out_degree_lem : (h : Heap) (v : ℕ) → out_degree h v ≡ length (h.vertex v).out_edges
unfolding out_degree
out_degree_lem h v = refl

-- A loop invariant of RemoveRedundantNodes: `n` vertices, the members `vs`, and the vertices that
-- are scheduled for removal are bare.
pub record IsPruned (n : ℕ) (vs : List ℕ) (p : Pruned) : Type 0 where
  pub holds : Holds n p.cfg
  pub members : p.cfg.graph.vertices ≡ vs
  pub bare : All (IsBare p.cfg.heap) p.vertices_to_remove

module _ (n : ℕ) (vs : List ℕ) where
  schedule-IsPruned :
      (v : ℕ) (scheduled : List ℕ) (d : Cfg)
      → Holds n d
      → d.graph.vertices ≡ vs
      → All (IsBare d.heap) scheduled
      → IsBare d.heap v
      → (p' : Pruned) × (schedule v scheduled (some d) ≡ some p')
        × IsPruned n vs p'
        × (p'.vertices_to_remove ≡ scheduled ++ v ∷ [])
  unfolding schedule
  schedule-IsPruned v scheduled d holds members bares bare =
      let p' : Pruned = record { cfg = d; vertices_to_remove = scheduled ++ v ∷ [] } in
      (
        p',
        rw (bare.0, bare.1) refl,
        record {
          holds = holds;
          members = members;
          bare = All-concat (IsBare d.heap) scheduled v bares bare;
        },
        refl,
      )

  -- A vertex with one in edge and one out edge is bypassed without a fault, is left with no edge,
  -- and is scheduled: the message "STILL HAS EDGES" is never reached.
  bypass_first-IsPruned :
      (v i o : ℕ) (p : Pruned)
      → IsPruned n vs p
      → (p.cfg.heap.vertex v).in_edges ≡ i ∷ []
      → (p.cfg.heap.vertex v).out_edges ≡ o ∷ []
      → (p' : Pruned) × (bypass_first v (i ∷ []) (o ∷ []) p ≡ some p')
        × IsPruned n vs p'
        × (p'.vertices_to_remove ≡ p.vertices_to_remove ++ v ∷ [])
  unfolding bypass_first
  bypass_first-IsPruned v i o p inv ins outs =
      let linked = inv.holds.0 in
      let (t, to) = out_target v i o p.cfg linked ins outs in
      let (d, done, ends, holds, members) = bypass-Bypassed v i o p.cfg linked ins outs t to in
      let (p', scheduled, inv', added) =
        schedule-IsPruned v p.vertices_to_remove d (holds.0, omega (arith, inv.holds.1, holds.1))
          (members ∙ inv.members)
          (All-map _ _ p.vertices_to_remove
            (λ w. bypass-IsBare_other v i o p.cfg linked ins outs t w d to ends holds.0) inv.bare)
          (bypass-IsBare v i o p.cfg linked ins outs t d to ends holds.0) in
      (p', rw done scheduled, inv', added)

  unchanged :
      (v : ℕ) (p : Pruned) → IsPruned n vs p → (p' : Pruned) × (some p ≡ some p') × IsPruned n vs p'
  unchanged v p inv = (p, refl, inv)

  bypass_single-IsPruned :
      (v : ℕ) (ins outs : List ℕ) (p : Pruned)
      → IsPruned n vs p
      → (p.cfg.heap.vertex v).in_edges ≡ ins
      → (p.cfg.heap.vertex v).out_edges ≡ outs
      → length ins ≡ 1
      → length outs ≡ 1
      → (p' : Pruned) × (bypass_first v ins outs p ≡ some p')
        × IsPruned n vs p'
        × (p'.vertices_to_remove ≡ p.vertices_to_remove ++ v ∷ [])
  bypass_single-IsPruned v (i ∷ []) (o ∷ []) p inv ins outs one_in one_out =
      bypass_first-IsPruned v i o p inv ins outs
  bypass_single-IsPruned v [] os p inv ins outs one_in one_out = absurd (omega arith)
  bypass_single-IsPruned v (i ∷ j ∷ is) os p inv ins outs one_in one_out = absurd (omega arith)
  bypass_single-IsPruned v (i ∷ []) [] p inv ins outs one_in one_out = absurd (omega arith)
  bypass_single-IsPruned v (i ∷ []) (o ∷ q ∷ os) p inv ins outs one_in one_out =
      absurd (omega arith)

  redundant_degrees :
      (b : Bool) (h : Heap) (v : ℕ)
      → (b && (in_degree h v == 1) && (out_degree h v == 1)) ≡ true
      → (length (h.vertex v).in_edges ≡ 1) × (length (h.vertex v).out_edges ≡ 1)
  redundant_degrees b h v e = ground (arith, in_degree_lem h v, out_degree_lem h v)

  pub prune_vertex-IsPruned :
      (v : ℕ) (p : Pruned)
      → IsPruned n vs p
      → (p' : Pruned) × (prune_vertex v p ≡ some p') × IsPruned n vs p'
  unfolding prune_vertex
  prune_vertex-IsPruned v p inv =
      elim (Bool-cases (
        is_candidate x.statement
        && (in_degree p.cfg.heap v == 1)
        && (out_degree p.cfg.heap v == 1))) [
          | inl redundant ↦
              let (one_in, one_out) = redundant_degrees _ p.cfg.heap v redundant in
              let (p', done, inv', _) =
                bypass_single-IsPruned v x.in_edges x.out_edges p inv refl refl one_in one_out in
              (p', cc, inv')
          | inr kept ↦ (p, rw kept refl, inv)
        ]
    where
      open p use {cfg}

      x : Vertex
      x = cfg.heap.vertex v

  pub prune_vertices-IsPruned :
      (ws : List ℕ) (p : Pruned)
      → IsPruned n vs p
      → (p' : Pruned) × (prune_vertices ws p ≡ some p') × IsPruned n vs p'
  unfolding prune_vertices
  prune_vertices-IsPruned [] p inv = (p, refl, inv)
  prune_vertices-IsPruned (w ∷ ws) p inv =
      let (q, step, inv') = prune_vertex-IsPruned w p inv in
      let (r, rest, inv'') = prune_vertices-IsPruned ws q inv' in
      (r, rw (step, prune_vertices) rest, inv'')

remove_vertex_members :
    (v w : ℕ) (c : Cfg)
    → contains w (remove_vertex v c).graph.vertices ≡ (not (v == w) && contains w c.graph.vertices)
unfolding remove_vertex
remove_vertex_members v w c = contains-erase w v c.graph.vertices

remove_vertex_heap : (v : ℕ) (c : Cfg) → (remove_vertex v c).heap ≡ c.heap
unfolding remove_vertex
remove_vertex_heap v c = refl

remove_scheduled_members :
    (vs : List ℕ) (w : ℕ) (c : Cfg)
    → contains w (remove_scheduled vs c).graph.vertices
      ≡ (not (contains w vs) && contains w c.graph.vertices)
unfolding remove_scheduled
remove_scheduled_members [] w c = refl
remove_scheduled_members (v ∷ vs) w c =
    let c' = remove_vertex v c in
    ground (
      arith,
      remove_vertex_members v w c,
      remove_scheduled_members vs w
          (record c' { heap = record (c'.heap) { deleted = v ∷ c'.heap.deleted } }),
    )

-- The removal touches the set of vertices and the list of deleted ones alone.
pub remove_scheduled_heap :
    (vs : List ℕ) (c : Cfg)
    → ((remove_scheduled vs c).heap.vertex ≡ c.heap.vertex)
      × ((remove_scheduled vs c).heap.edge ≡ c.heap.edge)
      × ((remove_scheduled vs c).heap.next_vertex ≡ c.heap.next_vertex)
      × ((remove_scheduled vs c).heap.next_edge ≡ c.heap.next_edge)
unfolding remove_scheduled
remove_scheduled_heap [] c = (refl, refl, refl, refl)
remove_scheduled_heap (v ∷ vs) c =
    let c' = remove_vertex v c in
    let (a, b, n, m) =
      remove_scheduled_heap vs
        (record c' { heap = record (c'.heap) { deleted = v ∷ c'.heap.deleted } }) in
    let e = remove_vertex_heap v c in
    (
      a ∙ ap (λ (h : Heap). h.vertex) e,
      b ∙ ap (λ (h : Heap). h.edge) e,
      n ∙ ap (λ (h : Heap). h.next_vertex) e,
      m ∙ ap (λ (h : Heap). h.next_edge) e,
    )

remove_scheduled-IsLinked :
    (vs : List ℕ) (c : Cfg) → IsLinked c.heap → IsLinked (remove_scheduled vs c).heap
remove_scheduled-IsLinked vs c linked =
    let (a, b, n, m) = remove_scheduled_heap vs c in
    record {
      out_links = λ x w. rw (a, b) (linked.out_links x w);
      in_links = λ x w. rw (a, b) (linked.in_links x w);
      paired = λ x. rw b (linked.paired x);
      fresh_edge = λ x p. rw b (linked.fresh_edge x (omega arith));
      fresh_vertex = λ x p. rw a (linked.fresh_vertex x (omega arith));
    }

All-contains : (P : ℕ → Type 0) (xs : List ℕ) (a : ℕ) → All P xs → contains a xs ≡ true → P a
All-contains P [] a h e = cc
All-contains P (x ∷ xs) a h e = elim (Bool-cases (x == a)) [
  | inl hit ↦ subst P ((==_iff x a).0 hit) h.0
  | inr miss ↦ All-contains P xs a h.1 (ground arith)
]

remove_redundant_nodes_step :
    (c : Cfg) (p : Pruned)
    → prune_vertices c.graph.vertices (record { cfg = c; vertices_to_remove = [] }) ≡ some p
    → remove_redundant_nodes c ≡ some (remove_scheduled p.vertices_to_remove p.cfg)
unfolding remove_redundant_nodes
remove_redundant_nodes_step c p done = rw (done, remove_redundant_nodes)

-- The vertices that are given to `delete`: those of `c` and those that have left the graph.
remove_redundant_nodes-deleted :
    (c : Cfg) (p : Pruned) (v : ℕ)
    → prune_vertices c.graph.vertices (record { cfg = c; vertices_to_remove = [] }) ≡ some p
    → p.cfg.graph.vertices ≡ c.graph.vertices
    → contains v (remove_scheduled p.vertices_to_remove p.cfg).heap.deleted ≡ (
        contains v c.heap.deleted
        || (contains v c.graph.vertices
            && not (contains v (remove_scheduled p.vertices_to_remove p.cfg).graph.vertices)))
remove_redundant_nodes-deleted c p v done same =
    let (kept, scheduled) =
      prune_vertices-Schedules c.graph.vertices (record { cfg = c; vertices_to_remove = [] }) p
        done in
    ground (
      arith,
      scheduled v,
      ap (contains v) same,
      ap (contains v) kept,
      remove_scheduled-deleted p.vertices_to_remove p.cfg v,
      remove_scheduled_members p.vertices_to_remove v p.cfg,
    )

-- On consistent links RemoveRedundantNodes ends without a fault and keeps the links consistent, and the
-- next free address of a vertex no lower; no vertex joins the graph, each that leaves it has no edge
-- left, and those that leave it are the vertices that it deletes.
pub remove_redundant_nodes_correct :
    (c : Cfg)
    → IsLinked c.heap
    → (d : Cfg) × (remove_redundant_nodes c ≡ some d)
      × Holds c.heap.next_vertex d
      × ((v : ℕ) → contains v d.graph.vertices ≡ true → contains v c.graph.vertices ≡ true)
      × ((v : ℕ)
          → contains v c.graph.vertices ≡ true
          → contains v d.graph.vertices ≡ false
          → IsBare d.heap v)
      × ((v : ℕ)
          → contains v d.heap.deleted ≡ (
              contains v c.heap.deleted
              || (contains v c.graph.vertices && not (contains v d.graph.vertices))))
remove_redundant_nodes_correct c linked =
    let (p, done, inv) =
      prune_vertices-IsPruned c.heap.next_vertex c.graph.vertices c.graph.vertices
        (record { cfg = c; vertices_to_remove = [] })
        (record { holds = (linked, omega arith); members = refl; bare = tt }) in
    let members = λ (v : ℕ). remove_scheduled_members p.vertices_to_remove v p.cfg in
    let (a, b, n, m) = remove_scheduled_heap p.vertices_to_remove p.cfg in
    (
      remove_scheduled p.vertices_to_remove p.cfg,
      remove_redundant_nodes_step c p done,
      (
        remove_scheduled-IsLinked p.vertices_to_remove p.cfg inv.holds.0,
        omega (arith, inv.holds.1),
      ),
      λ v h. subst (λ vs. contains v vs ≡ true) inv.members (ground (arith, members v)),
      λ v old gone. rw a (
          All-contains _ p.vertices_to_remove v inv.bare
            (ground (arith, members v, ap (contains v) inv.members))),
      λ v. remove_redundant_nodes-deleted c p v done inv.members,
    )
