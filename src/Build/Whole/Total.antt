-- ===== src/Build/Whole/Total.antt =====
-- That Function::CreateControlFlowGraph returns: src/Function.cpp.
use coflo.Prelude.{
  ℕ, ◌+◌, ◌≤◌, ◌<◌, ◌≡◌, refl, ap, sym, subst, ◌∙◌, List, [], some, arith, contains, All-map,
}
use coflo.Statement.{Location, impossible}
use coflo.Graph.{Heap, Cfg, add_new_edge}
use coflo.Graph.Links.{IsLinked, add_new_edge-IsLinked}
use coflo.Graph.Counts.{vertex_count-add_new_edge}
use coflo.Build.Grows.{Decided-Grows, Grows-add_new_edge}
use coflo.Build.Create.{
  Progress, add_statements, close_last_block, link_statements, add_impossible_edges,
  check_for_no_in_edges,
}
use coflo.Build.Create.Links.{Labels-mono, add_impossible_edges-Holds}
use coflo.Build.Create.Total.{IsWhole, is_simple, Waiting, link_statements_total}
use coflo.Build.Create.Placed.{
  IsWhole-Grows, add_statements_total, Grows-close_last_block, IsWhole-close_last_block,
  Grows-add_impossible_edges,
}
use coflo.Build.BackEdges.{DfsEvent, fixup_back_edges}
use coflo.Build.BackEdges.Links.{fixup_back_edges-Holds}
use coflo.Build.BackEdges.Total.{IsSearch, fixup_back_edges_total}
use coflo.Build.Redundant.{remove_redundant_nodes}
use coflo.Build.Redundant.Links.{remove_redundant_nodes_correct}
use coflo.Build.Redundant.Decided.{remove_redundant_nodes-Kept}
use coflo.Build.Whole.{Built, start, add_self_edge, create_control_flow_graph}
use coflo.Build.Whole.Links.{
  start-IsSound, add_self_edge_lem, add_self_edge-Holds, create_control_flow_graph-IsLinked,
}
use coflo.Build.Whole.Start.{All-both, Keeps, IsList, start_total, add_self_edge-Keeps}

-- What CreateControlFlowGraph makes of the heap `c`.
pub record IsCreation (c : Cfg) (b : Built) : Type 0 where
  pub whole : IsWhole b.cfg
  pub grown : c.heap.next_vertex + 2 ≤ b.cfg.heap.next_vertex
  pub warned : b.warned ≡ []
  pub keeps : Keeps c b.cfg
  pub entry : b.entry_vertex_desc ≡ c.heap.next_vertex
  pub exit : b.exit_vertex_desc ≡ c.heap.next_vertex + 1

module _ (search : Heap → ℕ → List DfsEvent) (f : ℕ) (l : Location) (statement_list : List ℕ)
    (c : Cfg) where
  -- Up to the search for back edges.
  record BeforeSearch : Type 0 where
    p₀ : Progress
    p : Progress
    linked : Cfg
    started : start f l c ≡ some p₀
    added : add_statements f statement_list p₀ ≡ some p
    resolved :
        link_statements p.list_of_unlinked_flow_control_statements p.label_map
          (close_last_block (c.heap.next_vertex + 1) p)
        ≡ some linked
    whole :
        IsWhole
          (add_self_edge
            (c.heap.next_vertex + 1)
            (add_self_edge c.heap.next_vertex
              (add_impossible_edges p.list_of_leader_info linked)).0).0
    count :
        c.heap.next_vertex + 2
        ≤ (add_self_edge
            (c.heap.next_vertex + 1)
            (add_self_edge c.heap.next_vertex
              (add_impossible_edges p.list_of_leader_info linked)).0).0.heap.next_vertex
    keeps :
        Keeps c
          (add_self_edge
            (c.heap.next_vertex + 1)
            (add_self_edge c.heap.next_vertex
              (add_impossible_edges p.list_of_leader_info linked)).0).0

  IsWhole-add_self_edge :
      (n v : ℕ) (d : Cfg)
      → n ≤ d.heap.next_vertex
      → v < n
      → IsWhole d
      → IsWhole (add_self_edge v d).0
  IsWhole-add_self_edge n v d le lt w = subst IsWhole (sym (add_self_edge_lem v d)) (
      IsWhole-Grows d (add_new_edge v v impossible d) (Grows-add_new_edge v v impossible d)
        (vertex_count-add_new_edge v v impossible d)
        (add_new_edge-IsLinked d w.links v v impossible (omega (arith, le, lt))
          (omega (arith, le, lt)))
        w)

  -- The graph that FixupBackEdges is called on.
  searched : BeforeSearch → Cfg
  searched s =
      (add_self_edge (c.heap.next_vertex + 1)
        (add_self_edge c.heap.next_vertex
          (add_impossible_edges s.p.list_of_leader_info s.linked)).0).0

  built : BeforeSearch → Cfg → Built
  unfolding check_for_no_in_edges
  built s d =
      let c₁ = add_impossible_edges s.p.list_of_leader_info s.linked in
      let (c₂, entry_self_edge) = add_self_edge c.heap.next_vertex c₁ in
      let (c₃, exit_self_edge) = add_self_edge (c.heap.next_vertex + 1) c₂ in
      record {
        cfg = d;
        entry_vertex_desc = c.heap.next_vertex;
        exit_vertex_desc = c.heap.next_vertex + 1;
        entry_vertex_self_edge = entry_self_edge;
        exit_vertex_self_edge = exit_self_edge;
        warned = (check_for_no_in_edges s.p.list_of_statements_with_no_in_edge_yet c₁.heap).0;
      }

  -- Where the steps return, so does the whole.
  create_control_flow_graph-built :
      (s : BeforeSearch) (c₄ d : Cfg)
      → fixup_back_edges (search (searched s).heap c.heap.next_vertex) (searched s) ≡ some c₄
      → remove_redundant_nodes c₄ ≡ some d
      → create_control_flow_graph search f l statement_list c ≡ some (built s d)
  unfolding create_control_flow_graph built searched
  create_control_flow_graph-built s c₄ d fixed pruned =
      rw (create_control_flow_graph, s.started, s.added, s.resolved, fixed, pruned) refl

  before_search : IsWhole c → IsList statement_list c → BeforeSearch
  before_search w list =
      let n = c.heap.next_vertex + 2 in
      let exit_ptr = c.heap.next_vertex + 1 in
      let (p₀, started, placed₀, kept₀) = start_total f l c statement_list w list in
      let (sound₀, watched₀) = start-IsSound f l c p₀ w.links started in
      let below =
        All-map (λ (v : ℕ). v < c.heap.next_vertex) (λ (v : ℕ). v < n) statement_list
          (λ v lt. omega (arith, lt)) list.below in
      let (p, added, sound, placed, kept₁) =
        add_statements_total f n statement_list p₀ sound₀ below placed₀ in
      let closed = close_last_block exit_ptr p in
      let w₁ = IsWhole-close_last_block n exit_ptr p sound (omega arith) placed.whole in
      let g = Grows-close_last_block exit_ptr p in
      let grown : n ≤ closed.heap.next_vertex = omega (arith, g.grown, sound.count) in
      let waits : Waiting closed p.list_of_unlinked_flow_control_statements =
        All-map _ _ p.list_of_unlinked_flow_control_statements
          (λ v b. (
            omega (arith, b.0, grown),
            ap is_simple (g.statements v (omega (arith, b.0, sound.count))) ∙ b.1,
          ))
          (All-both _ _ p.list_of_unlinked_flow_control_statements sound.unlinked placed.waits) in
      let (d, resolved, w₂, more, kept₂) =
        link_statements_total p.list_of_unlinked_flow_control_statements p.label_map closed w₁ waits
          (Labels-mono n closed.heap.next_vertex p.label_map grown sound.labels) in
      let le : n ≤ d.heap.next_vertex = omega (arith, grown, more) in
      let (g₁, same) = Grows-add_impossible_edges p.list_of_leader_info d in
      let (links, le₁) =
        add_impossible_edges-Holds p.list_of_leader_info n d (w₂.links, le) sound.leaders in
      let c₁ = add_impossible_edges p.list_of_leader_info d in
      let w₃ = IsWhole-Grows d c₁ g₁ same links w₂ in
      let w₄ = IsWhole-add_self_edge n c.heap.next_vertex c₁ le₁ (omega arith) w₃ in
      let c₂ = (add_self_edge c.heap.next_vertex c₁).0 in
      let le₂ : n ≤ c₂.heap.next_vertex =
        (add_self_edge-Holds n c.heap.next_vertex c₁ (w₃.links, le₁) (omega arith)).1 in
      record {
        p₀ = p₀;
        p = p;
        linked = d;
        started = started;
        added = added;
        resolved = resolved;
        keeps = λ v lt.
            add_self_edge-Keeps exit_ptr c₂ v (omega (arith, lt, le₂))
            ∙ add_self_edge-Keeps c.heap.next_vertex c₁ v (omega (arith, lt, le₁))
            ∙ g₁.statements v (omega (arith, lt, le))
            ∙ kept₂ v (omega (arith, lt, grown))
            ∙ g.statements v (omega (arith, lt, sound.count))
            ∙ kept₁ v
            ∙ kept₀ v lt;
        whole = IsWhole-add_self_edge n exit_ptr c₂ le₂ (omega arith) w₄;
        count = (add_self_edge-Holds n exit_ptr c₂ (w₄.links, le₂) (omega arith)).1;
      }

  -- With a search that reports what a depth-first search of a graph does, and a list of statements that are
  -- allocated, none of them twice, in the graph or a switch: on consistent links, with allocated members
  -- and two out edges at each decision statement, CreateControlFlowGraph returns, and leaves such a graph,
  -- with no statement to warn of, the statements that there were as they are, and ENTRY and EXIT at the
  -- next two addresses.
  pub create_control_flow_graph_total :
      ((h : Heap) (v : ℕ) → IsLinked h → IsSearch h [] (search h v))
      → IsWhole c
      → IsList statement_list c
      → (b : Built) × (create_control_flow_graph search f l statement_list c ≡ some b)
        × IsCreation c b
  unfolding built searched
  create_control_flow_graph_total searches w list =
      let s = before_search w list in
      let entry_ptr = c.heap.next_vertex in
      let c₃ = searched s in
      let evs = search c₃.heap entry_ptr in
      let (c₄, fixed, g, same) =
        fixup_back_edges_total evs c₃ s.whole.links s.whole.decided
          (searches c₃.heap entry_ptr s.whole.links) in
      let links₄ = (fixup_back_edges-Holds evs c₃ c₄ s.whole.links fixed).0 in
      let (d, pruned, holds, subset, _, _) = remove_redundant_nodes_correct c₄ links₄ in
      let returns = create_control_flow_graph-built s c₄ d fixed pruned in
      let below =
        All-map (λ (v : ℕ). v < c.heap.next_vertex) (λ (v : ℕ). v < c.heap.next_vertex + 2)
          statement_list (λ v lt. omega (arith, lt)) list.below in
      let (two, kept) =
        remove_redundant_nodes-Kept c₄ d links₄ pruned
          (Decided-Grows c₃ c₄ g same s.whole.decided) in
      let whole : IsWhole d = record {
        links = holds.0;
        inside = λ v h.
            omega (
              arith,
              s.whole.inside v (sym (ap (contains v) g.members) ∙ subset v h),
              same,
              holds.1,
            );
        decided = two;
      } in
      (
        built s d,
        returns,
        record {
          whole = whole;
          grown = omega (arith, s.count, same, holds.1);
          warned =
              (create_control_flow_graph-IsLinked search f l statement_list c (built s d) w.links
                below returns).1;
          keeps = λ v lt. kept v ∙ g.statements v (omega (arith, lt, s.count)) ∙ s.keeps v lt;
          entry = refl;
          exit = refl;
        },
      )
