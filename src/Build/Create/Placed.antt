-- ===== src/Build/Create/Placed.antt =====
-- That the loop over the statements in Function::CreateControlFlowGraph returns: src/Function.cpp.
use coflo.Prelude.{
  ℕ, ◌<◌, ◌≡◌, refl, ap, sym, ◌∙◌, true, false, ◌||◌, List, [], ◌∷◌, some, arith, contains,
  contains-insert, ◌==◌, All, All-map, All-concat, if_keeps, if_splits,
}
use coflo.Statement.{
  EdgeType, fallthrough, impossible, is_decision_statement, is_flow_control_unlinked,
}
use coflo.Graph.{Cfg, in_degree, add_vertex, add_new_edge, add_edge, new_edge}
use coflo.Graph.Links.{IsLinked}
use coflo.Graph.Counts.{vertex_count-add_new_edge, vertex_count-add_vertex, add_vertex-IsLinked}
use coflo.Visit.Reach.{IsDistinct}
use coflo.Build.Grows.{Grows, Decided-Grows, Grows-refl, Grows-trans, Grows-add_new_edge}
use coflo.Build.Resolve.Grows.{is_switch}
use coflo.Build.Create.{
  Progress, BasicBlockLeaderInfo, add_impossible_edges, set_owning_function, place_statement,
  add_statement, add_statements, close_last_block,
}
use coflo.Build.Create.Links.{
  IsSound, Below, owned-IsLinked, add_statement-IsSound, close_last_block-IsLinked,
}
use coflo.Build.Create.Total.{IsWhole, is_simple}

pub IsWhole-Grows :
    (c d : Cfg)
    → Grows c d
    → d.heap.next_vertex ≡ c.heap.next_vertex
    → IsLinked d.heap
    → IsWhole c
    → IsWhole d
IsWhole-Grows c d g same links w = record {
  links = links;
  inside = λ v h. omega (arith, same, w.inside v (sym (ap (contains v) g.members) ∙ h));
  decided = Decided-Grows c d g same w.decided;
}

pub Grows-owned : (f v : ℕ) (c : Cfg) → Grows c (set_owning_function f v c)
Grows-owned f v c = record {
  members = refl;
  statements = λ w lt. ground arith;
  edges = λ e w lt h. ground (arith, h);
  grown = omega arith;
}

owned-statement :
    (f v w : ℕ) (c : Cfg)
    → ((set_owning_function f v c).heap.vertex w).statement ≡ (c.heap.vertex w).statement
owned-statement f v w c = ground arith

add_new_edge-statement :
    (u v w : ℕ) (t : EdgeType) (c : Cfg)
    → ((add_new_edge u v t c).heap.vertex w).statement ≡ (c.heap.vertex w).statement
unfolding add_new_edge add_edge new_edge
add_new_edge-statement u v w t c = ground arith

pub add_vertex-statement :
    (v w : ℕ) (c : Cfg) → ((add_vertex v c).0.heap.vertex w).statement ≡ (c.heap.vertex w).statement
unfolding add_vertex
add_vertex-statement v w c = ground arith

add_vertex-out_edges :
    (v w : ℕ) (c : Cfg) → ((add_vertex v c).0.heap.vertex w).out_edges ≡ (c.heap.vertex w).out_edges
unfolding add_vertex
add_vertex-out_edges v w c = ground arith

-- The vertex that is added is allocated.
pub IsWhole-add_vertex :
    (v : ℕ) (c : Cfg) → v < c.heap.next_vertex → IsWhole c → IsWhole (add_vertex v c).0
unfolding add_vertex
IsWhole-add_vertex v c lt w = record {
  links = add_vertex-IsLinked v c w.links;
  inside = λ u h. ground (arith, w.inside u, contains-insert u v c.graph.vertices, h);
  decided = λ u lt' is.
      let (a, b, ne, p, q) =
        w.decided u (omega (arith, lt', vertex_count-add_vertex v c))
          (sym (ap is_decision_statement (add_vertex-statement v u c)) ∙ is) in
      let same = add_vertex-out_edges v u c in
      (a, b, ne, ap (contains a) same ∙ p, ap (contains b) same ∙ q);
}

-- AddVertex of a vertex that is not in the graph.
pub add_vertex_new :
    (v : ℕ) (c : Cfg)
    → contains v c.graph.vertices ≡ false
    → ((add_vertex v c).1 ≡ true)
      × ((w : ℕ)
          → contains w (add_vertex v c).0.graph.vertices
            ≡ ((v == w) || contains w c.graph.vertices))
unfolding add_vertex
add_vertex_new v c new = rw new (refl, λ w. refl)

-- Between two rounds: the statements left are new to the graph, and none of them or of those that wait is a
-- switch.
pub record Placed (p : Progress) (rest : List ℕ) : Type 0 where
  pub whole : IsWhole p.cfg
  pub waits :
      All
        (λ (v : ℕ). is_simple (p.cfg.heap.vertex v).statement ≡ true)
        p.list_of_unlinked_flow_control_statements
  pub distinct : IsDistinct rest
  pub fresh :
      (v : ℕ)
      → contains v rest ≡ true
      → (contains v p.cfg.graph.vertices ≡ false)
        × (is_switch (p.cfg.heap.vertex v).statement ≡ false)

place_statement-Grows :
    (sbp : ℕ) (p : Progress)
    → Grows p.cfg (place_statement sbp p).cfg
      × ((place_statement sbp p).cfg.heap.next_vertex ≡ p.cfg.heap.next_vertex)
      × ((w : ℕ)
          → ((place_statement sbp p).cfg.heap.vertex w).statement ≡ (p.cfg.heap.vertex w).statement)
unfolding place_statement
place_statement-Grows sbp p =
    if_keeps
      (λ (d : Cfg).
        Grows p.cfg d
        × (d.heap.next_vertex ≡ p.cfg.heap.next_vertex)
        × ((w : ℕ) → (d.heap.vertex w).statement ≡ (p.cfg.heap.vertex w).statement))
      p.prev_vertex_ended_basic_block p.cfg (add_new_edge p.prev_vertex sbp fallthrough p.cfg)
      (Grows-refl p.cfg, refl, λ w. refl)
      (
        Grows-add_new_edge p.prev_vertex sbp fallthrough p.cfg,
        vertex_count-add_new_edge p.prev_vertex sbp fallthrough p.cfg,
        λ w. add_new_edge-statement p.prev_vertex sbp w fallthrough p.cfg,
      )

-- Every statement stays.
abbrev Same : Progress → Progress → Type 0
Same p q = (w : ℕ) → (q.cfg.heap.vertex w).statement ≡ (p.cfg.heap.vertex w).statement

abbrev Simple : Cfg → List ℕ → Type 0
Simple c vs = All (λ (v : ℕ). is_simple (c.heap.vertex v).statement ≡ true) vs

place_statement-waits :
    (sbp : ℕ) (p : Progress)
    → is_switch (p.cfg.heap.vertex sbp).statement ≡ false
    → Simple p.cfg p.list_of_unlinked_flow_control_statements
    → Simple p.cfg (place_statement sbp p).list_of_unlinked_flow_control_statements
unfolding place_statement
place_statement-waits sbp p no_switch waits =
    if_splits (Simple p.cfg) (is_flow_control_unlinked (p.cfg.heap.vertex sbp).statement) _ _
      (λ unlinked.
        All-concat (λ (v : ℕ). is_simple (p.cfg.heap.vertex v).statement ≡ true)
          p.list_of_unlinked_flow_control_statements sbp waits
          (ground (arith, unlinked, no_switch)))
      (λ other. waits)

-- A round returns.
add_statement_total :
    (f n sbp : ℕ) (rest : List ℕ) (p : Progress)
    → IsSound n p
    → sbp < n
    → Placed p (sbp ∷ rest)
    → (p' : Progress) × (add_statement f sbp p ≡ some p')
      × IsSound n p'
      × Placed p' rest
      × Same p p'
unfolding add_statement
add_statement_total f n sbp rest p sound lt placed =
    let c = set_owning_function f sbp p.cfg in
    let (new, no_switch) = placed.fresh sbp (ground arith) in
    let owned =
      IsWhole-Grows p.cfg c (Grows-owned f sbp p.cfg) refl (owned-IsLinked f sbp p.cfg sound.linked)
        placed.whole in
    let (done, members) = add_vertex_new sbp c new in
    let d = (add_vertex sbp c).0 in
    let q : Progress = record p { cfg = d } in
    let p' = place_statement sbp q in
    let returns : add_statement f sbp p ≡ some p' = rw (add_statement, done) refl in
    let sound' = add_statement-IsSound f n sbp p p' sound lt returns in
    let (g, same, kept) = place_statement-Grows sbp q in
    let statements : (w : ℕ) → (d.heap.vertex w).statement ≡ (p.cfg.heap.vertex w).statement =
      λ w. add_vertex-statement sbp w c ∙ owned-statement f sbp w p.cfg in
    let all = λ (w : ℕ). kept w ∙ statements w in
    (
      p',
      returns,
      sound',
      record {
        whole =
            IsWhole-Grows d p'.cfg g same sound'.linked
              (IsWhole-add_vertex sbp c (omega (arith, lt, sound.count)) owned);
        waits =
            All-map _ _ p'.list_of_unlinked_flow_control_statements
              (λ w simple. ap is_simple (kept w) ∙ simple)
              (place_statement-waits sbp q (ap is_switch (statements sbp) ∙ no_switch) (
                All-map _ _ p.list_of_unlinked_flow_control_statements
                  (λ w simple. ap is_simple (statements w) ∙ simple) placed.waits));
        distinct = placed.distinct.1;
        fresh = λ v mem.
            let (absent, no_switch') = placed.fresh v (ground (arith, mem)) in
            (
              ap (contains v) g.members
                  ∙ members v
                  ∙ ground (arith, absent, placed.distinct.0, mem),
              ap is_switch (all v) ∙ no_switch',
            );
      },
      all,
    )

-- The loop over the statements returns.
pub add_statements_total :
    (f n : ℕ) (statement_list : List ℕ) (p : Progress)
    → IsSound n p
    → Below n statement_list
    → Placed p statement_list
    → (p' : Progress) × (add_statements f statement_list p ≡ some p')
      × IsSound n p'
      × Placed p' []
      × Same p p'
unfolding add_statements
add_statements_total f n [] p sound below placed = (p, refl, sound, placed, λ w. refl)
add_statements_total f n (sbp ∷ rest) p sound below placed =
    let (q, step, sound₁, placed₁, same₁) =
      add_statement_total f n sbp rest p sound below.0 placed in
    let (p', others, sound₂, placed₂, same₂) =
      add_statements_total f n rest q sound₁ below.1 placed₁ in
    (p', rw (add_statements, step) others, sound₂, placed₂, λ w. same₂ w ∙ same₁ w)

pub Grows-close_last_block :
    (exit_vertex : ℕ) (p : Progress) → Grows p.cfg (close_last_block exit_vertex p)
unfolding close_last_block
Grows-close_last_block exit_vertex p =
    if_keeps (Grows p.cfg) p.prev_vertex_ended_basic_block p.cfg
      (add_new_edge p.prev_vertex exit_vertex fallthrough p.cfg) (Grows-refl p.cfg)
      (Grows-add_new_edge p.prev_vertex exit_vertex fallthrough p.cfg)

pub IsWhole-close_last_block :
    (n exit_vertex : ℕ) (p : Progress)
    → IsSound n p
    → exit_vertex < n
    → IsWhole p.cfg
    → IsWhole (close_last_block exit_vertex p)
IsWhole-close_last_block n exit_vertex p sound lt w =
    let (links, same) = close_last_block-IsLinked n exit_vertex p sound lt in
    IsWhole-Grows p.cfg (close_last_block exit_vertex p) (Grows-close_last_block exit_vertex p)
      (omega (arith, same, sound.count)) links w

pub Grows-add_impossible_edges :
    (leaders : List BasicBlockLeaderInfo) (c : Cfg)
    → Grows c (add_impossible_edges leaders c)
      × ((add_impossible_edges leaders c).heap.next_vertex ≡ c.heap.next_vertex)
unfolding add_impossible_edges
Grows-add_impossible_edges [] c = (Grows-refl c, refl)
Grows-add_impossible_edges (p ∷ rest) c =
    let d = add_new_edge p.immediate_predecessor p.leader impossible c in
    if_keeps
      (λ (k : Cfg).
        Grows c (add_impossible_edges rest k)
        × ((add_impossible_edges rest k).heap.next_vertex ≡ c.heap.next_vertex))
      (in_degree c.heap p.leader == 0) d c
      (let (g, same) = Grows-add_impossible_edges rest d in
        (
          Grows-trans c d (add_impossible_edges rest d)
              (Grows-add_new_edge p.immediate_predecessor p.leader impossible c) g,
          same ∙ vertex_count-add_new_edge p.immediate_predecessor p.leader impossible c,
        ))
      (Grows-add_impossible_edges rest c)
