-- ===== src/Build/Redundant/Decided.antt =====
-- The decision statements under RemoveRedundantNodes: src/controlflowgraph/algorithms/cfg_algs.cpp.
use coflo.Prelude.{
  ℕ, ◌≡◌, ◌≢◌, refl, ap, sym, subst, ◌∙◌, inl, inr, true, false, List, [], ◌∷◌, Option, none, some,
  arith, contains, Bool-cases, Option-cases, ◌==◌, ◌&&◌, eq_of_some,
}
use coflo.Statement.{Statement, is_decision_statement, if_statement, switch}
use coflo.Graph.{Vertex, Cfg, change_target, in_degree, out_degree}
use coflo.Graph.Links.{IsLinked}
use coflo.Graph.Ends.{change_target_ends}
use coflo.Graph.Spares.{Spares, Spares-change_target, Spares-remove_edge, Spares-trans}
use coflo.Topological.Order.{target_is}
use coflo.Build.Grows.{Decided}
use coflo.Build.Redundant.{
  is_candidate, Pruned, bypass, schedule, bypass_first, prune_vertex, prune_vertices,
  remove_scheduled, remove_redundant_nodes,
}
use coflo.Build.Redundant.Links.{IsPruned, prune_vertex-IsPruned, remove_scheduled_heap}

-- The statements of `o` stay, and each decision statement has two out edges.
abbrev pub Kept : Cfg → Cfg → Type 0
Kept o d = Decided d × ((w : ℕ) → (d.heap.vertex w).statement ≡ (o.heap.vertex w).statement)

Decided-Spares :
    (v : ℕ) (c d : Cfg)
    → is_decision_statement (c.heap.vertex v).statement ≡ false
    → Spares v c d
    → Decided c
    → Decided d
Decided-Spares v c d plain s all w lt is =
    let before : is_decision_statement (c.heap.vertex w).statement ≡ true =
      sym (ap is_decision_statement (s.statements w)) ∙ is in
    let other : w ≢ v = λ q. cc (before, plain, q) in
    let (a, b, ne, p, q) = all w (omega (arith, lt, s.count)) before in
    let same = s.edges w other in (a, b, ne, ap (contains a) same ∙ p, ap (contains b) same ∙ q)

candidate_undecided : (s : Statement) → is_candidate s ≡ true → is_decision_statement s ≡ false
candidate_undecided (if_statement q) p = cc
candidate_undecided switch p = cc
candidate_undecided _ p = refl

Spares-bypass :
    (v i o : ℕ) (c d : Cfg)
    → IsLinked c.heap
    → contains o (c.heap.vertex v).out_edges ≡ true
    → bypass i o c ≡ some d
    → Spares v c d
unfolding bypass
Spares-bypass v i o c d linked mem is = elim (Option-cases (c.heap.edge o).target) [
  | inl null ↦ cc (rw (bypass, null) at is)
  | inr (t, to) ↦
      let m : Cfg = record c { heap = change_target i t c.heap } in
      let from = target_is (c.heap.edge o).source v (sym (linked.out_links o v) ∙ mem) in
      Spares-trans v c m d (Spares-change_target v i t c) (
        Spares-remove_edge v o m d ((change_target_ends i t c.heap).0 o ∙ from)
          (rw (bypass, to) at is))
]

Kept-Spares :
    (o : Cfg) (v : ℕ) (c d : Cfg)
    → is_decision_statement (c.heap.vertex v).statement ≡ false
    → Spares v c d
    → Kept o c
    → Kept o d
Kept-Spares o v c d plain s (all, same) =
    (Decided-Spares v c d plain s all, λ w. s.statements w ∙ same w)

Kept-schedule :
    (c₀ : Cfg) (v : ℕ) (scheduled : List ℕ) (c : Option Cfg) (p : Pruned)
    → schedule v scheduled c ≡ some p
    → ((d : Cfg) → c ≡ some d → Kept c₀ d)
    → Kept c₀ p.cfg
unfolding schedule
Kept-schedule c₀ v scheduled none p is all = cc
Kept-schedule c₀ v scheduled (some d) p is all =
    subst (λ (q : Pruned). Kept c₀ q.cfg) (eq_of_some is) (all d refl)

Kept-bypass_first :
    (c₀ : Cfg) (v : ℕ) (ins outs : List ℕ) (p q : Pruned)
    → IsLinked p.cfg.heap
    → is_decision_statement (p.cfg.heap.vertex v).statement ≡ false
    → (p.cfg.heap.vertex v).out_edges ≡ outs
    → bypass_first v ins outs p ≡ some q
    → Kept c₀ p.cfg
    → Kept c₀ q.cfg
unfolding bypass_first
Kept-bypass_first c₀ v [] outs p q linked plain same is all =
    subst (λ (q : Pruned). Kept c₀ q.cfg) (eq_of_some is) all
Kept-bypass_first c₀ v (i ∷ ins) [] p q linked plain same is all =
    subst (λ (q : Pruned). Kept c₀ q.cfg) (eq_of_some is) all
Kept-bypass_first c₀ v (i ∷ ins) (o ∷ outs) p q linked plain same is all =
    Kept-schedule c₀ v p.vertices_to_remove (bypass i o p.cfg) q is (λ d done.
      Kept-Spares c₀ v p.cfg d plain
        (Spares-bypass v i o p.cfg d linked (ap (contains o) same ∙ ground arith) done) all)

Kept-prune_vertex :
    (c₀ : Cfg) (v : ℕ) (p q : Pruned)
    → IsLinked p.cfg.heap
    → prune_vertex v p ≡ some q
    → Kept c₀ p.cfg
    → Kept c₀ q.cfg
unfolding prune_vertex
Kept-prune_vertex c₀ v p q linked is all =
    let x = p.cfg.heap.vertex v in
    elim (Bool-cases (
      is_candidate x.statement
      && (in_degree p.cfg.heap v == 1)
      && (out_degree p.cfg.heap v == 1))) [
        | inl redundant ↦
            Kept-bypass_first c₀ v x.in_edges x.out_edges p q linked
              (candidate_undecided x.statement (ground (arith, redundant))) refl
              (rw (prune_vertex, redundant) at is) all
        | inr kept ↦
            subst (λ (q : Pruned). Kept c₀ q.cfg) (eq_of_some (rw (prune_vertex, kept) at is)) all
      ]

Kept-prune_vertices :
    (c₀ : Cfg) (n : ℕ) (vs ws : List ℕ) (p q : Pruned)
    → IsPruned n vs p
    → prune_vertices ws p ≡ some q
    → Kept c₀ p.cfg
    → Kept c₀ q.cfg
unfolding prune_vertices
Kept-prune_vertices c₀ n vs [] p q inv is all =
    subst (λ (q : Pruned). Kept c₀ q.cfg) (eq_of_some is) all
Kept-prune_vertices c₀ n vs (w ∷ ws) p q inv is all =
    let (p₁, step, inv₁) = prune_vertex-IsPruned n vs w p inv in
    Kept-prune_vertices c₀ n vs ws p₁ q inv₁ (rw (prune_vertices, step) at is)
      (Kept-prune_vertex c₀ w p p₁ inv.holds.0 step all)

-- RemoveRedundantNodes leaves the statements as they are, and the decision statements their two out edges.
pub remove_redundant_nodes-Kept :
    (c d : Cfg) → IsLinked c.heap → remove_redundant_nodes c ≡ some d → Decided c → Kept c d
unfolding remove_redundant_nodes
remove_redundant_nodes-Kept c d linked is all =
    let p₀ : Pruned = record { cfg = c; vertices_to_remove = [] } in
    let inv₀ : IsPruned c.heap.next_vertex c.graph.vertices p₀ = record {
      holds = (linked, omega arith);
      members = refl;
      bare = tt;
    } in
    elim (Option-cases (prune_vertices c.graph.vertices p₀)) [
      | inl null ↦ cc (rw (remove_redundant_nodes, null) at is)
      | inr (p, pruned) ↦
          let (a, b, n, m) = remove_scheduled_heap p.vertices_to_remove p.cfg in
          let k = remove_scheduled p.vertices_to_remove p.cfg in
          let kept =
            Kept-prune_vertices c c.heap.next_vertex c.graph.vertices c.graph.vertices p₀ p inv₀
              pruned (all, λ w. refl) in
          subst (Kept c) (eq_of_some (rw (remove_redundant_nodes, pruned) at is)) (
            (λ w lt is.
                let (x, y, ne, p₁, p₂) =
                  kept.0 w (omega (arith, lt, n))
                    (sym (ap (λ (f : ℕ → Vertex). is_decision_statement (f w).statement) a) ∙ is) in
                (
                  x,
                  y,
                  ne,
                  ap (λ (f : ℕ → Vertex). contains x (f w).out_edges) a ∙ p₁,
                  ap (λ (f : ℕ → Vertex). contains y (f w).out_edges) a ∙ p₂,
                )),
            λ w. ap (λ (f : ℕ → Vertex). (f w).statement) a ∙ kept.1 w,
          )
    ]
