-- ===== src/Build/Whole/Start.antt =====
-- The graph that CreateControlFlowGraph begins with: src/Function.cpp.
use coflo.Prelude.{
  ℕ, suc, ◌+◌, ◌≤◌, ◌<◌, ◌≡◌, refl, ap, sym, subst, ◌∙◌, inl, inr, Bool, true, false, List, [], ◌∷◌,
  some, arith, contains, Bool-cases, ◌==◌, All,
}
use coflo.Statement.{Statement, Location, entry, exit, impossible, is_decision_statement}
use coflo.Graph.{Cfg, new_vertex, add_vertex}
use coflo.Graph.Counts.{new_vertex-IsLinked, vertex_count-add_vertex}
use coflo.Visit.Reach.{IsDistinct}
use coflo.Build.Grows.{Grows, Grows-trans, Grows-new_vertex, Grows-add_new_edge, Two-Grows}
use coflo.Build.Resolve.Grows.{is_switch}
use coflo.Build.Resolve.{set_label}
use coflo.Build.Create.{Progress, set_owning_function}
use coflo.Build.Create.Links.{Below, owned-IsLinked}
use coflo.Build.Create.Total.{IsWhole}
use coflo.Build.Create.Placed.{
  Placed, IsWhole-Grows, Grows-owned, IsWhole-add_vertex, add_vertex_new, add_vertex-statement,
}
use coflo.Build.Whole.{require_added, allocate_ends, start, add_self_edge}
use coflo.Build.Whole.Links.{add_self_edge_lem}

pub All-both {ℓ κ μ} :
    {A : Type ℓ} (P : A → Type κ) (Q : A → Type μ) (xs : List A)
    → All P xs
    → All Q xs
    → All (λ x. P x × Q x) xs
All-both P Q [] p q = tt
All-both P Q (x ∷ xs) p q = ((p.0, q.0), All-both P Q xs p.1 q.1)

require_added-done : (r : Cfg × Bool) → r.1 ≡ true → require_added r ≡ some r.0
require_added-done (c, true) p = refl
require_added-done (c, false) p = cc

pub IsWhole-new_vertex :
    (s : Statement) (l : Location) (c : Cfg)
    → is_decision_statement s ≡ false
    → IsWhole c
    → IsWhole (record c { heap = (new_vertex s l c.heap).1 })
unfolding new_vertex
IsWhole-new_vertex s l c plain w =
    let d : Cfg = record c { heap = (new_vertex s l c.heap).1 } in
    let g = Grows-new_vertex s l c in
    record {
      links = (new_vertex-IsLinked s l c.heap w.links).0;
      inside = λ v h. omega (arith, w.inside v h);
      decided = λ v lt is. elim (Bool-cases (v == c.heap.next_vertex)) [
        | inl new ↦ absurd (ground (arith, new, is, plain))
        | inr old ↦
            let below : v < c.heap.next_vertex = ground (arith, old, lt) in
            Two-Grows c d v below g
              (w.decided v below (sym (ap is_decision_statement (g.statements v below)) ∙ is))
      ];
    }

pub IsWhole-owned : (f v : ℕ) (c : Cfg) → IsWhole c → IsWhole (set_owning_function f v c)
IsWhole-owned f v c w =
    IsWhole-Grows c (set_owning_function f v c) (Grows-owned f v c) refl
      (owned-IsLinked f v c w.links) w

allocate_ends-IsWhole :
    (f : ℕ) (l : Location) (c : Cfg)
    → IsWhole c
    → IsWhole (allocate_ends f l c)
      × Grows c (allocate_ends f l c)
      × ((allocate_ends f l c).heap.next_vertex ≡ suc (suc c.heap.next_vertex))
unfolding allocate_ends
allocate_ends-IsWhole f l c w =
    let c₁ : Cfg = record c { heap = (new_vertex entry l c.heap).1 } in
    let c₂ : Cfg = record c { heap = (new_vertex exit l c₁.heap).1 } in
    let c₃ = set_owning_function f (new_vertex entry l c.heap).0 c₂ in
    let v = (new_vertex exit l c₁.heap).0 in
    let w₁ = IsWhole-new_vertex entry l c refl w in
    let w₂ = IsWhole-new_vertex exit l c₁ refl w₁ in
    let w₃ = IsWhole-owned f (new_vertex entry l c.heap).0 c₂ w₂ in
    (
      IsWhole-owned f v c₃ w₃,
      Grows-trans c c₁ _ (Grows-new_vertex entry l c) (
          Grows-trans c₁ c₂ _ (Grows-new_vertex exit l c₁) (
            Grows-trans c₂ c₃ _ (Grows-owned f (new_vertex entry l c.heap).0 c₂)
              (Grows-owned f v c₃))),
      omega arith,
    )

-- The statements of a function: allocated, none twice or in the graph, and none a switch.
pub record IsList (statement_list : List ℕ) (c : Cfg) : Type 0 where
  pub below : Below c.heap.next_vertex statement_list
  pub distinct : IsDistinct statement_list
  pub fresh :
      (v : ℕ)
      → contains v statement_list ≡ true
      → (v < c.heap.next_vertex)
        × (contains v c.graph.vertices ≡ false)
        × (is_switch (c.heap.vertex v).statement ≡ false)

not_inside :
    (v : ℕ) (c : Cfg) → IsWhole c → c.heap.next_vertex ≤ v → contains v c.graph.vertices ≡ false
not_inside v c w le = elim (Bool-cases (contains v c.graph.vertices)) [
  | inl old ↦ absurd (omega (arith, w.inside v old, le))
  | inr new ↦ new
]

-- The statements that there were stay.
abbrev pub Keeps : Cfg → Cfg → Type 0
Keeps c d =
    (v : ℕ) → v < c.heap.next_vertex → (d.heap.vertex v).statement ≡ (c.heap.vertex v).statement

-- The graph with ENTRY and EXIT, ready for the loop over the statements.
pub start_total :
    (f : ℕ) (l : Location) (c : Cfg) (statement_list : List ℕ)
    → IsWhole c
    → IsList statement_list c
    → (p : Progress) × (start f l c ≡ some p) × Placed p statement_list × Keeps c p.cfg
unfolding start
start_total f l c statement_list w list =
    let entry_ptr = c.heap.next_vertex in
    let exit_ptr = entry_ptr + 1 in
    let a = allocate_ends f l c in
    let (w₀, g, count) = allocate_ends-IsWhole f l c w in
    let outside : (v : ℕ) → entry_ptr ≤ v → contains v a.graph.vertices ≡ false =
      λ v le. ap (contains v) g.members ∙ not_inside v c w le in
    let (done₁, members₁) = add_vertex_new entry_ptr a (outside entry_ptr (omega arith)) in
    let c₁ = (add_vertex entry_ptr a).0 in
    let w₁ = IsWhole-add_vertex entry_ptr a (omega (arith, count)) w₀ in
    let (done₂, members₂) =
      add_vertex_new exit_ptr c₁
        (members₁ exit_ptr ∙ ground (arith, outside exit_ptr (omega arith))) in
    let c₂ = (add_vertex exit_ptr c₁).0 in
    let w₂ =
      IsWhole-add_vertex exit_ptr c₁ (omega (arith, count, vertex_count-add_vertex entry_ptr a))
        w₁ in
    let kept : Keeps c c₂ = λ v lt.
      add_vertex-statement exit_ptr v c₁ ∙ add_vertex-statement entry_ptr v a ∙ g.statements v lt in
    let p : Progress = record {
      cfg = c₂;
      label_map = set_label "EXIT" exit_ptr [];
      prev_vertex = entry_ptr;
      prev_vertex_ended_basic_block = false;
      list_of_leader_info = [];
      list_of_statements_with_no_in_edge_yet = [];
      list_of_unlinked_flow_control_statements = [];
    } in
    (
      p,
      rw
          (
            start,
            require_added-done (add_vertex entry_ptr a) done₁,
            require_added-done (add_vertex exit_ptr c₁) done₂,
          )
          refl,
      record {
        whole = w₂;
        waits = tt;
        distinct = list.distinct;
        fresh = λ v mem.
            let (lt, absent, no_switch) = list.fresh v mem in
            (
              members₂ v ∙ ground (arith, lt, members₁ v, ap (contains v) g.members, absent),
              ap is_switch (kept v lt) ∙ no_switch,
            );
      },
      kept,
    )

pub add_self_edge-Keeps : (v : ℕ) (c : Cfg) → Keeps c (add_self_edge v c).0
add_self_edge-Keeps v c =
    subst (Keeps c) (sym (add_self_edge_lem v c)) (Grows-add_new_edge v v impossible c).statements
