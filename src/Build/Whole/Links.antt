-- ===== src/Build/Whole/Links.antt =====
-- The links, and the check for unreachable code, over the whole of CreateControlFlowGraph.
use coflo.Prelude.{
  ◌>>=◌, ℕ, ◌+◌, ◌<◌, ◌≡◌, refl, ap, ◌∙◌, Bool, true, false, List, [], Option, none, some, arith,
  eq_of_some, subst, sym,
}
use coflo.Statement.{Location, entry, exit, impossible}
use coflo.Graph.{Heap, Cfg, new_vertex, add_vertex, add_new_edge}
use coflo.Graph.Links.{IsLinked, add_new_edge-IsLinked}
use coflo.Graph.Counts.{
  add_vertex-IsLinked, new_vertex-IsLinked, vertex_count-add_vertex, vertex_count-add_new_edge,
}
use coflo.Build.Resolve.Links.{set_label-Labels}
use coflo.Build.Create.{
  Progress, set_owning_function, add_statements, close_last_block, link_statements,
  add_impossible_edges, check_for_no_in_edges,
}
use coflo.Build.Create.Links.{
  Below, IsSound, Holds, owned-IsLinked, add_statements-IsSound, close_last_block-IsLinked,
  link_statements-Holds, add_impossible_edges-Holds,
}
use coflo.Build.Create.Leaders.{Watched, add_statements-Watched, check-add_impossible_edges}
use coflo.Build.BackEdges.{DfsEvent, fixup_back_edges}
use coflo.Build.BackEdges.Links.{fixup_back_edges-Holds}
use coflo.Build.Redundant.{remove_redundant_nodes}
use coflo.Build.Redundant.Links.{remove_redundant_nodes_correct}
use coflo.Build.Whole.{
  Built, require_added, allocate_ends, start, add_self_edge, create_control_flow_graph,
}

bind-some {ℓ κ} :
    {A : Type ℓ} {B : Type κ} (m : Option A) (f : A → Option B) {b : B}
    → (m >>= f) ≡ some b
    → (a : A) × (m ≡ some a) × (f a ≡ some b)
bind-some none f e = cc
bind-some (some a) f e = (a, refl, e)

require_added-some : (r : Cfg × Bool) (d : Cfg) → require_added r ≡ some d → r.0 ≡ d
require_added-some (c, true) d e = eq_of_some e
require_added-some (c, false) d e = cc

pub add_self_edge_lem : (v : ℕ) (c : Cfg) → (add_self_edge v c).0 ≡ add_new_edge v v impossible c
unfolding add_new_edge
add_self_edge_lem v c = refl

pub add_self_edge-Holds : (n v : ℕ) (c : Cfg) → Holds n c → v < n → Holds n (add_self_edge v c).0
add_self_edge-Holds n v c holds h = subst (Holds n) (sym (add_self_edge_lem v c)) (
  add_new_edge-IsLinked c holds.0 v v impossible (omega arith) (omega arith),
  omega (arith, vertex_count-add_new_edge v v impossible c),
)

allocate_ends-IsLinked :
    (f : ℕ) (l : Location) (c : Cfg)
    → IsLinked c.heap
    → IsLinked (allocate_ends f l c).heap
      × ((allocate_ends f l c).heap.next_vertex ≡ c.heap.next_vertex + 2)
unfolding allocate_ends
allocate_ends-IsLinked f l c linked =
    let one = new_vertex-IsLinked entry l c.heap linked in
    let h₁ = (new_vertex entry l c.heap).1 in
    let two = new_vertex-IsLinked exit l h₁ one.0 in
    let h₂ = (new_vertex exit l h₁).1 in
    (
      owned-IsLinked f (new_vertex exit l h₁).0
          (set_owning_function f (new_vertex entry l c.heap).0 (record c { heap = h₂ }))
          (owned-IsLinked f (new_vertex entry l c.heap).0 (record c { heap = h₂ }) two.0),
      omega (arith, one.3, two.3),
    )

pub start-IsSound :
    (f : ℕ) (l : Location) (c : Cfg) (p : Progress)
    → IsLinked c.heap
    → start f l c ≡ some p
    → IsSound (c.heap.next_vertex + 2) p × Watched p
unfolding start
start-IsSound f l c p linked e =
    let c₀ = allocate_ends f l c in
    let (linked₀, n₀) = allocate_ends-IsLinked f l c linked in
    let entry_ptr = c.heap.next_vertex in
    let (c₁, e₁, rest₁) = bind-some (require_added (add_vertex entry_ptr c₀)) _ e in
    let (c₂, e₂, rest₂) = bind-some (require_added (add_vertex (entry_ptr + 1) c₁)) _ rest₁ in
    let q₁ = require_added-some (add_vertex entry_ptr c₀) c₁ e₁ in
    let q₂ = require_added-some (add_vertex (entry_ptr + 1) c₁) c₂ e₂ in
    let linked₁ : IsLinked c₁.heap =
      subst (λ (d : Cfg). IsLinked d.heap) q₁ (add_vertex-IsLinked entry_ptr c₀ linked₀) in
    let linked₂ : IsLinked c₂.heap =
      subst (λ (d : Cfg). IsLinked d.heap) q₂ (add_vertex-IsLinked (entry_ptr + 1) c₁ linked₁) in
    let n₂ : c₂.heap.next_vertex ≡ entry_ptr + 2 = omega (
      arith,
      n₀,
      vertex_count-add_vertex entry_ptr c₀,
      vertex_count-add_vertex (entry_ptr + 1) c₁,
      ap (λ (d : Cfg). d.heap.next_vertex) q₁,
      ap (λ (d : Cfg). d.heap.next_vertex) q₂,
    ) in
    subst (λ q. IsSound (entry_ptr + 2) q × Watched q) (eq_of_some rest₂)
      (
        record {
          linked = linked₂;
          count = n₂;
          prev = omega arith;
          labels = set_label-Labels "EXIT" (entry_ptr + 1) (entry_ptr + 2) [] (omega arith) tt;
          leaders = tt;
          unlinked = tt;
        },
        refl,
      )

-- Whatever the depth-first search reports: on a heap with consistent links, and with statements
-- whose addresses are allocated or those of the ENTRY and EXIT vertices, a run of
-- CreateControlFlowGraph that returns leaves consistent links, and warns of no statement without
-- an in edge.
pub create_control_flow_graph-IsLinked :
    (search : Heap → ℕ → List DfsEvent) (f : ℕ) (l : Location) (statement_list : List ℕ) (c : Cfg)
    (b : Built)
    → IsLinked c.heap
    → Below (c.heap.next_vertex + 2) statement_list
    → create_control_flow_graph search f l statement_list c ≡ some b
    → IsLinked b.cfg.heap × (b.warned ≡ [])
unfolding create_control_flow_graph
create_control_flow_graph-IsLinked search f l statement_list c b linked below e =
    let entry_ptr = c.heap.next_vertex in
    let exit_ptr = entry_ptr + 1 in
    let n = entry_ptr + 2 in
    let (p₀, e₀, rest₀) = bind-some (start f l c) _ e in
    let (sound₀, watched₀) = start-IsSound f l c p₀ linked e₀ in
    let (p, e₁, rest₁) = bind-some (add_statements f statement_list p₀) _ rest₀ in
    let sound = add_statements-IsSound f n statement_list p₀ p sound₀ below e₁ in
    let watched = add_statements-Watched f statement_list p₀ p watched₀ e₁ in
    let (closed, count) = close_last_block-IsLinked n exit_ptr p sound (omega arith) in
    let (d, e₂, rest₂) =
      bind-some
        (link_statements p.list_of_unlinked_flow_control_statements p.label_map
          (close_last_block exit_ptr p))
        _ rest₁ in
    let holds =
      link_statements-Holds p.list_of_unlinked_flow_control_statements n p.label_map
        (close_last_block exit_ptr p) d (closed, omega (arith, count)) sound.unlinked sound.labels
        e₂ in
    let c₁ = add_impossible_edges p.list_of_leader_info d in
    let holds₁ = add_impossible_edges-Holds p.list_of_leader_info n d holds sound.leaders in
    let holds₂ = add_self_edge-Holds n entry_ptr c₁ holds₁ (omega arith) in
    let c₂ = (add_self_edge entry_ptr c₁).0 in
    let holds₃ = add_self_edge-Holds n exit_ptr c₂ holds₂ (omega arith) in
    let c₃ = (add_self_edge exit_ptr c₂).0 in
    let (c₄, e₄, rest₄) = bind-some (fixup_back_edges (search c₃.heap entry_ptr) c₃) _ rest₂ in
    let fixed = fixup_back_edges-Holds (search c₃.heap entry_ptr) c₃ c₄ holds₃.0 e₄ in
    let (c₅, e₅, rest₅) = bind-some (remove_redundant_nodes c₄) _ rest₄ in
    let (d₅, q, holds₅, _, _, _) = remove_redundant_nodes_correct c₄ fixed.0 in
    let same : c₅ ≡ b.cfg = ap (λ (r : Built). r.cfg) (eq_of_some rest₅) in
    let silent =
      ap (λ (w : List ℕ). (check_for_no_in_edges w c₁.heap).0) watched
      ∙ ap (λ (r : List ℕ × Bool). r.0) (check-add_impossible_edges p.list_of_leader_info d) in
    (
      subst (λ (x : Cfg). IsLinked x.heap) (eq_of_some (sym q ∙ e₅) ∙ same) holds₅.0,
      sym (ap (λ (r : Built). r.warned) (eq_of_some rest₅)) ∙ silent,
    )
