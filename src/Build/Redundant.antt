-- ===== src/Build/Redundant.antt =====
-- RemoveRedundantNodes: src/controlflowgraph/algorithms/cfg_algs.cpp.
pub mod Bypass
pub mod Links
pub mod Decided
pub mod Deleted
use Prim.Native.String.{String}
use Prim.Native.String
use Prim.Native.Char.{code}
use coflo.Prelude.{
  ℕ, Bool, true, false, List, [], ◌∷◌, ◌++◌, Option, none, some, if◌then◌else◌, ◌==◌, ◌&&◌, ◌||◌,
}
use coflo.Statement.{Statement, goto, label}
use coflo.Graph.{Heap, Cfg, change_target, remove_edge, remove_vertex, in_degree, out_degree}

-- A label of the compiler's, "<D.1234>". Reading [0] of the empty string gives the terminator.
abbrev pub is_compiler_label : String → Bool
is_compiler_label String.[] = false
is_compiler_label (String.◌∷◌ c s) = code c == b'<'

abbrev pub is_candidate : Statement → Bool
is_candidate goto = true
is_candidate (label i) = is_compiler_label i
is_candidate _ = false

-- The vertices that are scheduled for removal, beside the graph.
pub record Pruned : Type 0 where
  pub cfg : Cfg
  pub vertices_to_remove : List ℕ

-- The vertex is bypassed: its in edge is pointed to the target of its out edge, which is removed.
-- `none` is a null target or source.
pub bypass : ℕ → ℕ → Cfg → Option Cfg
unfolding change_target remove_edge
bypass in_edge out_edge c = elim (c.heap.edge out_edge).target [
  | none ↦ none
  | some t ↦ remove_edge out_edge (record c { heap = change_target in_edge t c.heap })
]

schedule : ℕ → List ℕ → Option Cfg → Option Pruned
unfolding in_degree out_degree
schedule v scheduled none = none
schedule v scheduled (some c) = some (record {
  cfg = c;
  vertices_to_remove =
      if (in_degree c.heap v == 0) && (out_degree c.heap v == 0)
      then (scheduled ++ v ∷ [])
      else scheduled;
})

-- The first of a vertex's in edges and of its out edges.
bypass_first : ℕ → List ℕ → List ℕ → Pruned → Option Pruned
unfolding schedule bypass
bypass_first v [] outs p = some p
bypass_first v (i ∷ ins) [] p = some p
bypass_first v (i ∷ ins) (o ∷ outs) p = schedule v p.vertices_to_remove (bypass i o p.cfg)

pub prune_vertex : ℕ → Pruned → Option Pruned
unfolding in_degree out_degree bypass_first
prune_vertex v p =
    let x = p.cfg.heap.vertex v in
    if is_candidate x.statement && (in_degree p.cfg.heap v == 1) && (out_degree p.cfg.heap v == 1)
    then bypass_first v x.in_edges x.out_edges p
    else some p

pub prune_vertices : List ℕ → Pruned → Option Pruned
unfolding prune_vertex
prune_vertices [] p = some p
prune_vertices (v ∷ vs) p = elim (prune_vertex v p) [ none ↦ none | some p' ↦ prune_vertices vs p' ]

-- `remove_vertex(i, *g); delete i;`
pub remove_scheduled : List ℕ → Cfg → Cfg
unfolding remove_vertex
remove_scheduled [] c = c
remove_scheduled (v ∷ vs) c =
    let c' = remove_vertex v c in
    remove_scheduled vs (record c' { heap = record (c'.heap) { deleted = v ∷ c'.heap.deleted } })

unfoldable pub remove_redundant_nodes : Cfg → Option Cfg
unfolding prune_vertices remove_scheduled
remove_redundant_nodes c =
    elim (prune_vertices c.graph.vertices (record { cfg = c; vertices_to_remove = [] })) [
      | none ↦ none
      | some p ↦ some (remove_scheduled p.vertices_to_remove p.cfg)
    ]
