-- ===== src/Build/BackEdges.antt =====
-- BackEdgeFixupVisitor (src/controlflowgraph/visitors/BackEdgeFixupVisitor.h) and FixupBackEdges
-- (src/controlflowgraph/algorithms/cfg_algs.cpp). The search that drives the visitor,
-- boost::depth_first_search, is not code of this repository: it enters as the list of the calls that
-- it makes of `tree_edge` and `back_edge`.
pub mod Links
pub mod Ascent
pub mod Total
use coflo.Prelude.{
  ℕ, zero, suc, Bool, true, false, List, [], ◌∷◌, ◌++◌, Option, none, some, if◌then◌else◌, ◌==◌,
  length,
}
use coflo.Statement.{impossible, is_decision_statement}
use coflo.Graph.{Edge, Heap, Cfg, with_edge, add_new_edge, out_degree}

-- What the search tells the visitor.
pub data DfsEvent : Type 0 where
  tree_edge back_edge : ℕ → DfsEvent

-- `impossible_target_vertex` is `none` for the null vertex.
pub record BackEdgeFixupInfo : Type 0 where
  pub back_edge : ℕ
  pub impossible_target_vertex : Option ℕ

-- m_predecessor_map: the newest entry of a key counts.
abbrev pub PredecessorMap : Type 0
PredecessorMap = List (ℕ × ℕ)

unfoldable pub predecessor : ℕ → PredecessorMap → Option ℕ
predecessor u [] = none
predecessor u ((v, e) ∷ m) = if v == u then some e else predecessor u m

pub first_other : ℕ → List ℕ → Option ℕ
first_other e [] = none
first_other e (x ∷ xs) = if x == e then first_other e xs else some x

-- `none` where the code goes on to dereference the end of the range.
pub find_different_out_edge : ℕ → Heap → Option ℕ
unfolding first_other
find_different_out_edge e h = elim (h.edge e).source [
  | none ↦ none
  | some u ↦ first_other e (h.vertex u).out_edges
]

-- How the walk up the predecessors ends: with a vertex to point to, with the null vertex, or in a
-- dereference of a null or end pointer.
pub data Walk : Type 0 where
  found : ℕ → Walk
  null_vertex fault out_of_fuel : Walk

leave_by : Option ℕ → Walk
leave_by none = fault
leave_by (some t) = found t

way_out : ℕ → Heap → Walk
unfolding find_different_out_edge leave_by
way_out e h = elim (find_different_out_edge e h) [
  | none ↦ fault
  | some other ↦ leave_by (h.edge other).target
]

-- The do-while loop of FindForwardTargetForBackEdge; one unit of fuel for each round, in
-- which it goes from `u` up to the source of the tree edge into `u`; `v` is the back edge's target.
pub find_forward_target : ℕ → PredecessorMap → Heap → ℕ → ℕ → Walk
unfolding predecessor way_out
find_forward_target zero m h v u = out_of_fuel
find_forward_target (suc fuel) m h v u = elim (predecessor u m) [
  | none ↦ fault
  | some e ↦ elim (h.edge e).source [
    | none ↦ fault
    | some w ↦ elim (is_decision_statement (h.vertex w).statement) [
      | true ↦ way_out e h
      | false ↦ elim (w == v) [ true ↦ null_vertex | false ↦ find_forward_target fuel m h v w ]
    ]
  ]
]

pub record Finder : Type 0 where
  pub back_edges : List BackEdgeFixupInfo
  pub predecessor_map : PredecessorMap

record_back_edge : ℕ → Walk → Finder → Option Finder
record_back_edge e (found t) s = some (record s {
  back_edges = s.back_edges ++ record { back_edge = e; impossible_target_vertex = some t } ∷ [];
})
record_back_edge e null_vertex s = some (record s {
  back_edges = s.back_edges ++ record { back_edge = e; impossible_target_vertex = none } ∷ [];
})
record_back_edge e fault s = none
record_back_edge e out_of_fuel s = none

-- The visitor's `back_edge` at an edge with the given ends. The walk has fuel for every tree edge, and for the root.
visit_back_edge : ℕ → Option ℕ → Option ℕ → Heap → Finder → Option Finder
unfolding record_back_edge find_forward_target
visit_back_edge e none t h s = none
visit_back_edge e (some u) none h s = none
visit_back_edge e (some u) (some v) h s =
    if u == v
    then record_back_edge e null_vertex s
    else record_back_edge e
        (find_forward_target (suc (length s.predecessor_map)) s.predecessor_map h v u) s

visit_tree_edge : ℕ → Option ℕ → Finder → Option Finder
visit_tree_edge e none s = none
visit_tree_edge e (some v) s = some (record s { predecessor_map = (v, e) ∷ s.predecessor_map })

pub visit_event : Heap → DfsEvent → Finder → Option Finder
unfolding visit_tree_edge visit_back_edge
visit_event h (tree_edge e) s = visit_tree_edge e (h.edge e).target s
visit_event h (back_edge e) s = visit_back_edge e (h.edge e).source (h.edge e).target h s

-- `none` where the visitor dereferences a null pointer.
pub find_back_edges : Heap → List DfsEvent → Finder → Option Finder
unfolding visit_event
find_back_edges h [] s = some s
find_back_edges h (ev ∷ evs) s = elim (visit_event h ev s) [
  | none ↦ none
  | some s' ↦ find_back_edges h evs s'
]

pub mark_as_back_edge : ℕ → Heap → Heap
mark_as_back_edge e h = with_edge e (record (h.edge e) { is_back_edge = true }) h

-- The body of the loop over the back edges that were found.
pub fixup_back_edge : BackEdgeFixupInfo → Cfg → Cfg
unfolding mark_as_back_edge out_degree add_new_edge
fixup_back_edge i c =
    let c' = record c { heap = mark_as_back_edge i.back_edge c.heap } in
    elim i.impossible_target_vertex [
      | none ↦ c'
      | some t ↦ elim (c'.heap.edge i.back_edge).source [
        | none ↦ c'
        | some src ↦ if out_degree c'.heap src == 1 then add_new_edge src t impossible c' else c'
      ]
    ]

pub fixup_all : List BackEdgeFixupInfo → Cfg → Cfg
unfolding fixup_back_edge
fixup_all [] c = c
fixup_all (i ∷ rest) c = fixup_all rest (fixup_back_edge i c)

-- `events` is what boost::depth_first_search calls on the graph as it stands.
unfoldable pub fixup_back_edges : List DfsEvent → Cfg → Option Cfg
unfolding find_back_edges fixup_all
fixup_back_edges events c =
    elim (find_back_edges c.heap events (record { back_edges = []; predecessor_map = [] })) [
      | none ↦ none
      | some s ↦ some (fixup_all s.back_edges c)
    ]
