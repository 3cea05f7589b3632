-- ===== src/Build/Create.antt =====
-- Function::CreateControlFlowGraph up to the back edge fixup, Function::AddImpossibleEdges and
-- Function::CheckForNoInEdges: src/Function.cpp.
pub mod Links
pub mod Leaders
pub mod Total
pub mod Placed
use coflo.Prelude.{
  ℕ, String, Bool, true, false, List, [], ◌∷◌, ◌++◌, Option, none, some, if◌then◌else◌, ◌==◌, ◌||◌,
}
use coflo.Statement.{
  Statement, Location, EdgeType, fallthrough, impossible, entry, exit, label,
  is_flow_control_unlinked,
}
use coflo.Graph.{
  Vertex, Heap, Cfg, with_vertex, new_vertex, add_new_edge, add_vertex, replace_vertex, in_degree,
}
use coflo.Build.Resolve.{LabelMap, set_label, resolve_links}

pub record BasicBlockLeaderInfo : Type 0 where
  pub leader : ℕ
  pub immediate_predecessor : ℕ

-- The local variables of the loop over the statements.
pub record Progress : Type 0 where
  pub cfg : Cfg
  pub label_map : LabelMap
  pub prev_vertex : ℕ
  pub prev_vertex_ended_basic_block : Bool
  pub list_of_leader_info : List BasicBlockLeaderInfo
  pub list_of_statements_with_no_in_edge_yet : List ℕ
  pub list_of_unlinked_flow_control_statements : List ℕ

abbrev pub set_owning_function : ℕ → ℕ → Cfg → Cfg
set_owning_function f v c = record c {
  heap = with_vertex v (record (c.heap.vertex v) { owning_function = some f }) c.heap;
}

abbrev pub note_label : Statement → ℕ → LabelMap → LabelMap
note_label (label i) vid m = set_label i vid m
note_label _ vid m = m

-- The body of the loop behind AddVertex: the label, the edge into the statement or the note that it
-- leads a basic block, and whether it ends its block.
pub place_statement : ℕ → Progress → Progress
unfolding add_new_edge
place_statement vid p =
    let s = (p.cfg.heap.vertex vid).statement in
    let ended = p.prev_vertex_ended_basic_block in
    record {
      cfg = if ended then p.cfg else add_new_edge p.prev_vertex vid fallthrough p.cfg;
      label_map = note_label s vid p.label_map;
      prev_vertex = vid;
      prev_vertex_ended_basic_block = is_flow_control_unlinked s;
      list_of_leader_info =
          if ended
          then (p.list_of_leader_info
              ++ record { leader = vid; immediate_predecessor = p.prev_vertex } ∷ [])
          else p.list_of_leader_info;
      list_of_statements_with_no_in_edge_yet =
          if ended
          then (p.list_of_statements_with_no_in_edge_yet ++ vid ∷ [])
          else p.list_of_statements_with_no_in_edge_yet;
      list_of_unlinked_flow_control_statements =
          if is_flow_control_unlinked s
          then (p.list_of_unlinked_flow_control_statements ++ vid ∷ [])
          else p.list_of_unlinked_flow_control_statements;
    }

-- `none` is the exception of AddVertex.
pub add_statement : ℕ → ℕ → Progress → Option Progress
unfolding add_vertex place_statement
add_statement f sbp p =
    let (c, done) = add_vertex sbp (set_owning_function f sbp p.cfg) in
    if done then some (place_statement sbp (record p { cfg = c })) else none

unfoldable pub add_statements : ℕ → List ℕ → Progress → Option Progress
unfolding add_statement
add_statements f [] p = some p
add_statements f (sbp ∷ rest) p = elim (add_statement f sbp p) [
  | none ↦ none
  | some p' ↦ add_statements f rest p'
]

-- The fallthrough into the EXIT vertex.
unfoldable pub close_last_block : ℕ → Progress → Cfg
unfolding add_new_edge
close_last_block exit_vertex p =
    if p.prev_vertex_ended_basic_block
    then p.cfg
    else add_new_edge p.prev_vertex exit_vertex fallthrough p.cfg

-- The body of the linking loop: ResolveLinks, then ReplaceVertex by its result.
pub link_statement : ℕ → LabelMap → Cfg → Option Cfg
unfolding resolve_links replace_vertex
link_statement vd m c =
    let (c', result) = resolve_links vd m c in
    elim result [
      | none ↦ some c'
      | some new ↦ let (c'', done) = replace_vertex vd new c' in if done then some c'' else none
    ]

unfoldable pub link_statements : List ℕ → LabelMap → Cfg → Option Cfg
unfolding link_statement
link_statements [] m c = some c
link_statements (vd ∷ rest) m c = elim (link_statement vd m c) [
  | none ↦ none
  | some c' ↦ link_statements rest m c'
]

unfoldable pub add_impossible_edges : List BasicBlockLeaderInfo → Cfg → Cfg
unfolding in_degree add_new_edge
add_impossible_edges [] c = c
add_impossible_edges (p ∷ rest) c = add_impossible_edges rest (
    if in_degree c.heap p.leader == 0
    then add_new_edge p.immediate_predecessor p.leader impossible c
    else c)

-- The statements with no in edge, and whether there is one.
unfoldable pub check_for_no_in_edges : List ℕ → Heap → List ℕ × Bool
unfolding in_degree
check_for_no_in_edges [] h = ([], false)
check_for_no_in_edges (vd ∷ rest) h =
    let (output, retval) = check_for_no_in_edges rest h in
    (if in_degree h vd == 0 then vd ∷ output else output, (in_degree h vd == 0) || retval)
