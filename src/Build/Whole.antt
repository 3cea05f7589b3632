-- ===== src/Build/Whole.antt =====
-- Function::CreateControlFlowGraph as a whole: src/Function.cpp.
pub mod Links
pub mod Start
pub mod Total
use coflo.Prelude.{
  ℕ, String, Bool, true, false, List, [], ◌∷◌, ◌++◌, ◌+◌, Option, none, some, if◌then◌else◌, ◌>>=◌,
}
use coflo.Statement.{Location, entry, exit, impossible}
use coflo.Graph.{Heap, Graph, Cfg, empty_graph, new_vertex, new_edge, add_vertex, add_edge}
use coflo.Build.Resolve.{set_label}
use coflo.Build.Create.{
  Progress, set_owning_function, add_statements, close_last_block, link_statements,
  add_impossible_edges, check_for_no_in_edges,
}
use coflo.Build.BackEdges.{DfsEvent, fixup_back_edges}
use coflo.Build.Redundant.{remove_redundant_nodes}

-- The members that CreateControlFlowGraph sets, with the heap.
pub record Built : Type 0 where
  pub cfg : Cfg
  pub entry_vertex_desc : ℕ
  pub exit_vertex_desc : ℕ
  pub entry_vertex_self_edge : ℕ
  pub exit_vertex_self_edge : ℕ
  -- the statements of which CheckForNoInEdges warns
  pub warned : List ℕ

abbrev require_added : Cfg × Bool → Option Cfg
require_added (c, true) = some c
require_added (c, false) = none

-- The ENTRY and EXIT vertices at the location `l`, owned by the function; they stand at the next two free addresses.
allocate_ends : ℕ → Location → Cfg → Cfg
unfolding new_vertex
allocate_ends f l c =
    let (entry_ptr, h₁) = new_vertex entry l c.heap in
    let (exit_ptr, h₂) = new_vertex exit l h₁ in
    set_owning_function f exit_ptr (set_owning_function f entry_ptr (record c { heap = h₂ }))

-- They are added to the graph, and EXIT to the label map.
pub start : ℕ → Location → Cfg → Option Progress
unfolding allocate_ends add_vertex set_label
start f l c = do
  let entry_ptr = c.heap.next_vertex
  let exit_ptr = entry_ptr + 1
  c₁ ← require_added (add_vertex entry_ptr (allocate_ends f l c))
  c₂ ← require_added (add_vertex exit_ptr c₁)
  some (record {
    cfg = c₂;
    label_map = set_label "EXIT" exit_ptr [];
    prev_vertex = entry_ptr;
    prev_vertex_ended_basic_block = false;
    list_of_leader_info = [];
    list_of_statements_with_no_in_edge_yet = [];
    list_of_unlinked_flow_control_statements = [];
  })

abbrev pub add_self_edge : ℕ → Cfg → Cfg × ℕ
unfolding new_edge add_edge
add_self_edge v c =
    let (e, h) = new_edge impossible c.heap in (add_edge v v e (record c { heap = h }), e)

-- `none` is an exception or a null dereference on the way. `search` is the call of
-- boost::depth_first_search: from the heap and the ENTRY vertex to the visitor's events; `l` is the location
-- that Location's constructor reads from the definition's path by a regular expression.
unfoldable pub create_control_flow_graph :
    (Heap → ℕ → List DfsEvent) → ℕ → Location → List ℕ → Cfg → Option Built
unfolding start add_statements close_last_block link_statements add_impossible_edges
    check_for_no_in_edges add_self_edge fixup_back_edges remove_redundant_nodes
create_control_flow_graph search f l statement_list c = do
  p₀ ← start f l c
  let entry_ptr = c.heap.next_vertex
  let exit_ptr = entry_ptr + 1
  p ← add_statements f statement_list p₀
  linked ←
      link_statements p.list_of_unlinked_flow_control_statements p.label_map
        (close_last_block exit_ptr p)
  let c₁ = add_impossible_edges p.list_of_leader_info linked
  let (c₂, entry_self_edge) = add_self_edge entry_ptr c₁
  let (c₃, exit_self_edge) = add_self_edge exit_ptr c₂
  c₄ ← fixup_back_edges (search c₃.heap entry_ptr) c₃
  c₅ ← remove_redundant_nodes c₄
  some (record {
    cfg = c₅;
    entry_vertex_desc = entry_ptr;
    exit_vertex_desc = exit_ptr;
    entry_vertex_self_edge = entry_self_edge;
    exit_vertex_self_edge = exit_self_edge;
    warned = (check_for_no_in_edges p.list_of_statements_with_no_in_edge_yet c₁.heap).0;
  })
