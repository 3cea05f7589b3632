-- ===== src/Link.antt =====
-- Function::Link: src/Function.cpp. The functions' graphs share one heap; a graph is found by the
-- address of its function, so that a recursive call reaches the same graph twice.
pub mod Calls
pub mod Links
pub mod Collect
pub mod Deleted
pub mod Below
use text.Mathlib.Text.{◌==◌ as str_eq}
use coflo.Prelude.{
  ℕ, String, Bool, true, false, List, [], ◌∷◌, ◌++◌, Option, none, some, if◌then◌else◌, update,
}
use coflo.Statement.{
  Statement, EdgeType, function_call_unresolved, function_call_resolved, function_call, return_edge,
  is_fallthrough,
}
use coflo.Graph.{Heap, Graph, Cfg, new_vertex, replace_vertex, add_new_edge}

-- `cfg_of` holds m_the_cfg of each function, `unresolved_function_calls` the entries of the multimap.
pub record Linker : Type 0 where
  pub heap : Heap
  pub cfg_of : ℕ → Graph
  pub unresolved_function_calls : List (String × ℕ)

-- m_entry_vertex_desc and m_exit_vertex_desc of each function, and the function map.
pub record Functions : Type 0 where
  pub function_map : List (String × ℕ)
  pub entry_vertex_desc : ℕ → ℕ
  pub exit_vertex_desc : ℕ → ℕ

unfoldable pub find_function : String → List (String × ℕ) → Option ℕ
find_function k [] = none
find_function k ((j, f) ∷ m) = if str_eq j k then some f else find_function k m

-- A replacement that waits until the loop over the vertices is over: old vertex, new vertex, and the
-- function that the new one calls.
pub record Replacement : Type 0 where
  pub old_vertex : ℕ
  pub new_vertex_desc : ℕ
  pub called_function : ℕ

-- What is done with a call, depending on whether its function is in the map.
collect_call :
    Option ℕ → String → String → ℕ → Linker × List Replacement → Linker × List Replacement
unfolding new_vertex
collect_call none identifier params v (s, info) = (
  record s { unresolved_function_calls = s.unresolved_function_calls ++ (identifier, v) ∷ [] },
  info,
)
collect_call (some f) identifier params v (s, info) =
    let (fcr, h) = new_vertex (function_call_resolved f params) (s.heap.vertex v).location s.heap in
    (
      record s { heap = h },
      info ++ record { old_vertex = v; new_vertex_desc = fcr; called_function = f } ∷ [],
    )

collect_statement :
    Functions → Statement → ℕ → Linker × List Replacement → Linker × List Replacement
unfolding collect_call find_function
collect_statement fs (function_call_unresolved identifier params) v r =
    collect_call (find_function identifier fs.function_map) identifier params v r
collect_statement fs _ v r = r

-- The loop over the vertices of the function.
pub collect : Functions → List ℕ → Linker × List Replacement → Linker × List Replacement
unfolding collect_statement
collect fs [] r = r
collect fs (v ∷ vs) r = collect fs vs (collect_statement fs (r.0.heap.vertex v).statement v r)

abbrev pub cfg_at : ℕ → Linker → Cfg
cfg_at f s = record { heap = s.heap; graph = s.cfg_of f }

-- The graph of the function `f`, changed, is put back.
abbrev pub set_cfg : ℕ → Cfg → Linker → Linker
set_cfg f c s = record s { heap = c.heap; cfg_of = update s.cfg_of f c.graph }

-- GetFirstOutEdgeOfType<CFGEdgeTypeFallthrough>() over the out edges.
first_fallthrough : Heap → List ℕ → Option ℕ
first_fallthrough h [] = none
first_fallthrough h (e ∷ es) =
    if is_fallthrough (h.edge e).edge_type then some e else first_fallthrough h es

target_of : Heap → Option ℕ → Option ℕ
target_of h none = none
target_of h (some e) = (h.edge e).target

-- The call edge from the new vertex to the entry of the called function `g`, in the graph of `f`, and
-- the return edge from its exit to the vertex behind the call, in the graph of `g`.
add_call_edges : Functions → ℕ → ℕ → ℕ → Option ℕ → Linker → Option Linker
unfolding add_new_edge
add_call_edges fs f g fcr none s = none
add_call_edges fs f g fcr (some behind) s =
    let s' =
      set_cfg f (add_new_edge fcr (fs.entry_vertex_desc g) (function_call fcr g) (cfg_at f s)) s in
    some
      (set_cfg g (add_new_edge (fs.exit_vertex_desc g) behind (return_edge fcr) (cfg_at g s')) s')

replaced : Functions → ℕ → Replacement → Cfg × Bool → Linker → Option Linker
unfolding add_call_edges first_fallthrough target_of
replaced fs f p (c, false) s = none
replaced fs f p (c, true) s =
    let h = record (c.heap) { deleted = p.old_vertex ∷ c.heap.deleted } in
    add_call_edges fs f p.called_function p.new_vertex_desc
      (target_of h (first_fallthrough h (h.vertex p.new_vertex_desc).out_edges))
      (set_cfg f (record c { heap = h }) s)

-- The body of the second loop. `none` is the exception of ReplaceVertex, or a call that no fallthrough
-- edge leaves, whose null pointer the code dereferences.
pub link_call : Functions → ℕ → Replacement → Linker → Option Linker
unfolding replace_vertex replaced
link_call fs f p s = replaced fs f p (replace_vertex p.old_vertex p.new_vertex_desc (cfg_at f s)) s

pub link_calls : Functions → ℕ → List Replacement → Linker → Option Linker
unfolding link_call
link_calls fs f [] s = some s
link_calls fs f (p ∷ ps) s = elim (link_call fs f p s) [
  | none ↦ none
  | some s' ↦ link_calls fs f ps s'
]

-- Function::Link of the function `f`.
unfoldable pub link : Functions → ℕ → Linker → Option Linker
unfolding collect link_calls
link fs f s = let (s', info) = collect fs (s.cfg_of f).vertices (s, []) in link_calls fs f info s'
