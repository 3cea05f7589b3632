-- ===== src/Traversal/Dfs.antt =====
-- ControlFlowGraphTraversalDFS::Traverse and SkipEdge:
-- src/controlflowgraph/ControlFlowGraphTraversalDFS.cpp.
pub mod Path
pub mod Start
use coflo.Prelude.{
  ◌>>=◌, ℕ, zero, suc, Bool, true, false, List, [], ◌∷◌, Option, none, some, if◌then◌else◌,
  points_to,
}
use coflo.Statement.{EdgeType, function_call, return_edge, function_call_bypass}
use coflo.Graph.{Heap}
use coflo.Traversal.{
  Color, white, gray, black, CallStack, Frame, push_call_stack, pop_call_stack, paint, color_of,
}

-- vertex_return_value_t, and the values of edge_return_value_t that a traversal asks for.
pub data Answer : Type 0 where
  ok terminate_branch terminate_search : Answer

-- ControlFlowGraphVisitorBase: the calls that a traversal makes, on the visitor's own state. `none` is
-- undefined behaviour of a visitor. Answers that Traverse drops are left out.
pub record Visitor (W : Type 0) : Type 0 where
  pub discover_vertex : ℕ → W → Answer × W
  pub examine_edge : ℕ → W → Answer × W
  pub tree_edge : ℕ → W → W
  pub back_edge : ℕ → W → W
  pub forward_or_cross_edge : ℕ → W → W
  pub finish_vertex : ℕ → W → Option W

-- The local variables of Traverse: `[ei, eend)` is `out_edges`, the top of `dfs_stack` comes first.
pub record State (W : Type 0) : Type 0 where
  pub calls : CallStack
  pub dfs_stack : List (ℕ × List ℕ)
  pub u : ℕ
  pub out_edges : List ℕ
  pub visitor : W

-- `stopped` is a return on terminate_search, `fault` undefined behaviour.
pub data Outcome (W : Type 0) : Type 0 where
  running : State W → Outcome W
  finished stopped : W → Outcome W
  fault : Outcome W

followed : Option CallStack → Option (Bool × CallStack)
followed none = none
followed (some s) = some (false, s)

skip_return_on : Heap → ℕ → CallStack → List Frame → Option (Bool × CallStack)
unfolding pop_call_stack followed
skip_return_on h c s [] = none
skip_return_on h c s (f ∷ fs) =
    if points_to f.pushing_call c then followed (pop_call_stack h s) else some (true, s)

-- A return edge is followed if it matches the call on top, which it pops.
skip_return : Heap → ℕ → CallStack → Option (Bool × CallStack)
unfolding skip_return_on
skip_return h c s = skip_return_on h c s s.frames

skip_by_type : Heap → EdgeType → CallStack → Option (Bool × CallStack)
unfolding skip_return
skip_by_type h (return_edge c) s = skip_return h c s
skip_by_type h function_call_bypass s = some (true, s)
skip_by_type h t s = some (false, s)

pub skip_edge : Heap → ℕ → CallStack → Option (Bool × CallStack)
unfolding skip_by_type
skip_edge h e s =
    if (h.edge e).is_back_edge then some (true, s) else skip_by_type h (h.edge e).edge_type s

-- A call pushes a frame.
call : EdgeType → CallStack → CallStack
unfolding push_call_stack
call (function_call c f) s = push_call_stack (some c) (some f) s
call _ s = s

-- The vertex `v` becomes the current one, and is discovered.
discovered : {W : Type 0} → Heap → ℕ → CallStack → List (ℕ × List ℕ) → Answer × W → Outcome W
discovered h v s st (ok, w) =
    running
      (record { calls = s; dfs_stack = st; u = v; out_edges = (h.vertex v).out_edges; visitor = w })
discovered h v s st (terminate_branch, w) =
    running (record { calls = s; dfs_stack = st; u = v; out_edges = []; visitor = w })
discovered h v s st (terminate_search, w) = stopped w

-- What is done with an edge to `v`, by the colour of `v`.
by_color :
    {W : Type 0} → Heap → Visitor W → ℕ → ℕ → List ℕ → State W → Color × CallStack → Outcome W
unfolding discovered paint
by_color h vis e v es s (white, calls) = elim (paint v gray calls) [
  | none ↦ fault
  | some calls' ↦
      discovered h v calls' ((s.u, es) ∷ s.dfs_stack)
        (vis.discover_vertex v (vis.tree_edge e s.visitor))
]
by_color h vis e v es s (gray, calls) =
    running (record s { calls = calls; out_edges = es; visitor = vis.back_edge e s.visitor })
by_color h vis e v es s (black, calls) =
    running
      (record s { calls = calls; out_edges = es; visitor = vis.forward_or_cross_edge e s.visitor })

follow : {W : Type 0} → Heap → Visitor W → ℕ → List ℕ → State W → Option ℕ → Outcome W
unfolding by_color call color_of
follow h vis e es s none = fault
follow h vis e es s (some v) = elim (color_of v (call (h.edge e).edge_type s.calls)) [
  | none ↦ fault
  | some r ↦ by_color h vis e v es s r
]

examined : {W : Type 0} → Heap → Visitor W → ℕ → List ℕ → State W → Answer × W → Outcome W
unfolding follow
examined h vis e es s (ok, w) = follow h vis e es (record s { visitor = w }) (h.edge e).target
examined h vis e es s (terminate_branch, w) = running (record s { out_edges = es; visitor = w })
examined h vis e es s (terminate_search, w) = stopped w

take_edge :
    {W : Type 0} → Heap → Visitor W → ℕ → List ℕ → State W → Option (Bool × CallStack) → Outcome W
unfolding examined
take_edge h vis e es s none = fault
take_edge h vis e es s (some (true, calls)) = running (record s { calls = calls; out_edges = es })
take_edge h vis e es s (some (false, calls)) =
    examined h vis e es (record s { calls = calls }) (vis.examine_edge e s.visitor)

-- The end of a vertex, and the next context of the stack.
resume : {W : Type 0} → CallStack → List (ℕ × List ℕ) → Option W → Outcome W
resume calls st none = fault
resume calls [] (some w) = finished w
resume calls ((v, es) ∷ st) (some w) =
    running (record { calls = calls; dfs_stack = st; u = v; out_edges = es; visitor = w })

close_vertex : {W : Type 0} → Visitor W → State W → Option CallStack → Outcome W
unfolding resume
close_vertex vis s none = fault
close_vertex vis s (some calls) = resume calls s.dfs_stack (vis.finish_vertex s.u s.visitor)

step_from : {W : Type 0} → Heap → Visitor W → State W → List ℕ → Outcome W
unfolding paint take_edge close_vertex skip_edge
step_from h vis s [] = close_vertex vis s (paint s.u black s.calls)
step_from h vis s (e ∷ es) = take_edge h vis e es s (skip_edge h e s.calls)

pub step : {W : Type 0} → Heap → Visitor W → State W → Outcome W
unfolding step_from
step h vis s = step_from h vis s s.out_edges

next : {W : Type 0} → Heap → Visitor W → Outcome W → Outcome W
unfolding step
next h vis (running s) = step h vis s
next h vis o = o

-- Before the loop: unlike in the loop, terminate_search only leaves the edges of the source out.
begin : {W : Type 0} → Heap → ℕ → Option CallStack → Answer × W → Outcome W
begin h source none r = fault
begin h source (some s) (ok, w) = running (record {
  calls = s;
  dfs_stack = [];
  u = source;
  out_edges = (h.vertex source).out_edges;
  visitor = w;
})
begin h source (some s) (terminate_branch, w) =
    running (record { calls = s; dfs_stack = []; u = source; out_edges = []; visitor = w })
begin h source (some s) (terminate_search, w) =
    running (record { calls = s; dfs_stack = []; u = source; out_edges = []; visitor = w })

-- The call stack when the loop starts: one frame, that no call pushed, at the graph of the source's owner;
-- `none` is the graph of a null owner.
root_calls : Heap → ℕ → Option CallStack
unfolding push_call_stack paint
root_calls h source = do
  f ← (h.vertex source).owning_function
  paint source gray (push_call_stack none (some f) (record { frames = []; call_set = [] }))

-- Traverse after `n` rounds of its loops, from the visitor's state `w`.
unfoldable pub traverse : {W : Type 0} → Heap → Visitor W → ℕ → W → ℕ → Outcome W
unfolding begin next root_calls
traverse h vis source w zero = begin h source (root_calls h source) (vis.discover_vertex source w)
traverse h vis source w (suc n) = next h vis (traverse h vis source w n)
