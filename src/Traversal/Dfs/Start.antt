-- ===== src/Traversal/Dfs/Start.antt =====
-- ControlFlowGraphTraversalDFS::Traverse from a source that is already what the visitor looks for, or has no owner.
use coflo.Prelude.{ℕ, zero, suc, ◌≡◌, refl, ap, none, some}
use coflo.Graph.{Heap}
use coflo.Traversal.{paint, paint_top, push_call_stack}
use coflo.Traversal.Dfs.{
  terminate_search, Visitor, fault, finished, traverse, next, step, step_from, begin, root_calls,
  close_vertex, resume,
}

-- From a source with an owning function it is over in one round, after finish_vertex of the source.
pub traverse_from_goal :
    {W : Type 0} (h : Heap) (vis : Visitor W) (source f : ℕ) (w₀ w₁ w₂ : W) (n : ℕ)
    → (h.vertex source).owning_function ≡ some f
    → vis.discover_vertex source w₀ ≡ (terminate_search, w₁)
    → vis.finish_vertex source w₁ ≡ some w₂
    → traverse h vis source w₀ (suc n) ≡ finished w₂
unfolding traverse next step step_from begin root_calls paint paint_top push_call_stack close_vertex
    resume
traverse_from_goal h vis source f w₀ w₁ w₂ zero owner d e = rw (owner, d, e) refl
traverse_from_goal h vis source f w₀ w₁ w₂ (suc n) owner d e =
    ap (next h vis) (traverse_from_goal h vis source f w₀ w₁ w₂ n owner d e)

-- A null owner of the source is a fault in every round.
pub traverse_unowned :
    {W : Type 0} (h : Heap) (vis : Visitor W) (source : ℕ) (w : W) (n : ℕ)
    → (h.vertex source).owning_function ≡ none
    → traverse h vis source w n ≡ fault
unfolding traverse next begin root_calls
traverse_unowned h vis source w zero unowned = rw unowned refl
traverse_unowned h vis source w (suc n) unowned =
    ap (next h vis) (traverse_unowned h vis source w n unowned)
