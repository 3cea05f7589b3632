-- ===== src/Traversal/Reach.antt =====
-- ReachabilityVisitor (src/controlflowgraph/visitors/ReachabilityVisitor.cpp) and RuleReachability
-- (src/controlflowgraph/analysis/RuleReachability.cpp). The deque of predecessors is a list with its
-- back first.
pub mod Chain
pub mod Path
use coflo.Prelude.{
  ℕ, Bool, true, false, ◌||◌, List, [], ◌∷◌, Option, none, some, if◌then◌else◌, ◌==◌,
}
use coflo.Statement.{is_impossible}
use coflo.Graph.{Heap}
use coflo.Traversal.Dfs.{
  Answer, ok, terminate_branch, terminate_search, Visitor, Outcome, running, finished, stopped,
  fault, traverse,
}

pub examine_edge : Heap → ℕ → Answer
examine_edge h e =
    if is_impossible (h.edge e).edge_type || (h.edge e).is_back_edge then terminate_branch else ok

pub discover_vertex : (ℕ → Bool) → ℕ → Answer
discover_vertex inspect_vertex u = if inspect_vertex u then terminate_search else ok

-- The end of an empty deque may not be popped.
pub pop_back : List ℕ → Option (List ℕ)
pop_back [] = none
pop_back (e ∷ p) = some p

pub reachability_visitor : Heap → (ℕ → Bool) → Visitor (List ℕ)
unfolding examine_edge discover_vertex pop_back
reachability_visitor h inspect_vertex = record {
  discover_vertex = λ u p. (discover_vertex inspect_vertex u, p);
  examine_edge = λ e p. (examine_edge h e, p);
  tree_edge = λ e p. e ∷ p;
  back_edge = λ e p. p;
  forward_or_cross_edge = λ e p. p;
  finish_vertex = λ u p. pop_back p;
}

-- ReachabilityPredicateSpecificVertex
abbrev pub is_sink : ℕ → ℕ → Bool
is_sink sink v = v == sink

-- What RunRule reports: a path whose last edge comes first, or that it found none.
pub data Verdict : Type 0 where
  violation : List ℕ → Verdict
  no_violation : Verdict

abbrev pub report : List ℕ → Verdict
report [] = no_violation
report (e ∷ p) = violation (e ∷ p)

-- What RunRule reports once Traverse has returned.
pub verdict : Outcome (List ℕ) → Option Verdict
verdict (running s) = none
verdict (finished p) = some (report p)
verdict (stopped p) = some (report p)
verdict fault = none

-- RunRule from the entry vertex and the entry's self edge of the source to the entry vertex of the
-- sink, with `n` rounds of the traversal; `none` if it is not over.
unfoldable pub run_rule : Heap → ℕ → ℕ → ℕ → ℕ → Option Verdict
unfolding reachability_visitor verdict traverse
run_rule h entry self_edge sink n =
    verdict (traverse h (reachability_visitor h (is_sink sink)) entry (self_edge ∷ []) n)
