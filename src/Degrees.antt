-- ===== src/Degrees.antt =====
-- The degrees that the topological printing counts: filtered_in_degree and filtered_out_degree of
-- src/Function.cpp.
pub mod Counts
use coflo.Prelude.{
  ℕ, suc, ◌+◌, Bool, true, false, not, ◌&&◌, ◌||◌, List, [], ◌∷◌, Option, none, some, if◌then◌else◌,
}
use coflo.Statement.{is_return, is_function_call_edge, is_decision_statement}
use coflo.Graph.{Heap}

source_decides : Heap → Option ℕ → Bool
source_decides h none = false
source_decides h (some u) = is_decision_statement (h.vertex u).statement

-- The edges that the loop skips.
unfoldable pub is_skipped : Heap → Bool → ℕ → Bool
unfolding source_decides
is_skipped h only_decision_predecessors e =
    (h.edge e).is_back_edge
    || (only_decision_predecessors && not (source_decides h (h.edge e).source))

-- The loop over the in edges; `saw` is `saw_function_call_already`.
unfoldable pub count_in : Heap → Bool → Bool → List ℕ → ℕ
unfolding is_skipped
count_in h only saw [] = 0
count_in h only saw (e ∷ es) =
    let t = (h.edge e).edge_type in
    let rest = count_in h only (saw || is_function_call_edge t) es in
    if is_skipped h only e
    then count_in h only saw es
    else if not (is_return t) && not saw
    then suc rest
    else rest

unfoldable pub filtered_in_degree : Heap → ℕ → Bool → ℕ
unfolding count_in
filtered_in_degree h v only = count_in h only false (h.vertex v).in_edges

count_out : Heap → List ℕ → ℕ
count_out h [] = 0
count_out h (e ∷ es) =
    let rest = count_out h es in if (h.edge e).is_back_edge then rest else suc rest

pub filtered_out_degree : Heap → ℕ → ℕ
unfolding count_out
filtered_out_degree h v = count_out h (h.vertex v).out_edges
