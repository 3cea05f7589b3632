-- ===== src/Printing/InDegree.antt =====
-- The two functions filtered_in_degree: src/controlflowgraph/visitors/FunctionCFGVisitor.cpp and
-- src/Function.cpp.
use coflo.Prelude.{ℕ, ◌≡◌, refl, Bool, false, List, [], ◌∷◌, ◌||◌, arith}
use coflo.Statement.{is_function_call_edge}
use coflo.Graph.{Heap}
use coflo.Degrees
use coflo.Printing

count_edges-count_in :
    (h : Heap) (saw : Bool) (es : List ℕ)
    → Printing.count_edges h saw es ≡ Degrees.count_in h false saw es
unfolding Printing.count_edges Degrees.count_in Degrees.is_skipped
count_edges-count_in h saw [] = refl
count_edges-count_in h saw (e ∷ es) = ground (
  arith,
  count_edges-count_in h saw es,
  count_edges-count_in h (saw || is_function_call_edge (h.edge e).edge_type) es,
)

-- The visitor's own filtered_in_degree is the other one without its second argument.
pub filtered_in_degree-agree :
    (h : Heap) (v : ℕ) → Printing.filtered_in_degree h v ≡ Degrees.filtered_in_degree h v false
unfolding Printing.filtered_in_degree Degrees.filtered_in_degree
filtered_in_degree-agree h v = count_edges-count_in h false (h.vertex v).in_edges
