-- ===== src/Examples/Chains.antt =====
-- The printing of a call chain at a concrete input.
use coflo.Prelude.{ℕ, ◌≡◌, refl, true, false, List, [], ◌∷◌, map, All, some}
use coflo.Prelude.Int.{pos}
use coflo.Statement.{
  entry, if_statement, function_call_resolved, fallthrough, if_true, function_call,
}
use coflo.Graph.{Cfg, empty_graph, new_vertex, add_new_edge}
use coflo.Traversal.Reach.Chain.{ChainLine, front_first, print_call_chain}
use coflo.Traversal.Reach.Chain.Lines.{IsLine, leaving, is_shown, print_call_chain_lem}
use coflo.Examples.{empty_heap, allocate}

-- ENTRY, a decision, and a call of the function itself behind it.
abbrev recursive_cfg : Cfg
recursive_cfg = add_new_edge 2 0 (function_call 2 7) (
    add_new_edge 1 2 if_true (
      add_new_edge 0 1 fallthrough (record {
        heap =
            allocate (function_call_resolved 7 "n")
              (allocate (if_statement "n > 0") (allocate entry empty_heap));
        graph = empty_graph;
      })))

abbrev call_chain : List ℕ
call_chain = 2 ∷ 1 ∷ 0 ∷ []

prints_chain :
    print_call_chain recursive_cfg.heap call_chain
    ≡ some (
        record { vertex = 1; indent_level = pos 1; edge = 1; is_decision = true }
        ∷ record { vertex = 2; indent_level = pos 1; edge = 2; is_decision = false }
        ∷ [])
unfolding print_call_chain add_new_edge new_vertex
prints_chain = refl

print_call_chain_lem_example :
    (ls : List ChainLine) × (print_call_chain recursive_cfg.heap call_chain ≡ some ls)
    × (map (λ (l : ChainLine). l.edge) ls
        ≡ front_first (leaving is_shown recursive_cfg.heap call_chain) [])
    × All (IsLine recursive_cfg.heap) ls
unfolding add_new_edge new_vertex
print_call_chain_lem_example =
    print_call_chain_lem recursive_cfg.heap call_chain ((2, refl), ((1, refl), ((0, refl), tt)))
