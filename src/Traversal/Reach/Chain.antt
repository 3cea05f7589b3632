-- ===== src/Traversal/Reach/Chain.antt =====
-- RuleReachability::PrintCallChain: src/controlflowgraph/analysis/RuleReachability.cpp. The deque of
-- predecessors has its back first, as in Traversal/Reach.
pub mod Lines
use coflo.Prelude.{
  ℕ, Bool, true, false, List, [], ◌∷◌, ◌++◌, Option, none, some, ◌>>=◌, if◌then◌else◌, ◌||◌,
}
use coflo.Prelude.Int.{ℤ, pos, inc, dec}
use coflo.Statement.{
  Statement, function_call_unresolved, entry, exit, is_function_call, is_decision_statement,
}
use coflo.Graph.{Heap}

abbrev pub is_function_call_unresolved : Statement → Bool
is_function_call_unresolved (function_call_unresolved i p) = true
is_function_call_unresolved _ = false

-- A line of output: the location and the name of the statement at `vertex`, indented, and behind a
-- decision statement the label of the edge that is taken.
pub record ChainLine : Type 0 where
  pub vertex : ℕ
  pub indent_level : ℤ
  pub edge : ℕ
  pub is_decision : Bool

-- The new deque; `none` is the dereference of a null source.
pub strip_unresolved : Heap → List ℕ → Option (List ℕ)
strip_unresolved h [] = some []
strip_unresolved h (e ∷ p) = do
  sb ← (h.edge e).source
  rest ← strip_unresolved h p
  some (if is_function_call_unresolved (h.vertex sb).statement then rest else e ∷ rest)

pub front_first : List ℕ → List ℕ → List ℕ
front_first [] es = es
front_first (e ∷ p) es = front_first p (e ∷ es)

abbrev pub is_printed : Statement → Bool
is_printed s = is_function_call s || is_decision_statement s

pub next_level : Statement → ℤ → ℤ
next_level entry indent_level = inc indent_level
next_level exit indent_level = dec indent_level
next_level _ indent_level = indent_level

pub print_statement : Statement → ℕ → ℕ → ℤ → List ChainLine → List ChainLine
print_statement s sb e indent_level rest =
    if is_printed s
    then record {
      vertex = sb;
      indent_level = indent_level;
      edge = e;
      is_decision = is_decision_statement s;
    }
      ∷ rest
    else rest

pub print_edges : Heap → ℤ → List ℕ → Option (List ChainLine)
unfolding print_statement next_level
print_edges h indent_level [] = some []
print_edges h indent_level (e ∷ es) = do
  sb ← (h.edge e).source
  let s = (h.vertex sb).statement
  rest ← print_edges h (next_level s indent_level) es
  some (print_statement s sb e indent_level rest)

unfoldable pub print_call_chain : Heap → List ℕ → Option (List ChainLine)
unfolding strip_unresolved front_first print_edges
print_call_chain h predecessors = do
  new_predecessors ← strip_unresolved h predecessors
  print_edges h (pos 0) (front_first new_predecessors [])
