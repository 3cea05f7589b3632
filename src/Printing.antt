-- ===== src/Printing.antt =====
-- FunctionCFGVisitor and Function::PrintControlFlowGraph:
-- src/controlflowgraph/visitors/FunctionCFGVisitor.cpp and src/Function.cpp. What is printed is the list
-- of its lines, the last first. `none` is undefined behaviour, such as a null pointer that is used.
pub mod FirstFrame
pub mod InDegree
use coflo.Prelude.{
  ℕ, zero, suc, ◌+◌, ◌-◌, ◌*◌, String, Bool, true, false, not, ◌&&◌, ◌||◌, List, [], ◌∷◌, Option,
  none, some, if◌then◌else◌, ◌==◌, ltb, points_to, is_null, ◌>>=◌,
}
use coflo.Prelude.Int.{ℤ, pos, negsuc, inc, dec}
use coflo.Statement.{
  Statement, EdgeType, Location, function_call_resolved, return_edge, is_entry, is_exit, is_return,
  is_function_call_edge, is_function_call_resolved, is_fallthrough, is_decision_statement,
  is_function_call,
}
use coflo.Statement.Text.{get_identifier_cfg}
use coflo.Graph.{Heap}
use coflo.Traversal.{CallStack, Frame, push_call_stack, pop_call_stack, are_we_recursing}
use coflo.Visit.{VertexAnswer, EdgeAnswer, ok, terminate_branch}
use coflo.Degrees
use coflo.Topological.{Visitor, State, topological_visit_kahn}

-- A line with the spaces in front of it; a statement's has the vertex if its address is printed.
pub data Line : Type 0 where
  bracket : ℕ → String → Line
  statement_line : ℕ → String → Option ℕ → Location → Line
  message : String → Line

-- The members that change, with what was printed.
pub record Printer : Type 0 where
  pub call_stack : CallStack
  pub indent_level : ℤ
  pub last_discovered_vertex_is_recursive : Bool
  pub printed : List Line

-- The constructor.
abbrev pub new_printer : Printer
new_printer = record {
  call_stack = record { frames = []; call_set = [] };
  indent_level = pos 0;
  last_discovered_vertex_is_recursive = false;
  printed = [];
}

-- indent
indent : ℤ → ℕ
indent (pos n) = 4 * n
indent (negsuc n) = 0

print : Line → Printer → Printer
print l p = record p { printed = l ∷ p.printed }

-- Prints an opening bracket, then indents.
open_bracket : String → Printer → Printer
unfolding indent print
open_bracket b p = record (print (bracket (indent p.indent_level) b) p) {
  indent_level = inc p.indent_level;
}

-- Outdents, then prints a closing bracket.
close_bracket : String → Printer → Printer
unfolding indent print
close_bracket b p =
    print (bracket (indent (dec p.indent_level)) b) (record p { indent_level = dec p.indent_level })

close_brackets : ℕ → Printer → Printer
unfolding close_bracket
close_brackets zero p = p
close_brackets (suc n) p = close_brackets n (close_bracket "}" p)

push_first : Printer → Option ℕ → Option Printer
unfolding push_call_stack
push_first p none = none
push_first p (some f) =
    some
      (record p { call_stack = push_call_stack none (some f) p.call_stack; indent_level = pos 0 })

-- A resolved call, whose answer from AreWeRecursing is given.
track_call : ℕ → ℕ → Printer → Bool × CallStack → Printer
unfolding print push_call_stack
track_call u f p (true, s) = record (print (message "RECURSION DETECTED") p) {
  call_stack = s;
  last_discovered_vertex_is_recursive = true;
}
track_call u f p (false, s) = record p {
  call_stack = push_call_stack (some u) (some f) s;
  last_discovered_vertex_is_recursive = false;
}

track : ℕ → Statement → Printer → Printer
unfolding track_call
track u (function_call_resolved f a) p = track_call u f p (are_we_recursing f p.call_stack)
track u _ p = p

-- Whether a return edge is skipped, by the top frame; `c` is the call that it belongs to.
refuse_return : ℕ → List Frame → Printer → Bool × Printer
unfolding print
refuse_return c [] p = (false, print (message "EMPTY") p)
refuse_return c (f ∷ fs) p = elim f.pushing_call [
  | none ↦ (true, print (message "NULL") p)
  | some d ↦ (not (d == c), p)
]

refuse_type : EdgeType → Printer → Bool × Printer
unfolding refuse_return
refuse_type (return_edge c) p = refuse_return c p.call_stack.frames p
refuse_type t p = (false, p)

-- Out of a resolved call: the call edge, unless the function is on the stack already, and then the
-- fallthrough.
choose_way : EdgeType → Printer → EdgeAnswer × Printer
unfolding print
choose_way t p =
    if p.last_discovered_vertex_is_recursive && is_function_call_edge t
    then (terminate_branch, print (message "t3") p)
    else if not p.last_discovered_vertex_is_recursive && is_fallthrough t
    then (terminate_branch, p)
    else (ok, p)

same_ends : Option ℕ → Option ℕ → Bool
same_ends none t = is_null t
same_ends (some s) t = points_to t s

module _ (h : Heap) where
  count_edges : Bool → List ℕ → ℕ
  count_edges saw [] = 0
  count_edges saw (e ∷ es) =
      let t = (h.edge e).edge_type in
      let rest = count_edges (saw || is_function_call_edge t) es in
      if (h.edge e).is_back_edge
      then count_edges saw es
      else if not (is_return t) && not saw
      then suc rest
      else rest

  -- The file's own filtered_in_degree.
  unfoldable pub filtered_in_degree : ℕ → ℕ
  unfolding count_edges
  filtered_in_degree v = count_edges false (h.vertex v).in_edges

  start_vertex : ℕ → Printer → Option Printer
  unfolding push_first
  start_vertex e p = do u ← (h.edge e).target; push_first p (h.vertex u).owning_function

  enter_function : ℕ → Printer → Printer
  unfolding open_bracket
  enter_function u p = if is_entry (h.vertex u).statement then open_bracket "[" p else p

  -- The mark of a branch that begins.
  begin_branch : ℕ → Printer → Option Printer
  unfolding open_bracket
  begin_branch e p = do
    s ← (h.edge e).source
    some (if is_decision_statement (h.vertex s).statement then open_bracket "{" p else p)

  -- The marks of a branch that begins, and of branches that came together.
  mark_branch : ℕ → ℕ → Printer → Option Printer
  unfolding begin_branch close_brackets
  mark_branch fid e p =
      if fid == 1
      then begin_branch e p
      else some (if ltb 2 fid then close_brackets (fid - 2) p else p)

  leave_source : ℕ → Bool × Printer → Option (EdgeAnswer × Printer)
  unfolding choose_way
  leave_source e (true, p) = some (terminate_branch, p)
  leave_source e (false, p) = do
    s ← (h.edge e).source
    some (
        if is_function_call_resolved (h.vertex s).statement
        then choose_way (h.edge e).edge_type p
        else (ok, p))

  examine_edge : ℕ → Printer → Option (EdgeAnswer × Printer)
  unfolding same_ends refuse_type leave_source
  examine_edge e p =
      if same_ends (h.edge e).source (h.edge e).target || (h.edge e).is_back_edge
      then some (terminate_branch, p)
      else leave_source e (refuse_type (h.edge e).edge_type p)

  -- The end of a function.
  leave_function : ℕ → Printer → Option Printer
  unfolding close_bracket pop_call_stack
  leave_function u p = do
    s ← pop_call_stack h p.call_stack
    some (close_bracket "]" (record p { call_stack = s }))

  -- Whether the edge that was pushed leads to a vertex where branches come together.
  merges : Option ℕ → Option Bool
  unfolding filtered_in_degree
  merges e? = do e ← e?; v ← (h.edge e).target; some (ltb 1 (filtered_in_degree v))

  leave_branch : ℕ → Option ℕ → Printer → Option Printer
  unfolding close_bracket merges
  leave_branch zero e? p = some (close_bracket "}" p)
  leave_branch (suc zero) e? p = do m ← merges e?; some (if m then close_bracket "}" p else p)
  leave_branch n e? p = some p

  module _ (identifier : ℕ → String) (last_statement : ℕ) (cfg_verbose cfg_vertex_ids : Bool) where
    print_statement : ℕ → Printer → Printer
    unfolding print indent get_identifier_cfg
    print_statement u p =
        let x = h.vertex u in
        if cfg_verbose || is_decision_statement x.statement || is_function_call x.statement
        then print
            (statement_line (indent p.indent_level) (get_identifier_cfg identifier x.statement)
              (if cfg_vertex_ids then some u else none) x.location)
            p
        else p

    discover_vertex : ℕ → ℕ → Printer → Option (VertexAnswer × Printer)
    unfolding enter_function filtered_in_degree mark_branch print_statement track
    discover_vertex u e p = do
      p' ← mark_branch (filtered_in_degree u) e (enter_function u p)
      some (ok, track u (h.vertex u).statement (print_statement u p'))

    leave_exit : ℕ → ℕ → Option ℕ → Printer → Option Printer
    unfolding leave_function leave_branch
    leave_exit u n e? p = do
      p' ← leave_function u p
      if last_statement == u then some p' else leave_branch n e? p'

    vertex_visit_complete : ℕ → ℕ → Option ℕ → Printer → Option Printer
    unfolding leave_exit
    vertex_visit_complete u n e? p =
        if is_exit (h.vertex u).statement then leave_exit u n e? p else leave_branch n e? p

    pub function_cfg_visitor : Visitor Printer
    unfolding start_vertex discover_vertex examine_edge vertex_visit_complete
    function_cfg_visitor = record {
      start_vertex = start_vertex;
      discover_vertex = discover_vertex;
      examine_edge = examine_edge;
      tree_edge = λ e p. p;
      vertex_visit_complete = vertex_visit_complete;
    }

    -- Function::PrintControlFlowGraph after `n` rounds of the visit.
    unfoldable pub print_control_flow_graph : ℕ → ℕ → Option (State Printer)
    unfolding topological_visit_kahn function_cfg_visitor Degrees.filtered_in_degree
    print_control_flow_graph entry_vertex_self_edge n =
        topological_visit_kahn h function_cfg_visitor (λ v. Degrees.filtered_in_degree h v false)
          entry_vertex_self_edge new_printer [] n
