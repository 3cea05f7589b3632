-- ===== src/Statement.antt =====
-- The class hierarchies of src/controlflowgraph/statements and src/controlflowgraph/edges as data,
-- with the predicates that the code asks of them (`IsType<T>()` and the virtual predicates), and
-- src/Location.h. A class that no code path below tells from another keeps its own constructor.
pub mod Text
use coflo.Prelude.{ℕ, String, Bool, true, false, List, Option, none}

-- `m_column` is -1 where there is no column: `none`.
pub record Location : Type 0 where
  pub passed_file_path : String
  pub absolute_file_path : String
  pub line_number : ℕ
  pub column : Option ℕ

-- The default constructor.
abbrev pub unknown_location : Location
unknown_location = record {
  passed_file_path = "UNKNOWN";
  absolute_file_path = "UNKNOWN";
  line_number = 0;
  column = none;
}

-- Pointers are addresses; `function_call_resolved` holds the address of the called function, the
-- unlinked statements hold the names of the labels they jump to.
pub data Statement : Type 0 where
  entry exit no_op merge placeholder assignment goto switch : Statement
  label : String → Statement
  if_statement : String → Statement
  function_call_unresolved : String → String → Statement
  function_call_resolved : ℕ → String → Statement
  goto_unlinked : String → Statement
  return_unlinked : String → Statement
  if_unlinked : String → String → String → Statement
  case_unlinked : String → Statement
  switch_unlinked : List String → Statement

abbrev pub is_entry : Statement → Bool
is_entry entry = true
is_entry _ = false

abbrev pub is_exit : Statement → Bool
is_exit exit = true
is_exit _ = false

abbrev pub is_goto : Statement → Bool
is_goto goto = true
is_goto _ = false

abbrev pub is_flow_control_unlinked : Statement → Bool
is_flow_control_unlinked (goto_unlinked t) = true
is_flow_control_unlinked (return_unlinked v) = true
is_flow_control_unlinked (if_unlinked c t f) = true
is_flow_control_unlinked (case_unlinked t) = true
is_flow_control_unlinked (switch_unlinked ts) = true
is_flow_control_unlinked _ = false

abbrev pub is_decision_statement : Statement → Bool
is_decision_statement (if_statement c) = true
is_decision_statement switch = true
is_decision_statement _ = false

abbrev pub is_function_call : Statement → Bool
is_function_call (function_call_unresolved i p) = true
is_function_call (function_call_resolved f p) = true
is_function_call _ = false

abbrev pub is_function_call_resolved : Statement → Bool
is_function_call_resolved (function_call_resolved f p) = true
is_function_call_resolved _ = false

-- `function_call` holds the FunctionCallResolved vertex and the control flow graph of the called
-- function, `return_edge` the FunctionCallResolved vertex. Of a control flow graph the address is
-- that of the function that owns it.
pub data EdgeType : Type 0 where
  fallthrough if_true if_false function_call_bypass impossible exceptional goto_edge : EdgeType
  function_call : ℕ → ℕ → EdgeType
  return_edge : ℕ → EdgeType

-- CFGEdgeTypeIfTrue and CFGEdgeTypeIfFalse derive from CFGEdgeTypeFallthrough.
abbrev pub is_fallthrough : EdgeType → Bool
is_fallthrough fallthrough = true
is_fallthrough if_true = true
is_fallthrough if_false = true
is_fallthrough _ = false

abbrev pub is_impossible : EdgeType → Bool
is_impossible impossible = true
is_impossible _ = false

abbrev pub is_return : EdgeType → Bool
is_return (return_edge c) = true
is_return _ = false

abbrev pub is_function_call_edge : EdgeType → Bool
is_function_call_edge (function_call c f) = true
is_function_call_edge _ = false

abbrev pub is_function_call_bypass : EdgeType → Bool
is_function_call_bypass function_call_bypass = true
is_function_call_bypass _ = false
