-- ===== src/Statement/Text.antt =====
-- The texts of statements and edges for Graphviz: the classes of src/controlflowgraph/statements and
-- src/controlflowgraph/edges, and EscapeifyForUseInDotLabel of
-- src/controlflowgraph/statements/StatementBase.cpp.
use Prim.Native.Char.{code}
use Prim.Native.String.{◌++◌}
use coflo.Prelude.{ℕ, ◌≡◌, refl, String, Bool, true, false, ◌&&◌, ◌||◌, ◌==◌, arith, if◌then◌else◌}
use coflo.Statement.{
  Statement, EdgeType, entry, exit, no_op, merge, placeholder, assignment, goto, switch, label,
  if_statement, function_call_unresolved, function_call_resolved, goto_unlinked, return_unlinked,
  if_unlinked, case_unlinked, switch_unlinked, if_true, if_false, function_call_bypass, impossible,
  return_edge,
}

-- The first character of a text is the one with this code.
abbrev begins_with : ℕ → String → Bool
begins_with a String.[] = false
begins_with a (String.◌∷◌ c s) = code c == a

-- The first characters are a backslash and an n.
abbrev begins_with_newline : String → Bool
begins_with_newline String.[] = false
begins_with_newline (String.◌∷◌ c s) = (code c == 92) && begins_with 110 s

-- StatementBase::EscapeifyForUseInDotLabel: a backslash goes before each match of the regular
-- expression, a quote or a backslash with an n.
pub escapeify_for_use_in_dot_label : String → String
escapeify_for_use_in_dot_label String.[] = String.[]
escapeify_for_use_in_dot_label (String.◌∷◌ c s) =
    let rest = String.◌∷◌ c (escapeify_for_use_in_dot_label s) in
    if (code c == 34) || begins_with_newline (String.◌∷◌ c s) then String.◌∷◌ "\\" rest else rest

-- A text without the backslashes that stand before a match.
pub unescape : String → String
unescape String.[] = String.[]
unescape (String.◌∷◌ c s) =
    let rest = unescape s in
    if (code c == 92) && (begins_with 34 s || begins_with_newline s)
    then rest
    else String.◌∷◌ c rest

no_quote : (s : String) → begins_with 34 (escapeify_for_use_in_dot_label s) ≡ false
unfolding escapeify_for_use_in_dot_label
no_quote String.[] = refl
no_quote (String.◌∷◌ c s) = ground arith

begins-escapeify :
    (s : String) → begins_with 110 (escapeify_for_use_in_dot_label s) ≡ begins_with 110 s
unfolding escapeify_for_use_in_dot_label
begins-escapeify String.[] = refl
begins-escapeify (String.◌∷◌ c s) = ground arith

no_newline : (s : String) → begins_with_newline (escapeify_for_use_in_dot_label s) ≡ false
unfolding escapeify_for_use_in_dot_label
no_newline String.[] = refl
no_newline (String.◌∷◌ c s) = ground (arith, begins-escapeify s)

-- The escaped text determines the text: a text is got back from its escaped form by dropping each
-- backslash that stands before a quote or before a backslash with an n.
pub unescape-escapeify : (s : String) → unescape (escapeify_for_use_in_dot_label s) ≡ s
unfolding escapeify_for_use_in_dot_label unescape
unescape-escapeify String.[] = refl
unescape-escapeify (String.◌∷◌ c s) =
    ground (arith, unescape-escapeify s, no_quote s, no_newline s, begins-escapeify s)

-- GetStatementTextDOT; `identifier` is Function::GetIdentifier. AssignmentBase has none.
unfoldable pub get_statement_text_dot : (ℕ → String) → Statement → String
unfolding escapeify_for_use_in_dot_label
get_statement_text_dot identifier entry = "ENTRY"
get_statement_text_dot identifier exit = "EXIT"
get_statement_text_dot identifier no_op = "NoOp"
get_statement_text_dot identifier merge = "MERGE"
get_statement_text_dot identifier placeholder = "PLACEHOLDER"
get_statement_text_dot identifier assignment = ""
get_statement_text_dot identifier goto = "GOTO"
get_statement_text_dot identifier switch = "switch()"
get_statement_text_dot identifier (label l) = l
get_statement_text_dot identifier (if_statement c) = "if(" ++ c ++ ")"
get_statement_text_dot identifier (function_call_unresolved i p) =
    i ++ "(" ++ escapeify_for_use_in_dot_label p ++ ")"
get_statement_text_dot identifier (function_call_resolved f p) = identifier f ++ "()"
get_statement_text_dot identifier (goto_unlinked t) = "GOTO_UNLINKED"
get_statement_text_dot identifier (return_unlinked v) = "RETURN_UNLINKED"
get_statement_text_dot identifier (if_unlinked c t f) = "IF_UNLINKED"
get_statement_text_dot identifier (case_unlinked t) = "CASE_UNLINKED"
get_statement_text_dot identifier (switch_unlinked ts) = "SWITCH_UNLINKED"

-- StatementBase::GetShapeTextDOT
unfoldable pub get_shape_text_dot : Statement → String
get_shape_text_dot (if_statement c) = "diamond"
get_shape_text_dot switch = "diamond"
get_shape_text_dot merge = "diamond"
get_shape_text_dot _ = "rectangle"

-- StatementBase::GetDotSVGColor
unfoldable pub statement_color : Statement → String
statement_color (function_call_unresolved i p) = "red"
statement_color _ = "black"

-- CFGEdgeTypeBase::GetDotLabel
unfoldable pub get_dot_label : EdgeType → String
get_dot_label if_true = "\\[true\\]"
get_dot_label if_false = "\\[false\\]"
get_dot_label function_call_bypass = "CallBypass"
get_dot_label impossible = "Impossible"
get_dot_label (return_edge c) = "Return"
get_dot_label _ = ""

-- CFGEdgeTypeBase::GetDotSVGColor
unfoldable pub edge_color : EdgeType → String
edge_color function_call_bypass = "blue"
edge_color impossible = "gray"
edge_color _ = "black"

-- CFGEdgeTypeBase::GetDotStyle, of `m_is_back_edge`.
unfoldable pub get_dot_style : Bool → String
get_dot_style true = "dashed"
get_dot_style false = "solid"

-- GetIdentifierCFG
unfoldable pub get_identifier_cfg : (ℕ → String) → Statement → String
get_identifier_cfg identifier entry = "ENTRY"
get_identifier_cfg identifier exit = "EXIT"
get_identifier_cfg identifier no_op = "NoOp"
get_identifier_cfg identifier merge = "MERGE"
get_identifier_cfg identifier placeholder = "PLACEHOLDER"
get_identifier_cfg identifier assignment = ""
get_identifier_cfg identifier goto = "GOTO"
get_identifier_cfg identifier switch = "switch()"
get_identifier_cfg identifier (label l) = l
get_identifier_cfg identifier (if_statement c) = "if(" ++ c ++ ")"
get_identifier_cfg identifier (function_call_unresolved i p) = i ++ "( " ++ p ++ " )"
get_identifier_cfg identifier (function_call_resolved f p) = identifier f ++ "( " ++ p ++ " )"
get_identifier_cfg identifier (goto_unlinked t) = "GOTO_UNLINKED"
get_identifier_cfg identifier (return_unlinked v) = "RETURN_UNLINKED"
get_identifier_cfg identifier (if_unlinked c t f) = "IF_UNLINKED"
get_identifier_cfg identifier (case_unlinked t) = "CASE_UNLINKED"
get_identifier_cfg identifier (switch_unlinked ts) = "SWITCH_UNLINKED"
