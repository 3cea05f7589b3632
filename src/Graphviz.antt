-- ===== src/Graphviz.antt =====
-- WriteGraphvizDotFileVisitor and Function::PrintControlFlowGraphDot:
-- src/controlflowgraph/visitors/WriteGraphvizDotFileVisitor.cpp and src/Function.cpp. The stream is the
-- list of the lines that were put into it, the last first.
pub mod Lines
use coflo.Prelude.{
  ◌>>=◌, ℕ, String, Bool, false, ◌||◌, List, [], ◌∷◌, ◌++◌, Option, none, some, if◌then◌else◌,
}
use coflo.Statement.{Statement, Location, is_entry, is_exit, is_return, is_function_call_edge}
use coflo.Statement.Text.{
  get_statement_text_dot, get_shape_text_dot, statement_color, get_dot_label, edge_color,
  get_dot_style,
}
use coflo.Graph.{Heap}
use coflo.Visit.{
  Visitor, Outcome, running, finished, fault, VertexAnswer, EdgeAnswer, ok, terminate_branch,
  improved_depth_first_visit,
}

-- What stands in the stream: a text, a number, or the null that a vertex index is taken through.
pub data Token : Type 0 where
  text : String → Token
  number : ℕ → Token
  null : Token

-- A piece of the output, and the vertex or edge that it is about.
pub data Line : Type 0 where
  graph_line : List Token → Line
  vertex_line : ℕ → List Token → Line
  edge_line : ℕ → List Token → Line

column_tokens : Option ℕ → List Token
column_tokens none = []
column_tokens (some c) = text ":" ∷ number c ∷ []

-- Location::asLineColumn
as_line_column : Location → List Token
unfolding column_tokens
as_line_column l = number l.line_number ∷ column_tokens l.column

index_of : Heap → Option ℕ → Token
index_of h none = null
index_of h (some v) = number (h.vertex v).vertex_index

-- The end of the file.
closing : Outcome (List Line) → Outcome (List Line)
closing (finished out) = finished (graph_line (text " }\n" ∷ text "}\n" ∷ []) ∷ out)
closing o = o

module _ (identifier : ℕ → String) (h : Heap) where
  graph_header : String → Line
  graph_header name = graph_line (
      text "digraph G {\ngraph [clusterrank=local colorscheme=svg]\nsubgraph cluster0 {\nlabel = \""
      ∷ text name
      ∷ text
          "\";\nlabeljust = \"l\";\nnode [shape=rectangle fontname=\"Helvetica\"]\nedge [style=solid]\n"
      ∷ text "{ rank = source; 0; }\n{ rank = sink; 1; }\n\n"
      ∷ [])

  -- `none` is the identifier of a null owner.
  start_vertex : ℕ → List Line → Option (List Line)
  unfolding graph_header
  start_vertex u out = do f ← (h.vertex u).owning_function; some (graph_header (identifier f) ∷ out)

  -- An edge that has an end has both.
  enters_entry : Option ℕ → Bool
  enters_entry none = false
  enters_entry (some v) = is_entry (h.vertex v).statement

  leaves_exit : Option ℕ → Bool
  leaves_exit none = false
  leaves_exit (some v) = is_exit (h.vertex v).statement

  -- The edges that are ignored.
  pub is_ignored : ℕ → Bool
  unfolding enters_entry leaves_exit
  is_ignored e =
      is_function_call_edge (h.edge e).edge_type
      || is_return (h.edge e).edge_type
      || enters_entry (h.edge e).target
      || leaves_exit (h.edge e).source

  examine_edge : ℕ → List Line → EdgeAnswer × List Line
  unfolding is_ignored
  examine_edge e out = ((if is_ignored e then terminate_branch else ok), out)

  stream_out_edge_attributes : ℕ → List Line → List Line
  unfolding index_of get_dot_label edge_color get_dot_style
  stream_out_edge_attributes e out =
      edge_line e (
        index_of h (h.edge e).source
        ∷ text "->"
        ∷ index_of h (h.edge e).target
        ∷ text " "
        ∷ text "["
        ∷ text "label=\""
        ∷ text (get_dot_label (h.edge e).edge_type)
        ∷ text "\""
        ∷ text ", color="
        ∷ text (edge_color (h.edge e).edge_type)
        ∷ text ", style="
        ∷ text (get_dot_style (h.edge e).is_back_edge)
        ∷ text "];\n"
        ∷ [])
      ∷ out

  discover_vertex : ℕ → List Line → VertexAnswer × List Line
  unfolding as_line_column get_statement_text_dot statement_color get_shape_text_dot
  discover_vertex u out =
      let x = h.vertex u in
      (
        ok,
        vertex_line u (
              number x.vertex_index
              ∷ text " "
              ∷ text "[label=\""
              ∷ number x.vertex_index
              ∷ text " "
              ∷ text (get_statement_text_dot identifier x.statement)
              ∷ text "\\n"
              ∷ (as_line_column x.location
                  ++ text "\", color="
                    ∷ text (statement_color x.statement)
                    ∷ text ", shape="
                    ∷ text (get_shape_text_dot x.statement)
                    ∷ text "];\n"
                    ∷ []))
            ∷ out,
      )

  write_graphviz_dot_file_visitor : Visitor (List Line)
  unfolding start_vertex examine_edge stream_out_edge_attributes discover_vertex
  write_graphviz_dot_file_visitor = record {
    start_vertex = start_vertex;
    discover_vertex = discover_vertex;
    examine_edge = examine_edge;
    tree_edge = λ e out. (ok, stream_out_edge_attributes e out);
    back_edge = stream_out_edge_attributes;
    forward_or_cross_edge = stream_out_edge_attributes;
    finish_vertex = λ v out. out;
  }

  -- Function::PrintControlFlowGraphDot after `n` rounds of the visit, of the file that it writes.
  pub print_control_flow_graph_dot : ℕ → ℕ → Outcome (List Line)
  unfolding improved_depth_first_visit write_graphviz_dot_file_visitor closing
  print_control_flow_graph_dot entry_vertex n =
      closing (improved_depth_first_visit h write_graphviz_dot_file_visitor entry_vertex [] n)
