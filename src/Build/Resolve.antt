-- ===== src/Build/Resolve.antt =====
-- LabelMap and FlowControlUnlinked::ResolveLinks: src/controlflowgraph/statements/ParseHelpers.cpp.
pub mod Edges
pub mod Links
pub mod Grows
use text.Mathlib.Text.{◌==◌ as str_eq}
use coflo.Prelude.{ℕ, String, Bool, true, false, List, [], ◌∷◌, Option, none, some, if◌then◌else◌}
use coflo.Statement.{
  Statement, Location, EdgeType, fallthrough, if_true, if_false, goto, if_statement, switch,
  goto_unlinked, return_unlinked, if_unlinked, case_unlinked, switch_unlinked,
}
use coflo.Graph.{Heap, Cfg, new_vertex, add_new_edge}

abbrev pub LabelMap : Type 0
LabelMap = List (String × ℕ)

unfoldable pub find_label : String → LabelMap → Option ℕ
find_label k [] = none
find_label k ((j, v) ∷ m) = if str_eq j k then some v else find_label k m

-- `label_map[k] = v`
unfoldable pub set_label : String → ℕ → LabelMap → LabelMap
set_label k v [] = (k, v) ∷ []
set_label k v ((j, w) ∷ m) = if str_eq j k then (j, v) ∷ m else (j, w) ∷ set_label k v m

-- The replacement statement is a new vertex at the location of the one that it replaces.
replacement : Statement → ℕ → Cfg → Cfg × Option ℕ
unfolding new_vertex add_new_edge
replacement s this_vertex c =
    let (v, h) = new_vertex s (c.heap.vertex this_vertex).location c.heap in
    (record c { heap = h }, some v)

-- What GotoUnlinked and ReturnUnlinked do with the target they looked up: an edge, then a Goto.
link_goto : Option ℕ → ℕ → Cfg → Cfg × Option ℕ
unfolding replacement
link_goto none this_vertex c = (c, none)
link_goto (some target) this_vertex c =
    replacement goto this_vertex (add_new_edge this_vertex target fallthrough c)

resolve_goto : String → ℕ → LabelMap → Cfg → Cfg × Option ℕ
unfolding link_goto
resolve_goto link_target_name this_vertex label_map c =
    link_goto (find_label link_target_name label_map) this_vertex c

-- The target of a return is always "EXIT".
resolve_return : ℕ → LabelMap → Cfg → Cfg × Option ℕ
unfolding link_goto
resolve_return this_vertex label_map c = link_goto (find_label "EXIT" label_map) this_vertex c

link_if : Option ℕ → Option ℕ → String → ℕ → Cfg → Cfg × Option ℕ
unfolding replacement
link_if none it_false condition this_vertex c = (c, none)
link_if (some t) none condition this_vertex c = (c, none)
link_if (some t) (some f) condition this_vertex c =
    replacement (if_statement condition) this_vertex
      (add_new_edge this_vertex f if_false (add_new_edge this_vertex t if_true c))

-- IfUnlinked: both targets are looked up before an edge is added.
resolve_if : String → String → String → ℕ → LabelMap → Cfg → Cfg × Option ℕ
unfolding link_if
resolve_if condition goto_true goto_false this_vertex label_map c =
    link_if (find_label goto_true label_map) (find_label goto_false label_map) condition this_vertex
      c

-- The loop over the cases of a SwitchUnlinked; the flag is `resolved_any_links`.
link_cases : List String → ℕ → LabelMap → Cfg → Bool → Cfg × Bool
link_cases [] this_vertex label_map c resolved = (c, resolved)
link_cases (target ∷ rest) this_vertex label_map c resolved =
    let found = find_label target label_map in
    link_cases rest this_vertex label_map
      (elim found [ none ↦ c | some v ↦ add_new_edge this_vertex v fallthrough c ])
      (elim found [ none ↦ resolved | some v ↦ true ])

resolve_switch : List String → ℕ → LabelMap → Cfg → Cfg × Option ℕ
unfolding link_cases replacement
resolve_switch case_list this_vertex label_map c =
    let (c', resolved) = link_cases case_list this_vertex label_map c false in
    if resolved then replacement switch this_vertex c' else (c', none)

-- The virtual call. Only the FlowControlUnlinked classes have the member; the last clause is never
-- reached.
resolve_statement : Statement → ℕ → LabelMap → Cfg → Cfg × Option ℕ
unfolding resolve_goto resolve_return resolve_if resolve_switch
resolve_statement (goto_unlinked t) v m c = resolve_goto t v m c
resolve_statement (return_unlinked r) v m c = resolve_return v m c
resolve_statement (if_unlinked q t f) v m c = resolve_if q t f v m c
resolve_statement (switch_unlinked ts) v m c = resolve_switch ts v m c
resolve_statement _ v m c = (c, none)

unfoldable pub resolve_links : ℕ → LabelMap → Cfg → Cfg × Option ℕ
unfolding resolve_statement
resolve_links v m c = resolve_statement (c.heap.vertex v).statement v m c
