-- ===== src/Printing/FirstFrame.antt =====
-- The end of the function whose graph is printed:
-- src/controlflowgraph/visitors/FunctionCFGVisitor.cpp.
use text.Mathlib.Text
use coflo.Prelude.{
  ℕ, zero, suc, ◌==◌, ◌≡◌, refl, subst, String, Bool, true, false, List, [], ◌∷◌, Option, none,
  some, if◌then◌else◌, ◌-◌, ◌||◌, ◌&&◌, not, ltb, if_keeps, Option-cases, eq_of_some, Bool-cases,
  inl, inr,
}
use coflo.Statement.{
  Statement, EdgeType, is_function_call_resolved, function_call_resolved, return_edge, is_exit,
  is_entry, is_fallthrough, is_function_call_edge, is_decision_statement, is_function_call,
}
use coflo.Degrees
use coflo.Graph.{Heap}
use coflo.Traversal.{Frame, push_call_stack, pop_call_stack}
use coflo.Visit.{VertexAnswer, EdgeAnswer, ok, terminate_branch}
use coflo.Topological.{State}
use coflo.Topological.Invariant.{IsKept, topological_visit_kahn_keeps}
use coflo.Printing.{
  Line, Printer, new_printer, bracket, statement_line, message, open_bracket, close_bracket,
  close_brackets, print, push_first, start_vertex, enter_function, begin_branch, mark_branch,
  print_statement, track, discover_vertex, leave_source, examine_edge, same_ends, merges,
  filtered_in_degree, choose_way, refuse_type, refuse_return, leave_function, leave_branch,
  leave_exit, vertex_visit_complete, function_cfg_visitor, print_control_flow_graph,
}

-- How many function ends were printed.
abbrev pub function_ends : List Line → ℕ
function_ends [] = 0
function_ends (bracket i b ∷ ls) =
    let rest = function_ends ls in if Text.◌==◌ b "]" then suc rest else rest
function_ends (statement_line i s v l ∷ ls) = function_ends ls
function_ends (message m ∷ ls) = function_ends ls

-- Only the frame that no call pushed is on the stack, and no function's end was printed.
abbrev pub IsFirst : Printer → Type 0
IsFirst p =
    ((f : Frame) × (p.call_stack.frames ≡ f ∷ []) × (f.pushing_call ≡ none))
    × (function_ends p.printed ≡ 0)

close_brackets-IsFirst : (n : ℕ) (p : Printer) → IsFirst p → IsFirst (close_brackets n p)
unfolding close_brackets close_bracket
close_brackets-IsFirst zero p x = x
close_brackets-IsFirst (suc n) p x = close_brackets-IsFirst n (close_bracket "}" p) x

track-IsFirst :
    (u : ℕ) (s : Statement) (p : Printer)
    → is_function_call_resolved s ≡ false
    → IsFirst p
    → IsFirst (track u s p)
unfolding track
track-IsFirst u (function_call_resolved f a) p leaf x = cc
track-IsFirst u _ p leaf x = x

choose_way-IsFirst : (t : EdgeType) (p : Printer) → IsFirst p → IsFirst (choose_way t p).1
unfolding choose_way print
choose_way-IsFirst t p x =
    let P : EdgeAnswer × Printer → Type 0 = λ r. IsFirst r.1 in
    if_keeps P (p.last_discovered_vertex_is_recursive && is_function_call_edge t)
      (terminate_branch, print (message "t3") p) _ x
      (if_keeps P (not p.last_discovered_vertex_is_recursive && is_fallthrough t)
        (terminate_branch, p) (ok, p) x x)

refuse_return-IsFirst :
    (c : ℕ) (fs : List Frame) (p : Printer) → IsFirst p → IsFirst (refuse_return c fs p).1
unfolding refuse_return
refuse_return-IsFirst c [] p x = x
refuse_return-IsFirst c (f ∷ fs) p x = elim (Option-cases f.pushing_call) [
  | inl null ↦ rw null x
  | inr (d, is) ↦ rw is x
]

refuse_type-IsFirst : (t : EdgeType) (p : Printer) → IsFirst p → IsFirst (refuse_type t p).1
unfolding refuse_type
refuse_type-IsFirst (return_edge c) p x = refuse_return-IsFirst c p.call_stack.frames p x
refuse_type-IsFirst _ p x = x

module _ (h : Heap) where
  enter_function-IsFirst : (u : ℕ) (p : Printer) → IsFirst p → IsFirst (enter_function h u p)
  unfolding enter_function open_bracket
  enter_function-IsFirst u p x =
      if_keeps IsFirst (is_entry (h.vertex u).statement) (open_bracket "[" p) p x x

  begin_branch-IsFirst :
      (e : ℕ) (p p' : Printer) → IsFirst p → begin_branch h e p ≡ some p' → IsFirst p'
  unfolding begin_branch open_bracket
  begin_branch-IsFirst e p p' x eq = elim (Option-cases (h.edge e).source) [
    | inl null ↦ cc (rw (begin_branch, null) at eq)
    | inr (s, is) ↦
        subst IsFirst (eq_of_some (rw (begin_branch, is) at eq)) (
          if_keeps IsFirst (is_decision_statement (h.vertex s).statement) (open_bracket "{" p) p x
            x)
  ]

  mark_branch-IsFirst :
      (n e : ℕ) (p p' : Printer) → IsFirst p → mark_branch h n e p ≡ some p' → IsFirst p'
  unfolding mark_branch begin_branch open_bracket
  mark_branch-IsFirst n e p p' x eq = elim (Bool-cases (n == 1)) [
    | inl one ↦ begin_branch-IsFirst e p p' x (rw one at eq)
    | inr other ↦ subst IsFirst (eq_of_some (rw other at eq)) (
        if_keeps IsFirst (ltb 2 n) (close_brackets (n - 2) p) p (close_brackets-IsFirst (n - 2) p x)
          x)
  ]

  leave_source-IsFirst :
      (e : ℕ) (b : Bool × Printer) (r : EdgeAnswer × Printer)
      → IsFirst b.1
      → leave_source h e b ≡ some r
      → IsFirst r.1
  unfolding leave_source
  leave_source-IsFirst e (true, p) r x eq = subst (λ r. IsFirst r.1) (eq_of_some eq) x
  leave_source-IsFirst e (false, p) r x eq =
      let P : EdgeAnswer × Printer → Type 0 = λ r. IsFirst r.1 in
      elim (Option-cases (h.edge e).source) [
        | inl null ↦ cc (rw (leave_source, null) at eq)
        | inr (s, is) ↦ subst P (eq_of_some (rw (leave_source, is) at eq)) (
            if_keeps P (is_function_call_resolved (h.vertex s).statement)
              (choose_way (h.edge e).edge_type p) (ok, p)
              (choose_way-IsFirst (h.edge e).edge_type p x) x)
      ]

  examine_edge-IsFirst :
      (e : ℕ) (p : Printer) (r : EdgeAnswer × Printer)
      → IsFirst p
      → examine_edge h e p ≡ some r
      → IsFirst r.1
  unfolding examine_edge
  examine_edge-IsFirst e p r x eq =
      let skip = same_ends (h.edge e).source (h.edge e).target || (h.edge e).is_back_edge in
      elim (Bool-cases skip) [
        | inl skipped ↦ subst (λ r. IsFirst r.1) (eq_of_some (rw skipped at eq)) x
        | inr live ↦
            leave_source-IsFirst e (refuse_type (h.edge e).edge_type p) r
              (refuse_type-IsFirst (h.edge e).edge_type p x) (rw live at eq)
      ]

  leave_branch-IsFirst :
      (n : ℕ) (e : Option ℕ) (p p' : Printer)
      → IsFirst p
      → leave_branch h n e p ≡ some p'
      → IsFirst p'
  unfolding leave_branch close_bracket
  leave_branch-IsFirst zero e p p' x eq = subst IsFirst (eq_of_some eq) x
  leave_branch-IsFirst (suc zero) e p p' x eq = elim (Option-cases (merges h e)) [
    | inl null ↦ cc (rw null at eq)
    | inr (m, is) ↦
        subst IsFirst (eq_of_some (rw is at eq)) (if_keeps IsFirst m (close_bracket "}" p) p x x)
  ]
  leave_branch-IsFirst (suc (suc n)) e p p' x eq = subst IsFirst (eq_of_some eq) x

  -- The end of the first function is undefined.
  leave_function-none : (u : ℕ) (p : Printer) → IsFirst p → leave_function h u p ≡ none
  unfolding leave_function pop_call_stack
  leave_function-none u p ((f, one, first), ends) = rw (one, first) refl

  start_vertex-IsFirst :
      (e : ℕ) (p : Printer)
      → p.call_stack.frames ≡ []
      → p.printed ≡ []
      → (p' : Printer) → start_vertex h e p ≡ some p'
      → IsFirst p'
  unfolding start_vertex push_first push_call_stack
  start_vertex-IsFirst e p empty silent p' eq = elim (Option-cases (h.edge e).target) [
    | inl null ↦ cc (rw (start_vertex, null) at eq)
    | inr (u, to) ↦ elim (Option-cases (h.vertex u).owning_function) [
      | inl null ↦ cc (rw (start_vertex, to, push_first, null) at eq)
      | inr (f, owner) ↦
          subst IsFirst (eq_of_some (rw (start_vertex, to, push_first, owner) at eq)) (
            (
              record { pushing_call = none; calling_cfg = some f; color_map = [] },
              rw empty refl,
              refl,
            ),
            rw silent refl,
          )
    ]
  ]

  module _ (identifier : ℕ → String) (last_statement : ℕ) (verbose ids : Bool) where
    print_statement-IsFirst :
        (u : ℕ) (p : Printer)
        → IsFirst p
        → IsFirst (print_statement h identifier last_statement verbose ids u p)
    unfolding print_statement print
    print_statement-IsFirst u p x =
        let s = (h.vertex u).statement in
        if_keeps IsFirst (verbose || is_decision_statement s || is_function_call s) _ p x x

    vertex_visit_complete-IsFirst :
        (u n : ℕ) (e : Option ℕ) (p p' : Printer)
        → IsFirst p
        → vertex_visit_complete h identifier last_statement verbose ids u n e p ≡ some p'
        → IsFirst p'
    unfolding vertex_visit_complete leave_exit
    vertex_visit_complete-IsFirst u n e p p' x eq =
        elim (Bool-cases (is_exit (h.vertex u).statement)) [
          | inl end ↦ cc (rw (end, leave_function-none u p x) at eq)
          | inr other ↦ leave_branch-IsFirst n e p p' x (rw other at eq)
        ]

    module _ (leaf : (v : ℕ) → is_function_call_resolved (h.vertex v).statement ≡ false) where
      discover_vertex-IsFirst :
          (u e : ℕ) (p : Printer) (r : VertexAnswer × Printer)
          → IsFirst p
          → discover_vertex h identifier last_statement verbose ids u e p ≡ some r
          → IsFirst r.1
      unfolding discover_vertex
      discover_vertex-IsFirst u e p r x eq =
          let P : VertexAnswer × Printer → Type 0 = λ r. IsFirst r.1 in
          let marks = mark_branch h (filtered_in_degree h u) e (enter_function h u p) in
          elim (Option-cases marks) [
            | inl null ↦ cc (rw null at eq)
            | inr (p', is) ↦
                let first = enter_function-IsFirst u p x in
                let marked =
                  mark_branch-IsFirst (filtered_in_degree h u) e (enter_function h u p) p' first
                    is in
                let shown = print_statement h identifier last_statement verbose ids u p' in
                subst P (eq_of_some (rw is at eq)) (
                  track-IsFirst u (h.vertex u).statement shown (leaf u)
                    (print_statement-IsFirst u p' marked))
          ]

      visitor-IsKept : IsKept (function_cfg_visitor h identifier last_statement verbose ids) IsFirst
      unfolding function_cfg_visitor
      visitor-IsKept = record {
        discovers = discover_vertex-IsFirst;
        examines = examine_edge-IsFirst;
        trees = λ e p x. x;
        completes = vertex_visit_complete-IsFirst;
      }

      -- If no vertex is a resolved call, a printing that reaches no undefined behaviour, however many
      -- rounds it takes, has not come to the end of the function: the frame that start_vertex pushed
      -- is still the only one, and no function end is printed.
      pub print_control_flow_graph-IsFirst :
          (entry_vertex_self_edge n : ℕ) (s : State Printer)
          → print_control_flow_graph h identifier last_statement verbose ids entry_vertex_self_edge
              n
            ≡ some s
          → IsFirst s.visitor
      unfolding print_control_flow_graph
      print_control_flow_graph-IsFirst e n s eq =
          topological_visit_kahn_keeps h
            (function_cfg_visitor h identifier last_statement verbose ids)
            (λ v. Degrees.filtered_in_degree h v false) IsFirst visitor-IsKept e new_printer [] n s
            (start_vertex-IsFirst e new_printer refl refl) eq
