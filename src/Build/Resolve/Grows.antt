-- ===== src/Build/Resolve/Grows.antt =====
-- What ResolveLinks adds to the graph: src/controlflowgraph/statements/ParseHelpers.cpp.
use coflo.Prelude.{
  ℕ, suc, ◌<◌, ◌≡◌, refl, ◌∙◌, String, Bool, true, false, Option, none, some, arith,
}
use coflo.Statement.{
  Statement, fallthrough, if_true, if_false, goto, if_statement, goto_unlinked, return_unlinked,
  if_unlinked, switch_unlinked, is_decision_statement,
}
use coflo.Graph.{Cfg, new_vertex, add_new_edge}
use coflo.Graph.Counts.{vertex_count-add_new_edge}
use coflo.Build.Grows.{
  Grows, Grows-refl, Grows-trans, Grows-add_new_edge, Grows-new_vertex, Two, Two-Grows, added_edge,
}
use coflo.Build.Resolve.{
  LabelMap, find_label, replacement, resolve_goto, resolve_return, link_goto, link_if, resolve_if,
  resolve_statement, resolve_links,
}

-- A replacement is the next new vertex, and has two out edges waiting at `v` if it is a decision.
abbrev pub Extends : ℕ → Cfg → Cfg × Option ℕ → Type 0
Extends v c (d, none) = Grows c d × (d.heap.next_vertex ≡ c.heap.next_vertex)
Extends v c (d, some new) =
    Grows c d
    × (new ≡ c.heap.next_vertex)
    × (d.heap.next_vertex ≡ suc c.heap.next_vertex)
    × (is_decision_statement (d.heap.vertex new).statement ≡ true → Two d.heap v)

abbrev pub is_switch : Statement → Bool
is_switch (switch_unlinked ts) = true
is_switch _ = false

replacement-Extends :
    (s : Statement) (v : ℕ) (c d : Cfg)
    → v < c.heap.next_vertex
    → Grows c d
    → d.heap.next_vertex ≡ c.heap.next_vertex
    → (is_decision_statement s ≡ true → Two d.heap v)
    → Extends v c (replacement s v d)
unfolding replacement new_vertex
replacement-Extends s v c d lt g same two = (
  Grows-trans c d _ g (Grows-new_vertex s (d.heap.vertex v).location d),
  same,
  omega (arith, same),
  (λ is.
      Two-Grows d _ v (omega (arith, lt, same)) (Grows-new_vertex s (d.heap.vertex v).location d)
        (two (ground (arith, is)))),
)

module _ (v : ℕ) (m : LabelMap) (c : Cfg) (lt : v < c.heap.next_vertex) where
  link_goto-Extends : (t : Option ℕ) → Extends v c (link_goto t v c)
  unfolding link_goto
  link_goto-Extends none = (Grows-refl c, refl)
  link_goto-Extends (some t) =
      replacement-Extends goto v c (add_new_edge v t fallthrough c) lt
        (Grows-add_new_edge v t fallthrough c) (vertex_count-add_new_edge v t fallthrough c)
        (λ p. cc)

  link_if-Extends : (t f : Option ℕ) (condition : String) → Extends v c (link_if t f condition v c)
  unfolding link_if
  link_if-Extends none f q = (Grows-refl c, refl)
  link_if-Extends (some t) none q = (Grows-refl c, refl)
  link_if-Extends (some t) (some f) q =
      let d = add_new_edge v t if_true c in
      let k = add_new_edge v f if_false d in
      let first = added_edge v t if_true c in
      let second = added_edge v f if_false d in
      replacement-Extends (if_statement q) v c k lt
        (Grows-trans c d k (Grows-add_new_edge v t if_true c) (Grows-add_new_edge v f if_false d))
        (vertex_count-add_new_edge v f if_false d ∙ vertex_count-add_new_edge v t if_true c)
        (λ p. (
          c.heap.next_edge,
          d.heap.next_edge,
          (λ same. omega (arith, same, first.1)),
          (Grows-add_new_edge v f if_false d).edges c.heap.next_edge v
              (omega (arith, lt, vertex_count-add_new_edge v t if_true c)) first.0,
          second.0,
        ))

  resolve_statement-Extends :
      (s : Statement) → is_switch s ≡ false → Extends v c (resolve_statement s v m c)
  unfolding resolve_statement resolve_goto resolve_return resolve_if
  resolve_statement-Extends (goto_unlinked t) p = link_goto-Extends (find_label t m)
  resolve_statement-Extends (return_unlinked r) p = link_goto-Extends (find_label "EXIT" m)
  resolve_statement-Extends (if_unlinked q t f) p =
      link_if-Extends (find_label t m) (find_label f m) q
  resolve_statement-Extends (switch_unlinked ts) p = cc
  resolve_statement-Extends _ p = (Grows-refl c, refl)

-- ResolveLinks of a statement that is no switch.
pub resolve_links-Extends :
    (v : ℕ) (m : LabelMap) (c : Cfg)
    → v < c.heap.next_vertex
    → is_switch (c.heap.vertex v).statement ≡ false
    → Extends v c (resolve_links v m c)
unfolding resolve_links
resolve_links-Extends v m c lt plain =
    resolve_statement-Extends v m c lt (c.heap.vertex v).statement plain
