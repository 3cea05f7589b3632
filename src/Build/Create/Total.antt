-- ===== src/Build/Create/Total.antt =====
-- That the loops of Function::CreateControlFlowGraph return: src/Function.cpp.
use coflo.Prelude.{
  ℕ, ◌≤◌, ◌<◌, ◌≡◌, ◌≢◌, refl, ap, sym, subst, ◌∙◌, inl, inr, Bool, true, false, not, ◌&&◌, List,
  [], ◌∷◌, Option, none, some, arith, contains, Bool-cases, ◌==◌, if◌then◌else◌, All, All-map,
  ==_iff,
}
use coflo.Statement.{
  Statement, is_decision_statement, is_flow_control_unlinked, goto_unlinked, return_unlinked,
  if_unlinked, case_unlinked, switch_unlinked, if_statement, switch,
}
use coflo.Graph.{Cfg, replace_vertex}
use coflo.Graph.Links.{IsLinked}
use coflo.Graph.Counts.{vertex_count-replace_vertex}
use coflo.Graph.Replace.{replace_vertex-TakesOver, replace_vertex_kept}
use coflo.Build.Grows.{Two, Two-Grows, Decided, Decided-Grows}
use coflo.Build.Resolve.{LabelMap, resolve_links}
use coflo.Build.Resolve.Links.{Labels, Resolved, resolve_links-Resolved}
use coflo.Build.Resolve.Grows.{Extends, is_switch, resolve_links-Extends}
use coflo.Build.Create.{link_statement, link_statements}
use coflo.Build.Create.Links.{Labels-mono}

-- The members of the graph are allocated, and its decision statements have two out edges.
pub record IsWhole (c : Cfg) : Type 0 where
  pub links : IsLinked c.heap
  pub inside : (v : ℕ) → contains v c.graph.vertices ≡ true → v < c.heap.next_vertex
  pub decided : Decided c

-- An unlinked flow control statement that is no switch.
abbrev pub is_simple : Statement → Bool
is_simple s = is_flow_control_unlinked s && not (is_switch s)

simple_undecided : (s : Statement) → is_simple s ≡ true → is_decision_statement s ≡ false
simple_undecided (goto_unlinked t) p = refl
simple_undecided (return_unlinked t) p = refl
simple_undecided (if_unlinked q t f) p = refl
simple_undecided (case_unlinked t) p = refl
simple_undecided (switch_unlinked ts) p = cc
simple_undecided (if_statement q) p = cc
simple_undecided switch p = cc
simple_undecided _ p = refl

-- Between the steps of the linking loop from `c` to `d`: the vertices of `c` keep their statements.
pub record Linked (c d : Cfg) : Type 0 where
  pub whole : IsWhole d
  pub statements :
      (w : ℕ) → w < c.heap.next_vertex → (d.heap.vertex w).statement ≡ (c.heap.vertex w).statement
  pub grown : c.heap.next_vertex ≤ d.heap.next_vertex

-- A vertex that takes the place of a simple statement's.
module _ (vd new : ℕ) (c d : Cfg) (w : IsWhole c)
    (plain : is_decision_statement (c.heap.vertex vd).statement ≡ false)
    (lt : vd < c.heap.next_vertex) (e : Extends vd c (d, some new)) where
  same_edges :
      (v u : ℕ)
      → ((replace_vertex vd new d).0.heap.vertex v).out_edges ≡ (d.heap.vertex u).out_edges
      → Two d.heap u
      → Two (replace_vertex vd new d).0.heap v
  same_edges v u same (a, b, ne, p, q) =
      (a, b, ne, ap (contains a) same ∙ p, ap (contains b) same ∙ q)

  decided_elsewhere :
      (v : ℕ)
      → v < d.heap.next_vertex
      → v ≢ new
      → v ≢ vd
      → is_decision_statement (d.heap.vertex v).statement ≡ true
      → Two (replace_vertex vd new d).0.heap v
  decided_elsewhere v lt' ne ne' is =
      let (g, at, count, two) = e in
      let old : v < c.heap.next_vertex = omega (arith, lt', at, count, ne) in
      same_edges v v ((replace_vertex_kept vd new v d).1 ne' ne) (
        Two-Grows c d v old g
          (w.decided v old (sym (ap is_decision_statement (g.statements v old)) ∙ is)))

  Decided-replaced :
      ((replace_vertex vd new d).0.heap.vertex new).out_edges ≡ (d.heap.vertex vd).out_edges
      → Decided (replace_vertex vd new d).0
  Decided-replaced outs v lt' decides =
      let (g, at, count, two) = e in
      let is : is_decision_statement (d.heap.vertex v).statement ≡ true =
        sym (ap is_decision_statement (replace_vertex_kept vd new v d).0) ∙ decides in
      elim (Bool-cases (v == new)) [
        | inl here ↦ subst (Two (replace_vertex vd new d).0.heap) (sym ((==_iff v new).0 here)) (
            same_edges new vd outs (
              two (
                subst (λ x. is_decision_statement (d.heap.vertex x).statement ≡ true)
                  ((==_iff v new).0 here) is)))
        | inr other ↦ elim (Bool-cases (v == vd)) [
          | inl gone ↦
              let undecided = ap is_decision_statement (g.statements vd lt) ∙ plain in
              cc (
                subst (λ x. is_decision_statement (d.heap.vertex x).statement ≡ true)
                    ((==_iff v vd).0 gone) is,
                undecided,
              )
          | inr third ↦
              decided_elsewhere v (omega (arith, lt', vertex_count-replace_vertex vd new d))
                (λ q. ground (arith, other, q)) (λ q. ground (arith, third, q)) is
        ]
      ]

  replaced-Linked :
      Resolved vd c (d, some new)
      → ((replace_vertex vd new d).1 ≡ true) × Linked c (replace_vertex vd new d).0
  replaced-Linked (linked, grown, bare, ne, hn) =
      let (g, at, count, two) = e in
      let absent : contains new d.graph.vertices ≡ false =
        elim (Bool-cases (contains new d.graph.vertices)) [
          | inl old ↦
              absurd (omega (arith, at, w.inside new (sym (ap (contains new) g.members) ∙ old)))
          | inr absent ↦ absent
        ] in
      let (done, (links, outs, ins, left, members)) =
        replace_vertex-TakesOver vd new d linked bare ne hn absent in
      let counts = vertex_count-replace_vertex vd new d in
      (
        done,
        record {
          whole = record {
            links = links;
            inside = λ v h. elim (Bool-cases (new == v)) [
              | inl here ↦ omega (arith, hn, counts, (==_iff new v).0 here)
              | inr other ↦
                  let old : contains v d.graph.vertices ≡ true =
                    ground (arith, members v, h, other) in
                  omega (arith, w.inside v (sym (ap (contains v) g.members) ∙ old), counts, grown)
            ];
            decided = Decided-replaced outs;
          };
          statements = λ v lt'. (replace_vertex_kept vd new v d).0 ∙ g.statements v lt';
          grown = omega (arith, counts, grown);
        },
      )

-- The statements that wait for the linking loop.
abbrev pub Waiting : Cfg → List ℕ → Type 0
Waiting c vds =
    All (λ (v : ℕ). (v < c.heap.next_vertex) × (is_simple (c.heap.vertex v).statement ≡ true)) vds

Waiting-Linked : (c d : Cfg) (vds : List ℕ) → Linked c d → Waiting c vds → Waiting d vds
Waiting-Linked c d vds l w =
    All-map _ _ vds (λ v p. (omega (arith, p.0, l.grown), ap is_simple (l.statements v p.0) ∙ p.1))
      w

Linked-resolve_links :
    (vd : ℕ) (c : Cfg) (r : Cfg × Option ℕ)
    → vd < c.heap.next_vertex
    → IsWhole c
    → is_decision_statement (c.heap.vertex vd).statement ≡ false
    → Resolved vd c r
    → Extends vd c r
    → (d : Cfg) × ((elim r.1 [
      | none ↦ some r.0
      | some new ↦ let (c'', done) = replace_vertex vd new r.0 in if done then some c'' else none
    ])
        ≡ some d)
      × Linked c d
Linked-resolve_links vd c (d, none) lt w plain (linked, grown) (g, same) = (
  d,
  refl,
  record {
    whole = record {
      links = linked;
      inside = λ v h. omega (arith, same, w.inside v (sym (ap (contains v) g.members) ∙ h));
      decided = Decided-Grows c d g same w.decided;
    };
    statements = g.statements;
    grown = grown;
  },
)
Linked-resolve_links vd c (d, some new) lt w plain r e =
    let (done, linked) = replaced-Linked vd new c d w plain lt e r in
    ((replace_vertex vd new d).0, rw done refl, linked)

link_statement_total :
    (vd : ℕ) (m : LabelMap) (c : Cfg)
    → IsWhole c
    → vd < c.heap.next_vertex
    → is_simple (c.heap.vertex vd).statement ≡ true
    → Labels c.heap.next_vertex m
    → (d : Cfg) × (link_statement vd m c ≡ some d) × Linked c d
unfolding link_statement
link_statement_total vd m c w lt simple labels =
    Linked-resolve_links vd c (resolve_links vd m c) lt w
      (simple_undecided (c.heap.vertex vd).statement simple)
      (resolve_links-Resolved vd m c w.links lt labels)
      (resolve_links-Extends vd m c lt (ground (arith, simple)))

-- The linking loop returns.
pub link_statements_total :
    (vds : List ℕ) (m : LabelMap) (c : Cfg)
    → IsWhole c
    → Waiting c vds
    → Labels c.heap.next_vertex m
    → (d : Cfg) × (link_statements vds m c ≡ some d)
      × IsWhole d
      × (c.heap.next_vertex ≤ d.heap.next_vertex)
      × ((v : ℕ)
          → v < c.heap.next_vertex
          → (d.heap.vertex v).statement ≡ (c.heap.vertex v).statement)
unfolding link_statements
link_statements_total [] m c w waits labels = (c, refl, w, omega arith, λ v lt. refl)
link_statements_total (vd ∷ vds) m c w waits labels =
    let (d, step, l) = link_statement_total vd m c w waits.0.0 waits.0.1 labels in
    let (k, rest, all, grown, same) =
      link_statements_total vds m d l.whole (Waiting-Linked c d vds l waits.1)
        (Labels-mono c.heap.next_vertex d.heap.next_vertex m l.grown labels) in
    (
      k,
      rw (link_statements, step) rest,
      all,
      omega (arith, l.grown, grown),
      λ v lt. same v (omega (arith, lt, l.grown)) ∙ l.statements v lt,
    )
