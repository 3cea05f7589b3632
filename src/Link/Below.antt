-- ===== src/Link/Below.antt =====
-- The vertices of the graphs under Function::Link: src/Function.cpp.
use coflo.Prelude.{
  ℕ, ◌+◌, ◌≤◌, ◌<◌, ◌≡◌, subst, Bool, true, false, String, List, [], ◌∷◌, Option, none, some, arith,
  eq_of_some, ◌==◌, inl, inr, All, All-map, All-concat, erase, contains, if_keeps, Option-cases,
  Bool-cases,
}
use coflo.Statement.{Statement, function_call_unresolved, function_call, return_edge}
use coflo.Graph.{
  Graph, Cfg, new_vertex, add_vertex, remove_vertex, replace_vertex, add_new_edge, add_edge,
  new_edge,
}
use coflo.Graph.Counts.{vertex_count-replace_vertex}
use coflo.Link.{
  Linker, Functions, Replacement, cfg_at, set_cfg, collect_call, collect_statement, collect,
  find_function, first_fallthrough, target_of, add_call_edges, replaced, link_call, link_calls,
  link,
}

-- The vertices of every graph are below `k`, and `k` is allocated.
abbrev pub AllBelow : ℕ → List ℕ → Type 0
AllBelow k vs = All (λ (v : ℕ). v < k) vs

abbrev pub GraphsBelow : ℕ → Linker → Type 0
GraphsBelow k s = ((g : ℕ) → AllBelow k (s.cfg_of g).vertices) × (k ≤ s.heap.next_vertex)

All-erase : (k a : ℕ) (vs : List ℕ) → AllBelow k vs → AllBelow k (erase a vs)
All-erase k a [] p = tt
All-erase k a (v ∷ vs) p =
    if_keeps (AllBelow k) (v == a) (erase a vs) (v ∷ erase a vs) (All-erase k a vs p.1)
      (p.0, All-erase k a vs p.1)

AllBelow-replace_vertex :
    (k old new : ℕ) (c : Cfg)
    → new < k
    → AllBelow k c.graph.vertices
    → AllBelow k (replace_vertex old new c).0.graph.vertices
unfolding replace_vertex add_vertex remove_vertex
AllBelow-replace_vertex k old new c lt p = elim (Bool-cases (contains new c.graph.vertices)) [
  | inl dup ↦ rw (replace_vertex, add_vertex, dup) p
  | inr fresh ↦
      rw (replace_vertex, add_vertex, fresh) (All-erase k old (new ∷ c.graph.vertices) (lt, p))
]

set_cfg-GraphsBelow :
    (k f : ℕ) (c : Cfg) (s : Linker)
    → AllBelow k c.graph.vertices
    → k ≤ c.heap.next_vertex
    → GraphsBelow k s
    → GraphsBelow k (set_cfg f c s)
set_cfg-GraphsBelow k f c s p le (below, le') = (
  λ g. if_keeps (λ (x : Graph). AllBelow k x.vertices) (f == g) c.graph (s.cfg_of g) p (below g),
  le,
)

module _ (fs : Functions) (f k : ℕ) where
  add_call_edges-GraphsBelow :
      (g fcr : ℕ) (b : Option ℕ) (s s' : Linker)
      → GraphsBelow k s
      → add_call_edges fs f g fcr b s ≡ some s'
      → GraphsBelow k s'
  unfolding add_call_edges add_new_edge add_edge new_edge
  add_call_edges-GraphsBelow g fcr none s s' x eq = cc
  add_call_edges-GraphsBelow g fcr (some behind) s s' x eq =
      let c = add_new_edge fcr (fs.entry_vertex_desc g) (function_call fcr g) (cfg_at f s) in
      let s₁ = set_cfg f c s in
      let y = set_cfg-GraphsBelow k f c s (x.0 f) x.1 x in
      subst (GraphsBelow k) (eq_of_some eq) (
        set_cfg-GraphsBelow k g
          (add_new_edge (fs.exit_vertex_desc g) behind (return_edge fcr) (cfg_at g s₁)) s₁ (y.0 g)
          y.1 y)

  replaced-GraphsBelow :
      (p : Replacement) (c : Cfg × Bool) (s s' : Linker)
      → GraphsBelow k s
      → AllBelow k c.0.graph.vertices
      → k ≤ c.0.heap.next_vertex
      → replaced fs f p c s ≡ some s'
      → GraphsBelow k s'
  unfolding replaced
  replaced-GraphsBelow p (c, false) s s' x below le eq = cc
  replaced-GraphsBelow p (c, true) s s' x below le eq =
      let h = record (c.heap) { deleted = p.old_vertex ∷ c.heap.deleted } in
      let s₁ = set_cfg f (record c { heap = h }) s in
      add_call_edges-GraphsBelow p.called_function p.new_vertex_desc
        (target_of h (first_fallthrough h (h.vertex p.new_vertex_desc).out_edges)) s₁ s'
        (set_cfg-GraphsBelow k f (record c { heap = h }) s below le x) eq

  link_call-GraphsBelow :
      (p : Replacement) (s s' : Linker)
      → p.new_vertex_desc < k
      → GraphsBelow k s
      → link_call fs f p s ≡ some s'
      → GraphsBelow k s'
  unfolding link_call
  link_call-GraphsBelow p s s' lt x eq =
      let c = replace_vertex p.old_vertex p.new_vertex_desc (cfg_at f s) in
      replaced-GraphsBelow p c s s' x
        (AllBelow-replace_vertex k p.old_vertex p.new_vertex_desc (cfg_at f s) lt (x.0 f))
        (ground
          (arith, vertex_count-replace_vertex p.old_vertex p.new_vertex_desc (cfg_at f s), x.1))
        eq

  link_calls-GraphsBelow :
      (ps : List Replacement) (s s' : Linker)
      → All (λ (q : Replacement). q.new_vertex_desc < k) ps
      → GraphsBelow k s
      → link_calls fs f ps s ≡ some s'
      → GraphsBelow k s'
  unfolding link_calls
  link_calls-GraphsBelow [] s s' lt x eq = subst (GraphsBelow k) (eq_of_some eq) x
  link_calls-GraphsBelow (p ∷ ps) s s' lt x eq = elim (Option-cases (link_call fs f p s)) [
    | inl thrown ↦ cc (rw (thrown, link_calls) at eq)
    | inr (s₁, done) ↦
        link_calls-GraphsBelow ps s₁ s' lt.1 (link_call-GraphsBelow p s s₁ lt.0 x done)
          (rw (done, link_calls) at eq)
  ]

-- What the loop over the vertices keeps: the vertices of every graph and the new vertices of the
-- replacements are allocated.
abbrev Fits : Linker × List Replacement → Type 0
Fits r =
    ((g : ℕ) → AllBelow r.0.heap.next_vertex (r.0.cfg_of g).vertices)
    × All (λ (q : Replacement). q.new_vertex_desc < r.0.heap.next_vertex) r.1

collect_call-Fits :
    (o : Option ℕ) (identifier params : String) (v : ℕ) (s : Linker) (info : List Replacement)
    → Fits (s, info)
    → Fits (collect_call o identifier params v (s, info))
unfolding collect_call new_vertex
collect_call-Fits none i params v s info x = x
collect_call-Fits (some g) i params v s info (below, new) =
    let n = s.heap.next_vertex in
    (
      λ g'.
          All-map (λ (w : ℕ). w < n) (λ (w : ℕ). w < n + 1) (s.cfg_of g').vertices
            (λ w lt. omega arith) (below g'),
      All-concat (λ (q : Replacement). q.new_vertex_desc < n + 1) info _
          (All-map (λ (q : Replacement). q.new_vertex_desc < n)
            (λ (q : Replacement). q.new_vertex_desc < n + 1) info (λ q lt. omega arith) new)
          (omega arith),
    )

collect_statement-Fits :
    (fs : Functions) (t : Statement) (v : ℕ) (r : Linker × List Replacement)
    → Fits r
    → Fits (collect_statement fs t v r)
unfolding collect_statement
collect_statement-Fits fs (function_call_unresolved i params) v r x =
    collect_call-Fits (find_function i fs.function_map) i params v r.0 r.1 x
collect_statement-Fits fs _ v r x = x

collect-Fits :
    (fs : Functions) (vs : List ℕ) (r : Linker × List Replacement) → Fits r → Fits (collect fs vs r)
unfolding collect
collect-Fits fs [] r x = x
collect-Fits fs (v ∷ vs) r x =
    collect-Fits fs vs (collect_statement fs (r.0.heap.vertex v).statement v r)
      (collect_statement-Fits fs (r.0.heap.vertex v).statement v r x)

-- A run of Link keeps the vertices of every graph allocated.
pub link-GraphsBelow :
    (fs : Functions) (f : ℕ) (s s' : Linker)
    → ((g : ℕ) → AllBelow s.heap.next_vertex (s.cfg_of g).vertices)
    → link fs f s ≡ some s'
    → (g : ℕ) → AllBelow s'.heap.next_vertex (s'.cfg_of g).vertices
unfolding link
link-GraphsBelow fs f s s' below eq g =
    let vs = (s.cfg_of f).vertices in
    let r = collect fs vs (s, []) in
    let fits = collect-Fits fs vs (s, []) (below, tt) in
    let k = r.0.heap.next_vertex in
    let (all, le) = link_calls-GraphsBelow fs f k r.1 r.0 s' fits.1 (fits.0, omega arith) eq in
    All-map (λ (w : ℕ). w < k) (λ (w : ℕ). w < s'.heap.next_vertex) (s'.cfg_of g).vertices
      (λ w lt. omega arith) (all g)
