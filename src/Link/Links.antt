-- ===== src/Link/Links.antt =====
-- The links of the shared heap under Function::Link (src/Function.cpp).
use coflo.Prelude.{
  ◌||◌, ◌∙◌, ap, map, refl, contains, ℕ, ◌≤◌, ◌<◌, ◌≡◌, ◌≢◌, String, List, [], ◌∷◌, ◌++◌, Option,
  none, some, arith, All, All-map, All-concat,
}
use coflo.Statement.{Statement, Location, function_call_unresolved, function_call_resolved}
use coflo.Graph.{Heap, new_vertex}
use coflo.Graph.Links.{IsLinked, IsBare}
use coflo.Graph.Counts.{new_vertex-IsLinked}
use coflo.Link.{
  Linker, Functions, Replacement, collect_call, collect_statement, collect, find_function, link,
}
use coflo.Link.Collect.{found, calls_of, collect_lem}
use coflo.Link.Deleted.{link_calls-deleted, collect-deleted}
use coflo.Link.Calls.{EndsBelow, Waits, AllWait, link_calls-IsLinked}

module _ (fs : Functions) (n f : ℕ) (ends : EndsBelow n fs) where
  All-concat_wait :
      (h : Heap) (ps : List Replacement) (p : Replacement)
      → AllWait fs n f ends h ps
      → All (λ (q : Replacement). q.new_vertex_desc < p.new_vertex_desc) ps
      → Waits fs n f ends h p
      → AllWait fs n f ends h (ps ++ p ∷ [])
  All-concat_wait h [] p w lt here = (here, tt, tt)
  All-concat_wait h (q ∷ ps) p w lt here = (
    w.0,
    All-concat (λ (x : Replacement). x.new_vertex_desc ≢ q.new_vertex_desc) ps p w.1
        (λ e. omega (arith, lt.0)),
    All-concat_wait h ps p w.2 lt.1 here,
  )

  AllWait-lt :
      (h : Heap) (ps : List Replacement)
      → AllWait fs n f ends h ps
      → All (λ (q : Replacement). q.new_vertex_desc < h.next_vertex) ps
  AllWait-lt h [] w = tt
  AllWait-lt h (q ∷ ps) w = (w.0.2, AllWait-lt h ps w.2)

  bare-new_vertex :
      (t : Statement) (l : Location) (h : Heap) (w : ℕ)
      → w < h.next_vertex
      → IsBare h w
      → IsBare (new_vertex t l h).1 w
  unfolding new_vertex
  bare-new_vertex t l h w lt bare = (ground arith, ground arith)

  AllWait-new_vertex :
      (t : Statement) (l : Location) (h : Heap) (ps : List Replacement)
      → IsLinked h
      → AllWait fs n f ends h ps
      → AllWait fs n f ends (new_vertex t l h).1 ps
  AllWait-new_vertex t l h [] linked w = tt
  AllWait-new_vertex t l h (q ∷ ps) linked ((ho, hnew, hlt, bare), d, rest) = (
    (
      ho,
      hnew,
      omega (arith, (new_vertex-IsLinked t l h linked).3),
      bare-new_vertex t l h q.new_vertex_desc hlt bare,
    ),
    d,
    AllWait-new_vertex t l h ps linked rest,
  )

  abbrev Collected : Linker × List Replacement → Type 0
  Collected r = IsLinked r.0.heap × (n ≤ r.0.heap.next_vertex) × AllWait fs n f ends r.0.heap r.1

  collect_call-Collected :
      (o : Option ℕ) (identifier params : String) (v : ℕ) (s : Linker) (info : List Replacement)
      → v < n
      → Collected (s, info)
      → Collected (collect_call o identifier params v (s, info))
  unfolding collect_call
  collect_call-Collected none i params v s info hv (linked, hn, w) = (linked, hn, w)
  collect_call-Collected (some g) i params v s info hv (linked, hn, w) =
      let t = function_call_resolved g params in
      let l = (s.heap.vertex v).location in
      let (all, bare, at, count) = new_vertex-IsLinked t l s.heap linked in
      (
        all,
        omega (arith, count),
        All-concat_wait (new_vertex t l s.heap).1 info
            (record {
              old_vertex = v;
              new_vertex_desc = (new_vertex t l s.heap).0;
              called_function = g;
            })
            (AllWait-new_vertex t l s.heap info linked w)
            (All-map (λ (q : Replacement). q.new_vertex_desc < s.heap.next_vertex)
              (λ (q : Replacement). q.new_vertex_desc < (new_vertex t l s.heap).0) info
              (λ q lt. omega arith) (AllWait-lt s.heap info w))
            (hv, omega arith, omega arith, bare),
      )

  collect_statement-Collected :
      (t : Statement) (v : ℕ) (r : Linker × List Replacement)
      → v < n
      → Collected r
      → Collected (collect_statement fs t v r)
  unfolding collect_statement
  collect_statement-Collected (function_call_unresolved i params) v r hv c =
      collect_call-Collected (find_function i fs.function_map) i params v r.0 r.1 hv c
  collect_statement-Collected _ v r hv c = c

  collect-Collected :
      (vs : List ℕ) (r : Linker × List Replacement)
      → All (λ (v : ℕ). v < n) vs
      → Collected r
      → Collected (collect fs vs r)
  unfolding collect
  collect-Collected [] r below c = c
  collect-Collected (v ∷ vs) r below c =
      collect-Collected vs (collect_statement fs (r.0.heap.vertex v).statement v r) below.1
        (collect_statement-Collected (r.0.heap.vertex v).statement v r below.0 c)

old_vertices :
    (ps : List Replacement)
    → map (λ (p : Replacement). p.old_vertex) ps ≡ map (λ (x : ℕ × ℕ). x.0) (calls_of ps)
old_vertices [] = refl
old_vertices (p ∷ ps) = ap (λ xs. p.old_vertex ∷ xs) (old_vertices ps)

-- On consistent links, if the function's vertices and the entry and exit vertices of all functions
-- are allocated, a run of Link that returns keeps the links consistent, in the graphs of the
-- caller and of the called functions, and the next free address of a vertex no lower; the vertices that
-- it deletes are the unresolved calls of the function whose function is in the map.
pub link-IsLinked :
    (fs : Functions) (f : ℕ) (s s' : Linker)
    → IsLinked s.heap
    → EndsBelow s.heap.next_vertex fs
    → All (λ (v : ℕ). v < s.heap.next_vertex) (s.cfg_of f).vertices
    → link fs f s ≡ some s'
    → IsLinked s'.heap
      × (s.heap.next_vertex ≤ s'.heap.next_vertex)
      × ((v : ℕ)
          → contains v s'.heap.deleted ≡ (
              contains v (map (λ (x : ℕ × ℕ). x.0) (found fs s.heap (s.cfg_of f).vertices))
              || contains v s.heap.deleted))
unfolding link
link-IsLinked fs f s s' linked ends below eq =
    let n = s.heap.next_vertex in
    let (all, hn, w) =
      collect-Collected fs n f ends (s.cfg_of f).vertices (s, []) below (linked, omega arith, tt) in
    let r = collect fs (s.cfg_of f).vertices (s, []) in
    let (linked', grown) = link_calls-IsLinked fs n f ends r.1 r.0 s' all hn w eq in
    let (_, calls, _, _) = collect_lem fs (s.cfg_of f).vertices s below in
    (
      linked',
      grown,
      λ v.
          link_calls-deleted fs f r.1 r.0 s' v eq
          ∙ ap (λ ds. contains v (map (λ (p : Replacement). p.old_vertex) r.1) || contains v ds)
              (collect-deleted fs (s.cfg_of f).vertices (s, []))
          ∙ ap (λ xs. contains v xs || contains v s.heap.deleted)
              (old_vertices r.1 ∙ ap (λ xs. map (λ (x : ℕ × ℕ). x.0) xs) calls),
    )
