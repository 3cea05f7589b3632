-- ===== src/Link/Collect.antt =====
-- The first loop of Function::Link (src/Function.cpp) and the function map.
use coflo.Prelude.{
  ℕ, ◌≤◌, ◌<◌, ◌≡◌, refl, ap, sym, ◌∙◌, String, List, [], ◌∷◌, ◌++◌, map, Option, none, some, arith,
  All, All-map, All-concat, subst,
}
use mathlib.Core.List.{map-append, append_assoc, append-nil}
use coflo.Statement.{Statement, Location, function_call_unresolved, function_call_resolved}
use coflo.Graph.{Heap, Vertex, new_vertex}
use coflo.Link.{
  Linker, Functions, Replacement, find_function, collect_call, collect_statement, collect,
}

-- The calls whose function is not in the map, and those whose function is, with the function.
abbrev missing_call : Option ℕ → String → ℕ → List (String × ℕ)
missing_call none i v = (i, v) ∷ []
missing_call (some f) i v = []

abbrev missing_at : Functions → Statement → ℕ → List (String × ℕ)
missing_at fs (function_call_unresolved i params) v =
    missing_call (find_function i fs.function_map) i v
missing_at fs _ v = []

abbrev pub missing : Functions → Heap → List ℕ → List (String × ℕ)
missing fs h [] = []
missing fs h (v ∷ vs) = missing_at fs (h.vertex v).statement v ++ missing fs h vs

abbrev found_call : Option ℕ → ℕ → List (ℕ × ℕ)
found_call none v = []
found_call (some f) v = (v, f) ∷ []

abbrev found_at : Functions → Statement → ℕ → List (ℕ × ℕ)
found_at fs (function_call_unresolved i params) v = found_call (find_function i fs.function_map) v
found_at fs _ v = []

abbrev pub found : Functions → Heap → List ℕ → List (ℕ × ℕ)
found fs h [] = []
found fs h (v ∷ vs) = found_at fs (h.vertex v).statement v ++ found fs h vs

abbrev pub calls_of : List Replacement → List (ℕ × ℕ)
calls_of = map (λ (p : Replacement). (p.old_vertex, p.called_function))

-- The new vertex of a replacement is a call, with the parameters and at the location of the old one in
-- `h`, of the function that the map has for the old one.
abbrev pub IsCall : Functions → Heap → Heap → Replacement → Type 0
IsCall fs h k p =
    (i : String) × (params : String) × ((h.vertex p.old_vertex).statement
      ≡ function_call_unresolved i params)
    × (find_function i fs.function_map ≡ some p.called_function)
    × ((k.vertex p.new_vertex_desc).statement ≡ function_call_resolved p.called_function params)
    × ((k.vertex p.new_vertex_desc).location ≡ (h.vertex p.old_vertex).location)

-- The vertices below `n` are those of `h`.
abbrev SameBelow : ℕ → Heap → Heap → Type 0
SameBelow n h k = (n ≤ k.next_vertex) × ((w : ℕ) → w < n → k.vertex w ≡ h.vertex w)

module _ (fs : Functions) (n : ℕ) (h : Heap) where
  -- The replacements that are scheduled.
  abbrev AreCalls : Linker × List Replacement → Type 0
  AreCalls r =
      All (λ (p : Replacement). (p.new_vertex_desc < r.0.heap.next_vertex) × IsCall fs h r.0.heap p)
        r.1

  IsCall-new_vertex :
      (t : Statement) (l : Location) (k : Heap) (p : Replacement)
      → (p.new_vertex_desc < k.next_vertex) × IsCall fs h k p
      → (p.new_vertex_desc < (new_vertex t l k).1.next_vertex) × IsCall fs h (new_vertex t l k).1 p
  unfolding new_vertex
  IsCall-new_vertex t l k p (lt, (i, params, old, look, s, at)) =
      (omega (arith, lt), (i, params, old, look, ground (arith, lt, s), ground (arith, lt, at)))

  -- What one round adds.
  abbrev Adds :
      List (String × ℕ)
      → List (ℕ × ℕ)
      → Linker × List Replacement
      → Linker × List Replacement
      → Type 0
  Adds ms cs r q =
      SameBelow n h q.0.heap
      × (q.0.unresolved_function_calls ≡ r.0.unresolved_function_calls ++ ms)
      × (calls_of q.1 ≡ calls_of r.1 ++ cs)
      × (AreCalls r → AreCalls q)

  collect_call-Adds :
      (o : Option ℕ) (i params : String) (v : ℕ) (r : Linker × List Replacement)
      → v < n
      → (h.vertex v).statement ≡ function_call_unresolved i params
      → find_function i fs.function_map ≡ o
      → SameBelow n h r.0.heap
      → Adds (missing_call o i v) (found_call o v) r (collect_call o i params v r)
  unfolding collect_call new_vertex
  collect_call-Adds none i params v (s, info) lt is look same =
      (same, refl, sym (append-nil (calls_of info)), λ calls. calls)
  collect_call-Adds (some f) i params v (s, info) lt is look same =
      let t = function_call_resolved f params in
      let l = (s.heap.vertex v).location in
      (
        (omega (arith, same.0), λ w lt. ground (arith, same.0, same.1 w lt)),
        sym (append-nil s.unresolved_function_calls),
        map-append _ info _,
        λ calls.
            All-concat
              (λ (p : Replacement).
                (p.new_vertex_desc < (new_vertex t l s.heap).1.next_vertex)
                × IsCall fs h (new_vertex t l s.heap).1 p)
              info _ (All-map _ _ info (λ p. IsCall-new_vertex t l s.heap p) calls)
              (
                omega arith,
                (
                  i,
                  params,
                  is,
                  look,
                  ground arith,
                  ground (arith, ap (λ (x : Vertex). x.location) (same.1 v lt)),
                ),
              ),
      )

  collect_statement-Adds :
      (t : Statement) (v : ℕ) (r : Linker × List Replacement)
      → v < n
      → (h.vertex v).statement ≡ t
      → SameBelow n h r.0.heap
      → Adds (missing_at fs t v) (found_at fs t v) r (collect_statement fs t v r)
  unfolding collect_statement
  collect_statement-Adds (function_call_unresolved i params) v r lt is same =
      collect_call-Adds (find_function i fs.function_map) i params v r lt is refl same
  collect_statement-Adds _ v r lt is same = (
    same,
    sym (append-nil r.0.unresolved_function_calls),
    sym (append-nil (calls_of r.1)),
    λ calls. calls,
  )

  collect-Adds :
      (vs : List ℕ) (r : Linker × List Replacement)
      → All (λ (v : ℕ). v < n) vs
      → SameBelow n h r.0.heap
      → Adds (missing fs h vs) (found fs h vs) r (collect fs vs r)
  unfolding collect
  collect-Adds [] r below same = (
    same,
    sym (append-nil r.0.unresolved_function_calls),
    sym (append-nil (calls_of r.1)),
    λ calls. calls,
  )
  collect-Adds (v ∷ vs) r below same =
      let t = (r.0.heap.vertex v).statement in
      let q = collect_statement fs t v r in
      let is : t ≡ (h.vertex v).statement = ap (λ (x : Vertex). x.statement) (same.1 v below.0) in
      let (same', ms, cs, calls) =
        subst (λ (x : Statement). Adds (missing_at fs x v) (found_at fs x v) r q) is
          (collect_statement-Adds t v r below.0 (sym is) same) in
      let (kept, ms', cs', calls') = collect-Adds vs q below.1 same' in
      (
        kept,
        ms'
            ∙ ap (λ l. l ++ missing fs h vs) ms
            ∙ append_assoc r.0.unresolved_function_calls (missing_at fs (h.vertex v).statement v)
                (missing fs h vs),
        cs'
            ∙ ap (λ l. l ++ found fs h vs) cs
            ∙ append_assoc (calls_of r.1) (found_at fs (h.vertex v).statement v) (found fs h vs),
        λ before. calls' (calls before),
      )

-- If the vertices are allocated, Link's loop over them adds to the unresolved calls exactly those
-- whose function is not in the map, and schedules a replacement for exactly the others, both in the order
-- of the vertices. The new vertex of each replacement is a call of the function that the map has, with the
-- parameters and the location of the old one; the loop leaves every allocated vertex as it is.
pub collect_lem :
    (fs : Functions) (vs : List ℕ) (s : Linker)
    → All (λ (v : ℕ). v < s.heap.next_vertex) vs
    → ((collect fs vs (s, [])).0.unresolved_function_calls
        ≡ s.unresolved_function_calls ++ missing fs s.heap vs)
      × (calls_of (collect fs vs (s, [])).1 ≡ found fs s.heap vs)
      × All (IsCall fs s.heap (collect fs vs (s, [])).0.heap) (collect fs vs (s, [])).1
      × ((w : ℕ)
          → w < s.heap.next_vertex
          → (collect fs vs (s, [])).0.heap.vertex w ≡ s.heap.vertex w)
collect_lem fs vs s below =
    let (kept, ms, cs, calls) =
      collect-Adds fs s.heap.next_vertex s.heap vs (s, []) below (omega arith, λ w lt. refl) in
    (ms, cs, All-map _ _ (collect fs vs (s, [])).1 (λ p x. x.1) (calls tt), kept.1)
