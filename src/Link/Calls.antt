-- ===== src/Link/Calls.antt =====
-- The links of the shared heap under the loop of Function::Link over the calls that it collected
-- (src/Function.cpp).
use coflo.Prelude.{
  ℕ, ◌≤◌, ◌<◌, ◌≡◌, ◌≢◌, inl, inr, Bool, true, false, List, [], ◌∷◌, Option, none, some, arith,
  Option-cases, All, eq_of_some, subst,
}
use coflo.Statement.{EdgeType, function_call, return_edge}
use coflo.Graph.{Heap, Cfg, replace_vertex, add_new_edge}
use coflo.Graph.Links.{IsLinked, IsBare, add_new_edge-IsLinked, target-lt}
use coflo.Graph.Counts.{
  replace_vertex-IsLinked, vertex_count-add_new_edge, vertex_count-replace_vertex,
}
use coflo.Graph.Replace.{replace_vertex_others}
use coflo.Link.{
  Linker, Functions, Replacement, cfg_at, set_cfg, first_fallthrough, target_of, add_call_edges,
  replaced, link_call, link_calls,
}

-- The entry and exit vertices of the functions lie below `n`.
abbrev pub EndsBelow : ℕ → Functions → Type 0
EndsBelow n fs = (g : ℕ) → (fs.entry_vertex_desc g < n) × (fs.exit_vertex_desc g < n)

bare-add_new_edge :
    (u v w : ℕ) (t : EdgeType) (c : Cfg)
    → w ≢ u
    → w ≢ v
    → IsBare c.heap w
    → IsBare (add_new_edge u v t c).heap w
unfolding add_new_edge
bare-add_new_edge u v w t c hu hv bare = (ground arith, ground arith)

-- The end of an edge is not bare.
target-bare : (h : Heap) (e v w : ℕ) → IsLinked h → (h.edge e).target ≡ some v → IsBare h w → w ≢ v
target-bare h e v w linked t bare same = ground (arith, linked.in_links e v)

-- What a step of the loop keeps: consistent links, allocated vertices, and that the vertices that wait
-- for their turn have no edge.
abbrev Keeps : ℕ → ℕ → Heap → Heap → Type 0
Keeps n fcr h k =
    IsLinked k
    × (h.next_vertex ≤ k.next_vertex)
    × ((w : ℕ) → n ≤ w → w ≢ fcr → IsBare h w → IsBare k w)

module _ (fs : Functions) (n f : ℕ) (ends : EndsBelow n fs) where
  add_call_edges-Keeps :
      (g fcr behind e : ℕ) (s s' : Linker)
      → IsLinked s.heap
      → n ≤ s.heap.next_vertex
      → fcr < s.heap.next_vertex
      → (s.heap.edge e).target ≡ some behind
      → add_call_edges fs f g fcr (some behind) s ≡ some s'
      → Keeps n fcr s.heap s'.heap
  unfolding add_call_edges
  add_call_edges-Keeps g fcr behind e s s' linked hn hf t eq =
      let entry = fs.entry_vertex_desc g in
      let exit = fs.exit_vertex_desc g in
      let c = cfg_at f s in
      let s₁ = set_cfg f (add_new_edge fcr entry (function_call fcr g) c) s in
      let c₁ = cfg_at g s₁ in
      let count = vertex_count-add_new_edge fcr entry (function_call fcr g) c in
      let hb = target-lt s.heap e behind linked t in
      let linked₁ =
        add_new_edge-IsLinked c linked fcr entry (function_call fcr g) hf
          (omega (arith, (ends g).0)) in
      let linked₂ =
        add_new_edge-IsLinked c₁ linked₁ exit behind (return_edge fcr)
          (omega (arith, (ends g).1, count)) (omega (arith, count)) in
      subst (λ (x : Linker). Keeps n fcr s.heap x.heap) (eq_of_some eq)
        (
          linked₂,
          omega (arith, count, vertex_count-add_new_edge exit behind (return_edge fcr) c₁),
          λ w hw ne bare.
              bare-add_new_edge exit behind w (return_edge fcr) c₁ (λ q. omega (arith, (ends g).1))
                (target-bare s.heap e behind w linked t bare)
                (bare-add_new_edge fcr entry w (function_call fcr g) c ne
                  (λ q. omega (arith, (ends g).0)) bare),
        )

  target_of-edge :
      (h : Heap) (o : Option ℕ) (behind : ℕ)
      → target_of h o ≡ some behind
      → (e : ℕ) × ((h.edge e).target ≡ some behind)
  unfolding target_of
  target_of-edge h none behind eq = cc
  target_of-edge h (some e) behind eq = (e, eq)

  deleted-IsLinked :
      (v : ℕ) (h : Heap) → IsLinked h → IsLinked (record h { deleted = v ∷ h.deleted })
  deleted-IsLinked v h linked = record {
    out_links = linked.out_links;
    in_links = linked.in_links;
    paired = linked.paired;
    fresh_edge = linked.fresh_edge;
    fresh_vertex = linked.fresh_vertex;
  }

  replaced-Keeps :
      (p : Replacement) (c : Cfg) (done : Bool) (s s' : Linker)
      → IsLinked c.heap
      → n ≤ c.heap.next_vertex
      → p.new_vertex_desc < c.heap.next_vertex
      → replaced fs f p (c, done) s ≡ some s'
      → Keeps n p.new_vertex_desc c.heap s'.heap
  unfolding replaced add_call_edges
  replaced-Keeps p c false s s' linked hn hf eq = cc
  replaced-Keeps p c true s s' linked hn hf eq =
      let h = record (c.heap) { deleted = p.old_vertex ∷ c.heap.deleted } in
      let o = first_fallthrough h (h.vertex p.new_vertex_desc).out_edges in
      elim (Option-cases (target_of h o)) [
        | inl null ↦ cc (rw (null, add_call_edges) at eq)
        | inr (behind, found) ↦
            let (e, t) = target_of-edge h o behind found in
            add_call_edges-Keeps p.called_function p.new_vertex_desc behind e
              (set_cfg f (record c { heap = h }) s) s' (deleted-IsLinked p.old_vertex c.heap linked)
              hn hf t (rw (found, add_call_edges) at eq)
      ]

  -- A replacement that waits: the old vertex is one of the program's, the new one is bare.
  abbrev pub Waits : Heap → Replacement → Type 0
  Waits h p =
      (p.old_vertex < n)
      × (n ≤ p.new_vertex_desc)
      × (p.new_vertex_desc < h.next_vertex)
      × IsBare h p.new_vertex_desc

  link_call-Keeps :
      (p : Replacement) (s s' : Linker)
      → IsLinked s.heap
      → n ≤ s.heap.next_vertex
      → Waits s.heap p
      → link_call fs f p s ≡ some s'
      → Keeps n p.new_vertex_desc s.heap s'.heap
  unfolding link_call
  link_call-Keeps p s s' linked hn (ho, hnew, hlt, bare) eq =
      let r = replace_vertex p.old_vertex p.new_vertex_desc (cfg_at f s) in
      let count = vertex_count-replace_vertex p.old_vertex p.new_vertex_desc (cfg_at f s) in
      let linked' =
        replace_vertex-IsLinked p.old_vertex p.new_vertex_desc (cfg_at f s) linked bare
          (λ q. omega arith) hlt in
      let (all, grown, bares) =
        replaced-Keeps p r.0 r.1 s s' linked' (omega (arith, count)) (omega (arith, count)) eq in
      (
        all,
        omega (arith, count),
        λ w hw ne b. bares w hw ne (
            replace_vertex_others p.old_vertex p.new_vertex_desc w (cfg_at f s) (λ q. omega arith)
              ne b),
      )

  -- The replacements wait, and their new vertices differ.
  abbrev pub AllWait : Heap → List Replacement → Type 0
  AllWait h [] = Unit
  AllWait h (p ∷ ps) =
      Waits h p × All (λ (q : Replacement). q.new_vertex_desc ≢ p.new_vertex_desc) ps × AllWait h ps

  AllWait-mono :
      (fcr : ℕ) (h k : Heap) (ps : List Replacement)
      → Keeps n fcr h k
      → All (λ (q : Replacement). q.new_vertex_desc ≢ fcr) ps
      → AllWait h ps
      → AllWait k ps
  AllWait-mono fcr h k [] keeps ne w = tt
  AllWait-mono fcr h k (p ∷ ps) keeps ne ((ho, hnew, hlt, bare), d, rest) = (
    (ho, hnew, omega (arith, keeps.1), keeps.2 p.new_vertex_desc hnew ne.0 bare),
    d,
    AllWait-mono fcr h k ps keeps ne.1 rest,
  )

  pub link_calls-IsLinked :
      (ps : List Replacement) (s s' : Linker)
      → IsLinked s.heap
      → n ≤ s.heap.next_vertex
      → AllWait s.heap ps
      → link_calls fs f ps s ≡ some s'
      → IsLinked s'.heap × (n ≤ s'.heap.next_vertex)
  unfolding link_calls
  link_calls-IsLinked [] s s' linked hn w eq =
      subst (λ (x : Linker). IsLinked x.heap × (n ≤ x.heap.next_vertex)) (eq_of_some eq)
        (linked, hn)
  link_calls-IsLinked (p ∷ ps) s s' linked hn w eq = elim (Option-cases (link_call fs f p s)) [
    | inl thrown ↦ cc (rw (thrown, link_calls) at eq)
    | inr (s₁, done) ↦
        let keeps = link_call-Keeps p s s₁ linked hn w.0 done in
        link_calls-IsLinked ps s₁ s' keeps.0 (omega (arith, keeps.1))
          (AllWait-mono p.new_vertex_desc s.heap s₁.heap ps keeps w.1 w.2)
          (rw (done, link_calls) at eq)
  ]
