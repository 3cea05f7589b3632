-- ===== src/Build/Redundant/Bypass.antt =====
-- The bypass of one vertex in RemoveRedundantNodes.
use coflo.Prelude.{
  ℕ, ◌≡◌, ◌≢◌, inl, inr, false, [], ◌∷◌, none, some, arith, ◌==◌, if◌then◌else◌, Option-cases,
  points_to, ==_iff, ◌∙◌,
}
use coflo.Graph.{Cfg, change_target, remove_edge}
use coflo.Graph.Links.{
  IsLinked, IsBare, IsBare_of_ends, change_target-IsLinked, remove_edge-IsLinked, target-lt,
}
use coflo.Graph.Ends.{change_target_ends, remove_edge-Cut}
use coflo.Build.Create.Links.{Holds}
use coflo.Build.Redundant.{bypass}

bypass_step :
    (i o t : ℕ) (c : Cfg)
    → (c.heap.edge o).target ≡ some t
    → bypass i o c ≡ remove_edge o (record c { heap = change_target i t c.heap })
unfolding bypass
bypass_step i o t c to = rw (to, bypass)

module _ (v i o : ℕ) (c : Cfg) (linked : IsLinked c.heap)
    (ins : (c.heap.vertex v).in_edges ≡ i ∷ []) (outs : (c.heap.vertex v).out_edges ≡ o ∷ []) where
  in_edge : (c.heap.edge i).target ≡ some v
  in_edge = ground (arith, linked.in_links i v)

  out_edge : (c.heap.edge o).source ≡ some v
  out_edge = ground (arith, linked.out_links o v)

  -- The edges after the bypass, when the out edge leads to `t`.
  pub record Bypassed (t : ℕ) (d : Cfg) : Type 0 where
    pub source :
        (x : ℕ) → (d.heap.edge x).source ≡ (if o == x then none else (c.heap.edge x).source)
    pub target :
        (x : ℕ)
        → (d.heap.edge x).target
          ≡ (if o == x then none else if i == x then some t else (c.heap.edge x).target)

  -- On consistent links, a vertex with one in edge and one out edge is bypassed without a fault:
  -- the in edge then leads to the target of the out edge, the out edge has no ends, every other
  -- edge keeps its ends, the links stay consistent, every allocated vertex stays allocated and the
  -- graph has the vertices it had.
  pub bypass-Bypassed :
      (t : ℕ)
      → (c.heap.edge o).target ≡ some t
      → (d : Cfg) × (bypass i o c ≡ some d)
        × Bypassed t d
        × Holds c.heap.next_vertex d
        × (d.graph.vertices ≡ c.graph.vertices)
  bypass-Bypassed t to =
      let (ht, _) = target-lt c.heap o t linked to in
      let (_, hi) = target-lt c.heap i v linked in_edge in
      let moved : Cfg = record c { heap = change_target i t c.heap } in
      let (s, g, n) = change_target_ends i t c.heap in
      let linked' : IsLinked moved.heap =
        change_target-IsLinked c linked i t hi ht (ground (arith, linked.paired i, in_edge)) in
      let to' : (moved.heap.edge o).target ≡ some t = ground (arith, g o) in
      let (d, removed, cut) = remove_edge-Cut o v t moved (s o ∙ out_edge) to' in
      let (s', g', n', vs) = cut in
      (
        d,
        bypass_step i o t c to ∙ removed,
        record { source = λ x. ground (arith, s x, s' x); target = λ x. ground (arith, g x, g' x) },
        ((remove_edge-IsLinked moved linked' o d removed).0, omega (arith, n, n')),
        vs,
      )

  -- The in edge and the out edge are one only where the vertex leads to itself.
  loops : (t : ℕ) → (c.heap.edge o).target ≡ some t → t ≡ v → i ≡ o
  loops t to same = ground (arith, linked.in_links o v, ==_iff i o)

  source_elsewhere : (x : ℕ) → o ≢ x → points_to (c.heap.edge x).source v ≡ false
  source_elsewhere x ne = ground (arith, linked.out_links x v)

  target_elsewhere : (x : ℕ) → i ≢ x → points_to (c.heap.edge x).target v ≡ false
  target_elsewhere x ne = ground (arith, linked.in_links x v)

  pub bypass-IsBare :
      (t : ℕ) (d : Cfg)
      → (c.heap.edge o).target ≡ some t
      → Bypassed t d
      → IsLinked d.heap
      → IsBare d.heap v
  bypass-IsBare t d to b linked' =
      IsBare_of_ends d.heap v linked' (λ x. ground (arith, b.source x, source_elsewhere x))
        (λ x. ground (arith, b.target x, target_elsewhere x, loops t to))

  -- A vertex that no edge touches stays so.
  pub bypass-IsBare_other :
      (t w : ℕ) (d : Cfg)
      → (c.heap.edge o).target ≡ some t
      → Bypassed t d
      → IsLinked d.heap
      → IsBare c.heap w
      → IsBare d.heap w
  bypass-IsBare_other t w d to b linked' bare =
      IsBare_of_ends d.heap w linked' (λ x. ground (arith, b.source x, linked.out_links x w))
        (λ x. ground (arith, b.target x, linked.in_links x w, linked.in_links o w))

  pub out_target : (t : ℕ) × ((c.heap.edge o).target ≡ some t)
  out_target = elim (Option-cases (c.heap.edge o).target) [
    | inl null ↦ absurd (ground (arith, linked.paired o, out_edge))
    | inr found ↦ found
  ]
