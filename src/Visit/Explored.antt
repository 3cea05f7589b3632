-- ===== src/Visit/Explored.antt =====
-- The invariant of a depth-first visit (src/controlflowgraph/algorithms/depth_first_traversal.hpp) with
-- one colour map: `vs` are the vertices discovered so far, `m` the colour map, `ps` the contexts in
-- progress, the current one first.
use coflo.Prelude.{
  ℕ, ◌<◌, ◌≡◌, inl, inr, Bool, true, false, List, [], ◌∷◌, some, arith, contains, ◌==◌, ◌||◌,
  Bool-cases, Option-cases, sym, ◌∙◌, subst,
}
use coflo.Graph.{Heap}
use coflo.Graph.Links.{IsLinked}
use coflo.Traversal.{gray, black, ColorMap, assign_entry}
use coflo.Visit.Reach.{Reachable, along, IsDistinct, seen, seen-assign_entry}

-- A vertex has a context.
abbrev owned : ℕ → List (ℕ × List ℕ) → Bool
owned v [] = false
owned v ((u, es) ∷ ps) = (u == v) || owned v ps

-- An edge is yet to be examined.
abbrev pending : ℕ → List (ℕ × List ℕ) → Bool
pending e [] = false
pending e ((u, es) ∷ ps) = contains e es || pending e ps

module _ (h : Heap) (skips : ℕ → Bool) (source : ℕ) where
  pub record Explored (vs : List ℕ) (m : ColorMap) (ps : List (ℕ × List ℕ)) : Type 0 where
    pub coloring : (v : ℕ) → contains v vs ≡ seen m v
    pub distinct : IsDistinct vs
    pub reached : (v : ℕ) → contains v vs ≡ true → Reachable h skips source v
    pub inside : (v : ℕ) → contains v vs ≡ true → v < h.next_vertex
    pub begun : (v : ℕ) → owned v ps ≡ true → contains v vs ≡ true
    pub started : contains source vs ≡ true
    pub ahead :
        (e : ℕ)
        → pending e ps ≡ true
        → (u : ℕ) × (contains u vs ≡ true) × (contains e (h.vertex u).out_edges ≡ true)
    pub covered :
        (e u v : ℕ)
        → contains u vs ≡ true
        → contains e (h.vertex u).out_edges ≡ true
        → skips e ≡ false
        → (h.edge e).target ≡ some v
        → (contains v vs || pending e ps) ≡ true

  module _ (linked : IsLinked h) where
    -- An out edge of a vertex leads to an allocated vertex.
    pub edge_target :
        (e u : ℕ)
        → contains e (h.vertex u).out_edges ≡ true
        → (v : ℕ) × ((h.edge e).target ≡ some v) × (v < h.next_vertex)
    edge_target e u p = elim (Option-cases (h.edge e).target) [
      | inl null ↦ absurd (ground (arith, linked.out_links e u, linked.paired e))
      | inr (v, is) ↦ (v, is, ground (arith, linked.in_links e v, linked.fresh_vertex v))
    ]

  module _ (vs : List ℕ) (m : ColorMap) (ps : List (ℕ × List ℕ)) where
    pub Explored-recolored :
        (m' : ColorMap) → ((v : ℕ) → seen m' v ≡ seen m v) → Explored vs m ps → Explored vs m' ps
    Explored-recolored m' same x = record {
      coloring = λ v. x.coloring v ∙ sym (same v);
      distinct = x.distinct;
      reached = x.reached;
      inside = x.inside;
      begun = x.begun;
      started = x.started;
      ahead = x.ahead;
      covered = x.covered;
    }

    -- The edge in turn is skipped, or leads to a vertex that was discovered before.
    pub Explored-passed :
        (u e : ℕ) (es : List ℕ)
        → ((v : ℕ) → skips e ≡ false → (h.edge e).target ≡ some v → contains v vs ≡ true)
        → Explored vs m ((u, e ∷ es) ∷ ps)
        → Explored vs m ((u, es) ∷ ps)
    Explored-passed u e es done x = record {
      coloring = x.coloring;
      distinct = x.distinct;
      reached = x.reached;
      inside = x.inside;
      begun = x.begun;
      started = x.started;
      ahead = λ e' p. x.ahead e' (ground (arith, p));
      covered = λ e' u' v p q r t. ground (arith, x.covered e' u' v p q r t, done v);
    }

    -- The end of a vertex.
    pub Explored-finished :
        (u : ℕ) → Explored vs m ((u, []) ∷ ps) → Explored vs (assign_entry u black m) ps
    Explored-finished u x = record {
      coloring = λ v. rw (seen-assign_entry u v black m) (ground (arith, x.coloring v, x.begun u));
      distinct = x.distinct;
      reached = x.reached;
      inside = x.inside;
      begun = λ v p. x.begun v (ground (arith, p));
      started = x.started;
      ahead = x.ahead;
      covered = x.covered;
    }

    -- The edge in turn leads to a new vertex.
    pub Explored-discovered :
        IsLinked h
        → (u e v : ℕ) (es : List ℕ) → skips e ≡ false
        → (h.edge e).target ≡ some v
        → contains v vs ≡ false
        → Explored vs m ((u, e ∷ es) ∷ ps)
        → Explored (v ∷ vs) (assign_entry v gray m) ((v, (h.vertex v).out_edges) ∷ (u, es) ∷ ps)
    Explored-discovered linked u e v es live to new x =
        let (u', known, out) = x.ahead e (ground arith) in
        let (t, is, old) = edge_target linked e u' out in
        record {
          coloring = λ w. rw (seen-assign_entry v w gray m) (ground (arith, x.coloring w));
          distinct = (new, x.distinct);
          reached = λ w p. elim (Bool-cases (v == w)) [
            | inl same ↦
                subst (Reachable h skips source) (ground arith)
                  (along e (x.reached u' known) out live to)
            | inr other ↦ x.reached w (ground (arith, p))
          ];
          inside = λ w p. elim (Bool-cases (v == w)) [
            | inl same ↦ ground (arith, is, to)
            | inr other ↦ x.inside w (ground (arith, p))
          ];
          begun = λ w p. ground (arith, x.begun w);
          started = ground (arith, x.started);
          ahead = λ e' p. elim (Bool-cases (contains e' (h.vertex v).out_edges)) [
            | inl own ↦ (v, ground arith, own)
            | inr old ↦
                let (a, p', q) = x.ahead e' (ground (arith, p)) in (a, ground (arith, p'), q)
          ];
          covered = λ e' a b p q r s. elim (Bool-cases (v == a)) [
            | inl same ↦ ground (arith, q)
            | inr other ↦ ground (arith, x.covered e' a b (ground (arith, p)) q r s)
          ];
        }
