-- ===== src/Build/BackEdges/Ascent.antt =====
-- The walk up the search tree in BackEdgeFixupVisitor::FindForwardTargetForBackEdge.
use coflo.Prelude.{
  ℕ, zero, suc, ◌<◌, ◌≡◌, ◌≢◌, refl, sym, subst, ◌⊎◌, inl, inr, [], ◌∷◌, none, some, arith, ◌==◌,
  Bool-cases, Option-cases, length,
}
use coflo.Statement.{is_decision_statement}
use coflo.Graph.{Heap}
use coflo.Build.BackEdges.{
  PredecessorMap, predecessor, out_of_fuel, find_different_out_edge, leave_by, way_out,
  find_forward_target,
}

-- A vertex of the tree: its root, or the key of an entry.
abbrev pub InTree : ℕ → PredecessorMap → ℕ → Type 0
InTree root m u = (u ≡ root) ⊎ ((e : ℕ) × (predecessor u m ≡ some e))

-- The predecessor map of a depth-first search, newest entry first: each vertex enters it once, by a
-- tree edge from a vertex that is in the tree already, and the root does not enter it.
abbrev pub IsTree : ℕ → Heap → PredecessorMap → Type 0
IsTree root h [] = Unit
IsTree root h ((v, e) ∷ m) =
    (v ≢ root)
    × (predecessor v m ≡ none)
    × (w : ℕ) × ((h.edge e).source ≡ some w)
    × InTree root m w
    × IsTree root h m

-- The entries of `m` are entries of `all`.
abbrev pub Agrees : PredecessorMap → PredecessorMap → Type 0
Agrees [] all = Unit
Agrees ((v, e) ∷ m) all = (predecessor v all ≡ some e) × Agrees m all

pub Agrees-cons :
    (k x : ℕ) (m all : PredecessorMap)
    → predecessor k m ≡ none
    → Agrees m all
    → Agrees m ((k, x) ∷ all)
unfolding predecessor
Agrees-cons k x [] all fresh a = tt
Agrees-cons k x ((v, e) ∷ m) all fresh a =
    (ground (arith, a.0), Agrees-cons k x m all (ground arith) a.1)

Agrees-self : (root : ℕ) (h : Heap) (m : PredecessorMap) → IsTree root h m → Agrees m m
unfolding predecessor
Agrees-self root h [] t = tt
Agrees-self root h ((v, e) ∷ m) (ne, fresh, w, s, inside, rest) =
    (ground arith, Agrees-cons v e m m fresh (Agrees-self root h m rest))

root_missing :
    (root : ℕ) (h : Heap) (m : PredecessorMap) → IsTree root h m → predecessor root m ≡ none
unfolding predecessor
root_missing root h [] t = refl
root_missing root h ((v, e) ∷ m) (ne, fresh, w, s, inside, rest) =
    ground (arith, root_missing root h m rest)

way_out_ends : (e : ℕ) (h : Heap) → way_out e h ≢ out_of_fuel
unfolding way_out leave_by
way_out_ends e h p = elim (Option-cases (find_different_out_edge e h)) [
  | inl n ↦ cc (rw (n, way_out) at p)
  | inr (o, q) ↦ elim (Option-cases (h.edge o).target) [
    | inl n ↦ cc (rw (q, n, way_out) at p)
    | inr (t, r) ↦ cc (rw (q, r, way_out) at p)
  ]
]

module _ (root v : ℕ) (h : Heap) (all : PredecessorMap) (bare : predecessor root all ≡ none) where
  abbrev Ends : ℕ → ℕ → Type 0
  Ends fuel u = find_forward_target fuel all h v u ≢ out_of_fuel

  at_root : (fuel u : ℕ) → u ≡ root → 0 < fuel → Ends fuel u
  unfolding find_forward_target
  at_root zero u e hf p = omega arith
  at_root (suc fuel) u e hf p =
      let here = subst (λ x. predecessor x all ≡ none) (sym e) bare in
      cc (rw (here, find_forward_target) at p)

  -- One round, from `u` to the source `w` of the tree edge into it.
  ascends_once :
      (fuel u e w : ℕ)
      → predecessor u all ≡ some e
      → (h.edge e).source ≡ some w
      → Ends fuel w
      → Ends (suc fuel) u
  unfolding find_forward_target
  ascends_once fuel u e w at_u s rest p =
      elim (Bool-cases (is_decision_statement (h.vertex w).statement)) [
        | inl d ↦ way_out_ends e h (rw (at_u, s, d, find_forward_target) at p)
        | inr d ↦ elim (Bool-cases (w == v)) [
          | inl q ↦ cc (rw (at_u, s, d, q, find_forward_target) at p)
          | inr q ↦ rest (rw (at_u, s, d, q, find_forward_target) at p)
        ]
      ]

  ascends :
      (m : PredecessorMap) (fuel u : ℕ)
      → IsTree root h m
      → Agrees m all
      → InTree root m u
      → length m < fuel
      → Ends fuel u
  unfolding predecessor
  ascends [] fuel u t a (inl e) hf = at_root fuel u e (omega arith)
  ascends [] fuel u t a (inr (e, p)) hf = cc
  ascends ((k, x) ∷ m) fuel u t a (inl e) hf = at_root fuel u e (omega arith)
  ascends ((k, x) ∷ m) zero u t a (inr (e, p)) hf = absurd (omega arith)
  ascends ((k, x) ∷ m) (suc fuel) u (ne, fresh, w, s, inside, rest) a (inr (e, p)) hf =
      elim (Bool-cases (k == u)) [
        | inl here ↦
            ascends_once fuel u x w (ground (arith, a.0)) s
              (ascends m fuel w rest a.1 inside (omega arith))
        | inr other ↦ ascends m (suc fuel) u rest a.1 (inr (e, ground arith)) (omega arith)
      ]

-- On the predecessor map of a depth-first search, the walk of FindForwardTargetForBackEdge from a
-- vertex of the search tree ends in at most one round more than the map has entries.
pub find_forward_target_ends :
    (root v u : ℕ) (h : Heap) (m : PredecessorMap)
    → IsTree root h m
    → InTree root m u
    → find_forward_target (suc (length m)) m h v u ≢ out_of_fuel
find_forward_target_ends root v u h m t inside =
    ascends root v h m (root_missing root h m t) m (suc (length m)) u t (Agrees-self root h m t)
      inside (omega arith)
