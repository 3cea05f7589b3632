-- ===== src/Visit/Reach.antt =====
-- What a depth-first visit may reach, and how much there is to visit: the terms in which the visit of
-- src/controlflowgraph/algorithms/depth_first_traversal.hpp is described.
use coflo.Prelude.{
  ℕ, zero, suc, ◌+◌, ◌≤◌, ◌<◌, ◌≡◌, refl, inl, inr, Bool, true, false, List, [], ◌∷◌, some, none,
  arith, contains, ◌==◌, if◌then◌else◌, length, Bool-cases,
}
use coflo.Graph.{Heap}
use coflo.Traversal.{Color, white, gray, black, ColorMap, find_entry, assign_entry}
use coflo.Traversal.Colors.{find_entry-assign_entry}
use coflo.Visit.{Visitor, ok, terminate_branch}

-- There is a path from `source` by edges that are not skipped.
pub data Reachable (h : Heap) (skips : ℕ → Bool) (source : ℕ) : ℕ → Type 0 where
  here : Reachable h skips source source
  along :
      {u v : ℕ} (e : ℕ)
      → Reachable h skips source u
      → contains e (h.vertex u).out_edges ≡ true
      → skips e ≡ false
      → (h.edge e).target ≡ some v
      → Reachable h skips source v

-- A visitor that only skips edges: it logs each vertex that it discovers, and follows every edge that
-- it does not skip, in the same colour context.
pub record IsPlain {W : Type 0} (vis : Visitor W) (skips : ℕ → Bool) (log : W → List ℕ)
    : Type 0 where
  pub discovers :
      (v : ℕ) (w : W) → (a : W) × (vis.discover_vertex v w ≡ (ok, a)) × (log a ≡ v ∷ log w)
  pub examines :
      (e : ℕ) (w : W)
      → (a : W) × (vis.examine_edge e w ≡ ((if skips e then terminate_branch else ok), a))
        × (log a ≡ log w)
  pub trees : (e : ℕ) (w : W) → (a : W) × (vis.tree_edge e w ≡ (ok, a)) × (log a ≡ log w)
  pub backs : (e : ℕ) (w : W) → log (vis.back_edge e w) ≡ log w
  pub crosses : (e : ℕ) (w : W) → log (vis.forward_or_cross_edge e w) ≡ log w
  pub finishes : (v : ℕ) (w : W) → log (vis.finish_vertex v w) ≡ log w

abbrev pub IsDistinct : List ℕ → Type 0
IsDistinct [] = Unit
IsDistinct (x ∷ xs) = (contains x xs ≡ false) × IsDistinct xs

-- Whether a vertex has a colour other than white.
abbrev is_colored : Color → Bool
is_colored white = false
is_colored gray = true
is_colored black = true

abbrev pub seen : ColorMap → ℕ → Bool
seen m v = elim (find_entry v m) [ none ↦ false | some x ↦ is_colored x ]

pub seen-assign_entry :
    (v w : ℕ) (x : Color) (m : ColorMap)
    → seen (assign_entry v x m) w ≡ (if v == w then is_colored x else seen m w)
seen-assign_entry v w x m =
    rw (seen, find_entry-assign_entry v w x m)
      (elim (Bool-cases (v == w)) [ inl e ↦ rw e refl | inr e ↦ rw e refl ])

-- The turns that the vertices below `n` outside the list are good for: one for each out edge, and one
-- for the end.
abbrev pub work : Heap → ℕ → List ℕ → ℕ
work h zero vs = 0
work h (suc n) vs = work h n vs + (if contains n vs then 0 else suc (length (h.vertex n).out_edges))

-- The turns left for the vertices in progress.
abbrev pub load : List (ℕ × List ℕ) → ℕ
load [] = 0
load ((v, es) ∷ ps) = suc (length es) + load ps

pub work-cons_above : (h : Heap) (n v : ℕ) (vs : List ℕ) → n ≤ v → work h n (v ∷ vs) ≡ work h n vs
work-cons_above h zero v vs le = refl
work-cons_above h (suc n) v vs le = ground (arith, work-cons_above h n v vs)

pub work-cons :
    (h : Heap) (n v : ℕ) (vs : List ℕ)
    → v < n
    → contains v vs ≡ false
    → work h n (v ∷ vs) + suc (length (h.vertex v).out_edges) ≡ work h n vs
work-cons h zero v vs lt new = absurd (omega arith)
work-cons h (suc n) v vs lt new = elim (Bool-cases (v == n)) [
  | inl e ↦ ground (arith, work-cons_above h n v vs, new)
  | inr e ↦ ground (arith, work-cons h n v vs)
]
