-- ===== src/Topological/Remaining.antt =====
-- The in edges that a topological visit has still to remove, and its map of counts:
-- src/controlflowgraph/algorithms/topological_visit_kahn.h and src/controlflowgraph/SparsePropertyMap.h.
use coflo.Prelude.{
  ℕ, suc, ◌≡◌, ◌≢◌, ◌⊎◌, inl, inr, refl, ap, sym, Bool, true, false, ◌||◌, List, [], ◌∷◌, Option,
  none, some, arith, if◌then◌else◌, ◌==◌, contains, Bool-cases, Option-cases,
}
use coflo.Prelude.Int.{ℤ, pos, eqb_ℤ}
use coflo.Visit.Reach.{IsDistinct}
use coflo.Topological.{InDegreeMap, find_count, erase_count, put_count, get_count}

-- How many of the edges are neither skipped nor removed.
abbrev pub remaining : (ℕ → Bool) → List ℕ → List ℕ → ℕ
remaining skips rs [] = 0
remaining skips rs (e ∷ es) =
    let rest = remaining skips rs es in if skips e || contains e rs then rest else suc rest

module _ (skips : ℕ → Bool) where
  pub remaining_other :
      (rs es : List ℕ) (e : ℕ)
      → contains e es ≡ false
      → remaining skips (e ∷ rs) es ≡ remaining skips rs es
  remaining_other rs [] e out = refl
  remaining_other rs (x ∷ es) e out = ground (arith, remaining_other rs es e)

  -- Removing an edge leaves one less.
  pub remaining-cons :
      (rs es : List ℕ) (e : ℕ)
      → IsDistinct es
      → contains e es ≡ true
      → skips e ≡ false
      → contains e rs ≡ false
      → remaining skips rs es ≡ suc (remaining skips (e ∷ rs) es)
  remaining-cons rs [] e distinct in_es live new = cc
  remaining-cons rs (x ∷ es) e distinct in_es live new = elim (Bool-cases (x == e)) [
    | inl same ↦ ground (arith, remaining_other rs es e, distinct.0, live, new, same)
    | inr other ↦ ground (arith, remaining-cons rs es e distinct.1 (ground (arith, in_es)) live new)
  ]

  pub removed_of_none :
      (rs es : List ℕ) (e : ℕ)
      → remaining skips rs es ≡ 0
      → contains e es ≡ true
      → skips e ≡ false
      → contains e rs ≡ true
  removed_of_none rs [] e zero_left in_es live = cc
  removed_of_none rs (x ∷ es) e zero_left in_es live = ground (arith, removed_of_none rs es e)

-- An entry is the count of the edges that remain, if any; without an entry, all remain or none.
abbrev pub Counts : ℕ → ℕ → Option ℤ → Type 0
Counts all left none = (left ≡ all) ⊎ (left ≡ 0)
Counts all left (some x) = (x ≡ pos left) × (left ≢ 0)

find_count-erase_count :
    (v w : ℕ) (m : InDegreeMap)
    → find_count w (erase_count v m) ≡ (if v == w then none else find_count w m)
find_count-erase_count v w [] = ground arith
find_count-erase_count v w ((u, x) ∷ m) = ground (arith, find_count-erase_count v w m)

-- The count that is read for a vertex with remaining edges.
pub get_count-pos :
    (in_degree : ℕ → ℕ) (v left : ℕ) (m : InDegreeMap)
    → Counts (in_degree v) left (find_count v m)
    → left ≢ 0
    → (get_count in_degree v m).0 ≡ pos left
unfolding get_count
get_count-pos in_degree v left m c some_left = elim (Option-cases (find_count v m)) [
  | inl null ↦ elim (rw null at c) [
    | inl all ↦ rw (get_count, null) (ap pos (sym all))
    | inr zero_left ↦ absurd (some_left zero_left)
  ]
  | inr (x, is) ↦ rw (get_count, is) (rw is at c).0
]

put_lem :
    (v w : ℕ) (x : ℤ) (k m : InDegreeMap)
    → (if v == w then find_count w m else find_count w k)
      ≡ (if v == w then find_count w m else find_count w m)
    → find_count w (put_count v x k)
      ≡ (if v == w then (if eqb_ℤ x (pos 0) then none else some x) else find_count w m)
unfolding put_count
put_lem v w x k m same = elim (Bool-cases (eqb_ℤ x (pos 0))) [
  | inl gone ↦ rw (put_count, gone) (ground (arith, same, find_count-erase_count v w k))
  | inr stays ↦ rw (put_count, stays) (ground (arith, same, find_count-erase_count v w k))
]

-- After the count of `v` is read and written, it is the new one, and the others are as they were.
pub find_count-put_count :
    (in_degree : ℕ → ℕ) (v w : ℕ) (x : ℤ) (m : InDegreeMap)
    → find_count w (put_count v x (get_count in_degree v m).1)
      ≡ (if v == w then (if eqb_ℤ x (pos 0) then none else some x) else find_count w m)
unfolding put_count get_count
find_count-put_count in_degree v w x m = elim (Option-cases (find_count v m)) [
  | inl null ↦
      let entry : InDegreeMap = (v, pos (in_degree v)) ∷ erase_count v m in
      rw (get_count, null) (put_lem v w x entry m (ground (arith, find_count-erase_count v w m)))
  | inr (y, is) ↦ rw (get_count, is) (put_lem v w x m m (ground arith))
]
