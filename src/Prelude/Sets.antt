-- ===== src/Prelude/Sets.antt =====
-- The pointer sets of the program (`unordered_set<Vertex*>`, `unordered_set<Edge*>`): lists without
-- repetition, in the order of iteration. That order is unspecified in C++; here the newest stands
-- first.
use Prim.Native.Nat.{ℕ}
use mathlib.Core.Path.{◌≡◌, refl}
use mathlib.Core.Logic.{inl, inr}
use mathlib.Core.Bool.{Bool, false, not, ◌&&◌, ◌||◌}
use mathlib.Core.List.{List, [], ◌∷◌}
use native.Mathlib.Omega.{arith}
use coflo.Prelude.Tests.{◌==◌, if◌then◌else◌, Bool-cases}

abbrev pub contains : ℕ → List ℕ → Bool
contains a [] = false
contains a (x ∷ xs) = (x == a) || contains a xs

abbrev pub insert : ℕ → List ℕ → List ℕ
insert a xs = if contains a xs then xs else a ∷ xs

abbrev pub erase : ℕ → List ℕ → List ℕ
erase a [] = []
erase a (x ∷ xs) = if x == a then erase a xs else x ∷ erase a xs

pub contains-insert :
    (a b : ℕ) (xs : List ℕ) → contains a (insert b xs) ≡ ((b == a) || contains a xs)
contains-insert a b xs = elim (Bool-cases (contains b xs)) [
  | inl old ↦ rw old (elim (Bool-cases (b == a)) [ inl e ↦ ground arith | inr e ↦ ground arith ])
  | inr new ↦ rw new refl
]

pub contains-erase :
    (a b : ℕ) (xs : List ℕ) → contains a (erase b xs) ≡ (not (b == a) && contains a xs)
contains-erase a b [] = ground arith
contains-erase a b (x ∷ xs) = ground (arith, contains-erase a b xs)

pub eq-nil_of_contains : (xs : List ℕ) → ((a : ℕ) → contains a xs ≡ false) → xs ≡ []
eq-nil_of_contains [] h = refl
eq-nil_of_contains (x ∷ xs) h = ground (arith, h x)
