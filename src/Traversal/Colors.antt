-- ===== src/Traversal/Colors.antt =====
-- SparsePropertyMap as a map of colours: src/controlflowgraph/SparsePropertyMap.h.
use coflo.Prelude.{ℕ, ◌≡◌, [], ◌∷◌, none, some, arith, ◌==◌, if◌then◌else◌}
use coflo.Traversal.{
  Color, white, gray, black, ColorMap, find_entry, erase_entry, assign_entry, put, get,
}

find_entry-erase_entry :
    (v w : ℕ) (m : ColorMap)
    → find_entry w (erase_entry v m) ≡ (if v == w then none else find_entry w m)
find_entry-erase_entry v w [] = ground arith
find_entry-erase_entry v w ((u, x) ∷ m) = ground (arith, find_entry-erase_entry v w m)

pub find_entry-assign_entry :
    (v w : ℕ) (x : Color) (m : ColorMap)
    → find_entry w (assign_entry v x m) ≡ (if v == w then some x else find_entry w m)
find_entry-assign_entry v w x m = ground (arith, find_entry-erase_entry v w m)

-- A vertex whose colour was put has that colour, also where putting it erases the vertex's entry,
-- and every other vertex keeps its own; reading a colour, which may add an entry, changes no
-- vertex's colour.
pub get-put :
    (v w : ℕ) (x : Color) (m : ColorMap)
    → ((get w (put v x m)).0 ≡ (if v == w then x else (get w m).0))
      × ((get w (get v m).1).0 ≡ (get w m).0)
unfolding get put
get-put v w white m = (
  ground (arith, find_entry-erase_entry v w m),
  ground (arith, find_entry-assign_entry v w white m),
)
get-put v w gray m = (
  ground (arith, find_entry-assign_entry v w gray m),
  ground (arith, find_entry-assign_entry v w white m),
)
get-put v w black m = (
  ground (arith, find_entry-assign_entry v w black m),
  ground (arith, find_entry-assign_entry v w white m),
)
