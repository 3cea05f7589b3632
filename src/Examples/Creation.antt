-- ===== src/Examples/Creation.antt =====
-- That CreateControlFlowGraph returns, and the texts that are read back, at concrete inputs.

use coflo.Prelude.{
  chars, ℕ, ◌≡◌, refl, sym, ◌∙◌, inl, inr, List, [], ◌∷◌, ◌++◌, map, Option, none, some, arith,
  if◌then◌else◌, ◌==◌, Bool-cases,
}
use coflo.Prelude.Int.{pos}
use coflo.Prelude.Decimal.{decimal}
use coflo.Statement.{unknown_location}
use coflo.Graph.{Heap, new_vertex}
use coflo.Graph.Links.{IsLinked}
use coflo.Topological.Order.{target_is}
use coflo.Build.Create.Total.{IsWhole}
use coflo.Build.BackEdges.{DfsEvent, tree_edge, back_edge, predecessor}
use coflo.Build.BackEdges.Total.{IsSearch}
use coflo.Build.Whole.{Built, create_control_flow_graph}
use coflo.Build.Whole.Start.{IsList}
use coflo.Build.Whole.Total.{IsCreation, create_control_flow_graph_total}
use coflo.Location.{as_gnu_compiler_message_location, location, located}
use coflo.Location.Texts.{location_text, location_at, location-location_text}
use coflo.Version.Text.{set_digits}
use coflo.Version.Text.Dotted.{dotted, value, set_digits-dotted}
use coflo.Examples.{program, program-IsLinked}

abbrev event : ℕ → ℕ → Option ℕ → List DfsEvent
event e v none = []
event e v (some w) = if w == v then back_edge e ∷ [] else tree_edge e ∷ []

abbrev events : Heap → ℕ → List ℕ → List DfsEvent
events h v [] = []
events h v (e ∷ es) = event e v (h.edge e).target

-- The first call that a search from `v` makes of the visitor.
abbrev pub first_event : Heap → ℕ → List DfsEvent
first_event h v = events h v (h.vertex v).out_edges

event-IsSearch :
    (h : Heap) (e v : ℕ) (t : Option ℕ)
    → (h.edge e).source ≡ some v
    → (h.edge e).target ≡ t
    → IsSearch h [] (event e v t)
unfolding predecessor
event-IsSearch h e v none from to = tt
event-IsSearch h e v (some w) from to = elim (Bool-cases (w == v)) [
  | inl same ↦ rw same (v, w, from, to, ground (arith, same), tt)
  | inr other ↦ rw other (w, to, refl, tt)
]

pub events-IsSearch :
    (h : Heap) (v : ℕ) (es : List ℕ)
    → IsLinked h
    → (h.vertex v).out_edges ≡ es
    → IsSearch h [] (events h v es)
events-IsSearch h v [] linked same = tt
events-IsSearch h v (e ∷ es) linked same =
    event-IsSearch h e v (h.edge e).target
      (target_is (h.edge e).source v (sym (linked.out_links e v) ∙ rw same (ground arith))) refl

pub program-IsWhole : IsWhole program
unfolding new_vertex
program-IsWhole = record {
  links = program-IsLinked;
  inside = λ v h. cc;
  decided = λ w lt is. absurd (ground (arith, lt, is));
}

program-IsList : IsList (0 ∷ 1 ∷ 2 ∷ []) program
unfolding new_vertex
program-IsList = record {
  below = (omega arith, (omega arith, (omega arith, tt)));
  distinct = (refl, (refl, (refl, tt)));
  fresh = λ v mem. (ground (arith, mem), refl, ground (arith, mem));
}

create_control_flow_graph_total_example :
    (b : Built) × (create_control_flow_graph first_event 7 unknown_location (0 ∷ 1 ∷ 2 ∷ []) program
      ≡ some b)
    × IsCreation program b
create_control_flow_graph_total_example =
    create_control_flow_graph_total first_event 7 unknown_location (0 ∷ 1 ∷ 2 ∷ []) program
      (λ h v linked. events-IsSearch h v (h.vertex v).out_edges linked refl) program-IsWhole
      program-IsList

location-location_text_example :
    location (location_text ("a" ∷ "." ∷ "c" ∷ []) 12 (some 3))
    ≡ located (location_at ("a" ∷ "." ∷ "c" ∷ []) 12 (some 3))
location-location_text_example =
    location-location_text ("a" ∷ "." ∷ "c" ∷ []) 12 (some 3) refl (omega arith) (omega arith)

set_digits-dotted_example :
    set_digits (dotted ("4" ∷ []) (("5" ∷ []) ∷ ("0" ∷ []) ∷ [])) (pos 4 ∷ pos 5 ∷ pos 0 ∷ [])
    ≡ some (
        (pos 4 ∷ pos 5 ∷ pos 0 ∷ []) ++ value ("4" ∷ []) ∷ map value (("5" ∷ []) ∷ ("0" ∷ []) ∷ []))
set_digits-dotted_example =
    set_digits-dotted ("4" ∷ []) (("5" ∷ []) ∷ ("0" ∷ []) ∷ []) (pos 4 ∷ pos 5 ∷ pos 0 ∷ [])
      (record { digits = refl; some_digit = cc; in_range = omega arith })
      (
        record { digits = refl; some_digit = cc; in_range = omega arith },
        (record { digits = refl; some_digit = cc; in_range = omega arith }, tt),
      )

prints_message_location :
    as_gnu_compiler_message_location (location_at (chars "a.c") 12 (some 3)) ≡ chars "a.c:12:3"
unfolding as_gnu_compiler_message_location decimal
prints_message_location = refl
