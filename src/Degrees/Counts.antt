-- ===== src/Degrees/Counts.antt =====
-- What filtered_in_degree counts.
use coflo.Prelude.{
  ℕ, suc, ◌≡◌, refl, ap, inl, inr, arith, not, ◌&&◌, Option, none, some, Bool, true, false, List,
  [], ◌∷◌, if◌then◌else◌, length, Bool-cases,
}
use coflo.Statement.{is_return, is_function_call_edge, is_decision_statement}
use coflo.Graph.{Heap}
use coflo.Degrees.{
  source_decides, is_skipped, count_in, filtered_in_degree, count_out, filtered_out_degree,
}

abbrev pub from_decision : Heap → Option ℕ → Bool
from_decision h none = false
from_decision h (some u) = is_decision_statement (h.vertex u).statement

-- No back edge, and from a decision statement, if that is asked.
abbrev pub is_kept : Heap → Bool → ℕ → Bool
is_kept h true e = not (h.edge e).is_back_edge && from_decision h (h.edge e).source
is_kept h false e = not (h.edge e).is_back_edge

abbrev pub kept : Heap → Bool → List ℕ → List ℕ
kept h only [] = []
kept h only (e ∷ es) = let rest = kept h only es in if is_kept h only e then e ∷ rest else rest

source_decides_lem : (h : Heap) (u : Option ℕ) → source_decides h u ≡ from_decision h u
unfolding source_decides
source_decides_lem h none = refl
source_decides_lem h (some u) = refl

is_skipped_lem : (h : Heap) (only : Bool) (e : ℕ) → is_skipped h only e ≡ not (is_kept h only e)
unfolding is_skipped
is_skipped_lem h true e = ground (arith, source_decides_lem h (h.edge e).source)
is_skipped_lem h false e = ground arith

-- The edges up to the first function call edge, that one included.
abbrev pub through_call : Heap → List ℕ → List ℕ
through_call h [] = []
through_call h (e ∷ es) =
    let rest = through_call h es in
    if is_function_call_edge (h.edge e).edge_type then e ∷ [] else e ∷ rest

abbrev pub not_returns : Heap → List ℕ → List ℕ
not_returns h [] = []
not_returns h (e ∷ es) =
    let rest = not_returns h es in if is_return (h.edge e).edge_type then rest else e ∷ rest

count_in-saw : (h : Heap) (only : Bool) (es : List ℕ) → count_in h only true es ≡ 0
unfolding count_in
count_in-saw h only [] = refl
count_in-saw h only (e ∷ es) =
    let t = (h.edge e).edge_type in
    elim (Bool-cases (is_kept h only e)) [
      | inr s ↦ rw (is_skipped_lem h only e, s) (count_in-saw h only es)
      | inl k ↦ elim (Bool-cases (is_return t)) [
        | inl r ↦ rw (is_skipped_lem h only e, k, r) (count_in-saw h only es)
        | inr o ↦ rw (is_skipped_lem h only e, k, o) (count_in-saw h only es)
      ]
    ]

count_in_lem :
    (h : Heap) (only : Bool) (es : List ℕ)
    → count_in h only false es ≡ length (not_returns h (through_call h (kept h only es)))
unfolding count_in
count_in_lem h only [] = refl
count_in_lem h only (e ∷ es) =
    let t = (h.edge e).edge_type in
    let none_after = count_in-saw h only es in
    elim (Bool-cases (is_kept h only e)) [
      | inr s ↦ rw (is_skipped_lem h only e, s) (count_in_lem h only es)
      | inl k ↦ elim (Bool-cases (is_return t)) [
        | inl r ↦ elim (Bool-cases (is_function_call_edge t)) [
          | inl c ↦ rw (is_skipped_lem h only e, k, c, r) none_after
          | inr d ↦ rw (is_skipped_lem h only e, k, d, r) (count_in_lem h only es)
        ]
        | inr o ↦ elim (Bool-cases (is_function_call_edge t)) [
          | inl c ↦ rw (is_skipped_lem h only e, k, c, o) (ap suc none_after)
          | inr d ↦ rw (is_skipped_lem h only e, k, d, o) (ap suc (count_in_lem h only es))
        ]
      ]
    ]

-- filtered_in_degree counts, of the in edges that are no back edges (and, if asked, come from
-- decision statements), those up to the first function call edge that are not return edges; the
-- edges behind that one do not count, whatever their kind.
pub filtered_in_degree_lem :
    (h : Heap) (v : ℕ) (only : Bool)
    → filtered_in_degree h v only
      ≡ length (not_returns h (through_call h (kept h only (h.vertex v).in_edges)))
unfolding filtered_in_degree
filtered_in_degree_lem h v only = count_in_lem h only (h.vertex v).in_edges

count_out_lem : (h : Heap) (es : List ℕ) → count_out h es ≡ length (kept h false es)
unfolding count_out is_skipped
count_out_lem h [] = refl
count_out_lem h (e ∷ es) = elim (Bool-cases (h.edge e).is_back_edge) [
  | inl b ↦ rw b (count_out_lem h es)
  | inr o ↦ rw o (ap suc (count_out_lem h es))
]

-- filtered_out_degree counts the out edges that filtered_in_degree would not skip among in edges.
filtered_out_degree_lem :
    (h : Heap) (v : ℕ) → filtered_out_degree h v ≡ length (kept h false (h.vertex v).out_edges)
unfolding filtered_out_degree
filtered_out_degree_lem h v = count_out_lem h (h.vertex v).out_edges
