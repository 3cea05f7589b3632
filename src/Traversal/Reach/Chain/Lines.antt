-- ===== src/Traversal/Reach/Chain/Lines.antt =====
-- The lines of a call chain: src/controlflowgraph/analysis/RuleReachability.cpp.
use coflo.Prelude.{
  ℕ, ◌≡◌, refl, ap, ◌∙◌, Bool, true, false, List, [], ◌∷◌, Option, none, some, if◌then◌else◌, ◌||◌,
  All, map, Bool-cases, inl, inr,
}
use coflo.Prelude.Int.{ℤ, pos}
use coflo.Statement.{
  Statement, function_call_unresolved, is_function_call_resolved, is_decision_statement,
}
use coflo.Graph.{Heap}
use coflo.Traversal.Reach.Chain.{
  ChainLine, is_function_call_unresolved, is_printed, strip_unresolved, front_first, next_level,
  print_statement, print_edges, print_call_chain,
}

abbrev pub HasSource : Heap → ℕ → Type 0
HasSource h e = (v : ℕ) × ((h.edge e).source ≡ some v)

abbrev pub has_source : (Statement → Bool) → Heap → Option ℕ → Bool
has_source f h none = false
has_source f h (some v) = f (h.vertex v).statement

-- The edges whose source has the property.
abbrev pub leaving : (Statement → Bool) → Heap → List ℕ → List ℕ
leaving f h [] = []
leaving f h (e ∷ es) =
    let rest = leaving f h es in if has_source f h (h.edge e).source then e ∷ rest else rest

abbrev pub is_shown : Statement → Bool
is_shown s = is_function_call_resolved s || is_decision_statement s

-- The line says what is at its edge's source.
abbrev pub IsLine : Heap → ChainLine → Type 0
IsLine h l =
    ((h.edge l.edge).source ≡ some l.vertex)
    × (l.is_decision ≡ is_decision_statement (h.vertex l.vertex).statement)

unresolved-hidden : (s : Statement) → is_function_call_unresolved s ≡ true → is_shown s ≡ false
unresolved-hidden (function_call_unresolved i p) q = refl
unresolved-hidden _ q = cc

resolved-shown : (s : Statement) → is_function_call_unresolved s ≡ false → is_printed s ≡ is_shown s
resolved-shown (function_call_unresolved i p) q = cc
resolved-shown _ q = refl

module _ (h : Heap) where
  strip_unresolved_lem :
      (p : List ℕ)
      → All (HasSource h) p
      → (q : List ℕ) × (strip_unresolved h p ≡ some q)
        × All (HasSource h) q
        × (leaving is_printed h q ≡ leaving is_shown h p)
  unfolding strip_unresolved
  strip_unresolved_lem [] has = ([], refl, tt, refl)
  strip_unresolved_lem (e ∷ p) ((v, from), has) =
      let (q, rest, has', same) = strip_unresolved_lem p has in
      let s = (h.vertex v).statement in
      elim (Bool-cases (is_function_call_unresolved s)) [
        | inl unresolved ↦
            let hidden = unresolved-hidden s unresolved in
            (q, rw (strip_unresolved, from, rest, unresolved) refl, has', rw (from, hidden) same)
        | inr other ↦
            let shown = resolved-shown s other in
            (
              e ∷ q,
              rw (strip_unresolved, from, rest, other) refl,
              ((v, from), has'),
              rw (from, shown, same) refl,
            )
      ]

  leaving-front_first :
      (f : Statement → Bool) (p es : List ℕ)
      → leaving f h (front_first p es) ≡ front_first (leaving f h p) (leaving f h es)
  unfolding front_first
  leaving-front_first f [] es = refl
  leaving-front_first f (e ∷ p) es =
      leaving-front_first f p (e ∷ es) ∙ (elim (Bool-cases (has_source f h (h.edge e).source)) [
        | inl leaves ↦ rw leaves refl
        | inr other ↦ rw other refl
      ])

  All-front_first :
      (p es : List ℕ)
      → All (HasSource h) p
      → All (HasSource h) es
      → All (HasSource h) (front_first p es)
  unfolding front_first
  All-front_first [] es a b = b
  All-front_first (e ∷ p) es a b = All-front_first p (e ∷ es) a.1 (a.0, b)

  print_edges_lem :
      (i : ℤ) (es : List ℕ)
      → All (HasSource h) es
      → (ls : List ChainLine) × (print_edges h i es ≡ some ls)
        × (map (λ (l : ChainLine). l.edge) ls ≡ leaving is_printed h es)
        × All (IsLine h) ls
  unfolding print_edges print_statement
  print_edges_lem i [] has = ([], refl, refl, tt)
  print_edges_lem i (e ∷ es) ((v, from), has) =
      let s = (h.vertex v).statement in
      let (ls, rest, edges, lines) = print_edges_lem (next_level s i) es has in
      elim (Bool-cases (is_printed s)) [
        | inl printed ↦ (
          record { vertex = v; indent_level = i; edge = e; is_decision = is_decision_statement s }
              ∷ ls,
          rw (print_edges, from, rest, print_statement, printed) refl,
          rw (from, printed) (ap (λ (r : List ℕ). e ∷ r) edges),
          ((from, refl), lines),
        )
        | inr silent ↦ (
          ls,
          rw (print_edges, from, rest, print_statement, silent) refl,
          rw (from, silent) edges,
          lines,
        )
      ]

  -- If each edge of a call chain has a source, PrintCallChain prints it: one line for each edge that leaves a
  -- resolved call or a decision statement, in the order of the chain from its front, with the
  -- statement that the edge leaves.
  pub print_call_chain_lem :
      (predecessors : List ℕ)
      → All (HasSource h) predecessors
      → (ls : List ChainLine) × (print_call_chain h predecessors ≡ some ls)
        × (map (λ (l : ChainLine). l.edge) ls ≡ front_first (leaving is_shown h predecessors) [])
        × All (IsLine h) ls
  unfolding print_call_chain
  print_call_chain_lem p has =
      let (q, stripped, has', same) = strip_unresolved_lem p has in
      let (ls, printed, edges, lines) =
        print_edges_lem (pos 0) (front_first q []) (All-front_first q [] has' tt) in
      (
        ls,
        rw (print_call_chain, stripped) printed,
        edges ∙ leaving-front_first is_printed q [] ∙ ap (λ (r : List ℕ). front_first r []) same,
        lines,
      )
