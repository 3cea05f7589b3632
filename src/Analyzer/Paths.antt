-- ===== src/Analyzer/Paths.antt =====
-- From the text of a constraint to a violating path: src/controlflowgraph/analysis/Analyzer.cpp.
use Prim.Native.Char.{Char}
use mathlib.Core.List.Memᴰ.{Memᴰ, head, tail, not-nil}
use coflo.Prelude.{
  to_string, ℕ, ◌≡◌, ◌⊎◌, refl, sym, ap, subst, inl, inr, List, [], ◌∷◌, ◌++◌, map, Option, none,
  some, Option-cases,
}
use coflo.Graph.{Heap}
use coflo.Graph.Links.{IsLinked}
use coflo.Program.{Program, lookup_function}
use coflo.Traversal.Dfs.Path.{Trail}
use coflo.Traversal.Reach.{violation, run_rule}
use coflo.Traversal.Reach.Path.{IsTaken, run_rule-Trail}
use coflo.Analyzer.{
  Analyzer, Rule, say, add_found, look_up_captures, match_constraint, add_constraints, analyze,
}
use coflo.Analyzer.Constraint.{constraint_text, match_constraint_lem}

-- One of the texts asks for the rule.
abbrev pub IsAsked : Program → List (List Char) → Rule → Type 0
IsAsked p ss r =
    (f : List Char) × (g : List Char) × Memᴰ (constraint_text f g) ss
    × (lookup_function (to_string f) p ≡ some r.source)
    × (lookup_function (to_string g) p ≡ some r.sink)

IsAsked-cons :
    (p : Program) (s : List Char) (ss : List (List Char)) (r : Rule)
    → IsAsked p ss r
    → IsAsked p (s ∷ ss) r
IsAsked-cons p s ss r (f, g, m, a, b) = (f, g, tail m, a, b)

mem_append : {A : Type 0} (xs : List A) (x y : A) → Memᴰ x (xs ++ y ∷ []) → Memᴰ x xs ⊎ (x ≡ y)
mem_append [] x y (head e) = inr e
mem_append [] x y (tail m) = elim m [ ]
mem_append (z ∷ xs) x y (head e) = inl (head e)
mem_append (z ∷ xs) x y (tail m) = elim (mem_append xs x y m) [
  | inl old ↦ inl (tail old)
  | inr new ↦ inr new
]

-- What a constraint's functions add.
add_found-rules :
    (f g : List Char) (x y : Option ℕ) (a : Analyzer) (r : Rule)
    → Memᴰ r (add_found f g x y a).constraints
    → Memᴰ r a.constraints ⊎ ((x ≡ some r.source) × (y ≡ some r.sink))
unfolding add_found say
add_found-rules f g none y a r m = inl m
add_found-rules f g (some x) none a r m = inl m
add_found-rules f g (some x) (some y) a r m =
    elim (mem_append a.constraints r (record { source = x; sink = y }) m) [
      | inl old ↦ inl old
      | inr new ↦ inr (ap (λ r. some r.source) (sym new), ap (λ r. some r.sink) (sym new))
    ]

look_up_captures-rules :
    (p : Program) (s : List Char) (ss : List (List Char)) (a : Analyzer) (r : Rule)
    → Memᴰ r (look_up_captures p s (match_constraint s) a).constraints
    → Memᴰ r a.constraints ⊎ IsAsked p (s ∷ ss) r
unfolding look_up_captures say
look_up_captures-rules p s ss a r m = elim (Option-cases (match_constraint s)) [
  | inl bad ↦ inl (rw (look_up_captures, bad) at m)
  | inr ((f, g), parsed) ↦
      let (name_f, name_g, text) = (match_constraint_lem s f g).0 parsed in
      elim (add_found-rules f g (lookup_function (to_string f) p) (lookup_function (to_string g) p)
        a r (rw (look_up_captures, parsed) at m)) [
          | inl old ↦ inl old
          | inr (x, y) ↦ inr (f, g, head (sym text), x, y)
        ]
]

add_constraints-rules :
    (p : Program) (ss : List (List Char)) (a : Analyzer) (r : Rule)
    → Memᴰ r (add_constraints p ss a).constraints
    → Memᴰ r a.constraints ⊎ IsAsked p ss r
unfolding add_constraints
add_constraints-rules p [] a r m = inl m
add_constraints-rules p (s ∷ ss) a r m =
    elim (add_constraints-rules p ss (look_up_captures p s (match_constraint s) a) r m) [
      | inl old ↦ look_up_captures-rules p s ss a r old
      | inr asked ↦ inr (IsAsked-cons p s ss r asked)
    ]

mem_map :
    {A B : Type 0} (k : A → B) (xs : List A) (y : B)
    → Memᴰ y (map k xs)
    → (x : A) × Memᴰ x xs × (y ≡ k x)
mem_map k [] y m = elim m [ ]
mem_map k (x ∷ xs) y (head e) = (x, head refl, e)
mem_map k (x ∷ xs) y (tail m) = let (z, n, e) = mem_map k xs y m in (z, tail n, e)

rules-IsAsked :
    (p : Program) (ss : List (List Char)) (a : Analyzer) (r : Rule)
    → a.constraints ≡ []
    → Memᴰ r (add_constraints p ss a).constraints
    → IsAsked p ss r
rules-IsAsked p ss a r fresh m = elim (add_constraints-rules p ss a r m) [
  | inl old ↦ absurd (not-nil (subst (Memᴰ r) fresh old))
  | inr asked ↦ asked
]

-- On consistent links, from an analyzer without constraints: each violation that Analyze reports, after
-- any number of rounds, is for the functions that one of the added texts names as "f() -x g()", and is
-- a path in the control flow graph from the entry of f to the entry of g, by edges that are neither
-- impossible nor back edges.
pub analyze-Trail :
    (p : Program) (ss : List (List Char)) (a : Analyzer) (self_edge : ℕ → ℕ) (h : Heap) (n : ℕ)
    (r : Rule) (path : List ℕ)
    → IsLinked h
    → a.constraints ≡ []
    → Memᴰ
        (r, some (violation path))
        (analyze p.functions self_edge h n (add_constraints p ss a).constraints).0
    → IsAsked p ss r
      × Trail h
          (IsTaken h)
          (p.functions.entry_vertex_desc r.source)
          (p.functions.entry_vertex_desc r.sink)
          path
unfolding analyze
analyze-Trail p ss a self_edge h n r path linked fresh m =
    let rules = (add_constraints p ss a).constraints in
    let entry = p.functions.entry_vertex_desc in
    let (q, known, eq) =
      mem_map (λ (r : Rule). (r, run_rule h (entry r.source) (self_edge r.source) (entry r.sink) n))
        rules (r, some (violation path)) m in
    let same : q ≡ r = ap (λ x. x.0) (sym eq) in
    let trail =
      run_rule-Trail h (entry q.source) (self_edge q.source) (entry q.sink) n path linked
        (ap (λ x. x.1) (sym eq)) in
    subst (λ (z : Rule). IsAsked p ss z × Trail h (IsTaken h) (entry z.source) (entry z.sink) path)
      same (rules-IsAsked p ss a q fresh known, trail)
