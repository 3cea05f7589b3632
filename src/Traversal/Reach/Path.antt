-- ===== src/Traversal/Reach/Path.antt =====
-- The paths that RuleReachability reports: src/controlflowgraph/analysis/RuleReachability.cpp.
use coflo.Prelude.{
  ℕ, suc, ◌≡◌, ◌≢◌, refl, ap, subst, inl, inr, Bool, true, false, ◌||◌, List, [], ◌∷◌, some, arith,
  Bool-cases, eq_of_some, Option-cases,
}
use coflo.Statement.{is_impossible}
use coflo.Graph.{Heap}
use coflo.Graph.Links.{IsLinked}
use coflo.Traversal.Dfs.Start.{traverse_from_goal, traverse_unowned}
use coflo.Traversal.Dfs.{
  Visitor, terminate_search, Outcome, running, finished, stopped, fault, traverse,
}
use coflo.Traversal.Dfs.Path.{Trail, KeepsPath, Good}
use coflo.Traversal.Dfs.Path.Steps.{traverse-Good}
use coflo.Traversal.Reach.{
  examine_edge, discover_vertex, pop_back, reachability_visitor, is_sink, Verdict, violation,
  no_violation, verdict, run_rule,
}

-- An edge that the program can take and that no loop repeats.
abbrev pub IsTaken : Heap → ℕ → Type 0
IsTaken h e = (is_impossible (h.edge e).edge_type || (h.edge e).is_back_edge) ≡ false

reachability_visitor-KeepsPath :
    (h : Heap) (inspect_vertex : ℕ → Bool)
    → KeepsPath
        (reachability_visitor h inspect_vertex)
        (λ p. p)
        (IsTaken h)
        (λ u. inspect_vertex u ≡ true)
unfolding reachability_visitor examine_edge discover_vertex pop_back
reachability_visitor-KeepsPath h inspect_vertex = record {
  discover = λ u p. refl;
  goal = λ u p e. elim (Bool-cases (inspect_vertex u)) [ inl f ↦ f | inr n ↦ cc (rw n at e) ];
  examine = λ e p. refl;
  allowed = λ e p q.
      elim (Bool-cases (is_impossible (h.edge e).edge_type || (h.edge e).is_back_edge)) [
        | inl t ↦ cc (rw t at q)
        | inr f ↦ f
      ];
  goes_on = λ e p q.
      elim (Bool-cases (is_impossible (h.edge e).edge_type || (h.edge e).is_back_edge)) [
        | inl t ↦ cc (rw t at q)
        | inr f ↦ cc (rw f at q)
      ];
  tree = λ e p. refl;
  back = λ e p. refl;
  cross = λ e p. refl;
  finish = λ u e q p eq. (q, ap pop_back eq, refl);
}

abbrev reported : Verdict → List ℕ → List ℕ
reported (violation p) q = p
reported no_violation q = q

verdict_path :
    (h : Heap) (inspect_vertex : ℕ → Bool) (entry : ℕ) (o : Outcome (List ℕ)) (p : List ℕ)
    → Good h
        (reachability_visitor h inspect_vertex)
        (λ q. q)
        (IsTaken h)
        (λ u. inspect_vertex u ≡ true)
        entry
        o
    → verdict o ≡ some (violation p)
    → (u : ℕ) × (inspect_vertex u ≡ true) × Trail h (IsTaken h) entry u p
unfolding verdict
verdict_path h f entry (running s) p g e = cc
verdict_path h f entry (finished q) p g e = cc (rw g at e)
verdict_path h f entry (stopped []) p (u, goal, trail) e = absurd trail
verdict_path h f entry (stopped (d ∷ q)) p (u, goal, trail) e = (
  u,
  goal,
  subst (Trail h (IsTaken h) entry u) (ap (λ v. reported v (d ∷ q)) (eq_of_some e)) trail,
)
verdict_path h f entry fault p g e = cc

-- A verdict is one from an entry with an owner.
owner_of_verdict :
    (h : Heap) (vis : Visitor (List ℕ)) (entry n : ℕ) (w : List ℕ) (v : Verdict)
    → verdict (traverse h vis entry w n) ≡ some v
    → (f : ℕ) × ((h.vertex entry).owning_function ≡ some f)
unfolding verdict
owner_of_verdict h vis entry n w v e = elim (Option-cases (h.vertex entry).owning_function) [
  | inl unowned ↦ cc (rw (traverse_unowned h vis entry w n unowned) at e)
  | inr owned ↦ owned
]

same_of_sink : (sink u : ℕ) → is_sink sink u ≡ true → u ≡ sink
same_of_sink sink u e = ground arith

-- On consistent links, a violation that RunRule reports, after any number of rounds, is a path in
-- the control flow graph from the entry of the source to the entry of the sink, by edges that are
-- neither impossible nor back edges, above one more edge at the bottom of the deque.
pub run_rule-Trail :
    (h : Heap) (entry self_edge sink n : ℕ) (p : List ℕ)
    → IsLinked h
    → run_rule h entry self_edge sink n ≡ some (violation p)
    → Trail h (IsTaken h) entry sink p
unfolding run_rule
run_rule-Trail h entry self_edge sink n p linked e =
    let f = is_sink sink in
    let vis = reachability_visitor h f in
    let owned = owner_of_verdict h vis entry n (self_edge ∷ []) (violation p) e in
    let (u, goal, trail) =
      verdict_path h f entry (traverse h vis entry (self_edge ∷ []) n) p
        (traverse-Good h vis (λ q. q) (IsTaken h) (λ v. f v ≡ true) entry linked
          (reachability_visitor-KeepsPath h f) owned.0 (self_edge ∷ []) self_edge n owned.1 refl)
        e in
    subst (λ v. Trail h (IsTaken h) entry v p) (same_of_sink sink u goal) trail

not_fault :
    (h : Heap) (f : ℕ → Bool) (entry : ℕ) (o : Outcome (List ℕ))
    → Good h (reachability_visitor h f) (λ q. q) (IsTaken h) (λ u. f u ≡ true) entry o
    → o ≢ fault
not_fault h f entry o g e =
    subst (Good h (reachability_visitor h f) (λ q. q) (IsTaken h) (λ u. f u ≡ true) entry) e g

-- On consistent links, from a vertex with an owning function, the traversal with a ReachabilityVisitor
-- whose deque holds one edge reaches no undefined behaviour in any number of rounds, whatever vertices
-- it looks for: it takes the graph of no null function, the top of no empty call stack and the target of no unlinked edge, and pops no empty deque.
pub traverse-reachability_visitor :
    (h : Heap) (inspect_vertex : ℕ → Bool) (entry self_edge f n : ℕ)
    → IsLinked h
    → (h.vertex entry).owning_function ≡ some f
    → traverse h (reachability_visitor h inspect_vertex) entry (self_edge ∷ []) n ≢ fault
traverse-reachability_visitor h f entry self_edge owner n linked owned =
    not_fault h f entry (traverse h (reachability_visitor h f) entry (self_edge ∷ []) n) (
      traverse-Good h (reachability_visitor h f) (λ q. q) (IsTaken h) (λ v. f v ≡ true) entry linked
        (reachability_visitor-KeepsPath h f) owner (self_edge ∷ []) self_edge n owned refl)

at_source :
    (h : Heap) (f : ℕ → Bool) (entry : ℕ) (p : List ℕ)
    → f entry ≡ true
    → (reachability_visitor h f).discover_vertex entry p ≡ (terminate_search, p)
unfolding reachability_visitor discover_vertex
at_source h f entry p e = rw e refl

-- A rule whose source is its sink, an entry with an owning function, is never violated: from the first round of the traversal on,
-- RunRule reports that it found no violation, whatever the graph is.
pub run_rule_self :
    (h : Heap) (entry self_edge f n : ℕ)
    → (h.vertex entry).owning_function ≡ some f
    → run_rule h entry self_edge entry (suc n) ≡ some no_violation
unfolding run_rule verdict reachability_visitor pop_back
run_rule_self h entry self_edge f n owner =
    rw
      (traverse_from_goal h (reachability_visitor h (is_sink entry)) entry f (self_edge ∷ [])
        (self_edge ∷ []) [] n owner
        (at_source h (is_sink entry) entry (self_edge ∷ []) (ground arith)) refl)
      refl
