-- ===== src/Topological/Order/Rounds.antt =====
-- The rounds of a topological visit: src/controlflowgraph/algorithms/topological_visit_kahn.h.
use coflo.Prelude.{
  ℕ, zero, suc, ◌≡◌, refl, sym, subst, ◌∙◌, Bool, true, false, List, [], ◌∷◌, none, some, arith,
  ◌>>=◌, contains, Option-cases, inl, inr, some_of_bind, eq_of_some,
}
use coflo.Graph.{Heap}
use coflo.Graph.Links.{IsLinked}
use coflo.Visit.{VertexAnswer, ok, terminate_branch, terminate_search}
use coflo.Visit.Reach.{IsDistinct}
use coflo.Topological.{
  Visitor, State, Removal, with_visitor, remove_edges, complete, visit_out_edges, visit_target,
  round_on, rounds, topological_visit_kahn,
}
use coflo.Topological.Order.{left, Sorted, IsOrdered, Sorted-discovered}
use coflo.Topological.Order.Removals.{
  IsLogging, SortedBy, Pending, Pending-with_visitor, remove_edges-Pending,
}

-- Nothing is discovered yet, and the edge to the first vertex waits.
pub Sorted-start :
    (h : Heap) (skips : ℕ → Bool) (in_degree : ℕ → ℕ) (source first : ℕ)
    → ((v : ℕ) → in_degree v ≡ left h skips [] v)
    → (h.edge source).target ≡ some first
    → left h skips [] first ≡ 0
    → Sorted h skips in_degree [] [] (source ∷ []) []
Sorted-start h skips in_degree source first counted to free = record {
  counts = λ v. inl (sym (counted v));
  removed = λ e u p q. cc;
  waiting = (
    λ v to'. (subst (λ a. left h skips [] a ≡ 0) (eq_of_some (sym to ∙ to')) free, refl, refl),
    tt,
  );
  finished = λ v p. cc;
  distinct = tt;
  ordered = tt;
}

module _ {W : Type 0} (h : Heap) (vis : Visitor W) (in_degree : ℕ → ℕ) where
  module _ (skips : ℕ → Bool) (log : W → List ℕ) (plain : IsLogging vis skips log)
      (linked : IsLinked h) where
    module _ (simple_in : (v : ℕ) → IsDistinct (h.vertex v).in_edges)
        (simple_out : (v : ℕ) → IsDistinct (h.vertex v).out_edges) where
      complete-Sorted :
          (u : ℕ) (r : Removal W) (s' : State W)
          → complete h vis in_degree u r ≡ some s'
          → Pending h vis in_degree skips log plain u [] r
          → (rs : List ℕ) × SortedBy h vis in_degree skips log plain s' rs
      unfolding complete with_visitor
      complete-Sorted u r s' is p =
          let (w, done, same) =
            some_of_bind
              (vis.vertex_visit_complete u r.num_vertices_pushed r.first_edge_pushed
                r.state.visitor)
              (λ w. some (record (r.state) { visitor = w })) s' is in
          let p' =
            Pending-with_visitor h vis in_degree skips log plain u [] r w
              (plain.completes u r.num_vertices_pushed r.first_edge_pushed r.state.visitor w done)
              p in
          subst (λ x. (rs : List ℕ) × SortedBy h vis in_degree skips log plain x rs)
            (eq_of_some same) (p'.rs, p'.sorted)

      visit_all-Sorted :
          (u : ℕ) (s s' : State W) (rs : List ℕ)
          → (remove_edges h vis in_degree
                (h.vertex u).out_edges
                (record { state = s; num_vertices_pushed = 0; first_edge_pushed = none })
              >>= (λ r. complete h vis in_degree u r))
            ≡ some s'
          → SortedBy h vis in_degree skips log plain s rs
          → contains u (log s.visitor) ≡ true
          → ((x : ℕ) → contains x (h.vertex u).out_edges ≡ true → contains x rs ≡ false)
          → (rs' : List ℕ) × SortedBy h vis in_degree skips log plain s' rs'
      visit_all-Sorted u s s' rs is sorted known new =
          let start : Removal W = record {
            state = s;
            num_vertices_pushed = 0;
            first_edge_pushed = none;
          } in
          let (r, removed, done) =
            some_of_bind (remove_edges h vis in_degree (h.vertex u).out_edges start)
              (λ r. complete h vis in_degree u r) s' is in
          complete-Sorted u r s' done (
            remove_edges-Pending h vis in_degree skips log plain linked simple_in u
              (h.vertex u).out_edges start r removed
              (record {
                rs = rs;
                sorted = sorted;
                known = known;
                distinct = simple_out u;
                fresh = λ e out. (new e out, out);
              }))

      visit_out_edges-Sorted :
          (u : ℕ) (s s' : State W) (a : VertexAnswer) (rs : List ℕ)
          → visit_out_edges h vis in_degree u s a ≡ some s'
          → SortedBy h vis in_degree skips log plain s rs
          → contains u (log s.visitor) ≡ true
          → ((x : ℕ) → contains x (h.vertex u).out_edges ≡ true → contains x rs ≡ false)
          → (rs' : List ℕ) × SortedBy h vis in_degree skips log plain s' rs'
      unfolding visit_out_edges
      visit_out_edges-Sorted u s s' ok rs is sorted known new =
          visit_all-Sorted u s s' rs is sorted known new
      visit_out_edges-Sorted u s s' terminate_branch rs is sorted known new =
          subst (λ x. (rs' : List ℕ) × SortedBy h vis in_degree skips log plain x rs')
            (eq_of_some is) (rs, sorted)
      visit_out_edges-Sorted u s s' terminate_search rs is sorted known new =
          visit_all-Sorted u s s' rs is sorted known new

      -- A round.
      pub round_on-Sorted :
          (s s' : State W) (es rs : List ℕ)
          → s.no_remaining_in_edges_set ≡ es
          → round_on h vis in_degree s es ≡ some s'
          → SortedBy h vis in_degree skips log plain s rs
          → (rs' : List ℕ) × SortedBy h vis in_degree skips log plain s' rs'
      unfolding round_on visit_target
      round_on-Sorted s s' [] rs stack is sorted =
          subst (λ x. (rs' : List ℕ) × SortedBy h vis in_degree skips log plain x rs')
            (eq_of_some is) (rs, sorted)
      round_on-Sorted s s' (e ∷ es) rs stack is sorted = elim (Option-cases (h.edge e).target) [
        | inl null ↦ cc (rw null at is)
        | inr (u, to) ↦
            let ((a, w), found, on) =
              some_of_bind (vis.discover_vertex u e s.visitor)
                (λ x.
                  visit_out_edges h vis in_degree u
                    (record {
                      no_remaining_in_edges_set = es;
                      in_degree_map = s.in_degree_map;
                      visitor = x.1;
                    })
                    x.0)
                s' (rw to at is) in
            let logged = plain.discovers u e s.visitor (a, w) found in
            let (next, new) =
              Sorted-discovered h skips in_degree (log s.visitor) s.in_degree_map e u es rs to
                linked
                (subst (λ st. Sorted h skips in_degree (log s.visitor) s.in_degree_map st rs) stack
                  sorted) in
            visit_out_edges-Sorted u
              (record {
                no_remaining_in_edges_set = es;
                in_degree_map = s.in_degree_map;
                visitor = w;
              })
              s' a rs on
              (subst (λ vs. Sorted h skips in_degree vs s.in_degree_map es rs) (sym logged) next)
              (subst (λ vs. contains u vs ≡ true) (sym logged) (ground arith)) new
      ]

      rounds-Sorted :
          (n : ℕ) (s s' : State W) (rs : List ℕ)
          → rounds h vis in_degree n s ≡ some s'
          → SortedBy h vis in_degree skips log plain s rs
          → (rs' : List ℕ) × SortedBy h vis in_degree skips log plain s' rs'
      unfolding rounds
      rounds-Sorted zero s s' rs is sorted =
          subst (λ x. (rs' : List ℕ) × SortedBy h vis in_degree skips log plain x rs')
            (eq_of_some is) (rs, sorted)
      rounds-Sorted (suc n) s s' rs is sorted =
          let (s1, step, rest) =
            some_of_bind (round_on h vis in_degree s s.no_remaining_in_edges_set)
              (λ s1. rounds h vis in_degree n s1) s' is in
          let (rs1, sorted1) =
            round_on-Sorted s s1 s.no_remaining_in_edges_set rs refl step sorted in
          rounds-Sorted n s1 s' rs1 rest sorted1

      -- With a linked heap where no vertex has an edge twice, counts that are the in edges not skipped,
      -- a start at a vertex without such an edge, and a visitor that follows none that is to be skipped,
      -- the vertices are discovered once each, and in an order where the source of every in edge that is
      -- not skipped comes earlier, after any number of rounds that a visit returns from.
      pub topological_visit_kahn-IsOrdered :
          (source first : ℕ) (w : W) (n : ℕ) (s : State W)
          → ((v : ℕ) → in_degree v ≡ left h skips [] v)
          → (h.edge source).target ≡ some first
          → left h skips [] first ≡ 0
          → log w ≡ []
          → topological_visit_kahn h vis in_degree source w [] n ≡ some s
          → IsDistinct (log s.visitor) × IsOrdered h skips (log s.visitor)
      unfolding topological_visit_kahn
      topological_visit_kahn-IsOrdered source first w n s counted to free empty is =
          let (w1, started, rest) =
            some_of_bind (vis.start_vertex source w)
              (λ w1. rounds h vis in_degree n (record {
                no_remaining_in_edges_set = source ∷ [];
                in_degree_map = [];
                visitor = w1;
              }))
              s is in
          let (rs, sorted) =
            rounds-Sorted n
              (record { no_remaining_in_edges_set = source ∷ []; in_degree_map = []; visitor = w1 })
              s [] rest
              (subst (λ vs. Sorted h skips in_degree vs [] (source ∷ []) [])
                (sym (plain.starts source w w1 started ∙ empty))
                (Sorted-start h skips in_degree source first counted to free)) in
          (sorted.distinct, sorted.ordered)
