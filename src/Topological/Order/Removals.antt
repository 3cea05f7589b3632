-- ===== src/Topological/Order/Removals.antt =====
-- The loop over the out edges of a topological visit: src/controlflowgraph/algorithms/topological_visit_kahn.h.
use coflo.Prelude.{
  ℕ, ◌≡◌, ◌≢◌, sym, subst, ◌∙◌, Bool, true, false, List, [], ◌∷◌, Option, some, arith, ◌>>=◌,
  contains, Bool-cases, Option-cases, if_splits, inl, inr, some_of_bind, eq_of_some,
}
use coflo.Prelude.Int.{pos, dec, eqb_ℤ}
use coflo.Graph.{Heap}
use coflo.Graph.Links.{IsLinked}
use coflo.Visit.{
  VertexAnswer, EdgeAnswer, ok, terminate_branch, terminate_search, push_color_context,
  pop_color_context,
}
use coflo.Visit.Reach.{IsDistinct}
use coflo.Topological.{
  Visitor, State, Removal, put_count, get_count, count_down, follow_edge, with_visitor, examined,
  remove_edges,
}
use coflo.Topological.Order.{Sorted, target_is, Sorted-removed, Sorted-pushed}

-- A visitor that logs the vertices that it discovers, and follows no edge that is to be skipped.
pub record IsLogging {W : Type 0} (vis : Visitor W) (skips : ℕ → Bool) (log : W → List ℕ)
    : Type 0 where
  pub starts : (e : ℕ) (w w' : W) → vis.start_vertex e w ≡ some w' → log w' ≡ log w
  pub discovers :
      (u e : ℕ) (w : W) (x : VertexAnswer × W)
      → vis.discover_vertex u e w ≡ some x
      → log x.1 ≡ u ∷ log w
  pub examines :
      (e : ℕ) (w : W) (x : EdgeAnswer × W)
      → vis.examine_edge e w ≡ some x
      → (log x.1 ≡ log w) × (skips e ≡ true → x.0 ≡ terminate_branch)
  pub trees : (e : ℕ) (w : W) → log (vis.tree_edge e w) ≡ log w
  pub completes :
      (u n : ℕ) (e : Option ℕ) (w w' : W)
      → vis.vertex_visit_complete u n e w ≡ some w'
      → log w' ≡ log w

module _ {W : Type 0} (h : Heap) (vis : Visitor W) (in_degree : ℕ → ℕ) where
  module _ (skips : ℕ → Bool) (log : W → List ℕ) (plain : IsLogging vis skips log) where
    abbrev pub SortedBy : State W → List ℕ → Type 0
    SortedBy s rs =
        Sorted h skips in_degree (log s.visitor) s.in_degree_map s.no_remaining_in_edges_set rs

    -- In the loop over the out edges of `u`, with the edges `es` left.
    pub record Pending (u : ℕ) (es : List ℕ) (r : Removal W) : Type 0 where
      pub rs : List ℕ
      pub sorted : SortedBy (r.state) rs
      pub known : contains u (log r.state.visitor) ≡ true
      pub distinct : IsDistinct es
      pub fresh :
          (e : ℕ)
          → contains e es ≡ true
          → (contains e rs ≡ false) × (contains e (h.vertex u).out_edges ≡ true)

    pub Pending-with_visitor :
        (u : ℕ) (es : List ℕ) (r : Removal W) (w : W)
        → log w ≡ log r.state.visitor
        → Pending u es r
        → Pending u es (with_visitor h vis in_degree w r)
    unfolding with_visitor
    Pending-with_visitor u es r w same p = record {
      rs = p.rs;
      sorted =
          subst
            (λ vs.
              Sorted h skips in_degree vs r.state.in_degree_map r.state.no_remaining_in_edges_set
                p.rs)
            (sym same) p.sorted;
      known = rw same p.known;
      distinct = p.distinct;
      fresh = p.fresh;
    }

    Pending-skipped :
        (u e : ℕ) (es : List ℕ) (r : Removal W) → Pending u (e ∷ es) r → Pending u es r
    Pending-skipped u e es r p = record {
      rs = p.rs;
      sorted = p.sorted;
      known = p.known;
      distinct = p.distinct.1;
      fresh = λ x m. p.fresh x (ground (arith, m));
    }

    module _ (linked : IsLinked h) (simple_in : (v : ℕ) → IsDistinct (h.vertex v).in_edges) where
      count_down-Pending :
          (u e v : ℕ) (es : List ℕ) (r : Removal W)
          → skips e ≡ false
          → (h.edge e).target ≡ some v
          → Pending u (e ∷ es) r
          → Pending u es
              (count_down h vis in_degree e r (get_count in_degree v r.state.in_degree_map) v)
      unfolding count_down
      count_down-Pending u e v es r live to p =
          let s = r.state in
          let m = s.in_degree_map in
          let (new, out) = p.fresh e (ground arith) in
          let from = target_is (h.edge e).source u (sym (linked.out_links e u) ∙ out) in
          let later : (x : ℕ)
              → contains x es ≡ true
              → (contains x (e ∷ p.rs) ≡ false) × (contains x (h.vertex u).out_edges ≡ true) =
            λ x mem. (
              ground (arith, (p.fresh x (ground (arith, mem))).0, p.distinct.0, mem),
              (p.fresh x (ground (arith, mem))).1,
            ) in
          if_splits (Pending u es) (eqb_ℤ (dec (get_count in_degree v m).0) (pos 0)) _ _
            (λ last. record {
              rs = e ∷ p.rs;
              sorted =
                  subst
                    (λ vs.
                      Sorted h skips in_degree vs
                        (put_count v (dec (get_count in_degree v m).0) (get_count in_degree v m).1)
                        (e ∷ s.no_remaining_in_edges_set) (e ∷ p.rs))
                    (sym (plain.trees e s.visitor))
                    (Sorted-pushed h skips in_degree (log s.visitor) m s.no_remaining_in_edges_set
                      p.rs linked e v u p.sorted (simple_in v) new live to from p.known last);
              known = rw (plain.trees e s.visitor) p.known;
              distinct = p.distinct.1;
              fresh = later;
            })
            (λ more. record {
              rs = e ∷ p.rs;
              sorted =
                  Sorted-removed h skips in_degree (log s.visitor) m s.no_remaining_in_edges_set
                    p.rs linked e v u p.sorted (simple_in v) new live to from p.known;
              known = p.known;
              distinct = p.distinct.1;
              fresh = later;
            })

      follow_edge-Pending :
          (u e : ℕ) (es : List ℕ) (r r' : Removal W)
          → skips e ≡ false
          → follow_edge h vis in_degree e r (h.edge e).target ≡ some r'
          → Pending u (e ∷ es) r
          → Pending u es r'
      unfolding follow_edge
      follow_edge-Pending u e es r r' live is p = elim (Option-cases (h.edge e).target) [
        | inl null ↦ cc (rw null at is)
        | inr (v, to) ↦
            subst (Pending u es) (eq_of_some (rw to at is))
              (count_down-Pending u e v es r live to p)
      ]

      -- An edge that the visitor does not leave out is not to be skipped.
      followed-Pending :
          (u e : ℕ) (es : List ℕ) (r r' : Removal W) (a : EdgeAnswer) (w : W)
          → log w ≡ log r.state.visitor
          → (skips e ≡ true → a ≡ terminate_branch)
          → a ≢ terminate_branch
          → follow_edge h vis in_degree e (with_visitor h vis in_degree w r) (h.edge e).target
            ≡ some r'
          → Pending u (e ∷ es) r
          → Pending u es r'
      unfolding with_visitor
      followed-Pending u e es r r' a w same left_out goes_on is p =
          let live : skips e ≡ false = elim (Bool-cases (skips e)) [
            | inl skipped ↦ absurd (goes_on (left_out skipped))
            | inr live ↦ live
          ] in
          follow_edge-Pending u e es (with_visitor h vis in_degree w r) r' live is
            (Pending-with_visitor u (e ∷ es) r w same p)

      examined-Pending :
          (u e : ℕ) (es : List ℕ) (r r' : Removal W) (a : EdgeAnswer) (w : W)
          → log w ≡ log r.state.visitor
          → (skips e ≡ true → a ≡ terminate_branch)
          → examined h vis in_degree e r (a, w) ≡ some r'
          → Pending u (e ∷ es) r
          → Pending u es r'
      unfolding examined with_visitor
      examined-Pending u e es r r' ok w same left_out is p =
          followed-Pending u e es r r' ok w same left_out (λ q. cc) is p
      examined-Pending u e es r r' terminate_branch w same left_out is p =
          subst (Pending u es) (eq_of_some is)
            (Pending-skipped u e es _ (Pending-with_visitor u (e ∷ es) r w same p))
      examined-Pending u e es r r' terminate_search w same left_out is p =
          followed-Pending u e es r r' terminate_search w same left_out (λ q. cc) is p
      examined-Pending u e es r r' push_color_context w same left_out is p =
          followed-Pending u e es r r' push_color_context w same left_out (λ q. cc) is p
      examined-Pending u e es r r' pop_color_context w same left_out is p =
          followed-Pending u e es r r' pop_color_context w same left_out (λ q. cc) is p

      pub remove_edges-Pending :
          (u : ℕ) (es : List ℕ) (r r' : Removal W)
          → remove_edges h vis in_degree es r ≡ some r'
          → Pending u es r
          → Pending u [] r'
      unfolding remove_edges
      remove_edges-Pending u [] r r' is p = subst (Pending u []) (eq_of_some is) p
      remove_edges-Pending u (e ∷ es) r r' is p =
          let ((a, w), answer, is1) =
            some_of_bind (vis.examine_edge e r.state.visitor)
              (λ x. examined h vis in_degree e r x >>= (λ r1. remove_edges h vis in_degree es r1))
              r' is in
          let (r1, step, rest) =
            some_of_bind (examined h vis in_degree e r (a, w))
              (λ r1. remove_edges h vis in_degree es r1) r' is1 in
          let (same, left_out) = plain.examines e r.state.visitor (a, w) answer in
          remove_edges-Pending u es r1 r' rest
            (examined-Pending u e es r r1 a w same left_out step p)
