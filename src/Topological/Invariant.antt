-- ===== src/Topological/Invariant.antt =====
-- What a topological visit keeps of its visitor's state:
-- src/controlflowgraph/algorithms/topological_visit_kahn.h.
use coflo.Prelude.{
  ℕ, zero, suc, ◌≡◌, subst, List, [], ◌∷◌, Option, none, some, some_of_bind, eq_of_some, Bool-cases,
  inl, inr,
}
use coflo.Prelude.Int.{ℤ, pos, dec, eqb_ℤ}
use coflo.Graph.{Heap}
use coflo.Visit.{
  VertexAnswer, EdgeAnswer, ok, terminate_branch, terminate_search, push_color_context,
  pop_color_context,
}
use coflo.Topological.{
  InDegreeMap, Visitor, State, Removal, get_count, count_down, follow_edge, with_visitor, examined,
  remove_edges, complete, visit_out_edges, visit_target, round_on, rounds, topological_visit_kahn,
}

-- Every call of the visitor that returns keeps a property of its state.
pub record IsKept {W : Type 0} (vis : Visitor W) (P : W → Type 0) : Type 0 where
  pub discovers :
      (u e : ℕ) (w : W) (x : VertexAnswer × W) → P w → vis.discover_vertex u e w ≡ some x → P x.1
  pub examines : (e : ℕ) (w : W) (x : EdgeAnswer × W) → P w → vis.examine_edge e w ≡ some x → P x.1
  pub trees : (e : ℕ) (w : W) → P w → P (vis.tree_edge e w)
  pub completes :
      (u n : ℕ) (e : Option ℕ) (w w' : W) → P w → vis.vertex_visit_complete u n e w ≡ some w' → P w'

module _ {W : Type 0} (h : Heap) (vis : Visitor W) (in_degree : ℕ → ℕ) (P : W → Type 0) where
  module _ (kept : IsKept vis P) where
    count_down_keeps :
        (e : ℕ) (r : Removal W) (x : ℤ × InDegreeMap) (v : ℕ)
        → P r.state.visitor
        → P (count_down h vis in_degree e r x v).state.visitor
    unfolding count_down
    count_down_keeps e r (id, m) v p = elim (Bool-cases (eqb_ℤ (dec id) (pos 0))) [
      | inl zero_left ↦ rw zero_left (kept.trees e r.state.visitor p)
      | inr some_left ↦ rw some_left p
    ]

    follow_edge_keeps :
        (e : ℕ) (r r' : Removal W) (v : Option ℕ)
        → P r.state.visitor
        → follow_edge h vis in_degree e r v ≡ some r'
        → P r'.state.visitor
    unfolding follow_edge
    follow_edge_keeps e r r' none p eq = cc
    follow_edge_keeps e r r' (some v) p eq =
        subst (λ x. P x.state.visitor) (eq_of_some eq)
          (count_down_keeps e r (get_count in_degree v r.state.in_degree_map) v p)

    examined_keeps :
        (e : ℕ) (r r' : Removal W) (x : EdgeAnswer × W)
        → P x.1
        → examined h vis in_degree e r x ≡ some r'
        → P r'.state.visitor
    unfolding examined with_visitor
    examined_keeps e r r' (terminate_branch, w) p eq =
        subst (λ x. P x.state.visitor) (eq_of_some eq) p
    examined_keeps e r r' (ok, w) p eq = follow_edge_keeps e _ r' (h.edge e).target p eq
    examined_keeps e r r' (terminate_search, w) p eq =
        follow_edge_keeps e _ r' (h.edge e).target p eq
    examined_keeps e r r' (push_color_context, w) p eq =
        follow_edge_keeps e _ r' (h.edge e).target p eq
    examined_keeps e r r' (pop_color_context, w) p eq =
        follow_edge_keeps e _ r' (h.edge e).target p eq

    remove_edges_keeps :
        (es : List ℕ) (r r' : Removal W)
        → P r.state.visitor
        → remove_edges h vis in_degree es r ≡ some r'
        → P r'.state.visitor
    unfolding remove_edges
    remove_edges_keeps [] r r' p eq = subst (λ x. P x.state.visitor) (eq_of_some eq) p
    remove_edges_keeps (e ∷ es) r r' p eq =
        let (x, answer, eq₁) = some_of_bind _ _ r' eq in
        let (r₁, next, eq₂) = some_of_bind _ _ r' eq₁ in
        let q = kept.examines e r.state.visitor x p answer in
        remove_edges_keeps es r₁ r' (examined_keeps e r r₁ x q next) eq₂

    visit_out_edges_keeps :
        (u : ℕ) (s s' : State W) (a : VertexAnswer)
        → P s.visitor
        → visit_out_edges h vis in_degree u s a ≡ some s'
        → P s'.visitor
    unfolding visit_out_edges complete
    visit_out_edges_keeps u s s' terminate_branch p eq = subst (λ x. P x.visitor) (eq_of_some eq) p
    visit_out_edges_keeps u s s' ok p eq =
        let (r, removed, eq₁) = some_of_bind _ _ s' eq in
        let (w, completed, eq₂) = some_of_bind _ _ s' eq₁ in
        let q = remove_edges_keeps (h.vertex u).out_edges _ r p removed in
        subst (λ x. P x.visitor) (eq_of_some eq₂) (kept.completes u _ _ _ w q completed)
    visit_out_edges_keeps u s s' terminate_search p eq =
        let (r, removed, eq₁) = some_of_bind _ _ s' eq in
        let (w, completed, eq₂) = some_of_bind _ _ s' eq₁ in
        let q = remove_edges_keeps (h.vertex u).out_edges _ r p removed in
        subst (λ x. P x.visitor) (eq_of_some eq₂) (kept.completes u _ _ _ w q completed)

    visit_target_keeps :
        (e : ℕ) (s s' : State W) (u : Option ℕ)
        → P s.visitor
        → visit_target h vis in_degree e s u ≡ some s'
        → P s'.visitor
    unfolding visit_target
    visit_target_keeps e s s' none p eq = cc
    visit_target_keeps e s s' (some u) p eq =
        let (x, answer, eq₁) = some_of_bind _ _ s' eq in
        visit_out_edges_keeps u _ s' x.0 (kept.discovers u e s.visitor x p answer) eq₁

    round_on_keeps :
        (s s' : State W) (es : List ℕ)
        → P s.visitor
        → round_on h vis in_degree s es ≡ some s'
        → P s'.visitor
    unfolding round_on
    round_on_keeps s s' [] p eq = subst (λ x. P x.visitor) (eq_of_some eq) p
    round_on_keeps s s' (e ∷ es) p eq = visit_target_keeps e _ s' (h.edge e).target p eq

    rounds_keep :
        (n : ℕ) (s s' : State W) → P s.visitor → rounds h vis in_degree n s ≡ some s' → P s'.visitor
    unfolding rounds
    rounds_keep zero s s' p eq = subst (λ x. P x.visitor) (eq_of_some eq) p
    rounds_keep (suc n) s s' p eq =
        let (s₁, first, rest) = some_of_bind _ _ s' eq in
        rounds_keep n s₁ s' (round_on_keeps s s₁ s.no_remaining_in_edges_set p first) rest

    pub topological_visit_kahn_keeps :
        (source : ℕ) (w : W) (m : InDegreeMap) (n : ℕ) (s' : State W)
        → ((w' : W) → vis.start_vertex source w ≡ some w' → P w')
        → topological_visit_kahn h vis in_degree source w m n ≡ some s'
        → P s'.visitor
    unfolding topological_visit_kahn
    topological_visit_kahn_keeps source w m n s' start eq =
        let (w', started, rest) = some_of_bind _ _ s' eq in
        rounds_keep n _ s' (start w' started) rest
