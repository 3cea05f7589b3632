-- ===== src/Visit/Rounds.antt =====
-- The rounds of improved_depth_first_visit, for a visitor that only skips edges:
-- src/controlflowgraph/algorithms/depth_first_traversal.hpp.
use coflo.Prelude.{
  ℕ, zero, suc, ◌+◌, ◌≤◌, ◌<◌, ◌≡◌, ◌↔◌, refl, inl, inr, Bool, true, false, List, [], ◌∷◌, some,
  arith, contains, Bool-cases, Option-cases, sym, ◌∙◌, subst, ap,
}
use coflo.Graph.{Heap}
use coflo.Graph.Links.{IsLinked}
use coflo.Traversal.{Color, white, gray, black, ColorMap, assign_entry, find_entry}
use coflo.Visit.{
  Visitor, State, Outcome, running, finished, switch_context, paint_top, look_up, edges_after,
  enter, started, by_color, follow, examined, resume, close_vertex, round_from, round, rounds,
  improved_depth_first_visit,
}
use coflo.Visit.Reach.{
  Reachable, here, along, IsPlain, IsDistinct, seen, seen-assign_entry, work, work-cons, load,
}
use coflo.Visit.Explored.{
  Explored, Explored-recolored, Explored-passed, Explored-finished, Explored-discovered,
  edge_target,
}

-- What reading the colour of a vertex returns.
data Reading (v : ℕ) (m : ColorMap) : Color × ColorMap → Type 0 where
  unseen :
      (m' : ColorMap)
      → ((w : ℕ) → seen m' w ≡ seen m w)
      → seen m v ≡ false
      → Reading v m (white, m')
  begun : seen m v ≡ true → Reading v m (gray, m)
  closed : seen m v ≡ true → Reading v m (black, m)

read_entry : (v : ℕ) (m : ColorMap) (x : Color) → find_entry v m ≡ some x → Reading v m (x, m)
read_entry v m white p = unseen m (λ w. refl) (rw (seen, p) refl)
read_entry v m gray p = begun (rw (seen, p) refl)
read_entry v m black p = closed (rw (seen, p) refl)

seen-assign_white :
    (v : ℕ) (m : ColorMap) → seen m v ≡ false → (w : ℕ) → seen (assign_entry v white m) w ≡ seen m w
seen-assign_white v m p w = rw (seen-assign_entry v w white m) (ground arith)

look_up-Reading : (v : ℕ) (m : ColorMap) → Reading v m (look_up v m)
unfolding look_up
look_up-Reading v m = elim (Option-cases (find_entry v m)) [
  | inl new ↦
      let p : seen m v ≡ false = rw (seen, new) refl in
      rw (look_up, new) (unseen (assign_entry v white m) (seen-assign_white v m p) p)
  | inr (x, old) ↦ rw (look_up, old) (read_entry v m x old)
]

module _ {W : Type 0} (h : Heap) (vis : Visitor W) (skips : ℕ → Bool) (log : W → List ℕ) where
  module _ (linked : IsLinked h) (plain : IsPlain vis skips log) (source : ℕ) where
    -- What holds between two rounds, with at most `k` rounds left.
    data Underway (k : ℕ) : Outcome W → Type 0 where
      going :
          (s : State W) (m : ColorMap)
          → s.color_map_stack ≡ m ∷ []
          → Explored h skips source (log s.visitor) m ((s.u, s.out_edges) ∷ s.dfs_stack)
          → load ((s.u, s.out_edges) ∷ s.dfs_stack) + work h h.next_vertex (log s.visitor) ≤ k
          → Underway k (running s)
      done : (w : W) (m : ColorMap) → Explored h skips source (log w) m [] → Underway k (finished w)

    resume-Underway :
        (k : ℕ) (ps : List (ℕ × List ℕ)) (w : W) (m : ColorMap)
        → Explored h skips source (log w) m ps
        → load ps + work h h.next_vertex (log w) ≤ k
        → Underway k (resume ps w (m ∷ []))
    unfolding resume
    resume-Underway k [] w m x le = done w m x
    resume-Underway k ((v, es) ∷ ps) w m x le = going _ m refl x le

    close-Underway :
        (k : ℕ) (u : ℕ) (ps : List (ℕ × List ℕ)) (w : W) (m : ColorMap)
        → Explored h skips source (log w) m ((u, []) ∷ ps)
        → load ps + work h h.next_vertex (log w) ≤ k
        → Underway k (resume ps (vis.finish_vertex u w) (assign_entry u black m ∷ []))
    close-Underway k u ps w m x le =
        let same = sym (plain.finishes u w) in
        resume-Underway k ps (vis.finish_vertex u w) (assign_entry u black m)
          (subst (λ vs. Explored h skips source vs (assign_entry u black m) ps) same
            (Explored-finished h skips source (log w) m ps u x))
          (subst (λ vs. load ps + work h h.next_vertex vs ≤ k) same le)

    -- The edge in turn leads to a new vertex.
    descend-Underway :
        (k : ℕ) (s : State W) (m : ColorMap) (e v : ℕ) (es : List ℕ)
        → skips e ≡ false
        → (h.edge e).target ≡ some v
        → seen m v ≡ false
        → Explored h skips source (log s.visitor) m ((s.u, e ∷ es) ∷ s.dfs_stack)
        → load ((s.u, es) ∷ s.dfs_stack) + work h h.next_vertex (log s.visitor) ≤ k
        → Underway k (by_color h vis e v es s white (m ∷ []))
    unfolding by_color
    descend-Underway k s m e v es live to new x le =
        let (w, eq, same) = plain.trees e s.visitor in
        let (w', eq', more) = plain.discovers v w in
        let fresh : contains v (log s.visitor) ≡ false = x.coloring v ∙ new in
        let log_is : v ∷ log s.visitor ≡ log w' = sym (more ∙ ap (λ vs. v ∷ vs) same) in
        let x' =
          Explored-discovered h skips source (log s.visitor) m s.dfs_stack linked s.u e v es live to
            fresh x in
        rw (eq, eq')
          (going _ (assign_entry v gray m) refl
            (subst
              (λ vs.
                Explored h skips source vs (assign_entry v gray m)
                  ((v, (h.vertex v).out_edges) ∷ (s.u, es) ∷ s.dfs_stack))
              log_is x')
            (subst
              (λ vs.
                load ((v, (h.vertex v).out_edges) ∷ (s.u, es) ∷ s.dfs_stack)
                  + work h h.next_vertex vs
                ≤ k)
              log_is
              (omega (
                arith,
                work-cons h h.next_vertex v (log s.visitor) (x'.inside v (ground arith)) fresh,
              ))))

    -- The edge in turn is done with, and leads to nothing new.
    passed-Underway :
        (k : ℕ) (s : State W) (m : ColorMap) (ms : List ColorMap) (e : ℕ) (es : List ℕ) (w : W)
        → ((v : ℕ) → skips e ≡ false → (h.edge e).target ≡ some v → seen m v ≡ true)
        → ms ≡ m ∷ []
        → log w ≡ log s.visitor
        → Explored h skips source (log s.visitor) m ((s.u, e ∷ es) ∷ s.dfs_stack)
        → load ((s.u, es) ∷ s.dfs_stack) + work h h.next_vertex (log s.visitor) ≤ k
        → Underway k (running (record s { color_map_stack = ms; out_edges = es; visitor = w }))
    passed-Underway k s m ms e es w old one same x le =
        let x' =
          Explored-passed h skips source (log s.visitor) m s.dfs_stack s.u e es
            (λ v live to. x.coloring v ∙ old v live to) x in
        going _ m one
          (subst (λ vs. Explored h skips source vs m ((s.u, es) ∷ s.dfs_stack)) (sym same) x')
          (subst (λ vs. load ((s.u, es) ∷ s.dfs_stack) + work h h.next_vertex vs ≤ k) (sym same) le)

    color-Underway :
        (k : ℕ) (s : State W) (m : ColorMap) (e v : ℕ) (es : List ℕ)
        → skips e ≡ false
        → (h.edge e).target ≡ some v
        → Explored h skips source (log s.visitor) m ((s.u, e ∷ es) ∷ s.dfs_stack)
        → load ((s.u, es) ∷ s.dfs_stack) + work h h.next_vertex (log s.visitor) ≤ k
        → (r : Color × ColorMap) → Reading v m r
        → Underway k (by_color h vis e v es s r.0 (r.1 ∷ []))
    unfolding by_color
    color-Underway k s m e v es live to x le _ (unseen m' same new) =
        let x' =
          Explored-recolored h skips source (log s.visitor) m ((s.u, e ∷ es) ∷ s.dfs_stack) m' same
            x in
        descend-Underway k s m' e v es live to (same v ∙ new) x' le
    color-Underway k s m e v es live to x le _ (begun old) =
        passed-Underway k s m (m ∷ []) e es (vis.back_edge e s.visitor)
          (λ v' p q. ground (arith, old, q, to)) refl (plain.backs e s.visitor) x le
    color-Underway k s m e v es live to x le _ (closed old) =
        passed-Underway k s m (m ∷ []) e es (vis.forward_or_cross_edge e s.visitor)
          (λ v' p q. ground (arith, old, q, to)) refl (plain.crosses e s.visitor) x le

    edge-Underway :
        (k : ℕ) (s : State W) (m : ColorMap) (e : ℕ) (es : List ℕ)
        → s.color_map_stack ≡ m ∷ []
        → Explored h skips source (log s.visitor) m ((s.u, e ∷ es) ∷ s.dfs_stack)
        → load ((s.u, es) ∷ s.dfs_stack) + work h h.next_vertex (log s.visitor) ≤ k
        → Underway k (examined h vis e es s (vis.examine_edge e s.visitor))
    unfolding examined follow switch_context
    edge-Underway k s m e es one x le =
        let (w, eq, same) = plain.examines e s.visitor in
        elim (Bool-cases (skips e)) [
          | inl skip ↦
              rw (eq, skip)
                (passed-Underway k s m s.color_map_stack e es w (λ v p q. ground (arith, p, skip))
                  one same x le)
          | inr live ↦
              let (u, known, out) = x.ahead e (ground arith) in
              let (v, to, old) = edge_target h skips source linked e u out in
              rw (eq, live, one, to)
                (color-Underway k (record s { visitor = w }) m e v es live to
                  (subst (λ vs. Explored h skips source vs m ((s.u, e ∷ es) ∷ s.dfs_stack))
                    (sym same) x)
                  (subst (λ vs. load ((s.u, es) ∷ s.dfs_stack) + work h h.next_vertex vs ≤ k)
                    (sym same) le)
                  (look_up v m) (look_up-Reading v m))
        ]

    round_from-Underway :
        (k : ℕ) (s : State W) (m : ColorMap) (es : List ℕ)
        → s.color_map_stack ≡ m ∷ []
        → Explored h skips source (log s.visitor) m ((s.u, es) ∷ s.dfs_stack)
        → load ((s.u, es) ∷ s.dfs_stack) + work h h.next_vertex (log s.visitor) ≤ suc k
        → Underway k (round_from h vis s es)
    unfolding round_from close_vertex paint_top
    round_from-Underway k s m [] one x le =
        rw one (close-Underway k s.u s.dfs_stack s.visitor m x (omega arith))
    round_from-Underway k s m (e ∷ es) one x le = edge-Underway k s m e es one x (omega arith)

    round-Underway : (k : ℕ) (o : Outcome W) → Underway (suc k) o → Underway k (round h vis o)
    unfolding round
    round-Underway k _ (done w m x) = done w m x
    round-Underway k _ (going s m one x le) = round_from-Underway k s m s.out_edges one x le

    rounds-Underway : (k : ℕ) (o : Outcome W) → Underway k o → Underway 0 (rounds h vis k o)
    unfolding rounds
    rounds-Underway zero o p = p
    rounds-Underway (suc k) o p = rounds-Underway k (round h vis o) (round-Underway k o p)

    -- The visitor's state when there is nothing left to visit.
    Visited : Outcome W → Type 0
    Visited o = (w : W) × (m : ColorMap) × (o ≡ finished w) × Explored h skips source (log w) m []

    Underway-end : (o : Outcome W) → Underway 0 o → Visited o
    unfolding Visited
    Underway-end _ (done w m x) = (w, m, refl, x)
    Underway-end _ (going s m one x le) = absurd (omega arith)

    Explored-first :
        (w : W)
        → log w ≡ source ∷ []
        → source < h.next_vertex
        → Explored h skips source
            (log w)
            (assign_entry source gray [])
            ((source, (h.vertex source).out_edges) ∷ [])
    Explored-first w one old = rw one (record {
      coloring = λ v. rw (seen-assign_entry source v gray []) (ground arith);
      distinct = (refl, tt);
      reached = λ v p. subst (Reachable h skips source) (ground (arith, p)) here;
      inside = λ v p. ground (arith, p);
      begun = λ v p. ground (arith, p);
      started = ground arith;
      ahead = λ e p. (source, ground arith, ground (arith, p));
      covered = λ e u v p q r s. ground (arith, p, q);
    })

    enter-Underway :
        (k : ℕ) (w : W)
        → log w ≡ []
        → source < h.next_vertex
        → work h h.next_vertex [] ≤ k
        → Underway k (started h vis source (some w))
    unfolding started enter paint_top edges_after
    enter-Underway k w none_yet old le =
        let (w', eq, more) = plain.discovers source w in
        let first : log w' ≡ source ∷ [] = more ∙ ap (λ vs. source ∷ vs) none_yet in
        rw eq (
          going _ (assign_entry source gray []) refl (Explored-first w' first old) (
            subst
              (λ vs.
                load ((source, (h.vertex source).out_edges) ∷ []) + work h h.next_vertex vs ≤ k)
              (sym first) (omega (arith, work-cons h h.next_vertex source [] old refl))))

    reached_all :
        (vs : List ℕ) (m : ColorMap) (v : ℕ)
        → Explored h skips source vs m []
        → Reachable h skips source v
        → contains v vs ≡ true
    reached_all vs m v x here = x.started
    reached_all vs m v x (along {u} e r out live to) =
        ground (arith, x.covered e u v (reached_all vs m u x r) out live to)

    -- On consistent links, from an allocated vertex where start_vertex has no fault and discovers
    -- nothing, a visitor that follows every edge that it does not skip is done after one round for each out edge and one for each vertex: improved_depth_first_visit
    -- ends without a fault, has discovered exactly the vertices that a path of edges that are not
    -- skipped reaches, and each of them once.
    pub improved_depth_first_visit_lem :
        (w started_w : W) (n : ℕ)
        → vis.start_vertex source w ≡ some started_w
        → log started_w ≡ []
        → source < h.next_vertex
        → work h h.next_vertex [] ≤ n
        → (w' : W) × (improved_depth_first_visit h vis source w n ≡ finished w')
          × IsDistinct (log w')
          × ((v : ℕ) → (contains v (log w') ≡ true) ↔ Reachable h skips source v)
    unfolding improved_depth_first_visit Visited
    improved_depth_first_visit_lem w started_w n starts none_yet old le =
        let first = started h vis source (some started_w) in
        let (w', m, eq, x) =
          Underway-end (rounds h vis n first)
            (rounds-Underway n first (enter-Underway n started_w none_yet old le)) in
        (w', rw starts eq, x.distinct, λ v. (x.reached v, reached_all (log w') m v x))
