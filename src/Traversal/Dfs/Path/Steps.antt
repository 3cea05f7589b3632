-- ===== src/Traversal/Dfs/Path/Steps.antt =====
-- The rounds of ControlFlowGraphTraversalDFS::Traverse with a visitor that keeps a path.
use coflo.Prelude.{
  ℕ, zero, suc, ◌≡◌, refl, ◌∙◌, sym, subst, inl, inr, Bool, true, false, List, [], ◌∷◌, some, arith,
  points_to, contains, Option-cases, All,
}
use coflo.Graph.{Heap}
use coflo.Graph.Links.{IsLinked}
use coflo.Traversal.{Color, white, gray, black, CallStack, push_call_stack, paint}
use coflo.Traversal.Dfs.{
  Answer, ok, terminate_branch, terminate_search, Visitor, State, Outcome, running, finished,
  stopped, fault, call, discovered, by_color, follow, examined, take_edge, resume, close_vertex,
  step_from, step, next, begin, traverse, root_calls,
}
use coflo.Traversal.Dfs.Path.{
  rooted, KeepsPath, Out, Stacked, Good, Stacked-Trail, paint-Keeps, color_of-Keeps, call-rooted,
  skip_edge-Decides,
}

all-source :
    (h : Heap) (u : ℕ) (es : List ℕ)
    → ((e : ℕ) → contains e es ≡ true → (h.edge e).source ≡ some u)
    → All (λ (e : ℕ). (h.edge e).source ≡ some u) es
all-source h u [] f = tt
all-source h u (e ∷ es) f = (f e (ground arith), all-source h u es (λ x p. f x (ground arith)))

source_of : (h : Heap) (u e : ℕ) → points_to (h.edge e).source u ≡ true → (h.edge e).source ≡ some u
source_of h u e p = elim (Option-cases (h.edge e).source) [
  | inl n ↦ cc (rw n at p)
  | inr (v, q) ↦ ground arith
]

out_edges_lem : (h : Heap) (u : ℕ) → IsLinked h → Out h u (h.vertex u).out_edges
out_edges_lem h u linked =
    all-source h u (h.vertex u).out_edges (λ e p. source_of h u e (sym (linked.out_links e u) ∙ p))

has_target :
    (h : Heap) (u e : ℕ)
    → IsLinked h
    → (h.edge e).source ≡ some u
    → (v : ℕ) × ((h.edge e).target ≡ some v)
has_target h u e linked p = elim (Option-cases (h.edge e).target) [
  | inl n ↦ cc (rw (p, n) at (linked.paired e))
  | inr found ↦ found
]

module _ {W : Type 0} (h : Heap) (vis : Visitor W) (path : W → List ℕ) (Allowed Goal : ℕ → Type 0)
    (source : ℕ) (linked : IsLinked h) (keeps : KeepsPath vis path Allowed Goal) where
  abbrev IsGood : Outcome W → Type 0
  IsGood = Good h vis path Allowed Goal source

  abbrev OnStack : ℕ → List (ℕ × List ℕ) → List ℕ → Type 0
  OnStack = Stacked h vis path Allowed Goal source

  resume-Good :
      (calls : CallStack) (u : ℕ) (st : List (ℕ × List ℕ)) (w : W)
      → rooted calls.frames ≡ true
      → OnStack u st (path w)
      → IsGood (resume calls st (vis.finish_vertex u w))
  unfolding resume
  resume-Good calls u [] w r (_, e, eq) = let (w', done, p) = keeps.finish u e [] w eq in rw done p
  resume-Good calls u ((v, es) ∷ st) w r (e, q, eq, _, _, _, out, rest) =
      let (w', done, p) = keeps.finish u e q w eq in
      rw done (r, out, subst (OnStack v st) (sym p) rest)

  discovered-Good :
      (v : ℕ) (calls : CallStack) (st : List (ℕ × List ℕ)) (a : Answer) (w : W)
      → (a ≡ terminate_search → Goal v)
      → rooted calls.frames ≡ true
      → OnStack v st (path w)
      → IsGood (discovered h v calls st (a, w))
  unfolding discovered
  discovered-Good v calls st ok w g r on = (r, out_edges_lem h v linked, on)
  discovered-Good v calls st terminate_branch w g r on = (r, tt, on)
  discovered-Good v calls st terminate_search w g r on =
      (v, g refl, Stacked-Trail h vis path Allowed Goal source v st (path w) on)

  by_color-Good :
      (e v : ℕ) (es : List ℕ) (s : State W) (x : Color) (calls : CallStack)
      → Allowed e
      → (h.edge e).target ≡ some v
      → (h.edge e).source ≡ some s.u
      → Out h s.u es
      → OnStack s.u s.dfs_stack (path s.visitor)
      → rooted calls.frames ≡ true
      → IsGood (by_color h vis e v es s (x, calls))
  unfolding by_color
  by_color-Good e v es s white calls a t p out on r =
      let (calls', done, r') = paint-Keeps v gray calls r in
      let w = vis.tree_edge e s.visitor in
      rw (done, by_color)
        (discovered-Good v calls' ((s.u, es) ∷ s.dfs_stack) (vis.discover_vertex v w).0
          (vis.discover_vertex v w).1 (keeps.goal v w) r'
          (e, path s.visitor, keeps.discover v w ∙ keeps.tree e s.visitor, a, t, p, out, on))
  by_color-Good e v es s gray calls a t p out on r =
      (r, out, subst (OnStack s.u s.dfs_stack) (sym (keeps.back e s.visitor)) on)
  by_color-Good e v es s black calls a t p out on r =
      (r, out, subst (OnStack s.u s.dfs_stack) (sym (keeps.cross e s.visitor)) on)

  follow-Good :
      (e v : ℕ) (es : List ℕ) (s : State W)
      → Allowed e
      → (h.edge e).target ≡ some v
      → (h.edge e).source ≡ some s.u
      → Out h s.u es
      → OnStack s.u s.dfs_stack (path s.visitor)
      → rooted s.calls.frames ≡ true
      → IsGood (follow h vis e es s (some v))
  unfolding follow
  follow-Good e v es s a t p out on r =
      let (x, calls, done, r') =
        color_of-Keeps v (call (h.edge e).edge_type s.calls)
          (call-rooted (h.edge e).edge_type s.calls r) in
      rw (done, follow) (by_color-Good e v es s x calls a t p out on r')

  examined-Good :
      (e : ℕ) (es : List ℕ) (s : State W) (a : Answer) (w : W)
      → (a ≡ ok → Allowed e)
      → (a ≡ terminate_search → ⊥)
      → (h.edge e).source ≡ some s.u
      → Out h s.u es
      → OnStack s.u s.dfs_stack (path w)
      → rooted s.calls.frames ≡ true
      → IsGood (examined h vis e es s (a, w))
  unfolding examined
  examined-Good e es s ok w ok_lem goes_on p out on r =
      let (v, t) = has_target h s.u e linked p in
      rw t (follow-Good e v es (record s { visitor = w }) (ok_lem refl) t p out on r)
  examined-Good e es s terminate_branch w ok_lem goes_on p out on r = (r, out, on)
  examined-Good e es s terminate_search w ok_lem goes_on p out on r = absurd (goes_on refl)

  take_edge-Good :
      (e : ℕ) (es : List ℕ) (s : State W) (b : Bool) (calls : CallStack)
      → (h.edge e).source ≡ some s.u
      → Out h s.u es
      → OnStack s.u s.dfs_stack (path s.visitor)
      → rooted calls.frames ≡ true
      → IsGood (take_edge h vis e es s (some (b, calls)))
  unfolding take_edge
  take_edge-Good e es s true calls p out on r = (r, out, on)
  take_edge-Good e es s false calls p out on r =
      let x = vis.examine_edge e s.visitor in
      examined-Good e es (record s { calls = calls }) x.0 x.1 (keeps.allowed e s.visitor)
        (keeps.goes_on e s.visitor) p out
        (subst (OnStack s.u s.dfs_stack) (sym (keeps.examine e s.visitor)) on) r

  step_from-Good :
      (s : State W) (es : List ℕ)
      → rooted s.calls.frames ≡ true
      → Out h s.u es
      → OnStack s.u s.dfs_stack (path s.visitor)
      → IsGood (step_from h vis s es)
  unfolding step_from close_vertex
  step_from-Good s [] r out on =
      let (calls, done, r') = paint-Keeps s.u black s.calls r in
      rw done (resume-Good calls s.u s.dfs_stack s.visitor r' on)
  step_from-Good s (e ∷ es) r out on =
      let (b, calls, done, r') = skip_edge-Decides h e s.calls r in
      rw done (take_edge-Good e es s b calls out.0 out.1 on r')

  next-Good : (o : Outcome W) → IsGood o → IsGood (next h vis o)
  unfolding next step
  next-Good (running s) (r, out, on) = step_from-Good s s.out_edges r out on
  next-Good (finished w) g = g
  next-Good (stopped w) g = g
  next-Good fault g = absurd g

  begin-Good :
      (calls : CallStack) (a : Answer) (w : W) (e : ℕ)
      → rooted calls.frames ≡ true
      → path w ≡ e ∷ []
      → IsGood (begin h source (some calls) (a, w))
  unfolding begin
  begin-Good calls ok w e r p = (r, out_edges_lem h source linked, (refl, e, p))
  begin-Good calls terminate_branch w e r p = (r, tt, (refl, e, p))
  begin-Good calls terminate_search w e r p = (r, tt, (refl, e, p))

  -- On consistent links, from a source with an owning function and a visitor state whose path is one edge, a traversal with a
  -- visitor that keeps its path has no undefined behaviour after any number of rounds. If it has
  -- stopped, the path leads by allowed edges from the source to a goal of the visitor; if it has
  -- finished, the path is empty.
  pub traverse-Good :
      (f : ℕ) (w : W) (e n : ℕ)
      → (h.vertex source).owning_function ≡ some f
      → path w ≡ e ∷ []
      → IsGood (traverse h vis source w n)
  unfolding traverse root_calls paint push_call_stack
  traverse-Good f w e zero owner p =
      let x = vis.discover_vertex source w in
      rw owner (begin-Good _ x.0 x.1 e refl (keeps.discover source w ∙ p))
  traverse-Good f w e (suc n) owner p =
      next-Good (traverse h vis source w n) (traverse-Good f w e n owner p)
