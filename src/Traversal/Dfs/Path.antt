-- ===== src/Traversal/Dfs/Path.antt =====
-- ControlFlowGraphTraversalDFS::Traverse with a visitor that keeps the path to the current vertex: the
-- call stack and the edges that are skipped.
pub mod Steps
use coflo.Prelude.{
  ℕ, zero, suc, ◌≡◌, refl, ap, ◌∙◌, sym, subst, inl, inr, Bool, true, false, ◌||◌, List, [], ◌∷◌,
  Option, none, some, arith, ◌==◌, if◌then◌else◌, points_to, is_null, contains, Bool-cases,
  Option-cases, List-cases, All, eq_of_some,
}
use coflo.Statement.{EdgeType, function_call, return_edge, function_call_bypass}
use coflo.Graph.{Heap}
use coflo.Graph.Links.{IsLinked}
use coflo.Traversal.{
  Color, white, gray, black, CallStack, Frame, push_call_stack, pop_call_stack, pop_frame, put, get,
  erase_called, paint_top, paint, color_of_top, color_of,
}
use coflo.Traversal.Dfs.{
  Answer, ok, terminate_branch, terminate_search, Visitor, State, Outcome, running, finished,
  stopped, fault, followed, skip_return_on, skip_return, skip_by_type, skip_edge, call, discovered,
  by_color, follow, examined, take_edge, resume, close_vertex, step, next, begin, traverse,
  root_calls,
}

-- The frame at the bottom is the only one that no call need have pushed.
abbrev pub rooted : List Frame → Bool
rooted [] = false
rooted (f ∷ []) = is_null f.pushing_call
rooted (f ∷ g ∷ fs) = rooted (g ∷ fs)

-- `p` leads from `source` to `u` by edges that are `Allowed`, the last edge first; below it lies one
-- more edge, that the visitor had before the traversal.
abbrev pub Trail : Heap → (ℕ → Type 0) → ℕ → ℕ → List ℕ → Type 0
Trail h Allowed source u [] = ⊥
Trail h Allowed source u (e ∷ []) = u ≡ source
Trail h Allowed source u (e ∷ d ∷ p) =
    Allowed e
    × ((h.edge e).target ≡ some u)
    × (v : ℕ) × ((h.edge e).source ≡ some v)
    × Trail h Allowed source v (d ∷ p)

-- A visitor that keeps a path: the edges of the search tree that lead to the current vertex.
pub record KeepsPath {W : Type 0} (vis : Visitor W) (path : W → List ℕ) (Allowed Goal : ℕ → Type 0)
    : Type 0 where
  pub discover : (u : ℕ) (w : W) → path (vis.discover_vertex u w).1 ≡ path w
  pub goal : (u : ℕ) (w : W) → (vis.discover_vertex u w).0 ≡ terminate_search → Goal u
  pub examine : (e : ℕ) (w : W) → path (vis.examine_edge e w).1 ≡ path w
  pub allowed : (e : ℕ) (w : W) → (vis.examine_edge e w).0 ≡ ok → Allowed e
  pub goes_on : (e : ℕ) (w : W) → (vis.examine_edge e w).0 ≡ terminate_search → ⊥
  pub tree : (e : ℕ) (w : W) → path (vis.tree_edge e w) ≡ e ∷ path w
  pub back : (e : ℕ) (w : W) → path (vis.back_edge e w) ≡ path w
  pub cross : (e : ℕ) (w : W) → path (vis.forward_or_cross_edge e w) ≡ path w
  pub finish :
      (u e : ℕ) (p : List ℕ) (w : W)
      → path w ≡ e ∷ p
      → (w' : W) × (vis.finish_vertex u w ≡ some w') × (path w' ≡ p)

-- A step of the call stack that succeeds and keeps the bottom frame.
abbrev Keeps : Option CallStack → Type 0
Keeps r = (s : CallStack) × (r ≡ some s) × (rooted s.frames ≡ true)

rooted-frame :
    (f g : Frame) (fs : List Frame)
    → f.pushing_call ≡ g.pushing_call
    → rooted (f ∷ fs) ≡ true
    → rooted (g ∷ fs) ≡ true
rooted-frame f g [] e r = subst (λ (x : Option ℕ). is_null x ≡ true) e r
rooted-frame f g (k ∷ fs) e r = r

paint_top-Keeps :
    (v : ℕ) (x : Color) (q : List ℕ) (fs : List Frame)
    → rooted fs ≡ true
    → Keeps (paint_top v x q fs)
unfolding paint_top
paint_top-Keeps v x q [] r = cc
paint_top-Keeps v x q (f ∷ fs) r = (
  record { frames = record f { color_map = put v x f.color_map } ∷ fs; call_set = q },
  refl,
  rooted-frame f (record f { color_map = put v x f.color_map }) fs refl r,
)

paint-Keeps : (v : ℕ) (x : Color) (s : CallStack) → rooted s.frames ≡ true → Keeps (paint v x s)
unfolding paint
paint-Keeps v x s r = paint_top-Keeps v x s.call_set s.frames r

color_of_top-Keeps :
    (v : ℕ) (q : List ℕ) (fs : List Frame)
    → rooted fs ≡ true
    → (x : Color) × (s : CallStack) × (color_of_top v q fs ≡ some (x, s)) × (rooted s.frames ≡ true)
unfolding color_of_top
color_of_top-Keeps v q [] r = cc
color_of_top-Keeps v q (f ∷ fs) r =
    let m = get v f.color_map in
    let g : Frame = record f { color_map = m.1 } in
    (m.0, record { frames = g ∷ fs; call_set = q }, refl, rooted-frame f g fs refl r)

color_of-Keeps :
    (v : ℕ) (s : CallStack)
    → rooted s.frames ≡ true
    → (x : Color) × (s' : CallStack) × (color_of v s ≡ some (x, s')) × (rooted s'.frames ≡ true)
unfolding color_of
color_of-Keeps v s r = color_of_top-Keeps v s.call_set s.frames r

call-rooted :
    (t : EdgeType) (s : CallStack) → rooted s.frames ≡ true → rooted (call t s).frames ≡ true
unfolding call push_call_stack
call-rooted (function_call c f) s r = elim (List-cases s.frames) [
  | inl e ↦ cc (rw e at r)
  | inr (g, fs, e) ↦ rw e (rw e at r)
]
call-rooted _ s r = r

-- Whether an edge is skipped is decided, and the bottom frame stays.
abbrev Decides : Option (Bool × CallStack) → Type 0
Decides r = (b : Bool) × (s : CallStack) × (r ≡ some (b, s)) × (rooted s.frames ≡ true)

pop_frame-Keeps :
    (h : Heap) (c : ℕ) (q : List ℕ) (f : Frame) (fs : List Frame)
    → f.pushing_call ≡ some c
    → rooted (f ∷ fs) ≡ true
    → Keeps (pop_frame h q (f ∷ fs))
unfolding pop_frame
pop_frame-Keeps h c q f [] e r = cc (rw e at r)
pop_frame-Keeps h c q f (g ∷ fs) e r =
    rw e (record { frames = g ∷ fs; call_set = erase_called (h.vertex c).statement q }, refl, r)

pointed : (o : Option ℕ) (c : ℕ) → points_to o c ≡ true → o ≡ some c
pointed none c e = cc
pointed (some b) c e = ground arith

followed-Decides : (r : Option CallStack) → Keeps r → Decides (followed r)
unfolding followed
followed-Decides r (s, e, k) = rw e (false, s, refl, k)

skip_return_on-Decides :
    (h : Heap) (c : ℕ) (s : CallStack) (fs : List Frame)
    → s.frames ≡ fs
    → rooted fs ≡ true
    → Decides (skip_return_on h c s fs)
unfolding skip_return_on pop_call_stack
skip_return_on-Decides h c s [] e r = cc
skip_return_on-Decides h c s (f ∷ fs) e r = elim (Bool-cases (points_to f.pushing_call c)) [
  | inl here ↦ rw here (
      followed-Decides (pop_call_stack h s)
        (rw e (pop_frame-Keeps h c s.call_set f fs (pointed f.pushing_call c here) r)))
  | inr other ↦ rw other (true, s, refl, rw e r)
]

skip_by_type-Decides :
    (h : Heap) (t : EdgeType) (s : CallStack)
    → rooted s.frames ≡ true
    → Decides (skip_by_type h t s)
unfolding skip_by_type skip_return
skip_by_type-Decides h (return_edge c) s r = skip_return_on-Decides h c s s.frames refl r
skip_by_type-Decides h function_call_bypass s r = (true, s, refl, r)
skip_by_type-Decides h _ s r = (false, s, refl, r)

skip_edge-Decides :
    (h : Heap) (e : ℕ) (s : CallStack) → rooted s.frames ≡ true → Decides (skip_edge h e s)
unfolding skip_edge
skip_edge-Decides h e s r = elim (Bool-cases (h.edge e).is_back_edge) [
  | inl back ↦ rw back (true, s, refl, r)
  | inr other ↦ rw other (skip_by_type-Decides h (h.edge e).edge_type s r)
]

abbrev Out : Heap → ℕ → List ℕ → Type 0
Out h u = All (λ (e : ℕ). (h.edge e).source ≡ some u)

module _ {W : Type 0} (h : Heap) (vis : Visitor W) (path : W → List ℕ) (Allowed Goal : ℕ → Type 0)
    (source : ℕ) where
  -- The contexts on the stack are those of the vertices of the path, in its order.
  abbrev Stacked : ℕ → List (ℕ × List ℕ) → List ℕ → Type 0
  Stacked u [] p = (u ≡ source) × (e : ℕ) × (p ≡ e ∷ [])
  Stacked u ((v, es) ∷ st) p =
      (e : ℕ) × (q : List ℕ) × (p ≡ e ∷ q)
      × Allowed e
      × ((h.edge e).target ≡ some u)
      × ((h.edge e).source ≡ some v)
      × Out h v es
      × Stacked v st q

  abbrev Inv : State W → Type 0
  Inv s =
      (rooted s.calls.frames ≡ true)
      × Out h s.u s.out_edges
      × Stacked s.u s.dfs_stack (path s.visitor)

  abbrev pub Good : Outcome W → Type 0
  Good (running s) = Inv s
  Good (finished w) = path w ≡ []
  Good (stopped w) = (u : ℕ) × Goal u × Trail h Allowed source u (path w)
  Good fault = ⊥

  Trail-cons :
      (e u v d : ℕ) (q p : List ℕ)
      → p ≡ d ∷ q
      → Allowed e
      → (h.edge e).target ≡ some u
      → (h.edge e).source ≡ some v
      → Trail h Allowed source v p
      → Trail h Allowed source u (e ∷ p)
  Trail-cons e u v d q [] eq a t s tr = cc
  Trail-cons e u v d q (x ∷ p) eq a t s tr = (a, t, v, s, tr)

  Stacked-cons :
      (u : ℕ) (st : List (ℕ × List ℕ)) (p : List ℕ)
      → Stacked u st p
      → (d : ℕ) × (q : List ℕ) × (p ≡ d ∷ q)
  Stacked-cons u [] p (_, e, eq) = (e, [], eq)
  Stacked-cons u ((v, es) ∷ st) p (e, q, eq, _, _, _, _, _) = (e, q, eq)

  Stacked-Trail :
      (u : ℕ) (st : List (ℕ × List ℕ)) (p : List ℕ) → Stacked u st p → Trail h Allowed source u p
  Stacked-Trail u [] p (same, e, eq) = subst (Trail h Allowed source u) (sym eq) same
  Stacked-Trail u ((v, es) ∷ st) p (e, q, eq, a, t, s, _, rest) =
      let (d, q', eq') = Stacked-cons v st q rest in
      subst (Trail h Allowed source u) (sym eq)
        (Trail-cons e u v d q' q eq' a t s (Stacked-Trail v st q rest))
