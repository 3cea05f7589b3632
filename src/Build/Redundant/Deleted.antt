-- ===== src/Build/Redundant/Deleted.antt =====
-- The vertices that RemoveRedundantNodes deletes: src/controlflowgraph/algorithms/cfg_algs.cpp.
use coflo.Prelude.{
  ℕ, ◌≡◌, refl, ap, sym, ◌∙◌, inl, inr, true, ◌||◌, ◌&&◌, List, [], ◌∷◌, ◌++◌, Option, none, some,
  arith, contains, Bool-cases, Option-cases, ◌==◌, eq_of_some, subst, if_keeps,
}
use coflo.Graph.{Heap, Cfg, change_target, remove_edge, remove_vertex, in_degree, out_degree}
use coflo.Build.Redundant.{
  is_candidate, Pruned, bypass, schedule, bypass_first, prune_vertex, prune_vertices,
  remove_scheduled,
}

change_target-deleted : (e t : ℕ) (h : Heap) → (change_target e t h).deleted ≡ h.deleted
unfolding change_target
change_target-deleted e t h = elim (Option-cases (h.edge e).target) [
  | inl null ↦ ground arith
  | inr (x, to) ↦ ground arith
]

remove_edge-deleted :
    (e : ℕ) (c d : Cfg) → remove_edge e c ≡ some d → d.heap.deleted ≡ c.heap.deleted
unfolding remove_edge
remove_edge-deleted e c d is = elim (Option-cases (c.heap.edge e).source) [
  | inl null ↦ cc (rw null at is)
  | inr (s, from) ↦ elim (Option-cases (c.heap.edge e).target) [
    | inl null ↦ cc (rw (from, null) at is)
    | inr (t, to) ↦ ap (λ (k : Cfg). k.heap.deleted) (sym (eq_of_some (rw (from, to) at is)))
  ]
]

bypass-deleted : (i o : ℕ) (c d : Cfg) → bypass i o c ≡ some d → d.heap.deleted ≡ c.heap.deleted
unfolding bypass
bypass-deleted i o c d is = elim (Option-cases (c.heap.edge o).target) [
  | inl null ↦ cc (rw (bypass, null) at is)
  | inr (t, to) ↦
      remove_edge-deleted o (record c { heap = change_target i t c.heap }) d (rw (bypass, to) at is)
      ∙ change_target-deleted i t c.heap
]

-- From `p` to `q` nothing is deleted, and no vertex but those of `ws` is scheduled.
abbrev pub Schedules : List ℕ → Pruned → Pruned → Type 0
Schedules ws p q =
    (q.cfg.heap.deleted ≡ p.cfg.heap.deleted)
    × ((v : ℕ)
        → contains v q.vertices_to_remove ≡ true
        → (contains v p.vertices_to_remove || contains v ws) ≡ true)

contains-snoc :
    (w v : ℕ) (xs : List ℕ) → contains w (xs ++ v ∷ []) ≡ (contains w xs || contains w (v ∷ []))
contains-snoc w v [] = refl
contains-snoc w v (x ∷ xs) = ground (arith, contains-snoc w v xs)

schedule-Schedules :
    (v : ℕ) (c : Option Cfg) (p q : Pruned)
    → ((d : Cfg) → c ≡ some d → d.heap.deleted ≡ p.cfg.heap.deleted)
    → schedule v p.vertices_to_remove c ≡ some q
    → Schedules (v ∷ []) p q
unfolding schedule
schedule-Schedules v none p q same is = cc
schedule-Schedules v (some d) p q same is = subst (Schedules (v ∷ []) p) (eq_of_some is) (
  same d refl,
  λ w.
      if_keeps
        (λ vs.
          contains w vs ≡ true → (contains w p.vertices_to_remove || contains w (v ∷ [])) ≡ true)
        ((in_degree d.heap v == 0) && (out_degree d.heap v == 0)) (p.vertices_to_remove ++ v ∷ [])
        p.vertices_to_remove (λ mem. sym (contains-snoc w v p.vertices_to_remove) ∙ mem)
        (λ mem. ground (arith, mem)),
)

bypass_first-Schedules :
    (v : ℕ) (ins outs : List ℕ) (p q : Pruned)
    → bypass_first v ins outs p ≡ some q
    → Schedules (v ∷ []) p q
unfolding bypass_first
bypass_first-Schedules v [] outs p q is =
    subst (Schedules (v ∷ []) p) (eq_of_some is) (refl, λ w mem. ground (arith, mem))
bypass_first-Schedules v (i ∷ ins) [] p q is =
    subst (Schedules (v ∷ []) p) (eq_of_some is) (refl, λ w mem. ground (arith, mem))
bypass_first-Schedules v (i ∷ ins) (o ∷ outs) p q is =
    schedule-Schedules v (bypass i o p.cfg) p q (λ d done. bypass-deleted i o p.cfg d done) is

prune_vertex-Schedules : (v : ℕ) (p q : Pruned) → prune_vertex v p ≡ some q → Schedules (v ∷ []) p q
unfolding prune_vertex
prune_vertex-Schedules v p q is =
    let x = p.cfg.heap.vertex v in
    elim (Bool-cases (
      is_candidate x.statement
      && (in_degree p.cfg.heap v == 1)
      && (out_degree p.cfg.heap v == 1))) [
        | inl redundant ↦
            bypass_first-Schedules v x.in_edges x.out_edges p q (rw (prune_vertex, redundant) at is)
        | inr kept ↦
            subst (Schedules (v ∷ []) p) (eq_of_some (rw (prune_vertex, kept) at is))
              (refl, λ w mem. ground (arith, mem))
      ]

pub prune_vertices-Schedules :
    (ws : List ℕ) (p q : Pruned) → prune_vertices ws p ≡ some q → Schedules ws p q
unfolding prune_vertices
prune_vertices-Schedules [] p q is =
    subst (Schedules [] p) (eq_of_some is) (refl, λ v mem. ground (arith, mem))
prune_vertices-Schedules (w ∷ ws) p q is = elim (Option-cases (prune_vertex w p)) [
  | inl null ↦ cc (rw (null, prune_vertices) at is)
  | inr (r, step) ↦
      let (same₁, new₁) = prune_vertex-Schedules w p r step in
      let (same₂, new₂) = prune_vertices-Schedules ws r q (rw (step, prune_vertices) at is) in
      (same₂ ∙ same₁, λ v mem. ground (arith, new₁ v, new₂ v mem))
]

pub remove_scheduled-deleted :
    (vs : List ℕ) (c : Cfg) (w : ℕ)
    → contains w (remove_scheduled vs c).heap.deleted ≡ (contains w vs || contains w c.heap.deleted)
unfolding remove_scheduled remove_vertex
remove_scheduled-deleted [] c w = refl
remove_scheduled-deleted (v ∷ vs) c w =
    let c' = remove_vertex v c in
    ground (
      arith,
      remove_scheduled-deleted vs
          (record c' { heap = record (c'.heap) { deleted = v ∷ c'.heap.deleted } }) w,
    )
