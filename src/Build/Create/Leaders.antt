-- ===== src/Build/Create/Leaders.antt =====
-- Basic block leaders in the loops of CreateControlFlowGraph, AddImpossibleEdges and
-- CheckForNoInEdges.
use coflo.Prelude.{
  ℕ, ◌≤◌, ◌<◌, ◌≡◌, refl, inl, inr, false, List, [], ◌∷◌, map, some, arith, ◌==◌, if◌then◌else◌,
  Bool-cases, Option-cases, All, eq_of_some, subst, sym,
}
use mathlib.Core.List.{map-append}
use coflo.Statement.{impossible}
use coflo.Graph.{Heap, Cfg, add_new_edge, add_vertex, in_degree}
use coflo.Graph.Degrees.{in_degree-add_new_edge}
use coflo.Build.Create.{
  BasicBlockLeaderInfo, Progress, set_owning_function, place_statement, add_statement,
  add_statements, add_impossible_edges, check_for_no_in_edges,
}

abbrev pub leaders_of : List BasicBlockLeaderInfo → List ℕ
leaders_of = map (λ (i : BasicBlockLeaderInfo). i.leader)

-- The watch list of the loop holds the leaders that it recorded.
abbrev pub Watched : Progress → Type 0
Watched p = p.list_of_statements_with_no_in_edge_yet ≡ leaders_of p.list_of_leader_info

place_statement-Watched : (vid : ℕ) (p : Progress) → Watched p → Watched (place_statement vid p)
unfolding place_statement
place_statement-Watched vid p w = elim (Bool-cases p.prev_vertex_ended_basic_block) [
  | inl e ↦ rw e (rw w (sym (map-append _ p.list_of_leader_info _)))
  | inr e ↦ rw e w
]

add_statement-Watched :
    (f sbp : ℕ) (p p' : Progress) → Watched p → add_statement f sbp p ≡ some p' → Watched p'
unfolding add_statement
add_statement-Watched f sbp p p' w e =
    elim (Bool-cases (add_vertex sbp (set_owning_function f sbp p.cfg)).1) [
      | inl done ↦ subst Watched (eq_of_some (rw done at e)) (
          place_statement-Watched sbp
            (record p { cfg = (add_vertex sbp (set_owning_function f sbp p.cfg)).0 }) w)
      | inr thrown ↦ cc (rw thrown at e)
    ]

pub add_statements-Watched :
    (f : ℕ) (statement_list : List ℕ) (p p' : Progress)
    → Watched p
    → add_statements f statement_list p ≡ some p'
    → Watched p'
unfolding add_statements
add_statements-Watched f [] p p' w e = subst Watched (eq_of_some e) w
add_statements-Watched f (sbp ∷ rest) p p' w e = elim (Option-cases (add_statement f sbp p)) [
  | inl thrown ↦ cc (rw (thrown, add_statements) at e)
  | inr (q, step) ↦
      add_statements-Watched f rest q p' (add_statement-Watched f sbp p q w step)
        (rw (step, add_statements) at e)
]

module _ (p : BasicBlockLeaderInfo) (c : Cfg) where
  -- The body of the loop in AddImpossibleEdges.
  abbrev linked_leader : Cfg
  linked_leader =
      if in_degree c.heap p.leader == 0
      then add_new_edge p.immediate_predecessor p.leader impossible c
      else c

  linked_leader-le :
      (w : ℕ)
      → (in_degree c.heap w ≤ in_degree linked_leader.heap w)
        × (0 < in_degree linked_leader.heap p.leader)
  linked_leader-le w =
      ground (arith, in_degree-add_new_edge p.immediate_predecessor p.leader w impossible c)

add_impossible_edges-le :
    (is : List BasicBlockLeaderInfo) (w : ℕ) (c : Cfg)
    → in_degree c.heap w ≤ in_degree (add_impossible_edges is c).heap w
unfolding add_impossible_edges
add_impossible_edges-le [] w c = omega arith
add_impossible_edges-le (p ∷ is) w c =
    omega (arith, (linked_leader-le p c w).0, add_impossible_edges-le is w (linked_leader p c))

-- After AddImpossibleEdges every leader has an in edge.
pub add_impossible_edges_links :
    (is : List BasicBlockLeaderInfo) (c : Cfg)
    → All (λ (i : BasicBlockLeaderInfo). 0 < in_degree (add_impossible_edges is c).heap i.leader) is
unfolding add_impossible_edges
add_impossible_edges_links [] c = tt
add_impossible_edges_links (p ∷ is) c = (
  omega (
    arith,
    (linked_leader-le p c p.leader).1,
    add_impossible_edges-le is p.leader (linked_leader p c),
  ),
  add_impossible_edges_links is (linked_leader p c),
)

check-none :
    (is : List BasicBlockLeaderInfo) (h : Heap)
    → All (λ (i : BasicBlockLeaderInfo). 0 < in_degree h i.leader) is
    → check_for_no_in_edges (leaders_of is) h ≡ ([], false)
unfolding check_for_no_in_edges
check-none [] h a = refl
check-none (i ∷ is) h a = ground (arith, check-none is h a.1)

-- After AddImpossibleEdges every basic block leader has an in edge: CheckForNoInEdges on the
-- leaders reports none.
pub check-add_impossible_edges :
    (is : List BasicBlockLeaderInfo) (c : Cfg)
    → check_for_no_in_edges (leaders_of is) (add_impossible_edges is c).heap ≡ ([], false)
check-add_impossible_edges is c =
    check-none is (add_impossible_edges is c).heap (add_impossible_edges_links is c)
