-- ===== src/Build/Create/Links.antt =====
-- The links in the loops of CreateControlFlowGraph.
use coflo.Prelude.{
  ℕ, ◌≤◌, ◌<◌, ◌≡◌, inl, inr, String, List, [], ◌∷◌, Option, none, some, arith, ◌==◌, if◌then◌else◌,
  Bool-cases, Option-cases, All, All-concat, All-map, eq_of_some, subst,
}
use coflo.Statement.{Statement, fallthrough, impossible, label, is_flow_control_unlinked}
use coflo.Graph.{Cfg, add_new_edge, add_vertex, replace_vertex, in_degree}
use coflo.Graph.Links.{IsLinked, add_new_edge-IsLinked}
use coflo.Graph.Counts.{
  vertex_count-add_new_edge, vertex_count-add_vertex, vertex_count-replace_vertex,
  add_vertex-IsLinked, replace_vertex-IsLinked,
}
use coflo.Build.Resolve.{LabelMap, resolve_links}
use coflo.Build.Resolve.Links.{Labels, set_label-Labels, Resolved, resolve_links-Resolved}
use coflo.Build.Create.{
  BasicBlockLeaderInfo, Progress, set_owning_function, note_label, place_statement, add_statement,
  add_statements, close_last_block, link_statement, link_statements, add_impossible_edges,
}

abbrev pub Below : ℕ → List ℕ → Type 0
Below n = All (λ (v : ℕ). v < n)

abbrev pub LeadersBelow : ℕ → List BasicBlockLeaderInfo → Type 0
LeadersBelow n = All (λ (i : BasicBlockLeaderInfo). (i.leader < n) × (i.immediate_predecessor < n))

-- Consistent links, and every address in use is that of one of the `n` vertices there are.
pub record IsSound (n : ℕ) (p : Progress) : Type 0 where
  pub linked : IsLinked p.cfg.heap
  pub count : p.cfg.heap.next_vertex ≡ n
  pub prev : p.prev_vertex < n
  pub labels : Labels n p.label_map
  pub leaders : LeadersBelow n p.list_of_leader_info
  pub unlinked : Below n p.list_of_unlinked_flow_control_statements

pub owned-IsLinked :
    (f v : ℕ) (c : Cfg) → IsLinked c.heap → IsLinked (set_owning_function f v c).heap
owned-IsLinked f v c linked = record {
  out_links = λ x w. ground (arith, linked.out_links x w);
  in_links = λ x w. ground (arith, linked.in_links x w);
  paired = λ x. ground (arith, linked.paired x);
  fresh_edge = λ x p. linked.fresh_edge x p;
  fresh_vertex = λ x p. ground (arith, linked.fresh_vertex x);
}

note_label-Labels :
    (s : Statement) (v n : ℕ) (m : LabelMap) → v < n → Labels n m → Labels n (note_label s v m)
note_label-Labels (label i) v n m h l = set_label-Labels i v n m h l
note_label-Labels _ v n m h l = l

place_statement-IsSound :
    (n vid : ℕ) (p : Progress) → IsSound n p → vid < n → IsSound n (place_statement vid p)
unfolding place_statement
place_statement-IsSound n vid p sound hv =
    let new_leader : BasicBlockLeaderInfo = record {
      leader = vid;
      immediate_predecessor = p.prev_vertex;
    } in
    record {
      linked = elim (Bool-cases p.prev_vertex_ended_basic_block) [
        | inl e ↦ rw e sound.linked
        | inr e ↦ rw e (
            add_new_edge-IsLinked p.cfg sound.linked p.prev_vertex vid fallthrough
              (omega (arith, sound.count, sound.prev)) (omega (arith, sound.count)))
      ];
      count =
          ground
            (arith, sound.count, vertex_count-add_new_edge p.prev_vertex vid fallthrough p.cfg);
      prev = hv;
      labels = note_label-Labels _ vid n p.label_map hv sound.labels;
      leaders = elim (Bool-cases p.prev_vertex_ended_basic_block) [
        | inl e ↦
            rw e (All-concat _ p.list_of_leader_info new_leader sound.leaders (hv, sound.prev))
        | inr e ↦ rw e sound.leaders
      ];
      unlinked = elim (Bool-cases (is_flow_control_unlinked (p.cfg.heap.vertex vid).statement)) [
        | inl e ↦
            rw e (All-concat _ p.list_of_unlinked_flow_control_statements vid sound.unlinked hv)
        | inr e ↦ rw e sound.unlinked
      ];
    }

pub add_statement-IsSound :
    (f n sbp : ℕ) (p p' : Progress)
    → IsSound n p
    → sbp < n
    → add_statement f sbp p ≡ some p'
    → IsSound n p'
unfolding add_statement
add_statement-IsSound f n sbp p p' sound h e =
    elim (Bool-cases (add_vertex sbp (set_owning_function f sbp p.cfg)).1) [
      | inl done ↦
          let c = (add_vertex sbp (set_owning_function f sbp p.cfg)).0 in
          let s : IsSound n (record p { cfg = c }) = record {
            linked =
                add_vertex-IsLinked sbp (set_owning_function f sbp p.cfg)
                  (owned-IsLinked f sbp p.cfg sound.linked);
            count =
                omega (
                  arith,
                  sound.count,
                  vertex_count-add_vertex sbp (set_owning_function f sbp p.cfg),
                );
            prev = sound.prev;
            labels = sound.labels;
            leaders = sound.leaders;
            unlinked = sound.unlinked;
          } in
          subst (IsSound n) (eq_of_some (rw done at e))
            (place_statement-IsSound n sbp (record p { cfg = c }) s h)
      | inr thrown ↦ cc (rw thrown at e)
    ]

pub add_statements-IsSound :
    (f n : ℕ) (statement_list : List ℕ) (p p' : Progress)
    → IsSound n p
    → Below n statement_list
    → add_statements f statement_list p ≡ some p'
    → IsSound n p'
unfolding add_statements
add_statements-IsSound f n [] p p' sound h e = subst (IsSound n) (eq_of_some e) sound
add_statements-IsSound f n (sbp ∷ rest) p p' sound h e =
    elim (Option-cases (add_statement f sbp p)) [
      | inl thrown ↦ cc (rw (thrown, add_statements) at e)
      | inr (q, step) ↦
          add_statements-IsSound f n rest q p' (add_statement-IsSound f n sbp p q sound h.0 step)
            h.1 (rw (step, add_statements) at e)
    ]

pub close_last_block-IsLinked :
    (n exit_vertex : ℕ) (p : Progress)
    → IsSound n p
    → exit_vertex < n
    → IsLinked (close_last_block exit_vertex p).heap
      × ((close_last_block exit_vertex p).heap.next_vertex ≡ n)
unfolding close_last_block
close_last_block-IsLinked n x p sound hx = elim (Bool-cases p.prev_vertex_ended_basic_block) [
  | inl e ↦ rw e (sound.linked, sound.count)
  | inr e ↦ rw e (
    add_new_edge-IsLinked p.cfg sound.linked p.prev_vertex x fallthrough
        (omega (arith, sound.count, sound.prev)) (omega (arith, sound.count)),
    omega (arith, sound.count, vertex_count-add_new_edge p.prev_vertex x fallthrough p.cfg),
  )
]

-- A graph with consistent links and at least `n` vertices.
abbrev pub Holds : ℕ → Cfg → Type 0
Holds n c = IsLinked c.heap × (n ≤ c.heap.next_vertex)

pub Labels-mono : (m n : ℕ) (l : LabelMap) → m ≤ n → Labels m l → Labels n l
Labels-mono m n l h =
    All-map (λ (entry : String × ℕ). entry.1 < m) (λ (entry : String × ℕ). entry.1 < n) l
      (λ entry p. omega arith)

replace_result :
    (vd n : ℕ) (c : Cfg) (r : Cfg × Option ℕ) (d : Cfg)
    → n ≤ c.heap.next_vertex
    → Resolved vd c r
    → (elim r.1 [
      | none ↦ some r.0
      | some new ↦ let (c'', done) = replace_vertex vd new r.0 in if done then some c'' else none
    ])
      ≡ some d
    → Holds n d
replace_result vd n c (c', none) d h (linked, grown) e =
    subst (Holds n) (eq_of_some e) (linked, omega arith)
replace_result vd n c (c', some new) d h (linked, grown, bare, ne, hn) e =
    elim (Bool-cases (replace_vertex vd new c').1) [
      | inl done ↦ subst (Holds n) (eq_of_some (rw done at e)) (
        replace_vertex-IsLinked vd new c' linked bare ne hn,
        omega (arith, vertex_count-replace_vertex vd new c'),
      )
      | inr thrown ↦ cc (rw thrown at e)
    ]

link_statement-Holds :
    (vd n : ℕ) (m : LabelMap) (c d : Cfg)
    → Holds n c
    → vd < n
    → Labels n m
    → link_statement vd m c ≡ some d
    → Holds n d
unfolding link_statement
link_statement-Holds vd n m c d (linked, h) hv labels e =
    replace_result vd n c (resolve_links vd m c) d h
      (resolve_links-Resolved vd m c linked (omega arith) (Labels-mono n _ m h labels)) e

pub link_statements-Holds :
    (vds : List ℕ) (n : ℕ) (m : LabelMap) (c d : Cfg)
    → Holds n c
    → Below n vds
    → Labels n m
    → link_statements vds m c ≡ some d
    → Holds n d
unfolding link_statements
link_statements-Holds [] n m c d holds h labels e = subst (Holds n) (eq_of_some e) holds
link_statements-Holds (vd ∷ vds) n m c d holds h labels e =
    elim (Option-cases (link_statement vd m c)) [
      | inl thrown ↦ cc (rw (thrown, link_statements) at e)
      | inr (c', step) ↦
          link_statements-Holds vds n m c' d
            (link_statement-Holds vd n m c c' holds h.0 labels step) h.1 labels
            (rw (step, link_statements) at e)
    ]

pub add_impossible_edges-Holds :
    (leaders : List BasicBlockLeaderInfo) (n : ℕ) (c : Cfg)
    → Holds n c
    → LeadersBelow n leaders
    → Holds n (add_impossible_edges leaders c)
unfolding add_impossible_edges
add_impossible_edges-Holds [] n c holds h = holds
add_impossible_edges-Holds (p ∷ rest) n c holds h = add_impossible_edges-Holds rest n _ step h.1
  where
    step : Holds n (
        if in_degree c.heap p.leader == 0
        then add_new_edge p.immediate_predecessor p.leader impossible c
        else c)
    step = elim (Bool-cases (in_degree c.heap p.leader == 0)) [
      | inl bare ↦ rw bare (
        add_new_edge-IsLinked c holds.0 p.immediate_predecessor p.leader impossible (omega arith)
            (omega arith),
        omega (arith, vertex_count-add_new_edge p.immediate_predecessor p.leader impossible c),
      )
      | inr old ↦ rw old holds
    ]
