-- ===== src/Topological/Order.antt =====
-- The order in which a topological visit discovers the vertices:
-- src/controlflowgraph/algorithms/topological_visit_kahn.h. `vs` are the vertices discovered so far, the
-- last first, `m` the map of counts, `st` the stack of edges, `rs` the edges removed so far.
pub mod Removals
pub mod Rounds
use coflo.Prelude.{
  ℕ, suc, ◌+◌, ◌≤◌, ◌≡◌, ◌≢◌, ◌⊎◌, inl, inr, refl, ap, sym, subst, ◌∙◌, Bool, true, false, ◌||◌,
  List, [], ◌∷◌, Option, none, some, arith, if◌then◌else◌, ◌==◌, contains, Bool-cases, Option-cases,
  points_to, ==_iff, eq_of_some,
}
use coflo.Prelude.Int.{ℤ, pos, dec, eqb_ℤ, dec-suc}
use coflo.Graph.{Heap}
use coflo.Graph.Links.{IsLinked}
use coflo.Visit.Reach.{IsDistinct}
use coflo.Topological.{InDegreeMap, find_count, put_count, get_count}
use coflo.Topological.Remaining.{
  remaining, remaining-cons, remaining_other, removed_of_none, Counts, get_count-pos,
  find_count-put_count,
}

Counts-if : (all left : ℕ) → Counts all left (if left == 0 then none else some (pos left))
Counts-if all left = elim (Bool-cases (left == 0)) [
  | inl gone ↦ rw gone (inr ((==_iff left 0).0 gone))
  | inr stays ↦ rw stays (refl, λ z. ground (arith, stays))
]

pub target_is : (o : Option ℕ) (v : ℕ) → points_to o v ≡ true → o ≡ some v
target_is none v p = cc
target_is (some w) v p = ap some (ground (arith, p))

module _ (h : Heap) (skips : ℕ → Bool) where
  abbrev pub left : List ℕ → ℕ → ℕ
  left rs v = remaining skips rs (h.vertex v).in_edges

  -- An edge of the stack leads to the vertex.
  abbrev aimed : ℕ → List ℕ → Bool
  aimed v [] = false
  aimed v (e ∷ st) = points_to (h.edge e).target v || aimed v st

  -- The edges of the stack lead to different new vertices without remaining in edges.
  abbrev pub Waiting : List ℕ → List ℕ → List ℕ → Type 0
  Waiting vs rs [] = Unit
  Waiting vs rs (e ∷ st) =
      ((v : ℕ)
        → (h.edge e).target ≡ some v
        → (left rs v ≡ 0) × (contains v vs ≡ false) × (aimed v st ≡ false))
      × Waiting vs rs st

  -- The source of each in edge that is not skipped was discovered earlier.
  abbrev pub IsOrdered : List ℕ → Type 0
  IsOrdered [] = Unit
  IsOrdered (v ∷ vs) =
      ((e u : ℕ)
        → contains e (h.vertex v).in_edges ≡ true
        → skips e ≡ false
        → (h.edge e).source ≡ some u
        → contains u vs ≡ true)
      × IsOrdered vs

  pub record Sorted (in_degree : ℕ → ℕ) (vs : List ℕ) (m : InDegreeMap) (st rs : List ℕ)
      : Type 0 where
    pub counts : (v : ℕ) → Counts (in_degree v) (left rs v) (find_count v m)
    pub removed :
        (e u : ℕ) → contains e rs ≡ true → (h.edge e).source ≡ some u → contains u vs ≡ true
    pub waiting : Waiting vs rs st
    pub finished : (v : ℕ) → contains v vs ≡ true → left rs v ≡ 0
    pub distinct : IsDistinct vs
    pub ordered : IsOrdered vs

  Waiting-discovered :
      (u : ℕ) (vs rs st : List ℕ) → aimed u st ≡ false → Waiting vs rs st → Waiting (u ∷ vs) rs st
  Waiting-discovered u vs rs [] not_aimed w = tt
  Waiting-discovered u vs rs (e ∷ st) not_aimed w = (
    λ v to.
        let (zero_left, new, apart) = w.0 v to in
        (zero_left, ground (arith, new, not_aimed, to), apart),
    Waiting-discovered u vs rs st (ground (arith, not_aimed)) w.1,
  )

  left_mono : (rs es : List ℕ) (e : ℕ) → remaining skips rs es ≡ 0 → remaining skips (e ∷ rs) es ≡ 0
  left_mono rs [] e p = refl
  left_mono rs (x ∷ es) e p = ground (arith, left_mono rs es e, p)

  Waiting-removed : (e : ℕ) (vs rs st : List ℕ) → Waiting vs rs st → Waiting vs (e ∷ rs) st
  Waiting-removed e vs rs [] w = tt
  Waiting-removed e vs rs (x ∷ st) w = (
    λ v to.
        let (zero_left, new, apart) = w.0 v to in
        (left_mono rs (h.vertex v).in_edges e zero_left, new, apart),
    Waiting-removed e vs rs st w.1,
  )

  left_of_aimed : (v : ℕ) (vs rs st : List ℕ) → Waiting vs rs st → aimed v st ≡ true → left rs v ≡ 0
  left_of_aimed v vs rs [] w p = cc
  left_of_aimed v vs rs (e ∷ st) w p = elim (Bool-cases (points_to (h.edge e).target v)) [
    | inl here ↦ (w.0 v (target_is (h.edge e).target v here)).0
    | inr later ↦ left_of_aimed v vs rs st w.1 (ground (arith, p, later))
  ]

  module _ (in_degree : ℕ → ℕ) (vs : List ℕ) (m : InDegreeMap) where
    -- The edge on top of the stack is popped, and its target discovered.
    pub Sorted-discovered :
        (e u : ℕ) (st rs : List ℕ)
        → (h.edge e).target ≡ some u
        → IsLinked h
        → Sorted in_degree vs m (e ∷ st) rs
        → Sorted in_degree (u ∷ vs) m st rs
          × ((x : ℕ) → contains x (h.vertex u).out_edges ≡ true → contains x rs ≡ false)
    Sorted-discovered e u st rs to linked s =
        let (zero_left, new, apart) = s.waiting.0 u to in
        (
          record {
            counts = s.counts;
            removed = λ x v p q. ground (arith, s.removed x v p q);
            waiting = Waiting-discovered u vs rs st apart s.waiting.1;
            finished = λ v p. elim (Bool-cases (u == v)) [
              | inl same ↦ subst (λ w. left rs w ≡ 0) (ground arith) zero_left
              | inr other ↦ s.finished v (ground (arith, p))
            ];
            distinct = (new, s.distinct);
            ordered = (
              λ x v in_x live from.
                  s.removed x v
                    (removed_of_none skips rs (h.vertex u).in_edges x zero_left in_x live) from,
              s.ordered,
            );
          },
          λ x out. elim (Bool-cases (contains x rs)) [
            | inl old ↦
                let from = target_is (h.edge x).source u (sym (linked.out_links x u) ∙ out) in
                cc (s.removed x u old from, new)
            | inr fresh ↦ fresh
          ],
        )

    module _ (st rs : List ℕ) (linked : IsLinked h) (e v u : ℕ) where
      module _ (s : Sorted in_degree vs m st rs) (simple : IsDistinct (h.vertex v).in_edges)
          (new : contains e rs ≡ false) (live : skips e ≡ false) (to : (h.edge e).target ≡ some v)
          (from : (h.edge e).source ≡ some u) (known : contains u vs ≡ true) where
        one_less : left rs v ≡ suc (left (e ∷ rs) v)
        one_less =
            remaining-cons skips rs (h.vertex v).in_edges e simple
              (linked.in_links e v ∙ rw to ((==_iff v v).1 refl)) live new

        id_is : dec (get_count in_degree v m).0 ≡ pos (left (e ∷ rs) v)
        id_is =
            let id =
              get_count-pos in_degree v (left rs v) m (s.counts v) (λ z. omega (arith, one_less)) in
            ap dec (id ∙ ap pos one_less) ∙ dec-suc (left (e ∷ rs) v)

        Counts-after :
            (w : ℕ)
            → Counts (in_degree w) (left (e ∷ rs) w) (
                find_count w
                  (put_count v (dec (get_count in_degree v m).0) (get_count in_degree v m).1))
        Counts-after w =
            rw (find_count-put_count in_degree v w (dec (get_count in_degree v m).0) m, id_is)
              (elim (Bool-cases (v == w)) [
                | inl same ↦ rw same (
                    subst
                      (λ a.
                        Counts (in_degree a) (left (e ∷ rs) a)
                          (if left (e ∷ rs) v == 0 then none else some (pos (left (e ∷ rs) v))))
                      ((==_iff v w).0 same) (Counts-if (in_degree v) (left (e ∷ rs) v)))
                | inr other ↦
                    let apart : contains e (h.vertex w).in_edges ≡ false =
                      linked.in_links e w ∙ rw to other in
                    rw other (
                      subst (λ k. Counts (in_degree w) k (find_count w m))
                        (sym (remaining_other skips rs (h.vertex w).in_edges e apart)) (s.counts w))
              ])

        removed_after :
            (x a : ℕ)
            → contains x (e ∷ rs) ≡ true
            → (h.edge x).source ≡ some a
            → contains a vs ≡ true
        removed_after x a p q = elim (Bool-cases (e == x)) [
          | inl same ↦
              let sources : some u ≡ some a =
                sym from ∙ ap (λ y. (h.edge y).source) ((==_iff e x).0 same) ∙ q in
              subst (λ b. contains b vs ≡ true) (eq_of_some sources) known
          | inr other ↦ s.removed x a (ground (arith, p)) q
        ]

        -- The edge is removed, and others remain.
        pub Sorted-removed :
            Sorted in_degree vs
              (put_count v (dec (get_count in_degree v m).0) (get_count in_degree v m).1)
              st
              (e ∷ rs)
        Sorted-removed = record {
          counts = Counts-after;
          removed = removed_after;
          waiting = Waiting-removed e vs rs st s.waiting;
          finished = λ w p. left_mono rs (h.vertex w).in_edges e (s.finished w p);
          distinct = s.distinct;
          ordered = s.ordered;
        }

        none_left : eqb_ℤ (dec (get_count in_degree v m).0) (pos 0) ≡ true → left (e ∷ rs) v ≡ 0
        none_left last =
            (==_iff (left (e ∷ rs) v) 0).0 (subst (λ z. eqb_ℤ z (pos 0) ≡ true) id_is last)

        target_new : contains v vs ≡ false
        target_new = elim (Bool-cases (contains v vs)) [
          | inl old ↦ absurd (omega (arith, one_less, s.finished v old))
          | inr fresh ↦ fresh
        ]

        not_aimed : aimed v st ≡ false
        not_aimed = elim (Bool-cases (aimed v st)) [
          | inl old ↦ absurd (omega (arith, one_less, left_of_aimed v vs rs st s.waiting old))
          | inr fresh ↦ fresh
        ]

        -- The last in edge of its target is removed.
        pub Sorted-pushed :
            eqb_ℤ (dec (get_count in_degree v m).0) (pos 0) ≡ true
            → Sorted in_degree vs
                (put_count v (dec (get_count in_degree v m).0) (get_count in_degree v m).1)
                (e ∷ st)
                (e ∷ rs)
        Sorted-pushed last = record {
          counts = Counts-after;
          removed = removed_after;
          waiting = (
            λ w to'.
                subst (λ a. (left (e ∷ rs) a ≡ 0) × (contains a vs ≡ false) × (aimed a st ≡ false))
                  (eq_of_some (sym to ∙ to')) (none_left last, target_new, not_aimed),
            Waiting-removed e vs rs st s.waiting,
          );
          finished = λ w p. left_mono rs (h.vertex w).in_edges e (s.finished w p);
          distinct = s.distinct;
          ordered = s.ordered;
        }
