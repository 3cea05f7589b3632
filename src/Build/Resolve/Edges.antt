-- ===== src/Build/Resolve/Edges.antt =====
-- The edges that ResolveLinks adds: src/controlflowgraph/statements/ParseHelpers.cpp.
use mathlib.Core.List.{append_assoc, append-nil}
use coflo.Prelude.{
  ℕ, suc, ◌≤◌, ◌<◌, ◌≡◌, refl, sym, subst, ◌∙◌, inl, inr, String, Bool, true, false, ◌||◌, List, [],
  ◌∷◌, ◌++◌, Option, none, some, if◌then◌else◌, arith, Option-cases,
}
use coflo.Statement.{
  Statement, EdgeType, fallthrough, if_true, if_false, goto, if_statement, switch, goto_unlinked,
  return_unlinked, if_unlinked, switch_unlinked,
}
use coflo.Graph.{Heap, Cfg, add_new_edge, add_edge, new_edge, new_vertex}
use coflo.Graph.Links.{IsLinked}
use coflo.Build.Resolve.{
  LabelMap, find_label, replacement, resolve_goto, resolve_return, link_goto, link_if, resolve_if,
  link_cases, resolve_switch, resolve_statement, resolve_links,
}
use coflo.Build.Resolve.Links.{Labels, Resolved, resolve_links-Resolved}

-- The new edges from `e` on, one for each target with its type, leave the vertex `v`.
abbrev pub Adds : ℕ → Heap → ℕ → List (ℕ × EdgeType) → Type 0
Adds v h e [] = h.next_edge ≡ e
Adds v h e ((t, ty) ∷ xs) =
    ((h.edge e).source ≡ some v)
    × ((h.edge e).target ≡ some t)
    × ((h.edge e).edge_type ≡ ty)
    × Adds v h (suc e) xs

abbrev jump : Option ℕ → List (ℕ × EdgeType)
jump none = []
jump (some t) = (t, fallthrough) ∷ []

abbrev branch : Option ℕ → Option ℕ → List (ℕ × EdgeType)
branch (some t) (some f) = (t, if_true) ∷ (f, if_false) ∷ []
branch _ _ = []

abbrev cases : List String → LabelMap → List (ℕ × EdgeType)
cases [] m = []
cases (name ∷ names) m = jump (find_label name m) ++ cases names m

-- Where an unlinked statement leads, by the labels that there are.
abbrev pub targets : Statement → LabelMap → List (ℕ × EdgeType)
targets (goto_unlinked name) m = jump (find_label name m)
targets (return_unlinked r) m = jump (find_label "EXIT" m)
targets (if_unlinked q t f) m = branch (find_label t m) (find_label f m)
targets (switch_unlinked names) m = cases names m
targets _ m = []

-- The statement that a linked one is replaced by.
abbrev pub linked_form : Statement → Statement
linked_form (if_unlinked q t f) = if_statement q
linked_form (switch_unlinked names) = switch
linked_form _ = goto

-- A replacement where there is a target, and none where there is not.
abbrev pub Replaces : ℕ → Cfg → Statement → List (ℕ × EdgeType) → Cfg × Option ℕ → Type 0
Replaces v c s [] (d, new) = new ≡ none
Replaces v c s (x ∷ xs) (d, none) = ⊥
Replaces v c s (x ∷ xs) (d, some new) =
    ((d.heap.vertex new).statement ≡ linked_form s)
    × ((d.heap.vertex new).location ≡ (c.heap.vertex v).location)

-- What is added, and that nothing else changes: no other edge, and no vertex is deleted.
pub record IsExtended (v : ℕ) (c d : Cfg) (xs : List (ℕ × EdgeType)) : Type 0 where
  pub adds : Adds v d.heap c.heap.next_edge xs
  pub kept : (e : ℕ) → e < c.heap.next_edge → d.heap.edge e ≡ c.heap.edge e
  pub deleted : d.heap.deleted ≡ c.heap.deleted
  pub grown : c.heap.next_vertex ≤ d.heap.next_vertex
  pub location : (d.heap.vertex v).location ≡ (c.heap.vertex v).location

Adds-le : (v : ℕ) (h : Heap) (e : ℕ) (xs : List (ℕ × EdgeType)) → Adds v h e xs → e ≤ h.next_edge
Adds-le v h e [] a = omega (arith, a)
Adds-le v h e ((t, ty) ∷ xs) (s, to, is, a) = omega (arith, Adds-le v h (suc e) xs a)

Adds-add_new_edge :
    (v t : ℕ) (ty : EdgeType) (d : Cfg) (e : ℕ) (xs : List (ℕ × EdgeType))
    → Adds v d.heap e xs
    → Adds v (add_new_edge v t ty d).heap e (xs ++ (t, ty) ∷ [])
unfolding add_new_edge add_edge new_edge
Adds-add_new_edge v t ty d e [] a =
    (ground (arith, a), ground (arith, a), ground (arith, a), omega (arith, a))
Adds-add_new_edge v t ty d e ((u, tu) ∷ xs) (s, to, is, a) =
    let old : e < d.heap.next_edge = Adds-le v d.heap (suc e) xs a in
    (
      ground (arith, old, s),
      ground (arith, old, to),
      ground (arith, old, is),
      Adds-add_new_edge v t ty d (suc e) xs a,
    )

IsExtended-refl : (v : ℕ) (c : Cfg) → IsExtended v c c []
IsExtended-refl v c = record {
  adds = refl;
  kept = λ e lt. refl;
  deleted = refl;
  grown = omega arith;
  location = refl;
}

IsExtended-add_new_edge :
    (v t : ℕ) (ty : EdgeType) (c d : Cfg) (xs : List (ℕ × EdgeType))
    → IsExtended v c d xs
    → IsExtended v c (add_new_edge v t ty d) (xs ++ (t, ty) ∷ [])
unfolding add_new_edge add_edge new_edge
IsExtended-add_new_edge v t ty c d xs x =
    let le = Adds-le v d.heap c.heap.next_edge xs x.adds in
    record {
      adds = Adds-add_new_edge v t ty d c.heap.next_edge xs x.adds;
      kept = λ e lt. ground (arith, lt, le, x.kept e lt);
      deleted = x.deleted;
      grown = x.grown;
      location = ground (arith, x.location);
    }

Adds-replacement :
    (s : Statement) (u v : ℕ) (d : Cfg) (e : ℕ) (xs : List (ℕ × EdgeType))
    → Adds v d.heap e xs
    → Adds v (replacement s u d).0.heap e xs
unfolding replacement new_vertex
Adds-replacement s u v d e [] a = a
Adds-replacement s u v d e ((t, ty) ∷ xs) (from, to, is, a) =
    (from, to, is, Adds-replacement s u v d (suc e) xs a)

-- What ResolveLinks does at a vertex with this statement.
abbrev Links : ℕ → Cfg → Statement → List (ℕ × EdgeType) → Cfg × Option ℕ → Type 0
Links v c s xs r = IsExtended v c r.0 xs × Replaces v c s xs r

-- The replacement is a new vertex, and touches no edge.
replaced-Links :
    (s s' : Statement) (v : ℕ) (c d : Cfg) (x : ℕ × EdgeType) (xs : List (ℕ × EdgeType))
    → v < c.heap.next_vertex
    → linked_form s ≡ s'
    → IsExtended v c d (x ∷ xs)
    → Links v c s (x ∷ xs) (replacement s' v d)
unfolding replacement new_vertex
replaced-Links s s' v c d x xs lt form ext = (
  record {
    adds = Adds-replacement s' v v d c.heap.next_edge (x ∷ xs) ext.adds;
    kept = ext.kept;
    deleted = ext.deleted;
    grown = omega (arith, ext.grown);
    location = ground (arith, lt, ext.grown, ext.location);
  },
  (ground (arith, form), ground (arith, ext.location)),
)

module _ (v : ℕ) (c : Cfg) (lt : v < c.heap.next_vertex) where
  link_goto-Links :
      (s : Statement) (t : Option ℕ) → linked_form s ≡ goto → Links v c s (jump t) (link_goto t v c)
  unfolding link_goto
  link_goto-Links s none form = (IsExtended-refl v c, refl)
  link_goto-Links s (some t) form =
      replaced-Links s goto v c (add_new_edge v t fallthrough c) (t, fallthrough) [] lt form
        (IsExtended-add_new_edge v t fallthrough c c [] (IsExtended-refl v c))

  link_if-Links :
      (t f : Option ℕ) (q l r : String)
      → Links v c (if_unlinked q l r) (branch t f) (link_if t f q v c)
  unfolding link_if
  link_if-Links none f q l r = (IsExtended-refl v c, refl)
  link_if-Links (some t) none q l r = (IsExtended-refl v c, refl)
  link_if-Links (some t) (some f) q l r =
      let c₁ = add_new_edge v t if_true c in
      replaced-Links (if_unlinked q l r) (if_statement q) v c (add_new_edge v f if_false c₁)
        (t, if_true) ((f, if_false) ∷ []) lt refl
        (IsExtended-add_new_edge v f if_false c c₁ ((t, if_true) ∷ [])
          (IsExtended-add_new_edge v t if_true c c [] (IsExtended-refl v c)))

-- Whether there is a target.
abbrev some_target : List (ℕ × EdgeType) → Bool
some_target [] = false
some_target (x ∷ xs) = true

link_cases-IsExtended :
    (names : List String) (v : ℕ) (m : LabelMap) (c d : Cfg) (b : Bool) (xs : List (ℕ × EdgeType))
    → IsExtended v c d xs
    → IsExtended v c (link_cases names v m d b).0 (xs ++ cases names m)
      × ((link_cases names v m d b).1 ≡ (b || some_target (cases names m)))
unfolding link_cases
link_cases-IsExtended [] v m c d b xs ext =
    (subst (IsExtended v c d) (sym (append-nil xs)) ext, ground arith)
link_cases-IsExtended (name ∷ names) v m c d b xs ext = elim (Option-cases (find_label name m)) [
  | inl missing ↦ rw (missing, link_cases) (link_cases-IsExtended names v m c d b xs ext)
  | inr (t, found) ↦
      let d' = add_new_edge v t fallthrough d in
      let (rest, any) =
        link_cases-IsExtended names v m c d' true (xs ++ (t, fallthrough) ∷ [])
          (IsExtended-add_new_edge v t fallthrough c d xs ext) in
      rw (found, link_cases)
        (
          subst (IsExtended v c (link_cases names v m d' true).0)
              (append_assoc xs ((t, fallthrough) ∷ []) (cases names m)) rest,
          any ∙ ground arith,
        )
]

switched :
    (v : ℕ) (names : List String) (c d : Cfg) (xs : List (ℕ × EdgeType))
    → v < c.heap.next_vertex
    → IsExtended v c d xs
    → Links v c
        (switch_unlinked names)
        xs
        (if some_target xs then replacement switch v d else (d, none))
switched v names c d [] lt ext = (ext, refl)
switched v names c d (x ∷ xs) lt ext =
    replaced-Links (switch_unlinked names) switch v c d x xs lt refl ext

resolve_statement-Links :
    (v : ℕ) (m : LabelMap) (c : Cfg) (s : Statement)
    → v < c.heap.next_vertex
    → Links v c s (targets s m) (resolve_statement s v m c)
unfolding resolve_statement resolve_goto resolve_return resolve_if resolve_switch
resolve_statement-Links v m c (goto_unlinked t) lt =
    link_goto-Links v c lt (goto_unlinked t) (find_label t m) refl
resolve_statement-Links v m c (return_unlinked r) lt =
    link_goto-Links v c lt (return_unlinked r) (find_label "EXIT" m) refl
resolve_statement-Links v m c (if_unlinked q t f) lt =
    link_if-Links v c lt (find_label t m) (find_label f m) q t f
resolve_statement-Links v m c (switch_unlinked names) lt =
    let (ext, any) = link_cases-IsExtended names v m c c false [] (IsExtended-refl v c) in
    rw any (switched v names c (link_cases names v m c false).0 (cases names m) lt ext)
resolve_statement-Links v m c _ lt = (IsExtended-refl v c, refl)

-- On consistent links, an allocated vertex and a label map into allocated vertices: ResolveLinks adds,
-- in order, an edge from the vertex to each of the labels of its statement that the map has, with its
-- type, and to no other (an if has the edges only if the map has both of its labels); it keeps the links
-- consistent and every other edge, and deletes no vertex. If there is a target it returns a
-- replacement, another vertex, allocated and with no edge, with the linked form of the statement and its
-- location; if there is none, it returns none.
pub resolve_links_lem :
    (v : ℕ) (m : LabelMap) (c : Cfg)
    → IsLinked c.heap
    → v < c.heap.next_vertex
    → Labels c.heap.next_vertex m
    → Resolved v c (resolve_links v m c)
      × IsExtended v c (resolve_links v m c).0 (targets (c.heap.vertex v).statement m)
      × Replaces v c
          (c.heap.vertex v).statement
          (targets (c.heap.vertex v).statement m)
          (resolve_links v m c)
unfolding resolve_links
resolve_links_lem v m c linked lt labels =
    let (extended, replaces) = resolve_statement-Links v m c (c.heap.vertex v).statement lt in
    (resolve_links-Resolved v m c linked lt labels, extended, replaces)
