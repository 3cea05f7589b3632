-- ===== src/Build/Resolve/Links.antt =====
-- The links under ResolveLinks.
use coflo.Prelude.{
  ℕ, ◌≤◌, ◌<◌, ◌≡◌, ◌≢◌, refl, inl, inr, String, Bool, true, false, List, [], ◌∷◌, Option, none,
  some, arith, Bool-cases, Option-cases, All,
}
use coflo.Statement.{
  Statement, fallthrough, if_true, if_false, goto, if_statement, switch, goto_unlinked,
  return_unlinked, if_unlinked, switch_unlinked,
}
use coflo.Graph.{Cfg, add_new_edge}
use coflo.Graph.Links.{IsLinked, IsBare, add_new_edge-IsLinked}
use coflo.Graph.Counts.{vertex_count-add_new_edge, new_vertex-IsLinked}
use coflo.Build.Resolve.{
  LabelMap, find_label, set_label, replacement, resolve_goto, resolve_return, link_goto, link_if,
  resolve_if, link_cases, resolve_switch, resolve_statement, resolve_links,
}

-- Every label stands for a vertex below `n`.
abbrev pub Labels : ℕ → LabelMap → Type 0
Labels n = All (λ (entry : String × ℕ). entry.1 < n)

pub find_label-lt :
    (k : String) (n : ℕ) (m : LabelMap) (v : ℕ) → Labels n m → find_label k m ≡ some v → v < n
unfolding find_label
find_label-lt k n [] v l h = cc
find_label-lt k n ((j, w) ∷ m) v l h = ground (arith, find_label-lt k n m v l.1)

pub set_label-Labels :
    (k : String) (v n : ℕ) (m : LabelMap) → v < n → Labels n m → Labels n (set_label k v m)
unfolding set_label
set_label-Labels k v n [] h l = (h, tt)
set_label-Labels k v n ((j, w) ∷ m) h l = ground (arith, set_label-Labels k v n m h l.1)

-- What ResolveLinks at the vertex `v` gives back: consistent links, and a replacement that is a new
-- and bare vertex.
abbrev pub Resolved : ℕ → Cfg → Cfg × Option ℕ → Type 0
Resolved v c (d, none) = IsLinked d.heap × (c.heap.next_vertex ≤ d.heap.next_vertex)
Resolved v c (d, some new) =
    IsLinked d.heap
    × (c.heap.next_vertex ≤ d.heap.next_vertex)
    × IsBare d.heap new
    × (v ≢ new)
    × (new < d.heap.next_vertex)

replacement-Resolved :
    (s : Statement) (v : ℕ) (c d : Cfg)
    → IsLinked d.heap
    → d.heap.next_vertex ≡ c.heap.next_vertex
    → v < c.heap.next_vertex
    → Resolved v c (replacement s v d)
unfolding replacement
replacement-Resolved s v c d linked e hv =
    let (all, bare, at, count) = new_vertex-IsLinked s (d.heap.vertex v).location d.heap linked in
    (all, omega arith, bare, (λ same. omega arith), omega arith)

module _ (v : ℕ) (m : LabelMap) (c : Cfg) (linked : IsLinked c.heap) (hv : v < c.heap.next_vertex)
    (labels : Labels c.heap.next_vertex m) where
  link_goto-Resolved :
      (t : Option ℕ)
      → ((x : ℕ) → t ≡ some x → x < c.heap.next_vertex)
      → Resolved v c (link_goto t v c)
  unfolding link_goto
  link_goto-Resolved none ht = (linked, omega arith)
  link_goto-Resolved (some t) ht =
      replacement-Resolved goto v c (add_new_edge v t fallthrough c)
        (add_new_edge-IsLinked c linked v t fallthrough hv (ht t refl))
        (vertex_count-add_new_edge v t fallthrough c) hv

  resolve_goto-Resolved : (name : String) → Resolved v c (resolve_goto name v m c)
  unfolding resolve_goto
  resolve_goto-Resolved name =
      link_goto-Resolved (find_label name m) (λ x e. find_label-lt name _ m x labels e)

  resolve_return-Resolved : Resolved v c (resolve_return v m c)
  unfolding resolve_return
  resolve_return-Resolved =
      link_goto-Resolved (find_label "EXIT" m) (λ x e. find_label-lt "EXIT" _ m x labels e)

  link_if-Resolved :
      (t f : Option ℕ) (condition : String)
      → ((x : ℕ) → t ≡ some x → x < c.heap.next_vertex)
      → ((x : ℕ) → f ≡ some x → x < c.heap.next_vertex)
      → Resolved v c (link_if t f condition v c)
  unfolding link_if
  link_if-Resolved none f q ht hf = (linked, omega arith)
  link_if-Resolved (some t) none q ht hf = (linked, omega arith)
  link_if-Resolved (some t) (some f) q ht hf =
      let c₁ = add_new_edge v t if_true c in
      let linked₁ = add_new_edge-IsLinked c linked v t if_true hv (ht t refl) in
      let e₁ = vertex_count-add_new_edge v t if_true c in
      replacement-Resolved (if_statement q) v c (add_new_edge v f if_false c₁)
        (add_new_edge-IsLinked c₁ linked₁ v f if_false (omega arith) (omega (arith, hf f refl)))
        (omega (arith, vertex_count-add_new_edge v f if_false c₁)) hv

  resolve_if-Resolved : (q t f : String) → Resolved v c (resolve_if q t f v m c)
  unfolding resolve_if
  resolve_if-Resolved q t f =
      link_if-Resolved (find_label t m) (find_label f m) q (λ x e. find_label-lt t _ m x labels e)
        (λ x e. find_label-lt f _ m x labels e)

-- The loop over the cases of a switch.
link_cases-IsLinked :
    (targets : List String) (v n : ℕ) (m : LabelMap) (c : Cfg) (resolved : Bool)
    → IsLinked c.heap
    → c.heap.next_vertex ≡ n
    → v < n
    → Labels n m
    → IsLinked (link_cases targets v m c resolved).0.heap
      × ((link_cases targets v m c resolved).0.heap.next_vertex ≡ n)
unfolding link_cases
link_cases-IsLinked [] v n m c resolved linked e hv labels = (linked, e)
link_cases-IsLinked (name ∷ rest) v n m c resolved linked e hv labels =
    elim (Option-cases (find_label name m)) [
      | inl missing ↦
          rw (missing, link_cases) (link_cases-IsLinked rest v n m c resolved linked e hv labels)
      | inr (t, found) ↦
          rw (found, link_cases)
            (link_cases-IsLinked rest v n m (add_new_edge v t fallthrough c) true
              (add_new_edge-IsLinked c linked v t fallthrough (omega arith)
                (omega (arith, find_label-lt name n m t labels found)))
              (omega (arith, vertex_count-add_new_edge v t fallthrough c)) hv labels)
    ]

module _ (v : ℕ) (m : LabelMap) (c : Cfg) (linked : IsLinked c.heap) (hv : v < c.heap.next_vertex)
    (labels : Labels c.heap.next_vertex m) where
  resolve_switch-Resolved : (targets : List String) → Resolved v c (resolve_switch targets v m c)
  unfolding resolve_switch
  resolve_switch-Resolved targets =
      let (all, e) = link_cases-IsLinked targets v _ m c false linked refl hv labels in
      elim (Bool-cases (link_cases targets v m c false).1) [
        | inl any ↦
            rw any (replacement-Resolved switch v c (link_cases targets v m c false).0 all e hv)
        | inr nothing ↦ rw nothing (all, omega arith)
      ]

  resolve_statement-Resolved : (s : Statement) → Resolved v c (resolve_statement s v m c)
  unfolding resolve_statement
  resolve_statement-Resolved (goto_unlinked t) = resolve_goto-Resolved v m c linked hv labels t
  resolve_statement-Resolved (return_unlinked r) = resolve_return-Resolved v m c linked hv labels
  resolve_statement-Resolved (if_unlinked q t f) = resolve_if-Resolved v m c linked hv labels q t f
  resolve_statement-Resolved (switch_unlinked ts) = resolve_switch-Resolved ts
  resolve_statement-Resolved _ = (linked, omega arith)

  -- On consistent links, an allocated vertex and a label map into allocated vertices, ResolveLinks
  -- keeps the links consistent and the next free address no lower; the replacement that it returns, if any, is
  -- another vertex, allocated and with no edge.
  pub resolve_links-Resolved : Resolved v c (resolve_links v m c)
  unfolding resolve_links
  resolve_links-Resolved = resolve_statement-Resolved (c.heap.vertex v).statement
