-- ===== src/TranslationUnit/Ready.antt =====
-- The program between two functions that are built: src/TranslationUnit.cpp.

use coflo.Prelude.{
  ℕ, suc, ◌≤◌, ◌<◌, ◌≡◌, refl, ap, ◌∙◌, true, false, List, [], ◌∷◌, ◌++◌, arith, contains, All,
  All-map, if_keeps, ◌==◌,
}
use coflo.Graph.{Heap, Cfg, Graph}
use coflo.Visit.Reach.{IsDistinct}
use coflo.Build.Grows.{Decided}
use coflo.Build.Create.Links.{Below}
use coflo.Build.Create.Total.{IsWhole}
use coflo.Build.Resolve.Grows.{is_switch}
use coflo.Build.Whole.{Built}
use coflo.Build.Whole.Start.{IsList, Keeps}
use coflo.Build.Whole.Total.{IsCreation}
use coflo.Program.{Program}
use coflo.Program.Links.{IsProgram}
use coflo.TranslationUnit.{FunctionInfo, add_function, new_graph}

-- Between two functions: the program is ready, and each decision statement has two out edges.
pub record IsBuilt (p : Program) : Type 0 where
  pub ready : IsProgram p
  pub decided : Decided (new_graph p)

-- The statements of a function, allocated, none twice and none a switch.
pub record IsStatements (h : Heap) (vs : List ℕ) : Type 0 where
  pub below : Below h.next_vertex vs
  pub distinct : IsDistinct vs
  pub no_switch :
      (v : ℕ)
      → contains v vs ≡ true
      → (v < h.next_vertex) × (is_switch (h.vertex v).statement ≡ false)

abbrev pub IsAllocated : Heap → List ℕ → Type 0
IsAllocated h vs = IsDistinct vs × ((v : ℕ) → contains v vs ≡ true → v < h.next_vertex)

abbrev pub Switchless : Heap → List ℕ → Type 0
Switchless h vs = (v : ℕ) → contains v vs ≡ true → is_switch (h.vertex v).statement ≡ false

abbrev pub AreStatements : Heap → List FunctionInfo → Type 0
AreStatements h = All (λ (fi : FunctionInfo). IsStatements h fi.statement_list)

-- The addresses from `f` on.
abbrev pub addresses : ℕ → List FunctionInfo → List ℕ
addresses f [] = []
addresses f (fi ∷ fil) = f ∷ addresses (suc f) fil

pub all_members :
    (n : ℕ) (vs : List ℕ) → ((v : ℕ) → contains v vs ≡ true → v < n) → All (λ (v : ℕ). v < n) vs
all_members n [] p = tt
all_members n (v ∷ vs) p =
    (p v (ground arith), all_members n vs (λ w mem. p w (ground (arith, mem))))

pub allocated-IsStatements :
    (h : Heap) (vs : List ℕ) → IsAllocated h vs → Switchless h vs → IsStatements h vs
allocated-IsStatements h vs (distinct, lt) plain = record {
  below = all_members h.next_vertex vs lt;
  distinct = distinct;
  no_switch = λ v mem. (lt v mem, plain v mem);
}

pub new_graph-IsWhole : (p : Program) → IsBuilt p → IsWhole (new_graph p)
new_graph-IsWhole p built = record {
  links = built.ready.links;
  inside = λ v h. cc;
  decided = built.decided;
}

pub IsStatements-IsList :
    (p : Program) (vs : List ℕ) → IsStatements p.linker.heap vs → IsList vs (new_graph p)
IsStatements-IsList p vs s = record {
  below = s.below;
  distinct = s.distinct;
  fresh = λ v mem. let (lt, plain) = s.no_switch v mem in (lt, refl, plain);
}

pub IsStatements-Keeps :
    (c d : Cfg) (vs : List ℕ)
    → c.heap.next_vertex ≤ d.heap.next_vertex
    → Keeps c d
    → IsStatements c.heap vs
    → IsStatements d.heap vs
IsStatements-Keeps c d vs le keeps s = record {
  below = All-map (λ (v : ℕ). v < c.heap.next_vertex) _ vs (λ v lt. omega (arith, lt, le)) s.below;
  distinct = s.distinct;
  no_switch = λ v mem.
      let (lt, plain) = s.no_switch v mem in
      (omega (arith, lt, le), ap is_switch (keeps v lt) ∙ plain);
}

pub add_function-IsBuilt :
    (tu : ℕ) (fi : FunctionInfo) (p : Program) (b : Built)
    → IsBuilt p
    → IsCreation (new_graph p) b
    → IsBuilt (add_function tu fi.identifier b p)
unfolding add_function
add_function-IsBuilt tu fi p b built c =
    let f = p.next_function in
    let n = b.cfg.heap.next_vertex in
    let le : p.linker.heap.next_vertex ≤ n = omega (arith, c.grown) in
    record {
      ready = record {
        links = c.whole.links;
        ends = λ g. (
          if_keeps (λ (x : ℕ). x < n) (f == g) b.entry_vertex_desc (p.functions.entry_vertex_desc g)
              (omega (arith, c.entry, c.grown)) (omega (arith, (built.ready.ends g).0, le)),
          if_keeps (λ (x : ℕ). x < n) (f == g) b.exit_vertex_desc (p.functions.exit_vertex_desc g)
              (omega (arith, c.exit, c.grown)) (omega (arith, (built.ready.ends g).1, le)),
        );
        below = λ g.
            if_keeps (λ (x : Graph). All (λ (v : ℕ). v < n) x.vertices) (f == g) b.cfg.graph
              (p.linker.cfg_of g) (all_members n b.cfg.graph.vertices c.whole.inside)
              (All-map (λ (v : ℕ). v < p.linker.heap.next_vertex) _ (p.linker.cfg_of g).vertices
                (λ v lt. omega (arith, lt, le)) (built.ready.below g));
      };
      decided = c.whole.decided;
    }

pub add_function-defs :
    (tu : ℕ) (fi : FunctionInfo) (p : Program) (b : Built)
    → (add_function tu fi.identifier b p).function_defs tu
      ≡ p.function_defs tu ++ p.next_function ∷ []
unfolding add_function
add_function-defs tu fi p b = ground arith
