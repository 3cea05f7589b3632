-- ===== src/Program/Links.antt =====
-- The links between all functions' graphs: src/Program.cpp.
use coflo.Prelude.{
  ℕ, ◌<◌, ◌≡◌, subst, Bool, true, false, List, [], ◌∷◌, some, arith, some_of_bind, eq_of_some,
  Option, All,
}
use coflo.Graph.Links.{IsLinked}
use coflo.Link.{Linker, Functions, link}
use coflo.Link.Below.{link-GraphsBelow}
use coflo.Link.Calls.{EndsBelow}
use coflo.Link.Links.{link-IsLinked}
use coflo.Program.{Program, link_functions, link_units, linked}

-- The links are consistent, and the vertices of every graph and its ends are allocated.
pub record IsReady (fs : Functions) (s : Linker) : Type 0 where
  pub links : IsLinked s.heap
  pub ends : EndsBelow s.heap.next_vertex fs
  pub below : (g : ℕ) → All (λ (v : ℕ). v < s.heap.next_vertex) (s.cfg_of g).vertices

module _ (fs : Functions) where
  link-IsReady : (f : ℕ) (s s' : Linker) → IsReady fs s → link fs f s ≡ some s' → IsReady fs s'
  link-IsReady f s s' r eq =
      let (links, le, _) = link-IsLinked fs f s s' r.links r.ends (r.below f) eq in
      record {
        links = links;
        ends = λ g. (omega (arith, (r.ends g).0), omega (arith, (r.ends g).1));
        below = link-GraphsBelow fs f s s' r.below eq;
      }

  link_functions-IsReady :
      (defs : List ℕ) (s s' : Linker)
      → IsReady fs s
      → link_functions fs defs s ≡ some s'
      → IsReady fs s'
  unfolding link_functions
  link_functions-IsReady [] s s' r eq = subst (IsReady fs) (eq_of_some eq) r
  link_functions-IsReady (f ∷ defs) s s' r eq =
      let (s₁, first, rest) = some_of_bind _ _ s' eq in
      link_functions-IsReady defs s₁ s' (link-IsReady f s s₁ r first) rest

link_units-IsReady :
    (p : Program) (tus : List ℕ) (s s' : Linker)
    → IsReady p.functions s
    → link_units p tus s ≡ some s'
    → IsReady p.functions s'
unfolding link_units
link_units-IsReady p [] s s' r eq = subst (IsReady p.functions) (eq_of_some eq) r
link_units-IsReady p (tu ∷ tus) s s' r eq =
    let (s₁, first, rest) = some_of_bind _ _ s' eq in
    link_units-IsReady p tus s₁ s'
      (link_functions-IsReady p.functions (p.function_defs tu) s s₁ r first) rest

abbrev pub IsProgram : Program → Type 0
IsProgram p = IsReady p.functions p.linker

module _ (parse_file : ℕ → Program → Option (Bool × Program)) where
  pub linked-IsProgram :
      (tus : List ℕ) (x : Bool × Program) (y : Bool × Program)
      → IsProgram x.1
      → linked parse_file tus x ≡ some y
      → IsProgram y.1
  unfolding linked
  linked-IsProgram tus (false, p) y r eq = subst (λ y. IsProgram y.1) (eq_of_some eq) r
  linked-IsProgram tus (true, p) y r eq =
      let (s, all, eq₁) = some_of_bind _ _ y eq in
      subst (λ y. IsProgram y.1) (eq_of_some eq₁) (link_units-IsReady p tus p.linker s r all)
