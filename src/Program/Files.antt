-- ===== src/Program/Files.antt =====
-- Program::Parse with TranslationUnit::ParseFile: src/Program.cpp and src/TranslationUnit.cpp.
use Prim.Native.Char.{Char}
use coflo.Prelude.{
  ℕ, ◌≡◌, refl, sym, subst, Bool, true, false, List, [], ◌∷◌, Option, some, eq_of_some,
  some_of_bind, Bool-cases, ap, ◌∙◌, inl, inr, ◌&&◌,
}
use coflo.Statement.{Location}
use coflo.Graph.{Heap}
use coflo.Graph.Links.{IsLinked}
use coflo.Build.BackEdges.{DfsEvent}
use coflo.Build.BackEdges.Total.{IsSearch}
use coflo.Program.{Program, parse_files, link_units, linked, parse}
use coflo.Program.Links.{IsProgram, linked-IsProgram}
use coflo.TranslationUnit.{FunctionInfo, compile_parameters, parse_file}
use coflo.TranslationUnit.Ready.{IsBuilt}
use coflo.TranslationUnit.Total.{IsParser, NoSwitch, answer, parse_file_total}

module _ (search : Heap → ℕ → List DfsEvent) (unset : Location) (path_of : ℕ → List Char)
    (generate_cfg : List Char → List Char → ℕ) (gimple_file : ℕ → Option (List Char))
    (parse_gimple : List Char → Heap → Heap × Option (List FunctionInfo))
    (defines include_paths : List (List Char)) where
  abbrev pub parse_unit : ℕ → Program → Option (Bool × Program)
  parse_unit =
      parse_file search unset path_of generate_cfg gimple_file parse_gimple defines include_paths

  -- Whether each file can be opened.
  abbrev pub all_open : List ℕ → Bool
  all_open [] = true
  all_open (tu ∷ tus) = answer (gimple_file tu) && all_open tus

  module _ (searches : (h : Heap) (v : ℕ) → IsLinked h → IsSearch h [] (search h v))
      (parser : IsParser parse_gimple)
      (plain : (tu : ℕ) (h : Heap) → NoSwitch parse_gimple (gimple_file tu) h)
      (compiled : (tu : ℕ)
        → generate_cfg (compile_parameters defines include_paths) (path_of tu) ≡ 0) where
    linked-answer :
        (tus : List ℕ) (x y : Bool × Program) → linked parse_unit tus x ≡ some y → y.0 ≡ x.0
    unfolding linked
    linked-answer tus (false, p) y eq = ap (λ (z : Bool × Program). z.0) (sym (eq_of_some eq))
    linked-answer tus (true, p) y eq =
        let (s, all, eq₁) =
          some_of_bind (link_units p tus p.linker) (λ s. some (true, record p { linker = s })) y
            eq in
        ap (λ (z : Bool × Program). z.0) (sym (eq_of_some eq₁))

    parse_files_total :
        (tus : List ℕ) (p : Program)
        → IsBuilt p
        → (q : Program) × (parse_files parse_unit tus p ≡ some (all_open tus, q)) × IsBuilt q
    unfolding parse_files
    parse_files_total [] p built = (p, refl, built)
    parse_files_total (tu ∷ tus) p built =
        let (q, first, built₁, _) =
          parse_file_total search unset path_of searches generate_cfg gimple_file parse_gimple
            defines include_paths tu p parser (plain tu p.linker.heap) (compiled tu) built in
        elim (Bool-cases (answer (gimple_file tu))) [
          | inl opened ↦
              let (r, rest, built₂) = parse_files_total tus q built₁ in
              (r, rw (parse_files, first, opened) rest, built₂)
          | inr missing ↦ (q, rw (parse_files, first, missing) refl, built₁)
        ]

    -- With a search that reports what a depth-first search of a graph does, a parser that keeps links
    -- consistent and gives lists of statements that are allocated, none of them twice in a list and none a
    -- switch, and a compiler's command that returns 0: on a program that is ready, the first loop of Parse
    -- comes to its end or to a file that cannot be opened, and what Parse answers, if the linking
    -- returns, is whether all files can be opened, with a program that is ready.
    pub parse_lem :
        (tus : List ℕ) (p : Program)
        → IsBuilt p
        → (q : Program) × (parse_files parse_unit tus p ≡ some (all_open tus, q))
          × IsBuilt q
          × ((y : Bool × Program)
              → parse parse_unit tus p ≡ some y
              → (y.0 ≡ all_open tus) × IsProgram y.1)
    unfolding parse
    parse_lem tus p built =
        let (q, parsed, built') = parse_files_total tus p built in
        (
          q,
          parsed,
          built',
          λ y eq.
              let (x, first, rest) = some_of_bind _ _ y eq in
              let same : x ≡ (all_open tus, q) = eq_of_some (sym first ∙ parsed) in
              (
                linked-answer tus x y rest ∙ ap (λ (z : Bool × Program). z.0) same,
                linked-IsProgram parse_unit tus x y
                    (subst (λ (z : Bool × Program). IsProgram z.1) (sym same) built'.ready) rest,
              ),
        )
