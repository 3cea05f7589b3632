-- ===== src/Program.antt =====
-- Program::Parse, Program::LookupFunction and TranslationUnit::Link: src/Program.cpp and
-- src/TranslationUnit.cpp. TranslationUnit::ParseFile is an argument of Parse, with `none` where it does not
-- return; TranslationUnit.antt has a definition of it.
pub mod Files
pub mod Links
use coflo.Prelude.{
  ℕ, String, Bool, true, false, List, [], ◌∷◌, Option, none, some, ◌>>=◌, if◌then◌else◌,
}
use coflo.Link.{Linker, Functions, find_function, link}

-- The functions with their graphs, and m_function_defs of each translation unit.
pub record Program : Type 0 where
  pub functions : Functions
  pub linker : Linker
  pub function_defs : ℕ → List ℕ
  -- the address of the next `new Function`
  pub next_function : ℕ

-- Program::LookupFunction
unfoldable pub lookup_function : String → Program → Option ℕ
unfolding find_function
lookup_function function_id p = find_function function_id p.functions.function_map

-- TranslationUnit::Link: the loop over its functions.
link_functions : Functions → List ℕ → Linker → Option Linker
unfolding link
link_functions fs [] s = some s
link_functions fs (f ∷ defs) s = do s' ← link fs f s; link_functions fs defs s'

-- The loop over the translation units.
link_units : Program → List ℕ → Linker → Option Linker
unfolding link_functions
link_units p [] s = some s
link_units p (tu ∷ tus) s = do
  s' ← link_functions p.functions (p.function_defs tu) s
  link_units p tus s'

module _ (parse_file : ℕ → Program → Option (Bool × Program)) where
  -- The loop that parses, up to the first file that cannot be parsed.
  pub parse_files : List ℕ → Program → Option (Bool × Program)
  parse_files [] p = some (true, p)
  parse_files (tu ∷ tus) p = elim (parse_file tu p) [
    | none ↦ none
    | some (true, p') ↦ parse_files tus p'
    | some (false, p') ↦ some (false, p')
  ]

  pub linked : List ℕ → Bool × Program → Option (Bool × Program)
  unfolding link_units
  linked tus (false, p) = some (false, p)
  linked tus (true, p) = do s ← link_units p tus p.linker; some (true, record p { linker = s })

  -- Program::Parse; `none` is what ParseFile or Link does not survive.
  pub parse : List ℕ → Program → Option (Bool × Program)
  unfolding parse_files linked
  parse tus p = do r ← parse_files tus p; linked tus r
