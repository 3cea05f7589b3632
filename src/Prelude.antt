-- ===== src/Prelude.antt =====
-- Names that every module of this library shares: the libraries' own, the Boolean tests on native
-- numbers, lists measured by native numbers, and the pointer sets that stand for `unordered_set`.
mod Tests
mod Lists
mod Sets
mod Chars
pub mod Int
pub mod Decimal
pub use Tests.*
pub use Lists.*
pub use Sets.*
pub use Chars.{
  chars, to_string, is_digit, is_space, take_digits, value_from, is_numeral, take_digits-numeral,
}
pub use Prim.Native.Nat.{ℕ, zero, suc, ◌+◌, ◌-◌, ◌*◌, ◌^◌, ◌%◌, ◌≤◌, ◌<◌}
pub use Prim.Native.String.{String}
pub use mathlib.Core.Path.{◌≡◌, refl, sym, ap, subst, ◌∙◌}
pub use mathlib.Core.Logic.{◌≢◌, ◌↔◌, ◌⊎◌, inl, inr}
pub use mathlib.Core.Bool.{Bool, true, false, not, ◌&&◌, ◌||◌}
pub use mathlib.Core.Option.{Option, none, some}
pub use mathlib.Core.List.{List, [], ◌∷◌, ◌++◌, map}
pub use native.Mathlib.Omega.{arith}
