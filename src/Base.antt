-- ===== src/Base.antt =====
-- The names that the other modules share: the libraries' own, passed on, and those of the
-- children: Boolean tests on numbers, texts as lists of code units, lists, and results.
mod Tests
mod Chars
mod Lists
mod Reorder
mod Outcomes
pub use Tests.*
pub use Chars.{Text, same_iff, same_refl, same_of_ne}
unfoldable pub use Chars.{
  same, codes, decimal, pad_start, is_blank, trim_start, trim, starts_with, after_prefix,
  remove_first,
}
pub use Lists.*
pub use Reorder.{any-Perm, every-Perm, length-Perm}
pub use Outcomes.*
pub use Prim.Native.Nat.{ℕ, zero, suc, ◌+◌, ◌-◌, ◌*◌, ◌/◌, ◌%◌, ◌^◌, ◌≤◌, ◌<◌, min, max}
pub use Prim.Native.String.{String}
pub use mathlib.Core.Path.{◌≡◌, refl, sym, ap, ◌∙◌, subst, subst₂}
pub use mathlib.Core.Logic.{◌≢◌, ◌↔◌, ◌⊎◌, inl, inr}
pub use mathlib.Core.Bool.{Bool, true, false, not, ◌&&◌, ◌||◌}
pub use mathlib.Core.Option.{Option, none, some}
pub use mathlib.Core.List.{List, [], ◌∷◌, ◌++◌, map, Perm}
pub use native.Mathlib.Omega.{arith}
