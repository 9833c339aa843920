-- ===== src/Prelude.antt =====
-- The names that the other modules share: the libraries', passed on, and those of the children.
mod Tests
mod Lists
mod Texts
mod Decimal
pub mod Dict
mod Space
mod Search
pub mod Numeric
pub use Tests.*
pub use Lists.*
pub use Texts.*
unfoldable pub use Texts.{text_eq, includes, starts_with}
unfoldable pub use Space.{is_space, trim}
unfoldable pub use Search.{contains, replace_first}
pub use Search.{replace_at_start, split_start, starts_with-replace_first}
pub use Space.{trim_of_IsDigits, trim_of_no_space, trim-All}
unfoldable pub use Decimal.{decimal}
pub use Decimal.{tens, length-decimal, decimal_inj, decimal-IsDigits, IsDigits, decimal-ne-nil}
pub use Prim.Native.Nat.{ℕ, zero, suc, ◌+◌, ◌-◌, ◌*◌, ◌/◌, ◌%◌, ◌≤◌, ◌<◌, min}
pub use Prim.Native.String.{String}
pub use mathlib.Core.Path.{◌≡◌, refl, sym, ap, subst, ◌∙◌}
pub use mathlib.Core.Logic.{◌≢◌, ◌↔◌, ◌⊎◌, inl, inr}
pub use mathlib.Core.Bool.{Bool, true, false, ◌&&◌, ◌||◌, not}
pub use mathlib.Core.Option.{Option, none, some}
pub use mathlib.Core.List.{List, [], ◌∷◌, ◌++◌, map}
pub use native.Mathlib.Omega.{arith}
