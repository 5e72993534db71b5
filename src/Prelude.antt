-- ===== src/Prelude.antt =====
-- The names that every component shares: the libraries', passed on, the Boolean tests on numbers
-- and texts, and the lists that stand for database tables and for the calls that were made.
mod Tests
mod Lists
mod Rows
mod Keys
mod Int
pub use Tests.*
pub use Lists.*
pub use Rows.*
pub use Keys.*
pub use Int.{ℤ, pos, negsuc, above_zero, below_zero, leb_ℤ}
unfoldable pub use Int.{◌+ℤ◌}
pub use Prim.Native.Nat.{ℕ, zero, suc, ◌+◌, ◌-◌, ◌*◌, ◌/◌, ◌%◌, ◌≤◌, ◌<◌, min, max}
pub use Prim.Native.String.{String}
pub use mathlib.Core.Path.{◌≡◌, refl, sym, ap, ◌∙◌, subst, fun_ext}
pub use mathlib.Core.Logic.{◌≢◌, ◌↔◌, ◌⊎◌, inl, inr}
pub use mathlib.Core.Bool.{Bool, true, false, not, ◌&&◌, ◌||◌}
pub use mathlib.Core.Option.{Option, none, some}
pub use mathlib.Core.List.{List, [], ◌∷◌, ◌++◌, map}
pub use native.Mathlib.Omega.{arith}
pub use text.Mathlib.Text.{◌==◌ as str_eq}
pub use text.Mathlib.TextEquality.{eq_iff}
