-- ===== src/Common.antt =====
-- The names that the modules of this development share: those of the libraries, passed on, and
-- those of the children: tests on numbers, lists, outcomes, dictionaries, 32-bit integers, texts.
mod Tests
mod Lists
mod Outcomes
mod Tables
mod Words
mod Texts
mod Strings
mod Runs
mod Decimal
unfoldable pub use Tests.*
unfoldable pub use Lists.*
unfoldable pub use Outcomes.*
unfoldable pub use Tables.*
unfoldable pub use Words.*
unfoldable pub use Texts.*
unfoldable pub use Runs.*
unfoldable pub use Strings.*
pub use Prim.Native.Nat.{ℕ, zero, suc, ◌+◌, ◌-◌, ◌*◌, ◌/◌, ◌%◌, ◌^◌, ◌≤◌, ◌<◌}
pub use mathlib.Core.Path.{◌≡◌, refl, sym, ap, subst, ◌∙◌, fun_ext}
pub use mathlib.Core.Logic.{◌≢◌, ◌↔◌, ◌⊎◌, inl, inr}
pub use mathlib.Core.Bool.{Bool, true, false, not, ◌&&◌, ◌||◌}
pub use mathlib.Core.Option.{Option, none, some, map as option_map}
pub use mathlib.Core.List.{List, [], ◌∷◌, ◌++◌, map, append_assoc, append-nil}
pub use native.Mathlib.Omega.{arith}
unfoldable pub use Decimal.*
