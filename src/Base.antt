-- ===== src/Base.antt =====
-- Names that every part of the development shares: the libraries', passed on, and the helpers of
-- two children, on Boolean tests and on lists over the native numbers.
mod Tests
mod Lists
mod Text
mod Options
pub use Tests.*
pub use Lists.*
pub use Options.*
unfoldable pub use Text.{str_eq, decimal}
pub use Text.{codes, str_eq→eq, str_eq_refl, str_eq_iff}
pub use Prim.Native.Nat.{ℕ, zero, suc, ◌+◌, ◌-◌, ◌*◌, ◌/◌, ◌%◌, ◌^◌, ◌≤◌, ◌<◌, min, bit_or, bit_and}
pub use mathlib.Core.Path.{◌≡◌, refl, sym, ap, ap₂, subst, ◌∙◌}
pub use mathlib.Core.Logic.{◌≢◌, ◌↔◌, ◌⊎◌, inl, inr}
pub use mathlib.Core.Bool.{Bool, true, false, not, ◌&&◌, ◌||◌}
pub use mathlib.Core.Option.{Option, none, some}
pub use mathlib.Core.List.{List, [], ◌∷◌, ◌++◌, map, append_assoc, append-nil}
pub use native.Mathlib.Nat.{add_assoc}
pub use native.Mathlib.Omega.{arith}
