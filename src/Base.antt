-- ===== src/Base.antt =====
-- Names that every component uses: the libraries', passed on, and those of the modules below.
mod Tests
mod Lists
mod Texts
mod Decimal
mod Unseen
pub use Tests.*
pub use Lists.*
pub use Texts.*
pub use Unseen.*
unfoldable pub use Texts.{trim}
unfoldable pub use Decimal.{to_decimal, of_decimal}
pub use Decimal.{of_decimal-to_decimal, to_decimal-has_no}
pub use Prim.Native.Nat.{ℕ, zero, suc, ◌+◌, ◌-◌, ◌*◌, ◌/◌, ◌%◌, ◌^◌, ◌≤◌, ◌<◌, min, max}
pub use mathlib.Core.Path.{◌≡◌, refl, sym, ap, ◌∙◌}
pub use mathlib.Core.Logic.{◌≢◌, ◌↔◌, ◌⊎◌, inl, inr}
pub use mathlib.Core.Bool.{Bool, true, false, not, ◌&&◌, ◌||◌}
pub use mathlib.Core.Option.{Option, none, some}
pub use mathlib.Core.List.{List, [], ◌∷◌, ◌++◌, map, append-nil, append_assoc}
pub use native.Mathlib.Omega.{arith}
