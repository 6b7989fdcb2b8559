-- ===== src/Base.antt =====
-- The names that every other module uses: those of the libraries, passed on, and those of the
-- children, with tests on numbers, texts, lists, ordered maps and results.
mod Tests
mod Lists
mod Utf8
mod Results
pub mod Dict
pub mod Decimal
pub mod Trim
pub mod Lines
pub mod Store
pub mod Fallible
pub mod Unsigned
pub use Tests.*
pub use Lists.*
unfoldable pub use Utf8.{text_cmp}
pub use Utf8.*
pub use Results.*
pub use Prim.Native.Nat.{
  ℕ, zero, suc, ◌+◌, ◌-◌, ◌*◌, ◌/◌, ◌%◌, ◌^◌, ◌≤◌, ◌<◌, min, max, compare, Ordering,
}
pub use Prim.Native.String.{String}
pub use mathlib.Core.Path.{◌≡◌, refl, sym, ap, ◌∙◌, subst}
pub use mathlib.Core.Logic.{◌≢◌, ◌↔◌, ◌⊎◌, inl, inr}
pub use mathlib.Core.Bool.{Bool, true, false, not, ◌&&◌, ◌||◌}
pub use mathlib.Core.Option.{Option, none, some}
pub use mathlib.Core.List.{List, [], ◌∷◌, ◌++◌, map, append-nil, append_assoc}
pub use native.Mathlib.Omega.{arith}
pub use native.Mathlib.Nat.{add-zero}
unfoldable pub use native.Mathlib.Decide.{dec_lt}
