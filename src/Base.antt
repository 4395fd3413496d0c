-- ===== src/Base.antt =====
-- The names that all modules share: the libraries', passed on, with tests on numbers, lists
-- measured by native numbers, and C strings.
mod Bools
mod Lists
mod Libc
mod Int
mod Spans
pub use Bools.*
pub use Lists.*
unfoldable pub use Libc.*
pub use Int.*
pub use Spans.*
pub use Prim.Native.Nat.{ℕ, zero, suc, ◌+◌, ◌-◌, ◌*◌, ◌/◌, ◌%◌, ◌^◌, ◌≤◌, ◌<◌, min}
pub use mathlib.Core.Path.{◌≡◌, refl, sym, ap, ap₂, ◌∙◌}
pub use mathlib.Core.Logic.{◌≢◌, ◌↔◌, ◌⊎◌, inl, inr}
pub use mathlib.Core.Bool.{Bool, true, false, not, ◌&&◌, ◌||◌}
pub use mathlib.Core.Option.{Option, none, some}
pub use mathlib.Core.List.{
  List, [], ◌∷◌, ◌++◌, map, reverse, reverse-cons, reverse-reverse, reverse-append, append-nil,
  append_assoc,
}
pub use native.Mathlib.Omega.{arith}
