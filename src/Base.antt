-- ===== src/Base.antt =====
-- The names that every other module shares: the library's, passed on, and those of the children
-- (tests on numbers, lists, signed integers, machine words, finite maps as
-- functions, numbers as bytes).
mod Tests
mod Lists
mod Int
mod Words
mod Maps
mod BigEndian
pub use Tests.*
pub use Lists.*
pub use Int.*
pub use Words.*
pub use Maps.*
unfoldable pub use BigEndian.*
pub use Prim.Native.Nat.{ℕ, zero, suc, ◌+◌, ◌-◌, ◌*◌, ◌/◌, ◌%◌, ◌^◌, ◌≤◌, ◌<◌}
pub use Prim.Native.String.{String}
pub use mathlib.Core.Path.{◌≡◌, refl, sym, ap, ◌∙◌, fun_ext, subst}
pub use mathlib.Core.Logic.{◌≢◌, ◌↔◌, ◌⊎◌, inl, inr}
pub use mathlib.Core.Bool.{Bool, true, false, not, ◌&&◌, ◌||◌}
pub use mathlib.Core.Option.{Option, none, some}
pub use mathlib.Core.List.{List, [], ◌∷◌, ◌++◌, map, append_assoc}
pub use native.Mathlib.Omega.{arith}
