-- ===== src/Base/Maps.antt =====
-- A column of the store: a finite map by its lookup function.
use Prim.Native.Nat.{ℕ}
use mathlib.Core.Option.{Option, some}
use routinechain.Base.Tests.{◌==◌, if◌then◌else◌}

module _ {ℓ} {A : Type ℓ} where
  abbrev pub update : (ℕ → Option A) → ℕ → A → ℕ → Option A
  update f k v j = if k == j then some v else f j
