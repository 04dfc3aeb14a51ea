-- ===== src/Base/Words.antt =====
-- Unsigned machine words as numbers: the release build wraps `+`, and `saturating_add` and
-- `saturating_sub` stop at the ends of the range.
use Prim.Native.Nat.{ℕ, ◌+◌, ◌-◌, ◌%◌, ◌^◌}
use routinechain.Base.Tests.{leb, if◌then◌else◌}

abbrev pub u64_max : ℕ
u64_max = 2 ^ 64 - 1

-- `a + b` on u64
abbrev pub add_u64 : ℕ → ℕ → ℕ
add_u64 a b = (a + b) % 2 ^ 64

-- `a + b` on u32
abbrev pub add_u32 : ℕ → ℕ → ℕ
add_u32 a b = (a + b) % 2 ^ 32

-- `a - b` on u64, which wraps below zero
abbrev pub sub_u64 : ℕ → ℕ → ℕ
sub_u64 a b = (a + 2 ^ 64 - b) % 2 ^ 64

-- `a.saturating_add(b)` on u64
abbrev pub saturating_add : ℕ → ℕ → ℕ
saturating_add a b = if leb (a + b) u64_max then a + b else u64_max

-- `a.saturating_sub(b)`: `-` on ℕ stops at zero as it does
abbrev pub saturating_sub : ℕ → ℕ → ℕ
saturating_sub a b = a - b
