-- ===== src/Base/Words.antt =====
-- Fixed-width words as native numbers below a power of two, and a split of an index below a bound.
use Prim.Native.Nat.{ℕ, ◌+◌, ◌-◌, ◌%◌, ◌^◌, ◌<◌}
use mathlib.Core.Path.{◌≡◌}
use mathlib.Core.Logic.{◌⊎◌}
use native.Mathlib.Omega.{arith}

abbrev pub u8 : ℕ → ℕ
u8 n = n % 2 ^ 8

abbrev pub u32 : ℕ → ℕ
u32 n = n % 2 ^ 32

abbrev pub u64 : ℕ → ℕ
u64 n = n % 2 ^ 64

-- `~x` of a 32-bit word.
abbrev pub not32 : ℕ → ℕ
not32 x = 2 ^ 32 - 1 - x

pub before_or_last : (j i : ℕ) → j < i + 1 → (j < i) ⊎ (j ≡ i)
before_or_last j i below = ground arith
