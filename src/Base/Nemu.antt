-- ===== src/Base/Nemu.antt =====
-- The macros of NEMU's headers (`macro.h`, reached through `common.h`), which are not part of this
-- repository: `BITS(x, hi, lo)`, `BITMASK(bits)` and `IS_2_POW(x)`, with what their users rely on.
use Prim.Native.Nat.{ℕ, ◌+◌, ◌-◌, ◌/◌, ◌%◌, ◌^◌}
use mathlib.Core.Path.{◌≡◌}
use mathlib.Core.Bool.{Bool, true}

pub record Nemu : Type 0 where
  pub bits : ℕ → ℕ → ℕ → ℕ
  pub bitmask : ℕ → ℕ
  pub is_2_pow : ℕ → Bool
  -- `BITS(x, hi, lo)` is the field of `x` from bit `lo` to bit `hi`.
  pub bits_field : (x lo n : ℕ) → bits x (lo + n) lo ≡ x / 2 ^ lo % 2 ^ (n + 1)
  -- `BITMASK(n)` has the `n` low bits set.
  pub bitmask_low : (n : ℕ) → bitmask n ≡ 2 ^ n - 1
  -- `IS_2_POW` accepts the powers of two.
  pub is_2_pow-pow : (n : ℕ) → is_2_pow (2 ^ n) ≡ true
