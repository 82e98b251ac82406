-- ===== src/Base/Masks.antt =====
-- Masks: what `& (2 ^ k - 1)`, `& ~(2 ^ k - 1)` and `|` of fields that do not meet come to as
-- arithmetic. Address arithmetic rests on these.
use Prim.Native.Nat.{
  ℕ, zero, suc, ◌+◌, ◌-◌, ◌*◌, ◌/◌, ◌%◌, ◌^◌, ◌≤◌, ◌<◌, bit_and, bit_or, bit_or-bitwise,
}
use mathlib.Core.Path.{◌≡◌, sym, ap, ap₂, ◌∙◌}
use native.Mathlib.Nat.{pow-suc, one-le-pow}
use native.Mathlib.Omega.{arith}
use my_diff.Base.Words.{not32}
use my_diff.Base.Bits.{
  bit_and-digit, bit_and-zero, bit_or-zero, bit_and-split, bit_or-split, pow-add,
}

-- All ones below place `k` leave a number that fits there.
pub bit_and-ones : (k r : ℕ) → r < 2 ^ k → bit_and r (2 ^ k - 1) ≡ r
bit_and-ones zero zero h = bit_and-zero 0
bit_and-ones zero (suc r) h = absurd (omega arith)
bit_and-ones (suc k) r h = omega (
  arith,
  bit_and-digit r (2 ^ suc k - 1),
  ap (bit_and (r / 2)) (let e : (2 ^ suc k - 1) / 2 ≡ 2 ^ k - 1 = omega (arith, pow-suc 2 k) in e),
  bit_and-ones k (r / 2) (omega (arith, pow-suc 2 k)),
  pow-suc 2 k,
  one-le-pow k 2,
)

divided : (k a : ℕ) → a / 2 ^ k * 2 ^ k + a % 2 ^ k ≡ a
divided k a = grind arith

-- A mask of `k` ones keeps the remainder by `2 ^ k`.
pub bit_and-low : (k a : ℕ) → bit_and a (2 ^ k - 1) ≡ a % 2 ^ k
bit_and-low k a = omega (
  arith,
  one-le-pow k 2,
  ap (λ t. bit_and t (2 ^ k - 1)) (divided k a),
  ap (bit_and (a / 2 ^ k * 2 ^ k + a % 2 ^ k))
      (let e : 0 * 2 ^ k + (2 ^ k - 1) ≡ 2 ^ k - 1 = omega arith in e),
  bit_and-split k (a / 2 ^ k) (a % 2 ^ k) 0 (2 ^ k - 1) (omega (arith, one-le-pow k 2))
      (omega (arith, one-le-pow k 2)),
  bit_and-ones k (a % 2 ^ k) (omega (arith, one-le-pow k 2)),
  ap (λ t. t * 2 ^ k) (bit_and-zero (a / 2 ^ k)),
)

pred-mul : (p q : ℕ) → 1 ≤ p → (p - 1) * q + q ≡ p * q
pred-mul zero q h = absurd (omega arith)
pred-mul (suc p) q h = omega (arith, ap (λ t. t * q) (let e : suc p - 1 ≡ p = omega arith in e))

-- The complement of that mask, in a word of `k + n` bits, clears the low `k` bits.
pub bit_and-high : (k n a : ℕ) → a < 2 ^ (k + n) → bit_and a (2 ^ (k + n) - 2 ^ k) ≡ a - a % 2 ^ k
bit_and-high k n a h =
    ap₂ bit_and (sym (divided k a)) mask
    ∙ omega (
      arith,
      bit_and-split k (a / 2 ^ k) (a % 2 ^ k) (2 ^ n - 1) 0 (omega (arith, one-le-pow k 2))
          (one-le-pow k 2 (omega arith)),
      ap (λ t. t * 2 ^ k) (bit_and-ones n (a / 2 ^ k) quotient),
      bit_and-zero (a % 2 ^ k),
      divided k a,
    )
  where
    mask : 2 ^ (k + n) - 2 ^ k ≡ (2 ^ n - 1) * 2 ^ k + 0
    mask = omega (arith, pow-add k n, pred-mul (2 ^ n) (2 ^ k) (one-le-pow n 2 (omega arith)))

    quotient : a / 2 ^ k < 2 ^ n
    quotient = grind (arith, pow-add k n, divided k a)

-- Fields that do not meet add up.
pub bit_or-join : (k r q : ℕ) → r < 2 ^ k → bit_or r (q * 2 ^ k) ≡ q * 2 ^ k + r
bit_or-join k r q h =
    ap₂ bit_or left right
    ∙ omega (
      arith,
      bit_or-split k 0 r q 0 h (one-le-pow k 2 (omega arith)),
      ap (λ t. t * 2 ^ k) (bit_or-bitwise 0 q),
      bit_or-zero r,
    )
  where
    left : r ≡ 0 * 2 ^ k + r
    left = omega arith

    right : q * 2 ^ k ≡ q * 2 ^ k + 0
    right = omega arith

pub bit_or-join_high : (k q r : ℕ) → r < 2 ^ k → bit_or (q * 2 ^ k) r ≡ q * 2 ^ k + r
bit_or-join_high k q r h =
    ap₂ bit_or (let e : q * 2 ^ k ≡ q * 2 ^ k + 0 = omega arith in e)
      (let e : r ≡ 0 * 2 ^ k + r = omega arith in e)
    ∙ omega (
      arith,
      bit_or-split k q 0 0 r (one-le-pow k 2 (omega arith)) h,
      ap (λ t. t * 2 ^ k) (bit_or-zero q),
      bit_or-bitwise 0 r,
    )

-- `x & ~(2 ^ k - 1)` on 32-bit words: the address rounded down to a multiple of `2 ^ k`.
pub bit_and-not32 : (k x : ℕ) → k ≤ 32 → x < 2 ^ 32 → bit_and x (not32 (2 ^ k - 1)) ≡ x - x % 2 ^ k
bit_and-not32 k x hk hx = ap (bit_and x) mask ∙ bit_and-high k (32 - k) x (omega (arith, whole))
  where
    whole : 2 ^ (k + (32 - k)) ≡ 2 ^ 32
    whole = ap (λ t. 2 ^ t) (let e : k + (32 - k) ≡ 32 = omega arith in e)

    mask : not32 (2 ^ k - 1) ≡ 2 ^ (k + (32 - k)) - 2 ^ k
    mask = omega (arith, whole, one-le-pow k 2)
