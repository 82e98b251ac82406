-- ===== src/Base/Bits.antt =====
-- `&` and `|` digit by digit, and field by field for fields of every width.
use Prim.Native.Nat.{
  ℕ, zero, suc, ◌+◌, ◌*◌, ◌/◌, ◌%◌, ◌^◌, ◌≤◌, ◌<◌, min, max, bit_and, bit_or, digits,
  bit_and-bitwise, bit_or-bitwise,
}
use mathlib.Core.Path.{◌≡◌, refl, ap, ap₂, ◌∙◌}
use native.Mathlib.Nat.{pow-suc}
use native.Mathlib.Omega.{arith}

-- The count of digits that `digits` is given does not matter once it covers the first number.
module _ (z : ℕ → ℕ) (f : ℕ → ℕ → ℕ) where
  digits-enough : (a n m b : ℕ) → a ≤ n → a ≤ m → digits z f n a b ≡ digits z f m a b
  digits-enough a zero zero b p q = refl
  digits-enough zero zero (suc m) b p q = refl
  digits-enough (suc a) zero (suc m) b p q = absurd (omega arith)
  digits-enough zero (suc n) zero b p q = refl
  digits-enough (suc a) (suc n) zero b p q = absurd (omega arith)
  digits-enough zero (suc n) (suc m) b p q = refl
  digits-enough (suc a) (suc n) (suc m) b p q =
      ap (λ t. t * 2 + f (suc a % 2) (b % 2))
        (digits-enough (suc a / 2) n m (b / 2) (omega arith) (omega arith))

-- One equation for the lowest digit of each operation.
pub bit_and-digit : (a b : ℕ) → bit_and a b ≡ bit_and (a / 2) (b / 2) * 2 + min (a % 2) (b % 2)
bit_and-digit zero b = simp bit_and-bitwise (omega arith)
bit_and-digit (suc a) b = simp bit_and-bitwise (
    ap (λ t. t * 2 + min (suc a % 2) (b % 2))
      (digits-enough (λ y. 0) min (suc a / 2) a (suc a / 2) (b / 2) (omega arith) (omega arith)))

pub bit_or-digit : (a b : ℕ) → bit_or a b ≡ bit_or (a / 2) (b / 2) * 2 + max (a % 2) (b % 2)
bit_or-digit zero b = simp bit_or-bitwise (omega arith)
bit_or-digit (suc a) b = simp bit_or-bitwise (
    ap (λ t. t * 2 + max (suc a % 2) (b % 2))
      (digits-enough (λ y. y) max (suc a / 2) a (suc a / 2) (b / 2) (omega arith) (omega arith)))

bit_and-zero_below : (n a : ℕ) → a ≤ n → bit_and a 0 ≡ 0
bit_and-zero_below n zero h = refl
bit_and-zero_below zero (suc a) h = absurd (omega arith)
bit_and-zero_below (suc n) (suc a) h =
    omega (arith, bit_and-digit (suc a) 0, bit_and-zero_below n (suc a / 2) (omega arith))

bit_or-zero_below : (n a : ℕ) → a ≤ n → bit_or a 0 ≡ a
bit_or-zero_below n zero h = refl
bit_or-zero_below zero (suc a) h = absurd (omega arith)
bit_or-zero_below (suc n) (suc a) h =
    omega (arith, bit_or-digit (suc a) 0, bit_or-zero_below n (suc a / 2) (omega arith))

pub bit_or-zero : (a : ℕ) → bit_or a 0 ≡ a
bit_or-zero a = bit_or-zero_below a a (omega arith)

pub bit_and-zero : (a : ℕ) → bit_and a 0 ≡ 0
bit_and-zero a = bit_and-zero_below a a (omega arith)

unit : (x : ℕ) → x * 2 ^ 0 + 0 ≡ x
unit x = omega arith

pub pow-add : (m n : ℕ) → 2 ^ (m + n) ≡ 2 ^ m * 2 ^ n
pow-add zero n = omega (arith, ap (λ t. 2 ^ t) (let e : zero + n ≡ n = omega arith in e))
pow-add (suc m) n = omega (
  arith,
  ap (λ t. 2 ^ t) (let e : suc m + n ≡ suc (m + n) = omega arith in e),
  pow-suc 2 (m + n),
  ap (λ t. t * 2 ^ n) (pow-suc 2 m),
  pow-add m n,
)

doubled : (q k : ℕ) → q * 2 ^ suc k ≡ 2 * (q * 2 ^ k)
doubled q k = omega (arith, ap (λ t. q * t) (pow-suc 2 k))

-- Both operations work on the digits above place `k` and below it separately.
pub bit_and-split :
    (k q r m s : ℕ)
    → r < 2 ^ k
    → s < 2 ^ k
    → bit_and (q * 2 ^ k + r) (m * 2 ^ k + s) ≡ bit_and q m * 2 ^ k + bit_and r s
bit_and-split zero q zero m zero hr hs =
    omega (arith, ap₂ bit_and (unit q) (unit m), bit_and-zero 0)
bit_and-split zero q (suc r) m s hr hs = absurd (omega arith)
bit_and-split zero q zero m (suc s) hr hs = absurd (omega arith)
bit_and-split (suc k) q r m s hr hs =
    ap₂ bit_and (shape q r) (shape m s)
    ∙ omega (
      arith,
      bit_and-digit (2 * (q * 2 ^ k) + r) (2 * (m * 2 ^ k) + s),
      ap₂ bit_and (halved q r) (halved m s),
      bit_and-split k q (r / 2) m (s / 2) (omega (arith, pow-suc 2 k)) (omega (arith, pow-suc 2 k)),
      doubled (bit_and q m) k,
      bit_and-digit r s,
    )
  where
    shape : (x y : ℕ) → x * 2 ^ suc k + y ≡ 2 * (x * 2 ^ k) + y
    shape x y = omega (arith, doubled x k)

    halved : (x y : ℕ) → (2 * (x * 2 ^ k) + y) / 2 ≡ x * 2 ^ k + y / 2
    halved x y = omega arith

pub bit_or-split :
    (k q r m s : ℕ)
    → r < 2 ^ k
    → s < 2 ^ k
    → bit_or (q * 2 ^ k + r) (m * 2 ^ k + s) ≡ bit_or q m * 2 ^ k + bit_or r s
bit_or-split zero q zero m zero hr hs =
    omega (arith, ap₂ bit_or (unit q) (unit m), bit_or-bitwise 0 0)
bit_or-split zero q (suc r) m s hr hs = absurd (omega arith)
bit_or-split zero q zero m (suc s) hr hs = absurd (omega arith)
bit_or-split (suc k) q r m s hr hs =
    ap₂ bit_or (shape q r) (shape m s)
    ∙ omega (
      arith,
      bit_or-digit (2 * (q * 2 ^ k) + r) (2 * (m * 2 ^ k) + s),
      ap₂ bit_or (halved q r) (halved m s),
      bit_or-split k q (r / 2) m (s / 2) (omega (arith, pow-suc 2 k)) (omega (arith, pow-suc 2 k)),
      doubled (bit_or q m) k,
      bit_or-digit r s,
    )
  where
    shape : (x y : ℕ) → x * 2 ^ suc k + y ≡ 2 * (x * 2 ^ k) + y
    shape x y = omega (arith, doubled x k)

    halved : (x y : ℕ) → (2 * (x * 2 ^ k) + y) / 2 ≡ x * 2 ^ k + y / 2
    halved x y = omega arith
