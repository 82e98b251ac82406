-- ===== src/Paddr/Range.antt =====
-- Well-formed address ranges, and the constructors of `AddrIntv` that make them.
use native.Mathlib.Nat.{one-le-pow, mod-eq_of_lt, mul-le-mul_right, pow-le-pow_right}
use native.Mathlib.Decide.{dec_lt}
use my_diff.Base.{
  ℕ, ◌+◌, ◌-◌, ◌*◌, ◌/◌, ◌%◌, ◌^◌, ◌≤◌, ◌<◌, ◌≡◌, sym, ap, if◌then◌else◌, ◌==◌, require, ◌>>=◌, ◌∙◌,
  arith, bit_and, u32, Outcome, done, aborted, suc,
}
use my_diff.Base.Bits.{pow-add}
use my_diff.Base.Masks.{bit_and-low}
use my_diff.Base.Nemu.{Nemu}
use my_diff.Paddr.{AddrIntv, of_len, of_bits, end}

-- A power of two bytes, aligned to its size, inside the 32-bit address space.
pub record IsRange (r : AddrIntv) : Type 0 where
  pub width : ℕ
  pub mask_ones : r.mask ≡ 2 ^ width - 1
  pub aligned : r.start % 2 ^ width ≡ 0
  pub fits : r.start + 2 ^ width ≤ 2 ^ 32

-- `end` does not wrap.
pub end_lem : {r : AddrIntv} → IsRange r → end r ≡ r.start + r.mask
unfolding end
end_lem h = omega (arith, one-le-pow h.width 2)

offset : (q t d : ℕ) → d < t → (q * t + d) % t ≡ d
offset q t d h = grind (arith, mod-eq_of_lt)

-- A multiple of `t` below a multiple of `t` lies `t` below it.
pub room : (a b t : ℕ) → 0 < t → a * t < b * t → a * t + t ≤ b * t
room a b t h lt = elim (dec_lt a b) [
  | yes p ↦ let e : suc a * t ≤ b * t = mul-le-mul_right t p in omega (arith, e)
  | no p ↦ let e : b * t ≤ a * t = mul-le-mul_right t (omega arith) in absurd (omega (arith, e))
]

-- Inside a range, masking an address is subtracting the range's start.
pub bit_and-mask :
    {r : AddrIntv} (addr : ℕ)
    → IsRange r
    → r.start ≤ addr
    → addr ≤ r.start + r.mask
    → bit_and addr r.mask ≡ addr - r.start
bit_and-mask {r} addr h lo hi =
    ap (bit_and addr) h.mask_ones
    ∙ bit_and-low h.width addr
    ∙ ap (λ t. t % 2 ^ h.width) split
    ∙ offset (r.start / 2 ^ h.width) (2 ^ h.width) (addr - r.start)
        (omega (arith, h.mask_ones, one-le-pow h.width 2))
  where
    split : addr ≡ r.start / 2 ^ h.width * 2 ^ h.width + (addr - r.start)
    split = grind (arith, h.aligned)

-- An aligned start leaves room for the whole range.
aligned-fits : (k start : ℕ) → k ≤ 32 → start < 2 ^ 32 → start % 2 ^ k ≡ 0 → start + 2 ^ k ≤ 2 ^ 32
aligned-fits k start hk h e =
    let all : 2 ^ (32 - k) * 2 ^ k ≡ 2 ^ 32 =
      sym (pow-add (32 - k) k) ∙ ap (λ t. 2 ^ t) (let e : 32 - k + k ≡ 32 = omega arith in e) in
    let steps : start / 2 ^ k * 2 ^ k ≡ start = grind (arith, e) in
    omega (
      arith,
      all,
      steps,
      room (start / 2 ^ k) (2 ^ (32 - k)) (2 ^ k) (one-le-pow k 2 (omega arith))
          (omega (arith, all, steps)),
    )

-- `AddrIntv(start, bits)` is the range of `2 ^ bits` bytes from `start` on, and its assertion
-- stops the program exactly if `start` is not a multiple of `2 ^ bits`.
pub of_bits_lem :
    (n : Nemu) (start bits : ℕ)
    → bits ≤ 32
    → of_bits n start bits ≡ (
        if start % 2 ^ bits == 0
        then done (record { start = start; mask = 2 ^ bits - 1 })
        else aborted)
unfolding of_bits
of_bits_lem n start bits k = ap shape mask ∙ ground (arith, bit_and-low bits start)
  where
    shape : ℕ → Outcome AddrIntv
    shape m = require (bit_and start m == 0) >>= λ _. done (record { start = start; mask = m })

    mask : u32 (n.bitmask bits) ≡ 2 ^ bits - 1
    mask =
        let e : 2 ^ bits ≤ 2 ^ 32 = pow-le-pow_right (omega arith) k in
        omega (arith, n.bitmask_low bits, one-le-pow bits 2)

-- What the constructor returns is well formed.
pub of_bits-IsRange :
    (n : Nemu) (start bits : ℕ) {r : AddrIntv}
    → start < 2 ^ 32
    → bits ≤ 32
    → of_bits n start bits ≡ done r
    → IsRange r
of_bits-IsRange n start bits {r} h k e = record {
  width = bits;
  mask_ones = ground (arith, of_bits_lem n start bits k);
  aligned = ground (arith, of_bits_lem n start bits k);
  fits = ground (arith, of_bits_lem n start bits k, aligned-fits bits start k h);
}

-- The two constructors agree where both apply: a length of `2 ^ bits` bytes, as a 32-bit word, gives
-- the range that `bits` mask bits give.
pub of_len-eq-of_bits :
    (n : Nemu) (start bits : ℕ) → bits ≤ 32 → of_len start (u32 (2 ^ bits)) ≡ of_bits n start bits
unfolding of_bits of_len
of_len-eq-of_bits n start bits k =
    ap (λ m. require (bit_and start m == 0) >>= λ _. done (record { start = start; mask = m })) mask
  where
    mask : u32 (u32 (2 ^ bits) + 2 ^ 32 - 1) ≡ u32 (n.bitmask bits)
    mask =
        let e : 2 ^ bits ≤ 2 ^ 32 = pow-le-pow_right (omega arith) k in
        omega (arith, n.bitmask_low bits, one-le-pow bits 2)
