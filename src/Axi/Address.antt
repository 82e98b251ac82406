-- ===== src/Axi/Address.antt =====
-- The addresses of the beats of a burst.
use native.Mathlib.Nat.{
  one-le-pow, pow-le-pow_right, mod-add-mod, mul-add-mod_self_right, mul_assoc, mod-lt,
  mod-eq-sub-mod, mod-eq_of_lt, mul-lt-mul_of_pos_right,
}
use native.Mathlib.Decide.{dec_le}
use my_diff.Base.{
  ℕ, zero, suc, ◌+◌, ◌-◌, ◌*◌, ◌/◌, ◌%◌, ◌^◌, ◌≤◌, ◌<◌, ◌≡◌, ◌≢◌, refl, sym, ap, ◌∙◌, arith, u32,
  ltb, if◌then◌else◌, bit_and, bit_or, Outcome, done, ◌>>=◌,
}
use my_diff.Base.Bits.{pow-add}
use my_diff.Base.Masks.{bit_and-low, bit_or-join, bit_and-not32}
use my_diff.Axi.{Burst, fixed, incr, wrap, reserved, wrap_mask, wrap_base, next_addr}

-- A word's wrap-around does not show below a smaller power of two.
mod-u32 : (m x : ℕ) → m ≤ 32 → u32 x % 2 ^ m ≡ x % 2 ^ m
mod-u32 m x h =
    sym (mul-add-mod_self_right (x / 2 ^ 32 * 2 ^ (32 - m)) (2 ^ m) (u32 x))
    ∙ ap (λ t. t % 2 ^ m) (omega (arith, split, mul_assoc (x / 2 ^ 32) (2 ^ (32 - m)) (2 ^ m)))
  where
    split : x / 2 ^ 32 * (2 ^ (32 - m) * 2 ^ m) ≡ x / 2 ^ 32 * 2 ^ 32
    split =
        ap (λ t. x / 2 ^ 32 * t)
          (sym (pow-add (32 - m) m) ∙ ap (λ t. 2 ^ t) (let e : 32 - m + m ≡ 32 = omega arith in e))

-- One step of a wrapping burst, in the block `q` of `2 ^ m` bytes.
wrap_step :
    (m q size x : ℕ)
    → m ≤ 32
    → bit_or (bit_and (u32 (q * 2 ^ m + x % 2 ^ m + size)) (2 ^ m - 1)) (q * 2 ^ m)
      ≡ q * 2 ^ m + (x + size) % 2 ^ m
wrap_step m q size x h =
    ap (λ t. bit_or t (q * 2 ^ m)) low
    ∙ bit_or-join m ((x + size) % 2 ^ m) q (mod-lt (x + size) (one-le-pow m 2 (omega arith)))
  where
    block : (q * 2 ^ m + x % 2 ^ m + size) % 2 ^ m ≡ (x + size) % 2 ^ m
    block =
        ap (λ t. t % 2 ^ m)
          (let e : q * 2 ^ m + x % 2 ^ m + size ≡ q * 2 ^ m + (x % 2 ^ m + size) = omega arith in e)
        ∙ mul-add-mod_self_right q (2 ^ m) (x % 2 ^ m + size)
        ∙ mod-add-mod x (2 ^ m) size

    low : bit_and (u32 (q * 2 ^ m + x % 2 ^ m + size)) (2 ^ m - 1) ≡ (x + size) % 2 ^ m
    low = bit_and-low m _ ∙ mod-u32 m _ h ∙ block

-- The address after `beats` beats.
pub walk : Burst → ℕ → ℕ → ℕ → ℕ → ℕ → Outcome ℕ
walk burst mask bound size addr zero = done addr
walk burst mask bound size addr (suc beats) =
    walk burst mask bound size addr beats >>= λ a. next_addr burst mask bound size a

-- A fixed burst stays, an incrementing one goes up by the size of a beat, and a wrapping one goes round
-- the block of `total` bytes that holds the start.
abbrev pub beat_addr : Burst → ℕ → ℕ → ℕ → ℕ → ℕ
beat_addr fixed start size total beats = start
beat_addr incr start size total beats = (start + beats * size) % 2 ^ 32
beat_addr wrap start size total beats = start - start % total + (start + beats * size) % total
beat_addr reserved start size total beats = start

blocks : (x t : ℕ) → x - x % t ≡ x / t * t
blocks x t = grind arith

-- The mask and bound that the slave sets up for a burst of `2 ^ j` beats of `2 ^ k` bytes.
wrap_setup :
    (j k start : ℕ)
    → j + k ≤ 32
    → start < 2 ^ 32
    → (wrap_mask (2 ^ j) k ≡ 2 ^ (j + k) - 1)
      × (wrap_base start (2 ^ (j + k) - 1) ≡ start / 2 ^ (j + k) * 2 ^ (j + k))
wrap_setup j k start h hs =
    let small : 2 ^ (j + k) ≤ 2 ^ 32 = pow-le-pow_right (omega arith) h in
    let one : 1 ≤ 2 ^ (j + k) = one-le-pow (j + k) 2 (omega arith) in
    (omega (arith, pow-add j k), bit_and-not32 (j + k) start h hs ∙ blocks start (2 ^ (j + k)))

blocks_join : (x t : ℕ) → x ≡ x - x % t + x % t
blocks_join x t = grind arith

wrap_next :
    (j k start x : ℕ)
    → j + k ≤ 32
    → start < 2 ^ 32
    → bit_or
        (bit_and
          (u32 (start - start % 2 ^ (j + k) + x % 2 ^ (j + k) + 2 ^ k))
          (wrap_mask (2 ^ j) k))
        (wrap_base start (wrap_mask (2 ^ j) k))
      ≡ start - start % 2 ^ (j + k) + (x + 2 ^ k) % 2 ^ (j + k)
wrap_next j k start x h hs =
    let (mask, base) = wrap_setup j k start h hs in
    rw (mask, base, blocks start (2 ^ (j + k)))
      (wrap_step (j + k) (start / 2 ^ (j + k)) (2 ^ k) x h)

-- The address of every beat of a burst, from any start; the mask and the bound are those that the slave
-- sets up for `2 ^ j` beats of `2 ^ k` bytes.
pub walk-beat_addr :
    (burst : Burst) (j k start beats : ℕ)
    → burst ≢ reserved
    → j + k ≤ 32
    → start < 2 ^ 32
    → walk burst (wrap_mask (2 ^ j) k) (wrap_base start (wrap_mask (2 ^ j) k)) (2 ^ k) start beats
      ≡ done (beat_addr burst start (2 ^ k) (2 ^ (j + k)) beats)
unfolding walk next_addr
walk-beat_addr fixed j k start zero known h hs = refl
walk-beat_addr fixed j k start (suc beats) known h hs =
    rw (walk-beat_addr fixed j k start beats known h hs)
walk-beat_addr incr j k start zero known h hs = ap done (omega arith)
walk-beat_addr incr j k start (suc beats) known h hs =
    rw (walk-beat_addr incr j k start beats known h hs) (ap done (omega arith))
walk-beat_addr wrap j k start zero known h hs = ap done (
    blocks_join start (2 ^ (j + k))
    ∙ ap (λ t. start - start % 2 ^ (j + k) + t % 2 ^ (j + k)) {x = start} {y = start + 0 * 2 ^ k}
        (omega arith))
walk-beat_addr wrap j k start (suc beats) known h hs =
    rw (walk-beat_addr wrap j k start beats known h hs)
      (ap done (wrap_next j k start (start + beats * 2 ^ k) h hs ∙ again))
  where
    again :
        start - start % 2 ^ (j + k) + (start + beats * 2 ^ k + 2 ^ k) % 2 ^ (j + k)
        ≡ start - start % 2 ^ (j + k) + (start + suc beats * 2 ^ k) % 2 ^ (j + k)
    again =
        ap (λ t. start - start % 2 ^ (j + k) + t % 2 ^ (j + k)) {x = start + beats * 2 ^ k + 2 ^ k}
          {y = start + suc beats * 2 ^ k} (omega arith)
walk-beat_addr reserved j k start beats known h hs = absurd (known refl)

-- The step from one beat to the next.
pub beat_addr-next :
    (burst : Burst) (j k start beats : ℕ)
    → burst ≢ reserved
    → j + k ≤ 32
    → start < 2 ^ 32
    → next_addr burst
        (wrap_mask (2 ^ j) k)
        (wrap_base start (wrap_mask (2 ^ j) k))
        (2 ^ k)
        (beat_addr burst start (2 ^ k) (2 ^ (j + k)) beats)
      ≡ done (beat_addr burst start (2 ^ k) (2 ^ (j + k)) (suc beats))
unfolding walk
beat_addr-next burst j k start beats known h hs =
    rw (walk-beat_addr burst j k start beats known h hs) at
      (walk-beat_addr burst j k start (suc beats) known h hs)

pub beat_addr-first :
    (burst : Burst) (start size total : ℕ)
    → start < 2 ^ 32
    → beat_addr burst start size total 0 ≡ start
beat_addr-first fixed start size total h = refl
beat_addr-first incr start size total h = omega arith
beat_addr-first wrap start size total h =
    ap (λ t. start - start % total + t % total) {x = start + 0 * size} {y = start} (omega arith)
    ∙ sym (blocks_join start total)
beat_addr-first reserved start size total h = refl

-- The address of beat `beats` as the AXI specification words it, for a burst whose beats have `size`
-- bytes and `total` bytes in all. Past the first beat an incrementing burst counts from the aligned
-- start; a wrapping one starts over at its lower boundary when it gets to the upper one.
abbrev pub axi_addr : Burst → ℕ → ℕ → ℕ → ℕ → ℕ
axi_addr fixed start size total beats = start
axi_addr incr start size total zero = start
axi_addr incr start size total (suc beats) = (start - start % size + suc beats * size) % 2 ^ 32
axi_addr wrap start size total beats =
    let up = start + beats * size in
    if ltb up (start / total * total + total) then up else up - total
axi_addr reserved start size total beats = start

go_round :
    (start y t : ℕ)
    → y < t
    → start - start % t + (start + y) % t
      ≡ (if ltb (start + y) (start / t * t + t) then start + y else start + y - t)
go_round start y t small = elim (dec_le t (r + y)) [
  | yes over ↦
      let back : (r + y) % t ≡ r + y - t =
        mod-eq-sub-mod over ∙ mod-eq_of_lt (omega (arith, mod-lt start some)) in
      ground (arith, split, rest, back)
  | no under ↦
      let stays : (r + y) % t ≡ r + y = mod-eq_of_lt (omega arith) in
      ground (arith, split, rest, stays)
]
  where
    some : 1 ≤ t
    some = omega arith

    r : ℕ
    r = start % t

    split : start ≡ start / t * t + r
    split = grind arith

    rest : (start + y) % t ≡ (r + y) % t
    rest =
        ap (λ x. x % t) {x = start + y} {y = start / t * t + (r + y)} (omega (arith, split))
        ∙ mul-add-mod_self_right (start / t) t (r + y)

-- Every beat gets the address of the AXI specification. For a burst of `2 ^ j` beats of `2 ^ k` bytes, of
-- at most 2 ^ 32 bytes in all, that is not of the reserved kind and starts at a 32-bit address which is a
-- multiple of `2 ^ k`, as `check_axi_req` asks for: the slave's steps from the start, with the mask and
-- the bound that it sets up, lead at each of the beats to the address that the specification gives it.
pub walk-axi_addr :
    (burst : Burst) (j k start beats : ℕ)
    → burst ≢ reserved
    → j + k ≤ 32
    → start < 2 ^ 32
    → start % 2 ^ k ≡ 0
    → beats < 2 ^ j
    → walk burst (wrap_mask (2 ^ j) k) (wrap_base start (wrap_mask (2 ^ j) k)) (2 ^ k) start beats
      ≡ done (axi_addr burst start (2 ^ k) (2 ^ (j + k)) beats)
walk-axi_addr fixed j k start beats known h hs aligned few =
    walk-beat_addr fixed j k start beats known h hs
walk-axi_addr incr j k start zero known h hs aligned few =
    walk-beat_addr incr j k start 0 known h hs ∙ ap done (omega arith)
walk-axi_addr incr j k start (suc beats) known h hs aligned few =
    walk-beat_addr incr j k start (suc beats) known h hs ∙ ap done (omega (arith, aligned))
walk-axi_addr wrap j k start beats known h hs aligned few =
    walk-beat_addr wrap j k start beats known h hs
    ∙ ap done (go_round start (beats * 2 ^ k) (2 ^ (j + k)) inside)
  where
    inside : beats * 2 ^ k < 2 ^ (j + k)
    inside = omega (arith, pow-add j k, mul-lt-mul_of_pos_right few (one-le-pow k 2 (omega arith)))
walk-axi_addr reserved j k start beats known h hs aligned few = absurd (known refl)
