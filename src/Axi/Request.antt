-- ===== src/Axi/Request.antt =====
-- `check_axi_req`: which requests it lets pass.
use native.Mathlib.Nat.{pow-le-pow_right, one-le-pow, mul-le-mul, mul-le-mul_right}
use native.Mathlib.Decide.{dec_le, ℕ_discrete}
use my_diff.Base.{
  ℕ, zero, suc, ◌+◌, ◌-◌, ◌*◌, ◌/◌, ◌%◌, ◌^◌, ◌≤◌, ◌<◌, ◌≡◌, ◌⊎◌, inl, inr, true, refl, ◌∙◌,
  Bool-cases, Bool, false, ◌&&◌, ◌||◌, leb, ◌==◌, if◌then◌else◌, arith, u8, u32,
}
use my_diff.Base.Masks.{bit_and-not32}
use my_diff.Axi.{
  Burst, fixed, incr, wrap, reserved, SimStatus, sim_abort, check_axi_req, check_wrap, check_linear,
}

-- The check, as arithmetic.
is_legal : ℕ → Burst → ℕ → ℕ → Bool
is_legal num_bytes fixed start len =
    leb num_bytes 4 && (start % num_bytes == 0 && leb (start % 4096 + num_bytes * len) 4096)
is_legal num_bytes incr start len =
    leb num_bytes 4 && (start % num_bytes == 0 && leb (start % 4096 + num_bytes * len) 4096)
is_legal num_bytes wrap start len =
    leb num_bytes 4 && (start % num_bytes == 0 && (len == 2 || len == 4 || len == 8 || len == 16))
is_legal num_bytes reserved start len = false

page_test :
    (a p : ℕ)
    → a < 2 ^ 32
    → 1 ≤ p
    → p ≤ 128 * 255
    → (a / 2 ^ 12 == u32 (a + p + 2 ^ 32 - 1) / 2 ^ 12) ≡ leb (a % 4096 + p) 4096
page_test a p h lo hi = elim (dec_le (a % 4096 + p) 4096) [
  | yes le ↦ ground arith
  | no gt ↦ ground arith
]

beats_bounds :
    (size len : ℕ)
    → size ≤ 7
    → 1 ≤ len
    → len ≤ 255
    → (1 ≤ 2 ^ size * len) × (2 ^ size * len ≤ 128 * 255)
beats_bounds size len hs lo hi =
    let one : 1 ≤ 2 ^ size = one-le-pow size 2 (omega arith) in
    let top : 2 ^ size ≤ 2 ^ 7 = pow-le-pow_right (omega arith) hs in
    (mul-le-mul one lo, mul-le-mul top hi)

linear_lem :
    (nb start len : ℕ) (sim : SimStatus)
    → start < 2 ^ 32
    → 1 ≤ len
    → 1 ≤ nb * len
    → nb * len ≤ 128 * 255
    → check_linear nb (start - start % nb) (start == start - start % nb) len sim
      ≡ (if start % nb == 0 && leb (start % 4096 + nb * len) 4096 then sim else sim_abort)
unfolding check_linear
linear_lem nb start len sim h pos lo hi = elim (ℕ_discrete (start % nb) 0) [
  | yes e ↦
      let same : start - start % nb ≡ start = omega arith in
      rw (same, page_test start (nb * len) h lo hi) (ground arith)
  | no n ↦ ground arith
]

check_axi_req_value :
    (size : ℕ) (burst : Burst) (start len : ℕ) (sim : SimStatus)
    → size ≤ 7
    → start < 2 ^ 32
    → 1 ≤ len
    → len ≤ 255
    → check_axi_req (2 ^ size) burst start len sim
      ≡ (if is_legal (2 ^ size) burst start len then sim else sim_abort)
unfolding check_axi_req is_legal
check_axi_req_value size wrap start len sim hs h lo hi =
    rw (bit_and-not32 size start (omega arith) h) (unfold check_wrap in ground arith)
check_axi_req_value size reserved start len sim hs h lo hi = unfold check_linear in ground arith
check_axi_req_value size _ start len sim hs h lo hi =
    let bounds = beats_bounds size len hs lo hi in
    rw
      (
        bit_and-not32 size start (omega arith) h,
        linear_lem (2 ^ size) start len _ h lo bounds.0 bounds.1,
      )
      (ground arith)

-- The rules of AXI4 for a burst of `len` beats of `2 ^ size` bytes on a bus of four bytes: an
-- incrementing burst has the last byte of each beat in the 4 KB page of its start, a wrapping one starts
-- at a multiple of a beat and has 2, 4, 8 or 16 beats, a fixed one can start anywhere and has up to 16
-- beats, and no other burst is legal.
abbrev pub AxiLegal : ℕ → Burst → ℕ → ℕ → Type 0
AxiLegal size fixed start len = (size ≤ 2) × (len ≤ 16)
AxiLegal size incr start len =
    (size ≤ 2)
    × ((n : ℕ)
        → n < len
        → (start - start % 2 ^ size + n * 2 ^ size + 2 ^ size - 1) / 4096 ≡ start / 4096)
AxiLegal size wrap start len =
    (size ≤ 2) × (start % 2 ^ size ≡ 0) × ((len ≡ 2) ⊎ (len ≡ 4) ⊎ (len ≡ 8) ⊎ (len ≡ 16))
AxiLegal size reserved start len = ⊥

-- What the slave judges a burst as.
abbrev pub judged_as : Burst → Burst
judged_as fixed = incr
judged_as burst = burst

-- What it takes: the burst that it is judged as is legal, and starts at a multiple of a beat.
abbrev pub Taken : ℕ → Burst → ℕ → ℕ → Type 0
Taken size burst start len = (start % 2 ^ size ≡ 0) × AxiLegal size (judged_as burst) start len

small_size : (size : ℕ) → leb (2 ^ size) 4 ≡ true → size ≤ 2
small_size size e = elim (dec_le size 2) [
  | yes small ↦ small
  | no large ↦
      let above : 3 ≤ size = omega arith in
      let top : 2 ^ 3 ≤ 2 ^ size = pow-le-pow_right (omega arith) above in
      absurd (ground (arith, top, e))
]

small_bytes : (size : ℕ) → size ≤ 2 → leb (2 ^ size) 4 ≡ true
small_bytes size h =
    let top : 2 ^ size ≤ 2 ^ 2 = pow-le-pow_right (omega arith) h in ground (arith, top)

beats_total : (len nb : ℕ) → 1 ≤ len → (len - 1) * nb + nb ≡ nb * len
beats_total zero nb some = absurd (omega arith)
beats_total (suc m) nb some = grind arith

beats_within : (n len nb : ℕ) → n < len → n * nb + nb ≤ nb * len
beats_within n len nb lt =
    let scaled : suc n * nb ≤ len * nb = mul-le-mul_right nb lt in grind arith

same_page :
    (nb start len : ℕ)
    → start % nb ≡ 0
    → start % 4096 + nb * len ≤ 4096
    → (n : ℕ) → n < len
    → 1 ≤ nb
    → (start - start % nb + n * nb + nb - 1) / 4096 ≡ start / 4096
same_page nb start len aligned inside n lt some =
    omega (arith, aligned, inside, some, beats_within n len nb lt)

page_end :
    (nb start len : ℕ)
    → start % nb ≡ 0
    → 1 ≤ len
    → 1 ≤ nb
    → nb * len ≤ 128 * 255
    → (start - start % nb + (len - 1) * nb + nb - 1) / 4096 ≡ start / 4096
    → start % 4096 + nb * len ≤ 4096
page_end nb start len aligned some wide small page =
    omega (arith, aligned, page, wide, small, beats_total len nb some)

is_legal-Taken :
    (size : ℕ) (burst : Burst) (start len : ℕ)
    → size ≤ 7
    → 1 ≤ len
    → len ≤ 255
    → is_legal (2 ^ size) burst start len ≡ true
    → Taken size burst start len
unfolding is_legal
is_legal-Taken size wrap start len hs lo hi legal =
    let small = small_size size (ground arith) in
    (ground arith, (small, ground arith, ground arith))
is_legal-Taken size reserved start len hs lo hi legal = absurd (ground arith)
is_legal-Taken size _ start len hs lo hi legal =
    let bounds = beats_bounds size len hs lo hi in
    (
      ground arith,
      (
        small_size size (ground arith),
        λ n lt.
            same_page (2 ^ size) start len (ground arith) (ground arith) n lt
              (one-le-pow size 2 (omega arith)),
      ),
    )

Taken-is_legal_linear :
    (size start len : ℕ)
    → size ≤ 7
    → 1 ≤ len
    → len ≤ 255
    → Taken size incr start len
    → is_legal (2 ^ size) incr start len ≡ true
unfolding is_legal
Taken-is_legal_linear size start len hs lo hi (aligned, (small, pages)) =
    let few = small_bytes size small in
    let bounds = beats_bounds size len hs lo hi in
    let inside =
      page_end (2 ^ size) start len aligned lo (one-le-pow size 2 (omega arith)) bounds.1
        (pages (len - 1) (omega arith)) in
    ground (arith, few, inside, aligned)

Taken-is_legal :
    (size : ℕ) (burst : Burst) (start len : ℕ)
    → size ≤ 7
    → 1 ≤ len
    → len ≤ 255
    → Taken size burst start len
    → is_legal (2 ^ size) burst start len ≡ true
unfolding is_legal
Taken-is_legal size fixed start len hs lo hi taken =
    Taken-is_legal_linear size start len hs lo hi taken
Taken-is_legal size incr start len hs lo hi taken =
    Taken-is_legal_linear size start len hs lo hi taken
Taken-is_legal size wrap start len hs lo hi (aligned, (small, _, lens)) =
    let few = small_bytes size small in ground arith
Taken-is_legal size reserved start len hs lo hi (aligned, illegal) = absurd illegal

-- Which requests `check_axi_req` takes. On a request of 1 to 255 beats of up to
-- 128 bytes, at a 32-bit address: if the start is a multiple of a beat and the burst is legal by the AXI
-- rules, a fixed burst being judged as if it counted up, `sim_status` stays as it is, and else it becomes
-- SIM_ABORT. So a fixed burst near the end of a page and an unaligned start are refused, though AXI
-- allows both, and a fixed burst can be as long as an incrementing one.
pub check_axi_req_lem :
    (size : ℕ) (burst : Burst) (start len : ℕ) (sim : SimStatus)
    → size ≤ 7
    → start < 2 ^ 32
    → 1 ≤ len
    → len ≤ 255
    → (Taken size burst start len × (check_axi_req (2 ^ size) burst start len sim ≡ sim))
      ⊎ ((¬ Taken size burst start len)
          × (check_axi_req (2 ^ size) burst start len sim ≡ sim_abort))
check_axi_req_lem size burst start len sim hs h lo hi =
    let value = check_axi_req_value size burst start len sim hs h lo hi in
    elim (Bool-cases (is_legal (2 ^ size) burst start len)) [
      | inl legal ↦ inl (is_legal-Taken size burst start len hs lo hi legal, value ∙ rw legal refl)
      | inr refused ↦ inr (
        λ taken.
            let legal = Taken-is_legal size burst start len hs lo hi taken in
            absurd (ground (arith, legal, refused)),
        value ∙ rw refused refl,
      )
    ]

-- A request of 256 beats, of up to four bytes each, is not checked: its length does not fit the
-- byte that carries it and becomes 0, and then neither the alignment nor the page of an
-- incrementing burst matters any more, unless the burst starts in the first four bytes of a page.
pub check_axi_req_256 :
    (size start : ℕ) (sim : SimStatus)
    → size ≤ 2
    → start < 2 ^ 32
    → 4 ≤ start % 4096
    → check_axi_req (2 ^ size) incr start (u8 (255 + 1)) sim ≡ sim
unfolding check_axi_req check_linear
check_axi_req_256 size start sim hs h inner =
    let top : 2 ^ size ≤ 2 ^ 2 = pow-le-pow_right (omega arith) hs in
    let one : 1 ≤ 2 ^ size = one-le-pow size 2 (omega arith) in
    rw (bit_and-not32 size start (omega arith) h) (ground arith)

-- No check takes SIM_ABORT back.
pub check_axi_req-sim_abort :
    (num_bytes : ℕ) (burst : Burst) (start len : ℕ)
    → check_axi_req num_bytes burst start len sim_abort ≡ sim_abort
unfolding check_axi_req check_wrap check_linear
check_axi_req-sim_abort num_bytes fixed start len = ground arith
check_axi_req-sim_abort num_bytes incr start len = ground arith
check_axi_req-sim_abort num_bytes wrap start len = ground arith
check_axi_req-sim_abort num_bytes reserved start len = ground arith
