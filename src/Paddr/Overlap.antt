-- ===== src/Paddr/Overlap.antt =====
-- `PaddrTop::add_dev`: which ranges it accepts.
use my_diff.Base.{
  ℕ, ◌+◌, ◌≤◌, ◌<◌, ◌*◌, ◌-◌, ◌/◌, ◌%◌, ◌^◌, ap, sym, ◌∙◌, ◌≡◌, refl, true, false, [], ◌∷◌, ◌++◌,
  arith, max, Bool-cases, ◌⊎◌, inl, inr,
}
use my_diff.Paddr.{AddrIntv, end, PaddrTop, overlaps, any_overlap, add_dev}
use my_diff.Paddr.Range.{IsRange, end_lem, room}
use my_diff.Base.Bits.{pow-add}
use native.Mathlib.Nat.{one-le-pow, mul_assoc, add-mod_right}
use native.Mathlib.Decide.{dec_lt, dec_le}

-- Two ranges share an address.
abbrev pub Meets : AddrIntv → AddrIntv → Type 0
Meets r s = (a : ℕ) × (r.start ≤ a) × (a ≤ end r) × (s.start ≤ a) × (a ≤ end s)

Meets-symm : (r s : AddrIntv) → Meets r s → Meets s r
Meets-symm r s (a, p, q, t, u) = (a, t, u, p, q)

-- Ranges of two bytes and more.
abbrev pub IsWide : AddrIntv → Type 0
IsWide r = 0 < r.mask

-- No range of the table shares an address with `r`.
abbrev pub Apart : {D : Type 0} → AddrIntv → PaddrTop D → Type 0
Apart r [] = Unit {0}
Apart r ((s, d) ∷ devices) = (¬ Meets r s) × Apart r devices

-- The table of a `PaddrTop`: well-formed ranges, no two of which share an address.
abbrev pub IsTable : {D : Type 0} → PaddrTop D → Type 0
IsTable [] = Unit {0}
IsTable ((r, d) ∷ devices) = IsRange r × IsWide r × Apart r devices × IsTable devices

overlaps-Meets : (r s : AddrIntv) → IsRange r → IsRange s → overlaps r s ≡ true → Meets r s
unfolding overlaps
overlaps-Meets r s hr hs h =
    (max r.start s.start, ground arith, ground arith, ground arith, ground arith)

-- A multiple of `2 ^ k` is a multiple of each smaller power of two.
coarser : (j k x : ℕ) → j ≤ k → x % 2 ^ k ≡ 0 → (m : ℕ) × (x ≡ m * 2 ^ j)
coarser j k x le e = (x / 2 ^ k * 2 ^ (k - j), grind (arith, steps, e))
  where
    steps : x / 2 ^ k * 2 ^ k ≡ x / 2 ^ k * 2 ^ (k - j) * 2 ^ j
    steps =
        ap (λ t. x / 2 ^ k * t)
          (ap (λ t. 2 ^ t) (let e : k ≡ k - j + j = omega arith in e) ∙ pow-add (k - j) j)
        ∙ sym (mul_assoc (x / 2 ^ k) (2 ^ (k - j)) (2 ^ j))

-- Blocks of `t` addresses at multiples of `t` do not straddle one another.
nest_blocks :
    (t q m n a : ℕ)
    → 0 < t
    → q * t ≤ a
    → a < q * t + t
    → m * t ≤ a
    → a < n * t
    → (m * t ≤ q * t) × (q * t + t ≤ n * t)
nest_blocks t q m n a pos lo hi lo' hi' = (
  elim (dec_lt (q * t) (m * t)) [
    | yes p ↦ absurd (omega (arith, room q m t pos p))
    | no p ↦ omega arith
  ],
  room q n t pos (omega arith),
)

-- Of two ranges that meet, the narrower lies inside the other.
nest :
    {r s : AddrIntv} (hr : IsRange r) (hs : IsRange s)
    → hr.width ≤ hs.width
    → Meets r s
    → (s.start ≤ r.start) × (end r ≤ end s)
nest {r} {s} hr hs le (a, p, q, t, u) =
    let (i, ei) = coarser hr.width hr.width r.start (omega arith) hr.aligned in
    let (j, ej) = coarser hr.width hs.width s.start le hs.aligned in
    let (k, ek) =
      coarser hr.width hs.width (s.start + 2 ^ hs.width) le
        (add-mod_right s.start (2 ^ hs.width) ∙ hs.aligned) in
    let pos_r : 1 ≤ 2 ^ hr.width = one-le-pow hr.width 2 (omega arith) in
    let pos_s : 1 ≤ 2 ^ hs.width = one-le-pow hs.width 2 (omega arith) in
    let end_r = end_lem hr in
    let end_s = end_lem hs in
    let inside =
      nest_blocks (2 ^ hr.width) i j k a pos_r (omega arith) (omega arith) (omega arith)
        (omega arith) in
    omega arith

Meets-overlaps :
    (r s : AddrIntv) → IsRange r → IsRange s → IsWide r → IsWide s → Meets r s → overlaps r s ≡ true
unfolding overlaps
Meets-overlaps r s hr hs wr ws m = elim (dec_le hr.width hs.width) [
  | yes le ↦ ground (arith, nest hr hs le m, end_lem hr, end_lem hs)
  | no gt ↦ ground (arith, nest hs hr (omega arith) (Meets-symm r s m), end_lem hr, end_lem hs)
]

module _ {D : Type 0} where
  any_overlap-Apart :
      (devices : PaddrTop D) (r : AddrIntv)
      → IsTable devices
      → IsRange r
      → IsWide r
      → any_overlap devices r ≡ false
      → Apart r devices
  unfolding any_overlap
  any_overlap-Apart [] r t hr wr e = tt
  any_overlap-Apart ((s, d) ∷ devices) r (hs, ws, _, rest) hr wr e = (
    λ m. ground (arith, Meets-overlaps s r hs hr ws wr (Meets-symm r s m)),
    any_overlap-Apart devices r rest hr wr (ground arith),
  )

  any_overlap-not_Apart :
      (devices : PaddrTop D) (r : AddrIntv)
      → IsTable devices
      → IsRange r
      → any_overlap devices r ≡ true
      → ¬ Apart r devices
  unfolding any_overlap
  any_overlap-not_Apart [] r t hr e apart = cc
  any_overlap-not_Apart ((s, d) ∷ devices) r (hs, _, _, rest) hr e (off, apart) =
      elim (Bool-cases (overlaps s r)) [
        | inl hit ↦ off (Meets-symm s r (overlaps-Meets s r hs hr hit))
        | inr miss ↦ any_overlap-not_Apart devices r rest hr (ground arith) apart
      ]

  -- On a table of ranges of `2 ^ k` bytes, two or more, each starting at a multiple of its size and none
  -- sharing an address with another, and for a new range of that kind, `add_dev` appends the device and
  -- returns true if no device's range shares an address with the new one; otherwise it returns false
  -- and leaves the table as it was.
  pub add_dev_lem :
      (devices : PaddrTop D) (r : AddrIntv) (dev : D)
      → IsTable devices
      → IsRange r
      → IsWide r
      → (Apart r devices × (add_dev devices r dev ≡ (true, devices ++ ((r, dev) ∷ []))))
        ⊎ ((¬ Apart r devices) × (add_dev devices r dev ≡ (false, devices)))
  unfolding add_dev
  add_dev_lem devices r dev t hr wr = elim (Bool-cases (any_overlap devices r)) [
    | inl hit ↦ inr (any_overlap-not_Apart devices r t hr hit, rw hit)
    | inr miss ↦ inl (any_overlap-Apart devices r t hr wr miss, rw miss)
  ]

  Apart-append :
      (devices : PaddrTop D) (r s : AddrIntv) (d : D)
      → Apart r devices
      → ¬ Meets r s
      → Apart r (devices ++ ((s, d) ∷ []))
  Apart-append [] r s d apart off = (off, tt)
  Apart-append (_ ∷ devices) r s d (here, apart) off = (here, Apart-append devices r s d apart off)

  IsTable-append :
      (devices : PaddrTop D) (r : AddrIntv) (d : D)
      → IsTable devices
      → IsRange r
      → IsWide r
      → Apart r devices
      → IsTable (devices ++ ((r, d) ∷ []))
  IsTable-append [] r d t hr wr apart = (hr, wr, tt, tt)
  IsTable-append ((s, e) ∷ devices) r d (hs, ws, off, rest) hr wr (here, apart) = (
    hs,
    ws,
    Apart-append devices s r d off (λ m. here (Meets-symm s r m)),
    IsTable-append devices r d rest hr wr apart,
  )

  -- Given a range of `2 ^ k` bytes, two or more, that starts at a multiple of its size, `add_dev` keeps a
  -- table of such ranges, none of which shares an address with another, one of that kind, whether it
  -- accepts the range or refuses it.
  pub add_dev-IsTable :
      (devices : PaddrTop D) (r : AddrIntv) (dev : D)
      → IsTable devices
      → IsRange r
      → IsWide r
      → IsTable (add_dev devices r dev).1
  add_dev-IsTable devices r dev t hr wr = elim (add_dev_lem devices r dev t hr wr) [
    | inl (apart, e) ↦ rw e (IsTable-append devices r dev t hr wr apart)
    | inr (_, e) ↦ rw e t
  ]

  none_overlap :
      (devices : PaddrTop D) (r : AddrIntv) → r.start ≡ end r → any_overlap devices r ≡ false
  unfolding any_overlap overlaps
  none_overlap [] r e = refl
  none_overlap ((s, d) ∷ devices) r e = ground (arith, none_overlap devices r e)

  -- The test `l_max < r_min` compares inclusive ends, so a well-formed range of one byte is never
  -- found to overlap: `add_dev` accepts it wherever it lies, also inside the range of a device.
  pub add_dev_one_byte :
      (devices : PaddrTop D) (r : AddrIntv) (dev : D)
      → IsRange r
      → r.mask ≡ 0
      → add_dev devices r dev ≡ (true, devices ++ ((r, dev) ∷ []))
  unfolding add_dev
  add_dev_one_byte devices r dev hr one =
      rw (none_overlap devices r (omega (arith, end_lem hr, hr.fits)))
