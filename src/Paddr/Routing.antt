-- ===== src/Paddr/Routing.antt =====
-- Where `PaddrTop::do_read` and `do_write` send an access.
use my_diff.Base.{
  ℕ, ◌+◌, ◌-◌, ◌^◌, ◌≤◌, ◌<◌, ◌≡◌, refl, true, false, [], ◌∷◌, ◌++◌, arith, Bool-cases, inl, inr,
  done,
}
use my_diff.Paddr.{AddrIntv, Wen, end, PaddrTop, PaddrInterface, covers, do_read, do_write}
use my_diff.Paddr.Range.{IsRange, end_lem, bit_and-mask}
use my_diff.Paddr.Overlap.{Apart, IsTable}

-- The bytes of the access end before the last byte of the range.
abbrev pub Inside : AddrIntv → ℕ → Wen → Type 0
Inside r addr info = (r.start ≤ addr) × (addr + info.size ≤ end r)

Inside-covers :
    (r : AddrIntv) (addr : ℕ) (info : Wen)
    → IsRange r
    → Inside r addr info
    → covers r addr info ≡ true
unfolding covers
Inside-covers r addr info hr inside = ground (arith, end_lem hr, hr.fits)

covers-Inside :
    (r : AddrIntv) (addr : ℕ) (info : Wen)
    → addr + info.size < 2 ^ 32
    → covers r addr info ≡ true
    → Inside r addr info
unfolding covers
covers-Inside r addr info small e = ground arith

-- An entry in front of the one that holds the address does not take the access.
passed_over :
    {D : Type 0} (before after : PaddrTop D) (q r : AddrIntv) (dev : D) (addr : ℕ) (info : Wen)
    → Apart q (before ++ ((r, dev) ∷ after))
    → r.start ≤ addr
    → addr ≤ end r
    → ¬ Inside q addr info
passed_over [] after q r dev addr info (off, _) lo hi = λ i. off (addr, i.0, omega arith, lo, hi)
passed_over (_ ∷ before) after q r dev addr info (_, apart) lo hi =
    passed_over before after q r dev addr info apart lo hi

end-lt : (r : AddrIntv) → end r < 2 ^ 32
unfolding end
end-lt r = omega arith

-- The access ends before the last byte of no range of the table.
abbrev pub NoneInside : {D : Type 0} → PaddrTop D → ℕ → Wen → Type 0
NoneInside [] addr info = Unit {0}
NoneInside ((r, d) ∷ devices) addr info = (¬ Inside r addr info) × NoneInside devices addr info

not_covers :
    (r : AddrIntv) (addr : ℕ) (info : Wen)
    → addr + info.size < 2 ^ 32
    → ¬ Inside r addr info
    → covers r addr info ≡ false
unfolding covers
not_covers r addr info small off = elim (Bool-cases (covers r addr info)) [
  | inl e ↦ absurd (off (covers-Inside r addr info small e))
  | inr e ↦ e
]

none_after :
    {D : Type 0} (after : PaddrTop D) (r : AddrIntv) (addr : ℕ) (info : Wen)
    → Apart r after
    → r.start ≤ addr
    → addr ≤ end r
    → NoneInside after addr info
none_after [] r addr info apart lo hi = tt
none_after ((q, d) ∷ after) r addr info (off, apart) lo hi =
    (λ i. off (addr, lo, hi, i.0, omega arith), none_after after r addr info apart lo hi)

none_around :
    {D : Type 0} (before after : PaddrTop D) (r : AddrIntv) (dev : D) (addr : ℕ) (info : Wen)
    → IsTable (before ++ ((r, dev) ∷ after))
    → r.start ≤ addr
    → addr ≤ end r
    → end r < addr + info.size
    → NoneInside (before ++ ((r, dev) ∷ after)) addr info
none_around [] after r dev addr info (_, _, apart, _) lo hi over =
    (λ i. absurd (omega arith), none_after after r addr info apart lo hi)
none_around ((q, d) ∷ before) after r dev addr info (_, _, off, t) lo hi over = (
  passed_over before after q r dev addr info off lo hi,
  none_around before after r dev addr info t lo hi over,
)

module _ {D S : Type 0} (face : PaddrInterface D S) where
  do_read_routes :
      (before after : PaddrTop D) (r : AddrIntv) (dev : D) (addr : ℕ) (info : Wen) (word : ℕ)
      (s : S)
      → IsTable (before ++ ((r, dev) ∷ after))
      → Inside r addr info
      → do_read face (before ++ ((r, dev) ∷ after)) addr info word s
        ≡ face.do_read dev (addr - r.start) info word s
  unfolding do_read
  do_read_routes [] after r dev addr info word s (hr, _, _, _) inside = rw (
    Inside-covers r addr info hr inside,
    bit_and-mask addr hr inside.0 (omega (arith, end_lem hr)),
  )
  do_read_routes ((q, d) ∷ before) after r dev addr info word s (_, _, off, t) inside =
      rw
        (not_covers q addr info (omega (arith, end-lt r))
          (passed_over before after q r dev addr info off inside.0 (omega arith)))
        (do_read_routes before after r dev addr info word s t inside)

  do_write_routes :
      (before after : PaddrTop D) (r : AddrIntv) (dev : D) (addr : ℕ) (info : Wen) (word : ℕ)
      (s : S)
      → IsTable (before ++ ((r, dev) ∷ after))
      → Inside r addr info
      → do_write face (before ++ ((r, dev) ∷ after)) addr info word s
        ≡ face.do_write dev (addr - r.start) info word s
  unfolding do_write
  do_write_routes [] after r dev addr info word s (hr, _, _, _) inside = rw (
    Inside-covers r addr info hr inside,
    bit_and-mask addr hr inside.0 (omega (arith, end_lem hr)),
  )
  do_write_routes ((q, d) ∷ before) after r dev addr info word s (_, _, off, t) inside =
      rw
        (not_covers q addr info (omega (arith, end-lt r))
          (passed_over before after q r dev addr info off inside.0 (omega arith)))
        (do_write_routes before after r dev addr info word s t inside)

  -- In a well-formed table an access that ends before the last byte of a device's range goes to
  -- that device, whichever place it has in the table, at the offset from the start of the range;
  -- what the device answers is what `do_read` and `do_write` return.
  pub access_routes :
      (before after : PaddrTop D) (r : AddrIntv) (dev : D) (addr : ℕ) (info : Wen) (word : ℕ)
      (s : S)
      → IsTable (before ++ ((r, dev) ∷ after))
      → Inside r addr info
      → (do_read face (before ++ ((r, dev) ∷ after)) addr info word s
          ≡ face.do_read dev (addr - r.start) info word s)
        × (do_write face (before ++ ((r, dev) ∷ after)) addr info word s
            ≡ face.do_write dev (addr - r.start) info word s)
  access_routes before after r dev addr info word s t inside = (
    do_read_routes before after r dev addr info word s t inside,
    do_write_routes before after r dev addr info word s t inside,
  )

  -- An access that does not reach the top of the address space, and that lies in no device's
  -- range, short of its last byte, is refused by `do_read` and `do_write`: they return false and
  -- change neither the word nor any device.
  pub access_unmapped :
      (devices : PaddrTop D) (addr : ℕ) (info : Wen) (word : ℕ) (s : S)
      → addr + info.size < 2 ^ 32
      → NoneInside devices addr info
      → (do_read face devices addr info word s ≡ done (false, word, s))
        × (do_write face devices addr info word s ≡ done (false, s))
  unfolding do_read do_write
  access_unmapped [] addr info word s small none = (refl, refl)
  access_unmapped ((r, d) ∷ devices) addr info word s small (off, none) =
      rw (not_covers r addr info small off) (access_unmapped devices addr info word s small none)

  -- The bound of the routing test is off by one: in a well-formed table, an access of at least one
  -- byte that starts inside a device's range and whose last byte is the range's last byte reaches
  -- no device, though it lies wholly inside the range. The range ends below the top of the address
  -- space.
  pub access_last_byte :
      (before after : PaddrTop D) (r : AddrIntv) (dev : D) (addr : ℕ) (info : Wen) (word : ℕ)
      (s : S)
      → IsTable (before ++ ((r, dev) ∷ after))
      → r.start ≤ addr
      → 0 < info.size
      → addr + info.size ≡ end r + 1
      → end r + 1 < 2 ^ 32
      → (do_read face (before ++ ((r, dev) ∷ after)) addr info word s ≡ done (false, word, s))
        × (do_write face (before ++ ((r, dev) ∷ after)) addr info word s ≡ done (false, s))
  access_last_byte before after r dev addr info word s t lo some_bytes last small =
      access_unmapped (before ++ ((r, dev) ∷ after)) addr info word s (omega arith)
        (none_around before after r dev addr info t lo (omega arith) (omega arith))
