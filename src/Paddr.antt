-- ===== src/Paddr.antt =====
-- include/PaddrInterface.hpp and csrc/device/PaddrTop.cpp: address ranges, the interface of a
-- device, and the top that routes an access to one of its devices.
pub mod Range
pub mod Overlap
pub mod Routing
mod Tests
use my_diff.Base.{
  ℕ, ◌+◌, ◌-◌, ◌^◌, ◌≡◌, Bool, true, false, ◌&&◌, List, [], ◌∷◌, ◌++◌, ltb, leb, ◌==◌,
  if◌then◌else◌, min, max, bit_and, u32, Outcome, done, require, ◌>>=◌, ◌>>◌,
}
use my_diff.Base.Nemu.{Nemu}

-- `wen_t`: an access's size in bytes and its byte strobes, both fields of 4 bits.
pub record Wen : Type 0 where
  pub size : ℕ
  pub wstrb : ℕ

-- `AddrIntv`; `word_t` is a 32-bit word.
pub record AddrIntv : Type 0 where
  pub start : ℕ
  pub mask : ℕ

-- `AddrIntv(word_t _start, word_t _len)`.
pub of_len : ℕ → ℕ → Outcome AddrIntv
of_len start len = do
  let mask = u32 (len + 2 ^ 32 - 1)
  require (bit_and start mask == 0)
  done (record { start = start; mask = mask })

-- `AddrIntv(word_t _start, uint8_t mask_bits)`.
pub of_bits : Nemu → ℕ → ℕ → Outcome AddrIntv
of_bits n start mask_bits = do
  let mask = u32 (n.bitmask mask_bits)
  require (bit_and start mask == 0)
  done (record { start = start; mask = mask })

-- The last address of the range.
unfoldable pub end : AddrIntv → ℕ
end r = u32 (r.start + r.mask)

-- `PaddrInterface`: `D` is what a `PaddrInterface*` denotes, `S` the memory that the devices live
-- in. A read is handed what `*data` holds and returns what it holds afterwards.
pub record PaddrInterface (D S : Type 0) : Type 0 where
  pub do_read : D → ℕ → Wen → ℕ → S → Outcome (Bool × ℕ × S)
  pub do_write : D → ℕ → Wen → ℕ → S → Outcome (Bool × S)
  pub deep_copy : D → S → Outcome (D × S)

-- `PaddrTop::devices`.
abbrev pub PaddrTop : Type 0 → Type 0
PaddrTop D = List (AddrIntv × D)

-- The test of the loop in `add_dev`.
pub overlaps : AddrIntv → AddrIntv → Bool
unfolding end
overlaps old_range new_range =
    ltb (max old_range.start new_range.start) (min (end old_range) (end new_range))

-- The test of the loops in `do_read` and `do_write`.
unfoldable pub covers : AddrIntv → ℕ → Wen → Bool
unfolding end
covers dev_range addr info =
    leb dev_range.start addr && leb (u32 (addr + info.size)) (end dev_range)

module _ {D : Type 0} where
  any_overlap : PaddrTop D → AddrIntv → Bool
  any_overlap [] new_range = false
  any_overlap ((old_range, dev) ∷ devices) new_range =
      if overlaps old_range new_range then true else any_overlap devices new_range

  unfoldable pub add_dev : PaddrTop D → AddrIntv → D → Bool × PaddrTop D
  unfolding any_overlap overlaps
  add_dev devices new_range dev =
      if any_overlap devices new_range
      then (false, devices)
      else (true, devices ++ ((new_range, dev) ∷ []))

module _ {D S : Type 0} (face : PaddrInterface D S) where
  unfoldable pub do_read : PaddrTop D → ℕ → Wen → ℕ → S → Outcome (Bool × ℕ × S)
  do_read [] addr info word s = done (false, word, s)
  do_read ((dev_range, dev) ∷ devices) addr info word s =
      if covers dev_range addr info
      then face.do_read dev (bit_and addr dev_range.mask) info word s
      else do_read devices addr info word s

  unfoldable pub do_write : PaddrTop D → ℕ → Wen → ℕ → S → Outcome (Bool × S)
  do_write [] addr info word s = done (false, s)
  do_write ((dev_range, dev) ∷ devices) addr info word s =
      if covers dev_range addr info
      then face.do_write dev (bit_and addr dev_range.mask) info word s
      else do_write devices addr info word s

  -- `PaddrTop(PaddrTop &src)` and `deep_copy`.
  unfoldable pub deep_copy : PaddrTop D → S → Outcome (PaddrTop D × S)
  deep_copy [] s = done ([], s)
  deep_copy ((range, dev) ∷ devices) s = do
    (new_dev, s') ← face.deep_copy dev s
    (rest, s'') ← deep_copy devices s'
    done ((range, new_dev) ∷ rest, s'')

  -- A `PaddrTop` is itself a device.
  pub top_interface : PaddrInterface (PaddrTop D) S
  top_interface = record { do_read = do_read; do_write = do_write; deep_copy = deep_copy }
