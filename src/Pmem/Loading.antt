-- ===== src/Pmem/Loading.antt =====
-- `Pmem::load_binary`: where a file's bytes go, and when the copy runs past the memory.
use my_diff.Base.{
  ℕ, zero, suc, ◌+◌, ◌-◌, ◌%◌, ◌^◌, ◌≤◌, ◌<◌, ◌≡◌, refl, ap, ◌∙◌, ◌&&◌, List, [], ◌∷◌, arith,
  length, take, ltb, leb, min, if◌then◌else◌, done, fault, some, length-take, get_or-take, u64,
  ◌||◌,
}
use native.Mathlib.Decide.{dec_lt}
use my_diff.Pmem.{store_byte, read_file, load_binary}
use my_diff.Pmem.Bytes.{byte_at, Stored, store_byte-Stored}

pub read_file-Stored :
    (file mem : List ℕ) (offset : ℕ)
    → offset + length file ≤ length mem
    → Stored mem (read_file mem offset file) (λ j.
      if leb offset j && ltb j (offset + length file)
      then byte_at file (j - offset) % 256
      else byte_at mem j)
unfolding read_file
read_file-Stored [] mem offset h = record {
  out = mem;
  returns = refl;
  same_length = refl;
  bytes = λ j. ground arith;
}
read_file-Stored (b ∷ file) mem offset h =
    let first = store_byte-Stored mem offset b (omega arith) in
    let rest = read_file-Stored file first.out (offset + 1) (omega (arith, first.same_length)) in
    record {
      out = rest.out;
      returns = rw (first.returns) (rest.returns);
      same_length = omega (arith, rest.same_length, first.same_length);
      bytes = λ j. ground (
        arith,
        rest.bytes j,
        first.bytes j,
        at_head (j - offset),
        at_tail (j - offset) (j - (offset + 1)),
      );
    }
  where
    at_head : (i : ℕ) → i ≡ 0 → byte_at (b ∷ file) i ≡ b
    at_head zero e = refl
    at_head (suc i) e = absurd (omega arith)

    at_tail : (i k : ℕ) → i ≡ k + 1 → byte_at (b ∷ file) i ≡ byte_at file k
    at_tail zero k e = absurd (omega arith)
    at_tail (suc i) k e = ap (byte_at file) {x = i} {y = k} (omega arith)

store_byte_outside : (mem : List ℕ) (addr v : ℕ) → length mem ≤ addr → store_byte mem addr v ≡ fault
unfolding store_byte
store_byte_outside mem addr v h = ground arith

read_file_overrun :
    (file mem : List ℕ) (offset : ℕ)
    → 0 < length file
    → length mem < offset + length file
    → read_file mem offset file ≡ fault
unfolding read_file
read_file_overrun [] mem offset some_bytes h = absurd (omega arith)
read_file_overrun (b ∷ file) mem offset some_bytes h = elim (dec_lt offset (length mem)) [
  | yes p ↦
      let first = store_byte-Stored mem offset b p in
      rw (first.returns) (
        read_file_overrun file first.out (offset + 1) (omega arith)
          (omega (arith, first.same_length)))
  | no p ↦ rw (store_byte_outside mem offset b (omega arith))
]

-- How many bytes `load_binary` asks for.
abbrev amount : ℕ → ℕ → ℕ → ℕ
amount mem_size offset size =
    if leb mem_size offset || ltb mem_size (u64 (size + offset)) then mem_size else size

load_binary_lem :
    (mem file : List ℕ) (offset : ℕ)
    → load_binary mem (length mem) offset (some file)
      ≡ read_file mem offset (take (amount (length mem) offset (length file)) file)
unfolding load_binary
load_binary_lem mem file offset = refl

-- `load_binary` at offset 0 is safe whatever the size of the file, which is below 2 ^ 64: it
-- copies the file's first bytes, as many as the memory has, and leaves the rest of the memory as
-- it was.
pub load_binary_start :
    (mem file : List ℕ)
    → length file < 2 ^ 64
    → (out : List ℕ) × (load_binary mem (length mem) 0 (some file) ≡ done out)
      × (length out ≡ length mem)
      × ((j : ℕ)
          → byte_at out j ≡ (
              if ltb j (min (length mem) (length file))
              then byte_at file j % 256
              else byte_at mem j))
load_binary_start mem file small =
    let n = amount (length mem) 0 (length file) in
    let size : length (take n file) ≡ min (length mem) (length file) =
      ground (arith, length-take n file) in
    let copy = read_file-Stored (take n file) mem 0 (omega (arith, size)) in
    (
      copy.out,
      load_binary_lem mem file 0 ∙ copy.returns,
      copy.same_length,
      λ j. copy.bytes j ∙ ground (arith, size, get_or-take n file j 0),
    )

-- Above offset 0 a file that does not fit is copied past the end of the memory, where neither is
-- empty and the sum of the offset and the file's size does not overflow 64 bits: the bound that
-- `load_binary` falls back to is the size of the whole memory.
pub load_binary_overrun :
    (mem file : List ℕ) (offset : ℕ)
    → 0 < offset
    → 0 < length file
    → 0 < length mem
    → length mem < offset + length file
    → offset + length file < 2 ^ 64
    → load_binary mem (length mem) offset (some file) ≡ fault
load_binary_overrun mem file offset above some_bytes room big small =
    let n = amount (length mem) offset (length file) in
    load_binary_lem mem file offset
    ∙ read_file_overrun (take n file) mem offset (ground (arith, length-take n file))
        (ground (arith, length-take n file))
