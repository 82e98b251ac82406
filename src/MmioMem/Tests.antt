-- ===== src/MmioMem/Tests.antt =====
-- Concrete runs of `mmio_mem`, and of its theorems.
use my_diff.Base.{
  ℕ, zero, suc, ◌≡◌, ◌↔◌, refl, Bool, true, false, List, [], ◌∷◌, some, arith, done, aborted, fault,
}
use my_diff.Pmem.{read_file, store_byte}
use my_diff.Pmem.Bytes.{byte_at}
use my_diff.MmioMem.{
  MmioMem, copy_out, do_read, do_write, compare, place, alloc, of_binary, of_file, load_binary,
  set_allow_warp, set_diff_mem, read_at, write_at,
}
use my_diff.MmioMem.Compare.{Agree}
use my_diff.MmioMem.Access.{IsMem, AreBytes, overwritten, mmio_write_read, mmio_watch}

abbrev memory : MmioMem
memory = record { mem = 1 ∷ 2 ∷ 3 ∷ 4 ∷ []; mem_size = 4; diff_mem_write = true; allow_warp = true }

-- The same without wrapping.
abbrev strict : MmioMem
strict = record {
  mem = 1 ∷ 2 ∷ 3 ∷ 4 ∷ [];
  mem_size = 4;
  diff_mem_write = false;
  allow_warp = false;
}

abbrev buffer : List ℕ
buffer = 8 ∷ 9 ∷ []

abbrev other : List ℕ
other = 1 ∷ 8 ∷ 9 ∷ 4 ∷ []

memory-IsMem : IsMem memory
memory-IsMem = record { size = refl; room = omega arith; small = omega arith }

strict-IsMem : IsMem strict
strict-IsMem = record { size = refl; room = omega arith; small = omega arith }

buffer-AreBytes : AreBytes buffer
buffer-AreBytes zero = omega arith
buffer-AreBytes (suc zero) = omega arith
buffer-AreBytes (suc (suc i)) = omega arith

read_wrapped : do_read memory 5 2 ≡ done (true, 2 ∷ 3 ∷ [])
unfolding do_read read_at place copy_out
read_wrapped = refl

read_across : do_read memory 3 2 ≡ done (false, [])
unfolding do_read read_at place
read_across = refl

-- A size that overflows the sum of 64 bits passes the test.
read_overflow : do_read strict 3 0xffffffffffffffff ≡ fault
unfolding do_read read_at place copy_out
read_overflow = refl

write_stops :
    do_write memory other 0 buffer true
    ≡ done (true, record memory { mem = 8 ∷ 9 ∷ 3 ∷ 4 ∷ [] }, false)
unfolding do_write write_at place compare read_file store_byte
write_stops = refl

from_binary :
    of_binary (0 ∷ 0 ∷ []) (5 ∷ []) ≡ done (record (alloc (0 ∷ 0 ∷ [])) { mem = 5 ∷ 0 ∷ [] })
unfolding of_binary read_file store_byte alloc
from_binary = refl

from_big_binary : of_binary (0 ∷ []) (5 ∷ 6 ∷ []) ≡ aborted
unfolding of_binary
from_big_binary = refl

from_big_file :
    of_file (0 ∷ []) (some (5 ∷ 6 ∷ [])) ≡ done (record (alloc (0 ∷ [])) { mem = 5 ∷ [] })
unfolding of_file read_file store_byte alloc
from_big_file = refl

load_past_end : load_binary strict 3 (some buffer) ≡ fault
unfolding load_binary read_file store_byte
load_past_end = refl

forbid_wrapping : (set_allow_warp strict false).allow_warp ≡ true
unfolding set_allow_warp
forbid_wrapping = refl

watch_on : (set_diff_mem strict).diff_mem_write ≡ true
unfolding set_diff_mem
watch_on = refl

mmio_write_read_example :
    (m' : MmioMem) × (running' : Bool) × (do_write memory other 5 buffer true
      ≡ done (true, m', running'))
    × ((j : ℕ) → byte_at m'.mem j ≡ overwritten memory.mem 1 buffer j)
    × (do_read m' 5 2 ≡ done (true, buffer))
mmio_write_read_example =
    mmio_write_read memory other 5 1 buffer true memory-IsMem (omega arith) buffer-AreBytes
      (omega arith) refl

mmio_watch_example :
    (m' : MmioMem) × (running' : Bool) × (do_write memory other 5 buffer true
      ≡ done (true, m', running'))
    × ((running' ≡ true) ↔ ((true ≡ true) × Agree m'.mem other 1 2))
mmio_watch_example =
    mmio_watch memory other 5 1 buffer true memory-IsMem (omega arith) buffer-AreBytes (omega arith)
      refl refl
