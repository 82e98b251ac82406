-- ===== src/MmioMem.antt =====
-- include/device/mmio_mem.hpp: a memory on an address of 64 bits, that can wrap its addresses and can
-- compare what is written with another memory.
pub mod Compare
pub mod Access
mod Tests
use my_diff.Base.{
  ℕ, zero, suc, ◌+◌, ◌-◌, ◌%◌, Bool, true, false, not, ◌&&◌, ◌||◌, List, [], ◌∷◌, ltb, leb, ◌==◌,
  if◌then◌else◌, get_elem?, length, take, Option, none, some, Outcome, done, fault, require,
  in_bounds, ◌>>=◌, ◌>>◌, u64,
}
use my_diff.Pmem.{read_file}

-- `mmio_mem`. `diff_mem` points into another memory, whose bytes at the time of a write are handed to
-- `do_write`.
pub record MmioMem : Type 0 where
  pub mem : List ℕ
  pub mem_size : ℕ
  pub diff_mem_write : Bool
  pub allow_warp : Bool

-- `memcpy(buffer, &mem[start], n)`.
unfoldable pub copy_out : List ℕ → ℕ → ℕ → Outcome (List ℕ)
copy_out mem start zero = done []
copy_out mem start (suc n) = do
  byte ← in_bounds (get_elem? mem start)
  rest ← copy_out mem (start + 1) n
  done (byte ∷ rest)

-- The two places that both operations try: the address, and its remainder by the size of the memory,
-- which has to be there. `none` is the refusal.
pub place : MmioMem → ℕ → ℕ → Outcome (Option ℕ)
place m start size =
    if leb (u64 (start + size)) m.mem_size
    then done (some start)
    else if m.allow_warp
    then if m.mem_size == 0
      then fault
      else if leb (u64 (start % m.mem_size + size)) m.mem_size
      then done (some (start % m.mem_size))
      else done none
    else done none

read_at : MmioMem → Option ℕ → ℕ → Outcome (Bool × List ℕ)
read_at m none size = done (false, [])
read_at m (some start) size = do buffer ← copy_out m.mem start size; done (true, buffer)

-- `do_read`: the bytes that it puts into the buffer, none if it returns false.
pub do_read : MmioMem → ℕ → ℕ → Outcome (Bool × List ℕ)
unfolding place read_at
do_read m start size = do at ← place m start size; read_at m at size

-- The loop that compares the written bytes; `running` is the simulation's flag.
pub compare : List ℕ → List ℕ → ℕ → ℕ → Bool → Outcome Bool
compare mem diff_mem start zero running = done running
compare mem diff_mem start (suc left) running = do
  byte ← in_bounds (get_elem? mem start)
  expected ← in_bounds (get_elem? diff_mem start)
  compare mem diff_mem (start + 1) left (if byte == expected then running else false)

write_at : MmioMem → List ℕ → Option ℕ → List ℕ → Bool → Outcome (Bool × MmioMem × Bool)
write_at m diff_mem none buffer running = done (false, m, running)
write_at m diff_mem (some start) buffer running = do
  mem ← read_file m.mem start buffer
  running' ←
      if m.diff_mem_write then compare mem diff_mem start (length buffer) running else done running
  done (true, record m { mem = mem }, running')

-- `do_write` of the bytes `buffer`.
pub do_write : MmioMem → List ℕ → ℕ → List ℕ → Bool → Outcome (Bool × MmioMem × Bool)
unfolding place write_at compare
do_write m diff_mem start buffer running = do
  at ← place m start (length buffer)
  write_at m diff_mem at buffer running

-- `mmio_mem(size_t size_bytes)`: `fresh` holds the bytes that `new` hands out.
pub alloc : List ℕ → MmioMem
alloc fresh = record {
  mem = fresh;
  mem_size = length fresh;
  diff_mem_write = false;
  allow_warp = false;
}

-- `mmio_mem(size_t size_bytes, const unsigned char *init_binary, size_t init_binary_len)`.
pub of_binary : List ℕ → List ℕ → Outcome MmioMem
unfolding alloc
of_binary fresh init_binary = do
  require (leb (length init_binary) (length fresh))
  mem ← read_file fresh 0 init_binary
  done (record (alloc fresh) { mem = mem })

-- `mmio_mem(size_t size_bytes, const char *init_file)`; `none` is a file that cannot be opened.
pub of_file : List ℕ → Option (List ℕ) → Outcome MmioMem
unfolding alloc
of_file fresh none = done (alloc fresh)
of_file fresh (some file) = do
  mem ←
      read_file fresh 0
        (take (if ltb (length fresh) (length file) then length fresh else length file) file)
  done (record (alloc fresh) { mem = mem })

-- `load_binary`.
pub load_binary : MmioMem → ℕ → Option (List ℕ) → Outcome MmioMem
load_binary m start none = done m
load_binary m start (some file) = do
  let too_big = leb m.mem_size start || ltb (m.mem_size - start) (length file)
  mem ← read_file m.mem start (take (if too_big then m.mem_size else length file) file)
  done (record m { mem = mem })

-- `set_allow_warp`, which does not look at its argument.
pub set_allow_warp : MmioMem → Bool → MmioMem
set_allow_warp m value = record m { allow_warp = true }

-- `set_diff_mem`.
pub set_diff_mem : MmioMem → MmioMem
set_diff_mem m = record m { diff_mem_write = true }
