-- ===== src/Board.antt =====
-- The store that the board's devices live in: the arrays of csrc/device/Pmem.cpp, which two `Pmem`
-- objects can share, and the configuration registers; and the devices as `PaddrTop` sees them.
pub mod Blocks
pub mod Session
pub mod Objects
pub mod Frame
pub mod Lockstep
pub mod Copy
pub mod Interleave
mod Tests
use my_diff.Base.{
  ℕ, ◌+◌, Bool, true, false, List, [], ◌∷◌, ◌++◌, leb, ltb, Option, none, some, get_elem?, set,
  length, take, u32, Outcome, done, fault, require, in_bounds, ◌>>=◌, ◌>>◌, if◌then◌else◌, ◌≡◌,
}
use my_diff.Base.Nemu.{Nemu}
use my_diff.Paddr.{Wen, AddrIntv, PaddrInterface}
use my_diff.Pmem as Bytes
use my_diff.Confreg.{PaddrConfreg}
use my_diff.Confreg as Confreg

-- The arrays from `new` by number, `none` once deleted, and the `PaddrConfreg` objects.
pub record Heap : Type 0 where
  pub blocks : List (Option (List ℕ))
  pub confregs : List PaddrConfreg

-- What is in an array that `new unsigned char[size]` has just handed out, by the array's number.
pub record Allocator : Type 0 where
  pub fresh : ℕ → ℕ → List ℕ
  pub fresh_size : (number size : ℕ) → length (fresh number size) ≡ size

abbrev allocated : Option (Option (List ℕ)) → Outcome (List ℕ)
allocated none = fault
allocated (some b) = in_bounds b

-- The array that a pointer points to.
pub block : Heap → ℕ → Outcome (List ℕ)
block h p = allocated (get_elem? h.blocks p)

pub put_block : Heap → ℕ → List ℕ → Heap
put_block h p mem = record h { blocks = set h.blocks p (some mem) }

unfoldable pub new_block : Heap → List ℕ → ℕ × Heap
new_block h mem = (length h.blocks, record h { blocks = h.blocks ++ (some mem ∷ []) })

pub confreg : Heap → ℕ → Outcome PaddrConfreg
confreg h p = in_bounds (get_elem? h.confregs p)

pub put_confreg : Heap → ℕ → PaddrConfreg → Heap
put_confreg h p c = record h { confregs = set h.confregs p c }

unfoldable pub new_confreg : Heap → PaddrConfreg → ℕ × Heap
new_confreg h c = (length h.confregs, record h { confregs = h.confregs ++ (c ∷ []) })

-- `Pmem`: `mem` is the number of its array.
pub record Pmem : Type 0 where
  pub mem : ℕ
  pub mem_size : ℕ

-- `Pmem(word_t size_bytes)`.
pub of_size : Nemu → Allocator → ℕ → Heap → Outcome (Pmem × Heap)
of_size n allocator size_bytes h = do
  mem ← Bytes.alloc n (allocator.fresh (length h.blocks) size_bytes)
  let (p, h') = new_block h mem
  done (record { mem = p; mem_size = size_bytes }, h')

-- `Pmem(const AddrIntv &_range)`.
pub of_range : Nemu → Allocator → AddrIntv → Heap → Outcome (Pmem × Heap)
of_range n allocator range h = of_size n allocator (u32 (range.mask + 1)) h

-- `Pmem(const AddrIntv &_range, unsigned char *init_binary)`: the array is another owner's.
pub borrowed : Nemu → AddrIntv → ℕ → Outcome Pmem
borrowed n range init_binary = do
  let size_bytes = u32 (range.mask + 1)
  require (n.is_2_pow size_bytes)
  done (record { mem = init_binary; mem_size = size_bytes })

unfoldable pub get_mem_ptr : Pmem → ℕ
get_mem_ptr p = p.mem

-- `memcpy(mem, src, size)` into a fresh array of that size.
pub copied : List ℕ → ℕ → Outcome (List ℕ)
copied mem size = if leb size (length mem) then done (take size mem) else fault

-- `Pmem(Pmem &src)` and `deep_copy`.
pub copy : Pmem → Heap → Outcome (Pmem × Heap)
unfolding copied get_mem_ptr
copy src h = do
  mem ← block h (get_mem_ptr src)
  bytes ← copied mem src.mem_size
  let (p, h') = new_block h bytes
  done (record { mem = p; mem_size = src.mem_size }, h')

-- `~Pmem`.
pub destroy : Pmem → Heap → Outcome Heap
destroy p h = do mem ← block h p.mem; done (record h { blocks = set h.blocks p.mem none })

pub load_binary : Pmem → ℕ → Option (List ℕ) → Heap → Outcome Heap
load_binary p offset file h = do
  mem ← block h p.mem
  mem' ← Bytes.load_binary mem p.mem_size offset file
  done (put_block h p.mem mem')

-- The bytes that `save_binary` writes to its file.
pub save_binary : Pmem → Heap → Outcome (List ℕ)
unfolding copied
save_binary p h = do mem ← block h p.mem; copied mem p.mem_size

-- What a `PaddrInterface*` points to.
pub data Dev : Type 0 where
  memory : Pmem → Dev
  registers : ℕ → Dev

unfoldable pub read : Dev → ℕ → Wen → ℕ → Heap → Outcome (Bool × ℕ × Heap)
read (memory p) addr info word h = do
  mem ← block h p.mem
  (ok, v) ← Bytes.do_read mem addr info word
  done (ok, v, h)
read (registers p) addr info word h = do
  c ← confreg h p
  (ok, v, c') ← Confreg.do_read c addr info word
  done (ok, v, put_confreg h p c')

unfoldable pub write : Nemu → Dev → ℕ → Wen → ℕ → Heap → Outcome (Bool × Heap)
write n (memory p) addr info word h = do
  mem ← block h p.mem
  (ok, mem') ← Bytes.do_write n mem addr info word
  done (ok, put_block h p.mem mem')
write n (registers p) addr info word h = do
  c ← confreg h p
  (ok, c') ← Confreg.do_write c addr info word
  done (ok, put_confreg h p c')

pub clone : Dev → Heap → Outcome (Dev × Heap)
clone (memory p) h = do (q, h') ← copy p h; done (memory q, h')
clone (registers p) h = do c ← confreg h p; let (q, h') = new_confreg h c; done (registers q, h')

-- The devices behind the interface that `PaddrTop` uses.
unfoldable pub board : Nemu → PaddrInterface Dev Heap
board n = record { do_read = read; do_write = write n; deep_copy = clone }
