-- ===== src/Pmem.antt =====
-- csrc/device/Pmem.cpp: the operations of `Pmem` on the bytes of its memory. The host is little
-- endian: a `uint16_t` or `uint32_t` access reads and writes its lowest byte first.
pub mod Bytes
pub mod Lanes
pub mod Access
pub mod RoundTrip
pub mod Loading
mod Tests
use my_diff.Base.{
  ℕ, zero, suc, ◌+◌, ◌-◌, ◌*◌, ◌/◌, ◌%◌, ◌^◌, Bool, true, false, not, List, [], ◌∷◌, min, ltb, leb,
  ◌==◌, ◌&&◌, ◌||◌, if◌then◌else◌, Option, none, some, get_elem?, set, length, take, Outcome, done,
  aborted, fault, require, in_bounds, ◌>>=◌, ◌>>◌, u64,
}
use my_diff.Base.Nemu.{Nemu}
use my_diff.Paddr.{Wen}

-- `*(uint8_t*)(mem + addr)` and the wider loads, of `n` bytes.
unfoldable pub load : List ℕ → ℕ → ℕ → Outcome ℕ
load mem addr zero = done 0
load mem addr (suc n) = do
  byte ← in_bounds (get_elem? mem addr)
  rest ← load mem (addr + 1) n
  done (byte + 256 * rest)

-- `*(uint8_t*)(mem + addr) = v`.
unfoldable pub store_byte : List ℕ → ℕ → ℕ → Outcome (List ℕ)
store_byte mem addr v = if ltb addr (length mem) then done (set mem addr (v % 256)) else fault

-- The store of `n` bytes.
unfoldable pub store : List ℕ → ℕ → ℕ → ℕ → Outcome (List ℕ)
store mem addr zero v = done mem
store mem addr (suc n) v = do mem' ← store_byte mem addr v; store mem' (addr + 1) n (v / 256)

-- A load of `n` bytes into the low end of `*data` leaves its other bytes.
abbrev pub low_bytes : ℕ → ℕ → ℕ → ℕ
low_bytes n word v = word - word % 256 ^ n + v

load_into : List ℕ → ℕ → ℕ → ℕ → Outcome (Bool × ℕ)
load_into mem addr n word = do v ← load mem addr n; done (true, low_bytes n word v)

unfoldable pub do_read : List ℕ → ℕ → Wen → ℕ → Outcome (Bool × ℕ)
unfolding load_into
do_read mem addr info word =
    if info.size == 1
    then load_into mem addr 1 word
    else if info.size == 2
    then load_into mem addr 2 word
    else if info.size == 4
    then load_into mem addr 4 word
    else aborted

store_word : List ℕ → ℕ → ℕ → ℕ → Outcome (Bool × List ℕ)
store_word mem addr n word = do mem' ← store mem addr n word; done (true, mem')

-- `if (BITS(wstrb, i, i)) *(uint8_t *)(mem + addr + i) = BITS(data, 8 * i + 7, 8 * i)`.
store_strobed : Nemu → List ℕ → ℕ → ℕ → ℕ → ℕ → Outcome (List ℕ)
store_strobed n mem addr i wstrb word =
    if n.bits wstrb i i == 0
    then done mem
    else store_byte mem (addr + i) (n.bits word (8 * i + 7) (8 * i))

pub store_lanes : Nemu → List ℕ → ℕ → ℕ → ℕ → Outcome (Bool × List ℕ)
unfolding store_strobed
store_lanes n mem addr wstrb word = do
  mem₀ ← store_strobed n mem addr 0 wstrb word
  mem₁ ← store_strobed n mem₀ addr 1 wstrb word
  mem₂ ← store_strobed n mem₁ addr 2 wstrb word
  mem₃ ← store_strobed n mem₂ addr 3 wstrb word
  done (true, mem₃)

unfoldable pub do_write : Nemu → List ℕ → ℕ → Wen → ℕ → Outcome (Bool × List ℕ)
unfolding store_word store_lanes
do_write n mem addr info word =
    if info.size == 1
    then store_word mem addr 1 word
    else if info.size == 2
    then store_word mem addr 2 word
    else if info.size == 4
    then if info.wstrb == 0xf
      then store_word mem addr 4 word
      else store_lanes n mem addr info.wstrb word
    else aborted

-- `file.read(mem + offset, size)`: as many bytes as the file has, up to `size`.
unfoldable pub read_file : List ℕ → ℕ → List ℕ → Outcome (List ℕ)
read_file mem offset [] = done mem
read_file mem offset (b ∷ file) = do
  mem' ← store_byte mem offset b
  read_file mem' (offset + 1) file

-- `load_binary`. `none` is a file that cannot be opened, of which nothing is read.
unfoldable pub load_binary : List ℕ → ℕ → ℕ → Option (List ℕ) → Outcome (List ℕ)
load_binary mem mem_size offset none = done mem
load_binary mem mem_size offset (some file) =
    let file_size = length file in
    let too_big = leb mem_size offset || ltb mem_size (u64 (file_size + offset)) in
    read_file mem offset (take (if too_big then mem_size else file_size) file)

-- `Pmem(word_t size_bytes)`: `fresh` holds the bytes, of any value, that `new` hands out.
unfoldable pub alloc : Nemu → List ℕ → Outcome (List ℕ)
alloc n fresh = do require (n.is_2_pow (length fresh)); done fresh

-- `Pmem(size_t size_bytes, const char *init_file)`.
pub of_file : Nemu → List ℕ → Option (List ℕ) → Outcome (List ℕ)
unfolding alloc
of_file n fresh none = alloc n fresh
of_file n fresh (some file) = do
  mem ← alloc n fresh
  let file_size = length file
  read_file mem 0 (take (if ltb (length mem) file_size then length mem else file_size) file)
