-- ===== src/Board/Tests.antt =====
-- Concrete runs of the devices in their store, and of its theorems.
use my_diff.Base.{
  ℕ, zero, suc, ◌<◌, ◌≡◌, refl, true, List, [], ◌∷◌, arith, some, replicate, done, fault, ◌>>=◌,
}
use my_diff.Paddr.{Wen, AddrIntv, PaddrTop, deep_copy, covers}
use my_diff.Paddr as Paddr
use my_diff.Pmem as Bytes
use my_diff.Pmem.Bytes.{byte_at}
use my_diff.Board.{
  Heap, Pmem, Dev, memory, block, put_block, read, write, copied, board, destroy, save_binary,
  load_binary,
}
use my_diff.Board.Session.{
  Answer, get, put, session, perform, Turn, dut, ref, of_dut, of_ref, interleave,
}
use my_diff.Board.Objects.{destroy_twice, load_binary-save_binary}
use my_diff.Board.Lockstep.{Distinct}
use my_diff.Board.Copy.{AllWhole}
use my_diff.Board.Interleave.{deep_copy-interleave}
use my_diff.Samples.{nemu, word_access}

abbrev ram : Pmem
ram = record { mem = 0; mem_size = 8 }

-- Another owner of the same array.
abbrev window : Pmem
window = record { mem = 0; mem_size = 4 }

abbrev rom : Pmem
rom = record { mem = 1; mem_size = 8 }

abbrev store : Heap
store = record {
  blocks = some (replicate 8 0) ∷ some (1 ∷ 2 ∷ 3 ∷ 4 ∷ 5 ∷ 6 ∷ 7 ∷ 8 ∷ []) ∷ [];
  confregs = [];
}

abbrev ram_range : AddrIntv
ram_range = record { start = 0x10; mask = 7 }

abbrev rom_range : AddrIntv
rom_range = record { start = 0x20; mask = 7 }

abbrev devices : PaddrTop Dev
devices = (ram_range, memory ram) ∷ (rom_range, memory rom) ∷ []

read_rom : read (memory rom) 0 word_access 0 store ≡ done (true, 0x04030201, store)
unfolding read block Bytes.do_read Bytes.load
read_rom = refl

saved_window : save_binary window store ≡ done (replicate 4 0)
unfolding save_binary block copied
saved_window = refl

dangling : read (memory (record { mem = 5; mem_size = 8 })) 0 word_access 0 store ≡ fault
unfolding read block
dangling = refl

destroy_twice_example : (destroy ram store >>= destroy window) ≡ fault
destroy_twice_example = destroy_twice ram window store refl

abbrev AllBytes : List ℕ → Type 0
AllBytes [] = Unit {0}
AllBytes (x ∷ xs) = (x < 256) × AllBytes xs

AllBytes-below : (xs : List ℕ) → AllBytes xs → (j : ℕ) → byte_at xs j < 256
AllBytes-below [] all j = omega arith
AllBytes-below (x ∷ xs) (b, all) zero = b
AllBytes-below (x ∷ xs) (b, all) (suc j) = AllBytes-below xs all j

load_binary-save_binary_example :
    (file : List ℕ) × (h' : Heap) × (save_binary rom store ≡ done file)
    × (load_binary ram 0 (some file) store ≡ done h')
    × (block h' 0 ≡ block store 1)
load_binary-save_binary_example =
    load_binary-save_binary rom ram store (1 ∷ 2 ∷ 3 ∷ 4 ∷ 5 ∷ 6 ∷ 7 ∷ 8 ∷ []) (replicate 8 0)
      (unfold block in refl) (unfold block in refl) refl refl refl (omega arith)
      (AllBytes-below (1 ∷ 2 ∷ 3 ∷ 4 ∷ 5 ∷ 6 ∷ 7 ∷ 8 ∷ []) (omega arith))

-- The CPU writes, NEMU reads and writes the same place, and both read.
abbrev turns : List Turn
turns =
    dut (put 0x12 word_access 0x11223344)
    ∷ ref (get 0x12 word_access 0)
    ∷ ref (put 0x12 word_access 0x55667788)
    ∷ dut (get 0x12 word_access 0)
    ∷ ref (get 0x22 word_access 0)
    ∷ []

abbrev mine : List Answer
mine = (true, 0x11223344) ∷ (true, 0x11223344) ∷ []

abbrev theirs : List Answer
theirs = (true, 0) ∷ (true, 0x55667788) ∷ (true, 0x06050403) ∷ []

abbrev after : ℕ → ℕ → ℕ → ℕ → Heap
after a b c d = record store {
  blocks =
      some (0 ∷ 0 ∷ a ∷ b ∷ c ∷ d ∷ 0 ∷ 0 ∷ []) ∷ some (1 ∷ 2 ∷ 3 ∷ 4 ∷ 5 ∷ 6 ∷ 7 ∷ 8 ∷ []) ∷ [];
}

dut_alone : session nemu devices (of_dut turns) store ≡ done (mine, after 0x44 0x33 0x22 0x11)
unfolding session perform of_dut board read write block put_block Paddr.do_read Paddr.do_write
    covers Bytes.do_read Bytes.do_write Bytes.load Bytes.store Bytes.store_byte
dut_alone = refl

ref_alone : session nemu devices (of_ref turns) store ≡ done (theirs, after 0x88 0x77 0x66 0x55)
unfolding session perform of_ref board read write block put_block Paddr.do_read Paddr.do_write
    covers Bytes.do_read Bytes.do_write Bytes.load Bytes.store Bytes.store_byte
ref_alone = refl

devices-AllWhole : AllWhole store devices
unfolding block
devices-AllWhole = ((replicate 8 0, refl, refl), ((_, refl, refl), tt))

devices-Distinct : Distinct devices
devices-Distinct = ((λ e. absurd (omega arith), tt), (tt, tt))

deep_copy-interleave_example :
    (other : PaddrTop Dev) × (k : Heap) × (k' : Heap) × (deep_copy (board nemu) devices store
      ≡ done (other, k))
    × (interleave nemu devices other turns k ≡ done (mine, theirs, k'))
deep_copy-interleave_example =
    deep_copy-interleave nemu devices turns store (after 0x44 0x33 0x22 0x11)
      (after 0x88 0x77 0x66 0x55) mine theirs devices-AllWhole devices-Distinct dut_alone ref_alone
