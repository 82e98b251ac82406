-- ===== src/Spaces.antt =====
-- csrc/diff-main.cpp and csrc/diff_proj/nemu_paddr_top.cc: how the address spaces of the CPU and of NEMU
-- are set up.
pub mod SetUp
pub mod Boot
pub mod Fetch
pub mod Store
pub mod Bursts
pub mod Reload
pub mod Sharing
mod Tests
use my_diff.Base.{ℕ, Bool, true, false, List, [], ◌∷◌, Option, Outcome, done, aborted, fault, ◌>>=◌}
use my_diff.Base.Nemu.{Nemu}
use my_diff.Paddr.{Wen, AddrIntv, of_bits, PaddrTop, add_dev, deep_copy}
use my_diff.Paddr as Paddr
use my_diff.Confreg as Confreg
use my_diff.Board.{
  Heap, Allocator, Pmem, Dev, memory, registers, of_range, borrowed, get_mem_ptr, load_binary,
  board, confreg, put_confreg, new_confreg,
}

-- `v_confreg->set_switch(value)`.
set_switch : ℕ → ℕ → Heap → Outcome Heap
set_switch p value h = do c ← confreg h p; done (put_confreg h p (Confreg.set_switch c value))

-- `v_confreg->tick()`.
unfoldable pub tick : ℕ → Heap → Heap
tick p h = elim (confreg h p) [
  | done c ↦ put_confreg h p (Confreg.tick c)
  | aborted ↦ h
  | fault ↦ h
]

-- What `main` has set up: the slave's address space, NEMU's, the registers and the store.
pub record Spaces : Type 0 where
  pub paddr_top : PaddrTop Dev
  pub nemu_paddr_top : PaddrTop Dev
  pub v_confreg : ℕ
  pub heap : Heap

-- The devices in `main`; `func_bin` is the file `__FUNC_BIN__`.
pub set_up : Nemu → Allocator → Option (List ℕ) → Heap → Outcome Spaces
unfolding set_switch
set_up n allocator func_bin h = do
  inst_range ← of_bits n 0x1fc00000 22
  confreg_range ← of_bits n 0x1faf0000 16
  (v_inst_mem, h₁) ← of_range n allocator inst_range h
  h₂ ← load_binary v_inst_mem 0 func_bin h₁
  let (v_confreg, h₃) = new_confreg h₂ (Confreg.init false)
  h₄ ← set_switch v_confreg 0 h₃
  let (_, inst_only) = add_dev [] inst_range (memory v_inst_mem)
  let (_, paddr_top) = add_dev inst_only confreg_range (registers v_confreg)
  (nemu_paddr_top, heap) ← deep_copy (board n) paddr_top h₄
  done (record {
    paddr_top = paddr_top;
    nemu_paddr_top = nemu_paddr_top;
    v_confreg = v_confreg;
    heap = heap;
  })

-- `new_paddr_top`: NEMU's own space, in which two ranges share one array.
pub new_paddr_top : Nemu → Allocator → Option (List ℕ) → Heap → Outcome (PaddrTop Dev × Heap)
new_paddr_top n allocator func_bin h = do
  inst_range ← of_bits n 0x1fc00000 22
  s0_1m ← of_bits n 0x0 24
  confreg_range ← of_bits n 0x1faf0000 16
  (nemu_s0_1m, h₁) ← of_range n allocator s0_1m h
  h₂ ← load_binary nemu_s0_1m 0 func_bin h₁
  nemu_inst_mem ← borrowed n inst_range (get_mem_ptr nemu_s0_1m)
  let (nemu_confreg, h₃) = new_confreg h₂ (Confreg.init false)
  let (_, inst_only) = add_dev [] inst_range (memory nemu_inst_mem)
  let (_, with_confreg) = add_dev inst_only confreg_range (registers nemu_confreg)
  let (_, nemu_paddr_top) = add_dev with_confreg s0_1m (memory nemu_s0_1m)
  done (nemu_paddr_top, h₃)

-- `paddr_do_read` and `paddr_do_write`, through which NEMU reaches the space.
unfoldable pub paddr_do_read : Nemu → PaddrTop Dev → ℕ → Wen → ℕ → Heap → Outcome (Bool × ℕ × Heap)
paddr_do_read n paddr_top = Paddr.do_read (board n) paddr_top

unfoldable pub paddr_do_write : Nemu → PaddrTop Dev → ℕ → Wen → ℕ → Heap → Outcome (Bool × Heap)
paddr_do_write n paddr_top = Paddr.do_write (board n) paddr_top
