-- ===== src/Sim/Emulator.antt =====
-- NEMU, as the simulator's loop meets it: what its instructions do to its address space, through the two
-- functions of csrc/diff_proj/nemu_paddr_top.cc.
use my_diff.Base.{ℕ, Bool, Outcome, done, ◌>>=◌}
use my_diff.Base.Nemu.{Nemu}
use my_diff.Paddr.{Wen, PaddrTop}
use my_diff.Board.{Heap, Dev}
use my_diff.Spaces.{paddr_do_read, paddr_do_write}
use my_diff.Difftest.{DiffState}
use my_diff.Sim.{Reference}

-- An instruction: calls of `paddr_do_read` and `paddr_do_write`, each of which can depend on what the
-- ones before it returned, and then NEMU's new state.
pub data Execution (R : Type 0) : Type 0 where
  finish : R → Execution R
  read_next : ℕ → Wen → ℕ → (Bool → ℕ → Execution R) → Execution R
  write_next : ℕ → Wen → ℕ → (Bool → Execution R) → Execution R

-- NEMU's own code.
pub record Emulator (R : Type 0) : Type 0 where
  pub tick_int : ℕ → R → R
  pub exec_once : Bool → R → Execution R
  pub get_state : R → DiffState

module _ {R : Type 0} (n : Nemu) (paddr_top : PaddrTop Dev) where
  -- The calls, on the space that NEMU was handed.
  unfoldable pub execute : Execution R → Heap → Outcome (R × Heap)
  execute (finish r) h = done (r, h)
  execute (read_next addr info word next) h = do
    (ok, v, h') ← paddr_do_read n paddr_top addr info word h
    execute (next ok v) h'
  execute (write_next addr info word next) h = do
    (ok, h') ← paddr_do_write n paddr_top addr info word h
    execute (next ok) h'

  -- `ref_init(nemu_paddr_top)`: the functions `ref_…` from then on.
  unfoldable pub ref_init : Emulator R → Reference R Heap
  ref_init emulator = record {
    tick_int = emulator.tick_int;
    exec_once = λ except r. execute (emulator.exec_once except r);
    get_state = emulator.get_state;
  }
