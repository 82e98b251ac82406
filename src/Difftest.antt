-- ===== src/Difftest.antt =====
-- csrc/difftest.cpp and csrc/dpic/export.cpp: the comparison of the CPU with the reference, and what the
-- simulator asks the CPU for.
pub mod Check
pub mod Export
pub mod Load
pub mod Report
mod Tests
use my_diff.Base.{
  ℕ, zero, suc, ◌+◌, Bool, true, false, ◌&&◌, List, [], ◌∷◌, ◌==◌, if◌then◌else◌, get_elem?,
  Outcome, done, in_bounds, ◌>>=◌,
}

-- `diff_state`; `gpr` has 32 entries.
pub record DiffState : Type 0 where
  pub pc : ℕ
  pub hi : ℕ
  pub lo : ℕ
  pub gpr : List ℕ

-- The functions that the Verilated CPU exports: the register file and the two commit slots.
pub record Dpi : Type 0 where
  pub get_regfile : ℕ → ℕ
  pub commit0 : Bool
  pub commit1 : Bool
  pub commit_pc1 : ℕ

-- The loop of `difftest_check` from register `i` on, with `left` registers to go.
unfoldable pub same_gprs : DiffState → DiffState → ℕ → ℕ → Bool → Outcome Bool
same_gprs cpu ref zero i ans = done ans
same_gprs cpu ref (suc left) i ans = do
  expected ← in_bounds (get_elem? ref.gpr i)
  value ← in_bounds (get_elem? cpu.gpr i)
  same_gprs cpu ref left (i + 1) (ans && expected == value)

unfoldable pub difftest_check : DiffState → DiffState → Outcome Bool
unfolding same_gprs
difftest_check cpu ref = same_gprs cpu ref 32 0 (ref.pc == cpu.pc)

-- `dpi_retire`: how many instructions the CPU has committed in this cycle.
unfoldable pub dpi_retire : Dpi → ℕ
dpi_retire dpi =
    let down = dpi.commit0 in
    let up = dpi.commit1 in if up then (if down then 2 else 1) else if down then 1 else 0

-- The loop of `dut_get_state` from register `i` on.
unfoldable pub regfile : Dpi → ℕ → ℕ → List ℕ
regfile dpi zero i = []
regfile dpi (suc left) i = dpi.get_regfile i ∷ regfile dpi left (i + 1)

-- `dut_get_state`; it leaves `hi` and `lo` as they were.
unfoldable pub dut_get_state : Dpi → DiffState → DiffState
unfolding regfile
dut_get_state dpi mycpu = record mycpu { gpr = regfile dpi 32 0; pc = dpi.commit_pc1 }
