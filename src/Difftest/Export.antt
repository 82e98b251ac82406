-- ===== src/Difftest/Export.antt =====
-- csrc/dpic/export.cpp: what the simulator can ask the CPU for besides its registers.
use my_diff.Base.{ℕ, u8, u32}

-- `debug_info_t`: an instruction that is committed.
pub record DebugInfo : Type 0 where
  pub pc : ℕ
  pub wen : ℕ
  pub wnum : ℕ
  pub wdata : ℕ

-- The functions that a commit slot of the Verilated CPU exports, and the counter of coprocessor 0.
pub record Slot : Type 0 where
  pub commit_pc : ℕ
  pub commit_wen : ℕ
  pub commit_wnum : ℕ
  pub commit_wdata : ℕ

pub record Exports : Type 0 where
  pub slot0 : Slot
  pub slot1 : Slot
  pub get_cp0_count : ℕ

-- The fields `wen` and `wnum` are of type `unsigned char`.
of_slot : Slot → DebugInfo
of_slot slot = record {
  pc = u32 slot.commit_pc;
  wen = u8 slot.commit_wen;
  wnum = u8 slot.commit_wnum;
  wdata = u32 slot.commit_wdata;
}

unfoldable pub dpi_get_debug_info0 : Exports → DebugInfo
unfolding of_slot
dpi_get_debug_info0 e = of_slot e.slot0

unfoldable pub dpi_get_debug_info1 : Exports → DebugInfo
unfolding of_slot
dpi_get_debug_info1 e = of_slot e.slot1

unfoldable pub dpi_cp0_count : Exports → ℕ
dpi_cp0_count e = u32 e.get_cp0_count
