-- ===== src/Difftest/Tests.antt =====
-- Concrete runs of the comparison, and of its theorem.
use my_diff.Base.{
  ℕ, ◌<◌, ◌≡◌, ◌↔◌, refl, Bool, true, false, replicate, done, aborted, none, some, List, length,
  not, ◌⊎◌,
}
use my_diff.Difftest.{DiffState, Dpi, difftest_check, same_gprs, dpi_retire, dut_get_state, regfile}
use my_diff.Difftest.Export.{Exports, dpi_get_debug_info0, dpi_get_debug_info1, dpi_cp0_count}
use my_diff.Difftest.Report.{
  Line, reg, pc, difftest_show_error, of_cpu, has_red, about, told, difftest_show_error_lem,
}
use my_diff.Difftest.Load.{
  Symbol, ref_get_debug_info, Linker, Functions, at, difftest_init, difftest_init_lem,
}
use my_diff.Difftest.Check.{gpr_at, difftest_check_lem}

abbrev state : ℕ → DiffState
state n = record { pc = 0x100; hi = 0; lo = n; gpr = replicate 32 n }

abbrev exports : Exports
exports = record {
  slot0 = record { commit_pc = 0x100; commit_wen = 0xf; commit_wnum = 4; commit_wdata = 7 };
  slot1 = record { commit_pc = 0x104; commit_wen = 0; commit_wnum = 0; commit_wdata = 0 };
  get_cp0_count = 99;
}

abbrev dpi : Dpi
dpi = record { get_regfile = λ i. 7; commit0 = true; commit1 = true; commit_pc1 = 0x100 }

equal_states : difftest_check (state 7) (record (state 7) { lo = 0 }) ≡ done true
unfolding difftest_check same_gprs
equal_states = refl

other_register : difftest_check (state 7) (state 8) ≡ done false
unfolding difftest_check same_gprs
other_register = refl

two_commits : dpi_retire dpi ≡ 2
unfolding dpi_retire
two_commits = refl

state_of_dut : dut_get_state dpi (state 0) ≡ record (state 7) { lo = 0 }
unfolding dut_get_state regfile
state_of_dut = refl

difftest_check_lem_example :
    (res : Bool) × (difftest_check (state 7) (state 8) ≡ done res)
    × ((res ≡ true) ↔ (
        ((state 7).pc ≡ (state 8).pc)
        × ((r : ℕ) → r < 32 → gpr_at (state 7) r ≡ gpr_at (state 8) r)))
difftest_check_lem_example = difftest_check_lem (state 7) (state 8) refl refl

debug_of_slot :
    (dpi_get_debug_info0 exports ≡ record { pc = 0x100; wen = 0xf; wnum = 4; wdata = 7 })
    × (dpi_get_debug_info1 exports ≡ record { pc = 0x104; wen = 0; wnum = 0; wdata = 0 })
    × (dpi_cp0_count exports ≡ 99)
unfolding dpi_get_debug_info0 dpi_get_debug_info1 dpi_cp0_count
debug_of_slot = (refl, refl, refl)

difftest_show_error_lem_example :
    (lines : List Line) × (difftest_show_error (state 7) (state 8) ≡ done lines)
    × ((r : ℕ)
        → r < 32
        → about (reg r) lines ≡ told (reg r) (gpr_at (state 7) r) (gpr_at (state 8) r))
    × (about pc lines ≡ told pc 0x100 0x100)
    × (length (of_cpu lines) ≡ 33)
    × (difftest_check (state 7) (state 8) ≡ done (not (has_red lines)))
difftest_show_error_lem_example = difftest_show_error_lem (state 7) (state 8) refl refl

-- A library that lacks one function.
abbrev old_library : Linker ℕ ℕ
old_library = record {
  dlopen = λ file. some 1;
  dlsym = λ handle symbol. elim symbol [ ref_get_debug_info ↦ none | _ ↦ some 5 ];
}

init_without_file : difftest_init old_library none ≡ aborted
unfolding difftest_init
init_without_file = refl

difftest_init_lem_example :
    ((f : Functions ℕ) × (difftest_init old_library (some 3) ≡ done f)
      × ((symbol : Symbol) → old_library.dlsym 1 symbol ≡ some (at old_library f symbol)))
    ⊎ ((difftest_init old_library (some 3) ≡ aborted)
        × ((symbol : Symbol) × (old_library.dlsym 1 symbol ≡ none)))
difftest_init_lem_example = difftest_init_lem old_library 3 1 refl
