-- ===== src/Sim/Tests.antt =====
-- Concrete runs of the main loop, and of its theorems.
use my_diff.Base.{
  ℕ, ◌+◌, ◌≡◌, ◌↔◌, ◌⊎◌, refl, true, false, [], ◌∷◌, replicate, some, List, arith, done, aborted,
  Ensures, none, ◌*◌, fault,
}
use my_diff.Axi.{sim_run, sim_abort}
use my_diff.Axi.Bus.Handshake.{AgreesBus}
use my_diff.Difftest.{dpi_retire, dut_get_state, regfile, difftest_check, same_gprs}
use my_diff.Sim.{Cpu, Reference, Sim, cpu_state, exec, verdict, commit, posedge, iterate, run}
use my_diff.Axi.Bus.{calculate_output, update_output}
use my_diff.Axi.Read.{read_eval, start_read}
use my_diff.Axi.Write.{write_eval, start_write}
use my_diff.Sim.Soundness.{Agreed, run_checked}
use my_diff.Sim.Verdict.{Same, commit_lem, abort_ends}
use my_diff.Sim.Reset.{Held, reset_phase}
use my_diff.Difftest.Export.{DebugInfo}
use my_diff.Nscscc.{Entry}
use my_diff.Nscscc.Trace.{render, writes}
use my_diff.Sim.Golden.{Golden, compare, compare_all, AgreeAll, compare_all_lem}
use my_diff.Sim.Args.{Opt, opt_l, opt_d, all_known, last_of}
use my_diff.Sim.Emulator.{Emulator, finish, read_next, write_next, ref_init}
use my_diff.Sim.Isolation.{Undisturbed, posedge_isolated}
use my_diff.Sim.Start.{Finished, Unusable, IsReady, program, program_lem}
use my_diff.Difftest.Load.{Linker}
use my_diff.Spaces.{Spaces, set_up, tick}
use my_diff.Spaces.SetUp.{set_up-IsSetUp}
use my_diff.Board.{Heap, board}
use my_diff.Samples.{
  register, table, quiet, bus, nemu, clear, nothing, program as program_bytes, word_access,
}

-- A CPU that commits one instruction in each cycle, and keeps the number of its evaluations in its
-- registers.
abbrev counter : Cpu ℕ
counter = record {
  eval = λ aclk aresetn read write t. t + 1;
  pins = λ t. quiet;
  dpi = λ t. record { get_regfile = λ i. t; commit0 = true; commit1 = false; commit_pc1 = t };
  got_finish = λ t. false;
}

-- A reference that counts its instructions.
abbrev reference : Reference ℕ ℕ
reference = record {
  tick_int = λ int r. r;
  exec_once = λ except r s. done (r + 1, s + 1);
  get_state = λ r. record { pc = r; hi = 0; lo = 0; gpr = replicate 32 r };
}

abbrev sim : Sim ℕ ℕ ℕ
sim = record {
  top = 4;
  axi = bus;
  ref = 3;
  devices = 40;
  sim_status = sim_run;
  ticks = 0;
  rst_ticks = 2;
  aclk = false;
}

-- A CPU that commits two instructions at once.
abbrev pair_counter : Cpu ℕ
pair_counter = record counter {
  dpi = λ t. record { get_regfile = λ i. t; commit0 = true; commit1 = true; commit_pc1 = t };
}

commit_lem_example :
    (m' : Sim ℕ ℕ ℕ) × (commit pair_counter reference sim ≡ done m')
    × (m'.ref ≡ 5)
    × (m'.devices ≡ 42)
    × ((m'.sim_status ≡ sim_run)
        ↔ Same (cpu_state (pair_counter.dpi 4)) (reference.get_state m'.ref))
commit_lem_example =
    commit_lem pair_counter reference sim (λ i. (3 + i, 40 + i)) refl (omega arith)
      (unfold dut_get_state regfile in refl) refl (λ i lt. ground arith) refl

abort_ends_example :
    (posedge register table counter reference (λ s. s) 0 0 (record sim { sim_status = sim_abort })
      ≡ aborted)
    ⊎ (posedge register table counter reference (λ s. s) 0 0 (record sim { sim_status = sim_abort })
        ≡ fault)
    ⊎ ((m' : Sim ℕ ℕ ℕ) × (posedge register table counter reference
            (λ s. s)
            0
            0
            (record sim { sim_status = sim_abort })
          ≡ done (m', true))
        × (m'.ref ≡ 3)
        × (m'.sim_status ≡ sim_abort))
abort_ends_example =
    abort_ends register table counter reference (λ s. s) 0 0 (record sim { sim_status = sim_abort })
      refl

reset_phase_example :
    (m' : Sim ℕ ℕ ℕ) × (run register table counter reference (λ s. s) ((0, 0) ∷ (0, 0) ∷ []) sim
      ≡ done (m', false))
    × Held register table counter reference (λ s. s) sim m'
    × (m'.rst_ticks ≡ 0)
    × (m'.ticks ≡ 2)
    × AgreesBus m'.axi
reset_phase_example =
    reset_phase register table counter reference (λ s. s) ((0, 0) ∷ (0, 0) ∷ []) sim (λ t. refl)
      (omega arith) refl

-- A NEMU that fetches a word, stores what it got, and counts its instructions.
abbrev emulator : Emulator ℕ
emulator = record {
  tick_int = λ int r. r;
  exec_once = λ except r.
      read_next (0x1fc00000 + 4 * r) word_access 0
        (λ ok v. write_next 0x1fc00010 word_access v (λ ok'. finish (r + 1)));
  get_state = λ r. record { pc = r; hi = 0; lo = 0; gpr = replicate 32 r };
}

-- The linker finds every function in every file.
abbrev linker : Linker ℕ ℕ
linker = record { dlopen = λ file. some file; dlsym = λ handle symbol. some handle }

abbrev options : List Opt
options = record { code = opt_l; optarg = some 1 } ∷ record { code = opt_d; optarg = some 2 } ∷ []

program_lem_example :
    ((all_known options ≡ false)
      × (program nemu clear
            (λ f. true)
            linker
            (λ f. emulator)
            counter
            options
            (some program_bytes)
            4
            bus
            3
            (replicate 5 (0, 0))
            nothing
          ≡ done none))
    ⊎ ((all_known options ≡ true)
        × Unusable linker (last_of opt_d options none)
        × (program nemu clear
              (λ f. true)
              linker
              (λ f. emulator)
              counter
              options
              (some program_bytes)
              4
              bus
              3
              (replicate 5 (0, 0))
              nothing
            ≡ aborted))
    ⊎ ((all_known options ≡ true)
        × ((end : Finished ℕ ℕ ℕ) × (program nemu clear
                (λ f. true)
                linker
                (λ f. emulator)
                counter
                options
                (some program_bytes)
                4
                bus
                3
                (replicate 5 (0, 0))
                nothing
              ≡ done (some end))
            × IsReady nemu clear
                (λ f. true)
                linker
                (λ f. emulator)
                counter
                options
                (some program_bytes)
                3
                nothing
                end))
program_lem_example =
    program_lem nemu clear (λ f. true) linker (λ f. emulator) counter options (some program_bytes) 4
      bus 3 (replicate 5 (0, 0)) nothing (omega arith) (λ t. refl) refl

-- The spaces that `main` has set up, and the simulation on them.
spaces : Spaces
spaces = (set_up-IsSetUp nemu clear (some program_bytes) nothing (omega arith)).0

spaces_lem : set_up nemu clear (some program_bytes) nothing ≡ done spaces
unfolding spaces
spaces_lem = (set_up-IsSetUp nemu clear (some program_bytes) nothing (omega arith)).1

abbrev on_board : Sim ℕ ℕ Heap
on_board = record {
  top = 4;
  axi = bus;
  ref = 0;
  devices = spaces.heap;
  sim_status = sim_run;
  ticks = 6;
  rst_ticks = 0;
  aclk = true;
}

posedge_isolated_example :
    Ensures (Undisturbed nemu spaces.paddr_top counter (tick spaces.v_confreg) 0 0 on_board) (
      posedge
        (board nemu)
        spaces.paddr_top
        counter
        (ref_init nemu spaces.nemu_paddr_top emulator)
        (tick spaces.v_confreg)
        0
        0
        on_board)
posedge_isolated_example =
    posedge_isolated nemu clear (some program_bytes) nothing spaces counter emulator 0 0 on_board
      (omega arith) spaces_lem

-- Past the reset phase, at a low clock, with the reference one instruction behind the CPU.
abbrev in_step : Sim ℕ ℕ ℕ
in_step = record sim { ref = 4; rst_ticks = 0 }

-- After a positive edge, on which both have moved, and a negative one.
abbrev still_in_step : Sim ℕ ℕ ℕ
still_in_step = record in_step { top = 6; ref = 5; devices = 41; ticks = 2 }

two_turns :
    run register table counter reference (λ s. s) ((0, 0) ∷ (0, 0) ∷ []) in_step
    ≡ done (still_in_step, false)
unfolding run iterate posedge commit exec verdict difftest_check same_gprs dpi_retire dut_get_state
    regfile calculate_output update_output read_eval write_eval start_read start_write
two_turns = refl

run_checked_example :
    Agreed register table counter reference (λ s. s) ((0, 0) ∷ (0, 0) ∷ []) in_step still_in_step
run_checked_example =
    run_checked register table counter reference (λ s. s) ((0, 0) ∷ (0, 0) ∷ []) in_step
      still_in_step (λ r. refl) refl two_turns refl

abbrev golden_run : List Entry
golden_run =
    record { cmp_flag = 1; pc = 0xbfc00000; wnum = 8; wdata = 5 }
    ∷ record { cmp_flag = 0; pc = 0xbfc00008; wnum = 9; wdata = 6 }
    ∷ []

abbrev golden : Golden
golden = record { golden_trace = render golden_run; inst_count = 0; sim_status = sim_run }

abbrev unread : Entry
unread = record { cmp_flag = 0; pc = 0; wnum = 0; wdata = 0 }

abbrev commits : List DebugInfo
commits =
    record { pc = 0xbfc00000; wen = 0xf; wnum = 8; wdata = 5 }
    ∷ record { pc = 0xbfc00004; wen = 0xf; wnum = 0; wdata = 1 }
    ∷ record { pc = 0xbfc00008; wen = 0xf; wnum = 9; wdata = 7 }
    ∷ []

wrong_value : (compare_all commits unread golden).sim_status ≡ sim_abort
unfolding compare_all compare
wrong_value = refl

compare_all_lem_example :
    (((compare_all commits unread golden).sim_status ≡ sim_run)
      ↔ AgreeAll (writes commits) golden_run)
    × ((compare_all commits unread golden).inst_count ≡ 2)
compare_all_lem_example =
    compare_all_lem commits golden_run unread golden refl refl
      (
        (λ e. absurd (omega arith)),
        ((λ e. absurd (omega arith)), ((λ e. absurd (omega arith)), tt)),
      )
      (omega arith) (omega arith)
