-- ===== src/Sim/Start.antt =====
-- The whole of csrc/diff-main.cpp's `main`: the arguments, the log, the reference's library, and then the
-- simulation.
use my_diff.Base.{
  ℕ, ◌≡◌, refl, ◌⊎◌, inl, inr, Bool, true, false, List, Option, none, some, length, Outcome, done,
  aborted, ◌>>=◌, Bool-cases,
}
use my_diff.Base.Nemu.{Nemu}
use my_diff.Axi.Bus.{AxiPaddr}
use my_diff.Axi.Bus.Handshake.{AgreesBus}
use my_diff.Axi.{sim_run}
use my_diff.Board.{Heap, Allocator}
use my_diff.Board.Objects.{IsFile}
use my_diff.Difftest.Load.{Symbol, Linker, Functions, at, difftest_init, difftest_init_lem}
use my_diff.Log.{Stream}
use my_diff.Log.Direct.{log_init}
use my_diff.Spaces.{Spaces, set_up}
use my_diff.Sim.{Cpu, Sim}
use my_diff.Sim.Args.{Opt, Args, opt_l, opt_d, parse_args, all_known, last_of, parse_args_lem}
use my_diff.Sim.Emulator.{Emulator}
use my_diff.Sim.Program.{main, main_reset}

-- `log_file` and `diff_so` at the start.
abbrev pub no_files : Args
no_files = record { log_file = none; diff_so = none }

Option-cases : {A : Type 0} (o : Option A) → ((a : A) × (o ≡ some a)) ⊎ (o ≡ none)
Option-cases none = inr refl
Option-cases (some a) = inl (a, refl)

-- What the program has when its loop ends, or is left.
pub record Finished (T R A : Type 0) : Type 0 where
  pub log_dt : Option Stream
  pub functions : Functions A
  pub sim : Sim T R Heap
  pub ended : Bool

module _ {H A : Type 0} (linker : Linker H A) where
  -- No library is named, or it does not open, or a function is missing in it.
  abbrev pub Unusable : Option ℕ → Type 0
  Unusable diff_so =
      (diff_so ≡ none)
      ⊎ ((file : ℕ) × (diff_so ≡ some file)
          × ((linker.dlopen file ≡ none)
              ⊎ ((handle : H) × (linker.dlopen file ≡ some handle)
                  × ((symbol : Symbol) × (linker.dlsym handle symbol ≡ none)))))

  -- Each function pointer is the function of its name in the library.
  abbrev pub Loaded : Option ℕ → Functions A → Type 0
  Loaded diff_so f =
      (file : ℕ) × (handle : H) × (diff_so ≡ some file)
      × (linker.dlopen file ≡ some handle)
      × ((symbol : Symbol) → linker.dlsym handle symbol ≡ some (at linker f symbol))

  load_cases :
      (diff_so : Option ℕ)
      → ((f : Functions A) × (difftest_init linker diff_so ≡ done f) × Loaded diff_so f)
        ⊎ ((difftest_init linker diff_so ≡ aborted) × Unusable diff_so)
  load_cases none = inr (unfold difftest_init in refl, inl refl)
  load_cases (some file) = elim (Option-cases (linker.dlopen file)) [
    | inl (handle, opens) ↦ elim (difftest_init_lem linker file handle opens) [
      | inl (f, ran, all) ↦ inl (f, ran, (file, handle, refl, opens, all))
      | inr (stops, missing) ↦ inr (stops, inr (file, refl, inr (handle, opens, missing)))
    ]
    | inr closed ↦ inr (unfold difftest_init in rw closed refl, inr (file, refl, inl closed))
  ]

-- `nemu` is what the code at the library's functions does.
module _ {T R H A : Type 0} (n : Nemu) (allocator : Allocator) (fopen : ℕ → Bool)
    (linker : Linker H A) (nemu : Functions A → Emulator R) (cpu : Cpu T) where
  -- `main` after `parse_args`.
  pub simulate :
      Args → Option (List ℕ) → T → AxiPaddr → R → List (ℕ × ℕ) → Heap → Outcome (Finished T R A)
  simulate args func_bin top axi ref randoms h = do
    let (log_dt, said) = log_init fopen args.log_file
    functions ← difftest_init linker args.diff_so
    (sim, ended) ← main n allocator cpu (nemu functions) func_bin top axi ref randoms h
    done (record { log_dt = log_dt; functions = functions; sim = sim; ended = ended })

  -- The program, with the options that `getopt_long` finds; nothing if it exits at its usage.
  pub program :
      List Opt
      → Option (List ℕ)
      → T
      → AxiPaddr
      → R
      → List (ℕ × ℕ)
      → Heap
      → Outcome (Option (Finished T R A))
  unfolding simulate
  program opts func_bin top axi ref randoms h = elim (parse_args opts no_files) [
    | none ↦ done none
    | some args ↦ (simulate args func_bin top axi ref randoms h >>= λ end. done (some end))
  ]

  -- The simulation after its reset phase.
  pub record IsReady (opts : List Opt) (func_bin : Option (List ℕ)) (ref : R) (h : Heap)
      (end : Finished T R A) : Type 0 where
    pub log_dt : end.log_dt ≡ (log_init fopen (last_of opt_l opts none)).0
    pub loaded : Loaded linker (last_of opt_d opts none) end.functions
    pub spaces :
        (s : Spaces) × (set_up n allocator func_bin h ≡ done s) × (end.sim.devices ≡ s.heap)
    pub ref_same : end.sim.ref ≡ ref
    pub running : end.sim.sim_status ≡ sim_run
    pub rst_ticks : end.sim.rst_ticks ≡ 0
    pub ticks : end.sim.ticks ≡ 5
    pub agrees : AgreesBus end.sim.axi
    pub going_on : end.ended ≡ false

  -- What becomes of the program, with a file of fewer than 2 ^ 64 bytes and a CPU that does not call
  -- `$finish`. If a word, or an option other than `-l` and `-d`, stands among the arguments, it exits at
  -- its usage. Else, if there is no `-d`, or the last one names a library that does not open or that
  -- lacks a function, an assertion stops it. Else it loads each function of the reference by its name
  -- and gets through the five turns of the reset phase: the log goes where the last `-l` says, the
  -- devices are as they were set up, the reference has not moved, the simulation runs with five ticks
  -- counted, and the slave's outputs are those of its channels' states.
  pub program_lem :
      (opts : List Opt) (func_bin : Option (List ℕ)) (top : T) (axi : AxiPaddr) (ref : R)
      (randoms : List (ℕ × ℕ)) (h : Heap)
      → IsFile func_bin
      → ((t : T) → cpu.got_finish t ≡ false)
      → length randoms ≡ 5
      → ((all_known opts ≡ false) × (program opts func_bin top axi ref randoms h ≡ done none))
        ⊎ ((all_known opts ≡ true)
            × Unusable linker (last_of opt_d opts none)
            × (program opts func_bin top axi ref randoms h ≡ aborted))
        ⊎ ((all_known opts ≡ true)
            × ((end : Finished T R A) × (program opts func_bin top axi ref randoms h
                  ≡ done (some end))
                × IsReady opts func_bin ref h end))
  unfolding program simulate
  program_lem opts func_bin top axi ref randoms h small alive five =
      elim (Bool-cases (all_known opts)) [
        | inr exits ↦ inl (exits, rw (program, parse_args_lem opts no_files, exits) refl)
        | inl known ↦ inr (elim (load_cases linker (last_of opt_d opts none)) [
          | inr (stops, unusable) ↦
              inl (known, unusable, rw (program, parse_args_lem opts no_files, known, stops) refl)
          | inl (f, ran, loaded) ↦
              let (s, m, ready, runs, devices, same, running, left, counted, agrees) =
                main_reset n allocator cpu (nemu f) func_bin top axi ref randoms h small alive
                  five in
              inr (
                known,
                (
                  record {
                    log_dt = (log_init fopen (last_of opt_l opts none)).0;
                    functions = f;
                    sim = m;
                    ended = false;
                  },
                  rw (program, parse_args_lem opts no_files, known, ran, runs) refl,
                  record {
                    log_dt = refl;
                    loaded = loaded;
                    spaces = (s, ready, devices);
                    ref_same = same;
                    running = running;
                    rst_ticks = left;
                    ticks = counted;
                    agrees = agrees;
                    going_on = refl;
                  },
                ),
              )
        ])
      ]
