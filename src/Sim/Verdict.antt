-- ===== src/Sim/Verdict.antt =====
-- What the main loop decides: the comparison after a commit, and the end after a difference.
use my_diff.Base.{
  ℕ, zero, suc, ◌+◌, subst, if◌then◌else◌, ◌<◌, ◌≡◌, ◌↔◌, ◌⊎◌, inl, inr, refl, Bool, true, false,
  length, arith, ltb, Outcome, done, aborted, fault,
}
use my_diff.Paddr.{PaddrInterface, PaddrTop}
use my_diff.Axi.{SimStatus, sim_run, sim_abort, assert_sim}
use my_diff.Axi.Bus.{AxiPaddr, calculate_output}
use my_diff.Axi.Bus.Abort.{calculate_output-sim_abort}
use my_diff.Difftest.{DiffState, Dpi, dpi_retire}
use my_diff.Difftest.Check.{gpr_at, difftest_check_lem}
use my_diff.Sim.{Cpu, Reference, Sim, cpu_state, moved, exec, verdict, commit, posedge}

-- The CPU and the reference agree: the program counter and every register.
abbrev pub Same : DiffState → DiffState → Type 0
Same cpu ref = (cpu.pc ≡ ref.pc) × ((r : ℕ) → r < 32 → gpr_at cpu r ≡ gpr_at ref r)

-- The instructions that the two commit slots of the CPU report.
abbrev pub committed : Dpi → ℕ
committed dpi = (if dpi.commit0 then 1 else 0) + (if dpi.commit1 then 1 else 0)

dpi_retire_lem : (dpi : Dpi) → dpi_retire dpi ≡ committed dpi
unfolding dpi_retire
dpi_retire_lem dpi = ground arith

module _ {T R S : Type 0} (cpu : Cpu T) (reference : Reference R S) where
  -- `states` are the reference and its memory through `count` instructions.
  abbrev pub Executes : (ℕ → R × S) → ℕ → Type 0
  Executes states count =
      (i : ℕ)
      → i < count
      → reference.exec_once false (states i).0 (states i).1 ≡ done (states (suc i))

  exec_lem :
      (count : ℕ) (states : ℕ → R × S)
      → Executes states count
      → exec cpu reference count (states 0).0 (states 0).1 ≡ done (states count)
  unfolding exec
  exec_lem zero states steps = refl
  exec_lem (suc count) states steps =
      rw (steps 0 (omega arith))
        (exec_lem count (λ i. states (suc i)) (λ i lt. steps (suc i) (omega arith)))

  -- A commit, in a running simulation. Let the CPU report one or two instructions, and let the
  -- reference, once it has taken its tick, go through as many instructions that return, from the memory
  -- as it is. Then the reference and the memory are as the last of them leaves them, and the simulation
  -- goes on running exactly if the reference's program counter and 32 registers are then the CPU's.
  -- Both states have 32 registers.
  pub commit_lem :
      (m : Sim T R S) (states : ℕ → R × S)
      → m.sim_status ≡ sim_run
      → 0 < committed (cpu.dpi m.top)
      → length (cpu_state (cpu.dpi m.top)).gpr ≡ 32
      → states 0 ≡ (reference.tick_int 0 m.ref, m.devices)
      → Executes states (committed (cpu.dpi m.top))
      → length (reference.get_state (states (committed (cpu.dpi m.top))).0).gpr ≡ 32
      → (m' : Sim T R S) × (commit cpu reference m ≡ done m')
        × (m'.ref ≡ (states (committed (cpu.dpi m.top))).0)
        × (m'.devices ≡ (states (committed (cpu.dpi m.top))).1)
        × ((m'.sim_status ≡ sim_run)
            ↔ Same (cpu_state (cpu.dpi m.top)) (reference.get_state m'.ref))
  unfolding commit verdict
  commit_lem m states running some_commit hc begins steps hr =
      let dpi = cpu.dpi m.top in
      let (ref, devices) = states (committed dpi) in
      let (res, e, (only, back)) =
        difftest_check_lem (cpu_state dpi) (reference.get_state ref) hc hr in
      let some_test : ltb 0 (committed dpi) ≡ true = ground arith in
      let ran : exec cpu reference (committed dpi) (reference.tick_int 0 m.ref) m.devices
          ≡ done (states (committed dpi)) =
        subst (λ (r, s). exec cpu reference (committed dpi) r s ≡ done (states (committed dpi)))
          begins (exec_lem (committed dpi) states steps) in
      (
        record m { ref = ref; devices = devices; sim_status = assert_sim res m.sim_status },
        rw (dpi_retire_lem dpi, some_test, ran, e) refl,
        refl,
        refl,
        (λ run. only (on res run), λ same. still res (back same)),
      )
    where
      on : (res : Bool) → assert_sim res m.sim_status ≡ sim_run → res ≡ true
      on true run = refl
      on false run = absurd (ground arith)

      still : (res : Bool) → res ≡ true → assert_sim res m.sim_status ≡ sim_run
      still true e = running
      still false e = absurd (ground arith)

module _ {D S T R : Type 0} (face : PaddrInterface D S) (paddr_top : PaddrTop D) (cpu : Cpu T)
    (reference : Reference R S) (tick_confreg : S → S) where
  -- A difference ends the simulation: once `sim_status` is SIM_ABORT, the next positive edge breaks the
  -- loop before the reference takes another tick, unless a device or a check stops the program on it.
  pub abort_ends :
      (read_random write_random : ℕ) (m : Sim T R S)
      → m.sim_status ≡ sim_abort
      → (posedge face paddr_top cpu reference tick_confreg read_random write_random m ≡ aborted)
        ⊎ (posedge face paddr_top cpu reference tick_confreg read_random write_random m ≡ fault)
        ⊎ ((m' : Sim T R S) × (posedge face paddr_top cpu reference tick_confreg read_random
                write_random m
              ≡ done (m', true))
            × (m'.ref ≡ m.ref)
            × (m'.sim_status ≡ sim_abort))
  unfolding posedge
  abort_ends read_random write_random m e =
      of_outcome
        (calculate_output face paddr_top (cpu.pins m.top) read_random write_random m.axi
          m.sim_status m.devices)
        refl
    where
      of_outcome :
          (o : Outcome (Bool × AxiPaddr × SimStatus × S))
          → calculate_output face paddr_top
              (cpu.pins m.top)
              read_random
              write_random
              m.axi
              m.sim_status
              m.devices
            ≡ o
          → (posedge face paddr_top cpu reference tick_confreg read_random write_random m ≡ aborted)
            ⊎ (posedge face paddr_top cpu reference tick_confreg read_random write_random m ≡ fault)
            ⊎ ((m' : Sim T R S) × (posedge face paddr_top cpu reference tick_confreg read_random
                    write_random m
                  ≡ done (m', true))
                × (m'.ref ≡ m.ref)
                × (m'.sim_status ≡ sim_abort))
      of_outcome aborted out = inl (rw out refl)
      of_outcome fault out = inr (inl (rw out refl))
      of_outcome (done (res, axi, sim, devices)) out =
          let still : sim ≡ sim_abort =
            calculate_output-sim_abort face paddr_top (cpu.pins m.top) read_random write_random
              m.axi m.devices (rw e at out) in
          inr (inr (moved cpu axi sim (tick_confreg devices) m, rw (out, still) refl, refl, still))
