-- ===== src/Sim.antt =====
-- csrc/diff-main.cpp: the main loop, which runs the CPU against the AXI slave and compares it with the
-- reference after each commit.
pub mod Verdict
pub mod Soundness
pub mod Reset
pub mod Emulator
pub mod Isolation
pub mod Program
pub mod Golden
pub mod Args
pub mod Start
mod Tests
use my_diff.Base.{
  ℕ, zero, suc, ◌+◌, ◌-◌, Bool, true, false, not, ◌&&◌, List, [], ◌∷◌, ltb, ◌==◌, if◌then◌else◌,
  Outcome, done, ◌>>=◌,
}
use my_diff.Paddr.{PaddrInterface, PaddrTop}
use my_diff.Axi.{Pins, SimStatus, sim_run, assert_sim}
use my_diff.Axi.Read.{ReadOut}
use my_diff.Axi.Write.{WriteOut}
use my_diff.Axi.Bus.{AxiPaddr, reset, update_output, calculate_output}
use my_diff.Difftest.{DiffState, Dpi, difftest_check, dpi_retire, dut_get_state}

-- The Verilated CPU, `Vmycpu_top`: what it drives, what it exports, whether it has
-- called `$finish`, and its evaluation at given levels
-- of `aclk` and `aresetn` and of the pins that the slave drives.
pub record Cpu (T : Type 0) : Type 0 where
  pub eval : Bool → Bool → ReadOut → WriteOut → T → T
  pub pins : T → Pins
  pub dpi : T → Dpi
  pub got_finish : T → Bool

-- The reference, NEMU, through its functions `ref_…`. An instruction reads and writes the memory that
-- the devices of NEMU's address space live in, and an assertion there can stop the program.
pub record Reference (R S : Type 0) : Type 0 where
  pub tick_int : ℕ → R → R
  pub exec_once : Bool → R → S → Outcome (R × S)
  pub get_state : R → DiffState

-- The variables of the loop and the objects that it works on.
pub record Sim (T R S : Type 0) : Type 0 where
  pub top : T
  pub axi : AxiPaddr
  pub ref : R
  pub devices : S
  pub sim_status : SimStatus
  pub ticks : ℕ
  pub rst_ticks : ℕ
  pub aclk : Bool

-- `sim_status != SIM_RUN`.
abbrev pub stopped : SimStatus → Bool
stopped sim_run = false
stopped _ = true

-- A `diff_state` before it is filled in; what is in it is not read.
abbrev unset : DiffState
unset = record { pc = 0; hi = 0; lo = 0; gpr = [] }

-- The state that the simulator gets from the CPU.
abbrev pub cpu_state : Dpi → DiffState
cpu_state dpi = dut_get_state dpi unset

module _ {T R S : Type 0} (cpu : Cpu T) (reference : Reference R S) where
  -- The loop that lets the reference execute as many instructions as the CPU has committed.
  unfoldable pub exec : ℕ → R → S → Outcome (R × S)
  exec zero r s = done (r, s)
  exec (suc n) r s = do (r', s') ← reference.exec_once false r s; exec n r' s'

  -- The comparison after a commit.
  pub verdict : T → R → SimStatus → Outcome SimStatus
  verdict top r sim = do
    res ← difftest_check (cpu_state (cpu.dpi top)) (reference.get_state r)
    done (assert_sim res sim)

  -- What follows a positive edge on which the simulation still runs.
  unfoldable pub commit : Sim T R S → Outcome (Sim T R S)
  unfolding exec verdict
  commit m =
      let ticked = reference.tick_int 0 m.ref in
      let commit_num = dpi_retire (cpu.dpi m.top) in
      if ltb 0 commit_num
      then (do
        (ref, devices) ← exec commit_num ticked m.devices
        sim ← verdict m.top ref m.sim_status
        done (record m { ref = ref; devices = devices; sim_status = sim }))
      else done (record m { ref = ticked })

-- The variables after the slave, the CPU and the timer have moved.
abbrev pub moved : {T R S : Type 0} → Cpu T → AxiPaddr → SimStatus → S → Sim T R S → Sim T R S
moved cpu axi sim devices m = record m {
  top = cpu.eval true true m.axi.read_pins m.axi.write_pins m.top;
  axi = update_output axi;
  devices = devices;
  sim_status = sim;
}

module _ {D S T R : Type 0} (face : PaddrInterface D S) (paddr_top : PaddrTop D) (cpu : Cpu T)
    (reference : Reference R S) (tick_confreg : S → S) where
  -- The positive edge, once reset is over; the Boolean says that the loop breaks.
  unfoldable pub posedge : ℕ → ℕ → Sim T R S → Outcome (Sim T R S × Bool)
  unfolding commit
  posedge read_random write_random m = do
    (res, axi, sim, devices) ←
        calculate_output face paddr_top (cpu.pins m.top) read_random write_random m.axi m.sim_status
          m.devices
    let after = moved cpu axi sim (tick_confreg devices) m
    if stopped sim
        then done (after, true)
        else (commit cpu reference after >>= λ m'. done (record m' { ticks = m'.ticks + 1 }, false))

  -- The body of the `while` loop; `rand()` gives the two numbers where the channels call it.
  pub iterate : ℕ → ℕ → Sim T R S → Outcome (Sim T R S × Bool)
  unfolding posedge
  iterate read_random write_random m =
      let resetting = ltb 0 m.rst_ticks in
      let begun = record m {
        rst_ticks = m.rst_ticks - 1;
        axi = if resetting then reset m.axi else m.axi;
        aclk = not m.aclk;
      } in
      if begun.aclk && not resetting
      then posedge read_random write_random begun
      else done (
        record begun {
          top =
              cpu.eval begun.aclk (not resetting) begun.axi.read_pins begun.axi.write_pins
                begun.top;
          ticks = begun.ticks + 1;
        },
        false,
      )

  -- The `while` loop for as many turns as there are pairs of numbers from `rand()`; the Boolean says
  -- that it has ended.
  pub run : List (ℕ × ℕ) → Sim T R S → Outcome (Sim T R S × Bool)
  run [] m = done (m, false)
  run ((read_random, write_random) ∷ randoms) m =
      if cpu.got_finish m.top
      then done (m, true)
      else (iterate read_random write_random m >>= λ (m', ended).
          if ended then done (m', true) else run randoms m')
