-- ===== src/Sim/Program.antt =====
-- `main` of csrc/diff-main.cpp: the set-up of the address spaces, and the loop on them.
use my_diff.Base.{ℕ, ◌≡◌, Bool, false, List, Option, length, arith, Outcome, done, ◌>>=◌}
use my_diff.Base.Nemu.{Nemu}
use my_diff.Axi.{sim_run}
use my_diff.Axi.Bus.{AxiPaddr}
use my_diff.Axi.Bus.Handshake.{AgreesBus}
use my_diff.Board.{Heap, Allocator, board}
use my_diff.Board.Objects.{IsFile}
use my_diff.Spaces.{Spaces, set_up, tick}
use my_diff.Spaces.SetUp.{set_up-IsSetUp}
use my_diff.Sim.{Cpu, Sim, run}
use my_diff.Sim.Emulator.{Emulator, ref_init}
use my_diff.Sim.Reset.{reset_phase}

-- The variables of the loop before its first turn.
abbrev pub start : {T R S : Type 0} → T → AxiPaddr → R → S → Sim T R S
start top axi ref devices = record {
  top = top;
  axi = axi;
  ref = ref;
  devices = devices;
  sim_status = sim_run;
  ticks = 0;
  rst_ticks = 5;
  aclk = false;
}

module _ {T R : Type 0} (n : Nemu) (allocator : Allocator) (cpu : Cpu T)
    (emulator : Emulator R) where
  -- The part of `main` on the spaces that are set up.
  pub loop : T → AxiPaddr → R → List (ℕ × ℕ) → Spaces → Outcome (Sim T R Heap × Bool)
  loop top axi ref randoms s =
      run (board n) s.paddr_top cpu (ref_init n s.nemu_paddr_top emulator) (tick s.v_confreg)
        randoms (start top axi ref s.heap)

  -- `main`, for as many turns of its loop as there are pairs of numbers from `rand()`.
  pub main :
      Option (List ℕ) → T → AxiPaddr → R → List (ℕ × ℕ) → Heap → Outcome (Sim T R Heap × Bool)
  unfolding loop
  main func_bin top axi ref randoms h = do
    s ← set_up n allocator func_bin h
    loop top axi ref randoms s

  -- `main`, with a CPU that does not call `$finish`, gets through the reset phase: after its first
  -- five turns the devices are as they were set up, the reference has not moved, five ticks are
  -- counted and the slave's outputs are those of its channels' states. The file has fewer than
  -- 2 ^ 64 bytes.
  pub main_reset :
      (func_bin : Option (List ℕ)) (top : T) (axi : AxiPaddr) (ref : R) (randoms : List (ℕ × ℕ))
      (h : Heap)
      → IsFile func_bin
      → ((t : T) → cpu.got_finish t ≡ false)
      → length randoms ≡ 5
      → (s : Spaces) × (m : Sim T R Heap) × (set_up n allocator func_bin h ≡ done s)
        × (main func_bin top axi ref randoms h ≡ done (m, false))
        × (m.devices ≡ s.heap)
        × (m.ref ≡ ref)
        × (m.sim_status ≡ sim_run)
        × (m.rst_ticks ≡ 0)
        × (m.ticks ≡ 5)
        × AgreesBus m.axi
  unfolding main
  main_reset func_bin top axi ref randoms h small alive five =
      let (s, ready, _) = set_up-IsSetUp n allocator func_bin h small in
      let (m, ran, held, left, counted, agrees) =
        reset_phase (board n) s.paddr_top cpu (ref_init n s.nemu_paddr_top emulator)
          (tick s.v_confreg) randoms (start top axi ref s.heap) alive (omega (arith, five))
          (omega (arith, five)) in
      (
        s,
        m,
        ready,
        rw ready ran,
        held.devices,
        held.ref,
        held.sim_status,
        left,
        omega (arith, counted, five),
        agrees,
      )
