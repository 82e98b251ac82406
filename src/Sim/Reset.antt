-- ===== src/Sim/Reset.antt =====
-- The first turns of the main loop, in which the CPU and the slave are held in reset.
use my_diff.Base.{
  ℕ, suc, ◌+◌, ◌-◌, ◌<◌, ◌≡◌, refl, ◌∙◌, Bool, true, false, not, ◌&&◌, sym, subst, List, [], ◌∷◌,
  length, arith, ltb, done,
}
use my_diff.Paddr.{PaddrInterface, PaddrTop}
use my_diff.Axi.Bus.{reset}
use my_diff.Axi.Bus.Handshake.{AgreesBus, reset-AgreesBus}
use my_diff.Sim.{Cpu, Reference, Sim, iterate, run}

and_false : (b : Bool) → (b && false) ≡ false
and_false true = refl
and_false false = refl

module _ {D S T R : Type 0} (face : PaddrInterface D S) (paddr_top : PaddrTop D) (cpu : Cpu T)
    (reference : Reference R S) (tick_confreg : S → S) where
  -- A simulation that differs from `m` in the CPU, the slave's state and the counters alone.
  pub record Held (m m' : Sim T R S) : Type 0 where
    pub ref : m'.ref ≡ m.ref
    pub devices : m'.devices ≡ m.devices
    pub sim_status : m'.sim_status ≡ m.sim_status

  one_turn :
      (read_random write_random n : ℕ) (m : Sim T R S)
      → m.rst_ticks ≡ suc n
      → (m' : Sim T R S) × (iterate face paddr_top cpu reference tick_confreg read_random
            write_random m
          ≡ done (m', false))
        × Held m m'
        × (m'.rst_ticks ≡ n)
        × (m'.ticks ≡ m.ticks + 1)
        × (m'.axi ≡ reset m.axi)
  unfolding iterate
  one_turn read_random write_random n m e =
      let resetting : ltb 0 m.rst_ticks ≡ true = ground arith in
      (
        record m {
          top = cpu.eval (not m.aclk) false (reset m.axi).read_pins (reset m.axi).write_pins m.top;
          axi = reset m.axi;
          rst_ticks = m.rst_ticks - 1;
          aclk = not m.aclk;
          ticks = m.ticks + 1;
        },
        rw (resetting, and_false (not m.aclk)) refl,
        record { ref = refl; devices = refl; sim_status = refl },
        omega (arith, e),
        refl,
        refl,
      )

  -- The reset phase touches neither the devices nor the reference. For a CPU that does not finish, with at least one and as many turns
  -- as `rst_ticks` says, whatever the CPU drives, the loop goes on, `rst_ticks` is 0, `ticks` has counted
  -- the turns, and the slave's outputs are those of its channels' states.
  pub reset_phase :
      (randoms : List (ℕ × ℕ)) (m : Sim T R S)
      → ((t : T) → cpu.got_finish t ≡ false)
      → 0 < length randoms
      → m.rst_ticks ≡ length randoms
      → (m' : Sim T R S) × (run face paddr_top cpu reference tick_confreg randoms m
          ≡ done (m', false))
        × Held m m'
        × (m'.rst_ticks ≡ 0)
        × (m'.ticks ≡ m.ticks + length randoms)
        × AgreesBus m'.axi
  unfolding run
  reset_phase [] m alive some_turn e = absurd (omega arith)
  reset_phase (pair ∷ []) m alive some_turn e =
      let (m', turn, held, left, counted, idle) = one_turn pair.0 pair.1 0 m (omega arith) in
      (
        m',
        rw (alive m.top, turn) refl,
        held,
        left,
        counted,
        subst AgreesBus (sym idle) (reset-AgreesBus m.axi),
      )
  reset_phase (pair ∷ next ∷ randoms) m alive some_turn e =
      let (m₁, turn, held, left, counted, _) =
        one_turn pair.0 pair.1 (length (next ∷ randoms)) m e in
      let (m₂, rest, held₂, left₂, counted₂, agrees) =
        reset_phase (next ∷ randoms) m₁ alive (omega arith) left in
      (
        m₂,
        rw (alive m.top, turn, rest) refl,
        record {
          ref = held₂.ref ∙ held.ref;
          devices = held₂.devices ∙ held.devices;
          sim_status = held₂.sim_status ∙ held.sim_status;
        },
        left₂,
        omega (arith, counted, counted₂),
        agrees,
      )
