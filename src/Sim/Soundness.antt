-- ===== src/Sim/Soundness.antt =====
-- What a run of the main loop that goes on shows: the CPU and the reference agreed after every commit.
use my_diff.Base.{
  ℕ, ◌<◌, ◌≡◌, ◌⊎◌, inl, inr, refl, Bool, true, false, not, ◌&&◌, List, [], ◌∷◌, length, arith, ltb,
  Outcome, done, aborted, fault, ◌>>=◌, Bool-cases, Ensures, returns, Ensures-of, Ensures-imp,
  Ensures-then, Ensures-bind, Ensures-done, if◌then◌else◌,
}
use my_diff.Paddr.{PaddrInterface, PaddrTop}
use my_diff.Axi.{SimStatus, sim_run, sim_abort, assert_sim}
use my_diff.Axi.Bus.{calculate_output}
use my_diff.Axi.Bus.Abort.{calculate_output-sim_abort}
use my_diff.Difftest.{Dpi, dpi_retire, dut_get_state, regfile}
use my_diff.Difftest.Check.{difftest_check_lem}
use my_diff.Sim.{
  Cpu, Reference, Sim, cpu_state, moved, stopped, exec, verdict, commit, posedge, iterate, run,
}
use my_diff.Sim.Verdict.{Same}

-- Every state of the reference has 32 registers.
abbrev pub Has32 : {R S : Type 0} → Reference R S → Type 0
Has32 {R} reference = (r : R) → length (reference.get_state r).gpr ≡ 32

cpu_state-length : (dpi : Dpi) → length (cpu_state dpi).gpr ≡ 32
unfolding dut_get_state regfile
cpu_state-length dpi = refl

module _ {T R S : Type 0} (cpu : Cpu T) (reference : Reference R S) where
  -- If the CPU has just committed, its state is the reference's.
  abbrev pub AgreesNow : Sim T R S → Type 0
  AgreesNow m =
      0 < dpi_retire (cpu.dpi m.top) → Same (cpu_state (cpu.dpi m.top)) (reference.get_state m.ref)

  -- The simulation goes on in agreement, or has failed.
  abbrev Judged : Sim T R S → Type 0
  Judged m = ((m.sim_status ≡ sim_run) × AgreesNow m) ⊎ (m.sim_status ≡ sim_abort)

  judged :
      (m : Sim T R S) (ref : R) (devices : S) (res : Bool)
      → m.sim_status ≡ sim_run
      → (res ≡ true → Same (cpu_state (cpu.dpi m.top)) (reference.get_state ref))
      → Judged (record m { ref = ref; devices = devices; sim_status = assert_sim res m.sim_status })
  judged m ref devices true running only = inl (running, λ committed. only refl)
  judged m ref devices false running only = inr refl

  commit-Judged :
      (m : Sim T R S)
      → Has32 reference
      → m.sim_status ≡ sim_run
      → Ensures Judged (commit cpu reference m)
  unfolding commit verdict
  commit-Judged m full running = elim (Bool-cases (ltb 0 (dpi_retire (cpu.dpi m.top)))) [
    | inr no_commit ↦ rw no_commit (returns _ (inl (running, λ committed. absurd (ground arith))))
    | inl some_commit ↦ rw some_commit (
        Ensures-bind
          (exec cpu reference (dpi_retire (cpu.dpi m.top)) (reference.tick_int 0 m.ref) m.devices)
          (λ (ref, devices).
            let (res, e, (only, back)) =
              difftest_check_lem (cpu_state (cpu.dpi m.top)) (reference.get_state ref)
                (cpu_state-length (cpu.dpi m.top)) (full ref) in
            rw e (returns _ (judged m ref devices res running only))))
  ]

-- Whether a turn of the loop is a positive edge after the reset phase.
abbrev pub is_posedge : {T R S : Type 0} → Sim T R S → Bool
is_posedge m = not m.aclk && not (ltb 0 m.rst_ticks)

module _ {D S T R : Type 0} (face : PaddrInterface D S) (paddr_top : PaddrTop D) (cpu : Cpu T)
    (reference : Reference R S) (tick_confreg : S → S) where
  -- The loop breaks on the turn, or goes on.
  abbrev Turned : Sim T R S × Bool → Type 0
  Turned (m, ended) = (ended ≡ true) ⊎ Judged cpu reference m

  runs_on : (sim : SimStatus) → stopped sim ≡ false → sim ≡ sim_run
  runs_on sim on = ground arith

  posedge-Turned :
      (read_random write_random : ℕ) (m : Sim T R S)
      → Has32 reference
      → Ensures Turned
          (posedge face paddr_top cpu reference tick_confreg read_random write_random m)
  unfolding posedge
  posedge-Turned read_random write_random m full =
      Ensures-bind
        (calculate_output face paddr_top (cpu.pins m.top) read_random write_random m.axi
          m.sim_status m.devices)
        (λ (res, axi, sim, devices). elim (Bool-cases (stopped sim)) [
          | inl breaks ↦ rw breaks (returns _ (inl refl))
          | inr on ↦ rw on (
              Ensures-then
                (commit-Judged cpu reference (moved cpu axi sim (tick_confreg devices) m) full
                  (runs_on sim on))
                (λ m' good. returns _ (inr good)))
        ])

  -- A turn that goes on from a running simulation: on a positive edge the states agree after a commit.
  abbrev Sound : Sim T R S → Sim T R S → Type 0
  Sound m m' = (m'.sim_status ≡ sim_run) × (is_posedge m ≡ true → AgreesNow cpu reference m')

  abbrev Stepped : Sim T R S → Sim T R S × Bool → Type 0
  Stepped m (m', ended) = (ended ≡ true) ⊎ Sound m m' ⊎ (m'.sim_status ≡ sim_abort)

  Stepped-intro : (m m' : Sim T R S) (ended : Bool) → Turned (m', ended) → Stepped m (m', ended)
  Stepped-intro m m' ended (inl breaks) = inl breaks
  Stepped-intro m m' ended (inr (inl (running, agree))) = inr (inl (running, λ edge. agree))
  Stepped-intro m m' ended (inr (inr failed)) = inr (inr failed)

  iterate-Stepped :
      (read_random write_random : ℕ) (m : Sim T R S)
      → Has32 reference
      → m.sim_status ≡ sim_run
      → Ensures
          (Stepped m)
          (iterate face paddr_top cpu reference tick_confreg read_random write_random m)
  unfolding iterate
  iterate-Stepped read_random write_random m full running = elim (Bool-cases (is_posedge m)) [
    | inl edge ↦ rw edge (
        Ensures-imp (posedge-Turned read_random write_random _ full)
          (λ (m', ended). Stepped-intro m m' ended))
    | inr quiet ↦ rw quiet (returns _ (inr (inl (running, λ edge. absurd (ground arith)))))
  ]

  -- A simulation that has failed breaks, or stays failed.
  abbrev Failed : Sim T R S × Bool → Type 0
  Failed (m, ended) = (ended ≡ true) ⊎ (m.sim_status ≡ sim_abort)

  posedge-Failed :
      (read_random write_random : ℕ) (m : Sim T R S)
      → m.sim_status ≡ sim_abort
      → Ensures Failed
          (posedge face paddr_top cpu reference tick_confreg read_random write_random m)
  unfolding posedge
  posedge-Failed read_random write_random m failed =
      Ensures-then
        (Ensures-of
          (calculate_output face paddr_top (cpu.pins m.top) read_random write_random m.axi
            m.sim_status m.devices)
          (λ out ran. ran))
        (λ (res, axi, sim, devices) ran.
          let still : sim ≡ sim_abort =
            calculate_output-sim_abort face paddr_top (cpu.pins m.top) read_random write_random
              m.axi m.devices (rw failed at ran) in
          rw still (returns _ (inl refl)))

  iterate-Failed :
      (read_random write_random : ℕ) (m : Sim T R S)
      → m.sim_status ≡ sim_abort
      → Ensures Failed
          (iterate face paddr_top cpu reference tick_confreg read_random write_random m)
  unfolding iterate
  iterate-Failed read_random write_random m failed = elim (Bool-cases (is_posedge m)) [
    | inl edge ↦ rw edge (posedge-Failed read_random write_random _ failed)
    | inr quiet ↦ rw quiet (returns _ (inr failed))
  ]

  goes_on :
      (o : Outcome (Sim T R S × Bool)) (k : Sim T R S → Outcome (Sim T R S × Bool)) (m' : Sim T R S)
      → (o >>= λ (m₁, ended). if ended then done (m₁, true) else k m₁) ≡ done (m', false)
      → (m₁ : Sim T R S) × (o ≡ done (m₁, false)) × (k m₁ ≡ done (m', false))
  goes_on (done (m₁, true)) k m' e = absurd (ground arith)
  goes_on (done (m₁, false)) k m' e = (m₁, refl, e)
  goes_on aborted k m' e = absurd (ground arith)
  goes_on fault k m' e = absurd (ground arith)

  -- A loop that goes on has gone through its first turn, and goes on from there.
  first_turn :
      (read_random write_random : ℕ) (randoms : List (ℕ × ℕ)) (m m' : Sim T R S)
      → run face paddr_top cpu reference tick_confreg ((read_random, write_random) ∷ randoms) m
        ≡ done (m', false)
      → (m₁ : Sim T R S) × (iterate face paddr_top cpu reference tick_confreg read_random
            write_random m
          ≡ done (m₁, false))
        × (run face paddr_top cpu reference tick_confreg randoms m₁ ≡ done (m', false))
  unfolding run
  first_turn read_random write_random randoms m m' ran = elim (Bool-cases (cpu.got_finish m.top)) [
    | inl finished ↦ absurd (ground arith)
    | inr alive ↦
        goes_on (iterate face paddr_top cpu reference tick_confreg read_random write_random m)
          (run face paddr_top cpu reference tick_confreg randoms) m' (rw alive at ran)
  ]

  not_broken : {P : Type 0} → (false ≡ true) ⊎ P → P
  not_broken (inl breaks) = absurd (ground arith)
  not_broken (inr p) = p

  run_failed :
      (randoms : List (ℕ × ℕ)) (m m' : Sim T R S)
      → m.sim_status ≡ sim_abort
      → run face paddr_top cpu reference tick_confreg randoms m ≡ done (m', false)
      → m'.sim_status ≡ sim_abort
  run_failed [] m m' failed ran = unfold run in ground arith
  run_failed ((read_random, write_random) ∷ randoms) m m' failed ran =
      let (m₁, turn, rest) = first_turn read_random write_random randoms m m' ran in
      run_failed randoms m₁ m'
        (not_broken (Ensures-done (iterate-Failed read_random write_random m failed) turn)) rest

  -- The turns of a loop that goes on, with the agreement on each positive edge.
  pub data Agreed : List (ℕ × ℕ) → Sim T R S → Sim T R S → Type 0 where
    stay : {m m' : Sim T R S} → m ≡ m' → Agreed [] m m'
    turn :
        {read_random write_random : ℕ} {randoms : List (ℕ × ℕ)} {m m₁ m' : Sim T R S}
        → iterate face paddr_top cpu reference tick_confreg read_random write_random m
          ≡ done (m₁, false)
        → (is_posedge m ≡ true → AgreesNow cpu reference m₁)
        → Agreed randoms m₁ m'
        → Agreed ((read_random, write_random) ∷ randoms) m m'

  -- A simulation that goes on has been checked. With a reference whose states have 32 registers, from a
  -- running simulation, let the loop go through any number of turns without an end, and be running still.
  -- Then every turn went on, and on each positive edge after the reset phase on which the CPU committed
  -- an instruction, its program counter and its 32 registers were then those of the reference.
  pub run_checked :
      (randoms : List (ℕ × ℕ)) (m m' : Sim T R S)
      → Has32 reference
      → m.sim_status ≡ sim_run
      → run face paddr_top cpu reference tick_confreg randoms m ≡ done (m', false)
      → m'.sim_status ≡ sim_run
      → Agreed randoms m m'
  run_checked [] m m' full running ran ends =
      let same : m ≡ m' = unfold run in ground arith in stay same
  run_checked ((read_random, write_random) ∷ randoms) m m' full running ran ends =
      let (m₁, turned, rest) = first_turn read_random write_random randoms m m' ran in
      elim (not_broken
        (Ensures-done (iterate-Stepped read_random write_random m full running) turned)) [
          | inl (on, agree) ↦ turn turned agree (run_checked randoms m₁ m' full on rest ends)
          | inr failed ↦
              let dead : m'.sim_status ≡ sim_abort = run_failed randoms m₁ m' failed rest in
              absurd (ground (arith, dead, ends))
        ]
