-- ===== src/Sim/Isolation.antt =====
-- NEMU at work in its own address space, seen from the CPU's.
use my_diff.Base.{
  ℕ, zero, suc, ◌≡◌, refl, ap, subst, Option, Bool, false, List, [], ◌∷◌, done, ltb, Bool-cases,
  inl, inr, Ensures, returns, Ensures-of, Ensures-then, Ensures-bind, Ensures-if,
}
use my_diff.Base.Nemu.{Nemu}
use my_diff.Paddr.{Wen, PaddrTop}
use my_diff.Axi.{SimStatus}
use my_diff.Axi.Bus.{AxiPaddr, calculate_output, update_output}
use my_diff.Board.{Heap, Allocator, Dev, board}
use my_diff.Board.Session.{perform, get, put, keep_word}
use my_diff.Board.Frame.{Same-trans}
use my_diff.Board.Lockstep.{AllSame}
use my_diff.Board.Copy.{AllSame-refl}
use my_diff.Board.Interleave.{Separate, Separate-symm, perform-AllSame}
use my_diff.Difftest.{dpi_retire}
use my_diff.Board.Objects.{IsFile}
use my_diff.Spaces.{Spaces, set_up, tick, paddr_do_read, paddr_do_write}
use my_diff.Spaces.SetUp.{IsSetUp, set_up-IsSetUp}
use my_diff.Sim.{Cpu, Sim, moved, stopped, exec, verdict, commit, posedge}
use my_diff.Sim.Emulator.{Execution, finish, read_next, write_next, Emulator, execute, ref_init}

AllSame-trans :
    (top : PaddrTop Dev) (h h' h'' : Heap)
    → AllSame top h h'
    → AllSame top h' h''
    → AllSame top h h''
AllSame-trans [] h h' h'' e f = tt
AllSame-trans ((r, d) ∷ top) h h' h'' (e, es) (f, fs) =
    (Same-trans d h h' h'' e f, AllSame-trans top h h' h'' es fs)

-- What a positive edge leaves: the slave's outputs and, in the CPU's space, what the slave's cycle and
-- the timer's tick have left there.
abbrev pub Undisturbed :
    {T R : Type 0}
    → Nemu
    → PaddrTop Dev
    → Cpu T
    → (Heap → Heap)
    → ℕ
    → ℕ
    → Sim T R Heap
    → Sim T R Heap × Bool
    → Type 0
Undisturbed n paddr_top cpu tick_confreg read_random write_random m (m', ended) =
    (res : Bool) × (axi : AxiPaddr) × (sim : SimStatus) × (devices : Heap) × (calculate_output
        (board n) paddr_top (cpu.pins m.top) read_random write_random m.axi m.sim_status m.devices
      ≡ done (res, axi, sim, devices))
    × (m'.axi ≡ update_output axi)
    × AllSame paddr_top (tick_confreg devices) m'.devices

-- `nemu_paddr_top` is NEMU's space and `paddr_top` the CPU's.
module _ (n : Nemu) (nemu_paddr_top paddr_top : PaddrTop Dev)
    (apart : Separate nemu_paddr_top paddr_top) where
  read-AllSame :
      (addr : ℕ) (info : Wen) (word : ℕ) (h : Heap)
      → Ensures
          (λ (ok, v, h'). AllSame paddr_top h h')
          (paddr_do_read n nemu_paddr_top addr info word h)
  unfolding paddr_do_read perform
  read-AllSame addr info word h = Ensures-of _ (λ (ok, v, h') ran.
      perform-AllSame n nemu_paddr_top paddr_top (get addr info word) h h' (ok, v) apart ran)

  write-AllSame :
      (addr : ℕ) (info : Wen) (word : ℕ) (h : Heap)
      → Ensures
          (λ (ok, h'). AllSame paddr_top h h')
          (paddr_do_write n nemu_paddr_top addr info word h)
  unfolding paddr_do_write perform keep_word
  write-AllSame addr info word h = Ensures-of _ (λ (ok, h') ran.
      perform-AllSame n nemu_paddr_top paddr_top (put addr info word) h h' (ok, word) apart
        (ap (keep_word word) ran))

  module _ {T R : Type 0} (cpu : Cpu T) (emulator : Emulator R) (before : Heap) where
    -- The CPU's devices hold what they held before.
    abbrev Untouched : R × Heap → Type 0
    Untouched (r, h) = AllSame paddr_top before h

    execute-Untouched :
        (e : Execution R) (h : Heap)
        → AllSame paddr_top before h
        → Ensures Untouched (execute n nemu_paddr_top e h)
    unfolding execute
    execute-Untouched (finish r) h same = returns _ same
    execute-Untouched (read_next addr info word next) h same =
        Ensures-then (read-AllSame addr info word h) (λ (ok, v, h') more.
          execute-Untouched (next ok v) h' (AllSame-trans paddr_top before h h' same more))
    execute-Untouched (write_next addr info word next) h same =
        Ensures-then (write-AllSame addr info word h) (λ (ok, h') more.
          execute-Untouched (next ok) h' (AllSame-trans paddr_top before h h' same more))

    exec-Untouched :
        (k : ℕ) (r : R) (h : Heap)
        → AllSame paddr_top before h
        → Ensures Untouched (exec cpu (ref_init n nemu_paddr_top emulator) k r h)
    unfolding exec ref_init
    exec-Untouched zero r h same = returns _ same
    exec-Untouched (suc k) r h same =
        Ensures-then (execute-Untouched (emulator.exec_once false r) h same)
          (λ (r', h') same'. exec-Untouched k r' h' same')

    abbrev Kept : AxiPaddr → Sim T R Heap → Type 0
    Kept axi m = (m.axi ≡ axi) × AllSame paddr_top before m.devices

    commit-Kept :
        (m : Sim T R Heap)
        → AllSame paddr_top before m.devices
        → Ensures (Kept m.axi) (commit cpu (ref_init n nemu_paddr_top emulator) m)
    unfolding commit
    commit-Kept m same = elim (Bool-cases (ltb 0 (dpi_retire (cpu.dpi m.top)))) [
      | inl some_commit ↦ rw some_commit (
          Ensures-then
            (exec-Untouched (dpi_retire (cpu.dpi m.top))
              ((ref_init n nemu_paddr_top emulator).tick_int 0 m.ref) m.devices same)
            (λ (ref, devices) same'.
              Ensures-bind (verdict cpu (ref_init n nemu_paddr_top emulator) m.top ref m.sim_status)
                (λ sim. returns _ (refl, same'))))
      | inr no_commit ↦ rw no_commit (returns _ (refl, same))
    ]

  pub posedge-Undisturbed :
      {T R : Type 0} (cpu : Cpu T) (emulator : Emulator R) (tick_confreg : Heap → Heap)
      (read_random write_random : ℕ) (m : Sim T R Heap)
      → Ensures (Undisturbed n paddr_top cpu tick_confreg read_random write_random m) (
          posedge
            (board n)
            paddr_top
            cpu
            (ref_init n nemu_paddr_top emulator)
            tick_confreg
            read_random
            write_random
            m)
  unfolding posedge
  posedge-Undisturbed cpu emulator tick_confreg read_random write_random m =
      Ensures-then
        (Ensures-of
          (calculate_output (board n) paddr_top (cpu.pins m.top) read_random write_random m.axi
            m.sim_status m.devices)
          (λ out ran. ran))
        (λ (res, axi, sim, devices) ran.
          Ensures-if (stopped sim)
            (returns _ (res, axi, sim, devices, ran, refl, AllSame-refl paddr_top _))
            (Ensures-then
              (commit-Kept cpu emulator (tick_confreg devices)
                (moved cpu axi sim (tick_confreg devices) m) (AllSame-refl paddr_top _))
              (λ m' (kept, same). returns _ (res, axi, sim, devices, ran, kept, same))))

-- NEMU cannot disturb the CPU under test. In the loop of `main`, on the spaces that it has set up with a
-- file of fewer than 2 ^ 64 bytes, take any state of the simulation and any code of NEMU, which reaches
-- memory through `paddr_do_read` and `paddr_do_write` on its own space. Where a positive edge returns,
-- whatever number of instructions NEMU has executed on it, the slave's outputs are those of its own cycle,
-- and every device in the CPU's space holds what that cycle and the timer's tick have left in it.
pub posedge_isolated :
    {T R : Type 0} (n : Nemu) (allocator : Allocator) (func_bin : Option (List ℕ)) (h : Heap)
    (s : Spaces) (cpu : Cpu T) (emulator : Emulator R) (read_random write_random : ℕ)
    (m : Sim T R Heap)
    → IsFile func_bin
    → set_up n allocator func_bin h ≡ done s
    → Ensures (Undisturbed n s.paddr_top cpu (tick s.v_confreg) read_random write_random m) (
        posedge
          (board n)
          s.paddr_top
          cpu
          (ref_init n s.nemu_paddr_top emulator)
          (tick s.v_confreg)
          read_random
          write_random
          m)
posedge_isolated n allocator func_bin h s cpu emulator read_random write_random m small ran =
    let (s', ran', u') = set_up-IsSetUp n allocator func_bin h small in
    let u = subst (IsSetUp func_bin) {x = s'} {y = s} (cc) u' in
    posedge-Undisturbed n s.nemu_paddr_top s.paddr_top
      (Separate-symm s.paddr_top s.nemu_paddr_top u.separate) cpu emulator (tick s.v_confreg)
      read_random write_random m
