-- ===== src/Axi/Bus/Handshake.antt =====
-- The handshake of both channels, over any run of the main loop's cycles.
use my_diff.Base.{ℕ, ◌≡◌, ◌≢◌, refl, Bool, List, [], ◌∷◌, arith, Outcome, done, ◌>>=◌, bind-done}
use my_diff.Paddr.{PaddrInterface, PaddrTop}
use my_diff.Axi.{Pins, SimStatus, sim_abort}
use my_diff.Axi.Read.{idel_wait_read}
use my_diff.Axi.Read.Handshake.{Agrees, arready_in, rvalid_in, read_eval-Agrees}
use my_diff.Axi.Write.{idel_wait_write}
use my_diff.Axi.Write.Handshake.{
  AgreesWrite, awready_in, wready_in, bvalid_in, write_eval-AgreesWrite,
}
use my_diff.Axi.Bus.{AxiPaddr, reset, update_output, calculate_output}

pub record AgreesBus (a : AxiPaddr) : Type 0 where
  pub read : Agrees a.read
  pub write : AgreesWrite a.write

-- What the CPU sees: the pins of the last `update_output`.
pub record Shows (a : AxiPaddr) : Type 0 where
  pub arready : a.read_pins.arready ≡ arready_in a.read.status
  pub rvalid : a.read_pins.rvalid ≡ rvalid_in a.read.status
  pub awready : a.write_pins.awready ≡ awready_in a.write.status
  pub wready : a.write_pins.wready ≡ wready_in a.write.status
  pub bvalid : a.write_pins.bvalid ≡ bvalid_in a.write.status

pub reset-AgreesBus : (a : AxiPaddr) → AgreesBus (reset a)
unfolding reset idel_wait_read idel_wait_write
reset-AgreesBus a = record {
  read = record { arready = refl; rvalid = refl };
  write = record { awready = refl; wready = refl; bvalid = refl };
}

update_output-Shows : (a : AxiPaddr) → AgreesBus a → Shows (update_output a)
unfolding update_output
update_output-Shows a h = record {
  arready = h.read.arready;
  rvalid = h.read.rvalid;
  awready = h.write.awready;
  wready = h.write.wready;
  bvalid = h.write.bvalid;
}

module _ {D S : Type 0} (face : PaddrInterface D S) (paddr_top : PaddrTop D) where
  -- One cycle: `calculate_output`, and then `update_output`; `rand()` gives the two numbers.
  unfoldable pub bus_cycle :
      Pins × ℕ × ℕ → AxiPaddr → SimStatus → S → Outcome (Bool × AxiPaddr × SimStatus × S)
  bus_cycle (pins, read_random, write_random) a sim s = do
    (res, a', sim', s') ← calculate_output face paddr_top pins read_random write_random a sim s
    done (res, update_output a', sim', s')

  -- The cycles that one after another return without SIM_ABORT.
  pub data Runs
      : List (Pins × ℕ × ℕ) → AxiPaddr → SimStatus → S → AxiPaddr → SimStatus → S → Type 0 where
    stay : {a : AxiPaddr} {sim : SimStatus} {s : S} → Runs [] a sim s a sim s
    then_cycle :
        {cycles : List (Pins × ℕ × ℕ)} {a b c : AxiPaddr} {sim sim' sim'' : SimStatus}
        {s s' s'' : S} {drive : Pins × ℕ × ℕ} {res : Bool}
        → bus_cycle drive a sim s ≡ done (res, b, sim', s')
        → sim' ≢ sim_abort
        → Runs cycles b sim' s' c sim'' s''
        → Runs (drive ∷ cycles) a sim s c sim'' s''

  calculate_output-AgreesBus :
      (pins : Pins) (read_random write_random : ℕ) (a : AxiPaddr) (sim : SimStatus) (s : S)
      {res : Bool} {a' : AxiPaddr} {sim' : SimStatus} {s' : S}
      → AgreesBus a
      → calculate_output face paddr_top pins read_random write_random a sim s
        ≡ done (res, a', sim', s')
      → sim' ≢ sim_abort
      → AgreesBus a'
  unfolding calculate_output
  calculate_output-AgreesBus pins read_random write_random a sim s h e ok =
      let ((read_res, read, sim₁, s₁), reads, rest) = bind-done _ _ _ e in
      let ((write_res, write, sim₂, s₂), writes, ends) = bind-done _ _ _ rest in
      let still : sim₂ ≢ sim_abort = ground arith in
      let r : Agrees read =
        read_eval-Agrees face paddr_top pins a.read_pins.rlast read_random a.read sim s h.read
          reads in
      let w : AgreesWrite write =
        write_eval-AgreesWrite face paddr_top pins write_random a.write sim₁ s₁ h.write writes
          still in
      ground arith

  cycle-AgreesBus :
      (drive : Pins × ℕ × ℕ) (a : AxiPaddr) (sim : SimStatus) (s : S) {res : Bool} {b : AxiPaddr}
      {sim' : SimStatus} {s' : S}
      → AgreesBus a
      → bus_cycle drive a sim s ≡ done (res, b, sim', s')
      → sim' ≢ sim_abort
      → AgreesBus b × Shows b
  unfolding bus_cycle update_output
  cycle-AgreesBus (pins, read_random, write_random) a sim s h e ok =
      let ((res₁, a₁, sim₁, s₁), out, ends) = bind-done _ _ _ e in
      let still : sim₁ ≢ sim_abort = ground arith in
      let agrees : AgreesBus a₁ =
        calculate_output-AgreesBus pins read_random write_random a sim s h out still in
      let shows : Shows (update_output a₁) = update_output-Shows a₁ agrees in ground arith

  handshake_kept :
      (cycles : List (Pins × ℕ × ℕ)) (a b : AxiPaddr) (sim sim' : SimStatus) (s s' : S)
      → AgreesBus a × Shows a
      → Runs cycles a sim s b sim' s'
      → AgreesBus b × Shows b
  handshake_kept [] a b sim sim' s s' h stay = h
  handshake_kept (drive ∷ cycles) a b sim sim' s s' h (then_cycle out ok rest) =
      handshake_kept cycles _ b _ sim' _ s' (cycle-AgreesBus drive a sim s h.0 out ok) rest

  -- The handshake pins are right after every cycle. From `reset` on, after any number of cycles, at
  -- least one, that return and do not set SIM_ABORT, with any signals from the CPU and any answers of
  -- the devices, the pins show: `arready` exactly while no read is under way, `rvalid` exactly while
  -- beats are sent, `awready` exactly while no write is under way, `wready` exactly while data are
  -- awaited, `bvalid` exactly while the response waits for the CPU.
  pub handshake_invariant :
      (drive : Pins × ℕ × ℕ) (cycles : List (Pins × ℕ × ℕ)) (a b : AxiPaddr) (sim sim' : SimStatus)
      (s s' : S)
      → Runs (drive ∷ cycles) (reset a) sim s b sim' s'
      → Shows b
  handshake_invariant drive cycles a b sim sim' s s' (then_cycle out ok rest) =
      (handshake_kept cycles _ b _ sim' _ s'
        (cycle-AgreesBus drive (reset a) sim s (reset-AgreesBus a) out ok) rest).1
