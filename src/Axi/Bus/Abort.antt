-- ===== src/Axi/Bus/Abort.antt =====
-- SIM_ABORT stays once it is set.
use my_diff.Base.{ℕ, ◌≡◌, Bool, arith, done, bind-done}
use my_diff.Paddr.{PaddrInterface, PaddrTop}
use my_diff.Axi.{Pins, SimStatus, sim_abort}
use my_diff.Axi.Write.Abort.{write_eval-sim_abort}
use my_diff.Axi.Read.Abort.{read_eval-sim_abort}
use my_diff.Axi.Bus.{AxiPaddr, calculate_output}

module _ {D S : Type 0} (face : PaddrInterface D S) (paddr_top : PaddrTop D) where
  pub calculate_output-sim_abort :
      (pins : Pins) (read_random write_random : ℕ) (a : AxiPaddr) (s : S) {res : Bool}
      {a' : AxiPaddr} {sim' : SimStatus} {s' : S}
      → calculate_output face paddr_top pins read_random write_random a sim_abort s
        ≡ done (res, a', sim', s')
      → sim' ≡ sim_abort
  unfolding calculate_output
  calculate_output-sim_abort pins read_random write_random a s e =
      let ((read_res, read, sim₁, s₁), reads, rest) = bind-done _ _ _ e in
      let ((write_res, write, sim₂, s₂), writes, ends) = bind-done _ _ _ rest in
      let first : sim₁ ≡ sim_abort =
        read_eval-sim_abort face paddr_top pins a.read_pins.rlast read_random a.read s reads in
      let second : sim₂ ≡ sim_abort =
        write_eval-sim_abort face paddr_top pins write_random a.write sim₁ s₁ first writes in
      ground arith
