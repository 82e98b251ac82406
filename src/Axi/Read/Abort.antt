-- ===== src/Axi/Read/Abort.antt =====
-- SIM_ABORT stays in the read channel.
use my_diff.Base.{ℕ, ◌≡◌, Bool, arith, u8, ◌+◌, done}
use my_diff.Paddr.{PaddrInterface, PaddrTop}
use my_diff.Axi.{Pins, SimStatus, sim_abort, bytes_of, of_signal}
use my_diff.Axi.Request.{check_axi_req-sim_abort}
use my_diff.Axi.Read.{ReadState, read_eval, start_read, accept_read_req}

module _ {D S : Type 0} (face : PaddrInterface D S) (paddr_top : PaddrTop D) where
  pub read_eval-sim_abort :
      (pins : Pins) (rlast : Bool) (random : ℕ) (r : ReadState) (s : S) {res : Bool}
      {r' : ReadState} {sim' : SimStatus} {s' : S}
      → read_eval face paddr_top pins rlast random r sim_abort s ≡ done (res, r', sim', s')
      → sim' ≡ sim_abort
  unfolding read_eval start_read accept_read_req
  read_eval-sim_abort pins rlast random r s e = ground (
    arith,
    check_axi_req-sim_abort (bytes_of pins.arsize) (of_signal pins.arburst) pins.araddr
        (u8 (pins.arlen + 1)),
  )
