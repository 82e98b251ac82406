-- ===== src/Axi/Write/Abort.antt =====
-- SIM_ABORT stays in the write channel.
use my_diff.Base.{ℕ, ◌≡◌, Bool, arith, u8, ◌+◌, done}
use my_diff.Paddr.{PaddrInterface, PaddrTop}
use my_diff.Axi.{Pins, SimStatus, sim_abort, bytes_of, of_signal}
use my_diff.Axi.Request.{check_axi_req-sim_abort}
use my_diff.Axi.Write.{
  WriteState, write_eval, start_write, accept_write_req, take_data, accept_write_data, last_data,
  more_data, wait_write,
}

module _ {D S : Type 0} (face : PaddrInterface D S) (paddr_top : PaddrTop D) where
  pub write_eval-sim_abort :
      (pins : Pins) (random : ℕ) (w : WriteState) (sim : SimStatus) (s : S) {res : Bool}
      {w' : WriteState} {sim' : SimStatus} {s' : S}
      → sim ≡ sim_abort
      → write_eval face paddr_top pins random w sim s ≡ done (res, w', sim', s')
      → sim' ≡ sim_abort
  unfolding write_eval start_write accept_write_req take_data accept_write_data last_data more_data
      wait_write
  write_eval-sim_abort pins random w sim s ab e = ground (
    arith,
    check_axi_req-sim_abort (bytes_of pins.awsize) (of_signal pins.awburst) pins.awaddr
        (u8 (pins.awlen + 1)),
  )
