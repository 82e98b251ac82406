-- ===== src/Axi/Write/Handshake.antt =====
-- The write channel's outputs agree with its status.
use my_diff.Base.{ℕ, ◌≡◌, ◌≢◌, Bool, true, false, arith, done}
use my_diff.Paddr.{PaddrInterface, PaddrTop}
use my_diff.Axi.{Pins, SimStatus, sim_abort}
use my_diff.Axi.Write.{
  WriteStatus, idel, req_ok, wait_back, WriteState, idel_wait_write, accept_write_req,
  accept_write_data, last_data, more_data, do_all_write, start_write, take_data, wait_write,
  write_eval, set_wrap,
}

-- The outputs in each status, as the comments of `wstatus_t` give them.
abbrev pub awready_in : WriteStatus → Bool
awready_in idel = true
awready_in _ = false

abbrev pub wready_in : WriteStatus → Bool
wready_in req_ok = true
wready_in _ = false

abbrev pub bvalid_in : WriteStatus → Bool
bvalid_in wait_back = true
bvalid_in _ = false

pub record AgreesWrite (w : WriteState) : Type 0 where
  pub awready : w.out.awready ≡ awready_in w.status
  pub wready : w.out.wready ≡ wready_in w.status
  pub bvalid : w.out.bvalid ≡ bvalid_in w.status

module _ {D S : Type 0} (face : PaddrInterface D S) (paddr_top : PaddrTop D) where
  -- Each call of `write_eval` that returns keeps `s_awready`, `s_wready` and `s_bvalid` as the status
  -- says, whatever the devices answer, as long as no check has set SIM_ABORT.
  pub write_eval-AgreesWrite :
      (pins : Pins) (random : ℕ) (w : WriteState) (sim : SimStatus) (s : S) {res : Bool}
      {w' : WriteState} {sim' : SimStatus} {s' : S}
      → AgreesWrite w
      → write_eval face paddr_top pins random w sim s ≡ done (res, w', sim', s')
      → sim' ≢ sim_abort
      → AgreesWrite w'
  unfolding write_eval idel_wait_write start_write take_data wait_write accept_write_req set_wrap
      accept_write_data last_data more_data do_all_write
  write_eval-AgreesWrite pins random w sim s a e ok = ground arith
