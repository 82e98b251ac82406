-- ===== src/Axi/Read/Handshake.antt =====
-- The read channel's outputs agree with its status.
use my_diff.Base.{ℕ, ◌≡◌, Bool, true, false, arith, done}
use my_diff.Paddr.{PaddrInterface, PaddrTop}
use my_diff.Axi.{Pins, SimStatus}
use my_diff.Axi.Read.{
  ReadStatus, idel, req_ok, wait_last, ReadState, idel_wait_read, accept_read_req, do_once_read,
  read_eval,
}

-- `s_arready` in each status, as the comments of `rstatus_t` give it.
abbrev pub arready_in : ReadStatus → Bool
arready_in idel = true
arready_in req_ok = false
arready_in wait_last = false

-- `s_rvalid` in each status.
abbrev pub rvalid_in : ReadStatus → Bool
rvalid_in idel = false
rvalid_in req_ok = false
rvalid_in wait_last = true

pub record Agrees (r : ReadState) : Type 0 where
  pub arready : r.out.arready ≡ arready_in r.status
  pub rvalid : r.out.rvalid ≡ rvalid_in r.status

module _ {D S : Type 0} (face : PaddrInterface D S) (paddr_top : PaddrTop D) where
  -- Each call of `read_eval` keeps `s_arready` and `s_rvalid` as the status says, whatever the CPU
  -- drives and the devices answer.
  pub read_eval-Agrees :
      (pins : Pins) (rlast : Bool) (random : ℕ) (r : ReadState) (sim : SimStatus) (s : S)
      {res : Bool} {r' : ReadState} {sim' : SimStatus} {s' : S}
      → Agrees r
      → read_eval face paddr_top pins rlast random r sim s ≡ done (res, r', sim', s')
      → Agrees r'
  unfolding read_eval accept_read_req do_once_read idel_wait_read
  read_eval-Agrees pins rlast random r sim s a e = ground arith
