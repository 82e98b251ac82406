-- ===== src/Axi/Read.antt =====
-- The read channel of `axi_paddr`.
pub mod Abort
pub mod Handshake
pub mod Beats
pub mod Transaction
pub mod Data
pub mod Words
use my_diff.Base.{
  ℕ, ◌+◌, ◌-◌, ◌%◌, ◌^◌, Bool, true, false, ◌&&◌, ◌==◌, if◌then◌else◌, u8, u32, Outcome, done,
  aborted, ◌>>=◌,
}
use my_diff.Paddr.{Wen, PaddrInterface, PaddrTop}
use my_diff.Paddr
use my_diff.Axi.{
  Burst, fixed, incr, wrap, reserved, of_signal, resp_okey, resp_decerr, SimStatus, Pins, bytes_of,
  check_axi_req, wrap_mask, wrap_base, next_addr,
}

-- `rstatus_t`.
pub data ReadStatus : Type 0 where
  idel req_ok wait_last : ReadStatus

-- The outputs `s_arready`, `s_rid`, … that `update_output` puts on the pins.
pub record ReadOut : Type 0 where
  pub arready : Bool
  pub rid : ℕ
  pub rdata : ℕ
  pub rresp : ℕ
  pub rlast : Bool
  pub rvalid : Bool

-- The members `r_…`.
pub record ReadState : Type 0 where
  pub status : ReadStatus
  pub burst_count : ℕ
  pub left_time : ℕ
  pub wrap_off_mask : ℕ
  pub wrap_bound : ℕ
  pub burst_type : Burst
  pub cur_addr : ℕ
  pub cur_info : Wen
  pub cur_id : ℕ
  pub out : ReadOut

-- `rand_delay()`, of the number that `rand()` returns.
abbrev pub rand_delay : ℕ → ℕ
rand_delay random = random % 16 + 16

-- `idel_wait_read`.
unfoldable pub idel_wait_read : ReadState → ReadState
idel_wait_read r = record r {
  out = record { arready = true; rid = 0; rdata = 0; rresp = 0; rlast = false; rvalid = false };
}

unfoldable pub set_wrap : ℕ → ℕ → ReadState → ReadState
set_wrap arsize start_addr r = elim r.burst_type [
  | wrap ↦
      let mask = wrap_mask r.burst_count arsize in
      record r { wrap_off_mask = mask; wrap_bound = wrap_base start_addr mask }
  | _ ↦ r
]

-- `accept_read_req`; it returns true.
unfoldable pub accept_read_req : Pins → ℕ → ReadState → SimStatus → ReadState × SimStatus
unfolding set_wrap
accept_read_req pins random r sim =
    let num_bytes = bytes_of pins.arsize in
    let burst_count = u8 (pins.arlen + 1) in
    let burst_type = of_signal pins.arburst in
    let sim' = check_axi_req num_bytes burst_type pins.araddr burst_count sim in
    let wrapped =
      set_wrap pins.arsize pins.araddr
        (record r { burst_count = burst_count; burst_type = burst_type }) in
    (
      record wrapped {
        cur_id = pins.arid;
        cur_addr = pins.araddr;
        cur_info = record { size = num_bytes % 2 ^ 4; wstrb = r.cur_info.wstrb };
        left_time = u8 (rand_delay random);
        out = record (r.out) { arready = false };
      },
      sim',
    )

-- What `do_once_read` leaves in the members, once the device has answered and the next address is
-- known.
pub present : ReadState → Bool → ℕ → ℕ → ReadState
present r res rdata addr = record r {
  burst_count = u8 (r.burst_count + 255);
  cur_addr = addr;
  out = record (r.out) {
    rvalid = true;
    rlast = r.burst_count == 0;
    rid = r.cur_id;
    rdata = rdata;
    rresp = if res then resp_okey else resp_decerr;
  };
}

module _ {D S : Type 0} (face : PaddrInterface D S) (paddr_top : PaddrTop D) where
  -- `do_once_read`.
  pub do_once_read : ReadState → S → Outcome (Bool × ReadState × S)
  unfolding present
  do_once_read r s = do
    (res, rdata, s') ← Paddr.do_read face paddr_top r.cur_addr r.cur_info r.out.rdata s
    addr ← next_addr r.burst_type r.wrap_off_mask r.wrap_bound r.cur_info.size r.cur_addr
    done (res, present r res rdata addr, s')

  wait_read : ReadState → S → Outcome (Bool × ReadState × S)
  wait_read r s =
      if r.left_time == 0
      then do_once_read (record r { status = wait_last }) s
      else done (true, record r { left_time = r.left_time - 1 }, s)

  finish_read : Pins → Bool → ReadState → S → Outcome (Bool × ReadState × S)
  finish_read pins rlast r s =
      if pins.rready && rlast
      then done (true, idel_wait_read (record r { status = idel }), s)
      else do_once_read r s

  unfoldable pub start_read :
      Pins → ℕ → ReadState → SimStatus → S → Outcome (Bool × ReadState × SimStatus × S)
  start_read pins random r sim s =
      if pins.arvalid then done (true, accepted.0, accepted.1, s) else done (true, r, sim, s)
    where
      accepted : ReadState × SimStatus
      accepted = accept_read_req pins random (record r { status = req_ok }) sim

  -- `read_eval`. `rlast` is the pin, which shows what `update_output` last put there.
  unfoldable pub read_eval :
      Pins → Bool → ℕ → ReadState → SimStatus → S → Outcome (Bool × ReadState × SimStatus × S)
  unfolding start_read wait_read finish_read
  read_eval pins rlast random r sim s = elim r.status [
    | idel ↦ start_read pins random r sim s
    | req_ok ↦ (wait_read r s >>= λ (res, r', s'). done (res, r', sim, s'))
    | wait_last ↦ (finish_read pins rlast r s >>= λ (res, r', s'). done (res, r', sim, s'))
  ]
