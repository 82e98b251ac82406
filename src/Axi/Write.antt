-- ===== src/Axi/Write.antt =====
-- The write channel of `axi_paddr`.
pub mod Abort
pub mod Handshake
pub mod Arrays
pub mod Beats
pub mod Issue
pub mod Accept
pub mod Transaction
pub mod Cycles
pub mod Phases
pub mod Channel
use my_diff.Base.{
  ℕ, zero, suc, ◌+◌, ◌-◌, ◌%◌, ◌^◌, Bool, true, false, ◌&&◌, not, List, ltb, ◌==◌, if◌then◌else◌,
  u8, u32, get_elem?, set, length, Outcome, done, aborted, fault, in_bounds, ◌>>=◌,
}
use my_diff.Paddr.{Wen, PaddrInterface, PaddrTop}
use my_diff.Paddr
use my_diff.Axi.{
  Burst, fixed, incr, wrap, reserved, of_signal, resp_okey, resp_decerr, SimStatus, assert_sim,
  Pins, bytes_of, check_axi_req, wrap_mask, wrap_base, next_addr,
}
use my_diff.Axi.Read.{rand_delay}

-- `wstatus_t`.
pub data WriteStatus : Type 0 where
  idel req_ok data_ok wait_back : WriteStatus

-- The outputs `s_awready`, `s_wready`, ….
pub record WriteOut : Type 0 where
  pub awready : Bool
  pub wready : Bool
  pub bid : ℕ
  pub bresp : ℕ
  pub bvalid : Bool

-- The members `w_…`; the arrays have 16 entries.
pub record WriteState : Type 0 where
  pub status : WriteStatus
  pub burst_count : ℕ
  pub left_time : ℕ
  pub wrap_off_mask : ℕ
  pub wrap_bound : ℕ
  pub burst_type : Burst
  pub cur_addr : List ℕ
  pub cur_info : List Wen
  pub cur_id : ℕ
  pub cur_data : List ℕ
  pub cur_no : ℕ
  pub out : WriteOut

-- `a[i] = v`, defined inside the array only.
pub store_at : List ℕ → ℕ → ℕ → Outcome (List ℕ)
store_at xs i v = if ltb i (length xs) then done (set xs i v) else fault

set_wrap : ℕ → ℕ → WriteState → WriteState
set_wrap awsize start_addr w = elim w.burst_type [
  | wrap ↦
      let mask = wrap_mask w.burst_count awsize in
      record w { wrap_off_mask = mask; wrap_bound = wrap_base start_addr mask }
  | _ ↦ w
]

abbrev with_size : Wen → ℕ → Wen
with_size info size = record info { size = size % 2 ^ 4 }

abbrev with_wstrb : Wen → ℕ → Wen
with_wstrb info wstrb = record info { wstrb = wstrb % 2 ^ 4 }

-- An assignment to a field of `w_cur_info[i]`.
pub update_info : List Wen → ℕ → (Wen → Wen) → Outcome (List Wen)
update_info xs i f = do info ← in_bounds (get_elem? xs i); done (set xs i (f info))

-- `accept_write_req`; it returns true.
pub accept_write_req : Pins → WriteState → SimStatus → Outcome (WriteState × SimStatus)
unfolding set_wrap
accept_write_req pins w sim = do
  let num_bytes = bytes_of pins.awsize
  let burst_count = u8 (pins.awlen + 1)
  let burst_type = of_signal pins.awburst
  let sim' = check_axi_req num_bytes burst_type pins.awaddr burst_count sim
  let wrapped =
      set_wrap pins.awsize pins.awaddr
        (record w { burst_count = burst_count; burst_type = burst_type })
  addrs ← store_at w.cur_addr 0 pins.awaddr
  infos ← update_info w.cur_info 0 (λ info. with_size info num_bytes)
  done (
    record wrapped {
      cur_no = 0;
      cur_id = pins.awid;
      cur_addr = addrs;
      cur_info = infos;
      out = record (w.out) { awready = false; wready = true };
    },
    sim',
  )

-- The last beat: `w_cur_NO == w_burst_count`.
last_data : Pins → ℕ → WriteState → SimStatus → Outcome (WriteState × SimStatus)
last_data pins random w sim = done (
  record w { out = record (w.out) { wready = false }; left_time = u8 (rand_delay random) },
  assert_sim pins.wlast sim,
)

-- Any other beat: the address and the size of the next one.
more_data : Pins → WriteState → SimStatus → Outcome (WriteState × SimStatus)
more_data pins w sim = do
  last_addr ← in_bounds (get_elem? w.cur_addr (w.cur_no - 1))
  last_info ← in_bounds (get_elem? w.cur_info (w.cur_no - 1))
  infos ← update_info w.cur_info w.cur_no (λ info. with_size info last_info.size)
  addr ← next_addr w.burst_type w.wrap_off_mask w.wrap_bound last_info.size last_addr
  addrs ← store_at w.cur_addr w.cur_no addr
  done (record w { cur_info = infos; cur_addr = addrs }, assert_sim (not pins.wlast) sim)

-- `accept_write_data`; it returns true.
pub accept_write_data : Pins → ℕ → WriteState → SimStatus → Outcome (WriteState × SimStatus)
unfolding last_data more_data
accept_write_data pins random w sim = do
  let sim' = assert_sim (pins.wid == w.cur_id) sim
  words ← store_at w.cur_data w.cur_no pins.wdata
  infos ← update_info w.cur_info w.cur_no (λ info. with_wstrb info pins.wstrb)
  let w' = record w { cur_data = words; cur_info = infos; cur_no = u8 (w.cur_no + 1) }
  if w'.cur_no == w'.burst_count then last_data pins random w' sim' else more_data pins w' sim'

-- `idel_wait_write`.
unfoldable pub idel_wait_write : WriteState → WriteState
idel_wait_write w = record w {
  out = record { awready = true; wready = false; bid = 0; bresp = 0; bvalid = false };
}

module _ {D S : Type 0} (face : PaddrInterface D S) (paddr_top : PaddrTop D) where
  -- The loop of `do_all_write` from entry `i` on, with `left` entries to go.
  pub write_entries : ℕ → ℕ → WriteState → Bool → S → Outcome (Bool × S)
  write_entries zero i w res s = done (res, s)
  write_entries (suc left) i w res s = do
    addr ← in_bounds (get_elem? w.cur_addr i)
    info ← in_bounds (get_elem? w.cur_info i)
    word ← in_bounds (get_elem? w.cur_data i)
    (ok, s') ← Paddr.do_write face paddr_top addr info word s
    write_entries left (i + 1) w (res && ok) s'

  -- `do_all_write`.
  pub do_all_write : WriteState → S → Outcome (Bool × WriteState × S)
  unfolding write_entries
  do_all_write w s = do
    (res, s') ← write_entries w.burst_count 0 w true s
    done (
      res,
      record w {
        out = record (w.out) {
          bvalid = true;
          bresp = if res then resp_okey else resp_decerr;
          bid = w.cur_id;
        };
      },
      s',
    )

  unfoldable pub start_write :
      Pins → WriteState → SimStatus → S → Outcome (Bool × WriteState × SimStatus × S)
  start_write pins w sim s =
      if pins.awvalid
      then (accept_write_req pins (record w { status = req_ok }) sim >>= λ (w', sim').
          done (true, w', sim', s))
      else done (true, w, sim, s)

  take_data : Pins → ℕ → WriteState → SimStatus → S → Outcome (Bool × WriteState × SimStatus × S)
  take_data pins random w sim s =
      if pins.wvalid
      then (accept_write_data pins random w sim >>= λ (w', sim').
          done (true, record w' { status = if pins.wlast then data_ok else req_ok }, sim', s))
      else done (true, w, sim, s)

  wait_write : WriteState → S → Outcome (Bool × WriteState × S)
  wait_write w s =
      if w.left_time == 0
      then do_all_write (record w { status = wait_back }) s
      else done (true, record w { left_time = w.left_time - 1 }, s)

  -- `write_eval`.
  unfoldable pub write_eval :
      Pins → ℕ → WriteState → SimStatus → S → Outcome (Bool × WriteState × SimStatus × S)
  unfolding start_write take_data wait_write
  write_eval pins random w sim s = elim w.status [
    | idel ↦ start_write pins w sim s
    | req_ok ↦ take_data pins random w sim s
    | data_ok ↦ (wait_write w s >>= λ (res, w', s'). done (res, w', sim, s'))
    | wait_back ↦
        done
          (true, (if pins.bready then idel_wait_write (record w { status = idel }) else w), sim, s)
  ]
