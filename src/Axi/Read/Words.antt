-- ===== src/Axi/Read/Words.antt =====
-- A burst from its request on: the slave waits, then shows the data.
use my_diff.Base.{
  ℕ, zero, suc, ◌+◌, ◌*◌, ◌%◌, ◌^◌, ◌<◌, ◌≡◌, refl, ap₂, ◌∙◌, true, false, List, [], ◌∷◌, ◌++◌,
  length, replicate, arith, ◌==◌, u8, done,
}
use my_diff.Paddr.{PaddrInterface, PaddrTop}
use my_diff.Axi.{Pins, SimStatus, incr, of_signal, bytes_of, check_axi_req}
use my_diff.Axi.Read.{idel, req_ok, set_wrap, ReadState, accept_read_req, read_eval, rand_delay}
use my_diff.Axi.Read.Beats.{AllReady}
use my_diff.Axi.Read.Transaction.{eval_request}
use my_diff.Axi.Read.Data.{
  idle_out, waiting_out, beat_out, burst_outs, Serves, Shows, Shows-cons, under_way, one_beat,
  beats_from,
}

-- What `check_axi_req` makes of a request for an incrementing burst.
abbrev pub checked : Pins → SimStatus → SimStatus
checked pins sim = check_axi_req (bytes_of pins.arsize) incr pins.araddr (u8 (pins.arlen + 1)) sim

module _ {D S : Type 0} (face : PaddrInterface D S) (paddr_top : PaddrTop D) (random : ℕ) where
  -- A request that waits `t` more cycles, for a burst whose count is `c`.
  abbrev waiting : ReadState → ℕ → ℕ → ℕ → ReadState
  waiting base start t c = record base {
    status = req_ok;
    burst_count = c;
    left_time = t;
    cur_addr = start;
    out = waiting_out;
  }

  -- The state that the beats start from.
  abbrev waited : ReadState → ReadState
  waited base = record base { left_time = 0 }

  module _ (base : ReadState) (start n : ℕ) (words : ℕ → ℕ) (s : S) (kind : base.burst_type ≡ incr)
      (fits : start + n * base.cur_info.size < 2 ^ 32)
      (bounded : (i : ℕ) → i + 1 < n → words i < 2 ^ 32)
      (serves : Serves face paddr_top random start base.cur_info words n s) where
    eval_delay :
        (pins : Pins) (t c : ℕ) (sim : SimStatus)
        → read_eval face paddr_top pins false random (waiting base start (suc t) c) sim s
          ≡ done (true, waiting base start t c, sim, s)
    unfolding read_eval
    eval_delay pins t c sim = ground arith

    eval_first :
        (pins : Pins) (c : ℕ) (sim : SimStatus)
        → 0 < n
        → read_eval face paddr_top pins false random (waiting base start 0 c) sim s
          ≡ done (
            true,
            under_way face paddr_top random
                (waited base)
                start
                1
                (u8 (c + 255))
                (beat_out base.cur_id (words 0) (c == 0)),
            sim,
            s,
          )
    unfolding read_eval
    eval_first pins c sim some_beat =
        let at_start : start + 0 * base.cur_info.size ≡ start = omega arith in
        let beat =
          one_beat face paddr_top random (waited base) start n words s kind fits bounded serves 0 c
            waiting_out some_beat refl (omega arith) in
        ground (arith, rw at_start at beat)

    wait_from :
        (t c : ℕ) (cycles : List Pins) (sim : SimStatus)
        → c + 1 < n
        → c + 1 < 256
        → length cycles ≡ t + (c + 3)
        → AllReady cycles
        → Shows face paddr_top random s cycles
            (waiting base start t (suc c))
            sim
            (replicate t waiting_out ++ burst_outs base.cur_id words 0 (suc c))
            sim
    unfolding burst_outs
    wait_from t c [] sim below small len ready = absurd (omega arith)
    wait_from zero c (p ∷ cycles) sim below small len ready =
        let rest =
          beats_from face paddr_top random (waited base) start n words s kind fits bounded serves c
            1 cycles (beat_out base.cur_id (words 0) false) sim (omega arith) (omega arith)
            (omega arith) ready.1 refl (bounded 0 (omega arith)) refl in
        let next : u8 (suc c + 255) ≡ c = omega arith in
        let more_left : (suc c == 0) ≡ false = ground arith in
        Shows-cons face paddr_top random p cycles (waiting base start 0 (suc c))
          (under_way face paddr_top random (waited base) start 1 c
            (beat_out base.cur_id (words 0) false))
          sim sim sim s (burst_outs base.cur_id words 1 c)
          (eval_first p (suc c) sim (omega arith) ∙ rw (next, more_left) refl) rest
    wait_from (suc t) c (p ∷ cycles) sim below small len ready =
        Shows-cons face paddr_top random p cycles (waiting base start (suc t) (suc c))
          (waiting base start t (suc c)) sim sim sim s
          (replicate t waiting_out ++ burst_outs base.cur_id words 0 (suc c))
          (eval_delay p t (suc c) sim)
          (wait_from t c cycles sim (omega arith) small (omega arith) ready.1)

  -- The members that a request of an incrementing burst leaves for its beats.
  abbrev requested : Pins → ReadState → ReadState
  requested pins r = record r {
    burst_type = incr;
    cur_id = pins.arid;
    cur_info = record { size = bytes_of pins.arsize % 2 ^ 4; wstrb = r.cur_info.wstrb };
  }

  accepted :
      (pins : Pins) (r : ReadState) (sim : SimStatus)
      → pins.arlen < 255
      → of_signal pins.arburst ≡ incr
      → r.out ≡ idle_out
      → (accept_read_req pins random (record r { status = req_ok }) sim).0
        ≡ waiting (requested pins r) pins.araddr (rand_delay random) (suc pins.arlen)
  unfolding accept_read_req set_wrap
  accepted pins r sim len kind idle =
      let count : u8 (pins.arlen + 1) ≡ suc pins.arlen = omega arith in
      let left : u8 (rand_delay random) ≡ rand_delay random = omega arith in
      rw (count, left, kind, idle) refl

  accept-checked :
      (pins : Pins) (r : ReadState) (sim : SimStatus)
      → of_signal pins.arburst ≡ incr
      → (accept_read_req pins random (record r { status = req_ok }) sim).1 ≡ checked pins sim
  unfolding accept_read_req
  accept-checked pins r sim kind = rw kind refl

  -- The data of a burst. From the idle channel, with a request for an incrementing burst of `arlen + 1`
  -- beats, at most 255, a CPU that is always ready and devices that answer each beat's address with
  -- its word: the slave shows nothing while it waits, then the words in order, and with them the
  -- request's id and a good response. It shows `arlen + 2` words, the last with `rlast`, and is idle
  -- again; no read changes the devices.
  pub read_burst :
      (pins : Pins) (cycles : List Pins) (r : ReadState) (sim : SimStatus) (s : S) (words : ℕ → ℕ)
      → r.status ≡ idel
      → r.out ≡ idle_out
      → pins.arvalid ≡ true
      → pins.arlen < 255
      → of_signal pins.arburst ≡ incr
      → pins.araddr + (pins.arlen + 2) * (bytes_of pins.arsize % 2 ^ 4) < 2 ^ 32
      → ((i : ℕ) → i + 1 < pins.arlen + 2 → words i < 2 ^ 32)
      → Serves face paddr_top random pins.araddr
          (requested pins r).cur_info
          words
          (pins.arlen + 2)
          s
      → length cycles ≡ rand_delay random + (pins.arlen + 3)
      → AllReady cycles
      → Shows face paddr_top random s
          (pins ∷ cycles)
          r
          sim
          (waiting_out
            ∷ (replicate (rand_delay random) waiting_out
                ++ burst_outs pins.arid words 0 (suc pins.arlen)))
          (checked pins sim)
  read_burst pins cycles r sim s words idle shown valid len kind fits bounded serves many ready =
      let sim' = checked pins sim in
      Shows-cons face paddr_top random pins cycles r
        (waiting (requested pins r) pins.araddr (rand_delay random) (suc pins.arlen)) sim sim' sim'
        s
        (replicate (rand_delay random) waiting_out ++ burst_outs pins.arid words 0 (suc pins.arlen))
        (eval_request face paddr_top random pins r sim s idle valid
          ∙ ap₂ (λ x y. done (true, x, y, s)) (accepted pins r sim len kind shown)
              (accept-checked pins r sim kind))
        (wait_from (requested pins r) pins.araddr (pins.arlen + 2) words s refl fits bounded serves
          (rand_delay random) pins.arlen cycles sim' (omega arith) (omega arith) many ready)
