-- ===== src/Axi/Read/Transaction.antt =====
-- A whole read transaction: how long it takes, how many beats the slave presents, and that it ends.
use my_diff.Base.{
  ℕ, zero, suc, ◌+◌, ◌-◌, ◌<◌, ◌≡◌, ◌≢◌, refl, ap₂, ◌∙◌, Bool, true, false, List, [], ◌∷◌, ◌++◌,
  length, replicate, arith, done,
}
use my_diff.Paddr.{PaddrInterface, PaddrTop}
use my_diff.Axi.{Pins, SimStatus, reserved, of_signal}
use my_diff.Axi.Read.{
  idel, req_ok, wait_last, ReadState, accept_read_req, do_once_read, read_eval, rand_delay,
}
use my_diff.Axi.Read.Beats.{
  flags, AllReady, read_cycles, Answers, Able, Beat, do_once_read-Beat, Streaming, Ends, cycle,
  beats_phase,
}

module _ {D S : Type 0} (face : PaddrInterface D S) (paddr_top : PaddrTop D) (random : ℕ) where
  pub eval_request :
      (pins : Pins) (r : ReadState) (sim : SimStatus) (s : S)
      → r.status ≡ idel
      → pins.arvalid ≡ true
      → let (r', sim') = accept_read_req pins random (record r { status = req_ok }) sim in
        read_eval face paddr_top pins r.out.rlast random r sim s ≡ done (true, r', sim', s)
  unfolding read_eval
  eval_request pins r sim s idle valid = ground (arith, idle, valid)

  accept_quiet :
      (pins : Pins) (r : ReadState) (sim : SimStatus)
      → flags (accept_read_req pins random (record r { status = req_ok }) sim).0 ≡ flags r
  unfolding accept_read_req
  accept_quiet pins r sim = refl

module _ {D S : Type 0} (face : PaddrInterface D S) (paddr_top : PaddrTop D) (random : ℕ)
    (On : ℕ → S → Type 0) where
  -- An accepted request that waits `t` more cycles, for a burst of `c + 1` beats.
  record Waiting (t c : ℕ) (r : ReadState) (s : S) : Type 0 where
    status : r.status ≡ req_ok
    quiet : flags r ≡ (false, false)
    left : r.left_time ≡ t
    count : r.burst_count ≡ c + 1
    small : c + 1 < 256
    able : Able face paddr_top random On r s

  eval_delay :
      (pins : Pins) (t c : ℕ) (r : ReadState) (sim : SimStatus) (s : S)
      → Waiting (suc t) c r s
      → read_eval face paddr_top pins r.out.rlast random r sim s
        ≡ done (true, record r { left_time = r.left_time - 1 }, sim, s)
  unfolding read_eval
  eval_delay pins t c r sim s h = ground (arith, h.status, h.left)

  eval_first :
      (pins : Pins) (c : ℕ) (r : ReadState) (sim : SimStatus) (s : S)
      → Waiting 0 c r s
      → (b : Beat face paddr_top random On
          (record r { status = wait_last })
          (do_once_read face paddr_top (record r { status = wait_last }) s))
      → read_eval face paddr_top pins r.out.rlast random r sim s ≡ done (b.res, b.r', sim, b.s')
  unfolding read_eval
  eval_first pins c r sim s h b = ground (arith, h.status, h.left, b.returns)

  first-Streaming :
      (c : ℕ) (r : ReadState) (s : S)
      → Waiting 0 c r s
      → (b : Beat face paddr_top random On
          (record r { status = wait_last })
          (do_once_read face paddr_top (record r { status = wait_last }) s))
      → Streaming face paddr_top random On c b.r' b.s'
  first-Streaming c r s h b = record {
    status = b.status;
    rlast = b.rlast ∙ ground (arith, h.count);
    count = omega (arith, b.count, h.count, h.small);
    small = omega (arith, h.small);
    able = b.able;
  }

  -- The flags of a burst of `c + 1` beats, and of the cycle after it.
  abbrev pub burst_flags : ℕ → List (Bool × Bool)
  burst_flags c =
      (true, false) ∷ (replicate c (true, false) ++ ((true, true) ∷ (false, false) ∷ []))

  wait_phase :
      (t c : ℕ) (cycles : List Pins) (r : ReadState) (sim : SimStatus) (s : S)
      → length cycles ≡ t + (c + 3)
      → AllReady cycles
      → Waiting t c r s
      → Ends face paddr_top random On cycles r sim s (replicate t (false, false) ++ burst_flags c)
  wait_phase t c [] r sim s len ready h = absurd (omega arith)
  wait_phase zero c (p ∷ cycles) r sim s len ready h =
      let b =
        do_once_read-Beat face paddr_top random On (record r { status = wait_last }) s
          (record { answers = h.able.answers; on = h.able.on; known = h.able.known }) in
      let first = first-Streaming c r s h b in
      cycle face paddr_top random On p cycles r sim s (eval_first p c r sim s h b)
        (ap₂ (λ v l. (v, l)) b.rvalid first.rlast)
        (beats_phase face paddr_top random On c cycles b.r' sim b.s' (omega arith) ready.1 first)
  wait_phase (suc t) c (p ∷ cycles) r sim s len ready h =
      cycle face paddr_top random On p cycles r sim s (eval_delay p t c r sim s h) h.quiet (
        wait_phase t c cycles (record r { left_time = r.left_time - 1 }) sim s (omega arith) ready.1
          (record {
            status = h.status;
            quiet = h.quiet;
            left = omega (arith, h.left);
            count = h.count;
            small = h.small;
            able = record { answers = h.able.answers; on = h.able.on; known = h.able.known };
          }))

  -- The members once the request has been accepted.
  abbrev pub requested : Pins → ReadState → SimStatus → ReadState
  requested pins r sim = (accept_read_req pins random (record r { status = req_ok }) sim).0

  accepted :
      (pins : Pins) (r : ReadState) (sim : SimStatus) (s : S)
      → pins.arlen < 255
      → of_signal pins.arburst ≢ reserved
      → flags r ≡ (false, false)
      → Answers face paddr_top random On (requested pins r sim)
      → On pins.araddr s
      → Waiting (rand_delay random) pins.arlen (requested pins r sim) s
  unfolding accept_read_req
  accepted pins r sim s len known quiet answers on = record {
    status = ground arith;
    quiet = quiet;
    left = omega arith;
    count = ground arith;
    small = omega arith;
    able = record { answers = answers; on = on; known = λ e. known (ground arith) };
  }

  -- A read transaction runs to its end. From the idle channel, with a request of `arlen + 1` beats
  -- for up to 255 beats that is not of the reserved kind, a CPU that keeps `rready` up and devices that
  -- answer at the addresses that the burst goes through: after the request the slave waits
  -- `rand_delay()` cycles, then presents `arlen + 1` beats without `rlast`, one more beat with `rlast`,
  -- and then is idle again. So it presents one beat more than was asked for.
  pub read_transaction :
      (pins : Pins) (cycles : List Pins) (r : ReadState) (sim : SimStatus) (s : S)
      → r.status ≡ idel
      → flags r ≡ (false, false)
      → pins.arvalid ≡ true
      → pins.arlen < 255
      → of_signal pins.arburst ≢ reserved
      → Answers face paddr_top random On (requested pins r sim)
      → On pins.araddr s
      → length cycles ≡ rand_delay random + (pins.arlen + 3)
      → AllReady cycles
      → (r' : ReadState) × (s' : S) × (read_cycles face paddr_top random (pins ∷ cycles) r sim s
          ≡ done (
            (false, false)
                ∷ (replicate (rand_delay random) (false, false)
                    ++ (replicate (pins.arlen + 1) (true, false)
                        ++ ((true, true) ∷ (false, false) ∷ []))),
            r',
            s',
          ))
        × (r'.status ≡ idel)
  read_transaction pins cycles r sim s idle quiet valid len known answers on long ready =
      let one : pins.arlen + 1 ≡ suc pins.arlen = omega arith in
      let (r', sim') = accept_read_req pins random (record r { status = req_ok }) sim in
      rw one (
        cycle face paddr_top random On pins cycles r sim s
          (eval_request face paddr_top random pins r sim s idle valid)
          (accept_quiet face paddr_top random pins r sim ∙ quiet)
          (wait_phase (rand_delay random) pins.arlen cycles r' sim' s long ready
            (accepted pins r sim s len known quiet answers on)))
