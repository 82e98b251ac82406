-- ===== src/Axi/Bus/Alone.antt =====
-- One channel of the slave at work while the other is idle.
use my_diff.Base.{
  ◌≡◌, refl, sym, ap, ◌∙◌, Bool, true, false, ◌&&◌, List, [], ◌∷◌, map, arith, Outcome, done, ◌>>=◌,
  bind_through, bind_same, ℕ, zero, suc, replicate, bind_done, ◌++◌,
}
use my_diff.Paddr.{PaddrInterface, PaddrTop}
use my_diff.Axi.{Pins, SimStatus}
use my_diff.Axi.Read.{ReadState, ReadOut, read_eval, start_read}
use my_diff.Axi.Read as Read
use my_diff.Axi.Read.Data.{read_outputs, waiting_out, burst_outs}
use my_diff.Axi.Read.Data as Data
use my_diff.Axi.Write.Cycles as Cycles
use my_diff.Axi.Write.Channel.{transaction_outs}
use my_diff.Axi.Write.{WriteState, WriteOut, write_eval, start_write}
use my_diff.Axi.Write as Write
use my_diff.Axi.Write.Cycles.{write_outputs}
use my_diff.Axi.Bus.{AxiPaddr, calculate_output, update_output}
use my_diff.Axi.Bus.Handshake.{bus_cycle}

-- The slave when its pins show its outputs, as after `update_output`.
abbrev pub joined : ReadState → WriteState → AxiPaddr
joined r w = record { read = r; write = w; read_pins = r.out; write_pins = w.out }

-- The CPU asks for no read, or for no write.
abbrev pub NoReads : List Pins → Type 0
NoReads [] = Unit {0}
NoReads (p ∷ ps) = (p.arvalid ≡ false) × NoReads ps

abbrev pub NoWrites : List Pins → Type 0
NoWrites [] = Unit {0}
NoWrites (p ∷ ps) = (p.awvalid ≡ false) × NoWrites ps

pub NoReads-replicate : (n : ℕ) (p : Pins) → p.arvalid ≡ false → NoReads (replicate n p)
NoReads-replicate zero p quiet = tt
NoReads-replicate (suc n) p quiet = (quiet, NoReads-replicate n p quiet)

pub NoReads-append : (ps qs : List Pins) → NoReads ps → NoReads qs → NoReads (ps ++ qs)
NoReads-append [] qs h k = k
NoReads-append (p ∷ ps) qs (quiet, h) k = (quiet, NoReads-append ps qs h k)

pub NoWrites-replicate : (n : ℕ) (p : Pins) → p.awvalid ≡ false → NoWrites (replicate n p)
NoWrites-replicate zero p quiet = tt
NoWrites-replicate (suc n) p quiet = (quiet, NoWrites-replicate n p quiet)

-- What the pins show in a write transaction that succeeds, and in the read burst after it.
abbrev pub write_pins : ℕ → ℕ → ℕ → ℕ → List (ReadOut × WriteOut)
write_pins early delay held id =
    map (λ out. (Data.idle_out, out)) (transaction_outs early delay held id true)

abbrev pub read_pins : ℕ → ℕ → (ℕ → ℕ) → ℕ → List (ReadOut × WriteOut)
read_pins delay id words len =
    map (λ out. (out, Cycles.idle_out))
      (waiting_out ∷ (replicate delay waiting_out ++ burst_outs id words 0 (suc len)))

module _ {D S : Type 0} (face : PaddrInterface D S) (paddr_top : PaddrTop D)
    (read_random write_random : ℕ) where
  -- The cycles of the main loop, with the slave's pins after each.
  pub bus_outputs :
      List Pins
      → AxiPaddr
      → SimStatus
      → S
      → Outcome (List (ReadOut × WriteOut) × AxiPaddr × SimStatus × S)
  bus_outputs [] a sim s = done ([], a, sim, s)
  bus_outputs (pins ∷ cycles) a sim s = do
    (res, a', sim', s') ← bus_cycle face paddr_top (pins, read_random, write_random) a sim s
    (shown, a'', sim'', s'') ← bus_outputs cycles a' sim' s'
    done ((a'.read_pins, a'.write_pins) ∷ shown, a'', sim'', s'')

  abbrev wrote :
      ReadState → Bool × WriteState × SimStatus × S → Outcome (Bool × AxiPaddr × SimStatus × S)
  wrote r (res, w, sim, s) = done (res, joined r w, sim, s)

  cycle_writes :
      (pins : Pins) (r : ReadState) (w : WriteState) (sim : SimStatus) (s : S)
      → r.status ≡ Read.idel
      → pins.arvalid ≡ false
      → bus_cycle face paddr_top (pins, read_random, write_random) (joined r w) sim s
        ≡ (write_eval face paddr_top pins write_random w sim s >>= wrote r)
  unfolding bus_cycle calculate_output update_output
  cycle_writes pins r w sim s idle quiet =
      let rests : read_eval face paddr_top pins r.out.rlast read_random r sim s
          ≡ done (true, r, sim, s) =
        unfold read_eval start_read in ground (arith, idle, quiet) in
      rw rests (
        sym (
          bind_through (write_eval face paddr_top pins write_random w sim s) (wrote r) _ _
            (λ x. refl)))

  abbrev read_on :
      WriteState → Bool × ReadState × SimStatus × S → Outcome (Bool × AxiPaddr × SimStatus × S)
  read_on w (res, r, sim, s) = done (res && true, joined r w, sim, s)

  cycle_reads :
      (pins : Pins) (r : ReadState) (w : WriteState) (sim : SimStatus) (s : S)
      → w.status ≡ Write.idel
      → pins.awvalid ≡ false
      → bus_cycle face paddr_top (pins, read_random, write_random) (joined r w) sim s
        ≡ (read_eval face paddr_top pins r.out.rlast read_random r sim s >>= read_on w)
  unfolding bus_cycle calculate_output update_output
  cycle_reads pins r w sim s idle quiet = sym (
      bind_through (read_eval face paddr_top pins r.out.rlast read_random r sim s) (read_on w) _ _
        (λ (res, r', sim', s').
          let rests : write_eval face paddr_top pins write_random w sim' s'
              ≡ done (true, w, sim', s') =
            unfold write_eval start_write in ground (arith, idle, quiet) in
          rw rests refl))

  -- What the pins show while the read channel is idle, and while the write channel is.
  abbrev pub beside_read :
      ReadState
      → List WriteOut × WriteState × SimStatus × S
      → Outcome (List (ReadOut × WriteOut) × AxiPaddr × SimStatus × S)
  beside_read r (shown, w, sim, s) = done (map (λ out. (r.out, out)) shown, joined r w, sim, s)

  abbrev pub beside_write :
      WriteState
      → List ReadOut × ReadState × SimStatus × S
      → Outcome (List (ReadOut × WriteOut) × AxiPaddr × SimStatus × S)
  beside_write w (shown, r, sim, s) = done (map (λ out. (out, w.out)) shown, joined r w, sim, s)

  -- A write transaction on the bus is one on its channel.
  pub bus_outputs-write_outputs :
      (cycles : List Pins) (r : ReadState) (w : WriteState) (sim : SimStatus) (s : S)
      → r.status ≡ Read.idel
      → NoReads cycles
      → bus_outputs cycles (joined r w) sim s
        ≡ (write_outputs face paddr_top write_random cycles w sim s >>= beside_read r)
  unfolding bus_outputs write_outputs
  bus_outputs-write_outputs [] r w sim s idle quiet = refl
  bus_outputs-write_outputs (pins ∷ cycles) r w sim s idle (quiet, later) =
      rw (cycle_writes pins r w sim s idle quiet) (
        bind_same (write_eval face paddr_top pins write_random w sim s) (wrote r) _ _
          (beside_read r)
          (λ (res, w', sim', s'). rw (bus_outputs-write_outputs cycles r w' sim' s' idle later) (
            bind_same (write_outputs face paddr_top write_random cycles w' sim' s') (beside_read r)
              _ _ (beside_read r) (λ x. refl))))

  -- A read transaction on the bus is one on its channel.
  pub bus_outputs-read_outputs :
      (cycles : List Pins) (r : ReadState) (w : WriteState) (sim : SimStatus) (s : S)
      → w.status ≡ Write.idel
      → NoWrites cycles
      → bus_outputs cycles (joined r w) sim s
        ≡ (read_outputs face paddr_top read_random cycles r sim s >>= beside_write w)
  unfolding bus_outputs read_outputs
  bus_outputs-read_outputs [] r w sim s idle quiet = refl
  bus_outputs-read_outputs (pins ∷ cycles) r w sim s idle (quiet, later) =
      rw (cycle_reads pins r w sim s idle quiet) (
        bind_same (read_eval face paddr_top pins r.out.rlast read_random r sim s) (read_on w) _ _
          (beside_write w)
          (λ (res, r', sim', s'). rw (bus_outputs-read_outputs cycles r' w sim' s' idle later) (
            bind_same (read_outputs face paddr_top read_random cycles r' sim' s') (beside_write w) _
              _ (beside_write w) (λ x. refl))))

  pub writes_alone :
      (cycles : List Pins) (r : ReadState) (w w' : WriteState) (sim sim' : SimStatus) (s s' : S)
      (shown : List WriteOut) (out : ReadOut)
      → r.status ≡ Read.idel
      → r.out ≡ out
      → NoReads cycles
      → write_outputs face paddr_top write_random cycles w sim s ≡ done (shown, w', sim', s')
      → bus_outputs cycles (joined r w) sim s
        ≡ done (map (λ o. (out, o)) shown, joined r w', sim', s')
  writes_alone cycles r w w' sim sim' s s' shown out idle rests quiet runs =
      bus_outputs-write_outputs cycles r w sim s idle quiet
      ∙ ap (λ o. o >>= beside_read r) runs
      ∙ ap (λ o. done (map (λ x. (o, x)) shown, joined r w', sim', s')) rests

  pub reads_alone :
      (cycles : List Pins) (r r' : ReadState) (w : WriteState) (sim sim' : SimStatus) (s s' : S)
      (shown : List ReadOut) (out : WriteOut)
      → w.status ≡ Write.idel
      → w.out ≡ out
      → NoWrites cycles
      → read_outputs face paddr_top read_random cycles r sim s ≡ done (shown, r', sim', s')
      → bus_outputs cycles (joined r w) sim s
        ≡ done (map (λ o. (o, out)) shown, joined r' w, sim', s')
  reads_alone cycles r r' w sim sim' s s' shown out idle rests quiet runs =
      bus_outputs-read_outputs cycles r w sim s idle quiet
      ∙ ap (λ o. o >>= beside_write w) runs
      ∙ ap (λ o. done (map (λ x. (x, o)) shown, joined r' w, sim', s')) rests

  -- One run of cycles after another.
  abbrev pub go_on :
      List Pins
      → List (ReadOut × WriteOut) × AxiPaddr × SimStatus × S
      → Outcome (List (ReadOut × WriteOut) × AxiPaddr × SimStatus × S)
  go_on more (shown, a, sim, s) =
      bus_outputs more a sim s >>= λ (later, a', sim', s'). done (shown ++ later, a', sim', s')

  pub bus_outputs-append :
      (cycles more : List Pins) (a : AxiPaddr) (sim : SimStatus) (s : S)
      → bus_outputs (cycles ++ more) a sim s ≡ (bus_outputs cycles a sim s >>= go_on more)
  unfolding bus_outputs
  bus_outputs-append [] more a sim s = sym (bind_done (bus_outputs more a sim s) _ (λ x. refl))
  bus_outputs-append (pins ∷ cycles) more a sim s =
      bind_through (bus_cycle face paddr_top (pins, read_random, write_random) a sim s) _ _
        (go_on more)
        (λ (res, a', sim', s'). rw (bus_outputs-append cycles more a' sim' s') (
          bind_same (bus_outputs cycles a' sim' s') (go_on more) _ _ (go_on more)
            (λ (shown, a'', sim'', s'').
              sym (bind_through (bus_outputs more a'' sim'' s'') _ _ _ (λ x. refl)))))
