-- ===== src/Spaces/Reload.antt =====
-- What a burst of the CPU has written, a burst of the CPU reads.
use my_diff.Base.{
  ℕ, ◌+◌, ◌*◌, ◌%◌, ◌^◌, ◌<◌, ◌≡◌, refl, ap, ◌∙◌, subst, List, ◌∷◌, ◌++◌, arith, length, true,
  Option, done,
}
use my_diff.Base.Nemu.{Nemu}
use my_diff.Paddr.{PaddrTop}
use my_diff.Axi.{Pins, SimStatus, incr, of_signal}
use my_diff.Axi.Read.{ReadState, ReadOut, rand_delay}
use my_diff.Axi.Read as Read
use my_diff.Axi.Read.Beats.{AllReady}
use my_diff.Axi.Read.Data as Data
use my_diff.Axi.Read.Data.{waiting_out, burst_outs, Shows, read_outputs}
use my_diff.Axi.Read.Words.{checked}
use my_diff.Axi.Write.{WriteState, WriteOut}
use my_diff.Axi.Write as Write
use my_diff.Axi.Write.Accept.{IsSized}
use my_diff.Axi.Write.Cycles as Cycles
use my_diff.Axi.Write.Cycles.{write_outputs}
use my_diff.Axi.Write.Channel.{Sends, transaction}
use my_diff.Axi.Bus.{AxiPaddr}
use my_diff.Axi.Bus.Alone.{
  joined, NoReads, NoWrites, bus_outputs, write_pins, read_pins, writes_alone, reads_alone,
  bus_outputs-append,
}
use my_diff.Board.{Heap, Allocator, Pmem, Dev, board}
use my_diff.Board.Objects.{IsFile}
use my_diff.Spaces.{Spaces, set_up}
use my_diff.Spaces.SetUp.{IsSetUp, set_up-IsSetUp}
use my_diff.Spaces.Store.{devices, Holds}
use my_diff.Spaces.Bursts.{held_word, stored, reload}

store_reload :
    (n : Nemu) (p : Pmem) (c : ℕ) (top : PaddrTop Dev) (h : Heap) (mem : List ℕ)
    (request last issued ready : Pins) (early delay held : List Pins) (beat : ℕ → Pins)
    (read_random write_random j : ℕ) (w : WriteState) (r : ReadState) (sim : SimStatus)
    (pins : Pins) (cycles : List Pins)
    → top ≡ devices p c
    → Holds p h mem
    → IsSized w
    → w.status ≡ Write.idel
    → w.out ≡ Cycles.idle_out
    → r.status ≡ Read.idel
    → r.out ≡ Data.idle_out
    → Sends beat write_random request last ready early delay held
    → request.awsize ≡ 2
    → of_signal request.awburst ≡ incr
    → request.awaddr ≡ 0x1fc00000 + j
    → ((k : ℕ) → (beat k).wstrb ≡ 15)
    → j + (request.awlen + 2) * 4 < 2 ^ 22
    → NoReads (transaction request early last delay issued held ready)
    → pins.arvalid ≡ true
    → pins.araddr ≡ request.awaddr
    → pins.arlen ≡ request.awlen
    → pins.arsize ≡ 2
    → of_signal pins.arburst ≡ incr
    → length cycles ≡ rand_delay read_random + (pins.arlen + 3)
    → AllReady cycles
    → NoWrites (pins ∷ cycles)
    → (words : ℕ → ℕ) × (a : AxiPaddr) × (end : SimStatus) × (h' : Heap) × (bus_outputs
          (board n)
          top
          read_random
          write_random
          (transaction request early last delay issued held ready ++ (pins ∷ cycles))
          (joined r w)
          sim
          h
        ≡ done (
          write_pins (length early) (rand_delay write_random) (length held) request.awid
              ++ read_pins (rand_delay read_random) pins.arid words pins.arlen,
          a,
          end,
          h',
        ))
      × ((k : ℕ) → k < request.awlen + 1 → words k ≡ (beat k).wdata % 2 ^ 32)
      × (a.read.status ≡ Read.idel)
      × (a.write.status ≡ Write.idel)
unfolding Shows
store_reload n p c top h mem request last issued ready early delay held beat read_random
      write_random j w r sim pins cycles shape holds sized w_idle w_out r_idle r_out sends size kind
      start full below no_reads valid same_start same_len read_size read_kind many all_ready
      no_writes =
    let writes = transaction request early last delay issued held ready in
    let few = sends.few in
    let (w', sim₁, h', mem', wrote, w_idle', w_out', holds', words) =
      stored n p c request last issued ready early delay held beat write_random j w sim h mem holds
        sized w_idle w_out sends size kind start full (omega arith) in
    let bounded : (i : ℕ) → i + 1 < pins.arlen + 2 → held_word mem' j i < 2 ^ 32 =
      λ i lt. omega (arith, words i (omega (arith, same_len))) in
    let (r', shows, r_idle', r_out') =
      reload n p c h' mem' read_random j pins cycles r sim₁ holds' r_idle r_out valid
        (same_start ∙ start) (omega (arith, same_len, few)) read_size read_kind
        (omega (arith, same_len)) bounded many all_ready in
    let first =
      writes_alone (board n) (devices p c) read_random write_random writes r w w' sim sim₁ h h' _
        Data.idle_out r_idle r_out no_reads wrote in
    let second =
      reads_alone (board n) (devices p c) read_random write_random (pins ∷ cycles) r r' w' sim₁
        (checked pins sim₁) h' h' _ Cycles.idle_out w_idle' w_out' no_writes shows in
    (
      held_word mem' j,
      joined r' w',
      checked pins sim₁,
      h',
      ap
            (λ t.
              bus_outputs (board n) t read_random write_random (writes ++ (pins ∷ cycles))
                (joined r w) sim h)
            shape
          ∙ bus_outputs-append (board n) (devices p c) read_random write_random writes
              (pins ∷ cycles) (joined r w) sim h
          ∙ rw (first, second) refl,
      words,
      r_idle',
      w_idle',
    )

-- The CPU reads back what it has written. After `main`'s set-up, and with both channels of the slave idle,
-- the CPU runs a write transaction of 1 to 16 words, incrementing and with all strobes, from 0x1fc00000 + j on,
-- short of the end of the range by two words, and then a read burst of as many words from the same address,
-- which it takes without a pause; it asks for nothing else. Then in every cycle the slave's pins show what the
-- protocol asks of the write, with the answer OKEY, and then, after `rand_delay()` cycles, the words that were
-- written, in order, each with the read's id and a good response, and one more word; both channels are idle again.
pub bus_outputs_reload :
    (n : Nemu) (allocator : Allocator) (func_bin : Option (List ℕ)) (h : Heap) (s : Spaces)
    (request last issued ready : Pins) (early delay held : List Pins) (beat : ℕ → Pins)
    (read_random write_random j : ℕ) (w : WriteState) (r : ReadState) (sim : SimStatus)
    (pins : Pins) (cycles : List Pins)
    → IsFile func_bin
    → set_up n allocator func_bin h ≡ done s
    → IsSized w
    → w.status ≡ Write.idel
    → w.out ≡ Cycles.idle_out
    → r.status ≡ Read.idel
    → r.out ≡ Data.idle_out
    → Sends beat write_random request last ready early delay held
    → request.awsize ≡ 2
    → of_signal request.awburst ≡ incr
    → request.awaddr ≡ 0x1fc00000 + j
    → ((k : ℕ) → (beat k).wstrb ≡ 15)
    → j + (request.awlen + 2) * 4 < 2 ^ 22
    → NoReads (transaction request early last delay issued held ready)
    → pins.arvalid ≡ true
    → pins.araddr ≡ request.awaddr
    → pins.arlen ≡ request.awlen
    → pins.arsize ≡ 2
    → of_signal pins.arburst ≡ incr
    → length cycles ≡ rand_delay read_random + (pins.arlen + 3)
    → AllReady cycles
    → NoWrites (pins ∷ cycles)
    → (words : ℕ → ℕ) × (a : AxiPaddr) × (end : SimStatus) × (h' : Heap) × (bus_outputs
          (board n)
          s.paddr_top
          read_random
          write_random
          (transaction request early last delay issued held ready ++ (pins ∷ cycles))
          (joined r w)
          sim
          s.heap
        ≡ done (
          write_pins (length early) (rand_delay write_random) (length held) request.awid
              ++ read_pins (rand_delay read_random) pins.arid words pins.arlen,
          a,
          end,
          h',
        ))
      × ((k : ℕ) → k < request.awlen + 1 → words k ≡ (beat k).wdata % 2 ^ 32)
      × (a.read.status ≡ Read.idel)
      × (a.write.status ≡ Write.idel)
bus_outputs_reload n allocator func_bin h s request last issued ready early delay held beat
      read_random write_random j w r sim pins cycles file ran =
    let (s', ran', u') = set_up-IsSetUp n allocator func_bin h file in
    let u = subst (IsSetUp func_bin) {x = s'} {y = s} (cc) u' in
    store_reload n u.inst_mem s.v_confreg s.paddr_top s.heap u.held request last issued ready early
      delay held beat read_random write_random j w r sim pins cycles u.shape (u.in_array, u.size)
