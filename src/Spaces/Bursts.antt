-- ===== src/Spaces/Bursts.antt =====
-- Bursts of the CPU on the memory of the boot range.
use my_diff.Base.{
  ℕ, suc, ◌+◌, ◌-◌, ◌*◌, ◌%◌, ◌^◌, ◌<◌, ◌≤◌, ◌≡◌, refl, ap, ◌∙◌, inr, List, [], ◌∷◌, ◌++◌, arith,
  length, replicate, true, done,
}
use native.Mathlib.Nat.{mul-le-mul_right}
use my_diff.Base.Nemu.{Nemu}
use my_diff.Paddr.{Wen, end}
use my_diff.Paddr.Routing.{Inside, access_routes}
use my_diff.Pmem.{low_bytes}
use my_diff.Pmem.Bytes.{value}
use my_diff.Axi.{Pins, SimStatus, incr, of_signal}
use my_diff.Axi.Address.{beat_addr}
use my_diff.Axi.Read.{idel, ReadState, rand_delay}
use my_diff.Axi.Read.Beats.{AllReady}
use my_diff.Axi.Read.Data.{idle_out, waiting_out, burst_outs, Serves, Shows}
use my_diff.Axi.Read.Words.{checked, read_burst}
use my_diff.Axi.Write.{WriteState}
use my_diff.Axi.Write as Write
use my_diff.Axi.Write.Cycles as Cycles
use my_diff.Axi.Write.Accept.{IsSized}
use my_diff.Axi.Write.Cycles.{write_outputs}
use my_diff.Axi.Write.Channel.{Sends, transaction, transaction_outs, write_transaction}
use my_diff.Board.{Heap, Pmem, memory, registers, board}
use my_diff.Spaces.SetUp.{inst_range, confreg_range, devices-IsTable}
use my_diff.Spaces.Boot.{read_memory}
use my_diff.Spaces.Store.{devices, Holds, bus_writes_lem}

-- The word that beat `k` of a burst from `j` on reads.
abbrev pub held_word : List ℕ → ℕ → ℕ → ℕ
held_word mem j k = value mem (j + k * 4) 4

module _ (n : Nemu) (p : Pmem) (c : ℕ) where
  held_word-Serves :
      (h : Heap) (mem : List ℕ) (random j beats wstrb : ℕ)
      → Holds p h mem
      → j + beats * 4 < 2 ^ 22
      → Serves
          (board n)
          (devices p c)
          random
          (0x1fc00000 + j)
          (record { size = 4; wstrb = wstrb })
          (held_word mem j)
          beats
          h
  unfolding board
  held_word-Serves h mem random j beats wstrb (e, size) below i word some_beat small =
      let info : Wen = record { size = 4; wstrb = wstrb } in
      let one_more : (i + 1) * 4 ≡ i * 4 + 4 = omega arith in
      let fits : (i + 1) * 4 ≤ beats * 4 = mul-le-mul_right 4 (omega arith) in
      let inside : Inside inst_range (0x1fc00000 + j + i * 4) info =
        unfold end in (omega arith, omega arith) in
      let whole : low_bytes 4 word (held_word mem j i) ≡ held_word mem j i = omega arith in
      let reads = read_memory p h mem (j + i * 4) info word e (inr (inr refl)) (omega arith) in
      let at_x : 0x1fc00000 + j + i * 4 - 0x1fc00000 ≡ j + i * 4 = omega arith in
      (access_routes (board n) [] ((confreg_range, registers c) ∷ []) inst_range (memory p)
        (0x1fc00000 + j + i * 4) info word h (devices-IsTable (memory p) (registers c)) inside).0
      ∙ rw (at_x, reads, whole) refl

  -- A write burst of words from 0x1fc00000 + j on.
  pub stored :
      (request last issued ready : Pins) (early delay held : List Pins) (beat : ℕ → Pins)
      (random j : ℕ) (w : WriteState) (sim : SimStatus) (h : Heap) (mem : List ℕ)
      → Holds p h mem
      → IsSized w
      → w.status ≡ Write.idel
      → w.out ≡ Cycles.idle_out
      → Sends beat random request last ready early delay held
      → request.awsize ≡ 2
      → of_signal request.awburst ≡ incr
      → request.awaddr ≡ 0x1fc00000 + j
      → ((k : ℕ) → (beat k).wstrb ≡ 15)
      → j + (request.awlen + 1) * 4 < 2 ^ 22
      → (w' : WriteState) × (end : SimStatus) × (h' : Heap) × (mem' : List ℕ) × (write_outputs
            (board n)
            (devices p c)
            random
            (transaction request early last delay issued held ready)
            w
            sim
            h
          ≡ done (
            transaction_outs (length early) (rand_delay random) (length held) request.awid true,
            w',
            end,
            h',
          ))
        × (w'.status ≡ Write.idel)
        × (w'.out ≡ Cycles.idle_out)
        × Holds p h' mem'
        × ((k : ℕ) → k < request.awlen + 1 → held_word mem' j k ≡ (beat k).wdata % 2 ^ 32)
  stored request last issued ready early delay held beat random j w sim h mem holds sized status out
        sends size kind start full below =
      let total = request.awlen + 1 in
      let addr : ℕ → ℕ = beat_addr incr request.awaddr 4 (total * 4) in
      let four : 2 ^ request.awsize ≡ 4 = ap (λ k. 2 ^ k) size in
      let few = sends.few in
      let (h', mem', wrote, holds', _, words) =
        bus_writes_lem n p c beat addr j total (λ k lt. omega (arith, start)) full below total 0 h
          mem (omega arith) holds in
      let (w', runs, idle, shown) =
        write_transaction (board n) (devices p c) random request last issued ready early delay held
          beat 0 w sim h h' true sized status out sends (omega (arith, size))
          (λ r. absurd (ground (arith, kind, r))) (λ r. absurd (ground (arith, kind, r)))
          (omega arith) (omega (arith, start)) (rw (kind, four) wrote) in
      (w', _, h', mem', runs, idle, shown, holds', (λ k lt. words k (omega arith) lt))

  -- A read burst of the memory.
  pub reload :
      (h : Heap) (mem : List ℕ) (random j : ℕ) (pins : Pins) (cycles : List Pins) (r : ReadState)
      (sim : SimStatus)
      → Holds p h mem
      → r.status ≡ idel
      → r.out ≡ idle_out
      → pins.arvalid ≡ true
      → pins.araddr ≡ 0x1fc00000 + j
      → pins.arlen < 255
      → pins.arsize ≡ 2
      → of_signal pins.arburst ≡ incr
      → j + (pins.arlen + 2) * 4 < 2 ^ 22
      → ((k : ℕ) → k + 1 < pins.arlen + 2 → held_word mem j k < 2 ^ 32)
      → length cycles ≡ rand_delay random + (pins.arlen + 3)
      → AllReady cycles
      → Shows
          (board n)
          (devices p c)
          random
          h
          (pins ∷ cycles)
          r
          sim
          (waiting_out
            ∷ (replicate (rand_delay random) waiting_out
                ++ burst_outs pins.arid (held_word mem j) 0 (suc pins.arlen)))
          (checked pins sim)
  reload h mem random j pins cycles r sim holds idle shown valid start len size kind below bounded
        many ready =
      let serves = held_word-Serves h mem random j (pins.arlen + 2) r.cur_info.wstrb holds below in
      read_burst (board n) (devices p c) random pins cycles r sim h (held_word mem j) idle shown
        valid len kind (rw (start, size) (omega arith)) bounded (rw (start, size) serves) many ready
