-- ===== src/Spaces/Fetch.antt =====
-- A burst of the CPU from the boot address on, after `main`'s set-up.
use my_diff.Base.{
  ℕ, ◌+◌, ◌*◌, ◌^◌, ◌<◌, ◌≤◌, ◌≡◌, refl, ap, ◌∙◌, subst, List, ◌∷◌, arith, length, true, some, done,
  inr,
}
use native.Mathlib.Nat.{mul-le-mul_right}
use my_diff.Base.Nemu.{Nemu}
use my_diff.Pmem.{low_bytes}
use my_diff.Axi.{Pins, SimStatus, incr, of_signal}
use my_diff.Axi.Read.{idel, ReadState, rand_delay}
use my_diff.Axi.Read.Beats.{AllReady}
use my_diff.Axi.Read.Data.{idle_out, Serves, Shows}
use my_diff.Axi.Read.Words.{checked, read_burst}
use my_diff.Axi.Write.{WriteState}
use my_diff.Axi.Write as Write
use my_diff.Axi.Write.Cycles as Cycles
use my_diff.Axi.Bus.Alone.{joined, NoWrites, bus_outputs, read_pins, reads_alone}
use my_diff.Board.{Heap, Allocator, board}
use my_diff.Board.Session.{perform}
use my_diff.Spaces.{Spaces, set_up}
use my_diff.Spaces.SetUp.{IsSetUp, set_up-IsSetUp}
use my_diff.Spaces.Boot.{file_value, boot_read}

-- The word of the file that beat `i` of a burst from `j` on shows.
abbrev pub file_word : List ℕ → ℕ → ℕ → ℕ
file_word file j i = file_value file (j + i * 4) 4

file_word-bound : (file : List ℕ) (j i : ℕ) → file_word file j i < 2 ^ 32
file_word-bound file j i = omega arith

file_word-Serves :
    (n : Nemu) (file : List ℕ) (s : Spaces) (random j beats wstrb : ℕ)
    → IsSetUp (some file) s
    → j + beats * 4 ≤ length file
    → j + beats * 4 < 2 ^ 22
    → Serves
        (board n)
        s.paddr_top
        random
        (0x1fc00000 + j)
        (record { size = 4; wstrb = wstrb })
        (file_word file j)
        beats
        s.heap
unfolding perform
file_word-Serves n file s random j beats wstrb u within below i word some_beat small =
    let one_more : (i + 1) * 4 ≡ i * 4 + 4 = omega arith in
    let inside : (i + 1) * 4 ≤ beats * 4 = mul-le-mul_right 4 (omega arith) in
    let at : 0x1fc00000 + j + i * 4 ≡ 0x1fc00000 + (j + i * 4) = omega arith in
    let whole : low_bytes 4 word (file_word file j i) ≡ file_word file j i = omega arith in
    rw at (
      boot_read n file s (j + i * 4) (record { size = 4; wstrb = wstrb }) word u (inr (inr refl))
        (omega arith) (omega arith)
      ∙ ap (λ v. done (true, v, s.heap)) whole)

-- The CPU boots from the file. After `main`'s set-up, and with both channels of the slave idle, the CPU
-- asks for an incrementing burst of words, of `arlen + 1` beats and at most 255, from 0x1fc00000 + j on,
-- where the file and the range have `arlen + 2` words from there; it is always ready, and asks for
-- nothing else. Then the slave's pins show nothing for `rand_delay()` cycles, and after them the words
-- of the file from `j` on in order, `arlen + 2` of them with `rlast` on the last, each with the
-- request's id and a good response; both channels are idle again, and the memory is as it was.
pub bus_outputs_fetch :
    (n : Nemu) (allocator : Allocator) (file : List ℕ) (h : Heap) (s : Spaces)
    (read_random write_random j : ℕ) (pins : Pins) (cycles : List Pins) (r : ReadState)
    (w : WriteState) (sim : SimStatus)
    → length file < 2 ^ 64
    → set_up n allocator (some file) h ≡ done s
    → r.status ≡ idel
    → r.out ≡ idle_out
    → w.status ≡ Write.idel
    → w.out ≡ Cycles.idle_out
    → pins.arvalid ≡ true
    → pins.araddr ≡ 0x1fc00000 + j
    → pins.arlen < 255
    → pins.arsize ≡ 2
    → of_signal pins.arburst ≡ incr
    → j + (pins.arlen + 2) * 4 ≤ length file
    → j + (pins.arlen + 2) * 4 < 2 ^ 22
    → length cycles ≡ rand_delay read_random + (pins.arlen + 3)
    → AllReady cycles
    → NoWrites (pins ∷ cycles)
    → (r' : ReadState) × (bus_outputs
          (board n)
          s.paddr_top
          read_random
          write_random
          (pins ∷ cycles)
          (joined r w)
          sim
          s.heap
        ≡ done (
          read_pins (rand_delay read_random) pins.arid (file_word file j) pins.arlen,
          joined r' w,
          checked pins sim,
          s.heap,
        ))
      × (r'.status ≡ idel)
unfolding Shows
bus_outputs_fetch n allocator file h s read_random write_random j pins cycles r w sim small ran idle
      shown w_idle w_out valid start len size kind within below many ready no_writes =
    let (s', ran', u') = set_up-IsSetUp n allocator (some file) h small in
    let u = subst (IsSetUp (some file)) {x = s'} {y = s} (cc) u' in
    let serves =
      file_word-Serves n file s read_random j (pins.arlen + 2) r.cur_info.wstrb u within below in
    let (r', shows, ends, _) =
      read_burst (board n) s.paddr_top read_random pins cycles r sim s.heap (file_word file j) idle
        shown valid len kind (rw (start, size) (omega arith)) (λ i _. file_word-bound file j i)
        (rw (start, size) serves) many ready in
    (
      r',
      reads_alone (board n) s.paddr_top read_random write_random (pins ∷ cycles) r r' w sim
          (checked pins sim) s.heap s.heap _ Cycles.idle_out w_idle w_out no_writes shows,
      ends,
    )
