-- ===== src/Spaces/Tests.antt =====
-- The theorems on the set-up at a small file.
use my_diff.Base.{
  false, List, ◌++◌, ◌==◌, ℕ, ◌+◌, ◌^◌, ◌%◌, ◌<◌, ◌≤◌, ◌≡◌, ◌≢◌, ◌⊎◌, inr, refl, true, [], ◌∷◌,
  arith, some, done, replicate,
}
use my_diff.Paddr.{Wen, AddrIntv, PaddrTop}
use my_diff.Paddr as Paddr
use my_diff.Pmem.{low_bytes}
use my_diff.Pmem.Lanes.{IsSize}
use my_diff.Axi.{Pins, SimStatus, of_signal, sim_run, next_addr}
use my_diff.Axi.Read.{ReadState, idel, accept_read_req}
use my_diff.Axi.Read.Beats.{AllReady-replicate, Answers, read_cycles}
use my_diff.Axi.Read.Transaction.{requested, read_transaction}
use my_diff.Axi.Write.Accept.{IsSized}
use my_diff.Axi.Read.Words.{checked}
use my_diff.Axi.Write as Write
use my_diff.Axi.Write.Cycles.{pause, send, all_sent}
use my_diff.Axi.Write.Channel.{Sends, transaction}
use my_diff.Axi.Bus.{AxiPaddr}
use my_diff.Axi.Bus.Alone.{
  joined, NoReads-replicate, NoReads-append, NoWrites-replicate, bus_outputs, read_pins, write_pins,
}
use my_diff.Board.{Heap, Dev, board}
use my_diff.Board.Session.{perform, get, session, dut, ref, of_dut, of_ref, interleave}
use my_diff.Spaces.{Spaces, set_up, new_paddr_top, paddr_do_read, paddr_do_write}
use my_diff.Spaces.SetUp.{IsSetUp, set_up-IsSetUp}
use my_diff.Spaces.Boot.{file_value, boot_read, set_up_boot, set_up-interleave}
use my_diff.Spaces.Fetch.{file_word, bus_outputs_fetch}
use my_diff.Spaces.Reload.{bus_outputs_reload}
use my_diff.Spaces.Sharing.{new_paddr_top_shares}
use my_diff.Samples.{nemu, word_access, clear, nothing, program, quiet, reader, writer}

set_up_boot_example :
    (s : Spaces) × (set_up nemu clear (some program) nothing ≡ done s)
    × ((j word : ℕ) (info : Wen)
        → IsSize info.size
        → j + info.size ≤ 8
        → j + info.size < 2 ^ 22
        → let served = low_bytes info.size word (file_value program j info.size) in
          (k : Heap) × (Paddr.do_read (board nemu) s.paddr_top (0x1fc00000 + j) info word s.heap
            ≡ done (true, served, s.heap))
          × (paddr_do_read nemu s.nemu_paddr_top (0x1fc00000 + j) info word s.heap
              ≡ done (true, served, k)))
set_up_boot_example = set_up_boot nemu clear program nothing (omega arith)

-- The spaces that are set up.
spaces : Spaces
spaces = (set_up-IsSetUp nemu clear (some program) nothing (omega arith)).0

spaces_lem : set_up nemu clear (some program) nothing ≡ done spaces
unfolding spaces
spaces_lem = (set_up-IsSetUp nemu clear (some program) nothing (omega arith)).1

spaces-IsSetUp : IsSetUp (some program) spaces
unfolding spaces
spaces-IsSetUp = (set_up-IsSetUp nemu clear (some program) nothing (omega arith)).2

-- Both fetch an instruction.
fetch :
    (j : ℕ)
    → j + 4 ≤ 8
    → session nemu spaces.paddr_top (get (0x1fc00000 + j) word_access 0 ∷ []) spaces.heap
      ≡ done ((true, low_bytes 4 0 (file_value program j 4)) ∷ [], spaces.heap)
unfolding session
fetch j h =
    rw
      (boot_read nemu program spaces j word_access 0 spaces-IsSetUp (inr (inr refl)) h
        (omega arith))
      refl

set_up-interleave_example :
    (k : Heap) × (interleave nemu spaces.paddr_top spaces.nemu_paddr_top
        (ref (get 0x1fc00000 word_access 0) ∷ dut (get 0x1fc00004 word_access 0) ∷ [])
        spaces.heap
      ≡ done ((true, 0x08070605) ∷ [], (true, 0x04030201) ∷ [], k))
unfolding of_dut of_ref
set_up-interleave_example =
    set_up-interleave nemu clear (some program) nothing spaces.heap spaces.heap spaces
      (ref (get 0x1fc00000 word_access 0) ∷ dut (get 0x1fc00004 word_access 0) ∷ [])
      ((true, 0x08070605) ∷ []) ((true, 0x04030201) ∷ []) (omega arith) spaces_lem
      (fetch 4 (omega arith)) (fetch 0 (omega arith))

new_paddr_top_shares_example :
    (top : PaddrTop Dev) × (k : Heap) × (new_paddr_top nemu clear (some program) nothing
      ≡ done (top, k))
    × ((x word w : ℕ) (info : Wen)
        → IsSize info.size
        → (info.size ≢ 4) ⊎ (info.wstrb ≡ 15)
        → x + info.size < 2 ^ 22
        → let back = low_bytes info.size w (word % 256 ^ info.size) in
          ((k' : Heap) × (paddr_do_write nemu top (0x1fc00000 + x) info word k ≡ done (true, k'))
            × (paddr_do_read nemu top x info w k' ≡ done (true, back, k')))
          × ((k' : Heap) × (paddr_do_write nemu top x info word k ≡ done (true, k'))
              × (paddr_do_read nemu top (0x1fc00000 + x) info w k' ≡ done (true, back, k'))))
new_paddr_top_shares_example = new_paddr_top_shares nemu clear (some program) nothing (omega arith)

-- A fetch of the first two instructions.
abbrev first_fetch : Pins
first_fetch = record quiet {
  arid = 1;
  araddr = 0x1fc00000;
  arsize = 2;
  arburst = 1;
  arvalid = true;
}

bus_outputs_fetch_example :
    (r' : ReadState) × (bus_outputs
        (board nemu)
        spaces.paddr_top
        0
        0
        (first_fetch ∷ replicate 19 quiet)
        (joined reader writer)
        sim_run
        spaces.heap
      ≡ done (
        read_pins 16 1 (file_word program 0) 0,
        joined r' writer,
        checked first_fetch sim_run,
        spaces.heap,
      ))
    × (r'.status ≡ idel)
bus_outputs_fetch_example =
    bus_outputs_fetch nemu clear program nothing spaces 0 0 0 first_fetch (replicate 19 quiet)
      reader writer sim_run (omega arith) spaces_lem refl refl refl refl refl refl (omega arith)
      refl (unfold of_signal in refl) (omega arith) (omega arith) refl
      (AllReady-replicate 19 quiet refl) (refl, NoWrites-replicate 19 quiet refl)

-- Two words are written, and read back.
abbrev two_writes : Pins
two_writes = record quiet {
  awid = 3;
  awaddr = 0x1fc00000;
  awlen = 1;
  awsize = 2;
  awburst = 1;
  awvalid = true;
}

abbrev full_beat : ℕ → Pins
full_beat i = record quiet { wid = 3; wdata = 100 + i; wstrb = 15; wlast = i == 1; wvalid = true }

abbrev two_reads : Pins
two_reads = record first_fetch { arlen = 1 }

writer-IsSized : IsSized writer
writer-IsSized = record { addrs = refl; infos = refl; words = refl }

-- It pauses once, and the answer waits for a cycle.
abbrev slow : Pins
slow = record quiet { bready = false }

abbrev pausing : List Pins
pausing = quiet ∷ full_beat 0 ∷ []

two_writes-Sends :
    Sends full_beat 0 two_writes (full_beat 1) quiet pausing (replicate 16 quiet) (slow ∷ [])
two_writes-Sends = record {
  valid = refl;
  few = omega arith;
  delivers = pause refl (send refl refl refl (omega arith) (all_sent refl));
  is_last = refl;
  last_valid = refl;
  last_marked = refl;
  delayed = refl;
  busy = (refl, tt);
  takes = refl;
}

bus_outputs_reload_example :
    (words : ℕ → ℕ) × (a : AxiPaddr) × (end : SimStatus) × (h' : Heap) × (bus_outputs
        (board nemu)
        spaces.paddr_top
        0
        0
        (transaction two_writes pausing (full_beat 1) (replicate 16 quiet) quiet (slow ∷ []) quiet
          ++ (two_reads ∷ replicate 20 quiet))
        (joined reader writer)
        sim_run
        spaces.heap
      ≡ done (write_pins 2 16 1 3 ++ read_pins 16 1 words 1, a, end, h'))
    × ((k : ℕ) → k < 2 → words k ≡ (full_beat k).wdata % 2 ^ 32)
    × (a.read.status ≡ idel)
    × (a.write.status ≡ Write.idel)
bus_outputs_reload_example =
    bus_outputs_reload nemu clear (some program) nothing spaces two_writes (full_beat 1) quiet quiet
      pausing (replicate 16 quiet) (slow ∷ []) full_beat 0 0 0 writer reader sim_run two_reads
      (replicate 20 quiet) (omega arith) spaces_lem writer-IsSized refl refl refl refl
      two_writes-Sends refl (unfold of_signal in refl) refl (λ k. refl) (omega arith)
      (NoReads-append (two_writes ∷ quiet ∷ full_beat 0 ∷ full_beat 1 ∷ [])
        (replicate 16 quiet ++ (quiet ∷ slow ∷ quiet ∷ [])) (refl, (refl, (refl, (refl, tt))))
        (NoReads-append (replicate 16 quiet) (quiet ∷ slow ∷ quiet ∷ [])
          (NoReads-replicate 16 quiet refl) (refl, (refl, (refl, tt)))))
      refl refl refl refl (unfold of_signal in refl) refl (AllReady-replicate 20 quiet refl)
      (refl, NoWrites-replicate 20 quiet refl)

-- A burst of two beats that both read the first instruction.
abbrev fixed_fetch : Pins
fixed_fetch = record first_fetch { arlen = 1; arburst = 0 }

-- The burst stays at its address, and no read changes the memory.
abbrev At : ℕ → Heap → Type 0
At addr h = (addr ≡ 0x1fc00000) × (h ≡ spaces.heap)

fixed_fetch-Answers :
    Answers
      (board nemu)
      spaces.paddr_top
      0
      At
      (requested (board nemu) spaces.paddr_top 0 At fixed_fetch reader sim_run)
unfolding accept_read_req of_signal next_addr perform
fixed_fetch-Answers addr word h (at, same) = (
  (true, low_bytes 4 word (file_value program 0 4), spaces.heap),
  rw (at, same)
      (boot_read nemu program spaces 0 (record { size = 4; wstrb = 0 }) word spaces-IsSetUp
        (inr (inr refl)) (omega arith) (omega arith)),
  λ next stays. (ground arith, refl),
)

read_transaction_example :
    (r' : ReadState) × (h' : Heap) × (read_cycles
        (board nemu)
        spaces.paddr_top
        0
        (fixed_fetch ∷ replicate 20 quiet)
        reader
        sim_run
        spaces.heap
      ≡ done (
        (false, false)
            ∷ (replicate 16 (false, false)
                ++ (replicate 2 (true, false) ++ ((true, true) ∷ (false, false) ∷ []))),
        r',
        h',
      ))
    × (r'.status ≡ idel)
read_transaction_example =
    read_transaction (board nemu) spaces.paddr_top 0 At fixed_fetch (replicate 20 quiet) reader
      sim_run spaces.heap refl refl refl (omega arith) (unfold of_signal in ground arith)
      fixed_fetch-Answers (refl, refl) refl (AllReady-replicate 20 quiet refl)
