-- ===== src/Axi/Tests.antt =====
-- Concrete runs of the AXI slave, and of its theorems.
use my_diff.Base.{ℕ, ◌+◌, ◌≡◌, ◌⊎◌, refl, true, false, List, [], ◌∷◌, arith, ◌==◌, done}
use my_diff.Paddr.{Wen, PaddrTop}
use my_diff.Paddr
use my_diff.Axi.{
  incr, wrap, of_signal, sim_run, sim_abort, Pins, check_axi_req, check_wrap, wrap_mask, wrap_base,
}
use my_diff.Axi.Request.{Taken, check_axi_req_lem}
use my_diff.Axi.Address.{walk, walk-axi_addr}
use my_diff.Axi.Read.{
  ReadState, rand_delay, read_eval, start_read, accept_read_req, set_wrap, idel_wait_read,
}
use my_diff.Axi.Read as Read
use my_diff.Axi.Write.{accept_write_req, do_all_write, write_eval, start_write, idel_wait_write}
use my_diff.Axi.Write as Write
use my_diff.Axi.Write.Cycles as Cycles
use my_diff.Axi.Bus.{AxiPaddr, reset, update_output, calculate_output}
use my_diff.Axi.Bus.Handshake.{Shows, Runs, stay, then_cycle, bus_cycle, handshake_invariant}
use my_diff.Samples.{bus, register, table, quiet}

check_axi_req_lem_example :
    (Taken 2 incr 0x1ffc 2 × (check_axi_req 4 incr 0x1ffc 2 sim_run ≡ sim_run))
    ⊎ ((¬ Taken 2 incr 0x1ffc 2) × (check_axi_req 4 incr 0x1ffc 2 sim_run ≡ sim_abort))
check_axi_req_lem_example =
    check_axi_req_lem 2 incr 0x1ffc 2 sim_run (omega arith) (omega arith) (omega arith)
      (omega arith)

walk-axi_addr_example :
    walk wrap (wrap_mask 4 2) (wrap_base 0x1008 (wrap_mask 4 2)) 4 0x1008 3 ≡ done 0x1004
walk-axi_addr_example =
    walk-axi_addr wrap 2 2 0x1008 3 (ground arith) (omega arith) (omega arith) refl (omega arith)

-- A wrapping burst of two words, that begins at the second one.
abbrev two_reads : Pins
two_reads = record quiet {
  arid = 5;
  araddr = 0x1004;
  arlen = 1;
  arsize = 2;
  arburst = 2;
  arvalid = true;
}

-- Two words from `0x1004` on, of which the second goes round to `0x1000`.
abbrev two_writes : Pins
two_writes = record quiet {
  awid = 3;
  awaddr = 0x1004;
  awlen = 1;
  awsize = 2;
  awburst = 2;
  awvalid = true;
}

abbrev beat : ℕ → Pins
beat i = record quiet { wid = 3; wdata = 100 + i; wstrb = 0xf; wlast = i == 1; wvalid = true }

-- The CPU pauses before each of its beats, and does not take the answer at once.
abbrev slow : Pins
slow = record quiet { bready = false }

abbrev early : List Pins
early = slow ∷ beat 0 ∷ slow ∷ []

-- One cycle after `reset`, in which a read request arrives.
abbrev started : AxiPaddr
started = update_output (record (reset bus) {
  read =
      (accept_read_req two_reads 0 (record ((reset bus).read) { status = Read.req_ok }) sim_run).0;
})

request_cycle :
    Runs register table ((two_reads, 0, 0) ∷ []) (reset bus) sim_run 40 started sim_run 40
unfolding bus_cycle calculate_output read_eval write_eval start_read start_write reset update_output
    idel_wait_read idel_wait_write accept_read_req set_wrap check_axi_req check_wrap of_signal
request_cycle = then_cycle refl (ground arith) stay

handshake_invariant_example : Shows started
handshake_invariant_example =
    handshake_invariant register table (two_reads, 0, 0) [] bus started sim_run sim_run 40 40
      request_cycle
