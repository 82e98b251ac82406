-- ===== src/Lib.antt =====
-- A verification library for MyDIFF, a differential tester that runs a CPU in Verilator against NEMU.
-- It is about the simulated board that the CPU sees: an AXI slave in front of an address space with
-- memory and configuration registers.
--
-- The program's parts and where they are modelled:
-- - include/PaddrInterface.hpp, csrc/device/PaddrTop.cpp: address ranges (`AddrIntv`), the interface
--   of a device and the top that routes an access to a device. `Paddr`: `of_len` and `of_bits` are the
--   two constructors, `PaddrInterface` the virtual functions, and `add_dev`, `do_read`, `do_write`,
--   `deep_copy` those of `PaddrTop`, over any devices `D` that live in a state `S`.
-- - csrc/device/Pmem.cpp: a memory. `Pmem`: a list of bytes, with the operations of the same names.
--   `Board` has the `Pmem` objects, whose arrays two of them can share, in a store (`Heap`) with the
--   `PaddrConfreg` objects: constructors, `deep_copy`, the destructor, and the files. `board` is the
--   `PaddrInterface` of these devices; `Board.Session` has accesses in sequence, by one or by two masters.
-- - csrc/device/PaddrConfreg.cpp: the board's configuration registers. `Confreg`: the record has the
--   class's members; a `switch` on an address is a function of its case label.
-- - csrc/axi.cpp, include/axi.hpp: the AXI slave `axi_paddr`. `Axi` checks requests and steps
--   addresses, `Axi.Read` and `Axi.Write` are the state machines of the channels, `Axi.Bus` joins
--   them. `r_…` and `w_…` members are the fields of `ReadState` and `WriteState`, and `s_…` outputs
--   those of `ReadOut` and `WriteOut`. The slave calls `PaddrTop::do_read` and `do_write`, and each
--   cycle of the main loop calls `calculate_output` and then `update_output`.
-- - include/device/mmio_mem.hpp: a memory that can wrap addresses and compare what is written with
--   another memory. `MmioMem`.
-- - include/device/nscscc_confreg.hpp: the same registers with another interface, and the comparison of
--   the CPU's commits with a trace. `Nscscc`: `read_ref` is the loop of `do_trace`, `judge` the rest of it.
-- - include/device/uart8250.hpp: a UART with the registers of an 8250. `Uart8250`.
-- - include/device/uartlite.hpp: a UART with two queues. `Uartlite`.
-- - csrc/difftest.cpp, csrc/dpic/export.cpp: the comparison of the CPU with NEMU, and what the CPU
--   exports. `Difftest`: `Difftest.Report` has the lines of `difftest_show_error`, `Difftest.Load`
--   `difftest_init` with the dynamic linker as a parameter.
-- - csrc/diff-main.cpp: the main loop. `Sim`: `iterate` is the body of the `while`, `posedge` its part on
--   a positive edge of the clock, `commit` the comparison after a commit; `Sim.Emulator` has NEMU as the
--   loop meets it, instructions that call `paddr_do_read` and `paddr_do_write`; `Sim.Program` has `main`
--   from the set-up of its devices on, `Sim.Args` the loop of `parse_args` on what `getopt_long` returns,
--   `Sim.Start` the whole of `main` in front of these, `Sim.Soundness` and `Sim.Isolation` are about the
--   loop, and `Sim.Golden` has the comparison with a golden trace.
-- - csrc/diff-main.cpp, csrc/diff_proj/nemu_paddr_top.cc: the address spaces. `Spaces`: `set_up` is the
--   part of `main` that makes the CPU's space and the copy for NEMU, `new_paddr_top` the space that
--   NEMU can ask for. `Spaces.Fetch` and `Spaces.Reload` are about the slave on the space that is set up,
--   over the cycles of `Axi.Bus.Alone`.
-- - csrc/log.cpp: the log. `Log`: the ring of lines of CONFIG_LRING_ENABLE, `log_init` and `lring_print`,
--   for any size of the ring; `Log.Direct` the `log_init` without it.
--
-- `Base` has what they share: numbers with the wrap-around of C's words, byte lists, bit masks, and
-- `Outcome`, how a call ends: it returns (`done`), a failed `assert` stops the program (`aborted`), or
-- it reads or writes outside its storage (`fault`). NEMU's macros are not part of this repository:
-- `Base.Nemu` is a record of them with what the code relies on. `Samples` has concrete values for the
-- tests, which stand in the modules `Tests`.
--
-- Bounds: addresses and words are natural numbers, cut to their 8, 32 or 64 bits where the code stores
-- them; theorems say where they need an address below 2 ^ 32. Loops are recursions on a list or on a
-- count, and need no fuel. `rand()` and the CPU's signals are arguments of each cycle. A
-- `__ASSERT_SIM__` that fails sets `sim_status`; its message is left out. The host is little endian.
--
-- Not modelled: what is written to the log, `getopt_long`, file output, the handler of SIGINT and wave
-- traces. Files are the bytes in them. The Verilated CPU and NEMU's code are parameters of `Sim`; NEMU's
-- tick is taken not to reach memory. `Board.Session` has the accesses of both as sequences.
pub mod Axi
pub mod Base
pub mod Board
pub mod Confreg
pub mod Difftest
pub mod Log
pub mod MmioMem
pub mod Nscscc
pub mod Paddr
pub mod Pmem
pub mod Samples
pub mod Sim
pub mod Spaces
pub mod Uart8250
pub mod Uartlite
