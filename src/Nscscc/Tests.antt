-- ===== src/Nscscc/Tests.antt =====
-- Concrete runs of `nscscc_confreg`, and of its theorems.
use my_diff.Base.{◌≡◌, ◌↔◌, refl, true, false, List, [], ◌∷◌, arith, done, aborted, fault}
use my_diff.Confreg as Confreg
use my_diff.Difftest.Export.{DebugInfo}
use my_diff.Nscscc.{
  NscsccConfreg, Entry, error, last, reference, mycpu, init, tick, set_switch, set_trace_file,
  set_force_trace, do_read, do_write, read_label, write_label, has_uart, get_uart, get_num,
  trace_on, judge, read_ref, do_trace,
}
use my_diff.Nscscc.Registers.{registers, seen, seen_write, as_signed, same_registers}
use my_diff.Nscscc.Trace.{Agree, render, expected, writes, accepts, accepts_lem}
use my_diff.Samples.{word_access}

-- A device's storage, all zero.
abbrev raw : NscsccConfreg
raw = record {
  cr0 = 0;
  cr1 = 0;
  cr2 = 0;
  cr3 = 0;
  cr4 = 0;
  cr5 = 0;
  cr6 = 0;
  cr7 = 0;
  switch_data = 0;
  switch_inter_data = 0;
  timer = 0;
  led = 0;
  led_rg0 = 0;
  led_rg1 = 0;
  num = 0;
  simu_flag = 0;
  io_simu = 0;
  virtual_uart = 0;
  open_trace = 0;
  num_monitor = 0;
  uart_queue = [];
  force_trace = false;
  last_pc = 0;
  last_wnum = 0;
  last_wdata = 0;
  trace_file = [];
  confreg_read = 0;
  confreg_write = 0;
}

abbrev trace : List Entry
trace =
    record { cmp_flag = 1; pc = 0xbfc00000; wnum = 8; wdata = 5 }
    ∷ record { cmp_flag = 0; pc = 0xbfc00004; wnum = 9; wdata = 6 }
    ∷ record { cmp_flag = 1; pc = 0xbfc00008; wnum = 10; wdata = 7 }
    ∷ []

abbrev traced : NscsccConfreg
traced = record raw { open_trace = 1; trace_file = render trace }

abbrev garbage : Entry
garbage = record { cmp_flag = 0; pc = 0; wnum = 0; wdata = 0 }

abbrev commits : List DebugInfo
commits =
    record { pc = 0xbfc00000; wen = 0xf; wnum = 8; wdata = 5 }
    ∷ record { pc = 0xbfc00004; wen = 0; wnum = 9; wdata = 6 }
    ∷ record { pc = 0xbfc00008; wen = 0xf; wnum = 10; wdata = 7 }
    ∷ []

read_signed :
    do_read (record raw { virtual_uart = 0xe9 }) 0xfff0 4
    ≡ done (true, 0xffffffe9, record raw { virtual_uart = 0xe9; confreg_read = 1 })
unfolding do_read read_label Confreg.label
read_signed = refl

write_byte :
    do_write raw 0xfff0 1 0x1e9
    ≡ done (true, record raw { virtual_uart = 0xe9; uart_queue = 0xe9 ∷ []; confreg_write = 1 })
unfolding do_write write_label Confreg.label
write_byte = refl

write_half : do_write raw 0xfff0 2 7 ≡ aborted
unfolding do_write
write_half = refl

one_byte :
    (has_uart (record raw { uart_queue = 7 ∷ [] }) ≡ true)
    × (get_uart (record raw { uart_queue = 7 ∷ [] }) ≡ done (7, raw))
    × (get_uart raw ≡ fault)
unfolding has_uart get_uart
one_byte = (refl, refl, refl)

number : get_num (record raw { num = 12 }) ≡ 12
unfolding get_num
number = refl

forced : (trace_on (set_force_trace raw true) ≡ true) × (trace_on raw ≡ false)
unfolding trace_on set_force_trace
forced = (refl, refl)

-- A mismatch prints four lines, and keeps the last commit that agreed.
mismatch :
    do_trace
      (set_trace_file (record raw { open_trace = 1 }) (render trace))
      0xbfc00000
      15
      8
      6
      true
      garbage
    ≡ (
      false,
      error ∷ last 0 0 0 ∷ reference 0xbfc00000 8 5 ∷ mycpu 0xbfc00000 8 6 ∷ [],
      record traced { trace_file = 0 ∷ 0xbfc00004 ∷ 9 ∷ 6 ∷ 1 ∷ 0xbfc00008 ∷ 10 ∷ 7 ∷ [] },
    )
unfolding do_trace judge read_ref set_trace_file
mismatch = refl

-- At the end of the file a commit is compared with what is in the variables.
file_ended :
    do_trace
      (record raw { open_trace = 1 })
      0x40
      15
      8
      6
      false
      (record { cmp_flag = 0; pc = 0x40; wnum = 8; wdata = 6 })
    ≡ (true, [], record raw { open_trace = 1; last_pc = 0x40; last_wnum = 8; last_wdata = 6 })
unfolding do_trace judge read_ref
file_ended = refl

same_registers_example :
    (seen (do_read raw 0xfff0 4)
      ≡ as_signed 0xfff0 (Confreg.do_read (registers raw) 0xfff0 word_access 0))
    × (seen_write (do_write raw 0xfff0 4 0x1e9)
        ≡ Confreg.do_write (registers raw) 0xfff0 word_access 0x1e9)
    × (registers (init raw true) ≡ Confreg.init true)
    × (registers (tick raw) ≡ Confreg.tick (registers raw))
    × (registers (set_switch raw 0x5a) ≡ Confreg.set_switch (registers raw) 0x5a)
same_registers_example = same_registers raw 0xfff0 word_access 0x1e9 0 0x5a true

accepts_lem_example :
    (accepts traced commits garbage ≡ true) ↔ Agree (writes commits) (expected false trace)
accepts_lem_example =
    accepts_lem commits traced trace garbage refl (unfold trace_on in refl) (omega arith)
