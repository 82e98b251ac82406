-- ===== src/Uart8250/Tests.antt =====
-- Concrete runs of `uart8250`, and of its theorems.
use my_diff.Base.{◌≡◌, refl, true, false, [], ◌∷◌, arith, done, aborted}
use my_diff.Uart8250.{
  Uart8250, init, do_read, do_write, read_known, read_register, read_rx, write_known,
  write_register, update_iir, iir_value, putc, getc, irq, exist_tx,
}
use my_diff.Uart8250.Interrupt.{interrupt_lem}
use my_diff.Uart8250.Lines.{type_chars, read_chars, uart8250_receive}

-- Both interrupts are enabled and wait.
abbrev busy : Uart8250
busy = record {
  rx = 0x61 ∷ [];
  tx = [];
  thr_empty = true;
  dll = 1;
  dlm = 0;
  ier = 3;
  lcr = 3;
  iir = 0;
  mcr = 0;
}

read_identification :
    do_read busy 2 1 0 ≡ done (true, 0xc6, record busy { iir = 0xc6; thr_empty = false })
unfolding do_read read_known read_register update_iir iir_value
read_identification = refl

read_line_status : do_read busy 5 1 0 ≡ done (true, 0x61, busy)
unfolding do_read read_known read_register
read_line_status = refl

read_empty : do_read init 0 1 9 ≡ done (true, 9, init)
unfolding do_read read_known read_register read_rx init
read_empty = refl

read_word : do_read init 0 4 9 ≡ aborted
unfolding do_read
read_word = refl

read_unknown : do_read init 8 1 9 ≡ aborted
unfolding do_read read_known
read_unknown = refl

clear_queues : do_write busy 2 1 6 ≡ done (true, record busy { rx = [] })
unfolding do_write write_known write_register
clear_queues = refl

get_last : getc (record busy { tx = 0x41 ∷ []; thr_empty = false }) ≡ (0x41, busy)
unfolding getc
get_last = refl

get_of_empty : (getc init).0 ≡ 255
unfolding getc init
get_of_empty = refl

nothing_to_send : exist_tx init ≡ false
unfolding exist_tx init
nothing_to_send = refl

no_interrupt : (irq (putc init 0x61)).0 ≡ false
unfolding irq putc init update_iir iir_value
no_interrupt = refl

interrupt_lem_example :
    (u' : Uart8250) × (do_read busy 2 1 0 ≡ done (true, 0xc6, u'))
    × ((irq busy).0 ≡ true)
    × ((irq u').0 ≡ true)
interrupt_lem_example = interrupt_lem busy 0

uart8250_receive_example :
    (u' : Uart8250) × (read_chars (type_chars busy (0x62 ∷ 0x80 ∷ [])) 3
      ≡ done (0x61 ∷ 0x62 ∷ 0x80 ∷ [], u'))
    × (u'.rx ≡ [])
uart8250_receive_example = uart8250_receive (0x62 ∷ 0x80 ∷ []) busy (omega arith)
