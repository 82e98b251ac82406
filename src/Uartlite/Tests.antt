-- ===== src/Uartlite/Tests.antt =====
-- Concrete runs of `uartlite`, and of its theorems.
use my_diff.Base.{◌≡◌, refl, true, false, [], ◌∷◌, map, done}
use my_diff.Pmem.{load, read_file, store_byte}
use my_diff.MmioMem.{copy_out}
use my_diff.Uartlite.{
  Uartlite, init, do_read, do_write, set_regs, refresh, touches, push_tx, obey, putc, getc, irq,
  exist_tx, extend, word_bytes, control_offset,
}
use my_diff.Uartlite.Queues.{type_chars, read_chars, uartlite_receive}

-- A UART with one character to read and one to send.
abbrev busy : Uartlite
busy = record {
  rx_fifo = 0;
  tx_fifo = 0x41;
  status = 4;
  control = 0;
  rx = 0x61 ∷ [];
  tx = 0x41 ∷ [];
  wait_ack = false;
}

read_status : do_read init 8 4 ≡ done (true, 4 ∷ 0 ∷ 0 ∷ 0 ∷ [], init)
unfolding do_read init refresh touches copy_out
read_status = refl

read_past_end : do_read init 14 4 ≡ done (false, [], init)
unfolding do_read
read_past_end = refl

reset_queues :
    do_write busy control_offset (3 ∷ 0 ∷ 0 ∷ 0 ∷ [])
    ≡ done (true, record busy { control = 3; rx = []; tx = [] })
unfolding do_write touches set_regs push_tx obey read_file store_byte load
reset_queues = refl

irq_of_typed : irq (putc init 0x61) ≡ true
unfolding irq putc init
irq_of_typed = refl

-- The interrupt that says that the last character has been taken.
irq_of_taken : irq (getc (record busy { rx = [] })).1 ≡ true
unfolding irq getc
irq_of_taken = refl

get_of_empty : getc init ≡ (255, init)
unfolding getc init
get_of_empty = refl

nothing_to_send : exist_tx init ≡ false
unfolding exist_tx init
nothing_to_send = refl

uartlite_receive_example :
    (u' : Uartlite) × (read_chars (type_chars busy (0x62 ∷ 0x80 ∷ [])) 3
      ≡ done (map (λ c. word_bytes (extend c)) (0x61 ∷ 0x62 ∷ 0x80 ∷ []), u'))
    × (u'.rx ≡ [])
uartlite_receive_example = uartlite_receive (0x62 ∷ 0x80 ∷ []) busy
