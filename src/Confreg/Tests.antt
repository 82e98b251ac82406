-- ===== src/Confreg/Tests.antt =====
-- Concrete runs of `PaddrConfreg`, and of its theorems.
use my_diff.Base.{
  ℕ, ◌*◌, ◌/◌, ◌%◌, ◌^◌, ◌≡◌, refl, true, false, List, [], ◌∷◌, ◌++◌, map, length, arith, done,
  aborted, fault,
}
use my_diff.Paddr.{Wen}
use my_diff.Confreg.{
  PaddrConfreg, init, tick, set_switch, inter_bits, do_read, do_write, write_label, label, get_num,
  get_uart, has_uart,
}
use my_diff.Confreg.Registers.{register_file}
use my_diff.Confreg.Switch.{set_switch_lem}
use my_diff.Confreg.Uart.{send, receive, receive-send}
use my_diff.Samples.{word_access}

abbrev half_access : Wen
half_access = record { size = 2; wstrb = 0x3 }

init_simulation : (init true).simu_flag ≡ 0xffffffff
unfolding init
init_simulation = refl

init_switches : ((init false).switch_data ≡ 0xf) × ((init false).switch_inter_data ≡ 0xaaaa)
unfolding init set_switch inter_bits
init_switches = (refl, refl)

tick_wraps : (tick (record (init false) { timer = 0xffffffff })).timer ≡ 0
unfolding tick init
tick_wraps = refl

write_num :
    do_write (init false) 0xf010 word_access 7
    ≡ done (true, record (init false) { num = 7; confreg_write = 1 })
unfolding do_write init label write_label set_switch
write_num = refl

write_half : do_write (init false) 0xf010 half_access 7 ≡ aborted
unfolding do_write
write_half = refl

num_of_init : get_num (record (init false) { num = 12 }) ≡ 12
unfolding get_num
num_of_init = refl

empty_uart : get_uart (init false) ≡ fault
unfolding get_uart init set_switch
empty_uart = refl

no_uart : has_uart (init true) ≡ false
unfolding has_uart init set_switch
no_uart = refl

register_file_example :
    (c' c'' : PaddrConfreg) × (do_write (init false) 0xffec word_access 0x12345678
      ≡ done (true, c'))
    × (do_read c' 0xffec word_access 0 ≡ done (true, 0x56781234, c''))
unfolding label
register_file_example =
    register_file (init false) 0xffec 0xffec word_access word_access 0x12345678 0 refl refl
      (omega arith)

set_switch_lem_example :
    ((set_switch (init false) 0x5a).switch_inter_data / 2 ^ (2 * 2) % 4 ≡ 2)
    × ((set_switch (init false) 0x5a).switch_data ≡ 0x55)
set_switch_lem_example = set_switch_lem (init false) 0x5a 2 (omega arith) (omega arith)

abbrev greeting : List ℕ
greeting = 0x48 ∷ 0x169 ∷ []

receive-send_example :
    let bytes = (init false).uart_queue ++ map (λ w. w % 256) greeting in
    (c' c'' : PaddrConfreg) × (send (init false) greeting ≡ done c')
    × (receive c' (length bytes) ≡ done (bytes, c''))
    × (has_uart c'' ≡ false)
receive-send_example = receive-send greeting (init false)
