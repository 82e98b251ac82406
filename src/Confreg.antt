-- ===== src/Confreg.antt =====
-- csrc/device/PaddrConfreg.cpp: the board's configuration registers.
pub mod Registers
pub mod Switch
pub mod Uart
mod Tests
use my_diff.Base.{
  ℕ, zero, suc, ◌+◌, ◌*◌, ◌/◌, ◌%◌, ◌^◌, Bool, true, false, not, ◌&&◌, ◌||◌, List, [], ◌∷◌, ◌++◌,
  ◌==◌, if◌then◌else◌, bit_and, bit_or, bit_xor, u32, Outcome, done, fault, require, ◌>>=◌, ◌>>◌,
}
use my_diff.Paddr.{Wen}

-- `PaddrConfreg`. The array `cr[8]` is only indexed by constants, and has a field for each entry.
pub record PaddrConfreg : Type 0 where
  pub cr0 : ℕ
  pub cr1 : ℕ
  pub cr2 : ℕ
  pub cr3 : ℕ
  pub cr4 : ℕ
  pub cr5 : ℕ
  pub cr6 : ℕ
  pub cr7 : ℕ
  pub switch_data : ℕ
  pub switch_inter_data : ℕ
  pub timer : ℕ
  pub led : ℕ
  pub led_rg0 : ℕ
  pub led_rg1 : ℕ
  pub num : ℕ
  pub simu_flag : ℕ
  pub io_simu : ℕ
  pub virtual_uart : ℕ
  pub open_trace : ℕ
  pub num_monitor : ℕ
  pub uart_queue : List ℕ
  pub confreg_read : ℕ
  pub confreg_write : ℕ

-- The case labels of the `switch` statements; `unmapped` is `default`.
pub data Label : Type 0 where
  cr0_addr cr1_addr cr2_addr cr3_addr : Label
  cr4_addr cr5_addr cr6_addr cr7_addr : Label
  led_addr led_rg0_addr led_rg1_addr num_addr : Label
  switch_addr btn_key_addr btn_step_addr sw_inter_addr : Label
  timer_addr simu_flag_addr io_simu_addr virtual_uart_addr : Label
  open_trace_addr num_monitor_addr : Label
  unmapped : Label

-- The addresses that the labels are defined as.
abbrev pub address : Label → ℕ
address cr0_addr = 0x8000
address cr1_addr = 0x8004
address cr2_addr = 0x8008
address cr3_addr = 0x800c
address cr4_addr = 0x8010
address cr5_addr = 0x8014
address cr6_addr = 0x8018
address cr7_addr = 0x801c
address led_addr = 0xf000
address led_rg0_addr = 0xf004
address led_rg1_addr = 0xf008
address num_addr = 0xf010
address switch_addr = 0xf020
address btn_key_addr = 0xf024
address btn_step_addr = 0xf028
address sw_inter_addr = 0xf02c
address timer_addr = 0xe000
address simu_flag_addr = 0xfff4
address io_simu_addr = 0xffec
address virtual_uart_addr = 0xfff0
address open_trace_addr = 0xfff8
address num_monitor_addr = 0xfffc
address unmapped = 0

-- The label that a `switch (addr)` selects.
unfoldable pub label : ℕ → Label
label addr =
    if addr == address cr0_addr
    then cr0_addr
    else if addr == address cr1_addr
    then cr1_addr
    else if addr == address cr2_addr
    then cr2_addr
    else if addr == address cr3_addr
    then cr3_addr
    else if addr == address cr4_addr
    then cr4_addr
    else if addr == address cr5_addr
    then cr5_addr
    else if addr == address cr6_addr
    then cr6_addr
    else if addr == address cr7_addr
    then cr7_addr
    else if addr == address led_addr
    then led_addr
    else if addr == address led_rg0_addr
    then led_rg0_addr
    else if addr == address led_rg1_addr
    then led_rg1_addr
    else if addr == address num_addr
    then num_addr
    else if addr == address switch_addr
    then switch_addr
    else if addr == address btn_key_addr
    then btn_key_addr
    else if addr == address btn_step_addr
    then btn_step_addr
    else if addr == address sw_inter_addr
    then sw_inter_addr
    else if addr == address timer_addr
    then timer_addr
    else if addr == address simu_flag_addr
    then simu_flag_addr
    else if addr == address io_simu_addr
    then io_simu_addr
    else if addr == address virtual_uart_addr
    then virtual_uart_addr
    else if addr == address open_trace_addr
    then open_trace_addr
    else if addr == address num_monitor_addr
    then num_monitor_addr
    else unmapped

-- What a read of each label puts into `*data`.
unfoldable pub read_label : PaddrConfreg → Label → ℕ
read_label c cr0_addr = c.cr0
read_label c cr1_addr = c.cr1
read_label c cr2_addr = c.cr2
read_label c cr3_addr = c.cr3
read_label c cr4_addr = c.cr4
read_label c cr5_addr = c.cr5
read_label c cr6_addr = c.cr6
read_label c cr7_addr = c.cr7
read_label c led_addr = c.led
read_label c led_rg0_addr = c.led_rg0
read_label c led_rg1_addr = c.led_rg1
read_label c num_addr = c.num
read_label c switch_addr = c.switch_data
read_label c btn_key_addr = 0
read_label c btn_step_addr = 0
read_label c sw_inter_addr = c.switch_inter_data
read_label c timer_addr = c.timer
read_label c simu_flag_addr = c.simu_flag
read_label c io_simu_addr = c.io_simu
read_label c virtual_uart_addr = c.virtual_uart
read_label c open_trace_addr = c.open_trace
read_label c num_monitor_addr = c.num_monitor
read_label c unmapped = 0

-- `do_read`; it sets the whole 32-bit word.
unfoldable pub do_read : PaddrConfreg → ℕ → Wen → ℕ → Outcome (Bool × ℕ × PaddrConfreg)
do_read c addr info word = do
  let counted = record c { confreg_read = u32 (c.confreg_read + 1) }
  require (info.size == 4)
  done (true, read_label counted (label addr), counted)

-- What a write to each label does.
unfoldable pub write_label : PaddrConfreg → Label → ℕ → PaddrConfreg
write_label c cr0_addr word = record c { cr0 = word }
write_label c cr1_addr word = record c { cr1 = word }
write_label c cr2_addr word = record c { cr2 = word }
write_label c cr3_addr word = record c { cr3 = word }
write_label c cr4_addr word = record c { cr4 = word }
write_label c cr5_addr word = record c { cr5 = word }
write_label c cr6_addr word = record c { cr6 = word }
write_label c cr7_addr word = record c { cr7 = word }
write_label c timer_addr word = record c { timer = word }
write_label c io_simu_addr word = record c {
  io_simu = bit_or (u32 (bit_and word 0xffff * 2 ^ 16)) (word / 2 ^ 16);
}
write_label c open_trace_addr word = record c { open_trace = if word == 0 then 0 else 1 }
write_label c num_monitor_addr word = record c { num_monitor = bit_and word 1 }
write_label c virtual_uart_addr word =
    let byte = bit_and word 0xff in
    record c { virtual_uart = byte; uart_queue = c.uart_queue ++ (byte ∷ []) }
write_label c num_addr word = record c { num = word }
write_label c _ word = c

-- `do_write`.
unfoldable pub do_write : PaddrConfreg → ℕ → Wen → ℕ → Outcome (Bool × PaddrConfreg)
do_write c addr info word = do
  let counted = record c { confreg_write = u32 (c.confreg_write + 1) }
  require (info.size == 4 || (info.size == 1 && addr == address virtual_uart_addr))
  done (true, write_label counted (label addr) word)

-- The loop of `set_switch`, at round `i` with `left` rounds to go.
unfoldable pub inter_bits : ℕ → ℕ → ℕ → ℕ → ℕ
inter_bits zero i value acc = acc
inter_bits (suc left) i value acc =
    inter_bits left (i + 1) value
      (if bit_and (value / 2 ^ i) 1 == 0 then bit_or acc (2 * 2 ^ (2 * i)) else acc)

unfoldable pub set_switch : PaddrConfreg → ℕ → PaddrConfreg
unfolding inter_bits
set_switch c value = record c {
  switch_data = bit_xor value 0xf;
  switch_inter_data = inter_bits 8 0 value 0;
}

-- The constructor. `new` leaves the switch words unset until `set_switch(0)`.
unfoldable pub init : Bool → PaddrConfreg
unfolding set_switch
init simulation =
    set_switch
      (record {
        cr0 = 0;
        cr1 = 0;
        cr2 = 0;
        cr3 = 0;
        cr4 = 0;
        cr5 = 0;
        cr6 = 0;
        cr7 = 0;
        switch_data = 0;
        switch_inter_data = 0;
        timer = 0;
        led = 0;
        led_rg0 = 0;
        led_rg1 = 0;
        num = 0;
        simu_flag = if simulation then 0xffffffff else 0;
        io_simu = 0;
        virtual_uart = 0;
        open_trace = 1;
        num_monitor = 1;
        uart_queue = [];
        confreg_read = 0;
        confreg_write = 0;
      })
      0

unfoldable pub tick : PaddrConfreg → PaddrConfreg
tick c = record c { timer = u32 (c.timer + 1) }

pub has_uart : PaddrConfreg → Bool
has_uart c = elim c.uart_queue [ [] ↦ false | _ ∷ _ ↦ true ]

-- The `char` that it returns is its byte here. `front` and `pop` of an empty queue are undefined.
pub get_uart : PaddrConfreg → Outcome (ℕ × PaddrConfreg)
get_uart c = elim c.uart_queue [
  | [] ↦ fault
  | byte ∷ rest ↦ done (byte, record c { uart_queue = rest })
]

pub get_num : PaddrConfreg → ℕ
get_num c = c.num
