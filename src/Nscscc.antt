-- ===== src/Nscscc.antt =====
-- include/device/nscscc_confreg.hpp: the configuration registers with the comparison of a trace. The
-- macros for the addresses are those of csrc/device/PaddrConfreg.cpp.
pub mod Registers
pub mod Trace
mod Tests
use my_diff.Base.{
  ℕ, ◌+◌, ◌-◌, ◌*◌, ◌/◌, ◌%◌, ◌^◌, Bool, true, false, not, ◌&&◌, ◌||◌, List, [], ◌∷◌, ◌++◌, ltb,
  ◌==◌, if◌then◌else◌, bit_and, bit_or, bit_xor, u8, u32, Outcome, done, fault, require, ◌>>=◌,
  ◌>>◌,
}
use my_diff.Confreg.{
  Label, label, address, inter_bits, cr0_addr, cr1_addr, cr2_addr, cr3_addr, cr4_addr, cr5_addr,
  cr6_addr, cr7_addr, led_addr, led_rg0_addr, led_rg1_addr, num_addr, switch_addr, btn_key_addr,
  btn_step_addr, sw_inter_addr, timer_addr, simu_flag_addr, io_simu_addr, virtual_uart_addr,
  open_trace_addr, num_monitor_addr, unmapped,
}

-- `nscscc_confreg`. `virtual_uart` and the queue hold a `char` as its byte, and `trace_file` the
-- hexadecimal numbers that are left to read.
pub record NscsccConfreg : Type 0 where
  pub cr0 : ℕ
  pub cr1 : ℕ
  pub cr2 : ℕ
  pub cr3 : ℕ
  pub cr4 : ℕ
  pub cr5 : ℕ
  pub cr6 : ℕ
  pub cr7 : ℕ
  pub switch_data : ℕ
  pub switch_inter_data : ℕ
  pub timer : ℕ
  pub led : ℕ
  pub led_rg0 : ℕ
  pub led_rg1 : ℕ
  pub num : ℕ
  pub simu_flag : ℕ
  pub io_simu : ℕ
  pub virtual_uart : ℕ
  pub open_trace : ℕ
  pub num_monitor : ℕ
  pub uart_queue : List ℕ
  pub force_trace : Bool
  pub last_pc : ℕ
  pub last_wnum : ℕ
  pub last_wdata : ℕ
  pub trace_file : List ℕ
  pub confreg_read : ℕ
  pub confreg_write : ℕ

-- A `char` as an `unsigned int`; the host's `char` is signed.
abbrev pub extend : ℕ → ℕ
extend byte = if ltb byte 128 then byte else byte + 2 ^ 32 - 256

-- What a read of each label puts into `*buffer`.
pub read_label : NscsccConfreg → Label → ℕ
read_label c cr0_addr = c.cr0
read_label c cr1_addr = c.cr1
read_label c cr2_addr = c.cr2
read_label c cr3_addr = c.cr3
read_label c cr4_addr = c.cr4
read_label c cr5_addr = c.cr5
read_label c cr6_addr = c.cr6
read_label c cr7_addr = c.cr7
read_label c led_addr = c.led
read_label c led_rg0_addr = c.led_rg0
read_label c led_rg1_addr = c.led_rg1
read_label c num_addr = c.num
read_label c switch_addr = c.switch_data
read_label c btn_key_addr = 0
read_label c btn_step_addr = 0
read_label c sw_inter_addr = c.switch_inter_data
read_label c timer_addr = c.timer
read_label c simu_flag_addr = c.simu_flag
read_label c io_simu_addr = c.io_simu
read_label c virtual_uart_addr = extend c.virtual_uart
read_label c open_trace_addr = c.open_trace
read_label c num_monitor_addr = c.num_monitor
read_label c unmapped = 0

pub do_read : NscsccConfreg → ℕ → ℕ → Outcome (Bool × ℕ × NscsccConfreg)
do_read c start_addr size = do
  let counted = record c { confreg_read = u32 (c.confreg_read + 1) }
  require (size == 4)
  done (true, read_label counted (label start_addr), counted)

-- What a write to each label does with the word, or the byte, at `buffer`.
pub write_label : NscsccConfreg → Label → ℕ → NscsccConfreg
write_label c cr0_addr word = record c { cr0 = word }
write_label c cr1_addr word = record c { cr1 = word }
write_label c cr2_addr word = record c { cr2 = word }
write_label c cr3_addr word = record c { cr3 = word }
write_label c cr4_addr word = record c { cr4 = word }
write_label c cr5_addr word = record c { cr5 = word }
write_label c cr6_addr word = record c { cr6 = word }
write_label c cr7_addr word = record c { cr7 = word }
write_label c timer_addr word = record c { timer = word }
write_label c io_simu_addr word = record c {
  io_simu = bit_or (u32 (bit_and word 0xffff * 2 ^ 16)) (word / 2 ^ 16);
}
write_label c open_trace_addr word = record c { open_trace = if word == 0 then 0 else 1 }
write_label c num_monitor_addr word = record c { num_monitor = bit_and word 1 }
write_label c virtual_uart_addr word = record c {
  virtual_uart = u8 word;
  uart_queue = c.uart_queue ++ (u8 word ∷ []);
}
write_label c num_addr word = record c { num = word }
write_label c _ word = c

pub do_write : NscsccConfreg → ℕ → ℕ → ℕ → Outcome (Bool × NscsccConfreg)
do_write c start_addr size word = do
  let counted = record c { confreg_write = u32 (c.confreg_write + 1) }
  require (size == 4 || (size == 1 && start_addr == address virtual_uart_addr))
  done (true, write_label counted (label start_addr) word)

-- The loop in `set_switch` is that of `PaddrConfreg`.
pub set_switch : NscsccConfreg → ℕ → NscsccConfreg
set_switch c value = record c {
  switch_data = bit_xor value 0xf;
  switch_inter_data = inter_bits 8 0 value 0;
}

-- The constructor; `raw` is the object's storage, of which the `last_` members stay as they are.
pub init : NscsccConfreg → Bool → NscsccConfreg
unfolding set_switch
init raw simulation =
    set_switch
      (record raw {
        cr0 = 0;
        cr1 = 0;
        cr2 = 0;
        cr3 = 0;
        cr4 = 0;
        cr5 = 0;
        cr6 = 0;
        cr7 = 0;
        timer = 0;
        led = 0;
        led_rg0 = 0;
        led_rg1 = 0;
        num = 0;
        simu_flag = if simulation then 0xffffffff else 0;
        io_simu = 0;
        virtual_uart = 0;
        open_trace = 1;
        num_monitor = 1;
        uart_queue = [];
        force_trace = false;
        trace_file = [];
        confreg_read = 0;
        confreg_write = 0;
      })
      0

pub tick : NscsccConfreg → NscsccConfreg
tick c = record c { timer = u32 (c.timer + 1) }

pub has_uart : NscsccConfreg → Bool
has_uart c = elim c.uart_queue [ [] ↦ false | _ ∷ _ ↦ true ]

-- `front` and `pop` of an empty queue are undefined.
pub get_uart : NscsccConfreg → Outcome (ℕ × NscsccConfreg)
get_uart c = elim c.uart_queue [
  | [] ↦ fault
  | byte ∷ rest ↦ done (byte, record c { uart_queue = rest })
]

pub get_num : NscsccConfreg → ℕ
get_num c = c.num

pub trace_on : NscsccConfreg → Bool
trace_on c = not (c.open_trace == 0) || c.force_trace

pub set_trace_file : NscsccConfreg → List ℕ → NscsccConfreg
set_trace_file c file = record c { trace_file = file }

pub set_force_trace : NscsccConfreg → Bool → NscsccConfreg
set_force_trace c value = record c { force_trace = value }

-- The variables that an entry of the trace is read into.
pub record Entry : Type 0 where
  pub cmp_flag : ℕ
  pub pc : ℕ
  pub wnum : ℕ
  pub wdata : ℕ

-- The `while` loop: `ref` is what the variables hold. At the end of the file a number is not read,
-- and its variable stays as it is.
pub read_ref : Bool → List ℕ → Entry → Entry × List ℕ
read_ref force (flag ∷ pc ∷ wnum ∷ wdata ∷ file) ref =
    let here : Entry = record { cmp_flag = flag; pc = pc; wnum = wnum; wdata = wdata } in
    let next = read_ref force file here in if flag == 0 && not force then next else (here, file)
read_ref force (flag ∷ pc ∷ wnum ∷ []) ref =
    (record ref { cmp_flag = flag; pc = pc; wnum = wnum }, [])
read_ref force (flag ∷ pc ∷ []) ref = (record ref { cmp_flag = flag; pc = pc }, [])
read_ref force (flag ∷ []) ref = (record ref { cmp_flag = flag }, [])
read_ref force [] ref = (ref, [])

-- The lines that a mismatch prints, with the values in them.
pub data Line : Type 0 where
  error : Line
  last reference mycpu : ℕ → ℕ → ℕ → Line

abbrev differs : ℕ → ℕ → ℕ → Entry → Bool
differs pc wnum wdata ref = not (pc == ref.pc) || not (wnum == ref.wnum) || not (wdata == ref.wdata)

-- What follows the loop.
judge : NscsccConfreg → ℕ → ℕ → ℕ → Bool → Entry → Bool × List Line × NscsccConfreg
judge c pc wnum wdata output ref =
    if differs pc wnum wdata ref
    then (
      false,
      if output
          then error
            ∷ last c.last_pc c.last_wnum c.last_wdata
            ∷ reference ref.pc ref.wnum ref.wdata
            ∷ mycpu pc wnum wdata
            ∷ []
          else [],
      c,
    )
    else (true, [], record c { last_pc = pc; last_wnum = wnum; last_wdata = wdata })

-- `do_trace`, with the lines that it prints; `garbage` is in the variables before they are read.
pub do_trace : NscsccConfreg → ℕ → ℕ → ℕ → ℕ → Bool → Entry → Bool × List Line × NscsccConfreg
unfolding judge trace_on
do_trace c pc wen wnum wdata output garbage =
    if trace_on c && not (wen == 0) && not (wnum == 0)
    then (let (ref, file) = read_ref c.force_trace c.trace_file garbage in
        judge (record c { trace_file = file }) pc wnum wdata output ref)
    else (true, [], c)
