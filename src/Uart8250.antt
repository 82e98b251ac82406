-- ===== src/Uart8250.antt =====
-- include/device/uart8250.hpp: a UART with the registers of an 8250, two queues of characters and an
-- interrupt. The locks of its methods make each of them one step.
pub mod Interrupt
pub mod Lines
mod Tests
use my_diff.Base.{
  ℕ, ◌+◌, ◌-◌, ◌*◌, ◌/◌, ◌%◌, ◌^◌, Bool, true, false, not, ◌&&◌, ◌||◌, List, [], ◌∷◌, ◌++◌, ◌==◌,
  if◌then◌else◌, bit_and, bit_or, Option, none, some, Outcome, done, aborted, require, ◌>>=◌, ◌>>◌,
}

-- The members; a `char` is its byte.
pub record Uart8250 : Type 0 where
  pub rx : List ℕ
  pub tx : List ℕ
  pub thr_empty : Bool
  pub dll : ℕ
  pub dlm : ℕ
  pub ier : ℕ
  pub lcr : ℕ
  pub iir : ℕ
  pub mcr : ℕ

-- The case labels `UART8250_…`.
pub data Register : Type 0 where
  tx_rx_dll ier_dlm iir_fcr lcr_reg mcr_reg lsr_reg msr_reg scr_reg : Register

-- The label that `switch (start_addr)` selects; `none` is `default`.
abbrev pub register_at : ℕ → Option Register
register_at addr =
    if addr == 0
    then some tx_rx_dll
    else if addr == 1
    then some ier_dlm
    else if addr == 2
    then some iir_fcr
    else if addr == 3
    then some lcr_reg
    else if addr == 4
    then some mcr_reg
    else if addr == 5
    then some lsr_reg
    else if addr == 6
    then some msr_reg
    else if addr == 7
    then some scr_reg
    else none

-- The constructor.
pub init : Uart8250
init = record {
  rx = [];
  tx = [];
  thr_empty = false;
  dll = 0;
  dlm = 0;
  ier = 0;
  lcr = 3;
  iir = 0;
  mcr = 0;
}

-- `DLAB()`.
abbrev pub dlab : Uart8250 → Bool
dlab u = not (u.lcr / 2 ^ 7 == 0)

abbrev pub is_empty : List ℕ → Bool
is_empty [] = true
is_empty (_ ∷ _) = false

-- The two conditions of `update_IIR`.
abbrev pub thre_pending : Uart8250 → Bool
thre_pending u = not (bit_and u.ier 2 == 0) && u.thr_empty

abbrev pub rda_pending : Uart8250 → Bool
rda_pending u = not (bit_and u.ier 1 == 0) && not (is_empty u.rx)

-- The value that `update_IIR` builds up from them.
pub iir_value : Bool → Bool → ℕ
iir_value thre rda =
    let iir₀ = 3 * 2 ^ 6 in
    let iir₁ = if thre then bit_or iir₀ 2 else iir₀ in
    let iir₂ = if rda then bit_or iir₁ 4 else iir₁ in
    bit_or iir₂ (if not thre && not rda then 1 else 0)

-- `update_IIR`.
pub update_iir : Uart8250 → Uart8250
unfolding iir_value
update_iir u = record u { iir = iir_value (thre_pending u) (rda_pending u) }

-- A read of the receiver leaves the buffer alone when nothing has come.
read_rx : Uart8250 → ℕ → ℕ × Uart8250
read_rx u buffer = elim u.rx [ [] ↦ (buffer, u) | c ∷ rest ↦ (c, record u { rx = rest }) ]

read_register : Uart8250 → Register → ℕ → ℕ × Uart8250
unfolding update_iir read_rx
read_register u tx_rx_dll buffer = if dlab u then (u.dll, u) else read_rx u buffer
read_register u ier_dlm buffer = (if dlab u then u.dlm else u.ier, u)
read_register u iir_fcr buffer = ((update_iir u).iir, record (update_iir u) { thr_empty = false })
read_register u lcr_reg buffer = (u.lcr, u)
read_register u mcr_reg buffer = (u.mcr, u)
read_register u lsr_reg buffer =
    (bit_or (bit_or (if is_empty u.rx then 0 else 1) (2 ^ 5)) (2 ^ 6), u)
read_register u msr_reg buffer = (bit_or (2 ^ 7) (2 ^ 4), u)
read_register u scr_reg buffer = (0, u)

read_known : Uart8250 → Option Register → ℕ → Outcome (Bool × ℕ × Uart8250)
read_known u none buffer = aborted
read_known u (some register) buffer =
    let (byte, u') = read_register u register buffer in done (true, byte, u')

-- `do_read`, handed the byte that the buffer holds.
pub do_read : Uart8250 → ℕ → ℕ → ℕ → Outcome (Bool × ℕ × Uart8250)
unfolding read_known read_register
do_read u start size buffer = do require (size == 1); read_known u (register_at start) buffer

write_register : Uart8250 → Register → ℕ → Uart8250
write_register u tx_rx_dll byte =
    if dlab u
    then record u { dll = byte }
    else record u { tx = u.tx ++ (byte ∷ []); thr_empty = false }
write_register u ier_dlm byte = if dlab u then record u { dlm = byte } else record u { ier = byte }
write_register u iir_fcr byte = record u {
  rx = if bit_and byte 2 == 0 then u.rx else [];
  tx = if bit_and byte 4 == 0 then u.tx else [];
}
write_register u lcr_reg byte = record u { lcr = byte }
write_register u mcr_reg byte = record u { mcr = byte }
write_register u lsr_reg byte = u
write_register u msr_reg byte = u
write_register u scr_reg byte = u

write_known : Uart8250 → Option Register → ℕ → Outcome (Bool × Uart8250)
write_known u none byte = aborted
write_known u (some register) byte = done (true, write_register u register byte)

-- `do_write` of one byte.
pub do_write : Uart8250 → ℕ → ℕ → ℕ → Outcome (Bool × Uart8250)
unfolding write_known write_register
do_write u start size byte = do require (size == 1); write_known u (register_at start) byte

pub putc : Uart8250 → ℕ → Uart8250
putc u c = record u { rx = u.rx ++ (c ∷ []) }

-- `getc`; `EOF` as a `char` is the byte 255.
pub getc : Uart8250 → ℕ × Uart8250
getc u = elim u.tx [
  | [] ↦ (255, u)
  | c ∷ rest ↦ (c, record u { tx = rest; thr_empty = if is_empty rest then true else u.thr_empty })
]

pub irq : Uart8250 → Bool × Uart8250
unfolding update_iir
irq u = (bit_and (update_iir u).iir 1 == 0, update_iir u)

pub exist_tx : Uart8250 → Bool
exist_tx u = not (is_empty u.tx)
