-- ===== src/Uartlite.antt =====
-- include/device/uartlite.hpp: a UART with two queues of characters and four registers of 32 bits. The
-- locks of its methods make each of them one step.
pub mod Queues
mod Tests
use my_diff.Base.{
  ℕ, ◌+◌, ◌-◌, ◌/◌, ◌%◌, ◌^◌, Bool, true, false, not, ◌&&◌, ◌||◌, List, [], ◌∷◌, ◌++◌, ltb, leb,
  ◌==◌, if◌then◌else◌, min, bit_and, bit_or, length, take, Outcome, done, ◌>>=◌, u64, not32,
}
use my_diff.Pmem.{load, read_file}
use my_diff.MmioMem.{copy_out}

-- `uartlite` and its `uartlite_regs`. A `char` is its byte.
pub record Uartlite : Type 0 where
  pub rx_fifo : ℕ
  pub tx_fifo : ℕ
  pub status : ℕ
  pub control : ℕ
  pub rx : List ℕ
  pub tx : List ℕ
  pub wait_ack : Bool

-- The offsets of the registers, and `sizeof(regs)`.
abbrev pub rx_fifo_offset : ℕ
rx_fifo_offset = 0

abbrev pub tx_fifo_offset : ℕ
tx_fifo_offset = 4

abbrev pub control_offset : ℕ
control_offset = 12

abbrev pub regs_size : ℕ
regs_size = 16

-- The constructor.
pub init : Uartlite
init = record {
  rx_fifo = 0;
  tx_fifo = 0;
  status = 4;
  control = 0;
  rx = [];
  tx = [];
  wait_ack = false;
}

-- A `char`, which is signed, as an `unsigned int`.
abbrev pub extend : ℕ → ℕ
extend c = if ltb c 128 then c else c + 2 ^ 32 - 256

-- The bytes of a register, and of all of them.
abbrev pub word_bytes : ℕ → List ℕ
word_bytes w = w % 256 ∷ w / 2 ^ 8 % 256 ∷ w / 2 ^ 16 % 256 ∷ w / 2 ^ 24 % 256 ∷ []

abbrev pub regs_bytes : Uartlite → List ℕ
regs_bytes u =
    word_bytes u.rx_fifo ++ word_bytes u.tx_fifo ++ word_bytes u.status ++ word_bytes u.control

-- `std::min(size, sizeof(regs) - start_addr)`.
abbrev copied : ℕ → ℕ → ℕ
copied start size = min size (u64 (regs_size + 2 ^ 64 - start))

-- The tests of an access against a register's offset.
touches : ℕ → ℕ → ℕ → Bool
touches start size offset = leb start offset && leb offset (u64 (start + size))

-- `rx_fifo` and the status as `do_read` brings them up to date.
refresh : Uartlite → Uartlite
refresh u = elim u.rx [
  | [] ↦ record u { status = bit_and u.status (not32 1) }
  | c ∷ rest ↦ record u { status = bit_or u.status 1; rx_fifo = extend c }
]

pop_rx : Uartlite → Uartlite
pop_rx u = elim u.rx [ [] ↦ u | c ∷ rest ↦ record u { rx = rest } ]

-- `do_read`: the bytes that it puts into the buffer, none if it returns false.
pub do_read : Uartlite → ℕ → ℕ → Outcome (Bool × List ℕ × Uartlite)
unfolding refresh pop_rx touches
do_read u start size =
    if ltb regs_size (u64 (start + size))
    then done (false, [], u)
    else (copy_out (regs_bytes (refresh u)) start (copied start size) >>= λ buffer. done (
      true,
      buffer,
      (let acked = record (refresh u) { wait_ack = false } in
          if touches start size rx_fifo_offset then pop_rx acked else acked),
    ))

-- The registers after `memcpy` has changed their bytes.
pub set_regs : Uartlite → List ℕ → Outcome Uartlite
set_regs u bytes = do
  rx_fifo ← load bytes rx_fifo_offset 4
  tx_fifo ← load bytes tx_fifo_offset 4
  status ← load bytes 8 4
  control ← load bytes control_offset 4
  done (record u { rx_fifo = rx_fifo; tx_fifo = tx_fifo; status = status; control = control })

-- `tx.push(static_cast<char>(regs.tx_fifo))`.
push_tx : Uartlite → Uartlite
push_tx u = record u { tx = u.tx ++ (u.tx_fifo % 256 ∷ []) }

-- What the control register asks for.
obey : Uartlite → Uartlite
obey u = record u {
  tx = if bit_and u.control 1 == 0 then u.tx else [];
  rx = if bit_and u.control 2 == 0 then u.rx else [];
}

-- `do_write` of the bytes `buffer`.
pub do_write : Uartlite → ℕ → List ℕ → Outcome (Bool × Uartlite)
unfolding touches push_tx obey set_regs
do_write u start buffer =
    if ltb regs_size (u64 (start + length buffer))
    then done (false, u)
    else (read_file (regs_bytes u) start (take (copied start (length buffer)) buffer) >>= λ bytes.
        set_regs u bytes >>= λ u₁.
        let u₂ = if touches start (length buffer) tx_fifo_offset then push_tx u₁ else u₁ in
        let u₃ = if touches start (length buffer) control_offset then obey u₂ else u₂ in
        done (true, u₃))

pub putc : Uartlite → ℕ → Uartlite
putc u c = record u { rx = u.rx ++ (c ∷ []) }

-- `getc`; `EOF` as a `char` is the byte 255.
pub getc : Uartlite → ℕ × Uartlite
getc u = elim u.tx [
  | [] ↦ (255, u)
  | c ∷ rest ↦ (c, record u { tx = rest; wait_ack = elim rest [ [] ↦ true | _ ∷ _ ↦ u.wait_ack ] })
]

pub exist_tx : Uartlite → Bool
exist_tx u = elim u.tx [ [] ↦ false | _ ∷ _ ↦ true ]

pub irq : Uartlite → Bool
irq u = elim u.rx [ [] ↦ u.wait_ack | _ ∷ _ ↦ true ]
