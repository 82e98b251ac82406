-- ===== src/Axi.antt =====
-- csrc/axi.cpp and include/axi.hpp: an AXI3 slave in front of a `PaddrTop`. This module has the
-- signals, the check of a request and the address of the next beat; `Read` and `Write` have the two
-- channels, and `Bus` joins them.
pub mod Request
pub mod Address
pub mod Read
pub mod Write
pub mod Bus
mod Tests
use my_diff.Base.{
  ℕ, ◌+◌, ◌-◌, ◌*◌, ◌/◌, ◌%◌, ◌^◌, Bool, true, false, not, ◌||◌, ltb, leb, ◌==◌, if◌then◌else◌,
  bit_and, bit_or, u8, u32, not32, Outcome, done, aborted,
}
use my_diff.Paddr.{Wen}

-- `burst_t`.
pub data Burst : Type 0 where
  fixed incr wrap reserved : Burst

-- `(burst_t)pins.arburst`, of a signal of two bits.
unfoldable pub of_signal : ℕ → Burst
of_signal b = if b == 0 then fixed else if b == 1 then incr else if b == 2 then wrap else reserved

-- The values of `resp_t` that the slave gives.
abbrev pub resp_okey : ℕ
resp_okey = 0

abbrev pub resp_decerr : ℕ
resp_decerr = 3

-- `sim_status_t`.
pub data SimStatus : Type 0 where
  sim_run sim_stop sim_abort sim_end sim_quit : SimStatus

-- `__ASSERT_SIM__`, without its message.
abbrev pub assert_sim : Bool → SimStatus → SimStatus
assert_sim true status = status
assert_sim false status = sim_abort

-- The signals that the CPU drives. A signal of one bit is a Boolean.
pub record Pins : Type 0 where
  pub arid : ℕ
  pub araddr : ℕ
  pub arlen : ℕ
  pub arsize : ℕ
  pub arburst : ℕ
  pub arvalid : Bool
  pub rready : Bool
  pub awid : ℕ
  pub awaddr : ℕ
  pub awlen : ℕ
  pub awsize : ℕ
  pub awburst : ℕ
  pub awvalid : Bool
  pub wid : ℕ
  pub wdata : ℕ
  pub wstrb : ℕ
  pub wlast : Bool
  pub wvalid : Bool
  pub bready : Bool

-- `CONFIG_AXI_DWID`, the default of Kconfig.
abbrev pub axi_dwid : ℕ
axi_dwid = 32

-- `uint8_t num_bytes = 1 << size`.
abbrev pub bytes_of : ℕ → ℕ
bytes_of size = u8 (2 ^ size)

abbrev pub is_reserved : Burst → Bool
is_reserved reserved = true
is_reserved _ = false

-- `start_addr & ~(num_bytes - 1)`.
abbrev pub align : ℕ → ℕ → ℕ
align start_addr num_bytes = bit_and start_addr (not32 (num_bytes - 1))

check_wrap : Bool → ℕ → SimStatus → SimStatus
check_wrap aligned burst_len status =
    assert_sim (burst_len == 2 || burst_len == 4 || burst_len == 8 || burst_len == 16)
      (assert_sim aligned status)

-- The page of the last byte; the arithmetic is that of 32-bit words.
check_linear : ℕ → ℕ → Bool → ℕ → SimStatus → SimStatus
check_linear num_bytes align_addr aligned burst_len status =
    let last = u32 (align_addr + num_bytes * burst_len + 2 ^ 32 - 1) in
    let checked = assert_sim (align_addr / 2 ^ 12 == last / 2 ^ 12) status in
    if burst_len == 0 then checked else assert_sim aligned checked

-- `check_axi_req`: what becomes of `sim_status`. It always returns true.
pub check_axi_req : ℕ → Burst → ℕ → ℕ → SimStatus → SimStatus
unfolding check_wrap check_linear
check_axi_req num_bytes burst_type start_addr burst_len status =
    let status₁ = assert_sim (leb num_bytes (axi_dwid / 2 ^ 3)) status in
    let status₂ = assert_sim (not (is_reserved burst_type)) status₁ in
    let align_addr = align start_addr num_bytes in
    let aligned = start_addr == align_addr in
    elim burst_type [
      | wrap ↦ check_wrap aligned burst_len status₂
      | _ ↦ check_linear num_bytes align_addr aligned burst_len status₂
    ]

-- The mask and the bound that a wrapping burst gets: `(count << size) - 1` and `start & ~mask`.
abbrev pub wrap_mask : ℕ → ℕ → ℕ
wrap_mask count size = u32 (count * 2 ^ size + 2 ^ 32 - 1)

abbrev pub wrap_base : ℕ → ℕ → ℕ
wrap_base start_addr mask = bit_and start_addr (not32 mask)

-- The `switch (burst_type)` that moves an address to the next beat.
unfoldable pub next_addr : Burst → ℕ → ℕ → ℕ → ℕ → Outcome ℕ
next_addr fixed mask bound size addr = done addr
next_addr incr mask bound size addr = done (u32 (addr + size))
next_addr wrap mask bound size addr = done (bit_or (bit_and (u32 (addr + size)) mask) bound)
next_addr reserved mask bound size addr = aborted
