-- ===== src/Axi/Bus.antt =====
-- `axi_paddr`: the two channels together, and the pins that the slave drives.
pub mod Abort
pub mod Handshake
pub mod Alone
use my_diff.Base.{ℕ, Bool, ◌&&◌, Outcome, done, ◌>>=◌}
use my_diff.Paddr.{PaddrInterface, PaddrTop}
use my_diff.Axi.{SimStatus, Pins}
use my_diff.Axi.Read.{ReadState, ReadOut, read_eval, idel_wait_read}
use my_diff.Axi.Read as Read
use my_diff.Axi.Write.{WriteState, WriteOut, write_eval, idel_wait_write}
use my_diff.Axi.Write as Write

-- `read_pins` and `write_pins` are what the pins of the slave's outputs show.
pub record AxiPaddr : Type 0 where
  pub read : ReadState
  pub write : WriteState
  pub read_pins : ReadOut
  pub write_pins : WriteOut

unfoldable pub reset : AxiPaddr → AxiPaddr
reset a = record a {
  read = idel_wait_read (record (a.read) { status = Read.idel });
  write = idel_wait_write (record (a.write) { status = Write.idel });
}

unfoldable pub update_output : AxiPaddr → AxiPaddr
update_output a = record a { read_pins = a.read.out; write_pins = a.write.out }

module _ {D S : Type 0} (face : PaddrInterface D S) (paddr_top : PaddrTop D) where
  -- `rand()` returns `read_random` and `write_random` where the channels call it.
  unfoldable pub calculate_output :
      Pins → ℕ → ℕ → AxiPaddr → SimStatus → S → Outcome (Bool × AxiPaddr × SimStatus × S)
  calculate_output pins read_random write_random a sim s = do
    (read_res, read, sim', s') ←
        read_eval face paddr_top pins a.read_pins.rlast read_random a.read sim s
    (write_res, write, sim'', s'') ← write_eval face paddr_top pins write_random a.write sim' s'
    done (read_res && write_res, record a { read = read; write = write }, sim'', s'')
