-- ===== src/Samples.antt =====
-- Concrete values that the tests of several modules use: NEMU's macros as its header defines them, a
-- small device, an address table and idle signals.
use native.Mathlib.Nat.{mod_self, one-le-pow}
use my_diff.Base.{
  replicate, List, length, zero, suc, ℕ, ◌+◌, ◌-◌, ◌/◌, ◌%◌, ◌^◌, ◌≤◌, ◌≡◌, refl, ap, ◌∙◌, Bool,
  true, false, not, ◌&&◌, ◌==◌, [], ◌∷◌, arith, bit_and, done,
}
use my_diff.Base.Masks.{bit_and-low}
use my_diff.Base.Nemu.{Nemu}
use my_diff.Paddr.{Wen, AddrIntv, PaddrInterface, PaddrTop}
use my_diff.Board.{Heap, Allocator}
use my_diff.Axi.{Pins, fixed}
use my_diff.Axi.Read.{ReadState}
use my_diff.Axi.Read as Read
use my_diff.Axi.Write.{WriteState}
use my_diff.Axi.Write as Write
use my_diff.Axi.Bus.{AxiPaddr}

abbrev is_2_pow : ℕ → Bool
is_2_pow x = not (x == 0) && (bit_and x (x - 1) == 0)

abbrev pub nemu : Nemu
nemu = record {
  bits = λ x hi lo. x / 2 ^ lo % 2 ^ (hi + 1 - lo);
  bitmask = λ n. 2 ^ n - 1;
  is_2_pow = is_2_pow;
  bits_field =
      λ x lo n. ap (λ t. x / 2 ^ lo % 2 ^ t) (let e : lo + n + 1 - lo ≡ n + 1 = omega arith in e);
  bitmask_low = λ n. refl;
  is_2_pow-pow = λ n.
      let self : bit_and (2 ^ n) (2 ^ n - 1) ≡ 0 = bit_and-low n (2 ^ n) ∙ mod_self (2 ^ n) in
      let one : 1 ≤ 2 ^ n = one-le-pow n 2 (omega arith) in rw self (ground arith);
}

-- A device that holds one word and adds its own number to what it returns.
abbrev pub register : PaddrInterface ℕ ℕ
register = record {
  do_read = λ dev addr info word held. done (true, held + dev, held);
  do_write = λ dev addr info word held. done (true, word);
  deep_copy = λ dev held. done (dev, held);
}

abbrev pub low_range : AddrIntv
low_range = record { start = 0x1000; mask = 0xfff }

abbrev pub high_range : AddrIntv
high_range = record { start = 0x8000; mask = 0xff }

abbrev pub table : PaddrTop ℕ
table = (low_range, 1) ∷ (high_range, 2) ∷ []

abbrev pub word_access : Wen
word_access = record { size = 4; wstrb = 0xf }

-- A CPU that asks for nothing and takes everything.
abbrev pub quiet : Pins
quiet = record {
  arid = 0;
  araddr = 0;
  arlen = 0;
  arsize = 0;
  arburst = 0;
  arvalid = false;
  rready = true;
  awid = 0;
  awaddr = 0;
  awlen = 0;
  awsize = 0;
  awburst = 0;
  awvalid = false;
  wid = 0;
  wdata = 0;
  wstrb = 0;
  wlast = false;
  wvalid = false;
  bready = true;
}

-- The slave, idle.
abbrev pub reader : ReadState
reader = record {
  status = Read.idel;
  burst_count = 0;
  left_time = 0;
  wrap_off_mask = 0;
  wrap_bound = 0;
  burst_type = fixed;
  cur_addr = 0;
  cur_info = record { size = 0; wstrb = 0 };
  cur_id = 0;
  out = record { arready = true; rid = 0; rdata = 0; rresp = 0; rlast = false; rvalid = false };
}

abbrev pub writer : WriteState
writer = record {
  status = Write.idel;
  burst_count = 0;
  left_time = 0;
  wrap_off_mask = 0;
  wrap_bound = 0;
  burst_type = fixed;
  cur_addr = replicate 16 0;
  cur_info = replicate 16 (record { size = 0; wstrb = 0 });
  cur_id = 0;
  cur_data = replicate 16 0;
  cur_no = 0;
  out = record { awready = true; wready = false; bid = 0; bresp = 0; bvalid = false };
}

abbrev pub bus : AxiPaddr
bus = record { read = reader; write = writer; read_pins = reader.out; write_pins = writer.out }

-- An allocator that clears its arrays.
pub zeros : ℕ → List ℕ
zeros zero = []
zeros (suc n) = 0 ∷ zeros n

pub length-zeros : (n : ℕ) → length (zeros n) ≡ n
unfolding zeros
length-zeros zero = refl
length-zeros (suc n) = ap suc (length-zeros n)

abbrev pub clear : Allocator
clear = record { fresh = λ number. zeros; fresh_size = λ number size. length-zeros size }

abbrev pub nothing : Heap
nothing = record { blocks = []; confregs = [] }

-- Two instructions.
abbrev pub program : List ℕ
program = 0x01 ∷ 0x02 ∷ 0x03 ∷ 0x04 ∷ 0x05 ∷ 0x06 ∷ 0x07 ∷ 0x08 ∷ []
