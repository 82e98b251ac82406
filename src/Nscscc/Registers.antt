-- ===== src/Nscscc/Registers.antt =====
-- The registers of `nscscc_confreg` are those of `PaddrConfreg`, but for one read.
use my_diff.Base.{
  ℕ, ◌+◌, ◌≡◌, refl, true, ◌==◌, ◌&&◌, ◌||◌, arith, if◌then◌else◌, u32, Bool, Outcome, done,
  aborted, fault, Bool-cases, inl, inr, ap,
}
use my_diff.Base.Masks.{bit_and-low}
use my_diff.Paddr.{Wen}
use my_diff.Confreg as Confreg
use my_diff.Confreg.{PaddrConfreg, Label, label, address, cr0_addr, virtual_uart_addr}
use my_diff.Nscscc.{
  NscsccConfreg, extend, read_label, write_label, do_read, do_write, init, tick, set_switch,
}

-- The registers, as a `PaddrConfreg`.
abbrev pub registers : NscsccConfreg → PaddrConfreg
registers c = record {
  cr0 = c.cr0;
  cr1 = c.cr1;
  cr2 = c.cr2;
  cr3 = c.cr3;
  cr4 = c.cr4;
  cr5 = c.cr5;
  cr6 = c.cr6;
  cr7 = c.cr7;
  switch_data = c.switch_data;
  switch_inter_data = c.switch_inter_data;
  timer = c.timer;
  led = c.led;
  led_rg0 = c.led_rg0;
  led_rg1 = c.led_rg1;
  num = c.num;
  simu_flag = c.simu_flag;
  io_simu = c.io_simu;
  virtual_uart = c.virtual_uart;
  open_trace = c.open_trace;
  num_monitor = c.num_monitor;
  uart_queue = c.uart_queue;
  confreg_read = c.confreg_read;
  confreg_write = c.confreg_write;
}

-- The value that `nscscc_confreg` reads where `PaddrConfreg` reads `v`.
abbrev pub signed : ℕ → ℕ → ℕ
signed addr v = if addr == address virtual_uart_addr then extend v else v

label-uart : (addr : ℕ) → label addr ≡ virtual_uart_addr → addr ≡ address virtual_uart_addr
unfolding label
label-uart addr e = ground arith

read_same :
    (c : NscsccConfreg) (addr : ℕ)
    → read_label c (label addr) ≡ signed addr (Confreg.read_label (registers c) (label addr))
unfolding read_label label Confreg.read_label
read_same c addr = ground arith

write_same :
    (c : NscsccConfreg) (l : Label) (word : ℕ)
    → registers (write_label c l word) ≡ Confreg.write_label (registers c) l word
unfolding write_label Confreg.write_label
write_same c virtual_uart_addr word = rw (bit_and-low 8 word) refl
write_same c cr0_addr word = refl
write_same c _ word = refl

-- What a call leaves, seen as registers.
abbrev pub seen {ℓ} :
    {A : Type ℓ} → Outcome (Bool × A × NscsccConfreg) → Outcome (Bool × A × PaddrConfreg)
seen (done (ok, v, c)) = done (ok, v, registers c)
seen aborted = aborted
seen fault = fault

abbrev pub seen_write : Outcome (Bool × NscsccConfreg) → Outcome (Bool × PaddrConfreg)
seen_write (done (ok, c)) = done (ok, registers c)
seen_write aborted = aborted
seen_write fault = fault

-- An answer with its value as a signed `char`, where it is the virtual UART's.
abbrev pub as_signed : ℕ → Outcome (Bool × ℕ × PaddrConfreg) → Outcome (Bool × ℕ × PaddrConfreg)
as_signed addr (done (ok, v, c)) = done (ok, signed addr v, c)
as_signed addr aborted = aborted
as_signed addr fault = fault

seen_do_read :
    (c : NscsccConfreg) (addr : ℕ) (info : Wen) (w : ℕ)
    → seen (do_read c addr info.size) ≡ as_signed addr (Confreg.do_read (registers c) addr info w)
unfolding do_read Confreg.do_read
seen_do_read c addr info w = elim (Bool-cases (info.size == 4)) [
  | inl four ↦
      let counted = record c { confreg_read = u32 (c.confreg_read + 1) } in
      rw (four, read_same counted addr) refl
  | inr other ↦ rw other refl
]

seen_do_write :
    (c : NscsccConfreg) (addr : ℕ) (info : Wen) (word : ℕ)
    → seen_write (do_write c addr info.size word) ≡ Confreg.do_write (registers c) addr info word
unfolding do_write Confreg.do_write
seen_do_write c addr info word =
    let allowed = info.size == 4 || (info.size == 1 && addr == address virtual_uart_addr) in
    elim (Bool-cases allowed) [
      | inl yes_ ↦
          let counted = record c { confreg_write = u32 (c.confreg_write + 1) } in
          rw yes_ (ap (λ r. done (true, r)) (write_same counted (label addr) word))
      | inr no_ ↦ rw no_ refl
    ]

-- The two classes are the same register file: for every address and size, also those that fail the
-- assertion, a read and a write of `nscscc_confreg` do to its registers what they do to those of
-- `PaddrConfreg`, and return the same, except that a read of the virtual UART gives the byte
-- sign-extended to 32 bits. The constructor, `tick` and `set_switch` do the same too.
pub same_registers :
    (c : NscsccConfreg) (addr : ℕ) (info : Wen) (word w value : ℕ) (simulation : Bool)
    → (seen (do_read c addr info.size) ≡ as_signed addr (Confreg.do_read (registers c) addr info w))
      × (seen_write (do_write c addr info.size word)
          ≡ Confreg.do_write (registers c) addr info word)
      × (registers (init c simulation) ≡ Confreg.init simulation)
      × (registers (tick c) ≡ Confreg.tick (registers c))
      × (registers (set_switch c value) ≡ Confreg.set_switch (registers c) value)
unfolding init tick set_switch Confreg.init Confreg.tick Confreg.set_switch
same_registers c addr info word w value simulation =
    (seen_do_read c addr info w, seen_do_write c addr info word, refl, refl, refl)
