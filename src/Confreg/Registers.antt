-- ===== src/Confreg/Registers.antt =====
-- The register file behind `PaddrConfreg::do_read` and `do_write`.
use my_diff.Base.{
  ℕ, ◌+◌, ◌*◌, ◌/◌, ◌%◌, ◌^◌, ◌<◌, ◌≡◌, ◌≢◌, ◌⊎◌, inl, inr, refl, sym, ap, ap₂, ◌∙◌, true, false,
  ==_iff, arith, ◌==◌, if◌then◌else◌, bit_and, bit_or, u32, done,
}
use native.Mathlib.Decide.{ℕ_discrete}
use my_diff.Base.Masks.{bit_and-low, bit_or-join_high}
use my_diff.Paddr.{Wen}
use my_diff.Confreg.{
  PaddrConfreg, Label, address, label, read_label, write_label, do_read, do_write, cr0_addr,
  led_addr, led_rg0_addr, led_rg1_addr, switch_addr, btn_key_addr, btn_step_addr, sw_inter_addr,
  simu_flag_addr, io_simu_addr, virtual_uart_addr, open_trace_addr, num_monitor_addr, unmapped,
}

pub Label-discrete : Discrete Label
Label-discrete = hlevel

-- What a label reads as once `word` has been written to it, where it read as `old` before.
abbrev pub latched : Label → ℕ → ℕ → ℕ
latched io_simu_addr word old = word % 2 ^ 16 * 2 ^ 16 + word / 2 ^ 16
latched open_trace_addr word old = if word == 0 then 0 else 1
latched num_monitor_addr word old = word % 2
latched virtual_uart_addr word old = word % 256
latched led_addr word old = old
latched led_rg0_addr word old = old
latched led_rg1_addr word old = old
latched switch_addr word old = old
latched btn_key_addr word old = old
latched btn_step_addr word old = old
latched sw_inter_addr word old = old
latched simu_flag_addr word old = old
latched unmapped word old = old
latched _ word old = word

io_simu_value :
    (word : ℕ)
    → word < 2 ^ 32
    → bit_or (u32 (bit_and word 0xffff * 2 ^ 16)) (word / 2 ^ 16)
      ≡ word % 2 ^ 16 * 2 ^ 16 + word / 2 ^ 16
io_simu_value word h =
    ap (λ t. bit_or t (word / 2 ^ 16)) high
    ∙ bit_or-join_high 16 (word % 2 ^ 16) (word / 2 ^ 16) (omega arith)
  where
    high : u32 (bit_and word 0xffff * 2 ^ 16) ≡ word % 2 ^ 16 * 2 ^ 16
    high = omega (arith, bit_and-low 16 word)

read_own :
    (c : PaddrConfreg) (l : Label) (word : ℕ)
    → word < 2 ^ 32
    → read_label (write_label c l word) l ≡ latched l word (read_label c l)
unfolding read_label write_label
read_own c io_simu_addr word h = io_simu_value word h
read_own c num_monitor_addr word h = bit_and-low 1 word
read_own c virtual_uart_addr word h = bit_and-low 8 word
read_own c _ word h = refl

read_other :
    (c : PaddrConfreg) (l m : Label) (word : ℕ)
    → l ≢ m
    → read_label (write_label c l word) m ≡ read_label c m
unfolding read_label write_label
read_other c cr0_addr m word h = ground arith
read_other c _ m word h = ground arith

label-address : (a : ℕ) → label a ≢ unmapped → a ≡ address (label a)
unfolding label
label-address a h = ground arith

-- The label of the second access, seen from the first.
same_label : (a b : ℕ) → label a ≡ label b → (a ≡ b) ⊎ ((label a ≡ unmapped) × (label b ≡ unmapped))
same_label a b e = elim (Label-discrete (label a) unmapped) [
  | yes u ↦ inr (u, sym e ∙ u)
  | no n ↦ inl (label-address a n ∙ ap address e ∙ sym (label-address b (λ v. n (e ∙ v))))
]

read_counted :
    (c : PaddrConfreg) (r w : ℕ) (m : Label)
    → read_label (record c { confreg_read = r; confreg_write = w }) m ≡ read_label c m
unfolding read_label
read_counted c r w cr0_addr = refl
read_counted c r w _ = refl

read_value :
    (c : PaddrConfreg) (a b word : ℕ)
    → word < 2 ^ 32
    → read_label (write_label c (label a) word) (label b)
      ≡ (if a == b then latched (label a) word (read_label c (label a)) else read_label c (label b))
read_value c a b word h = elim (ℕ_discrete a b) [
  | yes e ↦ rw (← e, (==_iff a a).1 refl) (read_own c (label a) word h)
  | no n ↦ rw (differs n) (elim (Label-discrete (label a) (label b)) [
    | yes e ↦ elim (same_label a b e) [
      | inl same ↦ absurd (n same)
      | inr (u, v) ↦ rw (u, v) (read_own c unmapped word h)
    ]
    | no m ↦ read_other c (label a) (label b) word m
  ])
]
  where
    differs : a ≢ b → (a == b) ≡ false
    differs n = ground arith

-- A register file: after a write of four bytes, of a 32-bit word, at `a`, a read of four bytes at
-- `b` returns the latched word if it is the same address, and what it returned before if it is
-- another. Both calls return true.
pub register_file :
    (c : PaddrConfreg) (a b : ℕ) (write_info read_info : Wen) (word w : ℕ)
    → write_info.size ≡ 4
    → read_info.size ≡ 4
    → word < 2 ^ 32
    → (c' c'' : PaddrConfreg) × (do_write c a write_info word ≡ done (true, c'))
      × (do_read c' b read_info w
          ≡ done (
            true,
            (if a == b
                then latched (label a) word (read_label c (label a))
                else read_label c (label b)),
            c'',
          ))
register_file c a b write_info read_info word w ws rs h =
    let counted = record c { confreg_write = u32 (c.confreg_write + 1) } in
    let c' = write_label counted (label a) word in
    let c'' = record c' { confreg_read = u32 (c'.confreg_read + 1) } in
    (
      c',
      c'',
      unfold do_write in rw ws,
      unfold do_read in
          rw rs (
            ap (λ v. done (true, v, c''))
              (read_counted c' c''.confreg_read c''.confreg_write (label b)
                ∙ read_value counted a b word h
                ∙ ap₂ (λ x y. if a == b then latched (label a) word x else y)
                    (read_counted c c.confreg_read counted.confreg_write (label a))
                    (read_counted c c.confreg_read counted.confreg_write (label b)))),
    )
