-- ===== src/Spaces/Store.antt =====
-- What the writes of a burst leave in the memory of the boot range.
use my_diff.Base.{
  ℕ, zero, suc, ◌+◌, ◌-◌, ◌*◌, ◌%◌, ◌^◌, ◌<◌, ◌≤◌, ◌≡◌, refl, sym, ap, ap₂, ◌∙◌, inl, inr, List, [],
  ◌∷◌, before_or_last, arith, length, true, done,
}
use my_diff.Base.Nemu.{Nemu}
use my_diff.Paddr.{Wen, PaddrTop, end}
use my_diff.Paddr as Paddr
use my_diff.Paddr.Routing.{Inside, access_routes}
use my_diff.Pmem.Bytes.{byte_at, value}
use my_diff.Pmem.Access.{do_write_lem}
use my_diff.Pmem.RoundTrip.{number-eq-mod, value-eq-number, after_write_own}
use my_diff.Axi.{Pins}
use my_diff.Axi.Write.Beats.{beat_info}
use my_diff.Axi.Write.Issue.{bus_writes}
use my_diff.Board.{Heap, Pmem, Dev, memory, registers, block, put_block, write, board}
use my_diff.Board.Blocks.{block-put_self, block-lt}
use my_diff.Spaces.SetUp.{inst_range, confreg_range, devices-IsTable}

value-cong :
    (n a : ℕ) (mem mem' : List ℕ)
    → ((b : ℕ) → b < a + n → byte_at mem' b ≡ byte_at mem b)
    → value mem' a n ≡ value mem a n
value-cong zero a mem mem' same = refl
value-cong (suc n) a mem mem' same =
    ap₂ (λ b v. b + 256 * v) (same a (omega arith))
      (value-cong n (a + 1) mem mem' (λ b h. same b (omega arith)))

abbrev pub devices : Pmem → ℕ → PaddrTop Dev
devices p c = (inst_range, memory p) ∷ (confreg_range, registers c) ∷ []

-- The heap holds the array of the memory, of 2 ^ 22 bytes.
abbrev pub Holds : Pmem → Heap → List ℕ → Type 0
Holds p h mem = (block h p.mem ≡ done mem) × (length mem ≡ 2 ^ 22)

module _ (n : Nemu) (p : Pmem) (c : ℕ) where
  -- One write of a whole word at `x`.
  store_word_at :
      (h : Heap) (mem : List ℕ) (x word : ℕ) (info : Wen)
      → Holds p h mem
      → info.size ≡ 4
      → info.wstrb ≡ 15
      → x + 4 < 2 ^ 22
      → (h' : Heap) × (mem' : List ℕ) × (Paddr.do_write
            (board n)
            (devices p c)
            (0x1fc00000 + x)
            info
            word
            h
          ≡ done (true, h'))
        × Holds p h' mem'
        × ((b : ℕ) → b < x → byte_at mem' b ≡ byte_at mem b)
        × (value mem' x 4 ≡ word % 2 ^ 32)
  unfolding board write
  store_word_at h mem x word info (e, size) four full below =
      let inside : Inside inst_range (0x1fc00000 + x) info =
        unfold end in (omega arith, omega arith) in
      let (out, wrote, same, bytes) =
        do_write_lem n mem x info word (inr (inr four)) (omega arith) in
      let at_x : 0x1fc00000 + x - 0x1fc00000 ≡ x = omega arith in
      (
        put_block h p.mem out,
        out,
        (access_routes (board n) [] ((confreg_range, registers c) ∷ []) inst_range (memory p)
              (0x1fc00000 + x) info word h (devices-IsTable (memory p) (registers c)) inside).1
            ∙ rw (at_x, e, wrote) refl,
        (block-put_self h p.mem out (block-lt h p.mem e), omega (arith, same, size)),
        (λ b h. bytes b ∙ ground arith),
        value-eq-number 4 out x word
              (λ i lt. bytes (x + i) ∙ after_write_own mem x info word i (inr full) (omega arith))
            ∙ number-eq-mod word 4 (inr (inr refl)),
      )

  module _ (beat : ℕ → Pins) (addr : ℕ → ℕ) (j total : ℕ)
      (placed : (k : ℕ) → k < total → addr k ≡ 0x1fc00000 + (j + k * 4))
      (full : (k : ℕ) → (beat k).wstrb ≡ 15) (inside : j + total * 4 < 2 ^ 22) where
    -- The writes from beat `i` on leave the words of their beats, and the bytes before them.
    pub bus_writes_lem :
        (left i : ℕ) (h : Heap) (mem : List ℕ)
        → i + left ≡ total
        → Holds p h mem
        → (h' : Heap) × (mem' : List ℕ) × (bus_writes (board n) (devices p c) addr beat 4 left i h
            ≡ done (true, h'))
          × Holds p h' mem'
          × ((b : ℕ) → b < j + i * 4 → byte_at mem' b ≡ byte_at mem b)
          × ((k : ℕ) → i ≤ k → k < total → value mem' (j + k * 4) 4 ≡ (beat k).wdata % 2 ^ 32)
    unfolding bus_writes
    bus_writes_lem zero i h mem sum holds =
        (h, mem, refl, holds, (λ b _. refl), (λ k lo hi. absurd (omega arith)))
    bus_writes_lem (suc left) i h mem sum holds =
        let (h₁, mem₁, wrote, holds₁, before, word) =
          store_word_at h mem (j + i * 4) (beat i).wdata (beat_info beat 4 i) holds refl
            (ap (λ s. s % 16) (full i)) (omega arith) in
        let (h₂, mem₂, rest, holds₂, before₂, words) =
          bus_writes_lem left (i + 1) h₁ mem₁ (omega arith) holds₁ in
        let kept : value mem₂ (j + i * 4) 4 ≡ value mem₁ (j + i * 4) 4 =
          value-cong 4 (j + i * 4) mem₁ mem₂ (λ b lt. before₂ b (omega arith)) in
        (
          h₂,
          mem₂,
          rw (placed i (omega arith), wrote, rest) refl,
          holds₂,
          (λ b lt. before₂ b (omega arith) ∙ before b lt),
          (λ k lo hi. elim (before_or_last i k (omega arith)) [
            | inl later ↦ words k (omega arith) hi
            | inr here ↦
                ap (λ t. value mem₂ (j + t * 4) 4) (sym here)
                ∙ kept
                ∙ word
                ∙ ap (λ t. (beat t).wdata % 2 ^ 32) here
          ]),
        )
