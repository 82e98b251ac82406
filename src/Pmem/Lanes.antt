-- ===== src/Pmem/Lanes.antt =====
-- The strobed store of `Pmem::do_write`: which bytes of the word reach memory.
use my_diff.Base.{
  ℕ, zero, suc, ◌+◌, ◌-◌, ◌*◌, ◌/◌, ◌%◌, ◌^◌, ◌≤◌, ◌<◌, ◌≡◌, ◌⊎◌, inl, inr, refl, Bool, true, not,
  ◌&&◌, List, arith, ltb, leb, ◌==◌, if◌then◌else◌, length, Outcome, done, Bool-cases,
}
use native.Mathlib.Decide.{dec_lt}
use my_diff.Base.Nemu.{Nemu}
use my_diff.Paddr.{Wen}
use my_diff.Pmem.{store_strobed, store_lanes}
use my_diff.Pmem.Bytes.{byte_at, digit, Stored, store_byte-Stored}

-- Bit `i` of the strobes.
abbrev pub strobe : ℕ → ℕ → Bool
strobe wstrb i = not (wstrb / 2 ^ i % 2 == 0)

-- The lanes that an access writes: `wstrb` counts only in an access of four bytes.
abbrev pub written : Wen → ℕ → Bool
written info i = ltb i info.size && (if info.size == 4 then strobe info.wstrb i else true)

-- The sizes that `Pmem` supports.
abbrev pub IsSize : ℕ → Type 0
IsSize s = (s ≡ 1) ⊎ (s ≡ 2) ⊎ (s ≡ 4)

module _ (n : Nemu) (wstrb word : ℕ) where
  store_strobed-Stored :
      (mem : List ℕ) (addr i : ℕ)
      → addr + i < length mem
      → n.bits wstrb i i ≡ wstrb / 2 ^ i % 2
      → n.bits word (8 * i + 7) (8 * i) % 256 ≡ digit word i
      → Stored mem
          (store_strobed n mem addr i wstrb word)
          (λ j. if (j == addr + i) && strobe wstrb i then digit word i else byte_at mem j)
  unfolding store_strobed
  store_strobed-Stored mem addr i h lane field = elim (Bool-cases (strobe wstrb i)) [
    | inl on ↦
        let w = store_byte-Stored mem (addr + i) (n.bits word (8 * i + 7) (8 * i)) h in
        record {
          out = w.out;
          returns = ground (arith, w.returns);
          same_length = w.same_length;
          bytes = λ j. ground (arith, w.bytes j);
        }
    | inr off ↦ record {
      out = mem;
      returns = ground arith;
      same_length = refl;
      bytes = λ j. ground arith;
    }
  ]

  lanes :
      (i : ℕ)
      → i < 4
      → (n.bits wstrb i i ≡ wstrb / 2 ^ i % 2)
        × (n.bits word (8 * i + 7) (8 * i) % 256 ≡ digit word i)
  lanes zero h = omega (arith, n.bits_field wstrb 0 0, n.bits_field word 0 7)
  lanes (suc zero) h = omega (arith, n.bits_field wstrb 1 0, n.bits_field word 8 7)
  lanes (suc (suc zero)) h = omega (arith, n.bits_field wstrb 2 0, n.bits_field word 16 7)
  lanes (suc (suc (suc zero))) h = omega (arith, n.bits_field wstrb 3 0, n.bits_field word 24 7)
  lanes (suc (suc (suc (suc i)))) h = absurd (omega arith)

  lane-Stored :
      (mem : List ℕ) (addr i : ℕ)
      → i < 4
      → addr + 4 ≤ length mem
      → Stored mem
          (store_strobed n mem addr i wstrb word)
          (λ j. if (j == addr + i) && strobe wstrb i then digit word i else byte_at mem j)
  lane-Stored mem addr i h room =
      store_strobed-Stored mem addr i (omega arith) (lanes i h).0 (lanes i h).1

-- A write returns true and the memory `out`.
abbrev pub Wrote : List ℕ → Outcome (Bool × List ℕ) → (ℕ → ℕ) → Type 0
Wrote mem result f =
    (out : List ℕ) × (result ≡ done (true, out))
    × (length out ≡ length mem)
    × ((j : ℕ) → byte_at out j ≡ f j)

-- Byte `j` after a write of `word` at `addr`.
abbrev pub after_write : List ℕ → ℕ → Wen → ℕ → ℕ → ℕ
after_write mem addr info word j =
    if leb addr j && written info (j - addr) then digit word (j - addr) else byte_at mem j

-- The four conditional stores together, at byte `j`.
lanes_together :
    (info : Wen) (word addr j b₀ : ℕ) {b₁ b₂ b₃ b₄ : ℕ}
    → info.size ≡ 4
    → b₁ ≡ (if (j == addr + 0) && strobe info.wstrb 0 then digit word 0 else b₀)
    → b₂ ≡ (if (j == addr + 1) && strobe info.wstrb 1 then digit word 1 else b₁)
    → b₃ ≡ (if (j == addr + 2) && strobe info.wstrb 2 then digit word 2 else b₂)
    → b₄ ≡ (if (j == addr + 3) && strobe info.wstrb 3 then digit word 3 else b₃)
    → b₄ ≡ (if leb addr j && written info (j - addr) then digit word (j - addr) else b₀)
lanes_together info word addr j b₀ four e₀ e₁ e₂ e₃ = elim (dec_lt j addr) [
  | yes below ↦ ground arith
  | no above ↦ elim (lane (j - addr)) [
    | inl e ↦ rw e (ground arith)
    | inr (inl e) ↦ rw e (ground arith)
    | inr (inr (inl e)) ↦ rw e (ground arith)
    | inr (inr (inr (inl e))) ↦ rw e (ground arith)
    | inr (inr (inr (inr e))) ↦ ground arith
  ]
]
  where
    lane : (i : ℕ) → (i ≡ 0) ⊎ (i ≡ 1) ⊎ (i ≡ 2) ⊎ (i ≡ 3) ⊎ (4 ≤ i)
    lane zero = inl refl
    lane (suc zero) = inr (inl refl)
    lane (suc (suc zero)) = inr (inr (inl refl))
    lane (suc (suc (suc zero))) = inr (inr (inr (inl refl)))
    lane (suc (suc (suc (suc i)))) = inr (inr (inr (inr (omega arith))))

pub store_lanes-Wrote :
    (n : Nemu) (mem : List ℕ) (addr : ℕ) (info : Wen) (word : ℕ)
    → info.size ≡ 4
    → addr + 4 ≤ length mem
    → Wrote mem (store_lanes n mem addr info.wstrb word) (after_write mem addr info word)
unfolding store_lanes
store_lanes-Wrote n mem addr info word four h =
    let s₀ = lane-Stored n info.wstrb word mem addr 0 (omega arith) h in
    let s₁ =
      lane-Stored n info.wstrb word s₀.out addr 1 (omega arith) (omega (arith, s₀.same_length)) in
    let s₂ =
      lane-Stored n info.wstrb word s₁.out addr 2 (omega arith)
        (omega (arith, s₀.same_length, s₁.same_length)) in
    let s₃ =
      lane-Stored n info.wstrb word s₂.out addr 3 (omega arith)
        (omega (arith, s₀.same_length, s₁.same_length, s₂.same_length)) in
    (
      s₃.out,
      rw (s₀.returns, s₁.returns, s₂.returns, s₃.returns),
      omega (arith, s₀.same_length, s₁.same_length, s₂.same_length, s₃.same_length),
      λ j.
          lanes_together info word addr j (byte_at mem j) four (s₀.bytes j) (s₁.bytes j)
            (s₂.bytes j) (s₃.bytes j),
    )
