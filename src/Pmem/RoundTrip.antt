-- ===== src/Pmem/RoundTrip.antt =====
-- A read after a write, and the loading of a file.
use my_diff.Base.{
  ℕ, zero, suc, ◌+◌, ◌-◌, ◌*◌, ◌/◌, ◌%◌, ◌^◌, ◌≤◌, ◌<◌, ◌≡◌, ◌≢◌, ◌⊎◌, inl, inr, refl, ap, ◌∙◌,
  true, List, arith, length, done,
}
use my_diff.Base.Nemu.{Nemu}
use my_diff.Paddr.{Wen}
use my_diff.Pmem.{low_bytes, do_read, do_write}
use my_diff.Pmem.Bytes.{byte_at, value, digit}
use my_diff.Pmem.Lanes.{IsSize, after_write}
use my_diff.Pmem.Access.{do_write_lem, do_read_lem, written_full}

-- The number that the `n` lowest digits of `v` stand for.
abbrev pub number : ℕ → ℕ → ℕ
number v zero = 0
number v (suc n) = v % 256 + 256 * number (v / 256) n

pub number-eq-mod : (v n : ℕ) → IsSize n → number v n ≡ v % 256 ^ n
number-eq-mod v n (inl e) = rw e (omega arith)
number-eq-mod v n (inr (inl e)) = rw e (omega arith)
number-eq-mod v n (inr (inr e)) = rw e (omega arith)

pub value-eq-number :
    (n : ℕ) (mem : List ℕ) (addr v : ℕ)
    → ((i : ℕ) → i < n → byte_at mem (addr + i) ≡ digit v i)
    → value mem addr n ≡ number v n
value-eq-number zero mem addr v h = refl
value-eq-number (suc n) mem addr v h =
    let first : byte_at mem addr ≡ v % 256 =
      ap (byte_at mem) {x = addr} {y = addr + 0} (omega arith) ∙ h 0 (omega arith) in
    let rest =
      value-eq-number n mem (addr + 1) (v / 256) (λ i lt. shifted i ∙ h (suc i) (omega arith)) in
    omega (arith, first, rest)
  where
    shifted : (i : ℕ) → byte_at mem (addr + 1 + i) ≡ byte_at mem (addr + suc i)
    shifted i = ap (byte_at mem) {x = addr + 1 + i} {y = addr + suc i} (omega arith)

-- What a full write leaves at its own bytes.
pub after_write_own :
    (mem : List ℕ) (addr : ℕ) (info : Wen) (word i : ℕ)
    → (info.size ≢ 4) ⊎ (info.wstrb ≡ 15)
    → i < info.size
    → after_write mem addr info word (addr + i) ≡ digit word i
after_write_own mem addr info word i full lt =
    let e : addr + i - addr ≡ i = omega arith in rw e (ground (arith, written_full info full i lt))

-- Reading back what was written: a write of all the bytes of an access, and a read of the same
-- size at the same address, give the written bytes of the word.
pub do_read-do_write :
    (n : Nemu) (mem : List ℕ) (addr : ℕ) (info : Wen) (word w : ℕ)
    → IsSize info.size
    → (info.size ≢ 4) ⊎ (info.wstrb ≡ 15)
    → addr + info.size ≤ length mem
    → (out : List ℕ) × (do_write n mem addr info word ≡ done (true, out))
      × (do_read out addr info w ≡ done (true, low_bytes info.size w (word % 256 ^ info.size)))
do_read-do_write n mem addr info word w size full h =
    let (out, e, len, bytes) = do_write_lem n mem addr info word size h in
    (
      out,
      e,
      do_read_lem out addr info w size (omega (arith, len))
          ∙ ap (λ v. done (true, low_bytes info.size w v))
              (value-eq-number info.size out addr word
                  (λ i lt. bytes (addr + i) ∙ after_write_own mem addr info word i full lt)
                ∙ number-eq-mod word info.size size),
    )
