-- ===== src/Pmem/Access.antt =====
-- `Pmem::do_read` and `do_write`: what a write leaves in memory, and what a read then returns.
use my_diff.Base.{
  ℕ, zero, suc, ◌+◌, ◌-◌, ◌≤◌, ◌<◌, ◌≡◌, ◌≢◌, ◌⊎◌, inl, inr, refl, true, List, arith, length, done,
  aborted,
}
use native.Mathlib.Decide.{ℕ_discrete}
use my_diff.Base.Nemu.{Nemu}
use my_diff.Paddr.{Wen}
use my_diff.Pmem.{store_lanes, store_word, low_bytes, do_read, do_write}
use my_diff.Pmem.Lanes.{strobe, written, IsSize, Wrote, after_write, store_lanes-Wrote}
use my_diff.Pmem.Bytes.{value, load_lem, store-Stored}

store_word-Wrote :
    (mem : List ℕ) (addr : ℕ) (info : Wen) (word : ℕ)
    → ((i : ℕ) → i < info.size → written info i ≡ true)
    → addr + info.size ≤ length mem
    → Wrote mem (store_word mem addr info.size word) (after_write mem addr info word)
unfolding store_word
store_word-Wrote mem addr info word full h =
    let s = store-Stored info.size mem addr word h in
    (s.out, rw (s.returns), s.same_length, λ j. ground (arith, s.bytes j, full (j - addr)))

all_lanes : (i : ℕ) → i < 4 → strobe 15 i ≡ true
all_lanes zero h = refl
all_lanes (suc zero) h = refl
all_lanes (suc (suc zero)) h = refl
all_lanes (suc (suc (suc zero))) h = refl
all_lanes (suc (suc (suc (suc i)))) h = absurd (omega arith)

do_write_full :
    (n : Nemu) (mem : List ℕ) (addr : ℕ) (info : Wen) (word : ℕ)
    → IsSize info.size
    → (info.size ≢ 4) ⊎ (info.wstrb ≡ 15)
    → do_write n mem addr info word ≡ store_word mem addr info.size word
unfolding do_write
do_write_full n mem addr info word size full = ground arith

pub written_full :
    (info : Wen)
    → (info.size ≢ 4) ⊎ (info.wstrb ≡ 15)
    → (i : ℕ) → i < info.size
    → written info i ≡ true
written_full info (inl small) i h = ground arith
written_full info (inr full) i h = elim (ℕ_discrete info.size 4) [
  | yes four ↦ rw full (ground (arith, all_lanes i))
  | no small ↦ ground arith
]

do_write_strobed :
    (n : Nemu) (mem : List ℕ) (addr : ℕ) (info : Wen) (word : ℕ)
    → info.size ≡ 4
    → info.wstrb ≢ 15
    → do_write n mem addr info word ≡ store_lanes n mem addr info.wstrb word
unfolding do_write
do_write_strobed n mem addr info word four part = ground arith

-- Inside the memory a write of a supported size returns true, keeps the memory's length, and
-- changes exactly the bytes of the lanes that it writes: to the bytes of the word, lowest first.
pub do_write_lem :
    (n : Nemu) (mem : List ℕ) (addr : ℕ) (info : Wen) (word : ℕ)
    → IsSize info.size
    → addr + info.size ≤ length mem
    → Wrote mem (do_write n mem addr info word) (after_write mem addr info word)
do_write_lem n mem addr info word size h = elim (kind info) [
  | inl full ↦
      rw (do_write_full n mem addr info word size full)
        (store_word-Wrote mem addr info word (written_full info full) h)
  | inr (four, part) ↦
      rw (do_write_strobed n mem addr info word four part)
        (store_lanes-Wrote n mem addr info word four (omega arith))
]
  where
    kind : (i : Wen) → ((i.size ≢ 4) ⊎ (i.wstrb ≡ 15)) ⊎ ((i.size ≡ 4) × (i.wstrb ≢ 15))
    kind i = elim (ℕ_discrete i.size 4) [
      | yes four ↦ elim (ℕ_discrete i.wstrb 15) [
        | yes full ↦ inl (inr full)
        | no part ↦ inr (four, part)
      ]
      | no small ↦ inl (inl small)
    ]

-- A read of a supported size inside the memory returns true and puts the bytes at `addr`, lowest
-- first, into the low bytes of `*data`.
pub do_read_lem :
    (mem : List ℕ) (addr : ℕ) (info : Wen) (word : ℕ)
    → IsSize info.size
    → addr + info.size ≤ length mem
    → do_read mem addr info word ≡ done (true, low_bytes info.size word (value mem addr info.size))
unfolding do_read
do_read_lem mem addr info word size h = ground (arith, load_lem mem addr info.size)

-- Any other size fails the assertion of both operations.
pub unsupported_size :
    (n : Nemu) (mem : List ℕ) (addr : ℕ) (info : Wen) (word : ℕ)
    → ¬ IsSize info.size
    → (do_read mem addr info word ≡ aborted) × (do_write n mem addr info word ≡ aborted)
unfolding do_read do_write
unsupported_size n mem addr info word odd = ground arith
