-- ===== src/Spaces/Sharing.antt =====
-- `new_paddr_top`: the boot range shares the array of the low range.
use my_diff.Base.{
  ℕ, ◌+◌, ◌-◌, ◌%◌, ◌^◌, ◌<◌, ◌≤◌, ◌≡◌, ◌≢◌, ◌⊎◌, refl, ◌∙◌, List, [], ◌∷◌, arith, length, true,
  false, Option, done, subst,
}
use my_diff.Base.Nemu.{Nemu}
use my_diff.Paddr.{AddrIntv, Wen, PaddrTop, of_bits, end, add_dev}
use my_diff.Paddr as Paddr
use my_diff.Paddr.Range.{IsRange, of_bits_lem}
use my_diff.Paddr.Overlap.{IsTable, Meets}
use my_diff.Paddr.Routing.{access_routes}
use my_diff.Confreg as Confreg
use my_diff.Pmem.{low_bytes}
use my_diff.Pmem.Lanes.{IsSize}
use my_diff.Pmem.RoundTrip.{do_read-do_write}
use my_diff.Board.{
  Heap, Allocator, Pmem, Dev, memory, registers, block, new_block, put_block, new_confreg,
  get_mem_ptr, read, write, board,
}
use my_diff.Board.Blocks.{
  block-new_self, block-put_self, block-lt, length-blocks_new, block-new_confreg,
}
use my_diff.Board.Objects.{next, of_range_lem, borrowed_lem, next_size, IsFile, load_binary_lem}
use my_diff.Spaces.{new_paddr_top, paddr_do_read, paddr_do_write}
use my_diff.Spaces.SetUp.{
  inst_range, confreg_range, inst_range-IsRange, confreg_range-IsRange, inst_bits, confreg_bits,
  inst_confreg-Apart,
}

abbrev pub s0_1m : AddrIntv
s0_1m = record { start = 0; mask = 0xffffff }

s0_1m-IsRange : IsRange s0_1m
s0_1m-IsRange = record { width = 24; mask_ones = refl; aligned = refl; fits = omega arith }

s0_1m_bits : (n : Nemu) → of_bits n 0x0 24 ≡ done s0_1m
s0_1m_bits n = of_bits_lem n 0x0 24 (omega arith)

inst_s0_1m-Apart : ¬ Meets inst_range s0_1m
unfolding end
inst_s0_1m-Apart (a, p, q, t, u) = absurd (omega arith)

confreg_s0_1m-Apart : ¬ Meets confreg_range s0_1m
unfolding end
confreg_s0_1m-Apart (a, p, q, t, u) = absurd (omega arith)

-- NEMU's table: two memories on one array, and the registers.
abbrev pub nemu_devices : ℕ → ℕ → PaddrTop Dev
nemu_devices p c =
    (inst_range, memory (record { mem = p; mem_size = 2 ^ 22 }))
    ∷ (confreg_range, registers c)
    ∷ (s0_1m, memory (record { mem = p; mem_size = 2 ^ 24 }))
    ∷ []

nemu_devices-IsTable : (p c : ℕ) → IsTable (nemu_devices p c)
nemu_devices-IsTable p c = (
  inst_range-IsRange,
  omega arith,
  (inst_confreg-Apart, (inst_s0_1m-Apart, tt)),
  (
    confreg_range-IsRange,
    omega arith,
    (confreg_s0_1m-Apart, tt),
    (s0_1m-IsRange, omega arith, tt, tt),
  ),
)

pub new_paddr_top_lem :
    (n : Nemu) (allocator : Allocator) (func_bin : Option (List ℕ)) (h : Heap)
    → IsFile func_bin
    → (p : ℕ) × (c : ℕ) × (k : Heap) × (mem : List ℕ) × (new_paddr_top n allocator func_bin h
        ≡ done (nemu_devices p c, k))
      × (block k p ≡ done mem)
      × (length mem ≡ 2 ^ 24)
unfolding new_paddr_top new_confreg add_dev get_mem_ptr
new_paddr_top_lem n allocator func_bin h small =
    let p = next h (2 ^ 24) in
    let garbage = allocator.fresh (length h.blocks) (2 ^ 24) in
    let h₁ = (new_block h garbage).1 in
    let l =
      load_binary_lem p func_bin h₁ garbage (block-new_self h garbage)
        (next_size allocator (2 ^ 24) h) small in
    let h₂ = put_block h₁ p.mem l.out in
    let h₃ = (new_confreg h₂ (Confreg.init false)).1 in
    (
      p.mem,
      length h₂.confregs,
      h₃,
      l.out,
      rw
          (
            inst_bits n,
            s0_1m_bits n,
            confreg_bits n,
            of_range_lem n allocator 0x0 24 h (omega arith),
            l.returns,
            borrowed_lem n 0x1fc00000 22 p.mem (omega arith),
          )
          refl,
      block-new_confreg h₂ p.mem (Confreg.init false)
          ∙ block-put_self h₁ p.mem l.out (omega (arith, length-blocks_new h garbage)),
      l.same_length ∙ next_size allocator (2 ^ 24) h,
    )

-- Two memories on one array: what is written through one is read through the other.
shared_access :
    (n : Nemu) (p q : Pmem) (k : Heap) (mem : List ℕ) (x : ℕ) (info : Wen) (word w : ℕ)
    → q.mem ≡ p.mem
    → block k p.mem ≡ done mem
    → IsSize info.size
    → (info.size ≢ 4) ⊎ (info.wstrb ≡ 15)
    → x + info.size ≤ length mem
    → (k' : Heap) × (write n (memory p) x info word k ≡ done (true, k'))
      × (read (memory q) x info w k'
          ≡ done (true, low_bytes info.size w (word % 256 ^ info.size), k'))
unfolding read write
shared_access n p q k mem x info word w same e size full fits =
    let (out, wrote, read_back) = do_read-do_write n mem x info word w size full fits in
    (
      put_block k p.mem out,
      rw (e, wrote) refl,
      rw (same, block-put_self k p.mem out (block-lt k p.mem e), read_back) refl,
    )

abbrev boot : ℕ → Pmem
boot p = record { mem = p; mem_size = 2 ^ 22 }

abbrev low : ℕ → Pmem
low p = record { mem = p; mem_size = 2 ^ 24 }

-- Where an access of the table goes.
module _ (n : Nemu) (p c : ℕ) (info : Wen) (x word : ℕ) (k : Heap) where
  at_boot :
      x + info.size < 2 ^ 22
      → (paddr_do_read n (nemu_devices p c) (0x1fc00000 + x) info word k
          ≡ read (memory (boot p)) x info word k)
        × (paddr_do_write n (nemu_devices p c) (0x1fc00000 + x) info word k
            ≡ write n (memory (boot p)) x info word k)
  unfolding paddr_do_read paddr_do_write board
  at_boot fits =
      let at_x : 0x1fc00000 + x - 0x1fc00000 ≡ x = omega arith in
      subst
        (λ t.
          (Paddr.do_read (board n) (nemu_devices p c) (0x1fc00000 + x) info word k
            ≡ read (memory (boot p)) t info word k)
          × (Paddr.do_write (board n) (nemu_devices p c) (0x1fc00000 + x) info word k
              ≡ write n (memory (boot p)) t info word k))
        at_x
        (access_routes (board n) [] ((confreg_range, registers c) ∷ (s0_1m, memory (low p)) ∷ [])
          inst_range (memory (boot p)) (0x1fc00000 + x) info word k (nemu_devices-IsTable p c)
          (unfold end in (omega arith, omega arith)))

  at_low :
      x + info.size < 2 ^ 24
      → (paddr_do_read n (nemu_devices p c) x info word k ≡ read (memory (low p)) x info word k)
        × (paddr_do_write n (nemu_devices p c) x info word k
            ≡ write n (memory (low p)) x info word k)
  unfolding paddr_do_read paddr_do_write board
  at_low fits =
      let at_x : x - 0 ≡ x = omega arith in
      subst
        (λ t.
          (Paddr.do_read (board n) (nemu_devices p c) x info word k
            ≡ read (memory (low p)) t info word k)
          × (Paddr.do_write (board n) (nemu_devices p c) x info word k
              ≡ write n (memory (low p)) t info word k))
        at_x
        (access_routes (board n) ((inst_range, memory (boot p)) ∷ (confreg_range, registers c) ∷ [])
          [] s0_1m (memory (low p)) x info word k (nemu_devices-IsTable p c)
          (unfold end in (omega arith, omega arith)))

-- `new_paddr_top` returns, and in NEMU's space the boot range is a window on the low memory: what
-- a full write of one, two or four bytes leaves at 0x1fc00000 + x is read at x, and the other way
-- round, where the access ends before the last byte of the boot range. The file has fewer than
-- 2 ^ 64 bytes.
pub new_paddr_top_shares :
    (n : Nemu) (allocator : Allocator) (func_bin : Option (List ℕ)) (h : Heap)
    → IsFile func_bin
    → (top : PaddrTop Dev) × (k : Heap) × (new_paddr_top n allocator func_bin h ≡ done (top, k))
      × ((x word w : ℕ) (info : Wen)
          → IsSize info.size
          → (info.size ≢ 4) ⊎ (info.wstrb ≡ 15)
          → x + info.size < 2 ^ 22
          → let back = low_bytes info.size w (word % 256 ^ info.size) in
            ((k' : Heap) × (paddr_do_write n top (0x1fc00000 + x) info word k ≡ done (true, k'))
              × (paddr_do_read n top x info w k' ≡ done (true, back, k')))
            × ((k' : Heap) × (paddr_do_write n top x info word k ≡ done (true, k'))
                × (paddr_do_read n top (0x1fc00000 + x) info w k' ≡ done (true, back, k'))))
new_paddr_top_shares n allocator func_bin h small =
    let (p, c, k, mem, returns, e, len) = new_paddr_top_lem n allocator func_bin h small in
    (
      nemu_devices p c,
      k,
      returns,
      λ x word w info size full fits.
          let (k', wrote, back) =
            shared_access n (boot p) (low p) k mem x info word w refl e size full (omega arith) in
          let (l', wrote', back') =
            shared_access n (low p) (boot p) k mem x info word w refl e size full (omega arith) in
          (
            (
              k',
              (at_boot n p c info x word k fits).1 ∙ wrote,
              (at_low n p c info x w k' (omega arith)).0 ∙ back,
            ),
            (
              l',
              (at_low n p c info x word k (omega arith)).1 ∙ wrote',
              (at_boot n p c info x w l' fits).0 ∙ back',
            ),
          ),
    )
