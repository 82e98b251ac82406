-- ===== src/Spaces/SetUp.antt =====
-- The set-up in `main`: it returns, and gives NEMU a space of its own with what the CPU's space holds.
use my_diff.Base.{ℕ, ◌^◌, ◌≡◌, refl, ◌∙◌, List, [], ◌∷◌, arith, length, false, Option, done}
use my_diff.Base.Nemu.{Nemu}
use my_diff.Paddr.{AddrIntv, PaddrTop, of_bits, end, add_dev}
use my_diff.Paddr.Range.{IsRange, of_bits_lem}
use my_diff.Paddr.Overlap.{IsTable, Meets}
use my_diff.Confreg.{PaddrConfreg}
use my_diff.Confreg as Confreg
use my_diff.Board.{
  Heap, Allocator, Pmem, Dev, memory, registers, block, new_block, put_block, new_confreg,
  put_confreg,
}
use my_diff.Board.Blocks.{
  block-new_self, block-put_self, block-put_confreg, length-blocks_new, confreg-new_self,
  confreg-put_self, confreg-lt, block-new_confreg,
}
use my_diff.Board.Objects.{next, of_range_lem, next_size, IsFile, loaded_byte, load_binary_lem}
use my_diff.Board.Lockstep.{Twins, Twins-AllSame, Distinct}
use my_diff.Board.Copy.{AllWhole, AllWhole-AllSame, AllWhole-Grown, AllSame-refl, deep_copy_lem}
use my_diff.Board.Interleave.{Separate, AllNew-Separate}
use my_diff.Pmem.Bytes.{byte_at}
use my_diff.Spaces.{Spaces, set_switch, set_up}

abbrev pub inst_range : AddrIntv
inst_range = record { start = 0x1fc00000; mask = 0x3fffff }

abbrev pub confreg_range : AddrIntv
confreg_range = record { start = 0x1faf0000; mask = 0xffff }

pub inst_range-IsRange : IsRange inst_range
inst_range-IsRange = record { width = 22; mask_ones = refl; aligned = refl; fits = omega arith }

pub confreg_range-IsRange : IsRange confreg_range
confreg_range-IsRange = record { width = 16; mask_ones = refl; aligned = refl; fits = omega arith }

pub inst_confreg-Apart : ¬ Meets inst_range confreg_range
unfolding end
inst_confreg-Apart (a, p, q, t, u) = absurd (omega arith)

pub devices-IsTable :
    (v_inst_mem v_confreg : Dev)
    → IsTable ((inst_range, v_inst_mem) ∷ (confreg_range, v_confreg) ∷ [])
devices-IsTable v_inst_mem v_confreg = (
  inst_range-IsRange,
  omega arith,
  (inst_confreg-Apart, tt),
  (confreg_range-IsRange, omega arith, tt, tt),
)

pub inst_bits : (n : Nemu) → of_bits n 0x1fc00000 22 ≡ done inst_range
inst_bits n = of_bits_lem n 0x1fc00000 22 (omega arith)

pub confreg_bits : (n : Nemu) → of_bits n 0x1faf0000 16 ≡ done confreg_range
confreg_bits n = of_bits_lem n 0x1faf0000 16 (omega arith)

-- The two spaces as they are set up.
pub record IsSetUp (func_bin : Option (List ℕ)) (s : Spaces) : Type 0 where
  pub inst_mem : Pmem
  pub garbage : List ℕ
  pub held : List ℕ
  pub shape :
      s.paddr_top ≡ (inst_range, memory inst_mem) ∷ (confreg_range, registers s.v_confreg) ∷ []
  pub whole : AllWhole s.heap s.paddr_top
  pub in_array : block s.heap inst_mem.mem ≡ done held
  pub size : length held ≡ 2 ^ 22
  pub garbage_size : length garbage ≡ 2 ^ 22
  pub bytes : (j : ℕ) → byte_at held j ≡ loaded_byte func_bin garbage j
  pub distinct : Distinct s.paddr_top
  pub nemu_distinct : Distinct s.nemu_paddr_top
  pub separate : Separate s.paddr_top s.nemu_paddr_top
  pub twins : Twins s.paddr_top s.nemu_paddr_top s.heap s.heap

pub set_up-IsSetUp :
    (n : Nemu) (allocator : Allocator) (func_bin : Option (List ℕ)) (h : Heap)
    → IsFile func_bin
    → (s : Spaces) × (set_up n allocator func_bin h ≡ done s) × IsSetUp func_bin s
unfolding set_up set_switch new_confreg add_dev
set_up-IsSetUp n allocator func_bin h small =
    let p = next h (2 ^ 22) in
    let garbage = allocator.fresh (length h.blocks) (2 ^ 22) in
    let h₁ = (new_block h garbage).1 in
    let l =
      load_binary_lem p func_bin h₁ garbage (block-new_self h garbage)
        (next_size allocator (2 ^ 22) h) small in
    let h₂ = put_block h₁ p.mem l.out in
    let c = length h₂.confregs in
    let h₃ = (new_confreg h₂ (Confreg.init false)).1 in
    let switched = Confreg.set_switch (Confreg.init false) 0 in
    let h₄ = put_confreg h₃ c switched in
    let top : PaddrTop Dev = (inst_range, memory p) ∷ (confreg_range, registers c) ∷ [] in
    let found = confreg-new_self h₂ (Confreg.init false) in
    let in_array : block h₄ p.mem ≡ done l.out =
      block-put_confreg h₃ c p.mem switched
      ∙ block-new_confreg h₂ p.mem (Confreg.init false)
      ∙ block-put_self h₁ p.mem l.out (omega (arith, length-blocks_new h garbage)) in
    let whole : AllWhole h₄ top = (
      (l.out, in_array, l.same_length ∙ next_size allocator (2 ^ 22) h),
      ((switched, confreg-put_self h₃ c switched (confreg-lt h₃ c found)), tt),
    ) in
    let copy = deep_copy_lem n top h₄ whole in
    let kept = AllWhole-AllSame h₄ copy.heap top copy.grown whole in
    (
      record { paddr_top = top; nemu_paddr_top = copy.table; v_confreg = c; heap = copy.heap },
      rw
          (
            inst_bits n,
            confreg_bits n,
            of_range_lem n allocator 0x1fc00000 22 h (omega arith),
            l.returns,
            found,
            copy.returns,
          )
          refl,
      record {
        inst_mem = p;
        garbage = garbage;
        held = l.out;
        shape = refl;
        whole = AllWhole-Grown h₄ copy.heap top copy.grown whole;
        in_array = kept.0 ∙ in_array;
        size = l.same_length ∙ next_size allocator (2 ^ 22) h;
        garbage_size = next_size allocator (2 ^ 22) h;
        bytes = l.bytes;
        distinct = ((tt, tt), (tt, tt));
        nemu_distinct = copy.distinct;
        separate = AllNew-Separate h₄ top copy.table whole copy.new;
        twins =
            Twins-AllSame top copy.table h₄ copy.heap copy.heap copy.heap kept
              (AllSame-refl copy.table copy.heap) copy.twins;
      },
    )
