-- ===== src/Board/Copy.antt =====
-- `PaddrTop::deep_copy` over the board's devices: the copy holds the same and shares nothing.
use my_diff.Base.{ℕ, ◌<◌, ◌≤◌, ◌≡◌, refl, sym, ◌∙◌, List, [], ◌∷◌, arith, done, length}
use my_diff.Base.Nemu.{Nemu}
use my_diff.Paddr.{PaddrTop, deep_copy}
use my_diff.Confreg.{PaddrConfreg}
use my_diff.Board.{
  Heap, Dev, memory, registers, block, new_block, confreg, new_confreg, copy, clone, board,
  get_mem_ptr,
}
use my_diff.Board.Blocks.{
  block-lt, confreg-lt, block-new_self, block-new_old, confreg-new_self, confreg-new_old,
  length-blocks_new, length-confregs_new,
}
use my_diff.Board.Objects.{copied_whole}
use my_diff.Board.Frame.{Elsewhere, Same, Same-refl, Away}
use my_diff.Board.Lockstep.{Twin, Twins, Twin-Same, AllSame, Twins-AllSame, Distinct}

-- The device is there, and a memory's array has the bytes that the memory takes it to have.
abbrev pub IsWhole : Heap → Dev → Type 0
IsWhole h (memory p) = (mem : List ℕ) × (block h p.mem ≡ done mem) × (length mem ≡ p.mem_size)
IsWhole h (registers p) = (c : PaddrConfreg) × (confreg h p ≡ done c)

abbrev pub AllWhole : Heap → PaddrTop Dev → Type 0
AllWhole h [] = Unit {0}
AllWhole h ((r, d) ∷ top) = IsWhole h d × AllWhole h top

-- The store has grown: everything old is where it was.
pub record Grown (h k : Heap) : Type 0 where
  pub more_blocks : length h.blocks ≤ length k.blocks
  pub more_confregs : length h.confregs ≤ length k.confregs
  pub old_block : (p : ℕ) → p < length h.blocks → block k p ≡ block h p
  pub old_confreg : (p : ℕ) → p < length h.confregs → confreg k p ≡ confreg h p

pub Grown-trans : {h k l : Heap} → Grown h k → Grown k l → Grown h l
Grown-trans g g' = record {
  more_blocks = omega (arith, g.more_blocks, g'.more_blocks);
  more_confregs = omega (arith, g.more_confregs, g'.more_confregs);
  old_block = λ p lt. g'.old_block p (omega (arith, g.more_blocks)) ∙ g.old_block p lt;
  old_confreg = λ p lt. g'.old_confreg p (omega (arith, g.more_confregs)) ∙ g.old_confreg p lt;
}

new_block-Grown : (h : Heap) (mem : List ℕ) → Grown h (new_block h mem).1
unfolding new_block
new_block-Grown h mem = record {
  more_blocks = omega (arith, length-blocks_new h mem);
  more_confregs = omega arith;
  old_block = λ p lt. block-new_old h mem p lt;
  old_confreg = λ p lt. unfold confreg in refl;
}

new_confreg-Grown : (h : Heap) (c : PaddrConfreg) → Grown h (new_confreg h c).1
unfolding new_confreg
new_confreg-Grown h c = record {
  more_blocks = omega arith;
  more_confregs = omega (arith, length-confregs_new h c);
  old_block = λ p lt. unfold block in refl;
  old_confreg = λ p lt. confreg-new_old h c p lt;
}

Grown-refl : (h : Heap) → Grown h h
Grown-refl h = record {
  more_blocks = omega arith;
  more_confregs = omega arith;
  old_block = λ p lt. refl;
  old_confreg = λ p lt. refl;
}

-- The device's array or object was there, or has come since.
abbrev pub IsOld : Heap → Dev → Type 0
IsOld h (memory p) = p.mem < length h.blocks
IsOld h (registers p) = p < length h.confregs

abbrev pub IsNew : Heap → Dev → Type 0
IsNew h (memory p) = length h.blocks ≤ p.mem
IsNew h (registers p) = length h.confregs ≤ p

pub IsWhole-IsOld : (h : Heap) (d : Dev) → IsWhole h d → IsOld h d
IsWhole-IsOld h (memory p) (mem, e, _) = block-lt h p.mem e
IsWhole-IsOld h (registers p) (c, e) = confreg-lt h p e

pub IsOld-Same : (h k : Heap) (d : Dev) → Grown h k → IsOld h d → Same d h k
IsOld-Same h k (memory p) g old = g.old_block p.mem old
IsOld-Same h k (registers p) g old = g.old_confreg p old

IsNew-Grown : (h k : Heap) (d : Dev) → Grown h k → IsNew k d → IsNew h d
IsNew-Grown h k (memory p) g new = omega (arith, g.more_blocks)
IsNew-Grown h k (registers p) g new = omega (arith, g.more_confregs)

pub IsNew-Elsewhere : (h : Heap) (d e : Dev) → IsNew h d → IsOld h e → Elsewhere d e
IsNew-Elsewhere h (memory p) (memory q) new old = λ e. absurd (omega arith)
IsNew-Elsewhere h (memory p) (registers q) new old = tt
IsNew-Elsewhere h (registers p) (memory q) new old = tt
IsNew-Elsewhere h (registers p) (registers q) new old = λ e. absurd (omega arith)

IsWhole-Same : (h k : Heap) (d : Dev) → Same d h k → IsWhole h d → IsWhole k d
IsWhole-Same h k (memory p) same (mem, e, len) = (mem, same ∙ e, len)
IsWhole-Same h k (registers p) same (c, e) = (c, same ∙ e)

-- A copied device: the copy is new and in place, it holds the same, and nothing else has changed.
record Cloned (d : Dev) (h : Heap) : Type 0 where
  dev : Dev
  heap : Heap
  returns : clone d h ≡ done (dev, heap)
  twin : Twin d dev h heap
  grown : Grown h heap
  new : IsNew h dev
  in_place : IsOld heap dev

clone_lem : (d : Dev) (h : Heap) → IsWhole h d → Cloned d h
unfolding clone copy get_mem_ptr
clone_lem (memory p) h (mem, e, len) = record {
  dev = memory (record { mem = length h.blocks; mem_size = p.mem_size });
  heap = (new_block h mem).1;
  returns = rw (e, ← len, copied_whole mem) (unfold new_block in refl);
  twin = (refl, block-new_self h mem ∙ sym e);
  grown = new_block-Grown h mem;
  new = omega arith;
  in_place = omega (arith, length-blocks_new h mem);
}
clone_lem (registers p) h (c, e) = record {
  dev = registers (length h.confregs);
  heap = (new_confreg h c).1;
  returns = rw e (unfold new_confreg in refl);
  twin = confreg-new_self h c ∙ sym e;
  grown = new_confreg-Grown h c;
  new = omega arith;
  in_place = omega (arith, length-confregs_new h c);
}

abbrev pub AllNew : Heap → PaddrTop Dev → Type 0
AllNew h [] = Unit {0}
AllNew h ((r, d) ∷ top) = IsNew h d × AllNew h top

AllNew-Grown : (h k : Heap) (top : PaddrTop Dev) → Grown h k → AllNew k top → AllNew h top
AllNew-Grown h k [] g news = tt
AllNew-Grown h k ((r, d) ∷ top) g (new, news) =
    (IsNew-Grown h k d g new, AllNew-Grown h k top g news)

pub AllNew-Away : (h : Heap) (top : PaddrTop Dev) (d : Dev) → AllNew h top → IsOld h d → Away top d
AllNew-Away h [] d news old = tt
AllNew-Away h ((r, e) ∷ top) d (new, news) old =
    (IsNew-Elsewhere h e d new old, AllNew-Away h top d news old)

pub AllWhole-AllSame :
    (h k : Heap) (top : PaddrTop Dev) → Grown h k → AllWhole h top → AllSame top h k
AllWhole-AllSame h k [] g whole = tt
AllWhole-AllSame h k ((r, d) ∷ top) g (w, whole) =
    (IsOld-Same h k d g (IsWhole-IsOld h d w), AllWhole-AllSame h k top g whole)

AllSame-symm : (top : PaddrTop Dev) (h k : Heap) → AllSame top h k → AllSame top k h
AllSame-symm [] h k s = tt
AllSame-symm ((r, memory p) ∷ top) h k (s, ss) = (sym s, AllSame-symm top h k ss)
AllSame-symm ((r, registers p) ∷ top) h k (s, ss) = (sym s, AllSame-symm top h k ss)

pub AllSame-refl : (top : PaddrTop Dev) (h : Heap) → AllSame top h h
AllSame-refl [] h = tt
AllSame-refl ((r, d) ∷ top) h = (Same-refl d h, AllSame-refl top h)

pub AllWhole-Grown : (h k : Heap) (top : PaddrTop Dev) → Grown h k → AllWhole h top → AllWhole k top
AllWhole-Grown h k [] g whole = tt
AllWhole-Grown h k ((r, d) ∷ top) g (w, whole) = (
  IsWhole-Same h k d (IsOld-Same h k d g (IsWhole-IsOld h d w)) w,
  AllWhole-Grown h k top g whole,
)

-- A copied table: in the grown store its devices hold what the originals hold, all are new, and no
-- two of them share anything.
pub record Copied (n : Nemu) (top : PaddrTop Dev) (h : Heap) : Type 0 where
  pub table : PaddrTop Dev
  pub heap : Heap
  pub returns : deep_copy (board n) top h ≡ done (table, heap)
  pub twins : Twins top table h heap
  pub grown : Grown h heap
  pub new : AllNew h table
  pub distinct : Distinct table

pub deep_copy_lem : (n : Nemu) (top : PaddrTop Dev) (h : Heap) → AllWhole h top → Copied n top h
unfolding deep_copy board
deep_copy_lem n [] h whole = record {
  table = [];
  heap = h;
  returns = refl;
  twins = tt;
  grown = Grown-refl h;
  new = tt;
  distinct = tt;
}
deep_copy_lem n ((r, d) ∷ top) h (w, whole) =
    let first = clone_lem d h w in
    let k = first.heap in
    let rest = deep_copy_lem n top k (AllWhole-Grown h k top first.grown whole) in
    let kept = AllWhole-AllSame h k top first.grown whole in
    record {
      table = (r, first.dev) ∷ rest.table;
      heap = rest.heap;
      returns = rw (first.returns, rest.returns) refl;
      twins = (
        refl,
        Twin-Same d first.dev h k h rest.heap (Same-refl d h)
            (IsOld-Same k rest.heap first.dev rest.grown first.in_place) first.twin,
        Twins-AllSame top rest.table k rest.heap h rest.heap (AllSame-symm top h k kept)
            (AllSame-refl rest.table rest.heap) rest.twins,
      );
      grown = Grown-trans first.grown rest.grown;
      new = (first.new, AllNew-Grown h k rest.table first.grown rest.new);
      distinct = (AllNew-Away k rest.table first.dev rest.new first.in_place, rest.distinct);
    }
