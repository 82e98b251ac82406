-- ===== src/Spaces/Boot.antt =====
-- What the two address spaces of `main` answer.
use my_diff.Base.{
  ℕ, zero, suc, ◌+◌, ◌-◌, ◌*◌, ◌%◌, ◌^◌, ◌<◌, ◌≤◌, ◌≡◌, refl, ap, ◌∙◌, List, [], ◌∷◌, arith, length,
  true, Option, some, done, subst,
}
use my_diff.Base.Nemu.{Nemu}
use my_diff.Paddr.{AddrIntv, Wen, PaddrTop, end}
use my_diff.Paddr as Paddr
use my_diff.Paddr.Routing.{Inside, access_routes}
use my_diff.Pmem.{low_bytes}
use my_diff.Pmem.Bytes.{byte_at, value}
use my_diff.Pmem.Lanes.{IsSize}
use my_diff.Pmem.Access.{do_read_lem}
use my_diff.Board.{Heap, Allocator, Pmem, memory, registers, block, read, board}
use my_diff.Board.Objects.{IsFile, loaded_byte}
use my_diff.Board.Session.{Answer, get, perform, session, Turn, of_dut, of_ref, interleave}
use my_diff.Board.Lockstep.{perform-Twins}
use my_diff.Board.Copy.{AllSame-refl}
use my_diff.Board.Interleave.{interleave_lem, Twins-refl}
use my_diff.Spaces.{Spaces, set_up, paddr_do_read}
use my_diff.Spaces.SetUp.{IsSetUp, set_up-IsSetUp, inst_range, confreg_range, devices-IsTable}

-- The number that `n` bytes of the file from `j` on stand for.
abbrev pub file_value : List ℕ → ℕ → ℕ → ℕ
file_value file j zero = 0
file_value file j (suc n) = byte_at file j % 256 + 256 * file_value file (j + 1) n

value-eq-file_value :
    (n j : ℕ) (file mem garbage : List ℕ)
    → ((i : ℕ) → byte_at mem i ≡ loaded_byte (some file) garbage i)
    → j + n ≤ length file
    → j + n ≤ length garbage
    → value mem j n ≡ file_value file j n
value-eq-file_value zero j file mem garbage bytes h g = refl
value-eq-file_value (suc n) j file mem garbage bytes h g =
    let first : byte_at mem j ≡ byte_at file j % 256 = bytes j ∙ ground arith in
    let rest = value-eq-file_value n (j + 1) file mem garbage bytes (omega arith) (omega arith) in
    omega (arith, first, rest)

-- A read of a memory at a place that it has.
pub read_memory :
    (p : Pmem) (h : Heap) (mem : List ℕ) (addr : ℕ) (info : Wen) (word : ℕ)
    → block h p.mem ≡ done mem
    → IsSize info.size
    → addr + info.size ≤ length mem
    → read (memory p) addr info word h
      ≡ done (true, low_bytes info.size word (value mem addr info.size), h)
unfolding read
read_memory p h mem addr info word e size fits =
    rw (e, do_read_lem mem addr info word size fits) refl

pub boot_read :
    (n : Nemu) (file : List ℕ) (s : Spaces) (j : ℕ) (info : Wen) (word : ℕ)
    → IsSetUp (some file) s
    → IsSize info.size
    → j + info.size ≤ length file
    → j + info.size < 2 ^ 22
    → perform n s.paddr_top (get (0x1fc00000 + j) info word) s.heap
      ≡ done (true, low_bytes info.size word (file_value file j info.size), s.heap)
unfolding perform board
boot_read n file s j info word u size within below =
    let inside : Inside inst_range (0x1fc00000 + j) info =
      unfold end in (omega arith, omega arith) in
    let at_j : 0x1fc00000 + j - 0x1fc00000 ≡ j = omega arith in
    let held =
      value-eq-file_value info.size j file u.held u.garbage u.bytes within
        (omega (arith, u.garbage_size)) in
    ap (λ t. Paddr.do_read (board n) t (0x1fc00000 + j) info word s.heap) u.shape
    ∙ (access_routes (board n) [] ((confreg_range, registers s.v_confreg) ∷ []) inst_range
        (memory u.inst_mem) (0x1fc00000 + j) info word s.heap
        (devices-IsTable (memory u.inst_mem) (registers s.v_confreg)) inside).0
    ∙ ap (λ a. read (memory u.inst_mem) a info word s.heap) at_j
    ∙ read_memory u.inst_mem s.heap u.held j info word u.in_array size (omega (arith, u.size))
    ∙ ap (λ v. done (true, low_bytes info.size word v, s.heap)) held

-- `main`'s set-up returns, and both spaces then serve the file from the boot address 0x1fc00000 on:
-- a read of one, two or four bytes of the file there, short of the last byte of the range, gives
-- those bytes, to the CPU and to NEMU alike.
pub set_up_boot :
    (n : Nemu) (allocator : Allocator) (file : List ℕ) (h : Heap)
    → length file < 2 ^ 64
    → (s : Spaces) × (set_up n allocator (some file) h ≡ done s)
      × ((j word : ℕ) (info : Wen)
          → IsSize info.size
          → j + info.size ≤ length file
          → j + info.size < 2 ^ 22
          → let served = low_bytes info.size word (file_value file j info.size) in
            (k : Heap) × (Paddr.do_read (board n) s.paddr_top (0x1fc00000 + j) info word s.heap
              ≡ done (true, served, s.heap))
            × (paddr_do_read n s.nemu_paddr_top (0x1fc00000 + j) info word s.heap
                ≡ done (true, served, k)))
unfolding perform paddr_do_read
set_up_boot n allocator file h small =
    let (s, returns, u) = set_up-IsSetUp n allocator (some file) h small in
    (
      s,
      returns,
      λ j word info size within below.
          let mine = boot_read n file s j info word u size within below in
          let (k, theirs, _) =
            perform-Twins n s.paddr_top s.nemu_paddr_top (get (0x1fc00000 + j) info word) s.heap
              s.heap s.heap true (low_bytes info.size word (file_value file j info.size)) u.distinct
              u.nemu_distinct u.twins mine in
          (k, mine, theirs),
    )

-- After `main`'s set-up NEMU has an address space of its own. Take accesses of the CPU and of NEMU
-- in any order: if the CPU's alone return on the CPU's space, and NEMU's alone would return on it
-- too, then with the CPU on its space and NEMU on the copy they return in that order, and each
-- gets the answers that it got alone.
pub set_up-interleave :
    (n : Nemu) (allocator : Allocator) (func_bin : Option (List ℕ)) (h h' h'' : Heap) (s : Spaces)
    (turns : List Turn) (mine theirs : List Answer)
    → IsFile func_bin
    → set_up n allocator func_bin h ≡ done s
    → session n s.paddr_top (of_dut turns) s.heap ≡ done (mine, h')
    → session n s.paddr_top (of_ref turns) s.heap ≡ done (theirs, h'')
    → (k : Heap) × (interleave n s.paddr_top s.nemu_paddr_top turns s.heap ≡ done (mine, theirs, k))
set_up-interleave n allocator func_bin h h' h'' s turns mine theirs small ran r t =
    let (s', ran', u') = set_up-IsSetUp n allocator func_bin h small in
    let u = subst (IsSetUp func_bin) {x = s'} {y = s} (cc) u' in
    interleave_lem n s.paddr_top s.paddr_top s.paddr_top s.nemu_paddr_top turns s.heap s.heap s.heap
      h' h'' mine theirs u.distinct u.distinct u.distinct u.nemu_distinct u.separate
      (Twins-refl s.heap s.heap s.paddr_top (AllSame-refl s.paddr_top s.heap)) u.twins r t
