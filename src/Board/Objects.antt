-- ===== src/Board/Objects.antt =====
-- The constructors of `Pmem`, `load_binary`, and the end of an object.
use native.Mathlib.Nat.{one-le-pow, pow-le-pow_right}
use my_diff.Base.{
  ℕ, zero, suc, ◌+◌, ◌-◌, ◌%◌, ◌^◌, ◌<◌, ◌≤◌, ◌≡◌, refl, sym, ap, ◌∙◌, List, arith, length, take,
  min, ltb, if◌then◌else◌, Option, none, some, done, fault, ◌>>=◌, u32, inl, inr, ap₂, [], ◌∷◌,
}
use my_diff.Base.Nemu.{Nemu}
use my_diff.Pmem as Bytes
use my_diff.Pmem.Bytes.{byte_at}
use my_diff.Pmem.Loading.{load_binary_start}
use my_diff.Board.{
  Heap, Allocator, Pmem, block, put_block, new_block, of_size, of_range, borrowed, load_binary,
  save_binary, destroy, copied,
}
use my_diff.Board.Blocks.{block-put_self, block-lt, block-freed, block-cases}

-- The memory at the store's next array.
abbrev pub next : Heap → ℕ → Pmem
next h size = record { mem = length h.blocks; mem_size = size }

-- A power of two bytes is allocated as the store's next array.
pub of_size_lem :
    (n : Nemu) (allocator : Allocator) (k : ℕ) (h : Heap)
    → let mem = allocator.fresh (length h.blocks) (2 ^ k) in
      of_size n allocator (2 ^ k) h ≡ done (next h (2 ^ k), (new_block h mem).1)
unfolding of_size new_block Bytes.alloc
of_size_lem n allocator k h =
    rw (allocator.fresh_size (length h.blocks) (2 ^ k), n.is_2_pow-pow k) refl

size_of_mask : (k : ℕ) → k < 32 → u32 (2 ^ k - 1 + 1) ≡ 2 ^ k
size_of_mask k h =
    let below : k ≤ 31 = omega arith in
    let e : 2 ^ k ≤ 2 ^ 31 = pow-le-pow_right (omega arith) below in
    omega (arith, one-le-pow k 2 (omega arith))

pub of_range_lem :
    (n : Nemu) (allocator : Allocator) (start k : ℕ) (h : Heap)
    → k < 32
    → let mem = allocator.fresh (length h.blocks) (2 ^ k) in
      of_range n allocator (record { start = start; mask = 2 ^ k - 1 }) h
      ≡ done (next h (2 ^ k), (new_block h mem).1)
unfolding of_range
of_range_lem n allocator start k h small = rw (size_of_mask k small) (of_size_lem n allocator k h)

pub borrowed_lem :
    (n : Nemu) (start k p : ℕ)
    → k < 32
    → borrowed n (record { start = start; mask = 2 ^ k - 1 }) p
      ≡ done (record { mem = p; mem_size = 2 ^ k })
unfolding borrowed
borrowed_lem n start k p small = rw (size_of_mask k small, n.is_2_pow-pow k) refl

-- The bytes that a memory takes to have are those that its array has.
pub next_size :
    (allocator : Allocator) (size : ℕ) (h : Heap)
    → length (allocator.fresh (length h.blocks) size) ≡ (next h size).mem_size
next_size allocator size h = allocator.fresh_size (length h.blocks) size

-- The file, if there is one, is shorter than 2 ^ 64 bytes.
abbrev pub IsFile : Option (List ℕ) → Type 0
IsFile none = Unit {0}
IsFile (some file) = length file < 2 ^ 64

-- Byte `j` of a memory that held `mem`, after `load_binary` at offset 0.
abbrev pub loaded_byte : Option (List ℕ) → List ℕ → ℕ → ℕ
loaded_byte none mem j = byte_at mem j
loaded_byte (some file) mem j =
    if ltb j (min (length mem) (length file)) then byte_at file j % 256 else byte_at mem j

-- What `load_binary` at offset 0 leaves of a memory whose array is `mem`.
pub record Loaded (p : Pmem) (file : Option (List ℕ)) (h : Heap) (mem : List ℕ) : Type 0 where
  pub out : List ℕ
  pub returns : load_binary p 0 file h ≡ done (put_block h p.mem out)
  pub same_length : length out ≡ length mem
  pub bytes : (j : ℕ) → byte_at out j ≡ loaded_byte file mem j

pub load_binary_lem :
    (p : Pmem) (file : Option (List ℕ)) (h : Heap) (mem : List ℕ)
    → block h p.mem ≡ done mem
    → length mem ≡ p.mem_size
    → IsFile file
    → Loaded p file h mem
unfolding load_binary
load_binary_lem p none h mem e len small = record {
  out = mem;
  returns = rw e (unfold Bytes.load_binary in refl);
  same_length = refl;
  bytes = λ j. refl;
}
load_binary_lem p (some file) h mem e len small =
    let (out, copied, kept, bytes) = load_binary_start mem file small in
    record { out = out; returns = rw (e, ← len, copied) refl; same_length = kept; bytes = bytes }

-- Two objects on one array, as `new_paddr_top` makes them, cannot both be deleted: in whichever
-- store and order, the second `delete []` frees what is not allocated.
pub destroy_twice : (p q : Pmem) (h : Heap) → q.mem ≡ p.mem → (destroy p h >>= destroy q) ≡ fault
unfolding destroy
destroy_twice p q h same = elim (block-cases h p.mem) [
  | inl (mem, e) ↦ rw (e, same, block-freed h p.mem) refl
  | inr e ↦ rw e refl
]

take_all : (xs : List ℕ) → take (length xs) xs ≡ xs
take_all [] = refl
take_all (x ∷ xs) = ap (λ t. x ∷ t) (take_all xs)

pub copied_whole : (mem : List ℕ) → copied mem (length mem) ≡ done mem
unfolding copied
copied_whole mem = ground (arith, take_all mem)

list_ext :
    (xs ys : List ℕ) → length xs ≡ length ys → ((j : ℕ) → byte_at xs j ≡ byte_at ys j) → xs ≡ ys
list_ext [] [] len h = refl
list_ext [] (y ∷ ys) len h = absurd (omega arith)
list_ext (x ∷ xs) [] len h = absurd (omega arith)
list_ext (x ∷ xs) (y ∷ ys) len h =
    ap₂ (λ a b. a ∷ b) (h 0) (list_ext xs ys (omega arith) (λ j. h (suc j)))

-- What `save_binary` writes of one memory, `load_binary` at offset 0 puts into another of the same
-- size, whatever was in it: its array then holds what the first one's does. Both arrays have the
-- bytes that their memories take them to have, fewer than 2 ^ 64, and the first holds bytes.
pub load_binary-save_binary :
    (p q : Pmem) (h : Heap) (mem old : List ℕ)
    → block h p.mem ≡ done mem
    → block h q.mem ≡ done old
    → length mem ≡ p.mem_size
    → length old ≡ q.mem_size
    → q.mem_size ≡ p.mem_size
    → length mem < 2 ^ 64
    → ((j : ℕ) → byte_at mem j < 256)
    → (file : List ℕ) × (h' : Heap) × (save_binary p h ≡ done file)
      × (load_binary q 0 (some file) h ≡ done h')
      × (block h' q.mem ≡ block h p.mem)
unfolding save_binary
load_binary-save_binary p q h mem old e e' len len' same small bytes =
    let l = load_binary_lem q (some mem) h old e' len' small in
    (
      mem,
      put_block h q.mem l.out,
      rw (e, ← len, copied_whole mem) refl,
      l.returns,
      block-put_self h q.mem l.out (block-lt h q.mem e')
          ∙ ap (λ t. done t)
              (list_ext l.out mem (omega (arith, l.same_length))
                (λ j. ground (arith, l.bytes j, bytes j, byte_at_out mem j, byte_at_out old j)))
          ∙ sym e,
    )
  where
    byte_at_out : (xs : List ℕ) (j : ℕ) → length xs ≤ j → byte_at xs j ≡ 0
    byte_at_out [] j h = refl
    byte_at_out (x ∷ xs) zero h = absurd (omega arith)
    byte_at_out (x ∷ xs) (suc j) h = byte_at_out xs j (omega arith)
