-- ===== src/Board/Session.antt =====
-- What a bus master does with a `PaddrTop` of the board's devices: accesses, one after the other.
use my_diff.Base.{
  ℕ, ◌≡◌, refl, Bool, false, List, [], ◌∷◌, arith, Outcome, done, ◌>>=◌, if◌then◌else◌, bit_and,
}
use my_diff.Base.Nemu.{Nemu}
use my_diff.Paddr.{Wen, AddrIntv, PaddrTop, covers}
use my_diff.Paddr as Paddr
use my_diff.Board.{Heap, Dev, read, write, board}

pub data Access : Type 0 where
  get : ℕ → Wen → ℕ → Access
  put : ℕ → Wen → ℕ → Access

-- An access's answer is the Boolean and the word that it leaves.
abbrev pub Answer : Type 0
Answer = Bool × ℕ

-- `*data` after a write is as before.
unfoldable pub keep_word : ℕ → Outcome (Bool × Heap) → Outcome (Bool × ℕ × Heap)
keep_word word result = do (ok, h') ← result; done (ok, word, h')

-- The access at a device, at an offset.
unfoldable pub at_device : Nemu → Dev → ℕ → Access → Heap → Outcome (Bool × ℕ × Heap)
unfolding keep_word
at_device n d offset (get addr info word) h = read d offset info word h
at_device n d offset (put addr info word) h = keep_word word (write n d offset info word h)

unfoldable pub perform : Nemu → PaddrTop Dev → Access → Heap → Outcome (Bool × ℕ × Heap)
unfolding keep_word
perform n top (get addr info word) h = Paddr.do_read (board n) top addr info word h
perform n top (put addr info word) h =
    keep_word word (Paddr.do_write (board n) top addr info word h)

-- One access after the other, up to the first that does not return.
unfoldable pub session : Nemu → PaddrTop Dev → List Access → Heap → Outcome (List Answer × Heap)
session n top [] h = done ([], h)
session n top (a ∷ accesses) h = do
  (ok, v, h') ← perform n top a h
  (answers, h'') ← session n top accesses h'
  done ((ok, v) ∷ answers, h'')

-- A step of one of two masters: the CPU under test and the reference.
pub data Turn : Type 0 where
  dut : Access → Turn
  ref : Access → Turn

-- The steps of each.
unfoldable pub of_dut : List Turn → List Access
of_dut [] = []
of_dut (dut a ∷ turns) = a ∷ of_dut turns
of_dut (ref a ∷ turns) = of_dut turns

unfoldable pub of_ref : List Turn → List Access
of_ref [] = []
of_ref (dut a ∷ turns) = of_ref turns
of_ref (ref a ∷ turns) = a ∷ of_ref turns

-- Both at work on one store, each with its own table; the answers to each.
unfoldable pub interleave :
    Nemu
    → PaddrTop Dev
    → PaddrTop Dev
    → List Turn
    → Heap
    → Outcome (List Answer × List Answer × Heap)
interleave n top other [] h = done ([], [], h)
interleave n top other (dut a ∷ turns) h = do
  (ok, v, h') ← perform n top a h
  (mine, theirs, h'') ← interleave n top other turns h'
  done ((ok, v) ∷ mine, theirs, h'')
interleave n top other (ref a ∷ turns) h = do
  (ok, v, h') ← perform n other a h
  (mine, theirs, h'') ← interleave n top other turns h'
  done (mine, (ok, v) ∷ theirs, h'')

-- Whether an entry of the table takes the access.
abbrev pub takes : AddrIntv → Access → Bool
takes r (get addr info word) = covers r addr info
takes r (put addr info word) = covers r addr info

abbrev pub offset_in : AddrIntv → Access → ℕ
offset_in r (get addr info word) = bit_and addr r.mask
offset_in r (put addr info word) = bit_and addr r.mask

abbrev pub word_of : Access → ℕ
word_of (get addr info word) = word
word_of (put addr info word) = word

pub perform-nil : (n : Nemu) (a : Access) (h : Heap) → perform n [] a h ≡ done (false, word_of a, h)
unfolding perform Paddr.do_read Paddr.do_write
perform-nil n (get addr info word) h = refl
perform-nil n (put addr info word) h = refl

-- The first entry that takes the access has it.
pub perform-cons :
    (n : Nemu) (r : AddrIntv) (d : Dev) (top : PaddrTop Dev) (a : Access) (h : Heap)
    → perform n ((r, d) ∷ top) a h
      ≡ (if takes r a then at_device n d (offset_in r a) a h else perform n top a h)
unfolding perform at_device board Paddr.do_read Paddr.do_write
perform-cons n r d top (get addr info word) h = refl
perform-cons n r d top (put addr info word) h = ground arith
