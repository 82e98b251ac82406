-- ===== src/Board/Frame.antt =====
-- An access to one device leaves the others as they were, and depends on nothing but its own.
use my_diff.Base.{
  ℕ, ◌≡◌, ◌≢◌, refl, sym, ◌∙◌, Bool, List, [], ◌∷◌, Outcome, done, aborted, fault, Ensures, returns,
  aborts, faults, Ensures-bind, Ensures-done, Ensures-if,
}
use my_diff.Base.Nemu.{Nemu}
use my_diff.Paddr.{Wen, PaddrTop}
use my_diff.Pmem as Bytes
use my_diff.Confreg.{PaddrConfreg}
use my_diff.Confreg as Confreg
use my_diff.Board.{
  Heap, Pmem, Dev, memory, registers, block, put_block, confreg, put_confreg, read, write,
}
use my_diff.Board.Session.{
  Access, get, put, keep_word, at_device, perform, takes, offset_in, perform-nil, perform-cons,
}
use my_diff.Board.Blocks.{block-put_ne, confreg-put_ne, block-put_confreg, confreg-put_block}

-- Two devices share neither an array nor an object.
abbrev pub Elsewhere : Dev → Dev → Type 0
Elsewhere (memory p) (memory q) = p.mem ≢ q.mem
Elsewhere (memory p) (registers q) = Unit {0}
Elsewhere (registers p) (memory q) = Unit {0}
Elsewhere (registers p) (registers q) = p ≢ q

pub Elsewhere-symm : (d e : Dev) → Elsewhere d e → Elsewhere e d
Elsewhere-symm (memory p) (memory q) off = λ e. off (sym e)
Elsewhere-symm (memory p) (registers q) off = tt
Elsewhere-symm (registers p) (memory q) off = tt
Elsewhere-symm (registers p) (registers q) off = λ e. off (sym e)

-- Two stores hold the same of a device.
abbrev pub Same : Dev → Heap → Heap → Type 0
Same (memory p) h h' = block h' p.mem ≡ block h p.mem
Same (registers p) h h' = confreg h' p ≡ confreg h p

pub Same-refl : (d : Dev) (h : Heap) → Same d h h
Same-refl (memory p) h = refl
Same-refl (registers p) h = refl

pub Same-trans : (d : Dev) (h h' h'' : Heap) → Same d h h' → Same d h' h'' → Same d h h''
Same-trans (memory p) h h' h'' e f = f ∙ e
Same-trans (registers p) h h' h'' e f = f ∙ e

Same-put_block :
    (e : Dev) (p : Pmem) (h : Heap) (mem : List ℕ)
    → Elsewhere (memory p) e
    → Same e h (put_block h p.mem mem)
Same-put_block (memory q) p h mem off = block-put_ne h p.mem q.mem mem off
Same-put_block (registers q) p h mem off = confreg-put_block h p.mem q mem

Same-put_confreg :
    (e : Dev) (p : ℕ) (h : Heap) (c : PaddrConfreg)
    → Elsewhere (registers p) e
    → Same e h (put_confreg h p c)
Same-put_confreg (memory q) p h c off = block-put_confreg h p q.mem c
Same-put_confreg (registers q) p h c off = confreg-put_ne h p q c off

-- The store that an access returns holds the same of `e`.
abbrev pub Keeps {ℓ} : {A : Type ℓ} → Dev → Heap → Bool × A × Heap → Type 0
Keeps e h (ok, v, h') = Same e h h'

read-Keeps :
    (d e : Dev) (addr : ℕ) (info : Wen) (word : ℕ) (h : Heap)
    → Elsewhere d e
    → Ensures (Keeps e h) (read d addr info word h)
unfolding read
read-Keeps (memory p) e addr info word h off =
    Ensures-bind (block h p.mem) (λ mem.
      Ensures-bind (Bytes.do_read mem addr info word) (λ (ok, v). returns _ (Same-refl e h)))
read-Keeps (registers p) e addr info word h off = Ensures-bind (confreg h p) (λ c.
    Ensures-bind (Confreg.do_read c addr info word)
      (λ (ok, v, c'). returns _ (Same-put_confreg e p h c' off)))

write-Keeps :
    (n : Nemu) (d e : Dev) (addr : ℕ) (info : Wen) (word : ℕ) (h : Heap)
    → Elsewhere d e
    → Ensures (λ (ok, h'). Same e h h') (write n d addr info word h)
unfolding write
write-Keeps n (memory p) e addr info word h off = Ensures-bind (block h p.mem) (λ mem.
    Ensures-bind (Bytes.do_write n mem addr info word)
      (λ (ok, mem'). returns _ (Same-put_block e p h mem' off)))
write-Keeps n (registers p) e addr info word h off = Ensures-bind (confreg h p) (λ c.
    Ensures-bind (Confreg.do_write c addr info word)
      (λ (ok, c'). returns _ (Same-put_confreg e p h c' off)))

Ensures-map :
    (e : Dev) (h : Heap) (word : ℕ) (m : Outcome (Bool × Heap))
    → Ensures (λ (ok, h'). Same e h h') m
    → Ensures (Keeps e h) (keep_word word m)
unfolding keep_word
Ensures-map e h word (done (ok, h')) s = returns _ (Ensures-done s refl)
Ensures-map e h word aborted s = aborts
Ensures-map e h word fault s = faults

at_device-Keeps :
    (n : Nemu) (d e : Dev) (offset : ℕ) (a : Access) (h : Heap)
    → Elsewhere d e
    → Ensures (Keeps e h) (at_device n d offset a h)
unfolding at_device
at_device-Keeps n d e offset (get addr info word) h off = read-Keeps d e offset info word h off
at_device-Keeps n d e offset (put addr info word) h off =
    Ensures-map e h word (write n d offset info word h) (write-Keeps n d e offset info word h off)

-- None of the table's devices is `e`, or shares an array with it.
abbrev pub Away : PaddrTop Dev → Dev → Type 0
Away [] e = Unit {0}
Away ((r, d) ∷ top) e = Elsewhere d e × Away top e

perform-Keeps :
    (n : Nemu) (top : PaddrTop Dev) (e : Dev) (a : Access) (h : Heap)
    → Away top e
    → Ensures (Keeps e h) (perform n top a h)
perform-Keeps n [] e a h off = rw (perform-nil n a h) (returns _ (Same-refl e h))
perform-Keeps n ((r, d) ∷ top) e a h (here, off) = rw (perform-cons n r d top a h) (
    Ensures-if (takes r a) (at_device-Keeps n d e (offset_in r a) a h here)
      (perform-Keeps n top e a h off))

-- An access leaves the devices that it does not share as they were.
pub at_device-Same :
    (n : Nemu) (d e : Dev) (offset : ℕ) (a : Access) (h h' : Heap) (ok : Bool) (v : ℕ)
    → Elsewhere d e
    → at_device n d offset a h ≡ done (ok, v, h')
    → Same e h h'
at_device-Same n d e offset a h h' ok v off r =
    Ensures-done (at_device-Keeps n d e offset a h off) r

pub perform-Same :
    (n : Nemu) (top : PaddrTop Dev) (e : Dev) (a : Access) (h h' : Heap) (ok : Bool) (v : ℕ)
    → Away top e
    → perform n top a h ≡ done (ok, v, h')
    → Same e h h'
perform-Same n top e a h h' ok v off r = Ensures-done (perform-Keeps n top e a h off) r
