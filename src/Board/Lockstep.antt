-- ===== src/Board/Lockstep.antt =====
-- Two tables over stores that hold the same behave alike.
use my_diff.Base.{
  ℕ, ◌≡◌, sym, ◌∙◌, Bool, true, false, List, [], ◌∷◌, arith, done, Bool-cases, inl, inr, bind-done,
  subst,
}
use my_diff.Base.Nemu.{Nemu}
use my_diff.Paddr.{Wen, AddrIntv, PaddrTop}
use my_diff.Pmem as Bytes
use my_diff.Confreg.{PaddrConfreg}
use my_diff.Confreg as Confreg
use my_diff.Board.{
  Heap, Dev, memory, registers, block, put_block, confreg, put_confreg, read, write,
}
use my_diff.Board.Session.{
  Access, Answer, get, put, at_device, perform, session, takes, offset_in, perform-nil,
  perform-cons,
}
use my_diff.Board.Blocks.{block-lt, confreg-lt, block-put_self, confreg-put_self}
use my_diff.Board.Frame.{Elsewhere-symm, Same, Away, at_device-Same, perform-Same}

-- A device in one store and a device in another hold the same.
abbrev pub Twin : Dev → Dev → Heap → Heap → Type 0
Twin (memory p) (memory q) h k = (q.mem_size ≡ p.mem_size) × (block k q.mem ≡ block h p.mem)
Twin (registers p) (registers q) h k = confreg k q ≡ confreg h p
Twin (memory p) (registers q) h k = ⊥
Twin (registers p) (memory q) h k = ⊥

read-Twin :
    (d e : Dev) (addr : ℕ) (info : Wen) (word : ℕ) (h k h' : Heap) (ok : Bool) (v : ℕ)
    → Twin d e h k
    → read d addr info word h ≡ done (ok, v, h')
    → (k' : Heap) × (read e addr info word k ≡ done (ok, v, k')) × Twin d e h' k'
unfolding read
read-Twin (memory p) (memory q) addr info word h k h' ok v (size, same) r =
    let (mem, em, r₁) = bind-done (block h p.mem) _ _ r in
    let ((ok', v'), er, r₂) = bind-done (Bytes.do_read mem addr info word) _ _ r₁ in
    (k, ground arith, (size, ground arith))
read-Twin (registers p) (registers q) addr info word h k h' ok v same r =
    let (c, ec, r₁) = bind-done (confreg h p) _ _ r in
    let ((ok', v', c'), er, r₂) = bind-done (Confreg.do_read c addr info word) _ _ r₁ in
    (
      put_confreg k q c',
      ground arith,
      ground (
        arith,
        confreg-put_self k q c' (confreg-lt k q (same ∙ ec)),
        confreg-put_self h p c' (confreg-lt h p ec),
      ),
    )
read-Twin (memory p) (registers q) addr info word h k h' ok v twin r = absurd twin
read-Twin (registers p) (memory q) addr info word h k h' ok v twin r = absurd twin

write-Twin :
    (n : Nemu) (d e : Dev) (addr : ℕ) (info : Wen) (word : ℕ) (h k h' : Heap) (ok : Bool)
    → Twin d e h k
    → write n d addr info word h ≡ done (ok, h')
    → (k' : Heap) × (write n e addr info word k ≡ done (ok, k')) × Twin d e h' k'
unfolding write
write-Twin n (memory p) (memory q) addr info word h k h' ok (size, same) r =
    let (mem, em, r₁) = bind-done (block h p.mem) _ _ r in
    let ((ok', mem'), er, r₂) = bind-done (Bytes.do_write n mem addr info word) _ _ r₁ in
    (
      put_block k q.mem mem',
      ground arith,
      (
        size,
        ground (
          arith,
          block-put_self k q.mem mem' (block-lt k q.mem (same ∙ em)),
          block-put_self h p.mem mem' (block-lt h p.mem em),
        ),
      ),
    )
write-Twin n (registers p) (registers q) addr info word h k h' ok same r =
    let (c, ec, r₁) = bind-done (confreg h p) _ _ r in
    let ((ok', c'), er, r₂) = bind-done (Confreg.do_write c addr info word) _ _ r₁ in
    (
      put_confreg k q c',
      ground arith,
      ground (
        arith,
        confreg-put_self k q c' (confreg-lt k q (same ∙ ec)),
        confreg-put_self h p c' (confreg-lt h p ec),
      ),
    )
write-Twin n (memory p) (registers q) addr info word h k h' ok twin r = absurd twin
write-Twin n (registers p) (memory q) addr info word h k h' ok twin r = absurd twin

at_device-Twin :
    (n : Nemu) (d e : Dev) (offset : ℕ) (a : Access) (h k h' : Heap) (ok : Bool) (v : ℕ)
    → Twin d e h k
    → at_device n d offset a h ≡ done (ok, v, h')
    → (k' : Heap) × (at_device n e offset a k ≡ done (ok, v, k')) × Twin d e h' k'
unfolding at_device
at_device-Twin n d e offset (get addr info word) h k h' ok v twin r =
    read-Twin d e offset info word h k h' ok v twin r
at_device-Twin n d e offset (put addr info word) h k h' ok v twin r =
    let ((ok', h''), ew, r₁) = bind-done (write n d offset info word h) _ _ r in
    let (k', ek, twin') = write-Twin n d e offset info word h k h'' ok' twin ew in
    (k', ground arith, subst (λ t. Twin d e t k') (ground arith) twin')

-- Two tables have the same ranges, and devices that hold the same.
abbrev pub Twins : PaddrTop Dev → PaddrTop Dev → Heap → Heap → Type 0
Twins [] [] h k = Unit {0}
Twins [] (_ ∷ other) h k = ⊥
Twins (_ ∷ top) [] h k = ⊥
Twins ((r, d) ∷ top) ((q, e) ∷ other) h k = (q ≡ r) × Twin d e h k × Twins top other h k

-- No two devices of the table share an array or an object.
abbrev pub Distinct : PaddrTop Dev → Type 0
Distinct [] = Unit {0}
Distinct ((r, d) ∷ top) = Away top d × Distinct top

pub Twin-Same :
    (d e : Dev) (h k h' k' : Heap) → Same d h h' → Same e k k' → Twin d e h k → Twin d e h' k'
Twin-Same (memory p) (memory q) h k h' k' s t (size, same) = (size, t ∙ same ∙ sym s)
Twin-Same (registers p) (registers q) h k h' k' s t same = t ∙ same ∙ sym s
Twin-Same (memory p) (registers q) h k h' k' s t twin = absurd twin
Twin-Same (registers p) (memory q) h k h' k' s t twin = absurd twin

-- All devices of a table hold the same in two stores.
abbrev pub AllSame : PaddrTop Dev → Heap → Heap → Type 0
AllSame [] h h' = Unit {0}
AllSame ((r, d) ∷ top) h h' = Same d h h' × AllSame top h h'

pub Twins-AllSame :
    (top other : PaddrTop Dev) (h k h' k' : Heap)
    → AllSame top h h'
    → AllSame other k k'
    → Twins top other h k
    → Twins top other h' k'
Twins-AllSame [] [] h k h' k' s t twins = tt
Twins-AllSame [] (_ ∷ other) h k h' k' s t twins = absurd twins
Twins-AllSame (_ ∷ top) [] h k h' k' s t twins = absurd twins
Twins-AllSame ((r, d) ∷ top) ((q, e) ∷ other) h k h' k' (s, ss) (t, ts) (same, twin, twins) =
    (same, Twin-Same d e h k h' k' s t twin, Twins-AllSame top other h k h' k' ss ts twins)

at_device-AllSame :
    (n : Nemu) (d : Dev) (top : PaddrTop Dev) (offset : ℕ) (a : Access) (h h' : Heap) (ok : Bool)
    (v : ℕ)
    → Away top d
    → at_device n d offset a h ≡ done (ok, v, h')
    → AllSame top h h'
at_device-AllSame n d [] offset a h h' ok v off r = tt
at_device-AllSame n d ((q, e) ∷ top) offset a h h' ok v (here, off) r = (
  at_device-Same n d e offset a h h' ok v (Elsewhere-symm e d here) r,
  at_device-AllSame n d top offset a h h' ok v off r,
)

-- The access that a table's entry does not take goes to the rest.
module _ (n : Nemu) (r : AddrIntv) (d : Dev) (top : PaddrTop Dev) (a : Access) (h : Heap) where
  perform-taken :
      takes r a ≡ true → perform n ((r, d) ∷ top) a h ≡ at_device n d (offset_in r a) a h
  perform-taken taken = perform-cons n r d top a h ∙ (rw taken)

  perform-passed : takes r a ≡ false → perform n ((r, d) ∷ top) a h ≡ perform n top a h
  perform-passed passed = perform-cons n r d top a h ∙ (rw passed)

-- An access that returns at one table returns the same at the other, and leaves both alike.
pub perform-Twins :
    (n : Nemu) (top other : PaddrTop Dev) (a : Access) (h k h' : Heap) (ok : Bool) (v : ℕ)
    → Distinct top
    → Distinct other
    → Twins top other h k
    → perform n top a h ≡ done (ok, v, h')
    → (k' : Heap) × (perform n other a k ≡ done (ok, v, k')) × Twins top other h' k'
perform-Twins n [] [] a h k h' ok v _ _ twins r =
    (k, perform-nil n a k ∙ ground (arith, perform-nil n a h), tt)
perform-Twins n [] (_ ∷ other) a h k h' ok v _ _ twins r = absurd twins
perform-Twins n (_ ∷ top) [] a h k h' ok v _ _ twins r = absurd twins
perform-Twins n ((r, d) ∷ top) ((q, e) ∷ other) a h k h' ok v (off, ds) (off', ds')
      (same, twin, twins) ran =
    elim (Bool-cases (takes r a)) [
      | inl taken ↦
          let here = sym (perform-taken n r d top a h taken) ∙ ran in
          let (k', ran', twin') = at_device-Twin n d e (offset_in r a) a h k h' ok v twin here in
          (
            k',
            rw same (perform-taken n r e other a k taken ∙ ran'),
            (
              same,
              twin',
              Twins-AllSame top other h k h' k'
                  (at_device-AllSame n d top (offset_in r a) a h h' ok v off here)
                  (at_device-AllSame n e other (offset_in r a) a k k' ok v off' ran') twins,
            ),
          )
      | inr passed ↦
          let there = sym (perform-passed n r d top a h passed) ∙ ran in
          let (k', ran', twins') = perform-Twins n top other a h k h' ok v ds ds' twins there in
          (
            k',
            rw same (perform-passed n r e other a k passed ∙ ran'),
            (
              same,
              Twin-Same d e h k h' k' (perform-Same n top d a h h' ok v off there)
                  (perform-Same n other e a k k' ok v off' ran') twin,
              twins',
            ),
          )
    ]

pub session-Twins :
    (n : Nemu) (top other : PaddrTop Dev) (accesses : List Access) (h k h' : Heap)
    (answers : List Answer)
    → Distinct top
    → Distinct other
    → Twins top other h k
    → session n top accesses h ≡ done (answers, h')
    → (k' : Heap) × (session n other accesses k ≡ done (answers, k')) × Twins top other h' k'
unfolding session
session-Twins n top other [] h k h' answers ds ds' twins r =
    (k, ground arith, subst (λ t. Twins top other t k) (ground arith) twins)
session-Twins n top other (a ∷ accesses) h k h' answers ds ds' twins r =
    let ((ok, v, h₁), first, r₁) = bind-done (perform n top a h) _ _ r in
    let ((rest, h₂), ran, r₂) = bind-done (session n top accesses h₁) _ _ r₁ in
    let (k₁, first', twins₁) = perform-Twins n top other a h k h₁ ok v ds ds' twins first in
    let (k₂, ran', twins₂) = session-Twins n top other accesses h₁ k₁ h₂ rest ds ds' twins₁ ran in
    (k₂, ground arith, subst (λ t. Twins top other t k₂) (ground arith) twins₂)
