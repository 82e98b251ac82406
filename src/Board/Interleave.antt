-- ===== src/Board/Interleave.antt =====
-- Two masters on one store: what the CPU's address space and the reference's copy of it answer.
use my_diff.Base.{◌≡◌, refl, List, [], ◌∷◌, arith, done, bind-done}
use my_diff.Base.Nemu.{Nemu}
use my_diff.Paddr.{AddrIntv, PaddrTop, deep_copy}
use my_diff.Board.{Heap, Dev, board}
use my_diff.Board.Session.{
  Access, Answer, perform, session, Turn, dut, ref, of_dut, of_ref, interleave,
}
use my_diff.Board.Frame.{Elsewhere-symm, Away, perform-Same}
use my_diff.Board.Lockstep.{Twins, AllSame, Twins-AllSame, Distinct, perform-Twins}
use my_diff.Board.Copy.{
  AllWhole, AllNew, AllNew-Away, AllSame-refl, deep_copy_lem, IsWhole-IsOld, AllWhole-AllSame,
}

-- No device of one table shares an array or an object with a device of the other.
abbrev pub Separate : PaddrTop Dev → PaddrTop Dev → Type 0
Separate top [] = Unit {0}
Separate top ((r, d) ∷ other) = Away top d × Separate top other

Separate-nil : (other : PaddrTop Dev) → Separate [] other
Separate-nil [] = tt
Separate-nil (_ ∷ other) = (tt, Separate-nil other)

Separate-cons :
    (r : AddrIntv) (d : Dev) (top other : PaddrTop Dev)
    → Away other d
    → Separate top other
    → Separate ((r, d) ∷ top) other
Separate-cons r d top [] off sep = tt
Separate-cons r d top ((q, e) ∷ other) (here, off) (away, sep) =
    ((Elsewhere-symm e d here, away), Separate-cons r d top other off sep)

pub Separate-symm : (top other : PaddrTop Dev) → Separate top other → Separate other top
Separate-symm top [] sep = Separate-nil top
Separate-symm top ((q, e) ∷ other) (away, sep) =
    Separate-cons q e other top away (Separate-symm top other sep)

-- The devices of the other table keep what they hold.
pub perform-AllSame :
    (n : Nemu) (top other : PaddrTop Dev) (a : Access) (h h' : Heap) (answer : Answer)
    → Separate top other
    → perform n top a h ≡ done (answer.0, answer.1, h')
    → AllSame other h h'
perform-AllSame n top [] a h h' answer sep ran = tt
perform-AllSame n top ((q, e) ∷ other) a h h' answer (away, sep) ran = (
  perform-Same n top e a h h' answer.0 answer.1 away ran,
  perform-AllSame n top other a h h' answer sep ran,
)

-- Each master's answers in the shared store `k` are those it gets alone in a store of its own.
pub interleave_lem :
    (n : Nemu) (top top' other other' : PaddrTop Dev) (turns : List Turn) (h k l h' l' : Heap)
    (mine theirs : List Answer)
    → Distinct top
    → Distinct top'
    → Distinct other
    → Distinct other'
    → Separate top' other'
    → Twins top top' h k
    → Twins other other' l k
    → session n top (of_dut turns) h ≡ done (mine, h')
    → session n other (of_ref turns) l ≡ done (theirs, l')
    → (k' : Heap) × (interleave n top' other' turns k ≡ done (mine, theirs, k'))
unfolding session interleave of_dut of_ref
interleave_lem n top top' other other' [] h k l h' l' mine theirs d d' e e' sep t u r s =
    (k, ground arith)
interleave_lem n top top' other other' (dut a ∷ turns) h k l h' l' mine theirs d d' e e' sep t u r
      s =
    let ((ok, v, h₁), first, r₁) = bind-done (perform n top a h) _ _ r in
    let ((rest, h₂), ran, r₂) = bind-done (session n top (of_dut turns) h₁) _ _ r₁ in
    let (k₁, first', t₁) = perform-Twins n top top' a h k h₁ ok v d d' t first in
    let u₁ =
      Twins-AllSame other other' l k l k₁ (AllSame-refl other l)
        (perform-AllSame n top' other' a k k₁ (ok, v) sep first') u in
    let (k', all) =
      interleave_lem n top top' other other' turns h₁ k₁ l h₂ l' rest theirs d d' e e' sep t₁ u₁ ran
        s in
    (k', ground arith)
interleave_lem n top top' other other' (ref a ∷ turns) h k l h' l' mine theirs d d' e e' sep t u r
      s =
    let ((ok, v, l₁), first, s₁) = bind-done (perform n other a l) _ _ s in
    let ((rest, l₂), ran, s₂) = bind-done (session n other (of_ref turns) l₁) _ _ s₁ in
    let (k₁, first', u₁) = perform-Twins n other other' a l k l₁ ok v e e' u first in
    let t₁ =
      Twins-AllSame top top' h k h k₁ (AllSame-refl top h)
        (perform-AllSame n other' top' a k k₁ (ok, v) (Separate-symm top' other' sep) first') t in
    let (k', all) =
      interleave_lem n top top' other other' turns h k₁ l₁ h' l₂ mine rest d d' e e' sep t₁ u₁ r
        ran in
    (k', ground arith)

pub AllNew-Separate :
    (h : Heap) (top other : PaddrTop Dev) → AllWhole h top → AllNew h other → Separate top other
AllNew-Separate h [] other whole news = Separate-nil other
AllNew-Separate h ((r, d) ∷ top) other (w, whole) news =
    Separate-cons r d top other (AllNew-Away h other d news (IsWhole-IsOld h d w))
      (AllNew-Separate h top other whole news)

pub Twins-refl : (h k : Heap) (top : PaddrTop Dev) → AllSame top h k → Twins top top h k
Twins-refl h k [] s = tt
Twins-refl h k ((r, Dev.memory p) ∷ top) (s, ss) = (refl, (refl, s), Twins-refl h k top ss)
Twins-refl h k ((r, Dev.registers p) ∷ top) (s, ss) = (refl, s, Twins-refl h k top ss)

-- `deep_copy` gives the reference an address space of its own. Take a table whose devices are in
-- place and share nothing, and accesses of the CPU and of the reference in any order. If the CPU's
-- accesses alone return on the table, and the reference's alone return on the table as it was at
-- the start, then the copy returns, and with the CPU on the original and the reference on the
-- copy the accesses return, in that order, and each gets the answers that it got alone.
pub deep_copy-interleave :
    (n : Nemu) (top : PaddrTop Dev) (turns : List Turn) (h h' h'' : Heap)
    (mine theirs : List Answer)
    → AllWhole h top
    → Distinct top
    → session n top (of_dut turns) h ≡ done (mine, h')
    → session n top (of_ref turns) h ≡ done (theirs, h'')
    → (other : PaddrTop Dev) × (k : Heap) × (k' : Heap) × (deep_copy (board n) top h
        ≡ done (other, k))
      × (interleave n top other turns k ≡ done (mine, theirs, k'))
deep_copy-interleave n top turns h h' h'' mine theirs whole distinct r s =
    let c = deep_copy_lem n top h whole in
    let (k', all) =
      interleave_lem n top top top c.table turns h c.heap h h' h'' mine theirs distinct distinct
        distinct c.distinct (AllNew-Separate h top c.table whole c.new)
        (Twins-refl h c.heap top (AllWhole-AllSame h c.heap top c.grown whole)) c.twins r s in
    (c.table, c.heap, k', c.returns, all)
