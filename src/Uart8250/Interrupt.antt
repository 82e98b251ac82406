-- ===== src/Uart8250/Interrupt.antt =====
-- The interrupt of `uart8250`.
use my_diff.Base.{
  ℕ, ◌/◌, ◌%◌, ◌≡◌, refl, ap, ap₂, ◌∙◌, Bool, true, false, not, ◌||◌, ◌&&◌, ◌==◌, ltb, List, [],
  ◌∷◌, length, bit_and, arith, done,
}
use my_diff.Base.Bits.{bit_and-digit}
use my_diff.Base.Masks.{bit_and-low}
use my_diff.Uart8250.{
  Uart8250, iir_value, update_iir, irq, thre_pending, rda_pending, is_empty, do_read, read_known,
  read_register,
}

-- What the identification register reads as.
abbrev pub identification : Bool → Bool → ℕ
identification true true = 0xc6
identification true false = 0xc2
identification false true = 0xc4
identification false false = 0xc1

iir_value_lem : (thre rda : Bool) → iir_value thre rda ≡ identification thre rda
unfolding iir_value
iir_value_lem true true = refl
iir_value_lem true false = refl
iir_value_lem false true = refl
iir_value_lem false false = refl

line : (thre rda : Bool) → (bit_and (identification thre rda) 1 == 0) ≡ (thre || rda)
line true true = refl
line true false = refl
line false true = refl
line false false = refl

-- The two enables of IER, bits 1 and 0.
bit_one : (ier : ℕ) → not (bit_and ier 2 == 0) ≡ (ier / 2 % 2 == 1)
bit_one ier =
    let high = bit_and-digit ier 2 in let low = bit_and-low 1 (ier / 2) in ground (arith, high, low)

bit_zero : (ier : ℕ) → not (bit_and ier 1 == 0) ≡ (ier % 2 == 1)
bit_zero ier = let low = bit_and-low 1 ier in ground (arith, low)

-- The transmitter's interrupt waits: it is enabled, and the register has run empty. The receiver's
-- waits: it is enabled, and there is a character.
abbrev pub thre_waits : Uart8250 → Bool
thre_waits u = u.ier / 2 % 2 == 1 && u.thr_empty

abbrev pub rda_waits : Uart8250 → Bool
rda_waits u = u.ier % 2 == 1 && ltb 0 (length u.rx)

thre_pending_lem : (u : Uart8250) → thre_pending u ≡ thre_waits u
thre_pending_lem u = ap (λ b. b && u.thr_empty) (bit_one u.ier)

some_chars : (rx : List ℕ) → not (is_empty rx) ≡ ltb 0 (length rx)
some_chars [] = refl
some_chars (c ∷ rx) = ground arith

rda_pending_lem : (u : Uart8250) → rda_pending u ≡ rda_waits u
rda_pending_lem u = ap₂ (λ a b. a && b) (bit_zero u.ier) (some_chars u.rx)

irq_value : (u : Uart8250) → (irq u).0 ≡ (thre_waits u || rda_waits u)
unfolding update_iir irq
irq_value u =
    rw (iir_value_lem (thre_pending u) (rda_pending u), thre_pending_lem u, rda_pending_lem u)
      (line (thre_waits u) (rda_waits u))

-- The interrupt. A read of one byte at IIR returns 0xc1 when no interrupt waits, 0xc2 when the
-- transmitter's does, 0xc4 when the receiver's does, and 0xc6 when both do, where each must be enabled
-- in IER; the interrupt line was up before exactly if one waited, and after the read, which takes
-- back the transmitter's, it is up exactly if the receiver's waits.
pub interrupt_lem :
    (u : Uart8250) (buffer : ℕ)
    → (u' : Uart8250) × (do_read u 2 1 buffer
        ≡ done (true, identification (thre_waits u) (rda_waits u), u'))
      × ((irq u).0 ≡ (thre_waits u || rda_waits u))
      × ((irq u').0 ≡ rda_waits u)
unfolding do_read read_known read_register update_iir
interrupt_lem u buffer =
    let read = record (update_iir u) { thr_empty = false } in
    (
      read,
      rw (iir_value_lem (thre_pending u) (rda_pending u), thre_pending_lem u, rda_pending_lem u)
          refl,
      irq_value u,
      irq_value read ∙ ground arith,
    )
