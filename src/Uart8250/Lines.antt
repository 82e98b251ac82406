-- ===== src/Uart8250/Lines.antt =====
-- What goes through the registers and the queues of `uart8250`.
use mathlib.Core.List.{append_assoc, append-nil}
use my_diff.Base.{
  ℕ, zero, suc, ◌≤◌, ◌<◌, ◌≡◌, refl, sym, ◌∙◌, true, List, [], ◌∷◌, ◌++◌, length, arith, Outcome,
  done, ◌>>=◌,
}
use my_diff.Uart8250.{
  Uart8250, do_read, do_write, read_known, read_register, read_rx, write_known, write_register,
  putc,
}

-- The terminal types characters.
pub type_chars : Uart8250 → List ℕ → Uart8250
type_chars u [] = u
type_chars u (c ∷ chars) = type_chars (putc u c) chars

-- The CPU reads the receiver `n` times.
pub read_chars : Uart8250 → ℕ → Outcome (List ℕ × Uart8250)
read_chars u zero = done ([], u)
read_chars u (suc n) = do
  (ok, c, u') ← do_read u 0 1 0
  (chars, u'') ← read_chars u' n
  done (c ∷ chars, u'')

type_chars_lem :
    (chars : List ℕ) (u : Uart8250)
    → ((type_chars u chars).rx ≡ u.rx ++ chars) × ((type_chars u chars).lcr ≡ u.lcr)
unfolding type_chars putc
type_chars_lem [] u = (sym (append-nil u.rx), refl)
type_chars_lem (c ∷ chars) u =
    let (rx, lcr) = type_chars_lem chars (putc u c) in (rx ∙ append_assoc u.rx (c ∷ []) chars, lcr)

read_one :
    (u : Uart8250) (c : ℕ) (queue : List ℕ)
    → u.rx ≡ c ∷ queue
    → u.lcr < 128
    → do_read u 0 1 0 ≡ done (true, c, record u { rx = queue })
unfolding do_read read_known read_register read_rx
read_one u c queue e closed = ground (arith, e)

drained :
    (queue : List ℕ) (u : Uart8250)
    → u.rx ≡ queue
    → u.lcr < 128
    → (u' : Uart8250) × (read_chars u (length queue) ≡ done (queue, u')) × (u'.rx ≡ [])
unfolding read_chars
drained [] u e closed = (u, refl, e)
drained (c ∷ queue) u e closed =
    let (u', rest, empty) = drained queue (record u { rx = queue }) refl closed in
    (u', rw (read_one u c queue e closed, rest) refl, empty)

-- With the divisor latch closed, what waits in the receive queue and then what is typed is what the
-- reads of the receiver return, first in, first out, and then the queue is empty.
pub uart8250_receive :
    (chars : List ℕ) (u : Uart8250)
    → u.lcr < 128
    → let queue = u.rx ++ chars in
      (u' : Uart8250) × (read_chars (type_chars u chars) (length queue) ≡ done (queue, u'))
      × (u'.rx ≡ [])
uart8250_receive chars u closed =
    let (rx, lcr) = type_chars_lem chars u in
    drained (u.rx ++ chars) (type_chars u chars) rx (ground (arith, lcr))

-- The driver's way to set the divisor: open the latch, write both halves, close it.
pub set_divisor : Uart8250 → ℕ → ℕ → ℕ → ℕ → Outcome Uart8250
set_divisor u opened closed low high = do
  (ok₁, u₁) ← do_write u 3 1 opened
  (ok₂, u₂) ← do_write u₁ 0 1 low
  (ok₃, u₃) ← do_write u₂ 1 1 high
  (ok₄, u₄) ← do_write u₃ 3 1 closed
  done u₄

-- Setting the divisor through the latch changes the divisor and the line control alone: no character
-- is sent and the interrupts stay as they were enabled.
pub set_divisor_lem :
    (u : Uart8250) (opened closed low high : ℕ)
    → 128 ≤ opened
    → set_divisor u opened closed low high ≡ done (record u { dll = low; dlm = high; lcr = closed })
unfolding set_divisor do_write write_known write_register
set_divisor_lem u opened closed low high wide = ground arith
