-- ===== src/Uartlite/Queues.antt =====
-- Characters through the two queues of `uartlite`.
use mathlib.Core.List.{append_assoc, append-nil}
use my_diff.Base.{
  ℕ, zero, suc, ◌+◌, ◌*◌, ◌%◌, ◌≡◌, refl, sym, ap, ◌∙◌, true, false, List, [], ◌∷◌, ◌++◌, map,
  length, arith, bit_or, Outcome, done, ◌>>=◌,
}
use my_diff.Pmem.{load, read_file, store_byte}
use my_diff.MmioMem.{copy_out}
use my_diff.Uartlite.{
  Uartlite, do_read, do_write, set_regs, refresh, pop_rx, touches, push_tx, putc, getc, exist_tx,
  extend, word_bytes, rx_fifo_offset, tx_fifo_offset,
}

-- The terminal types characters.
pub type_chars : Uartlite → List ℕ → Uartlite
type_chars u [] = u
type_chars u (c ∷ chars) = type_chars (putc u c) chars

-- The CPU reads the receive register `n` times.
pub read_chars : Uartlite → ℕ → Outcome (List (List ℕ) × Uartlite)
read_chars u zero = done ([], u)
read_chars u (suc n) = do
  (ok, word, u') ← do_read u rx_fifo_offset 4
  (words, u'') ← read_chars u' n
  done (word ∷ words, u'')

type_chars-rx : (chars : List ℕ) (u : Uartlite) → (type_chars u chars).rx ≡ u.rx ++ chars
unfolding type_chars putc
type_chars-rx [] u = sym (append-nil u.rx)
type_chars-rx (c ∷ chars) u = type_chars-rx chars (putc u c) ∙ append_assoc u.rx (c ∷ []) chars

read_one :
    (u : Uartlite) (c : ℕ) (queue : List ℕ)
    → u.rx ≡ c ∷ queue
    → (u' : Uartlite) × (do_read u rx_fifo_offset 4 ≡ done (true, word_bytes (extend c), u'))
      × (u'.rx ≡ queue)
      × (u'.wait_ack ≡ false)
unfolding do_read refresh pop_rx touches copy_out
read_one u c queue e =
    let shown = record u { status = bit_or u.status 1; rx_fifo = extend c } in
    (record shown { wait_ack = false; rx = queue }, rw e refl, refl, refl)

drained :
    (queue : List ℕ) (u : Uartlite)
    → u.rx ≡ queue
    → (u' : Uartlite) × (read_chars u (length queue)
        ≡ done (map (λ c. word_bytes (extend c)) queue, u'))
      × (u'.rx ≡ [])
unfolding read_chars
drained [] u e = (u, refl, e)
drained (c ∷ queue) u e =
    let (u₁, reads, left, _) = read_one u c queue e in
    let (u₂, rest, empty) = drained queue u₁ left in (u₂, rw (reads, rest) refl, empty)

-- First in, first out: what waits in the receive queue and then what is typed is what the reads of the
-- receive register return, each character as a word with its sign extended, and then the queue is
-- empty.
pub uartlite_receive :
    (chars : List ℕ) (u : Uartlite)
    → let queue = u.rx ++ chars in
      (u' : Uartlite) × (read_chars (type_chars u chars) (length queue)
        ≡ done (map (λ c. word_bytes (extend c)) queue, u'))
      × (u'.rx ≡ [])
uartlite_receive chars u = drained (u.rx ++ chars) (type_chars u chars) (type_chars-rx chars u)

-- The CPU writes the transmit register.
pub write_words : Uartlite → List ℕ → Outcome Uartlite
write_words u [] = done u
write_words u (word ∷ words) = do
  (ok, u') ← do_write u tx_fifo_offset (word_bytes word)
  write_words u' words

-- The terminal takes `n` characters.
pub take_chars : Uartlite → ℕ → List ℕ × Uartlite
take_chars u zero = ([], u)
take_chars u (suc n) =
    let (c, u') = getc u in let (chars, u'') = take_chars u' n in (c ∷ chars, u'')

low_byte₁ : (word rest : ℕ) → (word % 256 + 256 * rest) % 256 ≡ word % 256
low_byte₁ word rest = omega arith

low_byte : (word rest : ℕ) → (word % 256 % 256 + 256 * rest) % 256 ≡ word % 256
low_byte word rest = omega arith

write_one :
    (u : Uartlite) (word : ℕ)
    → (u' : Uartlite) × (do_write u tx_fifo_offset (word_bytes word) ≡ done (true, u'))
      × (u'.tx ≡ u.tx ++ (word % 256 ∷ []))
      × (u'.rx ≡ u.rx)
unfolding do_write touches set_regs push_tx read_file store_byte load
write_one u word = (_, refl, ap (λ b. u.tx ++ (b ∷ [])) (low_byte word _), refl)

written_tx :
    (words : List ℕ) (u : Uartlite)
    → (u' : Uartlite) × (write_words u words ≡ done u') × (u'.tx ≡ u.tx ++ map (λ w. w % 256) words)
unfolding write_words
written_tx [] u = (u, refl, sym (append-nil u.tx))
written_tx (word ∷ words) u =
    let (u₁, writes, queued, _) = write_one u word in
    let (u₂, rest, all) = written_tx words u₁ in
    (
      u₂,
      rw (writes, rest) refl,
      all
          ∙ ap (λ q. q ++ map (λ w. w % 256) words) queued
          ∙ append_assoc u.tx (word % 256 ∷ []) (map (λ w. w % 256) words),
    )

getc-cons :
    (u : Uartlite) (c : ℕ) (queue : List ℕ)
    → u.tx ≡ c ∷ queue
    → (u' : Uartlite) × (getc u ≡ (c, u')) × (u'.tx ≡ queue)
unfolding getc
getc-cons u c queue e = (
  record u { tx = queue; wait_ack = elim queue [ [] ↦ true | _ ∷ _ ↦ u.wait_ack ] },
  rw e refl,
  refl,
)

take_chars-suc :
    (u : Uartlite) (n c : ℕ) (u' : Uartlite)
    → getc u ≡ (c, u')
    → take_chars u (suc n) ≡ (c ∷ (take_chars u' n).0, (take_chars u' n).1)
unfolding take_chars
take_chars-suc u n c u' e =
    ap (λ (r : ℕ × Uartlite). (r.0 ∷ (take_chars r.1 n).0, (take_chars r.1 n).1)) e

taken :
    (queue : List ℕ) (u : Uartlite)
    → u.tx ≡ queue
    → ((take_chars u (length queue)).0 ≡ queue) × (exist_tx (take_chars u (length queue)).1 ≡ false)
unfolding take_chars exist_tx
taken [] u e = (refl, rw e refl)
taken (c ∷ queue) u e =
    let (u', gets, left) = getc-cons u c queue e in
    let (out, empty) = taken queue u' left in
    let step = take_chars-suc u (length queue) c u' gets in
    (
      ap (λ (r : List ℕ × Uartlite). r.0) step ∙ ap (λ chars. c ∷ chars) out,
      ap (λ (r : List ℕ × Uartlite). exist_tx r.1) step ∙ empty,
    )

-- First in, first out: the low byte of each word written to the transmit register comes out of `getc`
-- after what waits in the queue, in order, and then `exist_tx` is false.
pub uartlite_transmit :
    (words : List ℕ) (u : Uartlite)
    → let queue = u.tx ++ map (λ w. w % 256) words in
      (u' : Uartlite) × (write_words u words ≡ done u')
      × ((take_chars u' (length queue)).0 ≡ queue)
      × (exist_tx (take_chars u' (length queue)).1 ≡ false)
uartlite_transmit words u =
    let (u', writes, queued) = written_tx words u in
    let (out, empty) = taken (u.tx ++ map (λ w. w % 256) words) u' queued in
    (u', writes, out, empty)

-- The test for the registers that an access touches takes the end of the access for its last byte: a
-- write of the receive register sends the low byte of the transmit register, which the CPU did not
-- write.
pub uartlite_stray_send :
    (u : Uartlite) (word : ℕ)
    → (u' : Uartlite) × (do_write u rx_fifo_offset (word_bytes word) ≡ done (true, u'))
      × (u'.tx ≡ u.tx ++ (u.tx_fifo % 256 ∷ []))
unfolding do_write touches set_regs push_tx read_file store_byte load
uartlite_stray_send u word = (_, refl, ap (λ b. u.tx ++ (b ∷ [])) (low_byte₁ u.tx_fifo _))
