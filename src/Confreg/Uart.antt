-- ===== src/Confreg/Uart.antt =====
-- The virtual UART of `PaddrConfreg`: what is written comes out of `get_uart` in order.
use mathlib.Core.List.{append_assoc, append-nil}
use my_diff.Base.{
  ℕ, zero, suc, ◌%◌, ◌≡◌, refl, ap, ◌∙◌, ◌+◌, u32, bit_and, false, List, [], ◌∷◌, ◌++◌, map, length,
  arith, Outcome, done, ◌>>=◌,
}
use my_diff.Base.Masks.{bit_and-low}
use my_diff.Paddr.{Wen}
use my_diff.Confreg.{
  PaddrConfreg, label, write_label, do_write, get_uart, has_uart, address, virtual_uart_addr,
}

abbrev byte_access : Wen
byte_access = record { size = 1; wstrb = 1 }

-- The bus writes each word to the virtual UART, as a byte access.
pub send : PaddrConfreg → List ℕ → Outcome PaddrConfreg
send c [] = done c
send c (word ∷ words) = do
  (ok, c') ← do_write c (address virtual_uart_addr) byte_access word
  send c' words

-- The simulator takes `n` bytes.
pub receive : PaddrConfreg → ℕ → Outcome (List ℕ × PaddrConfreg)
receive c zero = done ([], c)
receive c (suc n) = do
  (byte, c') ← get_uart c
  (bytes, c'') ← receive c' n
  done (byte ∷ bytes, c'')

send-queue :
    (words : List ℕ) (c : PaddrConfreg)
    → (c' : PaddrConfreg) × (send c words ≡ done c')
      × (c'.uart_queue ≡ c.uart_queue ++ map (λ w. w % 256) words)
unfolding send do_write label write_label
send-queue [] c = (c, refl, rw append-nil)
send-queue (word ∷ words) c =
    let counted = record c { confreg_write = u32 (c.confreg_write + 1) } in
    let (c', sent, queued) = send-queue words (write_label counted virtual_uart_addr word) in
    (
      c',
      sent,
      queued
          ∙ append_assoc c.uart_queue (bit_and word 0xff ∷ []) (map (λ w. w % 256) words)
          ∙ ap (λ b. c.uart_queue ++ (b ∷ map (λ w. w % 256) words)) (bit_and-low 8 word),
    )

get_uart-cons :
    (c : PaddrConfreg) (byte : ℕ) (queue : List ℕ)
    → c.uart_queue ≡ byte ∷ queue
    → get_uart c ≡ done (byte, record c { uart_queue = queue })
unfolding get_uart
get_uart-cons c byte queue e = ground arith

has_uart-nil : (c : PaddrConfreg) → c.uart_queue ≡ [] → has_uart c ≡ false
unfolding has_uart
has_uart-nil c e = ground arith

receive-queue :
    (queue : List ℕ) (c : PaddrConfreg)
    → c.uart_queue ≡ queue
    → (c' : PaddrConfreg) × (receive c (length queue) ≡ done (queue, c')) × (c'.uart_queue ≡ [])
unfolding receive
receive-queue [] c e = (c, refl, e)
receive-queue (byte ∷ queue) c e =
    let (c', received, empty) = receive-queue queue (record c { uart_queue = queue }) refl in
    (c', rw (get_uart-cons c byte queue e, received), empty)

-- First in, first out: whatever waits in the queue, and then the low byte of each word written,
-- comes out in this order, and then the queue is empty.
pub receive-send :
    (words : List ℕ) (c : PaddrConfreg)
    → let bytes = c.uart_queue ++ map (λ w. w % 256) words in
      (c' c'' : PaddrConfreg) × (send c words ≡ done c')
      × (receive c' (length bytes) ≡ done (bytes, c''))
      × (has_uart c'' ≡ false)
receive-send words c =
    let (c', sent, queued) = send-queue words c in
    let (c'', received, empty) = receive-queue _ c' queued in
    (c', c'', sent, received, has_uart-nil c'' empty)
