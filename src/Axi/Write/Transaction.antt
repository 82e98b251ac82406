-- ===== src/Axi/Write/Transaction.antt =====
-- A whole write burst: the request, its beats, and the writes on the address space.
use native.Mathlib.Nat.{pow-le-pow_right}
use my_diff.Base.{
  false, true, ℕ, suc, ◌+◌, ◌*◌, ◌^◌, ◌≤◌, ◌<◌, ◌≡◌, ◌≢◌, refl, sym, ap, arith, done, ◌>>=◌,
}
use my_diff.Base.Bits.{pow-add}
use my_diff.Paddr.{PaddrInterface, PaddrTop}
use my_diff.Axi.{
  Pins, SimStatus, Burst, fixed, incr, wrap, reserved, of_signal, check_axi_req, wrap_mask,
  wrap_base, next_addr,
}
use my_diff.Axi.Address.{beat_addr, beat_addr-next, beat_addr-first}
use my_diff.Axi.Write.{WriteState, accept_write_req, do_all_write}
use my_diff.Axi.Write.Beats.{write_beats, Collected, Follows, checked, write_beats-Collected}
use my_diff.Axi.Write.Issue.{bus_writes, answered, do_all_write_lem}
use my_diff.Axi.Write.Accept.{IsSized, accept_write_req-Collected}

-- What the slave computes for the next beat is what the AXI rules say.
beat_addr-Follows :
    (burst : Burst) (n k start j mask bound : ℕ)
    → burst ≢ reserved
    → (burst ≡ wrap → n ≡ 2 ^ j)
    → (burst ≡ wrap → (mask ≡ wrap_mask n k) × (bound ≡ wrap_base start (wrap_mask n k)))
    → j + k ≤ 32
    → start < 2 ^ 32
    → (i : ℕ)
    → next_addr burst mask bound (2 ^ k) (beat_addr burst start (2 ^ k) (n * 2 ^ k) i)
      ≡ done (beat_addr burst start (2 ^ k) (n * 2 ^ k) (i + 1))
unfolding next_addr
beat_addr-Follows fixed n k start j mask bound known two setup h hs i = refl
beat_addr-Follows incr n k start j mask bound known two setup h hs i = ap done (omega arith)
beat_addr-Follows wrap n k start j mask bound known two setup h hs i =
    let total : 2 ^ j * 2 ^ k ≡ 2 ^ (j + k) = sym (pow-add j k) in
    let next : i + 1 ≡ suc i = omega arith in
    let (m, b) = setup refl in
    rw (m, b, two refl, next) (rw (sym total) at (beat_addr-next wrap j k start i known h hs))
beat_addr-Follows reserved n k start j mask bound known two setup h hs i = absurd (known refl)

-- A request of 1 to 16 beats of a known kind: what the slave has then, and that the addresses of its
-- beats follow from it.
pub request-Collected :
    (request : Pins) (beat : ℕ → Pins) (j : ℕ) (w : WriteState) (sim : SimStatus)
    → IsSized w
    → request.awlen < 16
    → request.awsize ≤ 3
    → of_signal request.awburst ≢ reserved
    → (of_signal request.awburst ≡ wrap → request.awlen + 1 ≡ 2 ^ j)
    → j ≤ 4
    → request.awaddr < 2 ^ 32
    → let n = request.awlen + 1 in
      let k = request.awsize in
      let burst = of_signal request.awburst in
      let addr = beat_addr burst request.awaddr (2 ^ k) (n * 2 ^ k) in
      (w₁ : WriteState) × (mask bound : ℕ) × (accept_write_req request w sim
        ≡ done (w₁, check_axi_req (2 ^ k) burst request.awaddr n sim))
      × Collected beat addr n (2 ^ k) request.awid burst mask bound 0 w₁
      × Follows beat addr n (2 ^ k) request.awid burst mask bound
      × (w₁.status ≡ w.status)
      × (w₁.out ≡ record (w.out) { awready = false; wready = true })
request-Collected request beat j w sim sized len size known two small h =
    let n = request.awlen + 1 in
    let burst = of_signal request.awburst in
    let k = request.awsize in
    let addr = beat_addr burst request.awaddr (2 ^ k) (n * 2 ^ k) in
    let (w₁, mask, bound, accepts, c, setup, status, out) =
      accept_write_req-Collected request beat addr w sim sized len size
        (beat_addr-first burst request.awaddr (2 ^ k) (n * 2 ^ k) h) in
    (
      w₁,
      mask,
      bound,
      accepts,
      c,
      (λ i _.
          beat_addr-Follows burst n k request.awaddr j mask bound known two setup (omega arith) h
            i),
      status,
      out,
    )

module _ {D S : Type 0} (face : PaddrInterface D S) (paddr_top : PaddrTop D) where
  -- A write burst does what it says. For a request of 1 to 16 beats of 1, 2, 4 or 8 bytes, of a kind
  -- that is not reserved, and of `2 ^ j` beats if it wraps: the request is accepted after the checks
  -- of `check_axi_req`, its beats are accepted one after another, each with the checks of its id and
  -- of `wlast`, and then `do_all_write` makes one write for each beat, in order, with the beat's own
  -- data and strobes, at the address that the AXI rules give it, and answers OKEY exactly if every
  -- write succeeded.
  pub write_burst :
      (request : Pins) (beat : ℕ → Pins) (j random : ℕ) (w : WriteState) (sim : SimStatus) (s : S)
      → IsSized w
      → request.awlen < 16
      → request.awsize ≤ 3
      → of_signal request.awburst ≢ reserved
      → (of_signal request.awburst ≡ wrap → request.awlen + 1 ≡ 2 ^ j)
      → j ≤ 4
      → request.awaddr < 2 ^ 32
      → let n = request.awlen + 1 in
        let burst = of_signal request.awburst in
        let addr = beat_addr burst request.awaddr (2 ^ request.awsize) (n * 2 ^ request.awsize) in
        let sim₁ = check_axi_req (2 ^ request.awsize) burst request.awaddr n sim in
        (w₁ w₂ : WriteState) × (accept_write_req request w sim ≡ done (w₁, sim₁))
        × (write_beats beat random n w₁ sim₁ ≡ done (w₂, checked beat n request.awid n sim₁))
        × (do_all_write face paddr_top w₂ s ≡ (
            bus_writes face paddr_top addr beat (2 ^ request.awsize) n 0 s >>= λ (res, s').
            done (res, answered res w₂, s')))
  write_burst request beat j random w sim s sized len size known two small h =
      let n = request.awlen + 1 in
      let burst = of_signal request.awburst in
      let k = request.awsize in
      let addr = beat_addr burst request.awaddr (2 ^ k) (n * 2 ^ k) in
      let top : 2 ^ k ≤ 2 ^ 3 = pow-le-pow_right (omega arith) size in
      let (w₁, mask, bound, accepts, c, follows, _, _) =
        request-Collected request beat j w sim sized len size known two small h in
      let (w₂, beats, c₂) =
        write_beats-Collected beat addr n (2 ^ k) request.awid burst mask bound n random w₁
          (check_axi_req (2 ^ k) burst request.awaddr n sim) (omega arith) (omega arith)
          (omega arith) follows c in
      (
        w₁,
        w₂,
        accepts,
        beats,
        do_all_write_lem face paddr_top beat addr n (2 ^ k) request.awid burst mask bound w₂ s c₂,
      )
