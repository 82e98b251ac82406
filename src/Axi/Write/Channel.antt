-- ===== src/Axi/Write/Channel.antt =====
-- A whole write transaction on the channel, from its request to the answer.
use native.Mathlib.Nat.{pow-le-pow_right}
use my_diff.Base.{
  ℕ, ◌+◌, ◌*◌, ◌^◌, ◌<◌, ◌≤◌, ◌≡◌, ◌≢◌, refl, ap, ◌∙◌, Bool, true, false, List, [], ◌∷◌, ◌++◌,
  length, replicate, arith, done,
}
use my_diff.Paddr.{PaddrInterface, PaddrTop}
use my_diff.Axi.{Pins, SimStatus, wrap, reserved, of_signal, check_axi_req}
use my_diff.Axi.Address.{beat_addr}
use my_diff.Axi.Read.{rand_delay}
use my_diff.Axi.Write.{
  idel, req_ok, WriteState, WriteOut, accept_write_req, write_eval, start_write,
}
use my_diff.Axi.Write.Accept.{IsSized}
use my_diff.Axi.Write.Beats.{checked}
use my_diff.Axi.Write.Issue.{bus_writes}
use my_diff.Axi.Write.Transaction.{request-Collected}
use my_diff.Axi.Write.Cycles.{
  idle_out, open_out, closed_out, answer_out, Delivers, NoneReady, write_outputs, Leads, Leads-cons,
  Leads-append, Leads-returns,
}
use my_diff.Axi.Write.Phases.{data_phase, take_last, delay_phase, issue, answer_phase}

-- The cycles of a transaction: the request, the data with the last beat at the end, the delay, the
-- writes, and the answer.
abbrev pub transaction : Pins → List Pins → Pins → List Pins → Pins → List Pins → Pins → List Pins
transaction request early last delay issued held ready =
    request ∷ (early ++ (last ∷ (delay ++ (issued ∷ (held ++ (ready ∷ []))))))

-- What the channel shows.
abbrev pub transaction_outs : ℕ → ℕ → ℕ → ℕ → Bool → List WriteOut
transaction_outs early delay held id res =
    open_out
    ∷ (replicate early open_out
        ++ (closed_out
            ∷ (replicate delay closed_out
                ++ (answer_out id res ∷ (replicate held (answer_out id res) ++ (idle_out ∷ []))))))

-- What the CPU does in a transaction: it asks for 1 to 16 beats, sends its beats with pauses wherever
-- it likes, `wlast` on the last one only, and takes the answer at last; meanwhile the delay passes.
pub record Sends (beat : ℕ → Pins) (random : ℕ) (request last ready : Pins)
    (early delay held : List Pins) : Type 0 where
  pub valid : request.awvalid ≡ true
  pub few : request.awlen < 16
  pub delivers : Delivers beat request.awlen 0 early
  pub is_last : last ≡ beat request.awlen
  pub last_valid : last.wvalid ≡ true
  pub last_marked : last.wlast ≡ true
  pub delayed : length delay ≡ rand_delay random
  pub busy : NoneReady held
  pub takes : ready.bready ≡ true

module _ {D S : Type 0} (face : PaddrInterface D S) (paddr_top : PaddrTop D) (random : ℕ) where
  eval_request :
      (pins : Pins) (w w₁ : WriteState) (sim sim₁ : SimStatus) (s : S)
      → w.status ≡ idel
      → pins.awvalid ≡ true
      → accept_write_req pins (record w { status = req_ok }) sim ≡ done (w₁, sim₁)
      → write_eval face paddr_top pins random w sim s ≡ done (true, w₁, sim₁, s)
  unfolding write_eval start_write
  eval_request pins w w₁ sim sim₁ s status valid accepts = ground (arith, status, valid, accepts)

  transaction-Leads :
      (request last issued ready : Pins) (early delay held : List Pins) (beat : ℕ → Pins) (j : ℕ)
      (w : WriteState) (sim : SimStatus) (s s' : S) (res : Bool)
      → let n = request.awlen + 1 in
        let k = request.awsize in
        let burst = of_signal request.awburst in
        let addr = beat_addr burst request.awaddr (2 ^ k) (n * 2 ^ k) in
        IsSized w
        → w.status ≡ idel
        → w.out ≡ idle_out
        → Sends beat random request last ready early delay held
        → k ≤ 3
        → burst ≢ reserved
        → (burst ≡ wrap → n ≡ 2 ^ j)
        → j ≤ 4
        → request.awaddr < 2 ^ 32
        → bus_writes face paddr_top addr beat (2 ^ k) n 0 s ≡ done (res, s')
        → (w' : WriteState) × Leads face paddr_top random
            (transaction request early last delay issued held ready)
            w
            sim
            s
            (transaction_outs (length early) (rand_delay random) (length held) request.awid res)
            w'
            (checked beat n request.awid n (check_axi_req (2 ^ k) burst request.awaddr n sim))
            s'
          × (w'.status ≡ idel)
          × (w'.out ≡ idle_out)
  transaction-Leads request last issued ready early delay held beat j w sim s s' res sized status
        out sends size known two small below writes =
      let n = request.awlen + 1 in
      let k = request.awsize in
      let burst = of_signal request.awburst in
      let addr = beat_addr burst request.awaddr (2 ^ k) (n * 2 ^ k) in
      let few = sends.few in
      let top : 2 ^ k ≤ 2 ^ 3 = pow-le-pow_right (omega arith) size in
      let sized' : IsSized (record w { status = req_ok }) = record {
        addrs = sized.addrs;
        infos = sized.infos;
        words = sized.words;
      } in
      let (w₁, mask, bound, accepts, c, follows, status₁, out₁) =
        request-Collected request beat j (record w { status = req_ok }) sim sized' sends.few size
          known two small below in
      let sim₁ = check_axi_req (2 ^ k) burst request.awaddr n sim in
      let opened : w₁.out ≡ open_out =
        out₁ ∙ ap {A = WriteOut} (λ o. record o { awready = false; wready = true }) out in
      let (w₂, taken, t₂) =
        data_phase face paddr_top random beat addr n (2 ^ k) request.awid burst mask bound
          (omega arith) (omega arith) follows sim₁ request.awlen 0 early w₁ s sends.delivers
          (omega arith) (omega arith) (record { collected = c; status = status₁; out = opened }) in
      let (w₃, closes, h₃) =
        take_last face paddr_top random beat addr n (2 ^ k) request.awid burst mask bound
          (omega arith) (omega arith) follows sim₁ request.awlen last w₂ s sends.is_last
          sends.last_valid sends.last_marked refl t₂ in
      let sim₂ = checked beat n request.awid n sim₁ in
      let (w₄, waits, h₄) =
        delay_phase face paddr_top random beat addr n (2 ^ k) request.awid burst mask bound
          (omega arith) (omega arith) follows sim₁ (rand_delay random) delay w₃ sim₂ s sends.delayed
          h₃ in
      let (w₅, issues, status₅, out₅) =
        issue face paddr_top random beat addr n (2 ^ k) request.awid burst mask bound (omega arith)
          (omega arith) follows sim₁ issued w₄ sim₂ s s' res h₄ writes in
      let (w₆, answers, status₆, out₆) =
        answer_phase face paddr_top random held ready w₅ sim₂ s' (answer_out request.awid res)
          sends.busy sends.takes status₅ out₅ in
      let from₅ =
        Leads-cons face paddr_top random issued (held ++ (ready ∷ [])) w₄ w₅ w₆ sim₂ sim₂ sim₂ s s'
          s' res (answer_out request.awid res) _ issues out₅ answers in
      let from₃ =
        Leads-cons face paddr_top random last _ w₂ w₃ w₆ _ sim₂ sim₂ s s s' true closed_out _ closes
          (h₃.out)
          (Leads-append face paddr_top random delay _ w₃ w₄ w₆ sim₂ sim₂ sim₂ s s s' _ _ waits
            from₅) in
      (
        w₆,
        Leads-cons face paddr_top random request _ w w₁ w₆ sim sim₁ sim₂ s s s' true open_out _
            (eval_request request w w₁ sim sim₁ s status sends.valid accepts) opened
            (Leads-append face paddr_top random early _ w₁ w₂ w₆ _ _ sim₂ s s s' _ _ taken from₃),
        status₆,
        out₆,
      )

  pub write_transaction :
      (request last issued ready : Pins) (early delay held : List Pins) (beat : ℕ → Pins) (j : ℕ)
      (w : WriteState) (sim : SimStatus) (s s' : S) (res : Bool)
      → let n = request.awlen + 1 in
        let k = request.awsize in
        let burst = of_signal request.awburst in
        let addr = beat_addr burst request.awaddr (2 ^ k) (n * 2 ^ k) in
        IsSized w
        → w.status ≡ idel
        → w.out ≡ idle_out
        → Sends beat random request last ready early delay held
        → k ≤ 3
        → burst ≢ reserved
        → (burst ≡ wrap → n ≡ 2 ^ j)
        → j ≤ 4
        → request.awaddr < 2 ^ 32
        → bus_writes face paddr_top addr beat (2 ^ k) n 0 s ≡ done (res, s')
        → (w' : WriteState) × (write_outputs face paddr_top random
              (transaction request early last delay issued held ready)
              w
              sim
              s
            ≡ done (
              transaction_outs (length early) (rand_delay random) (length held) request.awid res,
              w',
              checked beat n request.awid n (check_axi_req (2 ^ k) burst request.awaddr n sim),
              s',
            ))
          × (w'.status ≡ idel)
          × (w'.out ≡ idle_out)
  write_transaction request last issued ready early delay held beat j w sim s s' res sized status
        out sends size known two small below writes =
      let (w', leads, idle, shown) =
        transaction-Leads request last issued ready early delay held beat j w sim s s' res sized
          status out sends size known two small below writes in
      (
        w',
        Leads-returns face paddr_top random (transaction request early last delay issued held ready)
            w w' sim _ s s'
            (transaction_outs (length early) (rand_delay random) (length held) request.awid res)
            leads,
        idle,
        shown,
      )
