-- ===== src/Axi/Write/Phases.antt =====
-- The phases of a write transaction: the data, the delay and the answer.
use my_diff.Base.{
  ℕ, zero, suc, ◌+◌, ◌<◌, ◌≤◌, ◌≡◌, refl, sym, ap, ap₂, ◌∙◌, Bool, true, false, List, [], ◌∷◌, ◌++◌,
  length, replicate, arith, if◌then◌else◌, subst, done,
}
use my_diff.Paddr.{PaddrInterface, PaddrTop}
use my_diff.Axi.{Pins, SimStatus, Burst, resp_okey, resp_decerr}
use my_diff.Axi.Read.{rand_delay}
use my_diff.Axi.Write.{
  idel, req_ok, data_ok, wait_back, WriteState, WriteStatus, WriteOut, idel_wait_write,
  do_all_write, write_eval, take_data, wait_write, accept_write_data,
}
use my_diff.Axi.Write.Beats.{Collected, Follows, Accepted, accept, checked}
use my_diff.Axi.Write.Issue.{answered, bus_writes, do_all_write_lem}
use my_diff.Axi.Write.Cycles.{
  idle_out, open_out, closed_out, answer_out, Delivers, all_sent, pause, send, NoneReady, Leads,
  Leads-nil, Leads-cons,
}

module _ (beat : ℕ → Pins) (addr : ℕ → ℕ) (n size id : ℕ) (burst : Burst) (mask bound : ℕ) where
  -- The status and the delay are not part of what has been collected.
  with_status :
      (k : ℕ) (w : WriteState) (status : WriteStatus) (left : ℕ)
      → Collected beat addr n size id burst mask bound k w
      → Collected beat addr n size id burst mask bound k
          (record w { status = status; left_time = left })
  with_status k w status left c = record {
    count = c.count;
    number = c.number;
    id_kept = c.id_kept;
    burst_kept = c.burst_kept;
    mask_kept = c.mask_kept;
    bound_kept = c.bound_kept;
    addrs = c.addrs;
    infos = c.infos;
    words = c.words;
    addr_at = c.addr_at;
    info_at = c.info_at;
    size_at = c.size_at;
    word_at = c.word_at;
  }

  -- Data are taken, and `k` beats are in.
  pub record Taking (k : ℕ) (w : WriteState) : Type 0 where
    pub collected : Collected beat addr n size id burst mask bound k w
    pub status : w.status ≡ req_ok
    pub out : w.out ≡ open_out

  -- All the data are in, and the writes come after `left` more cycles.
  pub record Waiting (left : ℕ) (w : WriteState) : Type 0 where
    pub collected : Collected beat addr n size id burst mask bound n w
    pub status : w.status ≡ data_ok
    pub out : w.out ≡ closed_out
    pub left_time : w.left_time ≡ left

module _ {D S : Type 0} (face : PaddrInterface D S) (paddr_top : PaddrTop D) (random : ℕ) where
  eval_pause :
      (pins : Pins) (w : WriteState) (sim : SimStatus) (s : S)
      → w.status ≡ req_ok
      → pins.wvalid ≡ false
      → write_eval face paddr_top pins random w sim s ≡ done (true, w, sim, s)
  unfolding write_eval take_data
  eval_pause pins w sim s status quiet = ground arith

  eval_data :
      (pins : Pins) (w w' : WriteState) (sim sim' : SimStatus) (s : S) (last : Bool)
      → w.status ≡ req_ok
      → pins.wvalid ≡ true
      → pins.wlast ≡ last
      → accept_write_data pins random w sim ≡ done (w', sim')
      → write_eval face paddr_top pins random w sim s
        ≡ done (true, record w' { status = if last then data_ok else req_ok }, sim', s)
  unfolding write_eval take_data
  eval_data pins w w' sim sim' s last status valid is_last accepts =
      ground (arith, status, valid, accepts, is_last)

  eval_delay :
      (pins : Pins) (w : WriteState) (sim : SimStatus) (s : S) (left : ℕ)
      → w.status ≡ data_ok
      → w.left_time ≡ suc left
      → write_eval face paddr_top pins random w sim s
        ≡ done (true, record w { left_time = left }, sim, s)
  unfolding write_eval wait_write
  eval_delay pins w sim s left status time = ground (arith, status, time)

  eval_held :
      (pins : Pins) (w : WriteState) (sim : SimStatus) (s : S)
      → w.status ≡ wait_back
      → pins.bready ≡ false
      → write_eval face paddr_top pins random w sim s ≡ done (true, w, sim, s)
  unfolding write_eval
  eval_held pins w sim s status busy = ground arith

  eval_end :
      (pins : Pins) (w : WriteState) (sim : SimStatus) (s : S)
      → w.status ≡ wait_back
      → pins.bready ≡ true
      → write_eval face paddr_top pins random w sim s
        ≡ done (true, idel_wait_write (record w { status = idel }), sim, s)
  unfolding write_eval
  eval_end pins w sim s status ready = ground arith

  module _ (beat : ℕ → Pins) (addr : ℕ → ℕ) (n size id : ℕ) (burst : Burst) (mask bound : ℕ)
      (few : n ≤ 16) (small : size < 16) (follows : Follows beat addr n size id burst mask bound)
      (sim₀ : SimStatus) where
    -- The status once `k` beats are in.
    abbrev after : ℕ → SimStatus
    after k = checked beat n id k sim₀

    abbrev Took : ℕ → WriteState → Type 0
    Took = Taking beat addr n size id burst mask bound

    take_one :
        (k : ℕ) (pins : Pins) (w : WriteState) (s : S)
        → pins ≡ beat k
        → pins.wvalid ≡ true
        → pins.wlast ≡ false
        → k + 1 < n
        → Took k w
        → (w' : WriteState) × (write_eval face paddr_top pins random w (after k) s
            ≡ done (true, w', after (k + 1), s))
          × Took (k + 1) w'
    unfolding Accepted
    take_one k pins w s is_beat valid more below t =
        let (w', accepts, c, outputs) =
          accept beat addr n size id burst mask bound k random w (after k) (omega arith) few small
            follows (t.collected) in
        let next : suc k ≡ k + 1 = omega arith in
        (
          record w' { status = req_ok },
          rw (sym next) (
              eval_data pins w w' (after k) (after (suc k)) s false (t.status) valid more (
                subst (λ p. accept_write_data p random w (after k) ≡ done (w', after (suc k)))
                  (sym is_beat) accepts)),
          record {
            collected = rw (sym next) (
                with_status beat addr n size id burst mask bound (suc k) w' req_ok (w'.left_time)
                  c);
            status = refl;
            out = outputs.more below ∙ t.out;
          },
        )

    pub data_phase :
        (m k : ℕ) (cycles : List Pins) (w : WriteState) (s : S)
        → Delivers beat m k cycles
        → m < n
        → k ≤ m
        → Took k w
        → (w' : WriteState) × Leads face paddr_top random cycles w
            (after k)
            s
            (replicate (length cycles) open_out)
            w'
            (after m)
            s
          × Took m w'
    data_phase m k [] w s (all_sent e) below le t = (
      w,
      subst (λ j. Leads face paddr_top random [] w (after k) s [] w (after j) s) e
          (Leads-nil face paddr_top random w (after k) s),
      subst (λ j. Took j w) e t,
    )
    data_phase m k (p ∷ cycles) w s (pause quiet rest) below le t =
        let (w', leads, t') = data_phase m k cycles w s rest below le t in
        (
          w',
          Leads-cons face paddr_top random p cycles w w w' (after k) (after k) (after m) s s s true
              open_out (replicate (length cycles) open_out)
              (eval_pause p w (after k) s (t.status) quiet) (t.out) leads,
          t',
        )
    data_phase m k (p ∷ cycles) w s (send is_beat valid more lt rest) below le t =
        let (w₁, eval, t₁) = take_one k p w s is_beat valid more (omega arith) t in
        let (w', leads, t') = data_phase m (k + 1) cycles w₁ s rest below (omega arith) t₁ in
        (
          w',
          Leads-cons face paddr_top random p cycles w w₁ w' (after k) (after (k + 1)) (after m) s s
              s true open_out (replicate (length cycles) open_out) eval (t₁.out) leads,
          t',
        )

    pub take_last :
        (k : ℕ) (pins : Pins) (w : WriteState) (s : S)
        → pins ≡ beat k
        → pins.wvalid ≡ true
        → pins.wlast ≡ true
        → k + 1 ≡ n
        → Took k w
        → (w' : WriteState) × (write_eval face paddr_top pins random w (after k) s
            ≡ done (true, w', after n, s))
          × Waiting beat addr n size id burst mask bound (rand_delay random) w'
    unfolding Accepted
    take_last k pins w s is_beat valid last sum t =
        let (w', accepts, c, outputs) =
          accept beat addr n size id burst mask bound k random w (after k) (omega arith) few small
            follows (t.collected) in
        let next : suc k ≡ n = omega arith in
        let (out, left) = outputs.last sum in
        (
          record w' { status = data_ok },
          subst
              (λ j.
                write_eval face paddr_top pins random w (after k) s
                ≡ done (true, record w' { status = data_ok }, after j, s))
              next
              (eval_data pins w w' (after k) (after (suc k)) s true (t.status) valid last (
                subst (λ p. accept_write_data p random w (after k) ≡ done (w', after (suc k)))
                  (sym is_beat) accepts)),
          record {
            collected =
                with_status beat addr n size id burst mask bound n w' data_ok (w'.left_time)
                  (subst (λ j. Collected beat addr n size id burst mask bound j w') next c);
            status = refl;
            out = out ∙ ap {A = WriteOut} (λ o. record o { wready = false }) (t.out);
            left_time = left;
          },
        )

    pub delay_phase :
        (left : ℕ) (cycles : List Pins) (w : WriteState) (sim : SimStatus) (s : S)
        → length cycles ≡ left
        → Waiting beat addr n size id burst mask bound left w
        → (w' : WriteState) × Leads face paddr_top random cycles w sim s
            (replicate left closed_out)
            w'
            sim
            s
          × Waiting beat addr n size id burst mask bound 0 w'
    delay_phase zero [] w sim s len h = (w, Leads-nil face paddr_top random w sim s, h)
    delay_phase zero (p ∷ cycles) w sim s len h = absurd (omega arith)
    delay_phase (suc left) [] w sim s len h = absurd (omega arith)
    delay_phase (suc left) (p ∷ cycles) w sim s len h =
        let w₁ : WriteState = record w { left_time = left } in
        let (w', leads, h') = delay_phase left cycles w₁ sim s (omega arith) (record {
          collected =
              with_status beat addr n size id burst mask bound n w (w.status) left (h.collected);
          status = h.status;
          out = h.out;
          left_time = refl;
        }) in
        (
          w',
          Leads-cons face paddr_top random p cycles w w₁ w' sim sim sim s s s true closed_out
              (replicate left closed_out) (eval_delay p w sim s left (h.status) (h.left_time))
              (h.out) leads,
          h',
        )

    -- The writes, once the delay is over.
    pub issue :
        (pins : Pins) (w : WriteState) (sim : SimStatus) (s s' : S) (res : Bool)
        → Waiting beat addr n size id burst mask bound 0 w
        → bus_writes face paddr_top addr beat size n 0 s ≡ done (res, s')
        → (w' : WriteState) × (write_eval face paddr_top pins random w sim s
            ≡ done (res, w', sim, s'))
          × (w'.status ≡ wait_back)
          × (w'.out ≡ answer_out id res)
    unfolding write_eval wait_write
    issue pins w sim s s' res h writes =
        let begun : WriteState = record w { status = wait_back } in
        let all : do_all_write face paddr_top begun s ≡ done (res, answered res begun, s') =
          do_all_write_lem face paddr_top beat addr n size id burst mask bound begun s (
            with_status beat addr n size id burst mask bound n w wait_back (w.left_time)
              (h.collected))
          ∙ rw writes refl in
        let shows : WriteOut → ℕ → WriteOut = λ o i. record o {
          bvalid = true;
          bresp = if res then resp_okey else resp_decerr;
          bid = i;
        } in
        (
          answered res begun,
          ground (arith, h.status, h.left_time, all),
          refl,
          ap₂ shows (h.out) (h.collected.id_kept),
        )

  -- The answer waits for the CPU, and then the channel is idle.
  pub answer_phase :
      (cycles : List Pins) (ready : Pins) (w : WriteState) (sim : SimStatus) (s : S)
      (out : WriteOut)
      → NoneReady cycles
      → ready.bready ≡ true
      → w.status ≡ wait_back
      → w.out ≡ out
      → (w' : WriteState) × Leads face paddr_top random
          (cycles ++ (ready ∷ []))
          w
          sim
          s
          (replicate (length cycles) out ++ (idle_out ∷ []))
          w'
          sim
          s
        × (w'.status ≡ idel)
        × (w'.out ≡ idle_out)
  unfolding idel_wait_write
  answer_phase [] ready w sim s out none takes status shows =
      let w' = idel_wait_write (record w { status = idel }) in
      (
        w',
        Leads-cons face paddr_top random ready [] w w' w' sim sim sim s s s true idle_out []
            (eval_end ready w sim s status takes) refl (Leads-nil face paddr_top random w' sim s),
        refl,
        refl,
      )
  answer_phase (p ∷ cycles) ready w sim s out (busy, none) takes status shows =
      let (w', leads, idle, shown) =
        answer_phase cycles ready w sim s out none takes status shows in
      (
        w',
        Leads-cons face paddr_top random p (cycles ++ (ready ∷ [])) w w w' sim sim sim s s s true
            out (replicate (length cycles) out ++ (idle_out ∷ [])) (eval_held p w sim s status busy)
            shows leads,
        idle,
        shown,
      )
