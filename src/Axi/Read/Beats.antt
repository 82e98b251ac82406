-- ===== src/Axi/Read/Beats.antt =====
-- A read burst from its first beat on, cycle by cycle.
use my_diff.Base.{
  ℕ, zero, suc, ◌+◌, ◌<◌, ◌≡◌, ◌≢◌, refl, ap, ap₂, ◌∙◌, Bool, true, false, List, [], ◌∷◌, ◌++◌,
  length, replicate, arith, ◌==◌, u8, Outcome, done, ◌>>=◌,
}
use my_diff.Paddr.{Wen, PaddrInterface, PaddrTop}
use my_diff.Paddr
use my_diff.Axi.{Pins, SimStatus, Burst, fixed, incr, wrap, reserved, next_addr}
use my_diff.Axi.Read.{idel, wait_last, ReadState, idel_wait_read, present, do_once_read, read_eval}

-- `s_rvalid` and `s_rlast` after a cycle.
abbrev pub flags : ReadState → Bool × Bool
flags r = (r.out.rvalid, r.out.rlast)

-- The CPU takes every beat.
abbrev pub AllReady : List Pins → Type 0
AllReady [] = Unit {0}
AllReady (p ∷ ps) = (p.rready ≡ true) × AllReady ps

pub AllReady-replicate : (n : ℕ) (p : Pins) → p.rready ≡ true → AllReady (replicate n p)
AllReady-replicate zero p ready = tt
AllReady-replicate (suc n) p ready = (ready, AllReady-replicate n p ready)

module _ {D S : Type 0} (face : PaddrInterface D S) (paddr_top : PaddrTop D) (random : ℕ) where
  -- The cycles of the main loop, of which each ends with `update_output`: so the pin `rlast` shows
  -- the last `s_rlast`. The flags are those after each cycle.
  pub read_cycles :
      List Pins → ReadState → SimStatus → S → Outcome (List (Bool × Bool) × ReadState × S)
  read_cycles [] r sim s = done ([], r, s)
  read_cycles (pins ∷ cycles) r sim s = do
    (res, r', sim', s') ← read_eval face paddr_top pins r.out.rlast random r sim s
    (shown, r'', s'') ← read_cycles cycles r' sim' s'
    done (flags r' ∷ shown, r'', s'')

  -- The devices answer the burst of `r`: where `On` holds of an address and a memory, a read returns,
  -- be it true or false, and `On` holds of the burst's next address and the memory after the read.
  abbrev pub Answers : (ℕ → S → Type 0) → ReadState → Type 0
  Answers On r =
      (addr word : ℕ) (s : S)
      → On addr s
      → (reply : Bool × ℕ × S) × (Paddr.do_read face paddr_top addr r.cur_info word s ≡ done reply)
        × ((next : ℕ)
            → next_addr r.burst_type r.wrap_off_mask r.wrap_bound r.cur_info.size addr ≡ done next
            → On next reply.2)

  module _ (On : ℕ → S → Type 0) where
    -- The beats of `r` can be read, from its address on.
    pub record Able (r : ReadState) (s : S) : Type 0 where
      pub answers : Answers On r
      pub on : On r.cur_addr s
      pub known : r.burst_type ≢ reserved

    -- One beat has been presented.
    pub record Beat (r : ReadState) (result : Outcome (Bool × ReadState × S)) : Type 0 where
      pub res : Bool
      pub r' : ReadState
      pub s' : S
      pub returns : result ≡ done (res, r', s')
      pub status : r'.status ≡ r.status
      pub count : r'.burst_count ≡ u8 (r.burst_count + 255)
      pub rvalid : r'.out.rvalid ≡ true
      pub rlast : r'.out.rlast ≡ (r.burst_count == 0)
      pub able : Able r' s'

    next_addr-done :
        (b : Burst) (mask bound size addr : ℕ)
        → b ≢ reserved
        → (a : ℕ) × (next_addr b mask bound size addr ≡ done a)
    unfolding next_addr
    next_addr-done fixed mask bound size addr known = (_, refl)
    next_addr-done incr mask bound size addr known = (_, refl)
    next_addr-done wrap mask bound size addr known = (_, refl)
    next_addr-done reserved mask bound size addr known = absurd (known refl)

    pub do_once_read-Beat :
        (r : ReadState) (s : S) → Able r s → Beat r (do_once_read face paddr_top r s)
    unfolding do_once_read
    do_once_read-Beat r s h =
        let (reply, e, on) = h.answers r.cur_addr r.out.rdata s h.on in
        let (addr, f) =
          next_addr-done r.burst_type r.wrap_off_mask r.wrap_bound r.cur_info.size r.cur_addr
            h.known in
        record {
          res = reply.0;
          r' = present r reply.0 reply.1 addr;
          s' = reply.2;
          returns = rw (e, f);
          status = refl;
          count = refl;
          rvalid = refl;
          rlast = refl;
          able = record { answers = h.answers; on = on addr f; known = h.known };
        }

    -- A burst under way, with `c` beats to go before the last one.
    pub record Streaming (c : ℕ) (r : ReadState) (s : S) : Type 0 where
      pub status : r.status ≡ wait_last
      pub rlast : r.out.rlast ≡ false
      pub count : r.burst_count ≡ c
      pub small : c < 256
      pub able : Able r s

    eval_streaming :
        (pins : Pins) (r : ReadState) (sim : SimStatus) (s : S)
        (b : Beat r (do_once_read face paddr_top r s))
        → r.status ≡ wait_last
        → r.out.rlast ≡ false
        → read_eval face paddr_top pins r.out.rlast random r sim s ≡ done (b.res, b.r', sim, b.s')
    unfolding read_eval
    eval_streaming pins r sim s b st last = ground (arith, b.returns)

    eval_last :
        (pins : Pins) (r : ReadState) (sim : SimStatus) (s : S)
        → pins.rready ≡ true
        → r.status ≡ wait_last
        → r.out.rlast ≡ true
        → read_eval face paddr_top pins r.out.rlast random r sim s
          ≡ done (true, idel_wait_read (record r { status = idel }), sim, s)
    unfolding read_eval
    eval_last pins r sim s ready st last = ground arith

    -- What remains to be seen of a burst: `c` beats, the last one, and the idle channel.
    abbrev pub Ends : List Pins → ReadState → SimStatus → S → List (Bool × Bool) → Type 0
    Ends cycles r sim s shown =
        (r' : ReadState) × (s' : S) × (read_cycles cycles r sim s ≡ done (shown, r', s'))
        × (r'.status ≡ idel)

    Streaming-next :
        (c : ℕ) (r : ReadState) (s : S)
        → Streaming (suc c) r s
        → (b : Beat r (do_once_read face paddr_top r s)) → Streaming c b.r' b.s'
    Streaming-next c r s h b = record {
      status = b.status ∙ h.status;
      rlast = b.rlast ∙ ground (arith, h.count);
      count = omega (arith, b.count, h.count, h.small);
      small = omega (arith, h.small);
      able = b.able;
    }

    pub cycle :
        (pins : Pins) (cycles : List Pins) (r : ReadState) {r₁ : ReadState} (sim : SimStatus)
        (s : S) {sim₁ : SimStatus} {s₁ : S} {res : Bool} {f : Bool × Bool}
        {shown : List (Bool × Bool)}
        → read_eval face paddr_top pins r.out.rlast random r sim s ≡ done (res, r₁, sim₁, s₁)
        → flags r₁ ≡ f
        → Ends cycles r₁ sim₁ s₁ shown
        → Ends (pins ∷ cycles) r sim s (f ∷ shown)
    unfolding read_cycles
    cycle pins cycles r sim s {shown = shown} e shows (r', s', rest, st) =
        (r', s', rw (e, rest) (ap (λ f. done (f ∷ shown, r', s')) shows), st)

    last_cycle :
        (pins : Pins) (r : ReadState) (sim : SimStatus) (s : S)
        → pins.rready ≡ true
        → r.status ≡ wait_last
        → r.out.rlast ≡ true
        → Ends (pins ∷ []) r sim s ((false, false) ∷ [])
    unfolding read_cycles idel_wait_read
    last_cycle pins r sim s ready st last =
        let r₁ = idel_wait_read (record r { status = idel }) in
        cycle pins [] r sim s (eval_last pins r sim s ready st last) refl (r₁, s, refl, refl)

    pub beats_phase :
        (c : ℕ) (cycles : List Pins) (r : ReadState) (sim : SimStatus) (s : S)
        → length cycles ≡ c + 2
        → AllReady cycles
        → Streaming c r s
        → Ends cycles r sim s (replicate c (true, false) ++ ((true, true) ∷ (false, false) ∷ []))
    unfolding read_cycles
    beats_phase c [] r sim s len ready h = absurd (omega arith)
    beats_phase zero (p ∷ []) r sim s len ready h = absurd (omega arith)
    beats_phase zero (p ∷ q ∷ []) r sim s len ready h =
        let b = do_once_read-Beat r s h.able in
        let last = b.rlast ∙ ap (λ c. c == 0) h.count in
        cycle p (q ∷ []) r sim s (eval_streaming p r sim s b h.status h.rlast)
          (ap₂ (λ v l. (v, l)) b.rvalid last)
          (last_cycle q b.r' sim b.s' ready.1.0 (b.status ∙ h.status) last)
    beats_phase zero (p ∷ q ∷ x ∷ cycles) r sim s len ready h = absurd (omega arith)
    beats_phase (suc c) (p ∷ cycles) r sim s len ready h =
        let b = do_once_read-Beat r s h.able in
        let next = Streaming-next c r s h b in
        cycle p cycles r sim s (eval_streaming p r sim s b h.status h.rlast)
          (ap₂ (λ v l. (v, l)) b.rvalid next.rlast)
          (beats_phase c cycles b.r' sim b.s' (omega arith) ready.1 next)
