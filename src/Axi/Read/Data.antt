-- ===== src/Axi/Read/Data.antt =====
-- The data of an incrementing read burst: what the slave puts on the channel, cycle by cycle.
use native.Mathlib.Nat.{mul-le-mul_right}
use my_diff.Base.{
  ℕ, zero, suc, ◌+◌, ◌*◌, ◌^◌, ◌≤◌, ◌<◌, ◌≡◌, refl, ◌∙◌, Bool, true, false, List, [], ◌∷◌, length,
  arith, ◌==◌, u8, u32, Outcome, done, ◌>>=◌,
}
use my_diff.Paddr.{Wen, PaddrInterface, PaddrTop}
use my_diff.Paddr
use my_diff.Axi.{Pins, SimStatus, incr, resp_okey, next_addr}
use my_diff.Axi.Read.{
  idel, wait_last, ReadState, ReadOut, idel_wait_read, present, do_once_read, read_eval,
}
use my_diff.Axi.Read.Beats.{AllReady}

add_one_mul : (i size : ℕ) → (i + 1) * size ≡ i * size + size
add_one_mul i size = grind arith

-- The channel when it is idle, and while a request waits.
abbrev pub idle_out : ReadOut
idle_out = record { arready = true; rid = 0; rdata = 0; rresp = 0; rlast = false; rvalid = false }

abbrev pub waiting_out : ReadOut
waiting_out = record idle_out { arready = false }

-- A beat that shows a word.
abbrev pub beat_out : ℕ → ℕ → Bool → ReadOut
beat_out id word last = record {
  arready = false;
  rid = id;
  rdata = word;
  rresp = resp_okey;
  rlast = last;
  rvalid = true;
}

-- The beats from number `i` on: `c` of them, one more that is the last, and the idle channel.
unfoldable pub burst_outs : ℕ → (ℕ → ℕ) → ℕ → ℕ → List ReadOut
burst_outs id words i zero = beat_out id (words i) true ∷ idle_out ∷ []
burst_outs id words i (suc c) = beat_out id (words i) false ∷ burst_outs id words (i + 1) c

module _ {D S : Type 0} (face : PaddrInterface D S) (paddr_top : PaddrTop D) (random : ℕ) where
  -- The cycles of the main loop, with the outputs after each.
  unfoldable pub read_outputs :
      List Pins → ReadState → SimStatus → S → Outcome (List ReadOut × ReadState × SimStatus × S)
  read_outputs [] r sim s = done ([], r, sim, s)
  read_outputs (pins ∷ cycles) r sim s = do
    (res, r', sim', s') ← read_eval face paddr_top pins r.out.rlast random r sim s
    (shown, r'', sim'', s'') ← read_outputs cycles r' sim' s'
    done (r'.out ∷ shown, r'', sim'', s'')

  -- The cycles that end with an idle channel, the memory as it was, and these outputs and status.
  unfoldable pub Shows : S → List Pins → ReadState → SimStatus → List ReadOut → SimStatus → Type 0
  Shows s cycles r sim shown end =
      (r' : ReadState) × (read_outputs cycles r sim s ≡ done (shown, r', end, s))
      × (r'.status ≡ idel)
      × (r'.out ≡ idle_out)

  pub Shows-cons :
      (pins : Pins) (cycles : List Pins) (r r' : ReadState) (sim sim' end : SimStatus) (s : S)
      (shown : List ReadOut)
      → read_eval face paddr_top pins r.out.rlast random r sim s ≡ done (true, r', sim', s)
      → Shows s cycles r' sim' shown end
      → Shows s (pins ∷ cycles) r sim (r'.out ∷ shown) end
  unfolding Shows read_outputs
  Shows-cons pins cycles r r' sim sim' end s shown now (last, rest, st, out) =
      (last, rw (now, rest) refl, st, out)

  Shows-nil :
      (r : ReadState) (sim : SimStatus) (s : S)
      → r.status ≡ idel
      → r.out ≡ idle_out
      → Shows s [] r sim [] sim
  unfolding Shows read_outputs
  Shows-nil r sim s idle out = (r, refl, idle, out)

  -- Beat `i` of a burst from `start` on reads word `i`, for `n` beats, into any word of 32 bits.
  abbrev pub Serves : ℕ → Wen → (ℕ → ℕ) → ℕ → S → Type 0
  Serves start info words n s =
      (i word : ℕ)
      → i < n
      → word < 2 ^ 32
      → Paddr.do_read face paddr_top (start + i * info.size) info word s ≡ done (true, words i, s)

  -- The burst under way: `i` beats have been presented, `c` is the count.
  abbrev pub under_way : ReadState → ℕ → ℕ → ℕ → ReadOut → ReadState
  under_way base start i c out = record base {
    status = wait_last;
    burst_count = c;
    cur_addr = start + i * base.cur_info.size;
    out = out;
  }

  module _ (base : ReadState) (start n : ℕ) (words : ℕ → ℕ) (s : S) (kind : base.burst_type ≡ incr)
      (fits : start + n * base.cur_info.size < 2 ^ 32)
      (bounded : (i : ℕ) → i + 1 < n → words i < 2 ^ 32)
      (serves : Serves start base.cur_info words n s) where
    pub one_beat :
        (i c : ℕ) (out : ReadOut)
        → i < n
        → out.arready ≡ false
        → out.rdata < 2 ^ 32
        → do_once_read face paddr_top (under_way base start i c out) s
          ≡ done (
            true,
            under_way base start (i + 1) (u8 (c + 255)) (beat_out base.cur_id (words i) (c == 0)),
            s,
          )
    unfolding do_once_read next_addr present
    one_beat i c out below held word =
        let size = base.cur_info.size in
        let one_more : (i + 1) * size ≡ i * size + size = add_one_mul i size in
        let within : (i + 1) * size ≤ n * size = mul-le-mul_right size (omega arith) in
        let step : u32 (start + i * size + size) ≡ start + (i + 1) * size = omega arith in
        rw (serves i out.rdata below word, kind, step, held) refl

    eval_beat :
        (pins : Pins) (i c : ℕ) (out : ReadOut) (sim : SimStatus)
        → i < n
        → out.arready ≡ false
        → out.rdata < 2 ^ 32
        → out.rlast ≡ false
        → read_eval face paddr_top pins out.rlast random (under_way base start i c out) sim s
          ≡ done (
            true,
            under_way base start (i + 1) (u8 (c + 255)) (beat_out base.cur_id (words i) (c == 0)),
            sim,
            s,
          )
    unfolding read_eval
    eval_beat pins i c out sim below held word more =
        ground (arith, one_beat i c out below held word)

    eval_last :
        (pins : Pins) (i c word : ℕ) (sim : SimStatus)
        → pins.rready ≡ true
        → read_eval face paddr_top pins true random
            (under_way base start i c (beat_out base.cur_id word true))
            sim
            s
          ≡ done (true, record (under_way base start i c idle_out) { status = idel }, sim, s)
    unfolding read_eval idel_wait_read
    eval_last pins i c word sim ready = ground arith

    pub beats_from :
        (c i : ℕ) (cycles : List Pins) (out : ReadOut) (sim : SimStatus)
        → i + c < n
        → c < 256
        → length cycles ≡ c + 2
        → AllReady cycles
        → out.arready ≡ false
        → out.rdata < 2 ^ 32
        → out.rlast ≡ false
        → Shows s cycles (under_way base start i c out) sim (burst_outs base.cur_id words i c) sim
    unfolding burst_outs
    beats_from c i [] out sim below small len ready held word more = absurd (omega arith)
    beats_from zero i (p ∷ []) out sim below small len ready held word more = absurd (omega arith)
    beats_from zero i (p ∷ q ∷ []) out sim below small len ready held word more =
        Shows-cons p (q ∷ []) (under_way base start i 0 out)
          (under_way base start (i + 1) 255 (beat_out base.cur_id (words i) true)) sim sim sim s
          (idle_out ∷ []) (eval_beat p i 0 out sim (omega arith) held word more)
          (Shows-cons q [] (under_way base start (i + 1) 255 (beat_out base.cur_id (words i) true))
            (record (under_way base start (i + 1) 255 idle_out) { status = idel }) sim sim sim s []
            (eval_last q (i + 1) 255 (words i) sim ready.1.0) (Shows-nil _ sim s refl refl))
    beats_from zero i (p ∷ q ∷ x ∷ cycles) out sim below small len ready held word more =
        absurd (omega arith)
    beats_from (suc c) i (p ∷ cycles) out sim below small len ready held word more =
        let rest =
          beats_from c (i + 1) cycles (beat_out base.cur_id (words i) false) sim (omega arith)
            (omega arith) (omega arith) ready.1 refl (bounded i (omega arith)) refl in
        let next : u8 (suc c + 255) ≡ c = omega arith in
        let more_left : (suc c == 0) ≡ false = ground arith in
        Shows-cons p cycles (under_way base start i (suc c) out)
          (under_way base start (i + 1) c (beat_out base.cur_id (words i) false)) sim sim sim s
          (burst_outs base.cur_id words (i + 1) c)
          (eval_beat p i (suc c) out sim (omega arith) held word more ∙ rw (next, more_left) refl)
          rest
