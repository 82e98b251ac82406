-- ===== src/Axi/Write/Issue.antt =====
-- `do_all_write`: the writes of a burst whose beats have been collected.
use my_diff.Base.{
  ℕ, zero, suc, ◌+◌, ◌≡◌, refl, ap, ◌∙◌, Bool, true, false, ◌&&◌, arith, if◌then◌else◌, Outcome,
  done, aborted, fault, ◌>>=◌, bind_through,
}
use my_diff.Paddr.{Wen, PaddrInterface, PaddrTop}
use my_diff.Paddr
use my_diff.Axi.{Pins, Burst, resp_okey, resp_decerr}
use my_diff.Axi.Write.{WriteState, write_entries, do_all_write}
use my_diff.Axi.Write.Beats.{beat_info, Collected}

-- What the slave answers once the writes are done.
abbrev pub answered : Bool → WriteState → WriteState
answered res w = record w {
  out = record (w.out) {
    bvalid = true;
    bresp = if res then resp_okey else resp_decerr;
    bid = w.cur_id;
  };
}

module _ {D S : Type 0} (face : PaddrInterface D S) (paddr_top : PaddrTop D) where
  -- `left` writes from beat `i` on, each at its address, one after another whatever they answer.
  unfoldable pub bus_writes : (ℕ → ℕ) → (ℕ → Pins) → ℕ → ℕ → ℕ → S → Outcome (Bool × S)
  bus_writes addr beat size zero i s = done (true, s)
  bus_writes addr beat size (suc left) i s = do
    (ok, s') ← Paddr.do_write face paddr_top (addr i) (beat_info beat size i) (beat i).wdata s
    (rest, s'') ← bus_writes addr beat size left (i + 1) s'
    done (ok && rest, s'')

  abbrev and_then : Bool → Bool × S → Outcome (Bool × S)
  and_then res (rest, s) = done (res && rest, s)

  gather :
      (o : Outcome (Bool × S)) (res ok : Bool)
      → (o >>= and_then (res && ok)) ≡ ((o >>= and_then ok) >>= and_then res)
  gather (done (true, s)) res ok = ground arith
  gather (done (false, s)) res ok = ground arith
  gather aborted res ok = refl
  gather fault res ok = refl

  write_entries_lem :
      (beat : ℕ → Pins) (addr : ℕ → ℕ) (n size id : ℕ) (burst : Burst) (mask bound : ℕ) (left i : ℕ)
      (w : WriteState) (res : Bool) (s : S)
      → left + i ≡ n
      → Collected beat addr n size id burst mask bound n w
      → write_entries face paddr_top left i w res s
        ≡ (bus_writes addr beat size left i s >>= and_then res)
  unfolding write_entries bus_writes
  write_entries_lem beat addr n size id burst mask bound zero i w res s sum c = ground arith
  write_entries_lem beat addr n size id burst mask bound (suc left) i w res s sum c =
      rw
        (
          c.addr_at i (omega arith) (omega arith),
          c.info_at i (omega arith),
          c.word_at i (omega arith),
        )
        (bind_through
          (Paddr.do_write face paddr_top (addr i) (beat_info beat size i) (beat i).wdata s)
          (λ (ok, s'). write_entries face paddr_top left (i + 1) w (res && ok) s')
          (λ (ok, s'). bus_writes addr beat size left (i + 1) s' >>= and_then ok) (and_then res)
          (λ (ok, s').
            write_entries_lem beat addr n size id burst mask bound left (i + 1) w (res && ok) s'
              (omega arith) c
            ∙ gather (bus_writes addr beat size left (i + 1) s') res ok))

  and_then-true : (o : Outcome (Bool × S)) → (o >>= and_then true) ≡ o
  and_then-true (done x) = refl
  and_then-true aborted = refl
  and_then-true fault = refl

  pub do_all_write_lem :
      (beat : ℕ → Pins) (addr : ℕ → ℕ) (n size id : ℕ) (burst : Burst) (mask bound : ℕ)
      (w : WriteState) (s : S)
      → Collected beat addr n size id burst mask bound n w
      → do_all_write face paddr_top w s
        ≡ (bus_writes addr beat size n 0 s >>= λ (res, s'). done (res, answered res w, s'))
  unfolding do_all_write
  do_all_write_lem beat addr n size id burst mask bound w s c =
      let e : write_entries face paddr_top w.burst_count 0 w true s
          ≡ bus_writes addr beat size n 0 s =
        ap (λ left. write_entries face paddr_top left 0 w true s) c.count
        ∙ write_entries_lem beat addr n size id burst mask bound n 0 w true s (omega arith) c
        ∙ and_then-true (bus_writes addr beat size n 0 s) in
      ap (λ (o : Outcome (Bool × S)). o >>= λ (res, s'). done (res, answered res w, s')) e
