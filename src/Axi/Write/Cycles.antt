-- ===== src/Axi/Write/Cycles.antt =====
-- The write channel, cycle by cycle: its outputs, and the phases of a transaction.
use my_diff.Base.{
  ℕ, ◌+◌, ◌<◌, ◌≡◌, refl, Bool, true, false, List, [], ◌∷◌, ◌++◌, if◌then◌else◌, Outcome, done,
  ◌>>=◌,
}
use mathlib.Core.List.{append-nil, append_assoc}
use my_diff.Paddr.{PaddrInterface, PaddrTop}
use my_diff.Axi.{Pins, SimStatus, resp_okey, resp_decerr}
use my_diff.Axi.Write.{WriteState, WriteOut, write_eval}

-- The channel when it is idle, while it takes data, once it has them, and with its answer.
abbrev pub idle_out : WriteOut
idle_out = record { awready = true; wready = false; bid = 0; bresp = 0; bvalid = false }

abbrev pub open_out : WriteOut
open_out = record idle_out { awready = false; wready = true }

abbrev pub closed_out : WriteOut
closed_out = record idle_out { awready = false }

abbrev pub answer_out : ℕ → Bool → WriteOut
answer_out id res = record closed_out {
  bvalid = true;
  bresp = if res then resp_okey else resp_decerr;
  bid = id;
}

-- Cycles in which the CPU sends beats `k` to `m - 1`, and others in which it sends nothing.
pub data Delivers (beat : ℕ → Pins) (m : ℕ) : ℕ → List Pins → Type 0 where
  all_sent : {k : ℕ} → k ≡ m → Delivers beat m k []
  pause :
      {k : ℕ} {pins : Pins} {cycles : List Pins}
      → pins.wvalid ≡ false
      → Delivers beat m k cycles
      → Delivers beat m k (pins ∷ cycles)
  send :
      {k : ℕ} {pins : Pins} {cycles : List Pins}
      → pins ≡ beat k
      → pins.wvalid ≡ true
      → pins.wlast ≡ false
      → k < m
      → Delivers beat m (k + 1) cycles
      → Delivers beat m k (pins ∷ cycles)

-- The CPU does not take the answer.
abbrev pub NoneReady : List Pins → Type 0
NoneReady [] = Unit {0}
NoneReady (p ∷ ps) = (p.bready ≡ false) × NoneReady ps

module _ {D S : Type 0} (face : PaddrInterface D S) (paddr_top : PaddrTop D) (random : ℕ) where
  -- The cycles of the main loop, with the outputs after each.
  unfoldable pub write_outputs :
      List Pins → WriteState → SimStatus → S → Outcome (List WriteOut × WriteState × SimStatus × S)
  write_outputs [] w sim s = done ([], w, sim, s)
  write_outputs (pins ∷ cycles) w sim s = do
    (res, w', sim', s') ← write_eval face paddr_top pins random w sim s
    (shown, w'', sim'', s'') ← write_outputs cycles w' sim' s'
    done (w'.out ∷ shown, w'', sim'', s'')

  -- A run of cycles with these outputs, whatever cycles come after them.
  abbrev pub Leads :
      List Pins → WriteState → SimStatus → S → List WriteOut → WriteState → SimStatus → S → Type 0
  Leads cycles w sim s outs w' sim' s' =
      (more : List Pins) (shown : List WriteOut) (w'' : WriteState) (sim'' : SimStatus) (s'' : S)
      → write_outputs more w' sim' s' ≡ done (shown, w'', sim'', s'')
      → write_outputs (cycles ++ more) w sim s ≡ done (outs ++ shown, w'', sim'', s'')

  pub Leads-nil : (w : WriteState) (sim : SimStatus) (s : S) → Leads [] w sim s [] w sim s
  Leads-nil w sim s more shown w'' sim'' s'' rest = rest

  pub Leads-cons :
      (pins : Pins) (cycles : List Pins) (w w₁ w' : WriteState) (sim sim₁ sim' : SimStatus)
      (s s₁ s' : S) (res : Bool) (out : WriteOut) (outs : List WriteOut)
      → write_eval face paddr_top pins random w sim s ≡ done (res, w₁, sim₁, s₁)
      → w₁.out ≡ out
      → Leads cycles w₁ sim₁ s₁ outs w' sim' s'
      → Leads (pins ∷ cycles) w sim s (out ∷ outs) w' sim' s'
  unfolding write_outputs
  Leads-cons pins cycles w w₁ w' sim sim₁ sim' s s₁ s' res out outs now shows leads more shown w''
        sim'' s'' rest =
      rw (now, leads more shown w'' sim'' s'' rest, shows) refl

  pub Leads-append :
      (cycles₁ cycles₂ : List Pins) (w w₁ w' : WriteState) (sim sim₁ sim' : SimStatus) (s s₁ s' : S)
      (outs₁ outs₂ : List WriteOut)
      → Leads cycles₁ w sim s outs₁ w₁ sim₁ s₁
      → Leads cycles₂ w₁ sim₁ s₁ outs₂ w' sim' s'
      → Leads (cycles₁ ++ cycles₂) w sim s (outs₁ ++ outs₂) w' sim' s'
  Leads-append cycles₁ cycles₂ w w₁ w' sim sim₁ sim' s s₁ s' outs₁ outs₂ first later more shown w''
        sim'' s'' rest =
      rw (append_assoc cycles₁ cycles₂ more, append_assoc outs₁ outs₂ shown)
        (first (cycles₂ ++ more) (outs₂ ++ shown) w'' sim'' s''
          (later more shown w'' sim'' s'' rest))

  pub Leads-returns :
      (cycles : List Pins) (w w' : WriteState) (sim sim' : SimStatus) (s s' : S)
      (outs : List WriteOut)
      → Leads cycles w sim s outs w' sim' s'
      → write_outputs cycles w sim s ≡ done (outs, w', sim', s')
  unfolding write_outputs
  Leads-returns cycles w w' sim sim' s s' outs leads =
      rw (append-nil cycles, append-nil outs) at (leads [] [] w' sim' s' refl)
