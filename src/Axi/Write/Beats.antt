-- ===== src/Axi/Write/Beats.antt =====
-- A write burst, beat by beat: what the slave has collected when the last beat is in.
use my_diff.Base.{
  ℕ, zero, suc, ◌+◌, ◌-◌, ◌%◌, ◌^◌, ◌≤◌, ◌<◌, ◌≡◌, refl, sym, ap, ◌∙◌, false, not, length,
  get_elem?, set, length-set, get_elem?-set_self, get_elem?-set_ne, some, arith, ◌==◌,
  if◌then◌else◌, u8, Outcome, done, ◌>>=◌,
}
use my_diff.Axi.Write.Arrays.{store_at-done, update_info-done, extended, in_range}
use native.Mathlib.Decide.{ℕ_discrete}
use my_diff.Paddr.{Wen}
use my_diff.Axi.{Pins, SimStatus, assert_sim, Burst, next_addr}
use my_diff.Axi.Read.{rand_delay}
use my_diff.Axi.Write.{WriteState, accept_write_data, last_data, more_data, with_size, with_wstrb}

-- The first `k` beats of the stream `beat`.
pub write_beats : (ℕ → Pins) → ℕ → ℕ → WriteState → SimStatus → Outcome (WriteState × SimStatus)
write_beats beat random zero w sim = done (w, sim)
write_beats beat random (suc k) w sim = do
  (w', sim') ← write_beats beat random k w sim
  accept_write_data (beat k) random w' sim'

-- The access that beat `i` makes.
abbrev pub beat_info : (ℕ → Pins) → ℕ → ℕ → Wen
beat_info beat size i = record { size = size; wstrb = (beat i).wstrb % 2 ^ 4 }

-- The checks of beat `k` of a burst of `n` beats: its id, and `wlast` on the last beat only.
abbrev pub checks : (ℕ → Pins) → ℕ → ℕ → ℕ → SimStatus → SimStatus
checks beat n id k sim =
    assert_sim (if k + 1 == n then (beat k).wlast else not (beat k).wlast)
      (assert_sim ((beat k).wid == id) sim)

-- `sim_status` after the first `k` beats.
abbrev pub checked : (ℕ → Pins) → ℕ → ℕ → ℕ → SimStatus → SimStatus
checked beat n id zero sim = sim
checked beat n id (suc k) sim = checks beat n id k (checked beat n id k sim)

module _ (beat : ℕ → Pins) (addr : ℕ → ℕ) (n size id : ℕ) (burst : Burst) (mask bound : ℕ) where
  -- After `k` of `n` beats.
  pub record Collected (k : ℕ) (w : WriteState) : Type 0 where
    pub count : w.burst_count ≡ n
    pub number : w.cur_no ≡ k
    pub id_kept : w.cur_id ≡ id
    pub burst_kept : w.burst_type ≡ burst
    pub mask_kept : w.wrap_off_mask ≡ mask
    pub bound_kept : w.wrap_bound ≡ bound
    pub addrs : length w.cur_addr ≡ 16
    pub infos : length w.cur_info ≡ 16
    pub words : length w.cur_data ≡ 16
    pub addr_at : (i : ℕ) → i ≤ k → i < n → get_elem? w.cur_addr i ≡ some (addr i)
    pub info_at : (i : ℕ) → i < k → get_elem? w.cur_info i ≡ some (beat_info beat size i)
    pub size_at :
        (i : ℕ)
        → i ≡ k
        → i < n
        → (wstrb : ℕ) × (get_elem? w.cur_info i ≡ some (record { size = size; wstrb = wstrb }))
    pub word_at : (i : ℕ) → i < k → get_elem? w.cur_data i ≡ some (beat i).wdata

  -- Between the two halves of a beat: the data are stored, the next address is not.
  record Half (k : ℕ) (w : WriteState) : Type 0 where
    count : w.burst_count ≡ n
    number : w.cur_no ≡ k + 1
    id_kept : w.cur_id ≡ id
    burst_kept : w.burst_type ≡ burst
    mask_kept : w.wrap_off_mask ≡ mask
    bound_kept : w.wrap_bound ≡ bound
    addrs : length w.cur_addr ≡ 16
    infos : length w.cur_info ≡ 16
    words : length w.cur_data ≡ 16
    addr_at : (i : ℕ) → i < suc k → i < n → get_elem? w.cur_addr i ≡ some (addr i)
    info_at : (i : ℕ) → i < suc k → get_elem? w.cur_info i ≡ some (beat_info beat size i)
    word_at : (i : ℕ) → i < suc k → get_elem? w.cur_data i ≡ some (beat i).wdata

  -- The state once the data of beat `k` are stored.
  abbrev halfway : ℕ → ℕ → WriteState → WriteState
  halfway k wstrb w = record w {
    cur_data = set w.cur_data w.cur_no (beat k).wdata;
    cur_info =
        set w.cur_info w.cur_no (with_wstrb (record { size = size; wstrb = wstrb }) (beat k).wstrb);
    cur_no = u8 (w.cur_no + 1);
  }

  halfway-Half :
      (k wstrb : ℕ) (w : WriteState) → k < 16 → Collected k w → Half k (halfway k wstrb w)
  halfway-Half k wstrb w lt c = record {
    count = c.count;
    number = omega (arith, c.number);
    id_kept = c.id_kept;
    burst_kept = c.burst_kept;
    mask_kept = c.mask_kept;
    bound_kept = c.bound_kept;
    addrs = c.addrs;
    infos = length-set _ _ _ ∙ c.infos;
    words = length-set _ _ _ ∙ c.words;
    addr_at = λ i p. c.addr_at i (omega arith);
    info_at =
        rw (c.number)
          (extended (beat_info beat size) w.cur_info k _ (omega (arith, c.infos)) c.info_at refl);
    word_at =
        rw (c.number)
          (extended (λ i. (beat i).wdata) w.cur_data k _ (omega (arith, c.words)) c.word_at refl);
  }

  -- The state after the last beat, and after any other.
  abbrev ended : ℕ → WriteState → WriteState
  ended random w = record w {
    out = record (w.out) { wready = false };
    left_time = u8 (rand_delay random);
  }

  abbrev moved : ℕ → ℕ → WriteState → WriteState
  moved k wstrb w = record w {
    cur_info = set w.cur_info w.cur_no (with_size (record { size = 0; wstrb = wstrb }) size);
    cur_addr = set w.cur_addr w.cur_no (addr (k + 1));
  }

  ended-Collected :
      (k random : ℕ) (w : WriteState) → k + 1 ≡ n → Half k w → Collected (suc k) (ended random w)
  ended-Collected k random w last h = record {
    count = h.count;
    number = omega (arith, h.number);
    id_kept = h.id_kept;
    burst_kept = h.burst_kept;
    mask_kept = h.mask_kept;
    bound_kept = h.bound_kept;
    addrs = h.addrs;
    infos = h.infos;
    words = h.words;
    addr_at = λ i p q. h.addr_at i (omega arith) q;
    info_at = h.info_at;
    size_at = λ i p q. absurd (omega arith);
    word_at = h.word_at;
  }

  moved-Collected :
      (k wstrb : ℕ) (w : WriteState)
      → k + 1 < n
      → n ≤ 16
      → size < 16
      → Half k w
      → Collected (suc k) (moved k wstrb w)
  moved-Collected k wstrb w more fits small h = record {
    count = h.count;
    number = omega (arith, h.number);
    id_kept = h.id_kept;
    burst_kept = h.burst_kept;
    mask_kept = h.mask_kept;
    bound_kept = h.bound_kept;
    addrs = length-set _ _ _ ∙ h.addrs;
    infos = length-set _ _ _ ∙ h.infos;
    words = h.words;
    addr_at = λ i p q. rw (h.number) (elim (ℕ_discrete i (k + 1)) [
      | yes same ↦ rw (same) (get_elem?-set_self w.cur_addr (k + 1) _ (omega (arith, h.addrs)))
      | no other ↦
          get_elem?-set_ne w.cur_addr (k + 1) i _ (λ e. other (sym e)) ∙ h.addr_at i (omega arith) q
    ]);
    info_at = λ i p.
        rw (h.number)
          (get_elem?-set_ne w.cur_info (k + 1) i _ (λ e. absurd (omega arith)) ∙ h.info_at i p);
    size_at = λ i p q.
        let e : k + 1 ≡ suc k = omega arith in
        (
          wstrb,
          rw
              (
                h.number,
                p,
                sym e,
                get_elem?-set_self w.cur_info (k + 1)
                    (with_size (record { size = 0; wstrb = wstrb }) size) (omega (arith, h.infos)),
              )
              (ap (λ z. some (record { size = z; wstrb = wstrb })) {x = size % 16} {y = size}
                (omega (arith, small))),
        );
    word_at = h.word_at;
  }

  -- What becomes of the outputs: they stay until the last beat, which ends `wready` and sets the delay.
  pub record Outputs (k random : ℕ) (w w' : WriteState) : Type 0 where
    pub more : k + 1 < n → w'.out ≡ w.out
    pub last :
        k + 1 ≡ n
        → (w'.out ≡ record (w.out) { wready = false }) × (w'.left_time ≡ rand_delay random)

  -- What a beat leaves, and that it returns.
  unfoldable pub Accepted : ℕ → ℕ → WriteState → SimStatus → Type 0
  Accepted k random w sim =
      (w' : WriteState) × (accept_write_data (beat k) random w sim
        ≡ done (w', checks beat n id k sim))
      × Collected (suc k) w'
      × Outputs k random w w'

  accept_last :
      (k random : ℕ) (w : WriteState) (sim : SimStatus)
      → k + 1 ≡ n
      → n ≤ 16
      → Collected k w
      → Accepted k random w sim
  unfolding accept_write_data last_data Accepted
  accept_last k random w sim last fits c =
      let (wstrb, at) = c.size_at w.cur_no c.number (omega (arith, c.number)) in
      let half = halfway-Half k wstrb w (omega arith) c in
      (
        ended random (halfway k wstrb w),
        rw
            (
              store_at-done w.cur_data w.cur_no (beat k).wdata (omega (arith, c.words, c.number)),
              update_info-done w.cur_info w.cur_no _ _ at,
            )
            (ground (arith, c.number, c.count, c.id_kept)),
        ended-Collected k random _ last half,
        record { more = λ m. absurd (omega arith); last = λ e. (refl, omega arith) },
      )

  -- The address of each beat but the first comes from the one before it.
  abbrev pub Follows : Type 0
  Follows = (i : ℕ) → i + 1 < n → next_addr burst mask bound size (addr i) ≡ done (addr (i + 1))

  accept_more :
      (k random : ℕ) (w : WriteState) (sim : SimStatus)
      → k + 1 < n
      → n ≤ 16
      → size < 16
      → Follows
      → Collected k w
      → Accepted k random w sim
  unfolding accept_write_data more_data Accepted
  accept_more k random w sim more fits small follows c =
      let (wstrb, at) = c.size_at w.cur_no c.number (omega (arith, c.number)) in
      let half = halfway-Half k wstrb w (omega arith) c in
      let (old, next_at) =
        in_range (halfway k wstrb w).cur_info (k + 1) (omega (arith, half.infos)) in
      let back : k + 1 - 1 ≡ k = omega arith in
      let open_still : (k + 1 == n) ≡ false = ground arith in
      (
        moved k old.wstrb (halfway k wstrb w),
        rw
            (
              store_at-done w.cur_data w.cur_no (beat k).wdata (omega (arith, c.words, c.number)),
              update_info-done w.cur_info w.cur_no _ _ at,
              half.number,
              c.count,
              open_still,
              back,
              half.addr_at k (omega arith) (omega arith),
              half.info_at k (omega arith),
              update_info-done _ (k + 1) (λ info. with_size info size) old next_at,
              c.burst_kept,
              c.mask_kept,
              c.bound_kept,
              follows k more,
              store_at-done w.cur_addr (k + 1) (addr (k + 1)) (omega (arith, half.addrs)),
            )
            (ground (arith, c.id_kept)),
        moved-Collected k old.wstrb _ more fits small half,
        record { more = λ m. refl; last = λ e. absurd (omega arith) },
      )

  pub accept :
      (k random : ℕ) (w : WriteState) (sim : SimStatus)
      → k < n
      → n ≤ 16
      → size < 16
      → Follows
      → Collected k w
      → Accepted k random w sim
  accept k random w sim lt fits small follows c = elim (ℕ_discrete (k + 1) n) [
    | yes last ↦ accept_last k random w sim last fits c
    | no other ↦ accept_more k random w sim (omega arith) fits small follows c
  ]

  pub write_beats-Collected :
      (k random : ℕ) (w : WriteState) (sim : SimStatus)
      → k ≤ n
      → n ≤ 16
      → size < 16
      → Follows
      → Collected 0 w
      → (w' : WriteState) × (write_beats beat random k w sim ≡ done (w', checked beat n id k sim))
        × Collected k w'
  unfolding write_beats Accepted
  write_beats-Collected zero random w sim le fits small follows c = (w, refl, c)
  write_beats-Collected (suc k) random w sim le fits small follows c =
      let (w₁, e, c₁) = write_beats-Collected k random w sim (omega arith) fits small follows c in
      let (w₂, e₂, c₂, _) =
        accept k random w₁ (checked beat n id k sim) (omega arith) fits small follows c₁ in
      (w₂, rw (e, e₂) refl, c₂)
