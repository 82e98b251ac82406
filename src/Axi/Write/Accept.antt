-- ===== src/Axi/Write/Accept.antt =====
-- `accept_write_req`: the state of the channel after a request.
use native.Mathlib.Nat.{pow-le-pow_right}
use my_diff.Base.{
  ℕ, ◌+◌, ◌%◌, ◌^◌, ◌≤◌, ◌<◌, ◌≡◌, refl, ap, ◌∙◌, true, false, length, set, length-set,
  get_elem?-set_self, some, arith, u8, done,
}
use my_diff.Paddr.{Wen}
use my_diff.Axi.{
  Pins, SimStatus, Burst, fixed, incr, wrap, reserved, of_signal, bytes_of, check_axi_req,
  wrap_mask, wrap_base,
}
use my_diff.Axi.Write.{WriteState, accept_write_req, with_size, set_wrap}
use my_diff.Axi.Write.Arrays.{store_at-done, update_info-done, in_range}
use my_diff.Axi.Write.Beats.{Collected}

-- The channel's arrays have their 16 entries.
pub record IsSized (w : WriteState) : Type 0 where
  pub addrs : length w.cur_addr ≡ 16
  pub infos : length w.cur_info ≡ 16
  pub words : length w.cur_data ≡ 16

-- `set_wrap` sets the mask and the bound of a wrapping burst, and nothing else.
set_wrap_lem :
    (size start : ℕ) (w : WriteState)
    → (mask bound : ℕ) × (set_wrap size start w
        ≡ record w { wrap_off_mask = mask; wrap_bound = bound })
      × (w.burst_type ≡ wrap
          → (mask ≡ wrap_mask w.burst_count size)
            × (bound ≡ wrap_base start (wrap_mask w.burst_count size)))
unfolding set_wrap
set_wrap_lem size start w = of_kind w.burst_type refl
  where
    of_kind :
        (b : Burst)
        → w.burst_type ≡ b
        → (mask bound : ℕ) × (set_wrap size start w
            ≡ record w { wrap_off_mask = mask; wrap_bound = bound })
          × (w.burst_type ≡ wrap
              → (mask ≡ wrap_mask w.burst_count size)
                × (bound ≡ wrap_base start (wrap_mask w.burst_count size)))
    of_kind wrap e = (_, _, rw e refl, λ _. (refl, refl))
    of_kind fixed e = (w.wrap_off_mask, w.wrap_bound, rw e refl, λ f. absurd (ground arith))
    of_kind incr e = (w.wrap_off_mask, w.wrap_bound, rw e refl, λ f. absurd (ground arith))
    of_kind reserved e = (w.wrap_off_mask, w.wrap_bound, rw e refl, λ f. absurd (ground arith))

-- The state after a request.
abbrev requested : Pins → ℕ → ℕ → Wen → WriteState → WriteState
requested request mask bound info w = record w {
  burst_count = request.awlen + 1;
  burst_type = of_signal request.awburst;
  wrap_off_mask = mask;
  wrap_bound = bound;
  cur_no = 0;
  cur_id = request.awid;
  cur_addr = set w.cur_addr 0 request.awaddr;
  cur_info = set w.cur_info 0 (with_size info (2 ^ request.awsize));
  out = record (w.out) { awready = false; wready = true };
}

pub accept_write_req-Collected :
    (request : Pins) (beat : ℕ → Pins) (addr : ℕ → ℕ) (w : WriteState) (sim : SimStatus)
    → IsSized w
    → request.awlen < 16
    → request.awsize ≤ 3
    → addr 0 ≡ request.awaddr
    → let n = request.awlen + 1 in
      let burst = of_signal request.awburst in
      (w₁ : WriteState) × (mask bound : ℕ) × (accept_write_req request w sim
        ≡ done (w₁, check_axi_req (2 ^ request.awsize) burst request.awaddr n sim))
      × Collected beat addr n (2 ^ request.awsize) request.awid burst mask bound 0 w₁
      × (burst ≡ wrap
          → (mask ≡ wrap_mask n request.awsize)
            × (bound ≡ wrap_base request.awaddr (wrap_mask n request.awsize)))
      × (w₁.status ≡ w.status)
      × (w₁.out ≡ record (w.out) { awready = false; wready = true })
unfolding accept_write_req
accept_write_req-Collected request beat addr w sim sized len size start =
    let n = request.awlen + 1 in
    let count : u8 n ≡ n = omega arith in
    let top : 2 ^ request.awsize ≤ 2 ^ 3 = pow-le-pow_right (omega arith) size in
    let bytes : bytes_of request.awsize ≡ 2 ^ request.awsize = omega arith in
    let (info, at) = in_range w.cur_info 0 (omega (arith, sized.infos)) in
    let (mask, bound, sets, kind) =
      set_wrap_lem request.awsize request.awaddr
        (record w { burst_count = u8 n; burst_type = of_signal request.awburst }) in
    (
      requested request mask bound info w,
      mask,
      bound,
      rw
          (
            store_at-done w.cur_addr 0 request.awaddr (omega (arith, sized.addrs)),
            update_info-done w.cur_info 0 (λ info. with_size info (bytes_of request.awsize)) info
                at,
            sets,
            count,
            bytes,
          )
          refl,
      record {
        count = refl;
        number = refl;
        id_kept = refl;
        burst_kept = refl;
        mask_kept = refl;
        bound_kept = refl;
        addrs = length-set _ _ _ ∙ sized.addrs;
        infos = length-set _ _ _ ∙ sized.infos;
        words = sized.words;
        addr_at = λ i p q.
            let e : i ≡ 0 = omega arith in
            rw (e, start)
              (get_elem?-set_self w.cur_addr 0 request.awaddr (omega (arith, sized.addrs)));
        info_at = λ i p. absurd (omega arith);
        size_at = λ i p q. (
          info.wstrb,
          rw p (
                get_elem?-set_self w.cur_info 0 (with_size info (2 ^ request.awsize))
                  (omega (arith, sized.infos)))
              ∙ ap (λ z. some (record { size = z; wstrb = info.wstrb }))
                  {x = 2 ^ request.awsize % 16} {y = 2 ^ request.awsize} (omega arith),
        );
        word_at = λ i p. absurd (omega arith);
      },
      λ e.
          let (m, b) = kind e in
          (
            m ∙ ap (λ c. wrap_mask c request.awsize) count,
            b ∙ ap (λ c. wrap_base request.awaddr (wrap_mask c request.awsize)) count,
          ),
      refl,
      refl,
    )
