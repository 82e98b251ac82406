-- ===== src/Log/Init.antt =====
-- `log_init`, on every size of the ring.
use my_diff.Base.{
  ℕ, suc, ◌+◌, ◌-◌, ◌*◌, ◌≤◌, ◌<◌, ◌≡◌, refl, ap, ◌∙◌, Bool, [], length, Option, arith, done, fault,
  ◌⊎◌, inl, inr,
}
use my_diff.Log.{Log, Label, log_init, lring_print, clear_rows, open_log, announced}
use my_diff.Log.Rows.{clear_rows_lem, clear_rows_overrun, print_rows_lem, rows_fit, last_row_over}

module _ (len nr : ℕ) (fopen : ℕ → Bool) (filename : Option ℕ) (log : Log) where
  log_init_clears :
      (m : ℕ)
      → nr ≡ suc (suc m)
      → length log.lring ≡ len * nr
      → nr ≤ len
      → (log' : Log) × (said : Label) × (log_init len nr fopen filename log ≡ done (log', said))
        × (lring_print len nr log' ≡ done [])
  unfolding log_init lring_print
  log_init_clears m shape size small =
      let in_array =
        λ (j : ℕ) (h : j < 0 + nr). rows_fit len nr j (suc m) shape small (omega (arith, h)) in
      let (lring, ran, same, blank) =
        clear_rows_lem len nr nr 0 log.lring (omega (arith, shape))
          (λ j h. omega (arith, in_array j h, size)) (λ j h. absurd (omega (arith, h))) in
      let log' : Log = record { log_dt = open_log fopen filename; lring = lring; lring_head = 0 } in
      (
        log',
        announced (open_log fopen filename) filename,
        rw ran refl,
        print_rows_lem len nr nr 0 log' refl (λ j h. omega (arith, in_array j h, size, same, shape))
            blank,
      )

  log_init_overrun :
      (m : ℕ)
      → nr ≡ suc (suc m)
      → length log.lring ≡ len * nr
      → len < nr
      → log_init len nr fopen filename log ≡ fault
  unfolding log_init
  log_init_overrun m shape size small =
      let over =
        ap (λ k. clear_rows len nr k 0 log.lring) shape
        ∙ clear_rows_overrun len nr (suc m) 0 log.lring
            (omega (arith, size, last_row_over len nr m shape small)) in
      rw over refl

  compare : (nr ≤ len) ⊎ (len < nr)
  compare = ground arith

  -- Take the array `lring` of `len` rows with `nr` bytes each, for two lines or more. If there are at
  -- most as many lines as a line is long, `log_init` returns and `lring_print` then writes nothing;
  -- else, as with the defaults of 1024 lines of 128 bytes, `log_init` writes outside the array.
  pub log_init_lem :
      1 < nr
      → length log.lring ≡ len * nr
      → ((nr ≤ len)
          × ((log' : Log) × (said : Label) × (log_init len nr fopen filename log
                ≡ done (log', said))
              × (lring_print len nr log' ≡ done [])))
        ⊎ ((len < nr) × (log_init len nr fopen filename log ≡ fault))
  log_init_lem lines size =
      let shape : nr ≡ suc (suc (nr - 2)) = omega arith in
      elim compare [
        | inl small ↦ inl (small, log_init_clears (nr - 2) shape size small)
        | inr small ↦ inr (small, log_init_overrun (nr - 2) shape size small)
      ]
