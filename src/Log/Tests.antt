-- ===== src/Log/Tests.antt =====
-- The log on small rings.
use my_diff.Base.{◌≤◌, ◌<◌, ◌≡◌, ◌⊎◌, refl, true, [], ◌∷◌, arith, none, some, done, fault}
use my_diff.Log.{
  Log, Label, null_pointer, standard_out, log_init, lring_print, announced, open_log, as_label,
  print_rows, print_row, string_at, string,
}
use my_diff.Log.Init.{log_init_lem}

-- Three rows of two bytes.
abbrev small : Log
small = record { log_dt = none; lring = 7 ∷ 7 ∷ 7 ∷ 7 ∷ 7 ∷ 7 ∷ []; lring_head = 1 }

log_init_lem_example :
    ((2 ≤ 3)
      × ((log' : Log) × (said : Label) × (log_init 3 2 (λ f. true) none small ≡ done (log', said))
          × (lring_print 3 2 log' ≡ done [])))
    ⊎ ((3 < 2) × (log_init 3 2 (λ f. true) none small ≡ fault))
log_init_lem_example = log_init_lem 3 2 (λ f. true) none small (omega arith) refl

-- Without a name for the log, the message takes the null pointer for it.
no_name : announced (open_log (λ f. true) none) none ≡ null_pointer
unfolding announced open_log as_label
no_name = refl

-- Two lines.
print_two :
    lring_print 3 2
      (record { log_dt = some standard_out; lring = 7 ∷ 0 ∷ 8 ∷ 0 ∷ 0 ∷ 0 ∷ []; lring_head = 0 })
    ≡ done ((7 ∷ []) ∷ (8 ∷ []) ∷ [])
unfolding lring_print print_rows print_row string_at string
print_two = refl

-- With another head the last row is past the end.
print_past :
    lring_print 2 2
      (record { log_dt = some standard_out; lring = 7 ∷ 0 ∷ 8 ∷ 0 ∷ []; lring_head = 1 })
    ≡ fault
unfolding lring_print print_rows print_row string_at string
print_past = refl
