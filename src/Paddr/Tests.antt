-- ===== src/Paddr/Tests.antt =====
-- Concrete runs of `PaddrTop`, and of its theorems.
use my_diff.Base.{ℕ, ◌≡◌, refl, true, false, [], ◌∷◌, ◌++◌, arith, ◌⊎◌, done, aborted}
use my_diff.Paddr.{
  AddrIntv, of_len, of_bits, end, add_dev, any_overlap, overlaps, covers, do_read, do_write,
  deep_copy, top_interface,
}
use my_diff.Paddr.Range.{IsRange, of_bits_lem}
use my_diff.Paddr.Overlap.{Meets, Apart, IsTable, add_dev_lem, add_dev-IsTable}
use my_diff.Paddr.Routing.{access_routes, access_unmapped}
use my_diff.Samples.{nemu, register, low_range, high_range, table, word_access}

low_range-IsRange : IsRange low_range
low_range-IsRange = record { width = 12; mask_ones = refl; aligned = refl; fits = omega arith }

high_range-IsRange : IsRange high_range
high_range-IsRange = record { width = 8; mask_ones = refl; aligned = refl; fits = omega arith }

low_high-Apart : ¬ Meets low_range high_range
unfolding end
low_high-Apart (a, p, q, t, u) = absurd (omega arith)

table-IsTable : IsTable table
table-IsTable = (
  low_range-IsRange,
  omega arith,
  (low_high-Apart, tt),
  (high_range-IsRange, omega arith, tt, tt),
)

-- A page next to the first device.
abbrev next_range : AddrIntv
next_range = record { start = 0x2000; mask = 0xfff }

next_range-IsRange : IsRange next_range
next_range-IsRange = record { width = 12; mask_ones = refl; aligned = refl; fits = omega arith }

of_len_aligned : of_len 0x8000 0x100 ≡ done high_range
unfolding of_len
of_len_aligned = refl

of_len_unaligned : of_len 0x8010 0x100 ≡ aborted
unfolding of_len
of_len_unaligned = refl

of_len_uneven : of_len 0 0x101 ≡ done (record { start = 0; mask = 0x100 })
unfolding of_len
of_len_uneven = refl

-- Ranges that are no power of two long escape the test: these two share the address 0x100.
add_uneven :
    add_dev {D = ℕ}
      ((record { start = 0; mask = 0x100 }, 1) ∷ [])
      (record { start = 0x100; mask = 0xff })
      2
    ≡ (
      true,
      (record { start = 0; mask = 0x100 }, 1) ∷ (record { start = 0x100; mask = 0xff }, 2) ∷ [],
    )
unfolding add_dev any_overlap overlaps
add_uneven = refl

read_high : do_read register table 0x8004 word_access 0 40 ≡ done (true, 42, 40)
unfolding do_read covers
read_high = refl

add_next : add_dev table next_range 3 ≡ (true, table ++ ((next_range, 3) ∷ []))
unfolding add_dev any_overlap overlaps
add_next = refl

add_again : add_dev table low_range 3 ≡ (false, table)
unfolding add_dev any_overlap overlaps
add_again = refl

copy_table : deep_copy register table 5 ≡ done (table, 5)
unfolding deep_copy
copy_table = refl

nested_top : (top_interface register).do_read table 0x8004 word_access 0 40 ≡ done (true, 42, 40)
unfolding top_interface do_read covers
nested_top = refl

of_bits_lem_example : of_bits nemu 0x8000 8 ≡ done high_range
of_bits_lem_example = of_bits_lem nemu 0x8000 8 (omega arith)

access_routes_example :
    (do_read register table 0x8004 word_access 0 40 ≡ done (true, 42, 40))
    × (do_write register table 0x8004 word_access 0 40 ≡ done (true, 0))
access_routes_example =
    access_routes register ((low_range, 1) ∷ []) [] high_range 2 0x8004 word_access 0 40
      table-IsTable (unfold end in (omega arith, omega arith))

access_unmapped_example :
    (do_read register table 0x4000 word_access 9 40 ≡ done (false, 9, 40))
    × (do_write register table 0x4000 word_access 9 40 ≡ done (false, 40))
access_unmapped_example =
    access_unmapped register table 0x4000 word_access 9 40 (omega arith)
      (unfold end in (λ (p, q). absurd (omega arith)), ((λ (p, q). absurd (omega arith)), tt))

add_dev_lem_example :
    (Apart next_range table
      × (add_dev table next_range 3 ≡ (true, table ++ ((next_range, 3) ∷ []))))
    ⊎ ((¬ Apart next_range table) × (add_dev table next_range 3 ≡ (false, table)))
add_dev_lem_example = add_dev_lem table next_range 3 table-IsTable next_range-IsRange (omega arith)

add_dev-IsTable_example : IsTable (add_dev table next_range 3).1
add_dev-IsTable_example =
    add_dev-IsTable table next_range 3 table-IsTable next_range-IsRange (omega arith)
