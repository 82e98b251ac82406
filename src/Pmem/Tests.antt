-- ===== src/Pmem/Tests.antt =====
-- Concrete runs of `Pmem`, and of its theorems.
use my_diff.Base.{
  ℕ, ◌≡◌, refl, true, List, [], ◌∷◌, arith, inl, inr, none, some, done, aborted, fault,
}
use my_diff.Paddr.{Wen}
use my_diff.Pmem.{
  load, load_into, do_read, do_write, store, store_byte, store_word, store_lanes, store_strobed,
  read_file, load_binary, alloc, of_file,
}
use my_diff.Pmem.Lanes.{Wrote, after_write}
use my_diff.Pmem.Access.{do_write_lem}
use my_diff.Pmem.RoundTrip.{do_read-do_write}
use my_diff.Samples.{nemu, word_access}

abbrev memory : List ℕ
memory = 1 ∷ 2 ∷ 3 ∷ 4 ∷ 5 ∷ 6 ∷ 7 ∷ 8 ∷ []

-- Bytes 1 and 3 of a word.
abbrev odd_bytes : Wen
odd_bytes = record { size = 4; wstrb = 0xa }

abbrev three_bytes : Wen
three_bytes = record { size = 3; wstrb = 0x7 }

abbrev half_word : Wen
half_word = record { size = 2; wstrb = 0x3 }

read_word : do_read memory 4 word_access 0 ≡ done (true, 0x08070605)
unfolding do_read load_into load
read_word = refl

read_half : do_read memory 0 half_word 0xaabbccdd ≡ done (true, 0xaabb0201)
unfolding do_read load_into load
read_half = refl

write_odd_bytes :
    do_write nemu memory 4 odd_bytes 0xaabbccdd
    ≡ done (true, 1 ∷ 2 ∷ 3 ∷ 4 ∷ 5 ∷ 0xcc ∷ 7 ∷ 0xaa ∷ [])
unfolding do_write store_lanes store_strobed store_byte
write_odd_bytes = refl

write_past_end : do_write nemu memory 8 half_word 5 ≡ fault
unfolding do_write store_word store store_byte
write_past_end = refl

load_two : load_binary memory 8 6 (some (9 ∷ 10 ∷ [])) ≡ done (1 ∷ 2 ∷ 3 ∷ 4 ∷ 5 ∷ 6 ∷ 9 ∷ 10 ∷ [])
unfolding load_binary read_file store_byte
load_two = refl

of_missing_file : of_file nemu memory none ≡ done memory
unfolding of_file alloc
of_missing_file = refl

of_long_file : of_file nemu (0 ∷ 0 ∷ []) (some (9 ∷ 10 ∷ 11 ∷ [])) ≡ done (9 ∷ 10 ∷ [])
unfolding of_file alloc read_file store_byte
of_long_file = refl

of_odd_size : of_file nemu (0 ∷ 0 ∷ 0 ∷ []) none ≡ aborted
unfolding of_file alloc
of_odd_size = refl

do_write_lem_example :
    Wrote memory
      (do_write nemu memory 4 odd_bytes 0xaabbccdd)
      (after_write memory 4 odd_bytes 0xaabbccdd)
do_write_lem_example =
    do_write_lem nemu memory 4 odd_bytes 0xaabbccdd (inr (inr refl)) (omega arith)

do_read-do_write_example :
    (out : List ℕ) × (do_write nemu memory 4 half_word 0x12345678 ≡ done (true, out))
    × (do_read out 4 half_word 0 ≡ done (true, 0x5678))
do_read-do_write_example =
    do_read-do_write nemu memory 4 half_word 0x12345678 0 (inr (inl refl)) (inl (omega arith))
      (omega arith)
