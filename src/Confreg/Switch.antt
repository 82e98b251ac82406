-- ===== src/Confreg/Switch.antt =====
-- `PaddrConfreg::set_switch`: the two switch words, bit by bit.
use my_diff.Base.{
  ℕ, ◌+◌, ◌-◌, ◌*◌, ◌/◌, ◌%◌, ◌^◌, ◌<◌, ◌≡◌, refl, Bool, true, ◌==◌, ==_iff, bit_xor,
}
use my_diff.Base.Tables.{all_below, all_below-apply}
use my_diff.Confreg.{PaddrConfreg, inter_bits, set_switch}

lane_test : ℕ → ℕ → Bool
lane_test value i = (inter_bits 8 0 value 0 / 2 ^ (2 * i) % 4 == 2 * (1 - value / 2 ^ i % 2))

lane_table : all_below 256 (λ value. all_below 8 (lane_test value)) ≡ true
unfolding all_below lane_test inter_bits
lane_table = refl

data_table :
    all_below 256 (λ value. bit_xor value 0xf == value / 16 * 16 + (15 - value % 16)) ≡ true
unfolding all_below
data_table = refl

-- For each switch `i` below 8 the pair of bits `2 i` and `2 i + 1` of the interrupt word reads 2
-- when bit `i` of the byte is 0, and 0 when it is 1; the switch word is the byte with its low four
-- bits inverted.
pub set_switch_lem :
    (c : PaddrConfreg) (value i : ℕ)
    → value < 256
    → i < 8
    → ((set_switch c value).switch_inter_data / 2 ^ (2 * i) % 4 ≡ 2 * (1 - value / 2 ^ i % 2))
      × ((set_switch c value).switch_data ≡ value / 16 * 16 + (15 - value % 16))
unfolding set_switch lane_test
set_switch_lem c value i hv hi = (
  (==_iff _ _).0 (all_below-apply 8 _ i (all_below-apply 256 _ value lane_table hv) hi),
  (==_iff _ _).0 (all_below-apply 256 _ value data_table hv),
)
