-- ===== src/Tests/Bitarr.antt =====
-- A field of a small array.
use pocketsphinx.Base.{ℕ, zero, suc, ◌+◌, ◌*◌, ◌/◌, ◌%◌, ◌^◌, ◌≤◌, ◌<◌, ◌≡◌, refl, ◌⊎◌, arith}
use pocketsphinx.Util.Bitarr.{
  load, bitarr_read_int57, bitarr_write_int57, bitarr_mask_from_max, bitarr_required_bits,
  count_bits,
}
use pocketsphinx.Util.Bitarr.RoundTrip.{int57_round_trip}

-- Bits 11 to 13 are clear.
abbrev cells : ℕ → ℕ
cells zero = 255
cells (suc zero) = 199
cells (suc (suc i)) = 255

cells-byte : (j : ℕ) → cells j < 256
cells-byte zero = omega arith
cells-byte (suc zero) = omega arith
cells-byte (suc (suc i)) = omega arith

int57_round_trip_example :
    let k = bitarr_mask_from_max 6 in
    let mem' = bitarr_write_int57 cells 11 5 in
    (bitarr_read_int57 mem' 11 k.mask ≡ 5)
    × (load mem' (11 / 8) 8 ≡ load cells (11 / 8) 8 + 5 * 2 ^ (11 % 8))
    × ((j : ℕ) → (j < 11 / 8) ⊎ (11 / 8 + 8 ≤ j) → mem' j ≡ cells j)
unfolding load bitarr_mask_from_max bitarr_required_bits count_bits
int57_round_trip_example = int57_round_trip cells 11 6 5 cells-byte (omega arith) (omega arith) refl
