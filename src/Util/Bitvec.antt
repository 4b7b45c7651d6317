-- ===== src/Util/Bitvec.antt =====
-- src/util/bitvec.h, src/util/bitvec.c: vectors of bits in words of 32.
--
-- A vector is a function from the index of a word to the word. `1UL << b` with b below 32 is 2 ^ b.
pub mod Laws
use pocketsphinx.Base.{
  update, ℕ, zero, suc, ◌+◌, ◌-◌, ◌*◌, ◌/◌, ◌%◌, ◌^◌, Bool, true, false, not, ◌==◌, if◌then◌else◌,
  ltb,
}
use Prim.Native.Nat.{bit_and, bit_or}

-- `BITVEC_BITS`
abbrev pub bitvec_bits : ℕ
bitvec_bits = 32

-- The test `word & (1UL << b)`.
unfoldable pub has_bit : ℕ → ℕ → Bool
has_bit word b = not (bit_and word (2 ^ b) == 0)

unfoldable pub bitvec_set : (ℕ → ℕ) → ℕ → ℕ → ℕ
bitvec_set v b = update v (b / bitvec_bits) (bit_or (v (b / bitvec_bits)) (2 ^ (b % bitvec_bits)))

unfoldable pub bitvec_is_set : (ℕ → ℕ) → ℕ → Bool
unfolding has_bit
bitvec_is_set v b = has_bit (v (b / bitvec_bits)) (b % bitvec_bits)

-- `bitvec_size`
abbrev pub bitvec_size : ℕ → ℕ
bitvec_size n = (n + bitvec_bits - 1) / bitvec_bits

unfoldable pub bitvec_clear_all : (ℕ → ℕ) → ℕ → ℕ → ℕ
bitvec_clear_all v n = λ w. if ltb w (bitvec_size n) then 0 else v w

-- The loops of `bitvec_count_set`: over the `m` bits of a word from `b` on, and over `m` words from
-- `w` on.
unfoldable pub count_word : (word m b n : ℕ) → ℕ
unfolding has_bit
count_word word zero b n = n
count_word word (suc m) b n = count_word word m (b + 1) (if has_bit word b then suc n else n)

unfoldable pub count_words : (ℕ → ℕ) → (m w n : ℕ) → ℕ
unfolding count_word
count_words v zero w n = n
count_words v (suc m) w n =
    count_words v m (w + 1) (if v w == 0 then n else count_word (v w) bitvec_bits 0 n)

unfoldable pub bitvec_count_set : (ℕ → ℕ) → ℕ → ℕ
unfolding count_words count_word
bitvec_count_set v len =
    let words = len / bitvec_bits in
    count_word (v words) (len % bitvec_bits) 0 (count_words v words 0 0)
