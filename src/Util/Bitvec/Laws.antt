-- ===== src/Util/Bitvec/Laws.antt =====
-- What setting a bit does to the bits of a vector.
use pocketsphinx.Base.{
  ℕ, zero, suc, ◌*◌, ◌/◌, ◌%◌, ◌^◌, ◌≤◌, ◌<◌, ◌≡◌, refl, ap, ◌∙◌, ◌⊎◌, inl, inr, true, false, ◌==◌,
  arith, if◌then◌else◌, ltb,
}
use Prim.Native.Nat.{bit_and, bit_or}
use native.Mathlib.Nat.{pow-succ'}
use native.Mathlib.Decide.{ℕ_discrete}
use pocketsphinx.Util.Bitarr.Words.{
  bit_and_step, bit_or_step, bit_and-zero, bit_or-zero_right, pow_two-pos, pow_two-mul,
}
use pocketsphinx.Util.Bitvec.{
  bitvec_bits, has_bit, bitvec_set, bitvec_is_set, bitvec_clear_all, bitvec_size,
}

-- The digit of a word at a place.
abbrev pub digit : ℕ → ℕ → ℕ
digit word zero = word % 2
digit word (suc b) = digit (word / 2) b

digit-zero : (b : ℕ) → digit 0 b ≡ 0
digit-zero zero = refl
digit-zero (suc b) = digit-zero b

digit-bound : (word b : ℕ) → digit word b ≤ 1
digit-bound word zero = omega arith
digit-bound word (suc b) = digit-bound (word / 2) b

bit_and-pow : (b word : ℕ) → bit_and word (2 ^ b) ≡ 2 ^ b * digit word b
bit_and-pow zero word =
    omega (arith, bit_and_step word 1, bit_and-zero (word / 2) (word / 2) (omega arith))
bit_and-pow (suc b) word =
    let p = pow-succ' 2 b in
    let ih = bit_and-pow b (word / 2) in
    let step = bit_and_step word (2 ^ suc b) in
    let e₁ : 2 ^ suc b / 2 ≡ 2 ^ b = omega arith in
    let e₂ : 2 ^ suc b % 2 ≡ 0 = omega arith in
    let step' = rw (e₁, e₂) at step in let m = pow_two-mul b (digit (word / 2) b) in omega arith

shift : (j b d : ℕ) → (if j == b then 1 else d) ≡ (if suc j == suc b then 1 else d)
shift j b d = ground arith

unequal : (j d : ℕ) → d ≡ (if suc j == 0 then 1 else d)
unequal j d = ground arith

-- Setting a bit sets its digit and keeps the others.
digit-bit_or : (b word j : ℕ) → digit (bit_or word (2 ^ b)) j ≡ (if j == b then 1 else digit word j)
digit-bit_or zero word zero = omega (arith, bit_or_step word 1)
digit-bit_or zero word (suc j) =
    let half : bit_or word 1 / 2 ≡ word / 2 =
      omega (arith, bit_or_step word 1, bit_or-zero_right (word / 2) (word / 2) (omega arith)) in
    ap (λ w. digit w j) half ∙ unequal j (digit (word / 2) j)
digit-bit_or (suc b) word zero =
    let p = pow-succ' 2 b in
    let step = bit_or_step word (2 ^ suc b) in
    let e : 2 ^ suc b % 2 ≡ 0 = omega arith in let step' = rw e at step in ground arith
digit-bit_or (suc b) word (suc j) =
    let p = pow-succ' 2 b in
    let step = bit_or_step word (2 ^ suc b) in
    let e₁ : 2 ^ suc b / 2 ≡ 2 ^ b = omega arith in
    let e₂ : 2 ^ suc b % 2 ≡ 0 = omega arith in
    let step' = rw (e₁, e₂) at step in
    let half : bit_or word (2 ^ suc b) / 2 ≡ bit_or (word / 2) (2 ^ b) = omega arith in
    rw half (digit-bit_or b (word / 2) j ∙ shift j b (digit (word / 2) j))

pub has_bit-digit : (word b : ℕ) → has_bit word b ≡ (digit word b == 1)
unfolding has_bit
has_bit-digit word b =
    let pos = pow_two-pos b in
    let e = bit_and-pow b word in
    let small = digit-bound word b in
    let split : (digit word b ≡ 0) ⊎ (digit word b ≡ 1) = ground arith in
    elim split [ inl z ↦ rw (e, z) (ground arith) | inr o ↦ rw (e, o) (ground arith) ]

-- A word of 0 has no bit.
pub has_bit-zero : (b : ℕ) → has_bit 0 b ≡ false
has_bit-zero b = has_bit-digit 0 b ∙ ap (λ d. d == 1) (digit-zero b)

has_bit-bit_or :
    (b word j : ℕ) → has_bit (bit_or word (2 ^ b)) j ≡ (if j == b then true else has_bit word j)
has_bit-bit_or b word j =
    has_bit-digit (bit_or word (2 ^ b)) j
    ∙ ap (λ d. d == 1) (digit-bit_or b word j)
    ∙ elim (ℕ_discrete j b) [
      | yes e ↦ ground arith
      | no ne ↦ let h = has_bit-digit word j in ground arith
    ]

-- After a bit is set, that bit and those set before are set, and no other.
pub is_set-set_lem :
    (v : ℕ → ℕ) (b j : ℕ)
    → bitvec_is_set (bitvec_set v b) j ≡ (if j == b then true else bitvec_is_set v j)
unfolding bitvec_is_set bitvec_set
is_set-set_lem v b j = elim (ℕ_discrete (j / bitvec_bits) (b / bitvec_bits)) [
  | yes e ↦
      let old = has_bit-bit_or (b % bitvec_bits) (v (b / bitvec_bits)) (j % bitvec_bits) in
      ground arith
  | no ne ↦ ground arith
]

-- A vector whose bits below n are cleared has none of them.
pub is_set-clear_all_lem :
    (v : ℕ → ℕ) (n j : ℕ) → j < n → bitvec_is_set (bitvec_clear_all v n) j ≡ false
unfolding bitvec_is_set bitvec_clear_all
is_set-clear_all_lem v n j lt =
    let z = has_bit-zero (j % bitvec_bits) in
    let inside : ltb (j / bitvec_bits) (bitvec_size n) ≡ true = ground arith in rw inside z
