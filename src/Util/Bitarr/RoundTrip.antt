-- ===== src/Util/Bitarr/RoundTrip.antt =====
-- A field that is written to clear bits is read back.
use pocketsphinx.Base.{
  ℕ, zero, suc, ◌+◌, ◌-◌, ◌*◌, ◌/◌, ◌%◌, ◌^◌, ◌≤◌, ◌<◌, ◌≡◌, refl, sym, subst, ap, ◌∙◌, ◌⊎◌, inl,
  inr, arith, Bool-cases, true, ◌==◌,
}
use Prim.Native.Nat.{bit_and, bit_or}
use native.Mathlib.Nat.{
  pow-succ', pow-le-pow_right, mod-lt, mod-eq_of_lt, mod-add-div, add-mul-div_left, div-eq_of_lt,
  mul_comm, mul-add,
}
use pocketsphinx.Util.Bitarr.{
  load, read_field, write_field, bitarr_read_int57, bitarr_write_int57, bitarr_read_int25,
  bitarr_write_int25, count_bits, bitarr_required_bits, bitarr_mask_from_max,
}
use pocketsphinx.Util.Bitarr.Words.{
  pow_two-pos, pow_two-mul, bit_and-mask, bit_or-clear, bit_or-bound, store_outside, load-store,
  load-bound,
}

shift_bound : (k s w v : ℕ) → v < 2 ^ k → k + s ≤ w → v * 2 ^ s < 2 ^ w
shift_bound k zero w v lt le =
    omega (arith, pow-le-pow_right {n = 2} (omega arith) {i = k} {j = w} (omega arith))
shift_bound k (suc s) zero v lt le = absurd (omega arith)
shift_bound k (suc s) (suc w) v lt le = omega (
  arith,
  pow-succ' 2 w,
  pow_two-mul s v,
  mul_comm v (2 ^ suc s),
  mul_comm v (2 ^ s),
  shift_bound k s w v lt (omega arith),
)

-- What a write to clear bits leaves.
abbrev pub Written : ℕ → (ℕ → ℕ) → (ℕ → ℕ) → ℕ → ℕ → ℕ → Type 0
Written n mem mem' offset value mask =
    (read_field n mem' offset mask ≡ value)
    × (load mem' (offset / 8) n ≡ load mem (offset / 8) n + value * 2 ^ (offset % 8))
    × ((j : ℕ) → (j < offset / 8) ⊎ (offset / 8 + n ≤ j) → mem' j ≡ mem j)

abbrev pub IsClear : ℕ → (ℕ → ℕ) → ℕ → ℕ → Type 0
IsClear n mem offset bits = load mem (offset / 8) n / 2 ^ (offset % 8) % 2 ^ bits ≡ 0

module _ (n : ℕ) (mem : ℕ → ℕ) (offset k value : ℕ) (size : 256 ^ n ≡ 2 ^ (8 * n))
    (bytes : (j : ℕ) → mem j < 256) (room : k + 7 ≤ 8 * n) (fits : value < 2 ^ k)
    (clear : IsClear n mem offset k) where
  abbrev word : ℕ
  word = load mem (offset / 8) n

  abbrev s : ℕ
  s = offset % 8

  abbrev lo : ℕ
  lo = word % 2 ^ s

  abbrev h : ℕ
  h = word / 2 ^ s / 2 ^ k

  split : word ≡ lo + 2 ^ s * (2 ^ k * h)
  split =
      let d = mod-add-div (word / 2 ^ s) (2 ^ k) in
      let e : 2 ^ k * h ≡ word / 2 ^ s = omega arith in
      sym (mod-add-div word (2 ^ s)) ∙ ap (λ x. lo + 2 ^ s * x) (sym e)

  shifted : value * 2 ^ s % 2 ^ (8 * n) ≡ value * 2 ^ s
  shifted = mod-eq_of_lt (shift_bound k s (8 * n) value fits (omega arith))

  joined : bit_or word (value * 2 ^ s % 2 ^ (8 * n)) ≡ lo + 2 ^ s * (value + 2 ^ k * h)
  joined =
      ap (λ x. bit_or word x) shifted
      ∙ ap (λ x. bit_or x (value * 2 ^ s)) split
      ∙ bit_or-clear s k lo value h (mod-lt word (pow_two-pos s)) fits

  bounded : bit_or word (value * 2 ^ s % 2 ^ (8 * n)) < 256 ^ n
  bounded =
      subst (λ x. bit_or word (value * 2 ^ s % 2 ^ (8 * n)) < x) (sym size)
        (bit_or-bound (8 * n) word (value * 2 ^ s % 2 ^ (8 * n))
          (subst (λ x. word < x) size (load-bound mem (offset / 8) n bytes))
          (mod-lt (value * 2 ^ s) (pow_two-pos (8 * n))))

  loaded : load (write_field n mem offset value) (offset / 8) n ≡ lo + 2 ^ s * (value + 2 ^ k * h)
  loaded =
      load-store mem (offset / 8) n (bit_or word (value * 2 ^ s % 2 ^ (8 * n))) bounded ∙ joined

  pub write_lem : Written n mem (write_field n mem offset value) offset value (2 ^ k - 1)
  write_lem = (
    ap (λ x. bit_and (x / 2 ^ s) (2 ^ k - 1)) loaded
        ∙ ap (λ x. bit_and x (2 ^ k - 1))
            (add-mul-div_left lo (value + 2 ^ k * h) (pow_two-pos s)
              ∙ ap (λ x. x + (value + 2 ^ k * h)) (div-eq_of_lt (mod-lt word (pow_two-pos s)))
              ∙ omega arith)
        ∙ bit_and-mask k value h fits,
    loaded ∙ omega (arith, split, mul-add (2 ^ s) value (2 ^ k * h), mul_comm value (2 ^ s)),
    λ j out. store_outside mem (offset / 8) n (bit_or word (value * 2 ^ s % 2 ^ (8 * n))) j out,
  )

count_bits-fits : (fuel x : ℕ) → x < 2 ^ suc fuel → x < 2 ^ suc (count_bits fuel x)
unfolding count_bits
count_bits-fits zero x lt = lt
count_bits-fits (suc fuel) x lt =
    let p = pow-succ' 2 (suc fuel) in
    elim (Bool-cases (x / 2 == 0)) [
      | inl t ↦ let q : x / 2 ≡ 0 = ground arith in rw t (omega arith)
      | inr t ↦
          let ih = count_bits-fits fuel (x / 2) (omega arith) in
          rw t (omega (arith, pow-succ' 2 (suc (count_bits fuel (x / 2))), ih))
    ]

count_bits-le : (fuel m x : ℕ) → x < 2 ^ suc m → count_bits fuel x ≤ m
unfolding count_bits
count_bits-le zero m x lt = omega arith
count_bits-le (suc fuel) zero x lt =
    let q : x / 2 ≡ 0 = omega arith in
    let t : (x / 2 == 0) ≡ true = ground arith in rw t (omega arith)
count_bits-le (suc fuel) (suc m) x lt =
    let ih = count_bits-le fuel m (x / 2) (omega (arith, pow-succ' 2 (suc m))) in
    elim (Bool-cases (x / 2 == 0)) [ inl t ↦ rw t (omega arith) | inr t ↦ rw t (omega arith) ]

-- Values up to the maximum fit into the bits that it requires, and these are as few as it is small.
bits_lem :
    (max : ℕ)
    → max < 2 ^ 32
    → (max < 2 ^ bitarr_required_bits max)
      × ((m : ℕ) → max < 2 ^ suc m → bitarr_required_bits max ≤ suc m)
unfolding bitarr_required_bits
bits_lem max lt = elim (Bool-cases (max == 0)) [
  | inl t ↦ let q : max ≡ 0 = ground arith in rw t (omega arith, λ m l. omega arith)
  | inr t ↦
      rw t (count_bits-fits 32 max (omega arith), λ m l. omega (arith, count_bits-le 32 m max l))
]

mask_lem :
    (max : ℕ)
    → max < 2 ^ 32
    → let k = bitarr_mask_from_max max in
      (k.bits ≡ bitarr_required_bits max) × (k.mask ≡ 2 ^ k.bits - 1)
unfolding bitarr_mask_from_max
mask_lem max lt =
    let le = (bits_lem max lt).1 31 lt in
    (
      refl,
      mod-eq_of_lt (
          omega (
            arith,
            pow_two-pos (bitarr_required_bits max),
            pow-le-pow_right {n = 2} (omega arith) {i = bitarr_required_bits max} {j = 32} le,
          )),
    )

-- A value up to some maximum, written with `bitarr_write_int57` where the bits that the maximum
-- requires are clear, is what `bitarr_read_int57` reads there with the maximum's mask. The 8 bytes
-- of the word grow by the value in its place, so that no other bit of it changes, and neither does
-- any other byte.
pub int57_round_trip :
    (mem : ℕ → ℕ) (offset max value : ℕ)
    → ((j : ℕ) → mem j < 256)
    → max < 2 ^ 32
    → value ≤ max
    → IsClear 8 mem offset (bitarr_mask_from_max max).bits
    → let k = bitarr_mask_from_max max in
      let mem' = bitarr_write_int57 mem offset value in
      (bitarr_read_int57 mem' offset k.mask ≡ value)
      × (load mem' (offset / 8) 8 ≡ load mem (offset / 8) 8 + value * 2 ^ (offset % 8))
      × ((j : ℕ) → (j < offset / 8) ⊎ (offset / 8 + 8 ≤ j) → mem' j ≡ mem j)
unfolding bitarr_write_int57 bitarr_read_int57
int57_round_trip mem offset max value bytes small le clear =
    let (b, m) = mask_lem max small in
    let k = bitarr_mask_from_max max in
    let (fits, few) = bits_lem max small in
    let f = few 31 small in
    subst (λ x. Written 8 mem (write_field 8 mem offset value) offset value x) (sym m)
      (write_lem 8 mem offset k.bits value refl bytes (omega arith) (rw b (omega arith)) clear)

-- The same for `bitarr_write_int25` and `bitarr_read_int25`, on 4 bytes and a maximum of 25 bits.
pub int25_round_trip :
    (mem : ℕ → ℕ) (offset max value : ℕ)
    → ((j : ℕ) → mem j < 256)
    → max < 2 ^ 25
    → value ≤ max
    → IsClear 4 mem offset (bitarr_mask_from_max max).bits
    → let k = bitarr_mask_from_max max in
      Written 4 mem (bitarr_write_int25 mem offset value) offset value k.mask
unfolding bitarr_write_int25 bitarr_read_int25
int25_round_trip mem offset max value bytes small le clear =
    let wide : max < 2 ^ 32 = omega arith in
    let (b, m) = mask_lem max wide in
    let k = bitarr_mask_from_max max in
    let (fits, few) = bits_lem max wide in
    let f = few 24 small in
    subst (λ x. Written 4 mem (write_field 4 mem offset value) offset value x) (sym m)
      (write_lem 4 mem offset k.bits value refl bytes (omega arith) (rw b (omega arith)) clear)
