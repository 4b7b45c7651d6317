-- ===== src/Util/Bitarr/Words.antt =====
-- Bitwise `and` and `or`, and the bytes of a word.
use pocketsphinx.Base.{
  update, ℕ, zero, suc, ◌+◌, ◌-◌, ◌*◌, ◌/◌, ◌%◌, ◌^◌, ◌≤◌, ◌<◌, ◌≡◌, refl, ap, ◌∙◌, ◌⊎◌, arith,
  true, false, ◌==◌, inl, inr,
}
use Prim.Native.Nat.{bit_and, bit_or, bit_and-bitwise, bit_or-bitwise, bitwise, digits, min, max}
use native.Mathlib.Nat.{pow-succ', one-le-pow, mul_assoc, mul_comm}
use pocketsphinx.Util.Bitarr.{load, store}

-- An operation on digits, with `z` for the rest of the second number: a longer count changes nothing,
-- and halving both numbers takes off their last digits.
module _ (z : ℕ → ℕ) (f : ℕ → ℕ → ℕ) where
  longer : (a b k n : ℕ) → a ≤ k → a ≤ n → digits z f k a b ≡ digits z f n a b
  longer zero b zero zero l r = refl
  longer zero b zero (suc n) l r = refl
  longer zero b (suc k) zero l r = refl
  longer zero b (suc k) (suc n) l r = refl
  longer (suc a) b zero n l r = absurd (omega arith)
  longer (suc a) b (suc k) zero l r = absurd (omega arith)
  longer (suc a) b (suc k) (suc n) l r =
      ap (λ x. x * 2 + f (suc a % 2) (b % 2))
        (longer (suc a / 2) (b / 2) k n (omega arith) (omega arith))

  halve :
      ((b : ℕ) → z b ≡ z (b / 2) * 2 + f 0 (b % 2))
      → (a b : ℕ) → bitwise z f a b ≡ bitwise z f (a / 2) (b / 2) * 2 + f (a % 2) (b % 2)
  halve empty zero b = empty b
  halve empty (suc a) b =
      ap (λ x. x * 2 + f (suc a % 2) (b % 2))
        (longer (suc a / 2) (b / 2) a (suc a / 2) (omega arith) (omega arith))

pub bit_and_step : (a b : ℕ) → bit_and a b ≡ bit_and (a / 2) (b / 2) * 2 + min (a % 2) (b % 2)
bit_and_step a b =
    let whole = bit_and-bitwise a b in
    let half = bit_and-bitwise (a / 2) (b / 2) in
    omega (arith, halve (λ b. 0) min (λ b. omega arith) a b)

pub bit_or_step : (a b : ℕ) → bit_or a b ≡ bit_or (a / 2) (b / 2) * 2 + max (a % 2) (b % 2)
bit_or_step a b =
    let whole = bit_or-bitwise a b in
    let half = bit_or-bitwise (a / 2) (b / 2) in
    omega (arith, halve (λ b. b) max (λ b. omega arith) a b)

bit_or-zero : (a : ℕ) → bit_or 0 a ≡ a
bit_or-zero a = bit_or-bitwise 0 a

pub bit_and-zero : (n a : ℕ) → a ≤ n → bit_and a 0 ≡ 0
bit_and-zero n zero h = bit_and-bitwise 0 0
bit_and-zero zero (suc a) h = absurd (omega arith)
bit_and-zero (suc n) (suc a) h =
    omega (arith, bit_and_step (suc a) 0, bit_and-zero n (suc a / 2) (omega arith))

pub pow_two-pos : (k : ℕ) → 0 < 2 ^ k
pow_two-pos k = one-le-pow k 2 (omega arith)

pub pow_two-mul : (k h : ℕ) → 2 ^ suc k * h ≡ 2 * (2 ^ k * h)
pow_two-mul k h = rw (pow-succ' 2 k) (mul_assoc 2 (2 ^ k) h)

-- A mask of ones keeps the low bits.
pub bit_and-mask : (k v h : ℕ) → v < 2 ^ k → bit_and (v + 2 ^ k * h) (2 ^ k - 1) ≡ v
bit_and-mask zero v h lt = omega (arith, bit_and-zero (v + 1 * h) (v + 1 * h) (omega arith))
bit_and-mask (suc k) v h lt =
    let p = pow-succ' 2 k in
    let pos = pow_two-pos k in
    let m = pow_two-mul k h in
    let ih = bit_and-mask k (v / 2) h (omega arith) in
    let step = bit_and_step (v + 2 ^ suc k * h) (2 ^ suc k - 1) in
    let e₁ : (v + 2 ^ suc k * h) / 2 ≡ v / 2 + 2 ^ k * h = omega arith in
    let e₂ : (2 ^ suc k - 1) / 2 ≡ 2 ^ k - 1 = omega arith in
    let e₃ : (v + 2 ^ suc k * h) % 2 ≡ v % 2 = omega arith in
    let e₄ : (2 ^ suc k - 1) % 2 ≡ 1 = omega arith in
    let step' = rw (e₁, e₂, e₃, e₄) at step in omega arith

pub bit_or-zero_right : (n a : ℕ) → a ≤ n → bit_or a 0 ≡ a
bit_or-zero_right n zero h = bit_or-zero 0
bit_or-zero_right zero (suc a) h = absurd (omega arith)
bit_or-zero_right (suc n) (suc a) h =
    omega (arith, bit_or_step (suc a) 0, bit_or-zero_right n (suc a / 2) (omega arith))

bit_or-low : (k v h : ℕ) → v < 2 ^ k → bit_or (2 ^ k * h) v ≡ v + 2 ^ k * h
bit_or-low zero v h lt =
    let q : v ≡ 0 = omega arith in
    rw q (omega (arith, bit_or-zero_right (1 * h) (1 * h) (omega arith)))
bit_or-low (suc k) v h lt =
    let p = pow-succ' 2 k in
    let m = pow_two-mul k h in
    let ih = bit_or-low k (v / 2) h (omega arith) in
    let step = bit_or_step (2 ^ suc k * h) v in
    let e₁ : 2 ^ suc k * h / 2 ≡ 2 ^ k * h = omega arith in
    let e₂ : 2 ^ suc k * h % 2 ≡ 0 = omega arith in let step' = rw (e₁, e₂) at step in omega arith

-- An `or` into bits that are zero is a sum.
pub bit_or-clear :
    (s k lo v h : ℕ)
    → lo < 2 ^ s
    → v < 2 ^ k
    → bit_or (lo + 2 ^ s * (2 ^ k * h)) (v * 2 ^ s) ≡ lo + 2 ^ s * (v + 2 ^ k * h)
bit_or-clear zero k lo v h l l' =
    let q : lo ≡ 0 = omega arith in
    let one : 0 + 2 ^ 0 * (2 ^ k * h) ≡ 2 ^ k * h = omega arith in
    let one' : v * 2 ^ 0 ≡ v = omega arith in rw (q, one, one') (bit_or-low k v h l' ∙ omega arith)
bit_or-clear (suc s) k lo v h l l' =
    let p = pow-succ' 2 s in
    let m = pow_two-mul s (2 ^ k * h) in
    let m' = pow_two-mul s (v + 2 ^ k * h) in
    let c : v * 2 ^ suc s ≡ 2 * (v * 2 ^ s) =
      mul_comm v (2 ^ suc s) ∙ pow_two-mul s v ∙ ap (λ x. 2 * x) (mul_comm (2 ^ s) v) in
    let ih = bit_or-clear s k (lo / 2) v h (omega arith) l' in
    let step = bit_or_step (lo + 2 ^ suc s * (2 ^ k * h)) (v * 2 ^ suc s) in
    let e₁ : (lo + 2 ^ suc s * (2 ^ k * h)) / 2 ≡ lo / 2 + 2 ^ s * (2 ^ k * h) = omega arith in
    let e₂ : v * 2 ^ suc s / 2 ≡ v * 2 ^ s = omega arith in
    let e₃ : (lo + 2 ^ suc s * (2 ^ k * h)) % 2 ≡ lo % 2 = omega arith in
    let e₄ : v * 2 ^ suc s % 2 ≡ 0 = omega arith in
    let step' = rw (e₁, e₂, e₃, e₄) at step in omega arith

pub bit_or-bound : (w a b : ℕ) → a < 2 ^ w → b < 2 ^ w → bit_or a b < 2 ^ w
bit_or-bound zero a b la lb =
    let qa : a ≡ 0 = omega arith in
    let qb : b ≡ 0 = omega arith in rw (qa, qb) (omega (arith, bit_or-zero 0))
bit_or-bound (suc w) a b la lb =
    let p = pow-succ' 2 w in
    omega (arith, bit_or_step a b, bit_or-bound w (a / 2) (b / 2) (omega arith) (omega arith))

-- A store leaves the bytes outside of it.
pub store_outside :
    (mem : ℕ → ℕ) (at n value j : ℕ) → (j < at) ⊎ (at + n ≤ j) → store mem at n value j ≡ mem j
unfolding store
store_outside mem at zero value j out = refl
store_outside mem at (suc n) value j out =
    let ne : (j == at) ≡ false = elim out [ inl l ↦ ground arith | inr l ↦ ground arith ] in
    store_outside (update mem at (value % 256)) (at + 1) n (value / 256) j
      (elim out [ inl l ↦ inl (omega arith) | inr l ↦ inr (omega arith) ])
    ∙ rw ne refl

-- What was stored is loaded.
pub load-store :
    (mem : ℕ → ℕ) (at n value : ℕ) → value < 256 ^ n → load (store mem at n value) at n ≡ value
unfolding load store
load-store mem at zero value lt = omega arith
load-store mem at (suc n) value lt =
    let p = pow-succ' 256 n in
    let t : (at == at) ≡ true = ground arith in
    let first : store (update mem at (value % 256)) (at + 1) n (value / 256) at ≡ value % 256 =
      store_outside (update mem at (value % 256)) (at + 1) n (value / 256) at (inl (omega arith))
      ∙ rw t refl in
    let rest = load-store (update mem at (value % 256)) (at + 1) n (value / 256) (omega arith) in
    rw (first, rest) (omega arith)

-- A load of bytes fits.
pub load-bound : (mem : ℕ → ℕ) (at n : ℕ) → ((j : ℕ) → mem j < 256) → load mem at n < 256 ^ n
unfolding load
load-bound mem at zero h = omega arith
load-bound mem at (suc n) h = omega (arith, pow-succ' 256 n, load-bound mem (at + 1) n h, h at)
