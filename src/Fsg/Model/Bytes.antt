-- ===== src/Fsg/Model/Bytes.antt =====
-- Different state numbers have different bytes.
use pocketsphinx.Base.{
  ℕ, zero, suc, ◌/◌, ◌%◌, ◌<◌, ◌≡◌, ap, ◌∙◌, sym, Bool, true, false, List, [], ◌∷◌, ℤ, arith, ◌==◌,
  Bool-cases, inl, inr,
}
use pocketsphinx.Util.HashTable.{to_u8}
use pocketsphinx.Util.HashTable.Buckets.{same, same-norm}
use pocketsphinx.Fsg.Model.{char_at, bytes}

to_u8-char_at : (n : ℕ) → to_u8 (char_at n) ≡ n % 256
to_u8-char_at n = ground arith

abbrev byte : List ℤ → ℕ → ℕ
byte [] i = 0
byte (c ∷ cs) zero = to_u8 c
byte (c ∷ cs) (suc i) = byte cs i

bytes-injective : (a b : ℕ) → a < 4294967296 → b < 4294967296 → bytes a ≡ bytes b → a ≡ b
unfolding bytes
bytes-injective a b la lb e =
    let e₀ : a % 256 ≡ b % 256 =
      sym (to_u8-char_at a) ∙ ap (λ (k : List ℤ). byte k 0) e ∙ to_u8-char_at b in
    let e₁ : a / 256 % 256 ≡ b / 256 % 256 =
      sym (to_u8-char_at (a / 256)) ∙ ap (λ (k : List ℤ). byte k 1) e ∙ to_u8-char_at (b / 256) in
    let e₂ : a / 65536 % 256 ≡ b / 65536 % 256 =
      sym (to_u8-char_at (a / 65536))
      ∙ ap (λ (k : List ℤ). byte k 2) e
      ∙ to_u8-char_at (b / 65536) in
    let e₃ : a / 16777216 % 256 ≡ b / 16777216 % 256 =
      sym (to_u8-char_at (a / 16777216))
      ∙ ap (λ (k : List ℤ). byte k 3) e
      ∙ to_u8-char_at (b / 16777216) in
    omega arith

-- A table that minds case tells the bytes of two numbers apart exactly if the numbers differ.
pub same-bytes :
    (nocase : Bool) (a b : ℕ)
    → nocase ≡ false
    → a < 4294967296
    → b < 4294967296
    → same nocase (bytes a) (bytes b) ≡ (a == b)
same-bytes false a b c la lb = elim (Bool-cases (a == b)) [
  | inl t ↦
      let q : a ≡ b = ground arith in (same-norm false (bytes a) (bytes b)).1 (ap bytes q) ∙ sym t
  | inr t ↦ elim (Bool-cases (same false (bytes a) (bytes b))) [
    | inl s ↦
        let q = bytes-injective a b la lb ((same-norm false (bytes a) (bytes b)).0 s) in
        absurd (ground arith)
    | inr s ↦ s ∙ sym t
  ]
]
same-bytes true a b c la lb = cc
