-- ===== src/Acmod/Flags.antt =====
-- The list of differences names the flagged senones, in order, and fits its array.
use pocketsphinx.Base.{
  ℕ, zero, suc, ◌+◌, ◌*◌, ◌/◌, ◌%◌, ◌≤◌, ◌<◌, ◌≡◌, refl, subst, ap, ◌∙◌, inl, inr, Bool, false,
  ◌==◌, arith, if◌then◌else◌, Bool-cases, ==_iff,
}
use pocketsphinx.Util.Bitvec.{bitvec_bits, has_bit, bitvec_is_set}
use pocketsphinx.Util.Bitvec.Laws.{has_bit-zero}
use pocketsphinx.Acmod.{Acmod, Deltas, put_senone, flag_bits, flag_words, acmod_flags2list}
use pocketsphinx.Acmod.Writing.{Lists, At, skip-At, step-At}

from_zero :
    (set : ℕ → Bool) (k flags j : ℕ)
    → set (k + j) ≡ has_bit flags j
    → set (k + (0 + j)) ≡ has_bit flags (0 + j)
from_zero set k flags j h =
    let e : j ≡ 0 + j = omega arith in subst (λ x. set (k + x) ≡ has_bit flags x) e h

module _ (set : ℕ → Bool) where
  flag_bits-At :
      (flags m w b : ℕ) (d : Deltas)
      → ((j : ℕ) → j < m → set (w * bitvec_bits + (b + j)) ≡ has_bit flags (b + j))
      → At set (w * bitvec_bits + b) d
      → At set (w * bitvec_bits + (b + m)) (flag_bits flags m w b d)
  unfolding flag_bits
  flag_bits-At flags zero w b d same at = subst (λ x. At set x d) (omega arith) at
  flag_bits-At flags (suc m) w b d same at =
      let here : set (w * bitvec_bits + b) ≡ has_bit flags b =
        let s = same 0 (omega arith) in let z : b + 0 ≡ b = omega arith in rw z at s in
      let d' = if has_bit flags b then put_senone d (w * bitvec_bits + b) else d in
      let at' = step-At set (w * bitvec_bits + b) d (has_bit flags b) here at in
      let later = λ (j : ℕ) (lt : j < m).
        let e : b + suc j ≡ b + 1 + j = omega arith in
        subst (λ x. set (w * bitvec_bits + x) ≡ has_bit flags x) e (same (suc j) (omega arith)) in
      let end : b + 1 + m ≡ b + suc m = omega arith in
      let next : suc (w * bitvec_bits + b) ≡ w * bitvec_bits + (b + 1) = omega arith in
      subst (λ x. At set (w * bitvec_bits + x) (flag_bits flags m w (b + 1) d')) end
        (flag_bits-At flags m w (b + 1) d' later (subst (λ x. At set x d') next at'))

  -- A word without flags is passed over.
  skip_word-At :
      (m k : ℕ) (d : Deltas)
      → ((j : ℕ) → j < m → set (k + j) ≡ false)
      → At set k d
      → At set (k + m) d
  skip_word-At zero k d none at = subst (λ x. At set x d) (omega arith) at
  skip_word-At (suc m) k d none at =
      let z : k + 0 ≡ k = omega arith in
      let here = skip-At set k d (subst (λ x. set x ≡ false) z (none 0 (omega arith))) at in
      let later = λ (j : ℕ) (lt : j < m).
        let e : k + suc j ≡ suc k + j = omega arith in
        subst (λ x. set x ≡ false) e (none (suc j) (omega arith)) in
      let e : suc k + m ≡ k + suc m = omega arith in
      subst (λ x. At set x d) e (skip_word-At m (suc k) d later here)

  flag_words-At :
      (v : ℕ → ℕ) (m w : ℕ) (d : Deltas)
      → ((u j : ℕ) → j < bitvec_bits → set (u * bitvec_bits + j) ≡ has_bit (v u) j)
      → At set (w * bitvec_bits) d
      → At set ((w + m) * bitvec_bits) (flag_words v m w d)
  unfolding flag_words
  flag_words-At v zero w d same at = subst (λ x. At set x d) (omega arith) at
  flag_words-At v (suc m) w d same at =
      let bits =
        flag_bits-At (v w) bitvec_bits w 0 d
          (λ j lt. from_zero set (w * bitvec_bits) (v w) j (same w j lt))
          (subst (λ x. At set x d) (omega arith) at) in
      let e : (w + 1 + m) * bitvec_bits ≡ (w + suc m) * bitvec_bits = omega arith in
      let e' : w * bitvec_bits + bitvec_bits ≡ (w + 1) * bitvec_bits = omega arith in
      elim (Bool-cases (v w == 0)) [
        | inl z ↦
            let zero_word : v w ≡ 0 = (==_iff (v w) 0).0 z in
            let none = λ (j : ℕ) (lt : j < bitvec_bits).
              same w j lt ∙ ap (λ x. has_bit x j) zero_word ∙ has_bit-zero j in
            let skipped = skip_word-At bitvec_bits (w * bitvec_bits) d none at in
            rw z (
              subst (λ x. At set x (flag_words v m (w + 1) d)) e
                (flag_words-At v m (w + 1) d same (subst (λ x. At set x d) e' skipped)))
        | inr nz ↦
            let d' = flag_bits (v w) bitvec_bits w 0 d in
            rw nz (
              subst (λ x. At set x (flag_words v m (w + 1) d')) e
                (flag_words-At v m (w + 1) d' same (subst (λ x. At set x d') e' bits)))
      ]

is_set_word :
    (v : ℕ → ℕ) (u j : ℕ)
    → j < bitvec_bits
    → bitvec_is_set v (u * bitvec_bits + j) ≡ has_bit (v u) j
unfolding bitvec_is_set
is_set_word v u j lt =
    let e : (u * bitvec_bits + j) / bitvec_bits ≡ u = omega arith in
    let e' : (u * bitvec_bits + j) % bitvec_bits ≡ j = omega arith in rw (e, e') refl

-- The list `a'` names the senones that are flagged in `a`.
pub record NamesFlags (a a' : Acmod) : Type 0 where
  pub lists :
      Lists
        (bitvec_is_set a.senone_active_vec)
        a.n_sen
        a.n_sen
        (record { senone_active = a'.senone_active; n = a'.n_senone_active; l = 0 })
  pub in_array : a'.n_senone_active ≤ a.n_sen
  pub vector : a'.senone_active_vec ≡ a.senone_active_vec

-- Where not all senones are computed, the list written fits its array of one byte for each senone. The
-- sums of its entries rise strictly and stay below the number of senones. Every flagged senone is one
-- of them, and any that is not flagged comes from an entry of 255, which bridges a larger difference.
pub flags2list_lem : (a : Acmod) → a.compallsen ≡ false → NamesFlags a (acmod_flags2list a).0
unfolding acmod_flags2list
flags2list_lem a c =
    let v = a.senone_active_vec in
    let set = bitvec_is_set v in
    let words = a.n_sen / bitvec_bits in
    let start : Deltas = record { senone_active = a.senone_active; n = 0; l = 0 } in
    let at₀ : At set (0 * bitvec_bits) start = record {
      lists = record {
        small = λ i h. absurd (omega arith);
        inside = λ i h. absurd (omega arith);
        wanted = λ i h. absurd (omega arith);
        found = λ j h. absurd (omega arith);
        fits = omega arith;
        rising = λ i h h'. absurd (omega arith);
      };
      last = refl;
      behind = inl (refl, refl);
    } in
    let at₁ = flag_words-At set v words 0 start (λ u j. is_set_word v u j) at₀ in
    let d₁ = flag_words v words 0 start in
    let extra = a.n_sen % bitvec_bits in
    let at₂ =
      flag_bits-At set (v words) extra words 0 d₁
        (λ j lt.
          from_zero set (words * bitvec_bits) (v words) j (is_set_word v words j (omega arith)))
        (subst (λ x. At set x d₁) (omega arith) at₁) in
    let d₂ = flag_bits (v words) extra words 0 d₁ in
    let all : words * bitvec_bits + (0 + extra) ≡ a.n_sen = omega arith in
    let at = subst (λ x. At set x d₂) all at₂ in
    let l = at.lists in
    let f = l.fits in
    let e = at.last in
    rw c (record {
      lists = record {
        small = l.small;
        inside = l.inside;
        wanted = l.wanted;
        found = l.found;
        fits = l.fits;
        rising = l.rising;
      };
      in_array = elim at.behind [ inl z ↦ omega arith | inr b ↦ omega arith ];
      vector = refl;
    })
