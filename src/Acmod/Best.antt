-- ===== src/Acmod/Best.antt =====
-- The best score of a frame.
use pocketsphinx.Base.{
  ℕ, zero, suc, ◌+◌, ◌≤◌, ◌<◌, ◌≡◌, refl, subst, ap, ◌∙◌, ◌⊎◌, inl, inr, none, some, ℤ, ◌≤ℤ◌, ltb_ℤ,
  arith, if◌then◌else◌, Bool-cases,
}
use native.Mathlib.Decide.{ℕ_discrete}
use pocketsphinx.Acmod.{
  Acmod, Best, take_better, best_all, best_active, acmod_best_score, senscr_dummy,
}
use pocketsphinx.Acmod.Writing.{cursor}

-- Of the values at the places from i on, m in number, and the best so far, `r` is the least.
pub record IsLeast (value : ℕ → ℤ) (m i : ℕ) (best r : Best) : Type 0 where
  pub below : r.0 ≤ℤ best.0
  pub least : (k : ℕ) → i ≤ k → k < i + m → r.0 ≤ℤ value k
  pub attained : (r ≡ best) ⊎ ((k : ℕ) × (i ≤ k) × (k < i + m) × (r ≡ (value k, some k)))

module _ (value : ℕ → ℤ) where
  IsLeast-none : (i : ℕ) (best : Best) → IsLeast value 0 i best best
  IsLeast-none i best = record {
    below = omega arith;
    least = λ k h h'. absurd (omega arith);
    attained = inl refl;
  }

  IsLeast-more :
      (m i : ℕ) (best r : Best)
      → IsLeast value m (i + 1) (take_better best (value i) i) r
      → IsLeast value (suc m) i best r
  unfolding take_better
  IsLeast-more m i best r l = elim (Bool-cases (ltb_ℤ (value i) best.0)) [
    | inl e ↦
        let b : take_better best (value i) i ≡ (value i, some i) = rw e refl in
        let l' = subst (λ x. IsLeast value m (i + 1) x r) b l in
        let low = l'.below in
        record {
          below = ground arith;
          least = λ k h h'. elim (ℕ_discrete k i) [
            | yes q ↦ rw q low
            | no ne ↦ l'.least k (omega arith) (omega arith)
          ];
          attained = inr (elim l'.attained [
            | inl q ↦ (i, omega arith, omega arith, q)
            | inr (k, h, h', q) ↦ (k, omega arith, omega arith, q)
          ]);
        }
    | inr e ↦
        let b : take_better best (value i) i ≡ best = rw e refl in
        let l' = subst (λ x. IsLeast value m (i + 1) x r) b l in
        let low = l'.below in
        record {
          below = low;
          least = λ k h h'. elim (ℕ_discrete k i) [
            | yes q ↦ rw q (ground arith)
            | no ne ↦ l'.least k (omega arith) (omega arith)
          ];
          attained = elim l'.attained [
            | inl q ↦ inl q
            | inr (k, h, h', q) ↦ inr (k, omega arith, omega arith, q)
          ];
        }
  ]

best_all-IsLeast :
    (scores : ℕ → ℤ) (m i : ℕ) (best : Best) → IsLeast scores m i best (best_all scores m i best)
unfolding best_all
best_all-IsLeast scores zero i best = IsLeast-none scores i best
best_all-IsLeast scores (suc m) i best =
    IsLeast-more scores m i best (best_all scores (suc m) i best)
      (best_all-IsLeast scores m (i + 1) (take_better best (scores i) i))

step : (deltas : ℕ → ℕ) (i at : ℕ) → at ≡ cursor deltas i → at + deltas i ≡ cursor deltas (i + 1)
step deltas i at e =
    let s : suc i ≡ i + 1 = omega arith in ap (λ x. x + deltas i) e ∙ ap (cursor deltas) s

best_active-IsLeast :
    (scores : ℕ → ℤ) (deltas : ℕ → ℕ) (m i at : ℕ) (best : Best)
    → at ≡ cursor deltas i
    → IsLeast (λ k. scores (cursor deltas (suc k))) m i best (best_active scores deltas m i at best)
unfolding best_active
best_active-IsLeast scores deltas zero i at best e =
    IsLeast-none (λ k. scores (cursor deltas (suc k))) i best
best_active-IsLeast scores deltas (suc m) i at best e =
    let next : at + deltas i ≡ cursor deltas (i + 1) = step deltas i at e in
    let value = λ (k : ℕ). scores (cursor deltas (suc k)) in
    let b = take_better best (scores (at + deltas i)) i in
    let r = best_active scores deltas m (i + 1) (at + deltas i) b in
    let same : scores (at + deltas i) ≡ value i = ap (λ x. scores (x + deltas i)) e in
    IsLeast-more value m i best r (
      subst (λ x. IsLeast value m (i + 1) (take_better best x i) r) same
        (best_active-IsLeast scores deltas m (i + 1) (at + deltas i) b next))

-- The best score is the least of the dummy score and the scores of the senones: of all of them where
-- all are computed, else of those that the entries of the list stand for. Beside it stands the place
-- of the score, if one is below the dummy: the senone in the first case, but the place in the list in
-- the second.
pub best_score_lem :
    (a : Acmod) (scores : ℕ → ℤ)
    → IsLeast
        (if a.compallsen then scores else λ k. scores (cursor a.senone_active (suc k)))
        (if a.compallsen then a.n_sen else a.n_senone_active)
        0
        (senscr_dummy, none)
        (acmod_best_score a scores)
unfolding acmod_best_score
best_score_lem a scores = elim (Bool-cases a.compallsen) [
  | inl e ↦ simp e (best_all-IsLeast scores a.n_sen 0 (senscr_dummy, none))
  | inr e ↦
      simp e
        (best_active-IsLeast scores a.senone_active a.n_senone_active 0 0 (senscr_dummy, none) refl)
]
