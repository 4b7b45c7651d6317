-- ===== src/Fsg/Model/Measure.antt =====
-- Why the closure ends: every update leaves fewer pairs of states without a link, or as few with higher
-- probabilities.
use pocketsphinx.Base.{
  ℕ, zero, suc, ◌+◌, ◌≤◌, ◌<◌, ◌≡◌, sym, subst, ◌⊎◌, inl, inr, true, ◌&&◌, Option, none, some, ℤ,
  pos, neg_part, ◌≤ℤ◌, ltb_ℤ, ◌==◌, arith, Bool-cases,
}
use native.Mathlib.Decide.{ℕ_discrete}
use pocketsphinx.Fsg.Model.{FsgModel}
use pocketsphinx.Fsg.Model.Nulls.{prob}
use pocketsphinx.Fsg.Model.Cases.{Writes}

unfoldable sum : ℕ → (ℕ → ℕ) → ℕ
sum zero f = 0
sum (suc n) f = f n + sum n f

sum_le : (n : ℕ) (f g : ℕ → ℕ) → ((i : ℕ) → i < n → f i ≤ g i) → sum n f ≤ sum n g
unfolding sum
sum_le zero f g h = omega arith
sum_le (suc n) f g h =
    let a = h n (omega arith) in let b = sum_le n f g (λ i l. h i (omega arith)) in omega arith

sum_lt :
    (n : ℕ) (f g : ℕ → ℕ) (k : ℕ)
    → ((i : ℕ) → i < n → f i ≤ g i)
    → k < n
    → f k < g k
    → sum n f < sum n g
unfolding sum
sum_lt zero f g k h l s = absurd (omega arith)
sum_lt (suc n) f g k h l s = elim (ℕ_discrete k n) [
  | yes q ↦
      let a : f n < g n = subst (λ x. f x < g x) q s in
      let b = sum_le n f g (λ i l'. h i (omega arith)) in omega arith
  | no q ↦
      let a = h n (omega arith) in
      let b = sum_lt n f g k (λ i l'. h i (omega arith)) (omega arith) s in omega arith
]

-- The sum of a weight over all pairs of states.
abbrev total : (Option ℤ → ℕ) → ℕ → FsgModel → ℕ
total w n m = sum n (λ i. sum n (λ j. w (prob m i j)))

abbrev is_missing : Option ℤ → ℕ
is_missing none = 1
is_missing (some b) = 0

abbrev cost : Option ℤ → ℕ
cost none = 0
cost (some b) = neg_part b

unfoldable pub missing : FsgModel → ℕ
unfolding sum
missing m = total is_missing m.n_state m

unfoldable pub deficit : FsgModel → ℕ
unfolding sum
deficit m = total cost m.n_state m

abbrev pub Less : FsgModel → FsgModel → Type 0
Less m' m = (missing m' < missing m) ⊎ ((missing m' ≤ missing m) × (deficit m' < deficit m))

pub Less-trans : (a b c : FsgModel) → Less a b → Less b c → Less a c
Less-trans a b c (inl p) (inl q) = inl (omega arith)
Less-trans a b c (inl p) (inr q) = inl (omega arith)
Less-trans a b c (inr p) (inl q) = inl (omega arith)
Less-trans a b c (inr p) (inr q) = inr (omega arith, omega arith)

module _ (m m' : FsgModel) (from to : ℕ) (logp : ℤ) (t : Writes m m' from to logp)
    (lf : from < m.n_state) (lt : to < m.n_state) where
  weight_le :
      (w : Option ℤ → ℕ)
      → w (some logp) ≤ w (prob m from to)
      → (i j : ℕ) → j < m.n_state
      → w (prob m' i j) ≤ w (prob m i j)
  weight_le w h i j l = elim (Bool-cases ((i == from) && (to == j))) [
    | inl b ↦
        let qi : i ≡ from = ground arith in
        let qj : j ≡ to = ground arith in rw (t.probs i j l, b, qi, qj) h
    | inr b ↦ rw (t.probs i j l, b) (omega arith)
  ]

  weight_lt :
      (w : Option ℤ → ℕ)
      → w (some logp) < w (prob m from to)
      → w (prob m' from to) < w (prob m from to)
  weight_lt w h =
      let b : (from == from) ≡ true = ground arith in
      let b' : (to == to) ≡ true = ground arith in rw (t.probs from to lt, b, b') h

  total_le :
      (w : Option ℤ → ℕ)
      → w (some logp) ≤ w (prob m from to)
      → total w m'.n_state m' ≤ total w m.n_state m
  total_le w h =
      subst (λ n. total w n m' ≤ total w m.n_state m) (sym t.states)
        (sum_le m.n_state _ _ (λ i li. sum_le m.n_state _ _ (λ j lj. weight_le w h i j lj)))

  total_lt :
      (w : Option ℤ → ℕ)
      → w (some logp) < w (prob m from to)
      → total w m'.n_state m' < total w m.n_state m
  total_lt w h =
      subst (λ n. total w n m' < total w m.n_state m) (sym t.states)
        (sum_lt m.n_state _ _ from
          (λ i li. sum_le m.n_state _ _ (λ j lj. weight_le w (omega arith) i j lj)) lf
          (sum_lt m.n_state _ _ to (λ j lj. weight_le w (omega arith) from j lj) lt
            (weight_lt w h)))

  pub Less-link : prob m from to ≡ none → Less m' m
  unfolding missing
  Less-link e = inl (total_lt is_missing (rw e (omega arith)))

  pub Less-raise :
      (b : ℤ) → prob m from to ≡ some b → ltb_ℤ b logp ≡ true → logp ≤ℤ pos 0 → Less m' m
  unfolding missing deficit
  Less-raise b e s neg =
      inr (total_le is_missing (rw e (omega arith)), total_lt cost (rw e (ground arith)))
