-- ===== src/Fsg/Model/Grow.antt =====
-- What every step of the closure keeps: probabilities are those of paths, and never fall.
use pocketsphinx.Base.{
  ℕ, ◌<◌, ◌≡◌, refl, sym, subst, ap, ap₂, ◌∙◌, ◌⊎◌, inl, inr, true, ◌&&◌, none, some, List, ℤ, pos,
  ◌+ℤ◌, ◌≤ℤ◌, ◌==◌, arith, int_laws, Bool-cases,
}
use mathlib.Core.List.{Memᴰ}
use mathlib.Core.List.Memᴰ
use pocketsphinx.Fsg.Model.{FsgModel, Closing, link_at, fsg_model_null_trans_add, note}
use pocketsphinx.Fsg.Model.Nulls.{IsNullLink, IsModel, prob, prob_at}
use pocketsphinx.Fsg.Model.Cases.{Writes, Kept, Added, null_trans_add_lem}
use pocketsphinx.Fsg.Model.Measure.{Less, Less-link, Less-raise}

-- A path of null transitions with the sum of its log probabilities.
pub data NullPath (m : FsgModel) : ℕ → ℕ → ℤ → Type 0 where
  edge : {i j : ℕ} {a : ℤ} → j < m.n_state → prob m i j ≡ some a → NullPath m i j a
  join : {i j k : ℕ} {a b : ℤ} → NullPath m i j a → NullPath m j k b → NullPath m i k (a +ℤ b)

-- `m` comes from `m₀` by adding null transitions that stand for paths.
pub record Grows (m₀ m : FsgModel) : Type 0 where
  pub model : IsModel m
  pub states : m.n_state ≡ m₀.n_state
  pub sound : (i j : ℕ) (c : ℤ) → j < m.n_state → prob m i j ≡ some c → NullPath m₀ i j c
  pub above :
      (i j : ℕ) (a : ℤ)
      → j < m.n_state
      → prob m₀ i j ≡ some a
      → (b : ℤ) × (prob m i j ≡ some b) × (a ≤ℤ b)

-- `nulls` has the null transitions of `m`, and nothing else.
pub record Lists (m : FsgModel) (nulls : List ℕ) : Type 0 where
  pub known : (p : ℕ) → Memᴰ p nulls → (i : ℕ) × (j : ℕ) × IsNullLink m i j p
  pub complete : (i j p : ℕ) → IsNullLink m i j p → Memᴰ p nulls

pub prob-link :
    (m : FsgModel) (i j p : ℕ) → IsNullLink m i j p → prob m i j ≡ some (link_at m p).logs2prob
prob-link m i j p l = ap (prob_at m) l.at

≤ℤ_trans : (a b c : ℤ) → a ≤ℤ b → b ≤ℤ c → a ≤ℤ c
≤ℤ_trans a b c p q = omega arith

writes-Grows :
    (m₀ m m' : FsgModel) (from to : ℕ) (logp : ℤ)
    → Grows m₀ m
    → Writes m m' from to logp
    → NullPath m₀ from to logp
    → ((b : ℤ) → prob m from to ≡ some b → b ≤ℤ logp)
    → Grows m₀ m'
writes-Grows m₀ m m' from to logp g t path top = record {
  model = t.model;
  states = t.states ∙ g.states;
  sound = λ i j c l e.
      let l' : j < m.n_state = subst (λ n. j < n) t.states l in
      let e' = sym (t.probs i j l') ∙ e in
      elim (Bool-cases ((i == from) && (to == j))) [
        | inl b ↦
            let qi : i ≡ from = ground arith in
            let qj : j ≡ to = ground arith in
            let e'' : some logp ≡ some c = rw b at e' in
            let qc : c ≡ logp = cc in rw (qi, qj, qc) path
        | inr b ↦ g.sound i j c l' (let e'' : prob m i j ≡ some c = rw b at e' in e'')
      ];
  above = λ i j a l e.
      let l' : j < m.n_state = subst (λ n. j < n) t.states l in
      let (b, was, le) = g.above i j a l' e in
      elim (Bool-cases ((i == from) && (to == j))) [
        | inl u ↦
            let qi : i ≡ from = ground arith in
            let qj : j ≡ to = ground arith in
            let was' : prob m from to ≡ some b = sym (ap₂ (λ x y. prob m x y) qi qj) ∙ was in
            (logp, t.probs i j l' ∙ rw u refl, ≤ℤ_trans a b logp le (top b was'))
        | inr u ↦ (b, t.probs i j l' ∙ rw u was, le)
      ];
}

-- What a step of the closure does: nothing, or it notes an update that brings it nearer its end.
abbrev pub Progress : Closing → Closing → Type 0 → Type 0
Progress s s' Done = ((s' ≡ s) × Done) ⊎ ((s'.updated ≡ true) × Less s'.model s.model)

pub record Steps (m₀ : FsgModel) (s s' : Closing) : Type 0 where
  pub grows : Grows m₀ s'.model
  pub lists : Lists s'.model s'.nulls
  pub stays : (i j q : ℕ) → IsNullLink s.model i j q → IsNullLink s'.model i j q

module _ (m₀ : FsgModel) (s : Closing) (i j k p q : ℕ) (g : Grows m₀ s.model)
    (ls : Lists s.model s.nulls) (lp : IsNullLink s.model i j p)
    (lq : IsNullLink s.model j k q) where
  abbrev logp : ℤ
  logp = (link_at s.model p).logs2prob +ℤ (link_at s.model q).logs2prob

  logp-certain : logp ≤ℤ pos 0
  logp-certain = let a = lp.certain in let b = lq.certain in omega int_laws

  path : NullPath m₀ i k logp
  path =
      NullPath.join (g.sound i j _ lp.to_lt (prob-link s.model i j p lp))
        (g.sound j k _ lq.to_lt (prob-link s.model j k q lq))

  -- The effect of adding the transition past two links.
  pub note_lem :
      (r : ℤ × FsgModel)
      → Added s.model i k logp r
      → Steps m₀ s (note s i k r) × Progress s (note s i k r) (Kept s.model i k logp)
  unfolding note
  note_lem (n, m') (inl (e, same, kept)) =
      rw (e, same) (record { grows = g; lists = ls; stays = λ a b c l. l }, inl (refl, kept))
  note_lem (n, m') (inr (inl (e, t, (b, was, lt), old))) = rw e (
    record {
      grows =
          writes-Grows m₀ s.model m' i k logp g t path
            (λ c e'. let q : some b ≡ some c = sym was ∙ e' in let q' : c ≡ b = cc in ground arith);
      lists = record {
        known = λ x mem. let (a, b, l) = ls.known x mem in (a, b, t.stays a b x l);
        complete = λ a b x l. ls.complete a b x (old a b x l);
      };
      stays = t.stays;
    },
    inr (refl, Less-raise s.model m' i k logp t lp.from_lt lq.to_lt b was lt logp-certain),
  )
  note_lem (n, m') (inr (inr (e, t, was, (x, l, sorts)))) =
      rw (e, l.at)
        (
          record {
            grows =
                writes-Grows m₀ s.model m' i k logp g t path
                  (λ c e'. let q : none ≡ some c = sym was ∙ e' in cc);
            lists = record {
              known = λ y mem. elim (Memᴰ.cases_cons mem) [
                | inl q ↦ (i, k, subst (λ z. IsNullLink m' i k z) (sym q) l)
                | inr old ↦ let (a, b, l') = ls.known y old in (a, b, t.stays a b y l')
              ];
              complete = λ a b y l'. elim (sorts a b y l') [
                | inl old ↦ Memᴰ.tail (ls.complete a b y old)
                | inr q ↦ Memᴰ.head q
              ];
            };
            stays = t.stays;
          },
          inr (refl, Less-link s.model m' i k logp t lp.from_lt lq.to_lt was),
        )

  pub step_lem :
      (r : ℤ × FsgModel) × (fsg_model_null_trans_add s.model i k logp ≡ some r)
      × Steps m₀ s (note s i k r)
      × Progress s (note s i k r) (Kept s.model i k logp)
  step_lem =
      let (r, e, added) =
        null_trans_add_lem s.model i k logp g.model lp.from_lt lq.to_lt logp-certain in
      let (steps, progress) = note_lem r added in (r, e, steps, progress)
