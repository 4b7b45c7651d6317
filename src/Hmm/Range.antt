-- ===== src/Hmm/Range.antt =====
-- No sum of a step overflows an int32, and the scores keep their range.
use pocketsphinx.Base.{
  ℕ, zero, suc, ◌<◌, inl, inr, Bool, [], ◌∷◌, ℤ, pos, negsuc, ◌≤ℤ◌, neg_ℤ, arith, int_laws,
}
use pocketsphinx.Hmm.{Hmm, Context, floor, worst_score}
use pocketsphinx.Hmm.Eval.{int_min, hmm_vit_eval_5st_lr}
use pocketsphinx.Hmm.Choice.{Candidates, Among, Takes, TakesIf}
use pocketsphinx.Hmm.FiveState.{via, five_state_lem}

-- Between the worst score and 0.
abbrev pub InRange : ℤ → Type 0
InRange s = (worst_score ≤ℤ s) × (s ≤ℤ pos 0)

-- The tables hold what their C types and the sign convention allow: transition scores of 8 bits, and
-- senone scores of 15.
pub record IsModel (c : Context) : Type 0 where
  pub transitions : (id i j : ℕ) → c.tp id i j < 256
  pub senones : (senid : ℕ) → (pos 0 ≤ℤ c.senscore senid) × (c.senscore senid ≤ℤ pos 32767)

pub record HasRange (h : Hmm) : Type 0 where
  pub states : (i : ℕ) → i < 5 → InRange (h.score i)
  pub out : InRange h.out_score

neg_small : (n : ℕ) → n < 256 → (neg_ℤ (pos n) ≤ℤ pos 0) × (negsuc 254 ≤ℤ neg_ℤ (pos n))
neg_small zero h = (omega arith, omega arith)
neg_small (suc n) h = (omega arith, omega arith)

abbrev AllNonpos : Candidates → Type 0
AllNonpos [] = Unit
AllNonpos ((w, i) ∷ cs) = (w ≤ℤ pos 0) × AllNonpos cs

Among-nonpos : (v : ℤ) (i : ℕ) (cs : Candidates) → Among v i cs → AllNonpos cs → v ≤ℤ pos 0
Among-nonpos v i [] m a = elim m [ ]
Among-nonpos v i ((w, k) ∷ cs) (inl (e, e')) a = rw e a.0
Among-nonpos v i ((w, k) ∷ cs) (inr m) a = Among-nonpos v i cs m a.1

floor-InRange : (v : ℤ) → v ≤ℤ pos 0 → InRange (floor v)
floor-InRange v h = ground arith

Takes-InRange :
    (history : ℕ → ℤ) (cs : Candidates) (score hist : ℤ)
    → AllNonpos cs
    → Takes history cs score hist
    → InRange score
Takes-InRange history cs score hist a (v, i, best, s, e) =
    rw s (floor-InRange v (Among-nonpos v i cs best.0 a))

TakesIf-InRange :
    (b : Bool) (history : ℕ → ℤ) (cs : Candidates) (score hist old old_hist : ℤ)
    → AllNonpos cs
    → InRange old
    → TakesIf b history cs score hist old old_hist
    → InRange score
TakesIf-InRange b history cs score hist old old_hist a o (inl (e, t)) =
    Takes-InRange history cs score hist a t
TakesIf-InRange b history cs score hist old old_hist a o (inr (e, s, t)) = rw s o

below_five : (P : ℕ → Type 0) → P 0 → P 1 → P 2 → P 3 → P 4 → (i : ℕ) → i < 5 → P i
below_five P p₀ p₁ p₂ p₃ p₄ zero lt = p₀
below_five P p₀ p₁ p₂ p₃ p₄ (suc zero) lt = p₁
below_five P p₀ p₁ p₂ p₃ p₄ (suc (suc zero)) lt = p₂
below_five P p₀ p₁ p₂ p₃ p₄ (suc (suc (suc zero))) lt = p₃
below_five P p₀ p₁ p₂ p₃ p₄ (suc (suc (suc (suc zero)))) lt = p₄
below_five P p₀ p₁ p₂ p₃ p₄ (suc (suc (suc (suc (suc i))))) lt = absurd (omega arith)

module _ (c : Context) (h : Hmm) (model : IsModel c) (range : HasRange h) where
  -- A sum as the source computes it.
  via_bounds : (i j : ℕ) → i < 5 → (int_min ≤ℤ (via c h j i).0) × ((via c h j i).0 ≤ℤ pos 0)
  via_bounds i j lt =
      let s = range.states i lt in
      let t = neg_small (c.tp h.tmatid i j) (model.transitions h.tmatid i j) in
      let e = model.senones (h.senid i) in (omega int_laws, omega int_laws)

  -- For tables within their types and scores between the worst and 0, no sum of a step for 5 states
  -- leaves the range of an int32, and the scores after the step are between the worst and 0 again.
  pub five_state_range :
      ((i j : ℕ) → i < 5 → (int_min ≤ℤ (via c h j i).0) × ((via c h j i).0 ≤ℤ pos 0))
      × HasRange (hmm_vit_eval_5st_lr c h).1
  five_state_range =
      let w = λ (j i : ℕ) (lt : i < 5). (via_bounds i j lt).1 in
      let (t₅, t₄, t₃, t₂, t₁, t₀, e, m) = five_state_lem c h in
      let r = (hmm_vit_eval_5st_lr c h).1 in
      (
        via_bounds,
        record {
          states =
              below_five (λ i. InRange (r.score i))
                (Takes-InRange h.history (via c h 0 0 ∷ []) _ _ (w 0 0 (omega arith), tt) t₀)
                (Takes-InRange h.history (via c h 1 1 ∷ via c h 1 0 ∷ []) _ _
                  (w 1 1 (omega arith), (w 1 0 (omega arith), tt)) t₁)
                (Takes-InRange h.history (via c h 2 2 ∷ via c h 2 1 ∷ via c h 2 0 ∷ []) _ _
                  (w 2 2 (omega arith), (w 2 1 (omega arith), (w 2 0 (omega arith), tt))) t₂)
                (TakesIf-InRange _ h.history (via c h 3 3 ∷ via c h 3 2 ∷ via c h 3 1 ∷ []) _ _ _ _
                  (w 3 3 (omega arith), (w 3 2 (omega arith), (w 3 1 (omega arith), tt)))
                  (range.states 3 (omega arith)) t₃)
                (TakesIf-InRange _ h.history (via c h 4 4 ∷ via c h 4 3 ∷ via c h 4 2 ∷ []) _ _ _ _
                  (w 4 4 (omega arith), (w 4 3 (omega arith), (w 4 2 (omega arith), tt)))
                  (range.states 4 (omega arith)) t₄);
          out =
              TakesIf-InRange _ h.history (via c h 5 4 ∷ via c h 5 3 ∷ []) _ _ _ _
                (w 5 4 (omega arith), (w 5 3 (omega arith), tt)) range.out t₅;
        },
      )
