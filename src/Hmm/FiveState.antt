-- ===== src/Hmm/FiveState.antt =====
-- The unrolled step for 5 states takes, for every state, the best of its predecessors.
use pocketsphinx.Base.{
  ℕ, ◌-◌, ◌≤◌, ◌≡◌, refl, inl, Bool, true, false, [], ◌∷◌, ℤ, ◌+ℤ◌, arith, if◌then◌else◌,
}
use pocketsphinx.Hmm.{
  Hmm, Progress, leave, arrive_from, Context, better, floor, worst_score, choose2, choose3,
}
use pocketsphinx.Hmm.Eval.{emit, tprob, begin, sweep5, hmm_vit_eval_5st_lr}
use pocketsphinx.Hmm.Choice.{
  Takes, TakesIf, takes_if, choose2-IsBest, choose3-IsBest, IsTop, IsTop-leave, IsTop-arrive,
}

-- What the updates leave in each state, where a choice reaches at most two states back.
pub sweep5_lem :
    (h : Hmm) (b₅ b₄ b₃ : Bool) (c₅ c₄ c₃ c₂ c₁ : ℤ × ℕ) (s₀ : ℤ)
    → c₃.1 ≤ 2
    → c₂.1 ≤ 2
    → c₁.1 ≤ 1
    → let h' = (sweep5 h b₅ b₄ b₃ c₅ c₄ c₃ c₂ c₁ s₀).hmm in
      ((h'.out_score ≡ (if b₅ then floor c₅.0 else h.out_score))
        × (h'.out_history ≡ (if b₅ then h.history (4 - c₅.1) else h.out_history)))
      × ((h'.score 4 ≡ (if b₄ then floor c₄.0 else h.score 4))
          × (h'.history 4 ≡ (if b₄ then h.history (4 - c₄.1) else h.history 4)))
      × ((h'.score 3 ≡ (if b₃ then floor c₃.0 else h.score 3))
          × (h'.history 3 ≡ (if b₃ then h.history (3 - c₃.1) else h.history 3)))
      × ((h'.score 2 ≡ floor c₂.0) × (h'.history 2 ≡ h.history (2 - c₂.1)))
      × ((h'.score 1 ≡ floor c₁.0) × (h'.history 1 ≡ h.history (1 - c₁.1)))
      × ((h'.score 0 ≡ floor s₀) × (h'.history 0 ≡ h.history 0))
unfolding sweep5
sweep5_lem h true true true c₅ c₄ c₃ c₂ c₁ s₀ l₃ l₂ l₁ = ground arith
sweep5_lem h true true false c₅ c₄ c₃ c₂ c₁ s₀ l₃ l₂ l₁ = ground arith
sweep5_lem h true false true c₅ c₄ c₃ c₂ c₁ s₀ l₃ l₂ l₁ = ground arith
sweep5_lem h true false false c₅ c₄ c₃ c₂ c₁ s₀ l₃ l₂ l₁ = ground arith
sweep5_lem h false true true c₅ c₄ c₃ c₂ c₁ s₀ l₃ l₂ l₁ = ground arith
sweep5_lem h false true false c₅ c₄ c₃ c₂ c₁ s₀ l₃ l₂ l₁ = ground arith
sweep5_lem h false false true c₅ c₄ c₃ c₂ c₁ s₀ l₃ l₂ l₁ = ground arith
sweep5_lem h false false false c₅ c₄ c₃ c₂ c₁ s₀ l₃ l₂ l₁ = ground arith

-- The best score is that of a state that was updated, or the worst, and no updated state beats it.
sweep5-IsTop-floor :
    (h : Hmm) (b₅ b₄ b₃ : Bool) (c₅ c₄ c₃ c₂ c₁ : ℤ × ℕ) (s₀ : ℤ)
    → IsTop (sweep5 h b₅ b₄ b₃ c₅ c₄ c₃ c₂ c₁ s₀).best (
        floor s₀
        ∷ floor c₁.0
        ∷ floor c₂.0
        ∷ (if b₃ then floor c₃.0 else worst_score)
        ∷ (if b₄ then floor c₄.0 else worst_score)
        ∷ (if b₅ then floor c₅.0 else worst_score)
        ∷ [])
unfolding sweep5
sweep5-IsTop-floor h b₅ b₄ b₃ c₅ c₄ c₃ c₂ c₁ s₀ =
    let p₅ : Progress = if b₅ then leave (begin h) 4 c₅ else begin h in
    let p₄ : Progress = if b₄ then arrive_from p₅ 4 c₄ else p₅ in
    let p₃ : Progress = if b₃ then arrive_from p₄ 3 c₃ else p₄ in
    let p₂ = arrive_from p₃ 2 c₂ in
    let t₃ = IsTop-arrive b₃ p₄ 3 c₃ _ (IsTop-arrive b₄ p₅ 4 c₄ _ (IsTop-leave b₅ h 4 c₅)) in
    IsTop-arrive true (arrive_from p₂ 1 c₁) 0 (s₀, 0) _
      (IsTop-arrive true p₂ 1 c₁ _ (IsTop-arrive true p₃ 2 c₂ _ t₃))

abbrev pub Tops : Hmm → Bool → Bool → Bool → Progress → Type 0
Tops h b₅ b₄ b₃ p = IsTop p.best (
    p.hmm.score 0
    ∷ p.hmm.score 1
    ∷ p.hmm.score 2
    ∷ (if b₃ then p.hmm.score 3 else worst_score)
    ∷ (if b₄ then p.hmm.score 4 else worst_score)
    ∷ (if b₅ then p.hmm.out_score else worst_score)
    ∷ [])

pub sweep5-IsTop :
    (h : Hmm) (b₅ b₄ b₃ : Bool) (c₅ c₄ c₃ c₂ c₁ : ℤ × ℕ) (s₀ : ℤ)
    → Tops h b₅ b₄ b₃ (sweep5 h b₅ b₄ b₃ c₅ c₄ c₃ c₂ c₁ s₀)
unfolding sweep5
sweep5-IsTop h true true true c₅ c₄ c₃ c₂ c₁ s₀ =
    sweep5-IsTop-floor h true true true c₅ c₄ c₃ c₂ c₁ s₀
sweep5-IsTop h true true false c₅ c₄ c₃ c₂ c₁ s₀ =
    sweep5-IsTop-floor h true true false c₅ c₄ c₃ c₂ c₁ s₀
sweep5-IsTop h true false true c₅ c₄ c₃ c₂ c₁ s₀ =
    sweep5-IsTop-floor h true false true c₅ c₄ c₃ c₂ c₁ s₀
sweep5-IsTop h true false false c₅ c₄ c₃ c₂ c₁ s₀ =
    sweep5-IsTop-floor h true false false c₅ c₄ c₃ c₂ c₁ s₀
sweep5-IsTop h false true true c₅ c₄ c₃ c₂ c₁ s₀ =
    sweep5-IsTop-floor h false true true c₅ c₄ c₃ c₂ c₁ s₀
sweep5-IsTop h false true false c₅ c₄ c₃ c₂ c₁ s₀ =
    sweep5-IsTop-floor h false true false c₅ c₄ c₃ c₂ c₁ s₀
sweep5-IsTop h false false true c₅ c₄ c₃ c₂ c₁ s₀ =
    sweep5-IsTop-floor h false false true c₅ c₄ c₃ c₂ c₁ s₀
sweep5-IsTop h false false false c₅ c₄ c₃ c₂ c₁ s₀ =
    sweep5-IsTop-floor h false false false c₅ c₄ c₃ c₂ c₁ s₀

module _ (c : Context) (h : Hmm) where
  -- The way from state `i` to state `j`.
  abbrev pub via : ℕ → ℕ → ℤ × ℕ
  via j i = (emit c h i +ℤ tprob c h i j, i)

  abbrev pub active : ℕ → Bool
  active i = better (emit c h i) worst_score

  -- What a step leaves.
  abbrev pub Steps : ℤ × Hmm → Type 0
  Steps r =
      let h' = r.1 in
      TakesIf (active 3) h.history (via 5 4 ∷ via 5 3 ∷ []) h'.out_score h'.out_history h.out_score
        h.out_history
      × TakesIf (active 2) h.history (via 4 4 ∷ via 4 3 ∷ via 4 2 ∷ []) (h'.score 4) (h'.history 4)
          (h.score 4) (h.history 4)
      × TakesIf (active 1) h.history (via 3 3 ∷ via 3 2 ∷ via 3 1 ∷ []) (h'.score 3) (h'.history 3)
          (h.score 3) (h.history 3)
      × Takes h.history (via 2 2 ∷ via 2 1 ∷ via 2 0 ∷ []) (h'.score 2) (h'.history 2)
      × Takes h.history (via 1 1 ∷ via 1 0 ∷ []) (h'.score 1) (h'.history 1)
      × Takes h.history (via 0 0 ∷ []) (h'.score 0) (h'.history 0)
      × (r.0 ≡ h'.bestscore)
      × IsTop r.0 (
          h'.score 0
          ∷ h'.score 1
          ∷ h'.score 2
          ∷ (if active 1 then h'.score 3 else worst_score)
          ∷ (if active 2 then h'.score 4 else worst_score)
          ∷ (if active 3 then h'.out_score else worst_score)
          ∷ [])

  -- One step on a 5-state HMM: the exit state takes the better way from states 4 and 3 if state 3 is
  -- active, state 4 the best from 4, 3 and 2 if 2 is, state 3 the best from 3, 2 and 1 if 1 is, and
  -- is else left alone; states 2, 1 and 0 take the best from themselves and the two states before.
  -- Each takes the history of the state it comes from as it was before the step, and the score,
  -- but not less than the worst. The number returned is the HMM's best score: the greatest of the
  -- scores that were updated and the worst.
  pub five_state_lem : Steps (hmm_vit_eval_5st_lr c h)
  unfolding hmm_vit_eval_5st_lr
  five_state_lem =
      let p₅ = choose2-IsBest (via 5 4).0 (via 5 3).0 4 in
      let p₄ = choose3-IsBest (via 4 4).0 (via 4 3).0 (via 4 2).0 4 in
      let p₃ = choose3-IsBest (via 3 3).0 (via 3 2).0 (via 3 1).0 3 in
      let p₂ = choose3-IsBest (via 2 2).0 (via 2 1).0 (via 2 0).0 2 in
      let p₁ = choose2-IsBest (via 1 1).0 (via 1 0).0 1 in
      let (q₅, q₄, q₃, q₂, q₁, q₀) =
        sweep5_lem h (active 3) (active 2) (active 1) (choose2 (via 5 4).0 (via 5 3).0)
          (choose3 (via 4 4).0 (via 4 3).0 (via 4 2).0)
          (choose3 (via 3 3).0 (via 3 2).0 (via 3 1).0)
          (choose3 (via 2 2).0 (via 2 1).0 (via 2 0).0) (choose2 (via 1 1).0 (via 1 0).0)
          (via 0 0).0 p₃.1 p₂.1 p₁.1 in
      (
        takes_if (active 3) h.history (via 5 4 ∷ via 5 3 ∷ []) (choose2 (via 5 4).0 (via 5 3).0).0 _
            _ _ _ _ p₅.0 q₅.0 q₅.1,
        takes_if (active 2) h.history (via 4 4 ∷ via 4 3 ∷ via 4 2 ∷ [])
            (choose3 (via 4 4).0 (via 4 3).0 (via 4 2).0).0 _ _ _ _ _ p₄.0 q₄.0 q₄.1,
        takes_if (active 1) h.history (via 3 3 ∷ via 3 2 ∷ via 3 1 ∷ [])
            (choose3 (via 3 3).0 (via 3 2).0 (via 3 1).0).0 _ _ _ _ _ p₃.0 q₃.0 q₃.1,
        (_, _, p₂.0, q₂.0, q₂.1),
        (_, _, p₁.0, q₁.0, q₁.1),
        (_, _, ((inl (refl, refl)), (omega arith, tt)), q₀.0, q₀.1),
        refl,
        sweep5-IsTop h (active 3) (active 2) (active 1) _ _ _ _ _ _,
      )
