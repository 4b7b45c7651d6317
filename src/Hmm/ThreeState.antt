-- ===== src/Hmm/ThreeState.antt =====
-- The unrolled step for 3 states.
use pocketsphinx.Base.{
  ℕ, ◌-◌, ◌≤◌, ◌≡◌, refl, subst, inl, Bool, true, false, [], ◌∷◌, ℤ, ◌+ℤ◌, arith, if◌then◌else◌,
}
use pocketsphinx.Hmm.{
  Hmm, Progress, Context, leave, arrive_from, better, floor, worst_score, tmat_worst_score, choose2,
  choose3,
}
use pocketsphinx.Hmm.Eval.{begin, emit, tprob, skip, int_min, sweep3, hmm_vit_eval_3st_lr}
use pocketsphinx.Hmm.Choice.{
  Takes, TakesIf, takes_if, choose2-IsBest, choose3-IsBest, IsTop, IsTop-leave, IsTop-arrive,
}

sweep3_lem :
    (h : Hmm) (b₃ : Bool) (c₃ c₂ c₁ : ℤ × ℕ) (s₀ : ℤ)
    → c₂.1 ≤ 2
    → c₁.1 ≤ 1
    → let h' = (sweep3 h b₃ c₃ c₂ c₁ s₀).hmm in
      ((h'.out_score ≡ (if b₃ then floor c₃.0 else h.out_score))
        × (h'.out_history ≡ (if b₃ then h.history (2 - c₃.1) else h.out_history)))
      × ((h'.score 2 ≡ floor c₂.0) × (h'.history 2 ≡ h.history (2 - c₂.1)))
      × ((h'.score 1 ≡ floor c₁.0) × (h'.history 1 ≡ h.history (1 - c₁.1)))
      × ((h'.score 0 ≡ floor s₀) × (h'.history 0 ≡ h.history 0))
unfolding sweep3
sweep3_lem h true c₃ c₂ c₁ s₀ l₂ l₁ = ground arith
sweep3_lem h false c₃ c₂ c₁ s₀ l₂ l₁ = ground arith

sweep3-IsTop-floor :
    (h : Hmm) (b₃ : Bool) (c₃ c₂ c₁ : ℤ × ℕ) (s₀ : ℤ)
    → IsTop
        (sweep3 h b₃ c₃ c₂ c₁ s₀).best
        (floor s₀ ∷ floor c₁.0 ∷ floor c₂.0 ∷ (if b₃ then floor c₃.0 else worst_score) ∷ [])
unfolding sweep3
sweep3-IsTop-floor h b₃ c₃ c₂ c₁ s₀ =
    let p₃ : Progress = if b₃ then leave (begin h) 2 c₃ else begin h in
    let p₂ = arrive_from p₃ 2 c₂ in
    IsTop-arrive true (arrive_from p₂ 1 c₁) 0 (s₀, 0) _
      (IsTop-arrive true p₂ 1 c₁ _ (IsTop-arrive true p₃ 2 c₂ _ (IsTop-leave b₃ h 2 c₃)))

sweep3-IsTop :
    (h : Hmm) (b₃ : Bool) (c₃ c₂ c₁ : ℤ × ℕ) (s₀ : ℤ)
    → let p = sweep3 h b₃ c₃ c₂ c₁ s₀ in
      IsTop p.best (
        p.hmm.score 0
        ∷ p.hmm.score 1
        ∷ p.hmm.score 2
        ∷ (if b₃ then p.hmm.out_score else worst_score)
        ∷ [])
unfolding sweep3
sweep3-IsTop h true c₃ c₂ c₁ s₀ = sweep3-IsTop-floor h true c₃ c₂ c₁ s₀
sweep3-IsTop h false c₃ c₂ c₁ s₀ = sweep3-IsTop-floor h false c₃ c₂ c₁ s₀

module _ (c : Context) (h : Hmm) where
  abbrev pub way : ℕ → ℕ → ℤ × ℕ
  way j i = (emit c h i +ℤ tprob c h i j, i)

  abbrev pub is_active : ℕ → Bool
  is_active i = better (emit c h i) worst_score

  abbrev pub skips : ℕ → ℕ → Bool
  skips i j = better (tprob c h i j) tmat_worst_score

  -- What the source's `t2` holds when the exit state and when state 2 are computed.
  abbrev held : ℤ
  held = skip c h 1 3 (emit c h 1) int_min

  abbrev third : ℤ
  third = skip c h 0 2 (emit c h 0) (if is_active 1 then held else int_min)

  -- What a step leaves, where `exit` and `skipped` are the scores of the ways that skip a state.
  abbrev pub Steps : ℤ → ℤ → ℤ × Hmm → Type 0
  Steps exit skipped r =
      let h' = r.1 in
      TakesIf (is_active 1) h.history (way 3 2 ∷ (exit, 1) ∷ []) h'.out_score h'.out_history
        h.out_score h.out_history
      × Takes h.history (way 2 2 ∷ way 2 1 ∷ (skipped, 0) ∷ []) (h'.score 2) (h'.history 2)
      × Takes h.history (way 1 1 ∷ way 1 0 ∷ []) (h'.score 1) (h'.history 1)
      × Takes h.history (way 0 0 ∷ []) (h'.score 0) (h'.history 0)
      × (r.0 ≡ h'.bestscore)
      × IsTop r.0 (
          h'.score 0
          ∷ h'.score 1
          ∷ h'.score 2
          ∷ (if is_active 1 then h'.out_score else worst_score)
          ∷ [])

  steps : Steps held third (hmm_vit_eval_3st_lr c h)
  unfolding hmm_vit_eval_3st_lr
  steps =
      let p₃ = choose2-IsBest (way 3 2).0 held 2 in
      let p₂ = choose3-IsBest (way 2 2).0 (way 2 1).0 third 2 in
      let p₁ = choose2-IsBest (way 1 1).0 (way 1 0).0 1 in
      let (q₃, q₂, q₁, q₀) =
        sweep3_lem h (is_active 1) (choose2 (way 3 2).0 held)
          (choose3 (way 2 2).0 (way 2 1).0 third) (choose2 (way 1 1).0 (way 1 0).0) (way 0 0).0 p₂.1
          p₁.1 in
      (
        takes_if (is_active 1) h.history (way 3 2 ∷ (held, 1) ∷ []) (choose2 (way 3 2).0 held).0 _ _
            _ _ _ p₃.0 q₃.0 q₃.1,
        (_, _, p₂.0, q₂.0, q₂.1),
        (_, _, p₁.0, q₁.0, q₁.1),
        (_, _, (inl (refl, refl), (omega arith, tt)), q₀.0, q₀.1),
        refl,
        sweep3-IsTop h (is_active 1) _ _ _ _,
      )

  -- One step on a 3-state HMM that may skip both states: the exit state takes the better way from
  -- states 2 and 1 if state 1 is active, and is else left alone; states 2, 1 and 0 take the best
  -- from themselves and the two states before. Each takes the history of the state it comes from
  -- as it was before the step, and the score, but not less than the worst. The number returned is
  -- the greatest of the scores that were updated and the worst.
  pub three_state_lem :
      skips 1 3 ≡ true → skips 0 2 ≡ true → Steps (way 3 1).0 (way 2 0).0 (hmm_vit_eval_3st_lr c h)
  three_state_lem exits enters =
      let e : held ≡ (way 3 1).0 = rw exits in
      let e' : third ≡ (way 2 0).0 = rw enters in
      subst (λ t. Steps t (way 2 0).0 (hmm_vit_eval_3st_lr c h)) e
        (subst (λ t. Steps held t (hmm_vit_eval_3st_lr c h)) e' steps)

  -- Where state 1 may be left for the exit state, but state 2 may not be entered from state 0, and
  -- state 1 is active, state 2 is offered the way from state 1 to the exit state as though it came
  -- from state 0: it takes that score if it is the best, with the history of state 0.
  pub three_state_stale :
      skips 1 3 ≡ true
      → skips 0 2 ≡ false
      → is_active 1 ≡ true
      → Steps (way 3 1).0 (way 3 1).0 (hmm_vit_eval_3st_lr c h)
  three_state_stale exits enters on =
      let e : held ≡ (way 3 1).0 = rw exits in
      let e' : third ≡ (way 3 1).0 = rw (enters, on) e in
      subst (λ t. Steps t (way 3 1).0 (hmm_vit_eval_3st_lr c h)) e
        (subst (λ t. Steps held t (hmm_vit_eval_3st_lr c h)) e' steps)
