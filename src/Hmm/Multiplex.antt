-- ===== src/Hmm/Multiplex.antt =====
-- The unrolled steps for multiplex HMMs, whose states each have a senone sequence of their own.
use pocketsphinx.Base.{ℕ, ◌-◌, ◌≤◌, ◌≡◌, refl, inl, true, [], ◌∷◌, ℤ, ◌+ℤ◌, arith}
use pocketsphinx.Hmm.{Hmm, Context, floor, choose2, choose3}
use pocketsphinx.Hmm.Eval.{emit_mpx, by_ssid, by_score, tprob, sweep5, hmm_vit_eval_5st_lr_mpx}
use pocketsphinx.Hmm.Choice.{Candidates, IsBest, choose2-IsBest, choose3-IsBest, IsTop}
use pocketsphinx.Hmm.FiveState.{sweep5_lem, sweep5-IsTop}

-- A state takes the score, the history and the senone sequence of the best candidate.
abbrev pub Inherits : Hmm → Candidates → Hmm → ℕ → Type 0
Inherits h cs h' to =
    (v : ℤ) × (i : ℕ) × IsBest cs v i
    × (h'.score to ≡ floor v)
    × (h'.history to ≡ h.history i)
    × (h'.senid to ≡ h.senid i)

sweep5_senid :
    (h : Hmm) (c₅ c₄ c₃ c₂ c₁ : ℤ × ℕ) (s₀ : ℤ)
    → h.mpx ≡ true
    → c₃.1 ≤ 2
    → c₂.1 ≤ 2
    → c₁.1 ≤ 1
    → let h' = (sweep5 h true true true c₅ c₄ c₃ c₂ c₁ s₀).hmm in
      (h'.senid 4 ≡ h.senid (4 - c₄.1))
      × (h'.senid 3 ≡ h.senid (3 - c₃.1))
      × (h'.senid 2 ≡ h.senid (2 - c₂.1))
      × (h'.senid 1 ≡ h.senid (1 - c₁.1))
      × (h'.senid 0 ≡ h.senid 0)
unfolding sweep5
sweep5_senid h c₅ c₄ c₃ c₂ c₁ s₀ e l₃ l₂ l₁ = rw e (ground arith)

module _ (c : Context) (h : Hmm) where
  -- The candidates of state 0 and of the step into each state.
  abbrev from_first : ℕ → ℤ × ℕ
  from_first j = (emit_mpx c h 0 +ℤ tprob c h 0 j, 0)

  abbrev kept : ℕ → ℕ → ℤ × ℕ
  kept j i = (by_score c h i j, i)

  abbrev moved : ℕ → ℕ → ℤ × ℕ
  moved j i = (by_ssid c h i j, i)

  abbrev pub Steps : ℤ × Hmm → Type 0
  Steps r =
      let h' = r.1 in
      ((v : ℤ) × (i : ℕ) × IsBest (moved 5 4 ∷ moved 5 3 ∷ []) v i
        × (h'.out_score ≡ floor v)
        × (h'.out_history ≡ h.history i))
      × Inherits h (kept 4 4 ∷ kept 4 3 ∷ moved 4 2 ∷ []) h' 4
      × Inherits h (kept 3 3 ∷ kept 3 2 ∷ moved 3 1 ∷ []) h' 3
      × Inherits h (kept 2 2 ∷ kept 2 1 ∷ from_first 2 ∷ []) h' 2
      × Inherits h (kept 1 1 ∷ from_first 1 ∷ []) h' 1
      × Inherits h (from_first 0 ∷ []) h' 0
      × (r.0 ≡ h'.bestscore)
      × IsTop r.0
          (h'.score 0 ∷ h'.score 1 ∷ h'.score 2 ∷ h'.score 3 ∷ h'.score 4 ∷ h'.out_score ∷ [])

  -- One step on a multiplex 5-state HMM: every state and the exit state take the best from
  -- themselves and the two states before, where a state without a senone sequence offers the worst
  -- score and no transition is added to that. The score of the best is taken, but not less than the
  -- worst, with the history and the senone sequence that its state had before the step. The number
  -- returned is the greatest of the scores.
  pub five_state_mpx_lem : h.mpx ≡ true → Steps (hmm_vit_eval_5st_lr_mpx c h)
  unfolding hmm_vit_eval_5st_lr_mpx
  five_state_mpx_lem e =
      let c₅ = choose2 (moved 5 4).0 (moved 5 3).0 in
      let c₄ = choose3 (kept 4 4).0 (kept 4 3).0 (moved 4 2).0 in
      let c₃ = choose3 (kept 3 3).0 (kept 3 2).0 (moved 3 1).0 in
      let c₂ = choose3 (kept 2 2).0 (kept 2 1).0 (from_first 2).0 in
      let c₁ = choose2 (kept 1 1).0 (from_first 1).0 in
      let p₅ = choose2-IsBest (moved 5 4).0 (moved 5 3).0 4 in
      let p₄ = choose3-IsBest (kept 4 4).0 (kept 4 3).0 (moved 4 2).0 4 in
      let p₃ = choose3-IsBest (kept 3 3).0 (kept 3 2).0 (moved 3 1).0 3 in
      let p₂ = choose3-IsBest (kept 2 2).0 (kept 2 1).0 (from_first 2).0 2 in
      let p₁ = choose2-IsBest (kept 1 1).0 (from_first 1).0 1 in
      let s₀ = (from_first 0).0 in
      let (q₅, q₄, q₃, q₂, q₁, q₀) = sweep5_lem h true true true c₅ c₄ c₃ c₂ c₁ s₀ p₃.1 p₂.1 p₁.1 in
      let (i₄, i₃, i₂, i₁, i₀) = sweep5_senid h c₅ c₄ c₃ c₂ c₁ s₀ e p₃.1 p₂.1 p₁.1 in
      (
        (_, _, p₅.0, q₅.0, q₅.1),
        (_, _, p₄.0, q₄.0, q₄.1, i₄),
        (_, _, p₃.0, q₃.0, q₃.1, i₃),
        (_, _, p₂.0, q₂.0, q₂.1, i₂),
        (_, _, p₁.0, q₁.0, q₁.1, i₁),
        (_, _, (inl (refl, refl), (omega arith, tt)), q₀.0, q₀.1, i₀),
        refl,
        sweep5-IsTop h true true true c₅ c₄ c₃ c₂ c₁ s₀,
      )
