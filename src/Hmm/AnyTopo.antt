-- ===== src/Hmm/AnyTopo.antt =====
-- The step for any topology takes, for every state, the best of its allowed predecessors.
use pocketsphinx.Base.{
  ℕ, zero, suc, ◌≤◌, ◌<◌, ◌≡◌, refl, sym, subst, ap, ◌∙◌, ◌⊎◌, inl, inr, Bool, true, false, ◌&&◌,
  Option, none, some, ℤ, ◌+ℤ◌, ◌≤ℤ◌, arith, if◌then◌else◌, ltb_ℤ, ◌==◌,
}
use native.Mathlib.Decide.{ℕ_discrete}
use pocketsphinx.Hmm.{Hmm, Progress, Context, arrive, better, worst_score, tmat_worst_score}
use pocketsphinx.Hmm.Eval.{
  tprob, st_sen_scr, scan_from, source, self_score, visit_states, leave_any, hmm_vit_eval_anytopo,
}

≤ℤ_trans : (a b d : ℤ) → a ≤ℤ b → b ≤ℤ d → a ≤ℤ d
≤ℤ_trans a b d p q = omega arith

raise_lem :
    (s b : ℤ) → let m = if better s b then s else b in (b ≤ℤ m) × (s ≤ℤ m) × ((m ≡ b) ⊎ (m ≡ s))
raise_lem s b = ground arith

module _ (c : Context) (h : Hmm) where
  abbrev pub allowed : ℕ → ℕ → Bool
  allowed i j = better (tprob c h i j) tmat_worst_score

  abbrev pub reach : ℕ → ℕ → ℤ
  reach j i = st_sen_scr c h i +ℤ tprob c h i j

  -- From a score and a state chosen so far, and the allowed ways into `to` from the states below `k`:
  -- the result is the best of these, and stays as it was unless a way beats the score.
  pub record Selects (to k : ℕ) (acc r : ℤ × Option ℕ) : Type 0 where
    pub above_start : acc.0 ≤ℤ r.0
    pub above : (i : ℕ) → i < k → allowed i to ≡ true → reach to i ≤ℤ r.0
    pub chosen :
        (r ≡ acc)
        ⊎ ((i : ℕ) × (i < k)
            × (allowed i to ≡ true)
            × (r ≡ (reach to i, some i))
            × (ltb_ℤ acc.0 (reach to i) ≡ true))

  scan_step :
      (to k : ℕ) (acc : ℤ × Option ℕ) (b : Bool)
      → (allowed k to && better (reach to k) acc.0) ≡ b
      → ((acc' : ℤ × Option ℕ) → Selects to k acc' (scan_from c h to k acc'))
      → Selects to (suc k) acc (scan_from c h to k (if b then (reach to k, some k) else acc))
  scan_step to k acc true e ih =
      let s = ih (reach to k, some k) in
      let ok : allowed k to ≡ true = ground arith in
      let beats : ltb_ℤ acc.0 (reach to k) ≡ true = ground arith in
      record {
        above_start = let up = s.above_start in ground arith;
        above = λ i lt a. elim (ℕ_discrete i k) [
          | yes q ↦ rw q s.above_start
          | no q ↦ s.above i (omega arith) a
        ];
        chosen = elim s.chosen [
          | inl q ↦ inr (k, omega arith, ok, q, beats)
          | inr (i, lt, a, q, b) ↦ inr (i, omega arith, a, q, ground arith)
        ];
      }
  scan_step to k acc false e ih =
      let s = ih acc in
      record {
        above_start = s.above_start;
        above = λ i lt a. elim (ℕ_discrete i k) [
          | yes q ↦
              let ok : allowed k to ≡ true = rw (sym q) a in
              let up = s.above_start in
              let not_better : better (reach to k) acc.0 ≡ false = ground arith in
              rw q (ground arith)
          | no q ↦ s.above i (omega arith) a
        ];
        chosen = elim s.chosen [
          | inl q ↦ inl q
          | inr (i, lt, a, q, b) ↦ inr (i, omega arith, a, q, b)
        ];
      }

  scan-Selects : (to k : ℕ) (acc : ℤ × Option ℕ) → Selects to k acc (scan_from c h to k acc)
  unfolding scan_from
  scan-Selects to zero acc = record {
    above_start = omega arith;
    above = λ i lt. absurd (omega arith);
    chosen = inl refl;
  }
  scan-Selects to (suc k) acc =
      scan_step to k acc (allowed k to && better (reach to k) acc.0) refl
        (λ acc'. scan-Selects to k acc')

  -- What is found for state `to`: from its self-transition, and the states below.
  abbrev pub found : ℕ → ℤ × Option ℕ
  found to = scan_from c h to to (self_score c h to, none)

  source-le : (to : ℕ) → source c to (found to).1 ≤ to
  source-le to = elim (scan-Selects to to (self_score c h to, none)).chosen [
    | inl q ↦ let e = ap (λ (r : ℤ × Option ℕ). source c to r.1) q in omega arith
    | inr (i, lt, a, q, b) ↦ let e = ap (λ (r : ℤ × Option ℕ). source c to r.1) q in omega arith
  ]

  visit_keeps :
      (k : ℕ) (p : Progress) (j : ℕ)
      → k ≤ j
      → let h' = (visit_states c h k p).hmm in
        (h'.score j ≡ p.hmm.score j)
        × (h'.history j ≡ p.hmm.history j)
        × (h'.out_score ≡ p.hmm.out_score)
        × (h'.out_history ≡ p.hmm.out_history)
  unfolding visit_states arrive
  visit_keeps zero p j le = (refl, refl, refl, refl)
  visit_keeps (suc k) p j le =
      let (s, t, o, u) =
        visit_keeps k (arrive p k (source c k (found k).1) (found k).0) j (omega arith) in
      let ne : (j == k) ≡ false = ground arith in (rw ne at s, rw ne at t, o, u)

  -- Each state below `k` gets what is found for it, with a history from before the step.
  visit_finds :
      (k : ℕ) (p : Progress)
      → ((i : ℕ) → i < k → p.hmm.history i ≡ h.history i)
      → (j : ℕ) → j < k
      → let h' = (visit_states c h k p).hmm in
        (h'.score j ≡ (found j).0) × (h'.history j ≡ h.history (source c j (found j).1))
  unfolding visit_states arrive
  visit_finds zero p old j lt = absurd (omega arith)
  visit_finds (suc k) p old j lt =
      let p' = arrive p k (source c k (found k).1) (found k).0 in
      elim (ℕ_discrete j k) [
        | yes q ↦
            let (s, t, o, u) = visit_keeps k p' j (omega arith) in
            let e : (j == k) ≡ true = ground arith in
            let from = old (source c k (found k).1) (omega (arith, source-le k)) in
            (
              s ∙ rw e (ap (λ (x : ℕ). (found x).0) (sym q)),
              t ∙ rw e (from ∙ ap (λ (x : ℕ). h.history (source c x (found x).1)) (sym q)),
            )
        | no q ↦
            visit_finds k p'
              (λ i l. let ne : (i == k) ≡ false = ground arith in rw ne (old i (omega arith))) j
              (omega arith)
      ]

  visit_best :
      (k : ℕ) (p : Progress)
      → let p' = visit_states c h k p in
        (p.best ≤ℤ p'.best)
        × ((j : ℕ) → j < k → (found j).0 ≤ℤ p'.best)
        × ((p'.best ≡ p.best) ⊎ ((j : ℕ) × (j < k) × (p'.best ≡ (found j).0)))
  unfolding visit_states arrive
  visit_best zero p = (omega arith, λ j lt. absurd (omega arith), inl refl)
  visit_best (suc k) p =
      let (up, all, from) = visit_best k (arrive p k (source c k (found k).1) (found k).0) in
      let (over, over_found, either) = raise_lem (found k).0 p.best in
      (
        ≤ℤ_trans p.best _ _ over up,
        λ j lt. elim (ℕ_discrete j k) [
          | yes q ↦
              subst (λ x. (found x).0 ≤ℤ (visit_states c h (suc k) p).best) (sym q)
                (≤ℤ_trans (found k).0 _ _ over_found up)
          | no q ↦ all j (omega arith)
        ],
        elim from [
          | inl q ↦ elim either [ inl r ↦ inl (q ∙ r) | inr r ↦ inr (k, omega arith, q ∙ r) ]
          | inr (j, lt, q) ↦ inr (j, omega arith, q)
        ],
      )

  abbrev pub Steps : ℤ × Hmm → Type 0
  Steps r =
      let n = h.n_emit_state in
      let h' = r.1 in
      ((out : ℤ × Option ℕ) × Selects n n (worst_score, none) out
        × (h'.out_score ≡ out.0)
        × (h'.out_history ≡ elim out.1 as (λ o. ℤ) [ none ↦ h.out_history | some i ↦ h.history i ]))
      × ((j : ℕ)
          → j < n
          → (new : ℤ × Option ℕ) × Selects j j (self_score c h j, none) new
            × (h'.score j ≡ new.0)
            × (h'.history j ≡ h.history (source c j new.1)))
      × (r.0 ≡ h'.bestscore)
      × (h'.out_score ≤ℤ r.0)
      × ((j : ℕ) → j < n → h'.score j ≤ℤ r.0)
      × ((r.0 ≡ h'.out_score) ⊎ ((j : ℕ) × (j < n) × (r.0 ≡ h'.score j)))

  -- One step for any topology. The exit state and every emitting state get the best of their start
  -- score, which is that of the self-transition if it is allowed and else the worst, and of the
  -- allowed ways from the states below; the history is that, before the step, of the state that
  -- the score comes from, and stays for a start score. The number returned, which becomes the best
  -- score of the HMM, is the greatest of these scores.
  pub any_topo_lem : Steps (hmm_vit_eval_anytopo c h)
  unfolding hmm_vit_eval_anytopo leave_any
  any_topo_lem =
      let n = h.n_emit_state in
      let p = leave_any c h in
      let finds = visit_finds n p (λ i lt. refl) in
      let (up, all, from) = visit_best n p in
      let (s, t, o, u) = visit_keeps n p n (omega arith) in
      (
        (scan_from c h n n (worst_score, none), scan-Selects n n (worst_score, none), o, u),
        λ j lt.
            let (fs, fh) = finds j lt in
            (found j, scan-Selects j j (self_score c h j, none), fs, fh),
        refl,
        subst (λ x. x ≤ℤ (visit_states c h n p).best) (sym o) up,
        λ j lt. subst (λ x. x ≤ℤ (visit_states c h n p).best) (sym (finds j lt).0) (all j lt),
        elim from [
          | inl q ↦ inl (q ∙ sym o)
          | inr (j, lt, q) ↦ inr (j, lt, q ∙ sym (finds j lt).0)
        ],
      )
