-- ===== src/Hmm/Agree.antt =====
-- A step on an HMM reads the scores of its own senones only.
use pocketsphinx.Base.{
  ℕ, zero, suc, ◌<◌, ◌≡◌, refl, ap, ◌∙◌, false, ◌&&◌, Option, none, some, ℤ, ◌+ℤ◌, ◌==◌, ==_iff,
  arith, if◌then◌else◌, inl, inr, Bool-cases,
}
use pocketsphinx.Hmm.{
  Context, Hmm, Progress, arrive, finish, better, tmat_worst_score, worst_score, floor,
}
use pocketsphinx.Hmm.Eval.{
  st_sen_scr, senscr, tprob, scan_from, self_score, source, visit_states, leave_any,
  hmm_vit_eval_5st_lr, hmm_vit_eval_3st_lr, hmm_vit_eval_anytopo, hmm_vit_eval,
}

module _ (c : Context) (f g : ℕ → ℤ) (h : Hmm) where
  abbrev with_f : Context
  with_f = record c { senscore = f }

  abbrev with_g : Context
  with_g = record c { senscore = g }

  -- The scores agree on the senones of the first n states.
  abbrev pub Agree : ℕ → Type 0
  Agree n = (i : ℕ) → i < n → f (h.senid i) ≡ g (h.senid i)

  five : Agree 5 → hmm_vit_eval_5st_lr with_f h ≡ hmm_vit_eval_5st_lr with_g h
  unfolding hmm_vit_eval_5st_lr
  five a =
      rw
        (
          a 0 (omega arith),
          a 1 (omega arith),
          a 2 (omega arith),
          a 3 (omega arith),
          a 4 (omega arith),
        )
        refl

  three : Agree 3 → hmm_vit_eval_3st_lr with_f h ≡ hmm_vit_eval_3st_lr with_g h
  unfolding hmm_vit_eval_3st_lr
  three a = rw (a 0 (omega arith), a 1 (omega arith), a 2 (omega arith)) refl

  module _ (plain : h.mpx ≡ false) where
    senscr_agree : (i : ℕ) → f (h.senid i) ≡ g (h.senid i) → senscr with_f h i ≡ senscr with_g h i
    senscr_agree i e = rw (plain, e) refl

    st_sen_scr_agree :
        (i : ℕ) → f (h.senid i) ≡ g (h.senid i) → st_sen_scr with_f h i ≡ st_sen_scr with_g h i
    unfolding st_sen_scr
    st_sen_scr_agree zero e = ap (λ x. h.score 0 +ℤ x) (senscr_agree 0 e)
    st_sen_scr_agree (suc i) e = ap (λ x. floor (h.score (suc i) +ℤ x)) (senscr_agree (suc i) e)

    scan-Agree :
        (to k : ℕ) (acc : ℤ × Option ℕ)
        → Agree k
        → scan_from with_f h to k acc ≡ scan_from with_g h to k acc
    unfolding scan_from
    scan-Agree to zero acc a = refl
    scan-Agree to (suc k) acc a =
        let e = st_sen_scr_agree k (a k (omega arith)) in
        let rest = λ (acc' : ℤ × Option ℕ). scan-Agree to k acc' (λ i lt. a i (omega arith)) in
        rest _
        ∙ ap
            (λ x. scan_from with_g h to k (
              if better (tprob c h k to) tmat_worst_score && better (x +ℤ tprob c h k to) acc.0
              then (x +ℤ tprob c h k to, some k)
              else acc))
            e

    self_agree :
        (to : ℕ) → f (h.senid to) ≡ g (h.senid to) → self_score with_f h to ≡ self_score with_g h to
    unfolding self_score
    self_agree to e =
        ap
          (λ x.
            if better (tprob c h to to) tmat_worst_score then x +ℤ tprob c h to to else worst_score)
          (st_sen_scr_agree to e)

    visit-Agree :
        (k : ℕ) (p : Progress) → Agree k → visit_states with_f h k p ≡ visit_states with_g h k p
    unfolding visit_states
    visit-Agree zero p a = refl
    visit-Agree (suc to) p a =
        let less : Agree to = λ i lt. a i (omega arith) in
        let self = self_agree to (a to (omega arith)) in
        let found : scan_from with_f h to to (self_score with_f h to, none)
            ≡ scan_from with_g h to to (self_score with_g h to, none) =
          scan-Agree to to (self_score with_f h to, none) less
          ∙ ap (λ x. scan_from with_g h to to (x, none)) self in
        visit-Agree to _ less
        ∙ ap (λ r. visit_states with_g h to (arrive p to (source c to r.1) r.0)) found

    any : Agree h.n_emit_state → hmm_vit_eval_anytopo with_f h ≡ hmm_vit_eval_anytopo with_g h
    unfolding hmm_vit_eval_anytopo leave_any
    any a =
        let n = h.n_emit_state in
        let leave = scan-Agree n n (worst_score, none) a in
        ap finish (
          visit-Agree n (leave_any with_f h) a
          ∙ ap
              (λ (r : ℤ × Option ℕ). visit_states with_g h n (record {
                hmm = record h {
                  out_score = r.0;
                  out_history = elim r.1 [ none ↦ h.out_history | some from ↦ h.history from ];
                };
                best = r.0;
              }))
              leave)

    -- The step of an HMM that is not multiplex is the same under two scorings that agree on the
    -- senones of its states.
    pub vit_eval-Agree : Agree h.n_emit_state → hmm_vit_eval with_f h ≡ hmm_vit_eval with_g h
    unfolding hmm_vit_eval
    vit_eval-Agree a = elim (Bool-cases (h.n_emit_state == 5)) [
      | inl e ↦
          let n = (==_iff h.n_emit_state 5).0 e in
          simp (plain, e) (five (λ i lt. a i (omega arith)))
      | inr e ↦ elim (Bool-cases (h.n_emit_state == 3)) [
        | inl e' ↦
            let n = (==_iff h.n_emit_state 3).0 e' in
            simp (plain, e, e') (three (λ i lt. a i (omega arith)))
        | inr e' ↦ simp (plain, e, e') (any a)
      ]
    ]
