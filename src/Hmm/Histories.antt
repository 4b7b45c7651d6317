-- ===== src/Hmm/Histories.antt =====
-- Whatever holds of all histories of an HMM holds of them after a step.
use pocketsphinx.Base.{
  ℕ, zero, suc, ◌-◌, Bool, true, false, Option, none, some, ℤ, ◌==◌, if◌then◌else◌, negsuc, ltb,
  update,
}
use pocketsphinx.Hmm.{
  Context, Hmm, Progress, leave, arrive, arrive_from, finish, floor, hmm_enter, hmm_clear, hmm_init,
  worst_score,
}
use pocketsphinx.Hmm.Eval.{
  sweep5, sweep3, begin, visit_states, leave_any, scan_from, self_score, source,
  hmm_vit_eval_5st_lr, hmm_vit_eval_5st_lr_mpx, hmm_vit_eval_3st_lr, hmm_vit_eval_3st_lr_mpx,
  hmm_vit_eval_anytopo, hmm_vit_eval,
}

-- `P` holds of every history of the HMM.
pub record Histories (P : ℤ → Type 0) (h : Hmm) : Type 0 where
  pub states : (i : ℕ) → P (h.history i)
  pub out : P h.out_history

module _ (P : ℤ → Type 0) where
  either : (b : Bool) (x y : ℤ) → P x → P y → P (if b then x else y)
  either true x y p q = p
  either false x y p q = q

  written : (f : ℕ → ℤ) (i : ℕ) (v : ℤ) → ((j : ℕ) → P (f j)) → P v → (j : ℕ) → P (update f i v j)
  written f i v h p j = either (j == i) v (f j) p (h j)

  pub enter-Histories :
      (h : Hmm) (score histid frame : ℤ)
      → Histories P h
      → P histid
      → Histories P (hmm_enter h score histid frame)
  unfolding hmm_enter
  enter-Histories h score histid frame q p = record {
    states = written h.history 0 histid q.states p;
    out = q.out;
  }

  pub clear-Histories : (h : Hmm) → Histories P h → P (negsuc 0) → Histories P (hmm_clear h)
  unfolding hmm_clear
  clear-Histories h q p = record {
    states =
        written (λ j. if ltb j h.n_emit_state then negsuc 0 else h.history j) 0 (negsuc 0)
          (λ j. either (ltb j h.n_emit_state) (negsuc 0) (h.history j) p (q.states j)) p;
    out = p;
  }

  -- A new HMM has the histories of its memory, and -1.
  pub hmm_init-Histories :
      (c : Context) (h : Hmm) (mpx : Bool) (ssid tmatid : ℕ)
      → Histories P h
      → P (negsuc 0)
      → Histories P (hmm_init c h mpx ssid tmatid)
  unfolding hmm_init hmm_clear
  hmm_init-Histories c h mpx ssid tmatid q p = record {
    states =
        written (λ j. if ltb j c.n_emit_state then negsuc 0 else h.history j) 0 (negsuc 0)
          (λ j. either (ltb j c.n_emit_state) (negsuc 0) (h.history j) p (q.states j)) p;
    out = p;
  }

  abbrev Goes : Progress → Type 0
  Goes p = Histories P p.hmm

  leave-Goes : (p : Progress) (last : ℕ) (c : ℤ × ℕ) → Goes p → Goes (leave p last c)
  unfolding leave
  leave-Goes p last c q = record { states = q.states; out = q.states (last - c.1) }

  arrive-Goes : (p : Progress) (to from : ℕ) (s : ℤ) → Goes p → Goes (arrive p to from s)
  unfolding arrive
  arrive-Goes p to from s q = record {
    states = written p.hmm.history to (p.hmm.history from) q.states (q.states from);
    out = q.out;
  }

  from-Goes : (p : Progress) (to : ℕ) (c : ℤ × ℕ) → Goes p → Goes (arrive_from p to c)
  unfolding arrive_from
  from-Goes p to c q = arrive-Goes p to (to - c.1) (floor c.0) q

  when : (b : Bool) (x y : Progress) → Goes x → Goes y → Goes (if b then x else y)
  when true x y p q = p
  when false x y p q = q

  finish-Histories : (p : Progress) → Goes p → Histories P (finish p).1
  unfolding finish
  finish-Histories p q = record { states = q.states; out = q.out }

  sweep5-Goes :
      (h : Hmm) (b₅ b₄ b₃ : Bool) (c₅ c₄ c₃ c₂ c₁ : ℤ × ℕ) (s₀ : ℤ)
      → Histories P h
      → Goes (sweep5 h b₅ b₄ b₃ c₅ c₄ c₃ c₂ c₁ s₀)
  unfolding sweep5
  sweep5-Goes h b₅ b₄ b₃ c₅ c₄ c₃ c₂ c₁ s₀ q =
      let p₅ : Progress = if b₅ then leave (begin h) 4 c₅ else begin h in
      let q₅ = when b₅ (leave (begin h) 4 c₅) (begin h) (leave-Goes (begin h) 4 c₅ q) q in
      let p₄ : Progress = if b₄ then arrive_from p₅ 4 c₄ else p₅ in
      let q₄ = when b₄ (arrive_from p₅ 4 c₄) p₅ (from-Goes p₅ 4 c₄ q₅) q₅ in
      let p₃ : Progress = if b₃ then arrive_from p₄ 3 c₃ else p₄ in
      let q₃ = when b₃ (arrive_from p₄ 3 c₃) p₄ (from-Goes p₄ 3 c₃ q₄) q₄ in
      let p₂ = arrive_from p₃ 2 c₂ in
      let p₁ = arrive_from p₂ 1 c₁ in
      from-Goes p₁ 0 (s₀, 0) (from-Goes p₂ 1 c₁ (from-Goes p₃ 2 c₂ q₃))

  sweep3-Goes :
      (h : Hmm) (b₃ : Bool) (c₃ c₂ c₁ : ℤ × ℕ) (s₀ : ℤ)
      → Histories P h
      → Goes (sweep3 h b₃ c₃ c₂ c₁ s₀)
  unfolding sweep3
  sweep3-Goes h b₃ c₃ c₂ c₁ s₀ q =
      let p₃ : Progress = if b₃ then leave (begin h) 2 c₃ else begin h in
      let q₃ = when b₃ (leave (begin h) 2 c₃) (begin h) (leave-Goes (begin h) 2 c₃ q) q in
      let p₂ = arrive_from p₃ 2 c₂ in
      let p₁ = arrive_from p₂ 1 c₁ in
      from-Goes p₁ 0 (s₀, 0) (from-Goes p₂ 1 c₁ (from-Goes p₃ 2 c₂ q₃))

  module _ (c : Context) where
    visit-Goes : (h : Hmm) (k : ℕ) (p : Progress) → Goes p → Goes (visit_states c h k p)
    unfolding visit_states
    visit-Goes h zero p q = q
    visit-Goes h (suc to) p q =
        let found = scan_from c h to to (self_score c h to, none) in
        visit-Goes h to (arrive p to (source c to found.1) found.0)
          (arrive-Goes p to (source c to found.1) found.0 q)

    leave_history :
        (h : Hmm) (o : Option ℕ)
        → Histories P h
        → P (elim o [ none ↦ h.out_history | some from ↦ h.history from ])
    leave_history h none q = q.out
    leave_history h (some i) q = q.states i

    leave_any-Goes : (h : Hmm) → Histories P h → Goes (leave_any c h)
    unfolding leave_any
    leave_any-Goes h q = record {
      states = q.states;
      out = leave_history h (scan_from c h h.n_emit_state h.n_emit_state (worst_score, none)).1 q;
    }

    pick :
        (b : Bool) (x y : ℤ × Hmm)
        → Histories P x.1
        → Histories P y.1
        → Histories P (if b then x else y).1
    pick true x y p q = p
    pick false x y p q = q

    -- A step keeps what holds of all the histories.
    pub vit_eval-Histories : (h : Hmm) → Histories P h → Histories P (hmm_vit_eval c h).1
    unfolding hmm_vit_eval hmm_vit_eval_5st_lr hmm_vit_eval_5st_lr_mpx hmm_vit_eval_3st_lr
        hmm_vit_eval_3st_lr_mpx hmm_vit_eval_anytopo
    vit_eval-Histories h q =
        let any =
          finish-Histories (visit_states c h h.n_emit_state (leave_any c h))
            (visit-Goes h h.n_emit_state (leave_any c h) (leave_any-Goes h q)) in
        pick h.mpx _ _
          (pick (h.n_emit_state == 5) _ _
            (finish-Histories _ (sweep5-Goes h true true true _ _ _ _ _ _ q))
            (pick (h.n_emit_state == 3) _ _ (finish-Histories _ (sweep3-Goes h true _ _ _ _ q))
              any))
          (pick (h.n_emit_state == 5) _ _ (finish-Histories _ (sweep5-Goes h _ _ _ _ _ _ _ _ _ q))
            (pick (h.n_emit_state == 3) _ _ (finish-Histories _ (sweep3-Goes h _ _ _ _ _ q)) any))
