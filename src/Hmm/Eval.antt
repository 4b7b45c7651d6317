-- ===== src/Hmm/Eval.antt =====
-- The Viterbi steps of src/hmm.c: the unrolled ones for left-to-right HMMs of 5 and 3 states, each
-- also for multiplex HMMs, and the loop for any other.
use pocketsphinx.Base.{
  ℕ, zero, suc, Bool, true, ◌&&◌, ◌||◌, not, Option, none, some, ℤ, pos, negsuc, ◌+ℤ◌, neg_ℤ, ltb_ℤ,
  ◌==◌, if◌then◌else◌,
}
use pocketsphinx.Hmm.{
  Context, Hmm, Progress, worst_score, tmat_worst_score, bad_ssid, better, floor, choose2, choose3,
  leave, arrive, arrive_from, finish,
}

-- `INT_MIN`
abbrev pub int_min : ℤ
int_min = negsuc 0x7fff_ffff

abbrev pub same : ℤ → ℤ → Bool
same a b = not (ltb_ℤ a b || ltb_ℤ b a)

abbrev pub begin : Hmm → Progress
begin h = record { hmm = h; best = worst_score }

-- The updates of a step for 5 states, from what its comparisons chose: the exit state and states 4 and
-- 3 are updated only if their first predecessor is active.
unfoldable pub sweep5 :
    Hmm → Bool → Bool → Bool → ℤ × ℕ → ℤ × ℕ → ℤ × ℕ → ℤ × ℕ → ℤ × ℕ → ℤ → Progress
unfolding leave arrive arrive_from
sweep5 h b₅ b₄ b₃ c₅ c₄ c₃ c₂ c₁ s₀ =
    let p₅ : Progress = if b₅ then leave (begin h) 4 c₅ else begin h in
    let p₄ : Progress = if b₄ then arrive_from p₅ 4 c₄ else p₅ in
    let p₃ : Progress = if b₃ then arrive_from p₄ 3 c₃ else p₄ in
    let p₂ = arrive_from p₃ 2 c₂ in let p₁ = arrive_from p₂ 1 c₁ in arrive_from p₁ 0 (s₀, 0)

-- The same for 3 states.
unfoldable pub sweep3 : Hmm → Bool → ℤ × ℕ → ℤ × ℕ → ℤ × ℕ → ℤ → Progress
unfolding leave arrive arrive_from
sweep3 h b₃ c₃ c₂ c₁ s₀ =
    let p₃ : Progress = if b₃ then leave (begin h) 2 c₃ else begin h in
    let p₂ = arrive_from p₃ 2 c₂ in let p₁ = arrive_from p₂ 1 c₁ in arrive_from p₁ 0 (s₀, 0)

module _ (c : Context) where
  -- `hmm_tprob`
  abbrev pub tprob : Hmm → ℕ → ℕ → ℤ
  tprob h i j = neg_ℤ (pos (c.tp h.tmatid i j))

  -- A state's score with its emission: `hmm_score(hmm, i) + nonmpx_senscr(i)`.
  abbrev pub emit : Hmm → ℕ → ℤ
  emit h i = h.score i +ℤ neg_ℤ (c.senscore (h.senid i))

  unfoldable pub hmm_vit_eval_5st_lr : Hmm → ℤ × Hmm
  unfolding finish
  hmm_vit_eval_5st_lr h =
      let s = emit h in
      let tp = tprob h in
      finish (
        sweep5 h (better (s 3) worst_score) (better (s 2) worst_score) (better (s 1) worst_score)
          (choose2 (s 4 +ℤ tp 4 5) (s 3 +ℤ tp 3 5))
          (choose3 (s 4 +ℤ tp 4 4) (s 3 +ℤ tp 3 4) (s 2 +ℤ tp 2 4))
          (choose3 (s 3 +ℤ tp 3 3) (s 2 +ℤ tp 2 3) (s 1 +ℤ tp 1 3))
          (choose3 (s 2 +ℤ tp 2 2) (s 1 +ℤ tp 1 2) (s 0 +ℤ tp 0 2))
          (choose2 (s 1 +ℤ tp 1 1) (s 0 +ℤ tp 0 1)) (s 0 +ℤ tp 0 0))

  -- `hmm_score(hmm, i) + mpx_senscr(i)`
  abbrev pub emit_mpx : Hmm → ℕ → ℤ
  emit_mpx h i = h.score i +ℤ neg_ℤ (c.senscore (c.sseq (h.senid i) i))

  -- The score of a state other than 0, `WORST_SCORE` without an ssid.
  abbrev pub active : Hmm → ℕ → ℤ
  active h i = if h.senid i == bad_ssid then worst_score else emit_mpx h i

  -- A transition that is tested by the ssid, and one that is tested by the score.
  abbrev pub by_ssid : Hmm → ℕ → ℕ → ℤ
  by_ssid h i j = if h.senid i == bad_ssid then worst_score else emit_mpx h i +ℤ tprob h i j

  abbrev pub by_score : Hmm → ℕ → ℕ → ℤ
  by_score h i j = if same (active h i) worst_score then worst_score else active h i +ℤ tprob h i j

  unfoldable pub hmm_vit_eval_5st_lr_mpx : Hmm → ℤ × Hmm
  unfolding finish
  hmm_vit_eval_5st_lr_mpx h =
      let s₀ = emit_mpx h 0 in
      let tp = tprob h in
      let by = by_score h in
      finish (
        sweep5 h true true true (choose2 (by_ssid h 4 5) (by_ssid h 3 5))
          (choose3 (by 4 4) (by 3 4) (by_ssid h 2 4)) (choose3 (by 3 3) (by 2 3) (by_ssid h 1 3))
          (choose3 (by 2 2) (by 1 2) (s₀ +ℤ tp 0 2)) (choose2 (by 1 1) (s₀ +ℤ tp 0 1))
          (s₀ +ℤ tp 0 0))

  -- A transition that skips a state is tested against `TMAT_WORST_SCORE`; `t₂` is what the variable
  -- holds before, also from an earlier state.
  abbrev pub skip : Hmm → ℕ → ℕ → ℤ → ℤ → ℤ
  skip h i j s t₂ = if better (tprob h i j) tmat_worst_score then s +ℤ tprob h i j else t₂

  unfoldable pub hmm_vit_eval_3st_lr : Hmm → ℤ × Hmm
  unfolding finish
  hmm_vit_eval_3st_lr h =
      let s = emit h in
      let tp = tprob h in
      let t₂ = skip h 1 3 (s 1) int_min in
      let t₂' : ℤ = if better (s 1) worst_score then t₂ else int_min in
      finish (
        sweep3 h (better (s 1) worst_score) (choose2 (s 2 +ℤ tp 2 3) t₂)
          (choose3 (s 2 +ℤ tp 2 2) (s 1 +ℤ tp 1 2) (skip h 0 2 (s 0) t₂'))
          (choose2 (s 1 +ℤ tp 1 1) (s 0 +ℤ tp 0 1)) (s 0 +ℤ tp 0 0))

  unfoldable pub hmm_vit_eval_3st_lr_mpx : Hmm → ℤ × Hmm
  unfolding finish
  hmm_vit_eval_3st_lr_mpx h =
      let s₀ = emit_mpx h 0 in
      let tp = tprob h in
      let t₂ : ℤ =
        if h.senid 1 == bad_ssid then worst_score else skip h 1 3 (emit_mpx h 1) int_min in
      finish (
        sweep3 h true (choose2 (by_ssid h 2 3) t₂)
          (choose3 (by_score h 2 2) (by_score h 1 2) (skip h 0 2 s₀ t₂))
          (choose2 (by_score h 1 1) (s₀ +ℤ tp 0 1)) (s₀ +ℤ tp 0 0))

  -- `hmm_senid` and `hmm_senscr`
  abbrev pub senid_of : Hmm → ℕ → ℕ
  senid_of h i =
      if h.mpx then if h.senid i == bad_ssid then bad_ssid else c.sseq (h.senid i) i else h.senid i

  abbrev pub senscr : Hmm → ℕ → ℤ
  senscr h i = if senid_of h i == bad_ssid then worst_score else neg_ℤ (c.senscore (senid_of h i))

  -- `ctx->st_sen_scr`
  unfoldable pub st_sen_scr : Hmm → ℕ → ℤ
  st_sen_scr h zero = h.score 0 +ℤ senscr h 0
  st_sen_scr h (suc i) = floor (h.score (suc i) +ℤ senscr h (suc i))

  -- The loop over `from`, from `k - 1` down to 0, for one destination.
  unfoldable pub scan_from : Hmm → ℕ → ℕ → ℤ × Option ℕ → ℤ × Option ℕ
  unfolding st_sen_scr
  scan_from h to zero acc = acc
  scan_from h to (suc k) acc =
      let newscr = st_sen_scr h k +ℤ tprob h k to in
      scan_from h to k (
        if better (tprob h k to) tmat_worst_score && better newscr acc.0
        then (newscr, some k)
        else acc)

  -- `bestfrom`, where -1 stands for the state itself.
  abbrev pub source : ℕ → Option ℕ → ℕ
  source to none = to
  source to (some from) = from

  unfoldable pub self_score : Hmm → ℕ → ℤ
  unfolding st_sen_scr
  self_score h to =
      if better (tprob h to to) tmat_worst_score
      then st_sen_scr h to +ℤ tprob h to to
      else worst_score

  -- The loop over `to`, from `k - 1` down to 0. `h` is the HMM at the start: a state is written after
  -- it was read for the last time.
  unfoldable pub visit_states : Hmm → ℕ → Progress → Progress
  unfolding arrive scan_from self_score
  visit_states h zero p = p
  visit_states h (suc to) p =
      let found = scan_from h to to (self_score h to, none) in
      visit_states h to (arrive p to (source to found.1) found.0)

  unfoldable pub leave_any : Hmm → Progress
  unfolding scan_from
  leave_any h =
      let found = scan_from h h.n_emit_state h.n_emit_state (worst_score, none) in
      record {
        hmm = record h {
          out_score = found.0;
          out_history = elim found.1 [ none ↦ h.out_history | some from ↦ h.history from ];
        };
        best = found.0;
      }

  unfoldable pub hmm_vit_eval_anytopo : Hmm → ℤ × Hmm
  unfolding leave_any visit_states finish
  hmm_vit_eval_anytopo h = finish (visit_states h h.n_emit_state (leave_any h))

  unfoldable pub hmm_vit_eval : Hmm → ℤ × Hmm
  hmm_vit_eval h =
      if h.mpx
      then if h.n_emit_state == 5
        then hmm_vit_eval_5st_lr_mpx h
        else if h.n_emit_state == 3
        then hmm_vit_eval_3st_lr_mpx h
        else hmm_vit_eval_anytopo h
      else if h.n_emit_state == 5
      then hmm_vit_eval_5st_lr h
      else if h.n_emit_state == 3
      then hmm_vit_eval_3st_lr h
      else hmm_vit_eval_anytopo h
