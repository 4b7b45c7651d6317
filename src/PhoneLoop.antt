-- ===== src/PhoneLoop.antt =====
-- src/phone_loop_search.c: a loop of phones, whose scores tell the other searches which phones to
-- expect.
--
-- The arrays of HMMs and of penalties are functions of the phone's number, below `n_phones`, and the
-- penalty buffer of the row and the phone. The product with the weight of the penalties, a double, is
-- an argument, and so are the scores of a frame. Scores are unbounded.
pub mod Window
pub mod Transition
pub mod Viterbi
use pocketsphinx.Base.{
  update, ℕ, zero, suc, ◌+◌, ◌-◌, ◌%◌, Bool, true, false, ◌&&◌, ◌||◌, not, Option, none, some, List,
  [], ◌∷◌, ℤ, pos, negsuc, ◌+ℤ◌, ◌-ℤ◌, ltb_ℤ, ltb, if◌then◌else◌,
}
use pocketsphinx.Hmm.{
  Context, Hmm, worst_score, better, hmm_clear, hmm_clear_scores, hmm_enter, hmm_normalize,
}
use pocketsphinx.Hmm.Eval.{hmm_vit_eval, same}
use pocketsphinx.Acmod.{Acmod, acmod_clear_active, acmod_activate_hmm, acmod_flags2list}

-- `phone_loop_renorm_t`
pub record Renorm : Type 0 where
  pub frame_idx : ℤ
  pub norm : ℤ

-- `phone_loop_search_t`
pub record PhoneLoop : Type 0 where
  pub hmms : ℕ → Hmm
  pub hmmctx : Context
  pub n_phones : ℕ
  pub pen_buf : ℕ → ℕ → ℤ
  pub pen_buf_ptr : ℕ
  pub penalties : ℕ → ℤ
  pub best_score : ℤ
  pub beam : ℤ
  pub pbeam : ℤ
  pub pip : ℤ
  pub window : ℕ
  pub renorm : List Renorm

-- A loop that changes `m` elements from the one at `i` on.
unfoldable pub each {ℓ} : {A : Type ℓ} → (ℕ → A → A) → (m i : ℕ) → (ℕ → A) → ℕ → A
each f zero i a = a
each f (suc m) i a = each f m (i + 1) (update a i (f i (a i)))

unfoldable pub phone_loop_search_start : PhoneLoop → PhoneLoop
unfolding each hmm_clear hmm_enter
phone_loop_search_start p = record p {
  hmms = each (λ i h. hmm_enter (hmm_clear h) (pos 0) (negsuc 0) (pos 0)) p.n_phones 0 p.hmms;
  penalties = each (λ i x. pos 0) p.n_phones 0 p.penalties;
  pen_buf = each (λ row r. each (λ i x. pos 0) p.n_phones 0 r) p.window 0 p.pen_buf;
  renorm = [];
  best_score = pos 0;
  pen_buf_ptr = 0;
}

unfoldable pub renormalize_hmms : PhoneLoop → ℤ → ℤ → PhoneLoop
unfolding each hmm_normalize
renormalize_hmms p frame_idx norm = record p {
  renorm = record { frame_idx = frame_idx; norm = norm } ∷ p.renorm;
  hmms = each (λ i h. hmm_normalize h norm) p.n_phones 0 p.hmms;
}

-- The loop of `evaluate_hmms`, with the HMMs and the best score so far.
unfoldable pub evaluate_from : Context → ℤ → (m i : ℕ) → (ℕ → Hmm) × ℤ → (ℕ → Hmm) × ℤ
unfolding hmm_vit_eval
evaluate_from c frame_idx zero i r = r
evaluate_from c frame_idx (suc m) i (hs, bs) =
    let e = hmm_vit_eval c (hs i) in
    evaluate_from c frame_idx m (i + 1) (
      if ltb_ℤ (hs i).frame frame_idx
      then (hs, bs)
      else (update hs i e.1, if better e.0 bs then e.0 else bs))

unfoldable pub evaluate_hmms : PhoneLoop → (ℕ → ℤ) → ℤ → PhoneLoop
unfolding evaluate_from
evaluate_hmms p senscr frame_idx =
    let c : Context = record p.hmmctx { senscore = senscr } in
    let r = evaluate_from c frame_idx p.n_phones 0 (p.hmms, worst_score) in
    record p { hmmctx = c; hmms = r.0; best_score = r.1 }

-- The greatest entry of a phone over `m` rows of the buffer, from the row after `itr - 1` on.
unfoldable pub greatest : (ℕ → ℕ → ℤ) → ℕ → ℕ → (m itr : ℕ) → ℤ → ℤ
greatest pen_buf window i zero itr best = best
greatest pen_buf window i (suc m) itr best =
    let row = itr % window in
    greatest pen_buf window i m (row + 1)
      (if ltb_ℤ best (pen_buf row i) then pen_buf row i else best)

module _ (weigh : ℤ → ℤ) where
  unfoldable pub store_scores : PhoneLoop → PhoneLoop
  unfolding each greatest
  store_scores p =
      let row =
        each (λ i x. weigh ((p.hmms i).bestscore -ℤ p.best_score)) p.n_phones 0
          (p.pen_buf p.pen_buf_ptr) in
      let buf = update p.pen_buf p.pen_buf_ptr row in
      let ptr = (p.pen_buf_ptr + 1) % p.window in
      record p {
        pen_buf = buf;
        pen_buf_ptr = ptr;
        penalties =
            each (λ i x. greatest buf p.window i p.window (ptr + 1) worst_score) p.n_phones 0
              p.penalties;
      }

unfoldable pub prune_one : ℤ → ℤ → Hmm → Hmm
unfolding hmm_clear_scores
prune_one thresh frame_idx h =
    if ltb_ℤ h.frame frame_idx
    then h
    else if better h.bestscore thresh
    then record h { frame = frame_idx +ℤ pos 1 }
    else hmm_clear_scores h

unfoldable pub prune_hmms : PhoneLoop → ℤ → PhoneLoop
unfolding each prune_one
prune_hmms p frame_idx = record p {
  hmms = each (λ i. prune_one (p.best_score +ℤ p.beam) frame_idx) p.n_phones 0 p.hmms;
}

-- A phone is entered if it is not active, or the new score is better.
unfoldable pub enter_phone : ℤ → ℤ → ℤ → Hmm → Hmm
unfolding hmm_enter
enter_phone frame_idx score history h =
    if ltb_ℤ h.frame frame_idx || better score (h.score 0)
    then hmm_enter h score history (frame_idx +ℤ pos 1)
    else h

-- What phone i does to the phones.
unfoldable pub transition_one : PhoneLoop → ℤ → ℕ → (ℕ → Hmm) → ℕ → Hmm
unfolding each enter_phone
transition_one p frame_idx i hs =
    let newphone_score = (hs i).out_score +ℤ p.pip in
    if same (hs i).frame (frame_idx +ℤ pos 1) && better newphone_score (p.best_score +ℤ p.pbeam)
    then each (λ j. enter_phone frame_idx newphone_score (hs i).out_history) p.n_phones 0 hs
    else hs

unfoldable pub transition_from : PhoneLoop → ℤ → (m i : ℕ) → (ℕ → Hmm) → ℕ → Hmm
unfolding transition_one
transition_from p frame_idx zero i hs = hs
transition_from p frame_idx (suc m) i hs =
    transition_from p frame_idx m (i + 1) (transition_one p frame_idx i hs)

unfoldable pub phone_transition : PhoneLoop → ℤ → PhoneLoop
unfolding transition_from
phone_transition p frame_idx = record p { hmms = transition_from p frame_idx p.n_phones 0 p.hmms }

-- `acmod_activate_hmm` for every phone.
unfoldable pub activate_from : Context → (ℕ → Hmm) → (m i : ℕ) → Acmod → Acmod
unfolding acmod_activate_hmm
activate_from c hs zero i a = a
activate_from c hs (suc m) i a = activate_from c hs m (i + 1) (acmod_activate_hmm c a (hs i))

unfoldable pub phone_loop_search_step :
    (weigh : ℤ → ℤ) (frame_eval : (ℕ → ℕ) → ℕ → ℕ → ℤ) (frame_idx : ℤ)
    → PhoneLoop × Acmod
    → PhoneLoop × Acmod
unfolding acmod_clear_active activate_from acmod_flags2list renormalize_hmms evaluate_hmms
    store_scores prune_hmms phone_transition
phone_loop_search_step weigh frame_eval frame_idx (p, a) =
    let a₁ =
      if a.compallsen
      then a
      else activate_from p.hmmctx p.hmms p.n_phones 0 (acmod_clear_active a) in
    let a₂ = (acmod_flags2list a₁).0 in
    let senscr = frame_eval a₂.senone_active a₂.n_senone_active in
    let p₁ =
      if better worst_score (p.best_score +ℤ (p.beam +ℤ p.beam))
      then renormalize_hmms p frame_idx p.best_score
      else p in
    let p₂ = evaluate_hmms p₁ senscr frame_idx in
    (phone_transition (prune_hmms (store_scores weigh p₂) frame_idx) frame_idx, a₂)
