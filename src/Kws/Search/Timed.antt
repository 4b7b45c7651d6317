-- ===== src/Kws/Search/Timed.antt =====
-- The frames of the detections, over any run of the search.
use pocketsphinx.Base.{
  ℕ, ◌≡◌, refl, sym, subst, ◌∙◌, inl, inr, Bool, Option, none, some, List, [], ◌∷◌, map, All,
  All-map, All-imp, ℤ, pos, negsuc, ◌+ℤ◌, ◌≤ℤ◌, arith, int_laws, if◌then◌else◌,
}
use pocketsphinx.Hmm.{Context, Hmm, hmm_clear, hmm_enter, worst_score}
use pocketsphinx.Hmm.Histories.{Histories, enter-Histories, clear-Histories}
use pocketsphinx.Acmod.{Acmod, acmod_flags2list}
use pocketsphinx.Kws.{kws_detections_reset}
use pocketsphinx.Kws.Search.{
  Keyphrase, KwsSearch, eval_all, eval_active, eval_keyphrases, kws_search_hmm_eval,
  prune_keyphrase, kws_search_hmm_prune, best_exit, advance_keyphrase, reenter, spot,
  kws_search_trans, trans_from, kws_search_step, run_frame, kws_search_start, kws_search_sen_active,
}
use pocketsphinx.Kws.Search.Frames.{
  Within, Tracks, Histories-imp, Maybe, advance-Tracks, reenter-Tracks, best_exit-Maybe,
  prune-Tracks, eval_all-Tracks, eval_active-Tracks,
}
use pocketsphinx.Kws.Search.Detected.{IsTimed, Phrase, IsSound, spot-IsTimed, later}

-- The frames of an utterance.
abbrev pub steps :
    (List ℕ → List ℕ → Bool) → List ((ℕ → ℕ) → ℕ → ℕ → ℤ) → KwsSearch × Acmod → KwsSearch × Acmod
steps eq [] p = p
steps eq (e ∷ es) p = steps eq es (kws_search_step eq e p)

module _ (strcmp_equal : List ℕ → List ℕ → Bool) (W : List ℕ → Type 0) (b : ℤ) where
  eval_keyphrases-Phrase :
      (f : ℤ) (c : Context) (ks : List Keyphrase) (best : ℤ)
      → All (Phrase W b f) ks
      → All (Phrase W b f) (eval_keyphrases c ks best).0
  unfolding eval_keyphrases
  eval_keyphrases-Phrase f c [] best t = tt
  eval_keyphrases-Phrase f c (k ∷ ks) best t = (
    (t.0.0, eval_active-Tracks b f c k.hmms best t.0.1),
    eval_keyphrases-Phrase f c ks (eval_active c k.hmms best).1 t.1,
  )

  eval-IsSound :
      (f g : ℤ) (s : KwsSearch) (senscr : ℕ → ℤ)
      → IsSound W b f g s
      → IsSound W b f g (kws_search_hmm_eval s senscr)
  unfolding kws_search_hmm_eval
  eval-IsSound f g s senscr q =
      let c : Context = record s.hmmctx { senscore = senscr } in
      record {
        loop = eval_all-Tracks b f c s.pl_hmms worst_score q.loop;
        phrases =
            eval_keyphrases-Phrase f c s.keyphrases (eval_all c s.pl_hmms worst_score).1 q.phrases;
        timed = q.timed;
        now = q.now;
      }

  prune-IsSound :
      (f g : ℤ) (s : KwsSearch)
      → negsuc 0 ≤ℤ f
      → IsSound W b f g s
      → IsSound W b f g (kws_search_hmm_prune s)
  unfolding kws_search_hmm_prune
  prune-IsSound f g s le q = record {
    loop = q.loop;
    phrases =
        All-map (Phrase W b f) (Phrase W b f) (prune_keyphrase (s.bestscore +ℤ s.beam)) s.keyphrases
          (λ k p. (p.0, prune-Tracks b f (s.bestscore +ℤ s.beam) k.hmms le p.1)) q.phrases;
    timed = q.timed;
    now = q.now;
  }

  trans_found :
      (s : KwsSearch) (pl : Hmm)
      → Histories (Within b s.frame) pl
      → IsSound W b s.frame s.frame s
      → IsSound W b s.frame (s.frame +ℤ pos 1) (record s {
        detections = spot strcmp_equal pl s.frame s.keyphrases s.detections;
        pl_hmms = map (reenter s.frame s.plp pl) s.pl_hmms;
        keyphrases = map (advance_keyphrase s.frame pl) s.keyphrases;
      })
  unfolding advance_keyphrase
  trans_found s pl m q =
      let z = q.now in
      record {
        loop = reenter-Tracks b s.frame s.frame s.plp pl s.pl_hmms m q.loop;
        phrases =
            All-map (Phrase W b s.frame) (Phrase W b s.frame) (advance_keyphrase s.frame pl)
              s.keyphrases
              (λ k p. (
                p.0,
                advance-Tracks b s.frame s.frame pl k.hmms (omega arith, inl (omega arith)) p.1,
              ))
              q.phrases;
        timed =
            spot-IsTimed strcmp_equal W b s.frame pl s.keyphrases s.detections z q.phrases
              (later strcmp_equal W b s.frame s.detections q.timed);
        now = z;
      }

  trans_from-IsSound :
      (s : KwsSearch) (o : Option Hmm)
      → Maybe b s.frame o
      → IsSound W b s.frame s.frame s
      → IsSound W b s.frame (s.frame +ℤ pos 1) (trans_from strcmp_equal s o)
        × ((trans_from strcmp_equal s o).frame ≡ s.frame)
  unfolding trans_from
  trans_from-IsSound s none m q = (
    record {
      loop = q.loop;
      phrases = q.phrases;
      timed = later strcmp_equal W b s.frame s.detections q.timed;
      now = q.now;
    },
    refl,
  )
  trans_from-IsSound s (some pl) m q = (trans_found s pl m q, refl)

  trans-IsSound :
      (s : KwsSearch)
      → IsSound W b s.frame s.frame s
      → IsSound W b s.frame (s.frame +ℤ pos 1) (kws_search_trans strcmp_equal s)
        × ((kws_search_trans strcmp_equal s).frame ≡ s.frame)
  unfolding kws_search_trans
  trans-IsSound s q =
      trans_from-IsSound s (best_exit s.pl_hmms worst_score none)
        (best_exit-Maybe b s.frame s.pl_hmms worst_score none q.loop tt) q

  Histories-later : (f : ℤ) (hs : List Hmm) → Tracks b f hs → Tracks b (f +ℤ pos 1) hs
  Histories-later f hs =
      All-imp (Histories (Within b f)) (Histories (Within b (f +ℤ pos 1))) hs (λ h.
        Histories-imp h (λ x w.
          let (lo, hi) = w in
          (lo, elim hi [ inl early ↦ inl (omega int_laws) | inr late ↦ inr late ])))

  next_frame :
      (s : KwsSearch)
      → IsSound W b s.frame (s.frame +ℤ pos 1) s
      → let t = record s { frame = s.frame +ℤ pos 1 } in IsSound W b t.frame t.frame t
  next_frame s q =
      let z = q.now in
      record {
        loop = Histories-later s.frame s.pl_hmms q.loop;
        phrases =
            All-imp (Phrase W b s.frame) (Phrase W b (s.frame +ℤ pos 1)) s.keyphrases
              (λ k p. (p.0, Histories-later s.frame k.hmms p.1)) q.phrases;
        timed = q.timed;
        now = omega int_laws;
      }

  abbrev Sound : KwsSearch → Type 0
  Sound s = IsSound W b s.frame s.frame s

  finish_step :
      (t : KwsSearch) (f : ℤ)
      → IsSound W b f (f +ℤ pos 1) t × (t.frame ≡ f)
      → Sound (record t { frame = t.frame +ℤ pos 1 })
  finish_step t f (q, e) = next_frame t (subst (λ x. IsSound W b x (x +ℤ pos 1) t) (sym e) q)

  scored :
      (s : KwsSearch) (f : ℤ)
      → s.frame ≡ f
      → IsSound W b f f s
      → IsSound W b f (f +ℤ pos 1) (kws_search_trans strcmp_equal s)
        × ((kws_search_trans strcmp_equal s).frame ≡ f)
  scored s f e q =
      let (r, e') = trans-IsSound s (subst (λ x. IsSound W b x x s) (sym e) q) in
      (subst (λ x. IsSound W b x (x +ℤ pos 1) (kws_search_trans strcmp_equal s)) e r, e' ∙ e)

  same_frame :
      (s : KwsSearch) (senscr : ℕ → ℤ)
      → (kws_search_hmm_prune (kws_search_hmm_eval s senscr)).frame ≡ s.frame
  unfolding kws_search_hmm_prune kws_search_hmm_eval
  same_frame s senscr = refl

  step-Sound :
      (frame_eval : (ℕ → ℕ) → ℕ → ℕ → ℤ) (s : KwsSearch) (a : Acmod)
      → Sound s
      → Sound (kws_search_step strcmp_equal frame_eval (s, a)).0
  unfolding kws_search_step run_frame
  step-Sound frame_eval s a q =
      let a₁ = if a.compallsen then a else kws_search_sen_active s a in
      let a₂ = (acmod_flags2list a₁).0 in
      let senscr = frame_eval a₂.senone_active a₂.n_senone_active in
      let s₁ = kws_search_hmm_eval s senscr in
      let q₁ = eval-IsSound s.frame s.frame s senscr q in
      let z = q.now in
      let s₂ = kws_search_hmm_prune s₁ in
      let q₂ = prune-IsSound s.frame s.frame s₁ (omega arith) q₁ in
      finish_step (kws_search_trans strcmp_equal s₂) s.frame
        (scored s₂ s.frame (same_frame s senscr) q₂)

  steps-Sound :
      (evals : List ((ℕ → ℕ) → ℕ → ℕ → ℤ)) (s : KwsSearch) (a : Acmod)
      → Sound s
      → Sound (steps strcmp_equal evals (s, a)).0
  steps-Sound [] s a q = q
  steps-Sound (e ∷ es) s a q =
      let r = kws_search_step strcmp_equal e (s, a) in steps-Sound es r.0 r.1 (step-Sound e s a q)

  start-Sound :
      (s : KwsSearch)
      → All (Phrase W b (pos 0)) s.keyphrases
      → Tracks b (pos 0) s.pl_hmms
      → Sound (kws_search_start s)
  unfolding kws_search_start kws_detections_reset
  start-Sound s p t = record {
    loop =
        All-map (Histories (Within b (pos 0))) (Histories (Within b (pos 0)))
          (λ h. hmm_enter (hmm_clear h) (pos 0) (negsuc 0) (pos 0)) s.pl_hmms
          (λ h q.
            enter-Histories (Within b (pos 0)) (hmm_clear h) (pos 0) (negsuc 0) (pos 0)
              (clear-Histories (Within b (pos 0)) h q (omega arith, inl (omega arith)))
              (omega arith, inl (omega arith)))
          t;
    phrases = p;
    timed = tt;
    now = omega arith;
  }

  -- Where every history of every HMM, those of the key phrases included, is between -1 and `b` or 0 at
  -- the start of an utterance, then after any number of frames, whatever their scores: every detection
  -- is of a phrase searched for (`W` holds of them), ends in a frame that was processed, and starts at
  -- -1 at the earliest and no later than its end or than `b`. So none starts after its end if the
  -- histories are at most 0, as after `hmm_init`; in a later utterance one may, by what the HMMs of the
  -- key phrases keep of the earlier ones.
  pub detections-IsTimed :
      (evals : List ((ℕ → ℕ) → ℕ → ℕ → ℤ)) (s : KwsSearch) (a : Acmod)
      → All (Phrase W b (pos 0)) s.keyphrases
      → Tracks b (pos 0) s.pl_hmms
      → let t = (steps strcmp_equal evals (kws_search_start s, a)).0 in
        All (IsTimed W b t.frame) t.detections
  detections-IsTimed evals s a p t =
      (steps-Sound evals (kws_search_start s) a (start-Sound s p t)).timed
