-- ===== src/Kws/Search/Spotted.antt =====
-- A key phrase that is spotted is among the detections, and stays there.
use pocketsphinx.Base.{
  ℕ, ◌≡◌, refl, sym, subst, ◌∙◌, ◌⊎◌, inl, inr, Bool, true, Option, none, some, List, [], ◌∷◌, ℤ,
  ◌≤ℤ◌, arith, if◌then◌else◌, Bool-cases,
}
use mathlib.Core.List.{Memᴰ}
use pocketsphinx.Hmm.{Hmm, worst_score}
use pocketsphinx.Acmod.{Acmod, acmod_flags2list}
use pocketsphinx.Kws.{Detection, overlaps, kws_detections_add}
use pocketsphinx.Kws.Laws.{NoWorse, Covers, add-Covers}
use pocketsphinx.Kws.Search.{
  Keyphrase, KwsSearch, last_hmm, is_spotted, detection, best_exit, spot, trans_from,
  kws_search_trans, kws_search_hmm_eval, kws_search_hmm_prune, run_frame, kws_search_step,
  kws_search_sen_active,
}
use pocketsphinx.Kws.Search.Timed.{steps}

-- A detection of the phrase `w`, with a probability of at least `p`.
abbrev pub Has : List ℕ → ℤ → List Detection → Type 0
Has w p [] = ⊥
Has w p (d ∷ ds) = ((d.keyphrase ≡ w) × (p ≤ℤ d.prob)) ⊎ Has w p ds

NoWorse-Has :
    (w : List ℕ) (p : ℤ) (xs ys : List Detection) → NoWorse xs ys → Has w p xs → Has w p ys
NoWorse-Has w p [] ys n h = elim h [ ]
NoWorse-Has w p (x ∷ xs) [] n h = elim n [ ]
NoWorse-Has w p (x ∷ xs) (y ∷ ys) n (inl h) = inl (sym n.0 ∙ h.0, let l = n.1 in omega arith)
NoWorse-Has w p (x ∷ xs) (y ∷ ys) n (inr h) = inr (NoWorse-Has w p xs ys n.2 h)

-- The search in a frame after evaluation and pruning, before the transitions.
abbrev pub before_trans : KwsSearch → Acmod → ((ℕ → ℕ) → ℕ → ℕ → ℤ) → KwsSearch
before_trans s a e =
    let a' = (acmod_flags2list (if a.compallsen then a else kws_search_sen_active s a)).0 in
    kws_search_hmm_prune (kws_search_hmm_eval s (e a'.senone_active a'.n_senone_active))

module _ (strcmp_equal : List ℕ → List ℕ → Bool)
    (equal : (x y : List ℕ) → strcmp_equal x y ≡ true → x ≡ y) where
  overlaps-same :
      (d new : Detection) → overlaps strcmp_equal d new ≡ true → new.keyphrase ≡ d.keyphrase
  unfolding overlaps
  overlaps-same d new e = equal new.keyphrase d.keyphrase (ground arith)

  Covers-Has :
      (xs ys : List Detection) (new : Detection)
      → NoWorse xs ys
      → Covers strcmp_equal xs ys new
      → Has new.keyphrase new.prob ys
  Covers-Has [] ys new n c = elim c [ ]
  Covers-Has (x ∷ xs) [] new n c = elim n [ ]
  Covers-Has (x ∷ xs) (y ∷ ys) new n c = elim (Bool-cases (overlaps strcmp_equal x new)) [
    | inl e ↦ inl (sym n.0 ∙ sym (overlaps-same x new e), rw e at c)
    | inr e ↦ inr (Covers-Has xs ys new n.2 (rw e at c))
  ]

  add-keeps :
      (w : List ℕ) (p : ℤ) (ds : List Detection) (new : Detection)
      → Has w p ds
      → Has w p (kws_detections_add strcmp_equal ds new)
  add-keeps w p ds new h = elim (add-Covers strcmp_equal ds new) [
    | inl (q, e) ↦ subst (Has w p) (sym e) (inr h)
    | inr (q, n, c) ↦ NoWorse-Has w p ds _ n h
  ]

  add-Has :
      (ds : List Detection) (new : Detection)
      → Has new.keyphrase new.prob (kws_detections_add strcmp_equal ds new)
  add-Has ds new = elim (add-Covers strcmp_equal ds new) [
    | inl (q, e) ↦ subst (Has new.keyphrase new.prob) (sym e) (inl (refl, omega arith))
    | inr (q, n, c) ↦ Covers-Has ds _ new n c
  ]

  abbrev one : Hmm → ℤ → Keyphrase → Option Hmm → List Detection → List Detection
  one pl frame k none ds = ds
  one pl frame k (some h) ds =
      if is_spotted pl k h then kws_detections_add strcmp_equal ds (detection pl frame k h) else ds

  one-keeps :
      (w : List ℕ) (p : ℤ) (pl : Hmm) (frame : ℤ) (k : Keyphrase) (o : Option Hmm)
      (ds : List Detection)
      → Has w p ds
      → Has w p (one pl frame k o ds)
  one-keeps w p pl frame k none ds h = h
  one-keeps w p pl frame k (some l) ds h = elim (Bool-cases (is_spotted pl k l)) [
    | inl e ↦ rw e (add-keeps w p ds (detection pl frame k l) h)
    | inr e ↦ rw e h
  ]

  spot-cons :
      (pl : Hmm) (frame : ℤ) (k : Keyphrase) (ks : List Keyphrase) (ds : List Detection)
      (o : Option Hmm)
      → last_hmm k.hmms ≡ o
      → spot strcmp_equal pl frame (k ∷ ks) ds ≡ spot strcmp_equal pl frame ks (one pl frame k o ds)
  unfolding spot
  spot-cons pl frame k ks ds none e = rw e refl
  spot-cons pl frame k ks ds (some h) e = rw e refl

  spot-keeps :
      (w : List ℕ) (p : ℤ) (pl : Hmm) (frame : ℤ) (ks : List Keyphrase) (ds : List Detection)
      → Has w p ds
      → Has w p (spot strcmp_equal pl frame ks ds)
  unfolding spot
  spot-keeps w p pl frame [] ds h = h
  spot-keeps w p pl frame (k ∷ ks) ds h =
      let o = last_hmm k.hmms in
      subst (Has w p) (sym (spot-cons pl frame k ks ds o refl))
        (spot-keeps w p pl frame ks (one pl frame k o ds) (one-keeps w p pl frame k o ds h))

  spot-Has :
      (pl : Hmm) (frame : ℤ) (k : Keyphrase) (h : Hmm) (ks : List Keyphrase) (ds : List Detection)
      → Memᴰ k ks
      → last_hmm k.hmms ≡ some h
      → is_spotted pl k h ≡ true
      → Has k.word (detection pl frame k h).prob (spot strcmp_equal pl frame ks ds)
  spot-Has pl frame k h [] ds m e t = elim m [ ]
  spot-Has pl frame k h (x ∷ ks) ds (Memᴰ.head q) e t =
      let e' : last_hmm x.hmms ≡ some h = subst (λ y. last_hmm y.hmms ≡ some h) q e in
      let t' : is_spotted pl x h ≡ true = subst (λ y. is_spotted pl y h ≡ true) q t in
      let added : Has k.word (detection pl frame k h).prob (one pl frame x (some h) ds) = rw t' (
        subst
          (λ y.
            Has y.word (detection pl frame y h).prob
              (kws_detections_add strcmp_equal ds (detection pl frame x h)))
          (sym q) (add-Has ds (detection pl frame x h))) in
      subst (Has k.word (detection pl frame k h).prob)
        (sym (spot-cons pl frame x ks ds (some h) e'))
        (spot-keeps k.word (detection pl frame k h).prob pl frame ks _ added)
  spot-Has pl frame k h (x ∷ ks) ds (Memᴰ.tail m) e t =
      let o = last_hmm x.hmms in
      subst (Has k.word (detection pl frame k h).prob) (sym (spot-cons pl frame x ks ds o refl))
        (spot-Has pl frame k h ks (one pl frame x o ds) m e t)

  trans-Has :
      (s : KwsSearch) (pl : Hmm) (k : Keyphrase) (h : Hmm)
      → best_exit s.pl_hmms worst_score none ≡ some pl
      → Memᴰ k s.keyphrases
      → last_hmm k.hmms ≡ some h
      → is_spotted pl k h ≡ true
      → Has k.word (detection pl s.frame k h).prob (kws_search_trans strcmp_equal s).detections
  unfolding kws_search_trans trans_from
  trans-Has s pl k h b m e t =
      subst
        (λ o. Has k.word (detection pl s.frame k h).prob (trans_from strcmp_equal s o).detections)
        (sym b) (spot-Has pl s.frame k h s.keyphrases s.detections m e t)

  trans_from-keeps :
      (w : List ℕ) (p : ℤ) (s : KwsSearch) (o : Option Hmm)
      → Has w p s.detections
      → Has w p (trans_from strcmp_equal s o).detections
  unfolding trans_from
  trans_from-keeps w p s none h = h
  trans_from-keeps w p s (some pl) h = spot-keeps w p pl s.frame s.keyphrases s.detections h

  trans-keeps :
      (w : List ℕ) (p : ℤ) (s : KwsSearch)
      → Has w p s.detections
      → Has w p (kws_search_trans strcmp_equal s).detections
  unfolding kws_search_trans
  trans-keeps w p s = trans_from-keeps w p s (best_exit s.pl_hmms worst_score none)

  run_frame-keeps :
      (w : List ℕ) (p : ℤ) (e : (ℕ → ℕ) → ℕ → ℕ → ℤ) (s : KwsSearch) (a : Acmod)
      → Has w p s.detections
      → Has w p (run_frame strcmp_equal e s a).0.detections
  unfolding run_frame kws_search_hmm_prune kws_search_hmm_eval
  run_frame-keeps w p e s a h =
      let a' = (acmod_flags2list a).0 in
      let t =
        kws_search_hmm_prune (kws_search_hmm_eval s (e a'.senone_active a'.n_senone_active)) in
      trans-keeps w p t h

  step-keeps :
      (w : List ℕ) (p : ℤ) (e : (ℕ → ℕ) → ℕ → ℕ → ℤ) (r : KwsSearch × Acmod)
      → Has w p r.0.detections
      → Has w p (kws_search_step strcmp_equal e r).0.detections
  unfolding kws_search_step
  step-keeps w p e (s, a) h =
      run_frame-keeps w p e s (if a.compallsen then a else kws_search_sen_active s a) h

  steps-keeps :
      (w : List ℕ) (p : ℤ) (es : List ((ℕ → ℕ) → ℕ → ℕ → ℤ)) (r : KwsSearch × Acmod)
      → Has w p r.0.detections
      → Has w p (steps strcmp_equal es r).0.detections
  steps-keeps w p [] r h = h
  steps-keeps w p (e ∷ es) r h =
      steps-keeps w p es (kws_search_step strcmp_equal e r) (step-keeps w p e r h)

  -- A state that is spotted before the transitions of a frame, and the frames after it.
  frame-Has :
      (s : KwsSearch) (a : Acmod) (e : (ℕ → ℕ) → ℕ → ℕ → ℤ) (pl : Hmm) (k : Keyphrase) (h : Hmm)
      → best_exit (before_trans s a e).pl_hmms worst_score none ≡ some pl
      → Memᴰ k (before_trans s a e).keyphrases
      → last_hmm k.hmms ≡ some h
      → is_spotted pl k h ≡ true
      → Has k.word
          (detection pl s.frame k h).prob
          (kws_search_step strcmp_equal e (s, a)).0.detections
  unfolding kws_search_step run_frame
  frame-Has s a e pl k h b m l t = trans-Has (before_trans s a e) pl k h b m l t

  -- For a comparison of strings that is true of equal strings only. In a frame, let a phone of the loop
  -- have the best exit once the HMMs are evaluated with the frame's scores and pruned, and let the last
  -- HMM of a key phrase then be active with an exit that is better than the phone's by the phrase's
  -- threshold. Then a detection of the phrase with at least the probability of this one is in the list
  -- after the frame, and after any number of further frames of the utterance.
  pub spotted_stays :
      (s : KwsSearch) (a : Acmod) (e : (ℕ → ℕ) → ℕ → ℕ → ℤ) (es : List ((ℕ → ℕ) → ℕ → ℕ → ℤ))
      (pl : Hmm) (k : Keyphrase) (h : Hmm)
      → best_exit (before_trans s a e).pl_hmms worst_score none ≡ some pl
      → Memᴰ k (before_trans s a e).keyphrases
      → last_hmm k.hmms ≡ some h
      → is_spotted pl k h ≡ true
      → Has k.word (detection pl s.frame k h).prob (steps strcmp_equal (e ∷ es) (s, a)).0.detections
  spotted_stays s a e es pl k h b m l t =
      steps-keeps k.word (detection pl s.frame k h).prob es (kws_search_step strcmp_equal e (s, a))
        (frame-Has s a e pl k h b m l t)
