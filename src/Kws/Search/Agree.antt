-- ===== src/Kws/Search/Agree.antt =====
-- A frame reads the scores of the HMMs that it evaluates.
use pocketsphinx.Base.{
  ℕ, ◌<◌, ◌≡◌, refl, sym, ap, ◌∙◌, inl, inr, Bool, false, Option, none, some, List, [], ◌∷◌, All, ℤ,
  pos, ◌+ℤ◌, Bool-cases,
}
use pocketsphinx.Hmm.{Context, Hmm, worst_score}
use pocketsphinx.Hmm.Eval.{hmm_vit_eval}
use pocketsphinx.Hmm.Agree.{vit_eval-Agree}
use pocketsphinx.Kws.Search.{
  Keyphrase, KwsSearch, is_active, greater, eval_all, eval_active, eval_keyphrases,
  kws_search_hmm_eval, kws_search_hmm_prune, kws_search_trans, trans_from, best_exit,
}
use pocketsphinx.Kws.Search.Flags.{WhenActive, Phrases}

-- The scorings agree on the states of an HMM.
abbrev pub Agrees : (ℕ → ℤ) → (ℕ → ℤ) → Hmm → Type 0
Agrees f g h = (h.mpx ≡ false) × ((i : ℕ) → i < h.n_emit_state → f (h.senid i) ≡ g (h.senid i))

module _ (c : Context) (f g : ℕ → ℤ) where
  abbrev with_f : Context
  with_f = record c { senscore = f }

  abbrev with_g : Context
  with_g = record c { senscore = g }

  eval_all_agree :
      (hs : List Hmm) (best : ℤ)
      → All (Agrees f g) hs
      → eval_all with_f hs best ≡ eval_all with_g hs best
  unfolding eval_all
  eval_all_agree [] best p = refl
  eval_all_agree (h ∷ hs) best p =
      let e = vit_eval-Agree c f g h p.0.0 p.0.1 in
      let b = greater (hmm_vit_eval with_f h).0 best in
      ap (λ (r : List Hmm × ℤ). ((hmm_vit_eval with_f h).1 ∷ r.0, r.1)) (eval_all_agree hs b p.1)
      ∙ ap (λ (x : ℤ × Hmm). let r = eval_all with_g hs (greater x.0 best) in (x.1 ∷ r.0, r.1)) e

  eval_active_agree :
      (hs : List Hmm) (best : ℤ)
      → All (WhenActive (Agrees f g)) hs
      → eval_active with_f hs best ≡ eval_active with_g hs best
  unfolding eval_active
  eval_active_agree [] best p = refl
  eval_active_agree (h ∷ hs) best p = elim (Bool-cases (is_active h)) [
    | inl on ↦
        let a = p.0 on in
        let e = vit_eval-Agree c f g h a.0 a.1 in
        let b = greater (hmm_vit_eval with_f h).0 best in
        let rest = eval_active_agree hs b p.1 in
        rw on (
          ap (λ (r : List Hmm × ℤ). ((hmm_vit_eval with_f h).1 ∷ r.0, r.1)) rest
          ∙ ap
              (λ (x : ℤ × Hmm).
                let r = eval_active with_g hs (greater x.0 best) in (x.1 ∷ r.0, r.1))
              e)
    | inr off ↦
        let rest = eval_active_agree hs best p.1 in
        rw off (ap (λ (r : List Hmm × ℤ). (h ∷ r.0, r.1)) rest)
  ]

  eval_keyphrases_agree :
      (ks : List Keyphrase) (best : ℤ)
      → Phrases (WhenActive (Agrees f g)) ks
      → eval_keyphrases with_f ks best ≡ eval_keyphrases with_g ks best
  unfolding eval_keyphrases
  eval_keyphrases_agree [] best p = refl
  eval_keyphrases_agree (k ∷ ks) best p =
      let e = eval_active_agree k.hmms best p.0 in
      let rest = eval_keyphrases_agree ks (eval_active with_f k.hmms best).1 p.1 in
      ap
        (λ (r : List Keyphrase × ℤ).
          (record k { hmms = (eval_active with_f k.hmms best).0 } ∷ r.0, r.1))
        rest
      ∙ ap
          (λ (x : List Hmm × ℤ).
            let r = eval_keyphrases with_g ks x.1 in (record k { hmms = x.0 } ∷ r.0, r.1))
          e

-- A search without the scores of its last frame.
abbrev pub forget : KwsSearch → KwsSearch
forget s = record s { hmmctx = record s.hmmctx { senscore = λ senid. pos 0 } }

pub eval_agree :
    (s : KwsSearch) (f g : ℕ → ℤ)
    → All (Agrees f g) s.pl_hmms
    → Phrases (WhenActive (Agrees f g)) s.keyphrases
    → forget (kws_search_hmm_eval s f) ≡ forget (kws_search_hmm_eval s g)
unfolding kws_search_hmm_eval
eval_agree s f g p q =
    let c = s.hmmctx in
    let with : (ℕ → ℤ) → Context = λ u. record c { senscore = u } in
    let e = eval_all_agree c f g s.pl_hmms worst_score p in
    let e' =
      eval_keyphrases_agree c f g s.keyphrases (eval_all (with f) s.pl_hmms worst_score).1 q in
    let done : List Hmm → List Keyphrase × ℤ → KwsSearch = λ l r. record s {
      hmmctx = with (λ senid. pos 0);
      pl_hmms = l;
      keyphrases = r.0;
      bestscore = r.1;
    } in
    ap (done (eval_all (with f) s.pl_hmms worst_score).0) e'
    ∙ ap (λ (x : List Hmm × ℤ). done x.0 (eval_keyphrases (with g) s.keyphrases x.1)) e

forget-prune : (s : KwsSearch) → forget (kws_search_hmm_prune s) ≡ kws_search_hmm_prune (forget s)
unfolding kws_search_hmm_prune
forget-prune s = refl

module _ (strcmp_equal : List ℕ → List ℕ → Bool) where
  forget-trans_from :
      (s : KwsSearch) (o : Option Hmm)
      → forget (trans_from strcmp_equal s o) ≡ trans_from strcmp_equal (forget s) o
  unfolding trans_from
  forget-trans_from s none = refl
  forget-trans_from s (some pl) = refl

  abbrev tick : KwsSearch → KwsSearch
  tick t = record t { frame = t.frame +ℤ pos 1 }

  abbrev pub rest_of_frame : KwsSearch → KwsSearch
  rest_of_frame s = tick (kws_search_trans strcmp_equal (kws_search_hmm_prune s))

  forget-rest : (s : KwsSearch) → forget (rest_of_frame s) ≡ rest_of_frame (forget s)
  unfolding kws_search_trans
  forget-rest s =
      let pruned = kws_search_hmm_prune s in
      ap tick (forget-trans_from pruned (best_exit pruned.pl_hmms worst_score none))
      ∙ ap (λ t. tick (trans_from strcmp_equal t (best_exit t.pl_hmms worst_score none)))
          (forget-prune s)

  pub rest_agree :
      (s t : KwsSearch) → forget s ≡ forget t → forget (rest_of_frame s) ≡ forget (rest_of_frame t)
  rest_agree s t e = forget-rest s ∙ ap rest_of_frame e ∙ sym (forget-rest t)
