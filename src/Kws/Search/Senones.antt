-- ===== src/Kws/Search/Senones.antt =====
-- The senones that the search flags are all that its frame needs.
use pocketsphinx.Base.{
  ℕ, suc, ◌<◌, ◌≡◌, refl, sym, subst, Bool, false, All-both, List, All, ℤ, if◌then◌else◌,
}
use pocketsphinx.Hmm.{Hmm}
use pocketsphinx.Acmod.{Acmod, acmod_flags2list}
use pocketsphinx.Acmod.Writing.{cursor}
use pocketsphinx.Acmod.Flags.{flags2list_lem}
use pocketsphinx.Kws.Search.{
  KwsSearch, kws_search_hmm_eval, kws_search_sen_active, kws_search_step, run_frame,
}
use pocketsphinx.Kws.Search.Flags.{IsPlain, Flagged, WhenActive, Phrases, sen_active_lem}
use pocketsphinx.Kws.Search.Agree.{Agrees, forget, eval_agree, rest_agree}

-- A flagged HMM has its scores on the list.
listed :
    (a : Acmod) (h : Hmm) (f g : ℕ → ℤ)
    → a.compallsen ≡ false
    → IsPlain a.n_sen h
    → let arr = (acmod_flags2list a).0.senone_active in
      ((i : ℕ)
        → i < (acmod_flags2list a).0.n_senone_active
        → f (cursor arr (suc i)) ≡ g (cursor arr (suc i)))
      → Flagged a h
      → Agrees f g h
listed a h f g e p same fl = (
  p.plain,
  λ i lt.
      let (k, lt', at) = (flags2list_lem a e).lists.found (h.senid i) (p.senones i lt) (fl i lt) in
      subst (λ x. f x ≡ g x) at (same k lt'),
)

-- Where not all senones are computed, a frame comes out the same under any two acoustic models that
-- give the same scores to the senones on the list that they are handed: the flags set for the phone
-- loop and for the active HMMs of the key phrases cover every score that the frame reads. (The HMMs
-- are not multiplex and have senones of the model; the score array itself is left out.)
pub step_agree :
    (strcmp_equal : List ℕ → List ℕ → Bool) (e e' : (ℕ → ℕ) → ℕ → ℕ → ℤ) (s : KwsSearch) (a : Acmod)
    → a.compallsen ≡ false
    → All (IsPlain a.n_sen) s.pl_hmms
    → Phrases (IsPlain a.n_sen) s.keyphrases
    → ((arr : ℕ → ℕ) (n i : ℕ)
        → i < n
        → e arr n (cursor arr (suc i)) ≡ e' arr n (cursor arr (suc i)))
    → let r = kws_search_step strcmp_equal e (s, a) in
      let r' = kws_search_step strcmp_equal e' (s, a) in (forget r.0 ≡ forget r'.0) × (r.1 ≡ r'.1)
unfolding kws_search_step run_frame
step_agree strcmp_equal e e' s a some_only p q same =
    let a₁ = kws_search_sen_active s a in
    let (c₁, n₁, fl, fl') = sen_active_lem s a a.n_sen some_only p q in
    let a₂ = (acmod_flags2list a₁).0 in
    let f = e a₂.senone_active a₂.n_senone_active in
    let g = e' a₂.senone_active a₂.n_senone_active in
    let scored = λ (h : Hmm) (pl : IsPlain a.n_sen h) (w : Flagged a₁ h).
      listed a₁ h f g c₁ (subst (λ n. IsPlain n h) (sym n₁) pl)
        (λ i lt. same a₂.senone_active a₂.n_senone_active i lt) w in
    let pl_ok = All-both (IsPlain a.n_sen) (Flagged a₁) (Agrees f g) s.pl_hmms scored p fl in
    let ks_ok =
      All-both (λ k. All (IsPlain a.n_sen) k.hmms) (λ k. All (WhenActive (Flagged a₁)) k.hmms)
        (λ k. All (WhenActive (Agrees f g)) k.hmms) s.keyphrases
        (λ k.
          All-both (IsPlain a.n_sen) (WhenActive (Flagged a₁)) (WhenActive (Agrees f g)) k.hmms
            (λ h pl w on. scored h pl (w on)))
        q fl' in
    let agree =
      rest_agree strcmp_equal (kws_search_hmm_eval s f) (kws_search_hmm_eval s g)
        (eval_agree s f g pl_ok ks_ok) in
    let flagged : (if a.compallsen then a else a₁) ≡ a₁ = rw some_only refl in
    (
      subst
          (λ x. forget (run_frame strcmp_equal e s x).0 ≡ forget (run_frame strcmp_equal e' s x).0)
          (sym flagged) agree,
      refl,
    )
