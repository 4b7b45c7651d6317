-- ===== src/Kws/Search/Flags.antt =====
-- Which senones the search flags.
use pocketsphinx.Base.{
  ℕ, ◌<◌, ◌≡◌, refl, ◌∙◌, inl, inr, true, false, some, List, [], ◌∷◌, All, All-imp, arith,
  if◌then◌else◌, Bool-cases,
}
use pocketsphinx.Hmm.{Context, Hmm}
use pocketsphinx.Util.Bitvec.{bitvec_is_set}
use pocketsphinx.Acmod.{Acmod, acmod_clear_active, acmod_activate_hmm}
use pocketsphinx.Acmod.Activate.{flags-Adds, senone_of}
use pocketsphinx.Kws.Search.{
  Keyphrase, KwsSearch, is_active, activate_all, activate_active, activate_keyphrases,
  kws_search_sen_active,
}

-- An HMM that is not multiplex, with its senones among the `n`.
pub record IsPlain (n : ℕ) (h : Hmm) : Type 0 where
  pub plain : h.mpx ≡ false
  pub senones : (i : ℕ) → i < h.n_emit_state → h.senid i < n

-- The senones of the HMM's states are flagged.
abbrev pub Flagged : Acmod → Hmm → Type 0
Flagged a h = (i : ℕ) → i < h.n_emit_state → bitvec_is_set a.senone_active_vec (h.senid i) ≡ true

-- From `a` to `a'` no flag was lost.
record Keeps (a a' : Acmod) : Type 0 where
  flags :
      (s : ℕ)
      → bitvec_is_set a.senone_active_vec s ≡ true
      → bitvec_is_set a'.senone_active_vec s ≡ true
  some_only : a'.compallsen ≡ false
  size : a'.n_sen ≡ a.n_sen

Keeps-Flagged : (a a' : Acmod) (h : Hmm) → Keeps a a' → Flagged a h → Flagged a' h
Keeps-Flagged a a' h k f i lt = k.flags (h.senid i) (f i lt)

Keeps-refl : (a : Acmod) → a.compallsen ≡ false → Keeps a a
Keeps-refl a e = record { flags = λ s q. q; some_only = e; size = refl }

Keeps-trans : {a b d : Acmod} → Keeps a b → Keeps b d → Keeps a d
Keeps-trans p q = record {
  flags = λ s f. q.flags s (p.flags s f);
  some_only = q.some_only;
  size = q.size ∙ p.size;
}

-- Only active HMMs have to be flagged.
abbrev pub WhenActive : (Hmm → Type 0) → Hmm → Type 0
WhenActive P h = is_active h ≡ true → P h

abbrev pub Phrases : (Hmm → Type 0) → List Keyphrase → Type 0
Phrases P = All (λ k. All P k.hmms)

module _ (c : Context) (n : ℕ) where
  activate_lem :
      (a : Acmod) (h : Hmm)
      → a.compallsen ≡ false
      → h.mpx ≡ false
      → Keeps a (acmod_activate_hmm c a h) × Flagged (acmod_activate_hmm c a h) h
  unfolding acmod_activate_hmm
  activate_lem a h e m =
      let l = flags-Adds c a h e in
      let senone : (i : ℕ) → senone_of c h i ≡ some (h.senid i) = λ i. rw m refl in
      (
        record { flags = l.kept; some_only = simp e; size = simp e },
        λ i lt. l.added i (h.senid i) lt (senone i),
      )

  all_lem :
      (a : Acmod) (hs : List Hmm)
      → a.compallsen ≡ false
      → All (IsPlain n) hs
      → Keeps a (activate_all c a hs) × All (Flagged (activate_all c a hs)) hs
  unfolding activate_all
  all_lem a [] e p = (Keeps-refl a e, tt)
  all_lem a (h ∷ hs) e p =
      let (k, f) = activate_lem a h e p.0.plain in
      let a₁ = acmod_activate_hmm c a h in
      let (k', fs) = all_lem a₁ hs k.some_only p.1 in
      (Keeps-trans k k', (Keeps-Flagged a₁ (activate_all c a₁ hs) h k' f, fs))

  maybe_lem :
      (a : Acmod) (h : Hmm)
      → a.compallsen ≡ false
      → h.mpx ≡ false
      → let a₁ = if is_active h then acmod_activate_hmm c a h else a in
        Keeps a a₁ × WhenActive (Flagged a₁) h
  maybe_lem a h e m = elim (Bool-cases (is_active h)) [
    | inl on ↦ let l = activate_lem a h e m in rw on (l.0, λ q. l.1)
    | inr off ↦ rw off (Keeps-refl a e, λ q. absurd (ground arith))
  ]

  active_lem :
      (a : Acmod) (hs : List Hmm)
      → a.compallsen ≡ false
      → All (IsPlain n) hs
      → Keeps a (activate_active c a hs) × All (WhenActive (Flagged (activate_active c a hs))) hs
  unfolding activate_active
  active_lem a [] e p = (Keeps-refl a e, tt)
  active_lem a (h ∷ hs) e p =
      let a₁ = if is_active h then acmod_activate_hmm c a h else a in
      let (k, f) = maybe_lem a h e p.0.plain in
      let (k', fs) = active_lem a₁ hs k.some_only p.1 in
      (Keeps-trans k k', (λ on. Keeps-Flagged a₁ (activate_active c a₁ hs) h k' (f on), fs))

  phrases_lem :
      (a : Acmod) (ks : List Keyphrase)
      → a.compallsen ≡ false
      → Phrases (IsPlain n) ks
      → Keeps a (activate_keyphrases c a ks)
        × Phrases (WhenActive (Flagged (activate_keyphrases c a ks))) ks
  unfolding activate_keyphrases
  phrases_lem a [] e p = (Keeps-refl a e, tt)
  phrases_lem a (k ∷ ks) e p =
      let a₁ = activate_active c a k.hmms in
      let (keep, f) = active_lem a k.hmms e p.0 in
      let (keep', fs) = phrases_lem a₁ ks keep.some_only p.1 in
      let a₂ = activate_keyphrases c a₁ ks in
      (
        Keeps-trans keep keep',
        (
          All-imp (WhenActive (Flagged a₁)) (WhenActive (Flagged a₂)) k.hmms
              (λ h w on. Keeps-Flagged a₁ a₂ h keep' (w on)) f,
          fs,
        ),
      )

pub sen_active_lem :
    (s : KwsSearch) (a : Acmod) (n : ℕ)
    → a.compallsen ≡ false
    → All (IsPlain n) s.pl_hmms
    → Phrases (IsPlain n) s.keyphrases
    → let a' = kws_search_sen_active s a in
      (a'.compallsen ≡ false)
      × (a'.n_sen ≡ a.n_sen)
      × All (Flagged a') s.pl_hmms
      × Phrases (WhenActive (Flagged a')) s.keyphrases
unfolding kws_search_sen_active acmod_clear_active
sen_active_lem s a n e p q =
    let c = s.hmmctx in
    let a₀ = acmod_clear_active a in
    let e₀ : a₀.compallsen ≡ false = simp e in
    let n₀ : a₀.n_sen ≡ a.n_sen = simp e in
    let a₁ = activate_all c a₀ s.pl_hmms in
    let (k, fl) = all_lem c n a₀ s.pl_hmms e₀ p in
    let (k', fl') = phrases_lem c n a₁ s.keyphrases k.some_only q in
    let a₂ = activate_keyphrases c a₁ s.keyphrases in
    (
      k'.some_only,
      k'.size ∙ k.size ∙ n₀,
      All-imp (Flagged a₁) (Flagged a₂) s.pl_hmms (λ h f. Keeps-Flagged a₁ a₂ h k' f) fl,
      fl',
    )
