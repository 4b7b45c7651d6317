-- ===== src/PhoneLoop/Transition.antt =====
-- Phones are entered from the best exit among the phones.
use pocketsphinx.Base.{
  ◌≡◌, refl, sym, subst, ap, ◌∙◌, ◌⊎◌, inl, inr, true, false, ℤ, pos, ◌+ℤ◌, ◌≤ℤ◌, ltb_ℤ, arith,
  +ℤ_parts, Bool-cases,
}
use pocketsphinx.Hmm.{Hmm, better, hmm_enter}
use pocketsphinx.Hmm.Eval.{same}
use pocketsphinx.PhoneLoop.{enter_phone}

module _ (f : ℤ) where
  -- The phone is active in the next frame.
  abbrev pub IsNext : Hmm → Type 0
  IsNext h = same h.frame (f +ℤ pos 1) ≡ true

  abbrev pub IsLive : Hmm → Type 0
  IsLive h = ltb_ℤ h.frame f ≡ false

  -- What entering phones keeps of a phone: its exit, that it is active, and a score as good.
  pub record Keeps (h h' : Hmm) : Type 0 where
    pub out : h'.out_score ≡ h.out_score
    pub history : h'.out_history ≡ h.out_history
    pub next : IsNext h → IsNext h'
    pub live : IsLive h → IsLive h'
    pub score : IsLive h → h.score 0 ≤ℤ h'.score 0

  pub Keeps-refl : (h : Hmm) → Keeps h h
  Keeps-refl h = record {
    out = refl;
    history = refl;
    next = λ x. x;
    live = λ x. x;
    score = λ x. omega arith;
  }

  ≤ℤ_trans : (a b c : ℤ) → a ≤ℤ b → b ≤ℤ c → a ≤ℤ c
  ≤ℤ_trans a b c p q = omega arith

  pub Keeps-trans : (h h' h'' : Hmm) → Keeps h h' → Keeps h' h'' → Keeps h h''
  Keeps-trans h h' h'' p q = record {
    out = q.out ∙ p.out;
    history = q.history ∙ p.history;
    next = λ x. q.next (p.next x);
    live = λ x. q.live (p.live x);
    score = λ x. ≤ℤ_trans (h.score 0) (h'.score 0) (h''.score 0) (p.score x) (q.score (p.live x));
  }

  -- A phone as it was, or entered with a score and a history.
  pub record Entered (s hist : ℤ) (h' : Hmm) : Type 0 where
    pub score : h'.score 0 ≡ s
    pub history : h'.history 0 ≡ hist
    pub frame : h'.frame ≡ f +ℤ pos 1

  next_frame : (x : ℤ) → (same (x +ℤ pos 1) (x +ℤ pos 1) ≡ true) × (ltb_ℤ (x +ℤ pos 1) x ≡ false)
  next_frame x = (ground arith, let p = +ℤ_parts x (pos 1) in ground arith)

  entered_lem :
      (s hist : ℤ) (h : Hmm)
      → let h' = hmm_enter h s hist (f +ℤ pos 1) in
        Entered s hist h' × (h'.out_score ≡ h.out_score) × (h'.out_history ≡ h.out_history)
  unfolding hmm_enter
  entered_lem s hist h = (record { score = refl; history = refl; frame = refl }, refl, refl)

  enter_phone_cases :
      (s hist : ℤ) (h : Hmm)
      → ((enter_phone f s hist h ≡ h) × IsLive h × (s ≤ℤ h.score 0))
        ⊎ (((ltb_ℤ h.frame f ≡ true) ⊎ (h.score 0 ≤ℤ s))
            × (enter_phone f s hist h ≡ hmm_enter h s hist (f +ℤ pos 1)))
  unfolding enter_phone
  enter_phone_cases s hist h = elim (Bool-cases (ltb_ℤ h.frame f)) [
    | inl old ↦ inr (inl old, rw old refl)
    | inr live ↦ elim (Bool-cases (better s (h.score 0))) [
      | inl b ↦ inr (inr (ground arith), rw (live, b) refl)
      | inr b ↦ inl (rw (live, b) refl, live, ground arith)
    ]
  ]

  -- Entering a phone leaves it active, with a score of at least the new one.
  pub record Serves (s hist : ℤ) (h h' : Hmm) : Type 0 where
    pub keeps : Keeps h h'
    pub live : IsLive h'
    pub reached : s ≤ℤ h'.score 0
    pub origin : (h' ≡ h) ⊎ Entered s hist h'

  enter_new :
      (s hist : ℤ) (h h' : Hmm)
      → (ltb_ℤ h.frame f ≡ true) ⊎ (h.score 0 ≤ℤ s)
      → Entered s hist h'
      → h'.out_score ≡ h.out_score
      → h'.out_history ≡ h.out_history
      → Serves s hist h h'
  enter_new s hist h h' why e o o' =
      let (n, l) = next_frame f in
      let live : IsLive h' = ap (λ x. ltb_ℤ x f) e.frame ∙ l in
      let is_next : IsNext h' = ap (λ x. same x (f +ℤ pos 1)) e.frame ∙ n in
      record {
        keeps = record {
          out = o;
          history = o';
          next = λ x. is_next;
          live = λ x. live;
          score = λ x. elim why [
            | inl old ↦ absurd (ground arith)
            | inr le ↦ subst (λ y. h.score 0 ≤ℤ y) (sym e.score) le
          ];
        };
        live = live;
        reached = subst (λ y. s ≤ℤ y) (sym e.score) (omega arith);
        origin = inr e;
      }

  pub enter_phone-Serves : (s hist : ℤ) (h : Hmm) → Serves s hist h (enter_phone f s hist h)
  enter_phone-Serves s hist h = elim (enter_phone_cases s hist h) [
    | inl (e, live, le) ↦
        subst (Serves s hist h) (sym e)
          (record { keeps = Keeps-refl h; live = live; reached = le; origin = inl refl })
    | inr (why, e) ↦
        let (en, o, o') = entered_lem s hist h in
        subst (Serves s hist h) (sym e)
          (enter_new s hist h (hmm_enter h s hist (f +ℤ pos 1)) why en o o')
  ]
