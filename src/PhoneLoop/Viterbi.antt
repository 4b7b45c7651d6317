-- ===== src/PhoneLoop/Viterbi.antt =====
-- The transitions between the phones of a loop.
use pocketsphinx.Base.{
  ℕ, zero, suc, ◌+◌, ◌≤◌, ◌<◌, ◌≡◌, refl, sym, subst, ◌∙◌, ◌⊎◌, inl, inr, true, ℤ, pos, ◌+ℤ◌, ◌≤ℤ◌,
  ltb, arith, Bool-cases,
}
use native.Mathlib.Decide.{ℕ_discrete}
use pocketsphinx.Hmm.{Hmm, better}
use pocketsphinx.Hmm.Eval.{same}
use pocketsphinx.PhoneLoop.{
  PhoneLoop, each, enter_phone, transition_one, transition_from, phone_transition,
}
use pocketsphinx.PhoneLoop.Window.{each-inside, each-outside}
use pocketsphinx.PhoneLoop.Transition.{
  IsNext, IsLive, Keeps, Entered, Serves, Keeps-refl, Keeps-trans, enter_phone-Serves,
}

module _ (p : PhoneLoop) (f : ℤ) where
  -- The score that a phone offers to the others, and whether it is within the beam.
  abbrev pub offer : Hmm → ℤ
  offer h = h.out_score +ℤ p.pip

  abbrev pub Exits : Hmm → Type 0
  Exits h = IsNext f h × (better (offer h) (p.best_score +ℤ p.pbeam) ≡ true)

  abbrev AllKeep : (ℕ → Hmm) → (ℕ → Hmm) → Type 0
  AllKeep hs hs' = (j : ℕ) → Keeps f (hs j) (hs' j)

  -- A phone of `hs'` is that of `hs`, or was entered from one within the beam.
  abbrev pub Stems : (ℕ → Hmm) → (ℕ → Hmm) → ℕ → Type 0
  Stems hs hs' j =
      (hs' j ≡ hs j)
      ⊎ ((i : ℕ) × (i < p.n_phones)
          × (better (offer (hs i)) (p.best_score +ℤ p.pbeam) ≡ true)
          × Entered f (offer (hs i)) (hs i).out_history (hs' j))

  inside :
      (i : ℕ) (hs : ℕ → Hmm) (j : ℕ)
      → j < p.n_phones
      → let s = offer (hs i) in
        let hist = (hs i).out_history in
        Serves f s hist (hs j) (each (λ j. enter_phone f s hist) p.n_phones 0 hs j)
  inside i hs j l =
      let s = offer (hs i) in
      let hist = (hs i).out_history in
      let e =
        each-inside (λ j. enter_phone f s hist) p.n_phones 0 j hs (omega arith) (omega arith) in
      subst (Serves f s hist (hs j)) (sym e) (enter_phone-Serves f s hist (hs j))

  entered_all :
      (i : ℕ) (hs : ℕ → Hmm) (j : ℕ)
      → let s = offer (hs i) in
        let hist = (hs i).out_history in
        let hs' = each (λ j. enter_phone f s hist) p.n_phones 0 hs in
        ((j < p.n_phones) × Serves f s hist (hs j) (hs' j)) ⊎ (hs' j ≡ hs j)
  entered_all i hs j =
      let s = offer (hs i) in
      let hist = (hs i).out_history in
      elim (Bool-cases (ltb j p.n_phones)) [
        | inl lt ↦ let l : j < p.n_phones = ground arith in inl (l, inside i hs j l)
        | inr ge ↦
            let l : p.n_phones ≤ j = ground arith in
            inr (each-outside (λ j. enter_phone f s hist) p.n_phones 0 j hs (inr (omega arith)))
      ]

  -- One phone's turn.
  record Turn (i : ℕ) (hs hs' : ℕ → Hmm) : Type 0 where
    keeps : AllKeep hs hs'
    stems : (j : ℕ) → Stems hs hs' j
    served :
        Exits (hs i)
        → (j : ℕ) → j < p.n_phones
        → IsLive f (hs' j) × (offer (hs i) ≤ℤ (hs' j).score 0)

  Turn-on :
      (i : ℕ) (hs : ℕ → Hmm)
      → i < p.n_phones
      → better (offer (hs i)) (p.best_score +ℤ p.pbeam) ≡ true
      → Turn i hs (each (λ j. enter_phone f (offer (hs i)) (hs i).out_history) p.n_phones 0 hs)
  Turn-on i hs lt b = record {
    keeps = λ j. elim (entered_all i hs j) [
      | inl (l, s) ↦ s.keeps
      | inr e ↦ subst (Keeps f (hs j)) (sym e) (Keeps-refl f (hs j))
    ];
    stems = λ j. elim (entered_all i hs j) [
      | inl (l, s) ↦ elim s.origin [ inl e ↦ inl e | inr e ↦ inr (i, lt, b, e) ]
      | inr e ↦ inl e
    ];
    served = λ x j l. let s = inside i hs j l in (s.live, s.reached);
  }

  Turn-off : (i : ℕ) (hs : ℕ → Hmm) → (Exits (hs i) → ⊥) → Turn i hs hs
  Turn-off i hs idle = record {
    keeps = λ j. Keeps-refl f (hs j);
    stems = λ j. inl refl;
    served = λ x. absurd (idle x);
  }

  one-Turn : (i : ℕ) (hs : ℕ → Hmm) → i < p.n_phones → Turn i hs (transition_one p f i hs)
  unfolding transition_one
  one-Turn i hs lt = elim (Bool-cases (better (offer (hs i)) (p.best_score +ℤ p.pbeam))) [
    | inl b ↦ elim (Bool-cases (same (hs i).frame (f +ℤ pos 1))) [
      | inl q ↦ rw (q, b) (Turn-on i hs lt b)
      | inr q ↦ rw q (Turn-off i hs (λ x. absurd (ground (arith, x.0))))
    ]
    | inr b ↦
        let off = Turn-off i hs (λ x. absurd (ground (arith, x.1))) in
        elim (Bool-cases (same (hs i).frame (f +ℤ pos 1))) [
          | inl q ↦ rw (q, b) off
          | inr q ↦ rw q off
        ]
  ]

  Stems-trans :
      (hs hs' hs'' : ℕ → Hmm) (j : ℕ)
      → AllKeep hs hs'
      → Stems hs hs' j
      → Stems hs' hs'' j
      → Stems hs hs'' j
  Stems-trans hs hs' hs'' j k (inl e) (inl e') = inl (e' ∙ e)
  Stems-trans hs hs' hs'' j k (inr (i, lt, b, en)) (inl e') =
      inr (i, lt, b, subst (Entered f (offer (hs i)) (hs i).out_history) (sym e') en)
  Stems-trans hs hs' hs'' j k o (inr (i, lt, b, en)) =
      let same_out = (k i).out in
      let same_history = (k i).history in
      inr (
        i,
        lt,
        subst (λ x. better (x +ℤ p.pip) (p.best_score +ℤ p.pbeam) ≡ true) same_out b,
        subst (λ x. Entered f (x +ℤ p.pip) (hs i).out_history (hs'' j)) same_out
            (subst (λ x. Entered f (offer (hs' i)) x (hs'' j)) same_history en),
      )

  -- All turns from phone k on.
  record Turns (k : ℕ) (hs hs' : ℕ → Hmm) : Type 0 where
    keeps : AllKeep hs hs'
    stems : (j : ℕ) → Stems hs hs' j
    served :
        (i : ℕ)
        → k ≤ i
        → i < p.n_phones
        → Exits (hs i)
        → (j : ℕ) → j < p.n_phones
        → IsLive f (hs' j) × (offer (hs i) ≤ℤ (hs' j).score 0)

  Exits-keep : (h h' : Hmm) → Keeps f h h' → Exits h → Exits h'
  Exits-keep h h' k x = (
    k.next x.0,
    subst (λ y. better (y +ℤ p.pip) (p.best_score +ℤ p.pbeam) ≡ true) (sym k.out) x.1,
  )

  served_later :
      (s : ℤ) (h h' : Hmm)
      → Keeps f h h'
      → IsLive f h × (s ≤ℤ h.score 0)
      → IsLive f h' × (s ≤ℤ h'.score 0)
  served_later s h h' k (l, le) = (k.live l, let up = k.score l in omega arith)

  from-Turns :
      (m k : ℕ) (hs : ℕ → Hmm) → k + m ≡ p.n_phones → Turns k hs (transition_from p f m k hs)
  unfolding transition_from
  from-Turns zero k hs e = record {
    keeps = λ j. Keeps-refl f (hs j);
    stems = λ j. inl refl;
    served = λ i le lt. absurd (omega arith);
  }
  from-Turns (suc m) k hs e =
      let hs' = transition_one p f k hs in
      let hs'' = transition_from p f m (k + 1) hs' in
      let t = one-Turn k hs (omega arith) in
      let ts = from-Turns m (k + 1) hs' (omega arith) in
      record {
        keeps = λ j. Keeps-trans f (hs j) (hs' j) (hs'' j) (t.keeps j) (ts.keeps j);
        stems = λ j. Stems-trans hs hs' hs'' j t.keeps (t.stems j) (ts.stems j);
        served = λ i le lt x j l. elim (ℕ_discrete i k) [
          | yes q ↦ served_later (offer (hs i)) (hs' j) (hs'' j) (ts.keeps j) (
              subst (λ y. IsLive f (hs' j) × (offer (hs y) ≤ℤ (hs' j).score 0)) (sym q)
                (t.served (subst (λ y. Exits (hs y)) q x) j l))
          | no ne ↦
              let r = ts.served i (omega arith) lt (Exits-keep (hs i) (hs' i) (t.keeps i) x) j l in
              let same_out = (t.keeps i).out in
              subst (λ y. IsLive f (hs'' j) × (y +ℤ p.pip ≤ℤ (hs'' j).score 0)) same_out r
        ];
      }

  -- After the transitions of a frame: every phone is live and has a score of at least what any phone
  -- offered that was active in the next frame and within the exit beam (its exit score with the
  -- insertion penalty). A phone that changed was entered from a phone within the beam, with its offer
  -- and history, and is active in the next frame.
  pub phone_transition_lem :
      let hs' = (phone_transition p f).hmms in
      ((i j : ℕ)
        → i < p.n_phones
        → j < p.n_phones
        → Exits (p.hmms i)
        → IsLive f (hs' j) × (offer (p.hmms i) ≤ℤ (hs' j).score 0))
      × ((j : ℕ) → Stems p.hmms hs' j)
  unfolding phone_transition
  phone_transition_lem =
      let ts = from-Turns p.n_phones 0 p.hmms (omega arith) in
      (λ i j lt l x. ts.served i (omega arith) lt x j l, ts.stems)
