-- ===== src/Fsg/Model/AddWord.antt =====
-- Adding a word transition.
use pocketsphinx.Base.{
  ℕ, ◌<◌, ◌≡◌, refl, sym, ap, ◌∙◌, inl, inr, true, false, none, some, ℤ, ltb_ℤ, ◌==◌, if◌then◌else◌,
  arith, Bool-cases, Option-cases, length-set,
}
use pocketsphinx.Fsg.History.{Link}
use pocketsphinx.Fsg.Model.Nulls.{prob_at}
use pocketsphinx.Fsg.Model.Raise.{link_at-set_prob}
use pocketsphinx.Fsg.Model.Words.{
  links_of, word_prob, IsWordLink, IsWordModel, find_word-Mem, find_word_congr, is_target,
  same_word, raised,
}
use pocketsphinx.Fsg.Model.{FsgModel, link_at, set_prob, find_word, fsg_model_trans}

pub same_word_eq : (a b : ℤ) → same_word a b ≡ true → a ≡ b
same_word_eq a b e = ground arith

same_word_refl : (a : ℤ) → same_word a a ≡ true
same_word_refl a = ground arith

pub target_parts :
    (from to : ℕ) (wid : ℤ) (i j : ℕ) (w : ℤ)
    → is_target from to wid i j w ≡ true
    → (i ≡ from) × (j ≡ to) × (w ≡ wid)
target_parts from to wid i j w e =
    let b : (i == from) ≡ true = ground arith in
    let c : (to == j) ≡ true = ground arith in
    let d : same_word wid w ≡ true = ground arith in
    (ground arith, ground arith, sym (same_word_eq wid w d))

pub target_self : (from to : ℕ) (wid : ℤ) → is_target from to wid from to wid ≡ true
target_self from to wid =
    let b : (from == from) ≡ true = ground arith in
    let c : (to == to) ≡ true = ground arith in rw (b, c) (same_word_refl wid)

-- The map after an addition.
abbrev pub WordAdded : FsgModel → FsgModel → ℕ → ℕ → ℤ → ℤ → Type 0
WordAdded m m' from to logp wid =
    (i j : ℕ) (w : ℤ)
    → j < m.n_state
    → word_prob m' i j w ≡ (
        if is_target from to wid i j w
        then some (raised (word_prob m from to wid) logp)
        else word_prob m i j w)

module _ (m : FsgModel) (from to : ℕ) (logp wid : ℤ) (v : IsWordModel m) (lt : to < m.n_state) where
  module _ (p : ℕ) (found : find_word m (links_of m from to) wid ≡ some p) where
    is_link : IsWordLink m from to p × ((link_at m p).wid ≡ wid)
    is_link =
        let (mem, same) = find_word-Mem m (links_of m from to) wid p found in
        (v.links from to p lt mem, same)

    -- A link found for a target is this one, and this one is found for the target only.
    target-found :
        (i j : ℕ) (w : ℤ) (q : ℕ)
        → j < m.n_state
        → find_word m (links_of m i j) w ≡ some q
        → is_target from to wid i j w ≡ (q == p)
    target-found i j w q l e =
        let (mem, same) = find_word-Mem m (links_of m i j) w q e in
        let lq = v.links i j q l mem in
        let (lp, samep) = is_link in
        elim (Bool-cases (q == p)) [
          | inl t ↦
              let qp : q ≡ p = ground arith in
              let qi : i ≡ from = sym lq.from ∙ ap (λ x. (link_at m x).from_state) qp ∙ lp.from in
              let qj : j ≡ to = sym lq.to ∙ ap (λ x. (link_at m x).to_state) qp ∙ lp.to in
              let qw : w ≡ wid = sym same ∙ ap (λ x. (link_at m x).wid) qp ∙ samep in
              rw (qi, qj, qw) (target_self from to wid) ∙ sym t
          | inr t ↦ elim (Bool-cases (is_target from to wid i j w)) [
            | inl u ↦
                let (qi, qj, qw) = target_parts from to wid i j w u in
                let e' : find_word m (links_of m from to) wid ≡ some q = rw (qi, qj, qw) at e in
                let e'' : some q ≡ some p = sym e' ∙ found in
                let qp : q ≡ p = cc in absurd (ground arith)
            | inr u ↦ u ∙ sym t
          ]
        ]

    target-none :
        (i j : ℕ) (w : ℤ)
        → find_word m (links_of m i j) w ≡ none
        → is_target from to wid i j w ≡ false
    target-none i j w e = elim (Bool-cases (is_target from to wid i j w)) [
      | inl u ↦
          let (qi, qj, qw) = target_parts from to wid i j w u in
          let e' : find_word m (links_of m from to) wid ≡ none = rw (qi, qj, qw) at e in
          let e'' : none ≡ some p = sym e' ∙ found in cc
      | inr u ↦ u
    ]

    pub was : word_prob m from to wid ≡ some (link_at m p).logs2prob
    was = ap (prob_at m) found

    pub keeps_word : ltb_ℤ (link_at m p).logs2prob logp ≡ false → WordAdded m m from to logp wid
    keeps_word low i j w l = elim (Option-cases (find_word m (links_of m i j) w)) [
      | inl e ↦ rw (target-none i j w e) refl
      | inr (q, e) ↦
          let at : word_prob m i j w ≡ some (link_at m q).logs2prob = ap (prob_at m) e in
          elim (Bool-cases (q == p)) [
            | inl t ↦
                let qp : q ≡ p = ground arith in
                rw (target-found i j w q l e, t, was, low, at)
                  (ap (λ x. some (link_at m x).logs2prob) qp)
            | inr t ↦ rw (target-found i j w q l e, t) refl
          ]
    ]

    link_at-raise :
        (q : ℕ)
        → link_at (set_prob m p logp) q
          ≡ (if q == p then record (link_at m p) { logs2prob = logp } else link_at m q)
    link_at-raise q = link_at-set_prob m p logp q is_link.0.stored

    raise_parts :
        (q : ℕ)
        → let x = link_at (set_prob m p logp) q in
          (x.from_state ≡ (link_at m q).from_state)
          × (x.to_state ≡ (link_at m q).to_state)
          × (x.wid ≡ (link_at m q).wid)
    raise_parts q = elim (Bool-cases (q == p)) [
      | inl t ↦
          let e : q ≡ p = ground arith in
          let x : link_at (set_prob m p logp) q ≡ record (link_at m p) { logs2prob = logp } =
            link_at-raise q ∙ rw t refl in
          rw (x, e) (refl, refl, refl)
      | inr t ↦
          let x : link_at (set_prob m p logp) q ≡ link_at m q = link_at-raise q ∙ rw t refl in
          rw x (refl, refl, refl)
    ]

    links_of-raise : (i j : ℕ) → links_of (set_prob m p logp) i j ≡ links_of m i j
    unfolding fsg_model_trans
    links_of-raise i j = refl

    find_word-raise :
        (i j : ℕ) (w : ℤ)
        → find_word (set_prob m p logp) (links_of (set_prob m p logp) i j) w
          ≡ find_word m (links_of m i j) w
    find_word-raise i j w =
        ap (λ gl. find_word (set_prob m p logp) gl w) (links_of-raise i j)
        ∙ find_word_congr m (set_prob m p logp) (links_of m i j) w (λ q mem. (raise_parts q).2)

    pub raises_word :
        ltb_ℤ (link_at m p).logs2prob logp ≡ true → WordAdded m (set_prob m p logp) from to logp wid
    raises_word low i j w l = elim (Option-cases (find_word m (links_of m i j) w)) [
      | inl e ↦
          rw (target-none i j w e)
            (ap (prob_at (set_prob m p logp)) (find_word-raise i j w ∙ e) ∙ sym (ap (prob_at m) e))
      | inr (q, e) ↦
          let at : word_prob (set_prob m p logp) i j w
              ≡ some (link_at (set_prob m p logp) q).logs2prob =
            ap (prob_at (set_prob m p logp)) (find_word-raise i j w ∙ e) in
          let now = ap (λ (x : Link). some x.logs2prob) (link_at-raise q) in
          elim (Bool-cases (q == p)) [
            | inl t ↦ rw (target-found i j w q l e, t, was, low) (at ∙ now ∙ rw t refl)
            | inr t ↦ rw (target-found i j w q l e, t) (at ∙ now ∙ rw t (sym (ap (prob_at m) e)))
          ]
    ]

    pub raise-IsWordModel : IsWordModel (set_prob m p logp)
    unfolding fsg_model_trans
    raise-IsWordModel = record {
      small = v.small;
      tables = v.tables;
      stored = v.stored;
      links = λ i j q l mem.
          let k = v.links i j q l mem in
          let (f, t, x) = raise_parts q in
          let st = k.stored in
          record {
            stored =
                omega (arith, length-set m.links p (record (link_at m p) { logs2prob = logp }));
            from = f ∙ k.from;
            to = t ∙ k.to;
          };
    }
