-- ===== src/Fsg/Model/Raise.antt =====
-- Raising the probability of a null transition, and the cases of adding one.
use pocketsphinx.Base.{
  ℕ, ◌<◌, ◌≡◌, refl, sym, ap, ◌∙◌, inl, inr, true, false, ◌&&◌, none, some, ℤ, pos, ◌≤ℤ◌, ◌==◌,
  if◌then◌else◌, length, arith, Bool-cases, Option-cases, get_or-set_self, get_or-set_ne,
  length-set,
}
use pocketsphinx.Fsg.History.{Link}
use pocketsphinx.Fsg.Model.Nulls.{IsNullLink, IsModel, prob, prob_at}
use pocketsphinx.Fsg.Model.{FsgModel, link_at, no_link, set_prob, fsg_model_null_trans}

module _ (m : FsgModel) (p : ℕ) (logp : ℤ) where
  pub link_at-set_prob :
      (q : ℕ)
      → p < length m.links
      → link_at (set_prob m p logp) q
        ≡ (if q == p then record (link_at m p) { logs2prob = logp } else link_at m q)
  link_at-set_prob q l = elim (Bool-cases (q == p)) [
    | inl t ↦
        let e : q ≡ p = ground arith in
        rw (t, e) (get_or-set_self m.links p (record (link_at m p) { logs2prob = logp }) no_link l)
    | inr t ↦ rw t (
        get_or-set_ne m.links p q (record (link_at m p) { logs2prob = logp }) no_link
          (ground arith))
  ]

  pub null_trans-set_prob :
      (i j : ℕ) → fsg_model_null_trans (set_prob m p logp) i j ≡ fsg_model_null_trans m i j
  unfolding fsg_model_null_trans
  null_trans-set_prob i j = refl

  raised_parts :
      (q : ℕ)
      → p < length m.links
      → logp ≤ℤ pos 0
      → (link_at m q).logs2prob ≤ℤ pos 0
      → let x = link_at (set_prob m p logp) q in
        (x.from_state ≡ (link_at m q).from_state)
        × (x.to_state ≡ (link_at m q).to_state)
        × (x.logs2prob ≤ℤ pos 0)
  raised_parts q l neg old = elim (Bool-cases (q == p)) [
    | inl t ↦
        let e : q ≡ p = ground arith in
        let x : link_at (set_prob m p logp) q ≡ record (link_at m p) { logs2prob = logp } =
          link_at-set_prob q l ∙ rw t refl in
        rw (x, e) (refl, refl, neg)
    | inr t ↦
        let x : link_at (set_prob m p logp) q ≡ link_at m q = link_at-set_prob q l ∙ rw t refl in
        rw x (refl, refl, old)
  ]

  module _ (v : IsModel m) (neg : logp ≤ℤ pos 0) (from to : ℕ) (lk : IsNullLink m from to p) where
    pub raise_keeps : (i j q : ℕ) → IsNullLink m i j q → IsNullLink (set_prob m p logp) i j q
    raise_keeps i j q l =
        let (f, t, n) = raised_parts q lk.stored neg l.certain in
        record {
          at = null_trans-set_prob i j ∙ l.at;
          stored =
              let s = l.stored in
              omega (arith, length-set m.links p (record (link_at m p) { logs2prob = logp }));
          from = f ∙ l.from;
          to = t ∙ l.to;
          certain = n;
          apart = l.apart;
          from_lt = l.from_lt;
          to_lt = l.to_lt;
        }

    pub raise-IsModel : IsModel (set_prob m p logp)
    raise-IsModel = record {
      small = v.small;
      tables = v.tables;
      found = λ i j q l e. raise_keeps i j q (v.found i j q l (sym (null_trans-set_prob i j) ∙ e));
      listed = λ i e mem. let (j, l) = v.listed i e mem in (j, raise_keeps i j e.val l);
    }

    pub prob-raise :
        (i j : ℕ)
        → j < m.n_state
        → prob (set_prob m p logp) i j
          ≡ (if (i == from) && (to == j) then some logp else prob m i j)
    prob-raise i j l = elim (Option-cases (fsg_model_null_trans m i j)) [
      | inl n ↦ elim (Bool-cases ((i == from) && (to == j))) [
        | inl t ↦
            let qi : i ≡ from = ground arith in
            let qj : j ≡ to = ground arith in
            let e : fsg_model_null_trans m from to ≡ none = rw (qi, qj) at n in
            let e' : none ≡ some p = sym e ∙ lk.at in cc
        | inr t ↦ rw (t, n) (ap (prob_at (set_prob m p logp)) (null_trans-set_prob i j ∙ n))
      ]
      | inr (q, e) ↦
          let k = v.found i j q l e in
          ap (prob_at (set_prob m p logp)) (null_trans-set_prob i j ∙ e)
          ∙ ap (λ (x : Link). some x.logs2prob) (link_at-set_prob q lk.stored)
          ∙ (elim (Bool-cases (q == p)) [
            | inl t ↦
                let qp : q ≡ p = ground arith in
                let qi : i ≡ from = sym k.from ∙ ap (λ x. (link_at m x).from_state) qp ∙ lk.from in
                let qj : j ≡ to = sym k.to ∙ ap (λ x. (link_at m x).to_state) qp ∙ lk.to in
                let bi : (i == from) ≡ true = ground arith in
                let bj : (to == j) ≡ true = ground arith in rw (t, bi, bj) refl
            | inr t ↦
                let b : ((i == from) && (to == j)) ≡ false =
                  elim (Bool-cases ((i == from) && (to == j))) [
                    | inl u ↦
                        let qi : i ≡ from = ground arith in
                        let qj : j ≡ to = ground arith in
                        let e' : fsg_model_null_trans m from to ≡ some q = rw (qi, qj) at e in
                        let e'' : some q ≡ some p = sym e' ∙ lk.at in
                        let qp : q ≡ p = cc in absurd (ground arith)
                    | inr u ↦ u
                  ] in
                rw (t, b, e) refl
          ])
    ]
