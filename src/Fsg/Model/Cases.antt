-- ===== src/Fsg/Model/Cases.antt =====
-- What `fsg_model_null_trans_add` does: nothing, raise a probability, or make a link.
use pocketsphinx.Base.{
  ℕ, ◌<◌, ◌≡◌, ◌≢◌, refl, sym, ap, ◌∙◌, ◌⊎◌, inl, inr, true, false, ◌&&◌, none, some, ℤ, pos,
  negsuc, ◌≤ℤ◌, ltb_ℤ, ◌==◌, if◌then◌else◌, length, arith, Bool-cases, Option-cases,
}
use pocketsphinx.Fsg.Model.Nulls.{
  IsNullLink, IsModel, prob, prob_at, with_link, null_trans-with_link,
}
use pocketsphinx.Fsg.Model.Add.{with_link-IsModel, prob-with_link, link_stays, link_new}
use pocketsphinx.Fsg.Model.Raise.{raise_keeps, raise-IsModel, prob-raise, null_trans-set_prob}
use pocketsphinx.Fsg.Model.{
  FsgModel, link_at, set_prob, fsg_model_null_trans, fsg_model_tag_trans_add,
  fsg_model_null_trans_add,
}

-- The probability between two states is `logp` afterwards, the others are unchanged, and links stay.
pub record Writes (m m' : FsgModel) (from to : ℕ) (logp : ℤ) : Type 0 where
  pub model : IsModel m'
  pub states : m'.n_state ≡ m.n_state
  pub apart : from ≢ to
  pub probs :
      (i j : ℕ)
      → j < m.n_state
      → prob m' i j ≡ (if (i == from) && (to == j) then some logp else prob m i j)
  pub stays : (i j q : ℕ) → IsNullLink m i j q → IsNullLink m' i j q

abbrev pub Kept : FsgModel → ℕ → ℕ → ℤ → Type 0
Kept m from to logp = (from ≡ to) ⊎ ((b : ℤ) × (prob m from to ≡ some b) × (logp ≤ℤ b))

abbrev pub Added : FsgModel → ℕ → ℕ → ℤ → ℤ × FsgModel → Type 0
Added m from to logp (k, m') =
    ((k ≡ negsuc 0) × (m' ≡ m) × Kept m from to logp)
    ⊎ ((k ≡ pos 0)
        × Writes m m' from to logp
        × ((b : ℤ) × (prob m from to ≡ some b) × (ltb_ℤ b logp ≡ true))
        × ((i j q : ℕ) → IsNullLink m' i j q → IsNullLink m i j q))
    ⊎ ((k ≡ pos 1)
        × Writes m m' from to logp
        × (prob m from to ≡ none)
        × ((p : ℕ) × IsNullLink m' from to p
            × ((i j q : ℕ) → IsNullLink m' i j q → IsNullLink m i j q ⊎ (q ≡ p))))

module _ (m : FsgModel) (from to : ℕ) (logp : ℤ) (v : IsModel m) (lf : from < m.n_state)
    (lt : to < m.n_state) (neg : logp ≤ℤ pos 0) where
  raises : (p : ℕ) → IsNullLink m from to p → Writes m (set_prob m p logp) from to logp
  raises p lk = record {
    model = raise-IsModel m p logp v neg from to lk;
    states = refl;
    apart = lk.apart;
    probs = prob-raise m p logp v neg from to lk;
    stays = raise_keeps m p logp v neg from to lk;
  }

  links :
      from ≢ to
      → fsg_model_null_trans m from to ≡ none
      → Writes m (with_link m from to logp) from to logp
  links ne miss = record {
    model = with_link-IsModel m from to logp v lf lt ne neg miss;
    states = refl;
    apart = ne;
    probs = prob-with_link m from to logp v lf lt ne neg miss;
    stays = link_stays m from to logp v lf lt ne neg miss;
  }

  -- Every link of the model with a new link is an old one or that one.
  sorts :
      fsg_model_null_trans m from to ≡ none
      → (i j q : ℕ) → IsNullLink (with_link m from to logp) i j q
      → IsNullLink m i j q ⊎ (q ≡ length m.links)
  sorts miss i j q l =
      let e = sym (null_trans-with_link m from to logp v lt miss i j l.to_lt) ∙ l.at in
      elim (Bool-cases ((i == from) && (to == j))) [
        | inl t ↦ let e' : some (length m.links) ≡ some q = rw t at e in inr cc
        | inr t ↦
            let e' : fsg_model_null_trans m i j ≡ some q = rw t at e in
            inl (v.found i j q l.to_lt e')
      ]

  -- Adding a null transition between two states of the automaton, of a probability at most 1, does
  -- nothing and returns -1 if the states are one or their link is as probable; it raises the
  -- probability of a link that is less probable and returns 0, or makes a link that is missing and
  -- returns 1. No other probability changes, and every link stays where it was.
  pub null_trans_add_lem :
      (r : ℤ × FsgModel) × (fsg_model_null_trans_add m from to logp ≡ some r)
      × Added m from to logp r
  unfolding fsg_model_null_trans_add fsg_model_tag_trans_add
  null_trans_add_lem =
      let possible : ltb_ℤ (pos 0) logp ≡ false = ground arith in
      elim (Bool-cases (from == to)) [
        | inl t ↦ ((negsuc 0, m), rw (possible, t) refl, inl (refl, refl, inl (ground arith)))
        | inr t ↦ elim (Option-cases (fsg_model_null_trans m from to)) [
          | inr (p, e) ↦
              let lk = v.found from to p lt e in
              let at : prob m from to ≡ some (link_at m p).logs2prob = ap (prob_at m) e in
              elim (Bool-cases (ltb_ℤ (link_at m p).logs2prob logp)) [
                | inl u ↦ (
                  (pos 0, set_prob m p logp),
                  rw (possible, t, e, u) refl,
                  inr (
                      inl (
                        refl,
                        raises p lk,
                        (_, at, u),
                        λ i j q l.
                            v.found i j q l.to_lt (sym (null_trans-set_prob m p logp i j) ∙ l.at),
                      )),
                )
                | inr u ↦ (
                  (negsuc 0, m),
                  rw (possible, t, e, u) refl,
                  inl (refl, refl, inr (_, at, ground arith)),
                )
              ]
          | inl e ↦
              let ne : from ≢ to = ground arith in
              (
                (pos 1, with_link m from to logp),
                rw (possible, t, e) refl,
                inr (
                    inr (
                      refl,
                      links ne e,
                      ap (prob_at m) e,
                      (length m.links, link_new m from to logp v lf lt ne neg e, sorts e),
                    )),
              )
        ]
      ]
