-- ===== src/Fsg/Model/TransAdd.antt =====
-- The whole of `fsg_model_trans_add`.
use pocketsphinx.Base.{
  ℕ, ◌<◌, ◌≡◌, refl, sym, subst, inl, inr, true, false, none, some, ℤ, ltb_ℤ, if◌then◌else◌,
  Bool-cases, Option-cases,
}
use pocketsphinx.Fsg.Model.Words.{links_of, word_prob, IsWordModel, is_target, raised}
use pocketsphinx.Fsg.Model.AddWord.{WordAdded, keeps_word, raises_word, raise-IsWordModel}
use pocketsphinx.Fsg.Model.{FsgModel, link_at, set_prob, find_word, fsg_model_trans_add}
use pocketsphinx.Fsg.Model.NewWord.{with_word, with_word-IsWordModel, adds_word}

module _ (m : FsgModel) (from to : ℕ) (logp wid : ℤ) where
  add_new :
      find_word m (links_of m from to) wid ≡ none
      → fsg_model_trans_add m from to logp wid ≡ with_word m from to logp wid
  unfolding fsg_model_trans_add
  add_new e = rw (fsg_model_trans_add, e) refl

  add_raise :
      (p : ℕ)
      → find_word m (links_of m from to) wid ≡ some p
      → ltb_ℤ (link_at m p).logs2prob logp ≡ true
      → fsg_model_trans_add m from to logp wid ≡ set_prob m p logp
  unfolding fsg_model_trans_add
  add_raise p e t = rw (fsg_model_trans_add, e, t) refl

  add_keep :
      (p : ℕ)
      → find_word m (links_of m from to) wid ≡ some p
      → ltb_ℤ (link_at m p).logs2prob logp ≡ false
      → fsg_model_trans_add m from to logp wid ≡ m
  unfolding fsg_model_trans_add
  add_keep p e t = rw (fsg_model_trans_add, e, t) refl

-- Adding a word transition gives the link between the two states with the word the probability, or
-- leaves the higher one that it has; no other link's probability changes, and the lists stay well
-- formed.
pub trans_add_lem :
    (m : FsgModel) (from to : ℕ) (logp wid : ℤ)
    → IsWordModel m
    → to < m.n_state
    → let m' = fsg_model_trans_add m from to logp wid in
      IsWordModel m'
      × ((i j : ℕ) (w : ℤ)
          → j < m.n_state
          → word_prob m' i j w ≡ (
              if is_target from to wid i j w
              then some (raised (word_prob m from to wid) logp)
              else word_prob m i j w))
trans_add_lem m from to logp wid v lt =
    let result = λ (x : FsgModel). IsWordModel x × WordAdded m x from to logp wid in
    elim (Option-cases (find_word m (links_of m from to) wid)) [
      | inl e ↦
          subst result (sym (add_new m from to logp wid e))
            (with_word-IsWordModel m from to logp wid v lt, adds_word m from to logp wid v lt e)
      | inr (p, e) ↦ elim (Bool-cases (ltb_ℤ (link_at m p).logs2prob logp)) [
        | inl t ↦ subst result (sym (add_raise m from to logp wid p e t)) (
          raise-IsWordModel m from to logp wid v lt p e,
          raises_word m from to logp wid v lt p e t,
        )
        | inr t ↦
            subst result (sym (add_keep m from to logp wid p e t))
              (v, keeps_word m from to logp wid v lt p e t)
      ]
    ]
