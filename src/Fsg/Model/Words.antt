-- ===== src/Fsg/Model/Words.antt =====
-- The word transitions as a map from two states and a word to a probability, and adding one.
use pocketsphinx.Base.{
  ℕ, ◌≤◌, ◌<◌, ◌≡◌, refl, sym, ap, inl, inr, Bool, true, false, ◌&&◌, Option, none, some, List, [],
  ◌∷◌, ℤ, ltb_ℤ, ◌==◌, if◌then◌else◌, length, arith, Bool-cases,
}
use mathlib.Core.List.{Memᴰ}
use pocketsphinx.Util.HashTable.{HashTable, hash_table_lookup_bkey, lookup, bucket}
use pocketsphinx.Util.HashTable.Slots.{IsTable, get}
use pocketsphinx.Util.HashTable.Start.{get-new}
use pocketsphinx.Fsg.Model.Nulls.{prob_at}
use pocketsphinx.Fsg.Model.{
  FsgModel, bytes, link_at, list_at, table_or_new, find_word, fsg_model_trans,
}

abbrev pub links_of : FsgModel → ℕ → ℕ → List ℕ
links_of m i j = list_at m (fsg_model_trans m i j)

-- The log probability of the link between two states that has the word.
abbrev pub word_prob : FsgModel → ℕ → ℕ → ℤ → Option ℤ
word_prob m i j w = prob_at m (find_word m (links_of m i j) w)

pub record IsWordLink (m : FsgModel) (i j p : ℕ) : Type 0 where
  pub stored : p < length m.links
  pub from : (link_at m p).from_state ≡ i
  pub to : (link_at m p).to_state ≡ j

-- State numbers are int32, the tables are well formed, and their lists hold links of their states.
pub record IsWordModel (m : FsgModel) : Type 0 where
  pub small : m.n_state ≤ 2147483648
  pub tables : (i : ℕ) → let h = table_or_new (m.trans i).trans in IsTable h × (h.nocase ≡ false)
  pub stored : (i j : ℕ) → j < m.n_state → fsg_model_trans m i j ≤ length m.lists
  pub links : (i j p : ℕ) → j < m.n_state → Memᴰ p (links_of m i j) → IsWordLink m i j p

abbrev pub or_null : Option ℕ → ℕ
or_null none = 0
or_null (some g) = g

get-table :
    (o : Option HashTable) (key : List ℤ)
    → (elim o as (λ x. ℕ) [
      | none ↦ 0
      | some h ↦ elim (hash_table_lookup_bkey h key) [ none ↦ 0 | some gl ↦ gl ]
    ])
      ≡ or_null (get true (table_or_new o) key)
unfolding hash_table_lookup_bkey lookup bucket
get-table none key = sym (ap or_null (get-new true 5 false key))
get-table (some h) key = ground arith

pub trans-get :
    (m : FsgModel) (i j : ℕ)
    → fsg_model_trans m i j ≡ or_null (get true (table_or_new (m.trans i).trans) (bytes j))
unfolding fsg_model_trans
trans-get m i j = get-table (m.trans i).trans (bytes j)

eq_of_not_less : (a b : ℤ) → ltb_ℤ a b ≡ false → ltb_ℤ b a ≡ false → a ≡ b
eq_of_not_less a b p q = ground arith

-- What is found is in the list, and has the word.
pub find_word-Mem :
    (m : FsgModel) (gl : List ℕ) (w : ℤ) (p : ℕ)
    → find_word m gl w ≡ some p
    → Memᴰ p gl × ((link_at m p).wid ≡ w)
unfolding find_word
find_word-Mem m [] w p e = cc
find_word-Mem m (q ∷ gl) w p e = elim (Bool-cases (ltb_ℤ (link_at m q).wid w)) [
  | inl t ↦
      let e' : find_word m gl w ≡ some p = rw t at e in
      let (mem, same) = find_word-Mem m gl w p e' in (Memᴰ.tail mem, same)
  | inr t ↦ elim (Bool-cases (ltb_ℤ w (link_at m q).wid)) [
    | inl u ↦
        let e' : find_word m gl w ≡ some p = rw (t, u) at e in
        let (mem, same) = find_word-Mem m gl w p e' in (Memᴰ.tail mem, same)
    | inr u ↦
        let e' : some q ≡ some p = rw (t, u) at e in
        let q' : p ≡ q = cc in (Memᴰ.head q', rw q' (eq_of_not_less (link_at m q).wid w t u))
  ]
]

-- Finding reads the words of the links in the list, and no more.
pub find_word_congr :
    (m m' : FsgModel) (gl : List ℕ) (w : ℤ)
    → ((p : ℕ) → Memᴰ p gl → (link_at m' p).wid ≡ (link_at m p).wid)
    → find_word m' gl w ≡ find_word m gl w
unfolding find_word
find_word_congr m m' [] w h = refl
find_word_congr m m' (q ∷ gl) w h =
    rw (h q (Memᴰ.head refl), find_word_congr m m' gl w (λ p mem. h p (Memᴰ.tail mem))) refl

abbrev pub same_word : ℤ → ℤ → Bool
same_word a b = if ltb_ℤ a b then false else if ltb_ℤ b a then false else true

abbrev pub is_target : ℕ → ℕ → ℤ → ℕ → ℕ → ℤ → Bool
is_target from to wid i j w = (i == from) && (to == j) && same_word wid w

-- The better of a probability, if there is one, and another.
abbrev pub raised : Option ℤ → ℤ → ℤ
raised none logp = logp
raised (some b) logp = if ltb_ℤ b logp then logp else b
