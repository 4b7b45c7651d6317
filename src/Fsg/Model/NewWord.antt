-- ===== src/Fsg/Model/NewWord.antt =====
-- A new word transition.
use pocketsphinx.Base.{
  update, ℕ, zero, suc, ◌≤◌, ◌<◌, ◌≡◌, refl, sym, subst, ap, ◌∙◌, inl, inr, Bool, true, ◌&&◌, none,
  some, List, [], ◌∷◌, ◌++◌, ℤ, ltb_ℤ, ◌==◌, if◌then◌else◌, length, arith, Bool-cases, Option-cases,
  get_or-append, get_or-append_end, length-append,
}
use mathlib.Core.List.{Memᴰ}
use mathlib.Core.List.Memᴰ
use pocketsphinx.Util.HashTable.{
  HashTable, hash_table_lookup_bkey, hash_table_replace_bkey, enter, lookup, bucket,
}
use pocketsphinx.Util.HashTable.Slots.{get}
use pocketsphinx.Util.HashTable.Binary.{hash_table_replace_bkey_lem}
use pocketsphinx.Fsg.History.{Link}
use pocketsphinx.Fsg.Model.Bytes.{same-bytes}
use pocketsphinx.Fsg.Model.Nulls.{prob_at}
use pocketsphinx.Fsg.Model.Words.{
  links_of, word_prob, IsWordLink, IsWordModel, trans-get, find_word-Mem, find_word_congr,
  same_word, or_null,
}
use pocketsphinx.Fsg.Model.AddWord.{WordAdded}
use pocketsphinx.Fsg.Model.{
  FsgModel, bytes, link_at, list_at, no_link, table_or_new, find_word, fsg_model_trans,
}

nocase-replace :
    (h : HashTable) (k : List ℤ) (x : ℕ) → (hash_table_replace_bkey h k x).1.nocase ≡ h.nocase
unfolding hash_table_replace_bkey enter
nocase-replace h k x = ground arith

abbrev pub word_link : ℕ → ℕ → ℤ → ℤ → Link
word_link from to logp wid = record {
  from_state = from;
  to_state = to;
  logs2prob = logp;
  wid = wid;
}

-- The model with a new link in front of its list.
abbrev pub with_word : FsgModel → ℕ → ℕ → ℤ → ℤ → FsgModel
with_word m from to logp wid = record m {
  trans = update m.trans from (record (m.trans from) {
    trans =
        some
          (hash_table_replace_bkey (table_or_new (m.trans from).trans) (bytes to)
            (suc (length m.lists))).1;
  });
  links = m.links ++ (word_link from to logp wid ∷ []);
  lists = m.lists ++ ((length m.links ∷ links_of m from to) ∷ []);
}

abbrev is_pair : ℕ → ℕ → ℕ → ℕ → Bool
is_pair from to i j = (i == from) && (to == j)

module _ (m : FsgModel) (from to : ℕ) (logp wid : ℤ) (v : IsWordModel m) (lt : to < m.n_state) where
  abbrev pub m' : FsgModel
  m' = with_word m from to logp wid

  link_old : (p : ℕ) → p < length m.links → link_at m' p ≡ link_at m p
  link_old p l = get_or-append m.links (word_link from to logp wid ∷ []) p no_link l

  link_new : link_at m' (length m.links) ≡ word_link from to logp wid
  link_new = get_or-append_end m.links (word_link from to logp wid) no_link

  list_old : (g : ℕ) → g ≤ length m.lists → list_at m' g ≡ list_at m g
  list_old zero l = refl
  list_old (suc g) l =
      get_or-append m.lists ((length m.links ∷ links_of m from to) ∷ []) g [] (omega arith)

  replaces :
      (j : ℕ)
      → j < m.n_state
      → or_null (
          get true
            (hash_table_replace_bkey
              (table_or_new (m.trans from).trans)
              (bytes to)
              (suc (length m.lists))).1
            (bytes j))
        ≡ (if to == j then suc (length m.lists) else fsg_model_trans m from j)
  unfolding hash_table_lookup_bkey lookup bucket
  replaces j l =
      let h = table_or_new (m.trans from).trans in
      let (t, ok) = v.tables from in
      let (r, t', all) = hash_table_replace_bkey_lem h (bytes to) (suc (length m.lists)) t ok in
      let keys =
        same-bytes h.nocase to j ok (let s = v.small in omega arith)
          (let s = v.small in omega arith) in
      ap or_null (all (bytes j)) ∙ (elim (Bool-cases (to == j)) [
        | inl q ↦ rw (keys, q) refl
        | inr q ↦ rw (keys, q) (sym (trans-get m from j))
      ])

  trans-with_word :
      (i j : ℕ)
      → j < m.n_state
      → fsg_model_trans m' i j
        ≡ (if is_pair from to i j then suc (length m.lists) else fsg_model_trans m i j)
  trans-with_word i j l = elim (Bool-cases (i == from)) [
    | inl t ↦ let q : i ≡ from = ground arith in trans-get m' i j ∙ rw (t, q) (replaces j l)
    | inr t ↦ trans-get m' i j ∙ rw t (sym (trans-get m i j))
  ]

  links_of-with_word :
      (i j : ℕ)
      → j < m.n_state
      → links_of m' i j
        ≡ (if is_pair from to i j then length m.links ∷ links_of m from to else links_of m i j)
  links_of-with_word i j l =
      ap (list_at m') (trans-with_word i j l) ∙ (elim (Bool-cases (is_pair from to i j)) [
        | inl q ↦ rw q (get_or-append_end m.lists (length m.links ∷ links_of m from to) [])
        | inr q ↦ rw q (list_old (fsg_model_trans m i j) (v.stored i j l))
      ])

  stays : (i j p : ℕ) → IsWordLink m i j p → IsWordLink m' i j p
  stays i j p k =
      let st = k.stored in
      record {
        stored = omega (arith, length-append m.links (word_link from to logp wid ∷ []));
        from = ap (λ (x : Link). x.from_state) (link_old p k.stored) ∙ k.from;
        to = ap (λ (x : Link). x.to_state) (link_old p k.stored) ∙ k.to;
      }

  link_cases :
      (i j p : ℕ)
      → j < m.n_state
      → Memᴰ p (if is_pair from to i j then length m.links ∷ links_of m from to else links_of m i j)
      → IsWordLink m' i j p
  link_cases i j p l = elim (Bool-cases (is_pair from to i j)) [
    | inl q ↦
        let qi : i ≡ from = ground arith in
        let qj : j ≡ to = ground arith in
        rw (q, qi, qj)
          (λ mem. elim (Memᴰ.cases_cons mem) [
            | inl e ↦
                subst (λ x. IsWordLink m' from to x) (sym e)
                  (record {
                    stored = omega (arith, length-append m.links (word_link from to logp wid ∷ []));
                    from = ap (λ (x : Link). x.from_state) link_new;
                    to = ap (λ (x : Link). x.to_state) link_new;
                  })
            | inr old ↦ stays from to p (v.links from to p lt old)
          ])
    | inr q ↦ rw q (λ mem. stays i j p (v.links i j p l mem))
  ]

  pub with_word-IsWordModel : IsWordModel m'
  with_word-IsWordModel =
      let h = table_or_new (m.trans from).trans in
      let (t, ok) = v.tables from in
      let (r, t', all) = hash_table_replace_bkey_lem h (bytes to) (suc (length m.lists)) t ok in
      record {
        small = v.small;
        tables = λ i. elim (Bool-cases (i == from)) [
          | inl q ↦ rw q (t', nocase-replace h (bytes to) (suc (length m.lists)) ∙ ok)
          | inr q ↦ rw q (v.tables i)
        ];
        stored = λ i j l.
            let len = length-append m.lists ((length m.links ∷ links_of m from to) ∷ []) in
            subst (λ n. n ≤ length m'.lists) (sym (trans-with_word i j l))
              (elim (Bool-cases (is_pair from to i j)) [
                | inl q ↦ rw q (omega (arith, len))
                | inr q ↦ let o = v.stored i j l in rw q (omega (arith, len))
              ]);
        links = λ i j p l mem.
            let mem' = subst (λ (gl : List ℕ). Memᴰ p gl) (links_of-with_word i j l) mem in
            link_cases i j p l mem';
      }

  prob_old :
      (i j : ℕ) (w : ℤ)
      → j < m.n_state
      → prob_at m' (find_word m' (links_of m i j) w) ≡ word_prob m i j w
  prob_old i j w l =
      let same =
        find_word_congr m m' (links_of m i j) w
          (λ p mem. ap (λ (x : Link). x.wid) (link_old p (v.links i j p l mem).stored)) in
      ap (prob_at m') same ∙ (elim (Option-cases (find_word m (links_of m i j) w)) [
        | inl e ↦ rw e refl
        | inr (q, e) ↦ rw e (
            ap (λ (x : Link). some x.logs2prob)
              (link_old q (v.links i j q l (find_word-Mem m (links_of m i j) w q e).0).stored))
      ])

  find_first :
      (w : ℤ) (gl : List ℕ)
      → find_word m' (length m.links ∷ gl) w
        ≡ (if same_word wid w then some (length m.links) else find_word m' gl w)
  unfolding find_word
  find_first w gl = rw link_new (elim (Bool-cases (ltb_ℤ wid w)) [
    | inl t ↦ rw t refl
    | inr t ↦ elim (Bool-cases (ltb_ℤ w wid)) [ inl u ↦ rw (t, u) refl | inr u ↦ rw (t, u) refl ]
  ])

  pub adds_word : find_word m (links_of m from to) wid ≡ none → WordAdded m m' from to logp wid
  adds_word miss i j w l =
      let look = ap (λ (gl : List ℕ). prob_at m' (find_word m' gl w)) (links_of-with_word i j l) in
      look ∙ (elim (Bool-cases (is_pair from to i j)) [
        | inr q ↦ rw q (prob_old i j w l)
        | inl q ↦
            let qi : i ≡ from = ground arith in
            let qj : j ≡ to = ground arith in
            rw q (
              ap (prob_at m') (find_first w (links_of m from to))
              ∙ (elim (Bool-cases (same_word wid w)) [
                | inl t ↦
                    let none_was : word_prob m from to wid ≡ none = ap (prob_at m) miss in
                    rw (t, none_was) (ap (λ (x : Link). some x.logs2prob) link_new)
                | inr t ↦ rw (t, qi, qj) (prob_old from to w lt)
              ]))
      ])
