-- ===== src/Fsg/Vocab/Words.antt =====
-- Adding a word to the vocabulary.
use pocketsphinx.Base.{
  ℕ, suc, ◌+◌, ◌*◌, ◌/◌, ◌≤◌, ◌<◌, ◌≡◌, refl, sym, subst, ap, ◌∙◌, inl, inr, Bool, true, false,
  Option, none, some, List, [], ◌∷◌, ◌++◌, leb, ltb, ◌==◌, arith, length, length-append, Bool-cases,
  Option-cases,
}
use pocketsphinx.Util.Bitvec.{bitvec_bits, bitvec_size, bitvec_is_set}
use pocketsphinx.Util.Bitvec.Laws.{has_bit-zero}
use pocketsphinx.Fsg.Vocab.{
  Vocab, bitvec_realloc, realloc_if, is_flagged, word_id_from, fsg_model_word_id, grow_vocab,
  append_word, fsg_model_word_add,
}

-- A word is in neither vector of flags.
abbrev pub Plain : Vocab → ℕ → Type 0
Plain v i = (is_flagged v.silwords i ≡ false) × (is_flagged v.altwords i ≡ false)

-- The words fit the memory, and the bits that no word has yet are clear.
pub record IsVocab (v : Vocab) : Type 0 where
  pub room : length v.vocab ≤ v.n_word_alloc
  pub clear :
      (i : ℕ) → length v.vocab ≤ i → i < bitvec_size v.n_word_alloc * bitvec_bits → Plain v i

realloc-keeps :
    (vec : Option (ℕ → ℕ)) (old new i : ℕ)
    → i < bitvec_size old * bitvec_bits
    → is_flagged (realloc_if vec old new) i ≡ is_flagged vec i
unfolding realloc_if bitvec_realloc is_flagged bitvec_is_set
realloc-keeps none old new i lt = refl
realloc-keeps (some vec) old new i lt =
    let q : i / bitvec_bits < bitvec_size old = omega arith in
    let e : leb (bitvec_size old) (i / bitvec_bits) ≡ false = ground arith in rw e refl

realloc-clears :
    (vec : Option (ℕ → ℕ)) (old new i : ℕ)
    → bitvec_size old * bitvec_bits ≤ i
    → i < bitvec_size new * bitvec_bits
    → is_flagged (realloc_if vec old new) i ≡ false
unfolding realloc_if bitvec_realloc is_flagged bitvec_is_set
realloc-clears none old new i le lt = refl
realloc-clears (some vec) old new i le lt =
    let q : bitvec_size old ≤ i / bitvec_bits = omega arith in
    let q' : i / bitvec_bits < bitvec_size new = omega arith in
    let e : leb (bitvec_size old) (i / bitvec_bits) ≡ true = ground arith in
    let e' : ltb (i / bitvec_bits) (bitvec_size new) ≡ true = ground arith in
    rw (e, e') (has_bit-zero _)

module _ (strcmp_equal : List ℕ → List ℕ → Bool) where
  abbrev find : List (List ℕ) → ℕ → List ℕ → Option ℕ
  find ws k u = word_id_from strcmp_equal ws k u

  find-append :
      (ws xs : List (List ℕ)) (k : ℕ) (u : List ℕ) (i : ℕ)
      → find ws k u ≡ some i
      → find (ws ++ xs) k u ≡ some i
  unfolding word_id_from
  find-append [] xs k u i e = absurd (ground arith)
  find-append (w ∷ ws) xs k u i e = elim (Bool-cases (strcmp_equal w u)) [
    | inl t ↦ rw t (rw t at e)
    | inr t ↦ rw t (find-append ws xs (k + 1) u i (rw t at e))
  ]

  find-bound :
      (ws : List (List ℕ)) (k : ℕ) (u : List ℕ) (i : ℕ) → find ws k u ≡ some i → i < k + length ws
  unfolding word_id_from
  find-bound [] k u i e = absurd (ground arith)
  find-bound (w ∷ ws) k u i e = elim (Bool-cases (strcmp_equal w u)) [
    | inl t ↦ let e' : some k ≡ some i = rw t at e in ground arith
    | inr t ↦ let b = find-bound ws (k + 1) u i (rw t at e) in omega arith
  ]

  find-new :
      (ws : List (List ℕ)) (k : ℕ) (u : List ℕ)
      → strcmp_equal u u ≡ true
      → find ws k u ≡ none
      → find (ws ++ u ∷ []) k u ≡ some (k + length ws)
  unfolding word_id_from
  find-new [] k u r e = rw r (ap some (omega arith))
  find-new (w ∷ ws) k u r e = elim (Bool-cases (strcmp_equal w u)) [
    | inl t ↦ let e' : some k ≡ none = rw t at e in absurd (ground arith)
    | inr t ↦ rw t (find-new ws (k + 1) u r (rw t at e) ∙ ap some (omega arith))
  ]

  -- What growing keeps.
  record Grows (v v' : Vocab) : Type 0 where
    words : v'.vocab ≡ v.vocab
    room : length v.vocab < v'.n_word_alloc
    kept :
        (i : ℕ)
        → i < length v.vocab
        → (is_flagged v'.silwords i ≡ is_flagged v.silwords i)
          × (is_flagged v'.altwords i ≡ is_flagged v.altwords i)
    clear :
        (i : ℕ) → length v.vocab ≤ i → i < bitvec_size v'.n_word_alloc * bitvec_bits → Plain v' i

  grown :
      (v : Vocab)
      → IsVocab v
      → Grows v (record v {
        n_word_alloc = v.n_word_alloc + 10;
        silwords = realloc_if v.silwords v.n_word_alloc (v.n_word_alloc + 10);
        altwords = realloc_if v.altwords v.n_word_alloc (v.n_word_alloc + 10);
      })
  grown v ok =
      let old = v.n_word_alloc in
      let new = v.n_word_alloc + 10 in
      let room = ok.room in
      record {
        words = refl;
        room = omega arith;
        kept = λ i lt. (
          realloc-keeps v.silwords old new i (omega arith),
          realloc-keeps v.altwords old new i (omega arith),
        );
        clear = λ i le lt. elim (Bool-cases (ltb i (bitvec_size old * bitvec_bits))) [
          | inl b ↦
              let l : i < bitvec_size old * bitvec_bits = ground arith in
              let c = ok.clear i le l in
              (
                realloc-keeps v.silwords old new i l ∙ c.0,
                realloc-keeps v.altwords old new i l ∙ c.1,
              )
          | inr b ↦
              let l : bitvec_size old * bitvec_bits ≤ i = ground arith in
              (realloc-clears v.silwords old new i l lt, realloc-clears v.altwords old new i l lt)
        ];
      }

  grow-Grows : (v : Vocab) → IsVocab v → Grows v (grow_vocab strcmp_equal v)
  unfolding grow_vocab
  grow-Grows v ok = elim (Bool-cases (length v.vocab == v.n_word_alloc)) [
    | inl e ↦ simp e (grown v ok)
    | inr e ↦
        let room = ok.room in
        let ne : length v.vocab < v.n_word_alloc = ground arith in
        simp e (record { words = refl; room = ne; kept = λ i lt. (refl, refl); clear = ok.clear })
  ]

  -- What adding a word does: it has the number returned, the numbers and flags of the words before
  -- stay, and a word that was not there has no flag.
  pub record WordAdded (v : Vocab) (word : List ℕ) (v' : Vocab) (wid : ℕ) : Type 0 where
    pub ok : IsVocab v'
    pub inside : wid < length v'.vocab
    pub found : fsg_model_word_id strcmp_equal v' word ≡ some wid
    pub kept_ids :
        (u : List ℕ) (i : ℕ)
        → fsg_model_word_id strcmp_equal v u ≡ some i
        → fsg_model_word_id strcmp_equal v' u ≡ some i
    pub kept_flags :
        (i : ℕ)
        → i < length v.vocab
        → (is_flagged v'.silwords i ≡ is_flagged v.silwords i)
          × (is_flagged v'.altwords i ≡ is_flagged v.altwords i)
    pub fresh : fsg_model_word_id strcmp_equal v word ≡ none → (wid ≡ length v.vocab) × Plain v' wid

  append-WordAdded :
      (v g : Vocab) (word : List ℕ)
      → strcmp_equal word word ≡ true
      → fsg_model_word_id strcmp_equal v word ≡ none
      → Grows v g
      → WordAdded v word (append_word strcmp_equal g word) (length v.vocab)
  unfolding fsg_model_word_id
  append-WordAdded v g word r e gr =
      let one = length-append v.vocab (word ∷ []) in
      let words : g.vocab ++ word ∷ [] ≡ v.vocab ++ word ∷ [] = ap (λ x. x ++ word ∷ []) gr.words in
      let size : length (g.vocab ++ word ∷ []) ≡ suc (length v.vocab) =
        ap length words ∙ (let s = one in omega arith) in
      let room = gr.room in
      record {
        ok = record { room = omega arith; clear = λ i le lt. gr.clear i (omega arith) lt };
        inside = omega arith;
        found = ap (λ x. find x 0 word) words ∙ find-new v.vocab 0 word r e ∙ ap some (omega arith);
        kept_ids = λ u i f. ap (λ x. find x 0 u) words ∙ find-append v.vocab (word ∷ []) 0 u i f;
        kept_flags = gr.kept;
        fresh = λ q. (refl, gr.clear (length v.vocab) (omega arith) (omega arith));
      }

  known-WordAdded :
      (v : Vocab) (word : List ℕ) (wid : ℕ)
      → IsVocab v
      → fsg_model_word_id strcmp_equal v word ≡ some wid
      → WordAdded v word v wid
  unfolding fsg_model_word_id
  known-WordAdded v word wid ok e = record {
    ok = ok;
    inside = let b = find-bound v.vocab 0 word wid e in omega arith;
    found = e;
    kept_ids = λ u i f. f;
    kept_flags = λ i lt. (refl, refl);
    fresh = λ q. absurd (ground arith);
  }

  add_known :
      (v : Vocab) (word : List ℕ) (wid : ℕ)
      → fsg_model_word_id strcmp_equal v word ≡ some wid
      → fsg_model_word_add strcmp_equal v word ≡ (v, wid)
  unfolding fsg_model_word_add
  add_known v word wid e = rw (fsg_model_word_add, e) refl

  add_unknown :
      (v : Vocab) (word : List ℕ)
      → fsg_model_word_id strcmp_equal v word ≡ none
      → fsg_model_word_add strcmp_equal v word
        ≡ (append_word strcmp_equal (grow_vocab strcmp_equal v) word, length v.vocab)
  unfolding fsg_model_word_add
  add_unknown v word e = rw (fsg_model_word_add, e) refl

  -- A word that a comparison finds equal to itself is added to a well-formed vocabulary, which it
  -- leaves well formed also where the memory and the vectors of flags grow. It has the number returned,
  -- its old one if it was there; the numbers and flags of the words before stay, and a word that was
  -- not there comes last, without a flag.
  pub word_add_lem :
      (v : Vocab) (word : List ℕ)
      → strcmp_equal word word ≡ true
      → IsVocab v
      → WordAdded v word
          (fsg_model_word_add strcmp_equal v word).0
          (fsg_model_word_add strcmp_equal v word).1
  word_add_lem v word r ok =
      let result = λ (x : Vocab × ℕ). WordAdded v word x.0 x.1 in
      elim (Option-cases (fsg_model_word_id strcmp_equal v word)) [
        | inl e ↦
            subst result (sym (add_unknown v word e))
              (append-WordAdded v (grow_vocab strcmp_equal v) word r e (grow-Grows v ok))
        | inr (wid, e) ↦
            subst result (sym (add_known v word wid e)) (known-WordAdded v word wid ok e)
      ]
