-- ===== src/Fsg/Vocab/Silence.antt =====
-- Adding a silence word to every state, or to one.
use pocketsphinx.Base.{
  ℕ, zero, suc, ◌+◌, ◌≤◌, ◌<◌, ◌≡◌, ◌≢◌, refl, sym, subst, ap, ◌∙◌, inl, inr, Bool, true, false,
  ◌&&◌, ◌||◌, Option, none, some, List, ℤ, pos, ltb_ℤ, ltb, leb, ◌==◌, arith, if◌then◌else◌, length,
  Bool-cases,
}
use pocketsphinx.Fsg.Model.{FsgModel, fsg_model_trans_add, set_prob, find_word, link_at}
use pocketsphinx.Fsg.Model.Words.{IsWordModel, word_prob, is_target, raised, links_of, same_word}
use pocketsphinx.Fsg.Model.TransAdd.{trans_add_lem}
use pocketsphinx.Util.Bitvec.{bitvec_is_set}
use pocketsphinx.Util.Bitvec.Laws.{is_set-set_lem, has_bit-zero}
use pocketsphinx.Fsg.Vocab.{
  Vocab, bitvec_alloc, is_flagged, flag, silence_from, fsg_model_word_id, fsg_model_word_add,
  fsg_model_add_silence,
}
use pocketsphinx.Fsg.Vocab.Words.{word_add_lem, IsVocab}

-- A link from a state to itself with the word, where the state is among those from `src` on, `k` in
-- number.
abbrev pub is_loop : (k src : ℕ) (wid : ℤ) (i j : ℕ) (w : ℤ) → Bool
is_loop k src wid i j w = leb src i && ltb i (src + k) && is_target i i wid i j w

-- From `m` to `m'` such links were added or raised, and nothing else.
pub record Loops (m m' : FsgModel) (k src : ℕ) (logp wid : ℤ) : Type 0 where
  pub ok : IsWordModel m'
  pub states : m'.n_state ≡ m.n_state
  pub probs :
      (i j : ℕ) (w : ℤ)
      → j < m.n_state
      → word_prob m' i j w ≡ (
          if is_loop k src wid i j w
          then some (raised (word_prob m i j w) logp)
          else word_prob m i j w)

pick-n_state :
    (m a : FsgModel) (o : Option ℕ) (f : ℕ → Bool) (b : ℕ → FsgModel)
    → a.n_state ≡ m.n_state
    → ((p : ℕ) → (b p).n_state ≡ m.n_state)
    → (elim o as (λ x. FsgModel) [ none ↦ a | some p ↦ if f p then b p else m ]).n_state ≡ m.n_state
pick-n_state m a none f b e e' = e
pick-n_state m a (some p) f b e e' = elim (Bool-cases (f p)) [
  | inl t ↦ rw t (e' p)
  | inr t ↦ rw t refl
]

trans_add-n_state :
    (m : FsgModel) (from to : ℕ) (logp wid : ℤ)
    → (fsg_model_trans_add m from to logp wid).n_state ≡ m.n_state
unfolding fsg_model_trans_add
trans_add-n_state m from to logp wid =
    pick-n_state m _ (find_word m (links_of m from to) wid)
      (λ p. ltb_ℤ (link_at m p).logs2prob logp) (λ p. set_prob m p logp) refl (λ p. refl)

-- The links of one state more.
more_Bool :
    (k src i j : ℕ) (b : Bool)
    → (leb src i && ltb i (src + suc k) && ((i == i) && (i == j) && b)) ≡ (
        (leb (src + 1) i && ltb i (src + 1 + k) && ((i == i) && (i == j) && b))
        || ((i == src) && (src == j) && b))
more_Bool k src i j b = ground arith

apart_Bool :
    (k src i j : ℕ) (b : Bool)
    → (leb (src + 1) i && ltb i (src + 1 + k) && ((i == i) && (i == j) && b)) ≡ true
    → ((i == src) && (src == j) && b) ≡ false
apart_Bool k src i j b h = ground arith

target_Bool :
    (src i j : ℕ) (b : Bool)
    → ((i == src) && (src == j) && b) ≡ true
    → (i ≡ src) × (j ≡ src) × (b ≡ true)
target_Bool src i j b h = ground arith

same_word-eq : (a b : ℤ) → same_word a b ≡ true → a ≡ b
same_word-eq a b h = ground arith

module _ (m m₁ : FsgModel) (k src : ℕ) (logp wid : ℤ) where
  at_target :
      (i j : ℕ) (w : ℤ)
      → i ≡ src
      → j ≡ src
      → same_word wid w ≡ true
      → word_prob m src src wid ≡ word_prob m i j w
  at_target i j w ei ej eb =
      subst (λ a. word_prob m src src wid ≡ word_prob m a j w) (sym ei)
        (subst (λ a. word_prob m src src wid ≡ word_prob m src a w) (sym ej)
          (ap (word_prob m src src) (same_word-eq wid w eb)))

  step-probs :
      (i j : ℕ) (w : ℤ)
      → word_prob m₁ i j w ≡ (
          if is_target src src wid i j w
          then some (raised (word_prob m src src wid) logp)
          else word_prob m i j w)
      → (if is_loop k (src + 1) wid i j w
          then some (raised (word_prob m₁ i j w) logp)
          else word_prob m₁ i j w)
        ≡ (if is_loop (suc k) src wid i j w
            then some (raised (word_prob m i j w) logp)
            else word_prob m i j w)
  step-probs i j w e =
      let b = same_word wid w in
      let more = more_Bool k src i j b in
      elim (Bool-cases (is_loop k (src + 1) wid i j w)) [
        | inl t ↦
            let off = apart_Bool k src i j b t in
            let same : word_prob m₁ i j w ≡ word_prob m i j w = e ∙ rw off refl in
            let on : is_loop (suc k) src wid i j w ≡ true = more ∙ rw t refl in
            rw (t, on) (ap (λ y. some (raised y logp)) same)
        | inr t ↦ elim (Bool-cases (is_target src src wid i j w)) [
          | inl u ↦
              let (ei, ej, eb) = target_Bool src i j b u in
              let on : is_loop (suc k) src wid i j w ≡ true = more ∙ rw (t, u) refl in
              let here : word_prob m₁ i j w ≡ some (raised (word_prob m src src wid) logp) =
                e ∙ rw u refl in
              let there : word_prob m src src wid ≡ word_prob m i j w = at_target i j w ei ej eb in
              rw (t, on) (here ∙ ap (λ y. some (raised y logp)) there)
          | inr u ↦
              let off : is_loop (suc k) src wid i j w ≡ false = more ∙ rw (t, u) refl in
              rw (t, off) (e ∙ rw u refl)
        ]
      ]

nowhere : (src i : ℕ) (b : Bool) → (leb src i && ltb i (src + 0) && b) ≡ false
nowhere src i b = ground arith

none-Loops : (m : FsgModel) (src : ℕ) (logp wid : ℤ) → IsWordModel m → Loops m m 0 src logp wid
none-Loops m src logp wid v = record {
  ok = v;
  states = refl;
  probs = λ i j w lt.
      let off : is_loop 0 src wid i j w ≡ false = nowhere src i (is_target i i wid i j w) in
      rw off refl;
}

more-Loops :
    (m m' : FsgModel) (k src : ℕ) (logp wid : ℤ)
    → IsWordModel m
    → src < m.n_state
    → Loops (fsg_model_trans_add m src src logp wid) m' k (src + 1) logp wid
    → Loops m m' (suc k) src logp wid
more-Loops m m' k src logp wid v lt l =
    let m₁ = fsg_model_trans_add m src src logp wid in
    let same = trans_add-n_state m src src logp wid in
    let (ok, probs) = trans_add_lem m src src logp wid v lt in
    record {
      ok = l.ok;
      states = l.states ∙ same;
      probs = λ i j w lt'.
          l.probs i j w (subst (λ n. j < n) (sym same) lt')
          ∙ step-probs m m₁ k src logp wid i j w (probs i j w lt');
    }

module _ (strcmp_equal : List ℕ → List ℕ → Bool) where
  silence_from-Loops :
      (m : FsgModel) (k src : ℕ) (logp : ℤ) (silwid n : ℕ)
      → IsWordModel m
      → src + k ≤ m.n_state
      → let r = silence_from strcmp_equal m k src logp silwid n in
        Loops m r.0 k src logp (pos silwid) × (r.1 ≡ n + k)
  unfolding silence_from
  silence_from-Loops m zero src logp silwid n v le =
      (none-Loops m src logp (pos silwid) v, omega arith)
  silence_from-Loops m (suc k) src logp silwid n v le =
      let m₁ = fsg_model_trans_add m src src logp (pos silwid) in
      let same = trans_add-n_state m src src logp (pos silwid) in
      let (ok, probs) = trans_add_lem m src src logp (pos silwid) v (omega arith) in
      let (l, e) = silence_from-Loops m₁ k (src + 1) logp silwid (n + 1) ok (omega arith) in
      let m' = (silence_from strcmp_equal m₁ k (src + 1) logp silwid (n + 1)).0 in
      (more-Loops m m' k src logp (pos silwid) v (omega arith) l, omega arith)

  -- The states that get a silence: all, or one.
  abbrev pub first_state : Option ℕ → ℕ
  first_state none = 0
  first_state (some s) = s

  abbrev pub state_count : Option ℕ → ℕ → ℕ
  state_count none n_state = n_state
  state_count (some s) n_state = 1

  -- What adding a silence leaves.
  pub record Silenced (m : FsgModel) (v : Vocab) (silword : List ℕ) (state : Option ℕ) (logsilp : ℤ)
      (r : (FsgModel × Vocab) × ℕ) : Type 0 where
    pub wid : ℕ
    pub word : fsg_model_word_id strcmp_equal r.0.1 silword ≡ some wid
    pub marked : is_flagged r.0.1.silwords wid ≡ true
    pub others :
        (i : ℕ)
        → i < length v.vocab
        → i ≢ wid
        → (is_flagged r.0.1.silwords i ≡ is_flagged v.silwords i)
          × (is_flagged r.0.1.altwords i ≡ is_flagged v.altwords i)
    pub loops : Loops m r.0.0 (state_count state m.n_state) (first_state state) logsilp (pos wid)
    pub count : r.1 ≡ state_count state m.n_state

  clear_bit : (n i : ℕ) → bitvec_is_set (bitvec_alloc n) i ≡ false
  unfolding bitvec_is_set
  clear_bit n i = has_bit-zero _

  flag-marks :
      (vec : Option (ℕ → ℕ)) (n wid : ℕ)
      → (is_flagged (flag vec n wid) wid ≡ true)
        × ((i : ℕ) → i ≢ wid → is_flagged (flag vec n wid) i ≡ is_flagged vec i)
  unfolding is_flagged flag
  flag-marks none n wid = (
    let l = is_set-set_lem (bitvec_alloc n) wid wid in ground arith,
    λ i ne. let l = is_set-set_lem (bitvec_alloc n) wid i in let z = clear_bit n i in ground arith,
  )
  flag-marks (some vec) n wid = (
    let l = is_set-set_lem vec wid wid in ground arith,
    λ i ne. let l = is_set-set_lem vec wid i in ground arith,
  )

  marked_vocab : Vocab → List ℕ → Vocab
  unfolding fsg_model_word_add flag
  marked_vocab v silword =
      let (v₁, silwid) = fsg_model_word_add strcmp_equal v silword in
      record v₁ { silwords = flag v₁.silwords v₁.n_word_alloc silwid }

  finish-Silenced :
      (m : FsgModel) (v : Vocab) (silword : List ℕ) (state : Option ℕ) (logsilp : ℤ)
      → strcmp_equal silword silword ≡ true
      → IsVocab v
      → let wid = (fsg_model_word_add strcmp_equal v silword).1 in
        (m' : FsgModel) (n : ℕ)
        → Loops m m' (state_count state m.n_state) (first_state state) logsilp (pos wid)
        → n ≡ state_count state m.n_state
        → Silenced m v silword state logsilp ((m', marked_vocab v silword), n)
  unfolding marked_vocab fsg_model_word_id
  finish-Silenced m v silword state logsilp r ok m' n l e =
      let w = word_add_lem strcmp_equal v silword r ok in
      let v₁ = (fsg_model_word_add strcmp_equal v silword).0 in
      let wid' = (fsg_model_word_add strcmp_equal v silword).1 in
      let f = flag-marks v₁.silwords v₁.n_word_alloc wid' in
      record {
        wid = wid';
        word = w.found;
        marked = f.0;
        others = λ i lt ne. (f.1 i ne ∙ (w.kept_flags i lt).0, (w.kept_flags i lt).1);
        loops = l;
        count = e;
      }

  -- Adding a silence word to all states or to one: the word is in the vocabulary and is marked as a
  -- filler, the other words keep their marks, and each of these states has a link to itself with the
  -- word, whose probability is that of the silence or a higher one that it had. No other link changes,
  -- and the number returned is that of the states.
  pub add_silence_lem :
      (m : FsgModel) (v : Vocab) (silword : List ℕ) (state : Option ℕ) (logsilp : ℤ)
      → strcmp_equal silword silword ≡ true
      → IsVocab v
      → IsWordModel m
      → first_state state + state_count state m.n_state ≤ m.n_state
      → Silenced m v silword state logsilp
          (fsg_model_add_silence strcmp_equal (m, v) silword state logsilp)
  unfolding fsg_model_add_silence marked_vocab
  add_silence_lem m v silword none logsilp r okv okm range =
      let wid' = (fsg_model_word_add strcmp_equal v silword).1 in
      let (l, e) = silence_from-Loops m m.n_state 0 logsilp wid' 0 okm range in
      let t = silence_from strcmp_equal m m.n_state 0 logsilp wid' 0 in
      finish-Silenced m v silword none logsilp r okv t.0 t.1 l (e ∙ omega arith)
  add_silence_lem m v silword (some s) logsilp r okv okm range =
      let wid' = (fsg_model_word_add strcmp_equal v silword).1 in
      let m₁ = fsg_model_trans_add m s s logsilp (pos wid') in
      let (ok, probs) = trans_add_lem m s s logsilp (pos wid') okm (omega arith) in
      let l =
        more-Loops m m₁ 0 s logsilp (pos wid') okm (omega arith)
          (none-Loops m₁ (s + 1) logsilp (pos wid') ok) in
      finish-Silenced m v silword (some s) logsilp r okv m₁ 1 l refl
