-- ===== src/Fsg/Vocab.antt =====
-- src/lm/fsg_model.c: the words of a grammar, and the transitions of silence words.
--
-- The vocabulary is a list; `n_word` is its length. The comparison of strings is an argument, and so
-- is the log probability of a silence, which comes from floating point arithmetic.
pub mod Words
pub mod Silence
use pocketsphinx.Base.{
  update, ℕ, zero, suc, ◌+◌, ◌-◌, ◌*◌, ◌/◌, Bool, true, false, ◌&&◌, not, Option, none, some, List,
  [], ◌∷◌, ◌++◌, ℤ, pos, leb, ltb, ◌==◌, if◌then◌else◌, length,
}
use pocketsphinx.Util.Bitvec.{bitvec_size, bitvec_set, bitvec_is_set}
use pocketsphinx.Fsg.Model.{FsgModel, fsg_model_trans_add}

-- The fields of `fsg_model_t` that belong to the words. `none` is NULL.
pub record Vocab : Type 0 where
  pub vocab : List (List ℕ)
  pub n_word_alloc : ℕ
  pub silwords : Option (ℕ → ℕ)
  pub altwords : Option (ℕ → ℕ)

-- `bitvec_alloc`: `calloc` clears it.
abbrev pub bitvec_alloc : ℕ → ℕ → ℕ
bitvec_alloc n = λ w. 0

unfoldable pub bitvec_realloc : (ℕ → ℕ) → (old_len new_len : ℕ) → ℕ → ℕ
bitvec_realloc vec old_len new_len =
    λ w. if leb (bitvec_size old_len) w && ltb w (bitvec_size new_len) then 0 else vec w

unfoldable pub realloc_if : Option (ℕ → ℕ) → (old_len new_len : ℕ) → Option (ℕ → ℕ)
unfolding bitvec_realloc
realloc_if none old_len new_len = none
realloc_if (some vec) old_len new_len = some (bitvec_realloc vec old_len new_len)

-- `fsg_model_is_filler` and `fsg_model_is_alt` on a vector.
unfoldable pub is_flagged : Option (ℕ → ℕ) → ℕ → Bool
unfolding bitvec_is_set
is_flagged none wid = false
is_flagged (some vec) wid = bitvec_is_set vec wid

-- `bitvec_set` on a vector that is made if it is not there.
unfoldable pub flag : Option (ℕ → ℕ) → ℕ → ℕ → Option (ℕ → ℕ)
unfolding bitvec_set
flag none n wid = some (bitvec_set (bitvec_alloc n) wid)
flag (some vec) n wid = some (bitvec_set vec wid)

module _ (strcmp_equal : List ℕ → List ℕ → Bool) where
  -- The search from word `wid` on; `none` is -1.
  unfoldable pub word_id_from : List (List ℕ) → ℕ → List ℕ → Option ℕ
  word_id_from [] wid word = none
  word_id_from (w ∷ ws) wid word =
      let rest = word_id_from ws (wid + 1) word in if strcmp_equal w word then some wid else rest

  unfoldable pub fsg_model_word_id : Vocab → List ℕ → Option ℕ
  unfolding word_id_from
  fsg_model_word_id v word = word_id_from v.vocab 0 word

  -- Room for ten more words where the vocabulary is full.
  unfoldable pub grow_vocab : Vocab → Vocab
  unfolding realloc_if
  grow_vocab v =
      let n = v.n_word_alloc + 10 in
      if length v.vocab == v.n_word_alloc
      then record v {
        n_word_alloc = n;
        silwords = realloc_if v.silwords v.n_word_alloc n;
        altwords = realloc_if v.altwords v.n_word_alloc n;
      }
      else v

  abbrev pub append_word : Vocab → List ℕ → Vocab
  append_word v word = record v { vocab = v.vocab ++ word ∷ [] }

  unfoldable pub fsg_model_word_add : Vocab → List ℕ → Vocab × ℕ
  unfolding fsg_model_word_id grow_vocab
  fsg_model_word_add v word = elim (fsg_model_word_id v word) [
    | some wid ↦ (v, wid)
    | none ↦ (append_word (grow_vocab v) word, length v.vocab)
  ]

  -- The loop over the states, with the number of transitions so far.
  unfoldable pub silence_from :
      (m : FsgModel) (k src : ℕ) (logsilp : ℤ) (silwid n_trans : ℕ) → FsgModel × ℕ
  unfolding fsg_model_trans_add
  silence_from m zero src logsilp silwid n_trans = (m, n_trans)
  silence_from m (suc k) src logsilp silwid n_trans =
      silence_from (fsg_model_trans_add m src src logsilp (pos silwid)) k (src + 1) logsilp silwid
        (n_trans + 1)

  -- The state is `none` for -1, all states.
  unfoldable pub fsg_model_add_silence :
      FsgModel × Vocab → List ℕ → Option ℕ → ℤ → (FsgModel × Vocab) × ℕ
  unfolding fsg_model_word_add flag silence_from fsg_model_trans_add
  fsg_model_add_silence (m, v) silword state logsilp =
      let (v₁, silwid) = fsg_model_word_add v silword in
      let v₂ : Vocab = record v₁ { silwords = flag v₁.silwords v₁.n_word_alloc silwid } in
      elim state [
        | none ↦
            let (m', n_trans) = silence_from m m.n_state 0 logsilp silwid 0 in ((m', v₂), n_trans)
        | some s ↦ ((fsg_model_trans_add m s s logsilp (pos silwid), v₂), 1)
      ]
