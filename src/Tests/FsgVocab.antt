-- ===== src/Tests/FsgVocab.antt =====
-- A vocabulary of one word, which is full.
use pocketsphinx.Base.{ℕ, ◌+◌, ◌≤◌, ◌≡◌, refl, false, none, some, List, [], ◌∷◌, negsuc, arith}
use pocketsphinx.Util.Bitvec.{bitvec_set, bitvec_is_set}
use pocketsphinx.Util.Bitvec.Laws.{is_set-set_lem, has_bit-zero}
use pocketsphinx.Fsg.Model.{fsg_model_init}
use pocketsphinx.Fsg.Vocab.{
  Vocab, bitvec_alloc, is_flagged, fsg_model_word_add, fsg_model_add_silence,
}
use pocketsphinx.Fsg.Vocab.Words.{IsVocab, WordAdded, word_add_lem}
use pocketsphinx.Fsg.Vocab.Silence.{Silenced, add_silence_lem}
use pocketsphinx.Tests.Kws.{same_chars}
use pocketsphinx.Tests.FsgModel.{bare, bare-IsWordModel}

abbrev yes_word : List ℕ
yes_word = b'y' ∷ b'e' ∷ b's' ∷ []

abbrev sil_word : List ℕ
sil_word = b's' ∷ b'i' ∷ b'l' ∷ []

-- Its word is marked as a filler.
abbrev full : Vocab
full = record {
  vocab = yes_word ∷ [];
  n_word_alloc = 1;
  silwords = some (bitvec_set (bitvec_alloc 1) 0);
  altwords = none;
}

nothing_set : (i : ℕ) → bitvec_is_set (bitvec_alloc 1) i ≡ false
unfolding bitvec_is_set
nothing_set i = has_bit-zero _

only_first : (i : ℕ) → 1 ≤ i → bitvec_is_set (bitvec_set (bitvec_alloc 1) 0) i ≡ false
only_first i h =
    let l = is_set-set_lem (bitvec_alloc 1) 0 i in let z = nothing_set i in ground arith

full-IsVocab : IsVocab full
unfolding is_flagged
full-IsVocab = record { room = omega arith; clear = λ i h lt. (only_first i h, refl) }

word_add_lem_example :
    WordAdded same_chars full sil_word
      (fsg_model_word_add same_chars full sil_word).0
      (fsg_model_word_add same_chars full sil_word).1
word_add_lem_example = word_add_lem same_chars full sil_word refl full-IsVocab

second_word : (fsg_model_word_add same_chars full sil_word).1 ≡ 1
unfolding fsg_model_word_add pocketsphinx.Fsg.Vocab.fsg_model_word_id
    pocketsphinx.Fsg.Vocab.word_id_from
second_word = refl

one_state : 2 + 1 ≤ bare.n_state
unfolding fsg_model_init
one_state = omega arith

add_silence_lem_example :
    Silenced same_chars bare full sil_word
      (some 2)
      (negsuc 30)
      (fsg_model_add_silence same_chars (bare, full) sil_word (some 2) (negsuc 30))
add_silence_lem_example =
    add_silence_lem same_chars bare full sil_word (some 2) (negsuc 30) refl full-IsVocab
      bare-IsWordModel one_state
