-- ===== src/Tests/Alignment.antt =====
-- An alignment of one word with two phones of two states each.
use pocketsphinx.Base.{
  ℕ, ◌+◌, ◌≡◌, refl, none, [], ◌∷◌, ℤ, pos, negsuc, ◌+ℤ◌, arith, length, get_or,
}
use pocketsphinx.Alignment.{
  Entry, Vector, Alignment, Tables, Outcome, done, refused, aborted, and_then, blank, state_id,
  phone_id, word_id, ps_alignment_none, ps_alignment_add_word, ps_alignment_populate_ci,
  ps_alignment_propagate, ps_alignment_iter, ps_alignment_iter_children, words,
}
use pocketsphinx.Alignment
use pocketsphinx.Alignment.Populate.{Populates, populate_ci_lem}
use pocketsphinx.Alignment.Propagate.{children, Gathers, IsTree, propagate_lem}

abbrev tables : Tables
tables = record {
  pron = λ w. 5 ∷ 6 ∷ [];
  pid2tmatid = λ p. p;
  pid2ssid = λ p. p;
  sseq2sen = λ s j. s + j;
  n_emit_state = 2;
  unset_phone = λ k. 9;
  unset_state = λ k. 9;
}

abbrev empty_vector : Vector
empty_vector = record { seq = []; n_alloc = 0 }

abbrev empty : Alignment
empty = record { word = empty_vector; sseq = empty_vector; state = empty_vector }

abbrev one_word : Alignment
one_word = record empty {
  word = record {
    seq =
        record blank { parent = ps_alignment_none; child = ps_alignment_none; id = word_id 3 } ∷ [];
    n_alloc = 11;
  };
}

populate_ci_lem_example : Populates tables one_word (ps_alignment_populate_ci tables one_word)
populate_ci_lem_example = populate_ci_lem tables one_word

-- The word is expanded into its two phones and their four states.
sizes :
    and_then {B = ℕ}
      (ps_alignment_populate_ci tables one_word)
      (λ al. done (length al.sseq.seq + length al.state.seq))
    ≡ done 6
unfolding ps_alignment_populate_ci pocketsphinx.Alignment.grow_one
    pocketsphinx.Alignment.expand_words pocketsphinx.Alignment.add_phones
    pocketsphinx.Alignment.new_phone pocketsphinx.Alignment.expand_phones
    pocketsphinx.Alignment.add_states pocketsphinx.Alignment.new_state
sizes = refl

-- After `ps_alignment_populate_ci` a word has no child, so that its phones cannot be reached.
no_way_down :
    (elim (ps_alignment_populate_ci tables (ps_alignment_add_word empty 3 (pos 0) (pos 9)).0) [
      | refused ↦ none
      | aborted ↦ none
      | done al ↦ ps_alignment_iter_children al (record { vec = words; pos = 0; parent = 0xffff })
    ])
    ≡ none
unfolding ps_alignment_populate_ci ps_alignment_add_word pocketsphinx.Alignment.grow_one
    ps_alignment_iter_children pocketsphinx.Alignment.expand_words pocketsphinx.Alignment.add_phones
    pocketsphinx.Alignment.new_phone pocketsphinx.Alignment.expand_phones
    pocketsphinx.Alignment.add_states pocketsphinx.Alignment.new_state
no_way_down = refl

abbrev state_at : ℕ → ℤ → Entry
state_at parent start = record {
  start = start;
  duration = pos 3;
  score = negsuc 9;
  parent = parent;
  child = 0;
  id = state_id 7;
}

abbrev phone_at : Entry
phone_at = record blank { id = phone_id 5 5 5 }

abbrev aligned : Alignment
aligned = record {
  word = record {
    seq = record blank { parent = ps_alignment_none; id = word_id 3 } ∷ [];
    n_alloc = 11;
  };
  sseq = record { seq = phone_at ∷ phone_at ∷ []; n_alloc = 11 };
  state = record {
    seq = state_at 0 (pos 0) ∷ state_at 0 (pos 3) ∷ state_at 1 (pos 6) ∷ state_at 1 (pos 9) ∷ [];
    n_alloc = 11;
  };
}

aligned-IsTree : IsTree aligned
aligned-IsTree = record {
  states = (omega arith, (omega arith, (omega arith, (omega arith, tt))));
  phones = (omega arith, (omega arith, tt));
  state_parents = (omega arith, (omega arith, (omega arith, (omega arith, tt))));
  phone_parents = (omega arith, (omega arith, tt));
}

whole_word : (get_or (ps_alignment_propagate aligned).word.seq 0 blank).duration ≡ pos 12
unfolding ps_alignment_propagate pocketsphinx.Alignment.propagate_up ◌+ℤ◌
whole_word = refl

propagate_lem_example :
    let al' = ps_alignment_propagate aligned in
    Gathers
      (children 0 aligned.state.seq)
      (get_or aligned.sseq.seq 0 blank)
      (get_or al'.sseq.seq 0 blank)
    × Gathers
        (children 0 al'.sseq.seq)
        (get_or aligned.word.seq 0 blank)
        (get_or al'.word.seq 0 blank)
    × (al'.state ≡ aligned.state)
propagate_lem_example = propagate_lem aligned 0 aligned-IsTree
