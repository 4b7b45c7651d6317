-- ===== src/Tests/Acmod.antt =====
-- The senone flags on small vectors.
use pocketsphinx.Base.{
  ℕ, suc, ◌<◌, ◌≡◌, refl, ◌⊎◌, true, false, none, some, ℤ, pos, negsuc, ltb, if◌then◌else◌,
}
use pocketsphinx.Hmm.{Context, Hmm, worst_score}
use pocketsphinx.Util.Bitvec.{bitvec_set, bitvec_is_set, has_bit, bitvec_count_set}
use pocketsphinx.Util.Bitvec
use pocketsphinx.Acmod.{Acmod, acmod_flags2list, acmod_activate_hmm, acmod_best_score, senscr_dummy}
use pocketsphinx.Acmod
use pocketsphinx.Acmod.Writing.{cursor}
use pocketsphinx.Acmod.Flags.{NamesFlags, flags2list_lem}
use pocketsphinx.Acmod.Activate.{Adds, activate_hmm_lem}
use pocketsphinx.Acmod.Best.{IsLeast, best_score_lem}

-- Senones 3 and 300 of 320.
abbrev flags : ℕ → ℕ
flags w = if ltb w 1 then 8 else if ltb w 9 then 0 else if ltb w 10 then 4096 else 0

abbrev pub model : Acmod
model = record {
  compallsen = false;
  n_sen = 320;
  senone_active_vec = flags;
  senone_active = λ i. 0;
  n_senone_active = 0;
}

-- The difference of 297 takes a bridge of 255.
three_entries : (acmod_flags2list model).1 ≡ 3
unfolding acmod_flags2list pocketsphinx.Acmod.flag_words pocketsphinx.Acmod.flag_bits has_bit
    pocketsphinx.Acmod.put_senone pocketsphinx.Acmod.put_delta pocketsphinx.Acmod.put
three_entries = refl

last_entry : cursor (acmod_flags2list model).0.senone_active 3 ≡ 300
unfolding acmod_flags2list pocketsphinx.Acmod.flag_words pocketsphinx.Acmod.flag_bits has_bit
    pocketsphinx.Acmod.put_senone pocketsphinx.Acmod.put_delta pocketsphinx.Acmod.put
last_entry = refl

two_flags : bitvec_count_set flags 320 ≡ 2
unfolding bitvec_count_set pocketsphinx.Util.Bitvec.count_words pocketsphinx.Util.Bitvec.count_word
    has_bit
two_flags = refl

flags2list_lem_example : NamesFlags model (acmod_flags2list model).0
flags2list_lem_example = flags2list_lem model refl

abbrev pub context : Context
context = record {
  n_emit_state = 3;
  tp = λ id i j. 1;
  senscore = λ senid. pos 11;
  sseq = λ ssid state. state;
}

abbrev pub phone : Hmm
phone = record {
  score = λ i. pos 0;
  history = λ i. negsuc 0;
  out_score = worst_score;
  out_history = negsuc 0;
  ssid = 0;
  senid = λ i. if ltb i 1 then 33 else 34;
  bestscore = worst_score;
  tmatid = 0;
  frame = pos 0;
  mpx = false;
  n_emit_state = 3;
}

activate_hmm_lem_example :
    let a' = acmod_activate_hmm context model phone in
    ((model.compallsen ≡ false) × Adds context phone (λ i. i < 3) flags a'.senone_active_vec)
    ⊎ ((model.compallsen ≡ true) × (a' ≡ model))
activate_hmm_lem_example = activate_hmm_lem context model phone

abbrev listed : Acmod
listed = record model { senone_active = λ i. if ltb i 1 then 3 else 39; n_senone_active = 2 }

abbrev scores : ℕ → ℤ
scores s = if ltb s 10 then pos 500 else pos 20

-- The best senone of the list is 42; the number that is returned is 1, its place.
place_not_senone : acmod_best_score listed scores ≡ (pos 20, some 1)
unfolding acmod_best_score pocketsphinx.Acmod.best_active pocketsphinx.Acmod.take_better
place_not_senone = refl

best_score_lem_example :
    IsLeast
      (λ k. scores (cursor listed.senone_active (suc k)))
      2
      0
      (senscr_dummy, none)
      (acmod_best_score listed scores)
best_score_lem_example = best_score_lem listed scores
