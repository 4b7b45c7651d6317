-- ===== src/Tests/FsgModel.antt =====
-- Null transitions of a small grammar.
use pocketsphinx.Base.{
  ℕ, false, ◌<◌, ◌≡◌, ◌≢◌, refl, sym, subst, if◌then◌else◌, inl, Option, none, some, List, [], ℤ,
  pos, negsuc, ◌+ℤ◌, ◌-ℤ◌, arith,
}
use pocketsphinx.Fsg.Model.{
  fsg_model_trans_add, fsg_model_trans, find_word, FsgModel, fsg_model_init, fsg_model_null_trans,
  fsg_model_null_trans_add, fsg_model_null_trans_closure, fsg_model_tag_trans_add, bytes,
  list_nulls, close, sweep, extend_link, note,
}
use pocketsphinx.Util.HashTable.{
  hash_table_new, prime_size, prime_from, hash_table_enter_bkey, hash_table_lookup_bkey, enter,
  lookup, bucket, find, matches, keycmp_case, key2hash, hash_loop, makekey, add_entry,
}
use pocketsphinx.Fsg.Model.Nulls.{IsModel, prob, with_link}
use pocketsphinx.Fsg.Model.Add.{with_link-IsModel}
use pocketsphinx.Fsg.Model.Cases.{Added, null_trans_add_lem}
use pocketsphinx.Fsg.Model.Grow.{Lists}
use pocketsphinx.Fsg.Model.Best.{IsBestPath, null_trans_closure_lem}
use pocketsphinx.Util.HashTable.Start.{hash_table_new_lem}
use pocketsphinx.Fsg.Model.Words.{IsWordModel, word_prob, is_target, raised}
use pocketsphinx.Fsg.Model.TransAdd.{trans_add_lem}
use pocketsphinx.Fsg.Model.Start.{fsg_model_init_lem}

abbrev pub bare : FsgModel
bare = fsg_model_init 4

-- 0 -> 1 -> 2.
abbrev one_link : FsgModel
one_link = with_link bare 0 1 (negsuc 4)

abbrev two_links : FsgModel
two_links = with_link one_link 1 2 (negsuc 6)

bare-IsModel : IsModel bare
bare-IsModel = (fsg_model_init_lem 4 (omega arith)).0

one_link-IsModel : IsModel one_link
unfolding fsg_model_init fsg_model_null_trans
one_link-IsModel =
    with_link-IsModel bare 0 1 (negsuc 4) bare-IsModel (omega arith) (omega arith)
      (λ e. absurd (omega arith)) (omega arith) refl

two_links-IsModel : IsModel two_links
unfolding fsg_model_init fsg_model_null_trans
two_links-IsModel =
    with_link-IsModel one_link 1 2 (negsuc 6) one_link-IsModel (omega arith) (omega arith)
      (λ e. absurd (omega arith)) (omega arith) refl

null_trans_add_lem_example :
    (r : ℤ × FsgModel) × (fsg_model_null_trans_add two_links 2 3 (negsuc 1) ≡ some r)
    × Added two_links 2 3 (negsuc 1) r
unfolding fsg_model_init
null_trans_add_lem_example =
    null_trans_add_lem two_links 2 3 (negsuc 1) two_links-IsModel (omega arith) (omega arith)
      (omega arith)

null_trans_closure_lem_example :
    (fuel : ℕ) × (m' : FsgModel) × (nulls' : List ℕ) × (fsg_model_null_trans_closure fuel two_links
        []
      ≡ some (m', nulls'))
    × IsModel m'
    × Lists m' nulls'
    × ((i j : ℕ) → i ≢ j → j < two_links.n_state → IsBestPath two_links m' i j)
null_trans_closure_lem_example = null_trans_closure_lem two_links [] two_links-IsModel (inl refl)

abbrev closed_prob : Option (FsgModel × List ℕ) → Option ℤ
closed_prob none = none
closed_prob (some (m, nulls)) = prob m 0 2

-- -5 and -7 add up.
closure_run : closed_prob (fsg_model_null_trans_closure 3 two_links []) ≡ some (negsuc 11)
unfolding fsg_model_null_trans_closure fsg_model_init fsg_model_null_trans bytes list_nulls close
    sweep extend_link note fsg_model_null_trans_add fsg_model_tag_trans_add hash_table_new
    prime_size prime_from hash_table_enter_bkey hash_table_lookup_bkey enter lookup bucket find
    matches keycmp_case key2hash hash_loop makekey add_entry ◌+ℤ◌ ◌-ℤ◌
closure_run = refl

pub bare-IsWordModel : IsWordModel bare
unfolding fsg_model_init fsg_model_trans hash_table_new
bare-IsWordModel = record {
  small = omega arith;
  tables = λ i. ((hash_table_new_lem 5 false).0, refl);
  stored = λ i j l. omega arith;
  links = λ i j p l mem. elim mem [ ];
}

abbrev one_word : FsgModel
one_word = fsg_model_trans_add bare 0 1 (negsuc 4) (pos 2)

one_word-IsWordModel : IsWordModel one_word
unfolding fsg_model_init
one_word-IsWordModel = (trans_add_lem bare 0 1 (negsuc 4) (pos 2) bare-IsWordModel (omega arith)).0

one_word_states : one_word.n_state ≡ 4
unfolding fsg_model_trans_add fsg_model_trans fsg_model_init find_word
one_word_states = refl

trans_add_lem_example :
    let m' = fsg_model_trans_add one_word 0 1 (negsuc 2) (pos 2) in
    IsWordModel m'
    × ((i j : ℕ) (w : ℤ)
        → j < one_word.n_state
        → word_prob m' i j w ≡ (
            if is_target 0 1 (pos 2) i j w
            then some (raised (word_prob one_word 0 1 (pos 2)) (negsuc 2))
            else word_prob one_word i j w))
trans_add_lem_example =
    trans_add_lem one_word 0 1 (negsuc 2) (pos 2) one_word-IsWordModel
      (subst (λ n. 1 < n) (sym one_word_states) (omega arith))
