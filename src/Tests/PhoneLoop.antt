-- ===== src/Tests/PhoneLoop.antt =====
-- A loop of two phones.
use pocketsphinx.Base.{
  ℕ, ◌+◌, ◌<◌, ◌≡◌, ◌≢◌, refl, ℤ, pos, negsuc, ◌+ℤ◌, ◌-ℤ◌, ◌≤ℤ◌, [], ltb, arith, if◌then◌else◌,
}
use pocketsphinx.Hmm.{Hmm}
use pocketsphinx.PhoneLoop.{PhoneLoop, store_scores, phone_transition}
use pocketsphinx.PhoneLoop
use pocketsphinx.PhoneLoop.Window.{IsPenalty, store_scores_lem}
use pocketsphinx.PhoneLoop.Transition.{IsLive}
use pocketsphinx.PhoneLoop.Viterbi.{offer, Exits, Stems, phone_transition_lem}
use pocketsphinx.Tests.Acmod.{context, phone}

-- Phone 0 has left its last state with -8, phone 1 was dropped.
abbrev two : ℕ → Hmm
two i =
    if ltb i 1
    then record phone { out_score = negsuc 7; bestscore = negsuc 5; frame = pos 6 }
    else record phone { score = λ i. negsuc 899; bestscore = negsuc 899; frame = pos 3 }

abbrev loop_of_two : PhoneLoop
loop_of_two = record {
  hmms = two;
  hmmctx = context;
  n_phones = 2;
  pen_buf = λ row i. negsuc (row + i);
  pen_buf_ptr = 2;
  penalties = λ i. pos 0;
  best_score = negsuc 5;
  beam = negsuc 99;
  pbeam = negsuc 49;
  pip = negsuc 0;
  window = 3;
  renorm = [];
}

abbrev twice : ℤ → ℤ
twice x = x +ℤ x

store_scores_lem_example :
    let q = store_scores twice loop_of_two in
    ((i : ℕ) → i < 2 → q.pen_buf 2 i ≡ twice ((two i).bestscore -ℤ negsuc 5))
    × ((r : ℕ) → r ≢ 2 → q.pen_buf r ≡ loop_of_two.pen_buf r)
    × (q.pen_buf_ptr ≡ 0)
    × (q.pen_buf_ptr < q.window)
    × ((i : ℕ) → i < 2 → IsPenalty q i)
store_scores_lem_example = store_scores_lem twice loop_of_two (omega arith)

-- Phone 1 is entered with -9 for the next frame, 6.
entered_one : ((phone_transition loop_of_two (pos 5)).hmms 1).score 0 ≡ negsuc 8
unfolding phone_transition pocketsphinx.PhoneLoop.transition_from
    pocketsphinx.PhoneLoop.transition_one pocketsphinx.PhoneLoop.each
    pocketsphinx.PhoneLoop.enter_phone pocketsphinx.Hmm.hmm_enter ◌+ℤ◌
entered_one = refl

phone_transition_lem_example :
    let hs' = (phone_transition loop_of_two (pos 5)).hmms in
    ((i j : ℕ)
      → i < 2
      → j < 2
      → Exits loop_of_two (pos 5) (two i)
      → IsLive (pos 5) (hs' j) × (offer loop_of_two (pos 5) (two i) ≤ℤ (hs' j).score 0))
    × ((j : ℕ) → Stems loop_of_two (pos 5) two hs' j)
phone_transition_lem_example = phone_transition_lem loop_of_two (pos 5)
