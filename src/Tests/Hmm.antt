-- ===== src/Tests/Hmm.antt =====
-- Steps of small HMMs.
use pocketsphinx.Base.{
  ℕ, zero, suc, ◌<◌, ◌≡◌, refl, true, false, ℤ, pos, negsuc, ◌+ℤ◌, ◌≤ℤ◌, ◌==◌, arith, if◌then◌else◌,
}
use pocketsphinx.Hmm.{Context, Hmm, worst_score, hmm_init, hmm_enter}
use pocketsphinx.Hmm.Eval.{
  hmm_vit_eval_5st_lr, hmm_vit_eval_3st_lr, hmm_vit_eval_5st_lr_mpx, hmm_vit_eval_anytopo, source,
  self_score, int_min,
}
use pocketsphinx.Hmm.FiveState.{via, five_state_lem}
use pocketsphinx.Hmm.ThreeState.{way, skips, three_state_lem, three_state_stale}
use pocketsphinx.Hmm.AnyTopo.{any_topo_lem}
use pocketsphinx.Hmm.FiveState
use pocketsphinx.Hmm.ThreeState
use pocketsphinx.Hmm.AnyTopo
use pocketsphinx.Hmm.Multiplex
use pocketsphinx.Hmm.Multiplex.{five_state_mpx_lem}
use pocketsphinx.Hmm.Range.{IsModel, HasRange, five_state_range}

abbrev probs : ℕ → ℕ → ℕ
probs zero zero = 3
probs zero (suc j) = 7
probs (suc i) j = 5

abbrev table : Context
table = record {
  n_emit_state = 3;
  tp = λ id. probs;
  senscore = λ senid. pos 11;
  sseq = λ ssid state. state;
}

-- Without the way from state 0 to state 2.
abbrev no_skip : ℕ → ℕ → ℕ
no_skip zero (suc (suc zero)) = 255
no_skip i j = 9

abbrev blocked : Context
blocked = record table { tp = λ id. no_skip }

abbrev zeros : ℕ → ℤ
zeros i = pos 0

abbrev histories : ℕ → ℤ
histories i = pos i

abbrev fresh : Hmm
fresh = record {
  score = zeros;
  history = histories;
  out_score = worst_score;
  out_history = negsuc 0;
  ssid = 0;
  senid = λ i. i;
  bestscore = worst_score;
  tmatid = 0;
  frame = pos 0;
  mpx = false;
  n_emit_state = 3;
}

entered_steps :
    (hmm_vit_eval_3st_lr table
      (hmm_enter (hmm_init table fresh false 0 0) (negsuc 99) (pos 4) (pos 0))).0
    ≡ negsuc 113
unfolding hmm_vit_eval_3st_lr hmm_enter hmm_init pocketsphinx.Hmm.Eval.sweep3 ◌+ℤ◌
    pocketsphinx.Hmm.choose3 pocketsphinx.Hmm.choose2
entered_steps = refl

three_state_lem_example :
    ThreeState.Steps table fresh
      (way table fresh 3 1).0
      (way table fresh 2 0).0
      (hmm_vit_eval_3st_lr table fresh)
three_state_lem_example = three_state_lem table fresh refl refl

three_state_stale_example :
    ThreeState.Steps blocked fresh
      (way blocked fresh 3 1).0
      (way blocked fresh 3 1).0
      (hmm_vit_eval_3st_lr blocked fresh)
unfolding ◌+ℤ◌
three_state_stale_example = three_state_stale blocked fresh refl refl refl

any_topo_lem_example : AnyTopo.Steps table fresh (hmm_vit_eval_anytopo table fresh)
any_topo_lem_example = any_topo_lem table fresh

five_state_lem_example : FiveState.Steps table fresh (hmm_vit_eval_5st_lr table fresh)
five_state_lem_example = five_state_lem table fresh

probs-byte : (i j : ℕ) → probs i j < 256
probs-byte zero zero = omega arith
probs-byte zero (suc j) = omega arith
probs-byte (suc i) j = omega arith

table-IsModel : IsModel table
table-IsModel = record {
  transitions = λ id. probs-byte;
  senones = λ senid. (omega arith, omega arith);
}

fresh-HasRange : HasRange fresh
fresh-HasRange = record {
  states = λ i lt. (omega arith, omega arith);
  out = (omega arith, omega arith);
}

five_state_range_example :
    ((i j : ℕ) → i < 5 → (int_min ≤ℤ (via table fresh j i).0) × ((via table fresh j i).0 ≤ℤ pos 0))
    × HasRange (hmm_vit_eval_5st_lr table fresh).1
five_state_range_example = five_state_range table fresh table-IsModel fresh-HasRange

abbrev shared : Hmm
shared = record fresh { mpx = true; senid = λ i. if i == 3 then 0xffff else 2 }

five_state_mpx_lem_example : Multiplex.Steps table shared (hmm_vit_eval_5st_lr_mpx table shared)
five_state_mpx_lem_example = five_state_mpx_lem table shared refl
