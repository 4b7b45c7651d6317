-- ===== src/Hmm.antt =====
-- src/hmm.c, src/hmm.h: hidden Markov models of up to 5 emitting states and one Viterbi step on them.
--
-- The fixed arrays of `hmm_t` are functions of the state's number, and so are the tables of the
-- context, which the acoustic model owns: `tp id from to` (uint8), `senscore senid` (int16) and
-- `sseq ssid state` (uint16). Scores are unbounded; that they stay within int32 is a theorem.
pub mod Eval
pub mod Choice
pub mod FiveState
pub mod ThreeState
pub mod AnyTopo
pub mod Range
pub mod Multiplex
pub mod Histories
pub mod Agree
use pocketsphinx.Base.{
  update, ℕ, zero, suc, ◌+◌, ◌-◌, Bool, true, false, ◌&&◌, not, Option, none, some, ℤ, pos, negsuc,
  ◌+ℤ◌, ◌-ℤ◌, neg_ℤ, ltb_ℤ, ltb, ◌==◌, if◌then◌else◌,
}

-- `WORST_SCORE`, the int32 0xE0000000.
abbrev pub worst_score : ℤ
worst_score = negsuc 0x1fff_ffff

abbrev pub tmat_worst_score : ℤ
tmat_worst_score = negsuc 254

-- `BAD_SSID` and `BAD_SENID`
abbrev pub bad_ssid : ℕ
bad_ssid = 0xffff

-- `BETTER_THAN`
abbrev pub better : ℤ → ℤ → Bool
better a b = ltb_ℤ b a

-- `hmm_context_t`
pub record Context : Type 0 where
  pub n_emit_state : ℕ
  pub tp : ℕ → ℕ → ℕ → ℕ
  pub senscore : ℕ → ℤ
  pub sseq : ℕ → ℕ → ℕ

-- `hmm_t`
pub record Hmm : Type 0 where
  pub score : ℕ → ℤ
  pub history : ℕ → ℤ
  pub out_score : ℤ
  pub out_history : ℤ
  pub ssid : ℕ
  pub senid : ℕ → ℕ
  pub bestscore : ℤ
  pub tmatid : ℕ
  pub frame : ℤ
  pub mpx : Bool
  pub n_emit_state : ℕ

-- A state's number is below `n_emit_state`.
abbrev pub fill {ℓ} : {A : Type ℓ} → ℕ → (ℕ → A) → A → ℕ → A
fill n f v = λ j. if ltb j n then v else f j

unfoldable pub hmm_clear_scores : Hmm → Hmm
hmm_clear_scores h = record h {
  score = update (fill h.n_emit_state h.score worst_score) 0 worst_score;
  out_score = worst_score;
  bestscore = worst_score;
}

unfoldable pub hmm_clear : Hmm → Hmm
hmm_clear h = record h {
  score = update (fill h.n_emit_state h.score worst_score) 0 worst_score;
  history = update (fill h.n_emit_state h.history (negsuc 0)) 0 (negsuc 0);
  out_score = worst_score;
  out_history = negsuc 0;
  bestscore = worst_score;
  frame = negsuc 0;
}

unfoldable pub hmm_init : Context → Hmm → Bool → ℕ → ℕ → Hmm
unfolding hmm_clear
hmm_init c h mpx ssid tmatid =
    let n = c.n_emit_state in
    hmm_clear (record h {
      mpx = mpx;
      n_emit_state = n;
      ssid = if mpx then bad_ssid else ssid;
      senid = if mpx then update (fill n h.senid bad_ssid) 0 ssid else λ j.
          if ltb j n then c.sseq ssid j else h.senid j;
      tmatid = tmatid;
    })

unfoldable pub hmm_enter : Hmm → ℤ → ℤ → ℤ → Hmm
hmm_enter h score histid frame = record h {
  score = update h.score 0 score;
  history = update h.history 0 histid;
  frame = frame;
}

-- A score less the best one, if it is a real score.
abbrev pub rescale : ℤ → ℤ → ℤ
rescale bestscr s = if better s worst_score then s -ℤ bestscr else s

unfoldable pub hmm_normalize : Hmm → ℤ → Hmm
hmm_normalize h bestscr = record h {
  score = λ j. if ltb j h.n_emit_state then rescale bestscr (h.score j) else h.score j;
  out_score = rescale bestscr h.out_score;
}

-- `if (s WORSE_THAN WORST_SCORE) s = WORST_SCORE;`
abbrev pub floor : ℤ → ℤ
floor s = if better worst_score s then worst_score else s

-- The two and three way comparisons of the step functions: the score chosen and how many states back
-- from the first candidate its predecessor stands.
unfoldable pub choose2 : ℤ → ℤ → ℤ × ℕ
choose2 t0 t1 = if better t0 t1 then (t0, 0) else (t1, 1)

unfoldable pub choose3 : ℤ → ℤ → ℤ → ℤ × ℕ
choose3 t0 t1 t2 =
    if better t0 t1
    then if better t2 t0 then (t2, 2) else (t0, 0)
    else if better t2 t1
    then (t2, 2)
    else (t1, 1)

-- The HMM in the middle of a step, with `bestScore`.
pub record Progress : Type 0 where
  pub hmm : Hmm
  pub best : ℤ

-- The exit state takes over from state `last`, or one before it.
unfoldable pub leave : Progress → ℕ → ℤ × ℕ → Progress
leave p last c = record {
  hmm = record p.hmm { out_score = floor c.0; out_history = p.hmm.history (last - c.1) };
  best = floor c.0;
}

-- State `to` takes over from `from`: its score, its history and, in a multiplex HMM, its ssid.
unfoldable pub arrive : Progress → ℕ → ℕ → ℤ → Progress
arrive p to from s = record {
  hmm = record p.hmm {
    score = update p.hmm.score to s;
    history = update p.hmm.history to (p.hmm.history from);
    senid = if p.hmm.mpx then update p.hmm.senid to (p.hmm.senid from) else p.hmm.senid;
  };
  best = if better s p.best then s else p.best;
}

-- The same from a comparison.
unfoldable pub arrive_from : Progress → ℕ → ℤ × ℕ → Progress
unfolding arrive
arrive_from p to c = arrive p to (to - c.1) (floor c.0)

unfoldable pub finish : Progress → ℤ × Hmm
finish p = (p.best, record p.hmm { bestscore = p.best })
