-- ===== src/Kws/Search.antt =====
-- src/kws_search.c: spotting of key phrases against a loop of phones.
--
-- The arrays of HMMs and the list of key phrases are lists. `pl_best_hmm` is a copy of the HMM: its
-- exit score and history, which are all that is read of it, are not written while it is in use. The
-- scores of a frame come from `ps_mgau_frame_eval`, a function pointer of the acoustic model to
-- floating point code: an argument, which is given the list of active senones. Timing is left out.
pub mod Frames
pub mod Detected
pub mod Timed
pub mod Flags
pub mod Agree
pub mod Senones
pub mod Spotted
use pocketsphinx.Base.{
  ℕ, zero, suc, Bool, true, false, ◌&&◌, ◌||◌, not, Option, none, some, List, [], ◌∷◌, ◌++◌, map, ℤ,
  pos, negsuc, ◌+ℤ◌, ◌-ℤ◌, ltb_ℤ, if◌then◌else◌,
}
use mathlib.Core.List.{reverse}
use pocketsphinx.Hmm.{Context, Hmm, worst_score, better, hmm_clear, hmm_enter}
use pocketsphinx.Hmm.Eval.{hmm_vit_eval}
use pocketsphinx.Acmod.{Acmod, acmod_clear_active, acmod_activate_hmm, acmod_flags2list}
use pocketsphinx.Kws.{
  Detection, kws_detections_reset, kws_detections_add, kws_detections_hyp_str, drop_last,
}

-- `kws_keyphrase_t`; `n_hmms` is the length of the array.
pub record Keyphrase : Type 0 where
  pub word : List ℕ
  pub threshold : ℤ
  pub hmms : List Hmm

-- `kws_search_t`
pub record KwsSearch : Type 0 where
  pub hmmctx : Context
  pub keyphrases : List Keyphrase
  pub detections : List Detection
  pub frame : ℤ
  pub beam : ℤ
  pub plp : ℤ
  pub bestscore : ℤ
  pub delay : ℤ
  pub pl_hmms : List Hmm
  pub n_tot_frame : ℤ

abbrev pub kws_max : ℤ
kws_max = pos 1500

-- `hmm_is_active`
abbrev pub is_active : Hmm → Bool
is_active h = ltb_ℤ (pos 0) h.frame

-- `kws_search_sen_active`: the phone loop, then the active HMMs of the key phrases.
unfoldable pub activate_all : Context → Acmod → List Hmm → Acmod
unfolding acmod_activate_hmm
activate_all c a [] = a
activate_all c a (h ∷ hs) = activate_all c (acmod_activate_hmm c a h) hs

unfoldable pub activate_active : Context → Acmod → List Hmm → Acmod
unfolding acmod_activate_hmm
activate_active c a [] = a
activate_active c a (h ∷ hs) =
    activate_active c (if is_active h then acmod_activate_hmm c a h else a) hs

unfoldable pub activate_keyphrases : Context → Acmod → List Keyphrase → Acmod
unfolding activate_active
activate_keyphrases c a [] = a
activate_keyphrases c a (k ∷ ks) = activate_keyphrases c (activate_active c a k.hmms) ks

unfoldable pub kws_search_sen_active : KwsSearch → Acmod → Acmod
unfolding acmod_clear_active activate_all activate_keyphrases
kws_search_sen_active s a =
    let a₁ = activate_all s.hmmctx (acmod_clear_active a) s.pl_hmms in
    activate_keyphrases s.hmmctx a₁ s.keyphrases

-- The loops of `kws_search_hmm_eval`, with the best score so far.
abbrev pub greater : ℤ → ℤ → ℤ
greater score best = if better score best then score else best

unfoldable pub eval_all : Context → List Hmm → ℤ → List Hmm × ℤ
unfolding hmm_vit_eval
eval_all c [] best = ([], best)
eval_all c (h ∷ hs) best =
    let (score, h') = hmm_vit_eval c h in
    let (hs', best') = eval_all c hs (greater score best) in (h' ∷ hs', best')

unfoldable pub eval_active : Context → List Hmm → ℤ → List Hmm × ℤ
unfolding hmm_vit_eval
eval_active c [] best = ([], best)
eval_active c (h ∷ hs) best =
    let (score, h') = hmm_vit_eval c h in
    let (hs', best') = eval_active c hs (if is_active h then greater score best else best) in
    ((if is_active h then h' else h) ∷ hs', best')

unfoldable pub eval_keyphrases : Context → List Keyphrase → ℤ → List Keyphrase × ℤ
unfolding eval_active
eval_keyphrases c [] best = ([], best)
eval_keyphrases c (k ∷ ks) best =
    let (hmms, best₁) = eval_active c k.hmms best in
    let (ks', best₂) = eval_keyphrases c ks best₁ in (record k { hmms = hmms } ∷ ks', best₂)

unfoldable pub kws_search_hmm_eval : KwsSearch → (ℕ → ℤ) → KwsSearch
unfolding eval_all eval_keyphrases
kws_search_hmm_eval s senscr =
    let c : Context = record s.hmmctx { senscore = senscr } in
    let (pl, best₁) = eval_all c s.pl_hmms worst_score in
    let (ks, best₂) = eval_keyphrases c s.keyphrases best₁ in
    record s { hmmctx = c; pl_hmms = pl; keyphrases = ks; bestscore = best₂ }

unfoldable pub prune_hmm : ℤ → Hmm → Hmm
unfolding hmm_clear
prune_hmm thresh h = if is_active h && ltb_ℤ h.bestscore thresh then hmm_clear h else h

abbrev pub prune_keyphrase : ℤ → Keyphrase → Keyphrase
prune_keyphrase thresh k = record k { hmms = map (prune_hmm thresh) k.hmms }

unfoldable pub kws_search_hmm_prune : KwsSearch → KwsSearch
unfolding prune_hmm
kws_search_hmm_prune s = record s {
  keyphrases = map (prune_keyphrase (s.bestscore +ℤ s.beam)) s.keyphrases;
}

-- The phone HMM with the best exit, `none` if every exit has the worst score.
unfoldable pub best_exit : List Hmm → ℤ → Option Hmm → Option Hmm
best_exit [] score best = best
best_exit (h ∷ hs) score best =
    let wins = better h.out_score score in
    best_exit hs (if wins then h.out_score else score) (if wins then some h else best)

abbrev pub last_hmm : List Hmm → Option Hmm
last_hmm [] = none
last_hmm (h ∷ []) = some h
last_hmm (h ∷ h' ∷ hs) = last_hmm (h' ∷ hs)

-- A key phrase is spotted if its last HMM does well enough against the phone loop.
abbrev pub is_spotted : Hmm → Keyphrase → Hmm → Bool
is_spotted pl k h =
    is_active h
    && better pl.out_score worst_score
    && not (ltb_ℤ (h.out_score -ℤ pl.out_score) k.threshold)

abbrev pub detection : Hmm → ℤ → Keyphrase → Hmm → Detection
detection pl frame k h = record {
  keyphrase = k.word;
  sf = h.out_history;
  ef = frame;
  prob = h.out_score -ℤ pl.out_score -ℤ kws_max;
  ascr = h.out_score;
}

-- One HMM of a key phrase takes over from the one before it. The loop runs from the last one down, so
-- that each is entered before its predecessor is.
unfoldable pub enter_next : ℤ → Hmm → Hmm → Hmm
unfolding hmm_enter
enter_next frame pred h =
    if is_active pred && (not (is_active h) || better pred.out_score (h.score 0))
    then hmm_enter h pred.out_score pred.out_history (frame +ℤ pos 1)
    else h

unfoldable pub pass_on : ℤ → Hmm → List Hmm → List Hmm
unfolding enter_next
pass_on frame pred [] = []
pass_on frame pred (h ∷ hs) = let rest = pass_on frame h hs in enter_next frame pred h ∷ rest

-- The first HMM of a key phrase takes over from the phone loop.
unfoldable pub enter_first : ℤ → Hmm → Hmm → Hmm
unfolding hmm_enter
enter_first frame pl h =
    if better pl.out_score (h.score 0) then hmm_enter h pl.out_score frame (frame +ℤ pos 1) else h

unfoldable pub advance : ℤ → Hmm → List Hmm → List Hmm
unfolding pass_on enter_first
advance frame pl [] = []
advance frame pl (h ∷ hs) = let rest = pass_on frame h hs in enter_first frame pl h ∷ rest

unfoldable pub advance_keyphrase : ℤ → Hmm → Keyphrase → Keyphrase
unfolding advance
advance_keyphrase frame pl k = record k { hmms = advance frame pl k.hmms }

unfoldable pub reenter : ℤ → ℤ → Hmm → Hmm → Hmm
unfolding hmm_enter
reenter frame plp pl h =
    if better (pl.out_score +ℤ plp) (h.score 0)
    then hmm_enter h (pl.out_score +ℤ plp) pl.out_history (frame +ℤ pos 1)
    else h

module _ (strcmp_equal : List ℕ → List ℕ → Bool) where
  unfoldable pub spot : Hmm → ℤ → List Keyphrase → List Detection → List Detection
  unfolding kws_detections_add
  spot pl frame [] ds = ds
  spot pl frame (k ∷ ks) ds = spot pl frame ks (elim (last_hmm k.hmms) [
    | none ↦ ds
    | some h ↦
        if is_spotted pl k h
        then kws_detections_add strcmp_equal ds (detection pl frame k h)
        else ds
  ])

  -- The transitions, given the phone HMM with the best exit.
  unfoldable pub trans_from : KwsSearch → Option Hmm → KwsSearch
  unfolding spot advance_keyphrase reenter
  trans_from s none = s
  trans_from s (some pl) = record s {
    detections = spot pl s.frame s.keyphrases s.detections;
    pl_hmms = map (reenter s.frame s.plp pl) s.pl_hmms;
    keyphrases = map (advance_keyphrase s.frame pl) s.keyphrases;
  }

  unfoldable pub kws_search_trans : KwsSearch → KwsSearch
  unfolding best_exit trans_from
  kws_search_trans s = trans_from s (best_exit s.pl_hmms worst_score none)

  -- A frame after the senones are flagged. The first argument gives the scores for a list of senones.
  -- `acmod_score` is the path that computes the frame from its features: it lists the flagged senones
  -- and has them scored. Left out are scores kept from the call before, which it returns for the same
  -- frame only if all senones are computed or come from a file, and the reading of such a file.
  unfoldable pub run_frame : ((ℕ → ℕ) → ℕ → ℕ → ℤ) → KwsSearch → Acmod → KwsSearch × Acmod
  unfolding acmod_flags2list kws_search_hmm_eval kws_search_hmm_prune kws_search_trans
  run_frame frame_eval s a =
      let a' = (acmod_flags2list a).0 in
      let senscr = frame_eval a'.senone_active a'.n_senone_active in
      let t = kws_search_trans (kws_search_hmm_prune (kws_search_hmm_eval s senscr)) in
      (record t { frame = t.frame +ℤ pos 1 }, a')

  unfoldable pub kws_search_step : ((ℕ → ℕ) → ℕ → ℕ → ℤ) → KwsSearch × Acmod → KwsSearch × Acmod
  unfolding run_frame kws_search_sen_active
  kws_search_step frame_eval (s, a) =
      run_frame frame_eval s (if a.compallsen then a else kws_search_sen_active s a)

unfoldable pub kws_search_start : KwsSearch → KwsSearch
unfolding hmm_clear hmm_enter kws_detections_reset
kws_search_start s = record s {
  frame = pos 0;
  bestscore = pos 0;
  detections = kws_detections_reset s.detections;
  pl_hmms = map (λ h. hmm_enter (hmm_clear h) (pos 0) (negsuc 0) (pos 0)) s.pl_hmms;
}

unfoldable pub kws_search_finish : KwsSearch → KwsSearch
kws_search_finish s = record s { n_tot_frame = s.n_tot_frame +ℤ s.frame }

unfoldable pub kws_search_hyp : KwsSearch → Option (List ℕ)
unfolding kws_detections_hyp_str
kws_search_hyp s = kws_detections_hyp_str s.detections s.frame s.delay

-- The vector of `kws_search_seg_iter`, which `kws_seg_next` walks; `none` is NULL.
unfoldable pub settled : List Detection → ℤ → List Detection
settled [] limit = []
settled (d ∷ ds) limit = let rest = settled ds limit in if ltb_ℤ limit d.ef then rest else d ∷ ds

unfoldable pub kws_search_seg_iter : KwsSearch → Option (List Detection)
unfolding settled
kws_search_seg_iter s = elim (settled s.detections (s.frame -ℤ s.delay)) [
  | [] ↦ none
  | d ∷ ds ↦ some (reverse (d ∷ ds))
]

-- The text of `kws_search_get_keyphrases`, one phrase a line. `none` stands for the write before the
-- start of the text where there is no phrase; else the last newline becomes the NUL.
unfoldable pub lines : List Keyphrase → List ℕ
lines [] = []
lines (k ∷ ks) = k.word ++ (b'\n' ∷ lines ks)

unfoldable pub kws_search_get_keyphrases : KwsSearch → Option (List ℕ)
unfolding lines drop_last
kws_search_get_keyphrases s = elim s.keyphrases [
  | [] ↦ none
  | k ∷ ks ↦ some (drop_last (lines (k ∷ ks)))
]
