-- ===== src/Acmod.antt =====
-- src/acmod.c: which senones the searches want scored in a frame.
--
-- The searches set flags in a bit vector; `acmod_flags2list` turns it into a list of differences of 8
-- bits each, which the scoring functions follow. The arrays are functions from the index; writes past
-- their end are ruled out by a theorem. The scores themselves come from floating point code, and are
-- an argument. `acmod_best_score` leaves its result alone if no score is below the dummy.
pub mod Writing
pub mod Flags
pub mod Activate
pub mod Best
use pocketsphinx.Base.{
  update, ℕ, zero, suc, ◌+◌, ◌-◌, ◌*◌, ◌/◌, ◌%◌, Bool, true, false, not, Option, none, some, ℤ, pos,
  ltb_ℤ, ltb, ◌==◌, if◌then◌else◌,
}
use pocketsphinx.Hmm.{Context, Hmm, bad_ssid}
use pocketsphinx.Util.Bitvec.{bitvec_bits, has_bit, bitvec_set, bitvec_clear_all}

-- The fields of `acmod_t` that belong to it; `n_sen` is `bin_mdef_n_sen(acmod->mdef)`.
pub record Acmod : Type 0 where
  pub compallsen : Bool
  pub n_sen : ℕ
  pub senone_active_vec : ℕ → ℕ
  pub senone_active : ℕ → ℕ
  pub n_senone_active : ℕ

unfoldable pub acmod_clear_active : Acmod → Acmod
unfolding bitvec_clear_all
acmod_clear_active a = if a.compallsen then a else record a {
  senone_active_vec = bitvec_clear_all a.senone_active_vec a.n_sen;
  n_senone_active = 0;
}

-- `MPX_BITVEC_SET` and `NONMPX_BITVEC_SET` on the vector.
unfoldable pub set_state : Context → Hmm → ℕ → (ℕ → ℕ) → ℕ → ℕ
unfolding bitvec_set
set_state c h i v =
    if h.mpx
    then if h.senid i == bad_ssid then v else bitvec_set v (c.sseq (h.senid i) i)
    else bitvec_set v (h.senid i)

-- The loop of the default case, over `m` states from `i` on.
unfoldable pub set_states : Context → Hmm → (m i : ℕ) → (ℕ → ℕ) → ℕ → ℕ
unfolding set_state
set_states c h zero i v = v
set_states c h (suc m) i v = set_states c h m (i + 1) (set_state c h i v)

abbrev pub set_last_three : Context → Hmm → (ℕ → ℕ) → ℕ → ℕ
set_last_three c h v = set_state c h 0 (set_state c h 1 (set_state c h 2 v))

unfoldable pub acmod_activate_hmm : Context → Acmod → Hmm → Acmod
unfolding set_state set_states
acmod_activate_hmm c a h =
    let v = a.senone_active_vec in
    if a.compallsen then a else record a {
      senone_active_vec =
          if h.n_emit_state == 5
          then set_last_three c h (set_state c h 3 (set_state c h 4 v))
          else if h.n_emit_state == 3
          then set_last_three c h v
          else set_states c h h.n_emit_state 0 v;
    }

-- The list while it is written, with the last senone `l`.
pub record Deltas : Type 0 where
  pub senone_active : ℕ → ℕ
  pub n : ℕ
  pub l : ℕ

-- `acmod->senone_active[n++] = delta`; the entries are bytes.
unfoldable pub put : Deltas → ℕ → Deltas
put d delta = record d { senone_active = update d.senone_active d.n (delta % 256); n = suc d.n }

-- `while (delta > 255)`, and the write after it. On fuel, of which `delta` is enough.
unfoldable pub put_delta : ℕ → Deltas → ℕ → Deltas
unfolding put
put_delta zero d delta = put d delta
put_delta (suc fuel) d delta =
    let rest = put_delta fuel (put d 255) (delta - 255) in
    if ltb 255 delta then rest else put d delta

unfoldable pub put_senone : Deltas → ℕ → Deltas
unfolding put_delta
put_senone d sen = let delta = sen - d.l in record (put_delta delta d delta) { l = sen }

-- The loops over the `m` bits of a word from `b` on, and over `m` words from `w` on.
unfoldable pub flag_bits : (flags m w b : ℕ) → Deltas → Deltas
unfolding put_senone has_bit
flag_bits flags zero w b d = d
flag_bits flags (suc m) w b d =
    flag_bits flags m w (b + 1) (if has_bit flags b then put_senone d (w * bitvec_bits + b) else d)

unfoldable pub flag_words : (ℕ → ℕ) → (m w : ℕ) → Deltas → Deltas
unfolding flag_bits
flag_words v zero w d = d
flag_words v (suc m) w d =
    flag_words v m (w + 1) (if v w == 0 then d else flag_bits (v w) bitvec_bits w 0 d)

unfoldable pub acmod_flags2list : Acmod → Acmod × ℕ
unfolding flag_words flag_bits
acmod_flags2list a =
    if a.compallsen
    then (record a { n_senone_active = a.n_sen }, a.n_sen)
    else let v = a.senone_active_vec in
      let words = a.n_sen / bitvec_bits in
      let start : Deltas = record { senone_active = a.senone_active; n = 0; l = 0 } in
      let d = flag_bits (v words) (a.n_sen % bitvec_bits) words 0 (flag_words v words 0 start) in
      (record a { senone_active = d.senone_active; n_senone_active = d.n }, d.n)

-- `SENSCR_DUMMY`
abbrev pub senscr_dummy : ℤ
senscr_dummy = pos 0x7fff

-- The best score and its senone, `none` if `*out_best_senid` was not written.
abbrev pub Best : Type 0
Best = ℤ × Option ℕ

unfoldable pub take_better : Best → ℤ → ℕ → Best
take_better best score senid = if ltb_ℤ score best.0 then (score, some senid) else best

-- The loops over the senones, and over the entries of the list, `at` being the place of the pointer.
unfoldable pub best_all : (ℕ → ℤ) → (m i : ℕ) → Best → Best
unfolding take_better
best_all scores zero i best = best
best_all scores (suc m) i best = best_all scores m (i + 1) (take_better best (scores i) i)

unfoldable pub best_active : (ℕ → ℤ) → (ℕ → ℕ) → (m i at : ℕ) → Best → Best
unfolding take_better
best_active scores deltas zero i at best = best
best_active scores deltas (suc m) i at best =
    let at' = at + deltas i in
    best_active scores deltas m (i + 1) at' (take_better best (scores at') i)

unfoldable pub acmod_best_score : Acmod → (ℕ → ℤ) → Best
unfolding best_all best_active
acmod_best_score a scores =
    if a.compallsen
    then best_all scores a.n_sen 0 (senscr_dummy, none)
    else best_active scores a.senone_active a.n_senone_active 0 0 (senscr_dummy, none)
