-- ===== src/Tests/KwsSearch.antt =====
-- Frames of a small key phrase search.
use pocketsphinx.Base.{
  ℕ, suc, ◌<◌, ◌≡◌, refl, ap₂, inl, true, false, none, some, ◌==◌, ==_iff, List, [], ◌∷◌, All, ℤ,
  pos, negsuc, ◌+ℤ◌, ◌-ℤ◌, arith, ltb, if◌then◌else◌,
}
use mathlib.Core.List.Memᴰ
use pocketsphinx.Hmm.{Hmm, hmm_init}
use pocketsphinx.Hmm.Histories.{Histories, hmm_init-Histories}
use pocketsphinx.Acmod.Writing.{cursor}
use pocketsphinx.Kws.Search.{
  Keyphrase, KwsSearch, detection, kws_search_start, kws_search_step, last_hmm, kws_search_seg_iter,
}
use pocketsphinx.Kws.Search.Frames.{Within}
use pocketsphinx.Kws.Search.Detected.{IsTimed}
use pocketsphinx.Kws.Search.Timed.{steps, detections-IsTimed}
use pocketsphinx.Kws.Search.Agree.{forget}
use pocketsphinx.Kws.Search.Senones.{step_agree}
use pocketsphinx.Kws.Search.Spotted.{Has, before_trans, spotted_stays}
use pocketsphinx.Tests.Kws.{same_chars}
use pocketsphinx.Tests.Acmod.{context, phone, model}

abbrev word : List ℕ
word = b'o' ∷ b'k' ∷ []

-- The last HMM of the phrase, with an exit score of -3, and a phone with one of -5.
abbrev ending : Hmm
ending = record phone { out_score = negsuc 2; out_history = pos 0; frame = pos 1 }

abbrev loop_phone : Hmm
loop_phone = record phone { out_score = negsuc 4 }

abbrev phrase : Keyphrase
phrase = record { word = word; threshold = pos 0; hmms = phone ∷ ending ∷ [] }

abbrev search_ok : KwsSearch
search_ok = record {
  hmmctx = context;
  keyphrases = phrase ∷ [];
  detections = [];
  frame = pos 0;
  beam = negsuc 9999;
  plp = negsuc 9;
  bestscore = pos 0;
  delay = pos 10;
  pl_hmms = loop_phone ∷ [];
  n_tot_frame = pos 0;
}

abbrev by_number : (ℕ → ℕ) → ℕ → ℕ → ℤ
by_number arr n s = pos s

-- A model that gives other scores where nothing is listed.
abbrev or_nothing : (ℕ → ℕ) → ℕ → ℕ → ℤ
or_nothing arr n s = if n == 0 then pos 1 else pos s

-- HMMs as they are made for a search: initialised in memory that holds zeros.
abbrev zeroed : Hmm
zeroed = record phone {
  score = λ i. pos 0;
  history = λ i. pos 0;
  out_score = pos 0;
  out_history = pos 0;
  senid = λ i. 0;
  bestscore = pos 0;
  n_emit_state = 0;
}

abbrev new_hmm : Hmm
new_hmm = hmm_init context zeroed false 7 0

abbrev search_new : KwsSearch
search_new = record search_ok {
  keyphrases = record phrase { hmms = new_hmm ∷ new_hmm ∷ [] } ∷ [];
  pl_hmms = new_hmm ∷ [];
}

zeroed-Histories : Histories (Within (pos 0) (pos 0)) zeroed
zeroed-Histories = record {
  states = λ i. (omega arith, inl (omega arith));
  out = (omega arith, inl (omega arith));
}

new_hmm-Histories : Histories (Within (pos 0) (pos 0)) new_hmm
new_hmm-Histories =
    hmm_init-Histories (Within (pos 0) (pos 0)) context zeroed false 7 0 zeroed-Histories
      (omega arith, inl (omega arith))

detections-IsTimed_example :
    let t =
      (steps same_chars (by_number ∷ or_nothing ∷ []) (kws_search_start search_new, model)).0 in
    All (IsTimed (λ w. w ≡ word) (pos 0) t.frame) t.detections
detections-IsTimed_example =
    detections-IsTimed same_chars (λ w. w ≡ word) (pos 0) (by_number ∷ or_nothing ∷ []) search_new
      model ((refl, (new_hmm-Histories, (new_hmm-Histories, tt))), tt) (new_hmm-Histories, tt)

phone_senones : (i : ℕ) → (if ltb i 1 then 33 else 34) < 320
phone_senones i = ground arith

same_where_listed :
    (arr : ℕ → ℕ) (n i : ℕ)
    → i < n
    → by_number arr n (cursor arr (suc i)) ≡ or_nothing arr n (cursor arr (suc i))
same_where_listed arr n i h = ground arith

step_agree_example :
    let r = kws_search_step same_chars by_number (search_ok, model) in
    let r' = kws_search_step same_chars or_nothing (search_ok, model) in
    (forget r.0 ≡ forget r'.0) × (r.1 ≡ r'.1)
step_agree_example =
    step_agree same_chars by_number or_nothing search_ok model refl
      (record { plain = refl; senones = λ i lt. phone_senones i }, tt)
      (
        (
          record { plain = refl; senones = λ i lt. phone_senones i },
          (record { plain = refl; senones = λ i lt. phone_senones i }, tt),
        ),
        tt,
      )
      same_where_listed

same_chars-eq : (x y : List ℕ) → same_chars x y ≡ true → x ≡ y
same_chars-eq [] [] h = refl
same_chars-eq [] (b ∷ y) h = absurd (ground arith)
same_chars-eq (a ∷ x) [] h = absurd (ground arith)
same_chars-eq (a ∷ x) (b ∷ y) h =
    let head : a == b ≡ true = ground arith in
    let tail : same_chars x y ≡ true = ground arith in
    ap₂ (λ c l. c ∷ l) ((==_iff a b).0 head) (same_chars-eq x y tail)

-- The state of the search before the transitions of a frame.
abbrev evaluated : KwsSearch
evaluated = before_trans search_ok model by_number

abbrev hmm_or : List Hmm → Hmm
hmm_or [] = phone
hmm_or (h ∷ hs) = h

abbrev phrase_or : List Keyphrase → Keyphrase
phrase_or [] = phrase
phrase_or (k ∷ ks) = k

abbrev last_or : List Hmm → Hmm
last_or hs = elim (last_hmm hs) [ none ↦ phone | some h ↦ h ]

abbrev best_phone : Hmm
best_phone = hmm_or evaluated.pl_hmms

abbrev heard_phrase : Keyphrase
heard_phrase = phrase_or evaluated.keyphrases

abbrev heard_hmm : Hmm
heard_hmm = last_or heard_phrase.hmms

spotted_stays_example :
    Has heard_phrase.word
      (detection best_phone (pos 0) heard_phrase heard_hmm).prob
      (steps same_chars (by_number ∷ by_number ∷ []) (search_ok, model)).0.detections
unfolding pocketsphinx.Kws.Search.best_exit pocketsphinx.Kws.Search.kws_search_hmm_prune
    pocketsphinx.Kws.Search.kws_search_hmm_eval pocketsphinx.Kws.Search.eval_all
    pocketsphinx.Kws.Search.eval_keyphrases pocketsphinx.Kws.Search.eval_active
    pocketsphinx.Kws.Search.prune_hmm ◌-ℤ◌ ◌+ℤ◌ pocketsphinx.Hmm.Eval.hmm_vit_eval_3st_lr
    pocketsphinx.Hmm.Eval.sweep3 pocketsphinx.Hmm.choose2 pocketsphinx.Hmm.choose3
spotted_stays_example =
    spotted_stays same_chars same_chars-eq search_ok model by_number (by_number ∷ []) best_phone
      heard_phrase heard_hmm refl (Memᴰ.head refl) refl refl

-- A search that has heard the phrase starts anew with its HMMs as they were.
not_reset : (kws_search_start search_ok).keyphrases ≡ search_ok.keyphrases
unfolding kws_search_start
not_reset = refl
