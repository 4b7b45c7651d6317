-- ===== src/Kws.antt =====
-- src/kws_detections.c: the detections of key phrases, newest first. A phrase is its chars; frames,
-- scores and delays are integers.
pub mod Laws
pub mod Merging
pub mod Search
use pocketsphinx.Base.{
  ℕ, Bool, ◌&&◌, Option, none, some, List, [], ◌∷◌, ◌++◌, ℤ, ◌-ℤ◌, ltb_ℤ, if◌then◌else◌,
}
use mathlib.Core.List.{reverse}

pub record Detection : Type 0 where
  pub keyphrase : List ℕ
  pub sf : ℤ
  pub ef : ℤ
  pub prob : ℤ
  pub ascr : ℤ

unfoldable pub kws_detections_reset : List Detection → List Detection
kws_detections_reset ds = []

module _ (strcmp_equal : List ℕ → List ℕ → Bool) where
  -- The same phrase in frames that overlap.
  unfoldable pub overlaps : Detection → Detection → Bool
  overlaps det new =
      strcmp_equal new.keyphrase det.keyphrase && ltb_ℤ det.sf new.ef && ltb_ℤ new.sf det.ef

  -- The better of an old detection and a new one of its phrase.
  unfoldable pub improve : Detection → Detection → Detection
  improve det new =
      if ltb_ℤ det.prob new.prob
      then record det { sf = new.sf; ef = new.ef; prob = new.prob; ascr = new.ascr }
      else det

  -- The loop of `kws_detections_add`; `none` if no detection overlaps.
  unfoldable pub merge : List Detection → Detection → Option (List Detection)
  unfolding overlaps improve
  merge [] new = none
  merge (det ∷ ds) new =
      let rest = merge ds new in
      if overlaps det new
      then some (improve det new ∷ ds)
      else elim rest [ none ↦ none | some ds' ↦ some (det ∷ ds') ]

  unfoldable pub kws_detections_add : List Detection → Detection → List Detection
  unfolding merge
  kws_detections_add ds new = elim (merge ds new) [ none ↦ new ∷ ds | some ds' ↦ ds' ]

-- The phrases of the detections that ended before `limit`, each followed by a space.
unfoldable pub phrases : List Detection → ℤ → List ℕ
phrases [] limit = []
phrases (det ∷ ds) limit =
    if ltb_ℤ det.ef limit then det.keyphrase ++ (b' ' ∷ phrases ds limit) else phrases ds limit

-- The last space becomes the NUL.
unfoldable pub drop_last : List ℕ → List ℕ
drop_last [] = []
drop_last (c ∷ []) = []
drop_last (c ∷ c' ∷ cs) = c ∷ drop_last (c' ∷ cs)

-- `none` is NULL. The list is reversed for the loop and reversed back.
unfoldable pub kws_detections_hyp_str : List Detection → ℤ → ℤ → Option (List ℕ)
unfolding phrases drop_last
kws_detections_hyp_str ds frame delay =
    let text = phrases (reverse ds) (frame -ℤ delay) in
    elim text [ [] ↦ none | c ∷ cs ↦ some (drop_last (c ∷ cs)) ]
