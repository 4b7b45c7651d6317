-- ===== src/Kws/Search/Detected.antt =====
-- What spotting adds to the detections.
use pocketsphinx.Base.{
  ℕ, ◌⊎◌, inl, inr, Bool, Option, none, some, List, [], ◌∷◌, All, All-imp, ℤ, pos, negsuc, ◌+ℤ◌,
  ◌≤ℤ◌, ltb_ℤ, arith, int_laws, if◌then◌else◌, Bool-cases,
}
use pocketsphinx.Hmm.{Hmm}
use pocketsphinx.Kws.{Detection, overlaps, improve, merge, kws_detections_add}
use pocketsphinx.Kws.Search.{Keyphrase, KwsSearch, last_hmm, is_spotted, detection, spot}
use pocketsphinx.Kws.Search.Frames.{Tracks, Maybe, last_hmm-Maybe}

-- A detection of one of the phrases, which starts at -1 at the earliest, and no later than its end or
-- than `b`, and ends before frame `f`.
abbrev pub IsTimed : (List ℕ → Type 0) → (b f : ℤ) → Detection → Type 0
IsTimed W b f d =
    W d.keyphrase
    × (negsuc 0 ≤ℤ d.sf)
    × ((d.sf ≤ℤ d.ef) ⊎ (d.sf ≤ℤ b))
    × (pos 0 ≤ℤ d.ef)
    × (d.ef +ℤ pos 1 ≤ℤ f)

abbrev pub Phrase : (List ℕ → Type 0) → (b f : ℤ) → Keyphrase → Type 0
Phrase W b f k = W k.word × Tracks b f k.hmms

-- The histories reach up to frame `f` or to `b`, and the detections end before frame `g`.
pub record IsSound (W : List ℕ → Type 0) (b f g : ℤ) (s : KwsSearch) : Type 0 where
  pub loop : Tracks b f s.pl_hmms
  pub phrases : All (Phrase W b f) s.keyphrases
  pub timed : All (IsTimed W b g) s.detections
  pub now : pos 0 ≤ℤ s.frame

module _ (strcmp_equal : List ℕ → List ℕ → Bool) (W : List ℕ → Type 0) (b : ℤ) where
  improve-IsTimed :
      (g : ℤ) (d new : Detection)
      → IsTimed W b g d
      → IsTimed W b g new
      → IsTimed W b g (improve strcmp_equal d new)
  unfolding improve
  improve-IsTimed g d new p q = elim (Bool-cases (ltb_ℤ d.prob new.prob)) [
    | inl e ↦ let (w, _, _, _, _) = p in let (_, lo, hi, c, l) = q in simp e (w, lo, hi, c, l)
    | inr e ↦ simp e p
  ]

  Timed : ℤ → Option (List Detection) → Type 0
  Timed g none = Unit
  Timed g (some ds) = All (IsTimed W b g) ds

  after_head :
      (g : ℤ) (d : Detection) (o : Option (List Detection))
      → IsTimed W b g d
      → Timed g o
      → Timed g (elim o [ none ↦ none | some ds ↦ some (d ∷ ds) ])
  unfolding Timed
  after_head g d none p t = tt
  after_head g d (some ds) p t = (p, t)

  merge-Timed :
      (g : ℤ) (ds : List Detection) (new : Detection)
      → All (IsTimed W b g) ds
      → IsTimed W b g new
      → Timed g (merge strcmp_equal ds new)
  unfolding merge Timed
  merge-Timed g [] new t q = tt
  merge-Timed g (d ∷ ds) new t q = elim (Bool-cases (overlaps strcmp_equal d new)) [
    | inl e ↦ rw e (improve-IsTimed g d new t.0 q, t.1)
    | inr e ↦
        let rest = after_head g d (merge strcmp_equal ds new) t.0 (merge-Timed g ds new t.1 q) in
        rw e rest
  ]

  merged :
      (g : ℤ) (ds : List Detection) (new : Detection) (o : Option (List Detection))
      → All (IsTimed W b g) ds
      → IsTimed W b g new
      → Timed g o
      → All (IsTimed W b g) (elim o [ none ↦ new ∷ ds | some ds' ↦ ds' ])
  unfolding Timed
  merged g ds new none t q m = (q, t)
  merged g ds new (some ds') t q m = m

  add-IsTimed :
      (g : ℤ) (ds : List Detection) (new : Detection)
      → All (IsTimed W b g) ds
      → IsTimed W b g new
      → All (IsTimed W b g) (kws_detections_add strcmp_equal ds new)
  unfolding kws_detections_add
  add-IsTimed g ds new t q =
      merged g ds new (merge strcmp_equal ds new) t q (merge-Timed g ds new t q)

  spot_one :
      (frame : ℤ) (pl : Hmm) (k : Keyphrase) (o : Option Hmm) (ds : List Detection)
      → pos 0 ≤ℤ frame
      → W k.word
      → Maybe b frame o
      → All (IsTimed W b (frame +ℤ pos 1)) ds
      → All (IsTimed W b (frame +ℤ pos 1)) (elim o [
        | none ↦ ds
        | some h ↦
            if is_spotted pl k h
            then kws_detections_add strcmp_equal ds (detection pl frame k h)
            else ds
      ])
  spot_one frame pl k none ds z w m t = t
  spot_one frame pl k (some h) ds z w m t = elim (Bool-cases (is_spotted pl k h)) [
    | inl e ↦
        let (lo, hi) = m.out in
        rw e
          (add-IsTimed (frame +ℤ pos 1) ds (detection pl frame k h) t (w, lo, hi, z, omega arith))
    | inr e ↦ rw e t
  ]

  pub spot-IsTimed :
      (frame : ℤ) (pl : Hmm) (ks : List Keyphrase) (ds : List Detection)
      → pos 0 ≤ℤ frame
      → All (Phrase W b frame) ks
      → All (IsTimed W b (frame +ℤ pos 1)) ds
      → All (IsTimed W b (frame +ℤ pos 1)) (spot strcmp_equal pl frame ks ds)
  unfolding spot
  spot-IsTimed frame pl [] ds z p t = t
  spot-IsTimed frame pl (k ∷ ks) ds z p t =
      spot-IsTimed frame pl ks _ z p.1
        (spot_one frame pl k (last_hmm k.hmms) ds z p.0.0 (last_hmm-Maybe b frame k.hmms p.0.1) t)

  pub later :
      (g : ℤ) (ds : List Detection) → All (IsTimed W b g) ds → All (IsTimed W b (g +ℤ pos 1)) ds
  later g ds =
      All-imp (IsTimed W b g) (IsTimed W b (g +ℤ pos 1)) ds
        (λ d t. let (w, lo, hi, c, e) = t in (w, lo, hi, c, omega int_laws))
