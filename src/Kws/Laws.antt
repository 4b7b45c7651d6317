-- ===== src/Kws/Laws.antt =====
-- What adding a detection does to the probabilities of the detections.
use pocketsphinx.Base.{
  ℕ, ◌≡◌, refl, ◌⊎◌, inl, inr, Bool, true, false, ◌||◌, Option, none, some, List, [], ◌∷◌, ltb_ℤ,
  ◌≤ℤ◌, arith, if◌then◌else◌, Bool-cases,
}
use pocketsphinx.Kws.{Detection, overlaps, improve, merge, kws_detections_add}

-- Place by place the same phrases, none with a lower probability.
abbrev pub NoWorse : List Detection → List Detection → Type 0
NoWorse [] [] = Unit
NoWorse [] (y ∷ ys) = ⊥
NoWorse (x ∷ xs) [] = ⊥
NoWorse (x ∷ xs) (y ∷ ys) = (x.keyphrase ≡ y.keyphrase) × (x.prob ≤ℤ y.prob) × NoWorse xs ys

NoWorse-refl : (ds : List Detection) → NoWorse ds ds
NoWorse-refl [] = tt
NoWorse-refl (d ∷ ds) = (refl, omega arith, NoWorse-refl ds)

module _ (strcmp_equal : List ℕ → List ℕ → Bool) where
  -- A detection of the list overlaps the new one.
  abbrev pub heard : List Detection → Detection → Bool
  heard [] new = false
  heard (d ∷ ds) new = overlaps strcmp_equal d new || heard ds new

  -- A detection of the list overlaps the new one, and the first such has become at least as probable.
  abbrev pub Covers : List Detection → List Detection → Detection → Type 0
  Covers [] ys new = ⊥
  Covers (x ∷ xs) [] new = ⊥
  Covers (x ∷ xs) (y ∷ ys) new =
      if overlaps strcmp_equal x new then new.prob ≤ℤ y.prob else Covers xs ys new

  improve_lem :
      (d new : Detection)
      → let d' = improve strcmp_equal d new in
        (d.keyphrase ≡ d'.keyphrase) × (d.prob ≤ℤ d'.prob) × (new.prob ≤ℤ d'.prob)
  unfolding improve
  improve_lem d new = elim (Bool-cases (ltb_ℤ d.prob new.prob)) [
    | inl e ↦ rw e (refl, ground arith, omega arith)
    | inr e ↦ rw e (refl, omega arith, ground arith)
  ]

  Merged : List Detection → Detection → Option (List Detection) → Type 0
  Merged ds new none = heard ds new ≡ false
  Merged ds new (some ys) = (heard ds new ≡ true) × NoWorse ds ys × Covers ds ys new

  below_head :
      (d : Detection) (ds : List Detection) (new : Detection) (o : Option (List Detection))
      → overlaps strcmp_equal d new ≡ false
      → Merged ds new o
      → Merged (d ∷ ds) new (elim o [ none ↦ none | some ys ↦ some (d ∷ ys) ])
  unfolding Merged
  below_head d ds new none e m = rw e m
  below_head d ds new (some ys) e m = rw e (m.0, (refl, omega arith, m.1), m.2)

  at_head :
      (d : Detection) (ds : List Detection) (new : Detection)
      → overlaps strcmp_equal d new ≡ true
      → Merged (d ∷ ds) new (some (improve strcmp_equal d new ∷ ds))
  unfolding Merged
  at_head d ds new e =
      let (phrase, kept, least) = improve_lem d new in
      let is_heard : heard (d ∷ ds) new ≡ true = rw e in
      let covered : Covers (d ∷ ds) (improve strcmp_equal d new ∷ ds) new = rw e least in
      (is_heard, (phrase, kept, NoWorse-refl ds), covered)

  merge-Merged : (ds : List Detection) (new : Detection) → Merged ds new (merge strcmp_equal ds new)
  unfolding merge Merged
  merge-Merged [] new = refl
  merge-Merged (d ∷ ds) new = elim (Bool-cases (overlaps strcmp_equal d new)) [
    | inl e ↦ rw e (at_head d ds new e)
    | inr e ↦
        let below = below_head d ds new (merge strcmp_equal ds new) e (merge-Merged ds new) in
        rw e below
  ]

  added :
      (ds : List Detection) (new : Detection) (o : Option (List Detection))
      → Merged ds new o
      → let ys : List Detection = elim o [ none ↦ new ∷ ds | some ds' ↦ ds' ] in
        ((heard ds new ≡ false) × (ys ≡ new ∷ ds))
        ⊎ ((heard ds new ≡ true) × NoWorse ds ys × Covers ds ys new)
  unfolding Merged
  added ds new none m = inl (m, refl)
  added ds new (some ys) m = inr m

  pub add-Covers :
      (ds : List Detection) (new : Detection)
      → ((heard ds new ≡ false) × (kws_detections_add strcmp_equal ds new ≡ new ∷ ds))
        ⊎ ((heard ds new ≡ true)
            × NoWorse ds (kws_detections_add strcmp_equal ds new)
            × Covers ds (kws_detections_add strcmp_equal ds new) new)
  unfolding kws_detections_add
  add-Covers ds new = added ds new (merge strcmp_equal ds new) (merge-Merged ds new)
