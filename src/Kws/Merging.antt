-- ===== src/Kws/Merging.antt =====
-- Exactly which list `kws_detections_add` gives.
use pocketsphinx.Base.{
  ℕ, ◌≡◌, refl, ap, ◌⊎◌, inl, inr, Bool, true, false, Option, none, some, List, [], ◌∷◌, ◌++◌, All,
  ℤ, ◌≤ℤ◌, ltb_ℤ, arith, Bool-cases,
}
use pocketsphinx.Kws.{Detection, overlaps, improve, merge, kws_detections_add}

infix 50 ◌<ℤ◌
abbrev pub ◌<ℤ◌ : ℤ → ℤ → Type 0
a <ℤ b = ¬ (b ≤ℤ a)

module _ (strcmp_equal : List ℕ → List ℕ → Bool) where
  -- The same phrase, each started before the other ended.
  abbrev pub Overlaps : Detection → Detection → Type 0
  Overlaps d new =
      (strcmp_equal new.keyphrase d.keyphrase ≡ true) × (d.sf <ℤ new.ef) × (new.sf <ℤ d.ef)

  -- What a detection `d` becomes where `new` overlaps it: all of `new` if that is more probable.
  abbrev pub Improved : Detection → Detection → Detection → Type 0
  Improved d new d' =
      ((new.prob ≤ℤ d.prob) × (d' ≡ d))
      ⊎ ((d.prob <ℤ new.prob)
          × (d' ≡ record {
            keyphrase = d.keyphrase;
            sf = new.sf;
            ef = new.ef;
            prob = new.prob;
            ascr = new.ascr;
          }))

  -- The first detection that overlaps is improved, and the others stay as they are.
  pub record Merges (ds : List Detection) (new : Detection) (ys : List Detection) : Type 0 where
    pub before : List Detection
    pub old : Detection
    pub better : Detection
    pub behind : List Detection
    pub split : ds ≡ before ++ old ∷ behind
    pub passed : All (λ d. ¬ (Overlaps d new)) before
    pub overlap : Overlaps old new
    pub improved : Improved old new better
    pub result : ys ≡ before ++ better ∷ behind

  overlaps-true : (d new : Detection) → overlaps strcmp_equal d new ≡ true → Overlaps d new
  unfolding overlaps
  overlaps-true d new e = (ground arith, ground arith, ground arith)

  overlaps-false : (d new : Detection) → overlaps strcmp_equal d new ≡ false → ¬ (Overlaps d new)
  unfolding overlaps
  overlaps-false d new e (same, sf, ef) = ground arith

  improve-Improved : (d new : Detection) → Improved d new (improve strcmp_equal d new)
  unfolding improve
  improve-Improved d new = elim (Bool-cases (ltb_ℤ d.prob new.prob)) [
    | inl e ↦ inr (ground arith, rw e refl)
    | inr e ↦ inl (ground arith, rw e refl)
  ]

  Found : List Detection → Detection → Option (List Detection) → Type 0
  Found ds new none = All (λ d. ¬ (Overlaps d new)) ds
  Found ds new (some ys) = Merges ds new ys

  below_head :
      (d : Detection) (ds : List Detection) (new : Detection) (o : Option (List Detection))
      → ¬ (Overlaps d new)
      → Found ds new o
      → Found (d ∷ ds) new (elim o [ none ↦ none | some ys ↦ some (d ∷ ys) ])
  unfolding Found
  below_head d ds new none e m = (e, m)
  below_head d ds new (some ys) e m = record {
    before = d ∷ m.before;
    old = m.old;
    better = m.better;
    behind = m.behind;
    split = ap (λ xs. d ∷ xs) m.split;
    passed = (e, m.passed);
    overlap = m.overlap;
    improved = m.improved;
    result = ap (λ xs. d ∷ xs) m.result;
  }

  at_head :
      (d : Detection) (ds : List Detection) (new : Detection)
      → Overlaps d new
      → Merges (d ∷ ds) new (improve strcmp_equal d new ∷ ds)
  at_head d ds new e = record {
    before = [];
    old = d;
    better = improve strcmp_equal d new;
    behind = ds;
    split = refl;
    passed = tt;
    overlap = e;
    improved = improve-Improved d new;
    result = refl;
  }

  merge-Found : (ds : List Detection) (new : Detection) → Found ds new (merge strcmp_equal ds new)
  unfolding merge Found
  merge-Found [] new = tt
  merge-Found (d ∷ ds) new = elim (Bool-cases (overlaps strcmp_equal d new)) [
    | inl e ↦ rw e (at_head d ds new (overlaps-true d new e))
    | inr e ↦
        let m = merge-Found ds new in
        let below = below_head d ds new (merge strcmp_equal ds new) (overlaps-false d new e) m in
        rw e below
  ]

  added :
      (ds : List Detection) (new : Detection) (o : Option (List Detection))
      → Found ds new o
      → let ys : List Detection = elim o [ none ↦ new ∷ ds | some ds' ↦ ds' ] in
        (All (λ d. ¬ (Overlaps d new)) ds × (ys ≡ new ∷ ds)) ⊎ Merges ds new ys
  unfolding Found
  added ds new none m = inl (m, refl)
  added ds new (some ys) m = inr m

  -- Adding a detection that overlaps none of the list puts it in front. Else the first that it
  -- overlaps, which has the same phrase and frames in common with it, keeps its place and phrase: it
  -- takes the frames, probability and score of the new one if that is more probable and stays as it is
  -- if not. All other detections, those that also overlap included, stay as they are.
  pub kws_detections_add_lem :
      (ds : List Detection) (new : Detection)
      → let ys = kws_detections_add strcmp_equal ds new in
        (All (λ d. ¬ (Overlaps d new)) ds × (ys ≡ new ∷ ds)) ⊎ Merges ds new ys
  unfolding kws_detections_add
  kws_detections_add_lem ds new = added ds new (merge strcmp_equal ds new) (merge-Found ds new)
