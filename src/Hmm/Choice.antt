-- ===== src/Hmm/Choice.antt =====
-- What the comparisons of a step choose, against a list of candidates.
use pocketsphinx.Base.{
  ℕ, ◌-◌, ◌≤◌, ◌≡◌, refl, sym, subst, ◌⊎◌, inl, inr, Bool, true, false, List, [], ◌∷◌, ℤ, ◌≤ℤ◌,
  arith, Bool-cases, if◌then◌else◌,
}
use pocketsphinx.Hmm.Eval.{begin}
use pocketsphinx.Hmm.{
  Hmm, Progress, leave, arrive_from, better, floor, worst_score, choose2, choose3,
}

-- A score with the state that it comes from.
abbrev pub Candidates : Type 0
Candidates = List (ℤ × ℕ)

abbrev pub Among : ℤ → ℕ → Candidates → Type 0
Among v i [] = ⊥
Among v i ((w, k) ∷ cs) = ((v ≡ w) × (i ≡ k)) ⊎ Among v i cs

abbrev pub NoneBetter : ℤ → Candidates → Type 0
NoneBetter v [] = Unit
NoneBetter v ((w, k) ∷ cs) = (w ≤ℤ v) × NoneBetter v cs

abbrev pub IsBest : Candidates → ℤ → ℕ → Type 0
IsBest cs v i = Among v i cs × NoneBetter v cs

pub choose2-IsBest :
    (t₀ t₁ : ℤ) (to : ℕ)
    → let c = choose2 t₀ t₁ in IsBest ((t₀, to) ∷ (t₁, to - 1) ∷ []) c.0 (to - c.1) × (c.1 ≤ 1)
unfolding choose2
choose2-IsBest t₀ t₁ to = ground arith

pub choose3-IsBest :
    (t₀ t₁ t₂ : ℤ) (to : ℕ)
    → let c = choose3 t₀ t₁ t₂ in
      IsBest ((t₀, to) ∷ (t₁, to - 1) ∷ (t₂, to - 2) ∷ []) c.0 (to - c.1) × (c.1 ≤ 2)
unfolding choose3
choose3-IsBest t₀ t₁ t₂ to = ground arith

pub floor_bounds : (s : ℤ) → (worst_score ≤ℤ floor s) × (s ≤ℤ floor s)
floor_bounds s = ground arith

-- A state takes the best of some candidates: their score, floored, and the history of the state that
-- it comes from.
abbrev pub Takes : (ℕ → ℤ) → Candidates → ℤ → ℤ → Type 0
Takes history cs score hist =
    (v : ℤ) × (i : ℕ) × IsBest cs v i × (score ≡ floor v) × (hist ≡ history i)

-- The same for a state that is updated only under a condition.
abbrev pub TakesIf : Bool → (ℕ → ℤ) → Candidates → ℤ → ℤ → ℤ → ℤ → Type 0
TakesIf b history cs score hist old_score old_hist =
    ((b ≡ true) × Takes history cs score hist)
    ⊎ ((b ≡ false) × (score ≡ old_score) × (hist ≡ old_hist))

pub takes_if :
    (b : Bool) (history : ℕ → ℤ) (cs : Candidates) (v : ℤ) (i : ℕ)
    (score hist old_score old_hist : ℤ)
    → IsBest cs v i
    → score ≡ (if b then floor v else old_score)
    → hist ≡ (if b then history i else old_hist)
    → TakesIf b history cs score hist old_score old_hist
takes_if true history cs v i score hist old_score old_hist best s h = inl (refl, (v, i, best, s, h))
takes_if false history cs v i score hist old_score old_hist best s h = inr (refl, s, h)

abbrev pub Above : ℤ → List ℤ → Type 0
Above best [] = worst_score ≤ℤ best
Above best (s ∷ ss) = (s ≤ℤ best) × Above best ss

abbrev pub Attained : ℤ → List ℤ → Type 0
Attained best [] = best ≡ worst_score
Attained best (s ∷ ss) = (best ≡ s) ⊎ Attained best ss

-- The greatest of some scores and the worst one.
pub record IsTop (best : ℤ) (ss : List ℤ) : Type 0 where
  pub above : Above best ss
  pub attained : Attained best ss

Above-weaken : (a b : ℤ) (ss : List ℤ) → a ≤ℤ b → Above a ss → Above b ss
Above-weaken a b [] h w = omega arith
Above-weaken a b (s ∷ ss) h w = (omega arith, Above-weaken a b ss h w.1)

Above-worst : (best : ℤ) (ss : List ℤ) → Above best ss → worst_score ≤ℤ best
Above-worst best [] a = a
Above-worst best (s ∷ ss) a = Above-worst best ss a.1

-- The running maximum.
IsTop-raise :
    (s best : ℤ) (ss : List ℤ) → IsTop best ss → IsTop (if better s best then s else best) (s ∷ ss)
IsTop-raise s best ss t = elim (Bool-cases (better s best)) [
  | inl e ↦
      subst (λ b. IsTop (if b then s else best) (s ∷ ss)) (sym e)
        (record {
          above = (omega arith, Above-weaken best s ss (ground arith) t.above);
          attained = inl refl;
        })
  | inr e ↦
      subst (λ b. IsTop (if b then s else best) (s ∷ ss)) (sym e)
        (record { above = (ground arith, t.above); attained = inr t.attained })
]

pub IsTop-arrive :
    (b : Bool) (p : Progress) (to : ℕ) (c : ℤ × ℕ) (ss : List ℤ)
    → IsTop p.best ss
    → IsTop (if b then arrive_from p to c else p).best ((if b then floor c.0 else worst_score) ∷ ss)
unfolding arrive_from
IsTop-arrive true p to c ss t = IsTop-raise (floor c.0) p.best ss t
IsTop-arrive false p to c ss t = record {
  above = (Above-worst p.best ss t.above, t.above);
  attained = inr t.attained;
}

pub IsTop-leave :
    (b : Bool) (h : Hmm) (last : ℕ) (c : ℤ × ℕ)
    → IsTop
        (if b then leave (begin h) last c else begin h).best
        ((if b then floor c.0 else worst_score) ∷ [])
unfolding leave
IsTop-leave true h last c = record {
  above = (omega arith, (floor_bounds c.0).0);
  attained = inl refl;
}
IsTop-leave false h last c = record { above = (omega arith, omega arith); attained = inl refl }
