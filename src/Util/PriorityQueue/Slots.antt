-- ===== src/Util/PriorityQueue/Slots.antt =====
-- The slots of the queue: how many are taken, and how often a pointer stands in them.
use pocketsphinx.Base.{
  ℕ, suc, ◌+◌, ◌≡◌, ◌<◌, ◌≤◌, refl, ap, Option, none, some, List, [], ◌∷◌, ◌==◌, arith,
  if◌then◌else◌, length,
}
use pocketsphinx.Util.PriorityQueue.{clear_slot, fill_slot}

-- How many slots are taken, and how many hold `m`.
abbrev pub taken : List (Option ℕ) → ℕ
taken [] = 0
taken (none ∷ ps) = taken ps
taken (some p ∷ ps) = 1 + taken ps

abbrev pub times : ℕ → List (Option ℕ) → ℕ
times m [] = 0
times m (none ∷ ps) = times m ps
times m (some p ∷ ps) = (if p == m then 1 else 0) + times m ps

pub length-clear : (ps : List (Option ℕ)) (m : ℕ) → length (clear_slot ps m) ≡ length ps
unfolding clear_slot
length-clear [] m = refl
length-clear (none ∷ ps) m = ap suc (length-clear ps m)
length-clear (some p ∷ ps) m = ground (arith, length-clear ps m)

pub length-fill : (ps : List (Option ℕ)) (x : ℕ) → length (fill_slot ps x) ≡ length ps
unfolding fill_slot
length-fill [] x = refl
length-fill (none ∷ ps) x = refl
length-fill (some p ∷ ps) x = ap suc (length-fill ps x)

pub taken-le : (ps : List (Option ℕ)) → taken ps ≤ length ps
taken-le [] = omega arith
taken-le (none ∷ ps) = omega (arith, taken-le ps)
taken-le (some p ∷ ps) = omega (arith, taken-le ps)

pub taken-clear :
    (ps : List (Option ℕ)) (m : ℕ) → 0 < times m ps → taken (clear_slot ps m) + 1 ≡ taken ps
unfolding clear_slot
taken-clear [] m h = absurd (omega arith)
taken-clear (none ∷ ps) m h = taken-clear ps m h
taken-clear (some p ∷ ps) m h = ground (arith, taken-clear ps m)

pub times-clear :
    (ps : List (Option ℕ)) (m k : ℕ)
    → 0 < times m ps
    → times k (clear_slot ps m) + (if k == m then 1 else 0) ≡ times k ps
unfolding clear_slot
times-clear [] m k h = absurd (omega arith)
times-clear (none ∷ ps) m k h = times-clear ps m k h
times-clear (some p ∷ ps) m k h = ground (arith, times-clear ps m k)

pub taken-fill :
    (ps : List (Option ℕ)) (x : ℕ) → taken ps < length ps → taken (fill_slot ps x) ≡ taken ps + 1
unfolding fill_slot
taken-fill [] x h = absurd (omega arith)
taken-fill (none ∷ ps) x h = omega arith
taken-fill (some p ∷ ps) x h = omega (arith, taken-fill ps x (omega arith))

pub times-fill :
    (ps : List (Option ℕ)) (x k : ℕ)
    → taken ps < length ps
    → times k (fill_slot ps x) ≡ times k ps + (if k == x then 1 else 0)
unfolding fill_slot
times-fill [] x k h = absurd (omega arith)
times-fill (none ∷ ps) x k h = ground arith
times-fill (some p ∷ ps) x k h = ground (arith, times-fill ps x k)
