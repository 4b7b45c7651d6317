-- ===== src/Alignment/Propagate.antt =====
-- Timing goes up from the states to the phones and words.
use pocketsphinx.Base.{
  ℕ, zero, suc, ◌≤◌, ◌<◌, ◌≡◌, ◌≢◌, refl, sym, subst, ap, ◌∙◌, inl, inr, Bool, true, false, Option,
  none, some, List, [], ◌∷◌, ℤ, pos, ◌+ℤ◌, ◌==◌, arith, int_laws, if◌then◌else◌, length, get_or,
  set, length-set, get_or-set_self, get_or-set_ne, All, All-imp, Bool-cases,
}
use native.Mathlib.Decide.{ℕ_discrete}
use pocketsphinx.Alignment.{
  Entry, Alignment, blank, is_last, reset, add_child, propagate_up, ps_alignment_propagate,
}

-- The children of parent k, in order.
abbrev pub children : ℕ → List Entry → List Entry
children k [] = []
children k (c ∷ cs) = let rest = children k cs in if c.parent == k then c ∷ rest else rest

abbrev pub total_duration : List Entry → ℤ
total_duration [] = pos 0
total_duration (c ∷ cs) = c.duration +ℤ total_duration cs

abbrev pub total_score : List Entry → ℤ
total_score [] = pos 0
total_score (c ∷ cs) = c.score +ℤ total_score cs

-- No parent comes before the parent of an entry before.
abbrev pub From : ℕ → List Entry → Type 0
From l [] = Unit
From l (c ∷ cs) = (l ≤ c.parent) × From c.parent cs

abbrev pub InOrder : List Entry → Type 0
InOrder cs = From 0 cs

-- What a parent becomes of its children, whether or not it is the last parent seen.
block : ℕ → List Entry → Bool → Entry → Entry
block k [] opened e = e
block k (c ∷ cs) opened e =
    let first = add_child c (if opened then e else reset c e) in
    if c.parent == k then block k cs true first else block k cs opened e

From-weaken : (l l' : ℕ) (cs : List Entry) → l' ≤ l → From l cs → From l' cs
From-weaken l l' [] h f = tt
From-weaken l l' (c ∷ cs) h f = (omega arith, f.1)

-- Past its children a parent stays.
block-past :
    (k l : ℕ) (cs : List Entry) (opened : Bool) (e : Entry)
    → k < l
    → From l cs
    → block k cs opened e ≡ e
unfolding block
block-past k l [] opened e lt f = refl
block-past k l (c ∷ cs) opened e lt f =
    let le = f.0 in
    let ne : (c.parent == k) ≡ false = ground arith in
    rw ne (block-past k c.parent cs opened e (omega arith) f.1)

abbrev StartsAt : Option ℕ → List Entry → Type 0
StartsAt none cs = From 0 cs
StartsAt (some l) cs = From l cs

other_open :
    (k : ℕ) (last : Option ℕ) (c : Entry) (cs : List Entry) (e : Entry)
    → c.parent ≢ k
    → StartsAt last (c ∷ cs)
    → block k cs false e ≡ block k cs (is_last last k) e
other_open k none c cs e ne f = refl
other_open k (some l) c cs e ne f = elim (ℕ_discrete l k) [
  | yes q ↦
      let le = f.0 in
      let past : k < c.parent = omega arith in
      block-past k c.parent cs false e past f.1 ∙ sym (block-past k c.parent cs (l == k) e past f.1)
  | no ne' ↦ let off : (l == k) ≡ false = ground arith in ap (λ b. block k cs b e) (sym off)
]

up-block :
    (cs ps : List Entry) (last : Option ℕ) (k : ℕ)
    → StartsAt last cs
    → All (λ c. c.parent < length ps) cs
    → get_or (propagate_up cs ps last) k blank ≡ block k cs (is_last last k) (get_or ps k blank)
unfolding propagate_up block
up-block [] ps last k f b = refl
up-block (c ∷ cs) ps last k f b =
    let at = c.parent in
    let p = get_or ps at blank in
    let p' : Entry = if is_last last at then p else reset c p in
    let ps' = set ps at (add_child c p') in
    let size = length-set ps at (add_child c p') in
    let inside =
      All-imp (λ c. c.parent < length ps) (λ c. c.parent < length ps') cs
        (λ c lt. subst (λ n. c.parent < n) (sym size) lt) b.1 in
    let ih = up-block cs ps' (some at) k (rest last f) inside in
    elim (ℕ_discrete at k) [
      | yes q ↦
          let on : (at == k) ≡ true = ground arith in
          let here : get_or ps' k blank ≡ add_child c p' =
            subst (λ x. get_or ps' x blank ≡ add_child c p') q
              (get_or-set_self ps at (add_child c p') blank b.0) in
          let same : p'
              ≡ (if is_last last k then get_or ps k blank else reset c (get_or ps k blank)) =
            ap (λ x. (if is_last last x then get_or ps x blank else reset c (get_or ps x blank)))
              q in
          rw on (
            ih
            ∙ ap (λ o. block k cs o (get_or ps' k blank)) on
            ∙ ap (block k cs true) (here ∙ ap (add_child c) same))
      | no ne ↦
          let off : (at == k) ≡ false = ground arith in
          let away : get_or ps' k blank ≡ get_or ps k blank =
            get_or-set_ne ps at k (add_child c p') blank (λ e. ne (sym e)) in
          rw off (
            ih
            ∙ ap (λ o. block k cs o (get_or ps' k blank)) off
            ∙ ap (block k cs false) away
            ∙ other_open k last c cs (get_or ps k blank) ne f)
    ]
  where
    rest : (last : Option ℕ) → StartsAt last (c ∷ cs) → From c.parent cs
    rest none f = f.1
    rest (some l) f = f.1

+ℤ_assoc : (a b c : ℤ) → a +ℤ b +ℤ c ≡ a +ℤ (b +ℤ c)
+ℤ_assoc a b c = omega int_laws

zero_+ℤ : (a : ℤ) → pos 0 +ℤ a ≡ a
zero_+ℤ a = omega int_laws

+ℤ_zero : (a : ℤ) → a +ℤ pos 0 ≡ a
+ℤ_zero a = omega int_laws

-- With the block open, the sums are added and the rest stays.
record Sums (cs : List Entry) (e e' : Entry) : Type 0 where
  start : e'.start ≡ e.start
  duration : e'.duration ≡ e.duration +ℤ total_duration cs
  score : e'.score ≡ e.score +ℤ total_score cs

open_block : (k : ℕ) (cs : List Entry) (e : Entry) → Sums (children k cs) e (block k cs true e)
unfolding block
open_block k [] e = record {
  start = refl;
  duration = sym (+ℤ_zero e.duration);
  score = sym (+ℤ_zero e.score);
}
open_block k (c ∷ cs) e = elim (Bool-cases (c.parent == k)) [
  | inl on ↦
      let s = open_block k cs (add_child c e) in
      let sums : Sums (c ∷ children k cs) e (block k cs true (add_child c e)) = record {
        start = s.start;
        duration = s.duration ∙ +ℤ_assoc e.duration c.duration (total_duration (children k cs));
        score = s.score ∙ +ℤ_assoc e.score c.score (total_score (children k cs));
      } in
      rw on sums
  | inr off ↦ rw off (open_block k cs e)
]

-- What a parent becomes: it takes the start of its first child and the sums of all, or stays as it is
-- without children. Its own links are kept.
abbrev pub Gathers : List Entry → Entry → Entry → Type 0
Gathers [] e e' = e' ≡ e
Gathers (c ∷ cs) e e' =
    (e'.start ≡ c.start)
    × (e'.duration ≡ total_duration (c ∷ cs))
    × (e'.score ≡ total_score (c ∷ cs))

closed_block :
    (k : ℕ) (cs : List Entry) (e : Entry) → Gathers (children k cs) e (block k cs false e)
unfolding block
closed_block k [] e = refl
closed_block k (c ∷ cs) e = elim (Bool-cases (c.parent == k)) [
  | inl on ↦
      let s = open_block k cs (add_child c (reset c e)) in
      let gathered : Gathers (c ∷ children k cs) e (block k cs true (add_child c (reset c e))) = (
        s.start,
        s.duration ∙ ap (λ x. x +ℤ total_duration (children k cs)) (zero_+ℤ c.duration),
        s.score ∙ ap (λ x. x +ℤ total_score (children k cs)) (zero_+ℤ c.score),
      ) in
      rw on gathered
  | inr off ↦ rw off (closed_block k cs e)
]

-- One pass, for children in the order of their parents.
up_lem :
    (cs ps : List Entry) (k : ℕ)
    → InOrder cs
    → All (λ c. c.parent < length ps) cs
    → Gathers (children k cs) (get_or ps k blank) (get_or (propagate_up cs ps none) k blank)
up_lem cs ps k f b =
    subst (Gathers (children k cs) (get_or ps k blank)) (sym (up-block cs ps none k f b))
      (closed_block k cs (get_or ps k blank))

-- The parents of the entries, which the passes do not change.
abbrev pub parents : List Entry → List ℕ
parents [] = []
parents (c ∷ cs) = c.parent ∷ parents cs

parents-set :
    (ps : List Entry) (i : ℕ) (e : Entry)
    → e.parent ≡ (get_or ps i blank).parent
    → parents (set ps i e) ≡ parents ps
parents-set [] i e h = refl
parents-set (p ∷ ps) zero e h = ap (λ x. x ∷ parents ps) h
parents-set (p ∷ ps) (suc i) e h = ap (λ xs. p.parent ∷ xs) (parents-set ps i e h)

kept_parent :
    (b : Bool) (c p : Entry) → (add_child c (if b then p else reset c p)).parent ≡ p.parent
kept_parent true c p = refl
kept_parent false c p = refl

parents-up :
    (cs ps : List Entry) (last : Option ℕ) → (parents (propagate_up cs ps last) ≡ parents ps)
unfolding propagate_up
parents-up [] ps last = refl
parents-up (c ∷ cs) ps last =
    let p = get_or ps c.parent blank in
    let p' : Entry = if is_last last c.parent then p else reset c p in
    let kept : (add_child c p').parent ≡ p.parent = kept_parent (is_last last c.parent) c p in
    parents-up cs (set ps c.parent (add_child c p')) (some c.parent)
    ∙ parents-set ps c.parent (add_child c p') kept

same_parts : (a b : ℕ) (xs ys : List ℕ) → a ∷ xs ≡ b ∷ ys → (a ≡ b) × (xs ≡ ys)
same_parts a b xs ys e = (cc, cc)

pub From-parents : (l : ℕ) (cs ds : List Entry) → parents ds ≡ parents cs → From l cs → From l ds
From-parents l cs [] e f = tt
From-parents l [] (d ∷ ds) e f = absurd (ground arith)
From-parents l (c ∷ cs) (d ∷ ds) e f =
    let (h, t) = same_parts d.parent c.parent (parents ds) (parents cs) e in
    (
      subst (λ x. l ≤ x) (sym h) f.0,
      subst (λ x. From x ds) (sym h) (From-parents c.parent cs ds t f.1),
    )

pub below-parents :
    (n : ℕ) (cs ds : List Entry)
    → parents ds ≡ parents cs
    → All (λ c. c.parent < n) cs
    → All (λ c. c.parent < n) ds
below-parents n cs [] e b = tt
below-parents n [] (d ∷ ds) e b = absurd (ground arith)
below-parents n (c ∷ cs) (d ∷ ds) e b =
    let (h, t) = same_parts d.parent c.parent (parents ds) (parents cs) e in
    (subst (λ x. x < n) (sym h) b.0, below-parents n cs ds t b.1)

-- The entries of each level name parents in order, and in range.
pub record IsTree (al : Alignment) : Type 0 where
  pub states : InOrder al.state.seq
  pub phones : InOrder al.sseq.seq
  pub state_parents : All (λ c. c.parent < length al.sseq.seq) al.state.seq
  pub phone_parents : All (λ c. c.parent < length al.word.seq) al.sseq.seq

-- Where the states and the phones name their parents in order and in range: every phone takes the
-- start of its first state and the sums of its states' durations and scores, every word does so of its
-- phones as they then are, and an entry without children stays.
pub propagate_lem :
    (al : Alignment) (k : ℕ)
    → IsTree al
    → let al' = ps_alignment_propagate al in
      Gathers (children k al.state.seq) (get_or al.sseq.seq k blank) (get_or al'.sseq.seq k blank)
      × Gathers (children k al'.sseq.seq) (get_or al.word.seq k blank) (get_or al'.word.seq k blank)
      × (al'.state ≡ al.state)
unfolding ps_alignment_propagate
propagate_lem al k t =
    let phones = propagate_up al.state.seq al.sseq.seq none in
    let same = parents-up al.state.seq al.sseq.seq none in
    (
      up_lem al.state.seq al.sseq.seq k t.states t.state_parents,
      up_lem phones al.word.seq k (From-parents 0 al.sseq.seq phones same t.phones)
          (below-parents (length al.word.seq) al.sseq.seq phones same t.phone_parents),
      refl,
    )
