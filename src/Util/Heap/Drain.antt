-- ===== src/Util/Heap/Drain.antt =====
-- Popping until the heap is empty, as `heap_destroy` does: the loop ends, and the values come out in
-- ascending order.
use pocketsphinx.Base.{
  ℕ, zero, suc, ◌+◌, ◌≡◌, ◌<◌, refl, Bool, Option, none, some, List, [], ◌∷◌, ℤ, ◌≤ℤ◌, arith,
  Option-cases, inl, inr, sym, ◌∙◌,
}
use pocketsphinx.Util.Heap.{Node, null, node, root, heap_pop, heap_drain, heap_size, subheap_pop}
use pocketsphinx.Util.Heap.Contents.{
  count, hit, any_entry, count-pop_root, count-root-none, heap_size-eq-count, IsCounted,
}
use pocketsphinx.Util.Heap.Order.{
  IsOrdered, AllAbove, AllAbove-root, pop-IsOrdered, root-AllAbove-pop, pop-AllAbove,
}

abbrev pub count_list : (ℕ × ℤ → Bool) → List (ℕ × ℤ) → ℕ
count_list p [] = 0
count_list p (x ∷ xs) = hit p x + count_list p xs

-- Every value of the list is at least `v`.
abbrev pub Above : ℤ → List (ℕ × ℤ) → Type 0
Above v [] = Unit
Above v (x ∷ xs) = (v ≤ℤ x.1) × Above v xs

abbrev pub IsAscending : List (ℕ × ℤ) → Type 0
IsAscending [] = Unit
IsAscending (x ∷ xs) = Above x.1 xs × IsAscending xs

-- What `heap_pop` returns: nothing for the empty heap, else the root and the rest.
pub heap_pop-root :
    (t : Node) → heap_pop t ≡ (elim (root t) [ none ↦ none | some x ↦ some (x, subheap_pop t) ])
unfolding heap_pop root
heap_pop-root null = refl
heap_pop-root (node d v nl nr l r) = refl

-- What the drained list has to do with the heap.
pub record IsDrained (t : Node) (xs : List (ℕ × ℤ)) : Type 0 where
  pub ascending : IsAscending xs
  pub same : (p : ℕ × ℤ → Bool) → count_list p xs ≡ count p t
  pub above : (w : ℤ) → AllAbove w t → Above w xs

abbrev drain_from : ℕ → Option ((ℕ × ℤ) × Node) → Option (List (ℕ × ℤ))
drain_from fuel none = some []
drain_from fuel (some (x, t)) = elim (heap_drain fuel t) [ none ↦ none | some xs ↦ some (x ∷ xs) ]

drain_step :
    (fuel : ℕ) (t : Node) (o : Option ((ℕ × ℤ) × Node))
    → heap_pop t ≡ o
    → heap_drain (suc fuel) t ≡ drain_from fuel o
unfolding heap_drain
drain_step fuel t none e = rw (e, heap_drain)
drain_step fuel t (some (x, t')) e = rw (e, heap_drain)

pub drain-IsDrained :
    (fuel : ℕ) (t : Node)
    → IsOrdered t
    → count any_entry t < fuel
    → (xs : List (ℕ × ℤ)) × (heap_drain fuel t ≡ some xs) × IsDrained t xs
unfolding heap_drain
drain-IsDrained zero t o h = absurd (omega arith)
drain-IsDrained (suc fuel) t o h = elim (Option-cases (root t)) [
  | inl e ↦ (
    [],
    drain_step fuel t none (heap_pop-root t ∙ rw e),
    record { ascending = tt; same = λ p. sym (count-root-none p t e); above = λ w a. tt },
  )
  | inr (x, e) ↦
      let popped = λ (p : ℕ × ℤ → Bool). count-pop_root p t x e in
      let (xs, run, d) =
        drain-IsDrained fuel (subheap_pop t) (pop-IsOrdered t o)
          (omega (arith, popped any_entry)) in
      (
        x ∷ xs,
        drain_step fuel t (some (x, subheap_pop t)) (heap_pop-root t ∙ rw e) ∙ rw (run, drain_from),
        record {
          ascending = (d.above x.1 (root-AllAbove-pop t x e o), d.ascending);
          same = λ p. omega (arith, d.same p, popped p);
          above = λ w a. (AllAbove-root w t x e a, d.above w (pop-AllAbove w t a));
        },
      )
]

-- A heap that is ordered and whose counters are right is emptied by popping, with at most one call
-- more than its size; the entries come out in ascending order of value, each as often as it stands
-- in the heap.
pub drain_sorts :
    (t : Node)
    → IsOrdered t
    → IsCounted t
    → (xs : List (ℕ × ℤ)) × (heap_drain (heap_size t + 1) t ≡ some xs)
      × IsAscending xs
      × ((p : ℕ × ℤ → Bool) → count_list p xs ≡ count p t)
drain_sorts t o c =
    let (xs, run, d) =
      drain-IsDrained (heap_size t + 1) t o (omega (arith, heap_size-eq-count t c)) in
    (xs, run, d.ascending, d.same)
