-- ===== src/Util/Heap/Laws.antt =====
-- What a client of the heap may rely on, operation by operation.
use pocketsphinx.Base.{ℕ, ◌+◌, ◌≡◌, refl, Bool, some, ℤ, arith}
use pocketsphinx.Util.Heap.{
  Node, null, node, root, heap_insert, heap_pop, heap_top, heap_size, subheap_pop,
}
use pocketsphinx.Util.Heap.Contents.{
  count, hit, any_entry, IsCounted, IsBalanced, count-insert, count-pop_root, insert-IsCounted,
  pop-IsCounted, insert-IsBalanced, heap_size-eq-count,
}
use pocketsphinx.Util.Heap.Order.{
  IsOrdered, AllAbove, insert-IsOrdered, pop-IsOrdered, root-AllAbove-pop,
}

pub record IsHeap (t : Node) : Type 0 where
  pub ordered : IsOrdered t
  pub counted : IsCounted t

-- An insertion keeps the heap ordered, its counters right and its sides balanced, adds the one
-- entry, and raises `heap_size` by one.
pub heap_insert_lem :
    (t : Node) (d : ℕ) (v : ℤ)
    → IsHeap t
    → IsHeap (heap_insert t d v)
      × (IsBalanced t → IsBalanced (heap_insert t d v))
      × ((p : ℕ × ℤ → Bool) → count p (heap_insert t d v) ≡ hit p (d, v) + count p t)
      × (heap_size (heap_insert t d v) ≡ heap_size t + 1)
unfolding heap_insert
heap_insert_lem t d v h = (
  record { ordered = insert-IsOrdered t d v h.ordered; counted = insert-IsCounted t d v h.counted },
  insert-IsBalanced t d v,
  λ p. count-insert p t d v,
  omega (
    arith,
    heap_size-eq-count _ (insert-IsCounted t d v h.counted),
    heap_size-eq-count t h.counted,
    count-insert any_entry t d v,
  ),
)

-- A pop that returns an entry returns the one that `heap_top` shows; every entry that is left has at
-- least its value; the rest is a heap with that one entry taken out.
pub heap_pop_lem :
    (t : Node) (x : ℕ × ℤ) (t' : Node)
    → IsHeap t
    → heap_pop t ≡ some (x, t')
    → (heap_top t ≡ some x)
      × IsHeap t'
      × AllAbove x.1 t'
      × ((p : ℕ × ℤ → Bool) → count p t' + hit p x ≡ count p t)
unfolding heap_pop heap_top root
heap_pop_lem null x t' h e = cc
heap_pop_lem (node d v nl nr l r) x t' h e =
    let t = node d v nl nr l r in
    let ex : x ≡ (d, v) = cc in
    let et : t' ≡ subheap_pop t = cc in
    rw (ex, et)
      (
        refl,
        record { ordered = pop-IsOrdered t h.ordered; counted = pop-IsCounted t h.counted },
        root-AllAbove-pop t (d, v) refl h.ordered,
        λ p. count-pop_root p t (d, v) refl,
      )
