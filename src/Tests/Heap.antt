-- ===== src/Tests/Heap.antt =====
-- Runs of the heap.
use pocketsphinx.Base.{◌≡◌, ℕ, ℤ, ◌+◌, Bool, refl, some, List, pos, negsuc, [], ◌∷◌}
use pocketsphinx.Util.Heap.{
  Node, heap_new, heap_insert, heap_pop, heap_top, heap_size, heap_drain, heap_remove,
  subheap_insert, subheap_pop,
}
use pocketsphinx.Util.Heap.Contents.{count, hit, IsBalanced}
use pocketsphinx.Util.Heap.Order.{AllAbove}
use pocketsphinx.Util.Heap.Drain.{drain_sorts, IsAscending, count_list}
use pocketsphinx.Util.Heap.Remove.{Removes, heap_remove-Removes}
use pocketsphinx.Util.Heap.Laws.{IsHeap, heap_insert_lem, heap_pop_lem}

abbrev three : Node
three = heap_insert (heap_insert (heap_insert heap_new 1 (pos 5)) 2 (negsuc 2)) 3 (pos 4)

drain_three : heap_drain 4 three ≡ some ((2, negsuc 2) ∷ (3, pos 4) ∷ (1, pos 5) ∷ [])
unfolding heap_drain heap_new heap_insert heap_pop subheap_insert subheap_pop
drain_three = refl

empty-IsHeap : IsHeap heap_new
unfolding heap_new
empty-IsHeap = record { ordered = tt; counted = tt }

three-IsHeap : IsHeap three
three-IsHeap =
    let one = (heap_insert_lem heap_new 1 (pos 5) empty-IsHeap).0 in
    let two = (heap_insert_lem _ 2 (negsuc 2) one).0 in (heap_insert_lem _ 3 (pos 4) two).0

drain_sorts_example :
    (xs : List (ℕ × ℤ)) × (heap_drain (heap_size three + 1) three ≡ some xs)
    × IsAscending xs
    × ((p : ℕ × ℤ → Bool) → count_list p xs ≡ count p three)
drain_sorts_example = drain_sorts three three-IsHeap.ordered three-IsHeap.counted

heap_remove-Removes_example : Removes 3 three (heap_remove three 3)
heap_remove-Removes_example = heap_remove-Removes three 3

heap_insert_lem_example :
    IsHeap (heap_insert three 4 (pos 0))
    × (IsBalanced three → IsBalanced (heap_insert three 4 (pos 0)))
    × ((p : ℕ × ℤ → Bool)
        → count p (heap_insert three 4 (pos 0)) ≡ hit p (4, pos 0) + count p three)
    × (heap_size (heap_insert three 4 (pos 0)) ≡ heap_size three + 1)
heap_insert_lem_example = heap_insert_lem three 4 (pos 0) three-IsHeap

abbrev two : Node
two = subheap_pop three

three-pop : heap_pop three ≡ some ((2, negsuc 2), two)
unfolding heap_new heap_insert heap_pop subheap_insert subheap_pop
three-pop = refl

heap_pop_lem_example :
    (heap_top three ≡ some (2, negsuc 2))
    × IsHeap two
    × AllAbove (negsuc 2) two
    × ((p : ℕ × ℤ → Bool) → count p two + hit p (2, negsuc 2) ≡ count p three)
heap_pop_lem_example = heap_pop_lem three (2, negsuc 2) two three-IsHeap three-pop
