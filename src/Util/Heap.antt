-- ===== src/Util/Heap.antt =====
-- src/util/heap.c: a heap of (pointer, value) pairs kept as a binary tree whose nodes count their
-- descendants. A pointer is its address. The counters are int32 in the source; a heap of 2 ^ 31
-- nodes does not fit in memory, so they are plain numbers here. `--` is reached only on a subtree
-- that has a node, where the invariant makes the counter positive.
pub mod Contents
pub mod Order
pub mod Drain
pub mod Remove
pub mod Laws
use pocketsphinx.Base.{
  ℕ, suc, ◌+◌, ◌-◌, Bool, true, false, Option, none, some, ℤ, ltb, ltb_ℤ, ◌==◌, if◌then◌else◌, zero,
  List, [], ◌∷◌,
}

-- `heapnode_t *`: NULL, or a node with data, val, nl, nr, l, r.
pub data Node : Type 0 where
  null : Node
  node : ℕ → ℤ → ℕ → ℕ → Node → Node → Node

-- What a test of a child pointer and a read of its data and val give.
unfoldable pub root : Node → Option (ℕ × ℤ)
root null = none
root (node d v nl nr l r) = some (d, v)

unfoldable pub subheap_insert : Node → ℕ → ℤ → Node
subheap_insert null d v = node d v 0 0 null null
subheap_insert (node d₀ v₀ nl nr l r) d v =
    let less = ltb_ℤ v v₀ in
    let top : ℕ × ℤ = if less then (d, v) else (d₀, v₀) in
    let low : ℕ × ℤ = if less then (d₀, v₀) else (d, v) in
    elim (ltb nr nl) [
      | true ↦ node top.0 top.1 nl (nr + 1) l (subheap_insert r low.0 low.1)
      | false ↦ node top.0 top.1 (nl + 1) nr (subheap_insert l low.0 low.1) r
    ]

unfoldable pub subheap_pop : Node → Node
unfolding root
subheap_pop null = null
subheap_pop (node d v nl nr l r) = elim (root l) [
  | none ↦ elim (root r) [ none ↦ null | some (rd, rv) ↦ node rd rv nl (nr - 1) l (subheap_pop r) ]
  | some (ld, lv) ↦ elim (root r) [
    | none ↦ node ld lv (nl - 1) nr (subheap_pop l) r
    | some (rd, rv) ↦ elim (ltb_ℤ lv rv) [
      | true ↦ node ld lv (nl - 1) nr (subheap_pop l) r
      | false ↦ node rd rv nl (nr - 1) l (subheap_pop r)
    ]
  ]
]

-- A heap is its `top`.
unfoldable pub heap_new : Node
heap_new = null

unfoldable pub heap_insert : Node → ℕ → ℤ → Node
heap_insert top d v = subheap_insert top d v

-- `none` is the return value 0.
unfoldable pub heap_pop : Node → Option ((ℕ × ℤ) × Node)
heap_pop null = none
heap_pop (node d v nl nr l r) = some ((d, v), subheap_pop (node d v nl nr l r))

unfoldable pub heap_top : Node → Option (ℕ × ℤ)
heap_top null = none
heap_top (node d v nl nr l r) = some (d, v)

unfoldable pub heap_size : Node → ℕ
heap_size null = 0
heap_size (node d v nl nr l r) = nl + nr + 1

-- How a removal ends: 0 with the new tree, -1, or the assertion that `top` is the heap's top fails.
pub data Removal : Type 0 where
  removed : Node → Removal
  missing : Removal
  assert_failed : Removal

unfoldable pub root_is : Node → ℕ → Bool
root_is null d = false
root_is (node d₀ v nl nr l r) d = d₀ == d

-- What the branch for one child does: `here` is `subheap_pop` of the child, `below` is the call on
-- it, `put` writes the child and decrements its counter, and `next` is what follows.
unfoldable pub try_child : Bool → Node → Removal → (Node → Node) → Removal → Removal
try_child true here below put next = removed (put here)
try_child false here (removed t) put next = removed (put t)
try_child false here missing put next = next
try_child false here assert_failed put next = assert_failed

-- `is_top` is `top == heap->top`. A call on a NULL child is not made by the source and returns -1.
unfoldable pub heap_remove_one : Bool → Node → ℕ → Removal
unfolding root_is try_child
heap_remove_one is_top null d = missing
heap_remove_one is_top (node d₀ v nl nr l r) d =
    let whole : Removal = elim is_top [
      | true ↦ removed (subheap_pop (node d₀ v nl nr l r))
      | false ↦ assert_failed
    ] in
    let in_right =
      try_child (root_is r d) (subheap_pop r) (heap_remove_one false r d)
        (λ t. node d₀ v nl (nr - 1) l t) missing in
    let in_left =
      try_child (root_is l d) (subheap_pop l) (heap_remove_one false l d)
        (λ t. node d₀ v (nl - 1) nr t r) in_right in
    if d₀ == d then whole else in_left

unfoldable pub heap_remove : Node → ℕ → Removal
heap_remove top d = heap_remove_one true top d

-- The loop of `heap_destroy` on fuel, with what it pops in order; `none` when the fuel is used up.
unfoldable pub heap_drain : ℕ → Node → Option (List (ℕ × ℤ))
heap_drain zero t = none
heap_drain (suc fuel) t = elim (heap_pop t) [
  | none ↦ some []
  | some (x, t') ↦ elim (heap_drain fuel t') [ none ↦ none | some xs ↦ some (x ∷ xs) ]
]
