-- ===== src/Util/Heap/Contents.antt =====
-- What a heap holds, and the counters of its nodes.
use pocketsphinx.Base.{ℕ, ◌+◌, ◌≡◌, ◌≤◌, refl, Bool, true, none, some, ℤ, if◌then◌else◌, arith}
use pocketsphinx.Util.Heap.{Node, null, node, root, subheap_insert, subheap_pop, heap_size}

abbrev pub hit : (ℕ × ℤ → Bool) → ℕ × ℤ → ℕ
hit p x = if p x then 1 else 0

-- How many entries satisfy a test. Two heaps with the same counts for every test hold the same
-- entries, each as often.
unfoldable pub count : (ℕ × ℤ → Bool) → Node → ℕ
count p null = 0
count p (node d v nl nr l r) = hit p (d, v) + count p l + count p r

abbrev pub any_entry : ℕ × ℤ → Bool
any_entry x = true

abbrev pub hit_root : (ℕ × ℤ → Bool) → Node → ℕ
hit_root p t = elim (root t) [ none ↦ 0 | some x ↦ hit p x ]

-- Every counter is the number of nodes below on its side.
abbrev pub IsCounted : Node → Type 0
IsCounted null = Unit
IsCounted (node d v nl nr l r) =
    (nl ≡ count any_entry l) × (nr ≡ count any_entry r) × IsCounted l × IsCounted r

-- Left descendants are as many as right ones, or one more.
abbrev pub IsBalanced : Node → Type 0
IsBalanced null = Unit
IsBalanced (node d v nl nr l r) = (nr ≤ nl) × (nl ≤ nr + 1) × IsBalanced l × IsBalanced r

pub count-insert :
    (p : ℕ × ℤ → Bool) (t : Node) (d : ℕ) (v : ℤ)
    → count p (subheap_insert t d v) ≡ hit p (d, v) + count p t
unfolding count subheap_insert
count-insert p null d v = ground arith
count-insert p (node d₀ v₀ nl nr l r) d v = ground (
  arith,
  count-insert p l d v,
  count-insert p l d₀ v₀,
  count-insert p r d v,
  count-insert p r d₀ v₀,
)

pub root-eq-none : (t : Node) → root t ≡ none → t ≡ null
unfolding root
root-eq-none null h = refl
root-eq-none (node d v nl nr l r) h = cc

pub count-root-none : (p : ℕ × ℤ → Bool) (t : Node) → root t ≡ none → count p t ≡ 0
unfolding root count
count-root-none p null h = refl
count-root-none p (node d v nl nr l r) h = cc

-- Popping removes the root entry and nothing else.
pub count-pop : (p : ℕ × ℤ → Bool) (t : Node) → count p (subheap_pop t) + hit_root p t ≡ count p t
unfolding count subheap_pop root
count-pop p null = omega arith
count-pop p (node d v nl nr l r) =
    ground (arith, count-pop p l, count-pop p r, count-root-none p l, count-root-none p r)

pub count-pop_root :
    (p : ℕ × ℤ → Bool) (t : Node) (x : ℕ × ℤ)
    → root t ≡ some x
    → count p (subheap_pop t) + hit p x ≡ count p t
count-pop_root p t x e = ground (arith, count-pop p t)

pub insert-IsCounted : (t : Node) (d : ℕ) (v : ℤ) → IsCounted t → IsCounted (subheap_insert t d v)
unfolding subheap_insert count
insert-IsCounted null d v h = omega arith
insert-IsCounted (node d₀ v₀ nl nr l r) d v h = ground (
  arith,
  insert-IsCounted l d v,
  insert-IsCounted l d₀ v₀,
  insert-IsCounted r d v,
  insert-IsCounted r d₀ v₀,
  count-insert any_entry l d v,
  count-insert any_entry l d₀ v₀,
  count-insert any_entry r d v,
  count-insert any_entry r d₀ v₀,
)

pub insert-IsBalanced :
    (t : Node) (d : ℕ) (v : ℤ) → IsBalanced t → IsBalanced (subheap_insert t d v)
unfolding subheap_insert
insert-IsBalanced null d v h = omega arith
insert-IsBalanced (node d₀ v₀ nl nr l r) d v h = ground (
  arith,
  insert-IsBalanced l d v,
  insert-IsBalanced l d₀ v₀,
  insert-IsBalanced r d v,
  insert-IsBalanced r d₀ v₀,
)

pub pop-IsCounted : (t : Node) → IsCounted t → IsCounted (subheap_pop t)
unfolding subheap_pop root
pop-IsCounted null h = tt
pop-IsCounted (node d v nl nr l r) h =
    ground (arith, pop-IsCounted l, pop-IsCounted r, count-pop any_entry l, count-pop any_entry r)

-- `heap_size` is the number of nodes when the counters are right.
pub heap_size-eq-count : (t : Node) → IsCounted t → heap_size t ≡ count any_entry t
unfolding heap_size count
heap_size-eq-count null h = refl
heap_size-eq-count (node d v nl nr l r) h = omega arith
