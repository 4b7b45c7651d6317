-- ===== src/Util/Heap/Order.antt =====
-- The order of a heap: no entry is below the entry of its parent.
use pocketsphinx.Base.{
  ℕ, ◌≡◌, Option, none, some, ℤ, ◌≤ℤ◌, arith, ltb_ℤ, Bool-cases, Option-cases, inl, inr,
}
use pocketsphinx.Util.Heap.{Node, null, node, root, subheap_insert, subheap_pop}

-- `x` is at least `v`, where there is an `x`.
abbrev pub AtLeast : ℤ → Option (ℕ × ℤ) → Type 0
AtLeast v none = Unit
AtLeast v (some x) = v ≤ℤ x.1

-- The root of `t`, if it has one, is at least `v`.
abbrev pub IsAbove : ℤ → Node → Type 0
IsAbove v t = AtLeast v (root t)

abbrev pub IsOrdered : Node → Type 0
IsOrdered null = Unit
IsOrdered (node d v nl nr l r) = IsAbove v l × IsAbove v r × IsOrdered l × IsOrdered r

-- Every entry is at least `v`.
abbrev pub AllAbove : ℤ → Node → Type 0
AllAbove v null = Unit
AllAbove v (node d w nl nr l r) = (v ≤ℤ w) × AllAbove v l × AllAbove v r

AtLeast-trans : (v w : ℤ) (o : Option (ℕ × ℤ)) → v ≤ℤ w → AtLeast w o → AtLeast v o
AtLeast-trans v w none h a = tt
AtLeast-trans v w (some x) h a = omega arith

insert-IsAbove :
    (w : ℤ) (t : Node) (d : ℕ) (v : ℤ) → IsAbove w t → w ≤ℤ v → IsAbove w (subheap_insert t d v)
unfolding subheap_insert root
insert-IsAbove w null d v h hv = hv
insert-IsAbove w (node d₀ v₀ nl nr l r) d v h hv = ground arith

pub insert-IsOrdered : (t : Node) (d : ℕ) (v : ℤ) → IsOrdered t → IsOrdered (subheap_insert t d v)
unfolding subheap_insert root
insert-IsOrdered null d v h = (tt, tt, tt, tt)
insert-IsOrdered (node d₀ v₀ nl nr l r) d v h = elim (Bool-cases (ltb_ℤ v v₀)) [
  | inl less ↦ ground (
    arith,
    insert-IsOrdered l d₀ v₀,
    insert-IsOrdered r d₀ v₀,
    insert-IsAbove v l d₀ v₀,
    insert-IsAbove v r d₀ v₀,
    AtLeast-trans v v₀ (root l),
    AtLeast-trans v v₀ (root r),
  )
  | inr not_less ↦ ground (
    arith,
    insert-IsOrdered l d v,
    insert-IsOrdered r d v,
    insert-IsAbove v₀ l d v,
    insert-IsAbove v₀ r d v,
  )
]

-- The root is a least entry.
pub ordered-AllAbove : (w : ℤ) (t : Node) → IsOrdered t → IsAbove w t → AllAbove w t
unfolding root
ordered-AllAbove w null h a = tt
ordered-AllAbove w (node d v nl nr l r) h a = (
  a,
  ordered-AllAbove w l h.2 (AtLeast-trans w v (root l) a h.0),
  ordered-AllAbove w r h.3 (AtLeast-trans w v (root r) a h.1),
)

pub AllAbove-IsAbove : (w : ℤ) (t : Node) → AllAbove w t → IsAbove w t
unfolding root
AllAbove-IsAbove w null h = tt
AllAbove-IsAbove w (node d v nl nr l r) h = h.0

pub AllAbove-root : (w : ℤ) (t : Node) (x : ℕ × ℤ) → root t ≡ some x → AllAbove w t → w ≤ℤ x.1
AllAbove-root w t x e h = ground (arith, AllAbove-IsAbove w t h)

pub pop-AllAbove : (w : ℤ) (t : Node) → AllAbove w t → AllAbove w (subheap_pop t)
unfolding subheap_pop root
pop-AllAbove w null h = tt
pop-AllAbove w (node d v nl nr l r) h =
    ground (arith, pop-AllAbove w l, pop-AllAbove w r, AllAbove-IsAbove w l, AllAbove-IsAbove w r)

root-IsAbove-pop :
    (t : Node) (x : ℕ × ℤ) → root t ≡ some x → IsOrdered t → IsAbove x.1 (subheap_pop t)
root-IsAbove-pop t x e h =
    AllAbove-IsAbove x.1 (subheap_pop t)
      (pop-AllAbove x.1 t (ordered-AllAbove x.1 t h (rw e (omega arith))))

pub pop-IsOrdered : (t : Node) → IsOrdered t → IsOrdered (subheap_pop t)
unfolding subheap_pop root
pop-IsOrdered null h = tt
pop-IsOrdered (node d v nl nr l r) h = elim (Option-cases (root l)) [
  | inl no_l ↦ elim (Option-cases (root r)) [
    | inl no_r ↦ ground arith
    | inr (y, ry) ↦ ground (arith, root-IsAbove-pop r y ry h.3, pop-IsOrdered r h.3)
  ]
  | inr (x, lx) ↦ elim (Option-cases (root r)) [
    | inl no_r ↦ ground (arith, root-IsAbove-pop l x lx h.2, pop-IsOrdered l h.2)
    | inr (y, ry) ↦ ground (
      arith,
      root-IsAbove-pop l x lx h.2,
      root-IsAbove-pop r y ry h.3,
      pop-IsOrdered l h.2,
      pop-IsOrdered r h.3,
    )
  ]
]

pub root-AllAbove-pop :
    (t : Node) (x : ℕ × ℤ) → root t ≡ some x → IsOrdered t → AllAbove x.1 (subheap_pop t)
root-AllAbove-pop t x e h = pop-AllAbove x.1 t (ordered-AllAbove x.1 t h (rw e (omega arith)))
