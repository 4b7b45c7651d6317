-- ===== src/Util/Glist.antt =====
-- src/util/glist.c: generic linked lists. A list is the sequence of its nodes; a pointer into it is
-- the part from that node on. `F` is `double`, which a float becomes when it is stored.
use pocketsphinx.Base.{
  ℕ, ◌+◌, ◌≡◌, refl, ◌∙◌, Option, none, some, List, [], ◌∷◌, ◌++◌, ℤ, arith, length,
}
use mathlib.Core.List.{append-nil}

-- `anytype_t`
pub data Value (F : Type 0) : Type 0 where
  ptr : ℕ → Value F
  int : ℤ → Value F
  uint : ℕ → Value F
  float : F → Value F

module _ {F : Type 0} where
  unfoldable pub glist_add_ptr : List (Value F) → ℕ → List (Value F)
  glist_add_ptr g p = ptr p ∷ g

  unfoldable pub glist_add_int32 : List (Value F) → ℤ → List (Value F)
  glist_add_int32 g v = int v ∷ g

  unfoldable pub glist_add_uint32 : List (Value F) → ℕ → List (Value F)
  glist_add_uint32 g v = uint v ∷ g

  unfoldable pub glist_add_float32 : List (Value F) → F → List (Value F)
  glist_add_float32 g v = float v ∷ g

  unfoldable pub glist_add_float64 : List (Value F) → F → List (Value F)
  glist_add_float64 g v = float v ∷ g

  -- The loop of `glist_count`.
  unfoldable pub count_from : List (Value F) → ℕ → ℕ
  count_from [] n = n
  count_from (x ∷ g) n = count_from g (n + 1)

  unfoldable pub glist_count : List (Value F) → ℕ
  unfolding count_from
  glist_count g = count_from g 0

  -- The last node, `none` for NULL.
  unfoldable pub glist_tail : List (Value F) → Option (Value F)
  glist_tail [] = none
  glist_tail (x ∷ []) = some x
  glist_tail (x ∷ y ∷ g) = glist_tail (y ∷ g)

  -- The loop of `glist_reverse`: what is left, and `rev`.
  unfoldable pub reverse_onto : List (Value F) → List (Value F) → List (Value F)
  reverse_onto [] rev = rev
  reverse_onto (x ∷ g) rev = reverse_onto g (x ∷ rev)

  unfoldable pub glist_reverse : List (Value F) → List (Value F)
  unfolding reverse_onto
  glist_reverse g = reverse_onto g []

  -- After the node `gn`, the first of the list given; nothing is done at NULL.
  unfoldable pub glist_insert : List (Value F) → Value F → List (Value F)
  glist_insert [] v = []
  glist_insert (gn ∷ rest) v = gn ∷ v ∷ rest

  unfoldable pub glist_insert_ptr : List (Value F) → ℕ → List (Value F)
  unfolding glist_insert
  glist_insert_ptr g p = glist_insert g (ptr p)

  unfoldable pub glist_insert_int32 : List (Value F) → ℤ → List (Value F)
  unfolding glist_insert
  glist_insert_int32 g v = glist_insert g (int v)

  unfoldable pub glist_insert_uint32 : List (Value F) → ℕ → List (Value F)
  unfolding glist_insert
  glist_insert_uint32 g v = glist_insert g (uint v)

  unfoldable pub glist_insert_float32 : List (Value F) → F → List (Value F)
  unfolding glist_insert
  glist_insert_float32 g v = glist_insert g (float v)

  unfoldable pub glist_insert_float64 : List (Value F) → F → List (Value F)
  unfolding glist_insert
  glist_insert_float64 g v = glist_insert g (float v)

  -- The list from `pred` on, `gn` being the node after it.
  unfoldable pub gnode_free : List (Value F) → List (Value F)
  gnode_free (pred ∷ gn ∷ next) = pred ∷ next
  gnode_free g = g

  reverse_onto-append :
      (g h rev : List (Value F)) → reverse_onto (g ++ h) rev ≡ reverse_onto h (reverse_onto g rev)
  unfolding reverse_onto
  reverse_onto-append [] h rev = refl
  reverse_onto-append (x ∷ g) h rev = reverse_onto-append g h (x ∷ rev)

  reverse_onto_twice :
      (g rev back : List (Value F))
      → reverse_onto (reverse_onto g rev) back ≡ reverse_onto rev (g ++ back)
  unfolding reverse_onto
  reverse_onto_twice [] rev back = refl
  reverse_onto_twice (x ∷ g) rev back = reverse_onto_twice g (x ∷ rev) back

  count_from-eq : (g : List (Value F)) (n : ℕ) → count_from g n ≡ n + length g
  unfolding count_from
  count_from-eq [] n = omega arith
  count_from-eq (x ∷ g) n = omega (arith, count_from-eq g (n + 1))

  count_reverse_onto :
      (g rev : List (Value F)) → glist_count (reverse_onto g rev) ≡ glist_count g + glist_count rev
  unfolding reverse_onto glist_count
  count_reverse_onto [] rev = omega arith
  count_reverse_onto (x ∷ g) rev = omega (
    arith,
    count_reverse_onto g (x ∷ rev),
    count_from-eq g 1,
    count_from-eq g 0,
    count_from-eq rev 1,
    count_from-eq rev 0,
  )

  tail-reverse_onto :
      (g rev : List (Value F)) (x : Value F)
      → glist_tail (reverse_onto g (x ∷ rev)) ≡ glist_tail (x ∷ rev)
  unfolding reverse_onto glist_tail
  tail-reverse_onto [] rev x = refl
  tail-reverse_onto (y ∷ g) rev x = tail-reverse_onto g (x ∷ rev) y

  -- Reversing a list in place twice gives it back, keeps its number of nodes, and takes the head to
  -- the tail; the number of nodes is that of `glist_count`.
  pub glist_reverse_lem :
      (g : List (Value F)) (x : Value F)
      → (glist_reverse (glist_reverse g) ≡ g)
        × (glist_count (glist_reverse g) ≡ length g)
        × (glist_tail (glist_reverse (x ∷ g)) ≡ some x)
  unfolding glist_reverse glist_count glist_tail
  glist_reverse_lem g x = (
    reverse_onto_twice g [] [] ∙ append-nil g,
    omega (arith, count_reverse_onto g [], count_from-eq g 0, count_from-eq [] 0),
    tail-reverse_onto g [] x,
  )
