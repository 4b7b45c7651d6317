-- ===== src/Util/Heap/Remove.antt =====
-- `heap_remove`: its assertion never fails, it removes one entry with the given pointer exactly when
-- there is one, and it keeps the order and the counters.
use pocketsphinx.Base.{
  ℕ, ◌+◌, ◌-◌, ◌≡◌, refl, Bool, true, false, ℤ, ◌==◌, arith, Bool-cases, inl, inr, sym, ◌∙◌,
}
use pocketsphinx.Util.Heap.{
  Node, null, node, root, root_is, try_child, heap_remove_one, heap_remove, Removal, removed,
  missing, assert_failed, subheap_pop,
}
use pocketsphinx.Util.Heap.Contents.{count, hit, any_entry, count-pop, IsCounted, pop-IsCounted}
use pocketsphinx.Util.Heap.Order.{
  IsOrdered, AllAbove, AllAbove-IsAbove, pop-AllAbove, ordered-AllAbove, pop-IsOrdered,
}

abbrev pub has_ptr : ℕ → ℕ × ℤ → Bool
has_ptr d x = x.0 == d

-- `t'` is `t` less one entry with pointer `d`, and keeps what makes it a heap.
pub record LessOne (d : ℕ) (t t' : Node) : Type 0 where
  pub val : ℤ
  pub less : (p : ℕ × ℤ → Bool) → count p t' + hit p (d, val) ≡ count p t
  pub above : (w : ℤ) → AllAbove w t → AllAbove w t'
  pub ordered : IsOrdered t → IsOrdered t'
  pub counted : IsCounted t → IsCounted t'

-- What a removal of `d` from `t` must be.
abbrev pub Removes : ℕ → Node → Removal → Type 0
Removes d t (removed t') = LessOne d t t'
Removes d t missing = count (has_ptr d) t ≡ 0
Removes d t assert_failed = ⊥

pop-LessOne : (t : Node) (d : ℕ) → root_is t d ≡ true → LessOne d t (subheap_pop t)
unfolding root_is root
pop-LessOne null d h = cc
pop-LessOne (node d₀ v nl nr l r) d h =
    let t = node d₀ v nl nr l r in
    record {
      val = v;
      less = λ p. ground (arith, count-pop p t);
      above = λ w a. pop-AllAbove w t a;
      ordered = pop-IsOrdered t;
      counted = pop-IsCounted t;
    }

put_left :
    (d₀ : ℕ) (v : ℤ) (nl nr : ℕ) (l r : Node) (d : ℕ) (l' : Node)
    → LessOne d l l'
    → LessOne d (node d₀ v nl nr l r) (node d₀ v (nl - 1) nr l' r)
unfolding count
put_left d₀ v nl nr l r d l' lo = record {
  val = lo.val;
  less = λ p. omega (arith, lo.less p);
  above = λ w a. (a.0, lo.above w a.1, a.2);
  ordered = λ o.
      (AllAbove-IsAbove v l' (lo.above v (ordered-AllAbove v l o.2 o.0)), o.1, lo.ordered o.2, o.3);
  counted = λ c. (omega (arith, lo.less any_entry), c.1, lo.counted c.2, c.3);
}

put_right :
    (d₀ : ℕ) (v : ℤ) (nl nr : ℕ) (l r : Node) (d : ℕ) (r' : Node)
    → LessOne d r r'
    → LessOne d (node d₀ v nl nr l r) (node d₀ v nl (nr - 1) l r')
unfolding count
put_right d₀ v nl nr l r d r' lo = record {
  val = lo.val;
  less = λ p. omega (arith, lo.less p);
  above = λ w a. (a.0, a.1, lo.above w a.2);
  ordered = λ o.
      (o.0, AllAbove-IsAbove v r' (lo.above v (ordered-AllAbove v r o.3 o.1)), o.2, lo.ordered o.3);
  counted = λ c. (c.0, omega (arith, lo.less any_entry), c.2, lo.counted c.3);
}

-- One child: the rule for `try_child`.
try_child-Removes :
    (c : Node) (d : ℕ) (below next : Removal) (put : Node → Node) (t : Node)
    → (root_is c d ≡ false → Removes d c below)
    → ((c' : Node) → LessOne d c c' → LessOne d t (put c'))
    → (count (has_ptr d) c ≡ 0 → Removes d t next)
    → Removes d t (try_child (root_is c d) (subheap_pop c) below put next)
unfolding try_child
try_child-Removes c d below next put t hb hp hn = elim (Bool-cases (root_is c d)) [
  | inl e ↦ rw e (hp (subheap_pop c) (pop-LessOne c d e))
  | inr e ↦ rw e (go below (hb e))
]
  where
    go : (b : Removal) → Removes d c b → Removes d t (try_child false (subheap_pop c) b put next)
    go (removed c') h = hp c' h
    go missing h = hn h
    go assert_failed h = absurd h

remove_one-Removes :
    (t : Node) (d : ℕ) (is_top : Bool)
    → (root_is t d ≡ true → is_top ≡ true)
    → Removes d t (heap_remove_one is_top t d)
unfolding heap_remove_one root_is count
remove_one-Removes null d is_top h = refl
remove_one-Removes (node d₀ v nl nr l r) d is_top h = elim (Bool-cases (d₀ == d)) [
  | inl e ↦ rw (e, h e) (pop-LessOne (node d₀ v nl nr l r) d e)
  | inr e ↦ rw e (
      try_child-Removes l d _ _ _ (node d₀ v nl nr l r)
        (λ hl. remove_one-Removes l d false (λ t. sym hl ∙ t)) (put_left d₀ v nl nr l r d)
        (λ none_l.
          try_child-Removes r d _ _ _ (node d₀ v nl nr l r)
            (λ hr. remove_one-Removes r d false (λ t. sym hr ∙ t)) (put_right d₀ v nl nr l r d)
            (λ none_r. ground arith)))
]

-- The assertion of `heap_remove_one` never fails; `heap_remove` returns -1 only for a pointer that
-- the heap does not hold; otherwise it takes out one entry with that pointer and no other, and keeps
-- the order and the counters.
pub heap_remove-Removes : (t : Node) (d : ℕ) → Removes d t (heap_remove t d)
unfolding heap_remove
heap_remove-Removes t d = remove_one-Removes t d true (λ e. refl)
