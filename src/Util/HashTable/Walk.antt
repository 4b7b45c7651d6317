-- ===== src/Util/HashTable/Walk.antt =====
-- Going through a table: the iterator and the list visit every entry once.
use pocketsphinx.Base.{
  ℕ, zero, suc, ◌+◌, ◌≡◌, ◌<◌, refl, sym, subst, ap, ◌∙◌, Option, none, some, List, [], ◌∷◌, ◌++◌,
  length, length-append, arith,
}
use pocketsphinx.Util.HashTable.{
  Entry, HashTable, Iter, scan, iter_down, hash_table_iter_next, hash_table_iter, push_all,
  tolist_from, hash_table_tolist,
}

-- All entries, bucket after bucket.
abbrev pub flat : List (List Entry) → List Entry
flat [] = []
flat (b ∷ bs) = b ++ flat bs

-- What an iterator stands at and has still to visit.
abbrev pending : Option Iter → List Entry
pending none = []
pending (some it) = it.ent ++ flat it.ahead

abbrev cons_to : Entry → Option (List Entry) → Option (List Entry)
cons_to e none = none
cons_to e (some xs) = some (e ∷ xs)

-- `for (it = hash_table_iter(h); it; it = hash_table_iter_next(it))`, with what it visits, on fuel.
unfoldable pub visit : ℕ → Option Iter → Option (List Entry)
visit zero o = none
visit (suc fuel) none = some []
visit (suc fuel) (some it) =
    let rest = visit fuel (hash_table_iter_next it) in
    elim it.ent [ [] ↦ none | e ∷ es ↦ cons_to e rest ]

-- The iterator stands at an entry.
abbrev IsAtEntry : Option Iter → Type 0
IsAtEntry none = Unit
IsAtEntry (some it) = (e : Entry) × (es : List Entry) × (it.ent ≡ e ∷ es)

scan-pending : (bs : List (List Entry)) → (pending (scan bs) ≡ flat bs) × IsAtEntry (scan bs)
unfolding scan
scan-pending [] = (refl, tt)
scan-pending ([] ∷ bs) = scan-pending bs
scan-pending ((e ∷ es) ∷ bs) = (refl, (e, es, refl))

down-pending :
    (e : Entry) (es : List Entry) (bs : List (List Entry))
    → (pending (iter_down (e ∷ es) bs) ≡ es ++ flat bs) × IsAtEntry (iter_down (e ∷ es) bs)
unfolding iter_down
down-pending e [] bs = scan-pending bs
down-pending e (e' ∷ es) bs = (refl, (e', es, refl))

visit-pending :
    (fuel : ℕ) (o : Option Iter)
    → IsAtEntry o
    → length (pending o) < fuel
    → visit fuel o ≡ some (pending o)
unfolding visit hash_table_iter_next
visit-pending zero o at h = absurd (omega arith)
visit-pending (suc fuel) none at h = refl
visit-pending (suc fuel) (some it) (e, es, p) h =
    let whole : it.ent ++ flat it.ahead ≡ e ∷ (es ++ flat it.ahead) =
      ap (λ x. x ++ flat it.ahead) p in
    let (rest, ok) = down-pending e es it.ahead in
    let len = ap length whole in
    let len' = ap length rest in
    let ih = visit-pending fuel (iter_down (e ∷ es) it.ahead) ok (omega arith) in
    subst
      (λ ent.
        visit (suc fuel) (some (record { ent = ent; ahead = it.ahead }))
        ≡ some (ent ++ flat it.ahead))
      (sym p) (ap (cons_to e) (ih ∙ ap some rest))

push_all-length : (b g : List Entry) → length (push_all b g) ≡ length b + length g
unfolding push_all
push_all-length [] g = omega arith
push_all-length (e ∷ b) g = omega (arith, push_all-length b (e ∷ g))

tolist_from-length :
    (bs : List (List Entry)) (g : List Entry)
    → length (tolist_from bs g) ≡ length (flat bs) + length g
unfolding tolist_from
tolist_from-length [] g = omega arith
tolist_from-length (b ∷ bs) g =
    omega
      (arith, tolist_from-length bs (push_all b g), push_all-length b g, length-append b (flat bs))

-- The iterator visits every entry of the table once, bucket after bucket, and ends;
-- `hash_table_tolist` counts as many.
pub visit-flat :
    (h : HashTable) (fuel : ℕ)
    → length (flat h.table) < fuel
    → (visit fuel (hash_table_iter h) ≡ some (flat h.table))
      × ((hash_table_tolist h).1 ≡ length (flat h.table))
unfolding hash_table_iter hash_table_iter_next iter_down hash_table_tolist
visit-flat h fuel lt =
    let (rest, ok) = scan-pending h.table in
    (
      visit-pending fuel (scan h.table) ok (omega (arith, ap length rest)) ∙ ap some rest,
      omega (arith, tolist_from-length h.table []),
    )
