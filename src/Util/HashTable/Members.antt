-- ===== src/Util/HashTable/Members.antt =====
-- The entries that a table holds, found by key or met by going through it.
use pocketsphinx.Base.{
  ℕ, zero, suc, ◌≡◌, sym, ap, ◌∙◌, ◌⊎◌, inl, inr, Bool, false, none, some, List, [], ◌∷◌, ℤ, length,
  get_or, set, Bool-cases, Option-cases,
}
use mathlib.Core.List.{Memᴰ}
use mathlib.Core.List.Memᴰ
use pocketsphinx.Util.HashTable.{Entry, HashTable, find, value_of, add_entry, enter, matches}
use pocketsphinx.Util.HashTable.Slots.{slot, get, enter_missing}
use pocketsphinx.Util.HashTable.Walk.{flat}

find-Mem :
    (nocase : Bool) (es : List Entry) (key : List ℤ) (n : ℕ) (e : Entry)
    → find nocase es key n ≡ some e
    → Memᴰ e es
unfolding find
find-Mem nocase [] key n e f = cc
find-Mem nocase (x ∷ es) key n e f = elim (Bool-cases (matches nocase x key n)) [
  | inl t ↦ let q : some x ≡ some e = rw t at f in Memᴰ.head cc
  | inr t ↦
      let q : find nocase es key n ≡ some e = rw t at f in Memᴰ.tail (find-Mem nocase es key n e q)
]

bucket-flat :
    (bs : List (List Entry)) (i : ℕ) (e : Entry) → Memᴰ e (get_or bs i []) → Memᴰ e (flat bs)
bucket-flat [] i e m = elim m [ ]
bucket-flat (b ∷ bs) zero e m = Memᴰ.append_left (flat bs) m
bucket-flat (b ∷ bs) (suc i) e m = Memᴰ.append_right b (bucket-flat bs i e m)

flat-set :
    (bs : List (List Entry)) (i : ℕ) (es : List Entry) (e : Entry)
    → Memᴰ e (flat (set bs i es))
    → Memᴰ e (flat bs) ⊎ Memᴰ e es
flat-set [] i es e m = inl m
flat-set (b ∷ bs) zero es e m = elim (Memᴰ.append_cases es m) [
  | inl h ↦ inr h
  | inr h ↦ inl (Memᴰ.append_right b h)
]
flat-set (b ∷ bs) (suc i) es e m = elim (Memᴰ.append_cases b m) [
  | inl h ↦ inl (Memᴰ.append_left (flat bs) h)
  | inr h ↦ elim (flat-set bs i es e h) [ inl k ↦ inl (Memᴰ.append_right b k) | inr k ↦ inr k ]
]

Mem-add_entry :
    (es : List Entry) (new e : Entry) → Memᴰ e (add_entry es new) → Memᴰ e es ⊎ (e ≡ new)
unfolding add_entry
Mem-add_entry [] new e m = inr (Memᴰ.eq_of_singleton m)
Mem-add_entry (x ∷ es) new e (Memᴰ.head q) = inl (Memᴰ.head q)
Mem-add_entry (x ∷ es) new e (Memᴰ.tail (Memᴰ.head q)) = inr q
Mem-add_entry (x ∷ es) new e (Memᴰ.tail (Memᴰ.tail m)) = inl (Memᴰ.tail m)

-- A value found under a key is that of an entry of the table.
pub get-flat :
    (bin : Bool) (h : HashTable) (key : List ℤ) (v : ℕ)
    → get bin h key ≡ some v
    → (e : Entry) × Memᴰ e (flat h.table) × (e.val ≡ v)
get-flat bin h key v g =
    let b = get_or h.table (slot bin h key) [] in
    elim (Option-cases (find h.nocase b key (length key))) [
      | inr (e, f) ↦
          let q : some e.val ≡ some v = sym (ap value_of f) ∙ g in
          (e, bucket-flat h.table (slot bin h key) e (find-Mem h.nocase b key (length key) e f), cc)
      | inl f ↦ let q : none ≡ some v = sym (ap value_of f) ∙ g in cc
    ]

-- Entering a new key adds an entry with the value, and no other.
pub flat-enter :
    (bin : Bool) (h : HashTable) (key : List ℤ) (v : ℕ) (e : Entry)
    → get bin h key ≡ none
    → Memᴰ e (flat (enter h (slot bin h key) key (length key) v false).1.table)
    → Memᴰ e (flat h.table) ⊎ (e.val ≡ v)
flat-enter bin h key v e g =
    let b = get_or h.table (slot bin h key) [] in
    let new : Entry = record { key = key; len = length key; val = v } in
    elim (Option-cases (find h.nocase b key (length key))) [
      | inr (x, f) ↦ let q : some x.val ≡ none = sym (ap value_of f) ∙ g in cc
      | inl f ↦ rw (enter_missing bin h key v false f) (λ m.
          elim (flat-set h.table (slot bin h key) (add_entry b new) e m) [
            | inl k ↦ inl k
            | inr k ↦ elim (Mem-add_entry b new e k) [
              | inl o ↦ inl (bucket-flat h.table (slot bin h key) e o)
              | inr q ↦ inr (ap (λ (x : Entry). x.val) q)
            ]
          ])
    ]
