-- ===== src/Util/HashTable/Laws.antt =====
-- The table as a map from keys, told apart up to letter case if case is ignored, to values.
pub use pocketsphinx.Util.HashTable.Slots.{IsTable, value_or}
use pocketsphinx.Base.{
  ℕ, ◌+◌, ◌-◌, ◌≡◌, refl, sym, ap, ◌∙◌, Bool, true, false, ◌&&◌, Option, none, some, List, [], ℤ,
  if◌then◌else◌, length, get_or, arith, Option-cases, inl, inr,
}
use pocketsphinx.Util.HashTable.{
  Entry, HashTable, matches, find, bucket, lookup, value_of, hash_table_lookup, add_entry, enter,
  unlink, delete, hash_table_enter, hash_table_delete,
}
use pocketsphinx.Util.HashTable.Buckets.{
  hits, same, find-add_entry, find-unlink, AllSized-add_entry, AllSized-unlink, IsUnique-add_entry,
  IsUnique-unlink,
}
use pocketsphinx.Util.HashTable.Slots.{
  IsTable, slot, get, lookup-with_bucket, with_bucket-IsTable, value_or, enter_found, enter_missing,
  delete_found, delete_missing, kept, kept_none,
}

value_of-none :
    (c : Bool) (o : Option Entry)
    → value_of (if c then none else o) ≡ (if c then none else value_of o)
value_of-none true o = refl
value_of-none false o = refl

pub value_of_if :
    (nocase : Bool) (k key : List ℤ) (v : ℕ) (o : Option Entry)
    → value_of (
        if hits nocase (record { key = k; len = length k; val = v }) key
        then some (record { key = k; len = length k; val = v })
        else o)
      ≡ (if same nocase k key then some v else value_of o)
unfolding matches
value_of_if nocase k key v o = ground arith

pub enter_lem :
    (bin : Bool) (h : HashTable) (k : List ℤ) (v : ℕ)
    → IsTable h
    → (bin && h.nocase) ≡ false
    → let r = enter h (slot bin h k) k (length k) v false in
      (r.0 ≡ value_or (get bin h k) v)
      × IsTable r.1
      × ((key : List ℤ)
          → get bin r.1 key ≡ (if same h.nocase k key then some r.0 else get bin h key))
enter_lem bin h k v t ok =
    let i = slot bin h k in
    let b = get_or h.table i [] in
    let new : Entry = record { key = k; len = length k; val = v } in
    elim (Option-cases (find h.nocase b k (length k))) [
      | inr (e, f) ↦
          let had : get bin h k ≡ some e.val = ap value_of f in
          rw (enter_found bin h k v false e f) (
            sym (ap (λ (o : Option ℕ). value_or o v) had),
            t,
            λ key. kept bin h k key t ok e.val had,
          )
      | inl f ↦
          let had : get bin h k ≡ none = ap value_of f in
          rw (enter_missing bin h k v false f) (
            sym (ap (λ (o : Option ℕ). value_or o v) had),
            with_bucket-IsTable bin h k (add_entry b new) (h.inuse + 1) t ok
                (AllSized-add_entry h.nocase b new (t.sized i) refl)
                (IsUnique-add_entry h.nocase b new (t.sized i) (t.unique i) refl f),
            λ key. lookup-with_bucket bin h k (add_entry b new) (h.inuse + 1) t ok (some v) key (
                ap value_of (find-add_entry h.nocase b new key (t.sized i) refl f)
                ∙ value_of_if h.nocase k key v (find h.nocase b key (length key))),
          )
    ]

-- `hash_table_enter` returns the value that the key has, or gives it the new one and returns that;
-- afterwards the key, in whatever case the table ignores, has the value returned, every other key
-- what it had, and the table is well formed.
pub hash_table_enter_lem :
    (h : HashTable) (k : List ℤ) (v : ℕ)
    → IsTable h
    → let r = hash_table_enter h k v in
      (r.0 ≡ value_or (hash_table_lookup h k) v)
      × IsTable r.1
      × ((key : List ℤ)
          → hash_table_lookup r.1 key
            ≡ (if same h.nocase k key then some r.0 else hash_table_lookup h key))
unfolding hash_table_enter hash_table_lookup lookup bucket
hash_table_enter_lem h k v t = enter_lem false h k v t refl

pub delete_lem :
    (bin : Bool) (h : HashTable) (k : List ℤ)
    → IsTable h
    → (bin && h.nocase) ≡ false
    → let r = delete h (slot bin h k) k (length k) in
      (r.0 ≡ get bin h k)
      × IsTable r.1
      × ((key : List ℤ) → get bin r.1 key ≡ (if same h.nocase k key then none else get bin h key))
delete_lem bin h k t ok =
    let i = slot bin h k in
    let b = get_or h.table i [] in
    elim (Option-cases (find h.nocase b k (length k))) [
      | inr (e, f) ↦
          let had : get bin h k ≡ some e.val = ap value_of f in
          rw (delete_found bin h k e f) (
            sym had,
            with_bucket-IsTable bin h k (unlink h.nocase b k (length k)) (h.inuse - 1) t ok
                (AllSized-unlink h.nocase b k (t.sized i))
                (IsUnique-unlink h.nocase b k (t.unique i)),
            λ key.
                lookup-with_bucket bin h k (unlink h.nocase b k (length k)) (h.inuse - 1) t ok none
                  key
                  (ap value_of (find-unlink h.nocase b k key (t.sized i) (t.unique i) (λ q. cc))
                    ∙ value_of-none (same h.nocase k key) (find h.nocase b key (length key))),
          )
      | inl f ↦
          let had : get bin h k ≡ none = ap value_of f in
          rw (delete_missing bin h k f) (sym had, t, λ key. kept_none bin h k key t ok had)
    ]

-- `hash_table_delete` returns the value that the key has, if it has one; afterwards the key, in
-- whatever case the table ignores, has none, every other key what it had, and the table is well
-- formed.
pub hash_table_delete_lem :
    (h : HashTable) (k : List ℤ)
    → IsTable h
    → let r = hash_table_delete h k in
      (r.0 ≡ hash_table_lookup h k)
      × IsTable r.1
      × ((key : List ℤ)
          → hash_table_lookup r.1 key
            ≡ (if same h.nocase k key then none else hash_table_lookup h key))
unfolding hash_table_delete hash_table_lookup lookup bucket
hash_table_delete_lem h k t = delete_lem false h k t refl
