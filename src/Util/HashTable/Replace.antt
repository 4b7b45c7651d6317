-- ===== src/Util/HashTable/Replace.antt =====
-- `hash_table_replace` on the map that the table stands for.
use pocketsphinx.Base.{
  ℕ, ◌+◌, ◌≡◌, ◌≢◌, refl, sym, ap, ◌∙◌, Bool, true, false, ◌&&◌, Option, none, some, List, [], ◌∷◌,
  ℤ, if◌then◌else◌, length, get_or, arith, Bool-cases, Option-cases, inl, inr,
}
use pocketsphinx.Util.HashTable.{
  Entry, HashTable, find, bucket, lookup, value_of, hash_table_lookup, overwrite, add_entry, enter,
  hash_table_replace,
}
use pocketsphinx.Util.HashTable.Buckets.{
  AllSized, hits, same, IsUnique, find-add_entry, hits_hit, hits_own, len_of_hit, find-overwrite,
  AllSized-add_entry, IsUnique-add_entry,
}
use pocketsphinx.Util.HashTable.Slots.{
  IsTable, slot, get, lookup-with_bucket, with_bucket-IsTable, value_or, enter_found, enter_missing,
}
use pocketsphinx.Util.HashTable.Laws.{value_of_if}

module _ (nocase : Bool) where
  AllSized-overwrite :
      (es : List Entry) (k : List ℤ) (v : ℕ)
      → AllSized es
      → AllSized (overwrite nocase es k (length k) v)
  unfolding overwrite
  AllSized-overwrite [] k v wf = tt
  AllSized-overwrite (e ∷ es) k v wf = elim (Bool-cases (hits nocase e k)) [
    | inl t ↦ rw t (len_of_hit nocase e k t, wf.1)
    | inr t ↦ rw t (wf.0, AllSized-overwrite es k v wf.1)
  ]

  overwrite-none :
      (es : List Entry) (k key : List ℤ) (v : ℕ)
      → AllSized es
      → find nocase es key (length key) ≡ none
      → find nocase (overwrite nocase es k (length k) v) key (length key) ≡ none
  unfolding find overwrite
  overwrite-none [] k key v wf f = refl
  overwrite-none (e ∷ es) k key v wf f =
      let e' = record e { key = k; val = v } in
      ground (
        arith,
        hits_hit nocase e k key wf.0,
        hits_own nocase e' key,
        len_of_hit nocase e k,
        overwrite-none es k key v wf.1,
      )

  IsUnique-overwrite :
      (es : List Entry) (k : List ℤ) (v : ℕ)
      → AllSized es
      → IsUnique nocase es
      → IsUnique nocase (overwrite nocase es k (length k) v)
  unfolding overwrite
  IsUnique-overwrite [] k v wf u = tt
  IsUnique-overwrite (e ∷ es) k v wf u = elim (Bool-cases (hits nocase e k)) [
    | inl t ↦
        let e' = record e { key = k; val = v } in
        rw t (
          λ key h. u.0 key (
              hits_hit nocase e k key wf.0 t
              ∙ sym (hits_own nocase e' key (len_of_hit nocase e k t))
              ∙ h),
          u.1,
        )
    | inr t ↦
        rw t
          (λ key h. overwrite-none es k key v wf.1 (u.0 key h), IsUnique-overwrite es k v wf.1 u.1)
  ]

pub replace_lem :
    (bin : Bool) (h : HashTable) (k : List ℤ) (v : ℕ)
    → IsTable h
    → (bin && h.nocase) ≡ false
    → let r = enter h (slot bin h k) k (length k) v true in
      (r.0 ≡ value_or (get bin h k) v)
      × IsTable r.1
      × ((key : List ℤ) → get bin r.1 key ≡ (if same h.nocase k key then some v else get bin h key))
replace_lem bin h k v t ok =
    let i = slot bin h k in
    let b = get_or h.table i [] in
    let new : Entry = record { key = k; len = length k; val = v } in
    elim (Option-cases (find h.nocase b k (length k))) [
      | inr (e, f) ↦
          let had : get bin h k ≡ some e.val = ap value_of f in
          let there : find h.nocase b k (length k) ≢ none = λ q. cc in
          rw (enter_found bin h k v true e f) (
            sym (ap (λ (o : Option ℕ). value_or o v) had),
            with_bucket-IsTable bin h k (overwrite h.nocase b k (length k) v) h.inuse t ok
                (AllSized-overwrite h.nocase b k v (t.sized i))
                (IsUnique-overwrite h.nocase b k v (t.sized i) (t.unique i)),
            λ key.
                lookup-with_bucket bin h k (overwrite h.nocase b k (length k) v) h.inuse t ok
                  (some v) key (find-overwrite h.nocase b k key v (t.sized i) there),
          )
      | inl f ↦
          let had : get bin h k ≡ none = ap value_of f in
          rw (enter_missing bin h k v true f) (
            sym (ap (λ (o : Option ℕ). value_or o v) had),
            with_bucket-IsTable bin h k (add_entry b new) (h.inuse + 1) t ok
                (AllSized-add_entry h.nocase b new (t.sized i) refl)
                (IsUnique-add_entry h.nocase b new (t.sized i) (t.unique i) refl f),
            λ key. lookup-with_bucket bin h k (add_entry b new) (h.inuse + 1) t ok (some v) key (
                ap value_of (find-add_entry h.nocase b new key (t.sized i) refl f)
                ∙ value_of_if h.nocase k key v (find h.nocase b key (length key))),
          )
    ]

-- `hash_table_replace` returns the value that the key had, or the new one if it had none; afterwards
-- the key, in whatever case the table ignores, has the new value, every other key what it had, and
-- the table is well formed.
pub hash_table_replace_lem :
    (h : HashTable) (k : List ℤ) (v : ℕ)
    → IsTable h
    → let r = hash_table_replace h k v in
      (r.0 ≡ value_or (hash_table_lookup h k) v)
      × IsTable r.1
      × ((key : List ℤ)
          → hash_table_lookup r.1 key
            ≡ (if same h.nocase k key then some v else hash_table_lookup h key))
unfolding hash_table_replace hash_table_lookup lookup bucket
hash_table_replace_lem h k v t = replace_lem false h k v t refl
