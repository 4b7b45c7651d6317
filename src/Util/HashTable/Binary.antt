-- ===== src/Util/HashTable/Binary.antt =====
-- Binary keys, which are hashed as text that `makekey` makes but compared as they are. A table that
-- ignores case would compare their letters without case and hash them with it.
use pocketsphinx.Base.{ℕ, ◌≡◌, true, false, none, some, List, ℤ, if◌then◌else◌}
use pocketsphinx.Util.HashTable.{
  HashTable, bucket, lookup, hash_table_lookup_bkey, hash_table_enter_bkey, hash_table_delete_bkey,
  hash_table_replace_bkey,
}
use pocketsphinx.Util.HashTable.Buckets.{same}
use pocketsphinx.Util.HashTable.Slots.{IsTable, value_or}
use pocketsphinx.Util.HashTable.Laws.{enter_lem, delete_lem}
use pocketsphinx.Util.HashTable.Replace.{replace_lem}

-- For a table that minds case `hash_table_enter_bkey` returns the value that the key has, or gives it
-- the new one and returns that; afterwards the key has the value returned, every other key what it
-- had, and the table is well formed.
pub hash_table_enter_bkey_lem :
    (h : HashTable) (k : List ℤ) (v : ℕ)
    → IsTable h
    → h.nocase ≡ false
    → let r = hash_table_enter_bkey h k v in
      (r.0 ≡ value_or (hash_table_lookup_bkey h k) v)
      × IsTable r.1
      × ((key : List ℤ)
          → hash_table_lookup_bkey r.1 key
            ≡ (if same h.nocase k key then some r.0 else hash_table_lookup_bkey h key))
unfolding hash_table_enter_bkey hash_table_lookup_bkey lookup bucket
hash_table_enter_bkey_lem h k v t ok = enter_lem true h k v t ok

-- For a table that minds case `hash_table_replace_bkey` returns the value that the key had, or the new
-- one if it had none; afterwards the key has the new value, every other key what it had, and the table
-- is well formed.
pub hash_table_replace_bkey_lem :
    (h : HashTable) (k : List ℤ) (v : ℕ)
    → IsTable h
    → h.nocase ≡ false
    → let r = hash_table_replace_bkey h k v in
      (r.0 ≡ value_or (hash_table_lookup_bkey h k) v)
      × IsTable r.1
      × ((key : List ℤ)
          → hash_table_lookup_bkey r.1 key
            ≡ (if same h.nocase k key then some v else hash_table_lookup_bkey h key))
unfolding hash_table_replace_bkey hash_table_lookup_bkey lookup bucket
hash_table_replace_bkey_lem h k v t ok = replace_lem true h k v t ok

-- For a table that minds case `hash_table_delete_bkey` returns the value that the key has, if it has
-- one; afterwards the key has none, every other key what it had, and the table is well formed.
pub hash_table_delete_bkey_lem :
    (h : HashTable) (k : List ℤ)
    → IsTable h
    → h.nocase ≡ false
    → let r = hash_table_delete_bkey h k in
      (r.0 ≡ hash_table_lookup_bkey h k)
      × IsTable r.1
      × ((key : List ℤ)
          → hash_table_lookup_bkey r.1 key
            ≡ (if same h.nocase k key then none else hash_table_lookup_bkey h key))
unfolding hash_table_delete_bkey hash_table_lookup_bkey lookup bucket
hash_table_delete_bkey_lem h k t ok = delete_lem true h k t ok
