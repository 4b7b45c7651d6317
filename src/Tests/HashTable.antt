-- ===== src/Tests/HashTable.antt =====
-- Runs of the hash table.
use pocketsphinx.Base.{
  ◌≡◌, ℤ, negsuc, true, false, refl, none, some, List, pos, [], ◌∷◌, arith, if◌then◌else◌, length,
}
use pocketsphinx.Util.HashTable.{
  Entry, HashTable, hash_table_new, hash_table_enter, hash_table_delete, hash_table_replace,
  hash_table_replace_bkey, hash_table_lookup_bkey, hash_table_lookup, hash_table_iter,
  hash_table_tolist,
}
use pocketsphinx.Util.HashTable.Buckets.{same}
use pocketsphinx.Util.HashTable.Laws.{
  IsTable, value_or, hash_table_enter_lem, hash_table_delete_lem,
}
use pocketsphinx.Util.HashTable.Binary.{hash_table_replace_bkey_lem}
use pocketsphinx.Util.HashTable.Replace.{hash_table_replace_lem}
use pocketsphinx.Util.HashTable.Start.{hash_table_new_lem}
use pocketsphinx.Util.HashTable.Walk.{visit, flat, visit-flat}

-- Keys "One", "ONE" and "two".
abbrev key_one : List ℤ
key_one = pos b'O' ∷ pos b'n' ∷ pos b'e' ∷ []

abbrev key_big : List ℤ
key_big = pos b'O' ∷ pos b'N' ∷ pos b'E' ∷ []

abbrev key_two : List ℤ
key_two = pos b't' ∷ pos b'w' ∷ pos b'o' ∷ []

abbrev base : HashTable
base = hash_table_new 2 true

abbrev words : HashTable
words = (hash_table_enter (hash_table_enter base key_one 7).1 key_two 9).1

words-IsTable : IsTable words
words-IsTable =
    let made = (hash_table_new_lem 2 true).0 in
    let (a, one, b) = hash_table_enter_lem base key_one 7 made in
    let (c, both, d) = hash_table_enter_lem (hash_table_enter base key_one 7).1 key_two 9 one in
    both

hash_table_enter_lem_example :
    let r = hash_table_enter words key_big 8 in
    (r.0 ≡ value_or (hash_table_lookup words key_big) 8)
    × IsTable r.1
    × ((key : List ℤ)
        → hash_table_lookup r.1 key
          ≡ (if same words.nocase key_big key then some r.0 else hash_table_lookup words key))
hash_table_enter_lem_example = hash_table_enter_lem words key_big 8 words-IsTable

hash_table_delete_lem_example :
    let r = hash_table_delete words key_big in
    (r.0 ≡ hash_table_lookup words key_big)
    × IsTable r.1
    × ((key : List ℤ)
        → hash_table_lookup r.1 key
          ≡ (if same words.nocase key_big key then none else hash_table_lookup words key))
hash_table_delete_lem_example = hash_table_delete_lem words key_big words-IsTable

hash_table_replace_lem_example :
    let r = hash_table_replace words key_big 8 in
    (r.0 ≡ value_or (hash_table_lookup words key_big) 8)
    × IsTable r.1
    × ((key : List ℤ)
        → hash_table_lookup r.1 key
          ≡ (if same words.nocase key_big key then some 8 else hash_table_lookup words key))
hash_table_replace_lem_example = hash_table_replace_lem words key_big 8 words-IsTable

abbrev entry_one : Entry
entry_one = record { key = key_one; len = 3; val = 7 }

abbrev entry_two : Entry
entry_two = record { key = key_two; len = 3; val = 9 }

abbrev small : HashTable
small = record {
  table = (entry_one ∷ []) ∷ [] ∷ (entry_two ∷ []) ∷ [];
  size = 3;
  inuse = 2;
  nocase = true;
}

visit-flat_example :
    (visit 3 (hash_table_iter small) ≡ some (flat small.table))
    × ((hash_table_tolist small).1 ≡ length (flat small.table))
visit-flat_example = visit-flat small 3 (omega arith)

-- A table with binary keys.
abbrev numbers : HashTable
numbers = hash_table_new 5 false

abbrev raw_key : List ℤ
raw_key = negsuc 0 ∷ pos 0 ∷ pos b'a' ∷ pos 1 ∷ []

hash_table_replace_bkey_lem_example :
    let r = hash_table_replace_bkey numbers raw_key 4 in
    (r.0 ≡ value_or (hash_table_lookup_bkey numbers raw_key) 4)
    × IsTable r.1
    × ((key : List ℤ)
        → hash_table_lookup_bkey r.1 key ≡ (
            if same numbers.nocase raw_key key then some 4 else hash_table_lookup_bkey numbers key))
unfolding hash_table_new
hash_table_replace_bkey_lem_example =
    hash_table_replace_bkey_lem numbers raw_key 4 (hash_table_new_lem 5 false).0 refl
