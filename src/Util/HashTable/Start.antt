-- ===== src/Util/HashTable/Start.antt =====
-- The table that `hash_table_new` and `hash_table_empty` make.
use pocketsphinx.Base.{
  ℕ, zero, suc, ◌<◌, ◌/◌, ◌+◌, ◌≡◌, refl, Bool, true, ◌&&◌, none, List, [], ◌∷◌, ℤ, ltb, get_or,
  replicate, length-replicate, arith,
}
use pocketsphinx.Util.HashTable.{
  Entry, prime_from, prime_size, hash_table_new, hash_table_lookup, lookup, bucket, find,
}
use pocketsphinx.Util.HashTable.Slots.{IsTable, get}
use pocketsphinx.Util.HashTable.Walk.{flat}

all_positive : List ℕ → Bool
all_positive [] = true
all_positive (p ∷ ps) = ltb 0 p && all_positive ps

prime_from-positive :
    (size : ℕ) (ps : List ℕ) (last : ℕ)
    → 0 < last
    → all_positive ps ≡ true
    → 0 < prime_from size ps last
unfolding prime_from all_positive
prime_from-positive size [] last h a = h
prime_from-positive size (p ∷ ps) last h a = ground (arith, prime_from-positive size ps p)

prime_size-positive : (size : ℕ) → 0 < prime_size size
unfolding prime_size prime_from all_positive
prime_size-positive size = ground (arith, prime_from-positive size (211 ∷ []) 101)

get_or-empty : (n i : ℕ) → get_or (replicate {A = List Entry} n []) i [] ≡ []
get_or-empty zero i = refl
get_or-empty (suc n) zero = refl
get_or-empty (suc n) (suc i) = get_or-empty n i

empty-IsTable :
    (n m : ℕ) (nocase : Bool)
    → 0 < n
    → IsTable (record { table = replicate n []; size = n; inuse = m; nocase = nocase })
empty-IsTable n m nocase h = record {
  positive = h;
  width = length-replicate n [];
  sized = λ i. rw (get_or-empty n i) tt;
  unique = λ i. rw (get_or-empty n i) tt;
}

pub get-new :
    (bin : Bool) (size : ℕ) (nocase : Bool) (key : List ℤ)
    → get bin (hash_table_new size nocase) key ≡ none
unfolding hash_table_new find
get-new bin size nocase key = rw (get_or-empty (prime_size (size + size / 2)) _)

flat-empty : (n : ℕ) → flat (replicate n []) ≡ []
flat-empty zero = refl
flat-empty (suc n) = flat-empty n

pub flat-new : (size : ℕ) (nocase : Bool) → flat (hash_table_new size nocase).table ≡ []
unfolding hash_table_new
flat-new size nocase = flat-empty (prime_size (size + size / 2))

-- A new table is well formed whatever the size asked for, and no key has a value in it.
pub hash_table_new_lem :
    (size : ℕ) (nocase : Bool)
    → IsTable (hash_table_new size nocase)
      × ((key : List ℤ) → hash_table_lookup (hash_table_new size nocase) key ≡ none)
unfolding hash_table_new hash_table_lookup lookup bucket find
hash_table_new_lem size nocase = (
  empty-IsTable (prime_size (size + size / 2)) 0 nocase (prime_size-positive (size + size / 2)),
  λ key. rw (get_or-empty (prime_size (size + size / 2)) _),
)
