-- ===== src/Util/HashTable.antt =====
-- src/util/hash_table.c: a table of strings with chaining, in which letter case may be ignored.
--
-- A char is the integer that it is (signed, as on the targets), a string its chars before the NUL.
-- A value is a pointer, given as a number. A bucket is the entry in the table and its collision
-- list; an entry in the table with a NULL key is the empty bucket. uint32 wraps at 2 ^ 32.
pub mod Keys
pub mod Buckets
pub mod Slots
pub mod Laws
pub mod Replace
pub mod Binary
pub mod Start
pub mod Walk
pub mod Members
use pocketsphinx.Base.{
  ℕ, zero, suc, ◌+◌, ◌-◌, ◌*◌, ◌/◌, ◌%◌, ◌^◌, Bool, true, false, ◌&&◌, not, Option, none, some,
  List, [], ◌∷◌, ◌++◌, ℤ, pos, negsuc, ◌-ℤ◌, leb, ltb, ◌==◌, if◌then◌else◌, length, get_or, set,
  replicate,
}

-- `hash_entry_t`
pub record Entry : Type 0 where
  pub key : List ℤ
  pub len : ℕ
  pub val : ℕ

-- `hash_table_t`
pub record HashTable : Type 0 where
  pub table : List (List Entry)
  pub size : ℕ
  pub inuse : ℕ
  pub nocase : Bool

-- The table of primes, without the -1 that ends it.
abbrev pub primes : List ℕ
primes =
    101 ∷ 211 ∷ 307 ∷ 401 ∷ 503 ∷ 601 ∷ 701 ∷ 809 ∷ 907 ∷ 1009 ∷ 1201 ∷ 1601 ∷ 2003 ∷ 2411 ∷ 3001
    ∷ 4001 ∷ 5003 ∷ 6007 ∷ 7001 ∷ 8009 ∷ 9001 ∷ 10007 ∷ 12007 ∷ 16001 ∷ 20011 ∷ 24001 ∷ 30011
    ∷ 40009 ∷ 50021 ∷ 60013 ∷ 70001 ∷ 80021 ∷ 90001 ∷ 100003 ∷ 120011 ∷ 160001 ∷ 200003 ∷ 240007
    ∷ 300007 ∷ 400009 ∷ 500009 ∷ 600011 ∷ 700001 ∷ 800011 ∷ 900001 ∷ []

-- The loop of `prime_size` from an entry on; `last` is the entry before.
unfoldable pub prime_from : ℕ → List ℕ → ℕ → ℕ
prime_from size [] last = last
prime_from size (p ∷ ps) last = if ltb p size then prime_from size ps p else p

unfoldable pub prime_size : ℕ → ℕ
unfolding prime_from
prime_size size = prime_from size primes 0

unfoldable pub hash_table_new : ℕ → Bool → HashTable
hash_table_new size nocase =
    let n = prime_size (size + size / 2) in
    record { table = replicate n []; size = n; inuse = 0; nocase = nocase }

-- `UPPER_CASE`, on an unsigned char and on a char.
unfoldable pub upper_case : ℕ → ℕ
upper_case c = if leb b'a' c && leb c b'z' then c - 32 else c

unfoldable pub upper_char : ℤ → ℤ
unfolding upper_case
upper_char (pos c) = pos (upper_case c)
upper_char (negsuc c) = negsuc c

-- A char as `unsigned char` and as `uint32`.
abbrev pub to_u8 : ℤ → ℕ
to_u8 (pos c) = c % 256
to_u8 (negsuc c) = 255 - c % 256

abbrev pub to_u32 : ℤ → ℕ
to_u32 (pos c) = c % 2 ^ 32
to_u32 (negsuc c) = 2 ^ 32 - 1 - c % 2 ^ 32

abbrev pub next_shift : ℕ → ℕ
next_shift s = if leb 25 (s + 5) then s + 5 - 24 else s + 5

-- The two loops of `key2hash`; `word` is how a char enters the sum.
unfoldable pub hash_loop : (ℤ → ℕ) → List ℤ → ℕ → ℕ → ℕ
hash_loop word [] s hash = hash
hash_loop word (c ∷ cs) s hash = hash_loop word cs (next_shift s) ((hash + word c * 2 ^ s) % 2 ^ 32)

abbrev pub upper_word : ℤ → ℕ
upper_word c = upper_case (to_u8 c)

unfoldable pub key2hash : HashTable → List ℤ → ℕ
unfolding hash_loop upper_case
key2hash h key =
    (if h.nocase then hash_loop upper_word key 0 0 else hash_loop to_u32 key 0 0) % h.size

-- The bytes of a binary key as text: `data[i] & 0x000f` and `(data[i] >> 4) & 0x000f`.
unfoldable pub makekey : List ℤ → List ℤ
makekey [] = []
makekey (c ∷ cs) = pos (b'A' + to_u8 c % 16) ∷ pos (b'J' + to_u8 c / 16 % 16) ∷ makekey cs

-- `*str++` on a string; past its end stands the NUL.
abbrev pub char_of : List ℤ → ℤ
char_of [] = pos 0
char_of (c ∷ cs) = c

abbrev pub after : List ℤ → List ℤ
after [] = []
after (c ∷ cs) = cs

abbrev pub is_zero : ℤ → Bool
is_zero (pos zero) = true
is_zero (pos (suc n)) = false
is_zero (negsuc n) = false

unfoldable pub keycmp_case : ℕ → List ℤ → List ℤ → ℤ
keycmp_case zero str key = pos 0
keycmp_case (suc n) str key =
    let d = char_of str -ℤ char_of key in
    let rest = keycmp_case n (after str) (after key) in if is_zero d then rest else d

unfoldable pub keycmp_nocase : ℕ → List ℤ → List ℤ → ℤ
keycmp_nocase zero str key = pos 0
keycmp_nocase (suc n) str key =
    let d = upper_char (char_of str) -ℤ upper_char (char_of key) in
    let rest = keycmp_nocase n (after str) (after key) in if is_zero d then rest else d

-- The negation of the loops' condition in `lookup` and `delete`.
unfoldable pub matches : Bool → Entry → List ℤ → ℕ → Bool
matches nocase e key len =
    (e.len == len)
    && is_zero (if nocase then keycmp_nocase e.len e.key key else keycmp_case e.len e.key key)

unfoldable pub find : Bool → List Entry → List ℤ → ℕ → Option Entry
find nocase [] key len = none
find nocase (e ∷ es) key len = if matches nocase e key len then some e else find nocase es key len

unfoldable pub bucket : HashTable → ℕ → List Entry
bucket h hash = get_or h.table hash []

unfoldable pub lookup : HashTable → ℕ → List ℤ → ℕ → Option Entry
lookup h hash key len = find h.nocase (bucket h hash) key len

abbrev pub value_of : Option Entry → Option ℕ
value_of none = none
value_of (some e) = some e.val

-- `none` is the return value -1.
unfoldable pub hash_table_lookup : HashTable → List ℤ → Option ℕ
hash_table_lookup h key = value_of (lookup h (key2hash h key) key (length key))

unfoldable pub hash_table_lookup_bkey : HashTable → List ℤ → Option ℕ
hash_table_lookup_bkey h key = value_of (lookup h (key2hash h (makekey key)) key (length key))

-- The entry that matches gets the new key and value.
unfoldable pub overwrite : Bool → List Entry → List ℤ → ℕ → ℕ → List Entry
overwrite nocase [] key len val = []
overwrite nocase (e ∷ es) key len val =
    if matches nocase e key len
    then record e { key = key; val = val } ∷ es
    else e ∷ overwrite nocase es key len val

-- A new entry becomes the entry in the table, or the first of the collision list.
unfoldable pub add_entry : List Entry → Entry → List Entry
add_entry [] new = new ∷ []
add_entry (e ∷ es) new = e ∷ new ∷ es

-- The value returned and the table.
unfoldable pub enter : HashTable → ℕ → List ℤ → ℕ → ℕ → Bool → ℕ × HashTable
enter h hash key len val replace = elim (lookup h hash key len) [
  | some cur ↦ (
    cur.val,
    (if replace
        then record h { table = set h.table hash (overwrite h.nocase (bucket h hash) key len val) }
        else h),
  )
  | none ↦ (
    val,
    record h {
      table =
          set h.table hash (add_entry (bucket h hash) (record { key = key; len = len; val = val }));
      inuse = h.inuse + 1;
    },
  )
]

-- The bucket less the entry that matches. An entry in the table is replaced by its successor.
unfoldable pub unlink : Bool → List Entry → List ℤ → ℕ → List Entry
unlink nocase [] key len = []
unlink nocase (e ∷ es) key len =
    if matches nocase e key len then es else e ∷ unlink nocase es key len

-- `none` is NULL: nothing was deleted.
unfoldable pub delete : HashTable → ℕ → List ℤ → ℕ → Option ℕ × HashTable
delete h hash key len = elim (lookup h hash key len) [
  | none ↦ (none, h)
  | some e ↦ (
    some e.val,
    record h {
      table = set h.table hash (unlink h.nocase (bucket h hash) key len);
      inuse = h.inuse - 1;
    },
  )
]

unfoldable pub hash_table_empty : HashTable → HashTable
hash_table_empty h = record h { table = replicate h.size []; inuse = 0 }

unfoldable pub hash_table_enter : HashTable → List ℤ → ℕ → ℕ × HashTable
hash_table_enter h key val = enter h (key2hash h key) key (length key) val false

unfoldable pub hash_table_replace : HashTable → List ℤ → ℕ → ℕ × HashTable
hash_table_replace h key val = enter h (key2hash h key) key (length key) val true

unfoldable pub hash_table_delete : HashTable → List ℤ → Option ℕ × HashTable
hash_table_delete h key = delete h (key2hash h key) key (length key)

unfoldable pub hash_table_enter_bkey : HashTable → List ℤ → ℕ → ℕ × HashTable
hash_table_enter_bkey h key val = enter h (key2hash h (makekey key)) key (length key) val false

unfoldable pub hash_table_replace_bkey : HashTable → List ℤ → ℕ → ℕ × HashTable
hash_table_replace_bkey h key val = enter h (key2hash h (makekey key)) key (length key) val true

unfoldable pub hash_table_delete_bkey : HashTable → List ℤ → Option ℕ × HashTable
hash_table_delete_bkey h key = delete h (key2hash h (makekey key)) key (length key)

-- `hash_table_tolist`: each entry is put in front of the list.
unfoldable pub push_all : List Entry → List Entry → List Entry
push_all [] g = g
push_all (e ∷ es) g = push_all es (e ∷ g)

unfoldable pub tolist_from : List (List Entry) → List Entry → List Entry
unfolding push_all
tolist_from [] g = g
tolist_from (b ∷ bs) g = tolist_from bs (push_all b g)

unfoldable pub hash_table_tolist : HashTable → List Entry × ℕ
unfolding tolist_from
hash_table_tolist h = let g = tolist_from h.table [] in (g, length g)

-- `hash_iter_t`: `ent` and what follows it in its bucket, and the buckets from `idx` on.
pub record Iter : Type 0 where
  pub ent : List Entry
  pub ahead : List (List Entry)

-- The scan for the next bucket that is not empty; `none` is NULL.
unfoldable pub scan : List (List Entry) → Option Iter
scan [] = none
scan ([] ∷ bs) = scan bs
scan ((e ∷ es) ∷ bs) = some (record { ent = e ∷ es; ahead = bs })

-- The step down the bucket, or else the scan.
unfoldable pub iter_down : List Entry → List (List Entry) → Option Iter
unfolding scan
iter_down [] bs = scan bs
iter_down (e ∷ []) bs = scan bs
iter_down (e ∷ e' ∷ es) bs = some (record { ent = e' ∷ es; ahead = bs })

unfoldable pub hash_table_iter_next : Iter → Option Iter
unfolding iter_down
hash_table_iter_next it = iter_down it.ent it.ahead

unfoldable pub hash_table_iter : HashTable → Option Iter
hash_table_iter h = hash_table_iter_next (record { ent = []; ahead = h.table })
