-- ===== src/Util/HashTable/Slots.antt =====
-- The bucket of a key, whether hashed as text or as binary, and a write to it.
use pocketsphinx.Base.{
  ℕ, ◌+◌, ◌-◌, ◌≡◌, ◌<◌, refl, sym, ap, ◌∙◌, Bool, true, false, ◌&&◌, Option, none, some, List, [],
  ℤ, ◌==◌, if◌then◌else◌, length, get_or, set, arith, Bool-cases, inl, inr, get_or-set_self,
  get_or-set_ne, length-set,
}
use native.Mathlib.Nat.{mod-lt}
use pocketsphinx.Util.HashTable.{
  Entry, HashTable, key2hash, makekey, find, bucket, lookup, value_of, overwrite, add_entry, enter,
  unlink, delete,
}
use pocketsphinx.Util.HashTable.Keys.{norm, key2hash_congr}
use pocketsphinx.Util.HashTable.Buckets.{AllSized, same, same-norm, IsUnique, find_same}

-- A table whose buckets hold well-formed entries, no two under one key.
pub record IsTable (h : HashTable) : Type 0 where
  pub positive : 0 < h.size
  pub width : length h.table ≡ h.size
  pub sized : (i : ℕ) → AllSized (get_or h.table i [])
  pub unique : (i : ℕ) → IsUnique h.nocase (get_or h.table i [])

pub norm_sensitive :
    (nocase : Bool) (a b : List ℤ) → nocase ≡ false → norm nocase a ≡ norm nocase b → a ≡ b
norm_sensitive false a b e n = n
norm_sensitive true a b e n = cc

slot_eq :
    (bin : Bool) (h : HashTable) (a b : List ℤ)
    → (bin && h.nocase) ≡ false
    → norm h.nocase a ≡ norm h.nocase b
    → key2hash h (if bin then makekey a else a) ≡ key2hash h (if bin then makekey b else b)
slot_eq true h a b ok n =
    ap (λ (k : List ℤ). key2hash h (makekey k)) (norm_sensitive h.nocase a b ok n)
slot_eq false h a b ok n = key2hash_congr h a b n

abbrev pub value_or : Option ℕ → ℕ → ℕ
value_or none v = v
value_or (some x) v = x

module _ (bin : Bool) where
  -- The index of the bucket of a key, and its value.
  abbrev pub slot : HashTable → List ℤ → ℕ
  slot h key = key2hash h (if bin then makekey key else key)

  abbrev pub get : HashTable → List ℤ → Option ℕ
  get h key = value_of (find h.nocase (get_or h.table (slot h key) []) key (length key))

  pub lookup_lem :
      (h : HashTable) (key : List ℤ)
      → get h key ≡ value_of (find h.nocase (get_or h.table (slot h key) []) key (length key))
  lookup_lem h key = refl

  slot-lt : (h : HashTable) (key : List ℤ) → IsTable h → slot h key < length h.table
  unfolding key2hash
  slot-lt h key v = rw v.width (mod-lt _ v.positive)

  hash_of_same :
      (h : HashTable) (k key : List ℤ)
      → (bin && h.nocase) ≡ false
      → same h.nocase k key ≡ true
      → slot h key ≡ slot h k
  hash_of_same h k key ok s = sym (slot_eq bin h k key ok ((same-norm h.nocase k key).0 s))

  -- A table with the bucket of one key replaced.
  abbrev pub with_bucket : HashTable → ℕ → List Entry → ℕ → HashTable
  with_bucket h i es n = record h { table = set h.table i es; inuse = n }

  slot-with_bucket :
      (h : HashTable) (i : ℕ) (es : List Entry) (n : ℕ) (key : List ℤ)
      → slot (with_bucket h i es n) key ≡ slot h key
  unfolding key2hash
  slot-with_bucket h i es n key = refl

  bucket-set :
      (bs : List (List Entry)) (i j : ℕ) (es : List Entry)
      → i < length bs
      → get_or (set bs i es) j [] ≡ (if j == i then es else get_or bs j [])
  bucket-set bs i j es lt = elim (Bool-cases (j == i)) [
    | inl t ↦ let e : j ≡ i = ground arith in rw (t, e) (get_or-set_self bs i es [] lt)
    | inr t ↦ rw t (get_or-set_ne bs i j es [] (ground arith))
  ]

  pick_sized :
      (c : Bool) (es xs : List Entry) → AllSized es → AllSized xs → AllSized (if c then es else xs)
  pick_sized true es xs a b = a
  pick_sized false es xs a b = b

  pick-IsUnique :
      (nocase c : Bool) (es xs : List Entry)
      → IsUnique nocase es
      → IsUnique nocase xs
      → IsUnique nocase (if c then es else xs)
  pick-IsUnique nocase true es xs a b = a
  pick-IsUnique nocase false es xs a b = b

  -- A write to the bucket of `k` that gives `r` under `k` and changes no other key there is a write to
  -- the map.
  module _ (h : HashTable) (k : List ℤ) (es : List Entry) (n : ℕ) (v : IsTable h)
      (ok : (bin && h.nocase) ≡ false) where
    differ : (key : List ℤ) → (slot h key == slot h k) ≡ false → same h.nocase k key ≡ false
    differ key t = elim (Bool-cases (same h.nocase k key)) [
      | inr s ↦ s
      | inl s ↦ let q = hash_of_same h k key ok s in absurd (ground arith)
    ]

    pub lookup-with_bucket :
        (r : Option ℕ) (key : List ℤ)
        → value_of (find h.nocase es key (length key)) ≡ (
            if same h.nocase k key
            then r
            else value_of (find h.nocase (get_or h.table (slot h k) []) key (length key)))
        → get (with_bucket h (slot h k) es n) key ≡ (if same h.nocase k key then r else get h key)
    lookup-with_bucket r key e =
        let i = slot h k in
        let j = slot h key in
        let found = λ (b : List Entry). value_of (find h.nocase b key (length key)) in
        let start : get (with_bucket h i es n) key ≡ found (get_or (set h.table i es) j []) =
          lookup_lem (with_bucket h i es n) key
          ∙ ap (λ (x : ℕ). found (get_or (set h.table i es) x []))
              (slot-with_bucket h i es n key) in
        let split = bucket-set h.table i j es (slot-lt h k v) in
        start ∙ ap found split ∙ (elim (Bool-cases (j == i)) [
          | inl t ↦
              let same_hash : j ≡ i = ground arith in
              let old : found (get_or h.table i []) ≡ get h key =
                ap (λ (x : ℕ). found (get_or h.table x [])) (sym same_hash)
                ∙ sym (lookup_lem h key) in
              ap (λ (c : Bool). found (if c then es else get_or h.table j [])) t
              ∙ e
              ∙ ap (λ (x : Option ℕ). if same h.nocase k key then r else x) old
          | inr t ↦
              let other : same h.nocase k key ≡ false = differ key t in
              ap (λ (c : Bool). found (if c then es else get_or h.table j [])) t
              ∙ sym (lookup_lem h key)
              ∙ sym (ap (λ (c : Bool). if c then r else get h key) other)
        ])

    pub with_bucket-IsTable :
        AllSized es → IsUnique h.nocase es → IsTable (with_bucket h (slot h k) es n)
    with_bucket-IsTable so un = record {
      positive = v.positive;
      width = length-set h.table (slot h k) es ∙ v.width;
      sized = λ i.
          rw (bucket-set h.table (slot h k) i es (slot-lt h k v))
            (pick_sized (i == slot h k) es (get_or h.table i []) so (v.sized i));
      unique = λ i.
          rw (bucket-set h.table (slot h k) i es (slot-lt h k v))
            (pick-IsUnique h.nocase (i == slot h k) es (get_or h.table i []) un (v.unique i));
    }

  pub enter_found :
      (h : HashTable) (k : List ℤ) (v : ℕ) (replace : Bool) (e : Entry)
      → find h.nocase (get_or h.table (slot h k) []) k (length k) ≡ some e
      → enter h (slot h k) k (length k) v replace ≡ (
        e.val,
        (if replace
            then with_bucket h
                (slot h k)
                (overwrite h.nocase (get_or h.table (slot h k) []) k (length k) v)
                h.inuse
            else h),
      )
  unfolding enter lookup bucket
  enter_found h k v replace e f = rw (f, enter)

  pub enter_missing :
      (h : HashTable) (k : List ℤ) (v : ℕ) (replace : Bool)
      → find h.nocase (get_or h.table (slot h k) []) k (length k) ≡ none
      → enter h (slot h k) k (length k) v replace ≡ (
        v,
        with_bucket h
            (slot h k)
            (add_entry (get_or h.table (slot h k) []) (record { key = k; len = length k; val = v }))
            (h.inuse + 1),
      )
  unfolding enter lookup bucket
  enter_missing h k v replace f = rw (f, enter)

  pub delete_found :
      (h : HashTable) (k : List ℤ) (e : Entry)
      → find h.nocase (get_or h.table (slot h k) []) k (length k) ≡ some e
      → delete h (slot h k) k (length k) ≡ (
        some e.val,
        with_bucket h
            (slot h k)
            (unlink h.nocase (get_or h.table (slot h k) []) k (length k))
            (h.inuse - 1),
      )
  unfolding delete lookup bucket
  delete_found h k e f = rw (f, delete)

  pub delete_missing :
      (h : HashTable) (k : List ℤ)
      → find h.nocase (get_or h.table (slot h k) []) k (length k) ≡ none
      → delete h (slot h k) k (length k) ≡ (none, h)
  unfolding delete lookup bucket
  delete_missing h k f = rw (f, delete)

  lookup_same :
      (h : HashTable) (k key : List ℤ)
      → IsTable h
      → (bin && h.nocase) ≡ false
      → same h.nocase k key ≡ true
      → get h key ≡ get h k
  lookup_same h k key t ok s =
      lookup_lem h key
      ∙ ap (λ (i : ℕ). value_of (find h.nocase (get_or h.table i []) key (length key)))
          (hash_of_same h k key ok s)
      ∙ sym (
          ap value_of
            (find_same h.nocase (get_or h.table (slot h k) []) k key (t.sized (slot h k)) s))
      ∙ sym (lookup_lem h k)

  pub kept :
      (h : HashTable) (k key : List ℤ)
      → IsTable h
      → (bin && h.nocase) ≡ false
      → (x : ℕ) → get h k ≡ some x
      → get h key ≡ (if same h.nocase k key then some x else get h key)
  kept h k key t ok x had = elim (Bool-cases (same h.nocase k key)) [
    | inl s ↦
        lookup_same h k key t ok s
        ∙ had
        ∙ sym (ap (λ (c : Bool). if c then some x else get h key) s)
    | inr s ↦ sym (ap (λ (c : Bool). if c then some x else get h key) s)
  ]

  pub kept_none :
      (h : HashTable) (k key : List ℤ)
      → IsTable h
      → (bin && h.nocase) ≡ false
      → get h k ≡ none
      → get h key ≡ (if same h.nocase k key then none else get h key)
  kept_none h k key t ok had = elim (Bool-cases (same h.nocase k key)) [
    | inl s ↦
        lookup_same h k key t ok s ∙ had ∙ sym (ap (λ (c : Bool). if c then none else get h key) s)
    | inr s ↦ sym (ap (λ (c : Bool). if c then none else get h key) s)
  ]
