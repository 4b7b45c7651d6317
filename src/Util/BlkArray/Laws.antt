-- ===== src/Util/BlkArray/Laws.antt =====
-- The blocked array holds a list: what is appended is found at the id returned.
use pocketsphinx.Base.{
  ℕ, ◌+◌, ◌-◌, ◌*◌, ◌/◌, ◌≡◌, ◌<◌, ◌≤◌, refl, ap, ◌∙◌, Bool, true, false, ◌&&◌, ◌==◌, Option, none,
  some, List, [], ◌∷◌, leb, if◌then◌else◌, length, get_or, set, replicate, arith, Bool-cases, inl,
  inr, length-set, get_or-set_self, get_or-set_ne, length-append, length-replicate,
}
use native.Mathlib.Decide.{ℕ_discrete, dec_lt}
use pocketsphinx.Util.BlkArray.{BlkArray, store, new_row, blkarray_list_append, blkarray_list_get}
use pocketsphinx.Util.BlkArray.Grid.{
  div_unique, next_cell, grid-set, next_filled, row_of, get_or-append, row_case, last_row,
  more_rows, same_place,
}

module _ {A : Type 0} where
  -- The ids fill whole rows up to the last one.
  pub record IsValid (bl : BlkArray A) : Type 0 where
    pub wide : 0 < bl.blksize
    pub filled : bl.n_valid + bl.blksize ≡ bl.rows * bl.blksize + bl.cur_row_free
    pub free : bl.cur_row_free ≤ bl.blksize
    pub rows_length : length bl.ptr ≡ bl.rows
    pub rows_max : bl.rows ≤ bl.maxblks
    pub row_length : (r : ℕ) → r < bl.rows → length (get_or bl.ptr r []) ≡ bl.blksize

  -- Without the test for the end: what stands in cell `n`.
  abbrev cell_at : BlkArray A → ℕ → Option A
  cell_at bl n = get_or (get_or bl.ptr (n / bl.blksize) []) (n - n / bl.blksize * bl.blksize) none

  store-cell :
      (bl : BlkArray A) (x : A) (n : ℕ)
      → IsValid bl
      → bl.cur_row_free < bl.blksize
      → n ≤ bl.n_valid
      → cell_at (store bl x) n ≡ (if leb bl.n_valid n then some x else cell_at bl n)
  unfolding store
  store-cell bl x n v lt le =
      let blk = bl.blksize in
      let (some_row, stands) = next_cell bl.n_valid blk bl.rows bl.cur_row_free v.filled lt in
      let row : bl.n_valid / blk ≡ bl.rows - 1 =
        div_unique bl.n_valid blk (bl.rows - 1) bl.cur_row_free stands lt in
      let row_blk = ap (λ k. k * blk) row in
      let col : bl.n_valid - bl.n_valid / blk * blk ≡ bl.cur_row_free = omega arith in
      let written =
        grid-set bl.ptr (bl.rows - 1) bl.cur_row_free (some x) none (omega (arith, v.rows_length))
          (omega (arith, v.row_length (bl.rows - 1) (omega arith))) (n / blk) (n - n / blk * blk) in
      let test : (n / blk == bl.rows - 1 && n - n / blk * blk == bl.cur_row_free)
          ≡ leb bl.n_valid n =
        elim (ℕ_discrete n bl.n_valid) [
          | yes e ↦
              let q = ap (λ k. k / blk) e in let q' = ap (λ k. k / blk * blk) e in ground arith
          | no ne ↦ ground (arith, same_place n bl.n_valid blk)
        ] in
      written ∙ ap (λ (b : Bool). if b then some x else cell_at bl n) test

  -- A row is allocated only when the last one is full; the cells stay.
  new_row-IsValid :
      (bl : BlkArray A)
      → IsValid bl
      → bl.cur_row_free ≡ bl.blksize
      → bl.rows < bl.maxblks
      → IsValid (new_row bl)
  unfolding new_row
  new_row-IsValid bl v full more = record {
    wide = v.wide;
    filled = next_filled bl.n_valid bl.blksize bl.rows bl.cur_row_free v.filled full;
    free = omega arith;
    rows_length =
        length-append bl.ptr (replicate bl.blksize none ∷ []) ∙ omega (arith, v.rows_length);
    rows_max = omega arith;
    row_length = λ r lt.
        row_case bl.ptr (replicate bl.blksize none) bl.rows bl.blksize r v.rows_length
          (length-replicate bl.blksize none) v.row_length lt;
  }

  new_row-cell :
      (bl : BlkArray A) (n : ℕ)
      → IsValid bl
      → bl.cur_row_free ≡ bl.blksize
      → n < bl.n_valid
      → cell_at (new_row bl) n ≡ cell_at bl n
  unfolding new_row
  new_row-cell bl n v full lt =
      let inside : n / bl.blksize < bl.rows =
        row_of n bl.n_valid bl.blksize bl.rows bl.cur_row_free v.filled full lt in
      ap (λ (row : List (Option A)). get_or row (n - n / bl.blksize * bl.blksize) none)
        (get_or-append bl.ptr (replicate bl.blksize none ∷ []) (n / bl.blksize) []
          (omega (arith, v.rows_length)))

  store-IsValid :
      (bl : BlkArray A) (x : A) → IsValid bl → bl.cur_row_free < bl.blksize → IsValid (store bl x)
  unfolding store
  store-IsValid bl x v lt = record {
    wide = v.wide;
    filled = omega (arith, v.filled);
    free = omega arith;
    rows_length = length-set bl.ptr _ _ ∙ v.rows_length;
    rows_max = v.rows_max;
    row_length = λ r h. elim (ℕ_discrete r (bl.rows - 1)) [
      | yes e ↦
          rw
            (
              e,
              get_or-set_self bl.ptr (bl.rows - 1)
                  (set (get_or bl.ptr (bl.rows - 1) []) bl.cur_row_free (some x)) []
                  (omega (arith, v.rows_length)),
            )
            (length-set (get_or bl.ptr (bl.rows - 1) []) bl.cur_row_free (some x)
              ∙ v.row_length (bl.rows - 1) (omega arith))
      | no ne ↦
          rw
            (get_or-set_ne bl.ptr (bl.rows - 1) r
              (set (get_or bl.ptr (bl.rows - 1) []) bl.cur_row_free (some x)) [] ne)
            (v.row_length r h)
    ];
  }

  store_get :
      (bl : BlkArray A) (x : A) (n : ℕ)
      → IsValid bl
      → bl.cur_row_free < bl.blksize
      → blkarray_list_get (store bl x) n
        ≡ (if n == bl.n_valid then some x else blkarray_list_get bl n)
  unfolding store blkarray_list_get
  store_get bl x n v lt = elim (dec_lt bl.n_valid n) [
    | yes p ↦ ground arith
    | no p ↦ let cell = store-cell bl x n v lt (omega arith) in ground (arith, cell)
  ]

  -- What an append that succeeds does.
  abbrev pub Appends : BlkArray A → A → Option ℕ × BlkArray A → Type 0
  Appends bl x r =
      (r.0 ≡ some bl.n_valid)
      × IsValid r.1
      × ((n : ℕ)
          → blkarray_list_get r.1 n ≡ (if n == bl.n_valid then some x else blkarray_list_get bl n))

  new_row_get :
      (bl : BlkArray A) (n : ℕ)
      → IsValid bl
      → bl.cur_row_free ≡ bl.blksize
      → blkarray_list_get (new_row bl) n ≡ blkarray_list_get bl n
  unfolding new_row blkarray_list_get
  new_row_get bl n v full = elim (dec_lt n bl.n_valid) [
    | yes p ↦ let cell = new_row-cell bl n v full p in ground (arith, cell)
    | no p ↦ ground arith
  ]

  -- Appending to an array that is not full returns the next id, and keeps the array well formed;
  -- the element is found at that id, and every other id gives what it gave before.
  pub append-get :
      (bl : BlkArray A) (x : A)
      → IsValid bl
      → bl.n_valid < bl.maxblks * bl.blksize
      → Appends bl x (blkarray_list_append bl x)
  unfolding blkarray_list_append new_row
  append-get bl x v room = elim (Bool-cases (leb bl.blksize bl.cur_row_free)) [
    | inl e ↦
        let full : bl.cur_row_free ≡ bl.blksize = ground (arith, v.free) in
        let more =
          more_rows bl.n_valid bl.rows bl.blksize bl.maxblks (omega (arith, v.filled)) room in
        let w = new_row-IsValid bl v full more in
        let e' : leb bl.maxblks bl.rows ≡ false = ground arith in
        rw (e, e')
          (
            refl,
            store-IsValid (new_row bl) x w (omega (arith, v.wide)),
            λ n.
                store_get (new_row bl) x n w (omega (arith, v.wide))
                ∙ ap (λ (y : Option A). if n == bl.n_valid then some x else y)
                    (new_row_get bl n v full),
          )
    | inr e ↦
        let lt : bl.cur_row_free < bl.blksize = ground arith in
        rw e (refl, store-IsValid bl x v lt, λ n. store_get bl x n v lt)
  ]

  -- An append that succeeds counts the element and keeps the limits.
  pub append_sizes :
      (bl : BlkArray A) (x : A)
      → IsValid bl
      → bl.n_valid < bl.maxblks * bl.blksize
      → let bl' = (blkarray_list_append bl x).1 in
        (bl'.n_valid ≡ bl.n_valid + 1) × (bl'.maxblks ≡ bl.maxblks) × (bl'.blksize ≡ bl.blksize)
  unfolding blkarray_list_append new_row store
  append_sizes bl x v room = elim (Bool-cases (leb bl.blksize bl.cur_row_free)) [
    | inl e ↦
        let full : bl.cur_row_free ≡ bl.blksize = ground (arith, v.free) in
        let more =
          more_rows bl.n_valid bl.rows bl.blksize bl.maxblks (omega (arith, v.filled)) room in
        let e' : leb bl.maxblks bl.rows ≡ false = ground arith in rw (e, e') (refl, refl, refl)
    | inr e ↦ rw e (refl, refl, refl)
  ]

  -- Appending to a full array is refused, and changes nothing.
  pub append_full :
      (bl : BlkArray A) (x : A)
      → IsValid bl
      → bl.n_valid ≡ bl.maxblks * bl.blksize
      → blkarray_list_append bl x ≡ (none, bl)
  unfolding blkarray_list_append
  append_full bl x v full =
      let r =
        last_row bl.n_valid bl.rows bl.blksize bl.maxblks bl.cur_row_free v.filled full v.rows_max
          v.free v.wide in
      let e : leb bl.maxblks bl.rows ≡ true = ground arith in
      let e' : leb bl.blksize bl.cur_row_free ≡ true = ground arith in rw (e', e) refl
