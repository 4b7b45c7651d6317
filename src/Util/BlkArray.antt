-- ===== src/Util/BlkArray.antt =====
-- src/util/blkarray_list.c: a list of pointers in blocks. `rows` is the source's `cur_row + 1`, so
-- that the -1 of an empty list is 0. A cell of a new block is not yet written: `none`.
pub mod Grid
pub mod Laws
use pocketsphinx.Base.{
  ℕ, suc, ◌+◌, ◌-◌, ◌*◌, ◌/◌, Bool, true, false, ◌||◌, Option, none, some, List, [], ◌∷◌, ◌++◌, leb,
  ltb, ◌==◌, if◌then◌else◌, get_or, set, replicate, length,
}

pub record BlkArray (A : Type 0) : Type 0 where
  pub ptr : List (List (Option A))
  pub maxblks : ℕ
  pub blksize : ℕ
  pub n_valid : ℕ
  pub rows : ℕ
  pub cur_row_free : ℕ

module _ {A : Type 0} where
  -- `none` is NULL.
  unfoldable pub blkarray_list_init : ℕ → ℕ → Option (BlkArray A)
  blkarray_list_init maxblks blksize =
      if maxblks == 0 || blksize == 0
      then none
      else some (record {
        ptr = [];
        maxblks = maxblks;
        blksize = blksize;
        n_valid = 0;
        rows = 0;
        cur_row_free = blksize;
      })

  -- The write into the current row.
  unfoldable pub store : BlkArray A → A → BlkArray A
  store bl x =
      let r = bl.rows - 1 in
      record bl {
        ptr = set bl.ptr r (set (get_or bl.ptr r []) bl.cur_row_free (some x));
        cur_row_free = bl.cur_row_free + 1;
        n_valid = bl.n_valid + 1;
      }

  unfoldable pub new_row : BlkArray A → BlkArray A
  new_row bl = record bl {
    ptr = bl.ptr ++ replicate bl.blksize none ∷ [];
    rows = bl.rows + 1;
    cur_row_free = 0;
  }

  -- The id and the list; `none` is -1.
  unfoldable pub blkarray_list_append : BlkArray A → A → Option ℕ × BlkArray A
  unfolding store new_row
  blkarray_list_append bl x =
      if leb bl.blksize bl.cur_row_free
      then if leb bl.maxblks bl.rows then (none, bl) else (some bl.n_valid, store (new_row bl) x)
      else (some bl.n_valid, store bl x)

  unfoldable pub blkarray_list_reset : BlkArray A → BlkArray A
  blkarray_list_reset bl = record bl { ptr = []; n_valid = 0; rows = 0; cur_row_free = bl.blksize }

  -- `none` is NULL, or a cell never written.
  unfoldable pub blkarray_list_get : BlkArray A → ℕ → Option A
  blkarray_list_get bl n =
      let r = n / bl.blksize in
      let c = n - r * bl.blksize in
      if leb bl.n_valid n then none else get_or (get_or bl.ptr r []) c none
