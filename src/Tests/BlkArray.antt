-- ===== src/Tests/BlkArray.antt =====
-- Runs of the blocked array.
use pocketsphinx.Base.{◌≡◌, ℕ, zero, suc, ◌<◌, arith, refl, some, [], ◌∷◌, length, get_or}
use pocketsphinx.Util.BlkArray.{BlkArray, blkarray_list_append}
use pocketsphinx.Util.BlkArray.Laws.{IsValid, Appends, append-get}

-- Two blocks of two, the first one full.
abbrev half_full : BlkArray ℕ
half_full = record {
  ptr = (some 5 ∷ some 6 ∷ []) ∷ [];
  maxblks = 2;
  blksize = 2;
  n_valid = 2;
  rows = 1;
  cur_row_free = 2;
}

abbrev one_block : BlkArray ℕ
one_block = record half_full { maxblks = 1 }

widths : (r : ℕ) → r < 1 → length (get_or half_full.ptr r []) ≡ 2
widths zero h = refl
widths (suc r) h = absurd (omega arith)

half_full-IsValid : IsValid half_full
half_full-IsValid = record {
  wide = omega arith;
  filled = refl;
  free = omega arith;
  rows_length = refl;
  rows_max = omega arith;
  row_length = widths;
}

one_block-IsValid : IsValid one_block
one_block-IsValid = record {
  wide = omega arith;
  filled = refl;
  free = omega arith;
  rows_length = refl;
  rows_max = omega arith;
  row_length = widths;
}

append-get_example : Appends half_full 7 (blkarray_list_append half_full 7)
append-get_example = append-get half_full 7 half_full-IsValid (omega arith)
