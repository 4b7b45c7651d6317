-- ===== src/Tests/Fsg.antt =====
-- Runs of the history of the grammar search.
use pocketsphinx.Base.{
  zero, suc, none, length, get_or, ◌<◌, ◌≡◌, ℕ, true, false, ◌&&◌, ◌==◌, refl, some, ℤ, pos, negsuc,
  [], ◌∷◌, arith, if◌then◌else◌,
}
use pocketsphinx.Util.BlkArray.{BlkArray}
use pocketsphinx.Util.BlkArray.Laws.{IsValid}
use pocketsphinx.Fsg.History.Transfer.{Extends, in_table, end_frame_lem}
use pocketsphinx.Fsg.History.{
  Link, Entry, History, Context, cell, fsg_history_entry_add, fsg_history_set_fsg,
  fsg_history_end_frame,
}
use pocketsphinx.Fsg.History.Bits.{bit}
use pocketsphinx.Fsg.History.Cell.{view, better, path}
use pocketsphinx.Fsg.History.Frame.{IsHistory, entry_add_view, start_lem}

abbrev no_entries : BlkArray Entry
no_entries = record { ptr = []; maxblks = 2; blksize = 2; n_valid = 0; rows = 0; cur_row_free = 2 }

abbrev bare : History
bare = record { entries = no_entries; frame_entries = []; n_state = 0; n_ciphone = 0 }

abbrev link : Link
link = record { from_state = 0; to_state = 1; logs2prob = negsuc 4; wid = pos 3 }

abbrev entry : ℤ → Context → Entry
entry score rc = record {
  fsglink = some link;
  score = score;
  pred = pos 0;
  frame = pos 5;
  lc = 0;
  rc = rc;
}

abbrev low : Entry
low = entry (negsuc 9) ((true ∷ true ∷ []) ∷ [])

abbrev high : Entry
high = entry (negsuc 2) ((true ∷ false ∷ []) ∷ [])

abbrev ready : History
ready = fsg_history_set_fsg bare 2 1

ready-IsHistory : IsHistory ready
ready-IsHistory = (start_lem bare 2 1).0

states : ready.n_state ≡ 2
unfolding fsg_history_set_fsg
states = refl

entry_add_view_example :
    let h' = fsg_history_entry_add ready high in
    IsHistory h'
    × (h'.entries ≡ ready.entries)
    × ((s lc w b : ℕ)
        → view (cell h' s lc) w b ≡ (
            if (s == 1 && lc == 0) && bit high.rc w b
            then some (better (view (cell ready s lc) w b) (path high))
            else view (cell ready s lc) w b))
unfolding fsg_history_set_fsg
entry_add_view_example =
    entry_add_view ready high link ready-IsHistory refl refl (omega arith) (omega arith)

abbrev stored : BlkArray Entry
stored = record {
  ptr = (some low ∷ none ∷ []) ∷ [];
  maxblks = 2;
  blksize = 2;
  n_valid = 1;
  rows = 1;
  cur_row_free = 1;
}

widths : (r : ℕ) → r < 1 → length (get_or stored.ptr r []) ≡ 2
widths zero h = refl
widths (suc r) h = absurd (omega arith)

stored-IsValid : IsValid stored
stored-IsValid = record {
  wide = omega arith;
  filled = refl;
  free = omega arith;
  rows_length = refl;
  rows_max = omega arith;
  row_length = widths;
}

abbrev busy : History
busy = record {
  entries = stored;
  frame_entries = ((high ∷ low ∷ []) ∷ []) ∷ ([] ∷ []) ∷ [];
  n_state = 2;
  n_ciphone = 1;
}

end_frame_lem_example :
    Extends stored (in_table busy.frame_entries) (fsg_history_end_frame busy).entries
end_frame_lem_example = end_frame_lem busy stored-IsValid (omega arith)
