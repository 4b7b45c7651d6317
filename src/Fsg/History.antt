-- ===== src/Fsg/History.antt =====
-- src/fsg_history.c, with the context sets of src/fsg_lextree.c: the Viterbi history of a search over
-- a grammar. In a frame the entries that end in one state with one left context are kept as a list,
-- best score first, each with the set of right contexts for which it is the best.
--
-- A context set is the source's 8 words of 32 bits, a word being its bits. The table
-- `frame_entries[s][lc]` is a list of lists of such lists.
pub mod Bits
pub mod Cell
pub mod Frame
pub mod Transfer
use pocketsphinx.Base.{
  ℕ, Bool, true, false, ◌&&◌, ◌||◌, not, Option, none, some, List, [], ◌∷◌, ◌++◌, ℤ, pos, ltb_ℤ,
  if◌then◌else◌, get_or, set, replicate, ◌==◌,
}
use pocketsphinx.Util.BlkArray.{
  BlkArray, blkarray_list_append, blkarray_list_reset, blkarray_list_get,
}

abbrev pub Word : Type 0
Word = List Bool

abbrev pub Context : Type 0
Context = List Word

-- `~sub & src` on one word; equally long words are expected.
unfoldable pub sub_word : Word → Word → Word
sub_word [] t = []
sub_word (b ∷ s) [] = b ∷ s
sub_word (b ∷ s) (c ∷ t) = (not c && b) ∷ sub_word s t

unfoldable pub or_word : Word → Word → Word
or_word [] t = t
or_word (b ∷ s) [] = b ∷ s
or_word (b ∷ s) (c ∷ t) = (b || c) ∷ or_word s t

-- The set less `sub`, and the union `res` of its words.
unfoldable pub ctxt_sub : Context → Context → Word → Context × Word
unfolding sub_word or_word
ctxt_sub [] sub res = ([], res)
ctxt_sub (w ∷ src) [] res = let (src', res') = ctxt_sub src [] (or_word res w) in (w ∷ src', res')
ctxt_sub (w ∷ src) (v ∷ sub) res =
    let w' = sub_word w v in
    let (src', res') = ctxt_sub src sub (or_word res w') in (w' ∷ src', res')

-- `fsg_pnode_ctxt_sub_generic`
unfoldable pub fsg_pnode_ctxt_sub : Context → Context → Context × Word
unfolding ctxt_sub
fsg_pnode_ctxt_sub src sub = ctxt_sub src sub []

-- A word compared with 0.
unfoldable pub is_zero_word : Word → Bool
is_zero_word [] = true
is_zero_word (b ∷ w) = not b && is_zero_word w

-- `fsg_link_t`
pub record Link : Type 0 where
  pub from_state : ℕ
  pub to_state : ℕ
  pub logs2prob : ℤ
  pub wid : ℤ

-- `fsg_hist_entry_t`; the link of the initial entry is NULL.
pub record Entry : Type 0 where
  pub fsglink : Option Link
  pub score : ℤ
  pub pred : ℤ
  pub frame : ℤ
  pub lc : ℕ
  pub rc : Context

-- `fsg_history_t`, with the grammar's number of states.
pub record History : Type 0 where
  pub entries : BlkArray Entry
  pub frame_entries : List (List (List Entry))
  pub n_state : ℕ
  pub n_ciphone : ℕ

-- The second loop of `fsg_history_entry_add`: the contexts of the new entry are taken from those
-- that follow it, and an entry with none left goes.
unfoldable pub prune : List Entry → Context → List Entry
prune [] rc = []
prune (e ∷ es) rc =
    let (rc', res) = fsg_pnode_ctxt_sub e.rc rc in
    let rest = prune es rc in if is_zero_word res then rest else record e { rc = rc' } ∷ rest

-- The first loop, from an entry on: the contexts of the entries that are not worse are taken from
-- the new one, which is dropped when none is left.
unfoldable pub insert : List Entry → Entry → List Entry
insert [] new = new ∷ []
insert (e ∷ es) new =
    let (rc', res) = fsg_pnode_ctxt_sub new.rc e.rc in
    let rest = insert es (record new { rc = rc' }) in
    if ltb_ℤ e.score new.score
    then new ∷ prune (e ∷ es) new.rc
    else if is_zero_word res
    then e ∷ es
    else e ∷ rest

unfoldable pub cell : History → ℕ → ℕ → List Entry
cell h s lc = get_or (get_or h.frame_entries s []) lc []

unfoldable pub set_cell : History → ℕ → ℕ → List Entry → History
set_cell h s lc es = record h {
  frame_entries = set h.frame_entries s (set (get_or h.frame_entries s []) lc es);
}

-- An entry with a negative frame is always kept. The link of any other is not NULL.
unfoldable pub fsg_history_entry_add : History → Entry → History
fsg_history_entry_add h new =
    if ltb_ℤ new.frame (pos 0)
    then record h { entries = (blkarray_list_append h.entries new).1 }
    else elim new.fsglink [
      | none ↦ h
      | some link ↦ set_cell h link.to_state new.lc (insert (cell h link.to_state new.lc) new)
    ]

unfoldable pub append_all : BlkArray Entry → List Entry → BlkArray Entry
append_all bl [] = bl
append_all bl (e ∷ es) = append_all (blkarray_list_append bl e).1 es

-- The loop over left contexts, and the one over states.
unfoldable pub append_row : BlkArray Entry → List (List Entry) → BlkArray Entry
unfolding append_all
append_row bl [] = bl
append_row bl (c ∷ cs) = append_row (append_all bl c) cs

unfoldable pub append_table : BlkArray Entry → List (List (List Entry)) → BlkArray Entry
unfolding append_row
append_table bl [] = bl
append_table bl (r ∷ rs) = append_table (append_row bl r) rs

abbrev pub empty_table : ℕ → ℕ → List (List (List Entry))
empty_table n_state n_ciphone = replicate n_state (replicate n_ciphone [])

unfoldable pub fsg_history_end_frame : History → History
unfolding append_table
fsg_history_end_frame h = record h {
  entries = append_table h.entries h.frame_entries;
  frame_entries = empty_table h.n_state h.n_ciphone;
}

unfoldable pub fsg_history_entry_get : History → ℕ → Option Entry
fsg_history_entry_get h id = blkarray_list_get h.entries id

unfoldable pub fsg_history_reset : History → History
fsg_history_reset h = record h { entries = blkarray_list_reset h.entries }

unfoldable pub fsg_history_n_entries : History → ℕ
fsg_history_n_entries h = h.entries.n_valid

-- The grammar is given by its number of states and the number of phones of the dictionary's model.
unfoldable pub fsg_history_set_fsg : History → ℕ → ℕ → History
fsg_history_set_fsg h n_state n_ciphone = record h {
  entries = if h.entries.n_valid == 0 then h.entries else blkarray_list_reset h.entries;
  frame_entries = empty_table n_state n_ciphone;
  n_state = n_state;
  n_ciphone = n_ciphone;
}
