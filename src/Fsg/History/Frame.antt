-- ===== src/Fsg/History/Frame.antt =====
-- The table of a frame: adding an entry, and what it means for every state and context.
use pocketsphinx.Base.{
  ℕ, ◌≡◌, ◌≢◌, ◌<◌, refl, sym, subst, ◌∙◌, Bool, true, false, ◌&&◌, some, List, [], pos, ltb_ℤ,
  ◌==◌, if◌then◌else◌, arith, Bool-cases, inl, inr, length, length-replicate, replicate, zero, suc,
  get_or, set, get_or-set_self, get_or-set_ne, length-set,
}
use native.Mathlib.Decide.{ℕ_discrete}
use pocketsphinx.Fsg.History.{
  Link, Entry, History, cell, set_cell, insert, fsg_history_entry_add, empty_table,
  fsg_history_set_fsg, fsg_history_end_frame, fsg_history_n_entries,
}
use pocketsphinx.Util.BlkArray.{BlkArray, blkarray_list_reset}
use pocketsphinx.Fsg.History.Bits.{bit}
use pocketsphinx.Fsg.History.Cell.{
  view, better, path, IsSorted, IsDisjoint, insert-view, insert-IsSorted, insert-IsDisjoint,
}

-- The table has a row for each state, and every row a cell for each phone; every cell is in order.
pub record IsHistory (h : History) : Type 0 where
  pub states : length h.frame_entries ≡ h.n_state
  pub phones : (s : ℕ) → s < h.n_state → length (get_or h.frame_entries s []) ≡ h.n_ciphone
  pub sorted : (s lc : ℕ) → IsSorted (cell h s lc)
  pub disjoint : (s lc : ℕ) → IsDisjoint (cell h s lc)

abbrev same_cell : ℕ → ℕ → ℕ → ℕ → Bool
same_cell s lc s' lc' = s' == s && lc' == lc

pick-IsSorted :
    (c : Bool) (es xs : List Entry) → IsSorted es → IsSorted xs → IsSorted (if c then es else xs)
pick-IsSorted true es xs a b = a
pick-IsSorted false es xs a b = b

pick-IsDisjoint :
    (c : Bool) (es xs : List Entry)
    → IsDisjoint es
    → IsDisjoint xs
    → IsDisjoint (if c then es else xs)
pick-IsDisjoint true es xs a b = a
pick-IsDisjoint false es xs a b = b

pick_view :
    (h : History) (new : Entry) (to s lc w b : ℕ)
    → view (insert (cell h to new.lc) new) w b ≡ (
        if bit new.rc w b
        then some (better (view (cell h to new.lc) w b) (path new))
        else view (cell h to new.lc) w b)
    → view (if same_cell to new.lc s lc then insert (cell h to new.lc) new else cell h s lc) w b ≡ (
        if (s == to && lc == new.lc) && bit new.rc w b
        then some (better (view (cell h s lc) w b) (path new))
        else view (cell h s lc) w b)
pick_view h new to s lc w b e = elim (Bool-cases (s == to)) [
  | inr ne ↦ rw ne
  | inl eq ↦
      let es : s ≡ to = ground arith in
      elim (Bool-cases (lc == new.lc)) [
        | inr ne ↦ rw (eq, ne)
        | inl eq' ↦ let el : lc ≡ new.lc = ground arith in rw (eq, eq', es, el) e
      ]
]

module _ (h : History) (s lc : ℕ) (es : List Entry) (v : IsHistory h) (ls : s < h.n_state)
    (ll : lc < h.n_ciphone) where
  row_self :
      get_or (set_cell h s lc es).frame_entries s [] ≡ set (get_or h.frame_entries s []) lc es
  unfolding set_cell
  row_self = get_or-set_self h.frame_entries s _ [] (omega (arith, v.states))

  row_ne :
      (s' : ℕ)
      → s' ≢ s
      → get_or (set_cell h s lc es).frame_entries s' [] ≡ get_or h.frame_entries s' []
  unfolding set_cell
  row_ne s' ne = get_or-set_ne h.frame_entries s s' _ [] ne

  -- Writing a cell changes that cell and no other.
  cell-set_cell :
      (s' lc' : ℕ)
      → cell (set_cell h s lc es) s' lc' ≡ (if same_cell s lc s' lc' then es else cell h s' lc')
  unfolding cell
  cell-set_cell s' lc' = elim (Bool-cases (s' == s)) [
    | inr ne ↦ rw (ne, row_ne s' (ground arith))
    | inl eq ↦
        let e : s' ≡ s = ground arith in
        elim (Bool-cases (lc' == lc)) [
          | inl eq' ↦
              let e' : lc' ≡ lc = ground arith in
              rw (eq, eq', e, e', row_self)
                (get_or-set_self (get_or h.frame_entries s []) lc es []
                  (omega (arith, v.phones s ls)))
          | inr ne ↦
              rw (eq, ne, e, row_self)
                (get_or-set_ne (get_or h.frame_entries s []) lc lc' es [] (ground arith))
        ]
  ]

  set_cell-IsHistory : IsSorted es → IsDisjoint es → IsHistory (set_cell h s lc es)
  unfolding set_cell
  set_cell-IsHistory so di = record {
    states = length-set h.frame_entries s _ ∙ v.states;
    phones = λ s' lt. elim (ℕ_discrete s' s) [
      | yes e ↦ rw (e, row_self) (length-set (get_or h.frame_entries s []) lc es ∙ v.phones s ls)
      | no ne ↦ rw (row_ne s' ne) (v.phones s' lt)
    ];
    sorted = λ s' lc'.
        subst IsSorted (sym (cell-set_cell s' lc'))
          (pick-IsSorted (same_cell s lc s' lc') es (cell h s' lc') so (v.sorted s' lc'));
    disjoint = λ s' lc'.
        subst IsDisjoint (sym (cell-set_cell s' lc'))
          (pick-IsDisjoint (same_cell s lc s' lc') es (cell h s' lc') di (v.disjoint s' lc'));
  }

entry_add_cell :
    (h : History) (new : Entry) (link : Link)
    → new.fsglink ≡ some link
    → ltb_ℤ new.frame (pos 0) ≡ false
    → fsg_history_entry_add h new
      ≡ set_cell h link.to_state new.lc (insert (cell h link.to_state new.lc) new)
unfolding fsg_history_entry_add
entry_add_cell h new link el f = ground arith

-- Adding an entry for the current frame keeps the table in order, and changes no entry of earlier
-- frames. For each state, left context and right context the path kept is the one kept before,
-- except where the entry ends, with its left context and the right contexts it applies to: there it
-- is the better of the two paths, and the old one at equal scores.
pub entry_add_view :
    (h : History) (new : Entry) (link : Link)
    → IsHistory h
    → new.fsglink ≡ some link
    → ltb_ℤ new.frame (pos 0) ≡ false
    → link.to_state < h.n_state
    → new.lc < h.n_ciphone
    → let h' = fsg_history_entry_add h new in
      IsHistory h'
      × (h'.entries ≡ h.entries)
      × ((s lc w b : ℕ)
          → view (cell h' s lc) w b ≡ (
              if (s == link.to_state && lc == new.lc) && bit new.rc w b
              then some (better (view (cell h s lc) w b) (path new))
              else view (cell h s lc) w b))
entry_add_view h new link v el f ls ll =
    let to = link.to_state in
    let old = cell h to new.lc in
    let es = insert old new in
    rw (entry_add_cell h new link el f) (
      set_cell-IsHistory h to new.lc es v ls ll (insert-IsSorted old new (v.sorted to new.lc))
          (insert-IsDisjoint old new (v.sorted to new.lc) (v.disjoint to new.lc)),
      unfold set_cell in refl,
      λ s lc w b.
          rw (cell-set_cell h to new.lc es v ls ll s lc)
            (pick_view h new to s lc w b (insert-view old new w b (v.sorted to new.lc))),
    )

empty_row : (n lc : ℕ) → get_or (replicate {A = List Entry} n []) lc [] ≡ []
empty_row zero lc = refl
empty_row (suc n) zero = refl
empty_row (suc n) (suc lc) = empty_row n lc

empty_rows : (n m s : ℕ) → s < n → get_or (empty_table n m) s [] ≡ replicate m []
empty_rows zero m s h = absurd (omega arith)
empty_rows (suc n) m zero h = refl
empty_rows (suc n) m (suc s) h = empty_rows n m s (omega arith)

empty_cell : (n m s lc : ℕ) → get_or (get_or (empty_table n m) s []) lc [] ≡ []
empty_cell zero m s lc = refl
empty_cell (suc n) m zero lc = empty_row m lc
empty_cell (suc n) m (suc s) lc = empty_cell n m s lc

empty-IsHistory :
    (es : BlkArray Entry) (n m : ℕ)
    → IsHistory
        (record { entries = es; frame_entries = empty_table n m; n_state = n; n_ciphone = m })
unfolding cell
empty-IsHistory es n m = record {
  states = length-replicate n (replicate m []);
  phones = λ s lt. rw (empty_rows n m s lt) (length-replicate m []);
  sorted = λ s lc. rw (empty_cell n m s lc) tt;
  disjoint = λ s lc. rw (empty_cell n m s lc) tt;
}

-- Setting a grammar and ending a frame leave the table in order, with the sizes of the grammar and
-- no path in any cell; setting a grammar leaves no entries.
pub start_lem :
    (h : History) (n m : ℕ)
    → IsHistory (fsg_history_set_fsg h n m)
      × IsHistory (fsg_history_end_frame h)
      × ((s lc : ℕ) → cell (fsg_history_set_fsg h n m) s lc ≡ [])
      × ((s lc : ℕ) → cell (fsg_history_end_frame h) s lc ≡ [])
      × (fsg_history_n_entries (fsg_history_set_fsg h n m) ≡ 0)
unfolding fsg_history_set_fsg fsg_history_end_frame fsg_history_n_entries cell blkarray_list_reset
start_lem h n m = (
  empty-IsHistory _ n m,
  empty-IsHistory _ h.n_state h.n_ciphone,
  empty_cell n m,
  empty_cell h.n_state h.n_ciphone,
  ground arith,
)
