-- ===== src/Fsg/History/Transfer.antt =====
-- The end of a frame: its entries get the next ids of the history.
use pocketsphinx.Base.{
  ℕ, zero, suc, ◌+◌, ◌-◌, ◌*◌, ◌≡◌, ◌≤◌, refl, sym, subst, ap, ◌∙◌, false, Option, none, some, List,
  [], ◌∷◌, ◌++◌, ltb, if◌then◌else◌, length, get_elem?, arith, ◌==◌,
}
use pocketsphinx.Util.BlkArray.{BlkArray, blkarray_list_append, blkarray_list_get}
use pocketsphinx.Util.BlkArray.Laws.{IsValid, append-get, append_sizes}
use pocketsphinx.Fsg.History.{
  Entry, History, append_all, append_row, append_table, fsg_history_end_frame,
}

-- What appending `es` gives.
abbrev pub Extends : BlkArray Entry → List Entry → BlkArray Entry → Type 0
Extends bl es bl' =
    IsValid bl'
    × (bl'.n_valid ≡ bl.n_valid + length es)
    × ((n : ℕ)
        → blkarray_list_get bl' n
          ≡ (if ltb n bl.n_valid then blkarray_list_get bl n else get_elem? es (n - bl.n_valid)))

past_end : (bl : BlkArray Entry) (n : ℕ) → ltb n bl.n_valid ≡ false → blkarray_list_get bl n ≡ none
unfolding blkarray_list_get
past_end bl n h = ground arith

nothing :
    (bl : BlkArray Entry) (n : ℕ)
    → blkarray_list_get bl n ≡ (if ltb n bl.n_valid then blkarray_list_get bl n else none)
nothing bl n = ground (arith, past_end bl n)

cons_at :
    (x : Entry) (es : List Entry) (k : ℕ)
    → get_elem? (x ∷ es) k ≡ (if k == 0 then some x else get_elem? es (k - 1))
cons_at x es zero = refl
cons_at x es (suc k) =
    let e : suc k - 1 ≡ k = omega arith in
    let e' : (suc k == 0) ≡ false = ground arith in rw (e', e)

cons_get :
    (x : Entry) (es : List Entry) (n v : ℕ) (old : Option Entry)
    → (if ltb n (v + 1) then if n == v then some x else old else get_elem? es (n - (v + 1)))
      ≡ (if ltb n v then old else get_elem? (x ∷ es) (n - v))
cons_get x es n v old =
    let e : n - (v + 1) ≡ n - v - 1 = omega arith in rw (cons_at x es (n - v), e) (ground arith)

append_all-Extends :
    (es : List Entry) (bl : BlkArray Entry)
    → IsValid bl
    → bl.n_valid + length es ≤ bl.maxblks * bl.blksize
    → Extends bl es (append_all bl es)
unfolding append_all
append_all-Extends [] bl v room = (v, omega arith, nothing bl)
append_all-Extends (x ∷ es) bl v room =
    let bl' = (blkarray_list_append bl x).1 in
    let (id, v', get) = append-get bl x v (omega arith) in
    let (count, blks, size) = append_sizes bl x v (omega arith) in
    let room' : bl'.n_valid + length es ≤ bl'.maxblks * bl'.blksize =
      rw (count, blks, size) (omega arith) in
    let (valid, total, found) = append_all-Extends es bl' v' room' in
    (
      valid,
      omega arith,
      λ n.
          let step : (if ltb n bl'.n_valid
                then blkarray_list_get bl' n
                else get_elem? es (n - bl'.n_valid))
              ≡ (if ltb n (bl.n_valid + 1)
                  then if n == bl.n_valid then some x else blkarray_list_get bl n
                  else get_elem? es (n - (bl.n_valid + 1))) =
            rw (count, get n) in
          found n ∙ step ∙ cons_get x es n bl.n_valid (blkarray_list_get bl n),
    )

-- The entries of a frame in the order of states, left contexts and lists.
abbrev pub in_row : List (List Entry) → List Entry
in_row [] = []
in_row (c ∷ cs) = c ++ in_row cs

abbrev pub in_table : List (List (List Entry)) → List Entry
in_table [] = []
in_table (r ∷ rs) = in_row r ++ in_table rs

append_all-append :
    (bl : BlkArray Entry) (es fs : List Entry)
    → append_all bl (es ++ fs) ≡ append_all (append_all bl es) fs
unfolding append_all
append_all-append bl [] fs = refl
append_all-append bl (e ∷ es) fs = append_all-append (blkarray_list_append bl e).1 es fs

append_row-append_all :
    (bl : BlkArray Entry) (cs : List (List Entry)) → append_row bl cs ≡ append_all bl (in_row cs)
unfolding append_row append_all
append_row-append_all bl [] = refl
append_row-append_all bl (c ∷ cs) =
    append_row-append_all (append_all bl c) cs ∙ sym (append_all-append bl c (in_row cs))

append_table-append_all :
    (bl : BlkArray Entry) (rs : List (List (List Entry)))
    → append_table bl rs ≡ append_all bl (in_table rs)
unfolding append_table append_all
append_table-append_all bl [] = refl
append_table-append_all bl (r ∷ rs) =
    append_table-append_all (append_row bl r) rs
    ∙ ap (λ (b : BlkArray Entry). append_all b (in_table rs)) (append_row-append_all bl r)
    ∙ sym (append_all-append bl (in_row r) (in_table rs))

-- With room in the history for the entries of a frame, the end of the frame keeps the history well
-- formed and every entry in it under its id, and gives the entries of the frame the next ids, in the
-- order of states, left contexts and scores.
pub end_frame_lem :
    (h : History)
    → IsValid h.entries
    → h.entries.n_valid + length (in_table h.frame_entries) ≤ h.entries.maxblks * h.entries.blksize
    → Extends h.entries (in_table h.frame_entries) (fsg_history_end_frame h).entries
unfolding fsg_history_end_frame
end_frame_lem h v room =
    subst (Extends h.entries (in_table h.frame_entries))
      (sym (append_table-append_all h.entries h.frame_entries))
      (append_all-Extends (in_table h.frame_entries) h.entries v room)
