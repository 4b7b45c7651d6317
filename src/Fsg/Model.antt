-- ===== src/Fsg/Model.antt =====
-- src/lm/fsg_model.c: a finite-state grammar as an automaton with scored links, and the closure of its
-- null transitions.
--
-- A link is the object at an index of `links`, which is its pointer; a list of links (`glist_t`) is the
-- one at an index of `lists`, less one, and 0 is NULL. State numbers are not negative. The log
-- arithmetic that adds a silence is a parameter.
pub mod Bytes
pub mod Nulls
pub mod Add
pub mod Raise
pub mod Cases
pub mod Measure
pub mod Grow
pub mod Closure
pub mod ListNulls
pub mod Best
pub mod Start
pub mod Words
pub mod AddWord
pub mod NewWord
pub mod TransAdd
use pocketsphinx.Base.{
  update, ℕ, zero, suc, ◌+◌, ◌-◌, ◌/◌, ◌%◌, Bool, true, false, Option, none, some, List, [], ◌∷◌,
  ◌++◌, ℤ, pos, negsuc, ◌+ℤ◌, ltb_ℤ, ltb, ◌==◌, if◌then◌else◌, length, get_or, set,
}
use pocketsphinx.Util.HashTable.{
  Entry, HashTable, hash_table_new, hash_table_lookup_bkey, hash_table_enter_bkey,
  hash_table_replace_bkey,
}
use pocketsphinx.Util.HashTable.Walk.{flat}
use pocketsphinx.Fsg.History.{Link}

-- The 4 bytes of an int32 as chars, the lowest first.
abbrev pub char_at : ℕ → ℤ
char_at n = if ltb (n % 256) 128 then pos (n % 256) else negsuc (255 - n % 256)

unfoldable pub bytes : ℕ → List ℤ
bytes n = char_at n ∷ char_at (n / 256) ∷ char_at (n / 65536) ∷ char_at (n / 16777216) ∷ []

-- `trans_list_t`
pub record TransList : Type 0 where
  pub null_trans : Option HashTable
  pub trans : Option HashTable

-- `fsg_model_t`, less the words, and the memory of links and lists.
pub record FsgModel : Type 0 where
  pub n_state : ℕ
  pub trans : ℕ → TransList
  pub links : List Link
  pub lists : List (List ℕ)

abbrev pub no_link : Link
no_link = record { from_state = 0; to_state = 0; logs2prob = pos 0; wid = negsuc 0 }

abbrev pub link_at : FsgModel → ℕ → Link
link_at m p = get_or m.links p no_link

abbrev pub list_at : FsgModel → ℕ → List ℕ
list_at m zero = []
list_at m (suc g) = get_or m.lists g []

-- `link->logs2prob = logp`
abbrev pub set_prob : FsgModel → ℕ → ℤ → FsgModel
set_prob m p logp = record m { links = set m.links p (record (link_at m p) { logs2prob = logp }) }

unfoldable pub fsg_model_init : ℕ → FsgModel
fsg_model_init n_state = record {
  n_state = n_state;
  trans = λ i. record { null_trans = none; trans = none };
  links = [];
  lists = [];
}

-- NULL is the empty list.
unfoldable pub fsg_model_trans : FsgModel → ℕ → ℕ → ℕ
fsg_model_trans m i j = elim (m.trans i).trans [
  | none ↦ 0
  | some h ↦ elim (hash_table_lookup_bkey h (bytes j)) [ none ↦ 0 | some gl ↦ gl ]
]

unfoldable pub fsg_model_null_trans : FsgModel → ℕ → ℕ → Option ℕ
fsg_model_null_trans m i j = elim (m.trans i).null_trans [
  | none ↦ none
  | some h ↦ hash_table_lookup_bkey h (bytes j)
]

-- The table of a state, made if it is not there.
abbrev pub table_or_new : Option HashTable → HashTable
table_or_new none = hash_table_new 5 false
table_or_new (some h) = h

-- The first link of a list that has the word.
unfoldable pub find_word : FsgModel → List ℕ → ℤ → Option ℕ
find_word m [] wid = none
find_word m (p ∷ gl) wid =
    let l = (link_at m p).wid in
    let rest = find_word m gl wid in
    if ltb_ℤ l wid then rest else if ltb_ℤ wid l then rest else some p

unfoldable pub fsg_model_trans_add : FsgModel → ℕ → ℕ → ℤ → ℤ → FsgModel
fsg_model_trans_add m from to logp wid =
    let t = m.trans from in
    let h = table_or_new t.trans in
    let gl = list_at m (fsg_model_trans m from to) in
    elim (find_word m gl wid) [
      | some p ↦ if ltb_ℤ (link_at m p).logs2prob logp then set_prob m p logp else m
      | none ↦ record m {
        trans = update m.trans from (record t {
          trans = some (hash_table_replace_bkey h (bytes to) (suc (length m.lists))).1;
        });
        links =
            m.links
            ++ (record { from_state = from; to_state = to; logs2prob = logp; wid = wid } ∷ []);
        lists = m.lists ++ ((length m.links ∷ gl) ∷ []);
      }
    ]

-- `none` is the exit for a probability over 1; else the number returned and the model.
unfoldable pub fsg_model_tag_trans_add : FsgModel → ℕ → ℕ → ℤ → Option (ℤ × FsgModel)
unfolding fsg_model_null_trans
fsg_model_tag_trans_add m from to logp =
    let t = m.trans from in
    let h = table_or_new t.null_trans in
    if ltb_ℤ (pos 0) logp
    then none
    else if from == to
    then some (negsuc 0, m)
    else elim (fsg_model_null_trans m from to) [
      | some p ↦
          if ltb_ℤ (link_at m p).logs2prob logp
          then some (pos 0, set_prob m p logp)
          else some (negsuc 0, m)
      | none ↦ some (
        pos 1,
        record m {
          trans = update m.trans from (record t {
            null_trans = some (hash_table_enter_bkey h (bytes to) (length m.links)).1;
          });
          links =
              m.links
              ++ (record { from_state = from; to_state = to; logs2prob = logp; wid = negsuc 0 }
                  ∷ []);
        },
      )
    ]

unfoldable pub fsg_model_null_trans_add : FsgModel → ℕ → ℕ → ℤ → Option (ℤ × FsgModel)
unfolding fsg_model_tag_trans_add
fsg_model_null_trans_add m from to logp = fsg_model_tag_trans_add m from to logp

-- The closure's variables: the model, `nulls` and `updated`.
pub record Closing : Type 0 where
  pub model : FsgModel
  pub nulls : List ℕ
  pub updated : Bool

-- What is done with the result of `fsg_model_null_trans_add`.
unfoldable pub note : Closing → ℕ → ℕ → ℤ × FsgModel → Closing
unfolding fsg_model_null_trans
note s from to (negsuc k, m) = record s { model = m }
note s from to (pos zero, m) = record s { model = m; updated = true }
note s from to (pos (suc k), m) = record {
  model = m;
  nulls = elim (fsg_model_null_trans m from to) [ none ↦ s.nulls | some p ↦ p ∷ s.nulls ];
  updated = true;
}

-- The loop over the null transitions out of the end of the link `p`, in the order of the iterator. Its
-- table is not written meanwhile: that would take a link of a state to itself.
unfoldable pub extend_link : List Entry → ℕ → Closing → Option Closing
extend_link [] p s = some s
extend_link (e ∷ es) p s =
    let tl1 = link_at s.model p in
    let tl2 = link_at s.model e.val in
    elim (fsg_model_null_trans_add s.model tl1.from_state tl2.to_state
      (tl1.logs2prob +ℤ tl2.logs2prob)) [
        | none ↦ none
        | some r ↦ extend_link es p (note s tl1.from_state tl2.to_state r)
      ]

abbrev pub entries : Option HashTable → List Entry
entries none = []
entries (some h) = flat h.table

-- The loop over the null transitions that are known at its start.
unfoldable pub sweep : List ℕ → Closing → Option Closing
sweep [] s = some s
sweep (p ∷ ps) s =
    elim (extend_link (entries (s.model.trans (link_at s.model p).to_state).null_trans) p s) [
      | none ↦ none
      | some s' ↦ sweep ps s'
    ]

-- `do ... while (updated)`, on fuel.
unfoldable pub close : ℕ → Closing → Option Closing
close zero s = none
close (suc fuel) s = elim (sweep s.nulls (record s { updated = false })) [
  | none ↦ none
  | some s' ↦ let again = close fuel s' in if s'.updated then again else some s'
]

-- All null transitions of the states below `k` in front of a list.
abbrev pub push_vals : List Entry → List ℕ → List ℕ
push_vals [] nulls = nulls
push_vals (e ∷ es) nulls = push_vals es (e.val ∷ nulls)

unfoldable pub list_nulls : FsgModel → ℕ → List ℕ
list_nulls m zero = []
list_nulls m (suc k) = push_vals (entries (m.trans k).null_trans) (list_nulls m k)

unfoldable pub fsg_model_null_trans_closure : ℕ → FsgModel → List ℕ → Option (FsgModel × List ℕ)
unfolding close list_nulls
fsg_model_null_trans_closure fuel m nulls =
    let all : List ℕ = elim nulls [ [] ↦ list_nulls m m.n_state | p ∷ ps ↦ p ∷ ps ] in
    elim (close fuel (record { model = m; nulls = all; updated = false })) [
      | none ↦ none
      | some s ↦ some (s.model, s.nulls)
    ]
