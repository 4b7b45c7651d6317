-- ===== src/Alignment.antt =====
-- src/ps_alignment.c: an alignment of words, phones and states with frames.
--
-- The three vectors are lists, `n_ent` their lengths, with the memory that they have; a pointer into one
-- is an index. The pronunciations and the acoustic model's tables are functions in `Tables`. Freeing has
-- no effect.
pub mod Propagate
pub mod Described
pub mod Appending
pub mod Populate
use pocketsphinx.Base.{
  ℕ, zero, suc, ◌+◌, ◌-◌, Bool, true, false, Option, none, some, List, [], ◌∷◌, ◌++◌, ℤ, pos, ◌+ℤ◌,
  ltb, leb, ◌==◌, if◌then◌else◌, length, get_or, set,
}

-- The union `id`: of a word, a phone or a state.
pub data EntryId : Type 0 where
  word_id : ℕ → EntryId
  phone_id : (cipid ssid tmatid : ℕ) → EntryId
  state_id : ℕ → EntryId

-- `ps_alignment_entry_t`
pub record Entry : Type 0 where
  pub start : ℤ
  pub duration : ℤ
  pub score : ℤ
  pub parent : ℕ
  pub child : ℕ
  pub id : EntryId

abbrev pub ps_alignment_none : ℕ
ps_alignment_none = 0xffff

-- `ps_alignment_vector_t`
pub record Vector : Type 0 where
  pub seq : List Entry
  pub n_alloc : ℕ

-- `ps_alignment_t`
pub record Alignment : Type 0 where
  pub word : Vector
  pub sseq : Vector
  pub state : Vector

-- What is read of the dictionary and the model definition, and what the `child` of a new phone or
-- state, which is not written, holds at each place of its vector.
pub record Tables : Type 0 where
  pub pron : ℕ → List ℕ
  pub pid2tmatid : ℕ → ℕ
  pub pid2ssid : ℕ → ℕ
  pub sseq2sen : ℕ → ℕ → ℕ
  pub n_emit_state : ℕ
  pub unset_phone : ℕ → ℕ
  pub unset_state : ℕ → ℕ

-- `BAD_SSID` and `BAD_SENID`
abbrev pub bad_id : ℕ
bad_id = 0xffff

-- How the expansion ends: with a result, with -1 for want of memory, or in an assertion that fails.
pub data Outcome (A : Type 0) : Type 0 where
  done : A → Outcome A
  refused : Outcome A
  aborted : Outcome A

abbrev pub and_then : {A B : Type 0} → Outcome A → (A → Outcome B) → Outcome B
and_then (done a) f = f a
and_then refused f = refused
and_then aborted f = aborted

-- `ps_alignment_vector_grow_one`, with the entry that is then written.
unfoldable pub grow_one : Vector → Entry → Option Vector
grow_one vec ent =
    let newsize = length vec.seq + 1 in
    let seq' = vec.seq ++ ent ∷ [] in
    if ltb newsize vec.n_alloc
    then some (record vec { seq = seq' })
    else if ltb 0xffff (newsize + 10)
    then none
    else some (record { seq = seq'; n_alloc = newsize + 10 })

abbrev pub vector_empty : Vector → Vector
vector_empty vec = record vec { seq = [] }

-- The number of words, 0 if there is no room.
unfoldable pub ps_alignment_add_word : Alignment → ℕ → ℤ → ℤ → Alignment × ℕ
unfolding grow_one
ps_alignment_add_word al wid start duration =
    elim (grow_one al.word (record {
      start = start;
      duration = duration;
      score = pos 0;
      parent = ps_alignment_none;
      child = ps_alignment_none;
      id = word_id wid;
    })) [ none ↦ (al, 0) | some vec ↦ (record al { word = vec }, length vec.seq) ]

-- A new phone of word i, and the assertion on it.
abbrev pub phone_entry : Tables → Entry → (i ci at : ℕ) → Entry
phone_entry t went i ci at = record {
  start = went.start;
  duration = went.duration;
  score = pos 0;
  parent = i;
  child = t.unset_phone at;
  id = phone_id ci (t.pid2ssid ci) (t.pid2tmatid ci);
}

unfoldable pub new_phone : Tables → Entry → (i ci : ℕ) → Vector → Outcome Vector
unfolding grow_one
new_phone t went i ci sseq = elim (grow_one sseq (phone_entry t went i ci (length sseq.seq))) [
  | none ↦ refused
  | some vec ↦ if t.pid2ssid ci == bad_id then aborted else done vec
]

-- The phones of word i.
unfoldable pub add_phones : Tables → Entry → ℕ → List ℕ → Vector → Outcome Vector
unfolding new_phone
add_phones t went i [] sseq = done sseq
add_phones t went i (ci ∷ pron) sseq =
    and_then (new_phone t went i ci sseq) (λ vec. add_phones t went i pron vec)

abbrev pub word_of : Entry → ℕ
word_of e = elim e.id [ word_id w ↦ w | phone_id c s m ↦ 0 | state_id s ↦ 0 ]

abbrev pub ssid_of : Entry → ℕ
ssid_of e = elim e.id [ word_id w ↦ 0 | phone_id c s m ↦ s | state_id s ↦ 0 ]

unfoldable pub expand_words : Tables → List Entry → ℕ → Vector → Outcome Vector
unfolding add_phones
expand_words t [] i sseq = done sseq
expand_words t (went ∷ words) i sseq =
    and_then (add_phones t went i (t.pron (word_of went)) sseq)
      (λ vec. expand_words t words (i + 1) vec)

-- A new state of phone i, and the assertion on it.
abbrev pub state_entry : Tables → Entry → (i j at : ℕ) → Entry
state_entry t pent i j at = record {
  start = pent.start;
  duration = pent.duration;
  score = pos 0;
  parent = i;
  child = t.unset_state at;
  id = state_id (t.sseq2sen (ssid_of pent) j);
}

unfoldable pub new_state : Tables → Entry → (i j : ℕ) → Vector → Outcome Vector
unfolding grow_one
new_state t pent i j state = elim (grow_one state (state_entry t pent i j (length state.seq))) [
  | none ↦ refused
  | some vec ↦ if t.sseq2sen (ssid_of pent) j == bad_id then aborted else done vec
]

-- `m` states of phone i, from state j on.
unfoldable pub add_states : Tables → Entry → ℕ → (m j : ℕ) → Vector → Outcome Vector
unfolding new_state
add_states t pent i zero j state = done state
add_states t pent i (suc m) j state =
    and_then (new_state t pent i j state) (λ vec. add_states t pent i m (j + 1) vec)

-- The states of the phones from phone i on; a phone's child is its first state.
unfoldable pub expand_phones : Tables → List Entry → ℕ → Vector → Outcome (List Entry × Vector)
unfolding add_states
expand_phones t [] i state = done ([], state)
expand_phones t (pent ∷ phones) i state =
    let pent' : Entry =
      if t.n_emit_state == 0 then pent else record pent { child = length state.seq } in
    and_then (add_states t pent i t.n_emit_state 0 state)
      (λ vec. and_then (expand_phones t phones (i + 1) vec) (λ r. done (pent' ∷ r.0, r.1)))

-- `refused` is the result -1; the vectors are then left in part, which is not modelled.
unfoldable pub ps_alignment_populate_ci : Tables → Alignment → Outcome Alignment
unfolding expand_words expand_phones
ps_alignment_populate_ci t al =
    and_then (expand_words t al.word.seq 0 (vector_empty al.sseq)) (λ sseq.
      and_then (expand_phones t sseq.seq 0 (vector_empty al.state))
        (λ r. done (record al { sseq = record sseq { seq = r.0 }; state = r.1 })))

abbrev pub blank : Entry
blank = record {
  start = pos 0;
  duration = pos 0;
  score = pos 0;
  parent = 0;
  child = 0;
  id = word_id 0;
}

-- Whether `last_ent` is the entry at k.
abbrev pub is_last : Option ℕ → ℕ → Bool
is_last none k = false
is_last (some l) k = l == k

abbrev pub reset : Entry → Entry → Entry
reset c p = record p { start = c.start; duration = pos 0; score = pos 0 }

abbrev pub add_child : Entry → Entry → Entry
add_child c p = record p { duration = p.duration +ℤ c.duration; score = p.score +ℤ c.score }

-- One pass of `ps_alignment_propagate`, over the children.
unfoldable pub propagate_up : List Entry → List Entry → Option ℕ → List Entry
propagate_up [] ps last = ps
propagate_up (c ∷ cs) ps last =
    let p = get_or ps c.parent blank in
    let p' : Entry = if is_last last c.parent then p else reset c p in
    propagate_up cs (set ps c.parent (add_child c p')) (some c.parent)

unfoldable pub ps_alignment_propagate : Alignment → Alignment
unfolding propagate_up
ps_alignment_propagate al =
    let phones = propagate_up al.state.seq al.sseq.seq none in
    record al {
      sseq = record al.sseq { seq = phones };
      word = record al.word { seq = propagate_up phones al.word.seq none };
    }

-- `ps_alignment_iter_t`, with the vector it walks.
pub data Level : Type 0 where
  words phones states : Level

pub record Iter : Type 0 where
  pub vec : Level
  pub pos : ℕ
  pub parent : ℕ

abbrev pub seq_of : Alignment → Level → List Entry
seq_of al words = al.word.seq
seq_of al phones = al.sseq.seq
seq_of al states = al.state.seq

-- `ps_alignment_words`, `_phones` and `_states`.
unfoldable pub ps_alignment_iter : Alignment → Level → Option Iter
ps_alignment_iter al l =
    if length (seq_of al l) == 0
    then none
    else some (record { vec = l; pos = 0; parent = ps_alignment_none })

unfoldable pub ps_alignment_iter_get : Alignment → Iter → Entry
ps_alignment_iter_get al it = get_or (seq_of al it.vec) it.pos blank

unfoldable pub ps_alignment_iter_goto : Alignment → Iter → ℕ → Option Iter
ps_alignment_iter_goto al it at =
    let parent' = (get_or (seq_of al it.vec) at blank).parent in
    if leb (length (seq_of al it.vec)) at
    then none
    else some (record it {
      pos = at;
      parent = if it.parent == ps_alignment_none then it.parent else parent';
    })

unfoldable pub ps_alignment_iter_next : Alignment → Iter → Option Iter
ps_alignment_iter_next al it =
    let at = it.pos + 1 in
    if leb (length (seq_of al it.vec)) at
    then none
    else if it.parent == ps_alignment_none
    then some (record it { pos = at })
    else if (get_or (seq_of al it.vec) at blank).parent == it.parent
    then some (record it { pos = at })
    else none

unfoldable pub ps_alignment_iter_children : Alignment → Iter → Option Iter
ps_alignment_iter_children al it =
    let child' = (get_or (seq_of al it.vec) it.pos blank).child in
    let below : Level → Option Iter = λ l.
      if child' == ps_alignment_none
      then none
      else some (record { vec = l; pos = child'; parent = it.pos }) in
    elim it.vec [ words ↦ below phones | phones ↦ below states | states ↦ none ]
