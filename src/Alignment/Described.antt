-- ===== src/Alignment/Described.antt =====
-- The phones and states that the words of an alignment have, written out as lists.
use pocketsphinx.Base.{
  ℕ, zero, suc, ◌+◌, ◌≤◌, ◌<◌, ◌≡◌, refl, sym, subst, ap, ap₂, ◌∙◌, Bool, true, false, List, [],
  ◌∷◌, ◌++◌, ◌==◌, arith, if◌then◌else◌, length, All,
}
use pocketsphinx.Alignment.{
  Entry, Alignment, Tables, phone_entry, state_entry, word_of, bad_id, word_id, phone_id, state_id,
}
use pocketsphinx.Alignment.Propagate.{From, IsTree, parents, From-parents, below-parents}

module _ (t : Tables) where
  -- One phone for each entry of a pronunciation; the first stands at place `at`.
  abbrev pub phones_of : Entry → ℕ → List ℕ → ℕ → List Entry
  phones_of went i [] at = []
  phones_of went i (ci ∷ pron) at = phone_entry t went i ci at ∷ phones_of went i pron (at + 1)

  -- The phones of each word in turn, from word `i` on.
  abbrev pub all_phones : List Entry → ℕ → ℕ → List Entry
  all_phones [] i at = []
  all_phones (went ∷ words) i at =
      let pron = t.pron (word_of went) in
      phones_of went i pron at ++ all_phones words (i + 1) (at + length pron)

  -- `m` states of phone `i` from state `j` on.
  abbrev pub states_of : Entry → ℕ → (m j : ℕ) → ℕ → List Entry
  states_of pent i zero j at = []
  states_of pent i (suc m) j at = state_entry t pent i j at ∷ states_of pent i m (j + 1) (at + 1)

  -- All states of each phone in turn.
  abbrev pub all_states : List Entry → ℕ → ℕ → List Entry
  all_states [] i at = []
  all_states (pent ∷ phones) i at =
      states_of pent i t.n_emit_state 0 at ++ all_states phones (i + 1) (at + t.n_emit_state)

  -- The phones with the place of their first state, if they have states.
  abbrev pub linked : List Entry → ℕ → List Entry
  linked [] at = []
  linked (pent ∷ phones) at =
      (if t.n_emit_state == 0 then pent else record pent { child = at })
      ∷ linked phones (at + t.n_emit_state)

-- The entry has a senone sequence or a senone.
abbrev pub IsValid : Entry → Type 0
IsValid e = elim e.id [
  | word_id w ↦ Unit
  | phone_id ci ssid tmatid ↦ ¬ (ssid ≡ bad_id)
  | state_id senid ↦ ¬ (senid ≡ bad_id)
]

-- Parents in order, and below `n`.
record Range (l n : ℕ) (cs : List Entry) : Type 0 where
  order : From l cs
  below : All (λ c. c.parent < n) cs

Range-cons :
    (l n : ℕ) (c : Entry) (cs : List Entry)
    → l ≤ c.parent
    → c.parent < n
    → Range c.parent n cs
    → Range l n (c ∷ cs)
Range-cons l n c cs le lt r = record { order = (le, r.order); below = (lt, r.below) }

module _ (t : Tables) where
  phones_of-Range :
      (went : Entry) (i n l at : ℕ) (pron : List ℕ) (rest : List Entry)
      → l ≤ i
      → i < n
      → ((m : ℕ) → m ≤ i → Range m n rest)
      → Range l n (phones_of t went i pron at ++ rest)
  phones_of-Range went i n l at [] rest le lt r = r l le
  phones_of-Range went i n l at (ci ∷ pron) rest le lt r =
      Range-cons l n (phone_entry t went i ci at) (phones_of t went i pron (at + 1) ++ rest) le lt
        (phones_of-Range went i n i (at + 1) pron rest (omega arith) lt r)

  all_phones-Range :
      (words : List Entry) (i n l at : ℕ)
      → l ≤ i
      → i + length words ≡ n
      → Range l n (all_phones t words i at)
  all_phones-Range [] i n l at le e = record { order = tt; below = tt }
  all_phones-Range (went ∷ words) i n l at le e =
      let pron = t.pron (word_of went) in
      phones_of-Range went i n l at pron (all_phones t words (i + 1) (at + length pron)) le
        (omega arith)
        (λ m h. all_phones-Range words (i + 1) n m (at + length pron) (omega arith) (omega arith))

  states_of-Range :
      (pent : Entry) (i n l m j at : ℕ) (rest : List Entry)
      → l ≤ i
      → i < n
      → ((m : ℕ) → m ≤ i → Range m n rest)
      → Range l n (states_of t pent i m j at ++ rest)
  states_of-Range pent i n l zero j at rest le lt r = r l le
  states_of-Range pent i n l (suc m) j at rest le lt r =
      Range-cons l n (state_entry t pent i j at) (states_of t pent i m (j + 1) (at + 1) ++ rest) le
        lt (states_of-Range pent i n i m (j + 1) (at + 1) rest (omega arith) lt r)

  all_states-Range :
      (phones : List Entry) (i n l at : ℕ)
      → l ≤ i
      → i + length phones ≡ n
      → Range l n (all_states t phones i at)
  all_states-Range [] i n l at le e = record { order = tt; below = tt }
  all_states-Range (pent ∷ phones) i n l at le e =
      states_of-Range pent i n l t.n_emit_state 0 at
        (all_states t phones (i + 1) (at + t.n_emit_state)) le (omega arith)
        (λ m h.
          all_states-Range phones (i + 1) n m (at + t.n_emit_state) (omega arith) (omega arith))

  linked_parent :
      (b : Bool) (pent : Entry) (k : ℕ)
      → (if b then pent else record pent { child = k }).parent ≡ pent.parent
  linked_parent true pent k = refl
  linked_parent false pent k = refl

  parents-linked : (phones : List Entry) (at : ℕ) → parents (linked t phones at) ≡ parents phones
  parents-linked [] at = refl
  parents-linked (pent ∷ phones) at =
      ap₂ ◌∷◌ (linked_parent (t.n_emit_state == 0) pent at)
        (parents-linked phones (at + t.n_emit_state))

  length-linked : (phones : List Entry) (at : ℕ) → length (linked t phones at) ≡ length phones
  length-linked [] at = refl
  length-linked (pent ∷ phones) at = ap suc (length-linked phones (at + t.n_emit_state))

  -- The entries described are a tree.
  pub described-IsTree :
      (al : Alignment)
      → let phones = all_phones t al.word.seq 0 0 in
        al.sseq.seq ≡ linked t phones 0 → al.state.seq ≡ all_states t phones 0 0 → IsTree al
  described-IsTree al p q =
      let phones = all_phones t al.word.seq 0 0 in
      let n = length al.word.seq in
      let r = all_phones-Range al.word.seq 0 n 0 0 (omega arith) (omega arith) in
      let size : length al.sseq.seq ≡ length phones = ap length p ∙ length-linked phones 0 in
      let v =
        all_states-Range phones 0 (length al.sseq.seq) 0 0 (omega arith) (omega (arith, size)) in
      let same : parents al.sseq.seq ≡ parents phones = ap parents p ∙ parents-linked phones 0 in
      record {
        states = subst (From 0) (sym q) v.order;
        phones = From-parents 0 phones al.sseq.seq same r.order;
        state_parents = subst (All (λ c. c.parent < length al.sseq.seq)) (sym q) v.below;
        phone_parents = below-parents n phones al.sseq.seq same r.below;
      }
