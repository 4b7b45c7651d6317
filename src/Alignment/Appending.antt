-- ===== src/Alignment/Appending.antt =====
-- What the loops of `ps_alignment_populate_ci` append to the vectors.
use pocketsphinx.Base.{
  ℕ, zero, suc, ◌+◌, ◌<◌, ◌≡◌, refl, sym, subst, ap, ◌∙◌, inl, inr, true, false, none, some, List,
  [], ◌∷◌, ◌++◌, ltb, ◌==◌, arith, if◌then◌else◌, length, length-append, All, Bool-cases,
}
use mathlib.Core.List.{append_assoc, append-nil}
use pocketsphinx.Alignment.{
  Entry, Vector, Tables, Outcome, done, refused, aborted, and_then, grow_one, phone_entry,
  new_phone, add_phones, expand_words, state_entry, new_state, add_states, word_of, ssid_of, bad_id,
}
use pocketsphinx.Alignment.Described.{phones_of, all_phones, states_of, IsValid}

pub All-append : (xs ys : List Entry) → All IsValid xs → All IsValid ys → All IsValid (xs ++ ys)
All-append [] ys p q = q
All-append (x ∷ xs) ys p q = (p.0, All-append xs ys p.1 q)

pub All-left : (xs ys : List Entry) → All IsValid (xs ++ ys) → All IsValid xs
All-left [] ys p = tt
All-left (x ∷ xs) ys p = (p.0, All-left xs ys p.1)

pub All-right : (xs ys : List Entry) → All IsValid (xs ++ ys) → All IsValid ys
All-right [] ys p = p
All-right (x ∷ xs) ys p = All-right xs ys p.1

-- So many entries that growing a vector for them may be refused.
abbrev pub Overfull : ℕ → Type 0
Overfull n = 0xffff < n + 10

-- To the entries `base` the entries `es` are added, all valid, or there is no room, or one is not valid.
abbrev pub Appends : List Entry → List Entry → Outcome Vector → Type 0
Appends base es (done v) = (v.seq ≡ base ++ es) × All IsValid es
Appends base es refused = Overfull (length base + length es)
Appends base es aborted = ¬ (All IsValid es)

Appends-after :
    (base es fs : List Entry) (r : Outcome Vector)
    → All IsValid es
    → Appends (base ++ es) fs r
    → Appends base (es ++ fs) r
Appends-after base es fs (done v) p (q, ok) = (q ∙ append_assoc base es fs, All-append es fs p ok)
Appends-after base es fs refused p h = omega (arith, length-append base es, length-append es fs, h)
Appends-after base es fs aborted p h = λ a. h (All-right es fs a)

Appends-then :
    (base es fs : List Entry) (r : Outcome Vector) (f : Vector → Outcome Vector)
    → Appends base es r
    → ((v : Vector) → v.seq ≡ base ++ es → Appends v.seq fs (f v))
    → Appends base (es ++ fs) (and_then r f)
Appends-then base es fs (done v) f (q, ok) k =
    Appends-after base es fs (f v) ok (subst (λ b. Appends b fs (f v)) q (k v q))
Appends-then base es fs refused f h k = omega (arith, length-append es fs, h)
Appends-then base es fs aborted f h k = λ a. h (All-left es fs a)

pub Appends-none : (v : Vector) → Appends v.seq [] (done v)
Appends-none v = (sym (append-nil v.seq), tt)

-- One entry, whose assertion is on the number `id`.
checked :
    (vec : Vector) (e : Entry) (id : ℕ)
    → (IsValid e → ¬ (id ≡ bad_id))
    → (¬ (id ≡ bad_id) → IsValid e)
    → Appends vec.seq (e ∷ []) (elim (grow_one vec e) [
      | none ↦ refused
      | some v ↦ if id == bad_id then aborted else done v
    ])
unfolding grow_one
checked vec e id to from =
    let bad : id == bad_id ≡ true → ¬ (All IsValid (e ∷ [])) = λ b a. to a.0 (ground arith) in
    let good : id == bad_id ≡ false → All IsValid (e ∷ []) = λ b. (from (λ q. ground arith), tt) in
    elim (Bool-cases (id == bad_id)) [
      | inl b ↦ elim (Bool-cases (ltb (length vec.seq + 1) vec.n_alloc)) [
        | inl r ↦ rw (r, b) (bad b)
        | inr r ↦ elim (Bool-cases (ltb 0xffff (length vec.seq + 1 + 10))) [
          | inl n ↦ rw (r, n) (ground arith)
          | inr n ↦ rw (r, n, b) (bad b)
        ]
      ]
      | inr b ↦ elim (Bool-cases (ltb (length vec.seq + 1) vec.n_alloc)) [
        | inl r ↦ rw (r, b) (refl, good b)
        | inr r ↦ elim (Bool-cases (ltb 0xffff (length vec.seq + 1 + 10))) [
          | inl n ↦ rw (r, n) (ground arith)
          | inr n ↦ rw (r, n, b) (refl, good b)
        ]
      ]
    ]

next_place :
    (base : List Entry) (e : Entry) (seq : List Entry)
    → seq ≡ base ++ e ∷ []
    → length seq ≡ length base + 1
next_place base e seq q = ap length q ∙ length-append base (e ∷ [])

module _ (t : Tables) where
  new_phone_lem :
      (went : Entry) (i ci : ℕ) (vec : Vector)
      → Appends vec.seq (phone_entry t went i ci (length vec.seq) ∷ []) (new_phone t went i ci vec)
  unfolding new_phone
  new_phone_lem went i ci vec =
      checked vec (phone_entry t went i ci (length vec.seq)) (t.pid2ssid ci) (λ h. h) (λ h. h)

  add_phones_lem :
      (went : Entry) (i : ℕ) (pron : List ℕ) (vec : Vector)
      → Appends vec.seq (phones_of t went i pron (length vec.seq)) (add_phones t went i pron vec)
  unfolding add_phones
  add_phones_lem went i [] vec = Appends-none vec
  add_phones_lem went i (ci ∷ pron) vec =
      let at = length vec.seq in
      let e = phone_entry t went i ci at in
      Appends-then vec.seq (e ∷ []) (phones_of t went i pron (at + 1)) (new_phone t went i ci vec)
        (λ v. add_phones t went i pron v) (new_phone_lem went i ci vec)
        (λ v q.
          subst (λ n. Appends v.seq (phones_of t went i pron n) (add_phones t went i pron v))
            (next_place vec.seq e v.seq q) (add_phones_lem went i pron v))

  length-phones_of :
      (went : Entry) (i : ℕ) (pron : List ℕ) (at : ℕ)
      → length (phones_of t went i pron at) ≡ length pron
  length-phones_of went i [] at = refl
  length-phones_of went i (ci ∷ pron) at = ap suc (length-phones_of went i pron (at + 1))

  pub expand_words_lem :
      (words : List Entry) (i : ℕ) (vec : Vector)
      → Appends vec.seq (all_phones t words i (length vec.seq)) (expand_words t words i vec)
  unfolding expand_words
  expand_words_lem [] i vec = Appends-none vec
  expand_words_lem (went ∷ words) i vec =
      let pron = t.pron (word_of went) in
      let at = length vec.seq in
      let es = phones_of t went i pron at in
      Appends-then vec.seq es (all_phones t words (i + 1) (at + length pron))
        (add_phones t went i pron vec) (λ v. expand_words t words (i + 1) v)
        (add_phones_lem went i pron vec)
        (λ v q.
          let size : length v.seq ≡ at + length pron =
            ap length q
            ∙ length-append vec.seq es
            ∙ ap (λ n. at + n) (length-phones_of went i pron at) in
          subst (λ n. Appends v.seq (all_phones t words (i + 1) n) (expand_words t words (i + 1) v))
            size (expand_words_lem words (i + 1) v))

  new_state_lem :
      (pent : Entry) (i j : ℕ) (vec : Vector)
      → Appends vec.seq (state_entry t pent i j (length vec.seq) ∷ []) (new_state t pent i j vec)
  unfolding new_state
  new_state_lem pent i j vec =
      checked vec (state_entry t pent i j (length vec.seq)) (t.sseq2sen (ssid_of pent) j) (λ h. h)
        (λ h. h)

  pub add_states_lem :
      (pent : Entry) (i m j : ℕ) (vec : Vector)
      → Appends vec.seq (states_of t pent i m j (length vec.seq)) (add_states t pent i m j vec)
  unfolding add_states
  add_states_lem pent i zero j vec = Appends-none vec
  add_states_lem pent i (suc m) j vec =
      let at = length vec.seq in
      let e = state_entry t pent i j at in
      Appends-then vec.seq (e ∷ []) (states_of t pent i m (j + 1) (at + 1))
        (new_state t pent i j vec) (λ v. add_states t pent i m (j + 1) v)
        (new_state_lem pent i j vec)
        (λ v q.
          subst
            (λ n. Appends v.seq (states_of t pent i m (j + 1) n) (add_states t pent i m (j + 1) v))
            (next_place vec.seq e v.seq q) (add_states_lem pent i m (j + 1) v))

  pub length-states_of : (pent : Entry) (i m j at : ℕ) → length (states_of t pent i m j at) ≡ m
  length-states_of pent i zero j at = refl
  length-states_of pent i (suc m) j at = ap suc (length-states_of pent i m (j + 1) (at + 1))
