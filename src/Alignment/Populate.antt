-- ===== src/Alignment/Populate.antt =====
-- Expanding the words of an alignment: every way that it ends.
use pocketsphinx.Base.{
  ℕ, ◌+◌, ◌≡◌, refl, subst, ap, ap₂, ◌∙◌, ◌⊎◌, inl, inr, List, [], ◌∷◌, ◌++◌, ◌==◌, arith,
  if◌then◌else◌, length, length-append, All,
}
use mathlib.Core.List.{append_assoc}
use pocketsphinx.Alignment.{
  Entry, Vector, Alignment, Tables, Outcome, done, refused, aborted, and_then, add_states,
  expand_words, expand_phones, vector_empty, ps_alignment_populate_ci,
}
use pocketsphinx.Alignment.Described.{
  all_phones, states_of, all_states, linked, IsValid, described-IsTree,
}
use pocketsphinx.Alignment.Appending.{
  All-append, All-left, All-right, Overfull, Appends, Appends-none, add_states_lem,
  length-states_of, expand_words_lem,
}
use pocketsphinx.Alignment.Propagate.{IsTree}

module _ (t : Tables) where
  -- The phones are linked to their states, which are appended; or there is no room, or one is not
  -- valid.
  abbrev Expands : List Entry → ℕ → List Entry → ℕ → Outcome (List Entry × Vector) → Type 0
  Expands phones i base at (done (ps, v)) =
      (ps ≡ linked t phones at) × Appends base (all_states t phones i at) (done v)
  Expands phones i base at refused = Overfull (length base + length (all_states t phones i at))
  Expands phones i base at aborted = ¬ (All IsValid (all_states t phones i at))

  with_phone :
      (pent : Entry) (phones : List Entry) (i : ℕ) (base : List Entry) (at : ℕ) (v : Vector)
      (r : Outcome (List Entry × Vector))
      → let es = states_of t pent i t.n_emit_state 0 at in
        v.seq ≡ base ++ es
        → All IsValid es
        → Expands phones (i + 1) v.seq (at + t.n_emit_state) r
        → Expands (pent ∷ phones) i base at (
            and_then r (λ r.
              done ((if t.n_emit_state == 0 then pent else record pent { child = at }) ∷ r.0, r.1)))
  with_phone pent phones i base at v (done (ps, v')) q ok (e, (f, g)) =
      let es = states_of t pent i t.n_emit_state 0 at in
      let fs = all_states t phones (i + 1) (at + t.n_emit_state) in
      (ap₂ ◌∷◌ refl e, (f ∙ ap (λ b. b ++ fs) q ∙ append_assoc base es fs, All-append es fs ok g))
  with_phone pent phones i base at v refused q ok h =
      let es = states_of t pent i t.n_emit_state 0 at in
      let fs = all_states t phones (i + 1) (at + t.n_emit_state) in
      let size : length v.seq ≡ length base + length es = ap length q ∙ length-append base es in
      omega (arith, size, length-append es fs, h)
  with_phone pent phones i base at v aborted q ok h =
      let es = states_of t pent i t.n_emit_state 0 at in
      let fs = all_states t phones (i + 1) (at + t.n_emit_state) in λ a. h (All-right es fs a)

  after_states :
      (pent : Entry) (phones : List Entry) (i : ℕ) (base : List Entry) (at : ℕ) (r : Outcome Vector)
      (f : Vector → Outcome (List Entry × Vector))
      → let es = states_of t pent i t.n_emit_state 0 at in
        Appends base es r
        → ((v : Vector)
            → v.seq ≡ base ++ es
            → Expands phones (i + 1) v.seq (at + t.n_emit_state) (f v))
        → Expands (pent ∷ phones) i base at (
            and_then r (λ v. and_then (f v) (λ r.
              done
                ((if t.n_emit_state == 0 then pent else record pent { child = at }) ∷ r.0, r.1))))
  after_states pent phones i base at (done v) f (q, ok) k =
      with_phone pent phones i base at v (f v) q ok (k v q)
  after_states pent phones i base at refused f h k =
      let es = states_of t pent i t.n_emit_state 0 at in
      let fs = all_states t phones (i + 1) (at + t.n_emit_state) in
      omega (arith, length-append es fs, h)
  after_states pent phones i base at aborted f h k =
      let es = states_of t pent i t.n_emit_state 0 at in
      let fs = all_states t phones (i + 1) (at + t.n_emit_state) in λ a. h (All-left es fs a)

  expand_phones_lem :
      (phones : List Entry) (i : ℕ) (vec : Vector)
      → Expands phones i vec.seq (length vec.seq) (expand_phones t phones i vec)
  unfolding expand_phones
  expand_phones_lem [] i vec = (refl, Appends-none vec)
  expand_phones_lem (pent ∷ phones) i vec =
      let at = length vec.seq in
      let es = states_of t pent i t.n_emit_state 0 at in
      after_states pent phones i vec.seq at (add_states t pent i t.n_emit_state 0 vec)
        (λ v. expand_phones t phones (i + 1) v) (add_states_lem t pent i t.n_emit_state 0 vec)
        (λ v q.
          let size : length v.seq ≡ at + t.n_emit_state =
            ap length q
            ∙ length-append vec.seq es
            ∙ ap (λ n. at + n) (length-states_of t pent i t.n_emit_state 0 at) in
          subst (λ n. Expands phones (i + 1) v.seq n (expand_phones t phones (i + 1) v)) size
            (expand_phones_lem phones (i + 1) v))

  -- What the expansion of `al` gives, by how it ends.
  abbrev pub Populates : Alignment → Outcome Alignment → Type 0
  Populates al (done al') =
      let phones = all_phones t al.word.seq 0 0 in
      let states = all_states t phones 0 0 in
      (al'.word ≡ al.word)
      × (al'.sseq.seq ≡ linked t phones 0)
      × (al'.state.seq ≡ states)
      × All IsValid phones
      × All IsValid states
      × IsTree al'
  Populates al refused =
      let phones = all_phones t al.word.seq 0 0 in
      Overfull (length phones) ⊎ Overfull (length (all_states t phones 0 0))
  Populates al aborted =
      let phones = all_phones t al.word.seq 0 0 in
      ¬ (All IsValid phones × All IsValid (all_states t phones 0 0))

  populated :
      (al : Alignment) (sseq : Vector) (r : Outcome (List Entry × Vector))
      → let phones = all_phones t al.word.seq 0 0 in
        All IsValid phones
        → Expands phones 0 [] 0 r
        → Populates al
            (and_then r (λ r. done (record al { sseq = record sseq { seq = r.0 }; state = r.1 })))
  populated al sseq (done (ps, state)) ok (p, (q, g)) =
      let al' : Alignment = record al { sseq = record sseq { seq = ps }; state = state } in
      (refl, p, q, ok, g, described-IsTree t al' p q)
  populated al sseq refused ok h = inr (omega (arith, h))
  populated al sseq aborted ok h = λ a. h a.1

  after_words :
      (al : Alignment) (r : Outcome Vector)
      → Appends [] (all_phones t al.word.seq 0 0) r
      → Populates al (
          and_then r (λ sseq.
            and_then
              (expand_phones t sseq.seq 0 (vector_empty al.state))
              (λ r. done (record al { sseq = record sseq { seq = r.0 }; state = r.1 }))))
  after_words al (done sseq) (q, ok) =
      let states = vector_empty al.state in
      populated al sseq (expand_phones t sseq.seq 0 states) ok (
        subst (λ ps. Expands ps 0 [] 0 (expand_phones t sseq.seq 0 states)) q
          (expand_phones_lem sseq.seq 0 states))
  after_words al refused h = inl (omega (arith, h))
  after_words al aborted h = λ a. h a.0

  -- Expanding the words of an alignment without context keeps the words. In the order of the words it
  -- gives one phone for each entry of a word's pronunciation, with the word's frames, the word as its
  -- parent and the model's senone sequence and transitions, and in the order of the phones every
  -- emitting state of a phone, with the phone's frames, the phone as its parent and the senone of its
  -- place. A phone's child is its first state; all scores are 0; what the `child` of a state, or of a
  -- phone without states, holds is left as it was. So the entries name their parents in order and in
  -- range. It is refused only if there are more than 65525 phones or states in all, and an assertion
  -- fails only if a phone has no senone sequence or a state no senone.
  pub populate_ci_lem : (al : Alignment) → Populates al (ps_alignment_populate_ci t al)
  unfolding ps_alignment_populate_ci
  populate_ci_lem al =
      after_words al (expand_words t al.word.seq 0 (vector_empty al.sseq))
        (expand_words_lem t al.word.seq 0 (vector_empty al.sseq))
