-- ===== src/Endpointer/Drain.antt =====
-- The frames that are still queued when a stream ends.
use pocketsphinx.Base.{
  ℕ, zero, suc, ◌+◌, ◌-◌, ◌*◌, ◌≡◌, ◌<◌, ◌≤◌, refl, sym, ap, ap₂, ◌∙◌, false, Option, none, some,
  List, sub_ℕ, if◌then◌else◌, arith, length, ◌==◌, Bool-cases, inl, inr, length-append, length-take,
  length-drop,
}
use native.Mathlib.Nat.{mod-lt}
use pocketsphinx.Endpointer.{
  Real, Detector, Endpointer, truthy, ep_pop, ep_linearize, drain_speech, boundary, rotate,
}
use pocketsphinx.Endpointer.Queue.{Entry, front, pop_empty, pop_front}
use pocketsphinx.Endpointer.Decide.{settings, settings-pop, n-pop}

mul_step : (n k : ℕ) → 0 < n → (n - 1) * k + k ≡ n * k
mul_step zero k h = elim h [ ]
mul_step (suc n) k h = grind arith

chain_bound :
    (r₀ rn fs fs' n' n out : ℕ)
    → fs' ≡ fs
    → n' ≡ n - 1
    → 0 < n
    → r₀ + rn * fs' ≤ out + fs' + n' * fs'
    → r₀ + rn * fs ≤ out + n * fs
chain_bound r₀ rn fs fs' n' n out ef en h b =
    let less = mul_step n fs h in
    let same = ap₂ (λ (a : ℕ) (b : ℕ). a * b) en ef in
    let same' = ap (λ k. rn * k) ef in omega arith

drop_bound : (n' n fs out : ℕ) → n' ≡ n - 1 → out + n' * fs ≤ out + n * fs
drop_bound n' n fs out e = let smaller : n' ≤ n = omega arith in grind arith

-- A queue that is not the whole ring leaves room for one more frame.
pub trailing_fits :
    (out n len maxlen fs : ℕ) → out ≤ n * fs → n < maxlen → len ≤ fs → out + len ≤ maxlen * fs
trailing_fits out n len maxlen fs h lt le =
    let more : suc n * fs ≤ maxlen * fs = grind arith in
    let split : suc n * fs ≡ n * fs + fs = grind arith in omega arith

length-rotate {ℓ} :
    {A : Type ℓ} (p cap : ℕ) (xs : List A)
    → p < cap
    → length xs ≡ cap
    → length (rotate p cap xs) ≡ cap
unfolding rotate
length-rotate p cap xs h e = simp (length-append, length-take, length-drop) (omega arith)

module _ {V T : Type 0} (R : Real T) (D : Detector V) where
  -- The endpointer after one popped speech frame.
  abbrev after_speech : T → Endpointer V T → Endpointer V T
  after_speech time ep =
      let ep' = (ep_pop R D ep).1 in
      record ep' { speech_end = boundary R D ep' time (sub_ℕ ep'.n 1) }

  -- One round of the loop.
  drain_step :
      (fuel : ℕ) (time : T) (ep : Endpointer V T) (out : ℕ) (o : Option Entry)
      → (ep_pop R D ep).0 ≡ o
      → drain_speech R D (suc fuel) time ep out ≡ (elim o [
        | none ↦ (out, ep)
        | some x ↦
            if truthy x.1
            then drain_speech R D fuel time
                (after_speech time ep)
                (out + (ep_pop R D ep).1.frame_size)
            else (out, (ep_pop R D ep).1)
      ])
  unfolding drain_speech
  drain_step fuel time ep out none e = rw (e, drain_speech)
  drain_step fuel time ep out (some x) e = rw (e, drain_speech)

  frame_size-pop : (ep : Endpointer V T) → (ep_pop R D ep).1.frame_size ≡ ep.frame_size
  frame_size-pop ep = ap (λ (t : ℕ × ℕ × ℕ × ℕ). t.3) (settings-pop R D ep)

  -- Each frame counted is one that was popped, and the settings stay.
  pub drain_bound :
      (fuel : ℕ) (time : T) (ep : Endpointer V T) (out : ℕ)
      → let r = drain_speech R D fuel time ep out in
        (r.0 + r.1.n * ep.frame_size ≤ out + ep.n * ep.frame_size)
        × (settings R D r.1 ≡ settings R D ep)
  drain_bound zero time ep out = unfold drain_speech in (omega arith, refl)
  drain_bound (suc fuel) time ep out = elim (Bool-cases (ep.n == 0)) [
    | inl e ↦
        rw
          (drain_step fuel time ep out none
            (ap (λ (r : Option Entry × Endpointer V T). r.0) (pop_empty R D ep e)))
          (omega arith, refl)
    | inr e ↦
        let x = front R D ep in
        let fs = ep.frame_size in
        let (bound, kept) =
          drain_bound fuel time (after_speech time ep) (out + (ep_pop R D ep).1.frame_size) in
        let r =
          drain_speech R D fuel time (after_speech time ep) (out + (ep_pop R D ep).1.frame_size) in
        let bound' : r.0 + r.1.n * fs ≤ out + ep.n * fs =
          chain_bound r.0 r.1.n fs (ep_pop R D ep).1.frame_size (ep_pop R D ep).1.n ep.n out
            (frame_size-pop ep) (n-pop R D ep) (ground arith) bound in
        elim (Bool-cases (truthy x.1)) [
          | inl t ↦
              rw (drain_step fuel time ep out (some x) (pop_front R D ep e), t)
                (bound', kept ∙ settings-pop R D ep)
          | inr t ↦
              rw (drain_step fuel time ep out (some x) (pop_front R D ep e), t)
                (drop_bound (ep_pop R D ep).1.n ep.n fs out (n-pop R D ep), settings-pop R D ep)
        ]
  ]

  -- More fuel than queued frames changes nothing: the loop ends by itself.
  pub drain_fuel :
      (fuel : ℕ) (time : T) (ep : Endpointer V T) (out : ℕ)
      → ep.n < fuel
      → drain_speech R D fuel time ep out ≡ drain_speech R D (suc fuel) time ep out
  drain_fuel zero time ep out h = absurd (omega arith)
  drain_fuel (suc fuel) time ep out h = elim (Bool-cases (ep.n == 0)) [
    | inl e ↦
        let empty = ap (λ (r : Option Entry × Endpointer V T). r.0) (pop_empty R D ep e) in
        drain_step fuel time ep out none empty ∙ sym (drain_step (suc fuel) time ep out none empty)
    | inr e ↦
        let x = front R D ep in
        let full = pop_front R D ep e in
        let ih : drain_speech R D fuel time (after_speech time ep)
              (out + (ep_pop R D ep).1.frame_size)
            ≡ drain_speech R D (suc fuel) time (after_speech time ep)
                (out + (ep_pop R D ep).1.frame_size) =
          drain_fuel fuel time (after_speech time ep) (out + (ep_pop R D ep).1.frame_size)
            (ground (arith, n-pop R D ep)) in
        drain_step fuel time ep out (some x) full
        ∙ ap (λ r. if truthy x.1 then r else (out, (ep_pop R D ep).1)) ih
        ∙ sym (drain_step (suc fuel) time ep out (some x) full)
  ]

  -- The arrays have their lengths, the position is in them, and speech is over.
  pub record IsShaped (ep : Endpointer V T) : Type 0 where
    pub room : ep.position < ep.maxlen
    pub buf_length : length ep.buf ≡ ep.maxlen
    pub flags_length : length ep.is_speech ≡ ep.maxlen
    pub quiet : ep.in_speech ≡ false

  pop-IsShaped : (ep : Endpointer V T) → IsShaped ep → IsShaped (ep_pop R D ep).1
  unfolding ep_pop
  pop-IsShaped ep h = ground (arith, mod-lt (ep.position + 1) {m = ep.maxlen})

  pub linearize-IsShaped : (ep : Endpointer V T) → IsShaped ep → IsShaped (ep_linearize R D ep)
  unfolding ep_linearize
  linearize-IsShaped ep h = ground (
    arith,
    length-rotate ep.position ep.maxlen ep.buf,
    length-rotate ep.position ep.maxlen ep.is_speech,
  )

  pub drain-IsShaped :
      (fuel : ℕ) (time : T) (ep : Endpointer V T) (out : ℕ)
      → IsShaped ep
      → IsShaped (drain_speech R D fuel time ep out).1
  drain-IsShaped zero time ep out h = unfold drain_speech in h
  drain-IsShaped (suc fuel) time ep out h = elim (Bool-cases (ep.n == 0)) [
    | inl e ↦
        rw
          (drain_step fuel time ep out none
            (ap (λ (r : Option Entry × Endpointer V T). r.0) (pop_empty R D ep e)))
          h
    | inr e ↦
        let x = front R D ep in
        let p = pop-IsShaped ep h in
        elim (Bool-cases (truthy x.1)) [
          | inl t ↦
              rw (drain_step fuel time ep out (some x) (pop_front R D ep e), t)
                (drain-IsShaped fuel time (after_speech time ep) _ (record {
                  room = p.room;
                  buf_length = p.buf_length;
                  flags_length = p.flags_length;
                  quiet = p.quiet;
                }))
          | inr t ↦ rw (drain_step fuel time ep out (some x) (pop_front R D ep e), t) p
        ]
  ]
