-- ===== src/Endpointer/Queue.antt =====
-- The ring as a queue of frames with their flags, oldest first: what each operation does to it.
use pocketsphinx.Base.{
  ℕ, zero, suc, ◌+◌, ◌-◌, ◌%◌, ◌≤◌, ◌<◌, ◌≡◌, refl, sym, ap, ap₂, ◌∙◌, true, false, none, some,
  List, [], ◌∷◌, ◌++◌, ℤ, pos, if◌then◌else◌, get_or, set, drop, length, arith, Bool-cases, inl,
  inr, length-set, get_or-set_self, get_or-set_ne, ◌==◌,
}
use native.Mathlib.Nat.{mod-eq_of_lt, add-mod_right, mod-lt}
use pocketsphinx.Endpointer.{Real, Detector, Endpointer, truthy, ep_push, ep_pop}
use pocketsphinx.Endpointer.Window.{window, window_mod, window_store}

abbrev pub Entry : Type 0
Entry = List ℤ × ℤ

-- How many entries are speech.
abbrev pub speech_in : List Entry → ℕ
speech_in [] = 0
speech_in (x ∷ xs) = (if truthy x.1 then 1 else 0) + speech_in xs

pub speech_in-append : (xs ys : List Entry) → speech_in (xs ++ ys) ≡ speech_in xs + speech_in ys
speech_in-append [] ys = omega arith
speech_in-append (x ∷ xs) ys = omega (arith, speech_in-append xs ys)

pub speech_in-le : (xs : List Entry) → speech_in xs ≤ length xs
speech_in-le [] = omega arith
speech_in-le (x ∷ xs) = ground (arith, speech_in-le xs)

-- A slot of the two arrays.
abbrev pub slot : List (List ℤ) → List ℤ → ℕ → Entry
slot buf flags i = (get_or buf i [], get_or flags i (pos 0))

module _ {V T : Type 0} where
  abbrev pub queue : Endpointer V T → List Entry
  queue ep = window ep.maxlen (slot ep.buf ep.is_speech) ep.position ep.n

  pub record IsValid (ep : Endpointer V T) : Type 0 where
    pub room : ep.position < ep.maxlen
    pub fits : ep.n ≤ ep.maxlen
    pub buf_length : length ep.buf ≡ ep.maxlen
    pub flags_length : length ep.is_speech ≡ ep.maxlen
    pub counted : ep.speech_count ≡ speech_in (queue ep)

-- The queue after a write to the slot past it, when there is room.
store_queue :
    (buf : List (List ℤ)) (flags : List ℤ) (maxlen h n i : ℕ) (frame : List ℤ) (s : ℤ)
    → length buf ≡ maxlen
    → length flags ≡ maxlen
    → n < maxlen
    → i ≡ (h + n) % maxlen
    → window maxlen (slot (set buf i frame) (set flags i s)) h (suc n)
      ≡ window maxlen (slot buf flags) h n ++ (frame, s) ∷ []
store_queue buf flags maxlen h n i frame s lb lf lt e =
    let inside : i < maxlen = rw e (mod-lt (h + n) (omega arith)) in
    window_store maxlen (slot buf flags) (slot (set buf i frame) (set flags i s)) h n (frame, s) lt
      (rw (← e) (
        ap₂ (λ (a : List ℤ) (b : ℤ). (a, b)) (get_or-set_self buf i frame [] (omega arith))
          (get_or-set_self flags i s (pos 0) (omega arith))))
      (λ j ne.
        ap₂ (λ (a : List ℤ) (b : ℤ). (a, b)) (get_or-set_ne buf i j frame [] (λ q. ne (q ∙ e)))
          (get_or-set_ne flags i j s (pos 0) (λ q. ne (q ∙ e))))

-- The same when there is no room: the oldest entry goes.
replace_queue :
    (buf : List (List ℤ)) (flags : List ℤ) (maxlen h n i : ℕ) (frame : List ℤ) (s : ℤ)
    → length buf ≡ maxlen
    → length flags ≡ maxlen
    → n ≡ maxlen
    → h < maxlen
    → i ≡ (h + n) % maxlen
    → window maxlen (slot (set buf i frame) (set flags i s)) ((h + 1) % maxlen) n
      ≡ drop 1 (window maxlen (slot buf flags) h n) ++ (frame, s) ∷ []
replace_queue buf flags maxlen h zero i frame s lb lf full lt e = absurd (omega arith)
replace_queue buf flags maxlen h (suc m) i frame s lb lf full lt e =
    let same : h + suc m ≡ h + 1 + m = omega arith in
    window_mod maxlen (slot (set buf i frame) (set flags i s)) (h + 1) (suc m)
    ∙ store_queue buf flags maxlen (h + 1) m i frame s lb lf (omega arith)
        (e ∙ ap (λ x. x % maxlen) same)

-- Taking the front of a window.
window_front :
    (maxlen h n : ℕ) (f : ℕ → Entry)
    → (n == 0) ≡ false
    → h < maxlen
    → window maxlen f h n ≡ f h ∷ window maxlen f ((h + 1) % maxlen) (n - 1)
window_front maxlen h zero f ne lt = cc
window_front maxlen h (suc m) f ne lt =
    let same : suc m - 1 ≡ m = omega arith in
    rw (same, mod-eq_of_lt lt) (ap (◌∷◌ (f h)) (sym (window_mod maxlen f (h + 1) m)))

module _ {V T : Type 0} (R : Real T) (D : Detector V) where
  -- What `ep_push` does to the queue: it drops the oldest entry of a full one, and adds the new.
  abbrev pub pushed : Endpointer V T → ℤ → List ℤ → List Entry
  pushed ep s frame = (if ep.n == ep.maxlen then drop 1 (queue ep) else queue ep) ++ (frame, s) ∷ []

  -- On a valid ring, a push appends the frame with its flag to the queue, and drops the oldest frame
  -- first if the queue is full.
  pub push-queue :
      (ep : Endpointer V T) (s : ℤ) (frame : List ℤ)
      → IsValid ep
      → queue (ep_push R D ep s frame) ≡ pushed ep s frame
  unfolding ep_push
  push-queue ep s frame v = elim (Bool-cases (ep.n == ep.maxlen)) [
    | inl full ↦ rw full (
        replace_queue ep.buf ep.is_speech ep.maxlen ep.position ep.n _ frame s v.buf_length
          v.flags_length (ground arith) v.room refl)
    | inr room ↦
        let one_more : ep.n + 1 ≡ suc ep.n = omega arith in
        rw (room, one_more)
          (store_queue ep.buf ep.is_speech ep.maxlen ep.position ep.n _ frame s v.buf_length
            v.flags_length (ground arith) refl)
  ]

  -- The entry that `ep_pop` returns.
  abbrev pub front : Endpointer V T → Entry
  front ep = slot ep.buf ep.is_speech ep.position

  abbrev speech_bit : ℤ → ℕ
  speech_bit s = if truthy s then 1 else 0

  queue-front :
      (ep : Endpointer V T)
      → IsValid ep
      → (ep.n == 0) ≡ false
      → queue ep ≡ front ep ∷ drop 1 (queue ep)
  queue-front ep v e =
      let w = window_front ep.maxlen ep.position ep.n (slot ep.buf ep.is_speech) e v.room in
      w ∙ ap (λ q. front ep ∷ q) (sym (ap (drop 1) w))

  front_counted :
      (ep : Endpointer V T)
      → IsValid ep
      → (ep.n == 0) ≡ false
      → speech_in (queue ep) ≡ speech_bit (front ep).1 + speech_in (drop 1 (queue ep))
  front_counted ep v e = ap speech_in (queue-front ep v e)

  -- `ep_push` keeps the count, whatever the frame replaced was.
  push_count :
      (ep : Endpointer V T) (s : ℤ) (frame : List ℤ)
      → IsValid ep
      → (ep_push R D ep s frame).speech_count ≡ speech_in (pushed ep s frame)
  unfolding ep_push
  push_count ep s frame v = elim (Bool-cases (ep.n == ep.maxlen)) [
    | inl full ↦
        let n_eq : ep.n ≡ ep.maxlen = ground arith in
        let same_slot : (ep.position + ep.n) % ep.maxlen ≡ ep.position =
          ap (λ x. (ep.position + x) % ep.maxlen) n_eq
          ∙ add-mod_right ep.position ep.maxlen
          ∙ mod-eq_of_lt v.room in
        let counted = front_counted ep v (ground arith) in
        rw (full, same_slot)
          (ground (arith, speech_in-append (drop 1 (queue ep)) ((frame, s) ∷ [])))
    | inr room ↦ rw room (ground (arith, speech_in-append (queue ep) ((frame, s) ∷ [])))
  ]

  pub push-IsValid :
      (ep : Endpointer V T) (s : ℤ) (frame : List ℤ) → IsValid ep → IsValid (ep_push R D ep s frame)
  push-IsValid ep s frame v = record {
    room = unfold ep_push in ground (arith, mod-lt (ep.position + 1) {m = ep.maxlen});
    fits = unfold ep_push in ground arith;
    buf_length =
        unfold ep_push in
        ground (arith, length-set ep.buf ((ep.position + ep.n) % ep.maxlen) frame);
    flags_length =
        unfold ep_push in
        ground (arith, length-set ep.is_speech ((ep.position + ep.n) % ep.maxlen) s);
    counted = rw (push-queue ep s frame v) (push_count ep s frame v);
  }

  pub pop_empty : (ep : Endpointer V T) → (ep.n == 0) ≡ true → ep_pop R D ep ≡ (none, ep)
  unfolding ep_pop
  pop_empty ep e = rw e

  pub pop_front : (ep : Endpointer V T) → (ep.n == 0) ≡ false → (ep_pop R D ep).0 ≡ some (front ep)
  unfolding ep_pop
  pop_front ep e = rw e

  -- On a valid ring that is not empty, the queue is the oldest frame with its flag, followed by the
  -- queue after the pop.
  pub pop-queue :
      (ep : Endpointer V T)
      → IsValid ep
      → (ep.n == 0) ≡ false
      → queue ep ≡ front ep ∷ queue (ep_pop R D ep).1
  unfolding ep_pop
  pop-queue ep v e =
      rw e (window_front ep.maxlen ep.position ep.n (slot ep.buf ep.is_speech) e v.room)

  popped_count :
      (ep : Endpointer V T)
      → (ep.n == 0) ≡ false
      → (ep_pop R D ep).1.speech_count
        ≡ (if truthy (front ep).1 then ep.speech_count - 1 else ep.speech_count)
  unfolding ep_pop
  popped_count ep e = rw e

  pop_count :
      (ep : Endpointer V T)
      → IsValid ep
      → (ep.n == 0) ≡ false
      → (ep_pop R D ep).1.speech_count ≡ speech_in (queue (ep_pop R D ep).1)
  pop_count ep v e =
      let counts = ap speech_in (pop-queue ep v e) in
      popped_count ep e ∙ ground (arith, counts, v.counted)

  pub pop-IsValid : (ep : Endpointer V T) → IsValid ep → IsValid (ep_pop R D ep).1
  pop-IsValid ep v = elim (Bool-cases (ep.n == 0)) [
    | inl e ↦ rw (pop_empty ep e) v
    | inr e ↦ record {
      room = unfold ep_pop in ground (arith, mod-lt (ep.position + 1) {m = ep.maxlen});
      fits = unfold ep_pop in ground arith;
      buf_length = unfold ep_pop in ground arith;
      flags_length = unfold ep_pop in ground arith;
      counted = pop_count ep v e;
    }
  ]
