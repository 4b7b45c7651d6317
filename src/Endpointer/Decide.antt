-- ===== src/Endpointer/Decide.antt =====
-- What one call decides on the classified frame, against an abstract listener.
use pocketsphinx.Base.{
  ℕ, ◌-◌, ◌≡◌, ◌<◌, refl, ap, Bool, true, false, not, Option, none, some, List, [], ◌∷◌, ◌++◌, ℤ,
  if◌then◌else◌, arith, length, drop, ltb, ◌==◌, Bool-cases, inl, inr,
}
use pocketsphinx.Endpointer.{
  Real, Detector, Endpointer, vad_classify, ep_push, ep_pop, overflows, accept, leave_speech,
  enter_speech, decide_speech, ep_clear_timestamp_cache,
}
use pocketsphinx.Endpointer.Queue.{
  Entry, IsValid, queue, speech_in, pop-queue, pop-IsValid, pop_front, front,
}
use pocketsphinx.Endpointer.Core.{core, core-get_current_timestamp}

-- The abstract machine.
pub record Listener : Type 0 where
  pub waiting : List Entry
  pub talking : Bool

abbrev pub first : List Entry → Option Entry
first [] = none
first (x ∷ xs) = some x

-- A new entry, with the oldest one dropped if there are `maxlen`.
abbrev pub enqueue : ℕ → List Entry → Entry → List Entry
enqueue maxlen q x = (if length q == maxlen then drop 1 q else q) ++ x ∷ []

-- What happens with the queue `q` once a frame is in: speech starts when more than `start` of the
-- waiting frames are speech, and ends when fewer than `stop` are; the oldest waiting frame is handed
-- out while speech goes on, and once as it ends.
abbrev pub respond : ℕ → ℕ → Bool → List Entry → Option Entry × Listener
respond start stop talking q =
    if talking
    then (first q, record { waiting = drop 1 q; talking = not (ltb (speech_in q) stop) })
    else if ltb start (speech_in q)
    then (first q, record { waiting = drop 1 q; talking = true })
    else (none, record { waiting = q; talking = false })

pub respond_congr :
    {a a' b b' : ℕ} {t t' : Bool} {q q' : List Entry}
    → a ≡ a'
    → b ≡ b'
    → t ≡ t'
    → q ≡ q'
    → respond a b t q ≡ respond a' b' t' q'
respond_congr ea eb et eq = λ i. respond (ea i) (eb i) (et i) (eq i)

abbrev pub listen : ℕ → ℕ → ℕ → Listener → Entry → Option Entry × Listener
listen maxlen start stop s x = respond start stop s.talking (enqueue maxlen s.waiting x)

module _ {V T : Type 0} (R : Real T) (D : Detector V) where
  pub record IsReady (ep : Endpointer V T) : Type 0 where
    pub valid : IsValid ep
    pub slack : ep.in_speech ≡ true → ep.n < ep.maxlen

  abbrev pub listener : Endpointer V T → Listener
  listener ep = record { waiting = queue ep; talking = ep.in_speech }

  -- The class that the detector gives the frame.
  abbrev pub class_of : Endpointer V T → List ℤ → ℤ
  class_of ep frame = (vad_classify R D ep.vad frame).0

  -- What `ep_push` is called on.
  abbrev pub primed : Endpointer V T → List ℤ → Endpointer V T
  primed ep frame = record ep { timestamp_cached = false; vad = (vad_classify R D ep.vad frame).1 }

  pub core-accept :
      (ep : Endpointer V T) (frame : List ℤ)
      → core (accept R D ep frame) ≡ core (ep_push R D (primed ep frame) (class_of ep frame) frame)
  unfolding accept ep_clear_timestamp_cache
  core-accept ep frame =
      let ep₂ = ep_push R D (primed ep frame) (class_of ep frame) frame in
      core-get_current_timestamp R D
        (record ep₂ { last_audio_timestamp = R.add ep₂.last_audio_timestamp ep₂.frame_length })

  pub overflows-never : (ep : Endpointer V T) → IsReady ep → overflows R D ep ≡ false
  unfolding overflows
  overflows-never ep r = ground (arith, r.slack)

  -- The settings of the endpointer, which no operation changes.
  abbrev pub settings : Endpointer V T → ℕ × ℕ × ℕ × ℕ
  settings ep = (ep.start_frames, ep.end_frames, ep.maxlen, ep.frame_size)

  pub settings-pop : (ep : Endpointer V T) → settings (ep_pop R D ep).1 ≡ settings ep
  unfolding ep_pop
  settings-pop ep = ground arith

  pub in_speech-pop : (ep : Endpointer V T) → (ep_pop R D ep).1.in_speech ≡ ep.in_speech
  unfolding ep_pop
  in_speech-pop ep = ground arith

  pub n-pop : (ep : Endpointer V T) → (ep_pop R D ep).1.n ≡ ep.n - 1
  unfolding ep_pop
  n-pop ep = ground arith

  first-queue :
      (ep : Endpointer V T)
      → IsValid ep
      → (ep.n == 0) ≡ false
      → first (queue ep) ≡ some (front R D ep)
  first-queue ep v e = ap first (pop-queue R D ep v e)

  rest_queue :
      (ep : Endpointer V T)
      → IsValid ep
      → (ep.n == 0) ≡ false
      → drop 1 (queue ep) ≡ queue (ep_pop R D ep).1
  rest_queue ep v e = ap (drop 1) (pop-queue R D ep v e)

  -- What `r` must be after the decision on `ep`.
  pub record Decided (ep : Endpointer V T) (r : Option Entry × Endpointer V T) : Type 0 where
    pub output : r.0 ≡ (respond ep.start_frames ep.end_frames ep.in_speech (queue ep)).0
    pub state : listener r.1 ≡ (respond ep.start_frames ep.end_frames ep.in_speech (queue ep)).1
    pub ready : IsReady r.1
    pub kept : settings r.1 ≡ settings ep

  popped-IsReady :
      (ep : Endpointer V T)
      → IsValid ep
      → (ep.n == 0) ≡ false
      → (ep_pop R D ep).1.n < (ep_pop R D ep).1.maxlen
  popped-IsReady ep v e =
      let cap_same = ap (λ (t : ℕ × ℕ × ℕ × ℕ). t.2) (settings-pop ep) in
      ground (arith, n-pop ep, cap_same, v.fits)

  leave-Decided :
      (ep : Endpointer V T)
      → IsValid ep
      → (ep.n == 0) ≡ false
      → ep.in_speech ≡ true
      → ltb (speech_in (queue ep)) ep.end_frames ≡ true
      → Decided ep (leave_speech R D ep)
  unfolding leave_speech
  leave-Decided ep v e s c =
      let p = ep_pop R D ep in
      let pv = pop-IsValid R D ep v in
      record {
        output = ground (arith, pop_front R D ep e, first-queue ep v e);
        state = ground (arith, rest_queue ep v e);
        ready = record {
          valid = record {
            room = pv.room;
            fits = pv.fits;
            buf_length = pv.buf_length;
            flags_length = pv.flags_length;
            counted = pv.counted;
          };
          slack = λ h. cc;
        };
        kept = settings-pop ep;
      }

  stay-Decided :
      (ep : Endpointer V T)
      → IsValid ep
      → (ep.n == 0) ≡ false
      → ep.in_speech ≡ true
      → ltb (speech_in (queue ep)) ep.end_frames ≡ false
      → Decided ep (ep_pop R D ep)
  stay-Decided ep v e s c = record {
    output = ground (arith, pop_front R D ep e, first-queue ep v e);
    state = ground (arith, rest_queue ep v e, in_speech-pop ep);
    ready = record { valid = pop-IsValid R D ep v; slack = λ h. popped-IsReady ep v e };
    kept = settings-pop ep;
  }

  enter-IsValid : (ep : Endpointer V T) → IsValid ep → IsValid (enter_speech R D ep)
  unfolding enter_speech
  enter-IsValid ep v = record {
    room = v.room;
    fits = v.fits;
    buf_length = v.buf_length;
    flags_length = v.flags_length;
    counted = v.counted;
  }

  start-Decided :
      (ep : Endpointer V T)
      → IsValid ep
      → (ep.n == 0) ≡ false
      → ep.in_speech ≡ false
      → ltb ep.start_frames (speech_in (queue ep)) ≡ true
      → Decided ep (ep_pop R D (enter_speech R D ep))
  unfolding enter_speech
  start-Decided ep v e s c =
      let ep' = enter_speech R D ep in
      let v' = enter-IsValid ep v in
      record {
        output = ground (arith, pop_front R D ep' e, first-queue ep' v' e);
        state = ground (arith, rest_queue ep' v' e, in_speech-pop ep');
        ready = record { valid = pop-IsValid R D ep' v'; slack = λ h. popped-IsReady ep' v' e };
        kept = settings-pop ep';
      }

  wait-Decided :
      (ep : Endpointer V T)
      → IsValid ep
      → ep.in_speech ≡ false
      → ltb ep.start_frames (speech_in (queue ep)) ≡ false
      → Decided ep (none, ep)
  wait-Decided ep v s c = record {
    output = ground arith;
    state = ground arith;
    ready = record { valid = v; slack = λ h. cc };
    kept = refl;
  }

  -- The four ways through `decide_speech`.
  decide_talking :
      (ep : Endpointer V T)
      → ep.in_speech ≡ true
      → decide_speech R D ep
        ≡ (if ltb ep.speech_count ep.end_frames then leave_speech R D ep else ep_pop R D ep)
  unfolding decide_speech
  decide_talking ep s = ground arith

  decide_silent :
      (ep : Endpointer V T)
      → ep.in_speech ≡ false
      → decide_speech R D ep ≡ (
          if ltb ep.start_frames ep.speech_count
          then ep_pop R D (enter_speech R D ep)
          else (none, ep))
  unfolding decide_speech
  decide_silent ep s = ground arith

  -- The decision by the running count is the abstract one by the queue.
  pub decide-Decided :
      (ep : Endpointer V T) → IsValid ep → (ep.n == 0) ≡ false → Decided ep (decide_speech R D ep)
  decide-Decided ep v e = elim (Bool-cases ep.in_speech) [
    | inl s ↦ elim (Bool-cases (ltb ep.speech_count ep.end_frames)) [
      | inl c ↦ rw (decide_talking ep s, c) (leave-Decided ep v e s (ground (arith, v.counted)))
      | inr c ↦ rw (decide_talking ep s, c) (stay-Decided ep v e s (ground (arith, v.counted)))
    ]
    | inr s ↦ elim (Bool-cases (ltb ep.start_frames ep.speech_count)) [
      | inl c ↦ rw (decide_silent ep s, c) (start-Decided ep v e s (ground (arith, v.counted)))
      | inr c ↦ rw (decide_silent ep s, c) (wait-Decided ep v s (ground (arith, v.counted)))
    ]
  ]
