-- ===== src/Endpointer/Process.antt =====
-- `ps_endpointer_process` against its abstract machine: a bounded queue of classified frames and
-- whether speech is going on.
use pocketsphinx.Base.{
  ℕ, ◌≡◌, ◌<◌, sym, ap, ◌∙◌, false, Option, List, [], ◌∷◌, ◌++◌, ℤ, if◌then◌else◌, arith, drop,
  ◌==◌,
}
use pocketsphinx.Endpointer.{Real, Detector, Endpointer, ep_push, overflows, accept, process}
use pocketsphinx.Endpointer.Queue.{Entry, IsValid, queue, push-queue, push-IsValid, slot}
use pocketsphinx.Endpointer.Window.{length-window}
use pocketsphinx.Endpointer.Core.{Core, queue-core, IsValid-core}
use pocketsphinx.Endpointer.Decide.{
  IsReady, enqueue, respond, respond_congr, listen, Listener, listener, class_of, primed,
  core-accept, overflows-never, settings, decide-Decided,
}

module _ {V T : Type 0} (R : Real T) (D : Detector V) where
  primed-IsValid :
      (ep : Endpointer V T) (frame : List ℤ) → IsValid ep → IsValid (primed R D ep frame)
  primed-IsValid ep frame v = record {
    room = v.room;
    fits = v.fits;
    buf_length = v.buf_length;
    flags_length = v.flags_length;
    counted = v.counted;
  }

  push_nonempty :
      (ep : Endpointer V T) (s : ℤ) (frame : List ℤ)
      → ep.position < ep.maxlen
      → ((ep_push R D ep s frame).n == 0) ≡ false
  unfolding ep_push
  push_nonempty ep s frame h = ground arith

  push_settings :
      (ep : Endpointer V T) (s : ℤ) (frame : List ℤ)
      → (settings R D (ep_push R D ep s frame) ≡ settings R D ep)
        × ((ep_push R D ep s frame).in_speech ≡ ep.in_speech)
  unfolding ep_push
  push_settings ep s frame = (ground arith, ground arith)

  -- The endpointer once the frame is in.
  accept-IsValid :
      (ep : Endpointer V T) (frame : List ℤ) → IsValid ep → IsValid (accept R D ep frame)
  accept-IsValid ep frame v =
      IsValid-core (ep_push R D (primed R D ep frame) (class_of R D ep frame) frame)
        (accept R D ep frame) (sym (core-accept R D ep frame))
        (push-IsValid R D (primed R D ep frame) (class_of R D ep frame) frame
          (primed-IsValid ep frame v))

  queue-accept :
      (ep : Endpointer V T) (frame : List ℤ)
      → IsValid ep
      → queue (accept R D ep frame) ≡ enqueue ep.maxlen (queue ep) (frame, class_of R D ep frame)
  queue-accept ep frame v =
      let p = primed R D ep frame in
      let s = class_of R D ep frame in
      queue-core (accept R D ep frame) (ep_push R D p s frame) (core-accept R D ep frame)
      ∙ push-queue R D p s frame (primed-IsValid ep frame v)
      ∙ ap (λ (k : ℕ). (if k == ep.maxlen then drop 1 (queue ep) else queue ep) ++ (frame, s) ∷ [])
          (sym (length-window ep.maxlen (slot ep.buf ep.is_speech) ep.position ep.n))

  accept_nonempty :
      (ep : Endpointer V T) (frame : List ℤ) → IsValid ep → ((accept R D ep frame).n == 0) ≡ false
  accept_nonempty ep frame v =
      let n_same = ap (λ (c : Core V). c.n) (core-accept R D ep frame) in
      ground
        (arith, n_same, push_nonempty (primed R D ep frame) (class_of R D ep frame) frame v.room)

  settings-accept :
      (ep : Endpointer V T) (frame : List ℤ)
      → (settings R D (accept R D ep frame) ≡ settings R D ep)
        × ((accept R D ep frame).in_speech ≡ ep.in_speech)
  settings-accept ep frame =
      let kept = push_settings (primed R D ep frame) (class_of R D ep frame) frame in
      (
        ap (λ (c : Core V). (c.start_frames, c.end_frames, c.maxlen, c.frame_size))
              (core-accept R D ep frame)
            ∙ kept.0,
        ap (λ (c : Core V). c.in_speech) (core-accept R D ep frame) ∙ kept.1,
      )

  -- On an endpointer that is ready, `ps_endpointer_process` hands out the frame, and moves to the
  -- queue and the phase, of the abstract machine fed with the frame and its class; it leaves the
  -- endpointer ready and its settings as they were, and the queue never overflows in speech.
  pub process-listen :
      (ep : Endpointer V T) (frame : List ℤ)
      → IsReady R D ep
      → let r = process R D ep frame in
        let s =
          listen ep.maxlen ep.start_frames ep.end_frames
            (listener R D ep)
            (frame, class_of R D ep frame) in
        (r.0 ≡ s.0)
        × (listener R D r.1 ≡ s.1)
        × IsReady R D r.1
        × (settings R D r.1 ≡ settings R D ep)
        × (overflows R D ep ≡ false)
  unfolding process
  process-listen ep frame ready =
      let v = ready.valid in
      let a = accept R D ep frame in
      let d = decide-Decided R D a (accept-IsValid ep frame v) (accept_nonempty ep frame v) in
      let kept = settings-accept ep frame in
      let same : respond a.start_frames a.end_frames a.in_speech (queue a)
          ≡ listen ep.maxlen ep.start_frames ep.end_frames (listener R D ep)
              (frame, class_of R D ep frame) =
        respond_congr (ap (λ (t : ℕ × ℕ × ℕ × ℕ). t.0) kept.0)
          (ap (λ (t : ℕ × ℕ × ℕ × ℕ). t.1) kept.0) kept.1 (queue-accept ep frame v) in
      (
        d.output ∙ ap (λ (p : Option Entry × Listener). p.0) same,
        d.state ∙ ap (λ (p : Option Entry × Listener). p.1) same,
        d.ready,
        d.kept ∙ kept.0,
        overflows-never R D ep ready,
      )
