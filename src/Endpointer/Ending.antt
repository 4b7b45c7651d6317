-- ===== src/Endpointer/Ending.antt =====
-- `ps_endpointer_end_stream`: what it reports fits the buffer, and the endpointer is empty after it.
use pocketsphinx.Base.{
  ℕ, ◌+◌, ◌*◌, ◌≡◌, ◌<◌, ◌≤◌, refl, sym, ap, ap₂, ◌∙◌, Bool, true, false, ◌&&◌, not, some, List, [],
  ℤ, pos, if◌then◌else◌, arith, length, ltb, ◌==◌, length-set, get_or,
}
use mathlib.Core.Bool.{false≢true}
use pocketsphinx.Endpointer.{
  Real, Detector, Endpointer, ep_empty, ep_linearize, ep_clear, drain_speech, add_trailing,
  boundary, end_stream, ep_get_current_timestamp, ep_clear_timestamp_cache, blit,
}
use pocketsphinx.Endpointer.Queue.{IsValid}
use pocketsphinx.Endpointer.Core.{core-get_current_timestamp, core, Core}
use pocketsphinx.Endpointer.Decide.{IsReady, settings}
use pocketsphinx.Endpointer.Drain.{
  IsShaped, trailing_fits, drain_bound, linearize-IsShaped, drain-IsShaped,
}

module _ {V T : Type 0} (R : Real T) (D : Detector V) where
  linearize_keeps :
      (ep : Endpointer V T)
      → (settings R D (ep_linearize R D ep) ≡ settings R D ep)
        × ((ep_linearize R D ep).n ≡ ep.n)
        × ((ep_linearize R D ep).position ≡ 0)
  unfolding ep_linearize
  linearize_keeps ep = (ground arith, ground arith, ground arith)

  trailing_keeps :
      (ep : Endpointer V T) (frame : List ℤ) (out : ℕ)
      → IsShaped R D ep
      → ((add_trailing R D ep frame out).0 ≡ out + length frame)
        × (settings R D (add_trailing R D ep frame out).1 ≡ settings R D ep)
        × IsShaped R D (add_trailing R D ep frame out).1
  unfolding add_trailing ep_get_current_timestamp
  trailing_keeps ep frame out h = (
    refl,
    ground arith,
    ground (arith, length-set ep.buf ep.position (blit (get_or ep.buf ep.position []) 0 frame)),
  )

  clear-IsReady : (ep : Endpointer V T) → IsShaped R D ep → IsReady R D (ep_clear R D ep)
  unfolding ep_clear
  clear-IsReady ep h = record {
    valid = record {
      room = h.room;
      fits = omega arith;
      buf_length = h.buf_length;
      flags_length = h.flags_length;
      counted = refl;
    };
    slack = λ q. absurd (false≢true (sym h.quiet ∙ q));
  }

  -- The samples after the drained queue: they are added to a queue that was all speech.
  closing :
      (ep₃ : Endpointer V T) (time : T) (frame : List ℤ) (whole : Bool)
      → IsShaped R D ep₃
      → ep₃.n < ep₃.maxlen
      → length frame ≤ ep₃.frame_size
      → let d = drain_speech R D (ep₃.n + 1) time ep₃ 0 in
        let r = if whole then add_trailing R D d.1 frame d.0 else d in
        (r.0 ≤ ep₃.maxlen * ep₃.frame_size)
        × (settings R D r.1 ≡ settings R D ep₃)
        × IsShaped R D r.1
  closing ep₃ time frame whole h room len =
      let d = drain_speech R D (ep₃.n + 1) time ep₃ 0 in
      let (bound, kept) = drain_bound R D (ep₃.n + 1) time ep₃ 0 in
      let shaped = drain-IsShaped R D (ep₃.n + 1) time ep₃ 0 h in
      let under : d.0 ≤ ep₃.n * ep₃.frame_size = omega (arith, bound) in
      let t = trailing_keeps d.1 frame d.0 shaped in
      let fits = trailing_fits d.0 ep₃.n (length frame) ep₃.maxlen ep₃.frame_size under room len in
      let fits' = trailing_fits d.0 ep₃.n 0 ep₃.maxlen ep₃.frame_size under room (omega arith) in
      elim whole
        as (λ b.
          let r = if b then add_trailing R D d.1 frame d.0 else d in
          (r.0 ≤ ep₃.maxlen * ep₃.frame_size)
          × (settings R D r.1 ≡ settings R D ep₃)
          × IsShaped R D r.1) [
            | true ↦ (rw t.0 fits, t.1 ∙ kept, t.2)
            | false ↦ (omega (arith, fits'), kept, shaped)
          ]

  -- The state before the loop: the clock is read, speech is over, the ring starts at index 0.
  abbrev clocked : Endpointer V T → T × Endpointer V T
  clocked ep =
      ep_get_current_timestamp R D (record ep { timestamp_cached = false; in_speech = false })

  abbrev stopped : Endpointer V T → Endpointer V T
  stopped ep = let t = clocked ep in record t.1 { speech_end = boundary R D t.1 t.0 (pos t.1.n) }

  abbrev lined : Endpointer V T → Endpointer V T
  lined ep = ep_linearize R D (stopped ep)

  -- The loop and what follows it.
  abbrev closed : Endpointer V T → List ℤ → ℕ × Endpointer V T
  closed ep frame =
      let d = drain_speech R D ((lined ep).n + 1) (clocked ep).0 (lined ep) 0 in
      let whole =
        ep_empty R D d.1
        && R.equal d.1.speech_end d.1.qstart_time
        && not (d.1.position == d.1.maxlen) in
      if whole then add_trailing R D d.1 frame d.0 else d

  end_stream_talking :
      (ep : Endpointer V T) (frame : List ℤ)
      → ep.in_speech ≡ true
      → ltb ep.frame_size (length frame) ≡ false
      → end_stream R D ep frame ≡ (some (closed ep frame).0, ep_clear R D (closed ep frame).1)
  unfolding end_stream ep_clear_timestamp_cache
  end_stream_talking ep frame s h = ground arith

  core-stopped :
      (ep : Endpointer V T)
      → core (stopped ep) ≡ core (record ep { timestamp_cached = false; in_speech = false })
  core-stopped ep =
      core-get_current_timestamp R D (record ep { timestamp_cached = false; in_speech = false })

  stopped-IsShaped : (ep : Endpointer V T) → IsValid ep → IsShaped R D (stopped ep)
  stopped-IsShaped ep v =
      let c = core-stopped ep in
      let len = ap (λ (c : Core V). c.maxlen) c in
      record {
        room = omega (arith, ap (λ (c : Core V). c.position) c, len, v.room);
        buf_length = ap (λ (c : Core V). length c.buf) c ∙ v.buf_length ∙ sym len;
        flags_length = ap (λ (c : Core V). length c.is_speech) c ∙ v.flags_length ∙ sym len;
        quiet = ap (λ (c : Core V). c.in_speech) c;
      }

  -- Ending a stream in which speech is going on reports at most as many samples as the buffer
  -- holds, and leaves the endpointer ready, empty and out of speech, its settings unchanged.
  pub end_stream_bound :
      (ep : Endpointer V T) (frame : List ℤ)
      → IsReady R D ep
      → ep.in_speech ≡ true
      → length frame ≤ ep.frame_size
      → (out : ℕ) × ((end_stream R D ep frame).0 ≡ some out)
        × (out ≤ ep.maxlen * ep.frame_size)
        × IsReady R D (end_stream R D ep frame).1
        × ((end_stream R D ep frame).1.n ≡ 0)
        × ((end_stream R D ep frame).1.in_speech ≡ false)
        × (settings R D (end_stream R D ep frame).1 ≡ settings R D ep)
  end_stream_bound ep frame ready s h =
      let c = core-stopped ep in
      let lk = linearize_keeps (stopped ep) in
      let kept =
        lk.0 ∙ ap (λ (c : Core V). (c.start_frames, c.end_frames, c.maxlen, c.frame_size)) c in
      let shaped = linearize-IsShaped R D (stopped ep) (stopped-IsShaped ep ready.valid) in
      let cap_same = ap (λ (t : ℕ × ℕ × ℕ × ℕ). t.2) kept in
      let size_same = ap (λ (t : ℕ × ℕ × ℕ × ℕ). t.3) kept in
      let n_same = lk.1 ∙ ap (λ (c : Core V). c.n) c in
      let d = drain_speech R D ((lined ep).n + 1) (clocked ep).0 (lined ep) 0 in
      let whole =
        ep_empty R D d.1
        && R.equal d.1.speech_end d.1.qstart_time
        && not (d.1.position == d.1.maxlen) in
      let (bound, same, shape) =
        closing (lined ep) (clocked ep).0 frame whole shaped
          (omega (arith, cap_same, n_same, ready.slack s)) (omega (arith, size_same, h)) in
      let r = closed ep frame in
      rw (end_stream_talking ep frame s (ground arith)) (
        r.0,
        refl,
        omega (arith, bound, ap₂ (λ (a : ℕ) (b : ℕ). a * b) cap_same size_same),
        clear-IsReady r.1 shape,
        unfold ep_clear in refl,
        unfold ep_clear in shape.quiet,
        unfold ep_clear in same ∙ kept,
      )
