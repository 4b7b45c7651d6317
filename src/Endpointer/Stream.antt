-- ===== src/Endpointer/Stream.antt =====
-- A whole stream: the frames handed out are those of the abstract machine.
use pocketsphinx.Base.{ℕ, ◌≡◌, refl, ap, ap₂, ◌∙◌, Option, List, [], ◌∷◌, ℤ, arith}
use pocketsphinx.Endpointer.{
  Real, Detector, Endpointer, Vad, vad_classify, ep_push, ep_pop, accept, leave_speech,
  enter_speech, decide_speech, process,
}
use pocketsphinx.Endpointer.Queue.{Entry}
use pocketsphinx.Endpointer.Core.{Core}
use pocketsphinx.Endpointer.Process.{process-listen}
use pocketsphinx.Endpointer.Decide.{
  Listener, listen, listener, IsReady, class_of, primed, core-accept,
}

-- The machine fed with a list of entries.
abbrev pub listen_all : ℕ → ℕ → ℕ → Listener → List Entry → List (Option Entry) × Listener
listen_all maxlen start stop s [] = ([], s)
listen_all maxlen start stop s (x ∷ xs) =
    let (out, s') = listen maxlen start stop s x in
    let (outs, s'') = listen_all maxlen start stop s' xs in (out ∷ outs, s'')

module _ {V T : Type 0} (R : Real T) (D : Detector V) where
  -- The frames with the classes that the detector gives them one after the other.
  abbrev pub classified : Vad V → List (List ℤ) → List Entry
  classified vad [] = []
  classified vad (f ∷ fs) = let (c, vad') = vad_classify R D vad f in (f, c) ∷ classified vad' fs

  -- Calls of `ps_endpointer_process` on frame after frame.
  unfoldable pub process_all : Endpointer V T → List (List ℤ) → List (Option Entry) × Endpointer V T
  process_all ep [] = ([], ep)
  process_all ep (f ∷ fs) =
      let (out, ep') = process R D ep f in
      let (outs, ep'') = process_all ep' fs in (out ∷ outs, ep'')

  vad-push : (ep : Endpointer V T) (s : ℤ) (f : List ℤ) → (ep_push R D ep s f).vad ≡ ep.vad
  unfolding ep_push
  vad-push ep s f = ground arith

  vad-decide : (ep : Endpointer V T) → (decide_speech R D ep).1.vad ≡ ep.vad
  unfolding decide_speech leave_speech enter_speech ep_pop
  vad-decide ep = ground arith

  vad-process :
      (ep : Endpointer V T) (f : List ℤ) → (process R D ep f).1.vad ≡ (vad_classify R D ep.vad f).1
  unfolding process
  vad-process ep f =
      vad-decide (accept R D ep f)
      ∙ ap (λ (c : Core V). c.vad) (core-accept R D ep f)
      ∙ vad-push (primed R D ep f) (class_of R D ep f) f

  -- From an endpointer that is ready, the frames handed out over a stream, and the queue and phase
  -- at its end, are those of the abstract machine fed with the classified frames, and the endpointer
  -- is ready again.
  pub process_all-listen_all :
      (fs : List (List ℤ)) (ep : Endpointer V T)
      → IsReady R D ep
      → let r = process_all ep fs in
        let s =
          listen_all ep.maxlen ep.start_frames ep.end_frames
            (listener R D ep)
            (classified ep.vad fs) in
        (r.0 ≡ s.0) × (listener R D r.1 ≡ s.1) × IsReady R D r.1
  unfolding process_all
  process_all-listen_all [] ep ready = (refl, refl, ready)
  process_all-listen_all (f ∷ fs) ep ready =
      let (out, state, next, kept, fine) = process-listen R D ep f ready in
      let rest = process_all-listen_all fs (process R D ep f).1 next in
      let ep' = (process R D ep f).1 in
      let s' =
        (listen ep.maxlen ep.start_frames ep.end_frames (listener R D ep)
          (f, class_of R D ep f)).1 in
      let same : listen_all ep'.maxlen ep'.start_frames ep'.end_frames (listener R D ep')
            (classified ep'.vad fs)
          ≡ listen_all ep.maxlen ep.start_frames ep.end_frames s'
              (classified (vad_classify R D ep.vad f).1 fs) =
        λ i.
          listen_all (kept i).2 (kept i).0 (kept i).1 (state i)
            (classified (vad-process ep f i) fs) in
      (
        ap₂ ◌∷◌ out (rest.0 ∙ ap (λ (p : List (Option Entry) × Listener). p.0) same),
        rest.1 ∙ ap (λ (p : List (Option Entry) × Listener). p.1) same,
        rest.2,
      )
