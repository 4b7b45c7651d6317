-- ===== src/Tests/Endpointer.antt =====
-- Runs of the endpointer, over whole numbers for `double` and a detector that hears speech in every
-- frame whose first sample is not zero.
use pocketsphinx.Base.{
  ◌≡◌, ◌≤◌, ℕ, ◌+◌, ◌*◌, ◌-◌, ◌/◌, ◌==◌, true, false, refl, none, some, List, ℤ, pos, pos_part, [],
  ◌∷◌, arith, get_or,
}
use pocketsphinx.Endpointer.{Real, Detector, Vad, Endpointer, process, overflows, end_stream, init}
use pocketsphinx.Endpointer.Process.{process-listen}
use pocketsphinx.Endpointer.Decide.{IsReady, listen, listener, class_of, settings}
use pocketsphinx.Endpointer.Stream.{process_all, listen_all, classified, process_all-listen_all}
use pocketsphinx.Endpointer.Ending.{end_stream_bound}

abbrev whole : Real ℕ
whole = record {
  zero_r = 0;
  one = 10;
  half = 0;
  default_window = 5;
  default_ratio = 2;
  add = λ x y. x + y;
  sub = λ x y. x - y;
  mul = λ x y. x * y / 10;
  div = λ x y. x / y;
  equal = λ x y. x == y;
  of_int = pos_part;
  trunc = pos;
}

abbrev ear : Detector ℕ
ear = record { process = λ v rate frame size. (get_or frame 0 (pos 0), v + 1) }

abbrev vad_one : Vad ℕ
vad_one = record { inst = 0; sample_rate = 1; closest_sample_rate = 8000; frame_size = 1 }

abbrev loud : List ℤ
loud = pos 1 ∷ []

abbrev quiet : List ℤ
quiet = pos 0 ∷ []

-- In speech, with two frames queued of which the first is speech.
abbrev talking : Endpointer ℕ ℕ
talking = record {
  vad = vad_one;
  start_frames = 1;
  end_frames = 2;
  frame_length = 1;
  in_speech = true;
  frame_size = 1;
  maxlen = 3;
  buf = quiet ∷ quiet ∷ loud ∷ [];
  is_speech = pos 0 ∷ pos 0 ∷ pos 1 ∷ [];
  position = 2;
  n = 2;
  qstart_time = 4;
  timestamp = 6;
  speech_start = 4;
  speech_end = 0;
  timestamp_cb = none;
  cb_calls = 0;
  timestamp_offset = 0;
  last_audio_timestamp = 0;
  cached_timestamp = 0;
  timestamp_cached = false;
  speech_count = 1;
}

talking-IsReady : IsReady whole ear talking
talking-IsReady = record {
  valid = record {
    room = omega arith;
    fits = omega arith;
    buf_length = refl;
    flags_length = refl;
    counted = refl;
  };
  slack = λ h. omega arith;
}

process-listen_example :
    let r = process whole ear talking loud in
    let s = listen 3 1 2 (listener whole ear talking) (loud, class_of whole ear talking loud) in
    (r.0 ≡ s.0)
    × (listener whole ear r.1 ≡ s.1)
    × IsReady whole ear r.1
    × (settings whole ear r.1 ≡ settings whole ear talking)
    × (overflows whole ear talking ≡ false)
process-listen_example = process-listen whole ear talking loud talking-IsReady

abbrev stream : List (List ℤ)
stream = loud ∷ quiet ∷ quiet ∷ loud ∷ []

process_all-listen_all_example :
    let r = process_all whole ear talking stream in
    let s = listen_all 3 1 2 (listener whole ear talking) (classified whole ear vad_one stream) in
    (r.0 ≡ s.0) × (listener whole ear r.1 ≡ s.1) × IsReady whole ear r.1
process_all-listen_all_example = process_all-listen_all whole ear stream talking talking-IsReady

end_stream_bound_example :
    (out : ℕ) × ((end_stream whole ear talking loud).0 ≡ some out)
    × (out ≤ 3 * 1)
    × IsReady whole ear (end_stream whole ear talking loud).1
    × ((end_stream whole ear talking loud).1.n ≡ 0)
    × ((end_stream whole ear talking loud).1.in_speech ≡ false)
    × (settings whole ear (end_stream whole ear talking loud).1 ≡ settings whole ear talking)
end_stream_bound_example =
    end_stream_bound whole ear talking loud talking-IsReady refl (omega arith)

abbrev made : Endpointer ℕ ℕ
made = record {
  vad = vad_one;
  start_frames = 1;
  end_frames = 4;
  frame_length = 1;
  in_speech = false;
  frame_size = 1;
  maxlen = 5;
  buf = quiet ∷ quiet ∷ quiet ∷ quiet ∷ quiet ∷ [];
  is_speech = pos 0 ∷ pos 0 ∷ pos 0 ∷ pos 0 ∷ pos 0 ∷ [];
  position = 0;
  n = 0;
  qstart_time = 0;
  timestamp = 0;
  speech_start = 0;
  speech_end = 0;
  timestamp_cb = none;
  cb_calls = 0;
  timestamp_offset = 0;
  last_audio_timestamp = 0;
  cached_timestamp = 0;
  timestamp_cached = false;
  speech_count = 0;
}

init-made : init whole ear (some vad_one) 0 0 ≡ some made
unfolding init
init-made = refl
