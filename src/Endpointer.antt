-- ===== src/Endpointer.antt =====
-- src/ps_endpointer.c and the part of src/ps_vad.c that it calls: voice activity detection over a
-- ring of frames, with speech start and end decided by counting.
--
-- `double` is a type `T` with operations `Real T`. The detector itself (src/common_audio, a copy of
-- another project's code) is a state `V` with a step, `Detector V`. The timestamp callback of the
-- client is a function from the number of earlier calls to the time that it returns.
--
-- The field `pos` is `position` here. `buf` is the source's array of `maxlen * frame_size` samples as
-- `maxlen` frames. The scratch buffers are written before they are read in `ep_linearize`, so they
-- are local there.
-- `speech_count--` is reached only for a counted frame.
pub mod Queue
pub mod Window
pub mod Core
pub mod Decide
pub mod Process
pub mod Stream
pub mod Drain
pub mod Ending
pub mod Start
use pocketsphinx.Base.{
  ℕ, zero, suc, ◌+◌, ◌-◌, ◌*◌, ◌%◌, Bool, true, false, ◌&&◌, ◌||◌, not, Option, none, some, List,
  [], ◌∷◌, ◌++◌, ℤ, pos, negsuc, pos_part, sub_ℕ, ltb, leb, ltb_ℤ, ◌==◌, if◌then◌else◌, get_or, set,
  take, drop, length, replicate,
}

-- The arithmetic of `double` that the code uses.
pub record Real (T : Type 0) : Type 0 where
  pub zero_r : T
  pub one : T
  pub half : T
  pub default_window : T
  pub default_ratio : T
  pub add : T → T → T
  pub sub : T → T → T
  pub mul : T → T → T
  pub div : T → T → T
  pub equal : T → T → Bool
  pub of_int : ℤ → T
  pub trunc : T → ℤ

-- `WebRtcVad_Process`: the class of a frame at a sample rate, and the new state.
pub record Detector (V : Type 0) : Type 0 where
  pub process : V → ℕ → List ℤ → ℕ → ℤ × V

-- `ps_vad_t`
pub record Vad (V : Type 0) : Type 0 where
  pub inst : V
  pub sample_rate : ℕ
  pub closest_sample_rate : ℕ
  pub frame_size : ℕ

-- `ps_endpointer_t`, with the count of callback calls so far.
pub record Endpointer (V T : Type 0) : Type 0 where
  pub vad : Vad V
  pub start_frames : ℕ
  pub end_frames : ℕ
  pub frame_length : T
  pub in_speech : Bool
  pub frame_size : ℕ
  pub maxlen : ℕ
  pub buf : List (List ℤ)
  pub is_speech : List ℤ
  pub position : ℕ
  pub n : ℕ
  pub qstart_time : T
  pub timestamp : T
  pub speech_start : T
  pub speech_end : T
  pub timestamp_cb : Option (ℕ → T)
  pub cb_calls : ℕ
  pub timestamp_offset : T
  pub last_audio_timestamp : T
  pub cached_timestamp : T
  pub timestamp_cached : Bool
  pub speech_count : ℕ

-- A C integer as a truth value.
abbrev pub truthy : ℤ → Bool
truthy (pos zero) = false
truthy (pos (suc n)) = true
truthy (negsuc n) = true

-- `x <= 0 || x >= maxlen`
abbrev pub not_between : ℤ → ℤ → Bool
not_between x maxlen = not (ltb_ℤ (pos 0) x) || not (ltb_ℤ x maxlen)

-- `memcpy` of `ys` to index `i` of `xs`.
unfoldable pub blit {ℓ} : {A : Type ℓ} → List A → ℕ → List A → List A
blit xs i ys = take i xs ++ (ys ++ drop (i + length ys) xs)

-- The three copies of `ep_linearize` on one of the two arrays.
unfoldable pub rotate {ℓ} : {A : Type ℓ} → ℕ → ℕ → List A → List A
unfolding blit
rotate position maxlen xs =
    let scratch = take position xs in
    let moved = blit xs 0 (take (maxlen - position) (drop position xs)) in
    blit moved (maxlen - position) scratch

module _ {V T : Type 0} (R : Real T) (D : Detector V) where
  open R use {
    zero_r, one, half, default_window, default_ratio, add, sub, mul, div, equal, of_int, trunc,
  }

  -- `ps_vad_frame_length`
  unfoldable pub vad_frame_length : Vad V → T
  vad_frame_length v = div (of_int (pos v.frame_size)) (of_int (pos v.sample_rate))

  unfoldable pub vad_classify : Vad V → List ℤ → ℤ × Vad V
  vad_classify v frame =
      let (c, inst) = D.process v.inst v.closest_sample_rate frame v.frame_size in
      (c, record v { inst = inst })

  -- `vad` is the result of `ps_vad_init`; `none` is NULL.
  unfoldable pub init : Option (Vad V) → T → T → Option (Endpointer V T)
  unfolding vad_frame_length
  init none window ratio = none
  init (some vad) window₀ ratio₀ =
      let window = if equal window₀ zero_r then default_window else window₀ in
      let ratio = if equal ratio₀ zero_r then default_ratio else ratio₀ in
      let frame_length = vad_frame_length vad in
      let maxlen = trunc (add (div window frame_length) half) in
      let start_frames = trunc (mul ratio (of_int maxlen)) in
      let end_frames = trunc (add (mul (sub one ratio) (of_int maxlen)) half) in
      if not_between start_frames maxlen
      then none
      else if not_between end_frames maxlen
      then none
      else some (record {
        vad = vad;
        start_frames = pos_part start_frames;
        end_frames = pos_part end_frames;
        frame_length = frame_length;
        in_speech = false;
        frame_size = vad.frame_size;
        maxlen = pos_part maxlen;
        buf = replicate (pos_part maxlen) (replicate vad.frame_size (pos 0));
        is_speech = replicate (pos_part maxlen) (pos 0);
        position = 0;
        n = 0;
        qstart_time = zero_r;
        timestamp = zero_r;
        speech_start = zero_r;
        speech_end = zero_r;
        timestamp_cb = none;
        cb_calls = 0;
        timestamp_offset = zero_r;
        last_audio_timestamp = zero_r;
        cached_timestamp = zero_r;
        timestamp_cached = false;
        speech_count = 0;
      })

  unfoldable pub ep_empty : Endpointer V T → Bool
  ep_empty ep = ep.n == 0

  unfoldable pub ep_full : Endpointer V T → Bool
  ep_full ep = ep.n == ep.maxlen

  unfoldable pub ep_clear : Endpointer V T → Endpointer V T
  ep_clear ep = record ep { n = 0; speech_count = 0 }

  -- One call of the client's callback, whose result is cached.
  unfoldable pub call_timestamp_cb : (ℕ → T) → Endpointer V T → Endpointer V T
  call_timestamp_cb cb ep = record ep {
    cached_timestamp = cb ep.cb_calls;
    timestamp_cached = true;
    cb_calls = ep.cb_calls + 1;
  }

  unfoldable pub ep_get_current_timestamp : Endpointer V T → T × Endpointer V T
  unfolding call_timestamp_cb
  ep_get_current_timestamp ep = elim ep.timestamp_cb [
    | none ↦ (ep.last_audio_timestamp, ep)
    | some cb ↦
        let ep' = if ep.timestamp_cached then ep else call_timestamp_cb cb ep in
        (ep'.cached_timestamp, ep')
  ]

  unfoldable pub ep_clear_timestamp_cache : Endpointer V T → Endpointer V T
  ep_clear_timestamp_cache ep = record ep { timestamp_cached = false }

  -- Returns the endpointer; the source's result is its `n`.
  unfoldable pub ep_push : Endpointer V T → ℤ → List ℤ → Endpointer V T
  unfolding ep_full
  ep_push ep is_speech frame =
      let i = (ep.position + ep.n) % ep.maxlen in
      let old_counted = ep_full ep && truthy (get_or ep.is_speech i (pos 0)) in
      let speech_count = if old_counted then ep.speech_count - 1 else ep.speech_count in
      let stored = record ep {
        buf = set ep.buf i frame;
        is_speech = set ep.is_speech i is_speech;
        speech_count = if truthy is_speech then speech_count + 1 else speech_count;
      } in
      if ep_full ep
      then record stored {
        qstart_time = add ep.qstart_time ep.frame_length;
        position = (ep.position + 1) % ep.maxlen;
      }
      else record stored { n = ep.n + 1 }

  -- The frame popped with its flag, or `none` for NULL.
  unfoldable pub ep_pop : Endpointer V T → Option (List ℤ × ℤ) × Endpointer V T
  unfolding ep_empty
  ep_pop ep =
      let flag = get_or ep.is_speech ep.position (pos 0) in
      if ep_empty ep then (none, ep) else (
        some (get_or ep.buf ep.position [], flag),
        record ep {
          qstart_time = add ep.qstart_time ep.frame_length;
          speech_count = if truthy flag then ep.speech_count - 1 else ep.speech_count;
          position = (ep.position + 1) % ep.maxlen;
          n = ep.n - 1;
        },
      )

  unfoldable pub ep_linearize : Endpointer V T → Endpointer V T
  unfolding rotate
  ep_linearize ep = if ep.position == 0 then ep else record ep {
    buf = rotate ep.position ep.maxlen ep.buf;
    is_speech = rotate ep.position ep.maxlen ep.is_speech;
    position = 0;
  }

  -- The time `frames_back` frames before `time`.
  unfoldable pub frames_before : Endpointer V T → T → ℤ → T
  frames_before ep time frames_back = sub time (mul (of_int frames_back) ep.frame_length)

  -- `speech_end` for a queue whose first frame is where speech ends: by the callback's time, or by
  -- the time of the queue's start.
  unfoldable pub boundary : Endpointer V T → T → ℤ → T
  unfolding frames_before
  boundary ep time frames_back = elim ep.timestamp_cb [
    | none ↦ ep.qstart_time
    | some cb ↦ frames_before ep time frames_back
  ]

  -- The loop of `ps_endpointer_end_stream`, on fuel: pop frames while they are speech, and count
  -- their samples.
  unfoldable pub drain_speech : ℕ → T → Endpointer V T → ℕ → ℕ × Endpointer V T
  drain_speech zero time ep out = (out, ep)
  drain_speech (suc fuel) time ep out =
      let popped = ep_pop ep in
      let ep' = popped.1 in
      let back = sub_ℕ ep'.n 1 in
      let more =
        drain_speech fuel time (record ep' { speech_end = boundary ep' time back })
          (out + ep'.frame_size) in
      elim popped.0 [
        | none ↦ (out, ep)
        | some (frame, flag) ↦ if truthy flag then more else (out, ep')
      ]

  -- The trailing samples, after a queue that was all speech.
  unfoldable pub add_trailing : Endpointer V T → List ℤ → ℕ → ℕ × Endpointer V T
  add_trailing ep frame out =
      let nsamp = length frame in
      let ep₁ = record ep {
        last_audio_timestamp =
            add ep.last_audio_timestamp
              (div (of_int (pos nsamp)) (of_int (pos ep.vad.sample_rate)));
      } in
      let (time, ep₂) = ep_get_current_timestamp ep₁ in
      (
        out + nsamp,
        record ep₂ {
          timestamp = time;
          buf = set ep.buf ep.position (blit (get_or ep.buf ep.position []) 0 frame);
          speech_end = time;
        },
      )

  -- `none` is NULL. Otherwise the result is the start of `buf`, and `*out_nsamp` samples of it.
  unfoldable pub end_stream : Endpointer V T → List ℤ → Option ℕ × Endpointer V T
  end_stream ep₀ frame =
      let ep₁ = ep_clear_timestamp_cache ep₀ in
      let (time, ep₂) = ep_get_current_timestamp (record ep₁ { in_speech = false }) in
      let ep₃ = ep_linearize (record ep₂ { speech_end = boundary ep₂ time (pos ep₂.n) }) in
      let (out, ep₄) = drain_speech (ep₃.n + 1) time ep₃ 0 in
      let whole =
        ep_empty ep₄ && equal ep₄.speech_end ep₄.qstart_time && not (ep₄.position == ep₄.maxlen) in
      let (out', ep₅) = if whole then add_trailing ep₄ frame out else (out, ep₄) in
      if ltb ep₀.frame_size (length frame)
      then (none, ep₀)
      else if ep₀.in_speech
      then (some out', ep_clear ep₅)
      else (none, ep₁)

  -- The message "VAD queue overflow" of `ps_endpointer_process`.
  unfoldable pub overflows : Endpointer V T → Bool
  unfolding ep_full
  overflows ep = ep.in_speech && ep_full ep

  -- The frame is classified and queued, and the times are brought up to date.
  unfoldable pub accept : Endpointer V T → List ℤ → Endpointer V T
  accept ep₀ frame =
      let ep₁ = ep_clear_timestamp_cache ep₀ in
      let (is_speech, vad) = vad_classify ep₁.vad frame in
      let ep₂ = ep_push (record ep₁ { vad = vad }) is_speech frame in
      let ep₃ = record ep₂ {
        last_audio_timestamp = add ep₂.last_audio_timestamp ep₂.frame_length;
      } in
      let (time, ep₄) = ep_get_current_timestamp ep₃ in record ep₄ { timestamp = time }

  -- The end of speech: one frame is returned and the rest stays queued.
  unfoldable pub leave_speech : Endpointer V T → Option (List ℤ × ℤ) × Endpointer V T
  leave_speech ep =
      let (frame, ep') = ep_pop ep in
      (frame, record ep' { speech_end = boundary ep' ep'.timestamp (pos ep'.n); in_speech = false })

  unfoldable pub enter_speech : Endpointer V T → Endpointer V T
  enter_speech ep = record ep {
    speech_start = boundary ep ep.timestamp (sub_ℕ ep.n 1);
    speech_end = zero_r;
    in_speech = true;
  }

  -- What is decided from the count of speech frames.
  unfoldable pub decide_speech : Endpointer V T → Option (List ℤ × ℤ) × Endpointer V T
  decide_speech ep =
      if ep.in_speech
      then if ltb ep.speech_count ep.end_frames then leave_speech ep else ep_pop ep
      else if ltb ep.start_frames ep.speech_count
      then ep_pop (enter_speech ep)
      else (none, ep)

  -- The frame returned, with its flag (which the source drops), or `none` for NULL.
  unfoldable pub process : Endpointer V T → List ℤ → Option (List ℤ × ℤ) × Endpointer V T
  process ep frame = decide_speech (accept ep frame)

  unfoldable pub set_timestamp_func : Endpointer V T → Option (ℕ → T) → Endpointer V T
  set_timestamp_func ep none = record ep { timestamp_cb = none; timestamp_offset = zero_r }
  set_timestamp_func ep (some cb) = record ep {
    timestamp_cb = some cb;
    timestamp_offset = sub (cb ep.cb_calls) ep.last_audio_timestamp;
    cb_calls = ep.cb_calls + 1;
  }

  -- `none` is NULL.
  unfoldable pub timestamp_of : Option (Endpointer V T) → T × Option (Endpointer V T)
  unfolding ep_get_current_timestamp
  timestamp_of none = (zero_r, none)
  timestamp_of (some ep) = let (t, ep') = ep_get_current_timestamp ep in (t, some ep')

  unfoldable pub ps_endpointer_in_speech : Endpointer V T → Bool
  ps_endpointer_in_speech ep = ep.in_speech

  unfoldable pub ps_endpointer_speech_start : Endpointer V T → T
  ps_endpointer_speech_start ep = ep.speech_start

  unfoldable pub ps_endpointer_speech_end : Endpointer V T → T
  ps_endpointer_speech_end ep = ep.speech_end
