-- ===== src/Endpointer/Core.antt =====
-- The fields that decide what the endpointer does; the times are the others. Reading the clock
-- changes none of them.
use pocketsphinx.Base.{ℕ, ◌≡◌, sym, ap, ◌∙◌, Bool, List, ℤ, arith, length}
use pocketsphinx.Endpointer.{Real, Detector, Endpointer, Vad, ep_get_current_timestamp}
use pocketsphinx.Endpointer.Queue.{IsValid, queue, slot, speech_in, Entry}
use pocketsphinx.Endpointer.Window.{window}

pub record Core (V : Type 0) : Type 0 where
  pub vad : Vad V
  pub start_frames : ℕ
  pub end_frames : ℕ
  pub in_speech : Bool
  pub frame_size : ℕ
  pub maxlen : ℕ
  pub buf : List (List ℤ)
  pub is_speech : List ℤ
  pub position : ℕ
  pub n : ℕ
  pub speech_count : ℕ

abbrev pub core_queue : {V : Type 0} → Core V → List Entry
core_queue c = window c.maxlen (slot c.buf c.is_speech) c.position c.n

module _ {V T : Type 0} where
  abbrev pub core : Endpointer V T → Core V
  core ep = record {
    vad = ep.vad;
    start_frames = ep.start_frames;
    end_frames = ep.end_frames;
    in_speech = ep.in_speech;
    frame_size = ep.frame_size;
    maxlen = ep.maxlen;
    buf = ep.buf;
    is_speech = ep.is_speech;
    position = ep.position;
    n = ep.n;
    speech_count = ep.speech_count;
  }

  pub queue-core : (a b : Endpointer V T) → core a ≡ core b → queue a ≡ queue b
  queue-core a b e = ap core_queue e

  pub IsValid-core : (a b : Endpointer V T) → core a ≡ core b → IsValid a → IsValid b
  IsValid-core a b e v =
      let cap = ap (λ (c : Core V). c.maxlen) e in
      record {
        room = omega (arith, ap (λ (c : Core V). c.position) e, v.room, cap);
        fits = omega (arith, ap (λ (c : Core V). c.n) e, v.fits, cap);
        buf_length = sym (ap (λ (c : Core V). length c.buf) e) ∙ v.buf_length ∙ cap;
        flags_length = sym (ap (λ (c : Core V). length c.is_speech) e) ∙ v.flags_length ∙ cap;
        counted =
            sym (ap (λ (c : Core V). c.speech_count) e)
            ∙ v.counted
            ∙ ap (λ (c : Core V). speech_in (core_queue c)) e;
      }

module _ {V T : Type 0} (R : Real T) (D : Detector V) where
  pub core-get_current_timestamp :
      (ep : Endpointer V T) → core (ep_get_current_timestamp R D ep).1 ≡ core ep
  unfolding ep_get_current_timestamp
  core-get_current_timestamp ep = ground arith
