-- ===== src/Endpointer/Start.antt =====
-- The endpointer that `ps_endpointer_init` makes.
use pocketsphinx.Base.{
  ℕ, ◌<◌, ◌≡◌, refl, subst, Bool, true, false, Option, none, some, [], ℤ, pos, negsuc, pos_part,
  if◌then◌else◌, length-replicate, arith,
}
use pocketsphinx.Endpointer.{Real, Detector, Vad, Endpointer, not_between, vad_frame_length, init}
use pocketsphinx.Endpointer.Queue.{queue}
use pocketsphinx.Endpointer.Decide.{IsReady}

between : (x m : ℤ) → not_between x m ≡ false → (0 < pos_part x) × (pos_part x < pos_part m)
between (pos x) (pos m) h = ground arith
between (pos x) (negsuc m) h = ground arith
between (negsuc x) (pos m) h = ground arith
between (negsuc x) (negsuc m) h = ground arith

guarded {ℓ} :
    {A : Type ℓ} (a b : Bool) (x y : A)
    → (if a then none else if b then none else some x) ≡ some y
    → (a ≡ false) × (b ≡ false) × (x ≡ y)
guarded true b x y e = absurd cc
guarded false true x y e = absurd cc
guarded false false x y e = (refl, refl, cc)

below : {x m : ℕ} → x < m → 0 < m
below h = omega arith

module _ {V T : Type 0} (R : Real T) (D : Detector V) where
  abbrev pub IsStart : Endpointer V T → Type 0
  IsStart ep =
      IsReady R D ep
      × (queue ep ≡ [])
      × (ep.in_speech ≡ false)
      × (0 < ep.start_frames)
      × (ep.start_frames < ep.maxlen)
      × (0 < ep.end_frames)
      × (ep.end_frames < ep.maxlen)

  -- An endpointer that is made is ready, with nothing queued and out of speech; the counts of frames
  -- that start and that end speech are at least one and less than the length of the queue.
  pub init-IsReady :
      (v : Option (Vad V)) (window ratio : T) (ep : Endpointer V T)
      → init R D v window ratio ≡ some ep
      → IsStart ep
  unfolding init vad_frame_length
  init-IsReady none window ratio ep e = absurd cc
  init-IsReady (some vad) window ratio ep e =
      let w = if R.equal window R.zero_r then R.default_window else window in
      let r = if R.equal ratio R.zero_r then R.default_ratio else ratio in
      let maxlen = R.trunc (R.add (R.div w (vad_frame_length R D vad)) R.half) in
      let first = R.trunc (R.mul r (R.of_int maxlen)) in
      let last = R.trunc (R.add (R.mul (R.sub R.one r) (R.of_int maxlen)) R.half) in
      let (a, b, same) = guarded _ _ _ _ e in
      let (s0, s1) = between first maxlen a in
      let (e0, e1) = between last maxlen b in
      subst IsStart same (
        record {
          valid = record {
            room = below s1;
            fits = omega arith;
            buf_length = length-replicate _ _;
            flags_length = length-replicate _ _;
            counted = refl;
          };
          slack = λ h. absurd cc;
        },
        refl,
        refl,
        s0,
        s1,
        e0,
        e1,
      )
