-- ===== src/Kws/Search/Frames.antt =====
-- How the steps of a frame bound the histories of the HMMs.
use pocketsphinx.Base.{
  ◌⊎◌, inl, Bool, true, false, ◌&&◌, Option, none, some, List, [], ◌∷◌, map, All, All-map, ℤ, pos,
  negsuc, ◌+ℤ◌, ◌≤ℤ◌, ltb_ℤ, arith, if◌then◌else◌,
}
use pocketsphinx.Hmm.{Context, Hmm, hmm_clear, better}
use pocketsphinx.Hmm.Eval.{hmm_vit_eval}
use pocketsphinx.Hmm.Histories.{Histories, enter-Histories, clear-Histories, vit_eval-Histories}
use pocketsphinx.Kws.Search.{
  is_active, greater, eval_all, eval_active, prune_hmm, best_exit, last_hmm, enter_next, pass_on,
  enter_first, advance, reenter,
}

-- At -1 at the earliest, and either in the frames up to `f` or no later than `b`.
abbrev pub Within : (b f : ℤ) → ℤ → Type 0
Within b f x = (negsuc 0 ≤ℤ x) × ((x ≤ℤ f) ⊎ (x ≤ℤ b))

abbrev pub Tracks : (b f : ℤ) → List Hmm → Type 0
Tracks b f = All (Histories (Within b f))

pub Histories-imp :
    {P Q : ℤ → Type 0} (h : Hmm) → ((x : ℤ) → P x → Q x) → Histories P h → Histories Q h
Histories-imp h f q = record {
  states = λ i. f (h.history i) (q.states i);
  out = f h.out_history q.out;
}

module _ (b f : ℤ) where
  one_of :
      (c : Bool) (x y : Hmm)
      → Histories (Within b f) x
      → Histories (Within b f) y
      → Histories (Within b f) (if c then x else y)
  one_of true x y p q = p
  one_of false x y p q = q

  pub eval_all-Tracks :
      (c : Context) (hs : List Hmm) (best : ℤ) → Tracks b f hs → Tracks b f (eval_all c hs best).0
  unfolding eval_all
  eval_all-Tracks c [] best t = tt
  eval_all-Tracks c (h ∷ hs) best t = (
    vit_eval-Histories (Within b f) c h t.0,
    eval_all-Tracks c hs (greater (hmm_vit_eval c h).0 best) t.1,
  )

  pub eval_active-Tracks :
      (c : Context) (hs : List Hmm) (best : ℤ)
      → Tracks b f hs
      → Tracks b f (eval_active c hs best).0
  unfolding eval_active
  eval_active-Tracks c [] best t = tt
  eval_active-Tracks c (h ∷ hs) best t = (
    one_of (is_active h) (hmm_vit_eval c h).1 h (vit_eval-Histories (Within b f) c h t.0) t.0,
    eval_active-Tracks c hs (if is_active h then greater (hmm_vit_eval c h).0 best else best) t.1,
  )

  pub prune-Tracks :
      (thresh : ℤ) (hs : List Hmm)
      → negsuc 0 ≤ℤ f
      → Tracks b f hs
      → Tracks b f (map (prune_hmm thresh) hs)
  unfolding prune_hmm
  prune-Tracks thresh hs le =
      All-map (Histories (Within b f)) (Histories (Within b f)) (prune_hmm thresh) hs (λ h q.
        one_of (is_active h && ltb_ℤ h.bestscore thresh) (hmm_clear h) h
          (clear-Histories (Within b f) h q (omega arith, inl le)) q)

  next-Histories :
      (frame : ℤ) (pred h : Hmm)
      → Histories (Within b f) pred
      → Histories (Within b f) h
      → Histories (Within b f) (enter_next frame pred h)
  unfolding enter_next
  next-Histories frame pred h p q =
      one_of _ _ h
        (enter-Histories (Within b f) h pred.out_score pred.out_history (frame +ℤ pos 1) q p.out) q

  pass_on-Tracks :
      (frame : ℤ) (pred : Hmm) (hs : List Hmm)
      → Histories (Within b f) pred
      → Tracks b f hs
      → Tracks b f (pass_on frame pred hs)
  unfolding pass_on
  pass_on-Tracks frame pred [] p t = tt
  pass_on-Tracks frame pred (h ∷ hs) p t =
      (next-Histories frame pred h p t.0, pass_on-Tracks frame h hs t.0 t.1)

  pub advance-Tracks :
      (frame : ℤ) (pl : Hmm) (hs : List Hmm)
      → Within b f frame
      → Tracks b f hs
      → Tracks b f (advance frame pl hs)
  unfolding advance enter_first
  advance-Tracks frame pl [] w t = tt
  advance-Tracks frame pl (h ∷ hs) w t = (
    one_of _ _ h (enter-Histories (Within b f) h pl.out_score frame (frame +ℤ pos 1) t.0 w) t.0,
    pass_on-Tracks frame h hs t.0 t.1,
  )

  pub reenter-Tracks :
      (frame plp : ℤ) (pl : Hmm) (hs : List Hmm)
      → Histories (Within b f) pl
      → Tracks b f hs
      → Tracks b f (map (reenter frame plp pl) hs)
  unfolding reenter
  reenter-Tracks frame plp pl hs p =
      All-map (Histories (Within b f)) (Histories (Within b f)) (reenter frame plp pl) hs (λ h q.
        one_of _ _ h
          (enter-Histories (Within b f) h (pl.out_score +ℤ plp) pl.out_history (frame +ℤ pos 1) q
            p.out)
          q)

  -- The best exit is one of the HMMs.
  abbrev pub Maybe : Option Hmm → Type 0
  Maybe none = Unit
  Maybe (some h) = Histories (Within b f) h

  Maybe-one :
      (c : Bool) (h : Hmm) (o : Option Hmm)
      → Histories (Within b f) h
      → Maybe o
      → Maybe (if c then some h else o)
  Maybe-one true h o p q = p
  Maybe-one false h o p q = q

  pub best_exit-Maybe :
      (hs : List Hmm) (score : ℤ) (o : Option Hmm)
      → Tracks b f hs
      → Maybe o
      → Maybe (best_exit hs score o)
  unfolding best_exit
  best_exit-Maybe [] score o t m = m
  best_exit-Maybe (h ∷ hs) score o t m =
      let wins = better h.out_score score in
      best_exit-Maybe hs (if wins then h.out_score else score) (if wins then some h else o) t.1
        (Maybe-one wins h o t.0 m)

  pub last_hmm-Maybe : (hs : List Hmm) → Tracks b f hs → Maybe (last_hmm hs)
  last_hmm-Maybe [] t = tt
  last_hmm-Maybe (h ∷ []) t = t.0
  last_hmm-Maybe (h ∷ h' ∷ hs) t = last_hmm-Maybe (h' ∷ hs) t.1
