-- ===== src/Util/PriorityQueue/Laws.antt =====
-- The queue as a bag of pointers, with the best of them at hand.
use pocketsphinx.Base.{
  ℕ, ◌+◌, ◌≡◌, ◌<◌, refl, subst, ◌∙◌, ◌⊎◌, inl, inr, Bool, true, false, Option, none, some, List,
  [], ◌∷◌, ◌==◌, arith, if◌then◌else◌, length, Bool-cases,
}
use pocketsphinx.Util.PriorityQueue.{
  Queue, clear_slot, fill_slot, challenge, best_of, priority_queue_poll, priority_queue_add,
  priority_queue_size,
}
use pocketsphinx.Util.PriorityQueue.Slots.{
  taken, times, length-clear, length-fill, taken-clear, times-clear, taken-fill, times-fill,
}

module _ (better : ℕ → ℕ → Bool) where
  -- No pointer in a slot is better than `m`.
  abbrev pub Unbeaten : ℕ → List (Option ℕ) → Type 0
  Unbeaten m [] = Unit
  Unbeaten m (none ∷ ps) = Unbeaten m ps
  Unbeaten m (some p ∷ ps) = (better p m ≡ false) × Unbeaten m ps

  -- `max_element` is in a slot and unbeaten; there is none if no slot is taken.
  abbrev pub IsBest : Option ℕ → List (Option ℕ) → Type 0
  IsBest none ps = taken ps ≡ 0
  IsBest (some m) ps = (0 < times m ps) × Unbeaten m ps

  pub record IsQueue (q : Queue) : Type 0 where
    pub slots : length q.pointers ≡ q.alloc_size
    pub counted : taken q.pointers ≡ q.size
    pub best : IsBest q.max_element q.pointers

  module _ (irreflexive : (a : ℕ) → better a a ≡ false)
      (transitive : (a b c : ℕ) → better a b ≡ true → better b c ≡ true → better a c ≡ true) where
    -- What a pointer that beats `m` does not beat, `m` does not.
    beaten_below : (x m p : ℕ) → better x m ≡ true → better p m ≡ false → better p x ≡ false
    beaten_below x m p h e = elim (Bool-cases (better p x)) [
      | inr n ↦ n
      | inl y ↦ let beats = transitive p x m y h in absurd cc
    ]

    Unbeaten-better :
        (x m : ℕ) (ps : List (Option ℕ)) → better x m ≡ true → Unbeaten m ps → Unbeaten x ps
    Unbeaten-better x m [] h u = tt
    Unbeaten-better x m (none ∷ ps) h u = Unbeaten-better x m ps h u
    Unbeaten-better x m (some p ∷ ps) h u = (beaten_below x m p h u.0, Unbeaten-better x m ps h u.1)

    -- The best of the slots and one more pointer.
    best_of_lem :
        (ps : List (Option ℕ)) (m : ℕ)
        → (r : ℕ) × (best_of better ps (some m) ≡ some r)
          × ((r ≡ m) ⊎ (0 < times r ps))
          × (better m r ≡ false)
          × ((y : ℕ) → better y m ≡ false → better y r ≡ false)
          × Unbeaten r ps
    unfolding best_of challenge
    best_of_lem [] m = (m, refl, inl refl, irreflexive m, λ y h. h, tt)
    best_of_lem (none ∷ ps) m = best_of_lem ps m
    best_of_lem (some p ∷ ps) m = elim (Bool-cases (better p m)) [
      | inl e ↦
          let (r, run, here, top, keeps, u) = best_of_lem ps p in
          rw e (
            r,
            run,
            elim here [ inl q ↦ inr (ground arith) | inr q ↦ inr (ground arith) ],
            keeps m (beaten_below p m m e (irreflexive m)),
            λ y h. keeps y (beaten_below p m y e h),
            (top, u),
          )
      | inr e ↦
          let (r, run, here, top, keeps, u) = best_of_lem ps m in
          rw e (
            r,
            run,
            elim here [ inl q ↦ inl q | inr q ↦ inr (ground arith) ],
            top,
            keeps,
            (keeps p e, u),
          )
    ]

    skip-IsBest : (o : Option ℕ) (ps : List (Option ℕ)) → IsBest o ps → IsBest o (none ∷ ps)
    skip-IsBest none ps b = b
    skip-IsBest (some m) ps b = b

    best_of-IsBest : (ps : List (Option ℕ)) → IsBest (best_of better ps none) ps
    unfolding best_of challenge
    best_of-IsBest [] = refl
    best_of-IsBest (none ∷ ps) = skip-IsBest (best_of better ps none) ps (best_of-IsBest ps)
    best_of-IsBest (some p ∷ ps) =
        let (r, run, here, top, keeps, u) = best_of_lem ps p in
        let there : 0 < times r (some p ∷ ps) = elim here [
          | inl q ↦ ground arith
          | inr q ↦ ground arith
        ] in
        rw run (there, (top, u))

    Unbeaten-fill :
        (m x : ℕ) (ps : List (Option ℕ))
        → Unbeaten m ps
        → better x m ≡ false
        → Unbeaten m (fill_slot ps x)
    unfolding fill_slot
    Unbeaten-fill m x [] u h = tt
    Unbeaten-fill m x (none ∷ ps) u h = (h, u)
    Unbeaten-fill m x (some p ∷ ps) u h = (u.0, Unbeaten-fill m x ps u.1 h)

    Unbeaten-empty : (m : ℕ) (ps : List (Option ℕ)) → taken ps ≡ 0 → Unbeaten m ps
    Unbeaten-empty m [] h = tt
    Unbeaten-empty m (none ∷ ps) h = Unbeaten-empty m ps h
    Unbeaten-empty m (some p ∷ ps) h = absurd (omega arith)

    challenge-IsBest :
        (x : ℕ) (o : Option ℕ) (ps : List (Option ℕ))
        → taken ps < length ps
        → IsBest o ps
        → IsBest (challenge better x o) (fill_slot ps x)
    unfolding challenge
    challenge-IsBest x none ps room b = (
      ground (arith, times-fill ps x x room),
      Unbeaten-fill x x ps (Unbeaten-empty x ps b) (irreflexive x),
    )
    challenge-IsBest x (some m) ps room b = elim (Bool-cases (better x m)) [
      | inl e ↦
          let there : 0 < times x (fill_slot ps x) = ground (arith, times-fill ps x x room) in
          rw e (there, Unbeaten-fill x x ps (Unbeaten-better x m ps e b.1) (irreflexive x))
      | inr e ↦
          let there : 0 < times m (fill_slot ps x) = ground (arith, times-fill ps x m room) in
          rw e (there, Unbeaten-fill m x ps b.1 e)
    ]

    -- What a poll of a queue that is not empty does.
    abbrev pub Polls : Queue → ℕ → Option ℕ × Queue → Type 0
    Polls q m r =
        (r.0 ≡ some m)
        × Unbeaten m q.pointers
        × IsQueue r.1
        × (priority_queue_size r.1 + 1 ≡ priority_queue_size q)
        × ((k : ℕ) → times k r.1.pointers + (if k == m then 1 else 0) ≡ times k q.pointers)

    poll_best :
        (q : Queue) (o : Option ℕ)
        → IsQueue q
        → (q.size == 0) ≡ false
        → q.max_element ≡ o
        → (m : ℕ) × Polls q m (priority_queue_poll better q)
    unfolding priority_queue_poll priority_queue_size
    poll_best q none v e em =
        let b : taken q.pointers ≡ 0 = subst (λ o. IsBest o q.pointers) em v.best in
        absurd (ground (arith, v.counted))
    poll_best q (some m) v e em =
        let b : IsBest (some m) q.pointers = subst (λ o. IsBest o q.pointers) em v.best in
        let fewer = taken-clear q.pointers m b.0 in
        (
          m,
          rw (e, em)
              (
                refl,
                b.1,
                record {
                  slots = length-clear q.pointers m ∙ v.slots;
                  counted = omega (arith, v.counted);
                  best = best_of-IsBest (clear_slot q.pointers m);
                },
                omega (arith, v.counted),
                λ k. times-clear q.pointers m k b.0,
              ),
        )

    -- For a comparison that is irreflexive and transitive: a poll of an empty queue returns NULL and
    -- changes nothing; a poll of any other returns a pointer that none in the queue is better than,
    -- takes it out once and no other, lowers the size by one, and finds the best of the rest.
    pub priority_queue_poll_lem :
        (q : Queue)
        → IsQueue q
        → ((q.size ≡ 0) × (priority_queue_poll better q ≡ (none, q)))
          ⊎ ((m : ℕ) × Polls q m (priority_queue_poll better q))
    priority_queue_poll_lem q v = elim (Bool-cases (q.size == 0)) [
      | inl e ↦ inl (ground arith, unfold priority_queue_poll in rw e)
      | inr e ↦ inr (poll_best q q.max_element v e refl)
    ]

    -- For such a comparison, adding a pointer to a queue with a free slot adds it once and no other,
    -- raises the size by one, and keeps the best at hand.
    pub priority_queue_add_lem :
        (q : Queue) (x : ℕ)
        → IsQueue q
        → q.size < q.alloc_size
        → let q' = priority_queue_add better q x in
          IsQueue q'
          × (priority_queue_size q' ≡ priority_queue_size q + 1)
          × ((k : ℕ) → times k q'.pointers ≡ times k q.pointers + (if k == x then 1 else 0))
    unfolding priority_queue_add priority_queue_size
    priority_queue_add_lem q x v lt =
        let room : taken q.pointers < length q.pointers = omega (arith, v.slots, v.counted) in
        let e : (q.size == q.alloc_size) ≡ false = ground arith in
        rw e (
          record {
            slots = length-fill q.pointers x ∙ v.slots;
            counted = omega (arith, taken-fill q.pointers x room, v.counted);
            best = challenge-IsBest x q.max_element q.pointers room v.best;
          },
          refl,
          λ k. times-fill q.pointers x k room,
        )
