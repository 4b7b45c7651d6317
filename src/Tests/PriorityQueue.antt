-- ===== src/Tests/PriorityQueue.antt =====
-- Runs of the priority queue, over numbers of which the least is best.
use pocketsphinx.Base.{◌≡◌, ◌⊎◌, ℕ, true, false, none, some, [], ◌∷◌, ltb, arith, refl}
use pocketsphinx.Util.PriorityQueue.{Queue, priority_queue_poll}
use pocketsphinx.Util.PriorityQueue.Laws.{IsQueue, Polls, priority_queue_poll_lem}

ltb_irreflexive : (a : ℕ) → ltb a a ≡ false
ltb_irreflexive a = ground arith

ltb_transitive : (a b c : ℕ) → ltb a b ≡ true → ltb b c ≡ true → ltb a c ≡ true
ltb_transitive a b c h h' = ground arith

abbrev waiting : Queue
waiting = record {
  pointers = some 7 ∷ none ∷ some 4 ∷ [];
  alloc_size = 3;
  size = 2;
  max_element = some 4;
}

waiting-IsQueue : IsQueue ltb waiting
waiting-IsQueue = record { slots = refl; counted = refl; best = (omega arith, (refl, (refl, tt))) }

priority_queue_poll_lem_example :
    ((waiting.size ≡ 0) × (priority_queue_poll ltb waiting ≡ (none, waiting)))
    ⊎ ((m : ℕ) × Polls ltb ltb_irreflexive ltb_transitive waiting m
          (priority_queue_poll ltb waiting))
priority_queue_poll_lem_example =
    priority_queue_poll_lem ltb ltb_irreflexive ltb_transitive waiting waiting-IsQueue
