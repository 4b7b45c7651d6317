-- ===== src/Util/PriorityQueue.antt =====
-- src/util/priority_queue.c: a bounded set of pointers of which the best is kept at hand. A pointer
-- is a number and NULL is `none`; `better a b` is the caller's `compare(a, b) < 0`.
pub mod Slots
pub mod Laws
use pocketsphinx.Base.{
  ℕ, ◌+◌, ◌-◌, Bool, Option, none, some, List, [], ◌∷◌, ◌==◌, if◌then◌else◌, replicate,
}

pub record Queue : Type 0 where
  pub pointers : List (Option ℕ)
  pub alloc_size : ℕ
  pub size : ℕ
  pub max_element : Option ℕ

unfoldable pub priority_queue_create : ℕ → Queue
priority_queue_create len = record {
  pointers = replicate len none;
  alloc_size = len;
  size = 0;
  max_element = none;
}

unfoldable pub priority_queue_size : Queue → ℕ
priority_queue_size q = q.size

-- The first loop of `priority_queue_poll`: the first slot with the pointer is cleared.
unfoldable pub clear_slot : List (Option ℕ) → ℕ → List (Option ℕ)
clear_slot [] m = []
clear_slot (none ∷ ps) m = none ∷ clear_slot ps m
clear_slot (some p ∷ ps) m = if p == m then none ∷ ps else some p ∷ clear_slot ps m

-- The loop of `priority_queue_add`: the first free slot is taken.
unfoldable pub fill_slot : List (Option ℕ) → ℕ → List (Option ℕ)
fill_slot [] x = []
fill_slot (none ∷ ps) x = some x ∷ ps
fill_slot (some p ∷ ps) x = some p ∷ fill_slot ps x

module _ (better : ℕ → ℕ → Bool) where
  -- One comparison against `max_element`.
  unfoldable pub challenge : ℕ → Option ℕ → Option ℕ
  challenge p none = some p
  challenge p (some m) = if better p m then some p else some m

  -- The second loop of `priority_queue_poll`.
  unfoldable pub best_of : List (Option ℕ) → Option ℕ → Option ℕ
  unfolding challenge
  best_of [] m = m
  best_of (none ∷ ps) m = best_of ps m
  best_of (some p ∷ ps) m = best_of ps (challenge p m)

  -- `none` is NULL.
  unfoldable pub priority_queue_poll : Queue → Option ℕ × Queue
  unfolding clear_slot best_of
  priority_queue_poll q = if q.size == 0 then (none, q) else elim q.max_element [
    | none ↦ (none, q)
    | some m ↦
        let ps = clear_slot q.pointers m in
        (some m, record q { pointers = ps; max_element = best_of ps none; size = q.size - 1 })
  ]

  unfoldable pub priority_queue_add : Queue → ℕ → Queue
  unfolding fill_slot challenge
  priority_queue_add q x = if q.size == q.alloc_size then q else record q {
    pointers = fill_slot q.pointers x;
    max_element = challenge x q.max_element;
    size = q.size + 1;
  }
