-- ===== src/BoundedQueue.antt =====
-- include/pulsecore/core/bounded_queue.hpp. Each method holds the mutex from its test to its update, so
-- that a call of any thread is one step; `notify_one` and `notify_all` wake waiting threads, which test
-- again, and change no state.
pub mod Fifo
mod Tests
use pulse_core.Base.{
  ℕ, ◌≤◌, Bool, true, false, ◌||◌, Option, none, some, List, [], ◌∷◌, ◌++◌, leb, ◌==◌,
  if◌then◌else◌, length,
}

pub record BoundedQueue {ℓ} (A : Type ℓ) : Type ℓ where
  pub capacity : ℕ
  pub items : List A
  pub closed : Bool

-- `Pop` returns an item, `std::nullopt`, or waits for a change of the state.
pub data Popped {ℓ} (A : Type ℓ) : Type ℓ where
  item : A → Popped A
  ended waiting : Popped A

module _ {ℓ} {A : Type ℓ} where
  -- The constructor; `none` is `std::invalid_argument`.
  unfoldable pub new_queue : ℕ → Option (BoundedQueue A)
  new_queue capacity =
      if capacity == 0
      then none
      else some (record { capacity = capacity; items = []; closed = false })

  unfoldable pub try_push : BoundedQueue A → A → Bool × BoundedQueue A
  try_push q a =
      if q.closed || leb q.capacity (length q.items)
      then (false, q)
      else (true, record q { items = q.items ++ (a ∷ []) })

  pop_from : BoundedQueue A → List A → Popped A × BoundedQueue A
  pop_from q [] = if q.closed then (ended, q) else (waiting, q)
  pop_from q (a ∷ rest) = (item a, record q { items = rest })

  unfoldable pub pop : BoundedQueue A → Popped A × BoundedQueue A
  unfolding pop_from
  pop q = pop_from q q.items

  unfoldable pub close : BoundedQueue A → BoundedQueue A
  close q = record q { closed = true }

  unfoldable pub size : BoundedQueue A → ℕ
  size q = length q.items
