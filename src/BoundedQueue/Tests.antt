-- ===== src/BoundedQueue/Tests.antt =====
-- Concrete runs of a queue of two places.
use pulse_core.Base.{ℕ, ◌≡◌, refl, true, false, some, List, [], ◌∷◌, ◌++◌}
use pulse_core.BoundedQueue.{BoundedQueue, new_queue, pop, ended}
use pulse_core.BoundedQueue.Fifo.{
  Call, pushes, pops, History, start, perform_all, pop_calls, IsFifo, queue-IsFifo, closed_drains,
}

abbrev empty_queue : BoundedQueue ℕ
empty_queue = record { capacity = 2; items = []; closed = false }

empty_queue_new : new_queue 2 ≡ some empty_queue
unfolding new_queue
empty_queue_new = refl

abbrev calls : List (Call ℕ)
calls = pushes 5 ∷ pushes 6 ∷ pushes 7 ∷ pops ∷ pushes 8 ∷ []

queue-IsFifo_example : IsFifo 2 (perform_all (start empty_queue) calls)
queue-IsFifo_example = queue-IsFifo 2 empty_queue calls empty_queue_new

abbrev closed_history : History ℕ
closed_history = record {
  queue = record { capacity = 2; items = 5 ∷ 6 ∷ []; closed = true };
  accepted = 5 ∷ 6 ∷ [];
  returned = [];
}

closed_drains_example :
    ((perform_all closed_history (pop_calls closed_history.queue.items)).returned
      ≡ closed_history.returned ++ closed_history.queue.items)
    × (pop (perform_all closed_history (pop_calls closed_history.queue.items)).queue
        ≡ (ended, (perform_all closed_history (pop_calls closed_history.queue.items)).queue))
closed_drains_example = closed_drains closed_history refl
