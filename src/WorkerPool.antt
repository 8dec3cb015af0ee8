-- ===== src/WorkerPool.antt =====
-- src/network/worker_pool.cpp and include/pulsecore/network/worker_pool.hpp: the bounded queue of work
-- and what a worker thread makes of an item. The handler and the completion callback are arguments.
pub mod Results
pub mod Delivery
mod Tests
use pulse_core.Base.{
  ℕ, suc, ◌<◌, Bool, Option, none, some, List, [], ◌∷◌, ◌++◌, ◌≡◌, map, ◌==◌, if◌then◌else◌, length,
}
use pulse_core.Codec.{Message}
use pulse_core.BoundedQueue.{
  BoundedQueue, new_queue, try_push, Popped, item, ended, waiting, pop, close, size,
}
use pulse_core.Handler.{respond_error}

pub record WorkItem : Type 0 where
  pub connection_id : ℕ
  pub sequence : ℕ
  pub request : Message

pub record WorkResult : Type 0 where
  pub connection_id : ℕ
  pub sequence : ℕ
  pub response : Message

-- A handler returns a response, or throws (`none`).
abbrev pub WorkHandler : Type 0
WorkHandler = Message → Option Message

unfoldable pub worker_handler_error_response : ℕ → Message
worker_handler_error_response request_id = respond_error request_id "worker handler failed"

response_of : ℕ → Option Message → Message
response_of request_id (some response) = response
response_of request_id none = worker_handler_error_response request_id

-- What the body of `WorkerLoop` hands to the callback for an item.
unfoldable pub work : WorkHandler → WorkItem → WorkResult
unfolding response_of
work handler i = record {
  connection_id = i.connection_id;
  sequence = i.sequence;
  response = response_of i.request.request_id (handler i.request);
}

-- The pool: its queue, its threads, the items that a thread is working on, and the results that have
-- been handed to the callback, oldest first.
pub record WorkerPool : Type 0 where
  pub worker_count : ℕ
  pub queue : BoundedQueue WorkItem
  pub busy : List WorkItem
  pub completed : List WorkResult

-- `none` is `std::invalid_argument`. The callback and the handler are set: they are arguments here.
unfoldable pub new_pool : ℕ → ℕ → Option WorkerPool
new_pool worker_count queue_capacity = elim (new_queue {A = WorkItem} queue_capacity) [
  | none ↦ none
  | some queue ↦
      if worker_count == 0
      then none
      else some (record { worker_count = worker_count; queue = queue; busy = []; completed = [] })
]

unfoldable pub try_submit : WorkerPool → WorkItem → Bool × WorkerPool
try_submit p i =
    let (accepted, queue) = try_push p.queue i in (accepted, record p { queue = queue })

-- `Stop` closes the queue and joins the threads, which go on until `Pop` reports the end.
unfoldable pub stop : WorkerPool → WorkerPool
stop p = record p { queue = close p.queue }

unfoldable pub pending_work_count : WorkerPool → ℕ
pending_work_count p = size p.queue

after_take : WorkerPool → Popped WorkItem × BoundedQueue WorkItem → WorkerPool
after_take p (item i, queue) = record p { queue = queue; busy = i ∷ p.busy }
after_take p (ended, queue) = record p { queue = queue }
after_take p (waiting, queue) = record p { queue = queue }

-- A thread that is not busy calls `Pop`.
unfoldable pub take_work : WorkerPool → WorkerPool
unfolding after_take
take_work p = after_take p (pop p.queue)

-- The thread that works on the item between `before` and `after` calls the callback.
unfoldable pub finish_work :
    WorkHandler → WorkerPool → List WorkItem → WorkItem → List WorkItem → WorkerPool
finish_work handler p before i after = record p {
  busy = before ++ after;
  completed = p.completed ++ (work handler i ∷ []);
}
