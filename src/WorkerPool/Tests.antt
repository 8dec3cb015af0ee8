-- ===== src/WorkerPool/Tests.antt =====
-- A concrete run of a pool of one thread: a request is submitted, taken and finished.
use pulse_core.Base.{◌≡◌, refl, false, some, [], ◌∷◌, arith}
use pulse_core.Codec.Tests.{ping}
use pulse_core.BoundedQueue.{new_queue, try_push, pop}
use pulse_core.Handler.{handle_owned_request}
use pulse_core.WorkerPool.{
  WorkItem, WorkHandler, WorkerPool, new_pool, try_submit, take_work, finish_work,
}
use pulse_core.WorkerPool.Delivery.{
  State, Reach, here, next, submits, takes, finishes, after_submit, Delivers, delivery,
}

abbrev shared_handler : WorkHandler
shared_handler request = some (handle_owned_request request)

abbrev idle_pool : WorkerPool
idle_pool = record {
  worker_count = 1;
  queue = record { capacity = 2; items = []; closed = false };
  busy = [];
  completed = [];
}

idle_pool_new : new_pool 1 2 ≡ some idle_pool
unfolding new_pool new_queue
idle_pool_new = refl

abbrev ping_item : WorkItem
ping_item = record { connection_id = 1; sequence = 0; request = ping }

abbrev started : State
started = record { pool = idle_pool; submitted = []; done = [] }

abbrev submitted : State
submitted = after_submit started ping_item (try_submit started.pool ping_item)

abbrev working : State
working = record submitted { pool = take_work submitted.pool }

abbrev finished : State
finished = record working {
  pool = finish_work shared_handler working.pool [] ping_item [];
  done = ping_item ∷ [];
}

finished_reached : Reach shared_handler started finished
unfolding after_submit try_submit try_push take_work pop
finished_reached =
    next (next (next here (submits ping_item)) (takes (omega arith)))
      (finishes [] ping_item [] refl)

delivery_example : Delivers shared_handler finished
delivery_example = delivery shared_handler 1 2 idle_pool finished idle_pool_new finished_reached
