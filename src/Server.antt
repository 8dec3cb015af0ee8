-- ===== src/Server.antt =====
-- src/network/epoll_echo_server.cpp and include/pulsecore/network/epoll_echo_server.hpp: the flow
-- of one connection's requests to the worker pool and of their responses back. The calls of
-- `UpdateInterest` and `RemoveConnection` at the end of a method stay with the caller.
pub mod Order
pub mod Replies
pub mod Submit
pub mod Marks
pub mod Interest
pub mod Setup
pub mod Removal
pub mod Kernel
pub mod Effects
pub mod Handlers
pub mod Accept
pub mod Events
pub mod Run
pub mod Consistent
mod Tests
use pulse_core.Base.{
  ℕ, zero, suc, ◌+◌, ◌-◌, ◌%◌, ◌^◌, Bool, true, false, not, ◌&&◌, Option, none, some, List, [], ◌∷◌,
  leb, if◌then◌else◌, length,
}
use pulse_core.Base.Maps.{find, emplace, erase}
use pulse_core.Codec.{Message}
use pulse_core.Connection.{Connection, queue_output, has_pending_output}
use pulse_core.WorkerPool.{WorkItem, WorkerPool, try_submit}

pub record ConnectionFlow : Type 0 where
  pub next_request_sequence : ℕ
  pub next_response_sequence : ℕ
  pub completed_responses : List (ℕ × Message)
  pub close_after_flush : Bool
  pub registered_with_epoll : Bool

abbrev pub new_flow : ConnectionFlow
new_flow = record {
  next_request_sequence = 0;
  next_response_sequence = 0;
  completed_responses = [];
  close_after_flush = false;
  registered_with_epoll = false;
}

-- `++` on `std::uint64_t`.
unfoldable pub next_sequence : ℕ → ℕ
next_sequence n = (n + 1) % 2 ^ 64

-- The difference of the two counters on `std::uint64_t`.
unfoldable pub in_flight : ConnectionFlow → ℕ
in_flight f = (f.next_request_sequence + 2 ^ 64 - f.next_response_sequence) % 2 ^ 64

abbrev pub Submitted : Type 0
Submitted = Bool × WorkerPool × ConnectionFlow

-- The part of a round after `TrySubmit`; `again` is the next round.
after_submit :
    (WorkerPool → ConnectionFlow → Submitted) → ConnectionFlow → Bool × WorkerPool → Submitted
after_submit again f (false, pool) = (false, pool, f)
after_submit again f (true, pool) =
    again pool (record f { next_request_sequence = next_sequence f.next_request_sequence })

-- `SubmitWork` on the flow that it has found.
unfoldable pub submit_work : ℕ → ℕ → List Message → WorkerPool → ConnectionFlow → Submitted
unfolding after_submit
submit_work max_in_flight id [] pool f = (true, pool, f)
submit_work max_in_flight id (m ∷ messages) pool f =
    let work_item : WorkItem = record {
      connection_id = id;
      sequence = f.next_request_sequence;
      request = m;
    } in
    let attempt =
      after_submit (submit_work max_in_flight id messages) f (try_submit pool work_item) in
    if leb max_in_flight (in_flight f) then (false, pool, f) else attempt

-- `none` is no outcome of the source: the fuel ran out.
abbrev pub Flushed : Type 0
Flushed = Option (Bool × Connection × ConnectionFlow)

-- The part of a round after `QueueOutput`; `again` is the next round.
after_queue : (Connection → ConnectionFlow → Flushed) → ConnectionFlow → Bool × Connection → Flushed
after_queue again f (false, c) = some (false, c, f)
after_queue again f (true, c) = again c (record f {
  next_response_sequence = next_sequence f.next_response_sequence;
  completed_responses = erase f.next_response_sequence f.completed_responses;
})

flush_found :
    (Connection → ConnectionFlow → Flushed) → Connection → ConnectionFlow → Option Message → Flushed
flush_found again c f none = some (true, c, f)
flush_found again c f (some m) = after_queue again f (queue_output c m)

flush_loop : ℕ → Connection → ConnectionFlow → Flushed
flush_loop zero c f = none
flush_loop (suc fuel) c f =
    flush_found (flush_loop fuel) c f (find f.next_response_sequence f.completed_responses)

-- The loop of `FlushReadyResponses`; false where the source removes the connection. Each round erases
-- a response, so one round more than there are responses is enough.
unfoldable pub flush_ready_responses : Connection → ConnectionFlow → Flushed
unfolding flush_loop flush_found after_queue
flush_ready_responses c f = flush_loop (suc (length f.completed_responses)) c f

unfoldable pub should_close_after_flush : Connection → ConnectionFlow → Bool
should_close_after_flush c f =
    f.close_after_flush
    && not (has_pending_output c)
    && leb f.next_request_sequence f.next_response_sequence

-- `HandleCompletedWork` on the connection and the flow that it has found.
unfoldable pub handle_completed_work : ℕ → Message → Connection → ConnectionFlow → Flushed
handle_completed_work sequence response c f =
    flush_ready_responses c
      (record f { completed_responses = emplace sequence response f.completed_responses })
