-- ===== src/Server/Tests.antt =====
-- Concrete flows: two requests, finished in the other order.
use pulse_core.Base.{refl, Option, none, true, ℕ, false, [], ◌∷◌, arith}
use pulse_core.Base.Maps.{find}
use pulse_core.Codec.{Message, echo_response, new_decoder, buffered_size}
use pulse_core.Codec.Tests.{ping}
use pulse_core.Connection.{Connection, default_limits}
use pulse_core.Connection.Output.{IsConnection}
use pulse_core.WorkerPool.{WorkerPool}
use pulse_core.Server.{ConnectionFlow, new_flow, in_flight, submit_work, flush_ready_responses}
use pulse_core.Sockets.{Errno}
use pulse_core.Server.Interest.{
  Event, Operation, ctl_add, ctl_mod, ctl_del, Epoll, IsEpoll, Sets, awaits_write, Tracks,
  update_interest, update_interest-Tracks,
}
use pulse_core.Server.Removal.{Reactor}
use pulse_core.Server.Order.{Flushes, flush_ready_responses-Flushes}
use pulse_core.Server.Replies.{Answers, Serves, complete_all, complete_all-Serves}
use pulse_core.Server.Submit.{IsFlow, Submits, submit_work-Submits}

abbrev idle_pool : WorkerPool
idle_pool = record {
  worker_count = 1;
  queue = record { capacity = 2; items = []; closed = false };
  busy = [];
  completed = [];
}

abbrev opened : Connection
opened = record {
  id = 1;
  fd = 3;
  limits = default_limits;
  decoder = new_decoder;
  output_buffer = [];
  output_offset = 0;
}

opened-IsConnection : IsConnection opened
unfolding buffered_size
opened-IsConnection = omega arith

abbrev pong : ℕ → Message
pong k = record { type = echo_response; request_id = k; payload = 1 ∷ [] }

new_flow-IsFlow : IsFlow 2 new_flow
unfolding in_flight
new_flow-IsFlow = omega arith

submit_work-Submits_example :
    Submits 2 1
      (ping ∷ ping ∷ ping ∷ [])
      idle_pool
      new_flow
      (submit_work 2 1 (ping ∷ ping ∷ ping ∷ []) idle_pool new_flow)
submit_work-Submits_example =
    submit_work-Submits 2 1 (ping ∷ ping ∷ ping ∷ []) idle_pool new_flow (omega arith)
      new_flow-IsFlow

abbrev two_ready : ConnectionFlow
two_ready = record new_flow {
  next_request_sequence = 3;
  completed_responses = (1, pong 1) ∷ (0, pong 0) ∷ [];
}

flush_ready_responses-Flushes_example :
    Flushes opened two_ready (flush_ready_responses opened two_ready)
flush_ready_responses-Flushes_example =
    flush_ready_responses-Flushes opened two_ready opened-IsConnection

none_waits : Answers pong new_flow.completed_responses
unfolding find
none_waits k m e = cc

complete_all-Serves_example :
    Serves pong opened new_flow (complete_all pong (1 ∷ 0 ∷ []) opened new_flow)
complete_all-Serves_example =
    complete_all-Serves pong (1 ∷ 0 ∷ []) opened new_flow opened-IsConnection none_waits

-- The state of `epoll_ctl` is the interest itself.
set_interest : Operation → ℕ → Option Event → Option Event → Option Errno × Option Event
set_interest ctl_del fd event w = (none, none)
set_interest ctl_add fd event w = (none, event)
set_interest ctl_mod fd event w = (none, event)

abbrev simple_epoll : Epoll (Option Event)
simple_epoll = record { ctl = set_interest; close = λ fd w. none }

set_interest-Sets :
    (op : Operation) (event w : Option Event)
    → Sets op event w (set_interest op 3 event w).0 (set_interest op 3 event w).1
unfolding set_interest
set_interest-Sets ctl_del event w = refl
set_interest-Sets ctl_add event w = refl
set_interest-Sets ctl_mod event w = refl

abbrev simple-IsEpoll : IsEpoll simple_epoll 3
simple-IsEpoll = record { interest = λ w. w; sets = set_interest-Sets }

update_interest-Tracks_example :
    Tracks simple_epoll opened simple-IsEpoll new_flow none true
      (awaits_write opened)
      (update_interest simple_epoll opened new_flow none)
update_interest-Tracks_example =
    update_interest-Tracks simple_epoll opened simple-IsEpoll new_flow none refl

abbrev one_connection : Reactor
one_connection = record {
  connections = record { limits = default_limits; next_id = 2; connections = (1, opened) ∷ [] };
  flows = (1, new_flow) ∷ [];
}
