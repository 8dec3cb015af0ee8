-- ===== src/Server/Consistent/Tests/History.antt =====
-- A concrete history: a new server waits, accepts a client, a worker thread looks for work, and `Stop`
-- is called.
use pulse_core.Base.{◌≡◌, refl, true, false, some, arith}
use pulse_core.Base.Maps.{find, contains, emplace}
use pulse_core.Connection.{default_limits, new_connection, is_would_block}
use pulse_core.Registry.{new_registry, find_connection, registry_size, add}
use pulse_core.WorkerPool.{WorkHandler}
use pulse_core.Handler.{handle_owned_request}
use pulse_core.Server.Kernel.{Ready, set_non_blocking}
use pulse_core.Server.Effects.{State, put_flow}
use pulse_core.Server.Handlers.Upkeep.{Faulty, Settled}
use pulse_core.Server.Consistent.Outcomes.{Meets}
use pulse_core.Server.Accept.{
  handle_listener_event, accept_non_blocking, register_client, add_connection,
}
use pulse_core.Server.Run.{dispatch, stop, notify_worker_wakeup}
use pulse_core.Server.Run.Threads.{
  new_state, Reach, here, next, waits as waits_step, reacts, takes, stops, Reach-Settled,
}
use pulse_core.Server.Consistent.Tests.{
  Machine, set_descriptor, accept_by, machine, machine-IsKernel, bounds, options, serving, started,
  enough,
}

abbrev handler : WorkHandler
handler m = some (handle_owned_request m)

abbrev new_server : State
new_server = new_state default_limits serving.pool

abbrev from_listener : Ready
from_listener = record {
  key = 0;
  epollerr = false;
  epollhup = false;
  epollin = true;
  epollrdhup = false;
  epollout = false;
}

history : (s : State) × (w : Machine) × Reach machine options 2000000 handler new_server started s w
unfolding new_state dispatch handle_listener_event accept_non_blocking register_client
    add_connection add put_flow find_connection contains accept_by set_descriptor registry_size
    new_registry set_non_blocking find emplace new_connection is_would_block stop
    notify_worker_wakeup
history = (
  _,
  _,
  next (next (next (next here waits_step) (reacts from_listener refl)) (takes (omega arith)))
      (stops refl),
)

one_client : registry_size history.0.reactor.connections ≡ 1
unfolding history registry_size add new_state new_registry set_non_blocking
one_client = refl

Reach-Settled_example :
    Settled machine machine-IsKernel bounds tt history.0 history.1
    × ((e : Ready)
        → Meets
            (Faulty machine machine-IsKernel bounds)
            (Settled machine machine-IsKernel bounds)
            (dispatch machine options 2000000 e history.0 history.1))
Reach-Settled_example =
    Reach-Settled machine options 2000000 handler machine-IsKernel bounds enough serving.pool
      started history.1 history.0 history.2
