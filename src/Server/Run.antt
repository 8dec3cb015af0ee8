-- ===== src/Server/Run.antt =====
-- `Run`, `Stop`, `HandleWorkerWakeup`, `HandleShutdownSignal` and `StoreCompletedWork` of
-- src/network/epoll_echo_server.cpp. The loops around system calls take fuel.
pub mod Upkeep
pub mod Threads
pub mod Keys
pub mod Close
use pulse_core.Base.{
  ℕ, zero, suc, Bool, true, false, List, [], ◌∷◌, ◌++◌, ◌==◌, if◌then◌else◌, length,
}
use pulse_core.Sockets.{eintr}
use pulse_core.Connection.{is_would_block}
use pulse_core.WorkerPool.{WorkResult}
use pulse_core.Server.{ConnectionFlow}
use pulse_core.Server.Kernel.{
  Kernel, ObjectRead, whole, partial, nothing, read_failed, Ready, Waited, ready, wait_failed,
}
use pulse_core.Server.Effects.{
  syscall, short_read, Action, pure, throw, run_out, gets, call, ◌>>=◌, ◌>>◌, modify,
}
use pulse_core.Server.Handlers.{
  Options, listener_key, worker_wakeup_key, shutdown_signal_key, remove_action,
}
use pulse_core.Server.Accept.{handle_listener_event}
use pulse_core.Server.Events.{handle_connection_event, deliver}

module _ {W : Type 0} (k : Kernel W) where
  -- The loops that read an eventfd or a signalfd until it is empty; `found` is done for each object.
  after_object : Action W (Unit {0}) → Action W (Unit {0}) → ObjectRead → Action W (Unit {0})
  after_object found again whole = found >> again
  after_object found again (read_failed eintr) = again
  after_object found again (read_failed e) = if is_would_block e then pure tt else throw (syscall e)
  after_object found again partial = throw short_read
  after_object found again nothing = pure tt

  drain_object : Action W (Unit {0}) → ℕ → ℕ → Action W (Unit {0})
  unfolding after_object
  drain_object found fd zero = run_out
  drain_object found fd (suc fuel) =
      call (k.read_object fd) >>= after_object found (drain_object found fd fuel)

  deliver_all : Options → ℕ → List WorkResult → Action W (Unit {0})
  deliver_all o fuel [] = pure tt
  deliver_all o fuel (r ∷ results) =
      deliver k o fuel r.connection_id r.sequence r.response >> deliver_all o fuel results

  unfoldable pub handle_worker_wakeup : Options → ℕ → Action W (Unit {0})
  unfolding drain_object deliver_all
  handle_worker_wakeup o fuel = do
    drain_object (pure tt) o.worker_wakeup fuel
    results ← gets (λ s. s.completed_work)
    modify (λ s. record s { completed_work = [] })
    deliver_all o fuel results

  unfoldable pub handle_shutdown_signal : Options → ℕ → Action W (Unit {0})
  unfolding drain_object
  handle_shutdown_signal o fuel =
      drain_object (modify (λ s. record s { stop_requested = true })) o.shutdown_signal fuel

  unfoldable pub dispatch : Options → ℕ → Ready → Action W (Unit {0})
  dispatch o fuel e =
      if e.key == listener_key
      then handle_listener_event k o fuel
      else if e.key == worker_wakeup_key
      then handle_worker_wakeup o fuel
      else if e.key == shutdown_signal_key
      then handle_shutdown_signal o fuel
      else handle_connection_event k o fuel e.key e

  -- The loop over the events, which ends when a stop is requested.
  next_event : Action W (Unit {0}) → Bool → Action W (Unit {0})
  next_event rest true = pure tt
  next_event rest false = rest

  dispatch_all : Options → ℕ → List Ready → Action W (Unit {0})
  unfolding next_event
  dispatch_all o fuel [] = pure tt
  dispatch_all o fuel (e ∷ events) =
      gets (λ s. s.stop_requested) >>= next_event (dispatch o fuel e >> dispatch_all o fuel events)

  after_wait : Options → ℕ → Waited → Action W (Unit {0})
  unfolding dispatch_all
  after_wait o fuel (ready events) = dispatch_all o fuel events
  after_wait o fuel (wait_failed eintr) = pure tt
  after_wait o fuel (wait_failed e) = throw (syscall e)

  -- A round of the loop of `Run`, once no stop was requested.
  unfoldable pub run_round : Options → ℕ → Action W (Unit {0})
  unfolding after_wait
  run_round o fuel = call k.wait >>= after_wait o fuel

  close_first : Action W (Unit {0}) → List (ℕ × ConnectionFlow) → Action W (Unit {0})
  close_first again [] = pure tt
  close_first again ((id, f) ∷ flows) = remove_action k id >> again

  close_loop : ℕ → Action W (Unit {0})
  unfolding close_first
  close_loop zero = run_out
  close_loop (suc fuel) = gets (λ s. s.reactor.flows) >>= close_first (close_loop fuel)

  -- Each round removes a flow, so one round more than there are flows is enough.
  unfoldable pub close_all_connections : Action W (Unit {0})
  unfolding close_loop
  close_all_connections = gets (λ s. suc (length s.reactor.flows)) >>= close_loop

  -- `Run` for a number of rounds; the answer says whether it has returned by then.
  go_on : Action W Bool → Action W (Unit {0}) → Bool → Action W Bool
  go_on again round true = close_all_connections >> pure true
  go_on again round false = round >> again

  unfoldable pub run : Options → ℕ → ℕ → Action W Bool
  unfolding go_on
  run o fuel zero = pure false
  run o fuel (suc rounds) =
      gets (λ s. s.stop_requested) >>= go_on (run o fuel rounds) (run_round o fuel)

  -- `NotifyWorkerWakeup`: every answer but an interruption ends it.
  after_notify : Action W (Unit {0}) → ObjectRead → Action W (Unit {0})
  after_notify again (read_failed eintr) = again
  after_notify again _ = pure tt

  notify_loop : ℕ → ℕ → Action W (Unit {0})
  unfolding after_notify
  notify_loop fd zero = run_out
  notify_loop fd (suc fuel) = call (k.write_object fd) >>= after_notify (notify_loop fd fuel)

  unfoldable pub notify_worker_wakeup : Options → ℕ → Action W (Unit {0})
  unfolding notify_loop
  notify_worker_wakeup o fuel = notify_loop o.worker_wakeup fuel

  unfoldable pub stop : Options → ℕ → Action W (Unit {0})
  stop o fuel = modify (λ s. record s { stop_requested = true }) >> notify_worker_wakeup o fuel

  unfoldable pub store_completed_work : Options → ℕ → WorkResult → Action W (Unit {0})
  store_completed_work o fuel r =
      modify (λ s. record s { completed_work = s.completed_work ++ (r ∷ []) })
      >> notify_worker_wakeup o fuel
