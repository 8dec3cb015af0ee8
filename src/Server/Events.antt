-- ===== src/Server/Events.antt =====
-- `HandleConnectionEvent` and `HandleCompletedWork` of src/network/epoll_echo_server.cpp. A read and a
-- write take fuel for the calls that are interrupted.
pub mod Upkeep
pub mod Handle
use pulse_core.Base.{ℕ, Bool, true, false, not, ◌&&◌, ◌||◌, Option, none, some, List}
use pulse_core.Base.Maps.{find}
use pulse_core.Codec.{Message}
use pulse_core.Connection.{
  Connection, Outcome, returned, ReadAvailableResult, ok as read_ok, would_block, peer_closed,
  protocol_error, WriteAvailableResult, WriteAvailableStatus, write_ok, write_would_block,
  write_peer_closed, read_available, write_available,
}
use pulse_core.Connection.Read.{messages}
use pulse_core.Registry.{find_connection}
use pulse_core.Server.{
  ConnectionFlow, Flushed, submit_work, should_close_after_flush, handle_completed_work,
}
use pulse_core.Server.Kernel.{Kernel, Ready}
use pulse_core.Server.Effects.{
  State, syscall, Done, stuck, Action, pure, throw, run_out, gets, ◌>>=◌, ◌>>◌, put_connection,
  put_flow,
}
use pulse_core.Server.Handlers.{Options, remove_action, update_action}

module _ {W : Type 0} (k : Kernel W) (o : Options) (fuel : ℕ) (id : ℕ) where
  -- What `ReadAvailable` and `WriteAvailable` leave in the connection, also where they throw.
  after_call : {A : Type 0} → State → Outcome W A → Done W (A × Connection)
  after_call s (returned a c w) = (put_connection id c >> pure (a, c)) s w
  after_call s (Outcome.threw e c w) = (put_connection id c >> throw (syscall e)) s w
  after_call s Outcome.stuck = stuck

  read_connection : Connection → Action W (ReadAvailableResult × Connection)
  unfolding after_call
  read_connection c s w =
      after_call s (read_available k.sockets fuel c o.max_read_bytes_per_event w)

  write_connection : Connection → Action W (WriteAvailableResult × Connection)
  unfolding after_call
  write_connection c s w =
      after_call s (write_available k.sockets fuel c o.max_write_bytes_per_event w)

  submit : List Message → ConnectionFlow → Action W (Bool × ConnectionFlow)
  submit requests f s w =
      let (done, pool, f') =
        submit_work o.max_in_flight_requests_per_connection id requests s.pool f in
      (put_flow id f' >> pure (done, f')) (record s { pool = pool }) w

  -- `should_remove`, and the flow, once the messages of a read have been submitted.
  mark_read : ReadAvailableResult → Bool × ConnectionFlow → Action W (Bool × ConnectionFlow)
  mark_read (protocol_error e ms) (done, f) = pure (true, f)
  mark_read (peer_closed ms) (done, f) = do
    put_flow id (record f { close_after_flush = true })
    pure (not done, record f { close_after_flush = true })
  mark_read (read_ok ms) (done, f) = pure (not done, f)
  mark_read would_block (done, f) = pure (not done, f)

  abbrev Turn : Type 0
  Turn = Bool × Connection × ConnectionFlow

  read_by : Ready → Connection → ConnectionFlow → Bool → Action W Turn
  unfolding read_connection submit mark_read
  read_by e c f false = pure (e.epollerr, c, f)
  read_by e c f true = do
    r ← read_connection c
    d ← submit (messages r.0) f
    x ← mark_read r.0 d
    pure (x.0, r.1, x.1)

  wants_read : Ready → ConnectionFlow → Bool
  wants_read e f =
      not e.epollerr && (e.epollin || e.epollrdhup || e.epollhup) && not f.close_after_flush

  lost_peer : WriteAvailableStatus → Bool
  lost_peer write_peer_closed = true
  lost_peer write_ok = false
  lost_peer write_would_block = false

  write_by : Turn → Bool → Action W Turn
  unfolding write_connection lost_peer
  write_by x false = pure x
  write_by (remove, c, f) true = do r ← write_connection c; pure (lost_peer r.0.status, r.1, f)

  settle_by : Connection → ConnectionFlow → Bool → Action W (Unit {0})
  settle_by c f true = remove_action k id
  settle_by c f false = update_action k id c f

  -- The end of the handlers: the connection is removed, or its interest is updated.
  pub settle : Turn → Action W (Unit {0})
  unfolding settle_by
  settle (true, c, f) = remove_action k id
  settle (false, c, f) = settle_by c f (should_close_after_flush c f)

  pub serve_flow : Ready → Connection → Option ConnectionFlow → Action W (Unit {0})
  unfolding read_by wants_read write_by settle
  serve_flow e c none = remove_action k id
  serve_flow e c (some f) = do
    x ← read_by e c f (wants_read e f)
    y ← write_by x (not x.0 && e.epollout)
    settle y

  serve_connection : Ready → Option Connection → Action W (Unit {0})
  unfolding serve_flow
  serve_connection e none = pure tt
  serve_connection e (some c) = gets (λ s. find id s.reactor.flows) >>= serve_flow e c

  unfoldable pub handle_connection_event : Ready → Action W (Unit {0})
  unfolding serve_connection
  handle_connection_event e =
      gets (λ s. find_connection s.reactor.connections id) >>= serve_connection e

  -- `FlushReadyResponses`, by what its loop returns; none is fuel that ran out.
  after_flush : Flushed → Action W (Unit {0})
  unfolding settle
  after_flush none = run_out
  after_flush (some (flushed, c, f)) = do
    put_connection id c
    put_flow id f
    settle (not flushed, c, f)

  deliver_flow : ℕ → Message → Connection → Option ConnectionFlow → Action W (Unit {0})
  unfolding after_flush
  deliver_flow sequence response c none = pure tt
  deliver_flow sequence response c (some f) =
      after_flush (handle_completed_work sequence response c f)

  deliver_connection : ℕ → Message → Option Connection → Action W (Unit {0})
  unfolding deliver_flow
  deliver_connection sequence response none = pure tt
  deliver_connection sequence response (some c) =
      gets (λ s. find id s.reactor.flows) >>= deliver_flow sequence response c

  unfoldable pub deliver : ℕ → Message → Action W (Unit {0})
  unfolding deliver_connection
  deliver sequence response =
      gets (λ s. find_connection s.reactor.connections id) >>= deliver_connection sequence response
