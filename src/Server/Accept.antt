-- ===== src/Server/Accept.antt =====
-- `HandleListenerEvent` of src/network/epoll_echo_server.cpp, with `AcceptNonBlocking` and
-- `ConnectionRegistry::Add` of a client. Fuel is for the calls that are interrupted.
pub mod Register
pub mod Admit
use pulse_core.Base.{ℕ, zero, suc, Bool, true, false, Option, none, some, ◌==◌, leb, if◌then◌else◌}
use pulse_core.Base.Maps.{contains, emplace}
use pulse_core.Sockets.{Errno, eintr}
use pulse_core.Connection.{Connection, is_would_block, has_pending_output}
use pulse_core.Registry.{
  id_max, Added, added, invalid_fd, id_space_exhausted, duplicate_id, not_non_blocking, add,
  find_connection, registry_size,
}
use pulse_core.Server.{new_flow}
use pulse_core.Server.Interest.{ctl_add, connection_event}
use pulse_core.Server.Removal.{forget}
use pulse_core.Server.Kernel.{Kernel, Accepted, accepted, accept_failed, set_non_blocking}
use pulse_core.Server.Effects.{
  State, Fault, syscall, not_found, flow_exists, short_read, Done, ok, threw, stuck, Action, pure,
  throw, run_out, gets, call, continue, ◌>>=◌, ◌>>◌, modify, put_connection, put_flow,
}
use pulse_core.Server.Effects
use pulse_core.Server.Handlers.{Options, max_accepts_per_event, close_fd}

module _ {W : Type 0} (k : Kernel W) where
  -- `AcceptNonBlocking`; none is an invalid `UniqueFd`.
  after_accept : Action W (Option ℕ) → Accepted → Action W (Option ℕ)
  after_accept again (accepted fd) = pure (some fd)
  after_accept again (accept_failed eintr) = again
  after_accept again (accept_failed e) = if is_would_block e then pure none else throw (syscall e)

  unfoldable pub accept_non_blocking : ℕ → ℕ → Action W (Option ℕ)
  unfolding after_accept
  accept_non_blocking listener zero = run_out
  accept_non_blocking listener (suc fuel) =
      call (k.accept listener) >>= after_accept (accept_non_blocking listener fuel)

  -- What `ConnectionRegistry::Add` has answered; where it throws, its argument closes the descriptor.
  after_add : ℕ → Added → Action W ℕ
  after_add fd (added id) = pure id
  after_add fd (not_non_blocking e) = close_fd k fd >> throw (syscall e)
  after_add fd invalid_fd = close_fd k fd >> throw Effects.invalid_fd
  after_add fd id_space_exhausted = close_fd k fd >> throw Effects.id_space_exhausted
  after_add fd duplicate_id = close_fd k fd >> throw Effects.duplicate_id

  add_to_registry : ℕ → Option Errno → Action W ℕ
  unfolding after_add
  add_to_registry fd non_blocking s w =
      let (a, r) = add s.reactor.connections (some fd) non_blocking in
      after_add fd a (record s { reactor = record s.reactor { connections = r } }) w

  -- `SetNonBlocking` is called behind the test for the last identifier only.
  add_by : ℕ → Bool → Action W ℕ
  unfolding add_to_registry
  add_by fd true = add_to_registry fd none
  add_by fd false = call (set_non_blocking k fd) >>= add_to_registry fd

  unfoldable pub add_connection : ℕ → Action W ℕ
  unfolding add_by
  add_connection fd = gets (λ s. s.reactor.connections.next_id == id_max) >>= add_by fd

  pub after_client_ctl : ℕ → Connection → Option Errno → Action W (Unit {0})
  after_client_ctl id c none = put_flow id (record new_flow { registered_with_epoll = true })
  after_client_ctl id c (some e) =
      modify (λ s. record s { reactor = forget s.reactor id })
      >> close_fd k c.fd
      >> throw (syscall e)

  start_flow : ℕ → Connection → Bool → Action W (Unit {0})
  unfolding after_client_ctl
  start_flow id c true = throw flow_exists
  start_flow id c false = do
    modify (λ s. record s {
      reactor = record s.reactor { flows = emplace id new_flow s.reactor.flows };
    })
    x ← call (k.epoll.ctl ctl_add c.fd (some (connection_event id true (has_pending_output c))))
    after_client_ctl id c x

  register_flow : ℕ → Option Connection → Action W (Unit {0})
  unfolding start_flow
  register_flow id none = throw not_found
  register_flow id (some c) = gets (λ s. contains id s.reactor.flows) >>= start_flow id c

  unfoldable pub register_client : ℕ → Action W (Unit {0})
  unfolding register_flow
  register_client fd = do
    id ← add_connection fd
    found ← gets (λ s. find_connection s.reactor.connections id)
    register_flow id found

  admit_by : Action W (Unit {0}) → ℕ → Bool → Action W (Unit {0})
  admit_by again fd true = close_fd k fd >> again
  admit_by again fd false = register_client fd >> again

  -- `HandleListenerEvent`, by the accepts that are left of this event.
  admit_client : Options → Action W (Unit {0}) → Option ℕ → Action W (Unit {0})
  unfolding admit_by
  admit_client o again none = pure tt
  admit_client o again (some fd) =
      gets (λ s. leb o.max_connections (registry_size s.reactor.connections)) >>= admit_by again fd

  accept_clients : Options → ℕ → ℕ → Action W (Unit {0})
  unfolding admit_client
  accept_clients o fuel zero = pure tt
  accept_clients o fuel (suc left_over) =
      accept_non_blocking o.listener fuel >>= admit_client o (accept_clients o fuel left_over)

  unfoldable pub handle_listener_event : Options → ℕ → Action W (Unit {0})
  unfolding accept_clients
  handle_listener_event o fuel = accept_clients o fuel max_accepts_per_event
