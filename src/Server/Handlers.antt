-- ===== src/Server/Handlers.antt =====
-- What the handlers of src/network/epoll_echo_server.cpp share: the options, the keys of the events, and
-- `RemoveConnection` and `UpdateInterest` as methods.
pub mod Upkeep
use pulse_core.Base.{ℕ, ◌-◌, ◌^◌}
use pulse_core.Connection.{Connection}
use pulse_core.Server.{ConnectionFlow}
use pulse_core.Server.Interest.{Updated, updated, update_interest}
use pulse_core.Server.Removal.{Removed, left, remove_connection}
use pulse_core.Server.Kernel.{Kernel}
use pulse_core.Server.Effects.{State, syscall, Done, ok, threw, Action, throw, ◌>>◌, put_flow}

-- The descriptors and options that stay as they are while the server runs. The two descriptors are
-- those of valid handles: the events of an invalid one are never added.
pub record Options : Type 0 where
  pub listener : ℕ
  pub worker_wakeup : ℕ
  pub shutdown_signal : ℕ
  pub max_read_bytes_per_event : ℕ
  pub max_write_bytes_per_event : ℕ
  pub max_connections : ℕ
  pub max_in_flight_requests_per_connection : ℕ

abbrev pub listener_key : ℕ
listener_key = 0

abbrev pub worker_wakeup_key : ℕ
worker_wakeup_key = 2 ^ 64 - 1

abbrev pub shutdown_signal_key : ℕ
shutdown_signal_key = 2 ^ 64 - 2

abbrev pub max_accepts_per_event : ℕ
max_accepts_per_event = 64

module _ {W : Type 0} (k : Kernel W) where
  -- The destructor of a `UniqueFd` that owns `fd`.
  abbrev pub close_fd : ℕ → Action W (Unit {0})
  close_fd fd s w = ok tt s (k.epoll.close fd w)

  after_remove : State → Removed W → Done W (Unit {0})
  after_remove s (left r w) = ok tt (record s { reactor = r }) w
  after_remove s (Removed.threw e r w) = threw (syscall e) (record s { reactor = r }) w

  unfoldable pub remove_action : ℕ → Action W (Unit {0})
  unfolding after_remove
  remove_action id s w = after_remove s (remove_connection k.epoll s.reactor id w)

  after_update : ℕ → State → Updated W → Done W (Unit {0})
  after_update id s (updated f w) = put_flow id f s w
  after_update id s (Updated.threw e f w) = (put_flow id f >> throw (syscall e)) s w

  unfoldable pub update_action : ℕ → Connection → ConnectionFlow → Action W (Unit {0})
  unfolding after_update
  update_action id c f s w = after_update id s (update_interest k.epoll c f w)
