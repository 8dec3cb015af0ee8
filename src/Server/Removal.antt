-- ===== src/Server/Removal.antt =====
-- `RemoveConnection` of src/network/epoll_echo_server.cpp, on the registry and the flows.
pub mod Cases
use pulse_core.Base.{ℕ, ◌≡◌, refl, Bool, true, false, Option, none, some, List, ◌==◌, if◌then◌else◌}
use pulse_core.Base.Maps.{find, erase, find-erase}
use pulse_core.Sockets.{Errno, eintr, eagain, ewouldblock, econnreset, epipe, enoent, other_error}
use pulse_core.Connection.{Connection}
use pulse_core.Registry.{Registry, find_connection, remove}
use pulse_core.Registry.Identity.{find_connection-remove}
use pulse_core.Server.{ConnectionFlow}
use pulse_core.Server.Interest.{Epoll, ctl_del}

-- The server's `connections_` and `connection_flows_`.
pub record Reactor : Type 0 where
  pub connections : Registry
  pub flows : List (ℕ × ConnectionFlow)

pub data Removed (W : Type 0) : Type 0 where
  left : Reactor → W → Removed W
  threw : Errno → Reactor → W → Removed W

-- A connection without a flow counts as registered.
registered : Option ConnectionFlow → Bool
registered none = true
registered (some f) = f.registered_with_epoll

unfoldable pub forget : Reactor → ℕ → Reactor
forget r id = record { connections = (remove r.connections id).1; flows = erase id r.flows }

module _ {W : Type 0} where
  -- The connection's `UniqueFd` closes its descriptor.
  dropped : Epoll W → Reactor → ℕ → Connection → W → Removed W
  dropped e r id c w = left (forget r id) (e.close c.fd w)

  after_ctl : Epoll W → Reactor → ℕ → Connection → Option Errno × W → Removed W
  after_ctl e r id c (none, w) = dropped e r id c w
  after_ctl e r id c (some enoent, w) = dropped e r id c w
  after_ctl e r id c (some x, w) = threw x r w

  remove_found : Epoll W → Reactor → ℕ → W → Option Connection → Removed W
  remove_found e r id w none = left r w
  remove_found e r id w (some c) =
      if registered (find id r.flows)
      then after_ctl e r id c (e.ctl ctl_del c.fd none w)
      else dropped e r id c w

  unfoldable pub remove_connection : Epoll W → Reactor → ℕ → W → Removed W
  unfolding remove_found after_ctl dropped forget registered
  remove_connection e r id w = remove_found e r id w (find_connection r.connections id)

-- What is left of a connection: nothing under its identifier, and all else as it was.
pub record Forgets (r : Reactor) (id : ℕ) (r' : Reactor) : Type 0 where
  pub connection :
      (j : ℕ)
      → find_connection r'.connections j
        ≡ (if id == j then none else find_connection r.connections j)
  pub flow : (j : ℕ) → find j r'.flows ≡ (if id == j then none else find j r.flows)

pub forget-Forgets : (r : Reactor) (id : ℕ) → Forgets r id (forget r id)
unfolding forget
forget-Forgets r id = record {
  connection = λ j. find_connection-remove r.connections id j;
  flow = λ j. find-erase id j r.flows;
}

module _ {W : Type 0} (e : Epoll W) (r : Reactor) (id : ℕ) where
  -- An exception, or an unknown identifier, leaves all as it was.
  abbrev pub Removes : Option Connection → Removed W → Type 0
  Removes none (left r' w') = r' ≡ r
  Removes none (threw x r' w') = ⊥
  Removes (some c) (left r' w') = Forgets r id r'
  Removes (some c) (threw x r' w') = r' ≡ r

  after_ctl-Removes :
      (c : Connection) (x : Option Errno × W) → Removes (some c) (after_ctl e r id c x)
  unfolding after_ctl dropped
  after_ctl-Removes c (none, w) = forget-Forgets r id
  after_ctl-Removes c (some enoent, w) = forget-Forgets r id
  after_ctl-Removes c (some eintr, w) = refl
  after_ctl-Removes c (some eagain, w) = refl
  after_ctl-Removes c (some ewouldblock, w) = refl
  after_ctl-Removes c (some econnreset, w) = refl
  after_ctl-Removes c (some epipe, w) = refl
  after_ctl-Removes c (some (other_error n), w) = refl

  by_mark :
      (c : Connection) (w : W) (b : Bool)
      → Removes
          (some c)
          (if b then after_ctl e r id c (e.ctl ctl_del c.fd none w) else dropped e r id c w)
  unfolding dropped
  by_mark c w true = after_ctl-Removes c (e.ctl ctl_del c.fd none w)
  by_mark c w false = forget-Forgets r id

  found-Removes : (w : W) (o : Option Connection) → Removes o (remove_found e r id w o)
  unfolding remove_found
  found-Removes w none = refl
  found-Removes w (some c) = by_mark c w (registered (find id r.flows))

-- `RemoveConnection` on an unknown identifier changes nothing. On a known one it returns with neither a
-- connection nor a flow under the identifier and every other where it was, or it throws and changes
-- nothing in the server.
pub remove_connection-Removes :
    {W : Type 0} (e : Epoll W) (r : Reactor) (id : ℕ) (w : W)
    → Removes e r id (find_connection r.connections id) (remove_connection e r id w)
unfolding remove_connection
remove_connection-Removes e r id w = found-Removes e r id w (find_connection r.connections id)
