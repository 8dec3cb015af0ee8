-- ===== src/Registry.antt =====
-- src/network/connection_registry.cpp and include/pulsecore/network/connection_registry.hpp: the
-- connections of a server under their identifiers.
pub mod Identity
pub mod Issue
mod Tests
use pulse_core.Base.{
  ℕ, suc, ◌+◌, ◌-◌, ◌^◌, Bool, Option, none, some, List, [], ◌==◌, if◌then◌else◌, length,
}
use pulse_core.Base.Maps.{find, contains, emplace, erase, assign}
use pulse_core.Sockets.{Errno}
use pulse_core.Connection.{Connection, ConnectionLimits, new_connection}

abbrev pub id_max : ℕ
id_max = 2 ^ 64 - 1

pub record Registry : Type 0 where
  pub limits : ConnectionLimits
  pub next_id : ℕ
  pub connections : List (ℕ × Connection)

unfoldable pub new_registry : ConnectionLimits → Registry
new_registry limits = record { limits = limits; next_id = 1; connections = [] }

-- `Add` returns the identifier or throws. The descriptor of a failed call is closed by its `UniqueFd`.
pub data Added : Type 0 where
  added : ℕ → Added
  invalid_fd id_space_exhausted duplicate_id : Added
  not_non_blocking : Errno → Added

-- `try_emplace` and what `Add` makes of its answer; the identifier is used up either way.
insert_connection : Registry → ℕ → Added × Registry
insert_connection r fd =
    let id = r.next_id in
    let advanced = record r { next_id = id + 1 } in
    if contains id r.connections then (duplicate_id, advanced) else (
      added id,
      record advanced { connections = emplace id (new_connection id fd r.limits) r.connections },
    )

register : Registry → ℕ → Option Errno → Added × Registry
unfolding insert_connection
register r fd (some e) = (not_non_blocking e, r)
register r fd none = insert_connection r fd

-- `fd` is none for an invalid `UniqueFd`; `non_blocking` is the error of `SetNonBlocking`, if it threw.
unfoldable pub add : Registry → Option ℕ → Option Errno → Added × Registry
unfolding register
add r none non_blocking = (invalid_fd, r)
add r (some fd) non_blocking =
    if r.next_id == id_max then (id_space_exhausted, r) else register r fd non_blocking

unfoldable pub find_connection : Registry → ℕ → Option Connection
find_connection r id = find id r.connections

-- A change of a connection through the pointer that `Find` returned.
unfoldable pub update_connection : Registry → ℕ → Connection → Registry
update_connection r id c = record r { connections = assign id c r.connections }

unfoldable pub remove : Registry → ℕ → Bool × Registry
remove r id = (contains id r.connections, record r { connections = erase id r.connections })

unfoldable pub registry_size : Registry → ℕ
registry_size r = length r.connections
