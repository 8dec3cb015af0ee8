-- ===== src/Registry/Tests.antt =====
-- Concrete registries.
use pulse_core.Base.{◌≡◌, refl, none, some, List, [], ◌∷◌}
use pulse_core.Base.Maps.{find, contains, emplace}
use pulse_core.Connection.{Connection, default_limits, new_connection}
use pulse_core.Connection.Output.{new_connection-IsConnection}
use pulse_core.Registry.{Registry, new_registry, added, add, find_connection}
use pulse_core.Registry.Identity.{
  IsEntry, IsRegistry, IsAdded, new_registry-IsRegistry, add-IsRegistry, add-IsAdded,
}
use pulse_core.Registry.Issue.{Call, adds, removes, perform_all, Issues, identifiers_unique}

abbrev fresh_registry : Registry
fresh_registry = new_registry default_limits

abbrev with_one : Registry
with_one = (add fresh_registry (some 5) none).1

with_one-IsRegistry : IsRegistry with_one
with_one-IsRegistry =
    add-IsRegistry fresh_registry (some 5) none (new_registry-IsRegistry default_limits)

with_one_added : (add fresh_registry (some 5) none).0 ≡ added 1
unfolding add new_registry contains
with_one_added = refl

add-IsRegistry_example : IsRegistry (add with_one (some 6) none).1
add-IsRegistry_example = add-IsRegistry with_one (some 6) none with_one-IsRegistry

add-IsAdded_example : IsAdded fresh_registry 5 1 (add fresh_registry (some 5) none).1
add-IsAdded_example =
    add-IsAdded fresh_registry 5 1 none (new_registry-IsRegistry default_limits) with_one_added

abbrev fresh_connection : Connection
fresh_connection = new_connection 1 5 default_limits

with_one_found : find_connection with_one 1 ≡ some fresh_connection
unfolding find_connection add new_registry find contains emplace
with_one_found = refl

fresh_connection-IsEntry : IsEntry with_one.limits 1 fresh_connection
unfolding add new_registry new_connection contains
fresh_connection-IsEntry = record {
  labelled = refl;
  limited = refl;
  valid = new_connection-IsConnection 1 5 default_limits;
}

abbrev calls : List Call
calls = adds (some 5) none ∷ adds none none ∷ removes 1 ∷ adds (some 6) none ∷ []

identifiers_unique_example : Issues (perform_all (new_registry default_limits, []) calls)
identifiers_unique_example = identifiers_unique default_limits calls
