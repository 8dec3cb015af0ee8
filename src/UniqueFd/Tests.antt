-- ===== src/UniqueFd/Tests.antt =====
-- Concrete handles: the first two own descriptors.
use pulse_core.Base.{ℕ, ◌≢◌, Option, none, some, [], arith, ◌==◌, if◌then◌else◌}
use pulse_core.UniqueFd.{Handles, move_assign}
use pulse_core.UniqueFd.Ownership.{IsOwned, Moves, move_assign-Moves}

abbrev held : ℕ → Option ℕ
held k = if k == 0 then some 5 else if k == 1 then some 6 else none

abbrev two_owned : Handles
two_owned = record { fd_of = held; closed = [] }

two_owned-IsOwned : IsOwned two_owned
two_owned-IsOwned i j fd hi hj = ground arith

distinct : ◌≢◌ {A = ℕ} 0 1
distinct = omega arith

move_assign-Moves_example : Moves two_owned 0 1 (move_assign two_owned 0 1)
move_assign-Moves_example = move_assign-Moves two_owned 0 1 distinct two_owned-IsOwned
