-- ===== src/UniqueFd.antt =====
-- src/common/unique_fd.cpp and include/pulsecore/common/unique_fd.hpp: handles that own descriptors. A
-- handle is a number, its `fd_` stands in a store, and `kInvalidFd` is none; `closed` logs the calls of
-- `close`, oldest first.
pub mod Ownership
mod Tests
use pulse_core.Base.{
  ℕ, Bool, true, false, Option, none, some, List, [], ◌∷◌, ◌++◌, ◌==◌, if◌then◌else◌,
}

pub record Handles : Type 0 where
  pub fd_of : ℕ → Option ℕ
  pub closed : List ℕ

-- A write to the `fd_` of a handle.
unfoldable pub put : Handles → ℕ → Option ℕ → Handles
put s i fd = record s { fd_of = λ k. if i == k then fd else s.fd_of k }

unfoldable pub get : Handles → ℕ → Option ℕ
get s i = s.fd_of i

valid : Option ℕ → Bool
valid none = false
valid (some fd) = true

unfoldable pub is_valid : Handles → ℕ → Bool
unfolding valid
is_valid s i = valid (s.fd_of i)

-- `fd_ == fd`.
unfoldable pub same_fd : Option ℕ → Option ℕ → Bool
same_fd none none = true
same_fd (some a) (some b) = a == b
same_fd _ _ = false

close_fd : Handles → Option ℕ → Handles
close_fd s none = s
close_fd s (some fd) = record s { closed = s.closed ++ (fd ∷ []) }

unfoldable pub reset : Handles → ℕ → Option ℕ → Handles
unfolding put close_fd
reset s i fd = if same_fd (s.fd_of i) fd then s else put (close_fd s (s.fd_of i)) i fd

-- `std::exchange(fd_, kInvalidFd)`.
unfoldable pub release : Handles → ℕ → Option ℕ × Handles
release s i = (s.fd_of i, put s i none)

-- The constructor of handle `i` from handle `j`.
unfoldable pub move_construct : Handles → ℕ → ℕ → Handles
move_construct s i j = put (release s j).1 i (release s j).0

unfoldable pub move_assign : Handles → ℕ → ℕ → Handles
move_assign s i j = if i == j then s else reset (release s j).1 i (release s j).0

unfoldable pub destroy : Handles → ℕ → Handles
destroy s i = reset s i none
