-- ===== src/Server/Effects.antt =====
-- Methods of the server of src/network/epoll_echo_server.cpp: they change its state and that of the
-- operating system, and may throw. What was changed before an exception stays changed.
use pulse_core.Base.{ℕ, Bool, List}
use pulse_core.Base.Maps.{assign}
use pulse_core.Sockets.{Errno}
use pulse_core.Connection.{Connection}
use pulse_core.Registry.{update_connection}
use pulse_core.WorkerPool.{WorkResult, WorkerPool}
use pulse_core.Server.{ConnectionFlow}
use pulse_core.Server.Removal.{Reactor}

-- The members of `EpollEchoServer` that change while it runs.
pub record State : Type 0 where
  pub reactor : Reactor
  pub pool : WorkerPool
  pub completed_work : List WorkResult
  pub stop_requested : Bool

-- The exceptions: a system call's error, and those that the source names.
pub data Fault : Type 0 where
  syscall : Errno → Fault
  invalid_fd id_space_exhausted duplicate_id not_found flow_exists short_read : Fault

-- `stuck` is no C++ outcome: the fuel ran out.
pub data Done (W A : Type 0) : Type 0 where
  ok : A → State → W → Done W A
  threw : Fault → State → W → Done W A
  stuck : Done W A

abbrev pub Action : Type 0 → Type 0 → Type 0
Action W A = State → W → Done W A

module _ {W A : Type 0} where
  abbrev pub pure : A → Action W A
  pure a s w = ok a s w

  abbrev pub throw : Fault → Action W A
  throw e s w = threw e s w

  abbrev pub run_out : Action W A
  run_out s w = stuck

  abbrev pub gets : (State → A) → Action W A
  gets f s w = ok (f s) s w

  -- A call of the operating system that does not throw.
  abbrev pub call : (W → A × W) → Action W A
  call f s w = let (a, w') = f w in ok a s w'

module _ {W A B : Type 0} where
  abbrev pub continue : Done W A → (A → Action W B) → Done W B
  continue (ok a s w) f = f a s w
  continue (threw e s w) f = threw e s w
  continue stuck f = stuck

  infixl 10 ◌>>=◌ ◌>>◌
  abbrev pub ◌>>=◌ : Action W A → (A → Action W B) → Action W B
  ◌>>=◌ m f s w = continue (m s w) f

  abbrev pub ◌>>◌ : Action W A → Action W B → Action W B
  m >> n = m >>= λ _. n

module _ {W : Type 0} where
  abbrev pub modify : (State → State) → Action W (Unit {0})
  modify f s w = ok tt (f s) w

  -- A write through the pointer to a registered connection, and through the iterator to its flow.
  unfoldable pub put_connection : ℕ → Connection → Action W (Unit {0})
  put_connection id c = modify (λ s. record s {
    reactor = record s.reactor { connections = update_connection s.reactor.connections id c };
  })

  unfoldable pub put_flow : ℕ → ConnectionFlow → Action W (Unit {0})
  put_flow id f =
      modify (λ s. record s { reactor = record s.reactor { flows = assign id f s.reactor.flows } })
