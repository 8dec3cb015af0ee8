-- ===== src/Server/Setup.antt =====
-- The tests of the options in the constructor of src/network/epoll_echo_server.cpp, in the order of the
-- members; none is an exception.
use pulse_core.Base.{ℕ, ◌≤◌, ◌≡◌, refl, arith, false, Option, none, some, ◌==◌, if◌then◌else◌}
use pulse_core.BoundedQueue.{new_queue}
use pulse_core.Connection.{ConnectionLimits}
use pulse_core.WorkerPool.{WorkerPool, new_pool}

unfoldable pub require_positive_budget : ℕ → Option ℕ
require_positive_budget v = if v == 0 then none else some v

module _ {A B : Type 0} where
  infixl 10 ◌>>=◌
  abbrev ◌>>=◌ : Option A → (A → Option B) → Option B
  none >>= f = none
  some a >>= f = f a

unfoldable pub require_connection_limits : ConnectionLimits → Option ConnectionLimits
require_connection_limits limits = do
  input ← require_positive_budget limits.max_input_buffer
  output ← require_positive_budget limits.max_output_buffer
  some (record { max_input_buffer = input; max_output_buffer = output })

-- The connection limits, the budgets of a read and of a write, the bounds on connections and on the
-- requests in flight, and the pool's configuration.
unfoldable pub check_options : ConnectionLimits → ℕ → ℕ → ℕ → ℕ → ℕ → ℕ → Option WorkerPool
check_options limits reads writes connections in_flight workers capacity = do
  l ← require_connection_limits limits
  r ← require_positive_budget reads
  w ← require_positive_budget writes
  c ← require_positive_budget connections
  i ← require_positive_budget in_flight
  new_pool workers capacity

require_positive_budget_accepts : (v : ℕ) → 1 ≤ v → require_positive_budget v ≡ some v
unfolding require_positive_budget
require_positive_budget_accepts v h = ground arith

new_pool_accepts :
    (workers capacity : ℕ)
    → 1 ≤ workers
    → 1 ≤ capacity
    → (pool : WorkerPool) × (new_pool workers capacity ≡ some pool)
unfolding new_pool new_queue
new_pool_accepts workers capacity h h' =
    let c : capacity == 0 ≡ false = ground arith in
    let w : workers == 0 ≡ false = ground arith in rw (c, new_pool, w) (_, refl)

-- Options above zero pass.
pub check_options_accepts :
    (limits : ConnectionLimits) (reads writes connections in_flight workers capacity : ℕ)
    → 1 ≤ limits.max_input_buffer
    → 1 ≤ limits.max_output_buffer
    → 1 ≤ reads
    → 1 ≤ writes
    → 1 ≤ connections
    → 1 ≤ in_flight
    → 1 ≤ workers
    → 1 ≤ capacity
    → (pool : WorkerPool) × (check_options limits reads writes connections in_flight workers
          capacity
        ≡ some pool)
unfolding check_options require_connection_limits
check_options_accepts limits reads writes connections in_flight workers capacity a b c d e f g h =
    rw
      (
        require_positive_budget_accepts limits.max_input_buffer a,
        require_positive_budget_accepts limits.max_output_buffer b,
        require_positive_budget_accepts reads c,
        require_positive_budget_accepts writes d,
        require_positive_budget_accepts connections e,
        require_positive_budget_accepts in_flight f,
      )
      (new_pool_accepts workers capacity g h)
