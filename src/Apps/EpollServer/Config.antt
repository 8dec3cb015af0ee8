-- ===== src/Apps/EpollServer/Config.antt =====
-- The configurations that `ParseArgs` of src/apps/epoll_server/main.cpp returns.
use pulse_core.Base.{
  some, ℕ, ◌-◌, ◌^◌, ◌<◌, ◌≤◌, ◌≡◌, ◌≢◌, refl, Bool, true, false, not, ◌||◌, Bool-cases, inl, inr,
  List, [], ◌∷◌, ◌++◌, arith, length, ltb, ◌==◌, if◌then◌else◌,
}
use pulse_core.WorkerPool.{WorkerPool}
use pulse_core.Server.Setup.{check_options, check_options_accepts}
use pulse_core.Apps.{
  Text, text, Number, number, invalid_argument, out_of_range, stoul, Result, value, failed, refused,
  parse_port,
}
use pulse_core.Apps.Numbers.{Fits, stoul-Fits, Gives, parse_port-Gives}
use pulse_core.Apps.EpollServer.{
  ServerConfig, default_config, size_of, parse_positive_size, takes_size, set_option, is_option,
  after_size, after_port, parse_other, parse_loop, parse_args,
}

-- A size that the server's constructor takes.
abbrev pub IsSize : ℕ → Type 0
IsSize n = (1 ≤ n) × (n < 2 ^ 64)

pub record IsConfig (c : ServerConfig) : Type 0 where
  pub port : c.port < 2 ^ 16
  pub workers : IsSize c.worker_count
  pub queue : IsSize c.work_queue_capacity
  pub connections : IsSize c.max_connections
  pub in_flight : IsSize c.max_in_flight_requests_per_connection
  pub reads : IsSize c.max_read_bytes_per_event
  pub writes : IsSize c.max_write_bytes_per_event
  pub input : IsSize c.connection_limits.max_input_buffer
  pub output : IsSize c.connection_limits.max_output_buffer

size_by-IsSize :
    (message : Text) (v parsed size : ℕ) (b : Bool)
    → v < 2 ^ 64
    → (not (parsed == size) || v == 0 || ltb (2 ^ 64 - 1) v) ≡ b
    → Gives IsSize (if b then failed message else value v)
size_by-IsSize message v parsed size true h e = tt
size_by-IsSize message v parsed size false h e =
    let nonzero : v ≢ 0 = λ z. ground (arith, e, z) in (omega (arith, nonzero), h)

size_of-IsSize :
    (option : Text) (size : ℕ) (n : Number) → Fits n → Gives IsSize (size_of option size n)
unfolding size_of
size_of-IsSize option size (number v parsed) h =
    size_by-IsSize (option ++ text " must be a positive integer") v parsed size _ h refl
size_of-IsSize option size invalid_argument h = tt
size_of-IsSize option size out_of_range h = tt

parse_positive_size-IsSize : (option t : Text) → Gives IsSize (parse_positive_size option t)
unfolding parse_positive_size
parse_positive_size-IsSize option t = elim (Bool-cases (refused t)) [
  | inl bad ↦ rw bad tt
  | inr good ↦ rw good (size_of-IsSize option (length t) (stoul t) (stoul-Fits t))
]

either-IsConfig :
    (b : Bool) (x y : ServerConfig) → IsConfig x → IsConfig y → IsConfig (if b then x else y)
either-IsConfig true x y p q = p
either-IsConfig false x y p q = q

set_option-IsConfig :
    (option : Text) (v : ℕ) (c : ServerConfig)
    → IsSize v
    → IsConfig c
    → IsConfig (set_option option v c)
unfolding set_option
set_option-IsConfig option v c s h =
    either-IsConfig _ _ _
      (record {
        port = h.port;
        workers = s;
        queue = h.queue;
        connections = h.connections;
        in_flight = h.in_flight;
        reads = h.reads;
        writes = h.writes;
        input = h.input;
        output = h.output;
      })
      (either-IsConfig _ _ _
        (record {
          port = h.port;
          workers = h.workers;
          queue = s;
          connections = h.connections;
          in_flight = h.in_flight;
          reads = h.reads;
          writes = h.writes;
          input = h.input;
          output = h.output;
        })
        (either-IsConfig _ _ _
          (record {
            port = h.port;
            workers = h.workers;
            queue = h.queue;
            connections = s;
            in_flight = h.in_flight;
            reads = h.reads;
            writes = h.writes;
            input = h.input;
            output = h.output;
          })
          (either-IsConfig _ _ _
            (record {
              port = h.port;
              workers = h.workers;
              queue = h.queue;
              connections = h.connections;
              in_flight = s;
              reads = h.reads;
              writes = h.writes;
              input = h.input;
              output = h.output;
            })
            (either-IsConfig _ _ _
              (record {
                port = h.port;
                workers = h.workers;
                queue = h.queue;
                connections = h.connections;
                in_flight = h.in_flight;
                reads = s;
                writes = h.writes;
                input = h.input;
                output = h.output;
              })
              (either-IsConfig _ _ _
                (record {
                  port = h.port;
                  workers = h.workers;
                  queue = h.queue;
                  connections = h.connections;
                  in_flight = h.in_flight;
                  reads = h.reads;
                  writes = s;
                  input = h.input;
                  output = h.output;
                })
                (either-IsConfig _ _ _
                  (record {
                    port = h.port;
                    workers = h.workers;
                    queue = h.queue;
                    connections = h.connections;
                    in_flight = h.in_flight;
                    reads = h.reads;
                    writes = h.writes;
                    input = s;
                    output = h.output;
                  })
                  (either-IsConfig _ _ _
                    (record {
                      port = h.port;
                      workers = h.workers;
                      queue = h.queue;
                      connections = h.connections;
                      in_flight = h.in_flight;
                      reads = h.reads;
                      writes = h.writes;
                      input = h.input;
                      output = s;
                    })
                    h)))))))

abbrev Again : (ServerConfig → Result ServerConfig) → Type 0
Again again = (c : ServerConfig) → IsConfig c → Gives IsConfig (again c)

after_size-IsConfig :
    (again : ServerConfig → Result ServerConfig) (option : Text) (c : ServerConfig) (r : Result ℕ)
    → Again again
    → IsConfig c
    → Gives IsSize r
    → Gives IsConfig (after_size again option c r)
unfolding after_size
after_size-IsConfig again option c (value v) ih h s = ih _ (set_option-IsConfig option v c s h)
after_size-IsConfig again option c (failed message) ih h s = tt

after_port-IsConfig :
    (again : ServerConfig → Result ServerConfig) (c : ServerConfig) (r : Result ℕ)
    → Again again
    → IsConfig c
    → Gives (λ p. p < 2 ^ 16) r
    → Gives IsConfig (after_port again c r)
unfolding after_port
after_port-IsConfig again c (value p) ih h fits = ih _ (record {
  port = fits;
  workers = h.workers;
  queue = h.queue;
  connections = h.connections;
  in_flight = h.in_flight;
  reads = h.reads;
  writes = h.writes;
  input = h.input;
  output = h.output;
})
after_port-IsConfig again c (failed message) ih h fits = tt

parse_other-IsConfig :
    (again : ServerConfig → Result ServerConfig) (option : Text) (c : ServerConfig) (b : Bool)
    → Again again
    → IsConfig c
    → Gives IsConfig (parse_other again option c b)
unfolding parse_other
parse_other-IsConfig again option c b ih h = elim (Bool-cases (is_option option)) [
  | inl unknown ↦ rw unknown tt
  | inr known ↦ rw known (elim (Bool-cases b) [
    | inl twice ↦ rw twice tt
    | inr once ↦
        rw once (after_port-IsConfig again c (parse_port option) ih h (parse_port-Gives option))
  ])
]

parse_loop-IsConfig :
    (c : ServerConfig) (port_set : Bool) (args : List Text)
    → IsConfig c
    → Gives IsConfig (parse_loop c port_set args)
unfolding parse_loop
parse_loop-IsConfig c port_set [] h = h
parse_loop-IsConfig c port_set (option ∷ []) h = elim (Bool-cases (takes_size option)) [
  | inl sized ↦ rw sized tt
  | inr other ↦ rw other (parse_other-IsConfig value option c port_set (λ c h. h) h)
]
parse_loop-IsConfig c port_set (option ∷ t ∷ args) h =
    let with_value =
      after_size-IsConfig (λ c. parse_loop c port_set args) option c (parse_positive_size option t)
        (λ c h. parse_loop-IsConfig c port_set args h) h (parse_positive_size-IsSize option t) in
    let alone =
      parse_other-IsConfig (λ c. parse_loop c true (t ∷ args)) option c port_set
        (λ c h. parse_loop-IsConfig c true (t ∷ args) h) h in
    elim (Bool-cases (takes_size option)) [
      | inl sized ↦ rw sized with_value
      | inr other ↦ rw other alone
    ]

-- What the server's constructor tests.
abbrev pub IsAccepted : ServerConfig → Type 0
IsAccepted c =
    IsConfig c
    × ((pool : WorkerPool) × (check_options c.connection_limits c.max_read_bytes_per_event
            c.max_write_bytes_per_event c.max_connections c.max_in_flight_requests_per_connection
            c.worker_count c.work_queue_capacity
          ≡ some pool))

IsConfig-IsAccepted : (r : Result ServerConfig) → Gives IsConfig r → Gives IsAccepted r
IsConfig-IsAccepted (failed message) h = tt
IsConfig-IsAccepted (value c) h = (
  h,
  check_options_accepts c.connection_limits c.max_read_bytes_per_event c.max_write_bytes_per_event
      c.max_connections c.max_in_flight_requests_per_connection c.worker_count c.work_queue_capacity
      h.input.0 h.output.0 h.reads.0 h.writes.0 h.connections.0 h.in_flight.0 h.workers.0 h.queue.0,
)

-- `ParseArgs` of the epoll server returns only configurations whose port has 16 bits, whose sizes are
-- all 64-bit numbers above zero, and whose options pass the tests of the server's constructor, whatever
-- the arguments.
pub parse_args-IsAccepted : (args : List Text) → Gives IsAccepted (parse_args args)
unfolding parse_args
parse_args-IsAccepted args =
    IsConfig-IsAccepted _ (parse_loop-IsConfig default_config false args (omega arith))
