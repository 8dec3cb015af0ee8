-- ===== src/Apps/EpollServer.antt =====
-- `ParsePositiveSize` and `ParseArgs` of src/apps/epoll_server/main.cpp.
pub mod Config
use pulse_core.Base.{
  ℕ, ◌*◌, ◌-◌, ◌^◌, Bool, true, false, not, ◌&&◌, ◌||◌, List, [], ◌∷◌, ◌++◌, length, ltb, ◌==◌,
  if◌then◌else◌,
}
use pulse_core.Connection.{ConnectionLimits, default_limits}
use pulse_core.Apps.{
  Text, text, same_text, Number, number, invalid_argument, out_of_range, stoul, Result, value,
  failed, refused, parse_port,
}

-- The port, and the options that the command line sets.
pub record ServerConfig : Type 0 where
  pub port : ℕ
  pub worker_count : ℕ
  pub work_queue_capacity : ℕ
  pub max_connections : ℕ
  pub max_in_flight_requests_per_connection : ℕ
  pub max_read_bytes_per_event : ℕ
  pub max_write_bytes_per_event : ℕ
  pub connection_limits : ConnectionLimits

abbrev pub default_config : ServerConfig
default_config = record {
  port = 9000;
  worker_count = 2;
  work_queue_capacity = 1024;
  max_connections = 1024;
  max_in_flight_requests_per_connection = 1024;
  max_read_bytes_per_event = 64 * 1024;
  max_write_bytes_per_event = 64 * 1024;
  connection_limits = default_limits;
}

size_of : Text → ℕ → Number → Result ℕ
size_of option size (number v parsed) =
    if not (parsed == size) || v == 0 || ltb (2 ^ 64 - 1) v
    then failed (option ++ text " must be a positive integer")
    else value v
size_of option size invalid_argument = failed (option ++ text " must be a positive integer")
size_of option size out_of_range = failed (option ++ text " is out of range")

unfoldable pub parse_positive_size : Text → Text → Result ℕ
unfolding size_of
parse_positive_size option t =
    if refused t
    then failed (option ++ text " must be a positive integer")
    else size_of option (length t) (stoul t)

takes_size : Text → Bool
takes_size option =
    same_text option (text "--workers")
    || same_text option (text "--queue-capacity")
    || same_text option (text "--max-connections")
    || same_text option (text "--max-in-flight")
    || same_text option (text "--max-read-bytes")
    || same_text option (text "--max-write-bytes")
    || same_text option (text "--max-input-buffer")
    || same_text option (text "--max-output-buffer")

set_option : Text → ℕ → ServerConfig → ServerConfig
set_option option v c =
    if same_text option (text "--workers")
    then record c { worker_count = v }
    else if same_text option (text "--queue-capacity")
    then record c { work_queue_capacity = v }
    else if same_text option (text "--max-connections")
    then record c { max_connections = v }
    else if same_text option (text "--max-in-flight")
    then record c { max_in_flight_requests_per_connection = v }
    else if same_text option (text "--max-read-bytes")
    then record c { max_read_bytes_per_event = v }
    else if same_text option (text "--max-write-bytes")
    then record c { max_write_bytes_per_event = v }
    else if same_text option (text "--max-input-buffer")
    then record c { connection_limits = record c.connection_limits { max_input_buffer = v } }
    else if same_text option (text "--max-output-buffer")
    then record c { connection_limits = record c.connection_limits { max_output_buffer = v } }
    else c

unfoldable pub is_option : Text → Bool
is_option [] = false
is_option (c ∷ t) = c == 45

-- A round of the loop, by what the parsers return; `again` makes the next round.
after_size :
    (ServerConfig → Result ServerConfig) → Text → ServerConfig → Result ℕ → Result ServerConfig
unfolding set_option
after_size again option c (value v) = again (set_option option v c)
after_size again option c (failed message) = failed message

after_port : (ServerConfig → Result ServerConfig) → ServerConfig → Result ℕ → Result ServerConfig
after_port again c (value p) = again (record c { port = p })
after_port again c (failed message) = failed message

parse_other :
    (ServerConfig → Result ServerConfig) → Text → ServerConfig → Bool → Result ServerConfig
unfolding after_port
parse_other again option c port_set =
    if is_option option
    then failed (text "unknown option: " ++ option)
    else if port_set
    then failed (text "port specified more than once")
    else after_port again c (parse_port option)

parse_loop : ServerConfig → Bool → List Text → Result ServerConfig
unfolding takes_size after_size parse_other
parse_loop c port_set [] = value c
parse_loop c port_set (option ∷ []) =
    if takes_size option
    then failed (option ++ text " requires a value")
    else parse_other value option c port_set
parse_loop c port_set (option ∷ t ∷ args) =
    let sized =
      after_size (λ c. parse_loop c port_set args) option c (parse_positive_size option t) in
    let other = parse_other (λ c. parse_loop c true (t ∷ args)) option c port_set in
    if takes_size option then sized else other

-- `ParseArgs` on the arguments behind the program's name.
unfoldable pub parse_args : List Text → Result ServerConfig
unfolding parse_loop
parse_args args = parse_loop default_config false args
