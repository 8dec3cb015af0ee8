-- ===== src/Apps/Client.antt =====
-- `ParseArgs` and `BuildRequest` of src/apps/client/main.cpp.
pub mod Request
use pulse_core.Base.{
  ℕ, ◌-◌, Bool, true, false, not, ◌||◌, List, [], ◌∷◌, ◌++◌, length, ltb, ◌==◌, if◌then◌else◌,
}
use pulse_core.Codec.{Message, echo_request, work_request, max_payload_size}
use pulse_core.Handler.{max_work_iterations, encode_work_request_payload}
use pulse_core.Apps.{
  Text, text, same_text, Number, number, invalid_argument, out_of_range, stoul, Result, value,
  failed, refused, parse_port,
}
use pulse_core.Apps.EpollServer.{is_option}

pub data ClientMessageType : Type 0 where
  echo work : ClientMessageType

pub record ClientConfig : Type 0 where
  pub port : ℕ
  pub payload : Text
  pub message_type : ClientMessageType
  pub work_iterations : ℕ

iterations_of : Text → ℕ → Number → Result ℕ
iterations_of option size (number v parsed) =
    if not (parsed == size) || v == 0
    then failed (option ++ text " must be a positive integer")
    else if ltb max_work_iterations v
    then failed (option ++ text " exceeds maximum work iterations")
    else value v
iterations_of option size invalid_argument = failed (option ++ text " must be a positive integer")
iterations_of option size out_of_range = failed (option ++ text " exceeds maximum work iterations")

parse_work_iterations : Text → Text → Result ℕ
unfolding iterations_of
parse_work_iterations option t =
    if refused t
    then failed (option ++ text " must be a positive integer")
    else iterations_of option (length t) (stoul t)

parse_message_type : Text → Text → Result ClientMessageType
parse_message_type option t =
    if same_text t (text "echo")
    then value echo
    else if same_text t (text "work")
    then value work
    else failed (option ++ text " must be echo or work")

-- A round of the loop, by what the parsers return; `again` makes the next round.
after_type :
    (ClientConfig → Result ClientConfig)
    → ClientConfig
    → Result ClientMessageType
    → Result ClientConfig
after_type again c (value t) = again (record c { message_type = t })
after_type again c (failed message) = failed message

after_iterations :
    (ClientConfig → Result ClientConfig) → ClientConfig → Result ℕ → Result ClientConfig
after_iterations again c (value n) = again (record c { work_iterations = n })
after_iterations again c (failed message) = failed message

takes_value : Text → Bool
takes_value option =
    same_text option (text "--message-type") || same_text option (text "--work-iterations")

set_value : (ClientConfig → Result ClientConfig) → Text → Text → ClientConfig → Result ClientConfig
unfolding after_type after_iterations parse_message_type parse_work_iterations
set_value again option t c =
    if same_text option (text "--message-type")
    then after_type again c (parse_message_type option t)
    else after_iterations again c (parse_work_iterations option t)

set_payload :
    (ClientConfig → Result ClientConfig) → Text → ClientConfig → Bool → Result ClientConfig
set_payload again option c payload_set =
    if is_option option
    then failed (text "unknown option: " ++ option)
    else if payload_set
    then failed (text "payload specified more than once")
    else again (record c { payload = option })

-- The tests behind the loop.
check_size : ClientConfig → ClientMessageType → Result ClientConfig
check_size c echo =
    if ltb max_payload_size (length c.payload)
    then failed (text "payload exceeds protocol max payload size")
    else value c
check_size c work =
    if ltb (max_payload_size - 4) (length c.payload)
    then failed (text "payload leaves no room for work request metadata")
    else value c

client_loop : ClientConfig → Bool → List Text → Result ClientConfig
unfolding check_size set_value set_payload takes_value
client_loop c payload_set [] = check_size c c.message_type
client_loop c payload_set (option ∷ []) =
    if takes_value option
    then failed (option ++ text " requires a value")
    else set_payload (λ c. check_size c c.message_type) option c payload_set
client_loop c payload_set (option ∷ t ∷ args) =
    let with_value = set_value (λ c. client_loop c payload_set args) option t c in
    let alone = set_payload (λ c. client_loop c true (t ∷ args)) option c payload_set in
    if takes_value option then with_value else alone

start_loop : List Text → Result ℕ → Result ClientConfig
unfolding client_loop
start_loop args (failed message) = failed message
start_loop args (value p) =
    client_loop
      (record { port = p; payload = text "hello"; message_type = echo; work_iterations = 1000 })
      false args

-- `ParseArgs` on the arguments behind the program's name.
unfoldable pub parse_client_args : List Text → Result ClientConfig
unfolding start_loop
parse_client_args [] = failed (text "missing port")
parse_client_args (port ∷ args) = start_loop args (parse_port port)

request_by : ClientConfig → ClientMessageType → Message
request_by c echo = record { type = echo_request; request_id = 1; payload = c.payload }
request_by c work = record {
  type = work_request;
  request_id = 1;
  payload = encode_work_request_payload c.work_iterations c.payload;
}

unfoldable pub build_request : ClientConfig → Message
unfolding request_by
build_request c = request_by c c.message_type
