-- ===== src/Apps/Client/Request.antt =====
-- The requests that the command line of src/apps/client/main.cpp leads to.
use pulse_core.Base.{
  ℕ, ◌-◌, ◌^◌, ◌<◌, ◌≤◌, ◌≡◌, ◌≢◌, refl, sym, subst, Bool, true, false, not, ◌||◌, Bool-cases, inl,
  inr, some, List, [], ◌∷◌, arith, length, ltb, ltb→le, le→ltb, ◌==◌, if◌then◌else◌,
}
use pulse_core.Codec.{
  Message, encode_message, max_payload_size, append_u32, frame_bytes, raw_type,
  is_known_message_type,
}
use pulse_core.Handler.{max_work_iterations, encode_work_request_payload}
use pulse_core.Apps.{
  Text, text, same_text, Number, number, invalid_argument, out_of_range, stoul, Result, value,
  failed, refused, parse_port,
}
use pulse_core.Apps.EpollServer.{is_option}
use pulse_core.Apps.Numbers.{Gives, parse_port-Gives}
use pulse_core.Apps.Client.{
  ClientMessageType, echo, work, ClientConfig, iterations_of, parse_work_iterations,
  parse_message_type, after_type, after_iterations, takes_value, set_value, set_payload, check_size,
  client_loop, start_loop, parse_client_args, request_by, build_request,
}

-- The number of iterations is one that the handler takes.
abbrev IsWork : ℕ → Type 0
IsWork n = (1 ≤ n) × (n ≤ max_work_iterations)

-- The request has a frame, and a work request a number of iterations that the handler takes.
pub record IsReady (c : ClientConfig) : Type 0 where
  pub port : c.port < 2 ^ 16
  pub some_work : 1 ≤ c.work_iterations
  pub most_work : c.work_iterations ≤ max_work_iterations
  pub frame : (bytes : List ℕ) × (encode_message (build_request c) ≡ some bytes)

record IsDraft (c : ClientConfig) : Type 0 where
  port : c.port < 2 ^ 16
  some_work : 1 ≤ c.work_iterations
  most_work : c.work_iterations ≤ max_work_iterations

iterations_by-IsWork :
    (m m' : Text) (v : ℕ) (t : Bool)
    → (t ≡ false → v ≢ 0)
    → Gives IsWork
        (if t then failed m else if ltb max_work_iterations v then failed m' else value v)
iterations_by-IsWork m m' v true h = tt
iterations_by-IsWork m m' v false h = elim (Bool-cases (ltb max_work_iterations v)) [
  | inl large ↦ rw large tt
  | inr small ↦
      rw small
        (let nonzero = h refl in (omega (arith, nonzero), ltb→le max_work_iterations v small))
]

iterations_of-IsWork :
    (option : Text) (size : ℕ) (n : Number) → Gives IsWork (iterations_of option size n)
unfolding iterations_of
iterations_of-IsWork option size (number v parsed) =
    iterations_by-IsWork _ _ v (not (parsed == size) || v == 0) (λ e z. ground (arith, e, z))
iterations_of-IsWork option size invalid_argument = tt
iterations_of-IsWork option size out_of_range = tt

parse_work_iterations-IsWork : (option t : Text) → Gives IsWork (parse_work_iterations option t)
unfolding parse_work_iterations
parse_work_iterations-IsWork option t = elim (Bool-cases (refused t)) [
  | inl bad ↦ rw bad tt
  | inr good ↦ rw good (iterations_of-IsWork option (length t) (stoul t))
]

-- A known type and a payload within the limit.
encodes :
    (m : Message)
    → is_known_message_type (raw_type m.type) ≡ true
    → length m.payload ≤ max_payload_size
    → (bytes : List ℕ) × (encode_message m ≡ some bytes)
unfolding encode_message
encodes m known short =
    (frame_bytes m, rw (le→ltb max_payload_size (length m.payload) short) (rw known refl))

check_size-IsReady :
    (c : ClientConfig) (t : ClientMessageType)
    → c.message_type ≡ t
    → IsDraft c
    → Gives IsReady (check_size c t)
unfolding check_size build_request request_by raw_type is_known_message_type
    encode_work_request_payload append_u32
check_size-IsReady c echo e d = elim (Bool-cases (ltb max_payload_size (length c.payload))) [
  | inl long ↦ rw long tt
  | inr short ↦ rw short (record {
    port = d.port;
    some_work = d.some_work;
    most_work = d.most_work;
    frame =
        subst (λ t. (bytes : List ℕ) × (encode_message (request_by c t) ≡ some bytes)) (sym e)
          (encodes (request_by c echo) refl (ltb→le max_payload_size (length c.payload) short));
  })
]
check_size-IsReady c work e d = elim (Bool-cases (ltb (max_payload_size - 4) (length c.payload))) [
  | inl long ↦ rw long tt
  | inr short ↦ rw short (record {
    port = d.port;
    some_work = d.some_work;
    most_work = d.most_work;
    frame =
        subst (λ t. (bytes : List ℕ) × (encode_message (request_by c t) ≡ some bytes)) (sym e)
          (encodes (request_by c work) refl
            (omega (arith, ltb→le (max_payload_size - 4) (length c.payload) short)));
  })
]

abbrev Later : (ClientConfig → Result ClientConfig) → Type 0
Later again = (c : ClientConfig) → IsDraft c → Gives IsReady (again c)

after_type-IsReady :
    (again : ClientConfig → Result ClientConfig) (c : ClientConfig) (r : Result ClientMessageType)
    → Later again
    → IsDraft c
    → Gives IsReady (after_type again c r)
unfolding after_type
after_type-IsReady again c (value t) ih d =
    ih _ (record { port = d.port; some_work = d.some_work; most_work = d.most_work })
after_type-IsReady again c (failed message) ih d = tt

after_iterations-IsReady :
    (again : ClientConfig → Result ClientConfig) (c : ClientConfig) (r : Result ℕ)
    → Later again
    → IsDraft c
    → Gives IsWork r
    → Gives IsReady (after_iterations again c r)
unfolding after_iterations
after_iterations-IsReady again c (value n) ih d (some_work, most_work) =
    ih _ (record { port = d.port; some_work = some_work; most_work = most_work })
after_iterations-IsReady again c (failed message) ih d fits = tt

set_value-IsReady :
    (again : ClientConfig → Result ClientConfig) (option t : Text) (c : ClientConfig)
    → Later again
    → IsDraft c
    → Gives IsReady (set_value again option t c)
unfolding set_value
set_value-IsReady again option t c ih d =
    elim (Bool-cases (same_text option (text "--message-type"))) [
      | inl kind ↦ rw kind (after_type-IsReady again c (parse_message_type option t) ih d)
      | inr other ↦ rw other (
          after_iterations-IsReady again c (parse_work_iterations option t) ih d
            (parse_work_iterations-IsWork option t))
    ]

set_payload-IsReady :
    (again : ClientConfig → Result ClientConfig) (option : Text) (c : ClientConfig) (b : Bool)
    → Later again
    → IsDraft c
    → Gives IsReady (set_payload again option c b)
unfolding set_payload
set_payload-IsReady again option c b ih d = elim (Bool-cases (is_option option)) [
  | inl unknown ↦ rw unknown tt
  | inr known ↦ rw known (elim (Bool-cases b) [
    | inl twice ↦ rw twice tt
    | inr once ↦
        rw once (ih _ (record { port = d.port; some_work = d.some_work; most_work = d.most_work }))
  ])
]

client_loop-IsReady :
    (c : ClientConfig) (payload_set : Bool) (args : List Text)
    → IsDraft c
    → Gives IsReady (client_loop c payload_set args)
unfolding client_loop
client_loop-IsReady c payload_set [] d = check_size-IsReady c c.message_type refl d
client_loop-IsReady c payload_set (option ∷ []) d = elim (Bool-cases (takes_value option)) [
  | inl valued ↦ rw valued tt
  | inr other ↦ rw other (
      set_payload-IsReady (λ c. check_size c c.message_type) option c payload_set
        (λ c d. check_size-IsReady c c.message_type refl d) d)
]
client_loop-IsReady c payload_set (option ∷ t ∷ args) d =
    let with_value =
      set_value-IsReady (λ c. client_loop c payload_set args) option t c
        (λ c d. client_loop-IsReady c payload_set args d) d in
    let alone =
      set_payload-IsReady (λ c. client_loop c true (t ∷ args)) option c payload_set
        (λ c d. client_loop-IsReady c true (t ∷ args) d) d in
    elim (Bool-cases (takes_value option)) [
      | inl valued ↦ rw valued with_value
      | inr other ↦ rw other alone
    ]

start_loop-IsReady :
    (args : List Text) (r : Result ℕ)
    → Gives (λ p. p < 2 ^ 16) r
    → Gives IsReady (start_loop args r)
unfolding start_loop
start_loop-IsReady args (failed message) fits = tt
start_loop-IsReady args (value p) fits =
    client_loop-IsReady _ false args
      (record { port = fits; some_work = omega arith; most_work = omega arith })

-- `ParseArgs` of the client returns only configurations whose request `EncodeMessage` can encode, whose
-- port has 16 bits and whose number of iterations is between one and what the handler takes, whatever
-- the arguments.
pub parse_client_args-IsReady : (args : List Text) → Gives IsReady (parse_client_args args)
unfolding parse_client_args
parse_client_args-IsReady [] = tt
parse_client_args-IsReady (port ∷ args) =
    start_loop-IsReady args (parse_port port) (parse_port-Gives port)
