-- ===== src/Handler.antt =====
-- src/core/handler.cpp and include/pulsecore/core/handler.hpp: the request handler that the blocking
-- server and the worker pool share.
pub mod Work
pub mod Responses
mod Tests
use pulse_core.Base.{
  ℕ, zero, suc, ◌+◌, ◌*◌, ◌/◌, ◌%◌, ◌^◌, bit_xor, Bool, Option, none, some, List, [], ◌∷◌, ◌++◌,
  ◌&&◌, ltb, if◌then◌else◌, length, take, drop,
}
use pulse_core.Codec.{
  Message, echo_request, echo_response, work_request, work_response, error_response, other,
  append_u32, append_u64, read_u32,
}
use Prim.Native.Char.{code}
use Prim.Native.String
use Prim.Native.String.{String}

abbrev pub max_work_iterations : ℕ
max_work_iterations = 1_000_000

abbrev pub max_work_units : ℕ
max_work_units = 64 * 1024 * 1024

abbrev iteration_bytes : ℕ
iteration_bytes = 4

abbrev fnv_offset : ℕ
fnv_offset = 1469598103934665603

abbrev fnv_prime : ℕ
fnv_prime = 1099511628211

-- The characters of an ASCII literal.
error_payload : String → List ℕ
error_payload String.[] = []
error_payload (String.◌∷◌ c s) = code c ∷ error_payload s

unfoldable pub respond_error : ℕ → String → Message
unfolding error_payload
respond_error request_id message = record {
  type = error_response;
  request_id = request_id;
  payload = error_payload message;
}

-- `hash ^= value; hash *= kFnvPrime;` on a 64-bit word.
unfoldable pub fnv_mix : ℕ → ℕ → ℕ
fnv_mix hash value = bit_xor hash value * fnv_prime % 2 ^ 64

mix_seed : ℕ → List ℕ → ℕ
unfolding fnv_mix
mix_seed hash [] = hash
mix_seed hash (byte ∷ seed) = mix_seed (fnv_mix hash byte) seed

-- One pass of the loop's body, `hash ^= hash >> 32` last.
unfoldable pub work_round : List ℕ → ℕ → ℕ → ℕ
unfolding mix_seed fnv_mix
work_round seed round hash =
    let mixed = mix_seed (fnv_mix hash round) seed in bit_xor mixed (mixed / 2 ^ 32)

-- `for (round = 0; round < iterations; ++round)`, by the rounds that are left.
unfoldable pub work_loop : ℕ → ℕ → List ℕ → ℕ → ℕ
work_loop zero round seed hash = hash
work_loop (suc left) round seed hash = work_loop left (round + 1) seed (work_round seed round hash)

abbrev pub seed_work_units : List ℕ → ℕ
seed_work_units [] = 1
seed_work_units (b ∷ seed) = length (b ∷ seed)

unfoldable pub compute_work_response_payload : List ℕ → Option (List ℕ)
compute_work_response_payload payload =
    if ltb (length payload) iteration_bytes
    then none
    else (let iterations = read_u32 (take iteration_bytes payload) 0 in
        let seed = drop iteration_bytes payload in
        if ltb max_work_iterations iterations
        then none
        else if ltb 0 iterations && ltb (max_work_units / iterations) (seed_work_units seed)
        then none
        else some (append_u64 [] (work_loop iterations 0 seed fnv_offset)))

unfoldable pub encode_work_request_payload : ℕ → List ℕ → List ℕ
encode_work_request_payload iterations seed = append_u32 [] iterations ++ seed

work_answer : Message → Option (List ℕ) → Message
work_answer request (some payload) = record {
  type = work_response;
  request_id = request.request_id;
  payload = payload;
}
work_answer request none = respond_error request.request_id "invalid work request payload"

abbrev unexpected : Message → Message
unexpected request = respond_error request.request_id "unexpected response message from client"

unfoldable pub handle_owned_request : Message → Message
unfolding work_answer
handle_owned_request request = elim request.type [
  | echo_request ↦ record {
    type = echo_response;
    request_id = request.request_id;
    payload = request.payload;
  }
  | work_request ↦ work_answer request (compute_work_response_payload request.payload)
  | echo_response ↦ unexpected request
  | work_response ↦ unexpected request
  | error_response ↦ unexpected request
  | other raw ↦ respond_error request.request_id "unknown request message"
]

-- `HandleRequest` copies the request.
unfoldable pub handle_request : Message → Message
handle_request request =
    handle_owned_request
      (record { type = request.type; request_id = request.request_id; payload = request.payload })
