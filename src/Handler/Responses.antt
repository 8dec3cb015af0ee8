-- ===== src/Handler/Responses.antt =====
-- `HandleOwnedRequest` of src/core/handler.cpp: what its responses look like.
use Prim.Native.String.{String}
use pulse_core.Base.{
  ℕ, ◌≤◌, ◌<◌, ◌≡◌, ◌≢◌, ◌⊎◌, inl, inr, refl, subst, take, drop, ◌^◌, true, Option, none, some,
  List, [], length, All, arith,
}
use pulse_core.Codec.{
  IsByte, Message, MessageType, echo_request, echo_response, work_request, work_response,
  error_response, other, max_payload_size, raw_type, cast_type, is_known_message_type, append_u64,
  read_u32, encode_message,
}
use pulse_core.Codec.Words.{byte_at-IsByte}
use pulse_core.Codec.Decode.{IsMessage, IsMessageType}
use pulse_core.Handler.{
  fnv_offset, work_loop, iteration_bytes, error_payload, respond_error,
  compute_work_response_payload, work_answer, unexpected, handle_owned_request,
}

-- The types that a server sends.
abbrev pub IsResponseType : MessageType → Type 0
IsResponseType t = (t ≡ echo_response) ⊎ (t ≡ work_response) ⊎ (t ≡ error_response)

-- A response to `r`: its identifier, the type of a response, and a payload that fits a frame.
pub record IsResponse (r a : Message) : Type 0 where
  pub same_id : a.request_id ≡ r.request_id
  pub type_known : IsResponseType a.type
  pub short : length a.payload ≤ max_payload_size
  pub bytes : All IsByte a.payload

word_shape : (h : ℕ) → (length (append_u64 [] h) ≤ 8) × All IsByte (append_u64 [] h)
unfolding append_u64
word_shape h = (
  omega arith,
  (
    byte_at-IsByte h _,
    (
      byte_at-IsByte h _,
      (
        byte_at-IsByte h _,
        (
          byte_at-IsByte h _,
          (
            byte_at-IsByte h _,
            (byte_at-IsByte h _, (byte_at-IsByte h _, (byte_at-IsByte h _, tt))),
          ),
        ),
      ),
    ),
  ),
)

-- The digest that an accepted payload is answered with.
abbrev digest : List ℕ → ℕ
digest payload =
    work_loop (read_u32 (take iteration_bytes payload) 0) 0 (drop iteration_bytes payload)
      fnv_offset

answered :
    (payload out : List ℕ)
    → compute_work_response_payload payload ≡ some out
    → append_u64 [] (digest payload) ≡ out
unfolding compute_work_response_payload
answered payload out e = ground arith

respond_error-IsResponse :
    (r : Message) (text : String)
    → length (error_payload text) ≤ max_payload_size
    → All IsByte (error_payload text)
    → IsResponse r (respond_error r.request_id text)
unfolding respond_error
respond_error-IsResponse r text short bs = record {
  same_id = refl;
  type_known = inr (inr refl);
  short = short;
  bytes = bs;
}

work_answer-IsResponse :
    (r : Message) (o : Option (List ℕ))
    → compute_work_response_payload r.payload ≡ o
    → IsResponse r (work_answer r o)
unfolding work_answer error_payload
work_answer-IsResponse r none e =
    respond_error-IsResponse r "invalid work request payload" (omega arith) (omega arith)
work_answer-IsResponse r (some out) e =
    let (small, bs) =
      subst (λ t. (length t ≤ 8) × All IsByte t) (answered r.payload out e)
        (word_shape (digest r.payload)) in
    record { same_id = refl; type_known = inr (inl refl); short = omega arith; bytes = bs }

unexpected-IsResponse : (r : Message) → IsResponse r (unexpected r)
unfolding error_payload
unexpected-IsResponse r =
    respond_error-IsResponse r "unexpected response message from client" (omega arith) (omega arith)

handle_typed :
    (t : MessageType) (id : ℕ) (payload : List ℕ)
    → length payload ≤ max_payload_size
    → All IsByte payload
    → IsResponse
        (record { type = t; request_id = id; payload = payload })
        (handle_owned_request (record { type = t; request_id = id; payload = payload }))
unfolding handle_owned_request error_payload
handle_typed echo_request id payload short bs = record {
  same_id = refl;
  type_known = inl refl;
  short = short;
  bytes = bs;
}
handle_typed work_request id payload short bs = work_answer-IsResponse _ _ refl
handle_typed echo_response id payload short bs = unexpected-IsResponse _
handle_typed work_response id payload short bs = unexpected-IsResponse _
handle_typed error_response id payload short bs = unexpected-IsResponse _
handle_typed (other raw) id payload short bs =
    respond_error-IsResponse (record { type = other raw; request_id = id; payload = payload })
      "unknown request message" (omega arith) (omega arith)

-- Every request whose payload is bytes that fit a frame is answered by a response to it: with its
-- identifier, of a type that servers send, and with a payload of bytes that fits a frame.
pub handle_owned_request-IsResponse :
    (r : Message)
    → length r.payload ≤ max_payload_size
    → All IsByte r.payload
    → IsResponse r (handle_owned_request r)
handle_owned_request-IsResponse r short bs = handle_typed r.type r.request_id r.payload short bs

response_known :
    (t : MessageType)
    → IsResponseType t
    → (is_known_message_type (raw_type t) ≡ true) × IsMessageType t
unfolding is_known_message_type raw_type cast_type
response_known t (inl e) = rw e (refl, (omega arith, refl))
response_known t (inr (inl e)) = rw e (refl, (omega arith, refl))
response_known t (inr (inr e)) = rw e (refl, (omega arith, refl))

-- A response to a request with a 64-bit identifier is a message of the protocol, and it can always be
-- encoded.
pub IsResponse-encode_message :
    (r a : Message)
    → r.request_id < 2 ^ 64
    → IsResponse r a
    → IsMessage a × (encode_message a ≢ none)
unfolding encode_message
IsResponse-encode_message r a h x =
    let (known, fits) = response_known a.type x.type_known in
    (
      record { type_fits = fits; id_fits = omega (arith, x.same_id); payload_fits = x.bytes },
      ground (arith, known, x.short),
    )
