-- ===== src/Handler/Tests.antt =====
-- Concrete requests.
use pulse_core.Base.{◌≡◌, ◌≢◌, ◌*◌, ◌&&◌, none, some, [], ◌∷◌, leb, if◌then◌else◌, arith}
use pulse_core.Codec.{Message, work_request, append_u64, encode_message}
use pulse_core.Codec.Decode.{IsMessage}
use pulse_core.Handler.{
  max_work_iterations, max_work_units, fnv_offset, work_loop, seed_work_units,
  compute_work_response_payload, encode_work_request_payload, handle_owned_request,
}
use pulse_core.Handler.Work.{compute_work_response_payload_lem}
use pulse_core.Handler.Responses.{
  IsResponse, handle_owned_request-IsResponse, IsResponse-encode_message,
}

compute_work_response_payload_example :
    compute_work_response_payload (encode_work_request_payload 3 (1 ∷ 2 ∷ [])) ≡ (
      if leb 3 max_work_iterations && leb (3 * seed_work_units (1 ∷ 2 ∷ [])) max_work_units
      then some (append_u64 [] (work_loop 3 0 (1 ∷ 2 ∷ []) fnv_offset))
      else none)
compute_work_response_payload_example =
    compute_work_response_payload_lem 3 (1 ∷ 2 ∷ []) (omega arith)

abbrev short_work : Message
short_work = record { type = work_request; request_id = 5; payload = 0 ∷ 1 ∷ [] }

handle_owned_request-IsResponse_example : IsResponse short_work (handle_owned_request short_work)
handle_owned_request-IsResponse_example =
    handle_owned_request-IsResponse short_work (omega arith) (omega arith)

short_work_answered : IsResponse short_work (handle_owned_request short_work)
short_work_answered = handle_owned_request-IsResponse short_work (omega arith) (omega arith)

IsResponse-encode_message_example :
    IsMessage (handle_owned_request short_work)
    × (encode_message (handle_owned_request short_work) ≢ none)
IsResponse-encode_message_example =
    IsResponse-encode_message short_work (handle_owned_request short_work) (omega arith)
      short_work_answered
