-- ===== src/Codec/Tests.antt =====
-- Concrete frames: the theorems on the codec at an echo request with two payload bytes.
use pulse_core.Base.{
  ◌+◌, sym, ◌∙◌, ◌<◌, ◌≡◌, ◌≢◌, ◌≤◌, refl, ℕ, some, List, [], ◌∷◌, ◌++◌, All, length, take, arith,
}
use pulse_core.Codec.{
  IsByte, Message, echo_request, need_more_data, decoded, header_size, max_payload_size, append_u16,
  append_u32, append_u64, encode_message, is_known_message_type, raw_type, try_decode_frame,
  read_u16, read_u32, read_u64, byte_at, cast_type, FrameDecoder, next, pending,
}
use pulse_core.Codec.Decode.{
  IsMessage, try_decode_frame-encode_message, encode_message-try_decode_frame,
  try_decode_frame-append, try_decode_frame_partial, need_more_data-lt,
}
use pulse_core.Codec.Stream.{IsDecoder, next_decoded}

abbrev pub ping : Message
ping = record { type = echo_request; request_id = 7; payload = 1 ∷ 2 ∷ [] }

abbrev pub ping_front : List ℕ
ping_front = 80 ∷ 85 ∷ 76 ∷ 83 ∷ 0 ∷ 1 ∷ 0 ∷ 1 ∷ 0 ∷ 0 ∷ 0 ∷ 2 ∷ []

abbrev pub ping_back : List ℕ
ping_back = 0 ∷ 0 ∷ 0 ∷ 0 ∷ 0 ∷ 0 ∷ 0 ∷ 7 ∷ 1 ∷ 2 ∷ []

abbrev pub ping_bytes : List ℕ
ping_bytes = ping_front ++ ping_back

pub ping-IsMessage : IsMessage ping
unfolding raw_type cast_type
ping-IsMessage = record {
  type_fits = (omega arith, refl);
  id_fits = omega arith;
  payload_fits = omega arith;
}

pub ping_encoded : encode_message ping ≡ some ping_bytes
unfolding encode_message append_u16 append_u32 append_u64 byte_at is_known_message_type raw_type
ping_encoded = refl

ping_decoded : try_decode_frame ping_bytes ≡ decoded ping 22
unfolding try_decode_frame read_u16 read_u32 read_u64 is_known_message_type
ping_decoded = refl

pub ping_bytes-IsByte : All IsByte ping_bytes
ping_bytes-IsByte = omega arith

ping_front-waits : try_decode_frame ping_front ≡ need_more_data
unfolding try_decode_frame
ping_front-waits = refl

decoded_not_waits : decoded ping 22 ≢ need_more_data
decoded_not_waits e = cc

ping_verdict : try_decode_frame ping_bytes ≢ need_more_data
ping_verdict e = decoded_not_waits (sym ping_decoded ∙ e)

try_decode_frame-encode_message_example :
    try_decode_frame (ping_bytes ++ (9 ∷ [])) ≡ decoded ping (length ping_bytes)
try_decode_frame-encode_message_example =
    try_decode_frame-encode_message ping ping_bytes (9 ∷ []) ping-IsMessage ping_encoded

encode_message-try_decode_frame_example :
    IsMessage ping
    × (header_size ≤ 22)
    × (22 ≤ length ping_bytes)
    × (encode_message ping ≡ some (take 22 ping_bytes))
encode_message-try_decode_frame_example =
    encode_message-try_decode_frame ping_bytes ping 22 ping_bytes-IsByte ping_decoded

try_decode_frame-append_example :
    try_decode_frame (ping_bytes ++ (9 ∷ [])) ≡ try_decode_frame ping_bytes
try_decode_frame-append_example =
    try_decode_frame-append ping_bytes (9 ∷ []) ping_bytes-IsByte ping_verdict

back_left : ping_back ≢ []
back_left e = cc

try_decode_frame_partial_example : try_decode_frame ping_front ≡ need_more_data
try_decode_frame_partial_example =
    try_decode_frame_partial ping ping_front ping_back ping-IsMessage (omega arith) ping_encoded
      back_left

need_more_data-lt_example : length ping_front < header_size + max_payload_size
need_more_data-lt_example = need_more_data-lt ping_front (omega arith) ping_front-waits

abbrev holding_ping : FrameDecoder
holding_ping = record { buffer = ping_bytes ++ (80 ∷ []); read_offset = 0 }

holding_ping-IsDecoder : IsDecoder holding_ping
holding_ping-IsDecoder = omega arith

holding_ping_decoded : try_decode_frame (pending holding_ping) ≡ decoded ping 22
unfolding try_decode_frame read_u16 read_u32 read_u64 is_known_message_type
holding_ping_decoded = refl

next_decoded_example :
    (d' : FrameDecoder) × (next holding_ping ≡ (decoded ping 22, d'))
    × IsDecoder d'
    × (pending holding_ping ≡ take 22 (pending holding_ping) ++ pending d')
next_decoded_example = next_decoded holding_ping ping 22 holding_ping-IsDecoder holding_ping_decoded

abbrev half_read : FrameDecoder
half_read = record { buffer = 1 ∷ 2 ∷ 3 ∷ []; read_offset = 2 }
