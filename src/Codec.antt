-- ===== src/Codec.antt =====
-- src/protocol/codec.cpp and include/pulsecore/protocol/codec.hpp: the frame format, `EncodeMessage`,
-- `TryDecodeFrame` and the `FrameDecoder`. A byte vector or span is a list of numbers below 256; the
-- width of each word is written out. `size_t` has 64 bits.
pub mod Words
pub mod Format
pub mod Decode
pub mod Stream
pub mod Tests
use pulse_core.Base.{
  ℕ, ◌+◌, ◌-◌, ◌*◌, ◌/◌, ◌%◌, ◌^◌, ◌<◌, bit_and, bit_or, Bool, true, false, not, Option, none, some,
  List, [], ◌∷◌, ◌++◌, ltb, leb, ◌==◌, if◌then◌else◌, length, get_or, take, drop, All,
}

abbrev pub magic : ℕ
magic = 0x50554C53

abbrev pub version : ℕ
version = 1

abbrev pub header_size : ℕ
header_size = 20

abbrev pub max_payload_size : ℕ
max_payload_size = 65536

abbrev pub size_max : ℕ
size_max = 2 ^ 64 - 1

abbrev pub IsByte : ℕ → Type 0
IsByte b = b < 256

-- An enumeration over `uint16_t` holds any 16-bit value; `other` stands for those that no enumerator
-- names.
pub data MessageType : Type 0 where
  echo_request echo_response work_request work_response error_response : MessageType
  other : ℕ → MessageType

pub record Message : Type 0 where
  pub type : MessageType
  pub request_id : ℕ
  pub payload : List ℕ

pub data ProtocolError : Type 0 where
  invalid_magic unsupported_version unknown_message_type : ProtocolError
  payload_too_large frame_size_overflow : ProtocolError

-- The struct is built by its three factory functions only: each is a constructor.
pub data DecodeResult : Type 0 where
  need_more_data : DecodeResult
  decoded : Message → ℕ → DecodeResult
  error : ProtocolError → DecodeResult

-- `static_cast<Byte>((value >> shift) & 0xFFU)`, the shift as a power of two.
unfoldable pub byte_at : ℕ → ℕ → ℕ
byte_at value scale = bit_and (value / scale) 0xFF % 256

pub append_u16 : List ℕ → ℕ → List ℕ
append_u16 out value = out ++ (byte_at value (2 ^ 8) ∷ byte_at value 1 ∷ [])

unfoldable pub append_u32 : List ℕ → ℕ → List ℕ
append_u32 out value =
    out
    ++ (byte_at value (2 ^ 24)
        ∷ byte_at value (2 ^ 16)
        ∷ byte_at value (2 ^ 8)
        ∷ byte_at value 1
        ∷ [])

unfoldable pub append_u64 : List ℕ → ℕ → List ℕ
append_u64 out value =
    out
    ++ (byte_at value (2 ^ 56)
        ∷ byte_at value (2 ^ 48)
        ∷ byte_at value (2 ^ 40)
        ∷ byte_at value (2 ^ 32)
        ∷ byte_at value (2 ^ 24)
        ∷ byte_at value (2 ^ 16)
        ∷ byte_at value (2 ^ 8)
        ∷ byte_at value 1
        ∷ [])

-- A read past the end is undefined in the source; the callers test the size first.
abbrev pub at : List ℕ → ℕ → ℕ
at bytes i = get_or bytes i 0

-- `value << shift` on a word of `2 ^ width` values, the shift as a power of two.
abbrev pub shl : ℕ → ℕ → ℕ → ℕ
shl modulus value scale = value * scale % modulus

pub read_u16 : List ℕ → ℕ → ℕ
read_u16 bytes offset =
    bit_or (shl (2 ^ 32) (at bytes offset) (2 ^ 8)) (at bytes (offset + 1)) % 2 ^ 16

unfoldable pub read_u32 : List ℕ → ℕ → ℕ
read_u32 bytes offset =
    bit_or
      (bit_or
        (bit_or (shl (2 ^ 32) (at bytes offset) (2 ^ 24))
          (shl (2 ^ 32) (at bytes (offset + 1)) (2 ^ 16)))
        (shl (2 ^ 32) (at bytes (offset + 2)) (2 ^ 8)))
      (at bytes (offset + 3))

pub read_u64 : List ℕ → ℕ → ℕ
read_u64 bytes offset =
    bit_or
      (bit_or
        (bit_or
          (bit_or
            (bit_or
              (bit_or
                (bit_or (shl (2 ^ 64) (at bytes offset) (2 ^ 56))
                  (shl (2 ^ 64) (at bytes (offset + 1)) (2 ^ 48)))
                (shl (2 ^ 64) (at bytes (offset + 2)) (2 ^ 40)))
              (shl (2 ^ 64) (at bytes (offset + 3)) (2 ^ 32)))
            (shl (2 ^ 64) (at bytes (offset + 4)) (2 ^ 24)))
          (shl (2 ^ 64) (at bytes (offset + 5)) (2 ^ 16)))
        (shl (2 ^ 64) (at bytes (offset + 6)) (2 ^ 8)))
      (at bytes (offset + 7))

-- `static_cast<std::uint16_t>(type)` and back.
unfoldable pub raw_type : MessageType → ℕ
raw_type echo_request = 1
raw_type echo_response = 2
raw_type work_request = 3
raw_type work_response = 4
raw_type error_response = 5
raw_type (other raw) = raw

unfoldable pub cast_type : ℕ → MessageType
cast_type raw =
    if raw == 1
    then echo_request
    else if raw == 2
    then echo_response
    else if raw == 3
    then work_request
    else if raw == 4
    then work_response
    else if raw == 5
    then error_response
    else other raw

-- The `switch` of `IsKnownMessageType`.
abbrev names_enumerator : MessageType → Bool
names_enumerator (other raw) = false
names_enumerator _ = true

unfoldable pub is_known_message_type : ℕ → Bool
unfolding cast_type
is_known_message_type raw = names_enumerator (cast_type raw)

unfoldable pub to_message_type : ℕ → Option MessageType
to_message_type raw = if not (is_known_message_type raw) then none else some (cast_type raw)

abbrev pub frame_bytes : Message → List ℕ
frame_bytes m =
    append_u64
      (append_u32 (append_u16 (append_u16 (append_u32 [] magic) version) (raw_type m.type))
        (length m.payload % 2 ^ 32))
      m.request_id
    ++ m.payload

unfoldable pub encode_message : Message → Option (List ℕ)
encode_message m =
    if ltb max_payload_size (length m.payload)
    then none
    else if not (is_known_message_type (raw_type m.type))
    then none
    else some (frame_bytes m)

-- The payload's copy, `[bytes.begin() + 20, bytes.begin() + frame_size)`.
abbrev frame_message : List ℕ → MessageType → ℕ → Message
frame_message bytes type frame_size = record {
  type = type;
  request_id = read_u64 bytes 12;
  payload = drop header_size (take frame_size bytes);
}

decode_body : List ℕ → MessageType → DecodeResult
decode_body bytes type =
    let payload_size = read_u32 bytes 8 in
    if ltb max_payload_size payload_size
    then error payload_too_large
    else if ltb (size_max - header_size) payload_size
    then error frame_size_overflow
    else (let frame_size = header_size + payload_size in
        if ltb (length bytes) frame_size
        then need_more_data
        else decoded (frame_message bytes type frame_size) frame_size)

decode_known : List ℕ → Option MessageType → DecodeResult
unfolding decode_body
decode_known bytes none = error unknown_message_type
decode_known bytes (some type) = decode_body bytes type

unfoldable pub try_decode_frame : List ℕ → DecodeResult
unfolding decode_known to_message_type
try_decode_frame bytes =
    if ltb (length bytes) header_size
    then need_more_data
    else if not (read_u32 bytes 0 == magic)
    then error invalid_magic
    else if not (read_u16 bytes 4 == version)
    then error unsupported_version
    else decode_known bytes (to_message_type (read_u16 bytes 6))

pub record FrameDecoder : Type 0 where
  pub buffer : List ℕ
  pub read_offset : ℕ

abbrev pub new_decoder : FrameDecoder
new_decoder = record { buffer = []; read_offset = 0 }

unfoldable pub append : FrameDecoder → List ℕ → FrameDecoder
append d bytes = record d { buffer = d.buffer ++ bytes }

unfoldable pub compact_if_needed : FrameDecoder → FrameDecoder
compact_if_needed d =
    if d.read_offset == 0
    then d
    else if d.read_offset == length d.buffer
    then record { buffer = []; read_offset = 0 }
    else if leb (length d.buffer / 2) d.read_offset
    then record { buffer = drop d.read_offset d.buffer; read_offset = 0 }
    else d

-- The bytes that no frame has consumed yet.
abbrev pub pending : FrameDecoder → List ℕ
pending d = drop d.read_offset d.buffer

-- What `Next` does with the answer of `TryDecodeFrame`.
advance : FrameDecoder → DecodeResult → DecodeResult × FrameDecoder
unfolding compact_if_needed
advance d (decoded m consumed) =
    (decoded m consumed, compact_if_needed (record d { read_offset = d.read_offset + consumed }))
advance d result = (result, d)

unfoldable pub next : FrameDecoder → DecodeResult × FrameDecoder
unfolding advance
next d = advance d (try_decode_frame (pending d))

unfoldable pub buffered_size : FrameDecoder → ℕ
buffered_size d = length d.buffer - d.read_offset
