-- ===== src/Codec/Decode.antt =====
-- `TryDecodeFrame` of src/protocol/codec.cpp against `EncodeMessage`, and against inputs that
-- grow.
use pulse_core.Base.{
  ℕ, ◌+◌, ◌^◌, ◌%◌, ◌≤◌, ◌<◌, ◌≡◌, ◌≢◌, refl, sym, ap, ◌∙◌, true, List, [], ◌++◌, append_assoc,
  arith, inl, inr, ◌⊎◌, some, length, length-append, take, length-take, take-append,
  take-length-append, All, All-take, append-nil, length-zero,
}
use native.Mathlib.Decide.{dec_lt}
use pulse_core.Codec.{
  IsByte, Message, MessageType, DecodeResult, need_more_data, decoded, error, magic, version,
  header_size, max_payload_size, append_u16, append_u32, append_u64, raw_type, cast_type,
  is_known_message_type, encode_message, try_decode_frame,
}
use pulse_core.Codec.Format.{
  Fields, header, header_of, judge, length-header, try_decode_frame-header, header_view,
  take-header,
}

-- A value of the enumeration has 16 bits, and `other` stands only for what no enumerator names.
abbrev pub IsMessageType : MessageType → Type 0
IsMessageType t = (raw_type t < 2 ^ 16) × (cast_type (raw_type t) ≡ t)

-- The words of a message fit their types.
pub record IsMessage (m : Message) : Type 0 where
  pub type_fits : IsMessageType m.type
  pub id_fits : m.request_id < 2 ^ 64
  pub payload_fits : All IsByte m.payload

raw_type-cast_type : (raw : ℕ) → raw_type (cast_type raw) ≡ raw
unfolding raw_type cast_type
raw_type-cast_type raw = ground arith

cast_type-IsMessageType : (raw : ℕ) → raw < 2 ^ 16 → IsMessageType (cast_type raw)
cast_type-IsMessageType raw h = rw raw_type-cast_type (h, refl)

small :
    (m : Message)
    → length m.payload ≤ max_payload_size
    → length m.payload % 2 ^ 32 ≡ length m.payload
small m h = omega arith

-- What a successful encoding says of the message, and the bytes that it writes.
record Encodes (m : Message) (bytes : List ℕ) : Type 0 where
  short : length m.payload ≤ max_payload_size
  known : is_known_message_type (raw_type m.type) ≡ true
  written :
      bytes ≡ header magic version (raw_type m.type) (length m.payload) m.request_id ++ m.payload

encode_message-Encodes :
    (m : Message) (bytes : List ℕ) → encode_message m ≡ some bytes → Encodes m bytes
unfolding encode_message
encode_message-Encodes m bytes e = record {
  short = ground arith;
  known = ground arith;
  written = ground (
    arith,
    ap (λ (n : ℕ). header magic version (raw_type m.type) n m.request_id ++ m.payload)
        (small m (ground arith)),
  );
}

-- A message that can be encoded has a short payload, and a frame of bounded length.
pub encode_message_le :
    (m : Message) (bytes : List ℕ)
    → encode_message m ≡ some bytes
    → (length m.payload ≤ max_payload_size) × (length bytes ≤ header_size + max_payload_size)
unfolding append_u16 append_u32 append_u64
encode_message_le m bytes e =
    let x = encode_message-Encodes m bytes e in
    (
      x.short,
      omega (
        arith,
        x.short,
        ap length x.written,
        length-append (header magic version (raw_type m.type) (length m.payload) m.request_id)
            m.payload,
      ),
    )

Encodes-encode_message :
    (m : Message) (bytes : List ℕ) → Encodes m bytes → encode_message m ≡ some bytes
unfolding encode_message
Encodes-encode_message m bytes e = ground (
  arith,
  e.written,
  ap (λ (n : ℕ). header magic version (raw_type m.type) n m.request_id ++ m.payload)
      (small m e.short),
)

-- The fields of the header that `EncodeMessage` writes.
module _ (m : Message) (v : IsMessage m) (short : length m.payload ≤ max_payload_size) where
  message_fields : Fields
  message_fields = record {
    mg = magic;
    ver = version;
    raw = raw_type m.type;
    size = length m.payload;
    id = m.request_id;
    mg_fits = omega arith;
    ver_fits = omega arith;
    raw_fits = v.type_fits.0;
    size_fits = omega arith;
    id_fits = v.id_fits;
  }

judge_message :
    (m : Message) (rest : List ℕ)
    → IsMessage m
    → length m.payload ≤ max_payload_size
    → is_known_message_type (raw_type m.type) ≡ true
    → judge magic version (raw_type m.type) (length m.payload) m.request_id (m.payload ++ rest)
      ≡ decoded m (header_size + length m.payload)
judge_message m rest v short known =
    ground (arith, v.type_fits.1, take-length-append m.payload rest, length-append m.payload rest)

-- A message whose words fit their types and that can be encoded is decoded from its bytes,
-- whatever follows them, and the decoder consumes exactly those bytes.
pub try_decode_frame-encode_message :
    (m : Message) (bytes rest : List ℕ)
    → IsMessage m
    → encode_message m ≡ some bytes
    → try_decode_frame (bytes ++ rest) ≡ decoded m (length bytes)
unfolding message_fields
try_decode_frame-encode_message m bytes rest v e =
    let x = encode_message-Encodes m bytes e in
    let f = message_fields m v x.short in
    rw (x.written, append_assoc, length-header f m.payload)
      (try_decode_frame-header f (m.payload ++ rest) ∙ judge_message m rest v x.short x.known)

pub short_frame : (bytes : List ℕ) → length bytes < 20 → try_decode_frame bytes ≡ need_more_data
unfolding try_decode_frame
short_frame bytes h = ground arith

-- What a positive verdict on these fields says of them.
record Accepts (f : Fields) (rest : List ℕ) (m : Message) (n : ℕ) : Type 0 where
  is_magic : f.mg ≡ magic
  is_version : f.ver ≡ version
  is_known : is_known_message_type f.raw ≡ true
  fits : f.size ≤ max_payload_size
  whole : f.size ≤ length rest
  message : m ≡ record { type = cast_type f.raw; request_id = f.id; payload = take f.size rest }
  consumed : n ≡ header_size + f.size

judge-Accepts :
    (f : Fields) (rest : List ℕ) (m : Message) (n : ℕ)
    → judge f.mg f.ver f.raw f.size f.id rest ≡ decoded m n
    → Accepts f rest m n
judge-Accepts f rest m n e = ground arith

-- Either too few bytes for a header, or a header and the bytes behind it.
pub header_cases :
    (bytes : List ℕ)
    → All IsByte bytes
    → (length bytes < 20)
      ⊎ ((f : Fields) × (rest : List ℕ) × (bytes ≡ header_of f ++ rest) × All IsByte rest)
header_cases bytes b = elim (dec_lt (length bytes) 20) [
  | yes h ↦ inl h
  | no h ↦ inr (header_view bytes (omega arith) b)
]

abbrev frame_of : Fields → List ℕ → Message
frame_of f rest = record { type = cast_type f.raw; request_id = f.id; payload = take f.size rest }

frame_of-IsMessage : (f : Fields) (rest : List ℕ) → All IsByte rest → IsMessage (frame_of f rest)
frame_of-IsMessage f rest b = record {
  type_fits = cast_type-IsMessageType f.raw f.raw_fits;
  id_fits = f.id_fits;
  payload_fits = All-take IsByte f.size rest b;
}

frame_of-Encodes :
    (f : Fields) (rest : List ℕ) {m : Message} {n : ℕ}
    → Accepts f rest m n
    → Encodes (frame_of f rest) (header_of f ++ take f.size rest)
frame_of-Encodes f rest x =
    let l = length-take f.size rest x.whole in
    record {
      short = rw l x.fits;
      known = rw raw_type-cast_type x.is_known;
      written = rw (l, raw_type-cast_type, x.is_magic, x.is_version) refl;
    }

-- Whatever is decoded from an input of bytes is a message whose words fit their types, and its
-- encoding is the front of the input that the decoder consumes; the frame lies within the input
-- and has a header at least.
pub encode_message-try_decode_frame :
    (bytes : List ℕ) (m : Message) (n : ℕ)
    → All IsByte bytes
    → try_decode_frame bytes ≡ decoded m n
    → IsMessage m
      × (header_size ≤ n)
      × (n ≤ length bytes)
      × (encode_message m ≡ some (take n bytes))
encode_message-try_decode_frame bytes m n b e = elim (header_cases bytes b) [
  | inl h ↦ cc (short_frame bytes h)
  | inr (f, rest, split, br) ↦
      let x = judge-Accepts f rest m n (sym (try_decode_frame-header f rest) ∙ rw split at e) in
      rw (split, x.message, x.consumed, take-header f rest)
        (
          frame_of-IsMessage f rest br,
          omega arith,
          rw (length-header f rest) (omega (arith, x.whole)),
          Encodes-encode_message _ _ (frame_of-Encodes f rest x),
        )
]

judge-append :
    (f : Fields) (rest more : List ℕ)
    → judge f.mg f.ver f.raw f.size f.id rest ≢ need_more_data
    → judge f.mg f.ver f.raw f.size f.id (rest ++ more) ≡ judge f.mg f.ver f.raw f.size f.id rest
judge-append f rest more h = ground (arith, length-append rest more, take-append f.size rest more)

-- A message or an error, once answered on an input of bytes, stays the answer when more bytes
-- follow.
pub try_decode_frame-append :
    (bytes more : List ℕ)
    → All IsByte bytes
    → try_decode_frame bytes ≢ need_more_data
    → try_decode_frame (bytes ++ more) ≡ try_decode_frame bytes
try_decode_frame-append bytes more b h = elim (header_cases bytes b) [
  | inl short ↦ absurd (h (short_frame bytes short))
  | inr (f, rest, split, br) ↦
      let e = try_decode_frame-header f rest in
      rw (split, append_assoc, try_decode_frame-header f (rest ++ more), e)
        (judge-append f rest more (λ j. h (ap try_decode_frame split ∙ e ∙ j)))
]

need_cases : (r : DecodeResult) → (r ≡ need_more_data) ⊎ (r ≢ need_more_data)
need_cases need_more_data = inl refl
need_cases (decoded m n) = inr (λ e. cc)
need_cases (error e) = inr (λ e. cc)

-- Any front of a message's frame that lacks some of its bytes needs more data, where the
-- message's words fit their types.
pub try_decode_frame_partial :
    (m : Message) (front back : List ℕ)
    → IsMessage m
    → All IsByte front
    → encode_message m ≡ some (front ++ back)
    → back ≢ []
    → try_decode_frame front ≡ need_more_data
try_decode_frame_partial m front back v b e more = elim (need_cases (try_decode_frame front)) [
  | inl waits ↦ waits
  | inr verdict ↦
      let whole = rw append-nil at (try_decode_frame-encode_message m (front ++ back) [] v e) in
      let early = sym (try_decode_frame-append front back b verdict) ∙ whole in
      let n = (encode_message-try_decode_frame front m _ b early).2 in
      absurd (more (length-zero back (omega (arith, n, length-append front back))))
]

-- The decoder waits for more data only while its input of bytes is shorter than the largest
-- frame.
pub need_more_data-lt :
    (bytes : List ℕ)
    → All IsByte bytes
    → try_decode_frame bytes ≡ need_more_data
    → length bytes < header_size + max_payload_size
need_more_data-lt bytes b e = elim (header_cases bytes b) [
  | inl short ↦ omega arith
  | inr (f, rest, split, br) ↦
      let j = sym (try_decode_frame-header f rest) ∙ rw split at e in
      rw (split, length-header f rest) (ground (arith, j))
]
