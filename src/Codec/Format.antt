-- ===== src/Codec/Format.antt =====
-- The frame format of src/protocol/codec.cpp over words: five header fields and the rest.
use pulse_core.Base.{
  ℕ, ◌+◌, ◌^◌, ◌≤◌, ◌<◌, ◌≡◌, refl, ap, ◌∙◌, not, List, [], ◌++◌, arith, ltb, ◌==◌, if◌then◌else◌,
  length, take, drop, drop-take_prefix, take-prefix, All,
}
use pulse_core.Codec.{
  IsByte, DecodeResult, need_more_data, decoded, error, invalid_magic, unsupported_version,
  unknown_message_type, payload_too_large, magic, version, header_size, max_payload_size,
  append_u16, append_u32, append_u64, read_u16, read_u32, read_u64, cast_type,
  is_known_message_type, try_decode_frame, MessageType, decode_body, to_message_type,
}
use pulse_core.Codec.Words.{word_u16, word_u32, word_u64, split_u16, split_u32, split_u64}

-- The twenty bytes of a header with these fields.
abbrev pub header : ℕ → ℕ → ℕ → ℕ → ℕ → List ℕ
header mg ver raw size id =
    append_u64 (append_u32 (append_u16 (append_u16 (append_u32 [] mg) ver) raw) size) id

-- What the format says of a header with these fields, before `rest`.
abbrev pub judge : ℕ → ℕ → ℕ → ℕ → ℕ → List ℕ → DecodeResult
judge mg ver raw size id rest =
    if not (mg == magic)
    then error invalid_magic
    else if not (ver == version)
    then error unsupported_version
    else if not (is_known_message_type raw)
    then error unknown_message_type
    else if ltb max_payload_size size
    then error payload_too_large
    else if ltb (length rest) size
    then need_more_data
    else decoded (record { type = cast_type raw; request_id = id; payload = take size rest })
        (header_size + size)

-- The fields of a header, each within its word.
pub record Fields : Type 0 where
  pub mg : ℕ
  pub ver : ℕ
  pub raw : ℕ
  pub size : ℕ
  pub id : ℕ
  pub mg_fits : mg < 2 ^ 32
  pub ver_fits : ver < 2 ^ 16
  pub raw_fits : raw < 2 ^ 16
  pub size_fits : size < 2 ^ 32
  pub id_fits : id < 2 ^ 64

abbrev pub header_of : Fields → List ℕ
header_of f = header f.mg f.ver f.raw f.size f.id

module _ (f : Fields) (rest : List ℕ) where
  open f use {mg, ver, raw, size, id}

  read_magic : read_u32 (header_of f ++ rest) 0 ≡ mg
  unfolding append_u16 append_u32 append_u64 read_u32
  read_magic = word_u32 mg f.mg_fits

  read_version : read_u16 (header_of f ++ rest) 4 ≡ ver
  unfolding append_u16 append_u32 append_u64 read_u16
  read_version = word_u16 ver f.ver_fits

  read_type : read_u16 (header_of f ++ rest) 6 ≡ raw
  unfolding append_u16 append_u32 append_u64 read_u16
  read_type = word_u16 raw f.raw_fits

  read_size : read_u32 (header_of f ++ rest) 8 ≡ size
  unfolding append_u16 append_u32 append_u64 read_u32
  read_size = word_u32 size f.size_fits

  read_id : read_u64 (header_of f ++ rest) 12 ≡ id
  unfolding append_u16 append_u32 append_u64 read_u64
  read_id = word_u64 id f.id_fits

  pub length-header : length (header_of f ++ rest) ≡ 20 + length rest
  unfolding append_u16 append_u32 append_u64
  length-header = omega arith

  pub take-header : take (20 + size) (header_of f ++ rest) ≡ header_of f ++ take size rest
  unfolding append_u16 append_u32 append_u64
  take-header = take-prefix size (header_of f) rest

  payload_cut : drop 20 (take (20 + size) (header_of f ++ rest)) ≡ take size rest
  unfolding append_u16 append_u32 append_u64
  payload_cut = drop-take_prefix size (header_of f) rest

  sized : (type : MessageType) → DecodeResult
  sized type =
      if ltb max_payload_size size
      then error payload_too_large
      else if ltb (length rest) size
      then need_more_data
      else decoded (record { type = type; request_id = id; payload = take size rest })
          (header_size + size)

  decode_body-header : (type : MessageType) → decode_body (header_of f ++ rest) type ≡ sized type
  unfolding decode_body sized
  decode_body-header type =
      rw (read_size, read_id, payload_cut) (ground (arith, f.size_fits, length-header))

  -- The decoder's answer on these fields.
  pub try_decode_frame-header :
      try_decode_frame (header_of f ++ rest) ≡ judge mg ver raw size id rest
  unfolding try_decode_frame sized to_message_type
  try_decode_frame-header =
      rw (read_magic, read_version, read_type)
        (ground (arith, length-header, decode_body-header (cast_type raw)))

regroup :
    (mg ver raw size id : ℕ) (rest : List ℕ)
    → append_u32 [] mg
        ++ (append_u16 [] ver
            ++ (append_u16 [] raw ++ (append_u32 [] size ++ (append_u64 [] id ++ rest))))
      ≡ header mg ver raw size id ++ rest
unfolding append_u16 append_u32 append_u64
regroup mg ver raw size id rest = refl

-- Twenty bytes or more begin with the header of some fields.
pub header_view :
    (bytes : List ℕ)
    → 20 ≤ length bytes
    → All IsByte bytes
    → (f : Fields) × (rest : List ℕ) × (bytes ≡ header_of f ++ rest) × All IsByte rest
header_view bytes h b =
    let (mg, mg_fits, b1, e1, h1, l1) = split_u32 bytes (omega arith) b in
    let (ver, ver_fits, b2, e2, h2, l2) = split_u16 b1 (omega arith) h1 in
    let (raw, raw_fits, b3, e3, h3, l3) = split_u16 b2 (omega arith) h2 in
    let (size, size_fits, b4, e4, h4, l4) = split_u32 b3 (omega arith) h3 in
    let (id, id_fits, rest, e5, h5, l5) = split_u64 b4 (omega arith) h4 in
    (
      record {
        mg = mg;
        ver = ver;
        raw = raw;
        size = size;
        id = id;
        mg_fits = mg_fits;
        ver_fits = ver_fits;
        raw_fits = raw_fits;
        size_fits = size_fits;
        id_fits = id_fits;
      },
      rest,
      e1
          ∙ ap (◌++◌ (append_u32 [] mg)) (
              e2
              ∙ ap (◌++◌ (append_u16 [] ver))
                  (e3 ∙ ap (◌++◌ (append_u16 [] raw)) (e4 ∙ ap (◌++◌ (append_u32 [] size)) e5)))
          ∙ regroup mg ver raw size id rest,
      h5,
    )
