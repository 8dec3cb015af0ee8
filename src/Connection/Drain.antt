-- ===== src/Connection/Drain.antt =====
-- `DrainDecoder` of src/network/connection.cpp: messages and pending bytes.
use pulse_core.Base.{
  ℕ, zero, suc, ◌≤◌, ◌<◌, ◌≡◌, refl, sym, ap, ◌∙◌, Option, none, some, List, [], ◌∷◌, ◌++◌,
  append-nil, append_assoc, arith, length, length-append, length-take, take, All,
}
use pulse_core.Codec.{
  Message, ProtocolError, DecodeResult, need_more_data, decoded, error, encode_message,
  try_decode_frame, FrameDecoder, next, pending,
}
use pulse_core.Codec.Decode.{IsMessage, encode_message-try_decode_frame}
use pulse_core.Codec.Stream.{IsDecoder, pending-IsByte, next_decoded, next_waits, next_fails}
use pulse_core.Connection.{Drained, drain_step, drain_loop, drain_decoder}

-- The bytes of a message that can be encoded, and of several on the wire.
abbrev pub bytes_of : Option (List ℕ) → List ℕ
bytes_of none = []
bytes_of (some bytes) = bytes

abbrev pub frame : Message → List ℕ
frame m = bytes_of (encode_message m)

abbrev pub wire : List Message → List ℕ
wire [] = []
wire (m ∷ ms) = frame m ++ wire ms

pub record IsFrame (m : Message) : Type 0 where
  pub message : IsMessage m
  pub encodes : encode_message m ≡ some (frame m)
  pub starts : 20 ≤ length (frame m)

pub wire-append : (xs ys : List Message) → wire (xs ++ ys) ≡ wire xs ++ wire ys
wire-append [] ys = refl
wire-append (x ∷ xs) ys = rw (wire-append xs ys) (sym (append_assoc (frame x) (wire xs) (wire ys)))

-- Where the loop stops: the decoder waits for more bytes, or has met an error.
abbrev pub Settles : Option ProtocolError → FrameDecoder → Type 0
Settles none d = try_decode_frame (pending d) ≡ need_more_data
Settles (some e) d = try_decode_frame (pending d) ≡ error e

-- What `DrainDecoder` returns: the new messages, and a decoder that holds what is left of the bytes.
pub record Drains (d : FrameDecoder) (ms : List Message) (r : Drained) : Type 0 where
  pub verdict : Option ProtocolError
  pub fresh : List Message
  pub after : FrameDecoder
  pub result : r ≡ some (verdict, ms ++ fresh, after)
  pub valid : IsDecoder after
  pub frames : All IsFrame fresh
  pub split : pending d ≡ wire fresh ++ pending after
  pub settled : Settles verdict after

pub decoded-IsFrame :
    (d : FrameDecoder) (m : Message) (n : ℕ)
    → IsDecoder d
    → try_decode_frame (pending d) ≡ decoded m n
    → IsFrame m × (frame m ≡ take n (pending d))
decoded-IsFrame d m n v e =
    let (message, starts, fits, encodes) =
      encode_message-try_decode_frame (pending d) m n (pending-IsByte d v) e in
    let same : frame m ≡ take n (pending d) = ap bytes_of encodes in
    (
      record {
        message = message;
        encodes = encodes ∙ ap some (sym same);
        starts = rw (same, length-take n (pending d) fits) starts;
      },
      same,
    )

drain_step-Drains :
    (again : FrameDecoder → List Message → Drained) (d : FrameDecoder) (ms : List Message)
    (r : DecodeResult)
    → IsDecoder d
    → ((d' : FrameDecoder) (ms' : List Message)
        → IsDecoder d'
        → length (pending d') < length (pending d)
        → Drains d' ms' (again d' ms'))
    → try_decode_frame (pending d) ≡ r
    → Drains d ms (drain_step again ms (next d))
unfolding drain_step
drain_step-Drains again d ms need_more_data v ih e = record {
  verdict = none;
  fresh = [];
  after = d;
  result = rw (next_waits d e, append-nil) refl;
  valid = v;
  frames = tt;
  split = refl;
  settled = e;
}
drain_step-Drains again d ms (error x) v ih e = record {
  verdict = some x;
  fresh = [];
  after = d;
  result = rw (next_fails d x e, append-nil) refl;
  valid = v;
  frames = tt;
  split = refl;
  settled = e;
}
drain_step-Drains again d ms (decoded m n) v ih e =
    let (d', moved, v', cut) = next_decoded d m n v e in
    let (is_frame, same) = decoded-IsFrame d m n v e in
    let cut' : pending d ≡ frame m ++ pending d' =
      cut ∙ ap (λ (t : List ℕ). t ++ pending d') (sym same) in
    let rest =
      ih d' (ms ++ (m ∷ [])) v'
        (omega (arith, ap length cut', length-append (frame m) (pending d'), is_frame.starts)) in
    record {
      verdict = rest.verdict;
      fresh = m ∷ rest.fresh;
      after = rest.after;
      result = rw (moved, rest.result, append_assoc) refl;
      valid = rest.valid;
      frames = (is_frame, rest.frames);
      split =
          cut'
          ∙ ap (◌++◌ (frame m)) rest.split
          ∙ sym (append_assoc (frame m) (wire rest.fresh) (pending rest.after));
      settled = rest.settled;
    }

drain_loop-Drains :
    (fuel : ℕ) (d : FrameDecoder) (ms : List Message)
    → IsDecoder d
    → length (pending d) < fuel
    → Drains d ms (drain_loop fuel d ms)
unfolding drain_loop
drain_loop-Drains zero d ms v h = absurd (omega arith)
drain_loop-Drains (suc fuel) d ms v h =
    drain_step-Drains (drain_loop fuel) d ms (try_decode_frame (pending d)) v
      (λ d' ms' v' shorter. drain_loop-Drains fuel d' ms' v' (omega arith)) refl

-- `DrainDecoder` ends on every valid decoder. It appends the messages whose frames stand at the front
-- of the pending bytes, keeps the bytes behind them, and stops where the decoder waits or fails.
pub drain_decoder-Drains :
    (d : FrameDecoder) (ms : List Message) → IsDecoder d → Drains d ms (drain_decoder d ms)
unfolding drain_decoder
drain_decoder-Drains d ms v = drain_loop-Drains (suc (length (pending d))) d ms v (omega arith)
