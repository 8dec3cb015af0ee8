-- ===== src/Connection/Chunks.antt =====
-- The byte stream divided into chunks, as the reads of src/network/connection.cpp deliver it.
use pulse_core.Base.{
  ℕ, ◌≡◌, refl, sym, ap, ap₂, subst, ◌∙◌, Option, none, some, List, [], ◌∷◌, ◌++◌, append-nil,
  append_assoc, arith, length, length-append, All,
}
use mathlib.Core.List.{append_cancel_left}
use pulse_core.Codec.{
  IsByte, Message, ProtocolError, need_more_data, decoded, try_decode_frame, FrameDecoder,
  new_decoder, append, pending,
}
use pulse_core.Codec.Decode.{try_decode_frame-encode_message, try_decode_frame-append, short_frame}
use pulse_core.Codec.Stream.{
  IsDecoder, new_decoder-IsDecoder, append-IsDecoder, pending-append, pending-IsByte,
}
use pulse_core.Connection.{Drained, drain_decoder}
use pulse_core.Connection.Drain.{wire, frame, IsFrame, Settles, drain_decoder-Drains}

-- What a reader does with each chunk that arrives: `Append`, then `DrainDecoder` until it fails.
feed_step : (FrameDecoder → List Message → Drained) → Drained → Drained
feed_step again none = none
feed_step again (some (some e, ms, d)) = some (some e, ms, d)
feed_step again (some (none, ms, d)) = again d ms

pub feed : FrameDecoder → List Message → List (List ℕ) → Drained
unfolding feed_step
feed d ms [] = some (none, ms, d)
feed d ms (c ∷ cs) = feed_step (λ d' ms'. feed d' ms' cs) (drain_decoder (append d c) ms)

abbrev pub joined : List (List ℕ) → List ℕ
joined [] = []
joined (c ∷ cs) = c ++ joined cs

first_frame :
    (m : Message) (rest : List ℕ)
    → IsFrame m
    → try_decode_frame (frame m ++ rest) ≡ decoded m (length (frame m))
first_frame m rest x = try_decode_frame-encode_message m (frame m) rest x.message x.encodes

-- What is left of the stream behind the messages that a drain has found.
record Remains (v : Option ProtocolError) (fresh ms : List Message) (bytes rest : List ℕ)
    : Type 0 where
  no_error : v ≡ none
  later : List Message
  in_order : ms ≡ fresh ++ later
  later_frames : All IsFrame later
  unread : bytes ++ rest ≡ wire later

-- No error is met at the front of a stream of frames.
no_error_lem :
    (v : Option ProtocolError) (ms : List Message) (d : FrameDecoder) (rest : List ℕ)
    → IsDecoder d
    → Settles v d
    → All IsFrame ms
    → pending d ++ rest ≡ wire ms
    → v ≡ none
no_error_lem none ms d rest valid s fs e = refl
no_error_lem (some x) [] d rest valid s fs e =
    cc (s, short_frame (pending d) (omega (arith, ap length e, length-append (pending d) rest)))
no_error_lem (some x) (m ∷ ms) d rest valid s (f, fs) e =
    let same = try_decode_frame-append (pending d) rest (pending-IsByte d valid) (λ h. cc) in
    cc (same, s, ap try_decode_frame e, first_frame m (wire ms) f)

drained-Remains :
    (v : Option ProtocolError) (fresh ms : List Message) (d : FrameDecoder) (rest : List ℕ)
    → IsDecoder d
    → Settles v d
    → All IsFrame fresh
    → All IsFrame ms
    → wire fresh ++ (pending d ++ rest) ≡ wire ms
    → Remains v fresh ms (pending d) rest
drained-Remains v [] ms d rest valid s gs fs e = record {
  no_error = no_error_lem v ms d rest valid s fs e;
  later = ms;
  in_order = refl;
  later_frames = fs;
  unread = e;
}
drained-Remains v (g ∷ fresh) [] d rest valid s (x, gs) fs e = absurd (
    omega (
      arith,
      ap length e,
      length-append (frame g ++ wire fresh) (pending d ++ rest),
      length-append (frame g) (wire fresh),
      x.starts,
    ))
drained-Remains v (g ∷ fresh) (m ∷ ms) d rest valid s (x, gs) (f, fs) e =
    let tail = wire fresh ++ (pending d ++ rest) in
    let e' : frame g ++ tail ≡ frame m ++ wire ms =
      sym (append_assoc (frame g) (wire fresh) (pending d ++ rest)) ∙ e in
    let same : g ≡ m =
      cc (first_frame g tail x, first_frame m (wire ms) f, ap try_decode_frame e') in
    let inner = drained-Remains v fresh ms d rest valid s gs fs (
      append_cancel_left (frame m) tail (wire ms)
        (subst (λ h. frame h ++ tail ≡ frame m ++ wire ms) same e')) in
    record {
      no_error = inner.no_error;
      later = inner.later;
      in_order = ap₂ ◌∷◌ (sym same) inner.in_order;
      later_frames = inner.later_frames;
      unread = inner.unread;
    }

-- A decoder that waits with the whole stream at hand has nothing left to decode.
nothing_left :
    (ms : List Message) (bytes : List ℕ)
    → All IsFrame ms
    → bytes ≡ wire ms
    → try_decode_frame bytes ≡ need_more_data
    → ms ≡ []
nothing_left [] bytes fs e h = refl
nothing_left (m ∷ ms) bytes (f, fs) e h = cc (first_frame m (wire ms) f, ap try_decode_frame e, h)

feed_frames :
    (cs : List (List ℕ)) (d : FrameDecoder) (seen ms : List Message)
    → IsDecoder d
    → try_decode_frame (pending d) ≡ need_more_data
    → All (All IsByte) cs
    → All IsFrame ms
    → pending d ++ joined cs ≡ wire ms
    → (d' : FrameDecoder) × (feed d seen cs ≡ some (none, seen ++ ms, d')) × (pending d' ≡ [])
unfolding feed
feed_frames [] d seen ms v w bs fs e =
    let e' = sym (append-nil (pending d)) ∙ e in
    let n = nothing_left ms (pending d) fs e' w in (d, rw (n, append-nil) refl, e' ∙ ap wire n)
feed_frames (c ∷ cs) d seen ms v w (b, bs) fs e =
    let r = drain_decoder-Drains (append d c) seen (append-IsDecoder d c v b) in
    let stream : wire r.fresh ++ (pending r.after ++ joined cs) ≡ wire ms =
      sym (append_assoc (wire r.fresh) (pending r.after) (joined cs))
      ∙ ap (λ (t : List ℕ). t ++ joined cs) (sym r.split ∙ pending-append d c v)
      ∙ append_assoc (pending d) c (joined cs)
      ∙ e in
    let q =
      drained-Remains r.verdict r.fresh ms r.after (joined cs) r.valid r.settled r.frames fs
        stream in
    let waits = subst (λ x. Settles x r.after) q.no_error r.settled in
    let (d', fed, empty) =
      feed_frames cs r.after (seen ++ r.fresh) q.later r.valid waits bs q.later_frames q.unread in
    let again = λ (d : FrameDecoder) (ms : List Message). feed d ms cs in
    (
      d',
      ap (feed_step again) r.result
          ∙ ap (λ (x : Option ProtocolError). feed_step again (some (x, seen ++ r.fresh, r.after)))
              q.no_error
          ∙ fed
          ∙ ap {B = Drained} (λ (t : List Message). some (none, t, d'))
              (append_assoc seen r.fresh q.later ∙ ap (◌++◌ seen) (sym q.in_order)),
      empty,
    )

-- However the bytes of some messages that can be encoded are divided into chunks of bytes, a new
-- decoder that gets the chunks one by one, and is drained after each, hands out exactly those
-- messages, in order, without error, and holds no byte at the end.
pub feed-wire :
    (ms : List Message) (cs : List (List ℕ))
    → All IsFrame ms
    → All (All IsByte) cs
    → joined cs ≡ wire ms
    → (d : FrameDecoder) × (feed new_decoder [] cs ≡ some (none, ms, d)) × (pending d ≡ [])
feed-wire ms cs fs bs e =
    feed_frames cs new_decoder [] ms new_decoder-IsDecoder (short_frame [] (omega arith)) bs fs e
