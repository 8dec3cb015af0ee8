-- ===== src/BlockingTcp/Receive.antt =====
-- `ReadMessage` of src/network/blocking_tcp.cpp, on the stream of bytes kept and still to be read.
use pulse_core.Base.{
  ℕ, zero, suc, ◌+◌, ◌≤◌, ◌<◌, ◌≡◌, refl, sym, ap, subst, ◌∙◌, List, [], ◌∷◌, ◌++◌, append_assoc,
  arith, length, length-append, All,
}
use pulse_core.Codec.{
  IsByte, DecodeResult, need_more_data, decoded, error, try_decode_frame, FrameDecoder, append,
  next, pending,
}
use pulse_core.Codec.Stream.{
  IsDecoder, append-IsDecoder, pending-append, next_decoded, next_waits, next_fails,
}
use pulse_core.Connection.Drain.{IsFrame, frame, decoded-IsFrame}
use pulse_core.Sockets.{
  eintr, eagain, ewouldblock, econnreset, epipe, enoent, other_error, Received, received,
  recv_failed, Sockets, IsStream, Receives,
}
use pulse_core.BlockingTcp.{
  message, closed, protocol_error, done, failed, wrote_zero, not_encoded, stuck, Reading,
  after_read, after_next, read_loop, read_message, receive_size,
}

module _ {W : Type 0} (s : Sockets W) (fd : ℕ) (st : IsStream s fd) where
  open st use {incoming, outgoing, patience}

  -- The bytes that are kept, and those that are still to be read.
  abbrev pub stream : FrameDecoder → W → List ℕ
  stream d w = pending d ++ incoming w

  -- From one state to a later one, behind the bytes `front` that were consumed.
  pub record Consumes (front : List ℕ) (d : FrameDecoder) (w : W) (d' : FrameDecoder) (w' : W)
      : Type 0 where
    pub valid : IsDecoder d'
    pub conserved : front ++ stream d' w' ≡ stream d w
    pub unsent : outgoing w' ≡ outgoing w
    pub calm : patience w' ≤ patience w

  -- What each status says of the stream.
  abbrev pub ReadsMessage : FrameDecoder → W → Reading W → Type 0
  ReadsMessage d w (done (message m) (d', w')) = IsFrame m × Consumes (frame m) d w d' w'
  ReadsMessage d w (done closed (d', w')) =
      (try_decode_frame (pending d') ≡ need_more_data) × Consumes [] d w d' w'
  ReadsMessage d w (done (protocol_error e) (d', w')) =
      (try_decode_frame (pending d') ≡ error e) × Consumes [] d w d' w'
  ReadsMessage d w (failed e (d', w')) = Consumes [] d w d' w'
  ReadsMessage d w (wrote_zero _) = ⊥
  ReadsMessage d w (not_encoded _) = ⊥
  ReadsMessage d w stuck = ⊥

  Consumes-after :
      {front : List ℕ} {d d1 d' : FrameDecoder} {w w1 w' : W}
      → stream d1 w1 ≡ stream d w
      → outgoing w1 ≡ outgoing w
      → patience w1 ≤ patience w
      → Consumes front d1 w1 d' w'
      → Consumes front d w d' w'
  Consumes-after e o p x = record {
    valid = x.valid;
    conserved = x.conserved ∙ e;
    unsent = x.unsent ∙ o;
    calm = omega (arith, x.calm, p);
  }

  ReadsMessage-after :
      (d d1 : FrameDecoder) (w w1 : W) (r : Reading W)
      → stream d1 w1 ≡ stream d w
      → outgoing w1 ≡ outgoing w
      → patience w1 ≤ patience w
      → ReadsMessage d1 w1 r
      → ReadsMessage d w r
  ReadsMessage-after d d1 w w1 (done (message m) (d', w')) e o p x = (x.0, Consumes-after e o p x.1)
  ReadsMessage-after d d1 w w1 (done closed (d', w')) e o p x = (x.0, Consumes-after e o p x.1)
  ReadsMessage-after d d1 w w1 (done (protocol_error y) (d', w')) e o p x =
      (x.0, Consumes-after e o p x.1)
  ReadsMessage-after d d1 w w1 (failed y (d', w')) e o p x = Consumes-after e o p x
  ReadsMessage-after d d1 w w1 (wrote_zero _) e o p x = elim x [ ]
  ReadsMessage-after d d1 w w1 (not_encoded _) e o p x = elim x [ ]
  ReadsMessage-after d d1 w w1 stuck e o p x = elim x [ ]

  -- Later rounds do what is claimed, from any state with a smaller measure.
  abbrev Later : (FrameDecoder → W → Reading W) → ℕ → Type 0
  Later again bound =
      (d : FrameDecoder) (w : W)
      → IsDecoder d
      → patience w + length (incoming w) < bound
      → ReadsMessage d w (again d w)

  module _ (again : FrameDecoder → W → Reading W) (d : FrameDecoder) (w w' : W) (v : IsDecoder d)
      (waits : try_decode_frame (pending d) ≡ need_more_data) (o : outgoing w' ≡ outgoing w)
      (p : patience w' ≤ patience w) (ih : Later again (patience w + length (incoming w))) where
    unread : incoming w ≡ incoming w' → Consumes [] d w d w'
    unread e = record {
      valid = v;
      conserved = ap (λ (t : List ℕ). pending d ++ t) (sym e);
      unsent = o;
      calm = p;
    }

    some_read :
        (b : ℕ) (bytes : List ℕ)
        → incoming w ≡ (b ∷ bytes) ++ incoming w'
        → All IsByte (b ∷ bytes)
        → ReadsMessage d w (again (append d (b ∷ bytes)) w')
    some_read b bytes e h =
        ReadsMessage-after d (append d (b ∷ bytes)) w w' (again (append d (b ∷ bytes)) w')
          (ap (λ (t : List ℕ). t ++ incoming w') (pending-append d (b ∷ bytes) v)
            ∙ append_assoc (pending d) (b ∷ bytes) (incoming w')
            ∙ ap (λ (t : List ℕ). pending d ++ t) (sym e))
          o p
          (ih (append d (b ∷ bytes)) w' (append-IsDecoder d (b ∷ bytes) v h)
            (omega (arith, p, ap length e, length-append (b ∷ bytes) (incoming w'))))

    interrupted :
        incoming w ≡ incoming w' → patience w' < patience w → ReadsMessage d w (again d w')
    interrupted e fewer =
        ReadsMessage-after d d w w' (again d w') (ap (λ (t : List ℕ). pending d ++ t) (sym e)) o p
          (ih d w' v (omega (arith, fewer, ap length e)))

    one_read :
        (x : Received)
        → Receives receive_size (incoming w) x (incoming w')
        → (x ≡ recv_failed eintr → patience w' < patience w)
        → ReadsMessage d w (after_read again d (x, w'))
    unfolding after_read
    one_read (received []) h e = (waits, unread h.0)
    one_read (received (b ∷ bytes)) h e = some_read b bytes h.0 h.2
    one_read (recv_failed eintr) h e = interrupted h (e refl)
    one_read (recv_failed eagain) h e = unread h
    one_read (recv_failed ewouldblock) h e = unread h
    one_read (recv_failed econnreset) h e = unread h
    one_read (recv_failed epipe) h e = unread h
    one_read (recv_failed enoent) h e = unread h
    one_read (recv_failed (other_error n)) h e = unread h

  -- A round, by the answer of the decoder on the bytes that are kept.
  after_next-ReadsMessage :
      (again : FrameDecoder → W → Reading W) (d : FrameDecoder) (w : W) (r : DecodeResult)
      → IsDecoder d
      → Later again (patience w + length (incoming w))
      → try_decode_frame (pending d) ≡ r
      → ReadsMessage d w (after_next s fd again w (next d))
  unfolding after_next
  after_next-ReadsMessage again d w need_more_data v ih e =
      subst (λ (x : DecodeResult × FrameDecoder). ReadsMessage d w (after_next s fd again w x))
        (sym (next_waits d e))
        (one_read again d w (s.recv fd receive_size w).1 v e (st.recv_keeps receive_size w)
          (st.recv_calm receive_size w) ih (s.recv fd receive_size w).0
          (st.recv_takes receive_size w) (st.recv_patience receive_size w))
  after_next-ReadsMessage again d w (error x) v ih e =
      subst (λ (x : DecodeResult × FrameDecoder). ReadsMessage d w (after_next s fd again w x))
        (sym (next_fails d x e))
        (e, record { valid = v; conserved = refl; unsent = refl; calm = omega arith })
  after_next-ReadsMessage again d w (decoded m n) v ih e =
      let (d', moved, v', cut) = next_decoded d m n v e in
      let (is_frame, same) = decoded-IsFrame d m n v e in
      subst (λ (x : DecodeResult × FrameDecoder). ReadsMessage d w (after_next s fd again w x))
        (sym moved)
        (
          is_frame,
          record {
            valid = v';
            conserved =
                sym (append_assoc (frame m) (pending d') (incoming w))
                ∙ ap (λ (t : List ℕ). t ++ incoming w)
                    (ap (λ (t : List ℕ). t ++ pending d') same ∙ sym cut);
            unsent = refl;
            calm = omega arith;
          },
        )

  read_loop-ReadsMessage :
      (fuel : ℕ) (d : FrameDecoder) (w : W)
      → IsDecoder d
      → patience w + length (incoming w) < fuel
      → ReadsMessage d w (read_loop s fd fuel d w)
  unfolding read_loop
  read_loop-ReadsMessage zero d w v h = absurd (omega arith)
  read_loop-ReadsMessage (suc fuel) d w v h =
      after_next-ReadsMessage (read_loop s fd fuel) d w (try_decode_frame (pending d)) v
        (λ d' w' v' less. read_loop-ReadsMessage fuel d' w' v' (omega (arith, less, h))) refl

-- `ReadMessage` returns or throws, given more rounds than there are unread bytes and interrupted calls.
-- A message that it returns has its frame at the front of the stream, and the decoder and the socket
-- hold what is behind it; with any other outcome no byte of the stream is lost, and a protocol error is
-- a malformed frame at its front.
pub read_message-ReadsMessage :
    {W : Type 0} (s : Sockets W) (fd : ℕ) (st : IsStream s fd) (fuel : ℕ) (d : FrameDecoder) (w : W)
    → IsDecoder d
    → st.patience w + length (st.incoming w) < fuel
    → ReadsMessage s fd st d w (read_message s fuel fd d w)
unfolding read_message
read_message-ReadsMessage s fd st fuel d w v h = read_loop-ReadsMessage s fd st fuel d w v h
