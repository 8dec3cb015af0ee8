-- ===== src/BlockingTcp/Serve.antt =====
-- `ServeClient` of src/network/blocking_tcp.cpp: requests read and answers sent.
use pulse_core.Base.{
  ℕ, zero, suc, ◌+◌, ◌≤◌, ◌<◌, ◌≡◌, ◌≢◌, refl, sym, ap, subst, ◌∙◌, map, Option, some, List, [],
  ◌∷◌, ◌++◌, append-nil, append_assoc, arith, length, length-append, Option-cases, inl, inr, All,
}
use pulse_core.Codec.{
  ProtocolError, need_more_data, decoded, error, try_decode_frame, Message, encode_message,
  FrameDecoder, new_decoder, pending, header_size, max_payload_size,
}
use pulse_core.Codec.Decode.{encode_message_le}
use pulse_core.Codec.Stream.{IsDecoder, new_decoder-IsDecoder}
use pulse_core.Connection.Drain.{IsFrame, frame, wire, bytes_of}
use pulse_core.Handler.{handle_request}
use pulse_core.Handler.Responses.{handle_owned_request-IsResponse, IsResponse-encode_message}
use pulse_core.Sockets.{Sockets, IsStream}
use pulse_core.BlockingTcp.{
  message, closed, protocol_error, Ran, done, failed, wrote_zero, not_encoded, stuck, Reading,
  read_message, send_encoded, send_message, after_response, after_request, serve_loop, serve_client,
}
use pulse_core.BlockingTcp.Send.{SendsAll, Sending, send_all-SendsAll}
use pulse_core.BlockingTcp.Receive.{stream, Consumes, ReadsMessage, read_message-ReadsMessage}

-- A request that can be encoded is answered by a message that can be.
answer_encoded :
    (m : Message) → IsFrame m → (bytes : List ℕ) × (encode_message (handle_request m) ≡ some bytes)
unfolding handle_request
answer_encoded m x =
    let short = (encode_message_le m (frame m) x.encodes).0 in
    let answers = handle_owned_request-IsResponse m short x.message.payload_fits in
    let can = IsResponse-encode_message m (handle_request m) x.message.id_fits answers in
    elim (Option-cases (encode_message (handle_request m))) [
      | inl e ↦ absurd (can.1 e)
      | inr found ↦ found
    ]

waits_not_decoded : (m : Message) (n : ℕ) → need_more_data ≢ decoded m n
waits_not_decoded m n e = cc

error_not_decoded : (x : ProtocolError) (m : Message) (n : ℕ) → error x ≢ decoded m n
error_not_decoded x m n e = cc

module _ {W : Type 0} (s : Sockets W) (fd : ℕ) (st : IsStream s fd) (fuel : ℕ) where
  open st use {incoming, outgoing, patience}

  -- The requests that were read, what is left of the stream behind them, and what is left to be sent of
  -- the answers to them.
  pub record Serves (d : FrameDecoder) (w w' : W) : Type 0 where
    pub requests : List Message
    pub rest : List ℕ
    pub unsent : List ℕ
    pub frames : All IsFrame requests
    pub read : wire requests ++ rest ≡ stream s fd st d w
    pub answered : outgoing w' ++ unsent ≡ outgoing w ++ wire (map handle_request requests)

  -- No frame is at the front of the bytes that were read and not consumed.
  abbrev pub Ends : List ℕ → W → Type 0
  Ends rest w' =
      (front : List ℕ) × (rest ≡ front ++ incoming w')
      × ((m : Message) (n : ℕ) → try_decode_frame front ≢ decoded m n)

  -- A call that returns has answered all of the requests that it read, and left no whole one unanswered.
  abbrev pub ServesAll : FrameDecoder → W → Ran W (Unit {0}) → Type 0
  ServesAll d w (done tt w') = (x : Serves d w w') × (x.unsent ≡ []) × Ends x.rest w'
  ServesAll d w (failed e w') = Serves d w w'
  ServesAll d w (wrote_zero w') = Serves d w w'
  ServesAll d w (not_encoded w') = ⊥
  ServesAll d w stuck = ⊥

  none_read : (d d' : FrameDecoder) (w w' : W) → Consumes s fd st [] d w d' w' → Serves d w w'
  none_read d d' w w' x = record {
    requests = [];
    rest = stream s fd st d' w';
    unsent = [];
    frames = tt;
    read = x.conserved;
    answered = ap (λ (t : List ℕ). t ++ []) x.unsent;
  }

  module _ (d d1 : FrameDecoder) (w w1 w2 : W) (m : Message) (is_frame : IsFrame m)
      (x : Consumes s fd st (frame m) d w d1 w1) where
    -- The answer to `m` was sent, and the loop went on from there.
    one_more :
        (w' : W)
        → outgoing w2 ≡ outgoing w1 ++ frame (handle_request m)
        → incoming w2 ≡ incoming w1
        → Serves d1 w2 w'
        → Serves d w w'
    one_more w' o i y = record {
      requests = m ∷ y.requests;
      rest = y.rest;
      unsent = y.unsent;
      frames = (is_frame, y.frames);
      read =
          append_assoc (frame m) (wire y.requests) y.rest
          ∙ ap (λ (t : List ℕ). frame m ++ t) (y.read ∙ ap (λ (t : List ℕ). pending d1 ++ t) i)
          ∙ x.conserved;
      answered =
          y.answered
          ∙ ap (λ (t : List ℕ). t ++ wire (map handle_request y.requests))
              (o ∙ ap (λ (t : List ℕ). t ++ frame (handle_request m)) x.unsent)
          ∙ append_assoc (outgoing w) (frame (handle_request m))
              (wire (map handle_request y.requests));
    }

    -- The answer to `m` was sent in part, and the loop ended.
    broken_off : Sending s fd st (frame (handle_request m)) w1 w2 → Serves d w w2
    broken_off y = record {
      requests = m ∷ [];
      rest = stream s fd st d1 w1;
      unsent = y.left;
      frames = (is_frame, tt);
      read = ap (λ (t : List ℕ). t ++ stream s fd st d1 w1) (append-nil (frame m)) ∙ x.conserved;
      answered =
          y.conserved
          ∙ ap (λ (t : List ℕ). t ++ frame (handle_request m)) x.unsent
          ∙ ap (λ (t : List ℕ). outgoing w ++ t) (sym (append-nil (frame (handle_request m))));
    }

  -- Enough fuel for one call of `ReadMessage` and one of `SendMessage`.
  abbrev Affords : FrameDecoder → W → Type 0
  Affords d w = patience w + length (stream s fd st d w) + (header_size + max_payload_size) < fuel

  -- Later rounds do what is claimed, from any state with fewer bytes to read.
  abbrev Later : (FrameDecoder → W → Ran W (Unit {0})) → ℕ → Type 0
  Later again bound =
      (d : FrameDecoder) (w : W)
      → IsDecoder d
      → length (stream s fd st d w) < bound
      → Affords d w
      → ServesAll d w (again d w)

  -- The outcome of the later rounds, once `m` has been answered.
  ServesAll-more :
      (d d1 : FrameDecoder) (w w1 w2 : W) (m : Message) (is_frame : IsFrame m)
      (x : Consumes s fd st (frame m) d w d1 w1) (r : Ran W (Unit {0}))
      → outgoing w2 ≡ outgoing w1 ++ frame (handle_request m)
      → incoming w2 ≡ incoming w1
      → ServesAll d1 w2 r
      → ServesAll d w r
  unfolding one_more
  ServesAll-more d d1 w w1 w2 m is_frame x (done tt w') o i y =
      (one_more d d1 w w1 w2 m is_frame x w' o i y.0, y.1, y.2)
  ServesAll-more d d1 w w1 w2 m is_frame x (failed e w') o i y =
      one_more d d1 w w1 w2 m is_frame x w' o i y
  ServesAll-more d d1 w w1 w2 m is_frame x (wrote_zero w') o i y =
      one_more d d1 w w1 w2 m is_frame x w' o i y
  ServesAll-more d d1 w w1 w2 m is_frame x (not_encoded w') o i y = elim y [ ]
  ServesAll-more d d1 w w1 w2 m is_frame x stuck o i y = elim y [ ]

  module _ (again : FrameDecoder → W → Ran W (Unit {0})) (d d1 : FrameDecoder) (w w1 : W)
      (m : Message) (is_frame : IsFrame m) (x : Consumes s fd st (frame m) d w d1 w1)
      (ih : Later again (length (stream s fd st d w))) (fits : Affords d w) where
    shrinks : 20 + length (stream s fd st d1 w1) ≤ length (stream s fd st d w)
    shrinks = omega (
      arith,
      ap length x.conserved,
      length-append (frame m) (stream s fd st d1 w1),
      is_frame.starts,
    )

    after_response-ServesAll :
        (r : Ran W ℕ)
        → SendsAll s fd st (frame (handle_request m)) w1 r
        → ServesAll d w (after_response again d1 r)
    unfolding after_response
    after_response-ServesAll (done n w2) h =
        let same = ap (λ (t : List ℕ). pending d1 ++ t) h.1 in
        ServesAll-more d d1 w w1 w2 m is_frame x (again d1 w2) h.0 h.1 (
          ih d1 w2 x.valid (omega (arith, shrinks, ap length same))
            (omega (arith, shrinks, ap length same, h.2, x.calm, fits)))
    after_response-ServesAll (failed e w2) h = broken_off d d1 w w1 w2 m is_frame x h
    after_response-ServesAll (wrote_zero w2) h = broken_off d d1 w w1 w2 m is_frame x h
    after_response-ServesAll (not_encoded w2) h = elim h [ ]
    after_response-ServesAll stuck h = elim h [ ]

    sends_answer :
        SendsAll s fd st
          (frame (handle_request m))
          w1
          (send_message s fuel fd (handle_request m) w1)
    unfolding send_message send_encoded
    sends_answer =
        let (bytes, e) = answer_encoded m is_frame in
        let short = (encode_message_le (handle_request m) bytes e).1 in
        subst
          (λ (o : Option (List ℕ)). SendsAll s fd st (bytes_of o) w1 (send_encoded s fuel fd o w1))
          (sym e) (send_all-SendsAll s fd st bytes fuel w1 (omega (arith, short, x.calm, fits)))

  after_request-ServesAll :
      (again : FrameDecoder → W → Ran W (Unit {0})) (d : FrameDecoder) (w : W) (r : Reading W)
      → Later again (length (stream s fd st d w))
      → Affords d w
      → ReadsMessage s fd st d w r
      → ServesAll d w (after_request s fuel fd again r)
  unfolding after_request none_read
  after_request-ServesAll again d w (done (message m) (d1, w1)) ih fits h =
      after_response-ServesAll again d d1 w w1 m h.0 h.1 ih fits
        (send_message s fuel fd (handle_request m) w1)
        (sends_answer again d d1 w w1 m h.0 h.1 ih fits)
  after_request-ServesAll again d w (done closed (d1, w1)) ih fits h = (
    none_read d d1 w w1 h.1,
    refl,
    (pending d1, refl, λ m n e. waits_not_decoded m n (sym h.0 ∙ e)),
  )
  after_request-ServesAll again d w (done (protocol_error x) (d1, w1)) ih fits h = (
    none_read d d1 w w1 h.1,
    refl,
    (pending d1, refl, λ m n e. error_not_decoded x m n (sym h.0 ∙ e)),
  )
  after_request-ServesAll again d w (failed e (d1, w1)) ih fits h = none_read d d1 w w1 h
  after_request-ServesAll again d w (wrote_zero _) ih fits h = elim h [ ]
  after_request-ServesAll again d w (not_encoded _) ih fits h = elim h [ ]
  after_request-ServesAll again d w stuck ih fits h = elim h [ ]

  serve_loop-ServesAll :
      (rounds : ℕ) (d : FrameDecoder) (w : W)
      → IsDecoder d
      → length (stream s fd st d w) < rounds
      → Affords d w
      → ServesAll d w (serve_loop s fuel fd rounds d w)
  unfolding serve_loop
  serve_loop-ServesAll zero d w v h fits = absurd (omega arith)
  serve_loop-ServesAll (suc rounds) d w v h fits =
      after_request-ServesAll (serve_loop s fuel fd rounds) d w (read_message s fuel fd d w)
        (λ d' w' v' less fits'. serve_loop-ServesAll rounds d' w' v' (omega (arith, less, h)) fits')
        fits
        (read_message-ReadsMessage s fd st fuel d w v
          (omega (arith, fits, length-append (pending d) (incoming w))))

-- `ServeClient` returns or throws, given more rounds than there are bytes to read, and in each of them
-- fuel for these, the interrupted calls and a frame. The requests that it reads are the frames at the
-- front of what the client sends, and it sends the answers to exactly these requests, in order: all of
-- them when it returns, and then no whole frame is among the bytes read behind them; a front of their
-- bytes when it throws. It never fails to encode an answer.
pub serve_client-ServesAll :
    {W : Type 0} (s : Sockets W) (fd : ℕ) (st : IsStream s fd) (rounds fuel : ℕ) (w : W)
    → length (st.incoming w) < rounds
    → st.patience w + length (st.incoming w) + (header_size + max_payload_size) < fuel
    → ServesAll s fd st fuel new_decoder w (serve_client s rounds fuel fd w)
unfolding serve_client
serve_client-ServesAll s fd st rounds fuel w h fits =
    serve_loop-ServesAll s fd st fuel rounds new_decoder w new_decoder-IsDecoder h fits
