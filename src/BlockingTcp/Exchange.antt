-- ===== src/BlockingTcp/Exchange.antt =====
-- `SendRequestAndReadResponse` of src/network/blocking_tcp.cpp, on a socket that is connected.
use pulse_core.Base.{
  ℕ, ◌+◌, ◌<◌, ◌≡◌, refl, sym, ap, subst, ◌∙◌, Option, none, List, [], ◌++◌, arith, length,
  Option-cases, inl, inr, append-nil,
}
use pulse_core.Codec.{Message, new_decoder, pending, encode_message, header_size, max_payload_size}
use pulse_core.Codec.Decode.{encode_message_le}
use pulse_core.Codec.Stream.{new_decoder-IsDecoder}
use pulse_core.Connection.Drain.{IsFrame, frame, bytes_of}
use pulse_core.Sockets.{Errno, Sockets, IsStream}
use pulse_core.BlockingTcp.{
  message, closed, protocol_error, Ran, done, failed, wrote_zero, not_encoded, stuck, Reading,
  read_message, send_encoded, send_message,
}
use pulse_core.BlockingTcp.Send.{SendsAll, send_all-SendsAll}
use pulse_core.BlockingTcp.Receive.{ReadsMessage, read_message-ReadsMessage}

-- The response, or the exception; `no_fuel` is no C++ outcome.
pub data Exchanged (W : Type 0) : Type 0 where
  response : Message → W → Exchanged W
  closed_before_response protocol_broken sent_zero cannot_encode : W → Exchanged W
  call_failed : Errno → W → Exchanged W
  no_fuel : Exchanged W

module _ {W : Type 0} where
  after_reading : Reading W → Exchanged W
  after_reading (done (message m) (d, w)) = response m w
  after_reading (done closed (d, w)) = closed_before_response w
  after_reading (done (protocol_error e) (d, w)) = protocol_broken w
  after_reading (failed e (d, w)) = call_failed e w
  after_reading (wrote_zero (d, w)) = sent_zero w
  after_reading (not_encoded (d, w)) = cannot_encode w
  after_reading stuck = no_fuel

  after_sending : Sockets W → ℕ → ℕ → Ran W ℕ → Exchanged W
  after_sending s fuel fd (done n w) = after_reading (read_message s fuel fd new_decoder w)
  after_sending s fuel fd (failed e w) = call_failed e w
  after_sending s fuel fd (wrote_zero w) = sent_zero w
  after_sending s fuel fd (not_encoded w) = cannot_encode w
  after_sending s fuel fd stuck = no_fuel

  unfoldable pub send_request_and_read_response : Sockets W → ℕ → ℕ → Message → W → Exchanged W
  unfolding after_sending after_reading
  send_request_and_read_response s fuel fd request w =
      after_sending s fuel fd (send_message s fuel fd request w)

module _ {W : Type 0} (s : Sockets W) (fd : ℕ) (st : IsStream s fd) (request : Message)
    (w : W) where
  open st use {incoming, outgoing, patience}

  -- A response comes after the whole request, and is the first frame that arrives. Only a request that
  -- has no encoding is refused, and then nothing is sent.
  abbrev pub Exchanges : Exchanged W → Type 0
  Exchanges (response m w') =
      (outgoing w' ≡ outgoing w ++ frame request)
      × IsFrame m
      × ((kept : List ℕ) × (frame m ++ (kept ++ incoming w') ≡ incoming w))
  Exchanges (closed_before_response w') = outgoing w' ≡ outgoing w ++ frame request
  Exchanges (protocol_broken w') = outgoing w' ≡ outgoing w ++ frame request
  Exchanges (sent_zero w') = (left : List ℕ) × (outgoing w' ++ left ≡ outgoing w ++ frame request)
  Exchanges (call_failed e w') =
      (left : List ℕ) × (outgoing w' ++ left ≡ outgoing w ++ frame request)
  Exchanges (cannot_encode w') = (encode_message request ≡ none) × (w' ≡ w)
  Exchanges no_fuel = ⊥

  after_reading-Exchanges :
      (w1 : W) (r : Reading W)
      → outgoing w1 ≡ outgoing w ++ frame request
      → incoming w1 ≡ incoming w
      → ReadsMessage s fd st new_decoder w1 r
      → Exchanges (after_reading r)
  unfolding after_reading
  after_reading-Exchanges w1 (done (message m) (d, w')) o i h =
      (h.1.unsent ∙ o, h.0, (pending d, h.1.conserved ∙ i))
  after_reading-Exchanges w1 (done closed (d, w')) o i h = h.1.unsent ∙ o
  after_reading-Exchanges w1 (done (protocol_error e) (d, w')) o i h = h.1.unsent ∙ o
  after_reading-Exchanges w1 (failed e (d, w')) o i h =
      ([], append-nil (outgoing w') ∙ h.unsent ∙ o)
  after_reading-Exchanges w1 (wrote_zero _) o i h = elim h [ ]
  after_reading-Exchanges w1 (not_encoded _) o i h = elim h [ ]
  after_reading-Exchanges w1 stuck o i h = elim h [ ]

  after_sending-Exchanges :
      (fuel : ℕ) (r : Ran W ℕ)
      → patience w + length (incoming w) < fuel
      → SendsAll s fd st (frame request) w r
      → Exchanges (after_sending s fuel fd r)
  unfolding after_sending
  after_sending-Exchanges fuel (done n w1) h x =
      after_reading-Exchanges w1 (read_message s fuel fd new_decoder w1) x.0 x.1 (
        read_message-ReadsMessage s fd st fuel new_decoder w1 new_decoder-IsDecoder
          (omega (arith, h, x.2, ap length x.1)))
  after_sending-Exchanges fuel (failed e w1) h x = (x.left, x.conserved)
  after_sending-Exchanges fuel (wrote_zero w1) h x = (x.left, x.conserved)
  after_sending-Exchanges fuel (not_encoded w1) h x = elim x [ ]
  after_sending-Exchanges fuel stuck h x = elim x [ ]

-- `SendRequestAndReadResponse` on a connected socket returns or throws, given fuel for the interrupted
-- calls, the bytes that arrive and a frame. A response that it returns comes after the whole request was
-- sent, and its frame is the first of what arrives; an exception of a call comes after a front of the
-- request, and a request that has no encoding is refused before anything is sent.
pub send_request-Exchanges :
    {W : Type 0} (s : Sockets W) (fd : ℕ) (st : IsStream s fd) (request : Message) (fuel : ℕ)
    (w : W)
    → st.patience w + length (st.incoming w) + (header_size + max_payload_size) < fuel
    → Exchanges s fd st request w (send_request_and_read_response s fuel fd request w)
unfolding send_request_and_read_response send_message send_encoded
send_request-Exchanges s fd st request fuel w h = elim (Option-cases (encode_message request)) [
  | inl e ↦
      subst
        (λ (o : Option (List ℕ)).
          Exchanges s fd st request w (after_sending s fuel fd (send_encoded s fuel fd o w)))
        (sym e) (e, refl)
  | inr (bytes, e) ↦
      let short = (encode_message_le request bytes e).1 in
      after_sending-Exchanges s fd st request w fuel (send_message s fuel fd request w)
        (omega (arith, h))
        (subst
          (λ (o : Option (List ℕ)). SendsAll s fd st (bytes_of o) w (send_encoded s fuel fd o w))
          (sym e) (send_all-SendsAll s fd st bytes fuel w (omega (arith, h, short))))
]
