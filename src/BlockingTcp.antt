-- ===== src/BlockingTcp.antt =====
-- src/network/blocking_tcp.cpp and include/pulsecore/network/blocking_tcp.hpp: the blocking server's and
-- client's exchange of messages over a connected socket. `failed` and `wrote_zero` are exceptions;
-- `stuck` is no C++ outcome: the fuel ran out.
pub mod Send
pub mod Receive
pub mod Serve
pub mod Exchange
mod Tests
use pulse_core.Base.{
  ℕ, zero, suc, ◌+◌, Option, none, some, List, [], ◌∷◌, ltb, if◌then◌else◌, length, drop,
}
use pulse_core.Codec.{
  Message, ProtocolError, DecodeResult, need_more_data, decoded, error, encode_message,
  FrameDecoder, new_decoder, append, next,
}
use pulse_core.Handler.{handle_request}
use pulse_core.Sockets.{
  Errno, eintr, Received, received, recv_failed, Sent, sent, send_failed, Sockets,
}

-- Each status with what its factory function sets.
pub data ReadMessageResult : Type 0 where
  message : Message → ReadMessageResult
  closed : ReadMessageResult
  protocol_error : ProtocolError → ReadMessageResult

-- `S` is the state that the call leaves, `A` what it returns.
pub data Ran (S A : Type 0) : Type 0 where
  done : A → S → Ran S A
  failed : Errno → S → Ran S A
  wrote_zero not_encoded : S → Ran S A
  stuck : Ran S A

abbrev receive_size : ℕ
receive_size = 4096

abbrev pub Reading : Type 0 → Type 0
Reading W = Ran (FrameDecoder × W) ReadMessageResult

module _ {W : Type 0} where
  -- The part of a round after `send`; `again` is the next round. The result is the offset reached.
  after_send_all : (ℕ → W → Ran W ℕ) → ℕ → Sent × W → Ran W ℕ
  after_send_all again offset (sent zero, w) = wrote_zero w
  after_send_all again offset (sent (suc n), w) = again (offset + suc n) w
  after_send_all again offset (send_failed eintr, w) = again offset w
  after_send_all again offset (send_failed e, w) = failed e w

  send_all_loop : Sockets W → ℕ → List ℕ → ℕ → ℕ → W → Ran W ℕ
  send_all_loop s fd bytes zero offset w = stuck
  send_all_loop s fd bytes (suc fuel) offset w =
      let attempt =
        after_send_all (send_all_loop s fd bytes fuel) offset (s.send fd (drop offset bytes) w) in
      if ltb offset (length bytes) then attempt else done offset w

  unfoldable pub send_all : Sockets W → ℕ → ℕ → List ℕ → W → Ran W ℕ
  unfolding send_all_loop after_send_all
  send_all s fuel fd bytes w = send_all_loop s fd bytes fuel 0 w

  send_encoded : Sockets W → ℕ → ℕ → Option (List ℕ) → W → Ran W ℕ
  send_encoded s fuel fd none w = not_encoded w
  send_encoded s fuel fd (some bytes) w = send_all s fuel fd bytes w

  unfoldable pub send_message : Sockets W → ℕ → ℕ → Message → W → Ran W ℕ
  unfolding send_encoded
  send_message s fuel fd m w = send_encoded s fuel fd (encode_message m) w

  -- The part of a round after `recv`; `again` is the next round.
  after_read : (FrameDecoder → W → Reading W) → FrameDecoder → Received × W → Reading W
  after_read again d (received [], w) = done closed (d, w)
  after_read again d (received (b ∷ bytes), w) = again (append d (b ∷ bytes)) w
  after_read again d (recv_failed eintr, w) = again d w
  after_read again d (recv_failed e, w) = failed e (d, w)

  -- A round, by what `Next` returns.
  after_next :
      Sockets W → ℕ → (FrameDecoder → W → Reading W) → W → DecodeResult × FrameDecoder → Reading W
  after_next s fd again w (decoded m n, d) = done (message m) (d, w)
  after_next s fd again w (error e, d) = done (protocol_error e) (d, w)
  after_next s fd again w (need_more_data, d) = after_read again d (s.recv fd receive_size w)

  read_loop : Sockets W → ℕ → ℕ → FrameDecoder → W → Reading W
  read_loop s fd zero d w = stuck
  read_loop s fd (suc fuel) d w = after_next s fd (read_loop s fd fuel) w (next d)

  unfoldable pub read_message : Sockets W → ℕ → ℕ → FrameDecoder → W → Reading W
  unfolding read_loop after_next after_read
  read_message s fuel fd d w = read_loop s fd fuel d w

  -- `ServeClient` after `SendMessage`, and after `ReadMessage`; `again` is the next round.
  after_response : (FrameDecoder → W → Ran W (Unit {0})) → FrameDecoder → Ran W ℕ → Ran W (Unit {0})
  after_response again d (done n w) = again d w
  after_response again d (failed e w) = failed e w
  after_response again d (wrote_zero w) = wrote_zero w
  after_response again d (not_encoded w) = not_encoded w
  after_response again d stuck = stuck

  after_request :
      Sockets W → ℕ → ℕ → (FrameDecoder → W → Ran W (Unit {0})) → Reading W → Ran W (Unit {0})
  after_request s fuel fd again (done (message m) (d, w)) =
      after_response again d (send_message s fuel fd (handle_request m) w)
  after_request s fuel fd again (done closed (d, w)) = done tt w
  after_request s fuel fd again (done (protocol_error e) (d, w)) = done tt w
  after_request s fuel fd again (failed e (d, w)) = failed e w
  after_request s fuel fd again (wrote_zero (d, w)) = wrote_zero w
  after_request s fuel fd again (not_encoded (d, w)) = not_encoded w
  after_request s fuel fd again stuck = stuck

  serve_loop : Sockets W → ℕ → ℕ → ℕ → FrameDecoder → W → Ran W (Unit {0})
  serve_loop s fuel fd zero d w = stuck
  serve_loop s fuel fd (suc rounds) d w =
      after_request s fuel fd (serve_loop s fuel fd rounds) (read_message s fuel fd d w)

  unfoldable pub serve_client : Sockets W → ℕ → ℕ → ℕ → W → Ran W (Unit {0})
  unfolding serve_loop after_request after_response
  serve_client s rounds fuel fd w = serve_loop s fuel fd rounds new_decoder w
