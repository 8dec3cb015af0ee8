-- ===== src/Connection.antt =====
-- src/network/connection.cpp and include/pulsecore/network/connection.hpp: one non-blocking
-- connection. A method returns what it returns in the source, the new connection and the new state
-- of the operating system; `threw` is an exception, and `stuck` is no C++ outcome: the fuel ran out.
pub mod Drain
pub mod Chunks
pub mod Output
pub mod Write
pub mod Read
pub mod Frame
pub mod Tests
use pulse_core.Base.{
  ℕ, zero, suc, ◌+◌, ◌-◌, ◌*◌, ◌<◌, min, Bool, true, false, not, ◌||◌, Option, none, some, List, [],
  ◌∷◌, ◌++◌, ltb, leb, ◌==◌, if◌then◌else◌, length, take, drop,
}
use pulse_core.Codec.{
  Message, ProtocolError, payload_too_large, DecodeResult, need_more_data, decoded, error,
  header_size, max_payload_size, encode_message, FrameDecoder, new_decoder, append, next, pending,
  buffered_size,
}
use pulse_core.Sockets.{
  Errno, eintr, eagain, ewouldblock, econnreset, epipe, Received, received, recv_failed, Sent, sent,
  send_failed, Sockets,
}

pub record ConnectionLimits : Type 0 where
  pub max_input_buffer : ℕ
  pub max_output_buffer : ℕ

abbrev pub default_limits : ConnectionLimits
default_limits = record {
  max_input_buffer = header_size + max_payload_size;
  max_output_buffer = header_size + max_payload_size;
}

-- Each status with what its factory function sets.
pub data ReadAvailableResult : Type 0 where
  ok : List Message → ReadAvailableResult
  would_block : ReadAvailableResult
  peer_closed : List Message → ReadAvailableResult
  protocol_error : ProtocolError → List Message → ReadAvailableResult

pub data WriteAvailableStatus : Type 0 where
  write_ok write_would_block write_peer_closed : WriteAvailableStatus

pub record WriteAvailableResult : Type 0 where
  pub status : WriteAvailableStatus
  pub bytes_written : ℕ

-- `fd` is the descriptor that the connection's `UniqueFd` owns.
pub record Connection : Type 0 where
  pub id : ℕ
  pub fd : ℕ
  pub limits : ConnectionLimits
  pub decoder : FrameDecoder
  pub output_buffer : List ℕ
  pub output_offset : ℕ

unfoldable pub new_connection : ℕ → ℕ → ConnectionLimits → Connection
new_connection id fd limits = record {
  id = id;
  fd = fd;
  limits = limits;
  decoder = new_decoder;
  output_buffer = [];
  output_offset = 0;
}

pub data Outcome (W A : Type 0) : Type 0 where
  returned : A → Connection → W → Outcome W A
  threw : Errno → Connection → W → Outcome W A
  stuck : Outcome W A

unfoldable pub is_would_block : Errno → Bool
is_would_block eagain = true
is_would_block ewouldblock = true
is_would_block _ = false

unfoldable pub is_peer_closed_error : Errno → Bool
is_peer_closed_error econnreset = true
is_peer_closed_error epipe = true
is_peer_closed_error _ = false

unfoldable pub pending_output_bytes : Connection → ℕ
pending_output_bytes c = length c.output_buffer - c.output_offset

unfoldable pub has_pending_output : Connection → Bool
unfolding pending_output_bytes
has_pending_output c = ltb 0 (pending_output_bytes c)

unfoldable pub output_storage_bytes : Connection → ℕ
output_storage_bytes c = length c.output_buffer

unfoldable pub buffered_input_bytes : Connection → ℕ
buffered_input_bytes c = buffered_size c.decoder

-- One round of `DrainDecoder` on what `Next` returned; `again` makes the next round.
abbrev Drained : Type 0
Drained = Option (Option ProtocolError × List Message × FrameDecoder)

drain_step :
    (FrameDecoder → List Message → Drained) → List Message → DecodeResult × FrameDecoder → Drained
drain_step again messages (need_more_data, d) = some (none, messages, d)
drain_step again messages (error e, d) = some (some e, messages, d)
drain_step again messages (decoded m n, d) = again d (messages ++ (m ∷ []))

-- `none` is no outcome of the source: the fuel ran out.
drain_loop : ℕ → FrameDecoder → List Message → Drained
drain_loop zero d messages = none
drain_loop (suc fuel) d messages = drain_step (drain_loop fuel) messages (next d)

-- Every message takes a byte at least, so one round more than there are pending bytes is enough.
unfoldable pub drain_decoder : FrameDecoder → List Message → Drained
unfolding drain_loop drain_step
drain_decoder d messages = drain_loop (suc (length (pending d))) d messages

unfoldable pub compact_output_buffer : Connection → Connection
compact_output_buffer c =
    if c.output_offset == 0
    then c
    else if leb (length c.output_buffer) c.output_offset
    then record c { output_buffer = []; output_offset = 0 }
    else record c { output_buffer = drop c.output_offset c.output_buffer; output_offset = 0 }

store_output : Connection → List ℕ → Bool × Connection
unfolding pending_output_bytes
store_output c encoded =
    let waiting = pending_output_bytes c in
    if ltb c.limits.max_output_buffer waiting
    then (false, c)
    else if ltb (c.limits.max_output_buffer - waiting) (length encoded)
    then (false, c)
    else if waiting == 0
    then (true, record c { output_buffer = encoded; output_offset = 0 })
    else (true, record c { output_buffer = c.output_buffer ++ encoded })

unfoldable pub queue_output : Connection → Message → Bool × Connection
unfolding store_output
queue_output c message = elim (encode_message message) [
  | none ↦ (false, c)
  | some encoded ↦ store_output (compact_output_buffer c) encoded
]

abbrev pub chunk_size : ℕ
chunk_size = 4096

abbrev is_empty : List Message → Bool
is_empty [] = true
is_empty (m ∷ ms) = false

-- `std::min` of the array's size, the read budget and the input space.
abbrev pub bytes_to_read : Connection → ℕ → ℕ → ℕ
bytes_to_read c budget total =
    min (min chunk_size (budget - total)) (c.limits.max_input_buffer - buffered_size c.decoder)

abbrev write_result : WriteAvailableStatus → ℕ → WriteAvailableResult
write_result status written = record { status = status; bytes_written = written }

module _ {W : Type 0} where
  -- The part of a round after `recv`; `again` is the next round.
  pub after_recv :
      (Connection → ℕ → Bool → List Message → W → Outcome W ReadAvailableResult)
      → Connection
      → ℕ
      → Bool
      → List Message
      → Received × W
      → Outcome W ReadAvailableResult
  after_recv again c total progress messages (received [], w) = returned (peer_closed messages) c w
  after_recv again c total progress messages (received (b ∷ bytes), w) =
      again (record c { decoder = append c.decoder (b ∷ bytes) }) (total + length (b ∷ bytes)) true
        messages w
  after_recv again c total progress messages (recv_failed eintr, w) =
      again c total progress messages w
  after_recv again c total progress messages (recv_failed e, w) =
      if is_would_block e
      then returned (if progress || not (is_empty messages) then ok messages else would_block) c w
      else if is_peer_closed_error e
      then returned (peer_closed messages) c w
      else threw e c w

  -- The part of a round after `DrainDecoder`.
  after_drain :
      Sockets W
      → (Connection → ℕ → Bool → List Message → W → Outcome W ReadAvailableResult)
      → Connection
      → ℕ
      → ℕ
      → Bool
      → W
      → Drained
      → Outcome W ReadAvailableResult
  after_drain s again c budget total progress w none = stuck
  after_drain s again c budget total progress w (some (some e, messages, d)) =
      returned (protocol_error e messages) (record c { decoder = d }) w
  after_drain s again c budget total progress w (some (none, messages, d)) =
      let c' = record c { decoder = d } in
      let attempt =
        after_recv again c' total progress messages
          (s.recv c'.fd (bytes_to_read c' budget total) w) in
      if leb budget total
      then returned (ok messages) c' w
      else if leb c'.limits.max_input_buffer (buffered_size d)
      then returned (protocol_error payload_too_large messages) c' w
      else attempt

  read_loop :
      Sockets W → ℕ → ℕ → Connection → ℕ → Bool → List Message → W → Outcome W ReadAvailableResult
  read_loop s zero budget c total progress messages w = stuck
  read_loop s (suc fuel) budget c total progress messages w =
      after_drain s (read_loop s fuel budget) c budget total progress w
        (drain_decoder c.decoder messages)

  unfoldable pub read_available : Sockets W → ℕ → Connection → ℕ → W → Outcome W ReadAvailableResult
  unfolding read_loop after_drain after_recv
  read_available s fuel c budget w = read_loop s fuel budget c 0 false [] w

  -- The part of a round after `send`.
  after_send :
      (Connection → ℕ → W → Outcome W WriteAvailableResult)
      → Connection
      → ℕ
      → Sent × W
      → Outcome W WriteAvailableResult
  after_send again c written (sent zero, w) = returned (write_result write_would_block written) c w
  after_send again c written (sent (suc n), w) =
      again (record c { output_offset = c.output_offset + suc n }) (written + suc n) w
  after_send again c written (send_failed eintr, w) = again c written w
  after_send again c written (send_failed e, w) =
      if is_would_block e
      then returned (write_result write_would_block written) c w
      else if is_peer_closed_error e
      then returned (write_result write_peer_closed written) c w
      else threw e c w

  write_loop : Sockets W → ℕ → ℕ → Connection → ℕ → W → Outcome W WriteAvailableResult
  write_loop s zero budget c written w = stuck
  write_loop s (suc fuel) budget c written w =
      let waiting = length c.output_buffer - c.output_offset in
      let bytes = take (min waiting (budget - written)) (drop c.output_offset c.output_buffer) in
      let attempt = after_send (write_loop s fuel budget) c written (s.send c.fd bytes w) in
      if ltb c.output_offset (length c.output_buffer)
      then (if leb budget written then returned (write_result write_ok written) c w else attempt)
      else returned (write_result write_ok written)
          (record c { output_buffer = []; output_offset = 0 }) w

  unfoldable pub write_available :
      Sockets W → ℕ → Connection → ℕ → W → Outcome W WriteAvailableResult
  unfolding write_loop after_send
  write_available s fuel c budget w = write_loop s fuel budget c 0 w
