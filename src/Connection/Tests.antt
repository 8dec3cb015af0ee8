-- ===== src/Connection/Tests.antt =====
-- Concrete connections over a socket that has some bytes to read and accepts all that is sent.
use pulse_core.Base.{
  ℕ, ◌<◌, ◌≡◌, refl, sym, ap, ◌∙◌, none, some, List, [], ◌∷◌, ◌++◌, All, All-take, All-drop, length,
  take, drop, arith, append-nil, take-append-drop, length-take-le,
}
use pulse_core.Codec.{IsByte, FrameDecoder, new_decoder, append, pending, buffered_size}
use pulse_core.Codec.Stream.{IsDecoder}
use pulse_core.Codec.Tests.{ping, ping_front, ping_back, ping_bytes, ping-IsMessage, ping_encoded}
use pulse_core.Sockets.{
  eintr, eagain, Received, received, recv_failed, sent, send_failed, Sockets, IsStream, Receives,
}
use pulse_core.Connection.{
  Connection, default_limits, queue_output, drain_decoder, read_available, write_available,
}
use pulse_core.Connection.Chunks.{feed, feed-wire}
use pulse_core.Connection.Drain.{IsFrame, frame, bytes_of, Drains, drain_decoder-Drains}
use pulse_core.Connection.Output.{
  IsConnection, Queues, queue_output-Queues, queue_output-IsConnection,
}
use pulse_core.Connection.Read.{Reads}
use pulse_core.Connection.Read.Loop.{read_available-Reads}
use pulse_core.Connection.Write.{Wrote}
use pulse_core.Connection.Write.Loop.{write_available-Wrote}

-- The bytes that are still to be read, and those that were sent.
pub record World : Type 0 where
  pub unread : List ℕ
  pub bytes : All IsByte unread
  pub accepted : List ℕ

-- `recv` on what is unread: nothing there is `EAGAIN`.
unfoldable pub read_some : ℕ → (unread : List ℕ) → All IsByte unread → List ℕ → Received × World
read_some n [] bytes accepted =
    (recv_failed eagain, record { unread = []; bytes = bytes; accepted = accepted })
read_some n (b ∷ rest) bytes accepted = (
  received (take n (b ∷ rest)),
  record {
    unread = drop n (b ∷ rest);
    bytes = All-drop IsByte n (b ∷ rest) bytes;
    accepted = accepted;
  },
)

abbrev pub sockets : Sockets World
sockets = record {
  recv = λ fd n w. read_some n w.unread w.bytes w.accepted;
  send = λ fd bytes w. (sent (length bytes), record w { accepted = w.accepted ++ bytes });
}

pub read_some-Receives :
    (n : ℕ) (unread : List ℕ) (bytes : All IsByte unread) (accepted : List ℕ)
    → Receives n unread
        (read_some n unread bytes accepted).0
        (read_some n unread bytes accepted).1.unread
unfolding read_some
read_some-Receives n [] bytes accepted = refl
read_some-Receives n (b ∷ rest) bytes accepted = (
  sym (take-append-drop n (b ∷ rest)),
  length-take-le n (b ∷ rest),
  All-take IsByte n (b ∷ rest) bytes,
)

pub read_some_keeps :
    (n : ℕ) (unread : List ℕ) (bytes : All IsByte unread) (accepted : List ℕ)
    → (read_some n unread bytes accepted).1.accepted ≡ accepted
unfolding read_some
read_some_keeps n [] bytes accepted = refl
read_some_keeps n (b ∷ rest) bytes accepted = refl

pub read_some_calm :
    (n : ℕ) (unread : List ℕ) (bytes : All IsByte unread) (accepted : List ℕ)
    → (read_some n unread bytes accepted).0 ≡ recv_failed eintr
    → 0 < 0
unfolding read_some
read_some_calm n [] bytes accepted e = cc
read_some_calm n (b ∷ rest) bytes accepted e = cc

pub all_taken : (bytes : List ℕ) → take (length bytes) bytes ≡ bytes
all_taken [] = refl
all_taken (b ∷ bytes) = ap (λ (t : List ℕ). b ∷ t) (all_taken bytes)

pub never : (n : ℕ) → sent n ≡ send_failed eintr → 0 < 0
never n e = cc

abbrev pub stream : IsStream sockets 3
stream = record {
  incoming = λ w. w.unread;
  outgoing = λ w. w.accepted;
  patience = λ w. 0;
  recv_takes = λ n w. read_some-Receives n w.unread w.bytes w.accepted;
  send_puts =
      λ bytes w. (omega arith, ap (λ (t : List ℕ). w.accepted ++ t) (sym (all_taken bytes)));
  recv_keeps = λ n w. read_some_keeps n w.unread w.bytes w.accepted;
  send_keeps = λ bytes w. refl;
  recv_patience = λ n w e. read_some_calm n w.unread w.bytes w.accepted e;
  send_patience = λ bytes w e. never (length bytes) e;
  recv_calm = λ n w. omega arith;
  send_calm = λ bytes w. omega arith;
}

abbrev opened : Connection
opened = record {
  id = 1;
  fd = 3;
  limits = default_limits;
  decoder = new_decoder;
  output_buffer = [];
  output_offset = 0;
}

opened-IsConnection : IsConnection opened
unfolding buffered_size
opened-IsConnection = omega arith

-- A frame is unread, and the first byte of another.
abbrev pub arrived : World
arrived = record { unread = ping_bytes ++ (80 ∷ []); bytes = omega arith; accepted = [] }

read_available-Reads_example :
    Reads sockets 3 stream 100 opened arrived 0 [] (read_available sockets 200 opened 100 arrived)
read_available-Reads_example =
    read_available-Reads sockets opened stream 100 200 arrived opened-IsConnection (omega arith)

-- Some bytes are queued, the first of them sent.
abbrev queued : Connection
queued = record opened { output_buffer = 1 ∷ 2 ∷ 3 ∷ []; output_offset = 1 }

queued-IsConnection : IsConnection queued
unfolding buffered_size
queued-IsConnection = omega arith

write_available-Wrote_example :
    Wrote sockets 3 stream 2 queued arrived 0 (write_available sockets 9 queued 2 arrived)
write_available-Wrote_example =
    write_available-Wrote sockets queued stream 2 9 arrived queued-IsConnection (omega arith)

queue_output-Queues_example : Queues queued ping (queue_output queued ping)
queue_output-Queues_example = queue_output-Queues queued ping queued-IsConnection

queue_output-IsConnection_example : IsConnection (queue_output queued ping).1
queue_output-IsConnection_example = queue_output-IsConnection queued ping queued-IsConnection

abbrev loaded : FrameDecoder
loaded = append new_decoder (ping_bytes ++ (80 ∷ []))

loaded-IsDecoder : IsDecoder loaded
unfolding append
loaded-IsDecoder = omega arith

drain_decoder-Drains_example : Drains loaded [] (drain_decoder loaded [])
drain_decoder-Drains_example = drain_decoder-Drains loaded [] loaded-IsDecoder

frame-ping : frame ping ≡ ping_bytes
frame-ping = ap bytes_of ping_encoded

ping-IsFrame : IsFrame ping
ping-IsFrame = record {
  message = ping-IsMessage;
  encodes = ping_encoded ∙ ap some (sym frame-ping);
  starts = omega (arith, ap length frame-ping);
}

feed-wire_example :
    (d : FrameDecoder) × (feed new_decoder [] (ping_front ∷ ping_back ∷ [])
      ≡ some (none, ping ∷ [], d))
    × (pending d ≡ [])
feed-wire_example =
    feed-wire (ping ∷ []) (ping_front ∷ ping_back ∷ []) (ping-IsFrame, tt) (omega arith)
      (sym (append-nil (frame ping) ∙ frame-ping))
