-- ===== src/Connection/Read.antt =====
-- `ReadAvailable` of src/network/connection.cpp: its states and results, as relations.
mod Recv
pub mod Loop
use pulse_core.Base.{
  ℕ, zero, suc, ◌+◌, ◌-◌, ◌≤◌, ◌<◌, ◌≡◌, ◌≢◌, refl, sym, ap, subst, ◌∙◌, min, Bool, true, false,
  not, ◌||◌, Option, none, some, List, [], ◌∷◌, ◌++◌, inl, inr, ◌⊎◌, append_assoc, append-nil,
  arith, leb, leb→le, leb→lt, ltb, Bool-cases, if◌then◌else◌, length, length-append, All,
  All-append,
}
use pulse_core.Codec.{
  IsByte, Message, ProtocolError, payload_too_large, need_more_data, error, header_size,
  max_payload_size, FrameDecoder, append, pending, buffered_size, try_decode_frame,
}
use pulse_core.Codec.Stream.{
  IsDecoder, append-IsDecoder, pending-append, pending-IsByte, buffered_size-pending,
}
use pulse_core.Sockets.{
  Errno, eintr, eagain, ewouldblock, econnreset, epipe, enoent, other_error, Received, received,
  recv_failed, Receives, Sockets, IsStream,
}
use pulse_core.Connection.{
  Connection, Outcome, returned, threw, stuck, ReadAvailableResult, ok, would_block, peer_closed,
  protocol_error, is_would_block, is_peer_closed_error, is_empty, bytes_to_read, Drained,
  drain_decoder, after_recv, after_drain, read_loop, read_available,
}
use pulse_core.Connection.Drain.{wire, wire-append, IsFrame, Settles, Drains, drain_decoder-Drains}
use pulse_core.Connection.Output.{IsConnection}

abbrev pub messages : ReadAvailableResult → List Message
messages (ok ms) = ms
messages would_block = []
messages (peer_closed ms) = ms
messages (protocol_error e ms) = ms

-- No whole frame and no error is at the front of the bytes that are kept.
abbrev pub Waits : Connection → Type 0
Waits c = try_decode_frame (pending c.decoder) ≡ need_more_data

-- An error of `recv` that is neither an interruption, nor a call that would block, nor a reset.
abbrev pub Unexpected : Errno → Type 0
Unexpected enoent = Unit {0}
Unexpected (other_error n) = Unit {0}
Unexpected e = ⊥

module _ {W : Type 0} (s : Sockets W) (fd : ℕ) (st : IsStream s fd) (budget : ℕ) where
  open st use {incoming, outgoing, patience}

  -- The call of `recv` that led to the state `w'` found no byte to read yet. The sockets are any, also
  -- ones whose state records every call, so this call is the last one made.
  abbrev pub Blocked : W → Type 0
  Blocked w' =
      (n : ℕ) × (v : W) × ((s.recv fd n v ≡ (recv_failed eagain, w'))
        ⊎ (s.recv fd n v ≡ (recv_failed ewouldblock, w')))

  -- It found the end of the stream, where it had asked for a byte at least, or a connection that was
  -- reset.
  abbrev pub Closed : W → Type 0
  Closed w' =
      (n : ℕ) × (v : W) × (((1 ≤ n) × (s.recv fd n v ≡ (received [], w')))
        ⊎ ((s.recv fd n v ≡ (recv_failed econnreset, w'))
            ⊎ (s.recv fd n v ≡ (recv_failed epipe, w'))))

  -- It failed with this error, which is none of those above.
  abbrev pub Failed : Errno → W → Type 0
  Failed e w' = Unexpected e × (n : ℕ) × (v : W) × (s.recv fd n v ≡ (recv_failed e, w'))

  -- What each status says, after `count` bytes are read. `kOk`: the budget is used up, or `recv` would
  -- block after a byte or a message. `kWouldBlock`: `recv` would block, with no byte and no message.
  -- `kPeerClosed`: `recv` found the end or a reset. A protocol error is a malformed frame at the front,
  -- or, with budget left, one that the input buffer cannot hold; any other status leaves no frame
  -- undecoded.
  abbrev pub Explains : ReadAvailableResult → Connection → W → ℕ → Type 0
  Explains (ok ms) c w' count =
      Waits c × ((count ≡ budget) ⊎ (Blocked w' × ((1 ≤ count) ⊎ (ms ≢ []))))
  Explains would_block c w' count = Waits c × Blocked w' × (count ≡ 0)
  Explains (peer_closed ms) c w' count = Waits c × Closed w'
  Explains (protocol_error e ms) c w' count =
      (try_decode_frame (pending c.decoder) ≡ error e)
      ⊎ ((e ≡ payload_too_large)
          × (count < budget)
          × Waits c
          × (c.limits.max_input_buffer ≤ buffered_size c.decoder))

  -- From one state to a later one, `ms` growing to `ms'`: the frames of the new messages, the bytes
  -- kept and those unread are together what was kept and unread before; nothing else changes.
  pub record Advances (c : Connection) (w : W) (total : ℕ) (ms : List Message) (ms' : List Message)
      (c' : Connection) (w' : W) : Type 0 where
    pub fresh : List Message
    pub grown : ms' ≡ ms ++ fresh
    pub frames : All IsFrame fresh
    pub valid : IsConnection c'
    pub conserved :
        wire fresh ++ (pending c'.decoder ++ incoming w') ≡ pending c.decoder ++ incoming w
    pub in_budget : total + length (incoming w) ≤ budget + length (incoming w')
    pub same_id : c'.id ≡ c.id
    pub same_fd : c'.fd ≡ c.fd
    pub same_limits : c'.limits ≡ c.limits
    pub same_output : c'.output_buffer ≡ c.output_buffer
    pub same_offset : c'.output_offset ≡ c.output_offset
    pub unsent : outgoing w' ≡ outgoing w

  pub record Result (c : Connection) (w : W) (total : ℕ) (ms : List Message)
      (r : ReadAvailableResult) (c' : Connection) (w' : W) : Type 0 where
    pub advances : Advances c w total ms (messages r) c' w'
    pub count : ℕ
    pub counted : count + length (incoming w') ≡ total + length (incoming w)
    pub explained : Explains r c' w' count

  -- An exception is an error of `recv`; it loses the messages, and nothing else.
  abbrev pub Throws : Connection → W → ℕ → List Message → Errno → Connection → W → Type 0
  Throws c w total ms e c' w' = (ms' : List Message) × Advances c w total ms ms' c' w' × Failed e w'

  abbrev pub Reads : Connection → W → ℕ → List Message → Outcome W ReadAvailableResult → Type 0
  Reads c w total ms (returned r c' w') = Result c w total ms r c' w'
  Reads c w total ms (threw e c' w') = Throws c w total ms e c' w'
  Reads c w total ms stuck = ⊥

  pub Advances-refl :
      (c : Connection) (w w' : W) (total : ℕ) (ms : List Message)
      → IsConnection c
      → incoming w' ≡ incoming w
      → outgoing w' ≡ outgoing w
      → total ≤ budget
      → Advances c w total ms ms c w'
  Advances-refl c w w' total ms v same unsent room = record {
    fresh = [];
    grown = sym (append-nil ms);
    frames = tt;
    valid = v;
    conserved = ap (◌++◌ (pending c.decoder)) same;
    in_budget = omega (arith, ap length same);
    same_id = refl;
    same_fd = refl;
    same_limits = refl;
    same_output = refl;
    same_offset = refl;
    unsent = unsent;
  }

  module _ {c c1 c2 : Connection} {w w1 w2 : W} {total total1 : ℕ} {ms ms1 ms2 : List Message} where
    pub Advances-trans :
        Advances c w total ms ms1 c1 w1
        → total + length (incoming w) ≤ total1 + length (incoming w1)
        → Advances c1 w1 total1 ms1 ms2 c2 w2
        → Advances c w total ms ms2 c2 w2
    Advances-trans f read g = record {
      fresh = f.fresh ++ g.fresh;
      grown =
          g.grown
          ∙ ap (λ (t : List Message). t ++ g.fresh) f.grown
          ∙ append_assoc ms f.fresh g.fresh;
      frames = All-append IsFrame f.fresh g.fresh f.frames g.frames;
      valid = g.valid;
      conserved =
          rw (wire-append f.fresh g.fresh, append_assoc)
            (ap (◌++◌ (wire f.fresh)) g.conserved ∙ f.conserved);
      in_budget = omega (arith, g.in_budget, read);
      same_id = g.same_id ∙ f.same_id;
      same_fd = g.same_fd ∙ f.same_fd;
      same_limits = g.same_limits ∙ f.same_limits;
      same_output = g.same_output ∙ f.same_output;
      same_offset = g.same_offset ∙ f.same_offset;
      unsent = g.unsent ∙ f.unsent;
    }

  pub Reads-from :
      (c c1 : Connection) (w w1 : W) (total total1 : ℕ) (ms ms1 : List Message)
      (o : Outcome W ReadAvailableResult)
      → Advances c w total ms ms1 c1 w1
      → total + length (incoming w) ≡ total1 + length (incoming w1)
      → Reads c1 w1 total1 ms1 o
      → Reads c w total ms o
  Reads-from c c1 w w1 total total1 ms ms1 (returned r c' w') f read g = record {
    advances = Advances-trans f (omega (arith, read)) g.advances;
    count = g.count;
    counted = g.counted ∙ sym read;
    explained = g.explained;
  }
  Reads-from c c1 w w1 total total1 ms ms1 (threw x c' w') f read (ms', g, why) =
      (ms', Advances-trans f (omega (arith, read)) g, why)
  Reads-from c c1 w w1 total total1 ms ms1 stuck f read g = g
