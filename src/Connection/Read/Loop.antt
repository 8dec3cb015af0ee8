-- ===== src/Connection/Read/Loop.antt =====
-- The loop of `ReadAvailable`, round by round.
use pulse_core.Base.{
  ℕ, zero, suc, ◌+◌, ◌≤◌, ◌<◌, ◌≡◌, refl, sym, ap, subst, ◌∙◌, Bool, false, Option, none, some,
  List, [], ◌++◌, inl, inr, append_assoc, arith, leb, leb→le, leb→lt, Bool-cases, length,
  length-append,
}
use pulse_core.Codec.{Message, ProtocolError, FrameDecoder, pending, buffered_size}
use pulse_core.Codec.Stream.{buffered_size-pending}
use pulse_core.Sockets.{Sockets, IsStream}
use pulse_core.Connection.{
  Connection, bytes_to_read, Drained, after_recv, after_drain, read_loop, read_available,
}
use pulse_core.Connection.Drain.{wire, Settles, Drains, drain_decoder-Drains}
use pulse_core.Connection.Output.{IsConnection}
use pulse_core.Connection.Read.{Waits, Advances, Reads, Reads-from}
use pulse_core.Connection.Read.Recv.{Counts, Again, measure, Hypothesis, after_recv-Reads}

module _ {W : Type 0} (s : Sockets W) (fd : ℕ) (st : IsStream s fd) (budget : ℕ) where
  open st use {incoming, outgoing, patience}

  -- The connection after `DrainDecoder`.
  module _ (c : Connection) (total : ℕ) (ms : List Message) (w : W) (v : IsConnection c)
      (room : total ≤ budget) {r : Drained} (d : Drains c.decoder ms r) where
    drained : Connection
    drained = record c { decoder = d.after }

    drained_on : Advances s fd st budget c w total ms (ms ++ d.fresh) drained w
    unfolding drained
    drained_on = record {
      fresh = d.fresh;
      grown = refl;
      frames = d.frames;
      valid = record {
        decoder = d.valid;
        input_fits = omega (
          arith,
          buffered_size-pending c.decoder,
          buffered_size-pending d.after,
          ap length d.split,
          length-append (wire d.fresh) (pending d.after),
          v.input_fits,
        );
        sent_within = v.sent_within;
        output_fits = v.output_fits;
      };
      conserved =
          sym (append_assoc (wire d.fresh) (pending d.after) (incoming w))
          ∙ ap (λ (t : List ℕ). t ++ incoming w) (sym d.split);
      in_budget = omega arith;
      same_id = refl;
      same_fd = refl;
      same_limits = refl;
      same_output = refl;
      same_offset = refl;
      unsent = refl;
    }

  -- A round that calls `recv`, with the later rounds given.
  one_recv :
      (again : Again W) (bound : ℕ) (c : Connection) (total : ℕ) (progress : Bool)
      (ms : List Message) (w : W)
      → Hypothesis s fd st budget again bound
      → IsConnection c
      → c.fd ≡ fd
      → total < budget
      → buffered_size c.decoder < c.limits.max_input_buffer
      → Waits c
      → Counts progress total
      → measure s fd st budget total w ≤ bound
      → Reads s fd st budget c w total ms
          (after_recv again c total progress ms (s.recv c.fd (bytes_to_read c budget total) w))
  one_recv again bound c total progress ms w ih v own room space waits counts less =
      let k = bytes_to_read c budget total in
      let r = s.recv fd k w in
      subst
        (λ f.
          Reads s fd st budget c w total ms (after_recv again c total progress ms (s.recv f k w)))
        (sym own)
        (after_recv-Reads s fd st budget c total progress ms w r.1 v own room waits counts k
          (omega arith) (omega arith) (omega arith) (st.recv_keeps k w) again r.0 refl
          (st.recv_takes k w) (st.recv_calm k w) (st.recv_patience k w)
          (λ c' total' progress' ms1 w' v' own' room' counts' less'.
            ih c' total' progress' ms1 w' v' own' room' counts' (omega arith)))

  after_drain-Reads :
      (again : Again W) (bound : ℕ) (c : Connection) (total : ℕ) (progress : Bool)
      (ms : List Message) (w : W) (verdict : Option ProtocolError) (ms' : List Message)
      (after : FrameDecoder)
      → Hypothesis s fd st budget again bound
      → c.fd ≡ fd
      → total ≤ budget
      → Counts progress total
      → measure s fd st budget total w ≤ bound
      → Settles verdict after
      → Advances s fd st budget c w total ms ms' (record c { decoder = after }) w
      → Reads s fd st budget c w total ms
          (after_drain s again c budget total progress w (some (verdict, ms', after)))
  unfolding after_drain
  after_drain-Reads again bound c total progress ms w (some e) ms' after ih own room counts less
        settled f =
      record { advances = f; count = total; counted = refl; explained = inl settled }
  after_drain-Reads again bound c total progress ms w none ms' after ih own room counts less settled
        f =
      let c' = record c { decoder = after } in
      elim (Bool-cases (leb budget total)) [
        | inl spent ↦ rw spent (record {
          advances = f;
          count = total;
          counted = refl;
          explained = (settled, inl (omega (arith, leb→le _ _ spent)));
        })
        | inr left ↦
            rw left (elim (Bool-cases (leb c.limits.max_input_buffer (buffered_size after))) [
              | inl full ↦ rw full (record {
                advances = f;
                count = total;
                counted = refl;
                explained = inr (refl, leb→lt _ _ left, settled, leb→le _ _ full);
              })
              | inr space ↦ rw space (
                  Reads-from s fd st budget c c' w w total total ms ms' _ f refl (
                    one_recv again bound c' total progress ms' w ih f.valid own (leb→lt _ _ left)
                      (leb→lt _ _ space) settled counts less))
            ])
      ]

  read_loop-Reads :
      (fuel : ℕ) (c : Connection) (total : ℕ) (progress : Bool) (ms : List Message) (w : W)
      → IsConnection c
      → c.fd ≡ fd
      → total ≤ budget
      → Counts progress total
      → measure s fd st budget total w < fuel
      → Reads s fd st budget c w total ms (read_loop s fuel budget c total progress ms w)
  unfolding read_loop
  read_loop-Reads zero c total progress ms w v own room counts h = absurd (omega arith)
  read_loop-Reads (suc fuel) c total progress ms w v own room counts h =
      let d = drain_decoder-Drains c.decoder ms v.decoder in
      subst
        (λ t.
          Reads s fd st budget c w total ms
            (after_drain s (read_loop s fuel budget) c budget total progress w t))
        (sym d.result)
        (after_drain-Reads (read_loop s fuel budget) fuel c total progress ms w d.verdict
          (ms ++ d.fresh) d.after
          (λ c' total' progress' ms' w' v' own' room' counts' less.
            read_loop-Reads fuel c' total' progress' ms' w' v' own' room' counts' less)
          own room counts (omega arith) d.settled
          (unfold drained in drained_on c total ms w v room d))

-- On a well-formed connection over a stream socket, `ReadAvailable` returns or throws, given more
-- rounds than the budget and the interrupted calls. The frames of the messages it returns, the
-- bytes it keeps and those still unread are together, in order, what was kept and unread before. It
-- reads no more than the budget and keeps the input buffer within its limit. `kOk` means that the
-- budget is used up, or that its last `recv` would block after a byte or a message; `kWouldBlock`
-- that its last `recv` would block and that there is no byte read and no message; `kPeerClosed`
-- that its last `recv`, asked for a byte at least, found the end of the stream, or that it found
-- the connection reset; a protocol error, that a malformed frame is at the front of the bytes kept,
-- or that they wait for the rest of a frame and fill the input buffer, with budget left. After the
-- other statuses, no whole frame is kept. An exception is another error of the last `recv`, and it
-- loses messages only.
pub read_available-Reads :
    {W : Type 0} (s : Sockets W) (c : Connection) (st : IsStream s c.fd) (budget fuel : ℕ) (w : W)
    → IsConnection c
    → st.patience w + budget < fuel
    → Reads s c.fd st budget c w 0 [] (read_available s fuel c budget w)
unfolding read_available
read_available-Reads s c st budget fuel w v h =
    read_loop-Reads s c.fd st budget fuel c 0 false [] w v refl (omega arith) refl (omega arith)
