-- ===== src/Connection/Write/Loop.antt =====
-- The loop of `WriteAvailable`, round by round.
use pulse_core.Base.{
  ℕ, zero, suc, ◌+◌, ◌-◌, ◌≤◌, ◌<◌, ◌≡◌, ◌≢◌, refl, sym, ap, subst, ◌∙◌, min, List, [], ◌++◌, inl,
  inr, append_assoc, append-nil, arith, leb, leb→le, ltb, ltb→le, Bool-cases, length, length-drop,
  length-take-le, take, drop-drop, take-append-drop, take-take, length-zero,
}
use pulse_core.Sockets.{
  eintr, eagain, ewouldblock, econnreset, epipe, enoent, other_error, Sent, sent, send_failed,
  Sends, Sockets, IsStream,
}
use pulse_core.Connection.{
  Connection, Outcome, WriteAvailableResult, WriteAvailableStatus, write_ok, write_would_block,
  write_peer_closed, is_would_block, is_peer_closed_error, write_result, after_send, write_loop,
  write_available,
}
use pulse_core.Connection.Output.{IsConnection, pending_output}
use pulse_core.Connection.Write.{Forwards, Forwards-stay, Reports, Wrote, Wrote-from}

module _ {W : Type 0} (s : Sockets W) (fd : ℕ) (st : IsStream s fd) where
  open st use {incoming, outgoing, patience}

  module _ (budget : ℕ) where
    abbrev measure : Connection → W → ℕ
    measure c w = patience w + length (pending_output c)

    -- Later rounds do what is claimed, from any state with a smaller measure.
    abbrev Hypothesis : (Connection → ℕ → W → Outcome W WriteAvailableResult) → ℕ → Type 0
    Hypothesis again bound =
        (c : Connection) (written : ℕ) (w : W)
        → IsConnection c
        → c.fd ≡ fd
        → written ≤ budget
        → measure c w < bound
        → Wrote s fd st budget c w written (again c written w)

    module _ (c : Connection) (written : ℕ) (w w' : W) (v : IsConnection c) (own : c.fd ≡ fd)
        (room : written ≤ budget) (k : ℕ) (k_queued : k ≤ length (pending_output c))
        (k_room : k ≤ budget - written) (same_incoming : incoming w' ≡ incoming w) where
      unmoved : outgoing w' ≡ outgoing w → Forwards s fd st c w c w'
      unmoved e = Forwards-stay s fd st v e same_incoming

      stopped :
          (status : WriteAvailableStatus)
          → outgoing w' ≡ outgoing w
          → status ≢ write_ok
          → Reports s fd st budget c w written (write_result status written) c w'
      stopped status e not_ok = record {
        forwards = unmoved e;
        counted = refl;
        in_budget = room;
        complete = λ h. absurd (not_ok h);
      }

      moved : ℕ → Connection
      moved n = record c { output_offset = c.output_offset + n }

      moved_on :
          (n : ℕ)
          → n ≤ k
          → outgoing w' ≡ outgoing w ++ take n (pending_output c)
          → Forwards s fd st c w (moved n) w'
      unfolding moved
      moved_on n h e = record {
        valid = record {
          decoder = v.decoder;
          input_fits = v.input_fits;
          sent_within =
              omega
                (arith, h, k_queued, v.sent_within, length-drop c.output_offset c.output_buffer);
          output_fits = v.output_fits;
        };
        same_id = refl;
        same_fd = refl;
        same_limits = refl;
        same_decoder = refl;
        conserved =
            rw (e, ← drop-drop n c.output_offset c.output_buffer, append_assoc)
              (ap (◌++◌ (outgoing w)) (take-append-drop n (pending_output c)));
        unread = same_incoming;
      }

      moved_count :
          (n : ℕ)
          → n ≤ k
          → written + n + length (pending_output (moved n)) ≡ written + length (pending_output c)
      unfolding moved
      moved_count n h = omega (
        arith,
        k_queued,
        length-drop (c.output_offset + n) c.output_buffer,
        length-drop c.output_offset c.output_buffer,
      )

      cut_law :
          (n : ℕ)
          → n ≤ length (take k (pending_output c))
          → outgoing w' ≡ outgoing w ++ take n (take k (pending_output c))
          → (n ≤ k) × (outgoing w' ≡ outgoing w ++ take n (pending_output c))
      cut_law n h e =
          let fits : n ≤ k = omega (arith, h, length-take-le k (pending_output c)) in
          (fits, e ∙ ap (◌++◌ (outgoing w)) (take-take n k (pending_output c) fits))

      after_send-Wrote :
          (again : Connection → ℕ → W → Outcome W WriteAvailableResult) (r : Sent)
          → Sends (take k (pending_output c)) (outgoing w) r (outgoing w')
          → patience w' ≤ patience w
          → (r ≡ send_failed eintr → patience w' < patience w)
          → Hypothesis again (measure c w)
          → Wrote s fd st budget c w written (after_send again c written (r, w'))
      unfolding after_send is_would_block is_peer_closed_error moved
      after_send-Wrote again (sent zero) law calm interrupted ih =
          stopped write_would_block (law.1 ∙ append-nil (outgoing w)) (λ e. cc)
      after_send-Wrote again (sent (suc n)) law calm interrupted ih =
          let (fits, put) = cut_law (suc n) law.0 law.1 in
          let f = moved_on (suc n) fits put in
          let e = moved_count (suc n) fits in
          Wrote-from s fd st budget c (moved (suc n)) w w' written (written + suc n) _ f e (
            ih (moved (suc n)) (written + suc n) w' f.valid own (omega arith)
              (omega (arith, e, calm)))
      after_send-Wrote again (send_failed eintr) law calm interrupted ih =
          Wrote-from s fd st budget c c w w' written written _ (unmoved law) refl
            (ih c written w' v own room (omega (arith, interrupted refl)))
      after_send-Wrote again (send_failed eagain) law calm interrupted ih =
          stopped write_would_block law (λ e. cc)
      after_send-Wrote again (send_failed ewouldblock) law calm interrupted ih =
          stopped write_would_block law (λ e. cc)
      after_send-Wrote again (send_failed econnreset) law calm interrupted ih =
          stopped write_peer_closed law (λ e. cc)
      after_send-Wrote again (send_failed epipe) law calm interrupted ih =
          stopped write_peer_closed law (λ e. cc)
      after_send-Wrote again (send_failed enoent) law calm interrupted ih = unmoved law
      after_send-Wrote again (send_failed (other_error n)) law calm interrupted ih = unmoved law

    -- After the loop nothing is pending, and the buffer is cleared.
    all_sent :
        (c : Connection) (written : ℕ) (w : W)
        → IsConnection c
        → written ≤ budget
        → length c.output_buffer ≤ c.output_offset
        → Reports s fd st budget c w written
            (write_result write_ok written)
            (record c { output_buffer = []; output_offset = 0 })
            w
    all_sent c written w v room h =
        let empty : pending_output c ≡ [] =
          length-zero (pending_output c)
            (omega (arith, h, length-drop c.output_offset c.output_buffer)) in
        record {
          forwards = record {
            valid = record {
              decoder = v.decoder;
              input_fits = v.input_fits;
              sent_within = omega arith;
              output_fits = omega arith;
            };
            same_id = refl;
            same_fd = refl;
            same_limits = refl;
            same_decoder = refl;
            conserved = ap (◌++◌ (outgoing w)) (sym empty);
            unread = refl;
          };
          counted = ap (λ (t : List ℕ). written + length t) (sym empty);
          in_budget = room;
          complete = λ _. inl refl;
        }

    out_of_budget :
        (c : Connection) (written : ℕ) (w : W)
        → IsConnection c
        → written ≤ budget
        → budget ≤ written
        → Reports s fd st budget c w written (write_result write_ok written) c w
    out_of_budget c written w v room h = record {
      forwards = Forwards-stay s fd st v refl refl;
      counted = refl;
      in_budget = room;
      complete = λ _. inr (omega arith);
    }

    -- A round that calls `send`, with the later rounds given.
    one_send :
        (again : Connection → ℕ → W → Outcome W WriteAvailableResult) (bound : ℕ) (c : Connection)
        (written : ℕ) (w : W)
        → Hypothesis again bound
        → IsConnection c
        → c.fd ≡ fd
        → written ≤ budget
        → measure c w ≤ bound
        → Wrote s fd st budget c w written (
            after_send again c written (
              s.send c.fd
                (take
                  (min (length c.output_buffer - c.output_offset) (budget - written))
                  (pending_output c))
                w))
    one_send again bound c written w ih v own room h =
        let k = min (length c.output_buffer - c.output_offset) (budget - written) in
        let bytes = take k (pending_output c) in
        let r = s.send fd bytes w in
        subst
          (λ f. Wrote s fd st budget c w written (after_send again c written (s.send f bytes w)))
          (sym own)
          (after_send-Wrote c written w r.1 v own room k
            (omega (arith, length-drop c.output_offset c.output_buffer)) (omega arith)
            (st.send_keeps bytes w) again r.0 (st.send_puts bytes w) (st.send_calm bytes w)
            (st.send_patience bytes w)
            (λ c' written' w' v' own' room' less. ih c' written' w' v' own' room' (omega arith)))

    write_loop-Wrote :
        (fuel : ℕ) (c : Connection) (written : ℕ) (w : W)
        → IsConnection c
        → c.fd ≡ fd
        → written ≤ budget
        → measure c w < fuel
        → Wrote s fd st budget c w written (write_loop s fuel budget c written w)
    unfolding write_loop
    write_loop-Wrote zero c written w v own room h = absurd (omega arith)
    write_loop-Wrote (suc fuel) c written w v own room h =
        elim (Bool-cases (ltb c.output_offset (length c.output_buffer))) [
          | inl more ↦ rw more (elim (Bool-cases (leb budget written)) [
            | inl spent ↦ rw spent (out_of_budget c written w v room (leb→le _ _ spent))
            | inr left ↦ rw left (
                one_send (write_loop s fuel budget) fuel c written w
                  (λ c' written' w' v' own' room' less.
                    write_loop-Wrote fuel c' written' w' v' own' room' less)
                  v own room (omega arith))
          ])
          | inr done ↦ rw done (all_sent c written w v room (ltb→le _ _ done))
        ]

-- On a well-formed connection over a stream socket, `WriteAvailable` returns or throws, given
-- more rounds than there are pending bytes and interrupted calls. What the socket accepts is a
-- prefix of the pending bytes, the rest stays pending; a result counts the accepted bytes,
-- within the budget, and `kOk` means that nothing is pending or the budget is used up.
pub write_available-Wrote :
    {W : Type 0} (s : Sockets W) (c : Connection) (st : IsStream s c.fd) (budget fuel : ℕ) (w : W)
    → IsConnection c
    → st.patience w + length (pending_output c) < fuel
    → Wrote s c.fd st budget c w 0 (write_available s fuel c budget w)
unfolding write_available
write_available-Wrote s c st budget fuel w v h =
    write_loop-Wrote s c.fd st budget fuel c 0 w v refl (omega arith) h
