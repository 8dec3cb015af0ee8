-- ===== src/Connection/Frame.antt =====
-- What the loops of src/network/connection.cpp leave alone in the operating system: whatever each
-- `recv` or `send` keeps.
use pulse_core.Base.{
  ℕ, ◌-◌, min, take, drop, length, ltb, leb, Bool-cases, inl, inr, zero, suc, Bool, true, false,
  none, some, List, [], ◌∷◌,
}
use pulse_core.Codec.{buffered_size, Message}
use pulse_core.Sockets.{
  eintr, eagain, ewouldblock, econnreset, epipe, enoent, other_error, Received, received,
  recv_failed, Sent, sent, send_failed, Sockets,
}
use pulse_core.Connection.{
  Connection, Outcome, returned, threw, stuck, ReadAvailableResult, WriteAvailableResult, Drained,
  after_recv, after_drain, read_loop, read_available, after_send, write_loop, write_available,
  is_would_block, is_peer_closed_error, bytes_to_read,
}

module _ {W : Type 0} (P : W → Type 0) where
  abbrev pub Keeps : {A : Type 0} → Outcome W A → Type 0
  Keeps (returned a c w) = P w
  Keeps (threw e c w) = P w
  Keeps stuck = Unit {0}

  module _ (s : Sockets W) (kept : (fd n : ℕ) (w : W) → P w → P (s.recv fd n w).1) where
    Later : (Connection → ℕ → Bool → List Message → W → Outcome W ReadAvailableResult) → Type 0
    Later again =
        (c : Connection) (total : ℕ) (progress : Bool) (ms : List Message) (w : W)
        → P w
        → Keeps (again c total progress ms w)

    after_recv-Keeps :
        (again : Connection → ℕ → Bool → List Message → W → Outcome W ReadAvailableResult)
        (c : Connection) (total : ℕ) (progress : Bool) (ms : List Message) (x : Received) (w : W)
        → Later again
        → P w
        → Keeps (after_recv again c total progress ms (x, w))
    unfolding after_recv Later is_would_block is_peer_closed_error
    after_recv-Keeps again c total progress ms (received []) w ih p = p
    after_recv-Keeps again c total progress ms (received (b ∷ bytes)) w ih p = ih _ _ true ms w p
    after_recv-Keeps again c total progress ms (recv_failed eintr) w ih p =
        ih c total progress ms w p
    after_recv-Keeps again c total progress ms (recv_failed eagain) w ih p = p
    after_recv-Keeps again c total progress ms (recv_failed ewouldblock) w ih p = p
    after_recv-Keeps again c total progress ms (recv_failed econnreset) w ih p = p
    after_recv-Keeps again c total progress ms (recv_failed epipe) w ih p = p
    after_recv-Keeps again c total progress ms (recv_failed enoent) w ih p = p
    after_recv-Keeps again c total progress ms (recv_failed (other_error n)) w ih p = p

    after_drain-Keeps :
        (again : Connection → ℕ → Bool → List Message → W → Outcome W ReadAvailableResult)
        (c : Connection) (budget total : ℕ) (progress : Bool) (w : W) (d : Drained)
        → Later again
        → P w
        → Keeps (after_drain s again c budget total progress w d)
    unfolding after_drain
    after_drain-Keeps again c budget total progress w none ih p = tt
    after_drain-Keeps again c budget total progress w (some (some e, ms, d)) ih p = p
    after_drain-Keeps again c budget total progress w (some (none, ms, d)) ih p =
        let rest =
          after_recv-Keeps again (record c { decoder = d }) total progress ms
            (s.recv c.fd (bytes_to_read (record c { decoder = d }) budget total) w).0
            (s.recv c.fd (bytes_to_read (record c { decoder = d }) budget total) w).1 ih
            (kept c.fd _ w p) in
        elim (Bool-cases (leb budget total)) [
          | inl spent ↦ rw spent p
          | inr room ↦
              rw room (elim (Bool-cases (leb c.limits.max_input_buffer (buffered_size d))) [
                | inl full ↦ rw full p
                | inr space ↦ rw space rest
              ])
        ]

    read_loop-Keeps : (fuel budget : ℕ) → Later (read_loop s fuel budget)
    unfolding read_loop Later
    read_loop-Keeps zero budget c total progress ms w p = tt
    read_loop-Keeps (suc fuel) budget c total progress ms w p =
        after_drain-Keeps (read_loop s fuel budget) c budget total progress w _
          (λ c' total' progress' ms' w' p'.
            read_loop-Keeps fuel budget c' total' progress' ms' w' p')
          p

    pub read_available-Keeps :
        (fuel : ℕ) (c : Connection) (budget : ℕ) (w : W)
        → P w
        → Keeps (read_available s fuel c budget w)
    unfolding read_available Later
    read_available-Keeps fuel c budget w p = read_loop-Keeps fuel budget c 0 false [] w p

  module _ (s : Sockets W)
      (kept : (fd : ℕ) (bytes : List ℕ) (w : W) → P w → P (s.send fd bytes w).1) where
    after_send-Keeps :
        (again : Connection → ℕ → W → Outcome W WriteAvailableResult) (c : Connection) (written : ℕ)
        (x : Sent) (w : W)
        → ((c' : Connection) (n : ℕ) (w' : W) → P w' → Keeps (again c' n w'))
        → P w
        → Keeps (after_send again c written (x, w))
    unfolding after_send is_would_block is_peer_closed_error
    after_send-Keeps again c written (sent zero) w ih p = p
    after_send-Keeps again c written (sent (suc n)) w ih p = ih _ _ w p
    after_send-Keeps again c written (send_failed eintr) w ih p = ih c written w p
    after_send-Keeps again c written (send_failed eagain) w ih p = p
    after_send-Keeps again c written (send_failed ewouldblock) w ih p = p
    after_send-Keeps again c written (send_failed econnreset) w ih p = p
    after_send-Keeps again c written (send_failed epipe) w ih p = p
    after_send-Keeps again c written (send_failed enoent) w ih p = p
    after_send-Keeps again c written (send_failed (other_error n)) w ih p = p

    write_loop-Keeps :
        (fuel budget : ℕ) (c : Connection) (written : ℕ) (w : W)
        → P w
        → Keeps (write_loop s fuel budget c written w)
    unfolding write_loop
    write_loop-Keeps zero budget c written w p = tt
    write_loop-Keeps (suc fuel) budget c written w p =
        let bytes =
          take (min (length c.output_buffer - c.output_offset) (budget - written))
            (drop c.output_offset c.output_buffer) in
        let rest =
          after_send-Keeps (write_loop s fuel budget) c written (s.send c.fd bytes w).0
            (s.send c.fd bytes w).1 (λ c' n w' p'. write_loop-Keeps fuel budget c' n w' p')
            (kept c.fd bytes w p) in
        elim (Bool-cases (ltb c.output_offset (length c.output_buffer))) [
          | inr sent_all ↦ rw sent_all p
          | inl some_left ↦ rw some_left (elim (Bool-cases (leb budget written)) [
            | inl spent ↦ rw spent p
            | inr room ↦ rw room rest
          ])
        ]

    pub write_available-Keeps :
        (fuel : ℕ) (c : Connection) (budget : ℕ) (w : W)
        → P w
        → Keeps (write_available s fuel c budget w)
    unfolding write_available
    write_available-Keeps fuel c budget w p = write_loop-Keeps fuel budget c 0 w p
