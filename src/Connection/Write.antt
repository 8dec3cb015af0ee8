-- ===== src/Connection/Write.antt =====
-- `WriteAvailable` of src/network/connection.cpp: its states and results, as relations.
pub mod Loop
use pulse_core.Base.{
  ℕ, zero, suc, ◌+◌, ◌-◌, ◌≤◌, ◌<◌, ◌≡◌, ◌≢◌, refl, sym, ap, subst, ◌∙◌, min, Bool, true, false,
  List, [], ◌++◌, inl, inr, ◌⊎◌, append_assoc, append-nil, arith, leb, leb→le, leb→lt, ltb, ltb→lt,
  ltb→le, Bool-cases, if◌then◌else◌, length, length-append, length-drop, length-take-le, take, drop,
  drop-drop, drop-length, take-append-drop, take-take, length-zero,
}
use pulse_core.Codec.{FrameDecoder}
use pulse_core.Sockets.{
  Errno, eintr, eagain, ewouldblock, econnreset, epipe, enoent, other_error, Sent, sent,
  send_failed, Sends, Sockets, IsStream,
}
use pulse_core.Connection.{
  Connection, Outcome, returned, threw, stuck, WriteAvailableResult, WriteAvailableStatus, write_ok,
  write_would_block, write_peer_closed, is_would_block, is_peer_closed_error, write_result,
  after_send, write_loop, write_available,
}
use pulse_core.Connection.Output.{IsConnection, pending_output}

-- The outcome is a result or an exception, and meets the condition for it.
module _ {W A : Type 0} (P : A → Connection → W → Type 0) (Q : Connection → W → Type 0) where
  abbrev pub Finishes : Outcome W A → Type 0
  Finishes (returned a c w) = P a c w
  Finishes (threw e c w) = Q c w
  Finishes stuck = ⊥

module _ {W : Type 0} (s : Sockets W) (fd : ℕ) (st : IsStream s fd) where
  open st use {incoming, outgoing, patience}

  -- From one connection and system state to a later one: the bytes accepted by the socket and those
  -- still queued are together what they were, in order, and nothing else changes.
  pub record Forwards (c : Connection) (w : W) (c' : Connection) (w' : W) : Type 0 where
    pub valid : IsConnection c'
    pub same_id : c'.id ≡ c.id
    pub same_fd : c'.fd ≡ c.fd
    pub same_limits : c'.limits ≡ c.limits
    pub same_decoder : c'.decoder ≡ c.decoder
    pub conserved : outgoing w' ++ pending_output c' ≡ outgoing w ++ pending_output c
    pub unread : incoming w' ≡ incoming w

  pub Forwards-stay :
      {c : Connection} {w w' : W}
      → IsConnection c
      → outgoing w' ≡ outgoing w
      → incoming w' ≡ incoming w
      → Forwards c w c w'
  Forwards-stay {c} v e e' = record {
    valid = v;
    same_id = refl;
    same_fd = refl;
    same_limits = refl;
    same_decoder = refl;
    conserved = ap (λ (t : List ℕ). t ++ pending_output c) e;
    unread = e';
  }

  pub Forwards-trans :
      {c c1 c2 : Connection} {w w1 w2 : W}
      → Forwards c w c1 w1
      → Forwards c1 w1 c2 w2
      → Forwards c w c2 w2
  Forwards-trans f g = record {
    valid = g.valid;
    same_id = g.same_id ∙ f.same_id;
    same_fd = g.same_fd ∙ f.same_fd;
    same_limits = g.same_limits ∙ f.same_limits;
    same_decoder = g.same_decoder ∙ f.same_decoder;
    conserved = g.conserved ∙ f.conserved;
    unread = g.unread ∙ f.unread;
  }

  module _ (budget : ℕ) where
    -- What a result says: the bytes written are those that left the queue, at most the budget, and
    -- `kOk` means that the queue is empty or the budget is used up.
    pub record Reports (c : Connection) (w : W) (written : ℕ) (r : WriteAvailableResult)
        (c' : Connection) (w' : W) : Type 0 where
      pub forwards : Forwards c w c' w'
      pub counted :
          r.bytes_written + length (pending_output c') ≡ written + length (pending_output c)
      pub in_budget : r.bytes_written ≤ budget
      pub complete : r.status ≡ write_ok → (pending_output c' ≡ []) ⊎ (r.bytes_written ≡ budget)

    abbrev pub Wrote : Connection → W → ℕ → Outcome W WriteAvailableResult → Type 0
    Wrote c w written = Finishes (Reports c w written) (Forwards c w)

    pub Wrote-from :
        (c c1 : Connection) (w w1 : W) (written written1 : ℕ) (o : Outcome W WriteAvailableResult)
        → Forwards c w c1 w1
        → written1 + length (pending_output c1) ≡ written + length (pending_output c)
        → Wrote c1 w1 written1 o
        → Wrote c w written o
    Wrote-from c c1 w w1 written written1 (returned r c' w') f e g = record {
      forwards = Forwards-trans f g.forwards;
      counted = g.counted ∙ e;
      in_budget = g.in_budget;
      complete = g.complete;
    }
    Wrote-from c c1 w w1 written written1 (threw x c' w') f e g = Forwards-trans f g
    Wrote-from c c1 w w1 written written1 stuck f e g = g
