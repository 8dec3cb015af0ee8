-- ===== src/Connection/Read/Recv.antt =====
-- `ReadAvailable`: what a round does with the answer of `recv`.
use pulse_core.Base.{
  ℕ, suc, ◌+◌, ◌-◌, ◌≤◌, ◌<◌, ◌≡◌, refl, sym, ap, subst, ◌∙◌, Bool, true, false, not, ◌||◌, List,
  [], ◌∷◌, ◌++◌, inl, inr, append_assoc, append-nil, arith, if◌then◌else◌, length, length-append,
}
use pulse_core.Codec.{Message, append, pending, buffered_size}
use pulse_core.Codec.Stream.{append-IsDecoder, pending-append, buffered_size-pending}
use pulse_core.Sockets.{
  eintr, eagain, ewouldblock, econnreset, epipe, enoent, other_error, Received, received,
  recv_failed, Receives, Sockets, IsStream,
}
use pulse_core.Connection.{
  Connection, Outcome, returned, ReadAvailableResult, ok, would_block, peer_closed, is_would_block,
  is_peer_closed_error, is_empty, after_recv,
}
use pulse_core.Connection.Output.{IsConnection}
use pulse_core.Connection.Read.{
  messages, Waits, Blocked, Closed, Explains, Advances, Result, Reads, Advances-refl, Reads-from,
}

-- `made_progress` says whether a byte has been read.
abbrev pub Counts : Bool → ℕ → Type 0
Counts true total = 1 ≤ total
Counts false total = total ≡ 0

abbrev pub Again : Type 0 → Type 0
Again W = Connection → ℕ → Bool → List Message → W → Outcome W ReadAvailableResult

module _ {W : Type 0} (s : Sockets W) (fd : ℕ) (st : IsStream s fd) (budget : ℕ) where
  open st use {incoming, outgoing, patience}

  abbrev pub measure : ℕ → W → ℕ
  measure total w = patience w + (budget - total)

  abbrev pub Hypothesis : Again W → ℕ → Type 0
  Hypothesis again bound =
      (c : Connection) (total : ℕ) (progress : Bool) (ms : List Message) (w : W)
      → IsConnection c
      → c.fd ≡ fd
      → total ≤ budget
      → Counts progress total
      → measure total w < bound
      → Reads s fd st budget c w total ms (again c total progress ms w)

  module _ (c : Connection) (total : ℕ) (progress : Bool) (ms : List Message) (w w' : W)
      (v : IsConnection c) (own : c.fd ≡ fd) (room : total < budget) (waits : Waits c)
      (counts : Counts progress total) (k : ℕ) (some_room : 1 ≤ k) (k_room : k ≤ budget - total)
      (k_space : k ≤ c.limits.max_input_buffer - buffered_size c.decoder)
      (unsent : outgoing w' ≡ outgoing w) where
    -- The connection with the bytes of one successful call behind its pending ones.
    fed : List ℕ → Connection
    fed bytes = record c { decoder = append c.decoder bytes }

    fed_on :
        (bytes : List ℕ)
        → Receives k (incoming w) (received bytes) (incoming w')
        → Advances s fd st budget c w total ms ms (fed bytes) w'
    unfolding fed
    fed_on bytes (front, few, bs) =
        let kept = pending-append c.decoder bytes v.decoder in
        let taken = ap length front ∙ length-append bytes (incoming w') in
        record {
          fresh = [];
          grown = sym (append-nil ms);
          frames = tt;
          valid = record {
            decoder = append-IsDecoder c.decoder bytes v.decoder bs;
            input_fits = omega (
              arith,
              buffered_size-pending c.decoder,
              buffered_size-pending (append c.decoder bytes),
              ap length kept,
              length-append (pending c.decoder) bytes,
              few,
              k_space,
              v.input_fits,
            );
            sent_within = v.sent_within;
            output_fits = v.output_fits;
          };
          conserved =
              ap (λ (t : List ℕ). t ++ incoming w') kept
              ∙ append_assoc (pending c.decoder) bytes (incoming w')
              ∙ ap (◌++◌ (pending c.decoder)) (sym front);
          in_budget = omega (arith, taken, few, k_room, room);
          same_id = refl;
          same_fd = refl;
          same_limits = refl;
          same_output = refl;
          same_offset = refl;
          unsent = unsent;
        }

    here : incoming w' ≡ incoming w → Advances s fd st budget c w total ms ms c w'
    here same = Advances-refl s fd st budget c w w' total ms v same unsent (omega arith)

    closed :
        incoming w' ≡ incoming w
        → Closed s fd st budget w'
        → Result s fd st budget c w total ms (peer_closed ms) c w'
    closed same why = record {
      advances = here same;
      count = total;
      counted = omega (arith, ap length same);
      explained = (waits, why);
    }

    still :
        (r : ReadAvailableResult)
        → messages r ≡ ms
        → incoming w' ≡ incoming w
        → Explains s fd st budget r c w' total
        → Result s fd st budget c w total ms r c w'
    still r e same why = record {
      advances = subst (λ t. Advances s fd st budget c w total ms t c w') (sym e) (here same);
      count = total;
      counted = omega (arith, ap length same);
      explained = why;
    }

    would_block-Reads :
        (flag : Bool) (ms' : List Message)
        → Counts flag total
        → ms' ≡ ms
        → incoming w' ≡ incoming w
        → Blocked s fd st budget w'
        → Reads s fd st budget c w total ms
            (returned (if flag || not (is_empty ms') then ok ms' else would_block) c w')
    would_block-Reads true ms' some_read e same why =
        still (ok ms') e same (waits, inr (why, inl some_read))
    would_block-Reads false [] none_read e same why =
        still would_block e same (waits, why, none_read)
    would_block-Reads false (m ∷ ms') none_read e same why =
        still (ok (m ∷ ms')) e same (waits, inr (why, inr (λ q. absurd (cc q))))

    pub after_recv-Reads :
        (again : Again W) (r : Received)
        → s.recv fd k w ≡ (r, w')
        → Receives k (incoming w) r (incoming w')
        → patience w' ≤ patience w
        → (r ≡ recv_failed eintr → patience w' < patience w)
        → Hypothesis again (measure total w)
        → Reads s fd st budget c w total ms (after_recv again c total progress ms (r, w'))
    unfolding after_recv is_would_block is_peer_closed_error fed
    after_recv-Reads again (received []) asked law calm interrupted ih =
        closed (sym law.0) (k, w, inl (some_room, asked))
    after_recv-Reads again (received (b ∷ bytes)) asked law calm interrupted ih =
        let f = fed_on (b ∷ bytes) law in
        let taken = ap length law.0 ∙ length-append (b ∷ bytes) (incoming w') in
        Reads-from s fd st budget c (fed (b ∷ bytes)) w w' total (total + suc (length bytes)) ms ms
          _ f (omega (arith, taken))
          (ih (fed (b ∷ bytes)) (total + suc (length bytes)) true ms w' f.valid own
            (omega (arith, law.1, k_room, room)) (omega arith) (omega (arith, law.1, k_room, calm)))
    after_recv-Reads again (recv_failed eintr) asked law calm interrupted ih =
        Reads-from s fd st budget c c w w' total total ms ms _ (here (sym law))
          (omega (arith, ap length law))
          (ih c total progress ms w' v own (omega arith) counts (omega (arith, interrupted refl)))
    after_recv-Reads again (recv_failed eagain) asked law calm interrupted ih =
        would_block-Reads progress ms counts refl (sym law) (k, w, inl asked)
    after_recv-Reads again (recv_failed ewouldblock) asked law calm interrupted ih =
        would_block-Reads progress ms counts refl (sym law) (k, w, inr asked)
    after_recv-Reads again (recv_failed econnreset) asked law calm interrupted ih =
        closed (sym law) (k, w, inr (inl asked))
    after_recv-Reads again (recv_failed epipe) asked law calm interrupted ih =
        closed (sym law) (k, w, inr (inr asked))
    after_recv-Reads again (recv_failed enoent) asked law calm interrupted ih =
        (ms, here (sym law), (tt, k, w, asked))
    after_recv-Reads again (recv_failed (other_error n)) asked law calm interrupted ih =
        (ms, here (sym law), (tt, k, w, asked))
