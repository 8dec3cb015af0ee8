-- ===== src/Server/Order.antt =====
-- The loop of `FlushReadyResponses` of src/network/epoll_echo_server.cpp: which responses go out.
use pulse_core.Base.{
  ℕ, zero, suc, ◌+◌, ◌≤◌, ◌<◌, ◌≡◌, refl, sym, ap, subst, ◌∙◌, Bool, true, false, Option, none,
  some, List, [], ◌∷◌, ◌++◌, ◌⊎◌, inl, inr, append-nil, append_assoc, arith, length, Option-cases,
}
use pulse_core.Base.Maps.{find, erase, find-erase}
use pulse_core.Codec.{Message, encode_message}
use pulse_core.Connection.{Connection, queue_output}
use pulse_core.Connection.Drain.{frame, wire, bytes_of}
use pulse_core.Connection.Output.{
  IsConnection, pending_output, Queues, accepted, overfull, unencodable, queue_output-Queues,
  Queues-IsConnection,
}
use pulse_core.Server.{
  ConnectionFlow, next_sequence, Flushed, after_queue, flush_found, flush_loop,
  flush_ready_responses,
}

-- The messages stand in the map under consecutive sequence numbers, from `n` up to `k`.
pub data InOrder (responses : List (ℕ × Message)) : ℕ → List Message → ℕ → Type 0 where
  stop : {n : ℕ} → InOrder responses n [] n
  step :
      {n k : ℕ} {m : Message} {ms : List Message}
      → find n responses ≡ some m
      → InOrder responses (next_sequence n) ms k
      → InOrder responses n (m ∷ ms) k

-- Why `QueueOutput` refuses a message.
abbrev pub Refused : Connection → Message → Type 0
Refused c m =
    (encode_message m ≡ none)
    ⊎ (c.limits.max_output_buffer < length (pending_output c) + length (frame m))

-- Where the loop stops: the next response is missing, or it does not fit the output buffer.
abbrev pub Halts : Bool → Connection → ConnectionFlow → Type 0
Halts true c f = find f.next_response_sequence f.completed_responses ≡ none
Halts false c f =
    (m : Message) × (find f.next_response_sequence f.completed_responses ≡ some m) × Refused c m

pub record Flushes (c : Connection) (f : ConnectionFlow) (r : Flushed) : Type 0 where
  pub verdict : Bool
  pub connection : Connection
  pub flow : ConnectionFlow
  pub responses : List Message
  pub result : r ≡ some (verdict, connection, flow)
  pub valid : IsConnection connection
  pub in_order :
      InOrder f.completed_responses f.next_response_sequence responses flow.next_response_sequence
  pub queued : pending_output connection ≡ pending_output c ++ wire responses
  pub requests : flow.next_request_sequence ≡ f.next_request_sequence
  pub kept :
      (k : ℕ) (m : Message)
      → find k flow.completed_responses ≡ some m
      → find k f.completed_responses ≡ some m
  pub halts : Halts verdict connection flow

find-erase-some :
    (k j : ℕ) (responses : List (ℕ × Message)) (m : Message)
    → find j (erase k responses) ≡ some m
    → find j responses ≡ some m
find-erase-some k j responses m h = ground (arith, find-erase k j responses)

InOrder-erase :
    (j : ℕ) (responses : List (ℕ × Message)) {n k : ℕ} {ms : List Message}
    → InOrder (erase j responses) n ms k
    → InOrder responses n ms k
InOrder-erase j responses stop = stop
InOrder-erase j responses (step {n} {m = m} h r) =
    step (find-erase-some j n responses m h) (InOrder-erase j responses r)

erase_le : (k : ℕ) (responses : List (ℕ × Message)) → length (erase k responses) ≤ length responses
unfolding erase
erase_le k [] = omega arith
erase_le k ((j, v) ∷ responses) = ground (arith, erase_le k responses)

erase_lt :
    (k : ℕ) (responses : List (ℕ × Message)) (m : Message)
    → find k responses ≡ some m
    → length (erase k responses) < length responses
unfolding find erase
erase_lt k [] m h = cc
erase_lt k ((j, v) ∷ responses) m h = ground (arith, erase_lt k responses m, erase_le k responses)

-- The flow once its next response is in the output buffer.
abbrev advanced : ConnectionFlow → ConnectionFlow
advanced f = record f {
  next_response_sequence = next_sequence f.next_response_sequence;
  completed_responses = erase f.next_response_sequence f.completed_responses;
}

module _ (c : Connection) (f : ConnectionFlow) (v : IsConnection c) where
  flush_none :
      find f.next_response_sequence f.completed_responses ≡ none → Flushes c f (some (true, c, f))
  flush_none h = record {
    verdict = true;
    connection = c;
    flow = f;
    responses = [];
    result = refl;
    valid = v;
    in_order = stop;
    queued = sym (append-nil (pending_output c));
    requests = refl;
    kept = λ k m e. e;
    halts = h;
  }

  flush-Refused :
      (c' : Connection) (m : Message)
      → find f.next_response_sequence f.completed_responses ≡ some m
      → IsConnection c'
      → pending_output c' ≡ pending_output c
      → Refused c' m
      → Flushes c f (some (false, c', f))
  flush-Refused c' m h v' same refused = record {
    verdict = false;
    connection = c';
    flow = f;
    responses = [];
    result = refl;
    valid = v';
    in_order = stop;
    queued = same ∙ sym (append-nil (pending_output c));
    requests = refl;
    kept = λ k m' e. e;
    halts = (m, h, refused);
  }

  flush_more :
      (c' : Connection) (m : Message) (r : Flushed)
      → find f.next_response_sequence f.completed_responses ≡ some m
      → pending_output c' ≡ pending_output c ++ frame m
      → Flushes c' (advanced f) r
      → Flushes c f r
  flush_more c' m r h grows x = record {
    verdict = x.verdict;
    connection = x.connection;
    flow = x.flow;
    responses = m ∷ x.responses;
    result = x.result;
    valid = x.valid;
    in_order = step h (InOrder-erase f.next_response_sequence f.completed_responses x.in_order);
    queued =
        x.queued
        ∙ ap (λ (t : List ℕ). t ++ wire x.responses) grows
        ∙ append_assoc (pending_output c) (frame m) (wire x.responses);
    requests = x.requests;
    kept = λ k m' e.
        find-erase-some f.next_response_sequence k f.completed_responses m' (x.kept k m' e);
    halts = x.halts;
  }

  -- A round, given the next ones.
  flush_queued :
      (again : Connection → ConnectionFlow → Flushed) (m : Message) (r : Bool × Connection)
      → find f.next_response_sequence f.completed_responses ≡ some m
      → ((c' : Connection) → IsConnection c' → Flushes c' (advanced f) (again c' (advanced f)))
      → Queues c m r
      → Flushes c f (after_queue again f r)
  unfolding after_queue
  flush_queued again m r h ih (accepted bytes e fits out) =
      let c' = record c { output_buffer = pending_output c ++ bytes; output_offset = 0 } in
      let valid =
        subst (λ (x : Bool × Connection). IsConnection x.1) out
          (Queues-IsConnection c m r v (accepted bytes e fits out)) in
      subst (λ (x : Bool × Connection). Flushes c f (after_queue again f x)) (sym out)
        (flush_more c' m (again c' (advanced f)) h
          (ap (λ (t : List ℕ). pending_output c ++ t) (sym (ap bytes_of e))) (ih c' valid))
  flush_queued again m r h ih (overfull bytes e full out) =
      let valid =
        subst (λ (x : Bool × Connection). IsConnection x.1) out
          (Queues-IsConnection c m r v (overfull bytes e full out)) in
      subst (λ (x : Bool × Connection). Flushes c f (after_queue again f x)) (sym out)
        (flush-Refused _ m h valid refl (
          inr (
            subst
              (λ (t : List ℕ). c.limits.max_output_buffer < length (pending_output c) + length t)
              (sym (ap bytes_of e)) full)))
  flush_queued again m r h ih (unencodable e out) =
      subst (λ (x : Bool × Connection). Flushes c f (after_queue again f x)) (sym out)
        (flush-Refused c m h v refl (inl e))

-- A round by the response that it finds.
flush_found-Flushes :
    (again : Connection → ConnectionFlow → Flushed) (c : Connection) (f : ConnectionFlow)
    → IsConnection c
    → ((m : Message) (c' : Connection)
        → find f.next_response_sequence f.completed_responses ≡ some m
        → IsConnection c'
        → Flushes c' (advanced f) (again c' (advanced f)))
    → Flushes c f (flush_found again c f (find f.next_response_sequence f.completed_responses))
unfolding flush_found
flush_found-Flushes again c f v ih =
    elim (Option-cases (find f.next_response_sequence f.completed_responses)) [
      | inl e ↦
          subst (λ (o : Option Message). Flushes c f (flush_found again c f o)) (sym e)
            (flush_none c f v e)
      | inr (m, e) ↦
          subst (λ (o : Option Message). Flushes c f (flush_found again c f o)) (sym e)
            (flush_queued c f v again m (queue_output c m) e (λ c' v'. ih m c' e v')
              (queue_output-Queues c m v))
    ]

flush_loop-Flushes :
    (fuel : ℕ) (c : Connection) (f : ConnectionFlow)
    → IsConnection c
    → length f.completed_responses < fuel
    → Flushes c f (flush_loop fuel c f)
unfolding flush_loop
flush_loop-Flushes zero c f v h = absurd (omega arith)
flush_loop-Flushes (suc fuel) c f v h = flush_found-Flushes (flush_loop fuel) c f v (λ m c' e v'.
    flush_loop-Flushes fuel c' (advanced f) v'
      (omega (arith, h, erase_lt f.next_response_sequence f.completed_responses m e)))

-- On a well-formed connection, the loop of `FlushReadyResponses` ends. It takes the responses
-- that are there under consecutive sequence numbers from the next one on, and puts their frames
-- behind the pending bytes in that order; it stops at the first one that is missing, or that the
-- output buffer cannot take.
pub flush_ready_responses-Flushes :
    (c : Connection) (f : ConnectionFlow) → IsConnection c → Flushes c f (flush_ready_responses c f)
unfolding flush_ready_responses
flush_ready_responses-Flushes c f v =
    flush_loop-Flushes (suc (length f.completed_responses)) c f v (omega arith)
