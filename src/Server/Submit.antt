-- ===== src/Server/Submit.antt =====
-- `SubmitWork` of src/network/epoll_echo_server.cpp: order and number of the requests in the pool.
use pulse_core.Base.{
  ℕ, ◌^◌, ◌≤◌, ◌<◌, ◌≡◌, refl, sym, ap, subst, ◌∙◌, Bool, true, false, List, [], ◌∷◌, ◌++◌, ◌⊎◌,
  inl, inr, append-nil, append_assoc, arith, length, leb, leb→le, Bool-cases, ◌||◌, if◌then◌else◌,
}
use pulse_core.Codec.{Message}
use pulse_core.BoundedQueue.{try_push}
use pulse_core.WorkerPool.{WorkItem, WorkerPool, try_submit}
use pulse_core.Server.{
  ConnectionFlow, next_sequence, in_flight, Submitted, after_submit, submit_work,
}

-- Both counters are 64-bit, and at most `max` requests are in flight.
pub record IsFlow (max : ℕ) (f : ConnectionFlow) : Type 0 where
  pub request_fits : f.next_request_sequence < 2 ^ 64
  pub response_fits : f.next_response_sequence < 2 ^ 64
  pub bounded : in_flight f ≤ max

-- The items of consecutive requests.
abbrev pub work_items : ℕ → ℕ → List Message → List WorkItem
work_items id n [] = []
work_items id n (m ∷ ms) =
    record { connection_id = id; sequence = n; request = m } ∷ work_items id (next_sequence n) ms

-- Why the loop stops early.
abbrev pub Stops : ℕ → WorkerPool → ConnectionFlow → List Message → Bool → Type 0
Stops max pool f rest true = rest ≡ []
Stops max pool f rest false =
    (max ≤ in_flight f)
    ⊎ ((pool.queue.closed || leb pool.queue.capacity (length pool.queue.items)) ≡ true)

pub record Submits (max id : ℕ) (messages : List Message) (p : WorkerPool) (f : ConnectionFlow)
    (r : Submitted) : Type 0 where
  pub verdict : Bool
  pub pool : WorkerPool
  pub flow : ConnectionFlow
  pub front : List Message
  pub rest : List Message
  pub result : r ≡ (verdict, pool, flow)
  pub split : messages ≡ front ++ rest
  pub queued : pool.queue.items ≡ p.queue.items ++ work_items id f.next_request_sequence front
  pub responses : flow.next_response_sequence ≡ f.next_response_sequence
  pub valid : IsFlow max flow
  pub stops : Stops max pool flow rest verdict

-- The flow once a request has been submitted.
abbrev requested : ConnectionFlow → ConnectionFlow
requested f = record f { next_request_sequence = next_sequence f.next_request_sequence }

requested-IsFlow :
    (max : ℕ) (f : ConnectionFlow)
    → max < 2 ^ 64
    → IsFlow max f
    → in_flight f < max
    → IsFlow max (requested f)
unfolding in_flight next_sequence
requested-IsFlow max f h v room = omega (arith, v.request_fits, v.response_fits, v.bounded)

module _ (max id : ℕ) (h : max < 2 ^ 64) where
  submit_stops :
      (messages : List Message) (p : WorkerPool) (f : ConnectionFlow)
      → IsFlow max f
      → ((max ≤ in_flight f)
          ⊎ ((p.queue.closed || leb p.queue.capacity (length p.queue.items)) ≡ true))
      → Submits max id messages p f (false, p, f)
  submit_stops messages p f v why = record {
    verdict = false;
    pool = p;
    flow = f;
    front = [];
    rest = messages;
    result = refl;
    split = refl;
    queued = sym (append-nil p.queue.items);
    responses = refl;
    valid = v;
    stops = why;
  }

  -- The pool once it has taken an item.
  abbrev taken : WorkerPool → WorkItem → WorkerPool
  taken p i = record p { queue = record p.queue { items = p.queue.items ++ (i ∷ []) } }

  submit_more :
      (m : Message) (messages : List Message) (p : WorkerPool) (f : ConnectionFlow) (r : Submitted)
      → Submits max id messages
          (taken p (record { connection_id = id; sequence = f.next_request_sequence; request = m }))
          (requested f)
          r
      → Submits max id (m ∷ messages) p f r
  submit_more m messages p f r x = record {
    verdict = x.verdict;
    pool = x.pool;
    flow = x.flow;
    front = m ∷ x.front;
    rest = x.rest;
    result = x.result;
    split = ap (λ (t : List Message). m ∷ t) x.split;
    queued =
        x.queued
        ∙ append_assoc p.queue.items
            (record { connection_id = id; sequence = f.next_request_sequence; request = m } ∷ [])
            (work_items id (next_sequence f.next_request_sequence) x.front);
    responses = x.responses;
    valid = x.valid;
    stops = x.stops;
  }

  try_submit_full :
      (p : WorkerPool) (i : WorkItem)
      → (p.queue.closed || leb p.queue.capacity (length p.queue.items)) ≡ true
      → try_submit p i ≡ (false, p)
  unfolding try_submit try_push
  try_submit_full p i full = rw full refl

  try_submit_room :
      (p : WorkerPool) (i : WorkItem)
      → (p.queue.closed || leb p.queue.capacity (length p.queue.items)) ≡ false
      → try_submit p i ≡ (true, taken p i)
  unfolding try_submit try_push
  try_submit_room p i room = rw room refl

  -- A round that has passed the bound, given the next ones.
  submit_attempt :
      (again : WorkerPool → ConnectionFlow → Submitted) (m : Message) (messages : List Message)
      (p : WorkerPool) (f : ConnectionFlow)
      → IsFlow max f
      → in_flight f < max
      → ((p' : WorkerPool) → Submits max id messages p' (requested f) (again p' (requested f)))
      → Submits max id (m ∷ messages) p f (
          after_submit again f (
            try_submit p
              (record { connection_id = id; sequence = f.next_request_sequence; request = m })))
  unfolding after_submit
  submit_attempt again m messages p f v room ih =
      let i : WorkItem = record {
        connection_id = id;
        sequence = f.next_request_sequence;
        request = m;
      } in
      let goal : Bool × WorkerPool → Type 0 =
        λ x. Submits max id (m ∷ messages) p f (after_submit again f x) in
      elim (Bool-cases (p.queue.closed || leb p.queue.capacity (length p.queue.items))) [
        | inl full ↦
            subst goal (sym (try_submit_full p i full))
              (submit_stops (m ∷ messages) p f v (inr full))
        | inr free ↦
            subst goal (sym (try_submit_room p i free))
              (submit_more m messages p f (again (taken p i) (requested f)) (ih (taken p i)))
      ]

  submit_round :
      (attempt : Submitted) (messages : List Message) (p : WorkerPool) (f : ConnectionFlow)
      (b : Bool)
      → leb max (in_flight f) ≡ b
      → IsFlow max f
      → (in_flight f < max → Submits max id messages p f attempt)
      → Submits max id messages p f (if b then (false, p, f) else attempt)
  submit_round attempt messages p f true e v k =
      submit_stops messages p f v (inl (leb→le max (in_flight f) e))
  submit_round attempt messages p f false e v k = k (ground arith)

  submit_work_lem :
      (messages : List Message) (p : WorkerPool) (f : ConnectionFlow)
      → IsFlow max f
      → Submits max id messages p f (submit_work max id messages p f)
  unfolding submit_work
  submit_work_lem [] p f v = record {
    verdict = true;
    pool = p;
    flow = f;
    front = [];
    rest = [];
    result = refl;
    split = refl;
    queued = sym (append-nil p.queue.items);
    responses = refl;
    valid = v;
    stops = refl;
  }
  submit_work_lem (m ∷ messages) p f v =
      submit_round _ (m ∷ messages) p f (leb max (in_flight f)) refl v (λ room.
        submit_attempt (submit_work max id messages) m messages p f v room
          (λ p'. submit_work_lem messages p' (requested f) (requested-IsFlow max f h v room)))

-- `SubmitWork` ends with a front of the requests in the pool's queue, in order and under consecutive
-- sequence numbers; it stops early only at the bound on the requests in flight or at a pool that is
-- full or stopped; and no more requests than the bound are in flight, where the bound and the counters
-- are 64-bit numbers and the requests in flight before are within it.
pub submit_work-Submits :
    (max id : ℕ) (messages : List Message) (p : WorkerPool) (f : ConnectionFlow)
    → max < 2 ^ 64
    → IsFlow max f
    → Submits max id messages p f (submit_work max id messages p f)
submit_work-Submits max id messages p f h v = submit_work_lem max id h messages p f v
