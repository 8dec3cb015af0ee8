-- ===== src/BoundedQueue/Fifo.antt =====
-- include/pulsecore/core/bounded_queue.hpp under any interleaving of calls.
use pulse_core.Base.{
  ℕ, ◌≤◌, ◌≡◌, refl, sym, ap, subst, ◌∙◌, Bool, true, false, some, ◌⊎◌, inl, inr, List, [], ◌∷◌,
  ◌++◌, append_assoc, append-nil, arith, length, length-append, if◌then◌else◌,
}
use pulse_core.BoundedQueue.{
  BoundedQueue, Popped, item, ended, waiting, new_queue, try_push, pop_from, pop, close,
}

-- A call of some thread, in the order in which the threads get the mutex.
pub data Call {ℓ} (A : Type ℓ) : Type ℓ where
  pushes : A → Call A
  pops closes : Call A

-- The queue, the items that `TryPush` has accepted and those that `Pop` has returned, oldest first.
pub record History {ℓ} (A : Type ℓ) : Type ℓ where
  pub queue : BoundedQueue A
  pub accepted : List A
  pub returned : List A

-- What `Pop` returns on an empty queue and on one that holds items.
abbrev pub Pops {ℓ} : {A : Type ℓ} → BoundedQueue A → Popped A × BoundedQueue A → Type ℓ
Pops {A} q r =
    ((q.items ≡ []) × (r ≡ (if q.closed then ended else waiting, q)))
    ⊎ ((a : A) × (rest : List A) × (q.items ≡ a ∷ rest) × (r ≡ (item a, record q { items = rest })))

module _ {ℓ} {A : Type ℓ} where
  pop_from-Pops :
      (q : BoundedQueue A) (items : List A) → q.items ≡ items → Pops q (pop_from q items)
  unfolding pop_from
  pop_from-Pops q [] e = inl (e, ground arith)
  pop_from-Pops q (a ∷ rest) e = inr (a, rest, e, refl)

  pub pop-Pops : (q : BoundedQueue A) → Pops q (pop q)
  unfolding pop
  pop-Pops q = pop_from-Pops q q.items refl

  after_push : History A → A → Bool × BoundedQueue A → History A
  after_push h a (true, q) = record h { queue = q; accepted = h.accepted ++ (a ∷ []) }
  after_push h a (false, q) = record h { queue = q }

  after_pop : History A → Popped A × BoundedQueue A → History A
  after_pop h (item a, q) = record h { queue = q; returned = h.returned ++ (a ∷ []) }
  after_pop h (ended, q) = record h { queue = q }
  after_pop h (waiting, q) = record h { queue = q }

  unfoldable pub perform : History A → Call A → History A
  unfolding after_push after_pop
  perform h (pushes a) = after_push h a (try_push h.queue a)
  perform h pops = after_pop h (pop h.queue)
  perform h closes = record h { queue = close h.queue }

  unfoldable pub perform_all : History A → List (Call A) → History A
  perform_all h [] = h
  perform_all h (c ∷ cs) = perform_all (perform h c) cs

  abbrev pub start : BoundedQueue A → History A
  start q = record { queue = q; accepted = []; returned = [] }

  -- What was accepted is what was returned and then what is queued; the queue is within its capacity.
  pub record IsFifo (capacity : ℕ) (h : History A) : Type ℓ where
    pub in_order : h.accepted ≡ h.returned ++ h.queue.items
    pub bounded : length h.queue.items ≤ capacity
    pub fixed : h.queue.capacity ≡ capacity

  push-IsFifo :
      (capacity : ℕ) (h : History A) (a : A)
      → IsFifo capacity h
      → IsFifo capacity (after_push h a (try_push h.queue a))
  unfolding try_push after_push
  push-IsFifo capacity h a v =
      ground (
        arith,
        length-append h.queue.items (a ∷ []),
        append_assoc h.returned h.queue.items (a ∷ []),
      )

  pop-IsFifo :
      (capacity : ℕ) (h : History A) (items : List A)
      → h.queue.items ≡ items
      → IsFifo capacity h
      → IsFifo capacity (after_pop h (pop_from h.queue items))
  unfolding after_pop pop_from
  pop-IsFifo capacity h [] e v = ground arith
  pop-IsFifo capacity h (a ∷ items) e v = ground (arith, append_assoc h.returned (a ∷ []) items)

  perform-IsFifo :
      (capacity : ℕ) (h : History A) (c : Call A)
      → IsFifo capacity h
      → IsFifo capacity (perform h c)
  unfolding perform pop close
  perform-IsFifo capacity h (pushes a) v = push-IsFifo capacity h a v
  perform-IsFifo capacity h pops v = pop-IsFifo capacity h h.queue.items refl v
  perform-IsFifo capacity h closes v = record {
    in_order = v.in_order;
    bounded = v.bounded;
    fixed = v.fixed;
  }

  perform_all-IsFifo :
      (capacity : ℕ) (h : History A) (cs : List (Call A))
      → IsFifo capacity h
      → IsFifo capacity (perform_all h cs)
  unfolding perform_all
  perform_all-IsFifo capacity h [] v = v
  perform_all-IsFifo capacity h (c ∷ cs) v =
      perform_all-IsFifo capacity (perform h c) cs (perform-IsFifo capacity h c v)

  new_queue-IsFifo :
      (capacity : ℕ) (q : BoundedQueue A) → new_queue capacity ≡ some q → IsFifo capacity (start q)
  unfolding new_queue
  new_queue-IsFifo capacity q e = ground arith

  -- Whatever calls the threads make of a new queue, and in whatever order: what `Pop` has returned,
  -- followed by what is queued, is what `TryPush` has accepted, and the queue never holds more than
  -- its capacity.
  pub queue-IsFifo :
      (capacity : ℕ) (q : BoundedQueue A) (cs : List (Call A))
      → new_queue capacity ≡ some q
      → IsFifo capacity (perform_all (start q) cs)
  queue-IsFifo capacity q cs e =
      perform_all-IsFifo capacity (start q) cs (new_queue-IsFifo capacity q e)

  -- Once closed, a call accepts nothing and leaves the queue closed.
  abbrev IsShut : History A → History A → Type ℓ
  IsShut h h' = (h'.accepted ≡ h.accepted) × (h'.queue.closed ≡ true)

  IsShut-pop :
      (h : History A) (items : List A)
      → h.queue.closed ≡ true
      → IsShut h (after_pop h (pop_from h.queue items))
  unfolding after_pop pop_from
  IsShut-pop h [] e = ground arith
  IsShut-pop h (a ∷ items) e = ground arith

  IsShut-step : (h : History A) (c : Call A) → h.queue.closed ≡ true → IsShut h (perform h c)
  unfolding perform pop close after_push try_push
  IsShut-step h (pushes a) e = ground arith
  IsShut-step h pops e = IsShut-pop h h.queue.items e
  IsShut-step h closes e = (refl, refl)

  -- After `Close` no call of any thread is accepted any more, and none opens the queue again.
  pub closed_accepts_none :
      (h : History A) (cs : List (Call A))
      → h.queue.closed ≡ true
      → ((perform_all h cs).accepted ≡ h.accepted) × ((perform_all h cs).queue.closed ≡ true)
  unfolding perform_all
  closed_accepts_none h [] e = (refl, e)
  closed_accepts_none h (c ∷ cs) e =
      let (same, shut) = IsShut-step h c e in
      let (same', shut') = closed_accepts_none (perform h c) cs shut in (same' ∙ same, shut')

  abbrev pub pop_calls : List A → List (Call A)
  pop_calls [] = []
  pop_calls (a ∷ items) = pops ∷ pop_calls items

  drains_from :
      (h : History A) (items : List A)
      → h.queue.items ≡ items
      → h.queue.closed ≡ true
      → ((perform_all h (pop_calls items)).returned ≡ h.returned ++ items)
        × (pop (perform_all h (pop_calls items)).queue
            ≡ (ended, (perform_all h (pop_calls items)).queue))
  unfolding perform_all perform pop pop_from after_pop
  drains_from h [] e shut = (sym (append-nil h.returned), ap (pop_from h.queue) e ∙ rw shut refl)
  drains_from h (a ∷ items) e shut =
      let h' = record h {
        queue = record h.queue { items = items };
        returned = h.returned ++ (a ∷ []);
      } in
      let first : perform h pops ≡ h' = ap (λ t. after_pop h (pop_from h.queue t)) e in
      let (rest, end) = drains_from h' items refl shut in
      subst
        (λ (x : History A).
          ((perform_all x (pop_calls items)).returned ≡ h.returned ++ (a ∷ items))
          × (pop (perform_all x (pop_calls items)).queue
              ≡ (ended, (perform_all x (pop_calls items)).queue)))
        (sym first) (rest ∙ append_assoc h.returned (a ∷ []) items, end)

  -- A closed queue hands out all that it holds, oldest first, and only then reports the end.
  pub closed_drains :
      (h : History A)
      → h.queue.closed ≡ true
      → ((perform_all h (pop_calls h.queue.items)).returned ≡ h.returned ++ h.queue.items)
        × (pop (perform_all h (pop_calls h.queue.items)).queue
            ≡ (ended, (perform_all h (pop_calls h.queue.items)).queue))
  closed_drains h shut = drains_from h h.queue.items refl shut
