-- ===== src/WorkerPool/Delivery.antt =====
-- src/network/worker_pool.cpp: the pool under any interleaving of the reactor and its threads.
use mathlib.Core.List.{Perm, perm_middle}
use mathlib.Core.List.Perm
use pulse_core.Base.{
  ℕ, ◌≤◌, ◌<◌, ◌≡◌, sym, ap, subst, ◌∙◌, Bool, true, false, Bool-cases, inl, inr, some, List, [],
  ◌∷◌, ◌++◌, ◌||◌, leb, append_assoc, append-nil, arith, length, length-append, if◌then◌else◌,
}
use pulse_core.BoundedQueue.{BoundedQueue, try_push, Popped, item, ended, waiting, close, new_queue}
use pulse_core.BoundedQueue.Fifo.{pop-Pops}
use pulse_core.WorkerPool.{
  WorkItem, WorkHandler, WorkerPool, new_pool, work, try_submit, stop, take_work, after_take,
  finish_work,
}
use pulse_core.WorkerPool.Results.{Results, work-IsResult, Results-append}

-- A step of the system: a call of the reactor, or a move of a thread. `submitted` collects the accepted
-- items and `done` those whose result has been handed over, oldest first.
pub record State : Type 0 where
  pub pool : WorkerPool
  pub submitted : List WorkItem
  pub done : List WorkItem

unfoldable pub after_submit : State → WorkItem → Bool × WorkerPool → State
after_submit s i (true, p) = record s { pool = p; submitted = s.submitted ++ (i ∷ []) }
after_submit s i (false, p) = record s { pool = p }

pub data Step (handler : WorkHandler) (s : State) : State → Type 0 where
  submits : (i : WorkItem) → Step handler s (after_submit s i (try_submit s.pool i))
  takes :
      length s.pool.busy < s.pool.worker_count
      → Step handler s (record s { pool = take_work s.pool })
  finishes :
      (before : List WorkItem) (i : WorkItem) (after : List WorkItem)
      → s.pool.busy ≡ before ++ (i ∷ after)
      → Step handler s
          (record s { pool = finish_work handler s.pool before i after; done = s.done ++ (i ∷ []) })
  stops : Step handler s (record s { pool = stop s.pool })

pub data Reach (handler : WorkHandler) (s : State) : State → Type 0 where
  here : Reach handler s s
  next : {t u : State} → Reach handler s t → Step handler t u → Reach handler s u

-- The accepted items are those done, those in work and those queued; the results handed over are
-- one for each item done, in order.
pub record Delivers (handler : WorkHandler) (s : State) : Type 0 where
  pub conserved : Perm s.submitted (s.done ++ (s.pool.busy ++ s.pool.queue.items))
  pub results : Results handler s.done s.pool.completed
  pub threads : length s.pool.busy ≤ s.pool.worker_count

module _ (handler : WorkHandler) where
  submit-Delivers :
      (s : State) (i : WorkItem)
      → Delivers handler s
      → Delivers handler (after_submit s i (try_submit s.pool i))
  unfolding after_submit try_submit try_push
  submit-Delivers s i v =
      elim (Bool-cases
        (s.pool.queue.closed || leb s.pool.queue.capacity (length s.pool.queue.items))) [
          | inl full ↦
              rw full (record { conserved = v.conserved; results = v.results; threads = v.threads })
          | inr room ↦ rw room (record {
            conserved =
                subst (Perm (s.submitted ++ (i ∷ [])))
                  (append_assoc s.done _ (i ∷ [])
                    ∙ ap (◌++◌ s.done) (append_assoc s.pool.busy s.pool.queue.items (i ∷ [])))
                  (Perm.append v.conserved (Perm.refl (i ∷ [])));
            results = v.results;
            threads = v.threads;
          })
        ]

  -- The item in the middle of the busy ones comes first.
  bring_forward :
      (before : List WorkItem) (i : WorkItem) (after items : List WorkItem)
      → Perm ((before ++ (i ∷ after)) ++ items) (i ∷ ((before ++ after) ++ items))
  bring_forward before i after items =
      subst (λ t. Perm t (i ∷ ((before ++ after) ++ items)))
        (sym (append_assoc before (i ∷ after) items))
        (subst (λ t. Perm (before ++ (i ∷ (after ++ items))) (i ∷ t))
          (sym (append_assoc before after items)) (perm_middle before (after ++ items)))

  idle_pop :
      (s : State) (shut : Bool)
      → Delivers handler s
      → Delivers handler
          (record s { pool = after_take s.pool (if shut then ended else waiting, s.pool.queue) })
  unfolding after_take
  idle_pop s true v = v
  idle_pop s false v = v

  take_item :
      (s : State) (i : WorkItem) (rest : List WorkItem)
      → s.pool.queue.items ≡ i ∷ rest
      → length s.pool.busy < s.pool.worker_count
      → Delivers handler s
      → Delivers handler
          (record s { pool = after_take s.pool (item i, record s.pool.queue { items = rest }) })
  unfolding after_take
  take_item s i rest held h v = record {
    conserved =
        Perm.trans (subst (λ t. Perm s.submitted (s.done ++ (s.pool.busy ++ t))) held v.conserved)
          (Perm.append (Perm.refl s.done) (perm_middle s.pool.busy rest));
    results = v.results;
    threads = h;
  }

  -- `take_work` by what `pop` returns.
  Taken : State → Popped WorkItem × BoundedQueue WorkItem → Type 0
  Taken s x = Delivers handler (record s { pool = after_take s.pool x })

  take-Delivers :
      (s : State)
      → length s.pool.busy < s.pool.worker_count
      → Delivers handler s
      → Delivers handler (record s { pool = take_work s.pool })
  unfolding take_work Taken
  take-Delivers s h v = elim (pop-Pops s.pool.queue) [
    | inl (_, e) ↦ subst (Taken s) (sym e) (idle_pop s s.pool.queue.closed v)
    | inr (i, rest, held, e) ↦ subst (Taken s) (sym e) (take_item s i rest held h v)
  ]

  finish-Delivers :
      (s : State) (before : List WorkItem) (i : WorkItem) (after : List WorkItem)
      → s.pool.busy ≡ before ++ (i ∷ after)
      → Delivers handler s
      → Delivers handler
          (record s { pool = finish_work handler s.pool before i after; done = s.done ++ (i ∷ []) })
  unfolding finish_work
  finish-Delivers s before i after e v = record {
    conserved =
        subst (Perm s.submitted)
          (sym (append_assoc s.done (i ∷ []) ((before ++ after) ++ s.pool.queue.items)))
          (Perm.trans
            (subst (λ t. Perm s.submitted (s.done ++ (t ++ s.pool.queue.items))) e v.conserved)
            (Perm.append (Perm.refl s.done) (bring_forward before i after s.pool.queue.items)));
    results =
        Results-append handler s.done s.pool.completed i (work handler i) v.results
          (work-IsResult handler i);
    threads = omega (
      arith,
      v.threads,
      ap length e,
      length-append before after,
      length-append before (i ∷ after),
    );
  }

  Step-Delivers : {s t : State} → Step handler s t → Delivers handler s → Delivers handler t
  unfolding stop close
  Step-Delivers {s} (submits i) v = submit-Delivers s i v
  Step-Delivers {s} (takes h) v = take-Delivers s h v
  Step-Delivers {s} (finishes before i after e) v = finish-Delivers s before i after e v
  Step-Delivers stops v = record {
    conserved = v.conserved;
    results = v.results;
    threads = v.threads;
  }

  Reach-Delivers : {s t : State} → Reach handler s t → Delivers handler s → Delivers handler t
  Reach-Delivers here v = v
  Reach-Delivers (next r st) v = Step-Delivers st (Reach-Delivers r v)

  new_pool_lem :
      (workers capacity : ℕ) (p : WorkerPool)
      → new_pool workers capacity ≡ some p
      → (p.busy ≡ []) × (p.completed ≡ []) × (p.queue.items ≡ [])
  unfolding new_pool new_queue
  new_pool_lem workers capacity p e = ground arith

  new_pool-Delivers :
      (workers capacity : ℕ) (p : WorkerPool)
      → new_pool workers capacity ≡ some p
      → Delivers handler (record { pool = p; submitted = []; done = [] })
  new_pool-Delivers workers capacity p e =
      let (free, clean, empty) = new_pool_lem workers capacity p e in
      record {
        conserved =
            subst (Perm []) (sym (ap (◌++◌ p.busy) empty ∙ append-nil p.busy ∙ free))
              (Perm.refl []);
        results = subst (Results handler []) (sym clean) tt;
        threads = omega (arith, ap length free);
      }

-- Whatever the reactor and the threads do, in any order: of a pool's accepted items each is queued, in
-- work or done, exactly once; every item done has led to exactly one result, in the order of completion,
-- which carries the item's connection and sequence number and the handler's response, or, when the
-- handler throws, an error response under the request's identifier that says "worker handler failed";
-- and no more items are in work than there are threads.
pub delivery :
    (handler : WorkHandler) (workers capacity : ℕ) (p : WorkerPool) (s : State)
    → new_pool workers capacity ≡ some p
    → Reach handler (record { pool = p; submitted = []; done = [] }) s
    → Delivers handler s
delivery handler workers capacity p s e r =
    Reach-Delivers handler r (new_pool-Delivers handler workers capacity p e)
