-- ===== src/Server/Run/Threads.antt =====
-- The server of src/network/epoll_echo_server.cpp among its threads: the reactor's events, and what the
-- worker threads and the callers of `Stop` do in between. A method that takes the mutex is one step.
use pulse_core.Base.{
  ℕ, zero, suc, ◌<◌, ◌≡◌, refl, sym, subst, ◌∙◌, true, false, List, [], ◌∷◌, ◌++◌, arith, length,
}
use pulse_core.Base.Maps.{find}
use pulse_core.Sockets.{eintr, eagain, ewouldblock, econnreset, epipe, enoent, other_error}
use pulse_core.Connection.{ConnectionLimits}
use pulse_core.Registry.{new_registry, find_connection, registry_size}
use pulse_core.Registry.Identity.{new_registry-IsRegistry}
use pulse_core.WorkerPool.{WorkItem, WorkHandler, WorkerPool, take_work, finish_work, work}
use pulse_core.Server.Kernel.{
  Kernel, IsKernel, ObjectRead, whole, partial, nothing, read_failed, Ready,
}
use pulse_core.Server.Effects.{State, Done, ok, threw, stuck, Action}
use pulse_core.Server.Handlers.{Options}
use pulse_core.Server.Handlers.Upkeep.{Faulty, Settled}
use pulse_core.Server.Consistent.{Bounds, Tracked, Holds}
use pulse_core.Server.Consistent.Outcomes.{Meets}
use pulse_core.Server.Events.Handle.{IsEnough}
use pulse_core.Server.Run.{
  dispatch, after_notify, notify_loop, notify_worker_wakeup, stop, store_completed_work,
}
use pulse_core.Server.Run.Upkeep.{dispatch-Settles}

-- What the constructor leaves of the members that change.
unfoldable pub new_state : ConnectionLimits → WorkerPool → State
new_state limits pool = record {
  reactor = record { connections = new_registry limits; flows = [] };
  pool = pool;
  completed_work = [];
  stop_requested = false;
}

-- A thread that has finished its item hands the result to the callback.
unfoldable pub complete_work :
    {W : Type 0}
    → Kernel W
    → Options
    → ℕ
    → WorkHandler
    → List WorkItem
    → WorkItem
    → List WorkItem
    → Action W (Unit {0})
complete_work k o fuel handler before i after s w =
    store_completed_work k o fuel (work handler i)
      (record s { pool = finish_work handler s.pool before i after }) w

module _ {W : Type 0} (k : Kernel W) (o : Options) (fuel : ℕ) (handler : WorkHandler) where
  pub data Step (s : State) (w : W) : State → W → Type 0 where
    waits : Step s w s (k.wait w).1
    reacts :
        (e : Ready) {s' : State} {w' : W} → dispatch k o fuel e s w ≡ ok tt s' w' → Step s w s' w'
    takes :
        length s.pool.busy < s.pool.worker_count → Step s w (record s { pool = take_work s.pool }) w
    completes :
        (before : List WorkItem) (i : WorkItem) (after : List WorkItem) {s' : State} {w' : W}
        → s.pool.busy ≡ before ++ (i ∷ after)
        → complete_work k o fuel handler before i after s w ≡ ok tt s' w'
        → Step s w s' w'
    stops : {s' : State} {w' : W} → stop k o fuel s w ≡ ok tt s' w' → Step s w s' w'

  pub data Reach (s : State) (w : W) : State → W → Type 0 where
    here : Reach s w s w
    next : {s1 s2 : State} {w1 w2 : W} → Reach s w s1 w1 → Step s1 w1 s2 w2 → Reach s w s2 w2

  module _ (st : IsKernel k) (limits : Bounds) where
    -- The connections and the flows, and what the kernel holds, are as they were.
    abbrev Aside : State → W → Done W (Unit {0}) → Type 0
    Aside s w (ok _ s' w') = (s'.reactor ≡ s.reactor) × (st.view w' ≡ st.view w)
    Aside s w (threw e s' w') = ⊥
    Aside s w stuck = ⊥

    after_notify-Aside :
        (again : Action W (Unit {0})) (a : ObjectRead) (s : State) (w w' : W)
        → st.view w' ≡ st.view w
        → (a ≡ read_failed eintr → Aside s w' (again s w'))
        → ((d : Done W (Unit {0})) → Aside s w' d → Aside s w d)
        → Aside s w (after_notify k again a s w')
    unfolding after_notify
    after_notify-Aside again (read_failed eintr) s w w' same retry shift = shift _ (retry refl)
    after_notify-Aside again (read_failed eagain) s w w' same retry shift = (refl, same)
    after_notify-Aside again (read_failed ewouldblock) s w w' same retry shift = (refl, same)
    after_notify-Aside again (read_failed econnreset) s w w' same retry shift = (refl, same)
    after_notify-Aside again (read_failed epipe) s w w' same retry shift = (refl, same)
    after_notify-Aside again (read_failed enoent) s w w' same retry shift = (refl, same)
    after_notify-Aside again (read_failed (other_error n)) s w w' same retry shift = (refl, same)
    after_notify-Aside again whole s w w' same retry shift = (refl, same)
    after_notify-Aside again partial s w w' same retry shift = (refl, same)
    after_notify-Aside again nothing s w w' same retry shift = (refl, same)

    Aside-from :
        (s : State) (w w' : W) (d : Done W (Unit {0}))
        → st.view w' ≡ st.view w
        → Aside s w' d
        → Aside s w d
    Aside-from s w w' (ok _ s2 w2) same (r, v) = (r, v ∙ same)
    Aside-from s w w' (threw e s2 w2) same a = a
    Aside-from s w w' stuck same a = a

    notify_loop-Aside :
        (fd n : ℕ) (s : State) (w : W) → st.delay w < n → Aside s w (notify_loop k fd n s w)
    unfolding notify_loop
    notify_loop-Aside fd zero s w enough = absurd (omega (arith, enough))
    notify_loop-Aside fd (suc n) s w enough =
        after_notify-Aside (notify_loop k fd n) (k.write_object fd w).0 s w (k.write_object fd w).1
          (st.write_view fd w)
          (λ interrupted.
            notify_loop-Aside fd n s (k.write_object fd w).1
              (omega (arith, enough, st.write_delay fd w interrupted)))
          (λ d a. Aside-from s w (k.write_object fd w).1 d (st.write_view fd w) a)

    module _ (enough : IsEnough st limits o fuel) where
      calm : (w : W) → st.delay w < fuel
      calm w = omega (arith, enough.reads, st.delay_most w)

      -- `Stop` and a worker's completion always return, and leave the connections alone.
      stop-Aside : (s : State) (w : W) → Aside s w (stop k o fuel s w)
      unfolding stop notify_worker_wakeup
      stop-Aside s w =
          notify_loop-Aside o.worker_wakeup fuel (record s { stop_requested = true }) w (calm w)

      complete_work-Aside :
          (before : List WorkItem) (i : WorkItem) (after : List WorkItem) (s : State) (w : W)
          → Aside s w (complete_work k o fuel handler before i after s w)
      unfolding complete_work store_completed_work notify_worker_wakeup
      complete_work-Aside before i after s w =
          notify_loop-Aside o.worker_wakeup fuel
            (record s {
              pool = finish_work handler s.pool before i after;
              completed_work = s.completed_work ++ (work handler i ∷ []);
            })
            w (calm w)

      aside-Settled :
          (s s' : State) (w w' : W)
          → (s'.reactor ≡ s.reactor) × (st.view w' ≡ st.view w)
          → Settled k st limits tt s w
          → Settled k st limits tt s' w'
      aside-Settled s s' w w' (r, v) h =
          subst (λ q. Holds Tracked limits q (st.view w')) (sym r)
            (subst (Holds Tracked limits s.reactor) (sym v) h)

      Step-Settled :
          {s s' : State} {w w' : W}
          → Step s w s' w'
          → Settled k st limits tt s w
          → Settled k st limits tt s' w'
      Step-Settled {s} {s'} {w} {w'} waits h = aside-Settled s s w w' (refl, st.wait_view w) h
      Step-Settled {s} {s'} {w} {w'} (reacts e done) h =
          subst (Meets (Faulty k st limits) (Settled k st limits)) done
            (dispatch-Settles k st limits o fuel enough e s w h)
      Step-Settled (takes idle) h = h
      Step-Settled {s} {s'} {w} {w'} (completes before i after busy done) h =
          aside-Settled s s' w w' (subst (Aside s w) done (complete_work-Aside before i after s w))
            h
      Step-Settled {s} {s'} {w} {w'} (stops done) h =
          aside-Settled s s' w w' (subst (Aside s w) done (stop-Aside s w)) h

      new_state-Settled :
          (pool : WorkerPool) (w : W)
          → Settled k st limits tt (new_state limits.connection_limits pool) w
      unfolding new_state new_registry registry_size find_connection find
      new_state-Settled pool w = record {
        registry = new_registry-IsRegistry limits.connection_limits;
        limited = refl;
        bounded = omega arith;
        slots = λ id. tt;
        distinct = λ i j c d p q same. absurd (cc p);
      }

      -- In every state that a new server reaches by events of the reactor, by worker threads that
      -- take and complete work, and by calls of `Stop`, in any order, where the kernel does as
      -- documented and the fuel is enough: there are no more connections than the bound, every
      -- connection has its flow, its own open descriptor and the interest in epoll that its state
      -- asks for, and the next event, whatever it is, ends, and when it returns all that holds
      -- again.
      pub Reach-Settled :
          (pool : WorkerPool) (start w : W) (s : State)
          → Reach (new_state limits.connection_limits pool) start s w
          → Settled k st limits tt s w
            × ((e : Ready)
                → Meets (Faulty k st limits) (Settled k st limits) (dispatch k o fuel e s w))
      Reach-Settled pool start w s r =
          let h = reached r in (h, λ e. dispatch-Settles k st limits o fuel enough e s w h)
        where
          reached :
              {s : State} {w : W}
              → Reach (new_state limits.connection_limits pool) start s w
              → Settled k st limits tt s w
          reached here = new_state-Settled pool start
          reached (next r step) = Step-Settled step (reached r)
