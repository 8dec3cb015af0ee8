-- ===== src/Server/Run/Upkeep.antt =====
-- The events of the loop of `Run` in src/network/epoll_echo_server.cpp, on the connections, the flows
-- and the kernel's descriptors.
use pulse_core.Base.{
  ℕ, zero, suc, ◌<◌, ◌≡◌, refl, sym, subst, Bool, true, false, Bool-cases, inl, inr, none, List, [],
  ◌∷◌, arith, ◌==◌,
}
use pulse_core.Sockets.{eintr, eagain, ewouldblock, econnreset, epipe, enoent, other_error}
use pulse_core.Connection.{is_would_block}
use pulse_core.Registry.{find_connection}
use pulse_core.WorkerPool.{WorkResult}
use pulse_core.Server.Removal.{Reactor}
use pulse_core.Server.Kernel.{
  Kernel, IsKernel, ObjectRead, whole, partial, nothing, read_failed, GoesOn, Ready, Waited, ready,
  wait_failed,
}
use pulse_core.Server.Effects.{State, Action, modify}
use pulse_core.Server.Handlers.{Options, listener_key, worker_wakeup_key, shutdown_signal_key}
use pulse_core.Server.Handlers.Upkeep.{Faulty, Settled}
use pulse_core.Server.Consistent.{Bounds, Tracked, Holds}
use pulse_core.Server.Consistent.Outcomes.{Meets, Meets-continue}
use pulse_core.Server.Consistent.Serving.{Tracked-Anything}
use pulse_core.Server.Accept.Admit.{handle_listener_event-Settles}
use pulse_core.Server.Events.Handle.{IsEnough, handle_connection_event-Settles, deliver-Settles}
use pulse_core.Server.Run.{
  after_object, drain_object, deliver_all, handle_worker_wakeup, handle_shutdown_signal, dispatch,
  next_event, dispatch_all, after_wait, run_round, go_on, run,
}
use pulse_core.Server.Run.Close.{Shut, close_all_connections-Closes}

module _ {W : Type 0} (k : Kernel W) (st : IsKernel k) (limits : Bounds) where
  abbrev pub Upholds : Action W (Unit {0}) → Type 0
  Upholds action =
      (s : State) (w : W)
      → Settled k st limits tt s w
      → Meets (Faulty k st limits) (Settled k st limits) (action s w)

  view-Settled :
      (s : State) (w w' : W)
      → st.view w' ≡ st.view w
      → Settled k st limits tt s w
      → Settled k st limits tt s w'
  view-Settled s w w' same h = subst (Holds Tracked limits s.reactor) (sym same) h

  view-Faulty :
      (s : State) (w w' : W)
      → st.view w' ≡ st.view w
      → Settled k st limits tt s w
      → Faulty k st limits s w'
  view-Faulty s w w' same h =
      Tracked-Anything limits 0 s.reactor (st.view w') (view-Settled s w w' same h)

  module _ (g : State → State) (keeps : (s : State) → (g s).reactor ≡ s.reactor) where
    after_object-Settles :
        (again : Action W (Unit {0})) (a : ObjectRead) (s : State) (w w' : W)
        → st.view w' ≡ st.view w
        → Settled k st limits tt s w
        → ((s1 : State)
            → GoesOn a
            → Settled k st limits tt s1 w'
            → Meets (Faulty k st limits) (Settled k st limits) (again s1 w'))
        → Meets (Faulty k st limits) (Settled k st limits) (after_object k (modify g) again a s w')
    unfolding after_object is_would_block
    after_object-Settles again whole s w w' same h ih = ih (g s) tt (
        subst (λ (r : Reactor). Holds Tracked limits r (st.view w')) (sym (keeps s))
          (view-Settled s w w' same h))
    after_object-Settles again partial s w w' same h ih = view-Faulty s w w' same h
    after_object-Settles again nothing s w w' same h ih = view-Settled s w w' same h
    after_object-Settles again (read_failed eintr) s w w' same h ih =
        ih s tt (view-Settled s w w' same h)
    after_object-Settles again (read_failed eagain) s w w' same h ih = view-Settled s w w' same h
    after_object-Settles again (read_failed ewouldblock) s w w' same h ih =
        view-Settled s w w' same h
    after_object-Settles again (read_failed econnreset) s w w' same h ih = view-Faulty s w w' same h
    after_object-Settles again (read_failed epipe) s w w' same h ih = view-Faulty s w w' same h
    after_object-Settles again (read_failed enoent) s w w' same h ih = view-Faulty s w w' same h
    after_object-Settles again (read_failed (other_error n)) s w w' same h ih =
        view-Faulty s w w' same h

    drain_object-Settles :
        (fd fuel : ℕ) (s : State) (w : W)
        → st.delay w < fuel
        → Settled k st limits tt s w
        → Meets (Faulty k st limits) (Settled k st limits) (drain_object k (modify g) fd fuel s w)
    unfolding drain_object
    drain_object-Settles fd zero s w enough h = absurd (omega (arith, enough))
    drain_object-Settles fd (suc fuel) s w enough h =
        after_object-Settles (drain_object k (modify g) fd fuel) (k.read_object fd w).0 s w
          (k.read_object fd w).1 (st.read_view fd w) h
          (λ s1 goes h1.
            drain_object-Settles fd fuel s1 (k.read_object fd w).1
              (omega (arith, enough, st.read_delay fd w goes)) h1)

  module _ (o : Options) (fuel : ℕ) (enough : IsEnough st limits o fuel) where
    calm : (w : W) → st.delay w < fuel
    calm w = omega (arith, enough.reads, st.delay_most w)

    deliver_all-Settles : (results : List WorkResult) → Upholds (deliver_all k o fuel results)
    unfolding deliver_all
    deliver_all-Settles [] s w h = h
    deliver_all-Settles (r ∷ results) s w h =
        Meets-continue (Faulty k st limits) (Settled k st limits) (Settled k st limits) _ _
          (deliver-Settles k st limits o fuel r.connection_id r.sequence r.response s w h)
          (λ _ s1 w1 h1. deliver_all-Settles results s1 w1 h1)

    handle_worker_wakeup-Settles : Upholds (handle_worker_wakeup k o fuel)
    unfolding handle_worker_wakeup
    handle_worker_wakeup-Settles s w h =
        Meets-continue (Faulty k st limits) (Settled k st limits) (Settled k st limits) _ _
          (drain_object-Settles (λ s. s) (λ s. refl) o.worker_wakeup fuel s w (calm w) h)
          (λ _ s1 w1 h1. deliver_all-Settles s1.completed_work _ w1 h1)

    handle_shutdown_signal-Settles : Upholds (handle_shutdown_signal k o fuel)
    unfolding handle_shutdown_signal
    handle_shutdown_signal-Settles s w h =
        drain_object-Settles (λ s. record s { stop_requested = true }) (λ s. refl) o.shutdown_signal
          fuel s w (calm w) h

    -- Any event of the loop.
    pub dispatch-Settles : (e : Ready) → Upholds (dispatch k o fuel e)
    unfolding dispatch
    dispatch-Settles e s w h = elim (Bool-cases (e.key == listener_key)) [
      | inl listener ↦ rw listener (
          handle_listener_event-Settles k st limits o enough.clients fuel s w
            (omega (arith, enough.reads)) h)
      | inr other ↦ rw other (elim (Bool-cases (e.key == worker_wakeup_key)) [
        | inl wakeup ↦ rw wakeup (handle_worker_wakeup-Settles s w h)
        | inr other ↦ rw other (elim (Bool-cases (e.key == shutdown_signal_key)) [
          | inl shutdown ↦ rw shutdown (handle_shutdown_signal-Settles s w h)
          | inr other ↦
              rw other (handle_connection_event-Settles k st limits o fuel e.key e s w enough h)
        ])
      ])
    ]

    next_event-Settles :
        (rest : Action W (Unit {0})) (b : Bool) → Upholds rest → Upholds (next_event k rest b)
    unfolding next_event
    next_event-Settles rest true ih s w h = h
    next_event-Settles rest false ih s w h = ih s w h

    dispatch_all-Settles : (events : List Ready) → Upholds (dispatch_all k o fuel events)
    unfolding dispatch_all
    dispatch_all-Settles [] s w h = h
    dispatch_all-Settles (e ∷ events) s w h =
        next_event-Settles _ s.stop_requested
          (λ s w h.
            Meets-continue (Faulty k st limits) (Settled k st limits) (Settled k st limits) _ _
              (dispatch-Settles e s w h) (λ _ s1 w1 h1. dispatch_all-Settles events s1 w1 h1))
          s w h

    after_wait-Settles :
        (a : Waited) (s : State) (w w' : W)
        → st.view w' ≡ st.view w
        → Settled k st limits tt s w
        → Meets (Faulty k st limits) (Settled k st limits) (after_wait k o fuel a s w')
    unfolding after_wait
    after_wait-Settles (ready events) s w w' same h =
        dispatch_all-Settles events s w' (view-Settled s w w' same h)
    after_wait-Settles (wait_failed eintr) s w w' same h = view-Settled s w w' same h
    after_wait-Settles (wait_failed eagain) s w w' same h = view-Faulty s w w' same h
    after_wait-Settles (wait_failed ewouldblock) s w w' same h = view-Faulty s w w' same h
    after_wait-Settles (wait_failed econnreset) s w w' same h = view-Faulty s w w' same h
    after_wait-Settles (wait_failed epipe) s w w' same h = view-Faulty s w w' same h
    after_wait-Settles (wait_failed enoent) s w w' same h = view-Faulty s w w' same h
    after_wait-Settles (wait_failed (other_error n)) s w w' same h = view-Faulty s w w' same h

    run_round-Settles : Upholds (run_round k o fuel)
    unfolding run_round
    run_round-Settles s w h = after_wait-Settles (k.wait w).0 s w (k.wait w).1 (st.wait_view w) h

    -- After the rounds: no connection is left, if `Run` has returned.
    abbrev pub Ran : Bool → State → W → Type 0
    Ran false s w = Settled k st limits tt s w
    Ran true s w =
        Settled k st limits tt s w
        × (s.reactor.flows ≡ [])
        × ((id : ℕ) → find_connection s.reactor.connections id ≡ none)

    go_on-Ran :
        (again : Action W Bool) (b : Bool) (s : State) (w : W)
        → ((s : State) (w : W)
            → Settled k st limits tt s w
            → Meets (Faulty k st limits) Ran (again s w))
        → Settled k st limits tt s w
        → Meets (Faulty k st limits) Ran (go_on k again (run_round k o fuel) b s w)
    unfolding go_on
    go_on-Ran again true s w ih h =
        Meets-continue (Faulty k st limits) (Shut k st limits s w) Ran _ _
          (close_all_connections-Closes k st limits s w h)
          (λ _ s1 w1 (y, h1). (h1, y.no_flows, y.no_connections))
    go_on-Ran again false s w ih h =
        Meets-continue (Faulty k st limits) (Settled k st limits) Ran _ _ (run_round-Settles s w h)
          (λ _ s1 w1 h1. ih s1 w1 h1)

    -- `Run`, for any number of rounds and whatever events each round gets, where the kernel does as
    -- documented, the fuel is more than its interruptions and the bytes of a read or a write can
    -- use, the connections are within their bound and each has its flow, an open descriptor of its
    -- own and its interest in epoll: each round ends. While it runs, all that holds at the end of
    -- each round; when it has returned, no connection and no flow is left; when it throws, each
    -- connection still has its flow and its own open descriptor, and the flow's mark tells of the
    -- interest.
    pub run-Settles :
        (rounds : ℕ) (s : State) (w : W)
        → Settled k st limits tt s w
        → Meets (Faulty k st limits) Ran (run k o fuel rounds s w)
    unfolding run
    run-Settles zero s w h = h
    run-Settles (suc rounds) s w h =
        go_on-Ran (run k o fuel rounds) s.stop_requested s w (λ s w h. run-Settles rounds s w h) h
