-- ===== src/Server/Accept/Admit.antt =====
-- `HandleListenerEvent` of src/network/epoll_echo_server.cpp, on the connections, the flows and the
-- kernel's descriptors.
use pulse_core.Base.{
  ℕ, zero, suc, ◌<◌, ◌≤◌, ◌≡◌, ◌≢◌, refl, sym, ap, subst, ◌∙◌, Bool, true, false, Option, none,
  some, arith, leb, leb→lt,
}
use pulse_core.Base.Maps.{find-none-contains}
use pulse_core.Sockets.{eintr, eagain, ewouldblock, econnreset, epipe, enoent, other_error}
use pulse_core.Connection.{Connection, is_would_block, has_pending_output, new_connection}
use pulse_core.Registry.{find_connection, registry_size}
use pulse_core.Server.Interest.{ctl_add, connection_event}
use pulse_core.Server.Kernel.{Kernel, IsKernel, Accepted, accepted, accept_failed, Opens}
use pulse_core.Server.Effects.{State, Action}
use pulse_core.Server.Handlers.{Options, max_accepts_per_event}
use pulse_core.Server.Handlers.Upkeep.{Faulty, Settled}
use pulse_core.Server.Consistent.{
  Bounds, Anything, Tracked, Holds, Holds-views, Holds-weaken, Holds-is_open,
}
use pulse_core.Server.Consistent.Outcomes.{Meets, Meets-continue}
use pulse_core.Server.Accept.{
  after_accept, accept_non_blocking, start_flow, register_flow, register_client, admit_by,
  admit_client, accept_clients, handle_listener_event,
}
use pulse_core.Server.Accept.Register.{
  Admitted, Registered, drop_client, add_connection-Meets, no_flow, after_client_ctl-Meets,
}

module _ {W : Type 0} (k : Kernel W) (st : IsKernel k) (limits : Bounds) where
  module _ (fd : ℕ) (s : State) (w : W) (x : Admitted limits fd s.reactor (st.view w))
      (room : registry_size s.reactor.connections < limits.max_connections) where
    start_flow-Meets :
        (id : ℕ) (s1 : State) (w1 : W)
        → Registered s.reactor fd id s1
        → st.view w1 ≡ st.view w
        → Meets
            (Faulty k st limits)
            (Settled k st limits)
            (start_flow k id (new_connection id fd s.reactor.connections.limits) false s1 w1)
    unfolding start_flow new_connection
    start_flow-Meets id s1 w1 q view =
        let c = new_connection id fd s.reactor.connections.limits in
        let event = some (connection_event id true (has_pending_output c)) in
        let is_open : (st.view w1 fd).open_now ≡ true =
          ap (λ u. (u fd).open_now) view ∙ ap (λ d. d.open_now) x.fresh in
        after_client_ctl-Meets k st limits fd s.reactor (st.view w) x id s1 w1 q view room
          (k.epoll.ctl ctl_add fd event w1).1 (st.ctl_others ctl_add fd event w1)
          (k.epoll.ctl ctl_add fd event w1).0 (st.ctl_sets ctl_add fd event w1)
          (st.ctl_open ctl_add fd event w1 ∙ is_open)

    -- A client is registered whole, or not at all.
    register_client-Meets :
        Meets (Faulty k st limits) (Settled k st limits) (register_client k fd s w)
    unfolding register_client register_flow
    register_client-Meets =
        Meets-continue (Faulty k st limits)
          (λ id s' w'. Registered s.reactor fd id s' × (st.view w' ≡ st.view w))
          (Settled k st limits) _ _
          (add_connection-Meets k st limits fd s.reactor (st.view w) x s w refl refl)
          (λ id s1 w1 (q, view).
            subst
              (λ mc. Meets (Faulty k st limits) (Settled k st limits) (register_flow k id mc s1 w1))
              (sym q.added_to.found)
              (subst
                (λ b.
                  Meets (Faulty k st limits) (Settled k st limits)
                    (start_flow k id (new_connection id fd s.reactor.connections.limits) b s1 w1))
                (sym (
                  find-none-contains id s1.reactor.flows
                    (no_flow k st limits fd s.reactor (st.view w) x id s1 w1 q view room)))
                (start_flow-Meets id s1 w1 q view)))

  -- What `accept4` hands over.
  abbrev Fresh : Option ℕ → State → W → Type 0
  Fresh none s w = Settled k st limits tt s w
  Fresh (some fd) s w = Admitted limits fd s.reactor (st.view w)

  failed :
      (s : State) (w w' : W)
      → Settled k st limits tt s w
      → st.view w' ≡ st.view w
      → Faulty k st limits s w'
  failed s w w' h same =
      Holds-weaken Tracked Anything limits s.reactor (st.view w') (λ _ _ _ _ _. tt)
        (subst (Holds Tracked limits s.reactor) (sym same) h)

  after_accept-Meets :
      (again : Action W (Option ℕ)) (a : Accepted) (s : State) (w w' : W)
      → Settled k st limits tt s w
      → Opens a (st.view w) (st.view w')
      → (a ≡ accept_failed eintr
          → Settled k st limits tt s w'
          → Meets (Faulty k st limits) Fresh (again s w'))
      → Meets (Faulty k st limits) Fresh (after_accept k again a s w')
  unfolding after_accept is_would_block
  after_accept-Meets again (accepted fd) s w w' h (unused_before, fresh, others) retry =
      let unowned : (j : ℕ) (c : Connection)
          → find_connection s.reactor.connections j ≡ some c
          → c.fd ≢ fd =
        λ j c e same.
          let is_open = Holds-is_open Tracked limits s.reactor (st.view w) j c h e in
          cc (is_open, unused_before, ap (λ n. (st.view w n).open_now) same) in
      record {
        holds =
            Holds-views Tracked limits s.reactor (st.view w) (st.view w')
              (λ j c e. others c.fd (unowned j c e)) h;
        unowned = unowned;
        fresh = fresh;
      }
  after_accept-Meets again (accept_failed eintr) s w w' h same retry =
      retry refl (subst (Holds Tracked limits s.reactor) (sym same) h)
  after_accept-Meets again (accept_failed eagain) s w w' h same retry =
      subst (Holds Tracked limits s.reactor) (sym same) h
  after_accept-Meets again (accept_failed ewouldblock) s w w' h same retry =
      subst (Holds Tracked limits s.reactor) (sym same) h
  after_accept-Meets again (accept_failed econnreset) s w w' h same retry = failed s w w' h same
  after_accept-Meets again (accept_failed epipe) s w w' h same retry = failed s w w' h same
  after_accept-Meets again (accept_failed enoent) s w w' h same retry = failed s w w' h same
  after_accept-Meets again (accept_failed (other_error n)) s w w' h same retry =
      failed s w w' h same

  accept_non_blocking-Meets :
      (listener fuel : ℕ) (s : State) (w : W)
      → Settled k st limits tt s w
      → st.delay w < fuel
      → Meets (Faulty k st limits) Fresh (accept_non_blocking k listener fuel s w)
  unfolding accept_non_blocking
  accept_non_blocking-Meets listener zero s w h enough = absurd (omega (arith, enough))
  accept_non_blocking-Meets listener (suc fuel) s w h enough =
      after_accept-Meets (accept_non_blocking k listener fuel) (k.accept listener w).0 s w
        (k.accept listener w).1 h (st.accept_view listener w)
        (λ interrupted h'.
          accept_non_blocking-Meets listener fuel s (k.accept listener w).1 h'
            (omega (arith, enough, st.accept_delay listener w interrupted)))

  module _ (o : Options) (fits : o.max_connections ≤ limits.max_connections) where
    abbrev Again : Action W (Unit {0}) → Type 0
    Again again =
        (s : State) (w : W)
        → Settled k st limits tt s w
        → Meets (Faulty k st limits) (Settled k st limits) (again s w)

    admit_by-Meets :
        (again : Action W (Unit {0})) (fd : ℕ) (b : Bool) (s : State) (w : W)
        → Again again
        → Admitted limits fd s.reactor (st.view w)
        → leb o.max_connections (registry_size s.reactor.connections) ≡ b
        → Meets (Faulty k st limits) (Settled k st limits) (admit_by k again fd b s w)
    unfolding admit_by
    admit_by-Meets again fd true s w ih x full =
        ih s (k.epoll.close fd w)
          (drop_client k st limits fd s.reactor (st.view w) x _ (st.close_others fd w))
    admit_by-Meets again fd false s w ih x room =
        Meets-continue (Faulty k st limits) (Settled k st limits) (Settled k st limits) _ _
          (register_client-Meets fd s w x (
            omega
              (arith, fits, leb→lt o.max_connections (registry_size s.reactor.connections) room)))
          (λ _ s' w' h. ih s' w' h)

    admit_client-Meets :
        (again : Action W (Unit {0})) (client : Option ℕ) (s : State) (w : W)
        → Again again
        → Fresh client s w
        → Meets (Faulty k st limits) (Settled k st limits) (admit_client k o again client s w)
    unfolding admit_client
    admit_client-Meets again none s w ih h = h
    admit_client-Meets again (some fd) s w ih x =
        admit_by-Meets again fd (leb o.max_connections (registry_size s.reactor.connections)) s w ih
          x refl

    accept_clients-Meets :
        (fuel left_over : ℕ) (s : State) (w : W)
        → st.most < fuel
        → Settled k st limits tt s w
        → Meets (Faulty k st limits) (Settled k st limits) (accept_clients k o fuel left_over s w)
    unfolding accept_clients
    accept_clients-Meets fuel zero s w enough h = h
    accept_clients-Meets fuel (suc left_over) s w enough h =
        Meets-continue (Faulty k st limits) Fresh (Settled k st limits) _ _
          (accept_non_blocking-Meets o.listener fuel s w h (omega (arith, enough, st.delay_most w)))
          (λ client s' w' x.
            admit_client-Meets (accept_clients k o fuel left_over) client s' w'
              (λ s2 w2 h2. accept_clients-Meets fuel left_over s2 w2 enough h2) x)

    -- `HandleListenerEvent`, where the kernel does as documented, the fuel is more than its
    -- interruptions in a row, the connections are within their bound and each has its flow, an open
    -- descriptor of its own and its interest in epoll: it ends. When it returns, all that holds
    -- again, for the new clients too. When it throws, no client is left half registered: the
    -- connections are within their bound, each has its flow and its own open descriptor, and the
    -- flow's mark tells of the interest.
    pub handle_listener_event-Settles :
        (fuel : ℕ) (s : State) (w : W)
        → st.most < fuel
        → Settled k st limits tt s w
        → Meets (Faulty k st limits) (Settled k st limits) (handle_listener_event k o fuel s w)
    unfolding handle_listener_event
    handle_listener_event-Settles fuel s w enough h =
        accept_clients-Meets fuel max_accepts_per_event s w enough h
