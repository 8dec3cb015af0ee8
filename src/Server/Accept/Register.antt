-- ===== src/Server/Accept/Register.antt =====
-- The registration of an accepted client in src/network/epoll_echo_server.cpp, from
-- `ConnectionRegistry::Add` to `epoll_ctl`.
use pulse_core.Base.{
  ℕ, suc, ◌≤◌, ◌<◌, ◌≡◌, ◌≢◌, refl, sym, ap, subst, ◌∙◌, Bool, true, false, inl, inr, Option, none,
  some, List, arith, Bool-cases, ==→eq, eq→==, ◌==◌, if◌then◌else◌,
}
use pulse_core.Base.Maps.{find, emplace, assign, find-emplace, find-assign_self, find-assign_ne}
use pulse_core.Sockets.{Errno}
use pulse_core.Connection.{Connection, new_connection, has_pending_output}
use pulse_core.Registry.{
  id_max, Registry, Added, added, invalid_fd, id_space_exhausted, duplicate_id, not_non_blocking,
  add, find_connection, registry_size,
}
use pulse_core.Registry.Identity.{
  IsRegistry, IsAdded, add-IsRegistry, add-IsAdded, add-refused, limits-add, size-add,
}
use pulse_core.Server.{ConnectionFlow, new_flow}
use pulse_core.Server.Interest.{ctl_add, connection_event, Sets}
use pulse_core.Server.Removal.{Reactor, forget, forget-Forgets}
use pulse_core.Server.Kernel.{
  Kernel, IsKernel, SameBut, fresh_descriptor, set_non_blocking, set_non_blocking_view,
}
use pulse_core.Server.Effects.{State, put_flow}
use pulse_core.Server.Handlers.Upkeep.{Faulty, Settled}
use pulse_core.Server.Consistent.{
  Bounds, Descriptors, Anything, Tracked, Slot, Holds, Holds-Changes, Holds-views, Holds-weaken,
  Holds-no_flow,
}
use pulse_core.Server.Consistent.Serving.{forget-IsRegistry, limits-forget, size-forget}
use pulse_core.Server.Consistent.Outcomes.{Meets}
use pulse_core.Server.Accept.{after_add, add_to_registry, add_by, add_connection, after_client_ctl}

-- A descriptor of an accepted client, which no connection has yet.
pub record Admitted (limits : Bounds) (fd : ℕ) (r : Reactor) (v : Descriptors) : Type 0 where
  pub holds : Holds Tracked limits r v
  pub unowned : (j : ℕ) (c : Connection) → find_connection r.connections j ≡ some c → c.fd ≢ fd
  pub fresh : v fd ≡ fresh_descriptor

-- The registry has the client, under an identifier without a flow.
pub record Registered (r : Reactor) (fd id : ℕ) (s : State) : Type 0 where
  pub added_to : IsAdded r.connections fd id s.reactor.connections
  pub valid : IsRegistry s.reactor.connections
  pub same_limits : s.reactor.connections.limits ≡ r.connections.limits
  pub same_flows : s.reactor.flows ≡ r.flows
  pub grown : registry_size s.reactor.connections ≤ suc (registry_size r.connections)

other : {A : Type 0} (id j : ℕ) (a b : A) → j ≢ id → (if id == j then a else b) ≡ b
other id j a b ne = elim (Bool-cases (id == j)) [
  | inl e ↦ absurd (ne (sym (==→eq id j e)))
  | inr e ↦ rw e refl
]

here : {A : Type 0} (id : ℕ) (a b : A) → (if id == id then a else b) ≡ a
here id a b = rw (eq→== id id refl) refl

module _ {W : Type 0} (k : Kernel W) (st : IsKernel k) (limits : Bounds) (fd : ℕ) (r : Reactor)
    (v : Descriptors) (x : Admitted limits fd r v) where
  -- The client is dropped: nothing has changed but its descriptor.
  pub drop_client : (v' : Descriptors) → SameBut fd v v' → Holds Tracked limits r v'
  drop_client v' views =
      Holds-views Tracked limits r v v' (λ j c e. views c.fd (x.unowned j c e)) x.holds

  drop-Faulty :
      (s : State) (w : W)
      → s.reactor.connections ≡ r.connections
      → s.reactor.flows ≡ r.flows
      → SameBut fd v (st.view w)
      → Faulty k st limits s w
  drop-Faulty s w same_c same_f views =
      Holds-weaken Tracked Anything limits s.reactor (st.view w) (λ _ _ _ _ _. tt)
        (subst (λ (q : Reactor). Holds Tracked limits q (st.view w))
          (λ i. record { connections = sym same_c i; flows = sym same_f i })
          (drop_client (st.view w) views))

  closed : (w : W) → st.view w ≡ v → SameBut fd v (st.view (k.epoll.close fd w))
  closed w same j ne = st.close_others fd w j ne ∙ ap (λ (u : Descriptors). u j) same

  after_add-Meets :
      (a : Added) (s : State) (w : W)
      → ((id : ℕ) → a ≡ added id → Registered r fd id s)
      → (((id : ℕ) → a ≢ added id) → s.reactor.connections ≡ r.connections)
      → s.reactor.flows ≡ r.flows
      → st.view w ≡ v
      → Meets
          (Faulty k st limits)
          (λ id s' w'. Registered r fd id s' × (st.view w' ≡ v))
          (after_add k fd a s w)
  unfolding after_add
  after_add-Meets (added id) s w yes_added no_added same view = (yes_added id refl, view)
  after_add-Meets invalid_fd s w yes_added no_added same view =
      drop-Faulty s _ (no_added (λ id e. cc)) same (closed w view)
  after_add-Meets id_space_exhausted s w yes_added no_added same view =
      drop-Faulty s _ (no_added (λ id e. cc)) same (closed w view)
  after_add-Meets duplicate_id s w yes_added no_added same view =
      drop-Faulty s _ (no_added (λ id e. cc)) same (closed w view)
  after_add-Meets (not_non_blocking e) s w yes_added no_added same view =
      drop-Faulty s _ (no_added (λ id e. cc)) same (closed w view)

  add_to_registry-Meets :
      (nb : Option Errno) (s : State) (w : W)
      → s.reactor ≡ r
      → st.view w ≡ v
      → Meets
          (Faulty k st limits)
          (λ id s' w'. Registered r fd id s' × (st.view w' ≡ v))
          (add_to_registry k fd nb s w)
  unfolding add_to_registry
  add_to_registry-Meets nb s w same view =
      let q = s.reactor.connections in
      let p = ap (λ (q : Reactor). q.connections) same in
      let valid = subst IsRegistry (sym p) x.holds.registry in
      after_add-Meets (add q (some fd) nb).0 _ w
        (λ id e. record {
          added_to =
              subst (λ (t : Registry). IsAdded t fd id (add q (some fd) nb).1) p
                (add-IsAdded q fd id nb valid e);
          valid = add-IsRegistry q (some fd) nb valid;
          same_limits = limits-add q fd nb valid ∙ ap (λ (t : Registry). t.limits) p;
          same_flows = ap (λ (q : Reactor). q.flows) same;
          grown =
              subst (λ (t : Registry). registry_size (add q (some fd) nb).1 ≤ suc (registry_size t))
                p (size-add q fd nb valid);
        })
        (λ refused. add-refused q fd nb valid refused ∙ p) (ap (λ (q : Reactor). q.flows) same) view

  add_by-Meets :
      (b : Bool) (s : State) (w : W)
      → s.reactor ≡ r
      → st.view w ≡ v
      → Meets
          (Faulty k st limits)
          (λ id s' w'. Registered r fd id s' × (st.view w' ≡ v))
          (add_by k fd b s w)
  unfolding add_by
  add_by-Meets true s w same view = add_to_registry-Meets none s w same view
  add_by-Meets false s w same view =
      add_to_registry-Meets (set_non_blocking k fd w).0 s (set_non_blocking k fd w).1 same
        (set_non_blocking_view k st fd w ∙ view)

  pub add_connection-Meets :
      (s : State) (w : W)
      → s.reactor ≡ r
      → st.view w ≡ v
      → Meets
          (Faulty k st limits)
          (λ id s' w'. Registered r fd id s' × (st.view w' ≡ v))
          (add_connection k fd s w)
  unfolding add_connection
  add_connection-Meets s w same view =
      add_by-Meets (s.reactor.connections.next_id == id_max) s w same view

  module _ (id : ℕ) (s : State) (w : W) (q : Registered r fd id s) (view : st.view w ≡ v)
      (room : registry_size r.connections < limits.max_connections) where
    abbrev client : Connection
    client = new_connection id fd r.connections.limits

    pub no_flow : find id s.reactor.flows ≡ none
    no_flow =
        ap (find id) q.same_flows ∙ Holds-no_flow Tracked limits r v id x.holds q.added_to.was_free

    started :
        (j : ℕ)
        → find j (emplace id new_flow s.reactor.flows)
          ≡ (if id == j then some new_flow else find j r.flows)
    started j =
        find-emplace id j new_flow s.reactor.flows no_flow
        ∙ ap (λ (m : List (ℕ × ConnectionFlow)). if id == j then some new_flow else find j m)
            q.same_flows

    started_other : (j : ℕ) → j ≢ id → find j (emplace id new_flow s.reactor.flows) ≡ find j r.flows
    started_other j ne = started j ∙ other id j _ _ ne

    own_fd : (c : Connection) → find_connection s.reactor.connections id ≡ some c → c.fd ≡ fd
    unfolding new_connection
    own_fd c e =
        let same : c ≡ client = cc (q.added_to.found, e) in ap (λ (c : Connection). c.fd) same

    module _ (w' : W) (others : SameBut fd (st.view w) (st.view w')) where
      views : SameBut fd v (st.view w')
      views j ne = others j ne ∙ ap (λ (u : Descriptors). u j) view

      abbrev marked : ConnectionFlow
      marked = record new_flow { registered_with_epoll = true }

      abbrev after : Reactor
      after = record s.reactor { flows = assign id marked (emplace id new_flow s.reactor.flows) }

      flow_there : find id after.flows ≡ some marked
      flow_there =
          find-assign_self id marked (emplace id new_flow s.reactor.flows) {w = new_flow}
            (started id ∙ here id _ _)

      client_Settled :
          (st.view w' fd).open_now ≡ true
          → (st.view w' fd).interest ≡ some (connection_event id true (has_pending_output client))
          → Holds Tracked limits after (st.view w')
      unfolding new_connection has_pending_output connection_event
      client_Settled open_still interest =
          Holds-Changes Tracked Tracked limits r v after (st.view w') id fd
            (record {
              registry = q.valid;
              same_limits = q.same_limits;
              connections = λ j ne. q.added_to.others j ne;
              flows = λ j ne.
                  find-assign_ne id j marked (emplace id new_flow s.reactor.flows) (λ e. ne (sym e))
                  ∙ started_other j ne;
              views = views;
              apart = λ j c ne e. x.unowned j c e;
              own = own_fd;
            })
            x.holds (omega (arith, q.grown, room)) (λ j d c f ne e. e)
            (subst
              (λ mf. Slot Tracked id (st.view w') (find_connection s.reactor.connections id) mf)
              (sym flow_there)
              (subst (λ mc. Slot Tracked id (st.view w') mc (some marked)) (sym q.added_to.found)
                (record { is_open = open_still; agrees = (_, interest) }, interest)))

      abbrev given_up : Reactor
      given_up = forget (record s.reactor { flows = emplace id new_flow s.reactor.flows }) id

      client_Faulty : Holds Tracked limits given_up (st.view (k.epoll.close fd w'))
      client_Faulty =
          let gone =
            forget-Forgets (record s.reactor { flows = emplace id new_flow s.reactor.flows }) id in
          let gone_connection : find_connection given_up.connections id ≡ none =
            gone.connection id ∙ here id _ _ in
          let gone_flow : find id given_up.flows ≡ none = gone.flow id ∙ here id _ _ in
          Holds-Changes Tracked Tracked limits r v given_up (st.view (k.epoll.close fd w')) id fd
            (record {
              registry = forget-IsRegistry _ id q.valid;
              same_limits = limits-forget _ id ∙ q.same_limits;
              connections = λ j ne. gone.connection j ∙ other id j _ _ ne ∙ q.added_to.others j ne;
              flows = λ j ne. gone.flow j ∙ other id j _ _ ne ∙ started_other j ne;
              views = λ j ne. st.close_others fd w' j ne ∙ views j ne;
              apart = λ j c ne e. x.unowned j c e;
              own = λ c e. absurd (cc (gone_connection, e));
            })
            x.holds
            (omega (
              arith,
              q.grown,
              room,
              size-forget (record s.reactor { flows = emplace id new_flow s.reactor.flows }) id,
            ))
            (λ j d c f ne e. e)
            (subst
              (λ mf.
                Slot Tracked id (st.view (k.epoll.close fd w'))
                  (find_connection given_up.connections id) mf)
              (sym (gone_flow))
              (subst (λ mc. Slot Tracked id (st.view (k.epoll.close fd w')) mc none)
                (sym (gone_connection)) tt))

      pub after_client_ctl-Meets :
          (y : Option Errno)
          → Sets ctl_add
              (some (connection_event id true (has_pending_output client)))
              (st.view w fd).interest
              y
              (st.view w' fd).interest
          → (st.view w' fd).open_now ≡ true
          → Meets (Faulty k st limits) (Settled k st limits) (
              after_client_ctl k id client y
                (record s {
                  reactor = record s.reactor { flows = emplace id new_flow s.reactor.flows };
                })
                w')
      unfolding after_client_ctl put_flow new_connection
      after_client_ctl-Meets none sets open_still = client_Settled open_still sets
      after_client_ctl-Meets (some e) sets open_still =
          Holds-weaken Tracked Anything limits given_up _ (λ _ _ _ _ _. tt) client_Faulty
