-- ===== src/Server/Consistent/Serving.antt =====
-- The part of a handler of src/network/epoll_echo_server.cpp that works on one connection and its flow,
-- between the lookups and `UpdateInterest` or `RemoveConnection`.
use pulse_core.Base.{
  ℕ, ◌≤◌, ◌≡◌, ◌≢◌, refl, sym, ap, subst, ◌∙◌, Option, none, some, arith, ◌==◌, if◌then◌else◌,
}
use pulse_core.Base.Maps.{
  find, assign, find-assign_self, find-assign_ne, length-assign, length-erase,
}
use pulse_core.Connection.{Connection}
use pulse_core.Registry.{find_connection, update_connection}
use pulse_core.Registry.Identity.{
  IsRegistry, IsEntry, update_connection-IsRegistry, remove-IsRegistry,
}
use pulse_core.Registry.{Registry, remove, registry_size}
use pulse_core.Server.{ConnectionFlow}
use pulse_core.Server.Removal.{Reactor, forget, Forgets, forget-Forgets}
use pulse_core.Server.Kernel.{SameBut}
use pulse_core.Server.Consistent.{
  Bounds, Descriptors, Held, Condition, Anything, Tracked, TrackedBut, Slot, Holds, Holds-weaken,
  Holds-Changes,
}

same_fd : {m : Option Connection} (c d : Connection) → m ≡ some c → m ≡ some d → d.fd ≡ c.fd
same_fd c d p q = let e : d ≡ c = cc in ap (λ (x : Connection). x.fd) e

limits-update :
    (r : Registry) (id : ℕ) (c : Connection) → (update_connection r id c).limits ≡ r.limits
unfolding update_connection
limits-update r id c = refl

size-update :
    (r : Registry) (id : ℕ) (c : Connection)
    → registry_size (update_connection r id c) ≡ registry_size r
unfolding update_connection registry_size
size-update r id c = length-assign id c r.connections

pub size-forget :
    (r : Reactor) (id : ℕ) → registry_size (forget r id).connections ≤ registry_size r.connections
unfolding forget remove registry_size
size-forget r id = length-erase id r.connections.connections

find-update :
    (r : Registry) (id : ℕ) (old c : Connection)
    → find_connection r id ≡ some old
    → find_connection (update_connection r id c) id ≡ some c
unfolding update_connection find_connection
find-update r id old c h = find-assign_self id c r.connections h

find-update_other :
    (r : Registry) (id j : ℕ) (c : Connection)
    → j ≢ id
    → find_connection (update_connection r id c) j ≡ find_connection r j
unfolding update_connection find_connection
find-update_other r id j c ne = find-assign_ne id j c r.connections (λ e. ne (sym e))

pub forget-IsRegistry :
    (r : Reactor) (id : ℕ) → IsRegistry r.connections → IsRegistry (forget r id).connections
unfolding forget
forget-IsRegistry r id v = remove-IsRegistry r.connections id v

pub limits-forget : (r : Reactor) (id : ℕ) → (forget r id).connections.limits ≡ r.connections.limits
unfolding forget remove
limits-forget r id = refl

-- `c` and `f` are what is stored under `id`, and all else is as it should be.
pub record Serving (limits : Bounds) (id : ℕ) (c : Connection) (f : ConnectionFlow) (r : Reactor)
    (v : Descriptors) : Type 0 where
  pub holds : Holds (TrackedBut id) limits r v
  pub found : find_connection r.connections id ≡ some c
  pub flow : find id r.flows ≡ some f

module _ (limits : Bounds) (id : ℕ) (r : Reactor) (v : Descriptors) where
  pub Serving-Anything :
      (c : Connection) (f : ConnectionFlow) → Serving limits id c f r v → Holds Anything limits r v
  Serving-Anything c f x =
      Holds-weaken (TrackedBut id) Anything limits r v (λ _ _ _ _ _. tt) x.holds

  pub Tracked-Anything : Holds Tracked limits r v → Holds Anything limits r v
  Tracked-Anything h = Holds-weaken Tracked Anything limits r v (λ _ _ _ _ _. tt) h

  pub Tracked-Serving :
      (c : Connection) (f : ConnectionFlow)
      → Holds Tracked limits r v
      → find_connection r.connections id ≡ some c
      → find id r.flows ≡ some f
      → Serving limits id c f r v
  Tracked-Serving c f h found flow = record {
    holds = Holds-weaken Tracked (TrackedBut id) limits r v (λ _ _ _ _ e _. e) h;
    found = found;
    flow = flow;
  }

  -- A connection without a flow does not occur.
  pub has_flow :
      (t : Condition) (c : Connection)
      → Holds t limits r v
      → find_connection r.connections id ≡ some c
      → find id r.flows ≡ none
      → ⊥
  has_flow t c h found flow =
      subst (λ mf. Slot t id v (some c) mf) flow
        (subst (λ mc. Slot t id v mc (find id r.flows)) found (h.slots id))

  module _ (c : Connection) (f : ConnectionFlow) (x : Serving limits id c f r v) where
    Serving-Slot : Slot (TrackedBut id) id v (some c) (some f)
    Serving-Slot =
        subst (λ mf. Slot (TrackedBut id) id v (some c) mf) x.flow
          (subst (λ mc. Slot (TrackedBut id) id v mc (find id r.flows)) x.found (x.holds.slots id))

    pub Serving-Held : Held (v c.fd) f
    Serving-Held = Serving-Slot.0

    pub Serving-IsEntry : IsEntry limits.connection_limits id c
    Serving-IsEntry =
        subst (λ l. IsEntry l id c) x.holds.limited (x.holds.registry.entries id c x.found)

    apart :
        (j : ℕ) (d : Connection) → j ≢ id → find_connection r.connections j ≡ some d → d.fd ≢ c.fd
    apart j d ne e same = ne (x.holds.distinct j id d c e x.found same)

    -- The interest of the connection is up to date too.
    pub Serving-Tracked : Tracked id (v c.fd) c f → Holds Tracked limits r v
    Serving-Tracked tracked =
        Holds-Changes (TrackedBut id) Tracked limits r v r v id c.fd
          (record {
            registry = x.holds.registry;
            same_limits = refl;
            connections = λ j ne. refl;
            flows = λ j ne. refl;
            views = λ j ne. refl;
            apart = apart;
            own = λ d e. same_fd c d x.found e;
          })
          x.holds x.holds.bounded (λ j d c f ne e. e ne)
          (subst (λ mf. Slot Tracked id v (find_connection r.connections id) mf) (sym x.flow)
            (subst (λ mc. Slot Tracked id v mc (some f)) (sym x.found) (Serving-Held, tracked)))

    -- A write through the pointer to the connection.
    pub Serving-put_connection :
        (c' : Connection)
        → IsEntry limits.connection_limits id c'
        → c'.fd ≡ c.fd
        → Serving limits id c' f
            (record r { connections = update_connection r.connections id c' })
            v
    Serving-put_connection c' entry same = record {
      holds =
          Holds-Changes (TrackedBut id) (TrackedBut id) limits r v _ v id c.fd
            (record {
              registry =
                  update_connection-IsRegistry r.connections id c c' x.holds.registry x.found
                    (subst (λ l. IsEntry l id c') (sym x.holds.limited) entry);
              same_limits = limits-update r.connections id c';
              connections = λ j ne. find-update_other r.connections id j c' ne;
              flows = λ j ne. refl;
              views = λ j ne. refl;
              apart = apart;
              own = λ d e. same_fd c' d (find-update r.connections id c c' x.found) e ∙ same;
            })
            x.holds (omega (arith, size-update r.connections id c', x.holds.bounded))
            (λ j d c f ne e. e)
            (subst
              (λ mf.
                Slot (TrackedBut id) id v
                  (find_connection (update_connection r.connections id c') id) mf)
              (sym x.flow)
              (subst (λ mc. Slot (TrackedBut id) id v mc (some f))
                (sym (find-update r.connections id c c' x.found))
                (subst (λ n. Held (v n) f) (sym same) Serving-Held, λ ne. absurd (ne refl))));
      found = find-update r.connections id c c' x.found;
      flow = x.flow;
    }

    module _ (v' : Descriptors) (views : SameBut c.fd v v') where
      -- A write through the iterator to the flow, along with a call on the descriptor.
      pub Serving-put_flow :
          (f' : ConnectionFlow)
          → Held (v' c.fd) f'
          → Serving limits id c f' (record r { flows = assign id f' r.flows }) v'
      Serving-put_flow f' held = record {
        holds =
            Holds-Changes (TrackedBut id) (TrackedBut id) limits r v _ v' id c.fd
              (record {
                registry = x.holds.registry;
                same_limits = refl;
                connections = λ j ne. refl;
                flows = λ j ne. find-assign_ne id j f' r.flows (λ e. ne (sym e));
                views = views;
                apart = apart;
                own = λ d e. same_fd c d x.found e;
              })
              x.holds x.holds.bounded (λ j d c f ne e. e)
              (subst (λ mf. Slot (TrackedBut id) id v' (find_connection r.connections id) mf)
                (sym written)
                (subst (λ mc. Slot (TrackedBut id) id v' mc (some f')) (sym x.found)
                  (held, λ ne. absurd (ne refl))));
        found = x.found;
        flow = written;
      }
        where
          written : find id (assign id f' r.flows) ≡ some f'
          written = find-assign_self id f' r.flows x.flow

      -- A call on the descriptor that has left it as it was.
      pub Serving-views : v' c.fd ≡ v c.fd → Serving limits id c f r v'
      Serving-views same = record {
        holds =
            Holds-Changes (TrackedBut id) (TrackedBut id) limits r v r v' id c.fd
              (record {
                registry = x.holds.registry;
                same_limits = refl;
                connections = λ j ne. refl;
                flows = λ j ne. refl;
                views = views;
                apart = apart;
                own = λ d e. same_fd c d x.found e;
              })
              x.holds x.holds.bounded (λ j d c f ne e. e)
              (subst (λ mf. Slot (TrackedBut id) id v' (find_connection r.connections id) mf)
                (sym x.flow)
                (subst (λ mc. Slot (TrackedBut id) id v' mc (some f)) (sym x.found)
                  (subst (λ d. Held d f) (sym same) Serving-Held, λ ne. absurd (ne refl))));
        found = x.found;
        flow = x.flow;
      }

      -- `RemoveConnection`, in the state.
      pub Serving-forget : Holds Tracked limits (forget r id) v'
      Serving-forget =
          Holds-Changes (TrackedBut id) Tracked limits r v (forget r id) v' id c.fd
            (record {
              registry = forget-IsRegistry r id x.holds.registry;
              same_limits = limits-forget r id;
              connections = λ j ne. gone.connection j ∙ other j _ _ ne;
              flows = λ j ne. gone.flow j ∙ other j _ _ ne;
              views = views;
              apart = apart;
              own = λ d e. absurd (cc (no_connection, e));
            })
            x.holds (omega (arith, size-forget r id, x.holds.bounded)) (λ j d c f ne e. e ne)
            (subst (λ mf. Slot Tracked id v' (find_connection (forget r id).connections id) mf)
              (sym no_flow) (subst (λ mc. Slot Tracked id v' mc none) (sym no_connection) tt))
        where
          gone : Forgets r id (forget r id)
          gone = forget-Forgets r id

          other : {A : Type 0} (j : ℕ) (a b : A) → j ≢ id → (if id == j then a else b) ≡ b
          other j a b ne = ground (arith, ne)

          no_connection : find_connection (forget r id).connections id ≡ none
          no_connection = gone.connection id ∙ ground (arith)

          no_flow : find id (forget r id).flows ≡ none
          no_flow = gone.flow id ∙ ground (arith)
