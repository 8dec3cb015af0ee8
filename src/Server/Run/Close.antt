-- ===== src/Server/Run/Close.antt =====
-- `CloseAllConnections` of src/network/epoll_echo_server.cpp.
use pulse_core.Base.{
  ℕ, zero, suc, ◌<◌, ◌≤◌, ◌≡◌, ◌≢◌, refl, sym, ap, subst, ◌∙◌, false, Bool-cases, inl, inr, Option,
  none, some, List, [], ◌∷◌, arith, length, ◌==◌, ==→eq, eq→==, if◌then◌else◌,
}
use native.Mathlib.Decide.{ℕ_discrete}
use pulse_core.Base.Maps.{find, erase, length-erase-first}
use pulse_core.Connection.{Connection}
use pulse_core.Registry.{find_connection}
use pulse_core.Server.{ConnectionFlow}
use pulse_core.Server.Removal.{Reactor, forget, forget-Forgets}
use pulse_core.Server.Kernel.{Kernel, IsKernel, unused}
use pulse_core.Server.Effects.{State, Action}
use pulse_core.Server.Handlers.Upkeep.{Faulty, Settled, Gone, remove_action-Gone}
use pulse_core.Server.Consistent.{Bounds, Descriptors, Tracked, Slot}
use pulse_core.Server.Consistent.Outcomes.{Meets, Meets-continue, Meets-weaken}
use pulse_core.Server.Consistent.Serving.{Serving, Tracked-Serving}
use pulse_core.Server.Run.{close_first, close_loop, close_all_connections}

-- From one state to a later one without connections: their descriptors have been closed, and no other
-- has been touched.
pub record Closes (r : Reactor) (v : Descriptors) (r' : Reactor) (v' : Descriptors) : Type 0 where
  pub no_flows : r'.flows ≡ []
  pub no_connections : (id : ℕ) → find_connection r'.connections id ≡ none
  pub shut :
      (id : ℕ) (c : Connection) → find_connection r.connections id ≡ some c → v' c.fd ≡ unused
  pub untouched :
      (fd : ℕ)
      → ((id : ℕ) (c : Connection) → find_connection r.connections id ≡ some c → c.fd ≢ fd)
      → v' fd ≡ v fd

Slot-no_connection :
    (id : ℕ) (v : Descriptors) (mc : Option Connection) → Slot Tracked id v mc none → mc ≡ none
Slot-no_connection id v none s = refl
Slot-no_connection id v (some c) s = absurd s

Slot-connection :
    (id : ℕ) (v : Descriptors) (mc : Option Connection) (f : ConnectionFlow)
    → Slot Tracked id v mc (some f)
    → (c : Connection) × (mc ≡ some c)
Slot-connection id v none f s = absurd s
Slot-connection id v (some c) f s = (c, refl)

find-first :
    (id : ℕ) (f : ConnectionFlow) (m : List (ℕ × ConnectionFlow)) → find id ((id, f) ∷ m) ≡ some f
unfolding find
find-first id f m = ground arith

find-empty : (id : ℕ) (m : List (ℕ × ConnectionFlow)) → m ≡ [] → find id m ≡ none
unfolding find
find-empty id m e = rw e refl

module _ {W : Type 0} (k : Kernel W) (st : IsKernel k) (limits : Bounds) where
  abbrev pub Shut : State → W → Unit {0} → State → W → Type 0
  Shut s w _ s' w' =
      Closes s.reactor (st.view w) s'.reactor (st.view w') × Settled k st limits tt s' w'

  nothing_left :
      (s : State) (w : W) → Settled k st limits tt s w → s.reactor.flows ≡ [] → Shut s w tt s w
  nothing_left s w h e =
      let gone : (id : ℕ) → find_connection s.reactor.connections id ≡ none = λ id.
        Slot-no_connection id (st.view w) (find_connection s.reactor.connections id) (
          subst (Slot Tracked id (st.view w) (find_connection s.reactor.connections id))
            (find-empty id s.reactor.flows e) (h.slots id)) in
      (
        record {
          no_flows = e;
          no_connections = gone;
          shut = λ id c found. absurd (cc (gone id, found));
          untouched = λ fd apart. refl;
        },
        h,
      )

  module _ (id : ℕ) (c : Connection) (f : ConnectionFlow) (s : State) (w : W)
      (x : Serving limits id c f s.reactor (st.view w)) (h : Settled k st limits tt s w)
      (s1 : State) (w1 : W) (g : Gone k st limits id c f s w x s1 w1) where
    forgotten :
        (j : ℕ)
        → find_connection s1.reactor.connections j
          ≡ (if id == j then none else find_connection s.reactor.connections j)
    forgotten j =
        ap (λ (r : Reactor). find_connection r.connections j) g.reactor
        ∙ (forget-Forgets s.reactor id).connection j

    remains :
        (j : ℕ) (d : Connection)
        → find_connection s1.reactor.connections j ≡ some d
        → (find_connection s.reactor.connections j ≡ some d) × (d.fd ≢ c.fd)
    remains j d e = elim (Bool-cases (id == j)) [
      | inl here ↦ absurd (
          cc (
            e,
            forgotten j,
            ap (λ b. if b then none else find_connection s.reactor.connections j) here,
          ))
      | inr other ↦
          let there : find_connection s.reactor.connections j ≡ some d = cc (
            e,
            forgotten j,
            ap (λ b. if b then none else find_connection s.reactor.connections j) other,
          ) in
          (there, λ same. distinct j d there same other)
    ]
      where
        distinct :
            (j : ℕ) (d : Connection)
            → find_connection s.reactor.connections j ≡ some d
            → d.fd ≡ c.fd
            → id == j ≡ false
            → ⊥
        distinct j d there same other =
            cc (eq→== id j (sym (h.distinct j id d c there x.found same)), other)

    elsewhere :
        (j : ℕ)
        → id ≢ j
        → (if id == j then none else find_connection s.reactor.connections j)
          ≡ find_connection s.reactor.connections j
    elsewhere j ne = elim (Bool-cases (id == j)) [
      | inl e ↦ absurd (ne (==→eq id j e))
      | inr e ↦ rw e refl
    ]

    fewer :
        (m : List (ℕ × ConnectionFlow))
        → s.reactor.flows ≡ (id, f) ∷ m
        → length s1.reactor.flows ≤ length m
    unfolding forget
    fewer m e =
        subst (λ (q : Reactor). length q.flows ≤ length m) (sym g.reactor)
          (subst (λ (l : List (ℕ × ConnectionFlow)). length (erase id l) ≤ length m) (sym e)
            (length-erase-first id f m))

    Closes-step :
        (r' : Reactor) (v' : Descriptors)
        → Closes s1.reactor (st.view w1) r' v'
        → Closes s.reactor (st.view w) r' v'
    Closes-step r' v' y = record {
      no_flows = y.no_flows;
      no_connections = y.no_connections;
      shut = λ j d found. elim (ℕ_discrete id j) [
        | yes here ↦
            let same : c ≡ d =
              cc (x.found, found, ap (find_connection s.reactor.connections) here) in
            subst (λ (d : Connection). v' d.fd ≡ unused) same
              (y.untouched c.fd (λ i e q. (remains i e q).1) ∙ g.shut)
        | no other ↦ y.shut j d (forgotten j ∙ elsewhere j other ∙ found)
      ];
      untouched = λ fd apart.
          y.untouched fd (λ j d q. apart j d (remains j d q).0)
          ∙ g.others fd (λ e. apart id c x.found (sym e));
    }

  abbrev Later : (Action W (Unit {0})) → ℕ → Type 0
  Later again fuel =
      (s : State) (w : W)
      → Settled k st limits tt s w
      → length s.reactor.flows < fuel
      → Meets (Faulty k st limits) (Shut s w) (again s w)

  close_first-Shut :
      (again : Action W (Unit {0})) (fuel : ℕ) (m : List (ℕ × ConnectionFlow)) (s : State) (w : W)
      → Later again fuel
      → s.reactor.flows ≡ m
      → Settled k st limits tt s w
      → length m < suc fuel
      → Meets (Faulty k st limits) (Shut s w) (close_first k again m s w)
  unfolding close_first
  close_first-Shut again fuel [] s w ih e h enough = nothing_left s w h e
  close_first-Shut again fuel ((id, f) ∷ m) s w ih e h enough =
      let flow : find id s.reactor.flows ≡ some f = ap (find id) e ∙ find-first id f m in
      let (c, found) = Slot-connection id (st.view w) (find_connection s.reactor.connections id) f (
        subst (Slot Tracked id (st.view w) (find_connection s.reactor.connections id)) flow
          (h.slots id)) in
      let x = Tracked-Serving limits id s.reactor (st.view w) c f h found flow in
      Meets-continue (Faulty k st limits)
        (λ u s1 w1. Settled k st limits u s1 w1 × Gone k st limits id c f s w x s1 w1) (Shut s w) _
        _ (remove_action-Gone k st limits id c f s w x)
        (λ _ s1 w1 (h1, g).
          Meets-weaken (Faulty k st limits) (Shut s1 w1) (Shut s w) (again s1 w1)
            (λ _ s2 w2 y. (Closes-step id c f s w x h s1 w1 g s2.reactor (st.view w2) y.0, y.1))
            (ih s1 w1 h1 (omega (arith, enough, fewer id c f s w x h s1 w1 g m e))))

  close_loop-Shut : (fuel : ℕ) → Later (close_loop k fuel) fuel
  unfolding close_loop
  close_loop-Shut zero s w h enough = absurd (omega (arith, enough))
  close_loop-Shut (suc fuel) s w h enough =
      close_first-Shut (close_loop k fuel) fuel s.reactor.flows s w
        (λ s1 w1 h1 enough1. close_loop-Shut fuel s1 w1 h1 enough1) refl h enough

  -- `CloseAllConnections`, where the kernel does as documented, the connections are within their
  -- bound and each has its flow, an open descriptor of its own and its interest in epoll: it ends.
  -- When it returns, no connection and no flow is left, each descriptor that belonged to a
  -- connection has been closed, and the kernel holds what it held for every other descriptor.
  pub close_all_connections-Closes :
      (s : State) (w : W)
      → Settled k st limits tt s w
      → Meets (Faulty k st limits) (Shut s w) (close_all_connections k s w)
  unfolding close_all_connections
  close_all_connections-Closes s w h =
      close_loop-Shut (suc (length s.reactor.flows)) s w h (omega arith)
