-- ===== src/Server/Consistent.antt =====
-- The connections, the flows and the kernel's descriptors of src/network/epoll_echo_server.cpp: how
-- they belong together, as a predicate.
pub mod Serving
pub mod Outcomes
mod Tests
use pulse_core.Base.{
  ℕ, ◌≡◌, ◌≤◌, ◌≢◌, refl, sym, ap, subst, ◌∙◌, Bool, true, false, not, Option, none, some,
}
use native.Mathlib.Decide.{ℕ_discrete}
use pulse_core.Base.Maps.{find}
use pulse_core.Connection.{Connection, ConnectionLimits}
use pulse_core.Registry.{find_connection, registry_size}
use pulse_core.Registry.Identity.{IsRegistry}
use pulse_core.Server.{ConnectionFlow}
use pulse_core.Server.Interest.{Agrees, wanted, awaits_write}
use pulse_core.Server.Removal.{Reactor}
use pulse_core.Server.Kernel.{Descriptor, SameBut}

-- What the server was built with.
pub record Bounds : Type 0 where
  pub connection_limits : ConnectionLimits
  pub max_connections : ℕ

abbrev pub Descriptors : Type 0
Descriptors = ℕ → Descriptor

-- A connection's descriptor is open, and the flow's mark says whether epoll has an interest in it.
pub record Held (d : Descriptor) (f : ConnectionFlow) : Type 0 where
  pub is_open : d.open_now ≡ true
  pub agrees : Agrees f.registered_with_epoll d.interest

-- A further condition on the connections.
abbrev pub Condition : Type 1
Condition = ℕ → Descriptor → Connection → ConnectionFlow → Type 0

abbrev pub Anything : Condition
Anything id d c f = Unit {0}

-- Epoll has the interest that the connection should have.
abbrev pub Tracked : Condition
Tracked id d c f = d.interest ≡ wanted id (not f.close_after_flush) (awaits_write c)

-- The same, for all connections but one.
abbrev pub TrackedBut : ℕ → Condition
TrackedBut here id d c f = id ≢ here → Tracked id d c f

-- Under an identifier there is a connection with a flow, or neither.
abbrev pub Slot : Condition → ℕ → Descriptors → Option Connection → Option ConnectionFlow → Type 0
Slot t id v none none = Unit {0}
Slot t id v (some c) (some f) = Held (v c.fd) f × t id (v c.fd) c f
Slot t id v (some c) none = ⊥
Slot t id v none (some f) = ⊥

-- The registry is well formed and within its bound, every connection has its flow, an open descriptor of
-- its own and a mark that tells of the interest, and the condition.
pub record Holds (t : Condition) (limits : Bounds) (r : Reactor) (v : Descriptors) : Type 0 where
  pub registry : IsRegistry r.connections
  pub limited : r.connections.limits ≡ limits.connection_limits
  pub bounded : registry_size r.connections ≤ limits.max_connections
  pub slots : (id : ℕ) → Slot t id v (find_connection r.connections id) (find id r.flows)
  pub distinct :
      (i j : ℕ) (c d : Connection)
      → find_connection r.connections i ≡ some c
      → find_connection r.connections j ≡ some d
      → c.fd ≡ d.fd
      → i ≡ j

-- A step that concerns one identifier and one descriptor.
pub record Changes (r r' : Reactor) (v v' : Descriptors) (id fd : ℕ) : Type 0 where
  pub registry : IsRegistry r'.connections
  pub same_limits : r'.connections.limits ≡ r.connections.limits
  pub connections :
      (j : ℕ) → j ≢ id → find_connection r'.connections j ≡ find_connection r.connections j
  pub flows : (j : ℕ) → j ≢ id → find j r'.flows ≡ find j r.flows
  pub views : SameBut fd v v'
  pub apart :
      (j : ℕ) (c : Connection) → j ≢ id → find_connection r.connections j ≡ some c → c.fd ≢ fd
  pub own : (c : Connection) → find_connection r'.connections id ≡ some c → c.fd ≡ fd

module _ (t t' : Condition) (id : ℕ) (v v' : Descriptors)
    (weaker : (d : Descriptor) (c : Connection) (f : ConnectionFlow)
      → t id d c f
      → t' id d c f) where
  Slot-weaken :
      (mc : Option Connection) (mf : Option ConnectionFlow)
      → ((c : Connection) → mc ≡ some c → v' c.fd ≡ v c.fd)
      → Slot t id v mc mf
      → Slot t' id v' mc mf
  Slot-weaken none none same s = tt
  Slot-weaken none (some f) same s = s
  Slot-weaken (some c) none same s = s
  Slot-weaken (some c) (some f) same s =
      subst (λ d. Held d f × t' id d c f) (sym (same c refl)) (s.0, weaker (v c.fd) c f s.1)

Slot-is_open :
    (t : Condition) (id : ℕ) (v : Descriptors) (c : Connection) (mf : Option ConnectionFlow)
    → Slot t id v (some c) mf
    → (v c.fd).open_now ≡ true
Slot-is_open t id v c none s = absurd s
Slot-is_open t id v c (some f) s = s.0.is_open

Slot-no_flow :
    (t : Condition) (id : ℕ) (v : Descriptors) (mf : Option ConnectionFlow)
    → Slot t id v none mf
    → mf ≡ none
Slot-no_flow t id v none s = refl
Slot-no_flow t id v (some f) s = absurd s

module _ (t : Condition) (limits : Bounds) (r : Reactor) (v : Descriptors) where
  -- The kernel has changed only what no connection has.
  pub Holds-views :
      (v' : Descriptors)
      → ((j : ℕ) (c : Connection) → find_connection r.connections j ≡ some c → v' c.fd ≡ v c.fd)
      → Holds t limits r v
      → Holds t limits r v'
  Holds-views v' same h = record {
    registry = h.registry;
    limited = h.limited;
    bounded = h.bounded;
    slots = λ id. Slot-weaken t t id v v' (λ d c f e. e) _ _ (same id) (h.slots id);
    distinct = h.distinct;
  }

  pub Holds-is_open :
      (j : ℕ) (c : Connection)
      → Holds t limits r v
      → find_connection r.connections j ≡ some c
      → (v c.fd).open_now ≡ true
  Holds-is_open j c h e =
      Slot-is_open t j v c (find j r.flows)
        (subst (λ mc. Slot t j v mc (find j r.flows)) e (h.slots j))

  pub Holds-no_flow :
      (j : ℕ) → Holds t limits r v → find_connection r.connections j ≡ none → find j r.flows ≡ none
  Holds-no_flow j h e =
      Slot-no_flow t j v (find j r.flows)
        (subst (λ mc. Slot t j v mc (find j r.flows)) e (h.slots j))

module _ (t t' : Condition) (limits : Bounds) (r : Reactor) (v : Descriptors) where
  -- A weaker condition.
  pub Holds-weaken :
      ((id : ℕ) (d : Descriptor) (c : Connection) (f : ConnectionFlow) → t id d c f → t' id d c f)
      → Holds t limits r v
      → Holds t' limits r v
  Holds-weaken weaker h = record {
    registry = h.registry;
    limited = h.limited;
    bounded = h.bounded;
    slots = λ id. Slot-weaken t t' id v v (weaker id) _ _ (λ c e. refl) (h.slots id);
    distinct = h.distinct;
  }

  module _ (r' : Reactor) (v' : Descriptors) (id fd : ℕ) (x : Changes r r' v v' id fd)
      (h : Holds t limits r v) where
    changed-Slot :
        (j : ℕ)
        → j ≢ id
        → ((d : Descriptor) (c : Connection) (f : ConnectionFlow) → t j d c f → t' j d c f)
        → Slot t' j v' (find_connection r'.connections j) (find j r'.flows)
    changed-Slot j ne weaker =
        subst (λ mc. Slot t' j v' mc (find j r'.flows)) (sym (x.connections j ne))
          (subst (λ mf. Slot t' j v' (find_connection r.connections j) mf) (sym (x.flows j ne))
            (Slot-weaken t t' j v v' weaker _ _ (λ c e. x.views c.fd (x.apart j c ne e))
              (h.slots j)))

    before :
        (j : ℕ) (c : Connection)
        → j ≢ id
        → find_connection r'.connections j ≡ some c
        → find_connection r.connections j ≡ some c
    before j c ne e = sym (x.connections j ne) ∙ e

    changed_distinct :
        (i j : ℕ) (c d : Connection)
        → find_connection r'.connections i ≡ some c
        → find_connection r'.connections j ≡ some d
        → c.fd ≡ d.fd
        → i ≡ j
    changed_distinct i j c d p q same = elim (ℕ_discrete i id) [
      | yes i_here ↦ elim (ℕ_discrete j id) [
        | yes j_here ↦ i_here ∙ sym j_here
        | no j_other ↦
            let mine = x.own c (ap (find_connection r'.connections) (sym i_here) ∙ p) in
            absurd (x.apart j d j_other (before j d j_other q) (sym same ∙ mine))
      ]
      | no i_other ↦ elim (ℕ_discrete j id) [
        | yes j_here ↦
            let mine = x.own d (ap (find_connection r'.connections) (sym j_here) ∙ q) in
            absurd (x.apart i c i_other (before i c i_other p) (same ∙ mine))
        | no j_other ↦ h.distinct i j c d (before i c i_other p) (before j d j_other q) same
      ]
    ]

    -- What holds for the other identifiers stays, so only the one of the step is looked at.
    pub Holds-Changes :
        registry_size r'.connections ≤ limits.max_connections
        → ((j : ℕ) (d : Descriptor) (c : Connection) (f : ConnectionFlow)
            → j ≢ id
            → t j d c f
            → t' j d c f)
        → Slot t' id v' (find_connection r'.connections id) (find id r'.flows)
        → Holds t' limits r' v'
    Holds-Changes bounded weaker slot = record {
      registry = x.registry;
      limited = x.same_limits ∙ h.limited;
      bounded = bounded;
      slots = λ j. elim (ℕ_discrete j id) [
        | yes here ↦
            subst (λ i. Slot t' i v' (find_connection r'.connections i) (find i r'.flows))
              (sym here) slot
        | no other ↦ changed-Slot j other (λ d c f. weaker j d c f other)
      ];
      distinct = changed_distinct;
    }
