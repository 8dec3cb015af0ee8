-- ===== src/Registry/Identity.antt =====
-- src/network/connection_registry.cpp: the identifiers of the connections that are registered.
use pulse_core.Base.{
  ℕ, suc, ◌+◌, ◌≤◌, ◌<◌, ◌≡◌, ◌≢◌, inl, inr, refl, sym, ap, subst, ◌∙◌, Option, none, some, arith,
  ◌==◌, ==→eq, eq→==, if◌then◌else◌, Bool-cases,
}
use native.Mathlib.Decide.{ℕ_discrete}
use pulse_core.Base.Maps.{
  find, emplace, erase, length-emplace, assign, find-none-contains, find-emplace, find-erase,
  find-assign_self, find-assign_ne,
}
use pulse_core.Sockets.{Errno}
use pulse_core.Connection.{Connection, ConnectionLimits, new_connection}
use pulse_core.Connection.Output.{IsConnection, new_connection-IsConnection}
use pulse_core.Registry.{
  id_max, Registry, new_registry, Added, added, id_space_exhausted, not_non_blocking,
  insert_connection, add, find_connection, update_connection, remove, registry_size,
}

-- A connection that is well formed, under its identifier and with the registry's limits.
pub record IsEntry (limits : ConnectionLimits) (id : ℕ) (c : Connection) : Type 0 where
  pub labelled : c.id ≡ id
  pub limited : c.limits ≡ limits
  pub valid : IsConnection c

pub record IsRegistry (r : Registry) : Type 0 where
  pub first : 1 ≤ r.next_id
  pub in_word : r.next_id ≤ id_max
  pub fresh : (id : ℕ) → r.next_id ≤ id → find_connection r id ≡ none
  pub no_zero : find_connection r 0 ≡ none
  pub entries : (id : ℕ) (c : Connection) → find_connection r id ≡ some c → IsEntry r.limits id c

pub new_registry-IsRegistry : (limits : ConnectionLimits) → IsRegistry (new_registry limits)
unfolding new_registry find_connection find
new_registry-IsRegistry limits = record {
  first = omega arith;
  in_word = omega arith;
  fresh = λ id h. refl;
  no_zero = refl;
  entries = λ id c h. cc;
}

-- The registry with a new connection under the next identifier.
abbrev pub extended : Registry → ℕ → Registry
extended r fd = record r {
  next_id = r.next_id + 1;
  connections = emplace r.next_id (new_connection r.next_id fd r.limits) r.connections;
}

-- The outcome of `Add` for a valid descriptor, in the order of its tests.
abbrev pub add_valid : Registry → ℕ → Option Errno → Added × Registry
add_valid r fd (some e) =
    if r.next_id == id_max then (id_space_exhausted, r) else (not_non_blocking e, r)
add_valid r fd none =
    if r.next_id == id_max then (id_space_exhausted, r) else (added r.next_id, extended r fd)

-- `duplicate_id` is never thrown.
pub add_lem :
    (r : Registry) (fd : ℕ) (non_blocking : Option Errno)
    → IsRegistry r
    → add r (some fd) non_blocking ≡ add_valid r fd non_blocking
unfolding add find_connection
add_lem r fd (some e) v = refl
add_lem r fd none v =
    rw
      (
        find-none-contains r.next_id r.connections (v.fresh r.next_id (omega arith)),
        insert_connection,
      )
      refl

module _ (r : Registry) (fd : ℕ) (v : IsRegistry r) where
  find-extended :
      (j : ℕ)
      → find_connection (extended r fd) j ≡ (
          if r.next_id == j
          then some (new_connection r.next_id fd r.limits)
          else find_connection r j)
  unfolding find_connection
  find-extended j = find-emplace r.next_id j _ r.connections (v.fresh r.next_id (omega arith))

  extended-IsRegistry : r.next_id < id_max → IsRegistry (extended r fd)
  extended-IsRegistry h = record {
    first = omega arith;
    in_word = omega arith;
    fresh = λ id le. rw (find-extended id) (ground (arith, v.fresh id));
    no_zero = rw (find-extended 0) (ground (arith, v.no_zero, v.first));
    entries = λ id c e. entry id c (rw (find-extended id) at e);
  }
    where
      new : Connection
      new = new_connection r.next_id fd r.limits

      entry :
          (id : ℕ) (c : Connection)
          → (if r.next_id == id then some new else find_connection r id) ≡ some c
          → IsEntry r.limits id c
      entry id c e = elim (Bool-cases (r.next_id == id)) [
        | inl here ↦
            let same : new ≡ c = cc (rw here at e) in
            subst (IsEntry r.limits id) same (
              unfold new_connection in
              record {
                labelled = ==→eq r.next_id id here;
                limited = refl;
                valid = new_connection-IsConnection r.next_id fd r.limits;
              })
        | inr other ↦ v.entries id c (rw other at e)
      ]

add_valid-IsRegistry :
    (r : Registry) (fd : ℕ) (non_blocking : Option Errno)
    → IsRegistry r
    → IsRegistry (add_valid r fd non_blocking).1
add_valid-IsRegistry r fd none v = elim (Bool-cases (r.next_id == id_max)) [
  | inl full ↦ rw full v
  | inr space ↦ rw space (extended-IsRegistry r fd v (ground (arith, v.in_word)))
]
add_valid-IsRegistry r fd (some e) v = elim (Bool-cases (r.next_id == id_max)) [
  | inl full ↦ rw full v
  | inr space ↦ rw space v
]

-- `Add` keeps a well-formed registry well formed, whether it returns or throws.
pub add-IsRegistry :
    (r : Registry) (fd : Option ℕ) (non_blocking : Option Errno)
    → IsRegistry r
    → IsRegistry (add r fd non_blocking).1
unfolding add
add-IsRegistry r none nb v = v
add-IsRegistry r (some fd) nb v =
    subst (λ (x : Added × Registry). IsRegistry x.1) (sym (add_lem r fd nb v))
      (add_valid-IsRegistry r fd nb v)

-- What holds when `Add` has returned an identifier.
pub record IsAdded (r : Registry) (fd id : ℕ) (r' : Registry) : Type 0 where
  pub next : id ≡ r.next_id
  pub not_zero : id ≢ 0
  pub not_max : id ≢ id_max
  pub was_free : find_connection r id ≡ none
  pub found : find_connection r' id ≡ some (new_connection id fd r.limits)
  pub others : (j : ℕ) → j ≢ id → find_connection r' j ≡ find_connection r j
  pub counts : r'.next_id ≡ r.next_id + 1

extended-IsAdded :
    (r : Registry) (fd : ℕ)
    → IsRegistry r
    → r.next_id ≢ id_max
    → IsAdded r fd r.next_id (extended r fd)
extended-IsAdded r fd v h = record {
  next = refl;
  not_zero = λ e. absurd (omega (arith, v.first, e));
  not_max = h;
  was_free = v.fresh r.next_id (omega arith);
  found = rw (find-extended r fd v r.next_id) (ground arith);
  others = λ j e. rw (find-extended r fd v j) (ground (arith, e));
  counts = refl;
}

add_valid-IsAdded :
    (r : Registry) (fd id : ℕ) (non_blocking : Option Errno)
    → IsRegistry r
    → (add_valid r fd non_blocking).0 ≡ added id
    → IsAdded r fd id (add_valid r fd non_blocking).1
add_valid-IsAdded r fd id none v = elim (Bool-cases (r.next_id == id_max)) [
  | inl full ↦ rw full (λ e. cc)
  | inr space ↦ rw space (λ e.
      let same : r.next_id ≡ id = cc in
      subst (λ i. IsAdded r fd i (extended r fd)) same
        (extended-IsAdded r fd v (λ h. cc (space, eq→== r.next_id id_max h))))
]
add_valid-IsAdded r fd id (some x) v = elim (Bool-cases (r.next_id == id_max)) [
  | inl full ↦ rw full (λ e. cc)
  | inr space ↦ rw space (λ e. cc)
]

-- The identifier that `Add` returns on a well-formed registry is the next one. It was free, it is
-- neither 0 nor the largest value, and it now leads to a new connection over the descriptor; all others
-- lead where they led, and the next identifier is one more.
pub add-IsAdded :
    (r : Registry) (fd id : ℕ) (non_blocking : Option Errno)
    → IsRegistry r
    → (add r (some fd) non_blocking).0 ≡ added id
    → IsAdded r fd id (add r (some fd) non_blocking).1
add-IsAdded r fd id nb v =
    subst (λ (x : Added × Registry). x.0 ≡ added id → IsAdded r fd id x.1) (sym (add_lem r fd nb v))
      (add_valid-IsAdded r fd id nb v)

size-add_valid :
    (r : Registry) (fd : ℕ) (non_blocking : Option Errno)
    → registry_size (add_valid r fd non_blocking).1 ≤ suc (registry_size r)
unfolding registry_size
size-add_valid r fd none = elim (Bool-cases (r.next_id == id_max)) [
  | inl full ↦ rw full (omega arith)
  | inr space ↦ rw space (length-emplace r.next_id _ r.connections)
]
size-add_valid r fd (some x) = elim (Bool-cases (r.next_id == id_max)) [
  | inl full ↦ rw full (omega arith)
  | inr space ↦ rw space (omega arith)
]

pub size-add :
    (r : Registry) (fd : ℕ) (non_blocking : Option Errno)
    → IsRegistry r
    → registry_size (add r (some fd) non_blocking).1 ≤ suc (registry_size r)
size-add r fd nb v =
    subst (λ (x : Added × Registry). registry_size x.1 ≤ suc (registry_size r))
      (sym (add_lem r fd nb v)) (size-add_valid r fd nb)

limits-add_valid :
    (r : Registry) (fd : ℕ) (non_blocking : Option Errno)
    → (add_valid r fd non_blocking).1.limits ≡ r.limits
limits-add_valid r fd none = elim (Bool-cases (r.next_id == id_max)) [
  | inl full ↦ rw full refl
  | inr space ↦ rw space refl
]
limits-add_valid r fd (some x) = elim (Bool-cases (r.next_id == id_max)) [
  | inl full ↦ rw full refl
  | inr space ↦ rw space refl
]

add_valid-refused :
    (r : Registry) (fd : ℕ) (non_blocking : Option Errno)
    → ((id : ℕ) → (add_valid r fd non_blocking).0 ≢ added id)
    → (add_valid r fd non_blocking).1 ≡ r
add_valid-refused r fd none = elim (Bool-cases (r.next_id == id_max)) [
  | inl full ↦ rw full (λ h. refl)
  | inr space ↦ rw space (λ h. absurd (h r.next_id refl))
]
add_valid-refused r fd (some x) = elim (Bool-cases (r.next_id == id_max)) [
  | inl full ↦ rw full (λ h. refl)
  | inr space ↦ rw space (λ h. refl)
]

-- Where `Add` on a well-formed registry returns no identifier, the registry stays as it was.
pub add-refused :
    (r : Registry) (fd : ℕ) (non_blocking : Option Errno)
    → IsRegistry r
    → ((id : ℕ) → (add r (some fd) non_blocking).0 ≢ added id)
    → (add r (some fd) non_blocking).1 ≡ r
add-refused r fd nb v =
    subst (λ (x : Added × Registry). ((id : ℕ) → x.0 ≢ added id) → x.1 ≡ r)
      (sym (add_lem r fd nb v)) (add_valid-refused r fd nb)

pub limits-add :
    (r : Registry) (fd : ℕ) (non_blocking : Option Errno)
    → IsRegistry r
    → (add r (some fd) non_blocking).1.limits ≡ r.limits
limits-add r fd nb v =
    subst (λ (x : Added × Registry). x.1.limits ≡ r.limits) (sym (add_lem r fd nb v))
      (limits-add_valid r fd nb)

-- The registry without one identifier.
abbrev removed : Registry → ℕ → Registry
removed r id = record r { connections = erase id r.connections }

find-removed :
    (r : Registry) (id j : ℕ)
    → find_connection (removed r id) j ≡ (if id == j then none else find_connection r j)
unfolding find_connection
find-removed r id j = find-erase id j r.connections

-- After `Remove` the identifier leads to no connection, and every other leads where it led.
pub find_connection-remove :
    (r : Registry) (id j : ℕ)
    → find_connection (remove r id).1 j ≡ (if id == j then none else find_connection r j)
unfolding remove
find_connection-remove r id j = find-removed r id j

-- A registry whose entries are among those of a well-formed one, or new ones that are well formed.
shrunk-IsRegistry : (r : Registry) (id : ℕ) → IsRegistry r → IsRegistry (removed r id)
shrunk-IsRegistry r id v = record {
  first = v.first;
  in_word = v.in_word;
  fresh = λ j h. rw (find-removed r id j) (ground (arith, v.fresh j));
  no_zero = rw (find-removed r id 0) (ground (arith, v.no_zero));
  entries = λ j c e. v.entries j c (ground (arith, rw (find-removed r id j) at e));
}

-- `Remove` keeps the registry well formed.
pub remove-IsRegistry : (r : Registry) (id : ℕ) → IsRegistry r → IsRegistry (remove r id).1
unfolding remove
remove-IsRegistry r id v = shrunk-IsRegistry r id v

updated-IsEntry :
    (limits : ConnectionLimits) (id j : ℕ) (c x : Connection)
    → IsEntry limits id c
    → id ≡ j
    → some c ≡ some x
    → IsEntry limits j x
updated-IsEntry limits id j c x entry here e =
    subst (λ i. IsEntry limits i x) here (subst (IsEntry limits id) (cc) entry)

-- A change of a registered connection that keeps it well formed keeps the registry well formed.
pub update_connection-IsRegistry :
    (r : Registry) (id : ℕ) (old c : Connection)
    → IsRegistry r
    → find_connection r id ≡ some old
    → IsEntry r.limits id c
    → IsRegistry (update_connection r id c)
unfolding find_connection update_connection
update_connection-IsRegistry r id old c v found entry = record {
  first = v.first;
  in_word = v.in_word;
  fresh = λ j h.
      rw
        (find-assign_ne id j c r.connections
          (λ e. cc (found, v.fresh j h, ap (λ k. find k r.connections) e)))
        (v.fresh j h);
  no_zero =
      rw
        (find-assign_ne id 0 c r.connections
          (λ e. cc (found, v.no_zero, ap (λ k. find k r.connections) e)))
        v.no_zero;
  entries = λ j x e. elim (ℕ_discrete id j) [
    | yes here ↦ updated-IsEntry r.limits id j c x entry here (
        sym (find-assign_self id c r.connections found)
        ∙ ap (λ k. find k (assign id c r.connections)) here
        ∙ e)
    | no other ↦ v.entries j x (sym (find-assign_ne id j c r.connections other) ∙ e)
  ];
}
