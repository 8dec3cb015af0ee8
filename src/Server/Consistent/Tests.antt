-- ===== src/Server/Consistent/Tests.antt =====
-- A concrete kernel with one stream, descriptor 7 for a client and an object that has been written, and a
-- server with a connection on it.
mod History
use pulse_core.Base.{
  ℕ, ◌^◌, ◌-◌, ◌<◌, ◌≤◌, ◌≡◌, ◌≢◌, refl, sym, ap, subst, ◌∙◌, Bool, true, false, Bool-cases, inl,
  inr, ◌⊎◌, Option, none, some, List, [], ◌∷◌, ◌++◌, arith, ◌==◌, ==→eq, eq→==, if◌then◌else◌,
  length,
}
use pulse_core.Base.Maps.{find}
use pulse_core.Codec.{new_decoder, buffered_size}
use pulse_core.Codec.Tests.{ping}
use pulse_core.Sockets.{eintr, eagain, Received, sent, IsStream}
use pulse_core.Connection.{Connection, default_limits, has_pending_output}
use pulse_core.Connection.Output.{IsConnection}
use pulse_core.Connection.Tests.{
  World, read_some, read_some-Receives, read_some_keeps, read_some_calm, all_taken, never, arrived,
}
use pulse_core.Registry.{Registry, find_connection, registry_size, added, add}
use pulse_core.Registry.Identity.{IsRegistry, IsEntry}
use pulse_core.WorkerPool.{WorkHandler, take_work}
use pulse_core.Server.{ConnectionFlow, new_flow}
use pulse_core.Server.Interest.{Event, Operation, ctl_add, ctl_mod, ctl_del, Sets, connection_event}
use pulse_core.Server.Kernel.{
  Kernel, IsKernel, Descriptor, unused, fresh_descriptor, SameBut, Opens, Accepted, accepted,
  accept_failed, ObjectRead, whole, read_failed, flags, Ready, ready, GoesOn,
}
use pulse_core.Server.Effects.{State}
use pulse_core.Server.Handlers.{Options}
use pulse_core.Server.Handlers.Upkeep.{Faulty, Settled}
use pulse_core.Server.Consistent.{Bounds, Descriptors, Tracked, Slot}
use pulse_core.Server.Consistent.Outcomes.{Meets}
use pulse_core.Server.Accept.{handle_listener_event}
use pulse_core.Server.Accept.Admit.{handle_listener_event-Settles}
use pulse_core.Server.Events.{handle_connection_event, deliver}
use pulse_core.Server.Events.Handle.{IsEnough, handle_connection_event-Settles, deliver-Settles}
use pulse_core.Server.Run.{close_all_connections, run, dispatch, handle_shutdown_signal}
use pulse_core.Server.Run.Threads.{
  new_state, Reach, here, next, waits as waits_step, takes, Reach-Settled,
}
use pulse_core.Server.Run.Keys.{dispatch-handle_connection_event, reserved_key}
use pulse_core.Handler.{handle_owned_request}
use pulse_core.Server.Run.Close.{Shut, close_all_connections-Closes}
use pulse_core.Server.Run.Upkeep.{Ran, run-Settles}

record Machine : Type 0 where
  streams : World
  table : Descriptors
  written : Bool

set_descriptor : ℕ → Descriptor → Descriptors → Descriptors
set_descriptor fd d t j = if fd == j then d else t j

set_descriptor_self : (fd : ℕ) (d : Descriptor) (t : Descriptors) → set_descriptor fd d t fd ≡ d
unfolding set_descriptor
set_descriptor_self fd d t = rw (eq→== fd fd refl) refl

set_descriptor_other :
    (fd : ℕ) (d : Descriptor) (t : Descriptors) → SameBut fd t (set_descriptor fd d t)
unfolding set_descriptor
set_descriptor_other fd d t j ne = elim (Bool-cases (fd == j)) [
  | inl e ↦ absurd (ne (sym (==→eq fd j e)))
  | inr e ↦ rw e refl
]

abbrev recv_by : Machine → Received × World → Received × Machine
recv_by w x = (x.0, record w { streams = x.1 })

accept_by : Machine → Bool → Accepted × Machine
accept_by w true = (accept_failed eagain, w)
accept_by w false = (accepted 7, record w { table = set_descriptor 7 fresh_descriptor w.table })

ctl_event : Operation → Option Event → Option Event
ctl_event ctl_del event = none
ctl_event ctl_add event = event
ctl_event ctl_mod event = event

read_by : Machine → Bool → ObjectRead × Machine
read_by w true = (whole, record w { written = false })
read_by w false = (read_failed eagain, w)

abbrev machine : Kernel Machine
machine = record {
  sockets = record {
    recv = λ fd n w. recv_by w (read_some n w.streams.unread w.streams.bytes w.streams.accepted);
    send = λ fd bytes w. (
      sent (length bytes),
      record w { streams = record w.streams { accepted = w.streams.accepted ++ bytes } },
    );
  };
  epoll = record {
    ctl = λ op fd event w. (
      none,
      record w {
        table =
            set_descriptor fd
              (record { open_now = (w.table fd).open_now; interest = ctl_event op event }) w.table;
      },
    );
    close = λ fd w. record w { table = set_descriptor fd unused w.table };
  };
  accept = λ fd w. accept_by w (w.table 7).open_now;
  get_flags = λ fd w. (flags true 0, w);
  set_flags = λ fd b n w. (none, w);
  read_object = λ fd w. read_by w w.written;
  write_object = λ fd w. (whole, record w { written = true });
  wait = λ w. (
    ready (
        record {
          key = 0;
          epollerr = false;
          epollhup = false;
          epollin = true;
          epollrdhup = false;
          epollout = false;
        }
        ∷ record {
          key = 1;
          epollerr = false;
          epollhup = false;
          epollin = true;
          epollrdhup = false;
          epollout = true;
        }
        ∷ []),
    w,
  );
}

abbrev machine_stream : (fd : ℕ) → IsStream machine.sockets fd
machine_stream fd = record {
  incoming = λ w. w.streams.unread;
  outgoing = λ w. w.streams.accepted;
  patience = λ w. 0;
  recv_takes = λ n w. read_some-Receives n w.streams.unread w.streams.bytes w.streams.accepted;
  send_puts = λ bytes w.
      (omega arith, ap (λ (t : List ℕ). w.streams.accepted ++ t) (sym (all_taken bytes)));
  recv_keeps = λ n w. read_some_keeps n w.streams.unread w.streams.bytes w.streams.accepted;
  send_keeps = λ bytes w. refl;
  recv_patience = λ n w e. read_some_calm n w.streams.unread w.streams.bytes w.streams.accepted e;
  send_patience = λ bytes w e. never (length bytes) e;
  recv_calm = λ n w. omega arith;
  send_calm = λ bytes w. omega arith;
}

accept_by-Opens :
    (w : Machine) (b : Bool)
    → (w.table 7).open_now ≡ b
    → Opens (accept_by w b).0 w.table (accept_by w b).1.table
unfolding accept_by
accept_by-Opens w true e = refl
accept_by-Opens w false e = (
  e,
  set_descriptor_self 7 fresh_descriptor w.table,
  set_descriptor_other 7 fresh_descriptor w.table,
)

accept_by_calm : (w : Machine) (b : Bool) → (accept_by w b).0 ≡ accept_failed eintr → ⊥
unfolding accept_by
accept_by_calm w true e = cc
accept_by_calm w false e = cc

ctl_event-Sets :
    (op : Operation) (event before : Option Event) → Sets op event before none (ctl_event op event)
unfolding ctl_event
ctl_event-Sets ctl_del event before = refl
ctl_event-Sets ctl_add event before = refl
ctl_event-Sets ctl_mod event before = refl

read_by-table : (w : Machine) (b : Bool) → (read_by w b).1.table ≡ w.table
unfolding read_by
read_by-table w true = refl
read_by-table w false = refl

-- The object is read once after it was written.
abbrev waits : Bool → ℕ
waits b = if b then 1 else 0

waits-le : (b : Bool) → waits b ≤ 1
waits-le true = omega arith
waits-le false = omega arith

read_by-waits :
    (w : Machine) (b : Bool) → GoesOn (read_by w b).0 → waits (read_by w b).1.written < waits b
unfolding read_by
read_by-waits w true goes = omega arith
read_by-waits w false goes = absurd goes

machine-IsKernel : IsKernel machine
machine-IsKernel = record {
  view = λ w. w.table;
  delay = λ w. waits w.written;
  most = 1;
  stream = machine_stream;
  delay_most = λ w. waits-le w.written;
  patience_most = λ fd w. omega arith;
  recv_view = λ fd n w. refl;
  send_view = λ fd bytes w. refl;
  get_flags_view = λ fd w. refl;
  set_flags_view = λ fd b n w. refl;
  read_view = λ fd w. read_by-table w w.written;
  write_view = λ fd w. refl;
  wait_view = λ w. refl;
  accept_view = λ fd w. accept_by-Opens w (w.table 7).open_now refl;
  ctl_sets = λ op fd event w.
      subst (λ (d : Descriptor). Sets op event (w.table fd).interest none d.interest)
        (sym (set_descriptor_self fd _ w.table)) (ctl_event-Sets op event (w.table fd).interest);
  ctl_open =
      λ op fd event w. ap (λ (d : Descriptor). d.open_now) (set_descriptor_self fd _ w.table);
  ctl_others = λ op fd event w. set_descriptor_other fd _ w.table;
  close_view = λ fd w. set_descriptor_self fd unused w.table;
  close_others = λ fd w. set_descriptor_other fd unused w.table;
  accept_delay = λ fd w e. absurd (accept_by_calm w (w.table 7).open_now e);
  read_delay = λ fd w goes. read_by-waits w w.written goes;
  write_delay = λ fd w e. absurd (cc e);
}

abbrev bounds : Bounds
bounds = record { connection_limits = default_limits; max_connections = 2 }

abbrev options : Options
options = record {
  listener = 5;
  worker_wakeup = 6;
  shutdown_signal = 8;
  max_read_bytes_per_event = 100;
  max_write_bytes_per_event = 100;
  max_connections = 2;
  max_in_flight_requests_per_connection = 4;
}

abbrev opened : Connection
opened = record {
  id = 1;
  fd = 3;
  limits = default_limits;
  decoder = new_decoder;
  output_buffer = [];
  output_offset = 0;
}

opened-IsConnection : IsConnection opened
unfolding buffered_size
opened-IsConnection = omega arith

abbrev open_flow : ConnectionFlow
open_flow = record new_flow { registered_with_epoll = true }

abbrev one_connection : Registry
one_connection = record { limits = default_limits; next_id = 2; connections = (1, opened) ∷ [] }

abbrev serving : State
serving = record {
  reactor = record { connections = one_connection; flows = (1, open_flow) ∷ [] };
  pool = record {
    worker_count = 1;
    queue = record { capacity = 2; items = []; closed = false };
    busy = [];
    completed = [];
  };
  completed_work = record { connection_id = 1; sequence = 0; response = ping } ∷ [];
  stop_requested = false;
}

abbrev started : Machine
started = record {
  streams = arrived;
  table =
      set_descriptor 3 (record { open_now = true; interest = some (connection_event 1 true false) })
        (λ j. unused);
  written = true;
}

-- What is under an identifier.
found_cases :
    (id : ℕ)
    → ((id ≡ 1)
        × (find_connection one_connection id ≡ some opened)
        × (find id serving.reactor.flows ≡ some open_flow))
      ⊎ ((id ≢ 1)
          × (find_connection one_connection id ≡ none)
          × (find id serving.reactor.flows ≡ none))
unfolding find_connection find
found_cases id = elim (Bool-cases (1 == id)) [
  | inl e ↦ inl (rw e (sym (==→eq 1 id e), refl, refl))
  | inr e ↦ inr (rw e ((λ same. cc (eq→== 1 id (sym same), e)), refl, refl))
]

one_connection-IsRegistry : IsRegistry one_connection
one_connection-IsRegistry = record {
  first = omega arith;
  in_word = omega arith;
  fresh = λ id le. elim (found_cases id) [
    | inl (at_one, _, _) ↦ absurd (omega (arith, at_one, le))
    | inr (_, none_there, _) ↦ none_there
  ];
  no_zero = elim (found_cases 0) [
    | inl (at_one, _, _) ↦ absurd (omega (arith, at_one))
    | inr (_, none_there, _) ↦ none_there
  ];
  entries = λ id c e. elim (found_cases id) [
    | inl (at_one, there, _) ↦
        let same : opened ≡ c = cc (there, e) in
        subst (IsEntry default_limits id) same
          (record { labelled = sym at_one; limited = refl; valid = opened-IsConnection })
    | inr (_, none_there, _) ↦ absurd (cc (none_there, e))
  ];
}

serving-Slot : Slot Tracked 1 started.table (some opened) (some open_flow)
unfolding set_descriptor has_pending_output connection_event
serving-Slot = (record { is_open = refl; agrees = (_, refl) }, refl)

serving-Settled : Settled machine machine-IsKernel bounds tt serving started
unfolding registry_size machine-IsKernel
serving-Settled = record {
  registry = one_connection-IsRegistry;
  limited = refl;
  bounded = omega arith;
  slots = λ id. elim (found_cases id) [
    | inl (at_one, there, flow) ↦
        subst (λ mf. Slot Tracked id started.table (find_connection one_connection id) mf)
          (sym flow)
          (subst (λ mc. Slot Tracked id started.table mc (some open_flow)) (sym there)
            (subst (λ i. Slot Tracked i started.table (some opened) (some open_flow)) (sym at_one)
              serving-Slot))
    | inr (_, no_connection, no_flow) ↦
        subst (λ mf. Slot Tracked id started.table (find_connection one_connection id) mf)
          (sym no_flow) (subst (λ mc. Slot Tracked id started.table mc none) (sym no_connection) tt)
  ];
  distinct = λ i j c d p q same. elim (found_cases i) [
    | inl (i_one, _, _) ↦ elim (found_cases j) [
      | inl (j_one, _, _) ↦ i_one ∙ sym j_one
      | inr (_, none_there, _) ↦ absurd (cc (none_there, q))
    ]
    | inr (_, none_there, _) ↦ absurd (cc (none_there, p))
  ];
}

enough : IsEnough machine-IsKernel bounds options 2000000
unfolding machine-IsKernel
enough = record { reads = omega arith; writes = omega arith; clients = omega arith }

abbrev both_ready : Ready
both_ready = record {
  key = 1;
  epollerr = false;
  epollhup = false;
  epollin = true;
  epollrdhup = false;
  epollout = true;
}

handle_connection_event-Settles_example :
    Meets
      (Faulty machine machine-IsKernel bounds)
      (Settled machine machine-IsKernel bounds)
      (handle_connection_event machine options 2000000 1 both_ready serving started)
handle_connection_event-Settles_example =
    handle_connection_event-Settles machine machine-IsKernel bounds options 2000000 1 both_ready
      serving started enough serving-Settled

deliver-Settles_example :
    Meets
      (Faulty machine machine-IsKernel bounds)
      (Settled machine machine-IsKernel bounds)
      (deliver machine options 2000000 1 0 ping serving started)
deliver-Settles_example =
    deliver-Settles machine machine-IsKernel bounds options 2000000 1 0 ping serving started
      serving-Settled

most_le : machine-IsKernel.most < 2000000
unfolding machine-IsKernel
most_le = omega arith

handle_listener_event-Settles_example :
    Meets
      (Faulty machine machine-IsKernel bounds)
      (Settled machine machine-IsKernel bounds)
      (handle_listener_event machine options 2000000 serving started)
handle_listener_event-Settles_example =
    handle_listener_event-Settles machine machine-IsKernel bounds options (omega arith) 2000000
      serving started most_le serving-Settled

close_all_connections-Closes_example :
    Meets
      (Faulty machine machine-IsKernel bounds)
      (Shut machine machine-IsKernel bounds serving started)
      (close_all_connections machine serving started)
close_all_connections-Closes_example =
    close_all_connections-Closes machine machine-IsKernel bounds serving started serving-Settled

run-Settles_example :
    Meets
      (Faulty machine machine-IsKernel bounds)
      (Ran machine machine-IsKernel bounds options 2000000 enough)
      (run machine options 2000000 3 serving started)
run-Settles_example =
    run-Settles machine machine-IsKernel bounds options 2000000 enough 3 serving started
      serving-Settled

one_found : find_connection one_connection 1 ≡ some opened
unfolding find_connection find
one_found = refl

dispatch-handle_connection_event_example :
    dispatch machine options 2000000 both_ready
    ≡ handle_connection_event machine options 2000000 1 both_ready
dispatch-handle_connection_event_example =
    dispatch-handle_connection_event machine options 2000000 one_connection opened both_ready
      one_connection-IsRegistry one_found (λ e. absurd (omega (arith, e)))

-- A registry that has issued all identifiers below 2^64 - 2, and closed those connections.
abbrev old_registry : Registry
old_registry = record { limits = default_limits; next_id = 2 ^ 64 - 2; connections = [] }

old_registry-IsRegistry : IsRegistry old_registry
unfolding find_connection find
old_registry-IsRegistry = record {
  first = omega arith;
  in_word = omega arith;
  fresh = λ id le. refl;
  no_zero = refl;
  entries = λ id c e. absurd (cc e);
}

abbrev reserved_ready : Ready
reserved_ready = record both_ready { key = 2 ^ 64 - 2 }

reserved_key_example :
    ((add old_registry (some 7) none).0 ≡ added reserved_ready.key)
    × (dispatch machine options 2000000 reserved_ready
        ≡ handle_shutdown_signal machine options 2000000)
reserved_key_example =
    reserved_key machine options 2000000 old_registry 7 reserved_ready old_registry-IsRegistry refl
      refl
