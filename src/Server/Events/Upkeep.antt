-- ===== src/Server/Events/Upkeep.antt =====
-- `HandleConnectionEvent` and `HandleCompletedWork` of src/network/epoll_echo_server.cpp, on the
-- connections, the flows and the kernel's descriptors.
use pulse_core.Base.{
  ℕ, ◌+◌, ◌<◌, ◌≤◌, ◌≡◌, refl, sym, subst, ◌∙◌, Bool, true, false, some, List, [], arith, length,
  length-drop,
}
use pulse_core.Base.Maps.{assign}
use pulse_core.Codec.{Message}
use pulse_core.Connection.{
  Connection, ConnectionLimits, Outcome, returned, ReadAvailableResult, ok as read_ok, would_block,
  peer_closed, protocol_error, WriteAvailableResult, read_available, write_available,
}
use pulse_core.Connection.Write.{Finishes, Wrote}
use pulse_core.Connection.Write.Loop.{write_available-Wrote}
use pulse_core.Connection.Read.{messages, Reads}
use pulse_core.Connection.Read.Loop.{read_available-Reads}
use pulse_core.Connection.Frame.{Keeps, read_available-Keeps, write_available-Keeps}
use pulse_core.Registry.Identity.{IsEntry}
use pulse_core.Server.{ConnectionFlow, submit_work, should_close_after_flush}
use pulse_core.Server.Marks.{submit_work-SameMarks}
use pulse_core.Server.Kernel.{Kernel, IsKernel, Ready, Descriptor}
use pulse_core.Server.Interest.{Agrees}
use pulse_core.Server.Effects.{State, put_connection, put_flow}
use pulse_core.Server.Handlers.{Options}
use pulse_core.Server.Handlers.Upkeep.{Faulty, Settled, remove_action-Meets, update_action-Meets}
use pulse_core.Server.Consistent.{Bounds, Held, Anything, Holds}
use pulse_core.Server.Consistent.Outcomes.{Meets, Meets-continue}
use pulse_core.Server.Consistent.Serving.{
  Serving, Serving-Anything, Serving-Held, Serving-IsEntry, Serving-put_connection,
  Serving-put_flow,
}
use pulse_core.Server.Events.{
  after_call, read_connection, write_connection, submit, mark_read, Turn, read_by, wants_read,
  write_by, settle_by, settle, serve_flow,
}

-- What a call of the connection's methods leaves of it.
abbrev Kept : Bounds → ℕ → Connection → Connection → Type 0
Kept limits id c c' = IsEntry limits.connection_limits id c' × (c'.fd ≡ c.fd)

-- The marks in a flow are all that a descriptor is compared with.
pub with_marks-Held :
    {d : Descriptor} {f : ConnectionFlow} (f' : ConnectionFlow)
    → Held d f
    → f'.registered_with_epoll ≡ f.registered_with_epoll
    → Held d f'
with_marks-Held {d} f' h same = record {
  is_open = h.is_open;
  agrees = subst (λ (b : Bool). Agrees b d.interest) (sym same) h.agrees;
}

module _ {W : Type 0} (k : Kernel W) (st : IsKernel k) (limits : Bounds) (o : Options)
    (fuel id : ℕ) where
  abbrev Served : Connection → ConnectionFlow → State → W → Type 0
  Served c f s w = Serving limits id c f s.reactor (st.view w)

  module _ (c : Connection) (f : ConnectionFlow) (s : State) (w : W) (x : Served c f s w) where
    entry : IsEntry limits.connection_limits id c
    entry = Serving-IsEntry limits id s.reactor (st.view w) c f x

    after_call-Meets :
        {A : Type 0} (out : Outcome W A)
        → Finishes (λ a c' w'. Kept limits id c c') (λ c' w'. Kept limits id c c') out
        → Keeps (λ w'. st.view w' ≡ st.view w) out
        → Meets
            (Faulty k st limits)
            (λ (r : A × Connection) s' w'. Served r.1 f s' w')
            (after_call k o fuel id s out)
    unfolding after_call put_connection
    after_call-Meets (returned a c' w') (e, same) views =
        subst (Serving limits id c' f _) (sym views)
          (Serving-put_connection limits id s.reactor (st.view w) c f x c' e same)
    after_call-Meets (Outcome.threw y c' w') (e, same) views =
        subst (Holds Anything limits _) (sym views) (
          Serving-Anything limits id _ (st.view w) c' f
            (Serving-put_connection limits id s.reactor (st.view w) c f x c' e same))
    after_call-Meets Outcome.stuck h views = h

    Reads-Kept :
        (budget : ℕ) (out : Outcome W ReadAvailableResult)
        → Reads k.sockets c.fd (st.stream c.fd) budget c w 0 [] out
        → Finishes (λ a c' w'. Kept limits id c c') (λ c' w'. Kept limits id c c') out
    Reads-Kept budget (returned a c' w') r =
        let g = r.advances in
        (
          record {
            labelled = g.same_id ∙ entry.labelled;
            limited = g.same_limits ∙ entry.limited;
            valid = g.valid;
          },
          g.same_fd,
        )
    Reads-Kept budget (Outcome.threw y c' w') (ms, g, _) = (
      record {
        labelled = g.same_id ∙ entry.labelled;
        limited = g.same_limits ∙ entry.limited;
        valid = g.valid;
      },
      g.same_fd,
    )
    Reads-Kept budget Outcome.stuck r = r

    read_connection-Meets :
        st.most + o.max_read_bytes_per_event < fuel
        → Meets
            (Faulty k st limits)
            (λ (r : ReadAvailableResult × Connection) s' w'. Served r.1 f s' w')
            (read_connection k o fuel id c s w)
    unfolding read_connection
    read_connection-Meets enough =
        after_call-Meets (read_available k.sockets fuel c o.max_read_bytes_per_event w)
          (Reads-Kept o.max_read_bytes_per_event _ (
            read_available-Reads k.sockets c (st.stream c.fd) o.max_read_bytes_per_event fuel w
              entry.valid (omega (arith, enough, st.patience_most c.fd w))))
          (read_available-Keeps (λ w'. st.view w' ≡ st.view w) k.sockets
            (λ fd n w' p. st.recv_view fd n w' ∙ p) fuel c o.max_read_bytes_per_event w refl)

    Wrote-Kept :
        (budget : ℕ) (out : Outcome W WriteAvailableResult)
        → Wrote k.sockets c.fd (st.stream c.fd) budget c w 0 out
        → Finishes (λ a c' w'. Kept limits id c c') (λ c' w'. Kept limits id c c') out
    Wrote-Kept budget (returned a c' w') r =
        let g = r.forwards in
        (
          record {
            labelled = g.same_id ∙ entry.labelled;
            limited = g.same_limits ∙ entry.limited;
            valid = g.valid;
          },
          g.same_fd,
        )
    Wrote-Kept budget (Outcome.threw y c' w') g = (
      record {
        labelled = g.same_id ∙ entry.labelled;
        limited = g.same_limits ∙ entry.limited;
        valid = g.valid;
      },
      g.same_fd,
    )
    Wrote-Kept budget Outcome.stuck r = r

    write_connection-Meets :
        st.most + limits.connection_limits.max_output_buffer < fuel
        → Meets
            (Faulty k st limits)
            (λ (r : WriteAvailableResult × Connection) s' w'. Served r.1 f s' w')
            (write_connection k o fuel id c s w)
    unfolding write_connection
    write_connection-Meets enough =
        let fits : length c.output_buffer ≤ limits.connection_limits.max_output_buffer =
          subst (λ (l : ConnectionLimits). length c.output_buffer ≤ l.max_output_buffer)
            entry.limited entry.valid.output_fits in
        after_call-Meets (write_available k.sockets fuel c o.max_write_bytes_per_event w)
          (Wrote-Kept o.max_write_bytes_per_event _ (
            write_available-Wrote k.sockets c (st.stream c.fd) o.max_write_bytes_per_event fuel w
              entry.valid
              (omega (
                arith,
                enough,
                fits,
                st.patience_most c.fd w,
                length-drop c.output_offset c.output_buffer,
              ))))
          (write_available-Keeps (λ w'. st.view w' ≡ st.view w) k.sockets
            (λ fd bytes w' p. st.send_view fd bytes w' ∙ p) fuel c o.max_write_bytes_per_event w
            refl)

    Served-put_flow :
        (f' : ConnectionFlow)
        → f'.registered_with_epoll ≡ f.registered_with_epoll
        → Serving limits id c f'
            (record s.reactor { flows = assign id f' s.reactor.flows })
            (st.view w)
    Served-put_flow f' same =
        Serving-put_flow limits id s.reactor (st.view w) c f x (st.view w) (λ j ne. refl) f'
          (with_marks-Held f' (Serving-Held limits id s.reactor (st.view w) c f x) same)

    submit-Meets :
        (messages : List Message)
        → Meets
            (Faulty k st limits)
            (λ (r : Bool × ConnectionFlow) s' w'. Served c r.1 s' w')
            (submit k o fuel id messages f s w)
    unfolding submit put_flow
    submit-Meets messages =
        Served-put_flow (submit_work o.max_in_flight_requests_per_connection id messages s.pool f).2
          (submit_work-SameMarks o.max_in_flight_requests_per_connection id messages s.pool
            f).same_registered

    mark_read-Meets :
        (r : ReadAvailableResult) (done : Bool)
        → Meets
            (Faulty k st limits)
            (λ (d : Bool × ConnectionFlow) s' w'. Served c d.1 s' w')
            (mark_read k o fuel id r (done, f) s w)
    unfolding mark_read put_flow
    mark_read-Meets (protocol_error e ms) done = x
    mark_read-Meets (peer_closed ms) done =
        Served-put_flow (record f { close_after_flush = true }) refl
    mark_read-Meets (read_ok ms) done = x
    mark_read-Meets would_block done = x

  abbrev TurnOk : Turn k o fuel id → State → W → Type 0
  TurnOk x s w = Served x.1 x.2 s w

  settle_by-Meets :
      (c : Connection) (f : ConnectionFlow) (s : State) (w : W) (b : Bool)
      → Served c f s w
      → Meets (Faulty k st limits) (Settled k st limits) (settle_by k o fuel id c f b s w)
  unfolding settle_by
  settle_by-Meets c f s w true x = remove_action-Meets k st limits id c f s w x
  settle_by-Meets c f s w false x = update_action-Meets k st limits id c f s w x

  pub settle-Meets :
      (x : Turn k o fuel id) (s : State) (w : W)
      → TurnOk x s w
      → Meets (Faulty k st limits) (Settled k st limits) (settle k o fuel id x s w)
  unfolding settle
  settle-Meets (true, c, f) s w x = remove_action-Meets k st limits id c f s w x
  settle-Meets (false, c, f) s w x = settle_by-Meets c f s w (should_close_after_flush c f) x

  module _ (reads_enough : st.most + o.max_read_bytes_per_event < fuel)
      (writes_enough : st.most + limits.connection_limits.max_output_buffer < fuel) where
    read_by-Meets :
        (e : Ready) (c : Connection) (f : ConnectionFlow) (b : Bool) (s : State) (w : W)
        → Served c f s w
        → Meets (Faulty k st limits) TurnOk (read_by k o fuel id e c f b s w)
    unfolding read_by
    read_by-Meets e c f false s w x = x
    read_by-Meets e c f true s w x =
        Meets-continue (Faulty k st limits)
          (λ (r : ReadAvailableResult × Connection) s' w'. Served r.1 f s' w') TurnOk _ _
          (read_connection-Meets c f s w x reads_enough)
          (λ r s1 w1 x1.
            Meets-continue (Faulty k st limits)
              (λ (d : Bool × ConnectionFlow) s' w'. Served r.1 d.1 s' w') TurnOk _ _
              (submit-Meets r.1 f s1 w1 x1 (messages r.0))
              (λ d s2 w2 x2.
                Meets-continue (Faulty k st limits)
                  (λ (d : Bool × ConnectionFlow) s' w'. Served r.1 d.1 s' w') TurnOk _ _
                  (mark_read-Meets r.1 d.1 s2 w2 x2 r.0 d.0) (λ m s3 w3 x3. x3)))

    write_by-Meets :
        (y : Turn k o fuel id) (b : Bool) (s : State) (w : W)
        → TurnOk y s w
        → Meets (Faulty k st limits) TurnOk (write_by k o fuel id y b s w)
    unfolding write_by
    write_by-Meets y false s w x = x
    write_by-Meets (remove, c, f) true s w x =
        Meets-continue (Faulty k st limits)
          (λ (r : WriteAvailableResult × Connection) s' w'. Served r.1 f s' w') TurnOk _ _
          (write_connection-Meets c f s w x writes_enough) (λ r s1 w1 x1. x1)

    pub serve_flow-Meets :
        (e : Ready) (c : Connection) (f : ConnectionFlow) (s : State) (w : W)
        → Served c f s w
        → Meets (Faulty k st limits) (Settled k st limits) (serve_flow k o fuel id e c (some f) s w)
    unfolding serve_flow
    serve_flow-Meets e c f s w x =
        Meets-continue (Faulty k st limits) TurnOk (Settled k st limits) _ _
          (read_by-Meets e c f (wants_read k o fuel id e f) s w x)
          (λ y s1 w1 x1.
            Meets-continue (Faulty k st limits) TurnOk (Settled k st limits) _ _
              (write_by-Meets y _ s1 w1 x1) (λ z s2 w2 x2. settle-Meets z s2 w2 x2))
