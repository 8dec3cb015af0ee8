-- ===== src/Server/Events/Handle.antt =====
-- `HandleConnectionEvent` and `HandleCompletedWork` of src/network/epoll_echo_server.cpp as a whole.
use pulse_core.Base.{
  ℕ, ◌+◌, ◌<◌, ◌≤◌, ◌≡◌, refl, sym, subst, ◌∙◌, not, Option-cases, inl, inr, Option, none, some,
}
use pulse_core.Base.Maps.{find, emplace}
use pulse_core.Codec.{Message}
use pulse_core.Connection.{Connection}
use pulse_core.Connection.Output.{IsConnection}
use pulse_core.Registry.{find_connection}
use pulse_core.Server.{ConnectionFlow, Flushed, handle_completed_work}
use pulse_core.Server.Marks.{Unmoved, handle_completed_work-Unmoved}
use pulse_core.Server.Order.{flush_ready_responses-Flushes}
use pulse_core.Server.Kernel.{Kernel, IsKernel, Ready}
use pulse_core.Server.Effects.{State, put_connection, put_flow}
use pulse_core.Server.Handlers.{Options}
use pulse_core.Server.Handlers.Upkeep.{Faulty, Settled}
use pulse_core.Server.Consistent.{Bounds, Tracked}
use pulse_core.Server.Consistent.Outcomes.{Meets}
use pulse_core.Server.Consistent.Serving.{
  Serving, Serving-Held, Serving-IsEntry, Serving-put_connection, Serving-put_flow, Tracked-Serving,
  has_flow,
}
use pulse_core.Server.Events.{
  serve_flow, serve_connection, handle_connection_event, after_flush, deliver_flow,
  deliver_connection, deliver,
}
use pulse_core.Server.Events.Upkeep.{with_marks-Held, settle-Meets, serve_flow-Meets}

-- The fuel is more than the kernel's interruptions and the bytes of a read or a write can use, and the
-- option is the server's bound.
pub record IsEnough {W : Type 0} {k : Kernel W} (st : IsKernel k) (limits : Bounds) (o : Options)
    (fuel : ℕ) : Type 0 where
  pub reads : st.most + o.max_read_bytes_per_event < fuel
  pub writes : st.most + limits.connection_limits.max_output_buffer < fuel
  pub clients : o.max_connections ≤ limits.max_connections

module _ {W : Type 0} (k : Kernel W) (st : IsKernel k) (limits : Bounds) (o : Options)
    (fuel id : ℕ) where
  serve_connection-Meets :
      (e : Ready) (s : State) (w : W) (mc : Option Connection)
      → IsEnough st limits o fuel
      → find_connection s.reactor.connections id ≡ mc
      → Settled k st limits tt s w
      → Meets (Faulty k st limits) (Settled k st limits) (serve_connection k o fuel id e mc s w)
  unfolding serve_connection
  serve_connection-Meets e s w none enough found h = h
  serve_connection-Meets e s w (some c) enough found h =
      elim (Option-cases (find id s.reactor.flows)) [
        | inl no_flow ↦ absurd (has_flow limits id s.reactor (st.view w) Tracked c h found no_flow)
        | inr (f, flow) ↦
            subst
              (λ mf.
                Meets (Faulty k st limits) (Settled k st limits)
                  (serve_flow k o fuel id e c mf s w))
              (sym flow)
              (serve_flow-Meets k st limits o fuel id enough.reads enough.writes e c f s w
                (Tracked-Serving limits id s.reactor (st.view w) c f h found flow))
      ]

  -- A flush ends with a well-formed connection.
  abbrev Sound : Flushed → Type 0
  Sound none = ⊥
  Sound (some (flushed, c, f)) = IsConnection c

  after_flush-Meets :
      (c : Connection) (f : ConnectionFlow) (r : Flushed) (s : State) (w : W)
      → Serving limits id c f s.reactor (st.view w)
      → Unmoved c f r
      → Sound r
      → Meets (Faulty k st limits) (Settled k st limits) (after_flush k o fuel id r s w)
  unfolding after_flush put_connection put_flow
  after_flush-Meets c f none s w x u v = v
  after_flush-Meets c f (some (flushed, c', f')) s w x (owner, marks) v =
      let entry = Serving-IsEntry limits id s.reactor (st.view w) c f x in
      let y =
        Serving-put_connection limits id s.reactor (st.view w) c f x c'
          (record {
            labelled = owner.same_id ∙ entry.labelled;
            limited = owner.same_limits ∙ entry.limited;
            valid = v;
          })
          owner.same_fd in
      settle-Meets k st limits o fuel id (not flushed, c', f') _ w
        (Serving-put_flow limits id _ (st.view w) c' f y (st.view w) (λ j ne. refl) f'
          (with_marks-Held f' (Serving-Held limits id _ (st.view w) c' f y) marks.same_registered))

  handle_completed_work-Sound :
      (sequence : ℕ) (response : Message) (c : Connection) (f : ConnectionFlow)
      → IsConnection c
      → Sound (handle_completed_work sequence response c f)
  unfolding handle_completed_work
  handle_completed_work-Sound sequence response c f v =
      let x =
        flush_ready_responses-Flushes c
          (record f { completed_responses = emplace sequence response f.completed_responses }) v in
      subst Sound (sym x.result) x.valid

  deliver_connection-Meets :
      (sequence : ℕ) (response : Message) (s : State) (w : W) (mc : Option Connection)
      → find_connection s.reactor.connections id ≡ mc
      → Settled k st limits tt s w
      → Meets
          (Faulty k st limits)
          (Settled k st limits)
          (deliver_connection k o fuel id sequence response mc s w)
  unfolding deliver_connection deliver_flow
  deliver_connection-Meets sequence response s w none found h = h
  deliver_connection-Meets sequence response s w (some c) found h =
      elim (Option-cases (find id s.reactor.flows)) [
        | inl no_flow ↦ absurd (has_flow limits id s.reactor (st.view w) Tracked c h found no_flow)
        | inr (f, flow) ↦
            let x = Tracked-Serving limits id s.reactor (st.view w) c f h found flow in
            let entry = Serving-IsEntry limits id s.reactor (st.view w) c f x in
            subst
              (λ mf.
                Meets (Faulty k st limits) (Settled k st limits)
                  (deliver_flow k o fuel id sequence response c mf s w))
              (sym flow)
              (after_flush-Meets c f (handle_completed_work sequence response c f) s w x
                (handle_completed_work-Unmoved sequence response c f entry.valid)
                (handle_completed_work-Sound sequence response c f entry.valid))
      ]

  -- `HandleConnectionEvent` on any event, where the kernel does as documented, the fuel is enough,
  -- the connections are within their bound and each has its flow, an open descriptor of its own and
  -- its interest in epoll: it ends. When it returns, all that holds again, with the interests that
  -- the connections should have now. When it throws, each connection within the bound still has its
  -- flow and its own open descriptor, and the flow's mark tells of the interest.
  pub handle_connection_event-Settles :
      (e : Ready) (s : State) (w : W)
      → IsEnough st limits o fuel
      → Settled k st limits tt s w
      → Meets (Faulty k st limits) (Settled k st limits) (handle_connection_event k o fuel id e s w)
  unfolding handle_connection_event
  handle_connection_event-Settles e s w enough h =
      serve_connection-Meets e s w (find_connection s.reactor.connections id) enough refl h

  -- `HandleCompletedWork`, where the kernel does as documented, the connections are within their
  -- bound and each has its flow, an open descriptor of its own and its interest in epoll: it ends,
  -- whatever the identifier and the response, and leaves the same things as an event of a
  -- connection does.
  pub deliver-Settles :
      (sequence : ℕ) (response : Message) (s : State) (w : W)
      → Settled k st limits tt s w
      → Meets (Faulty k st limits) (Settled k st limits) (deliver k o fuel id sequence response s w)
  unfolding deliver
  deliver-Settles sequence response s w h =
      deliver_connection-Meets sequence response s w (find_connection s.reactor.connections id) refl
        h
