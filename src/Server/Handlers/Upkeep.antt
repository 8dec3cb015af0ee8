-- ===== src/Server/Handlers/Upkeep.antt =====
-- `RemoveConnection` and `UpdateInterest` of src/network/epoll_echo_server.cpp, on the connections, the
-- flows and the kernel's descriptors.
use pulse_core.Base.{ℕ, ◌≡◌, refl, sym, ap, subst, ◌∙◌, Bool, not, Option, none, some}
use pulse_core.Connection.{Connection}
use pulse_core.Server.{ConnectionFlow}
use pulse_core.Server.Interest.{
  Event, Operation, ctl_del, IsEpoll, Agrees, is_some, wanted, awaits_write, Updated, updated,
  threw, update_interest, Tracks, update_interest-Tracks, failed_del, Sets,
}
use pulse_core.Server.Interest.Frame.{Leaves, update_interest-Leaves}
use pulse_core.Server.Removal.{Removed, forget}
use pulse_core.Server.Removal.Cases.{remove_connection-cases}
use pulse_core.Server.Kernel.{Kernel, IsKernel, SameBut, unused}
use pulse_core.Server.Effects.{State, put_flow}
use pulse_core.Server.Handlers.{after_remove, remove_action, after_update, update_action}
use pulse_core.Server.Consistent.{Bounds, Held, Anything, Tracked, Holds}
use pulse_core.Server.Consistent.Outcomes.{Meets, Meets-weaken}
use pulse_core.Server.Consistent.Serving.{
  Serving, Serving-Anything, Serving-Held, Serving-IsEntry, Serving-Tracked, Serving-put_flow,
  Serving-views, Serving-forget,
}

module _ {W : Type 0} (k : Kernel W) (st : IsKernel k) (limits : Bounds) where
  -- After an exception, the connections, flows and descriptors still belong together: what `Consistent`
  -- says, without the further condition.
  abbrev pub Faulty : State → W → Type 0
  Faulty s w = Holds Anything limits s.reactor (st.view w)

  -- After a return, each connection has its interest too.
  abbrev pub Settled : Unit {0} → State → W → Type 0
  Settled _ s w = Holds Tracked limits s.reactor (st.view w)

  module _ (id : ℕ) (c : Connection) (f : ConnectionFlow) (s : State) (w : W)
      (x : Serving limits id c f s.reactor (st.view w)) where
    -- What a call on the descriptor leaves.
    record Called (w' : W) : Type 0 where
      others : SameBut c.fd (st.view w) (st.view w')
      still_open : (st.view w' c.fd).open_now ≡ (st.view w c.fd).open_now

    ctl-Called : (op : Operation) (event : Option Event) → Called (k.epoll.ctl op c.fd event w).1
    ctl-Called op event = record {
      others = st.ctl_others op c.fd event w;
      still_open = st.ctl_open op c.fd event w;
    }

    same_descriptor :
        (w' : W)
        → Called w'
        → (st.view w' c.fd).interest ≡ (st.view w c.fd).interest
        → st.view w' c.fd ≡ st.view w c.fd
    same_descriptor w' called same =
        λ i. record { open_now = called.still_open i; interest = same i }

    closed : (w' : W) → Called w' → SameBut c.fd (st.view w) (st.view (k.epoll.close c.fd w'))
    closed w' called j ne = st.close_others c.fd w' j ne ∙ called.others j ne

    unchanged : Called w
    unchanged = record { others = λ j ne. refl; still_open = refl }

    -- The connection and its flow are gone, and its descriptor is closed.
    pub record Gone (s' : State) (w' : W) : Type 0 where
      pub reactor : s'.reactor ≡ forget s.reactor id
      pub shut : st.view w' c.fd ≡ unused
      pub others : SameBut c.fd (st.view w) (st.view w')

    removed :
        (w' : W)
        → Called w'
        → Settled tt (record s { reactor = forget s.reactor id }) (k.epoll.close c.fd w')
          × Gone (record s { reactor = forget s.reactor id }) (k.epoll.close c.fd w')
    removed w' called = (
      Serving-forget limits id s.reactor (st.view w) c f x _ (closed w' called),
      record { reactor = refl; shut = st.close_view c.fd w'; others = closed w' called },
    )

    pub remove_action-Gone :
        Meets Faulty (λ u s' w'. Settled u s' w' × Gone s' w') (remove_action k id s w)
    unfolding remove_action after_remove
    remove_action-Gone =
        remove_connection-cases k.epoll s.reactor id c
          (λ (r : Removed W).
            Meets Faulty (λ u s' w'. Settled u s' w' × Gone s' w') (after_remove k s r))
          w x.found (removed w unchanged) (removed _ (ctl-Called ctl_del none))
          (λ y e ne.
            let failed = ctl-Called ctl_del none in
            Serving-Anything limits id s.reactor _ c f (
              Serving-views limits id s.reactor (st.view w) c f x _ failed.others (
                same_descriptor _ failed (
                  failed_del y ne (
                    subst
                      (λ o.
                        Sets ctl_del none (st.view w c.fd).interest o
                          (st.view (k.epoll.ctl ctl_del c.fd none w).1 c.fd).interest)
                      e (st.ctl_sets ctl_del c.fd none w))))))

    pub remove_action-Meets : Meets Faulty Settled (remove_action k id s w)
    remove_action-Meets =
        Meets-weaken Faulty (λ u s' w'. Settled u s' w' × Gone s' w') Settled _ (λ u s' w' h. h.0)
          remove_action-Gone

    abbrev own-IsEpoll : IsEpoll k.epoll c.fd
    own-IsEpoll = record {
      interest = λ w. (st.view w c.fd).interest;
      sets = λ op event w. st.ctl_sets op c.fd event w;
    }

    Agrees-is_some : (i : Option Event) → Agrees (is_some i) i
    Agrees-is_some none = refl
    Agrees-is_some (some event) = (event, refl)

    update_action-Tracks :
        (u : Updated W)
        → Tracks k.epoll c own-IsEpoll f w (not f.close_after_flush) (awaits_write c) u
        → Leaves Called u
        → Meets Faulty Settled (after_update k id s u)
    unfolding after_update put_flow
    update_action-Tracks (updated f' w') (wants, same) called =
        Serving-Tracked limits id _ _ c f'
          (Serving-put_flow limits id s.reactor (st.view w) c f x (st.view w') called.others f'
            (record {
              is_open = called.still_open ∙ (Serving-Held limits id s.reactor _ c f x).is_open;
              agrees =
                  subst (λ (b : Bool). Agrees b (st.view w' c.fd).interest)
                    (sym (ap (λ (g : ConnectionFlow). g.registered_with_epoll) same))
                    (subst (Agrees _) (sym wants) (Agrees-is_some _));
            }))
          (subst
            (λ n. (st.view w' c.fd).interest ≡ wanted n (not f'.close_after_flush) (awaits_write c))
            (Serving-IsEntry limits id s.reactor _ c f x).labelled
            (wants
              ∙ ap (λ (b : Bool). wanted c.id (not b) (awaits_write c))
                  (sym (ap (λ (g : ConnectionFlow). g.close_after_flush) same))))
    update_action-Tracks (threw e f' w') (same_flow, same) called =
        Serving-Anything limits id _ _ c f' (
          Serving-put_flow limits id s.reactor (st.view w) c f x (st.view w') called.others f' (
            subst (λ d. Held d f') (sym (same_descriptor w' called same))
              (subst (Held (st.view w c.fd)) (sym same_flow)
                (Serving-Held limits id s.reactor _ c f x))))

    pub update_action-Meets : Meets Faulty Settled (update_action k id c f s w)
    unfolding update_action
    update_action-Meets =
        update_action-Tracks (update_interest k.epoll c f w)
          (update_interest-Tracks k.epoll c own-IsEpoll f w
            (Serving-Held limits id s.reactor _ c f x).agrees)
          (update_interest-Leaves Called k.epoll c f w unchanged ctl-Called)
