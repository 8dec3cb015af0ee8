-- ===== src/Server/Interest/Frame.antt =====
-- The states of the operating system in which `UpdateInterest` of src/network/epoll_echo_server.cpp
-- may leave it.
use pulse_core.Base.{Bool, true, false, not, Option, none, some}
use pulse_core.Sockets.{Errno, eintr, eagain, ewouldblock, econnreset, epipe, enoent, other_error}
use pulse_core.Connection.{Connection, has_pending_output}
use pulse_core.Server.{ConnectionFlow}
use pulse_core.Server.Interest.{
  Event, Operation, ctl_add, ctl_mod, ctl_del, Epoll, Updated, updated, threw, after_del, after_mod,
  after_add, update_by, update_interest, connection_event,
}

module _ {W : Type 0} (P : W → Type 0) where
  abbrev pub Leaves : Updated W → Type 0
  Leaves (updated f w) = P w
  Leaves (threw e f w) = P w

  del-Leaves : (f : ConnectionFlow) (x : Option Errno) (w : W) → P w → Leaves (after_del f (x, w))
  unfolding after_del
  del-Leaves f none w p = p
  del-Leaves f (some eintr) w p = p
  del-Leaves f (some eagain) w p = p
  del-Leaves f (some ewouldblock) w p = p
  del-Leaves f (some econnreset) w p = p
  del-Leaves f (some epipe) w p = p
  del-Leaves f (some enoent) w p = p
  del-Leaves f (some (other_error n)) w p = p

  mod-Leaves : (f : ConnectionFlow) (x : Option Errno) (w : W) → P w → Leaves (after_mod f (x, w))
  unfolding after_mod
  mod-Leaves f none w p = p
  mod-Leaves f (some e) w p = p

  add-Leaves : (f : ConnectionFlow) (x : Option Errno) (w : W) → P w → Leaves (after_add f (x, w))
  unfolding after_add
  add-Leaves f none w p = p
  add-Leaves f (some e) w p = p

  module _ (e : Epoll W) (c : Connection) (f : ConnectionFlow) (w : W) (p : P w)
      (called : (op : Operation) (event : Option Event) → P (e.ctl op c.fd event w).1) where
    update_by-Leaves : (reads writes mark : Bool) → Leaves (update_by e c f w reads writes mark)
    unfolding update_by
    update_by-Leaves false false true = del-Leaves f _ _ (called ctl_del none)
    update_by-Leaves false false false = p
    update_by-Leaves false true true =
        mod-Leaves f _ _ (called ctl_mod (some (connection_event c.id false true)))
    update_by-Leaves false true false =
        add-Leaves f _ _ (called ctl_add (some (connection_event c.id false true)))
    update_by-Leaves true false true =
        mod-Leaves f _ _ (called ctl_mod (some (connection_event c.id true false)))
    update_by-Leaves true false false =
        add-Leaves f _ _ (called ctl_add (some (connection_event c.id true false)))
    update_by-Leaves true true true =
        mod-Leaves f _ _ (called ctl_mod (some (connection_event c.id true true)))
    update_by-Leaves true true false =
        add-Leaves f _ _ (called ctl_add (some (connection_event c.id true true)))

    pub update_interest-Leaves : Leaves (update_interest e c f w)
    unfolding update_interest
    update_interest-Leaves =
        update_by-Leaves (not f.close_after_flush) (has_pending_output c) f.registered_with_epoll
