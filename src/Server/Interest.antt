-- ===== src/Server/Interest.antt =====
-- `UpdateInterest` and `ConnectionEvent` of src/network/epoll_echo_server.cpp, over `epoll_ctl` as
-- a parameter.
pub mod Frame
use pulse_core.Base.{
  ℕ, ◌≡◌, ◌≢◌, refl, sym, ap, subst, ◌∙◌, ltb, length, arith, Bool, true, false, not, Option, none,
  some,
}
use pulse_core.Sockets.{Errno, eintr, eagain, ewouldblock, econnreset, epipe, enoent, other_error}
use pulse_core.Connection.{Connection, pending_output_bytes, has_pending_output}
use pulse_core.Server.{ConnectionFlow}

-- `data.u64`, and the bits of `events` that the server sets for a connection.
pub record Event : Type 0 where
  pub key : ℕ
  pub epollin : Bool
  pub epollrdhup : Bool
  pub epollout : Bool

unfoldable pub connection_event : ℕ → Bool → Bool → Event
connection_event id wants_read wants_write = record {
  key = id;
  epollin = wants_read;
  epollrdhup = wants_read;
  epollout = wants_write;
}

pub data Operation : Type 0 where
  ctl_add ctl_mod ctl_del : Operation

-- `epoll_ctl` on an operation, a descriptor and an event; none is success. `close` on a descriptor ends
-- the interest in it, and its answer is not used.
pub record Epoll (W : Type 0) : Type 0 where
  pub ctl : Operation → ℕ → Option Event → W → Option Errno × W
  pub close : ℕ → W → W

pub data Updated (W : Type 0) : Type 0 where
  updated : ConnectionFlow → W → Updated W
  threw : Errno → ConnectionFlow → W → Updated W

module _ {W : Type 0} where
  after_del : ConnectionFlow → Option Errno × W → Updated W
  after_del f (none, w) = updated (record f { registered_with_epoll = false }) w
  after_del f (some enoent, w) = updated (record f { registered_with_epoll = false }) w
  after_del f (some e, w) = threw e f w

  after_mod : ConnectionFlow → Option Errno × W → Updated W
  after_mod f (none, w) = updated f w
  after_mod f (some e, w) = threw e f w

  after_add : ConnectionFlow → Option Errno × W → Updated W
  after_add f (none, w) = updated (record f { registered_with_epoll = true }) w
  after_add f (some e, w) = threw e f w

  -- By the two tests and the flow's mark.
  update_by : Epoll W → Connection → ConnectionFlow → W → Bool → Bool → Bool → Updated W
  update_by e c f w false false true = after_del f (e.ctl ctl_del c.fd none w)
  update_by e c f w false false false = updated f w
  update_by e c f w reads writes true =
      after_mod f (e.ctl ctl_mod c.fd (some (connection_event c.id reads writes)) w)
  update_by e c f w reads writes false =
      after_add f (e.ctl ctl_add c.fd (some (connection_event c.id reads writes)) w)

  unfoldable pub update_interest : Epoll W → Connection → ConnectionFlow → W → Updated W
  unfolding update_by after_del after_mod after_add
  update_interest e c f w =
      update_by e c f w (not f.close_after_flush) (has_pending_output c) f.registered_with_epoll

-- What a call does to the interest in the descriptor: success sets it or clears it, a failure keeps it,
-- and `ENOENT` says that there is none.
abbrev pub Sets : Operation → Option Event → Option Event → Option Errno → Option Event → Type 0
Sets ctl_del event before none after = after ≡ none
Sets op event before none after = after ≡ event
Sets op event before (some enoent) after = (before ≡ none) × (after ≡ none)
Sets op event before (some e) after = after ≡ before

pub failed_del :
    {before after : Option Event} (y : Errno)
    → y ≢ enoent
    → Sets ctl_del none before (some y) after
    → after ≡ before
failed_del enoent ne h = absurd (ne refl)
failed_del eintr ne h = h
failed_del eagain ne h = h
failed_del ewouldblock ne h = h
failed_del econnreset ne h = h
failed_del epipe ne h = h
failed_del (other_error n) ne h = h

failed_mod :
    (event : Option Event) {before after : Option Event} (y : Errno)
    → Sets ctl_mod event before (some y) after
    → after ≡ before
failed_mod event enoent h = h.1 ∙ sym h.0
failed_mod event eintr h = h
failed_mod event eagain h = h
failed_mod event ewouldblock h = h
failed_mod event econnreset h = h
failed_mod event epipe h = h
failed_mod event (other_error n) h = h

pub failed_add :
    (event : Option Event) {before after : Option Event} (y : Errno)
    → Sets ctl_add event before (some y) after
    → after ≡ before
failed_add event enoent h = h.1 ∙ sym h.0
failed_add event eintr h = h
failed_add event eagain h = h
failed_add event ewouldblock h = h
failed_add event econnreset h = h
failed_add event epipe h = h
failed_add event (other_error n) h = h

pub record IsEpoll {W : Type 0} (e : Epoll W) (fd : ℕ) : Type 0 where
  pub interest : W → Option Event
  pub sets :
      (op : Operation) (event : Option Event) (w : W)
      → Sets op event (interest w) (e.ctl op fd event w).0 (interest (e.ctl op fd event w).1)

-- The flow's mark says whether there is an interest.
abbrev pub Agrees : Bool → Option Event → Type 0
Agrees true i = (event : Event) × (i ≡ some event)
Agrees false i = i ≡ none

-- Some of the output buffer is behind the offset.
abbrev pub awaits_write : Connection → Bool
awaits_write c = ltb c.output_offset (length c.output_buffer)

has_pending_output_lem : (c : Connection) → has_pending_output c ≡ awaits_write c
unfolding has_pending_output pending_output_bytes
has_pending_output_lem c = ground arith

-- The interest that a connection should have: EPOLLIN and EPOLLRDHUP to read, EPOLLOUT to write, both
-- under its identifier, and none at all when it is to do neither.
abbrev pub wanted : ℕ → Bool → Bool → Option Event
wanted id false false = none
wanted id reads writes =
    some (record { key = id; epollin = reads; epollrdhup = reads; epollout = writes })

abbrev pub is_some : Option Event → Bool
is_some none = false
is_some (some event) = true

module _ {W : Type 0} (e : Epoll W) (c : Connection) (st : IsEpoll e c.fd) (f : ConnectionFlow)
    (w : W) where
  -- A result has the wanted interest and mark; an exception leaves the flow and the interest as they
  -- were.
  abbrev pub Tracks : Bool → Bool → Updated W → Type 0
  Tracks reads writes (updated f' w') =
      (st.interest w' ≡ wanted c.id reads writes)
      × (f' ≡ record f { registered_with_epoll = is_some (wanted c.id reads writes) })
  Tracks reads writes (threw x f' w') = (f' ≡ f) × (st.interest w' ≡ st.interest w)

  del-Tracks :
      (x : Option Errno) (w' : W)
      → Sets ctl_del none (st.interest w) x (st.interest w')
      → Tracks false false (after_del f (x, w'))
  unfolding after_del
  del-Tracks none w' h = (h, refl)
  del-Tracks (some enoent) w' h = (h.1, refl)
  del-Tracks (some eintr) w' h = (refl, h)
  del-Tracks (some eagain) w' h = (refl, h)
  del-Tracks (some ewouldblock) w' h = (refl, h)
  del-Tracks (some econnreset) w' h = (refl, h)
  del-Tracks (some epipe) w' h = (refl, h)
  del-Tracks (some (other_error n)) w' h = (refl, h)

  -- The flow with its mark as it is.
  marked : (b : Bool) → f.registered_with_epoll ≡ b → f ≡ record f { registered_with_epoll = b }
  marked b h = ap (λ (t : Bool). record f { registered_with_epoll = t }) h

  module _ (reads writes : Bool) (event : Event)
      (called : wanted c.id reads writes ≡ some event) where
    marks : is_some (wanted c.id reads writes) ≡ true
    marks = ap is_some called

    mod-Tracks :
        (x : Option Errno) (w' : W)
        → f.registered_with_epoll ≡ true
        → Sets ctl_mod (some event) (st.interest w) x (st.interest w')
        → Tracks reads writes (after_mod f (x, w'))
    unfolding after_mod
    mod-Tracks none w' r h = (
      h ∙ sym called,
      marked true r ∙ ap (λ (t : Bool). record f { registered_with_epoll = t }) (sym marks),
    )
    mod-Tracks (some y) w' r h = (refl, failed_mod (some event) y h)

    add-Tracks :
        (x : Option Errno) (w' : W)
        → Sets ctl_add (some event) (st.interest w) x (st.interest w')
        → Tracks reads writes (after_add f (x, w'))
    unfolding after_add
    add-Tracks none w' h =
        (h ∙ sym called, ap (λ (t : Bool). record f { registered_with_epoll = t }) (sym marks))
    add-Tracks (some y) w' h = (refl, failed_add (some event) y h)

  update_by-Tracks :
      (reads writes mark : Bool)
      → f.registered_with_epoll ≡ mark
      → Agrees mark (st.interest w)
      → Tracks reads writes (update_by e c f w reads writes mark)
  unfolding update_by connection_event
  update_by-Tracks false false true r a =
      del-Tracks (e.ctl ctl_del c.fd none w).0 (e.ctl ctl_del c.fd none w).1
        (st.sets ctl_del none w)
  update_by-Tracks false false false r a = (a, marked false r)
  update_by-Tracks false true true r a =
      mod-Tracks false true (connection_event c.id false true) refl _ _ r
        (st.sets ctl_mod (some (connection_event c.id false true)) w)
  update_by-Tracks true false true r a =
      mod-Tracks true false (connection_event c.id true false) refl _ _ r
        (st.sets ctl_mod (some (connection_event c.id true false)) w)
  update_by-Tracks true true true r a =
      mod-Tracks true true (connection_event c.id true true) refl _ _ r
        (st.sets ctl_mod (some (connection_event c.id true true)) w)
  update_by-Tracks false true false r a =
      add-Tracks false true (connection_event c.id false true) refl _ _
        (st.sets ctl_add (some (connection_event c.id false true)) w)
  update_by-Tracks true false false r a =
      add-Tracks true false (connection_event c.id true false) refl _ _
        (st.sets ctl_add (some (connection_event c.id true false)) w)
  update_by-Tracks true true false r a =
      add-Tracks true true (connection_event c.id true true) refl _ _
        (st.sets ctl_add (some (connection_event c.id true true)) w)

-- `UpdateInterest`, where the flow's mark agrees with the kernel: when it returns, the kernel's interest
-- in the connection is an event under its identifier with EPOLLIN and EPOLLRDHUP unless the flow closes
-- and with EPOLLOUT if output is behind the offset of its buffer, and there is none if it has no bit; the
-- mark says which, and nothing else of the flow changes. When it throws, the flow and the kernel's
-- interest are as they were.
pub update_interest-Tracks :
    {W : Type 0} (e : Epoll W) (c : Connection) (st : IsEpoll e c.fd) (f : ConnectionFlow) (w : W)
    → Agrees f.registered_with_epoll (st.interest w)
    → Tracks e c st f w (not f.close_after_flush) (awaits_write c) (update_interest e c f w)
unfolding update_interest
update_interest-Tracks e c st f w a =
    subst (λ b. Tracks e c st f w (not f.close_after_flush) b (update_interest e c f w))
      (has_pending_output_lem c)
      (update_by-Tracks e c st f w (not f.close_after_flush) (has_pending_output c)
        f.registered_with_epoll refl a)
