-- ===== src/Server/Kernel.antt =====
-- The system calls of src/network/epoll_echo_server.cpp over an abstract state of the operating system,
-- and the documented behaviour that the server relies on. A run takes a `Kernel` as a parameter.
use pulse_core.Base.{ℕ, refl, ◌∙◌, ◌≡◌, ◌≢◌, ◌<◌, ◌≤◌, Bool, true, false, Option, none, some, List}
use pulse_core.Sockets.{Errno, eintr, Sockets, IsStream}
use pulse_core.Server.Interest.{Event, Operation, Epoll, Sets}

-- `accept4`, with its descriptor.
pub data Accepted : Type 0 where
  accepted : ℕ → Accepted
  accept_failed : Errno → Accepted

-- `fcntl(F_GETFL)`: the bit O_NONBLOCK, and the other flags.
pub data Flags : Type 0 where
  flags : Bool → ℕ → Flags
  flags_failed : Errno → Flags

-- `read` of an object of a fixed size: as many bytes as it has, fewer, or none.
pub data ObjectRead : Type 0 where
  whole partial nothing : ObjectRead
  read_failed : Errno → ObjectRead

-- The bits of `events` that `epoll_wait` reports.
pub record Ready : Type 0 where
  pub key : ℕ
  pub epollerr : Bool
  pub epollhup : Bool
  pub epollin : Bool
  pub epollrdhup : Bool
  pub epollout : Bool

pub data Waited : Type 0 where
  ready : List Ready → Waited
  wait_failed : Errno → Waited

pub record Kernel (W : Type 0) : Type 0 where
  pub sockets : Sockets W
  pub epoll : Epoll W
  pub accept : ℕ → W → Accepted × W
  pub get_flags : ℕ → W → Flags × W
  pub set_flags : ℕ → Bool → ℕ → W → Option Errno × W
  pub read_object : ℕ → W → ObjectRead × W
  pub write_object : ℕ → W → ObjectRead × W
  pub wait : W → Waited × W

-- What the kernel holds for a descriptor: whether it is open, and the interest that epoll has in it.
pub record Descriptor : Type 0 where
  pub open_now : Bool
  pub interest : Option Event

abbrev pub unused : Descriptor
unused = record { open_now = false; interest = none }

abbrev pub fresh_descriptor : Descriptor
fresh_descriptor = record { open_now = true; interest = none }

-- A call has changed no descriptor but one.
abbrev pub SameBut : ℕ → (ℕ → Descriptor) → (ℕ → Descriptor) → Type 0
SameBut fd v v' = (j : ℕ) → j ≢ fd → v' j ≡ v j

-- `accept4` opens a descriptor that was not open; a failure changes none.
abbrev pub Opens : Accepted → (ℕ → Descriptor) → (ℕ → Descriptor) → Type 0
Opens (accepted fd) v v' = ((v fd).open_now ≡ false) × (v' fd ≡ fresh_descriptor) × SameBut fd v v'
Opens (accept_failed e) v v' = v' ≡ v

-- A loop around a call goes on after these answers.
abbrev pub GoesOn : ObjectRead → Type 0
GoesOn whole = Unit {0}
GoesOn (read_failed eintr) = Unit {0}
GoesOn _ = ⊥

-- The documented behaviour. `delay` bounds the calls in a row that are interrupted or find another
-- object to read, which are finitely many; no more than `most` of them ever come in a row.
pub record IsKernel {W : Type 0} (k : Kernel W) : Type 0 where
  pub view : W → ℕ → Descriptor
  pub delay : W → ℕ
  pub most : ℕ
  pub stream : (fd : ℕ) → IsStream k.sockets fd
  pub delay_most : (w : W) → delay w ≤ most
  pub patience_most : (fd : ℕ) (w : W) → (stream fd).patience w ≤ most
  pub recv_view : (fd n : ℕ) (w : W) → view (k.sockets.recv fd n w).1 ≡ view w
  pub send_view : (fd : ℕ) (bytes : List ℕ) (w : W) → view (k.sockets.send fd bytes w).1 ≡ view w
  pub get_flags_view : (fd : ℕ) (w : W) → view (k.get_flags fd w).1 ≡ view w
  pub set_flags_view : (fd : ℕ) (b : Bool) (n : ℕ) (w : W) → view (k.set_flags fd b n w).1 ≡ view w
  pub read_view : (fd : ℕ) (w : W) → view (k.read_object fd w).1 ≡ view w
  pub write_view : (fd : ℕ) (w : W) → view (k.write_object fd w).1 ≡ view w
  pub wait_view : (w : W) → view (k.wait w).1 ≡ view w
  pub accept_view : (fd : ℕ) (w : W) → Opens (k.accept fd w).0 (view w) (view (k.accept fd w).1)
  pub ctl_sets :
      (op : Operation) (fd : ℕ) (event : Option Event) (w : W)
      → Sets op event
          (view w fd).interest
          (k.epoll.ctl op fd event w).0
          (view (k.epoll.ctl op fd event w).1 fd).interest
  pub ctl_open :
      (op : Operation) (fd : ℕ) (event : Option Event) (w : W)
      → (view (k.epoll.ctl op fd event w).1 fd).open_now ≡ (view w fd).open_now
  pub ctl_others :
      (op : Operation) (fd : ℕ) (event : Option Event) (w : W)
      → SameBut fd (view w) (view (k.epoll.ctl op fd event w).1)
  pub close_view : (fd : ℕ) (w : W) → view (k.epoll.close fd w) fd ≡ unused
  pub close_others : (fd : ℕ) (w : W) → SameBut fd (view w) (view (k.epoll.close fd w))
  pub accept_delay :
      (fd : ℕ) (w : W) → (k.accept fd w).0 ≡ accept_failed eintr → delay (k.accept fd w).1 < delay w
  pub read_delay :
      (fd : ℕ) (w : W) → GoesOn (k.read_object fd w).0 → delay (k.read_object fd w).1 < delay w
  pub write_delay :
      (fd : ℕ) (w : W)
      → (k.write_object fd w).0 ≡ read_failed eintr
      → delay (k.write_object fd w).1 < delay w

-- `SetNonBlocking` of src/network/connection.cpp by what `fcntl(F_GETFL)` returns; none is success.
after_flags : {W : Type 0} → Kernel W → ℕ → Flags × W → Option Errno × W
after_flags k fd (flags true others, w) = (none, w)
after_flags k fd (flags false others, w) = k.set_flags fd true others w
after_flags k fd (flags_failed e, w) = (some e, w)

unfoldable pub set_non_blocking : {W : Type 0} → Kernel W → ℕ → W → Option Errno × W
unfolding after_flags
set_non_blocking k fd w = after_flags k fd (k.get_flags fd w)

module _ {W : Type 0} (k : Kernel W) (st : IsKernel k) where
  after_flags_view : (fd : ℕ) (x : Flags × W) → st.view (after_flags k fd x).1 ≡ st.view x.1
  unfolding after_flags
  after_flags_view fd (flags true others, w) = refl
  after_flags_view fd (flags false others, w) = st.set_flags_view fd true others w
  after_flags_view fd (flags_failed e, w) = refl

  -- The flags of a descriptor are not in the view.
  pub set_non_blocking_view : (fd : ℕ) (w : W) → st.view (set_non_blocking k fd w).1 ≡ st.view w
  unfolding set_non_blocking
  set_non_blocking_view fd w = after_flags_view fd (k.get_flags fd w) ∙ st.get_flags_view fd w
