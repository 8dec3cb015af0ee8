-- ===== src/Server/Removal/Cases.antt =====
-- `RemoveConnection` of src/network/epoll_echo_server.cpp on a known identifier, by its outcomes.
use pulse_core.Base.{ℕ, ◌≡◌, ◌≢◌, refl, sym, subst, Bool-cases, inl, inr, Option, none, some}
use pulse_core.Base.Maps.{find}
use pulse_core.Sockets.{Errno, eintr, eagain, ewouldblock, econnreset, epipe, enoent, other_error}
use pulse_core.Connection.{Connection}
use pulse_core.Registry.{find_connection}
use pulse_core.Server.Interest.{Epoll, ctl_del}
use pulse_core.Server.Removal.{
  Reactor, Removed, left, threw, registered, forget, dropped, after_ctl, remove_found,
  remove_connection,
}

module _ {W : Type 0} (e : Epoll W) (r : Reactor) (id : ℕ) (c : Connection)
    (Q : Removed W → Type 0) where
  after_ctl_cases :
      (x : Option Errno) (w : W)
      → Q (left (forget r id) (e.close c.fd w))
      → ((y : Errno) → x ≡ some y → y ≢ enoent → Q (threw y r w))
      → Q (after_ctl e r id c (x, w))
  unfolding after_ctl dropped
  after_ctl_cases none w gone failed = gone
  after_ctl_cases (some eintr) w gone failed = failed eintr refl (λ e. cc)
  after_ctl_cases (some eagain) w gone failed = failed eagain refl (λ e. cc)
  after_ctl_cases (some ewouldblock) w gone failed = failed ewouldblock refl (λ e. cc)
  after_ctl_cases (some econnreset) w gone failed = failed econnreset refl (λ e. cc)
  after_ctl_cases (some epipe) w gone failed = failed epipe refl (λ e. cc)
  after_ctl_cases (some enoent) w gone failed = gone
  after_ctl_cases (some (other_error n)) w gone failed = failed (other_error n) refl (λ e. cc)

  -- The connection is gone, after a call of `epoll_ctl` or without one, or that call has failed.
  pub remove_connection-cases :
      (w : W)
      → find_connection r.connections id ≡ some c
      → Q (left (forget r id) (e.close c.fd w))
      → Q (left (forget r id) (e.close c.fd (e.ctl ctl_del c.fd none w).1))
      → ((y : Errno)
          → (e.ctl ctl_del c.fd none w).0 ≡ some y
          → y ≢ enoent
          → Q (threw y r (e.ctl ctl_del c.fd none w).1))
      → Q (remove_connection e r id w)
  unfolding remove_connection remove_found dropped
  remove_connection-cases w found unregistered gone failed =
      subst (λ m. Q (remove_found e r id w m)) (sym found)
        (elim (Bool-cases (registered (find id r.flows))) [
          | inl yes_registered ↦ rw yes_registered (
              after_ctl_cases (e.ctl ctl_del c.fd none w).0 (e.ctl ctl_del c.fd none w).1 gone
                failed)
          | inr not_registered ↦ rw not_registered unregistered
        ])
