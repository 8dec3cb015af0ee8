-- ===== src/Server/Run/Keys.antt =====
-- The keys of the events in `Run` of src/network/epoll_echo_server.cpp, and the identifiers of the
-- registry.
use pulse_core.Base.{
  ℕ, ◌≡◌, ◌≢◌, refl, sym, ap, ◌∙◌, Bool-cases, inl, inr, none, some, arith, ==→eq, eq→==, ◌==◌,
}
use pulse_core.Connection.{Connection}
use pulse_core.Registry.{Registry, Added, added, add, find_connection, id_max}
use pulse_core.Registry.Identity.{IsRegistry, add_lem, add_valid}
use pulse_core.Server.Kernel.{Kernel, Ready}
use pulse_core.Server.Handlers.{Options, listener_key, worker_wakeup_key, shutdown_signal_key}
use pulse_core.Server.Events.{handle_connection_event}
use pulse_core.Server.Run.{dispatch, handle_shutdown_signal}

module _ {W : Type 0} (k : Kernel W) (o : Options) (fuel : ℕ) where
  -- An event under the identifier of a registered connection goes to `HandleConnectionEvent`, where the
  -- registry is well formed and the identifier is not 2^64 - 2.
  pub dispatch-handle_connection_event :
      (r : Registry) (c : Connection) (e : Ready)
      → IsRegistry r
      → find_connection r e.key ≡ some c
      → e.key ≢ shutdown_signal_key
      → dispatch k o fuel e ≡ handle_connection_event k o fuel e.key e
  unfolding dispatch
  dispatch-handle_connection_event r c e v found ne = elim (Bool-cases (e.key == listener_key)) [
    | inl zero_key ↦
        let z = ==→eq e.key listener_key zero_key in
        absurd (cc (found, v.no_zero, ap (find_connection r) z))
    | inr other ↦ rw other (elim (Bool-cases (e.key == worker_wakeup_key)) [
      | inl wakeup ↦
          let z = ==→eq e.key worker_wakeup_key wakeup in
          absurd (cc (found, v.fresh e.key (omega (arith, v.in_word, z))))
      | inr other ↦ rw other (elim (Bool-cases (e.key == shutdown_signal_key)) [
        | inl shutdown ↦ absurd (ne (==→eq e.key shutdown_signal_key shutdown))
        | inr other ↦ rw other refl
      ])
    ])
  ]

  -- On a well-formed registry whose next identifier is 2^64 - 2, `Add` of a descriptor that can be made
  -- non-blocking issues that identifier, and every event under it goes to `HandleShutdownSignal`.
  pub reserved_key :
      (r : Registry) (fd : ℕ) (e : Ready)
      → IsRegistry r
      → r.next_id ≡ shutdown_signal_key
      → e.key ≡ shutdown_signal_key
      → ((add r (some fd) none).0 ≡ added e.key)
        × (dispatch k o fuel e ≡ handle_shutdown_signal k o fuel)
  unfolding dispatch
  reserved_key r fd e v last key = (
    ap (λ (x : Added × Registry). x.0) (add_lem r fd none v) ∙ issued,
    elim (Bool-cases (e.key == listener_key)) [
      | inl zero_key ↦ absurd (omega (arith, key, ==→eq e.key listener_key zero_key))
      | inr other ↦ rw other (elim (Bool-cases (e.key == worker_wakeup_key)) [
        | inl wakeup ↦ absurd (omega (arith, key, ==→eq e.key worker_wakeup_key wakeup))
        | inr other ↦ rw other (rw (eq→== e.key shutdown_signal_key key) refl)
      ])
    ],
  )
    where
      issued : (add_valid r fd none).0 ≡ added e.key
      issued = elim (Bool-cases (r.next_id == id_max)) [
        | inl full ↦ absurd (omega (arith, last, ==→eq r.next_id id_max full))
        | inr space ↦ rw space (ap added (last ∙ sym key))
      ]
