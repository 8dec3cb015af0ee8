-- ===== src/Server/Marks.antt =====
-- What `SubmitWork` and `FlushReadyResponses` of src/network/epoll_echo_server.cpp have no part in: the
-- two marks of a flow, and who owns a connection.
use pulse_core.Base.{
  ℕ, zero, suc, ◌≡◌, refl, sym, subst, ◌∙◌, Bool, true, false, Bool-cases, inl, inr, Option, none,
  some, List, [], ◌∷◌, leb, length,
}
use pulse_core.Base.Maps.{emplace}
use pulse_core.Codec.{Message}
use pulse_core.Connection.{Connection, queue_output}
use pulse_core.Connection.Output.{
  IsConnection, Queues, accepted, overfull, unencodable, queue_output-Queues, Queues-IsConnection,
}
use pulse_core.WorkerPool.{WorkerPool}
use pulse_core.Server.{
  ConnectionFlow, next_sequence, in_flight, Submitted, after_submit, submit_work, Flushed,
  after_queue, flush_found, flush_loop, flush_ready_responses, handle_completed_work,
}

pub record SameMarks (f f' : ConnectionFlow) : Type 0 where
  pub same_close : f'.close_after_flush ≡ f.close_after_flush
  pub same_registered : f'.registered_with_epoll ≡ f.registered_with_epoll

pub record SameOwner (c c' : Connection) : Type 0 where
  pub same_id : c'.id ≡ c.id
  pub same_fd : c'.fd ≡ c.fd
  pub same_limits : c'.limits ≡ c.limits

abbrev marks_refl : {f : ConnectionFlow} → SameMarks f f
marks_refl = record { same_close = refl; same_registered = refl }

after_submit-SameMarks :
    (again : WorkerPool → ConnectionFlow → Submitted) (f : ConnectionFlow) (x : Bool × WorkerPool)
    → ((p : WorkerPool) (g : ConnectionFlow) → SameMarks g (again p g).2)
    → SameMarks f (after_submit again f x).2
unfolding after_submit
after_submit-SameMarks again f (false, p) ih = marks_refl
after_submit-SameMarks again f (true, p) ih =
    let x = ih p (record f { next_request_sequence = next_sequence f.next_request_sequence }) in
    record { same_close = x.same_close; same_registered = x.same_registered }

pub submit_work-SameMarks :
    (max id : ℕ) (messages : List Message) (p : WorkerPool) (f : ConnectionFlow)
    → SameMarks f (submit_work max id messages p f).2
unfolding submit_work
submit_work-SameMarks max id [] p f = marks_refl
submit_work-SameMarks max id (m ∷ messages) p f =
    let rest =
      after_submit-SameMarks (submit_work max id messages) f _
        (λ p g. submit_work-SameMarks max id messages p g) in
    elim (Bool-cases (leb max (in_flight f))) [
      | inl full ↦ rw full marks_refl
      | inr room ↦ rw room rest
    ]

Queues-SameOwner :
    (c : Connection) (m : Message) (r : Bool × Connection) → Queues c m r → SameOwner c r.1
Queues-SameOwner c m r (accepted bytes e fits out) =
    subst (λ (r : Bool × Connection). SameOwner c r.1) (sym out)
      (record { same_id = refl; same_fd = refl; same_limits = refl })
Queues-SameOwner c m r (overfull bytes e h out) =
    subst (λ (r : Bool × Connection). SameOwner c r.1) (sym out)
      (record { same_id = refl; same_fd = refl; same_limits = refl })
Queues-SameOwner c m r (unencodable e out) =
    subst (λ (r : Bool × Connection). SameOwner c r.1) (sym out)
      (record { same_id = refl; same_fd = refl; same_limits = refl })

-- A result is about the same connection and has the flow's marks.
abbrev pub Unmoved : Connection → ConnectionFlow → Flushed → Type 0
Unmoved c f none = Unit {0}
Unmoved c f (some (b, c', f')) = SameOwner c c' × SameMarks f f'

Unmoved-trans :
    (c c1 : Connection) (f f1 : ConnectionFlow) (r : Flushed)
    → SameOwner c c1
    → SameMarks f f1
    → Unmoved c1 f1 r
    → Unmoved c f r
Unmoved-trans c c1 f f1 none o m u = tt
Unmoved-trans c c1 f f1 (some (b, c', f')) o m (o', m') = (
  record {
    same_id = o'.same_id ∙ o.same_id;
    same_fd = o'.same_fd ∙ o.same_fd;
    same_limits = o'.same_limits ∙ o.same_limits;
  },
  record {
    same_close = m'.same_close ∙ m.same_close;
    same_registered = m'.same_registered ∙ m.same_registered;
  },
)

abbrev Later : (Connection → ConnectionFlow → Flushed) → Type 0
Later again = (c : Connection) (f : ConnectionFlow) → IsConnection c → Unmoved c f (again c f)

after_queue-Unmoved :
    (again : Connection → ConnectionFlow → Flushed) (c : Connection) (f : ConnectionFlow)
    (r : Bool × Connection)
    → Later again
    → IsConnection r.1
    → SameOwner c r.1
    → Unmoved c f (after_queue again f r)
unfolding after_queue
after_queue-Unmoved again c f (false, c') ih v o = (o, marks_refl)
after_queue-Unmoved again c f (true, c') ih v o =
    Unmoved-trans c c' f _ _ o (record { same_close = refl; same_registered = refl }) (ih c' _ v)

flush_found-Unmoved :
    (again : Connection → ConnectionFlow → Flushed) (c : Connection) (f : ConnectionFlow)
    (m : Option Message)
    → Later again
    → IsConnection c
    → Unmoved c f (flush_found again c f m)
unfolding flush_found
flush_found-Unmoved again c f none ih v =
    (record { same_id = refl; same_fd = refl; same_limits = refl }, marks_refl)
flush_found-Unmoved again c f (some m) ih v =
    let q = queue_output-Queues c m v in
    after_queue-Unmoved again c f (queue_output c m) ih (Queues-IsConnection c m _ v q)
      (Queues-SameOwner c m _ q)

flush_loop-Unmoved : (fuel : ℕ) → Later (flush_loop fuel)
unfolding flush_loop
flush_loop-Unmoved zero c f v = tt
flush_loop-Unmoved (suc fuel) c f v =
    flush_found-Unmoved (flush_loop fuel) c f _ (λ c f v. flush_loop-Unmoved fuel c f v) v

pub handle_completed_work-Unmoved :
    (sequence : ℕ) (response : Message) (c : Connection) (f : ConnectionFlow)
    → IsConnection c
    → Unmoved c f (handle_completed_work sequence response c f)
unfolding handle_completed_work flush_ready_responses
handle_completed_work-Unmoved sequence response c f v =
    let stored : ConnectionFlow = record f {
      completed_responses = emplace sequence response f.completed_responses;
    } in
    Unmoved-trans c c f stored (flush_ready_responses c stored)
      (record { same_id = refl; same_fd = refl; same_limits = refl })
      (record { same_close = refl; same_registered = refl })
      (flush_loop-Unmoved (suc (length stored.completed_responses)) c stored v)
