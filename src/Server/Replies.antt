-- ===== src/Server/Replies.antt =====
-- The responses of a connection whose requests are finished in any order: `HandleCompletedWork` again
-- and again, on the flow and the connection that it finds.
use pulse_core.Base.{
  ℕ, ◌≡◌, refl, sym, ap, ap₂, subst, map, ◌∙◌, Bool, true, false, none, some, List, [], ◌∷◌, ◌++◌,
  inl, inr, append-nil, append_assoc, ◌==◌, ==→eq, if◌then◌else◌, Bool-cases,
}
use pulse_core.Base.Maps.{find, contains, emplace}
use pulse_core.Codec.{Message}
use pulse_core.Connection.{Connection}
use pulse_core.Connection.Drain.{wire, wire-append}
use pulse_core.Connection.Output.{IsConnection, pending_output}
use pulse_core.Server.{ConnectionFlow, next_sequence, Flushed, handle_completed_work}
use pulse_core.Server.Order.{InOrder, stop, step, flush_ready_responses-Flushes}

-- Consecutive sequence numbers.
abbrev pub sequences : ℕ → List Message → List ℕ
sequences n [] = []
sequences n (m ∷ ms) = n ∷ sequences (next_sequence n) ms

abbrev pub after_sequences : ℕ → List Message → ℕ
after_sequences n [] = n
after_sequences n (m ∷ ms) = after_sequences (next_sequence n) ms

-- The map holds nothing but the answers to the requests.
abbrev pub Answers : (ℕ → Message) → List (ℕ × Message) → Type 0
Answers answer responses = (k : ℕ) (m : Message) → find k responses ≡ some m → m ≡ answer k

InOrder-Answers :
    (answer : ℕ → Message) {responses : List (ℕ × Message)} {n k : ℕ} {ms : List Message}
    → Answers answer responses
    → InOrder responses n ms k
    → ms ≡ map answer (sequences n ms)
InOrder-Answers answer a stop = refl
InOrder-Answers answer a (step {n} {m = m} h r) =
    ap₂ (λ (x : Message) (xs : List Message). x ∷ xs) (a n m h) (InOrder-Answers answer a r)

abbrev go_on : (Connection → ConnectionFlow → Flushed) → Flushed → Flushed
go_on again none = none
go_on again (some (false, c, f)) = some (false, c, f)
go_on again (some (true, c, f)) = again c f

-- The worker threads hand over the responses to the requests `ks`, in this order.
abbrev pub complete_all : (ℕ → Message) → List ℕ → Connection → ConnectionFlow → Flushed
complete_all answer [] c f = some (true, c, f)
complete_all answer (k ∷ ks) c f =
    go_on (complete_all answer ks) (handle_completed_work k (answer k) c f)

-- What has been queued for the peer are the answers to consecutive requests, in order.
pub record Serves (answer : ℕ → Message) (c : Connection) (f : ConnectionFlow) (r : Flushed)
    : Type 0 where
  pub verdict : Bool
  pub connection : Connection
  pub flow : ConnectionFlow
  pub responses : List Message
  pub result : r ≡ some (verdict, connection, flow)
  pub valid : IsConnection connection
  pub answers : Answers answer flow.completed_responses
  pub queued : pending_output connection ≡ pending_output c ++ wire responses
  pub ordered : responses ≡ map answer (sequences f.next_response_sequence responses)
  pub reached : flow.next_response_sequence ≡ after_sequences f.next_response_sequence responses

InOrder-after :
    {responses : List (ℕ × Message)} {n k : ℕ} {ms : List Message}
    → InOrder responses n ms k
    → k ≡ after_sequences n ms
InOrder-after stop = refl
InOrder-after (step h r) = InOrder-after r

stored_answer :
    (answer : ℕ → Message) (j k : ℕ) (responses : List (ℕ × Message)) (m : Message) (b : Bool)
    → j == k ≡ b
    → Answers answer responses
    → (if b then some (answer j) else find k responses) ≡ some m
    → m ≡ answer k
stored_answer answer j k responses m true same a h =
    let e : answer j ≡ m = cc in sym e ∙ ap answer (==→eq j k same)
stored_answer answer j k responses m false other a h = a k m h

emplace-Answers :
    (answer : ℕ → Message) (j : ℕ) (responses : List (ℕ × Message))
    → Answers answer responses
    → Answers answer (emplace j (answer j) responses)
unfolding emplace find
emplace-Answers answer j responses a k m h = elim (Bool-cases (contains j responses)) [
  | inl there ↦ a k m (
      subst (λ (b : Bool). find k (if b then responses else (j, answer j) ∷ responses) ≡ some m)
        there h)
  | inr absent ↦ stored_answer answer j k responses m (j == k) refl a (
      subst (λ (b : Bool). find k (if b then responses else (j, answer j) ∷ responses) ≡ some m)
        absent h)
]

-- One completion.
handle-Serves :
    (answer : ℕ → Message) (k : ℕ) (c : Connection) (f : ConnectionFlow)
    → IsConnection c
    → Answers answer f.completed_responses
    → Serves answer c f (handle_completed_work k (answer k) c f)
unfolding handle_completed_work
handle-Serves answer k c f v a =
    let stored = emplace-Answers answer k f.completed_responses a in
    let x =
      flush_ready_responses-Flushes c
        (record f { completed_responses = emplace k (answer k) f.completed_responses }) v in
    record {
      verdict = x.verdict;
      connection = x.connection;
      flow = x.flow;
      responses = x.responses;
      result = x.result;
      valid = x.valid;
      answers = λ j m e. stored j m (x.kept j m e);
      queued = x.queued;
      ordered = InOrder-Answers answer stored x.in_order;
      reached = InOrder-after x.in_order;
    }

sequences-append :
    (answer : ℕ → Message) (n : ℕ) (xs ys : List Message)
    → map answer (sequences n (xs ++ ys))
      ≡ map answer (sequences n xs) ++ map answer (sequences (after_sequences n xs) ys)
sequences-append answer n [] ys = refl
sequences-append answer n (x ∷ xs) ys =
    ap (λ (t : List Message). answer n ∷ t) (sequences-append answer (next_sequence n) xs ys)

after_sequences-append :
    (n : ℕ) (xs ys : List Message)
    → after_sequences n (xs ++ ys) ≡ after_sequences (after_sequences n xs) ys
after_sequences-append n [] ys = refl
after_sequences-append n (x ∷ xs) ys = after_sequences-append (next_sequence n) xs ys

-- Completions after a first one.
Serves-trans :
    (answer : ℕ → Message) (c : Connection) (f : ConnectionFlow) (q r : Flushed)
    (x : Serves answer c f q)
    → Serves answer x.connection x.flow r
    → Serves answer c f r
Serves-trans answer c f q r x y = record {
  verdict = y.verdict;
  connection = y.connection;
  flow = y.flow;
  responses = x.responses ++ y.responses;
  result = y.result;
  valid = y.valid;
  answers = y.answers;
  queued =
      y.queued
      ∙ ap (λ (t : List ℕ). t ++ wire y.responses) x.queued
      ∙ append_assoc (pending_output c) (wire x.responses) (wire y.responses)
      ∙ ap (λ (t : List ℕ). pending_output c ++ t) (sym (wire-append x.responses y.responses));
  ordered =
      ap₂ (λ (s t : List Message). s ++ t) x.ordered
        (y.ordered ∙ ap (λ (n : ℕ). map answer (sequences n y.responses)) x.reached)
      ∙ sym (sequences-append answer f.next_response_sequence x.responses y.responses);
  reached =
      y.reached
      ∙ ap (λ (n : ℕ). after_sequences n y.responses) x.reached
      ∙ sym (after_sequences-append f.next_response_sequence x.responses y.responses);
}

go_on-Serves :
    (answer : ℕ → Message) (ks : List ℕ) (c : Connection) (f : ConnectionFlow) (q : Flushed)
    (b : Bool) (x : Serves answer c f q)
    → x.verdict ≡ b
    → (Serves answer x.connection x.flow (complete_all answer ks x.connection x.flow))
    → Serves answer c f (go_on (complete_all answer ks) (some (b, x.connection, x.flow)))
go_on-Serves answer ks c f q true x e y = Serves-trans answer c f q _ x y
go_on-Serves answer ks c f q false x e y = record {
  verdict = false;
  connection = x.connection;
  flow = x.flow;
  responses = x.responses;
  result = refl;
  valid = x.valid;
  answers = x.answers;
  queued = x.queued;
  ordered = x.ordered;
  reached = x.reached;
}

-- In whatever order the worker threads finish the requests of a connection, and after a repeated
-- completion too: what has been put into its output buffer is the frames of the answers to consecutive
-- requests, from the next one to be answered on and in the order of the requests, where the connection
-- is well formed and the responses that wait are answers to their requests.
pub complete_all-Serves :
    (answer : ℕ → Message) (ks : List ℕ) (c : Connection) (f : ConnectionFlow)
    → IsConnection c
    → Answers answer f.completed_responses
    → Serves answer c f (complete_all answer ks c f)
complete_all-Serves answer [] c f v a = record {
  verdict = true;
  connection = c;
  flow = f;
  responses = [];
  result = refl;
  valid = v;
  answers = a;
  queued = sym (append-nil (pending_output c));
  ordered = refl;
  reached = refl;
}
complete_all-Serves answer (k ∷ ks) c f v a =
    let x = handle-Serves answer k c f v a in
    subst (λ (q : Flushed). Serves answer c f (go_on (complete_all answer ks) q)) (sym x.result)
      (go_on-Serves answer ks c f _ x.verdict x refl
        (complete_all-Serves answer ks x.connection x.flow x.valid x.answers))
