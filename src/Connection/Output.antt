-- ===== src/Connection/Output.antt =====
-- `QueueOutput` and `CompactOutputBuffer` of src/network/connection.cpp: the output buffer as a
-- queue of bytes.
use pulse_core.Base.{
  ℕ, ◌+◌, ◌≤◌, ◌<◌, ◌≡◌, refl, sym, ap, ◌∙◌, Bool, true, false, none, some, List, ◌++◌, inl, inr,
  arith, ◌==◌, leb, leb→le, ==→eq, Bool-cases, Option-cases, length, length-append, length-drop,
  length-zero, drop, drop-length,
}
use native.Mathlib.Decide.{dec_lt}
use pulse_core.Codec.{Message, buffered_size, encode_message}
use pulse_core.Codec.Stream.{IsDecoder}
use pulse_core.Connection.{
  Connection, ConnectionLimits, new_connection, pending_output_bytes, compact_output_buffer,
  store_output, queue_output,
}

-- The bytes that are queued and not yet sent.
abbrev pub pending_output : Connection → List ℕ
pending_output c = drop c.output_offset c.output_buffer

-- What every method keeps: a valid decoder, and both buffers within their limits.
pub record IsConnection (c : Connection) : Type 0 where
  pub decoder : IsDecoder c.decoder
  pub input_fits : buffered_size c.decoder ≤ c.limits.max_input_buffer
  pub sent_within : c.output_offset ≤ length c.output_buffer
  pub output_fits : length c.output_buffer ≤ c.limits.max_output_buffer

pub new_connection-IsConnection :
    (id fd : ℕ) (limits : ConnectionLimits) → IsConnection (new_connection id fd limits)
unfolding new_connection buffered_size
new_connection-IsConnection id fd limits = omega arith

pub pending_output_bytes-length :
    (c : Connection) → pending_output_bytes c ≡ length (pending_output c)
unfolding pending_output_bytes
pending_output_bytes-length c = sym (length-drop c.output_offset c.output_buffer)

-- The connection whose buffer holds the pending bytes and nothing else.
abbrev compacted : Connection → Connection
compacted c = record c { output_buffer = pending_output c; output_offset = 0 }

compact_output_buffer-compacted :
    (c : Connection)
    → c.output_offset ≤ length c.output_buffer
    → compact_output_buffer c ≡ compacted c
unfolding compact_output_buffer
compact_output_buffer-compacted c h = elim (Bool-cases (c.output_offset == 0)) [
  | inl e ↦
      let z = ==→eq c.output_offset 0 e in
      let p = ap (λ n. drop n c.output_buffer) (sym z) in
      rw e (λ i. record c { output_buffer = p i; output_offset = z i })
  | inr e ↦ rw e (elim (Bool-cases (leb (length c.output_buffer) c.output_offset)) [
    | inl all ↦
        let z : c.output_offset ≡ length c.output_buffer =
          omega (arith, leb→le (length c.output_buffer) c.output_offset all) in
        let p = sym (ap (λ n. drop n c.output_buffer) z ∙ drop-length c.output_buffer) in
        rw all (λ i. record c { output_buffer = p i; output_offset = 0 })
    | inr some_left ↦ rw some_left refl
  ])
]

store_output_accepts :
    (c : Connection) (bytes : List ℕ)
    → length (pending_output c) + length bytes ≤ c.limits.max_output_buffer
    → store_output (compacted c) bytes
      ≡ (true, record c { output_buffer = pending_output c ++ bytes; output_offset = 0 })
unfolding store_output
store_output_accepts c bytes h = ground (arith, length-zero (pending_output c))

store_output_refuses :
    (c : Connection) (bytes : List ℕ)
    → c.limits.max_output_buffer < length (pending_output c) + length bytes
    → store_output (compacted c) bytes ≡ (false, compacted c)
unfolding store_output
store_output_refuses c bytes h = ground arith

module _ (c : Connection) (m : Message) (v : IsConnection c) where
  -- A message that cannot be encoded is refused, and the connection stays as it was.
  pub queue_output_unencodable : encode_message m ≡ none → queue_output c m ≡ (false, c)
  unfolding queue_output
  queue_output_unencodable e = rw (e, queue_output) refl

  module _ (bytes : List ℕ) (e : encode_message m ≡ some bytes) where
    -- A message that fits behind the pending bytes is appended whole.
    pub queue_output_accepts :
        length (pending_output c) + length bytes ≤ c.limits.max_output_buffer
        → queue_output c m
          ≡ (true, record c { output_buffer = pending_output c ++ bytes; output_offset = 0 })
    unfolding queue_output
    queue_output_accepts h =
        rw (e, queue_output, compact_output_buffer-compacted c v.sent_within)
          (store_output_accepts c bytes h)

    -- One that does not fit is refused, and the pending bytes stay.
    pub queue_output_refuses :
        c.limits.max_output_buffer < length (pending_output c) + length bytes
        → queue_output c m ≡ (false, compacted c)
    unfolding queue_output
    queue_output_refuses h =
        rw (e, queue_output, compact_output_buffer-compacted c v.sent_within)
          (store_output_refuses c bytes h)

-- Every outcome of `QueueOutput`, with the connection that it leaves.
pub data Queues (c : Connection) (m : Message) (r : Bool × Connection) : Type 0 where
  accepted :
      (bytes : List ℕ)
      → encode_message m ≡ some bytes
      → length (pending_output c) + length bytes ≤ c.limits.max_output_buffer
      → r ≡ (true, record c { output_buffer = pending_output c ++ bytes; output_offset = 0 })
      → Queues c m r
  overfull :
      (bytes : List ℕ)
      → encode_message m ≡ some bytes
      → c.limits.max_output_buffer < length (pending_output c) + length bytes
      → r ≡ (false, record c { output_buffer = pending_output c; output_offset = 0 })
      → Queues c m r
  unencodable : encode_message m ≡ none → r ≡ (false, c) → Queues c m r

-- On a well-formed connection, `QueueOutput` appends the encoded message whole behind the pending bytes when both fit the limit, and
-- otherwise answers false and leaves the pending bytes as they were.
pub queue_output-Queues :
    (c : Connection) (m : Message) → IsConnection c → Queues c m (queue_output c m)
queue_output-Queues c m v = elim (Option-cases (encode_message m)) [
  | inl e ↦ unencodable e (queue_output_unencodable c m v e)
  | inr (bytes, e) ↦
      elim (dec_lt c.limits.max_output_buffer (length (pending_output c) + length bytes)) [
        | yes h ↦ overfull bytes e h (queue_output_refuses c m v bytes e h)
        | no h ↦
            let fits : length (pending_output c) + length bytes ≤ c.limits.max_output_buffer =
              omega arith in
            accepted bytes e fits (queue_output_accepts c m v bytes e fits)
      ]
]

pub Queues-IsConnection :
    (c : Connection) (m : Message) (r : Bool × Connection)
    → IsConnection c
    → Queues c m r
    → IsConnection r.1
Queues-IsConnection c m r v (accepted bytes e fits out) = rw out (record {
  decoder = v.decoder;
  input_fits = v.input_fits;
  sent_within = omega arith;
  output_fits = omega (arith, length-append (pending_output c) bytes);
})
Queues-IsConnection c m r v (overfull bytes e h out) = rw out (record {
  decoder = v.decoder;
  input_fits = v.input_fits;
  sent_within = omega arith;
  output_fits = omega (arith, length-drop c.output_offset c.output_buffer, v.output_fits);
})
Queues-IsConnection c m r v (unencodable e out) = rw out v

-- `QueueOutput` keeps a well-formed connection well formed, on every branch: the output buffer never
-- outgrows its limit.
pub queue_output-IsConnection :
    (c : Connection) (m : Message) → IsConnection c → IsConnection (queue_output c m).1
queue_output-IsConnection c m v = Queues-IsConnection c m _ v (queue_output-Queues c m v)
