-- ===== src/Codec/Stream.antt =====
-- The `FrameDecoder` of src/protocol/codec.cpp as a queue of pending bytes.
use pulse_core.Base.{
  ℕ, ◌+◌, ◌*◌, ◌/◌, ◌≤◌, ◌<◌, ◌≡◌, refl, sym, ap, ◌∙◌, List, ◌++◌, arith, ◌==◌, ==→eq, leb, leb→lt,
  Bool-cases, inl, inr, ◌⊎◌, length, length-append, length-drop, take, drop, drop-append, drop-drop,
  drop-length, take-append-drop, All, All-append, All-drop,
}
use pulse_core.Codec.{
  IsByte, Message, DecodeResult, need_more_data, decoded, error, try_decode_frame, FrameDecoder,
  new_decoder, append, compact_if_needed, pending, advance, next, buffered_size, ProtocolError,
}
use pulse_core.Codec.Decode.{encode_message-try_decode_frame}

-- The offset lies in the buffer, and consumed bytes make up half of the buffer at most.
pub record IsDecoder (d : FrameDecoder) : Type 0 where
  pub bytes : All IsByte d.buffer
  pub within : d.read_offset ≤ length d.buffer
  pub compact : 2 * d.read_offset ≤ length d.buffer

pub new_decoder-IsDecoder : IsDecoder new_decoder
new_decoder-IsDecoder = omega arith

pub append-IsDecoder :
    (d : FrameDecoder) (bytes : List ℕ)
    → IsDecoder d
    → All IsByte bytes
    → IsDecoder (append d bytes)
unfolding append
append-IsDecoder d bytes v b = record {
  bytes = All-append IsByte d.buffer bytes v.bytes b;
  within = omega (arith, length-append d.buffer bytes, v.within);
  compact = omega (arith, length-append d.buffer bytes, v.compact);
}

pub pending-append :
    (d : FrameDecoder) (bytes : List ℕ)
    → IsDecoder d
    → pending (append d bytes) ≡ pending d ++ bytes
unfolding append
pending-append d bytes v = drop-append d.read_offset d.buffer bytes v.within

pub pending-IsByte : (d : FrameDecoder) → IsDecoder d → All IsByte (pending d)
pending-IsByte d v = All-drop IsByte d.read_offset d.buffer v.bytes

pub buffered_size-pending : (d : FrameDecoder) → buffered_size d ≡ length (pending d)
unfolding buffered_size
buffered_size-pending d = sym (length-drop d.read_offset d.buffer)

module _ {ℓ} (P : FrameDecoder → Type ℓ) (d : FrameDecoder) where
  compact_cases :
      ((d.read_offset ≡ 0) ⊎ (d.read_offset < length d.buffer / 2) → P d)
      → (d.read_offset ≡ length d.buffer → P new_decoder)
      → P (record { buffer = drop d.read_offset d.buffer; read_offset = 0 })
      → P (compact_if_needed d)
  unfolding compact_if_needed
  compact_cases keep clear cut = elim (Bool-cases (d.read_offset == 0)) [
    | inl e ↦ rw e (keep (inl (==→eq _ _ e)))
    | inr e ↦ rw e (elim (Bool-cases (d.read_offset == length d.buffer)) [
      | inl e' ↦ rw e' (clear (==→eq _ _ e'))
      | inr e' ↦ rw e' (elim (Bool-cases (leb (length d.buffer / 2) d.read_offset)) [
        | inl h ↦ rw h cut
        | inr h ↦ rw h (keep (inr (leb→lt _ _ h)))
      ])
    ])
  ]

-- Compaction changes no pending byte, on any decoder.
pub pending-compact_if_needed : (d : FrameDecoder) → pending (compact_if_needed d) ≡ pending d
pending-compact_if_needed d =
    compact_cases (λ c. pending c ≡ pending d) d (λ _. refl)
      (λ e. sym (drop-length d.buffer) ∙ ap (λ n. drop n d.buffer) (sym e)) refl

-- It leaves at most half of the buffer consumed.
compact_if_needed-IsDecoder :
    (d : FrameDecoder)
    → d.read_offset ≤ length d.buffer
    → All IsByte d.buffer
    → IsDecoder (compact_if_needed d)
compact_if_needed-IsDecoder d h b =
    compact_cases IsDecoder d
      (λ small. record { bytes = b; within = h; compact = omega (arith, small) })
      (λ _. new_decoder-IsDecoder)
      (record {
        bytes = All-drop IsByte d.read_offset d.buffer b;
        within = omega arith;
        compact = omega arith;
      })

advance_result : (d : FrameDecoder) (r : DecodeResult) → (advance d r).0 ≡ r
unfolding advance
advance_result d need_more_data = refl
advance_result d (decoded m n) = refl
advance_result d (error e) = refl

-- `Next` answers as the decoder does on the pending bytes.
pub next_result : (d : FrameDecoder) → (next d).0 ≡ try_decode_frame (pending d)
unfolding next
next_result d = advance_result d (try_decode_frame (pending d))

-- On a valid decoder, when a message is at the front of the pending bytes, `Next` returns it,
-- takes its frame off the front of them and leaves a valid decoder.
pub next_decoded :
    (d : FrameDecoder) (m : Message) (n : ℕ)
    → IsDecoder d
    → try_decode_frame (pending d) ≡ decoded m n
    → (d' : FrameDecoder) × (next d ≡ (decoded m n, d'))
      × IsDecoder d'
      × (pending d ≡ take n (pending d) ++ pending d')
unfolding next
next_decoded d m n v e =
    let moved = record d { read_offset = d.read_offset + n } in
    let fits = (encode_message-try_decode_frame (pending d) m n (pending-IsByte d v) e).2 in
    (
      compact_if_needed moved,
      rw e refl,
      compact_if_needed-IsDecoder moved
          (omega (arith, fits, length-drop d.read_offset d.buffer, v.within)) v.bytes,
      rw (pending-compact_if_needed moved, ← drop-drop n d.read_offset d.buffer)
          (sym (take-append-drop n (pending d))),
    )

-- Any other answer leaves the decoder as it was.
pub next_waits :
    (d : FrameDecoder)
    → try_decode_frame (pending d) ≡ need_more_data
    → next d ≡ (need_more_data, d)
unfolding next
next_waits d e = rw e refl

pub next_fails :
    (d : FrameDecoder) (x : ProtocolError)
    → try_decode_frame (pending d) ≡ error x
    → next d ≡ (error x, d)
unfolding next
next_fails d x e = rw e refl
